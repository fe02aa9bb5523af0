-- ===== src/Netlist/Words/Recorded.antt =====
-- src/Netlist.h: `getResult` computes the value of a node at each index, from whatever words earlier
-- calls have left in `recordMap`.
use multi_bit_large_scale_bo.Base.{
  ℕ, zero, suc, ◌<◌, ◌≡◌, refl, fun_ext, All-map, ==_ne, ok, arith, List, get_elem?, some,
}
use multi_bit_large_scale_bo.Base.Int.{pos}
use multi_bit_large_scale_bo.Gate.{GateType}
use multi_bit_large_scale_bo.Netlist.{Ptr, Heap, null}
use multi_bit_large_scale_bo.Netlist.Meaning.{
  value, IsMapped, IsNetlist, IsUsed, fan_ins-IsUsed, value_step,
}
use multi_bit_large_scale_bo.Netlist.Words.{
  Bits, PiValue, RecordMap, M, input_word, remember, gate_word, get_result,
}
use multi_bit_large_scale_bo.Netlist.Words.Gives.{
  Gives, IsRecord, gate_bits, Gives-recall, Gives-remember,
}
use multi_bit_large_scale_bo.Netlist.Words.Gates.{GivesAll, gate_word-IsSound}

-- Every input has its place in `_gate[INPUT]` as its index.
abbrev pub IsIndexed : Heap → List Ptr → Type 0
IsIndexed h inputs =
    (g : Ptr)
    → (h g).type ≡ GateType.input
    → (k : ℕ) × ((h g).idx ≡ pos k) × (get_elem? inputs k ≡ some g)

module _ {h : Heap} {rank : Ptr → ℕ} {depth : ℕ} (net : IsNetlist h rank depth) (inputs : List Ptr)
    (indexed : IsIndexed h inputs) (pi : PiValue) where
  abbrev W : Ptr → Bits
  W g i = value depth h (λ p. pi p i) g

  -- One node, whose type is `t`, with the simulation `go` of its fan-ins.
  node_sound :
      (go : Ptr → M) (g : Ptr) (t : GateType)
      → (h g).type ≡ t
      → IsMapped t (h g).inv (h g).fi
      → GivesAll W go (h g).fi
      → W g ≡ (λ i. elim t [ GateType.input ↦ pi g i | t' ↦ gate_bits W t' (h g).inv (h g).fi i ])
      → Gives W (W g) (elim t [
        | GateType.input ↦ input_word inputs pi (h g)
        | t' ↦ remember g (gate_word go t' (h g).inv (h g).fi)
      ])
  unfolding input_word
  node_sound go g GateType.input is_input mapped all e =
      let (k, at, found) = indexed g is_input in λ m r. (m, rw (input_word, at, found, e) refl, r)
  node_sound go g t other mapped all e =
      Gives-remember W g _ (rw e (gate_word-IsSound W go t (h g).inv (h g).fi mapped (cc) all))

  get_result_sound :
      (fuel : ℕ) (g : Ptr)
      → rank g < fuel
      → IsUsed rank g
      → Gives W (W g) (get_result fuel h inputs pi g)
  unfolding get_result
  get_result_sound zero g less live = absurd (omega arith)
  get_result_sound (suc fuel) g less live = rw (==_ne g null live.0) (
      Gives-recall W g _ (
        node_sound (λ p. get_result fuel h inputs pi p) g (h g).type refl (net.mapped g live.1)
          (All-map (h g).fi (λ p r. get_result_sound fuel p (omega arith) r.0)
            (fan_ins-IsUsed net g))
          (fun_ext λ i. value_step net.acyclic (λ p. pi p i) g)))

  -- On a netlist without a cycle, whose nodes in use are inputs and mapped gates with fan-ins in use (no
  -- ONEBUF and no INV, and no complemented operand of a NAND or NOR), and whose inputs have their places in
  -- `_gate[INPUT]` as indices: `getResult` for a node in use returns at each of its indices the value of
  -- the node under the bits of the inputs there, if the words in `recordMap` are such values, and leaves
  -- only such words in it.
  pub get_result-eq-value :
      (g : Ptr) (m : RecordMap)
      → IsUsed rank g
      → IsRecord (λ p i. value depth h (λ q. pi q i) p) m
      → (m' : RecordMap) × (get_result depth h inputs pi g m
          ≡ ok (λ i. value depth h (λ q. pi q i) g, m'))
        × IsRecord (λ p i. value depth h (λ q. pi q i) p) m'
  get_result-eq-value g m live r = get_result_sound depth g (net.bounded g) live m r
