-- ===== src/Netlist/Words/Sound.antt =====
-- The word simulations compute, at each index, the value of the node under the inputs' bits there.
use multi_bit_large_scale_bo.Base.{ℕ, zero, suc, ◌<◌, ◌≡◌, fun_ext, All-map, ==_ne, ok, arith}
use multi_bit_large_scale_bo.Gate.{GateType}
use multi_bit_large_scale_bo.Netlist.{Ptr, Heap, null}
use multi_bit_large_scale_bo.Netlist.Meaning.{
  value, IsMapped, IsNetlist, IsUsed, fan_ins-IsUsed, value_step,
}
use multi_bit_large_scale_bo.Netlist.Words.{
  Bits, PiValue, empty_record, M, word, remember, miter_gate_word, miter_get_result,
  miter_random_simulate,
}
use multi_bit_large_scale_bo.Netlist.Words.Gives.{
  Gives, Gives-word, gate_bits, Gives-recall, Gives-remember,
}
use multi_bit_large_scale_bo.Netlist.Words.Gates.{GivesAll, miter_gate_word_sound}

module _ {h : Heap} {rank : Ptr → ℕ} {depth : ℕ} (net : IsNetlist h rank depth) (pi : PiValue) where
  -- The word of a node: its value under the bits of the inputs, at each index.
  abbrev pub value_word : Ptr → Bits
  value_word g i = value depth h (λ p. pi p i) g

  -- One node, whose type is `t`, with the simulation `go` of its fan-ins.
  miter_node_sound :
      (go : Ptr → M) (g : Ptr) (t : GateType)
      → IsMapped t (h g).inv (h g).fi
      → GivesAll value_word go (h g).fi
      → value_word g ≡ (λ i. elim t [
        | GateType.input ↦ pi g i
        | t' ↦ gate_bits value_word t' (h g).inv (h g).fi i
      ])
      → Gives value_word (value_word g) (elim t [
        | GateType.input ↦ word (pi g)
        | t' ↦ remember g (miter_gate_word go t' (h g).inv (h g).fi)
      ])
  miter_node_sound go g GateType.input mapped all e = rw e (Gives-word value_word (pi g))
  miter_node_sound go g t mapped all e =
      Gives-remember value_word g _
        (rw e (miter_gate_word_sound value_word go t (h g).inv (h g).fi mapped (cc) all))

  -- `miterGetResult` with enough fuel for the rank of the node.
  miter_get_result_sound :
      (fuel : ℕ) (g : Ptr)
      → rank g < fuel
      → IsUsed rank g
      → Gives value_word (value_word g) (miter_get_result fuel h pi g)
  unfolding miter_get_result
  miter_get_result_sound zero g less live = absurd (omega arith)
  miter_get_result_sound (suc fuel) g less live = rw (==_ne g null live.0) (
      Gives-recall value_word g _ (
        miter_node_sound (λ p. miter_get_result fuel h pi p) g (h g).type (net.mapped g live.1)
          (All-map (h g).fi (λ p r. miter_get_result_sound fuel p (omega arith) r.0)
            (fan_ins-IsUsed net g))
          (fun_ext λ i. value_step net.acyclic (λ p. pi p i) g)))

  -- On a netlist without a cycle, whose nodes in use are inputs and mapped gates with fan-ins in use:
  -- `miterRandomSimulate` for a node in use returns, at each of its indices, the value of the node under
  -- the bits of the inputs at that index.
  pub miter_random_simulate-eq-value :
      (g : Ptr)
      → IsUsed rank g
      → miter_random_simulate depth h pi g ≡ ok (λ i. value depth h (λ p. pi p i) g)
  unfolding miter_random_simulate
  miter_random_simulate-eq-value g live =
      let (m', e, _) =
        miter_get_result_sound depth g (net.bounded g) live empty_record (λ p w e. cc) in
      rw e
