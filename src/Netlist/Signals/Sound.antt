-- ===== src/Netlist/Signals/Sound.antt =====
-- The scalar simulation stores in each node it visits the node's value.
use multi_bit_large_scale_bo.Base.{
  ℕ, zero, suc, ◌-◌, ◌<◌, ◌≡◌, refl, sym, ap, ◌∙◌, subst, ◌⊎◌, inl, inr, Bool, true, false, List,
  [], ◌∷◌, map, length, All, All-map, ltb, Run, ok, arith, Bool-cases,
}
use multi_bit_large_scale_bo.Gate.{GateType, Signal, gate_function, complement}
use multi_bit_large_scale_bo.Netlist.{Ptr, Heap}
use multi_bit_large_scale_bo.Netlist.Meaning.{
  Assignment, value, local_value, value_step, IsAcyclic, All-and,
}
use multi_bit_large_scale_bo.Netlist.Signals.{
  is_dontcare, set_signal, copy_signals, gate_signal, output_value_body, visit_fan_ins,
  output_value, get_signal,
}

-- The signal of a Boolean value.
abbrev pub signal_of : Bool → Signal
signal_of true = Signal.one
signal_of false = Signal.zero

complement_zero : (bs : List Bool) → complement 0 bs ≡ bs
complement_zero [] = refl
complement_zero (b ∷ bs) = refl

-- The copies are the operands' values, the first ones complemented.
copy_signals_lem :
    (h : Heap) (v : Ptr → Bool) (inv i : ℕ) (fi : List Ptr)
    → All (λ p. (h p).signal ≡ signal_of (v p)) fi
    → copy_signals h inv i fi ≡ ok (map signal_of (complement (inv - i) (map v fi)))
unfolding copy_signals
copy_signals_lem h v inv i [] e = refl
copy_signals_lem h v inv i (p ∷ fi) e = elim (Bool-cases (ltb i inv)) [
  | inl low ↦
      let s : inv - i ≡ suc (inv - suc i) = ground arith in
      rw (s, low, e.0, copy_signals_lem h v inv (suc i) fi e.1) (ground arith)
  | inr high ↦
      let s : inv - i ≡ 0 = ground arith in
      let s' : inv - suc i ≡ 0 = ground arith in
      rw (s, high, e.0, copy_signals_lem h v inv (suc i) fi e.1, s', complement_zero) (ground arith)
]

-- With its operands' values a gate of the right arity has the signal of its Boolean function.
abbrev HasOperands : GateType → ℕ → Type 0
HasOperands GateType.output n = n ≡ 1
HasOperands GateType.buf n = n ≡ 1
HasOperands GateType.inv n = n ≡ 1
HasOperands GateType.and n = n ≡ 2
HasOperands GateType.or n = n ≡ 2
HasOperands GateType.xor n = n ≡ 2
HasOperands GateType.nand n = n ≡ 2
HasOperands GateType.nor n = n ≡ 2
HasOperands GateType.facarry n = n ≡ 3
HasOperands GateType.zerobuf n = Unit
HasOperands GateType.onebuf n = Unit
HasOperands _ n = ⊥

gate_signal_lem :
    (t : GateType) (own : Signal) (bs : List Bool)
    → HasOperands t (length bs)
    → gate_signal t own (map signal_of bs) ≡ ok (signal_of (gate_function t bs))
unfolding gate_signal
gate_signal_lem GateType.zerobuf own bs h = refl
gate_signal_lem GateType.onebuf own bs h = refl
gate_signal_lem _ own [] h = ground arith
gate_signal_lem _ own (true ∷ []) h = ground arith
gate_signal_lem _ own (false ∷ []) h = ground arith
gate_signal_lem _ own (true ∷ true ∷ []) h = ground arith
gate_signal_lem _ own (true ∷ false ∷ []) h = ground arith
gate_signal_lem _ own (false ∷ true ∷ []) h = ground arith
gate_signal_lem _ own (false ∷ false ∷ []) h = ground arith
gate_signal_lem _ own (true ∷ true ∷ true ∷ []) h = ground arith
gate_signal_lem _ own (true ∷ true ∷ false ∷ []) h = ground arith
gate_signal_lem _ own (true ∷ false ∷ true ∷ []) h = ground arith
gate_signal_lem _ own (true ∷ false ∷ false ∷ []) h = ground arith
gate_signal_lem _ own (false ∷ true ∷ true ∷ []) h = ground arith
gate_signal_lem _ own (false ∷ true ∷ false ∷ []) h = ground arith
gate_signal_lem _ own (false ∷ false ∷ true ∷ []) h = ground arith
gate_signal_lem _ own (false ∷ false ∷ false ∷ []) h = ground arith
gate_signal_lem _ own (a ∷ b ∷ c ∷ d ∷ bs) h = ground arith

length-complement : (k : ℕ) (bs : List Bool) → length (complement k bs) ≡ length bs
length-complement k [] = refl
length-complement zero (b ∷ bs) = refl
length-complement (suc k) (b ∷ bs) = ap suc (length-complement k bs)

length-map_list : (f : Ptr → Bool) (ps : List Ptr) → length (map f ps) ≡ length ps
length-map_list f [] = refl
length-map_list f (p ∷ ps) = ap suc (length-map_list f ps)

signal_of-is_set : (b : Bool) → is_dontcare (signal_of b) ≡ false
signal_of-is_set true = refl
signal_of-is_set false = refl

-- An input without fan-ins, or a gate with as many operands as its type takes; any number of them
-- may be complemented.
abbrev pub IsEvaluable : GateType → ℕ → Type 0
IsEvaluable GateType.input n = n ≡ 0
IsEvaluable t n = HasOperands t n

-- What a simulation may assume and keeps: `h` differs from the netlist `h₀` in signals alone, the
-- inputs have their signals, and a signal of a node in use that is set is the value of the node.
pub record IsSettled (h₀ : Heap) (rank : Ptr → ℕ) (v : Ptr → Bool) (h : Heap) : Type 0 where
  pub types : (p : Ptr) → (h p).type ≡ (h₀ p).type
  pub invs : (p : Ptr) → (h p).inv ≡ (h₀ p).inv
  pub fis : (p : Ptr) → (h p).fi ≡ (h₀ p).fi
  pub signals :
      (p : Ptr) → 0 < rank p → ((h p).signal ≡ Signal.dontcare) ⊎ ((h p).signal ≡ signal_of (v p))
  pub inputs : (p : Ptr) → (h₀ p).type ≡ GateType.input → (h p).signal ≡ signal_of (v p)

-- The signals that are set stay set.
abbrev Extends : (Ptr → Bool) → Heap → Heap → Type 0
Extends v h h' = (p : Ptr) → (h p).signal ≡ signal_of (v p) → (h' p).signal ≡ signal_of (v p)

set_signal-IsSettled :
    (h₀ : Heap) (rank : Ptr → ℕ) (v : Ptr → Bool) (h : Heap) (g : Ptr)
    → IsSettled h₀ rank v h
    → IsSettled h₀ rank v (set_signal h g (signal_of (v g)))
      × Extends v h (set_signal h g (signal_of (v g)))
set_signal-IsSettled h₀ rank v h g s = (
  record {
    types = λ p. ground (arith, s.types p);
    invs = λ p. ground (arith, s.invs p);
    fis = λ p. ground (arith, s.fis p);
    signals = λ p u. ground (arith, s.signals p u);
    inputs = λ p e. ground (arith, s.inputs p e);
  },
  λ p e. ground arith,
)

module _ {h₀ : Heap} {rank : Ptr → ℕ} {depth : ℕ} (net : IsAcyclic h₀ rank depth)
    (gates : (p : Ptr) → 0 < rank p → IsEvaluable (h₀ p).type (length (h₀ p).fi))
    (used : (g : Ptr) → All (λ p. 0 < rank p) (h₀ g).fi) (ρ : Assignment) where
  abbrev v : Ptr → Bool
  v p = value depth h₀ ρ p

  -- What a call for `g` achieves.
  record Done (h h' : Heap) (g : Ptr) : Type 0 where
    settled : IsSettled h₀ rank v h'
    extends : Extends v h h'
    signal : (h' g).signal ≡ signal_of (v g)

  -- The signal of a node whose type is `t`, with the values of its operands.
  node_signal :
      (t : GateType) (own : Signal) (b : Bool) (k : ℕ) (fi : List Ptr)
      → IsEvaluable t (length fi)
      → (t ≡ GateType.input → own ≡ signal_of b)
      → gate_signal t own (map signal_of (complement k (map v fi)))
        ≡ ok (
            signal_of
              (elim t [ GateType.input ↦ b | t' ↦ gate_function t' (complement k (map v fi)) ]))
  unfolding gate_signal
  node_signal GateType.input own b k fi h e = ap ok (e refl)
  node_signal t own b k fi h e =
      gate_signal_lem t own (complement k (map v fi))
        (subst (HasOperands t) (sym (length-complement k (map v fi) ∙ length-map_list v fi)) h)

  body_lem :
      (h : Heap) (g : Ptr)
      → 0 < rank g
      → IsSettled h₀ rank v h
      → All (λ p. (h p).signal ≡ signal_of (v p)) (h₀ g).fi
      → output_value_body h g ≡ ok (signal_of (v g))
  unfolding output_value_body
  body_lem h g live s operands =
      rw
        (
          s.types g,
          s.invs g,
          s.fis g,
          copy_signals_lem h v (h₀ g).inv 0 (h₀ g).fi operands,
          minus_zero,
          value_step net ρ g,
        )
        (node_signal (h₀ g).type (h g).signal (ρ g) (h₀ g).inv (h₀ g).fi (gates g live)
          (λ e. s.inputs g e ∙ ap signal_of (value_step net ρ g ∙ rw (local_value, e) refl)))
    where
      minus_zero : (h₀ g).inv - 0 ≡ (h₀ g).inv
      minus_zero = omega arith

  -- A call for `g` from the heap `h` succeeds with what it should achieve.
  abbrev Succeeds : (Heap → Run Heap) → Ptr → Heap → Type 0
  Succeeds call g h = (h' : Heap) × (call h ≡ ok h') × Done h h' g

  -- The loop over fan-ins, where the calls succeed.
  visit_lem :
      (go : Ptr → Heap → Run Heap) (fi : List Ptr)
      → All (λ p. (h : Heap) → IsSettled h₀ rank v h → Succeeds (go p) p h) fi
      → All (λ p. 0 < rank p) fi
      → (h : Heap) → IsSettled h₀ rank v h
      → (h' : Heap) × (visit_fan_ins go fi h ≡ ok h')
        × IsSettled h₀ rank v h'
        × Extends v h h'
        × All (λ p. (h' p).signal ≡ signal_of (v p)) fi
  unfolding visit_fan_ins
  visit_lem go [] calls live h s = (h, refl, s, (λ p e. e), _)
  visit_lem go (p ∷ fi) calls live h s = elim (s.signals p live.0) [
    | inl unset ↦
        let (h₁, e, done) = calls.0 h s in
        let (h₂, e', s', ext, all) = visit_lem go fi calls.1 live.1 h₁ done.settled in
        (h₂, rw (unset, e, e'), s', (λ q eq. ext q (done.extends q eq)), (ext p done.signal, all))
    | inr set ↦
        let (h₂, e', s', ext, all) = visit_lem go fi calls.1 live.1 h s in
        (h₂, rw (is_set set, e'), s', ext, (ext p set, all))
  ]
    where
      is_set : (h p).signal ≡ signal_of (v p) → is_dontcare (h p).signal ≡ false
      is_set e = rw e (signal_of-is_set (v p))

  output_value_lem :
      (fuel : ℕ) (g : Ptr)
      → rank g < fuel
      → 0 < rank g
      → (h : Heap) → IsSettled h₀ rank v h
      → Succeeds (output_value fuel g) g h
  unfolding output_value
  output_value_lem zero g less live h s = absurd (omega arith)
  output_value_lem (suc fuel) g less live h s =
      let (h₁, e, s₁, ext, all) =
        visit_lem (λ p h'. output_value fuel p h') (h₀ g).fi
          (All-map (h₀ g).fi (λ p r. output_value_lem fuel p (omega (arith, r.0.1)) r.1)
            (All-and _ _ (h₀ g).fi (net.wired g) (used g)))
          (used g) h s in
      let (settled, ext') = set_signal-IsSettled h₀ rank v h₁ g s₁ in
      (
        set_signal h₁ g (signal_of (v g)),
        rw (s.fis g, e, body_lem h₁ g live s₁ all),
        record { settled = settled; extends = λ p eq. ext' p (ext p eq); signal = ground arith },
      )

  -- On a netlist without a cycle, whose nodes in use have as many operands as their types take, and fan-ins
  -- in use: if the heap differs from the netlist in signals alone, the inputs have theirs, and each signal
  -- of a node in use that is set is the value of the node, then `getSignal` returns the value of the node
  -- in use it is called for, and leaves such a heap.
  pub get_signal-eq-value :
      (g : Ptr) (h : Heap)
      → 0 < rank g
      → IsSettled h₀ rank v h
      → (h' : Heap) × (get_signal depth g h ≡ ok (signal_of (v g), h')) × IsSettled h₀ rank v h'
  unfolding get_signal
  get_signal-eq-value g h live s =
      let (h', e, done) = output_value_lem depth g (net.bounded g) live h s in
      (h', rw (e, done.signal), done.settled)
