-- ===== src/Netlist/Words/Gates.antt =====
-- src/Netlist.h: the branch of `getResult` and `miterGetResult` for each gate type computes the
-- Boolean function of the gate at each index.
use multi_bit_large_scale_bo.Base.{
  ℕ, zero, suc, ◌≡◌, ◌≢◌, refl, Bool, not, ◌&&◌, ◌||◌, differ, List, [], ◌∷◌, length, All, arith,
}
use multi_bit_large_scale_bo.Gate.{GateType}
use multi_bit_large_scale_bo.Netlist.{Ptr}
use multi_bit_large_scale_bo.Netlist.Meaning.{HasArity, IsMapped}
use multi_bit_large_scale_bo.Netlist.Words.{
  Bits, M, neg_word, and_word, or_word, xor_word, fan_in, gate_word, miter_gate_word,
}
use multi_bit_large_scale_bo.Netlist.Words.Gives.{
  Gives, Gives-word, Gives-neg_word, Gives-and_word, Gives-or_word, Gives-xor_word,
  Gives-carry_word, gate_bits,
}

-- A claim about the operands of a gate holds if it holds for each number of complemented ones.
one_operand {ℓ} :
    (P : ℕ → List Ptr → Type ℓ)
    → ((p : Ptr) → P 0 (p ∷ []))
    → ((p : Ptr) → P 1 (p ∷ []))
    → (k : ℕ) (fi : List Ptr) → HasArity 1 k fi
    → P k fi
one_operand P p₀ p₁ k [] h = absurd (omega arith)
one_operand P p₀ p₁ zero (p ∷ []) h = p₀ p
one_operand P p₀ p₁ (suc zero) (p ∷ []) h = p₁ p
one_operand P p₀ p₁ (suc (suc k)) (p ∷ []) h = absurd (omega arith)
one_operand P p₀ p₁ k (p ∷ q ∷ fi) h = absurd (omega arith)

two_operands {ℓ} :
    (P : ℕ → List Ptr → Type ℓ)
    → ((p q : Ptr) → P 0 (p ∷ q ∷ []))
    → ((p q : Ptr) → P 1 (p ∷ q ∷ []))
    → ((p q : Ptr) → P 2 (p ∷ q ∷ []))
    → (k : ℕ) (fi : List Ptr) → HasArity 2 k fi
    → P k fi
two_operands P p₀ p₁ p₂ k [] h = absurd (omega arith)
two_operands P p₀ p₁ p₂ k (p ∷ []) h = absurd (omega arith)
two_operands P p₀ p₁ p₂ zero (p ∷ q ∷ []) h = p₀ p q
two_operands P p₀ p₁ p₂ (suc zero) (p ∷ q ∷ []) h = p₁ p q
two_operands P p₀ p₁ p₂ (suc (suc zero)) (p ∷ q ∷ []) h = p₂ p q
two_operands P p₀ p₁ p₂ (suc (suc (suc k))) (p ∷ q ∷ []) h = absurd (omega arith)
two_operands P p₀ p₁ p₂ k (p ∷ q ∷ r ∷ fi) h = absurd (omega arith)

three_operands {ℓ} :
    (P : ℕ → List Ptr → Type ℓ)
    → ((p q r : Ptr) → P 0 (p ∷ q ∷ r ∷ []))
    → ((p q r : Ptr) → P 1 (p ∷ q ∷ r ∷ []))
    → ((p q r : Ptr) → P 2 (p ∷ q ∷ r ∷ []))
    → ((p q r : Ptr) → P 3 (p ∷ q ∷ r ∷ []))
    → (k : ℕ) (fi : List Ptr) → HasArity 3 k fi
    → P k fi
three_operands P p₀ p₁ p₂ p₃ k [] h = absurd (omega arith)
three_operands P p₀ p₁ p₂ p₃ k (p ∷ []) h = absurd (omega arith)
three_operands P p₀ p₁ p₂ p₃ k (p ∷ q ∷ []) h = absurd (omega arith)
three_operands P p₀ p₁ p₂ p₃ zero (p ∷ q ∷ r ∷ []) h = p₀ p q r
three_operands P p₀ p₁ p₂ p₃ (suc zero) (p ∷ q ∷ r ∷ []) h = p₁ p q r
three_operands P p₀ p₁ p₂ p₃ (suc (suc zero)) (p ∷ q ∷ r ∷ []) h = p₂ p q r
three_operands P p₀ p₁ p₂ p₃ (suc (suc (suc zero))) (p ∷ q ∷ r ∷ []) h = p₃ p q r
three_operands P p₀ p₁ p₂ p₃ (suc (suc (suc (suc k)))) (p ∷ q ∷ r ∷ []) h = absurd (omega arith)
three_operands P p₀ p₁ p₂ p₃ k (p ∷ q ∷ r ∷ s ∷ fi) h = absurd (omega arith)

uncomplemented {ℓ} :
    (P : ℕ → List Ptr → Type ℓ)
    → ((p q : Ptr) → P 0 (p ∷ q ∷ []))
    → (k : ℕ) (fi : List Ptr) → (length fi ≡ 2) × (k ≡ 0)
    → P k fi
uncomplemented P p₀ k fi h =
    two_operands (λ k' fi'. k' ≡ 0 → P k' fi') (λ p q e. p₀ p q) (λ p q e. absurd (omega arith))
      (λ p q e. absurd (omega arith)) k fi (omega arith) h.1

module _ (V : Ptr → Bits) (go : Ptr → M) where
  -- The simulation of each fan-in gives its word.
  abbrev pub GivesAll : List Ptr → Type 0
  GivesAll = All (λ p. Gives V (V p) (go p))

  -- The word of a gate is its Boolean function at each index.
  abbrev pub IsSound : GateType → ℕ → List Ptr → Type 0
  IsSound t k fi = GivesAll fi → Gives V (gate_bits V t k fi) (gate_word go t k fi)

  -- AND, OR and XOR, by the rule for the operation on words.
  two_sound :
      (f : Bool → Bool → Bool) (op : M → M → M)
      → ((a b : M) (x y : Bits) → Gives V x a → Gives V y b → Gives V (λ i. f (x i) (y i)) (op a b))
      → ((p q : Ptr) → GivesAll (p ∷ q ∷ []) → Gives V (λ i. f (V p i) (V q i)) (op (go p) (go q)))
        × ((p q : Ptr)
            → GivesAll (p ∷ q ∷ [])
            → Gives V (λ i. f (not (V p i)) (V q i)) (op (neg_word (go p)) (go q)))
        × ((p q : Ptr)
            → GivesAll (p ∷ q ∷ [])
            → Gives V (λ i. f (not (V p i)) (not (V q i))) (op (neg_word (go p)) (neg_word (go q))))
  two_sound f op rule = (
    λ p q g. rule _ _ _ _ g.0 g.1.0,
    λ p q g. rule _ _ _ _ (Gives-neg_word V _ _ g.0) g.1.0,
    λ p q g. rule _ _ _ _ (Gives-neg_word V _ _ g.0) (Gives-neg_word V _ _ g.1.0),
  )

  pub gate_word-IsSound :
      (t : GateType) (k : ℕ) (fi : List Ptr) → IsMapped t k fi → t ≢ GateType.input → IsSound t k fi
  unfolding gate_word fan_in
  gate_word-IsSound GateType.buf k fi h n =
      one_operand (IsSound GateType.buf) (λ p g. g.0) (λ p g. Gives-neg_word V _ _ g.0) k fi h
  gate_word-IsSound GateType.output k fi h n =
      one_operand (IsSound GateType.output) (λ p g. g.0) (λ p g. Gives-neg_word V _ _ g.0) k fi h
  gate_word-IsSound GateType.and k fi h n =
      let r = two_sound (λ a b. a && b) and_word (Gives-and_word V) in
      two_operands (IsSound GateType.and) r.0 r.1 r.2 k fi h
  gate_word-IsSound GateType.or k fi h n =
      let r = two_sound (λ a b. a || b) or_word (Gives-or_word V) in
      two_operands (IsSound GateType.or) r.0 r.1 r.2 k fi h
  gate_word-IsSound GateType.xor k fi h n =
      let r = two_sound differ xor_word (Gives-xor_word V) in
      two_operands (IsSound GateType.xor) r.0 r.1 r.2 k fi h
  gate_word-IsSound GateType.nand k fi h n =
      uncomplemented (IsSound GateType.nand)
        (λ p q g. Gives-neg_word V _ _ (Gives-and_word V _ _ _ _ g.0 g.1.0)) k fi h
  gate_word-IsSound GateType.nor k fi h n =
      uncomplemented (IsSound GateType.nor)
        (λ p q g. Gives-neg_word V _ _ (Gives-or_word V _ _ _ _ g.0 g.1.0)) k fi h
  gate_word-IsSound GateType.facarry k fi h n =
      three_operands (IsSound GateType.facarry)
        (λ p q r g. Gives-carry_word V _ _ _ _ _ _ g.0 g.1.0 g.1.1.0)
        (λ p q r g. Gives-carry_word V _ _ _ _ _ _ (neg _ _ g.0) g.1.0 g.1.1.0)
        (λ p q r g. Gives-carry_word V _ _ _ _ _ _ (neg _ _ g.0) (neg _ _ g.1.0) g.1.1.0)
        (λ p q r g. Gives-carry_word V _ _ _ _ _ _ (neg _ _ g.0) (neg _ _ g.1.0) (neg _ _ g.1.1.0))
        k fi h
    where
      neg : (a : M) (x : Bits) → Gives V x a → Gives V (λ i. not (x i)) (neg_word a)
      neg = Gives-neg_word V
  gate_word-IsSound GateType.zerobuf k fi h n = λ g. Gives-word V _
  gate_word-IsSound GateType.input k fi h n = absurd (n refl)
  gate_word-IsSound GateType.none k fi h n = absurd h
  gate_word-IsSound GateType.inv k fi h n = absurd h
  gate_word-IsSound GateType.wire k fi h n = absurd h
  gate_word-IsSound GateType.const k fi h n = absurd h
  gate_word-IsSound GateType.onebuf k fi h n = absurd h

  pub miter-eq-gate_word :
      (t : GateType) (k : ℕ) (fi : List Ptr)
      → t ≢ GateType.inv
      → miter_gate_word go t k fi ≡ gate_word go t k fi
  unfolding gate_word miter_gate_word
  miter-eq-gate_word GateType.inv k fi n = absurd (n refl)
  miter-eq-gate_word _ k fi n = refl

  pub miter_gate_word_sound :
      (t : GateType) (k : ℕ) (fi : List Ptr)
      → IsMapped t k fi
      → t ≢ GateType.input
      → GivesAll fi
      → Gives V (gate_bits V t k fi) (miter_gate_word go t k fi)
  miter_gate_word_sound t k fi h n g =
      rw (miter-eq-gate_word t k fi (no_inverter t h)) (gate_word-IsSound t k fi h n g)
    where
      no_inverter : (t : GateType) → IsMapped t k fi → t ≢ GateType.inv
      no_inverter GateType.inv h e = h
      no_inverter _ h e = cc
