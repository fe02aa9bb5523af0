-- ===== src/Netlist/Words/Gives.antt =====
-- What a simulation of words gives from a record map that holds right words, rule by rule.
use multi_bit_large_scale_bo.Base.{
  ℕ, ◌≡◌, refl, fun_ext, inl, inr, Bool, not, ◌&&◌, ◌||◌, differ, List, some, map, ok, arith,
  Option-cases,
}
use multi_bit_large_scale_bo.Gate.{GateType, gate_function, complement}
use multi_bit_large_scale_bo.Netlist.{Ptr}
use multi_bit_large_scale_bo.Netlist.Words.{
  Bits, RecordMap, record_word, M, word, neg_word, lift_word, and_word, or_word, xor_word, recall,
  remember, carry_word,
}

module _ (V : Ptr → Bits) where
  -- The words that `recordMap` holds are those of `V`.
  abbrev pub IsRecord : RecordMap → Type 0
  IsRecord m = (p : Ptr) (w : Bits) → m p ≡ some w → w ≡ V p

  -- From a record map of such words, `a` ends with the word `b` and with a map of such words.
  abbrev pub Gives : Bits → M → Type 0
  Gives b a = (m : RecordMap) → IsRecord m → (m' : RecordMap) × (a m ≡ ok (b, m')) × IsRecord m'

  pub Gives-word : (w : Bits) → Gives w (word w)
  Gives-word w m h = (m, refl, h)

  pub Gives-neg_word : (a : M) (x : Bits) → Gives x a → Gives (λ i. not (x i)) (neg_word a)
  unfolding neg_word
  Gives-neg_word a x ga m h = let (m', e, h') = ga m h in (m', rw e, h')

  pub Gives-lift_word :
      (f : Bool → Bool → Bool) (a b : M) (x y : Bits)
      → Gives x a
      → Gives y b
      → Gives (λ i. f (x i) (y i)) (lift_word f a b)
  unfolding lift_word
  Gives-lift_word f a b x y ga gb m h =
      let (m', e, h') = ga m h in let (m'', e', h'') = gb m' h' in (m'', rw (e, e'), h'')

  pub Gives-and_word :
      (a b : M) (x y : Bits) → Gives x a → Gives y b → Gives (λ i. x i && y i) (and_word a b)
  unfolding and_word
  Gives-and_word = Gives-lift_word (λ p q. p && q)

  pub Gives-or_word :
      (a b : M) (x y : Bits) → Gives x a → Gives y b → Gives (λ i. x i || y i) (or_word a b)
  unfolding or_word
  Gives-or_word = Gives-lift_word (λ p q. p || q)

  pub Gives-xor_word :
      (a b : M) (x y : Bits)
      → Gives x a
      → Gives y b
      → Gives (λ i. differ (x i) (y i)) (xor_word a b)
  unfolding xor_word
  Gives-xor_word = Gives-lift_word differ

  pub Gives-carry_word :
      (a b c : M) (x y z : Bits)
      → Gives x a
      → Gives y b
      → Gives z c
      → Gives (λ i. x i && y i || (x i && z i || y i && z i)) (carry_word a b c)
  unfolding carry_word
  Gives-carry_word a b c x y z ga gb gc = rw (fun_ext (λ i. majority (x i) (y i) (z i))) (
      Gives-or_word _ _ _ _
        (Gives-or_word _ _ _ _ (Gives-and_word a b x y ga gb) (Gives-and_word b c y z gb gc))
        (Gives-and_word a c x z ga gc))
    where
      majority : (p q r : Bool) → (p && q || (p && r || q && r)) ≡ (p && q || q && r || p && r)
      majority p q r = ground arith

  -- What a gate of type `t` with `k` complemented operands among `fi` gives.
  abbrev pub gate_bits : GateType → ℕ → List Ptr → Bits
  gate_bits t k fi i = gate_function t (complement k (map (λ p. V p i) fi))

  -- The record map's entry is the word asked for, and what is stored is the word computed.
  pub Gives-recall : (g : Ptr) (a : M) → Gives (V g) a → Gives (V g) (recall g a)
  unfolding recall
  Gives-recall g a ga m h = elim (Option-cases (m g)) [
    | inl missing ↦ rw (missing, recall) (ga m h)
    | inr (w, found) ↦ rw (found, recall) (m, rw (h g w found), h)
  ]

  pub Gives-remember : (g : Ptr) (a : M) → Gives (V g) a → Gives (V g) (remember g a)
  unfolding remember
  Gives-remember g a ga m h =
      let (m', e, h') = ga m h in
      (record_word m' g (V g), rw e, λ p w found. ground (arith, h' p w))
