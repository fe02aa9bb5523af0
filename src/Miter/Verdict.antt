-- ===== src/Miter/Verdict.antt =====
-- The comparison of two words, and one round of the comparison of two outputs.
use multi_bit_large_scale_bo.Base.{
  ℕ, zero, suc, ◌<◌, ◌≤◌, ◌≡◌, refl, ◌⊎◌, inl, inr, Bool, true, not, List, [], ◌∷◌, some, arith,
  Bool-cases, In,
}
use native.Mathlib.Decide.{ℕ_discrete}
use multi_bit_large_scale_bo.Netlist.{Ptr}
use multi_bit_large_scale_bo.Netlist.Words.{Bits}
use multi_bit_large_scale_bo.Miter.{
  Link, pnum, same_below, same_word, classify, c1_input_set, member,
}
use multi_bit_large_scale_bo.Miter.Agree.{c1_ports}

-- What a verdict says of two values: 1 that they are equal, 2 that one is the other's complement.
abbrev pub Related : ℕ → Bool → Bool → Type 0
Related (suc zero) a b = a ≡ b
Related (suc (suc zero)) a b = a ≡ not b
Related _ a b = ⊥

same_below_sound : (n : ℕ) (v w : Bits) (i : ℕ) → same_below n v w ≡ true → i < n → v i ≡ w i
unfolding same_below
same_below_sound zero v w i e less = absurd (omega arith)
same_below_sound (suc n) v w i e less = elim (ℕ_discrete i n) [
  | yes last ↦ rw last (ground arith)
  | no before ↦ ground (arith, same_below_sound n v w i)
]

same_below_complete : (n : ℕ) (v w : Bits) → ((i : ℕ) → i < n → v i ≡ w i) → same_below n v w ≡ true
unfolding same_below
same_below_complete zero v w e = refl
same_below_complete (suc n) v w e =
    ground (arith, e n (omega arith), same_below_complete n v w (λ i less. e i (omega arith)))

pub pnum_pos : 0 < pnum
unfolding pnum
pnum_pos = omega arith

classify_cases :
    (v w : Bits) (type t : ℕ)
    → classify v w type ≡ some t
    → (t ≡ 1) × (same_word v w ≡ true) × ((type ≡ 0) ⊎ (type ≡ 1))
      ⊎ (t ≡ 2) × (same_word v (λ i. not (w i)) ≡ true) × ((type ≡ 0) ⊎ (type ≡ 2))
unfolding classify
classify_cases v w type t e = ground arith

pub classify-le : (v w : Bits) (type t : ℕ) → classify v w type ≡ some t → t ≤ 2
classify-le v w type t e = ground (arith, classify_cases v w type t e)

-- A verdict holds at each index, and never changes once it is set.
pub classify_sound :
    (v w : Bits) (type t i : ℕ)
    → classify v w type ≡ some t
    → i < pnum
    → Related t (v i) (w i) × ((type ≡ 0) ⊎ (type ≡ t))
unfolding same_word
classify_sound v w type t i e less = elim (classify_cases v w type t e) [
  | inl (one, same, old) ↦ rw one (same_below_sound pnum v w i same less, old)
  | inr (two, same, old) ↦ rw two (same_below_sound pnum v (λ j. not (w j)) i same less, old)
]

classify_equal :
    (v w : Bits) (type : ℕ)
    → ((i : ℕ) → i < pnum → v i ≡ w i)
    → (type ≡ 0) ⊎ (type ≡ 1)
    → classify v w type ≡ some 1
unfolding classify same_word
classify_equal v w type e old = ground (arith, same_below_complete pnum v w e)

classify_complement :
    (v w : Bits) (type : ℕ)
    → ((i : ℕ) → i < pnum → v i ≡ not (w i))
    → (type ≡ 0) ⊎ (type ≡ 2)
    → classify v w type ≡ some 2
unfolding classify same_word
classify_complement v w type e old = ground (
  arith,
  same_below_complete pnum v (λ i. not (w i)) e,
  same_below_sound pnum v w 0,
  e 0,
  pnum_pos,
)

-- Words that are related at each index get that verdict, unless an earlier round gave another.
pub classify_complete :
    (v w : Bits) (type t : ℕ)
    → ((i : ℕ) → i < pnum → Related t (v i) (w i))
    → (type ≡ 0) ⊎ (type ≡ t)
    → classify v w type ≡ some t
classify_complete v w type zero e old = absurd (e 0 pnum_pos)
classify_complete v w type (suc zero) e old = classify_equal v w type e old
classify_complete v w type (suc (suc zero)) e old = classify_complement v w type e old
classify_complete v w type (suc (suc (suc t))) e old = absurd (e 0 pnum_pos)

pub member_iff :
    (p : Ptr) (qs : List Ptr) → (member p qs ≡ true → In p qs) × (In p qs → member p qs ≡ true)
unfolding member
member_iff p [] = (λ e. cc, λ m. absurd m)
member_iff p (q ∷ qs) = ground (arith, member_iff p qs)

pub c1_input_set_mem :
    (p : Ptr) (ls : List Link) (seen : List Ptr)
    → (In p (c1_input_set ls seen) → In p (c1_ports ls) ⊎ In p seen)
      × (In p (c1_ports ls) ⊎ In p seen → In p (c1_input_set ls seen))
unfolding c1_input_set
c1_input_set_mem p [] seen = ground arith
c1_input_set_mem p (l ∷ ls) seen = elim (Bool-cases (member l.c1 seen)) [
  | inl old ↦ rw old (ground (arith, c1_input_set_mem p ls seen, (member_iff l.c1 seen).0 old))
  | inr new ↦ rw new (ground (arith, c1_input_set_mem p ls (l.c1 ∷ seen)))
]
