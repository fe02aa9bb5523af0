-- ===== src/Netlist/Signature/Counted.antt =====
-- src/Netlist.h: `countMap`, which counts how often `CountGate` meets each signature.
use multi_bit_large_scale_bo.Base.{
  false_not_true, ℕ, suc, ◌+◌, ◌<◌, ◌≡◌, ◌⊎◌, ◌↔◌, sym, ap, ◌∙◌, inl, inr, arith, List, [], ◌∷◌,
  ◌==◌, ==_iff, if◌then◌else◌, Bool-cases, In,
}
use multi_bit_large_scale_bo.Netlist.Signature.{count_one, count_all}

-- How often a number is in a list.
abbrev pub number : ℕ → List ℕ → ℕ
number y [] = 0
number y (x ∷ xs) = if x == y then suc (number y xs) else number y xs

-- What a map has for a key, or 0.
abbrev look : ℕ → List (ℕ × ℕ) → ℕ
look y [] = 0
look y ((k, n) ∷ m) = if k == y then n else look y m

-- No key is there twice, and no number is 0.
abbrev IsTable : List (ℕ × ℕ) → Type 0
IsTable [] = Unit
IsTable ((k, n) ∷ m) = ((j : ℕ) → In (k, j) m → ⊥) × ((0 < n) × IsTable m)

first_of : {a b c d : ℕ} → ◌≡◌ {A = ℕ × ℕ} (a, b) (c, d) → a ≡ c
first_of e = ap (λ (p : ℕ × ℕ). p.0) e

second_of : {a b c d : ℕ} → ◌≡◌ {A = ℕ × ℕ} (a, b) (c, d) → b ≡ d
second_of e = ap (λ (p : ℕ × ℕ). p.1) e

In-look : (y n : ℕ) (m : List (ℕ × ℕ)) → IsTable m → In (y, n) m → (look y m ≡ n) × (0 < n)
In-look y n [] t i = absurd i
In-look y n ((k, j) ∷ m) (out, (some_, t)) (inl e) =
    (rw ((==_iff k y).1 (sym (first_of e))) (sym (second_of e)), omega (arith, second_of e))
In-look y n ((k, j) ∷ m) (out, (some_, t)) (inr i) = elim (Bool-cases (k == y)) [
  | inl same ↦ let l : In (k, n) m = rw ((==_iff k y).0 same) i in absurd (out n l)
  | inr other ↦ rw other (In-look y n m t i)
]

look-In : (y n : ℕ) (m : List (ℕ × ℕ)) → look y m ≡ n → 0 < n → In (y, n) m
look-In y n [] e some_ = absurd (omega (arith, e))
look-In y n ((k, j) ∷ m) e some_ = elim (Bool-cases (k == y)) [
  | inl same ↦ inl (λ i. (sym ((==_iff k y).0 same) i, sym (rw same at e) i))
  | inr other ↦ inr (look-In y n m (rw other at e) some_)
]

look-count_one :
    (y x : ℕ) (m : List (ℕ × ℕ))
    → look y (count_one x m) ≡ (if x == y then suc (look y m) else look y m)
unfolding count_one
look-count_one y x [] = ground arith
look-count_one y x ((k, n) ∷ m) = ground (arith, look-count_one y x m)

In-count_one :
    (x k j : ℕ) (m : List (ℕ × ℕ)) → In (k, j) (count_one x m) → (k ≡ x) ⊎ ((i : ℕ) × In (k, i) m)
unfolding count_one
In-count_one x k j [] = λ q. elim q [ inl e ↦ inl (first_of e) | inr n ↦ absurd n ]
In-count_one x k j ((y, n) ∷ m) = elim (Bool-cases (y == x)) [
  | inl same ↦
      rw same
        (λ q. elim q [ inl e ↦ inl (first_of e ∙ (==_iff y x).0 same) | inr i ↦ inr (j, inr i) ])
  | inr other ↦ rw other (λ q. elim q [
    | inl e ↦ inr (j, inl e)
    | inr i ↦ elim (In-count_one x k j m i) [ inl e ↦ inl e | inr (i', l) ↦ inr (i', inr l) ]
  ])
]

count_one-IsTable : (x : ℕ) (m : List (ℕ × ℕ)) → IsTable m → IsTable (count_one x m)
unfolding count_one
count_one-IsTable x [] t = ((λ j q. q), (omega arith, tt))
count_one-IsTable x ((y, n) ∷ m) (out, (some_, t)) = elim (Bool-cases (y == x)) [
  | inl same ↦ rw same (out, (omega arith, t))
  | inr other ↦ rw other (
    λ j q. elim (In-count_one x y j m q) [
      | inl e ↦ absurd (false_not_true (sym other ∙ (==_iff y x).1 e))
      | inr (i, l) ↦ out i l
    ],
    (some_, count_one-IsTable x m t),
  )
]

count_all_lem :
    (xs : List ℕ) (m : List (ℕ × ℕ))
    → IsTable m
    → ((y : ℕ) → look y (count_all xs m) ≡ look y m + number y xs) × IsTable (count_all xs m)
unfolding count_all
count_all_lem [] m t = (λ y. omega arith, t)
count_all_lem (x ∷ xs) m t =
    let (counts, t') = count_all_lem xs (count_one x m) (count_one-IsTable x m t) in
    (λ y. ground (arith, counts y, look-count_one y x m), t')

-- The map has each signature with the number of times that it was met.
pub In-count_all :
    (xs : List ℕ) (y n : ℕ) → In (y, n) (count_all xs []) ↔ (n ≡ number y xs) × (0 < n)
In-count_all xs y n =
    let (counts, t) = count_all_lem xs [] tt in
    (
      λ i.
          let (e, some_) = In-look y n (count_all xs []) t i in (omega (arith, e, counts y), some_),
      λ (e, some_). look-In y n (count_all xs []) (omega (arith, e, counts y)) some_,
    )
