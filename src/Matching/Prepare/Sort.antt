-- ===== src/Matching/Prepare/Sort.antt =====
-- src/Matching.cpp: `std::stable_sort` keeps the elements, and puts them in order by what it compares and
-- then by the order they had.
use multi_bit_large_scale_bo.Base.{
  ℕ, zero, suc, ◌<◌, ◌≡◌, ◌↔◌, refl, sym, ap, ◌∙◌, ◌⊎◌, inl, inr, arith, Bool-cases, List, [], ◌∷◌,
  ◌++◌, Bool, true, false, length, In, In-append, In-append_left, In-append_right, IsDistinct,
}
use multi_bit_large_scale_bo.Matching.Prepare.{insert, stable_sort, upto, by_key, by_key_down}

module _ (less : ℕ → ℕ → Bool) where
  In-insert : (z x : ℕ) (ys : List ℕ) → In z (insert less x ys) ↔ (z ≡ x) ⊎ In z ys
  unfolding insert
  In-insert z x [] = ground arith
  In-insert z x (y ∷ ys) = ground (arith, In-insert z x ys)

  pub In-stable_sort : (z : ℕ) (xs : List ℕ) → In z (stable_sort less xs) ↔ In z xs
  unfolding stable_sort
  In-stable_sort z [] = (λ m. m, λ m. m)
  In-stable_sort z (x ∷ xs) =
      ground (arith, In-stable_sort z xs, In-insert z x (stable_sort less xs))

  length-insert : (x : ℕ) (ys : List ℕ) → length (insert less x ys) ≡ suc (length ys)
  unfolding insert
  length-insert x [] = refl
  length-insert x (y ∷ ys) = ground (arith, length-insert x ys)

  pub length-stable_sort : (xs : List ℕ) → length (stable_sort less xs) ≡ length xs
  unfolding stable_sort
  length-stable_sort [] = refl
  length-stable_sort (x ∷ xs) =
      length-insert x (stable_sort less xs) ∙ ap suc (length-stable_sort xs)

-- Each element stands in the relation to all that follow it.
abbrev pub Pairwise : (ℕ → ℕ → Type 0) → List ℕ → Type 0
Pairwise R [] = Unit
Pairwise R (x ∷ xs) = ((y : ℕ) → In y xs → R x y) × Pairwise R xs

-- A list of less than two elements is in every order.
pub short-Pairwise : (R : ℕ → ℕ → Type 0) (xs : List ℕ) → length xs < 2 → Pairwise R xs
short-Pairwise R [] short = tt
short-Pairwise R (x ∷ []) short = (λ y m. elim m [ ], tt)
short-Pairwise R (x ∷ y ∷ ys) short = absurd (omega arith)

-- In order by `less`, and by `R` where `less` does not tell two elements apart.
abbrev pub Then : (ℕ → ℕ → Bool) → (ℕ → ℕ → Type 0) → ℕ → ℕ → Type 0
Then less R x y = (less y x ≡ false) × (less x y ≡ false → R x y)

-- A comparison of elements by a linear preorder.
pub record IsOrder (less : ℕ → ℕ → Bool) : Type 0 where
  pub asymmetric : (x y : ℕ) → less x y ≡ true → less y x ≡ false
  pub transitive : (x y z : ℕ) → less y x ≡ false → less z y ≡ false → less z x ≡ false

pub by_key-IsOrder : (key : ℕ → ℕ) → IsOrder (by_key key)
by_key-IsOrder key = record { asymmetric = λ x y. ground arith; transitive = λ x y z. ground arith }

pub by_key_down-IsOrder : (key : ℕ → ℕ) → IsOrder (by_key_down key)
by_key_down-IsOrder key = record {
  asymmetric = λ x y. ground arith;
  transitive = λ x y z. ground arith;
}

module _ (less : ℕ → ℕ → Bool) (order : IsOrder less) (R : ℕ → ℕ → Type 0) where
  insert-Pairwise :
      (x : ℕ) (ys : List ℕ)
      → ((y : ℕ) → In y ys → R x y)
      → Pairwise (Then less R) ys
      → Pairwise (Then less R) (insert less x ys)
  unfolding insert
  insert-Pairwise x [] before sorted = (λ y m. elim m [ ], tt)
  insert-Pairwise x (y ∷ ys) before (first, rest) = elim (Bool-cases (less y x)) [
    | inl less_ ↦ rw less_ (
      λ z m. elim ((In-insert less z x ys).0 m) [
        | inl same ↦ rw same (order.asymmetric y x less_, λ e. cc)
        | inr later ↦ first z later
      ],
      insert-Pairwise x ys (λ z m. before z (inr m)) rest,
    )
    | inr more ↦ rw more (
      λ z m. elim m [
        | inl same ↦ rw same (more, λ e. before y (inl refl))
        | inr later ↦ (order.transitive x y z more (first z later).0, λ e. before z (inr later))
      ],
      (first, rest),
    )
  ]

  pub stable_sort-Pairwise :
      (xs : List ℕ) → Pairwise R xs → Pairwise (Then less R) (stable_sort less xs)
  unfolding stable_sort
  stable_sort-Pairwise [] p = tt
  stable_sort-Pairwise (x ∷ xs) (before, rest) =
      insert-Pairwise x (stable_sort less xs) (λ y m. before y ((In-stable_sort less y xs).0 m))
        (stable_sort-Pairwise xs rest)

-- The indices below a number, in order.
pub In-upto : (n i : ℕ) → In i (upto n) ↔ (i < n)
In-upto zero i = (λ m. absurd m, λ h. absurd (omega arith))
In-upto (suc n) i = (
  λ m. elim (In-append i (upto n) (n ∷ []) m) [
    | inl low ↦ omega (arith, (In-upto n i).0 low)
    | inr last ↦ ground arith
  ],
  λ h. elim (less_or_same h) [
    | inl low ↦ In-append_left i (upto n) (n ∷ []) ((In-upto n i).1 low)
    | inr same ↦ In-append_right i (upto n) (n ∷ []) (inl same)
  ],
)
  where
    less_or_same : i < suc n → (i < n) ⊎ (i ≡ n)
    less_or_same h = ground arith

length-append_one : (xs : List ℕ) (x : ℕ) → length (xs ++ x ∷ []) ≡ suc (length xs)
length-append_one [] x = refl
length-append_one (y ∷ ys) x = ap suc (length-append_one ys x)

pub length-upto : (n : ℕ) → length (upto n) ≡ n
length-upto zero = refl
length-upto (suc n) = length-append_one (upto n) n ∙ ap suc (length-upto n)

Pairwise-append_one :
    (R : ℕ → ℕ → Type 0) (xs : List ℕ) (x : ℕ)
    → Pairwise R xs
    → ((y : ℕ) → In y xs → R y x)
    → Pairwise R (xs ++ x ∷ [])
Pairwise-append_one R [] x p before = (λ y m. elim m [ ], tt)
Pairwise-append_one R (z ∷ zs) x (first, rest) before = (
  λ y m. elim (In-append y zs (x ∷ []) m) [
    | inl early ↦ first y early
    | inr (inl same) ↦ rw same (before z (inl refl))
    | inr (inr none) ↦ absurd none
  ],
  Pairwise-append_one R zs x rest (λ y m. before y (inr m)),
)

pub upto-Pairwise : (n : ℕ) → Pairwise (λ x y. x < y) (upto n)
upto-Pairwise zero = tt
upto-Pairwise (suc n) =
    Pairwise-append_one (λ x y. x < y) (upto n) n (upto-Pairwise n) (λ y m. (In-upto n y).0 m)

module _ (less : ℕ → ℕ → Bool) where
  insert-IsDistinct :
      (x : ℕ) (ys : List ℕ) → (In x ys → ⊥) → IsDistinct ys → IsDistinct (insert less x ys)
  unfolding insert
  insert-IsDistinct x [] new d = (new, tt)
  insert-IsDistinct x (y ∷ ys) new (first, rest) = elim (Bool-cases (less y x)) [
    | inl before ↦ rw before (
      λ m. elim ((In-insert less y x ys).0 m) [
        | inl same ↦ new (inl (sym same))
        | inr later ↦ first later
      ],
      insert-IsDistinct x ys (λ m. new (inr m)) rest,
    )
    | inr after ↦ rw after (new, (first, rest))
  ]

  pub stable_sort-IsDistinct : (xs : List ℕ) → IsDistinct xs → IsDistinct (stable_sort less xs)
  unfolding stable_sort
  stable_sort-IsDistinct [] d = tt
  stable_sort-IsDistinct (x ∷ xs) (first, rest) =
      insert-IsDistinct x (stable_sort less xs) (λ m. first ((In-stable_sort less x xs).0 m))
        (stable_sort-IsDistinct xs rest)

pub upto-IsDistinct : (n : ℕ) → IsDistinct (upto n)
upto-IsDistinct zero = tt
upto-IsDistinct (suc n) =
    distinct (upto n) n (upto-IsDistinct n) (λ m. omega (arith, (In-upto n n).0 m))
  where
    distinct : (xs : List ℕ) (x : ℕ) → IsDistinct xs → (In x xs → ⊥) → IsDistinct (xs ++ x ∷ [])
    distinct [] x d new = (λ m. m, tt)
    distinct (y ∷ ys) x (first, rest) new = (
      λ m. elim (In-append y ys (x ∷ []) m) [
        | inl early ↦ first early
        | inr (inl same) ↦ new (inl (sym same))
        | inr (inr none) ↦ absurd none
      ],
      distinct ys x rest (λ m. new (inr m)),
    )
