-- ===== src/Base/Lists.antt =====
-- Lists measured and indexed by native numbers, under the library's names, and membership as a
-- family that can be taken apart.
use Prim.Native.Nat.{ℕ, zero, suc, ◌<◌}
use mathlib.Core.Path.{◌≡◌, refl, ap}
use mathlib.Core.Logic.{◌⊎◌, inl, inr, ⊎_elim}
use mathlib.Core.List.{List, [], ◌∷◌, ◌++◌, map}
use mathlib.Core.Option.{Option, none, some}
use native.Mathlib.Omega.{arith}
use native.Mathlib.Decide.{ℕ_discrete}

module _ {ℓ} {A : Type ℓ} where
  abbrev pub length : List A → ℕ
  length [] = 0
  length (x ∷ xs) = suc (length xs)

  abbrev pub get_elem? : List A → ℕ → Option A
  get_elem? [] i = none
  get_elem? (x ∷ xs) zero = some x
  get_elem? (x ∷ xs) (suc i) = get_elem? xs i

  abbrev pub get_or : List A → ℕ → A → A
  get_or [] i d = d
  get_or (x ∷ xs) zero d = x
  get_or (x ∷ xs) (suc i) d = get_or xs i d

  abbrev pub replicate : ℕ → A → List A
  replicate zero a = []
  replicate (suc n) a = a ∷ replicate n a

module _ {ℓ} {A : Type ℓ} where
  abbrev pub All {κ} : (A → Type κ) → List A → Type κ
  All P [] = Unit
  All P (x ∷ xs) = P x × All P xs

pub All-map {ℓ κ μ} :
    {A : Type ℓ} {P : A → Type κ} {Q : A → Type μ} (xs : List A)
    → ((x : A) → P x → Q x)
    → All P xs
    → All Q xs
All-map [] f h = tt
All-map (x ∷ xs) f h = (f x h.0, All-map xs f h.1)

-- Membership that computes to sums, which the tactics take apart.
abbrev pub In : {A : Type 0} → A → List A → Type 0
In a [] = ⊥
In a (x ∷ xs) = (a ≡ x) ⊎ In a xs

abbrev pub IsDistinct : {A : Type 0} → List A → Type 0
IsDistinct [] = Unit
IsDistinct (x ∷ xs) = (In x xs → ⊥) × IsDistinct xs

pub In-append : {A : Type 0} (a : A) (xs ys : List A) → In a (xs ++ ys) → In a xs ⊎ In a ys
In-append a [] ys m = inr m
In-append a (x ∷ xs) ys m = ground (arith, In-append a xs ys)

pub In-append_left : {A : Type 0} (a : A) (xs ys : List A) → In a xs → In a (xs ++ ys)
In-append_left a [] ys m = absurd m
In-append_left a (x ∷ xs) ys m = ground (arith, In-append_left a xs ys)

pub In-append_right : {A : Type 0} (a : A) (xs ys : List A) → In a ys → In a (xs ++ ys)
In-append_right a [] ys m = m
In-append_right a (x ∷ xs) ys m = inr (In-append_right a xs ys m)

-- A property of every member.
pub In-All {κ} : {A : Type 0} {P : A → Type κ} (xs : List A) → ((x : A) → In x xs → P x) → All P xs
In-All [] f = tt
In-All (x ∷ xs) f = (f x (inl refl), In-All xs (λ y m. f y (inr m)))

pub In-map : {A B : Type 0} (f : A → B) (a : A) (xs : List A) → In a xs → In (f a) (map f xs)
In-map f a [] m = absurd m
In-map f a (x ∷ xs) (inl e) = inl (ap f e)
In-map f a (x ∷ xs) (inr m) = inr (In-map f a xs m)

pub In-or_not : (a : ℕ) (xs : List ℕ) → In a xs ⊎ (In a xs → ⊥)
In-or_not a [] = inr (λ m. m)
In-or_not a (x ∷ xs) = elim (ℕ_discrete a x) [
  | yes e ↦ inl (inl e)
  | no n ↦ elim (In-or_not a xs) [ inl m ↦ inl (inr m) | inr o ↦ inr (⊎_elim n o) ]
]

-- A read within bounds, which gives a member.
pub get_elem?_lem :
    {A : Type 0} (xs : List A) (i : ℕ)
    → i < length xs
    → (x : A) × (get_elem? xs i ≡ some x) × In x xs
get_elem?_lem [] i less = elim less [ ]
get_elem?_lem (x ∷ xs) zero less = (x, refl, inl refl)
get_elem?_lem (x ∷ xs) (suc i) less =
    let (y, e, m) = get_elem?_lem xs i (omega arith) in (y, e, inr m)

-- Reads of a longer list.
pub get_elem?-append_left :
    {A : Type 0} (xs ys : List A) (q : A) (k : ℕ)
    → get_elem? xs k ≡ some q
    → get_elem? (xs ++ ys) k ≡ some q
get_elem?-append_left [] ys q k e = absurd (apart e)
  where
    apart : none ≡ some q → ⊥
    apart e = cc
get_elem?-append_left (x ∷ xs) ys q zero e = e
get_elem?-append_left (x ∷ xs) ys q (suc k) e = get_elem?-append_left xs ys q k e

pub get_elem?-append_last :
    {A : Type 0} (xs : List A) (p : A) → get_elem? (xs ++ p ∷ []) (length xs) ≡ some p
get_elem?-append_last [] p = refl
get_elem?-append_last (x ∷ xs) p = get_elem?-append_last xs p
