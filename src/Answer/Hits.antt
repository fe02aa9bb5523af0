-- ===== src/Answer/Hits.antt =====
-- src/Matching.cpp: the ports of circuit 2 that are locked to one port of circuit 1, or to constants.
use multi_bit_large_scale_bo.Base.{
  ℕ, zero, suc, ◌+◌, ◌≤◌, ◌≡◌, ◌≢◌, ◌↔◌, refl, inl, inr, List, [], ◌∷◌, Bool, get_elem?, ◌==◌,
  if◌then◌else◌, Option, some, arith, In, IsDistinct, Bool-cases, ==_ne, ==_iff, subst,
}
use native.Mathlib.Decide.{ℕ_discrete}
use multi_bit_large_scale_bo.Base.Int.{ℤ, pos, negsuc}
use multi_bit_large_scale_bo.Answer.{Lock, const_val}

-- The indices, counted from `i`, of the locks to port `j` of circuit 1.
abbrev pub hits : ℕ → List Lock → ℕ → List ℕ
hits j [] i = []
hits j ((negsuc k, neg) ∷ ls) i = hits j ls (suc i)
hits j ((pos k, neg) ∷ ls) i = if k == j then i ∷ hits j ls (suc i) else hits j ls (suc i)

-- The indices of the locks to constants, with the constants.
abbrev pub const_hits : List Lock → ℕ → List (Bool × ℕ)
const_hits [] i = []
const_hits ((negsuc (suc zero), neg) ∷ ls) i = (neg, i) ∷ const_hits ls (suc i)
const_hits (l ∷ ls) i = const_hits ls (suc i)

-- `p` is the index of a lock to port `j`.
abbrev pub IsLockedTo : List Lock → ℤ → ℕ → Type 0
IsLockedTo ls z p = (neg : Bool) × (get_elem? ls p ≡ some (z, neg))

pub hits-le : (j : ℕ) (ls : List Lock) (i p : ℕ) → In p (hits j ls i) → i ≤ p
hits-le j [] i p m = absurd m
hits-le j ((negsuc k, neg) ∷ ls) i p m = ground (arith, hits-le j ls (suc i) p)
hits-le j ((pos k, neg) ∷ ls) i p m = ground (arith, hits-le j ls (suc i) p)

pub hits-IsDistinct : (j : ℕ) (ls : List Lock) (i : ℕ) → IsDistinct (hits j ls i)
hits-IsDistinct j [] i = tt
hits-IsDistinct j ((negsuc k, neg) ∷ ls) i = hits-IsDistinct j ls (suc i)
hits-IsDistinct j ((pos k, neg) ∷ ls) i = elim (Bool-cases (k == j)) [
  | inl same ↦ rw same (λ m. omega (arith, hits-le j ls (suc i) i m), hits-IsDistinct j ls (suc i))
  | inr other ↦ rw other (hits-IsDistinct j ls (suc i))
]

-- The hits from the next index on.
next_hit :
    (j : ℕ) (ls : List Lock) (i p : ℕ)
    → In (suc i + p) (hits j ls (suc i)) ↔ IsLockedTo ls (pos j) p
    → In (i + suc p) (hits j ls (suc i)) ↔ IsLockedTo ls (pos j) p
next_hit j ls i p h = subst (λ q. In q (hits j ls (suc i)) ↔ IsLockedTo ls (pos j) p) shift h
  where
    shift : suc i + p ≡ i + suc p
    shift = omega arith

pub hits-IsLockedTo :
    (j : ℕ) (ls : List Lock) (i p : ℕ) → In (i + p) (hits j ls i) ↔ IsLockedTo ls (pos j) p
hits-IsLockedTo j [] i p = (λ m. absurd m, λ (neg, e). cc)
hits-IsLockedTo j ((negsuc k, b) ∷ ls) i zero =
    (λ m. absurd (omega (arith, hits-le j ls (suc i) (i + 0) m)), λ (neg, e). cc)
hits-IsLockedTo j ((negsuc k, b) ∷ ls) i (suc p) =
    next_hit j ls i p (hits-IsLockedTo j ls (suc i) p)
hits-IsLockedTo j ((pos k, b) ∷ ls) i zero = elim (ℕ_discrete k j) [
  | yes same ↦ rw ((==_iff k j).1 same) (λ m. (b, rw same refl), λ e. inl (omega arith))
  | no other ↦ rw (==_ne k j other) (
    λ m. absurd (omega (arith, hits-le j ls (suc i) (i + 0) m)),
    λ (neg, e). elim (apart other e) [ ],
  )
]
  where
    apart : k ≢ j → {neg : Bool} → ◌≡◌ {A = Option Lock} (some (pos k, b)) (some (pos j, neg)) → ⊥
    apart other e = other cc
hits-IsLockedTo j ((pos k, b) ∷ ls) i (suc p) =
    let (to, from) = next_hit j ls i p (hits-IsLockedTo j ls (suc i) p) in
    (λ m. ground (arith, to), λ e. ground (arith, from e))

-- The ports among constants.
abbrev pub ports : List (Bool × ℕ) → List ℕ
ports [] = []
ports ((b, p) ∷ cs) = p ∷ ports cs

pub const_hits-le : (ls : List Lock) (i p : ℕ) → In p (ports (const_hits ls i)) → i ≤ p
const_hits-le [] i p m = absurd m
const_hits-le ((pos k, b) ∷ ls) i p m = omega (arith, const_hits-le ls (suc i) p m)
const_hits-le ((negsuc zero, b) ∷ ls) i p m = omega (arith, const_hits-le ls (suc i) p m)
const_hits-le ((negsuc (suc zero), b) ∷ ls) i p m = ground (arith, const_hits-le ls (suc i) p)
const_hits-le ((negsuc (suc (suc k)), b) ∷ ls) i p m = omega (arith, const_hits-le ls (suc i) p m)

pub const_hits-IsDistinct : (ls : List Lock) (i : ℕ) → IsDistinct (ports (const_hits ls i))
const_hits-IsDistinct [] i = tt
const_hits-IsDistinct ((pos k, b) ∷ ls) i = const_hits-IsDistinct ls (suc i)
const_hits-IsDistinct ((negsuc zero, b) ∷ ls) i = const_hits-IsDistinct ls (suc i)
const_hits-IsDistinct ((negsuc (suc zero), b) ∷ ls) i =
    (λ m. omega (arith, const_hits-le ls (suc i) i m), const_hits-IsDistinct ls (suc i))
const_hits-IsDistinct ((negsuc (suc (suc k)), b) ∷ ls) i = const_hits-IsDistinct ls (suc i)

next_const :
    (ls : List Lock) (i p : ℕ)
    → (In (suc i + p) (ports (const_hits ls (suc i))) → IsLockedTo ls const_val p)
    → In (i + suc p) (ports (const_hits ls (suc i)))
    → IsLockedTo ls const_val p
next_const ls i p h =
    subst (λ q. In q (ports (const_hits ls (suc i))) → IsLockedTo ls const_val p) shift h
  where
    shift : suc i + p ≡ i + suc p
    shift = omega arith

pub const_hits-IsLockedTo :
    (ls : List Lock) (i p : ℕ) → In (i + p) (ports (const_hits ls i)) → IsLockedTo ls const_val p
const_hits-IsLockedTo [] i p m = absurd m
const_hits-IsLockedTo ((pos k, b) ∷ ls) i zero m =
    absurd (omega (arith, const_hits-le ls (suc i) (i + 0) m))
const_hits-IsLockedTo ((negsuc zero, b) ∷ ls) i zero m =
    absurd (omega (arith, const_hits-le ls (suc i) (i + 0) m))
const_hits-IsLockedTo ((negsuc (suc zero), b) ∷ ls) i zero m = (b, refl)
const_hits-IsLockedTo ((negsuc (suc (suc k)), b) ∷ ls) i zero m =
    absurd (omega (arith, const_hits-le ls (suc i) (i + 0) m))
const_hits-IsLockedTo ((pos k, b) ∷ ls) i (suc p) m =
    next_const ls i p (const_hits-IsLockedTo ls (suc i) p) m
const_hits-IsLockedTo ((negsuc zero, b) ∷ ls) i (suc p) m =
    next_const ls i p (const_hits-IsLockedTo ls (suc i) p) m
const_hits-IsLockedTo ((negsuc (suc zero), b) ∷ ls) i (suc p) m =
    next_const ls i p (const_hits-IsLockedTo ls (suc i) p) (ground arith)
const_hits-IsLockedTo ((negsuc (suc (suc k)), b) ∷ ls) i (suc p) m =
    next_const ls i p (const_hits-IsLockedTo ls (suc i) p) m
