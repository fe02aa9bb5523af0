-- ===== src/Matching/Filter/Quota.antt =====
-- src/Matching.cpp: the numbers of inputs that the quota of `filtLockedInput` balances, and what its
-- outcome is to be.
use multi_bit_large_scale_bo.Base.{
  ℕ, zero, suc, ◌+◌, ◌<◌, ◌≤◌, ◌≡◌, ◌≢◌, ◌↔◌, refl, sym, ap, ◌∙◌, List, false, length, ◌==◌, ==_iff,
  ==_ne, if◌then◌else◌, arith, In,
}
use native.Mathlib.Decide.{ℕ_discrete}
use multi_bit_large_scale_bo.Base.Int.{ℤ, pos, negsuc, pos_part, neg_part}
use multi_bit_large_scale_bo.Matching.Filter.{pred_ℤ, bump, Filtered, Context, is_dangling}

-- The number of inputs of circuit 1, of the `n` there are, that are matched.
abbrev pub used : ℕ → (ℕ → ℕ) → ℕ
used zero count = 0
used (suc n) count = used n count + (if count n == 0 then 0 else 1)

pub pred_ℤ_lem : (z : ℤ) → pos_part (pred_ℤ z) + neg_part z + 1 ≡ pos_part z + neg_part (pred_ℤ z)
pred_ℤ_lem (pos zero) = omega arith
pred_ℤ_lem (pos (suc n)) = omega arith
pred_ℤ_lem (negsuc n) = omega arith

used-bump_other : (n j : ℕ) (count : ℕ → ℕ) → n ≤ j → used n (bump j count) ≡ used n count
used-bump_other zero j count above = refl
used-bump_other (suc n) j count above =
    rw (==_ne n j (omega arith), used-bump_other n j count (omega arith))

-- A match with an input that was not matched adds one.
pub used-bump_first :
    (n j : ℕ) (count : ℕ → ℕ) → j < n → count j ≡ 0 → used n (bump j count) ≡ suc (used n count)
used-bump_first zero j count less e = absurd (omega arith)
used-bump_first (suc n) j count less e = elim (ℕ_discrete n j) [
  | yes same ↦
      rw (used-bump_other n j count (omega arith), (==_iff n j).1 same, ap count same ∙ e)
        (ground arith)
  | no other ↦ rw (==_ne n j other, used-bump_first n j count (omega arith) e) (omega arith)
]

-- A match with one that was matched adds none.
pub used-bump_again :
    (n j : ℕ) (count : ℕ → ℕ) → j < n → count j ≢ 0 → used n (bump j count) ≡ used n count
used-bump_again zero j count less e = absurd (omega arith)
used-bump_again (suc n) j count less e = elim (ℕ_discrete n j) [
  | yes same ↦
      let e' : count n ≢ 0 = λ z. e (ap count (sym same) ∙ z) in
      rw (used-bump_other n j count (omega arith), (==_iff n j).1 same, ==_ne (count n) 0 e')
        (ground arith)
  | no other ↦ rw (==_ne n j other, used-bump_again n j count (omega arith) e)
]

-- Every lock is to one of `n` inputs of circuit 1, to a constant, or none.
abbrev pub IsLock : ℕ → ℤ → Type 0
IsLock n (pos j) = j < n
IsLock n (negsuc k) = k < 2

-- What a lock says of an input: it stays in the set, or it is recorded.
abbrev pub Stays : Context → ℕ → Type 0
Stays c p = (c.locked p ≡ negsuc 0) × (is_dangling c p ≡ false)

abbrev pub IsRecorded : Context → ℕ → Type 0
IsRecorded c p = c.locked p ≢ negsuc 0

-- It is locked to an input of circuit 1 outside the support.
abbrev pub IsOutside : Context → ℕ → Type 0
IsOutside c p = (j : ℕ) × (c.locked p ≡ pos j) × (c.in_support j ≡ false)

-- The outcome for the support `ps`: who stays, who is recorded, and the balance of the quota.
pub record IsFiltered (n : ℕ) (c : Context) (ps : List ℕ) (quota : ℤ) (count : ℕ → ℕ) (r : Filtered)
    : Type 0 where
  pub stays : (p : ℕ) → In p r.rest ↔ In p ps × Stays c p
  pub recorded : (p : ℕ) → In p r.record_lock ↔ In p ps × IsRecorded c p
  pub inside : (p : ℕ) → In p ps → IsOutside c p → ⊥
  pub balance :
      pos_part r.quota + neg_part quota + length ps + used n count
      ≡ neg_part r.quota + pos_part quota + length r.rest + used n r.count
