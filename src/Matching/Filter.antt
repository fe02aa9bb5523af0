-- ===== src/Matching/Filter.antt =====
-- src/Matching.cpp: `filtLockedInput`, which takes the inputs that are matched already out of the
-- functional support of an output of circuit 2, before the others are matched with the support of an
-- output of circuit 1. A port stands for its `_idx`.
pub mod Quota
pub mod Steps
pub mod Result
use multi_bit_large_scale_bo.Base.{
  ℕ, zero, suc, ◌+◌, List, [], ◌∷◌, Bool, true, false, not, ◌&&◌, ◌==◌, if◌then◌else◌, Option, none,
  some, Run, ok, undefined, ◌>>=◌,
}
use multi_bit_large_scale_bo.Base.Int.{ℤ, pos, negsuc}

-- `quota--`.
abbrev pub pred_ℤ : ℤ → ℤ
pred_ℤ (pos zero) = negsuc 0
pred_ℤ (pos (suc n)) = pos n
pred_ℤ (negsuc n) = negsuc (suc n)

-- `count[j]++`.
abbrev pub bump : ℕ → (ℕ → ℕ) → ℕ → ℕ
bump j count k = if k == j then suc (count k) else count k

-- What the function leaves in its arguments: `c2_input_set`, `record_lock`, `quota` and
-- `c1_input_match_count`.
pub record Filtered : Type 0 where
  pub rest : List ℕ
  pub record_lock : List ℕ
  pub quota : ℤ
  pub count : ℕ → ℕ

-- An input that stays in `c2_input_set`, and one that is recorded as locked.
abbrev pub keep : ℕ → Filtered → Filtered
keep p f = record f { rest = p ∷ f.rest }

abbrev pub lock_first : ℕ → Filtered → Filtered
lock_first p f = record f { record_lock = p ∷ f.record_lock }

-- A change of the outcome, if the function does not return false.
abbrev pub with_first : (Filtered → Filtered) → Option Filtered → Option Filtered
with_first f none = none
with_first f (some r) = some (f r)

-- What the function reads: `inputLock[p].first`, `isPIinPO[c1_output->_idx][j]`, `initOn`, and the
-- index of `_init_input[p]`, if that is no null pointer.
pub record Context : Type 0 where
  pub locked : ℕ → ℤ
  pub in_support : ℕ → Bool
  pub init_on : Bool
  pub init_input : ℕ → Option ℕ

-- The test for an input that the initial answer matches outside the support.
abbrev pub is_dangling : Context → ℕ → Bool
is_dangling c p =
    c.init_on && (elim (c.init_input p) [ none ↦ false | some j ↦ not (c.in_support j) ])

-- `filtLockedInput`, where `none` is the return value false. `record_lock` is empty at the start.
unfoldable pub filt_locked_input : Context → List ℕ → ℤ → (ℕ → ℕ) → Run (Option Filtered)
filt_locked_input c [] quota count =
    ok (some (record { rest = []; record_lock = []; quota = quota; count = count }))
filt_locked_input c (p ∷ ps) quota count =
    let lower = filt_locked_input c ps (pred_ℤ quota) count in
    let unlocked = filt_locked_input c ps quota count in
    elim (c.locked p) [
      | negsuc zero ↦
          if is_dangling c p then lower else (unlocked >>= λ r. ok (with_first (keep p) r))
      | negsuc (suc zero) ↦ lower >>= λ r. ok (with_first (lock_first p) r)
      | negsuc (suc (suc k)) ↦ undefined
      | pos j ↦
          let first = filt_locked_input c ps quota (bump j count) in
          let again = filt_locked_input c ps (pred_ℤ quota) (bump j count) in
          if c.in_support j
          then ((if count j == 0 then first else again) >>= λ r. ok (with_first (lock_first p) r))
          else ok none
    ]
