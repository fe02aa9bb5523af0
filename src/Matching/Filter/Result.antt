-- ===== src/Matching/Filter/Result.antt =====
-- src/Matching.cpp: what `filtLockedInput` returns.
use multi_bit_large_scale_bo.Base.{
  ℕ, zero, suc, ◌≡◌, refl, ◌⊎◌, inl, inr, List, [], ◌∷◌, ==_iff, ==_ne, none, some, arith, In, All,
  Bool-cases, ok,
}
use native.Mathlib.Decide.{ℕ_discrete}
use multi_bit_large_scale_bo.Base.Int.{ℤ, pos, negsuc}
use multi_bit_large_scale_bo.Matching.Filter.{
  pred_ℤ, bump, Filtered, keep, lock_first, Context, is_dangling, filt_locked_input,
}
use multi_bit_large_scale_bo.Matching.Filter.Quota.{IsLock, IsOutside, IsFiltered}
use multi_bit_large_scale_bo.Matching.Filter.Steps.{
  stay_step, drop_step, const_step, first_step, again_step,
}

-- The function returns false because of an input that is locked outside the support, or it leaves
-- what it should.
abbrev pub Outcome : ℕ → Context → List ℕ → ℤ → (ℕ → ℕ) → Type 0
Outcome n c ps quota count =
    (filt_locked_input c ps quota count ≡ ok none) × ((p : ℕ) × In p ps × IsOutside c p)
    ⊎ ((r : Filtered) × (filt_locked_input c ps quota count ≡ ok (some r))
        × IsFiltered n c ps quota count r)

module _ (n : ℕ) (c : Context) where
  filt_cons :
      (p : ℕ) (ps : List ℕ) (quota : ℤ) (count : ℕ → ℕ)
      → ((quota' : ℤ) (count' : ℕ → ℕ) → Outcome n c ps quota' count')
      → (z : ℤ) → c.locked p ≡ z
      → IsLock n z
      → Outcome n c (p ∷ ps) quota count
  unfolding filt_locked_input
  filt_cons p ps quota count rest (negsuc zero) e lock = elim (Bool-cases (is_dangling c p)) [
    | inl dangling ↦ elim (rest (pred_ℤ quota) count) [
      | inl (f, (q, m, o)) ↦ inl (rw (filt_locked_input, e, dangling) f, (q, inr m, o))
      | inr (r, f, h) ↦
          inr (
            r,
            rw (filt_locked_input, e, dangling) f,
            drop_step n c p ps quota count r e dangling h,
          )
    ]
    | inr bound ↦ elim (rest quota count) [
      | inl (f, (q, m, o)) ↦ inl (rw (filt_locked_input, e, bound, f), (q, inr m, o))
      | inr (r, f, h) ↦ inr (
        keep p r,
        rw (filt_locked_input, e, bound, f),
        stay_step n c p ps quota count r e bound h,
      )
    ]
  ]
  filt_cons p ps quota count rest (negsuc (suc zero)) e lock = elim (rest (pred_ℤ quota) count) [
    | inl (f, (q, m, o)) ↦ inl (rw (filt_locked_input, e, f), (q, inr m, o))
    | inr (r, f, h) ↦
        inr (lock_first p r, rw (filt_locked_input, e, f), const_step n c p ps quota count r e h)
  ]
  filt_cons p ps quota count rest (negsuc (suc (suc k))) e lock = absurd (omega arith)
  filt_cons p ps quota count rest (pos j) e lock = elim (Bool-cases (c.in_support j)) [
    | inl inside ↦ elim (ℕ_discrete (count j) 0) [
      | yes new ↦ elim (rest quota (bump j count)) [
        | inl (f, (q, m, o)) ↦
            inl (rw (filt_locked_input, e, inside, (==_iff (count j) 0).1 new, f), (q, inr m, o))
        | inr (r, f, h) ↦ inr (
          lock_first p r,
          rw (filt_locked_input, e, inside, (==_iff (count j) 0).1 new, f),
          first_step n c p ps quota count r j e inside lock new h,
        )
      ]
      | no old ↦ elim (rest (pred_ℤ quota) (bump j count)) [
        | inl (f, (q, m, o)) ↦
            inl (rw (filt_locked_input, e, inside, ==_ne (count j) 0 old, f), (q, inr m, o))
        | inr (r, f, h) ↦ inr (
          lock_first p r,
          rw (filt_locked_input, e, inside, ==_ne (count j) 0 old, f),
          again_step n c p ps quota count r j e inside lock old h,
        )
      ]
    ]
    | inr outside ↦ inl (rw (filt_locked_input, e, outside), (p, inl refl, (j, e, outside)))
  ]

  -- If every input is locked to an input of circuit 1, to a constant, or to none, then
  -- `filtLockedInput` returns false, and some input is locked outside the support; or it returns true, none is, the
  -- inputs that are neither locked nor dangling stay, the locked ones are recorded, and
  -- the quota falls by the number of inputs that went without matching a new input of circuit 1.
  pub filt_locked_input-Outcome :
      (ps : List ℕ) (quota : ℤ) (count : ℕ → ℕ)
      → All (λ p. IsLock n (c.locked p)) ps
      → Outcome n c ps quota count
  unfolding filt_locked_input
  filt_locked_input-Outcome [] quota count locks = inr (
    record { rest = []; record_lock = []; quota = quota; count = count },
    refl,
    record {
      stays = λ p. (λ m. absurd m, λ (m, s). absurd m);
      recorded = λ p. (λ m. absurd m, λ (m, s). absurd m);
      inside = λ p m o. m;
      balance = omega arith;
    },
  )
  filt_locked_input-Outcome (p ∷ ps) quota count locks =
      filt_cons p ps quota count
        (λ quota' count'. filt_locked_input-Outcome ps quota' count' locks.1) (c.locked p) refl
        locks.0
