-- ===== src/Matching/Filter/Steps.antt =====
-- src/Matching.cpp: one input of `filtLockedInput`, for each kind of lock.
use multi_bit_large_scale_bo.Base.{
  ℕ, ◌<◌, ◌≡◌, ◌≢◌, ◌↔◌, sym, ap, ◌∙◌, inl, inr, List, ◌∷◌, true, false, arith, In, subst,
}
use multi_bit_large_scale_bo.Base.Int.{ℤ, pos, negsuc}
use multi_bit_large_scale_bo.Matching.Filter.{
  pred_ℤ, bump, Filtered, keep, lock_first, Context, is_dangling,
}
use multi_bit_large_scale_bo.Matching.Filter.Quota.{
  pred_ℤ_lem, used-bump_first, used-bump_again, Stays, IsRecorded, IsOutside, IsFiltered,
}

-- The members of `xs` are those of `ps` with the property, and one more element has it or not.
module _ (P : ℕ → Type 0) (p q : ℕ) (xs ps : List ℕ) (h : In q xs ↔ In q ps × P q) where
  In-with : P p → In q (p ∷ xs) ↔ In q (p ∷ ps) × P q
  In-with holds = (
    λ m. elim m [
      | inl e ↦ (inl e, subst P (sym e) holds)
      | inr m' ↦ (let r = h.0 m' in (inr r.0, r.1))
    ],
    λ (m, s). elim m [ inl e ↦ inl e | inr m' ↦ inr (h.1 (m', s)) ],
  )

  In-without : (P p → ⊥) → In q xs ↔ In q (p ∷ ps) × P q
  In-without fails = (
    λ m. let r = h.0 m in (inr r.0, r.1),
    λ (m, s). elim m [ inl e ↦ absurd (fails (subst P e s)) | inr m' ↦ h.1 (m', s) ],
  )

module _ (n : ℕ) (c : Context) (p : ℕ) (ps : List ℕ) (quota : ℤ) (count : ℕ → ℕ)
    (r : Filtered) where
  inside_step :
      (IsOutside c p → ⊥)
      → ((q : ℕ) → In q ps → IsOutside c q → ⊥)
      → (q : ℕ) → In q (p ∷ ps)
      → IsOutside c q
      → ⊥
  inside_step here there q (inl e) o = here (subst (IsOutside c) e o)
  inside_step here there q (inr m) o = there q m o

  pub stay_step :
      c.locked p ≡ negsuc 0
      → is_dangling c p ≡ false
      → IsFiltered n c ps quota count r
      → IsFiltered n c (p ∷ ps) quota count (keep p r)
  stay_step e d f = record {
    stays = λ q. In-with (Stays c) p q r.rest ps (f.stays q) (e, d);
    recorded = λ q. In-without (IsRecorded c) p q r.record_lock ps (f.recorded q) (λ s. s e);
    inside = inside_step (λ (j, e', _). cc) f.inside;
    balance = omega (arith, f.balance);
  }

  pub drop_step :
      c.locked p ≡ negsuc 0
      → is_dangling c p ≡ true
      → IsFiltered n c ps (pred_ℤ quota) count r
      → IsFiltered n c (p ∷ ps) quota count r
  drop_step e d f = record {
    stays = λ q. In-without (Stays c) p q r.rest ps (f.stays q) (λ s. let e' = s.1 in cc);
    recorded = λ q. In-without (IsRecorded c) p q r.record_lock ps (f.recorded q) (λ s. s e);
    inside = inside_step (λ (j, e', _). cc) f.inside;
    balance = omega (arith, f.balance, pred_ℤ_lem quota);
  }

  pub const_step :
      c.locked p ≡ negsuc 1
      → IsFiltered n c ps (pred_ℤ quota) count r
      → IsFiltered n c (p ∷ ps) quota count (lock_first p r)
  const_step e f = record {
    stays = λ q. In-without (Stays c) p q r.rest ps (f.stays q) (λ s. let e' = s.0 in cc);
    recorded = λ q. In-with (IsRecorded c) p q r.record_lock ps (f.recorded q) (λ e'. cc);
    inside = inside_step (λ (j, e', _). cc) f.inside;
    balance = omega (arith, f.balance, pred_ℤ_lem quota);
  }

  outside_lem : (j : ℕ) → c.locked p ≡ pos j → c.in_support j ≡ true → IsOutside c p → ⊥
  outside_lem j e s (k, e', s') =
      let same : j ≡ k = cc in let t : c.in_support k ≡ true = ap c.in_support (sym same) ∙ s in cc

  pub first_step :
      (j : ℕ)
      → c.locked p ≡ pos j
      → c.in_support j ≡ true
      → j < n
      → count j ≡ 0
      → IsFiltered n c ps quota (bump j count) r
      → IsFiltered n c (p ∷ ps) quota count (lock_first p r)
  first_step j e s less new f = record {
    stays = λ q. In-without (Stays c) p q r.rest ps (f.stays q) (λ s'. let e' = s'.0 in cc);
    recorded = λ q. In-with (IsRecorded c) p q r.record_lock ps (f.recorded q) (λ e'. cc);
    inside = inside_step (outside_lem j e s) f.inside;
    balance = omega (arith, f.balance, used-bump_first n j count less new);
  }

  pub again_step :
      (j : ℕ)
      → c.locked p ≡ pos j
      → c.in_support j ≡ true
      → j < n
      → count j ≢ 0
      → IsFiltered n c ps (pred_ℤ quota) (bump j count) r
      → IsFiltered n c (p ∷ ps) quota count (lock_first p r)
  again_step j e s less old f = record {
    stays = λ q. In-without (Stays c) p q r.rest ps (f.stays q) (λ s'. let e' = s'.0 in cc);
    recorded = λ q. In-with (IsRecorded c) p q r.record_lock ps (f.recorded q) (λ e'. cc);
    inside = inside_step (outside_lem j e s) f.inside;
    balance = omega (arith, f.balance, used-bump_again n j count less old, pred_ℤ_lem quota);
  }
