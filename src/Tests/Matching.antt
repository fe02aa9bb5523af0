-- ===== src/Tests/Matching.antt =====
-- The search's operations on a small match.
use multi_bit_large_scale_bo.Base.{
  ℕ, zero, suc, ◌≡◌, refl, ◌⊎◌, inl, inr, [], ◌∷◌, true, false, not, none, some, arith, In, ◌==◌,
  if◌then◌else◌,
}
use multi_bit_large_scale_bo.Base.Int.{ℤ, pos, negsuc}
use multi_bit_large_scale_bo.Matching.Filter.{Context}
use multi_bit_large_scale_bo.Matching.Filter.Result.{Outcome, filt_locked_input-Outcome}
use multi_bit_large_scale_bo.Matching.Next.{
  Choices, ltb_ℤ, int_min, fresh_priority, lower, next_match,
}
use multi_bit_large_scale_bo.Matching.Next.Choice.{IsChosen, next_match_chooses}

-- The inputs 0 and 3 are locked to input 1 of circuit 1, input 1 to a constant, and the others not.
abbrev sample_locks : ℕ → ℤ
sample_locks zero = pos 1
sample_locks (suc zero) = negsuc 1
sample_locks (suc (suc (suc zero))) = pos 1
sample_locks p = negsuc 0

abbrev sample_context : Context
sample_context = record {
  locked = sample_locks;
  in_support = λ j. true;
  init_on = false;
  init_input = λ p. none;
}

filt_locked_input-Outcome_example : Outcome 2 sample_context (0 ∷ 1 ∷ 2 ∷ 3 ∷ []) (pos 2) (λ j. 0)
filt_locked_input-Outcome_example =
    filt_locked_input-Outcome 2 sample_context (0 ∷ 1 ∷ 2 ∷ 3 ∷ []) (pos 2) (λ j. 0) (omega arith)

-- Outputs 0 and 1 are not matched yet, and the support of output 0 has two unmatched buses, that of output 1 one.
abbrev sample_choices : Choices
sample_choices = record {
  free = λ p. not (p == 2);
  buses = λ p. if p == 0 then 5 ∷ 6 ∷ [] else 7 ∷ [];
  unmatched = λ b. true;
}

sample_priorities :
    (q : ℕ)
    → In q (0 ∷ 1 ∷ 2 ∷ [])
    → ltb_ℤ int_min (fresh_priority sample_choices (λ p. pos 0) q) ≡ true
unfolding fresh_priority lower
sample_priorities q (inl e) = rw e refl
sample_priorities q (inr (inl e)) = rw e refl
sample_priorities q (inr (inr (inl e))) = rw e refl
sample_priorities q (inr (inr (inr none_left))) = elim none_left [ ]

next_match_chooses_example :
    ((next_match sample_choices (0 ∷ 1 ∷ 2 ∷ []) (λ p. pos 0)).0 ≡ none)
      × ((q : ℕ) → In q (0 ∷ 1 ∷ 2 ∷ []) → sample_choices.free q ≡ false)
    ⊎ ((p : ℕ) × ((next_match sample_choices (0 ∷ 1 ∷ 2 ∷ []) (λ p. pos 0)).0 ≡ some p)
        × IsChosen sample_choices
            (λ q. fresh_priority sample_choices (λ p. pos 0) q)
            (0 ∷ 1 ∷ 2 ∷ [])
            int_min
            p)
next_match_chooses_example =
    next_match_chooses sample_choices (0 ∷ 1 ∷ 2 ∷ []) (λ p. pos 0) sample_priorities

-- Output 1 is chosen, as fewer of its buses are unmatched.
next_match_test : (next_match sample_choices (0 ∷ 1 ∷ 2 ∷ []) (λ p. pos 0)).0 ≡ some 1
unfolding next_match
next_match_test = refl
