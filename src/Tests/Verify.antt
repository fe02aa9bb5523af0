-- ===== src/Tests/Verify.antt =====
-- `verifyResult` on the sample circuits, with a match of all inputs and with one of none.
use multi_bit_large_scale_bo.Base.{
  ℕ, ◌<◌, ◌≡◌, refl, inl, [], ◌∷◌, true, false, arith, In, ◌==◌, if◌then◌else◌, ok, undefined,
}
use multi_bit_large_scale_bo.Base.Int.{pos, negsuc}
use multi_bit_large_scale_bo.Answer.{Lock}
use multi_bit_large_scale_bo.Matching.State.{unlocked}
use multi_bit_large_scale_bo.Matching.Client.{miter_compare_answers}
use multi_bit_large_scale_bo.Matching.Verify.{Recorded, Verdict, match_pairs, verify_result}
use multi_bit_large_scale_bo.Matching.Verify.Checked.{
  IsRecorded, IsVerdict, verify_result-IsVerdict, verify_result-undefined,
}
use multi_bit_large_scale_bo.Tests.Sample.{sample_net}
use multi_bit_large_scale_bo.Tests.Miter.{same_order}
use multi_bit_large_scale_bo.Tests.Search.{
  sample_compare, both_inputs, only_live, capped, capped_in_range,
}

abbrev recorded_with : (ℕ → Lock) → Recorded
recorded_with locks = record {
  compare = sample_compare;
  output_match = λ q. if q == 0 then (pos 0, false) else (negsuc 0, false);
  input_match = locks;
  pi_idx = λ q. 0 ∷ 1 ∷ [];
}

capped-IsRecorded : IsRecorded 2 1 (recorded_with capped)
capped-IsRecorded = record {
  input_range = capped_in_range;
  output_range = λ q k. low q k;
  set = λ q o p less e m. refl;
  answers = λ q o less e.
      let (t, f, small) =
        miter_compare_answers sample_net same_order (λ k. k) (1 ∷ 2 ∷ []) (3 ∷ 4 ∷ []) (7 ∷ [])
          (8 ∷ []) 2 capped capped_in_range (omega arith) (0 ∷ 1 ∷ []) q o both_inputs (omega arith)
          (first q o e) (λ p. only_live 7 p (omega arith) (omega arith))
          (λ p. only_live 8 p (omega arith) (omega arith)) in
      (t, f);
}
  where
    low : (q k : ℕ) → ((recorded_with capped).output_match q).0 ≡ negsuc k → k ≡ 0
    low q k e = ground arith

    first : (q o : ℕ) → ((recorded_with capped).output_match q).0 ≡ pos o → o < 1
    first q o e = ground arith

verify_result-IsVerdict_example :
    (v : Verdict) × (verify_result (recorded_with capped) 1 ≡ ok v)
    × IsVerdict (recorded_with capped) 1 v
verify_result-IsVerdict_example =
    verify_result-IsVerdict (recorded_with capped) 2 1 capped-IsRecorded

verify_result_start :
    verify_result (recorded_with (λ p. unlocked)) 0 ≡ ok (record { point = 0; eq = true })
unfolding verify_result
verify_result_start = refl

verify_result-undefined_example :
    In (0, negsuc 0) (match_pairs (λ p. unlocked) (0 ∷ 1 ∷ [])).0
    × (verify_result (recorded_with (λ p. unlocked)) 1 ≡ undefined)
verify_result-undefined_example =
    verify_result-undefined (recorded_with (λ p. unlocked)) 0 0 0 (record { point = 0; eq = true })
      verify_result_start refl (inl refl) refl
