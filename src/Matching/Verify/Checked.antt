-- ===== src/Matching/Verify/Checked.antt =====
-- src/Matching.cpp: what `verifyResult` finds, and where it is undefined.
use multi_bit_large_scale_bo.Base.{
  ℕ, zero, suc, ◌+◌, ◌*◌, ◌<◌, ◌≤◌, ◌≡◌, ◌↔◌, refl, sym, ap, ◌∙◌, subst, ◌⊎◌, inl, inr, arith,
  Bool-cases, List, [], ◌∷◌, Bool, true, false, if◌then◌else◌, In, ok, undefined,
}
use multi_bit_large_scale_bo.Base.Int.{ℤ, pos, negsuc, pos_part}
use multi_bit_large_scale_bo.Answer.{Lock}
use multi_bit_large_scale_bo.Matching.State.{is_none}
use multi_bit_large_scale_bo.Matching.Filter.Quota.{IsLock}
use multi_bit_large_scale_bo.Matching.Search.{lock_pairs, call_compare}
use multi_bit_large_scale_bo.Matching.Prepare.{value_or}
use multi_bit_large_scale_bo.Matching.Verify.{
  Recorded, Verdict, match_pairs, index_pairs, call_indexed, confirms, verify_output, verify_result,
}

-- Where every input is matched, the pairs are those of the search.
match_pairs-eq :
    (n : ℕ) (locks : ℕ → Lock) (ps : List ℕ)
    → ((p : ℕ) → IsLock n (locks p).0)
    → ((p : ℕ) → In p ps → is_none (locks p).0 ≡ false)
    → (index_pairs (match_pairs locks ps).0 ≡ ok (lock_pairs locks ps).0)
      × ((match_pairs locks ps).1 ≡ (lock_pairs locks ps).1)
      × ((match_pairs locks ps).2 ≡ (lock_pairs locks ps).2)
unfolding match_pairs lock_pairs index_pairs
match_pairs-eq n locks [] in_range set = (refl, refl, refl)
match_pairs-eq n locks (p ∷ ps) in_range set =
    head (locks p).0 refl (in_range p) (set p (inl refl))
      (match_pairs-eq n locks ps in_range (λ x m. set x (inr m)))
  where
    head :
        (z : ℤ)
        → (locks p).0 ≡ z
        → IsLock n z
        → is_none (locks p).0 ≡ false
        → (index_pairs (match_pairs locks ps).0 ≡ ok (lock_pairs locks ps).0)
          × ((match_pairs locks ps).1 ≡ (lock_pairs locks ps).1)
          × ((match_pairs locks ps).2 ≡ (lock_pairs locks ps).2)
        → (index_pairs (match_pairs locks (p ∷ ps)).0 ≡ ok (lock_pairs locks (p ∷ ps)).0)
          × ((match_pairs locks (p ∷ ps)).1 ≡ (lock_pairs locks (p ∷ ps)).1)
          × ((match_pairs locks (p ∷ ps)).2 ≡ (lock_pairs locks (p ∷ ps)).2)
    head (pos j) at range some_ (e, f, g) =
        rw (match_pairs, lock_pairs, at) (rw e refl, ap (λ xs. (locks p).1 ∷ xs) f, g)
    head (negsuc zero) at range some_ e = absurd (apart (sym (ap is_none at) ∙ some_))
      where
        apart : true ≡ false → ⊥
        apart e = cc
    head (negsuc (suc zero)) at range some_ (e, f, g) =
        rw (match_pairs, lock_pairs, at) (e, f, ap (λ xs. ((locks p).1, p) ∷ xs) g)
    head (negsuc (suc (suc k))) at range some_ e = absurd (omega arith)

-- An input that is not matched is pushed with the index -1.
match_pairs-unmatched :
    (locks : ℕ → Lock) (ps : List ℕ) (p : ℕ)
    → In p ps
    → (locks p).0 ≡ negsuc 0
    → In (p, negsuc 0) (match_pairs locks ps).0
unfolding match_pairs
match_pairs-unmatched locks [] p m e = absurd m
match_pairs-unmatched locks (x ∷ xs) p (inl same) e =
    rw (match_pairs, ap (λ y. (locks y).0) (sym same) ∙ e) (inl (λ i. (same i, negsuc 0)))
match_pairs-unmatched locks (x ∷ xs) p (inr later) e =
    head (locks x).0 refl (match_pairs-unmatched locks xs p later e)
  where
    head :
        (z : ℤ)
        → (locks x).0 ≡ z
        → In (p, negsuc 0) (match_pairs locks xs).0
        → In (p, negsuc 0) (match_pairs locks (x ∷ xs)).0
    head (pos j) at m = rw (match_pairs, at) (inr m)
    head (negsuc zero) at m = rw (match_pairs, at) (inr m)
    head (negsuc (suc zero)) at m = rw (match_pairs, at) m
    head (negsuc (suc (suc k))) at m = rw (match_pairs, at) (inr m)

-- The comparison reads each index, and the index -1 is out of range.
index_pairs-undefined :
    (ps : List (ℕ × ℤ)) (p k : ℕ) → In (p, negsuc k) ps → index_pairs ps ≡ undefined
unfolding index_pairs
index_pairs-undefined [] p k m = absurd m
index_pairs-undefined ((x, pos j) ∷ ps) p k (inl e) = absurd (apart (ap (λ (c : ℕ × ℤ). c.1) e))
  where
    apart : negsuc k ≡ pos j → ⊥
    apart e = cc
index_pairs-undefined ((x, pos j) ∷ ps) p k (inr m) = rw (index_pairs-undefined ps p k m) refl
index_pairs-undefined ((x, negsuc i) ∷ ps) p k m = refl

confirms_iff : (t : ℕ) (neg : Bool) → (confirms t neg ≡ true) ↔ (t ≡ (if neg then 2 else 1))
confirms_iff t true = ground arith
confirms_iff t false = ground arith

old_or_new : (q n : ℕ) → q < suc n → (q < n) ⊎ (q ≡ n)
old_or_new q n less = ground arith

module _ (r : Recorded) where
  -- The comparison under the recorded match gives the recorded verdict.
  abbrev pub IsConfirmed : ℕ → Type 0
  IsConfirmed q =
      (o : ℕ) (neg : Bool)
      → r.output_match q ≡ (pos o, neg)
      → call_compare r.compare r.input_match (r.pi_idx q) (q, o) ≡ ok (if neg then 2 else 1)

  -- The number of matched outputs among the first `n`.
  abbrev pub matched_count : ℕ → ℕ
  matched_count zero = 0
  matched_count (suc q) = matched_count q + (elim (r.output_match q).0 [ pos o ↦ 1 | negsuc k ↦ 0 ])

-- A recorded match in range: every input of a matched output is matched, and the comparison answers.
pub record IsRecorded (m n : ℕ) (r : Recorded) : Type 0 where
  pub input_range : (p : ℕ) → IsLock m (r.input_match p).0
  pub output_range : (q k : ℕ) → (r.output_match q).0 ≡ negsuc k → k ≡ 0
  pub set :
      (q o p : ℕ)
      → q < n
      → (r.output_match q).0 ≡ pos o
      → In p (r.pi_idx q)
      → is_none (r.input_match p).0 ≡ false
  pub answers :
      (q o : ℕ)
      → q < n
      → (r.output_match q).0 ≡ pos o
      → (t : ℕ) × (call_compare r.compare r.input_match (r.pi_idx q) (q, o) ≡ ok t)

-- What the loop leaves after the first `n` outputs.
pub record IsVerdict (r : Recorded) (n : ℕ) (v : Verdict) : Type 0 where
  pub confirmed : (v.eq ≡ true) ↔ ((q : ℕ) → q < n → IsConfirmed r q)
  pub points : v.point ≤ 2 * matched_count r n
  pub full : (v.eq ≡ true) ↔ (v.point ≡ 2 * matched_count r n)

module _ (r : Recorded) (n o t : ℕ) (at : (r.output_match n).0 ≡ pos o)
    (answer : call_compare r.compare r.input_match (r.pi_idx n) (n, o) ≡ ok t) where
  -- The verdict after the output `n`, which the comparison answers with `t`.
  abbrev after : Verdict → Verdict
  after v = record {
    point = v.point + (if confirms t (r.output_match n).1 then 2 else 0);
    eq = if confirms t (r.output_match n).1 then v.eq else false;
  }

  verify_output_lem :
      (v : Verdict)
      → (index_pairs (match_pairs r.input_match (r.pi_idx n)).0
          ≡ ok (lock_pairs r.input_match (r.pi_idx n)).0)
        × ((match_pairs r.input_match (r.pi_idx n)).1 ≡ (lock_pairs r.input_match (r.pi_idx n)).1)
        × ((match_pairs r.input_match (r.pi_idx n)).2 ≡ (lock_pairs r.input_match (r.pi_idx n)).2)
      → verify_output r n o (r.output_match n).1 v ≡ ok (after v)
  unfolding verify_output call_indexed
  verify_output_lem v (e, f, g) = rw (verify_output, call_indexed, e, f, g, answer) refl

  IsConfirmed-here : confirms t (r.output_match n).1 ≡ true → IsConfirmed r n
  IsConfirmed-here yes_ o' neg f =
      subst
        (λ (x : ℕ).
          call_compare r.compare r.input_match (r.pi_idx n) (n, x) ≡ ok (if neg then 2 else 1))
        (ap pos_part (sym at ∙ ap (λ l. l.0) f))
        (answer
          ∙ ap (λ x. ok x)
              ((confirms_iff t (r.output_match n).1).0 yes_
                ∙ ap (λ b. if b then 2 else 1) (ap (λ l. l.1) f)))

  confirms-here : IsConfirmed r n → confirms t (r.output_match n).1 ≡ true
  confirms-here conf =
      (confirms_iff t (r.output_match n).1).1
        (ap value_or (sym answer ∙ conf o (r.output_match n).1 (λ i. (at i, (r.output_match n).1))))

  after-IsVerdict : (v : Verdict) → IsVerdict r n v → IsVerdict r (suc n) (after v)
  after-IsVerdict v is = elim (Bool-cases (confirms t (r.output_match n).1)) [
    | inl yes_ ↦ record {
      confirmed = rw yes_ (
        λ g q less. elim (old_or_new q n less) [
          | inl old ↦ is.confirmed.0 g q old
          | inr same ↦ subst (λ (x : ℕ). IsConfirmed r x) (sym same) (IsConfirmed-here yes_)
        ],
        λ f. is.confirmed.1 (λ q less. f q (omega arith)),
      );
      points = rw (yes_, at) (omega (arith, is.points));
      full = rw (yes_, at) (ground (arith, is.full));
    }
    | inr no_ ↦ record {
      confirmed = rw no_ (λ g. cc, λ f. sym no_ ∙ confirms-here (f n (omega arith)));
      points = rw (no_, at) (omega (arith, is.points));
      full = rw (no_, at) (λ g. cc, λ g. absurd (omega (arith, is.points)));
    }
  ]

-- If every input of a matched output is matched, `verifyResult` ends. It finds "eq" exactly when the comparison under the
-- recorded match gives every matched output its recorded verdict, and exactly when the points are two for each matched output.
pub verify_result-IsVerdict :
    (r : Recorded) (m n : ℕ)
    → IsRecorded m n r
    → (v : Verdict) × (verify_result r n ≡ ok v) × IsVerdict r n v
unfolding verify_result
verify_result-IsVerdict r m zero rec = (
  record { point = 0; eq = true },
  refl,
  record {
    confirmed = (λ e q less. absurd (omega arith), λ f. refl);
    points = omega arith;
    full = (λ e. refl, λ e. refl);
  },
)
verify_result-IsVerdict r m (suc n) rec =
    let (v, e, is) = verify_result-IsVerdict r m n (record {
      input_range = rec.input_range;
      output_range = rec.output_range;
      set = λ q o p less. rec.set q o p (omega arith);
      answers = λ q o less. rec.answers q o (omega arith);
    }) in
    step (r.output_match n).0 refl v e is
  where
    step :
        (z : ℤ)
        → (r.output_match n).0 ≡ z
        → (v : Verdict) → verify_result r n ≡ ok v
        → IsVerdict r n v
        → (v' : Verdict) × (verify_result r (suc n) ≡ ok v') × IsVerdict r (suc n) v'
    step (pos o) at v e is =
        let (t, answer) = rec.answers n o (omega arith) at in
        (
          after r n o t at answer v,
          rw (verify_result, e, at)
              (verify_output_lem r n o t at answer v (
                match_pairs-eq m r.input_match (r.pi_idx n) rec.input_range
                  (λ p k. rec.set n o p (omega arith) at k))),
          after-IsVerdict r n o t at answer v is,
        )
    step (negsuc zero) at v e is = (
      v,
      rw (verify_result, e, at) refl,
      record {
        confirmed = (
          λ g q less. elim (old_or_new q n less) [
            | inl old ↦ is.confirmed.0 g q old
            | inr same ↦ λ o neg f.
                absurd
                  (apart o (sym at ∙ ap (λ i. (r.output_match i).0) (sym same) ∙ ap (λ l. l.0) f))
          ],
          λ f. is.confirmed.1 (λ q less. f q (omega arith)),
        );
        points = rw at (omega (arith, is.points));
        full = rw at (ground (arith, is.full));
      },
    )
      where
        apart : (o : ℕ) → negsuc 0 ≡ pos o → ⊥
        apart o e = cc
    step (negsuc (suc k)) at v e is = absurd (omega (arith, rec.output_range n (suc k) at))

-- If `verifyResult` ends for the outputs before a matched output of circuit 2 that has an input which is
-- not matched, then it hands the comparison, for that output, a pair of the input and the index -1, and the
-- loop is undefined when it reaches the output.
pub verify_result-undefined :
    (r : Recorded) (q o p : ℕ) (v : Verdict)
    → verify_result r q ≡ ok v
    → (r.output_match q).0 ≡ pos o
    → In p (r.pi_idx q)
    → (r.input_match p).0 ≡ negsuc 0
    → In (p, negsuc 0) (match_pairs r.input_match (r.pi_idx q)).0
      × (verify_result r (suc q) ≡ undefined)
unfolding verify_result verify_output call_indexed
verify_result-undefined r q o p v e at member dangling =
    let pushed = match_pairs-unmatched r.input_match (r.pi_idx q) p member dangling in
    (
      pushed,
      rw
          (
            verify_result,
            e,
            at,
            verify_output,
            call_indexed,
            index_pairs-undefined (match_pairs r.input_match (r.pi_idx q)).0 p 0 pushed,
          )
          refl,
    )
