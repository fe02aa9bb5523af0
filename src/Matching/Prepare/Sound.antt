-- ===== src/Matching/Prepare/Sound.antt =====
-- src/Matching.cpp: the preparation ends, and the search that `new_boolean_match` starts with what it prepares
-- ends and records a match.
use multi_bit_large_scale_bo.Base.{
  ltb, ℕ, suc, ◌+◌, ◌<◌, ◌≤◌, ◌≡◌, refl, ◌∙◌, subst, arith, List, [], ◌∷◌, Bool, length, In,
  IsDistinct, ok,
}
use multi_bit_large_scale_bo.Base.Sets.{set_insert, set_insert_all}
use multi_bit_large_scale_bo.Matching.State.{
  Candidate, port, Problem, Search, initial_core, initial_best,
}
use multi_bit_large_scale_bo.Matching.Search.{match_output}
use multi_bit_large_scale_bo.Matching.Search.Invariant.{IsPlain, Ends}
use multi_bit_large_scale_bo.Matching.Search.Result.{match_output-Ends}
use multi_bit_large_scale_bo.Matching.Prepare.{Circuit, Setup, upto, insert_buses, input_buses}
use multi_bit_large_scale_bo.Matching.Prepare.Generate.{
  gen_output_match, output_before, output_order, gen_input_match, gen_info1, gen_info2, problem,
  prepare, new_boolean_match,
}
use multi_bit_large_scale_bo.Matching.Prepare.Sort.{
  In-stable_sort, length-stable_sort, stable_sort-IsDistinct, In-upto, length-upto, upto-IsDistinct,
}
use multi_bit_large_scale_bo.Matching.Prepare.Loops.{fill_run_lem}
use multi_bit_large_scale_bo.Matching.Prepare.Given.{IsSetup}
use multi_bit_large_scale_bo.Matching.Prepare.Outputs.{gen_output_match_lem}
use multi_bit_large_scale_bo.Matching.Prepare.Candidates.{gen_input_match_lem, gen_info1_lem}

length-set_insert : (b : ℕ) (xs : List ℕ) → length (set_insert ltb b xs) ≤ suc (length xs)
unfolding set_insert
length-set_insert b [] = omega arith
length-set_insert b (x ∷ xs) = ground (arith, length-set_insert b xs)

length-insert_buses : (bs xs : List ℕ) → length (insert_buses bs xs) ≤ length bs + length xs
unfolding insert_buses set_insert_all
length-insert_buses [] xs = omega arith
length-insert_buses (b ∷ bs) xs =
    omega (arith, length-insert_buses bs (set_insert ltb b xs), length-set_insert b xs)

-- With one bus for each input, an output has at most as many buses as inputs.
length-input_buses :
    (c : Circuit) (ps xs : List ℕ)
    → ((p : ℕ) → length (c.bus_indices p) < 2)
    → length (input_buses c ps xs) ≤ length ps + length xs
unfolding input_buses
length-input_buses c [] xs single = omega arith
length-input_buses c (p ∷ ps) xs single = omega (
  arith,
  single p,
  length-insert_buses (c.bus_indices p) xs,
  length-input_buses c ps (insert_buses (c.bus_indices p) xs) single,
)

module _ (s : Setup) (setup : IsSetup s) where
  In-output_order : (cand : ℕ → List ℕ) (q : ℕ) → In q (output_order s cand) → q < s.c2.po_size
  unfolding output_order
  In-output_order cand q m =
      (In-upto s.c2.po_size q).0 ((In-stable_sort (output_before s cand) q (upto s.c2.po_size)).0 m)

  length-output_order : (cand : ℕ → List ℕ) → length (output_order s cand) ≡ s.c2.po_size
  unfolding output_order
  length-output_order cand =
      length-stable_sort (output_before s cand) (upto s.c2.po_size) ∙ length-upto s.c2.po_size

  output_order-IsDistinct : (cand : ℕ → List ℕ) → IsDistinct (output_order s cand)
  unfolding output_order
  output_order-IsDistinct cand =
      stable_sort-IsDistinct (output_before s cand) (upto s.c2.po_size)
        (upto-IsDistinct s.c2.po_size)

  problem-IsPlain :
      (out_cand : ℕ → List ℕ) (in_cand : ℕ → List Candidate) (support1 : ℕ → List ℕ)
      → ((q o : ℕ) → In o (out_cand q) → o < s.c1.po_size)
      → ((p j : ℕ) → In (port j) (in_cand p) → j < s.c1.pi_size)
      → IsPlain s.c1.pi_size (problem s out_cand in_cand support1)
  problem-IsPlain out_cand in_cand support1 outs ins = record {
    answers = λ locks in_range q o mq mo.
        setup.answers locks in_range (gen_info2 s in_cand q)
          (λ p m. setup.support2 q p (setup.sort_keeps _ (s.c2.output_support q) p m)) q o
          (In-output_order out_cand q mq) (outs q o mo);
    single = setup.single;
    no_exception = setup.no_exception;
    apart2 = setup.apart2;
    apart1 = setup.apart1;
    candidates = ins;
    few_buses = λ q. omega (
      arith,
      length-input_buses s.c2 (gen_info2 s in_cand q) [] setup.single,
      setup.few q,
      setup.sort_length _ (s.c2.output_support q),
    );
    distinct = output_order-IsDistinct out_cand;
  }

  -- The preparation ends with a problem for which a step back restores the state, and which names every
  -- output of circuit 2 once.
  prepare_lem :
      (P : Problem) × (prepare s ≡ ok P)
      × IsPlain s.c1.pi_size P
      × (length P.output_match_order ≡ s.c2.po_size)
  unfolding prepare
  prepare_lem =
      let (out_cand, e, outs) =
        fill_run_lem (λ q os. (o : ℕ) → In o os → o < s.c1.po_size) (gen_output_match s)
          s.c2.po_size (λ q o m. absurd m) (gen_output_match_lem s setup) in
      let (in_cand, f, ins) =
        fill_run_lem (λ p cs. (j : ℕ) → In (port j) cs → j < s.c1.pi_size) (gen_input_match s)
          s.c2.pi_size (λ p j m. absurd m) (gen_input_match_lem s setup) in
      let (support1, g, _) =
        fill_run_lem (λ o js. Unit) (gen_info1 s) s.c1.po_size (λ o. tt)
          (λ o less. let (js, h) = gen_info1_lem s setup o in (js, h, tt)) in
      (
        problem s out_cand in_cand support1,
        rw (prepare, e, f, g) refl,
        problem-IsPlain out_cand in_cand support1 outs ins,
        length-output_order out_cand,
      )

-- For two circuits where: the comparison answers 0, 1 or 2 whenever the locks are in range; the buses of
-- ports, the supports and the initial matches lead into the circuits, and the buses of the outputs of
-- circuit 1 also into those of circuit 2; no input of circuit 2 is in two buses; no bus has both inputs and
-- outputs; the exception of `case_08` is off; the supports of circuit 2 have fewer than 2 ^ 31 inputs; and
-- `std::sort` adds no element and keeps the length. Then the preparation ends with a problem, and the
-- search of `new_boolean_match` for it ends as `match_output` does: the match it has recorded is one, a
-- failure restores the state, and a success has set `findOutputBest`.
pub new_boolean_match-Ends :
    (s : Setup)
    → IsSetup s
    → (P : Problem) × (prepare s ≡ ok P)
      × (r : Bool × Search) × (new_boolean_match s ≡ ok r)
      × Ends P initial_core r
unfolding new_boolean_match
new_boolean_match-Ends s setup =
    let (P, e, plain, len) = prepare_lem s setup in
    let (r, f, ends) = match_output-Ends s.c1.pi_size P s.output_priority plain in
    (P, e, r, rw (new_boolean_match, e) (start P r len f), ends)
  where
    start :
        (P : Problem) (r : Bool × Search)
        → length P.output_match_order ≡ s.c2.po_size
        → match_output P
            (length P.output_match_order)
            0
            (record { core = initial_core; best = initial_best s.output_priority })
          ≡ ok r
        → match_output P s.c2.po_size 0
            (record { core = initial_core; best = initial_best s.output_priority })
          ≡ ok r
    start P r len f =
        subst
          (λ (n : ℕ).
            match_output P n 0
              (record { core = initial_core; best = initial_best s.output_priority })
            ≡ ok r)
          len f
