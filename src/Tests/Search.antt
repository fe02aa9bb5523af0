-- ===== src/Tests/Search.antt =====
-- The search on the sample circuits: input 0 or 1 of circuit 2 against inputs 0 and 1 of circuit 1.
use multi_bit_large_scale_bo.Base.{
  ℕ, ◌<◌, ◌≤◌, ◌≡◌, refl, inl, inr, [], ◌∷◌, Bool, true, false, none, arith, In, ◌==◌,
  if◌then◌else◌, Run, ok, ◌>>=◌,
}
use multi_bit_large_scale_bo.Base.Int.{pos}
use multi_bit_large_scale_bo.Answer.{Lock}
use multi_bit_large_scale_bo.Netlist.{Ptr}
use multi_bit_large_scale_bo.Matching.State.{
  initial_core, initial_best, constant, port, Compare, Problem, Search,
}
use multi_bit_large_scale_bo.Matching.Filter.{filt_locked_input}
use multi_bit_large_scale_bo.Matching.Next.{next_match}
use multi_bit_large_scale_bo.Matching.Filter.Quota.{IsLock}
use multi_bit_large_scale_bo.Matching.Search.{
  call_compare, match_output, lock_output, unlock_output,
}
use multi_bit_large_scale_bo.Matching.Search.Invariant.{IsPlain, IsReady, Ends}
use multi_bit_large_scale_bo.Matching.Search.Recorded.{unlock-lock_output}
use multi_bit_large_scale_bo.Matching.Search.Enter.{Entered, enter-Entered}
use multi_bit_large_scale_bo.Matching.Search.Result.{initial-IsConsistent, match_output-Ends}
use multi_bit_large_scale_bo.Matching.Client.{miter_compare, miter_compare_answers}
use multi_bit_large_scale_bo.Tests.Sample.{sample_rank, sample_net}
use multi_bit_large_scale_bo.Tests.Miter.{same_order}
use multi_bit_large_scale_bo.Netlist.Meaning.{IsUsed}

abbrev problem_with : Compare → Problem
problem_with compare = record {
  compare = compare;
  output_match_order = 0 ∷ [];
  output_match_cand = λ q. 0 ∷ [];
  input_match_cand = λ p. port 0 ∷ port 1 ∷ constant ∷ [];
  output_support1 = λ o. 0 ∷ 1 ∷ [];
  output_support2 = λ q. 0 ∷ 1 ∷ [];
  is_pi_in_po = λ o j. true;
  output_to_input_bus = λ q. 0 ∷ 1 ∷ [];
  output_bus1 = λ o. 2;
  output_bus2 = λ q. 2;
  input_bus1 = λ j. if j == 0 then 0 else 1;
  input_bus2 = λ p. if p == 0 then 0 else 1;
  bus_indices1 = λ j. (if j == 0 then 0 else 1) ∷ [];
  bus_indices2 = λ p. (if p == 0 then 0 else 1) ∷ [];
  init_on = false;
  init_input = λ p. none;
  init_input_ne = λ p. none;
  input_size_eq = true;
  case_08 = false;
  name_n84 = λ j. false;
}

-- The search with the comparison of the sample circuits.
abbrev pub sample_compare : Compare
sample_compare =
    miter_compare sample_net same_order (λ k. k) (1 ∷ 2 ∷ []) (3 ∷ 4 ∷ []) (7 ∷ []) (8 ∷ [])

abbrev sample_problem : Problem
sample_problem = problem_with sample_compare

only_zero : (q : ℕ) → In q (0 ∷ []) → q < 1
only_zero q m = ground arith

pub both_inputs : (p : ℕ) → In p (0 ∷ 1 ∷ []) → p < 2
both_inputs p m = ground arith

pub only_live : (a p : Ptr) → 0 < a → a < 9 → In p (a ∷ []) → IsUsed sample_rank p
only_live a p low high (inl e) = rw e (omega arith, ground arith)
only_live a p low high (inr n) = absurd n

-- Input 0 of circuit 2 is locked to the complement of input 0 of circuit 1, and so on.
abbrev pub capped : ℕ → Lock
capped p = (pos (if p == 0 then 0 else 1), true)

pub capped_in_range : (p : ℕ) → IsLock 2 (capped p).0
capped_in_range p = ground arith

miter_compare_answers_example :
    (t : ℕ) × (call_compare sample_compare capped (0 ∷ 1 ∷ []) (0, 0) ≡ ok t) × (t ≤ 2)
miter_compare_answers_example =
    miter_compare_answers sample_net same_order (λ k. k) (1 ∷ 2 ∷ []) (3 ∷ 4 ∷ []) (7 ∷ []) (8 ∷ [])
      2 capped capped_in_range (omega arith) (0 ∷ 1 ∷ []) 0 0 both_inputs (omega arith)
      (omega arith) (λ p. only_live 7 p (omega arith) (omega arith))
      (λ p. only_live 8 p (omega arith) (omega arith))

sample_problem-IsPlain : IsPlain 2 sample_problem
sample_problem-IsPlain = record {
  answers = λ locks in_range q o mq mo.
      miter_compare_answers sample_net same_order (λ k. k) (1 ∷ 2 ∷ []) (3 ∷ 4 ∷ []) (7 ∷ [])
        (8 ∷ []) 2 locks in_range (omega arith) (0 ∷ 1 ∷ []) q o both_inputs (only_zero q mq)
        (only_zero o mo) (λ p. only_live 7 p (omega arith) (omega arith))
        (λ p. only_live 8 p (omega arith) (omega arith));
  single = λ p. omega arith;
  no_exception = refl;
  apart2 = λ p q. ground arith;
  apart1 = λ j o. ground arith;
  candidates = λ p j m. few j m;
  few_buses = λ q. omega arith;
  distinct = (λ m. m, tt);
}
  where
    few : (j : ℕ) → In (port j) (port 0 ∷ port 1 ∷ constant ∷ []) → j < 2
    few j (inl e) = ground arith
    few j (inr (inl e)) = ground arith
    few j (inr (inr (inl e))) = cc
    few j (inr (inr (inr m))) = elim m [ ]

match_output-Ends_example :
    (r : Bool × Search) × (match_output sample_problem 1 0
        (record { core = initial_core; best = initial_best (λ q. pos 0) })
      ≡ ok r)
    × Ends sample_problem initial_core r
match_output-Ends_example = match_output-Ends 2 sample_problem (λ q. pos 0) sample_problem-IsPlain

abbrev summary : Bool × Search → Run (Bool × Lock × Lock × Lock)
summary r = ok (r.0, r.1.best.output_match 0, r.1.best.input_match 0, r.1.best.input_match 1)

-- With a comparison that finds every pair equal, the search matches the first candidates.
match_output_test :
    (match_output
        (problem_with (λ pairs negs out consts. ok 1))
        1
        0
        (record { core = initial_core; best = initial_best (λ q. pos 0) })
      >>= summary)
    ≡ ok (true, (pos 0, false), (pos 0, false), (pos 1, false))
unfolding match_output next_match filt_locked_input
match_output_test = refl

unlock-lock_output_example :
    unlock_output sample_problem 0 0
      (0 ∷ 1 ∷ [])
      (lock_output sample_problem 0 0 true (0 ∷ 1 ∷ []) initial_core)
    ≡ initial_core
unlock-lock_output_example =
    unlock-lock_output sample_problem 0 0 true (0 ∷ 1 ∷ []) initial_core refl (λ e. refl) (λ e. cc)

-- Nothing is locked, and the outputs 0 and 0 are to be matched.
initial-IsReady : IsReady 2 sample_problem [] 0 0 0 initial_core
initial-IsReady = record {
  consistent = initial-IsConsistent 2 sample_problem;
  locked = λ p m. elim m [ ];
  output_free = refl;
  unmatched = refl;
  fits = refl;
  room = omega arith;
}

enter-Entered_example :
    Entered 2 sample_problem [] 0 0 0 sample_problem-IsPlain 1
      (port 0)
      initial_core
      (record { quota = pos 0; count = λ j. 0 })
enter-Entered_example =
    enter-Entered 2 sample_problem [] 0 0 0 sample_problem-IsPlain 1 (port 0) initial_core
      (record { quota = pos 0; count = λ j. 0 }) initial-IsReady
