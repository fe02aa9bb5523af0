-- ===== src/Matching/Prepare/Generate.antt =====
-- src/Matching.cpp: `genOutputMatch`, `genInputMatch` and `genInfo`, which list the candidates of each port and
-- put the supports in order, and `new_boolean_match`, which starts the search.
use multi_bit_large_scale_bo.Base.{
  ℕ, ◌-◌, List, [], ◌∷◌, ◌++◌, map, Bool, true, false, not, ◌&&◌, ◌||◌, length, ltb, ◌==◌,
  if◌then◌else◌, none, some, Run, ok, undefined, ◌>>=◌,
}
use multi_bit_large_scale_bo.Base.Int.{ℤ, pos, sub_ℕ}
use multi_bit_large_scale_bo.Matching.State.{
  Candidate, constant, port, Problem, Search, initial_core, initial_best,
}
use multi_bit_large_scale_bo.Matching.Next.{ltb_ℤ}
use multi_bit_large_scale_bo.Matching.Search.{match_output}
use multi_bit_large_scale_bo.Matching.Prepare.{
  Setup, stable_sort, upto, size_at, value_or, filter_run, sort_run, fill_run, distance, by_key,
  by_key_down, input_val, output_val, gen_pi_in_po, assign_output_to_input_bus,
}

abbrev pub is_empty : List ℕ → Bool
is_empty [] = true
is_empty (x ∷ xs) = false

-- The candidates of an input, with the constant at the end.
abbrev pub with_constant : List ℕ → List Candidate
with_constant js = map port js ++ constant ∷ []

module _ (s : Setup) where
  abbrev pub output_size_eq : Bool
  output_size_eq = s.c2.po_size == s.c1.po_size

  abbrev pub input_size_eq : Bool
  input_size_eq = s.c2.pi_size == s.c1.pi_size

  -- `inputDiff`.
  abbrev pub input_diff : ℤ
  input_diff = sub_ℕ s.c2.pi_size s.c1.pi_size

  -- A difference of sizes that is less than 0 or above `inputDiff`, or a bit at a lower place.
  abbrev pub differs : ℕ → ℕ → ℤ → ℤ → Bool
  differs size2 size1 bit2 bit1 =
      ltb size2 size1 || ltb_ℤ input_diff (pos (size2 - size1)) || ltb_ℤ bit2 bit1

  -- Output `o` passes the tests for output `q`, whose buses have the sizes `size1` and `size2`.
  unfoldable pub output_fits : ℕ → ℕ → ℕ → ℕ → Bool
  output_fits size2 q size1 o =
      not (output_size_eq && not (size2 == size1))
      && (if input_size_eq
          then output_val s.c2 q == output_val s.c1 o
          else not (
              differs (output_val s.c2 q) (output_val s.c1 o) (s.c2.output_bit q)
                (s.c1.output_bit o)))

  -- The two sorts of the candidates of an output; the first reads the sizes of buses of circuit 2.
  unfoldable pub sort_outputs : ℕ → List ℕ → Run (List ℕ)
  unfolding sort_run stable_sort
  sort_outputs size2 os =
      sort_run (λ size. stable_sort (by_key (λ o. s.abs_diff size2 (size o))))
        (λ o. size_at s.c2.buses (s.c1.output_bus o)) os
      >>= λ os'. ok (stable_sort (by_key_down (output_val s.c1)) os')

  -- `output_match_cand[q]`.
  unfoldable pub gen_output_match : ℕ → Run (List ℕ)
  unfolding size_at filter_run output_fits sort_outputs
  gen_output_match q =
      if s.init_on && not (is_empty (s.init_output q))
      then ok (s.init_output q)
      else (size_at s.c2.buses (s.c2.output_bus q) >>= λ size2.
          filter_run
            (λ o.
              size_at s.c1.buses (s.c1.output_bus o) >>= λ size1. ok (output_fits size2 q size1 o))
            (upto s.c1.po_size)
          >>= λ os. sort_outputs size2 os)

  -- The comparison by which `output_match_order` is sorted.
  abbrev pub output_before : (ℕ → List ℕ) → ℕ → ℕ → Bool
  output_before cand a b =
      if s.init_on
      then if ltb_ℤ (s.output_priority b) (s.output_priority a)
          || ltb_ℤ (s.output_priority a) (s.output_priority b)
        then ltb_ℤ (s.output_priority b) (s.output_priority a)
        else if length (cand a) == 1 && length (cand b) == 1
        then ltb_ℤ (s.c2.output_bit a) (s.c2.output_bit b)
        else if length (cand a) == 1
        then true
        else if length (cand b) == 1
        then false
        else ltb (output_val s.c2 a) (output_val s.c2 b)
      else ltb (output_val s.c2 a) (output_val s.c2 b)

  unfoldable pub output_order : (ℕ → List ℕ) → List ℕ
  unfolding stable_sort
  output_order cand = stable_sort (output_before cand) (upto s.c2.po_size)

  -- The buses of an input of circuit 2 that is in more than one are as large as those of `j`.
  unfoldable pub buses_cover : List ℕ → List ℕ → Run Bool
  unfolding size_at
  buses_cover [] bs1 = ok true
  buses_cover (b2 ∷ bs2) [] = undefined
  buses_cover (b2 ∷ bs2) (b1 ∷ bs1) =
      let rest = buses_cover bs2 bs1 in
      size_at s.c2.buses b2 >>= λ size2.
      size_at s.c1.buses b1 >>= λ size1. if ltb size2 size1 then ok false else rest

  -- The tests of the sizes of buses for inputs `p` and `j`, and the test of their supports.
  unfoldable pub input_sizes_fit : ℕ → ℕ → ℕ → ℕ → Run Bool
  unfolding buses_cover
  input_sizes_fit size2 p j size1 =
      if input_size_eq
      then ok (size2 == size1)
      else if ltb 1 (length (s.c2.bus_indices p))
      then (if length (s.c1.bus_indices j) == length (s.c2.bus_indices p)
          then buses_cover (s.c2.bus_indices p) (s.c1.bus_indices j)
          else ok false)
      else ok (
          not (differs size2 size1 (s.c2.input_bit p) (s.c1.input_bit j))
          && (not (ltb (s.c2.input_bus p) s.bus_size) || s.bus_match size2 size1))

  abbrev pub input_supports_fit : ℕ → ℕ → Bool → Bool
  input_supports_fit p j pass =
      pass && not (output_size_eq && input_size_eq && not (input_val s.c2 p == input_val s.c1 j))

  -- Input `j` passes the tests for input `p`.
  unfoldable pub input_fits : ℕ → ℕ → ℕ → Run Bool
  unfolding size_at input_sizes_fit
  input_fits size2 p j = size_at s.c1.buses (s.c1.input_bus j) >>= λ size1.
      input_sizes_fit size2 p j size1 >>= λ pass. ok (input_supports_fit p j pass)

  -- The differences by which the candidates of input `p` are sorted.
  abbrev pub sig_difference : ℕ → ℕ → ℕ
  sig_difference p j = distance (s.c2.input_sig p) (s.c1.input_sig j)

  abbrev pub support_difference : ℕ → ℕ → ℕ
  support_difference p j = distance (pos (input_val s.c2 p)) (pos (input_val s.c1 j))

  unfoldable pub sort_inputs : ℕ → ℕ → List ℕ → Run (List ℕ)
  unfolding sort_run stable_sort
  sort_inputs size2 p js =
      sort_run (λ size. stable_sort (by_key (λ j. s.abs_diff size2 (size j))))
        (λ j. size_at s.c1.buses (s.c1.input_bus j)) js
      >>= λ js'. ok (
          stable_sort (by_key (support_difference p)) (stable_sort (by_key (sig_difference p)) js'))

  -- `input_match_cand[p]`, before the constant.
  unfoldable pub input_ports : ℕ → ℕ → Run (List ℕ)
  unfolding filter_run input_fits sort_inputs
  input_ports size2 p =
      filter_run (input_fits size2 p) (upto s.c1.pi_size) >>= λ js. sort_inputs size2 p js

  -- `input_match_cand[p]`.
  unfoldable pub gen_input_match : ℕ → Run (List Candidate)
  unfolding size_at input_ports
  gen_input_match p =
      let others : ℕ → Run (List Candidate) =
        λ size2. input_ports size2 p >>= λ js. ok (with_constant js) in
      size_at s.c2.buses (s.c2.input_bus p) >>= λ size2.
      (if s.init_on
        then (elim (s.init_input p) [ none ↦ others size2 | some j ↦ ok (port j ∷ []) ])
        else others size2)

  -- `genInfo`: the supports of circuit 2 in the order in which their inputs are matched, and those of
  -- circuit 1. The sizes of all buses of inputs of circuit 2 have been read before.
  abbrev pub input_before : (ℕ → List Candidate) → ℕ → ℕ → Bool
  input_before cand a b =
      if length (cand a) == length (cand b)
      then ltb (value_or (size_at s.c2.buses (s.c2.input_bus b)))
          (value_or (size_at s.c2.buses (s.c2.input_bus a)))
      else ltb (length (cand a)) (length (cand b))

  abbrev pub gen_info2 : (ℕ → List Candidate) → ℕ → List ℕ
  gen_info2 cand q = s.std_sort (input_before cand) (s.c2.output_support q)

  unfoldable pub gen_info1 : ℕ → Run (List ℕ)
  unfolding size_at sort_run
  gen_info1 o =
      sort_run (λ size. s.std_sort (by_key_down size)) (λ j. size_at s.c1.buses (s.c1.input_bus j))
        (s.c1.output_support o)

  -- What the search reads, from the vectors that the loops have filled.
  abbrev pub problem : (ℕ → List ℕ) → (ℕ → List Candidate) → (ℕ → List ℕ) → Problem
  problem out_cand in_cand support1 = record {
    compare = s.compare;
    output_match_order = output_order out_cand;
    output_match_cand = out_cand;
    input_match_cand = in_cand;
    output_support1 = support1;
    output_support2 = gen_info2 in_cand;
    is_pi_in_po = gen_pi_in_po s.c1;
    output_to_input_bus = assign_output_to_input_bus s.c2 (gen_info2 in_cand);
    output_bus1 = s.c1.output_bus;
    output_bus2 = s.c2.output_bus;
    input_bus1 = s.c1.input_bus;
    input_bus2 = s.c2.input_bus;
    bus_indices1 = s.c1.bus_indices;
    bus_indices2 = s.c2.bus_indices;
    init_on = s.init_on;
    init_input = s.init_input;
    init_input_ne = s.init_input_ne;
    input_size_eq = input_size_eq;
    case_08 = s.case_08;
    name_n84 = s.name_n84;
  }

  unfoldable pub prepare : Run Problem
  unfolding fill_run gen_output_match gen_input_match gen_info1 output_order
  prepare = fill_run gen_output_match s.c2.po_size >>= λ out_cand.
      fill_run gen_input_match s.c2.pi_size >>= λ in_cand.
      fill_run gen_info1 s.c1.po_size >>= λ support1. ok (problem out_cand in_cand support1)

  -- The preparation, and the search from the state in which nothing is matched.
  unfoldable pub new_boolean_match : Run (Bool × Search)
  unfolding prepare match_output
  new_boolean_match = prepare >>= λ P.
      match_output P s.c2.po_size 0
        (record { core = initial_core; best = initial_best s.output_priority })
