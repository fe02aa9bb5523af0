-- ===== src/Tests/Prepare.antt =====
-- The preparation of the search on the sample circuits, each with the buses {0} and {1} of inputs and {0} of outputs.
use multi_bit_large_scale_bo.Base.{
  some, ◌⊎◌, ℕ, ◌+◌, ◌<◌, ◌≡◌, ◌↔◌, refl, inl, inr, List, [], ◌∷◌, Bool, true, false, none, arith,
  In, length, ◌==◌, if◌then◌else◌, ok, undefined,
}
use multi_bit_large_scale_bo.Base.Int.{pos}
use multi_bit_large_scale_bo.Matching.State.{port, Problem, Search, initial_core}
use multi_bit_large_scale_bo.Matching.Search.Invariant.{Ends}
use multi_bit_large_scale_bo.Matching.Client.{miter_compare_answers}
use multi_bit_large_scale_bo.Matching.Prepare.{
  size_at, inputs, outputs, Circuit, Setup, gen_pi_in_po, assign_output_to_input_bus, input_val,
  output_val, assign_inputs, stable_sort,
}
use multi_bit_large_scale_bo.Matching.Prepare.Generate.{
  sort_outputs, input_ports, gen_input_match, with_constant, prepare, new_boolean_match,
}
use multi_bit_large_scale_bo.Matching.Prepare.Sort.{Pairwise, In-stable_sort, length-stable_sort}
use multi_bit_large_scale_bo.Matching.Prepare.Given.{IsSetup}
use multi_bit_large_scale_bo.Matching.Prepare.Outputs.{sort_outputs-undefined}
use multi_bit_large_scale_bo.Matching.Prepare.Candidates.{
  InOrder, MayMatch, gen_input_match-InOrder,
}
use multi_bit_large_scale_bo.Matching.Prepare.Sound.{new_boolean_match-Ends}
use multi_bit_large_scale_bo.Matching.Prepare.Tables.{
  IsBusOf, HasInput, HasOutput, gen_pi_in_po_iff, assign_output_to_input_bus_lem,
  assign_func_supp_lem,
}
use multi_bit_large_scale_bo.Tests.Sample.{sample_net}
use multi_bit_large_scale_bo.Tests.Miter.{same_order}
use multi_bit_large_scale_bo.Tests.Search.{sample_compare, both_inputs, only_live}

abbrev sample_circuit : Circuit
sample_circuit = record {
  pi_size = 2;
  po_size = 1;
  buses = inputs (0 ∷ []) ∷ inputs (1 ∷ []) ∷ outputs (0 ∷ []) ∷ [];
  output_support = λ q. 0 ∷ 1 ∷ [];
  input_support = λ p. 0 ∷ [];
  output_bus = λ q. 2;
  input_bus = λ p. if p == 0 then 0 else 1;
  bus_indices = λ p. (if p == 0 then 0 else 1) ∷ [];
  output_bit = λ q. pos 0;
  input_bit = λ p. pos 0;
  input_sig = λ p. pos p;
  unset = λ p. 77;
}

abbrev sample_setup : Setup
sample_setup = record {
  c1 = sample_circuit;
  c2 = sample_circuit;
  compare = sample_compare;
  init_on = false;
  init_input = λ p. none;
  init_output = λ q. [];
  init_input_ne = λ p. none;
  output_priority = λ q. pos 0;
  bus_size = 0;
  bus_match = λ a b. true;
  case_08 = false;
  name_n84 = λ j. false;
  abs_diff = λ a b. a + b;
  std_sort = λ less xs. stable_sort less xs;
}

sample_setup-IsSetup : IsSetup sample_setup
sample_setup-IsSetup = record {
  answers = λ locks in_range support bound q o q_less o_less.
      miter_compare_answers sample_net same_order (λ k. k) (1 ∷ 2 ∷ []) (3 ∷ 4 ∷ []) (7 ∷ [])
        (8 ∷ []) 2 locks in_range (omega arith) support q o bound q_less o_less
        (λ p. only_live 7 p (omega arith) (omega arith))
        (λ p. only_live 8 p (omega arith) (omega arith));
  output_bus2 = λ q less. omega arith;
  output_bus1 = λ o less. omega arith;
  output_bus1_in_2 = λ o less. omega arith;
  input_bus2 = λ p less. ground arith;
  input_bus1 = λ j less. ground arith;
  single = λ p. omega arith;
  no_exception = refl;
  apart2 = λ p q. ground arith;
  apart1 = λ j o. ground arith;
  init_inputs = λ p j e. cc;
  init_outputs = λ q o m. elim m [ ];
  support2 = λ q p m. both_inputs p m;
  support1 = λ o j m. both_inputs j m;
  few = λ q. omega arith;
  sort_keeps = λ less xs x m. (In-stable_sort less x xs).0 m;
  sort_length = λ less xs. length-stable_sort less xs;
}

new_boolean_match-Ends_example :
    (P : Problem) × (prepare sample_setup ≡ ok P)
    × (r : Bool × Search) × (new_boolean_match sample_setup ≡ ok r)
    × Ends P initial_core r
new_boolean_match-Ends_example = new_boolean_match-Ends sample_setup sample_setup-IsSetup

gen_input_match-InOrder_example :
    ((j : ℕ)
      → sample_setup.init_on ≡ true
      → sample_setup.init_input 1 ≡ some j
      → gen_input_match sample_setup 1 ≡ ok (port j ∷ []))
    × ((sample_setup.init_on ≡ false) ⊎ (sample_setup.init_input 1 ≡ none)
        → (size2 : ℕ) × (js : List ℕ) × (size_at sample_setup.c2.buses (sample_setup.c2.input_bus 1)
            ≡ ok size2)
          × (gen_input_match sample_setup 1 ≡ ok (with_constant js))
          × ((j : ℕ) → In j js ↔ (j < 2) × MayMatch sample_setup size2 1 j)
          × InOrder sample_setup size2 1 js)
gen_input_match-InOrder_example =
    gen_input_match-InOrder sample_setup sample_setup-IsSetup 1 (omega arith)

-- Input 1 of circuit 2 tries input 1 of circuit 1 first, whose signature is the same.
input_ports_test : input_ports sample_setup 1 1 ≡ ok (1 ∷ 0 ∷ [])
unfolding input_ports assign_inputs
input_ports_test = refl

-- Circuit 1 with three more buses, in one of which the output 1 is.
abbrev wide_setup : Setup
wide_setup = record sample_setup {
  c1 = record sample_circuit {
    po_size = 2;
    buses =
        inputs (0 ∷ [])
        ∷ inputs (1 ∷ [])
        ∷ inputs []
        ∷ inputs []
        ∷ outputs (0 ∷ [])
        ∷ outputs (1 ∷ [])
        ∷ [];
    output_bus = λ o. 4 + o;
  };
}

sort_outputs-undefined_example : sort_outputs wide_setup 1 (0 ∷ 1 ∷ []) ≡ undefined
sort_outputs-undefined_example =
    sort_outputs-undefined wide_setup 1 (0 ∷ 1 ∷ []) 1 (omega arith) (inr (inl refl)) (omega arith)

gen_pi_in_po_iff_example :
    (gen_pi_in_po sample_circuit 0 1 ≡ true) ↔ In 1 (sample_circuit.output_support 0)
gen_pi_in_po_iff_example = gen_pi_in_po_iff sample_circuit 0 1

assign_output_to_input_bus_lem_example :
    ((b : ℕ)
      → In b (assign_output_to_input_bus sample_circuit sample_circuit.output_support 0)
        ↔ IsBusOf sample_circuit (0 ∷ 1 ∷ []) b)
    × Pairwise
        (λ x y. x < y)
        (assign_output_to_input_bus sample_circuit sample_circuit.output_support 0)
assign_output_to_input_bus_lem_example =
    assign_output_to_input_bus_lem sample_circuit sample_circuit.output_support 0

assign_func_supp_lem_example :
    (HasInput 0 sample_circuit.buses
      → input_val sample_circuit 0 ≡ length (sample_circuit.input_support 0))
    × (HasOutput 0 sample_circuit.buses
        → output_val sample_circuit 0 ≡ length (sample_circuit.output_support 0))
assign_func_supp_lem_example = assign_func_supp_lem sample_circuit 0
