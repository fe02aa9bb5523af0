-- ===== src/Tests/Equation.antt =====
-- An equation of one term, and a second term with the members and another coefficient.
use multi_bit_large_scale_bo.Base.{◌≡◌, ◌↔◌, refl, [], ◌∷◌, ◌++◌, true, false, In}
use multi_bit_large_scale_bo.Base.Int.{pos}
use multi_bit_large_scale_bo.Netlist.Equation.{
  Term, Operation, new_operation, insert_term, compare_input, is_equal, is_zero,
}
use multi_bit_large_scale_bo.Netlist.Equation.Inserted.{IsFilled, insert_term_lem}
use multi_bit_large_scale_bo.Netlist.Equation.Compared.{is_equal_iff}

abbrev no_terms : Operation
no_terms = new_operation (5 ∷ [])

no_terms-IsFilled : IsFilled no_terms
unfolding new_operation
no_terms-IsFilled = record { listed = λ t. (λ m. m, λ m. m); distinct = λ t u m n e. absurd m }

abbrev one_term : Operation
one_term = insert_term (λ xs. xs) (pos 1 ∷ pos 3 ∷ []) (pos 1) no_terms

insert_term_lem_example :
    IsFilled (insert_term (λ xs. xs) (pos 1 ∷ pos 3 ∷ []) (pos 2) one_term)
    × ((u : Term) × In u one_term.real_input × (u.member ≡ pos 1 ∷ pos 3 ∷ [])
        → insert_term (λ xs. xs) (pos 1 ∷ pos 3 ∷ []) (pos 2) one_term ≡ one_term)
    × (((u : Term) × In u one_term.real_input × (u.member ≡ pos 1 ∷ pos 3 ∷ []) → ⊥)
        → (insert_term (λ xs. xs) (pos 1 ∷ pos 3 ∷ []) (pos 2) one_term).real_input
          ≡ one_term.real_input ++ record { member = pos 1 ∷ pos 3 ∷ []; coeff = pos 2 } ∷ [])
    × ((insert_term (λ xs. xs) (pos 1 ∷ pos 3 ∷ []) (pos 2) one_term).output ≡ one_term.output)
    × ((insert_term (λ xs. xs) (pos 1 ∷ pos 3 ∷ []) (pos 2) one_term).const ≡ one_term.const)
insert_term_lem_example =
    insert_term_lem (λ xs. xs) (pos 1 ∷ pos 3 ∷ []) (pos 2) one_term
      (insert_term_lem (λ xs. xs) (pos 1 ∷ pos 3 ∷ []) (pos 1) no_terms no_terms-IsFilled).0

-- The second term is dropped, and the equation is no zero.
insert_term_test :
    (insert_term (λ xs. xs) (pos 1 ∷ pos 3 ∷ []) (pos 2) one_term ≡ one_term)
    × (is_zero one_term ≡ false)
unfolding insert_term new_operation is_zero
insert_term_test = (refl, refl)

is_equal_iff_example :
    (compare_input one_term no_terms ≡ true ↔ one_term.real_input ≡ no_terms.real_input)
    × (is_equal one_term no_terms ≡ true
        ↔ (one_term.real_input ≡ no_terms.real_input) × (one_term.const ≡ no_terms.const))
is_equal_iff_example = is_equal_iff one_term no_terms
