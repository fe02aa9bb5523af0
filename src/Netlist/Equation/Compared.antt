-- ===== src/Netlist/Equation/Compared.antt =====
-- src/Netlist.h: the comparisons of an `Operation`.
use multi_bit_large_scale_bo.Base.{
  false_not_true, ◌≡◌, ◌↔◌, refl, sym, ap, ◌∙◌, inl, inr, List, [], ◌∷◌, true, false, Bool-cases,
}
use multi_bit_large_scale_bo.Base.Int.{ℤ}
use multi_bit_large_scale_bo.Netlist.Equation.{
  Term, Operation, same_ℤ, members_differ, term_differs, compare_inputs, compare_input, is_equal,
}
use multi_bit_large_scale_bo.Netlist.Equation.Inserted.{same_ℤ_iff}

members_differ_iff : (xs ys : List ℤ) → members_differ xs ys ≡ false ↔ xs ≡ ys
unfolding members_differ
members_differ_iff [] [] = (λ e. refl, λ e. refl)
members_differ_iff [] (y ∷ ys) = (λ e. cc, λ e. cc)
members_differ_iff (x ∷ xs) [] = (λ e. cc, λ e. cc)
members_differ_iff (x ∷ xs) (y ∷ ys) = elim (Bool-cases (same_ℤ x y)) [
  | inl same ↦ rw same (
    λ e. λ i. (same_ℤ_iff x y).0 same i ∷ (members_differ_iff xs ys).0 e i,
    λ e. (members_differ_iff xs ys).1 (tails e),
  )
  | inr other ↦
      rw other (λ e. cc, λ e. absurd (false_not_true (sym other ∙ (same_ℤ_iff x y).1 (heads e))))
]
  where
    heads : x ∷ xs ≡ y ∷ ys → x ≡ y
    heads e = cc

    tails : x ∷ xs ≡ y ∷ ys → xs ≡ ys
    tails e = cc

term_differs_iff : (a b : Term) → term_differs a b ≡ false ↔ a ≡ b
unfolding term_differs
term_differs_iff a b = elim (Bool-cases (members_differ a.member b.member)) [
  | inl other ↦ rw other (
    λ e. cc,
    λ e. absurd (
        false_not_true
          (sym ((members_differ_iff a.member b.member).1 (ap (λ (t : Term). t.member) e)) ∙ other)),
  )
  | inr same ↦ elim (Bool-cases (same_ℤ a.coeff b.coeff)) [
    | inl s ↦
        rw (same, s)
          (
            λ _ i. record {
              member = (members_differ_iff a.member b.member).0 same i;
              coeff = (same_ℤ_iff a.coeff b.coeff).0 s i;
            },
            λ _. refl,
          )
    | inr s ↦
        rw (same, s)
          (
            λ e. cc,
            λ e. absurd (
                false_not_true
                  (sym s ∙ (same_ℤ_iff a.coeff b.coeff).1 (ap (λ (t : Term). t.coeff) e))),
          )
  ]
]

compare_inputs_iff : (xs ys : List Term) → compare_inputs xs ys ≡ true ↔ xs ≡ ys
unfolding compare_inputs
compare_inputs_iff [] [] = (λ e. refl, λ e. refl)
compare_inputs_iff [] (y ∷ ys) = (λ e. cc, λ e. cc)
compare_inputs_iff (x ∷ xs) [] = (λ e. cc, λ e. cc)
compare_inputs_iff (x ∷ xs) (y ∷ ys) = elim (Bool-cases (term_differs x y)) [
  | inl other ↦
      rw other
        (λ e. cc, λ e. absurd (false_not_true (sym ((term_differs_iff x y).1 (heads e)) ∙ other)))
  | inr same ↦ rw same (
    λ e. λ i. (term_differs_iff x y).0 same i ∷ (compare_inputs_iff xs ys).0 e i,
    λ e. (compare_inputs_iff xs ys).1 (tails e),
  )
]
  where
    heads : x ∷ xs ≡ y ∷ ys → x ≡ y
    heads e = cc

    tails : x ∷ xs ≡ y ∷ ys → xs ≡ ys
    tails e = cc

-- `CompareInput` holds exactly if the terms are the same in the same order, and `==` exactly if the constants are the same, too.
pub is_equal_iff :
    (a b : Operation)
    → (compare_input a b ≡ true ↔ a.real_input ≡ b.real_input)
      × (is_equal a b ≡ true ↔ (a.real_input ≡ b.real_input) × (a.const ≡ b.const))
unfolding is_equal compare_input
is_equal_iff a b = (
  compare_inputs_iff a.real_input b.real_input,
  elim (Bool-cases (compare_inputs a.real_input b.real_input)) [
    | inl same ↦ rw same (
      λ e.
          ((compare_inputs_iff a.real_input b.real_input).0 same, (same_ℤ_iff a.const b.const).0 e),
      λ (_, e). (same_ℤ_iff a.const b.const).1 e,
    )
    | inr other ↦ rw other (
      λ e. cc,
      λ (e, _).
          absurd (false_not_true (sym other ∙ (compare_inputs_iff a.real_input b.real_input).1 e)),
    )
  ],
)
