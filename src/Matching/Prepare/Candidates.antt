-- ===== src/Matching/Prepare/Candidates.antt =====
-- src/Matching.cpp: the candidates that `genInputMatch` lists.
use multi_bit_large_scale_bo.Base.{
  ◌∙◌, ◌⊎◌, some, none, ◌≤◌, ◌-◌, ◌&&◌, ◌||◌, not, if◌then◌else◌, ℕ, ◌<◌, ◌≡◌, ◌↔◌, refl, sym, ap,
  subst, inl, inr, arith, Bool-cases, Option-cases, List, [], ◌∷◌, Bool, true, false, length, ltb,
  ◌==◌, In, Run, ok,
}
use multi_bit_large_scale_bo.Matching.State.{Candidate, constant, port}
use multi_bit_large_scale_bo.Matching.Prepare.{
  Setup, stable_sort, upto, size_at, value_or, by_key, by_key_down, input_val, ltb_ℤ,
}
use multi_bit_large_scale_bo.Matching.Prepare.Generate.{
  input_sizes_fit, input_supports_fit, input_fits, sort_inputs, sig_difference, support_difference,
  input_ports, with_constant, gen_input_match, gen_info1, input_size_eq, output_size_eq, input_diff,
}
use multi_bit_large_scale_bo.Matching.Prepare.Sort.{
  Pairwise, Then, by_key-IsOrder, stable_sort-Pairwise, short-Pairwise, upto-Pairwise,
  In-stable_sort, In-upto,
}
use multi_bit_large_scale_bo.Matching.Prepare.Loops.{
  Returns, size_at_lem, filter_run_lem, sort_run_lem,
}
use multi_bit_large_scale_bo.Matching.Prepare.Given.{IsSetup}
use multi_bit_large_scale_bo.Base.Int.{pos}

abbrev holds : Run Bool → Bool
holds (ok b) = b
holds r = false

abbrev index : Candidate → ℕ
index constant = 0
index (port k) = k

In-with_constant : (j : ℕ) (js : List ℕ) → In (port j) (with_constant js) → In j js
In-with_constant j [] m = elim m [ inl e ↦ cc | inr nil ↦ absurd nil ]
In-with_constant j (x ∷ xs) m = elim m [
  | inl e ↦ inl (ap index e)
  | inr later ↦ inr (In-with_constant j xs later)
]

module _ (s : Setup) where
  -- In order by the differences of the supports, of the signatures and of the sizes of the buses, and then by index.
  abbrev pub InOrder : ℕ → ℕ → List ℕ → Type 0
  InOrder size2 p = Pairwise (
      Then (by_key (support_difference s p)) (
        Then (by_key (sig_difference s p)) (
          Then (by_key (λ j. s.abs_diff size2 (value_or (size_at s.c1.buses (s.c1.input_bus j)))))
            (λ i j. i < j))))

  -- The size of the bus of an input of circuit 1.
  abbrev pub size1_of : ℕ → ℕ
  size1_of j = value_or (size_at s.c1.buses (s.c1.input_bus j))

  -- Input `j` of circuit 1 may be matched with input `p` of circuit 2, which is in one bus, of `size2` ports. With as many inputs in the
  -- circuits, the buses are as large as each other. Else that of `j` is not larger, nor smaller by more than the difference of the
  -- numbers of inputs, the place of `j` in its bus is not above that of `p`, and a bus that is matched by size admits the sizes. With as
  -- many inputs and as many outputs, the supports are as large as each other.
  abbrev pub MayMatch : ℕ → ℕ → ℕ → Type 0
  MayMatch size2 p j =
      (input_size_eq s ≡ true → size2 ≡ size1_of j)
      × (input_size_eq s ≡ false
          → (size1_of j ≤ size2)
            × (ltb_ℤ (input_diff s) (pos (size2 - size1_of j)) ≡ false)
            × (ltb_ℤ (s.c2.input_bit p) (s.c1.input_bit j) ≡ false)
            × (s.c2.input_bus p < s.bus_size → s.bus_match size2 (size1_of j) ≡ true))
      × (output_size_eq s ≡ true → input_size_eq s ≡ true → input_val s.c2 p ≡ input_val s.c1 j)

-- The tests of the code on the values that they read.
tests_iff :
    (eq oeq far low matched : Bool) (size2 size1 bus bound v2 v1 : ℕ)
    → ((if eq
            then size2 == size1
            else not (ltb size2 size1 || far || low) && (not (ltb bus bound) || matched))
          && not (oeq && eq && not (v2 == v1)))
        ≡ true
      ↔ (eq ≡ true → size2 ≡ size1)
        × (eq ≡ false
            → (size1 ≤ size2) × (far ≡ false) × (low ≡ false) × (bus < bound → matched ≡ true))
        × (oeq ≡ true → eq ≡ true → v2 ≡ v1)
tests_iff true true far low matched size2 size1 bus bound v2 v1 = ground arith
tests_iff true false far low matched size2 size1 bus bound v2 v1 = ground arith
tests_iff false oeq true low matched size2 size1 bus bound v2 v1 = ground arith
tests_iff false oeq false true matched size2 size1 bus bound v2 v1 = ground arith
tests_iff false oeq false false matched size2 size1 bus bound v2 v1 = ground arith

module _ (s : Setup) (setup : IsSetup s) where
  two_sorts :
      (size2 p : ℕ) (js : List ℕ)
      → Pairwise
          (Then
            (by_key (λ j. s.abs_diff size2 (value_or (size_at s.c1.buses (s.c1.input_bus j)))))
            (λ i j. i < j))
          js
      → InOrder s size2 p (
          stable_sort
            (by_key (support_difference s p))
            (stable_sort (by_key (sig_difference s p)) js))
  two_sorts size2 p js ordered =
      stable_sort-Pairwise _ (by_key-IsOrder (support_difference s p)) _
        (stable_sort (by_key (sig_difference s p)) js)
        (stable_sort-Pairwise _ (by_key-IsOrder (sig_difference s p)) _ js ordered)

  pub sort_inputs_lem :
      (size2 p : ℕ) (js : List ℕ)
      → ((j : ℕ) → In j js → j < s.c1.pi_size)
      → (js' : List ℕ) × (sort_inputs s size2 p js ≡ ok js')
        × ((j : ℕ) → In j js' ↔ In j js)
        × (Pairwise (λ i j. i < j) js → InOrder s size2 p js')
  unfolding sort_inputs
  sort_inputs_lem size2 p js bound =
      let key : ℕ → Run ℕ = λ j. size_at s.c1.buses (s.c1.input_bus j) in
      let less : ℕ → ℕ → Bool = by_key (λ x. s.abs_diff size2 (value_or (key x))) in
      let sig : ℕ → ℕ → Bool = by_key (sig_difference s p) in
      let supp : ℕ → ℕ → Bool = by_key (support_difference s p) in
      elim (sort_run_lem (λ size. stable_sort (by_key (λ j. s.abs_diff size2 (size j)))) key js
        (λ j m. size_at_lem s.c1.buses (s.c1.input_bus j) (setup.input_bus1 j (bound j m)))) [
          | inl (e, short) ↦ (
            stable_sort supp (stable_sort sig js),
            rw (sort_inputs, e) refl,
            λ j.
                ground (arith, In-stable_sort supp j (stable_sort sig js), In-stable_sort sig j js),
            λ ordered. two_sorts size2 p js (short-Pairwise _ js short),
          )
          | inr e ↦ (
            stable_sort supp (stable_sort sig (stable_sort less js)),
            rw (sort_inputs, e) refl,
            λ j. ground (
              arith,
              In-stable_sort supp j (stable_sort sig (stable_sort less js)),
              In-stable_sort sig j (stable_sort less js),
              In-stable_sort less j js,
            ),
            λ ordered.
                two_sorts size2 p (stable_sort less js)
                  (stable_sort-Pairwise less (by_key-IsOrder _) (λ i j. i < j) js ordered),
          )
        ]

  input_sizes_fit_lem : (size2 p j size1 : ℕ) → Returns (input_sizes_fit s size2 p j size1)
  unfolding input_sizes_fit
  input_sizes_fit_lem size2 p j size1 = elim (Bool-cases (input_size_eq s)) [
    | inl same ↦ (size2 == size1, rw same refl)
    | inr other ↦ rw (other, one (s.c2.bus_indices p) (setup.single p)) (_, refl)
  ]
    where
      one : (bs : List ℕ) → length bs < 2 → ltb 1 (length bs) ≡ false
      one bs h = ground arith

  pub input_fits_lem : (size2 p j : ℕ) → j < s.c1.pi_size → Returns (input_fits s size2 p j)
  unfolding input_fits
  input_fits_lem size2 p j less =
      let (size1, e) = size_at_lem s.c1.buses (s.c1.input_bus j) (setup.input_bus1 j less) in
      let (pass, f) = input_sizes_fit_lem size2 p j size1 in
      (input_supports_fit s p j pass, rw (input_fits, e, f) refl)

  -- The candidates of an input, before the constant: those that pass the tests.
  pub input_ports-InOrder :
      (size2 p : ℕ)
      → (js : List ℕ) × (input_ports s size2 p ≡ ok js)
        × ((j : ℕ) → In j js ↔ (j < s.c1.pi_size) × (input_fits s size2 p j ≡ ok true))
        × InOrder s size2 p js
  unfolding input_ports
  input_ports-InOrder size2 p =
      let (js, e, keeps, ordered) =
        filter_run_lem (input_fits s size2 p) (upto s.c1.pi_size)
          (λ j m. input_fits_lem size2 p j ((In-upto s.c1.pi_size j).0 m)) in
      let (js', f, same, sorted) =
        sort_inputs_lem size2 p js (λ j m. (In-upto s.c1.pi_size j).0 ((keeps j).0 m).0) in
      (
        js',
        rw (input_ports, e, f) refl,
        λ j. (
          λ m. (
            (In-upto s.c1.pi_size j).0 ((keeps j).0 ((same j).0 m)).0,
            ((keeps j).0 ((same j).0 m)).1,
          ),
          λ (less, fits). (same j).1 ((keeps j).1 ((In-upto s.c1.pi_size j).1 less, fits)),
        ),
        sorted (ordered (upto-Pairwise s.c1.pi_size)),
      )

  -- The tests of the code, for an input in one bus.
  input_fits_run :
      (size2 p j size1 : ℕ)
      → size_at s.c1.buses (s.c1.input_bus j) ≡ ok size1
      → input_fits s size2 p j
        ≡ ok (
            (if input_size_eq s
              then size2 == size1
              else not (
                  ltb size2 size1
                  || ltb_ℤ (input_diff s) (pos (size2 - size1))
                  || ltb_ℤ (s.c2.input_bit p) (s.c1.input_bit j))
                && (not (ltb (s.c2.input_bus p) s.bus_size) || s.bus_match size2 size1))
            && not
                (output_size_eq s && input_size_eq s && not (input_val s.c2 p == input_val s.c1 j)))
  unfolding input_fits input_sizes_fit
  input_fits_run size2 p j size1 e = elim (Bool-cases (input_size_eq s)) [
    | inl same ↦ rw (input_fits, e, input_sizes_fit, same) refl
    | inr other ↦
        rw (input_fits, e, input_sizes_fit, other, one (s.c2.bus_indices p) (setup.single p)) refl
  ]
    where
      one : (bs : List ℕ) → length bs < 2 → ltb 1 (length bs) ≡ false
      one bs h = ground arith

  input_fits_iff :
      (size2 p j : ℕ) → j < s.c1.pi_size → input_fits s size2 p j ≡ ok true ↔ MayMatch s size2 p j
  input_fits_iff size2 p j less =
      let (size1, e) = size_at_lem s.c1.buses (s.c1.input_bus j) (setup.input_bus1 j less) in
      let run =
        input_fits_run size2 p j (size1_of s j)
          (e ∙ sym (ap (λ k. ok k) (ap (λ r. value_or r) e))) in
      let tests =
        tests_iff (input_size_eq s) (output_size_eq s)
          (ltb_ℤ (input_diff s) (pos (size2 - size1_of s j)))
          (ltb_ℤ (s.c2.input_bit p) (s.c1.input_bit j)) (s.bus_match size2 (size1_of s j)) size2
          (size1_of s j) (s.c2.input_bus p) s.bus_size (input_val s.c2 p) (input_val s.c1 j) in
      (λ f. tests.0 (ap (λ r. holds r) (sym run ∙ f)), λ m. run ∙ ap (λ b. ok b) (tests.1 m))

  -- For two circuits where: the comparison answers 0, 1 or 2 whenever the locks are in range; the buses of
  -- ports, the supports and the initial matches lead into the circuits, and the buses of the outputs of
  -- circuit 1 also into those of circuit 2; no input of circuit 2 is in two buses; no bus has both inputs
  -- and outputs; the exception of `case_08` is off; the supports of circuit 2 have fewer than 2 ^ 31
  -- inputs; and `std::sort` adds no element and keeps the length. For an input of circuit 2 with an initial
  -- match, `genInputMatch` lists that alone. For one without, it lists exactly the inputs of circuit 1 that
  -- may be matched with it by supports, buses and sizes of buses, in order by the differences of the
  -- supports, of the signatures and of the sizes of the buses, and then by index, and the constant as the
  -- last.
  pub gen_input_match-InOrder :
      (p : ℕ)
      → p < s.c2.pi_size
      → ((j : ℕ)
          → s.init_on ≡ true
          → s.init_input p ≡ some j
          → gen_input_match s p ≡ ok (port j ∷ []))
        × ((s.init_on ≡ false) ⊎ (s.init_input p ≡ none)
            → (size2 : ℕ) × (js : List ℕ) × (size_at s.c2.buses (s.c2.input_bus p) ≡ ok size2)
              × (gen_input_match s p ≡ ok (with_constant js))
              × ((j : ℕ) → In j js ↔ (j < s.c1.pi_size) × MayMatch s size2 p j)
              × InOrder s size2 p js)
  unfolding gen_input_match
  gen_input_match-InOrder p less =
      let (size2, e) = size_at_lem s.c2.buses (s.c2.input_bus p) (setup.input_bus2 p less) in
      let (js, f, keeps, ordered) = input_ports-InOrder size2 p in
      let tests : (j : ℕ) → In j js ↔ (j < s.c1.pi_size) × MayMatch s size2 p j = λ j. (
        λ m. (((keeps j).0 m).0, (input_fits_iff size2 p j ((keeps j).0 m).0).0 ((keeps j).0 m).1),
        λ (k, m). (keeps j).1 (k, (input_fits_iff size2 p j k).1 m),
      ) in
      (
        λ j on some_. rw (gen_input_match, e, on, some_) refl,
        λ none_. (size2, js, e, unmatched size2 js e f none_, tests, ordered),
      )
    where
      unmatched :
          (size2 : ℕ) (js : List ℕ)
          → size_at s.c2.buses (s.c2.input_bus p) ≡ ok size2
          → input_ports s size2 p ≡ ok js
          → (s.init_on ≡ false) ⊎ (s.init_input p ≡ none)
          → gen_input_match s p ≡ ok (with_constant js)
      unmatched size2 js e f (inl off) = rw (gen_input_match, e, off, f) refl
      unmatched size2 js e f (inr none_) = elim (Bool-cases s.init_on) [
        | inl on ↦ rw (gen_input_match, e, on, none_, f) refl
        | inr off ↦ rw (gen_input_match, e, off, f) refl
      ]

  pub gen_input_match_lem :
      (p : ℕ)
      → p < s.c2.pi_size
      → (cs : List Candidate) × (gen_input_match s p ≡ ok cs)
        × ((j : ℕ) → In (port j) cs → j < s.c1.pi_size)
  unfolding gen_input_match
  gen_input_match_lem p less =
      let (size2, e) = size_at_lem s.c2.buses (s.c2.input_bus p) (setup.input_bus2 p less) in
      let (js, f, keeps, _) = input_ports-InOrder size2 p in
      let bound : (j : ℕ) → In (port j) (with_constant js) → j < s.c1.pi_size =
        λ j m. ((keeps j).0 (In-with_constant j js m)).0 in
      elim (Bool-cases s.init_on) [
        | inr off ↦ (with_constant js, rw (gen_input_match, e, off, f) refl, bound)
        | inl on ↦ elim (Option-cases (s.init_input p)) [
          | inl none_ ↦ (with_constant js, rw (gen_input_match, e, on, none_, f) refl, bound)
          | inr (j, some_) ↦ (
            port j ∷ [],
            rw (gen_input_match, e, on, some_) refl,
            λ k m. In-one j k m (setup.init_inputs p j some_),
          )
        ]
      ]
    where
      In-one : (j k : ℕ) → In (port k) (port j ∷ []) → j < s.c1.pi_size → k < s.c1.pi_size
      In-one j k m h = elim m [
        | inl e ↦ subst (λ (i : ℕ). i < s.c1.pi_size) (sym (ap index e)) h
        | inr nil ↦ absurd nil
      ]

  pub gen_info1_lem : (o : ℕ) → Returns (gen_info1 s o)
  unfolding gen_info1
  gen_info1_lem o =
      elim (sort_run_lem (λ size. s.std_sort (by_key_down size))
        (λ j. size_at s.c1.buses (s.c1.input_bus j)) (s.c1.output_support o)
        (λ j m.
          size_at_lem s.c1.buses (s.c1.input_bus j) (setup.input_bus1 j (setup.support1 o j m)))) [
            | inl (e, short) ↦ (_, e)
            | inr e ↦ (_, e)
          ]
