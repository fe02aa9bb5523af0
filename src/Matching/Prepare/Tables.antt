-- ===== src/Matching/Prepare/Tables.antt =====
-- src/Matching.cpp: what `assignFuncSupp`, `genPIinPO` and `assign_output_to_inputBus` have filled in.
use multi_bit_large_scale_bo.Base.{
  subst, ℕ, ◌<◌, ◌≡◌, ◌↔◌, refl, ◌∙◌, ◌⊎◌, inl, inr, arith, List, [], ◌∷◌, Bool, true, false,
  length, ltb, lt→ltb, ltb→lt, In, In-or_not,
}
use multi_bit_large_scale_bo.Base.Sets.{set_insert_all, IsOrdered, IsLinear, set_insert_all_lem}
use multi_bit_large_scale_bo.Matching.State.{update}
use multi_bit_large_scale_bo.Matching.Prepare.{
  Bus, inputs, outputs, Circuit, insert_buses, input_buses, assign_output_to_input_bus, mark,
  gen_pi_in_po, set_supports, assign_inputs, assign_outputs, input_val, output_val,
}
use multi_bit_large_scale_bo.Matching.Prepare.Sort.{Pairwise}

mark_iff :
    (js : List ℕ) (row : ℕ → Bool) (j : ℕ) → (mark js row j ≡ true) ↔ In j js ⊎ (row j ≡ true)
unfolding mark
mark_iff [] row j = ground arith
mark_iff (k ∷ ks) row j = ground (arith, mark_iff ks (update row k true) j)

-- After `genPIinPO`, `isPIinPO[o][j]` is true exactly when input `j` is in the support of output `o`.
pub gen_pi_in_po_iff :
    (c : Circuit) (o j : ℕ) → (gen_pi_in_po c o j ≡ true) ↔ In j (c.output_support o)
gen_pi_in_po_iff c o j = ground (arith, mark_iff (c.output_support o) (λ k. false) j)

ltb-IsLinear : IsLinear ltb
ltb-IsLinear = record { connected = λ a b. ground arith; transitive = λ a b c. ground arith }

IsOrdered-Pairwise : (xs : List ℕ) → IsOrdered ltb xs → Pairwise (λ x y. x < y) xs
IsOrdered-Pairwise [] p = tt
IsOrdered-Pairwise (x ∷ xs) (first, rest) =
    (λ y m. ltb→lt x y (first y m), IsOrdered-Pairwise xs rest)

Pairwise-IsOrdered : (xs : List ℕ) → Pairwise (λ x y. x < y) xs → IsOrdered ltb xs
Pairwise-IsOrdered [] p = tt
Pairwise-IsOrdered (x ∷ xs) (first, rest) =
    (λ y m. lt→ltb x y (first y m), Pairwise-IsOrdered xs rest)

insert_buses_lem :
    (bs xs : List ℕ)
    → Pairwise (λ x y. x < y) xs
    → ((x : ℕ) → In x (insert_buses bs xs) ↔ In x bs ⊎ In x xs)
      × Pairwise (λ x y. x < y) (insert_buses bs xs)
unfolding insert_buses
insert_buses_lem bs xs p =
    let (keeps, q) = set_insert_all_lem ltb ltb-IsLinear bs xs (Pairwise-IsOrdered xs p) in
    (keeps, IsOrdered-Pairwise (set_insert_all ltb bs xs) q)

-- A bus of an input in a list.
abbrev pub IsBusOf : Circuit → List ℕ → ℕ → Type 0
IsBusOf c ps b = (p : ℕ) × In p ps × In b (c.bus_indices p)

input_buses_lem :
    (c : Circuit) (ps xs : List ℕ)
    → Pairwise (λ x y. x < y) xs
    → ((b : ℕ) → In b (input_buses c ps xs) ↔ IsBusOf c ps b ⊎ In b xs)
      × Pairwise (λ x y. x < y) (input_buses c ps xs)
unfolding input_buses
input_buses_lem c [] xs p =
    (λ b. (λ m. inr m, λ m. elim m [ inl (q, n, k) ↦ absurd n | inr k ↦ k ]), p)
input_buses_lem c (q ∷ qs) xs p =
    let (inner, r) = insert_buses_lem (c.bus_indices q) xs p in
    let (keeps, t) = input_buses_lem c qs (insert_buses (c.bus_indices q) xs) r in
    (
      λ b. (
        λ m. elim ((keeps b).0 m) [
          | inl (k, n, l) ↦ inl (k, inr n, l)
          | inr n ↦ elim ((inner b).0 n) [ inl l ↦ inl (q, inl refl, l) | inr l ↦ inr l ]
        ],
        λ m. elim m [
          | inl (k, inl e, l) ↦ (keeps b).1 (inr ((inner b).1 (inl (at k b e l))))
          | inl (k, inr n, l) ↦ (keeps b).1 (inl (k, n, l))
          | inr l ↦ (keeps b).1 (inr ((inner b).1 (inr l)))
        ],
      ),
      t,
    )
  where
    at : (k b : ℕ) → k ≡ q → In b (c.bus_indices k) → In b (c.bus_indices q)
    at k b e l = subst (λ (i : ℕ). In b (c.bus_indices i)) e l

-- After `assign_output_to_inputBus`, the set of output `q` has the buses of the inputs in its support, in order and
-- each once.
pub assign_output_to_input_bus_lem :
    (c : Circuit) (support : ℕ → List ℕ) (q : ℕ)
    → ((b : ℕ) → In b (assign_output_to_input_bus c support q) ↔ IsBusOf c (support q) b)
      × Pairwise (λ x y. x < y) (assign_output_to_input_bus c support q)
assign_output_to_input_bus_lem c support q =
    let (keeps, p) = input_buses_lem c (support q) [] tt in
    (λ b. (λ m. elim ((keeps b).0 m) [ inl k ↦ k | inr n ↦ absurd n ], λ m. (keeps b).1 (inl m)), p)

set_supports_lem :
    (size : ℕ → ℕ) (ps : List ℕ) (v : ℕ → ℕ) (p : ℕ)
    → (In p ps → set_supports size ps v p ≡ size p)
      × ((In p ps → ⊥) → set_supports size ps v p ≡ v p)
unfolding set_supports
set_supports_lem size [] v p = (λ m. absurd m, λ n. refl)
set_supports_lem size (q ∷ qs) v p =
    ground (arith, In-or_not p qs, set_supports_lem size qs (update v q (size q)) p)

-- A bus of inputs, or of outputs, with a port.
abbrev pub HasInput : ℕ → List Bus → Type 0
HasInput p [] = ⊥
HasInput p (inputs ps ∷ bs) = In p ps ⊎ HasInput p bs
HasInput p (outputs ps ∷ bs) = HasInput p bs

abbrev pub HasOutput : ℕ → List Bus → Type 0
HasOutput p [] = ⊥
HasOutput p (inputs ps ∷ bs) = HasOutput p bs
HasOutput p (outputs ps ∷ bs) = In p ps ⊎ HasOutput p bs

-- A port that was set or is in the bus is set after it.
set_supports_set :
    (size : ℕ → ℕ) (ps : List ℕ) (v : ℕ → ℕ) (p : ℕ)
    → In p ps ⊎ (v p ≡ size p)
    → set_supports size ps v p ≡ size p
set_supports_set size ps v p (inl m) = (set_supports_lem size ps v p).0 m
set_supports_set size ps v p (inr e) = elim (In-or_not p ps) [
  | inl m ↦ (set_supports_lem size ps v p).0 m
  | inr n ↦ (set_supports_lem size ps v p).1 n ∙ e
]

assign_inputs_lem :
    (c : Circuit) (bs : List Bus) (v : ℕ → ℕ) (p : ℕ)
    → HasInput p bs ⊎ (v p ≡ length (c.input_support p))
    → assign_inputs c bs v p ≡ length (c.input_support p)
unfolding assign_inputs
assign_inputs_lem c [] v p (inl m) = absurd m
assign_inputs_lem c [] v p (inr e) = e
assign_inputs_lem c (inputs ps ∷ bs) v p h =
    assign_inputs_lem c bs (set_supports (λ x. length (c.input_support x)) ps v) p (pass h)
  where
    pass :
        (In p ps ⊎ HasInput p bs) ⊎ (v p ≡ length (c.input_support p))
        → HasInput p bs
          ⊎ (set_supports (λ x. length (c.input_support x)) ps v p ≡ length (c.input_support p))
    pass (inl (inl m)) = inr (set_supports_set (λ x. length (c.input_support x)) ps v p (inl m))
    pass (inl (inr m)) = inl m
    pass (inr e) = inr (set_supports_set (λ x. length (c.input_support x)) ps v p (inr e))
assign_inputs_lem c (outputs ps ∷ bs) v p h = assign_inputs_lem c bs v p h

assign_outputs_lem :
    (c : Circuit) (bs : List Bus) (v : ℕ → ℕ) (p : ℕ)
    → HasOutput p bs ⊎ (v p ≡ length (c.output_support p))
    → assign_outputs c bs v p ≡ length (c.output_support p)
unfolding assign_outputs
assign_outputs_lem c [] v p (inl m) = absurd m
assign_outputs_lem c [] v p (inr e) = e
assign_outputs_lem c (inputs ps ∷ bs) v p h = assign_outputs_lem c bs v p h
assign_outputs_lem c (outputs ps ∷ bs) v p h =
    assign_outputs_lem c bs (set_supports (λ x. length (c.output_support x)) ps v) p (pass h)
  where
    pass :
        (In p ps ⊎ HasOutput p bs) ⊎ (v p ≡ length (c.output_support p))
        → HasOutput p bs
          ⊎ (set_supports (λ x. length (c.output_support x)) ps v p ≡ length (c.output_support p))
    pass (inl (inl m)) = inr (set_supports_set (λ x. length (c.output_support x)) ps v p (inl m))
    pass (inl (inr m)) = inl m
    pass (inr e) = inr (set_supports_set (λ x. length (c.output_support x)) ps v p (inr e))

-- After `assignFuncSupp`, whatever `_supportVal` held before, a port that is in a bus has the size of its support there, on
-- the side of the inputs and on that of the outputs.
pub assign_func_supp_lem :
    (c : Circuit) (p : ℕ)
    → (HasInput p c.buses → input_val c p ≡ length (c.input_support p))
      × (HasOutput p c.buses → output_val c p ≡ length (c.output_support p))
assign_func_supp_lem c p = (
  λ m. assign_inputs_lem c c.buses c.unset p (inl m),
  λ m. assign_outputs_lem c c.buses c.unset p (inl m),
)
