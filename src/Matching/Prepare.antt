-- ===== src/Matching/Prepare.antt =====
-- src/Matching.cpp: `assignFuncSupp`, `genPIinPO`, `genOutputMatch`, `genInputMatch`, `genInfo` and
-- `assign_output_to_inputBus`, which prepare what the search reads. Ports stand for their `_idx`.
pub mod Generate
pub mod Sort
pub mod Loops
pub mod Given
pub mod Outputs
pub mod Candidates
pub mod Sound
pub mod Tables
use multi_bit_large_scale_bo.Base.{
  ℕ, zero, suc, ◌+◌, ◌-◌, List, [], ◌∷◌, ◌++◌, map, Bool, true, false, not, ◌&&◌, ◌||◌, length,
  get_elem?, ltb, leb, ◌==◌, if◌then◌else◌, Option, none, some, Run, ok, undefined, ◌>>=◌,
}
use multi_bit_large_scale_bo.Base.Sets.{set_insert_all}
use multi_bit_large_scale_bo.Base.Int.{ℤ, pos, negsuc}
use multi_bit_large_scale_bo.Matching.State.{Candidate, constant, port, Compare, update}
use multi_bit_large_scale_bo.Matching.Next.{ltb_ℤ}

-- A bus of inputs, or of outputs.
pub data Bus : Type 0 where
  inputs : List ℕ → Bus
  outputs : List ℕ → Bus

abbrev pub ports : Bus → List ℕ
ports (inputs ps) = ps
ports (outputs ps) = ps

-- What is known of one circuit: `bus`, `output_support`, `input_support`, the indices of ports, and the
-- signatures of the inputs. `unset` is what `_supportVal` holds before it is set.
pub record Circuit : Type 0 where
  pub pi_size : ℕ
  pub po_size : ℕ
  pub buses : List Bus
  pub output_support : ℕ → List ℕ
  pub input_support : ℕ → List ℕ
  pub output_bus : ℕ → ℕ
  pub input_bus : ℕ → ℕ
  pub bus_indices : ℕ → List ℕ
  pub output_bit : ℕ → ℤ
  pub input_bit : ℕ → ℤ
  pub input_sig : ℕ → ℤ
  pub unset : ℕ → ℕ

-- The two circuits, and what `Match` holds when the preparation starts. `abs_diff`, `abs` of an `int` less a
-- `size_t`, and `std_sort`, a sort that may exchange equal elements, are the standard library's. `bus_match` is
-- `bus_match_idx`, from which `bus_size` buses are matched by size.
pub record Setup : Type 0 where
  pub c1 : Circuit
  pub c2 : Circuit
  pub compare : Compare
  pub init_on : Bool
  pub init_input : ℕ → Option ℕ
  pub init_output : ℕ → List ℕ
  pub init_input_ne : ℕ → Option Bool
  pub output_priority : ℕ → ℤ
  pub bus_size : ℕ
  pub bus_match : ℕ → ℕ → Bool
  pub case_08 : Bool
  pub name_n84 : ℕ → Bool
  pub abs_diff : ℕ → ℕ → ℕ
  pub std_sort : (ℕ → ℕ → Bool) → List ℕ → List ℕ

-- `std::stable_sort`.
unfoldable pub insert : (ℕ → ℕ → Bool) → ℕ → List ℕ → List ℕ
insert less x [] = x ∷ []
insert less x (y ∷ ys) = if less y x then y ∷ insert less x ys else x ∷ y ∷ ys

unfoldable pub stable_sort : (ℕ → ℕ → Bool) → List ℕ → List ℕ
unfolding insert
stable_sort less [] = []
stable_sort less (x ∷ xs) = insert less x (stable_sort less xs)

-- The ports of a type, in the order of `_gate[type]`.
abbrev pub upto : ℕ → List ℕ
upto zero = []
upto (suc n) = upto n ++ n ∷ []

-- `bus[c][b].size()`.
unfoldable pub size_at : List Bus → ℕ → Run ℕ
size_at bs b = elim (get_elem? bs b) [ none ↦ undefined | some x ↦ ok (length (ports x)) ]

abbrev pub value_or : Run ℕ → ℕ
value_or (ok n) = n
value_or r = 0

-- The loop that pushes the ports that pass a test.
unfoldable pub filter_run : (ℕ → Run Bool) → List ℕ → Run (List ℕ)
filter_run test [] = ok []
filter_run test (x ∷ xs) =
    let rest = filter_run test xs in
    test x >>= λ pass. rest >>= λ ys. ok (if pass then x ∷ ys else ys)

unfoldable pub read_all : (ℕ → Run ℕ) → List ℕ → Run (List ℕ)
read_all key [] = ok []
read_all key (x ∷ xs) = let rest = read_all key xs in key x >>= λ k. rest >>= λ ks. ok (k ∷ ks)

-- A sort whose comparisons read `key` of both ports: each of two or more ports is compared.
unfoldable pub sort_run : ((ℕ → ℕ) → List ℕ → List ℕ) → (ℕ → Run ℕ) → List ℕ → Run (List ℕ)
unfolding read_all
sort_run sorter key xs =
    if ltb (length xs) 2
    then ok xs
    else (read_all key xs >>= λ read. ok (sorter (λ x. value_or (key x)) xs))

-- The loop that fills the first `n` entries of a vector.
unfoldable pub fill_run : {A : Type 0} → (ℕ → Run (List A)) → ℕ → Run (ℕ → List A)
fill_run f zero = ok (λ i. [])
fill_run f (suc n) = fill_run f n >>= λ v. f n >>= λ x. ok (update v n x)

-- `abs(a - b)`, for `int`.
abbrev pub distance : ℤ → ℤ → ℕ
distance (pos a) (pos b) = a - b + (b - a)
distance (pos a) (negsuc b) = a + suc b
distance (negsuc a) (pos b) = suc a + b
distance (negsuc a) (negsuc b) = a - b + (b - a)

-- `x` comes before `y` by a key.
abbrev pub by_key : (ℕ → ℕ) → ℕ → ℕ → Bool
by_key key x y = ltb (key x) (key y)

abbrev pub by_key_down : (ℕ → ℕ) → ℕ → ℕ → Bool
by_key_down key x y = ltb (key y) (key x)

-- `assignFuncSupp` for the ports of a bus and for all buses: the `_supportVal` of inputs, and of outputs.
unfoldable pub set_supports : (ℕ → ℕ) → List ℕ → (ℕ → ℕ) → ℕ → ℕ
set_supports size [] v = v
set_supports size (p ∷ ps) v = set_supports size ps (update v p (size p))

unfoldable pub assign_inputs : Circuit → List Bus → (ℕ → ℕ) → ℕ → ℕ
unfolding set_supports
assign_inputs c [] v = v
assign_inputs c (inputs ps ∷ bs) v =
    assign_inputs c bs (set_supports (λ p. length (c.input_support p)) ps v)
assign_inputs c (outputs ps ∷ bs) v = assign_inputs c bs v

unfoldable pub assign_outputs : Circuit → List Bus → (ℕ → ℕ) → ℕ → ℕ
unfolding set_supports
assign_outputs c [] v = v
assign_outputs c (inputs ps ∷ bs) v = assign_outputs c bs v
assign_outputs c (outputs ps ∷ bs) v =
    assign_outputs c bs (set_supports (λ p. length (c.output_support p)) ps v)

abbrev pub input_val : Circuit → ℕ → ℕ
input_val c = assign_inputs c c.buses c.unset

abbrev pub output_val : Circuit → ℕ → ℕ
output_val c = assign_outputs c c.buses c.unset

-- `genPIinPO`: one row of `isPIinPO`, from `false` everywhere.
unfoldable pub mark : List ℕ → (ℕ → Bool) → ℕ → Bool
mark [] row = row
mark (j ∷ js) row = mark js (update row j true)

abbrev pub gen_pi_in_po : Circuit → ℕ → ℕ → Bool
gen_pi_in_po c o = mark (c.output_support o) (λ j. false)

-- `assign_output_to_inputBus`: insertion into a `set<int>`, and the loops over the inputs of a support and
-- over their buses.
unfoldable pub insert_buses : List ℕ → List ℕ → List ℕ
unfolding set_insert_all
insert_buses bs s = set_insert_all ltb bs s

unfoldable pub input_buses : Circuit → List ℕ → List ℕ → List ℕ
unfolding insert_buses
input_buses c [] s = s
input_buses c (p ∷ ps) s = input_buses c ps (insert_buses (c.bus_indices p) s)

abbrev pub assign_output_to_input_bus : Circuit → (ℕ → List ℕ) → ℕ → List ℕ
assign_output_to_input_bus c support q = input_buses c (support q) []
