-- ===== src/Netlist/Equation.antt =====
-- src/Netlist.h: `class Operation`, an equation of an output over terms of buses, with its `Term` and `TermCompare`.
pub mod Inserted
pub mod Compared
use multi_bit_large_scale_bo.Base.{
  ℕ, List, [], ◌∷◌, ◌++◌, Bool, true, false, not, ◌&&◌, ◌||◌, ◌==◌, if◌then◌else◌,
}
use multi_bit_large_scale_bo.Base.Int.{ℤ, pos, negsuc}
use multi_bit_large_scale_bo.Base.Sets.{set_insert}
use multi_bit_large_scale_bo.Netlist.{Ptr}
use multi_bit_large_scale_bo.Netlist.Trace.{less_ℤ}

-- `struct Term`.
pub record Term : Type 0 where
  pub member : List ℤ
  pub coeff : ℤ

-- `_input`, a `set` with `TermCompare`, `_output`, `_real_input` and `_const`. Terms are compared by their fields alone.
pub record Operation : Type 0 where
  pub input : List Term
  pub output : List Ptr
  pub real_input : List Term
  pub const : ℤ

-- The constructor.
unfoldable pub new_operation : List Ptr → Operation
new_operation out = record { input = []; output = out; real_input = []; const = pos 0 }

-- `a == b`, for `int`.
abbrev pub same_ℤ : ℤ → ℤ → Bool
same_ℤ (pos a) (pos b) = a == b
same_ℤ (pos a) (negsuc b) = false
same_ℤ (negsuc a) (pos b) = false
same_ℤ (negsuc a) (negsuc b) = a == b

-- `TermCompare`: the first difference decides, and a list comes before those that it is the start of.
unfoldable pub less_members : List ℤ → List ℤ → Bool
less_members [] [] = false
less_members [] (y ∷ ys) = true
less_members (x ∷ xs) [] = false
less_members (x ∷ xs) (y ∷ ys) =
    let rest = less_members xs ys in if same_ℤ x y then rest else less_ℤ x y

unfoldable pub less_term : Term → Term → Bool
unfolding less_members
less_term a b = less_members a.member b.member

-- `operator !=` of terms.
unfoldable pub members_differ : List ℤ → List ℤ → Bool
members_differ [] [] = false
members_differ [] (y ∷ ys) = true
members_differ (x ∷ xs) [] = true
members_differ (x ∷ xs) (y ∷ ys) =
    let rest = members_differ xs ys in if same_ℤ x y then rest else true

unfoldable pub term_differs : Term → Term → Bool
unfolding members_differ
term_differs a b = if members_differ a.member b.member then true else not (same_ℤ a.coeff b.coeff)

-- `find` in the set: a term of which neither comes before the other.
unfoldable pub is_found : Term → List Term → Bool
unfolding less_term
is_found t [] = false
is_found t (u ∷ us) =
    let rest = is_found t us in if not (less_term t u) && not (less_term u t) then true else rest

-- `Insert`, where `sort` is `std::sort` on numbers.
unfoldable pub insert_term : (List ℤ → List ℤ) → List ℤ → ℤ → Operation → Operation
unfolding is_found set_insert
insert_term sort in_ c op =
    let t : Term = record { member = sort in_; coeff = c } in
    if is_found t op.input
    then op
    else record op { input = set_insert less_term t op.input; real_input = op.real_input ++ t ∷ [] }

-- `CompareInput`, and `operator ==`.
unfoldable pub compare_inputs : List Term → List Term → Bool
unfolding term_differs
compare_inputs [] [] = true
compare_inputs [] (b ∷ bs) = false
compare_inputs (a ∷ as_) [] = false
compare_inputs (a ∷ as_) (b ∷ bs) =
    let rest = compare_inputs as_ bs in if term_differs a b then false else rest

unfoldable pub compare_input : Operation → Operation → Bool
unfolding compare_inputs
compare_input a b = compare_inputs a.real_input b.real_input

unfoldable pub is_equal : Operation → Operation → Bool
unfolding compare_input
is_equal a b = if compare_input a b then same_ℤ a.const b.const else false

-- `isZERO`.
unfoldable pub is_zero : Operation → Bool
is_zero op = elim op.real_input [ [] ↦ true | t ∷ ts ↦ false ]
