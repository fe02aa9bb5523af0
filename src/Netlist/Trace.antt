-- ===== src/Netlist/Trace.antt =====
-- src/Netlist.h: `CollectPI` and `TraceInputs`, which collect the indices of the inputs that an output
-- depends on, and `Unique`.
pub mod Support
pub mod Outputs
use multi_bit_large_scale_bo.Base.{
  ℕ, zero, suc, List, [], ◌∷◌, ◌++◌, Bool, Run, ok, out_of_fuel, ◌>>=◌, ltb, true, false,
}
use multi_bit_large_scale_bo.Base.Int.{ℤ, pos, negsuc}
use multi_bit_large_scale_bo.Base.Sets.{set_insert_all}
use multi_bit_large_scale_bo.Gate.{GateType}
use multi_bit_large_scale_bo.Netlist.{Ptr, Node, Heap}
use multi_bit_large_scale_bo.Netlist.Registry.{modify}

-- `a < b`, for `int`.
abbrev pub less_ℤ : ℤ → ℤ → Bool
less_ℤ (pos a) (pos b) = ltb a b
less_ℤ (pos a) (negsuc b) = false
less_ℤ (negsuc a) (pos b) = true
less_ℤ (negsuc a) (negsuc b) = ltb b a

-- The loop over the fan-ins, where `go` is the recursive call.
unfoldable pub collect_fan_ins : (Ptr → List ℤ → Run (List ℤ)) → List Ptr → List ℤ → Run (List ℤ)
collect_fan_ins go [] acc = ok acc
collect_fan_ins go (p ∷ ps) acc = go p acc >>= λ acc'. collect_fan_ins go ps acc'

-- `CollectPI`, with fuel for the depth of the recursion; `acc` is the output's `_pi_idx`.
unfoldable pub collect_pi : ℕ → Heap → Ptr → List ℤ → Run (List ℤ)
unfolding collect_fan_ins
collect_pi zero h g acc = out_of_fuel
collect_pi (suc fuel) h g acc = elim (h g).type [
  | GateType.input ↦ ok (acc ++ (h g).idx ∷ [])
  | t ↦ collect_fan_ins (λ p acc'. collect_pi fuel h p acc') (h g).fi acc
]

-- `Unique`: the elements of a `set` of the vector's.
unfoldable pub unique : List ℤ → List ℤ
unfolding set_insert_all
unique xs = set_insert_all less_ℤ xs []

-- `TraceInputs`, where `sort` is `std::sort` on numbers.
module _ (sort : List ℤ → List ℤ) (fuel : ℕ) where
  unfoldable pub trace_output : Ptr → Heap → Run Heap
  unfolding collect_pi unique
  trace_output out h = collect_pi fuel h out (h out).pi_idx >>= λ is.
      ok (modify (λ n. record n { pi_idx = sort (unique is) }) out h)

  unfoldable pub trace_inputs : List Ptr → Heap → Run Heap
  unfolding trace_output
  trace_inputs [] h = ok h
  trace_inputs (out ∷ outs) h = trace_output out h >>= λ h'. trace_inputs outs h'
