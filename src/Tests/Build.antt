-- ===== src/Tests/Build.antt =====
-- A netlist that is built with two inputs, an output and a gate, its buses, and the inputs traced.
use Prim.Native.String.{String}
use multi_bit_large_scale_bo.Base.{
  map, ℕ, ◌<◌, ◌≡◌, refl, inl, inr, List, [], ◌∷◌, get_elem?, some, arith, In, Run, ok, err,
  connecting_fail,
}
use multi_bit_large_scale_bo.Base.Int.{negsuc}
use multi_bit_large_scale_bo.Gate.{GateType}
use multi_bit_large_scale_bo.Netlist.{Ptr, Heap}
use multi_bit_large_scale_bo.Netlist.Registry.{Registry, new_module, create, connect, node_of}
use multi_bit_large_scale_bo.Netlist.Registry.Invariant.{IsPort, IsRegistered}
use multi_bit_large_scale_bo.Netlist.Registry.Built.{
  IsBuilt, start, created, connected, IsBuilt-IsRegistered,
}
use multi_bit_large_scale_bo.Netlist.Registry.Edges.{Known, with_edges, connect_lem}
use multi_bit_large_scale_bo.Netlist.Bus.{set_bus}
use multi_bit_large_scale_bo.Netlist.Bus.Placed.{IsPlacing, Named}
use multi_bit_large_scale_bo.Netlist.Bus.Ports.{HasBus, set_bus_lem}
use multi_bit_large_scale_bo.Netlist.Trace.{trace_inputs}
use multi_bit_large_scale_bo.Netlist.Trace.Outputs.{IsTraced, trace_inputs_lem}
use multi_bit_large_scale_bo.Tests.Sample.{sample_heap, sample-IsAcyclic}

-- Inputs n1 and n2, output n3, and the gate g0.
abbrev four_nodes : Registry
four_nodes =
    (create "g0" GateType.and
      (create "n3" GateType.output
        (create "n2" GateType.input (create "n1" GateType.input new_module).1).1).1).1

four_nodes-IsBuilt : IsBuilt four_nodes
four_nodes-IsBuilt =
    created "g0" GateType.and (
      created "n3" GateType.output
        (created "n2" GateType.input (created "n1" GateType.input start)))

four_names :
    (node_of four_nodes "n1" ≡ 3) × (node_of four_nodes "n2" ≡ 4) × (node_of four_nodes "n3" ≡ 5)
unfolding create new_module
four_names = (refl, refl, refl)

gate_of_four : ((four_nodes.heap 6).type ≡ GateType.and) × (6 < four_nodes.next)
unfolding create new_module
gate_of_four = (refl, omega arith)

abbrev pub registry_of : Run Registry → Registry
registry_of (ok m) = m
registry_of r = new_module

abbrev pub joined : Registry
joined = registry_of (connect 6 ("n3" ∷ "n1" ∷ "n2" ∷ []) four_nodes)

joined_lem : connect 6 ("n3" ∷ "n1" ∷ "n2" ∷ []) four_nodes ≡ ok joined
unfolding create new_module connect
joined_lem = refl

joined-IsBuilt : IsBuilt joined
joined-IsBuilt =
    connected 6 ("n3" ∷ "n1" ∷ "n2" ∷ []) ((omega arith), gate_of_four.1) no_port joined_lem
      four_nodes-IsBuilt
  where
    no_port : IsPort (four_nodes.heap 6).type → ⊥
    no_port (inl e) = cc (e, gate_of_four.0)
    no_port (inr e) = cc (e, gate_of_four.0)

IsBuilt-IsRegistered_example : IsRegistered joined
IsBuilt-IsRegistered_example = IsBuilt-IsRegistered joined-IsBuilt

connect_lem_example :
    (Known four_nodes ("n3" ∷ "n1" ∷ "n2" ∷ [])
      → connect 6 ("n3" ∷ "n1" ∷ "n2" ∷ []) four_nodes
        ≡ ok (record four_nodes {
          heap = λ q.
              with_edges 6
                (node_of four_nodes "n3")
                (map (node_of four_nodes) ("n1" ∷ "n2" ∷ []))
                q
                (four_nodes.heap q);
        }))
    × ((s : String)
        → In s ("n3" ∷ "n1" ∷ "n2" ∷ [])
        → node_of four_nodes s ≡ 0
        → connect 6 ("n3" ∷ "n1" ∷ "n2" ∷ []) four_nodes ≡ err connecting_fail)
connect_lem_example = connect_lem 6 "n3" ("n1" ∷ "n2" ∷ []) four_nodes

-- The bus of the two inputs; the output gets its own.
no_buses : IsPlacing four_nodes.heap four_nodes.bus_set
unfolding create new_module
no_buses = record { member = λ p b n. none_in p b n; own = λ p. inl (unset p); occupied = refl }
  where
    indices : (p : Ptr) → (four_nodes.heap p).bus_indices ≡ []
    indices p = ground arith

    none_in :
        (p : Ptr) (b : ℕ)
        → In b (four_nodes.heap p).bus_indices
        → (bus : List Ptr) × (get_elem? four_nodes.bus_set b ≡ some bus) × In p bus
    none_in p b n = absurd (rw (indices p) at n)

    unset : (p : Ptr) → (four_nodes.heap p).bus_idx ≡ negsuc 0
    unset p = ground arith

one_bus : Named four_nodes (("n1" ∷ "n2" ∷ []) ∷ [])
unfolding create new_module
one_bus = omega arith

set_bus_lem_example :
    (m' : Registry) × (set_bus 1 (λ less xs. xs) (("n1" ∷ "n2" ∷ []) ∷ []) four_nodes ≡ ok m')
    × IsPlacing m'.heap m'.bus_set
    × ((p : Ptr) → IsPort (m'.heap p).type → HasBus m' p)
set_bus_lem_example =
    set_bus_lem 1 (λ less xs. xs) (λ less xs x. (λ m. m, λ m. m)) (("n1" ∷ "n2" ∷ []) ∷ [])
      four_nodes (IsBuilt-IsRegistered four_nodes-IsBuilt) no_buses one_bus

abbrev bus_set_of : Run Registry → List (List Ptr)
bus_set_of (ok m) = m.bus_set
bus_set_of r = []

set_bus_test :
    bus_set_of (set_bus 1 (λ less xs. xs) (("n1" ∷ "n2" ∷ []) ∷ []) four_nodes)
    ≡ (3 ∷ 4 ∷ []) ∷ (5 ∷ []) ∷ []
unfolding set_bus create new_module
set_bus_test = refl

trace_inputs_lem_example :
    (h' : Heap) × (trace_inputs (λ xs. xs) 9 (7 ∷ 8 ∷ []) sample_heap ≡ ok h')
    × ((out : Ptr) → In out (7 ∷ 8 ∷ []) → IsTraced 9 sample_heap out (h' out).pi_idx)
trace_inputs_lem_example =
    trace_inputs_lem sample-IsAcyclic (λ xs. xs) (λ xs p. refl) (7 ∷ 8 ∷ [])
      ((omega arith), ((λ n. n), tt)) empty
  where
    empty : (out : Ptr) → In out (7 ∷ 8 ∷ []) → (sample_heap out).pi_idx ≡ []
    empty out (inl e) = rw e refl
    empty out (inr (inl e)) = rw e refl
    empty out (inr (inr n)) = absurd n
