-- ===== src/Netlist/Bus.antt =====
-- src/Netlist.h: `setBus`, which makes the buses that the input file names, and one for each other port.
pub mod Placed
pub mod Ports
use Prim.Native.String.{String}
use text.Mathlib.Text
use multi_bit_large_scale_bo.Base.{
  ℕ, zero, suc, List, [], ◌∷◌, ◌++◌, length, get_or, replicate, Bool, true, false, ◌&&◌, Option,
  none, some, ◌==◌, ltb, if◌then◌else◌, Run, ok, undefined, ◌>>=◌,
}
use multi_bit_large_scale_bo.Base.Int.{ℤ, pos, negsuc}
use multi_bit_large_scale_bo.Gate.{GateType}
use multi_bit_large_scale_bo.Netlist.{Ptr, Node, null}
use multi_bit_large_scale_bo.Netlist.Registry.{Registry, modify, node_of}

-- The test that `_bus_idx` is -1.
abbrev pub is_unset : ℤ → Bool
is_unset (negsuc zero) = true
is_unset z = false

-- A node is in bus `b`.
abbrev pub enter_node : ℕ → Node → Node
enter_node b n = record n { bus_idx = pos b; bus_indices = n.bus_indices ++ b ∷ [] }

abbrev pub place_node : ℕ → Ptr → Registry → Registry
place_node b p m = record m { heap = modify (enter_node b) p m.heap }

-- The loop over the names of a bus; a name that leads to no node is read through `NULL`.
unfoldable pub place_names : ℕ → List String → Registry → Run (List Ptr × Registry)
place_names b [] m = ok ([], m)
place_names b (s ∷ ss) m =
    let rest = place_names b ss (place_node b (node_of m s) m) in
    if node_of m s == null then undefined else rest >>= λ (ps, m'). ok (node_of m s ∷ ps, m')

-- The buses have members, which the count of the buses at the end reads.
abbrev pub all_occupied : List (List Ptr) → Bool
all_occupied [] = true
all_occupied ([] ∷ bs) = false
all_occupied ((p ∷ ps) ∷ bs) = all_occupied bs

-- The comparison by which the buses of a port are sorted.
abbrev pub smaller_bus : List (List Ptr) → ℕ → ℕ → Bool
smaller_bus bs a b = ltb (length (get_or bs a [])) (length (get_or bs b []))

-- `_moduleIndex`, and `std::sort` on indices of buses.
module _ (module_index : ℕ) (std_sort : (ℕ → ℕ → Bool) → List ℕ → List ℕ) where
  -- The exception for the bus of n38 in circuit 1, which the node n84 joins. The first name of the bus is read if the
  -- index is 0.
  unfoldable pub extra_node : List String → Registry → Run (List Ptr)
  extra_node [] m = if module_index == 0 then undefined else ok []
  extra_node (s ∷ ss) m = elim (m.name_to_node "n84") [
    | none ↦ ok []
    | some p ↦
        ok (if module_index == 0 && Text.◌==◌ s "n38" && length (s ∷ ss) == 7 then p ∷ [] else [])
  ]

  unfoldable pub add_bus : List String → Registry → Run Registry
  unfolding place_names extra_node
  add_bus ss m = place_names (length m.bus_set) ss m >>= λ (ps, m').
      extra_node ss m' >>= λ es. ok (record m' { bus_set = m'.bus_set ++ (ps ++ es) ∷ [] })

  unfoldable pub add_buses : List (List String) → Registry → Run Registry
  unfolding add_bus
  add_buses [] m = ok m
  add_buses (ss ∷ sss) m = add_bus ss m >>= λ m'. add_buses sss m'

  -- A port without a bus gets one, and the buses of the others are sorted by size.
  unfoldable pub place_port : Ptr → Registry → Registry
  place_port p m =
      if is_unset (m.heap p).bus_idx
      then record m {
        heap = modify (enter_node (length m.bus_set)) p m.heap;
        bus_set = m.bus_set ++ (p ∷ []) ∷ [];
      }
      else record m {
        heap =
            modify (λ n. record n { bus_indices = std_sort (smaller_bus m.bus_set) n.bus_indices })
              p m.heap;
      }

  unfoldable pub place_ports : List Ptr → Registry → Registry
  unfolding place_port
  place_ports [] m = m
  place_ports (p ∷ ps) m = place_ports ps (place_port p m)

  -- `setBus`.
  unfoldable pub set_bus : List (List String) → Registry → Run Registry
  unfolding add_buses place_ports
  set_bus sss m = add_buses sss m >>= λ m₁.
      let m₂ = place_ports (m₁.gate GateType.input) m₁ in
      let m₃ = place_ports (m₂.gate GateType.output) m₂ in
      if all_occupied m₃.bus_set
      then ok (record m₃ { bus_signature = replicate (length m₃.bus_set) 0 })
      else undefined
