-- ===== src/Netlist/Registry.antt =====
-- src/Netlist.h: `class Module`, with its constructor, `AddNode`, `NameToNode` and `Connect`, which the parser
-- calls to build a netlist.
pub mod Types
pub mod Invariant
pub mod New
pub mod Built
pub mod Edges
use Prim.Native.String.{String}
use text.Mathlib.Text
use multi_bit_large_scale_bo.Base.{
  ℕ, zero, suc, List, [], ◌∷◌, ◌++◌, length, Bool, true, false, Option, none, some, ◌==◌,
  if◌then◌else◌, Run, ok, err, undefined, ◌>>=◌, connecting_fail,
}
use multi_bit_large_scale_bo.Base.Int.{ℤ, pos, negsuc}
use multi_bit_large_scale_bo.Gate.{GateType, Signal}
use multi_bit_large_scale_bo.Netlist.{Ptr, Node, Heap, null, new_node}

-- The heap, the first pointer that is not in use, `_netlist`, `_name_to_node`, `_gate`, `_bus_set` and `_bus_signature`.
pub record Registry : Type 0 where
  pub heap : Heap
  pub next : Ptr
  pub netlist : List Ptr
  pub name_to_node : String → Option Ptr
  pub gate : GateType → List Ptr
  pub bus_set : List (List Ptr)
  pub bus_signature : List ℕ

-- The number of a type in the enumeration.
abbrev pub type_number : GateType → ℕ
type_number GateType.none = 0
type_number GateType.and = 1
type_number GateType.or = 2
type_number GateType.nand = 3
type_number GateType.nor = 4
type_number GateType.inv = 5
type_number GateType.buf = 6
type_number GateType.xor = 7
type_number GateType.facarry = 8
type_number GateType.wire = 9
type_number GateType.const = 10
type_number GateType.input = 11
type_number GateType.output = 12
type_number GateType.zerobuf = 13
type_number GateType.onebuf = 14

-- A node is replaced, and one is changed.
abbrev pub set_node : Heap → Ptr → Node → Heap
set_node h p n q = if q == p then n else h q

abbrev pub modify : (Node → Node) → Ptr → Heap → Heap
modify f p h q = if q == p then f (h q) else h q

abbrev pub set_name : (String → Option Ptr) → String → Ptr → String → Option Ptr
set_name f s p s' = if Text.◌==◌ s' s then some p else f s'

abbrev pub set_gate : (GateType → List Ptr) → GateType → List Ptr → GateType → List Ptr
set_gate f t ps t' = if type_number t' == type_number t then ps else f t'

-- `new Node(s, t)`.
unfoldable pub new_object : String → GateType → Registry → Ptr × Registry
new_object s t m =
    (m.next, record m { heap = set_node m.heap m.next (new_node m.next s t); next = suc m.next })

-- `AddNode`.
unfoldable pub add_node : Ptr → Registry → Registry
add_node p m =
    let n = m.heap p in
    let listed = record m {
      netlist = m.netlist ++ p ∷ [];
      name_to_node = set_name m.name_to_node n.name p;
    } in
    if type_number n.type == type_number GateType.wire then listed else record listed {
      heap = modify (λ x. record x { idx = pos (length (m.gate n.type)) }) p m.heap;
      gate = set_gate m.gate n.type (m.gate n.type ++ p ∷ []);
    }

-- A new node that is added at once, as the parser does.
unfoldable pub create : String → GateType → Registry → Ptr × Registry
unfolding new_object add_node
create s t m = let (p, m') = new_object s t m in (p, add_node p m')

-- The constructor: the constants 0 and 1 are named, and are in no container.
unfoldable pub add_constant : String → Signal → Registry → Registry
unfolding new_object
add_constant s signal m =
    let (p, m') = new_object s GateType.const m in
    record m' {
      name_to_node = set_name m'.name_to_node s p;
      heap = modify (λ x. record x { signal = signal; idx = pos 0 }) p m'.heap;
    }

unfoldable pub new_module : Registry
unfolding add_constant
new_module = add_constant "1'b1" Signal.one (
    add_constant "1'b0" Signal.zero (record {
      heap = λ p. new_node p "" GateType.none;
      next = 1;
      netlist = [];
      name_to_node = λ s. none;
      gate = λ t. [];
      bus_set = [];
      bus_signature = [];
    }))

-- `_name_to_node[s]`, where a missing key reads as `NULL`, and `NameToNode`, which leaves that entry.
abbrev pub node_of : Registry → String → Ptr
node_of m s = elim (m.name_to_node s) [ none ↦ null | some p ↦ p ]

unfoldable pub name_to_node : String → Registry → Ptr × Registry
name_to_node s m = elim (m.name_to_node s) [
  | none ↦ (null, record m { name_to_node = set_name m.name_to_node s null })
  | some p ↦ (p, m)
]

-- An edge: `to` is a fan-out of `from`, and `from` a fan-in of `to`.
abbrev pub push_fo : Ptr → Ptr → Heap → Heap
push_fo from to = modify (λ n. record n { fo = n.fo ++ to ∷ [] }) from

abbrev pub push_fi : Ptr → Ptr → Heap → Heap
push_fi from to = modify (λ n. record n { fi = n.fi ++ from ∷ [] }) to

-- The loop of `Connect` over the names of the inputs.
unfoldable pub connect_inputs : Ptr → List String → Registry → Run Registry
connect_inputs g [] m = ok m
connect_inputs g (s ∷ ss) m =
    let rest =
      connect_inputs g ss
        (record m { heap = push_fo (node_of m s) g (push_fi (node_of m s) g m.heap) }) in
    if node_of m s == null then err connecting_fail else rest

-- `Connect`: the first name is the output's. It reads that name before it looks for the end.
unfoldable pub connect : Ptr → List String → Registry → Run Registry
unfolding connect_inputs
connect g [] m = undefined
connect g (s ∷ ss) m =
    let heap = modify (λ n. record n { idx = negsuc 0 }) g m.heap in
    if node_of m s == null
    then err connecting_fail
    else connect_inputs g ss
        (record m { heap = push_fi g (node_of m s) (push_fo g (node_of m s) heap) })
