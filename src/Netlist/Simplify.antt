-- ===== src/Netlist/Simplify.antt =====
-- src/Netlist.h: `Simplification`, which links the ports of one name, and removes the wires, buffers and inverters, and
-- `Link`.
pub mod Linked
pub mod Operands
pub mod Counts
pub mod Push
pub mod Bypass
pub mod Effect
pub mod Steps
pub mod Pass
use Prim.Native.Char.{code}
use Prim.Native.String.{String}
use text.Mathlib.Text
use multi_bit_large_scale_bo.Base.{
  ℕ, zero, suc, ◌+◌, List, [], ◌∷◌, ◌++◌, length, replicate, Bool, true, false, Option, none, some,
  ◌==◌, if◌then◌else◌, Run, ok, err, undefined, ◌>>=◌, no_fan_in,
}
use multi_bit_large_scale_bo.Gate.{GateType}
use multi_bit_large_scale_bo.Netlist.{Ptr, Node, Heap, null}
use multi_bit_large_scale_bo.Netlist.Registry.{Registry, modify}

-- The name before the first `[`, if it has one.
unfoldable pub bracket_prefix : String → Option String
bracket_prefix String.[] = none
bracket_prefix (String.◌∷◌ c s) =
    let rest = bracket_prefix s in
    if code c == b'['
    then some String.[]
    else elim rest [ none ↦ none | some t ↦ some (String.◌∷◌ c t) ]

-- The two loops of `Link`: neighbours are linked with each other, and each port with the first one.
unfoldable pub link_neighbours : List Ptr → Heap → Heap
link_neighbours [] h = h
link_neighbours (p ∷ []) h = h
link_neighbours (p ∷ q ∷ ps) h =
    link_neighbours (q ∷ ps)
      (modify (λ n. record n { link_left = p }) q (modify (λ n. record n { link_right = q }) p h))

unfoldable pub set_heads : Ptr → ℕ → List Ptr → Heap → Heap
set_heads head len [] h = h
set_heads head len (p ∷ ps) h =
    set_heads head len ps (modify (λ n. record n { head = head; bit_len = len }) p h)

-- `Link`; `Simplification` calls it only if there are ports to link.
unfoldable pub link : List Ptr → Heap → Heap
unfolding link_neighbours set_heads
link [] h = h
link (p ∷ ps) h = set_heads p (length (p ∷ ps)) (p ∷ ps) (link_neighbours (p ∷ ps) h)

-- `prevName` and `linker`, with the heap.
pub record Linking : Type 0 where
  pub prev_name : String
  pub linker : List Ptr
  pub heap : Heap

-- One port: its name loses its index, and it joins the ports before it if they have the name.
unfoldable pub link_port : Ptr → Linking → Linking
unfolding bracket_prefix link
link_port p l = elim (bracket_prefix (l.heap p).name) [
  | none ↦ record l { heap = modify (λ n. record n { bit_len = 1 }) p l.heap }
  | some now ↦
      let heap = modify (λ n. record n { name = now }) p l.heap in
      if Text.◌==◌ l.prev_name now
      then record { prev_name = now; linker = l.linker ++ p ∷ []; heap = heap }
      else record { prev_name = now; linker = p ∷ []; heap = link l.linker heap }
]

unfoldable pub link_ports : List Ptr → Linking → Linking
unfolding link_port
link_ports [] l = l
link_ports (p ∷ ps) l = link_ports ps (link_port p l)

-- The fan-ins without `x`, and how often `x` was there: `repeat`.
unfoldable pub erase_all : Ptr → List Ptr → List Ptr × ℕ
erase_all x [] = ([], 0)
erase_all x (p ∷ ps) =
    let (rest, repeat) = erase_all x ps in if p == x then (rest, suc repeat) else (p ∷ rest, repeat)

unfoldable pub erase_first : Ptr → List Ptr → List Ptr
erase_first x [] = []
erase_first x (p ∷ ps) = let rest = erase_first x ps in if p == x then ps else p ∷ rest

-- A node that reads `x` reads `prev` in its place: at the end of its fan-ins, or as a complemented one in front.
unfoldable pub push_back : Ptr → Ptr → Node → Node
unfolding erase_all
push_back x prev n =
    let (rest, repeat) = erase_all x n.fi in record n { fi = rest ++ replicate repeat prev }

unfoldable pub push_front : Ptr → Ptr → Node → Node
unfolding erase_all
push_front x prev n =
    let (rest, repeat) = erase_all x n.fi in
    record n { inv = n.inv + repeat; fi = replicate repeat prev ++ rest }

-- The loop over the fan-outs of `x`.
unfoldable pub fix_next : (Node → Node) → List Ptr → Heap → Heap
fix_next f [] h = h
fix_next f (out ∷ outs) h = fix_next f outs (modify f out h)

-- An output that drives other gates: its driver drives them. Where it drives itself, a vector is inserted into itself.
unfoldable pub bypass_output : Ptr → Heap → Run Heap
unfolding push_back fix_next
bypass_output x h = elim (h x).fi [
  | [] ↦ err no_fan_in
  | prev ∷ _ ↦
      let h₁ = modify (λ n. record n { fo = n.fo ++ (h x).fo }) prev h in
      let h₂ = fix_next (push_back x prev) (h x).fo h₁ in
      if prev == x then undefined else ok (modify (λ n. record n { fo = [] }) x h₂)
]

unfoldable pub bypass_outputs : List Ptr → Heap → Run Heap
unfolding bypass_output
bypass_outputs [] h = ok h
bypass_outputs (x ∷ xs) h = bypass_output x h >>= λ h'. bypass_outputs xs h'

-- The destructor of `Node`.
unfoldable pub destroy : Node → Node
destroy n = record n {
  link_left = null;
  link_right = null;
  head = null;
  name = "";
  fi = [];
  fo = [];
}

abbrev pub erase_name : (String → Option Ptr) → String → String → Option Ptr
erase_name f s s' = if Text.◌==◌ s' s then none else f s'

-- What is done with a fan-out of a node that is removed.
abbrev pub pusher : GateType → Ptr → Ptr → Node → Node
pusher GateType.inv x prev n = push_front x prev n
pusher _ x prev n = push_back x prev n

unfoldable pub remove_node : Ptr → Registry → Run Registry
unfolding erase_first push_back push_front fix_next destroy
remove_node x m = elim (m.heap x).fi [
  | [] ↦ err no_fan_in
  | prev ∷ _ ↦
      let h₁ = modify (λ n. record n { fo = erase_first x n.fo ++ (m.heap x).fo }) prev m.heap in
      let h₂ = fix_next (pusher (m.heap x).type x prev) (m.heap x).fo h₁ in
      if prev == x
      then undefined
      else ok (record m {
        heap = modify destroy x h₂;
        name_to_node = erase_name m.name_to_node (m.heap x).name;
      })
]

abbrev pub is_removed : GateType → Bool
is_removed GateType.wire = true
is_removed GateType.buf = true
is_removed GateType.inv = true
is_removed _ = false

-- The loop over `_netlist`, with the nodes that stay.
unfoldable pub remove_nodes : List Ptr → Registry → Run (List Ptr × Registry)
unfolding remove_node
remove_nodes [] m = ok ([], m)
remove_nodes (x ∷ xs) m =
    let removed = remove_node x m >>= λ m'. remove_nodes xs m' in
    let kept = remove_nodes xs m >>= λ (ps, m'). ok (x ∷ ps, m') in
    if is_removed (m.heap x).type then removed else kept

-- `Simplification`.
unfoldable pub simplification : Registry → Run Registry
unfolding link_ports link bypass_outputs remove_nodes
simplification m =
    let start : Linking = record { prev_name = ""; linker = []; heap = m.heap } in
    let l = link_ports (m.gate GateType.output) (link_ports (m.gate GateType.input) start) in
    bypass_outputs (m.gate GateType.output) (link l.linker l.heap) >>= λ h.
    remove_nodes m.netlist (record m { heap = h }) >>= λ (ps, m'). ok (record m' { netlist = ps })
