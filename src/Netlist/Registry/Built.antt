-- ===== src/Netlist/Registry/Built.antt =====
-- src/Netlist.h: every netlist that the constructor, `AddNode`, `NameToNode` and `Connect` build is in order.
use Prim.Native.String.{String}
use text.Mathlib.Text
use multi_bit_large_scale_bo.Base.{
  ◌≡◌, ◌≢◌, refl, sym, ap, subst, fun_ext, ◌⊎◌, inl, inr, arith, Bool-cases, Option-cases, List, [],
  ◌∷◌, ◌++◌, length, true, false, Option, none, some, ◌==◌, ==_ne, ==_refl, ok, err,
  connecting_fail,
}
use native.Mathlib.Decide.{ℕ_discrete}
use multi_bit_large_scale_bo.Base.Int.{pos, negsuc}
use multi_bit_large_scale_bo.Gate.{GateType, Signal}
use multi_bit_large_scale_bo.Netlist.{Ptr, Node, Heap, null, new_node}
use multi_bit_large_scale_bo.Netlist.Registry.{
  Registry, type_number, set_node, modify, set_gate, new_object, add_node, create, add_constant,
  new_module, node_of, name_to_node, push_fo, push_fi, connect_inputs, connect,
}
use multi_bit_large_scale_bo.Netlist.Registry.Types.{type_number_inj, set_gate_other}
use multi_bit_large_scale_bo.Netlist.Registry.Invariant.{
  IsPort, IsLive, IsRegistered, IsSame-IsRegistered, push_fi-IsRegistered, push_fo-IsRegistered,
}
use multi_bit_large_scale_bo.Netlist.Registry.New.{with_node, IsContained, with_node-IsRegistered}

-- A changed new node is a new node.
modify-set_node :
    (f : Node → Node) (h : Heap) (p : Ptr) (n : Node)
    → modify f p (set_node h p n) ≡ set_node h p (f n)
modify-set_node f h p n = fun_ext (λ q. pointwise q)
  where
    pointwise : (q : Ptr) → modify f p (set_node h p n) q ≡ set_node h p (f n) q
    pointwise q = elim (Bool-cases (q == p)) [ inl e ↦ rw e refl | inr e ↦ rw e refl ]

-- Adding a node that is not a wire, and adding a wire.
create_port :
    (s : String) (t : GateType) (m : Registry)
    → (type_number t == 9) ≡ false
    → (create s t m).1
      ≡ with_node s t
          (pos (length (m.gate t)))
          Signal.dontcare
          (m.netlist ++ m.next ∷ [])
          (set_gate m.gate t (m.gate t ++ m.next ∷ []))
          m
unfolding create
create_port s t m e =
    let w =
      with_node s t (pos (length (m.gate t))) Signal.dontcare (m.netlist ++ m.next ∷ [])
        (set_gate m.gate t (m.gate t ++ m.next ∷ [])) m in
    rw (create, add_node, new_object, ==_refl m.next, e)
      (ap (λ (h : Heap). record w { heap = h })
        (modify-set_node (λ x. record x { idx = pos (length (m.gate t)) }) m.heap m.next
          (new_node m.next s t)))

create_wire :
    (s : String) (t : GateType) (m : Registry)
    → (type_number t == 9) ≡ true
    → (create s t m).1 ≡ with_node s t (pos 0) Signal.dontcare (m.netlist ++ m.next ∷ []) m.gate m
unfolding create
create_wire s t m e = rw (create, add_node, new_object, ==_refl m.next, e) refl

add_constant_lem :
    (s : String) (signal : Signal) (m : Registry)
    → add_constant s signal m ≡ with_node s GateType.const (pos 0) signal m.netlist m.gate m
unfolding add_constant new_object
add_constant_lem s signal m =
    ap
      (λ (h : Heap). record (with_node s GateType.const (pos 0) signal m.netlist m.gate m) {
        heap = h;
      })
      (modify-set_node (λ x. record x { signal = signal; idx = pos 0 }) m.heap m.next
        (new_node m.next s GateType.const))

const_no_port : IsPort GateType.const → ⊥
const_no_port (inl e) = cc
const_no_port (inr e) = cc

add_constant-IsRegistered :
    (s : String) (signal : Signal) (m : Registry)
    → IsRegistered m
    → IsRegistered (add_constant s signal m)
add_constant-IsRegistered s signal m r = subst IsRegistered (sym (add_constant_lem s signal m)) (
    with_node-IsRegistered s GateType.const (pos 0) signal m.netlist m.gate m r
      (inr (const_no_port, λ u port. refl)))

port_or_not : (t : GateType) → IsPort t ⊎ (IsPort t → ⊥)
port_or_not t = elim (ℕ_discrete (type_number t) 11) [
  | yes e ↦ inl (inl (type_number_inj t GateType.input e))
  | no n ↦ elim (ℕ_discrete (type_number t) 12) [
    | yes e ↦ inl (inr (type_number_inj t GateType.output e))
    | no o ↦ inr (λ port. elim port [ inl e ↦ n (ap type_number e) | inr e ↦ o (ap type_number e) ])
  ]
]

create-IsRegistered :
    (s : String) (t : GateType) (m : Registry) → IsRegistered m → IsRegistered (create s t m).1
create-IsRegistered s t m r = elim (Bool-cases (type_number t == 9)) [
  | inl wire ↦ subst IsRegistered (sym (create_wire s t m wire)) (
      with_node-IsRegistered s t (pos 0) Signal.dontcare (m.netlist ++ m.next ∷ []) m.gate m r
        (inr (wire_no_port wire, λ u port. refl)))
  | inr other ↦ subst IsRegistered (sym (create_port s t m other)) (
      with_node-IsRegistered s t (pos (length (m.gate t))) Signal.dontcare
        (m.netlist ++ m.next ∷ []) (set_gate m.gate t (m.gate t ++ m.next ∷ [])) m r
        (contained (port_or_not t)))
]
  where
    wire_no_port : (type_number t == 9) ≡ true → IsPort t → ⊥
    wire_no_port e (inl f) = ground (arith, ap type_number f)
    wire_no_port e (inr f) = ground (arith, ap type_number f)

    contained :
        IsPort t ⊎ (IsPort t → ⊥)
        → IsContained t (pos (length (m.gate t))) (set_gate m.gate t (m.gate t ++ m.next ∷ [])) m
    contained (inl port) = inl (port, refl, refl)
    contained (inr no_port) = inr (
      no_port,
      λ u port.
          set_gate_other m.gate t u (m.gate t ++ m.next ∷ []) (λ e. no_port (subst IsPort e port)),
    )

name_to_node-IsRegistered :
    (s : String) (m : Registry) → IsRegistered m → IsRegistered (name_to_node s m).1
unfolding name_to_node
name_to_node-IsRegistered s m r = elim (Option-cases (m.name_to_node s)) [
  | inr (p, found) ↦ rw (name_to_node, found) r
  | inl missing ↦
      rw (name_to_node, missing)
        (record {
          started = r.started;
          unused = r.unused;
          named = λ s' p e. elim (Bool-cases (Text.◌==◌ s' s)) [
            | inl same ↦
                inl (ap (λ (o : Option Ptr). elim o [ none ↦ 0 | some q ↦ q ]) (sym (rw same at e)))
            | inr other ↦ r.named s' p (rw other at e)
          ];
          placed = r.placed;
          listed = r.listed;
          linked = r.linked;
        })
]

-- A name that leads to a node leads to one in use.
node_of-IsLive :
    (m : Registry) (s : String) → IsRegistered m → node_of m s ≢ null → IsLive m (node_of m s)
node_of-IsLive m s r live = elim (Option-cases (m.name_to_node s)) [
  | inl missing ↦ absurd (live (rw (node_of, missing) refl))
  | inr (p, found) ↦ elim (r.named s p found) [
    | inl nil ↦ absurd (live (rw (node_of, found) nil))
    | inr (in_use, _) ↦ rw (node_of, found) in_use
  ]
]

connect_inputs-IsRegistered :
    (g : Ptr) (ss : List String) (m m' : Registry)
    → IsRegistered m
    → IsLive m g
    → connect_inputs g ss m ≡ ok m'
    → IsRegistered m'
unfolding connect_inputs
connect_inputs-IsRegistered g [] m m' r live e = subst IsRegistered (ok_inj e) r
  where
    ok_inj : {a b : Registry} → ok a ≡ ok b → a ≡ b
    ok_inj e = cc
connect_inputs-IsRegistered g (s ∷ ss) m m' r live e = elim (Bool-cases (node_of m s == null)) [
  | inl missing ↦ absurd (failed (rw missing at e))
  | inr found ↦
      let in_use = node_of-IsLive m s r (not_null found) in
      connect_inputs-IsRegistered g ss
        (record m { heap = push_fo (node_of m s) g (push_fi (node_of m s) g m.heap) }) m'
        (push_fo-IsRegistered (node_of m s) g m r in_use live) live (rw found at e)
]
  where
    failed : {x : Registry} → err connecting_fail ≡ ok x → ⊥
    failed e = cc

    not_null : (node_of m s == null) ≡ false → node_of m s ≢ null
    not_null e f = ground arith

-- `Connect` for a node in use that is no port.
connect-IsRegistered :
    (g : Ptr) (ss : List String) (m m' : Registry)
    → IsRegistered m
    → IsLive m g
    → (IsPort (m.heap g).type → ⊥)
    → connect g ss m ≡ ok m'
    → IsRegistered m'
unfolding connect
connect-IsRegistered g [] m m' r live gate e = cc
connect-IsRegistered g (s ∷ ss) m m' r live gate e = elim (Bool-cases (node_of m s == null)) [
  | inl missing ↦ absurd (failed (rw missing at e))
  | inr found ↦
      let marked = record m { heap = modify (λ n. record n { idx = negsuc 0 }) g m.heap } in
      let r' = marked-IsRegistered in
      connect_inputs-IsRegistered g ss
        (record marked { heap = push_fi g (node_of m s) (push_fo g (node_of m s) marked.heap) }) m'
        (push_fi-IsRegistered g (node_of m s) marked r' live
          (node_of-IsLive marked s r' (not_null found)))
        live (rw found at e)
]
  where
    failed : {x : Registry} → err connecting_fail ≡ ok x → ⊥
    failed e = cc

    not_null : (node_of m s == null) ≡ false → node_of m s ≢ null
    not_null e f = ground arith

    not_gate : (p : Ptr) → IsPort (m.heap p).type → p ≢ g
    not_gate p port e = gate (subst (λ (q : Ptr). IsPort (m.heap q).type) e port)

    marked-IsRegistered :
        IsRegistered (record m { heap = modify (λ n. record n { idx = negsuc 0 }) g m.heap })
    marked-IsRegistered =
        IsSame-IsRegistered m (modify (λ n. record n { idx = negsuc 0 }) g m.heap) r
          (record {
            types = λ p. ground arith;
            names = λ p. ground arith;
            idxs = λ p port. rw (==_ne p g (not_gate p port)) refl;
          })
          (λ p out. ground (arith, r.unused p out)) (λ p q. ground (arith, r.linked p q))

-- The netlists that a program can build, where `Connect` is called for nodes that are no ports.
pub data IsBuilt : Registry → Type 0 where
  start : IsBuilt new_module
  created : {m : Registry} (s : String) (t : GateType) → IsBuilt m → IsBuilt (create s t m).1
  looked_up : {m : Registry} (s : String) → IsBuilt m → IsBuilt (name_to_node s m).1
  connected :
      {m m' : Registry} (g : Ptr) (ss : List String)
      → IsLive m g
      → (IsPort (m.heap g).type → ⊥)
      → connect g ss m ≡ ok m'
      → IsBuilt m
      → IsBuilt m'

new_module-IsRegistered : IsRegistered new_module
unfolding new_module
new_module-IsRegistered = add_constant-IsRegistered "1'b1" Signal.one _ (
    add_constant-IsRegistered "1'b0" Signal.zero _ (record {
      started = omega arith;
      unused = λ p out. (refl, refl, refl);
      named = λ s p e. cc;
      placed = λ t k p port e. cc;
      listed = λ p port. elim port [ inl e ↦ cc | inr e ↦ cc ];
      linked = λ p q. (λ m. m, λ m. m);
    }))

-- Every netlist that is built from the constructor by adding nodes, looking up names and connecting gates is in order: names lead
-- to nodes of that name, each input and output has its place in its container, and fan-ins and fan-outs mirror each other.
pub IsBuilt-IsRegistered : {m : Registry} → IsBuilt m → IsRegistered m
IsBuilt-IsRegistered start = new_module-IsRegistered
IsBuilt-IsRegistered (created {m} s t b) = create-IsRegistered s t m (IsBuilt-IsRegistered b)
IsBuilt-IsRegistered (looked_up {m} s b) = name_to_node-IsRegistered s m (IsBuilt-IsRegistered b)
IsBuilt-IsRegistered (connected {m} {m'} g ss live gate e b) =
    connect-IsRegistered g ss m m' (IsBuilt-IsRegistered b) live gate e
