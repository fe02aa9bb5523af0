-- ===== src/Netlist/Registry/Invariant.antt =====
-- src/Netlist.h: what `AddNode` and `Connect` keep true of a netlist.
use Prim.Native.String.{String}
use multi_bit_large_scale_bo.Base.{
  ℕ, zero, suc, ◌<◌, ◌≤◌, ◌≡◌, ◌↔◌, sym, ◌∙◌, subst, ◌⊎◌, inl, inr, arith, List, [], ◌∷◌, ◌++◌,
  length, get_elem?, some, In, In-append, In-append_left, In-append_right,
}
use multi_bit_large_scale_bo.Base.Int.{pos}
use multi_bit_large_scale_bo.Gate.{GateType}
use multi_bit_large_scale_bo.Netlist.{Ptr, Heap, null}
use multi_bit_large_scale_bo.Netlist.Registry.{Registry, push_fo, push_fi}

-- Inputs and outputs, whose `_idx` is a place in their container; `Connect` overwrites that of a gate.
abbrev pub IsPort : GateType → Type 0
IsPort t = (t ≡ GateType.input) ⊎ (t ≡ GateType.output)

-- A pointer that is in use.
abbrev pub IsLive : Registry → Ptr → Type 0
IsLive m p = (0 < p) × (p < m.next)

-- Names lead to nodes of that name, every port has its place in its container and nothing else is there, pointers that are
-- not in use lead to nothing, and fan-ins and fan-outs mirror each other.
pub record IsRegistered (m : Registry) : Type 0 where
  pub started : 0 < m.next
  pub unused :
      (p : Ptr)
      → (p ≡ 0) ⊎ (m.next ≤ p)
      → ((m.heap p).type ≡ GateType.none) × ((m.heap p).fi ≡ []) × ((m.heap p).fo ≡ [])
  pub named :
      (s : String) (p : Ptr)
      → m.name_to_node s ≡ some p
      → (p ≡ null) ⊎ IsLive m p × ((m.heap p).name ≡ s)
  pub placed :
      (t : GateType) (k : ℕ) (p : Ptr)
      → IsPort t
      → get_elem? (m.gate t) k ≡ some p
      → ((m.heap p).type ≡ t) × ((m.heap p).idx ≡ pos k)
  pub listed :
      (p : Ptr)
      → IsPort (m.heap p).type
      → (k : ℕ) × ((m.heap p).idx ≡ pos k) × (get_elem? (m.gate (m.heap p).type) k ≡ some p)
  pub linked : (p q : Ptr) → In p (m.heap q).fi ↔ In q (m.heap p).fo

-- A list with one more element.
pub get_elem?-append_one :
    (xs : List Ptr) (p q : Ptr) (k : ℕ)
    → get_elem? (xs ++ p ∷ []) k ≡ some q
    → (get_elem? xs k ≡ some q) ⊎ ((k ≡ length xs) × (q ≡ p))
get_elem?-append_one [] p q zero e = ground arith
get_elem?-append_one [] p q (suc k) e = cc
get_elem?-append_one (x ∷ xs) p q zero e = inl e
get_elem?-append_one (x ∷ xs) p q (suc k) e = ground (arith, get_elem?-append_one xs p q k e)

-- Edges.
pub In-push_fi :
    (from to : Ptr) (h : Heap) (p q : Ptr)
    → In p (push_fi from to h q).fi ↔ In p (h q).fi ⊎ (q ≡ to) × (p ≡ from)
In-push_fi from to h p q = ground (
  arith,
  In-append p (h q).fi (from ∷ []),
  In-append_left p (h q).fi (from ∷ []),
  In-append_right p (h q).fi (from ∷ []),
)

In-push_fo :
    (from to : Ptr) (h : Heap) (p q : Ptr)
    → In q (push_fo from to h p).fo ↔ In q (h p).fo ⊎ (p ≡ from) × (q ≡ to)
In-push_fo from to h p q = ground (
  arith,
  In-append q (h p).fo (to ∷ []),
  In-append_left q (h p).fo (to ∷ []),
  In-append_right q (h p).fo (to ∷ []),
)

-- Two heaps whose nodes have the same names and types, and whose ports have the same indices.
pub record IsSame (h h' : Heap) : Type 0 where
  pub types : (p : Ptr) → (h' p).type ≡ (h p).type
  pub names : (p : Ptr) → (h' p).name ≡ (h p).name
  pub idxs : (p : Ptr) → IsPort (h p).type → (h' p).idx ≡ (h p).idx

abbrev pub IsLinked : Heap → Type 0
IsLinked h = (p q : Ptr) → In p (h q).fi ↔ In q (h p).fo

abbrev pub IsBlank : Heap → Ptr → Type 0
IsBlank h p = ((h p).type ≡ GateType.none) × ((h p).fi ≡ []) × ((h p).fo ≡ [])

-- A change of the heap that keeps names, types and the indices of ports.
pub IsSame-IsRegistered :
    (m : Registry) (h' : Heap)
    → IsRegistered m
    → IsSame m.heap h'
    → ((p : Ptr) → (p ≡ 0) ⊎ (m.next ≤ p) → IsBlank h' p)
    → IsLinked h'
    → IsRegistered (record m { heap = h' })
IsSame-IsRegistered m h' r same blank link = record {
  started = r.started;
  unused = blank;
  named = λ s p e. elim (r.named s p e) [
    | inl nil ↦ inl nil
    | inr (live, name) ↦ inr (live, same.names p ∙ name)
  ];
  placed = λ t k p port e.
      let (type, idx) = r.placed t k p port e in
      (same.types p ∙ type, same.idxs p (subst IsPort (sym type) port) ∙ idx);
  listed = λ p port.
      let port' : IsPort (m.heap p).type = subst IsPort (same.types p) port in
      let (k, idx, at) = r.listed p port' in
      (
        k,
        same.idxs p port' ∙ idx,
        subst (λ t. get_elem? (m.gate t) k ≡ some p) (sym (same.types p)) at,
      );
  linked = link;
}

-- `Connect` adds an edge between two nodes in use.
push_fi-push_fo-IsLinked :
    (from to : Ptr) (h : Heap) → IsLinked h → IsLinked (push_fi from to (push_fo from to h))
push_fi-push_fo-IsLinked from to h link p q =
    ground (arith, link p q, In-push_fi from to (push_fo from to h) p q, In-push_fo from to h p q)

push_fo-push_fi-IsLinked :
    (from to : Ptr) (h : Heap) → IsLinked h → IsLinked (push_fo from to (push_fi from to h))
push_fo-push_fi-IsLinked from to h link p q =
    ground (arith, link p q, In-push_fo from to (push_fi from to h) p q, In-push_fi from to h p q)

pub push_fi-IsRegistered :
    (from to : Ptr) (m : Registry)
    → IsRegistered m
    → IsLive m from
    → IsLive m to
    → IsRegistered (record m { heap = push_fi from to (push_fo from to m.heap) })
push_fi-IsRegistered from to m r f t =
    IsSame-IsRegistered m (push_fi from to (push_fo from to m.heap)) r
      (record {
        types = λ p. ground arith;
        names = λ p. ground arith;
        idxs = λ p port. ground arith;
      })
      (λ p out. ground (arith, r.unused p out)) (push_fi-push_fo-IsLinked from to m.heap r.linked)

pub push_fo-IsRegistered :
    (from to : Ptr) (m : Registry)
    → IsRegistered m
    → IsLive m from
    → IsLive m to
    → IsRegistered (record m { heap = push_fo from to (push_fi from to m.heap) })
push_fo-IsRegistered from to m r f t =
    IsSame-IsRegistered m (push_fo from to (push_fi from to m.heap)) r
      (record {
        types = λ p. ground arith;
        names = λ p. ground arith;
        idxs = λ p port. ground arith;
      })
      (λ p out. ground (arith, r.unused p out)) (push_fo-push_fi-IsLinked from to m.heap r.linked)
