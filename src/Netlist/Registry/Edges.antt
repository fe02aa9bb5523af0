-- ===== src/Netlist/Registry/Edges.antt =====
-- src/Netlist.h: the edges that `Connect` adds, and where it fails.
use Prim.Native.String.{String}
use multi_bit_large_scale_bo.Base.{
  ◌++◌, fun_ext, false_not_true, if◌then◌else◌, ◌≡◌, ◌≢◌, refl, sym, ap, ◌∙◌, inl, inr, Bool-cases,
  List, [], ◌∷◌, map, All, In, ◌==◌, ==_iff, ==_ne, ok, err, connecting_fail,
}
use multi_bit_large_scale_bo.Base.Int.{negsuc}
use multi_bit_large_scale_bo.Netlist.{Ptr, Node, Heap, null}
use multi_bit_large_scale_bo.Netlist.Registry.{
  Registry, modify, node_of, push_fo, push_fi, connect_inputs, connect,
}

-- Each name leads to a node.
abbrev pub Known : Registry → List String → Type 0
Known m ss = All (λ s. node_of m s ≢ null) ss

-- A copy of `g` for each of the pointers that is `q`.
abbrev pub edges_at : Ptr → Ptr → List Ptr → List Ptr
edges_at g q [] = []
edges_at g q (p ∷ ps) = if q == p then g ∷ edges_at g q ps else edges_at g q ps

-- The edges of node `q` once the gate `g` has the inputs `ps`.
abbrev pub with_inputs : Ptr → List Ptr → Ptr → Node → Node
with_inputs g ps q n = record n {
  fi = n.fi ++ (if q == g then ps else []);
  fo = n.fo ++ edges_at g q ps;
}

-- The node `q` once the gate `g` has the output `o`, and then the inputs `ps`. The place of the gate is given up.
abbrev pub with_edges : Ptr → Ptr → List Ptr → Ptr → Node → Node
with_edges g o ps q n = with_inputs g ps q (record n {
  idx = if q == g then negsuc 0 else n.idx;
  fi = n.fi ++ (if q == o then g ∷ [] else []);
  fo = n.fo ++ (if q == g then o ∷ [] else []);
})

append_nil : (xs : List Ptr) → xs ++ [] ≡ xs
append_nil [] = refl
append_nil (x ∷ xs) = ap (λ ys. x ∷ ys) (append_nil xs)

append-append : (xs ys zs : List Ptr) → (xs ++ ys) ++ zs ≡ xs ++ (ys ++ zs)
append-append [] ys zs = refl
append-append (x ∷ xs) ys zs = ap (λ us. x ∷ us) (append-append xs ys zs)

-- The inputs one by one.
with_inputs-cons :
    (g p : Ptr) (ps : List Ptr) (q : Ptr) (h : Heap)
    → with_inputs g ps q (push_fo p g (push_fi p g h) q) ≡ with_inputs g (p ∷ ps) q (h q)
with_inputs-cons g p ps q h = elim (Bool-cases (q == p)) [
  | inl a ↦ elim (Bool-cases (q == g)) [
    | inl b ↦
        rw (a, b)
          (λ i. record (h q) {
            fi = append-append (h q).fi (p ∷ []) ps i;
            fo = append-append (h q).fo (g ∷ []) (edges_at g q ps) i;
          })
    | inr b ↦
        rw (a, b)
          (λ i. record (h q) {
            fi = (h q).fi ++ [];
            fo = append-append (h q).fo (g ∷ []) (edges_at g q ps) i;
          })
  ]
  | inr a ↦ elim (Bool-cases (q == g)) [
    | inl b ↦
        rw (a, b)
          (λ i. record (h q) {
            fi = append-append (h q).fi (p ∷ []) ps i;
            fo = (h q).fo ++ edges_at g q ps;
          })
    | inr b ↦ rw (a, b) refl
  ]
]

connect_inputs_lem :
    (g : Ptr) (ss : List String) (m : Registry)
    → Known m ss
    → connect_inputs g ss m
      ≡ ok (record m { heap = λ q. with_inputs g (map (node_of m) ss) q (m.heap q) })
unfolding connect_inputs
connect_inputs_lem g [] m known =
    ap (λ (h : Heap). ok (record m { heap = h })) (fun_ext (λ q. same q))
  where
    same : (q : Ptr) → m.heap q ≡ with_inputs g [] q (m.heap q)
    same q = elim (Bool-cases (q == g)) [
      | inl b ↦ rw b (λ i. record (m.heap q) {
        fi = sym (append_nil (m.heap q).fi) i;
        fo = sym (append_nil (m.heap q).fo) i;
      })
      | inr b ↦ rw b (λ i. record (m.heap q) {
        fi = sym (append_nil (m.heap q).fi) i;
        fo = sym (append_nil (m.heap q).fo) i;
      })
    ]
connect_inputs_lem g (s ∷ ss) m (first, rest) =
    let n = record m { heap = push_fo (node_of m s) g (push_fi (node_of m s) g m.heap) } in
    rw (==_ne (node_of m s) null first) (
      connect_inputs_lem g ss n rest
      ∙ ap (λ (h : Heap). ok (record m { heap = h }))
          (fun_ext (λ q. with_inputs-cons g (node_of m s) (map (node_of m) ss) q m.heap)))

-- The output of the gate, and the loss of its place.
output_edge :
    (g o q : Ptr) (h : Heap)
    → push_fi g o (push_fo g o (modify (λ n. record n { idx = negsuc 0 }) g h)) q ≡ record (h q) {
      idx = if q == g then negsuc 0 else (h q).idx;
      fi = (h q).fi ++ (if q == o then g ∷ [] else []);
      fo = (h q).fo ++ (if q == g then o ∷ [] else []);
    }
output_edge g o q h = elim (Bool-cases (q == g)) [
  | inl b ↦ elim (Bool-cases (q == o)) [
    | inl a ↦ rw (a, b) refl
    | inr a ↦
        rw (a, b)
          (λ i. record (h q) {
            idx = negsuc 0;
            fi = sym (append_nil (h q).fi) i;
            fo = (h q).fo ++ o ∷ [];
          })
  ]
  | inr b ↦ elim (Bool-cases (q == o)) [
    | inl a ↦
        rw (a, b) (λ i. record (h q) { fi = (h q).fi ++ g ∷ []; fo = sym (append_nil (h q).fo) i })
    | inr a ↦
        rw (a, b)
          (λ i. record (h q) { fi = sym (append_nil (h q).fi) i; fo = sym (append_nil (h q).fo) i })
  ]
]

connect_inputs-err :
    (g : Ptr) (ss : List String) (m : Registry) (s : String)
    → In s ss
    → node_of m s ≡ null
    → connect_inputs g ss m ≡ err connecting_fail
unfolding connect_inputs
connect_inputs-err g [] m s member missing = absurd member
connect_inputs-err g (t ∷ ts) m s (inl same) missing =
    rw ((==_iff (node_of m t) null).1 (ap (λ x. node_of m x) (sym same) ∙ missing)) refl
connect_inputs-err g (t ∷ ts) m s (inr later) missing = elim (Bool-cases (node_of m t == null)) [
  | inl none_ ↦ rw none_ refl
  | inr found ↦ rw found (
      connect_inputs-err g ts
        (record m { heap = push_fo (node_of m t) g (push_fi (node_of m t) g m.heap) }) s later
        missing)
]

-- `Connect` fails where a name leads to no node. Else it ends, and changes nothing but the heap: the gate
-- becomes the last fan-in of the node of the first name, which becomes its last fan-out; the nodes of the
-- other names become its fan-ins in their order, and it becomes a fan-out of each of them; and its `_idx`
-- is -1.
pub connect_lem :
    (g : Ptr) (out : String) (ins : List String) (m : Registry)
    → (Known m (out ∷ ins)
        → connect g (out ∷ ins) m
          ≡ ok (record m {
            heap = λ q. with_edges g (node_of m out) (map (node_of m) ins) q (m.heap q);
          }))
      × ((s : String)
          → In s (out ∷ ins)
          → node_of m s ≡ null
          → connect g (out ∷ ins) m ≡ err connecting_fail)
unfolding connect
connect_lem g out ins m = (
  λ (first, rest). rw (==_ne (node_of m out) null first) (
      connect_inputs_lem g ins start rest
      ∙ ap (λ (h : Heap). ok (record m { heap = h })) (fun_ext (λ q. started q))),
  λ s member missing. elim (Bool-cases (node_of m out == null)) [
    | inl none_ ↦ rw none_ refl
    | inr found ↦ rw found (elim member [
      | inl same ↦ absurd (
          false_not_true (
            sym found
            ∙ (==_iff (node_of m out) null).1 (ap (λ x. node_of m x) (sym same) ∙ missing)))
      | inr later ↦ connect_inputs-err g ins start s later missing
    ])
  ],
)
  where
    marked : Heap
    marked = modify (λ n. record n { idx = negsuc 0 }) g m.heap

    start : Registry
    start = record m { heap = push_fi g (node_of m out) (push_fo g (node_of m out) marked) }

    started :
        (q : Ptr)
        → with_inputs g (map (node_of m) ins) q (start.heap q)
          ≡ with_edges g (node_of m out) (map (node_of m) ins) q (m.heap q)
    started q =
        ap (λ n. with_inputs g (map (node_of m) ins) q n) (output_edge g (node_of m out) q m.heap)
