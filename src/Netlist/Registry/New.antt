-- ===== src/Netlist/Registry/New.antt =====
-- src/Netlist.h: a new node keeps a netlist in order.
use Prim.Native.String.{String}
use text.Mathlib.Text
use text.Mathlib.TextEquality.{eq_iff}
use multi_bit_large_scale_bo.Base.{
  ℕ, suc, ◌≤◌, ◌≡◌, ◌≢◌, refl, sym, ap, ◌∙◌, subst, ◌⊎◌, inl, inr, arith, Bool-cases, List, [], ◌∷◌,
  ◌++◌, length, get_elem?, get_elem?-append_left, get_elem?-append_last, Option, none, some, ==_iff,
  ==_ne, ==_refl,
}
use native.Mathlib.Decide.{ℕ_discrete}
use multi_bit_large_scale_bo.Base.Int.{ℤ, pos}
use multi_bit_large_scale_bo.Gate.{GateType, Signal}
use multi_bit_large_scale_bo.Netlist.{Ptr, Node, new_node}
use multi_bit_large_scale_bo.Netlist.Registry.{Registry, type_number, set_node, set_name, set_gate}
use multi_bit_large_scale_bo.Netlist.Registry.Types.{type_number_inj, set_gate_same, set_gate_other}
use multi_bit_large_scale_bo.Netlist.Registry.Invariant.{
  IsPort, IsRegistered, IsLinked, get_elem?-append_one,
}

-- A registry with a new node at the next pointer.
abbrev pub with_node :
    String → GateType → ℤ → Signal → List Ptr → (GateType → List Ptr) → Registry → Registry
with_node s t idx signal netlist gate m = record m {
  heap = set_node m.heap m.next (record (new_node m.next s t) { idx = idx; signal = signal });
  next = suc m.next;
  netlist = netlist;
  name_to_node = set_name m.name_to_node s m.next;
  gate = gate;
}

-- The new node is in its container, or it is no port and the containers of ports are as before.
abbrev pub IsContained : GateType → ℤ → (GateType → List Ptr) → Registry → Type 0
IsContained t idx gate m =
    IsPort t
      × (idx ≡ pos (length (m.gate t)))
      × (gate ≡ set_gate m.gate t (m.gate t ++ m.next ∷ []))
    ⊎ (IsPort t → ⊥) × ((u : GateType) → IsPort u → gate u ≡ m.gate u)

module _ (s : String) (t : GateType) (idx : ℤ) (signal : Signal) (netlist : List Ptr)
    (gate : GateType → List Ptr) (m : Registry) (r : IsRegistered m) where
  abbrev m' : Registry
  m' = with_node s t idx signal netlist gate m

  new_here :
      (p : Ptr)
      → p ≡ m.next
      → m'.heap p ≡ record (new_node m.next s t) { idx = idx; signal = signal }
  new_here p e = rw ((==_iff p m.next).1 e) refl

  old_here : (p : Ptr) → p ≢ m.next → m'.heap p ≡ m.heap p
  old_here p n = rw (==_ne p m.next n) refl

  -- No edge leads to the new node.
  new-IsLinked : IsLinked m'.heap
  new-IsLinked p q = elim (ℕ_discrete p m.next) [
    | yes e ↦ elim (ℕ_discrete q m.next) [
      | yes f ↦ rw (e, f, ==_refl m.next) (λ x. x, λ x. x)
      | no g ↦
          rw (e, ==_refl m.next, ==_ne q m.next g)
            (
              λ x. ground (arith, r.linked m.next q, (r.unused m.next (inr (omega arith))).2),
              λ x. absurd x,
            )
    ]
    | no n ↦ elim (ℕ_discrete q m.next) [
      | yes f ↦
          rw (f, ==_refl m.next, ==_ne p m.next n)
            (
              λ x. absurd x,
              λ x. ground (arith, r.linked p m.next, (r.unused m.next (inr (omega arith))).1),
            )
      | no g ↦ rw (==_ne p m.next n, ==_ne q m.next g) (r.linked p q)
    ]
  ]

  -- What the containers of ports have.
  gate_old :
      IsContained t idx gate m
      → (u : GateType) (k : ℕ) (p : Ptr) → IsPort u
      → get_elem? (m.gate u) k ≡ some p
      → get_elem? (gate u) k ≡ some p
  gate_old (inr (_, same)) u k p port e = ap (λ ps. get_elem? ps k) (same u port) ∙ e
  gate_old (inl (_, _, new)) u k p port e = elim (ℕ_discrete (type_number u) (type_number t)) [
    | yes f ↦
        let u_t : u ≡ t = type_number_inj u t f in
        ap (λ g. get_elem? (g u) k) new
        ∙ ap (λ v. get_elem? (set_gate m.gate t (m.gate t ++ m.next ∷ []) v) k) u_t
        ∙ ap (λ ps. get_elem? ps k) (set_gate_same m.gate t (m.gate t ++ m.next ∷ []))
        ∙ get_elem?-append_left (m.gate t) (m.next ∷ []) p k
            (subst (λ (v : GateType). get_elem? (m.gate v) k ≡ some p) u_t e)
    | no n ↦
        ap (λ g. get_elem? (g u) k) new
        ∙ ap (λ ps. get_elem? ps k)
            (set_gate_other m.gate t u (m.gate t ++ m.next ∷ []) (λ f. n (ap type_number f)))
        ∙ e
  ]

  gate_back :
      IsContained t idx gate m
      → (u : GateType) (k : ℕ) (p : Ptr) → IsPort u
      → get_elem? (gate u) k ≡ some p
      → (get_elem? (m.gate u) k ≡ some p) ⊎ (p ≡ m.next) × (u ≡ t) × (idx ≡ pos k)
  gate_back (inr (_, same)) u k p port e = inl (sym (ap (λ ps. get_elem? ps k) (same u port)) ∙ e)
  gate_back (inl (_, at, new)) u k p port e = elim (ℕ_discrete (type_number u) (type_number t)) [
    | yes f ↦
        let u_t : u ≡ t = type_number_inj u t f in
        elim (get_elem?-append_one (m.gate t) m.next p k (
          sym (
            ap (λ g. get_elem? (g u) k) new
            ∙ ap (λ v. get_elem? (set_gate m.gate t (m.gate t ++ m.next ∷ []) v) k) u_t
            ∙ ap (λ ps. get_elem? ps k) (set_gate_same m.gate t (m.gate t ++ m.next ∷ [])))
          ∙ e)) [
            | inl old ↦
                inl (subst (λ (v : GateType). get_elem? (m.gate v) k ≡ some p) (sym u_t) old)
            | inr (last, q) ↦ inr (q, u_t, at ∙ ap (λ n. pos n) (sym last))
          ]
    | no n ↦ inl (
        sym (
          ap (λ g. get_elem? (g u) k) new
          ∙ ap (λ ps. get_elem? ps k)
              (set_gate_other m.gate t u (m.gate t ++ m.next ∷ []) (λ f. n (ap type_number f))))
        ∙ e)
  ]

  outside : (p : Ptr) → (p ≡ 0) ⊎ (suc m.next ≤ p) → (p ≢ m.next) × ((p ≡ 0) ⊎ (m.next ≤ p))
  outside p out = ground (arith, r.started)

  -- A port is no new node.
  port_old : (p : Ptr) → IsPort (m.heap p).type → p ≢ m.next
  port_old p port e = none_port (subst (λ (q : Ptr). IsPort (m.heap q).type) e port)
    where
      none_port : IsPort (m.heap m.next).type → ⊥
      none_port (inl f) = cc (f, (r.unused m.next (inr (omega arith))).0)
      none_port (inr f) = cc (f, (r.unused m.next (inr (omega arith))).0)

  pub with_node-IsRegistered : IsContained t idx gate m → IsRegistered m'
  with_node-IsRegistered c = record {
    started = omega arith;
    unused = λ p out. rw (old_here p (outside p out).0) (r.unused p (outside p out).1);
    named = λ s' p e. elim (Bool-cases (Text.◌==◌ s' s)) [
      | inl same ↦
          let new : p ≡ m.next =
            ap (λ (o : Option Ptr). elim o [ none ↦ 0 | some q ↦ q ]) (sym (rw same at e)) in
          inr (
            (ground (arith, r.started)),
            ap (λ (n : Node). n.name) (new_here p new) ∙ sym ((eq_iff s' s).0 same),
          )
      | inr other ↦ elim (r.named s' p (rw other at e)) [
        | inl nil ↦ inl nil
        | inr (live, name) ↦
            inr ((omega arith), ap (λ (n : Node). n.name) (old_here p (λ f. omega arith)) ∙ name)
      ]
    ];
    placed = λ u k p port e. elim (gate_back c u k p port e) [
      | inl old ↦
          let (type, at) = r.placed u k p port old in
          let keep = old_here p (port_old p (subst IsPort (sym type) port)) in
          (ap (λ (n : Node). n.type) keep ∙ type, ap (λ (n : Node). n.idx) keep ∙ at)
      | inr (new, same, at) ↦ (
        ap (λ (n : Node). n.type) (new_here p new) ∙ sym same,
        ap (λ (n : Node). n.idx) (new_here p new) ∙ at,
      )
    ];
    listed = λ p port. elim (ℕ_discrete p m.next) [
      | yes new ↦ here p new c (subst IsPort (ap (λ (n : Node). n.type) (new_here p new)) port)
      | no old ↦
          let keep = old_here p old in
          let type : (m'.heap p).type ≡ (m.heap p).type = ap (λ (n : Node). n.type) keep in
          let (k, at, found) = r.listed p (subst IsPort type port) in
          (
            k,
            ap (λ (n : Node). n.idx) keep ∙ at,
            subst (λ (v : GateType). get_elem? (gate v) k ≡ some p) (sym type)
                (gate_old c (m.heap p).type k p (subst IsPort type port) found),
          )
    ];
    linked = new-IsLinked;
  }
    where
      here :
          (p : Ptr)
          → p ≡ m.next
          → IsContained t idx gate m
          → IsPort t
          → (k : ℕ) × ((m'.heap p).idx ≡ pos k) × (get_elem? (gate (m'.heap p).type) k ≡ some p)
      here p new (inr (not_port, _)) port = absurd (not_port port)
      here p new (inl (_, at, g)) port = (
        length (m.gate t),
        ap (λ (n : Node). n.idx) (new_here p new) ∙ at,
        ap (λ (v : GateType). get_elem? (gate v) (length (m.gate t)))
              (ap (λ (n : Node). n.type) (new_here p new))
            ∙ ap (λ f. get_elem? (f t) (length (m.gate t))) g
            ∙ ap (λ ps. get_elem? ps (length (m.gate t)))
                (set_gate_same m.gate t (m.gate t ++ m.next ∷ []))
            ∙ get_elem?-append_last (m.gate t) m.next
            ∙ ap (λ q. some q) (sym new),
      )
