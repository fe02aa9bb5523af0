-- ===== src/Netlist/Simplify/Steps.antt =====
-- src/Netlist.h: one step of each of the two loops of `Simplification` that bypass nodes.
use multi_bit_large_scale_bo.Base.{
  false_not_true, ℕ, ◌≡◌, ◌≢◌, ◌⊎◌, refl, sym, ap, subst, ◌∙◌, inl, inr, arith, List, [], ◌∷◌, ◌++◌,
  Bool, true, not, ==_ne, In, In-append_left, In-append_right, ok,
}
use multi_bit_large_scale_bo.Gate.{GateType}
use multi_bit_large_scale_bo.Netlist.{Ptr, Node, Heap}
use multi_bit_large_scale_bo.Netlist.Registry.{Registry}
use multi_bit_large_scale_bo.Netlist.Simplify.{
  erase_first, push_back, push_front, bypass_output, destroy, erase_name, pusher, is_removed,
  remove_node,
}
use multi_bit_large_scale_bo.Netlist.Simplify.Operands.{FitsGate}
use multi_bit_large_scale_bo.Netlist.Simplify.Counts.{operands}
use multi_bit_large_scale_bo.Netlist.Simplify.Push.{
  View, view, push_back-absent, push_front-absent, push_back-gone, push_front-gone, push_back_lem,
  push_front_lem, push_back-one,
}
use multi_bit_large_scale_bo.Netlist.Simplify.Bypass.{
  Fits, IsUnread, IsReady, Others, IsApart, IsBypass, bypass-Fits, bypass-IsReady, bypass-IsUnread,
  bypass_keeps-IsUnread, bypass-IsApart,
}
use multi_bit_large_scale_bo.Netlist.Simplify.Effect.{
  Changes, bypassed, bypassed-IsBypass, after-type,
}

-- What a step that takes `x` out of `R` keeps true.
pub record IsStep (v : Ptr → Bool) (rank : Ptr → ℕ) (R : Ptr → Type 0) (x : Ptr) (h h' : Heap)
    : Type 0 where
  pub fits : Fits v h'
  pub ready : IsReady h' rank (Others R x)
  pub unread : IsUnread h' x
  pub keeps_unread : (z : Ptr) → IsUnread h z → IsUnread h' z
  pub apart : (type : Ptr → GateType) → IsApart type h R → IsApart type h' (Others R x)
  pub types : (g : Ptr) → (h' g).type ≡ (h g).type

back-Changes :
    (v : Ptr → Bool) (R : Ptr → Type 0) (x prev : Ptr)
    → prev ≢ x
    → v x ≡ v prev
    → Changes v R x prev (λ n. push_back x prev n)
unfolding push_back
back-Changes v R x prev other same = record {
  absent = push_back-absent x prev;
  gone = λ n. push_back-gone x prev n other;
  keeps_fo = λ n. refl;
  keeps_type = λ n. refl;
  push = λ n out le. push_back_lem v R x prev n out le same;
}

front-Changes :
    (v : Ptr → Bool) (R : Ptr → Type 0) (x prev : Ptr)
    → prev ≢ x
    → v x ≡ not (v prev)
    → (R prev → ⊥)
    → Changes v R x prev (λ n. push_front x prev n)
unfolding push_front
front-Changes v R x prev other same stays = record {
  absent = push_front-absent x prev;
  gone = λ n. push_front-gone x prev n other;
  keeps_fo = λ n. refl;
  keeps_type = λ n. refl;
  push = λ n out le. push_front_lem v R x prev n out le same stays;
}

In-erase_first : (x g : Ptr) (ps : List Ptr) → In g ps → In g (erase_first x ps) ⊎ (g ≡ x)
unfolding erase_first
In-erase_first x g [] m = absurd m
In-erase_first x g (p ∷ ps) m = ground (arith, In-erase_first x g ps)

removed_types :
    (t : GateType)
    → is_removed t ≡ true
    → (t ≡ GateType.wire) ⊎ ((t ≡ GateType.buf) ⊎ (t ≡ GateType.inv))
removed_types GateType.none e = absurd (false_not_true e)
removed_types GateType.and e = absurd (false_not_true e)
removed_types GateType.or e = absurd (false_not_true e)
removed_types GateType.nand e = absurd (false_not_true e)
removed_types GateType.nor e = absurd (false_not_true e)
removed_types GateType.inv e = inr (inr refl)
removed_types GateType.buf e = inr (inl refl)
removed_types GateType.xor e = absurd (false_not_true e)
removed_types GateType.facarry e = absurd (false_not_true e)
removed_types GateType.wire e = inl refl
removed_types GateType.const e = absurd (false_not_true e)
removed_types GateType.input e = absurd (false_not_true e)
removed_types GateType.output e = absurd (false_not_true e)
removed_types GateType.zerobuf e = absurd (false_not_true e)
removed_types GateType.onebuf e = absurd (false_not_true e)

module _ (v : Ptr → Bool) {rank : Ptr → ℕ} {R : Ptr → Type 0} (x prev : Ptr) {h : Heap}
    (fits : Fits v h) (ready : IsReady h rank R) (r : R x) (driven : (h x).fi ≡ prev ∷ []) where
  prev_other : prev ≢ x
  prev_other e =
      omega
        (arith, ready.ranked x prev (subst (λ ps. In prev ps) (sym driven) (inl refl)), ap rank e)

  -- The value of `x` from that of its driver.
  driven_fits : (t : GateType) → (h x).type ≡ t → FitsGate t (v prev ∷ []) (v x)
  driven_fits t e =
      subst (λ u. FitsGate u (v prev ∷ []) (v x)) e
        (subst (λ ps. FitsGate (h x).type (operands v 0 ps) (v x)) driven
          (subst (λ k. FitsGate (h x).type (operands v k (h x).fi) (v x)) (ready.single x r).0
            (fits x)))

  step :
      {f : Node → Node} (F : List Ptr → List Ptr) (k : Node → Node)
      → Changes v R x prev f
      → IsBypass v R x prev h (bypassed f F k x prev h)
      → ((n : Node) → (k n).type ≡ n.type)
      → IsStep v rank R x h (bypassed f F k x prev h)
  step F k c b keeps = record {
    fits = bypass-Fits ready driven b fits;
    ready = bypass-IsReady ready driven b r;
    unread = bypass-IsUnread ready driven b;
    keeps_unread = bypass_keeps-IsUnread ready driven b;
    apart = bypass-IsApart ready driven b r;
    types = after-type F k ready r driven c keeps;
  }

  -- A node that pushes back keeps one fan-in.
  back_one :
      (g : Ptr)
      → R g
      → (n : Node) → view (h g) ≡ view n
      → ((push_back x prev n).inv ≡ 0) × ((p : Ptr) × ((push_back x prev n).fi ≡ p ∷ []))
  unfolding push_back
  back_one g s n e =
      let (none_, (p, only)) = ready.single g s in
      (
        sym (ap (λ (w : View). w.inv) e) ∙ none_,
        push_back-one x prev p n (sym (ap (λ (w : View). w.fi) e) ∙ only),
      )

  inverter_one :
      (g : Ptr)
      → R g
      → (n : Node) → view (h g) ≡ view n
      → (In x (h g).fi → ⊥)
      → ((push_front x prev n).inv ≡ 0) × ((p : Ptr) × ((push_front x prev n).fi ≡ p ∷ []))
  inverter_one g s n e out =
      let (none_, (p, only)) = ready.single g s in
      let same : push_front x prev n ≡ n =
        push_front-absent x prev n (λ m. out (subst (λ (w : View). In x w.fi) (sym e) m)) in
      (
        ap (λ (w : Node). w.inv) same ∙ sym (ap (λ (w : View). w.inv) e) ∙ none_,
        (p, ap (λ (w : Node). w.fi) same ∙ sym (ap (λ (w : View). w.fi) e) ∙ only),
      )

  -- An output is bypassed, and keeps its driver.
  pub bypass_output_lem :
      (h x).type ≡ GateType.output
      → (h' : Heap) × (bypass_output x h ≡ ok h') × IsStep v rank R x h h'
  unfolding bypass_output
  bypass_output_lem is_output =
      let c = back-Changes v R x prev prev_other (driven_fits GateType.output is_output) in
      let F : List Ptr → List Ptr = λ fo. fo ++ (h x).fo in
      let k : Node → Node = λ n. record n { fo = [] } in
      (
        bypassed (λ n. push_back x prev n) F k x prev h,
        rw (bypass_output, driven, ==_ne prev x prev_other) refl,
        step F k c
            (bypassed-IsBypass F k ready r driven c
              (λ g m. inl (In-append_left g (h prev).fo (h x).fo m))
              (λ g m. In-append_right g (h prev).fo (h x).fo m) back_one (fits x)
              (ready.single x r).0 (inr driven))
            (λ n. refl),
      )

  -- A wire, buffer or inverter is removed, if none that is next to an inverter is still to be removed.
  removed-Changes :
      IsApart (λ g. (h g).type) h R
      → (t : GateType) → (h x).type ≡ t
      → (t ≡ GateType.wire) ⊎ ((t ≡ GateType.buf) ⊎ (t ≡ GateType.inv))
      → Changes v R x prev (pusher t x prev)
        × ((g : Ptr)
            → R g
            → (n : Node) → view (h g) ≡ view n
            → ((pusher t x prev n).inv ≡ 0) × ((p : Ptr) × ((pusher t x prev n).fi ≡ p ∷ [])))
  removed-Changes apart t e (inl is_wire) =
      rw is_wire
        (back-Changes v R x prev prev_other (driven_fits GateType.wire (e ∙ is_wire)), back_one)
  removed-Changes apart t e (inr (inl is_buf)) =
      rw is_buf
        (back-Changes v R x prev prev_other (driven_fits GateType.buf (e ∙ is_buf)), back_one)
  removed-Changes apart t e (inr (inr is_inv)) = rw is_inv (
    front-Changes v R x prev prev_other (driven_fits GateType.inv (e ∙ is_inv))
        (λ s. (apart x prev r s (subst (λ ps. In prev ps) (sym driven) (inl refl))).0 (e ∙ is_inv)),
    λ g s n same. inverter_one g s n same (λ m. (apart g x s r m).1 (e ∙ is_inv)),
  )

  removed_fits :
      (t : GateType) (inv : ℕ) → is_removed t ≡ true → FitsGate t (operands v inv []) (v x)
  removed_fits t inv e = elim (removed_types t e) [
    | inl is_wire ↦ rw is_wire tt
    | inr (inl is_buf) ↦ rw is_buf tt
    | inr (inr is_inv) ↦ rw is_inv tt
  ]

  pub remove_node_lem :
      (m : Registry)
      → is_removed (h x).type ≡ true
      → IsApart (λ g. (h g).type) h R
      → (m' : Registry) × (remove_node x (record m { heap = h }) ≡ ok m')
        × IsStep v rank R x h m'.heap
  unfolding remove_node destroy
  remove_node_lem m removed apart =
      let (c, one) = removed-Changes apart (h x).type refl (removed_types (h x).type removed) in
      let F : List Ptr → List Ptr = λ fo. erase_first x fo ++ (h x).fo in
      let k : Node → Node = λ n. destroy n in
      (
        record m {
          heap = bypassed (λ n. pusher (h x).type x prev n) F k x prev h;
          name_to_node = erase_name m.name_to_node (h x).name;
        },
        rw (remove_node, driven, ==_ne prev x prev_other) refl,
        step F k c
            (bypassed-IsBypass F k ready r driven c
              (λ g i. elim (In-erase_first x g (h prev).fo i) [
                | inl stays ↦ inl (In-append_left g (erase_first x (h prev).fo) (h x).fo stays)
                | inr own ↦ inr (own, refl)
              ])
              (λ g i. In-append_right g (erase_first x (h prev).fo) (h x).fo i) one
              (removed_fits (h x).type (h x).inv removed) (ready.single x r).0 (inl refl))
            (λ n. refl),
      )
