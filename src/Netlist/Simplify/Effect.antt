-- ===== src/Netlist/Simplify/Effect.antt =====
-- src/Netlist.h: the loops of `Simplification` over the fan-outs of a node bypass it.
use native.Mathlib.Decide.{ℕ_discrete}
use multi_bit_large_scale_bo.Base.{
  ℕ, ◌≤◌, ◌≡◌, ◌≢◌, ◌⊎◌, refl, sym, ap, subst, ◌∙◌, inl, inr, arith, List, [], ◌∷◌, length, Bool,
  ◌==◌, ==_ne, ==_iff, ==_refl, Bool-cases, In, In-or_not,
}
use multi_bit_large_scale_bo.Netlist.{Ptr, Node, Heap}
use multi_bit_large_scale_bo.Netlist.Registry.{modify}
use multi_bit_large_scale_bo.Netlist.Simplify.{fix_next}
use multi_bit_large_scale_bo.Netlist.Simplify.Counts.{front}
use multi_bit_large_scale_bo.Netlist.Simplify.Push.{View, view, FitsNode, IsPush}
use multi_bit_large_scale_bo.Netlist.Simplify.Bypass.{IsReady, IsBypass}

module _ (f : Node → Node) (again : (n : Node) → f (f n) ≡ f n) where
  -- The fan-outs are changed once, however often they are met, and nothing else is.
  fix_next_lem :
      (outs : List Ptr) (h : Heap) (g : Ptr)
      → (In g outs → fix_next f outs h g ≡ f (h g)) × ((In g outs → ⊥) → fix_next f outs h g ≡ h g)
  unfolding fix_next
  fix_next_lem [] h g = (λ m. absurd m, λ n. refl)
  fix_next_lem (out ∷ outs) h g =
      let (met, missed) = fix_next_lem outs (modify f out h) g in
      (
        λ m. elim (In-or_not g outs) [
          | inl later ↦
              met later
              ∙ elim (Bool-cases (g == out)) [ inl e ↦ rw e (again (h g)) | inr e ↦ rw e refl ]
          | inr never ↦
              missed never
              ∙ elim m [ inl e ↦ rw ((==_iff g out).1 e) refl | inr later ↦ absurd (never later) ]
        ],
        λ n. missed (λ m. n (inr m)) ∙ rw (==_ne g out (λ e. n (inl e))) refl,
      )

-- The netlist after the bypass: the fan-outs of `prev` become `F` of them, `f` fixes the fan-outs of `x`, and `k` changes `x`.
abbrev pub bypassed :
    (Node → Node) → (List Ptr → List Ptr) → (Node → Node) → Ptr → Ptr → Heap → Heap
bypassed f F k x prev h =
    modify k x (fix_next f (h x).fo (modify (λ n. record n { fo = F n.fo }) prev h))

-- What the change `f` of a node that reads `x` is to do.
pub record Changes (v : Ptr → Bool) (R : Ptr → Type 0) (x prev : Ptr) (f : Node → Node)
    : Type 0 where
  pub absent : (n : Node) → (In x n.fi → ⊥) → f n ≡ n
  pub gone : (n : Node) → In x (f n).fi → ⊥
  pub keeps_fo : (n : Node) → (f n).fo ≡ n.fo
  pub keeps_type : (n : Node) → (f n).type ≡ n.type
  pub push :
      (n : Node)
      → (In x (front n.inv n.fi) → ⊥)
      → n.inv ≤ length n.fi
      → IsPush v R x prev (view n) (view (f n))

module _ {v : Ptr → Bool} {R : Ptr → Type 0} {x prev : Ptr} {h : Heap} {rank : Ptr → ℕ}
    {f : Node → Node} (F : List Ptr → List Ptr) (k : Node → Node) (ready : IsReady h rank R)
    (r : R x) (drives : (h x).fi ≡ prev ∷ []) (c : Changes v R x prev f) where
  abbrev pub given_fo : Heap
  given_fo = modify (λ n. record n { fo = F n.fo }) prev h

  same_view : (g : Ptr) → view (h g) ≡ view (given_fo g)
  same_view g = elim (Bool-cases (g == prev)) [ inl e ↦ rw e refl | inr e ↦ rw e refl ]

  fixed : (g : Ptr) → fix_next f (h x).fo given_fo g ≡ f (given_fo g)
  fixed g = elim (In-or_not g (h x).fo) [
    | inl m ↦ (fix_next_lem f again (h x).fo given_fo g).0 m
    | inr n ↦
        (fix_next_lem f again (h x).fo given_fo g).1 n
        ∙ sym (
            c.absent (given_fo g)
              (λ m. n (ready.mirrored g x (subst (λ (w : View). In x w.fi) (sym (same_view g)) m))))
  ]
    where
      again : (n : Node) → f (f n) ≡ f n
      again n = c.absent (f n) (c.gone n)

  abbrev pub after : Heap
  after = bypassed f F k x prev h

  after_other : (g : Ptr) → g ≢ x → after g ≡ f (given_fo g)
  after_other g n = rw (==_ne g x n) (fixed g)

  not_own : In x (h x).fi → ⊥
  not_own m = omega (arith, ready.ranked x x m)

  pub prev_other : prev ≢ x
  prev_other e = not_own (subst (λ ps. In x ps) (sym drives) (inl (sym e)))

  -- `x` itself, with what `k` makes of it.
  pub after_own : after x ≡ k (h x)
  after_own = rw (==_refl x) (
      ap k (
        fixed x
        ∙ c.absent (given_fo x)
            (λ m. not_own (subst (λ (w : View). In x w.fi) (sym (same_view x)) m))
        ∙ rw (==_ne x prev (λ e. prev_other (sym e))) refl))

  pushed : (g : Ptr) → g ≢ x → IsPush v R x prev (view (h g)) (view (after g))
  pushed g n =
      subst (λ (w : View). IsPush v R x prev w (view (after g))) (sym (same_view g))
        (subst (λ (m : Node). IsPush v R x prev (view (given_fo g)) (view m))
          (sym (after_other g n))
          (c.push (given_fo g)
            (subst (λ (w : View). In x (front w.inv w.fi) → ⊥) (same_view g) (ready.direct g x r))
            (subst (λ (w : View). w.inv ≤ length w.fi) (same_view g) (ready.enough g))))

  fo_of : (g : Ptr) → g ≢ x → (after g).fo ≡ (given_fo g).fo
  fo_of g n = ap (λ (m : Node). m.fo) (after_other g n) ∙ c.keeps_fo (given_fo g)

  pub after-type : ((n : Node) → (k n).type ≡ n.type) → (g : Ptr) → (after g).type ≡ (h g).type
  after-type keeps g = elim (ℕ_discrete g x) [
    | yes e ↦
        ap (λ q. (after q).type) e
        ∙ ap (λ (m : Node). m.type) after_own
        ∙ keeps (h x)
        ∙ sym (ap (λ q. (h q).type) e)
    | no n ↦
        ap (λ (m : Node). m.type) (after_other g n)
        ∙ c.keeps_type (given_fo g)
        ∙ sym (ap (λ (w : View). w.type) (same_view g))
  ]

  fo_prev : (after prev).fo ≡ F (h prev).fo
  fo_prev = fo_of prev prev_other ∙ rw (==_refl prev) refl

  -- The bypass, if the fan-outs of `x` go to `prev`, and `k` leaves `x` fitting and with the fan-in it had or none.
  pub bypassed-IsBypass :
      ((g : Ptr) → In g (h prev).fo → In g (F (h prev).fo) ⊎ ((g ≡ x) × ((k (h x)).fi ≡ [])))
      → ((g : Ptr) → In g (h x).fo → In g (F (h prev).fo))
      → ((g : Ptr)
          → R g
          → (n : Node) → view (h g) ≡ view n
          → ((f n).inv ≡ 0) × ((p : Ptr) × ((f n).fi ≡ p ∷ [])))
      → FitsNode v (view (k (h x))) (v x)
      → (k (h x)).inv ≡ 0
      → ((k (h x)).fi ≡ []) ⊎ ((k (h x)).fi ≡ prev ∷ [])
      → IsBypass v R x prev h after
  bypassed-IsBypass keeps gives one fit inv_ fi_ = record {
    pushed = pushed;
    single = λ g s n.
        subst (λ (m : Node). (m.inv ≡ 0) × ((p : Ptr) × (m.fi ≡ p ∷ []))) (sym (after_other g n))
          (one g s (given_fo g) (same_view g));
    fits = subst (λ (m : Node). FitsNode v (view m) (v x)) (sym after_own) fit;
    inv = subst (λ (m : Node). m.inv ≡ 0) (sym after_own) inv_;
    fi = subst (λ (m : Node). (m.fi ≡ []) ⊎ (m.fi ≡ prev ∷ [])) (sym after_own) fi_;
    kept = λ g p m n. elim (ℕ_discrete p prev) [
      | yes e ↦ elim (keeps g (subst (λ q. In g (h q).fo) e m)) [
        | inl i ↦
            inl (subst (λ q. In g (after q).fo) (sym e) (subst (λ ps. In g ps) (sym fo_prev) i))
        | inr (own, empty) ↦ inr (own, subst (λ (m : Node). m.fi ≡ []) (sym after_own) empty)
      ]
      | no other ↦ inl (subst (λ ps. In g ps) (sym (fo_of p n ∙ rw (==_ne p prev other) refl)) m)
    ];
    given = λ g m. subst (λ ps. In g ps) (sym fo_prev) (gives g m);
  }
