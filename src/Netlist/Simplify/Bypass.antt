-- ===== src/Netlist/Simplify/Bypass.antt =====
-- src/Netlist.h: what `Simplification` keeps true of a netlist when it bypasses one node.
use native.Mathlib.Decide.{ℕ_discrete}
use multi_bit_large_scale_bo.Base.{
  ℕ, ◌≤◌, ◌<◌, ◌≡◌, ◌≢◌, ◌⊎◌, refl, sym, ap, subst, ◌∙◌, inl, inr, arith, [], ◌∷◌, length, Bool, In,
}
use multi_bit_large_scale_bo.Gate.{GateType}
use multi_bit_large_scale_bo.Netlist.{Ptr, Heap}
use multi_bit_large_scale_bo.Netlist.Simplify.Counts.{front}
use multi_bit_large_scale_bo.Netlist.Simplify.Push.{view, FitsNode, IsPush}

-- Each value of `v` fits its node.
abbrev pub Fits : (Ptr → Bool) → Heap → Type 0
Fits v h = (g : Ptr) → FitsNode v (view (h g)) (v g)

-- No node reads it.
abbrev pub IsUnread : Heap → Ptr → Type 0
IsUnread h x = (g : Ptr) → In x (h g).fi → ⊥

-- A netlist without a cycle, where every fan-in has the fan-out. The nodes of `R` have one fan-in, and are not read
-- complemented.
pub record IsReady (h : Heap) (rank : Ptr → ℕ) (R : Ptr → Type 0) : Type 0 where
  pub ranked : (g p : Ptr) → In p (h g).fi → rank p < rank g
  pub single : (g : Ptr) → R g → ((h g).inv ≡ 0) × ((p : Ptr) × ((h g).fi ≡ p ∷ []))
  pub direct : (g x : Ptr) → R x → In x (front (h g).inv (h g).fi) → ⊥
  pub enough : (g : Ptr) → (h g).inv ≤ length (h g).fi
  pub mirrored : (g p : Ptr) → In p (h g).fi → In g (h p).fo

abbrev pub Others : (Ptr → Type 0) → Ptr → Ptr → Type 0
Others R x g = R g × (g ≢ x)

-- `x` is bypassed: each other node reads `prev` in its place.
pub record IsBypass (v : Ptr → Bool) (R : Ptr → Type 0) (x prev : Ptr) (h h' : Heap) : Type 0 where
  pub pushed : (g : Ptr) → g ≢ x → IsPush v R x prev (view (h g)) (view (h' g))
  pub single : (g : Ptr) → R g → g ≢ x → ((h' g).inv ≡ 0) × ((p : Ptr) × ((h' g).fi ≡ p ∷ []))
  pub fits : FitsNode v (view (h' x)) (v x)
  pub inv : (h' x).inv ≡ 0
  pub fi : ((h' x).fi ≡ []) ⊎ ((h' x).fi ≡ prev ∷ [])
  pub kept : (g p : Ptr) → In g (h p).fo → p ≢ x → In g (h' p).fo ⊎ ((g ≡ x) × ((h' x).fi ≡ []))
  pub given : (g : Ptr) → In g (h x).fo → In g (h' prev).fo

-- No inverter is next to a node of `R`, as one of `R`.
abbrev pub IsApart : (Ptr → GateType) → Heap → (Ptr → Type 0) → Type 0
IsApart type h R =
    (g p : Ptr) → R g → R p → In p (h g).fi → (type g ≢ GateType.inv) × (type p ≢ GateType.inv)

pub IsReady_less :
    {h : Heap} {rank : Ptr → ℕ} {R S : Ptr → Type 0}
    → ((g : Ptr) → S g → R g)
    → IsReady h rank R
    → IsReady h rank S
IsReady_less fewer r = record {
  ranked = r.ranked;
  single = λ g s. r.single g (fewer g s);
  direct = λ g x s. r.direct g x (fewer x s);
  enough = r.enough;
  mirrored = r.mirrored;
}

module _ {v : Ptr → Bool} {R : Ptr → Type 0} {x prev : Ptr} {h h' : Heap} {rank : Ptr → ℕ}
    (ready : IsReady h rank R) (drives : (h x).fi ≡ prev ∷ []) (b : IsBypass v R x prev h h') where
  reads_prev : In prev (h x).fi
  reads_prev = subst (λ ps. In prev ps) (sym drives) (inl refl)

  prev_other : prev ≢ x
  prev_other e = omega (arith, ready.ranked x prev reads_prev, ap rank e)

  -- What `x` reads afterwards.
  own_fi : (p : Ptr) → In p (h' x).fi → (p ≡ prev) × (((h' x).fi ≡ []) → ⊥)
  own_fi p m = elim b.fi [
    | inl e ↦ absurd (subst (λ ps. In p ps) e m)
    | inr e ↦ elim (subst (λ ps. In p ps) e m) [
      | inl same ↦ (same, λ empty. apart (sym e ∙ empty))
      | inr n ↦ absurd n
    ]
  ]
    where
      apart : prev ∷ [] ≡ [] → ⊥
      apart e = cc

  pub bypass-Fits : Fits v h → Fits v h'
  bypass-Fits fit g = elim (ℕ_discrete g x) [
    | yes e ↦ subst (λ p. FitsNode v (view (h' p)) (v p)) (sym e) b.fits
    | no n ↦ (b.pushed g n).fits (v g) (fit g)
  ]

  new_fi :
      (g p : Ptr)
      → In p (h' g).fi
      → ((g ≢ x) × (In p (h g).fi × (p ≢ x)))
        ⊎ (((g ≢ x) × ((p ≡ prev) × In x (h g).fi))
            ⊎ ((g ≡ x) × ((p ≡ prev) × (((h' x).fi ≡ []) → ⊥))))
  new_fi g p m = elim (ℕ_discrete g x) [
    | yes e ↦ inr (inr (e, own_fi p (subst (λ q. In p (h' q).fi) e m)))
    | no n ↦ elim ((b.pushed g n).members p m) [ inl a ↦ inl (n, a) | inr a ↦ inr (inl (n, a)) ]
  ]

  bypass-ranked : (g p : Ptr) → In p (h' g).fi → rank p < rank g
  bypass-ranked g p m = elim (new_fi g p m) [
    | inl (_, (old, _)) ↦ ready.ranked g p old
    | inr (inl (_, (e, reads))) ↦
        omega (arith, ap rank e, ready.ranked x prev reads_prev, ready.ranked g x reads)
    | inr (inr (own, (e, _))) ↦
        omega (arith, ap rank e, ap rank own, ready.ranked x prev reads_prev)
  ]

  bypass-mirrored : (g p : Ptr) → In p (h' g).fi → In g (h' p).fo
  bypass-mirrored g p m = elim (new_fi g p m) [
    | inl (n, (old, other)) ↦ elim (b.kept g p (ready.mirrored g p old) other) [
      | inl k ↦ k
      | inr (e, _) ↦ absurd (n e)
    ]
    | inr (inl (n, (e, reads))) ↦
        subst (λ q. In g (h' q).fo) (sym e) (b.given g (ready.mirrored g x reads))
    | inr (inr (own, (e, some_left))) ↦
        elim (b.kept x prev (ready.mirrored x prev reads_prev) prev_other) [
          | inl k ↦ subst (λ q. In g (h' q).fo) (sym e) (subst (λ q. In q (h' prev).fo) (sym own) k)
          | inr (_, empty) ↦ absurd (some_left empty)
        ]
  ]

  pub bypass-IsReady : R x → IsReady h' rank (Others R x)
  bypass-IsReady r = record {
    ranked = bypass-ranked;
    single = λ g (s, n). b.single g s n;
    direct = λ g y (s, _) m. elim (ℕ_discrete g x) [
      | yes e ↦
          subst (λ k. In y (front k (h' x).fi)) b.inv
            (subst (λ q. In y (front (h' q).inv (h' q).fi)) e m)
      | no n ↦ (b.pushed g n).direct y s (ready.direct g y s) m
    ];
    enough = λ g. elim (ℕ_discrete g x) [
      | yes e ↦ omega (arith, ap (λ q. (h' q).inv) e, b.inv)
      | no n ↦ (b.pushed g n).enough
    ];
    mirrored = bypass-mirrored;
  }

  -- No node reads `x` any more, nor any node that was not read before.
  pub bypass-IsUnread : IsUnread h' x
  bypass-IsUnread g m = elim (new_fi g x m) [
    | inl (_, (_, other)) ↦ other refl
    | inr (inl (_, (e, _))) ↦ prev_other (sym e)
    | inr (inr (_, (e, _))) ↦ prev_other (sym e)
  ]

  pub bypass_keeps-IsUnread : (z : Ptr) → IsUnread h z → IsUnread h' z
  bypass_keeps-IsUnread z none_ g m = elim (new_fi g z m) [
    | inl (_, (old, _)) ↦ none_ g old
    | inr (inl (_, (e, _))) ↦ none_ x (subst (λ q. In q (h x).fi) (sym e) reads_prev)
    | inr (inr (_, (e, _))) ↦ none_ x (subst (λ q. In q (h x).fi) (sym e) reads_prev)
  ]

  pub bypass-IsApart :
      R x → (type : Ptr → GateType) → IsApart type h R → IsApart type h' (Others R x)
  bypass-IsApart r type apart g p (s, n) (t, _) m = elim (new_fi g p m) [
    | inl (_, (old, _)) ↦ apart g p s t old
    | inr (inl (_, (e, reads))) ↦
        ((apart g x s r reads).0, (apart x p r t (subst (λ q. In q (h x).fi) (sym e) reads_prev)).1)
    | inr (inr (own, _)) ↦ absurd (n own)
  ]
