-- ===== src/Netlist/Trace/Support.antt =====
-- src/Netlist.h: `TraceInputs` finds the inputs that an output reaches, and its value depends on no others.
use multi_bit_large_scale_bo.Base.{
  ℕ, zero, suc, ◌<◌, ◌≡◌, ◌≢◌, ◌↔◌, refl, sym, ap, ◌∙◌, subst, ◌⊎◌, inl, inr, arith, List, [], ◌∷◌,
  ◌++◌, map, Bool, true, false, In, In-append, In-append_left, In-append_right, All, All-map, Run,
  ok,
}
use multi_bit_large_scale_bo.Base.Int.{ℤ, pos, negsuc}
use multi_bit_large_scale_bo.Base.Sets.{IsLinear}
use multi_bit_large_scale_bo.Gate.{GateType, gate_function, complement}
use multi_bit_large_scale_bo.Netlist.{Ptr, Heap}
use multi_bit_large_scale_bo.Netlist.Meaning.{Assignment, value, IsAcyclic}
use multi_bit_large_scale_bo.Netlist.Trace.{less_ℤ, collect_fan_ins, collect_pi}

pub less_ℤ-IsLinear : IsLinear less_ℤ
less_ℤ-IsLinear = record { connected = λ a b. both a b; transitive = λ a b c. three a b c }
  where
    both : (a b : ℤ) → less_ℤ a b ≡ false → less_ℤ b a ≡ false → a ≡ b
    both (pos a) (pos b) e f = ground arith
    both (pos a) (negsuc b) e f = cc
    both (negsuc a) (pos b) e f = cc
    both (negsuc a) (negsuc b) e f = ground arith

    three : (a b c : ℤ) → less_ℤ a b ≡ true → less_ℤ b c ≡ true → less_ℤ a c ≡ true
    three (pos a) (pos b) (pos c) e f = ground arith
    three (pos a) (pos b) (negsuc c) e f = cc
    three (pos a) (negsuc b) c e f = cc
    three (negsuc a) (pos b) (pos c) e f = refl
    three (negsuc a) (pos b) (negsuc c) e f = cc
    three (negsuc a) (negsuc b) (pos c) e f = refl
    three (negsuc a) (negsuc b) (negsuc c) e f = ground arith

-- The nodes that a node reaches through gates.
pub data Reaches (h : Heap) : Ptr → Ptr → Type 0 where
  here : (g : Ptr) → Reaches h g g
  through :
      (g p q : Ptr) → (h g).type ≢ GateType.input → In p (h g).fi → Reaches h p q → Reaches h g q

first_step :
    {h : Heap} (g q : Ptr)
    → (h g).type ≢ GateType.input
    → (h q).type ≡ GateType.input
    → Reaches h g q
    → (p : Ptr) × In p (h g).fi × Reaches h p q
first_step g q gate is_input (here _) = absurd (gate is_input)
first_step g q gate is_input (through _ p _ n m r) = (p, m, r)

-- An input with the index `i` that `g` reaches.
abbrev pub IsSupport : Heap → Ptr → ℤ → Type 0
IsSupport h g i = (q : Ptr) × Reaches h g q × ((h q).type ≡ GateType.input) × ((h q).idx ≡ i)

abbrev IsFanInSupport : Heap → List Ptr → ℤ → Type 0
IsFanInSupport h ps i = (p : Ptr) × In p ps × IsSupport h p i

module _ {h : Heap} {rank : Ptr → ℕ} {depth : ℕ} (net : IsAcyclic h rank depth) where
  -- The call appends the indices of the inputs that are reached.
  abbrev pub Collects : (List ℤ → Run (List ℤ)) → (ℤ → Type 0) → Type 0
  Collects f P =
      (acc : List ℤ) → (is : List ℤ) × (f acc ≡ ok is) × ((i : ℤ) → In i is ↔ In i acc ⊎ P i)

  collect_fan_ins_lem :
      (go : Ptr → List ℤ → Run (List ℤ)) (ps : List Ptr)
      → All (λ p. Collects (go p) (IsSupport h p)) ps
      → Collects (collect_fan_ins go ps) (IsFanInSupport h ps)
  unfolding collect_fan_ins
  collect_fan_ins_lem go [] all acc =
      (acc, refl, λ i. (λ m. inl m, λ m. elim m [ inl n ↦ n | inr n ↦ absurd n.1 ]))
  collect_fan_ins_lem go (p ∷ ps) (first, rest) acc =
      let (is, e, has) = first acc in
      let (js, f, have) = collect_fan_ins_lem go ps rest is in
      (
        js,
        rw e f,
        λ i. (
          λ m. elim ((have i).0 m) [
            | inl n ↦ elim ((has i).0 n) [ inl k ↦ inl k | inr s ↦ inr (p, inl refl, s) ]
            | inr (q, k, s) ↦ inr (q, inr k, s)
          ],
          λ m. elim m [
            | inl n ↦ (have i).1 (inl ((has i).1 (inl n)))
            | inr (q, inl k, s) ↦
                (have i).1 (inl ((has i).1 (inr (subst (λ (r : Ptr). IsSupport h r i) k s))))
            | inr (q, inr k, s) ↦ (have i).1 (inr (q, k, s))
          ],
        ),
      )

  -- One node, whose type is `t`.
  collect_node :
      (go : Ptr → List ℤ → Run (List ℤ)) (g : Ptr) (t : GateType)
      → (h g).type ≡ t
      → Collects (collect_fan_ins go (h g).fi) (IsFanInSupport h (h g).fi)
      → Collects
          (λ acc. elim t [
            | GateType.input ↦ ok (acc ++ (h g).idx ∷ [])
            | t' ↦ collect_fan_ins go (h g).fi acc
          ])
          (IsSupport h g)
  collect_node go g GateType.input is_input fan_ins acc = (
    acc ++ (h g).idx ∷ [],
    refl,
    λ i. (
      λ m. elim (In-append i acc ((h g).idx ∷ []) m) [
        | inl n ↦ inl n
        | inr (inl e) ↦ inr (g, here g, is_input, sym e)
        | inr (inr n) ↦ absurd n
      ],
      λ m. elim m [
        | inl n ↦ In-append_left i acc ((h g).idx ∷ []) n
        | inr (q, r, _, e) ↦
            In-append_right i acc ((h g).idx ∷ []) (inl (sym e ∙ ap (λ x. (h x).idx) (only q r)))
      ],
    ),
  )
    where
      only : (q : Ptr) → Reaches h g q → q ≡ g
      only q (here _) = refl
      only q (through _ p _ n m r) = absurd (n is_input)
  collect_node go g t other fan_ins acc =
      let (is, e, has) = fan_ins acc in
      (
        is,
        e,
        λ i. (
          λ m. elim ((has i).0 m) [
            | inl n ↦ inl n
            | inr (p, k, (q, r, is_input, s)) ↦ inr (q, through g p q (λ f. cc) k r, is_input, s)
          ],
          λ m. elim m [
            | inl n ↦ (has i).1 (inl n)
            | inr (q, r, is_input, s) ↦
                let (p, k, r') = first_step g q (λ f. cc) is_input r in
                (has i).1 (inr (p, k, (q, r', is_input, s)))
          ],
        ),
      )

  -- `CollectPI` appends the indices of the inputs that the node reaches.
  pub collect_pi_lem :
      (fuel : ℕ) (g : Ptr) → rank g < fuel → Collects (collect_pi fuel h g) (IsSupport h g)
  unfolding collect_pi
  collect_pi_lem zero g less = absurd (omega arith)
  collect_pi_lem (suc fuel) g less =
      collect_node (λ p acc. collect_pi fuel h p acc) g (h g).type refl
        (collect_fan_ins_lem (λ p acc. collect_pi fuel h p acc) (h g).fi
          (All-map (h g).fi (λ p r. collect_pi_lem fuel p (omega (arith, r.1))) (net.wired g)))

  -- The value of a node depends on the inputs that it reaches alone.
  pub value-Reaches :
      (d : ℕ) (ρ σ : Assignment) (g : Ptr)
      → ((q : Ptr) → Reaches h g q → (h q).type ≡ GateType.input → ρ q ≡ σ q)
      → value d h ρ g ≡ value d h σ g
  unfolding value
  value-Reaches zero ρ σ g same = refl
  value-Reaches (suc d) ρ σ g same = node (h g).type refl (λ p share. value-Reaches d ρ σ p share)
    where
      vs :
          (ps : List Ptr)
          → ((p : Ptr)
              → ((q : Ptr) → Reaches h p q → (h q).type ≡ GateType.input → ρ q ≡ σ q)
              → value d h ρ p ≡ value d h σ p)
          → ((p : Ptr) → In p ps → In p (h g).fi)
          → (h g).type ≢ GateType.input
          → map (λ p. value d h ρ p) ps ≡ map (λ p. value d h σ p) ps
      vs [] go inside gate = refl
      vs (p ∷ ps) go inside gate = λ i.
          go p (λ q r is_input. same q (through g p q gate (inside p (inl refl)) r) is_input) i
          ∷ vs ps go (λ q m. inside q (inr m)) gate i

      node :
          (t : GateType)
          → (h g).type ≡ t
          → ((p : Ptr)
              → ((q : Ptr) → Reaches h p q → (h q).type ≡ GateType.input → ρ q ≡ σ q)
              → value d h ρ p ≡ value d h σ p)
          → elim t as (λ t'. Bool) [
            | GateType.input ↦ ρ g
            | t' ↦ gate_function t' (complement (h g).inv (map (λ p. value d h ρ p) (h g).fi))
          ]
            ≡ elim t as (λ t'. Bool) [
              | GateType.input ↦ σ g
              | t' ↦ gate_function t' (complement (h g).inv (map (λ p. value d h σ p) (h g).fi))
            ]
      node GateType.input e go = same g (here g) e
      node t e go =
          ap (λ bs. gate_function t (complement (h g).inv bs)) (vs (h g).fi go (λ p m. m) (λ f. cc))
