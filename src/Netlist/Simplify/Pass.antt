-- ===== src/Netlist/Simplify/Pass.antt =====
-- src/Netlist.h: the two loops of `Simplification` that bypass nodes, whole.
use multi_bit_large_scale_bo.Base.{
  false_not_true, ℕ, ◌≡◌, ◌≢◌, ◌⊎◌, ◌↔◌, refl, sym, ap, subst, ◌∙◌, inl, inr, List, [], ◌∷◌, Bool,
  true, false, Bool-cases, In, IsDistinct, ok,
}
use multi_bit_large_scale_bo.Gate.{GateType}
use multi_bit_large_scale_bo.Netlist.{Ptr, Heap}
use multi_bit_large_scale_bo.Netlist.Registry.{Registry}
use multi_bit_large_scale_bo.Netlist.Simplify.{
  bypass_outputs, is_removed, remove_node, remove_nodes,
}
use multi_bit_large_scale_bo.Netlist.Simplify.Bypass.{
  Fits, IsUnread, IsReady, IsReady_less, Others, IsApart,
}
use multi_bit_large_scale_bo.Netlist.Simplify.Steps.{IsStep, bypass_output_lem, remove_node_lem}

-- The nodes of a list that are to be removed.
abbrev pub Pending : (Ptr → GateType) → List Ptr → Ptr → Type 0
Pending type ps g = In g ps × (is_removed (type g) ≡ true)

other_than : (x g : Ptr) (ps : List Ptr) → (In x ps → ⊥) → In g ps → g ≢ x
other_than x g ps out m e = out (subst (λ q. In q ps) e m)

module _ (v : Ptr → Bool) (rank : Ptr → ℕ) where
  -- On a netlist without a cycle, whose outputs have one fan-in and are not read complemented: the loop of `Simplification` over
  -- the outputs ends, each value that fits its node before fits it afterwards, no node reads an output of the list or comes to read
  -- one that was not read, and the types stay.
  pub bypass_outputs_lem :
      (xs : List Ptr) (h : Heap)
      → IsDistinct xs
      → ((x : Ptr) → In x xs → (h x).type ≡ GateType.output)
      → IsReady h rank (λ g. In g xs)
      → Fits v h
      → (h' : Heap) × (bypass_outputs xs h ≡ ok h')
        × Fits v h'
        × ((z : Ptr) → In z xs ⊎ IsUnread h z → IsUnread h' z)
        × ((g : Ptr) → (h' g).type ≡ (h g).type)
  unfolding bypass_outputs
  bypass_outputs_lem [] h d outputs ready fits =
      (h, refl, fits, λ z m. elim m [ inl n ↦ absurd n | inr n ↦ n ], λ g. refl)
  bypass_outputs_lem (x ∷ xs) h d outputs ready fits =
      let (prev, driven) = (ready.single x (inl refl)).1 in
      let (h₁, e₁, step) =
        bypass_output_lem v x prev fits ready (inl refl) driven (outputs x (inl refl)) in
      let (h₂, e₂, fits₂, unread, types) =
        bypass_outputs_lem xs h₁ d.1 (λ g m. step.types g ∙ outputs g (inr m))
          (IsReady_less (λ g m. (inr m, other_than x g xs d.0 m)) step.ready) step.fits in
      (
        h₂,
        rw (e₁, e₂) refl,
        fits₂,
        λ z m. elim m [
          | inl n ↦ elim n [
            | inl e ↦ unread z (inr (subst (λ q. IsUnread h₁ q) (sym e) step.unread))
            | inr later ↦ unread z (inl later)
          ]
          | inr n ↦ unread z (inr (step.keeps_unread z n))
        ],
        λ g. types g ∙ step.types g,
      )

  -- What the loop over the netlist is to do.
  pub record RemovesAll (type : Ptr → GateType) (ps kept : List Ptr) (h h' : Heap) : Type 0 where
    pub fits : Fits v h'
    pub removed : (z : Ptr) → Pending type ps z ⊎ IsUnread h z → IsUnread h' z
    pub stays : (g : Ptr) → In g kept ↔ In g ps × (is_removed (type g) ≡ false)

  -- The loop removes a node, or keeps it.
  removes :
      (x : Ptr) (ps kept : List Ptr) (m m₁ m₂ : Registry)
      → is_removed (m.heap x).type ≡ true
      → remove_node x m ≡ ok m₁
      → remove_nodes ps m₁ ≡ ok (kept, m₂)
      → remove_nodes (x ∷ ps) m ≡ ok (kept, m₂)
  unfolding remove_nodes
  removes x ps kept m m₁ m₂ is e₁ e₂ = rw (is, e₁, e₂) refl

  keeps :
      (x : Ptr) (ps kept : List Ptr) (m m₂ : Registry)
      → is_removed (m.heap x).type ≡ false
      → remove_nodes ps m ≡ ok (kept, m₂)
      → remove_nodes (x ∷ ps) m ≡ ok (x ∷ kept, m₂)
  unfolding remove_nodes
  keeps x ps kept m m₂ is e = rw (is, e) refl

  removes-RemovesAll :
      (type : Ptr → GateType) (x : Ptr) (ps kept : List Ptr) {R : Ptr → Type 0} {h h₁ h₂ : Heap}
      → is_removed (type x) ≡ true
      → IsStep v rank R x h h₁
      → RemovesAll type ps kept h₁ h₂
      → RemovesAll type (x ∷ ps) kept h h₂
  removes-RemovesAll type x ps kept {h₁ = h₁} gone step all = record {
    fits = all.fits;
    removed = λ z n. elim n [
      | inl (inl e, _) ↦ all.removed z (inr (subst (λ q. IsUnread h₁ q) (sym e) step.unread))
      | inl (inr later, k) ↦ all.removed z (inl (later, k))
      | inr k ↦ all.removed z (inr (step.keeps_unread z k))
    ];
    stays = λ g. (
      λ i. (inr ((all.stays g).0 i).0, ((all.stays g).0 i).1),
      λ (i, k). elim i [
        | inl e ↦ absurd (false_not_true (sym k ∙ ap (λ q. is_removed (type q)) e ∙ gone))
        | inr later ↦ (all.stays g).1 (later, k)
      ],
    );
  }

  keeps-RemovesAll :
      (type : Ptr → GateType) (x : Ptr) (ps kept : List Ptr) {h h₂ : Heap}
      → is_removed (type x) ≡ false
      → RemovesAll type ps kept h h₂
      → RemovesAll type (x ∷ ps) (x ∷ kept) h h₂
  keeps-RemovesAll type x ps kept left all = record {
    fits = all.fits;
    removed = λ z n. elim n [
      | inl (inl e, k) ↦
          absurd (false_not_true (sym left ∙ ap (λ q. is_removed (type q)) (sym e) ∙ k))
      | inl (inr later, k) ↦ all.removed z (inl (later, k))
      | inr k ↦ all.removed z (inr k)
    ];
    stays = λ g. (
      λ i. elim i [
        | inl e ↦ (inl e, ap (λ q. is_removed (type q)) e ∙ left)
        | inr later ↦ (inr ((all.stays g).0 later).0, ((all.stays g).0 later).1)
      ],
      λ (i, k). elim i [ inl e ↦ inl e | inr later ↦ inr ((all.stays g).1 (later, k)) ],
    );
  }

  -- On a netlist without a cycle, whose wires, buffers and inverters have one fan-in and are not read complemented, and where no
  -- inverter is next to one of them: the loop of `Simplification` over `_netlist` ends, each value that fits its node before fits it
  -- afterwards, no node reads a wire, buffer or inverter of the list, and the others of the list stay.
  pub remove_nodes_lem :
      (type : Ptr → GateType) (ps : List Ptr) (m : Registry)
      → IsDistinct ps
      → ((g : Ptr) → (m.heap g).type ≡ type g)
      → IsReady m.heap rank (Pending type ps)
      → IsApart type m.heap (Pending type ps)
      → Fits v m.heap
      → (kept : List Ptr) × (m' : Registry) × (remove_nodes ps m ≡ ok (kept, m'))
        × RemovesAll type ps kept m.heap m'.heap
  unfolding remove_nodes
  remove_nodes_lem type [] m d types ready apart fits = (
    [],
    m,
    refl,
    record {
      fits = fits;
      removed = λ z n. elim n [ inl (i, _) ↦ absurd i | inr k ↦ k ];
      stays = λ g. (λ i. absurd i, λ (i, _). i);
    },
  )
  remove_nodes_lem type (x ∷ ps) m d types ready apart fits =
      elim (Bool-cases (is_removed (type x))) [
        | inl gone ↦
            let r : Pending type (x ∷ ps) x = (inl refl, gone) in
            let is : is_removed (m.heap x).type ≡ true = ap (λ t. is_removed t) (types x) ∙ gone in
            let (prev, driven) = (ready.single x r).1 in
            let (m₁, e₁, step) = remove_node_lem v x prev fits ready r driven m is (λ g p s t i. (
              λ e. (apart g p s t i).0 (sym (types g) ∙ e),
              λ e. (apart g p s t i).1 (sym (types p) ∙ e),
            )) in
            let fewer : (g : Ptr) → Pending type ps g → Others (Pending type (x ∷ ps)) x g =
              λ g (i, k). ((inr i, k), other_than x g ps d.0 i) in
            let (kept, m₂, e₂, all) =
              remove_nodes_lem type ps m₁ d.1 (λ g. step.types g ∙ types g)
                (IsReady_less fewer step.ready)
                (λ g p s t i. step.apart type apart g p (fewer g s) (fewer p t) i) step.fits in
            (
              kept,
              m₂,
              removes x ps kept m m₁ m₂ is e₁ e₂,
              removes-RemovesAll type x ps kept gone step all,
            )
        | inr left ↦
            let fewer : (g : Ptr) → Pending type ps g → Pending type (x ∷ ps) g =
              λ g (i, k). (inr i, k) in
            let (kept, m₂, e₂, all) =
              remove_nodes_lem type ps m d.1 types (IsReady_less fewer ready)
                (λ g p s t i. apart g p (fewer g s) (fewer p t) i) fits in
            (
              x ∷ kept,
              m₂,
              keeps x ps kept m m₂ (ap (λ t. is_removed t) (types x) ∙ left) e₂,
              keeps-RemovesAll type x ps kept left all,
            )
      ]
