-- ===== src/Netlist/Simplify/Linked.antt =====
-- src/Netlist.h: `Link`, which chains the ports of one name.
use multi_bit_large_scale_bo.Base.{
  ℕ, ◌≡◌, ◌⊎◌, refl, ap, ◌∙◌, inl, inr, List, [], ◌∷◌, length, ◌==◌, ==_ne, ==_refl, ==_iff,
  Bool-cases, In, IsDistinct,
}
use multi_bit_large_scale_bo.Netlist.{Ptr, Node, Heap}
use multi_bit_large_scale_bo.Netlist.Registry.{modify}
use multi_bit_large_scale_bo.Netlist.Simplify.{link_neighbours, set_heads, link}

-- Neighbours in the list are linked with each other.
abbrev pub IsChain : Heap → List Ptr → Type 0
IsChain h [] = Unit
IsChain h (p ∷ []) = Unit
IsChain h (p ∷ q ∷ ps) = ((h p).link_right ≡ q) × ((h q).link_left ≡ p) × IsChain h (q ∷ ps)

link_neighbours-other :
    (ps : List Ptr) (h : Heap) (g : Ptr) → (In g ps → ⊥) → link_neighbours ps h g ≡ h g
unfolding link_neighbours
link_neighbours-other [] h g n = refl
link_neighbours-other (p ∷ []) h g n = refl
link_neighbours-other (p ∷ q ∷ ps) h g n =
    link_neighbours-other (q ∷ ps) _ g (λ m. n (inr m))
    ∙ rw (==_ne g q (λ e. n (inr (inl e))), ==_ne g p (λ e. n (inl e))) refl

-- The first of the list keeps the link to its left.
link_neighbours_first :
    (p : Ptr) (ps : List Ptr) (h : Heap)
    → (In p ps → ⊥)
    → (link_neighbours (p ∷ ps) h p).link_left ≡ (h p).link_left
unfolding link_neighbours
link_neighbours_first p [] h n = refl
link_neighbours_first p (q ∷ ps) h n =
    ap (λ (x : Node). x.link_left) (link_neighbours-other (q ∷ ps) _ p n)
    ∙ rw (==_ne p q (λ e. n (inl e)), ==_refl p) refl

link_neighbours-IsChain :
    (ps : List Ptr) (h : Heap) → IsDistinct ps → IsChain (link_neighbours ps h) ps
unfolding link_neighbours
link_neighbours-IsChain [] h d = tt
link_neighbours-IsChain (p ∷ []) h d = tt
link_neighbours-IsChain (p ∷ q ∷ ps) h (out, d) = (
  ap (λ (x : Node). x.link_right) (link_neighbours-other (q ∷ ps) _ p out)
      ∙ rw (==_ne p q (λ e. out (inl e)), ==_refl p) refl,
  link_neighbours_first q ps _ d.0 ∙ rw (==_refl q) refl,
  link_neighbours-IsChain (q ∷ ps) _ d,
)

-- The links stay, and each port of the list gets the head and the length.
set_heads_lem :
    (first : Ptr) (len : ℕ) (ps : List Ptr) (h : Heap) (g : Ptr)
    → ((set_heads first len ps h g).link_left ≡ (h g).link_left)
      × ((set_heads first len ps h g).link_right ≡ (h g).link_right)
      × (In g ps ⊎ (((h g).head ≡ first) × ((h g).bit_len ≡ len))
          → ((set_heads first len ps h g).head ≡ first)
            × ((set_heads first len ps h g).bit_len ≡ len))
unfolding set_heads
set_heads_lem first len [] h g = (refl, refl, λ m. elim m [ inl n ↦ absurd n | inr k ↦ k ])
set_heads_lem first len (p ∷ ps) h g =
    let h₁ : Heap = modify (λ n. record n { head = first; bit_len = len }) p h in
    let (left, right, heads) = set_heads_lem first len ps h₁ g in
    elim (Bool-cases (g == p)) [
      | inl e ↦ (left ∙ rw e refl, right ∙ rw e refl, λ _. heads (inr (rw e (refl, refl))))
      | inr e ↦ (
        left ∙ rw e refl,
        right ∙ rw e refl,
        λ m. heads (elim m [
          | inl (inl same) ↦ inr (rw ((==_iff g p).1 same) (refl, refl))
          | inl (inr later) ↦ inl later
          | inr k ↦ inr (rw e k)
        ]),
      )
    ]

IsChain-same :
    (h h' : Heap) (ps : List Ptr)
    → ((g : Ptr) → (h' g).link_left ≡ (h g).link_left)
    → ((g : Ptr) → (h' g).link_right ≡ (h g).link_right)
    → IsChain h ps
    → IsChain h' ps
IsChain-same h h' [] l r c = tt
IsChain-same h h' (p ∷ []) l r c = tt
IsChain-same h h' (p ∷ q ∷ ps) l r (a, b, c) = (r p ∙ a, l q ∙ b, IsChain-same h h' (q ∷ ps) l r c)

-- `Link` of distinct ports links neighbours with each other, and gives each the first of them as its head and their number as its length.
pub link_lem :
    (p : Ptr) (ps : List Ptr) (h : Heap)
    → IsDistinct (p ∷ ps)
    → IsChain (link (p ∷ ps) h) (p ∷ ps)
      × ((g : Ptr)
          → In g (p ∷ ps)
          → ((link (p ∷ ps) h g).head ≡ p) × ((link (p ∷ ps) h g).bit_len ≡ length (p ∷ ps)))
unfolding link
link_lem p ps h d =
    let h₁ : Heap = link_neighbours (p ∷ ps) h in
    let heads = set_heads_lem p (length (p ∷ ps)) (p ∷ ps) h₁ in
    (
      IsChain-same h₁ (set_heads p (length (p ∷ ps)) (p ∷ ps) h₁) (p ∷ ps) (λ g. (heads g).0)
          (λ g. (heads g).1) (link_neighbours-IsChain (p ∷ ps) h d),
      λ g m. (heads g).2 (inl m),
    )
