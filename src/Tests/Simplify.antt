-- ===== src/Tests/Simplify.antt =====
-- The input n1, an inverter, an output that it drives, and a second output that the first one drives.
use multi_bit_large_scale_bo.Base.{
  false_not_true, ℕ, zero, suc, ◌<◌, ◌≡◌, ◌⊎◌, refl, sym, ap, ◌∙◌, inl, inr, List, [], ◌∷◌, Bool,
  true, false, ltb, if◌then◌else◌, some, arith, In, Run, ok,
}
use multi_bit_large_scale_bo.Gate.{GateType}
use multi_bit_large_scale_bo.Netlist.{Ptr, Heap, new_node}
use multi_bit_large_scale_bo.Netlist.Registry.{Registry, new_module}
use multi_bit_large_scale_bo.Netlist.Simplify.{
  link, bracket_prefix, bypass_outputs, remove_nodes, simplification,
}
use multi_bit_large_scale_bo.Netlist.Simplify.Counts.{front}
use multi_bit_large_scale_bo.Netlist.Simplify.Bypass.{Fits, IsUnread, IsReady, IsApart}
use multi_bit_large_scale_bo.Netlist.Simplify.Pass.{
  Pending, RemovesAll, bypass_outputs_lem, remove_nodes_lem,
}
use multi_bit_large_scale_bo.Netlist.Simplify.Linked.{IsChain, link_lem}

abbrev chain : Heap
chain (suc zero) = record (new_node 1 "n1" GateType.input) { fo = 2 ∷ [] }
chain (suc (suc zero)) = record (new_node 2 "g2" GateType.inv) { fi = 1 ∷ []; fo = 3 ∷ [] }
chain (suc (suc (suc zero))) = record (new_node 3 "n3" GateType.output) { fi = 2 ∷ []; fo = 4 ∷ [] }
chain (suc (suc (suc (suc zero)))) = record (new_node 4 "n4" GateType.output) { fi = 3 ∷ [] }
chain p = new_node p "" GateType.const

abbrev chain_rank : Ptr → ℕ
chain_rank p = if ltb p 5 then p else 0

abbrev chain_value : Ptr → Bool
chain_value (suc zero) = true
chain_value p = false

chain-Fits : Fits chain_value chain
chain-Fits (suc zero) = tt
chain-Fits (suc (suc zero)) = refl
chain-Fits (suc (suc (suc zero))) = refl
chain-Fits (suc (suc (suc (suc zero)))) = refl
chain-Fits g = tt

chain_ranked : (g p : Ptr) → In p (chain g).fi → chain_rank p < chain_rank g
chain_ranked (suc (suc zero)) p (inl e) = rw e (omega arith)
chain_ranked (suc (suc (suc zero))) p (inl e) = rw e (omega arith)
chain_ranked (suc (suc (suc (suc zero)))) p (inl e) = rw e (omega arith)
chain_ranked (suc (suc zero)) p (inr n) = absurd n
chain_ranked (suc (suc (suc zero))) p (inr n) = absurd n
chain_ranked (suc (suc (suc (suc zero)))) p (inr n) = absurd n
chain_ranked g p m = absurd m

chain_mirrored : (g p : Ptr) → In p (chain g).fi → In g (chain p).fo
chain_mirrored (suc (suc zero)) p (inl e) = rw e (inl refl)
chain_mirrored (suc (suc (suc zero))) p (inl e) = rw e (inl refl)
chain_mirrored (suc (suc (suc (suc zero)))) p (inl e) = rw e (inl refl)
chain_mirrored (suc (suc zero)) p (inr n) = absurd n
chain_mirrored (suc (suc (suc zero))) p (inr n) = absurd n
chain_mirrored (suc (suc (suc (suc zero)))) p (inr n) = absurd n
chain_mirrored g p m = absurd m

chain_plain : (g : Ptr) → (chain g).inv ≡ 0
chain_plain g = ground arith

chain_direct : (g x : Ptr) → In x (front (chain g).inv (chain g).fi) → ⊥
chain_direct g x m = rw (chain_plain g) at m

outputs_single :
    (g : Ptr) → In g (3 ∷ 4 ∷ []) → ((chain g).inv ≡ 0) × ((p : Ptr) × ((chain g).fi ≡ p ∷ []))
outputs_single g (inl e) = rw e (refl, (2, refl))
outputs_single g (inr (inl e)) = rw e (refl, (3, refl))
outputs_single g (inr (inr n)) = absurd n

outputs_ready : IsReady chain chain_rank (λ g. In g (3 ∷ 4 ∷ []))
outputs_ready = record {
  ranked = chain_ranked;
  single = outputs_single;
  direct = λ g x r m. chain_direct g x m;
  enough = λ g. omega (arith, chain_plain g);
  mirrored = chain_mirrored;
}

bypass_outputs_lem_example :
    (h' : Heap) × (bypass_outputs (3 ∷ 4 ∷ []) chain ≡ ok h')
    × Fits chain_value h'
    × ((z : Ptr) → In z (3 ∷ 4 ∷ []) ⊎ IsUnread chain z → IsUnread h' z)
    × ((g : Ptr) → (h' g).type ≡ (chain g).type)
bypass_outputs_lem_example =
    bypass_outputs_lem chain_value chain_rank (3 ∷ 4 ∷ []) chain ((omega arith), ((λ n. n), tt))
      is_output outputs_ready chain-Fits
  where
    is_output : (x : Ptr) → In x (3 ∷ 4 ∷ []) → (chain x).type ≡ GateType.output
    is_output x (inl e) = rw e refl
    is_output x (inr (inl e)) = rw e refl
    is_output x (inr (inr n)) = absurd n

abbrev chain_module : Registry
chain_module = record new_module { heap = chain; netlist = 1 ∷ 2 ∷ 3 ∷ [] }

chain-Pending : (g : Ptr) → Pending (λ p. (chain p).type) (1 ∷ 2 ∷ 3 ∷ []) g → g ≡ 2
chain-Pending g (inl e, k) = absurd (false_not_true (rw e at k))
chain-Pending g (inr (inl e), k) = e
chain-Pending g (inr (inr (inl e)), k) = absurd (false_not_true (rw e at k))
chain-Pending g (inr (inr (inr n)), k) = absurd n

remove_nodes_lem_example :
    (kept : List Ptr) × (m' : Registry) × (remove_nodes (1 ∷ 2 ∷ 3 ∷ []) chain_module
      ≡ ok (kept, m'))
    × RemovesAll chain_value chain_rank (λ p. (chain p).type) (1 ∷ 2 ∷ 3 ∷ []) kept chain m'.heap
remove_nodes_lem_example =
    remove_nodes_lem chain_value chain_rank (λ p. (chain p).type) (1 ∷ 2 ∷ 3 ∷ []) chain_module
      ((omega arith), ((omega arith), ((λ n. n), tt))) (λ g. refl) ready apart chain-Fits
  where
    ready : IsReady chain chain_rank (Pending (λ p. (chain p).type) (1 ∷ 2 ∷ 3 ∷ []))
    ready = record {
      ranked = chain_ranked;
      single = λ g r. rw (chain-Pending g r) (refl, (1, refl));
      direct = λ g x r m. chain_direct g x m;
      enough = λ g. omega (arith, chain_plain g);
      mirrored = chain_mirrored;
    }

    apart : IsApart (λ p. (chain p).type) chain (Pending (λ p. (chain p).type) (1 ∷ 2 ∷ 3 ∷ []))
    apart g p r s m = absurd (
        omega (
          arith,
          ap (λ q. chain_rank q) (chain-Pending g r ∙ sym (chain-Pending p s)),
          chain_ranked g p m,
        ))

-- The name of a port of several bits, without its index.
bracket_prefix_test : bracket_prefix "bus[3]" ≡ some "bus"
unfolding bracket_prefix
bracket_prefix_test = refl

abbrev seen : Run Registry → List Ptr × (List Ptr × ℕ)
seen (ok m) = (m.netlist, ((m.heap 4).fi, (m.heap 4).inv))
seen r = ([], ([], 0))

-- The outputs of an inverter: both read the input, complemented.
simplification_test :
    seen (
      simplification
        (record chain_module { gate = λ t. elim t [ GateType.output ↦ 3 ∷ 4 ∷ [] | u ↦ [] ] }))
    ≡ (1 ∷ 3 ∷ [], (1 ∷ [], 1))
unfolding simplification new_module
simplification_test = refl

link_lem_example :
    IsChain (link (3 ∷ 4 ∷ []) chain) (3 ∷ 4 ∷ [])
    × ((g : Ptr)
        → In g (3 ∷ 4 ∷ [])
        → ((link (3 ∷ 4 ∷ []) chain g).head ≡ 3) × ((link (3 ∷ 4 ∷ []) chain g).bit_len ≡ 2))
link_lem_example = link_lem 3 (4 ∷ []) chain ((omega arith), ((λ n. n), tt))
