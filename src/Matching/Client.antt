-- ===== src/Matching/Client.antt =====
-- src/Matching.cpp and src/miter.cpp: the search calls `miterOneOutputRandom`, which answers each of its calls.
use multi_bit_large_scale_bo.Base.{
  ℕ, zero, suc, ◌<◌, ◌≤◌, ◌≡◌, refl, inl, inr, arith, List, [], ◌∷◌, length, get_elem?_lem, In, ok,
}
use multi_bit_large_scale_bo.Base.Int.{ℤ, pos, negsuc}
use multi_bit_large_scale_bo.Answer.{Lock}
use multi_bit_large_scale_bo.Netlist.{Ptr, Heap}
use multi_bit_large_scale_bo.Netlist.Meaning.{IsNetlist, IsUsed}
use multi_bit_large_scale_bo.Miter.{
  Link, Constant, pointer_at, resolve_links, resolve_constants, miter_one_output_random,
}
use multi_bit_large_scale_bo.Miter.Decide.{compare_outputs_returns}
use multi_bit_large_scale_bo.Matching.State.{Compare}
use multi_bit_large_scale_bo.Matching.Filter.Quota.{IsLock}
use multi_bit_large_scale_bo.Matching.Search.{lock_pairs, call_compare}

pointer_at_lem :
    (ps : List Ptr) (i : ℕ) → i < length ps → (p : Ptr) × (pointer_at ps i ≡ ok p) × In p ps
unfolding pointer_at
pointer_at_lem ps i less =
    let (p, e, m) = get_elem?_lem ps i less in (p, rw (pointer_at, e) refl, m)

module _ {depth : ℕ} {h : Heap} {rank : Ptr → ℕ} (net : IsNetlist h rank depth)
    (order : List Ptr → List Ptr) (rand : ℕ → ℕ) (input1 input2 output1 output2 : List Ptr) where
  -- The comparison that the search calls.
  abbrev pub miter_compare : Compare
  miter_compare pairs negs out consts =
      miter_one_output_random depth h order rand input1 input2 output1 output2 pairs negs out consts

  module _ (n : ℕ) (locks : ℕ → Lock) (in_range : (p : ℕ) → IsLock n (locks p).0)
      (enough : n ≤ length input1) where
    -- Locks in range lead to nodes.
    lock_pairs_resolve :
        (ps : List ℕ)
        → ((p : ℕ) → In p ps → p < length input2)
        → ((links : List Link) × (resolve_links input1 input2
                (lock_pairs locks ps).0
                (lock_pairs locks ps).1
              ≡ ok links))
          × ((cs : List Constant) × (resolve_constants input2 (lock_pairs locks ps).2 ≡ ok cs))
    unfolding lock_pairs resolve_links resolve_constants
    lock_pairs_resolve [] bound = (([], refl), ([], refl))
    lock_pairs_resolve (p ∷ ps) bound =
        let ((links, e), (cs, f)) = lock_pairs_resolve ps (λ x m. bound x (inr m)) in
        let (c2, e₂, _) = pointer_at_lem input2 p (bound p (inl refl)) in
        head (locks p).0 refl (in_range p) links e cs f c2 e₂
      where
        head :
            (z : ℤ)
            → (locks p).0 ≡ z
            → IsLock n z
            → (links : List Link)
            → resolve_links input1 input2 (lock_pairs locks ps).0 (lock_pairs locks ps).1 ≡ ok links
            → (cs : List Constant) → resolve_constants input2 (lock_pairs locks ps).2 ≡ ok cs
            → (c2 : Ptr) → pointer_at input2 p ≡ ok c2
            → ((links' : List Link) × (resolve_links input1 input2
                    (lock_pairs locks (p ∷ ps)).0
                    (lock_pairs locks (p ∷ ps)).1
                  ≡ ok links'))
              × ((cs' : List Constant) × (resolve_constants input2 (lock_pairs locks (p ∷ ps)).2
                    ≡ ok cs'))
        head (pos j) at less links e cs f c2 e₂ =
            let (c1, e₁, _) = pointer_at_lem input1 j (omega arith) in
            (
              (
                record { c2 = c2; c1 = c1; neg = (locks p).1 } ∷ links,
                rw (lock_pairs, at, e₂, e₁, e),
              ),
              (cs, rw (lock_pairs, at) f),
            )
        head (negsuc zero) at less links e cs f c2 e₂ =
            ((links, rw (lock_pairs, at) e), (cs, rw (lock_pairs, at) f))
        head (negsuc (suc k)) at less links e cs f c2 e₂ = (
          (links, rw (lock_pairs, at) e),
          (record { port = c2; bit = (locks p).1 } ∷ cs, rw (lock_pairs, at, e₂, f)),
        )

    -- On a netlist without a cycle, whose nodes in use are inputs and mapped gates with fan-ins in use: if
    -- the locks are none, constants or inputs that circuit 1 has, the support leads to inputs of circuit 2,
    -- the two indices lead to outputs, and the outputs are nodes in use, then `miterOneOutputRandom`,
    -- called with the locks of the support as `match_input` calls it, answers 0, 1 or 2, for every order of
    -- the set and all random numbers.
    pub miter_compare_answers :
        (support : List ℕ) (q o : ℕ)
        → ((p : ℕ) → In p support → p < length input2)
        → q < length output2
        → o < length output1
        → ((p : Ptr) → In p output1 → IsUsed rank p)
        → ((p : Ptr) → In p output2 → IsUsed rank p)
        → (t : ℕ) × (call_compare miter_compare locks support (q, o) ≡ ok t) × (t ≤ 2)
    unfolding miter_one_output_random
    miter_compare_answers support q o bound q_less o_less live1 live2 =
        let (out1, e₁, m₁) = pointer_at_lem output1 o o_less in
        let (out2, e₂, m₂) = pointer_at_lem output2 q q_less in
        let ((links, e), (cs, f)) = lock_pairs_resolve support bound in
        let (t, g, small) =
          compare_outputs_returns net out1 out2 (live1 out1 m₁) (live2 out2 m₂) order rand links
            cs in
        (t, rw (e₁, e₂, e, f, g), small)
