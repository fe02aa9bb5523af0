-- ===== src/Miter/Complete.antt =====
-- Outputs that agree under every assignment that the matching allows get the verdict 1, and
-- complementary ones the verdict 2, whichever way the patterns are chosen.
use multi_bit_large_scale_bo.Base.{
  ℕ, zero, suc, ◌*◌, ◌<◌, ◌≡◌, refl, ap, ◌∙◌, ◌⊎◌, inl, inr, Bool, false, List, [], ◌∷◌, some,
  ==_ne, ==_refl, ltb, All, In-All, In, In-map, IsDistinct, ok, arith, Bool-cases, length,
}
use multi_bit_large_scale_bo.Netlist.{Ptr, Heap}
use multi_bit_large_scale_bo.Netlist.Words.{PiValue, bits_of_zero}
use multi_bit_large_scale_bo.Netlist.Meaning.{value, IsNetlist, IsUsed, Assignment}
use multi_bit_large_scale_bo.Miter.{
  Link, Constant, pnum, put, compare_round, assign_constants, assign_links, assign_patterns,
  assign_random, exhaustive, randomised, c1_input_set, compare_outputs, initial_value,
}
use multi_bit_large_scale_bo.Miter.Agree.{c1_ports, c2_ports, constant_ports, Respects}
use multi_bit_large_scale_bo.Miter.Verdict.{Related, classify_complete}
use multi_bit_large_scale_bo.Miter.Exhaustive.{Covers, word_at, compare_round_lem}
use multi_bit_large_scale_bo.Miter.Sound.{IsOrder, IsProper, set-Covers}
use multi_bit_large_scale_bo.Miter.Linked.{
  IsLinked, assign_links_frame, assign_links-IsLinked, assign_patterns_other, assign_random_other,
  assign_random-IsLinked,
}

assign_constants_frame :
    (cs : List Constant) (pi : PiValue) (p : Ptr)
    → (In p (constant_ports cs) → ⊥)
    → assign_constants cs pi p ≡ pi p
unfolding assign_constants
assign_constants_frame [] pi p out = refl
assign_constants_frame (c ∷ cs) pi p out =
    assign_constants_frame cs (put pi c.port (λ j. c.bit)) p (λ m. out (inr m))
    ∙ rw (==_ne p c.port (λ e. out (inl e)))

assign_constants_lem :
    (cs : List Constant) (pi : PiValue) (i : ℕ)
    → IsDistinct (constant_ports cs)
    → All (λ c. assign_constants cs pi c.port i ≡ c.bit) cs
unfolding assign_constants
assign_constants_lem [] pi i distinct = tt
assign_constants_lem (c ∷ cs) pi i distinct =
    let pi' = put pi c.port (λ j. c.bit) in
    (
      rw (assign_constants_frame cs pi' c.port distinct.0, ==_refl c.port),
      assign_constants_lem cs pi' i distinct.1,
    )

module _ (links : List Link) (consts : List Constant) (proper : IsProper links consts) where
  -- At index `i` the ports that are not matched have their constants, or 0.
  record IsBase (i : ℕ) (pi : PiValue) : Type 0 where
    constant : All (λ c. pi c.port i ≡ c.bit) consts
    dangling :
        (p : Ptr)
        → (In p (c1_ports links) → ⊥)
        → (In p (c2_ports links) → ⊥)
        → (In p (constant_ports consts) → ⊥)
        → pi p i ≡ false

  -- Writes to the matched ports keep that.
  IsBase-frame :
      (i : ℕ) (pi pi' : PiValue)
      → ((p : Ptr) → (In p (c1_ports links) → ⊥) → (In p (c2_ports links) → ⊥) → pi' p i ≡ pi p i)
      → IsBase i pi
      → IsBase i pi'
  IsBase-frame i pi pi' frame b = record {
    constant = In-All consts λ c m.
        let (o1, o2) =
          proper.constants_apart c.port (In-map (λ (k : Constant). k.port) c consts m) in
        frame c.port o1 o2 ∙ of_All consts c m b.constant;
    dangling = λ p o1 o2 o3. frame p o1 o2 ∙ b.dangling p o1 o2 o3;
  }
    where
      of_All :
          (cs : List Constant) (c : Constant)
          → In c cs
          → All (λ c. pi c.port i ≡ c.bit) cs
          → pi c.port i ≡ c.bit
      of_All [] c m h = absurd m
      of_All (d ∷ cs) c (inl e) h = rw e h.0
      of_All (d ∷ cs) c (inr m) h = of_All cs c m h.1

  IsBase-Respects :
      (i : ℕ) (pi : PiValue)
      → IsBase i pi
      → IsLinked i pi links
      → Respects links consts (λ p. pi p i)
  IsBase-Respects i pi b linked = record {
    linked = linked;
    constant = b.constant;
    dangling = b.dangling;
  }

  initial_value-IsBase : (i : ℕ) → IsBase i (initial_value consts)
  unfolding initial_value
  initial_value-IsBase i = record {
    constant = assign_constants_lem consts (λ p. bits_of_zero) i proper.constants_distinct;
    dangling = λ p o1 o2 o3.
        ap (λ (w : ℕ → Bool). w i) (assign_constants_frame consts (λ q. bits_of_zero) p o3);
  }

  c1_apart : All (λ l. (In l.c1 (c2_ports links) → ⊥)) links
  c1_apart = In-All links λ l m. proper.apart l.c1 (In-map (λ (k : Link). k.c1) l links m)

  c2_apart : All (λ l. (In l.c2 (c1_ports links) → ⊥)) links
  c2_apart = In-All links λ l m o. proper.apart l.c2 o (In-map (λ (k : Link). k.c2) l links m)

  module _ {depth : ℕ} {h : Heap} {rank : Ptr → ℕ} (net : IsNetlist h rank depth) (out1 out2 : Ptr)
      (live1 : IsUsed rank out1) (live2 : IsUsed rank out2) (t : ℕ)
      (related : (ρ : Assignment)
        → Respects links consts ρ
        → Related t (value depth h ρ out1) (value depth h ρ out2)) where
    -- One round on words that stand for allowed assignments.
    round_complete :
        (pi : PiValue) (type : ℕ)
        → ((i : ℕ) → i < pnum → IsBase i pi)
        → ((i : ℕ) → i < pnum → IsLinked i pi links)
        → (type ≡ 0) ⊎ (type ≡ t)
        → compare_round depth h out1 out2 pi type ≡ ok (some t)
    round_complete pi type base linked old =
        compare_round_lem net out1 out2 live1 live2 pi type
        ∙ ap ok (
            classify_complete (word_at net out1 out2 live1 live2 out1 pi)
              (word_at net out1 out2 live1 live2 out2 pi) type t
              (λ i less. related (λ p. pi p i) (IsBase-Respects i pi (base i less) (linked i less)))
              old)

    exhaustive_complete :
        (n : ℕ) (set : List Ptr) (end_index time : ℕ) (pi : PiValue) (type : ℕ)
        → Covers set links
        → ((i : ℕ) → i < pnum → IsBase i pi)
        → (type ≡ 0) × (0 < n) ⊎ (type ≡ t)
        → exhaustive depth h out1 out2 n set links end_index time pi type ≡ ok t
    unfolding exhaustive
    exhaustive_complete zero set end_index time pi type covers base old = ground arith
    exhaustive_complete (suc n) set end_index time pi type covers base old =
        let pi' = assign_links links (assign_patterns end_index set (pnum * time) 0 pi) in
        let base' : (i : ℕ) → i < pnum → IsBase i pi' = λ i less.
          IsBase-frame i pi pi'
            (λ p o1 o2.
              ap (λ (w : ℕ → Bool). w i)
                (assign_links_frame links (assign_patterns end_index set (pnum * time) 0 pi) p o2)
              ∙ assign_patterns_other end_index set (pnum * time) 0 pi p i
                  (λ m. o1 (covers.within p m)))
            (base i less) in
        rw
          (round_complete pi' type base'
            (λ i less. assign_links-IsLinked links _ i proper.distinct c1_apart) (ground arith))
          (exhaustive_complete n set end_index (suc time) pi' t covers base' (inr refl))

    randomised_complete :
        (rand : ℕ → ℕ) (n k : ℕ) (pi : PiValue) (type : ℕ)
        → ((i : ℕ) → i < pnum → IsBase i pi)
        → (type ≡ 0) × (0 < n) ⊎ (type ≡ t)
        → randomised depth h out1 out2 rand n links k pi type ≡ ok t
    unfolding randomised
    randomised_complete rand zero k pi type base old = ground arith
    randomised_complete rand (suc n) k pi type base old =
        let pi' = (assign_random rand links [] k pi).0 in
        let base' : (i : ℕ) → i < pnum → IsBase i pi' = λ i less.
          IsBase-frame i pi pi' (λ p o1 o2. assign_random_other rand links [] k pi p i o2 (inr o1))
            (base i less) in
        rw
          (round_complete pi' type base'
            (λ i less.
              assign_random-IsLinked rand links [] k pi i less proper.distinct c1_apart c2_apart)
            (ground arith))
          (randomised_complete rand n (assign_random rand links [] k pi).1 pi' t base' (inr refl))

    -- On a netlist without a cycle, whose nodes in use are inputs and mapped gates with fan-ins in use, for
    -- two outputs in use, a proper matching, and an order that keeps the elements of a list: outputs that
    -- are equal (1) or complementary (2) under every assignment that the matching allows, where an input
    -- that is not matched is 0, get that verdict, on all patterns as well as on random ones.
    pub compare_outputs_complete :
        (order : List Ptr → List Ptr) (rand : ℕ → ℕ)
        → IsOrder order
        → compare_outputs depth h out1 out2 order rand links consts ≡ ok t
    unfolding compare_outputs
    compare_outputs_complete order rand perm =
        elim (Bool-cases (ltb (length (c1_input_set links [])) 18)) [
          | inl few ↦ rw few (
              exhaustive_complete _ (order (c1_input_set links [])) _ 0 (initial_value consts) 0
                (set-Covers order links consts perm proper) (λ i less. initial_value-IsBase i)
                (inl (refl, omega arith)))
          | inr many ↦ rw many (
              randomised_complete rand 30 0 (initial_value consts) 0
                (λ i less. initial_value-IsBase i) (inl (refl, omega arith)))
        ]
