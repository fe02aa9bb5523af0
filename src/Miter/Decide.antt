-- ===== src/Miter/Decide.antt =====
-- src/miter.cpp: what `miterOneOutputRandom` decides of two outputs.
use multi_bit_large_scale_bo.Base.{
  ℕ, zero, suc, ◌*◌, ◌<◌, ◌≤◌, ◌≡◌, ◌≢◌, ◌↔◌, refl, inl, inr, List, [], ltb, ok, arith, Bool-cases,
  Option-cases, length,
}
use multi_bit_large_scale_bo.Netlist.{Ptr, Heap}
use multi_bit_large_scale_bo.Netlist.Words.{PiValue}
use multi_bit_large_scale_bo.Netlist.Meaning.{value, IsNetlist, IsUsed, Assignment}
use multi_bit_large_scale_bo.Miter.{
  Link, Constant, pnum, classify, assign_links, assign_patterns, assign_random, exhaustive,
  randomised, c1_input_set, compare_outputs, initial_value,
}
use multi_bit_large_scale_bo.Miter.Agree.{Respects}
use multi_bit_large_scale_bo.Miter.Verdict.{Related, classify-le}
use multi_bit_large_scale_bo.Miter.Exhaustive.{word_at, compare_round_lem}
use multi_bit_large_scale_bo.Miter.Sound.{IsOrder, IsProper, compare_outputs_sound}
use multi_bit_large_scale_bo.Miter.Complete.{compare_outputs_complete}

module _ {depth : ℕ} {h : Heap} {rank : Ptr → ℕ} (net : IsNetlist h rank depth) (out1 out2 : Ptr)
    (live1 : IsUsed rank out1) (live2 : IsUsed rank out2) where
  -- On a netlist without a cycle, whose nodes in use are inputs and mapped gates with fan-ins in use, for
  -- two outputs in use, a proper matching, at most 17 matched inputs of circuit 1, and an order that keeps
  -- the elements of a list: the comparison returns a nonzero `t` exactly when the two outputs are equal
  -- (`t` is 1) or complementary (`t` is 2) under every assignment that the matching allows, where an input
  -- that is not matched is 0.
  pub compare_outputs_decides :
      (order : List Ptr → List Ptr) (rand : ℕ → ℕ) (links : List Link) (consts : List Constant)
      (t : ℕ)
      → IsOrder order
      → IsProper links consts
      → length (c1_input_set links []) < 18
      → t ≢ 0
      → (compare_outputs depth h out1 out2 order rand links consts ≡ ok t) ↔ (
          (ρ : Assignment)
          → Respects links consts ρ
          → Related t (value depth h ρ out1) (value depth h ρ out2))
  compare_outputs_decides order rand links consts t perm proper few nonzero = (
    λ e ρ r.
        compare_outputs_sound net out1 out2 order rand links consts t ρ live1 live2 perm proper few
          e nonzero r,
    λ related.
        compare_outputs_complete links consts proper net out1 out2 live1 live2 t related order rand
          perm,
  )

  exhaustive_returns :
      (n : ℕ) (set : List Ptr) (links : List Link) (end_index time : ℕ) (pi : PiValue) (type : ℕ)
      → type ≤ 2
      → (t : ℕ) × (exhaustive depth h out1 out2 n set links end_index time pi type ≡ ok t) × (t ≤ 2)
  unfolding exhaustive
  exhaustive_returns zero set links end_index time pi type small = (type, refl, small)
  exhaustive_returns (suc n) set links end_index time pi type small =
      let pi' = assign_links links (assign_patterns end_index set (pnum * time) 0 pi) in
      elim (Option-cases (
        classify (word_at net out1 out2 live1 live2 out1 pi')
          (word_at net out1 out2 live1 live2 out2 pi') type)) [
            | inl differ ↦
                (0, rw (compare_round_lem net out1 out2 live1 live2 pi' type, differ), omega arith)
            | inr (type', same) ↦
                rw (compare_round_lem net out1 out2 live1 live2 pi' type, same)
                  (exhaustive_returns n set links end_index (suc time) pi' type'
                    (classify-le _ _ type type' same))
          ]

  randomised_returns :
      (rand : ℕ → ℕ) (n : ℕ) (links : List Link) (k : ℕ) (pi : PiValue) (type : ℕ)
      → type ≤ 2
      → (t : ℕ) × (randomised depth h out1 out2 rand n links k pi type ≡ ok t) × (t ≤ 2)
  unfolding randomised
  randomised_returns rand zero links k pi type small = (type, refl, small)
  randomised_returns rand (suc n) links k pi type small =
      let pi' = (assign_random rand links [] k pi).0 in
      elim (Option-cases (
        classify (word_at net out1 out2 live1 live2 out1 pi')
          (word_at net out1 out2 live1 live2 out2 pi') type)) [
            | inl differ ↦
                (0, rw (compare_round_lem net out1 out2 live1 live2 pi' type, differ), omega arith)
            | inr (type', same) ↦
                rw (compare_round_lem net out1 out2 live1 live2 pi' type, same)
                  (randomised_returns rand n links (assign_random rand links [] k pi).1 pi' type'
                    (classify-le _ _ type type' same))
          ]

  -- On a netlist without a cycle, whose nodes in use are inputs and mapped gates with fan-ins in use, for
  -- two outputs in use, the comparison ends with one of the verdicts 0, 1 and 2, whatever the matching, the
  -- order of the set and the random numbers are: no gate is undefined, and the recursion ends within
  -- `depth`.
  pub compare_outputs_returns :
      (order : List Ptr → List Ptr) (rand : ℕ → ℕ) (links : List Link) (consts : List Constant)
      → (t : ℕ) × (compare_outputs depth h out1 out2 order rand links consts ≡ ok t) × (t ≤ 2)
  unfolding compare_outputs
  compare_outputs_returns order rand links consts =
      elim (Bool-cases (ltb (length (c1_input_set links [])) 18)) [
        | inl few ↦ rw few (
            exhaustive_returns _ (order (c1_input_set links [])) links _ 0 (initial_value consts) 0
              (omega arith))
        | inr many ↦
            rw many (randomised_returns rand 30 links 0 (initial_value consts) 0 (omega arith))
      ]
