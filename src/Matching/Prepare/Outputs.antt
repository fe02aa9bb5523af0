-- ===== src/Matching/Prepare/Outputs.antt =====
-- src/Matching.cpp: the candidates that `genOutputMatch` lists, and where its sort is undefined.
use multi_bit_large_scale_bo.Base.{
  ℕ, ◌<◌, ◌≤◌, ◌≡◌, ◌↔◌, refl, ◌⊎◌, inl, inr, arith, Bool-cases, List, Bool, not, ◌&&◌, length, In,
  Run, ok, undefined, ◌>>=◌,
}
use multi_bit_large_scale_bo.Matching.Prepare.{
  Setup, stable_sort, upto, size_at, value_or, by_key, by_key_down, output_val,
}
use multi_bit_large_scale_bo.Matching.Prepare.Generate.{
  output_fits, sort_outputs, gen_output_match, is_empty,
}
use multi_bit_large_scale_bo.Matching.Prepare.Sort.{In-stable_sort, In-upto}
use multi_bit_large_scale_bo.Matching.Prepare.Loops.{
  size_at-undefined, sort_run-undefined, Returns, size_at_lem, filter_run_lem, sort_run_lem,
}
use multi_bit_large_scale_bo.Matching.Prepare.Given.{IsSetup}

module _ (s : Setup) (setup : IsSetup s) where
  -- Sorts keep the bound of their elements.
  sort_outputs_lem :
      (size2 : ℕ) (os : List ℕ)
      → ((o : ℕ) → In o os → o < s.c1.po_size)
      → (os' : List ℕ) × (sort_outputs s size2 os ≡ ok os') × ((o : ℕ) → In o os' ↔ In o os)
  unfolding sort_outputs
  sort_outputs_lem size2 os bound =
      let key : ℕ → Run ℕ = λ o. size_at s.c2.buses (s.c1.output_bus o) in
      let less : ℕ → ℕ → Bool = by_key (λ x. s.abs_diff size2 (value_or (key x))) in
      let down : ℕ → ℕ → Bool = by_key_down (output_val s.c1) in
      elim (sort_run_lem (λ size. stable_sort (by_key (λ o. s.abs_diff size2 (size o)))) key os
        (λ o m.
          size_at_lem s.c2.buses (s.c1.output_bus o) (setup.output_bus1_in_2 o (bound o m)))) [
            | inl (e, short) ↦
                (stable_sort down os, rw (sort_outputs, e) refl, λ o. In-stable_sort down o os)
            | inr e ↦ (
              stable_sort down (stable_sort less os),
              rw (sort_outputs, e) refl,
              λ o.
                  ground
                    (arith, In-stable_sort down o (stable_sort less os), In-stable_sort less o os),
            )
          ]

  pub gen_output_match_lem :
      (q : ℕ)
      → q < s.c2.po_size
      → (os : List ℕ) × (gen_output_match s q ≡ ok os) × ((o : ℕ) → In o os → o < s.c1.po_size)
  unfolding gen_output_match
  gen_output_match_lem q less = elim (Bool-cases (s.init_on && not (is_empty (s.init_output q)))) [
    | inl init ↦ (s.init_output q, rw init refl, λ o m. setup.init_outputs q o m)
    | inr open_ ↦
        let (size2, e) = size_at_lem s.c2.buses (s.c2.output_bus q) (setup.output_bus2 q less) in
        let test : ℕ → Run Bool = λ o.
          size_at s.c1.buses (s.c1.output_bus o) >>= λ size1. ok (output_fits s size2 q size1 o) in
        let (os, f, keeps, _) =
          filter_run_lem test (upto s.c1.po_size)
            (λ o m. tested size2 o ((In-upto s.c1.po_size o).0 m)) in
        let (os', g, same) =
          sort_outputs_lem size2 os (λ o m. (In-upto s.c1.po_size o).0 ((keeps o).0 m).0) in
        (
          os',
          rw (gen_output_match, open_, e, f, g) refl,
          λ o m. (In-upto s.c1.po_size o).0 ((keeps o).0 ((same o).0 m)).0,
        )
  ]
    where
      tested :
          (size2 o : ℕ)
          → o < s.c1.po_size
          → Returns (
              size_at s.c1.buses (s.c1.output_bus o) >>= λ size1.
              ok (output_fits s size2 q size1 o))
      tested size2 o less =
          let (size1, e) = size_at_lem s.c1.buses (s.c1.output_bus o) (setup.output_bus1 o less) in
          (output_fits s size2 q size1 o, rw e refl)

-- If two or more candidates are to be sorted, and the bus of one of them has an index that no bus of circuit 2 has, then
-- the sort of `genOutputMatch` reads `bus[1]` out of range, though that index is right for circuit 1.
pub sort_outputs-undefined :
    (s : Setup) (size2 : ℕ) (os : List ℕ) (o : ℕ)
    → 2 ≤ length os
    → In o os
    → length s.c2.buses ≤ s.c1.output_bus o
    → sort_outputs s size2 os ≡ undefined
unfolding sort_outputs
sort_outputs-undefined s size2 os o long m above =
    rw
      (
        sort_outputs,
        sort_run-undefined (λ size. stable_sort (by_key (λ x. s.abs_diff size2 (size x))))
            (λ x. size_at s.c2.buses (s.c1.output_bus x)) os o (λ z n. read z) long m
            (size_at-undefined s.c2.buses (s.c1.output_bus o) above),
      )
      refl
  where
    split : (a b : ℕ) → (a < b) ⊎ (b ≤ a)
    split a b = ground arith

    read :
        (z : ℕ)
        → Returns (size_at s.c2.buses (s.c1.output_bus z))
          ⊎ (size_at s.c2.buses (s.c1.output_bus z) ≡ undefined)
    read z = elim (split (s.c1.output_bus z) (length s.c2.buses)) [
      | inl low ↦ inl (size_at_lem s.c2.buses (s.c1.output_bus z) low)
      | inr high ↦ inr (size_at-undefined s.c2.buses (s.c1.output_bus z) high)
    ]
