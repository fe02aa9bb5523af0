-- ===== src/Tests/Miter.antt =====
-- `miterOneOutputRandom` on the two sample circuits, with each input matched to the complement.
use multi_bit_large_scale_bo.Base.{ℕ, ◌≤◌, ◌≡◌, ◌↔◌, refl, List, [], ◌∷◌, true, arith, ok}
use multi_bit_large_scale_bo.Netlist.{Ptr}
use multi_bit_large_scale_bo.Netlist.Meaning.{Assignment, value}
use multi_bit_large_scale_bo.Miter.{Link, compare_outputs, c1_input_set, member}
use multi_bit_large_scale_bo.Miter.Agree.{Respects}
use multi_bit_large_scale_bo.Miter.Verdict.{Related}
use multi_bit_large_scale_bo.Miter.Sound.{IsOrder, IsProper}
use multi_bit_large_scale_bo.Miter.Complete.{compare_outputs_complete}
use multi_bit_large_scale_bo.Miter.Decide.{compare_outputs_decides, compare_outputs_returns}
use multi_bit_large_scale_bo.Tests.Sample.{sample_heap, sample_net}

abbrev negated_links : List Link
negated_links = record { c2 = 3; c1 = 1; neg = true } ∷ record { c2 = 4; c1 = 2; neg = true } ∷ []

abbrev pub same_order : List Ptr → List Ptr
same_order ps = ps

same_order-IsOrder : IsOrder same_order
same_order-IsOrder = record { same = λ ps p. (λ m. m, λ m. m); size = λ ps. refl }

negated_links-IsProper : IsProper negated_links []
negated_links-IsProper = record {
  apart = λ p m1 m2. ground arith;
  distinct = ground arith;
  constants_distinct = tt;
  constants_apart = λ p m. absurd m;
}

compare_outputs_decides_example :
    (compare_outputs 9 sample_heap 7 8 same_order (λ k. k) negated_links [] ≡ ok 1) ↔ (
      (ρ : Assignment)
      → Respects negated_links [] ρ
      → Related 1 (value 9 sample_heap ρ 7) (value 9 sample_heap ρ 8))
unfolding c1_input_set member
compare_outputs_decides_example =
    compare_outputs_decides sample_net 7 8 (omega arith) (omega arith) same_order (λ k. k)
      negated_links [] 1 same_order-IsOrder negated_links-IsProper (omega arith) (omega arith)

compare_outputs_returns_example :
    (t : ℕ) × (compare_outputs 9 sample_heap 7 8 same_order (λ k. k) negated_links [] ≡ ok t)
    × (t ≤ 2)
compare_outputs_returns_example =
    compare_outputs_returns sample_net 7 8 (omega arith) (omega arith) same_order (λ k. k)
      negated_links []

same_outputs :
    (ρ : Assignment)
    → Respects negated_links [] ρ
    → Related 1 (value 9 sample_heap ρ 7) (value 9 sample_heap ρ 8)
unfolding value
same_outputs ρ r = ground (arith, r.linked.0, r.linked.1.0)

compare_outputs_complete_example :
    compare_outputs 9 sample_heap 7 8 same_order (λ k. k) negated_links [] ≡ ok 1
compare_outputs_complete_example =
    compare_outputs_complete negated_links [] negated_links-IsProper sample_net 7 8 (omega arith)
      (omega arith) 1 same_outputs same_order (λ k. k) same_order-IsOrder
