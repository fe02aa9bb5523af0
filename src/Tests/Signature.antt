-- ===== src/Tests/Signature.antt =====
-- The signatures of an input that drives five outputs.
use multi_bit_large_scale_bo.Base.{ℕ, ◌<◌, ◌≡◌, refl, [], ◌∷◌}
use multi_bit_large_scale_bo.Base.Int.{pos}
use multi_bit_large_scale_bo.Netlist.Signature.{input_signature}
use multi_bit_large_scale_bo.Netlist.Signature.Counted.{number}
use multi_bit_large_scale_bo.Netlist.Signature.Mode.{IsMode, input_signature_lem}

input_signature_lem_example :
    (most : ℕ) × IsMode
      (λ x n. (n ≡ number x (2 ∷ 4 ∷ 4 ∷ 1 ∷ 2 ∷ [])) × (0 < n))
      most
      (input_signature (λ m. m) (2 ∷ 4 ∷ 4 ∷ 1 ∷ 2 ∷ []))
input_signature_lem_example =
    input_signature_lem (λ m. m) (λ m c. (λ i. i, λ i. i)) (2 ∷ 4 ∷ 4 ∷ 1 ∷ 2 ∷ [])

-- The larger of two that are there twice.
input_signature_test : input_signature (λ m. m) (2 ∷ 4 ∷ 4 ∷ 1 ∷ 2 ∷ []) ≡ pos 4
unfolding input_signature
input_signature_test = refl
