-- ===== src/Matching/Verify.antt =====
-- src/Matching.cpp: `verifyResult`, which compares the outputs of the recorded match again. What it prints is left
-- out, but for the points and whether it prints "eq".
pub mod Checked
use multi_bit_large_scale_bo.Base.{
  ℕ, zero, suc, ◌+◌, List, [], ◌∷◌, Bool, true, false, not, ◌&&◌, ◌==◌, if◌then◌else◌, Run, ok,
  undefined, ◌>>=◌,
}
use multi_bit_large_scale_bo.Base.Int.{ℤ, pos, negsuc}
use multi_bit_large_scale_bo.Answer.{Lock}
use multi_bit_large_scale_bo.Matching.State.{Compare}

-- What it reads: `maxOutputMatch`, `maxInputMatch` and `_pi_idx` of each output of circuit 2.
pub record Recorded : Type 0 where
  pub compare : Compare
  pub output_match : ℕ → Lock
  pub input_match : ℕ → Lock
  pub pi_idx : ℕ → List ℕ

-- `point` and `eq`.
pub record Verdict : Type 0 where
  pub point : ℕ
  pub eq : Bool

-- The pairs, signs and constants for the inputs of an output. An input that is not matched is only warned
-- of: it is pushed as a pair with the index -1.
unfoldable pub match_pairs : (ℕ → Lock) → List ℕ → List (ℕ × ℤ) × List Bool × List (Bool × ℕ)
match_pairs locks [] = ([], [], [])
match_pairs locks (p ∷ ps) =
    let (pairs, negs, consts) = match_pairs locks ps in
    elim (locks p).0 [
      | negsuc (suc zero) ↦ (pairs, negs, ((locks p).1, p) ∷ consts)
      | z ↦ ((p, z) ∷ pairs, (locks p).1 ∷ negs, consts)
    ]

-- `input1[p.second]` in `miterOneOutputRandom` for each pair, where a negative index is out of range.
unfoldable pub index_pairs : List (ℕ × ℤ) → Run (List (ℕ × ℕ))
index_pairs [] = ok []
index_pairs ((p, pos j) ∷ ps) = index_pairs ps >>= λ qs. ok ((p, j) ∷ qs)
index_pairs ((p, negsuc k) ∷ ps) = undefined

-- The call of the comparison.
unfoldable pub call_indexed : Compare → List (ℕ × ℤ) → List Bool → ℕ × ℕ → List (Bool × ℕ) → Run ℕ
unfolding index_pairs
call_indexed compare pairs negs out consts = index_pairs pairs >>= λ qs. compare qs negs out consts

-- `one_output_eq`: the result of the comparison is the verdict that was recorded.
abbrev pub confirms : ℕ → Bool → Bool
confirms result neg = if neg then result == 2 else result == 1

module _ (r : Recorded) where
  -- The body of the loop for output `q`, matched with output `o`.
  unfoldable pub verify_output : ℕ → ℕ → Bool → Verdict → Run Verdict
  unfolding match_pairs call_indexed
  verify_output q o neg v =
      let (pairs, negs, consts) = match_pairs r.input_match (r.pi_idx q) in
      call_indexed r.compare pairs negs (q, o) consts >>= λ result. ok (record {
        point = v.point + (if confirms result neg then 2 else 0);
        eq = if confirms result neg then v.eq else false;
      })

  -- The loop over the first `n` outputs of circuit 2.
  unfoldable pub verify_result : ℕ → Run Verdict
  unfolding verify_output
  verify_result zero = ok (record { point = 0; eq = true })
  verify_result (suc q) = verify_result q >>= λ v. elim (r.output_match q).0 [
    | pos o ↦ verify_output q o (r.output_match q).1 v
    | negsuc zero ↦ ok v
    | negsuc (suc k) ↦ undefined
  ]
