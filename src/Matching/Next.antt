-- ===== src/Matching/Next.antt =====
-- src/Matching.cpp: `next_match`, which chooses the output of circuit 2 that is matched next. An
-- output stands for its `_idx`.
pub mod Choice
use multi_bit_large_scale_bo.Base.{
  ℕ, zero, suc, List, [], ◌∷◌, Bool, true, false, not, ◌==◌, ltb, if◌then◌else◌, Option, none, some,
}
use multi_bit_large_scale_bo.Base.Int.{ℤ, pos, negsuc}
use multi_bit_large_scale_bo.Matching.Filter.{pred_ℤ}

-- `a < b`, for `int`.
abbrev pub ltb_ℤ : ℤ → ℤ → Bool
ltb_ℤ (pos a) (pos b) = ltb a b
ltb_ℤ (pos a) (negsuc b) = false
ltb_ℤ (negsuc a) (pos b) = true
ltb_ℤ (negsuc a) (negsuc b) = ltb b a

-- `INT_MIN`.
abbrev pub int_min : ℤ
int_min = negsuc 2147483647

-- What the function reads: whether `outputLock[p]` is still (-1, false), `output_to_inputBus[p]`, and whether
-- `bus_2_to_1[b]` is -1.
pub record Choices : Type 0 where
  pub free : ℕ → Bool
  pub buses : ℕ → List ℕ
  pub unmatched : ℕ → Bool

-- The loop over the input buses of an output, from the priority reached so far.
unfoldable pub lower : (ℕ → Bool) → List ℕ → ℤ → ℤ
lower unmatched [] z = z
lower unmatched (b ∷ bs) z = lower unmatched bs (if unmatched b then pred_ℤ z else z)

-- The priority of output `p`, computed again unless it is positive.
unfoldable pub fresh_priority : Choices → (ℕ → ℤ) → ℕ → ℤ
unfolding lower
fresh_priority c priority p =
    if ltb_ℤ (pos 0) (priority p) then priority p else lower c.unmatched (c.buses p) (pos 0)

abbrev pub put_priority : (ℕ → ℤ) → ℕ → ℤ → ℕ → ℤ
put_priority priority p z q = if q == p then z else priority q

-- The loop over `output_match_order`: the choice and the largest priority so far, and the priorities.
unfoldable pub choose : Choices → List ℕ → Option ℕ → ℤ → (ℕ → ℤ) → Option ℕ × (ℕ → ℤ)
unfolding fresh_priority
choose c [] np max_priority priority = (np, priority)
choose c (p ∷ ps) np max_priority priority =
    let skip = choose c ps np max_priority priority in
    let z = fresh_priority c priority p in
    let better = choose c ps (some p) z (put_priority priority p z) in
    let worse = choose c ps np max_priority (put_priority priority p z) in
    if c.free p then if ltb_ℤ max_priority z then better else worse else skip

-- `next_match`, where `none` is a null pointer.
unfoldable pub next_match : Choices → List ℕ → (ℕ → ℤ) → Option ℕ × (ℕ → ℤ)
unfolding choose
next_match c order priority = choose c order none int_min priority
