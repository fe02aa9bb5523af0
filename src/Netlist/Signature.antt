-- ===== src/Netlist/Signature.antt =====
-- src/Netlist.h: the end of `CountGate`, which finds the signature of each input from those of the outputs that it drives.
pub mod Counted
pub mod Mode
use multi_bit_large_scale_bo.Base.{
  ℕ, zero, suc, List, [], ◌∷◌, Bool, true, false, ltb, ◌==◌, if◌then◌else◌,
}
use multi_bit_large_scale_bo.Base.Int.{ℤ, pos, negsuc}

-- `countMap`, a map from signatures to their numbers: an entry is raised, or made.
unfoldable pub count_one : ℕ → List (ℕ × ℕ) → List (ℕ × ℕ)
count_one x [] = (x, 1) ∷ []
count_one x ((y, n) ∷ m) =
    let rest = count_one x m in if y == x then (y, suc n) ∷ m else (y, n) ∷ rest

unfoldable pub count_all : List ℕ → List (ℕ × ℕ) → List (ℕ × ℕ)
unfolding count_one
count_all [] m = m
count_all (x ∷ xs) m = count_all xs (count_one x m)

-- `std::max`, where the second is an `int`.
abbrev pub max_ℤ : ℕ → ℤ → ℤ
max_ℤ a (pos b) = if ltb a b then pos b else pos a
max_ℤ a (negsuc b) = pos a

-- The loop over the entries, with `max_count` and `mode`.
unfoldable pub find_mode : List (ℕ × ℕ) → ℕ → ℤ → ℤ
find_mode [] max_count mode = mode
find_mode ((x, n) ∷ m) max_count mode =
    let larger = find_mode m n (pos x) in
    let equal = find_mode m max_count (max_ℤ x mode) in
    let smaller = find_mode m max_count mode in
    if ltb max_count n then larger else if n == max_count then equal else smaller

-- The signature of an input, where `order` is the order in which an `unordered_map` is passed through.
unfoldable pub input_signature : (List (ℕ × ℕ) → List (ℕ × ℕ)) → List ℕ → ℤ
unfolding count_all find_mode
input_signature order [] = negsuc 0
input_signature order (x ∷ xs) = find_mode (order (count_all (x ∷ xs) [])) 0 (negsuc 0)
