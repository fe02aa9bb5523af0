-- ===== src/Matching/BusMatch.antt =====
-- src/Matching.cpp: `match_bus` and `recur_match_bus`, which try the ways to match buses, and collect the sizes of
-- buses that are matched. `size_t` has 64 bits, and `int` has 32.
pub mod Restored
use multi_bit_large_scale_bo.Base.{
  ℕ, zero, suc, ◌+◌, ◌-◌, ◌%◌, List, [], ◌∷◌, Bool, true, false, not, ◌&&◌, ◌||◌, length, get_or,
  ltb, leb, ◌==◌, if◌then◌else◌, Run, ok, undefined,
}
use multi_bit_large_scale_bo.Base.Int.{ℤ, pos, negsuc, sub_ℕ}
use multi_bit_large_scale_bo.Matching.State.{update}
use multi_bit_large_scale_bo.Matching.Prepare.{Bus, ports, Circuit, by_key_down, stable_sort, upto}

-- An `int` as a `size_t`, and the way back.
abbrev pub to_size : ℤ → ℕ
to_size (pos n) = n % 18446744073709551616
to_size (negsuc n) = 18446744073709551615 - n % 18446744073709551616

abbrev pub to_int : ℕ → ℤ
to_int n =
    if ltb (n % 4294967296) 2147483648
    then pos (n % 4294967296)
    else negsuc (4294967295 - n % 4294967296)

-- `a - b` of two `size_t`, and `quota -= d` and `quota += d`.
abbrev pub size_diff : ℕ → ℕ → ℕ
size_diff a b = (a + 18446744073709551616 - b) % 18446744073709551616

abbrev pub lower_quota : ℤ → ℕ → ℤ
lower_quota quota d = to_int (size_diff (to_size quota) d)

abbrev pub raise_quota : ℤ → ℕ → ℤ
raise_quota quota d = to_int ((to_size quota + d) % 18446744073709551616)

-- `quota`, `c1_bus_occupied`, `one_bus_match` with the last pair first, `new_match`, and whether
-- `bus_match_idx[a]` has b.
pub record Tried : Type 0 where
  pub quota : ℤ
  pub occupied : ℕ → Bool
  pub one_bus_match : List (ℕ × ℕ)
  pub new_match : Bool
  pub table : ℕ → ℕ → Bool

-- `bus_match_idx[a].insert(b)`.
abbrev pub table_insert : ℕ → ℕ → (ℕ → ℕ → Bool) → ℕ → ℕ → Bool
table_insert a b table x y = (x == a && y == b) || table x y

-- `pop_back`.
abbrev pub tail : List (ℕ × ℕ) → List (ℕ × ℕ)
tail [] = []
tail (p ∷ ps) = ps

-- The sizes of the buses in the order of `bus_idx_2` and `bus_idx_1`, and their number.
module _ (size2 size1 : ℕ → ℕ) (bus_size : ℕ) where
  -- The loop that records the sizes of a complete match.
  unfoldable pub record_pairs : List (ℕ × ℕ) → (ℕ → ℕ → Bool) → ℕ → ℕ → Bool
  record_pairs [] table = table
  record_pairs ((d, i) ∷ ps) table = record_pairs ps (table_insert (size2 d) (size1 i) table)

  -- The test of the sizes; its first part, that a `size_t` is not negative, is always true.
  abbrev pub quota_allows : ℤ → ℕ → ℕ → Bool
  quota_allows quota d i = leb (size_diff (size2 d) (size1 i)) (to_size quota)

  -- The changes before the recursive call, where `next` is that call, and after it.
  abbrev pub push_pair : ℕ → ℕ → Tried → Tried
  push_pair d i t = record t {
    one_bus_match = (d, i) ∷ t.one_bus_match;
    quota = lower_quota t.quota (size_diff (size2 d) (size1 i));
    occupied = update t.occupied i true;
    new_match = true;
  }

  abbrev pub pop_pair : ℕ → ℕ → Tried → Tried
  pop_pair d i t = record t {
    one_bus_match = tail t.one_bus_match;
    quota = raise_quota t.quota (size_diff (size2 d) (size1 i));
    occupied = update t.occupied i false;
  }

  -- The loop over the buses of circuit 1, from `new_match` as it is; a pair of sizes that is known is
  -- skipped unless the match is new.
  unfoldable pub try_buses : ℕ → (Tried → Tried) → List ℕ → Tried → Tried
  try_buses d next [] t = t
  try_buses d next (i ∷ is) t =
      let skipped = try_buses d next is t in
      let tried = try_buses d next is (pop_pair d i (next (push_pair d i t))) in
      if t.occupied i
      then skipped
      else if not (quota_allows t.quota d i)
      then skipped
      else if not t.new_match && t.table (size2 d) (size1 i)
      then skipped
      else tried

  -- `recur_match_bus`, where `left` is `bus_size - depth`.
  unfoldable pub recur_match_bus : ℕ → ℕ → Tried → Tried
  unfolding record_pairs try_buses
  recur_match_bus zero depth t = record t {
    table = record_pairs t.one_bus_match t.table;
    new_match = false;
  }
  recur_match_bus (suc left) depth t =
      try_buses depth (λ u. recur_match_bus left (suc depth) u) (upto bus_size) t

-- `getBusSet`: the buses of more than one port.
unfoldable pub get_bus_set : List Bus → List Bus
get_bus_set [] = []
get_bus_set (b ∷ bs) =
    let rest = get_bus_set bs in if ltb 1 (length (ports b)) then b ∷ rest else rest

-- The buses that inputs are in, but for the first of each.
unfoldable pub extra_buses : Circuit → ℕ → ℕ
extra_buses c zero = 0
extra_buses c (suc p) = extra_buses c p + (length (c.bus_indices p) - 1)

-- The sizes of the buses, and those in the order of `bus_idx_1` or `bus_idx_2`: by size, the largest first.
abbrev pub sizes : List Bus → List ℕ
sizes [] = []
sizes (b ∷ bs) = length (ports b) ∷ sizes bs

unfoldable pub sorted_size : List ℕ → ℕ → ℕ → ℕ
unfolding stable_sort
sorted_size ss bus_size d =
    get_or ss (get_or (stable_sort (by_key_down (λ b. get_or ss b 0)) (upto bus_size)) d 0) 0

-- `match_bus`: the number of buses of circuit 1, and `bus_match_idx`. Each of so many buses of circuit 2 is read.
unfoldable pub match_bus : Circuit → Circuit → Run (ℕ × (ℕ → ℕ → Bool))
unfolding get_bus_set extra_buses recur_match_bus sorted_size
match_bus c1 c2 =
    let ss1 = sizes (get_bus_set c1.buses) in
    let ss2 = sizes (get_bus_set c2.buses) in
    let bus_size = length ss1 in
    let start : Tried = record {
      quota =
          sub_ℕ (c2.pi_size + extra_buses c2 c2.pi_size) (c1.pi_size + extra_buses c1 c1.pi_size);
      occupied = λ i. false;
      one_bus_match = [];
      new_match = true;
      table = λ a b. false;
    } in
    if ltb (length ss2) bus_size
    then undefined
    else ok (
      bus_size,
      (recur_match_bus (sorted_size ss2 bus_size) (sorted_size ss1 bus_size) bus_size bus_size 0
          start).table,
    )
