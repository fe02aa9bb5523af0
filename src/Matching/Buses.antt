-- ===== src/Matching/Buses.antt =====
-- src/Matching.cpp: the matching of buses that `match_input` and `match_output` keep.
use multi_bit_large_scale_bo.Base.{
  ℕ, List, [], ◌∷◌, Bool, true, false, not, ◌&&◌, ◌||◌, length, ltb, ◌==◌, if◌then◌else◌, Option,
  none, some, Run, ok, undefined, ◌>>=◌,
}
use multi_bit_large_scale_bo.Base.Int.{pos}
use multi_bit_large_scale_bo.Answer.{no_match}
use multi_bit_large_scale_bo.Matching.State.{Problem, Core, update, raise, drop, is_none, is_port}

-- Neither bus is matched, or each is matched with the other.
abbrev pub buses_free : Core → ℕ → ℕ → Bool
buses_free c b2 b1 = is_none (c.bus_2_to_1 b2) && is_none (c.bus_1_to_2 b1)

abbrev pub buses_joined : Core → ℕ → ℕ → Bool
buses_joined c b2 b1 = is_port (c.bus_2_to_1 b2) b1 && is_port (c.bus_1_to_2 b1) b2

abbrev pub buses_fit : Core → ℕ → ℕ → Bool
buses_fit c b2 b1 = buses_free c b2 b1 || buses_joined c b2 b1

-- The assignments that match two buses, and that make them free.
abbrev pub join : Core → ℕ → ℕ → Core
join c b2 b1 = record c {
  bus_2_to_1 = update c.bus_2_to_1 b2 (pos b1);
  bus_1_to_2 = update c.bus_1_to_2 b1 (pos b2);
}

abbrev pub part : Core → ℕ → ℕ → Core
part c b2 b1 = record c {
  bus_2_to_1 = update c.bus_2_to_1 b2 no_match;
  bus_1_to_2 = update c.bus_1_to_2 b1 no_match;
}

abbrev pub raise_bus : Core → ℕ → Core
raise_bus c b = record c { bus_count = raise c.bus_count b }

-- `bus_2_to_1_count[b2]--`, after which buses without a match are free.
unfoldable pub release_bus : Core → ℕ → ℕ → Core
release_bus c b2 b1 =
    let lowered = record c { bus_count = drop c.bus_count b2 } in
    if lowered.bus_count b2 == 0 then part lowered b2 b1 else lowered

-- The loops over the buses of an input that is in more than one: the test, and the changes before and
-- after. `c1_input->_bus_indices` may be too short.
unfoldable pub all_fit : Core → List ℕ → List ℕ → Run Bool
all_fit c [] bs1 = ok true
all_fit c (b2 ∷ bs2) [] = undefined
all_fit c (b2 ∷ bs2) (b1 ∷ bs1) =
    let rest = all_fit c bs2 bs1 in if buses_fit c b2 b1 then rest else ok false

unfoldable pub join_all : Core → List ℕ → List ℕ → Run Core
join_all c [] bs1 = ok c
join_all c (b2 ∷ bs2) [] = undefined
join_all c (b2 ∷ bs2) (b1 ∷ bs1) = join_all (raise_bus (join c b2 b1) b2) bs2 bs1

unfoldable pub release_all : Core → List ℕ → List ℕ → Run Core
unfolding release_bus
release_all c [] bs1 = ok c
release_all c (b2 ∷ bs2) [] = undefined
release_all c (b2 ∷ bs2) (b1 ∷ bs1) = release_all (release_bus c b2 b1) bs2 bs1

module _ (P : Problem) where
  -- The changes to the buses when input `p` of circuit 2 is matched with input `j` of circuit 1, where
  -- `none` is `continue`.
  unfoldable pub enter_bus : Core → ℕ → ℕ → Run (Option Core)
  unfolding all_fit join_all
  enter_bus c p j =
      if ltb 1 (length (P.bus_indices2 p))
      then (all_fit c (P.bus_indices2 p) (P.bus_indices1 j) >>= λ pass.
          if pass
          then (join_all c (P.bus_indices2 p) (P.bus_indices1 j) >>= λ c'. ok (some c'))
          else ok none)
      else if buses_free c (P.input_bus2 p) (P.input_bus1 j)
      then ok (some (raise_bus (join c (P.input_bus2 p) (P.input_bus1 j)) (P.input_bus2 p)))
      else if (not P.case_08 || not (P.name_n84 j))
          && not (buses_joined c (P.input_bus2 p) (P.input_bus1 j))
      then ok none
      else ok (some (raise_bus c (P.input_bus2 p)))

  -- The changes when the match is taken back.
  unfoldable pub leave_bus : Core → ℕ → ℕ → Run Core
  unfolding release_all release_bus
  leave_bus c p j =
      if ltb 1 (length (P.bus_indices2 p))
      then release_all c (P.bus_indices2 p) (P.bus_indices1 j)
      else ok (release_bus c (P.input_bus2 p) (P.input_bus1 j))
