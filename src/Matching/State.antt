-- ===== src/Matching/State.antt =====
-- src/Matching.cpp: what the search reads (`Problem`), and the members and vectors of `Match` that it
-- changes: those that a step back restores (`Core`), and the record of the best match (`Best`). A
-- port stands for its `_idx`, and a vector is a function from indices.
use multi_bit_large_scale_bo.Base.{
  ℕ, zero, suc, ◌-◌, List, Bool, true, false, Option, ◌==◌, if◌then◌else◌, Run,
}
use multi_bit_large_scale_bo.Base.Int.{ℤ, pos, negsuc}
use multi_bit_large_scale_bo.Answer.{Lock, no_match}

-- A candidate for an input of circuit 2: the constant, whose `_idx` is `CONST_VAL`, or an input of
-- circuit 1.
pub data Candidate : Type 0 where
  constant : Candidate
  port : ℕ → Candidate

-- `miterOneOutputRandom`, on the circuits of the search: the matched inputs with their signs, the pair of
-- outputs, and the constants.
abbrev pub Compare : Type 0
Compare = List (ℕ × ℕ) → List Bool → ℕ × ℕ → List (Bool × ℕ) → Run ℕ

-- What the search reads. `_init_input_ne` is `none` for -1, `name_n84` tells the input of circuit 1 that is named n84.
pub record Problem : Type 0 where
  pub compare : Compare
  pub output_match_order : List ℕ
  pub output_match_cand : ℕ → List ℕ
  pub input_match_cand : ℕ → List Candidate
  pub output_support1 : ℕ → List ℕ
  pub output_support2 : ℕ → List ℕ
  pub is_pi_in_po : ℕ → ℕ → Bool
  pub output_to_input_bus : ℕ → List ℕ
  pub output_bus1 : ℕ → ℕ
  pub output_bus2 : ℕ → ℕ
  pub input_bus1 : ℕ → ℕ
  pub input_bus2 : ℕ → ℕ
  pub bus_indices1 : ℕ → List ℕ
  pub bus_indices2 : ℕ → List ℕ
  pub init_on : Bool
  pub init_input : ℕ → Option ℕ
  pub init_input_ne : ℕ → Option Bool
  pub input_size_eq : Bool
  pub case_08 : Bool
  pub name_n84 : ℕ → Bool

-- `inputLock`, `inputLockCount`, `outputLock`, `c1_OutputLockCount`, `bus_2_to_1`, `bus_1_to_2`,
-- `bus_2_to_1_count` and `c1_inputMatchCount`. The counts are natural: each one that is lowered was raised
-- in the same call.
pub record Core : Type 0 where
  pub input_lock : ℕ → Lock
  pub input_lock_count : ℕ → ℕ
  pub output_lock : ℕ → Lock
  pub output_lock_count : ℕ → ℕ
  pub bus_2_to_1 : ℕ → ℤ
  pub bus_1_to_2 : ℕ → ℤ
  pub bus_count : ℕ → ℕ
  pub input_count : ℕ → ℕ

-- `maxOutputDepth`, `maxOutputMatch`, `maxInputMatch`, `findOutputBest`, and the `_priority` of each output.
pub record Best : Type 0 where
  pub depth : ℤ
  pub output_match : ℕ → Lock
  pub input_match : ℕ → Lock
  pub found : Bool
  pub priority : ℕ → ℤ

pub record Search : Type 0 where
  pub core : Core
  pub best : Best

-- `quota` and `c1_input_match_count`, which `match_output` makes for each pair of outputs.
pub record Locals : Type 0 where
  pub quota : ℤ
  pub count : ℕ → ℕ

-- `v[k] = x`, `v[k]++` and `v[k]--`.
abbrev pub update {ℓ} : {A : Type ℓ} → (ℕ → A) → ℕ → A → ℕ → A
update f k x j = if j == k then x else f j

abbrev pub raise : (ℕ → ℕ) → ℕ → ℕ → ℕ
raise f k = update f k (suc (f k))

abbrev pub drop : (ℕ → ℕ) → ℕ → ℕ → ℕ
drop f k = update f k (f k - 1)

-- `{-1, 0}`, and the test against it.
abbrev pub unlocked : Lock
unlocked = (no_match, false)

abbrev pub is_none : ℤ → Bool
is_none (negsuc zero) = true
is_none z = false

abbrev pub is_const : ℤ → Bool
is_const (negsuc (suc zero)) = true
is_const z = false

abbrev pub is_port : ℤ → ℕ → Bool
is_port (pos k) j = k == j
is_port (negsuc k) j = false

abbrev pub is_unlocked : Lock → Bool
is_unlocked (negsuc zero, false) = true
is_unlocked l = false

-- The locks, counts and buses with which `new_boolean_match` starts the search.
abbrev pub initial_core : Core
initial_core = record {
  input_lock = λ p. unlocked;
  input_lock_count = λ p. 0;
  output_lock = λ q. unlocked;
  output_lock_count = λ o. 0;
  bus_2_to_1 = λ b. negsuc 0;
  bus_1_to_2 = λ b. negsuc 0;
  bus_count = λ b. 0;
  input_count = λ j. 0;
}

-- `maxOutputDepth = -1` and `findOutputBest = false`, with no match recorded.
abbrev pub initial_best : (ℕ → ℤ) → Best
initial_best priority = record {
  depth = negsuc 0;
  output_match = λ q. unlocked;
  input_match = λ p. unlocked;
  found = false;
  priority = priority;
}
