-- ===== src/Matching/Prepare/Given.antt =====
-- src/Matching.cpp: what the preparation of the search may assume of the two circuits.
use multi_bit_large_scale_bo.Base.{ℕ, ◌<◌, ◌≤◌, ◌≡◌, ◌≢◌, List, Bool, false, length, In, some, ok}
use multi_bit_large_scale_bo.Answer.{Lock}
use multi_bit_large_scale_bo.Matching.Filter.Quota.{IsLock}
use multi_bit_large_scale_bo.Matching.Search.{call_compare}
use multi_bit_large_scale_bo.Matching.Prepare.{Setup}

-- What the preparation may assume: buses, supports and initial matches lead into the circuits, also the buses of the
-- outputs of circuit 1 into those of circuit 2, no input of circuit 2 is in two buses, no bus has inputs
-- and outputs, and the sort keeps what it sorts.
pub record IsSetup (s : Setup) : Type 0 where
  pub answers :
      (locks : ℕ → Lock)
      → ((p : ℕ) → IsLock s.c1.pi_size (locks p).0)
      → (support : List ℕ) → ((p : ℕ) → In p support → p < s.c2.pi_size)
      → (q o : ℕ) → q < s.c2.po_size
      → o < s.c1.po_size
      → (t : ℕ) × (call_compare s.compare locks support (q, o) ≡ ok t) × (t ≤ 2)
  pub output_bus2 : (q : ℕ) → q < s.c2.po_size → s.c2.output_bus q < length s.c2.buses
  pub output_bus1 : (o : ℕ) → o < s.c1.po_size → s.c1.output_bus o < length s.c1.buses
  pub output_bus1_in_2 : (o : ℕ) → o < s.c1.po_size → s.c1.output_bus o < length s.c2.buses
  pub input_bus2 : (p : ℕ) → p < s.c2.pi_size → s.c2.input_bus p < length s.c2.buses
  pub input_bus1 : (j : ℕ) → j < s.c1.pi_size → s.c1.input_bus j < length s.c1.buses
  pub single : (p : ℕ) → length (s.c2.bus_indices p) < 2
  pub no_exception : s.case_08 ≡ false
  pub apart2 : (p q : ℕ) → s.c2.input_bus p ≢ s.c2.output_bus q
  pub apart1 : (j o : ℕ) → s.c1.input_bus j ≢ s.c1.output_bus o
  pub init_inputs : (p j : ℕ) → s.init_input p ≡ some j → j < s.c1.pi_size
  pub init_outputs : (q o : ℕ) → In o (s.init_output q) → o < s.c1.po_size
  pub support2 : (q p : ℕ) → In p (s.c2.output_support q) → p < s.c2.pi_size
  pub support1 : (o j : ℕ) → In j (s.c1.output_support o) → j < s.c1.pi_size
  pub few : (q : ℕ) → length (s.c2.output_support q) < 2147483648
  pub sort_keeps : (less : ℕ → ℕ → Bool) (xs : List ℕ) (x : ℕ) → In x (s.std_sort less xs) → In x xs
  pub sort_length : (less : ℕ → ℕ → Bool) (xs : List ℕ) → length (s.std_sort less xs) ≡ length xs
