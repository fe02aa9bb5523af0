-- ===== src/Tests/BusMatch.antt =====
-- `match_bus` on two buses of 2 and 3 inputs in circuit 1, and of 3 and 4 in circuit 2.
use multi_bit_large_scale_bo.Base.{
  ℕ, ◌+◌, ◌<◌, ◌≡◌, refl, List, [], ◌∷◌, Bool, true, false, arith, get_or, Run, ok, ◌>>=◌,
}
use multi_bit_large_scale_bo.Base.Int.{pos}
use multi_bit_large_scale_bo.Matching.Prepare.{inputs, outputs, Circuit}
use multi_bit_large_scale_bo.Matching.BusMatch.{
  Tried, recur_match_bus, match_bus, get_bus_set, extra_buses, sizes,
}
use multi_bit_large_scale_bo.Matching.BusMatch.Restored.{
  Fits, IsFair, Keeps, recur_match_bus-Keeps, match_bus-Fits,
}

abbrev small_circuit : Circuit
small_circuit = record {
  pi_size = 5;
  po_size = 1;
  buses = inputs (0 ∷ 1 ∷ []) ∷ inputs (2 ∷ 3 ∷ 4 ∷ []) ∷ outputs (0 ∷ []) ∷ [];
  output_support = λ q. [];
  input_support = λ p. [];
  output_bus = λ q. 2;
  input_bus = λ p. 0;
  bus_indices = λ p. 0 ∷ [];
  output_bit = λ q. pos 0;
  input_bit = λ p. pos 0;
  input_sig = λ p. pos 0;
  unset = λ p. 0;
}

abbrev large_circuit : Circuit
large_circuit = record small_circuit {
  pi_size = 7;
  buses = inputs (0 ∷ 1 ∷ 2 ∷ []) ∷ inputs (3 ∷ 4 ∷ 5 ∷ 6 ∷ []) ∷ outputs (0 ∷ []) ∷ [];
}

small_sizes : (b : ℕ) → get_or (sizes (get_bus_set small_circuit.buses)) b 0 < 2147483648
unfolding get_bus_set
small_sizes b = ground arith

large_sizes : (b : ℕ) → get_or (sizes (get_bus_set large_circuit.buses)) b 0 < 2147483648
unfolding get_bus_set
large_sizes b = ground arith

two_more :
    large_circuit.pi_size + extra_buses large_circuit large_circuit.pi_size
    ≡ small_circuit.pi_size + extra_buses small_circuit small_circuit.pi_size + 2
unfolding extra_buses
two_more = refl

abbrev entries : ℕ × (ℕ → ℕ → Bool) → Run (List Bool)
entries r = ok (r.1 4 3 ∷ r.1 3 2 ∷ r.1 4 2 ∷ r.1 3 3 ∷ r.1 4 1 ∷ [])

-- Each bus can be matched with each that is not larger.
match_bus_test :
    (match_bus small_circuit large_circuit >>= entries)
    ≡ ok (true ∷ true ∷ true ∷ true ∷ false ∷ [])
unfolding match_bus
match_bus_test = refl

match_bus-Fits_example :
    (bus_size : ℕ) × (table : ℕ → ℕ → Bool) × (match_bus small_circuit large_circuit
      ≡ ok (bus_size, table))
    × ((a b : ℕ) → table a b ≡ true → Fits 2 a b)
unfolding get_bus_set
match_bus-Fits_example =
    match_bus-Fits small_circuit large_circuit 2 two_more (omega arith) small_sizes large_sizes
      (omega arith)

-- The first call, with a quota of 2.
abbrev first_call : Tried
first_call = record {
  quota = pos 2;
  occupied = λ i. false;
  one_bus_match = [];
  new_match = true;
  table = λ a b. false;
}

first_call-IsFair :
    IsFair (λ d. 4) (λ i. 3) 2 2 (omega arith) (λ d. omega arith) (λ i. omega arith) first_call
first_call-IsFair = record { left = 2; quota_left = refl; bounded = omega arith; fitting = tt }

recur_match_bus-Keeps_example :
    Keeps
      (λ d. 4)
      (λ i. 3)
      2
      2
      (omega arith)
      (λ d. omega arith)
      (λ i. omega arith)
      first_call
      (recur_match_bus (λ d. 4) (λ i. 3) 2 2 0 first_call)
recur_match_bus-Keeps_example =
    recur_match_bus-Keeps (λ d. 4) (λ i. 3) 2 2 (omega arith) (λ d. omega arith) (λ i. omega arith)
      2 0 first_call first_call-IsFair
