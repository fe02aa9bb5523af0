-- ===== src/Matching/Search/Invariant.antt =====
-- src/Matching.cpp: what the search keeps true of its state, and what a call of it leaves.
use multi_bit_large_scale_bo.Base.{
  ℕ, suc, ◌+◌, ◌<◌, ◌≤◌, ◌≡◌, ◌≢◌, List, [], ◌∷◌, Bool, true, false, length, ◌==◌, if◌then◌else◌,
  In, IsDistinct, Run, ok,
}
use multi_bit_large_scale_bo.Base.Int.{pos}
use multi_bit_large_scale_bo.Answer.{Lock}
use multi_bit_large_scale_bo.Matching.State.{
  port, Problem, Core, Best, Search, Locals, unlocked, is_none, is_unlocked,
}
use multi_bit_large_scale_bo.Matching.Buses.{buses_fit}
use multi_bit_large_scale_bo.Matching.Filter.Quota.{IsLock}
use multi_bit_large_scale_bo.Matching.Search.{call_compare, Outcome}

-- The problems for which a step back restores the state: the comparison answers 0, 1 or 2 for locks in range and a
-- candidate, no input is in two buses,
-- no bus has inputs and outputs, the exception of case 08 is off, and the candidates are
-- among the `n` inputs of circuit 1.
pub record IsPlain (n : ℕ) (P : Problem) : Type 0 where
  pub answers :
      (locks : ℕ → Lock)
      → ((p : ℕ) → IsLock n (locks p).0)
      → (q o : ℕ) → In q P.output_match_order
      → In o (P.output_match_cand q)
      → (t : ℕ) × (call_compare P.compare locks (P.output_support2 q) (q, o) ≡ ok t) × (t ≤ 2)
  pub single : (p : ℕ) → length (P.bus_indices2 p) < 2
  pub no_exception : P.case_08 ≡ false
  pub apart2 : (p q : ℕ) → P.input_bus2 p ≢ P.output_bus2 q
  pub apart1 : (j o : ℕ) → P.input_bus1 j ≢ P.output_bus1 o
  pub candidates : (p j : ℕ) → In (port j) (P.input_match_cand p) → j < n
  pub few_buses : (q : ℕ) → length (P.output_to_input_bus q) < 2147483648
  pub distinct : IsDistinct P.output_match_order

-- The locks of `L` are among `M`.
abbrev pub Within : (ℕ → Lock) → (ℕ → Lock) → Type 0
Within L M = (p : ℕ) → is_none (L p).0 ≡ false → M p ≡ L p

-- Outputs `q` and `o` were compared under locks that are among `M`, and `neg` says that they are complementary.
abbrev pub IsVerified : Problem → (ℕ → Lock) → ℕ → ℕ → Bool → Type 0
IsVerified P M q o neg =
    (L : ℕ → Lock) × Within L M
    × (call_compare P.compare L (P.output_support2 q) (q, o) ≡ ok (if neg then 2 else 1))

-- A match: every matched output was compared, and no two are matched with one output of circuit 1.
pub record IsMatch (P : Problem) (outs ins : ℕ → Lock) : Type 0 where
  pub verified : (q o : ℕ) (neg : Bool) → outs q ≡ (pos o, neg) → IsVerified P ins q o neg
  pub injective :
      (q q' o : ℕ) (neg neg' : Bool) → outs q ≡ (pos o, neg) → outs q' ≡ (pos o, neg') → q ≡ q'

-- The counts and buses agree with the locks.
pub record IsConsistent (n : ℕ) (P : Problem) (c : Core) : Type 0 where
  pub idle : (p : ℕ) → c.input_lock_count p ≡ 0 → c.input_lock p ≡ unlocked
  pub in_range : (p : ℕ) → IsLock n (c.input_lock p).0
  pub bus : (b : ℕ) → is_none (c.bus_2_to_1 b) ≡ (c.bus_count b == 0)
  pub held : (p j : ℕ) → (c.input_lock p).0 ≡ pos j → c.bus_count (P.input_bus2 p) ≢ 0
  pub counted : (q o : ℕ) (neg : Bool) → c.output_lock q ≡ (pos o, neg) → c.output_lock_count o ≢ 0
  pub good : IsMatch P c.output_lock c.input_lock

-- The number of outputs in a list that are not matched.
abbrev pub free_count : List ℕ → (ℕ → Lock) → ℕ
free_count [] f = 0
free_count (q ∷ qs) f = (if is_unlocked (f q) then 1 else 0) + free_count qs f

-- The state while the inputs for outputs `q` and `o` are matched.
pub record IsReady (n : ℕ) (P : Problem) (recorded : List ℕ) (q o left : ℕ) (c : Core)
    : Type 0 where
  pub consistent : IsConsistent n P c
  pub locked : (p : ℕ) → In p recorded → is_none (c.input_lock p).0 ≡ false
  pub output_free : c.output_lock q ≡ unlocked
  pub unmatched : c.output_lock_count o ≡ 0
  pub fits : buses_fit c (P.output_bus2 q) (P.output_bus1 o) ≡ true
  pub room : suc left ≤ free_count P.output_match_order c.output_lock

-- The recorded match is one.
abbrev pub IsSound : Problem → Best → Type 0
IsSound P b = IsMatch P b.output_match b.input_match

-- What a call from the state `c` leaves: on false the state is restored, and on true the search has
-- found a match of every output.
pub record Ends (P : Problem) (c : Core) (r : Bool × Search) : Type 0 where
  pub restored : r.0 ≡ false → r.1.core ≡ c
  pub found : r.0 ≡ true → r.1.best.found ≡ true
  pub sound : IsSound P r.1.best

pub record EndsWalk (P : Problem) (c : Core) (l : Locals) (r : Outcome) : Type 0 where
  pub restored : r.0 ≡ false → (r.1.core ≡ c) × (r.2 ≡ l)
  pub found : r.0 ≡ true → r.1.best.found ≡ true
  pub sound : IsSound P r.1.best

-- From `c`, and every sound record, the call ends so.
abbrev pub Fine : Problem → Core → (Search → Run (Bool × Search)) → Type 0
Fine P c f =
    (b : Best)
    → IsSound P b
    → (r : Bool × Search) × (f (record { core = c; best = b }) ≡ ok r) × Ends P c r

abbrev pub FineWalk : Problem → Core → Locals → (Search → Locals → Run Outcome) → Type 0
FineWalk P c l f =
    (b : Best)
    → IsSound P b
    → (r : Outcome) × (f (record { core = c; best = b }) l ≡ ok r) × EndsWalk P c l r
