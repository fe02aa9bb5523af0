-- ===== src/Miter/Agree.antt =====
-- The words of the inputs, seen at one index: which assignment to the inputs stands there.
use multi_bit_large_scale_bo.Base.{
  ℕ, zero, suc, ◌+◌, ◌*◌, ◌/◌, ◌%◌, ◌^◌, ◌<◌, ◌≤◌, ◌≡◌, ◌≢◌, refl, ◌∙◌, ◌⊎◌, inr, false, List, [],
  ◌∷◌, map, ◌==◌, if◌then◌else◌, In, All, All-map, length, arith,
}
use native.Mathlib.Nat.{two-pow-succ}
use native.Mathlib.Decide.{ℕ_discrete}
use multi_bit_large_scale_bo.Netlist.{Ptr}
use multi_bit_large_scale_bo.Netlist.Words.{PiValue}
use multi_bit_large_scale_bo.Netlist.Meaning.{Assignment}
use multi_bit_large_scale_bo.Miter.{
  Link, Constant, put, put_bit, assign_constants, assign_pattern, assign_patterns, link_bit,
  link_word, assign_links,
}

abbrev pub c1_ports : List Link → List Ptr
c1_ports = map (λ l. l.c1)

abbrev pub c2_ports : List Link → List Ptr
c2_ports = map (λ l. l.c2)

abbrev pub constant_ports : List Constant → List Ptr
constant_ports = map (λ c. c.port)

-- The assignments that a matching allows: a matched input of circuit 2 has the value of its partner
-- or its complement, a constant input has its constant, and an input that is not matched is 0.
pub record Respects (links : List Link) (consts : List Constant) (ρ : Assignment) : Type 0 where
  pub linked : All (λ l. ρ l.c2 ≡ link_bit l.neg (ρ l.c1)) links
  pub constant : All (λ c. ρ c.port ≡ c.bit) consts
  pub dangling :
      (p : Ptr)
      → (In p (c1_ports links) → ⊥)
      → (In p (c2_ports links) → ⊥)
      → (In p (constant_ports consts) → ⊥)
      → ρ p ≡ false

module _ (ρ : Assignment) where
  -- The number of the pattern that gives the inputs in `set` their values under `ρ`.
  pub encode : List Ptr → ℕ
  encode [] = 0
  encode (p ∷ set) = (if ρ p then 1 else 0) + 2 * encode set

  pub encode-lt : (set : List Ptr) → encode set < 2 ^ length set
  unfolding encode
  encode-lt [] = omega arith
  encode-lt (p ∷ set) = rw two-pow-succ (ground (arith, encode-lt set))

  encode_low : (q : Ptr) (set : List Ptr) → (encode (q ∷ set) % 2 == 1) ≡ ρ q
  unfolding encode
  encode_low q set = ground arith

  encode_high : (q : Ptr) (set : List Ptr) → encode (q ∷ set) / 2 ≡ encode set
  unfolding encode
  encode_high q set = ground arith

module _ (ρ : Assignment) (i : ℕ) where
  -- At index `i` the words hold the assignment, except perhaps at the ports of a list.
  abbrev pub AgreeBut : List Ptr → PiValue → Type 0
  AgreeBut ps pi = (p : Ptr) → In p ps ⊎ (pi p i ≡ ρ p)

  abbrev pub Agree : PiValue → Type 0
  Agree pi = (p : Ptr) → pi p i ≡ ρ p

  pub assign_constants-Agree :
      (cs : List Constant) (ps : List Ptr) (pi : PiValue)
      → All (λ c. ρ c.port ≡ c.bit) cs
      → ((p : Ptr) → In p (constant_ports cs) ⊎ (In p ps ⊎ (pi p i ≡ ρ p)))
      → AgreeBut ps (assign_constants cs pi)
  unfolding assign_constants
  assign_constants-Agree [] ps pi e agree = λ p. ground (arith, agree p)
  assign_constants-Agree (c ∷ cs) ps pi e agree =
      assign_constants-Agree cs ps (put pi c.port (λ j. c.bit)) e.1 (λ p. ground (arith, agree p))

  pub assign_pattern-Agree :
      (set ps : List Ptr) (pi : PiValue)
      → ((p : Ptr) → In p set ⊎ (In p ps ⊎ (pi p i ≡ ρ p)))
      → AgreeBut ps (assign_pattern set i (encode ρ set) pi)
  unfolding assign_pattern
  assign_pattern-Agree [] ps pi agree = λ p. ground (arith, agree p)
  assign_pattern-Agree (q ∷ set) ps pi agree =
      rw (encode_high ρ q set, encode_low ρ q set)
        (assign_pattern-Agree set ps (put_bit pi q i (ρ q)) (λ p. ground (arith, agree p)))

  -- A pattern at another index leaves the bits at `i`.
  assign_pattern_frame :
      (set : List Ptr) (j val : ℕ) (pi : PiValue) (p : Ptr)
      → j ≢ i
      → assign_pattern set j val pi p i ≡ pi p i
  unfolding assign_pattern
  assign_pattern_frame [] j val pi p n = refl
  assign_pattern_frame (q ∷ set) j val pi p n =
      ground (arith, assign_pattern_frame set j (val / 2) (put_bit pi q j (val % 2 == 1)) p)

  assign_patterns_frame :
      (n : ℕ) (set : List Ptr) (base j : ℕ) (pi : PiValue) (p : Ptr)
      → i < j
      → assign_patterns n set base j pi p i ≡ pi p i
  unfolding assign_patterns
  assign_patterns_frame zero set base j pi p less = refl
  assign_patterns_frame (suc n) set base j pi p less =
      assign_patterns_frame n set base (suc j) (assign_pattern set j (base + j) pi) p (omega arith)
      ∙ assign_pattern_frame set j (base + j) pi p (omega arith)

  -- Whatever pattern is assigned, only the ports that are assigned change.
  assign_pattern_keeps :
      (set ps : List Ptr) (j val : ℕ) (pi : PiValue)
      → ((p : Ptr) → In p set → In p ps)
      → AgreeBut ps pi
      → AgreeBut ps (assign_pattern set j val pi)
  unfolding assign_pattern
  assign_pattern_keeps [] ps j val pi within agree = agree
  assign_pattern_keeps (q ∷ set) ps j val pi within agree =
      assign_pattern_keeps set ps j (val / 2) (put_bit pi q j (val % 2 == 1))
        (λ p m. within p (inr m)) (λ p. ground (arith, agree p, within p))

  pub assign_patterns_keeps :
      (n : ℕ) (set ps : List Ptr) (base j : ℕ) (pi : PiValue)
      → ((p : Ptr) → In p set → In p ps)
      → AgreeBut ps pi
      → AgreeBut ps (assign_patterns n set base j pi)
  unfolding assign_patterns
  assign_patterns_keeps zero set ps base j pi within agree = agree
  assign_patterns_keeps (suc n) set ps base j pi within agree =
      assign_patterns_keeps n set ps base (suc j) (assign_pattern set j (base + j) pi) within
        (assign_pattern_keeps set ps j (base + j) pi within agree)

  -- The round whose pattern at index `i` is the number of the assignment.
  pub assign_patterns-Agree :
      (n : ℕ) (set ps : List Ptr) (base j : ℕ) (pi : PiValue)
      → j ≤ i
      → i < j + n
      → base + i ≡ encode ρ set
      → ((p : Ptr) → In p set ⊎ (In p ps ⊎ (pi p i ≡ ρ p)))
      → AgreeBut ps (assign_patterns n set base j pi)
  unfolding assign_patterns
  assign_patterns-Agree zero set ps base j pi low high e agree = absurd (omega arith)
  assign_patterns-Agree (suc n) set ps base j pi low high e agree = elim (ℕ_discrete j i) [
    | yes here ↦ λ p.
        rw
          (assign_patterns_frame n set base (suc j) (assign_pattern set j (base + j) pi) p
            (omega arith))
          (rw (here, e) (assign_pattern-Agree set ps pi agree p))
    | no later ↦
        assign_patterns-Agree n set ps base (suc j) (assign_pattern set j (base + j) pi)
          (omega arith) (omega arith) e
          (λ p. rw (assign_pattern_frame set j (base + j) pi p later) (agree p))
  ]

  pub assign_links_keeps :
      (ls : List Link) (ps : List Ptr) (pi : PiValue)
      → ((p : Ptr) → In p (c2_ports ls) → In p ps)
      → AgreeBut ps pi
      → AgreeBut ps (assign_links ls pi)
  unfolding assign_links
  assign_links_keeps [] ps pi within agree = agree
  assign_links_keeps (l ∷ ls) ps pi within agree =
      assign_links_keeps ls ps (put pi l.c2 (link_word l.neg (pi l.c1))) (λ p m. within p (inr m))
        (λ p. ground (arith, agree p, within p))

  -- If the inputs of circuit 1 have their values, the loop over the pairs gives the matched inputs
  -- of circuit 2 theirs.
  pub assign_links-Agree :
      (ls : List Link) (pi : PiValue)
      → All (λ l. ρ l.c2 ≡ link_bit l.neg (ρ l.c1)) ls
      → All (λ l. pi l.c1 i ≡ ρ l.c1) ls
      → AgreeBut (c2_ports ls) pi
      → Agree (assign_links ls pi)
  unfolding assign_links
  assign_links-Agree [] pi linked ready agree = λ p. ground (arith, agree p)
  assign_links-Agree (l ∷ ls) pi linked ready agree =
      assign_links-Agree ls (put pi l.c2 (link_word l.neg (pi l.c1))) linked.1
        (All-map ls (λ k r. ground arith) ready.1) (λ p. ground (arith, agree p))
