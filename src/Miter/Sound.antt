-- ===== src/Miter/Sound.antt =====
-- What a verdict of `miterOneOutputRandom` says of the two outputs.
use multi_bit_large_scale_bo.Base.{
  ℕ, suc, ◌+◌, ◌*◌, ◌/◌, ◌%◌, ◌^◌, ◌<◌, ◌≤◌, ◌≡◌, ◌≢◌, subst, ◌⊎◌, inl, inr, false, List, [], leb,
  lt→ltb, if◌then◌else◌, In, In-or_not, In-append_left, In-append_right, IsDistinct, leb→le, ok,
  arith, Bool-cases, length,
}
use native.Mathlib.Nat.{pow-le-pow_right}
use multi_bit_large_scale_bo.Netlist.{Ptr, Heap}
use multi_bit_large_scale_bo.Netlist.Words.{bits_of_zero}
use multi_bit_large_scale_bo.Netlist.Meaning.{value, IsNetlist, IsUsed, Assignment}
use multi_bit_large_scale_bo.Miter.{
  Link, Constant, pnum, c1_input_set, compare_outputs, initial_value,
}
use multi_bit_large_scale_bo.Miter.Agree.{
  c1_ports, c2_ports, constant_ports, Respects, AgreeBut, encode, encode-lt, assign_constants-Agree,
}
use multi_bit_large_scale_bo.Miter.Verdict.{Related, c1_input_set_mem}
use multi_bit_large_scale_bo.Miter.Exhaustive.{Covers, ports, exhaustive_sound}

-- An order in which an unordered set is passed through: each element, once.
pub record IsOrder (order : List Ptr → List Ptr) : Type 0 where
  pub same : (ps : List Ptr) (p : Ptr) → (In p (order ps) → In p ps) × (In p ps → In p (order ps))
  pub size : (ps : List Ptr) → length (order ps) ≡ length ps

-- No port is matched twice, the two circuits share no port, and a constant port is not matched.
pub record IsProper (links : List Link) (consts : List Constant) : Type 0 where
  pub apart : (p : Ptr) → In p (c1_ports links) → In p (c2_ports links) → ⊥
  pub distinct : IsDistinct (c2_ports links)
  pub constants_distinct : IsDistinct (constant_ports consts)
  pub constants_apart :
      (p : Ptr)
      → In p (constant_ports consts)
      → (In p (c1_ports links) → ⊥) × (In p (c2_ports links) → ⊥)

-- The words of the inputs before the first round agree with every assignment that the matching
-- allows, but at the matched ports.
pub initial_value-AgreeBut :
    (links : List Link) (consts : List Constant) (ρ : Assignment) (i : ℕ)
    → Respects links consts ρ
    → AgreeBut ρ i (ports links) (initial_value consts)
unfolding initial_value
initial_value-AgreeBut links consts ρ i r =
    assign_constants-Agree ρ i consts (ports links) (λ p. bits_of_zero) r.constant start
  where
    start : (p : Ptr) → In p (constant_ports consts) ⊎ (In p (ports links) ⊎ (false ≡ ρ p))
    start p = ground (
      arith,
      r.dangling p,
      In-or_not p (constant_ports consts),
      In-or_not p (ports links),
      In-append_left p (c1_ports links) (c2_ports links),
      In-append_right p (c1_ports links) (c2_ports links),
    )

-- The set that the code collects covers the matching.
pub set-Covers :
    (order : List Ptr → List Ptr) (links : List Link) (consts : List Constant)
    → IsOrder order
    → IsProper links consts
    → Covers (order (c1_input_set links [])) links
set-Covers order links consts perm proper = record {
  apart = proper.apart;
  within = λ p m. ground (arith, c1_input_set_mem p links [], perm.same (c1_input_set links []) p);
  all = λ p m. ground (arith, c1_input_set_mem p links [], perm.same (c1_input_set links []) p);
}

-- The number of an assignment to at most 17 inputs is met in some round, at some index.
record Place (order : List Ptr → List Ptr) (set : List Ptr) (code : ℕ) : Type 0 where
  round : ℕ
  index : ℕ
  number : pnum * round + index ≡ code
  in_word : index < pnum
  short : index < (if leb (length set) 13 then 2 ^ length set else pnum)
  met : round < suc (2 ^ length set / 2 ^ 13)

find-Place :
    (order : List Ptr → List Ptr) (set : List Ptr) (code : ℕ)
    → code < 2 ^ length set
    → Place order set code
unfolding pnum
find-Place order set code less = record {
  round = code / 8192;
  index = code % 8192;
  number = omega arith;
  in_word = omega arith;
  short = short;
  met = omega arith;
}
  where
    short : code % 8192 < (if leb (length set) 13 then 2 ^ length set else 8192)
    short = elim (Bool-cases (leb (length set) 13)) [
      | inl small ↦
          let bound : 2 ^ length set ≤ 8192 =
            pow-le-pow_right (omega arith) (leb→le (length set) 13 small) in
          rw small (omega arith)
      | inr large ↦ rw large (omega arith)
    ]

module _ {depth : ℕ} {h : Heap} {rank : Ptr → ℕ} (net : IsNetlist h rank depth) where
  -- On at most 17 matched inputs of circuit 1 the verdict 1 means that the two outputs are equal under
  -- every assignment that the matching allows, and the verdict 2 that they are complementary.
  pub compare_outputs_sound :
      (out1 out2 : Ptr) (order : List Ptr → List Ptr) (rand : ℕ → ℕ) (links : List Link)
      (consts : List Constant) (t : ℕ) (ρ : Assignment)
      → IsUsed rank out1
      → IsUsed rank out2
      → IsOrder order
      → IsProper links consts
      → length (c1_input_set links []) < 18
      → compare_outputs depth h out1 out2 order rand links consts ≡ ok t
      → t ≢ 0
      → Respects links consts ρ
      → Related t (value depth h ρ out1) (value depth h ρ out2)
  unfolding compare_outputs
  compare_outputs_sound out1 out2 order rand links consts t ρ live1 live2 perm proper few e nonzero
        r =
      let set = c1_input_set links [] in
      let place =
        find-Place order set (encode ρ (order set))
          (subst (λ k. encode ρ (order set) < 2 ^ k) (perm.size set) (encode-lt ρ (order set))) in
      exhaustive_sound net out1 out2 live1 live2 (order set) links _ ρ place.index place.in_word
        (set-Covers order links consts perm proper) _ 0 place.round (initial_value consts) 0 t
        r.linked (initial_value-AgreeBut links consts ρ place.index r) place.number place.short
        (omega arith) (omega (arith, place.met)) (rw (lt→ltb _ _ few) at e) nonzero
