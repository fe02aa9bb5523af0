-- ===== src/Miter/Exhaustive.antt =====
-- `miterOneOutputRandom` on at most 17 matched inputs of circuit 1: it reaches every assignment.
use multi_bit_large_scale_bo.Base.{
  ℕ, zero, suc, ◌+◌, ◌*◌, ◌<◌, ◌≤◌, ◌≡◌, ◌≢◌, refl, sym, ◌∙◌, subst, fun_ext, ◌⊎◌, List, ◌++◌,
  Option, none, some, All, In, In-append, In-append_left, In-append_right, In-map, In-All, Run, ok,
  arith,
}
use mathlib.Core.Logic.{⊎_elim}
use native.Mathlib.Decide.{ℕ_discrete}
use multi_bit_large_scale_bo.Netlist.{Ptr, Heap}
use multi_bit_large_scale_bo.Netlist.Words.{Bits, PiValue}
use multi_bit_large_scale_bo.Netlist.Words.Sound.{miter_random_simulate-eq-value}
use multi_bit_large_scale_bo.Netlist.Meaning.{value, IsNetlist, IsUsed, Assignment}
use multi_bit_large_scale_bo.Miter.{
  Link, pnum, classify, compare_round, proceed, exhaustive, link_bit, assign_links, assign_patterns,
}
use multi_bit_large_scale_bo.Miter.Agree.{
  c1_ports, c2_ports, AgreeBut, Agree, encode, assign_patterns-Agree, assign_patterns_keeps,
  assign_links_keeps, assign_links-Agree,
}
use multi_bit_large_scale_bo.Miter.Verdict.{Related, pnum_pos, classify_sound}

-- The set of the inputs of circuit 1 that a matching names, and no port on both sides.
pub record Covers (set : List Ptr) (links : List Link) : Type 0 where
  pub apart : (p : Ptr) → In p (c1_ports links) → In p (c2_ports links) → ⊥
  pub within : (p : Ptr) → In p set → In p (c1_ports links)
  pub all : (p : Ptr) → In p (c1_ports links) → In p set

abbrev pub ports : List Link → List Ptr
ports links = c1_ports links ++ c2_ports links

pub proceed-eq-ok :
    (o : Option ℕ) (next : ℕ → Run ℕ) (t : ℕ)
    → proceed o next ≡ ok t
    → t ≢ 0
    → (type : ℕ) × (o ≡ some type) × (next type ≡ ok t)
proceed-eq-ok none next t e nonzero = ground arith
proceed-eq-ok (some type) next t e nonzero = (type, refl, e)

module _ {depth : ℕ} {h : Heap} {rank : Ptr → ℕ} (net : IsNetlist h rank depth) (out1 out2 : Ptr)
    (live1 : IsUsed rank out1) (live2 : IsUsed rank out2) where
  -- The two words that a round compares.
  abbrev pub word_at : Ptr → PiValue → Bits
  word_at out pi i = value depth h (λ p. pi p i) out

  pub compare_round_lem :
      (pi : PiValue) (type : ℕ)
      → compare_round depth h out1 out2 pi type
        ≡ ok (classify (word_at out1 pi) (word_at out2 pi) type)
  unfolding compare_round
  compare_round_lem pi type = rw (
    miter_random_simulate-eq-value net pi out1 live1,
    miter_random_simulate-eq-value net pi out2 live2,
  )

  module _ (set : List Ptr) (links : List Link) (end_index : ℕ) where
    prepared : ℕ → PiValue → PiValue
    prepared time pi = assign_links links (assign_patterns end_index set (pnum * time) 0 pi)

    exhaustive_step :
        (n time : ℕ) (pi : PiValue) (type : ℕ)
        → exhaustive depth h out1 out2 (suc n) set links end_index time pi type
          ≡ proceed
              (classify (word_at out1 (prepared time pi)) (word_at out2 (prepared time pi)) type)
              (λ type'.
                exhaustive depth h out1 out2 n set links end_index
                  (suc time)
                  (prepared time pi)
                  type')
    unfolding exhaustive prepared
    exhaustive_step n time pi type = rw (compare_round_lem (prepared time pi) type)

    exhaustive_inv :
        (n time : ℕ) (pi : PiValue) (type t : ℕ)
        → exhaustive depth h out1 out2 (suc n) set links end_index time pi type ≡ ok t
        → t ≢ 0
        → (type' : ℕ) × (classify
              (word_at out1 (prepared time pi))
              (word_at out2 (prepared time pi))
              type
            ≡ some type')
          × (exhaustive depth h out1 out2 n set links end_index (suc time) (prepared time pi) type'
              ≡ ok t)
    exhaustive_inv n time pi type t e nonzero =
        proceed-eq-ok _ _ t (sym (exhaustive_step n time pi type) ∙ e) nonzero

    -- A verdict that is set is the verdict in the end.
    exhaustive_keeps :
        (n time : ℕ) (pi : PiValue) (type t : ℕ)
        → exhaustive depth h out1 out2 n set links end_index time pi type ≡ ok t
        → t ≢ 0
        → (type ≡ 0) ⊎ (type ≡ t)
    unfolding exhaustive
    exhaustive_keeps zero time pi type t e nonzero = ground arith
    exhaustive_keeps (suc n) time pi type t e nonzero =
        let (type', c, r) = exhaustive_inv n time pi type t e nonzero in
        ground (
          arith,
          exhaustive_keeps n (suc time) (prepared time pi) type' t r nonzero,
          classify_sound _ _ type type' 0 c pnum_pos,
        )

    module _ (ρ : Assignment) (i : ℕ) (in_word : i < pnum) where
      -- A round's verdict holds of the two values under an assignment that stands at some index.
      round_sound :
          (pi : PiValue) (type t : ℕ)
          → Agree ρ i pi
          → classify (word_at out1 pi) (word_at out2 pi) type ≡ some t
          → Related t (value depth h ρ out1) (value depth h ρ out2)
      round_sound pi type t agree c =
          let at : (λ (p : Ptr). pi p i) ≡ ρ = fun_ext agree in
          subst (λ (σ : Assignment). Related t (value depth h σ out1) (value depth h σ out2)) at
            (classify_sound (word_at out1 pi) (word_at out2 pi) type t i c in_word).0

      module _ (covers : Covers set links) where
        -- A round writes the matched ports alone.
        prepared_keeps :
            (time : ℕ) (pi : PiValue)
            → AgreeBut ρ i (ports links) pi
            → AgreeBut ρ i (ports links) (prepared time pi)
        unfolding prepared
        prepared_keeps time pi agree =
            assign_links_keeps ρ i links (ports links) _
              (λ p m. In-append_right p (c1_ports links) (c2_ports links) m)
              (assign_patterns_keeps ρ i end_index set (ports links) (pnum * time) 0 pi
                (λ p m. In-append_left p (c1_ports links) (c2_ports links) (covers.within p m))
                agree)

        -- The round that holds the number of the assignment puts it at index `i`.
        prepared-Agree :
            (time : ℕ) (pi : PiValue)
            → All (λ l. ρ l.c2 ≡ link_bit l.neg (ρ l.c1)) links
            → AgreeBut ρ i (ports links) pi
            → pnum * time + i ≡ encode ρ set
            → i < end_index
            → Agree ρ i (prepared time pi)
        unfolding prepared
        prepared-Agree time pi linked agree code short =
            assign_links-Agree ρ i links pi' linked
              (In-All links λ l m.
                ⊎_elim (λ c2. absurd (covers.apart l.c1 (In-map (λ k. k.c1) l links m) c2)) (λ e. e)
                  (assigned l.c1))
              assigned
          where
            pi' : PiValue
            pi' = assign_patterns end_index set (pnum * time) 0 pi

            place : (p : Ptr) → In p set ⊎ (In p (c2_ports links) ⊎ (pi p i ≡ ρ p))
            place p =
                ground (arith, agree p, covers.all p, In-append p (c1_ports links) (c2_ports links))

            assigned : AgreeBut ρ i (c2_ports links) pi'
            assigned =
                assign_patterns-Agree ρ i end_index set (c2_ports links) (pnum * time) 0 pi
                  (omega arith) (omega arith) code place

        -- The verdict of all rounds holds, if one of them has the number of the assignment at `i`.
        pub exhaustive_sound :
            (n time r : ℕ) (pi : PiValue) (type t : ℕ)
            → All (λ l. ρ l.c2 ≡ link_bit l.neg (ρ l.c1)) links
            → AgreeBut ρ i (ports links) pi
            → pnum * r + i ≡ encode ρ set
            → i < end_index
            → time ≤ r
            → r < time + n
            → exhaustive depth h out1 out2 n set links end_index time pi type ≡ ok t
            → t ≢ 0
            → Related t (value depth h ρ out1) (value depth h ρ out2)
        exhaustive_sound zero time r pi type t linked agree code short low high e nonzero =
            absurd (omega arith)
        exhaustive_sound (suc n) time r pi type t linked agree code short low high e nonzero =
            let (type', c, rest) = exhaustive_inv n time pi type t e nonzero in
            elim (ℕ_discrete time r) [
              | yes now ↦
                  let final : (type' ≡ 0) ⊎ (type' ≡ t) =
                    exhaustive_keeps n (suc time) (prepared time pi) type' t rest nonzero in
                  let here =
                    round_sound (prepared time pi) type type'
                      (prepared-Agree time pi linked agree (rw now code) short) c in
                  ⊎_elim
                    (λ zero_type. absurd (
                      subst (λ k. Related k (value depth h ρ out1) (value depth h ρ out2)) zero_type
                        here))
                    (λ same.
                      subst (λ k. Related k (value depth h ρ out1) (value depth h ρ out2)) same
                        here)
                    final
              | no later ↦
                  exhaustive_sound n (suc time) r (prepared time pi) type' t linked
                    (prepared_keeps time pi agree) code short (omega arith) (omega arith) rest
                    nonzero
            ]
