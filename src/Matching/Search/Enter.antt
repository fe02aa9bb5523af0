-- ===== src/Matching/Search/Enter.antt =====
-- src/Matching.cpp: a candidate of `match_input` that is entered and left.
use multi_bit_large_scale_bo.Base.{
  ℕ, zero, suc, ◌≡◌, ◌≢◌, refl, sym, ap, ◌∙◌, subst, ◌⊎◌, inl, inr, arith, Bool-cases, List, Bool,
  true, false, not, ◌&&◌, length, ◌==◌, ==_ne, ==_refl, ==_iff, ltb, if◌then◌else◌, ok, some, none,
}
use native.Mathlib.Decide.{ℕ_discrete}
use multi_bit_large_scale_bo.Base.Int.{ℤ, pos, negsuc}
use multi_bit_large_scale_bo.Answer.{Lock}
use multi_bit_large_scale_bo.Matching.State.{
  Candidate, constant, port, Problem, Core, Locals, update, raise, drop, unlocked, is_none, is_port,
}
use multi_bit_large_scale_bo.Matching.Buses.{
  buses_free, buses_joined, join, raise_bus, release_bus, enter_bus, leave_bus,
}
use multi_bit_large_scale_bo.Matching.Filter.{pred_ℤ}
use multi_bit_large_scale_bo.Matching.Filter.Quota.{IsLock}
use multi_bit_large_scale_bo.Matching.Search.{succ_ℤ, lock_input, enter, leave, candidate_idx}
use multi_bit_large_scale_bo.Matching.Search.Invariant.{IsPlain, IsReady}
use multi_bit_large_scale_bo.Matching.Search.Steps.{
  drop-raise, release-join, release-raise_bus, joined_count, join-IsReady, raise_bus-IsReady,
}

succ-pred_ℤ : (z : ℤ) → succ_ℤ (pred_ℤ z) ≡ z
succ-pred_ℤ (pos zero) = refl
succ-pred_ℤ (pos (suc n)) = refl
succ-pred_ℤ (negsuc n) = refl

module _ (n : ℕ) (P : Problem) (recorded : List ℕ) (q o left : ℕ) (plain : IsPlain n P)
    (p : ℕ) where
  single_bus : ltb 1 (length (P.bus_indices2 p)) ≡ false
  single_bus = ground (arith, plain.single p)

  abbrev with_input : ℕ → Core → Core
  with_input j c = record c { input_count = raise c.input_count j }

  abbrev entered_locals : ℕ → Locals → Locals
  entered_locals j l = record {
    quota = if l.count j == 0 then l.quota else pred_ℤ l.quota;
    count = raise l.count j;
  }

  left_locals :
      (j : ℕ) (l : Locals)
      → (if ltb 1 (raise l.count j j)
          then succ_ℤ (if l.count j == 0 then l.quota else pred_ℤ l.quota)
          else (if l.count j == 0 then l.quota else pred_ℤ l.quota))
        ≡ l.quota
  left_locals j l = elim (ℕ_discrete (l.count j) 0) [
    | yes new ↦ rw (==_refl j, new)
    | no old ↦ rw (==_refl j, ==_ne (l.count j) 0 old, more old) (succ-pred_ℤ l.quota)
  ]
    where
      more : l.count j ≢ 0 → ltb 1 (suc (l.count j)) ≡ true
      more old = ground arith

  -- What `leave` undoes: the buses, the counts and the quota.
  leave_lem :
      (j : ℕ) (c B : Core) (l : Locals)
      → release_bus B (P.input_bus2 p) (P.input_bus1 j) ≡ c
      → leave P p (port j) (with_input j B) (entered_locals j l) ≡ ok (c, l)
  unfolding leave leave_bus
  leave_lem j c B l e = rw single_bus (
      ap
        (λ (f : ℕ → ℕ).
          ok (
            release_bus (record B { input_count = f }) (P.input_bus2 p) (P.input_bus1 j),
            restored,
          ))
        (drop-raise B.input_count j)
      ∙ λ i. ok (e i, record { quota = left_locals j l i; count = drop-raise l.count j i }))
    where
      restored : Locals
      restored = record {
        quota =
            if ltb 1 (raise l.count j j)
            then succ_ℤ (if l.count j == 0 then l.quota else pred_ℤ l.quota)
            else (if l.count j == 0 then l.quota else pred_ℤ l.quota);
        count = drop (raise l.count j) j;
      }

  -- A candidate is skipped, or the state after it is ready, and leaving it restores the state before.
  abbrev pub Entered : Candidate → Core → Locals → Type 0
  Entered cand c l =
      (enter P o p cand c l ≡ ok none)
      ⊎ ((c' : Core) × (l' : Locals) × (enter P o p cand c l ≡ ok (some (c', l')))
          × (leave P p cand c' l' ≡ ok (c, l))
          × IsReady n P recorded q o left c'
          × ((j : ℕ) → candidate_idx P cand ≡ pos j → c'.bus_count (P.input_bus2 p) ≢ 0))

  with_input-IsReady :
      (j : ℕ) (c : Core)
      → IsReady n P recorded q o left c
      → IsReady n P recorded q o left (with_input j c)
  with_input-IsReady j c r = record {
    consistent = record {
      idle = r.consistent.idle;
      in_range = r.consistent.in_range;
      bus = r.consistent.bus;
      held = r.consistent.held;
      counted = r.consistent.counted;
      good = r.consistent.good;
    };
    locked = r.locked;
    output_free = r.output_free;
    unmatched = r.unmatched;
    fits = r.fits;
    room = r.room;
  }

  enter_bus_lem :
      (j : ℕ) (c : Core)
      → IsReady n P recorded q o left c
      → (enter_bus P c p j ≡ ok none)
        ⊎ ((B : Core) × (enter_bus P c p j ≡ ok (some B))
            × (release_bus B (P.input_bus2 p) (P.input_bus1 j) ≡ c)
            × IsReady n P recorded q o left B
            × (B.bus_count (P.input_bus2 p) ≢ 0))
  unfolding enter_bus
  enter_bus_lem j c r = elim (Bool-cases (buses_free c (P.input_bus2 p) (P.input_bus1 j))) [
    | inl free ↦
        let zero_count : c.bus_count (P.input_bus2 p) ≡ 0 = no_count free in
        inr (
          raise_bus (join c (P.input_bus2 p) (P.input_bus1 j)) (P.input_bus2 p),
          rw (single_bus, free),
          release-join c (P.input_bus2 p) (P.input_bus1 j) free zero_count,
          join-IsReady n P recorded q o left plain c p j r,
          raised,
        )
    | inr held ↦ elim (Bool-cases (buses_joined c (P.input_bus2 p) (P.input_bus1 j))) [
      | inl joined ↦
          let old =
            joined_count c (P.input_bus2 p) (P.input_bus1 j) (r.consistent.bus (P.input_bus2 p))
              joined in
          inr (
            raise_bus c (P.input_bus2 p),
            rw (single_bus, held, plain.no_exception, joined),
            release-raise_bus c (P.input_bus2 p) (P.input_bus1 j) old,
            raise_bus-IsReady n P recorded q o left plain c (P.input_bus2 p) old r,
            raised,
          )
      | inr other ↦ inl (rw (single_bus, held, plain.no_exception, other))
    ]
  ]
    where
      no_count :
          buses_free c (P.input_bus2 p) (P.input_bus1 j) ≡ true → c.bus_count (P.input_bus2 p) ≡ 0
      no_count free = ground (arith, r.consistent.bus (P.input_bus2 p))

      raised : raise c.bus_count (P.input_bus2 p) (P.input_bus2 p) ≢ 0
      raised = ground arith

  -- For a problem where the comparison answers 0, 1 or 2 whenever the locks are in range, no input of
  -- circuit 2 is in two buses, no bus has both inputs and outputs, the exception of `case_08` is off, the
  -- candidates of inputs are inputs of circuit 1, outputs have fewer than 2 ^ 31 buses of inputs, and no
  -- output is twice in the order: from a ready state of `match_input`, a candidate is skipped, or entering
  -- it gives a ready state in which the bus of the input has a count if the candidate is no constant, and
  -- leaving it restores the locks, buses and counts, and the quota.
  pub enter-Entered :
      (cand : Candidate) (c : Core) (l : Locals)
      → IsReady n P recorded q o left c
      → Entered cand c l
  unfolding enter leave
  enter-Entered constant c l r = elim (Bool-cases (is_port l.quota 0)) [
    | inl spent ↦ inl (rw spent)
    | inr more ↦ inr (
      c,
      record l { quota = pred_ℤ l.quota },
      rw more,
      λ i. ok (c, record l { quota = succ-pred_ℤ l.quota i }),
      r,
      λ j e. cc,
    )
  ]
  enter-Entered (port j) c l r = elim (Bool-cases (P.input_size_eq && not (c.input_count j == 0))) [
    | inl taken ↦ inl (rw taken)
    | inr open_ ↦ elim (Bool-cases (P.is_pi_in_po o j)) [
      | inr outside ↦ inl (rw (open_, outside))
      | inl inside ↦ elim (Bool-cases (not (l.count j == 0) && is_port l.quota 0)) [
        | inl spent ↦ inl (rw (open_, inside, spent))
        | inr more ↦ elim (enter_bus_lem j c r) [
          | inl skip ↦ inl (rw (open_, inside, more, skip))
          | inr (B, e, back, ready, count) ↦ inr (
            with_input j B,
            entered_locals j l,
            rw (open_, inside, more, e),
            leave_lem j c B l back,
            with_input-IsReady j B ready,
            λ k same. count,
          )
        ]
      ]
    ]
  ]

  abbrev new_lock : ℤ → Bool → Core → ℕ → Lock
  new_lock z neg c =
      if c.input_lock_count p == 0 then update c.input_lock p (z, neg) else c.input_lock

  -- A lock stays as it was, or it is the new one of an input that was not locked.
  lock_cases :
      (z : ℤ) (neg : Bool) (c : Core)
      → IsReady n P recorded q o left c
      → (k : ℕ)
      → (new_lock z neg c k ≡ c.input_lock k)
        ⊎ ((k ≡ p) × (new_lock z neg c k ≡ (z, neg)) × (c.input_lock k ≡ unlocked))
  lock_cases z neg c r k = elim (ℕ_discrete (c.input_lock_count p) 0) [
    | no old ↦ inl (rw (==_ne (c.input_lock_count p) 0 old))
    | yes new ↦ elim (ℕ_discrete k p) [
      | yes same ↦
          inr (same, rw (new, (==_iff k p).1 same), ap c.input_lock same ∙ r.consistent.idle p new)
      | no other ↦ inl (rw (new, ==_ne k p other))
    ]
  ]

  -- If a state is ready, so is the state after `lock_input` for a lock in range that is not none, where the bus of `p`
  -- has a count if the lock is to an input of circuit 1.
  pub lock_input-IsReady :
      (z : ℤ) (neg : Bool) (c : Core)
      → IsLock n z
      → ((j : ℕ) → z ≡ pos j → c.bus_count (P.input_bus2 p) ≢ 0)
      → is_none z ≡ false
      → IsReady n P recorded q o left c
      → IsReady n P recorded q o left (lock_input p z neg c)
  unfolding lock_input
  lock_input-IsReady z neg c range count set r = record {
    consistent = record {
      idle = λ k e. elim (lock_cases z neg c r k) [
        | inl kept ↦ kept ∙ r.consistent.idle k (ground arith)
        | inr (same, _, _) ↦ absurd (raised k same e)
      ];
      in_range = λ k. elim (lock_cases z neg c r k) [
        | inl kept ↦ subst (λ (m : Lock). IsLock n m.0) (sym kept) (r.consistent.in_range k)
        | inr (_, fresh, _) ↦ subst (λ (m : Lock). IsLock n m.0) (sym fresh) range
      ];
      bus = r.consistent.bus;
      held = λ k j e. elim (lock_cases z neg c r k) [
        | inl kept ↦ r.consistent.held k j (ap (λ (m : Lock). m.0) (sym kept) ∙ e)
        | inr (same, fresh, _) ↦
            subst (λ x. c.bus_count (P.input_bus2 x) ≢ 0) (sym same)
              (count j (ap (λ (m : Lock). m.0) (sym fresh) ∙ e))
      ];
      counted = r.consistent.counted;
      good = record {
        verified = λ q' o' neg' e.
            let (L, within, call) = r.consistent.good.verified q' o' neg' e in
            (
              L,
              λ k s. elim (lock_cases z neg c r k) [
                | inl kept ↦ kept ∙ within k s
                | inr (_, _, none_before) ↦
                    absurd
                      (let e₁ = ap (λ (m : Lock). is_none m.0) (sym none_before ∙ within k s) in cc)
              ],
              call,
            );
        injective = r.consistent.good.injective;
      };
    };
    locked = λ k m. elim (lock_cases z neg c r k) [
      | inl kept ↦ subst (λ (m : Lock). is_none m.0 ≡ false) (sym kept) (r.locked k m)
      | inr (_, fresh, _) ↦ subst (λ (m : Lock). is_none m.0 ≡ false) (sym fresh) set
    ];
    output_free = r.output_free;
    unmatched = r.unmatched;
    fits = r.fits;
    room = r.room;
  }
    where
      raised : (k : ℕ) → k ≡ p → raise c.input_lock_count p k ≡ 0 → ⊥
      raised k same e = ground arith
