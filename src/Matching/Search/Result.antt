-- ===== src/Matching/Search/Result.antt =====
-- src/Matching.cpp: `match_output` ends, restores the state where it fails, and records matches alone.
use multi_bit_large_scale_bo.Base.{
  ℕ, zero, suc, ◌+◌, ◌<◌, ◌≤◌, ◌≡◌, ◌≢◌, refl, ap, ◌∙◌, inl, inr, arith, Bool-cases, List, [], ◌∷◌,
  Bool, true, false, ==_ne, ==_iff, length, In, In-All, Run, ok,
}
use native.Mathlib.Decide.{ℕ_discrete}
use multi_bit_large_scale_bo.Base.Int.{ℤ, pos, negsuc, neg_part, sub_ℕ}
use multi_bit_large_scale_bo.Answer.{Lock}
use multi_bit_large_scale_bo.Matching.State.{
  initial_core, initial_best, Problem, Core, Best, Search, unlocked, is_none, is_unlocked,
}
use multi_bit_large_scale_bo.Matching.Buses.{buses_fit}
use multi_bit_large_scale_bo.Matching.Filter.{pred_ℤ}
use multi_bit_large_scale_bo.Matching.Filter.Result.{filt_locked_input-Outcome}
use multi_bit_large_scale_bo.Matching.Next.{ltb_ℤ, int_min, lower, fresh_priority, next_match}
use multi_bit_large_scale_bo.Matching.Next.Choice.{next_match_chooses}
use multi_bit_large_scale_bo.Matching.Search.{
  context, choices, try_output, try_outputs, record_best, extend_match, match_output,
}
use multi_bit_large_scale_bo.Matching.Search.Invariant.{
  IsPlain, IsConsistent, IsReady, IsMatch, free_count, IsSound, Ends, Fine,
}
use multi_bit_large_scale_bo.Matching.Search.Walk.{match_input_lem}
use multi_bit_large_scale_bo.Matching.Search.Finish.{finish_match_lem}

is_none-ne : (z : ℤ) → z ≢ negsuc 0 → is_none z ≡ false
is_none-ne (pos k) n = refl
is_none-ne (negsuc zero) n = absurd (n refl)
is_none-ne (negsuc (suc k)) n = refl

is_unlocked-eq : (l : Lock) → is_unlocked l ≡ true → l ≡ unlocked
is_unlocked-eq (negsuc zero, false) e = refl
is_unlocked-eq (negsuc zero, true) e = cc
is_unlocked-eq (negsuc (suc k), b) e = cc
is_unlocked-eq (pos k, b) e = cc

-- A priority is far above `INT_MIN`.
above_min : (z : ℤ) → neg_part z < 2147483648 → ltb_ℤ int_min z ≡ true
above_min (pos k) h = refl
above_min (negsuc k) h = ground arith

neg_part-pred_ℤ : (z : ℤ) → neg_part (pred_ℤ z) ≤ suc (neg_part z)
neg_part-pred_ℤ (pos zero) = omega arith
neg_part-pred_ℤ (pos (suc k)) = omega arith
neg_part-pred_ℤ (negsuc k) = omega arith

lower_above :
    (u : ℕ → Bool) (bs : List ℕ) (z : ℤ)
    → neg_part z + length bs < 2147483648
    → ltb_ℤ int_min (lower u bs z) ≡ true
unfolding lower
lower_above u [] z h = above_min z (omega arith)
lower_above u (b ∷ bs) z h = elim (Bool-cases (u b)) [
  | inl unmatched ↦ rw unmatched (lower_above u bs (pred_ℤ z) (omega (arith, neg_part-pred_ℤ z)))
  | inr matched ↦ rw matched (lower_above u bs z (omega arith))
]

positive_above : (z : ℤ) → ltb_ℤ (pos 0) z ≡ true → ltb_ℤ int_min z ≡ true
positive_above (pos k) e = refl
positive_above (negsuc k) e = cc

-- Where an output is free, not every output is matched.
free_exists :
    (order : List ℕ) (f : ℕ → Lock)
    → 0 < free_count order f
    → ((q : ℕ) → In q order → is_unlocked (f q) ≡ false)
    → ⊥
free_exists [] f some_ all = omega arith
free_exists (q ∷ qs) f some_ all = free_exists qs f (rest (all q (inl refl))) (λ x m. all x (inr m))
  where
    rest : is_unlocked (f q) ≡ false → 0 < free_count qs f
    rest e = ground arith

module _ (n : ℕ) (P : Problem) (plain : IsPlain n P) where
  fresh_above :
      (c : Core) (priority : ℕ → ℤ) (q : ℕ)
      → ltb_ℤ int_min (fresh_priority (choices P c) priority q) ≡ true
  unfolding fresh_priority
  fresh_above c priority q = elim (Bool-cases (ltb_ℤ (pos 0) (priority q))) [
    | inl up ↦ rw up (positive_above (priority q) up)
    | inr down ↦ rw down (
        lower_above (λ b. is_none (c.bus_2_to_1 b)) (P.output_to_input_bus q) (pos 0)
          (omega (arith, plain.few_buses q)))
  ]

  -- A failed call that has changed nothing but the record.
  stay : (c : Core) (b : Best) → IsSound P b → Ends P c (false, record { core = c; best = b })
  stay c b sound = record { restored = λ e. refl; found = λ e. cc; sound = sound }

  module _ (left : ℕ) (next : Search → Run (Bool × Search))
      (fine : (c' : Core)
        → IsConsistent n P c'
        → left ≤ free_count P.output_match_order c'.output_lock
        → Fine P c' next)
      (q : ℕ) (c : Core) (consistent : IsConsistent n P c) (free : c.output_lock q ≡ unlocked)
      (room : suc left ≤ free_count P.output_match_order c.output_lock)
      (in_order : In q P.output_match_order) where
    try_output_lem :
        (o : ℕ)
        → c.output_lock_count o ≡ 0
        → buses_fit c (P.output_bus2 q) (P.output_bus1 o) ≡ true
        → In o (P.output_match_cand q)
        → Fine P c (try_output P q o next)
    unfolding try_output
    try_output_lem o unmatched fits candidate b sound =
        elim (filt_locked_input-Outcome n (context P o c) (P.output_support2 q)
          (sub_ℕ (length (P.output_support2 q)) (length (P.output_support1 o))) (λ j. 0)
          (In-All (P.output_support2 q) (λ p m. consistent.in_range p))) [
            | inl (e, _) ↦ ((false, record { core = c; best = b }), rw e, stay c b sound)
            | inr (r, e, h) ↦ elim (Bool-cases (ltb_ℤ r.quota (pos 0))) [
              | inl few ↦ ((false, record { core = c; best = b }), rw (e, few), stay c b sound)
              | inr enough ↦
                  let ready : IsReady n P r.record_lock q o left c = record {
                    consistent = consistent;
                    locked = λ p m. is_none-ne (c.input_lock p).0 (((h.recorded p).0 m).1);
                    output_free = free;
                    unmatched = unmatched;
                    fits = fits;
                    room = room;
                  } in
                  let (x, e', ends) =
                    match_input_lem n P r.record_lock q o left plain next
                      (λ c' ready'.
                        finish_match_lem n P r.record_lock q o left plain c' ready' in_order
                          candidate next fine)
                      r.rest c (record { quota = r.quota; count = r.count }) ready b sound in
                  (
                    (x.0, x.1),
                    rw (e, enough, e'),
                    record {
                      restored = λ l. (ends.restored l).0;
                      found = ends.found;
                      sound = ends.sound;
                    },
                  )
            ]
          ]

    try_outputs_lem :
        (os : List ℕ)
        → ((o : ℕ) → In o os → In o (P.output_match_cand q))
        → Fine P c (try_outputs P q next os)
    unfolding try_outputs
    try_outputs_lem [] cands b sound =
        ((false, record { core = c; best = b }), refl, stay c b sound)
    try_outputs_lem (o ∷ os) cands b sound = elim (ℕ_discrete (c.output_lock_count o) 0) [
      | no used ↦
          rw (==_ne (c.output_lock_count o) 0 used)
            (try_outputs_lem os (λ x m. cands x (inr m)) b sound)
      | yes unused ↦ elim (Bool-cases (buses_fit c (P.output_bus2 q) (P.output_bus1 o))) [
        | inr unfit ↦
            rw ((==_iff (c.output_lock_count o) 0).1 unused, unfit)
              (try_outputs_lem os (λ x m. cands x (inr m)) b sound)
        | inl fits ↦
            let (x, e, ends) = try_output_lem o unused fits (cands o (inl refl)) b sound in
            elim (Bool-cases x.1.best.found) [
              | inl found ↦ (
                (true, x.1),
                rw ((==_iff (c.output_lock_count o) 0).1 unused, fits, e, found),
                record { restored = λ l. cc; found = λ w. found; sound = ends.sound },
              )
              | inr not_found ↦
                  let same = ends.restored (lost x.0 (λ w. ends.found w) not_found) in
                  let (y, e', ends') =
                    try_outputs_lem os (λ x m. cands x (inr m)) x.1.best ends.sound in
                  (
                    y,
                    rw ((==_iff (c.output_lock_count o) 0).1 unused, fits, e, not_found)
                        ((λ i. try_outputs P q next os (record { core = same i; best = x.1.best }))
                          ∙ e'),
                    ends',
                  )
            ]
      ]
    ]
      where
        lost :
            {found : Bool} (flag : Bool)
            → (flag ≡ true → found ≡ true)
            → found ≡ false
            → flag ≡ false
        lost false h e = refl
        lost true h e = let e' = h refl in cc

  -- The record after the test for a deeper match is sound.
  record_best_lem :
      (out_idx : ℕ) (c : Core) (b : Best)
      → IsConsistent n P c
      → IsSound P b
      → (b' : Best) × (record_best P out_idx (record { core = c; best = b })
          ≡ record { core = c; best = b' })
        × IsSound P b'
  unfolding record_best
  record_best_lem out_idx c b consistent sound = elim (Bool-cases (ltb_ℤ b.depth (pos out_idx))) [
    | inl deeper ↦ (
      record b { depth = pos out_idx; output_match = c.output_lock; input_match = c.input_lock },
      rw deeper,
      consistent.good,
    )
    | inr old ↦ (b, rw old, sound)
  ]

  pub match_output_lem :
      (left out_idx : ℕ) (c : Core)
      → IsConsistent n P c
      → left ≤ free_count P.output_match_order c.output_lock
      → Fine P c (match_output P left out_idx)
  unfolding match_output
  match_output_lem zero out_idx c consistent room b sound =
      let (b', e, sound') = record_best_lem out_idx c b consistent sound in
      (
        (true, record { core = c; best = record b' { found = true } }),
        rw e,
        record { restored = λ l. cc; found = λ w. refl; sound = sound' },
      )
  match_output_lem (suc left) out_idx c consistent room b sound =
      let (b', e, sound') = record_best_lem out_idx c b consistent sound in
      elim (next_match_chooses (choices P c) P.output_match_order b'.priority
        (λ q m. fresh_above c b'.priority q)) [
          | inl (_, all) ↦ absurd (free_exists P.output_match_order c.output_lock (omega arith) all)
          | inr (q, chosen, h) ↦
              let (x, e', ends) =
                try_outputs_lem left (λ s'. match_output P left (suc out_idx) s')
                  (λ c' consistent' room'. match_output_lem left (suc out_idx) c' consistent' room')
                  q c consistent (is_unlocked-eq (c.output_lock q) h.free) room h.member
                  (P.output_match_cand q) (λ o m. m)
                  (record b' {
                    priority = (next_match (choices P c) P.output_match_order b'.priority).1;
                  })
                  sound' in
              (
                x,
                ap (λ s. extend_match P (λ s'. match_output P left (suc out_idx) s') s) e
                    ∙ rw (extend_match, chosen) e',
                ends,
              )
        ]

free_count-unlocked : (order : List ℕ) → free_count order (λ q. unlocked) ≡ length order
free_count-unlocked [] = refl
free_count-unlocked (q ∷ qs) = rw (free_count-unlocked qs) (omega arith)

no_match : (P : Problem) → IsMatch P (λ q. unlocked) (λ p. unlocked)
no_match P = record { verified = λ q o neg e. cc; injective = λ q q' o neg neg' e e'. cc }

pub initial-IsConsistent : (n : ℕ) (P : Problem) → IsConsistent n P initial_core
initial-IsConsistent n P = record {
  idle = λ p e. refl;
  in_range = λ p. omega arith;
  bus = λ b. refl;
  held = λ p j e. cc;
  counted = λ q o neg e. cc;
  good = no_match P;
}

-- The search ends for every plain problem and all priorities. The match it has recorded has no two
-- outputs that are matched with one output of circuit 1, and each of its outputs was compared, with the
-- verdict recorded, under locks that the recorded match of the inputs contains. If the search fails, the
-- state is the one at the start, and if it succeeds, it has set `findOutputBest`.
pub match_output-Ends :
    (n : ℕ) (P : Problem) (priority : ℕ → ℤ)
    → IsPlain n P
    → (r : Bool × Search) × (match_output P
          (length P.output_match_order)
          0
          (record { core = initial_core; best = initial_best priority })
        ≡ ok r)
      × Ends P initial_core r
match_output-Ends n P priority plain =
    match_output_lem n P plain (length P.output_match_order) 0 initial_core
      (initial-IsConsistent n P) (omega (arith, free_count-unlocked P.output_match_order))
      (initial_best priority) (no_match P)
