-- ===== src/Matching/Search/Walk.antt =====
-- src/Matching.cpp: the loops of `match_input` end, and restore the state where they fail.
use multi_bit_large_scale_bo.Base.{
  ℕ, ◌<◌, ◌≡◌, ◌≢◌, refl, sym, ap, ◌∙◌, inl, inr, arith, Bool-cases, List, [], ◌∷◌, Bool, false, In,
  Run, ok,
}
use multi_bit_large_scale_bo.Base.Int.{ℤ, pos}
use multi_bit_large_scale_bo.Matching.State.{
  Candidate, constant, port, Problem, Core, Best, Search, Locals, is_none,
}
use multi_bit_large_scale_bo.Matching.Filter.Quota.{IsLock}
use multi_bit_large_scale_bo.Matching.Search.{
  Outcome, lock_input, unlock_input, leave, candidate_idx, signs, try_signs, try_candidates,
  finish_match, match_input,
}
use multi_bit_large_scale_bo.Matching.Search.Invariant.{
  IsPlain, IsReady, IsSound, EndsWalk, Fine, FineWalk,
}
use multi_bit_large_scale_bo.Matching.Search.Steps.{unlock-lock_input}
use multi_bit_large_scale_bo.Matching.Search.Enter.{enter-Entered, lock_input-IsReady}

module _ (n : ℕ) (P : Problem) (recorded : List ℕ) (q o left : ℕ) (plain : IsPlain n P) where
  -- From every ready state the call ends well.
  abbrev pub Walks : (Search → Locals → Run Outcome) → Type 0
  Walks next = (c : Core) (l : Locals) → IsReady n P recorded q o left c → FineWalk P c l next

  -- A failed walk that has changed nothing but the record.
  stay :
      (c : Core) (l : Locals) (b : Best)
      → IsSound P b
      → EndsWalk P c l (false, record { core = c; best = b }, l)
  stay c l b sound = record { restored = λ e. (refl, refl); found = λ e. cc; sound = sound }

  try_signs_lem :
      (p : ℕ) (z : ℤ) (next : Search → Locals → Run Outcome) (negs : List Bool)
      → Walks next
      → IsLock n z
      → is_none z ≡ false
      → (c : Core) (l : Locals) → ((j : ℕ) → z ≡ pos j → c.bus_count (P.input_bus2 p) ≢ 0)
      → IsReady n P recorded q o left c
      → FineWalk P c l (try_signs P p z next negs)
  unfolding try_signs
  try_signs_lem p z next [] walks range set c l count ready b sound =
      ((false, record { core = c; best = b }, l), refl, stay c l b sound)
  try_signs_lem p z next (neg ∷ negs) walks range set c l count ready b sound =
      let c₁ = lock_input p z neg c in
      let (r, e, ends) =
        walks c₁ l (lock_input-IsReady n P recorded q o left plain p z neg c range count set ready)
          b sound in
      elim (Bool-cases r.0) [
        | inl won ↦ (
          r,
          rw (e, won),
          record { restored = λ lost. cc; found = ends.found; sound = ends.sound },
        )
        | inr lost ↦
            let (r₂, e₂, ends₂) =
              try_signs_lem p z next negs walks range set c l count ready r.1.best ends.sound in
            let (same, same_l) = ends.restored lost in
            let back : unlock_input p r.1.core ≡ c =
              ap (λ x. unlock_input p x) same
              ∙ unlock-lock_input p z neg c (ready.consistent.idle p) in
            (
              r₂,
              rw (e, lost)
                  ((λ i.
                      try_signs P p z next negs (record { core = back i; best = r.1.best })
                        (same_l i))
                    ∙ e₂),
              ends₂,
            )
      ]

  -- The loop over candidates of `p` that are in range.
  try_candidates_lem :
      (p : ℕ) (next : Search → Locals → Run Outcome) (cands : List Candidate)
      → Walks next
      → ((j : ℕ) → In (port j) cands → j < n)
      → Walks (try_candidates P o p next cands)
  unfolding try_candidates
  try_candidates_lem p next [] walks range c l ready b sound =
      ((false, record { core = c; best = b }, l), refl, stay c l b sound)
  try_candidates_lem p next (cand ∷ cands) walks range c l ready b sound =
      elim (enter-Entered n P recorded q o left plain p cand c l ready) [
        | inl skip ↦
            rw skip
              (try_candidates_lem p next cands walks (λ j m. range j (inr m)) c l ready b sound)
        | inr (c₁, l₁, e₁, back, ready₁, count) ↦
            let (r, e, ends) =
              try_signs_lem p (candidate_idx P cand) next (signs P p) walks
                (cand_range cand (λ j m. range j (inl m))) (cand_set cand) c₁ l₁ count ready₁ b
                sound in
            elim (Bool-cases r.0) [
              | inl won ↦ (
                r,
                rw (e₁, e, won) (λ i. ok (sym won i, r.1, r.2)),
                record { restored = λ lost. cc; found = ends.found; sound = ends.sound },
              )
              | inr lost ↦
                  let (r₂, e₂, ends₂) =
                    try_candidates_lem p next cands walks (λ j m. range j (inr m)) c l ready
                      r.1.best ends.sound in
                  let (same, same_l) = ends.restored lost in
                  let left_again : leave P p cand r.1.core r.2 ≡ ok (c, l) =
                    (λ i. leave P p cand (same i) (same_l i)) ∙ back in
                  (r₂, rw (e₁, e, lost, left_again) e₂, ends₂)
            ]
      ]
    where
      cand_range : (d : Candidate) → ((j : ℕ) → port j ≡ d → j < n) → IsLock n (candidate_idx P d)
      cand_range constant h = omega arith
      cand_range (port j) h = h j refl

      cand_set : (d : Candidate) → is_none (candidate_idx P d) ≡ false
      cand_set constant = refl
      cand_set (port j) = refl

  pub match_input_lem :
      (next : Search → Run (Bool × Search))
      → ((c : Core) → IsReady n P recorded q o left c → Fine P c (finish_match P q o recorded next))
      → (ps : List ℕ) → Walks (match_input P q o recorded next ps)
  unfolding match_input
  match_input_lem next finish [] c l ready b sound =
      let (r, e, ends) = finish c ready b sound in
      (
        (r.0, r.1, l),
        rw e,
        record {
          restored = λ lost. (ends.restored lost, refl);
          found = ends.found;
          sound = ends.sound;
        },
      )
  match_input_lem next finish (p ∷ ps) c l ready b sound =
      try_candidates_lem p (λ s' l'. match_input P q o recorded next ps s' l')
        (P.input_match_cand p) (match_input_lem next finish ps) (plain.candidates p) c l ready b
        sound
