-- ===== src/Matching/Search.antt =====
-- src/Matching.cpp: `match_output` and `match_input`, the search for a matching by stepping back.
pub mod Invariant
pub mod Steps
pub mod Enter
pub mod Walk
pub mod Recorded
pub mod Finish
pub mod Result
use multi_bit_large_scale_bo.Base.{
  ℕ, zero, suc, ◌-◌, List, [], ◌∷◌, Bool, true, false, not, ◌&&◌, ◌||◌, length, ltb, leb, ◌==◌,
  if◌then◌else◌, Option, none, some, Run, ok, err, undefined, ◌>>=◌, undefined_result,
}
use multi_bit_large_scale_bo.Base.Int.{ℤ, pos, negsuc, sub_ℕ}
use multi_bit_large_scale_bo.Answer.{Lock, const_val}
use multi_bit_large_scale_bo.Matching.State.{
  Candidate, constant, port, Compare, Problem, Core, Best, Search, Locals, update, raise, drop,
  unlocked, is_none, is_const, is_port, is_unlocked,
}
use multi_bit_large_scale_bo.Matching.Buses.{
  buses_free, buses_fit, join, raise_bus, release_bus, enter_bus, leave_bus,
}
use multi_bit_large_scale_bo.Matching.Filter.{pred_ℤ, Context, Filtered, filt_locked_input}
use multi_bit_large_scale_bo.Matching.Next.{ltb_ℤ, Choices, next_match}

abbrev pub succ_ℤ : ℤ → ℤ
succ_ℤ (pos n) = pos (suc n)
succ_ℤ (negsuc zero) = pos 0
succ_ℤ (negsuc (suc n)) = negsuc n

-- `inputLock[p] = (z, neg)` unless the input is locked, and the count; and the way back.
unfoldable pub lock_input : ℕ → ℤ → Bool → Core → Core
lock_input p z neg c = record c {
  input_lock = if c.input_lock_count p == 0 then update c.input_lock p (z, neg) else c.input_lock;
  input_lock_count = raise c.input_lock_count p;
}

unfoldable pub unlock_input : ℕ → Core → Core
unlock_input p c = record c {
  input_lock =
      if c.input_lock_count p - 1 == 0 then update c.input_lock p unlocked else c.input_lock;
  input_lock_count = drop c.input_lock_count p;
}

-- The arguments of the comparison: the locked inputs of the support, without the dangling ones. A
-- lock holds no other negative number than -1 and `CONST_VAL`.
unfoldable pub lock_pairs : (ℕ → Lock) → List ℕ → List (ℕ × ℕ) × List Bool × List (Bool × ℕ)
lock_pairs locks [] = ([], [], [])
lock_pairs locks (p ∷ ps) =
    let (pairs, negs, consts) = lock_pairs locks ps in
    elim (locks p).0 [
      | pos j ↦ ((p, j) ∷ pairs, (locks p).1 ∷ negs, consts)
      | negsuc zero ↦ (pairs, negs, consts)
      | negsuc (suc k) ↦ (pairs, negs, ((locks p).1, p) ∷ consts)
    ]

abbrev pub call_compare : Compare → (ℕ → Lock) → List ℕ → ℕ × ℕ → Run ℕ
call_compare compare locks ps out =
    let (pairs, negs, consts) = lock_pairs locks ps in compare pairs negs out consts

-- What a call leaves: the returned flag, the state, and the arguments passed by reference.
abbrev pub Outcome : Type 0
Outcome = Bool × Search × Locals

module _ (P : Problem) where
  -- The counts of the inputs in `record_lock`, raised when an output is matched, and lowered again.
  unfoldable pub raise_recorded : List ℕ → Core → Core
  raise_recorded [] c = c
  raise_recorded (p ∷ ps) c = raise_recorded ps (record c {
    input_lock_count = raise c.input_lock_count p;
    bus_count =
        if is_const (c.input_lock p).0 then c.bus_count else raise c.bus_count (P.input_bus2 p);
  })

  unfoldable pub drop_recorded : List ℕ → Core → Core
  drop_recorded [] c = c
  drop_recorded (p ∷ ps) c = drop_recorded ps (record c {
    input_lock_count = drop c.input_lock_count p;
    bus_count =
        if is_const (c.input_lock p).0 then c.bus_count else drop c.bus_count (P.input_bus2 p);
  })

  -- The match of outputs `q` and `o` with the sign `neg`, and the way back.
  unfoldable pub lock_output : ℕ → ℕ → Bool → List ℕ → Core → Core
  unfolding raise_recorded
  lock_output q o neg recorded c =
      let c₁ =
        raise_recorded recorded (record c { output_lock = update c.output_lock q (pos o, neg) }) in
      let b2 = P.output_bus2 q in
      let b1 = P.output_bus1 o in
      let c₂ = if buses_free c₁ b2 b1 then join c₁ b2 b1 else c₁ in
      record c₂ {
        bus_count = raise c₂.bus_count b2;
        output_lock_count = raise c₂.output_lock_count o;
      }

  unfoldable pub unlock_output : ℕ → ℕ → List ℕ → Core → Core
  unfolding drop_recorded release_bus
  unlock_output q o recorded c =
      let c₁ = record c {
        output_lock = update c.output_lock q unlocked;
        output_lock_count = drop c.output_lock_count o;
      } in
      release_bus (drop_recorded recorded c₁) (P.output_bus2 q) (P.output_bus1 o)

  -- The end of `match_input`, where every input is matched: the comparison, and the call of
  -- `match_output` for the outputs that are left (`next`).
  unfoldable pub finish_match :
      ℕ → ℕ → List ℕ → (Search → Run (Bool × Search)) → Search → Run (Bool × Search)
  unfolding lock_output unlock_output lock_pairs
  finish_match q o recorded next s =
      call_compare P.compare s.core.input_lock (P.output_support2 q) (q, o) >>= λ result.
      (if result == 0
        then ok (false, s)
        else if result == 1 || result == 2
        then (next (record s { core = lock_output q o (result == 2) recorded s.core }) >>= λ r.
            if r.0
            then ok r
            else ok (false, record r.1 { core = unlock_output q o recorded r.1.core }))
        else err undefined_result)

  -- The tests and changes before a candidate is tried, where `none` is `continue`.
  unfoldable pub enter : ℕ → ℕ → Candidate → Core → Locals → Run (Option (Core × Locals))
  unfolding enter_bus
  enter o p constant c l =
      ok (if is_port l.quota 0 then none else some (c, record l { quota = pred_ℤ l.quota }))
  enter o p (port j) c l =
      if P.input_size_eq && not (c.input_count j == 0)
      then ok none
      else if not (P.is_pi_in_po o j)
      then ok none
      else if not (l.count j == 0) && is_port l.quota 0
      then ok none
      else (enter_bus P c p j >>= λ r. ok (elim r [
        | none ↦ none
        | some c' ↦ some (
          record c' { input_count = raise c'.input_count j },
          record {
            quota = if l.count j == 0 then l.quota else pred_ℤ l.quota;
            count = raise l.count j;
          },
        )
      ]))

  -- The changes after it.
  unfoldable pub leave : ℕ → Candidate → Core → Locals → Run (Core × Locals)
  unfolding leave_bus
  leave p constant c l = ok (c, record l { quota = succ_ℤ l.quota })
  leave p (port j) c l = leave_bus P (record c { input_count = drop c.input_count j }) p j >>= λ c'.
      ok (
        c',
        record {
          quota = if ltb 1 (l.count j) then succ_ℤ l.quota else l.quota;
          count = drop l.count j;
        },
      )

  abbrev pub candidate_idx : Candidate → ℤ
  candidate_idx constant = const_val
  candidate_idx (port j) = pos j

  -- The values of `neg` in the loop.
  abbrev pub signs : ℕ → List Bool
  signs p =
      if P.init_on
      then (elim (P.init_input_ne p) [ none ↦ false ∷ true ∷ [] | some b ↦ b ∷ [] ])
      else false ∷ true ∷ []

  -- The loop over the signs, where `next` is the call for the inputs that are left.
  unfoldable pub try_signs :
      ℕ → ℤ → (Search → Locals → Run Outcome) → List Bool → Search → Locals → Run Outcome
  unfolding lock_input unlock_input
  try_signs p z next [] s l = ok (false, s, l)
  try_signs p z next (neg ∷ negs) s l =
      next (record s { core = lock_input p z neg s.core }) l >>= λ (eq, s', l').
      if eq
      then ok (true, s', l')
      else try_signs p z next negs (record s' { core = unlock_input p s'.core }) l'

  -- The loop over the candidates of input `p`.
  unfoldable pub try_candidates :
      ℕ → ℕ → (Search → Locals → Run Outcome) → List Candidate → Search → Locals → Run Outcome
  unfolding enter leave try_signs
  try_candidates o p next [] s l = ok (false, s, l)
  try_candidates o p next (cand ∷ cands) s l = enter o p cand s.core l >>= λ entered. elim entered [
    | none ↦ try_candidates o p next cands s l
    | some (c, l') ↦
        try_signs p (candidate_idx cand) next (signs p) (record s { core = c }) l'
        >>= λ (eq, s₁, l₁).
            if eq
            then ok (true, s₁, l₁)
            else (leave p cand s₁.core l₁ >>= λ (c₂, l₂).
                try_candidates o p next cands (record s₁ { core = c₂ }) l₂)
  ]

  -- `match_input`, for the inputs of `c2_input_set` from `idx` on.
  unfoldable pub match_input :
      ℕ → ℕ → List ℕ → (Search → Run (Bool × Search)) → List ℕ → Search → Locals → Run Outcome
  unfolding finish_match try_candidates
  match_input q o recorded next [] s l =
      finish_match q o recorded next s >>= λ (eq, s'). ok (eq, s', l)
  match_input q o recorded next (p ∷ ps) s l =
      try_candidates o p (λ s' l'. match_input q o recorded next ps s' l') (P.input_match_cand p) s
        l

  -- What `filtLockedInput` and `next_match` read of the state.
  abbrev pub context : ℕ → Core → Context
  context o c = record {
    locked = λ p. (c.input_lock p).0;
    in_support = P.is_pi_in_po o;
    init_on = P.init_on;
    init_input = P.init_input;
  }

  abbrev pub choices : Core → Choices
  choices c = record {
    free = λ q. is_unlocked (c.output_lock q);
    buses = P.output_to_input_bus;
    unmatched = λ b. is_none (c.bus_2_to_1 b);
  }

  -- The pair of outputs `q` and `o`, whose buses fit: the free inputs of the supports are matched.
  unfoldable pub try_output : ℕ → ℕ → (Search → Run (Bool × Search)) → Search → Run (Bool × Search)
  unfolding match_input
  try_output q o next s =
      let quota = sub_ℕ (length (P.output_support2 q)) (length (P.output_support1 o)) in
      filt_locked_input (context o s.core) (P.output_support2 q) quota (λ j. 0) >>= λ filtered.
      elim filtered [
        | none ↦ ok (false, s)
        | some r ↦
            if ltb_ℤ r.quota (pos 0)
            then ok (false, s)
            else (match_input q o r.record_lock next r.rest s
                  (record { quota = r.quota; count = r.count })
                >>= λ (eq, s', l'). ok (eq, s'))
      ]

  -- The loop over the candidates of output `q`; the result of a call counts only by `findOutputBest`.
  unfoldable pub try_outputs :
      ℕ → (Search → Run (Bool × Search)) → List ℕ → Search → Run (Bool × Search)
  unfolding try_output
  try_outputs q next [] s = ok (false, s)
  try_outputs q next (o ∷ os) s =
      let skipped = try_outputs q next os s in
      if not (s.core.output_lock_count o == 0)
      then skipped
      else if not (buses_fit s.core (P.output_bus2 q) (P.output_bus1 o))
      then skipped
      else (try_output q o next s >>= λ (eq, s').
          if s'.best.found then ok (true, s') else try_outputs q next os s')

  -- The record of a deeper match.
  unfoldable pub record_best : ℕ → Search → Search
  record_best out_idx s =
      if ltb_ℤ s.best.depth (pos out_idx)
      then record s {
        best = record (s.best) {
          depth = pos out_idx;
          output_match = s.core.output_lock;
          input_match = s.core.input_lock;
        };
      }
      else s

  -- The choice of the next output, and the loop over its candidates.
  unfoldable pub extend_match : (Search → Run (Bool × Search)) → Search → Run (Bool × Search)
  unfolding try_outputs
  extend_match next s =
      let (np, priority) = next_match (choices s.core) P.output_match_order s.best.priority in
      elim np [
        | none ↦ undefined
        | some q ↦
            try_outputs q next (P.output_match_cand q)
              (record s { best = record (s.best) { priority = priority } })
      ]

  -- `match_output`, where `left` is `PO2Size - out_idx`.
  unfoldable pub match_output : ℕ → ℕ → Search → Run (Bool × Search)
  unfolding record_best extend_match
  match_output zero out_idx s =
      let s₁ = record_best out_idx s in
      ok (true, record s₁ { best = record (s₁.best) { found = true } })
  match_output (suc left) out_idx s =
      extend_match (λ s'. match_output left (suc out_idx) s') (record_best out_idx s)
