-- ===== src/Matching/Search/Finish.antt =====
-- src/Matching.cpp: the end of `match_input`, where the outputs are compared and matched.
use multi_bit_large_scale_bo.Base.{
  ℕ, zero, suc, ◌+◌, ◌≤◌, ◌≡◌, ◌≢◌, refl, sym, ap, ◌∙◌, subst, ◌⊎◌, inl, inr, arith, Bool-cases,
  List, [], ◌∷◌, Bool, true, false, ◌||◌, ◌==◌, ==_ne, ==_iff, if◌then◌else◌, In, IsDistinct, Run,
  ok, ◌>>=◌,
}
use native.Mathlib.Decide.{ℕ_discrete}
use multi_bit_large_scale_bo.Base.Int.{ℤ, pos, negsuc}
use multi_bit_large_scale_bo.Answer.{Lock}
use multi_bit_large_scale_bo.Matching.State.{
  Problem, Core, Best, Search, update, raise, is_none, is_const, is_unlocked,
}
use multi_bit_large_scale_bo.Matching.Buses.{buses_free, buses_joined}
use multi_bit_large_scale_bo.Matching.Filter.Quota.{IsLock}
use multi_bit_large_scale_bo.Matching.Search.{
  lock_output, unlock_output, finish_match, call_compare,
}
use multi_bit_large_scale_bo.Matching.Search.Invariant.{
  IsPlain, IsConsistent, IsReady, IsMatch, IsVerified, free_count, IsSound, Ends, Fine,
}
use multi_bit_large_scale_bo.Matching.Search.Steps.{joined_count}
use multi_bit_large_scale_bo.Matching.Search.Recorded.{
  times, plus, port_buses, lock_output_free, lock_output_held, unlock-lock_output,
}

-- A lock in range that is neither none nor a constant is to an input.
port_of :
    (n : ℕ) (z : ℤ) → IsLock n z → is_none z ≡ false → is_const z ≡ false → (j : ℕ) × (z ≡ pos j)
port_of n (pos j) range set matched = (j, refl)
port_of n (negsuc zero) range set matched = cc
port_of n (negsuc (suc zero)) range set matched = cc
port_of n (negsuc (suc (suc k))) range set matched = absurd (omega arith)

-- One output fewer is free.
free_count-update :
    (order : List ℕ) (f : ℕ → Lock) (q : ℕ) (l : Lock)
    → IsDistinct order
    → free_count order f ≤ suc (free_count order (update f q l))
free_count-update [] f q l distinct = omega arith
free_count-update (p ∷ ps) f q l distinct = elim (ℕ_discrete p q) [
  | yes same ↦ omega (
    arith,
    kept ps (λ m. distinct.0 (subst (λ x. In x ps) (sym same) m)),
    at_most (is_unlocked (f p)),
  )
  | no other ↦ rw (==_ne p q other) (omega (arith, free_count-update ps f q l distinct.1))
]
  where
    at_most : (b : Bool) → (if b then 1 else 0) ≤ 1
    at_most true = omega arith
    at_most false = omega arith

    kept : (rs : List ℕ) → (In q rs → ⊥) → free_count rs (update f q l) ≡ free_count rs f
    kept [] out = refl
    kept (r ∷ rs) out = rw (==_ne r q (λ e. out (inl (sym e))), kept rs (λ m. out (inr m)))

module _ (n : ℕ) (P : Problem) (recorded : List ℕ) (q o left : ℕ) (plain : IsPlain n P) (c : Core)
    (r : IsReady n P recorded q o left c) where
  -- The buses whose counts are raised for the recorded inputs are matched already.
  recorded_held :
      (ps : List ℕ)
      → ((p : ℕ) → In p ps → is_none (c.input_lock p).0 ≡ false)
      → (b : ℕ) → times b (port_buses P c.input_lock ps) ≢ 0
      → c.bus_count b ≢ 0
  recorded_held [] locked b n = absurd (n refl)
  recorded_held (p ∷ ps) locked b more = elim (Bool-cases (is_const (c.input_lock p).0)) [
    | inl const ↦
        recorded_held ps (λ x m. locked x (inr m)) b
          (subst
            (λ t.
              times b (
                if t
                then port_buses P c.input_lock ps
                else P.input_bus2 p ∷ port_buses P c.input_lock ps)
              ≢ 0)
            const more)
    | inr matched ↦
        let more' : times b (P.input_bus2 p ∷ port_buses P c.input_lock ps) ≢ 0 =
          subst
            (λ t.
              times b (
                if t
                then port_buses P c.input_lock ps
                else P.input_bus2 p ∷ port_buses P c.input_lock ps)
              ≢ 0)
            matched more in
        let (j, at) =
          port_of n (c.input_lock p).0 (r.consistent.in_range p) (locked p (inl refl)) matched in
        elim (ℕ_discrete b (P.input_bus2 p)) [
          | yes same ↦ subst (λ x. c.bus_count x ≢ 0) (sym same) (r.consistent.held p j at)
          | no other ↦
              recorded_held ps (λ x m. locked x (inr m)) b
                (λ z. more' (rw (==_ne b (P.input_bus2 p) other) (omega arith)))
        ]
  ]

  abbrev raised_counts : ℕ → ℕ
  raised_counts = plus c.bus_count (port_buses P c.input_lock recorded)

  -- A count is 0 after the raise if it was before.
  same_zero : (b : ℕ) → (raised_counts b == 0) ≡ (c.bus_count b == 0)
  same_zero b = elim (ℕ_discrete (times b (port_buses P c.input_lock recorded)) 0) [
    | yes none ↦ rw none (ap (λ x. x == 0) plus_zero)
    | no some_ ↦
        let old = recorded_held recorded r.locked b some_ in
        ==_ne (raised_counts b) 0 (λ z. old (omega arith)) ∙ sym (==_ne (c.bus_count b) 0 old)
  ]
    where
      plus_zero : c.bus_count b + 0 ≡ c.bus_count b
      plus_zero = omega arith

  -- A match after the lock of `q` is the new one, or an old one.
  output_cases :
      (neg : Bool) (q' o' : ℕ) (neg' : Bool)
      → update c.output_lock q (pos o, neg) q' ≡ (pos o', neg')
      → ((q' ≡ q) × (o ≡ o') × (neg ≡ neg')) ⊎ (c.output_lock q' ≡ (pos o', neg'))
  output_cases neg q' o' neg' e = elim (ℕ_discrete q' q) [
    | yes same ↦
        let e₁ : ◌≡◌ {A = Lock} (pos o, neg) (pos o', neg') = rw⁻¹ (new_lock same) e in
        inl (same, port_eq (ap (λ (m : Lock). m.0) e₁), ap (λ (m : Lock). m.1) e₁)
    | no other ↦ inr (sym (old_lock other) ∙ e)
  ]
    where
      new_lock : q' ≡ q → update c.output_lock q (pos o, neg) q' ≡ (pos o, neg)
      new_lock same = rw ((==_iff q' q).1 same) refl

      old_lock : q' ≢ q → update c.output_lock q (pos o, neg) q' ≡ c.output_lock q'
      old_lock other = rw (==_ne q' q other) refl

      port_eq : {x y : ℕ} → ◌≡◌ {A = ℤ} (pos x) (pos y) → x ≡ y
      port_eq e = cc

  -- The match that the verdict `neg` adds.
  new_match :
      (neg : Bool)
      → (call_compare P.compare c.input_lock (P.output_support2 q) (q, o)
          ≡ ok (if neg then 2 else 1))
      → IsMatch P (update c.output_lock q (pos o, neg)) c.input_lock
  new_match neg call = record {
    verified = λ q' o' neg' e. elim (output_cases neg q' o' neg' e) [
      | inl (same, so, sn) ↦
          subst (λ x. IsVerified P c.input_lock x o' neg') (sym same)
            (subst (λ y. IsVerified P c.input_lock q y neg') so
              (subst (λ m. IsVerified P c.input_lock q o m) sn (c.input_lock, (λ p s. refl), call)))
      | inr old ↦ r.consistent.good.verified q' o' neg' old
    ];
    injective = λ q' q'' o' neg' neg'' e e'. elim (output_cases neg q' o' neg' e) [
      | inl (same, so, _) ↦ elim (output_cases neg q'' o' neg'' e') [
        | inl (same', _, _) ↦ same ∙ sym same'
        | inr old ↦
            absurd (
              r.consistent.counted q'' o' neg'' old (ap c.output_lock_count (sym so) ∙ r.unmatched))
      ]
      | inr old ↦ elim (output_cases neg q'' o' neg'' e') [
        | inl (_, so, _) ↦
            absurd
              (r.consistent.counted q' o' neg' old (ap c.output_lock_count (sym so) ∙ r.unmatched))
        | inr old' ↦ r.consistent.good.injective q' q'' o' neg' neg'' old old'
      ]
    ];
  }

  new_counted :
      (neg : Bool) (q' o' : ℕ) (neg' : Bool)
      → update c.output_lock q (pos o, neg) q' ≡ (pos o', neg')
      → raise c.output_lock_count o o' ≢ 0
  new_counted neg q' o' neg' e z = elim (output_cases neg q' o' neg' e) [
    | inl (_, so, _) ↦ absurd (ground arith)
    | inr old ↦ r.consistent.counted q' o' neg' old (ground arith)
  ]

  new_held : (b : ℕ) → raise raised_counts (P.output_bus2 q) b ≡ 0 → c.bus_count b ≡ 0
  new_held b z = ground arith

  -- Buses that are not free are matched with each other.
  held_count :
      buses_free c (P.output_bus2 q) (P.output_bus1 o) ≡ false → c.bus_count (P.output_bus2 q) ≢ 0
  held_count held =
      joined_count c (P.output_bus2 q) (P.output_bus1 o) (r.consistent.bus (P.output_bus2 q))
        (rw⁻¹ (ap (λ x. x || buses_joined c (P.output_bus2 q) (P.output_bus1 o)) held) r.fits)

  locked-IsConsistent :
      (neg : Bool)
      → (call_compare P.compare c.input_lock (P.output_support2 q) (q, o)
          ≡ ok (if neg then 2 else 1))
      → IsConsistent n P (lock_output P q o neg recorded c)
  locked-IsConsistent neg call =
      elim (Bool-cases (buses_free c (P.output_bus2 q) (P.output_bus1 o))) [
        | inl free ↦ rw (lock_output_free P q o neg recorded c free) (record {
          idle = λ p e. r.consistent.idle p (omega arith);
          in_range = r.consistent.in_range;
          bus = λ b. elim (ℕ_discrete b (P.output_bus2 q)) [
            | yes same ↦ ground arith
            | no other ↦
                rw (==_ne b (P.output_bus2 q) other) (r.consistent.bus b ∙ sym (same_zero b))
          ];
          held = λ p j e z. r.consistent.held p j e (new_held (P.input_bus2 p) z);
          counted = new_counted neg;
          good = new_match neg call;
        })
        | inr held ↦ rw (lock_output_held P q o neg recorded c held) (record {
          idle = λ p e. r.consistent.idle p (omega arith);
          in_range = r.consistent.in_range;
          bus = λ b. elim (ℕ_discrete b (P.output_bus2 q)) [
            | yes same ↦ ground (arith, r.consistent.bus b, held_count held)
            | no other ↦
                rw (==_ne b (P.output_bus2 q) other) (r.consistent.bus b ∙ sym (same_zero b))
          ];
          held = λ p j e z. r.consistent.held p j e (new_held (P.input_bus2 p) z);
          counted = new_counted neg;
          good = new_match neg call;
        })
      ]

  -- The outputs are matched with the sign `neg`, the search goes on, and takes the match back where that fails.
  go_on :
      (next : Search → Run (Bool × Search)) (neg : Bool)
      → ((c' : Core)
          → IsConsistent n P c'
          → left ≤ free_count P.output_match_order c'.output_lock
          → Fine P c' next)
      → (call_compare P.compare c.input_lock (P.output_support2 q) (q, o)
          ≡ ok (if neg then 2 else 1))
      → (b : Best) → IsSound P b
      → (x : Bool × Search) × ((next (record { core = lock_output P q o neg recorded c; best = b })
            >>= λ y.
                if y.0
                then ok y
                else ok (false, record (y.1) { core = unlock_output P q o recorded y.1.core }))
          ≡ ok x)
        × Ends P c x
  go_on next neg fine call b sound =
      let (y, e, ends) =
        fine (lock_output P q o neg recorded c) (locked-IsConsistent neg call) room b sound in
      elim (Bool-cases y.0) [
        | inl won ↦ (
          y,
          rw (e, won),
          record { restored = λ lost. cc; found = ends.found; sound = ends.sound },
        )
        | inr lost ↦ (
          (false, record (y.1) { core = unlock_output P q o recorded y.1.core }),
          rw (e, lost),
          record {
            restored = λ l.
                ap (λ x. unlock_output P q o recorded x) (ends.restored lost)
                ∙ unlock-lock_output P q o neg recorded c r.output_free empty held_count;
            found = λ w. cc;
            sound = ends.sound;
          },
        )
      ]
    where
      empty :
          buses_free c (P.output_bus2 q) (P.output_bus1 o) ≡ true
          → c.bus_count (P.output_bus2 q) ≡ 0
      empty free = ground (arith, r.consistent.bus (P.output_bus2 q))

      room : left ≤ free_count P.output_match_order (lock_output P q o neg recorded c).output_lock
      room = elim (Bool-cases (buses_free c (P.output_bus2 q) (P.output_bus1 o))) [
        | inl free ↦ rw (lock_output_free P q o neg recorded c free) (
            omega (
              arith,
              r.room,
              free_count-update P.output_match_order c.output_lock q (pos o, neg) plain.distinct,
            ))
        | inr held ↦ rw (lock_output_held P q o neg recorded c held) (
            omega (
              arith,
              r.room,
              free_count-update P.output_match_order c.output_lock q (pos o, neg) plain.distinct,
            ))
      ]

  pub finish_match_lem :
      In q P.output_match_order
      → In o (P.output_match_cand q)
      → (next : Search → Run (Bool × Search))
      → ((c' : Core)
          → IsConsistent n P c'
          → left ≤ free_count P.output_match_order c'.output_lock
          → Fine P c' next)
      → Fine P c (finish_match P q o recorded next)
  unfolding finish_match
  finish_match_lem in_order candidate next fine b sound =
      let (t, e, small) = plain.answers c.input_lock r.consistent.in_range q o in_order candidate in
      verdict t e small
    where
      verdict :
          (t : ℕ)
          → call_compare P.compare c.input_lock (P.output_support2 q) (q, o) ≡ ok t
          → t ≤ 2
          → (x : Bool × Search) × (finish_match P q o recorded next (record { core = c; best = b })
              ≡ ok x)
            × Ends P c x
      verdict zero e small = (
        (false, record { core = c; best = b }),
        rw (finish_match, e),
        record { restored = λ l. refl; found = λ w. cc; sound = sound },
      )
      verdict (suc zero) e small = rw (finish_match, e) (go_on next false fine e b sound)
      verdict (suc (suc zero)) e small = rw (finish_match, e) (go_on next true fine e b sound)
      verdict (suc (suc (suc t))) e small = absurd (omega arith)
