-- ===== src/Matching/Search/Recorded.antt =====
-- src/Matching.cpp: the counts of the inputs in `record_lock`, in closed form, and the match of two outputs that is taken back.
use multi_bit_large_scale_bo.Base.{
  ℕ, ◌+◌, ◌-◌, ◌≡◌, ◌≢◌, ap, ◌∙◌, inl, inr, fun_ext, arith, Bool-cases, List, [], ◌∷◌, Bool, true,
  false, ◌==◌, if◌then◌else◌,
}
use multi_bit_large_scale_bo.Base.Int.{ℤ, pos}
use multi_bit_large_scale_bo.Answer.{Lock}
use multi_bit_large_scale_bo.Matching.State.{Problem, Core, update, raise, drop, unlocked, is_const}
use multi_bit_large_scale_bo.Matching.Buses.{buses_free, join, release_bus}
use multi_bit_large_scale_bo.Matching.Search.{
  raise_recorded, drop_recorded, lock_output, unlock_output,
}
use multi_bit_large_scale_bo.Matching.Search.Steps.{
  update_back, drop-raise, release-join, release-raise_bus,
}

-- How often `k` is in a list.
abbrev pub times : ℕ → List ℕ → ℕ
times k [] = 0
times k (x ∷ xs) = (if k == x then 1 else 0) + times k xs

-- The counts `f` with those of a list added, and with those taken off.
abbrev pub plus : (ℕ → ℕ) → List ℕ → ℕ → ℕ
plus f xs k = f k + times k xs

abbrev pub minus : (ℕ → ℕ) → List ℕ → ℕ → ℕ
minus f xs k = f k - times k xs

raise-plus : (f : ℕ → ℕ) (x : ℕ) (xs : List ℕ) → plus (raise f x) xs ≡ plus f (x ∷ xs)
raise-plus f x xs = fun_ext λ k. at k
  where
    at : (k : ℕ) → plus (raise f x) xs k ≡ plus f (x ∷ xs) k
    at k = ground arith

drop-minus : (f : ℕ → ℕ) (x : ℕ) (xs : List ℕ) → minus (drop f x) xs ≡ minus f (x ∷ xs)
drop-minus f x xs = fun_ext λ k. at k
  where
    at : (k : ℕ) → minus (drop f x) xs k ≡ minus f (x ∷ xs) k
    at k = ground arith

pub minus-plus : (f : ℕ → ℕ) (xs : List ℕ) → minus (plus f xs) xs ≡ f
minus-plus f xs = fun_ext λ k. at k
  where
    at : (k : ℕ) → minus (plus f xs) xs k ≡ f k
    at k = omega arith

-- A count that is raised between them.
pub minus-raise-plus :
    (f : ℕ → ℕ) (b : ℕ) (xs : List ℕ) → minus (raise (plus f xs) b) xs ≡ raise f b
minus-raise-plus f b xs = fun_ext λ k. at k
  where
    at : (k : ℕ) → minus (raise (plus f xs) b) xs k ≡ raise f b k
    at k = ground arith

module _ (P : Problem) where
  -- The buses of the inputs that are locked to inputs of circuit 1.
  abbrev pub port_buses : (ℕ → Lock) → List ℕ → List ℕ
  port_buses locks [] = []
  port_buses locks (p ∷ ps) =
      if is_const (locks p).0 then port_buses locks ps else P.input_bus2 p ∷ port_buses locks ps

  pub raise_recorded_lem :
      (ps : List ℕ) (c : Core)
      → raise_recorded P ps c ≡ record c {
        input_lock_count = plus c.input_lock_count ps;
        bus_count = plus c.bus_count (port_buses c.input_lock ps);
      }
  unfolding raise_recorded
  raise_recorded_lem [] c = λ i. record c {
    input_lock_count = none_added c.input_lock_count i;
    bus_count = none_added c.bus_count i;
  }
    where
      none_added : (f : ℕ → ℕ) → f ≡ plus f []
      none_added f = fun_ext λ k. omega arith
  raise_recorded_lem (p ∷ ps) c = elim (Bool-cases (is_const (c.input_lock p).0)) [
    | inl const ↦
        raise_recorded_lem ps _
        ∙ rw const (λ i. record c {
          input_lock_count = raise-plus c.input_lock_count p ps i;
          bus_count = plus c.bus_count (port_buses c.input_lock ps);
        })
    | inr matched ↦
        raise_recorded_lem ps _
        ∙ rw matched (λ i. record c {
          input_lock_count = raise-plus c.input_lock_count p ps i;
          bus_count = raise-plus c.bus_count (P.input_bus2 p) (port_buses c.input_lock ps) i;
        })
  ]

  drop_recorded_lem :
      (ps : List ℕ) (c : Core)
      → drop_recorded P ps c ≡ record c {
        input_lock_count = minus c.input_lock_count ps;
        bus_count = minus c.bus_count (port_buses c.input_lock ps);
      }
  unfolding drop_recorded
  drop_recorded_lem [] c = λ i. record c {
    input_lock_count = none_taken c.input_lock_count i;
    bus_count = none_taken c.bus_count i;
  }
    where
      none_taken : (f : ℕ → ℕ) → f ≡ minus f []
      none_taken f = fun_ext λ k. omega arith
  drop_recorded_lem (p ∷ ps) c = elim (Bool-cases (is_const (c.input_lock p).0)) [
    | inl const ↦
        drop_recorded_lem ps _
        ∙ rw const (λ i. record c {
          input_lock_count = drop-minus c.input_lock_count p ps i;
          bus_count = minus c.bus_count (port_buses c.input_lock ps);
        })
    | inr matched ↦
        drop_recorded_lem ps _
        ∙ rw matched (λ i. record c {
          input_lock_count = drop-minus c.input_lock_count p ps i;
          bus_count = drop-minus c.bus_count (P.input_bus2 p) (port_buses c.input_lock ps) i;
        })
  ]

  module _ (q o : ℕ) (neg : Bool) (recorded : List ℕ) (c : Core) where
    -- The state with the outputs matched, before their buses are.
    abbrev pub counted_core : Core
    counted_core = record c {
      output_lock = update c.output_lock q (pos o, neg);
      output_lock_count = raise c.output_lock_count o;
      input_lock_count = plus c.input_lock_count recorded;
      bus_count = raise (plus c.bus_count (port_buses c.input_lock recorded)) (P.output_bus2 q);
    }

    pub lock_output_free :
        buses_free c (P.output_bus2 q) (P.output_bus1 o) ≡ true
        → lock_output P q o neg recorded c ≡ join counted_core (P.output_bus2 q) (P.output_bus1 o)
    unfolding lock_output
    lock_output_free free = rw (
      raise_recorded_lem recorded (record c { output_lock = update c.output_lock q (pos o, neg) }),
      free,
    )

    pub lock_output_held :
        buses_free c (P.output_bus2 q) (P.output_bus1 o) ≡ false
        → lock_output P q o neg recorded c ≡ counted_core
    unfolding lock_output
    lock_output_held held = rw (
      raise_recorded_lem recorded (record c { output_lock = update c.output_lock q (pos o, neg) }),
      held,
    )

    -- What `unlock_output` makes of a state `d` that differs from `counted_core` in the buses alone.
    unlock_output_lem :
        (f g : ℕ → ℤ)
        → c.output_lock q ≡ unlocked
        → unlock_output P q o recorded (record counted_core { bus_2_to_1 = f; bus_1_to_2 = g })
          ≡ release_bus
              (record c {
                bus_2_to_1 = f;
                bus_1_to_2 = g;
                bus_count = raise c.bus_count (P.output_bus2 q);
              })
              (P.output_bus2 q)
              (P.output_bus1 o)
    unfolding unlock_output
    unlock_output_lem f g free =
        ap (λ x. release_bus x (P.output_bus2 q) (P.output_bus1 o)) (drop_recorded_lem recorded _)
        ∙ λ i.
            release_bus
              (record c {
                output_lock = update_back c.output_lock q (pos o, neg) unlocked free i;
                output_lock_count = drop-raise c.output_lock_count o i;
                input_lock_count = minus-plus c.input_lock_count recorded i;
                bus_2_to_1 = f;
                bus_1_to_2 = g;
                bus_count =
                    minus-raise-plus c.bus_count (P.output_bus2 q)
                      (port_buses c.input_lock recorded) i;
              })
              (P.output_bus2 q) (P.output_bus1 o)

    -- `lock_output` and then `unlock_output` leave the state as it was, if output `q` was not matched, and the count of its bus
    -- is 0 exactly when the buses of the two outputs are free.
    pub unlock-lock_output :
        c.output_lock q ≡ unlocked
        → (buses_free c (P.output_bus2 q) (P.output_bus1 o) ≡ true
            → c.bus_count (P.output_bus2 q) ≡ 0)
        → (buses_free c (P.output_bus2 q) (P.output_bus1 o) ≡ false
            → c.bus_count (P.output_bus2 q) ≢ 0)
        → unlock_output P q o recorded (lock_output P q o neg recorded c) ≡ c
    unlock-lock_output free empty full =
        elim (Bool-cases (buses_free c (P.output_bus2 q) (P.output_bus1 o))) [
          | inl e ↦
              ap (λ x. unlock_output P q o recorded x) (lock_output_free e)
              ∙ unlock_output_lem (update c.bus_2_to_1 (P.output_bus2 q) (pos (P.output_bus1 o)))
                  (update c.bus_1_to_2 (P.output_bus1 o) (pos (P.output_bus2 q))) free
              ∙ release-join c (P.output_bus2 q) (P.output_bus1 o) e (empty e)
          | inr e ↦
              ap (λ x. unlock_output P q o recorded x) (lock_output_held e)
              ∙ unlock_output_lem c.bus_2_to_1 c.bus_1_to_2 free
              ∙ release-raise_bus c (P.output_bus2 q) (P.output_bus1 o) (full e)
        ]
