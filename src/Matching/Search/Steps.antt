-- ===== src/Matching/Search/Steps.antt =====
-- src/Matching.cpp: one step of the search for an input, and the step back.
use multi_bit_large_scale_bo.Base.{
  ℕ, zero, suc, ◌-◌, ◌≡◌, ◌≢◌, refl, sym, ap, ◌∙◌, subst, fun_ext, arith, List, Bool, true, false,
  ◌&&◌, ◌==◌, ==_ne, ==_refl, ==_iff, if◌then◌else◌,
}
use native.Mathlib.Decide.{ℕ_discrete}
use multi_bit_large_scale_bo.Base.Int.{ℤ, pos, negsuc}
use multi_bit_large_scale_bo.Matching.State.{
  Problem, Core, update, raise, drop, unlocked, is_none, is_port,
}
use multi_bit_large_scale_bo.Matching.Buses.{
  buses_free, buses_joined, join, part, raise_bus, release_bus,
}
use multi_bit_large_scale_bo.Matching.Search.{lock_input, unlock_input}
use multi_bit_large_scale_bo.Matching.Search.Invariant.{IsPlain, IsReady}

-- A write that is taken back.
pub update_back {ℓ} :
    {A : Type ℓ} (f : ℕ → A) (k : ℕ) (x : A) (y : A) → f k ≡ y → update (update f k x) k y ≡ f
update_back f k x y e = fun_ext λ j. back j
  where
    back : (j : ℕ) → update (update f k x) k y j ≡ f j
    back j = elim (ℕ_discrete j k) [
      | yes same ↦ rw ((==_iff j k).1 same) (sym e ∙ ap f (sym same))
      | no other ↦ rw (==_ne j k other)
    ]

pub drop-raise : (f : ℕ → ℕ) (k : ℕ) → drop (raise f k) k ≡ f
drop-raise f k = fun_ext λ j. back j
  where
    back : (j : ℕ) → drop (raise f k) k j ≡ f j
    back j = elim (ℕ_discrete j k) [ yes same ↦ ground arith | no other ↦ ground arith ]

-- To lock an input and to unlock it again.
pub unlock-lock_input :
    (p : ℕ) (z : ℤ) (neg : Bool) (c : Core)
    → (c.input_lock_count p ≡ 0 → c.input_lock p ≡ unlocked)
    → unlock_input p (lock_input p z neg c) ≡ c
unfolding lock_input unlock_input
unlock-lock_input p z neg c idle =
    λ i. record c { input_lock = locks i; input_lock_count = drop-raise c.input_lock_count p i }
  where
    old_count : c.input_lock_count p ≢ 0 → suc (c.input_lock_count p) - 1 ≡ c.input_lock_count p
    old_count n = omega arith

    locks :
        (if raise c.input_lock_count p p - 1 == 0
          then update
              (if c.input_lock_count p == 0 then update c.input_lock p (z, neg) else c.input_lock)
              p
              unlocked
          else (if c.input_lock_count p == 0 then update c.input_lock p (z, neg) else c.input_lock))
        ≡ c.input_lock
    locks = elim (ℕ_discrete (c.input_lock_count p) 0) [
      | yes new ↦ rw (==_refl p, new) (update_back c.input_lock p (z, neg) unlocked (idle new))
      | no old ↦ rw (==_refl p, old_count old, ==_ne (c.input_lock_count p) 0 old)
    ]

is_none-eq : (z : ℤ) → is_none z ≡ true → z ≡ negsuc 0
is_none-eq (pos k) e = cc
is_none-eq (negsuc zero) e = refl
is_none-eq (negsuc (suc k)) e = cc

and_left : (a b : Bool) → (a && b) ≡ true → a ≡ true
and_left true b e = refl
and_left false b e = cc

and_right : (a b : Bool) → (a && b) ≡ true → b ≡ true
and_right true b e = e
and_right false b e = cc

-- What `release_bus` leaves, by the counts after it.
release_bus_lem :
    (c : Core) (b2 b1 : ℕ) (f : ℕ → ℕ)
    → drop c.bus_count b2 ≡ f
    → release_bus c b2 b1
      ≡ (if f b2 == 0 then part (record c { bus_count = f }) b2 b1 else record c { bus_count = f })
unfolding release_bus
release_bus_lem c b2 b1 f e =
    ap
      (λ (g : ℕ → ℕ).
        if g b2 == 0 then part (record c { bus_count = g }) b2 b1 else record c { bus_count = g })
      e

-- Buses that were free are free again.
pub release-join :
    (c : Core) (b2 b1 : ℕ)
    → buses_free c b2 b1 ≡ true
    → c.bus_count b2 ≡ 0
    → release_bus (raise_bus (join c b2 b1) b2) b2 b1 ≡ c
release-join c b2 b1 free e =
    release_bus_lem (raise_bus (join c b2 b1) b2) b2 b1 c.bus_count (drop-raise c.bus_count b2)
    ∙ rw e (λ i. record c { bus_2_to_1 = left i; bus_1_to_2 = right i })
  where
    left : update (update c.bus_2_to_1 b2 (pos b1)) b2 (negsuc 0) ≡ c.bus_2_to_1
    left = update_back c.bus_2_to_1 b2 (pos b1) (negsuc 0) (
        is_none-eq (c.bus_2_to_1 b2)
          (and_left (is_none (c.bus_2_to_1 b2)) (is_none (c.bus_1_to_2 b1)) free))

    right : update (update c.bus_1_to_2 b1 (pos b2)) b1 (negsuc 0) ≡ c.bus_1_to_2
    right = update_back c.bus_1_to_2 b1 (pos b2) (negsuc 0) (
        is_none-eq (c.bus_1_to_2 b1)
          (and_right (is_none (c.bus_2_to_1 b2)) (is_none (c.bus_1_to_2 b1)) free))

-- Buses that others hold stay matched.
pub release-raise_bus :
    (c : Core) (b2 b1 : ℕ) → c.bus_count b2 ≢ 0 → release_bus (raise_bus c b2) b2 b1 ≡ c
release-raise_bus c b2 b1 n =
    release_bus_lem (raise_bus c b2) b2 b1 c.bus_count (drop-raise c.bus_count b2)
    ∙ rw (==_ne (c.bus_count b2) 0 n) refl

-- A bus that is matched has a count.
pub joined_count :
    (c : Core) (b2 b1 : ℕ)
    → is_none (c.bus_2_to_1 b2) ≡ (c.bus_count b2 == 0)
    → buses_joined c b2 b1 ≡ true
    → c.bus_count b2 ≢ 0
joined_count c b2 b1 e j z =
    let set : is_none (c.bus_2_to_1 b2) ≡ true = e ∙ (==_iff (c.bus_count b2) 0).1 z in
    let none = is_none-eq (c.bus_2_to_1 b2) set in
    let held = and_left (is_port (c.bus_2_to_1 b2) b1) (is_port (c.bus_1_to_2 b1) b2) j in
    absurd (contra none held)
  where
    contra : c.bus_2_to_1 b2 ≡ negsuc 0 → is_port (c.bus_2_to_1 b2) b1 ≡ true → ⊥
    contra e h = let h' = subst (λ z. is_port z b1 ≡ true) e h in cc

module _ (n : ℕ) (P : Problem) (recorded : List ℕ) (q o left : ℕ) (plain : IsPlain n P) where
  -- The state with the buses of an input matched is ready.
  pub join-IsReady :
      (c : Core) (p j : ℕ)
      → IsReady n P recorded q o left c
      → IsReady n P recorded q o left
          (raise_bus (join c (P.input_bus2 p) (P.input_bus1 j)) (P.input_bus2 p))
  join-IsReady c p j r = record {
    consistent = record {
      idle = r.consistent.idle;
      in_range = r.consistent.in_range;
      bus = λ b. ground (arith, r.consistent.bus b);
      held = λ p' j' e. ground (arith, r.consistent.held p' j' e);
      counted = r.consistent.counted;
      good = r.consistent.good;
    };
    locked = r.locked;
    output_free = r.output_free;
    unmatched = r.unmatched;
    fits =
        rw
          (
            ==_ne (P.output_bus2 q) (P.input_bus2 p) (λ e. plain.apart2 p q (sym e)),
            ==_ne (P.output_bus1 o) (P.input_bus1 j) (λ e. plain.apart1 j o (sym e)),
          )
          r.fits;
    room = r.room;
  }

  pub raise_bus-IsReady :
      (c : Core) (b : ℕ)
      → c.bus_count b ≢ 0
      → IsReady n P recorded q o left c
      → IsReady n P recorded q o left (raise_bus c b)
  raise_bus-IsReady c b old r = record {
    consistent = record {
      idle = r.consistent.idle;
      in_range = r.consistent.in_range;
      bus = λ b'. ground (arith, r.consistent.bus b');
      held = λ p' j' e. ground (arith, r.consistent.held p' j' e);
      counted = r.consistent.counted;
      good = r.consistent.good;
    };
    locked = r.locked;
    output_free = r.output_free;
    unmatched = r.unmatched;
    fits = r.fits;
    room = r.room;
  }
