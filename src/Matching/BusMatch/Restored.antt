-- ===== src/Matching/BusMatch/Restored.antt =====
-- src/Matching.cpp: `recur_match_bus` restores what it is given by reference, and records sizes that the quota allows alone.
use multi_bit_large_scale_bo.Base.{
  subst, ℕ, zero, suc, ◌+◌, ◌-◌, ◌<◌, ◌≤◌, ◌≡◌, refl, sym, ap, ◌∙◌, fun_ext, ◌⊎◌, inl, inr, arith,
  Bool-cases, List, [], ◌∷◌, Bool, true, false, not, ◌&&◌, length, get_or, ltb, leb, ==_iff, ==_ne,
  All, ok,
}
use native.Mathlib.Decide.{ℕ_discrete}
use multi_bit_large_scale_bo.Base.Int.{ℤ, pos, sub_ℕ}
use multi_bit_large_scale_bo.Matching.State.{update}
use multi_bit_large_scale_bo.Matching.Prepare.{Circuit, upto}
use multi_bit_large_scale_bo.Matching.BusMatch.{
  Tried, to_size, size_diff, lower_quota, raise_quota, table_insert, record_pairs, quota_allows,
  push_pair, tail, pop_pair, try_buses, recur_match_bus, get_bus_set, extra_buses, sizes,
  sorted_size, match_bus,
}

-- Buses of the sizes `a` and `b` differ by at most `q`, and `a` is not the smaller one.
abbrev pub Fits : ℕ → ℕ → ℕ → Type 0
Fits q a b = (b ≤ a) × (a ≤ b + q)

-- The test by wrap-around is the one that is meant, for a quota that is not negative.
size_diff-Fits :
    (q a b : ℕ)
    → q < 2147483648
    → b < 2147483648
    → a < 2147483648
    → leb (size_diff a b) (to_size (pos q)) ≡ true
    → Fits q a b
size_diff-Fits q a b small b_small a_small e = ground arith

size_diff_lem : (a b : ℕ) → a < 2147483648 → b ≤ a → size_diff a b ≡ a - b
size_diff_lem a b small h = omega arith

lower_quota_lem : (q d : ℕ) → q < 2147483648 → d ≤ q → lower_quota (pos q) d ≡ pos (q - d)
lower_quota_lem q d small h = ground arith

raise_quota_lem : (q d : ℕ) → q < 2147483648 → d ≤ q → raise_quota (pos (q - d)) d ≡ pos q
raise_quota_lem q d small h = ground arith

module _ (size2 size1 : ℕ → ℕ) (bus_size q₀ : ℕ) (small : q₀ < 2147483648)
    (small2 : (d : ℕ) → size2 d < 2147483648) (small1 : (i : ℕ) → size1 i < 2147483648) where
  -- The quota is not negative, and the pairs fit the quota at the start.
  pub record IsFair (t : Tried) : Type 0 where
    pub left : ℕ
    pub quota_left : t.quota ≡ pos left
    pub bounded : left ≤ q₀
    pub fitting : All (λ p. Fits q₀ (size2 p.0) (size1 p.1)) t.one_bus_match

  -- What a call keeps: all but `new_match` and the table, to which it adds sizes that fit.
  pub record Keeps (t u : Tried) : Type 0 where
    pub same_quota : u.quota ≡ t.quota
    pub same_occupied : u.occupied ≡ t.occupied
    pub same_pairs : u.one_bus_match ≡ t.one_bus_match
    pub added : (a b : ℕ) → u.table a b ≡ true → (t.table a b ≡ true) ⊎ Fits q₀ a b
    pub kept : (a b : ℕ) → t.table a b ≡ true → u.table a b ≡ true

  Keeps-refl : (t : Tried) → Keeps t t
  Keeps-refl t = record {
    same_quota = refl;
    same_occupied = refl;
    same_pairs = refl;
    added = λ a b e. inl e;
    kept = λ a b e. e;
  }

  Keeps-trans : (t u v : Tried) → Keeps t u → Keeps u v → Keeps t v
  Keeps-trans t u v k l = record {
    same_quota = l.same_quota ∙ k.same_quota;
    same_occupied = l.same_occupied ∙ k.same_occupied;
    same_pairs = l.same_pairs ∙ k.same_pairs;
    added = λ a b e. elim (l.added a b e) [ inl f ↦ k.added a b f | inr fits ↦ inr fits ];
    kept = λ a b e. l.kept a b (k.kept a b e);
  }

  Keeps-IsFair : (t u : Tried) → Keeps t u → IsFair t → IsFair u
  Keeps-IsFair t u k fair = record {
    left = fair.left;
    quota_left = k.same_quota ∙ fair.quota_left;
    bounded = fair.bounded;
    fitting =
        subst (λ ps. All (λ p. Fits q₀ (size2 p.0) (size1 p.1)) ps) (sym k.same_pairs) fair.fitting;
  }

  record_pairs_lem :
      (ps : List (ℕ × ℕ)) (table : ℕ → ℕ → Bool)
      → All (λ p. Fits q₀ (size2 p.0) (size1 p.1)) ps
      → ((a b : ℕ)
          → record_pairs size2 size1 bus_size ps table a b ≡ true
          → (table a b ≡ true) ⊎ Fits q₀ a b)
        × ((a b : ℕ) → table a b ≡ true → record_pairs size2 size1 bus_size ps table a b ≡ true)
  unfolding record_pairs
  record_pairs_lem [] table all = (λ a b e. inl e, λ a b e. e)
  record_pairs_lem ((d, i) ∷ ps) table (first, rest) =
      let (back, keep) = record_pairs_lem ps (table_insert (size2 d) (size1 i) table) rest in
      (
        λ a b e. elim (back a b e) [ inr fits ↦ inr fits | inl f ↦ new a b f ],
        λ a b e. keep a b (stays a b e),
      )
    where
      new :
          (a b : ℕ)
          → table_insert (size2 d) (size1 i) table a b ≡ true
          → (table a b ≡ true) ⊎ Fits q₀ a b
      new a b f = ground (arith, first)

      stays : (a b : ℕ) → table a b ≡ true → table_insert (size2 d) (size1 i) table a b ≡ true
      stays a b e = ground arith

  -- The call for the buses that are left does so.
  abbrev pub Keeping : (Tried → Tried) → Type 0
  Keeping next = (u : Tried) → IsFair u → Keeps u (next u)

  -- One bus of circuit 1 that is tried.
  try_one_lem :
      (d i : ℕ) (next : Tried → Tried) (t : Tried)
      → Keeping next
      → IsFair t
      → t.occupied i ≡ false
      → quota_allows size2 size1 bus_size t.quota d i ≡ true
      → Keeps t (pop_pair size2 size1 bus_size d i (next (push_pair size2 size1 bus_size d i t)))
  try_one_lem d i next t keeping fair free allowed =
      let pushed = push_pair size2 size1 bus_size d i t in
      let fits : Fits fair.left (size2 d) (size1 i) =
        size_diff-Fits fair.left (size2 d) (size1 i) (omega (arith, fair.bounded)) (small1 i)
          (small2 d)
          (subst (λ (z : ℤ). leb (size_diff (size2 d) (size1 i)) (to_size z) ≡ true) fair.quota_left
            allowed) in
      let diff : size_diff (size2 d) (size1 i) ≡ size2 d - size1 i =
        size_diff_lem (size2 d) (size1 i) (small2 d) fits.0 in
      let lowered : pushed.quota ≡ pos (fair.left - (size2 d - size1 i)) =
        rw (fair.quota_left, diff)
          (lower_quota_lem fair.left (size2 d - size1 i) (omega (arith, fair.bounded))
            (omega (arith, fits.1))) in
      let k = keeping pushed (record {
        left = fair.left - (size2 d - size1 i);
        quota_left = lowered;
        bounded = omega (arith, fair.bounded);
        fitting = ((fits.0, omega (arith, fits.1, fair.bounded)), fair.fitting);
      }) in
      record {
        same_quota =
            ap (λ z. raise_quota z (size_diff (size2 d) (size1 i))) (k.same_quota ∙ lowered)
            ∙ rw diff (
                raise_quota_lem fair.left (size2 d - size1 i) (omega (arith, fair.bounded))
                  (omega (arith, fits.1)))
            ∙ sym fair.quota_left;
        same_occupied = ap (λ f. update f i false) k.same_occupied ∙ fun_ext (λ j. cleared j);
        same_pairs = ap (λ ps. tail ps) k.same_pairs;
        added = λ a b e. k.added a b e;
        kept = λ a b e. k.kept a b e;
      }
    where
      cleared : (j : ℕ) → update (update t.occupied i true) i false j ≡ t.occupied j
      cleared j = elim (ℕ_discrete j i) [
        | yes same ↦ rw (same, (==_iff i i).1 refl) (sym free)
        | no other ↦ rw (==_ne j i other) refl
      ]

  try_buses_lem :
      (d : ℕ) (next : Tried → Tried) (is : List ℕ) (t : Tried)
      → Keeping next
      → IsFair t
      → Keeps t (try_buses size2 size1 bus_size d next is t)
  unfolding try_buses
  try_buses_lem d next [] t keeping fair = Keeps-refl t
  try_buses_lem d next (i ∷ is) t keeping fair = elim (Bool-cases (t.occupied i)) [
    | inl taken ↦ rw taken (try_buses_lem d next is t keeping fair)
    | inr free ↦ elim (Bool-cases (quota_allows size2 size1 bus_size t.quota d i)) [
      | inr above ↦ rw (free, above) (try_buses_lem d next is t keeping fair)
      | inl allowed ↦ elim (Bool-cases (not t.new_match && t.table (size2 d) (size1 i))) [
        | inl known ↦ rw (free, allowed, known) (try_buses_lem d next is t keeping fair)
        | inr new ↦
            let u =
              pop_pair size2 size1 bus_size d i (next (push_pair size2 size1 bus_size d i t)) in
            let k = try_one_lem d i next t keeping fair free allowed in
            rw (free, allowed, new)
              (Keeps-trans t u (try_buses size2 size1 bus_size d next is u) k
                (try_buses_lem d next is u keeping (Keeps-IsFair t u k fair)))
      ]
    ]
  ]

  -- If the sizes of buses are below 2 ^ 31, the quota is not negative and at most a number below 2 ^ 31,
  -- and the sizes of each pair that is matched now are such that that of circuit 2 is at least as large and
  -- at most by that number larger, then `recur_match_bus` gives back the quota, the occupied buses and the
  -- pairs as they were, keeps what the table has, and adds sizes alone of which that of circuit 2 is at
  -- least as large and at most by that number larger.
  pub recur_match_bus-Keeps :
      (left depth : ℕ) (t : Tried)
      → IsFair t
      → Keeps t (recur_match_bus size2 size1 bus_size left depth t)
  unfolding recur_match_bus
  recur_match_bus-Keeps zero depth t fair =
      let (back, keep) = record_pairs_lem t.one_bus_match t.table fair.fitting in
      record {
        same_quota = refl;
        same_occupied = refl;
        same_pairs = refl;
        added = back;
        kept = keep;
      }
  recur_match_bus-Keeps (suc left) depth t fair =
      try_buses_lem depth (λ u. recur_match_bus size2 size1 bus_size left (suc depth) u)
        (upto bus_size) t (λ u fair'. recur_match_bus-Keeps left (suc depth) u fair') fair

sub_ℕ_lem : (a b q : ℕ) → a ≡ b + q → sub_ℕ a b ≡ pos q
sub_ℕ_lem a b q e = ground arith

sorted_size_small :
    (ss : List ℕ) (n : ℕ)
    → ((b : ℕ) → get_or ss b 0 < 2147483648)
    → (d : ℕ) → sorted_size ss n d < 2147483648
unfolding sorted_size
sorted_size_small ss n small d = small _

-- If circuit 1 has no more buses of two or more ports than circuit 2, the sizes of all these buses are
-- below 2 ^ 31, and the inputs of circuit 2, each counted once for each of its buses, are by a number below
-- 2 ^ 31 more than those of circuit 1 or as many, so that the quota is not negative, then `match_bus` ends,
-- and it matches sizes alone of which that of circuit 2 is at least as large and at most by that number
-- larger.
pub match_bus-Fits :
    (c1 c2 : Circuit) (q : ℕ)
    → c2.pi_size + extra_buses c2 c2.pi_size ≡ c1.pi_size + extra_buses c1 c1.pi_size + q
    → q < 2147483648
    → ((b : ℕ) → get_or (sizes (get_bus_set c1.buses)) b 0 < 2147483648)
    → ((b : ℕ) → get_or (sizes (get_bus_set c2.buses)) b 0 < 2147483648)
    → length (sizes (get_bus_set c1.buses)) ≤ length (sizes (get_bus_set c2.buses))
    → (bus_size : ℕ) × (table : ℕ → ℕ → Bool) × (match_bus c1 c2 ≡ ok (bus_size, table))
      × ((a b : ℕ) → table a b ≡ true → Fits q a b)
unfolding match_bus
match_bus-Fits c1 c2 q balance small small1 small2 enough =
    let ss1 = sizes (get_bus_set c1.buses) in
    let ss2 = sizes (get_bus_set c2.buses) in
    let n = length ss1 in
    let start : Tried = record {
      quota =
          sub_ℕ (c2.pi_size + extra_buses c2 c2.pi_size) (c1.pi_size + extra_buses c1 c1.pi_size);
      occupied = λ i. false;
      one_bus_match = [];
      new_match = true;
      table = λ a b. false;
    } in
    let k =
      recur_match_bus-Keeps (sorted_size ss2 n) (sorted_size ss1 n) n q small
        (sorted_size_small ss2 n small2) (sorted_size_small ss1 n small1) n 0 start
        (record {
          left = q;
          quota_left = sub_ℕ_lem _ _ q balance;
          bounded = omega arith;
          fitting = tt;
        }) in
    (
      n,
      (recur_match_bus (sorted_size ss2 n) (sorted_size ss1 n) n n 0 start).table,
      rw (not_fewer (length ss2) n enough) refl,
      λ a b e. elim (k.added a b e) [ inl none_ ↦ absurd (apart none_) | inr fits ↦ fits ],
    )
  where
    not_fewer : (m n : ℕ) → n ≤ m → ltb m n ≡ false
    not_fewer m n h = ground arith

    apart : false ≡ true → ⊥
    apart e = cc
