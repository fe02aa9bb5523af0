-- ===== src/Matching/Next/Choice.antt =====
-- src/Matching.cpp: `next_match` chooses an output of largest priority among those not matched yet.
use multi_bit_large_scale_bo.Base.{
  ℕ, zero, suc, ◌≡◌, refl, sym, ◌∙◌, ◌⊎◌, inl, inr, List, [], ◌∷◌, Bool, true, false, ==_ne,
  ==_refl, Option, none, some, arith, In, Bool-cases, subst,
}
use native.Mathlib.Decide.{ℕ_discrete}
use multi_bit_large_scale_bo.Base.Int.{ℤ, pos, negsuc}
use multi_bit_large_scale_bo.Matching.Filter.{pred_ℤ}
use multi_bit_large_scale_bo.Matching.Next.{
  ltb_ℤ, int_min, Choices, lower, fresh_priority, put_priority, choose, next_match,
}

ltb_ℤ_irrefl : (z : ℤ) → ltb_ℤ z z ≡ false
ltb_ℤ_irrefl (pos n) = ground arith
ltb_ℤ_irrefl (negsuc n) = ground arith

-- If `x` is not below `y`, and `y` is not below `z`, then `x` is not below `z`.
ltb_ℤ_trans : (x y z : ℤ) → ltb_ℤ x y ≡ false → ltb_ℤ y z ≡ false → ltb_ℤ x z ≡ false
ltb_ℤ_trans (pos a) (pos b) (pos c) h k = ground arith
ltb_ℤ_trans (pos a) (pos b) (negsuc c) h k = refl
ltb_ℤ_trans (pos a) (negsuc b) (pos c) h k = cc
ltb_ℤ_trans (pos a) (negsuc b) (negsuc c) h k = refl
ltb_ℤ_trans (negsuc a) (pos b) z h k = cc
ltb_ℤ_trans (negsuc a) (negsuc b) (pos c) h k = cc
ltb_ℤ_trans (negsuc a) (negsuc b) (negsuc c) h k = ground arith

ltb_ℤ_asym : (x y : ℤ) → ltb_ℤ x y ≡ true → ltb_ℤ y x ≡ false
ltb_ℤ_asym (pos a) (pos b) h = ground arith
ltb_ℤ_asym (pos a) (negsuc b) h = cc
ltb_ℤ_asym (negsuc a) (pos b) h = refl
ltb_ℤ_asym (negsuc a) (negsuc b) h = ground arith

pred_ℤ_le : (z : ℤ) → ltb_ℤ (pos 0) z ≡ false → ltb_ℤ (pos 0) (pred_ℤ z) ≡ false
pred_ℤ_le (pos zero) h = refl
pred_ℤ_le (pos (suc n)) h = ground arith
pred_ℤ_le (negsuc n) h = refl

-- A priority that is computed is not positive.
lower_le :
    (unmatched : ℕ → Bool) (bs : List ℕ) (z : ℤ)
    → ltb_ℤ (pos 0) z ≡ false
    → ltb_ℤ (pos 0) (lower unmatched bs z) ≡ false
unfolding lower
lower_le unmatched [] z h = h
lower_le unmatched (b ∷ bs) z h = elim (Bool-cases (unmatched b)) [
  | inl yes_ ↦ rw yes_ (lower_le unmatched bs (pred_ℤ z) (pred_ℤ_le z h))
  | inr no_ ↦ rw no_ (lower_le unmatched bs z h)
]

-- To store a priority that was computed again changes none.
fresh_priority-put :
    (c : Choices) (priority : ℕ → ℤ) (p q : ℕ)
    → fresh_priority c (put_priority priority p (fresh_priority c priority p)) q
      ≡ fresh_priority c priority q
unfolding fresh_priority
fresh_priority-put c priority p q = elim (ℕ_discrete q p) [
  | yes same ↦
      subst
        (λ x.
          fresh_priority c (put_priority priority x (fresh_priority c priority x)) q
          ≡ fresh_priority c priority q)
        same (here q)
  | no other ↦ rw (==_ne q p other) refl
]
  where
    here :
        (q : ℕ)
        → fresh_priority c (put_priority priority q (fresh_priority c priority q)) q
          ≡ fresh_priority c priority q
    here q = rw (==_refl q) (elim (Bool-cases (ltb_ℤ (pos 0) (priority q))) [
      | inl up ↦ rw (up, up)
      | inr down ↦ rw (down, lower_le c.unmatched (c.buses q) (pos 0) refl)
    ])

-- `p` is chosen from `order`: it is not matched yet, its priority is above `best`, and no other has a larger
-- one.
pub record IsChosen (c : Choices) (F : ℕ → ℤ) (order : List ℕ) (best : ℤ) (p : ℕ) : Type 0 where
  pub member : In p order
  pub free : c.free p ≡ true
  pub better : ltb_ℤ best (F p) ≡ true
  pub largest : (q : ℕ) → In q order → c.free q ≡ true → ltb_ℤ (F p) (F q) ≡ false

ltb_ℤ_chain : (x y z : ℤ) → ltb_ℤ x y ≡ true → ltb_ℤ y z ≡ true → ltb_ℤ x z ≡ true
ltb_ℤ_chain x y z h k = elim (Bool-cases (ltb_ℤ x z)) [
  | inl below ↦ below
  | inr above ↦ absurd (let e = ltb_ℤ_trans x z y above (ltb_ℤ_asym y z k) in cc)
]

module _ (c : Choices) (F : ℕ → ℤ) where
  -- What the loop over `order` makes of the choice `np` and the priority `best`.
  abbrev Chosen : List ℕ → Option ℕ → ℤ → Option ℕ → Type 0
  Chosen order np best r =
      (r ≡ np) × ((q : ℕ) → In q order → c.free q ≡ true → ltb_ℤ best (F q) ≡ false)
      ⊎ ((p : ℕ) × (r ≡ some p) × IsChosen c F order best p)

  better_step :
      (p : ℕ) (ps : List ℕ) (np r : Option ℕ) (best : ℤ)
      → c.free p ≡ true
      → ltb_ℤ best (F p) ≡ true
      → Chosen ps (some p) (F p) r
      → Chosen (p ∷ ps) np best r
  better_step p ps np r best free better (inl (e, none_larger)) = inr (
    p,
    e,
    record {
      member = inl refl;
      free = free;
      better = better;
      largest = λ q m f. elim m [
        | inl same ↦ subst (λ x. ltb_ℤ (F p) (F x) ≡ false) (sym same) (ltb_ℤ_irrefl (F p))
        | inr later ↦ none_larger q later f
      ];
    },
  )
  better_step p ps np r best free better (inr (p', e, h)) = inr (
    p',
    e,
    record {
      member = inr h.member;
      free = h.free;
      better = ltb_ℤ_chain best (F p) (F p') better h.better;
      largest = λ q m f. elim m [
        | inl same ↦
            subst (λ x. ltb_ℤ (F p') (F x) ≡ false) (sym same) (ltb_ℤ_asym (F p) (F p') h.better)
        | inr later ↦ h.largest q later f
      ];
    },
  )

  worse_step :
      (p : ℕ) (ps : List ℕ) (np r : Option ℕ) (best : ℤ)
      → (c.free p ≡ true → ltb_ℤ best (F p) ≡ false)
      → Chosen ps np best r
      → Chosen (p ∷ ps) np best r
  worse_step p ps np r best worse (inl (e, none_larger)) = inl (
    e,
    λ q m f. elim m [
      | inl same ↦
          subst (λ x. ltb_ℤ best (F x) ≡ false) (sym same)
            (worse (subst (λ x. c.free x ≡ true) same f))
      | inr later ↦ none_larger q later f
    ],
  )
  worse_step p ps np r best worse (inr (p', e, h)) = inr (
    p',
    e,
    record {
      member = inr h.member;
      free = h.free;
      better = h.better;
      largest = λ q m f. elim m [
        | inl same ↦
            subst (λ x. ltb_ℤ (F p') (F x) ≡ false) (sym same)
              (ltb_ℤ_trans (F p') best (F p) (ltb_ℤ_asym best (F p') h.better)
                (worse (subst (λ x. c.free x ≡ true) same f)))
        | inr later ↦ h.largest q later f
      ];
    },
  )

  choose-Chosen :
      (order : List ℕ) (np : Option ℕ) (best : ℤ) (priority : ℕ → ℤ)
      → ((q : ℕ) → fresh_priority c priority q ≡ F q)
      → Chosen order np best (choose c order np best priority).0
  unfolding choose
  choose-Chosen [] np best priority agree = inl (refl, λ q m f. absurd m)
  choose-Chosen (p ∷ ps) np best priority agree = rw (agree p) (elim (Bool-cases (c.free p)) [
    | inl free ↦ elim (Bool-cases (ltb_ℤ best (F p))) [
      | inl better ↦
          rw (free, better)
            (better_step p ps np _ best free better
              (choose-Chosen ps (some p) (F p) (put_priority priority p (F p)) agree'))
      | inr worse ↦
          rw (free, worse)
            (worse_step p ps np _ best (λ f. worse)
              (choose-Chosen ps np best (put_priority priority p (F p)) agree'))
    ]
    | inr matched ↦
        rw matched (worse_step p ps np _ best (λ f. cc) (choose-Chosen ps np best priority agree))
  ])
    where
      agree' : (q : ℕ) → fresh_priority c (put_priority priority p (F p)) q ≡ F q
      agree' q =
          subst (λ z. fresh_priority c (put_priority priority p z) q ≡ F q) (agree p)
            (fresh_priority-put c priority p q ∙ agree q)

-- If no priority is as low as `INT_MIN`, then `next_match` returns a null pointer, and every output of the
-- order is matched; or it returns an output of the order that is not matched yet, and no other such
-- output has a larger priority, where the priorities that are not positive are computed again.
pub next_match_chooses :
    (c : Choices) (order : List ℕ) (priority : ℕ → ℤ)
    → ((q : ℕ) → In q order → ltb_ℤ int_min (fresh_priority c priority q) ≡ true)
    → ((next_match c order priority).0 ≡ none) × ((q : ℕ) → In q order → c.free q ≡ false)
      ⊎ ((p : ℕ) × ((next_match c order priority).0 ≡ some p)
          × IsChosen c (λ q. fresh_priority c priority q) order int_min p)
unfolding next_match
next_match_chooses c order priority above =
    elim (choose-Chosen c (λ q. fresh_priority c priority q) order none int_min priority
      (λ q. refl)) [
        | inl (e, none_larger) ↦ inl (
          e,
          λ q m. elim (Bool-cases (c.free q)) [
            | inl free ↦ absurd (let a = above q m in let b = none_larger q m free in cc)
            | inr matched ↦ matched
          ],
        )
        | inr h ↦ inr h
      ]
