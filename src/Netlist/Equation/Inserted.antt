-- ===== src/Netlist/Equation/Inserted.antt =====
-- src/Netlist.h: the terms of an `Operation`, which `Insert` keeps without repetition.
use multi_bit_large_scale_bo.Base.{
  false_not_true, ◌≡◌, ◌⊎◌, ◌↔◌, refl, sym, ap, ◌∙◌, inl, inr, List, [], ◌∷◌, ◌++◌, true, false,
  ==_iff, Bool-cases, In, In-append, In-append_left, In-append_right,
}
use multi_bit_large_scale_bo.Base.Int.{ℤ, pos, negsuc}
use multi_bit_large_scale_bo.Base.Sets.{set_insert}
use multi_bit_large_scale_bo.Netlist.Trace.Support.{less_ℤ-IsLinear}
use multi_bit_large_scale_bo.Netlist.Equation.{
  Term, Operation, same_ℤ, less_members, less_term, is_found, insert_term,
}

pub same_ℤ_iff : (a b : ℤ) → same_ℤ a b ≡ true ↔ a ≡ b
same_ℤ_iff (pos a) (pos b) = (λ e. ap pos ((==_iff a b).0 e), λ e. (==_iff a b).1 (pos_inj e))
  where
    pos_inj : pos a ≡ pos b → a ≡ b
    pos_inj e = cc
same_ℤ_iff (pos a) (negsuc b) = (λ e. cc, λ e. cc)
same_ℤ_iff (negsuc a) (pos b) = (λ e. cc, λ e. cc)
same_ℤ_iff (negsuc a) (negsuc b) =
    (λ e. ap negsuc ((==_iff a b).0 e), λ e. (==_iff a b).1 (negsuc_inj e))
  where
    negsuc_inj : negsuc a ≡ negsuc b → a ≡ b
    negsuc_inj e = cc

pub same_ℤ_refl : (a : ℤ) → same_ℤ a a ≡ true
same_ℤ_refl a = (same_ℤ_iff a a).1 refl

less_members_refl : (xs : List ℤ) → less_members xs xs ≡ false
unfolding less_members
less_members_refl [] = refl
less_members_refl (x ∷ xs) = rw (same_ℤ_refl x) (less_members_refl xs)

-- Of two different lists, one comes first.
less_members_connected :
    (xs ys : List ℤ) → less_members xs ys ≡ false → less_members ys xs ≡ false → xs ≡ ys
unfolding less_members
less_members_connected [] [] e f = refl
less_members_connected [] (y ∷ ys) e f = cc
less_members_connected (x ∷ xs) [] e f = cc
less_members_connected (x ∷ xs) (y ∷ ys) e f = elim (Bool-cases (same_ℤ x y)) [
  | inl same ↦
      let eq : x ≡ y = (same_ℤ_iff x y).0 same in
      let back : same_ℤ y x ≡ true = (same_ℤ_iff y x).1 (sym eq) in
      let tails : xs ≡ ys = less_members_connected xs ys (rw same at e) (rw back at f) in
      λ i. eq i ∷ tails i
  | inr other ↦
      let back : same_ℤ y x ≡ false =
        not_same y x (λ eq. false_not_true (sym other ∙ (same_ℤ_iff x y).1 (sym eq))) in
      absurd (
        false_not_true (
          sym other
          ∙ (same_ℤ_iff x y).1 (less_ℤ-IsLinear.connected x y (rw other at e) (rw back at f))))
]
  where
    not_same : (a b : ℤ) → (a ≡ b → ⊥) → same_ℤ a b ≡ false
    not_same a b n = elim (Bool-cases (same_ℤ a b)) [
      | inl s ↦ absurd (n ((same_ℤ_iff a b).0 s))
      | inr s ↦ s
    ]

-- `find` finds a term with the same members.
is_found_iff :
    (t : Term) (us : List Term)
    → is_found t us ≡ true ↔ (u : Term) × In u us × (u.member ≡ t.member)
unfolding is_found less_term
is_found_iff t [] = (λ e. cc, λ (u, m, _). absurd m)
is_found_iff t (w ∷ us) = elim (Bool-cases (less_members t.member w.member)) [
  | inl low ↦ rw low (
    λ e. deeper ((is_found_iff t us).0 e),
    λ (u, m, e). elim m [
      | inl same ↦ absurd (
          false_not_true (
            sym (less_members_refl t.member)
            ∙ ap (λ xs. less_members t.member xs) (sym e ∙ ap (λ (s : Term). s.member) same)
            ∙ low))
      | inr n ↦ (is_found_iff t us).1 (u, n, e)
    ],
  )
  | inr high ↦ elim (Bool-cases (less_members w.member t.member)) [
    | inl low ↦
        rw (high, low)
          (
            λ e. deeper ((is_found_iff t us).0 e),
            λ (u, m, e). elim m [
              | inl same ↦ absurd (
                  false_not_true (
                    sym (less_members_refl t.member)
                    ∙ ap (λ xs. less_members xs t.member) (sym e ∙ ap (λ (s : Term). s.member) same)
                    ∙ low))
              | inr n ↦ (is_found_iff t us).1 (u, n, e)
            ],
          )
    | inr none_ ↦
        rw (high, none_)
          (λ _. (w, inl refl, sym (less_members_connected t.member w.member high none_)), λ _. refl)
  ]
]
  where
    deeper :
        (u : Term) × In u us × (u.member ≡ t.member)
        → (u : Term) × In u (w ∷ us) × (u.member ≡ t.member)
    deeper (u, m, e) = (u, inr m, e)

-- The terms of the set are those in order of insertion, and no two of them have the same members.
pub record IsFilled (op : Operation) : Type 0 where
  pub listed : (t : Term) → In t op.input ↔ In t op.real_input
  pub distinct :
      (t u : Term) → In t op.real_input → In u op.real_input → t.member ≡ u.member → t ≡ u

-- A new term joins the set.
In-set_insert_new :
    (b t : Term) (us : List Term)
    → is_found b us ≡ false
    → In t (set_insert less_term b us) ↔ (t ≡ b) ⊎ In t us
unfolding is_found less_term set_insert
In-set_insert_new b t [] new_ = (λ m. m, λ m. m)
In-set_insert_new b t (u ∷ us) new_ = elim (Bool-cases (less_members b.member u.member)) [
  | inl low ↦ rw low (λ m. m, λ m. m)
  | inr high ↦ elim (Bool-cases (less_members u.member b.member)) [
    | inl above ↦
        let rest = In-set_insert_new b t us (rw (high, above) at new_) in
        rw (high, above)
          (
            λ m. elim m [
              | inl e ↦ inr (inl e)
              | inr n ↦ elim (rest.0 n) [ inl e ↦ inl e | inr k ↦ inr (inr k) ]
            ],
            λ m. elim m [
              | inl e ↦ inr (rest.1 (inl e))
              | inr (inl e) ↦ inl e
              | inr (inr k) ↦ inr (rest.1 (inr k))
            ],
          )
    | inr same ↦ absurd (false_not_true (sym (rw (high, same) at new_)))
  ]
]

add-IsFilled :
    (b : Term) (op : Operation)
    → IsFilled op
    → is_found b op.input ≡ false
    → IsFilled (record op {
      input = set_insert less_term b op.input;
      real_input = op.real_input ++ b ∷ [];
    })
add-IsFilled b op filled new_ = record {
  listed = λ t. (
    λ m. elim ((In-set_insert_new b t op.input new_).0 m) [
      | inl e ↦ In-append_right t op.real_input (b ∷ []) (inl e)
      | inr n ↦ In-append_left t op.real_input (b ∷ []) ((filled.listed t).0 n)
    ],
    λ m.
        (In-set_insert_new b t op.input new_).1
          (elim (cases t m) [ inl e ↦ inl e | inr n ↦ inr ((filled.listed t).1 n) ]),
  );
  distinct = λ t u m n e. elim (cases t m) [
    | inl s ↦ elim (cases u n) [
      | inl r ↦ s ∙ sym r
      | inr k ↦ absurd (missing u k (sym e ∙ ap (λ (w : Term). w.member) s))
    ]
    | inr k ↦ elim (cases u n) [
      | inl r ↦ absurd (missing t k (e ∙ ap (λ (w : Term). w.member) r))
      | inr l ↦ filled.distinct t u k l e
    ]
  ];
}
  where
    cases : (t : Term) → In t (op.real_input ++ b ∷ []) → (t ≡ b) ⊎ In t op.real_input
    cases t m = elim (In-append t op.real_input (b ∷ []) m) [
      | inl k ↦ inr k
      | inr (inl e) ↦ inl e
      | inr (inr n) ↦ absurd n
    ]

    missing : (u : Term) → In u op.real_input → u.member ≡ b.member → ⊥
    missing u m e =
        false_not_true (sym new_ ∙ (is_found_iff b op.input).1 (u, (filled.listed u).1 m, e))

-- If the set has the terms in order of insertion, no two with the same members, then so it has after
-- `Insert`. If a term has the sorted members, whatever its coefficient, nothing changes; else the new term
-- is the last in order. The outputs and the constant stay in both cases.
pub insert_term_lem :
    (sort : List ℤ → List ℤ) (in_ : List ℤ) (c : ℤ) (op : Operation)
    → IsFilled op
    → IsFilled (insert_term sort in_ c op)
      × ((u : Term) × In u op.real_input × (u.member ≡ sort in_) → insert_term sort in_ c op ≡ op)
      × (((u : Term) × In u op.real_input × (u.member ≡ sort in_) → ⊥)
          → (insert_term sort in_ c op).real_input
            ≡ op.real_input ++ record { member = sort in_; coeff = c } ∷ [])
      × ((insert_term sort in_ c op).output ≡ op.output)
      × ((insert_term sort in_ c op).const ≡ op.const)
unfolding insert_term
insert_term_lem sort in_ c op filled = elim (Bool-cases (is_found added op.input)) [
  | inl there ↦
      let (u, m, e) = (is_found_iff added op.input).0 there in
      rw there (filled, λ _. refl, λ n. absurd (n (u, (filled.listed u).0 m, e)), refl, refl)
  | inr new_ ↦
      let missing : (u : Term) → In u op.real_input → u.member ≡ sort in_ → ⊥ = λ u m e.
        false_not_true (sym new_ ∙ (is_found_iff added op.input).1 (u, (filled.listed u).1 m, e)) in
      rw new_ (
        add-IsFilled added op filled new_,
        λ (u, m, e). absurd (missing u m e),
        λ _. refl,
        refl,
        refl,
      )
]
  where
    added : Term
    added = record { member = sort in_; coeff = c }
