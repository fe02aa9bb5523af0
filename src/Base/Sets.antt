-- ===== src/Base/Sets.antt =====
-- `std::set`: lists in strict order, with insertion by the comparison alone.
use multi_bit_large_scale_bo.Base.Tests.{if◌then◌else◌, Bool-cases}
use multi_bit_large_scale_bo.Base.Lists.{In}
use mathlib.Core.Path.{◌≡◌, ◌∙◌}
use mathlib.Core.Logic.{◌↔◌, ◌⊎◌, inl, inr}
use mathlib.Core.Bool.{Bool, true, false}
use mathlib.Core.List.{List, [], ◌∷◌}

module _ {A : Type 0} (less : A → A → Bool) where
  unfoldable pub set_insert : A → List A → List A
  set_insert b [] = b ∷ []
  set_insert b (x ∷ xs) =
      let rest = set_insert b xs in
      if less b x then b ∷ x ∷ xs else if less x b then x ∷ rest else x ∷ xs

  -- Insertion of every element of a list, from its front.
  unfoldable pub set_insert_all : List A → List A → List A
  unfolding set_insert
  set_insert_all [] s = s
  set_insert_all (b ∷ bs) s = set_insert_all bs (set_insert b s)

  -- Each element comes before those that follow it.
  abbrev pub IsOrdered : List A → Type 0
  IsOrdered [] = Unit
  IsOrdered (x ∷ xs) = ((y : A) → In y xs → less x y ≡ true) × IsOrdered xs

  -- A strict linear order.
  pub record IsLinear : Type 0 where
    pub connected : (a b : A) → less a b ≡ false → less b a ≡ false → a ≡ b
    pub transitive : (a b c : A) → less a b ≡ true → less b c ≡ true → less a c ≡ true

  module _ (linear : IsLinear) where
    In-set_insert : (x b : A) (xs : List A) → In x (set_insert b xs) ↔ (x ≡ b) ⊎ In x xs
    unfolding set_insert
    In-set_insert x b [] = (λ m. m, λ m. m)
    In-set_insert x b (y ∷ ys) = elim (Bool-cases (less b y)) [
      | inl low ↦ rw low (λ m. m, λ m. m)
      | inr high ↦ elim (Bool-cases (less y b)) [
        | inl above ↦
            rw (high, above)
              (
                λ m. elim m [
                  | inl e ↦ inr (inl e)
                  | inr n ↦ elim ((In-set_insert x b ys).0 n) [
                    | inl e ↦ inl e
                    | inr k ↦ inr (inr k)
                  ]
                ],
                λ m. elim m [
                  | inl e ↦ inr ((In-set_insert x b ys).1 (inl e))
                  | inr n ↦ elim n [
                    | inl e ↦ inl e
                    | inr k ↦ inr ((In-set_insert x b ys).1 (inr k))
                  ]
                ],
              )
        | inr same ↦
            rw (high, same)
              (
                λ m. inr m,
                λ m. elim m [ inl e ↦ inl (e ∙ linear.connected b y high same) | inr n ↦ n ],
              )
      ]
    ]

    set_insert-IsOrdered : (b : A) (xs : List A) → IsOrdered xs → IsOrdered (set_insert b xs)
    unfolding set_insert
    set_insert-IsOrdered b [] p = (λ y m. absurd m, tt)
    set_insert-IsOrdered b (x ∷ xs) (first, rest) = elim (Bool-cases (less b x)) [
      | inl low ↦ rw low (
        λ y m. elim m [ inl e ↦ rw e low | inr n ↦ linear.transitive b x y low (first y n) ],
        (first, rest),
      )
      | inr high ↦ elim (Bool-cases (less x b)) [
        | inl above ↦
            rw (high, above)
              (
                λ y m. elim ((In-set_insert y b xs).0 m) [ inl e ↦ rw e above | inr n ↦ first y n ],
                set_insert-IsOrdered b xs rest,
              )
        | inr same ↦ rw (high, same) (first, rest)
      ]
    ]

    -- The set has the elements inserted and those it had, in order.
    pub set_insert_all_lem :
        (bs xs : List A)
        → IsOrdered xs
        → ((x : A) → In x (set_insert_all bs xs) ↔ In x bs ⊎ In x xs)
          × IsOrdered (set_insert_all bs xs)
    unfolding set_insert_all
    set_insert_all_lem [] xs p =
        (λ x. (λ m. inr m, λ m. elim m [ inl n ↦ absurd n | inr n ↦ n ]), p)
    set_insert_all_lem (b ∷ bs) xs p =
        let (keeps, q) = set_insert_all_lem bs (set_insert b xs) (set_insert-IsOrdered b xs p) in
        (
          λ x. (
            λ m. elim ((keeps x).0 m) [
              | inl n ↦ inl (inr n)
              | inr n ↦ elim ((In-set_insert x b xs).0 n) [ inl e ↦ inl (inl e) | inr k ↦ inr k ]
            ],
            λ m. elim m [
              | inl n ↦ elim n [
                | inl e ↦ (keeps x).1 (inr ((In-set_insert x b xs).1 (inl e)))
                | inr k ↦ (keeps x).1 (inl k)
              ]
              | inr n ↦ (keeps x).1 (inr ((In-set_insert x b xs).1 (inr n)))
            ],
          ),
          q,
        )
