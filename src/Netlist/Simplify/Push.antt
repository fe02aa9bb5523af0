-- ===== src/Netlist/Simplify/Push.antt =====
-- src/Netlist.h: what `Simplification` does with one node that reads a node which is bypassed.
use multi_bit_large_scale_bo.Base.{
  ℕ, zero, suc, ◌+◌, ◌≤◌, ◌≡◌, ◌≢◌, ◌⊎◌, refl, sym, ap, subst, ◌∙◌, inl, inr, arith, List, [], ◌∷◌,
  ◌++◌, length, replicate, Bool, not, ◌==◌, ==_iff, ==_ne, Bool-cases, In, In-append,
}
use multi_bit_large_scale_bo.Gate.{GateType}
use multi_bit_large_scale_bo.Netlist.{Ptr, Node}
use multi_bit_large_scale_bo.Netlist.Simplify.{erase_all, push_back, push_front}
use multi_bit_large_scale_bo.Netlist.Simplify.Operands.{trues, FitsGate, FitsGate-count}
use multi_bit_large_scale_bo.Netlist.Simplify.Counts.{
  front, operands, length-operands, trues-erase_all, length-erase_all, front-erase_all,
  trues-push_back, trues-push_front,
}

-- What the value of a node depends on.
pub record View : Type 0 where
  pub type : GateType
  pub inv : ℕ
  pub fi : List Ptr

abbrev pub view : Node → View
view n = record { type = n.type; inv = n.inv; fi = n.fi }

-- The value of a node fits the node.
abbrev pub FitsNode : (Ptr → Bool) → View → Bool → Type 0
FitsNode v n b = FitsGate n.type (operands v n.inv n.fi) b

In-erase_all : (x p : Ptr) (fi : List Ptr) → In p (erase_all x fi).0 → In p fi × (p ≢ x)
unfolding erase_all
In-erase_all x p [] = λ m. absurd m
In-erase_all x p (q ∷ qs) = ground (arith, In-erase_all x p qs)

erase_all-absent : (x : Ptr) (fi : List Ptr) → (In x fi → ⊥) → erase_all x fi ≡ (fi, 0)
unfolding erase_all
erase_all-absent x [] n = refl
erase_all-absent x (q ∷ qs) n =
    rw (erase_all, erase_all-absent x qs (λ m. n (inr m)), ==_ne q x (λ e. n (inl (sym e)))) refl

-- A node that was there was given.
In-replicate-erase_all :
    (x p prev : Ptr) (fi : List Ptr)
    → In p (replicate (erase_all x fi).1 prev)
    → (p ≡ prev) × In x fi
unfolding erase_all
In-replicate-erase_all x p prev [] = λ m. absurd m
In-replicate-erase_all x p prev (q ∷ qs) = elim (Bool-cases (q == x)) [
  | inl e ↦
      rw (erase_all, e)
        (λ m. elim m [
          | inl same ↦ (same, inl (sym ((==_iff q x).0 e)))
          | inr n ↦ ((In-replicate-erase_all x p prev qs n).0, inl (sym ((==_iff q x).0 e)))
        ])
  | inr e ↦
      rw (erase_all, e)
        (λ m.
          ((In-replicate-erase_all x p prev qs m).0, inr (In-replicate-erase_all x p prev qs m).1))
]

append_nil : (xs : List Ptr) → xs ++ [] ≡ xs
append_nil [] = refl
append_nil (x ∷ xs) = ap (λ ys. x ∷ ys) (append_nil xs)

length-append_replicate :
    (xs : List Ptr) (k : ℕ) (p : Ptr) → length (xs ++ replicate k p) ≡ length xs + k
length-append_replicate [] zero p = refl
length-append_replicate [] (suc k) p = omega (arith, length-append_replicate [] k p)
length-append_replicate (x ∷ xs) k p = omega (arith, length-append_replicate xs k p)

length-replicate_append :
    (xs : List Ptr) (k : ℕ) (p : Ptr) → length (replicate k p ++ xs) ≡ length xs + k
length-replicate_append xs zero p = omega arith
length-replicate_append xs (suc k) p = omega (arith, length-replicate_append xs k p)

front_append : (n : ℕ) (xs ys : List Ptr) → n ≤ length xs → front n (xs ++ ys) ≡ front n xs
front_append zero xs ys le = refl
front_append (suc n) [] ys le = absurd (omega arith)
front_append (suc n) (x ∷ xs) ys le = ap (λ zs. x ∷ zs) (front_append n xs ys (omega arith))

-- A node that does not read `x` stays as it is.
pub push_back-absent : (x prev : Ptr) (n : Node) → (In x n.fi → ⊥) → push_back x prev n ≡ n
unfolding push_back
push_back-absent x prev n out =
    ap (λ (r : List Ptr × ℕ). record n { fi = r.0 ++ replicate r.1 prev })
      (erase_all-absent x n.fi out)
    ∙ ap (λ ps. record n { fi = ps }) (append_nil n.fi)

pub push_front-absent : (x prev : Ptr) (n : Node) → (In x n.fi → ⊥) → push_front x prev n ≡ n
unfolding push_front
push_front-absent x prev n out =
    ap (λ (r : List Ptr × ℕ). record n { inv = n.inv + r.1; fi = replicate r.1 prev ++ r.0 })
      (erase_all-absent x n.fi out)
    ∙ ap (λ k. record n { inv = k }) plus_zero
  where
    plus_zero : n.inv + 0 ≡ n.inv
    plus_zero = omega arith

-- Afterwards no node reads it.
pub push_back-gone : (x prev : Ptr) (n : Node) → prev ≢ x → In x (push_back x prev n).fi → ⊥
unfolding push_back
push_back-gone x prev n apart m =
    elim (In-append x (erase_all x n.fi).0 (replicate (erase_all x n.fi).1 prev) m) [
      | inl a ↦ (In-erase_all x x n.fi a).1 refl
      | inr a ↦ apart (sym (In-replicate-erase_all x x prev n.fi a).0)
    ]

pub push_front-gone : (x prev : Ptr) (n : Node) → prev ≢ x → In x (push_front x prev n).fi → ⊥
unfolding push_front
push_front-gone x prev n apart m =
    elim (In-append x (replicate (erase_all x n.fi).1 prev) (erase_all x n.fi).0 m) [
      | inl a ↦ apart (sym (In-replicate-erase_all x x prev n.fi a).0)
      | inr a ↦ (In-erase_all x x n.fi a).1 refl
    ]

-- What becomes of a node, for the pointers `R` that are still to be bypassed.
pub record IsPush (v : Ptr → Bool) (R : Ptr → Type 0) (x prev : Ptr) (n n' : View) : Type 0 where
  pub fits : (b : Bool) → FitsNode v n b → FitsNode v n' b
  pub members : (p : Ptr) → In p n'.fi → (In p n.fi × (p ≢ x)) ⊎ ((p ≡ prev) × In x n.fi)
  pub direct : (y : Ptr) → R y → (In y (front n.inv n.fi) → ⊥) → In y (front n'.inv n'.fi) → ⊥
  pub enough : n'.inv ≤ length n'.fi

module _ (v : Ptr → Bool) (R : Ptr → Type 0) (x prev : Ptr) (n : Node)
    (not_front : In x (front n.inv n.fi) → ⊥) (le : n.inv ≤ length n.fi) where
  pub push_back_lem : v x ≡ v prev → IsPush v R x prev (view n) (view (push_back x prev n))
  unfolding push_back
  push_back_lem same = record {
    fits = λ b.
        FitsGate-count n.type _ _ b
          (length-operands v n.inv n.fi
            ∙ length-erase_all x n.fi
            ∙ sym (length-append_replicate rest k prev)
            ∙ sym (length-operands v n.inv (rest ++ replicate k prev)))
          (trues-erase_all v x n.inv n.fi not_front
            ∙ ap (λ c. trues (operands v n.inv rest) + trues (replicate k c)) same
            ∙ sym (
                trues-push_back v prev k n.inv rest (front-erase_all x n.inv n.fi not_front le).1));
    members = λ p m. elim (In-append p rest (replicate k prev) m) [
      | inl a ↦ inl (In-erase_all x p n.fi a)
      | inr a ↦ inr (In-replicate-erase_all x p prev n.fi a)
    ];
    direct = λ y r out m. out (
        subst (λ ps. In y ps)
          (front_append n.inv rest (replicate k prev) (front-erase_all x n.inv n.fi not_front le).1
            ∙ (front-erase_all x n.inv n.fi not_front le).0)
          m);
    enough =
        omega (
          arith,
          length-append_replicate rest k prev,
          (front-erase_all x n.inv n.fi not_front le).1,
        );
  }
    where
      rest : List Ptr
      rest = (erase_all x n.fi).0

      k : ℕ
      k = (erase_all x n.fi).1

  pub push_front_lem :
      v x ≡ not (v prev) → (R prev → ⊥) → IsPush v R x prev (view n) (view (push_front x prev n))
  unfolding push_front
  push_front_lem same stays = record {
    fits = λ b.
        FitsGate-count n.type _ _ b
          (length-operands v n.inv n.fi
            ∙ length-erase_all x n.fi
            ∙ sym (length-replicate_append rest k prev)
            ∙ sym (length-operands v (n.inv + k) (replicate k prev ++ rest)))
          (trues-erase_all v x n.inv n.fi not_front
            ∙ ap (λ c. trues (operands v n.inv rest) + trues (replicate k c)) same
            ∙ sym (trues-push_front v prev k n.inv rest));
    members = λ p m. elim (In-append p (replicate k prev) rest m) [
      | inl a ↦ inr (In-replicate-erase_all x p prev n.fi a)
      | inr a ↦ inl (In-erase_all x p n.fi a)
    ];
    direct = λ y r out m. elim (In-front k n.inv y m) [
      | inl e ↦ stays (subst R e r)
      | inr a ↦ out (subst (λ ps. In y ps) (front-erase_all x n.inv n.fi not_front le).0 a)
    ];
    enough =
        omega (
          arith,
          length-replicate_append rest k prev,
          (front-erase_all x n.inv n.fi not_front le).1,
        );
  }
    where
      rest : List Ptr
      rest = (erase_all x n.fi).0

      k : ℕ
      k = (erase_all x n.fi).1

      plus_zero : (m : ℕ) → m + 0 ≡ m
      plus_zero m = omega arith

      plus_suc : (m j : ℕ) → m + suc j ≡ suc (m + j)
      plus_suc m j = omega arith

      In-front :
          (j m : ℕ) (y : Ptr)
          → In y (front (m + j) (replicate j prev ++ rest))
          → (y ≡ prev) ⊎ In y (front m rest)
      In-front zero m y i = inr (subst (λ j. In y (front j rest)) (plus_zero m) i)
      In-front (suc j) m y i =
          elim (subst (λ l. In y (front l (prev ∷ replicate j prev ++ rest))) (plus_suc m j) i) [
            | inl e ↦ inl e
            | inr i' ↦ In-front j m y i'
          ]

-- A node with one fan-in, none of them complemented, keeps one.
pub push_back-one :
    (x prev p : Ptr) (n : Node) → n.fi ≡ p ∷ [] → (q : Ptr) × ((push_back x prev n).fi ≡ q ∷ [])
unfolding push_back erase_all
push_back-one x prev p n e = elim (Bool-cases (p == x)) [
  | inl same ↦ (
    prev,
    ap (λ ps. (erase_all x ps).0 ++ replicate (erase_all x ps).1 prev) e
        ∙ rw (erase_all, same) refl,
  )
  | inr other ↦ (
    p,
    ap (λ ps. (erase_all x ps).0 ++ replicate (erase_all x ps).1 prev) e
        ∙ rw (erase_all, other) refl,
  )
]
