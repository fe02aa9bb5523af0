-- ===== src/Netlist/Signature/Mode.antt =====
-- src/Netlist.h: the most frequent signature, which `CountGate` finds in a map.
use multi_bit_large_scale_bo.Base.{
  ℕ, ◌<◌, ◌≤◌, ◌≡◌, ◌⊎◌, ◌↔◌, refl, sym, ap, subst, ◌∙◌, inl, inr, arith, List, [], ◌∷◌, ltb, ◌==◌,
  ==_iff, Bool-cases, In,
}
use multi_bit_large_scale_bo.Base.Int.{ℤ, pos, negsuc}
use multi_bit_large_scale_bo.Netlist.Signature.Counted.{number, In-count_all}
use multi_bit_large_scale_bo.Netlist.Signature.{count_all, max_ℤ, find_mode, input_signature}

-- Among the entries `P`, the mode has the largest number, and no larger key has that number; or there is none.
pub record IsMode (P : ℕ → ℕ → Type 0) (most : ℕ) (mode : ℤ) : Type 0 where
  pub above : (x n : ℕ) → P x n → (n < most) ⊎ ((n ≡ most) × ((k : ℕ) × (mode ≡ pos k) × (x ≤ k)))
  pub met : ((most ≡ 0) × (mode ≡ negsuc 0)) ⊎ ((k : ℕ) × (mode ≡ pos k) × P k most)

IsMode-same :
    {P Q : ℕ → ℕ → Type 0} {most : ℕ} {mode : ℤ}
    → ((x n : ℕ) → P x n ↔ Q x n)
    → IsMode P most mode
    → IsMode Q most mode
IsMode-same same m = record {
  above = λ x n q. m.above x n ((same x n).1 q);
  met = elim m.met [ inl e ↦ inl e | inr (k, e, p) ↦ inr (k, e, (same k _).0 p) ];
}

pos_not_negsuc : (z : ℤ) (k j : ℕ) → z ≡ negsuc j → z ≡ pos k → ⊥
pos_not_negsuc z k j e f = cc

max_ℤ_lem :
    (x j : ℕ) → (k : ℕ) × (max_ℤ x (pos j) ≡ pos k) × (x ≤ k) × (j ≤ k) × ((k ≡ x) ⊎ (k ≡ j))
max_ℤ_lem x j = elim (Bool-cases (ltb x j)) [
  | inl e ↦ (j, rw e refl, ground arith, omega arith, inr refl)
  | inr e ↦ (x, rw e refl, omega arith, ground arith, inl refl)
]

-- One entry more.
abbrev And : (ℕ → ℕ → Type 0) → ℕ → ℕ → ℕ → ℕ → Type 0
And P x n y k = P y k ⊎ ◌≡◌ {A = ℕ × ℕ} (y, k) (x, n)

module _ (P : ℕ → ℕ → Type 0) (x n most : ℕ) (mode : ℤ) (m : IsMode P most mode) where
  new_larger : most < n → IsMode (And P x n) n (pos x)
  new_larger less = record {
    above = λ y k q. elim q [
      | inl p ↦ elim (m.above y k p) [ inl l ↦ inl (omega arith) | inr (e, _) ↦ inl (omega arith) ]
      | inr e ↦ inr (ap (λ (c : ℕ × ℕ). c.1) e, (x, refl, omega (arith, ap (λ (c : ℕ × ℕ). c.0) e)))
    ];
    met = inr (x, refl, inr refl);
  }

  new_smaller : n < most → IsMode (And P x n) most mode
  new_smaller less = record {
    above = λ y k q. elim q [
      | inl p ↦ m.above y k p
      | inr e ↦ inl (omega (arith, ap (λ (c : ℕ × ℕ). c.1) e))
    ];
    met = elim m.met [ inl e ↦ inl e | inr (k, e, p) ↦ inr (k, e, inl p) ];
  }

  new_equal : n ≡ most → IsMode (And P x n) most (max_ℤ x mode)
  new_equal same = elim m.met [
    | inl (_, none_) ↦ record {
      above = λ y k q. elim q [
        | inl p ↦ elim (m.above y k p) [
          | inl l ↦ inl l
          | inr (_, (j, e, _)) ↦ absurd (pos_not_negsuc mode j 0 none_ e)
        ]
        | inr e ↦ inr (
          ap (λ (c : ℕ × ℕ). c.1) e ∙ same,
          (x, ap (λ z. max_ℤ x z) none_, omega (arith, ap (λ (c : ℕ × ℕ). c.0) e)),
        )
      ];
      met = inr (x, ap (λ z. max_ℤ x z) none_, inr (ap (λ k. (x, k)) (sym same)));
    }
    | inr (j, e, p) ↦
        let (k, is, le, le', which) = max_ℤ_lem x j in
        let new_ : max_ℤ x mode ≡ pos k = ap (λ z. max_ℤ x z) e ∙ is in
        record {
          above = λ y i q. elim q [
            | inl r ↦ elim (m.above y i r) [
              | inl l ↦ inl l
              | inr (s, (j', e', l)) ↦ inr (s, (k, new_, omega (arith, pos_inj j' j (sym e' ∙ e))))
            ]
            | inr s ↦ inr (
              ap (λ (c : ℕ × ℕ). c.1) s ∙ same,
              (k, new_, omega (arith, ap (λ (c : ℕ × ℕ). c.0) s)),
            )
          ];
          met = inr (
            k,
            new_,
            elim which [
              | inl s ↦ inr (λ i. (s i, sym same i))
              | inr s ↦ inl (subst (λ q. P q most) (sym s) p)
            ],
          );
        }
  ]
    where
      pos_inj : (a b : ℕ) → pos a ≡ pos b → a ≡ b
      pos_inj a b e = cc

find_mode_lem :
    (m : List (ℕ × ℕ)) (P : ℕ → ℕ → Type 0) (most : ℕ) (mode : ℤ)
    → IsMode P most mode
    → (most' : ℕ) × IsMode (λ x n. P x n ⊎ In (x, n) m) most' (find_mode m most mode)
unfolding find_mode
find_mode_lem [] P most mode i =
    (most, IsMode-same (λ x n. (λ p. inl p, λ q. elim q [ inl p ↦ p | inr n ↦ absurd n ])) i)
find_mode_lem ((x, n) ∷ m) P most mode i = elim (Bool-cases (ltb most n)) [
  | inl larger ↦ rw larger (
      regroup (find_mode_lem m (And P x n) n (pos x) (new_larger P x n most mode i (ground arith))))
  | inr e ↦ elim (Bool-cases (n == most)) [
    | inl equal ↦
        rw (e, equal)
          (regroup (
            find_mode_lem m (And P x n) most (max_ℤ x mode)
              (new_equal P x n most mode i ((==_iff n most).0 equal))))
    | inr smaller ↦
        rw (e, smaller)
          (regroup
            (find_mode_lem m (And P x n) most mode (new_smaller P x n most mode i (ground arith))))
  ]
]
  where
    regroup :
        {mode' : ℤ}
        → (most' : ℕ) × IsMode (λ y k. And P x n y k ⊎ In (y, k) m) most' mode'
        → (most' : ℕ) × IsMode (λ y k. P y k ⊎ In (y, k) ((x, n) ∷ m)) most' mode'
    regroup (most', r) = (
      most',
      IsMode-same
          (λ y k. (
            λ q. elim q [ inl (inl p) ↦ inl p | inl (inr e) ↦ inr (inl e) | inr l ↦ inr (inr l) ],
            λ q. elim q [ inl p ↦ inl (inl p) | inr (inl e) ↦ inl (inr e) | inr (inr l) ↦ inr l ],
          ))
          r,
    )

-- In whatever order the map is passed through, the signature of an input is -1 if it has none, and else the signature that it has most
-- often, the largest such.
pub input_signature_lem :
    (order : List (ℕ × ℕ) → List (ℕ × ℕ))
    → ((m : List (ℕ × ℕ)) (c : ℕ × ℕ) → In c (order m) ↔ In c m)
    → (xs : List ℕ)
    → (most : ℕ) × IsMode (λ x n. (n ≡ number x xs) × (0 < n)) most (input_signature order xs)
unfolding input_signature count_all
input_signature_lem order keeps [] =
    (0, record { above = λ x n (e, some_). absurd (omega (arith, e)); met = inl (refl, refl) })
input_signature_lem order keeps (x ∷ xs) =
    let (most, r) =
      find_mode_lem (order (count_all (x ∷ xs) [])) (λ y k. ⊥) 0 (negsuc 0)
        (record { above = λ y k m. absurd m; met = inl (refl, refl) }) in
    (
      most,
      IsMode-same
          (λ y k. (
            λ q. elim q [
              | inl n ↦ absurd n
              | inr l ↦ (In-count_all (x ∷ xs) y k).0 ((keeps (count_all (x ∷ xs) []) (y, k)).0 l)
            ],
            λ q. inr ((keeps (count_all (x ∷ xs) []) (y, k)).1 ((In-count_all (x ∷ xs) y k).1 q)),
          ))
          r,
    )
