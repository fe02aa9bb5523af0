-- ===== src/Netlist/Simplify/Counts.antt =====
-- src/Netlist.h: how `Simplification` changes the operands of a gate, counted.
use multi_bit_large_scale_bo.Base.{
  ℕ, zero, suc, ◌+◌, ◌≤◌, ◌≡◌, refl, sym, ap, ◌∙◌, inl, inr, arith, List, [], ◌∷◌, ◌++◌, length,
  map, replicate, Bool, true, false, not, ◌==◌, ==_iff, Bool-cases, In,
}
use multi_bit_large_scale_bo.Gate.{complement}
use multi_bit_large_scale_bo.Netlist.{Ptr}
use multi_bit_large_scale_bo.Netlist.Simplify.{erase_all}
use multi_bit_large_scale_bo.Netlist.Simplify.Operands.{trues}

-- The fan-ins that are complemented.
abbrev pub front : ℕ → List Ptr → List Ptr
front zero ps = []
front (suc n) [] = []
front (suc n) (p ∷ ps) = p ∷ front n ps

trues-cons : (b : Bool) (bs : List Bool) → trues (b ∷ bs) ≡ trues (b ∷ []) + trues bs
trues-cons true bs = omega arith
trues-cons false bs = omega arith

pub complement-zero : (bs : List Bool) → complement zero bs ≡ bs
complement-zero [] = refl
complement-zero (b ∷ bs) = refl

pub length-complement : (n : ℕ) (bs : List Bool) → length (complement n bs) ≡ length bs
length-complement n [] = refl
length-complement zero (b ∷ bs) = refl
length-complement (suc n) (b ∷ bs) = ap suc (length-complement n bs)

pub length-map : (v : Ptr → Bool) (ps : List Ptr) → length (map v ps) ≡ length ps
length-map v [] = refl
length-map v (p ∷ ps) = ap suc (length-map v ps)

-- The operands of a gate.
abbrev pub operands : (Ptr → Bool) → ℕ → List Ptr → List Bool
operands v inv fi = complement inv (map v fi)

pub length-operands :
    (v : Ptr → Bool) (inv : ℕ) (fi : List Ptr) → length (operands v inv fi) ≡ length fi
length-operands v inv fi = length-complement inv (map v fi) ∙ length-map v fi

-- The operands that a node gives and those that are left make up all operands, if none of them is complemented.
trues-map-erase_all :
    (v : Ptr → Bool) (x : Ptr) (fi : List Ptr)
    → trues (map v fi)
      ≡ trues (map v (erase_all x fi).0) + trues (replicate (erase_all x fi).1 (v x))
unfolding erase_all
trues-map-erase_all v x [] = refl
trues-map-erase_all v x (p ∷ ps) = elim (Bool-cases (p == x)) [
  | inl e ↦
      let same : p ≡ x = (==_iff p x).0 e in
      rw (erase_all, e)
        (omega (
          arith,
          trues-cons (v p) (map v ps),
          trues-map-erase_all v x ps,
          trues-cons (v x) (replicate (erase_all x ps).1 (v x)),
          ap (λ q. trues (v q ∷ [])) same,
        ))
  | inr e ↦
      rw (erase_all, e)
        (omega (
          arith,
          trues-cons (v p) (map v ps),
          trues-map-erase_all v x ps,
          trues-cons (v p) (map v (erase_all x ps).0),
        ))
]

pub trues-erase_all :
    (v : Ptr → Bool) (x : Ptr) (inv : ℕ) (fi : List Ptr)
    → (In x (front inv fi) → ⊥)
    → trues (operands v inv fi)
      ≡ trues (operands v inv (erase_all x fi).0) + trues (replicate (erase_all x fi).1 (v x))
unfolding erase_all
trues-erase_all v x zero fi n =
    rw (complement-zero (map v fi), complement-zero (map v (erase_all x fi).0))
      (trues-map-erase_all v x fi)
trues-erase_all v x (suc inv) [] n = refl
trues-erase_all v x (suc inv) (p ∷ ps) n = elim (Bool-cases (p == x)) [
  | inl e ↦ absurd (n (inl (sym ((==_iff p x).0 e))))
  | inr e ↦
      rw (erase_all, e)
        (omega (
          arith,
          trues-cons (not (v p)) (operands v inv ps),
          trues-erase_all v x inv ps (λ m. n (inr m)),
          trues-cons (not (v p)) (operands v inv (erase_all x ps).0),
        ))
]

pub length-erase_all :
    (x : Ptr) (fi : List Ptr) → length fi ≡ length (erase_all x fi).0 + (erase_all x fi).1
unfolding erase_all
length-erase_all x [] = refl
length-erase_all x (p ∷ ps) = ground (arith, length-erase_all x ps)

-- The complemented fan-ins stay in front.
pub front-erase_all :
    (x : Ptr) (inv : ℕ) (fi : List Ptr)
    → (In x (front inv fi) → ⊥)
    → inv ≤ length fi
    → (front inv (erase_all x fi).0 ≡ front inv fi) × (inv ≤ length (erase_all x fi).0)
unfolding erase_all
front-erase_all x zero fi n le = (refl, omega arith)
front-erase_all x (suc inv) [] n le = absurd (omega arith)
front-erase_all x (suc inv) (p ∷ ps) n le = elim (Bool-cases (p == x)) [
  | inl e ↦ absurd (n (inl (sym ((==_iff p x).0 e))))
  | inr e ↦
      let (same, less) = front-erase_all x inv ps (λ m. n (inr m)) (omega arith) in
      rw (erase_all, e) (ap (λ qs. p ∷ qs) same, omega arith)
]

-- Operands that are added at the end, and complemented ones that are added in front.
pub trues-push_back :
    (v : Ptr → Bool) (prev : Ptr) (k inv : ℕ) (fi : List Ptr)
    → inv ≤ length fi
    → trues (operands v inv (fi ++ replicate k prev))
      ≡ trues (operands v inv fi) + trues (replicate k (v prev))
trues-push_back v prev k zero [] le =
    omega (arith, ap trues (complement-zero (map v (replicate k prev))), ap trues (map-replicate k))
  where
    map-replicate : (n : ℕ) → map v (replicate n prev) ≡ replicate n (v prev)
    map-replicate zero = refl
    map-replicate (suc n) = ap (λ bs. v prev ∷ bs) (map-replicate n)
trues-push_back v prev k zero (p ∷ ps) le = omega (
  arith,
  trues-cons (v p) (map v (ps ++ replicate k prev)),
  trues-cons (v p) (map v ps),
  ap trues (complement-zero (map v (ps ++ replicate k prev))),
  ap trues (complement-zero (map v ps)),
  trues-push_back v prev k zero ps (omega arith),
)
trues-push_back v prev k (suc inv) [] le = absurd (omega arith)
trues-push_back v prev k (suc inv) (p ∷ ps) le = omega (
  arith,
  trues-cons (not (v p)) (operands v inv (ps ++ replicate k prev)),
  trues-cons (not (v p)) (operands v inv ps),
  trues-push_back v prev k inv ps (omega arith),
)

pub trues-push_front :
    (v : Ptr → Bool) (prev : Ptr) (k inv : ℕ) (fi : List Ptr)
    → trues (operands v (inv + k) (replicate k prev ++ fi))
      ≡ trues (operands v inv fi) + trues (replicate k (not (v prev)))
trues-push_front v prev zero inv fi = omega (arith, ap (λ n. trues (operands v n fi)) plus_zero)
  where
    plus_zero : inv + 0 ≡ inv
    plus_zero = omega arith
trues-push_front v prev (suc k) inv fi = omega (
  arith,
  ap (λ n. trues (operands v n (prev ∷ replicate k prev ++ fi))) plus_suc,
  trues-cons (not (v prev)) (operands v (inv + k) (replicate k prev ++ fi)),
  trues-cons (not (v prev)) (replicate k (not (v prev))),
  trues-push_front v prev k inv fi,
)
  where
    plus_suc : inv + suc k ≡ suc (inv + k)
    plus_suc = omega arith
