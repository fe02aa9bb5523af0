-- ===== src/Netlist/Words/Negated.antt =====
-- src/Netlist.h: the branches of `getResult` and `miterGetResult` for NAND and NOR with complemented
-- operands.
use multi_bit_large_scale_bo.Base.{
  ℕ, zero, suc, ◌≡◌, ◌≢◌, ◌↔◌, Bool, true, false, not, ◌&&◌, ◌||◌, [], ◌∷◌, arith,
}
use multi_bit_large_scale_bo.Gate.{GateType, gate_function, complement}
use multi_bit_large_scale_bo.Netlist.{Ptr}
use multi_bit_large_scale_bo.Netlist.Words.{Bits, M, fan_in, gate_word, miter_gate_word}
use multi_bit_large_scale_bo.Netlist.Words.Gives.{
  Gives, Gives-neg_word, Gives-and_word, Gives-or_word, gate_bits,
}
use multi_bit_large_scale_bo.Netlist.Words.Gates.{GivesAll, miter-eq-gate_word}

-- NAND and NOR with one or two complemented operands, and the bit of the second operand for which
-- the code's word is the function of the gate.
pub data Negated : GateType → ℕ → Bool → Type 0 where
  nand_one : Negated GateType.nand 1 true
  nand_two : Negated GateType.nand 2 false
  nor_one : Negated GateType.nor 1 false
  nor_two : Negated GateType.nor 2 true

-- The bits that the code computes.
abbrev pub code_bits : GateType → ℕ → Bool → Bool → Bool
code_bits GateType.nand (suc zero) a b = a && b
code_bits GateType.nand _ a b = a && not b
code_bits _ (suc zero) a b = a || b
code_bits _ _ a b = a || not b

-- An equation between two bits holds when `b` is `right`.
abbrev HoldsAt : (Bool → Bool → Bool) → (Bool → Bool → Bool) → Bool → Type 0
HoldsAt f k right = (a b : Bool) → (f a b ≡ k a b) ↔ (b ≡ right)

code_bits-HoldsAt :
    (t : GateType) (k : ℕ) (right : Bool)
    → Negated t k right
    → HoldsAt (code_bits t k) (λ a b. gate_function t (complement k (a ∷ b ∷ []))) right
code_bits-HoldsAt t k right nand_one true b = ground arith
code_bits-HoldsAt t k right nand_one false b = ground arith
code_bits-HoldsAt t k right nand_two true b = ground arith
code_bits-HoldsAt t k right nand_two false b = ground arith
code_bits-HoldsAt t k right nor_one true b = ground arith
code_bits-HoldsAt t k right nor_one false b = ground arith
code_bits-HoldsAt t k right nor_two true b = ground arith
code_bits-HoldsAt t k right nor_two false b = ground arith

module _ (V : Ptr → Bits) (go : Ptr → M) (p q : Ptr) where
  code_bits-Gives :
      (t : GateType) (k : ℕ) (right : Bool)
      → Negated t k right
      → GivesAll V go (p ∷ q ∷ [])
      → Gives V (λ i. code_bits t k (V p i) (V q i)) (gate_word go t k (p ∷ q ∷ []))
  unfolding gate_word fan_in
  code_bits-Gives t k right nand_one g = Gives-and_word V _ _ _ _ g.0 g.1.0
  code_bits-Gives t k right nand_two g = Gives-and_word V _ _ _ _ g.0 (Gives-neg_word V _ _ g.1.0)
  code_bits-Gives t k right nor_one g = Gives-or_word V _ _ _ _ g.0 g.1.0
  code_bits-Gives t k right nor_two g = Gives-or_word V _ _ _ _ g.0 (Gives-neg_word V _ _ g.1.0)

  no_inverter : (t : GateType) (k : ℕ) (right : Bool) → Negated t k right → t ≢ GateType.inv
  no_inverter t k right nand_one e = cc
  no_inverter t k right nand_two e = cc
  no_inverter t k right nor_one e = cc
  no_inverter t k right nor_two e = cc

  -- If the simulations of the operands `p` and `q` give the words `V p` and `V q`, then the branches of
  -- `getResult` and `miterGetResult` for a NAND or NOR with one or two complemented operands give one
  -- word, which is the function of the gate at exactly the indices where `q` has one of the two values.
  pub Negated-agrees_iff :
      (t : GateType) (k : ℕ) (right : Bool)
      → Negated t k right
      → GivesAll V go (p ∷ q ∷ [])
      → (w : Bits) × Gives V w (gate_word go t k (p ∷ q ∷ []))
        × Gives V w (miter_gate_word go t k (p ∷ q ∷ []))
        × ((i : ℕ) → (w i ≡ gate_bits V t k (p ∷ q ∷ []) i) ↔ (V q i ≡ right))
  Negated-agrees_iff t k right n g = (
    (λ i. code_bits t k (V p i) (V q i)),
    code_bits-Gives t k right n g,
    rw (miter-eq-gate_word V go t k (p ∷ q ∷ []) (no_inverter t k right n))
        (code_bits-Gives t k right n g),
    λ i. code_bits-HoldsAt t k right n (V p i) (V q i),
  )
