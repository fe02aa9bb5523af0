-- ===== src/Gate.antt =====
-- src/Netlist.h: the signals and gate types, and what each gate type computes.
use multi_bit_large_scale_bo.Base.{
  ℕ, suc, List, [], ◌∷◌, Bool, true, false, not, ◌&&◌, ◌||◌, differ,
}

-- `typedef enum … Signal`.
pub data Signal : Type 0 where
  zero one dontcare : Signal

-- `typedef enum … Type`.
pub data GateType : Type 0 where
  none and or nand nor inv buf xor facarry wire const input output zerobuf onebuf : GateType

-- The Boolean function of a gate type: what the names of the library in cadence.genlib promise. A
-- type that is no gate, or a wrong number of operands, has the value false.
abbrev pub gate_function : GateType → List Bool → Bool
gate_function and (a ∷ b ∷ []) = a && b
gate_function or (a ∷ b ∷ []) = a || b
gate_function nand (a ∷ b ∷ []) = not (a && b)
gate_function nor (a ∷ b ∷ []) = not (a || b)
gate_function xor (a ∷ b ∷ []) = differ a b
gate_function inv (a ∷ []) = not a
gate_function buf (a ∷ []) = a
gate_function output (a ∷ []) = a
gate_function facarry (a ∷ b ∷ c ∷ []) = a && b || (a && c || b && c)
gate_function onebuf _ = true
gate_function _ _ = false

-- The first `inv` operands of a gate are complemented: `_inv` counts the inverters in front of `_fi`.
abbrev pub complement : ℕ → List Bool → List Bool
complement n [] = []
complement ℕ.zero (b ∷ bs) = b ∷ bs
complement (suc n) (b ∷ bs) = not b ∷ complement n bs
