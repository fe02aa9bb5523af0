-- ===== src/Netlist/Simplify/Operands.antt =====
-- src/Netlist.h: the gates do not depend on the order of their operands, which `Simplification` changes.
use multi_bit_large_scale_bo.Base.{
  ℕ, zero, suc, ◌≡◌, refl, sym, ap, ◌∙◌, arith, List, [], ◌∷◌, length, Bool, true, false, not, ◌==◌,
  if◌then◌else◌,
}
use multi_bit_large_scale_bo.Gate.{GateType, gate_function}

-- The number of operands that are true.
abbrev pub trues : List Bool → ℕ
trues [] = 0
trues (true ∷ bs) = suc (trues bs)
trues (false ∷ bs) = trues bs

-- The gate functions from the number of operands and the number of those that are true.
abbrev pub from_count : GateType → ℕ → ℕ → Bool
from_count GateType.and (suc (suc zero)) k = k == 2
from_count GateType.or (suc (suc zero)) k = not (k == 0)
from_count GateType.nand (suc (suc zero)) k = not (k == 2)
from_count GateType.nor (suc (suc zero)) k = k == 0
from_count GateType.xor (suc (suc zero)) k = k == 1
from_count GateType.inv (suc zero) k = k == 0
from_count GateType.buf (suc zero) k = k == 1
from_count GateType.output (suc zero) k = k == 1
from_count GateType.facarry (suc (suc (suc zero))) k = not (if k == 0 then true else k == 1)
from_count GateType.onebuf n k = true
from_count _ n k = false

gate_function-from_count :
    (t : GateType) (bs : List Bool) → gate_function t bs ≡ from_count t (length bs) (trues bs)
gate_function-from_count GateType.none bs = refl
gate_function-from_count GateType.and [] = refl
gate_function-from_count GateType.and (a ∷ []) = refl
gate_function-from_count GateType.and (true ∷ true ∷ []) = refl
gate_function-from_count GateType.and (true ∷ false ∷ []) = refl
gate_function-from_count GateType.and (false ∷ true ∷ []) = refl
gate_function-from_count GateType.and (false ∷ false ∷ []) = refl
gate_function-from_count GateType.and (a ∷ b ∷ c ∷ bs) = refl
gate_function-from_count GateType.or [] = refl
gate_function-from_count GateType.or (a ∷ []) = refl
gate_function-from_count GateType.or (true ∷ true ∷ []) = refl
gate_function-from_count GateType.or (true ∷ false ∷ []) = refl
gate_function-from_count GateType.or (false ∷ true ∷ []) = refl
gate_function-from_count GateType.or (false ∷ false ∷ []) = refl
gate_function-from_count GateType.or (a ∷ b ∷ c ∷ bs) = refl
gate_function-from_count GateType.nand [] = refl
gate_function-from_count GateType.nand (a ∷ []) = refl
gate_function-from_count GateType.nand (true ∷ true ∷ []) = refl
gate_function-from_count GateType.nand (true ∷ false ∷ []) = refl
gate_function-from_count GateType.nand (false ∷ true ∷ []) = refl
gate_function-from_count GateType.nand (false ∷ false ∷ []) = refl
gate_function-from_count GateType.nand (a ∷ b ∷ c ∷ bs) = refl
gate_function-from_count GateType.nor [] = refl
gate_function-from_count GateType.nor (a ∷ []) = refl
gate_function-from_count GateType.nor (true ∷ true ∷ []) = refl
gate_function-from_count GateType.nor (true ∷ false ∷ []) = refl
gate_function-from_count GateType.nor (false ∷ true ∷ []) = refl
gate_function-from_count GateType.nor (false ∷ false ∷ []) = refl
gate_function-from_count GateType.nor (a ∷ b ∷ c ∷ bs) = refl
gate_function-from_count GateType.inv [] = refl
gate_function-from_count GateType.inv (true ∷ []) = refl
gate_function-from_count GateType.inv (false ∷ []) = refl
gate_function-from_count GateType.inv (a ∷ b ∷ bs) = refl
gate_function-from_count GateType.buf [] = refl
gate_function-from_count GateType.buf (true ∷ []) = refl
gate_function-from_count GateType.buf (false ∷ []) = refl
gate_function-from_count GateType.buf (a ∷ b ∷ bs) = refl
gate_function-from_count GateType.xor [] = refl
gate_function-from_count GateType.xor (a ∷ []) = refl
gate_function-from_count GateType.xor (true ∷ true ∷ []) = refl
gate_function-from_count GateType.xor (true ∷ false ∷ []) = refl
gate_function-from_count GateType.xor (false ∷ true ∷ []) = refl
gate_function-from_count GateType.xor (false ∷ false ∷ []) = refl
gate_function-from_count GateType.xor (a ∷ b ∷ c ∷ bs) = refl
gate_function-from_count GateType.facarry [] = refl
gate_function-from_count GateType.facarry (a ∷ []) = refl
gate_function-from_count GateType.facarry (a ∷ b ∷ []) = refl
gate_function-from_count GateType.facarry (true ∷ true ∷ true ∷ []) = refl
gate_function-from_count GateType.facarry (true ∷ true ∷ false ∷ []) = refl
gate_function-from_count GateType.facarry (true ∷ false ∷ true ∷ []) = refl
gate_function-from_count GateType.facarry (true ∷ false ∷ false ∷ []) = refl
gate_function-from_count GateType.facarry (false ∷ true ∷ true ∷ []) = refl
gate_function-from_count GateType.facarry (false ∷ true ∷ false ∷ []) = refl
gate_function-from_count GateType.facarry (false ∷ false ∷ true ∷ []) = refl
gate_function-from_count GateType.facarry (false ∷ false ∷ false ∷ []) = refl
gate_function-from_count GateType.facarry (a ∷ b ∷ c ∷ d ∷ bs) = refl
gate_function-from_count GateType.wire bs = refl
gate_function-from_count GateType.const bs = refl
gate_function-from_count GateType.input bs = refl
gate_function-from_count GateType.output [] = refl
gate_function-from_count GateType.output (true ∷ []) = refl
gate_function-from_count GateType.output (false ∷ []) = refl
gate_function-from_count GateType.output (a ∷ b ∷ bs) = refl
gate_function-from_count GateType.zerobuf bs = refl
gate_function-from_count GateType.onebuf bs = refl

-- A gate has one value on as many operands of which as many are true.
pub gate_function-count :
    (t : GateType) (xs ys : List Bool)
    → length xs ≡ length ys
    → trues xs ≡ trues ys
    → gate_function t xs ≡ gate_function t ys
gate_function-count t xs ys e k =
    gate_function-from_count t xs
    ∙ ap (λ n. from_count t n (trues xs)) e
    ∙ ap (λ n. from_count t (length ys) n) k
    ∙ sym (gate_function-from_count t ys)

-- The value of a node fits its gate and its operands. Inputs and constants are free, and so are wires, buffers and
-- inverters that nothing drives.
abbrev pub FitsGate : GateType → List Bool → Bool → Type 0
FitsGate GateType.input xs b = Unit
FitsGate GateType.const xs b = Unit
FitsGate GateType.wire [] b = Unit
FitsGate GateType.wire (x ∷ xs) b = b ≡ gate_function GateType.buf (x ∷ xs)
FitsGate GateType.buf [] b = Unit
FitsGate GateType.buf (x ∷ xs) b = b ≡ gate_function GateType.buf (x ∷ xs)
FitsGate GateType.inv [] b = Unit
FitsGate GateType.inv (x ∷ xs) b = b ≡ gate_function GateType.inv (x ∷ xs)
FitsGate t xs b = b ≡ gate_function t xs

pub FitsGate-count :
    (t : GateType) (xs ys : List Bool) (b : Bool)
    → length xs ≡ length ys
    → trues xs ≡ trues ys
    → FitsGate t xs b
    → FitsGate t ys b
FitsGate-count GateType.none xs ys b e k fit = fit ∙ gate_function-count GateType.none xs ys e k
FitsGate-count GateType.and xs ys b e k fit = fit ∙ gate_function-count GateType.and xs ys e k
FitsGate-count GateType.or xs ys b e k fit = fit ∙ gate_function-count GateType.or xs ys e k
FitsGate-count GateType.nand xs ys b e k fit = fit ∙ gate_function-count GateType.nand xs ys e k
FitsGate-count GateType.nor xs ys b e k fit = fit ∙ gate_function-count GateType.nor xs ys e k
FitsGate-count GateType.inv xs [] b e k fit = tt
FitsGate-count GateType.inv [] (y ∷ ys) b e k fit = absurd (omega arith)
FitsGate-count GateType.inv (x ∷ xs) (y ∷ ys) b e k fit =
    fit ∙ gate_function-count GateType.inv (x ∷ xs) (y ∷ ys) e k
FitsGate-count GateType.buf xs [] b e k fit = tt
FitsGate-count GateType.buf [] (y ∷ ys) b e k fit = absurd (omega arith)
FitsGate-count GateType.buf (x ∷ xs) (y ∷ ys) b e k fit =
    fit ∙ gate_function-count GateType.buf (x ∷ xs) (y ∷ ys) e k
FitsGate-count GateType.xor xs ys b e k fit = fit ∙ gate_function-count GateType.xor xs ys e k
FitsGate-count GateType.facarry xs ys b e k fit =
    fit ∙ gate_function-count GateType.facarry xs ys e k
FitsGate-count GateType.wire xs [] b e k fit = tt
FitsGate-count GateType.wire [] (y ∷ ys) b e k fit = absurd (omega arith)
FitsGate-count GateType.wire (x ∷ xs) (y ∷ ys) b e k fit =
    fit ∙ gate_function-count GateType.buf (x ∷ xs) (y ∷ ys) e k
FitsGate-count GateType.const xs ys b e k fit = tt
FitsGate-count GateType.input xs ys b e k fit = tt
FitsGate-count GateType.output xs ys b e k fit = fit ∙ gate_function-count GateType.output xs ys e k
FitsGate-count GateType.zerobuf xs ys b e k fit =
    fit ∙ gate_function-count GateType.zerobuf xs ys e k
FitsGate-count GateType.onebuf xs ys b e k fit = fit ∙ gate_function-count GateType.onebuf xs ys e k
