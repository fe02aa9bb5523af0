-- ===== src/Netlist/Registry/Types.antt =====
-- src/Netlist.h: `Type`, whose members differ in their numbers, and `_gate`, which is read by them.
use multi_bit_large_scale_bo.Base.{
  ◌≡◌, ◌≢◌, refl, sym, ap, ◌∙◌, List, [], ◌∷◌, get_or, ==_iff, ==_ne,
}
use multi_bit_large_scale_bo.Gate.{GateType}
use multi_bit_large_scale_bo.Netlist.{Ptr}
use multi_bit_large_scale_bo.Netlist.Registry.{type_number, set_gate}

abbrev types : List GateType
types =
    GateType.none ∷ GateType.and ∷ GateType.or ∷ GateType.nand ∷ GateType.nor ∷ GateType.inv
    ∷ GateType.buf ∷ GateType.xor ∷ GateType.facarry ∷ GateType.wire ∷ GateType.const
    ∷ GateType.input ∷ GateType.output ∷ GateType.zerobuf ∷ GateType.onebuf ∷ []

type_of_number : (t : GateType) → get_or types (type_number t) GateType.none ≡ t
type_of_number GateType.none = refl
type_of_number GateType.and = refl
type_of_number GateType.or = refl
type_of_number GateType.nand = refl
type_of_number GateType.nor = refl
type_of_number GateType.inv = refl
type_of_number GateType.buf = refl
type_of_number GateType.xor = refl
type_of_number GateType.facarry = refl
type_of_number GateType.wire = refl
type_of_number GateType.const = refl
type_of_number GateType.input = refl
type_of_number GateType.output = refl
type_of_number GateType.zerobuf = refl
type_of_number GateType.onebuf = refl

pub type_number_inj : (t u : GateType) → type_number t ≡ type_number u → t ≡ u
type_number_inj t u e =
    sym (type_of_number t) ∙ ap (λ n. get_or types n GateType.none) e ∙ type_of_number u

pub set_gate_same :
    (f : GateType → List Ptr) (t : GateType) (ps : List Ptr) → set_gate f t ps t ≡ ps
set_gate_same f t ps = rw ((==_iff (type_number t) (type_number t)).1 refl) refl

pub set_gate_other :
    (f : GateType → List Ptr) (t u : GateType) (ps : List Ptr) → u ≢ t → set_gate f t ps u ≡ f u
set_gate_other f t u ps n =
    rw (==_ne (type_number u) (type_number t) (λ e. n (type_number_inj u t e))) refl
