-- ===== src/Netlist/Words.antt =====
-- src/Netlist.h: `getResult` and `miterGetResult`, which simulate 8192 input patterns at once and
-- keep the words of the nodes they have met in `recordMap`.
pub mod Gives
pub mod Gates
pub mod Sound
pub mod Negated
pub mod Recorded
use multi_bit_large_scale_bo.Base.{
  ℕ, zero, suc, List, Bool, false, not, ◌&&◌, ◌||◌, differ, Option, none, some, get_elem?, ◌==◌,
  if◌then◌else◌, Run, ok, err, undefined, out_of_fuel, null_gate, undefined_gate, ◌>>=◌,
}
use multi_bit_large_scale_bo.Base.Int.{ℤ, pos, negsuc}
use multi_bit_large_scale_bo.Gate.{GateType}
use multi_bit_large_scale_bo.Netlist.{Ptr, Node, Heap, null}

-- `bitset<8192>`: the bit at each index. Indices from 8192 up are never looked at.
abbrev pub Bits : Type 0
Bits = ℕ → Bool

-- `bitset<8192> b(0)` and `b(1)`, where the number gives the bits from index 0 up.
abbrev pub bits_of_zero : Bits
bits_of_zero i = false

abbrev pub bits_of_one : Bits
bits_of_one i = i == 0

-- `piValue`, where a missing key reads as the word 0.
abbrev pub PiValue : Type 0
PiValue = Ptr → Bits

-- `recordMap`.
abbrev pub RecordMap : Type 0
RecordMap = Ptr → Option Bits

abbrev pub empty_record : RecordMap
empty_record p = none

abbrev pub record_word : RecordMap → Ptr → Bits → RecordMap
record_word m g w p = if p == g then some w else m p

-- A simulation that reads and writes `recordMap`.
abbrev pub M : Type 0
M = RecordMap → Run (Bits × RecordMap)

abbrev pub word : Bits → M
word w m = ok (w, m)

-- `~a`, `a & b`, `a | b` and `a ^ b`, with the operands simulated from left to right.
unfoldable pub neg_word : M → M
neg_word a m = a m >>= λ r. ok (λ i. not (r.0 i), r.1)

unfoldable pub lift_word : (Bool → Bool → Bool) → M → M → M
lift_word f a b m = a m >>= λ r. b r.1 >>= λ s. ok (λ i. f (r.0 i) (s.0 i), s.1)

unfoldable pub and_word : M → M → M
unfolding lift_word
and_word = lift_word (λ a b. a && b)

unfoldable pub or_word : M → M → M
unfolding lift_word
or_word = lift_word (λ a b. a || b)

unfoldable pub xor_word : M → M → M
unfolding lift_word
xor_word = lift_word differ

-- `recordMap.count(gate)` with its early return, and the store of the word that `body` computes.
unfoldable pub recall : Ptr → M → M
recall g body m = elim (m g) [ some w ↦ ok (w, m) | none ↦ body m ]

unfoldable pub remember : Ptr → M → M
remember g body m = body m >>= λ r. ok (r.0, record_word r.1 g r.0)

-- `getResult(gate->_fi[k])`, where `go` is the simulation of a fan-in; an index past the end is undefined behaviour.
unfoldable pub fan_in : (Ptr → M) → List Ptr → ℕ → M
fan_in go fi k = elim (get_elem? fi k) [ some p ↦ go p | none ↦ λ m. undefined ]

-- The three operands of a full adder's carry, in the order of the source's expression.
unfoldable pub carry_word : M → M → M → M
unfolding and_word or_word
carry_word a b c = or_word (or_word (and_word a b) (and_word b c)) (and_word a c)

unfoldable pub fail_word : M
fail_word m = err undefined_gate

module _ (go : Ptr → M) where
  -- The branches of `getResult` for a gate that is no INPUT: its type, `_inv` and `_fi`.
  unfoldable pub gate_word : GateType → ℕ → List Ptr → M
  gate_word GateType.buf k fi = let a = fan_in go fi 0 in if k == 1 then neg_word a else a
  gate_word GateType.output k fi = let a = fan_in go fi 0 in if k == 1 then neg_word a else a
  gate_word GateType.inv k fi = let a = fan_in go fi 0 in if k == 1 then a else neg_word a
  gate_word GateType.and k fi =
      let a = fan_in go fi 0 in
      let b = fan_in go fi 1 in
      if k == 2
      then and_word (neg_word a) (neg_word b)
      else if k == 1
      then and_word (neg_word a) b
      else and_word a b
  gate_word GateType.or k fi =
      let a = fan_in go fi 0 in
      let b = fan_in go fi 1 in
      if k == 2
      then or_word (neg_word a) (neg_word b)
      else if k == 1
      then or_word (neg_word a) b
      else or_word a b
  gate_word GateType.xor k fi =
      let a = fan_in go fi 0 in
      let b = fan_in go fi 1 in
      if k == 2
      then xor_word (neg_word a) (neg_word b)
      else if k == 1
      then xor_word (neg_word a) b
      else xor_word a b
  gate_word GateType.nand k fi =
      let a = fan_in go fi 0 in
      let b = fan_in go fi 1 in
      if k == 2
      then and_word a (neg_word b)
      else if k == 1
      then and_word a b
      else neg_word (and_word a b)
  gate_word GateType.nor k fi =
      let a = fan_in go fi 0 in
      let b = fan_in go fi 1 in
      if k == 2
      then or_word a (neg_word b)
      else if k == 1
      then or_word a b
      else neg_word (or_word a b)
  gate_word GateType.zerobuf k fi = word bits_of_zero
  gate_word GateType.onebuf k fi = word bits_of_one
  gate_word GateType.facarry k fi =
      let a = fan_in go fi 0 in
      let b = fan_in go fi 1 in
      let c = fan_in go fi 2 in
      if k == 3
      then carry_word (neg_word a) (neg_word b) (neg_word c)
      else if k == 2
      then carry_word (neg_word a) (neg_word b) c
      else if k == 1
      then carry_word (neg_word a) b c
      else carry_word a b c
  gate_word _ k fi = fail_word

  -- The branches of `miterGetResult` for a gate that is no INPUT: there is none for INV.
  unfoldable pub miter_gate_word : GateType → ℕ → List Ptr → M
  miter_gate_word GateType.buf k fi = let a = fan_in go fi 0 in if k == 1 then neg_word a else a
  miter_gate_word GateType.output k fi = let a = fan_in go fi 0 in if k == 1 then neg_word a else a
  miter_gate_word GateType.and k fi =
      let a = fan_in go fi 0 in
      let b = fan_in go fi 1 in
      if k == 2
      then and_word (neg_word a) (neg_word b)
      else if k == 1
      then and_word (neg_word a) b
      else and_word a b
  miter_gate_word GateType.or k fi =
      let a = fan_in go fi 0 in
      let b = fan_in go fi 1 in
      if k == 2
      then or_word (neg_word a) (neg_word b)
      else if k == 1
      then or_word (neg_word a) b
      else or_word a b
  miter_gate_word GateType.xor k fi =
      let a = fan_in go fi 0 in
      let b = fan_in go fi 1 in
      if k == 2
      then xor_word (neg_word a) (neg_word b)
      else if k == 1
      then xor_word (neg_word a) b
      else xor_word a b
  miter_gate_word GateType.nand k fi =
      let a = fan_in go fi 0 in
      let b = fan_in go fi 1 in
      if k == 2
      then and_word a (neg_word b)
      else if k == 1
      then and_word a b
      else neg_word (and_word a b)
  miter_gate_word GateType.nor k fi =
      let a = fan_in go fi 0 in
      let b = fan_in go fi 1 in
      if k == 2
      then or_word a (neg_word b)
      else if k == 1
      then or_word a b
      else neg_word (or_word a b)
  miter_gate_word GateType.zerobuf k fi = word bits_of_zero
  miter_gate_word GateType.onebuf k fi = word bits_of_one
  miter_gate_word GateType.facarry k fi =
      let a = fan_in go fi 0 in
      let b = fan_in go fi 1 in
      let c = fan_in go fi 2 in
      if k == 3
      then carry_word (neg_word a) (neg_word b) (neg_word c)
      else if k == 2
      then carry_word (neg_word a) (neg_word b) c
      else if k == 1
      then carry_word (neg_word a) b c
      else carry_word a b c
  miter_gate_word _ k fi = fail_word

-- `piValue[_gate[INPUT][gate->_idx]]`.
unfoldable pub input_word : List Ptr → PiValue → Node → M
input_word inputs pi g m = elim g.idx [
  | pos k ↦ elim (get_elem? inputs k) [ some p ↦ ok (pi p, m) | none ↦ undefined ]
  | negsuc _ ↦ undefined
]

-- What follows a null pointer.
abbrev null_word : M
null_word m = undefined

-- `getResult`, with fuel for the depth of the recursion.
unfoldable pub get_result : ℕ → Heap → List Ptr → PiValue → Ptr → M
get_result zero h inputs pi g m = out_of_fuel
get_result (suc fuel) h inputs pi g m =
    recall g
      (if g == null then null_word else elim (h g).type [
        | GateType.input ↦ input_word inputs pi (h g)
        | t ↦ remember g (gate_word (λ p. get_result fuel h inputs pi p) t (h g).inv (h g).fi)
      ])
      m

-- `miterGetResult`, with fuel for the depth of the recursion.
unfoldable pub miter_get_result : ℕ → Heap → PiValue → Ptr → M
miter_get_result zero h pi g m = out_of_fuel
miter_get_result (suc fuel) h pi g m =
    if g == null
    then err null_gate
    else recall g
        (elim (h g).type [
          | GateType.input ↦ word (pi g)
          | t ↦
              remember g (miter_gate_word (λ p. miter_get_result fuel h pi p) t (h g).inv (h g).fi)
        ])
        m

-- `miterRandomSimulate`: clears `recordMap` first.
unfoldable pub miter_random_simulate : ℕ → Heap → PiValue → Ptr → Run Bits
miter_random_simulate fuel h pi g = miter_get_result fuel h pi g empty_record >>= λ r. ok r.0
