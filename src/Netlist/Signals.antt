-- ===== src/Netlist/Signals.antt =====
-- src/Netlist.h: the scalar simulation, which stores a signal in each node: `OutputValueBody`,
-- `OutputValue`, `getSignal`, `InitInput` and the assignment of input signals.
pub mod Sound
use Prim.Native.Nat.{bit_and, bit_or}
use multi_bit_large_scale_bo.Base.{
  ℕ, zero, suc, ◌+◌, ◌/◌, Bool, true, false, not, List, [], ◌∷◌, length, ◌==◌, ltb, if◌then◌else◌,
  Run, ok, err, undefined, out_of_fuel, ◌>>=◌, non_signal_input, undefined_gate,
  invalid_signal_count,
}
use multi_bit_large_scale_bo.Gate.{GateType, Signal}
use multi_bit_large_scale_bo.Netlist.{Ptr, Heap}

-- The number of a signal, and the cast back.
abbrev pub code : Signal → ℕ
code Signal.zero = 0
code Signal.one = 1
code Signal.dontcare = 2

abbrev pub cast : ℕ → Signal
cast zero = Signal.zero
cast (suc zero) = Signal.one
cast (suc (suc _)) = Signal.dontcare

-- `(Signal)!s`.
abbrev pub flip_signal : ℕ → Signal
flip_signal n = if n == 0 then Signal.one else Signal.zero

abbrev pub is_dontcare : Signal → Bool
is_dontcare s = code s == 2

abbrev pub set_signal : Heap → Ptr → Signal → Heap
set_signal h p s q = if q == p then record (h q) { signal = s } else h q

-- The loop of `OutputValueBody` that copies the input signals from index `i` on, those below `inv`
-- negated.
unfoldable pub copy_signals : Heap → ℕ → ℕ → List Ptr → Run (List Signal)
copy_signals h inv i [] = ok []
copy_signals h inv i (p ∷ fi) =
    let rest = copy_signals h inv (suc i) fi in
    let s = if ltb i inv then flip_signal (code (h p).signal) else (h p).signal in
    if is_dontcare (h p).signal then err non_signal_input else rest >>= λ fs. ok (s ∷ fs)

-- The `switch` of `OutputValueBody`: the type, the node's own signal and the copied signals. A read
-- past the end of the copies is undefined behaviour.
unfoldable pub gate_signal : GateType → Signal → List Signal → Run Signal
gate_signal GateType.input own fs = ok own
gate_signal GateType.output own (a ∷ fs) = ok a
gate_signal GateType.buf own (a ∷ fs) = ok a
gate_signal GateType.inv own (a ∷ fs) = ok (flip_signal (code a))
gate_signal GateType.and own (a ∷ b ∷ fs) = ok (cast (bit_and (code a) (code b)))
gate_signal GateType.or own (a ∷ b ∷ fs) = ok (cast (bit_or (code a) (code b)))
gate_signal GateType.xor own (a ∷ b ∷ fs) =
    ok (if code a == code b then Signal.zero else Signal.one)
gate_signal GateType.facarry own (a ∷ b ∷ c ∷ fs) = ok (cast ((code a + code b + code c) / 2))
gate_signal GateType.nand own (a ∷ b ∷ fs) = ok (flip_signal (bit_and (code a) (code b)))
gate_signal GateType.nor own (a ∷ b ∷ fs) = ok (flip_signal (bit_or (code a) (code b)))
gate_signal GateType.zerobuf own fs = ok Signal.zero
gate_signal GateType.onebuf own fs = ok Signal.one
gate_signal GateType.none own fs = err undefined_gate
gate_signal GateType.wire own fs = err undefined_gate
gate_signal GateType.const own fs = err undefined_gate
gate_signal _ own _ = undefined

-- `OutputValueBody`.
unfoldable pub output_value_body : Heap → Ptr → Run Signal
unfolding copy_signals gate_signal
output_value_body h g =
    copy_signals h (h g).inv 0 (h g).fi >>= λ fs. gate_signal (h g).type (h g).signal fs

-- The loop of `OutputValue` over the fan-ins, where `go` is its recursive call.
unfoldable pub visit_fan_ins : (Ptr → Heap → Run Heap) → List Ptr → Heap → Run Heap
visit_fan_ins go [] h = ok h
visit_fan_ins go (p ∷ fi) h =
    (if is_dontcare (h p).signal then go p h else ok h) >>= λ h'. visit_fan_ins go fi h'

-- `OutputValue`, with fuel for the depth of the recursion.
unfoldable pub output_value : ℕ → Ptr → Heap → Run Heap
unfolding visit_fan_ins output_value_body
output_value zero g h = out_of_fuel
output_value (suc fuel) g h = visit_fan_ins (λ p h'. output_value fuel p h') (h g).fi h >>= λ h'.
    output_value_body h' g >>= λ s. ok (set_signal h' g s)

-- `getSignal`, for the node that the name leads to.
unfoldable pub get_signal : ℕ → Ptr → Heap → Run (Signal × Heap)
unfolding output_value
get_signal fuel g h = output_value fuel g h >>= λ h'. ok ((h' g).signal, h')

-- `InitInput`: every node of the netlist is DONTCARE.
unfoldable pub init_input : List Ptr → Heap → Heap
init_input [] h = h
init_input (p ∷ netlist) h = init_input netlist (set_signal h p Signal.dontcare)

-- `AssignBus`: one signal for each node of the bus.
unfoldable pub assign_bus : List Ptr → List Signal → Heap → Run Heap
assign_bus [] [] h = ok h
assign_bus (p ∷ bus) (s ∷ ss) h = assign_bus bus ss (set_signal h p s)
assign_bus _ _ h = err invalid_signal_count

-- `AssignFlipValue`: the new heap and the signal assigned.
unfoldable pub assign_flip_value : Ptr → Signal → Heap → Signal × Heap
assign_flip_value p s h =
    let s' = if (h p).is_flip then flip_signal (code s) else s in (s', set_signal h p s')
