-- ===== src/Tests/Netlist.antt =====
-- The simulations of the sample circuits.
use multi_bit_large_scale_bo.Base.{
  ◌<◌, ℕ, zero, suc, ◌≡◌, refl, ◌⊎◌, ◌↔◌, inl, inr, [], ◌∷◌, true, arith, ok, ◌==◌,
}
use multi_bit_large_scale_bo.Gate.{GateType, Signal}
use multi_bit_large_scale_bo.Netlist.{Ptr, Heap}
use multi_bit_large_scale_bo.Netlist.Meaning.{Assignment, value}
use multi_bit_large_scale_bo.Netlist.Words.{Bits, PiValue, M, word, gate_word, miter_gate_word}
use multi_bit_large_scale_bo.Netlist.Words.Gives.{Gives, Gives-word, gate_bits}
use multi_bit_large_scale_bo.Netlist.Words.Negated.{nand_one, Negated-agrees_iff}
use multi_bit_large_scale_bo.Netlist.Signals.{get_signal}
use multi_bit_large_scale_bo.Netlist.Signals.Sound.{signal_of, IsSettled, get_signal-eq-value}
use multi_bit_large_scale_bo.Tests.Sample.{
  sample_heap, sample-IsAcyclic, sample_used, sample_rank, sample-IsEvaluable,
}

-- The bits of the inputs: each is 1 at its own index alone.
abbrev pub sample_words : PiValue
sample_words p i = i == p

abbrev all_ones : Assignment
all_ones p = true

-- The sample circuits with every input set, and nothing simulated.
abbrev set_inputs : Heap
set_inputs p = record (sample_heap p) {
  signal = elim (sample_heap p).type [ GateType.input ↦ Signal.one | _ ↦ Signal.dontcare ];
}

set_inputs-IsSettled :
    IsSettled sample_heap sample_rank (λ p. value 9 sample_heap all_ones p) set_inputs
unfolding value
set_inputs-IsSettled = record {
  types = λ p. refl;
  invs = λ p. refl;
  fis = λ p. refl;
  signals = signals;
  inputs = inputs;
}
  where
    signals :
        (p : Ptr)
        → 0 < sample_rank p
        → ((set_inputs p).signal ≡ Signal.dontcare)
          ⊎ ((set_inputs p).signal ≡ signal_of (value 9 sample_heap all_ones p))
    signals (suc (suc (suc (suc (suc zero))))) u = inl refl
    signals (suc (suc (suc (suc (suc (suc zero)))))) u = inl refl
    signals (suc (suc (suc (suc (suc (suc (suc zero))))))) u = inl refl
    signals (suc (suc (suc (suc (suc (suc (suc (suc zero)))))))) u = inl refl
    signals (suc zero) u = inr refl
    signals (suc (suc zero)) u = inr refl
    signals (suc (suc (suc zero))) u = inr refl
    signals (suc (suc (suc (suc zero)))) u = inr refl
    signals p u = inl refl

    inputs :
        (p : Ptr)
        → (sample_heap p).type ≡ GateType.input
        → (set_inputs p).signal ≡ signal_of (value 9 sample_heap all_ones p)
    inputs (suc (suc (suc (suc (suc zero))))) e = cc
    inputs (suc (suc (suc (suc (suc (suc zero)))))) e = cc
    inputs (suc (suc (suc (suc (suc (suc (suc zero))))))) e = cc
    inputs (suc (suc (suc (suc (suc (suc (suc (suc zero)))))))) e = cc
    inputs (suc zero) e = refl
    inputs (suc (suc zero)) e = refl
    inputs (suc (suc (suc zero))) e = refl
    inputs (suc (suc (suc (suc zero)))) e = refl
    inputs p e = cc

get_signal-eq-value_example :
    (h' : Heap) × (get_signal 9 7 set_inputs ≡ ok (signal_of (value 9 sample_heap all_ones 7), h'))
    × IsSettled sample_heap sample_rank (λ p. value 9 sample_heap all_ones p) h'
get_signal-eq-value_example =
    get_signal-eq-value sample-IsAcyclic sample-IsEvaluable sample_used all_ones 7 set_inputs
      (omega arith) set_inputs-IsSettled

-- Two operands that are inputs, with the words of the sample.
abbrev sample_operand : Ptr → M
sample_operand p = word (sample_words p)

Negated-agrees_iff_example :
    (w : Bits) × Gives sample_words w (gate_word sample_operand GateType.nand 1 (1 ∷ 2 ∷ []))
    × Gives sample_words w (miter_gate_word sample_operand GateType.nand 1 (1 ∷ 2 ∷ []))
    × ((i : ℕ)
        → (w i ≡ gate_bits sample_words GateType.nand 1 (1 ∷ 2 ∷ []) i) ↔ (sample_words 2 i ≡ true))
Negated-agrees_iff_example =
    Negated-agrees_iff sample_words sample_operand 1 2 GateType.nand 1 true nand_one
      (Gives-word sample_words (sample_words 1), (Gives-word sample_words (sample_words 2), tt))
