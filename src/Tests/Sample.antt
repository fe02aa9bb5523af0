-- ===== src/Tests/Sample.antt =====
-- Two small circuits in one heap: n1 & n2 with the output n7, and ~(n3 | n4) with the output n8.
use multi_bit_large_scale_bo.Base.{
  ℕ, zero, suc, ◌<◌, ◌≢◌, refl, [], ◌∷◌, ltb, if◌then◌else◌, All, arith, length,
}
use multi_bit_large_scale_bo.Base.Int.{pos}
use multi_bit_large_scale_bo.Gate.{GateType}
use multi_bit_large_scale_bo.Netlist.{Ptr, Heap, null, new_node}
use multi_bit_large_scale_bo.Netlist.Meaning.{IsMapped, IsAcyclic, IsNetlist}
use multi_bit_large_scale_bo.Netlist.Signals.Sound.{IsEvaluable}

abbrev pub sample_heap : Heap
sample_heap (suc zero) = record (new_node 1 "n1" GateType.input) { idx = pos 0 }
sample_heap (suc (suc zero)) = record (new_node 2 "n2" GateType.input) { idx = pos 1 }
sample_heap (suc (suc (suc zero))) = record (new_node 3 "n3" GateType.input) { idx = pos 2 }
sample_heap (suc (suc (suc (suc zero)))) = record (new_node 4 "n4" GateType.input) { idx = pos 3 }
sample_heap (suc (suc (suc (suc (suc zero))))) = record (new_node 5 "n5" GateType.and) {
  fi = 1 ∷ 2 ∷ [];
}
sample_heap (suc (suc (suc (suc (suc (suc zero)))))) = record (new_node 6 "n6" GateType.nor) {
  fi = 3 ∷ 4 ∷ [];
}
sample_heap (suc (suc (suc (suc (suc (suc (suc zero))))))) =
    record (new_node 7 "n7" GateType.output) { fi = 5 ∷ [] }
sample_heap (suc (suc (suc (suc (suc (suc (suc (suc zero)))))))) =
    record (new_node 8 "n8" GateType.output) { fi = 6 ∷ [] }
sample_heap p = new_node p "" GateType.none

abbrev pub sample_rank : Ptr → ℕ
sample_rank p = if ltb p 9 then p else 0

sample-IsMapped :
    (g : Ptr)
    → 0 < sample_rank g
    → IsMapped (sample_heap g).type (sample_heap g).inv (sample_heap g).fi
sample-IsMapped zero less = absurd (omega arith)
sample-IsMapped (suc zero) less = tt
sample-IsMapped (suc (suc zero)) less = tt
sample-IsMapped (suc (suc (suc zero))) less = tt
sample-IsMapped (suc (suc (suc (suc zero)))) less = tt
sample-IsMapped (suc (suc (suc (suc (suc zero))))) less = omega arith
sample-IsMapped (suc (suc (suc (suc (suc (suc zero)))))) less = omega arith
sample-IsMapped (suc (suc (suc (suc (suc (suc (suc zero))))))) less = omega arith
sample-IsMapped (suc (suc (suc (suc (suc (suc (suc (suc zero)))))))) less = omega arith
sample-IsMapped (suc (suc (suc (suc (suc (suc (suc (suc (suc g))))))))) less = absurd (ground arith)

pub sample_used : (g : Ptr) → All (λ p. 0 < sample_rank p) (sample_heap g).fi
sample_used (suc (suc (suc (suc (suc zero))))) = omega arith
sample_used (suc (suc (suc (suc (suc (suc zero)))))) = omega arith
sample_used (suc (suc (suc (suc (suc (suc (suc zero))))))) = omega arith
sample_used (suc (suc (suc (suc (suc (suc (suc (suc zero)))))))) = omega arith
sample_used g = tt

sample_wired :
    (g : Ptr) → All (λ p. (p ≢ null) × (sample_rank p < sample_rank g)) (sample_heap g).fi
sample_wired (suc (suc (suc (suc (suc zero))))) = omega arith
sample_wired (suc (suc (suc (suc (suc (suc zero)))))) = omega arith
sample_wired (suc (suc (suc (suc (suc (suc (suc zero))))))) = omega arith
sample_wired (suc (suc (suc (suc (suc (suc (suc (suc zero)))))))) = omega arith
sample_wired g = tt

pub sample-IsAcyclic : IsAcyclic sample_heap sample_rank 9
sample-IsAcyclic = record { wired = sample_wired; bounded = λ g. ground arith }

pub sample_net : IsNetlist sample_heap sample_rank 9
sample_net = record { acyclic = sample-IsAcyclic; mapped = sample-IsMapped; used = sample_used }

pub sample-IsEvaluable :
    (g : Ptr) → 0 < sample_rank g → IsEvaluable (sample_heap g).type (length (sample_heap g).fi)
sample-IsEvaluable zero less = absurd (omega arith)
sample-IsEvaluable (suc (suc (suc (suc (suc zero))))) less = refl
sample-IsEvaluable (suc (suc (suc (suc (suc (suc zero)))))) less = refl
sample-IsEvaluable (suc (suc (suc (suc (suc (suc (suc zero))))))) less = refl
sample-IsEvaluable (suc (suc (suc (suc (suc (suc (suc (suc zero)))))))) less = refl
sample-IsEvaluable (suc zero) less = refl
sample-IsEvaluable (suc (suc zero)) less = refl
sample-IsEvaluable (suc (suc (suc zero))) less = refl
sample-IsEvaluable (suc (suc (suc (suc zero)))) less = refl
sample-IsEvaluable (suc (suc (suc (suc (suc (suc (suc (suc (suc g))))))))) less =
    absurd (ground arith)
