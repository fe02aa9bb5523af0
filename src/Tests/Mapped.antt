-- ===== src/Tests/Mapped.antt =====
-- A netlist that is built, with a wire between its gate and a buffer, and simplified: it is one that the simulations
-- are right for.
use multi_bit_large_scale_bo.Base.{
  ℕ, zero, suc, ◌<◌, ◌≡◌, refl, [], ◌∷◌, arith, ok, All, ◌≢◌, subst, sym, All-map, ◌==◌, ◌||◌,
}
use multi_bit_large_scale_bo.Base.Int.{pos}
use multi_bit_large_scale_bo.Gate.{GateType}
use multi_bit_large_scale_bo.Netlist.{Ptr, null}
use multi_bit_large_scale_bo.Netlist.Registry.{Registry, new_module, create, connect}
use multi_bit_large_scale_bo.Netlist.Simplify.{simplification}
use multi_bit_large_scale_bo.Netlist.Meaning.{value, IsMapped, IsNetlist}
use multi_bit_large_scale_bo.Netlist.Words.{
  PiValue, RecordMap, empty_record, get_result, miter_random_simulate,
}
use multi_bit_large_scale_bo.Netlist.Words.Gives.{IsRecord}
use multi_bit_large_scale_bo.Netlist.Words.Sound.{miter_random_simulate-eq-value}
use multi_bit_large_scale_bo.Netlist.Words.Recorded.{IsIndexed, get_result-eq-value}
use multi_bit_large_scale_bo.Tests.Build.{registry_of}

-- Inputs n1 and n2, output n3, the wire w, the gate g0 and the buffer g1.
abbrev six_nodes : Registry
six_nodes =
    (create "g1" GateType.buf
      (create "g0" GateType.and
        (create "w" GateType.wire
          (create "n3" GateType.output
            (create "n2" GateType.input (create "n1" GateType.input new_module).1).1).1).1).1).1

abbrev wired : Registry
wired =
    registry_of
      (connect 8 ("n3" ∷ "w" ∷ []) (registry_of (connect 7 ("w" ∷ "n1" ∷ "n2" ∷ []) six_nodes)))

abbrev simple : Registry
simple = registry_of (simplification wired)

simple_lem : simplification wired ≡ ok simple
unfolding create new_module connect simplification
simple_lem = refl

simple_far : (g : ℕ) → (simple.heap (suc (suc (suc (suc (suc (suc (suc (suc (suc g)))))))))).fi ≡ []
unfolding create new_module connect simplification
simple_far g = ground arith

simple_rank : Ptr → ℕ
simple_rank (suc (suc (suc zero))) = 1
simple_rank (suc (suc (suc (suc zero)))) = 1
simple_rank (suc (suc (suc (suc (suc zero))))) = 3
simple_rank (suc (suc (suc (suc (suc (suc (suc zero))))))) = 2
simple_rank g = 0

abbrev IsIn : Ptr → Ptr → Type 0
IsIn g p = (p ≢ null) × (simple_rank p < simple_rank g) × (0 < simple_rank p)

-- The fan-ins of each node are in use, and of smaller rank.
simple_fan_ins : (g : Ptr) → All (IsIn g) (simple.heap g).fi
unfolding create new_module connect simplification simple_rank
simple_fan_ins zero = tt
simple_fan_ins (suc zero) = tt
simple_fan_ins (suc (suc zero)) = tt
simple_fan_ins (suc (suc (suc zero))) = tt
simple_fan_ins (suc (suc (suc (suc zero)))) = tt
simple_fan_ins (suc (suc (suc (suc (suc zero))))) = ((omega arith, omega arith, omega arith), tt)
simple_fan_ins (suc (suc (suc (suc (suc (suc zero)))))) = tt
simple_fan_ins (suc (suc (suc (suc (suc (suc (suc zero))))))) =
    ((omega arith, omega arith, omega arith), ((omega arith, omega arith, omega arith), tt))
simple_fan_ins (suc (suc (suc (suc (suc (suc (suc (suc zero)))))))) = tt
simple_fan_ins (suc (suc (suc (suc (suc (suc (suc (suc (suc g))))))))) =
    subst (λ ps. All (IsIn (suc (suc (suc (suc (suc (suc (suc (suc (suc g)))))))))) ps)
      (sym (simple_far g)) tt

simple-IsMapped :
    (g : Ptr)
    → 0 < simple_rank g
    → IsMapped (simple.heap g).type (simple.heap g).inv (simple.heap g).fi
unfolding create new_module connect simplification simple_rank
simple-IsMapped (suc (suc (suc zero))) less = tt
simple-IsMapped (suc (suc (suc (suc zero)))) less = tt
simple-IsMapped (suc (suc (suc (suc (suc zero))))) less = (refl, omega arith)
simple-IsMapped (suc (suc (suc (suc (suc (suc (suc zero))))))) less = (refl, omega arith)
simple-IsMapped g less = absurd (omega arith)

simple_bounded : (g : Ptr) → simple_rank g < 4
unfolding simple_rank
simple_bounded g = ground arith

simple-IsNetlist : IsNetlist simple.heap simple_rank 4
simple-IsNetlist = record {
  acyclic = record {
    wired = λ g. All-map (simple.heap g).fi (λ p i. (i.0, i.1)) (simple_fan_ins g);
    bounded = simple_bounded;
  };
  mapped = simple-IsMapped;
  used = λ g. All-map (simple.heap g).fi (λ p i. i.2) (simple_fan_ins g);
}

simple_live : (5 ≢ null) × (0 < simple_rank 5)
unfolding simple_rank
simple_live = (omega arith, omega arith)

simple_far_type :
    (g : ℕ)
    → (simple.heap (suc (suc (suc (suc (suc (suc (suc (suc (suc g)))))))))).type ≡ GateType.none
unfolding create new_module connect simplification
simple_far_type g = ground arith

simple_types :
    ((simple.heap 0).type ≡ GateType.none)
    × ((simple.heap 1).type ≡ GateType.const)
    × ((simple.heap 2).type ≡ GateType.const)
    × ((simple.heap 5).type ≡ GateType.output)
    × ((simple.heap 6).type ≡ GateType.wire)
    × ((simple.heap 7).type ≡ GateType.and)
    × ((simple.heap 8).type ≡ GateType.buf)
unfolding create new_module connect simplification
simple_types = (refl, refl, refl, refl, refl, refl, refl)

simple_places :
    ((simple.heap 3).idx ≡ pos 0)
    × ((simple.heap 4).idx ≡ pos 1)
    × (simple.gate GateType.input ≡ 3 ∷ 4 ∷ [])
unfolding create new_module connect simplification
simple_places = (refl, refl, refl)

simple-IsIndexed : IsIndexed simple.heap (3 ∷ 4 ∷ [])
simple-IsIndexed (suc (suc (suc zero))) e = (0, simple_places.0, refl)
simple-IsIndexed (suc (suc (suc (suc zero)))) e = (1, simple_places.1, refl)
simple-IsIndexed zero e = cc (e, simple_types.0)
simple-IsIndexed (suc zero) e = cc (e, simple_types.1)
simple-IsIndexed (suc (suc zero)) e = cc (e, simple_types.2)
simple-IsIndexed (suc (suc (suc (suc (suc zero))))) e = cc (e, simple_types.3)
simple-IsIndexed (suc (suc (suc (suc (suc (suc zero)))))) e = cc (e, simple_types.4)
simple-IsIndexed (suc (suc (suc (suc (suc (suc (suc zero))))))) e = cc (e, simple_types.5)
simple-IsIndexed (suc (suc (suc (suc (suc (suc (suc (suc zero)))))))) e = cc (e, simple_types.6)
simple-IsIndexed (suc (suc (suc (suc (suc (suc (suc (suc (suc g))))))))) e =
    cc (e, simple_far_type g)

abbrev simple_words : PiValue
simple_words p i = p == 3 || i == 2

miter_random_simulate-eq-value_example :
    miter_random_simulate 4 simple.heap simple_words 5
    ≡ ok (λ i. value 4 simple.heap (λ p. simple_words p i) 5)
miter_random_simulate-eq-value_example =
    miter_random_simulate-eq-value simple-IsNetlist simple_words 5 simple_live

get_result-eq-value_example :
    (m' : RecordMap) × (get_result 4 simple.heap (3 ∷ 4 ∷ []) simple_words 5 empty_record
      ≡ ok (λ i. value 4 simple.heap (λ q. simple_words q i) 5, m'))
    × IsRecord (λ p i. value 4 simple.heap (λ q. simple_words q i) p) m'
get_result-eq-value_example =
    get_result-eq-value simple-IsNetlist (3 ∷ 4 ∷ []) simple-IsIndexed simple_words 5 empty_record
      simple_live (λ p w e. cc)
