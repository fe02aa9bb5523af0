-- ===== src/Tests/Answer.antt =====
-- The translation of the locks of a small match: four inputs of circuit 2 against two of circuit 1.
use multi_bit_large_scale_bo.Base.{◌≡◌, refl, List, [], ◌∷◌, true, false, arith, ok, All}
use Prim.Native.String.{String}
use multi_bit_large_scale_bo.Base.Int.{pos, negsuc}
use multi_bit_large_scale_bo.Answer.{
  Lock, Answer, Written, translate_inputs, translate_outputs, empty_answer, write_partial_ans,
}
use multi_bit_large_scale_bo.Answer.Hits.{const_hits}
use multi_bit_large_scale_bo.Answer.Groups.{
  IsAnswer, translate_inputs-IsAnswer, translate_outputs-IsAnswer,
}
use multi_bit_large_scale_bo.Answer.Steps.{IsInputLock, IsOutputLock}
use multi_bit_large_scale_bo.Answer.Report.{answer_lines, write_partial_ans_lem}

abbrev input_locks : List Lock
input_locks = (pos 1, true) ∷ (negsuc 1, true) ∷ (pos 1, false) ∷ (negsuc 0, false) ∷ []

abbrev output_locks : List Lock
output_locks = (pos 0, true) ∷ []

input_locks-IsInputLock : All (IsInputLock 2) input_locks
input_locks-IsInputLock = omega arith

output_locks-IsOutputLock : All (IsOutputLock 1) output_locks
output_locks-IsOutputLock = omega arith

translate_inputs-IsAnswer_example :
    (a : Answer) × (translate_inputs input_locks 0 (empty_answer 2 4) ≡ ok a)
    × IsAnswer 2 input_locks a
    × (a.consts ≡ const_hits input_locks 0)
translate_inputs-IsAnswer_example = translate_inputs-IsAnswer 2 input_locks input_locks-IsInputLock

translate_outputs-IsAnswer_example :
    (a : Answer) × (translate_outputs output_locks 0 (empty_answer 1 1) ≡ ok a)
    × IsAnswer 1 output_locks a
    × (a.consts ≡ [])
translate_outputs-IsAnswer_example =
    translate_outputs-IsAnswer 1 output_locks output_locks-IsOutputLock

abbrev names1 : List String
names1 = "a" ∷ "b" ∷ []

abbrev names2 : List String
names2 = "p" ∷ "q" ∷ "r" ∷ "s" ∷ []

write_partial_ans_lem_example :
    (w : Written) × (write_partial_ans names1 names2 ("f" ∷ []) ("g" ∷ []) input_locks output_locks
      ≡ ok w)
    × (w.errors ≡ 0)
    × (a : Answer) × (b : Answer) × IsAnswer 2 input_locks a
    × (a.consts ≡ const_hits input_locks 0)
    × IsAnswer 1 output_locks b
    × (w.lines ≡ answer_lines names1 names2 ("f" ∷ []) ("g" ∷ []) a b)
write_partial_ans_lem_example =
    write_partial_ans_lem names1 names2 ("f" ∷ []) ("g" ∷ []) input_locks output_locks refl refl
      input_locks-IsInputLock output_locks-IsOutputLock
