-- ===== src/Answer.antt =====
-- src/Matching.cpp and src/main.cpp: the translation of the locks of a match into groups of ports, in
-- `writePartialAns` and in `main`; src/Output.h: `writeOutput`, which writes the groups.
pub mod Hits
pub mod Steps
pub mod Groups
pub mod Writes
pub mod Report
use Prim.Native.String.{String}
use multi_bit_large_scale_bo.Base.{
  ℕ, zero, suc, ◌≡◌, List, [], ◌∷◌, ◌++◌, Bool, true, false, length, get_elem?, replicate, ◌==◌,
  if◌then◌else◌, Option, none, some, Run, ok, undefined, ◌>>=◌,
}
use multi_bit_large_scale_bo.Base.Int.{ℤ, pos, negsuc}

-- `pair<int, bool>`: the port of circuit 1 that a port of circuit 2 is matched with, or -1, or -2
-- (`CONST_VAL`), and whether it is the complement.
abbrev pub Lock : Type 0
Lock = ℤ × Bool

abbrev pub no_match : ℤ
no_match = negsuc 0

abbrev pub const_val : ℤ
const_val = negsuc 1

-- `v[i].push_back(x)`.
unfoldable pub push_at : List (List ℕ) → ℕ → ℕ → Run (List (List ℕ))
push_at [] i x = undefined
push_at (g ∷ gs) zero x = ok ((g ++ x ∷ []) ∷ gs)
push_at (g ∷ gs) (suc i) x = push_at gs i x >>= λ gs'. ok (g ∷ gs')

-- `v[i] = b`.
unfoldable pub put_at : List Bool → ℕ → Bool → Run (List Bool)
put_at [] i b = undefined
put_at (c ∷ cs) zero b = ok (b ∷ cs)
put_at (c ∷ cs) (suc i) b = put_at cs i b >>= λ cs'. ok (c ∷ cs')

-- `in_match_pair`, `in_ne` and `const_match`.
pub record Answer : Type 0 where
  pub groups : List (List ℕ)
  pub neg : List Bool
  pub consts : List (Bool × ℕ)

-- The entry for port `i` of circuit 2 that is matched with port `j` of circuit 1.
unfoldable pub add_match : ℕ → ℕ → Bool → Answer → Run Answer
unfolding push_at put_at
add_match i j neg a = push_at a.groups j i >>= λ gs.
    put_at a.neg i neg >>= λ ne. ok (record { groups = gs; neg = ne; consts = a.consts })

-- The loop over `maxInputMatch`, from index `i` on. A group with a negative index is undefined.
unfoldable pub translate_inputs : List Lock → ℕ → Answer → Run Answer
unfolding add_match
translate_inputs [] i a = ok a
translate_inputs ((negsuc zero, neg) ∷ ls) i a = translate_inputs ls (suc i) a
translate_inputs ((negsuc (suc zero), neg) ∷ ls) i a =
    translate_inputs ls (suc i) (record a { consts = a.consts ++ (neg, i) ∷ [] })
translate_inputs ((negsuc (suc (suc k)), neg) ∷ ls) i a = undefined
translate_inputs ((pos j, neg) ∷ ls) i a =
    add_match i j neg a >>= λ a'. translate_inputs ls (suc i) a'

-- The loop over `maxOutputMatch`, which knows no constants.
unfoldable pub translate_outputs : List Lock → ℕ → Answer → Run Answer
unfolding add_match
translate_outputs [] i a = ok a
translate_outputs ((negsuc zero, neg) ∷ ls) i a = translate_outputs ls (suc i) a
translate_outputs ((negsuc (suc k), neg) ∷ ls) i a = undefined
translate_outputs ((pos j, neg) ∷ ls) i a =
    add_match i j neg a >>= λ a'. translate_outputs ls (suc i) a'

-- The vectors before the loops: a group for each of the `n1` ports of circuit 1, and `false` for
-- each of the `n2` ports of circuit 2.
unfoldable pub empty_answer : ℕ → ℕ → Answer
empty_answer n1 n2 = record { groups = replicate n1 []; neg = replicate n2 false; consts = [] }

-- A line of the answer file; the flag says whether its sign is `-`.
pub data Line : Type 0 where
  ingroup outgroup constgroup end_of_group : Line
  port1 : String → Line
  port2 : Bool → String → Line
  const_port : Bool → String → Line

-- What `writeOutput` has done: the lines, and how often it has reported a port that it had written
-- before.
pub record Written : Type 0 where
  pub lines : List Line
  pub errors : ℕ

unfoldable pub seen_before : ℕ → List ℕ → Bool
seen_before p [] = false
seen_before p (q ∷ qs) = if p == q then true else seen_before p qs

unfoldable pub name_at : List String → ℕ → Run String
name_at names i = elim (get_elem? names i) [ none ↦ undefined | some s ↦ ok s ]

unfoldable pub flag_at : List Bool → ℕ → Run Bool
flag_at neg i = elim (get_elem? neg i) [ none ↦ undefined | some b ↦ ok b ]

-- One line and the test for a port that was written before, with the set of those.
unfoldable pub write_port : Line → ℕ → List ℕ → Written → List ℕ × Written
unfolding seen_before
write_port line p seen w =
    if seen_before p seen
    then (seen, record { lines = w.lines ++ line ∷ []; errors = suc w.errors })
    else (p ∷ seen, record { lines = w.lines ++ line ∷ []; errors = w.errors })

abbrev pub write_line : Line → Written → Written
write_line line w = record { lines = w.lines ++ line ∷ []; errors = w.errors }

module _ (names2 : List String) where
  -- The ports of one group.
  unfoldable pub write_ports : List Bool → List ℕ → List ℕ → Written → Run (List ℕ × Written)
  unfolding write_port name_at flag_at
  write_ports neg [] seen w = ok (seen, w)
  write_ports neg (p ∷ ps) seen w = flag_at neg p >>= λ b. name_at names2 p >>= λ s.
      let (seen', w') = write_port (port2 b s) p seen w in write_ports neg ps seen' w'

  -- The groups, whose first lines are `title` and the port of circuit 1.
  unfoldable pub write_groups :
      Line → List String → List Bool → List (List ℕ) → ℕ → List ℕ → Written → Run (List ℕ × Written)
  unfolding write_ports name_at
  write_groups title names1 neg [] i seen w = ok (seen, w)
  write_groups title names1 neg (g ∷ gs) i seen w = name_at names1 i >>= λ s.
      write_ports neg g seen (write_line (port1 s) (write_line title w)) >>= λ r.
      write_groups title names1 neg gs (suc i) r.0 (write_line end_of_group r.1)

  -- The constants.
  unfoldable pub write_constants : List (Bool × ℕ) → List ℕ → Written → Run Written
  unfolding write_port name_at
  write_constants [] seen w = ok (write_line end_of_group w)
  write_constants ((b, p) ∷ cs) seen w = name_at names2 p >>= λ s.
      let (seen', w') = write_port (const_port b s) p seen w in write_constants cs seen' w'

-- `writeOutput`.
unfoldable pub write_output :
    (input1 input2 output1 output2 : List String) → (inputs outputs : Answer) → Run Written
unfolding write_groups write_constants
write_output input1 input2 output1 output2 inputs outputs =
    write_groups input2 ingroup input1 inputs.neg inputs.groups 0 []
      (record { lines = []; errors = 0 })
    >>= λ r. write_groups output2 outgroup output1 outputs.neg outputs.groups 0 [] r.1 >>= λ q.
        elim inputs.consts [
          | [] ↦ ok q.1
          | c ∷ cs ↦ write_constants input2 (c ∷ cs) r.0 (write_line constgroup q.1)
        ]

-- `writePartialAns`: `maxInputMatch` and `maxOutputMatch` as lists of locks.
unfoldable pub write_partial_ans :
    (input1 input2 output1 output2 : List String)
    → (max_input_match max_output_match : List Lock) → Run Written
unfolding translate_inputs translate_outputs empty_answer write_output
write_partial_ans input1 input2 output1 output2 max_input_match max_output_match =
    translate_inputs max_input_match 0 (empty_answer (length input1) (length input2)) >>= λ inputs.
    translate_outputs max_output_match 0 (empty_answer (length output1) (length output2))
    >>= λ outputs. write_output input1 input2 output1 output2 inputs outputs
