-- ===== src/Miter.antt =====
-- src/miter.cpp: `miterOneOutputRandom`, which compares an output of circuit 2 with an output of
-- circuit 1 under a matching of their inputs: on all patterns if at most 17 inputs of circuit 1 are
-- matched, else on 30 words of random patterns.
pub mod Agree
pub mod Verdict
pub mod Exhaustive
pub mod Sound
pub mod Linked
pub mod Complete
pub mod Decide
use multi_bit_large_scale_bo.Base.{
  ℕ, zero, suc, ◌+◌, ◌*◌, ◌/◌, ◌%◌, ◌^◌, Bool, true, false, not, ◌&&◌, List, [], ◌∷◌, Option, none,
  some, get_elem?, length, ltb, leb, ◌==◌, if◌then◌else◌, differ, Run, ok, undefined, ◌>>=◌,
}
use multi_bit_large_scale_bo.Netlist.{Ptr, Heap}
use multi_bit_large_scale_bo.Netlist.Words.{Bits, PiValue, bits_of_zero, miter_random_simulate}

-- `PNUM`, the number of patterns in a word.
unfoldable pub pnum : ℕ
pnum = 8192

-- A matched input of circuit 2: `input_pair_match_neg` says whether it is the complement of the
-- input of circuit 1.
pub record Link : Type 0 where
  pub c2 : Ptr
  pub c1 : Ptr
  pub neg : Bool

-- An input of circuit 2 that is matched to a constant.
pub record Constant : Type 0 where
  pub port : Ptr
  pub bit : Bool

-- `pi[p] = w`.
abbrev pub put : PiValue → Ptr → Bits → PiValue
put pi p w q = if q == p then w else pi q

-- `pi[p][i] = b`.
abbrev pub put_bit : PiValue → Ptr → ℕ → Bool → PiValue
put_bit pi p i b q j = if q == p && j == i then b else pi q j

-- `w1 == w2`, over the indices below `n`.
unfoldable pub same_below : ℕ → Bits → Bits → Bool
same_below zero v w = true
same_below (suc n) v w = not (differ (v n) (w n)) && same_below n v w

unfoldable pub same_word : Bits → Bits → Bool
same_word v w = same_below pnum v w

-- The words of the inputs before the first round: a constant input has its value at each index,
-- and every other input is 0.
unfoldable pub assign_constants : List Constant → PiValue → PiValue
assign_constants [] pi = pi
assign_constants (c ∷ cs) pi = assign_constants cs (put pi c.port (λ i. c.bit))

unfoldable pub initial_value : List Constant → PiValue
unfolding assign_constants
initial_value cs = assign_constants cs (λ p. bits_of_zero)

unfoldable pub member : Ptr → List Ptr → Bool
member p [] = false
member p (q ∷ qs) = if p == q then true else member p qs

-- `c1_input_set`, as the list of its elements.
unfoldable pub c1_input_set : List Link → List Ptr → List Ptr
c1_input_set [] seen = seen
c1_input_set (l ∷ ls) seen = c1_input_set ls (if member l.c1 seen then seen else l.c1 ∷ seen)

-- The bits of `val`, the lowest first, at index `i` of the inputs in `set`.
unfoldable pub assign_pattern : List Ptr → ℕ → ℕ → PiValue → PiValue
assign_pattern [] i val pi = pi
assign_pattern (p ∷ set) i val pi = assign_pattern set i (val / 2) (put_bit pi p i (val % 2 == 1))

-- The patterns `base + i` at the `n` indices from `i` up.
unfoldable pub assign_patterns : ℕ → List Ptr → ℕ → ℕ → PiValue → PiValue
assign_patterns zero set base i pi = pi
assign_patterns (suc n) set base i pi =
    assign_patterns n set base (suc i) (assign_pattern set i (base + i) pi)

-- `neg ? !val : val`, for a bit and for a word.
abbrev pub link_bit : Bool → Bool → Bool
link_bit neg b = if neg then not b else b

abbrev pub link_word : Bool → Bits → Bits
link_word neg w i = link_bit neg (w i)

-- The words of the matched inputs of circuit 2.
unfoldable pub assign_links : List Link → PiValue → PiValue
assign_links [] pi = pi
assign_links (l ∷ ls) pi = assign_links ls (put pi l.c2 (link_word l.neg (pi l.c1)))

-- One element of the loop over the pairs in a random round: `k` counts the calls of `rand()`.
unfoldable pub fill_random : (ℕ → ℕ) → Link → ℕ → ℕ → ℕ → PiValue → PiValue
fill_random rand l zero i k pi = pi
fill_random rand l (suc n) i k pi =
    let val = rand k % 2 == 1 in
    fill_random rand l n (suc i) (suc k)
      (put_bit (put_bit pi l.c1 i val) l.c2 i (link_bit l.neg val))

-- The loop over the pairs in a random round, with the set of the inputs of circuit 1 met so far.
unfoldable pub assign_random : (ℕ → ℕ) → List Link → List Ptr → ℕ → PiValue → PiValue × ℕ
assign_random rand [] seen k pi = (pi, k)
assign_random rand (l ∷ ls) seen k pi =
    let known = assign_random rand ls seen k (put pi l.c2 (link_word l.neg (pi l.c1))) in
    let fresh = assign_random rand ls (l.c1 ∷ seen) (k + pnum) (fill_random rand l pnum 0 k pi) in
    if member l.c1 seen then known else fresh

-- The comparison of two words, given the verdict `type` of the rounds before: 0 for none yet, 1 for
-- equal, 2 for complementary. `none` is the early `return 0`.
unfoldable pub classify : Bits → Bits → ℕ → Option ℕ
unfolding same_word
classify c1_out c2_out type =
    if same_word c1_out c2_out
    then if type == 0 then some 1 else if type == 1 then some type else none
    else if same_word c1_out (λ i. not (c2_out i))
    then if type == 0 then some 2 else if type == 2 then some type else none
    else none

-- The next round, unless the words differed.
abbrev pub proceed : Option ℕ → (ℕ → Run ℕ) → Run ℕ
proceed none next = ok 0
proceed (some type) next = next type

-- The circuits: the heap of their nodes, with the bound on the depth of a simulation, and the two
-- outputs that are compared.
module _ (depth : ℕ) (h : Heap) (out1 out2 : Ptr) where
  -- One round, on prepared words.
  unfoldable pub compare_round : PiValue → ℕ → Run (Option ℕ)
  unfolding classify
  compare_round pi type = miter_random_simulate depth h pi out1 >>= λ c1_out.
      miter_random_simulate depth h pi out2 >>= λ c2_out. ok (classify c1_out c2_out type)

  -- The rounds of the exhaustive comparison, from round `time` on.
  unfoldable pub exhaustive : ℕ → List Ptr → List Link → ℕ → ℕ → PiValue → ℕ → Run ℕ
  exhaustive zero set links end_index time pi type = ok type
  exhaustive (suc n) set links end_index time pi type =
      let pi' = assign_links links (assign_patterns end_index set (pnum * time) 0 pi) in
      compare_round pi' type >>= λ r.
      proceed r (λ type'. exhaustive n set links end_index (suc time) pi' type')

  -- The rounds of the random comparison.
  unfoldable pub randomised : (ℕ → ℕ) → ℕ → List Link → ℕ → PiValue → ℕ → Run ℕ
  randomised rand zero links k pi type = ok type
  randomised rand (suc n) links k pi type =
      let (pi', k') = assign_random rand links [] k pi in
      compare_round pi' type >>= λ r. proceed r (λ type'. randomised rand n links k' pi' type')

  -- `miterOneOutputRandom`, on the nodes that its indices name. `order` is the order in which the
  -- unordered set of the inputs of circuit 1 is passed through, and `rand` the results of `rand()`.
  unfoldable pub compare_outputs :
      (List Ptr → List Ptr) → (ℕ → ℕ) → List Link → List Constant → Run ℕ
  compare_outputs order rand links consts =
      let set = c1_input_set links [] in
      let c1_input_size = length set in
      let input_pattern_size = 2 ^ c1_input_size in
      let end_index = if leb c1_input_size 13 then 2 ^ c1_input_size else pnum in
      if ltb c1_input_size 18
      then exhaustive (suc (input_pattern_size / 2 ^ 13)) (order set) links end_index 0
          (initial_value consts) 0
      else randomised rand 30 links 0 (initial_value consts) 0

-- `input[i]`, where an index past the end is undefined behaviour.
unfoldable pub pointer_at : List Ptr → ℕ → Run Ptr
pointer_at ps i = elim (get_elem? ps i) [ none ↦ undefined | some p ↦ ok p ]

-- `input2[p.first]`, `input1[p.second]` and `input_pair_match_neg[i]` for each pair.
unfoldable pub resolve_links : List Ptr → List Ptr → List (ℕ × ℕ) → List Bool → Run (List Link)
unfolding pointer_at
resolve_links input1 input2 [] negs = ok []
resolve_links input1 input2 (p ∷ ps) [] = undefined
resolve_links input1 input2 ((i2, i1) ∷ ps) (neg ∷ negs) = pointer_at input2 i2 >>= λ c2.
    pointer_at input1 i1 >>= λ c1.
    resolve_links input1 input2 ps negs >>= λ ls. ok (record { c2 = c2; c1 = c1; neg = neg } ∷ ls)

-- `input2[const_match[i].second]` for each constant.
unfoldable pub resolve_constants : List Ptr → List (Bool × ℕ) → Run (List Constant)
unfolding pointer_at
resolve_constants input2 [] = ok []
resolve_constants input2 ((b, i) ∷ cs) = pointer_at input2 i >>= λ p.
    resolve_constants input2 cs >>= λ rest. ok (record { port = p; bit = b } ∷ rest)

-- `miterOneOutputRandom`.
unfoldable pub miter_one_output_random :
    ℕ
    → Heap
    → (List Ptr → List Ptr)
    → (ℕ → ℕ)
    → (input1 input2 output1 output2 : List Ptr) → List (ℕ × ℕ)
    → List Bool
    → ℕ × ℕ
    → List (Bool × ℕ)
    → Run ℕ
unfolding resolve_links resolve_constants compare_outputs
miter_one_output_random depth h order rand input1 input2 output1 output2 pairs negs out consts =
    pointer_at output1 out.1 >>= λ out1. pointer_at output2 out.0 >>= λ out2.
    resolve_links input1 input2 pairs negs >>= λ links.
    resolve_constants input2 consts >>= λ cs. compare_outputs depth h out1 out2 order rand links cs
