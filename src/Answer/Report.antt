-- ===== src/Answer/Report.antt =====
-- src/Output.h: what `writeOutput` reports of an answer.
use Prim.Native.String.{String}
use multi_bit_large_scale_bo.Base.{
  ap, ◌++◌, ℕ, zero, suc, ◌+◌, ◌<◌, ◌≡◌, refl, sym, ◌∙◌, ◌⊎◌, inl, inr, List, [], ◌∷◌, Bool, length,
  arith, In, All, IsDistinct, ok, subst,
}
use multi_bit_large_scale_bo.Base.Int.{ℤ, pos}
use multi_bit_large_scale_bo.Answer.{
  Lock, Line, const_val, Answer, ingroup, outgroup, constgroup, Written, write_line,
  write_constants, write_output, write_partial_ans,
}
use multi_bit_large_scale_bo.Answer.Hits.{
  const_hits, ports, const_hits-IsDistinct, const_hits-IsLockedTo, IsLockedTo,
}
use multi_bit_large_scale_bo.Answer.Groups.{
  IsAnswer, translate_inputs-IsAnswer, translate_outputs-IsAnswer,
}
use multi_bit_large_scale_bo.Answer.Steps.{group, IsInputLock, IsOutputLock}
use multi_bit_large_scale_bo.Answer.Writes.{
  IsWritable, append-append, append_nil, group_lines, constant_lines, write_groups_lem,
  write_constants_lem,
}

-- A port of circuit 2 that is locked is one of the locks' ports.
locked-lt : (ls : List Lock) (z : ℤ) (p : ℕ) → IsLockedTo ls z p → p < length ls
locked-lt [] z p (b, e) = cc
locked-lt (l ∷ ls) z zero (b, e) = omega arith
locked-lt (l ∷ ls) z (suc p) h = omega (arith, locked-lt ls z p h)

same_port : (ls : List Lock) (y z : ℤ) (p : ℕ) → IsLockedTo ls y p → IsLockedTo ls z p → y ≡ z
same_port ls y z p (b, e) (c, f) = cc

IsAnswer-IsWritable :
    (names2 : List String) (n1 : ℕ) (ls : List Lock) (a : Answer)
    → IsAnswer n1 ls a
    → length ls ≡ length names2
    → IsWritable names2 (length a.neg) a.groups []
IsAnswer-IsWritable names2 n1 ls a h size = record {
  once = h.once;
  fresh = λ j p m. (
    (λ r. r),
    omega (arith, h.flag_count, locked-lt ls (pos j) p ((h.members j p).0 m)),
    omega (arith, locked-lt ls (pos j) p ((h.members j p).0 m)),
  );
  apart = λ j k p m m'.
      let e = same_port ls (pos j) (pos k) p ((h.members j p).0 m) ((h.members k p).0 m') in cc;
}

-- The constants of an answer can be written after its groups.
const_lem :
    (n1 : ℕ) (ls : List Lock) (a : Answer) (seen : List ℕ)
    → IsAnswer n1 ls a
    → ((q : ℕ) → In q seen → In q [] ⊎ ((j : ℕ) × In q (group a.groups j)))
    → (p : ℕ) → In p (ports (const_hits ls 0))
    → (In p seen → ⊥) × (p < length ls)
const_lem n1 ls a seen h from p m = (
  λ r. elim (from p r) [
    | inl nowhere ↦ nowhere
    | inr (j, there) ↦
        (let e = same_port ls (pos j) const_val p ((h.members j p).0 there) locked in cc)
  ],
  locked-lt ls const_val p locked,
)
  where
    plus_zero : 0 + p ≡ p
    plus_zero = omega arith

    locked : IsLockedTo ls const_val p
    locked =
        const_hits-IsLockedTo ls 0 p (subst (λ q. In q (ports (const_hits ls 0))) (sym plus_zero) m)

-- The lines for the constants, of which there are none without constants.
abbrev pub last_lines : List String → List (Bool × ℕ) → List Line
last_lines names2 [] = []
last_lines names2 (c ∷ cs) = constgroup ∷ constant_lines names2 (c ∷ cs)

-- The part of `writeOutput` for the constants.
last_part :
    (names2 : List String) (cs : List (Bool × ℕ)) (seen : List ℕ) (w : Written)
    → IsDistinct (ports cs)
    → ((p : ℕ) → In p (ports cs) → (In p seen → ⊥) × (p < length names2))
    → (w' : Written) × ((elim cs [
      | [] ↦ ok w
      | c ∷ rest ↦ write_constants names2 (c ∷ rest) seen (write_line constgroup w)
    ])
        ≡ ok w')
      × (w'.errors ≡ w.errors)
      × (w'.lines ≡ w.lines ++ last_lines names2 cs)
last_part names2 [] seen w distinct new = (w, refl, refl, sym (append_nil w.lines))
last_part names2 (c ∷ cs) seen w distinct new =
    let (w', e, same, lines) =
      write_constants_lem names2 (c ∷ cs) seen (write_line constgroup w) distinct new in
    (w', e, same, lines ∙ append-append w.lines (constgroup ∷ []) (constant_lines names2 (c ∷ cs)))

module _ (input1 input2 output1 output2 : List String) where
  -- The lines of the answer: the groups of the inputs, those of the outputs, and the constants.
  abbrev pub answer_lines : Answer → Answer → List Line
  answer_lines a b =
      group_lines input2 ingroup input1 a.neg a.groups 0
      ++ (group_lines output2 outgroup output1 b.neg b.groups 0 ++ last_lines input2 a.consts)

module _ (input1 input2 output1 output2 : List String) (ins outs : List Lock)
    (in_size : length ins ≡ length input2) (out_size : length outs ≡ length output2) where
  write_output_lem :
      (a b : Answer)
      → IsAnswer (length input1) ins a
      → a.consts ≡ const_hits ins 0
      → IsAnswer (length output1) outs b
      → (w : Written) × (write_output input1 input2 output1 output2 a b ≡ ok w)
        × (w.errors ≡ 0)
        × (w.lines ≡ answer_lines input1 input2 output1 output2 a b)
  unfolding write_output
  write_output_lem a b ha ca hb =
      let (seen, w₁, e₁, same₁, from, lines₁) =
        write_groups_lem input2 ingroup input1 a.neg a.groups 0 []
          (record { lines = []; errors = 0 })
          (IsAnswer-IsWritable input2 (length input1) ins a ha in_size) (omega (arith, ha.size)) in
      let (seen₂, w₂, e₂, same₂, from₂, lines₂) =
        write_groups_lem output2 outgroup output1 b.neg b.groups 0 [] w₁
          (IsAnswer-IsWritable output2 (length output1) outs b hb out_size)
          (omega (arith, hb.size)) in
      let (w₃, e₃, same₃, lines₃) =
        last_part input2 a.consts seen w₂ (rw ca (const_hits-IsDistinct ins 0)) (
          rw ca (λ p m.
            let (f, l) = const_lem (length input1) ins a seen ha from p m in (f, omega arith))) in
      (
        w₃,
        rw (e₁, e₂) e₃,
        same₃ ∙ same₂ ∙ same₁,
        lines₃
            ∙ ap (λ ls. ls ++ last_lines input2 a.consts) lines₂
            ∙ ap
                (λ ls.
                  (ls ++ group_lines output2 outgroup output1 b.neg b.groups 0)
                  ++ last_lines input2 a.consts)
                lines₁
            ∙ append-append (group_lines input2 ingroup input1 a.neg a.groups 0)
                (group_lines output2 outgroup output1 b.neg b.groups 0)
                (last_lines input2 a.consts),
      )

  -- If there is a lock for each port of circuit 2, each lock of an input is to an input of circuit 1, to a
  -- constant, or none, and each lock of an output is to an output of circuit 1 or none, then
  -- `writePartialAns` ends, and reports no port of circuit 2 as written twice. The file has the groups of
  -- the inputs with the names and signs of their ports, then those of the outputs, and then the constants,
  -- if there are any, of an answer in which each port is in the group that its lock tells.
  pub write_partial_ans_lem :
      All (IsInputLock (length input1)) ins
      → All (IsOutputLock (length output1)) outs
      → (w : Written) × (write_partial_ans input1 input2 output1 output2 ins outs ≡ ok w)
        × (w.errors ≡ 0)
        × (a : Answer) × (b : Answer) × IsAnswer (length input1) ins a
        × (a.consts ≡ const_hits ins 0)
        × IsAnswer (length output1) outs b
        × (w.lines ≡ answer_lines input1 input2 output1 output2 a b)
  unfolding write_partial_ans
  write_partial_ans_lem in_locks out_locks =
      let (a, e₁, ha, ca) = translate_inputs-IsAnswer (length input1) ins in_locks in
      let (b, e₂, hb, cb) = translate_outputs-IsAnswer (length output1) outs out_locks in
      let (w, e₃, silent, lines) = write_output_lem a b ha ca hb in
      (w, rw (sym in_size, sym out_size, e₁, e₂) e₃, silent, a, b, ha, ca, hb, lines)
