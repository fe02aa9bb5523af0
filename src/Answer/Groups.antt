-- ===== src/Answer/Groups.antt =====
-- src/Matching.cpp: what `writePartialAns` hands to `writeOutput`.
use multi_bit_large_scale_bo.Base.{
  ℕ, zero, suc, ◌+◌, ◌≡◌, ◌↔◌, refl, sym, ap, ◌∙◌, List, [], ◌++◌, Bool, false, get_elem?, length,
  replicate, some, arith, In, All, IsDistinct, ok, subst,
}
use multi_bit_large_scale_bo.Base.Int.{pos}
use multi_bit_large_scale_bo.Answer.{
  Lock, Answer, translate_inputs, translate_outputs, empty_answer,
}
use multi_bit_large_scale_bo.Answer.Hits.{
  hits, const_hits, IsLockedTo, hits-IsLockedTo, hits-IsDistinct,
}
use multi_bit_large_scale_bo.Answer.Steps.{
  IsInputLock, IsOutputLock, group, IsTranslated, translate_inputs_lem, translate_outputs_lem,
}

-- An answer for the locks `ls`: the group of each port of circuit 1 has exactly the ports locked to
-- it, each once, with their signs.
pub record IsAnswer (n1 : ℕ) (ls : List Lock) (a : Answer) : Type 0 where
  pub size : length a.groups ≡ n1
  pub flag_count : length a.neg ≡ length ls
  pub members : (j p : ℕ) → In p (group a.groups j) ↔ IsLockedTo ls (pos j) p
  pub once : (j : ℕ) → IsDistinct (group a.groups j)
  pub signs : (p j : ℕ) (b : Bool) → get_elem? ls p ≡ some (pos j, b) → get_elem? a.neg p ≡ some b

group-replicate : (n j : ℕ) → group (replicate n []) j ≡ []
group-replicate zero j = refl
group-replicate (suc n) zero = refl
group-replicate (suc n) (suc j) = group-replicate n j

length-replicate {ℓ} : {A : Type ℓ} (n : ℕ) (x : A) → length (replicate n x) ≡ n
length-replicate zero x = refl
length-replicate (suc n) x = ap suc (length-replicate n x)

-- From the empty vectors the loop makes an answer.
translated-IsAnswer :
    (n1 : ℕ) (ls : List Lock) (a : Answer)
    → IsTranslated ls 0 (empty_answer n1 (length ls)) a
    → IsAnswer n1 ls a
unfolding empty_answer
translated-IsAnswer n1 ls a t = record {
  size = t.size ∙ length-replicate n1 [];
  flag_count = t.flag_count ∙ length-replicate (length ls) false;
  members = λ j p. rw (all_hits j) (
      subst (λ q. In q (hits j ls 0) ↔ IsLockedTo ls (pos j) p) (plus p)
        (hits-IsLockedTo j ls 0 p));
  once = λ j. rw (all_hits j) (hits-IsDistinct j ls 0);
  signs = λ p j b e. subst (λ q. get_elem? a.neg q ≡ some b) (plus p) (t.flags p j b e);
}
  where
    all_hits : (j : ℕ) → group a.groups j ≡ hits j ls 0
    all_hits j = t.grouped j ∙ ap (λ g. g ++ hits j ls 0) (group-replicate n1 j)

    plus : (p : ℕ) → 0 + p ≡ p
    plus p = omega arith

-- The loop over the locks of the inputs of circuit 2 succeeds if each lock is to one of `n1` ports,
-- to a constant, or none: its groups and signs are those of the locks, and its constants are the
-- locks to constants in their order.
pub translate_inputs-IsAnswer :
    (n1 : ℕ) (ls : List Lock)
    → All (IsInputLock n1) ls
    → (a : Answer) × (translate_inputs ls 0 (empty_answer n1 (length ls)) ≡ ok a)
      × IsAnswer n1 ls a
      × (a.consts ≡ const_hits ls 0)
unfolding empty_answer
translate_inputs-IsAnswer n1 ls locks =
    let (a, e, t, c) =
      translate_inputs_lem ls 0 (empty_answer n1 (length ls))
        (subst (λ n. All (IsInputLock n) ls) (sym (length-replicate n1 [])) locks)
        (omega (arith, length-replicate (length ls) false)) in
    (a, e, translated-IsAnswer n1 ls a t, c)

-- The loop over the locks of the outputs of circuit 2 succeeds if each lock is to one of `n1` ports
-- or none: its groups and signs are those of the locks.
pub translate_outputs-IsAnswer :
    (n1 : ℕ) (ls : List Lock)
    → All (IsOutputLock n1) ls
    → (a : Answer) × (translate_outputs ls 0 (empty_answer n1 (length ls)) ≡ ok a)
      × IsAnswer n1 ls a
      × (a.consts ≡ [])
unfolding empty_answer
translate_outputs-IsAnswer n1 ls locks =
    let (a, e, t, c) =
      translate_outputs_lem ls 0 (empty_answer n1 (length ls))
        (subst (λ n. All (IsOutputLock n) ls) (sym (length-replicate n1 [])) locks)
        (omega (arith, length-replicate (length ls) false)) in
    (a, e, translated-IsAnswer n1 ls a t, c)
