-- ===== src/Answer/Steps.antt =====
-- src/Matching.cpp: the loops of `writePartialAns` over the locks, step by step.
use multi_bit_large_scale_bo.Base.{
  ℕ, zero, suc, ◌+◌, ◌<◌, ◌≤◌, ◌≡◌, ◌≢◌, refl, sym, ap, ◌∙◌, List, [], ◌∷◌, ◌++◌, Bool, get_elem?,
  get_or, ==_ne, ==_refl, length, some, arith, All, ok, subst,
}
use native.Mathlib.Decide.{ℕ_discrete}
use multi_bit_large_scale_bo.Base.Int.{pos, negsuc}
use multi_bit_large_scale_bo.Answer.{
  Lock, push_at, put_at, Answer, add_match, translate_inputs, translate_outputs,
}
use multi_bit_large_scale_bo.Answer.Hits.{hits, const_hits}

-- A lock of an input: to one of `n1` ports, to a constant, or none.
abbrev pub IsInputLock : ℕ → Lock → Type 0
IsInputLock n1 (pos j, b) = j < n1
IsInputLock n1 (negsuc k, b) = k < 2

abbrev pub IsOutputLock : ℕ → Lock → Type 0
IsOutputLock n1 (pos j, b) = j < n1
IsOutputLock n1 (negsuc k, b) = k ≡ 0

-- The ports in the group of port `j`.
abbrev pub group : List (List ℕ) → ℕ → List ℕ
group gs j = get_or gs j []

++_nil : {A : Type 0} (g : List A) → g ++ [] ≡ g
++_nil [] = refl
++_nil (x ∷ g) = ap (λ l. x ∷ l) (++_nil g)

++_snoc : {A : Type 0} (g h : List A) (x : A) → (g ++ x ∷ []) ++ h ≡ g ++ x ∷ h
++_snoc [] h x = refl
++_snoc (y ∷ g) h x = ap (λ l. y ∷ l) (++_snoc g h x)

-- `gs'` is `gs` with `x` at the end of group `k`.
record IsPushed (gs gs' : List (List ℕ)) (k x : ℕ) : Type 0 where
  size : length gs' ≡ length gs
  here : group gs' k ≡ group gs k ++ x ∷ []
  there : (j : ℕ) → j ≢ k → group gs' j ≡ group gs j

push_at-IsPushed :
    (gs : List (List ℕ)) (k x : ℕ)
    → k < length gs
    → (gs' : List (List ℕ)) × (push_at gs k x ≡ ok gs') × IsPushed gs gs' k x
unfolding push_at
push_at-IsPushed [] k x less = absurd (omega arith)
push_at-IsPushed (g ∷ gs) zero x less =
    ((g ++ x ∷ []) ∷ gs, refl, record { size = refl; here = refl; there = there })
  where
    there : (j : ℕ) → j ≢ 0 → group ((g ++ x ∷ []) ∷ gs) j ≡ group (g ∷ gs) j
    there zero n = absurd (n refl)
    there (suc j) n = refl
push_at-IsPushed (g ∷ gs) (suc k) x less =
    let (gs', e, pushed) = push_at-IsPushed gs k x (omega arith) in
    (
      g ∷ gs',
      rw e,
      record { size = ap suc pushed.size; here = pushed.here; there = there gs' pushed },
    )
  where
    there :
        (gs' : List (List ℕ))
        → IsPushed gs gs' k x
        → (j : ℕ) → j ≢ suc k
        → group (g ∷ gs') j ≡ group (g ∷ gs) j
    there gs' pushed zero n = refl
    there gs' pushed (suc j) n = pushed.there j (omega arith)

-- `ne'` is `ne` with `b` at index `k`.
record IsPut (ne ne' : List Bool) (k : ℕ) (b : Bool) : Type 0 where
  size : length ne' ≡ length ne
  here : get_elem? ne' k ≡ some b
  there : (j : ℕ) → j ≢ k → get_elem? ne' j ≡ get_elem? ne j

put_at-IsPut :
    (ne : List Bool) (k : ℕ) (b : Bool)
    → k < length ne
    → (ne' : List Bool) × (put_at ne k b ≡ ok ne') × IsPut ne ne' k b
unfolding put_at
put_at-IsPut [] k b less = absurd (omega arith)
put_at-IsPut (c ∷ ne) zero b less =
    (b ∷ ne, refl, record { size = refl; here = refl; there = there })
  where
    there : (j : ℕ) → j ≢ 0 → get_elem? (b ∷ ne) j ≡ get_elem? (c ∷ ne) j
    there zero n = absurd (n refl)
    there (suc j) n = refl
put_at-IsPut (c ∷ ne) (suc k) b less =
    let (ne', e, put) = put_at-IsPut ne k b (omega arith) in
    (c ∷ ne', rw e, record { size = ap suc put.size; here = put.here; there = there ne' put })
  where
    there :
        (ne' : List Bool)
        → IsPut ne ne' k b
        → (j : ℕ) → j ≢ suc k
        → get_elem? (c ∷ ne') j ≡ get_elem? (c ∷ ne) j
    there ne' put zero n = refl
    there ne' put (suc j) n = put.there j (omega arith)

-- What the loop over the locks `ls`, from index `i` on, makes of the answer `a`.
pub record IsTranslated (ls : List Lock) (i : ℕ) (a a' : Answer) : Type 0 where
  pub size : length a'.groups ≡ length a.groups
  pub grouped : (j : ℕ) → group a'.groups j ≡ group a.groups j ++ hits j ls i
  pub flags :
      (p j : ℕ) (b : Bool) → get_elem? ls p ≡ some (pos j, b) → get_elem? a'.neg (i + p) ≡ some b
  pub before : (q : ℕ) → q < i → get_elem? a'.neg q ≡ get_elem? a.neg q
  pub flag_count : length a'.neg ≡ length a.neg

untouched : (i : ℕ) (a : Answer) → IsTranslated [] i a a
untouched i a = record {
  size = refl;
  grouped = λ j. sym (++_nil (group a.groups j));
  flags = λ p j b e. cc;
  before = λ q less. refl;
  flag_count = refl;
}

-- A lock that changes neither groups nor flags.
skip_lem :
    (k : ℕ) (b : Bool) (ls : List Lock) (i : ℕ) (a a' : Answer) (cs : List (Bool × ℕ))
    → IsTranslated ls (suc i) (record a { consts = cs }) a'
    → IsTranslated ((negsuc k, b) ∷ ls) i a a'
skip_lem k b ls i a a' cs t = record {
  size = t.size;
  grouped = t.grouped;
  flags = flags;
  before = λ q less. t.before q (omega arith);
  flag_count = t.flag_count;
}
  where
    flags :
        (p j : ℕ) (c : Bool)
        → get_elem? ((negsuc k, b) ∷ ls) p ≡ some (pos j, c)
        → get_elem? a'.neg (i + p) ≡ some c
    flags zero j c e = cc
    flags (suc p) j c e = rw (shift) (t.flags p j c e)
      where
        shift : i + suc p ≡ suc i + p
        shift = omega arith

-- A lock to port `k`, where the loop goes on from the new answer.
match_lem :
    (k : ℕ) (b : Bool) (ls : List Lock) (i : ℕ) (a : Answer) (gs : List (List ℕ)) (ne : List Bool)
    (a' : Answer)
    → IsPushed a.groups gs k i
    → IsPut a.neg ne i b
    → IsTranslated ls (suc i) (record { groups = gs; neg = ne; consts = a.consts }) a'
    → IsTranslated ((pos k, b) ∷ ls) i a a'
match_lem k b ls i a gs ne a' pushed put t = record {
  size = t.size ∙ pushed.size;
  grouped = grouped;
  flags = flags;
  before = λ q less. t.before q (omega arith) ∙ put.there q (omega arith);
  flag_count = t.flag_count ∙ put.size;
}
  where
    grouped : (j : ℕ) → group a'.groups j ≡ group a.groups j ++ hits j ((pos k, b) ∷ ls) i
    grouped j = elim (ℕ_discrete j k) [
      | yes e ↦
          subst (λ q. group a'.groups q ≡ group a.groups q ++ hits q ((pos k, b) ∷ ls) i) (sym e)
            (t.grouped k
              ∙ rw (pushed.here, ==_refl k) (++_snoc (group a.groups k) (hits k ls (suc i)) i))
      | no n ↦ rw (==_ne k j (λ e. n (sym e))) (t.grouped j ∙ rw (pushed.there j n))
    ]

    flags :
        (p j : ℕ) (c : Bool)
        → get_elem? ((pos k, b) ∷ ls) p ≡ some (pos j, c)
        → get_elem? a'.neg (i + p) ≡ some c
    flags zero j c e = rw (plus_zero) (t.before i (omega arith) ∙ put.here ∙ cc)
      where
        plus_zero : i + 0 ≡ i
        plus_zero = omega arith
    flags (suc p) j c e = rw (shift) (t.flags p j c e)
      where
        shift : i + suc p ≡ suc i + p
        shift = omega arith

-- A lock to port `k` within bounds, where the loop from the next index on succeeds.
add_match_lem :
    (k : ℕ) (b : Bool) (ls : List Lock) (i : ℕ) (a : Answer)
    → k < length a.groups
    → i < length a.neg
    → (a₁ : Answer) × (add_match i k b a ≡ ok a₁)
      × (length a₁.groups ≡ length a.groups)
      × (length a₁.neg ≡ length a.neg)
      × (a₁.consts ≡ a.consts)
      × ((a' : Answer) → IsTranslated ls (suc i) a₁ a' → IsTranslated ((pos k, b) ∷ ls) i a a')
unfolding add_match
add_match_lem k b ls i a in_groups in_flags =
    let (gs, e, pushed) = push_at-IsPushed a.groups k i in_groups in
    let (ne, e', put) = put_at-IsPut a.neg i b in_flags in
    (
      record { groups = gs; neg = ne; consts = a.consts },
      rw (e, e'),
      pushed.size,
      put.size,
      refl,
      λ a' t. match_lem k b ls i a gs ne a' pushed put t,
    )

pub translate_inputs_lem :
    (ls : List Lock) (i : ℕ) (a : Answer)
    → All (IsInputLock (length a.groups)) ls
    → i + length ls ≤ length a.neg
    → (a' : Answer) × (translate_inputs ls i a ≡ ok a')
      × IsTranslated ls i a a'
      × (a'.consts ≡ a.consts ++ const_hits ls i)
unfolding translate_inputs
translate_inputs_lem [] i a locks room = (a, refl, untouched i a, sym (++_nil a.consts))
translate_inputs_lem ((negsuc zero, b) ∷ ls) i a locks room =
    let (a', e, t, c) = translate_inputs_lem ls (suc i) a locks.1 (omega arith) in
    (a', e, skip_lem 0 b ls i a a' a.consts t, c)
translate_inputs_lem ((negsuc (suc zero), b) ∷ ls) i a locks room =
    let (a', e, t, c) =
      translate_inputs_lem ls (suc i) (record a { consts = a.consts ++ (b, i) ∷ [] }) locks.1
        (omega arith) in
    (
      a',
      e,
      skip_lem 1 b ls i a a' (a.consts ++ (b, i) ∷ []) t,
      c ∙ ++_snoc a.consts (const_hits ls (suc i)) (b, i),
    )
translate_inputs_lem ((negsuc (suc (suc k)), b) ∷ ls) i a locks room =
    absurd (omega (arith, locks.0))
translate_inputs_lem ((pos k, b) ∷ ls) i a locks room =
    let (a₁, e₁, gs, ne, cs, go) = add_match_lem k b ls i a locks.0 (omega arith) in
    let (a', e, t, c) =
      translate_inputs_lem ls (suc i) a₁ (subst (λ n. All (IsInputLock n) ls) (sym gs) locks.1)
        (omega arith) in
    (a', rw (e₁, e), go a' t, c ∙ ap (λ l. l ++ const_hits ls (suc i)) cs)

pub translate_outputs_lem :
    (ls : List Lock) (i : ℕ) (a : Answer)
    → All (IsOutputLock (length a.groups)) ls
    → i + length ls ≤ length a.neg
    → (a' : Answer) × (translate_outputs ls i a ≡ ok a')
      × IsTranslated ls i a a'
      × (a'.consts ≡ a.consts)
unfolding translate_outputs
translate_outputs_lem [] i a locks room = (a, refl, untouched i a, refl)
translate_outputs_lem ((negsuc zero, b) ∷ ls) i a locks room =
    let (a', e, t, c) = translate_outputs_lem ls (suc i) a locks.1 (omega arith) in
    (a', e, skip_lem 0 b ls i a a' a.consts t, c)
translate_outputs_lem ((negsuc (suc k), b) ∷ ls) i a locks room = absurd (omega (arith, locks.0))
translate_outputs_lem ((pos k, b) ∷ ls) i a locks room =
    let (a₁, e₁, gs, ne, cs, go) = add_match_lem k b ls i a locks.0 (omega arith) in
    let (a', e, t, c) =
      translate_outputs_lem ls (suc i) a₁ (subst (λ n. All (IsOutputLock n) ls) (sym gs) locks.1)
        (omega arith) in
    (a', rw (e₁, e), go a' t, c ∙ cs)
