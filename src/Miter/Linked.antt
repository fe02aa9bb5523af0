-- ===== src/Miter/Linked.antt =====
-- The words that a round prepares stand for assignments that the matching allows.
use multi_bit_large_scale_bo.Base.{
  ℕ, zero, suc, ◌+◌, ◌/◌, ◌%◌, ◌<◌, ◌≤◌, ◌≡◌, ◌≢◌, refl, sym, ◌∙◌, subst, ◌⊎◌, inl, inr, Bool, true,
  false, List, [], ◌∷◌, ◌==◌, ==_ne, ==_refl, All, All-map, In, IsDistinct, arith, Bool-cases,
}
use native.Mathlib.Decide.{ℕ_discrete}
use multi_bit_large_scale_bo.Netlist.{Ptr}
use multi_bit_large_scale_bo.Netlist.Words.{PiValue}
use multi_bit_large_scale_bo.Miter.{
  Link, pnum, put, put_bit, link_bit, link_word, member, assign_pattern, assign_patterns,
  assign_links, fill_random, assign_random,
}
use multi_bit_large_scale_bo.Miter.Agree.{c1_ports, c2_ports}
use multi_bit_large_scale_bo.Miter.Verdict.{member_iff}

-- At index `i` each matched input of circuit 2 has the bit of its partner, or the complement.
abbrev pub IsLinked : ℕ → PiValue → List Link → Type 0
IsLinked i pi = All (λ l. pi l.c2 i ≡ link_bit l.neg (pi l.c1 i))

pub assign_links_frame :
    (ls : List Link) (pi : PiValue) (p : Ptr)
    → (In p (c2_ports ls) → ⊥)
    → assign_links ls pi p ≡ pi p
unfolding assign_links
assign_links_frame [] pi p out = refl
assign_links_frame (l ∷ ls) pi p out =
    assign_links_frame ls (put pi l.c2 (link_word l.neg (pi l.c1))) p (λ m. out (inr m))
    ∙ rw (==_ne p l.c2 (λ e. out (inl e)))

-- After the loop over the pairs each matched input of circuit 2 has the word of its partner.
pub assign_links-IsLinked :
    (ls : List Link) (pi : PiValue) (i : ℕ)
    → IsDistinct (c2_ports ls)
    → All (λ l. (In l.c1 (c2_ports ls) → ⊥)) ls
    → IsLinked i (assign_links ls pi) ls
unfolding assign_links
assign_links-IsLinked [] pi i distinct apart = tt
assign_links-IsLinked (l ∷ ls) pi i distinct apart =
    let pi' = put pi l.c2 (link_word l.neg (pi l.c1)) in
    (
      rw (
        assign_links_frame ls pi' l.c2 distinct.0,
        assign_links_frame ls pi' l.c1 (λ m. apart.0 (inr m)),
        ==_refl l.c2,
        ==_ne l.c1 l.c2 (λ e. apart.0 (inl e)),
      ),
      assign_links-IsLinked ls pi' i distinct.1 (All-map ls (λ k out m. out (inr m)) apart.1),
    )

pub assign_pattern_other :
    (set : List Ptr) (j val : ℕ) (pi : PiValue) (p : Ptr) (i : ℕ)
    → (In p set → ⊥)
    → assign_pattern set j val pi p i ≡ pi p i
unfolding assign_pattern
assign_pattern_other [] j val pi p i out = refl
assign_pattern_other (q ∷ set) j val pi p i out =
    assign_pattern_other set j (val / 2) (put_bit pi q j (val % 2 == 1)) p i (λ m. out (inr m))
    ∙ rw (==_ne p q (λ e. out (inl e)))

pub assign_patterns_other :
    (n : ℕ) (set : List Ptr) (base j : ℕ) (pi : PiValue) (p : Ptr) (i : ℕ)
    → (In p set → ⊥)
    → assign_patterns n set base j pi p i ≡ pi p i
unfolding assign_patterns
assign_patterns_other zero set base j pi p i out = refl
assign_patterns_other (suc n) set base j pi p i out =
    assign_patterns_other n set base (suc j) (assign_pattern set j (base + j) pi) p i out
    ∙ assign_pattern_other set j (base + j) pi p i out

-- The bits of a fresh pair.
fill_random_other :
    (rand : ℕ → ℕ) (l : Link) (n j k : ℕ) (pi : PiValue) (p : Ptr) (i : ℕ)
    → p ≢ l.c1
    → p ≢ l.c2
    → fill_random rand l n j k pi p i ≡ pi p i
unfolding fill_random
fill_random_other rand l zero j k pi p i n1 n2 = refl
fill_random_other rand l (suc n) j k pi p i n1 n2 =
    fill_random_other rand l n (suc j) (suc k) _ p i n1 n2 ∙ rw (==_ne p l.c1 n1, ==_ne p l.c2 n2)

put_bit_other :
    (pi : PiValue) (q : Ptr) (j : ℕ) (b : Bool) (p : Ptr) (i : ℕ)
    → i < j
    → put_bit pi q j b p i ≡ pi p i
put_bit_other pi q j b p i less = ground arith

fill_random_below :
    (rand : ℕ → ℕ) (l : Link) (n j k : ℕ) (pi : PiValue) (p : Ptr) (i : ℕ)
    → i < j
    → fill_random rand l n j k pi p i ≡ pi p i
unfolding fill_random
fill_random_below rand l zero j k pi p i less = refl
fill_random_below rand l (suc n) j k pi p i less =
    let val = rand k % 2 == 1 in
    fill_random_below rand l n (suc j) (suc k) _ p i (omega arith)
    ∙ put_bit_other (put_bit pi l.c1 j val) l.c2 j (link_bit l.neg val) p i less
    ∙ put_bit_other pi l.c1 j val p i less

fill_random_linked :
    (rand : ℕ → ℕ) (l : Link) (n j k : ℕ) (pi : PiValue) (i : ℕ)
    → l.c1 ≢ l.c2
    → j ≤ i
    → i < j + n
    → fill_random rand l n j k pi l.c2 i ≡ link_bit l.neg (fill_random rand l n j k pi l.c1 i)
unfolding fill_random
fill_random_linked rand l zero j k pi i ne low high = absurd (omega arith)
fill_random_linked rand l (suc n) j k pi i ne low high = elim (ℕ_discrete j i) [
  | yes now ↦
      rw
        (
          fill_random_below rand l n (suc j) (suc k) _ l.c2 i (omega arith),
          fill_random_below rand l n (suc j) (suc k) _ l.c1 i (omega arith),
          ==_refl l.c2,
          ==_refl l.c1,
          ==_ne l.c1 l.c2 ne,
        )
        (ground arith)
  | no later ↦ fill_random_linked rand l n (suc j) (suc k) _ i ne (omega arith) (omega arith)
]

module _ (rand : ℕ → ℕ) (l : Link) (ls : List Link) (seen : List Ptr) (k : ℕ) (pi : PiValue) where
  assign_random_known :
      member l.c1 seen ≡ true
      → assign_random rand (l ∷ ls) seen k pi
        ≡ assign_random rand ls seen k (put pi l.c2 (link_word l.neg (pi l.c1)))
  unfolding assign_random
  assign_random_known e = rw e

  assign_random_fresh :
      member l.c1 seen ≡ false
      → assign_random rand (l ∷ ls) seen k pi
        ≡ assign_random rand ls (l.c1 ∷ seen) (k + pnum) (fill_random rand l pnum 0 k pi)
  unfolding assign_random
  assign_random_fresh e = rw e

-- A random round writes the matched ports alone, and not the inputs of circuit 1 it has met before.
pub assign_random_other :
    (rand : ℕ → ℕ) (ls : List Link) (seen : List Ptr) (k : ℕ) (pi : PiValue) (p : Ptr) (i : ℕ)
    → (In p (c2_ports ls) → ⊥)
    → In p seen ⊎ (In p (c1_ports ls) → ⊥)
    → (assign_random rand ls seen k pi).0 p i ≡ pi p i
unfolding assign_random
assign_random_other rand [] seen k pi p i out fixed = refl
assign_random_other rand (l ∷ ls) seen k pi p i out fixed =
    let pi' = put pi l.c2 (link_word l.neg (pi l.c1)) in
    let pi'' = fill_random rand l pnum 0 k pi in
    elim (Bool-cases (member l.c1 seen)) [
      | inl known ↦ rw known (
          assign_random_other rand ls seen k pi' p i (λ m. out (inr m)) (ground arith)
          ∙ rw (==_ne p l.c2 (λ e. out (inl e))))
      | inr fresh ↦ rw fresh (
          assign_random_other rand ls (l.c1 ∷ seen) (k + pnum) pi'' p i (λ m. out (inr m))
            (ground arith)
          ∙ fill_random_other rand l pnum 0 k pi p i (λ e. ground (arith, member_iff l.c1 seen))
              (λ e. out (inl e)))
    ]

whole_word : (i : ℕ) → i < pnum → (0 ≤ i) × (i < 0 + pnum)
whole_word i less = omega arith

-- After a random round each matched input of circuit 2 has the bits of its partner.
pub assign_random-IsLinked :
    (rand : ℕ → ℕ) (ls : List Link) (seen : List Ptr) (k : ℕ) (pi : PiValue) (i : ℕ)
    → i < pnum
    → IsDistinct (c2_ports ls)
    → All (λ l. (In l.c1 (c2_ports ls) → ⊥)) ls
    → All (λ l. (In l.c2 (c1_ports ls) → ⊥)) ls
    → IsLinked i (assign_random rand ls seen k pi).0 ls
assign_random-IsLinked rand [] seen k pi i less distinct apart apart' = tt
assign_random-IsLinked rand (l ∷ ls) seen k pi i less distinct apart apart' =
    let pi' = put pi l.c2 (link_word l.neg (pi l.c1)) in
    let pi'' = fill_random rand l pnum 0 k pi in
    let rest1 = All-map ls (λ (x : Link) out m. out (inr m)) apart.1 in
    let rest2 = All-map ls (λ (x : Link) out m. out (inr m)) apart'.1 in
    elim (Bool-cases (member l.c1 seen)) [
      | inl known ↦
          subst (λ (r : PiValue × ℕ). IsLinked i r.0 (l ∷ ls))
            (sym (assign_random_known rand l ls seen k pi known))
            (
              rw (
                assign_random_other rand ls seen k pi' l.c2 i distinct.0
                    (inr (λ m. apart'.0 (inr m))),
                assign_random_other rand ls seen k pi' l.c1 i (λ m. apart.0 (inr m))
                    (inl ((member_iff l.c1 seen).0 known)),
                ==_refl l.c2,
                ==_ne l.c1 l.c2 (λ e. apart.0 (inl e)),
              ),
              assign_random-IsLinked rand ls seen k pi' i less distinct.1 rest1 rest2,
            )
      | inr fresh ↦
          subst (λ (r : PiValue × ℕ). IsLinked i r.0 (l ∷ ls))
            (sym (assign_random_fresh rand l ls seen k pi fresh))
            (
              rw
                  (
                    assign_random_other rand ls (l.c1 ∷ seen) (k + pnum) pi'' l.c2 i distinct.0
                        (inr (λ m. apart'.0 (inr m))),
                    assign_random_other rand ls (l.c1 ∷ seen) (k + pnum) pi'' l.c1 i
                        (λ m. apart.0 (inr m)) (inl (inl refl)),
                  )
                  (fill_random_linked rand l pnum 0 k pi i (λ e. apart.0 (inl e))
                    (whole_word i less).0 (whole_word i less).1),
              assign_random-IsLinked rand ls (l.c1 ∷ seen) (k + pnum) pi'' i less distinct.1 rest1
                  rest2,
            )
    ]
