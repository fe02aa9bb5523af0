-- ===== src/Answer/Writes.antt =====
-- src/Output.h: the loops of `writeOutput`, on ports that were not written before.
use Prim.Native.String.{String}
use multi_bit_large_scale_bo.Base.{
  get_or, sym, ap, ℕ, zero, suc, ◌+◌, ◌<◌, ◌≤◌, ◌≡◌, refl, ◌∙◌, ◌⊎◌, inl, inr, List, [], ◌∷◌, ◌++◌,
  Bool, false, get_elem?, length, some, arith, In, IsDistinct, ok, subst, ==_ne,
}
use multi_bit_large_scale_bo.Answer.{
  Line, end_of_group, port1, port2, const_port, Written, seen_before, name_at, flag_at, write_port,
  write_line, write_ports, write_groups, write_constants,
}
use multi_bit_large_scale_bo.Answer.Hits.{ports}
use multi_bit_large_scale_bo.Answer.Steps.{group}

seen_before_lem : (p : ℕ) (seen : List ℕ) → (In p seen → ⊥) → seen_before p seen ≡ false
unfolding seen_before
seen_before_lem p [] new = refl
seen_before_lem p (q ∷ qs) new =
    rw (==_ne p q (λ e. new (inl e))) (seen_before_lem p qs (λ m. new (inr m)))

-- A read within bounds.
read_lem {ℓ} :
    {A : Type ℓ} (xs : List A) (i : ℕ) (d : A)
    → i < length xs
    → get_elem? xs i ≡ some (get_or xs i d)
read_lem [] i d less = absurd (omega arith)
read_lem (x ∷ xs) zero d less = refl
read_lem (x ∷ xs) (suc i) d less = read_lem xs i d (omega arith)

name_lem :
    (names : List String) (i : ℕ) → i < length names → name_at names i ≡ ok (get_or names i "")
unfolding name_at
name_lem names i less = rw (name_at, read_lem names i "" less) refl

flag_lem : (neg : List Bool) (i : ℕ) → i < length neg → flag_at neg i ≡ ok (get_or neg i false)
unfolding flag_at
flag_lem neg i less = rw (flag_at, read_lem neg i false less) refl

pub append-append : (xs ys zs : List Line) → (xs ++ ys) ++ zs ≡ xs ++ (ys ++ zs)
append-append [] ys zs = refl
append-append (x ∷ xs) ys zs = ap (λ us. x ∷ us) (append-append xs ys zs)

pub append_nil : (xs : List Line) → xs ++ [] ≡ xs
append_nil [] = refl
append_nil (x ∷ xs) = ap (λ us. x ∷ us) (append_nil xs)

-- The lines of one group and then the others.
regroup :
    (old : List Line) (title first : Line) (ports rest : List Line)
    → ((((old ++ title ∷ []) ++ first ∷ []) ++ ports) ++ end_of_group ∷ []) ++ rest
      ≡ old ++ title ∷ first ∷ (ports ++ end_of_group ∷ rest)
regroup [] title first ports rest =
    ap (λ ls. title ∷ first ∷ ls) (append-append ports (end_of_group ∷ []) rest)
regroup (l ∷ old) title first ports rest = ap (λ ls. l ∷ ls) (regroup old title first ports rest)

-- A port that was not written before is recorded, and nothing is reported.
write_port_lem :
    (line : Line) (p : ℕ) (seen : List ℕ) (w : Written)
    → (In p seen → ⊥)
    → (w' : Written) × (write_port line p seen w ≡ (p ∷ seen, w'))
      × (w'.errors ≡ w.errors)
      × (w'.lines ≡ w.lines ++ line ∷ [])
unfolding write_port
write_port_lem line p seen w new = (
  record { lines = w.lines ++ line ∷ []; errors = w.errors },
  rw (seen_before_lem p seen new),
  refl,
  refl,
)

module _ (names2 : List String) where
  -- The lines of a group of ports, with their names and signs, of the groups, and of the constants.
  abbrev pub port_lines : List Bool → List ℕ → List Line
  port_lines neg [] = []
  port_lines neg (p ∷ ps) = port2 (get_or neg p false) (get_or names2 p "") ∷ port_lines neg ps

  abbrev pub group_lines : Line → List String → List Bool → List (List ℕ) → ℕ → List Line
  group_lines title names1 neg [] i = []
  group_lines title names1 neg (g ∷ gs) i =
      title
      ∷ port1 (get_or names1 i "")
      ∷ (port_lines neg g ++ end_of_group ∷ group_lines title names1 neg gs (suc i))

  abbrev pub constant_lines : List (Bool × ℕ) → List Line
  constant_lines [] = end_of_group ∷ []
  constant_lines ((b, p) ∷ cs) = const_port b (get_or names2 p "") ∷ constant_lines cs

  write_ports_lem :
      (neg : List Bool) (ps seen : List ℕ) (w : Written)
      → IsDistinct ps
      → ((p : ℕ) → In p ps → (In p seen → ⊥) × (p < length neg) × (p < length names2))
      → (seen' : List ℕ) × (w' : Written) × (write_ports names2 neg ps seen w ≡ ok (seen', w'))
        × (w'.errors ≡ w.errors)
        × ((q : ℕ) → In q seen' → In q seen ⊎ In q ps)
        × (w'.lines ≡ w.lines ++ port_lines neg ps)
  unfolding write_ports
  write_ports_lem neg [] seen w distinct new =
      (seen, w, refl, refl, λ q m. inl m, sym (append_nil w.lines))
  write_ports_lem neg (p ∷ ps) seen w distinct new =
      let (fresh, in_flags, in_names) = new p (inl refl) in
      let b = get_or neg p false in
      let s = get_or names2 p "" in
      let (w₁, e₃, same, line) = write_port_lem (port2 b s) p seen w fresh in
      let (seen', w', e₄, same', from, lines) =
        write_ports_lem neg ps (p ∷ seen) w₁ distinct.1 (λ q m.
          let n = new q (inr m) in
          (
            λ r. elim r [ inl e ↦ distinct.0 (subst (λ x. In x ps) e m) | inr old ↦ n.0 old ],
            n.1,
            n.2,
          )) in
      (
        seen',
        w',
        rw (flag_lem neg p in_flags, name_lem names2 p in_names, e₃, e₄),
        same' ∙ same,
        λ q m. ground (arith, from q m),
        lines
            ∙ ap (λ ls. ls ++ port_lines neg ps) line
            ∙ append-append w.lines (port2 b s ∷ []) (port_lines neg ps),
      )

  -- The groups can be written after the ports in `seen`: none is there, none is in two groups, and all are in
  -- bounds.
  pub record IsWritable (n : ℕ) (gs : List (List ℕ)) (seen : List ℕ) : Type 0 where
    pub once : (j : ℕ) → IsDistinct (group gs j)
    pub fresh : (j p : ℕ) → In p (group gs j) → (In p seen → ⊥) × (p < n) × (p < length names2)
    pub apart : (j k p : ℕ) → In p (group gs j) → In p (group gs k) → j ≡ k

  pub write_groups_lem :
      (title : Line) (names1 : List String) (neg : List Bool) (gs : List (List ℕ)) (i : ℕ)
      (seen : List ℕ) (w : Written)
      → IsWritable (length neg) gs seen
      → i + length gs ≤ length names1
      → (seen' : List ℕ) × (w' : Written) × (write_groups names2 title names1 neg gs i seen w
          ≡ ok (seen', w'))
        × (w'.errors ≡ w.errors)
        × ((q : ℕ) → In q seen' → In q seen ⊎ ((j : ℕ) × In q (group gs j)))
        × (w'.lines ≡ w.lines ++ group_lines title names1 neg gs i)
  unfolding write_groups
  write_groups_lem title names1 neg [] i seen w h room =
      (seen, w, refl, refl, λ q m. inl m, sym (append_nil w.lines))
  write_groups_lem title names1 neg (g ∷ gs) i seen w h room =
      let s = get_or names1 i "" in
      let (seen₁, w₁, e₂, same, from, lines) =
        write_ports_lem neg g seen (write_line (port1 s) (write_line title w)) (h.once 0)
          (h.fresh 0) in
      let (seen', w', e₃, same', from', lines') =
        write_groups_lem title names1 neg gs (suc i) seen₁ (write_line end_of_group w₁)
          (rest seen₁ from) (omega arith) in
      (
        seen',
        w',
        rw (name_lem names1 i (omega arith), e₂, e₃),
        same' ∙ same,
        λ q m. elim (from' q m) [
          | inl m₁ ↦ elim (from q m₁) [ inl old ↦ inl old | inr here ↦ inr (0, here) ]
          | inr (j, there) ↦ inr (suc j, there)
        ],
        lines'
            ∙ ap (λ ls. (ls ++ end_of_group ∷ []) ++ group_lines title names1 neg gs (suc i)) lines
            ∙ regroup w.lines title (port1 s) (port_lines neg g)
                (group_lines title names1 neg gs (suc i)),
      )
    where
      rest :
          (seen₁ : List ℕ)
          → ((q : ℕ) → In q seen₁ → In q seen ⊎ In q g)
          → IsWritable (length neg) gs seen₁
      rest seen₁ from = record {
        once = λ j. h.once (suc j);
        fresh = λ j p m.
            let f = h.fresh (suc j) p m in
            (
              λ r. elim (from p r) [
                | inl old ↦ f.0 old
                | inr here ↦ omega (arith, h.apart 0 (suc j) p here m)
              ],
              f.1,
              f.2,
            );
        apart = λ j k p m m'. omega (arith, h.apart (suc j) (suc k) p m m');
      }

  pub write_constants_lem :
      (cs : List (Bool × ℕ)) (seen : List ℕ) (w : Written)
      → IsDistinct (ports cs)
      → ((p : ℕ) → In p (ports cs) → (In p seen → ⊥) × (p < length names2))
      → (w' : Written) × (write_constants names2 cs seen w ≡ ok w')
        × (w'.errors ≡ w.errors)
        × (w'.lines ≡ w.lines ++ constant_lines cs)
  unfolding write_constants
  write_constants_lem [] seen w distinct new = (write_line end_of_group w, refl, refl, refl)
  write_constants_lem ((b, p) ∷ cs) seen w distinct new =
      let (fresh, in_names) = new p (inl refl) in
      let s = get_or names2 p "" in
      let (w₁, e₂, same, line) = write_port_lem (const_port b s) p seen w fresh in
      let (w', e₃, same', lines) = write_constants_lem cs (p ∷ seen) w₁ distinct.1 (λ q m.
        let n = new q (inr m) in
        (
          λ r. elim r [ inl e ↦ distinct.0 (subst (λ x. In x (ports cs)) e m) | inr old ↦ n.0 old ],
          n.1,
        )) in
      (
        w',
        rw (name_lem names2 p in_names, e₂, e₃),
        same' ∙ same,
        lines
            ∙ ap (λ ls. ls ++ constant_lines cs) line
            ∙ append-append w.lines (const_port b s ∷ []) (constant_lines cs),
      )
