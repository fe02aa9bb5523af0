-- ===== src/Matching/Prepare/Loops.antt =====
-- src/Matching.cpp: the loops of the preparation end, and what they keep of the lists that they pass through.
use multi_bit_large_scale_bo.Base.{
  ℕ, zero, suc, ◌<◌, ◌≤◌, ◌≡◌, ◌↔◌, refl, sym, ap, ◌∙◌, ◌⊎◌, inl, inr, arith, Bool-cases, List, [],
  ◌∷◌, Bool, true, false, length, get_elem?_lem, ltb, ==_iff, ==_ne, In, Run, ok, undefined,
}
use native.Mathlib.Decide.{ℕ_discrete}
use multi_bit_large_scale_bo.Matching.State.{update}
use multi_bit_large_scale_bo.Matching.Prepare.Sort.{Pairwise}
use multi_bit_large_scale_bo.Matching.Prepare.{
  Bus, ports, size_at, value_or, filter_run, read_all, sort_run, fill_run,
}

pub size_at_lem : (bs : List Bus) (b : ℕ) → b < length bs → (k : ℕ) × (size_at bs b ≡ ok k)
unfolding size_at
size_at_lem bs b less =
    let (x, e, m) = get_elem?_lem bs b less in (length (ports x), rw (size_at, e) refl)

pub size_at-undefined : (bs : List Bus) (b : ℕ) → length bs ≤ b → size_at bs b ≡ undefined
unfolding size_at
size_at-undefined [] b above = refl
size_at-undefined (x ∷ bs) zero above = absurd (omega arith)
size_at-undefined (x ∷ bs) (suc b) above = size_at-undefined bs b (omega arith)

-- A call that ends with a value.
abbrev pub Returns : {A : Type 0} → Run A → Type 0
Returns {A} r = (a : A) × (r ≡ ok a)

pub filter_run_lem :
    (test : ℕ → Run Bool) (xs : List ℕ)
    → ((x : ℕ) → In x xs → Returns (test x))
    → (ys : List ℕ) × (filter_run test xs ≡ ok ys)
      × ((x : ℕ) → In x ys ↔ In x xs × (test x ≡ ok true))
      × (Pairwise (λ x y. x < y) xs → Pairwise (λ x y. x < y) ys)
unfolding filter_run
filter_run_lem test [] returns = ([], refl, λ x. (λ m. absurd m, λ m. m.0), λ p. p)
filter_run_lem test (x ∷ xs) returns =
    let (ys, e, keeps, ordered) = filter_run_lem test xs (λ z m. returns z (inr m)) in
    let (pass, f) = returns x (inl refl) in
    elim (Bool-cases pass) [
      | inl yes_ ↦ (
        x ∷ ys,
        rw (filter_run, f, yes_, e) refl,
        λ z. (
          λ m. elim m [
            | inl same ↦ (inl same, ap test same ∙ f ∙ ap (λ b. ok b) yes_)
            | inr later ↦ (inr ((keeps z).0 later).0, ((keeps z).0 later).1)
          ],
          λ (m, t). elim m [ inl same ↦ inl same | inr later ↦ inr ((keeps z).1 (later, t)) ],
        ),
        λ (first, rest). (λ y m. first y ((keeps y).0 m).0, ordered rest),
      )
      | inr no_ ↦ (
        ys,
        rw (filter_run, f, no_, e) refl,
        λ z. (
          λ m. (inr ((keeps z).0 m).0, ((keeps z).0 m).1),
          λ (m, t). elim m [
            | inl same ↦ absurd (apart (ap (λ b. ok b) (sym no_) ∙ sym f ∙ ap test (sym same) ∙ t))
            | inr later ↦ (keeps z).1 (later, t)
          ],
        ),
        λ (first, rest). ordered rest,
      )
    ]
  where
    apart : ok false ≡ ok true → ⊥
    apart e = cc

pub read_all_lem :
    (key : ℕ → Run ℕ) (xs : List ℕ)
    → ((x : ℕ) → In x xs → Returns (key x))
    → Returns (read_all key xs)
unfolding read_all
read_all_lem key [] returns = ([], refl)
read_all_lem key (x ∷ xs) returns =
    let (k, e) = returns x (inl refl) in
    let (ks, f) = read_all_lem key xs (λ z m. returns z (inr m)) in (k ∷ ks, rw (e, f) refl)

-- Where every key is read, the result is the list or the sorted list.
pub sort_run_lem :
    (sorter : (ℕ → ℕ) → List ℕ → List ℕ) (key : ℕ → Run ℕ) (xs : List ℕ)
    → ((x : ℕ) → In x xs → Returns (key x))
    → (sort_run sorter key xs ≡ ok xs) × (length xs < 2)
      ⊎ (sort_run sorter key xs ≡ ok (sorter (λ x. value_or (key x)) xs))
unfolding sort_run
sort_run_lem sorter key xs returns = elim (Bool-cases (ltb (length xs) 2)) [
  | inl short ↦ inl (rw short refl, ground arith)
  | inr long ↦ let (ks, e) = read_all_lem key xs returns in inr (rw (long, e) refl)
]

-- One key that cannot be read is enough.
read_all-undefined :
    (key : ℕ → Run ℕ) (xs : List ℕ) (x : ℕ)
    → ((z : ℕ) → In z xs → Returns (key z) ⊎ (key z ≡ undefined))
    → In x xs
    → key x ≡ undefined
    → read_all key xs ≡ undefined
unfolding read_all
read_all-undefined key [] x cases m e = absurd m
read_all-undefined key (y ∷ ys) x cases m e = elim (cases y (inl refl)) [
  | inr bad ↦ rw bad refl
  | inl (k, f) ↦ elim m [
    | inl same ↦ absurd (apart k (sym f ∙ ap key (sym same) ∙ e))
    | inr later ↦ rw (f, read_all-undefined key ys x (λ z n. cases z (inr n)) later e) refl
  ]
]
  where
    apart : (k : ℕ) → ok k ≡ undefined → ⊥
    apart k e = cc

pub sort_run-undefined :
    (sorter : (ℕ → ℕ) → List ℕ → List ℕ) (key : ℕ → Run ℕ) (xs : List ℕ) (x : ℕ)
    → ((z : ℕ) → In z xs → Returns (key z) ⊎ (key z ≡ undefined))
    → 2 ≤ length xs
    → In x xs
    → key x ≡ undefined
    → sort_run sorter key xs ≡ undefined
unfolding sort_run
sort_run-undefined sorter key xs x cases long m e = elim (Bool-cases (ltb (length xs) 2)) [
  | inl short ↦ absurd (not_short short)
  | inr more ↦ rw (more, read_all-undefined key xs x cases m e) refl
]
  where
    not_short : ltb (length xs) 2 ≡ true → ⊥
    not_short short = ground arith

-- A property of every entry of the vector that a loop fills.
pub fill_run_lem :
    {A : Type 0} (Q : ℕ → List A → Type 0) (f : ℕ → Run (List A)) (n : ℕ)
    → ((i : ℕ) → Q i [])
    → ((i : ℕ) → i < n → (x : List A) × (f i ≡ ok x) × Q i x)
    → (v : ℕ → List A) × (fill_run f n ≡ ok v) × ((i : ℕ) → Q i (v i))
unfolding fill_run
fill_run_lem Q f zero empty each = (λ i. [], refl, empty)
fill_run_lem {A = A} Q f (suc n) empty each =
    let (v, e, all) = fill_run_lem Q f n empty (λ i less. each i (omega arith)) in
    let (x, g, q) = each n (omega arith) in
    (update v n x, rw (e, g) refl, λ i. entry v x q all i (ℕ_discrete i n))
  where
    entry :
        (v : ℕ → List A) (x : List A)
        → Q n x
        → ((i : ℕ) → Q i (v i))
        → (i : ℕ) → Dec (i ≡ n)
        → Q i (update v n x i)
    entry v x q all i (yes same) = rw (same, (==_iff n n).1 refl) q
    entry v x q all i (no other) = rw (==_ne i n other) (all i)
