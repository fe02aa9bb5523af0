-- ===== src/Netlist/Trace/Outputs.antt =====
-- src/Netlist.h: what `TraceInputs` leaves in `_pi_idx` of each output.
use multi_bit_large_scale_bo.Base.{
  ℕ, zero, suc, ◌≡◌, ◌≢◌, ◌↔◌, refl, sym, ◌∙◌, subst, inl, inr, arith, List, [], ◌∷◌, ◌++◌, In,
  IsDistinct, ==_ne, ==_refl, Run, ok,
}
use multi_bit_large_scale_bo.Base.Int.{ℤ}
use multi_bit_large_scale_bo.Base.Sets.{IsOrdered, set_insert_all_lem}
use multi_bit_large_scale_bo.Gate.{GateType}
use multi_bit_large_scale_bo.Netlist.{Ptr, Heap}
use multi_bit_large_scale_bo.Netlist.Meaning.{Assignment, value, IsAcyclic}
use multi_bit_large_scale_bo.Netlist.Registry.{modify}
use multi_bit_large_scale_bo.Netlist.Trace.{
  less_ℤ, collect_fan_ins, collect_pi, unique, trace_output, trace_inputs,
}
use multi_bit_large_scale_bo.Netlist.Trace.Support.{
  less_ℤ-IsLinear, IsSupport, collect_pi_lem, value-Reaches,
}

-- Two heaps that differ in what `CollectPI` does not read.
record IsSame (h h' : Heap) : Type 0 where
  types : (p : Ptr) → (h' p).type ≡ (h p).type
  fis : (p : Ptr) → (h' p).fi ≡ (h p).fi
  idxs : (p : Ptr) → (h' p).idx ≡ (h p).idx

collect_pi_same :
    (h h' : Heap)
    → IsSame h h'
    → (fuel : ℕ) (g : Ptr) (acc : List ℤ) → collect_pi fuel h' g acc ≡ collect_pi fuel h g acc
unfolding collect_pi
collect_pi_same h h' same zero g acc = refl
collect_pi_same h h' same (suc fuel) g acc = λ i. elim (same.types g i) as (λ t. Run (List ℤ)) [
  | GateType.input ↦ ok (acc ++ same.idxs g i ∷ [])
  | t ↦ collect_fan_ins (λ p is. collect_pi_same h h' same fuel p is i) (same.fis g i) acc
]

-- The inputs of an output, in order and each once, and its value depends on no others.
pub record IsTraced (depth : ℕ) (h : Heap) (out : Ptr) (is : List ℤ) : Type 0 where
  pub ordered : IsOrdered less_ℤ is
  pub inputs : (i : ℤ) → In i is ↔ IsSupport h out i
  pub determined :
      (ρ σ : Assignment)
      → ((q : Ptr) → (h q).type ≡ GateType.input → In (h q).idx is → ρ q ≡ σ q)
      → value depth h ρ out ≡ value depth h σ out

module _ {h : Heap} {rank : Ptr → ℕ} {depth : ℕ} (net : IsAcyclic h rank depth)
    (sort : List ℤ → List ℤ)
    (sort_ordered : (xs : List ℤ) → IsOrdered less_ℤ xs → sort xs ≡ xs) where
  unique_lem : (xs : List ℤ) → ((x : ℤ) → In x (unique xs) ↔ In x xs) × IsOrdered less_ℤ (unique xs)
  unfolding unique
  unique_lem xs =
      let (keeps, p) = set_insert_all_lem less_ℤ less_ℤ-IsLinear xs [] tt in
      (
        λ x. (λ m. elim ((keeps x).0 m) [ inl n ↦ n | inr n ↦ absurd n ], λ m. (keeps x).1 (inl m)),
        p,
      )

  trace_output_lem :
      (out : Ptr) (k : Heap)
      → IsSame h k
      → (k out).pi_idx ≡ []
      → (is : List ℤ) × (trace_output sort depth out k
          ≡ ok (modify (λ n. record n { pi_idx = is }) out k))
        × IsTraced depth h out is
  unfolding trace_output
  trace_output_lem out k same empty =
      let (is, e, has) = collect_pi_lem net depth out (net.bounded out) [] in
      let (keeps, ordered) = unique_lem is in
      let sound : (i : ℤ) → In i (unique is) ↔ IsSupport h out i = λ i. (
        λ m. elim ((has i).0 ((keeps i).0 m)) [ inl n ↦ absurd n | inr s ↦ s ],
        λ s. (keeps i).1 ((has i).1 (inr s)),
      ) in
      (
        unique is,
        rw (empty, collect_pi_same h k same depth out [], e, sort_ordered (unique is) ordered) refl,
        record {
          ordered = ordered;
          inputs = sound;
          determined = λ ρ σ agree.
              value-Reaches net depth ρ σ out
                (λ q r is_input. agree q is_input ((sound (h q).idx).1 (q, r, is_input, refl)));
        },
      )

  trace_inputs_from :
      (outs : List Ptr) (k : Heap)
      → IsSame h k
      → IsDistinct outs
      → ((out : Ptr) → In out outs → (k out).pi_idx ≡ [])
      → (k' : Heap) × (trace_inputs sort depth outs k ≡ ok k')
        × ((p : Ptr) → (In p outs → ⊥) → (k' p).pi_idx ≡ (k p).pi_idx)
        × ((out : Ptr) → In out outs → IsTraced depth h out (k' out).pi_idx)
  unfolding trace_inputs
  trace_inputs_from [] k same distinct empty = (k, refl, λ p n. refl, λ out m. absurd m)
  trace_inputs_from (out ∷ outs) k same (new, distinct) empty =
      let (is, e, traced) = trace_output_lem out k same (empty out (inl refl)) in
      let k₁ = modify (λ n. record n { pi_idx = is }) out k in
      let (k', f, others, rest) =
        trace_inputs_from outs k₁
          (record {
            types = λ p. changed_type p is ∙ same.types p;
            fis = λ p. changed_fi p is ∙ same.fis p;
            idxs = λ p. changed_idx p is ∙ same.idxs p;
          })
          distinct
          (λ p m.
            other_pi p is (λ q. new (subst (λ (x : Ptr). In x outs) q m)) ∙ empty p (inr m)) in
      (
        k',
        rw e f,
        λ p n. others p (λ m. n (inr m)) ∙ other_pi p is (λ q. n (inl q)),
        λ p m. elim m [
          | inl q ↦
              subst (λ (x : Ptr). IsTraced depth h x (k' x).pi_idx) (sym q)
                (subst (λ js. IsTraced depth h out js) (sym (others out new ∙ this_pi is)) traced)
          | inr later ↦ rest p later
        ],
      )
    where
      changed_type :
          (p : Ptr) (is : List ℤ)
          → (modify (λ n. record n { pi_idx = is }) out k p).type ≡ (k p).type
      changed_type p is = ground arith

      changed_fi :
          (p : Ptr) (is : List ℤ) → (modify (λ n. record n { pi_idx = is }) out k p).fi ≡ (k p).fi
      changed_fi p is = ground arith

      changed_idx :
          (p : Ptr) (is : List ℤ) → (modify (λ n. record n { pi_idx = is }) out k p).idx ≡ (k p).idx
      changed_idx p is = ground arith

      other_pi :
          (p : Ptr) (is : List ℤ)
          → p ≢ out
          → (modify (λ n. record n { pi_idx = is }) out k p).pi_idx ≡ (k p).pi_idx
      other_pi p is n = rw (==_ne p out n) refl

      this_pi : (is : List ℤ) → (modify (λ n. record n { pi_idx = is }) out k out).pi_idx ≡ is
      this_pi is = rw (==_refl out) refl

  -- On a netlist without a cycle, for distinct outputs whose `_pi_idx` is empty, and a sort that leaves a list in order as
  -- it is: `TraceInputs` ends, the `_pi_idx` of each output has the indices of the inputs that the output reaches, in order and each once, and the value of
  -- the output is the same under assignments that agree on the inputs with those indices.
  pub trace_inputs_lem :
      (outs : List Ptr)
      → IsDistinct outs
      → ((out : Ptr) → In out outs → (h out).pi_idx ≡ [])
      → (h' : Heap) × (trace_inputs sort depth outs h ≡ ok h')
        × ((out : Ptr) → In out outs → IsTraced depth h out (h' out).pi_idx)
  trace_inputs_lem outs distinct empty =
      let (h', e, _, traced) =
        trace_inputs_from outs h (record { types = λ p. refl; fis = λ p. refl; idxs = λ p. refl })
          distinct empty in
      (h', e, traced)
