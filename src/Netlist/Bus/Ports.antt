-- ===== src/Netlist/Bus/Ports.antt =====
-- src/Netlist.h: `setBus` ends with every input and output in a bus.
use Prim.Native.String.{String}
use multi_bit_large_scale_bo.Base.{
  ℕ, zero, suc, ◌≡◌, ◌↔◌, refl, sym, ap, ◌∙◌, subst, inl, inr, List, [], ◌∷◌, length, replicate,
  get_elem?, Bool, true, false, none, some, In, ok,
}
use multi_bit_large_scale_bo.Base.Int.{pos}
use multi_bit_large_scale_bo.Gate.{GateType}
use multi_bit_large_scale_bo.Netlist.{Ptr}
use multi_bit_large_scale_bo.Netlist.Registry.{Registry}
use multi_bit_large_scale_bo.Netlist.Registry.Invariant.{IsPort, IsRegistered}
use multi_bit_large_scale_bo.Netlist.Bus.{is_unset, place_ports, set_bus}
use multi_bit_large_scale_bo.Netlist.Bus.Placed.{IsPlacing, Named, add_buses_lem, place_ports_lem}

get_elem?-In : {A : Type 0} (xs : List A) (k : ℕ) (x : A) → get_elem? xs k ≡ some x → In x xs
get_elem?-In [] k x e = absurd (apart e)
  where
    apart : none ≡ some x → ⊥
    apart e = cc
get_elem?-In (y ∷ ys) zero x e = inl (sym (some_inj e))
  where
    some_inj : some y ≡ some x → y ≡ x
    some_inj e = cc
get_elem?-In (y ∷ ys) (suc k) x e = inr (get_elem?-In ys k x e)

-- The own bus of a port, which it is in.
abbrev pub HasBus : Registry → Ptr → Type 0
HasBus m p =
    (b : ℕ) × (bus : List Ptr) × ((m.heap p).bus_idx ≡ pos b)
    × (get_elem? m.bus_set b ≡ some bus)
    × In p bus

module _ (module_index : ℕ) (std_sort : (ℕ → ℕ → Bool) → List ℕ → List ℕ)
    (sort_keeps : (less : ℕ → ℕ → Bool) (xs : List ℕ) (x : ℕ)
      → In x (std_sort less xs) ↔ In x xs) where
  -- If the netlist is in order, its buses are, every named bus has a name, and the names lead to nodes, then `setBus` ends: no bus
  -- is empty, the indices of each node lead to buses that it is in, and every input and output has its own bus among them.
  pub set_bus_lem :
      (sss : List (List String)) (m : Registry)
      → IsRegistered m
      → IsPlacing m.heap m.bus_set
      → Named m sss
      → (m' : Registry) × (set_bus module_index std_sort sss m ≡ ok m')
        × IsPlacing m'.heap m'.bus_set
        × ((p : Ptr) → IsPort (m'.heap p).type → HasBus m' p)
  unfolding set_bus
  set_bus_lem sss m r pl named =
      let (m₁, e, keeps₁, pl₁) = add_buses_lem module_index std_sort sort_keeps sss m named pl in
      let m₂ = place_ports module_index std_sort (m₁.gate GateType.input) m₁ in
      let ((keeps₂, pl₂, stays₂), inputs) =
        place_ports_lem module_index std_sort sort_keeps (m₁.gate GateType.input) m₁ pl₁ in
      let m₃ = place_ports module_index std_sort (m₂.gate GateType.output) m₂ in
      let ((keeps₃, pl₃, stays₃), outputs) =
        place_ports_lem module_index std_sort sort_keeps (m₂.gate GateType.output) m₂ pl₂ in
      let type : (p : Ptr) → (m₃.heap p).type ≡ (m.heap p).type =
        λ p. keeps₃.types p ∙ keeps₂.types p ∙ keeps₁.types p in
      let gates : m₂.gate ≡ m.gate = keeps₂.gates ∙ keeps₁.gates in
      (
        record m₃ { bus_signature = replicate (length m₃.bus_set) 0 },
        rw (set_bus, e, pl₃.occupied) refl,
        pl₃,
        λ p port. placed p m₃ pl₃ (elim port [
          | inl is_input ↦ stays₃ p (
              inputs p (
                subst (λ (g : GateType → List Ptr). In p (g GateType.input)) (sym keeps₁.gates)
                  (listed p GateType.input (sym (type p) ∙ is_input) (inl refl))))
          | inr is_output ↦ outputs p (
              subst (λ (g : GateType → List Ptr). In p (g GateType.output)) (sym gates)
                (listed p GateType.output (sym (type p) ∙ is_output) (inr refl)))
        ]),
      )
    where
      listed : (p : Ptr) (t : GateType) → (m.heap p).type ≡ t → IsPort t → In p (m.gate t)
      listed p t is_t port =
          let (k, at, found) = r.listed p (subst IsPort (sym is_t) port) in
          get_elem?-In (m.gate t) k p
            (subst (λ (u : GateType). get_elem? (m.gate u) k ≡ some p) is_t found)

      placed :
          (p : Ptr) (n : Registry)
          → IsPlacing n.heap n.bus_set
          → is_unset (n.heap p).bus_idx ≡ false
          → HasBus n p
      placed p n pl' set = elim (pl'.own p) [
        | inl unset ↦ absurd (apart (sym (ap is_unset unset) ∙ set))
        | inr (b, at, k) ↦
            let (bus, found, inside) = pl'.member p b k in (b, bus, at, found, inside)
      ]
        where
          apart : true ≡ false → ⊥
          apart e = cc
