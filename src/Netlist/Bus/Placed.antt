-- ===== src/Netlist/Bus/Placed.antt =====
-- src/Netlist.h: after `setBus`, every port is in a bus, and its indices lead to buses that it is in.
use Prim.Native.String.{String}
use multi_bit_large_scale_bo.Base.{
  ℕ, ◌<◌, ◌≡◌, ◌≢◌, ◌↔◌, refl, sym, ◌∙◌, subst, ◌⊎◌, inl, inr, arith, Bool-cases, Option-cases,
  List, [], ◌∷◌, ◌++◌, map, length, get_elem?, get_elem?-append_left, get_elem?-append_last, Bool,
  true, false, Option, none, some, In, In-append, In-append_left, In-append_right, All, ==_iff,
  ==_ne, ==_refl, ok,
}
use native.Mathlib.Decide.{ℕ_discrete}
use multi_bit_large_scale_bo.Base.Int.{pos, negsuc}
use multi_bit_large_scale_bo.Netlist.{Ptr, Heap, null}
use multi_bit_large_scale_bo.Netlist.Registry.{Registry, modify, node_of}
use multi_bit_large_scale_bo.Netlist.Registry.Edges.{Known}
use multi_bit_large_scale_bo.Netlist.Bus.{
  is_unset, enter_node, place_node, place_names, all_occupied, smaller_bus, extra_node, add_bus,
  add_buses, place_port, place_ports,
}

-- The indices of a node lead to buses that it is in, its own bus is among them unless it has none, and no bus is empty.
pub record IsPlacing (h : Heap) (bs : List (List Ptr)) : Type 0 where
  pub member :
      (p : Ptr) (b : ℕ)
      → In b (h p).bus_indices
      → (bus : List Ptr) × (get_elem? bs b ≡ some bus) × In p bus
  pub own :
      (p : Ptr)
      → ((h p).bus_idx ≡ negsuc 0) ⊎ (b : ℕ) × ((h p).bus_idx ≡ pos b) × In b (h p).bus_indices
  pub occupied : all_occupied bs ≡ true

-- What the loops keep.
pub record Keeps (m m' : Registry) : Type 0 where
  pub types : (p : Ptr) → (m'.heap p).type ≡ (m.heap p).type
  pub gates : m'.gate ≡ m.gate
  pub names : m'.name_to_node ≡ m.name_to_node

Keeps-trans : (m m' m'' : Registry) → Keeps m m' → Keeps m' m'' → Keeps m m''
Keeps-trans m m' m'' k l = record {
  types = λ p. l.types p ∙ k.types p;
  gates = l.gates ∙ k.gates;
  names = l.names ∙ k.names;
}

enter_node-IsPlacing :
    (h : Heap) (bs : List (List Ptr)) (b : ℕ) (p : Ptr) (bus : List Ptr)
    → get_elem? bs b ≡ some bus
    → In p bus
    → IsPlacing h bs
    → IsPlacing (modify (enter_node b) p h) bs
enter_node-IsPlacing h bs b p bus at inside pl = record {
  member = λ q c n. elim (ℕ_discrete q p) [
    | yes same ↦ here q c same (rw ((==_iff q p).1 same) at n)
    | no other ↦ pl.member q c (rw (==_ne q p other) at n)
  ];
  own = λ q. elim (ℕ_discrete q p) [
    | yes same ↦
        rw ((==_iff q p).1 same)
          (inr (b, refl, In-append_right b (h q).bus_indices (b ∷ []) (inl refl)))
    | no other ↦ rw (==_ne q p other) (pl.own q)
  ];
  occupied = pl.occupied;
}
  where
    here :
        (q : Ptr) (c : ℕ)
        → q ≡ p
        → In c ((h q).bus_indices ++ b ∷ [])
        → (bus' : List Ptr) × (get_elem? bs c ≡ some bus') × In q bus'
    here q c same n = elim (In-append c (h q).bus_indices (b ∷ []) n) [
      | inl old ↦ pl.member q c old
      | inr (inl e) ↦ (bus, rw e at, rw same inside)
      | inr (inr nil) ↦ absurd nil
    ]

all_occupied-append_one :
    (bs : List (List Ptr)) (p : Ptr) (ps : List Ptr)
    → all_occupied bs ≡ true
    → all_occupied (bs ++ (p ∷ ps) ∷ []) ≡ true
all_occupied-append_one [] p ps e = refl
all_occupied-append_one ([] ∷ bs) p ps e = cc
all_occupied-append_one ((q ∷ qs) ∷ bs) p ps e = all_occupied-append_one bs p ps e

-- One bus more.
append_one-IsPlacing :
    (h : Heap) (bs : List (List Ptr)) (p : Ptr) (ps : List Ptr)
    → IsPlacing h bs
    → IsPlacing h (bs ++ (p ∷ ps) ∷ [])
append_one-IsPlacing h bs p ps pl = record {
  member = λ q c n.
      let (bus, at, inside) = pl.member q c n in
      (bus, get_elem?-append_left bs ((p ∷ ps) ∷ []) bus c at, inside);
  own = pl.own;
  occupied = all_occupied-append_one bs p ps pl.occupied;
}

place_names_lem :
    (b : ℕ) (ss : List String) (m : Registry)
    → Known m ss
    → (m' : Registry) × (place_names b ss m ≡ ok (map (node_of m) ss, m'))
      × Keeps m m'
      × (m'.bus_set ≡ m.bus_set)
      × ((bs : List (List Ptr)) (bus : List Ptr)
          → get_elem? bs b ≡ some bus
          → ((p : Ptr) → In p (map (node_of m) ss) → In p bus)
          → IsPlacing m.heap bs
          → IsPlacing m'.heap bs)
unfolding place_names
place_names_lem b [] m known = (
  m,
  refl,
  record { types = λ p. refl; gates = refl; names = refl },
  refl,
  λ bs bus at all pl. pl,
)
place_names_lem b (s ∷ ss) m (first, rest) =
    let (m', e, keeps, same, placing) = place_names_lem b ss (place_node b (node_of m s) m) rest in
    (
      m',
      rw (==_ne (node_of m s) null first, e) refl,
      Keeps-trans m (place_node b (node_of m s) m) m'
          (record { types = λ p. ground arith; gates = refl; names = refl }) keeps,
      same,
      λ bs bus at all pl.
          placing bs bus at (λ p n. all p (inr n))
            (enter_node-IsPlacing m.heap bs b (node_of m s) bus at (all (node_of m s) (inl refl))
              pl),
    )

-- Every bus that is named has a name, and every name leads to a node.
abbrev pub Named : Registry → List (List String) → Type 0
Named m sss = All (λ ss. (0 < length ss) × Known m ss) sss

Known-names :
    (m m' : Registry) (ss : List String)
    → m'.name_to_node ≡ m.name_to_node
    → Known m ss
    → Known m' ss
Known-names m m' ss e known =
    subst
      (λ (f : String → Option Ptr). All (λ s. elim (f s) [ none ↦ null | some p ↦ p ] ≢ null) ss)
      (sym e) known

Named-names :
    (m m' : Registry) (sss : List (List String))
    → m'.name_to_node ≡ m.name_to_node
    → Named m sss
    → Named m' sss
Named-names m m' [] e named = tt
Named-names m m' (ss ∷ sss) e ((some_, known), rest) =
    ((some_, Known-names m m' ss e known), Named-names m m' sss e rest)

-- What the loop over the ports keeps: a port that has a bus keeps one.
abbrev pub IsFilling : Registry → Registry → Type 0
IsFilling m m' =
    Keeps m m'
    × IsPlacing m'.heap m'.bus_set
    × ((q : Ptr) → is_unset (m.heap q).bus_idx ≡ false → is_unset (m'.heap q).bus_idx ≡ false)

module _ (module_index : ℕ) (std_sort : (ℕ → ℕ → Bool) → List ℕ → List ℕ)
    (sort_keeps : (less : ℕ → ℕ → Bool) (xs : List ℕ) (x : ℕ)
      → In x (std_sort less xs) ↔ In x xs) where
  extra_node_lem :
      (s : String) (ss : List String) (m : Registry)
      → (es : List Ptr) × (extra_node module_index std_sort (s ∷ ss) m ≡ ok es)
  unfolding extra_node
  extra_node_lem s ss m = elim (Option-cases (m.name_to_node "n84")) [
    | inl missing ↦ ([], rw (extra_node, missing) refl)
    | inr (p, found) ↦ rw (extra_node, found) (_, refl)
  ]

  add_bus_lem :
      (s : String) (ss : List String) (m : Registry)
      → Known m (s ∷ ss)
      → IsPlacing m.heap m.bus_set
      → (m' : Registry) × (add_bus module_index std_sort (s ∷ ss) m ≡ ok m')
        × Keeps m m'
        × IsPlacing m'.heap m'.bus_set
  unfolding add_bus
  add_bus_lem s ss m known pl =
      let (m', e, keeps, same, placing) = place_names_lem (length m.bus_set) (s ∷ ss) m known in
      let (es, f) = extra_node_lem s ss m' in
      let bus = map (node_of m) (s ∷ ss) ++ es in
      (
        record m' { bus_set = m'.bus_set ++ bus ∷ [] },
        rw (add_bus, e, f) refl,
        record { types = keeps.types; gates = keeps.gates; names = keeps.names },
        subst (λ bs. IsPlacing m'.heap (bs ++ bus ∷ [])) (sym same)
            (placing (m.bus_set ++ bus ∷ []) bus (get_elem?-append_last m.bus_set bus)
              (λ p n. In-append_left p (map (node_of m) (s ∷ ss)) es n)
              (append_one-IsPlacing m.heap m.bus_set (node_of m s) (map (node_of m) ss ++ es) pl)),
      )

  pub add_buses_lem :
      (sss : List (List String)) (m : Registry)
      → Named m sss
      → IsPlacing m.heap m.bus_set
      → (m' : Registry) × (add_buses module_index std_sort sss m ≡ ok m')
        × Keeps m m'
        × IsPlacing m'.heap m'.bus_set
  unfolding add_buses
  add_buses_lem [] m named pl =
      (m, refl, record { types = λ p. refl; gates = refl; names = refl }, pl)
  add_buses_lem ([] ∷ sss) m ((some_, _), rest) pl = absurd (omega arith)
  add_buses_lem ((s ∷ ss) ∷ sss) m ((some_, known), rest) pl =
      let (m₁, e, keeps, pl₁) = add_bus_lem s ss m known pl in
      let (m₂, f, keeps₂, pl₂) = add_buses_lem sss m₁ (Named-names m m₁ sss keeps.names rest) pl₁ in
      (m₂, rw (add_buses, e) f, Keeps-trans m m₁ m₂ keeps keeps₂, pl₂)

  place_port_lem :
      (p : Ptr) (m : Registry)
      → IsPlacing m.heap m.bus_set
      → IsFilling m (place_port module_index std_sort p m)
        × (is_unset ((place_port module_index std_sort p m).heap p).bus_idx ≡ false)
  unfolding place_port
  place_port_lem p m pl = elim (Bool-cases (is_unset (m.heap p).bus_idx)) [
    | inl unset ↦
        rw (place_port, unset)
          (
            (
              record { types = λ q. ground arith; gates = refl; names = refl },
              enter_node-IsPlacing m.heap (m.bus_set ++ (p ∷ []) ∷ []) (length m.bus_set) p (p ∷ [])
                  (get_elem?-append_last m.bus_set (p ∷ [])) (inl refl)
                  (append_one-IsPlacing m.heap m.bus_set p [] pl),
              λ q set. ground arith,
            ),
            rw (==_refl p) refl,
          )
    | inr set ↦
        rw (place_port, set)
          (
            (
              record { types = λ q. ground arith; gates = refl; names = refl },
              record {
                member = λ q b n. sorted_member q b n;
                own = λ q. sorted_own q;
                occupied = pl.occupied;
              },
              λ q old. ground arith,
            ),
            rw (==_refl p) set,
          )
  ]
    where
      less : ℕ → ℕ → Bool
      less = smaller_bus m.bus_set

      sorted : Heap
      sorted =
          modify (λ n. record n { bus_indices = std_sort (smaller_bus m.bus_set) n.bus_indices }) p
            m.heap

      sorted_In : (q : Ptr) (b : ℕ) → In b (sorted q).bus_indices ↔ In b (m.heap q).bus_indices
      sorted_In q b = ground (arith, sort_keeps (smaller_bus m.bus_set) (m.heap q).bus_indices b)

      sorted_member :
          (q : Ptr) (b : ℕ)
          → In b (sorted q).bus_indices
          → (bus : List Ptr) × (get_elem? m.bus_set b ≡ some bus) × In q bus
      sorted_member q b n = pl.member q b ((sorted_In q b).0 n)

      same_idx : (q : Ptr) → (sorted q).bus_idx ≡ (m.heap q).bus_idx
      same_idx q = ground arith

      sorted_own :
          (q : Ptr)
          → ((sorted q).bus_idx ≡ negsuc 0)
            ⊎ (b : ℕ) × ((sorted q).bus_idx ≡ pos b) × In b (sorted q).bus_indices
      sorted_own q = elim (pl.own q) [
        | inl e ↦ inl (same_idx q ∙ e)
        | inr (b, e, n) ↦ inr (b, same_idx q ∙ e, (sorted_In q b).1 n)
      ]

  pub place_ports_lem :
      (ps : List Ptr) (m : Registry)
      → IsPlacing m.heap m.bus_set
      → IsFilling m (place_ports module_index std_sort ps m)
        × ((p : Ptr)
            → In p ps
            → is_unset ((place_ports module_index std_sort ps m).heap p).bus_idx ≡ false)
  unfolding place_ports
  place_ports_lem [] m pl =
      ((record { types = λ q. refl; gates = refl; names = refl }, pl, λ q e. e), λ p n. absurd n)
  place_ports_lem (p ∷ ps) m pl =
      let m₁ = place_port module_index std_sort p m in
      let ((keeps, pl₁, stays), set) = place_port_lem p m pl in
      let ((keeps₂, pl₂, stays₂), all) = place_ports_lem ps m₁ pl₁ in
      (
        (
          Keeps-trans m m₁ (place_ports module_index std_sort ps m₁) keeps keeps₂,
          pl₂,
          λ q e. stays₂ q (stays q e),
        ),
        λ q n. elim n [
          | inl same ↦
              subst
                (λ (r : Ptr).
                  is_unset ((place_ports module_index std_sort ps m₁).heap r).bus_idx ≡ false)
                (sym same) (stays₂ p set)
          | inr later ↦ all q later
        ],
      )
