-- ===== src/Netlist/Meaning.antt =====
-- What a netlist computes: the value of a node under an assignment to the inputs, by the Boolean
-- functions of the gates, independent of the code's own simulations.
use multi_bit_large_scale_bo.Base.{
  ℕ, zero, suc, ◌≤◌, ◌<◌, ◌≡◌, ◌≢◌, refl, ap, Bool, false, List, [], ◌∷◌, map, All, All-map, length,
  arith,
}
use multi_bit_large_scale_bo.Gate.{GateType, gate_function, complement}
use multi_bit_large_scale_bo.Netlist.{Ptr, Heap, null}

-- An assignment of values to the input nodes.
abbrev pub Assignment : Type 0
Assignment = Ptr → Bool

-- The value of `g`, from its fan-ins, where `depth` bounds the depth of the netlist.
unfoldable pub value : ℕ → Heap → Assignment → Ptr → Bool
value zero h ρ g = false
value (suc depth) h ρ g = elim (h g).type [
  | GateType.input ↦ ρ g
  | t ↦ gate_function t (complement (h g).inv (map (λ p. value depth h ρ p) (h g).fi))
]

-- The equation that the value of a node meets, given the values of its fan-ins.
abbrev pub local_value : Heap → Assignment → (Ptr → Bool) → Ptr → Bool
local_value h ρ v g = elim (h g).type [
  | GateType.input ↦ ρ g
  | t ↦ gate_function t (complement (h g).inv (map v (h g).fi))
]

-- There are `n` operands, and at most that many are complemented.
abbrev pub HasArity : ℕ → ℕ → List Ptr → Type 0
HasArity n inv fi = (length fi ≡ n) × (inv ≤ n)

-- The gates that a mapped netlist keeps: those of the library but ONEBUF, and the negated gates as
-- long as they have no complemented operand.
abbrev pub IsMapped : GateType → ℕ → List Ptr → Type 0
IsMapped GateType.input inv fi = Unit
IsMapped GateType.zerobuf inv fi = Unit
IsMapped GateType.output inv fi = HasArity 1 inv fi
IsMapped GateType.buf inv fi = HasArity 1 inv fi
IsMapped GateType.and inv fi = HasArity 2 inv fi
IsMapped GateType.or inv fi = HasArity 2 inv fi
IsMapped GateType.xor inv fi = HasArity 2 inv fi
IsMapped GateType.nand inv fi = (length fi ≡ 2) × (inv ≡ 0)
IsMapped GateType.nor inv fi = (length fi ≡ 2) × (inv ≡ 0)
IsMapped GateType.facarry inv fi = HasArity 3 inv fi
IsMapped _ inv fi = ⊥

-- A netlist without a cycle: every fan-in has a smaller rank, and all ranks are below `depth`.
pub record IsAcyclic (h : Heap) (rank : Ptr → ℕ) (depth : ℕ) : Type 0 where
  pub wired : (g : Ptr) → All (λ p. (p ≢ null) × (rank p < rank g)) (h g).fi
  pub bounded : (g : Ptr) → rank g < depth

-- A node in use has a positive rank. The other pointers lead to constants that nothing reads, or to nothing.
abbrev pub IsUsed : (Ptr → ℕ) → Ptr → Type 0
IsUsed rank p = (p ≢ null) × (0 < rank p)

-- A netlist without a cycle where the nodes in use are inputs and mapped gates, whose fan-ins are in use.
pub record IsNetlist (h : Heap) (rank : Ptr → ℕ) (depth : ℕ) : Type 0 where
  pub acyclic : IsAcyclic h rank depth
  pub open acyclic use *
  pub mapped : (g : Ptr) → 0 < rank g → IsMapped (h g).type (h g).inv (h g).fi
  pub used : (g : Ptr) → All (λ p. 0 < rank p) (h g).fi

pub All-and : (P Q : Ptr → Type 0) (ps : List Ptr) → All P ps → All Q ps → All (λ p. P p × Q p) ps
All-and P Q [] a b = tt
All-and P Q (p ∷ ps) a b = ((a.0, b.0), All-and P Q ps a.1 b.1)

-- The fan-ins are in use, and of smaller rank.
pub fan_ins-IsUsed :
    {h : Heap} {rank : Ptr → ℕ} {depth : ℕ}
    → IsNetlist h rank depth
    → (g : Ptr) → All (λ p. IsUsed rank p × (rank p < rank g)) (h g).fi
fan_ins-IsUsed {h} net g =
    All-map (h g).fi (λ p a. ((a.0.0, a.1), a.0.1))
      (All-and _ _ (h g).fi (net.wired g) (net.used g))

-- Two functions that agree on a list map it to one list.
map-congr : (f k : Ptr → Bool) (fi : List Ptr) → All (λ p. f p ≡ k p) fi → map f fi ≡ map k fi
map-congr f k [] e = refl
map-congr f k (p ∷ fi) e = λ i. e.0 i ∷ map-congr f k fi e.1 i

module _ {h : Heap} {rank : Ptr → ℕ} {depth : ℕ} (net : IsAcyclic h rank depth)
    (ρ : Assignment) where
  -- Past the rank of the node the bound on the depth does not change its value.
  value_stable : (d e : ℕ) (g : Ptr) → rank g < d → rank g < e → value d h ρ g ≡ value e h ρ g
  unfolding value
  value_stable zero e g p q = absurd (omega arith)
  value_stable (suc d) zero g p q = absurd (omega arith)
  value_stable (suc d) (suc e) g p q =
      ap
        (λ vs. elim (h g).type [
          | GateType.input ↦ ρ g
          | t ↦ gate_function t (complement (h g).inv vs)
        ])
        (map-congr _ _ (h g).fi (
          All-map (h g).fi (λ r less. value_stable d e r (omega arith) (omega arith))
            (net.wired g)))

  pub value_step : (g : Ptr) → value depth h ρ g ≡ local_value h ρ (λ p. value depth h ρ p) g
  unfolding value
  value_step g = value_stable depth (suc depth) g (net.bounded g) (omega (arith, net.bounded g))
