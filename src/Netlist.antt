-- ===== src/Netlist.antt =====
-- src/Netlist.h: the nodes of a netlist, and the heap that their pointers lead into.
pub mod Words
pub mod Meaning
pub mod Signals
pub mod Registry
pub mod Bus
pub mod Trace
pub mod Simplify
pub mod Equation
pub mod Signature
use multi_bit_large_scale_bo.Base.{ℕ, List, [], Bool, false}
use multi_bit_large_scale_bo.Base.Int.{ℤ, pos, negsuc}
use multi_bit_large_scale_bo.Gate.{GateType, Signal}
use Prim.Native.String.{String}

-- `Node*`.
abbrev pub Ptr : Type 0
Ptr = ℕ

-- `NULL`.
abbrev pub null : Ptr
null = 0

-- `class Node`; `_supportVal`, which the constructor leaves unset, is kept by the matcher's model.
pub record Node : Type 0 where
  pub name : String
  pub type : GateType
  pub fi : List Ptr
  pub fo : List Ptr
  pub pi : List Ptr
  pub bus : List Ptr
  pub pi_idx : List ℤ
  pub bus_indices : List ℕ
  pub signature : List ℕ
  pub same_input_bit : List Ptr
  pub link_left : Ptr
  pub link_right : Ptr
  pub head : Ptr
  pub idx : ℤ
  pub bit_idx : ℤ
  pub bus_idx : ℤ
  pub bit_len : ℕ
  pub inv : ℕ
  pub group_cnt : ℕ
  pub priority : ℤ
  pub signal : Signal
  pub is_flip : Bool

-- The constructor `Node(s, t)`, for the object at `self`.
abbrev pub new_node : Ptr → String → GateType → Node
new_node self s t = record {
  name = s;
  type = t;
  fi = [];
  fo = [];
  pi = [];
  bus = [];
  pi_idx = [];
  bus_indices = [];
  signature = [];
  same_input_bit = [];
  link_left = null;
  link_right = null;
  head = self;
  idx = pos 0;
  bit_idx = negsuc 0;
  bus_idx = negsuc 0;
  bit_len = 0;
  inv = 0;
  group_cnt = 0;
  priority = pos 0;
  signal = Signal.dontcare;
  is_flip = false;
}

-- What each pointer leads to.
abbrev pub Heap : Type 0
Heap = Ptr → Node
