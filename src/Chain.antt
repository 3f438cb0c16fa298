-- ===== src/Chain.antt =====
-- The intrusive list of src/list.c, over a store of nodes. A pointer is the index of a node.
pub mod Links
pub mod Removal
mod Tests
use schedi.Prelude.{ℕ, Bool, true, false, Option, none, some}
use schedi.Queue.{update}

-- `struct schedi_list_node` and `struct schedi_list`, with the store that the pointers lead to.
pub record Node : Type 0 where
  pub prev : Option ℕ
  pub next : Option ℕ

pub record Chain : Type 0 where
  pub nodes : ℕ → Node
  pub first : Option ℕ
  pub last : Option ℕ

abbrev pub store : ℕ → Node → Chain → Chain
store i node c = record c { nodes = update c.nodes i node }

-- `schedi_list_init`
pub init : Chain → Chain
init c = record c { first = none; last = none }

-- `schedi_list_add`
pub add : ℕ → Chain → Chain
add node c =
    let c₁ = store node (record { prev = c.last; next = none }) c in
    let c₂ : Chain = elim c₁.last [
      | some l ↦ store l (record (c₁.nodes l) { next = some node }) c₁
      | none ↦ record c₁ { first = some node }
    ] in
    record c₂ { last = some node }

-- `schedi_list_remove`
pub remove : ℕ → Chain → Chain
remove node c =
    let c₁ : Chain = elim (c.nodes node).prev [
      | some p ↦ store p (record (c.nodes p) { next = (c.nodes node).next }) c
      | none ↦ record c { first = (c.nodes node).next }
    ] in
    elim (c₁.nodes node).next [
      | some n ↦ store n (record (c₁.nodes n) { prev = (c₁.nodes node).prev }) c₁
      | none ↦ record c₁ { last = (c₁.nodes node).prev }
    ]

-- `schedi_list_is_empty`
pub is_empty : Chain → Bool
is_empty c = elim c.first [ none ↦ true | some n ↦ false ]
