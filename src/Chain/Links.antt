-- ===== src/Chain/Links.antt =====
-- The list that a chain of src/list.c holds, forwards and backwards.
use schedi.Prelude.{
  ℕ, ◌≡◌, refl, sym, ◌∙◌, ap, true, false, ◌==◌, Option, none, some, List, [], ◌∷◌, ◌++◌, arith,
}
use mathlib.Core.Path.{subst}
use schedi.Queue.{update}
use schedi.Chain.{Node, Chain, init, add, is_empty}

-- The pointer to the first node of a list, or `after` of an empty one.
abbrev pub front : List ℕ → Option ℕ → Option ℕ
front [] after = after
front (i ∷ is) after = some i

-- The pointer to its last node, or `before`.
abbrev pub back : Option ℕ → List ℕ → Option ℕ
back before [] = before
back before (i ∷ is) = back (some i) is

-- Each node points to its neighbours; `before` and `after` are those of the whole run.
abbrev pub Linked : (ℕ → Node) → (before : Option ℕ) → List ℕ → (after : Option ℕ) → Type 0
Linked nodes before [] after = Unit
Linked nodes before (i ∷ is) after =
    ((nodes i).prev ≡ before) × ((nodes i).next ≡ front is after) × Linked nodes (some i) is after

abbrev pub Absent : ℕ → List ℕ → Type 0
Absent i [] = Unit
Absent i (j ∷ js) = ((i == j) ≡ false) × Absent i js

abbrev pub Distinct : List ℕ → Type 0
Distinct [] = Unit
Distinct (i ∷ is) = Absent i is × Distinct is

-- A chain holds a list of different nodes.
pub record Holds (c : Chain) (is : List ℕ) : Type 0 where
  pub first : c.first ≡ front is none
  pub last : c.last ≡ back none is
  pub linked : Linked c.nodes none is none
  pub distinct : Distinct is

pub init-Holds : (c : Chain) → Holds (init c) []
unfolding init
init-Holds c = record { first = refl; last = refl; linked = tt; distinct = tt }

pub is_empty-Holds :
    (c : Chain) (is : List ℕ) → Holds c is → is_empty c ≡ elim is [ [] ↦ true | i ∷ js ↦ false ]
unfolding is_empty
is_empty-Holds c [] h = rw h.first refl
is_empty-Holds c (i ∷ is) h = rw h.first refl

-- A store at another node keeps a run.
pub Linked-store :
    (nodes : ℕ → Node) (k : ℕ) (n : Node) (before : Option ℕ) (is : List ℕ) (after : Option ℕ)
    → Absent k is
    → Linked nodes before is after
    → Linked (update nodes k n) before is after
Linked-store nodes k n before [] after a l = tt
Linked-store nodes k n before (i ∷ is) after (ne, a) (p, q, l) =
    let same : update nodes k n i ≡ nodes i = ground arith in
    (
      ap (λ (x : Node). x.prev) same ∙ p,
      ap (λ (x : Node). x.next) same ∙ q,
      Linked-store nodes k n (some i) is after a l,
    )

abbrev pub last_of : ℕ → List ℕ → ℕ
last_of i [] = i
last_of i (j ∷ js) = last_of j js

pub back-last_of : (i : ℕ) (is : List ℕ) → back (some i) is ≡ some (last_of i is)
back-last_of i [] = refl
back-last_of i (j ∷ js) = back-last_of j js

pub last_of-Absent : (k i : ℕ) (is : List ℕ) → Absent k (i ∷ is) → (k == last_of i is) ≡ false
last_of-Absent k i [] (ne, a) = ne
last_of-Absent k i (j ∷ js) (ne, a) = last_of-Absent k j js a

pub flip : (a b : ℕ) → (a == b) ≡ false → (b == a) ≡ false
flip a b h = ground arith

-- The nodes after `schedi_list_add` of a node behind node l.
module _ (nodes : ℕ → Node) (node : ℕ) where
  abbrev behind : ℕ → ℕ → Node
  behind l =
      let placed = update nodes node (record { prev = some l; next = none }) in
      update placed l (record (placed l) { next = some node })

  behind-other : (l i : ℕ) → (node == i) ≡ false → (l == i) ≡ false → behind l i ≡ nodes i
  behind-other l i a b = ground arith

  behind-next : (l : ℕ) → (node == l) ≡ false → behind l l ≡ record (nodes l) { next = some node }
  behind-next l a = ground arith

  behind-node :
      (l : ℕ) → (l == node) ≡ false → behind l node ≡ record { prev = some l; next = none }
  behind-node l a = ground arith

  front-snoc : (is : List ℕ) → front (is ++ (node ∷ [])) none ≡ front is (some node)
  front-snoc [] = refl
  front-snoc (i ∷ is) = refl

  Linked-snoc :
      (before : Option ℕ) (i : ℕ) (is : List ℕ)
      → Linked nodes before (i ∷ is) none
      → Distinct (i ∷ is)
      → Absent node (i ∷ is)
      → Linked (behind (last_of i is)) before (i ∷ (is ++ (node ∷ []))) none
  Linked-snoc before i [] (p, q, l) d (ne, a) =
      let at = behind-next i ne in
      let new = behind-node i (flip node i ne) in
      (
        ap (λ (x : Node). x.prev) at ∙ p,
        ap (λ (x : Node). x.next) at,
        (ap (λ (x : Node). x.prev) new, ap (λ (x : Node). x.next) new, tt),
      )
  Linked-snoc before i (j ∷ js) (p, q, l) (alone, d) (ne, a) =
      let other = flip i (last_of j js) (last_of-Absent i j js alone) in
      let same = behind-other (last_of j js) i ne other in
      (
        ap (λ (x : Node). x.prev) same ∙ p,
        ap (λ (x : Node). x.next) same ∙ q,
        Linked-snoc (some i) j js l d a,
      )

back-snoc :
    (before : Option ℕ) (node : ℕ) (is : List ℕ) → back before (is ++ (node ∷ [])) ≡ some node
back-snoc before node [] = refl
back-snoc before node (i ∷ is) = back-snoc (some i) node is

Absent-snoc :
    (i node : ℕ) (is : List ℕ) → Absent i is → (i == node) ≡ false → Absent i (is ++ (node ∷ []))
Absent-snoc i node [] a ne = (ne, tt)
Absent-snoc i node (j ∷ js) (e, a) ne = (e, Absent-snoc i node js a ne)

Distinct-snoc :
    (node : ℕ) (is : List ℕ) → Distinct is → Absent node is → Distinct (is ++ (node ∷ []))
Distinct-snoc node [] d a = (tt, tt)
Distinct-snoc node (i ∷ is) (alone, d) (ne, a) =
    (Absent-snoc i node is alone (flip node i ne), Distinct-snoc node is d a)

-- `schedi_list_add` of a node that is not in the list puts it at the end, linked in both ways.
pub add-Holds :
    (c : Chain) (is : List ℕ) (node : ℕ)
    → Holds c is
    → Absent node is
    → Holds (add node c) (is ++ (node ∷ []))
unfolding add
add-Holds c [] node h a =
    let new : update c.nodes node (record { prev = c.last; next = none }) node
        ≡ record { prev = c.last; next = none } =
      ground arith in
    rw h.last (record {
      first = refl;
      last = refl;
      linked = (ap (λ (x : Node). x.prev) new ∙ h.last, ap (λ (x : Node). x.next) new, tt);
      distinct = (tt, tt);
    })
add-Holds c (i ∷ is) node h a =
    let at : c.last ≡ some (last_of i is) = h.last ∙ back-last_of i is in
    rw at (record {
      first = h.first;
      last = sym (back-snoc (some i) node is);
      linked =
          subst
            (λ (o : Option ℕ).
              let placed = update c.nodes node (record { prev = o; next = none }) in
              let l = last_of i is in
              Linked (update placed l (record (placed l) { next = some node })) none
                (i ∷ (is ++ (node ∷ []))) none)
            (sym at) (Linked-snoc c.nodes node none i is h.linked h.distinct a);
      distinct = Distinct-snoc node (i ∷ is) h.distinct a;
    })
