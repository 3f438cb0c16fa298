-- ===== src/Chain/Removal.antt =====
-- `schedi_list_remove` of src/list.c, on the list that a chain holds.
use schedi.Prelude.{
  ℕ, ◌≡◌, refl, sym, ◌∙◌, ap, false, ◌==◌, Option, none, some, List, [], ◌∷◌, ◌++◌, arith,
}
use schedi.Queue.{update}
use schedi.Chain.{Node, Chain, store, remove}
use schedi.Chain.Links.{
  Holds, Linked, Absent, Distinct, front, back, last_of, back-last_of, last_of-Absent, flip,
  Linked-store,
}

-- The runs before and after a node.
split-Linked :
    (nodes : ℕ → Node) (before : Option ℕ) (xs : List ℕ) (i : ℕ) (ys : List ℕ)
    → Linked nodes before (xs ++ (i ∷ ys)) none
    → Linked nodes before xs (some i) × Linked nodes (back before xs) (i ∷ ys) none
split-Linked nodes before [] i ys l = (tt, l)
split-Linked nodes before (x ∷ xs) i ys (p, q, l) =
    let rest = split-Linked nodes (some x) xs i ys l in ((p, q ∙ front-split xs, rest.0), rest.1)
  where
    front-split : (xs : List ℕ) → front (xs ++ (i ∷ ys)) none ≡ front xs (some i)
    front-split [] = refl
    front-split (z ∷ zs) = refl

-- Two runs that meet.
join-Linked :
    (nodes : ℕ → Node) (before : Option ℕ) (xs ys : List ℕ)
    → Linked nodes before xs (front ys none)
    → Linked nodes (back before xs) ys none
    → Linked nodes before (xs ++ ys) none
join-Linked nodes before [] ys l m = m
join-Linked nodes before (x ∷ xs) ys (p, q, l) m =
    (p, q ∙ front-join xs ys, join-Linked nodes (some x) xs ys l m)
  where
    front-join : (xs ys : List ℕ) → front xs (front ys none) ≡ front (xs ++ ys) none
    front-join [] ys = refl
    front-join (z ∷ zs) ys = refl

abbrev Apart : List ℕ → List ℕ → Type 0
Apart [] ys = Unit
Apart (x ∷ xs) ys = Absent x ys × Apart xs ys

split-Absent : (k : ℕ) (xs ys : List ℕ) → Absent k (xs ++ ys) → Absent k xs × Absent k ys
split-Absent k [] ys a = (tt, a)
split-Absent k (x ∷ xs) ys (ne, a) = let rest = split-Absent k xs ys a in ((ne, rest.0), rest.1)

join-Absent : (k : ℕ) (xs ys : List ℕ) → Absent k xs → Absent k ys → Absent k (xs ++ ys)
join-Absent k [] ys a b = b
join-Absent k (x ∷ xs) ys (ne, a) b = (ne, join-Absent k xs ys a b)

-- What is left when the node in the middle goes.
split-Distinct :
    (xs : List ℕ) (i : ℕ) (ys : List ℕ)
    → Distinct (xs ++ (i ∷ ys))
    → Distinct xs × Distinct ys × Apart xs ys × Distinct (xs ++ ys) × Absent i xs × Absent i ys
split-Distinct [] i ys (a, d) = (tt, d, tt, d, tt, a)
split-Distinct (x ∷ xs) i ys (a, d) =
    let (dx, dy, apart, both, ix, iy) = split-Distinct xs i ys d in
    let (ax, (ne, ay)) = split-Absent x xs (i ∷ ys) a in
    ((ax, dx), dy, (ay, apart), (join-Absent x xs ys ax ay, both), (flip x i ne, ix), iy)

last-Apart : (x : ℕ) (xs ys : List ℕ) → Apart (x ∷ xs) ys → Absent (last_of x xs) ys
last-Apart x [] ys (a, b) = a
last-Apart x (z ∷ zs) ys (a, b) = last-Apart z zs ys b

front-Apart : (xs : List ℕ) (y : ℕ) (ys : List ℕ) → Apart xs (y ∷ ys) → Absent y xs
front-Apart [] y ys a = tt
front-Apart (x ∷ xs) y ys ((ne, a), b) = (flip x y ne, front-Apart xs y ys b)

-- The last node of a run gets another next node.
set-next :
    (nodes : ℕ → Node) (before after o : Option ℕ) (x : ℕ) (xs : List ℕ)
    → Distinct (x ∷ xs)
    → Linked nodes before (x ∷ xs) after
    → let l = last_of x xs in
      Linked (update nodes l (record (nodes l) { next = o })) before (x ∷ xs) o
set-next nodes before after o x [] d (p, q, l) =
    let here : update nodes x (record (nodes x) { next = o }) x ≡ record (nodes x) { next = o } =
      ground arith in
    (ap (λ (n : Node). n.prev) here ∙ p, ap (λ (n : Node). n.next) here, tt)
set-next nodes before after o x (z ∷ zs) (alone, d) (p, q, l) =
    let m = last_of z zs in
    let ne = flip x m (last_of-Absent x z zs alone) in
    let same : update nodes m (record (nodes m) { next = o }) x ≡ nodes x = ground arith in
    (
      ap (λ (n : Node). n.prev) same ∙ p,
      ap (λ (n : Node). n.next) same ∙ q,
      set-next nodes (some x) after o z zs d l,
    )

-- The first node of a run gets another previous node.
set-prev :
    (nodes : ℕ → Node) (before o : Option ℕ) (y : ℕ) (ys : List ℕ) (after : Option ℕ)
    → Absent y ys
    → Linked nodes before (y ∷ ys) after
    → Linked (update nodes y (record (nodes y) { prev = o })) o (y ∷ ys) after
set-prev nodes before o y ys after alone (p, q, l) =
    let here : update nodes y (record (nodes y) { prev = o }) y ≡ record (nodes y) { prev = o } =
      ground arith in
    (
      ap (λ (n : Node). n.prev) here,
      ap (λ (n : Node). n.next) here ∙ q,
      Linked-store nodes y (record (nodes y) { prev = o }) (some y) ys after alone l,
    )

back-append :
    (before : Option ℕ) (xs ys : List ℕ) → back before (xs ++ ys) ≡ back (back before xs) ys
back-append before [] ys = refl
back-append before (x ∷ xs) ys = back-append (some x) xs ys

-- The runs on both sides of a node, linked to each other.
module _ (nodes : ℕ → Node) (x : ℕ) (xs : List ℕ) (i y : ℕ) (ys : List ℕ) where
  abbrev bridged : ℕ → Node
  bridged =
      let l = last_of x xs in
      let placed = update nodes l (record (nodes l) { next = some y }) in
      update placed y (record (placed y) { prev = some l })

  bridged-Linked :
      Distinct (x ∷ xs)
      → Distinct (y ∷ ys)
      → Apart (x ∷ xs) (y ∷ ys)
      → Linked nodes none (x ∷ xs) (some i)
      → Linked nodes (some i) (y ∷ ys) none
      → Linked bridged none (x ∷ (xs ++ (y ∷ ys))) none
  bridged-Linked dx dy apart left right =
      let l = last_of x xs in
      let placed = update nodes l (record (nodes l) { next = some y }) in
      join-Linked bridged none (x ∷ xs) (y ∷ ys)
        (Linked-store placed y (record (placed y) { prev = some l }) none (x ∷ xs) (some y)
          (front-Apart (x ∷ xs) y ys apart) (set-next nodes none (some i) (some y) x xs dx left))
        (rw (back-last_of x xs) (
          set-prev placed (some i) (some l) y ys none dy.0 (
            Linked-store nodes l (record (nodes l) { next = some y }) (some i) (y ∷ ys) none
              (last-Apart x xs (y ∷ ys) apart) right)))

-- What the two steps of `schedi_list_remove` leave.
module _ (c : Chain) (i : ℕ) where
  remove-only :
      (c.nodes i).prev ≡ none
      → (c.nodes i).next ≡ none
      → remove i c ≡ record c { first = none; last = none }
  unfolding remove
  remove-only p q = ground arith

  remove-first :
      (n : ℕ)
      → (c.nodes i).prev ≡ none
      → (c.nodes i).next ≡ some n
      → remove i c ≡ store n (record (c.nodes n) { prev = none }) (record c { first = some n })
  unfolding remove
  remove-first n p q = ground arith

  remove-last :
      (l : ℕ)
      → (l == i) ≡ false
      → (c.nodes i).prev ≡ some l
      → (c.nodes i).next ≡ none
      → remove i c ≡ record (store l (record (c.nodes l) { next = none }) c) { last = some l }
  unfolding remove
  remove-last l ne p q = ground arith

  remove-middle :
      (l n : ℕ)
      → (l == i) ≡ false
      → (c.nodes i).prev ≡ some l
      → (c.nodes i).next ≡ some n
      → remove i c ≡ (
          let c₁ = store l (record (c.nodes l) { next = some n }) c in
          store n (record (c₁.nodes n) { prev = some l }) c₁)
  unfolding remove
  remove-middle l n ne p q = ground arith

-- `schedi_list_remove` of a node of the list leaves the nodes before it and those after it, in their
-- order and linked in both ways.
pub remove-Holds :
    (c : Chain) (xs : List ℕ) (i : ℕ) (ys : List ℕ)
    → Holds c (xs ++ (i ∷ ys))
    → Holds (remove i c) (xs ++ ys)
remove-Holds c [] i [] h =
    let (p, q, l) = h.linked in
    rw (remove-only c i p q) (record { first = refl; last = refl; linked = tt; distinct = tt })
remove-Holds c [] i (y ∷ ys) h =
    let (p, q, l) = h.linked in
    let (alone, d) = h.distinct in
    rw (remove-first c i y p q) (record {
      first = refl;
      last = h.last;
      linked = set-prev c.nodes (some i) none y ys none d.0 l;
      distinct = d;
    })
remove-Holds c (x ∷ xs) i [] h =
    let (left, (p, q, l)) = split-Linked c.nodes none (x ∷ xs) i [] h.linked in
    let (dx, dy, apart, both, ix, iy) = split-Distinct (x ∷ xs) i [] h.distinct in
    let at : (c.nodes i).prev ≡ some (last_of x xs) = p ∙ back-last_of x xs in
    let ne = flip i (last_of x xs) (last_of-Absent i x xs ix) in
    rw (remove-last c i (last_of x xs) ne at q) (record {
      first = h.first;
      last = sym (back-append (some x) xs [] ∙ back-last_of x xs);
      linked = join-Linked _ none (x ∷ xs) [] (set-next c.nodes none (some i) none x xs dx left) tt;
      distinct = both;
    })
remove-Holds c (x ∷ xs) i (y ∷ ys) h =
    let (left, (p, q, l)) = split-Linked c.nodes none (x ∷ xs) i (y ∷ ys) h.linked in
    let (dx, dy, apart, both, ix, iy) = split-Distinct (x ∷ xs) i (y ∷ ys) h.distinct in
    let at : (c.nodes i).prev ≡ some (last_of x xs) = p ∙ back-last_of x xs in
    let ne = flip i (last_of x xs) (last_of-Absent i x xs ix) in
    rw (remove-middle c i (last_of x xs) y ne at q) (record {
      first = h.first;
      last = h.last ∙ back-append (some x) xs (i ∷ y ∷ ys) ∙ sym (back-append (some x) xs (y ∷ ys));
      linked = bridged-Linked c.nodes x xs i y ys dx dy apart left l;
      distinct = both;
    })
