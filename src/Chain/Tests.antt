-- ===== src/Chain/Tests.antt =====
-- Runs of the intrusive list.
use schedi.Prelude.{◌≡◌, refl, true, none, some, [], ◌∷◌}
use schedi.Chain.Links.{Holds, init-Holds, add-Holds}
use schedi.Chain.Removal.{remove-Holds}
use schedi.Chain.{Chain, init, add, remove, is_empty}

abbrev nothing : Chain
nothing = record { nodes = λ i. record { prev = none; next = none }; first = some 9; last = some 9 }

abbrev three : Chain
three = add 3 (add 2 (add 1 (init nothing)))

ends : (three.first ≡ some 1) × (three.last ≡ some 3) × ((three.nodes 2).next ≡ some 3)
unfolding add init
ends = (refl, refl, refl)

-- Without the middle node its neighbours meet.
middle : (((remove 2 three).nodes 1).next ≡ some 3) × (((remove 2 three).nodes 3).prev ≡ some 1)
unfolding add init remove
middle = (refl, refl)

all_gone : is_empty (remove 3 (remove 1 (remove 2 three))) ≡ true
unfolding add init remove is_empty
all_gone = refl

-- A node behind two others.
two-Holds : Holds (add 2 (add 1 (init nothing))) (1 ∷ 2 ∷ [])
two-Holds =
    add-Holds (add 1 (init nothing)) (1 ∷ []) 2
      (add-Holds (init nothing) [] 1 (init-Holds nothing) tt) (refl, tt)

three-Holds : Holds three (1 ∷ 2 ∷ 3 ∷ [])
three-Holds = add-Holds (add 2 (add 1 (init nothing))) (1 ∷ 2 ∷ []) 3 two-Holds (refl, (refl, tt))

remove-Holds_example : Holds (remove 2 three) (1 ∷ 3 ∷ [])
remove-Holds_example = remove-Holds three (1 ∷ []) 2 (3 ∷ []) three-Holds
