-- ===== src/Atomic/Tests.antt =====
-- Runs of compare-and-swap loops.
use schedi.Prelude.{ℕ, ◌+◌, ◌≡◌, refl, ◌⊎◌, [], ◌∷◌, none, some}
use schedi.Atomic.{Attempt, swap, Writes, Quits, cas_loop, cas_loop-atomic}

abbrev add_one : ℕ → Attempt ℕ
add_one w = swap (w + 1) w

-- The word goes from 4 to 6 between the load and the first CAS.
contended : cas_loop add_one (6 ∷ 6 ∷ []) 4 ≡ some (6, 7)
unfolding cas_loop
contended = refl

spinning : cas_loop add_one (6 ∷ 8 ∷ []) 4 ≡ none
unfolding cas_loop
spinning = refl

cas_loop-atomic_example : Writes add_one 4 (6 ∷ 6 ∷ []) (6, 7) ⊎ Quits add_one 4 (6 ∷ 6 ∷ []) (6, 7)
cas_loop-atomic_example = cas_loop-atomic add_one (6 ∷ 6 ∷ []) 4 contended
