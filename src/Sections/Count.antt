-- ===== src/Sections/Count.antt =====
-- The free slots that a table of sections stands for.
use schedi.Prelude.{
  ℕ, ◌+◌, ◌≤◌, ◌<◌, ◌≡◌, refl, true, false, ◌&&◌, List, [], ◌∷◌, leb, ltb, if◌then◌else◌, arith,
  replicate, zero, suc, ◌==◌,
}
use schedi.Sections.{Section, maximum_jobs, init}

-- How many sections hold slot `i`.
abbrev pub holds : ℕ → Section → ℕ
holds i s = if s.active && leb s.a i && ltb i s.b then 1 else 0

abbrev pub free : ℕ → List Section → ℕ
free i [] = 0
free i (s ∷ ss) = holds i s + free i ss

-- An active section is not empty and lies in the array.
abbrev pub Bounded : List Section → Type 0
Bounded [] = Unit
Bounded (s ∷ ss) = (s.active ≡ true → (s.a < s.b) × (s.b ≤ maximum_jobs)) × Bounded ss

-- One for the slot itself.
abbrev pub same : ℕ → ℕ → ℕ
same i j = if i == j then 1 else 0

free-inactive : (n i : ℕ) → free i (replicate n (record { a = 0; b = 0; active = false })) ≡ 0
free-inactive zero i = refl
free-inactive (suc n) i = omega (arith, free-inactive n i)

Bounded-inactive : (n : ℕ) → Bounded (replicate n (record { a = 0; b = 0; active = false }))
Bounded-inactive zero = tt
Bounded-inactive (suc n) = (λ e. ground arith, Bounded-inactive n)

-- At the start exactly the slots of the array are free.
pub init-free : (i : ℕ) → (free i init ≡ (if ltb i maximum_jobs then 1 else 0)) × Bounded init
unfolding init
init-free i = (ground (arith, free-inactive 63 i), (λ e. (omega arith), Bounded-inactive 63))
