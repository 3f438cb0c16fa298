-- ===== src/Sections/Tests.antt =====
-- Runs of the section table.
use schedi.Prelude.{
  ℕ, zero, suc, leb, not, ◌≤◌, replicate, ◌+◌, ◌≡◌, ◌<◌, refl, true, false, some, none, List, [],
  ◌∷◌, arith,
}
use schedi.Sections.{Section, init, claim, release, maximum_jobs, add_size}
use schedi.Sections.Count.{free, Bounded, same}
use schedi.Sections.History.{Pool, Reach, IsSound, claimed, begin, next, Reach-IsSound}

-- Slots 0 to 4 and 6 to 8 are free.
abbrev holed : List Section
holed =
    record { a = 6; b = 9; active = true }
    ∷ record { a = 0; b = 5; active = true }
    ∷ record { a = 0; b = 0; active = false }
    ∷ []

holed-Bounded : Bounded holed
holed-Bounded = (λ e. omega arith, (λ e. omega arith, (λ e. ground arith, tt)))

-- Slot 5 joins one of its neighbours; the other stays apart.
apart : release 5 holed ≡ (
  record { a = 5; b = 9; active = true }
      ∷ record { a = 0; b = 5; active = true }
      ∷ record { a = 0; b = 0; active = false }
      ∷ [],
  false,
)
unfolding release
apart = refl

-- The first section in the table need not be the lowest.
not_lowest : (claim holed).0 ≡ some 6
unfolding claim
not_lowest = refl

-- The first n slots are claimed, in order.
abbrev unused : List Section
unused = replicate 63 (record { a = 0; b = 0; active = false })

abbrev after_claims : ℕ → List Section
after_claims n = record { a = n; b = maximum_jobs; active = not (leb maximum_jobs n) } ∷ unused

abbrev held_by : ℕ → ℕ → ℕ
held_by zero i = 0
held_by (suc n) i = held_by n i + same i n

abbrev pool : ℕ → Pool
pool n = record { table = after_claims n; held = held_by n; lost = λ i. 0; twice = false }

claim-after_claims :
    (n : ℕ) → n < maximum_jobs → claim (after_claims n) ≡ (some n, after_claims (suc n))
unfolding claim
claim-after_claims n h =
    let on : leb maximum_jobs n ≡ false = ground arith in
    let e : add_size n 1 ≡ suc n = omega arith in
    rw on (λ i. (
      some n,
      record { a = e i; b = maximum_jobs; active = not (leb maximum_jobs (e i)) } ∷ unused,
    ))

pool-Reach : (n : ℕ) → n ≤ maximum_jobs → Reach (pool n)
unfolding init
pool-Reach zero h = begin
pool-Reach (suc n) h =
    next (pool-Reach n (omega arith))
      (claimed (pool n) n (after_claims (suc n)) (claim-after_claims n (omega arith)))

Reach-IsSound_example : IsSound (pool 3)
Reach-IsSound_example = Reach-IsSound (pool-Reach 3 (omega arith)) refl

no_slot : (claim (after_claims 256)).0 ≡ none
unfolding claim
no_slot = refl

-- A slot that is released twice is free twice.
released_twice : free 0 (release 0 (release 0 (after_claims 1)).0).0 ≡ 2
unfolding release
released_twice = refl
