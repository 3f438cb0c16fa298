-- ===== src/Sections.antt =====
-- The free slots of the job array (src/jobs.c, "Static Array Management"): `sections_init`,
-- `section_claim` and `section_release` over the table `empty_sections`.
-- Each runs under `section_lock`, so it is one step. The loops are recursions on the table.
pub mod Count
pub mod Claim
pub mod Release
pub mod History
mod Tests
use schedi.Prelude.{
  ℕ, ◌+◌, ◌-◌, ◌%◌, ◌^◌, Bool, true, false, not, Option, none, some, List, [], ◌∷◌, ◌==◌, leb,
  if◌then◌else◌, replicate,
}
use mathlib.Core.Option

abbrev pub maximum_jobs : ℕ
maximum_jobs = 256

abbrev pub maximum_empty_sections : ℕ
maximum_empty_sections = 64

-- `struct schedi_section`: the slots [a, b).
pub record Section : Type 0 where
  pub a : ℕ
  pub b : ℕ
  pub active : Bool

-- `size_t` addition
abbrev pub add_size : ℕ → ℕ → ℕ
add_size x y = (x + y) % 2 ^ 64

-- The static array is zero before `sections_init` writes its first entry.
pub init : List Section
init =
    record { a = 0; b = maximum_jobs; active = true }
    ∷ replicate (maximum_empty_sections - 1) (record { a = 0; b = 0; active = false })

-- `section_claim`: the slot, or `none` for NULL, and the table.
pub claim : List Section → Option ℕ × List Section
claim [] = (none, [])
claim (s ∷ ss) =
    let (slot, rest) = claim ss in
    let a' = add_size s.a 1 in
    if not s.active
    then (slot, s ∷ rest)
    else (some s.a, record s { a = a'; active = not (leb s.b a') } ∷ ss)

-- The first loop of `section_release`: an active section beside the slot grows by it.
pub merge : ℕ → List Section → Option (List Section)
merge idx [] = none
merge idx (s ∷ ss) =
    let rest = Option.map (λ ss'. s ∷ ss') (merge idx ss) in
    if not s.active
    then rest
    else if add_size idx 1 == s.a
    then some (record s { a = idx } ∷ ss)
    else if s.b == idx
    then some (record s { b = add_size idx 1 } ∷ ss)
    else rest

-- The second loop: the first inactive section takes the slot.
pub place : ℕ → List Section → Option (List Section)
place idx [] = none
place idx (s ∷ ss) =
    let rest = Option.map (λ ss'. s ∷ ss') (place idx ss) in
    if s.active then rest else some (record { a = idx; b = add_size idx 1; active = true } ∷ ss)

-- What the two loops have found, in the order of the code.
pub settle : List Section → Option (List Section) → Option (List Section) → List Section × Bool
settle ss (some merged) placed = (merged, false)
settle ss none (some placed) = (placed, false)
settle ss none none = (ss, true)

-- `section_release`: the table, and whether SCHEDI_JOB_ARRAY_SECTION_WARN is raised.
pub release : ℕ → List Section → List Section × Bool
unfolding merge place settle
release idx ss = settle ss (merge idx ss) (place idx ss)
