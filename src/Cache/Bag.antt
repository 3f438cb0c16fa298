-- ===== src/Cache/Bag.antt =====
-- The ready jobs cache of src/jobs.c as a bag of jobs, without order and place.
use schedi.Prelude.{
  ℕ, ◌+◌, ◌<◌, ◌≡◌, refl, ap, true, Option, none, some, List, ◌∷◌, ◌==◌, ltb, if◌then◌else◌, arith,
}
use mathlib.Core.Path.{subst}
use mathlib.Core.Quot
use mathlib.Core.Quot.{Quot, Quot-set}
use native.Mathlib.Nat.{ℕ_set}
use schedi.Sections.{maximum_jobs}
use schedi.Cache.{Cache, cache_check, cache_job_ready, cache_job_ready_pop, reorganize}
use schedi.Cache.Slots.{occupied, copies}
use schedi.Cache.Inv.{IsCache, Joins, Stores, Pops, cache_job_ready_lem, cache_job_ready_pop_lem}
use schedi.Cache.Reorganize.{reorganize_lem}

abbrev pub SameJobs : List (Option ℕ) → List (Option ℕ) → Type 0
SameJobs ss ts = (j : ℕ) → copies j ss ≡ copies j ts

abbrev pub Bag : Type 0
Bag = Quot SameJobs

abbrev pub contents : Cache → Bag
contents c = Quot.mk c.slots

-- A bag with one more job.
pub insert : ℕ → Bag → Bag
insert job =
    Quot.lift Quot-set (λ ss. Quot.mk (some job ∷ ss))
      (λ ss ts h. Quot.sound (λ j. ap (λ (n : ℕ). (if j == job then 1 else 0) + n) (h j)))

Joins-insert :
    (c : Cache) (job : ℕ) (c' : Cache) → Joins c job c' → contents c' ≡ insert job (contents c)
unfolding insert
Joins-insert c job c' h = Quot.sound (λ j. omega (arith, h j))

-- How often the bag has a job.
pub occurrences : ℕ → Bag → ℕ
occurrences j = Quot.lift ℕ_set (copies j) (λ ss ts h. h j)

pub occurrences-insert :
    (j job : ℕ) (b : Bag)
    → occurrences j (insert job b) ≡ (if j == job then 1 else 0) + occurrences j b
unfolding occurrences insert
occurrences-insert j job = Quot.ind (λ b. ℕ_set _ _) (λ ss. refl)

-- What a pop does to the bag.
abbrev pub Removes : Bag → Option ℕ → Bag → Type 0
Removes b none b' = b' ≡ b
Removes b (some job) b' = b ≡ insert job b'

Pops-Removes :
    (c : Cache) (out : Option ℕ × Cache)
    → Pops cache_check c out
    → Removes (contents c) out.0 (contents out.1)
Pops-Removes c (none, c') p = ap contents p.0
Pops-Removes c (some job, c') p = Joins-insert c' job c p.2

-- As a bag, the ready jobs cache is refined by the slots: a put into a cache with room inserts the
-- job, a pop takes out the job that it returns or changes nothing, and a reorganization is nothing.
pub contents-refines :
    (c : Cache) (job : ℕ)
    → IsCache c
    → occupied c.slots < maximum_jobs
    → (contents (cache_job_ready job c).1 ≡ insert job (contents c))
      × (let out = cache_job_ready_pop c in Removes (contents c) out.0 (contents out.1))
      × (contents (reorganize c) ≡ contents c)
contents-refines c job v room =
    let has_room : ltb (occupied c.slots) maximum_jobs ≡ true = ground arith in
    let put =
      subst (λ b. Stores c job b (cache_job_ready job c)) has_room (cache_job_ready_lem c job v) in
    (
      Joins-insert c job (cache_job_ready job c).1 put.3,
      Pops-Removes c (cache_job_ready_pop c) (cache_job_ready_pop_lem c v),
      Quot.sound (reorganize_lem c v).1,
    )
