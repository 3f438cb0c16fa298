-- ===== src/Cache/Only.antt =====
-- A ready jobs cache with one job (src/jobs.c).
use schedi.Prelude.{ℕ, ◌≤◌, ◌≡◌, ◌≢◌, true, ltb, Option, none, some, List, [], ◌∷◌, arith, inl, inr}
use mathlib.Core.Path.{subst}
use schedi.Sections.{maximum_jobs}
use schedi.Cache.{Cache, cache_check, put_first, cached, cache_job_ready, cache_job_ready_pop}
use schedi.Cache.Slots.{occupied, copies}
use schedi.Cache.Near.{near, near-far, Fills, put_first-Fills, EmptyBefore-near}
use schedi.Cache.Inv.{Stores, cache_job_ready_lem, IsCache, Joins, Pops, cache_job_ready_pop_lem}

copies-le : (j : ℕ) (ss : List (Option ℕ)) → copies j ss ≤ occupied ss
copies-le j [] = omega arith
copies-le j (none ∷ ss) = copies-le j ss
copies-le j (some job ∷ ss) = ground (arith, copies-le j ss)

-- A pop of a cache whose only job is within reach.
abbrev PopsOnly : ℕ → Option ℕ × Cache → Type 0
PopsOnly i (o, c') = o ≡ some i

pop_only :
    (c₀ c : Cache) (i : ℕ) (out : Option ℕ × Cache)
    → occupied c₀.slots ≡ 0
    → Joins c₀ i c
    → near cache_check c.slots ≢ 0
    → Pops cache_check c out
    → PopsOnly i out
pop_only c₀ c i (none, c') zero_jobs j within p =
    absurd (within (EmptyBefore-near cache_check c.slots p.1))
pop_only c₀ c i (some job, c') zero_jobs j within p =
    ground (arith, j job, p.2 job, copies-le job c₀.slots)

-- The job of a put into an empty cache is within reach.
put_near :
    (c : Cache) (i : ℕ) (o : Option (List (Option ℕ)))
    → near cache_check c.slots ≡ 0
    → Fills cache_check c.slots o
    → Stores c i true (cached c o)
    → near cache_check (cached c o).1.slots ≢ 0
unfolding cached
put_near c i none no_near f p = absurd (ground (arith, p.0))
put_near c i (some ss) no_near (inl (a, b)) p = λ e. absurd (omega arith)
put_near c i (some ss) no_near (inr (a, b)) p = λ e. absurd (omega arith)

-- A job that is put into a cache without jobs is the one that the next pop returns.
pub put-then-pop :
    (c : Cache) (i : ℕ)
    → IsCache c
    → occupied c.slots ≡ 0
    → (cache_job_ready_pop (cache_job_ready i c).1).0 ≡ some i
unfolding cache_job_ready
put-then-pop c i v no_jobs =
    let has_room : ltb (occupied c.slots) maximum_jobs ≡ true = ground arith in
    let put =
      subst (λ b. Stores c i b (cache_job_ready i c)) has_room (cache_job_ready_lem c i v) in
    let c' = (cache_job_ready i c).1 in
    pop_only c c' i (cache_job_ready_pop c') no_jobs put.3
      (put_near c i (put_first i c.slots) (omega (arith, near-far cache_check c.slots))
        (put_first-Fills cache_check i c.slots) put)
      (cache_job_ready_pop_lem c' put.1)
