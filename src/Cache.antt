-- ===== src/Cache.antt =====
-- The ready jobs cache of src/jobs.c: the slots `ready_jobs_cache`, the packed `job_count` and the
-- counter of operations since the last reorganization.
-- A job is the index of its slot in the job array. A call is modelled as it runs with no other
-- thread at the cache: each of its compare-and-swap loops takes its first round.
pub mod Slots
pub mod Count
pub mod Inv
pub mod Packed
pub mod Reorganize
pub mod Near
pub mod Only
pub mod Steps
pub mod Once
pub mod Bag
pub mod Reach
mod Tests
use schedi.Prelude.{
  ℕ, zero, suc, ◌+◌, ◌-◌, ◌*◌, ◌/◌, ◌%◌, ◌^◌, bit_and, bit_or, Bool, true, false, ◌||◌, Option,
  none, some, List, [], ◌∷◌, set, get_elem?, ◌==◌, leb, ltb, if◌then◌else◌,
}
use schedi.Prelude.Int.{ℤ, pos, negsuc}
use mathlib.Core.Option
use schedi.Atomic.{Attempt, swap, atomic}

-- SCHEDI_JOBS_CACHE_CHECK
abbrev pub cache_check : ℕ
cache_check = 16

-- `counter` is the two's complement of an `int`; `full` is SCHEDI_JOB_ARRAY_FULL in `flags`.
pub record Cache : Type 0 where
  pub slots : List (Option ℕ)
  pub counter : ℕ
  pub job_count : ℕ
  pub full : Bool

-- The low half of `job_count` is the number of jobs, the high half its peak.
abbrev pub count_of : ℕ → ℕ
count_of w = bit_and w 0xffffffff

abbrev pub peak_of : ℕ → ℕ
peak_of w = bit_and (w / 2 ^ 32) 0xffffffff

abbrev pub pack_count : ℕ → ℕ → ℕ
pack_count count peak = bit_or count (peak * 2 ^ 32 % 2 ^ 64)

pub add_body : ℕ → Attempt (Unit {0})
add_body w =
    let count = (count_of w + 1) % 2 ^ 32 in
    let peak = if ltb (peak_of w) count then count else peak_of w in swap (pack_count count peak) tt

pub sub_body : ℕ → Attempt (Unit {0})
sub_body w = swap (pack_count ((count_of w + 2 ^ 32 - 1) % 2 ^ 32) (peak_of w)) tt

pub add_job_count : Cache → Cache
unfolding add_body
add_job_count c = record c {
  counter = (c.counter + 1) % 2 ^ 32;
  job_count = (atomic add_body c.job_count).1;
}

pub sub_job_count : Cache → Cache
unfolding sub_body
sub_job_count c = record c {
  counter = (c.counter + 1) % 2 ^ 32;
  job_count = (atomic sub_body c.job_count).1;
}

-- The loop of `schedi_cache_job_ready_pop` over the first slots.
pub take_first : ℕ → List (Option ℕ) → Option (ℕ × List (Option ℕ))
take_first zero ss = none
take_first (suc n) [] = none
take_first (suc n) (some job ∷ ss) = some (job, none ∷ ss)
take_first (suc n) (none ∷ ss) = Option.map (λ r. (r.0, none ∷ r.1)) (take_first n ss)

-- The loop of `schedi_cache_job_ready`.
pub put_first : ℕ → List (Option ℕ) → Option (List (Option ℕ))
put_first job [] = none
put_first job (none ∷ ss) = some (some job ∷ ss)
put_first job (some other ∷ ss) = Option.map (λ ss'. some other ∷ ss') (put_first job ss)

pub popped : Cache → Option (ℕ × List (Option ℕ)) → Option ℕ × Cache
unfolding sub_job_count
popped c none = (none, c)
popped c (some (job, ss)) = (some job, record (sub_job_count c) { slots = ss; full = false })

pub cache_job_ready_pop : Cache → Option ℕ × Cache
unfolding take_first popped
cache_job_ready_pop c =
    if count_of c.job_count == 0 then (none, c) else popped c (take_first cache_check c.slots)

pub cached : Cache → Option (List (Option ℕ)) → ℤ × Cache
unfolding add_job_count
cached c none = (negsuc 0, record c { full = true })
cached c (some ss) = (pos 0, record (add_job_count c) { slots = ss })

pub cache_job_ready : ℕ → Cache → ℤ × Cache
unfolding put_first cached
cache_job_ready job c = cached c (put_first job c.slots)

pub lifted : ℕ → Cache → Option (Option ℕ) → Option ℕ × Cache
unfolding sub_job_count
lifted i c none = (none, c)
lifted i c (some none) = (none, c)
lifted i c (some (some job)) = (some job, record (sub_job_count c) { slots = set c.slots i none })

pub pop_specific : ℕ → Cache → Option ℕ × Cache
unfolding lifted
pop_specific i c = lifted i c (get_elem? c.slots i)

-- The loop of `schedi_ready_jobs_cache_reorganize` from slot i - 1 down to 0, with n jobs moved.
pub reorganize_from : (i n : ℕ) → Cache → Cache
unfolding pop_specific cache_job_ready
reorganize_from zero n c = c
reorganize_from (suc i) n c =
    let out = pop_specific i c in
    elim out.0 [
      | none ↦ reorganize_from i n out.1
      | some job ↦
          let back = (cache_job_ready job out.1).1 in
          let rest = reorganize_from i (n + 1) back in if leb i (n + 1) then back else rest
    ]

pub reorganize : Cache → Cache
unfolding reorganize_from
reorganize c = reorganize_from (peak_of c.job_count) 0 c

-- `schedi_ready_jobs_cache_reorganize_tick`; a counter from 2 ^ 31 on is negative.
pub reorganize_tick : Cache → Cache
unfolding reorganize
reorganize_tick c =
    if ltb c.counter cache_check || leb (2 ^ 31) c.counter
    then c
    else reorganize (record c { counter = 0 })
