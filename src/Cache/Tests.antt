-- ===== src/Cache/Tests.antt =====
-- Runs of the ready jobs cache.
use schedi.Prelude.{
  ◌+◌, ◌*◌, ◌^◌, ◌<◌, ◌≡◌, refl, true, false, set, none, some, ◌∷◌, ◌++◌, replicate, arith,
}
use schedi.Cache.{Cache, cache_job_ready, cache_job_ready_pop, reorganize, reorganize_tick}
use schedi.Cache.Slots.{occupied}
use schedi.Cache.Inv.{IsCache}
use schedi.Cache.Reach.{Reach, begin, put, pop, no_jobs, tick-pop}
use schedi.Queue.{update}
use schedi.Cache.Steps
use schedi.Cache.Steps.{State, start, act, putting, stored, taken}
use schedi.Cache.Bag.{contents, insert, Removes, contents-refines}
use schedi.Cache.Reorganize.{Reorganizes, reorganize_lem}

-- 20 jobs have been cached, and of these the ones at slots 18 and 19 are left.
abbrev sparse : Cache
sparse = record {
  slots = replicate 18 none ++ (some 40 ∷ some 41 ∷ replicate 236 none);
  counter = 38;
  job_count = 20 * 2 ^ 32 + 2;
  full = false;
}

sparse-IsCache : IsCache sparse
sparse-IsCache = record {
  size = refl;
  count = refl;
  peak = omega arith;
  peak_in = omega arith;
  beyond = tt;
}

-- A pop does not see them; after a reorganization it does.
unseen : (cache_job_ready_pop sparse).0 ≡ none
unfolding cache_job_ready_pop
unseen = refl

seen : (cache_job_ready_pop (reorganize_tick sparse)).0 ≡ some 41
unfolding cache_job_ready_pop reorganize_tick
seen = refl

reorganize_lem_example : Reorganizes sparse (reorganize sparse)
reorganize_lem_example = reorganize_lem sparse sparse-IsCache

nothing : (cache_job_ready_pop (reorganize no_jobs)).0 ≡ none
unfolding cache_job_ready_pop reorganize
nothing = refl

-- Job 5 comes and goes.
abbrev gone : Cache
gone = (cache_job_ready_pop (cache_job_ready 5 no_jobs).1).1

gone-Reach : Reach gone
unfolding cache_job_ready
gone-Reach = pop (cache_job_ready 5 no_jobs).1 (put no_jobs 5 begin (omega arith)) (omega arith)

low : gone.counter < 2 ^ 31
unfolding cache_job_ready cache_job_ready_pop
low = omega arith

nothing_left : (cache_job_ready_pop (reorganize_tick gone)).0 ≡ none
unfolding cache_job_ready cache_job_ready_pop reorganize_tick
nothing_left = refl

tick-pop_example : occupied (reorganize_tick gone).slots ≡ 0
tick-pop_example = tick-pop gone gone-Reach low nothing_left

-- Thread 1 puts job 5, and thread 2 takes it before thread 1 counts it.
abbrev placed : State
placed =
    let marked = record (act 1 (putting 0 5) start) { ready = update start.ready 5 true } in
    record (act 1 stored marked) { slots = set marked.slots 0 (some 5) }

abbrev in_hands : State
in_hands = record (act 2 (taken 5) placed) { slots = set placed.slots 0 none }

contents-refines_example :
    (contents (cache_job_ready 7 sparse).1 ≡ insert 7 (contents sparse))
    × (let out = cache_job_ready_pop sparse in Removes (contents sparse) out.0 (contents out.1))
    × (contents (reorganize sparse) ≡ contents sparse)
contents-refines_example = contents-refines sparse 7 sparse-IsCache (omega arith)
