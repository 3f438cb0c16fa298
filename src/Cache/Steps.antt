-- ===== src/Cache/Steps.antt =====
-- The ready jobs cache of src/jobs.c under any threads, one compare-and-swap at a slot per step: the
-- loops of `schedi_cache_job_ready`, `schedi_cache_job_ready_pop` and
-- `schedi_ready_jobs_cache_pop_specific`, as `schedi_job_setready`, `schedi_job_pickready` and
-- `schedi_ready_jobs_cache_reorganize` call them.
use schedi.Prelude.{
  ℕ, ◌+◌, ◌≤◌, ◌<◌, ◌≡◌, ◌≢◌, Bool, true, false, Option, none, some, List, set, get_elem?,
  replicate,
}
use schedi.Atomic.{atomic}
use schedi.Queue.{update}
use schedi.Sections.{maximum_jobs}
use schedi.Cache.{cache_check, count_of, add_body, sub_body}

-- Where a thread is: in no call; at slot i with a job to put; past its compare-and-swap of a put; at
-- slot i of a pop; past its compare-and-swap of a pop; past the count as well.
pub data Thread : Type 0 where
  outside : Thread
  putting : (i job : ℕ) → Thread
  stored : Thread
  popping : (i : ℕ) → Thread
  taken : (job : ℕ) → Thread
  holding : (job : ℕ) → Thread

-- `ready` is READY in the word of each job, which `schedi_job_mark_ready` sets for one caller alone.
-- `doomed` says that a job has been marked WLLDESTROY or UNSTABLE at some time, which the destruction
-- of a job does first.
pub record State : Type 0 where
  pub slots : List (Option ℕ)
  pub job_count : ℕ
  pub thread : ℕ → Thread
  pub ready : ℕ → Bool
  pub doomed : ℕ → Bool

abbrev pub start : State
start = record {
  slots = replicate 256 none;
  job_count = 0;
  thread = λ t. outside;
  ready = λ j. false;
  doomed = λ j. false;
}

abbrev pub act : ℕ → Thread → State → State
act t p s = record s { thread = update s.thread t p }

-- A step of thread t.
pub data Step : State → State → Type 0 where
  -- `schedi_job_setready`, to its call of `schedi_cache_job_ready`.
  marks :
      (s : State) (t job : ℕ)
      → s.thread t ≡ outside
      → s.ready job ≡ false
      → Step s (record (act t (putting 0 job) s) { ready = update s.ready job true })
  -- A slot that is not NULL.
  passes :
      (s : State) (t i job other : ℕ)
      → s.thread t ≡ putting i job
      → get_elem? s.slots i ≡ some (some other)
      → Step s (act t (putting (i + 1) job) s)
  -- The compare-and-swap of NULL and the job.
  puts :
      (s : State) (t i job : ℕ)
      → s.thread t ≡ putting i job
      → get_elem? s.slots i ≡ some none
      → Step s (record (act t stored s) { slots = set s.slots i (some job) })
  -- `schedi_ready_jobs_cache_add_job_count`
  counts :
      (s : State) (t : ℕ)
      → s.thread t ≡ stored
      → Step s (record (act t outside s) { job_count = (atomic add_body s.job_count).1 })
  -- No slot was NULL: the caller takes the mark back.
  refuses :
      (s : State) (t i job : ℕ)
      → s.thread t ≡ putting i job
      → maximum_jobs ≤ i
      → Step s (record (act t outside s) { ready = update s.ready job false })
  -- `schedi_cache_job_ready_pop`
  starts_pop :
      (s : State) (t : ℕ)
      → s.thread t ≡ outside
      → count_of s.job_count ≢ 0
      → Step s (act t (popping 0) s)
  skips :
      (s : State) (t i : ℕ)
      → s.thread t ≡ popping i
      → get_elem? s.slots i ≡ some none
      → Step s (act t (popping (i + 1)) s)
  -- The compare-and-swap of the job and NULL.
  takes :
      (s : State) (t i job : ℕ)
      → s.thread t ≡ popping i
      → i < cache_check
      → get_elem? s.slots i ≡ some (some job)
      → Step s (record (act t (taken job) s) { slots = set s.slots i none })
  ends_pop :
      (s : State) (t i : ℕ) → s.thread t ≡ popping i → cache_check ≤ i → Step s (act t outside s)
  -- `schedi_ready_jobs_cache_pop_specific`, of any slot.
  lifts :
      (s : State) (t i job : ℕ)
      → s.thread t ≡ outside
      → get_elem? s.slots i ≡ some (some job)
      → Step s (record (act t (taken job) s) { slots = set s.slots i none })
  -- `schedi_ready_jobs_cache_sub_job_count`
  uncounts :
      (s : State) (t job : ℕ)
      → s.thread t ≡ taken job
      → Step s (record (act t (holding job) s) { job_count = (atomic sub_body s.job_count).1 })
  -- `schedi_job_mark_wlldestroy` and `schedi_job_mark_unstable`, by any thread.
  dooms : (s : State) (job : ℕ) → Step s (record s { doomed = update s.doomed job true })
  -- The store of 0 in `schedi_job_destroy_now`, wherever the job is.
  tears_down :
      (s : State) (job : ℕ)
      → s.doomed job ≡ true
      → Step s (record s { ready = update s.ready job false })
  -- `schedi_job_unmark_ready` fails after a cache without room: the job stays READY.
  keeps_mark :
      (s : State) (t i job : ℕ)
      → s.thread t ≡ putting i job
      → maximum_jobs ≤ i
      → s.doomed job ≡ true
      → Step s (act t outside s)
  -- `schedi_job_pickready` leaves a job that is banned from access where it is, READY, in no slot.
  drops :
      (s : State) (t job : ℕ)
      → s.thread t ≡ holding job
      → s.doomed job ≡ true
      → Step s (act t outside s)
  -- The rest of `schedi_job_pickready`, for which the job is READY no longer.
  hands_out :
      (s : State) (t job : ℕ)
      → s.thread t ≡ holding job
      → Step s (record (act t outside s) { ready = update s.ready job false })
  -- `schedi_cache_job_ready` of a reorganization, or of a job with 15 accesses.
  puts_back : (s : State) (t job : ℕ) → s.thread t ≡ holding job → Step s (act t (putting 0 job) s)

pub data Reach : State → Type 0 where
  begin : Reach start
  step : (s t : State) → Reach s → Step s t → Reach t
