-- ===== src/Worker/Wakeup.antt =====
-- The sleep of the workers against jobs that become ready: `worker_routine` of src/worker.c and
-- `schedi_job_setready` of src/jobs.c around `readyjob_mutex` and `readyjob_cond`, as the steps of
-- workers 0 to n - 1 and any threads that set jobs ready. The cache is the number of jobs
-- where `schedi_job_pickready` looks, which the reorganization of a worker that is awake raises as
-- well.
-- `missed` says that a `schedi_job_pickready` has met a job that it could not access, for which it
-- returns NULL whatever else is in the cache.
use schedi.Prelude.{ℕ, suc, ◌+◌, ◌<◌, ◌≡◌, ◌≢◌, ◌⊎◌, Bool, true, false}
use schedi.Queue.{update}
use schedi.Worker.Sleep.{Place, outside, inside, tested, asleep, woken}

-- Who holds `readyjob_mutex`.
pub data Locker : Type 0 where
  free : Locker
  worker : ℕ → Locker
  setter : ℕ → Locker

-- Where a thread is in `schedi_job_setready`: outside, past the lock, past the store into the cache,
-- past the signal.
pub data Setting : Type 0 where
  away entered stored told : Setting

pub record State : Type 0 where
  pub owner : Locker
  pub place : ℕ → Place
  pub setting : ℕ → Setting
  pub jobs : ℕ
  pub missed : Bool

abbrev pub start : State
start = record { owner = free; place = λ i. outside; setting = λ t. away; jobs = 0; missed = false }

abbrev pub move : ℕ → Place → Locker → ℕ → State → State
move i p o jobs s = record s { owner = o; place = update s.place i p; jobs = jobs }

abbrev pub turn : ℕ → Setting → Locker → State → State
turn t p o s = record s { owner = o; setting = update s.setting t p }

module _ (n : ℕ) where
  -- A worker is outside the mutex.
  abbrev pub Looks : State → Type 0
  Looks s = (i : ℕ) × ((i < n) × (s.place i ≡ outside))

  pub data Step : State → State → Type 0 where
    -- The first `schedi_job_pickready`, without the mutex.
    picks :
        (s : State) (i k : ℕ)
        → i < n
        → s.place i ≡ outside
        → s.jobs ≡ suc k
        → Step s (move i outside s.owner k s)
    -- `schedi_ready_jobs_cache_reorganize_tick`, without the mutex.
    ticks :
        (s : State) (i k : ℕ)
        → i < n
        → s.place i ≡ outside
        → Step s (record s { jobs = s.jobs + k })
    -- `schedi_pickingreadyjob`
    locks :
        (s : State) (i : ℕ)
        → i < n
        → s.place i ≡ outside
        → s.owner ≡ free
        → Step s (move i inside (worker i) s.jobs s)
    -- The second `schedi_job_pickready` finds a job: `schedi_pickedreadyjob`.
    finds :
        (s : State) (i k : ℕ)
        → i < n
        → s.place i ≡ inside
        → s.jobs ≡ suc k
        → Step s (move i outside free k s)
    -- It returns NULL: no job is there, or a worker outside is at its reorganization and moves it.
    fails :
        (s : State) (i : ℕ)
        → i < n
        → s.place i ≡ inside
        → (s.jobs ≡ 0) ⊎ Looks s
        → Step s (move i tested s.owner s.jobs s)
    -- It returns NULL for a job with 15 accesses, which it puts back, or one that is WLLDESTROY, which
    -- it leaves out of the cache: k are left.
    misses :
        (s : State) (i k : ℕ)
        → i < n
        → s.place i ≡ inside
        → Step s (record (move i tested s.owner k s) { missed = true })
    -- The same without the mutex.
    misses_outside :
        (s : State) (i k : ℕ)
        → i < n
        → s.place i ≡ outside
        → Step s (record s { jobs = k; missed = true })
    -- `pthread_cond_wait` of `schedi_waitforjob`, which may wake for no reason.
    sleeps : (s : State) (i : ℕ) → i < n → s.place i ≡ tested → Step s (move i asleep free s.jobs s)
    wakes :
        (s : State) (i : ℕ) → i < n → s.place i ≡ asleep → Step s (move i woken s.owner s.jobs s)
    -- It returns with the mutex, which `schedi_waitforjob` unlocks.
    returns :
        (s : State) (i : ℕ)
        → i < n
        → s.place i ≡ woken
        → s.owner ≡ free
        → Step s (move i outside free s.jobs s)
    -- `schedi_job_setready`
    enters :
        (s : State) (t : ℕ)
        → s.setting t ≡ away
        → s.owner ≡ free
        → Step s (turn t entered (setter t) s)
    -- The job goes into the cache, where it can be found (k is 1) or only after a tick (k is 0).
    stores :
        (s : State) (t k : ℕ)
        → s.setting t ≡ entered
        → Step s (record (turn t stored s.owner s) { jobs = s.jobs + k })
    -- It is ready already or the cache refuses it: no signal.
    refuses : (s : State) (t : ℕ) → s.setting t ≡ entered → Step s (turn t told s.owner s)
    -- `pthread_cond_signal` wakes a worker that sleeps, if there is one.
    signals :
        (s : State) (t i : ℕ)
        → s.setting t ≡ stored
        → i < n
        → s.place i ≡ asleep
        → Step s (record (turn t told s.owner s) { place = update s.place i woken })
    signals_nobody :
        (s : State) (t : ℕ)
        → s.setting t ≡ stored
        → ((i : ℕ) → i < n → s.place i ≢ asleep)
        → Step s (turn t told s.owner s)
    exits : (s : State) (t : ℕ) → s.setting t ≡ told → Step s (turn t away free s)

  pub data Reach : State → Type 0 where
    begin : Reach start
    step : (s t : State) → Reach s → Step s t → Reach t
