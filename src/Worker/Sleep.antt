-- ===== src/Worker/Sleep.antt =====
-- The sleep of the workers against their shutdown: `worker_routine` and `schedi_worker_deinit` of
-- src/worker.c with the mutex and the condition that they share (`schedi_pickingreadyjob`,
-- `schedi_waitforjob`, `schedi_pickedreadyjob` and the calls that wake workers, src/jobs.c), as the
-- steps of any number of workers and one caller of `schedi_worker_deinit`.
use schedi.Prelude.{ℕ, ◌≡◌, Bool, true, false}
use schedi.Queue.{update}

-- Who holds `readyjob_mutex`.
pub data Owner : Type 0 where
  nobody : Owner
  worker : ℕ → Owner
  closer : Owner

-- Where a worker is: outside the mutex; inside it, with no job found; past its test of `shutdown`;
-- asleep in `pthread_cond_wait`; woken, before it has the mutex again; out of its loop.
pub data Place : Type 0 where
  outside inside tested asleep woken gone : Place

-- Where `schedi_worker_deinit` is: before its lock, inside, past the marks, past the broadcast, past
-- the unlock.
pub data Phase : Type 0 where
  before locked marked signalled unlocked : Phase

pub record State : Type 0 where
  pub owner : Owner
  pub place : ℕ → Place
  pub phase : Phase
  pub shutdown : Bool

abbrev pub start : State
start = record { owner = nobody; place = λ i. outside; phase = before; shutdown = false }

abbrev pub wake : Place → Place
wake asleep = woken
wake p = p

abbrev pub move : ℕ → Place → Owner → State → State
move i p o s = record s { owner = o; place = update s.place i p }

-- One step of worker i, or of the caller of `schedi_worker_deinit`.
pub data Step : State → State → Type 0 where
  -- `schedi_pickingreadyjob`
  picking :
      (s : State) (i : ℕ)
      → s.place i ≡ outside
      → s.owner ≡ nobody
      → Step s (move i inside (worker i) s)
  -- A job is found: `schedi_pickedreadyjob`.
  found : (s : State) (i : ℕ) → s.place i ≡ inside → Step s (move i outside nobody s)
  -- `if(ctx->shutdown)` under the mutex.
  leaves :
      (s : State) (i : ℕ) → s.place i ≡ inside → s.shutdown ≡ true → Step s (move i gone nobody s)
  stays :
      (s : State) (i : ℕ)
      → s.place i ≡ inside
      → s.shutdown ≡ false
      → Step s (move i tested s.owner s)
  -- `pthread_cond_wait` gives the mutex up, and may wake for no reason.
  sleeps : (s : State) (i : ℕ) → s.place i ≡ tested → Step s (move i asleep nobody s)
  wakes : (s : State) (i : ℕ) → s.place i ≡ asleep → Step s (move i woken s.owner s)
  -- It returns with the mutex, which `schedi_waitforjob` unlocks.
  waited :
      (s : State) (i : ℕ) → s.place i ≡ woken → s.owner ≡ nobody → Step s (move i outside nobody s)
  -- `while (!ctx->shutdown)`
  ends :
      (s : State) (i : ℕ) → s.place i ≡ outside → s.shutdown ≡ true → Step s (move i gone s.owner s)
  -- `schedi_worker_deinit`
  locks :
      (s : State)
      → s.phase ≡ before
      → s.owner ≡ nobody
      → Step s (record s { owner = closer; phase = locked })
  marks : (s : State) → s.phase ≡ locked → Step s (record s { phase = marked; shutdown = true })
  signals :
      (s : State)
      → s.phase ≡ marked
      → Step s (record s { phase = signalled; place = λ i. wake (s.place i) })
  unlocks :
      (s : State) → s.phase ≡ signalled → Step s (record s { owner = nobody; phase = unlocked })

pub data Reach : State → Type 0 where
  begin : Reach start
  step : (s t : State) → Reach s → Step s t → Reach t

abbrev pub holds : Phase → Bool
holds before = false
holds unlocked = false
holds p = true

abbrev pub has_marked : Phase → Bool
has_marked before = false
has_marked locked = false
has_marked p = true

abbrev pub has_signalled : Phase → Bool
has_signalled signalled = true
has_signalled unlocked = true
has_signalled p = false
