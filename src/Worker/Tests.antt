-- ===== src/Worker/Tests.antt =====
-- Runs of the workers.
use schedi.Prelude.{
  ℕ, ◌+◌, ◌*◌, ◌%◌, ◌≡◌, ◌≢◌, refl, true, false, ◌==◌, arith, not, ◌&&◌, none, some, [], ◌∷◌,
  replicate, ◌⊎◌, inl,
}
use schedi.Prelude.Int.{ℤ, pos}
use schedi.Meta.Flags.{flags}
use schedi.Sections.{init}
use schedi.Queue.{empty}
use schedi.Kernel.Sample.{idle, sample}
use schedi.Jobs.{setready, Job, System, suspended, working, readywaiting}
use schedi.Worker.{
  Process, Round, completion_indicate, completion_wait, execute, finish, tidy, round,
  worker_routine, notify,
}
use schedi.Cache.Inv.{IsCache}
use schedi.Jobs.Words.{word}
use schedi.Jobs.Ready.{markable}
use schedi.Worker.Runs.{setready-then-run}
use schedi.Worker.Execute.{at_call, suspends, execute-suspends}
use schedi.Worker.Pool.{Pool, worker_init, worker_deinit}
use schedi.Worker.Sleep.{
  start, inside, tested, asleep, signalled, marked, Reach, begin, step, locks, marks, signals,
  closer, locked,
}
use schedi.Worker.Awake.{Reach-awake}
use schedi.Worker.Wakeup
use schedi.Worker.Found.{AllAsleep, Signal, Reach-found}

abbrev nobody_yet : Pool
nobody_yet = record {
  workers = λ i. record { id = 0; shutdown = false; alive = false; thread = 0 };
  worker_count = 0;
}

three : (worker_init sample (pos 3) nobody_yet idle).1.worker_count ≡ 3
unfolding worker_init
three = refl

abbrev some_pool : Pool
some_pool = record nobody_yet { worker_count = 2 }

all_joined : (worker_deinit sample (pos 0) some_pool idle).0 ≡ pos 0
unfolding worker_deinit
all_joined = refl

-- A job that a worker has picked: one access, and READY taken away.
abbrev picked_word : ℕ
picked_word = 0x10200181

abbrev job_with : ℕ → Job
job_with w = record {
  phase = 0;
  gen = 0;
  state = readywaiting;
  meta_flag = w;
  total_req = 0;
  ret_count = 0;
  err_count = 0;
  required_available_sockets = pos 0;
  requested_job = none;
  requested_job_gen = 0;
  required_available_jobs = pos 0;
  completion_indicator = some 2;
  run = 1;
  context = 2;
  dtor = none;
}

abbrev process_with : ℕ → Process
process_with w = record {
  system = record {
    jobs = λ i. job_with w;
    empty_sections = init;
    warn = false;
    cache = record { slots = replicate 256 none; counter = 0; job_count = 0; full = false };
    dq = empty;
  };
  completed = λ indicator. false;
}

abbrev address : ℕ → ℕ
address job = 0x404000 + 96 * job

abbrev call : ℕ → ℕ → System → System
call dtor context s = s

-- A job that returns 0 and leaves the data alone.
abbrev run : (function job : ℕ) → System → ℤ × System
run function job s = (pos 0, s)

abbrev stolen_word : ℕ
stolen_word = 0x10200185

executing : (not (flags stolen_word).unstable && not (flags stolen_word).executing) ≡ false
unfolding flags
executing = refl

free : (not (flags picked_word).unstable && not (flags picked_word).executing) ≡ true
unfolding flags
free = refl

execute-suspends_example :
    let p = process_with picked_word in
    let found = at_call 0 address call run 5 p.system in
    let out = run (p.system.jobs 5).run 5 found in
    let s' = (execute 0 address call run 5 p).system in
    ((flags (word 5 found)).executing ≡ true)
    × (s' ≡ suspends 0 address call run 5 out.1)
    × ((s'.jobs 5).state ≡ suspended)
    × (flags (word 5 s')
        ≡ record (flags picked_word) { access = ((flags picked_word).access + 15) % 16 })
execute-suspends_example =
    execute-suspends 0 address call run 5 0 (process_with picked_word) free refl refl refl

indicated : (completion_indicate 5 (process_with picked_word)).completed 2 ≡ true
unfolding completion_indicate
indicated = refl

no_wait : (completion_wait (λ p. p) 2 (process_with picked_word)).completed 2 ≡ false
unfolding completion_wait
no_wait = refl

untold :
    notify 0 address call run 5 (process_with picked_word).system
    ≡ (process_with picked_word).system
unfolding notify
untold = refl

abbrev over : Round
over = record { shutdown = true; shutdown_locked = true; between = λ p. p; slept = λ p. p }

-- A worker that is shut down leaves its loop at once.
shut :
    worker_routine 0 address call run 1 (over ∷ []) (process_with picked_word)
    ≡ some (process_with picked_word)
unfolding worker_routine round
shut = refl

-- The caller of the shutdown goes as far as its broadcast.
woken_all : Reach (record start { owner = closer; phase = signalled; shutdown = true })
woken_all =
    step _ _
      (step _ _ (step _ _ begin (locks start refl refl))
        (marks (record start { owner = closer; phase = locked }) refl))
      (signals (record start { owner = closer; phase = marked; shutdown = true }) refl)

Reach-awake_example :
    (record start { owner = closer; phase = signalled; shutdown = true }).place 7 ≢ asleep
Reach-awake_example =
    Reach-awake (record start { owner = closer; phase = signalled; shutdown = true }) 7 woken_all
      refl

-- A job that nobody accesses, and that waits for nothing.
abbrev free_word : ℕ
free_word = 0x200181

abbrev on : Round
on = record { shutdown = false; shutdown_locked = false; between = λ p. p; slept = λ p. p }

empty-IsCache : IsCache (process_with free_word).system.cache
empty-IsCache = record {
  size = refl;
  count = refl;
  peak = omega arith;
  peak_in = omega arith;
  beyond = tt;
}

can_ready : markable (flags free_word) ≡ true
unfolding flags
can_ready = refl

not_full : ((flags free_word).access == 15) ≡ false
unfolding flags
not_full = refl

not_running : (flags free_word).executing ≡ false
unfolding flags
not_running = refl

setready-then-run_example :
    let p = process_with free_word in
    (s' : System) × (let out = run (p.system.jobs 5).run 5 s' in
      round 0 address call run 2 on (record p { system = (setready 0 5 p.system).1 })
      ≡ some (
        true,
        tidy 0 address call run (
            finish 0 address call run out.0 5
              (record p { system = suspends 0 address call run 5 out.1 })),
      ))
    × ((s'.jobs 5).state ≡ working)
    × (flags (word 5 s')
        ≡ record (flags free_word) { ready = false; readybasic = false; executing = true })
setready-then-run_example =
    setready-then-run 0 address call run 1 5 on (process_with free_word) empty-IsCache refl
      can_ready not_full not_running refl

-- One worker that has found nothing and sleeps, and a thread that has stored a job.
abbrev asleep_one : Wakeup.State
asleep_one = Wakeup.move 0 asleep Wakeup.free 0 (
    Wakeup.move 0 tested (Wakeup.worker 0) 0
      (Wakeup.move 0 inside (Wakeup.worker 0) 0 Wakeup.start))

abbrev stored_one : Wakeup.State
stored_one =
    record (Wakeup.turn 5 Wakeup.stored (Wakeup.setter 5)
      (Wakeup.turn 5 Wakeup.entered (Wakeup.setter 5) asleep_one)) { jobs = 1 }

stored_one-Reach : Wakeup.Reach 1 stored_one
stored_one-Reach =
    Wakeup.step _ _
      (Wakeup.step _ _
        (Wakeup.step _ _
          (Wakeup.step _ _
            (Wakeup.step _ _ Wakeup.begin (Wakeup.locks Wakeup.start 0 (omega arith) refl refl))
            (Wakeup.fails _ 0 (omega arith) refl (inl refl)))
          (Wakeup.sleeps _ 0 (omega arith) refl))
        (Wakeup.enters asleep_one 5 refl refl))
      (Wakeup.stores _ 5 1 refl)

one_asleep : AllAsleep 1 stored_one
one_asleep i low = ground arith

Reach-found_example : (stored_one.jobs ≡ 0) ⊎ Signal 1 stored_one
Reach-found_example = Reach-found 1 (omega arith) stored_one stored_one-Reach one_asleep refl
