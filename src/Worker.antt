-- ===== src/Worker.antt =====
-- src/worker.c: the loop of a worker over the life of a job, and the workers' start and end.
-- Built without LOCKLESS_READYJOB.
pub mod Pool
pub mod Execute
pub mod Runs
pub mod Sleep
pub mod Awake
pub mod Wakeup
pub mod Found
mod Tests
use schedi.Prelude.{
  ℕ, zero, suc, ◌==◌, Bool, true, false, not, List, [], ◌∷◌, Option, none, some, if◌then◌else◌,
}
use schedi.Prelude.Int.{ℤ, pos, negsuc}
use schedi.Meta.{mark_access, unmark_access, mark_executing, unmark_executing}
use schedi.Cache.{reorganize_tick}
use schedi.Queue.{update}
use schedi.Jobs.{
  State, working, suspended, Job, System, modify, set_state, mark, pickready, destroy,
  destroy_queue_check,
}
use schedi.Jobs.Tools.{add_available_job, mark_readybasic}

-- `completed` is the `completion` of each `struct schedi_job_completion_indicator`.
pub record Process : Type 0 where
  pub system : System
  pub completed : ℕ → Bool

-- `schedi_completion_indicator_init`
abbrev pub completion_indicator_init : ℕ → Process → Process
completion_indicator_init indicator p = record p { completed = update p.completed indicator false }

-- `schedi_job_completion_indicate`
unfoldable pub completion_indicate : ℕ → Process → Process
completion_indicate i p = elim (p.system.jobs i).completion_indicator [
  | none ↦ p
  | some indicator ↦ record p { completed = update p.completed indicator true }
]

-- `schedi_job_completion_wait`: `slept` is what the other threads do while it waits, for which it
-- has one `pthread_cond_wait` and no loop.
unfoldable pub completion_wait : (slept : Process → Process) → ℕ → Process → Process
completion_wait slept indicator p = if p.completed indicator then p else slept p

abbrev pub in_system : (System → System) → Process → Process
in_system f p = record p { system = f p.system }

-- One round of the loop in `worker_routine`: what `ctx->shutdown` is at its two loads, and what the
-- other threads do between the two calls of `schedi_job_pickready` and while the worker sleeps.
pub record Round : Type 0 where
  pub shutdown : Bool
  pub shutdown_locked : Bool
  pub between : Process → Process
  pub slept : Process → Process

-- `unlock_error` is what `pthread_mutex_unlock` returns in `schedi_job_setready`, `address` where
-- the slots are, `call` what a destructor does, `run` what the function of a job does and returns.
module _ (unlock_error : ℕ) (address : ℕ → ℕ) (call : ℕ → ℕ → System → System)
    (run : (function job : ℕ) → System → ℤ × System) where
  -- The lines of `worker_routine` that tell the job that waits for this one.
  unfoldable pub notify : ℕ → System → System
  notify i s = elim (s.jobs i).requested_job [
    | none ↦ s
    | some rjob ↦
        let out = mark mark_access rjob s in
        let s' = out.1 in
        let told =
          if (s'.jobs rjob).gen == (s'.jobs i).requested_job_gen
          then (add_available_job unlock_error rjob s').1
          else s' in
        if out.0 == 0 then (mark unmark_access rjob told).1 else s'
  ]

  -- What it does with the return value of the job.
  pub finish : ℤ → ℕ → Process → Process
  unfolding notify completion_indicate
  finish (pos r) i p = if r == 1 then in_system (λ s. (mark_readybasic unlock_error i s).1) p else p
  finish (negsuc r) i p =
      in_system (λ s. (destroy address call i (notify i s)).1) (completion_indicate i p)

  -- The call of the job, between the marks.
  abbrev pub run_job : ℕ → System → ℤ × System
  run_job i s =
      let out = run (s.jobs i).run i (mark unmark_access i s).1 in
      (out.0, (mark unmark_executing i (modify (set_state suspended) i out.1)).1)

  -- From the label `_got_a_job` on.
  unfoldable pub execute : ℕ → Process → Process
  unfolding finish
  execute i p =
      let out = mark mark_executing i (modify (set_state working) i p.system) in
      if not (out.0 == 0)
      then record p { system = out.1 }
      else (let ran = run_job i out.1 in finish ran.0 i (record p { system = ran.1 }))

  -- From the label `_continue` on.
  unfoldable pub tidy : Process → Process
  tidy = in_system (λ s.
      let s' = destroy_queue_check address call s in record s' { cache = reorganize_tick s'.cache })

  -- After the second `schedi_job_pickready`; whether the loop goes on.
  pub picked_locked : Round → Option (Option ℕ) × System → Process → Option (Bool × Process)
  unfolding execute tidy
  picked_locked r (none, s) p = none
  picked_locked r (some none, s) p =
      if r.shutdown_locked
      then some (false, record p { system = s })
      else some (true, tidy (r.slept (record p { system = s })))
  picked_locked r (some (some i), s) p = some (true, tidy (execute i (record p { system = s })))

  -- After the first; `fuel` is for the second.
  pub picked_first : ℕ → Round → Option (Option ℕ) × System → Process → Option (Bool × Process)
  unfolding picked_locked execute tidy
  picked_first fuel r (none, s) p = none
  picked_first fuel r (some none, s) p =
      let p' = r.between (record p { system = s }) in picked_locked r (pickready fuel p'.system) p'
  picked_first fuel r (some (some i), s) p = some (true, tidy (execute i (record p { system = s })))

  unfoldable pub round : ℕ → Round → Process → Option (Bool × Process)
  unfolding picked_first picked_locked
  round fuel r p =
      if r.shutdown then some (false, p) else picked_first fuel r (pickready fuel p.system) p

  -- `worker_routine`; `none` where it is still in its loop after the rounds.
  unfoldable pub worker_routine : ℕ → List Round → Process → Option Process
  unfolding round
  worker_routine fuel [] p = none
  worker_routine fuel (r ∷ rs) p = elim (round fuel r p) [
    | none ↦ none
    | some (false, p') ↦ some p'
    | some (true, p') ↦ worker_routine fuel rs p'
  ]
