-- ===== src/Jobs.antt =====
-- The life of a job (src/jobs.c, `struct schedi_job` of include/schedi/jobs.h): creation, readiness,
-- picking and destruction, over the section table, the ready jobs cache and the destroy queue.
-- A job is the index of its slot. Each function runs as one step, with no other thread between.
pub mod Create
pub mod Destroy
pub mod Check
pub mod End
pub mod Ready
pub mod Pick
pub mod Words
pub mod Threads
pub mod Picked
pub mod Tools
pub mod Complete
mod Tests
use schedi.Prelude.{
  ℕ, zero, suc, ◌+◌, ◌-◌, ◌*◌, ◌%◌, ◌^◌, bit_and, bit_or, Bool, true, false, not, Option, none,
  some, List, ◌==◌, leb, ltb, if◌then◌else◌,
}
use schedi.Prelude.Int.{ℤ, pos, negsuc, ◌+ℤ◌}
use schedi.Atomic.{Attempt, atomic}
use schedi.Sections
use schedi.Sections.{Section}
use schedi.Meta.{
  Outcome, done, banned, out_of_range, Change, cas_update, mark_unstable, mark_wlldestroy,
  mark_ready, unmark_ready, unmark_readybasic, mark_access, mark_or_default,
}
use schedi.Meta.Flag
use schedi.Cache.{Cache, cache_job_ready, cache_job_ready_pop}
use schedi.Queue.{Queue, dq_push, dq_super_pop, dq_super_push, dq_dec_count, htc_count, update}

-- `enum schedi_job_state`
pub data State : Type 0 where
  nulljob suspended readywaiting working destroying : State

-- `run` and `dtor` are function pointers, `context` the pointer that they are given.
pub record Job : Type 0 where
  pub phase : ℕ
  pub gen : ℕ
  pub state : State
  pub meta_flag : ℕ
  pub total_req : ℕ
  pub ret_count : ℕ
  pub err_count : ℕ
  pub required_available_sockets : ℤ
  pub requested_job : Option ℕ
  pub requested_job_gen : ℕ
  pub required_available_jobs : ℤ
  pub completion_indicator : Option ℕ
  pub run : ℕ
  pub context : ℕ
  pub dtor : Option ℕ

-- The static data of the file. `warn` is SCHEDI_JOB_ARRAY_SECTION_WARN.
pub record System : Type 0 where
  pub jobs : ℕ → Job
  pub empty_sections : List Section
  pub warn : Bool
  pub cache : Cache
  pub dq : Queue

abbrev pub modify : (Job → Job) → ℕ → System → System
modify f i s = record s { jobs = update s.jobs i (f (s.jobs i)) }

abbrev pub set_meta : ℕ → Job → Job
set_meta w job = record job { meta_flag = w }

abbrev pub set_state : State → Job → Job
set_state st job = record job { state = st }

-- A mark of job i.
abbrev pub mark : (ℕ → Attempt ℕ) → ℕ → System → ℕ × System
mark body i s = let out = atomic body (s.jobs i).meta_flag in (out.0, modify (set_meta out.1) i s)

-- What `schedi_job_create` writes into a claimed slot; `gen` and the completion indicator stay.
abbrev pub fresh : (context run : ℕ) (dtor : Option ℕ) → Job → Job
fresh context run dtor job = record job {
  phase = 0;
  state = suspended;
  requested_job = none;
  requested_job_gen = 0;
  context = context;
  run = run;
  dtor = dtor;
  total_req = 0;
  ret_count = 0;
  err_count = 0;
  required_available_sockets = pos 0;
  required_available_jobs = pos 0;
  meta_flag =
      bit_or (bit_or (bit_or Flag.alive Flag.readyepollsock) Flag.readyepolltool) Flag.readyjob;
}

pub created :
    (context run : ℕ) (dtor : Option ℕ) → System → Option ℕ × List Section → Option ℕ × System
created context run dtor s (none, ss) = (none, record s { empty_sections = ss })
created context run dtor s (some i, ss) =
    (some i, modify (fresh context run dtor) i (record s { empty_sections = ss }))

pub create : (context run : ℕ) (dtor : Option ℕ) → System → Option ℕ × System
unfolding created
create context run dtor s = created context run dtor s (Sections.claim s.empty_sections)

-- After `schedi_cache_job_ready` in `schedi_job_setready`: without room the mark is taken back.
pub stored : ℕ → System → ℤ × Cache → ℤ × System
stored i s (pos zero, c) = (pos 0, record s { cache = c })
stored i s (pos (suc n), c) = (negsuc 1, (mark unmark_ready i (record s { cache = c })).1)
stored i s (negsuc n, c) = (negsuc 1, (mark unmark_ready i (record s { cache = c })).1)

-- The end of `schedi_job_setready`: the job has been marked READY now, or had been before.
pub enqueue : ℕ → ℕ → System → ℤ × System
unfolding stored
enqueue i marked s = if marked == 0 then stored i s (cache_job_ready i s.cache) else (negsuc 0, s)

-- `schedi_job_setready`. `unlock_error` is what `pthread_mutex_unlock` returns, 0 on success.
pub setready : (unlock_error : ℕ) → ℕ → System → ℤ × System
unfolding enqueue
setready unlock_error i s =
    let marked = mark mark_ready i s in
    let out = enqueue i marked.0 (modify (set_state readywaiting) i marked.1) in
    (if unlock_error == 0 then out.0 else out.0 +ℤ negsuc 9, out.1)

-- What `schedi_job_pickready` does with a job from the cache: it is `some` result, or none where it
-- goes back to pop another.
pub picked : ℕ → ℕ → System → Option (Option ℕ) × System
picked i bans s =
    if not (bit_and bans Flag.unstable == 0)
    then (none, s)
    else if not (bit_and bans Flag.access == 0)
    then (some none, record s { cache = (cache_job_ready i s.cache).1 })
    else if not (bans == 0)
    then (some none, s)
    else (some (some i), (mark unmark_readybasic i (mark unmark_ready i s).1).1)

abbrev pub access_popped : Option ℕ → System → Option (Option ℕ) × System
access_popped none s = (some none, s)
access_popped (some i) s = let out = mark mark_access i s in picked i out.0 out.1

-- One round.
pub pick_round : System → Option (Option ℕ) × System
unfolding picked
pick_round s =
    let out = cache_job_ready_pop s.cache in access_popped out.0 (record s { cache = out.1 })

-- `schedi_job_pickready` on fuel; `none` where the fuel runs out.
pub pickready : ℕ → System → Option (Option ℕ) × System
unfolding pick_round
pickready zero s = (none, s)
pickready (suc fuel) s =
    let out = pick_round s in
    let rest = pickready fuel out.1 in
    elim out.0 [ none ↦ rest | some result ↦ (some result, out.1) ]

-- `address` is where the linker puts the slots, `call` what a destructor does to the data.
module _ (address : ℕ → ℕ) (call : ℕ → ℕ → System → System) where
  abbrev pub call_dtor : Job → System → System
  call_dtor job s = elim job.dtor [ none ↦ s | some dtor ↦ call dtor job.context s ]

  abbrev pub release_slot : ℕ → System → System
  release_slot i s =
      let out = Sections.release i s.empty_sections in
      record s { empty_sections = out.0; warn = elim out.1 [ true ↦ true | false ↦ s.warn ] }

  -- What `schedi_job_destroy_now` does past its guard.
  abbrev pub tear_down : ℕ → System → System
  tear_down i s =
      let s₁ =
        modify (λ job. record job { gen = (job.gen + 1) % 2 ^ 64; state = destroying }) i s in
      let s₂ = call_dtor (s₁.jobs i) s₁ in
      release_slot i (modify (λ job. record job { state = nulljob; meta_flag = 0 }) i s₂)

  -- `if(! schedi_job_mark_unstable(job) ) return 0;`: the mark returns 0 where it succeeds.
  pub destroy_now : ℕ → System → ℕ × System
  destroy_now i s =
      let out = mark mark_unstable i s in if out.0 == 0 then (0, out.1) else (1, tear_down i out.1)

  pub queued : ℕ → System → ℤ × Queue → ℤ × System
  queued i s (pos n, d) = (negsuc 0, record s { dq = d })
  queued i s (negsuc n, d) =
      (negsuc 1, (mark (mark_or_default Flag.destroynotent) i (record s { dq = d })).1)

  pub destroy : ℕ → System → ℤ × System
  unfolding destroy_now queued
  destroy i s =
      let out = destroy_now i (mark mark_wlldestroy i s).1 in
      if not (out.0 == 0) then (pos 0, out.1) else queued i out.1 (dq_push address i out.1.dq)

  -- The rounds of `schedi_job_destroy_queue_check` that are left.
  pub retry : ℕ → System → System
  unfolding destroy_now
  retry zero s = s
  retry (suc n) s =
      let out = dq_super_pop address s.dq in
      elim out.0 [
        | none ↦ record s { dq = out.1 }
        | some i ↦
            let now = destroy_now i (record s { dq = out.1 }) in
            let s' = now.1 in
            let d = if now.0 == 0 then (dq_super_push address i s'.dq).1 else dq_dec_count s'.dq in
            retry n (record s' { dq = d })
      ]

  pub destroy_queue_check : System → System
  unfolding retry
  destroy_queue_check s = retry (htc_count s.dq.htc) s
