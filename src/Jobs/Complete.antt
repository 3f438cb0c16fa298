-- ===== src/Jobs/Complete.antt =====
-- When a counted update of src/jobs.c makes its job ready.
use schedi.Prelude.{
  ℕ, ◌≡◌, ap₂, bit_and, bit_or, ◌∙◌, ap, Bool, true, false, not, ◌&&◌, ◌==◌, arith,
}
use schedi.Prelude.Int.{ℤ, pos, negsuc}
use mathlib.Core.Path.{subst}
use schedi.Prelude.Bits.{bit_and-zero, zero-bit_and}
use schedi.Meta.Flag
use schedi.Atomic.{atomic}
use schedi.Meta.{Outcome, done, Change, cas_update, ban_of}
use schedi.Meta.Flags.{flags}
use schedi.Meta.Update.{all_ready, fits, updated, Updates, cas_update_lem}
use schedi.Jobs.{Job, System, modify, set_meta, setready}
use schedi.Jobs.Destroy.{modify_same}
use schedi.Jobs.Tools.{finish_update, add_available_job, update_job}

-- The update of `schedi_job_add_available_job`.
abbrev pub one_more : Job → Change
one_more job = record {
  required_socks = job.required_available_sockets;
  required_jobs = job.required_available_jobs;
  sock_delta = pos 0;
  wait_delta = pos 0;
  jobcount_delta = pos 1;
  flag = 0;
  banned_flags = 0;
  ban_access = false;
}

-- The job's word with one more available job.
abbrev pub counted : ℕ → System → System
counted i s =
    modify (set_meta (atomic (cas_update (one_more (s.jobs i))) (s.jobs i).meta_flag).1) i s

finished :
    (e i : ℕ) (s : System) (c : Change) (w : ℕ) (out : Outcome × ℕ) (ready : Bool)
    → Updates c w true true out
    → (not (all_ready (flags w)) && all_ready (updated c (flags w))) ≡ ready
    → finish_update e i out.0 s ≡ (pos 0, elim ready [ true ↦ (setready e i s).1 | false ↦ s ])
unfolding finish_update
finished e i s c w (o, w') true u r = ap (λ (x : Outcome). finish_update e i x s) (u.1 ∙ ap done r)
finished e i s c w (o, w') false u r = ap (λ (x : Outcome). finish_update e i x s) (u.1 ∙ ap done r)

-- `schedi_job_add_available_job` of a job whose counts stay in range, and whose readiness set was
-- not complete and is complete with one more available job, returns 0 and calls
-- `schedi_job_setready`.
pub add_available_job_ready :
    (e i : ℕ) (s : System)
    → let c = one_more (s.jobs i) in
      let f = flags (s.jobs i).meta_flag in
      fits c f ≡ true
      → all_ready f ≡ false
      → all_ready (updated c f) ≡ true
      → add_available_job e i s ≡ (pos 0, (setready e i (counted i s)).1)
unfolding add_available_job update_job
add_available_job_ready e i s fit was now =
    let c = one_more (s.jobs i) in
    let w = (s.jobs i).meta_flag in
    let free : (ban_of 0 false w == 0) ≡ true =
      ap (λ (t : ℕ). t == 0) (ap₂ bit_or (bit_and-zero w) (zero-bit_and (bit_and w Flag.access))) in
    finished e i (counted i s) c w (atomic (cas_update c) w) true
      (subst (λ b. Updates c w true b (atomic (cas_update c) w)) fit
        (subst (λ b. Updates c w b (fits c (flags w)) (atomic (cas_update c) w)) free
          (cas_update_lem c w (omega arith))))
      (ground arith)

-- A counted update with no flag to set and no bans, whose counts would leave 0..15, changes nothing
-- and returns -1.
pub update_job-refused :
    (e i : ℕ) (sock_delta wait_delta jobcount_delta : ℤ) (s : System)
    → let job = s.jobs i in
      let c : Change = record {
        required_socks = job.required_available_sockets;
        required_jobs = job.required_available_jobs;
        sock_delta = sock_delta;
        wait_delta = wait_delta;
        jobcount_delta = jobcount_delta;
        flag = 0;
        banned_flags = 0;
        ban_access = false;
      } in
      fits c (flags job.meta_flag) ≡ false
      → update_job e sock_delta wait_delta jobcount_delta 0 0 false i s ≡ (negsuc 0, s)
unfolding update_job finish_update
update_job-refused e i sock_delta wait_delta jobcount_delta s off =
    let job = s.jobs i in
    let c : Change = record {
      required_socks = job.required_available_sockets;
      required_jobs = job.required_available_jobs;
      sock_delta = sock_delta;
      wait_delta = wait_delta;
      jobcount_delta = jobcount_delta;
      flag = 0;
      banned_flags = 0;
      ban_access = false;
    } in
    let w = job.meta_flag in
    let free : (ban_of 0 false w == 0) ≡ true =
      ap (λ (t : ℕ). t == 0) (ap₂ bit_or (bit_and-zero w) (zero-bit_and (bit_and w Flag.access))) in
    let u =
      subst (λ b. Updates c w true b (atomic (cas_update c) w)) off
        (subst (λ b. Updates c w b (fits c (flags w)) (atomic (cas_update c) w)) free
          (cas_update_lem c w (omega arith))) in
    rw u.0 (
      ap (λ (v : ℕ). (negsuc 0, modify (set_meta v) i s)) u.1
      ∙ ap (λ (t : System). (negsuc 0, t)) (modify_same i s))

-- A counted update after which the readiness set is not complete writes the job's word and no more.
pub update_job-waits :
    (e i : ℕ) (sock_delta wait_delta jobcount_delta : ℤ) (s : System)
    → let job = s.jobs i in
      let c : Change = record {
        required_socks = job.required_available_sockets;
        required_jobs = job.required_available_jobs;
        sock_delta = sock_delta;
        wait_delta = wait_delta;
        jobcount_delta = jobcount_delta;
        flag = 0;
        banned_flags = 0;
        ban_access = false;
      } in
      fits c (flags job.meta_flag) ≡ true
      → all_ready (updated c (flags job.meta_flag)) ≡ false
      → (w' : ℕ) × (flags w' ≡ updated c (flags job.meta_flag))
        × (update_job e sock_delta wait_delta jobcount_delta 0 0 false i s
            ≡ (pos 0, modify (set_meta w') i s))
unfolding update_job
update_job-waits e i sock_delta wait_delta jobcount_delta s fit incomplete =
    let job = s.jobs i in
    let c : Change = record {
      required_socks = job.required_available_sockets;
      required_jobs = job.required_available_jobs;
      sock_delta = sock_delta;
      wait_delta = wait_delta;
      jobcount_delta = jobcount_delta;
      flag = 0;
      banned_flags = 0;
      ban_access = false;
    } in
    let w = job.meta_flag in
    let free : (ban_of 0 false w == 0) ≡ true =
      ap (λ (t : ℕ). t == 0) (ap₂ bit_or (bit_and-zero w) (zero-bit_and (bit_and w Flag.access))) in
    let u =
      subst (λ b. Updates c w true b (atomic (cas_update c) w)) fit
        (subst (λ b. Updates c w b (fits c (flags w)) (atomic (cas_update c) w)) free
          (cas_update_lem c w (omega arith))) in
    let w' = (atomic (cas_update c) w).1 in
    (
      w',
      u.0,
      finished e i (modify (set_meta w') i s) c w (atomic (cas_update c) w) false u (ground arith),
    )
