-- ===== src/Jobs/Tools.antt =====
-- The counted updates of a job's word with the call of `schedi_job_setready` that completes them,
-- and the functions of src/jobs.c that make them: thresholds, available jobs and READYBASIC.
use schedi.Prelude.{ℕ, ◌-◌, ◌^◌, Bool, true, false, some, bit_or, leb, if◌then◌else◌}
use schedi.Prelude.Int.{ℤ, pos, negsuc}
use schedi.Atomic.{atomic}
use schedi.Meta.{Outcome, done, banned, out_of_range, cas_update}
use schedi.Meta.Flag
use schedi.Jobs.{System, modify, set_meta, setready}

-- An `unsigned int` as an `int`.
abbrev pub to_int : ℕ → ℤ
to_int w = if leb (2 ^ 31) w then negsuc (2 ^ 32 - 1 - w) else pos w

-- `unlock_error` is what `pthread_mutex_unlock` returns in `schedi_job_setready`.
module _ (unlock_error : ℕ) where
  -- What follows the loop of `schedi_job_meta_flag_cas_update`.
  unfoldable pub finish_update : ℕ → Outcome → System → ℤ × System
  finish_update i (done true) s = (pos 0, (setready unlock_error i s).1)
  finish_update i (done false) s = (pos 0, s)
  finish_update i (banned ban) s = (to_int ban, s)
  finish_update i out_of_range s = (negsuc 0, s)

  unfoldable pub update_job :
      (sock_delta wait_delta jobcount_delta : ℤ) (flag banned_flags : ℕ) (ban_access : Bool)
      → ℕ
      → System
      → ℤ × System
  unfolding finish_update
  update_job sock_delta wait_delta jobcount_delta flag banned_flags ban_access i s =
      let job = s.jobs i in
      let out =
        atomic
          (cas_update (record {
            required_socks = job.required_available_sockets;
            required_jobs = job.required_available_jobs;
            sock_delta = sock_delta;
            wait_delta = wait_delta;
            jobcount_delta = jobcount_delta;
            flag = flag;
            banned_flags = banned_flags;
            ban_access = ban_access;
          }))
          job.meta_flag in
      finish_update i out.0 (modify (set_meta out.1) i s)

  abbrev pub positive : ℤ → ℕ
  positive (pos n) = n
  positive (negsuc n) = 0

  unfoldable pub mark_or_readiness :
      (flag banned_flags : ℕ) (ban_access : Bool) → ℕ → System → ℕ × System
  unfolding update_job
  mark_or_readiness flag banned_flags ban_access i s =
      let out = update_job (pos 0) (pos 0) (pos 0) flag banned_flags ban_access i s in
      (positive out.0, out.1)

  unfoldable pub mark_readybasic : ℕ → System → ℕ × System
  unfolding mark_or_readiness
  mark_readybasic = mark_or_readiness Flag.readybasic (bit_or Flag.unstable Flag.wlldestroy) false

  unfoldable pub required_available_socket : ℕ → ℤ → System → System
  required_available_socket i count s =
      (update_job (pos 0) (pos 0) (pos 0) 0 0 false i
        (modify (λ job. record job { required_available_sockets = count }) i s)).1

  unfoldable pub required_available_jobs : ℕ → ℤ → System → System
  required_available_jobs i count s =
      (update_job (pos 0) (pos 0) (pos 0) 0 0 false i
        (modify (λ job. record job { required_available_jobs = count }) i s)).1

  unfoldable pub add_available_job : ℕ → System → ℤ × System
  add_available_job = update_job (pos 0) (pos 0) (pos 1) 0 0 false

-- `schedi_job_tool_job`
unfoldable pub tool_job : (user_job target_job : ℕ) → System → System
tool_job user_job target_job s =
    modify
      (λ job. record job {
        requested_job = some user_job;
        requested_job_gen = (s.jobs user_job).gen;
      })
      target_job s
