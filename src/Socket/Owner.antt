-- ===== src/Socket/Owner.antt =====
-- A change of the packed word of an epoll socket together with the job that owns it (src/jobs.c):
-- the job counts the sockets that are READY.
use schedi.Prelude.{ℕ, Bool, true, false, not, ◌==◌, if◌then◌else◌}
use schedi.Prelude.Int.{ℤ, pos, negsuc}
use schedi.Atomic.{Attempt, atomic}
use schedi.Meta.{mark_access, unmark_access}
use schedi.Socket.{
  ready, meets, avail_add, count_add, mark_dead, done_cas_epollside, done_cas_jobside,
}
use schedi.Socket.Buffer.{Bytes, Socket, write_buffer_data, read}
use schedi.Jobs.{System, mark}
use schedi.Jobs.Tools.{update_job}

-- `schedi_job_epollsocket_accessjob`; on success the job is accessed.
unfoldable pub accessjob : Socket → System → Bool × System
accessjob sock s =
    let out = mark mark_access sock.job s in
    if not (out.0 == 0)
    then (false, out.1)
    else if (out.1.jobs sock.job).gen == sock.gen
    then (true, out.1)
    else (false, (mark unmark_access sock.job out.1).1)

abbrev pub same_bool : Bool → Bool → Bool
same_bool true b = b
same_bool false b = not b

-- `unlock_error` is what `pthread_mutex_unlock` returns in `schedi_job_setready`.
module _ (unlock_error : ℕ) where
  -- The counted update of `schedi_job_epollsocket_jobready_update`, with the job accessed or not.
  pub count_ready : Socket → (new_ready : Bool) → Bool × System → System
  count_ready sock new_ready (false, s) = s
  count_ready sock new_ready (true, s) =
      let delta = if new_ready then pos 1 else negsuc 0 in
      let out = update_job unlock_error delta (pos 0) (pos 0) 0 0 false sock.job s in
      (mark unmark_access sock.job out.1).1

  -- `schedi_job_epollsocket_jobready_update`
  unfoldable pub jobready_update : Socket → (old_htc new_htc : ℕ) → System → System
  unfolding count_ready
  jobready_update sock old_htc new_htc s =
      if same_bool (meets old_htc ready) (meets new_htc ready)
      then s
      else count_ready sock (meets new_htc ready) (accessjob sock s)

  -- A loop on the word, and the update of the job that follows it.
  unfoldable pub change : (ℕ → Attempt (Unit {0})) → Socket → System → Socket × System
  unfolding jobready_update
  change body sock s =
      let htc = (atomic body sock.htc).1 in
      (record sock { htc = htc }, jobready_update sock sock.htc htc s)

  abbrev pub epollsocket_avail_add : ℤ → Bool → Socket → System → Socket × System
  epollsocket_avail_add delta died sock =
      change (avail_add sock.write_avail_condition delta died) sock

  abbrev pub epollsocket_count_add : ℤ → Bool → Socket → System → Socket × System
  epollsocket_count_add delta died sock =
      change (count_add sock.read_count_condition delta died) sock

  abbrev pub epollsocket_dead : Socket → System → Socket × System
  epollsocket_dead = change mark_dead

  -- `schedi_job_epollsocket_done_` up to the fall of the count: `epollside` is 0 for the job.
  abbrev pub epollsocket_done_cas : (epollside : ℕ) → Socket → System → Socket × System
  epollsocket_done_cas epollside =
      if epollside == 0 then change done_cas_jobside else change done_cas_epollside

  -- `schedi_job_tool_epollsocket_read_cond` and `schedi_job_tool_epollsocket_write_cond`
  abbrev pub read_cond : ℕ → Socket → System → Socket × System
  read_cond condition sock =
      epollsocket_count_add (pos 0) false (record sock { read_count_condition = condition })

  abbrev pub write_cond : ℕ → Socket → System → Socket × System
  write_cond condition sock =
      epollsocket_avail_add (pos 0) false (record sock { write_avail_condition = condition })

  -- `schedi_job_epollsocket_write_buffer_data`, with its effect on the job.
  abbrev pub epollsocket_write_buffer_data :
      (payload : Bytes) (size : ℕ) → Socket → System → ℕ × Socket × System
  epollsocket_write_buffer_data payload size sock s =
      let out = write_buffer_data payload size sock in
      (out.0, out.1, jobready_update out.1 sock.htc out.1.htc s)

  -- `schedi_job_epollsocket_read` up to the call that wakes the epoll loop.
  abbrev pub epollsocket_drain :
      (payload : Bytes) (size : ℕ) → Socket → System → ℕ × Bytes × Socket × System
  epollsocket_drain payload size sock s =
      let out = read payload size sock in
      (out.0, out.1, out.2, jobready_update out.2 sock.htc out.2.htc s)
