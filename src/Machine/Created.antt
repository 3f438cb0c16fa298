-- ===== src/Machine/Created.antt =====
-- `schedi_job_tool_epollsocket` of src/jobs.c in the build with SCHEDI_EXT_TIMEOUT: a socket gets a
-- timer before it is registered.
use schedi.Prelude.{ℕ, ◌==◌, Bool, false, Option, none, some, if◌then◌else◌}
use schedi.Prelude.Int.{ℤ, pos, negsuc}
use schedi.Queue.{update}
use schedi.Kernel.{Kernel, nonzero}
use schedi.Socket.{ready, meets}
use schedi.Socket.Timed.{initial_timed}
use schedi.Machine.{Machine, with_system, with_kernel}
use schedi.Machine.Sockets.{new_socket, update_socks, abandoned}
use schedi.Machine.Timers.{Timers, epollisize_timed}

abbrev is_minus_one : ℤ → Bool
is_minus_one (pos n) = false
is_minus_one (negsuc n) = n == 0

module _ (unlock_error : ℕ) {K : Type 0} (os : Kernel K) where
  -- From `schedi_job_epollsocket_epollisize` on, with the label `fail_epollisize`.
  unfoldable pub opened_timed :
      (fd : ℤ) (i p : ℕ) (is_ready : Bool) → Option (ℤ × Machine K) → Option (Option ℕ × Machine K)
  opened_timed fd i p is_ready none = none
  opened_timed fd i p is_ready (some (r, m)) =
      if nonzero r
      then some
          (none, abandoned unlock_error os i p is_ready (with_kernel (os.close fd m.host.kernel) m))
      else some (some p, m)

  -- The timer of the new socket.
  abbrev pub with_timer : Timers K → (p timeout_sec : ℕ) (fd : ℤ) → Timers K
  with_timer timers p timeout_sec fd = record timers {
    timeout_sec = update timers.timeout_sec p timeout_sec;
    to_timer_fd = update timers.to_timer_fd p fd;
  }

  -- From `timerfd_create` on.
  unfoldable pub timer_created :
      Timers K
      → (i p timeout_sec : ℕ) (is_ready : Bool) → ℤ × K
      → Machine K
      → Option (Option ℕ × (Timers K × Machine K))
  unfolding opened_timed
  timer_created timers i p timeout_sec is_ready (fd, k) m =
      let timers' = with_timer timers p timeout_sec fd in
      let m' = with_kernel k m in
      if is_minus_one fd
      then some (none, (timers', abandoned unlock_error os i p is_ready m'))
      else elim (opened_timed fd i p is_ready (epollisize_timed unlock_error os timers' p m')) [
        | none ↦ none
        | some (r, m'') ↦ some (r, (timers', m''))
      ]

  -- `schedi_job_tool_epollsocket`, as without the option up to the timer.
  unfoldable pub tool_epollsocket_timed :
      (timerfd_create : K → ℤ × K)
      → Timers K
      → (i : ℕ) (socketfd : ℤ) (read_cond write_cond timeout_sec : ℕ) → Machine K
      → Option (Option ℕ × (Timers K × Machine K))
  unfolding timer_created
  tool_epollsocket_timed timerfd_create timers i socketfd read_cond write_cond timeout_sec m =
      let mem = os.malloc m.host.kernel in
      elim mem.0 [
        | none ↦ none
        | some p ↦
            let s = m.host.system in
            let sock =
              record (new_socket i (s.jobs i).gen socketfd read_cond write_cond (m.sockets p)) {
                htc = initial_timed read_cond write_cond;
              } in
            let is_ready = meets sock.htc ready in
            let s' = if is_ready then (update_socks unlock_error os (pos 1) i s).1 else s in
            timer_created timers i p timeout_sec is_ready (timerfd_create mem.1)
              (with_system s' (record m { sockets = update m.sockets p sock }))
      ]
