-- ===== src/Machine/Timers.antt =====
-- Epoll sockets that time out, in the build with SCHEDI_EXT_TIMEOUT (src/jobs.c, src/epoll.c): the
-- timer of a socket and its way back to the epoll loop. The words are those of Socket.Timeout.
use schedi.Prelude.{ℕ, not, Option, none, some, if◌then◌else◌}
use schedi.Prelude.Int.{ℤ, pos, negsuc, ◌+ℤ◌}
use schedi.Queue.{update}
use schedi.Atomic.{atomic}
use schedi.Kernel.{Kernel, negative, nonzero}
use schedi.Epoll.{epoll_add, epoll_del, epoll_del_read}
use schedi.Socket.{ready, meets, done_cas_epollside}
use schedi.Socket.Timeout.{timeout_cas, untimeout}
use schedi.Socket.Owner.{jobready_update}
use schedi.Machine.{Machine, with_system, with_kernel}
use schedi.Machine.Sockets.{push_epoll, fallen}

abbrev pub data_timeout : ℕ
data_timeout = 101

-- The fields `timeout_sec` and `to_timer_fd` of the socket at each address, and `timerfd_settime` of a
-- descriptor and seconds.
pub record Timers (K : Type 0) : Type 0 where
  pub timeout_sec : ℕ → ℕ
  pub to_timer_fd : ℕ → ℤ
  pub timerfd_settime : ℤ → ℕ → K → ℤ × K

module _ (unlock_error : ℕ) {K : Type 0} (os : Kernel K) (timers : Timers K) where
  -- `schedi_job_epollsocket_timeout_reset` and `schedi_job_epollsocket_timeout_stop`
  abbrev pub timeout_reset : ℕ → K → ℤ × K
  timeout_reset p = timers.timerfd_settime (timers.to_timer_fd p) (timers.timeout_sec p)

  abbrev pub timeout_stop : ℕ → K → ℤ × K
  timeout_stop p = timers.timerfd_settime (timers.to_timer_fd p) 0

  -- A new word of the socket, with `schedi_job_epollsocket_jobready_update` of this build.
  abbrev pub set_word : (p htc : ℕ) → Machine K → Machine K
  set_word p htc m =
      let sock = m.sockets p in
      let s = jobready_update unlock_error sock sock.htc htc m.host.system in
      with_kernel (timeout_reset p m.host.kernel).1
        (with_system s (record m { sockets = update m.sockets p (record sock { htc = htc }) }))

  -- `schedi_job_epollsocket_timer_push_epoll`; `none` where `malloc` fails, whose NULL it writes
  -- through.
  unfoldable pub timer_push_epoll : ℕ → Machine K → Option (ℤ × Machine K)
  timer_push_epoll p m =
      let mem = os.malloc m.host.kernel in
      if negative (timers.to_timer_fd p) then some (negsuc 0, m) else elim mem.0 [
        | none ↦ none
        | some ptr ↦
            let out = epoll_add os m.host.epoll (timers.to_timer_fd p) ptr os.epollin mem.1 in
            some (
              if negative out.0 then negsuc 0 else pos 0,
              with_kernel out.1 (record m {
                data_at = update m.data_at ptr (record { type = data_timeout; ptr = p });
              }),
            )
      ]

  -- The label `fail_epoll_push`.
  abbrev pub fail_epoll_push : ℕ → Machine K → ℤ × Machine K
  fail_epoll_push p m = (
    negsuc 0,
    with_kernel (epoll_del_read os m.host.epoll (timers.to_timer_fd p) m.host.kernel) m,
  )

  -- From `schedi_job_epollsocket_timeout_reset` on.
  unfoldable pub rearmed : ℕ → Option (ℤ × Machine K) → Option (ℤ × Machine K)
  rearmed p none = none
  rearmed p (some (r, m)) =
      let out = timeout_reset p m.host.kernel in
      let m' = with_kernel out.1 m in
      if nonzero r
      then some (fail_epoll_push p m)
      else if nonzero out.0
      then some (
          fail_epoll_push p
            (with_kernel (epoll_del os m'.host.epoll (m'.sockets p).fd m'.host.kernel) m'))
      else some (pos 0, m')

  -- From `schedi_job_epollsocket_push_epoll` on.
  unfoldable pub timer_pushed : ℕ → Option (ℤ × Machine K) → Option (ℤ × Machine K)
  unfolding rearmed
  timer_pushed p none = none
  timer_pushed p (some (r, m)) =
      if nonzero r then some (negsuc 0, m) else rearmed p (push_epoll unlock_error os p m)

  -- `schedi_job_epollsocket_epollisize`
  unfoldable pub epollisize_timed : ℕ → Machine K → Option (ℤ × Machine K)
  unfolding timer_pushed timer_push_epoll
  epollisize_timed p m =
      let out = timeout_stop p m.host.kernel in
      let m' = with_kernel out.1 m in
      if nonzero out.0 then some (fail_epoll_push p m') else timer_pushed p (timer_push_epoll p m')

  -- `schedi_job_epollsocket_done_` of the epoll side.
  unfoldable pub done_timed : ℕ → Machine K → ℤ × Machine K
  done_timed p m =
      let m' = set_word p (atomic done_cas_epollside (m.sockets p).htc).1 m in
      fallen unlock_error os p (m'.sockets p, m'.host.system) m'

  -- `atomic_fetch_add(&_socket->fall, 1)`
  abbrev pub referenced : ℕ → Machine K → Machine K
  referenced p m =
      let sock = m.sockets p in
      record m { sockets = update m.sockets p (record sock { fall = sock.fall +ℤ pos 1 }) }

  -- The end of `schedi_job_epollsocket_epollagain`.
  unfoldable pub registered_again : ℕ → Option (ℤ × Machine K) → Option (ℤ × Machine K)
  unfolding done_timed
  registered_again p none = none
  registered_again p (some (r, m)) =
      if nonzero r then some (negsuc 0, (done_timed p m).1) else some (pos 0, m)

  -- `schedi_job_epollsocket_epollagain`
  unfoldable pub epollagain : ℕ → Machine K → Option (ℤ × Machine K)
  unfolding registered_again epollisize_timed
  epollagain p m =
      let out = atomic untimeout (m.sockets p).htc in
      if not out.0
      then some (negsuc 0, m)
      else registered_again p (epollisize_timed p (referenced p (set_word p out.1 m)))

  -- `schedi_epoll_del_socketcompletely`
  abbrev pub del_socketcompletely : ℕ → Machine K → K
  del_socketcompletely p m =
      let ep = m.host.epoll in
      epoll_del_read os ep (timers.to_timer_fd p) (epoll_del os ep (m.sockets p).fd m.host.kernel)

  -- The timer's event in `schedi_epoll_handle_read`; `d` is where its data is.
  unfoldable pub timer_event : (p d : ℕ) → Machine K → Machine K
  unfolding done_timed
  timer_event p d m =
      let sock = m.sockets p in
      let m₁ = set_word p (atomic timeout_cas sock.htc).1 m in
      let k = del_socketcompletely p m₁ in
      if meets sock.htc ready
      then with_kernel (timeout_reset p m.host.kernel).1 m
      else (done_timed p (with_kernel (os.free d k) m₁)).1
