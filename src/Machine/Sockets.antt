-- ===== src/Machine/Sockets.antt =====
-- The life of an epoll socket (src/jobs.c): its creation, its registration and its end.
use schedi.Prelude.{ℕ, bit_or, Bool, false, ◌==◌, Option, none, some, if◌then◌else◌}
use schedi.Prelude.Int.{ℤ, pos, negsuc, ◌+ℤ◌}
use schedi.Queue.{update}
use schedi.Jobs.{System}
use schedi.Jobs.Tools.{update_job}
use schedi.Kernel.{Kernel, nonzero}
use schedi.Epoll.{epoll_add}
use schedi.Socket.{initial, ready, meets}
use schedi.Socket.Buffer.{Socket}
use schedi.Socket.Owner.{epollsocket_done_cas}
use schedi.Machine.{data_socket, Machine, with_system, with_kernel}

-- What `schedi_job_tool_epollsocket` writes into the memory that it gets.
abbrev pub new_socket : (job gen : ℕ) (socketfd : ℤ) (read_cond write_cond : ℕ) → Socket → Socket
new_socket job gen socketfd read_cond write_cond sock = record sock {
  job = job;
  gen = gen;
  fd = socketfd;
  htc = initial read_cond write_cond;
  read_head = 0;
  read_tail = 0;
  read_count_condition = read_cond;
  write_head = 0;
  write_tail = 0;
  write_avail_condition = write_cond;
  fall = pos 2;
}

abbrev pub is_one : ℤ → Bool
is_one (pos n) = n == 1
is_one (negsuc n) = false

module _ (unlock_error : ℕ) {K : Type 0} (os : Kernel K) where
  -- A change of the owner's count of READY sockets.
  abbrev pub update_socks : ℤ → ℕ → System → ℤ × System
  update_socks delta = update_job unlock_error delta (pos 0) (pos 0) 0 0 false

  -- `schedi_job_epollsocket_push_epoll`; `none` where `malloc` fails, whose NULL it writes through.
  unfoldable pub push_epoll : ℕ → Machine K → Option (ℤ × Machine K)
  push_epoll p m =
      let mem = os.malloc m.host.kernel in
      elim mem.0 [
        | none ↦ none
        | some ptr ↦
            let sock = record (m.sockets p) { data_ptr = ptr } in
            let events = bit_or (bit_or os.epollin os.epollout) os.epolloneshot in
            let out = epoll_add os m.host.epoll sock.fd ptr events mem.1 in
            some (
              out.0,
              with_kernel out.1 (record m {
                data_at = update m.data_at ptr (record { type = data_socket; ptr = p });
                sockets = update m.sockets p sock;
              }),
            )
      ]

  abbrev pub epollised : Option (ℤ × Machine K) → Option (ℤ × Machine K)
  epollised none = none
  epollised (some (r, m)) = some (if nonzero r then negsuc 0 else pos 0, m)

  -- `schedi_job_epollsocket_epollisize`
  pub epollisize : ℕ → Machine K → Option (ℤ × Machine K)
  unfolding push_epoll
  epollisize p m = epollised (push_epoll p m)

  -- The label `fail` of `schedi_job_tool_epollsocket`.
  abbrev pub abandoned : (i p : ℕ) (is_ready : Bool) → Machine K → Machine K
  abandoned i p is_ready m =
      let s = m.host.system in
      let s' = if is_ready then (update_socks (negsuc 0) i s).1 else s in
      with_kernel (os.free p m.host.kernel) (with_system s' m)

  -- The end of `schedi_job_tool_epollsocket`, which undoes its count on failure.
  pub opened : (i p : ℕ) (is_ready : Bool) → Option (ℤ × Machine K) → Option (Option ℕ × Machine K)
  opened i p is_ready none = none
  opened i p is_ready (some (r, m)) =
      if nonzero r then some (none, abandoned i p is_ready m) else some (some p, m)

  -- `schedi_job_tool_epollsocket`, with `none` for NULL inside the pair. It writes through the
  -- result of `malloc` too without a test.
  unfoldable pub tool_epollsocket :
      (i : ℕ) (socketfd : ℤ) (read_cond write_cond : ℕ) → Machine K → Option (Option ℕ × Machine K)
  unfolding epollisize push_epoll opened
  tool_epollsocket i socketfd read_cond write_cond m =
      let mem = os.malloc m.host.kernel in
      elim mem.0 [
        | none ↦ none
        | some p ↦
            let s = m.host.system in
            let sock = new_socket i (s.jobs i).gen socketfd read_cond write_cond (m.sockets p) in
            let is_ready = meets sock.htc ready in
            let s' = if is_ready then (update_socks (pos 1) i s).1 else s in
            opened i p is_ready (
              epollisize p (
                with_system s'
                  (with_kernel mem.1 (record m { sockets = update m.sockets p sock }))))
      ]

  -- The fall of the count in `schedi_job_epollsocket_done_`.
  unfoldable pub fallen : ℕ → Socket × System → Machine K → ℤ × Machine K
  fallen p (sock, s) m =
      let m' = record (with_system s m) {
        sockets = update m.sockets p (record sock { fall = sock.fall +ℤ negsuc 0 });
      } in
      if is_one sock.fall then (pos 0, with_kernel (os.free p m.host.kernel) m') else (negsuc 0, m')

  -- `schedi_job_epollsocket_done_`
  unfoldable pub done_with : (epollside p : ℕ) → Machine K → ℤ × Machine K
  unfolding fallen
  done_with epollside p m =
      fallen p (epollsocket_done_cas unlock_error epollside (m.sockets p) m.host.system) m

  -- `schedi_job_epollsocket_done`
  unfoldable pub done_by_job : ℕ → Machine K → ℤ × Machine K
  unfolding done_with fallen
  done_by_job = done_with 0
