-- ===== src/Machine/Loop.antt =====
-- The handlers and the loop of src/epoll.c, over the whole machine. `none` is a loop that goes on:
-- its fuel or its rounds have run out.
use schedi.Prelude.{
  ℕ, zero, suc, bit_or, Bool, true, false, ◌||◌, ◌==◌, List, [], ◌∷◌, Option, none, some,
  if◌then◌else◌,
}
use schedi.Prelude.Int.{ℤ, pos, negsuc}
use schedi.Jobs.{System}
use schedi.Kernel.{Kernel, Polled, negative, nonzero}
use schedi.Epoll.{epoll_del, close_fds}
use schedi.Socket.{meets}
use schedi.Socket.Transfer.{socket_return}
use schedi.Machine.{
  data_job, data_socket, Machine, with_system, with_kernel, put_back, request_return,
}
use schedi.Machine.Sockets.{done_with}

-- The two loads of `epoll_stop` in a round.
pub record Stops : Type 0 where
  pub first : Bool
  pub polled : Bool

-- `others` is what other threads do between the tries to access the owner of a request.
module _ (unlock_error : ℕ) (others : List (System → System)) {K : Type 0} (os : Kernel K) where
  -- After `schedi_job_epoll_request_return`.
  abbrev pub request_done : (req ptr : ℕ) → Option (ℤ × System) → Machine K → Option (Machine K)
  request_done req ptr none m = none
  request_done req ptr (some (r, s)) m =
      some (with_kernel (os.free ptr (os.free req m.host.kernel)) (with_system s m))

  -- The case SCHEDI_EPOLL_DATA_JOB of a handler.
  pub handle_job : (req ptr events : ℕ) → Machine K → Option (Machine K)
  handle_job req ptr events m =
      let request = m.requests req in
      let deleted = epoll_del os m.host.epoll request.socketfd m.host.kernel in
      let error = meets events (bit_or os.epollerr os.epollhup) in
      request_done req ptr (request_return unlock_error others request error m.host.system)
        (with_kernel deleted m)

  -- The case SCHEDI_EPOLL_DATA_SOCKET.
  pub handle_socket : (p ptr events : ℕ) → Machine K → Machine K
  handle_socket p ptr events m =
      let (r, sock, h) = socket_return unlock_error os events (m.sockets p) m.host in
      let m' = put_back p (sock, h) m in
      if nonzero r
      then (done_with unlock_error os 1 p
          (with_kernel (os.free ptr (epoll_del os h.epoll sock.fd h.kernel)) m')).1
      else m'

  -- `schedi_epoll_handle_read`
  unfoldable pub handle_read : ℕ × ℕ → Machine K → Option (Machine K)
  unfolding handle_job handle_socket
  handle_read (events, ptr) m =
      let d = m.data_at ptr in
      if ptr == 0
      then some m
      else if d.type == data_job
      then handle_job d.ptr ptr events m
      else if d.type == data_socket
      then some (handle_socket d.ptr ptr events m)
      else some (with_kernel (os.free ptr m.host.kernel) m)

  -- `schedi_epoll_handle_write`
  unfoldable pub handle_write : ℕ × ℕ → Machine K → Option (Machine K)
  unfolding handle_job handle_socket
  handle_write (events, ptr) m =
      let d = m.data_at ptr in
      if ptr == 0
      then some m
      else if d.type == data_job
      then handle_job d.ptr ptr events m
      else if d.type == data_socket
      then some (handle_socket d.ptr ptr events m)
      else some (with_kernel (os.free ptr m.host.kernel) m)

  -- The events of one `epoll_wait`.
  pub handle_all :
      (ℕ × ℕ → Machine K → Option (Machine K)) → List (ℕ × ℕ) → Machine K → Option (Machine K)
  handle_all handle [] m = some m
  handle_all handle (event ∷ events) m = elim (handle event m) [
    | none ↦ none
    | some m' ↦ handle_all handle events m'
  ]

  -- `schedi_epoll_drain_read` and `schedi_epoll_drain_write`, each with its instance and handler.
  pub drain :
      (fuel : ℕ) (epfd : ℤ)
      → (ℕ × ℕ → Machine K → Option (Machine K))
      → Machine K
      → Option (Machine K)
  unfolding handle_all
  drain zero epfd handle m = none
  drain (suc fuel) epfd handle m =
      let out = os.epoll_wait epfd m.host.kernel in
      let m' = with_kernel out.1 m in
      elim out.0 [
        | [] ↦ some m'
        | event ∷ events ↦ elim (handle_all handle (event ∷ events) m') [
          | none ↦ none
          | some m'' ↦ drain fuel epfd handle m''
        ]
      ]

  abbrev pub drain_read : ℕ → Machine K → Option (Machine K)
  drain_read fuel m = drain fuel m.host.epoll.epfd_read handle_read m

  abbrev pub drain_write : ℕ → Machine K → Option (Machine K)
  drain_write fuel m = drain fuel m.host.epoll.epfd_write handle_write m

  abbrev pub drain_write_after : ℕ → (write : Bool) → Option (Machine K) → Option (Machine K)
  drain_write_after fuel write none = none
  drain_write_after fuel write (some m) = if write then drain_write fuel m else some m

  -- What a round does with the descriptors that `poll` reports.
  abbrev pub serve : (fuel : ℕ) → Polled → Machine K → Option (Machine K)
  serve fuel p m =
      let woken =
        if p.wake then with_kernel (os.read_all m.host.epoll.epoll_wakefd m.host.kernel) m else m in
      drain_write_after fuel p.write (if p.read then drain_read fuel woken else some woken)

  -- The rounds of `schedi_epoll_loop`: whether `poll` failed.
  pub rounds : (fuel : ℕ) → List Stops → Machine K → Option (Bool × Machine K)
  unfolding drain handle_all
  rounds fuel [] m = none
  rounds fuel (stop ∷ stops) m =
      let ep = m.host.epoll in
      let out = os.poll ep.epoll_wakefd ep.epfd_read ep.epfd_write m.host.kernel in
      let m' = with_kernel out.1 m in
      let again = rounds fuel stops m' in
      if stop.first
      then some (false, m)
      else if stop.polled
      then some (false, m')
      else if negative out.0.result
      then (if out.0.interrupted then again else some (true, m'))
      else elim (serve fuel out.0 m') [ none ↦ none | some m'' ↦ rounds fuel stops m'' ]

  -- The end of `schedi_epoll_loop`.
  abbrev pub loop_end : Option (Bool × Machine K) → Option (ℤ × Machine K)
  loop_end none = none
  loop_end (some (poll_error, m)) =
      let out = close_fds os m.host.epoll m.host.kernel in
      some (
        if poll_error then negsuc 0 else pos 0,
        record m { host = record (m.host) { epoll = out.0; kernel = out.1 } },
      )

  -- `schedi_epoll_loop`
  unfoldable pub epoll_loop : (fuel : ℕ) → List Stops → Machine K → Option (ℤ × Machine K)
  unfolding rounds drain handle_all
  epoll_loop fuel stops m =
      let ep = m.host.epoll in
      if ep.epoll_stop
      then some (pos 0, m)
      else if negative ep.epfd_read || negative ep.epfd_write
      then some (negsuc 0, m)
      else loop_end (rounds fuel stops m)
