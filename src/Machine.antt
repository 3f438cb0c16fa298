-- ===== src/Machine.antt =====
-- The parts of the process together: jobs, epoll sockets, epoll requests and the memory that epoll
-- events point into (src/jobs.c, include/schedi/jobs.h, include/schedi/epoll.h). What `malloc`
-- returns is an address; each kind of struct has its own contents at an address.
pub mod Sockets
pub mod Loop
pub mod Returned
pub mod Settled
pub mod Life
pub mod Timers
pub mod Created
pub mod Held
pub mod Again
mod Tests
use schedi.Prelude.{
  ℕ, ◌+◌, ◌%◌, ◌^◌, bit_or, bit_and, Bool, true, false, not, ◌&&◌, ◌||◌, ◌==◌, leb, List, [], ◌∷◌,
  Option, none, some, if◌then◌else◌,
}
use schedi.Prelude.Int.{ℤ, pos, negsuc, ◌+ℤ◌}
use schedi.Meta.{mark_access, unmark_access}
use schedi.Meta.Flag
use schedi.Queue.{update}
use schedi.Jobs.{Job, System, modify, mark}
use schedi.Jobs.Tools.{update_job}
use schedi.Kernel.{Kernel, negative, nonzero}
use schedi.Epoll.{Epoll, epoll_add, epoll_del}
use schedi.Socket.{initial, ready, meets}
use schedi.Socket.Buffer.{Socket}
use schedi.Socket.Owner.{epollsocket_done_cas}
use schedi.Socket.Transfer.{Host, in_kernel}

-- `struct schedi_epoll_data`; `ptr` is where its request or its socket is.
pub record Data : Type 0 where
  pub type : ℕ
  pub ptr : ℕ

abbrev pub data_job : ℕ
data_job = 1

abbrev pub data_socket : ℕ
data_socket = 2

-- `struct schedi_job_epoll_request`. The owner and the owner of the list are indices of slots.
pub record Request : Type 0 where
  pub socketfd : ℤ
  pub owner : ℕ
  pub job_gen : ℕ
  pub list : ℕ

pub record Machine (K : Type 0) : Type 0 where
  pub host : Host K
  pub requests : ℕ → Request
  pub data_at : ℕ → Data
  pub sockets : ℕ → Socket

module _ {K : Type 0} where
  abbrev pub with_system : System → Machine K → Machine K
  with_system s m = record m { host = record (m.host) { system = s } }

  abbrev pub with_kernel : K → Machine K → Machine K
  with_kernel k m = record m { host = in_kernel k m.host }

  -- A socket and the host after an operation of it.
  abbrev pub put_back : ℕ → Socket × Host K → Machine K → Machine K
  put_back p (sock, h) m = record m { host = h; sockets = update m.sockets p sock }

-- `++` of an `unsigned int`
abbrev pub bump : ℕ → ℕ
bump n = (n + 1) % 2 ^ 32

abbrev pub count_return : (error : Bool) → Job → Job
count_return true job = record job { err_count = bump job.err_count }
count_return false job = record job { ret_count = bump job.ret_count }

abbrev pub count_total : Job → Job
count_total job = record job { total_req = bump job.total_req }

-- The loop of `schedi_job_epoll_request_return` that accesses the owner: between two tries another
-- thread acts; `none` where they all fail.
unfoldable pub access_owner : (others : List (System → System)) → ℕ → System → Option (ℕ × System)
access_owner [] i s =
    let out = mark mark_access i s in
    if (out.0 == 0) || not (bit_and out.0 Flag.unstable == 0) then some out else none
access_owner (other ∷ others) i s =
    let out = mark mark_access i s in
    let rest = access_owner others i (other out.1) in
    if (out.0 == 0) || not (bit_and out.0 Flag.unstable == 0) then some out else rest

-- `unlock_error` is what `pthread_mutex_unlock` returns in `schedi_job_setready`.
module _ (unlock_error : ℕ) where
  -- A change of the count of waiting requests.
  abbrev pub update_wait : ℤ → ℕ → System → ℤ × System
  update_wait delta = update_job unlock_error (pos 0) delta (pos 0) 0 0 false

  -- The rest of `schedi_job_epoll_request_return`, after its loop.
  unfoldable pub settle_request : Request → (error : Bool) → ℕ × System → ℤ × System
  settle_request req error (bans, s) =
      if not (bans == 0)
      then (negsuc 0, s)
      else if not ((s.jobs req.owner).gen == req.job_gen)
      then (negsuc 0, (mark unmark_access req.owner s).1)
      else (let counted = modify (count_return error) req.list s in
          (pos 0, (mark unmark_access req.owner (update_wait (negsuc 0) req.owner counted).1).1))

  -- `schedi_job_epoll_request_return`
  unfoldable pub request_return :
      (others : List (System → System)) → Request → (error : Bool) → System → Option (ℤ × System)
  unfolding settle_request
  request_return others req error s = elim (access_owner others req.owner s) [
    | none ↦ none
    | some out ↦ some (settle_request req error out)
  ]

module _ (unlock_error : ℕ) {K : Type 0} (os : Kernel K) where
  -- A failed `schedi_job_tool_epoll`: the count goes back and the request is freed.
  abbrev pub drop_request : (code : ℤ) → ℕ → ℕ → Machine K → ℤ × Machine K
  drop_request code i req m =
      let s = (update_wait unlock_error (negsuc 0) i m.host.system).1 in
      (code, with_kernel (os.free req m.host.kernel) (with_system s m))

  -- `schedi_job_tool_epoll` from the registration on.
  pub register : (socketfd : ℤ) (events i req ptr : ℕ) → Machine K → ℤ × Machine K
  register socketfd events i req ptr m =
      let m' = record m {
        data_at = update m.data_at ptr (record { type = data_job; ptr = req });
      } in
      let out = epoll_add os m.host.epoll socketfd ptr events m.host.kernel in
      if negative out.0
      then drop_request (negsuc 2) i req (with_kernel out.1 m')
      else (pos 0, with_kernel out.1 m')

  -- From the count of the request on; the request is in place.
  pub count_request : (socketfd : ℤ) (events i req : ℕ) → Machine K → ℤ × Machine K
  unfolding register
  count_request socketfd events i req m =
      let counted = update_wait unlock_error (pos 1) i m.host.system in
      let m' = with_system counted.1 m in
      if nonzero counted.0
      then (negsuc 3, with_kernel (os.free req m.host.kernel) m')
      else (let mem = os.malloc m.host.kernel in
          elim mem.0 [
            | none ↦ drop_request (negsuc 1) i req (with_kernel mem.1 m')
            | some ptr ↦ register socketfd events i req ptr (with_kernel mem.1 m')
          ])

  -- `schedi_job_tool_epoll`
  unfoldable pub tool_epoll : (i : ℕ) (socketfd : ℤ) (events : ℕ) → Machine K → ℤ × Machine K
  unfolding count_request register
  tool_epoll i socketfd events m =
      let mem = os.malloc m.host.kernel in
      elim mem.0 [
        | none ↦ (negsuc 0, with_kernel mem.1 m)
        | some req ↦
            let s = m.host.system in
            let new : Request = record {
              socketfd = socketfd;
              owner = i;
              job_gen = (s.jobs i).gen;
              list = i;
            } in
            count_request socketfd events i req (
              with_system (modify count_total i s)
                (with_kernel mem.1 (record m { requests = update m.requests req new })))
      ]
