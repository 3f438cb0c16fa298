-- ===== src/Socket/Activator.antt =====
-- `schedi_job_epollsocket_epoll_activator` of src/jobs.c moves no bytes.
use schedi.Prelude.{ℕ, ◌≡◌, refl, ◌∙◌, Bool, true, false, not, ◌==◌, bit_or, bit_and, if◌then◌else◌}
use schedi.Prelude.Int.{ℤ, pos}
use schedi.Meta.{complement}
use schedi.Kernel.{Kernel, modify}
use schedi.Epoll.{Epoll, epoll_mod}
use schedi.Socket.{buffersize, avail_from, count_from, meets}
use schedi.Socket.Buffer.{Bytes, Socket}
use schedi.Socket.Transfer.{Host, epoll_activator}
use schedi.Socket.Stream.{Sends}

module _ (unlock_error : ℕ) {K : Type 0} (os : Kernel K) {sent : K → ℤ → ℕ} {stream : K → ℤ → Bytes}
    (laws : Sends os sent stream) where
  abbrev pub SameStream : K → K → Type 0
  SameStream k k' = (sent k' ≡ sent k) × (stream k' ≡ stream k)

  then_same : (k l m : K) → SameStream k l → SameStream l m → SameStream k m
  then_same k l m (a, b) (c, d) = (c ∙ a, d ∙ b)

  ctl-SameStream :
      (b : Bool) (epfd fd : ℤ) (events ptr : ℕ) (k : K)
      → SameStream k (if b then os.epoll_ctl epfd modify fd events ptr k else (pos 0, k)).1
  ctl-SameStream true epfd fd events ptr k = laws.controlled epfd modify fd events ptr k
  ctl-SameStream false epfd fd events ptr k = (refl, refl)

  mod-SameStream :
      (ep : Epoll) (fd : ℤ) (ptr events : ℕ) (k : K)
      → SameStream k (epoll_mod os ep fd ptr events k).1
  unfolding epoll_mod
  mod-SameStream ep fd ptr events k =
      let reads = meets events os.epollin in
      let low = bit_and events (complement os.epollout) in
      let k' = (if reads then os.epoll_ctl ep.epfd_read modify fd low ptr k else (pos 0, k)).1 in
      let one = ctl-SameStream reads ep.epfd_read fd low ptr k in
      let two =
        ctl-SameStream (meets events os.epollout) ep.epfd_write fd
          (bit_and events (complement os.epollin)) ptr k' in
      (two.0 ∙ one.0, two.1 ∙ one.1)

  wake-SameStream :
      (b : Bool) (ep : Epoll) (fd : ℤ) (ptr events : ℕ) (k : K)
      → SameStream k (if b then (epoll_mod os ep fd ptr events k).1 else k)
  wake-SameStream true ep fd ptr events k = mod-SameStream ep fd ptr events k
  wake-SameStream false ep fd ptr events k = (refl, refl)

  pub activator-SameStream :
      (sock : Socket) (h : Host K)
      → SameStream h.kernel (epoll_activator unlock_error os sock h).kernel
  unfolding epoll_activator
  activator-SameStream sock h =
      let b = not (count_from sock.htc == buffersize) in
      let to_read = bit_or os.epollin os.epolloneshot in
      let k' =
        if b then (epoll_mod os h.epoll sock.fd sock.data_ptr to_read h.kernel).1 else h.kernel in
      let one = wake-SameStream b h.epoll sock.fd sock.data_ptr to_read h.kernel in
      let two =
        wake-SameStream (not (avail_from sock.htc == buffersize)) h.epoll sock.fd sock.data_ptr
          (bit_or os.epollout os.epolloneshot) k' in
      (two.0 ∙ one.0, two.1 ∙ one.1)
