-- ===== src/Epoll.antt =====
-- src/epoll.c up to its handlers: registration of descriptors, the three descriptors of the loop,
-- and the life of the epoll thread.
pub mod Add
pub mod Fds
pub mod Thread
mod Tests
use schedi.Prelude.{ℕ, Bool, true, false, not, ◌||◌, bit_and, bit_or, if◌then◌else◌}
use schedi.Prelude.Int.{ℤ, pos, negsuc}
use schedi.Meta.{complement}
use schedi.Socket.{meets}
use schedi.Kernel.{Kernel, Control, add, modify, del, negative, nonzero}

-- The static data of the file.
pub record Epoll : Type 0 where
  pub epfd_read : ℤ
  pub epfd_write : ℤ
  pub epoll_wakefd : ℤ
  pub epoll_thread : ℕ
  pub epoll_thread_running : Bool
  pub epoll_stop : Bool

-- The initial values.
unfoldable pub start : Epoll
start = record {
  epfd_read = negsuc 0;
  epfd_write = negsuc 0;
  epoll_wakefd = negsuc 0;
  epoll_thread = 0;
  epoll_thread_running = false;
  epoll_stop = false;
}

module _ {K : Type 0} (os : Kernel K) where
  -- `schedi_epoll_del_read` and `schedi_epoll_del_write`
  abbrev pub epoll_del_read : Epoll → ℤ → K → K
  epoll_del_read ep fd k = (os.epoll_ctl ep.epfd_read del fd 0 0 k).1

  abbrev pub epoll_del_write : Epoll → ℤ → K → K
  epoll_del_write ep fd k = (os.epoll_ctl ep.epfd_write del fd 0 0 k).1

  unfoldable pub epoll_del : Epoll → ℤ → K → K
  epoll_del ep fd k = epoll_del_write ep fd (epoll_del_read ep fd k)

  -- The end of `schedi_epoll_add` at its label `fail`.
  pub undo : (added fd : ℤ) (ptr : ℕ) → K → ℤ × K
  undo added fd ptr k = (
    negsuc 0,
    os.free ptr (if not (negative added) then (os.epoll_ctl added del fd 0 0 k).1 else k),
  )

  -- Its second half; `added` is -1 or the instance that holds the descriptor already.
  pub add_write : Epoll → (added fd : ℤ) (ptr events : ℕ) → K → ℤ × K
  unfolding undo
  add_write ep added fd ptr events k =
      if meets events os.epollout
      then (let out =
            os.epoll_ctl ep.epfd_write add fd (bit_and events (complement os.epollin)) ptr k in
          if negative out.0 then undo added fd ptr out.1 else (pos 0, out.1))
      else (pos 0, k)

  -- `schedi_epoll_add`
  unfoldable pub epoll_add : Epoll → (fd : ℤ) (ptr events : ℕ) → K → ℤ × K
  unfolding add_write undo
  epoll_add ep fd ptr events k =
      if meets events os.epollin
      then (let out =
            os.epoll_ctl ep.epfd_read add fd (bit_and events (complement os.epollout)) ptr k in
          if negative out.0
          then undo (negsuc 0) fd ptr out.1
          else add_write ep ep.epfd_read fd ptr events out.1)
      else add_write ep (negsuc 0) fd ptr events k

  -- `schedi_epoll_mod`. `epoll_ctl` returns 0 or -1, so that `ret |= r` is -1 where one of them is.
  unfoldable pub epoll_mod : Epoll → (fd : ℤ) (ptr events : ℕ) → K → ℤ × K
  epoll_mod ep fd ptr events k =
      let first =
        if meets events os.epollin
        then os.epoll_ctl ep.epfd_read modify fd (bit_and events (complement os.epollout)) ptr k
        else (pos 0, k) in
      let second =
        if meets events os.epollout
        then os.epoll_ctl ep.epfd_write modify fd (bit_and events (complement os.epollin)) ptr
            first.1
        else (pos 0, first.1) in
      (if negative first.0 || negative second.0 then negsuc 0 else pos 0, second.1)

  -- `schedi_epoll_init_fds`, from the creation of the wake descriptor on.
  pub init_wakefd : Epoll → K → ℤ × Epoll × K
  init_wakefd ep k =
      let wake = os.eventfd k in
      if negative wake.0
      then (
        negsuc 0,
        record ep { epfd_read = negsuc 0; epfd_write = negsuc 0; epoll_wakefd = wake.0 },
        os.close ep.epfd_write (os.close ep.epfd_read wake.1),
      )
      else (pos 0, record ep { epoll_wakefd = wake.0 }, wake.1)

  pub init_write : Epoll → K → ℤ × Epoll × K
  unfolding init_wakefd
  init_write ep k =
      let write = os.epoll_create1 k in
      if negative write.0
      then (
        negsuc 0,
        record ep { epfd_read = negsuc 0; epfd_write = write.0 },
        os.close ep.epfd_read write.1,
      )
      else init_wakefd (record ep { epfd_write = write.0 }) write.1

  -- `schedi_epoll_init_fds`
  unfoldable pub init_fds : Epoll → K → ℤ × Epoll × K
  unfolding init_write init_wakefd
  init_fds ep k =
      if not (negative ep.epfd_read)
      then (pos 0, ep, k)
      else (let read = os.epoll_create1 k in
          let ep' = record ep { epfd_read = read.0 } in
          if negative read.0 then (negsuc 0, ep', read.1) else init_write ep' read.1)

  -- The end of `schedi_epoll_loop`, which closes the descriptors.
  unfoldable pub close_fds : Epoll → K → Epoll × K
  close_fds ep k = (
    record ep { epfd_read = negsuc 0; epfd_write = negsuc 0; epoll_wakefd = negsuc 0 },
    os.close ep.epfd_write (os.close ep.epfd_read (os.close ep.epoll_wakefd k)),
  )

  -- `schedi_epoll_thread_init`, under its mutex.
  unfoldable pub thread_init : Epoll → K → ℤ × Epoll × K
  unfolding init_fds init_write init_wakefd
  thread_init ep k =
      if ep.epoll_thread_running
      then (pos 0, ep, k)
      else (let (r, ep', k') = init_fds ep k in
          let (err, thread, k'') = os.pthread_create k' in
          if negative r
          then (negsuc 0, ep', k')
          else if nonzero err
          then (negsuc 0, record ep' { epoll_thread = thread }, k'')
          else (pos 0, record ep' { epoll_thread = thread; epoll_thread_running = true }, k''))

  -- `schedi_epoll_thread_deinit`, under its mutex. `finish` is what the epoll thread does between
  -- the wake-up and its end, which `pthread_join` waits for.
  unfoldable pub thread_deinit : (finish : Epoll → K → Epoll × K) → Epoll → K → ℤ × Epoll × K
  thread_deinit finish ep k =
      if not ep.epoll_thread_running
      then (pos 0, ep, k)
      else (let stopping = record ep { epoll_stop = true } in
          let woken =
            if not (negative ep.epoll_wakefd) then os.write_one ep.epoll_wakefd k else k in
          let (ep', k') = finish stopping woken in
          let (ret, k'') = os.pthread_join ep'.epoll_thread k' in
          (ret, record ep' { epoll_thread_running = false }, k''))

  abbrev pub close_open : ℤ → K → K
  close_open fd k = if not (negative fd) then os.close fd k else k

  abbrev pub closed : ℤ → ℤ
  closed fd = if not (negative fd) then negsuc 0 else fd

  -- `schedi_epoll_destroy`, under its mutex.
  unfoldable pub epoll_destroy : Epoll → K → ℤ × Epoll × K
  epoll_destroy ep k = (
    pos 0,
    record ep {
      epfd_read = closed ep.epfd_read;
      epfd_write = closed ep.epfd_write;
      epoll_wakefd = closed ep.epoll_wakefd;
    },
    close_open ep.epoll_wakefd (close_open ep.epfd_write (close_open ep.epfd_read k)),
  )
