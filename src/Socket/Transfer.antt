-- ===== src/Socket/Transfer.antt =====
-- The sides of an epoll socket that call the kernel (src/jobs.c): `send` and `recv` into and out of
-- the rings, and the calls that wake the epoll loop.
use schedi.Prelude.{
  ℕ, ◌+◌, ◌-◌, ◌%◌, ◌^◌, min, bit_or, Bool, false, not, ◌&&◌, ◌||◌, ◌==◌, ltb, if◌then◌else◌,
}
use schedi.Prelude.Int.{ℤ, pos, negsuc, pos_part}
use schedi.Kernel.{Kernel, Transfer, negative}
use schedi.Epoll.{Epoll, epoll_mod}
use schedi.Jobs.{System}
use schedi.Jobs.Tools.{to_int}
use schedi.Socket.{buffersize, count_from, avail_from, meets}
use schedi.Socket.Buffer.{Bytes, memcpy, Socket}
use schedi.Socket.Owner.{
  epollsocket_avail_add, epollsocket_count_add, epollsocket_dead, epollsocket_write_buffer_data,
  epollsocket_drain,
}

-- What a socket's operations share with the rest of the process.
pub record Host (K : Type 0) : Type 0 where
  pub system : System
  pub epoll : Epoll
  pub kernel : K

-- A `size_t` as an `int`, and the difference of two `size_t`.
abbrev pub int_of : ℕ → ℤ
int_of n = to_int (n % 2 ^ 32)

abbrev pub size_sub : ℕ → ℕ → ℕ
size_sub a b = (a + 2 ^ 64 - b) % 2 ^ 64

module _ {K : Type 0} where
  abbrev pub in_kernel : K → Host K → Host K
  in_kernel k h = record h { kernel = k }

  -- A socket with the system, put back into the host.
  abbrev pub back : Host K → Socket × System → Socket × Host K
  back h (sock, s) = (sock, record h { system = s })

module _ (unlock_error : ℕ) {K : Type 0} (os : Kernel K) where
  -- `schedi_job_epollsocket_epoll_activator`
  unfoldable pub epoll_activator : Socket → Host K → Host K
  epoll_activator sock h =
      let reading =
        if not (count_from sock.htc == buffersize)
        then (epoll_mod os h.epoll sock.fd sock.data_ptr (bit_or os.epollin os.epolloneshot)
            h.kernel).1
        else h.kernel in
      in_kernel
        (if not (avail_from sock.htc == buffersize)
          then (epoll_mod os h.epoll sock.fd sock.data_ptr (bit_or os.epollout os.epolloneshot)
              reading).1
          else reading)
        h

  abbrev pub die : Socket → Host K → ℤ × Socket × Host K
  die sock h =
      let out = epollsocket_dead unlock_error sock h.system in
      (negsuc 0, out.0, record h { system = out.1 })

  -- The part of `schedi_job_epollsocket_write` that buffers what is left: `total` bytes are sent.
  unfoldable pub write_rest :
      (payload : Bytes) (size total : ℕ) → Socket → Host K → ℤ × Socket × Host K
  unfolding epoll_activator
  write_rest payload size total sock h =
      if ltb 0 size
      then (let out = epollsocket_write_buffer_data unlock_error payload size sock h.system in
          (int_of (total + out.0), out.1, epoll_activator out.1 (record h { system = out.2 })))
      else (int_of total, sock, h)

  -- What follows its direct `send`.
  unfoldable pub write_sent :
      (payload : Bytes) (size : ℕ) → Socket → Host K → Transfer → ℤ × Socket × Host K
  unfolding write_rest
  write_sent payload size sock h t =
      if negative t.result && not t.again
      then die sock h
      else (let sent = pos_part t.result in
          write_rest (λ j. payload (sent + j)) (size - sent) sent sock h)

  -- `schedi_job_epollsocket_write`
  unfoldable pub write : (payload : Bytes) (size : ℕ) → Socket → Host K → ℤ × Socket × Host K
  unfolding write_sent write_rest
  write payload size sock h =
      if avail_from sock.htc == buffersize
      then (let out = os.send sock.fd payload 0 size h.kernel in
          write_sent payload size sock (in_kernel out.1 h) out.0)
      else write_rest payload size 0 sock h

  -- `schedi_job_epollsocket_read`, with the bytes that the caller gets.
  unfoldable pub read_whole :
      (payload : Bytes) (size : ℕ) → Socket → Host K → ℕ × Bytes × Socket × Host K
  unfolding epoll_activator
  read_whole payload size sock h =
      let (n, bytes, sock', s') = epollsocket_drain unlock_error payload size sock h.system in
      let h' = record h { system = s' } in
      (n, bytes, sock', if count_from sock.htc == buffersize then epoll_activator sock' h' else h')

  -- The end of `schedi_job_epollsocket_write_return`, after its sends.
  unfoldable pub write_finish :
      (total tail : ℕ) (died : Bool) → Socket → Host K → ℤ × Socket × Host K
  write_finish total tail died sock h =
      let out = epollsocket_avail_add unlock_error (int_of total) died sock h.system in
      (
        if died then negsuc 0 else int_of total,
        record (out.0) { write_tail = tail },
        record h { system = out.1 },
      )

  -- What its second `send`, from the start of the ring, has done.
  unfoldable pub write_second : (total tail : ℕ) → Transfer → Socket → Host K → ℤ × Socket × Host K
  unfolding write_finish
  write_second total tail t sock h =
      let rest = pos_part t.result in
      if ltb 0 rest
      then write_finish (total + rest) rest false sock h
      else write_finish total tail (negative t.result && not t.again) sock h

  -- What its first `send` has done; `first` bytes were offered of `sendable`.
  unfoldable pub write_first :
      (sendable first : ℕ) → Transfer → Socket → Host K → ℤ × Socket × Host K
  unfolding write_second write_finish
  write_first sendable first t sock h =
      let sent = pos_part t.result in
      let tail = (sock.write_tail + sent) % buffersize in
      if negative t.result
      then (if t.again then (pos 0, sock, h) else die sock h)
      else if (sent == first) && ltb first sendable
      then (let out = os.send sock.fd sock.write_buffer 0 (sendable - first) h.kernel in
          write_second sent tail out.0 sock (in_kernel out.1 h))
      else write_finish sent tail false sock h

  -- `schedi_job_epollsocket_write_return`
  unfoldable pub write_return : Socket → Host K → ℤ × Socket × Host K
  unfolding write_first write_second write_finish
  write_return sock h =
      let sendable = size_sub buffersize (avail_from sock.htc) in
      let first = min sendable (size_sub buffersize sock.write_tail) in
      if sendable == 0
      then (pos 0, sock, h)
      else (let out = os.send sock.fd sock.write_buffer sock.write_tail first h.kernel in
          write_first sendable first out.0 sock (in_kernel out.1 h))

  -- The same for `schedi_job_epollsocket_read_return` and `recv`, whose result 0 is a death.
  unfoldable pub read_finish :
      (total head : ℕ) (died : Bool) → Socket → Host K → ℤ × Socket × Host K
  read_finish total head died sock h =
      let out = epollsocket_count_add unlock_error (int_of total) died sock h.system in
      (
        if died then negsuc 0 else int_of total,
        record (out.0) { read_head = head },
        record h { system = out.1 },
      )

  unfoldable pub read_second :
      (total head : ℕ) → Transfer → (bytes : Bytes) → Socket → Host K → ℤ × Socket × Host K
  unfolding read_finish
  read_second total head t bytes sock h =
      let rest = pos_part t.result in
      if ltb 0 rest
      then read_finish (total + rest) rest false
          (record sock { read_buffer = memcpy sock.read_buffer 0 bytes 0 rest }) h
      else read_finish total head (not (negative t.result) || not t.again) sock h

  unfoldable pub read_first :
      (free first : ℕ) → Transfer → (bytes : Bytes) → Socket → Host K → ℤ × Socket × Host K
  unfolding read_second read_finish
  read_first free first t bytes sock h =
      let got = pos_part t.result in
      let head = (sock.read_head + got) % buffersize in
      let sock' = record sock {
        read_buffer = memcpy sock.read_buffer sock.read_head bytes 0 got;
      } in
      if not (ltb 0 got)
      then (if negative t.result && t.again then (pos 0, sock, h) else die sock h)
      else if (got == first) && ltb first free
      then (let out = os.recv sock.fd (free - first) h.kernel in
          read_second got head out.0 out.1 sock' (in_kernel out.2 h))
      else read_finish got head false sock' h

  -- `schedi_job_epollsocket_read_return`
  unfoldable pub read_return : Socket → Host K → ℤ × Socket × Host K
  unfolding read_first read_second read_finish
  read_return sock h =
      let free = size_sub buffersize (count_from sock.htc) in
      let first = min free (size_sub buffersize sock.read_head) in
      if free == 0
      then (pos 0, sock, h)
      else (let out = os.recv sock.fd first h.kernel in
          read_first free first out.0 out.1 sock (in_kernel out.2 h))

  -- The transfer that `schedi_job_epollsocket_return` makes for the events.
  pub transfer : (events : ℕ) → Socket → Host K → ℤ × Socket × Host K
  unfolding read_return write_return
  transfer events sock h =
      if meets events (bit_or os.epollerr os.epollhup)
        && not (meets events (bit_or os.epollin os.epollout))
      then die sock h
      else if meets events os.epollin
      then read_return sock h
      else if meets events os.epollout
      then write_return sock h
      else (pos 0, sock, h)

  -- `schedi_job_epollsocket_return`
  unfoldable pub socket_return : (events : ℕ) → Socket → Host K → ℤ × Socket × Host K
  unfolding transfer read_return write_return epoll_activator
  socket_return events sock h =
      let (r, sock', h') = transfer events sock h in
      (if negative r then negsuc 0 else pos 0, sock', epoll_activator sock' h')
