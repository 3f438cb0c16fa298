-- ===== src/Socket/Receiving.antt =====
-- `schedi_job_epollsocket_read_return` of src/jobs.c puts the bytes that the kernel delivers behind
-- those that wait in the read ring.
use schedi.Prelude.{
  ℕ, ◌+◌, ◌-◌, ◌%◌, ◌<◌, ◌≤◌, ◌≡◌, refl, sym, false, not, ◌&&◌, ◌||◌, ◌==◌, min, ltb, arith,
  Bool-cases, inl, inr,
}
use schedi.Prelude.Int.{ℤ, pos_part}
use mathlib.Core.Path.{subst}
use schedi.Kernel.{Kernel, Transfer, negative}
use schedi.Socket.{buffersize, count_from}
use schedi.Socket.Count.{count_from-field}
use schedi.Socket.Buffer.{Bytes, memcpy, Socket}
use schedi.Socket.Transfer.{Host, in_kernel, size_sub, read_second, read_first, read_return}
use schedi.Socket.Rings.{IsRing, IsReading, Appends, arrived}
use schedi.Socket.Puts.{Puts, both, copy-Puts, Puts-trans, both-low, both-high}
use schedi.Socket.Stream.{Receives, Appends-trans, Appends-payload}
use schedi.Socket.Takes.{Takes, with_bytes, finish-Takes, die-Takes}

module _ (unlock_error : ℕ) {K : Type 0} (os : Kernel K) (sock : Socket) where
  module _ {received : K → ℤ → ℕ} {stream : K → ℤ → Bytes}
      (laws : Receives os received stream) where
    -- Whatever the kernel, in state k before, has delivered is in the ring, behind the bytes that
    -- waited there.
    abbrev pub Fetches : K → ℤ × Socket × Host K → Type 0
    Fetches k out =
        (n : ℕ) × (payload : Bytes) × Takes unlock_error os sock n payload out
        × Appends (received k sock.fd) (received out.2.kernel sock.fd) n (stream k sock.fd)
            (stream out.2.kernel sock.fd) payload

    -- The state of the kernel k' after n bytes from its state k on.
    abbrev Came : (k k' : K) (n : ℕ) → Bytes → Type 0
    Came k k' n payload =
        Appends (received k sock.fd) (received k' sock.fd) n (stream k sock.fd) (stream k' sock.fd)
          payload

    second-Fetches :
        (k : K) (h : Host K) (total first rest : ℕ) (t : Transfer) (old new payload : Bytes)
        → Puts sock.read_tail
            (arrived sock)
            first
            sock.read_buffer
            payload
            ((sock.read_head + total) % buffersize)
            old
        → total ≡ first
        → sock.read_head + first ≡ buffersize
        → sock.read_head < buffersize
        → arrived sock + first + rest ≤ buffersize
        → pos_part t.result ≤ rest
        → Came k h.kernel (first + pos_part t.result) (both first payload new)
        → Fetches k (
            read_second unlock_error os total
              ((sock.read_head + total) % buffersize)
              t
              new
              (with_bytes unlock_error os sock old)
              h)
    unfolding read_second
    second-Fetches k h total first rest t old new payload puts e up fits room few came =
        let more = pos_part t.result in
        let start : (sock.read_head + total) % buffersize ≡ 0 = omega arith in
        elim (Bool-cases (ltb 0 more)) [
          | inl some_got ↦
              let bytes = memcpy old 0 new 0 more in
              let n = total + more in
              let sum : n ≡ first + more = omega arith in
              let ring =
                subst (λ (j : ℕ). IsRing j sock.read_tail (arrived sock + first)) start puts.0 in
              let ring_room = ring.head_in in
              let copied =
                copy-Puts 0 sock.read_tail (arrived sock + first) more old new ring (omega arith)
                  (omega arith) in
              let p = both first payload new in
              let at : (0 + more) % buffersize ≡ more = omega arith in
              let joined =
                subst
                  (λ (j : ℕ).
                    Puts sock.read_tail (arrived sock) (first + more) sock.read_buffer p j bytes)
                  at
                  (Puts-trans sock.read_tail (arrived sock) first more sock.read_buffer old bytes
                    payload new ((sock.read_head + total) % buffersize) ((0 + more) % buffersize)
                    puts copied) in
              rw some_got (
                n,
                p,
                finish-Takes unlock_error os sock n more false bytes p h (
                    subst
                      (λ (m : ℕ).
                        Puts sock.read_tail (arrived sock) m sock.read_buffer p more bytes)
                      (sym sum) joined),
                subst (λ (m : ℕ). Came k h.kernel m p) (sym sum) came,
              )
          | inr none_got ↦
              let head' = (sock.read_head + total) % buffersize in
              let sum : first + more ≡ total = ground arith in
              rw none_got (
                total,
                payload,
                finish-Takes unlock_error os sock total head'
                    (not (negative t.result) || not t.again) old payload h
                    (subst
                      (λ (m : ℕ).
                        Puts sock.read_tail (arrived sock) m sock.read_buffer payload head' old)
                      (sym e) puts),
                Appends-payload (received k sock.fd) (received h.kernel sock.fd) total
                    (stream k sock.fd) (stream h.kernel sock.fd) (both first payload new) payload
                    (subst (λ (m : ℕ). Came k h.kernel m (both first payload new)) sum came)
                    (λ j low. both-low first payload new j (omega arith)),
              )
        ]

    first-Fetches :
        (k : K) (h : Host K) (first : ℕ) (t : Transfer) (bytes : Bytes)
        → IsReading sock
        → first ≡ min (buffersize - arrived sock) (buffersize - sock.read_head)
        → pos_part t.result ≤ first
        → Came k h.kernel (pos_part t.result) bytes
        → Fetches k (read_first unlock_error os (buffersize - arrived sock) first t bytes sock h)
    unfolding read_first
    first-Fetches k h first t bytes ring size few came =
        let got = pos_part t.result in
        let fits = ring.head_in in
        let most = ring.count_in in
        elim (Bool-cases (ltb 0 got)) [
          | inr none_got ↦
              let none_came : Came k h.kernel 0 bytes =
                subst (λ (m : ℕ). Came k h.kernel m bytes) (ground arith) came in
              elim (Bool-cases (negative t.result && t.again)) [
                | inl later ↦
                    rw (none_got, later)
                      (
                        0,
                        bytes,
                        (ring, (omega arith, λ j low. refl, λ j low. absurd (omega arith))),
                        none_came,
                      )
                | inr dead ↦
                    rw (none_got, dead)
                      (0, bytes, die-Takes unlock_error os sock h ring bytes, none_came)
              ]
          | inl some_got ↦
              let old = memcpy sock.read_buffer sock.read_head bytes 0 got in
              let puts =
                copy-Puts sock.read_head sock.read_tail (arrived sock) got sock.read_buffer bytes
                  ring (omega (arith, size)) (omega (arith, size)) in
              elim (Bool-cases ((got == first) && ltb first (buffersize - arrived sock))) [
                | inr once ↦
                    rw (some_got, once)
                      (
                        got,
                        bytes,
                        finish-Takes unlock_error os sock got ((sock.read_head + got) % buffersize)
                            false old bytes h puts,
                        came,
                      )
                | inl twice ↦
                    let all : got ≡ first = ground arith in
                    let less : first < buffersize - arrived sock = ground arith in
                    let rest = buffersize - arrived sock - first in
                    let out = os.recv sock.fd rest h.kernel in
                    let p = both first bytes out.1 in
                    let here =
                      Appends-payload (received k sock.fd) (received h.kernel sock.fd) first
                        (stream k sock.fd) (stream h.kernel sock.fd) bytes p
                        (subst (λ (m : ℕ). Came k h.kernel m bytes) all came)
                        (λ j low. sym (both-low first bytes out.1 j low)) in
                    rw (some_got, twice)
                      (second-Fetches k (in_kernel out.2 h) got first rest out.0 old out.1 bytes
                        (subst
                          (λ (m : ℕ).
                            Puts sock.read_tail (arrived sock) m sock.read_buffer bytes
                              ((sock.read_head + got) % buffersize) old)
                          all puts)
                        all (omega (arith, size)) fits (omega arith)
                        (laws.bounded sock.fd rest h.kernel)
                        (Appends-trans (received k sock.fd) (received h.kernel sock.fd)
                          (received out.2 sock.fd) first (pos_part out.0.result) (stream k sock.fd)
                          (stream h.kernel sock.fd) (stream out.2 sock.fd) p out.1 here
                          (laws.delivered sock.fd rest h.kernel)
                          (λ j low. both-high first bytes out.1 j)))
              ]
        ]

    -- Every byte that `schedi_job_epollsocket_read_return` gets from the kernel comes into the read
    -- ring behind the bytes that wait there, in the order in which the kernel delivers them, also
    -- where they go around the end of the ring, and the bytes that wait are kept.
    pub read_return-Fetches :
        (h : Host K) → IsReading sock → Fetches h.kernel (read_return unlock_error os sock h)
    unfolding read_return
    read_return-Fetches h ring =
        let same = count_from-field sock.htc in
        let fits = ring.head_in in
        let most = ring.count_in in
        let all : size_sub buffersize (count_from sock.htc) ≡ buffersize - arrived sock =
          omega (arith, same) in
        let room : size_sub buffersize sock.read_head ≡ buffersize - sock.read_head = omega arith in
        let first = min (buffersize - arrived sock) (buffersize - sock.read_head) in
        let out = os.recv sock.fd first h.kernel in
        elim (Bool-cases (buffersize - arrived sock == 0)) [
          | inl full ↦
              rw (all, room, full)
                (
                  0,
                  λ j. 0,
                  (ring, (omega arith, λ j low. refl, λ j low. absurd (omega arith))),
                  (omega arith, λ j low. refl, λ j low. absurd (omega arith)),
                )
          | inr some_room ↦
              rw (all, room, some_room)
                (first-Fetches h.kernel (in_kernel out.2 h) first out.0 out.1 ring refl
                  (laws.bounded sock.fd first h.kernel) (laws.delivered sock.fd first h.kernel))
        ]
