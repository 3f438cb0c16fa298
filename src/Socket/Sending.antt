-- ===== src/Socket/Sending.antt =====
-- `schedi_job_epollsocket_write_return` of src/jobs.c hands the bytes that wait in the write ring
-- to the kernel, in their order.
use schedi.Prelude.{
  ℕ, ◌+◌, ◌-◌, ◌%◌, ◌<◌, ◌≤◌, ◌≡◌, refl, ap, true, false, not, ◌&&◌, min, arith, ltb, ◌==◌,
  Bool-cases, inl, inr,
}
use schedi.Prelude.Int.{ℤ, pos, pos_part}
use mathlib.Core.Path.{subst}
use schedi.Kernel.{Kernel, Transfer, negative}
use schedi.Socket.{buffersize, avail_from}
use schedi.Socket.Avail.{avail_from-field}
use schedi.Socket.Buffer.{Bytes, Socket}
use schedi.Socket.Transfer.{
  Host, in_kernel, size_sub, write_finish, write_second, write_first, write_return,
}
use schedi.Socket.Rings.{IsWriting, Appends, waiting, to_send}
use schedi.Socket.Stream.{Sends, Appends-trans, Appends-payload}
use schedi.Socket.Gave.{Gave, finish-Gave, die-Gave}

module _ (unlock_error : ℕ) {K : Type 0} (os : Kernel K) where
  module _ {sent : K → ℤ → ℕ} {stream : K → ℤ → Bytes} (laws : Sends os sent stream)
      (sock : Socket) where
    -- n of the bytes that wait have left the ring for the kernel, whose state was k.
    abbrev pub Hands : K → ℤ × Socket × Host K → Type 0
    Hands k out =
        (n : ℕ) × (n ≤ waiting sock)
        × Gave unlock_error os n sock out
        × Appends (sent k sock.fd) (sent out.2.kernel sock.fd) n (stream k sock.fd)
            (stream out.2.kernel sock.fd) (to_send sock)

    -- The first `send` goes up to the end of the ring at most, the second starts there.
    from_tail :
        (j : ℕ)
        → sock.write_tail + j < buffersize
        → sock.write_buffer (sock.write_tail + j) ≡ to_send sock j
    from_tail j h = ap sock.write_buffer (omega arith)

    from_start :
        (first j : ℕ)
        → sock.write_tail + first ≡ buffersize
        → j < buffersize
        → sock.write_buffer (0 + j) ≡ to_send sock (first + j)
    from_start first j h low = ap sock.write_buffer (omega arith)

    second-Hands :
        (k : K) (h : Host K) (total first rest : ℕ) (t : Transfer)
        → IsWriting sock
        → total ≡ first
        → sock.write_tail + first ≡ buffersize
        → first + rest ≤ waiting sock
        → pos_part t.result ≤ rest
        → Appends
            (sent k sock.fd)
            (sent h.kernel sock.fd)
            (first + pos_part t.result)
            (stream k sock.fd)
            (stream h.kernel sock.fd)
            (to_send sock)
        → Hands k
            (write_second unlock_error os total ((sock.write_tail + total) % buffersize) t sock h)
    unfolding write_second write_finish
    second-Hands k h total first rest t w e up room few gone =
        elim (Bool-cases (ltb 0 (pos_part t.result))) [
          | inl some_sent ↦
              let n = total + pos_part t.result in
              rw some_sent (
                n,
                omega arith,
                finish-Gave unlock_error os n (pos_part t.result) false sock h w (omega arith)
                    (omega (arith, w.0.tail_in)),
                subst
                    (λ (m : ℕ).
                      Appends (sent k sock.fd) (sent h.kernel sock.fd) m (stream k sock.fd)
                        (stream h.kernel sock.fd) (to_send sock))
                    (omega arith) gone,
              )
          | inr none_sent ↦
              let zero_sent : pos_part t.result ≡ 0 = ground arith in
              let tail = (sock.write_tail + total) % buffersize in
              rw none_sent (
                total,
                omega arith,
                finish-Gave unlock_error os total tail (negative t.result && not t.again) sock h w
                    (omega arith) refl,
                subst
                    (λ (m : ℕ).
                      Appends (sent k sock.fd) (sent h.kernel sock.fd) m (stream k sock.fd)
                        (stream h.kernel sock.fd) (to_send sock))
                    (omega arith) gone,
              )
        ]

    nothing : (h : Host K) → IsWriting sock → Gave unlock_error os 0 sock (pos 0, sock, h)
    nothing h w = (w, (omega arith, λ k low. ap sock.write_buffer (omega arith)))

    no_bytes : (t : Transfer) → negative t.result ≡ true → pos_part t.result ≡ 0
    no_bytes t e = ground arith

    first-Hands :
        (k : K) (h : Host K) (first : ℕ) (t : Transfer)
        → IsWriting sock
        → first ≡ min (waiting sock) (buffersize - sock.write_tail)
        → pos_part t.result ≤ first
        → Appends
            (sent k sock.fd)
            (sent h.kernel sock.fd)
            (pos_part t.result)
            (stream k sock.fd)
            (stream h.kernel sock.fd)
            (to_send sock)
        → Hands k (write_first unlock_error os (waiting sock) first t sock h)
    unfolding write_first
    first-Hands k h first t w size few gone = elim (Bool-cases (negative t.result)) [
      | inl failed ↦
          let none_gone =
            subst
              (λ (m : ℕ).
                Appends (sent k sock.fd) (sent h.kernel sock.fd) m (stream k sock.fd)
                  (stream h.kernel sock.fd) (to_send sock))
              (no_bytes t failed) gone in
          elim (Bool-cases t.again) [
            | inl later ↦ rw (failed, later) (0, omega arith, nothing h w, none_gone)
            | inr dead ↦
                rw (failed, dead) (0, omega arith, die-Gave unlock_error os sock h w, none_gone)
          ]
      | inr ok ↦ elim (Bool-cases ((pos_part t.result == first) && ltb first (waiting sock))) [
        | inr once ↦
            let n = pos_part t.result in
            rw (ok, once)
              (
                n,
                omega (arith, size),
                finish-Gave unlock_error os n ((sock.write_tail + n) % buffersize) false sock h w
                    (omega (arith, size)) refl,
                gone,
              )
        | inl twice ↦
            let all : pos_part t.result ≡ first = ground arith in
            let more : first < waiting sock = ground arith in
            let up : sock.write_tail + first ≡ buffersize = omega (arith, size, w.0.tail_in) in
            let rest = waiting sock - first in
            let out = os.send sock.fd sock.write_buffer 0 rest h.kernel in
            let here =
              subst
                (λ (m : ℕ).
                  Appends (sent k sock.fd) (sent h.kernel sock.fd) m (stream k sock.fd)
                    (stream h.kernel sock.fd) (to_send sock))
                all gone in
            let there = laws.appended sock.fd sock.write_buffer 0 rest h.kernel in
            let most = laws.bounded sock.fd sock.write_buffer 0 rest h.kernel in
            rw (ok, twice)
              (second-Hands k (in_kernel out.1 h) (pos_part t.result) first rest out.0 w all up
                (omega arith) most
                (Appends-trans (sent k sock.fd) (sent h.kernel sock.fd) (sent out.1 sock.fd) first
                  (pos_part out.0.result) (stream k sock.fd) (stream h.kernel sock.fd)
                  (stream out.1 sock.fd) (to_send sock) (λ j. sock.write_buffer (0 + j)) here there
                  (λ j low. from_start first j up (omega arith))))
      ]
    ]

    -- `schedi_job_epollsocket_write_return` hands some of the bytes that wait in the write ring to
    -- the kernel, from the oldest on and in their order, also where they go around the end of the
    -- ring; exactly these leave the ring, the others keep their order, and nothing is lost where a
    -- `send` fails.
    pub write_return-Hands :
        (h : Host K) → IsWriting sock → Hands h.kernel (write_return unlock_error os sock h)
    unfolding write_return
    write_return-Hands h w =
        let same = avail_from-field sock.htc in
        let all : size_sub buffersize (avail_from sock.htc) ≡ waiting sock =
          omega (arith, same, w.1) in
        let room : size_sub buffersize sock.write_tail ≡ buffersize - sock.write_tail =
          omega (arith, w.0.tail_in) in
        let first = min (waiting sock) (buffersize - sock.write_tail) in
        let out = os.send sock.fd sock.write_buffer sock.write_tail first h.kernel in
        elim (Bool-cases (waiting sock == 0)) [
          | inl empty ↦
              rw (all, room, empty)
                (
                  0,
                  omega arith,
                  nothing h w,
                  (omega arith, λ k low. refl, λ k low. absurd (omega arith)),
                )
          | inr some_wait ↦
              let most = laws.bounded sock.fd sock.write_buffer sock.write_tail first h.kernel in
              rw (all, room, some_wait)
                (first-Hands h.kernel (in_kernel out.1 h) first out.0 w refl most (
                  Appends-payload (sent h.kernel sock.fd) (sent out.1 sock.fd)
                    (pos_part out.0.result) (stream h.kernel sock.fd) (stream out.1 sock.fd)
                    (λ j. sock.write_buffer (sock.write_tail + j)) (to_send sock)
                    (laws.appended sock.fd sock.write_buffer sock.write_tail first h.kernel)
                    (λ j low. from_tail j (omega (arith, w.0.tail_in)))))
        ]
