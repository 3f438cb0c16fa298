-- ===== src/Socket/Writing.antt =====
-- `schedi_job_epollsocket_write` of src/jobs.c as a whole: what it sends at once, and what it leaves
-- in the ring.
use schedi.Prelude.{
  ℕ, ◌+◌, ◌-◌, ◌<◌, ◌≤◌, ◌≡◌, refl, sym, ◌∙◌, ap, min, not, ◌&&◌, ◌==◌, ltb, arith, Bool, false,
  if◌then◌else◌, Bool-cases, inl, inr,
}
use schedi.Prelude.Int.{ℤ, negsuc, pos_part}
use mathlib.Core.Path.{subst}
use schedi.Kernel.{Kernel, Transfer, negative}
use schedi.Socket.{buffersize, avail_from}
use schedi.Socket.Fields.{fields}
use schedi.Socket.Avail.{avail_from-field}
use schedi.Socket.Buffer.{Bytes, Socket, write_buffer_data}
use schedi.Socket.Owner.{epollsocket_write_buffer_data}
use schedi.Socket.Transfer.{Host, in_kernel, int_of, epoll_activator, write_rest, write_sent, write}
use schedi.Socket.Rings.{IsWriting, Appends, waiting, to_send, write_buffer_data-Appends}
use schedi.Socket.Stream.{Sends, Appends-payload}
use schedi.Socket.Gave.{die-Gave}
use schedi.Socket.Activator.{activator-SameStream}

Appends-same :
    (a b b' n : ℕ) (x y y' p : Bytes)
    → b' ≡ b
    → y' ≡ y
    → Appends a b n x y p
    → Appends a b' n x y' p
Appends-same a b b' n x y y' p same same' (e, kept, new) = (
  same ∙ e,
  λ k h. ap (λ (f : Bytes). f k) same' ∙ kept k h,
  λ k h. ap (λ (f : Bytes). f (a + k)) same' ∙ new k h,
)

module _ (unlock_error : ℕ) {K : Type 0} (os : Kernel K) {sent : K → ℤ → ℕ} {stream : K → ℤ → Bytes}
    (laws : Sends os sent stream) where
  -- The socket has nothing in its ring, and the `send` of the payload fails, not for want of room.
  abbrev pub fails : K → Bytes → ℕ → Socket → Bool
  fails k payload size sock =
      let t = (os.send sock.fd payload 0 size k).0 in
      (avail_from sock.htc == buffersize) && (negative t.result && not t.again)

  -- Of the payload n bytes have gone to the kernel, whose state was k, and the m after them are in
  -- the ring, behind those that waited there; bytes go past the ring only if none wait in it.
  abbrev pub Writes : K → (payload : Bytes) (size : ℕ) → Socket → ℤ × Socket × Host K → Type 0
  Writes k payload size sock out =
      (n : ℕ) × (m : ℕ) × (n + m ≤ size)
      × (0 < n → waiting sock ≡ 0)
      × IsWriting out.1
      × Appends (sent k sock.fd) (sent out.2.kernel sock.fd) n (stream k sock.fd)
          (stream out.2.kernel sock.fd) payload
      × Appends (waiting sock) (waiting out.1) m (to_send sock) (to_send out.1)
          (λ j. payload (n + j))
      × (if fails k payload size sock
          then (out.0 ≡ negsuc 0) × (n + m ≡ 0)
          else (out.0 ≡ int_of (n + m)) × (m ≡ min (size - n) (fields sock.htc).avail))

  rest-Writes :
      (k : K) (payload : Bytes) (size n : ℕ) (sock : Socket) (h : Host K)
      → fails k payload size sock ≡ false
      → n ≤ size
      → (0 < n → waiting sock ≡ 0)
      → IsWriting sock
      → Appends
          (sent k sock.fd)
          (sent h.kernel sock.fd)
          n
          (stream k sock.fd)
          (stream h.kernel sock.fd)
          payload
      → Writes k payload size sock
          (write_rest unlock_error os (λ j. payload (n + j)) (size - n) n sock h)
  unfolding write_rest
  rest-Writes k payload size n sock h goes few alone w gone = elim (Bool-cases (ltb 0 (size - n))) [
    | inr none_left ↦
        rw (none_left, goes)
          (
            n,
            0,
            omega arith,
            alone,
            w,
            gone,
            (omega arith, λ j low. refl, λ j low. absurd (omega arith)),
            (ap int_of (omega arith), ground arith),
          )
    | inl some_left ↦
        let out = write_buffer_data (λ j. payload (n + j)) (size - n) sock in
        let (total, w', appended) =
          write_buffer_data-Appends (λ j. payload (n + j)) (size - n) sock w in
        let before = record h {
          system =
              (epollsocket_write_buffer_data unlock_error (λ j. payload (n + j)) (size - n) sock
                h.system).2;
        } in
        let h' = epoll_activator unlock_error os out.1 before in
        let same = activator-SameStream unlock_error os laws out.1 before in
        rw (some_left, goes)
          (
            n,
            out.0,
            omega (arith, total),
            alone,
            w',
            Appends-same (sent k sock.fd) (sent h.kernel sock.fd) (sent h'.kernel sock.fd) n
                (stream k sock.fd) (stream h.kernel sock.fd) (stream h'.kernel sock.fd) payload
                (ap (λ (f : ℤ → ℕ). f sock.fd) same.0) (ap (λ (f : ℤ → Bytes). f sock.fd) same.1)
                gone,
            appended,
            (refl, total),
          )
  ]

  sent-Writes :
      (k : K) (payload : Bytes) (size : ℕ) (sock : Socket) (h : Host K) (t : Transfer)
      → fails k payload size sock ≡ (negative t.result && not t.again)
      → pos_part t.result ≤ size
      → waiting sock ≡ 0
      → IsWriting sock
      → Appends
          (sent k sock.fd)
          (sent h.kernel sock.fd)
          (pos_part t.result)
          (stream k sock.fd)
          (stream h.kernel sock.fd)
          payload
      → Writes k payload size sock (write_sent unlock_error os payload size sock h t)
  unfolding write_sent
  sent-Writes k payload size sock h t whether few none_wait w gone =
      elim (Bool-cases (negative t.result && not t.again)) [
        | inr on ↦ rw on (
            rest-Writes k payload size (pos_part t.result) sock h (whether ∙ on) few
              (λ some_sent. none_wait) w gone)
        | inl dead ↦
            let g = die-Gave unlock_error os sock h w in
            let zero_sent : pos_part t.result ≡ 0 = ground arith in
            rw (dead, whether ∙ dead)
              (
                0,
                0,
                omega arith,
                λ some_sent. none_wait,
                g.0,
                subst
                    (λ (m : ℕ).
                      Appends (sent k sock.fd) (sent h.kernel sock.fd) m (stream k sock.fd)
                        (stream h.kernel sock.fd) payload)
                    zero_sent gone,
                (
                  omega (arith, g.1.0),
                  λ j low. absurd (omega arith),
                  λ j low. absurd (omega arith),
                ),
                (refl, refl),
              )
      ]

  -- `schedi_job_epollsocket_write` hands the first bytes that it is given to the kernel, if none
  -- wait in the ring, and puts those after them into the ring behind the bytes that wait there, as
  -- many as there is room for. It returns their number; but where none wait and the `send` fails with
  -- another error than EAGAIN, it returns -1, and no byte has gone anywhere. So the kernel gets the bytes of all writes in their order.
  pub write-Writes :
      (payload : Bytes) (size : ℕ) (sock : Socket) (h : Host K)
      → IsWriting sock
      → Writes h.kernel payload size sock (write unlock_error os payload size sock h)
  unfolding write
  write-Writes payload size sock h w = elim (Bool-cases (avail_from sock.htc == buffersize)) [
    | inr some_wait ↦
        let none_gone : (j : ℕ) → 0 + j ≡ j = λ j. omega arith in
        let all_left : size - 0 ≡ size = omega arith in
        let rest =
          rest-Writes h.kernel payload size 0 sock h (ground arith) (omega arith)
            (λ none_sent. absurd (omega arith)) w
            (omega arith, λ j low. refl, λ j low. absurd (omega arith)) in
        let at : write unlock_error os payload size sock h
            ≡ write_rest unlock_error os payload size 0 sock h =
          rw some_wait refl in
        subst (Writes h.kernel payload size sock) (sym at) (
          subst
            (λ (p : Bytes).
              Writes h.kernel payload size sock (write_rest unlock_error os p size 0 sock h))
            (λ i j. payload (none_gone j i))
            (subst
              (λ (n : ℕ).
                Writes h.kernel payload size sock
                  (write_rest unlock_error os (λ j. payload (0 + j)) n 0 sock h))
              all_left rest))
    | inl empty ↦
        let out = os.send sock.fd payload 0 size h.kernel in
        let none_wait : waiting sock ≡ 0 = ground (arith, avail_from-field sock.htc) in
        let at : write unlock_error os payload size sock h
            ≡ write_sent unlock_error os payload size sock (in_kernel out.1 h) out.0 =
          rw empty refl in
        subst (Writes h.kernel payload size sock) (sym at) (
          sent-Writes h.kernel payload size sock (in_kernel out.1 h) out.0 (ground arith)
            (laws.bounded sock.fd payload 0 size h.kernel) none_wait w
            (Appends-payload (sent h.kernel sock.fd) (sent out.1 sock.fd) (pos_part out.0.result)
              (stream h.kernel sock.fd) (stream out.1 sock.fd) (λ j. payload (0 + j)) payload
              (laws.appended sock.fd payload 0 size h.kernel) (λ j low. ap payload (omega arith))))
  ]
