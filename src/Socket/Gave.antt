-- ===== src/Socket/Gave.antt =====
-- What leaves the write ring once `schedi_job_epollsocket_write_return` of src/jobs.c has sent it.
use schedi.Prelude.{ℕ, ◌+◌, ◌-◌, ◌%◌, ◌≤◌, ◌≡◌, sym, ◌∙◌, ap, Bool, arith}
use schedi.Prelude.Int.{ℤ, pos, ◌+ℤ◌}
use mathlib.Core.Path.{subst}
use schedi.Atomic.{atomic}
use schedi.Kernel.{Kernel}
use schedi.Socket.{buffersize, mark_dead}
use schedi.Socket.Fields.{Fields, fields}
use schedi.Socket.Avail.{avail_add_lem}
use schedi.Socket.Ready.{mark_dead_lem}
use schedi.Socket.Buffer.{Socket}
use schedi.Socket.Owner.{change}
use schedi.Socket.Transfer.{Host, int_of, die, write_finish}
use schedi.Socket.Rings.{IsRing, IsWriting, Drops, waiting, to_send}
use schedi.Socket.Stream.{small_int, moved, past}

module _ (unlock_error : ℕ) {K : Type 0} (os : Kernel K) where
  -- What `schedi_job_epollsocket_write_return` has done once n bytes have gone.
  abbrev pub Gave : (n : ℕ) → Socket → ℤ × Socket × Host K → Type 0
  Gave n sock (r, sock', h') =
      IsWriting sock' × Drops (waiting sock) (waiting sock') n (to_send sock) (to_send sock')

  pub finish-Gave :
      (n tail : ℕ) (died : Bool) (sock : Socket) (h : Host K)
      → IsWriting sock
      → n ≤ waiting sock
      → tail ≡ (sock.write_tail + n) % buffersize
      → Gave n sock (write_finish unlock_error os n tail died sock h)
  unfolding write_finish change
  finish-Gave n tail died sock h (ring, room) few at =
      let f = fields sock.htc in
      let e : (pos f.avail +ℤ int_of n) ≡ pos (f.avail + n) =
        ap (λ (z : ℤ). pos f.avail +ℤ z) (small_int n (omega arith)) ∙ ground arith in
      let left =
        ap (λ (g : Fields). g.avail)
          (avail_add_lem sock.write_avail_condition (int_of n) died sock.htc (f.avail + n) e
            (omega arith)) in
      (
        (
          subst (λ (c : ℕ). IsRing sock.write_head tail (buffersize - c)) (sym left)
              (subst (λ (t : ℕ). IsRing sock.write_head t (buffersize - (f.avail + n))) (sym at)
                (moved sock.write_head sock.write_tail f.avail n ring room few)),
          omega (arith, left),
        ),
        (
          omega (arith, left),
          λ k low.
              ap (λ (t : ℕ). sock.write_buffer ((t + k) % buffersize)) at
              ∙ ap sock.write_buffer (past sock.write_tail n k),
        ),
      )

  -- A death moves nothing.
  pub die-Gave :
      (sock : Socket) (h : Host K) → IsWriting sock → Gave 0 sock (die unlock_error os sock h)
  unfolding change
  die-Gave sock h (ring, room) =
      let same : (fields (atomic mark_dead sock.htc).1).avail ≡ (fields sock.htc).avail =
        ap (λ (g : Fields). g.avail) (mark_dead_lem sock.htc) in
      (
        (
          subst (λ (c : ℕ). IsRing sock.write_head sock.write_tail (buffersize - c)) (sym same)
              ring,
          omega (arith, same),
        ),
        (omega (arith, same), λ k low. ap sock.write_buffer (omega arith)),
      )
