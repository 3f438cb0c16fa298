-- ===== src/Socket/Takes.antt =====
-- What comes into the read ring once `schedi_job_epollsocket_read_return` of src/jobs.c has it.
use schedi.Prelude.{ℕ, ◌+◌, ◌≡◌, refl, sym, ◌∙◌, ap, Bool, arith}
use schedi.Prelude.Int.{ℤ, pos, ◌+ℤ◌}
use mathlib.Core.Path.{subst}
use schedi.Atomic.{atomic}
use schedi.Kernel.{Kernel}
use schedi.Socket.{mark_dead}
use schedi.Socket.Fields.{Fields, fields}
use schedi.Socket.Count.{count_add_lem}
use schedi.Socket.Ready.{mark_dead_lem}
use schedi.Socket.Buffer.{Bytes, Socket}
use schedi.Socket.Owner.{change}
use schedi.Socket.Transfer.{Host, int_of, die, read_finish}
use schedi.Socket.Rings.{IsRing, IsReading, Appends, arrived, to_read}
use schedi.Socket.Puts.{Puts}
use schedi.Socket.Stream.{small_int}

module _ (unlock_error : ℕ) {K : Type 0} (os : Kernel K) (sock : Socket) where
  -- n bytes of a payload have come into the read ring.
  abbrev pub Takes : (n : ℕ) (payload : Bytes) → ℤ × Socket × Host K → Type 0
  Takes n payload (r, sock', h') =
      IsReading sock'
      × Appends (arrived sock) (arrived sock') n (to_read sock) (to_read sock') payload

  abbrev pub with_bytes : Bytes → Socket
  with_bytes bytes = record sock { read_buffer = bytes }

  pub finish-Takes :
      (n head : ℕ) (died : Bool) (bytes payload : Bytes) (h : Host K)
      → Puts sock.read_tail (arrived sock) n sock.read_buffer payload head bytes
      → Takes n payload (read_finish unlock_error os n head died (with_bytes bytes) h)
  unfolding read_finish change
  finish-Takes n head died bytes payload h (ring, kept, new) =
      let f = fields sock.htc in
      let most = ring.count_in in
      let e : (pos f.count +ℤ int_of n) ≡ pos (f.count + n) =
        ap (λ (z : ℤ). pos f.count +ℤ z) (small_int n (omega arith)) ∙ ground arith in
      let now =
        ap (λ (g : Fields). g.count)
          (count_add_lem sock.read_count_condition (int_of n) died sock.htc (f.count + n) e
            (omega arith)) in
      (subst (λ (c : ℕ). IsRing head sock.read_tail c) (sym now) ring, (now, kept, new))

  -- A death brings nothing.
  pub die-Takes :
      (h : Host K)
      → IsReading sock
      → (payload : Bytes) → Takes 0 payload (die unlock_error os sock h)
  unfolding change
  die-Takes h ring payload =
      let same : (fields (atomic mark_dead sock.htc).1).count ≡ (fields sock.htc).count =
        ap (λ (g : Fields). g.count) (mark_dead_lem sock.htc) in
      (
        subst (λ (c : ℕ). IsRing sock.read_head sock.read_tail c) (sym same) ring,
        (omega (arith, same), λ k low. refl, λ k low. absurd (omega arith)),
      )
