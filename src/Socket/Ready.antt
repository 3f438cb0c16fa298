-- ===== src/Socket/Ready.antt =====
-- What a death and the two ends of an epoll socket do to the fields of its word.
use schedi.Prelude.{ℕ, ◌≡◌, ◌∙◌, ap, bit_and, bit_or, Bool, true, false, not, ◌&&◌, if◌then◌else◌}
use schedi.Atomic.{atomic}
use schedi.Socket.{
  epolldid, epollnt, ready, dead, complement64, meets, mark_dead, done_cas_epollside,
  done_cas_jobside,
}
use schedi.Socket.Fields.{Fields, fields, shared, fields-bit_or, fields-bit_and}
use schedi.Socket.Bits.{fields_rules, meets-bit}

-- `schedi_job_epollsocket_dead` sets DEAD and READY, whatever the other bits are, and changes
-- nothing else.
pub mark_dead_lem :
    (w : ℕ) → fields (atomic mark_dead w).1 ≡ record (fields w) { ready = true; dead = true }
unfolding mark_dead fields
mark_dead_lem w = fields-bit_or w (bit_or dead ready) ∙ simp fields_rules

-- The epoll side of `schedi_job_epollsocket_done_` sets EPOLLDID and READY and changes nothing else.
pub done_cas_epollside_lem :
    (w : ℕ)
    → fields (atomic done_cas_epollside w).1 ≡ record (fields w) { epolldid = true; ready = true }
unfolding done_cas_epollside fields
done_cas_epollside_lem w = fields-bit_or w (bit_or epolldid ready) ∙ simp fields_rules

marked_nt : (w : ℕ) → fields (bit_or w epollnt) ≡ record (fields w) { epollnt = true }
unfolding fields
marked_nt w = fields-bit_or w epollnt ∙ simp fields_rules

cleared_unless :
    (b : Bool) (w : ℕ)
    → fields (if not b then bit_and (bit_or w epollnt) (complement64 ready) else bit_or w epollnt)
      ≡ record (fields w) { epollnt = true; ready = b && (fields w).ready }
unfolding fields
cleared_unless true w = marked_nt w
cleared_unless false w =
    fields-bit_and (bit_or w epollnt) (complement64 ready)
    ∙ ap (λ (f : Fields). shared f (fields (complement64 ready))) (marked_nt w)
    ∙ simp fields_rules

-- The job side of `schedi_job_epollsocket_done_` sets EPOLLNT, clears READY unless EPOLLDID is set,
-- and changes nothing else.
pub done_cas_jobside_lem :
    (w : ℕ)
    → let f = fields w in
      fields (atomic done_cas_jobside w).1
      ≡ record f { epollnt = true; ready = f.epolldid && f.ready }
unfolding done_cas_jobside fields
done_cas_jobside_lem w =
    let des = bit_or w epollnt in
    let did : meets des epolldid ≡ (fields w).epolldid =
      meets-bit 58 des ∙ ap (λ (f : Fields). f.epolldid) (marked_nt w) in
    ap (λ (b : Bool). fields (if not b then bit_and des (complement64 ready) else des)) did
    ∙ cleared_unless (fields w).epolldid w
