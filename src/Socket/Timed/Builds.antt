-- ===== src/Socket/Timed/Builds.antt =====
-- The words of an epoll socket in the builds without and with SCHEDI_EXT_TIMEOUT (src/jobs.c).
use schedi.Prelude.{ℕ, ◌^◌, ◌<◌, ◌≡◌, sym, ◌∙◌, ap, Bool, false, ◌||◌, leb, arith}
use schedi.Prelude.Int.{ℤ, pos, ◌+ℤ◌}
use schedi.Atomic.{atomic}
use schedi.Socket.{complete, avail_add, count_add}
use schedi.Socket.Fields.{Fields, fields}
use schedi.Socket.Avail.{avail_add_lem}
use schedi.Socket.Count.{count_add_lem}
use schedi.Socket.Timeout.{Timed, timed}
use schedi.Socket.Timed.{avail_add_timed, count_add_timed}
use schedi.Socket.Timed.Avail.{avail_add_timed_lem}
use schedi.Socket.Timed.Count.{count_add_timed_lem}

abbrev pub without_timeout : Timed → Fields
without_timeout f = record {
  count = f.count;
  avail = f.avail;
  epolldid = f.epolldid;
  epollnt = f.epollnt;
  read_ready = f.read_ready;
  write_ready = f.write_ready;
  ready = f.ready;
  dead = f.dead;
}

-- The word of the second build holds what that of the first does, and no timeout.
abbrev pub Agrees : (w w' : ℕ) → Type 0
Agrees w w' = (fields w ≡ without_timeout (timed w')) × ((timed w').timeout ≡ false)

abbrev after_avail : ℕ → Bool → ℕ → Fields → Fields
after_avail cond died n f = record f {
  avail = n;
  write_ready = leb cond n;
  ready = complete f.epolldid f.epollnt f.read_ready (leb cond n) (died || f.dead);
  dead = died || f.dead;
}

abbrev after_count : ℕ → Bool → ℕ → Fields → Fields
after_count cond died n f = record f {
  count = n;
  read_ready = leb cond n;
  ready = complete f.epolldid f.epollnt (leb cond n) f.write_ready (died || f.dead);
  dead = died || f.dead;
}

-- Where the words of a socket agree in the two builds and it has not timed out, they agree after
-- `schedi_job_epollsocket_avail_add` and after `schedi_job_epollsocket_count_add`, if the new space
-- and the new count are not negative and fit 28 bits.
pub adds-Agrees :
    (cond : ℕ) (delta delta' : ℤ) (died : Bool) (w w' space count : ℕ)
    → Agrees w w'
    → (pos (fields w).avail +ℤ delta) ≡ pos space
    → space < 2 ^ 28
    → (pos (fields w).count +ℤ delta') ≡ pos count
    → count < 2 ^ 28
    → Agrees
        (atomic (avail_add cond delta died) w).1
        (atomic (avail_add_timed cond delta died) w').1
      × Agrees
          (atomic (count_add cond delta' died) w).1
          (atomic (count_add_timed cond delta' died) w').1
adds-Agrees cond delta delta' died w w' space count (same, fresh) e small e' small' =
    let a =
      avail_add_timed_lem cond delta died w' space
        (ap (λ (f : Fields). pos f.avail +ℤ delta) (sym same) ∙ e) small fresh in
    let c =
      count_add_timed_lem cond delta' died w' count
        (ap (λ (f : Fields). pos f.count +ℤ delta') (sym same) ∙ e') small' fresh in
    (
      (
        avail_add_lem cond delta died w space e (omega arith)
            ∙ ap (after_avail cond died space) same
            ∙ sym (ap without_timeout a),
        ap (λ (f : Timed). f.timeout) a ∙ fresh,
      ),
      (
        count_add_lem cond delta' died w count e' (omega arith)
            ∙ ap (after_count cond died count) same
            ∙ sym (ap without_timeout c),
        ap (λ (f : Timed). f.timeout) c ∙ fresh,
      ),
    )
