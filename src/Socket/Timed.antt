-- ===== src/Socket/Timed.antt =====
-- The counts of the two buffers of an epoll socket in the build with SCHEDI_EXT_TIMEOUT, where
-- they have 28 bits each (src/jobs.c): `schedi_job_epollsocket_avail_add` and
-- `schedi_job_epollsocket_count_add` leave the word of a socket that timed out as it is.
pub mod Avail
pub mod Count
pub mod Builds
use schedi.Prelude.{
  ℕ, ◌-◌, ◌*◌, ◌/◌, ◌%◌, ◌^◌, ◌<◌, ◌≡◌, refl, ◌∙◌, ap, ap₂, bit_and, bit_or, Bool, true, false,
  ◌&&◌, ◌||◌, leb, arith, if◌then◌else◌,
}
use schedi.Prelude.Int.{ℤ, pos, ◌+ℤ◌}
use schedi.Prelude.Bits.{bit, field, bit_and_low, bit_and-field}
use schedi.Atomic.{Attempt, atomic, quit, swap}
use schedi.Socket.{
  u64, buffersize, to_word, epolldid, epollnt, read_ready, write_ready, ready, dead, complement64,
  meets, when, complete,
}
use schedi.Socket.Timeout.{
  timeout, Timed, timed, joined, timed-bit_or, timed-bit_and, low_28, timed_out,
}
use schedi.Socket.Bits.{fields_rules, meets-bit, already}

abbrev pub count_mask_timed : ℕ
count_mask_timed = 2 ^ 28 - 1

abbrev pub avail_mask_timed : ℕ
avail_mask_timed = (2 ^ 28 - 1) * 2 ^ 28

abbrev pub count_from_timed : ℕ → ℕ
count_from_timed w = bit_and w count_mask_timed

abbrev pub avail_from_timed : ℕ → ℕ
avail_from_timed w = bit_and w avail_mask_timed / 2 ^ 28

-- `schedi_job_epollsocket_avail_add`
unfoldable pub avail_add_timed : (write_avail_condition : ℕ) → ℤ → Bool → ℕ → Attempt (Unit {0})
avail_add_timed write_avail_condition delta died w =
    let des_avail = pos (avail_from_timed w) +ℤ delta in
    let write = leb write_avail_condition (to_word 32 des_avail) in
    let is_dead = died || meets w dead in
    let done = complete (meets w epolldid) (meets w epollnt) (meets w read_ready) write is_dead in
    let cleared = bit_and w (complement64 (bit_or (bit_or avail_mask_timed write_ready) ready)) in
    let counted = bit_or cleared (to_word 64 des_avail * 2 ^ 28 % u64) in
    if timed_out w
    then quit tt
    else swap
        (bit_or (bit_or (bit_or counted (when write write_ready)) (when done ready))
          (when is_dead dead))
        tt

-- `schedi_job_epollsocket_count_add`
unfoldable pub count_add_timed : (read_count_condition : ℕ) → ℤ → Bool → ℕ → Attempt (Unit {0})
count_add_timed read_count_condition delta died w =
    let des_count = pos (count_from_timed w) +ℤ delta in
    let read = leb read_count_condition (to_word 32 des_count) in
    let is_dead = died || meets w dead in
    let done = complete (meets w epolldid) (meets w epollnt) read (meets w write_ready) is_dead in
    let cleared = bit_and w (complement64 (bit_or (bit_or count_mask_timed read_ready) ready)) in
    let counted = bit_or cleared (bit_and (to_word 64 des_count) count_mask_timed) in
    if timed_out w
    then quit tt
    else swap
        (bit_or (bit_or (bit_or counted (when read read_ready)) (when done ready))
          (when is_dead dead))
        tt

-- The word of a new socket, in `schedi_job_tool_epollsocket`.
unfoldable pub initial_timed : (read_count_condition write_avail_condition : ℕ) → ℕ
initial_timed read_count_condition write_avail_condition =
    let w = buffersize * 2 ^ 28 in
    let read = leb read_count_condition (count_from_timed w) in
    let write = leb write_avail_condition (avail_from_timed w) in
    bit_or (bit_or (bit_or w (when read read_ready)) (when write write_ready))
      (when (read && write) ready)

-- Setting three flags that are clear.
module _ (x : ℕ) where
  pub timed-write :
      (b : Bool)
      → timed (bit_or x (when b write_ready))
        ≡ record (timed x) { write_ready = (timed x).write_ready || b }
  unfolding timed
  timed-write true = timed-bit_or x write_ready ∙ simp fields_rules
  timed-write false = timed-bit_or x 0 ∙ simp fields_rules

  pub timed-read :
      (b : Bool)
      → timed (bit_or x (when b read_ready))
        ≡ record (timed x) { read_ready = (timed x).read_ready || b }
  unfolding timed
  timed-read true = timed-bit_or x read_ready ∙ simp fields_rules
  timed-read false = timed-bit_or x 0 ∙ simp fields_rules

  pub timed-ready :
      (b : Bool)
      → timed (bit_or x (when b ready)) ≡ record (timed x) { ready = (timed x).ready || b }
  unfolding timed
  timed-ready true = timed-bit_or x ready ∙ simp fields_rules
  timed-ready false = timed-bit_or x 0 ∙ simp fields_rules

  pub timed-dead :
      (b : Bool) → timed (bit_or x (when b dead)) ≡ record (timed x) { dead = (timed x).dead || b }
  unfolding timed
  timed-dead true = timed-bit_or x dead ∙ simp fields_rules
  timed-dead false = timed-bit_or x 0 ∙ simp fields_rules

abbrev pub lone : (count avail : ℕ) → Timed
lone count avail = record {
  count = count;
  avail = avail;
  timeout = false;
  epolldid = false;
  epollnt = false;
  read_ready = false;
  write_ready = false;
  ready = false;
  dead = false;
}

no_bit : (k x : ℕ) → field k 1 x ≡ 0 → bit k x ≡ false
no_bit k x e = ground arith

pub timed-lone :
    (x count avail : ℕ)
    → field 0 28 x ≡ count
    → field 28 28 x ≡ avail
    → x < 2 ^ 56
    → timed x ≡ lone count avail
unfolding timed
timed-lone x count avail c a h = λ i. record {
  count = c i;
  avail = a i;
  timeout = no_bit 57 x (omega arith) i;
  epolldid = no_bit 58 x (omega arith) i;
  epollnt = no_bit 59 x (omega arith) i;
  read_ready = no_bit 60 x (omega arith) i;
  write_ready = no_bit 61 x (omega arith) i;
  ready = no_bit 62 x (omega arith) i;
  dead = no_bit 63 x (omega arith) i;
}
