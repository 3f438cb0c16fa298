-- ===== src/Socket.antt =====
-- The packed state `htc` of an epoll socket (src/jobs.c, `struct schedi_job_epollsocket` of
-- include/schedi/jobs.h): the counts of its two buffers, and its readiness. Built without
-- SCHEDI_EXT_TIMEOUT, but for Timeout and Timed. Each operation is the body of its
-- compare-and-swap loop.
pub mod Fields
pub mod Bits
pub mod Ready
pub mod Avail
pub mod Count
pub mod Buffer
pub mod Owner
pub mod Transfer
pub mod Rings
pub mod Stream
pub mod Puts
pub mod Bytewise
pub mod Gave
pub mod Takes
pub mod Activator
pub mod Sending
pub mod Writing
pub mod Receiving
pub mod Timeout
pub mod Timed
mod Tests
use schedi.Prelude.{
  ℕ, ◌+◌, ◌-◌, ◌*◌, ◌/◌, ◌%◌, ◌^◌, bit_and, bit_or, Bool, true, false, not, ◌&&◌, ◌||◌, ◌==◌, leb,
  if◌then◌else◌,
}
use schedi.Prelude.Int.{ℤ, pos, negsuc, ◌+ℤ◌}
use schedi.Atomic.{Attempt, swap}

abbrev pub u64 : ℕ
u64 = 2 ^ 64

-- A converted `int`.
abbrev pub to_word : ℕ → ℤ → ℕ
to_word w (pos n) = n % 2 ^ w
to_word w (negsuc n) = 2 ^ w - 1 - n % 2 ^ w

-- The layout.
abbrev pub buffersize : ℕ
buffersize = 1024

abbrev pub count_mask : ℕ
count_mask = 2 ^ 29 - 1

abbrev pub avail_mask : ℕ
avail_mask = (2 ^ 29 - 1) * 2 ^ 29

abbrev pub epolldid : ℕ
epolldid = 2 ^ 58

abbrev pub epollnt : ℕ
epollnt = 2 ^ 59

abbrev pub read_ready : ℕ
read_ready = 2 ^ 60

abbrev pub write_ready : ℕ
write_ready = 2 ^ 61

abbrev pub ready : ℕ
ready = 2 ^ 62

abbrev pub dead : ℕ
dead = 2 ^ 63

abbrev pub complement64 : ℕ → ℕ
complement64 x = u64 - 1 - x

-- Whether a word meets a flag.
abbrev pub meets : ℕ → ℕ → Bool
meets w flag = not (bit_and w flag == 0)

abbrev pub when : Bool → ℕ → ℕ
when b flag = if b then flag else 0

abbrev pub count_from : ℕ → ℕ
count_from w = bit_and w count_mask

abbrev pub avail_from : ℕ → ℕ
avail_from w = bit_and w avail_mask / 2 ^ 29

-- `(!epollnt ? (read_ready && write_ready || is_dead) : 0) || epolldid`
abbrev pub complete : (did nt read write is_dead : Bool) → Bool
complete did nt read write is_dead = (if not nt then (read && write) || is_dead else false) || did

-- `schedi_job_epollsocket_avail_add`, with the socket's `write_avail_condition`.
pub avail_add : (write_avail_condition : ℕ) → ℤ → Bool → ℕ → Attempt (Unit {0})
avail_add write_avail_condition delta died w =
    let des_avail = pos (avail_from w) +ℤ delta in
    let write = leb write_avail_condition (to_word 32 des_avail) in
    let is_dead = died || meets w dead in
    let done = complete (meets w epolldid) (meets w epollnt) (meets w read_ready) write is_dead in
    let cleared = bit_and w (complement64 (bit_or (bit_or avail_mask write_ready) ready)) in
    let counted = bit_or cleared (to_word 64 des_avail * 2 ^ 29 % u64) in
    swap
      (bit_or (bit_or (bit_or counted (when write write_ready)) (when done ready))
        (when is_dead dead))
      tt

-- `schedi_job_epollsocket_count_add`, with the socket's `read_count_condition`.
pub count_add : (read_count_condition : ℕ) → ℤ → Bool → ℕ → Attempt (Unit {0})
count_add read_count_condition delta died w =
    let des_count = pos (count_from w) +ℤ delta in
    let read = leb read_count_condition (to_word 32 des_count) in
    let is_dead = died || meets w dead in
    let done = complete (meets w epolldid) (meets w epollnt) read (meets w write_ready) is_dead in
    let cleared = bit_and w (complement64 (bit_or (bit_or count_mask read_ready) ready)) in
    let counted = bit_or cleared (bit_and (to_word 64 des_count) count_mask) in
    swap
      (bit_or (bit_or (bit_or counted (when read read_ready)) (when done ready))
        (when is_dead dead))
      tt

-- `schedi_job_epollsocket_dead`
pub mark_dead : ℕ → Attempt (Unit {0})
mark_dead w = swap (bit_or w (bit_or dead ready)) tt

pub done_cas_epollside : ℕ → Attempt (Unit {0})
done_cas_epollside w = swap (bit_or w (bit_or epolldid ready)) tt

pub done_cas_jobside : ℕ → Attempt (Unit {0})
done_cas_jobside w =
    let des = bit_or w epollnt in
    swap (if not (meets des epolldid) then bit_and des (complement64 ready) else des) tt

-- The word of a new socket, in `schedi_job_tool_epollsocket`.
pub initial : (read_count_condition write_avail_condition : ℕ) → ℕ
initial read_count_condition write_avail_condition =
    let w = buffersize * 2 ^ 29 in
    let read = leb read_count_condition (count_from w) in
    let write = leb write_avail_condition (avail_from w) in
    bit_or (bit_or (bit_or w (when read read_ready)) (when write write_ready))
      (when (read && write) ready)
