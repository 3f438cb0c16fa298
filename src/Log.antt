-- ===== src/Log.antt =====
-- The fast log of src/log.c: two rings of the last 4096 events.
-- The index comes from one atomic addition; an event is written as one step. `tid` is what the
-- system call `gettid` returns. Built without SCHEDI_LOG_NAMED_THREADS.
pub mod Recent
mod Tests
use schedi.Prelude.{ℕ, ◌+◌, ◌-◌, ◌%◌, ◌^◌}
use schedi.Prelude.Int.{ℤ}
use schedi.Queue.{update}

abbrev pub flog_size : ℕ
flog_size = 4096

-- `struct schedi_flog_event`; `msg` is the pointer.
pub record Event : Type 0 where
  pub tid : ℕ
  pub msg : ℕ
  pub param : ℤ

-- A ring: its `unsigned int` head, and the events by slot.
pub record Ring : Type 0 where
  pub head : ℕ
  pub events : ℕ → Event

-- `schedi_flog_explicit`
pub flog_explicit : Event → Ring → Ring
flog_explicit ev r = record {
  head = (r.head + 1) % 2 ^ 32;
  events = update r.events (r.head % flog_size) ev;
}

pub record Log : Type 0 where
  pub flog_ring : Ring
  pub ferr_ring : Ring

pub flog : Event → Log → Log
unfolding flog_explicit
flog ev l = record l { flog_ring = flog_explicit ev l.flog_ring }

-- An error is logged in both rings.
pub ferr : Event → Log → Log
unfolding flog
ferr ev l = let l' = flog ev l in record l' { ferr_ring = flog_explicit ev l'.ferr_ring }

-- What `schedi_flog_get` and `schedi_ferr_get` write at index k of the caller's buffer: the loop
-- writes index 4095 - i for each i from 4095 down to 0.
pub get : Ring → ℕ → Event
get r k = r.events ((r.head + 2 ^ 32 - (flog_size - 1 - k)) % 2 ^ 32 % flog_size)
