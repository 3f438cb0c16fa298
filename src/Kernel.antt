-- ===== src/Kernel.antt =====
-- What src/epoll.c, src/jobs.c and src/worker.c call of the operating system and the C library:
-- operations on a state K of their own, with what they return. No law is assumed here.
pub mod Sample
use schedi.Prelude.{ℕ, zero, suc, Bool, true, false, Option, List}
use schedi.Prelude.Int.{ℤ, pos, negsuc}

-- The operations of `epoll_ctl`.
pub data Control : Type 0 where
  add modify del : Control

-- `x < 0`
abbrev pub negative : ℤ → Bool
negative (pos n) = false
negative (negsuc n) = true

-- `if (x)`
abbrev pub nonzero : ℤ → Bool
nonzero (pos n) = elim n [ zero ↦ false | suc m ↦ true ]
nonzero (negsuc n) = true

-- What `poll` on the three descriptors of the epoll loop returns: its result, whether `errno` is
-- EINTR, and whether POLLIN is in the `revents` of each.
pub record Polled : Type 0 where
  pub result : ℤ
  pub interrupted : Bool
  pub wake : Bool
  pub read : Bool
  pub write : Bool

-- The result of `send` and `recv`, and whether `errno` is EAGAIN or EWOULDBLOCK.
pub record Transfer : Type 0 where
  pub result : ℤ
  pub again : Bool

pub record Kernel (K : Type 0) : Type 0 where
  pub epollin : ℕ
  pub epollout : ℕ
  pub epollerr : ℕ
  pub epollhup : ℕ
  pub epolloneshot : ℕ
  pub malloc : K → Option ℕ × K
  pub free : ℕ → K → K
  pub epoll_create1 : K → ℤ × K
  pub eventfd : K → ℤ × K
  pub close : ℤ → K → K
  pub epoll_ctl : (epfd : ℤ) → Control → (fd : ℤ) (events ptr : ℕ) → K → ℤ × K
  -- The events as pairs of flags and pointer, and none where the result is not positive.
  pub epoll_wait : (epfd : ℤ) → K → List (ℕ × ℕ) × K
  pub poll : (wakefd epfd_read epfd_write : ℤ) → K → Polled × K
  -- The reads of the wake descriptor until it is empty, and a write of 1 to it.
  pub read_all : ℤ → K → K
  pub write_one : ℤ → K → K
  -- `send` of the bytes from an offset on; `recv` gives the bytes that it received.
  pub send : (fd : ℤ) → (bytes : ℕ → ℕ) (from size : ℕ) → K → Transfer × K
  pub recv : (fd : ℤ) → (size : ℕ) → K → Transfer × (ℕ → ℕ) × K
  -- A thread is a number.
  pub pthread_create : K → ℤ × ℕ × K
  pub pthread_join : ℕ → K → ℤ × K
