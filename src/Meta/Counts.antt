-- ===== src/Meta/Counts.antt =====
-- What the SET macros of include/schedi/jobs.h change: one 4-bit count, and nothing else.
use schedi.Prelude.{ℕ, ◌%◌, ◌/◌, ◌^◌, ◌≤◌, ◌≡◌, ◌∙◌, ap₂, false, bit_and, bit_or, arith}
use schedi.Prelude.Bits.{bit, field, zero-bit_or, bit_or-zero, bit_and-zero, bit_and_low}
use mathlib.Core.Bool.{or-false, or-true, and-true, and-false}
use schedi.Meta.Flag
use schedi.Meta.Flags.{Flags, flags, either, both, flags-bit_or, flags-bit_and}
use schedi.Meta.{
  shl, complement, get_access, set_access, get_avsock, set_avsock, get_wait, set_wait, get_avjobs,
  set_avjobs,
}

-- A word with all flags clear and the given counts.
record Lone (v avsock wait avjobs access : ℕ) : Type 0 where
  low : v % 2 ^ 9 ≡ 0
  socks : field 9 4 v ≡ avsock
  waits : field 13 4 v ≡ wait
  jobs : field 17 4 v ≡ avjobs
  job : field 21 1 v ≡ 0
  accesses : field 28 4 v ≡ access

abbrev counts : ℕ → ℕ → ℕ → ℕ → Flags
counts avsock wait avjobs access = record {
  alive = false;
  unstable = false;
  executing = false;
  wlldestroy = false;
  destroynotent = false;
  ready = false;
  readybasic = false;
  readyepolltool = false;
  readyepollsock = false;
  readyjob = false;
  avsock = avsock;
  wait = wait;
  avjobs = avjobs;
  access = access;
}

no_bit : (k w : ℕ) → field k 1 w ≡ 0 → bit k w ≡ false
no_bit k w e = ground arith

flags-Lone : {v a b c d : ℕ} → Lone v a b c d → flags v ≡ counts a b c d
unfolding flags
flags-Lone {v} l = λ i. record {
  alive = no_bit 0 v (omega arith) i;
  unstable = no_bit 1 v (omega arith) i;
  executing = no_bit 2 v (omega arith) i;
  wlldestroy = no_bit 3 v (omega arith) i;
  destroynotent = no_bit 4 v (omega arith) i;
  ready = no_bit 5 v (omega arith) i;
  readybasic = no_bit 6 v (omega arith) i;
  readyepolltool = no_bit 7 v (omega arith) i;
  readyepollsock = no_bit 8 v (omega arith) i;
  readyjob = no_bit 21 v l.job i;
  avsock = l.socks i;
  wait = l.waits i;
  avjobs = l.jobs i;
  access = l.accesses i;
}

pub low_four : (x : ℕ) → bit_and (x % 2 ^ 4) 15 ≡ x % 2 ^ 4
low_four x = bit_and_low 4 (x % 2 ^ 4) ∙ omega arith

pub ruleset masks =
    (zero-bit_or, bit_or-zero, bit_and-zero, or-false, or-true, and-true, and-false, low_four)

-- `v | (w & mask)`, where `v` has counts only.
set_count :
    {v : ℕ} (w mask a b c d : ℕ)
    → Lone v a b c d
    → flags (bit_or v (bit_and w mask)) ≡ either (counts a b c d) (both (flags w) (flags mask))
set_count {v} w mask a b c d l =
    flags-bit_or v (bit_and w mask) ∙ ap₂ either (flags-Lone l) (flags-bit_and w mask)

module _ (w a : ℕ) (small : a ≤ 15) where
  pub flags-set_access : flags (set_access w a) ≡ record (flags w) { access = a }
  unfolding flags
  flags-set_access =
      set_count {v = shl a 28} w (complement Flag.access) 0 0 0 a (omega arith) ∙ simp masks

  pub flags-set_avsock : flags (set_avsock w a) ≡ record (flags w) { avsock = a }
  unfolding flags
  flags-set_avsock =
      set_count {v = shl a 9} w (complement Flag.avsock_mask) a 0 0 0 (omega arith) ∙ simp masks

  pub flags-set_wait : flags (set_wait w a) ≡ record (flags w) { wait = a }
  unfolding flags
  flags-set_wait =
      set_count {v = shl a 13} w (complement Flag.wait_mask) 0 a 0 0 (omega arith) ∙ simp masks

  pub flags-set_avjobs : flags (set_avjobs w a) ≡ record (flags w) { avjobs = a }
  unfolding flags
  flags-set_avjobs =
      set_count {v = shl a 17} w (complement Flag.avjobs_mask) 0 0 a 0 (omega arith) ∙ simp masks

-- The GET macros read the fields.
pub get_counts :
    (w : ℕ)
    → let f = flags w in
      (get_access w ≡ f.access)
      × (get_avsock w ≡ f.avsock)
      × (get_wait w ≡ f.wait)
      × (get_avjobs w ≡ f.avjobs)
unfolding flags
get_counts w = (
  bit_and_low 4 (w / 2 ^ 28),
  bit_and_low 4 (w / 2 ^ 9),
  bit_and_low 4 (w / 2 ^ 13),
  bit_and_low 4 (w / 2 ^ 17),
)
