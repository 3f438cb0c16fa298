-- ===== src/Meta.antt =====
-- The packed `meta_flag` word of a job (include/schedi/jobs.h, src/jobs.c): its layout, and the
-- body of each compare-and-swap loop that changes it. A word is a number below 2 ^ 32.
pub mod Flag
pub mod Flags
pub mod Marks
pub mod Counts
pub mod Access
pub mod Desired
pub mod Update
pub mod Protocol
mod Tests
use schedi.Prelude.{
  ℕ, ◌+◌, ◌-◌, ◌*◌, ◌/◌, ◌%◌, ◌^◌, bit_and, bit_or, Bool, true, false, not, ◌&&◌, ◌||◌, ◌==◌, leb,
  if◌then◌else◌,
}
use schedi.Prelude.Int.{ℤ, pos, negsuc, ◌+ℤ◌, leb_ℤ, pos_part}
use schedi.Atomic.{Attempt, quit, swap}

-- Words of 32 bits.
abbrev pub u32 : ℕ
u32 = 2 ^ 32

-- `~x` and `x << k`
abbrev pub complement : ℕ → ℕ
complement x = u32 - 1 - x

abbrev pub shl : ℕ → ℕ → ℕ
shl x k = x * 2 ^ k % u32

-- The GET and SET macros. A set value is an `unsigned` or a non-negative `int`.
abbrev pub get_avsock : ℕ → ℕ
get_avsock x = bit_and (x / 2 ^ 9) 15

abbrev pub set_avsock : ℕ → ℕ → ℕ
set_avsock x a = bit_or (shl a 9) (bit_and x (complement Flag.avsock_mask))

abbrev pub get_wait : ℕ → ℕ
get_wait x = bit_and (x / 2 ^ 13) 15

abbrev pub set_wait : ℕ → ℕ → ℕ
set_wait x a = bit_or (shl a 13) (bit_and x (complement Flag.wait_mask))

abbrev pub get_avjobs : ℕ → ℕ
get_avjobs x = bit_and (x / 2 ^ 17) 15

abbrev pub set_avjobs : ℕ → ℕ → ℕ
set_avjobs x a = bit_or (shl a 17) (bit_and x (complement Flag.avjobs_mask))

abbrev pub get_access : ℕ → ℕ
get_access x = bit_and (x / 2 ^ 28) 15

abbrev pub set_access : ℕ → ℕ → ℕ
set_access x a = bit_or (shl a 28) (bit_and x (complement Flag.access))

-- `(meta_flag & banned_flags) | ((-(int)ban_access) & (meta_flag & ACCESS))`
abbrev pub ban_of : ℕ → Bool → ℕ → ℕ
ban_of banned ban_access w =
    bit_or (bit_and w banned) (bit_and (if ban_access then u32 - 1 else 0) (bit_and w Flag.access))

pub mark_or : ℕ → ℕ → Bool → ℕ → Attempt ℕ
mark_or flag banned ban_access w =
    let ban = ban_of banned ban_access w in if ban == 0 then swap (bit_or w flag) 0 else quit ban

-- The loop also ends where `flag` is not set, and returns `ban`, which is 0 then.
pub unmark_or : ℕ → ℕ → Bool → ℕ → Attempt ℕ
unmark_or flag banned ban_access w =
    let ban = ban_of banned ban_access w in
    if (ban == 0) && not (bit_and w flag == 0)
    then swap (bit_and w (complement flag)) 0
    else quit ban

pub mark_or_default : ℕ → ℕ → Attempt ℕ
unfolding mark_or
mark_or_default flag = mark_or flag Flag.unstable false

pub mark_alive : ℕ → Attempt ℕ
unfolding mark_or
mark_alive = mark_or Flag.alive Flag.unstable false

pub mark_executing : ℕ → Attempt ℕ
unfolding mark_or
mark_executing = mark_or Flag.executing (bit_or Flag.unstable Flag.executing) false

pub unmark_executing : ℕ → Attempt ℕ
unfolding unmark_or
unmark_executing = unmark_or Flag.executing Flag.unstable false

pub mark_unstable : ℕ → Attempt ℕ
unfolding mark_or
mark_unstable = mark_or Flag.unstable (bit_or (bit_or Flag.unstable Flag.executing) Flag.ready) true

pub mark_wlldestroy : ℕ → Attempt ℕ
unfolding mark_or
mark_wlldestroy = mark_or Flag.wlldestroy Flag.unstable false

pub unmark_wlldestroy : ℕ → Attempt ℕ
unfolding unmark_or
unmark_wlldestroy = unmark_or Flag.wlldestroy Flag.unstable false

pub mark_access : ℕ → Attempt ℕ
mark_access w =
    let ban = bit_and w (bit_or Flag.unstable Flag.wlldestroy) in
    let accesses = get_access w in
    if not (ban == 0)
    then quit ban
    else if accesses == 15
    then quit (bit_and w Flag.access)
    else swap (set_access w (accesses + 1)) 0

-- `accesses -= 1` on an `unsigned int`.
pub unmark_access : ℕ → Attempt ℕ
unmark_access w =
    let ban = bit_and w Flag.unstable in
    if not (ban == 0) then quit ban else swap (set_access w ((get_access w + u32 - 1) % u32)) 0

pub mark_ready : ℕ → Attempt ℕ
unfolding mark_or
mark_ready = mark_or Flag.ready (bit_or (bit_or Flag.unstable Flag.wlldestroy) Flag.ready) false

pub unmark_ready : ℕ → Attempt ℕ
unfolding unmark_or
unmark_ready = unmark_or Flag.ready (bit_or Flag.unstable Flag.wlldestroy) false

pub unmark_readybasic : ℕ → Attempt ℕ
unfolding unmark_or
unmark_readybasic = unmark_or Flag.readybasic (bit_or Flag.unstable Flag.wlldestroy) false

abbrev pub ready_set : ℕ
ready_set =
    bit_or (bit_or (bit_or Flag.readybasic Flag.readyepolltool) Flag.readyepollsock) Flag.readyjob

unfoldable pub check_allready : ℕ → Bool
check_allready w = bit_and w ready_set == ready_set

-- What `schedi_job_meta_flag_cas_update` returns, before the conversion to `int`. The flag of
-- `done` is `!pre_ready && ready`, where the function goes on to call `schedi_job_setready`.
pub data Outcome : Type 0 where
  done : Bool → Outcome
  banned : ℕ → Outcome
  out_of_range : Outcome

abbrev pub in_range : ℤ → Bool
in_range (pos n) = leb n 15
in_range (negsuc n) = false

-- The word written for the three new counts.
unfoldable pub desired_word :
    (required_socks required_jobs : ℤ) (flag avail waiting jobcount w : ℕ) → ℕ
desired_word required_socks required_jobs flag avail waiting jobcount w =
    let counts = set_avjobs (set_wait (set_avsock w avail) waiting) jobcount in
    let derived = bit_or (bit_or Flag.readyepollsock Flag.readyepolltool) Flag.readyjob in
    let cleared = bit_and (bit_or counts flag) (complement derived) in
    let sock =
      if leb_ℤ required_socks (pos avail) then bit_or cleared Flag.readyepollsock else cleared in
    let tool = if waiting == 0 then bit_or sock Flag.readyepolltool else sock in
    if leb_ℤ required_jobs (pos jobcount) then bit_or tool Flag.readyjob else tool

-- The thresholds and the arguments of an update.
pub record Change : Type 0 where
  pub required_socks : ℤ
  pub required_jobs : ℤ
  pub sock_delta : ℤ
  pub wait_delta : ℤ
  pub jobcount_delta : ℤ
  pub flag : ℕ
  pub banned_flags : ℕ
  pub ban_access : Bool

unfoldable pub cas_update : Change → ℕ → Attempt Outcome
unfolding desired_word check_allready
cas_update c w =
    let ban = ban_of c.banned_flags c.ban_access w in
    let avail = pos (get_avsock w) +ℤ c.sock_delta in
    let waiting = pos (get_wait w) +ℤ c.wait_delta in
    let jobcount = pos (get_avjobs w) +ℤ c.jobcount_delta in
    let desired =
      desired_word c.required_socks c.required_jobs c.flag (pos_part avail) (pos_part waiting)
        (pos_part jobcount) w in
    if not (ban == 0)
    then quit (banned ban)
    else if not (in_range avail && in_range waiting && in_range jobcount)
    then quit out_of_range
    else swap desired (done (not (check_allready w) && check_allready desired))
