-- ===== src/Meta/Tests.antt =====
-- Runs of the operations on `meta_flag`.
use schedi.Prelude.{ℕ, ◌≡◌, refl, true, false, ◌==◌, arith, bit_or}
use schedi.Prelude.Int.{pos, negsuc}
use schedi.Atomic.{atomic}
use schedi.Meta.Flag
use schedi.Meta.Flags.{flags}
use schedi.Meta.{unmark_executing, mark_unstable, Change, cas_update, ban_of, done}
use schedi.Meta.Update.{fits, Updates, cas_update_lem}
use schedi.Meta.Protocol.{
  Reach, here, next, claim, create, mark, unstable, executing, not_executing, operation, created,
  unstable_alone,
}

-- The word of a job that waits for one request, with READYBASIC set.
abbrev waiting : ℕ
waiting = 0x202141

-- The last request comes back.
abbrev answered : Change
answered = record {
  required_socks = pos 0;
  required_jobs = pos 0;
  sock_delta = pos 0;
  wait_delta = negsuc 0;
  jobcount_delta = pos 0;
  flag = 0;
  banned_flags = 0;
  ban_access = false;
}

completes : atomic (cas_update answered) waiting ≡ (done true, 0x2001c1)
unfolding cas_update
completes = refl

cas_update_lem_example :
    Updates answered waiting
      (ban_of 0 false waiting == 0)
      (fits answered (flags waiting))
      (atomic (cas_update answered) waiting)
cas_update_lem_example = cas_update_lem answered waiting (omega arith)

-- A job is created, executed and left, and an editor takes it.
abbrev taken : ℕ
taken = bit_or created Flag.unstable

history : Reach 0 taken
unfolding operation unmark_executing mark_unstable
history =
    next
      (next (next (next (next here (claim 0)) (create Flag.unstable)) (mark executing created))
        (mark not_executing (bit_or created Flag.executing)))
      (mark unstable created)

editing : (flags taken).unstable ≡ true
unfolding flags
editing = refl

unstable_alone_example :
    let f = flags taken in (f.executing ≡ false) × (f.ready ≡ false) × (f.access ≡ 0)
unstable_alone_example = unstable_alone history editing
