-- ===== src/Meta/Flag.antt =====
-- The SCHEDI_JOB_METAFLAG_* constants of include/schedi/jobs.h, as unsigned words.
use schedi.Prelude.{ℕ, ◌*◌, ◌^◌}

abbrev pub alive : ℕ
alive = 2 ^ 0

abbrev pub unstable : ℕ
unstable = 2 ^ 1

abbrev pub executing : ℕ
executing = 2 ^ 2

abbrev pub wlldestroy : ℕ
wlldestroy = 2 ^ 3

abbrev pub destroynotent : ℕ
destroynotent = 2 ^ 4

abbrev pub ready : ℕ
ready = 2 ^ 5

abbrev pub readybasic : ℕ
readybasic = 2 ^ 6

abbrev pub readyepolltool : ℕ
readyepolltool = 2 ^ 7

abbrev pub readyepollsock : ℕ
readyepollsock = 2 ^ 8

abbrev pub readyjob : ℕ
readyjob = 2 ^ 21

abbrev pub avsock_mask : ℕ
avsock_mask = 15 * 2 ^ 9

abbrev pub wait_mask : ℕ
wait_mask = 15 * 2 ^ 13

abbrev pub avjobs_mask : ℕ
avjobs_mask = 15 * 2 ^ 17

abbrev pub access : ℕ
access = 15 * 2 ^ 28
