-- ===== src/Jobs/Tests.antt =====
-- Runs of the life of a job.
use schedi.Prelude.{
  ℕ, ◌+◌, ◌*◌, ◌≡◌, ◌≢◌, refl, true, false, none, some, [], ◌∷◌, replicate, arith, ltb, bit_or,
  ◌==◌,
}
use schedi.Prelude.Int.{pos}
use schedi.Meta.Flag
use schedi.Meta.{cas_update, desired_word, check_allready}
use schedi.Meta.Flags.{flags}
use schedi.Sections.{init, maximum_jobs}
use schedi.Sections.Count.{init-free}
use schedi.Queue.{empty, dq_push}
use schedi.Queue.Fifo.{IsQueue, empty-IsQueue, dq_push-append}
use schedi.Cache.{Cache}
use schedi.Cache.Slots.{occupied}
use schedi.Cache.Inv.{IsCache}
use schedi.Jobs.{
  destroy_queue_check, Job, System, suspended, create, setready, pickready, destroy_now, destroy,
}
use schedi.Jobs.Create.{Creates, create_lem}
use schedi.Jobs.Destroy.{is_idle, Destroys, destroy_now_lem}
use schedi.Jobs.Check.{Quiet, torn, Absent, Gone, destroy_queue_check-Gone}
use schedi.Jobs.End.{destroy-then-check}
use schedi.Jobs.Ready.{markable, Readies, setready_lem}
use schedi.Jobs.Pick.{pickready_ends}
use schedi.Meta.Update.{all_ready, fits, updated}
use schedi.Jobs.Tools.{
  mark_or_readiness, update_job, finish_update, required_available_socket, required_available_jobs,
  mark_readybasic, tool_job,
}
use schedi.Jobs.Complete.{one_more}

abbrev address : ℕ → ℕ
address job = 0x404000 + 96 * job

-- A destructor that leaves the data alone.
abbrev call : ℕ → ℕ → System → System
call dtor context s = s

abbrev job_with : ℕ → Job
job_with w = record {
  phase = 0;
  gen = 0;
  state = suspended;
  meta_flag = w;
  total_req = 0;
  ret_count = 0;
  err_count = 0;
  required_available_sockets = pos 0;
  requested_job = none;
  requested_job_gen = 0;
  required_available_jobs = pos 0;
  completion_indicator = none;
  run = 1;
  context = 2;
  dtor = some 3;
}

abbrev idle_word : ℕ
idle_word =
    bit_or (bit_or (bit_or Flag.alive Flag.readyepollsock) Flag.readyepolltool) Flag.readyjob

-- Every slot holds an idle job, or one that is executing.
abbrev cache : Cache
cache = record { slots = replicate 256 none; counter = 0; job_count = 0; full = false }

cache-IsCache : IsCache cache
cache-IsCache = record {
  size = refl;
  count = refl;
  peak = omega arith;
  peak_in = omega arith;
  beyond = tt;
}

abbrev all_with : ℕ → System
all_with w = record {
  jobs = λ i. job_with w;
  empty_sections = init;
  warn = false;
  cache = cache;
  dq = empty;
}

abbrev executing_word : ℕ
executing_word = bit_or idle_word Flag.executing

create_lem_example : Creates 2 1 (some 3) (all_with 0) (create 2 1 (some 3) (all_with 0))
create_lem_example = create_lem 2 1 (some 3) (all_with 0) (init-free 0).1

destroy_now_lem_example :
    Destroys address call
      (is_idle (flags idle_word))
      5
      (all_with idle_word)
      (destroy_now address call 5 (all_with idle_word))
destroy_now_lem_example = destroy_now_lem address call 5 (all_with idle_word)

stays : (flags executing_word).unstable ≡ false
unfolding flags
stays = refl

busy : (flags executing_word).executing ≡ true
unfolding flags
busy = refl

idle : is_idle (flags idle_word) ≡ true
unfolding flags
idle = refl

setready_lem_example :
    Readies
      (markable (flags idle_word))
      (ltb (occupied cache.slots) maximum_jobs)
      5
      (all_with idle_word)
      (setready 0 5 (all_with idle_word))
setready_lem_example = setready_lem 5 (all_with idle_word) cache-IsCache

pickready_ends_example : (pickready 1 (all_with idle_word)).0 ≢ none
pickready_ends_example = pickready_ends 1 (all_with idle_word) cache-IsCache (omega arith)

-- A job that waits for one other job.
abbrev waiting_word : ℕ
waiting_word = 0x1c1

abbrev waiting : System
waiting = record (all_with waiting_word) {
  jobs = λ i. record (job_with waiting_word) { required_available_jobs = pos 1 };
}

in_range : fits (one_more (waiting.jobs 5)) (flags waiting_word) ≡ true
unfolding flags
in_range = refl

not_before : all_ready (flags waiting_word) ≡ false
unfolding flags
not_before = refl

then_ready : all_ready (updated (one_more (waiting.jobs 5)) (flags waiting_word)) ≡ true
unfolding flags
then_ready = refl

-- The thresholds and the request of a job.
stays_put :
    ((required_available_socket 0 5 (pos 2) waiting).jobs 5).required_available_sockets ≡ pos 2
unfolding required_available_socket update_job finish_update cas_update desired_word check_allready
stays_put = refl

raised : ((required_available_jobs 0 5 (pos 2) waiting).jobs 5).required_available_jobs ≡ pos 2
unfolding required_available_jobs update_job finish_update cas_update desired_word check_allready
raised = refl

banned_mark : (mark_readybasic 0 5 (all_with 2)).0 ≡ 2
unfolding mark_readybasic mark_or_readiness update_job finish_update cas_update
banned_mark = refl

requested : ((tool_job 4 5 waiting).jobs 5).requested_job ≡ some 4
unfolding tool_job
requested = refl

quiet : Quiet call
quiet = record { jobs = λ dtor context s. refl; dq = λ dtor context s. refl }

destroy-then-check_example :
    let s' = destroy_queue_check address call (destroy address call 5 (all_with idle_word)).1 in
    (s'.jobs 5 ≡ torn (job_with idle_word))
    × IsQueue s'.dq [] 0
    × ((k : ℕ) → (5 == k) ≡ false → s'.jobs k ≡ job_with idle_word)
destroy-then-check_example =
    destroy-then-check address call 5 (all_with idle_word) quiet idle empty-IsQueue

-- A job that is marked UNSTABLE waits in the destroy queue.
abbrev unstable_word : ℕ
unstable_word = bit_or idle_word Flag.unstable

abbrev queued_one : System
queued_one = record (all_with unstable_word) { dq = (dq_push address 5 empty).1 }

one-IsQueue : IsQueue queued_one.dq (5 ∷ []) 0
one-IsQueue = (dq_push-append address 5 empty-IsQueue (omega arith)).1

doomed : is_idle (flags unstable_word) ≡ false
unfolding flags
doomed = refl

destroy_queue_check-Gone_example :
    let s' = destroy_queue_check address call queued_one in
    IsQueue s'.dq [] 0
    × Gone queued_one s' (5 ∷ [])
    × ((k : ℕ) → Absent k (5 ∷ []) → s'.jobs k ≡ queued_one.jobs k)
destroy_queue_check-Gone_example =
    destroy_queue_check-Gone address call quiet (5 ∷ []) queued_one one-IsQueue (omega arith)
      (doomed, tt, tt)

free_to_ready : markable (flags idle_word) ≡ true
unfolding flags
free_to_ready = refl

few_accesses : ((flags idle_word).access == 15) ≡ false
unfolding flags
few_accesses = refl
