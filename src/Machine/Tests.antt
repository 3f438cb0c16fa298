-- ===== src/Machine/Tests.antt =====
-- Runs of requests and sockets on the whole machine.
use schedi.Prelude.{
  ℕ, ◌≡◌, ◌≤◌, ◌+◌, arith, sym, refl, true, false, List, Option, none, some, [], ◌∷◌, replicate,
}
use schedi.Prelude.Int.{ℤ, pos, negsuc}
use schedi.Meta.Flags.{flags}
use schedi.Queue
use schedi.Socket.Buffer.{Socket, write_buffer_data}
use schedi.Socket.Transfer.{write}
use mathlib.Core.Path.{subst}
use schedi.Jobs.{Job, System, suspended, modify}
use schedi.Machine.{count_return}
use schedi.Machine.Settled.{request_return-waits}
use schedi.Kernel.Sample.{Sample, idle, sample}
use schedi.Epoll.{Epoll, close_fds, thread_init, thread_deinit}
use schedi.Machine.{Request, Machine, request_return, tool_epoll, bump}
use schedi.Machine.Sockets.{done_with}
use schedi.Machine.Loop.{Stops, epoll_loop, handle_read, handle_write}
use schedi.Machine.Returned.{wordless, accessible, tool_epoll-full}
use schedi.Socket.Timeout.{untimeout}
use schedi.Machine.Sockets.{push_epoll}
use schedi.Epoll.{epoll_add}
use schedi.Socket.Timed.{initial_timed}
use schedi.Machine.Created.{opened_timed, timer_created, tool_epollsocket_timed}
use schedi.Machine.Timers.{
  Timers, epollagain, epollisize_timed, timer_pushed, timer_push_epoll, rearmed, registered_again,
}
use schedi.Machine.Life.{done-done, epoll_loop-restarted}

-- Every job is idle, of generation 3, and waits for 15 requests or counts 15 READY sockets.
abbrev job_with : ℕ → Job
job_with w = record {
  phase = 0;
  gen = 3;
  state = suspended;
  meta_flag = w;
  total_req = 15;
  ret_count = 0;
  err_count = 0;
  required_available_sockets = pos 0;
  requested_job = none;
  requested_job_gen = 0;
  required_available_jobs = pos 0;
  completion_indicator = none;
  run = 1;
  context = 2;
  dtor = none;
}

abbrev system_with : ℕ → System
system_with w = record {
  jobs = λ i. job_with w;
  empty_sections = [];
  warn = false;
  cache = record { slots = replicate 256 none; counter = 0; job_count = 0; full = false };
  dq = Queue.empty;
}

abbrev epoll : Epoll
epoll = record {
  epfd_read = pos 3;
  epfd_write = pos 4;
  epoll_wakefd = pos 5;
  epoll_thread = 9;
  epoll_thread_running = true;
  epoll_stop = false;
}

abbrev socket : Socket
socket = record {
  job = 5;
  gen = 3;
  fd = pos 7;
  htc = 0x2000008000000000;
  read_head = 0;
  read_tail = 0;
  read_buffer = λ j. 0;
  read_count_condition = 10;
  write_head = 0;
  write_tail = 0;
  write_buffer = λ j. 0;
  write_avail_condition = 1024;
  fall = pos 2;
  data_ptr = 64;
}

abbrev waiting_word : ℕ
waiting_word = 0x21e101

abbrev machine_with : Epoll → Machine Sample
machine_with ep = record {
  host = record { system = system_with waiting_word; epoll = ep; kernel = idle };
  requests = λ p. record { socketfd = pos 7; owner = 5; job_gen = 2; list = 5 };
  data_at = λ p. record { type = 1; ptr = 128 };
  sockets = λ p. socket;
}

can_access : accessible (flags waiting_word) ≡ true
unfolding flags
can_access = refl

all_waiting : (flags waiting_word).wait ≡ 15
unfolding flags
all_waiting = refl

abbrev stale : Request
stale = record { socketfd = pos 7; owner = 5; job_gen = 2; list = 5 }

tool_epoll-full_example :
    let (r, m') = tool_epoll 0 sample 5 (pos 7) 1 (machine_with epoll) in
    (r ≡ negsuc 3)
    × (m'.host.kernel ≡ record idle { address = 128 })
    × ((m'.host.system.jobs 5).meta_flag ≡ waiting_word)
    × ((m'.host.system.jobs 5).total_req ≡ bump 15)
tool_epoll-full_example =
    tool_epoll-full 0 sample 5 (pos 7) 1 64 (machine_with epoll) refl all_waiting

-- The epoll side is done with the socket at 640 first.
done-done_example :
    let (r, m') = done_with 0 sample 1 640 (machine_with epoll) in
    let (r', m'') = done_with 0 sample 0 640 m' in
    (r ≡ negsuc 0) × (m'.host.kernel ≡ idle) × (r' ≡ pos 0) × (m''.host.kernel ≡ idle)
done-done_example = done-done 0 sample 1 0 640 (machine_with epoll) refl

abbrev restarted : Epoll
restarted =
    let (ret, ep', k') = thread_deinit sample (close_fds sample) epoll idle in
    (thread_init sample ep' k').1

epoll_loop-restarted_example :
    epoll_loop 0 [] sample 4 [] (machine_with restarted) ≡ some (pos 0, machine_with restarted)
epoll_loop-restarted_example =
    epoll_loop-restarted 0 sample epoll idle [] 4 [] (machine_with restarted) refl refl

-- 15 sockets are READY.
abbrev full_word : ℕ
full_word = 0x201fc1

full_access : accessible (flags full_word) ≡ true
unfolding flags
full_access = refl

all_counted : (flags full_word).avsock ≡ 15
unfolding flags
all_counted = refl

-- A write of 20 bytes sends 8 and buffers 12.
wrote : (write 0 sample (λ j. j) 20 socket (machine_with epoll).host).0 ≡ pos 20
unfolding write write_buffer_data
wrote = refl

-- An event of a request that is stale ends it.
handled_read : handle_read 0 [] sample (1, 0) (machine_with epoll) ≡ some (machine_with epoll)
unfolding handle_read
handled_read = refl

handled_write : handle_write 0 [] sample (4, 0) (machine_with epoll) ≡ some (machine_with epoll)
unfolding handle_write
handled_write = refl

-- The loop serves one round and then sees the stop flag.
abbrev two_rounds : List Stops
two_rounds = record { first = false; polled = false } ∷ record { first = false; polled = true } ∷ []

served :
    (r : ℤ × Machine Sample) × (epoll_loop 0 [] sample 4 two_rounds (machine_with epoll) ≡ some r)
unfolding epoll_loop
served = (_, refl)

abbrev current : Request
current = record { socketfd = pos 7; owner = 5; job_gen = 3; list = 5 }

request_return-waits_example :
    (s' : System) × (request_return 0 [] current false (system_with waiting_word)
      ≡ some (pos 0, s'))
    × (let f = flags waiting_word in
        let f' = flags (s'.jobs 5).meta_flag in
        (f'.wait + 1 ≡ f.wait) × (f'.access ≡ f.access) × (f'.ready ≡ f.ready))
    × ((j : ℕ)
        → wordless (s'.jobs j)
          ≡ wordless ((modify (count_return false) 5 (system_with waiting_word)).jobs j))
request_return-waits_example =
    request_return-waits 0 [] current false (system_with waiting_word) can_access refl
      (subst (λ (n : ℕ). 2 ≤ n) (sym all_waiting) (omega arith))

-- Each socket has a timer of its own, which can be set.
abbrev sample_timers : Timers Sample
sample_timers = record {
  timeout_sec = λ p. 30;
  to_timer_fd = λ p. pos 9;
  timerfd_settime = λ fd sec k. (pos 0, k);
}

-- The job alone holds the sockets, which have timed out.
abbrev held_by_job : Machine Sample
held_by_job =
    let m = machine_with epoll in
    record m { sockets = λ p. record socket { fall = pos 1; htc = 0x4600004000000000 } }

abbrev code_of : Option (ℤ × Machine Sample) → ℤ
code_of none = negsuc 9
code_of (some (r, m)) = r

-- It goes back to the epoll loop.
again : code_of (epollagain 0 sample sample_timers 128 held_by_job) ≡ pos 0
unfolding epollagain epollisize_timed timer_pushed timer_push_epoll rearmed registered_again
    untimeout push_epoll epoll_add
again = refl

abbrev socket_of : Option (Option ℕ × (Timers Sample × Machine Sample)) → Option ℕ
socket_of none = none
socket_of (some (p, x)) = p

-- Without a timer there is no socket.
no_timer :
    socket_of (
      tool_epollsocket_timed 0 sample
        (λ k. (negsuc 0, k))
        sample_timers
        5
        (pos 7)
        10
        1024
        30
        (machine_with epoll))
    ≡ none
unfolding tool_epollsocket_timed timer_created initial_timed
no_timer = refl

has_timer :
    (elim (socket_of (
      tool_epollsocket_timed 0 sample
        (λ k. (pos 9, k))
        sample_timers
        5
        (pos 7)
        10
        1024
        30
        (machine_with epoll))) [ none ↦ false | some p ↦ true ])
    ≡ true
unfolding tool_epollsocket_timed timer_created opened_timed epollisize_timed timer_pushed
    timer_push_epoll rearmed push_epoll epoll_add initial_timed
has_timer = refl
