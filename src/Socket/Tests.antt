-- ===== src/Socket/Tests.antt =====
-- Runs of the packed word of an epoll socket.
use schedi.Prelude.{
  ◌<◌, min, none, [], replicate, ℕ, ◌+◌, ◌*◌, ◌^◌, ◌≡◌, refl, ap, true, false, arith,
}
use schedi.Prelude.Int.{pos, negsuc, ◌+ℤ◌}
use schedi.Queue.{Queue}
use schedi.Queue
use schedi.Jobs.{Job, suspended}
use schedi.Kernel.Sample.{Sample, idle, sample, sample-Sends, sample-Receives}
use schedi.Socket.Transfer.{Host, write, write_return, read_return}
use schedi.Socket.Rings.{
  IsReading, IsWriting, Appends, Drops, arrived, waiting, to_read, to_send, read-Drops,
  write_buffer_data-Appends,
}
use schedi.Socket.Writing.{Writes, write-Writes}
use schedi.Socket.Sending.{Hands, write_return-Hands}
use schedi.Socket.Receiving.{Fetches, read_return-Fetches}
use schedi.Socket.Bytewise.{put_each, fill-eq-put_each}
use schedi.Atomic.{atomic}
use schedi.Socket.{mark_dead, done_cas_jobside, initial, epollnt, ready, dead}
use schedi.Socket.{complete, done_cas_epollside}
use schedi.Socket.Timeout.{timeout_cas, untimeout, timed, untimeout-timed_out}
use schedi.Socket.Fields.{fields}
use schedi.Socket.{avail_add, count_add}
use schedi.Socket.Timed.{avail_add_timed, count_add_timed}
use schedi.Socket.Timed.Builds.{Agrees, adds-Agrees}
use schedi.Socket.Buffer.{Bytes, Socket, fill, read, write_buffer_data}

-- A new socket that waits for 10 bytes to read and 1024 bytes of room.
abbrev fresh : ℕ
fresh = 1024 * 2 ^ 29 + 2 ^ 61

fresh-initial : initial 10 1024 ≡ fresh
unfolding initial
fresh-initial = refl

space : (pos (fields fresh).avail) ≡ pos 1024
unfolding fields
space = refl

empty : (pos (fields fresh).count) ≡ pos 0
unfolding fields
empty = refl

-- A socket that dies after the job is done with it is READY while EPOLLNT is set.
dead_after_done :
    (atomic mark_dead (atomic done_cas_jobside fresh).1).1 ≡ fresh + epollnt + ready + dead
unfolding mark_dead done_cas_jobside
dead_after_done = refl

-- Byte k of the caller is 100 + k.
abbrev payload : Bytes
payload k = 100 + k

abbrev socket : Socket
socket = record {
  job = 5;
  gen = 0;
  fd = pos 7;
  htc = fresh + 3;
  read_head = 3;
  read_tail = 0;
  read_buffer = payload;
  read_count_condition = 10;
  write_head = 0;
  write_tail = 0;
  write_buffer = λ j. 0;
  write_avail_condition = 1024;
  fall = pos 2;
  data_ptr = 64;
}

-- The job of the socket, and the rest of the process.
abbrev owner : Job
owner = record {
  phase = 0;
  gen = 0;
  state = suspended;
  meta_flag = 0x1c1;
  total_req = 0;
  ret_count = 0;
  err_count = 0;
  required_available_sockets = pos 1;
  requested_job = none;
  requested_job_gen = 0;
  required_available_jobs = pos 0;
  completion_indicator = none;
  run = 1;
  context = 2;
  dtor = none;
}

abbrev host : Host Sample
host = record {
  system = record {
    jobs = λ i. owner;
    empty_sections = [];
    warn = false;
    cache = record { slots = replicate 256 none; counter = 0; job_count = 0; full = false };
    dq = Queue.empty;
  };
  epoll = record {
    epfd_read = pos 3;
    epfd_write = pos 4;
    epoll_wakefd = pos 5;
    epoll_thread = 9;
    epoll_thread_running = true;
    epoll_stop = false;
  };
  kernel = idle;
}

-- Of 3 bytes in the read buffer a read of 8 gets 3; a write of 2000 fills the write buffer.
got : (read (λ j. 0) 8 socket).0 ≡ 3
unfolding read
got = refl

put : (write_buffer_data payload 2000 socket).0 ≡ 1024
unfolding write_buffer_data
put = refl

-- 3 bytes wait to be read, and none to be sent.
three : (fields socket.htc).count ≡ 3
unfolding fields
three = refl

all_room : (fields socket.htc).avail ≡ 1024
unfolding fields
all_room = refl

socket-IsReading : IsReading socket
socket-IsReading = record {
  head_in = omega arith;
  tail_in = omega arith;
  count_in = omega (arith, three);
  meets_head = omega (arith, three);
}

socket-IsWriting : IsWriting socket
socket-IsWriting = (
  record {
    head_in = omega arith;
    tail_in = omega arith;
    count_in = omega (arith, all_room);
    meets_head = omega (arith, all_room);
  },
  omega (arith, all_room),
)

read-Drops_example :
    let (n, payload', sock') = read (λ j. 0) 8 socket in
    (n ≡ min (arrived socket) 8)
    × IsReading sock'
    × ((k : ℕ) → k < n → payload' k ≡ to_read socket k)
    × Drops (arrived socket) (arrived sock') n (to_read socket) (to_read sock')
read-Drops_example = read-Drops (λ j. 0) 8 socket socket-IsReading

write_buffer_data-Appends_example :
    let (total, sock') = write_buffer_data payload 2000 socket in
    (total ≡ min 2000 (fields socket.htc).avail)
    × IsWriting sock'
    × Appends (waiting socket) (waiting sock') total (to_send socket) (to_send sock') payload
write_buffer_data-Appends_example = write_buffer_data-Appends payload 2000 socket socket-IsWriting

-- The ring with 20 bytes that go around its end, for the kernel.
abbrev sending : Socket
sending = record socket {
  htc = 1004 * 2 ^ 29;
  write_head = 10;
  write_tail = 1014;
  write_buffer = payload;
}

room_left : (fields sending.htc).avail ≡ 1004
unfolding fields
room_left = refl

sending-IsWriting : IsWriting sending
sending-IsWriting = (
  record {
    head_in = omega arith;
    tail_in = omega arith;
    count_in = omega (arith, room_left);
    meets_head = omega (arith, room_left);
  },
  omega (arith, room_left),
)

write_return-Hands_example :
    Hands 0 sample sample-Sends sending idle (write_return 0 sample sending host)
write_return-Hands_example = write_return-Hands 0 sample sample-Sends sending host sending-IsWriting

read_return-Fetches_example :
    Fetches 0 sample socket sample-Receives idle (read_return 0 sample socket host)
read_return-Fetches_example =
    read_return-Fetches 0 sample socket sample-Receives host socket-IsReading

fill-eq-put_each_example : (fill payload 10 1020 (λ j. 0)).1 2 ≡ put_each payload 10 1020 (λ j. 0) 2
fill-eq-put_each_example = fill-eq-put_each payload 10 1020 (λ j. 0) 2 (omega arith) (omega arith)

sixth : put_each payload 10 1020 (λ j. 0) 2 ≡ 106
unfolding put_each
sixth = refl

-- A write of 20 bytes: 8 go at once, 12 into the ring.
write-Writes_example :
    Writes 0 sample sample-Sends idle payload 20 socket (write 0 sample payload 20 socket host)
write-Writes_example = write-Writes 0 sample sample-Sends payload 20 socket host socket-IsWriting

-- A socket with 7 bytes to read and all room to write, which waits for more to read.
abbrev waiting_timed : ℕ
waiting_timed = 0x2000004000000007

timed_fresh : (timed waiting_timed).timeout ≡ false
unfolding timed
timed_fresh = refl

timed_open : (timed waiting_timed).epolldid ≡ false
unfolding timed
timed_open = refl

timed_consistent :
    let f = timed waiting_timed in
    f.ready ≡ complete false f.epollnt f.read_ready f.write_ready f.dead
unfolding timed
timed_consistent = refl

untimeout-timed_out_example :
    let timed_out = (atomic timeout_cas waiting_timed).1 in
    let out = atomic untimeout (atomic done_cas_epollside timed_out).1 in
    (out.0 ≡ true) × (timed out.1 ≡ timed waiting_timed)
untimeout-timed_out_example =
    untimeout-timed_out waiting_timed timed_fresh timed_open timed_consistent

-- A new socket in the two builds: nothing to read, room for 1024 bytes.
builds_agree : Agrees (1024 * 2 ^ 29) (1024 * 2 ^ 28)
unfolding fields timed
builds_agree = (refl, refl)

room : (fields (1024 * 2 ^ 29)).avail ≡ 1024
unfolding fields
room = refl

unread : (fields (1024 * 2 ^ 29)).count ≡ 0
unfolding fields
unread = refl

adds-Agrees_example :
    Agrees
      (atomic (avail_add 5 (negsuc 99) true) (1024 * 2 ^ 29)).1
      (atomic (avail_add_timed 5 (negsuc 99) true) (1024 * 2 ^ 28)).1
    × Agrees
        (atomic (count_add 5 (pos 7) true) (1024 * 2 ^ 29)).1
        (atomic (count_add_timed 5 (pos 7) true) (1024 * 2 ^ 28)).1
adds-Agrees_example =
    adds-Agrees 5 (negsuc 99) (pos 7) true (1024 * 2 ^ 29) (1024 * 2 ^ 28) 924 7 builds_agree
      (ap (λ (a : ℕ). pos a +ℤ negsuc 99) room) (omega arith)
      (ap (λ (a : ℕ). pos a +ℤ pos 7) unread) (omega arith)

-- A socket that timed out stays as it is.
stopped : (atomic (avail_add_timed 5 (pos 3) true) (2 ^ 57)).1 ≡ 2 ^ 57
unfolding avail_add_timed
stopped = refl

stopped_count : (atomic (count_add_timed 5 (pos 3) true) (2 ^ 57)).1 ≡ 2 ^ 57
unfolding count_add_timed
stopped_count = refl
