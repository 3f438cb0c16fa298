-- ===== src/Socket/Buffer.antt =====
-- The byte rings of an epoll socket: `schedi_job_epollsocket_write_buffer_data` and
-- `schedi_job_epollsocket_read` of src/jobs.c, up to the calls that wake the epoll loop.
use schedi.Prelude.{
  ℕ, ◌+◌, ◌-◌, ◌%◌, ◌<◌, ◌≤◌, ◌≡◌, min, false, ◌&&◌, leb, ltb, if◌then◌else◌, arith,
}
use schedi.Prelude.Int.{ℤ, sub_ℕ}
use schedi.Atomic.{atomic}
use schedi.Socket.{buffersize, count_from, avail_from, avail_add, count_add}

abbrev pub Bytes : Type 0
Bytes = ℕ → ℕ

abbrev pub memcpy : (dst : Bytes) (to : ℕ) (src : Bytes) (from n : ℕ) → Bytes
memcpy dst to src from n = λ j. if leb to j && ltb j (to + n) then src (from + (j - to)) else dst j

-- What a write leaves in the ring: the bytes written, the ring and its head.
unfoldable pub fill : (payload : Bytes) (write_size head : ℕ) → Bytes → ℕ × Bytes × ℕ
fill payload write_size head bytes =
    let first_write = min write_size (buffersize - head) in
    let bytes' = memcpy bytes head payload 0 first_write in
    let rest_write = write_size - first_write in
    if leb buffersize (head + write_size)
    then (first_write + rest_write, memcpy bytes' 0 payload first_write rest_write, rest_write)
    else (first_write, bytes', head + first_write)

-- What a read copies out of the ring, and the new tail.
unfoldable pub drain : (payload : Bytes) (read_size tail : ℕ) → Bytes → Bytes × ℕ
drain payload read_size tail bytes =
    let fread = buffersize - tail in
    let rest_read = read_size - fread in
    if leb buffersize (read_size + tail)
    then (memcpy (memcpy payload 0 bytes tail fread) fread bytes 0 rest_read, rest_read)
    else (memcpy payload 0 bytes tail read_size, tail + read_size)

-- `struct schedi_job_epollsocket`. The owner is the index of its slot.
pub record Socket : Type 0 where
  pub job : ℕ
  pub gen : ℕ
  pub fd : ℤ
  pub htc : ℕ
  pub read_head : ℕ
  pub read_tail : ℕ
  pub read_buffer : Bytes
  pub read_count_condition : ℕ
  pub write_head : ℕ
  pub write_tail : ℕ
  pub write_buffer : Bytes
  pub write_avail_condition : ℕ
  pub fall : ℤ
  pub data_ptr : ℕ

unfoldable pub write_buffer_data : (payload : Bytes) (size : ℕ) → Socket → ℕ × Socket
unfolding fill
write_buffer_data payload size s =
    let out = fill payload (min size (avail_from s.htc)) s.write_head s.write_buffer in
    let htc = (atomic (avail_add s.write_avail_condition (sub_ℕ 0 out.0) false) s.htc).1 in
    (out.0, record s { htc = htc; write_buffer = out.1; write_head = out.2 })

unfoldable pub read : (payload : Bytes) (size : ℕ) → Socket → ℕ × Bytes × Socket
unfolding drain
read payload size s =
    let read_size = min (count_from s.htc) size in
    let out = drain payload read_size s.read_tail s.read_buffer in
    let htc = (atomic (count_add s.read_count_condition (sub_ℕ 0 read_size) false) s.htc).1 in
    (read_size, out.0, record s { htc = htc; read_tail = out.1 })

-- A write of at most 1024 bytes into the ring takes them all, puts byte k at k places after the
-- head, around the end, and moves the head past them.
pub fill_lem :
    (payload : Bytes) (n head : ℕ) (bytes : Bytes) (k : ℕ)
    → head < buffersize
    → n ≤ buffersize
    → k < n
    → let (total, bytes', head') = fill payload n head bytes in
      (total ≡ n)
      × (bytes' ((head + k) % buffersize) ≡ payload k)
      × (head' ≡ (head + n) % buffersize)
unfolding fill
fill_lem payload n head bytes k hh hn hk = (ground arith, ground arith, ground arith)

-- A read of at most 1024 bytes from the ring copies out, as byte k, the byte k places after the
-- tail, around the end, and moves the tail past them.
pub drain_lem :
    (payload : Bytes) (n tail : ℕ) (bytes : Bytes) (k : ℕ)
    → tail < buffersize
    → n ≤ buffersize
    → k < n
    → let (payload', tail') = drain payload n tail bytes in
      (payload' k ≡ bytes ((tail + k) % buffersize)) × (tail' ≡ (tail + n) % buffersize)
unfolding drain
drain_lem payload n tail bytes k ht hn hk = (ground arith, ground arith)
