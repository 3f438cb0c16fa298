-- ===== src/Socket/Rings.antt =====
-- The two rings of an epoll socket (src/jobs.c) as queues of bytes: what their indices and the
-- packed word say together.
use schedi.Prelude.{ℕ, ◌+◌, ◌-◌, ◌%◌, ◌<◌, ◌≤◌, ◌≡◌, sym, ◌∙◌, ap, false, min, arith}
use schedi.Prelude.Int.{pos, sub_ℕ, ◌+ℤ◌}
use mathlib.Core.Path.{subst}
use schedi.Atomic.{atomic}
use schedi.Socket.{buffersize, avail_from, count_from, avail_add, count_add}
use schedi.Socket.Fields.{Fields, fields}
use schedi.Socket.Avail.{avail_add_lem, avail_from-field}
use schedi.Socket.Count.{count_add_lem, count_from-field}
use schedi.Socket.Buffer.{Bytes, fill, drain, Socket, write_buffer_data, read}

-- The bytes that wait to be sent, and their number.
abbrev pub waiting : Socket → ℕ
waiting sock = buffersize - (fields sock.htc).avail

abbrev pub to_send : Socket → ℕ → ℕ
to_send sock k = sock.write_buffer ((sock.write_tail + k) % buffersize)

-- The bytes that wait to be read.
abbrev pub arrived : Socket → ℕ
arrived sock = (fields sock.htc).count

abbrev pub to_read : Socket → ℕ → ℕ
to_read sock k = sock.read_buffer ((sock.read_tail + k) % buffersize)

pub record IsRing (head tail count : ℕ) : Type 0 where
  pub head_in : head < buffersize
  pub tail_in : tail < buffersize
  pub count_in : count ≤ buffersize
  pub meets_head : head ≡ (tail + count) % buffersize

-- The write ring also has room and bytes add up to its size.
abbrev pub IsWriting : Socket → Type 0
IsWriting sock =
    IsRing sock.write_head sock.write_tail (waiting sock) × ((fields sock.htc).avail ≤ buffersize)

abbrev pub IsReading : Socket → Type 0
IsReading sock = IsRing sock.read_head sock.read_tail (arrived sock)

-- A queue of `count'` bytes is one of `count` bytes with n bytes of a payload behind it.
abbrev pub Appends : (count count' n : ℕ) (bytes bytes' payload : Bytes) → Type 0
Appends count count' n bytes bytes' payload =
    (count' ≡ count + n)
    × ((k : ℕ) → k < count → bytes' k ≡ bytes k)
    × ((k : ℕ) → k < n → bytes' (count + k) ≡ payload k)

-- It is one of `count` bytes with n bytes taken off its front.
abbrev pub Drops : (count count' n : ℕ) (bytes bytes' : Bytes) → Type 0
Drops count count' n bytes bytes' =
    (count ≡ n + count') × ((k : ℕ) → k < count' → bytes' k ≡ bytes (n + k))

-- A write into the ring keeps the bytes that wait in it, and puts the new ones behind them.
pub fill-Appends :
    (payload : Bytes) (n head tail count : ℕ) (bytes : Bytes)
    → IsRing head tail count
    → count + n ≤ buffersize
    → let (total, bytes', head') = fill payload n head bytes in
      (total ≡ n)
      × IsRing head' tail (count + n)
      × ((k : ℕ) → k < count → bytes' ((tail + k) % buffersize) ≡ bytes ((tail + k) % buffersize))
      × ((k : ℕ) → k < n → bytes' ((tail + (count + k)) % buffersize) ≡ payload k)
unfolding fill
fill-Appends payload n head tail count bytes ring room =
    let a = ring.head_in in
    let b = ring.tail_in in
    let c = ring.count_in in
    let d = ring.meets_head in
    (
      ground arith,
      record { head_in = ground arith; tail_in = b; count_in = room; meets_head = ground arith },
      λ k h. ground arith,
      λ k h. ground arith,
    )

-- The room after a write, and the count after a read.
taken : (a n : ℕ) → n ≤ a → (pos a +ℤ sub_ℕ 0 n) ≡ pos (a - n)
taken a n h = ground arith

avail-write :
    (sock : Socket) (n : ℕ)
    → n ≤ (fields sock.htc).avail
    → (fields sock.htc).avail ≤ buffersize
    → (fields (atomic (avail_add sock.write_avail_condition (sub_ℕ 0 n) false) sock.htc).1).avail
      ≡ (fields sock.htc).avail - n
avail-write sock n h b =
    ap (λ (f : Fields). f.avail)
      (avail_add_lem sock.write_avail_condition (sub_ℕ 0 n) false sock.htc
        ((fields sock.htc).avail - n) (taken (fields sock.htc).avail n h) (omega arith))

-- `schedi_job_epollsocket_write_buffer_data` takes as many bytes as there is room for, at most
-- those it is given, and puts them behind the bytes that wait to be sent, which it keeps.
pub write_buffer_data-Appends :
    (payload : Bytes) (size : ℕ) (sock : Socket)
    → IsWriting sock
    → let (total, sock') = write_buffer_data payload size sock in
      (total ≡ min size (fields sock.htc).avail)
      × IsWriting sock'
      × Appends (waiting sock) (waiting sock') total (to_send sock) (to_send sock') payload
unfolding write_buffer_data
write_buffer_data-Appends payload size sock (ring, room) =
    let n = min size (avail_from sock.htc) in
    let same = avail_from-field sock.htc in
    let few : n ≤ (fields sock.htc).avail = omega (arith, same) in
    let (all, ring', kept, new) =
      fill-Appends payload n sock.write_head sock.write_tail (waiting sock) sock.write_buffer ring
        (omega arith) in
    let total = (fill payload n sock.write_head sock.write_buffer).0 in
    let head' = (fill payload n sock.write_head sock.write_buffer).2 in
    let left = avail-write sock total (omega (arith, all)) room in
    (
      all ∙ ap (min size) same,
      (
        subst (λ (c : ℕ). IsRing head' sock.write_tail c) (omega (arith, left, all)) ring',
        omega (arith, left),
      ),
      (omega (arith, left, all), kept, λ k h. new k (omega (arith, all))),
    )

-- A read out of the ring copies its first bytes, and moves the tail past them.
drain-Drops :
    (payload : Bytes) (n head tail count : ℕ) (bytes : Bytes)
    → IsRing head tail (n + count)
    → let (payload', tail') = drain payload n tail bytes in
      IsRing head tail' count
      × ((k : ℕ) → k < n → payload' k ≡ bytes ((tail + k) % buffersize))
      × ((k : ℕ)
          → k < count
          → bytes ((tail' + k) % buffersize) ≡ bytes ((tail + (n + k)) % buffersize))
unfolding drain
drain-Drops payload n head tail count bytes ring =
    let a = ring.head_in in
    let b = ring.tail_in in
    let c = ring.count_in in
    let d = ring.meets_head in
    (
      record {
        head_in = a;
        tail_in = ground arith;
        count_in = omega arith;
        meets_head = ground arith;
      },
      λ k h. ground arith,
      λ k h. ap bytes (ground arith),
    )

count-read :
    (sock : Socket) (n : ℕ)
    → n ≤ (fields sock.htc).count
    → (fields sock.htc).count ≤ buffersize
    → (fields (atomic (count_add sock.read_count_condition (sub_ℕ 0 n) false) sock.htc).1).count
      ≡ (fields sock.htc).count - n
count-read sock n h b =
    ap (λ (f : Fields). f.count)
      (count_add_lem sock.read_count_condition (sub_ℕ 0 n) false sock.htc
        ((fields sock.htc).count - n) (taken (fields sock.htc).count n h) (omega arith))

-- `schedi_job_epollsocket_read` returns the number of the bytes that it copies, which is as many as
-- there are, at most those it is asked for; it copies the oldest ones in their order and keeps
-- the others.
pub read-Drops :
    (payload : Bytes) (size : ℕ) (sock : Socket)
    → IsReading sock
    → let (n, payload', sock') = read payload size sock in
      (n ≡ min (arrived sock) size)
      × IsReading sock'
      × ((k : ℕ) → k < n → payload' k ≡ to_read sock k)
      × Drops (arrived sock) (arrived sock') n (to_read sock) (to_read sock')
unfolding read
read-Drops payload size sock ring =
    let n = min (count_from sock.htc) size in
    let same = count_from-field sock.htc in
    let few : n ≤ arrived sock = omega (arith, same) in
    let rest = arrived sock - n in
    let split : arrived sock ≡ n + rest = omega (arith, few) in
    let (ring', copied, kept) =
      drain-Drops payload n sock.read_head sock.read_tail rest sock.read_buffer
        (subst (λ (c : ℕ). IsRing sock.read_head sock.read_tail c) split ring) in
    let left = count-read sock n few ring.count_in in
    let tail' = (drain payload n sock.read_tail sock.read_buffer).1 in
    (
      ap (λ (c : ℕ). min c size) same,
      subst (λ (c : ℕ). IsRing sock.read_head tail' c) (sym left) ring',
      copied,
      (omega (arith, split, left), λ k h. kept k (omega (arith, left))),
    )
