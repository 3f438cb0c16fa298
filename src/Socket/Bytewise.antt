-- ===== src/Socket/Bytewise.antt =====
-- The two copies with which src/jobs.c writes into a ring, against a ring that is written one byte
-- at a time.
use schedi.Prelude.{
  ℕ, zero, suc, ◌+◌, ◌-◌, ◌%◌, ◌<◌, ◌≤◌, ◌≡◌, sym, ◌∙◌, ◌&&◌, ltb, if◌then◌else◌, arith,
}
use schedi.Queue.{update}
use schedi.Socket.{buffersize}
use schedi.Socket.Buffer.{Bytes, fill}

-- Byte k of the payload, for each k below n, goes k places after the head, around the end.
unfoldable pub put_each : (payload : Bytes) (n head : ℕ) → Bytes → Bytes
put_each payload zero head bytes = bytes
put_each payload (suc k) head bytes =
    update (put_each payload k head bytes) ((head + k) % buffersize) (payload k)

-- The byte that either of them leaves at a place j.
abbrev written : (payload : Bytes) (n head : ℕ) → Bytes → Bytes
written payload n head bytes = λ j.
    let k = (j + buffersize - head) % buffersize in
    if ltb k n && ltb j buffersize then payload k else bytes j

put_each-written :
    (payload : Bytes) (n head : ℕ) (bytes : Bytes) (j : ℕ)
    → head < buffersize
    → n ≤ buffersize
    → put_each payload n head bytes j ≡ written payload n head bytes j
unfolding put_each
put_each-written payload zero head bytes j h m = ground arith
put_each-written payload (suc n) head bytes j h m =
    ground (arith, put_each-written payload n head bytes j h (omega arith))

fill-written :
    (payload : Bytes) (n head : ℕ) (bytes : Bytes) (j : ℕ)
    → head < buffersize
    → n ≤ buffersize
    → (fill payload n head bytes).1 j ≡ written payload n head bytes j
unfolding fill
fill-written payload n head bytes j h m = ground arith

-- The copies of a write of at most 1024 bytes leave at every place what a write of one byte after
-- the other leaves there.
pub fill-eq-put_each :
    (payload : Bytes) (n head : ℕ) (bytes : Bytes) (j : ℕ)
    → head < buffersize
    → n ≤ buffersize
    → (fill payload n head bytes).1 j ≡ put_each payload n head bytes j
fill-eq-put_each payload n head bytes j h m =
    fill-written payload n head bytes j h m ∙ sym (put_each-written payload n head bytes j h m)
