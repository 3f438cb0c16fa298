-- ===== src/Queue.antt =====
-- The destroy queue of src/jobs.c: a ring of 1024 job pointers whose head, tail, count and label
-- are packed into the 64-bit word `htc`.
-- A job is the index of its slot. Static arrays are functions of the index, which the code always
-- takes modulo 1024. A push or a pop is its compare-and-swap loop, as one atomic step, and the
-- stores after it.
pub mod Pack
pub mod Window
pub mod Fifo
pub mod Pop
pub mod Count
pub mod Stuck
pub mod Steps
pub mod Tickets
pub mod Held
pub mod Swapped
pub mod InOrder
pub mod Overtaken
mod Tests
use schedi.Prelude.{
  ℕ, ◌+◌, ◌-◌, ◌*◌, ◌/◌, ◌%◌, ◌^◌, bit_and, bit_or, Bool, true, false, not, ◌&&◌, ◌||◌, Option,
  none, some, ◌==◌, leb, if◌then◌else◌,
}
use schedi.Prelude.Int.{ℤ, pos, negsuc}
use schedi.Atomic.{Attempt, quit, swap, atomic}

abbrev pub dq_size : ℕ
dq_size = 1024

pub record Htc : Type 0 where
  pub head : ℕ
  pub tail : ℕ
  pub count : ℕ
  pub label : ℕ

-- HTC_HEAD, HTC_TAIL, HTC_COUNT and HTC_LABEL.
abbrev pub htc_head : ℕ → ℕ
htc_head x = bit_and (x / 2 ^ 48) 0xffff

abbrev pub htc_tail : ℕ → ℕ
htc_tail x = bit_and (x / 2 ^ 32) 0xffff

abbrev pub htc_count : ℕ → ℕ
htc_count x = bit_and (x / 2 ^ 16) 0xffff

abbrev pub htc_label : ℕ → ℕ
htc_label x = bit_and x 0xffff

-- PACK_HTC; `<<` drops what leaves the 64 bits.
pub pack : Htc → ℕ
pack h =
    bit_or
      (bit_or (bit_or (h.head * 2 ^ 48 % 2 ^ 64) (h.tail * 2 ^ 32 % 2 ^ 64))
        (h.count * 2 ^ 16 % 2 ^ 64))
      (h.label % 2 ^ 64)

pub unpack : ℕ → Htc
unpack x = record { head = htc_head x; tail = htc_tail x; count = htc_count x; label = htc_label x }

pub record Queue : Type 0 where
  pub buf : ℕ → Option ℕ
  pub ready : ℕ → Bool
  pub htc : ℕ

abbrev pub empty : Queue
empty = record { buf = λ i. none; ready = λ i. false; htc = 0 }

abbrev pub update {ℓ} : {A : Type ℓ} → (ℕ → A) → ℕ → A → ℕ → A
update f i a j = if i == j then a else f j

-- The stores of a push after its loop, and the reads and stores of a pop.
pub put : ℕ → Queue → Option ℕ × ℕ → ℤ × Queue
put job d (none, w) = (negsuc 0, record d { htc = w })
put job d (some i, w) =
    (pos 0, record { buf = update d.buf i (some job); ready = update d.ready i true; htc = w })

pub take : Queue → Option ℕ × ℕ → Option ℕ × Queue
take d (none, w) = (none, record d { htc = w })
take d (some i, w) = (d.buf i, record d { ready = update d.ready i false; htc = w })

-- `(long long)job`: where the linker puts the slots.
module _ (address : ℕ → ℕ) where
  abbrev pub pointer : Option ℕ → ℕ
  pointer none = 0
  pointer (some job) = address job

  -- The loop of DEFINE_DQ_PUSH_ATOMIC: the index to write, or `none` for a full queue. `counts`
  -- says whether `super` is `_des.count += 1` or `(void)0`.
  pub push_body : Bool → ℕ → ℕ → Attempt (Option ℕ)
  unfolding pack
  push_body counts job w =
      let count = htc_count w in
      let head = htc_head w in
      let head' = (head + 1) % dq_size in
      let label' = (htc_label w + 5 + address job % 65200 + head' % 5) % 65536 in
      if leb dq_size count
      then quit none
      else swap
          (pack (record {
            head = head';
            tail = htc_tail w;
            count = if counts then (count + 1) % 2 ^ 32 else count;
            label = label';
          }))
          (some head)

  pub push_with : Bool → ℕ → Queue → ℤ × Queue
  unfolding push_body put
  push_with counts job d = put job d (atomic (push_body counts job) d.htc)

  -- The loop of DEFINE_DQ_POP_ATOMIC: the index to read, or `none` where it returns NULL.
  pub pop_body : Bool → Queue → ℕ → Attempt (Option ℕ)
  unfolding pack
  pop_body counts d w =
      let count = htc_count w in
      let tail = htc_tail w in
      let head = htc_head w in
      let label' = (htc_label w + 3 + pointer (d.buf tail) % 65200 + head % 5) % 65536 in
      if (count == 0) || not (d.ready tail)
      then quit none
      else if tail == head
      then quit none
      else swap
          (pack (record {
            head = head;
            tail = (tail + 1) % dq_size;
            count = if counts then (count + 2 ^ 32 - 1) % 2 ^ 32 else count;
            label = label';
          }))
          (some tail)

  pub pop_with : Bool → Queue → Option ℕ × Queue
  unfolding pop_body take
  pop_with counts d = take d (atomic (pop_body counts d) d.htc)

  pub dq_push : ℕ → Queue → ℤ × Queue
  unfolding push_with
  dq_push = push_with true

  pub dq_super_push : ℕ → Queue → ℤ × Queue
  unfolding push_with
  dq_super_push = push_with false

  pub dq_pop : Queue → Option ℕ × Queue
  unfolding pop_with
  dq_pop = pop_with true

  pub dq_super_pop : Queue → Option ℕ × Queue
  unfolding pop_with
  dq_super_pop = pop_with false

-- `dq_dec_count`: the count is a `uint16_t`, whose `<< 16` is an `int`; the source reads it back
-- into 64 bits, with the sign.
pub dec_count_body : ℕ → Attempt (Unit {0})
dec_count_body w =
    let count = (htc_count w + 2 ^ 16 - 1) % 2 ^ 16 in
    let shifted =
      if leb (2 ^ 15) count then count * 2 ^ 16 + (2 ^ 64 - 2 ^ 32) else count * 2 ^ 16 in
    swap (bit_or (bit_and w (2 ^ 64 - 1 - 0xffff * 2 ^ 16)) shifted) tt

pub dq_dec_count : Queue → Queue
unfolding dec_count_body
dq_dec_count d = record d { htc = (atomic dec_count_body d.htc).1 }
