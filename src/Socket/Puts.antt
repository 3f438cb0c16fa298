-- ===== src/Socket/Puts.antt =====
-- Bytes that come into a ring of src/jobs.c behind its head, in one copy or two.
use schedi.Prelude.{
  ℕ, ◌+◌, ◌-◌, ◌%◌, ◌<◌, ◌≤◌, ◌≡◌, sym, ◌∙◌, ap, true, false, ltb, if◌then◌else◌, arith,
}
use mathlib.Core.Path.{subst}
use native.Mathlib.Decide.{dec_lt}
use schedi.Socket.{buffersize}
use schedi.Socket.Buffer.{Bytes, memcpy}
use schedi.Socket.Rings.{IsRing}

-- n bytes of a payload have come into a ring of `count` bytes behind its head.
abbrev pub Puts :
    (tail count n : ℕ) (bytes : Bytes) (payload : Bytes) (head' : ℕ) (bytes' : Bytes) → Type 0
Puts tail count n bytes payload head' bytes' =
    IsRing head' tail (count + n)
    × ((k : ℕ) → k < count → bytes' ((tail + k) % buffersize) ≡ bytes ((tail + k) % buffersize))
    × ((k : ℕ) → k < n → bytes' ((tail + (count + k)) % buffersize) ≡ payload k)

-- One copy up to the end of the ring at most.
pub copy-Puts :
    (head tail count n : ℕ) (bytes payload : Bytes)
    → IsRing head tail count
    → head + n ≤ buffersize
    → count + n ≤ buffersize
    → Puts tail count n bytes payload ((head + n) % buffersize) (memcpy bytes head payload 0 n)
copy-Puts head tail count n bytes payload ring fits room =
    let a = ring.head_in in
    let b = ring.tail_in in
    let c = ring.count_in in
    let d = ring.meets_head in
    (
      record { head_in = omega arith; tail_in = b; count_in = room; meets_head = ground arith },
      λ k h. ground arith,
      λ k h. ground arith,
    )

-- Two payloads one after the other.
abbrev pub both : ℕ → Bytes → Bytes → Bytes
both m p q = λ k. if ltb k m then p k else q (k - m)

pub Puts-trans :
    (tail count m n : ℕ) (x y z p q : Bytes) (head' head'' : ℕ)
    → Puts tail count m x p head' y
    → Puts tail (count + m) n y q head'' z
    → Puts tail count (m + n) x (both m p q) head'' z
Puts-trans tail count m n x y z p q head' head'' (r, kept, new) (r', kept', new') = (
  subst (λ (c : ℕ). IsRing head'' tail c) (omega arith) r',
  λ k h. kept' k (omega arith) ∙ kept k h,
  λ k h. elim (dec_lt k m) [
    | yes low ↦
        let test : ltb k m ≡ true = ground arith in
        rw test (kept' (count + k) (omega arith) ∙ new k low)
    | no high ↦
        let test : ltb k m ≡ false = ground arith in
        let at : tail + (count + k) ≡ tail + (count + m + (k - m)) = omega arith in
        rw test (ap (λ (j : ℕ). z (j % buffersize)) at ∙ new' (k - m) (omega arith))
  ],
)

pub both-low : (m : ℕ) (p q : Bytes) (k : ℕ) → k < m → both m p q k ≡ p k
both-low m p q k h = ground arith

pub both-high : (m : ℕ) (p q : Bytes) (k : ℕ) → q k ≡ both m p q (m + k)
both-high m p q k =
    let test : ltb (m + k) m ≡ false = ground arith in
    let at : m + k - m ≡ k = omega arith in rw test (ap q (sym at))
