-- ===== src/Socket/Stream.antt =====
-- Sequences of bytes, and what send(2) and recv(2) document of the bytes that they carry.
use schedi.Prelude.{ℕ, ◌+◌, ◌-◌, ◌%◌, ◌<◌, ◌≤◌, ◌≡◌, ◌∙◌, ap, arith}
use schedi.Prelude.Int.{ℤ, pos, pos_part}
use native.Mathlib.Decide.{dec_lt}
use schedi.Kernel.{Control, Kernel}
use schedi.Socket.{buffersize}
use schedi.Socket.Buffer.{Bytes}
use schedi.Socket.Transfer.{int_of}
use schedi.Socket.Rings.{IsRing, Appends}

-- The bytes that a descriptor has been given, and what send(2) documents of them: it takes some
-- of the bytes that it is offered, from the first on, and says how many.
pub record Sends {K : Type 0} (os : Kernel K) (sent : K → ℤ → ℕ) (stream : K → ℤ → Bytes)
    : Type 0 where
  pub bounded :
      (fd : ℤ) (bytes : Bytes) (from size : ℕ) (k : K)
      → pos_part (os.send fd bytes from size k).0.result ≤ size
  pub appended :
      (fd : ℤ) (bytes : Bytes) (from size : ℕ) (k : K)
      → let out = os.send fd bytes from size k in
        Appends
          (sent k fd)
          (sent out.1 fd)
          (pos_part out.0.result)
          (stream k fd)
          (stream out.1 fd)
          (λ j. bytes (from + j))
  -- epoll_ctl(2) moves no bytes.
  pub controlled :
      (epfd : ℤ) (op : Control) (fd : ℤ) (events ptr : ℕ) (k : K)
      → let k' = (os.epoll_ctl epfd op fd events ptr k).1 in
        (sent k' ≡ sent k) × (stream k' ≡ stream k)

-- Two sequences of bytes one after the other.
pub Appends-trans :
    (a b c m n : ℕ) (x y z p q : Bytes)
    → Appends a b m x y p
    → Appends b c n y z q
    → ((k : ℕ) → k < n → q k ≡ p (m + k))
    → Appends a c (m + n) x z p
Appends-trans a b c m n x y z p q (e, kept, new) (e', kept', new') joins = (
  omega (arith, e, e'),
  λ k h. kept' k (omega (arith, e)) ∙ kept k h,
  λ k h. elim (dec_lt k m) [
    | yes low ↦ kept' (a + k) (omega (arith, e)) ∙ new k low
    | no high ↦
        let at : a + k ≡ b + (k - m) = omega (arith, e) in
        let back : m + (k - m) ≡ k = omega arith in
        ap z at ∙ new' (k - m) (omega arith) ∙ joins (k - m) (omega arith) ∙ ap p back
  ],
)

pub Appends-payload :
    (a b n : ℕ) (x y p q : Bytes)
    → Appends a b n x y p
    → ((k : ℕ) → k < n → p k ≡ q k)
    → Appends a b n x y q
Appends-payload a b n x y p q (e, kept, new) same = (e, kept, λ k h. new k h ∙ same k h)

pub small_int : (n : ℕ) → n ≤ buffersize → int_of n ≡ pos n
small_int n h = ground arith

-- A tail that has moved past n of the bytes that wait.
pub moved :
    (head tail avail n : ℕ)
    → IsRing head tail (buffersize - avail)
    → avail ≤ buffersize
    → n ≤ buffersize - avail
    → IsRing head ((tail + n) % buffersize) (buffersize - (avail + n))
moved head tail avail n ring room few =
    let a = ring.head_in in
    let b = ring.tail_in in
    let d = ring.meets_head in
    record { head_in = a; tail_in = omega arith; count_in = omega arith; meets_head = ground arith }

pub past :
    (tail n k : ℕ) → ((tail + n) % buffersize + k) % buffersize ≡ (tail + (n + k)) % buffersize
past tail n k = omega arith

-- The bytes that a descriptor has delivered, and what recv(2) documents of them: it delivers at
-- most as many bytes as it is asked for, and says how many.
pub record Receives {K : Type 0} (os : Kernel K) (received : K → ℤ → ℕ) (stream : K → ℤ → Bytes)
    : Type 0 where
  pub bounded : (fd : ℤ) (size : ℕ) (k : K) → pos_part (os.recv fd size k).0.result ≤ size
  pub delivered :
      (fd : ℤ) (size : ℕ) (k : K)
      → let out = os.recv fd size k in
        Appends
          (received k fd)
          (received out.2 fd)
          (pos_part out.0.result)
          (stream k fd)
          (stream out.2 fd)
          out.1
