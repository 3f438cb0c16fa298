-- ===== src/Queue/Count.antt =====
-- `dq_dec_count` of src/jobs.c: a job that came out by `dq_super_pop` is counted no longer.
use schedi.Prelude.{
  ℕ, suc, ◌+◌, ◌-◌, ◌*◌, ◌%◌, ◌^◌, ◌<◌, ◌≤◌, ◌≡◌, sym, ◌∙◌, ap, ap₂, List, arith, leb, bit_and,
  bit_or, if◌then◌else◌, false,
}
use schedi.Prelude.Bits.{bit_or-zero, zero-bit_or, bit_and_low, bit_and_split, bit_or_split}
use schedi.Atomic.{atomic}
use schedi.Queue.{Htc, Queue, pack, htc_count, dq_size, dec_count_body, dq_dec_count}
use schedi.Queue.Pack.{Fits, pack-eq, parts-pack}
use schedi.Queue.Fifo.{IsQueue, IsQueue-Fits}

-- The word with other bits 16 to 31.
replace_count :
    (a c l n : ℕ)
    → a < 2 ^ 32
    → c < 2 ^ 16
    → l < 2 ^ 16
    → n < 2 ^ 16
    → bit_or (bit_and (a * 2 ^ 32 + (c * 2 ^ 16 + l)) (2 ^ 64 - 1 - 0xffff * 2 ^ 16)) (n * 2 ^ 16)
      ≡ a * 2 ^ 32 + n * 2 ^ 16 + l
replace_count a c l n ha hc hl hn =
    ap (λ (t : ℕ). bit_or t (n * 2 ^ 16))
      (bit_and_split 32 a (c * 2 ^ 16 + l) (2 ^ 32 - 1) (2 ^ 16 - 1) (omega arith) (omega arith)
        ∙ ap₂ (λ (x y : ℕ). x * 2 ^ 32 + y) (bit_and_low 32 a) (bit_and_low 16 (c * 2 ^ 16 + l)))
    ∙ ap₂ bit_or kept new
    ∙ bit_or_split 32 a l 0 (n * 2 ^ 16) (omega arith) (omega arith)
    ∙ ap₂ (λ (x y : ℕ). x * 2 ^ 32 + y) (bit_or-zero a) low
    ∙ omega arith
  where
    kept : a % 2 ^ 32 * 2 ^ 32 + (c * 2 ^ 16 + l) % 2 ^ 16 ≡ a * 2 ^ 32 + l
    kept = omega arith

    new : n * 2 ^ 16 ≡ 0 * 2 ^ 32 + n * 2 ^ 16
    new = omega arith

    low : bit_or l (n * 2 ^ 16) ≡ n * 2 ^ 16 + l
    low =
        ap₂ bit_or (omega arith) (omega arith)
        ∙ bit_or_split 16 0 l n 0 hl (omega arith)
        ∙ ap₂ (λ (x y : ℕ). x * 2 ^ 16 + y) (zero-bit_or n) (bit_or-zero l)

-- What the loop writes over a word that counts from 1 to 1024 jobs.
pub dec_count-pack :
    {h : Htc}
    → Fits h
    → 1 ≤ h.count
    → h.count ≤ dq_size
    → (atomic dec_count_body (pack h)).1 ≡ pack (record h { count = h.count - 1 })
unfolding dec_count_body
dec_count-pack {h} f low high =
    ap₂ (λ (w s : ℕ). bit_or (bit_and w (2 ^ 64 - 1 - 0xffff * 2 ^ 16)) s) (pack-eq f ∙ omega arith)
      (ap shifted less ∙ rw positive)
    ∙ replace_count (h.head * 2 ^ 16 + h.tail) h.count h.label n (omega (arith, f.head, f.tail))
        f.count f.label (omega arith)
    ∙ omega arith
    ∙ sym (pack-eq fits)
  where
    n : ℕ
    n = h.count - 1

    less : (htc_count (pack h) + 2 ^ 16 - 1) % 2 ^ 16 ≡ n
    less = omega (arith, (parts-pack f).2)

    positive : leb (2 ^ 15) n ≡ false
    positive = ground arith

    fits : Fits (record h { count = n })
    fits = record { head = f.head; tail = f.tail; count = omega arith; label = f.label }

    shifted : ℕ → ℕ
    shifted t = if leb (2 ^ 15) t then t * 2 ^ 16 + (2 ^ 64 - 2 ^ 32) else t * 2 ^ 16

-- `dq_dec_count` takes one off the jobs that are in flight, and leaves the queue as it is.
pub dq_dec_count-IsQueue :
    {d : Queue} {js : List ℕ} {f : ℕ} → IsQueue d js (suc f) → IsQueue (dq_dec_count d) js f
unfolding dq_dec_count
dq_dec_count-IsQueue {d} {js} {f} q = record {
  htc = record q.htc { count = q.htc.count - 1 };
  packed =
      ap (λ (w : ℕ). (atomic dec_count_body w).1) q.packed
      ∙ dec_count-pack (IsQueue-Fits q) (omega (arith, q.count)) (omega (arith, q.count, q.room));
  head_in = q.head_in;
  tail_in = q.tail_in;
  label_in = q.label_in;
  count = omega (arith, q.count);
  room = omega (arith, q.room);
  head = q.head;
  window = q.window;
}
