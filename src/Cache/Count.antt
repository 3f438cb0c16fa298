-- ===== src/Cache/Count.antt =====
-- The packed `job_count` of the ready jobs cache: the two halves that the loops of
-- `schedi_ready_jobs_cache_add_job_count` and `schedi_ready_jobs_cache_sub_job_count` write.
use schedi.Prelude.{
  ℕ, ◌+◌, ◌-◌, ◌*◌, ◌/◌, ◌%◌, ◌^◌, ◌<◌, ◌≤◌, ◌≡◌, ◌∙◌, ap₂, bit_or, ltb, if◌then◌else◌, arith, max,
}
use schedi.Prelude.Bits.{bit_or_split, bit_and_low, zero-bit_or, bit_or-zero}
use schedi.Atomic.{atomic}
use schedi.Cache.{count_of, peak_of, pack_count, add_body, sub_body}

pack_count-eq :
    (count peak : ℕ)
    → count < 2 ^ 32
    → peak < 2 ^ 32
    → pack_count count peak ≡ peak * 2 ^ 32 + count
pack_count-eq count peak hc hp =
    ap₂ bit_or left right
    ∙ bit_or_split 32 0 count peak 0 hc (omega arith)
    ∙ ap₂ (λ (x y : ℕ). x * 2 ^ 32 + y) (zero-bit_or peak) (bit_or-zero count)
  where
    left : count ≡ 0 * 2 ^ 32 + count
    left = omega arith

    right : peak * 2 ^ 32 % 2 ^ 64 ≡ peak * 2 ^ 32 + 0
    right = omega arith

halves-pack_count :
    (count peak : ℕ)
    → count < 2 ^ 32
    → peak < 2 ^ 32
    → (count_of (pack_count count peak) ≡ count) × (peak_of (pack_count count peak) ≡ peak)
halves-pack_count count peak hc hp = (
  omega (arith, bit_and_low 32 (pack_count count peak), pack_count-eq count peak hc hp),
  omega (arith, bit_and_low 32 (pack_count count peak / 2 ^ 32), pack_count-eq count peak hc hp),
)

pub peak-lt : (w : ℕ) → peak_of w < 2 ^ 32
peak-lt w = omega (arith, bit_and_low 32 (w / 2 ^ 32))

-- Adding a job adds 1 to the count, and raises the peak to the count where it was less.
pub add_body_lem :
    (w : ℕ)
    → count_of w + 1 < 2 ^ 32
    → let w' = (atomic add_body w).1 in
      (count_of w' ≡ count_of w + 1) × (peak_of w' ≡ max (peak_of w) (count_of w + 1))
unfolding add_body
add_body_lem w h =
    let count = (count_of w + 1) % 2 ^ 32 in
    let peak = if ltb (peak_of w) count then count else peak_of w in
    let p = halves-pack_count count peak (omega arith) (ground (arith, peak-lt w)) in
    (omega (arith, p.0), p.1 ∙ ground arith)

-- Removing one takes 1 off the count, and leaves the peak.
pub sub_body_lem :
    (w : ℕ)
    → 1 ≤ count_of w
    → let w' = (atomic sub_body w).1 in (count_of w' ≡ count_of w - 1) × (peak_of w' ≡ peak_of w)
unfolding sub_body
sub_body_lem w h =
    let count = (count_of w + 2 ^ 32 - 1) % 2 ^ 32 in
    let p = halves-pack_count count (peak_of w) (omega arith) (peak-lt w) in
    (omega (arith, p.0, bit_and_low 32 w), p.1)
