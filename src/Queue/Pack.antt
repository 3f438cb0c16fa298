-- ===== src/Queue/Pack.antt =====
-- The macros PACK_HTC and HTC_* are inverse to one another.
use schedi.Prelude.{ℕ, ◌+◌, ◌*◌, ◌/◌, ◌%◌, ◌^◌, ◌<◌, ◌≡◌, ◌∙◌, ap₂, bit_or, arith}
use schedi.Prelude.Bits.{bit_or-add, bit_and_low}
use schedi.Queue.{Htc, pack, unpack, htc_head, htc_tail, htc_count, htc_label}

-- Each part fits its 16 bits.
pub record Fits (h : Htc) : Type 0 where
  pub head : h.head < 2 ^ 16
  pub tail : h.tail < 2 ^ 16
  pub count : h.count < 2 ^ 16
  pub label : h.label < 2 ^ 16

pub pack-eq :
    {h : Htc} → Fits h → pack h ≡ h.head * 2 ^ 48 + h.tail * 2 ^ 32 + h.count * 2 ^ 16 + h.label
unfolding pack
pack-eq {h} f =
    ap₂ bit_or
      (ap₂ bit_or
          (ap₂ bit_or (omega arith) (omega arith)
            ∙ bit_or-add 48 h.head (h.tail * 2 ^ 32) (omega arith)
            ∙ omega arith)
          (omega arith)
        ∙ bit_or-add 32 (h.head * 2 ^ 16 + h.tail) (h.count * 2 ^ 16) (omega arith)
        ∙ omega arith)
      (omega arith)
    ∙ bit_or-add 16 (h.head * 2 ^ 32 + h.tail * 2 ^ 16 + h.count) h.label (omega arith)
    ∙ omega arith

-- The macros read 16 bits each.
pub parts :
    (x : ℕ)
    → (htc_head x ≡ x / 2 ^ 48 % 2 ^ 16)
      × (htc_tail x ≡ x / 2 ^ 32 % 2 ^ 16)
      × (htc_count x ≡ x / 2 ^ 16 % 2 ^ 16)
      × (htc_label x ≡ x % 2 ^ 16)
parts x = (
  bit_and_low 16 (x / 2 ^ 48),
  bit_and_low 16 (x / 2 ^ 32),
  bit_and_low 16 (x / 2 ^ 16),
  bit_and_low 16 x,
)

pub parts-pack :
    {h : Htc}
    → Fits h
    → (htc_head (pack h) ≡ h.head)
      × (htc_tail (pack h) ≡ h.tail)
      × (htc_count (pack h) ≡ h.count)
      × (htc_label (pack h) ≡ h.label)
parts-pack {h} f =
    let p = parts (pack h) in
    (
      omega (arith, p.0, pack-eq f),
      omega (arith, p.1, pack-eq f),
      omega (arith, p.2, pack-eq f),
      omega (arith, p.3, pack-eq f),
    )

-- Unpacking gives back what was packed, where each part fits its 16 bits.
pub unpack-pack : {h : Htc} → Fits h → unpack (pack h) ≡ h
unfolding unpack
unpack-pack f =
    let q = parts-pack f in λ i. record { head = q.0 i; tail = q.1 i; count = q.2 i; label = q.3 i }

-- Packing gives back the word that was unpacked.
pub pack-unpack : (x : ℕ) → x < 2 ^ 64 → pack (unpack x) ≡ x
unfolding unpack
pack-unpack x h =
    let p = parts x in
    pack-eq (record {
      head = omega (arith, p.0);
      tail = omega (arith, p.1);
      count = omega (arith, p.2);
      label = omega (arith, p.3);
    })
    ∙ omega (arith, p.0, p.1, p.2, p.3)
