-- ===== src/Socket/Bits.antt =====
-- Flags of the word of an epoll socket, one at a time.
use schedi.Prelude.{
  ℕ, ◌-◌, ◌%◌, ◌^◌, ◌<◌, ◌≡◌, refl, ◌∙◌, bit_and, bit_or, Bool, true, false, ◌||◌, arith,
}
use schedi.Prelude.Bits.{
  bit, field, bit_or-zero, zero-bit_or, bit_and-zero, bit_and_low, bit_and-field,
  bit_and_flag-eq-zero,
}
use mathlib.Core.Bool.{or-false, or-true, and-true, and-false}
use schedi.Socket.{read_ready, write_ready, ready, dead, meets, when}
use schedi.Socket.Fields.{Fields, fields, fields-bit_or}

pub low_part : (x : ℕ) → bit_and (x % 2 ^ 29) (2 ^ 29 - 1) ≡ x % 2 ^ 29
low_part x = bit_and_low 29 (x % 2 ^ 29) ∙ omega arith

pub ruleset fields_rules =
    (or-false, or-true, and-true, and-false, bit_or-zero, zero-bit_or, bit_and-zero, low_part)

pub meets-bit : (k w : ℕ) → meets w (2 ^ k) ≡ bit k w
meets-bit k w = ground (arith, bit_and_flag-eq-zero k w)

-- Setting three flags that are clear.
module _ (x : ℕ) where
  pub fields-write :
      (b : Bool)
      → fields (bit_or x (when b write_ready))
        ≡ record (fields x) { write_ready = (fields x).write_ready || b }
  unfolding fields
  fields-write true = fields-bit_or x write_ready ∙ simp fields_rules
  fields-write false = fields-bit_or x 0 ∙ simp fields_rules

  pub fields-read :
      (b : Bool)
      → fields (bit_or x (when b read_ready))
        ≡ record (fields x) { read_ready = (fields x).read_ready || b }
  unfolding fields
  fields-read true = fields-bit_or x read_ready ∙ simp fields_rules
  fields-read false = fields-bit_or x 0 ∙ simp fields_rules

  pub fields-ready :
      (b : Bool)
      → fields (bit_or x (when b ready)) ≡ record (fields x) { ready = (fields x).ready || b }
  unfolding fields
  fields-ready true = fields-bit_or x ready ∙ simp fields_rules
  fields-ready false = fields-bit_or x 0 ∙ simp fields_rules

  pub fields-dead :
      (b : Bool)
      → fields (bit_or x (when b dead)) ≡ record (fields x) { dead = (fields x).dead || b }
  unfolding fields
  fields-dead true = fields-bit_or x dead ∙ simp fields_rules
  fields-dead false = fields-bit_or x 0 ∙ simp fields_rules

abbrev pub lone : (count avail : ℕ) → Fields
lone count avail = record {
  count = count;
  avail = avail;
  epolldid = false;
  epollnt = false;
  read_ready = false;
  write_ready = false;
  ready = false;
  dead = false;
}

no_bit : (k x : ℕ) → field k 1 x ≡ 0 → bit k x ≡ false
no_bit k x e = ground arith

pub fields-lone :
    (x count avail : ℕ)
    → field 0 29 x ≡ count
    → field 29 29 x ≡ avail
    → x < 2 ^ 58
    → fields x ≡ lone count avail
unfolding fields
fields-lone x count avail c a h = λ i. record {
  count = c i;
  avail = a i;
  epolldid = no_bit 58 x (omega arith) i;
  epollnt = no_bit 59 x (omega arith) i;
  read_ready = no_bit 60 x (omega arith) i;
  write_ready = no_bit 61 x (omega arith) i;
  ready = no_bit 62 x (omega arith) i;
  dead = no_bit 63 x (omega arith) i;
}

pub already : (died was : Bool) → (was || (died || was)) ≡ (died || was)
already true true = refl
already true false = refl
already false true = refl
already false false = refl
