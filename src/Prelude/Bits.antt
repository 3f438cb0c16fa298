-- ===== src/Prelude/Bits.antt =====
-- Fields of a word, `w / 2 ^ k % 2 ^ n`, under `|` and `&`.
use Prim.Native.Nat.{ℕ, zero, suc, ◌+◌, ◌-◌, ◌*◌, ◌/◌, ◌%◌, ◌^◌, ◌≤◌, ◌<◌, bit_and, bit_or}
use Prim.Native.Nat.{compare, Ordering}
use mathlib.Core.Path.{◌≡◌, refl, sym, ap, ap₂, ◌∙◌}
use native.Mathlib.Nat.{one-le-pow, div-add-mod', div-eq_of_lt, mod-eq_of_lt}
use native.Mathlib.Nat.{mul-add-div_right, mul-add-mod_self_right}
use mathlib.Core.Bool.{Bool, true, false, ◌&&◌, ◌||◌}
use mathlib.Core.Logic.{◌↔◌}
use native.Mathlib.Omega.{arith}
pub use schedi.Prelude.Digits.{
  bit_or_step, zero-bit_or, bit_or-zero, zero-bit_and, bit_and_step, bit_and-zero, bit_or_split,
  bit_and_split, bit_or-lt, bit_and-le, bit_and_mask, mask_bit_and,
}

pow_pos : (k : ℕ) → 0 < 2 ^ k
pow_pos k = one-le-pow k 2 (omega arith)

below_pow : (k a : ℕ) → a % 2 ^ k < 2 ^ k
below_pow k a = omega (arith, pow_pos k)

parts : (k q r : ℕ) → r < 2 ^ k → ((q * 2 ^ k + r) / 2 ^ k ≡ q) × ((q * 2 ^ k + r) % 2 ^ k ≡ r)
parts k q r h = (
  mul-add-div_right (pow_pos k) q r ∙ omega (arith, div-eq_of_lt h),
  mul-add-mod_self_right q (2 ^ k) r ∙ mod-eq_of_lt h,
)

module _ (k a b : ℕ) where
  whole : (w : ℕ) → w ≡ w / 2 ^ k * 2 ^ k + w % 2 ^ k
  whole w = sym (div-add-mod' w (2 ^ k))

  bit_or-eq : bit_or a b ≡ bit_or (a / 2 ^ k) (b / 2 ^ k) * 2 ^ k + bit_or (a % 2 ^ k) (b % 2 ^ k)
  bit_or-eq =
      ap₂ bit_or (whole a) (whole b)
      ∙ bit_or_split k (a / 2 ^ k) (a % 2 ^ k) (b / 2 ^ k) (b % 2 ^ k) (below_pow k a)
          (below_pow k b)

  bit_and-eq :
      bit_and a b ≡ bit_and (a / 2 ^ k) (b / 2 ^ k) * 2 ^ k + bit_and (a % 2 ^ k) (b % 2 ^ k)
  bit_and-eq =
      ap₂ bit_and (whole a) (whole b)
      ∙ bit_and_split k (a / 2 ^ k) (a % 2 ^ k) (b / 2 ^ k) (b % 2 ^ k) (below_pow k a)
          (below_pow k b)

  -- The part from bit `k` up, and the part below it.
  pub bit_or-parts :
      (bit_or a b / 2 ^ k ≡ bit_or (a / 2 ^ k) (b / 2 ^ k))
      × (bit_or a b % 2 ^ k ≡ bit_or (a % 2 ^ k) (b % 2 ^ k))
  bit_or-parts =
      let fits = bit_or-lt k (a % 2 ^ k) (b % 2 ^ k) (below_pow k a) (below_pow k b) in
      let cut = parts k (bit_or (a / 2 ^ k) (b / 2 ^ k)) (bit_or (a % 2 ^ k) (b % 2 ^ k)) fits in
      (ap (λ (t : ℕ). t / 2 ^ k) bit_or-eq ∙ cut.0, ap (λ (t : ℕ). t % 2 ^ k) bit_or-eq ∙ cut.1)

  pub bit_and-parts :
      (bit_and a b / 2 ^ k ≡ bit_and (a / 2 ^ k) (b / 2 ^ k))
      × (bit_and a b % 2 ^ k ≡ bit_and (a % 2 ^ k) (b % 2 ^ k))
  bit_and-parts =
      let small = bit_and-le k (a % 2 ^ k) (b % 2 ^ k) (below_pow k a) in
      let fits : bit_and (a % 2 ^ k) (b % 2 ^ k) < 2 ^ k = omega (arith, small, below_pow k a) in
      let cut = parts k (bit_and (a / 2 ^ k) (b / 2 ^ k)) (bit_and (a % 2 ^ k) (b % 2 ^ k)) fits in
      (ap (λ (t : ℕ). t / 2 ^ k) bit_and-eq ∙ cut.0, ap (λ (t : ℕ). t % 2 ^ k) bit_and-eq ∙ cut.1)

-- The `n` bits of a word from bit `k` on.
abbrev pub field : ℕ → ℕ → ℕ → ℕ
field k n w = w / 2 ^ k % 2 ^ n

pub field-bit_or : (k n a b : ℕ) → field k n (bit_or a b) ≡ bit_or (field k n a) (field k n b)
field-bit_or k n a b =
    ap (λ (t : ℕ). t % 2 ^ n) (bit_or-parts k a b).0 ∙ (bit_or-parts n (a / 2 ^ k) (b / 2 ^ k)).1

pub field-bit_and : (k n a b : ℕ) → field k n (bit_and a b) ≡ bit_and (field k n a) (field k n b)
field-bit_and k n a b =
    ap (λ (t : ℕ). t % 2 ^ n) (bit_and-parts k a b).0 ∙ (bit_and-parts n (a / 2 ^ k) (b / 2 ^ k)).1

-- A field that `|` or `&` with a constant leaves alone, and one that it sets or clears.
module _ (k n w m : ℕ) where
  pub field-bit_or_keep : field k n m ≡ 0 → field k n (bit_or w m) ≡ field k n w
  field-bit_or_keep e =
      field-bit_or k n w m ∙ ap (bit_or (field k n w)) e ∙ bit_or-zero (field k n w)

  pub field-bit_or_under : field k n w ≡ 0 → field k n (bit_or w m) ≡ field k n m
  field-bit_or_under e =
      field-bit_or k n w m ∙ ap (λ (t : ℕ). bit_or t (field k n m)) e ∙ zero-bit_or (field k n m)

  pub field-bit_and_keep : field k n m ≡ 2 ^ n - 1 → field k n (bit_and w m) ≡ field k n w
  field-bit_and_keep e =
      field-bit_and k n w m
      ∙ ap (bit_and (field k n w)) e
      ∙ bit_and_mask n (field k n w) (below_pow n (w / 2 ^ k))

  pub field-bit_and_clear : field k n m ≡ 0 → field k n (bit_and w m) ≡ 0
  field-bit_and_clear e =
      field-bit_and k n w m ∙ ap (bit_and (field k n w)) e ∙ bit_and-zero (field k n w)

abbrev pub is_one : ℕ → Bool
is_one x = elim (compare x 1) [ Ordering.eq ↦ true | _ ↦ false ]

-- Bit `k` of a word.
abbrev pub bit : ℕ → ℕ → Bool
bit k w = is_one (field k 1 w)

is_one-bit_or : (x y : ℕ) → x < 2 → y < 2 → is_one (bit_or x y) ≡ (is_one x || is_one y)
is_one-bit_or zero y hx hy = ap is_one (zero-bit_or y)
is_one-bit_or (suc zero) zero hx hy = refl
is_one-bit_or (suc zero) (suc zero) hx hy = refl
is_one-bit_or (suc zero) (suc (suc y)) hx hy = absurd (omega arith)
is_one-bit_or (suc (suc x)) y hx hy = absurd (omega arith)

is_one-bit_and : (x y : ℕ) → x < 2 → y < 2 → is_one (bit_and x y) ≡ (is_one x && is_one y)
is_one-bit_and zero y hx hy = ap is_one (zero-bit_and y)
is_one-bit_and (suc zero) zero hx hy = refl
is_one-bit_and (suc zero) (suc zero) hx hy = refl
is_one-bit_and (suc zero) (suc (suc y)) hx hy = absurd (omega arith)
is_one-bit_and (suc (suc x)) y hx hy = absurd (omega arith)

pub bit-bit_or : (k a b : ℕ) → bit k (bit_or a b) ≡ (bit k a || bit k b)
bit-bit_or k a b =
    ap is_one (field-bit_or k 1 a b)
    ∙ is_one-bit_or (field k 1 a) (field k 1 b) (omega arith) (omega arith)

pub bit-bit_and : (k a b : ℕ) → bit k (bit_and a b) ≡ (bit k a && bit k b)
bit-bit_and k a b =
    ap is_one (field-bit_and k 1 a b)
    ∙ is_one-bit_and (field k 1 a) (field k 1 b) (omega arith) (omega arith)

-- An `|` is zero when both its sides are.
pub bit_or-eq-zero : (a b : ℕ) → bit_or a b ≡ 0 → (a ≡ 0) × (b ≡ 0)
bit_or-eq-zero a b e = fuelled a a b (omega arith) e
  where
    fuelled : (n x y : ℕ) → x ≤ n → bit_or x y ≡ 0 → (x ≡ 0) × (y ≡ 0)
    fuelled zero zero y h e = (refl, omega (arith, zero-bit_or y))
    fuelled zero (suc x) y h e = absurd (omega arith)
    fuelled (suc n) zero y h e = (refl, omega (arith, zero-bit_or y))
    fuelled (suc n) (suc x) y h e =
        let high =
          fuelled n (suc x / 2) (y / 2) (omega arith) (omega (arith, bit_or_step (suc x) y)) in
        (
          absurd (omega (arith, high.0, bit_or_step (suc x) y)),
          absurd (omega (arith, high.0, bit_or_step (suc x) y)),
        )

-- `&` with an `|` of masks.
pub bit_and-bit_or : (w a b : ℕ) → bit_and w (bit_or a b) ≡ bit_or (bit_and w a) (bit_and w b)
bit_and-bit_or w a b = fuelled w w a b (omega arith)
  where
    fuelled : (n w a b : ℕ) → w ≤ n → bit_and w (bit_or a b) ≡ bit_or (bit_and w a) (bit_and w b)
    fuelled n zero a b h =
        zero-bit_and (bit_or a b)
        ∙ sym (ap₂ bit_or (zero-bit_and a) (zero-bit_and b) ∙ zero-bit_or 0)
    fuelled zero (suc w) a b h = absurd (omega arith)
    fuelled (suc n) (suc w) a b h = ground (
      arith,
      bit_and_step (suc w) (bit_or a b),
      bit_or_step a b,
      bit_or_step (bit_and (suc w) a) (bit_and (suc w) b),
      bit_and_step (suc w) a,
      bit_and_step (suc w) b,
      fuelled n (suc w / 2) (a / 2) (b / 2) (omega arith),
    )

-- `&` with a low mask, and with the mask of a field.
pub bit_and_low : (n a : ℕ) → bit_and a (2 ^ n - 1) ≡ a % 2 ^ n
bit_and_low n a =
    ap₂ bit_and (sym (div-add-mod' a (2 ^ n))) (omega arith)
    ∙ bit_and_split n (a / 2 ^ n) (a % 2 ^ n) 0 (2 ^ n - 1) (below_pow n a)
        (omega (arith, pow_pos n))
    ∙ ap₂ (λ (x y : ℕ). x * 2 ^ n + y) (bit_and-zero (a / 2 ^ n))
        (bit_and_mask n (a % 2 ^ n) (below_pow n a))
    ∙ omega arith

pub bit_and-field : (k n w : ℕ) → bit_and w ((2 ^ n - 1) * 2 ^ k) ≡ field k n w * 2 ^ k
bit_and-field k n w =
    ap₂ bit_and (sym (div-add-mod' w (2 ^ k))) (omega arith)
    ∙ bit_and_split k (w / 2 ^ k) (w % 2 ^ k) (2 ^ n - 1) 0 (below_pow k w) (pow_pos k)
    ∙ ap₂ (λ (x y : ℕ). x * 2 ^ k + y) (bit_and_low n (w / 2 ^ k)) (bit_and-zero (w % 2 ^ k))
    ∙ omega arith

pub bit_and-field-eq-zero : (k n w : ℕ) → bit_and w ((2 ^ n - 1) * 2 ^ k) ≡ 0 → field k n w ≡ 0
bit_and-field-eq-zero k n w e =
    let pos = pow_pos k in mul_zero (field k n w) (2 ^ k) pos (sym (bit_and-field k n w) ∙ e)
  where
    mul_zero : (x p : ℕ) → 0 < p → x * p ≡ 0 → x ≡ 0
    mul_zero zero p h e = refl
    mul_zero (suc x) p h e = absurd (grind arith)

pub bit_and_flag-eq-zero : (k w : ℕ) → bit_and w (2 ^ k) ≡ 0 ↔ bit k w ≡ false
bit_and_flag-eq-zero k w = (
  λ e. ground (arith, bit_and-field-eq-zero k 1 w (ap (bit_and w) (omega arith) ∙ e)),
  λ e.
      ap (bit_and w) (omega arith)
      ∙ bit_and-field k 1 w
      ∙ zero_times (field k 1 w) (2 ^ k) (ground arith),
)
  where
    zero_times : (x p : ℕ) → x ≡ 0 → x * p ≡ 0
    zero_times x p e = ap (λ (t : ℕ). t * p) e ∙ omega arith

-- `|` of disjoint parts is a sum.
pub bit_or-add : (k q r : ℕ) → r < 2 ^ k → bit_or (q * 2 ^ k) r ≡ q * 2 ^ k + r
bit_or-add k q r h =
    ap₂ bit_or (omega arith) (omega arith)
    ∙ bit_or_split k q 0 0 r (pow_pos k) h
    ∙ ap₂ (λ (x y : ℕ). x * 2 ^ k + y) (bit_or-zero q) (zero-bit_or r)
