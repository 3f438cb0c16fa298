-- ===== src/Prelude/Digits.antt =====
-- `|` and `&` on words at variables, digit by digit and part by part.
use Prim.Native.Nat.{
  ℕ, zero, suc, ◌+◌, ◌-◌, ◌*◌, ◌/◌, ◌%◌, ◌^◌, ◌≤◌, ◌<◌, min, max, bit_and, bit_or,
}
use Prim.Native.Nat.{digits, bitwise, bit_and-bitwise, bit_or-bitwise}
use mathlib.Core.Path.{◌≡◌, refl, sym, ap, ◌∙◌}
use native.Mathlib.Nat.{pow-suc, one-le-pow}
use native.Mathlib.Omega.{arith}

-- The native operations recur on the digits with as much fuel as the first number: any more is
-- the same, so the lowest digit has an equation of its own.
module _ (rest : ℕ → ℕ) (join : ℕ → ℕ → ℕ) where
  digits-zero : (f b : ℕ) → digits rest join f 0 b ≡ rest b
  digits-zero zero b = refl
  digits-zero (suc f) b = refl

  enough_digits :
      (f a b : ℕ) → a ≤ f → (g : ℕ) → a ≤ g → digits rest join f a b ≡ digits rest join g a b
  enough_digits f zero b h g k = digits-zero f b ∙ sym (digits-zero g b)
  enough_digits zero (suc a) b h g k = elim h [ ]
  enough_digits (suc f) (suc a) b h zero k = elim k [ ]
  enough_digits (suc f) (suc a) b h (suc g) k =
      ap (λ (t : ℕ). t * 2 + join (suc a % 2) (b % 2))
        (enough_digits f (suc a / 2) (b / 2) (omega arith) g (omega arith))

  lowest_digit :
      (a b : ℕ)
      → bitwise rest join (suc a) b
        ≡ bitwise rest join (suc a / 2) (b / 2) * 2 + join (suc a % 2) (b % 2)
  lowest_digit a b =
      ap (λ (t : ℕ). t * 2 + join (suc a % 2) (b % 2))
        (enough_digits a (suc a / 2) (b / 2) (omega arith) (suc a / 2) (omega arith))

-- So each operation has a law for the lowest digit, and one for a zero on each side.
pub bit_or_step : (x y : ℕ) → bit_or x y ≡ bit_or (x / 2) (y / 2) * 2 + max (x % 2) (y % 2)
bit_or_step zero y = simp bit_or-bitwise (omega arith)
bit_or_step (suc x) y = simp bit_or-bitwise (lowest_digit (λ z. z) max x y)

-- Induction by halves.
by_halves : (P : ℕ → Type 0) → P 0 → ((x : ℕ) → P (suc x / 2) → P (suc x)) → (n x : ℕ) → x ≤ n → P x
by_halves P base half n zero le = base
by_halves P base half zero (suc x) le = absurd (omega arith)
by_halves P base half (suc n) (suc x) le =
    half x (by_halves P base half n (suc x / 2) (omega arith))

pub zero-bit_or : (y : ℕ) → bit_or 0 y ≡ y
zero-bit_or y = bit_or-bitwise 0 y

pub bit_or-zero : (x : ℕ) → bit_or x 0 ≡ x
bit_or-zero x =
    by_halves (λ (t : ℕ). bit_or t 0 ≡ t) refl (λ t h. omega (arith, bit_or_step (suc t) 0, h)) x x
      (omega arith)

pub zero-bit_and : (y : ℕ) → bit_and 0 y ≡ 0
zero-bit_and y = bit_and-bitwise 0 y

pub bit_and_step : (x y : ℕ) → bit_and x y ≡ bit_and (x / 2) (y / 2) * 2 + min (x % 2) (y % 2)
bit_and_step zero y = omega (arith, zero-bit_and y, zero-bit_and (y / 2))
bit_and_step (suc x) y = simp bit_and-bitwise (lowest_digit (λ _. 0) min x y)

pub bit_and-zero : (x : ℕ) → bit_and x 0 ≡ 0
bit_and-zero x =
    by_halves (λ (t : ℕ). bit_and t 0 ≡ 0) refl (λ t h. omega (arith, bit_and_step (suc t) 0, h)) x
      x (omega arith)

-- One more bit to the left.
shifted_once : (j w : ℕ) → w * 2 ^ suc j ≡ w * 2 ^ j * 2
shifted_once j w = omega (arith, ap (λ (p : ℕ). w * p) (pow-suc 2 j))

-- A word in two parts at bit `k`: both operations work part by part.
pub bit_or_split :
    (k p r m s : ℕ)
    → r < 2 ^ k
    → s < 2 ^ k
    → bit_or (p * 2 ^ k + r) (m * 2 ^ k + s) ≡ bit_or p m * 2 ^ k + bit_or r s
bit_or_split zero p zero m zero hr hs = ground (arith, zero-bit_or 0)
bit_or_split zero p (suc r) m s hr hs = absurd (omega arith)
bit_or_split zero p zero m (suc s) hr hs = absurd (omega arith)
bit_or_split (suc k) p r m s hr hs = ground (
  arith,
  bit_or_step (p * 2 ^ suc k + r) (m * 2 ^ suc k + s),
  bit_or_step r s,
  shifted_once k p,
  shifted_once k m,
  shifted_once k (bit_or p m),
  pow-suc 2 k,
  bit_or_split k p (r / 2) m (s / 2) (omega (arith, pow-suc 2 k)) (omega (arith, pow-suc 2 k)),
)

pub bit_and_split :
    (k p r m s : ℕ)
    → r < 2 ^ k
    → s < 2 ^ k
    → bit_and (p * 2 ^ k + r) (m * 2 ^ k + s) ≡ bit_and p m * 2 ^ k + bit_and r s
bit_and_split zero p zero m zero hr hs = ground (arith, zero-bit_and 0)
bit_and_split zero p (suc r) m s hr hs = absurd (omega arith)
bit_and_split zero p zero m (suc s) hr hs = absurd (omega arith)
bit_and_split (suc k) p r m s hr hs = ground (
  arith,
  bit_and_step (p * 2 ^ suc k + r) (m * 2 ^ suc k + s),
  bit_and_step r s,
  shifted_once k p,
  shifted_once k m,
  shifted_once k (bit_and p m),
  pow-suc 2 k,
  bit_and_split k p (r / 2) m (s / 2) (omega (arith, pow-suc 2 k)) (omega (arith, pow-suc 2 k)),
)

pub bit_or-lt : (k a b : ℕ) → a < 2 ^ k → b < 2 ^ k → bit_or a b < 2 ^ k
bit_or-lt zero zero zero ha hb = omega (arith, zero-bit_or 0)
bit_or-lt zero (suc a) b ha hb = absurd (omega arith)
bit_or-lt zero zero (suc b) ha hb = absurd (omega arith)
bit_or-lt (suc k) a b ha hb = omega (
  arith,
  bit_or_step a b,
  pow-suc 2 k,
  bit_or-lt k (a / 2) (b / 2) (omega (arith, pow-suc 2 k)) (omega (arith, pow-suc 2 k)),
)

pub bit_and-le : (k a b : ℕ) → a < 2 ^ k → bit_and a b ≤ a
bit_and-le zero zero b h = omega (arith, zero-bit_and b)
bit_and-le zero (suc a) b h = absurd (omega arith)
bit_and-le (suc k) a b h = omega (
  arith,
  bit_and_step a b,
  pow-suc 2 k,
  bit_and-le k (a / 2) (b / 2) (omega (arith, pow-suc 2 k)),
)

pub bit_and_mask : (k a : ℕ) → a < 2 ^ k → bit_and a (2 ^ k - 1) ≡ a
bit_and_mask zero zero h = zero-bit_and 0
bit_and_mask zero (suc a) h = absurd (omega arith)
bit_and_mask (suc k) a h = ground (
  arith,
  bit_and_step a (2 ^ suc k - 1),
  pow-suc 2 k,
  one-le-pow k 2,
  bit_and_mask k (a / 2) (omega (arith, pow-suc 2 k)),
)

pub mask_bit_and : (k a : ℕ) → a < 2 ^ k → bit_and (2 ^ k - 1) a ≡ a
mask_bit_and zero zero h = zero-bit_and 0
mask_bit_and zero (suc a) h = absurd (omega arith)
mask_bit_and (suc k) a h = ground (
  arith,
  bit_and_step (2 ^ suc k - 1) a,
  pow-suc 2 k,
  one-le-pow k 2,
  mask_bit_and k (a / 2) (omega (arith, pow-suc 2 k)),
)
