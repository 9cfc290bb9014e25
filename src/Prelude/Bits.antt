-- ===== src/Prelude/Bits.antt =====
-- Laws of `&`, `|` and `^` on machine words, at variables: shifts, masks, fields, single bits.
mod Digits
mod Masks
pub use Digits.*
pub use Masks.*
use Prim.Native.Nat.{ℕ, zero, suc, ◌+◌, ◌-◌, ◌*◌, ◌/◌, ◌%◌, ◌^◌, ◌≤◌, ◌<◌, bit_and, bit_or, bit_xor}
use mathlib.Core.Path.{◌≡◌, refl, ap, ◌∙◌}
use mathlib.Core.Logic.{◌↔◌}
use native.Mathlib.Nat.{pow-succ', one-le-pow, div-add-mod', div-div-eq-div-mul}
use native.Mathlib.Omega.{arith}

div-one : (a : ℕ) → a / 2 ^ 0 ≡ a
div-one a = omega arith

pub pow_pos : (k : ℕ) → 0 < 2 ^ k
pow_pos k = one-le-pow k 2 (omega arith)

-- Shifting by one more place.
div-pow-suc : (a k : ℕ) → a / 2 ^ suc k ≡ a / 2 / 2 ^ k
div-pow-suc a k = rw (pow-succ', ← div-div-eq-div-mul a 2 (2 ^ k))

xor-half : (a b : ℕ) → bit_xor a b / 2 ≡ bit_xor (a / 2) (b / 2)
xor-half a b = omega (arith, xor_digit a b)

-- A shift goes through an exclusive or.
xor-shift : (k a b : ℕ) → bit_xor a b / 2 ^ k ≡ bit_xor (a / 2 ^ k) (b / 2 ^ k)
xor-shift zero a b = rw (div-one (bit_xor a b), div-one a, div-one b)
xor-shift (suc k) a b =
    rw (div-pow-suc (bit_xor a b) k, div-pow-suc a k, div-pow-suc b k)
      (ap (λ (t : ℕ). t / 2 ^ k) (xor-half a b) ∙ xor-shift k (a / 2) (b / 2))

-- Words agree above bit `k` exactly when nothing of their exclusive or is left above it.
pub xor-shift-zero : (k a b : ℕ) → (bit_xor a b / 2 ^ k ≡ 0) ↔ (a / 2 ^ k ≡ b / 2 ^ k)
xor-shift-zero k a b = rw (xor-shift k a b) (xor-eq-zero (a / 2 ^ k) (b / 2 ^ k))

half_pow : (k : ℕ) → 2 ^ suc k / 2 ≡ 2 ^ k
half_pow k = omega (arith, pow-succ' 2 k)

double-pow : (q k : ℕ) → q * 2 ^ suc k ≡ 2 * (q * 2 ^ k)
double-pow q k = omega (arith, ap (λ (t : ℕ). q * t) (pow-succ' 2 k))

-- Flipping a clear bit adds its weight.
pub xor_bit_clear : (k a : ℕ) → a / 2 ^ k % 2 ≡ 0 → bit_xor a (2 ^ k) ≡ a + 2 ^ k
xor_bit_clear zero a h = omega (arith, xor_digit a 1, xor-zero (a / 2))
xor_bit_clear (suc k) a h =
    let ih = xor_bit_clear k (a / 2) (rw (← div-pow-suc a k) h) in
    omega (
      arith,
      xor_digit a (2 ^ suc k),
      ih,
      pow-succ' 2 k,
      half_pow k,
      ap (bit_xor (a / 2)) (half_pow k),
    )

-- Flipping a set bit takes its weight away.
pub xor_bit_set : (k a : ℕ) → a / 2 ^ k % 2 ≡ 1 → bit_xor a (2 ^ k) + 2 ^ k ≡ a
xor_bit_set zero a h = omega (arith, xor_digit a 1, xor-zero (a / 2))
xor_bit_set (suc k) a h =
    let ih = xor_bit_set k (a / 2) (rw (← div-pow-suc a k) h) in
    omega (
      arith,
      xor_digit a (2 ^ suc k),
      ih,
      pow-succ' 2 k,
      half_pow k,
      ap (bit_xor (a / 2)) (half_pow k),
    )

-- `(q << k) | (p << k | r)` joins the high parts and keeps a low part of `k` bits.
pub or_fields :
    (k q p r : ℕ) → r < 2 ^ k → bit_or (q * 2 ^ k) (p * 2 ^ k + r) ≡ bit_or q p * 2 ^ k + r
or_fields zero q p r h =
    let high : q * 2 ^ 0 ≡ q = omega arith in
    let low : p * 2 ^ 0 + r ≡ p = omega arith in rw (high, low) (omega arith)
or_fields (suc k) q p r h = ground (
  arith,
  or_digit (q * 2 ^ suc k) (p * 2 ^ suc k + r),
  double-pow q k,
  double-pow p k,
  double-pow (bit_or q p) k,
  pow-succ' 2 k,
  or_fields k q p (r / 2),
)

-- `x & m` and `x & ~m` split a word of `w` bits.
pub and_split : (w x m : ℕ) → x < 2 ^ w → m < 2 ^ w → bit_and x m + bit_and x (2 ^ w - 1 - m) ≡ x
and_split zero x m h k =
    let none_set : x ≡ 0 = omega arith in
    rw none_set (omega (arith, and_zero_left m, and_zero_left (2 ^ 0 - 1 - m)))
and_split (suc w) x m h k = ground (
  arith,
  and_digit x m,
  and_digit x (2 ^ suc w - 1 - m),
  pow-succ' 2 w,
  pow_pos w,
  and_split w (x / 2) (m / 2),
)

mod_pow_suc : (a k : ℕ) → a % 2 ^ suc k ≡ a / 2 % 2 ^ k * 2 + a % 2
mod_pow_suc a k = omega (
  arith,
  div-add-mod' a (2 ^ suc k),
  div-add-mod' (a / 2) (2 ^ k),
  double-pow (a / 2 / 2 ^ k) k,
  ap (λ (t : ℕ). t * 2 ^ suc k) (div-pow-suc a k),
)

-- A mask of `k` low ones takes the remainder.
pub and_mask : (k a : ℕ) → bit_and a (2 ^ k - 1) ≡ a % 2 ^ k
and_mask zero a = omega (arith, and-zero a)
and_mask (suc k) a =
    let half_mask : (2 ^ suc k - 1) / 2 ≡ 2 ^ k - 1 = omega (arith, pow-succ' 2 k, pow_pos k) in
    omega (
      arith,
      and_digit a (2 ^ suc k - 1),
      ap (bit_and (a / 2)) half_mask,
      and_mask k (a / 2),
      pow-succ' 2 k,
      pow_pos k,
      mod_pow_suc a k,
    )

-- `(q << k) | r` is a sum where `r` fits `k` bits.
pub or_low : (k q r : ℕ) → r < 2 ^ k → bit_or (q * 2 ^ k) r ≡ q * 2 ^ k + r
or_low k q r h =
    let low : 0 * 2 ^ k + r ≡ r = omega arith in
    omega (
      arith,
      ap (bit_or (q * 2 ^ k)) low,
      or_fields k q 0 r h,
      ap (λ (t : ℕ). t * 2 ^ k) (or-zero q),
    )

-- A mask of one bit.
pub and_bit : (k a : ℕ) → bit_and a (2 ^ k) ≡ a / 2 ^ k % 2 * 2 ^ k
and_bit zero a = omega (arith, and_mask 1 a)
and_bit (suc k) a = omega (
  arith,
  and_digit a (2 ^ suc k),
  ap (bit_and (a / 2)) (half_pow k),
  pow-succ' 2 k,
  and_bit k (a / 2),
  double-pow (a / 2 / 2 ^ k % 2) k,
  ap (λ (t : ℕ). t % 2 * 2 ^ suc k) (div-pow-suc a k),
)
