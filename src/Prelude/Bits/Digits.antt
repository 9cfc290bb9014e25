-- ===== src/Prelude/Bits/Digits.antt =====
-- `&`, `|` and `^` digit by digit, and the laws that follow by halving: units, `x | x`, `x ^ x`.
use Prim.Native.Nat.{
  ℕ, zero, suc, ◌+◌, ◌*◌, ◌/◌, ◌%◌, ◌≤◌, ◌<◌, min, max, bit_and, bit_or, bit_xor, digits, bitwise,
  differ, bit_and-bitwise, bit_or-bitwise, bit_xor-bitwise,
}
use mathlib.Core.Path.{◌≡◌, refl, ap, ◌∙◌}
use mathlib.Core.Logic.{◌↔◌}
use native.Mathlib.Omega.{arith}

module _ (z : ℕ → ℕ) (f : ℕ → ℕ → ℕ) where
  -- Any two amounts of fuel that cover the first number give the same digits.
  same_digits : (n m a b : ℕ) → a ≤ n → a ≤ m → digits z f n a b ≡ digits z f m a b
  same_digits zero zero a b _ _ = refl
  same_digits zero (suc m) zero b _ _ = refl
  same_digits (suc n) zero zero b _ _ = refl
  same_digits (suc n) (suc m) zero b _ _ = refl
  same_digits zero (suc m) (suc a) b h _ = absurd (omega arith)
  same_digits (suc n) zero (suc a) b _ h = absurd (omega arith)
  same_digits (suc n) (suc m) (suc a) b h k =
      ap (λ (t : ℕ). t * 2 + f (suc a % 2) (b % 2))
        (same_digits n m (suc a / 2) (b / 2) (omega arith) (omega arith))

  low_digit :
      (a b : ℕ)
      → bitwise z f (suc a) b ≡ bitwise z f (suc a / 2) (b / 2) * 2 + f (suc a % 2) (b % 2)
  low_digit a b =
      ap (λ (t : ℕ). t * 2 + f (suc a % 2) (b % 2))
        (same_digits a (suc a / 2) (suc a / 2) (b / 2) (omega arith) (omega arith))

-- The lowest digit apart, for each operation.
pub and_digit : (a b : ℕ) → bit_and a b ≡ bit_and (a / 2) (b / 2) * 2 + min (a % 2) (b % 2)
and_digit zero b = simp bit_and-bitwise (omega arith)
and_digit (suc a) b = simp bit_and-bitwise (low_digit (λ _. 0) min a b)

pub or_digit : (a b : ℕ) → bit_or a b ≡ bit_or (a / 2) (b / 2) * 2 + max (a % 2) (b % 2)
or_digit zero b = simp bit_or-bitwise (omega arith)
or_digit (suc a) b = simp bit_or-bitwise (low_digit (λ y. y) max a b)

differ_digits : (x y : ℕ) → x < 2 → y < 2 → differ x y ≡ (x + y) % 2
differ_digits zero y _ h = omega arith
differ_digits (suc zero) zero _ _ = refl
differ_digits (suc zero) (suc zero) _ _ = refl
differ_digits (suc zero) (suc (suc y)) _ h = absurd (omega arith)
differ_digits (suc (suc x)) y h _ = absurd (omega arith)

pub xor_digit : (a b : ℕ) → bit_xor a b ≡ bit_xor (a / 2) (b / 2) * 2 + (a % 2 + b % 2) % 2
xor_digit zero b = simp bit_xor-bitwise (omega arith)
xor_digit (suc a) b = simp bit_xor-bitwise (
    low_digit (λ y. y) differ a b
    ∙ ap (λ (t : ℕ). bitwise (λ y. y) differ (suc a / 2) (b / 2) * 2 + t)
        (differ_digits (suc a % 2) (b % 2) (omega arith) (omega arith)))

-- Induction on a bound of the number, which halves.
xor-zero_below : (n a : ℕ) → a ≤ n → bit_xor a 0 ≡ a
xor-zero_below zero zero h = refl
xor-zero_below zero (suc a) h = absurd (omega arith)
xor-zero_below (suc n) a h = omega (arith, xor_digit a 0, xor-zero_below n (a / 2) (omega arith))

pub xor-zero : (a : ℕ) → bit_xor a 0 ≡ a
xor-zero a = xor-zero_below a a (omega arith)

or-zero_below : (n a : ℕ) → a ≤ n → bit_or a 0 ≡ a
or-zero_below zero zero h = refl
or-zero_below zero (suc a) h = absurd (omega arith)
or-zero_below (suc n) a h = omega (arith, or_digit a 0, or-zero_below n (a / 2) (omega arith))

pub or-zero : (a : ℕ) → bit_or a 0 ≡ a
or-zero a = or-zero_below a a (omega arith)

and-zero_below : (n a : ℕ) → a ≤ n → bit_and a 0 ≡ 0
and-zero_below zero zero h = refl
and-zero_below zero (suc a) h = absurd (omega arith)
and-zero_below (suc n) a h = omega (arith, and_digit a 0, and-zero_below n (a / 2) (omega arith))

pub and-zero : (a : ℕ) → bit_and a 0 ≡ 0
and-zero a = and-zero_below a a (omega arith)

xor-eq-zero_below : (n a b : ℕ) → a ≤ n → b ≤ n → bit_xor a b ≡ 0 → a ≡ b
xor-eq-zero_below zero a b h k e = omega arith
xor-eq-zero_below (suc n) a b h k e = omega (
  arith,
  xor_digit a b,
  xor-eq-zero_below n (a / 2) (b / 2) (omega arith) (omega arith) (omega (arith, xor_digit a b)),
)

xor-self_below : (n a : ℕ) → a ≤ n → bit_xor a a ≡ 0
xor-self_below zero a h = omega (arith, xor_digit a a, xor-zero 0, zero_case a (omega arith))
  where
    zero_case : (x : ℕ) → x ≡ 0 → bit_xor x x ≡ 0
    zero_case x e = rw e refl
xor-self_below (suc n) a h = omega (arith, xor_digit a a, xor-self_below n (a / 2) (omega arith))

-- Two words are equal exactly when their exclusive or is zero.
pub xor-eq-zero : (a b : ℕ) → (bit_xor a b ≡ 0) ↔ (a ≡ b)
xor-eq-zero a b = (
  xor-eq-zero_below (a + b) a b (omega arith) (omega arith),
  λ e. rw e (xor-self_below b b (omega arith)),
)

or-self_below : (n a : ℕ) → a ≤ n → bit_or a a ≡ a
or-self_below zero zero h = refl
or-self_below zero (suc a) h = absurd (omega arith)
or-self_below (suc n) a h = omega (arith, or_digit a a, or-self_below n (a / 2) (omega arith))

or-comm_below : (n a b : ℕ) → a ≤ n → b ≤ n → bit_or a b ≡ bit_or b a
or-comm_below zero zero zero h k = refl
or-comm_below zero (suc a) b h k = absurd (omega arith)
or-comm_below zero zero (suc b) h k = absurd (omega arith)
or-comm_below (suc n) a b h k =
    omega (
      arith,
      or_digit a b,
      or_digit b a,
      or-comm_below n (a / 2) (b / 2) (omega arith) (omega arith),
    )

pub or_comm : (a b : ℕ) → bit_or a b ≡ bit_or b a
or_comm a b = or-comm_below (a + b) a b (omega arith) (omega arith)

pub or_self : (a : ℕ) → bit_or a a ≡ a
or_self a = or-self_below a a (omega arith)

pub and_zero_left : (b : ℕ) → bit_and 0 b ≡ 0
and_zero_left b = simp bit_and-bitwise
