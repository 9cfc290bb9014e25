-- ===== src/Prelude/Bits/Masks.antt =====
-- Words bit by bit: the bits of a result of `&`, `|` and `~`, and that words with the same bits are equal.
use Prim.Native.Nat.{ℕ, zero, suc, ◌+◌, ◌-◌, ◌/◌, ◌%◌, ◌^◌, ◌<◌, bit_and, bit_or, bit_xor, min, max}
use mathlib.Core.Path.{◌≡◌, sym, ap, ◌∙◌}
use native.Mathlib.Nat.{pow-succ', div-div-eq-div-mul}
use native.Mathlib.Omega.{arith}
use hedron.Prelude.Bits.Digits.{and_digit, or_digit, xor_digit, xor-zero, and_zero_left, or-zero}

-- bit `k` of a word
abbrev pub bit : ℕ → ℕ → ℕ
bit x k = x / 2 ^ k % 2

pub bit-suc : (x k : ℕ) → bit x (suc k) ≡ bit (x / 2) k
bit-suc x k = rw (pow-succ', ← div-div-eq-div-mul x 2 (2 ^ k))

and-half : (a b : ℕ) → bit_and a b / 2 ≡ bit_and (a / 2) (b / 2)
and-half a b = omega (arith, and_digit a b)

or-half : (a b : ℕ) → bit_or a b / 2 ≡ bit_or (a / 2) (b / 2)
or-half a b = omega (arith, or_digit a b)

pub bit-and : (k a b : ℕ) → bit (bit_and a b) k ≡ min (bit a k) (bit b k)
bit-and zero a b = omega (arith, and_digit a b)
bit-and (suc k) a b =
    rw (bit-suc (bit_and a b) k, bit-suc a k, bit-suc b k)
      (ap (λ (t : ℕ). bit t k) (and-half a b) ∙ bit-and k (a / 2) (b / 2))

pub bit-or : (k a b : ℕ) → bit (bit_or a b) k ≡ max (bit a k) (bit b k)
bit-or zero a b = omega (arith, or_digit a b)
bit-or (suc k) a b =
    rw (bit-suc (bit_or a b) k, bit-suc a k, bit-suc b k)
      (ap (λ (t : ℕ). bit t k) (or-half a b) ∙ bit-or k (a / 2) (b / 2))

xor-half : (a b : ℕ) → bit_xor a b / 2 ≡ bit_xor (a / 2) (b / 2)
xor-half a b = omega (arith, xor_digit a b)

pub bit-xor : (k a b : ℕ) → bit (bit_xor a b) k ≡ (bit a k + bit b k) % 2
bit-xor zero a b = omega (arith, xor_digit a b)
bit-xor (suc k) a b =
    rw (bit-suc (bit_xor a b) k, bit-suc a k, bit-suc b k)
      (ap (λ (t : ℕ). bit t k) (xor-half a b) ∙ bit-xor k (a / 2) (b / 2))

pub bit-inv : (w k m : ℕ) → k < w → m < 2 ^ w → bit (2 ^ w - 1 - m) k ≡ 1 - bit m k
bit-inv zero k m h l = absurd (omega arith)
bit-inv (suc w) zero m h l = omega (arith, pow-succ' 2 w)
bit-inv (suc w) (suc k) m h l =
    let halved : (2 ^ suc w - 1 - m) / 2 ≡ 2 ^ w - 1 - m / 2 = omega (arith, pow-succ' 2 w) in
    rw (bit-suc (2 ^ suc w - 1 - m) k, bit-suc m k)
      (ap (λ (t : ℕ). bit t k) halved
        ∙ bit-inv w k (m / 2) (omega arith) (omega (arith, pow-succ' 2 w)))

pub eq_of_bits : (w a b : ℕ) → a < 2 ^ w → b < 2 ^ w → ((k : ℕ) → k < w → bit a k ≡ bit b k) → a ≡ b
eq_of_bits zero a b h l e = omega arith
eq_of_bits (suc w) a b h l e =
    let low : a % 2 ≡ b % 2 = omega (arith, e 0 (omega arith)) in
    let high : a / 2 ≡ b / 2 =
      eq_of_bits w (a / 2) (b / 2) (omega (arith, pow-succ' 2 w)) (omega (arith, pow-succ' 2 w))
        (λ k lt. sym (bit-suc a k) ∙ e (suc k) (omega arith) ∙ bit-suc b k) in
    omega arith

pub and-lt : (w a b : ℕ) → a < 2 ^ w → bit_and a b < 2 ^ w
and-lt zero a b h = let clear : a ≡ 0 = omega arith in rw clear (omega (arith, and_zero_left b))
and-lt (suc w) a b h =
    omega
      (arith, and_digit a b, pow-succ' 2 w, and-lt w (a / 2) (b / 2) (omega (arith, pow-succ' 2 w)))

xor_nothing : (a b : ℕ) → a ≡ 0 → b ≡ 0 → bit_xor a b ≡ 0
xor_nothing a b h l = rw (h, l) (xor-zero 0)

pub xor-lt : (w a b : ℕ) → a < 2 ^ w → b < 2 ^ w → bit_xor a b < 2 ^ w
xor-lt zero a b h l = omega (arith, xor_nothing a b (omega arith) (omega arith))
xor-lt (suc w) a b h l = omega (
  arith,
  xor_digit a b,
  pow-succ' 2 w,
  xor-lt w (a / 2) (b / 2) (omega (arith, pow-succ' 2 w)) (omega (arith, pow-succ' 2 w)),
)

pub or-lt : (w a b : ℕ) → a < 2 ^ w → b < 2 ^ w → bit_or a b < 2 ^ w
or-lt zero a b h l =
    let clear : a ≡ 0 = omega arith in
    let too : b ≡ 0 = omega arith in rw (clear, too) (omega (arith, or-zero 0))
or-lt (suc w) a b h l = omega (
  arith,
  or_digit a b,
  pow-succ' 2 w,
  or-lt w (a / 2) (b / 2) (omega (arith, pow-succ' 2 w)) (omega (arith, pow-succ' 2 w)),
)

pub bit-zero : (k : ℕ) → bit 0 k ≡ 0
bit-zero zero = omega arith
bit-zero (suc k) = bit-suc 0 k ∙ bit-zero k

-- What a mask cuts away is gone.
pub and-inv-and : (w x m : ℕ) → x < 2 ^ w → m < 2 ^ w → bit_and (bit_and x (2 ^ w - 1 - m)) m ≡ 0
and-inv-and w x m h l =
    let c : ℕ = 2 ^ w - 1 - m in
    eq_of_bits w (bit_and (bit_and x c) m) 0 (and-lt w (bit_and x c) m (and-lt w x c h))
      (omega arith)
      λ k lt.
        omega (arith, bit-and k (bit_and x c) m, bit-and k x c, bit-inv w k m lt l, bit-zero k)

-- A register read through a mask: the bits under the mask come from a copy `v` of what was written,
-- the others from the value written, whose bits under the mask were replaced by those of `s`, all of
-- them under the mask; the bits `p` are left to the value.
pub merge_lem :
    (w v m p s : ℕ)
    → v < 2 ^ w
    → m < 2 ^ w
    → p < 2 ^ w
    → s < 2 ^ w
    → bit_and s (2 ^ w - 1 - m) ≡ 0
    → bit_or
        (bit_and
          (bit_or (bit_and v (bit_or (2 ^ w - 1 - m) p)) (bit_and s (2 ^ w - 1 - p)))
          (2 ^ w - 1 - m))
        (bit_and v m)
      ≡ v
merge_lem w v m p s hv hm hp hs under =
    let c : ℕ = 2 ^ w - 1 - m in
    let d : ℕ = 2 ^ w - 1 - p in
    let x : ℕ = bit_and v (bit_or c p) in
    let y : ℕ = bit_and s d in
    eq_of_bits w _ v
      (or-lt w _ _ (and-lt w _ c (or-lt w x y (and-lt w v _ hv) (and-lt w s d hs)))
        (and-lt w v m hv))
      hv
      λ k lt. omega (
        arith,
        bit-or k (bit_and (bit_or x y) c) (bit_and v m),
        bit-and k (bit_or x y) c,
        bit-or k x y,
        bit-and k v (bit_or c p),
        bit-or k c p,
        bit-and k s d,
        bit-and k v m,
        bit-inv w k m lt hm,
        bit-inv w k p lt hp,
        bit-and k s c,
        ap (λ (t : ℕ). bit t k) under,
        bit-zero k,
      )

-- The same with no bits left to the value.
pub merge_fixed_lem :
    (w v m s : ℕ)
    → v < 2 ^ w
    → m < 2 ^ w
    → s < 2 ^ w
    → bit_and s (2 ^ w - 1 - m) ≡ 0
    → bit_or (bit_and (bit_or (bit_and v (2 ^ w - 1 - m)) s) (2 ^ w - 1 - m)) (bit_and v m) ≡ v
merge_fixed_lem w v m s hv hm hs under =
    let c : ℕ = 2 ^ w - 1 - m in
    let x : ℕ = bit_and v c in
    eq_of_bits w _ v
      (or-lt w _ _ (and-lt w _ c (or-lt w x s (and-lt w v c hv) hs)) (and-lt w v m hv)) hv
      λ k lt. omega (
        arith,
        bit-or k (bit_and (bit_or x s) c) (bit_and v m),
        bit-and k (bit_or x s) c,
        bit-or k x s,
        bit-and k v c,
        bit-and k v m,
        bit-inv w k m lt hm,
        bit-and k s c,
        ap (λ (t : ℕ). bit t k) under,
        bit-zero k,
      )
