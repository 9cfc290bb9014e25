-- ===== src/Word/Laws.antt =====
-- Masks and aligned ranges of words as arithmetic.
use native.Mathlib.Nat.{
  pow-le-pow_right, pow-succ', div-div-eq-div-mul, div-add-mod', mod-lt, mul_assoc, mod-mod_of_dvd,
  mul-mod_left,
}
use hedron.Prelude.{
  ℕ, zero, suc, ◌+◌, ◌-◌, ◌*◌, ◌/◌, ◌%◌, ◌^◌, ◌≤◌, ◌<◌, ◌≡◌, ◌∙◌, ◌↔◌, bit_and, bit_or, arith, sym,
  ap, ◌⊎◌, inl, inr, true,
}
use hedron.Prelude.Bits.{and_mask, and_split, and_bit, pow_pos, or_low}
use hedron.Word.{word_mod, ones, inv, low_ones, has_bits}

pub pow-add : (j k : ℕ) → 2 ^ (j + k) ≡ 2 ^ j * 2 ^ k
pow-add zero k = let e : 0 + k ≡ k = omega arith in rw e (omega arith)
pow-add (suc j) k =
    let e : suc j + k ≡ suc (j + k) = omega arith in
    rw e (
      omega (
        arith,
        pow-succ' 2 (j + k),
        pow-succ' 2 j,
        ap (λ (t : ℕ). 2 * t) (pow-add j k),
        mul_assoc 2 (2 ^ j) (2 ^ k),
        ap (λ (t : ℕ). t * 2 ^ k) (pow-succ' 2 j),
      ))

-- A larger power of two is a multiple of a smaller one.
pub pow_multiple : (j k : ℕ) → j ≤ k → 2 ^ k ≡ 2 ^ j * 2 ^ (k - j)
pow_multiple j k h =
    let e : j + (k - j) ≡ k = omega arith in ap (λ (t : ℕ). 2 ^ t) (sym e) ∙ pow-add j (k - j)

pub pow-lt_word : (k : ℕ) → k < 64 → 2 ^ k < word_mod
pow-lt_word k h =
    omega (
      arith,
      pow-le-pow_right {n = 2} (omega arith) {i = suc k} {j = 64} h,
      pow-succ' 2 k,
      pow_pos k,
    )

pub low_ones_lem : (k : ℕ) → k < 64 → low_ones k ≡ 2 ^ k - 1
low_ones_lem k h = omega (arith, pow-lt_word k h, pow_pos k)

-- `x & ((1UL << k) - 1)` and `x & ~((1UL << k) - 1)`
pub and-low_ones : (x k : ℕ) → k < 64 → bit_and x (low_ones k) ≡ x % 2 ^ k
and-low_ones x k h = ap (bit_and x) (low_ones_lem k h) ∙ and_mask k x

pub and-inv-low_ones :
    (x k : ℕ) → x < word_mod → k < 64 → bit_and x (inv (low_ones k)) ≡ x - x % 2 ^ k
and-inv-low_ones x k hx h =
    ap (λ (t : ℕ). bit_and x (ones - t)) (low_ones_lem k h)
    ∙ omega (arith, and_mask k x, and_split 64 x (2 ^ k - 1) hx (omega (arith, pow-lt_word k h)))

-- The words that an aligned block of order `k` at `b` holds.
abbrev pub Within : ℕ → ℕ → ℕ → Type 0
Within b k x = (b ≤ x) × (x < b + 2 ^ k)

quotient_unique : (p q r : ℕ) → q * p < r * p + p → r * p < q * p + p → q ≡ r
quotient_unique p q r h k = grind arith

-- Such a block holds the words with its own quotient.
pub Within-iff : (b k x : ℕ) → b % 2 ^ k ≡ 0 → Within b k x ↔ (x / 2 ^ k ≡ b / 2 ^ k)
Within-iff b k x h = (
  λ w.
      quotient_unique (2 ^ k) (x / 2 ^ k) (b / 2 ^ k)
        (omega (arith, div-add-mod' x (2 ^ k), div-add-mod' b (2 ^ k)))
        (omega (
          arith,
          div-add-mod' x (2 ^ k),
          div-add-mod' b (2 ^ k),
          mod-lt x {m = 2 ^ k} (pow_pos k),
        )),
  λ e. omega (
    arith,
    ap (λ (t : ℕ). t * 2 ^ k) e,
    div-add-mod' x (2 ^ k),
    div-add-mod' b (2 ^ k),
    mod-lt x {m = 2 ^ k} (pow_pos k),
  ),
)

-- Words that share a block share every larger one.
pub same_block_coarser : (j k x y : ℕ) → j ≤ k → x / 2 ^ j ≡ y / 2 ^ j → x / 2 ^ k ≡ y / 2 ^ k
same_block_coarser j k x y h e =
    rw
      (
        pow_multiple j k h,
        ← div-div-eq-div-mul x (2 ^ j) (2 ^ (k - j)),
        ← div-div-eq-div-mul y (2 ^ j) (2 ^ (k - j)),
      )
      (ap (λ (t : ℕ). t / 2 ^ (k - j)) e)

-- `if (x & (1 << k))`
pub has_bit_iff : (x k : ℕ) → (has_bits x (2 ^ k) ≡ true) ↔ (x / 2 ^ k % 2 ≡ 1)
has_bit_iff x k = rw (and_bit k x) (elim (parity (x / 2 ^ k % 2) (omega arith)) [
  | inl e ↦ rw e (ground arith)
  | inr e ↦ rw e (ground (arith, pow_pos k))
])
  where
    parity : (n : ℕ) → n < 2 → (n ≡ 0) ⊎ (n ≡ 1)
    parity n h = omega arith

-- An aligned word joined with a small one.
pub or_aligned : (k o r : ℕ) → o % 2 ^ k ≡ 0 → r < 2 ^ k → bit_or o r ≡ o + r
or_aligned k o r h lt =
    let e : o / 2 ^ k * 2 ^ k ≡ o = omega (arith, div-add-mod' o (2 ^ k)) in
    ap (λ (t : ℕ). bit_or t r) (sym e) ∙ or_low k (o / 2 ^ k) r lt ∙ ap (λ (t : ℕ). t + r) e

pub mod_pow_mod : (j k x : ℕ) → j ≤ k → x % 2 ^ k % 2 ^ j ≡ x % 2 ^ j
mod_pow_mod j k x h = mod-mod_of_dvd (2 ^ j) x ∣ (2 ^ (k - j), pow_multiple j k h) ∣₁

pub pow_mono : (j k : ℕ) → j < k → 2 ^ j < 2 ^ k
pow_mono j k h =
    omega (
      arith,
      pow-le-pow_right {n = 2} (omega arith) {i = suc j} {j = k} h,
      pow-succ' 2 j,
      pow_pos j,
    )

-- Rounding down gives a multiple.
pub aligned_base : (b k : ℕ) → (b - b % 2 ^ k) % 2 ^ k ≡ 0
aligned_base b k =
    let e : b - b % 2 ^ k ≡ b / 2 ^ k * 2 ^ k = omega (arith, div-add-mod' b (2 ^ k)) in
    ap (λ (t : ℕ). t % 2 ^ k) e ∙ mul-mod_left (b / 2 ^ k) (2 ^ k)
