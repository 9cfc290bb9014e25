-- ===== src/Timer/Timeout.antt =====
-- The timeout is the time, rounded up, as far as it fits.
use hedron.Prelude.{
  ℕ, ◌+◌, ◌-◌, ◌/◌, ◌%◌, ◌^◌, ◌<◌, ◌≤◌, ◌≡◌, min, arith, if◌then◌else◌, ◌==◌, ltb, not, lt→ltb,
}
use hedron.Word.{word_mod, low_ones, add64}
use hedron.Word.Laws.{low_ones_lem, pow_mono}
use hedron.Prelude.Bits.{pow_pos}
use native.Mathlib.Decide.{dec_lt}
use native.Mathlib.Nat.{le-div_iff_mul-le}
use hedron.Timer.{max_uint32, calc_timeout}

clamp_arith :
    (t x q : ℕ)
    → t ≤ x
    → (if ltb x t then max_uint32 else if not (q == q % 2 ^ 32) then max_uint32 else q % 2 ^ 32)
      ≡ min q max_uint32
clamp_arith t x q h = ground arith

-- With the unit `p` and the mask `m`.
timeout_arith :
    (t p m : ℕ)
    → t < word_mod
    → m ≡ p - 1
    → p < 2 ^ 32
    → 0 < p
    → (if ltb (add64 t m) t
        then max_uint32
        else (let r = add64 t m / p in if not (r == r % 2 ^ 32) then max_uint32 else r % 2 ^ 32))
      ≡ min ((t + (p - 1)) / p) max_uint32
timeout_arith t p m h e l pos = elim (dec_lt (t + (p - 1)) word_mod) [
  | yes small ↦
      let x : add64 t m ≡ t + (p - 1) = omega arith in
      rw x (clamp_arith t (t + (p - 1)) ((t + (p - 1)) / p) (omega arith))
  | no large ↦
      let q : max_uint32 ≤ (t + (p - 1)) / p =
        (le-div_iff_mul-le {x = max_uint32} pos).1 (omega arith) in
      rw (lt→ltb (add64 t m) t (omega arith)) (omega arith)
]

-- In units of 2 ^ `shift`, and in 32 bits: for a shift that the processor can report, which is below 32, the
-- result is the number of units that cover the ticks, or the largest where that is too large.
pub calc_timeout_lem :
    (tsc_ticks shift : ℕ)
    → tsc_ticks < word_mod
    → shift < 32
    → calc_timeout tsc_ticks shift ≡ min ((tsc_ticks + (2 ^ shift - 1)) / 2 ^ shift) max_uint32
unfolding calc_timeout
calc_timeout_lem t s h l =
    timeout_arith t (2 ^ s) (low_ones s) h (low_ones_lem s (omega arith)) (pow_mono s 32 l)
      (pow_pos s)
