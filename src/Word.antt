-- ===== src/Word.antt =====
-- Machine words of the hypervisor: `mword` is 64 bits wide. A word is a number below 2 ^ 64; the
-- operators of C++ that wrap or invert are written out here (include/types.hpp, include/math.hpp).
pub mod Laws
use hedron.Prelude.{
  ℕ, zero, suc, ◌+◌, ◌-◌, ◌*◌, ◌/◌, ◌%◌, ◌^◌, Bool, bit_and, Option, none, some, if◌then◌else◌,
  ◌==◌, ltb,
}

abbrev pub word_mod : ℕ
word_mod = 2 ^ 64

-- ~0UL
abbrev pub ones : ℕ
ones = 0xffff_ffff_ffff_ffff

-- x << k, x >> k, ~x, a + b, a - b
abbrev pub shl : ℕ → ℕ → ℕ
shl x k = x * 2 ^ k % word_mod

abbrev pub shr : ℕ → ℕ → ℕ
shr x k = x / 2 ^ k

abbrev pub inv : ℕ → ℕ
inv x = ones - x

abbrev pub add64 : ℕ → ℕ → ℕ
add64 a b = (a + b) % word_mod

abbrev pub sub64 : ℕ → ℕ → ℕ
sub64 a b = (a + word_mod - b) % word_mod

-- (1UL << k) - 1
abbrev pub low_ones : ℕ → ℕ
low_ones k = sub64 (shl 1 k) 1

-- a test such as `if (x & m)`
abbrev pub has_bits : ℕ → ℕ → Bool
has_bits x m = ltb 0 (bit_and x m)
