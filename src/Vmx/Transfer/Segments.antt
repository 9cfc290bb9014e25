-- ===== src/Vmx/Transfer/Segments.antt =====
-- The words that hold two fields, and a segment register in the layouts of the page and of the VMCS.
use hedron.Prelude.{
  ℕ, zero, suc, ◌+◌, ◌*◌, ◌/◌, ◌%◌, ◌^◌, ◌<◌, ◌≡◌, bit_and, bit_or, Bool, true, refl, arith, ◌==◌,
  ==_iff, ◌&&◌,
}
use hedron.Word.{word_mod, shr}
use hedron.Prelude.Bits.{and-lt}
use hedron.Timer.{calc_timeout}
use hedron.Utcb.{segment_word, set_vmx, lower, upper, pair}
use hedron.Vmx.Save.{ar_out}

pub pair_lem :
    (x : ℕ) → x < word_mod → pair (x % 2 ^ 32 % 2 ^ 32 % 2 ^ 32) (x / 2 ^ 32 % 2 ^ 32 % 2 ^ 32) ≡ x
pair_lem x h = omega arith

-- the access rights there and back, checked at every value
rights_back : ℕ → Bool
rights_back a =
    let out : ℕ = ar_out a % 2 ^ 32 in
    bit_or (bit_and (shr out 4) 0x1f00) (bit_and out 0xff) % 2 ^ 16 == a

all_below : ℕ → (ℕ → Bool) → Bool
all_below zero p = true
all_below (suc n) p = p n && all_below n p

all_below_lem : (n : ℕ) (p : ℕ → Bool) (x : ℕ) → all_below n p ≡ true → x < n → p x ≡ true
unfolding all_below
all_below_lem zero p x h lt = absurd (omega arith)
all_below_lem (suc n) p x h lt = ground (arith, all_below_lem n p x)

all_rights : all_below 0x2000 rights_back ≡ true
unfolding all_below rights_back ar_out
all_rights = refl

pub segment_word_lem :
    (x b : ℕ)
    → x < word_mod
    → x / 2 ^ 16 % 2 ^ 16 < 2 ^ 13
    → segment_word (
        set_vmx
          (x % 2 ^ 16 % 2 ^ 16)
          b
          (x / 2 ^ 32 % 2 ^ 32)
          (ar_out (x / 2 ^ 16 % 2 ^ 16) % 2 ^ 32))
      ≡ x
unfolding set_vmx segment_word rights_back
segment_word_lem x b h lt =
    let a : ℕ = x / 2 ^ 16 % 2 ^ 16 in
    let out : ℕ = ar_out a % 2 ^ 32 in
    let back =
      (==_iff (bit_or (bit_and (shr out 4) 0x1f00) (bit_and out 0xff) % 2 ^ 16) a).0
        (all_below_lem 0x2000 rights_back a all_rights lt) in
    omega (arith, back)

pub limit_lem :
    (x : ℕ) → x < word_mod → upper (segment_word (set_vmx 0 0 (x / 2 ^ 32 % 2 ^ 32) 0)) ≡ x / 2 ^ 32
unfolding segment_word set_vmx
limit_lem x h = omega arith

-- the event to be injected, without the bits that ask for a window
pub event_lem :
    (x : ℕ)
    → x < word_mod
    → pair (bit_and (x % 2 ^ 32) 0xffff_cfff % 2 ^ 32 % 2 ^ 32) (x / 2 ^ 32 % 2 ^ 32 % 2 ^ 32)
      ≡ pair (bit_and (lower x) 0xffff_cfff) (upper x)
event_lem x h = omega (arith, and-lt 32 (x % 2 ^ 32) 0xffff_cfff (omega arith))

pub lower-pair : (x y : ℕ) → lower (pair (x % 2 ^ 32 % 2 ^ 32 % 2 ^ 32) y) ≡ lower x
lower-pair x y = omega arith

pub status_lem : (x y : ℕ) → (x % 2 ^ 16 % 2 ^ 16 % 2 ^ 16 + y * 2 ^ 16) % 2 ^ 16 ≡ x % 2 ^ 16
status_lem x y = omega arith

pub calc_timeout_small : (t shift : ℕ) → calc_timeout t shift % 2 ^ 32 ≡ calc_timeout t shift
unfolding calc_timeout
calc_timeout_small t shift = ground arith
