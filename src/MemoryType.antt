-- ===== src/MemoryType.antt =====
-- The memory types of physical addresses: include/generic_mtrr.hpp. `read` is the access to a
-- model-specific register, the template's parameter, and the state is what `init` reads.
pub mod Variable
use hedron.Prelude.{
  ℕ, zero, suc, ◌+◌, ◌-◌, ◌*◌, ◌/◌, ◌%◌, ◌^◌, min, bit_and, bit_or, bit_xor, Bool, List, [], ◌∷◌,
  Option, none, some, ◌&&◌, not, if◌then◌else◌, ◌==◌, ltb, leb, length, ◌++◌,
}
use hedron.Word.{ones, inv, shl, shr, add64, has_bits}

-- A variable range
pub record Mtrr : Type 0 where
  pub base : ℕ
  pub mask : ℕ

unfoldable pub valid : Mtrr → Bool
valid m = has_bits m.mask 0x800

-- The lowest bit set, among the first `n`
unfoldable bit_scan_forward : ℕ → ℕ → ℕ
bit_scan_forward zero x = 0
bit_scan_forward (suc n) x =
    let rest = suc (bit_scan_forward n (x / 2)) in if x % 2 == 1 then 0 else rest

-- In bytes
unfoldable pub size : Mtrr → ℕ
unfolding bit_scan_forward
size m = shl 1 (bit_scan_forward 64 (shr m.mask 12) + 12)

pub record MtrrState : Type 0 where
  pub var_mtrr : List Mtrr
  pub default_type : ℕ

-- IA32_MTRR_CAP, IA32_MTRR_DEF_TYPE, IA32_MTRR_PHYS_BASE, IA32_MTRR_PHYS_MASK are 0xfe, 0x2ff, 0x200
-- and 0x201; `n` ranges from the one at `i` are read, and the valid ones kept.
var_ranges : (ℕ → ℕ) → ℕ → ℕ → List Mtrr
unfolding valid
var_ranges read i zero = []
var_ranges read i (suc n) =
    let m : Mtrr = record { base = read (0x200 + 2 * i); mask = read (0x201 + 2 * i) } in
    let rest = var_ranges read (suc i) n in if valid m then m ∷ rest else rest

-- `init`; `none` when more than 16 ranges are valid, which `Static_vector` asserts
unfoldable pub init : (ℕ → ℕ) → Option MtrrState
unfolding var_ranges
init read =
    let rs = var_ranges read 0 (bit_and (read 0xfe) 0xff) in
    if leb (length rs) 16
    then some (record { var_mtrr = rs; default_type = bit_and (read 0x2ff) 0xff })
    else none

unfoldable pub matches : ℕ → Mtrr → Bool
matches phys m =
    not (ltb phys (bit_and m.base (inv 0xfff)))
    && shr (bit_and (bit_xor phys m.base) m.mask) 12 == 0

-- One variable range changes the type and the end of the region.
unfoldable pub apply_range : ℕ → Mtrr → ℕ × ℕ → ℕ × ℕ
unfolding size matches
apply_range phys m (type, next) =
    let base = bit_and m.base (inv 0xfff) in
    if ltb phys base
    then (type, min next base)
    else if matches phys m
    then (min type (bit_and (m.base % 2 ^ 32) 0xff), min next (add64 base (size m)))
    else (type, next)

unfoldable pub var_type : ℕ → List Mtrr → ℕ × ℕ → ℕ × ℕ
unfolding apply_range
var_type phys [] acc = acc
var_type phys (m ∷ ms) acc = var_type phys ms (apply_range phys m acc)

-- A byte of the register of a fixed range
byte_at : ℕ → ℕ → ℕ
byte_at v k = bit_and (shr v k % 2 ^ 32) 0xff

-- `memtype(phys, next)`: the type, and `next`
unfoldable pub memtype : (ℕ → ℕ) → MtrrState → ℕ → ℕ × ℕ
unfolding var_type byte_at
memtype read s phys =
    if ltb phys 0x80000
    then (byte_at (read 0x250) (bit_and (shr phys 13) 0x38), 1 + bit_or phys 0xffff)
    else if ltb phys 0xc0000
    then (
      byte_at (read (0x258 + bit_and (shr phys 17) 0x1)) (bit_and (shr phys 11) 0x38),
      1 + bit_or phys 0x3fff,
    )
    else if ltb phys 0x100000
    then (
      byte_at (read (0x268 + bit_and (shr phys 15) 0x7)) (bit_and (shr phys 9) 0x38),
      1 + bit_or phys 0xfff,
    )
    else (let (type, next) = var_type phys s.var_mtrr (0xffff_ffff, ones) in
        (if type == 0xffff_ffff then s.default_type else type, next))
