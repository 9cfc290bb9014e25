-- ===== src/Vmx/Masks.antt =====
-- A guest reads its control registers back as it wrote them, whatever bits the processor fixes.
use hedron.Prelude.{
  ℕ, zero, suc, min, max, ◌-◌, ◌<◌, ◌^◌, ◌≡◌, ◌≢◌, ◌⊎◌, inl, inr, if◌then◌else◌, ◌==◌, bit_and,
  bit_or, some, refl, arith, ap, ◌∙◌,
}
use hedron.Prelude.Bits.{
  merge_lem, merge_fixed_lem, eq_of_bits, bit, bit-and, bit-or, bit-inv, bit-zero, bit-suc, and-lt,
  or-lt,
}
use native.Mathlib.Decide.{ℕ_discrete}
use hedron.Word.{word_mod}
use hedron.Vmx.{Vmx, write}
use hedron.Vmx.Encoding.{guest_cr0, guest_cr3, guest_cr4}
use hedron.Vmx.Control.{
  get_cr0, get_cr4, set_cr0, set_cr4, read_cr, write_cr, cr0_pe, guest_cr0_value, guest_cr4_value,
}

-- The fixed bits are words.
pub record Words (s : Vmx) : Type 0 where
  pub set_0 : s.fixed.cr0_set < 2 ^ 64
  pub clr_0 : s.fixed.cr0_clr < 2 ^ 64
  pub set_4 : s.fixed.cr4_set < 2 ^ 64
  pub clr_4 : s.fixed.cr4_clr < 2 ^ 64

-- A part of a mask is not outside of it.
part-outside :
    (c s : ℕ) → c < 2 ^ 64 → s < 2 ^ 64 → bit_and s (2 ^ 64 - 1 - bit_or (bit_or c s) 0) ≡ 0
part-outside c s hc hs =
    let m : ℕ = bit_or (bit_or c s) 0 in
    let hm : m < 2 ^ 64 = or-lt 64 _ 0 (or-lt 64 c s hc hs) (omega arith) in
    eq_of_bits 64 (bit_and s (2 ^ 64 - 1 - m)) 0 (and-lt 64 s _ hs) (omega arith) λ k lt. omega (
      arith,
      bit-and k s (2 ^ 64 - 1 - m),
      bit-inv 64 k m lt hm,
      bit-or k (bit_or c s) 0,
      bit-or k c s,
      bit-zero k,
    )

pub get-set_cr0 : (v : ℕ) (s : Vmx) → v < 2 ^ 64 → Words s → get_cr0 (set_cr0 v s) ≡ v
unfolding get_cr0 set_cr0
get-set_cr0 v s h w =
    merge_lem 64 v _ cr0_pe s.fixed.cr0_set h
      (or-lt 64 _ 0 (or-lt 64 s.fixed.cr0_clr s.fixed.cr0_set w.clr_0 w.set_0) (omega arith))
      (omega arith) w.set_0 (part-outside s.fixed.cr0_clr s.fixed.cr0_set w.clr_0 w.set_0)

pub get-set_cr4 : (v : ℕ) (s : Vmx) → v < 2 ^ 64 → Words s → get_cr4 (set_cr4 v s) ≡ v
unfolding get_cr4 set_cr4
get-set_cr4 v s h w =
    merge_fixed_lem 64 v _ s.fixed.cr4_set h
      (or-lt 64 _ 0 (or-lt 64 s.fixed.cr4_clr s.fixed.cr4_set w.clr_4 w.set_4) (omega arith))
      w.set_4 (part-outside s.fixed.cr4_clr s.fixed.cr4_set w.clr_4 w.set_4)

-- The control registers that `read_cr` and `write_cr` serve.
pub data IsRegister : ℕ → Type 0 where
  cr0 : IsRegister 0
  cr2 : IsRegister 2
  cr3 : IsRegister 3
  cr4 : IsRegister 4

-- With fixed bits that are words, a 64-bit value written to CR0, CR2, CR3 or CR4 is read back, whichever
-- bits the processor forces to one or to zero.
pub read_cr-write_cr :
    (n v : ℕ) (s : Vmx)
    → IsRegister n
    → v < word_mod
    → Words s
    → (s' : Vmx) × (write_cr n v s ≡ some s') × (read_cr n s' ≡ some v)
unfolding read_cr write_cr
read_cr-write_cr n v s cr0 h w = (set_cr0 v s, refl, ap some (get-set_cr0 v s h w))
read_cr-write_cr n v s cr2 h w = (_, refl, refl)
read_cr-write_cr n v s cr3 h w = (write guest_cr3 v s, refl, refl)
read_cr-write_cr n v s cr4 h w = (set_cr4 v s, refl, ap some (get-set_cr4 v s h w))

-- What the processor makes of a bit: one where it wants a one, zero where it only wants a zero.
abbrev pub forced_bit : ℕ → ℕ → ℕ → ℕ
forced_bit one cleared x = if one == 1 then 1 else if cleared == 1 then 0 else x

bit-pe : (k : ℕ) → k ≢ 0 → bit cr0_pe k ≡ 0
bit-pe zero h = absurd (h refl)
bit-pe (suc k) h = bit-suc 1 k ∙ bit-zero k

forced_lem :
    (one cleared x : ℕ)
    → one < 2
    → cleared < 2
    → x < 2
    → max (min x (1 - max cleared one)) one ≡ forced_bit one cleared x
forced_lem one cleared x h k l = ground arith

bit-guest_cr0_value :
    (v k : ℕ) (s : Vmx)
    → k < 64
    → k ≢ 0
    → Words s
    → bit (guest_cr0_value v s) k
      ≡ forced_bit (bit s.fixed.cr0_set k) (bit s.fixed.cr0_clr k) (bit v k)
unfolding guest_cr0_value
bit-guest_cr0_value v k s lt ne w =
    let set : ℕ = s.fixed.cr0_set in
    let clr : ℕ = s.fixed.cr0_clr in
    let m : ℕ = bit_or (bit_or clr set) 0 in
    let hm : m < 2 ^ 64 = or-lt 64 _ 0 (or-lt 64 clr set w.clr_0 w.set_0) (omega arith) in
    let c : ℕ = 2 ^ 64 - 1 - m in
    let d : ℕ = 2 ^ 64 - 1 - cr0_pe in
    let e : bit (guest_cr0_value v s) k
        ≡ max (min (bit v k) (1 - max (bit clr k) (bit set k))) (bit set k) =
      omega (
        arith,
        bit-or k (bit_and v (bit_or c cr0_pe)) (bit_and set d),
        bit-and k v (bit_or c cr0_pe),
        bit-or k c cr0_pe,
        bit-and k set d,
        bit-inv 64 k m lt hm,
        bit-inv 64 k cr0_pe lt (omega arith),
        bit-or k (bit_or clr set) 0,
        bit-or k clr set,
        bit-zero k,
        bit-pe k ne,
      ) in
    e ∙ forced_lem (bit set k) (bit clr k) (bit v k) (omega arith) (omega arith) (omega arith)

bit-guest_cr4_value :
    (v k : ℕ) (s : Vmx)
    → k < 64
    → Words s
    → bit (guest_cr4_value v s) k
      ≡ forced_bit (bit s.fixed.cr4_set k) (bit s.fixed.cr4_clr k) (bit v k)
unfolding guest_cr4_value
bit-guest_cr4_value v k s lt w =
    let set : ℕ = s.fixed.cr4_set in
    let clr : ℕ = s.fixed.cr4_clr in
    let m : ℕ = bit_or (bit_or clr set) 0 in
    let hm : m < 2 ^ 64 = or-lt 64 _ 0 (or-lt 64 clr set w.clr_4 w.set_4) (omega arith) in
    let c : ℕ = 2 ^ 64 - 1 - m in
    let e : bit (guest_cr4_value v s) k
        ≡ max (min (bit v k) (1 - max (bit clr k) (bit set k))) (bit set k) =
      omega (
        arith,
        bit-or k (bit_and v c) set,
        bit-and k v c,
        bit-inv 64 k m lt hm,
        bit-or k (bit_or clr set) 0,
        bit-or k clr set,
        bit-zero k,
      ) in
    e ∙ forced_lem (bit set k) (bit clr k) (bit v k) (omega arith) (omega arith) (omega arith)

-- The guest's own registers after a write, bit by bit, with fixed bits that are words: a bit that the
-- processor wants to be one is one, any other that it wants to be zero is zero, and the rest is the
-- value's. Of CR0 this says nothing of PE.
pub write-forced_bit :
    (v k : ℕ) (s : Vmx)
    → k < 64
    → Words s
    → ((k ≡ 0)
        ⊎ (bit ((set_cr0 v s).field guest_cr0) k
            ≡ forced_bit (bit s.fixed.cr0_set k) (bit s.fixed.cr0_clr k) (bit v k)))
      × (bit ((set_cr4 v s).field guest_cr4) k
          ≡ forced_bit (bit s.fixed.cr4_set k) (bit s.fixed.cr4_clr k) (bit v k))
unfolding set_cr0 set_cr4
write-forced_bit v k s lt w = (
  elim (ℕ_discrete k 0) [ yes e ↦ inl e | no ne ↦ inr (bit-guest_cr0_value v k s lt ne w) ],
  bit-guest_cr4_value v k s lt w,
)
