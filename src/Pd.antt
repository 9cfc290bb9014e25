-- ===== src/Pd.antt =====
-- Ranges of capabilities in a protection domain: the two `Pd::clamp` of src/pd.cpp. A reference
-- parameter that the code assigns is a component of the result.
pub mod Clamp
pub mod Hotspot
use hedron.Prelude.{
  ℕ, ◌/◌, ◌^◌, ◌*◌, ◌%◌, ◌+◌, ◌-◌, bit_and, bit_or, bit_xor, min, max, if◌then◌else◌, ◌==◌, ltb,
}
use hedron.Word.{ones, inv, shr, low_ones}

-- `clamp(snd_base, rcv_base, snd_ord, rcv_ord)`: the order, or ~0UL, and the new `rcv_base`
unfoldable pub clamp : ℕ → ℕ → ℕ → ℕ → ℕ × ℕ
clamp snd_base rcv_base snd_ord rcv_ord =
    if shr (bit_xor snd_base rcv_base) (max snd_ord rcv_ord) == 0
    then (min snd_ord rcv_ord, bit_or rcv_base snd_base)
    else (ones, rcv_base)

-- What the overload with a hotspot leaves in its parameters.
pub record Clamped : Type 0 where
  pub order : ℕ
  pub snd_base : ℕ
  pub rcv_base : ℕ

-- `clamp(snd_base, rcv_base, snd_ord, rcv_ord, h)`
unfoldable pub clamp_hot : ℕ → ℕ → ℕ → ℕ → ℕ → Clamped
clamp_hot snd_base rcv_base snd_ord rcv_ord h =
    let s = low_ones snd_ord in
    let r = low_ones rcv_ord in
    let snd = bit_and snd_base (inv s) in
    let rcv = bit_and rcv_base (inv r) in
    if ltb s r
    then record {
      order = snd_ord;
      snd_base = snd;
      rcv_base = bit_or rcv (bit_and (bit_and h r) (inv s));
    }
    else record {
      order = rcv_ord;
      snd_base = bit_or snd (bit_and (bit_and h s) (inv r));
      rcv_base = rcv;
    }
