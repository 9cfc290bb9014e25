-- ===== src/Pd/Hotspot.antt =====
-- `Pd::clamp` with a hotspot places the smaller of two blocks in the larger one.
use native.Mathlib.Nat.{mod-lt, pow-le-pow_right}
use native.Mathlib.Decide.{dec_lt}
use hedron.Prelude.{ℕ, ◌+◌, ◌-◌, ◌%◌, ◌^◌, ◌≤◌, ◌<◌, ◌≡◌, ◌∙◌, arith, bit_and, bit_or, ap, min}
use hedron.Prelude.Bits.{pow_pos}
use hedron.Word.{word_mod, low_ones, inv}
use hedron.Word.Laws.{
  low_ones_lem, and-inv-low_ones, and-low_ones, or_aligned, pow-lt_word, mod_pow_mod, aligned_base,
  pow_mono,
}
use hedron.Pd.{clamp_hot}

-- `x & ~m` for a mask of ones above another.
low_part :
    (h big small : ℕ)
    → h < word_mod
    → big < 64
    → small < 64
    → small ≤ big
    → bit_and (bit_and h (low_ones big)) (inv (low_ones small)) ≡ h % 2 ^ big - h % 2 ^ small
low_part h big small lh lb ls le = rw (and-low_ones h big lb) (
    and-inv-low_ones (h % 2 ^ big) small
      (omega (arith, mod-lt h {m = 2 ^ big} (pow_pos big), pow-lt_word big lb)) ls
    ∙ ap (λ (t : ℕ). h % 2 ^ big - t) (mod_pow_mod small big h le))

-- An aligned base joined with an offset inside its block.
place : (b k d : ℕ) → d < 2 ^ k → bit_or (b - b % 2 ^ k) d ≡ b - b % 2 ^ k + d
place b k d h = or_aligned k (b - b % 2 ^ k) d (aligned_base b k) h

module _ (s r so ro h : ℕ) (hs : s < word_mod) (hr : r < word_mod) (hh : h < word_mod)
    (ls : so < 64) (lr : ro < 64) where
  hot_snd :
      so < ro
      → clamp_hot s r so ro h ≡ record {
        order = so;
        snd_base = s - s % 2 ^ so;
        rcv_base = r - r % 2 ^ ro + (h % 2 ^ ro - h % 2 ^ so);
      }
  unfolding clamp_hot
  hot_snd lt = ground (
    arith,
    low_ones_lem so ls,
    low_ones_lem ro lr,
    pow_mono so ro lt,
    pow_pos so,
    pow_pos ro,
    and-inv-low_ones s so hs ls,
    and-inv-low_ones r ro hr lr,
    low_part h ro so hh lr ls,
    place r ro (h % 2 ^ ro - h % 2 ^ so),
    mod-lt h {m = 2 ^ ro} (pow_pos ro),
  )

  hot_rcv :
      ro ≤ so
      → clamp_hot s r so ro h ≡ record {
        order = ro;
        snd_base = s - s % 2 ^ so + (h % 2 ^ so - h % 2 ^ ro);
        rcv_base = r - r % 2 ^ ro;
      }
  unfolding clamp_hot
  hot_rcv le = ground (
    arith,
    low_ones_lem so ls,
    low_ones_lem ro lr,
    pow-le-pow_right {n = 2} (omega arith) le,
    pow_pos so,
    pow_pos ro,
    and-inv-low_ones s so hs ls,
    and-inv-low_ones r ro hr lr,
    low_part h so ro hh ls lr,
    place s so (h % 2 ^ so - h % 2 ^ ro),
    mod-lt h {m = 2 ^ so} (pow_pos so),
  )

-- With a hotspot the result has the smaller order, both bases are aligned to it and stay in the
-- block that was given; the base in the larger block is placed by the hotspot's bits.
pub clamp_hot_places :
    (snd_base rcv_base snd_ord rcv_ord h : ℕ)
    → snd_base < word_mod
    → rcv_base < word_mod
    → h < word_mod
    → snd_ord < 64
    → rcv_ord < 64
    → let c = clamp_hot snd_base rcv_base snd_ord rcv_ord h in
      (c.order ≡ min snd_ord rcv_ord)
      × (c.snd_base ≡ snd_base - snd_base % 2 ^ snd_ord + (h % 2 ^ snd_ord - h % 2 ^ c.order))
      × (c.rcv_base ≡ rcv_base - rcv_base % 2 ^ rcv_ord + (h % 2 ^ rcv_ord - h % 2 ^ c.order))
unfolding clamp_hot
clamp_hot_places s r so ro h hs hr hh ls lr = elim (dec_lt so ro) [
  | yes lt ↦ rw (hot_snd s r so ro h hs hr hh ls lr lt) (omega arith)
  | no ge ↦ rw (hot_rcv s r so ro h hs hr hh ls lr (omega arith)) (omega arith)
]
