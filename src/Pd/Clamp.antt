-- ===== src/Pd/Clamp.antt =====
-- `Pd::clamp` intersects two blocks of capabilities, or places one in the other by a hotspot.
use hedron.Prelude.{
  ℕ, ◌+◌, ◌*◌, ◌/◌, ◌%◌, ◌^◌, ◌≤◌, ◌<◌, ◌≡◌, ◌≢◌, ◌∙◌, ◌↔◌, refl, true, arith, bit_or, bit_xor, ap,
  ap₂, ◌==◌, inl, inr, sym, max, ◌⊎◌,
}
use native.Mathlib.Nat.{div-add-mod', mod-lt}
use native.Mathlib.Decide.{ℕ_discrete}
use hedron.Prelude.Bits.{or_fields, or_self, or_comm, xor-shift-zero, pow_pos}
use hedron.Word.{ones, shr}
use hedron.Word.Laws.{Within, Within-iff, same_block_coarser}
use hedron.Pd.{clamp}

le_total : (a b : ℕ) → (a ≤ b) ⊎ (b ≤ a)
le_total a b = grind arith

-- Joining a block's base with the base of a block inside it gives the inner base.
or_inner : (k b c : ℕ) → b % 2 ^ k ≡ 0 → c / 2 ^ k ≡ b / 2 ^ k → bit_or b c ≡ c
or_inner k b c h e =
    let q = b / 2 ^ k in
    let outer : q * 2 ^ k ≡ b = omega (arith, div-add-mod' b (2 ^ k)) in
    let inner : q * 2 ^ k + c % 2 ^ k ≡ c =
      omega (arith, div-add-mod' c (2 ^ k), ap (λ (t : ℕ). t * 2 ^ k) e) in
    rw (← outer, ← inner)
      (or_fields k q q (c % 2 ^ k) (mod-lt c {m = 2 ^ k} (pow_pos k))
        ∙ ap (λ (t : ℕ). t * 2 ^ k + c % 2 ^ k) (or_self q))

module _ (s r so ro : ℕ) where
  -- The test of `clamp`.
  overlap_iff :
      (k : ℕ)
      → max so ro ≡ k
      → ((shr (bit_xor s r) (max so ro) == 0) ≡ true) ↔ (s / 2 ^ k ≡ r / 2 ^ k)
  overlap_iff k e = rw e (ground (arith, xor-shift-zero k s r))

  clamp_snd : so ≤ ro → r % 2 ^ ro ≡ 0 → s / 2 ^ ro ≡ r / 2 ^ ro → clamp s r so ro ≡ (so, s)
  unfolding clamp
  clamp_snd h a e =
      rw ((overlap_iff ro (omega arith)).1 e)
        (ap₂ (λ o b. (o, b)) (omega arith) (or_inner ro r s a e))

  clamp_rcv : ro ≤ so → s % 2 ^ so ≡ 0 → s / 2 ^ so ≡ r / 2 ^ so → clamp s r so ro ≡ (ro, r)
  unfolding clamp
  clamp_rcv h a e =
      rw ((overlap_iff so (omega arith)).1 e)
        (ap₂ (λ o b. (o, b)) (omega arith) (or_comm r s ∙ or_inner so s r a (sym e)))

  clamp_none : (k : ℕ) → max so ro ≡ k → s / 2 ^ k ≢ r / 2 ^ k → clamp s r so ro ≡ (ones, r)
  unfolding clamp
  clamp_none k m n = ground (arith, overlap_iff k m)

module _ (s r so ro x : ℕ) (hs : s % 2 ^ so ≡ 0) (hr : r % 2 ^ ro ≡ 0) where
  -- Two blocks that share a word share the larger block.
  shared_block : (k : ℕ) → so ≤ k → ro ≤ k → Within s so x → Within r ro x → s / 2 ^ k ≡ r / 2 ^ k
  shared_block k h h' v w =
      sym (same_block_coarser so k x s h ((Within-iff s so x hs).0 v))
      ∙ same_block_coarser ro k x r h' ((Within-iff r ro x hr).0 w)

  -- The smaller block lies inside the larger one.
  inner_in_outer : so ≤ ro → s / 2 ^ ro ≡ r / 2 ^ ro → Within s so x → Within r ro x
  inner_in_outer h e v =
      (Within-iff r ro x hr).1 (same_block_coarser so ro x s h ((Within-iff s so x hs).0 v) ∙ e)

  outer_in_inner : ro ≤ so → s / 2 ^ so ≡ r / 2 ^ so → Within r ro x → Within s so x
  outer_in_inner h e v =
      (Within-iff s so x hs).1 (same_block_coarser ro so x r h ((Within-iff r ro x hr).0 v) ∙ sym e)

-- What is common to two blocks of capabilities: `clamp` answers ~0UL exactly where they share no word, and otherwise the
-- order and base of their intersection. Both bases are aligned to their orders, which are below 64.
pub clamp-intersection :
    (snd_base rcv_base snd_ord rcv_ord x : ℕ)
    → snd_base % 2 ^ snd_ord ≡ 0
    → rcv_base % 2 ^ rcv_ord ≡ 0
    → snd_ord < 64
    → rcv_ord < 64
    → let (o, b) = clamp snd_base rcv_base snd_ord rcv_ord in
      (Within snd_base snd_ord x × Within rcv_base rcv_ord x) ↔ ((o ≢ ones) × Within b o x)
clamp-intersection s r so ro x hs hr ls lr = elim (le_total so ro) [
  | inl h ↦ elim (ℕ_discrete (s / 2 ^ ro) (r / 2 ^ ro)) [
    | yes e ↦
        rw (clamp_snd s r so ro h hr e)
          (λ v. (omega arith, v.0), λ v. (v.1, inner_in_outer s r so ro x hs hr h e v.1))
    | no n ↦ rw (clamp_none s r so ro ro (omega arith) n) (
      λ v. absurd (n (shared_block s r so ro x hs hr ro h (omega arith) v.0 v.1)),
      λ v. absurd (v.0 refl),
    )
  ]
  | inr h ↦ elim (ℕ_discrete (s / 2 ^ so) (r / 2 ^ so)) [
    | yes e ↦
        rw (clamp_rcv s r so ro h hs e)
          (λ v. (omega arith, v.1), λ v. (outer_in_inner s r so ro x hs hr h e v.1, v.1))
    | no n ↦ rw (clamp_none s r so ro so (omega arith) n) (
      λ v. absurd (n (shared_block s r so ro x hs hr so (omega arith) h v.0 v.1)),
      λ v. absurd (v.0 refl),
    )
  ]
]
