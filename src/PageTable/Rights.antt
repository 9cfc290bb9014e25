-- ===== src/PageTable/Rights.antt =====
-- The rights that two attributes share, and those of a guest's mapping: `merge_hw_attr` of src/hpt.cpp and
-- `convert_mapping` of src/ept.cpp, bit by bit.
use hedron.Prelude.{
  ℕ, suc, ◌+◌, ◌-◌, ◌*◌, ◌/◌, ◌%◌, ◌^◌, ◌<◌, ◌≡◌, ◌⊎◌, inl, inr, refl, sym, ap, ap₂, subst, ◌∙◌,
  arith, bit_and, bit_or, bit_xor, min, max, Bool-cases, Option-cases, lt→ltb, ltb→lt, true, false,
  not, ◌&&◌, if◌then◌else◌, ltb, none, some,
}
use hedron.Prelude.Bits.{
  and_mask, xor-lt, bit, bit-and, bit-or, bit-xor, bit-inv, eq_of_bits, and-lt, or-lt, and_bit,
  pow_pos,
}
use hedron.Word.{has_bits, inv, shr, shl}
use hedron.PageTable.Hpt
use hedron.PageTable.Ept
use hedron.PageTable.Hpt.{merge_hw_attr, changeable}
use hedron.PageTable.Ept.{attr_from_hpt, convert_mapping}
use mathlib.Core.Option.{some-injective, none-ne-some}
use hedron.PageTable.Install.{clash}
use hedron.PageTable.Table.{Mapping}
use hedron.PageTable.Words.{bit_of_and, lt_or_le}

-- A test of one bit.
pub has_bit : (k a : ℕ) → has_bits a (2 ^ k) ≡ ltb 0 (bit a k)
has_bit k a =
    let e = and_bit k a in
    let p = pow_pos k in
    elim (lt_or_le 1 (suc (bit a k))) [
      | inl x ↦
          let one : bit a k ≡ 1 = omega arith in
          let y : bit_and a (2 ^ k) ≡ 2 ^ k = e ∙ ap (λ (z : ℕ). z * 2 ^ k) one ∙ (omega arith) in
          ap (λ z. ltb 0 z) y ∙ lt→ltb 0 (2 ^ k) p ∙ ap (λ z. ltb 0 z) (sym one)
      | inr x ↦
          let none_set : bit a k ≡ 0 = omega arith in
          let zero_times : 0 * 2 ^ k ≡ 0 = omega arith in
          ap (λ z. ltb 0 z) (e ∙ ap (λ (z : ℕ). z * 2 ^ k) none_set ∙ zero_times)
          ∙ ap (λ z. ltb 0 z) (sym none_set)
    ]

pub both_bits : (k a b : ℕ) → has_bits (bit_and a b) (2 ^ k) ≡ true → (bit a k ≡ 1) × (bit b k ≡ 1)
both_bits k a b e =
    let x : ltb 0 (bit (bit_and a b) k) ≡ true = sym (has_bit k (bit_and a b)) ∙ e in
    let y = bit-and k a b in
    let z : 0 < bit (bit_and a b) k = ltb→lt 0 (bit (bit_and a b) k) x in (omega arith, omega arith)

pub merge_missing : (s d : ℕ) → has_bits (bit_and d s) Hpt.pte_p ≡ false → merge_hw_attr s d ≡ 0
unfolding merge_hw_attr
merge_missing s d e = rw e refl

merge_form :
    (s d : ℕ)
    → has_bits (bit_and d s) Hpt.pte_p ≡ true
    → merge_hw_attr s d
      ≡ bit_xor Hpt.pte_nx (
          bit_or
            (bit_and (bit_xor s Hpt.pte_nx) (inv changeable))
            (bit_and (bit_and (bit_xor s Hpt.pte_nx) (bit_xor d Hpt.pte_nx)) changeable))
unfolding merge_hw_attr
merge_form s d e = rw e refl

module _ (s d : ℕ) (s_word : s < 2 ^ 64) (d_word : d < 2 ^ 64) where
  -- A bit of the merged attribute, by those of its parts.
  merged_bit :
      (k : ℕ)
      → k < 64
      → has_bits (bit_and d s) Hpt.pte_p ≡ true
      → bit (merge_hw_attr s d) k
        ≡ (bit Hpt.pte_nx k
            + max (min ((bit s k + bit Hpt.pte_nx k) % 2) (1 - bit changeable k)) (
                min
                  (min ((bit s k + bit Hpt.pte_nx k) % 2) ((bit d k + bit Hpt.pte_nx k) % 2))
                  (bit changeable k)))
          % 2
  merged_bit k lt e =
      let s' = bit_xor s Hpt.pte_nx in
      let d' = bit_xor d Hpt.pte_nx in
      let x = bit_and s' (inv changeable) in
      let y = bit_and (bit_and s' d') changeable in
      let bs = bit-xor k s Hpt.pte_nx in
      let bx =
        bit-and k s' (inv changeable) ∙ ap₂ min bs (bit-inv 64 k changeable lt (omega arith)) in
      let by =
        bit-and k (bit_and s' d') changeable
        ∙ ap (λ z. min z (bit changeable k))
            (bit-and k s' d' ∙ ap₂ min bs (bit-xor k d Hpt.pte_nx)) in
      ap (λ z. bit z k) (merge_form s d e)
      ∙ bit-xor k Hpt.pte_nx (bit_or x y)
      ∙ ap (λ (z : ℕ). (bit Hpt.pte_nx k + z) % 2) (bit-or k x y ∙ ap₂ max bx by)

  merge-lt : has_bits (bit_and d s) Hpt.pte_p ≡ true → merge_hw_attr s d < 2 ^ 64
  merge-lt e =
      let s' = xor-lt 64 s Hpt.pte_nx s_word (omega arith) in
      rw (merge_form s d e) (
        xor-lt 64 Hpt.pte_nx _ (omega arith)
          (or-lt 64 _ _ (and-lt 64 _ _ s') (and-lt 64 _ _ (and-lt 64 _ _ s'))))

  -- Both are present.
  pub merged_rights :
      has_bits (bit_and d s) Hpt.pte_p ≡ true
      → (bit (merge_hw_attr s d) 0 ≡ 1)
        × (bit (merge_hw_attr s d) 1 ≡ min (bit s 1) (bit d 1))
        × (bit (merge_hw_attr s d) 63 ≡ max (bit s 63) (bit d 63))
        × (bit_and (merge_hw_attr s d) (inv changeable) ≡ bit_and s (inv changeable))
  merged_rights e =
      let (p, p') = both_bits 0 d s e in
      (
        omega (arith, merged_bit 0 (omega arith) e),
        omega (arith, merged_bit 1 (omega arith) e),
        omega (arith, merged_bit 63 (omega arith) e),
        eq_of_bits 64 _ _ (and-lt 64 _ _ (merge-lt e)) (and-lt 64 _ _ s_word) λ k lt. omega (
          arith,
          bit-and k (merge_hw_attr s d) (inv changeable),
          bit-and k s (inv changeable),
          bit-inv 64 k changeable lt (omega arith),
          merged_bit k lt e,
          bit_of_and Hpt.pte_nx changeable Hpt.pte_nx k refl,
        ),
      )

  -- If both attributes are present, the merged one is present, allows to write only if both do, forbids to execute if
  -- one does, and is otherwise as the source; if one is not, it is empty. Both are words.
  pub merge_hw_attr-Rights :
      if has_bits (bit_and d s) Hpt.pte_p
      then (bit (merge_hw_attr s d) 0 ≡ 1)
        × (bit (merge_hw_attr s d) 1 ≡ min (bit s 1) (bit d 1))
        × (bit (merge_hw_attr s d) 63 ≡ max (bit s 63) (bit d 63))
        × (bit_and (merge_hw_attr s d) (inv changeable) ≡ bit_and s (inv changeable))
      else (merge_hw_attr s d ≡ 0)
  merge_hw_attr-Rights = elim (Bool-cases (has_bits (bit_and d s) Hpt.pte_p)) [
    | inl e ↦ rw e (merged_rights e)
    | inr e ↦ rw e (merge_missing s d e)
  ]

-- The bits of an attribute for a guest.
guest_bits :
    (q w x : ℕ)
    → q < 8
    → (w ≡ 0) ⊎ (w ≡ 2)
    → (x ≡ 0) ⊎ (x ≡ 4)
    → let a = bit_or (bit_or (bit_or (shl q 3) 1) w) x in
      (bit a 0 ≡ 1) × (bit a 1 ≡ w / 2) × (bit a 2 ≡ x / 4)
guest_bits q w x lt hw hx =
    let all : (k : ℕ)
        → bit (bit_or (bit_or (bit_or (shl q 3) 1) w) x) k
          ≡ max (max (max (bit (shl q 3) k) (bit 1 k)) (bit w k)) (bit x k) =
      λ k.
        bit-or k (bit_or (bit_or (shl q 3) 1) w) x
        ∙ ap (λ z. max z (bit x k))
            (bit-or k (bit_or (shl q 3) 1) w ∙ ap (λ z. max z (bit w k)) (bit-or k (shl q 3) 1)) in
    elim hw [
      | inl a ↦ elim hx [
        | inl b ↦ (omega (arith, all 0), omega (arith, all 1), omega (arith, all 2))
        | inr b ↦ (omega (arith, all 0), omega (arith, all 1), omega (arith, all 2))
      ]
      | inr a ↦ elim hx [
        | inl b ↦ (omega (arith, all 0), omega (arith, all 1), omega (arith, all 2))
        | inr b ↦ (omega (arith, all 0), omega (arith, all 1), omega (arith, all 2))
      ]
    ]

set_bit : (k a : ℕ) → has_bits a (2 ^ k) ≡ true → bit a k ≡ 1
set_bit k a e = let x = ltb→lt 0 (bit a k) (sym (has_bit k a) ∙ e) in omega arith

clear_bit : (k a : ℕ) → has_bits a (2 ^ k) ≡ false → bit a k ≡ 0
clear_bit k a e = elim (lt_or_le 0 (bit a k)) [
  | inl x ↦ absurd (clash _ (lt→ltb 0 (bit a k) x) (sym (has_bit k a) ∙ e))
  | inr x ↦ omega arith
]

-- A guest's attribute for one of the host: the access that the host's allows, and no more.
abbrev pub guest_rights : ℕ → ℕ
guest_rights a =
    bit_or
      (bit_or (bit_or (shl (bit_and (shr a 53) 7) 3) 1) (if has_bits a Hpt.pte_w then 2 else 0))
      (if has_bits a Hpt.pte_nx then 0 else 4)

guest_form :
    (a : ℕ)
    → has_bits a Hpt.pte_p ≡ true
    → (a' : ℕ) → attr_from_hpt a ≡ some a'
    → a' ≡ guest_rights a
unfolding attr_from_hpt
guest_form a here a' e =
    elim (Bool-cases (has_bits a Hpt.pte_u && not (has_bits a Hpt.pte_nodeleg))) [
      | inl c ↦
          let x : attr_from_hpt a ≡ some (guest_rights a) = rw (here, c) refl in
          some-injective _ _ (sym e ∙ x)
      | inr c ↦
          (let x : attr_from_hpt a ≡ none = rw (here, c) refl in
            absurd (none-ne-some _ (sym x ∙ e)))
    ]

guest_attr :
    (a : ℕ)
    → (bit (guest_rights a) 0 ≡ 1)
      × (bit (guest_rights a) 1 ≡ bit a 1)
      × (bit (guest_rights a) 2 ≡ 1 - bit a 63)
guest_attr a =
    let w : ℕ = if has_bits a Hpt.pte_w then 2 else 0 in
    let x : ℕ = if has_bits a Hpt.pte_nx then 0 else 4 in
    let q = bit_and (shr a 53) 7 in
    let lt : q < 8 = omega (arith, and_mask 3 (shr a 53)) in
    let hw : ((w ≡ 0) ⊎ (w ≡ 2)) × (w / 2 ≡ bit a 1) = elim (Bool-cases (has_bits a Hpt.pte_w)) [
      | inl e ↦ rw e (inr refl, sym (set_bit 1 a e))
      | inr e ↦ rw e (inl refl, sym (clear_bit 1 a e))
    ] in
    let hx : ((x ≡ 0) ⊎ (x ≡ 4)) × (x / 4 ≡ 1 - bit a 63) =
      elim (Bool-cases (has_bits a Hpt.pte_nx)) [
        | inl e ↦ rw e (inl refl, (let y = set_bit 63 a e in omega arith))
        | inr e ↦ rw e (inr refl, (let y = clear_bit 63 a e in omega arith))
      ] in
    let (a₀, a₁, a₂) = guest_bits q w x lt hw.0 hx.0 in (a₀, a₁ ∙ hw.1, a₂ ∙ hx.1)

-- The rights of a guest's attribute.
abbrev pub Converted : ℕ → ℕ → Type 0
Converted a a' =
    (has_bits a' Ept.pte_p ≡ has_bits a Hpt.pte_p)
    × (bit a' 0 ≡ bit a 0)
    × (bit a' 1 ≡ min (bit a 0) (bit a 1))
    × (bit a' 2 ≡ min (bit a 0) (1 - bit a 63))

Converted-attr : (a a' : ℕ) → attr_from_hpt a ≡ some a' → Converted a a'
unfolding attr_from_hpt
Converted-attr a a' e = elim (Bool-cases (has_bits a Hpt.pte_p)) [
  | inl y ↦
      let f = guest_form a y a' e in
      let (x₀, x₁, x₂) = guest_attr a in
      let one = set_bit 0 a y in
      let b₀ = ap (λ z. bit z 0) f ∙ x₀ in
      let some_set : 0 < bit_and a' 7 = omega (arith, and_mask 3 a') in
      (
        lt→ltb 0 (bit_and a' 7) some_set ∙ sym y,
        b₀ ∙ sym one,
        ap (λ z. bit z 1) f ∙ x₁ ∙ (omega arith),
        ap (λ z. bit z 2) f ∙ x₂ ∙ (omega arith),
      )
  | inr y ↦
      let x : attr_from_hpt a ≡ some 0 = rw y refl in
      let f : a' ≡ 0 = some-injective _ _ (sym e ∙ x) in
      let zero_bit = clear_bit 0 a y in rw f (sym y, omega arith, omega arith, omega arith)
]

-- A host's mapping that the guest can have is present for the guest exactly if it is for the host; it then can be
-- read, and written or executed exactly if the host's can. Its address and size are the host's.
pub convert_mapping-Rights :
    (map map' : Mapping)
    → convert_mapping map ≡ some map'
    → Converted map.attr map'.attr
      × (map'.vaddr ≡ map.vaddr)
      × (map'.paddr ≡ map.paddr)
      × (map'.order ≡ map.order)
unfolding convert_mapping
convert_mapping-Rights map map' e = elim (Option-cases (attr_from_hpt map.attr)) [
  | inl x ↦
      (let y : convert_mapping map ≡ none = rw (convert_mapping, x) refl in
        absurd (none-ne-some _ (sym y ∙ e)))
  | inr (a, x) ↦
      let y : convert_mapping map
          ≡ some (record { vaddr = map.vaddr; paddr = map.paddr; attr = a; order = map.order }) =
        rw (convert_mapping, x) refl in
      let z = some-injective _ _ (sym e ∙ y) in
      (
        subst (Converted map.attr) (sym (ap (λ k. k.attr) z)) (Converted-attr map.attr a x),
        ap (λ k. k.vaddr) z,
        ap (λ k. k.paddr) z,
        ap (λ k. k.order) z,
      )
]
