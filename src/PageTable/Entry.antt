-- ===== src/PageTable/Entry.antt =====
-- The entries of a mapping's leaves: `new_pte` and the body of the loop of `fill_entries` of
-- include/generic_page_table.hpp.
use hedron.Prelude.{
  ℕ, zero, suc, ◌+◌, ◌-◌, ◌*◌, ◌/◌, ◌%◌, ◌^◌, ◌<◌, ◌≤◌, ◌≡◌, ◌⊎◌, inl, inr, refl, sym, ap, ap₂, ◌∙◌,
  arith, bit_and, bit_or, Bool-cases, lt→ltb, if_intro, not-true, or-true, true, false, not, ◌&&◌,
  ◌||◌, if◌then◌else◌, ltb, some,
}
use native.Mathlib.Nat.{div-add-mod', mul-mod_left, mul-div_left, mul-le-mul_right}
use hedron.Word.{has_bits, shl}
use hedron.Word.Laws.{or_aligned, pow-add}
use hedron.Prelude.Bits.{pow_pos, and_zero_left}
use hedron.PageTable.Table.{Attr, Mapping, level_order, present, is_superpage, is_leaf, phys}
use hedron.PageTable.Update.{rounds, new_pte}
use hedron.PageTable.Words.{Lawful, leaf_word, leaf-attr, leaf-s, leaf-phys, mask_p}
use hedron.PageTable.View.{frame, Framed, entry_view}
use hedron.PageTable.Shape.{leaf_zero}
use hedron.PageTable.SubEntry.{and_self}
use hedron.PageTable.Install.{clash}
use hedron.PageTable.Step.{leaf_above}
use hedron.PageTable.Split.{zero-p, zero-leaf, zero-Framed}
use hedron.PageTable.Leaf.{mapped}

-- A mapping that entries of a level make up, in one table.
pub record Fits (t : Attr) (map : Mapping) (l : ℕ) : Type 0 where
  pub vaddr_aligned : map.vaddr % 2 ^ map.order ≡ 0
  pub paddr_aligned : map.paddr % 2 ^ map.order ≡ 0
  pub vaddr_word : map.vaddr + 2 ^ map.order ≤ 2 ^ 64
  pub paddr_low : map.paddr + 2 ^ map.order ≤ 2 ^ 52
  pub attr_in : bit_and map.attr t.mask ≡ map.attr
  pub attr_word : map.attr < 2 ^ 64
  pub order_low : level_order l ≤ map.order
  pub order_high : map.order ≤ level_order (suc l)

pub pow-sub : (a b : ℕ) → a ≤ b → 2 ^ b ≡ 2 ^ (b - a) * 2 ^ a
pow-sub a b le = let e : b ≡ b - a + a = omega arith in ap (λ (y : ℕ). 2 ^ y) e ∙ pow-add (b - a) a

-- A multiple of a power is one of the lower powers.
pub aligned_low : (x a b : ℕ) → a ≤ b → x % 2 ^ b ≡ 0 → x ≡ x / 2 ^ b * 2 ^ (b - a) * 2 ^ a
aligned_low x a b le e =
    let d = div-add-mod' x (2 ^ b) in
    let p = ap (λ (y : ℕ). x / 2 ^ b * y) (pow-sub a b le) in grind arith

module _ (t : Attr) (h : Lawful t) (map : Mapping) (l : ℕ) (f : Fits t map l) (i : ℕ)
    (round : i < rounds map l) where
  abbrev offset : ℕ
  offset = i * 2 ^ level_order l

  pub offset-lt : offset + 2 ^ level_order l ≤ 2 ^ map.order
  offset-lt =
      let p = pow-sub (level_order l) map.order f.order_low in
      let q : suc i * 2 ^ level_order l ≤ 2 ^ (map.order - level_order l) * 2 ^ level_order l =
        mul-le-mul_right {m = suc i} {n = 2 ^ (map.order - level_order l)} (2 ^ level_order l)
          round in
      grind arith

  pub offset_shl : shl i (level_order l) ≡ offset
  offset_shl =
      let a = offset-lt in
      let b = pow_pos (level_order l) in
      let c = f.paddr_low in let e : offset % 2 ^ 64 ≡ offset = omega arith in e

  pub paddr_or : bit_or map.paddr offset ≡ map.paddr + offset
  paddr_or =
      or_aligned map.order map.paddr offset f.paddr_aligned
        (let a = offset-lt in let b = pow_pos (level_order l) in omega arith)

  -- The addresses of a leaf are multiples of its size.
  pub paddr_blocks :
      map.paddr + offset
      ≡ (map.paddr / 2 ^ map.order * 2 ^ (map.order - level_order l) + i) * 2 ^ level_order l
  paddr_blocks =
      let a = aligned_low map.paddr (level_order l) map.order f.order_low f.paddr_aligned in
      let q = map.paddr / 2 ^ map.order * 2 ^ (map.order - level_order l) in
      let n = 2 ^ level_order l in let e : (q + i) * n ≡ q * n + i * n = grind arith in omega arith

  pub vaddr_blocks : map.vaddr + offset ≡ (map.vaddr / 2 ^ level_order l + i) * 2 ^ level_order l
  vaddr_blocks =
      let n = 2 ^ level_order l in
      let c = map.vaddr / 2 ^ map.order * 2 ^ (map.order - level_order l) in
      let z : map.vaddr % n ≡ 0 =
        ap (λ (y : ℕ). y % n)
          (aligned_low map.vaddr (level_order l) map.order f.order_low f.vaddr_aligned)
        ∙ mul-mod_left c n in
      let q = map.vaddr / n in
      let d = div-add-mod' map.vaddr n in
      let e : (q + i) * n ≡ q * n + i * n = grind arith in omega arith

  abbrev address : ℕ
  address = map.paddr + offset

  address_pages : address ≡ address / 2 ^ level_order l * 2 ^ (l * 9) * 2 ^ 12
  address_pages =
      let c = map.paddr / 2 ^ map.order * 2 ^ (map.order - level_order l) + i in
      let d : address / 2 ^ level_order l ≡ c =
        ap (λ (y : ℕ). y / 2 ^ level_order l) paddr_blocks
        ∙ mul-div_left c (pow_pos (level_order l)) in
      let p : address ≡ c * 2 ^ level_order l = paddr_blocks in
      p
      ∙ ap (λ (y : ℕ). c * y) (pow-add (l * 9) 12)
      ∙ (let e : c * (2 ^ (l * 9) * 2 ^ 12) ≡ c * 2 ^ (l * 9) * 2 ^ 12 = grind arith in e)
      ∙ ap (λ (y : ℕ). y * 2 ^ (l * 9) * 2 ^ 12) (sym d)

  address_aligned : address % 2 ^ 12 ≡ 0
  address_aligned =
      ap (λ (y : ℕ). y % 2 ^ 12) address_pages
      ∙ mul-mod_left (address / 2 ^ level_order l * 2 ^ (l * 9)) (2 ^ 12)

  address-lt : address < 2 ^ 52
  address-lt =
      let a = offset-lt in let b = pow_pos (level_order l) in let c = f.paddr_low in omega arith

  abbrev leaf_bit : ℕ
  leaf_bit = if ltb 0 l && ltb l t.leaf_levels then t.pte_s else 0

  leaf_bit_in : bit_and leaf_bit t.pte_s ≡ leaf_bit
  leaf_bit_in =
      let w = h.s_low in
      if_intro (λ s. bit_and s t.pte_s ≡ s) (ltb 0 l && ltb l t.leaf_levels) t.pte_s 0
        (λ _. and_self t.pte_s (omega arith)) (λ _. and_zero_left t.pte_s)

  leaf_bit-lt : leaf_bit < 2 ^ 12
  leaf_bit-lt =
      if_intro (λ s. s < 2 ^ 12) (ltb 0 l && ltb l t.leaf_levels) t.pte_s 0 (λ _. h.s_low)
        (λ _. omega arith)

  abbrev entry : ℕ
  entry = new_pte t map l (shl i (level_order l))

  entry_missing : present t map ≡ false → entry ≡ 0
  unfolding new_pte
  entry_missing e = rw e refl

  entry_present : present t map ≡ true → entry ≡ bit_or address (bit_or map.attr leaf_bit)
  unfolding new_pte
  entry_present e = rw e (
      ap (λ y. bit_or (bit_or map.paddr y) (bit_or map.attr leaf_bit)) offset_shl
      ∙ ap (λ y. bit_or y (bit_or map.attr leaf_bit)) paddr_or)

  module _ (here : present t map ≡ true) where
    entry_word : entry < 2 ^ 64
    entry_word = rw (entry_present here) (
        leaf_word t h address map.attr leaf_bit address_aligned address-lt f.attr_word f.attr_in
          leaf_bit_in leaf_bit-lt)

    entry_attr : bit_and entry t.mask ≡ map.attr
    entry_attr =
        ap (λ y. bit_and y t.mask) (entry_present here)
        ∙ leaf-attr t h address map.attr leaf_bit address_aligned address-lt f.attr_word f.attr_in
            leaf_bit_in leaf_bit-lt

    entry_s : bit_and entry t.pte_s ≡ leaf_bit
    entry_s =
        ap (λ y. bit_and y t.pte_s) (entry_present here)
        ∙ leaf-s t h address map.attr leaf_bit address_aligned address-lt f.attr_word f.attr_in
            leaf_bit_in leaf_bit-lt

    entry_p : has_bits entry t.pte_p ≡ true
    unfolding present
    entry_p =
        ap (λ y. ltb 0 y) (sym (mask_p t h entry entry_word))
        ∙ ap (λ y. ltb 0 (bit_and y t.pte_p)) entry_attr
        ∙ here

    entry_frame : frame t entry * 2 ^ 12 ≡ address
    entry_frame =
        let p : phys t entry ≡ address + leaf_bit =
          ap (phys t) (entry_present here)
          ∙ leaf-phys t h address map.attr leaf_bit address_aligned address-lt f.attr_word f.attr_in
              leaf_bit_in leaf_bit-lt in
        let a = address_aligned in let b = leaf_bit-lt in omega arith

    entry_first : frame t entry % 2 ^ (l * 9) ≡ 0
    entry_first =
        let q = address / 2 ^ level_order l in
        let p = address_pages in
        let e = entry_frame in
        let e' : frame t entry ≡ q * 2 ^ (l * 9) = omega arith in
        ap (λ (y : ℕ). y % 2 ^ (l * 9)) e' ∙ mul-mod_left q (2 ^ (l * 9))

  pub new_pte-Framed : Framed t l entry
  new_pte-Framed = elim (Bool-cases (present t map)) [
    | inl e ↦ record { word = entry_word e; first = λ _. entry_first e }
    | inr e ↦ rw (entry_missing e) (zero-Framed t l)
  ]

  pub new_pte-view :
      (w : ℕ)
      → w / 2 ^ level_order l ≡ map.vaddr / 2 ^ level_order l + i
      → entry_view t w entry l ≡ mapped t map w
  unfolding mapped
  new_pte-view w at = elim (Bool-cases (present t map)) [
    | inl e ↦
        let d = div-add-mod' w (2 ^ level_order l) in
        let b = ap (λ (y : ℕ). y * 2 ^ level_order l) at in
        let v = vaddr_blocks in
        let x = entry_frame e in
        rw (entry_p e, e) (ap₂ (λ x y. some (x, y)) (omega arith) (entry_attr e))
    | inr e ↦
        rw e (ap (λ y. entry_view t w y l) (entry_missing e) ∙ (let z = zero-p t in rw z refl))
  ]

pub new_pte-leaf :
    (t : Attr) (h : Lawful t) (map : Mapping) (l : ℕ) (f : Fits t map l) (i : ℕ)
    → i < rounds map l
    → (l ≡ 0) ⊎ (ltb l t.leaf_levels || not (present t map) ≡ true)
    → is_leaf t l (new_pte t map l (shl i (level_order l))) ≡ true
unfolding is_superpage
new_pte-leaf t h map zero f i round c = leaf_zero t _
new_pte-leaf t h map (suc l) f i round (inl c) = absurd (omega arith)
new_pte-leaf t h map (suc l) f i round (inr c) = elim (Bool-cases (present t map)) [
  | inl e ↦
      let a = entry_p t h map (suc l) f i round e in
      let b : ltb (suc l) t.leaf_levels ≡ true = elim (or-true _ _ c) [
        | inl x ↦ x
        | inr x ↦ absurd (clash _ e (not-true _ x))
      ] in
      let z : ltb 0 (suc l) ≡ true = ground arith in
      let s =
        ap (λ y. ltb 0 y) (entry_s t h map (suc l) f i round e)
        ∙ rw (z, b) (lt→ltb 0 t.pte_s h.s_set) in
      leaf_above t l _ ∙ rw (a, b, s) refl
  | inr e ↦ ap (is_leaf t (suc l)) (entry_missing t h map (suc l) f i round e) ∙ zero-leaf t (suc l)
]
