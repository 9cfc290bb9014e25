-- ===== src/PageTable/View.antt =====
-- What a page table says of an address: the physical address and the attributes, where it is mapped. Where it
-- ends at a superpage or a page is forgotten.
use hedron.Prelude.{
  ℕ, zero, suc, ◌+◌, ◌-◌, ◌*◌, ◌/◌, ◌%◌, ◌^◌, ◌<◌, ◌≤◌, ◌≡◌, inl, inr, refl, ap, ◌∙◌, arith,
  bit_and, Bool-cases, true, false, if◌then◌else◌, ltb, Option, none, some,
}
use native.Mathlib.Nat.{
  mul-add-mod_self_right, mul-mod_left, mod-eq_of_lt, mod-lt, div-add-mod', mul_assoc,
}
use hedron.Prelude.Bits.{and-lt, or_comm, pow_pos}
use hedron.Word.{has_bits}
use hedron.Word.Laws.{or_aligned, and-low_ones, and-inv-low_ones, pow-add}
use hedron.PageTable.Table.{
  Attr, Mapping, Memory, level_order, virt_to_index, present, is_leaf, phys, leaf_mapping, lookup,
  phys_of, offset_mask,
}
use hedron.PageTable.Words.{Lawful, mask_p}

-- the number of the page that an entry names
abbrev pub frame : Attr → ℕ → ℕ
frame t entry = phys t entry / 2 ^ 12

-- An entry is a word, and one that maps a superpage names its first page.
pub record Framed (t : Attr) (level entry : ℕ) : Type 0 where
  pub word : entry < 2 ^ 64
  pub first : has_bits entry t.pte_p ≡ true → frame t entry % 2 ^ (level * 9) ≡ 0

-- the physical address and the attributes behind `lookup_phys`
unfoldable pub seen : Attr → ℕ → Mapping → Option (ℕ × ℕ)
unfolding phys_of
seen t vaddr map =
    if (phys_of t vaddr map).0 then some ((phys_of t vaddr map).1, map.attr) else none

abbrev pub view : Attr → Memory → ℕ → ℕ → ℕ → Option (ℕ × ℕ)
view t m vaddr table level = seen t vaddr (lookup t m vaddr table level)

abbrev pub entry_view : Attr → ℕ → ℕ → ℕ → Option (ℕ × ℕ)
entry_view t vaddr entry level =
    if has_bits entry t.pte_p
    then some (frame t entry * 2 ^ 12 + vaddr % 2 ^ level_order level, bit_and entry t.mask)
    else none

-- An address cut to a block whose number it is the multiple of.
cut_block :
    (x k : ℕ)
    → x / 2 ^ 12 % 2 ^ k ≡ 0
    → (x - x % 2 ^ (k + 12) ≡ x / 2 ^ 12 * 2 ^ 12) × (x / 2 ^ 12 * 2 ^ 12 % 2 ^ (k + 12) ≡ 0)
cut_block x k e =
    let n = x / 2 ^ 12 in
    let q = n / 2 ^ k in
    let p : 2 ^ (k + 12) ≡ 2 ^ k * 2 ^ 12 = pow-add k 12 in
    let n' : n ≡ q * 2 ^ k = omega (arith, div-add-mod' n (2 ^ k)) in
    let s : n * 2 ^ 12 ≡ q * 2 ^ (k + 12) =
      omega (arith, ap (λ (y : ℕ). q * y) p, mul_assoc q (2 ^ k) (2 ^ 12)) in
    let r : x % 2 ^ 12 < 2 ^ (k + 12) = omega (arith, pow_pos k) in
    let x' : x ≡ q * 2 ^ (k + 12) + x % 2 ^ 12 = omega (arith, div-add-mod' x (2 ^ 12)) in
    let m : x % 2 ^ (k + 12) ≡ x % 2 ^ 12 =
      ap (λ (y : ℕ). y % 2 ^ (k + 12)) x'
      ∙ mul-add-mod_self_right q (2 ^ (k + 12)) (x % 2 ^ 12)
      ∙ mod-eq_of_lt r in
    (omega arith, ap (λ (y : ℕ). y % 2 ^ (k + 12)) s ∙ mul-mod_left q (2 ^ (k + 12)))

module _ (t : Attr) (h : Lawful t) where
  pub leaf-view :
      (v entry level : ℕ)
      → Framed t level entry
      → v < 2 ^ 64
      → level ≤ 4
      → seen t v (leaf_mapping t v entry level) ≡ entry_view t v entry level
  unfolding seen leaf_mapping present offset_mask
  leaf-view v entry level w word low =
      let o = level_order level in
      let o' : o < 64 = omega arith in
      let p : has_bits (bit_and entry t.mask) t.pte_p ≡ has_bits entry t.pte_p =
        ap (λ x. ltb 0 x) (mask_p t h entry w.word) in
      elim (Bool-cases (has_bits entry t.pte_p)) [
        | inl e ↦
            let (c, z) = cut_block (phys t entry) (level * 9) (w.first e) in
            rw (p, e)
              (ap (λ x. some (x, bit_and entry t.mask))
                (rw
                  (
                    and-low_ones v o o',
                    and-inv-low_ones (phys t entry) o (and-lt 64 _ _ w.word) o',
                    c,
                  )
                  (or_comm _ _ ∙ or_aligned o _ _ z (mod-lt v (pow_pos o)))))
        | inr e ↦ rw (p, e) refl
      ]

  -- A leaf on the way.
  pub view_leaf :
      (m : Memory) (v table level : ℕ)
      → is_leaf t level (m.read table (virt_to_index level v)) ≡ true
      → Framed t level (m.read table (virt_to_index level v))
      → v < 2 ^ 64
      → level ≤ 4
      → view t m v table level ≡ entry_view t v (m.read table (virt_to_index level v)) level
  unfolding lookup
  view_leaf m v table zero e w word low = leaf-view v _ 0 w word low
  view_leaf m v table (suc l) e w word low = rw e (leaf-view v _ (suc l) w word low)

pub view_table :
    (t : Attr) (m : Memory) (v table l : ℕ)
    → is_leaf t (suc l) (m.read table (virt_to_index (suc l) v)) ≡ false
    → view t m v table (suc l) ≡ view t m v (phys t (m.read table (virt_to_index (suc l) v))) l
unfolding lookup
view_table t m v table l e = rw e refl
