-- ===== src/PageTable/Delegate.antt =====
-- The mapping that a delegation of memory hands out: `lookup_and_adjust_rights` of src/space_mem.cpp,
-- `Mapping::move_by` of include/generic_page_table.hpp, and `max_order` of include/math.hpp.
use hedron.Prelude.{
  ℕ, zero, suc, ◌+◌, ◌*◌, ◌/◌, ◌%◌, ◌^◌, ◌<◌, ◌≤◌, ◌≡◌, inl, inr, refl, sym, ap, ap₂, ◌∙◌, arith,
  bit_and, min, max, Bool-cases, lt→ltb, if_intro, Bool, true, false, not, ◌&&◌, ◌||◌,
  if◌then◌else◌, ◌==◌, ltb, leb,
}
use native.Mathlib.Decide.{ℕ_discrete}
use native.Mathlib.Nat.{div-add-mod', mod-eq_of_lt, mul-mod_left}
use hedron.Prelude.Bits.{bit}
use hedron.Word.{has_bits, add64}
use hedron.PageTable.Hpt
use hedron.PageTable.Hpt.{hpt, merge_hw_attr, changeable}
use hedron.PageTable.Table.{Mapping, Memory, lookup, present}
use hedron.PageTable.Words.{lt_or_le}
use hedron.PageTable.Install.{clash}
use hedron.PageTable.Rights.{has_bit, both_bits, merge_missing, merged_rights}

-- the highest bit of a word that is not zero, among the lowest `suc w`
unfoldable pub bit_scan_reverse : ℕ → ℕ → ℕ
bit_scan_reverse zero x = 0
bit_scan_reverse (suc w) x =
    let rest = bit_scan_reverse w x in if leb (2 ^ suc w) x then suc w else rest

-- the lowest bit of a word that is not zero, from the bit `i`
unfoldable pub bit_scan_forward : ℕ → ℕ → ℕ → ℕ
bit_scan_forward zero i x = i
bit_scan_forward (suc n) i x =
    let rest = bit_scan_forward n (suc i) x in if bit x i == 1 then i else rest

unfoldable pub max_order : ℕ → ℕ → ℕ
unfolding bit_scan_reverse bit_scan_forward
max_order base size =
    let o = bit_scan_reverse 63 size in if base == 0 then o else min (bit_scan_forward 63 0 base) o

unfoldable pub move_by : ℕ → Mapping → Mapping
unfolding max_order
move_by offset map = if offset == 0 then map else record {
  vaddr = add64 map.vaddr offset;
  paddr = map.paddr;
  attr = map.attr;
  order = min map.order (max_order 0 offset);
}

-- the empty mapping at the place
abbrev empty_mapping : ℕ → ℕ → Mapping
empty_mapping snd_cur snd_end = record {
  vaddr = snd_cur;
  paddr = 0;
  attr = 0;
  order = max_order snd_cur snd_end;
}

-- whether the mapping must not be handed out
abbrev refused : ℕ → Mapping → Bool
refused levels map =
    present (hpt levels) map
    && (has_bits map.attr Hpt.pte_nodeleg || not (has_bits map.attr Hpt.pte_u))

-- The sender's page tables have `top + 1` levels.
unfoldable pub lookup_and_adjust_rights : Memory → ℕ → ℕ → ℕ → ℕ → ℕ → ℕ → Mapping
lookup_and_adjust_rights m levels root top snd_cur snd_end hw_attr =
    let empty = empty_mapping snd_cur snd_end in
    let found =
      if not (has_bits hw_attr Hpt.pte_p) then empty else lookup (hpt levels) m snd_cur root top in
    let mapping = if refused levels found then empty else found in
    record mapping { attr = merge_hw_attr mapping.attr hw_attr }

-- The scan finds no bit lower than one that is there.
scan_reaches : (w o x : ℕ) → o ≤ w → 2 ^ o ≤ x → o ≤ bit_scan_reverse w x
unfolding bit_scan_reverse
scan_reaches zero o x le lt = le
scan_reaches (suc w) o x le lt =
    if_intro (λ y. o ≤ y) (leb (2 ^ suc w) x) _ _ (λ e. le)
      λ e. elim (ℕ_discrete o (suc w)) [
        | yes y ↦ absurd (clash _ (let z = ap (λ (k : ℕ). 2 ^ k) y in ground arith) e)
        | no n ↦ scan_reaches w o x (omega arith) lt
      ]

-- A multiple that is not zero is no less.
at_least : (x n : ℕ) → 0 < x → x % n ≡ 0 → n ≤ x
at_least x n pos e = elim (lt_or_le x n) [
  | inl y ↦ (let z = mod-eq_of_lt y in omega arith)
  | inr y ↦ y
]

-- Moved by a multiple of its size, a mapping keeps its size and stays aligned; it is not moved over the end.
pub move_by-Aligned :
    (map : Mapping) (offset : ℕ)
    → map.order < 64
    → map.vaddr % 2 ^ map.order ≡ 0
    → offset % 2 ^ map.order ≡ 0
    → map.vaddr + offset < 2 ^ 64
    → let moved = move_by offset map in
      (moved.order ≡ map.order)
      × (moved.vaddr ≡ map.vaddr + offset)
      × (moved.vaddr % 2 ^ moved.order ≡ 0)
      × (moved.paddr ≡ map.paddr)
      × (moved.attr ≡ map.attr)
unfolding move_by max_order
move_by-Aligned map offset small a b word = elim (Bool-cases (offset == 0)) [
  | inl e ↦
      let z : offset ≡ 0 = ground arith in
      let y : map.vaddr ≡ map.vaddr + offset = omega arith in rw e (refl, y, a, refl, refl)
  | inr e ↦
      let n = 2 ^ map.order in
      let v : add64 map.vaddr offset ≡ map.vaddr + offset =
        (let y : (map.vaddr + offset) % 2 ^ 64 ≡ map.vaddr + offset = omega arith in y) in
      let q = offset / n in
      let d = div-add-mod' offset n in
      let d' = div-add-mod' map.vaddr n in
      let pos : 0 < offset = ground arith in
      let le : n ≤ offset = at_least offset n pos b in
      let o : min map.order (bit_scan_reverse 63 offset) ≡ map.order =
        (let y = scan_reaches 63 map.order offset (omega arith) le in omega arith) in
      let s : (map.vaddr / n + q) * n ≡ map.vaddr + offset =
        (let y : (map.vaddr / n + q) * n ≡ map.vaddr / n * n + q * n = grind arith in
          omega arith) in
      let w : add64 map.vaddr offset % 2 ^ min map.order (bit_scan_reverse 63 offset) ≡ 0 =
        ap₂ (λ (x y : ℕ). x % 2 ^ y) (v ∙ sym s) o ∙ mul-mod_left (map.vaddr / n + q) n in
      rw e (o, v, w, refl, refl)
]

and_not : (p n u : Bool) → p ≡ true → p && (n || not u) ≡ false → (u ≡ true) × (n ≡ false)
and_not true true u h e = cc
and_not true false true h e = (refl, refl)
and_not true false false h e = cc
and_not false n u h e = cc

-- A mapping that is present is not the empty one.
found_itself :
    (u r : Bool) (empty source : Mapping)
    → empty.attr ≡ 0
    → bit (if r then empty else (if u then empty else source)).attr 0 ≡ 1
    → (r ≡ false) × (u ≡ false)
found_itself true true empty source z e = absurd (let y = ap (λ k. bit k 0) z in omega arith)
found_itself true false empty source z e = absurd (let y = ap (λ k. bit k 0) z in omega arith)
found_itself false true empty source z e = absurd (let y = ap (λ k. bit k 0) z in omega arith)
found_itself false false empty source z e = (refl, refl)

merged_present :
    (s d : ℕ)
    → has_bits (merge_hw_attr s d) Hpt.pte_p ≡ true
    → has_bits (bit_and d s) Hpt.pte_p ≡ true
merged_present s d e = elim (Bool-cases (has_bits (bit_and d s) Hpt.pte_p)) [
  | inl y ↦ y
  | inr y ↦ absurd (clash _ e (ap (λ k. has_bits k Hpt.pte_p) (merge_missing s d y) ∙ refl))
]

-- What a delegation hands out, if anything: the sender's mapping can be accessed by its user and delegated, and the
-- right to write and the right to execute are those that both the sender's mapping and the delegation have. Attributes
-- are words.
pub lookup_and_adjust_rights-Rights :
    (m : Memory) (levels root top snd_cur snd_end hw_attr : ℕ)
    → hw_attr < 2 ^ 64
    → let source = lookup (hpt levels) m snd_cur root top in
      let target = lookup_and_adjust_rights m levels root top snd_cur snd_end hw_attr in
      source.attr < 2 ^ 64
      → present (hpt levels) target ≡ true
      → (has_bits source.attr Hpt.pte_u ≡ true)
        × (has_bits source.attr Hpt.pte_nodeleg ≡ false)
        × (target.paddr ≡ source.paddr)
        × (bit target.attr 1 ≡ min (bit source.attr 1) (bit hw_attr 1))
        × (bit target.attr 63 ≡ max (bit source.attr 63) (bit hw_attr 63))
unfolding lookup_and_adjust_rights present
lookup_and_adjust_rights-Rights m levels root top snd_cur snd_end hw_attr word source_word e =
    let source = lookup (hpt levels) m snd_cur root top in
    let empty = empty_mapping snd_cur snd_end in
    let unmap = not (has_bits hw_attr Hpt.pte_p) in
    let found = if unmap then empty else source in
    let mapping = if refused levels found then empty else found in
    let both = merged_present mapping.attr hw_attr e in
    let (_, y) = both_bits 0 hw_attr mapping.attr both in
    let (r, u) = found_itself unmap (refused levels found) empty source refl y in
    let f : found ≡ source = rw u refl in
    let g : mapping ≡ source = rw r f in
    let kept : refused levels source ≡ false = ap (refused levels) (sym f) ∙ r in
    let y' : bit source.attr 0 ≡ 1 = ap (λ k. bit k.attr 0) (sym g) ∙ y in
    let here : present (hpt levels) source ≡ true =
      has_bit 0 source.attr ∙ ap (λ k. ltb 0 k) y' ∙ lt→ltb 0 1 (omega arith) in
    let (user, delegatable) = and_not _ _ _ here kept in
    let both' = ap (λ k. has_bits (bit_and hw_attr k.attr) Hpt.pte_p) (sym g) ∙ both in
    let (_, w, nx, _) = merged_rights source.attr hw_attr source_word word both' in
    (
      user,
      delegatable,
      ap (λ k. k.paddr) g,
      ap (λ k. bit (merge_hw_attr k.attr hw_attr) 1) g ∙ w,
      ap (λ k. bit (merge_hw_attr k.attr hw_attr) 63) g ∙ nx,
    )
