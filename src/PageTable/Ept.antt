-- ===== src/PageTable/Ept.antt =====
-- The guests' page tables: the masks of include/ept.hpp and the conversion of src/ept.cpp.
use hedron.Prelude.{
  ℕ, ◌+◌, ◌-◌, ◌*◌, ◌^◌, ◌<◌, refl, arith, bit_and, bit_or, not, ◌&&◌, if◌then◌else◌, Option, none,
  some,
}
use hedron.Word.{has_bits, shr, shl}
use hedron.PageTable.Hpt
use hedron.PageTable.Table.{Attr, Mapping}
use hedron.PageTable.Words.{Lawful}

abbrev pub pte_r : ℕ
pte_r = 2 ^ 0

abbrev pub pte_w : ℕ
pte_w = 2 ^ 1

abbrev pub pte_x : ℕ
pte_x = 2 ^ 2

abbrev pub pte_p : ℕ
pte_p = pte_r + pte_w + pte_x

abbrev pub pte_i : ℕ
pte_i = 2 ^ 6

abbrev pub pte_s : ℕ
pte_s = 2 ^ 7

abbrev pub pte_mt_shift : ℕ
pte_mt_shift = 3

abbrev pub mask : ℕ
mask = pte_r + pte_w + pte_x + pte_i + 0b111 * 2 ^ pte_mt_shift

abbrev pub ept : ℕ → Attr
ept levels = record {
  mask = mask;
  pte_p = pte_p;
  pte_w = pte_w;
  pte_s = pte_s;
  all_rights = pte_r + pte_w + pte_x;
  leaf_levels = levels;
}

pub ept-Lawful : (levels : ℕ) → 0 < levels → Lawful (ept levels)
ept-Lawful levels pos = record {
  mask_word = omega arith;
  middle = omega arith;
  p_word = omega arith;
  p_in = refl;
  s_low = omega arith;
  s_out = refl;
  s_set = omega arith;
  rights_in = refl;
  rights_word = omega arith;
  rights_p = refl;
  some_leaf = pos;
}

-- `none` where an assertion fails
unfoldable pub attr_from_hpt : ℕ → Option ℕ
attr_from_hpt a =
    let mt = shl (bit_and (shr a Hpt.pte_mt_shift) Hpt.mt_mask) pte_mt_shift in
    let rights =
      bit_or (bit_or (bit_or mt pte_r) (if has_bits a Hpt.pte_w then pte_w else 0))
        (if has_bits a Hpt.pte_nx then 0 else pte_x) in
    if not (has_bits a Hpt.pte_p)
    then some 0
    else if has_bits a Hpt.pte_u && not (has_bits a Hpt.pte_nodeleg)
    then some rights
    else none

unfoldable pub convert_mapping : Mapping → Option Mapping
unfolding attr_from_hpt
convert_mapping map = elim (attr_from_hpt map.attr) [
  | none ↦ none
  | some a ↦ some (record { vaddr = map.vaddr; paddr = map.paddr; attr = a; order = map.order })
]

-- an entry of the VMCS: the root, one less than the number of levels, and the memory type
unfoldable pub vmcs_eptp : ℕ → ℕ → ℕ
vmcs_eptp root max_levels = bit_or (bit_or root (shl (max_levels - 1) 3)) 6
