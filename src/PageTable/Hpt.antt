-- ===== src/PageTable/Hpt.antt =====
-- The host's page tables: the masks of include/hpt.hpp and the rights of src/hpt.cpp. The number of leaf levels is
-- what the boot code has set.
use hedron.Prelude.{
  ℕ, ◌+◌, ◌*◌, ◌^◌, ◌<◌, refl, arith, bit_and, bit_or, bit_xor, not, if◌then◌else◌, ◌==◌,
}
use hedron.Word.{has_bits, inv}
use hedron.PageTable.Table.{Attr}
use hedron.PageTable.Words.{Lawful}

abbrev pub pte_p : ℕ
pte_p = 2 ^ 0

abbrev pub pte_w : ℕ
pte_w = 2 ^ 1

abbrev pub pte_u : ℕ
pte_u = 2 ^ 2

abbrev pub pte_uc : ℕ
pte_uc = 2 ^ 4

abbrev pub pte_a : ℕ
pte_a = 2 ^ 5

abbrev pub pte_d : ℕ
pte_d = 2 ^ 6

abbrev pub pte_s : ℕ
pte_s = 2 ^ 7

abbrev pub pte_g : ℕ
pte_g = 2 ^ 8

abbrev pub pte_nodeleg : ℕ
pte_nodeleg = 2 ^ 56

abbrev pub pte_nx : ℕ
pte_nx = 2 ^ 63

abbrev pub mt_mask : ℕ
mt_mask = 0b111

abbrev pub pte_mt_shift : ℕ
pte_mt_shift = 53

-- The bits of the masks are different, so that sums of them are their unions.
abbrev pub all_rights : ℕ
all_rights = pte_p + pte_w + pte_u + pte_a + pte_d

abbrev pub mask : ℕ
mask = pte_nx + mt_mask * 2 ^ pte_mt_shift + pte_nodeleg + pte_uc + pte_g + all_rights

abbrev pub hpt : ℕ → Attr
hpt levels = record {
  mask = mask;
  pte_p = pte_p;
  pte_w = pte_w;
  pte_s = pte_s;
  all_rights = all_rights;
  leaf_levels = levels;
}

pub hpt-Lawful : (levels : ℕ) → 0 < levels → Lawful (hpt levels)
hpt-Lawful levels pos = record {
  mask_word = omega arith;
  middle = omega arith;
  p_word = omega arith;
  p_in = refl;
  s_low = omega arith;
  s_out = refl;
  s_set = omega arith;
  rights_in = refl;
  rights_word = omega arith;
  rights_p = refl;
  some_leaf = pos;
}

-- `Hpt::hw_attr` of rights with `Mdb::MEM_W` and `Mdb::MEM_X`
unfoldable pub hw_attr : ℕ → ℕ
hw_attr a =
    if a == 0
    then 0
    else bit_or (bit_or (pte_p + pte_u + pte_a + pte_d) (if has_bits a 2 then pte_w else 0))
        (if has_bits a 4 then 0 else pte_nx)

abbrev pub changeable : ℕ
changeable = pte_p + pte_w + pte_nx

unfoldable pub merge_hw_attr : ℕ → ℕ → ℕ
merge_hw_attr source desired =
    let source' = bit_xor source pte_nx in
    let desired' = bit_xor desired pte_nx in
    if not (has_bits (bit_and desired source) pte_p)
    then 0
    else bit_xor pte_nx
        (bit_or (bit_and source' (inv changeable)) (bit_and (bit_and source' desired') changeable))
