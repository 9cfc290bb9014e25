-- ===== src/PageTable/Table.antt =====
-- Entries and lookups: `Mapping`, `is_leaf`, `lookup`, `lookup_phys` of include/generic_page_table.hpp.
use hedron.Prelude.{
  ℕ, zero, suc, ◌+◌, ◌*◌, bit_and, bit_or, min, Bool, not, ◌&&◌, ◌||◌, if◌then◌else◌, ◌==◌, ltb,
  List,
}
use hedron.Word.{shr, inv, low_ones, has_bits, add64, sub64}
use hedron.Links.{update}

-- what the class of a page table says of its entries: `ATTR`
pub record Attr : Type 0 where
  pub mask : ℕ
  pub pte_p : ℕ
  pub pte_w : ℕ
  pub pte_s : ℕ
  pub all_rights : ℕ
  -- the number of levels that can be leaves
  pub leaf_levels : ℕ

abbrev pub bits_per_level : ℕ
bits_per_level = 9

-- 1 << BITS_PER_LEVEL
abbrev pub entries : ℕ
entries = 512

abbrev pub page_bits : ℕ
page_bits = 12

pub record Mapping : Type 0 where
  pub vaddr : ℕ
  pub paddr : ℕ
  pub attr : ℕ
  pub order : ℕ

-- The entries of all tables, the pages that the allocator will hand out, and what a clean-up object holds.
pub record Memory : Type 0 where
  pub read : ℕ → ℕ → ℕ
  pub pages : List ℕ
  pub tlb_flush : Bool
  pub freed : List ℕ

unfoldable pub write : ℕ → ℕ → ℕ → Memory → Memory
write table i entry m = record m { read = update m.read table (update (m.read table) i entry) }

-- the order of an entry
abbrev pub level_order : ℕ → ℕ
level_order level = level * bits_per_level + page_bits

unfoldable pub virt_to_index : ℕ → ℕ → ℕ
virt_to_index level vaddr = bit_and (shr vaddr (level_order level)) (low_ones bits_per_level)

-- `Mapping::size() - 1` and `Mapping::clamp`
unfoldable pub offset_mask : Mapping → ℕ
offset_mask map = low_ones map.order

unfoldable pub clamp : Mapping → ℕ → ℕ → Mapping
clamp map snd_base snd_order =
    let clamp_vaddr = bit_or map.vaddr snd_base in
    let clamp_offset = sub64 clamp_vaddr map.vaddr in
    record {
      vaddr = clamp_vaddr;
      paddr = add64 map.paddr clamp_offset;
      attr = map.attr;
      order = min map.order snd_order;
    }

module _ (t : Attr) where
  -- `Mapping::present`
  unfoldable pub present : Mapping → Bool
  present map = has_bits map.attr t.pte_p

  unfoldable pub is_superpage : ℕ → ℕ → Bool
  is_superpage level entry =
      has_bits entry t.pte_p && ltb level t.leaf_levels && has_bits entry t.pte_s

  unfoldable pub is_leaf : ℕ → ℕ → Bool
  unfolding is_superpage
  is_leaf level entry = level == 0 || not (has_bits entry t.pte_p) || is_superpage level entry

  -- entry & ~ATTR::mask
  abbrev pub phys : ℕ → ℕ
  phys entry = bit_and entry (inv t.mask)

  -- the mapping of a leaf
  unfoldable pub leaf_mapping : ℕ → ℕ → ℕ → Mapping
  leaf_mapping vaddr entry level =
      let map_order = level_order level in
      let low = low_ones map_order in
      record {
        vaddr = bit_and vaddr (inv low);
        paddr = bit_and (phys entry) (inv low);
        attr = bit_and entry t.mask;
        order = map_order;
      }

  unfoldable pub lookup : Memory → ℕ → ℕ → ℕ → Mapping
  unfolding virt_to_index leaf_mapping
  lookup m vaddr table zero = leaf_mapping vaddr (m.read table (virt_to_index 0 vaddr)) 0
  lookup m vaddr table (suc l) =
      let entry = m.read table (virt_to_index (suc l) vaddr) in
      let rest = lookup m vaddr (phys entry) l in
      if is_leaf (suc l) entry then leaf_mapping vaddr entry (suc l) else rest

  -- whether there is a mapping, and the physical address
  unfoldable pub phys_of : ℕ → Mapping → Bool × ℕ
  unfolding present offset_mask
  phys_of vaddr map =
      (present map, if present map then bit_or (bit_and vaddr (offset_mask map)) map.paddr else 0)

  unfoldable pub lookup_phys : Memory → ℕ → ℕ → ℕ → Bool × ℕ
  unfolding lookup phys_of
  lookup_phys m vaddr root top = phys_of vaddr (lookup m vaddr root top)
