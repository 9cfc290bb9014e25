-- ===== src/Tests/PageTables.antt =====
-- Page tables at a concrete memory: the root has a superpage of 512 GB as its first entry, and nothing else.
use hedron.Prelude.{
  ℕ, suc, ◌^◌, ◌<◌, ◌≤◌, ◌≡◌, inl, refl, arith, min, max, if_intro, true, false, if◌then◌else◌,
  ◌==◌, ltb, some, [], ◌∷◌,
}
use hedron.Prelude.Bits.{bit}
use hedron.Word.{has_bits}
use hedron.PageTable.Table.{
  Attr, Mapping, Memory, virt_to_index, present, is_superpage, is_leaf, leaf_mapping, lookup,
  lookup_phys,
}
use hedron.PageTable.Update.{walk_down_and_split, update_table, ok}
use hedron.PageTable.Words.{Lawful}
use hedron.PageTable.View.{Framed, view}
use hedron.PageTable.Shape.{Tags, Sound}
use hedron.PageTable.Install.{clash}
use hedron.PageTable.Split.{zero-leaf, zero-Framed}
use hedron.PageTable.Updated.{Request}
use hedron.PageTable.Supply.{update_table-returns}
use hedron.PageTable.Translation.{
  memory, Translated, Kept, walk_down_and_split-view, update_table-view, update_table-Sound,
  lookup_phys-update_table,
}
use hedron.PageTable.Hpt.{hpt, hpt-Lawful, merge_hw_attr, changeable}
use hedron.PageTable.Hpt
use hedron.PageTable.Ept
use hedron.PageTable.Ept.{convert_mapping}
use hedron.PageTable.Rights.{Converted, convert_mapping-Rights}
use hedron.PageTable.Delegate.{
  bit_scan_reverse, max_order, move_by, lookup_and_adjust_rights, lookup_and_adjust_rights-Rights,
}

-- all superpages, as of the page table that keeps what the kernel owns
abbrev golden : Attr
golden = hpt 4

abbrev golden-Lawful : Lawful golden
golden-Lawful = hpt-Lawful 4 (omega arith)

abbrev root_page : ℕ
root_page = 0x1000

abbrev before : Memory
before = record {
  read = λ q i. if i == 0 then 0xe7 else 0;
  pages = 0x2000 ∷ 0x3000 ∷ 0x4000 ∷ [];
  tlb_flush = false;
  freed = [];
}

abbrev tables : Tags
tables = record { used = λ q. q == root_page; level = λ q. 3; prefix = λ q. 0 }

only_leaves : (l q i : ℕ) → l ≤ 3 → is_leaf golden l (before.read q i) ≡ true
unfolding is_leaf is_superpage
only_leaves l q i le =
    let low : ltb l 4 ≡ true = ground arith in
    if_intro (λ y. is_leaf golden l y ≡ true) (i == 0) _ _ (λ e. rw low (ground arith))
      (λ e. zero-leaf golden l)

before-Sound : Sound golden before tables
before-Sound = record {
  child = λ q i l u e lt y. absurd (clash _ (only_leaves (suc l) q i (omega arith)) y);
  framed = λ q i u lt y.
      if_intro (λ z. Framed golden 3 z) (i == 0) 0xe7 0
        (λ e. record { word = omega arith; first = λ _. refl }) (λ e. zero-Framed golden 3);
  low = λ q u. omega arith;
  fresh = (
    (refl, record { word = omega arith; no_attr = refl; no_s = refl }),
    (
      (refl, record { word = omega arith; no_attr = refl; no_s = refl }),
      ((refl, record { word = omega arith; no_attr = refl; no_s = refl }), tt),
    ),
  );
  distinct = ((λ e. omega arith, (λ e. omega arith, tt)), ((λ e. omega arith, tt), (tt, tt)));
}

abbrev page_map : Mapping
page_map = record { vaddr = 0x5000; paddr = 0x9000; attr = 0x67; order = 12 }

page_map-Request : Request golden page_map 3
page_map-Request = record {
  vaddr_aligned = refl;
  paddr_aligned = refl;
  vaddr_word = omega arith;
  paddr_low = omega arith;
  attr_in = refl;
  attr_word = omega arith;
  page = omega arith;
  part = omega arith;
}

page_map-present : present golden page_map ≡ true
unfolding present
page_map-present = refl

guest_map :
    convert_mapping page_map
    ≡ some (record { vaddr = 0x5000; paddr = 0x9000; attr = 0x7; order = 12 })
unfolding convert_mapping Ept.attr_from_hpt
guest_map = refl

source_word : (lookup golden before 0x5000 0x1000 3).attr < 2 ^ 64
unfolding lookup leaf_mapping virt_to_index is_leaf is_superpage
source_word = omega arith

target_present :
    present golden (lookup_and_adjust_rights before 4 0x1000 3 0x5000 0x6000 0x65) ≡ true
unfolding lookup_and_adjust_rights lookup leaf_mapping virt_to_index is_leaf is_superpage
    merge_hw_attr present
target_present = refl

walk_down_and_split-view_example :
    view golden (memory (walk_down_and_split golden 0x5000 0 true 0x1000 3 before)) 0x7008 0x1000 3
    ≡ view golden before 0x7008 0x1000 3
walk_down_and_split-view_example =
    walk_down_and_split-view golden golden-Lawful before tables before-Sound 0x1000 3 refl refl
      0x5000 0 true 0x7008 (omega arith) (omega arith) refl refl

update_table-view_example :
    Translated golden before 0x1000 3 page_map 0x5008 (update_table golden 0x1000 3 page_map before)
update_table-view_example =
    update_table-view golden golden-Lawful before tables before-Sound 0x1000 3 refl refl page_map
      0x5008 page_map-Request (omega arith) refl refl

update_table-Sound_example : Kept golden 0x1000 3 (update_table golden 0x1000 3 page_map before)
update_table-Sound_example =
    update_table-Sound golden golden-Lawful before tables before-Sound 0x1000 3 refl refl page_map
      page_map-Request refl

lookup_phys-update_table_example :
    lookup_phys golden (memory (update_table golden 0x1000 3 page_map before)) 0x5008 0x1000 3
    ≡ (true, 0x9008)
lookup_phys-update_table_example =
    lookup_phys-update_table golden golden-Lawful before tables before-Sound 0x1000 3 refl refl
      page_map 0x5008 page_map-Request (omega arith) refl refl page_map-present (omega arith)
      (omega arith) (inl refl) (omega arith)

update_table-returns_example :
    (m' : Memory) × (update_table golden 0x1000 3 page_map before ≡ ok tt m')
update_table-returns_example =
    update_table-returns golden 0x1000 3 page_map before (inl refl) (omega arith)

convert_mapping-Rights_example :
    Converted 0x67 0x7
    × (page_map.vaddr ≡ 0x5000)
    × (page_map.paddr ≡ 0x9000)
    × (page_map.order ≡ 12)
convert_mapping-Rights_example =
    convert_mapping-Rights page_map
      (record { vaddr = 0x5000; paddr = 0x9000; attr = 0x7; order = 12 }) guest_map

lookup_and_adjust_rights-Rights_example :
    let source = lookup golden before 0x5000 0x1000 3 in
    let target = lookup_and_adjust_rights before 4 0x1000 3 0x5000 0x6000 0x65 in
    (has_bits source.attr Hpt.pte_u ≡ true)
    × (has_bits source.attr Hpt.pte_nodeleg ≡ false)
    × (target.paddr ≡ source.paddr)
    × (bit target.attr 1 ≡ min (bit source.attr 1) (bit 0x65 1))
    × (bit target.attr 63 ≡ max (bit source.attr 63) (bit 0x65 63))
lookup_and_adjust_rights-Rights_example =
    lookup_and_adjust_rights-Rights before 4 0x1000 3 0x5000 0x6000 0x65 (omega arith) source_word
      target_present

-- Moved by an offset that is no multiple of its size, a mapping is not shrunk to where it is aligned.
moved_astray :
    let target = move_by 0x3000 (record { vaddr = 0x2000; paddr = 0; attr = 0; order = 13 }) in
    (target.vaddr ≡ 0x5000) × (target.order ≡ 13)
unfolding move_by max_order bit_scan_reverse
moved_astray = (refl, refl)
