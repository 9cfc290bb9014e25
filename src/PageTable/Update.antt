-- ===== src/PageTable/Update.antt =====
-- Changes of a page table: `fill_from_superpage`, `walk_down_and_split`, `cleanup`, `fill_entries`, `update` and
-- `replace_readonly_page` of include/generic_page_table.hpp, over include/tlb_cleanup.hpp.
use hedron.Prelude.{
  ℕ, zero, suc, ◌+◌, ◌-◌, ◌*◌, ◌/◌, ◌^◌, bit_and, bit_or, Bool, true, not, ◌&&◌, ◌||◌,
  if◌then◌else◌, ◌==◌, ltb, [], ◌∷◌, Option, none, some,
}
use hedron.Word.{shl, inv, has_bits, add64}
use hedron.Links.{update}
use hedron.PageTable.Table.{
  Attr, bits_per_level, entries, page_bits, Mapping, Memory, write, level_order, virt_to_index,
  present, is_superpage, is_leaf, phys,
}

-- An allocation error is handed on or, by `unwrap`, fatal.
pub data Result {ℓ} (A : Type ℓ) : Type ℓ where
  ok : A → Memory → Result A
  out_of_memory : Memory → Result A
  panicked : Memory → Result A

infixl 1 ◌>>=◌
abbrev pub ◌>>=◌ {ℓ κ} : {A : Type ℓ} {B : Type κ} → Result A → (A → Memory → Result B) → Result B
ok a m >>= f = f a m
out_of_memory m >>= f = out_of_memory m
panicked m >>= f = panicked m

-- `unwrap` of an allocation
abbrev pub unwrap {ℓ} : {A : Type ℓ} → Result A → Result A
unwrap (ok a m) = ok a m
unwrap (out_of_memory m) = panicked m
unwrap (panicked m) = panicked m

-- a page of zeroes
unfoldable pub alloc_zeroed_page : Memory → Result ℕ
alloc_zeroed_page m = elim m.pages [
  | [] ↦ out_of_memory m
  | page ∷ pages ↦ ok page (record m { read = update m.read page (λ _. 0); pages = pages })
]

unfoldable pub flush_tlb_later : Memory → Memory
flush_tlb_later m = record m { tlb_flush = true }

unfoldable pub free_later : ℕ → Memory → Memory
free_later page m = record m { tlb_flush = true; freed = page ∷ m.freed }

-- `for (i; ..; i++)` for so many rounds, which may fail or not
unfoldable pub for {ℓ} : {A : Type ℓ} → A → ℕ → ℕ → (ℕ → Memory → Result A) → Memory → Result A
for a zero i body m = ok a m
for a (suc n) i body m = body i m >>= λ _ m'. for a n (suc i) body m'

unfoldable pub each : ℕ → ℕ → (ℕ → Memory → Memory) → Memory → Memory
each zero i body m = m
each (suc n) i body m = each n (suc i) body (body i m)

abbrev pub moved : Mapping → ℕ → ℕ → Mapping
moved map addr_offset entry_order = record {
  vaddr = add64 map.vaddr addr_offset;
  paddr = add64 map.paddr addr_offset;
  attr = map.attr;
  order = entry_order;
}

-- the number of entries at a level
abbrev pub rounds : Mapping → ℕ → ℕ
rounds map cur_level = 2 ^ (map.order - level_order cur_level)

module _ (t : Attr) where
  -- the entry of a new table for the same translation, with the level of the superpage
  unfoldable pub sub_entry : ℕ → ℕ → ℕ → ℕ
  sub_entry superpage_pte cur_level i =
      let attr_mask = if cur_level == 1 then t.pte_s else 0 in
      bit_or (bit_and superpage_pte (inv attr_mask))
        (shl i (page_bits + (cur_level - 1) * bits_per_level))

  unfoldable pub fill_from_superpage : ℕ → ℕ → ℕ → Memory → Memory
  unfolding sub_entry
  fill_from_superpage new_table superpage_pte cur_level =
      each entries 0 λ i. write new_table i (sub_entry superpage_pte cur_level i)

  -- the next table in place of a leaf, at an entry of a table
  unfoldable pub split_entry : ℕ → ℕ → ℕ → ℕ → Memory → Result ℕ
  unfolding is_superpage
  split_entry table i entry cur_level m = alloc_zeroed_page m >>= λ new_page m₁.
      let new_entry = bit_or new_page (bit_and t.all_rights (inv t.pte_s)) in
      let m₂ =
        if is_superpage t cur_level entry
        then flush_tlb_later (fill_from_superpage new_page entry cur_level m₁)
        else m₁ in
      ok new_page (write table i new_entry m₂)

  -- The table at `to_level`, `none` where there is none and none is wanted.
  unfoldable pub walk_down_and_split : ℕ → ℕ → Bool → ℕ → ℕ → Memory → Result (Option ℕ)
  unfolding virt_to_index
  walk_down_and_split vaddr to_level create table zero m = ok (some table) m
  walk_down_and_split vaddr to_level create table (suc l) m =
      let i = virt_to_index (suc l) vaddr in
      let entry = m.read table i in
      let below = walk_down_and_split vaddr to_level create (phys t entry) l m in
      let split = split_entry table i entry (suc l) m >>= λ new_page.
      walk_down_and_split vaddr to_level create new_page l in
      if to_level == suc l
      then ok (some table) m
      else if not (has_bits entry t.pte_p) && not create
      then ok none m
      else if not (has_bits entry t.pte_p) || is_superpage t (suc l) entry
      then split
      else below

  -- `cleanup`, and `cleanup_table` for a table of the level above
  unfoldable pub cleanup : ℕ → ℕ → Memory → Memory
  cleanup zero pte m = if has_bits pte t.pte_p then flush_tlb_later m else m
  cleanup (suc l) pte m =
      let table = phys t pte in
      let swept = each entries 0 (λ i m. cleanup l (m.read table i) m) m in
      if is_leaf t (suc l) pte
      then (if has_bits pte t.pte_p then flush_tlb_later m else m)
      else free_later table swept

  unfoldable pub cleanup_table : ℕ → ℕ → Memory → Memory
  cleanup_table level table m =
      free_later table (each entries 0 (λ i m. cleanup (level - 1) (m.read table i) m) m)

  -- the entry of a leaf of a mapping
  unfoldable pub new_pte : Mapping → ℕ → ℕ → ℕ
  unfolding present
  new_pte map cur_level addr_offset =
      let create_superpages = ltb 0 cur_level && ltb cur_level t.leaf_levels in
      let new_attr = bit_or map.attr (if create_superpages then t.pte_s else 0) in
      if not (present t map) then 0 else bit_or (bit_or map.paddr addr_offset) new_attr

  unfoldable pub put_leaf : ℕ → ℕ → Mapping → ℕ → ℕ → Memory → Result (Unit {0})
  unfolding new_pte
  put_leaf table k map cur_level addr_offset m =
      ok tt
        (cleanup cur_level (m.read table k) (write table k (new_pte map cur_level addr_offset) m))

  -- the table below an entry, which is made where there is none
  unfoldable pub next_table : ℕ → ℕ → ℕ → Memory → Result ℕ
  next_table table k cur_level m =
      let old_pte = m.read table k in
      let made = unwrap (alloc_zeroed_page m) >>= λ zero_page m'.
      ok zero_page (cleanup cur_level old_pte (write table k (bit_or zero_page t.all_rights) m')) in
      if not (has_bits old_pte t.pte_p) then made else ok (phys t old_pte) m

  unfoldable pub fill_entries : ℕ → ℕ → Mapping → Memory → Result (Unit {0})
  unfolding put_leaf next_table virt_to_index
  fill_entries zero table map =
      let offset = virt_to_index 0 map.vaddr in
      for tt (rounds map 0) 0 λ i. put_leaf table (i + offset) map 0 (shl i (level_order 0))
  fill_entries (suc l) table map =
      let offset = virt_to_index (suc l) map.vaddr in
      for tt (rounds map (suc l)) 0 λ i m.
        let addr_offset = shl i (level_order (suc l)) in
        let sub = next_table table (i + offset) (suc l) m >>= λ below.
        fill_entries l below (moved map addr_offset (level_order (suc l))) in
        if ltb (suc l) t.leaf_levels || not (present t map)
        then put_leaf table (i + offset) map (suc l) addr_offset m
        else sub

  -- `update`, for a table with `top + 1` levels
  unfoldable pub update_table : ℕ → ℕ → Mapping → Memory → Result (Unit {0})
  unfolding walk_down_and_split fill_entries
  update_table root top map m =
      let modified_level = (map.order - page_bits) / bits_per_level in
      walk_down_and_split map.vaddr modified_level (present t map) root top m >>= λ table m'.
      elim table [ none ↦ ok tt m' | some table ↦ fill_entries modified_level table map m' ]

  -- the physical address behind the page
  unfoldable pub replace_readonly_page : ℕ → ℕ → ℕ → ℕ → ℕ → Memory → Result ℕ
  unfolding walk_down_and_split
  replace_readonly_page root top vaddr paddr attr m =
      let wrong =
        has_bits paddr t.mask || has_bits attr (inv t.mask) || not (has_bits attr t.pte_p) in
      let replaced = unwrap (walk_down_and_split vaddr 0 true root top m) >>= λ table m'.
      elim table [
        | none ↦ panicked m'
        | some table ↦
            let k = virt_to_index 0 vaddr in
            let new_pte = bit_or paddr attr in
            let old_pte = m'.read table k in
            if not (old_pte == new_pte) && not (has_bits old_pte t.pte_w)
            then ok (phys t new_pte) (write table k new_pte m')
            else ok (phys t old_pte) m'
      ] in
      if wrong then panicked m else replaced
