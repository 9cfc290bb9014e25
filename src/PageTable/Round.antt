-- ===== src/PageTable/Round.antt =====
-- A round of the loop of `fill_entries` of include/generic_page_table.hpp: an entry becomes a leaf, or the table below
-- it is filled.
use hedron.Prelude.{
  ℕ, suc, ◌+◌, ◌-◌, ◌*◌, ◌/◌, ◌%◌, ◌^◌, ◌<◌, ◌≤◌, ◌≡◌, ◌⊎◌, inl, inr, sym, ap, subst, subst₂, ◌∙◌,
  arith, true, not, ◌||◌, if◌then◌else◌, ltb, none, some,
}
use native.Mathlib.Nat.{mul-mod_left}
use hedron.Word.{has_bits, shl}
use hedron.Prelude.Bits.{pow_pos}
use hedron.PageTable.Table.{
  Attr, Mapping, Memory, write, level_order, virt_to_index, present, is_leaf, phys,
}
use hedron.PageTable.Update.{moved, rounds, cleanup, new_pte, put_leaf}
use hedron.PageTable.Words.{Lawful}
use hedron.PageTable.View.{view, view_table}
use hedron.PageTable.Shape.{Tags, Covers, Sound, child-Covers}
use hedron.PageTable.Writes.{write_self, write_other, write_pages}
use hedron.PageTable.Split.{Grown-trans, Covers-Grown, Above-trans, Splits}
use hedron.PageTable.Cleanup.{cleanup-Same, Outcome}
use hedron.PageTable.Leaf.{mapped, Fills, in_block, covered_block, block-Covers, leaf-Fills}
use hedron.PageTable.Entry.{
  Fits, offset-lt, offset_shl, paddr_blocks, vaddr_blocks, new_pte-Framed, new_pte-view,
  new_pte-leaf,
}
use hedron.PageTable.Fill.{rounds-le}

module _ (t : Attr) (h : Lawful t) (map : Mapping) (p l : ℕ) (f : Fits t map l) (m : Memory)
    (g : Tags) (s : Sound t m g) (used : g.used p ≡ true) (level : g.level p ≡ l)
    (covers : Covers g p map.vaddr) (i : ℕ) (round : i < rounds map l) where
  abbrev index : ℕ
  index = i + virt_to_index l map.vaddr

  abbrev start : ℕ
  start = map.vaddr + i * 2 ^ level_order l

  index-low : index < 512
  index-low = let a = rounds-le t map l f in omega arith

  entry_number : map.vaddr / 2 ^ level_order l + i ≡ g.prefix p * 512 + index
  entry_number = let a = covered_block g p l map.vaddr level covers in omega arith

  start_number : start ≡ (g.prefix p * 512 + index) * 2 ^ level_order l
  start_number =
      vaddr_blocks t h map l f i round ∙ ap (λ (y : ℕ). y * 2 ^ level_order l) entry_number

  pub put_leaf_lem :
      (l ≡ 0) ⊎ (ltb l t.leaf_levels || not (present t map) ≡ true)
      → Outcome
          (λ m'. (g' : Tags) × Fills t map l p m m' g g' start (start + 2 ^ level_order l))
          (put_leaf t p index map l (shl i (level_order l)) m)
  unfolding put_leaf
  put_leaf_lem c =
      let e = new_pte t map l (shl i (level_order l)) in
      let w = write p index e m in
      let same = cleanup-Same t l (m.read p index) w in
      (
        g,
        leaf-Fills t h map m (cleanup t l (m.read p index) w) g s p l index e used level index-low
            (ap (λ r. r p index) same.read ∙ write_self p index e m)
            (λ q j o. ap (λ r. r q j) same.read ∙ write_other p index e m q j o)
            (same.pages ∙ write_pages p index e m) (new_pte-leaf t h map l f i round c)
            (new_pte-Framed t h map l f i round)
            (λ v word at. new_pte-view t h map l f i round v (at ∙ sym entry_number)) start
            start_number,
      )

module _ (t : Attr) (h : Lawful t) (map : Mapping) (p l : ℕ) (f : Fits t map (suc l)) (m : Memory)
    (g : Tags) (s : Sound t m g) (used : g.used p ≡ true) (level : g.level p ≡ suc l)
    (covers : Covers g p map.vaddr) (i : ℕ) (round : i < rounds map (suc l)) where
  abbrev pub off : ℕ
  off = shl i (level_order (suc l))

  abbrev pub part : Mapping
  part = moved map off (level_order (suc l))

  abbrev pub from : ℕ
  from = start t h map p (suc l) f m g s used level covers i round

  abbrev pub k : ℕ
  k = index t h map p (suc l) f m g s used level covers i round

  from-lt : from + 2 ^ level_order (suc l) ≤ 2 ^ 64
  from-lt = let a = offset-lt t h map (suc l) f i round in let b = f.vaddr_word in omega arith

  part_vaddr : part.vaddr ≡ from
  part_vaddr =
      let a = offset_shl t h map (suc l) f i round in
      let b = from-lt in
      let c = pow_pos (level_order (suc l)) in
      let e : (map.vaddr + off) % 2 ^ 64 ≡ from = omega arith in e

  part_paddr : part.paddr ≡ map.paddr + i * 2 ^ level_order (suc l)
  part_paddr =
      let a = offset_shl t h map (suc l) f i round in
      let b = offset-lt t h map (suc l) f i round in
      let c = f.paddr_low in
      let d = pow_pos (level_order (suc l)) in
      let e : (map.paddr + off) % 2 ^ 64 ≡ map.paddr + i * 2 ^ level_order (suc l) = omega arith in
      e

  -- The part is as the whole, in one table below.
  pub part-Fits : Fits t part l
  part-Fits =
      let n = 2 ^ level_order (suc l) in
      let v = vaddr_blocks t h map (suc l) f i round in
      let x = paddr_blocks t h map (suc l) f i round in
      let a = offset-lt t h map (suc l) f i round in
      let b = f.paddr_low in
      record {
        vaddr_aligned = ap (λ (y : ℕ). y % n) (part_vaddr ∙ v) ∙ mul-mod_left (map.vaddr / n + i) n;
        paddr_aligned =
            ap (λ (y : ℕ). y % n) (part_paddr ∙ x)
            ∙ mul-mod_left (map.paddr / 2 ^ map.order * 2 ^ (map.order - level_order (suc l)) + i)
                n;
        vaddr_word = (let y = from-lt in omega (arith, part_vaddr));
        paddr_low = omega (arith, part_paddr);
        attr_in = f.attr_in;
        attr_word = f.attr_word;
        order_low = omega arith;
        order_high = omega arith;
      }

  part_mapped : (w : ℕ) → from ≤ w → mapped t part w ≡ mapped t map w
  unfolding mapped present
  part_mapped w le =
      let e : part.paddr + (w - part.vaddr) ≡ map.paddr + (w - map.vaddr) =
        omega (arith, part_vaddr, part_paddr) in
      ap (λ y. if has_bits map.attr t.pte_p then some (y, map.attr) else none) e

  at_entry :
      (w : ℕ)
      → from ≤ w
      → w < from + 2 ^ level_order (suc l)
      → Covers g p w × (virt_to_index (suc l) w ≡ k)
  at_entry w lo hi =
      block-Covers g p (suc l) w k level
        (index-low t h map p (suc l) f m g s used level covers i round)
        (let n = start_number t h map p (suc l) f m g s used level covers i round in
          in_block w (2 ^ level_order (suc l)) (g.prefix p * 512 + k)
            (pow_pos (level_order (suc l))) (omega arith) (omega arith))

  module _ (m' : Memory) (g' : Tags) (c : ℕ) (x : Splits t m m' g g' p k l c) where
    level' : g'.level p ≡ suc l
    level' = x.keeps.grown.level p used ∙ level

    pub part-Covers : Covers g' c part.vaddr
    part-Covers =
        let n = 2 ^ level_order (suc l) in
        let pos = pow_pos (level_order (suc l)) in
        let (covered, i') = at_entry from (omega arith) (omega arith) in
        let used' = x.keeps.grown.used p used in
        let covered' = Covers-Grown g g' p from x.keeps.grown used covered in
        let r = ap (λ y. m'.read p y) i' in
        let (_, _, z) =
          child-Covers t m' g' x.keeps.sound from p l used' level' covered'
            (ap (is_leaf t (suc l)) r ∙ x.table) in
        subst₂ (Covers g') (ap (phys t) r ∙ x.entry) (sym part_vaddr) z

    -- What the table below says is what the table says of the addresses of the entry.
    pub part-Fills :
        (m'' : Memory) (g'' : Tags)
        → Fills t part l c m' m'' g' g'' part.vaddr (part.vaddr + 2 ^ part.order)
        → Fills t map (suc l) p m m'' g g'' from (from + 2 ^ level_order (suc l))
    part-Fills m'' g'' y = record {
      sound = y.sound;
      grown = Grown-trans g g' g'' x.keeps.grown y.grown;
      above =
          Above-trans (suc l) m m' m'' g g' x.keeps.grown x.above
            (λ q j u lt. y.above q j u (omega arith));
      outside = λ w q word o u cov.
          subst (λ z. view t m'' w q z ≡ view t m' w q z) (x.keeps.grown.level q u)
            (y.outside w q word
              (elim o [
                | inl a ↦ inl (omega (arith, part_vaddr))
                | inr a ↦ inr (omega (arith, part_vaddr))
              ])
              (x.keeps.grown.used q u) (Covers-Grown g g' q w x.keeps.grown u cov))
          ∙ x.keeps.seen w q word u cov;
      inside = λ w word lo hi cov.
          let used' = x.keeps.grown.used p used in
          let cov' = Covers-Grown g g' p w x.keeps.grown used cov in
          let (_, i') = at_entry w lo hi in
          let r = ap (λ y. m'.read p y) i' in
          let table = ap (is_leaf t (suc l)) r ∙ x.table in
          let next = ap (phys t) r ∙ x.entry in
          let (_, _, z) = child-Covers t m' g' x.keeps.sound w p l used' level' cov' table in
          let kept = y.above p (virt_to_index (suc l) w) used' (omega (arith, level')) in
          view_table t m'' w p l (ap (is_leaf t (suc l)) kept ∙ table)
          ∙ ap (λ y. view t m'' w y l) (ap (phys t) kept ∙ next)
          ∙ y.inside w word (omega (arith, part_vaddr)) (omega (arith, part_vaddr))
              (subst (λ y. Covers g' y w) next z)
          ∙ part_mapped w lo;
    }
