-- ===== src/PageTable/Fill.antt =====
-- The entries of a mapping, table after table: `fill_entries` of include/generic_page_table.hpp.
use hedron.Prelude.{
  ℕ, suc, ◌+◌, ◌-◌, ◌*◌, ◌/◌, ◌%◌, ◌^◌, ◌<◌, ◌≤◌, ◌≡◌, inl, inr, refl, sym, ap, subst, ◌∙◌, arith,
  List-cases, if_intro, not-true, not-false, true, false, not, ltb, [],
}
use native.Mathlib.Nat.{
  div-add-mod', mul-mod_left, mul-div_left, mul-le-mul_right, mul-add-mod_self_right,
}
use hedron.Word.{has_bits}
use hedron.Prelude.Bits.{pow_pos}
use hedron.PageTable.Table.{
  Attr, Mapping, Memory, level_order, virt_to_index, is_superpage, is_leaf,
}
use hedron.PageTable.Update.{Result, rounds, next_table, ok, out_of_memory, panicked}
use hedron.PageTable.Words.{Lawful, lt_or_le}
use hedron.PageTable.Shape.{Tags, Sound, index_lem, index-lt}
use hedron.PageTable.Split.{Keeps-refl, Splits, split_missing}
use hedron.PageTable.Step.{alloc_none, alloc_some, leaf_above}
use hedron.PageTable.Cleanup.{cleanup_missing}
use hedron.PageTable.Entry.{Fits, pow-sub, aligned_low}

-- A table has room for a part of the size of a power of two, from a place that is aligned to it.
room : (x d : ℕ) → d ≤ 9 → x < 512 → x % 2 ^ d ≡ 0 → x + 2 ^ d ≤ 512
room x d le lt e =
    let n = 2 ^ d in
    let p : 512 ≡ 2 ^ (9 - d) * n = pow-sub d 9 le in
    let q = x / n in
    let x' : x ≡ q * n = (let z = div-add-mod' x n in omega arith) in
    let c = 2 ^ (9 - d) in
    elim (lt_or_le q c) [
      | inl a ↦
          let y : suc q * n ≤ c * n = mul-le-mul_right {m = suc q} {n = c} n a in
          let y' : suc q * n ≡ q * n + n = grind arith in omega arith
      | inr a ↦
          (let y : c * n ≤ q * n = mul-le-mul_right {m = c} {n = q} n a in absurd (omega arith))
    ]

module _ (t : Attr) (map : Mapping) (l : ℕ) (f : Fits t map l) where
  abbrev first : ℕ
  first = virt_to_index l map.vaddr

  -- The first entry is aligned as the mapping is.
  first_aligned : first % 2 ^ (map.order - level_order l) ≡ 0
  first_aligned =
      let d = map.order - level_order l in
      let n = 2 ^ d in
      let c = map.vaddr / 2 ^ map.order * n in
      let b = f.order_high in
      let p : 512 ≡ 2 ^ (9 - d) * n = pow-sub d 9 (omega arith) in
      let N = map.vaddr / 2 ^ level_order l in
      let e : N ≡ c =
        ap (λ (y : ℕ). y / 2 ^ level_order l)
          (aligned_low map.vaddr (level_order l) map.order f.order_low f.vaddr_aligned)
        ∙ mul-div_left c (pow_pos (level_order l)) in
      let r = N % 512 in
      let s : N / 512 * 2 ^ (9 - d) * n + r ≡ N =
        (let z = div-add-mod' N 512 in
          let z' : N / 512 * 512 ≡ N / 512 * 2 ^ (9 - d) * n =
            ap (λ (y : ℕ). N / 512 * y) p ∙ grind arith in
          omega arith) in
      ap (λ (y : ℕ). y % n) (index_lem l map.vaddr)
      ∙ sym (mul-add-mod_self_right (N / 512 * 2 ^ (9 - d)) n r)
      ∙ ap (λ (y : ℕ). y % n) (s ∙ e)
      ∙ mul-mod_left (map.vaddr / 2 ^ map.order) n

  pub rounds-le : first + rounds map l ≤ 512
  rounds-le =
      let a = f.order_high in
      room first (map.order - level_order l) (omega arith) (index-lt l map.vaddr) first_aligned

-- What comes of the table below an entry.
abbrev pub NextOutcome : Attr → Memory → Tags → ℕ → ℕ → ℕ → Result ℕ → Type 0
NextOutcome t m g p k l (ok c m') = (g' : Tags) × Splits t m m' g g' p k l c
NextOutcome t m g p k l (out_of_memory m') = ⊥
NextOutcome t m g p k l (panicked m') = m'.pages ≡ []

module _ (t : Attr) (h : Lawful t) (m : Memory) (g : Tags) (s : Sound t m g) (p k l : ℕ)
    (used : g.used p ≡ true) (level : g.level p ≡ suc l) (small : k < 512) where
  pub next_table_lem :
      ltb (suc l) t.leaf_levels ≡ false → NextOutcome t m g p k l (next_table t p k (suc l) m)
  unfolding next_table is_superpage
  next_table_lem low =
      let x = m.read p k in
      let P = NextOutcome t m g p k l in
      if_intro P (not (has_bits x t.pte_p)) _ _
        (λ e.
          let missing = not-true _ e in
          let leaf : is_leaf t (suc l) x ≡ true = leaf_above t l x ∙ rw missing refl in
          elim (List-cases m.pages) [
            | inl n ↦ rw (alloc_none m n) n
            | inr (q, rest, n) ↦ rw (alloc_some m q rest n) (
                subst (λ y. (g' : Tags) × Splits t m y g g' p k l q)
                  (sym (cleanup_missing t (suc l) x _ missing))
                  (split_missing t h m g s p k l used level small leaf q rest n t.all_rights
                    h.rights_word h.rights_in h.rights_p missing))
          ])
        (λ e.
          let table : is_leaf t (suc l) x ≡ false =
            leaf_above t l x ∙ rw (not-false _ e, low) refl in
          let (u, y, z) = s.child p k l used level small table in
          (
            g,
            record {
              keeps = Keeps-refl t m g s;
              used = u;
              level = y;
              entry = refl;
              table = table;
              above = λ q j u' lt. refl;
            },
          ))
