-- ===== src/PageTable/Rounds.antt =====
-- The loops of `fill_entries` of include/generic_page_table.hpp: all levels.
use hedron.Prelude.{
  ℕ, zero, suc, ◌+◌, ◌*◌, ◌^◌, ◌<◌, ◌≡◌, inl, inr, refl, sym, ap, subst, ◌∙◌, arith, if_intro, true,
  not, ◌||◌, ltb,
}
use hedron.PageTable.Table.{Attr, Mapping, Memory, level_order, present}
use hedron.PageTable.Update.{Result, ◌>>=◌, for, rounds, fill_entries, ok, out_of_memory, panicked}
use hedron.PageTable.Words.{Lawful}
use hedron.PageTable.Shape.{Tags, Covers, Sound}
use hedron.PageTable.Split.{Covers-Grown}
use hedron.PageTable.Cleanup.{Outcome, weaken-Outcome, for_lem}
use hedron.PageTable.Leaf.{Fills, Fills-trans, Fills-refl}
use hedron.PageTable.Entry.{Fits, pow-sub}
use hedron.PageTable.Fill.{rounds-le, NextOutcome, next_table_lem}
use hedron.PageTable.Round.{put_leaf_lem, part, from, k, part-Fits, part-Covers, part-Fills}

-- what `fill_entries` leaves of a table
abbrev pub Filled : Attr → Mapping → ℕ → ℕ → Memory → Tags → Memory → Type 0
Filled t map l p m g m' =
    (g' : Tags) × Fills t map l p m m' g g' map.vaddr (map.vaddr + 2 ^ map.order)

-- The table below, and its entries.
after_next :
    (t : Attr) (h : Lawful t) (map : Mapping) (p l : ℕ) (f : Fits t map (suc l)) (m : Memory)
    (g : Tags) (s : Sound t m g) (used : g.used p ≡ true) (level : g.level p ≡ suc l)
    (covers : Covers g p map.vaddr) (i : ℕ) (round : i < rounds map (suc l))
    (next : ℕ → Memory → Result (Unit {0}))
    → ((c : ℕ) (m' : Memory) (g' : Tags)
        → Sound t m' g'
        → g'.used c ≡ true
        → g'.level c ≡ l
        → Covers g' c (part t h map p l f m g s used level covers i round).vaddr
        → Outcome
            (Filled t (part t h map p l f m g s used level covers i round) l c m' g')
            (next c m'))
    → (r : Result ℕ) → NextOutcome t m g p (k t h map p l f m g s used level covers i round) l r
    → let a = from t h map p l f m g s used level covers i round in
      Outcome
        (λ m'. (g' : Tags) × Fills t map (suc l) p m m' g g' a (a + 2 ^ level_order (suc l)))
        (r >>= next)
after_next t h map p l f m g s used level covers i round next rec (ok c m') (g', x) =
    let P = part t h map p l f m g s used level covers i round in
    let a = from t h map p l f m g s used level covers i round in
    weaken-Outcome (Filled t P l c m' g')
      (λ m''. (g'' : Tags) × Fills t map (suc l) p m m'' g g'' a (a + 2 ^ level_order (suc l)))
      (next c m')
      (λ m'' y.
        (y.0, part-Fills t h map p l f m g s used level covers i round m' g' c x m'' y.0 y.1))
      (rec c m' g' x.keeps.sound x.used x.level
        (part-Covers t h map p l f m g s used level covers i round m' g' c x))
after_next t h map p l f m g s used level covers i round next rec (out_of_memory m') x = absurd x
after_next t h map p l f m g s used level covers i round next rec (panicked m') x = x

-- One round more.
module _ (t : Attr) (h : Lawful t) (map : Mapping) (p l : ℕ) (f : Fits t map l) (m₀ : Memory)
    (g₀ : Tags) (used₀ : g₀.used p ≡ true) (level₀ : g₀.level p ≡ l)
    (covers₀ : Covers g₀ p map.vaddr) (body : ℕ → Memory → Result (Unit {0})) where
  abbrev Until : ℕ → Memory → Type 0
  Until i m = (g : Tags) × Fills t map l p m₀ m g₀ g map.vaddr (map.vaddr + i * 2 ^ level_order l)

  abbrev After : ℕ → Memory → Tags → Memory → Type 0
  After i m g m' =
      let a = map.vaddr + i * 2 ^ level_order l in
      (g' : Tags) × Fills t map l p m m' g g' a (a + 2 ^ level_order l)

  pub rounds_lem :
      Sound t m₀ g₀
      → ((i : ℕ) (m : Memory) (g : Tags)
          → i < rounds map l
          → Sound t m g
          → g.used p ≡ true
          → g.level p ≡ l
          → Covers g p map.vaddr
          → Outcome (After i m g) (body i m))
      → Outcome (Filled t map l p m₀ g₀) (for tt (rounds map l) 0 body m₀)
  rounds_lem s one =
      let n = 2 ^ level_order l in
      let whole : map.vaddr + rounds map l * n ≡ map.vaddr + 2 ^ map.order =
        ap (λ (y : ℕ). map.vaddr + y) (sym (pow-sub (level_order l) map.order f.order_low)) in
      weaken-Outcome (Until (rounds map l)) (Filled t map l p m₀ g₀)
        (for tt (rounds map l) 0 body m₀)
        (λ m y. (y.0, subst (λ b. Fills t map l p m₀ m g₀ y.0 map.vaddr b) whole y.1))
        (for_lem Until body (rounds map l)
          (λ i m lt y.
            let g = y.0 in
            let x = y.1 in
            weaken-Outcome (After i m g) (Until (suc i)) (body i m)
              (λ m' z. (
                z.0,
                subst (λ b. Fills t map l p m₀ m' g₀ z.0 map.vaddr b) (grind arith)
                    (Fills-trans t map l p m₀ m m' g₀ g z.0 map.vaddr _ _ (omega arith)
                      (omega arith) used₀ level₀ x z.1),
              ))
              (one i m g lt x.sound (x.grown.used p used₀) (x.grown.level p used₀ ∙ level₀)
                (Covers-Grown g₀ g p map.vaddr x.grown used₀ covers₀)))
          (rounds map l) 0 m₀ (omega arith)
          (
            g₀,
            subst (λ b. Fills t map l p m₀ m₀ g₀ g₀ map.vaddr b) (omega arith)
                (Fills-refl t map l p m₀ g₀ map.vaddr s),
          ))

module _ (t : Attr) (h : Lawful t) where
  -- All entries of the mapping are filled, or no page is left for a table.
  pub fill_entries_lem :
      (l p : ℕ) (map : Mapping) (m : Memory) (g : Tags)
      → Fits t map l
      → Sound t m g
      → g.used p ≡ true
      → g.level p ≡ l
      → Covers g p map.vaddr
      → Outcome (Filled t map l p m g) (fill_entries t l p map m)
  unfolding fill_entries
  fill_entries_lem zero p map m g f s used level covers =
      rounds_lem t h map p 0 f m g used level covers _ s
        (λ i m' g' lt s' u e c. put_leaf_lem t h map p 0 f m' g' s' u e c i lt (inl refl))
  fill_entries_lem (suc l) p map m g f s used level covers =
      rounds_lem t h map p (suc l) f m g used level covers _ s λ i m' g' lt s' u e c.
        let low = rounds-le t map (suc l) f in
        if_intro
          (Outcome (After t h map p (suc l) f m g used level covers (λ i m. ok tt m) i m' g'))
          (ltb (suc l) t.leaf_levels || not (present t map)) _ _
          (λ y. put_leaf_lem t h map p (suc l) f m' g' s' u e c i lt (inr y))
          (λ y.
            after_next t h map p l f m' g' s' u e c i lt
              (λ below. fill_entries t l below (part t h map p l f m' g' s' u e c i lt))
              (λ q m'' g'' s'' u'' e'' c''.
                fill_entries_lem l q (part t h map p l f m' g' s' u e c i lt) m'' g''
                  (part-Fits t h map p l f m' g' s' u e c i lt) s'' u'' e'' c'')
              _ (next_table_lem t h m' g' s' p _ l u e (omega arith) (ground arith)))
