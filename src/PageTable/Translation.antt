-- ===== src/PageTable/Translation.antt =====
-- What lookups find after an update, and after the walk: `walk_down_and_split`, `update` and `lookup_phys` of
-- include/generic_page_table.hpp together.
use hedron.Prelude.{
  ℕ, ◌+◌, ◌-◌, ◌^◌, ◌<◌, ◌≤◌, ◌≡◌, ◌⊎◌, inl, inr, refl, sym, ap, subst, ◌∙◌, arith, length,
  if_intro, Bool, true, false, not, ◌||◌, if◌then◌else◌, ltb, Option, none, some, [],
}
use mathlib.Core.Option.{some-injective, none-ne-some}
use hedron.PageTable.Table.{Attr, Mapping, Memory, present, lookup, phys_of, lookup_phys}
use hedron.PageTable.Update.{Result, walk_down_and_split, update_table, ok, out_of_memory, panicked}
use hedron.PageTable.Words.{Lawful, lt_or_le}
use hedron.PageTable.View.{seen, view}
use hedron.PageTable.Shape.{Tags, Covers, Sound}
use hedron.PageTable.Step.{WalkOutcome}
use hedron.PageTable.Walk.{walk_lem}
use hedron.PageTable.Leaf.{mapped}
use hedron.PageTable.Updated.{modified_level, Request, in_range, UpdateOutcome, update_table_lem}
use hedron.PageTable.Supply.{update_table-returns}

-- the memory of a result
abbrev pub memory {ℓ} : {A : Type ℓ} → Result A → Memory
memory (ok a m) = m
memory (out_of_memory m) = m
memory (panicked m) = m

walked :
    (t : Attr) (m : Memory) (g : Tags) (v root top to : ℕ) (create : Bool) (w : ℕ)
    → w < 2 ^ 64
    → g.used root ≡ true
    → g.level root ≡ top
    → Covers g root w
    → (r : Result (Option ℕ)) → WalkOutcome t m g v root top to create r
    → view t (memory r) w root top ≡ view t m w root top
walked t m g v root top to create w word u e c (ok none m') (_, g', x) =
    subst (λ z. view t m' w root z ≡ view t m w root z) e (x.keeps.seen w root word u c)
walked t m g v root top to create w word u e c (ok (some p) m') (g', x) =
    subst (λ z. view t m' w root z ≡ view t m w root z) e (x.keeps.seen w root word u c)
walked t m g v root top to create w word u e c (out_of_memory m') (_, g', k) =
    subst (λ z. view t m' w root z ≡ view t m w root z) e (k.seen w root word u c)
walked t m g v root top to create w word u e c (panicked m') x = absurd x

seen_pair :
    (p : Bool × ℕ) (c a b : ℕ)
    → if◌then◌else◌ {A = Option (ℕ × ℕ)} p.0 (some (p.1, c)) none ≡ some (a, b)
    → p ≡ (true, a)
seen_pair (true, x) c a b e = ap (λ y. (true, y)) (ap (λ y. y.0) (some-injective _ _ e))
seen_pair (false, x) c a b e = absurd (none-ne-some _ e)

-- An address that is seen as mapped is found by the lookup.
seen_some :
    (t : Attr) (v : ℕ) (map : Mapping) (a b : ℕ)
    → seen t v map ≡ some (a, b)
    → phys_of t v map ≡ (true, a)
unfolding seen
seen_some t v map a b e = seen_pair (phys_of t v map) map.attr a b e

-- How an address is seen after an update, and what is left of the shape.
abbrev pub Translated : Attr → Memory → ℕ → ℕ → Mapping → ℕ → Result (Unit {0}) → Type 0
Translated t m root top map w (ok _ m') =
    view t m' w root top ≡ (if in_range map w then mapped t map w else view t m w root top)
Translated t m root top map w (out_of_memory m') =
    (view t m' w root top ≡ view t m w root top) × (m'.pages ≡ [])
Translated t m root top map w (panicked m') = m'.pages ≡ []

abbrev pub Kept : Attr → ℕ → ℕ → Result (Unit {0}) → Type 0
Kept t root top (ok _ m') =
    (g' : Tags) × Sound t m' g' × (g'.used root ≡ true) × (g'.level root ≡ top)
Kept t root top (out_of_memory m') =
    (g' : Tags) × Sound t m' g' × (g'.used root ≡ true) × (g'.level root ≡ top)
Kept t root top (panicked m') = m'.pages ≡ []

module _ (t : Attr) (h : Lawful t) (m : Memory) (g : Tags) (s : Sound t m g) (root top : ℕ)
    (used : g.used root ≡ true) (level : g.level root ≡ top) where
  -- Masks fit together and the page table is sound. Splitting superpages and making tables on the way of
  -- an address of the root's range, down to a level that it has, changes the translation of no 64-bit
  -- address of that range, whether the table is found, is not there, or cannot be made.
  pub walk_down_and_split-view :
      (v to : ℕ) (create : Bool) (w : ℕ)
      → to ≤ top
      → w < 2 ^ 64
      → Covers g root v
      → Covers g root w
      → view t (memory (walk_down_and_split t v to create root top m)) w root top
        ≡ view t m w root top
  walk_down_and_split-view v to create w le word cv cw =
      walked t m g v root top to create w word used level cw _
        (walk_lem t h v to create top root m g le s used level cv)

  translated :
      (map : Mapping) (w : ℕ)
      → w < 2 ^ 64
      → Covers g root w
      → (r : Result (Unit {0})) → UpdateOutcome t map root m g r
      → Translated t m root top map w r
  translated map w word c (ok _ m') (g', x) =
      let out : (w < map.vaddr) ⊎ (map.vaddr + 2 ^ map.order ≤ w)
          → view t m' w root top ≡ view t m w root top =
        λ o. subst (λ z. view t m' w root z ≡ view t m w root z) level (x.outside w word o c) in
      if_intro (λ y. view t m' w root top ≡ y) (in_range map w) _ _
        (λ y.
          subst (λ z. view t m' w root z ≡ mapped t map w) level
            (x.inside w word (ground arith) (ground arith) c))
        (λ y. out (elim (lt_or_le w map.vaddr) [ inl a ↦ inl a | inr a ↦ inr (ground arith) ]))
  translated map w word c (out_of_memory m') (e, g', k) =
      (subst (λ z. view t m' w root z ≡ view t m w root z) level (k.seen w root word used c), e)
  translated map w word c (panicked m') x = x

  -- Masks fit together and the page table is sound; the mapping is aligned, has a size between a page
  -- and less than the root's range, in which it lies, and its address and attributes fit an entry. After
  -- an update that returns, a 64-bit address of the mapping's range is translated as the mapping says,
  -- or not at all if the mapping is not present, and every other address of the root's range as before.
  -- An update that fails for want of memory changes no translation; it fails or panics only once the
  -- allocator has no page left.
  pub update_table-view :
      (map : Mapping) (w : ℕ)
      → Request t map top
      → w < 2 ^ 64
      → Covers g root map.vaddr
      → Covers g root w
      → Translated t m root top map w (update_table t root top map m)
  update_table-view map w r word cm cw =
      translated map w word cw _ (update_table_lem t h map root top r m g level used s cm)

  still_sound :
      (map : Mapping) (r : Result (Unit {0})) → UpdateOutcome t map root m g r → Kept t root top r
  still_sound map (ok _ m') (g', x) =
      (g', x.sound, x.grown.used root used, x.grown.level root used ∙ level)
  still_sound map (out_of_memory m') (_, g', k) =
      (g', k.sound, k.grown.used root used, k.grown.level root used ∙ level)
  still_sound map (panicked m') x = x

  -- With masks that fit together, an update with an aligned mapping in the root's range of a sound page
  -- table, also one that runs out of memory, leaves a sound page table with the same root, unless it
  -- panics for want of a page.
  pub update_table-Sound :
      (map : Mapping)
      → Request t map top
      → Covers g root map.vaddr
      → Kept t root top (update_table t root top map m)
  update_table-Sound map r c =
      still_sound map _ (update_table_lem t h map root top r m g level used s c)

  -- Masks fit together and the page table is sound. After an update with a present, aligned mapping in
  -- the root's range, with leaves of a level that can have them, and an allocator with a page for each
  -- level below the root, the lookup of an address in the mapping's range finds the physical address at
  -- the same offset in the mapping.
  pub lookup_phys-update_table :
      (map : Mapping) (w : ℕ)
      → Request t map top
      → w < 2 ^ 64
      → Covers g root map.vaddr
      → Covers g root w
      → present t map ≡ true
      → map.vaddr ≤ w
      → w < map.vaddr + 2 ^ map.order
      → (modified_level map ≡ 0)
        ⊎ (ltb (modified_level map) t.leaf_levels || not (present t map) ≡ true)
      → top ≤ length m.pages
      → lookup_phys t (memory (update_table t root top map m)) w root top
        ≡ (true, map.paddr + (w - map.vaddr))
  unfolding lookup_phys mapped
  lookup_phys-update_table map w r word cm cw here lo hi leaves pages =
      let (m', e) = update_table-returns t root top map m leaves pages in
      let x = subst (Translated t m root top map w) e (update_table-view map w r word cm cw) in
      let y : in_range map w ≡ true = ground arith in
      subst (λ k. lookup_phys t (memory k) w root top ≡ (true, map.paddr + (w - map.vaddr))) (sym e)
        (seen_some t w (lookup t m' w root top) (map.paddr + (w - map.vaddr)) map.attr
          (x ∙ rw (y, here) refl))
