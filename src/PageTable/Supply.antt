-- ===== src/PageTable/Supply.antt =====
-- Enough pages: with one for each level on the way, `walk_down_and_split` and `update` of
-- include/generic_page_table.hpp return.
use hedron.Prelude.{
  ℕ, zero, suc, ◌≤◌, ◌≡◌, ◌⊎◌, inl, inr, refl, ap, arith, List-cases, length, if_intro, Bool, true,
  false, not, ◌&&◌, ◌||◌, ◌==◌, ltb, Option, none, some, List, ◌∷◌,
}
use hedron.Word.{has_bits}
use hedron.PageTable.Table.{
  Attr, Mapping, Memory, write, virt_to_index, present, is_superpage, phys,
}
use hedron.PageTable.Update.{
  Result, ◌>>=◌, flush_tlb_later, for, rounds, sub_entry, fill_from_superpage, split_entry,
  walk_down_and_split, put_leaf, fill_entries, update_table, ok, out_of_memory, panicked,
}
use hedron.PageTable.Writes.{each-write}
use hedron.PageTable.Install.{clash}
use hedron.PageTable.Split.{cleared_page}
use hedron.PageTable.Step.{alloc_some}
use hedron.PageTable.Updated.{modified_level}

-- The pages are no fewer than that.
abbrev pub Enough : ℕ → Memory → Type 0
Enough n m = n ≤ length m.pages

-- A result that leaves so many pages, a walk that finds a table if one is to be made, and a result that is a value.
abbrev pub Leaves : ℕ → Result ℕ → Type 0
Leaves n (ok q m) = Enough n m
Leaves n (out_of_memory m) = ⊥
Leaves n (panicked m) = ⊥

abbrev pub Finds : Bool → Result (Option ℕ) → Type 0
Finds create (ok none m) = create ≡ false
Finds create (ok (some p) m) = Unit {0}
Finds create (out_of_memory m) = ⊥
Finds create (panicked m) = ⊥

abbrev pub Returns : Result (Unit {0}) → Type 0
Returns (ok x m) = Unit {0}
Returns (out_of_memory m) = ⊥
Returns (panicked m) = ⊥

page_first :
    (n : ℕ) (m : Memory)
    → Enough (suc n) m
    → (q : ℕ) × (rest : List ℕ) × (m.pages ≡ q ∷ rest) × (n ≤ length rest)
page_first n m e = elim (List-cases m.pages) [
  | inl x ↦ (let y = ap length x in absurd (omega arith))
  | inr (q, rest, x) ↦ (q, rest, x, (let y = ap length x in omega arith))
]

found : (r : Result (Option ℕ)) → Finds true r → (p : ℕ) × (m' : Memory) × (r ≡ ok (some p) m')
found (ok none m) h = cc
found (ok (some p) m) h = (p, m, refl)
found (out_of_memory m) h = absurd h
found (panicked m) h = absurd h

bind-Returns :
    (r : Result (Unit {0})) (f : Unit {0} → Memory → Result (Unit {0}))
    → Returns r
    → ((x : Unit {0}) (m : Memory) → Returns (f x m))
    → Returns (r >>= f)
bind-Returns (ok x m) f h k = k x m
bind-Returns (out_of_memory m) f h k = absurd h
bind-Returns (panicked m) f h k = absurd h

for-Returns :
    (body : ℕ → Memory → Result (Unit {0}))
    → ((i : ℕ) (m : Memory) → Returns (body i m))
    → (n i : ℕ) (m : Memory) → Returns (for tt n i body m)
unfolding for
for-Returns body h zero i m = tt
for-Returns body h (suc n) i m =
    bind-Returns (body i m) (λ x m'. for tt n (suc i) body m') (h i m)
      (λ x m'. for-Returns body h n (suc i) m')

module _ (t : Attr) where
  split-Enough :
      (p i e l n : ℕ) (m : Memory) → Enough (suc n) m → Leaves n (split_entry t p i e l m)
  unfolding split_entry flush_tlb_later fill_from_superpage write
  split-Enough p i e l n m pages =
      let (q, rest, x, le) = page_first n m pages in
      let w = each-write q (sub_entry t e l) 512 0 (cleared_page m q rest) in
      let same = ap length w.pages in
      rw (alloc_some m q rest x) (
        if_intro (Enough n) (is_superpage t l e) _ (cleared_page m q rest) (λ _. omega arith)
          (λ _. le))

  after_split :
      (n : ℕ) (create : Bool) (next : ℕ → Memory → Result (Option ℕ))
      → ((q : ℕ) (m : Memory) → Enough n m → Finds create (next q m))
      → (r : Result ℕ) → Leaves n r
      → Finds create (r >>= next)
  after_split n create next h (ok q m) e = h q m e
  after_split n create next h (out_of_memory m) e = absurd e
  after_split n create next h (panicked m) e = absurd e

  walk-Enough :
      (v to : ℕ) (create : Bool) (l q : ℕ) (m : Memory)
      → Enough l m
      → Finds create (walk_down_and_split t v to create q l m)
  unfolding walk_down_and_split
  walk-Enough v to create zero q m e = tt
  walk-Enough v to create (suc l) q m e =
      let x = m.read q (virt_to_index (suc l) v) in
      let P = Finds create in
      if_intro P (to == suc l) _ _ (λ y. tt)
        λ _.
          if_intro P (not (has_bits x t.pte_p) && not create) _ _ (λ y. ground arith)
            λ _.
              if_intro P (not (has_bits x t.pte_p) || is_superpage t (suc l) x) _ _
                (λ y.
                  after_split l create (λ k. walk_down_and_split t v to create k l)
                    (λ k m' e'. walk-Enough v to create l k m' e') _
                    (split-Enough q _ x (suc l) l m e))
                (λ y. walk-Enough v to create l (phys t x) m (omega arith))

  -- The level of a mapping holds leaves.
  fill-Returns :
      (l p : ℕ) (map : Mapping) (m : Memory)
      → (l ≡ 0) ⊎ (ltb l t.leaf_levels || not (present t map) ≡ true)
      → Returns (fill_entries t l p map m)
  unfolding fill_entries put_leaf
  fill-Returns zero p map m c = for-Returns _ (λ i m. tt) (rounds map 0) 0 m
  fill-Returns (suc l) p map m (inl c) = absurd (omega arith)
  fill-Returns (suc l) p map m (inr c) =
      for-Returns _
        (λ i m.
          if_intro Returns (ltb (suc l) t.leaf_levels || not (present t map)) _ _ (λ y. tt)
            (λ y. absurd (clash _ c y)))
        (rounds map (suc l)) 0 m

  -- The walk for a table that is to be made finds it if the allocator has a page for each level below the root.
  pub walk_down_and_split-finds :
      (v to root top : ℕ) (m : Memory)
      → top ≤ length m.pages
      → (p : ℕ) × (m' : Memory) × (walk_down_and_split t v to true root top m ≡ ok (some p) m')
  walk_down_and_split-finds v to root top m e =
      found (walk_down_and_split t v to true root top m) (walk-Enough v to true top root m e)

  returned : (r : Result (Unit {0})) → Returns r → (m' : Memory) × (r ≡ ok tt m')
  returned (ok x m) h = (m, refl)
  returned (out_of_memory m) h = absurd h
  returned (panicked m) h = absurd h

  after_walk :
      (map : Mapping) (l : ℕ)
      → (l ≡ 0) ⊎ (ltb l t.leaf_levels || not (present t map) ≡ true)
      → (r : Result (Option ℕ)) → Finds (present t map) r
      → Returns
          (r >>= λ table m'. elim table [ none ↦ ok tt m' | some p ↦ fill_entries t l p map m' ])
  after_walk map l c (ok none m) h = tt
  after_walk map l c (ok (some p) m) h = fill-Returns l p map m c
  after_walk map l c (out_of_memory m) h = absurd h
  after_walk map l c (panicked m) h = absurd h

  -- An update with leaves of a level that can have leaves, or of a mapping that is not present, returns if the
  -- allocator has a page for each level below the root.
  pub update_table-returns :
      (root top : ℕ) (map : Mapping) (m : Memory)
      → (modified_level map ≡ 0)
        ⊎ (ltb (modified_level map) t.leaf_levels || not (present t map) ≡ true)
      → top ≤ length m.pages
      → (m' : Memory) × (update_table t root top map m ≡ ok tt m')
  unfolding update_table
  update_table-returns root top map m c e = returned (update_table t root top map m) (
      after_walk map (modified_level map) c
        (walk_down_and_split t map.vaddr (modified_level map) (present t map) root top m)
        (walk-Enough map.vaddr (modified_level map) (present t map) top root m e))
