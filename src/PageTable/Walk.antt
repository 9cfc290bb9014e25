-- ===== src/PageTable/Walk.antt =====
-- The walk to a level: `walk_down_and_split` of include/generic_page_table.hpp.
use hedron.Prelude.{
  ℕ, zero, suc, ◌≤◌, ◌≡◌, refl, sym, ap, subst, ◌∙◌, arith, if_intro, Bool, true, false, not, ◌&&◌,
  ◌||◌, ◌==◌, Option, none, some,
}
use hedron.Word.{has_bits}
use hedron.PageTable.Table.{Attr, Memory, virt_to_index, is_superpage, is_leaf, phys}
use hedron.PageTable.Update.{Result, ◌>>=◌, walk_down_and_split, ok, out_of_memory, panicked}
use hedron.PageTable.Words.{Lawful}
use hedron.PageTable.View.{Framed, view, entry_view, view_leaf}
use hedron.PageTable.Shape.{Tags, Covers, Sound, index-lt, child-Covers}
use hedron.PageTable.Split.{Keeps, Covers-Grown, Keeps-refl, frame_here}
use hedron.PageTable.Step.{
  leaf_above, SplitOutcome, split_entry_lem, same_index, WalkOutcome, one_lower,
}

-- The walk goes on in the new table.
after_split :
    (t : Attr) (h : Lawful t) (m : Memory) (g : Tags) (v q l to : ℕ) (create : Bool)
    → to ≤ l
    → g.used q ≡ true
    → g.level q ≡ suc l
    → Covers g q v
    → (next : ℕ → Memory → Result (Option ℕ))
    → ((c : ℕ) (m' : Memory) (g' : Tags)
        → Sound t m' g'
        → g'.used c ≡ true
        → g'.level c ≡ l
        → Covers g' c v
        → WalkOutcome t m' g' v c l to create (next c m'))
    → Sound t m g
    → (r : Result ℕ) → SplitOutcome t m g q (virt_to_index (suc l) v) l r
    → WalkOutcome t m g v q (suc l) to create (r >>= next)
after_split t h m g v q l to create le u e c next walk s (ok p m') (g', x) =
    let u' = x.keeps.grown.used q u in
    let e' = x.keeps.grown.level q u ∙ e in
    let c' = Covers-Grown g g' q v x.keeps.grown u c in
    let (_, _, covers) = child-Covers t m' g' x.keeps.sound v q l u' e' c' x.table in
    one_lower t m m' g g' v q l p to create le x.keeps x.above u e x.table x.entry (next p m')
      (walk p m' g' x.keeps.sound x.used x.level (subst (λ k. Covers g' k v) x.entry covers))
after_split t h m g v q l to create le u e c next walk s (out_of_memory m') (x, y) =
    (ap (λ k. k.pages) x ∙ y, g, subst (λ k. Keeps t m k g g) (sym x) (Keeps-refl t m g s))
after_split t h m g v q l to create le u e c next walk s (panicked m') x = x

module _ (t : Attr) (h : Lawful t) (v to : ℕ) (create : Bool) where
  -- the table itself, where it has the level
  walk_here :
      (m : Memory) (g : Tags) (q l : ℕ)
      → Sound t m g
      → l ≡ to
      → g.used q ≡ true
      → g.level q ≡ l
      → Covers g q v
      → WalkOutcome t m g v q l to create (ok (some q) m)
  walk_here m g q l s x u e c = (
    g,
    record {
      keeps = Keeps-refl t m g s;
      above = λ k j u lt. refl;
      used = u;
      level = e ∙ x;
      covers = c;
      leads = λ m' w a same. ap (λ y. view t m' w q y) x;
    },
  )

  walk_missing :
      (m : Memory) (g : Tags) (q l : ℕ)
      → Sound t m g
      → to ≤ l
      → create ≡ false
      → has_bits (m.read q (virt_to_index (suc l) v)) t.pte_p ≡ false
      → g.used q ≡ true
      → g.level q ≡ suc l
      → WalkOutcome t m g v q (suc l) to create (ok none m)
  unfolding is_leaf
  walk_missing m g q l s le uncreated missing u e =
      let leaf : is_leaf t (suc l) (m.read q (virt_to_index (suc l) v)) ≡ true =
        leaf_above t l _ ∙ rw missing refl in
      let frame = frame_here t h m g s q _ l u e (index-lt (suc l) v) leaf in
      let low = s.low q u in
      (
        uncreated,
        g,
        record {
          keeps = Keeps-refl t m g s;
          above = λ k j u lt. refl;
          unmapped = λ w word same.
              let i = sym (same_index to l v w le same) in
              let r = ap (m.read q) i in
              view_leaf t h m w q (suc l) (ap (is_leaf t (suc l)) (sym r) ∙ leaf)
                (subst (Framed t (suc l)) r frame) word (omega (arith, e))
              ∙ ap (λ y. entry_view t w y (suc l)) (sym r)
              ∙ rw missing refl;
        },
      )

  -- The walk keeps what all tables say. It finds the table, or there is none and none is made, or no page is left.
  pub walk_lem :
      (l q : ℕ) (m : Memory) (g : Tags)
      → to ≤ l
      → Sound t m g
      → g.used q ≡ true
      → g.level q ≡ l
      → Covers g q v
      → WalkOutcome t m g v q l to create (walk_down_and_split t v to create q l m)
  unfolding walk_down_and_split
  walk_lem zero q m g le s u e c = walk_here m g q 0 s (omega arith) u e c
  walk_lem (suc l) q m g le s u e c =
      let i = virt_to_index (suc l) v in
      let x = m.read q i in
      let P = WalkOutcome t m g v q (suc l) to create in
      if_intro P (to == suc l) _ _ (λ y. walk_here m g q (suc l) s (ground arith) u e c)
        λ n.
          let le' : to ≤ l = ground arith in
          if_intro P (not (has_bits x t.pte_p) && not create) _ _
            (λ y. walk_missing m g q l s le' (ground arith) (ground arith) u e)
            λ y.
              if_intro P (not (has_bits x t.pte_p) || is_superpage t (suc l) x) _ _
                (λ z.
                  after_split t h m g v q l to create le' u e c
                    (λ new_page. walk_down_and_split t v to create new_page l)
                    (λ k m' g' s' u' e' c'. walk_lem l k m' g' le' s' u' e' c') s _
                    (split_entry_lem t h m g s q i l u e (index-lt (suc l) v)
                      (leaf_above t l x ∙ z)))
                (λ z.
                  let table = leaf_above t l x ∙ z in
                  let (u', e', c') = child-Covers t m g s v q l u e c table in
                  one_lower t m m g g v q l (phys t x) to create le' (Keeps-refl t m g s)
                    (λ k j u lt. refl) u e table refl _ (walk_lem l (phys t x) m g le' s u' e' c'))
