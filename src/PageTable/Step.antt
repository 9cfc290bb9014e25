-- ===== src/PageTable/Step.antt =====
-- A step of the walk to a level: `split_entry` and the body of `walk_down_and_split` of include/generic_page_table.hpp.
use hedron.Prelude.{
  ℕ, suc, ◌+◌, ◌-◌, ◌*◌, ◌/◌, ◌%◌, ◌^◌, ◌<◌, ◌≤◌, ◌≡◌, inl, inr, refl, sym, ap, ◌∙◌, arith, bit_and,
  Bool-cases, List-cases, not-true, or-true, Bool, true, false, not, ◌||◌, ◌==◌, Option, none, some,
  List, [], ◌∷◌,
}
use native.Mathlib.Nat.{div-div-eq-div-mul}
use hedron.Word.{has_bits, inv}
use hedron.Word.Laws.{pow-add}
use hedron.PageTable.Table.{Attr, Memory, level_order, virt_to_index, is_superpage, is_leaf, phys}
use hedron.PageTable.Update.{Result, alloc_zeroed_page, split_entry, ok, out_of_memory, panicked}
use hedron.PageTable.Words.{Lawful, rights_kept}
use hedron.PageTable.View.{view, view_table}
use hedron.PageTable.Shape.{Tags, Covers, Sound, index_lem}
use hedron.PageTable.Install.{clash}
use hedron.PageTable.Split.{
  Keeps, Above, Keeps-trans, Above-trans, cleared_page, Splits, split_super, split_missing,
}

pub alloc_none : (m : Memory) → m.pages ≡ [] → alloc_zeroed_page m ≡ out_of_memory m
unfolding alloc_zeroed_page
alloc_none m e = rw e refl

pub alloc_some :
    (m : Memory) (q : ℕ) (rest : List ℕ)
    → m.pages ≡ q ∷ rest
    → alloc_zeroed_page m ≡ ok q (cleared_page m q rest)
unfolding alloc_zeroed_page
alloc_some m q rest e = rw e refl

pub leaf_above :
    (t : Attr) (l e : ℕ)
    → is_leaf t (suc l) e ≡ not (has_bits e t.pte_p) || is_superpage t (suc l) e
unfolding is_leaf
leaf_above t l e = let z : (suc l == 0) ≡ false = ground arith in rw z refl

-- What comes of the split of an entry.
abbrev pub SplitOutcome : Attr → Memory → Tags → ℕ → ℕ → ℕ → Result ℕ → Type 0
SplitOutcome t m g p i l (ok q m') = (g' : Tags) × Splits t m m' g g' p i l q
SplitOutcome t m g p i l (out_of_memory m') = (m' ≡ m) × (m.pages ≡ [])
SplitOutcome t m g p i l (panicked m') = ⊥

module _ (t : Attr) (h : Lawful t) (m : Memory) (g : Tags) (s : Sound t m g) (p i l : ℕ)
    (used : g.used p ≡ true) (level : g.level p ≡ suc l) (small : i < 512)
    (leaf : is_leaf t (suc l) (m.read p i) ≡ true) where
  split_page :
      (q : ℕ) (rest : List ℕ)
      → m.pages ≡ q ∷ rest
      → SplitOutcome t m g p i l (split_entry t p i (m.read p i) (suc l) m)
  unfolding split_entry is_leaf
  split_page q rest pages =
      let r = bit_and t.all_rights (inv t.pte_s) in
      let k = rights_kept t h in
      let word : r < 2 ^ 64 = (let z = h.rights_word in omega (arith, k)) in
      let sub : bit_and r t.mask ≡ r = ap (λ y. bit_and y t.mask) k ∙ h.rights_in ∙ sym k in
      let rp : has_bits r t.pte_p ≡ true = ap (λ y. has_bits y t.pte_p) k ∙ h.rights_p in
      rw (alloc_some m q rest pages) (elim (Bool-cases (is_superpage t (suc l) (m.read p i))) [
        | inl e ↦
            rw e (split_super t h m g s p i l used level small leaf q rest pages r word sub rp e)
        | inr e ↦
            let missing : has_bits (m.read p i) t.pte_p ≡ false =
              elim (or-true _ _ (sym (leaf_above t l (m.read p i)) ∙ leaf)) [
                | inl a ↦ not-true _ a
                | inr a ↦ absurd (clash _ a e)
              ] in
            rw e (
              split_missing t h m g s p i l used level small leaf q rest pages r word sub rp
                missing)
      ])

  pub split_entry_lem : SplitOutcome t m g p i l (split_entry t p i (m.read p i) (suc l) m)
  unfolding split_entry
  split_entry_lem = elim (List-cases m.pages) [
    | inl e ↦ rw (alloc_none m e) (refl, e)
    | inr (q, rest, e) ↦ split_page q rest e
  ]

-- An address in the same block of a level is in the same block of the higher ones.
pub block_up :
    (to l v w : ℕ)
    → to ≤ l
    → w / 2 ^ level_order to ≡ v / 2 ^ level_order to
    → w / 2 ^ level_order l ≡ v / 2 ^ level_order l
block_up to l v w le e =
    let o : level_order l ≡ level_order to + (l - to) * 9 = omega arith in
    let p : 2 ^ level_order l ≡ 2 ^ level_order to * 2 ^ ((l - to) * 9) =
      ap (λ (y : ℕ). 2 ^ y) o ∙ pow-add (level_order to) ((l - to) * 9) in
    let d : (x : ℕ) → x / 2 ^ level_order l ≡ x / 2 ^ level_order to / 2 ^ ((l - to) * 9) = λ x.
      ap (λ (y : ℕ). x / y) p
      ∙ sym (div-div-eq-div-mul x (2 ^ level_order to) (2 ^ ((l - to) * 9))) in
    d w ∙ ap (λ (y : ℕ). y / 2 ^ ((l - to) * 9)) e ∙ sym (d v)

pub same_index :
    (to l v w : ℕ)
    → to ≤ l
    → w / 2 ^ level_order (suc to) ≡ v / 2 ^ level_order (suc to)
    → virt_to_index (suc l) w ≡ virt_to_index (suc l) v
same_index to l v w le e =
    index_lem (suc l) w
    ∙ ap (λ (y : ℕ). y % 512) (block_up (suc to) (suc l) v w (omega arith) e)
    ∙ sym (index_lem (suc l) v)

-- The way from a table to one of a lower level, whatever happens below.
abbrev pub Leads : Attr → Memory → Tags → ℕ → ℕ → ℕ → ℕ → ℕ → Type 0
Leads t m g v q l p to =
    (m' : Memory) (w : ℕ)
    → Above to m m' g
    → w / 2 ^ level_order (suc to) ≡ v / 2 ^ level_order (suc to)
    → view t m' w q l ≡ view t m' w p to

-- a table that the walk has found
pub record Found (t : Attr) (m m' : Memory) (g g' : Tags) (v q l p to : ℕ) : Type 0 where
  pub keeps : Keeps t m m' g g'
  pub above : Above l m m' g
  pub used : g'.used p ≡ true
  pub level : g'.level p ≡ to
  pub covers : Covers g' p v
  pub leads : Leads t m' g' v q l p to

-- Nothing is mapped around the address.
pub record Missing (t : Attr) (m m' : Memory) (g g' : Tags) (v q l to : ℕ) : Type 0 where
  pub keeps : Keeps t m m' g g'
  pub above : Above l m m' g
  pub unmapped :
      (w : ℕ)
      → w < 2 ^ 64
      → w / 2 ^ level_order (suc to) ≡ v / 2 ^ level_order (suc to)
      → view t m' w q l ≡ none

abbrev pub WalkOutcome : Attr → Memory → Tags → ℕ → ℕ → ℕ → ℕ → Bool → Result (Option ℕ) → Type 0
WalkOutcome t m g v q l to create (ok none m') =
    (create ≡ false) × (g' : Tags) × Missing t m m' g g' v q l to
WalkOutcome t m g v q l to create (ok (some p) m') = (g' : Tags) × Found t m m' g g' v q l p to
WalkOutcome t m g v q l to create (out_of_memory m') =
    (m'.pages ≡ []) × (g' : Tags) × Keeps t m m' g g'
WalkOutcome t m g v q l to create (panicked m') = ⊥

-- One table lower: what is found from the next table is found from here.
module _ (t : Attr) (m₀ m : Memory) (g₀ g : Tags) (v q l c to : ℕ) (create : Bool) (le : to ≤ l)
    (keeps : Keeps t m₀ m g₀ g) (above : Above (suc l) m₀ m g₀) (used₀ : g₀.used q ≡ true)
    (level₀ : g₀.level q ≡ suc l)
    (table : is_leaf t (suc l) (m.read q (virt_to_index (suc l) v)) ≡ false)
    (next : phys t (m.read q (virt_to_index (suc l) v)) ≡ c) where
  used : g.used q ≡ true
  used = keeps.grown.used q used₀

  level : g.level q ≡ suc l
  level = keeps.grown.level q used₀ ∙ level₀

  step_view :
      (m' : Memory) (w : ℕ)
      → Above l m m' g
      → w / 2 ^ level_order (suc to) ≡ v / 2 ^ level_order (suc to)
      → view t m' w q (suc l) ≡ view t m' w c l
  step_view m' w a e =
      let i = same_index to l v w le e in
      let r : m'.read q (virt_to_index (suc l) w) ≡ m.read q (virt_to_index (suc l) v) =
        ap (λ y. m'.read q y) i ∙ a q (virt_to_index (suc l) v) used (omega (arith, level)) in
      view_table t m' w q l (ap (is_leaf t (suc l)) r ∙ table)
      ∙ ap (λ y. view t m' w (phys t y) l) r
      ∙ ap (λ y. view t m' w y l) next

  weaker : (m' : Memory) → Above l m m' g → Above (suc l) m₀ m' g₀
  weaker m' a =
      Above-trans (suc l) m₀ m m' g₀ g keeps.grown above (λ k j u lt. a k j u (omega arith))

  pub one_lower :
      (r : Result (Option ℕ))
      → WalkOutcome t m g v c l to create r
      → WalkOutcome t m₀ g₀ v q (suc l) to create r
  one_lower (ok none m') (e, g', x) = (
    e,
    g',
    record {
      keeps = Keeps-trans t m₀ m m' g₀ g g' keeps x.keeps;
      above = weaker m' x.above;
      unmapped = λ w word same. step_view m' w x.above same ∙ x.unmapped w word same;
    },
  )
  one_lower (ok (some p) m') (g', x) = (
    g',
    record {
      keeps = Keeps-trans t m₀ m m' g₀ g g' keeps x.keeps;
      above = weaker m' x.above;
      used = x.used;
      level = x.level;
      covers = x.covers;
      leads = λ m'' w a same.
          step_view m'' w
            (Above-trans l m m' m'' g g' x.keeps.grown x.above (λ k j u lt. a k j u (omega arith)))
            same
          ∙ x.leads m'' w a same;
    },
  )
  one_lower (out_of_memory m') (e, g', k) = (e, g', Keeps-trans t m₀ m m' g₀ g g' keeps k)
  one_lower (panicked m') x = x
