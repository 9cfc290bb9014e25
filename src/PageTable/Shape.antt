-- ===== src/PageTable/Shape.antt =====
-- The tables of a page table: each has a level and the number of the range of addresses that it is for.
use hedron.Prelude.{
  ℕ, zero, suc, ◌+◌, ◌*◌, ◌/◌, ◌%◌, ◌^◌, ◌<◌, ◌≤◌, ◌≡◌, ◌⊎◌, inl, inr, refl, sym, ap, subst, ◌∙◌,
  arith, Bool-cases, Bool, true, false, All,
}
use native.Mathlib.Nat.{div-div-eq-div-mul}
use hedron.Word.Laws.{and-low_ones, pow-add}
use hedron.Links.Ring.{Distinct}
use hedron.PageTable.Table.{Attr, Memory, level_order, virt_to_index, is_leaf, phys, lookup}
use hedron.PageTable.Words.{IsPage}
use hedron.PageTable.View.{Framed, seen, view, view_table}

pub record Tags : Type 0 where
  pub used : ℕ → Bool
  pub level : ℕ → ℕ
  pub prefix : ℕ → ℕ

-- An address is in the range of a table.
abbrev pub Covers : Tags → ℕ → ℕ → Type 0
Covers g q v = v / 2 ^ level_order (suc (g.level q)) ≡ g.prefix q

-- A table's entries that are no leaves lead to tables of the level below for their part of the range, its leaves
-- are aligned, and the allocator's pages are none of the tables.
pub record Sound (t : Attr) (m : Memory) (g : Tags) : Type 0 where
  pub child :
      (q i l : ℕ)
      → g.used q ≡ true
      → g.level q ≡ suc l
      → i < 512
      → is_leaf t (suc l) (m.read q i) ≡ false
      → (g.used (phys t (m.read q i)) ≡ true)
        × (g.level (phys t (m.read q i)) ≡ l)
        × (g.prefix (phys t (m.read q i)) ≡ g.prefix q * 512 + i)
  pub framed :
      (q i : ℕ)
      → g.used q ≡ true
      → i < 512
      → is_leaf t (g.level q) (m.read q i) ≡ true
      → Framed t (g.level q) (m.read q i)
  pub low : (q : ℕ) → g.used q ≡ true → g.level q ≤ 4
  pub fresh : All (λ q. (g.used q ≡ false) × IsPage t q) m.pages
  pub distinct : Distinct m.pages

pub next_order : (l : ℕ) → 2 ^ level_order (suc l) ≡ 2 ^ level_order l * 512
next_order l =
    let e : level_order (suc l) ≡ level_order l + 9 = omega arith in
    ap (λ (y : ℕ). 2 ^ y) e ∙ pow-add (level_order l) 9

pub index_lem : (l v : ℕ) → virt_to_index l v ≡ v / 2 ^ level_order l % 512
unfolding virt_to_index
index_lem l v = and-low_ones (v / 2 ^ level_order l) 9 (omega arith)

pub index-lt : (l v : ℕ) → virt_to_index l v < 512
index-lt l v = omega (arith, index_lem l v)

-- The number of a block of a level is that of its table and its index there.
pub block_number :
    (l v : ℕ) → v / 2 ^ level_order l ≡ v / 2 ^ level_order (suc l) * 512 + virt_to_index l v
block_number l v =
    let d : v / 2 ^ level_order (suc l) ≡ v / 2 ^ level_order l / 512 =
      ap (λ (y : ℕ). v / y) (next_order l) ∙ sym (div-div-eq-div-mul v (2 ^ level_order l) 512) in
    omega (arith, index_lem l v)

pub leaf_zero : (t : Attr) (e : ℕ) → is_leaf t 0 e ≡ true
unfolding is_leaf
leaf_zero t e = refl

-- A table looks at an entry; where that is the same and a leaf, so is the mapping.
lookup_entry :
    (t : Attr) (m m' : Memory) (v q l : ℕ)
    → m'.read q (virt_to_index l v) ≡ m.read q (virt_to_index l v)
    → is_leaf t l (m.read q (virt_to_index l v)) ≡ true
    → lookup t m' v q l ≡ lookup t m v q l
unfolding lookup
lookup_entry t m m' v q zero e h = rw e refl
lookup_entry t m m' v q (suc l) e h = rw (e, h) refl

-- The next table on the way of an address.
pub child-Covers :
    (t : Attr) (m : Memory) (g : Tags) (s : Sound t m g) (v q l : ℕ)
    → g.used q ≡ true
    → g.level q ≡ suc l
    → Covers g q v
    → is_leaf t (suc l) (m.read q (virt_to_index (suc l) v)) ≡ false
    → let c = phys t (m.read q (virt_to_index (suc l) v)) in
      (g.used c ≡ true) × (g.level c ≡ l) × Covers g c v
child-Covers t m g s v q l u e c y =
    let (u', e', p) = s.child q (virt_to_index (suc l) v) l u e (index-lt (suc l) v) y in
    let b = block_number (suc l) v in
    let z : v / 2 ^ level_order (suc (suc l)) ≡ g.prefix q =
      ap (λ k. v / 2 ^ level_order (suc k)) (sym e) ∙ c in
    (
      u',
      e',
      ap (λ k. v / 2 ^ level_order (suc k)) e'
          ∙ b
          ∙ ap (λ k. k * 512 + virt_to_index (suc l) v) z
          ∙ sym p,
    )

module _ (t : Attr) (m m' : Memory) (g : Tags) (s : Sound t m g) (v : ℕ) where
  -- The address is seen as before where each table on its way has the same entry, or sees it as before itself.
  pub view_same :
      ((q : ℕ)
        → g.used q ≡ true
        → Covers g q v
        → (m'.read q (virt_to_index (g.level q) v) ≡ m.read q (virt_to_index (g.level q) v))
          ⊎ (view t m' v q (g.level q) ≡ view t m v q (g.level q)))
      → (l q : ℕ) → g.used q ≡ true
      → g.level q ≡ l
      → Covers g q v
      → view t m' v q l ≡ view t m v q l
  view_same h zero q u e c = elim (h q u c) [
    | inl x ↦
        let x' = subst (λ k. m'.read q (virt_to_index k v) ≡ m.read q (virt_to_index k v)) e x in
        ap (seen t v) (lookup_entry t m m' v q 0 x' (leaf_zero t _))
    | inr x ↦ subst (λ k. view t m' v q k ≡ view t m v q k) e x
  ]
  view_same h (suc l) q u e c = elim (h q u c) [
    | inl x ↦
        let i = virt_to_index (suc l) v in
        let x' = subst (λ k. m'.read q (virt_to_index k v) ≡ m.read q (virt_to_index k v)) e x in
        elim (Bool-cases (is_leaf t (suc l) (m.read q i))) [
          | inl y ↦ ap (seen t v) (lookup_entry t m m' v q (suc l) x' y)
          | inr y ↦
              let (u', e', c') = child-Covers t m g s v q l u e c y in
              view_table t m' v q l (ap (is_leaf t (suc l)) x' ∙ y)
              ∙ ap (λ k. view t m' v (phys t k) l) x'
              ∙ view_same h l (phys t (m.read q i)) u' e' c'
              ∙ sym (view_table t m v q l y)
        ]
    | inr x ↦ subst (λ k. view t m' v q k ≡ view t m v q k) e x
  ]
