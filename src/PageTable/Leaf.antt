-- ===== src/PageTable/Leaf.antt =====
-- One leaf is written: what `fill_entries` of include/generic_page_table.hpp does to an entry.
use hedron.Prelude.{
  ℕ, suc, ◌+◌, ◌-◌, ◌*◌, ◌/◌, ◌^◌, ◌<◌, ◌≤◌, ◌≡◌, ◌≢◌, ◌⊎◌, inl, inr, refl, sym, ap, ap₂, subst,
  subst₂, ◌∙◌, arith, true, false, if◌then◌else◌, Option, none, some, All,
}
use native.Mathlib.Decide.{ℕ_discrete}
use native.Mathlib.Nat.{div-add-mod', mod-lt, div-eq_of_lt-le}
use hedron.Prelude.Bits.{pow_pos}
use hedron.Links.Ring.{Distinct}
use hedron.PageTable.Table.{
  Attr, Mapping, Memory, level_order, virt_to_index, present, is_leaf, phys,
}
use hedron.PageTable.Words.{Lawful, IsPage, lt_or_le}
use hedron.PageTable.View.{Framed, view, entry_view, view_leaf}
use hedron.PageTable.Shape.{Tags, Covers, Sound, index-lt, block_number, view_same}
use hedron.PageTable.Install.{Grown, clash}
use hedron.PageTable.Split.{Above, Grown-trans, Covers-Grown, Keeps-refl, Above-trans}

-- the mapping at an address in its range
unfoldable pub mapped : Attr → Mapping → ℕ → Option (ℕ × ℕ)
mapped t map w = if present t map then some (map.paddr + (w - map.vaddr), map.attr) else none

-- An operation on the table `p` of level `n` that maps the addresses from `a` to `b`, and no others.
pub record Fills (t : Attr) (map : Mapping) (n p : ℕ) (m m' : Memory) (g g' : Tags) (a b : ℕ)
    : Type 0 where
  pub sound : Sound t m' g'
  pub grown : Grown g g'
  pub above : Above n m m' g
  pub outside :
      (w q : ℕ)
      → w < 2 ^ 64
      → (w < a) ⊎ (b ≤ w)
      → g.used q ≡ true
      → Covers g q w
      → view t m' w q (g.level q) ≡ view t m w q (g.level q)
  pub inside :
      (w : ℕ) → w < 2 ^ 64 → a ≤ w → w < b → Covers g p w → view t m' w p n ≡ mapped t map w

-- One range after the other.
pub Fills-trans :
    (t : Attr) (map : Mapping) (n p : ℕ) (m m' m'' : Memory) (g g' g'' : Tags) (a b c : ℕ)
    → a ≤ b
    → b ≤ c
    → g.used p ≡ true
    → g.level p ≡ n
    → Fills t map n p m m' g g' a b
    → Fills t map n p m' m'' g' g'' b c
    → Fills t map n p m m'' g g'' a c
Fills-trans t map n p m m' m'' g g' g'' a b c ab bc u e x y =
    let later : (w q : ℕ)
        → w < 2 ^ 64
        → (w < b) ⊎ (c ≤ w)
        → g.used q ≡ true
        → Covers g q w
        → view t m'' w q (g.level q) ≡ view t m' w q (g.level q) =
      λ w q word o u' c'.
        subst (λ k. view t m'' w q k ≡ view t m' w q k) (x.grown.level q u')
          (y.outside w q word o (x.grown.used q u') (Covers-Grown g g' q w x.grown u' c')) in
    record {
      sound = y.sound;
      grown = Grown-trans g g' g'' x.grown y.grown;
      above = Above-trans n m m' m'' g g' x.grown x.above y.above;
      outside = λ w q word o u' c'.
          later w q word (elim o [ inl k ↦ inl (omega arith) | inr k ↦ inr k ]) u' c'
          ∙ x.outside w q word (elim o [ inl k ↦ inl k | inr k ↦ inr (omega arith) ]) u' c';
      inside = λ w word lo hi c'. elim (lt_or_le w b) [
        | inl k ↦
            subst (λ k. view t m'' w p k ≡ view t m' w p k) e (later w p word (inl k) u c')
            ∙ x.inside w word lo k c'
        | inr k ↦ y.inside w word k hi (Covers-Grown g g' p w x.grown u c')
      ];
    }

-- nothing yet
pub Fills-refl :
    (t : Attr) (map : Mapping) (n p : ℕ) (m : Memory) (g : Tags) (a : ℕ)
    → Sound t m g
    → Fills t map n p m m g g a a
Fills-refl t map n p m g a s =
    let k = Keeps-refl t m g s in
    record {
      sound = s;
      grown = k.grown;
      above = λ q j u lt. refl;
      outside = λ w q word o u c. refl;
      inside = λ w word lo hi c. absurd (omega arith);
    }

pub in_block : (w n c : ℕ) → 0 < n → c * n ≤ w → w < c * n + n → w / n ≡ c
in_block w n c pos lo hi =
    let hi' : w < (c + 1) * n = grind arith in div-eq_of_lt-le {k = c} n {m = w} lo hi'

-- The number of an address's block in a table's range, and back.
pub covered_block :
    (g : Tags) (p l w : ℕ)
    → g.level p ≡ l
    → Covers g p w
    → w / 2 ^ level_order l ≡ g.prefix p * 512 + virt_to_index l w
covered_block g p l w level c =
    block_number l w
    ∙ ap (λ (y : ℕ). y * 512 + virt_to_index l w)
        (ap (λ y. w / 2 ^ level_order (suc y)) (sym level) ∙ c)

pub block-Covers :
    (g : Tags) (p l w k : ℕ)
    → g.level p ≡ l
    → k < 512
    → w / 2 ^ level_order l ≡ g.prefix p * 512 + k
    → Covers g p w × (virt_to_index l w ≡ k)
block-Covers g p l w k level lt e =
    let b = block_number l w in
    let i = index-lt l w in
    let q : w / 2 ^ level_order (suc l) ≡ g.prefix p = omega arith in
    (ap (λ y. w / 2 ^ level_order (suc y)) level ∙ q, omega arith)

-- A leaf takes an entry's place.
module _ (t : Attr) (h : Lawful t) (map : Mapping) (m m' : Memory) (g : Tags) (s : Sound t m g)
    (p l k e : ℕ) (used : g.used p ≡ true) (level : g.level p ≡ l) (small : k < 512)
    (here : m'.read p k ≡ e) (other : (q j : ℕ) → (q ≢ p) ⊎ (j ≢ k) → m'.read q j ≡ m.read q j)
    (pages : m'.pages ≡ m.pages) (leaf : is_leaf t l e ≡ true) (frame : Framed t l e)
    (seen : (w : ℕ)
      → w < 2 ^ 64
      → w / 2 ^ level_order l ≡ g.prefix p * 512 + k
      → entry_view t w e l ≡ mapped t map w) where
  at_or_same : (q j : ℕ) → ((q ≡ p) × (j ≡ k)) ⊎ (m'.read q j ≡ m.read q j)
  at_or_same q j = elim (ℕ_discrete q p) [
    | yes x ↦ elim (ℕ_discrete j k) [ yes y ↦ inl (x, y) | no y ↦ inr (other q j (inr y)) ]
    | no x ↦ inr (other q j (inl x))
  ]

  here_leaf : (q j : ℕ) → q ≡ p → j ≡ k → is_leaf t (g.level q) (m'.read q j) ≡ true
  here_leaf q j x y = ap₂ (is_leaf t) (ap g.level x ∙ level) (ap₂ m'.read x y ∙ here) ∙ leaf

  written-Sound : Sound t m' g
  written-Sound = record {
    child = λ q j l' u e' lt y. elim (at_or_same q j) [
      | inl (a, b) ↦
          absurd (clash _ (here_leaf q j a b) (ap (λ z. is_leaf t z (m'.read q j)) e' ∙ y))
      | inr r ↦
          subst
            (λ z.
              (g.used (phys t z) ≡ true)
              × (g.level (phys t z) ≡ l')
              × (g.prefix (phys t z) ≡ g.prefix q * 512 + j))
            (sym r) (s.child q j l' u e' lt (ap (is_leaf t (suc l')) (sym r) ∙ y))
    ];
    framed = λ q j u lt y. elim (at_or_same q j) [
      | inl (a, b) ↦
          subst₂ (Framed t) (sym (ap g.level a ∙ level)) (sym (ap₂ m'.read a b ∙ here)) frame
      | inr r ↦
          subst (Framed t (g.level q)) (sym r)
            (s.framed q j u lt (ap (is_leaf t (g.level q)) (sym r) ∙ y))
    ];
    low = s.low;
    fresh = subst (All (λ q. (g.used q ≡ false) × IsPage t q)) (sym pages) s.fresh;
    distinct = subst Distinct (sym pages) s.distinct;
  }

  written_other :
      (w : ℕ)
      → w / 2 ^ level_order l ≢ g.prefix p * 512 + k
      → (q : ℕ) → g.used q ≡ true
      → Covers g q w
      → view t m' w q (g.level q) ≡ view t m w q (g.level q)
  written_other w n q u c =
      view_same t m m' g s w
        (λ q' u' c'. elim (at_or_same q' (virt_to_index (g.level q') w)) [
          | inl (a, b) ↦ absurd (
              n (
                covered_block g p l w level (subst (λ z. Covers g z w) a c')
                ∙ ap (λ (y : ℕ). g.prefix p * 512 + y)
                    (ap (λ y. virt_to_index y w) (sym level ∙ sym (ap g.level a)) ∙ b)))
          | inr r ↦ inl r
        ])
        (g.level q) q u refl c

  pub leaf-Fills :
      (a : ℕ)
      → a ≡ (g.prefix p * 512 + k) * 2 ^ level_order l
      → Fills t map l p m m' g g a (a + 2 ^ level_order l)
  leaf-Fills a start =
      let n = 2 ^ level_order l in
      let pos = pow_pos (level_order l) in
      record {
        sound = written-Sound;
        grown = (let y = Keeps-refl t m g s in y.grown);
        above = λ q j u lt. other q j (inl (λ x. (let y = ap g.level x in omega arith)));
        outside = λ w q word o u c.
            written_other w
              (λ x.
                let d = div-add-mod' w n in
                let r = mod-lt w pos in
                let y = ap (λ (y : ℕ). y * n) x in
                elim o [ inl z ↦ omega arith | inr z ↦ omega arith ])
              q u c;
        inside = λ w word lo hi c.
            let b = in_block w n (g.prefix p * 512 + k) pos (omega arith) (omega arith) in
            let i : virt_to_index l w ≡ k =
              (let z = covered_block g p l w level c in omega arith) in
            let r : m'.read p (virt_to_index l w) ≡ e = ap (m'.read p) i ∙ here in
            view_leaf t h m' w p l (ap (is_leaf t l) r ∙ leaf) (subst (Framed t l) (sym r) frame)
              word (let z = s.low p used in omega arith)
            ∙ ap (λ y. entry_view t w y l) r
            ∙ seen w word b;
      }
