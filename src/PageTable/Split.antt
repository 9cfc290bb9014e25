-- ===== src/PageTable/Split.antt =====
-- A superpage is split, or a missing table made: `split_entry`, the body of `walk_down_and_split` of
-- include/generic_page_table.hpp.
use hedron.Prelude.{
  ℕ, suc, ◌/◌, ◌^◌, ◌<◌, ◌≡◌, ◌≢◌, inl, inr, refl, sym, ap, subst, subst₂, ◌∙◌, arith, bit_and,
  bit_or, true, false, List, ◌∷◌, All,
}
use native.Mathlib.Decide.{ℕ_discrete}
use hedron.Prelude.Bits.{and_zero_left}
use hedron.Word.{has_bits}
use hedron.Links.{update}
use hedron.Sched.Ready.{update_self, update_ne}
use hedron.PageTable.Table.{
  Attr, Memory, level_order, virt_to_index, is_leaf, is_superpage, phys, write,
}
use hedron.PageTable.Update.{sub_entry, fill_from_superpage, flush_tlb_later}
use hedron.PageTable.Writes.{write_self, write_other, write_pages, each-write}
use hedron.PageTable.Words.{Lawful, IsPage}
use hedron.PageTable.View.{Framed, view, entry_view}
use hedron.PageTable.Shape.{Tags, Covers, Sound, index-lt, view_same}
use hedron.PageTable.SubEntry.{sub_entry-leaf, sub_entry-Framed, sub_entry-view}
use hedron.PageTable.Install.{
  Grown, Installs, with_table, with_table-Grown, with_table-Sound, entry_seen, entry_phys,
  entry_table, page_other, used_other, clash,
}

-- An operation that keeps the shape and what all tables say of addresses.
pub record Keeps (t : Attr) (m m' : Memory) (g g' : Tags) : Type 0 where
  pub sound : Sound t m' g'
  pub grown : Grown g g'
  pub seen :
      (v q : ℕ)
      → v < 2 ^ 64
      → g.used q ≡ true
      → Covers g q v
      → view t m' v q (g.level q) ≡ view t m v q (g.level q)

-- Tables above a level are untouched.
abbrev pub Above : ℕ → Memory → Memory → Tags → Type 0
Above n m m' g = (q j : ℕ) → g.used q ≡ true → n < g.level q → m'.read q j ≡ m.read q j

pub Grown-trans : (g g' g'' : Tags) → Grown g g' → Grown g' g'' → Grown g g''
Grown-trans g g' g'' a b = record {
  used = λ q u. b.used q (a.used q u);
  level = λ q u. b.level q (a.used q u) ∙ a.level q u;
  prefix = λ q u. b.prefix q (a.used q u) ∙ a.prefix q u;
}

pub Covers-Grown :
    (g g' : Tags) (q v : ℕ) → Grown g g' → g.used q ≡ true → Covers g q v → Covers g' q v
Covers-Grown g g' q v a u c =
    ap (λ y. v / 2 ^ level_order (suc y)) (a.level q u) ∙ c ∙ sym (a.prefix q u)

pub Keeps-trans :
    (t : Attr) (m m' m'' : Memory) (g g' g'' : Tags)
    → Keeps t m m' g g'
    → Keeps t m' m'' g' g''
    → Keeps t m m'' g g''
Keeps-trans t m m' m'' g g' g'' a b = record {
  sound = b.sound;
  grown = Grown-trans g g' g'' a.grown b.grown;
  seen = λ v q w u c.
      subst (λ y. view t m'' v q y ≡ view t m' v q y) (a.grown.level q u)
        (b.seen v q w (a.grown.used q u) (Covers-Grown g g' q v a.grown u c))
      ∙ a.seen v q w u c;
}

pub Keeps-refl : (t : Attr) (m : Memory) (g : Tags) → Sound t m g → Keeps t m m g g
Keeps-refl t m g s = record {
  sound = s;
  grown = record { used = λ q u. u; level = λ q u. refl; prefix = λ q u. refl };
  seen = λ v q w u c. refl;
}

pub Above-trans :
    (n : ℕ) (m m' m'' : Memory) (g g' : Tags)
    → Grown g g'
    → Above n m m' g
    → Above n m' m'' g'
    → Above n m m'' g
Above-trans n m m' m'' g g' a x y q j u lt =
    let e = a.level q u in y q j (a.used q u) (omega arith) ∙ x q j u lt

-- An installed table keeps all, where its entries say what the leaf said.
pub Installs-Keeps :
    (t : Attr) (h : Lawful t) (m m' : Memory) (g : Tags) (s : Sound t m g) (p i l q : ℕ)
    (rest : List ℕ) (content : ℕ → ℕ) (r : ℕ)
    → Installs t h m m' g s p i l q rest content r
    → is_leaf t (suc l) (m.read p i) ≡ true
    → Framed t (suc l) (m.read p i)
    → ((w : ℕ)
        → w < 2 ^ 64
        → entry_view t w (content (virt_to_index l w)) l ≡ entry_view t w (m.read p i) (suc l))
    → Keeps t m m' g (with_table t h m m' g s p i l q rest content r)
Installs-Keeps t h m m' g s p i l q rest content r v leaf frame same = record {
  sound = with_table-Sound t h m m' g s p i l q rest content r v;
  grown = with_table-Grown t h m m' g s p i l q rest content r v;
  seen = λ w k word u c.
      view_same t m m' g s w
        (λ k' u' c'. elim (ℕ_discrete k' p) [
          | yes x ↦ elim (ℕ_discrete (virt_to_index (suc l) w) i) [
            | yes y ↦
                let e = ap g.level x ∙ v.table_level in
                inr (
                  subst₂ (λ a b. view t m' w a b ≡ view t m w a b) (sym x) (sym e)
                    (entry_seen t h m m' g s p i l q rest content r v w word y leaf frame
                      (same w word)))
            | no n ↦
                let e = ap g.level x ∙ v.table_level in
                inl (
                  v.same k' _ (page_other t h m m' g s p i l q rest content r v k' u')
                    (inr (λ z. n (ap (λ y. virt_to_index y w) (sym e) ∙ z))))
          ]
          | no n ↦
              inl (v.same k' _ (page_other t h m m' g s p i l q rest content r v k' u') (inl n))
        ])
        (g.level k) k u refl c;
}

pub zero-p : (t : Attr) → has_bits 0 t.pte_p ≡ false
zero-p t = rw (and_zero_left t.pte_p) refl

pub zero-leaf : (t : Attr) (l : ℕ) → is_leaf t l 0 ≡ true
unfolding is_leaf
zero-leaf t l = let z = zero-p t in ground arith

pub zero-Framed : (t : Attr) (l : ℕ) → Framed t l 0
zero-Framed t l = record { word = omega arith; first = λ e. absurd (clash _ e (zero-p t)) }

pub unmapped_view :
    (t : Attr) (v e l l' : ℕ)
    → has_bits e t.pte_p ≡ false
    → entry_view t v 0 l ≡ entry_view t v e l'
unmapped_view t v e l l' h = rw (zero-p t, h) refl

-- The page that is allocated first.
abbrev pub cleared_page : Memory → ℕ → List ℕ → Memory
cleared_page m q rest = record m { read = update m.read q (λ _. 0); pages = rest }

-- What a split leaves.
pub record Splits (t : Attr) (m m' : Memory) (g g' : Tags) (p i l q : ℕ) : Type 0 where
  pub keeps : Keeps t m m' g g'
  pub used : g'.used q ≡ true
  pub level : g'.level q ≡ l
  pub entry : phys t (m'.read p i) ≡ q
  pub table : is_leaf t (suc l) (m'.read p i) ≡ false
  pub above : Above (suc l) m m' g

module _ (t : Attr) (h : Lawful t) (m : Memory) (g : Tags) (s : Sound t m g) (p i l : ℕ)
    (used : g.used p ≡ true) (level : g.level p ≡ suc l) (small : i < 512)
    (leaf : is_leaf t (suc l) (m.read p i) ≡ true) where
  pub frame_here : Framed t (suc l) (m.read p i)
  frame_here =
      subst (λ k. Framed t k (m.read p i)) level
        (s.framed p i used small (ap (λ k. is_leaf t k (m.read p i)) level ∙ leaf))

  -- An installed table, from what it holds.
  pub Installs-Splits :
      (m' : Memory) (q : ℕ) (rest : List ℕ) (content : ℕ → ℕ) (r : ℕ)
      → Installs t h m m' g s p i l q rest content r
      → ((w : ℕ)
          → w < 2 ^ 64
          → entry_view t w (content (virt_to_index l w)) l ≡ entry_view t w (m.read p i) (suc l))
      → (g' : Tags) × Splits t m m' g g' p i l q
  Installs-Splits m' q rest content r v same = (
    with_table t h m m' g s p i l q rest content r,
    record {
      keeps = Installs-Keeps t h m m' g s p i l q rest content r v leaf frame_here same;
      used = update_self g.used q true;
      level = update_self g.level q l;
      entry = entry_phys t h m m' g s p i l q rest content r v;
      table = entry_table t h m m' g s p i l q rest content r v;
      above = λ k j u lt.
          v.same k j (page_other t h m m' g s p i l q rest content r v k u)
            (inl (λ e. (let x = ap g.level e in omega arith)));
    },
  )

  -- A superpage's new table, and one for a part that is not mapped.
  module _ (q : ℕ) (rest : List ℕ) (pages : m.pages ≡ q ∷ rest) (r : ℕ) (r_word : r < 2 ^ 64)
      (r_in : bit_and r t.mask ≡ r) (r_p : has_bits r t.pte_p ≡ true) where
    apart : p ≢ q
    apart =
        used_other g q p (subst (All (λ k. (g.used k ≡ false) × IsPage t k)) pages s.fresh).0.0 used

    pub split_super :
        is_superpage t (suc l) (m.read p i) ≡ true
        → (g' : Tags) × Splits t m
            (write p i (bit_or q r) (
              flush_tlb_later
                (fill_from_superpage t q (m.read p i) (suc l) (cleared_page m q rest))))
            g
            g'
            p
            i
            l
            q
    unfolding fill_from_superpage flush_tlb_later
    split_super super =
        let e = m.read p i in
        let a = s.low p used in
        let low : l < 4 = omega arith in
        let w = each-write q (sub_entry t e (suc l)) 512 0 (cleared_page m q rest) in
        let m' = flush_tlb_later (fill_from_superpage t q e (suc l) (cleared_page m q rest)) in
        Installs-Splits (write p i (bit_or q r) m') q rest (sub_entry t e (suc l)) r
          (record {
            table_used = used;
            table_level = level;
            index_low = small;
            page_first = pages;
            leaves = λ j lt. sub_entry-leaf t h e l j lt low super frame_here;
            framed = λ j lt. sub_entry-Framed t h e l j lt low super frame_here;
            rights_word = r_word;
            rights_in = r_in;
            rights_p = r_p;
            pages_left = write_pages p i (bit_or q r) m' ∙ w.pages;
            new = λ j lt.
                write_other p i (bit_or q r) m' q j (inl (λ x. apart (sym x)))
                ∙ w.inside j (omega arith) (omega arith);
            entry = write_self p i (bit_or q r) m';
            same = λ k j n o.
                write_other p i (bit_or q r) m' k j o
                ∙ w.outside k j (inl n)
                ∙ ap (λ f. f j) (update_ne m.read q k (λ _. 0) n);
          })
          (λ v word. sub_entry-view t h e l _ (index-lt l v) low super frame_here v refl)

    pub split_missing :
        has_bits (m.read p i) t.pte_p ≡ false
        → (g' : Tags) × Splits t m (write p i (bit_or q r) (cleared_page m q rest)) g g' p i l q
    split_missing missing =
        let m' = cleared_page m q rest in
        Installs-Splits (write p i (bit_or q r) m') q rest (λ _. 0) r
          (record {
            table_used = used;
            table_level = level;
            index_low = small;
            page_first = pages;
            leaves = λ j lt. zero-leaf t l;
            framed = λ j lt. zero-Framed t l;
            rights_word = r_word;
            rights_in = r_in;
            rights_p = r_p;
            pages_left = write_pages p i (bit_or q r) m';
            new = λ j lt.
                write_other p i (bit_or q r) m' q j (inl (λ x. apart (sym x)))
                ∙ ap (λ f. f j) (update_self m.read q (λ _. 0));
            entry = write_self p i (bit_or q r) m';
            same = λ k j n o.
                write_other p i (bit_or q r) m' k j o
                ∙ ap (λ f. f j) (update_ne m.read q k (λ _. 0) n);
          })
          (λ v word. unmapped_view t v (m.read p i) l (suc l) missing)
