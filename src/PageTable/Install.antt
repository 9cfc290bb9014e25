-- ===== src/PageTable/Install.antt =====
-- A new table takes the place of a leaf: the step that `walk_down_and_split` and `fill_entries` of
-- include/generic_page_table.hpp share.
use hedron.Prelude.{
  ℕ, suc, ◌+◌, ◌*◌, ◌^◌, ◌<◌, ◌≡◌, ◌≢◌, ◌⊎◌, inl, inr, sym, ap, ap₂, subst, subst₂, ◌∙◌, arith,
  bit_and, bit_or, Bool, true, false, ltb, List, [], ◌∷◌, All,
}
use native.Mathlib.Decide.{ℕ_discrete}
use hedron.Word.{has_bits}
use hedron.Links.{update}
use hedron.Links.Ring.{Distinct, NotIn}
use hedron.Sched.Ready.{update_self, update_ne}
use hedron.PageTable.Table.{Attr, Memory, virt_to_index, is_leaf, is_superpage, phys}
use hedron.PageTable.Words.{Lawful, IsPage, phys-table, table-p, table-s}
use hedron.PageTable.View.{Framed, view, entry_view, view_leaf, view_table}
use hedron.PageTable.Shape.{Tags, Sound, index-lt}

-- Tables stay tables, with their level and range.
pub record Grown (g g' : Tags) : Type 0 where
  pub used : (q : ℕ) → g.used q ≡ true → g'.used q ≡ true
  pub level : (q : ℕ) → g.used q ≡ true → g'.level q ≡ g.level q
  pub prefix : (q : ℕ) → g.used q ≡ true → g'.prefix q ≡ g.prefix q

pub used_other : (g : Tags) (q q' : ℕ) → g.used q ≡ false → g.used q' ≡ true → q' ≢ q
used_other g q q' u u' e = (let x = ap g.used e in cc)

pub clash : (b : Bool) → b ≡ true → b ≡ false → ⊥
clash true x y = cc
clash false x y = cc

still_fresh :
    (t : Attr) (g : Tags) (q : ℕ) (qs : List ℕ)
    → NotIn q qs
    → All (λ k. (g.used k ≡ false) × IsPage t k) qs
    → All (λ k. (update g.used q true k ≡ false) × IsPage t k) qs
still_fresh t g q [] n a = tt
still_fresh t g q (x ∷ xs) n a =
    ((update_ne g.used q x true (λ e. n.0 (sym e)) ∙ a.0.0, a.0.1), still_fresh t g q xs n.1 a.1)

module _ (t : Attr) (h : Lawful t) (m m' : Memory) (g : Tags) (s : Sound t m g) (p i l q : ℕ)
    (rest : List ℕ) (content : ℕ → ℕ) (r : ℕ) where
  pub record Installs : Type 0 where
    pub table_used : g.used p ≡ true
    pub table_level : g.level p ≡ suc l
    pub index_low : i < 512
    pub page_first : m.pages ≡ q ∷ rest
    pub leaves : (j : ℕ) → j < 512 → is_leaf t l (content j) ≡ true
    pub framed : (j : ℕ) → j < 512 → Framed t l (content j)
    pub rights_word : r < 2 ^ 64
    pub rights_in : bit_and r t.mask ≡ r
    pub rights_p : has_bits r t.pte_p ≡ true
    pub pages_left : m'.pages ≡ rest
    pub new : (j : ℕ) → j < 512 → m'.read q j ≡ content j
    pub entry : m'.read p i ≡ bit_or q r
    pub same : (q' j : ℕ) → q' ≢ q → (q' ≢ p) ⊎ (j ≢ i) → m'.read q' j ≡ m.read q' j

  -- the tables with the new one
  abbrev pub with_table : Tags
  with_table = record {
    used = update g.used q true;
    level = update g.level q l;
    prefix = update g.prefix q (g.prefix p * 512 + i);
  }

  module _ (v : Installs) where
    fresh_pages : All (λ k. (g.used k ≡ false) × IsPage t k) (q ∷ rest)
    fresh_pages = subst (All (λ k. (g.used k ≡ false) × IsPage t k)) v.page_first s.fresh

    Distinct-pages : Distinct (q ∷ rest)
    Distinct-pages = subst Distinct v.page_first s.distinct

    pub page_other : (q' : ℕ) → g.used q' ≡ true → q' ≢ q
    page_other q' = used_other g q q' fresh_pages.0.0

    pub with_table-Grown : Grown g with_table
    with_table-Grown = record {
      used = λ k u. update_ne g.used q k true (page_other k u) ∙ u;
      level = λ k u. update_ne g.level q k l (page_other k u);
      prefix = λ k u. update_ne g.prefix q k _ (page_other k u);
    }

    pub entry_phys : phys t (m'.read p i) ≡ q
    entry_phys = rw v.entry (phys-table t h q r fresh_pages.0.1 v.rights_word v.rights_in)

    pub entry_table : is_leaf t (suc l) (m'.read p i) ≡ false
    unfolding is_leaf is_superpage
    entry_table =
        let a =
          ap (λ x. ltb 0 x) (table-p t h q r fresh_pages.0.1 v.rights_word v.rights_in)
          ∙ v.rights_p in
        let b = ap (λ x. ltb 0 x) (table-s t h q r fresh_pages.0.1 v.rights_word v.rights_in) in
        rw (v.entry, a, b) (ground arith)

    was_used : (k : ℕ) → k ≢ q → with_table.used k ≡ true → g.used k ≡ true
    was_used k n u = sym (update_ne g.used q k true n) ∙ u

    new_level : (k : ℕ) → k ≡ q → with_table.level k ≡ l
    new_level k x = ap (update g.level q l) x ∙ update_self g.level q l

    new_read : (k j : ℕ) → k ≡ q → j < 512 → m'.read k j ≡ content j
    new_read k j x lt = ap (λ y. m'.read y j) x ∙ v.new j lt

    old_read : (k j : ℕ) → k ≢ q → (k ≢ p) ⊎ (j ≢ i) → m'.read k j ≡ m.read k j
    old_read k j = v.same k j

    old_child :
        (k j l' : ℕ)
        → g.used k ≡ true
        → g.level k ≡ suc l'
        → j < 512
        → m'.read k j ≡ m.read k j
        → is_leaf t (suc l') (m'.read k j) ≡ false
        → (with_table.used (phys t (m'.read k j)) ≡ true)
          × (with_table.level (phys t (m'.read k j)) ≡ l')
          × (with_table.prefix (phys t (m'.read k j)) ≡ with_table.prefix k * 512 + j)
    old_child k j l' u e lt eq leaf =
        let (a, b, c) = s.child k j l' u e lt (ap (is_leaf t (suc l')) (sym eq) ∙ leaf) in
        let w = with_table-Grown in
        rw eq (
          w.used (phys t (m.read k j)) a,
          w.level (phys t (m.read k j)) a ∙ b,
          w.prefix (phys t (m.read k j)) a ∙ c ∙ ap (λ y. y * 512 + j) (sym (w.prefix k u)),
        )

    entry_child :
        (l' : ℕ)
        → g.level p ≡ suc l'
        → (with_table.used (phys t (m'.read p i)) ≡ true)
          × (with_table.level (phys t (m'.read p i)) ≡ l')
          × (with_table.prefix (phys t (m'.read p i)) ≡ with_table.prefix p * 512 + i)
    entry_child l' e =
        let w = with_table-Grown in
        let e' = v.table_level in
        rw entry_phys (
          update_self g.used q true,
          update_self g.level q l ∙ (omega arith),
          update_self g.prefix q _ ∙ ap (λ y. y * 512 + i) (sym (w.prefix p v.table_used)),
        )

    children :
        (k j l' : ℕ)
        → with_table.used k ≡ true
        → with_table.level k ≡ suc l'
        → j < 512
        → is_leaf t (suc l') (m'.read k j) ≡ false
        → (with_table.used (phys t (m'.read k j)) ≡ true)
          × (with_table.level (phys t (m'.read k j)) ≡ l')
          × (with_table.prefix (phys t (m'.read k j)) ≡ with_table.prefix k * 512 + j)
    children k j l' u e lt leaf = elim (ℕ_discrete k q) [
      | yes x ↦
          let z = ap₂ (is_leaf t) (sym e ∙ new_level k x) (new_read k j x lt) in
          absurd (clash _ (v.leaves j lt) (sym z ∙ leaf))
      | no n ↦
          let u' = was_used k n u in
          let e' = sym (with_table-Grown.level k u') ∙ e in
          elim (ℕ_discrete k p) [
            | yes y ↦ elim (ℕ_discrete j i) [
              | yes z ↦
                  subst₂
                    (λ a b.
                      (with_table.used (phys t (m'.read a b)) ≡ true)
                      × (with_table.level (phys t (m'.read a b)) ≡ l')
                      × (with_table.prefix (phys t (m'.read a b)) ≡ with_table.prefix a * 512 + b))
                    (sym y) (sym z) (entry_child l' (ap g.level (sym y) ∙ e'))
              | no z ↦ old_child k j l' u' e' lt (old_read k j n (inr z)) leaf
            ]
            | no y ↦ old_child k j l' u' e' lt (old_read k j n (inl y)) leaf
          ]
    ]

    Framed-entries :
        (k j : ℕ)
        → with_table.used k ≡ true
        → j < 512
        → is_leaf t (with_table.level k) (m'.read k j) ≡ true
        → Framed t (with_table.level k) (m'.read k j)
    Framed-entries k j u lt leaf = elim (ℕ_discrete k q) [
      | yes x ↦ subst₂ (Framed t) (sym (new_level k x)) (sym (new_read k j x lt)) (v.framed j lt)
      | no n ↦
          let u' = was_used k n u in
          let e = with_table-Grown.level k u' in
          let old : m'.read k j ≡ m.read k j → Framed t (with_table.level k) (m'.read k j) = λ eq.
            subst₂ (Framed t) (sym e) (sym eq)
              (s.framed k j u' lt (ap₂ (is_leaf t) (sym e) (sym eq) ∙ leaf)) in
          elim (ℕ_discrete k p) [
            | yes y ↦ elim (ℕ_discrete j i) [
              | yes z ↦
                  let a = ap₂ m'.read (sym y) (sym z) in
                  let b = sym v.table_level ∙ ap g.level (sym y) ∙ sym e in
                  absurd (clash _ leaf (sym (ap₂ (is_leaf t) b a) ∙ entry_table))
              | no z ↦ old (old_read k j n (inr z))
            ]
            | no y ↦ old (old_read k j n (inl y))
          ]
    ]

    pub with_table-Sound : Sound t m' with_table
    with_table-Sound = record {
      child = children;
      framed = Framed-entries;
      low = λ k u. elim (ℕ_discrete k q) [
        | yes x ↦
            let a = s.low p v.table_used in
            let b = v.table_level in let c = new_level k x in omega arith
        | no n ↦
            let u' = was_used k n u in
            let a = s.low k u' in let b = with_table-Grown.level k u' in omega arith
      ];
      fresh = rw v.pages_left (still_fresh t g q rest Distinct-pages.0 fresh_pages.1);
      distinct = rw v.pages_left Distinct-pages.1;
    }

    -- What the leaf said is what the new table says, if its entries do.
    pub entry_seen :
        (w : ℕ)
        → w < 2 ^ 64
        → virt_to_index (suc l) w ≡ i
        → is_leaf t (suc l) (m.read p i) ≡ true
        → Framed t (suc l) (m.read p i)
        → entry_view t w (content (virt_to_index l w)) l ≡ entry_view t w (m.read p i) (suc l)
        → view t m' w p (suc l) ≡ view t m w p (suc l)
    entry_seen w word at leaf frame same =
        let a = s.low p v.table_used in
        let a' = v.table_level in
        let j = virt_to_index l w in
        let lt = index-lt l w in
        let b =
          view_table t m' w p l (ap (λ y. is_leaf t (suc l) (m'.read p y)) at ∙ entry_table) in
        let c =
          ap (λ y. view t m' w (phys t (m'.read p y)) l) at
          ∙ ap (λ y. view t m' w y l) entry_phys in
        let new = v.new j lt in
        let d =
          view_leaf t h m' w q l (ap (is_leaf t l) new ∙ v.leaves j lt)
            (subst (Framed t l) (sym new) (v.framed j lt)) word (omega arith) in
        let e =
          view_leaf t h m w p (suc l) (ap (λ y. is_leaf t (suc l) (m.read p y)) at ∙ leaf)
            (subst (λ y. Framed t (suc l) (m.read p y)) (sym at) frame) word (omega arith) in
        b
        ∙ c
        ∙ d
        ∙ ap (λ y. entry_view t w y l) new
        ∙ same
        ∙ ap (λ y. entry_view t w (m.read p y) (suc l)) (sym at)
        ∙ sym e
