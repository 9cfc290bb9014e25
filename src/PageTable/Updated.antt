-- ===== src/PageTable/Updated.antt =====
-- A whole update: `update` of include/generic_page_table.hpp.
use hedron.Prelude.{
  ℕ, suc, ◌+◌, ◌-◌, ◌*◌, ◌/◌, ◌%◌, ◌^◌, ◌<◌, ◌≤◌, ◌≡◌, ◌⊎◌, refl, sym, ap, subst, ◌∙◌, arith,
  bit_and, Bool, true, false, ◌&&◌, ltb, leb, Option, none, some, [],
}
use native.Mathlib.Nat.{div-div-eq-div-mul, div-add-mod'}
use hedron.Prelude.Bits.{pow_pos}
use hedron.Word.Laws.{pow-add}
use hedron.PageTable.Table.{Attr, bits_per_level, page_bits, Mapping, Memory, level_order, present}
use hedron.PageTable.Update.{
  Result, ◌>>=◌, walk_down_and_split, fill_entries, update_table, ok, out_of_memory, panicked,
}
use hedron.PageTable.Words.{Lawful}
use hedron.PageTable.View.{view}
use hedron.PageTable.Shape.{Tags, Covers, Sound}
use hedron.PageTable.Install.{Grown}
use hedron.PageTable.Split.{Keeps, Grown-trans, Covers-Grown}
use hedron.PageTable.Step.{Found, Missing, WalkOutcome}
use hedron.PageTable.Walk.{walk_lem}
use hedron.PageTable.Cleanup.{Outcome}
use hedron.PageTable.Leaf.{mapped, in_block}
use hedron.PageTable.Entry.{Fits}
use hedron.PageTable.Rounds.{Filled, fill_entries_lem}

-- A mapping that a page table with `top + 1` levels has room for: aligned, and no larger than the root's range.
pub record Request (t : Attr) (map : Mapping) (top : ℕ) : Type 0 where
  pub vaddr_aligned : map.vaddr % 2 ^ map.order ≡ 0
  pub paddr_aligned : map.paddr % 2 ^ map.order ≡ 0
  pub vaddr_word : map.vaddr + 2 ^ map.order ≤ 2 ^ 64
  pub paddr_low : map.paddr + 2 ^ map.order ≤ 2 ^ 52
  pub attr_in : bit_and map.attr t.mask ≡ map.attr
  pub attr_word : map.attr < 2 ^ 64
  pub page : page_bits ≤ map.order
  pub part : map.order < level_order (suc top)

abbrev pub in_range : Mapping → ℕ → Bool
in_range map w = leb map.vaddr w && ltb w (map.vaddr + 2 ^ map.order)

-- What an update leaves behind, as all tables that were there see it.
pub record Updated (t : Attr) (map : Mapping) (root : ℕ) (m m' : Memory) (g g' : Tags)
    : Type 0 where
  pub sound : Sound t m' g'
  pub grown : Grown g g'
  pub outside :
      (w : ℕ)
      → w < 2 ^ 64
      → (w < map.vaddr) ⊎ (map.vaddr + 2 ^ map.order ≤ w)
      → Covers g root w
      → view t m' w root (g.level root) ≡ view t m w root (g.level root)
  pub inside :
      (w : ℕ)
      → w < 2 ^ 64
      → map.vaddr ≤ w
      → w < map.vaddr + 2 ^ map.order
      → Covers g root w
      → view t m' w root (g.level root) ≡ mapped t map w

abbrev pub UpdateOutcome : Attr → Mapping → ℕ → Memory → Tags → Result (Unit {0}) → Type 0
UpdateOutcome t map root m g (ok x m') = (g' : Tags) × Updated t map root m m' g g'
UpdateOutcome t map root m g (out_of_memory m') = (m'.pages ≡ []) × (g' : Tags) × Keeps t m m' g g'
UpdateOutcome t map root m g (panicked m') = m'.pages ≡ []

-- the level of the tables whose entries an update changes
abbrev pub modified_level : Mapping → ℕ
modified_level map = (map.order - page_bits) / bits_per_level

div_up : (a b v w : ℕ) → a ≤ b → w / 2 ^ a ≡ v / 2 ^ a → w / 2 ^ b ≡ v / 2 ^ b
div_up a b v w le e =
    let o : b ≡ a + (b - a) = omega arith in
    let p : 2 ^ b ≡ 2 ^ a * 2 ^ (b - a) = ap (λ (y : ℕ). 2 ^ y) o ∙ pow-add a (b - a) in
    let d : (x : ℕ) → x / 2 ^ b ≡ x / 2 ^ a / 2 ^ (b - a) =
      λ x. ap (λ (y : ℕ). x / y) p ∙ sym (div-div-eq-div-mul x (2 ^ a) (2 ^ (b - a))) in
    d w ∙ ap (λ (y : ℕ). y / 2 ^ (b - a)) e ∙ sym (d v)

module _ (t : Attr) (h : Lawful t) (map : Mapping) (root top : ℕ) (r : Request t map top) where
  modified-le :
      (level_order (modified_level map) ≤ map.order)
      × (map.order < level_order (suc (modified_level map)))
  modified-le = let a = r.page in (omega arith, omega arith)

  -- The level has entries for the mapping, all in one table.
  request-Fits : Fits t map (modified_level map)
  request-Fits = record {
    vaddr_aligned = r.vaddr_aligned;
    paddr_aligned = r.paddr_aligned;
    vaddr_word = r.vaddr_word;
    paddr_low = r.paddr_low;
    attr_in = r.attr_in;
    attr_word = r.attr_word;
    order_low = modified-le.0;
    order_high = (let a = modified-le.1 in omega arith);
  }

  same_block :
      (w : ℕ)
      → map.vaddr ≤ w
      → w < map.vaddr + 2 ^ map.order
      → w / 2 ^ level_order (suc (modified_level map))
        ≡ map.vaddr / 2 ^ level_order (suc (modified_level map))
  same_block w lo hi =
      let n = 2 ^ map.order in
      let a = modified-le.1 in
      let d = div-add-mod' map.vaddr n in
      let z = r.vaddr_aligned in
      div_up map.order (level_order (suc (modified_level map))) map.vaddr w (omega arith)
        (in_block w n (map.vaddr / n) (pow_pos map.order) (omega arith) (omega arith))

  module _ (m : Memory) (g : Tags) (level : g.level root ≡ top) (used : g.used root ≡ true) where
    Filled-Updated :
        (m' m'' : Memory) (g' : Tags) (p : ℕ)
        → Found t m m' g g' map.vaddr root top p (modified_level map)
        → Filled t map (modified_level map) p m' g' m''
        → (g'' : Tags) × Updated t map root m m'' g g''
    Filled-Updated m' m'' g' p x (g'', y) = (
      g'',
      record {
        sound = y.sound;
        grown = Grown-trans g g' g'' x.keeps.grown y.grown;
        outside = λ w word o c.
            subst (λ z. view t m'' w root z ≡ view t m' w root z) (x.keeps.grown.level root used)
              (y.outside w root word o (x.keeps.grown.used root used)
                (Covers-Grown g g' root w x.keeps.grown used c))
            ∙ x.keeps.seen w root word used c;
        inside = λ w word lo hi c.
            let b = same_block w lo hi in
            let c' : Covers g' p w =
              ap (λ z. w / 2 ^ level_order (suc z)) x.level
              ∙ b
              ∙ ap (λ z. map.vaddr / 2 ^ level_order (suc z)) (sym x.level)
              ∙ x.covers in
            ap (λ z. view t m'' w root z) level
            ∙ x.leads m'' w y.above b
            ∙ y.inside w word lo hi c';
      },
    )

    Missing-Updated :
        (m' : Memory) (g' : Tags)
        → present t map ≡ false
        → Missing t m m' g g' map.vaddr root top (modified_level map)
        → Updated t map root m m' g g'
    unfolding mapped
    Missing-Updated m' g' absent x = record {
      sound = x.keeps.sound;
      grown = x.keeps.grown;
      outside = λ w word o c. x.keeps.seen w root word used c;
      inside = λ w word lo hi c.
          ap (λ z. view t m' w root z) level
          ∙ x.unmapped w word (same_block w lo hi)
          ∙ rw absent refl;
    }

    after_fill :
        (m' : Memory) (g' : Tags) (p : ℕ)
        → Found t m m' g g' map.vaddr root top p (modified_level map)
        → (r : Result (Unit {0})) → Outcome (Filled t map (modified_level map) p m' g') r
        → UpdateOutcome t map root m g r
    after_fill m' g' p x (ok _ m'') y = Filled-Updated m' m'' g' p x y
    after_fill m' g' p x (out_of_memory m'') y = absurd y
    after_fill m' g' p x (panicked m'') y = y

    after_walk :
        (r : Result (Option ℕ))
        → WalkOutcome t m g map.vaddr root top (modified_level map) (present t map) r
        → UpdateOutcome t map root m g (
            r >>= λ table m'. elim table [
              | none ↦ ok tt m'
              | some p ↦ fill_entries t (modified_level map) p map m'
            ])
    after_walk (ok none m') (e, g', x) = (g', Missing-Updated m' g' e x)
    after_walk (ok (some p) m') (g', x) =
        after_fill m' g' p x (fill_entries t (modified_level map) p map m') (
          fill_entries_lem t h (modified_level map) p map m' g' request-Fits x.keeps.sound x.used
            x.level x.covers)
    after_walk (out_of_memory m') (e, g', k) = (e, g', k)
    after_walk (panicked m') x = absurd x

    -- An update maps the range and leaves all else, or no page is left.
    pub update_table_lem :
        Sound t m g
        → Covers g root map.vaddr
        → UpdateOutcome t map root m g (update_table t root top map m)
    unfolding update_table
    update_table_lem s c =
        after_walk (walk_down_and_split t map.vaddr (modified_level map) (present t map) root top m)
          (walk_lem t h map.vaddr (modified_level map) (present t map) top root m g
            (let a = modified-le in let b = r.part in omega arith) s used level c)
