-- ===== src/Mdb/Rights.antt =====
-- The first loop of a revocation takes the rights of a whole subtree: `Mdb::demote_node` of src/mdb.cpp.
use hedron.Prelude.{
  ℕ, zero, suc, ◌+◌, ◌-◌, ◌^◌, ◌<◌, ◌≤◌, ◌≡◌, ◌≢◌, inl, inr, refl, sym, ap, ◌∙◌, arith, bit_and,
  min, Bool-cases, Bool, true, false, some, if◌then◌else◌, ◌==◌, ==_iff, leb, List, [], ◌∷◌, All,
  length,
}
use hedron.Prelude.Bits.{bit, bit-and, bit-inv, bit-zero, eq_of_bits}
use hedron.Word.{inv}
use hedron.Links.{update}
use hedron.Links.Ring.{NotIn, Distinct, last}
use hedron.Sched.Ready.{update_self, update_ne}
use hedron.Mdb.{Mdb, Spaces, demoted, demote_from, demote_node}
use hedron.Mdb.Circle.{Forth}

-- A word with no bit in a mask and none outside it.
no_rights : (x a : ℕ) → x < 2 ^ 64 → a < 2 ^ 64 → bit_and x a ≡ 0 → bit_and x (inv a) ≡ 0 → x ≡ 0
no_rights x a h l e e' = eq_of_bits 64 x 0 h (omega arith) λ k lk.
    let u = bit-and k x a in
    let v = bit-and k x (inv a) in
    let c = bit-inv 64 k a lk l in
    let z = bit-zero k in
    let u' : min (bit x k) (bit a k) ≡ 0 = sym u ∙ ap (λ y. bit y k) e ∙ z in
    let v' : min (bit x k) (1 - bit a k) ≡ 0 =
      ap (min (bit x k)) (sym c) ∙ sym v ∙ ap (λ y. bit y k) e' ∙ z in
    ground (arith, z)

-- The mask has all rights of a node.
abbrev pub Covered : ℕ → (ℕ → ℕ) → ℕ → Type 0
Covered a attr k = (attr k < 2 ^ 64) × (bit_and (attr k) (inv a) ≡ 0)

module _ {ℓ} {W : Type ℓ} (s : Spaces W) (a : ℕ) (word : a < 2 ^ 64) where
  demoted_lem :
      (b : ℕ) (m : Mdb) (w : W)
      → Covered a m.node_attr b
      → (attr : ℕ → ℕ) × (w' : W) × (demoted s true a b m w ≡ (record m { node_attr = attr }, w'))
        × (attr b ≡ 0)
        × ((k : ℕ) → k ≢ b → attr k ≡ m.node_attr k)
  unfolding demoted demote_node
  demoted_lem b m w c = elim (Bool-cases (bit_and (m.node_attr b) a == 0)) [
    | inl x ↦ (
      m.node_attr,
      w,
      rw x refl,
      no_rights (m.node_attr b) a c.0 word ((==_iff _ _).0 x) c.1,
      λ k n. refl,
    )
    | inr x ↦ (
      update m.node_attr b (bit_and (m.node_attr b) (inv a)),
      s.update b a m w,
      rw x refl,
      update_self m.node_attr b _ ∙ c.1,
      λ k n. update_ne m.node_attr b k _ n,
    )
  ]

-- What a loop over other nodes needs after a change at one.
Covered-after :
    (a b : ℕ) (attr attr' : ℕ → ℕ) (xs : List ℕ)
    → ((k : ℕ) → k ≢ b → attr' k ≡ attr k)
    → NotIn b xs
    → All (Covered a attr) xs
    → All (Covered a attr') xs
Covered-after a b attr attr' [] same n c = tt
Covered-after a b attr attr' (x ∷ xs) same n c =
    let e = same x (λ e. n.0 (sym e)) in
    ((rw e c.0.0, rw e c.0.1), Covered-after a b attr attr' xs same n.1 c.1)

module _ {ℓ} {W : Type ℓ} (s : Spaces W) (in_range : Mdb → ℕ → Bool) (a d : ℕ)
    (word : a < 2 ^ 64) where
  demote_step :
      (f b : ℕ) (demote : Bool) (m m' : Mdb) (w w' : W)
      → (if m.dpth b == d + 0 then in_range m b else demote) ≡ true
      → demoted s true a b m w ≡ (m', w')
      → leb (m'.dpth (m'.next b)) d ≡ false
      → demote_from s (suc f) in_range d true a demote b m w
        ≡ demote_from s f in_range d true a true (m'.next b) m' w'
  unfolding demote_from
  demote_step f b demote m m' w w' x y z = rw (demote_from, x, y, z) refl

  demote_stop :
      (f b : ℕ) (demote : Bool) (m m' : Mdb) (w w' : W)
      → (if m.dpth b == d + 0 then in_range m b else demote) ≡ true
      → demoted s true a b m w ≡ (m', w')
      → leb (m'.dpth (m'.next b)) d ≡ true
      → demote_from s (suc f) in_range d true a demote b m w ≡ some (b, m', w')
  unfolding demote_from
  demote_stop f b demote m m' w w' x y z = rw (demote_from, x, y, z) refl

  -- From a node on, where it and all behind it up to `z` are in the range.
  pub demote_from_lem :
      (f b : ℕ) (xs : List ℕ) (z : ℕ) (demote : Bool) (m : Mdb) (w : W)
      → length xs < f
      → (if m.dpth b == d + 0 then in_range m b else demote) ≡ true
      → Forth m.prev m.next b xs z
      → All (λ k. d < m.dpth k) xs
      → m.dpth z ≤ d
      → Distinct (b ∷ xs)
      → All (Covered a m.node_attr) (b ∷ xs)
      → (attr : ℕ → ℕ) × (w' : W) × (demote_from s f in_range d true a demote b m w
          ≡ some (last b xs, record m { node_attr = attr }, w'))
        × All (λ k. attr k ≡ 0) (b ∷ xs)
        × ((k : ℕ) → NotIn k (b ∷ xs) → attr k ≡ m.node_attr k)
  demote_from_lem zero b xs z demote m w h t o deep low dist c = absurd (omega arith)
  demote_from_lem (suc f) b [] z demote m w h t o deep low dist c =
      let (attr, w', e, clear, same) = demoted_lem s a word b m w c.0 in
      (
        attr,
        w',
        demote_stop f b demote m _ w w' t e (ap (λ k. leb (m.dpth k) d) o.0 ∙ ground arith),
        (clear, tt),
        λ k n. same k n.0,
      )
  demote_from_lem (suc f) b (x ∷ xs) z demote m w h t o deep low dist c =
      let (attr, w', e, clear, same) = demoted_lem s a word b m w c.0 in
      let m' = record m { node_attr = attr } in
      let (attr', w'', e', clear', same') =
        demote_from_lem f x xs z true m' w' (omega arith) (let q = deep.0 in ground arith) o.2
          deep.1 low dist.1 (Covered-after a b m.node_attr attr (x ∷ xs) same dist.0 c.1) in
      (
        attr',
        w'',
        demote_step f b demote m m' w w' t e
              (ap (λ k. leb (m.dpth k) d) o.0 ∙ (let q = deep.0 in ground arith))
            ∙ ap (λ k. demote_from s f in_range d true a true k m' w') o.0
            ∙ e',
        (same' b dist.0 ∙ clear, clear'),
        λ k n. same' k n.1 ∙ same k n.0,
      )
