-- ===== src/Mdb/Revoke.antt =====
-- The second loop of a revocation takes the nodes of a subtree out of the circle: `Mdb::remove_node` of src/mdb.cpp
-- and the loop body of `Pd::revoke` of src/pd.cpp.
use hedron.Prelude.{
  ℕ, zero, suc, ◌+◌, ◌^◌, ◌<◌, ◌≤◌, ◌≡◌, ◌≢◌, refl, sym, ap, ◌∙◌, arith, Bool, true, false, some,
  if◌then◌else◌, ==_iff, ltb, leb, List, [], ◌∷◌, All, length,
}
use hedron.Word.{add64, sub64}
use hedron.Links.Ring.{NotIn, Distinct, last}
use hedron.Mdb.{
  Mdb, Spaces, alive, unlinked, remove_node, removed, remove_from, demote_from, overlaps,
  revoke_node, demoted_well,
}
use hedron.Mdb.Circle.{
  Back, Forth, back_from, Forth-Back, NotIn-back, All-back, Distinct-back, all_apart, Back-alive,
  unlinked-Back, unlinked-frame,
}
use hedron.Mdb.Rights.{Covered, demote_from_lem}

-- The nodes from the last one back to `x`, which alone is at depth `d`.
abbrev pub Ends : (ℕ → ℕ) → ℕ → ℕ → ℕ → List ℕ → Type 0
Ends dpth d x y [] = (y ≡ x) × (dpth y ≡ d)
Ends dpth d x y (y' ∷ ys) = (d < dpth y) × Ends dpth d x y' ys

-- A node without rights or children goes.
pub remove_node_lem :
    (n : ℕ) (m : Mdb)
    → m.node_attr n ≡ 0
    → alive m n ≡ true
    → m.dpth (m.next n) ≤ m.dpth n
    → remove_node n m ≡ (true, unlinked n m)
unfolding remove_node
remove_node_lem n m x y z =
    let low : ltb (m.dpth n) (m.dpth (m.next n)) ≡ false = ground arith in
    rw (remove_node, (==_iff _ _).1 x, y, low) refl

Ends-low : (dpth : ℕ → ℕ) (d x y : ℕ) (ys : List ℕ) → Ends dpth d x y ys → d ≤ dpth y
Ends-low dpth d x y [] e = let h = e.1 in omega arith
Ends-low dpth d x y (y' ∷ ys) e = let h = e.0 in omega arith

-- A stretch of nodes between `a` and `z` is cut out of the circle, and nothing else changes.
pub record Cut (m m' : Mdb) (a z : ℕ) (ys : List ℕ) : Type 0 where
  pub back : m'.prev z ≡ a
  pub forth : m'.next a ≡ z
  pub next_same : (k : ℕ) → NotIn k ys → k ≢ a → m'.next k ≡ m.next k
  pub prev_same : (k : ℕ) → NotIn k ys → k ≢ z → m'.prev k ≡ m.prev k
  pub dpth_same : m'.dpth ≡ m.dpth
  pub attr_same : (k : ℕ) → NotIn k ys → m'.node_attr k ≡ m.node_attr k

module _ {ℓ} {W : Type ℓ} (s : Spaces W) (d : ℕ) where
  removed_lem :
      (n : ℕ) (m : Mdb) (w : W)
      → m.node_attr n ≡ 0
      → alive m n ≡ true
      → m.dpth (m.next n) ≤ m.dpth n
      → (w' : W) × (removed s n m w ≡ (unlinked n m, w'))
  unfolding removed
  removed_lem n m w x y z =
      let (found, w') = s.tree_remove n (unlinked n m) w in
      (if found then s.rcu_call n w' else w', rw (removed, remove_node_lem n m x y z) refl)

  remove_step :
      (f y : ℕ) (m m' : Mdb) (w w' : W)
      → removed s y m w ≡ (m', w')
      → leb (m'.dpth y) d ≡ false
      → remove_from s (suc f) d y m w ≡ remove_from s f d (m'.prev y) m' w'
  unfolding remove_from
  remove_step f y m m' w w' x z = rw (remove_from, x, z) refl

  remove_stop :
      (f y : ℕ) (m m' : Mdb) (w w' : W)
      → removed s y m w ≡ (m', w')
      → leb (m'.dpth y) d ≡ true
      → remove_from s (suc f) d y m w ≡ some (y, m', w')
  unfolding remove_from
  remove_stop f y m m' w w' x z = rw (remove_from, x, z) refl

  pub remove_from_lem :
      (f y : ℕ) (ys : List ℕ) (x z a : ℕ) (m : Mdb) (w : W)
      → length ys < f
      → Back m.prev m.next z (y ∷ ys) a
      → Ends m.dpth d x y ys
      → m.dpth z ≤ d
      → NotIn z (y ∷ ys)
      → NotIn a (y ∷ ys)
      → Distinct (y ∷ ys)
      → All (λ k. m.node_attr k ≡ 0) (y ∷ ys)
      → (m' : Mdb) × (w' : W) × (remove_from s f d y m w ≡ some (x, m', w')) × Cut m m' a z (y ∷ ys)
  unfolding unlinked
  remove_from_lem zero y ys x z a m w h b ends low nz na dist clear = absurd (omega arith)
  remove_from_lem (suc f) y [] x z a m w h b ends low nz na dist clear =
      let leaf : m.dpth (m.next y) ≤ m.dpth y =
        (let u = ap m.dpth b.1 in let t = ends.1 in omega arith) in
      let (w', e) = removed_lem y m w clear.0 (Back-alive m z y a [] b) leaf in
      let ne : y ≢ z = λ e. nz.0 (sym e) in
      let (p, n) = unlinked-Back m z y a [] nz na dist b in
      (
        unlinked y m,
        w',
        remove_stop f y m (unlinked y m) w w' e (let t = ends.1 in ground arith)
            ∙ ap (λ k. some (k, unlinked y m, w')) ends.0,
        record {
          back = p;
          forth = n;
          next_same = λ k _. (unlinked-frame m y z a k b.1 b.2.0 ne).1;
          prev_same = λ k _. (unlinked-frame m y z a k b.1 b.2.0 ne).0;
          dpth_same = refl;
          attr_same = λ k _. refl;
        },
      )
  remove_from_lem (suc f) y (y' ∷ ys) x z a m w h b ends low nz na dist clear =
      let leaf : m.dpth (m.next y) ≤ m.dpth y =
        (let u = ap m.dpth b.1 in let t = ends.0 in omega arith) in
      let (w', e) = removed_lem y m w clear.0 (Back-alive m z y a (y' ∷ ys) b) leaf in
      let ne : y ≢ z = λ e. nz.0 (sym e) in
      let m' = unlinked y m in
      let frame = λ (k : ℕ). unlinked-frame m y z y' k b.1 b.2.0 ne in
      let (m'', w'', e', c) =
        remove_from_lem f y' ys x z a m' w' (omega arith)
          (unlinked-Back m z y a (y' ∷ ys) nz na dist b) ends.1 low nz.1 na.1 dist.1 clear.1 in
      (
        m'',
        w'',
        remove_step f y m m' w w' e (let t = ends.0 in ground arith)
            ∙ ap (λ k. remove_from s f d k m' w') ((frame y).0 ne ∙ b.2.0)
            ∙ e',
        record {
          back = c.back;
          forth = c.forth;
          next_same = λ k i q. c.next_same k i.1 q ∙ (frame k).1 i.1.0;
          prev_same = λ k i q. c.prev_same k i.1 q ∙ (frame k).0 q;
          dpth_same = c.dpth_same;
          attr_same = λ k i. c.attr_same k i.1;
        },
      )

Ends-back :
    (dpth : ℕ → ℕ) (d x b : ℕ) (xs acc : List ℕ)
    → Ends dpth d x b acc
    → All (λ k. d < dpth k) xs
    → Ends dpth d x (last b xs) (back_from b xs acc)
Ends-back dpth d x b [] acc e h = e
Ends-back dpth d x b (y ∷ ys) acc e h = Ends-back dpth d x y ys (b ∷ acc) (h.0, e) h.1

last-next :
    (prev next : ℕ → ℕ) (b z : ℕ) (xs : List ℕ) → Forth prev next b xs z → next (last b xs) ≡ z
last-next prev next b z [] h = h.0
last-next prev next b z (x ∷ xs) h = last-next prev next x z xs h.2

length-back : (b : ℕ) (xs acc : List ℕ) → length (back_from b xs acc) ≡ length xs + length acc
length-back b [] acc = omega arith
length-back b (x ∷ xs) acc = omega (arith, length-back x xs (b ∷ acc))

-- Behind the subtree the assertions hold.
demoted_well_lem :
    (d attr mdb node : ℕ) (self : Bool) (m : Mdb)
    → m.dpth (m.next node) ≤ d
    → d ≤ m.dpth node
    → demoted_well d self attr mdb node m ≡ true
demoted_well_lem d attr mdb node self m h l =
    let x : leb (m.dpth (m.next node)) d ≡ true = ground arith in
    let y : ltb (m.dpth node) (m.dpth (m.next node)) ≡ false = ground arith in rw (x, y) refl

revoke_ends {ℓ} :
    {W : Type ℓ} (s : Spaces W) (f b o attr mdb node : ℕ) (m m' m'' : Mdb) (w w' w'' : W)
    → demote_from s f
        (overlaps (add64 (sub64 b (m.node_base mdb)) (m.node_phys mdb)) o)
        (m.dpth mdb)
        true
        attr
        false
        mdb
        m
        w
      ≡ some (node, m', w')
    → demoted_well (m.dpth mdb) true attr mdb node m' ≡ true
    → remove_from s f (m.dpth mdb) node m' w' ≡ some (mdb, m'', w'')
    → revoke_node s f b o attr true mdb m w ≡ some (m'', w'')
unfolding revoke_node
revoke_ends s f b o attr mdb node m m' m'' w w' w'' x y z =
    rw (revoke_node, x, y, z, (==_iff mdb mdb).1 refl) refl

-- A revocation of all rights takes out a node with everything below it.
pub revoke_node_lem {ℓ} :
    {W : Type ℓ} (s : Spaces W) (f b o attr x : ℕ) (xs : List ℕ) (a z : ℕ) (m : Mdb) (w : W)
    → length xs < f
    → Back m.prev m.next x [] a
    → Forth m.prev m.next x xs z
    → All (λ k. m.dpth x < m.dpth k) xs
    → m.dpth z ≤ m.dpth x
    → NotIn z (x ∷ xs)
    → NotIn a (x ∷ xs)
    → Distinct (x ∷ xs)
    → attr < 2 ^ 64
    → All (Covered attr m.node_attr) (x ∷ xs)
    → overlaps (add64 (sub64 b (m.node_base x)) (m.node_phys x)) o m x ≡ true
    → (m' : Mdb) × (w' : W) × (revoke_node s f b o attr true x m w ≡ some (m', w'))
      × Cut m m' a z (x ∷ xs)
revoke_node_lem s f b o attr x xs a z m w h back forth deep low nz na dist word cover hit =
    let d = m.dpth x in
    let p = add64 (sub64 b (m.node_base x)) (m.node_phys x) in
    let last_one = last x xs in
    let ends = Ends-back m.dpth d x x xs [] (refl, refl) deep in
    let (rights, w', e, clear, same) =
      demote_from_lem s (overlaps p o) attr d word f x xs z false m w h
        (rw ((==_iff d (d + 0)).1 (omega arith)) hit) forth deep low dist cover in
    let m' = record m { node_attr = rights } in
    let (m'', w'', e', c) =
      remove_from_lem s d f last_one (back_from x xs []) x z a m' w'
        (let q = length-back x xs [] in omega arith)
        (Forth-Back m.prev m.next a x z xs [] back forth) ends low
        (NotIn-back z x xs [] (nz.0, tt) nz.1) (NotIn-back a x xs [] (na.0, tt) na.1)
        (Distinct-back x xs [] (tt, tt) dist.1 (all_apart x xs dist.0))
        (All-back (λ k. rights k ≡ 0) x xs [] (clear.0, tt) clear.1) in
    (
      m'',
      w'',
      revoke_ends s f b o attr x last_one m m' m'' w w' w'' e
          (demoted_well_lem d attr x last_one true m'
            (let q = ap m.dpth (last-next m.prev m.next x z xs forth) in omega arith)
            (Ends-low m.dpth d x last_one (back_from x xs []) ends))
          e',
      record {
        back = c.back;
        forth = c.forth;
        next_same = λ k i. c.next_same k (NotIn-back k x xs [] (i.0, tt) i.1);
        prev_same = λ k i. c.prev_same k (NotIn-back k x xs [] (i.0, tt) i.1);
        dpth_same = c.dpth_same;
        attr_same = λ k i. c.attr_same k (NotIn-back k x xs [] (i.0, tt) i.1) ∙ same k i;
      },
    )
