-- ===== src/Mdb.antt =====
-- The mapping database: src/mdb.cpp, and the part of `Pd::revoke` of src/pd.cpp that works on one node's subtree.
-- A node is a number, and its pointers are never null. The circle of the nodes that come from one root lists
-- each node before its children; the depth tells them apart.
pub mod Circle
pub mod Rights
pub mod Revoke
pub mod Insert
use hedron.Prelude.{
  ℕ, zero, suc, ◌+◌, ◌-◌, ◌%◌, ◌^◌, bit_and, Bool, true, false, not, ◌&&◌, ◌||◌, Option, none, some,
  if◌then◌else◌, ◌==◌, ltb, leb,
}
use hedron.Word.{inv, ones, add64, sub64}
use hedron.Links.{update}
use hedron.Pd.{clamp}

pub record Mdb : Type 0 where
  pub prev : ℕ → ℕ
  pub next : ℕ → ℕ
  pub prnt : ℕ → Option ℕ
  pub dpth : ℕ → ℕ
  pub space : ℕ → ℕ
  pub node_phys : ℕ → ℕ
  pub node_base : ℕ → ℕ
  pub node_order : ℕ → ℕ
  pub node_attr : ℕ → ℕ

unfoldable pub alive : Mdb → ℕ → Bool
alive m n = (m.next (m.prev n) == n) && (m.prev (m.next n) == n)

-- `n->insert_node(p, a)`: n->prev = p; n->next = p->next; p->next = p->next->prev = n
unfoldable pub insert_node : ℕ → ℕ → ℕ → Mdb → Bool × Mdb
unfolding alive
insert_node n p a m =
    let attr = bit_and (m.node_attr p) a in
    let next = update m.next n (m.next p) in
    let m' = record m { node_attr = update m.node_attr n attr } in
    if not (alive m p) then (false, m) else if attr == 0 then (false, m') else (
      true,
      record m' {
        prev = update (update m.prev n p) (next p) n;
        next = update next p n;
        prnt = update m.prnt n (some p);
        dpth = update m.dpth n ((m.dpth p + 1) % 2 ^ 16);
      },
    )

unfoldable pub demote_node : ℕ → ℕ → Mdb → Mdb
demote_node n a m = record m { node_attr = update m.node_attr n (bit_and (m.node_attr n) (inv a)) }

-- n->next->prev = n->prev; n->prev->next = n->next
unfoldable pub unlinked : ℕ → Mdb → Mdb
unlinked n m =
    let prev = update m.prev (m.next n) (m.prev n) in
    record m { prev = prev; next = update m.next (prev n) (m.next n) }

unfoldable pub remove_node : ℕ → Mdb → Bool × Mdb
unfolding alive unlinked
remove_node n m =
    if not (m.node_attr n == 0)
    then (false, m)
    else if not (alive m n)
    then (false, m)
    else if ltb (m.dpth n) (m.dpth (m.next n))
    then (false, m)
    else (true, unlinked n m)

-- What the spaces do with a node, and `Rcu::call`.
pub record Spaces {ℓ} (W : Type ℓ) : Type ℓ where
  pub update : ℕ → ℕ → Mdb → W → W
  pub tree_remove : ℕ → Mdb → W → Bool × W
  pub rcu_call : ℕ → W → W

-- whether a node holds part of the range at `p` of order `o`
abbrev pub overlaps : ℕ → ℕ → Mdb → ℕ → Bool
overlaps p o m node = not ((clamp (m.node_phys node) p (m.node_order node) o).0 == ones)

-- The two assertions between the loops.
abbrev pub demoted_well : ℕ → Bool → ℕ → ℕ → ℕ → Mdb → Bool
demoted_well d self attr mdb node m =
    let x = m.next node in
    let clear = bit_and (m.node_attr x) attr == 0 in
    (leb (m.dpth x) d || self && clear || not self && (mdb == node || d + 1 == m.dpth x || clear))
    && (if ltb (m.dpth node) (m.dpth x) then m.dpth x == m.dpth node + 1 else true)

module _ {ℓ} {W : Type ℓ} (s : Spaces W) where
  -- the rights of a node that is in the range
  unfoldable pub demoted : Bool → ℕ → ℕ → Mdb → W → Mdb × W
  unfolding demote_node
  demoted demote attr node m w =
      if demote && not (bit_and (m.node_attr node) attr == 0)
      then (demote_node node attr m, s.update node attr m w)
      else (m, w)

  -- The first loop of `revoke`, from `node` on: the last node of the subtree.
  -- `in_range` is the test with `clamp`.
  unfoldable pub demote_from :
      ℕ → (Mdb → ℕ → Bool) → ℕ → Bool → ℕ → Bool → ℕ → Mdb → W → Option (ℕ × Mdb × W)
  unfolding demoted
  demote_from zero in_range d self attr demote node m w = none
  demote_from (suc f) in_range d self attr demote node m w =
      let demote' =
        if m.dpth node == d + (if self then 0 else 1) then in_range m node else demote in
      let (m', w') = demoted demote' attr node m w in
      let ptr = m'.next node in
      let rest = demote_from f in_range d self attr demote' ptr m' w' in
      if leb (m'.dpth ptr) d then some (node, m', w') else rest

  -- a node that no longer has rights or children
  unfoldable pub removed : ℕ → Mdb → W → Mdb × W
  unfolding remove_node
  removed node m w =
      let (gone, m') = remove_node node m in
      let (found, w') = s.tree_remove node m' w in
      if gone then (m', if found then s.rcu_call node w' else w') else (m, w)

  -- The second loop, backwards from the last node.
  unfoldable pub remove_from : ℕ → ℕ → ℕ → Mdb → W → Option (ℕ × Mdb × W)
  unfolding removed
  remove_from zero d node m w = none
  remove_from (suc f) d node m w =
      let (m', w') = removed node m w in
      let rest = remove_from f d (m'.prev node) m' w' in
      if leb (m'.dpth node) d then some (node, m', w') else rest

  -- The body of the loop over the nodes of a space, for the node `mdb` whose part at `b` of order `o` is in the
  -- range: `none` is a failed assertion or the end of the fuel.
  unfoldable pub revoke_node : ℕ → ℕ → ℕ → ℕ → Bool → ℕ → Mdb → W → Option (Mdb × W)
  unfolding demote_from remove_from
  revoke_node f b o attr self mdb m w =
      let d = m.dpth mdb in
      let p = add64 (sub64 b (m.node_base mdb)) (m.node_phys mdb) in
      elim (demote_from f (overlaps p o) d self attr false mdb m w) [
        | none ↦ none
        | some (node, m', w') ↦
            if not (demoted_well d self attr mdb node m')
            then none
            else elim (remove_from f d node m' w') [
              | none ↦ none
              | some (node', m'', w'') ↦ if node' == mdb then some (m'', w'') else none
            ]
      ]
