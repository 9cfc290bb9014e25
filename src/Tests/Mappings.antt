-- ===== src/Tests/Mappings.antt =====
-- The mapping database at a concrete tree.
use hedron.Prelude.{ℕ, ◌+◌, ◌≡◌, refl, arith, true, false, none, some, if◌then◌else◌, ◌==◌, [], ◌∷◌}
use hedron.Mdb.{Mdb, Spaces, revoke_node, insert_node, remove_node, unlinked, overlaps, alive}
use hedron.Mdb.Revoke.{Cut, revoke_node_lem, remove_node_lem}
use hedron.Mdb.Insert.{Circle, Inserted, insert_node_lem, insert_node-removed}

-- Node 0 is the root, 1 its child, 2 and 3 are children of 1: 0, 1, 3, 2 is the circle.
abbrev tree : Mdb
tree = record {
  prev = λ k. if k == 0 then 2 else if k == 1 then 0 else if k == 2 then 3 else 1;
  next = λ k. if k == 0 then 1 else if k == 1 then 3 else if k == 2 then 0 else 2;
  prnt = λ k. if k == 0 then none else if k == 1 then some 0 else some 1;
  dpth = λ k. if k == 0 then 0 else if k == 1 then 1 else 2;
  space = λ _. 0;
  node_phys = λ _. 16;
  node_base = λ _. 16;
  node_order = λ _. 0;
  node_attr = λ _. 3;
}

abbrev spaces : Spaces ℕ
spaces = record { update = λ _ _ _ w. w; tree_remove = λ _ _ w. (true, w); rcu_call = λ _ w. w + 1 }

revoke_node_lem_example :
    (m' : Mdb) × (w' : ℕ) × (revoke_node spaces 5 16 0 7 true 1 tree 0 ≡ some (m', w'))
    × Cut tree m' 0 0 (1 ∷ 3 ∷ 2 ∷ [])
unfolding hedron.Pd.clamp
revoke_node_lem_example =
    revoke_node_lem spaces 5 16 0 7 1 (3 ∷ 2 ∷ []) 0 0 tree 0 (omega arith) (refl, refl)
      (refl, refl, (refl, refl, (refl, refl))) (omega arith, (omega arith, tt)) (omega arith)
      (omega arith, (omega arith, (omega arith, tt)))
      (omega arith, (omega arith, (omega arith, tt)))
      ((omega arith, (omega arith, tt)), ((omega arith, tt), (tt, tt))) (omega arith)
      ((omega arith, refl), ((omega arith, refl), ((omega arith, refl), tt))) refl

insert_node_lem_example :
    (m' : Mdb) × (insert_node 9 1 2 tree ≡ (true, m'))
    × Circle m' 1 (9 ∷ 3 ∷ 2 ∷ 0 ∷ [])
    × Inserted tree m' 9 1 2
insert_node_lem_example =
    insert_node_lem 9 1 2 (3 ∷ 2 ∷ 0 ∷ []) tree
      (
        (refl, refl, (refl, refl, (refl, refl, (refl, refl)))),
        (
          (omega arith, (omega arith, (omega arith, tt))),
          ((omega arith, (omega arith, tt)), ((omega arith, tt), (tt, tt))),
        ),
      )
      (omega arith, (omega arith, (omega arith, (omega arith, tt)))) (omega arith) (omega arith)

abbrev revoked : Mdb
revoked = record tree { node_attr = λ _. 0 }

insert_node-removed_example : insert_node 9 2 2 (unlinked 2 revoked) ≡ (false, unlinked 2 revoked)
unfolding hedron.Mdb.alive
insert_node-removed_example =
    insert_node-removed 2 9 2 revoked (unlinked 2 revoked) (omega arith)
      (remove_node_lem 2 revoked refl refl (omega arith))
