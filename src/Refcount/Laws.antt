-- ===== src/Refcount/Laws.antt =====
-- A reference count tells exactly when the last reference goes.
use hedron.Prelude.{ℕ, ◌+◌, ◌-◌, ◌<◌, true, false, if◌then◌else◌, ◌==◌, ◌≡◌, ◌↔◌, arith}
use hedron.Refcount.{u32_mod, add_ref, del_ref, del_rcu}

-- A reference is only given to an object that has one already: the count goes up by one, below its
-- limit, and a count of zero stays.
pub add_ref_lem :
    (r : ℕ)
    → r + 1 < u32_mod
    → ((add_ref r).0 ≡ true ↔ (0 < r)) × ((add_ref r).1 ≡ (if r == 0 then 0 else r + 1))
unfolding add_ref
add_ref_lem r h = ground arith

-- Taking a reference and giving it back leaves the count, and does not report the object as free.
pub del_ref-add_ref : (r : ℕ) → 0 < r → r + 1 < u32_mod → del_ref (add_ref r).1 ≡ (false, r)
unfolding add_ref del_ref
del_ref-add_ref r p h = ground arith

-- `del_rcu` reports the object for destruction exactly when the caller holds the last reference, which it
-- then keeps for the callback; otherwise the count falls by one.
pub del_rcu_lem :
    (r : ℕ) → 0 < r → r < u32_mod → del_rcu r ≡ (if r == 1 then (true, 1) else (false, r - 1))
unfolding del_rcu
del_rcu_lem r p h = ground arith
