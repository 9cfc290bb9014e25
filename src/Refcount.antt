-- ===== src/Refcount.antt =====
-- The reference count of a kernel object: class `Refcount` of include/refptr.hpp. Each operation is
-- one atomic step, so the retry of `add_ref` after a lost race is not seen here.
pub mod Laws
use hedron.Prelude.{ℕ, ◌+◌, ◌-◌, ◌%◌, ◌^◌, Bool, true, false, if◌then◌else◌, ◌==◌}

abbrev pub u32_mod : ℕ
u32_mod = 2 ^ 32

-- A count of zero is never left again.
unfoldable pub add_ref : ℕ → Bool × ℕ
add_ref r = if r == 0 then (false, r) else (true, (r + 1) % u32_mod)

-- True with the last reference.
unfoldable pub del_ref : ℕ → Bool × ℕ
del_ref r = let r' = (r + u32_mod - 1) % u32_mod in (r' == 0, r')

unfoldable pub last_ref : ℕ → Bool
last_ref r = r == 1

unfoldable pub del_rcu : ℕ → Bool × ℕ
unfolding del_ref last_ref
del_rcu r =
    if last_ref r
    then (true, r)
    else let (gone, r') = del_ref r in if gone then (true, 1) else (false, r')
