-- ===== src/Tests/Locks.antt =====
-- The lock after two CPUs have come.
use hedron.Prelude.{ℕ, ◌≡◌, true, List, [], ◌∷◌, ◌++◌, refl, arith}
use hedron.Spinlock.{Spinlock, initial, take_ticket, may_enter, is_locked, Step, Reachable}
use hedron.Spinlock.Exclusion.{lock_is_fifo, first_may_enter}

abbrev contended : Spinlock
contended = record { next_ticket = 2; served_ticket = 0 }

one_there : Reachable (record { next_ticket = 1; served_ticket = 0 }, 0 ∷ [])
unfolding take_ticket
one_there = Reachable.goes _ _ Reachable.starts (Step.takes initial [] (omega arith))

two_there : Reachable (contended, [] ++ 0 ∷ 1 ∷ [])
unfolding take_ticket
two_there =
    Reachable.goes _ _ one_there
      (Step.takes (record { next_ticket = 1; served_ticket = 0 }) (0 ∷ []) (omega arith))

zero_may_enter : may_enter contended 0 ≡ true
unfolding may_enter
zero_may_enter = refl

abbrev nobody : List ℕ
nobody = []

lock_is_fifo_example : (nobody ≡ []) × (is_locked contended ≡ true)
lock_is_fifo_example = lock_is_fifo contended [] (1 ∷ []) 0 two_there zero_may_enter

first_may_enter_example : may_enter contended 0 ≡ true
first_may_enter_example = first_may_enter contended 0 (1 ∷ []) two_there
