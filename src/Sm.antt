-- ===== src/Sm.antt =====
-- Semaphores: include/sm.hpp. The waiting contexts are in the semaphore's queue, each of which holds
-- a reference. Each step under the semaphore's lock is one operation.
pub mod Fifo
pub mod Serve
use hedron.Prelude.{
  ℕ, zero, suc, ◌+◌, ◌-◌, ◌%◌, ◌^◌, Bool, true, false, Option, none, some, List, ◌∷◌, if◌then◌else◌,
  ◌==◌,
}
use hedron.Word.{add64}
use hedron.Links.{update}
use hedron.Refcount.{add_ref, del_rcu}
use hedron.Queue.{Queue, head, enqueue, dequeue}

pub record Sm : Type 0 where
  pub counter : ℕ
  pub queue : Queue
  -- the contexts' reference counts
  pub refs : ℕ → ℕ
  -- the contexts released and those handed to `Rcu::call`, newest first
  pub released : List ℕ
  pub rcu : List ℕ

-- How `dn` goes on: it returns, or gives the CPU away for a context that is being destroyed, or blocks.
pub data Down : Type 0 where
  passed : Sm → Down
  dying : Sm → Down
  waiting : Sm → Down
  fault : Down

waits : Sm → Option Queue → Down
waits s none = fault
waits s (some q) = waiting (record s { queue = q })

-- `Sm::dn(zero, ec)`
unfoldable pub dn : Sm → Bool → ℕ → Down
unfolding waits add_ref
dn s z ec =
    if s.counter == 0
    then (let (ok, r) = add_ref (s.refs ec) in
        if ok then waits (record s { refs = update s.refs ec r }) (enqueue s.queue ec) else dying s)
    else passed (record s { counter = if z then 0 else s.counter - 1 })

-- `ec->release(c)` and `ec->del_rcu()`, with the `Rcu::call` of the next round
unfoldable pub wake : Sm → ℕ → Bool × Sm
unfolding del_rcu
wake s ec =
    let (gone, r) = del_rcu (s.refs ec) in
    (
      gone,
      record s {
        refs = update s.refs ec r;
        released = ec ∷ s.released;
        rcu = if gone then ec ∷ s.rcu else s.rcu;
      },
    )

-- `Sm::up`: the loop has at most `n` rounds.
unfoldable pub up : ℕ → Sm → Option Sm
unfolding wake
up zero s = none
up (suc n) s = elim (head s.queue) [
  | none ↦ some (record s { counter = add64 s.counter 1 })
  | some ec ↦
      let (ok, q) = dequeue s.queue (some ec) in
      let s' = record s { queue = q } in
      let (gone, s'') = wake s' ec in
      let rest = up n s'' in
      if ok
      then (if gone then rest else some s'')
      else some (record s' { counter = add64 s.counter 1 })
]
