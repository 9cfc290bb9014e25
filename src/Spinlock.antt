-- ===== src/Spinlock.antt =====
-- The ticket lock: include/spinlock.hpp. Each atomic access is one step; the CPUs that have taken a ticket
-- and not yet left are the list of their tickets, in the order in which they came.
pub mod Exclusion
use hedron.Prelude.{
  ℕ, ◌+◌, ◌%◌, ◌<◌, ◌≡◌, Bool, true, not, List, [], ◌∷◌, ◌++◌, length, if◌then◌else◌, ◌==◌,
}

pub record Spinlock : Type 0 where
  pub next_ticket : ℕ
  pub served_ticket : ℕ

-- NUM_CPU
abbrev pub num_cpu : ℕ
num_cpu = 128

abbrev pub initial : Spinlock
initial = record { next_ticket = 0; served_ticket = 0 }

-- The ticket that `lock` takes with one fetch_add
unfoldable pub take_ticket : Spinlock → ℕ × Spinlock
take_ticket l = (l.next_ticket, record l { next_ticket = (l.next_ticket + 1) % 256 })

-- The loop of `lock` ends.
unfoldable pub may_enter : Spinlock → ℕ → Bool
may_enter l our_ticket = l.served_ticket == our_ticket

unfoldable pub unlock : Spinlock → Spinlock
unlock l = record l { served_ticket = (l.served_ticket + 1) % 256 }

unfoldable pub is_locked : Spinlock → Bool
is_locked l = not (l.next_ticket == l.served_ticket)

-- A CPU without a ticket takes one; one that may enter has left.
pub data Step : Spinlock × List ℕ → Spinlock × List ℕ → Type 0 where
  takes :
      (l : Spinlock) (ts : List ℕ)
      → length ts < num_cpu
      → Step (l, ts) ((take_ticket l).1, ts ++ (take_ticket l).0 ∷ [])
  leaves :
      (l : Spinlock) (before after : List ℕ) (t : ℕ)
      → may_enter l t ≡ true
      → Step (l, before ++ t ∷ after) (unlock l, before ++ after)

pub data Reachable : Spinlock × List ℕ → Type 0 where
  starts : Reachable (initial, [])
  goes : (s s' : Spinlock × List ℕ) → Reachable s → Step s s' → Reachable s'
