-- ===== src/Queue.antt =====
-- `Queue<T>` of include/queue.hpp: a head pointer, and the objects' own pointers. The pointer
-- memory is passed along; `none` is a fault, an access through a null pointer.
pub mod Refine
use hedron.Prelude.{ℕ, Bool, true, false, ◌||◌, Option, none, some, if◌then◌else◌, ◌==◌}
use hedron.Links.{Links, set_next, set_prev}

pub record Queue : Type 0 where
  pub headptr : Option ℕ
  pub links : Links

unfoldable pub head : Queue → Option ℕ
head q = q.headptr

-- The object behind a pointer that is followed.
abbrev pub bind {ℓ κ} : {A : Type ℓ} {B : Type κ} → Option A → (A → Option B) → Option B
bind none f = none
bind (some a) f = f a

-- `t` goes in front of `hd`, which is at the end of the circle:
-- t->next = hd; t->prev = hd->prev; t->next->prev = t->prev->next = t
unfoldable pub link_before : Links → ℕ → ℕ → Option Links
link_before h hd t = bind (h.prev hd) λ p.
    some (set_prev (set_next (set_prev (set_next h t (some hd)) t (some p)) p (some t)) hd (some t))

-- At the end of a circular list with this head, or as its only object; and the new head.
unfoldable pub link_last : Links → Option ℕ → ℕ → Option (Links × Option ℕ)
unfolding link_before
link_last h none t = some (set_next (set_prev h t (some t)) t (some t), some t)
link_last h (some hd) t = bind (link_before h hd t) λ h'. some (h', some hd)

unfoldable pub enqueue : Queue → ℕ → Option Queue
unfolding link_last
enqueue q t =
    bind (link_last q.links q.headptr t) λ (h, hd). some (record { headptr = hd; links = h })

-- t->next->prev = t->prev; t->prev->next = t->next
unfoldable pub unlink : Links → ℕ → ℕ → ℕ → Links
unlink h t n p = set_next (set_prev h n (some p)) p (some n)

-- t->next = t->prev = nullptr
unfoldable pub clear : Links → ℕ → Links
clear h t = set_next (set_prev h t none) t none

same_object : Option ℕ → ℕ → Bool
same_object none t = false
same_object (some a) t = a == t

dequeue_linked : Queue → ℕ → ℕ → ℕ → Queue
unfolding unlink clear same_object
dequeue_linked q t n p =
    if t == n then record { headptr = none; links = clear q.links t } else record {
      headptr = if same_object q.headptr t then some n else q.headptr;
      links = clear (unlink q.links t n p) t;
    }

-- False, and nothing done, for a null pointer or an object in no queue.
unfoldable pub dequeue : Queue → Option ℕ → Bool × Queue
unfolding dequeue_linked
dequeue q none = (false, q)
dequeue q (some t) = elim (q.links.next t) [
  | none ↦ (false, q)
  | some n ↦ elim (q.links.prev t) [ none ↦ (false, q) | some p ↦ (true, dequeue_linked q t n p) ]
]
