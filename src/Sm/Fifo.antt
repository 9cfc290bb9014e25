-- ===== src/Sm/Fifo.antt =====
-- Who waits at a semaphore, and how `dn` adds to it.
use hedron.Prelude.{
  ℕ, ◌+◌, ◌-◌, ◌<◌, ◌≡◌, ◌≢◌, ◌⊎◌, ◌∙◌, inl, inr, refl, ap, sym, subst, Bool, true, some, List, [],
  ◌∷◌, ◌++◌, All, if◌then◌else◌, arith,
}
use native.Mathlib.Decide.{ℕ_discrete}
use hedron.Links.{update}
use hedron.Links.Ring.{NotIn}
use hedron.Refcount.{u32_mod, add_ref}
use hedron.Queue.{Queue, head, enqueue, dequeue}
use hedron.Queue.Refine.{IsQueue, enqueue_appends, dequeue-head}
use hedron.Sm.{Sm, Down, dn, wake, up}
use hedron.Sm.Down.{passed, dying, waiting}

abbrev pub Counted : (ℕ → ℕ) → ℕ → Type 0
Counted refs x = (0 < refs x) × (refs x < u32_mod)

-- These contexts wait, in this order, each held by a reference; and only at the counter 0.
pub record Waits (s : Sm) (xs : List ℕ) : Type 0 where
  pub queued : IsQueue s.queue xs
  pub held : All (Counted s.refs) xs
  pub empty : (s.counter ≡ 0) ⊎ (xs ≡ [])

-- The first that waits.
pub first :
    (q : Queue) (a : ℕ) (xs : List ℕ)
    → IsQueue q (a ∷ xs)
    → (r : Queue) × (head q ≡ some a) × (dequeue q (some a) ≡ (true, r)) × IsQueue r xs
unfolding head
first q a xs h =
    let d = dequeue-head q a xs h in
    let e : dequeue q (head q) ≡ dequeue q (some a) = ap (dequeue q) h.0 in
    (
      (dequeue q (some a)).1,
      h.0,
      ap (λ b. (b, (dequeue q (some a)).1)) (ap (λ x. x.0) (sym e) ∙ d.0),
      subst (λ r. IsQueue r xs) (ap (λ x. x.1) e) d.1,
    )

pub Counted-update :
    (refs : ℕ → ℕ) (a r : ℕ) (xs : List ℕ)
    → NotIn a xs
    → All (Counted refs) xs
    → All (Counted (update refs a r)) xs
Counted-update refs a r [] n h = tt
Counted-update refs a r (x ∷ xs) n h = (ground arith, Counted-update refs a r xs n.1 h.1)

Counted-snoc :
    (refs : ℕ → ℕ) (a : ℕ) (xs : List ℕ)
    → All (Counted refs) xs
    → Counted refs a
    → All (Counted refs) (xs ++ a ∷ [])
Counted-snoc refs a [] h c = (c, tt)
Counted-snoc refs a (x ∷ xs) h c = (h.0, Counted-snoc refs a xs h.1 c)

dn_taken :
    (s : Sm) (z : Bool) (ec : ℕ)
    → s.counter ≢ 0
    → dn s z ec ≡ passed (record s { counter = if z then 0 else s.counter - 1 })
unfolding dn
dn_taken s z ec n = ground arith

dn_dying : (s : Sm) (z : Bool) (ec : ℕ) → s.counter ≡ 0 → s.refs ec ≡ 0 → dn s z ec ≡ dying s
unfolding dn add_ref
dn_dying s z ec c r = ground arith

add_ref_eq : (r : ℕ) → r ≢ 0 → r + 1 < u32_mod → add_ref r ≡ (true, r + 1)
unfolding add_ref
add_ref_eq r n lt = ground arith

dn_queued :
    (s : Sm) (z : Bool) (ec : ℕ) (q : Queue)
    → s.counter ≡ 0
    → s.refs ec ≢ 0
    → s.refs ec + 1 < u32_mod
    → enqueue s.queue ec ≡ some q
    → dn s z ec ≡ waiting (record s { refs = update s.refs ec (s.refs ec + 1); queue = q })
unfolding dn hedron.Sm.waits
dn_queued s z ec q c r lt e = ground (arith, e, add_ref_eq (s.refs ec) r lt)

-- `dn` by a context that is not waiting, and whose reference count is below its largest value, of a
-- semaphore at which those of a list wait. With a positive counter it passes and nobody waits:
-- the counter falls by one, or to zero where that is asked, and no reference count changes.
-- With the counter 0 it waits behind all others and its reference count, and no other, is one higher,
-- when that was positive; and nothing changes when that was 0.
pub dn-Waits :
    (s : Sm) (z : Bool) (ec : ℕ) (xs : List ℕ)
    → Waits s xs
    → NotIn ec xs
    → s.refs ec + 1 < u32_mod
    → ((s' : Sm) × (dn s z ec ≡ passed s')
        × (s.counter ≢ 0)
        × (xs ≡ [])
        × (s'.counter ≡ (if z then 0 else s.counter - 1))
        × (s'.refs ≡ s.refs)
        × Waits s' [])
      ⊎ (((s' : Sm) × (dn s z ec ≡ waiting s')
            × (s.counter ≡ 0)
            × (0 < s.refs ec)
            × (s'.refs ≡ update s.refs ec (s.refs ec + 1))
            × (s'.counter ≡ 0)
            × Waits s' (xs ++ ec ∷ []))
          ⊎ ((dn s z ec ≡ dying s) × (s.counter ≡ 0) × (s.refs ec ≡ 0)))
dn-Waits s z ec xs v n lt = elim (ℕ_discrete s.counter 0) [
  | no c ↦
      let e : xs ≡ [] = elim v.empty [ inl c' ↦ absurd (c c') | inr e ↦ e ] in
      inl (
        _,
        dn_taken s z ec c,
        c,
        e,
        refl,
        refl,
        record { queued = subst (IsQueue s.queue) e v.queued; held = tt; empty = inr refl },
      )
  | yes c ↦ elim (ℕ_discrete (s.refs ec) 0) [
    | yes r ↦ inr (inr (dn_dying s z ec c r, c, r))
    | no r ↦
        let (q, e, h, _) = enqueue_appends s.queue xs ec v.queued n in
        inr (
          inl (
            _,
            dn_queued s z ec q c r lt e,
            c,
            omega arith,
            refl,
            c,
            record {
              queued = h;
              held =
                  Counted-snoc (update s.refs ec (s.refs ec + 1)) ec xs
                    (Counted-update s.refs ec (s.refs ec + 1) xs n v.held) (ground arith);
              empty = inl c;
            },
          ))
  ]
]
