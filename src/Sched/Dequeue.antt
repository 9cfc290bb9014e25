-- ===== src/Sched/Dequeue.antt =====
-- `Sc::ready_dequeue`: the first context of the highest priority in use leaves its queue.
use hedron.Prelude.{
  ℕ, zero, suc, ◌<◌, ◌≤◌, Option, none, some, if◌then◌else◌, ◌==◌, ==_iff, lt→ltb, List, [], ◌∷◌,
  ◌≡◌, ◌≢◌, ◌⊎◌, inl, inr, refl, arith, sym, subst, ap, ◌∙◌, All, Option-cases,
}
use native.Mathlib.Decide.{ℕ_discrete, dec_le}
use hedron.Links.{Links}
use hedron.Links.Ring.{Holds, Holds-frame, Holds-subst}
use hedron.Queue.{clear, unlink}
use hedron.Queue.Refine.{Unlinked}
use hedron.Sched.Ready.{Ready, Belongs, replace, NotIn-of_All, update_self, update_ne}
use hedron.Sched.{Machine, num_priorities, dequeued, ready_dequeue, settle}

-- `settle` finds the highest list in use at or below its start.
settle-le : (l : ℕ → Option ℕ) (p : ℕ) → settle l p ≤ p
unfolding settle
settle-le l zero = omega arith
settle-le l (suc p) = ground (arith, settle-le l p)

settle_skips : (l : ℕ → Option ℕ) (p k : ℕ) → settle l p < k → k ≤ p → l k ≡ none
unfolding settle
settle_skips l zero k h g = absurd (omega arith)
settle_skips l (suc p) k h g = elim (Option-cases (l (suc p))) [
  | inl e ↦ elim (ℕ_discrete k (suc p)) [
    | yes s ↦ rw s e
    | no n ↦ settle_skips l p k (ground arith) (omega arith)
  ]
  | inr (a, e) ↦ absurd (ground arith)
]

settle_stops : (l : ℕ → Option ℕ) (p : ℕ) → (settle l p ≡ 0) ⊎ (l (settle l p) ≢ none)
unfolding settle
settle_stops l zero = inl refl
settle_stops l (suc p) = elim (Option-cases (l (suc p))) [
  | inl e ↦ rw (e, settle) (settle_stops l p)
  | inr (a, e) ↦ rw (e, settle) (inr (λ x. cc))
]

Holds-null : (h : Links) (hd : Option ℕ) (xs : List ℕ) → Holds h hd xs → hd ≡ none → xs ≡ []
Holds-null h hd [] v e = refl
Holds-null h hd (x ∷ xs) v e = cc (v.0)

Holds-nil : (h : Links) (hd : Option ℕ) (xs : List ℕ) → Holds h hd xs → xs ≡ [] → hd ≡ none
Holds-nil h hd [] v e = v
Holds-nil h hd (x ∷ xs) v e = cc

-- The first context of a list is taken out.
module _ (m : Machine) (id sc t : ℕ) (q : ℕ → List ℕ) (rest : List ℕ) (v : Ready m id q)
    (first : q (m.prio sc) ≡ sc ∷ rest) (n p : ℕ) (u : Unlinked m.links sc rest n p) where
  abbrev after : ℕ → List ℕ
  after = replace q (m.prio sc) rest

  abbrev h : Links
  h = clear (unlink m.links sc n p) sc

  abbrev m' : Machine
  m' = dequeued m id sc t n p

  pub listed : Holds m.links (m.list id (m.prio sc)) (sc ∷ rest)
  listed = subst (Holds m.links (m.list id (m.prio sc))) first (v.rings (m.prio sc))

  members : All (Belongs m id (m.prio sc)) (sc ∷ rest)
  members = subst (All (Belongs m id (m.prio sc))) first (v.owned (m.prio sc))

  new_head : (k : ℕ) → k ≡ m.prio sc → m'.list id k ≡ (if n == sc then none else some n)
  unfolding dequeued
  new_head k e = let at_head = listed.0 in ground arith

  other_head : (k : ℕ) → k ≢ m.prio sc → m'.list id k ≡ m.list id k
  unfolding dequeued
  other_head k e = ground arith

  other_kept :
      (k x : ℕ)
      → k ≢ m.prio sc
      → Belongs m id k x
      → (h.next x ≡ m.links.next x) × (h.prev x ≡ m.links.prev x)
  other_kept k x ne b =
      u.kept x
        (NotIn-of_All (Belongs m id (m.prio sc)) x (sc ∷ rest) members (λ b'. ne (sym b.0 ∙ b'.0)))

  new_rings : (k : ℕ) → Holds h (m'.list id k) (after k)
  new_rings k = elim (ℕ_discrete k (m.prio sc)) [
    | yes e ↦
        Holds-subst h _ _ rest _ (new_head k e) (rw e (update_self q (m.prio sc) rest)) u.holds
    | no ne ↦
        Holds-subst h (m.list id k) _ (q k) _ (other_head k ne) (update_ne q (m.prio sc) k rest ne)
          (Holds-frame (Belongs m id k) m.links h (λ x b. other_kept k x ne b) _ _ (v.owned k)
            (v.rings k))
  ]

  new_owned : (k : ℕ) → All (Belongs m id k) (after k)
  new_owned k = elim (ℕ_discrete k (m.prio sc)) [
    | yes e ↦
        rw e
          (subst (All (Belongs m id (m.prio sc))) (sym (update_self q (m.prio sc) rest)) members.1)
    | no ne ↦ subst (All (Belongs m id k)) (sym (update_ne q (m.prio sc) k rest ne)) (v.owned k)
  ]

  settled : m'.prio_top id ≡ settle (m'.list id) (m.prio_top id)
  unfolding dequeued
  settled = update_self m.prio_top id _

  new_above : (k : ℕ) → m'.prio_top id < k → after k ≡ []
  new_above k lt = elim (dec_le k (m.prio_top id)) [
    | yes le ↦
        Holds-null h (m'.list id k) (after k) (new_rings k)
          (settle_skips (m'.list id) (m.prio_top id) k (omega (arith, settled)) le)
    | no gt ↦ elim (ℕ_discrete k (m.prio sc)) [
      | yes e ↦ absurd (let empty = v.above k (omega arith) in cc (empty, first, ap q e))
      | no ne ↦ update_ne q (m.prio sc) k rest ne ∙ v.above k (omega arith)
    ]
  ]

  new_exact : (k : ℕ) → k ≡ settle (m'.list id) (m.prio_top id) → (k ≡ 0) ⊎ (after k ≢ [])
  new_exact k e = elim (settle_stops (m'.list id) (m.prio_top id)) [
    | inl z ↦ inl (e ∙ z)
    | inr full ↦
        inr (λ x.
          full (ap (m'.list id) (sym e) ∙ Holds-nil h (m'.list id k) (after k) (new_rings k) x))
  ]

  pub dequeued-Ready : Ready m' id after
  unfolding dequeued
  dequeued-Ready = record {
    rings = new_rings;
    owned = new_owned;
    small = omega (arith, settled, v.small, settle-le (m'.list id) (m.prio_top id));
    above = new_above;
    exact = new_exact _ settled;
  }

pub ready_dequeue_lem :
    (m : Machine) (id sc t n p : ℕ)
    → m.prio sc < num_priorities
    → m.cpu sc ≡ id
    → m.links.next sc ≡ some n
    → m.links.prev sc ≡ some p
    → ready_dequeue m id sc t ≡ some (dequeued m id sc t n p)
unfolding ready_dequeue
ready_dequeue_lem m id sc t n p lt here en ep =
    rw (lt→ltb _ _ lt, (==_iff _ _).1 here, ep) (rw en refl)
