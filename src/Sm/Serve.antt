-- ===== src/Sm/Serve.antt =====
-- `up` serves the waiting contexts in their order.
use hedron.Prelude.{
  ℕ, zero, suc, ◌+◌, ◌-◌, ◌<◌, ◌≡◌, ◌⊎◌, ◌∙◌, inl, inr, refl, ap, sym, true, none, some, List, [],
  ◌∷◌, ◌++◌, length, All, if◌then◌else◌, ◌==◌, arith,
}
use native.Mathlib.Decide.{ℕ_discrete}
use hedron.Word.{word_mod, add64}
use hedron.Links.{update}
use hedron.Links.Ring.{NotIn}
use hedron.Refcount.{u32_mod}
use hedron.Refcount.Laws.{del_rcu_lem}
use hedron.Queue.{Queue, head, dequeue}
use hedron.Queue.Refine.{IsQueue}
use hedron.Sm.{Sm, wake, up}
use hedron.Sm.Fifo.{Waits, Counted-update, first}

-- One round of `up` that takes `a` out of the queue.
woken : Sm → ℕ → Queue → Sm
woken s a q = (wake (record s { queue = q }) a).1

wake_gone : (s : Sm) (a : ℕ) → 0 < s.refs a → s.refs a < u32_mod → (wake s a).0 ≡ (s.refs a == 1)
unfolding wake
wake_gone s a p lt = ground (arith, del_rcu_lem (s.refs a) p lt)

up_round :
    (n : ℕ) (s : Sm) (a : ℕ) (q : Queue)
    → head s.queue ≡ some a
    → dequeue s.queue (some a) ≡ (true, q)
    → 0 < s.refs a
    → s.refs a < u32_mod
    → up (suc n) s ≡ (if s.refs a == 1 then up n (woken s a q) else some (woken s a q))
unfolding up woken
up_round n s a q h d p lt = rw (up, h, d, wake_gone (record s { queue = q }) a p lt)

no_head : (q : Queue) → IsQueue q [] → head q ≡ none
unfolding head
no_head q h = h

up-none :
    (n : ℕ) (s : Sm)
    → head s.queue ≡ none
    → up (suc n) s ≡ some (record s { counter = add64 s.counter 1 })
unfolding up
up-none n s h = rw (up, h)

woken_refs :
    (s : Sm) (a : ℕ) (q : Queue)
    → 0 < s.refs a
    → s.refs a < u32_mod
    → (woken s a q).refs ≡ update s.refs a (if s.refs a == 1 then 1 else s.refs a - 1)
unfolding woken wake
woken_refs s a q p lt = ap (λ r. update s.refs a r) (ground (arith, del_rcu_lem (s.refs a) p lt))

woken-Waits :
    (s : Sm) (a : ℕ) (q : Queue) (xs : List ℕ)
    → Waits s (a ∷ xs)
    → NotIn a xs
    → IsQueue q xs
    → Waits (woken s a q) xs
unfolding woken wake
woken-Waits s a q xs v n h = record {
  queued = h;
  held = Counted-update s.refs a _ xs n v.held.1;
  empty = elim v.empty [ inl c ↦ inl c | inr e ↦ absurd (ground arith) ];
}

-- These onto the front, one after the other.
abbrev pub onto : List ℕ → List ℕ → List ℕ
onto [] ys = ys
onto (x ∷ xs) ys = onto xs (x ∷ ys)

-- What `up` leaves of the sequence `xs`: the contexts `dead` that only the semaphore still held are handed
-- to `Rcu::call`; the next, `a`, is released last, and the rest waits on.
pub record Served (s : Sm) (xs : List ℕ) (s' : Sm) : Type 0 where
  pub dead : List ℕ
  pub a : ℕ
  pub rest : List ℕ
  pub split : xs ≡ dead ++ a ∷ rest
  pub last_held : All (λ x. s.refs x ≡ 1) dead
  pub alive : 1 < s.refs a
  pub freed : s'.refs a + 1 ≡ s.refs a
  pub handed : s'.rcu ≡ onto dead s.rcu
  pub served : s'.released ≡ a ∷ onto dead s.released
  pub same : s'.counter ≡ s.counter
  pub waits : Waits s' rest

woken_rcu :
    (s : Sm) (a : ℕ) (q : Queue)
    → 0 < s.refs a
    → s.refs a < u32_mod
    → (woken s a q).rcu ≡ (if s.refs a == 1 then a ∷ s.rcu else s.rcu)
unfolding woken wake
woken_rcu s a q p lt = ground (arith, del_rcu_lem (s.refs a) p lt)

woken_rest :
    (s : Sm) (a : ℕ) (q : Queue)
    → ((woken s a q).released ≡ a ∷ s.released) × ((woken s a q).counter ≡ s.counter)
unfolding woken wake
woken_rest s a q = (refl, refl)

-- A context that only the semaphore holds keeps its count.
woken_same : (s : Sm) (a : ℕ) (q : Queue) (x : ℕ) → s.refs a ≡ 1 → (woken s a q).refs x ≡ s.refs x
woken_same s a q x e = ap (λ f. f x) (woken_refs s a q (omega arith) (omega arith)) ∙ ground arith

ones_back :
    (f g : ℕ → ℕ) (xs : List ℕ)
    → ((x : ℕ) → f x ≡ g x)
    → All (λ x. f x ≡ 1) xs
    → All (λ x. g x ≡ 1) xs
ones_back f g [] e h = tt
ones_back f g (x ∷ xs) e h = (sym (e x) ∙ h.0, ones_back f g xs e h.1)

-- What `up` does to the sequence `xs`: it serves a context, or hands all to `Rcu::call` and counts.
unfoldable pub Upped : Sm → List ℕ → Sm → Type 0
Upped s xs s' =
    Served s xs s'
    ⊎ (All (λ x. s.refs x ≡ 1) xs
        × (s'.rcu ≡ onto xs s.rcu)
        × (s'.counter ≡ s.counter + 1)
        × Waits s' [])

-- A context that only the semaphore holds is passed over.
passed_over :
    (s s' : Sm) (a : ℕ) (q : Queue) (xs : List ℕ)
    → s.refs a ≡ 1
    → Upped (woken s a q) xs s'
    → Upped s (a ∷ xs) s'
unfolding Upped
passed_over s s' a q xs e o =
    let w' = woken s a q in
    let same = λ (x : ℕ). woken_same s a q x e in
    let rcu : w'.rcu ≡ a ∷ s.rcu = woken_rcu s a q (omega arith) (omega arith) ∙ ground arith in
    let ctr = (woken_rest s a q).1 in
    elim o [
      | inl t ↦ inl (record {
        dead = a ∷ t.dead;
        a = t.a;
        rest = t.rest;
        split = ap (λ ys. a ∷ ys) t.split;
        last_held = (e, ones_back w'.refs s.refs t.dead same t.last_held);
        alive = omega (arith, same t.a, t.alive);
        freed = t.freed ∙ same t.a;
        handed = t.handed ∙ ap (onto t.dead) rcu;
        served = t.served ∙ ap (λ ys. t.a ∷ onto t.dead ys) (woken_rest s a q).0;
        same = t.same ∙ ctr;
        waits = t.waits;
      })
      | inr (h₁, h₂, h₃, h₄) ↦ inr (
        (e, ones_back w'.refs s.refs xs same h₁),
        h₂ ∙ ap (onto xs) rcu,
        omega (arith, h₃, ctr),
        h₄,
      )
    ]

-- A context that others hold too is served.
served_first :
    (s : Sm) (a : ℕ) (q : Queue) (xs : List ℕ)
    → 1 < s.refs a
    → s.refs a < u32_mod
    → Waits (woken s a q) xs
    → Upped s (a ∷ xs) (woken s a q)
unfolding Upped
served_first s a q xs lt small w =
    let pos : 0 < s.refs a = omega arith in
    inl (record {
      dead = [];
      a = a;
      rest = xs;
      split = refl;
      last_held = tt;
      alive = lt;
      freed = ap (λ f. f a + 1) (woken_refs s a q pos small) ∙ ground arith;
      handed = woken_rcu s a q pos small ∙ ground arith;
      served = (woken_rest s a q).0;
      same = (woken_rest s a q).1;
      waits = w;
    })

-- `up`, with a round for each waiting context and one more. If a waiting context is held by more than
-- the semaphore, the first such is released last and loses one reference, all before it go to
-- `Rcu::call`, all behind it wait on in their order, and the counter stays. If there is none, all that wait go
-- to `Rcu::call` and the counter goes up by one, below its largest.
pub up_serves :
    (n : ℕ) (s : Sm) (xs : List ℕ)
    → length xs < n
    → Waits s xs
    → s.counter + 1 < word_mod
    → (s' : Sm) × (up n s ≡ some s') × Upped s xs s'
unfolding Upped
up_serves zero s xs lt v c = absurd (omega arith)
up_serves (suc n) s [] lt v c = (
  _,
  up-none n s (no_head s.queue v.queued),
  inr (tt, refl, omega arith, record { queued = v.queued; held = tt; empty = inr refl }),
)
up_serves (suc n) s (a ∷ xs) lt v c =
    let (q, h, d, iq) = first s.queue a xs v.queued in
    let (pos, small) = v.held.0 in
    let step = up_round n s a q h d pos small in
    let w = woken-Waits s a q xs v v.queued.2.0 iq in
    elim (ℕ_discrete (s.refs a) 1) [
      | no ne ↦ (woken s a q, step ∙ ground arith, served_first s a q xs (omega arith) small w)
      | yes e ↦
          let (s', r, o) =
            up_serves n (woken s a q) xs (omega arith) w (omega (arith, woken_rest s a q)) in
          (s', step ∙ ground arith, passed_over s s' a q xs e o)
    ]
