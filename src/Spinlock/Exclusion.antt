-- ===== src/Spinlock/Exclusion.antt =====
-- One CPU at a time holds the lock, and the CPUs get it in the order in which they came.
use hedron.Prelude.{
  ℕ, ◌+◌, ◌%◌, ◌<◌, ◌≤◌, ◌≡◌, ◌≢◌, refl, ap, sym, subst, true, List, [], ◌∷◌, ◌++◌, length,
  length-append, arith,
}
use hedron.Spinlock.{Spinlock, num_cpu, take_ticket, may_enter, unlock, is_locked, Step, Reachable}

-- Tickets that follow each other, from the one that is served to the next one to give out.
abbrev Consecutive : ℕ → List ℕ → ℕ → Type 0
Consecutive s [] n = s ≡ n
Consecutive s (t ∷ ts) n = (t ≡ s) × Consecutive ((s + 1) % 256) ts n

-- What every state that is reached has.
abbrev Sane : Spinlock × List ℕ → Type 0
Sane (l, ts) =
    Consecutive l.served_ticket ts l.next_ticket × (l.served_ticket < 256) × (length ts ≤ num_cpu)

Consecutive-snoc :
    (s n : ℕ) (ts : List ℕ) → Consecutive s ts n → Consecutive s (ts ++ n ∷ []) ((n + 1) % 256)
Consecutive-snoc s n [] c = (sym c, ap (λ (k : ℕ). (k + 1) % 256) c)
Consecutive-snoc s n (t ∷ ts) c = (c.0, Consecutive-snoc ((s + 1) % 256) n ts c.1)

-- The ticket behind `xs`
Consecutive-at :
    (s n t : ℕ) (xs ys : List ℕ)
    → s < 256
    → Consecutive s (xs ++ t ∷ ys) n
    → t ≡ (s + length xs) % 256
Consecutive-at s n t [] ys h c = omega (arith, c.0)
Consecutive-at s n t (x ∷ xs) ys h c =
    omega (arith, Consecutive-at ((s + 1) % 256) n t xs ys (omega arith) c.1)

Consecutive-end : (s n : ℕ) (ts : List ℕ) → s < 256 → Consecutive s ts n → n ≡ (s + length ts) % 256
Consecutive-end s n [] h c = omega (arith, c)
Consecutive-end s n (t ∷ ts) h c =
    omega (arith, Consecutive-end ((s + 1) % 256) n ts (omega arith) c.1)

-- Who may enter is the first.
first_enters :
    (l : Spinlock) (before after : List ℕ) (t : ℕ)
    → Sane (l, before ++ t ∷ after)
    → may_enter l t ≡ true
    → before ≡ []
unfolding may_enter
first_enters l [] after t h e = refl
first_enters l (x ∷ xs) after t (c, small, few) e =
    let at = Consecutive-at l.served_ticket l.next_ticket t (x ∷ xs) after small c in
    let eq : l.served_ticket ≡ t = ground arith in
    absurd (omega (arith, at, eq, few, length-append xs (t ∷ after)))

first_leaves :
    (l : Spinlock) (after : List ℕ) (t : ℕ) → Sane (l, t ∷ after) → Sane (unlock l, after)
unfolding unlock
first_leaves l after t (c, small, few) = (c.1, omega arith, omega arith)

Step-Sane : (s s' : Spinlock × List ℕ) → Step s s' → Sane s → Sane s'
unfolding take_ticket unlock
Step-Sane s s' (Step.takes l ts lt) (c, small, few) = (
  Consecutive-snoc l.served_ticket l.next_ticket ts c,
  small,
  omega (arith, length-append ts (l.next_ticket ∷ [])),
)
Step-Sane s s' (Step.leaves l before after t e) h =
    subst (λ b. Sane (l, b ++ t ∷ after) → Sane (unlock l, b ++ after))
      (sym (first_enters l before after t h e)) (first_leaves l after t) h

Reachable-Sane : (s : Spinlock × List ℕ) → Reachable s → Sane s
Reachable-Sane s Reachable.starts = (refl, omega arith, omega arith)
Reachable-Sane s (Reachable.goes s₀ s₁ r st) = Step-Sane s₀ s₁ st (Reachable-Sane s₀ r)

-- In every state that can be reached by at most 128 CPUs: a CPU that may enter came before all others that are
-- there, so no two may; and the lock then counts as locked.
pub lock_is_fifo :
    (l : Spinlock) (before after : List ℕ) (t : ℕ)
    → Reachable (l, before ++ t ∷ after)
    → may_enter l t ≡ true
    → (before ≡ []) × (is_locked l ≡ true)
unfolding is_locked
lock_is_fifo l before after t r e =
    let h = Reachable-Sane (l, before ++ t ∷ after) r in
    let end = Consecutive-end l.served_ticket l.next_ticket (before ++ t ∷ after) h.1 h.0 in
    let some_there = length-append before (t ∷ after) in
    let ne : l.next_ticket ≢ l.served_ticket =
      λ q. absurd (omega (arith, end, some_there, h.2, h.1, q)) in
    (first_enters l before after t h e, ground arith)

-- In every such state with a CPU there, the one that came first may enter.
pub first_may_enter :
    (l : Spinlock) (t : ℕ) (ts : List ℕ) → Reachable (l, t ∷ ts) → may_enter l t ≡ true
unfolding may_enter
first_may_enter l t ts r = let h = Reachable-Sane (l, t ∷ ts) r in ground (arith, h.0.0)
