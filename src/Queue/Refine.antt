-- ===== src/Queue/Refine.antt =====
-- A queue of kernel objects behaves as the list of its objects, oldest first.
use hedron.Prelude.{
  ℕ, true, false, Option, none, some, if◌then◌else◌, ◌==◌, List, [], ◌∷◌, ◌++◌, ◌≡◌, ◌≢◌, ◌⊎◌, refl,
  arith,
}
use hedron.Links.{Links, set_next, set_prev}
use hedron.Links.Ring.{
  NotIn, Distinct, Chain, Holds, last, Chain-last, Chain-snoc, Chain-retarget, NotIn-last,
  Distinct-snoc,
}
use hedron.Queue.{Queue, head, enqueue, link_before, link_last, dequeue, unlink, clear}

-- A queue that holds exactly these objects, in this order.
abbrev pub IsQueue : Queue → List ℕ → Type 0
IsQueue q xs = Holds q.links q.headptr xs

-- The pointers after `t` is linked in behind the last object `l`.
abbrev appended : Links → ℕ → ℕ → ℕ → Links
appended h hd l t =
    set_prev (set_next (set_prev (set_next h t (some hd)) t (some l)) l (some t)) hd (some t)

link_before-Chain :
    (h : Links) (a : ℕ) (xs : List ℕ) (t : ℕ)
    → Chain h a xs a
    → Distinct (a ∷ xs)
    → NotIn t (a ∷ xs)
    → (link_before h a t ≡ some (appended h a (last a xs) t))
      × Chain (appended h a (last a xs) t) a (xs ++ t ∷ []) a
unfolding link_before
link_before-Chain h a xs t c d n =
    let l = last a xs in
    let (ln, lp) = Chain-last h a xs a c in
    let ne : t ≢ l = NotIn-last t a xs n.0 n.1 in
    (
      rw lp,
      Chain-snoc (appended h a l t) a xs t a
          (Chain-retarget h (appended h a l t) t t a (λ k x y z. ground arith) a xs
            (λ k x y. ground arith) d n n.1 d.0 c (ground arith) (ground arith))
          (ground arith) (ground arith),
    )

-- Linking an object in at the end, and what stays as it was.
pub record Linked (h : Links) (xs : List ℕ) (t : ℕ) (h' : Links) (hd : Option ℕ) : Type 0 where
  pub holds : Holds h' hd (xs ++ t ∷ [])
  pub kept : (k : ℕ) → NotIn k xs → k ≢ t → (h'.next k ≡ h.next k) × (h'.prev k ≡ h.prev k)

pub link_last-Linked :
    (h : Links) (head : Option ℕ) (xs : List ℕ) (t : ℕ)
    → Holds h head xs
    → NotIn t xs
    → (h' : Links) × (hd : Option ℕ) × (link_last h head t ≡ some (h', hd)) × Linked h xs t h' hd
unfolding link_last
link_last-Linked h head [] t e n = (
  set_next (set_prev h t (some t)) t (some t),
  some t,
  rw e,
  record { holds = (refl, (ground arith, ground arith), (tt, tt)); kept = λ k u ne. ground arith },
)
link_last-Linked h head (a ∷ xs) t (e, c, d) n =
    let (l, c') = link_before-Chain h a xs t c d n in
    (
      appended h a (last a xs) t,
      some a,
      rw e (rw l),
      record {
        holds = (refl, c', Distinct-snoc (a ∷ xs) t d n);
        kept = λ k u ne. let nl = NotIn-last k a xs u.0 u.1 in ground arith;
      },
    )

-- Enqueueing an object that is not in the queue succeeds, puts it at the end, and leaves the
-- pointers of every object outside the queue as they were.
pub enqueue_appends :
    (q : Queue) (xs : List ℕ) (t : ℕ)
    → IsQueue q xs
    → NotIn t xs
    → (r : Queue) × (enqueue q t ≡ some r)
      × IsQueue r (xs ++ t ∷ [])
      × ((k : ℕ)
          → NotIn k xs
          → k ≢ t
          → (r.links.next k ≡ q.links.next k) × (r.links.prev k ≡ q.links.prev k))
unfolding enqueue
enqueue_appends q xs t v n =
    let (h, hd, e, l) = link_last-Linked q.links q.headptr xs t v n in
    (record { headptr = hd; links = h }, rw e, l.holds, l.kept)

-- The pointers after the head `a` is taken out between `l` and `x`.
abbrev removed : Links → ℕ → ℕ → ℕ → Links
removed h a x l = set_next (set_prev (set_next (set_prev h x (some l)) l (some x)) a none) a none

dequeue_linked_lem :
    (q : Queue) (a x l : ℕ)
    → q.headptr ≡ some a
    → q.links.next a ≡ some x
    → q.links.prev a ≡ some l
    → a ≢ x
    → dequeue q (some a) ≡ (true, record { headptr = some x; links = removed q.links a x l })
unfolding dequeue
dequeue_linked_lem q a x l e n p ne = ground arith

unlinked-Chain :
    (h : Links) (a x : ℕ) (xs : List ℕ)
    → Chain h x xs a
    → Distinct (a ∷ x ∷ xs)
    → Chain (removed h a x (last x xs)) x xs x
unlinked-Chain h a x xs c d =
    let l = last x xs in
    let ne : a ≢ l = NotIn-last a x xs d.0.0 d.0.1 in
    Chain-retarget h (removed h a x l) a x a (λ k u v w. ground arith) x xs (λ k u v. ground arith)
      d.1 d.0 d.1.0 d.0.1 c (ground arith) (ground arith)

-- Dequeueing the head succeeds, leaves the rest in its order, and clears the object's pointers, so
-- that it counts as being in no queue.
pub dequeue-head :
    (q : Queue) (a : ℕ) (xs : List ℕ)
    → IsQueue q (a ∷ xs)
    → let (ok, r) = dequeue q (head q) in
      (ok ≡ true) × IsQueue r xs × (r.links.next a ≡ none) × (r.links.prev a ≡ none)
unfolding dequeue head
dequeue-head q a [] (e, c, d) = ground arith
dequeue-head q a (x ∷ xs) (e, c, d) =
    let l = last x xs in
    let (ln, lp) = Chain-last q.links x xs a c.2 in
    let eq = dequeue_linked_lem q a x l e c.0 lp d.0.0 in
    let ring = unlinked-Chain q.links a x xs c.2 d in ground (arith, eq, ring, d)

-- Dequeueing an object whose pointers are clear, or no object, changes nothing.
pub dequeue_absent :
    (q : Queue) (t : Option ℕ)
    → ((a : ℕ) → t ≡ some a → (q.links.next a ≡ none) ⊎ (q.links.prev a ≡ none))
    → dequeue q t ≡ (false, q)
unfolding dequeue
dequeue_absent q none h = refl
dequeue_absent q (some a) h = ground (arith, h a refl)

-- Taking the head `a` out of a circle, and what stays as it was.
pub record Unlinked (h : Links) (a : ℕ) (xs : List ℕ) (n p : ℕ) : Type 0 where
  pub next_eq : h.next a ≡ some n
  pub prev_eq : h.prev a ≡ some p
  pub holds : Holds (clear (unlink h a n p) a) (if n == a then none else some n) xs
  pub kept :
      (k : ℕ)
      → NotIn k (a ∷ xs)
      → ((clear (unlink h a n p) a).next k ≡ h.next k)
        × ((clear (unlink h a n p) a).prev k ≡ h.prev k)
  pub cleared :
      ((clear (unlink h a n p) a).next a ≡ none) × ((clear (unlink h a n p) a).prev a ≡ none)

pub unlink-Unlinked :
    (h : Links) (a : ℕ) (xs : List ℕ)
    → Holds h (some a) (a ∷ xs)
    → (n : ℕ) × (p : ℕ) × Unlinked h a xs n p
unfolding unlink clear
unlink-Unlinked h a [] (e, c, d) = (
  a,
  a,
  record {
    next_eq = c.0;
    prev_eq = c.1;
    holds = ground arith;
    kept = λ k u. ground arith;
    cleared = ground arith;
  },
)
unlink-Unlinked h a (x ∷ xs) (e, c, d) =
    let l = last x xs in
    let (ln, lp) = Chain-last h x xs a c.2 in
    (
      x,
      l,
      record {
        next_eq = c.0;
        prev_eq = lp;
        holds =
            let ring = unlinked-Chain h a x xs c.2 d in
            let ne : a ≢ x = d.0.0 in (ground arith, ring, d.1);
        kept = λ k u. let nl = NotIn-last k x xs u.1.0 u.1.1 in ground arith;
        cleared = ground arith;
      },
    )
