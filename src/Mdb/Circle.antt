-- ===== src/Mdb/Circle.antt =====
-- Stretches of the circle, and what removal and insertion do to them.
use hedron.Prelude.{ℕ, ◌≡◌, ◌≢◌, refl, sym, ap, ◌∙◌, true, ==_iff, List, [], ◌∷◌, All}
use hedron.Links.Ring.{NotIn, Distinct, last}
use hedron.Sched.Ready.{update_self, update_ne}
use hedron.Mdb.{Mdb, alive, unlinked}

-- Backwards from `z` through the nodes to `a`, linked in both directions.
abbrev pub Back : (ℕ → ℕ) → (ℕ → ℕ) → ℕ → List ℕ → ℕ → Type 0
Back prev next z [] a = (prev z ≡ a) × (next a ≡ z)
Back prev next z (y ∷ ys) a = (prev z ≡ y) × (next y ≡ z) × Back prev next y ys a

-- Forwards from `b` through the nodes to `z`.
abbrev pub Forth : (ℕ → ℕ) → (ℕ → ℕ) → ℕ → List ℕ → ℕ → Type 0
Forth prev next b [] z = (next b ≡ z) × (prev z ≡ b)
Forth prev next b (x ∷ xs) z = (next b ≡ x) × (prev x ≡ b) × Forth prev next x xs z

-- The nodes from the last one of `b ∷ xs` back to `b`, and behind it `acc`: without the last one.
abbrev pub back_from : ℕ → List ℕ → List ℕ → List ℕ
back_from b [] acc = acc
back_from b (x ∷ xs) acc = back_from x xs (b ∷ acc)

pub Forth-Back :
    (prev next : ℕ → ℕ) (a b z : ℕ) (xs acc : List ℕ)
    → Back prev next b acc a
    → Forth prev next b xs z
    → Back prev next z (last b xs ∷ back_from b xs acc) a
Forth-Back prev next a b z [] acc k h = (h.1, h.0, k)
Forth-Back prev next a b z (x ∷ xs) acc k h =
    Forth-Back prev next a x z xs (b ∷ acc) (h.1, h.0, k) h.2

pub NotIn-back :
    (k b : ℕ) (xs acc : List ℕ)
    → NotIn k (b ∷ acc)
    → NotIn k xs
    → NotIn k (last b xs ∷ back_from b xs acc)
NotIn-back k b [] acc h n = h
NotIn-back k b (x ∷ xs) acc h n = NotIn-back k x xs (b ∷ acc) (n.0, h) n.1

pub All-back {κ} :
    (P : ℕ → Type κ) (b : ℕ) (xs acc : List ℕ)
    → All P (b ∷ acc)
    → All P xs
    → All P (last b xs ∷ back_from b xs acc)
All-back P b [] acc h n = h
All-back P b (x ∷ xs) acc h n = All-back P x xs (b ∷ acc) (n.0, h) n.1

apart :
    (x : ℕ) (xs ys : List ℕ)
    → NotIn x xs
    → All (λ y. NotIn y ys) xs
    → All (λ y. NotIn y (x ∷ ys)) xs
apart x [] ys n h = tt
apart x (y ∷ xs) ys n h = (((λ e. n.0 (sym e)), h.0), apart x xs ys n.1 h.1)

pub Distinct-back :
    (b : ℕ) (xs acc : List ℕ)
    → Distinct (b ∷ acc)
    → Distinct xs
    → All (λ y. NotIn y (b ∷ acc)) xs
    → Distinct (last b xs ∷ back_from b xs acc)
Distinct-back b [] acc d e h = d
Distinct-back b (x ∷ xs) acc d e h =
    Distinct-back x xs (b ∷ acc) (h.0, d) e.1 (apart x xs (b ∷ acc) e.0 h.1)

pub all_apart : (b : ℕ) (xs : List ℕ) → NotIn b xs → All (λ y. NotIn y (b ∷ [])) xs
all_apart b xs n = apart b xs [] n (none_in xs)
  where
    none_in : (ys : List ℕ) → All (λ y. NotIn y []) ys
    none_in [] = tt
    none_in (y ∷ ys) = (tt, none_in ys)

-- the first on the way back
Back-front : (prev next : ℕ → ℕ) (z a : ℕ) (ys : List ℕ) → Back prev next z ys a → next (prev z) ≡ z
Back-front prev next z a [] h = ap next h.0 ∙ h.1
Back-front prev next z a (y ∷ ys) h = ap next h.0 ∙ h.1

-- A node on the way is alive.
pub Back-alive :
    (m : Mdb) (z y a : ℕ) (ys : List ℕ) → Back m.prev m.next z (y ∷ ys) a → alive m y ≡ true
unfolding alive
Back-alive m z y a ys h =
    rw ((==_iff _ _).1 (Back-front m.prev m.next y a ys h.2), (==_iff _ _).1 (ap m.prev h.1 ∙ h.0))
      refl

-- Pointers that agree but for the one back from `z` and the one on from `q`.
Back-frame :
    (m m' : Mdb) (z q a : ℕ)
    → ((k : ℕ) → k ≢ z → m'.prev k ≡ m.prev k)
    → ((k : ℕ) → k ≢ q → m'.next k ≡ m.next k)
    → a ≢ q
    → (y : ℕ) (ys : List ℕ) → y ≢ z
    → NotIn z ys
    → NotIn q ys
    → Back m.prev m.next y ys a
    → Back m'.prev m'.next y ys a
Back-frame m m' z q a p n na y [] ne nz nq h = (p y ne ∙ h.0, n a na ∙ h.1)
Back-frame m m' z q a p n na y (x ∷ xs) ne nz nq h = (
  p y ne ∙ h.0,
  n x (λ e. nq.0 (sym e)) ∙ h.1,
  Back-frame m m' z q a p n na x xs (λ e. nz.0 (sym e)) nz.1 nq.1 h.2,
)

-- The pointers that the removal of a node writes.
pub unlinked-frame :
    (m : Mdb) (y z q k : ℕ)
    → m.next y ≡ z
    → m.prev y ≡ q
    → y ≢ z
    → (k ≢ z → (unlinked y m).prev k ≡ m.prev k) × (k ≢ q → (unlinked y m).next k ≡ m.next k)
unfolding unlinked
unlinked-frame m y z q k n p ne = (
  λ h. rw n (update_ne m.prev z k (m.prev y) h),
  λ h. rw (n, update_ne m.prev z y (m.prev y) ne, p) (update_ne m.next q k z h),
)

pub unlinked_links :
    (m : Mdb) (y z q : ℕ)
    → m.next y ≡ z
    → m.prev y ≡ q
    → y ≢ z
    → ((unlinked y m).prev z ≡ q) × ((unlinked y m).next q ≡ z)
unfolding unlinked
unlinked_links m y z q n p ne = (
  rw (n, p) (update_self m.prev z q),
  rw (n, update_ne m.prev z y (m.prev y) ne, p) (update_self m.next q z),
)

-- The first node on the way back is taken out.
pub unlinked-Back :
    (m : Mdb) (z y a : ℕ) (ys : List ℕ)
    → NotIn z (y ∷ ys)
    → NotIn a (y ∷ ys)
    → Distinct (y ∷ ys)
    → Back m.prev m.next z (y ∷ ys) a
    → Back (unlinked y m).prev (unlinked y m).next z ys a
unlinked-Back m z y a [] nz na d h = unlinked_links m y z a h.1 h.2.0 (λ e. nz.0 (sym e))
unlinked-Back m z y a (x ∷ xs) nz na d h =
    let ne : y ≢ z = λ e. nz.0 (sym e) in
    let (p, n) = unlinked_links m y z x h.1 h.2.0 ne in
    (
      p,
      n,
      Back-frame m (unlinked y m) z x a (λ k. (unlinked-frame m y z x k h.1 h.2.0 ne).0)
          (λ k. (unlinked-frame m y z x k h.1 h.2.0 ne).1) na.1.0 x xs (λ e. nz.1.0 (sym e)) nz.1.1
          d.1.0 h.2.2,
    )
