-- ===== src/Mdb/Insert.antt =====
-- A new node in the circle: `Mdb::insert_node` of src/mdb.cpp.
use hedron.Prelude.{
  ℕ, ◌+◌, ◌%◌, ◌^◌, ◌<◌, ◌≡◌, ◌≢◌, refl, sym, subst, ap, ◌∙◌, arith, bit_and, Bool, true, false,
  not, some, if◌then◌else◌, ◌==◌, ==_iff, ltb, List, [], ◌∷◌,
}
use native.Mathlib.Nat.{mod-eq_of_lt}
use hedron.Links.{update}
use hedron.Links.Ring.{NotIn, Distinct}
use hedron.Sched.Ready.{update_self, update_ne}
use hedron.Mdb.{Mdb, alive, insert_node, remove_node, unlinked}
use hedron.Mdb.Circle.{Forth}

-- The nodes of the circle from `p` on.
abbrev pub Circle : Mdb → ℕ → List ℕ → Type 0
Circle m p xs = Forth m.prev m.next p xs p × Distinct (p ∷ xs)

-- What a new node gets.
pub record Inserted (m m' : Mdb) (n p a : ℕ) : Type 0 where
  pub attr : m'.node_attr n ≡ bit_and (m.node_attr p) a
  pub dpth : m'.dpth n ≡ m.dpth p + 1
  pub prnt : m'.prnt n ≡ some p
  pub others :
      (k : ℕ)
      → k ≢ n
      → (m'.node_attr k ≡ m.node_attr k) × (m'.dpth k ≡ m.dpth k) × (m'.prnt k ≡ m.prnt k)

Forth-ends :
    (prev next : ℕ → ℕ) (b z : ℕ) (xs : List ℕ)
    → Forth prev next b xs z
    → (prev (next b) ≡ b) × (next (prev z) ≡ z)
Forth-ends prev next b z [] h = (ap prev h.0 ∙ h.1, ap next h.1 ∙ h.0)
Forth-ends prev next b z (x ∷ xs) h = (ap prev h.0 ∙ h.1, (Forth-ends prev next x z xs h.2).1)

Circle-alive : (m : Mdb) (p : ℕ) (xs : List ℕ) → Circle m p xs → alive m p ≡ true
unfolding alive
Circle-alive m p xs c =
    let (x, y) = Forth-ends m.prev m.next p p xs c.0 in rw ((==_iff _ _).1 x, (==_iff _ _).1 y) refl

-- Pointers that agree but at `n`, on from `p` and back from `z`.
Forth-frame :
    (prev next prev' next' : ℕ → ℕ) (n p z t : ℕ)
    → ((k : ℕ) → k ≢ n → k ≢ z → prev' k ≡ prev k)
    → ((k : ℕ) → k ≢ n → k ≢ p → next' k ≡ next k)
    → t ≢ n
    → t ≢ z
    → (b : ℕ) (xs : List ℕ) → NotIn n (b ∷ xs)
    → NotIn p (b ∷ xs)
    → NotIn z xs
    → Forth prev next b xs t
    → Forth prev' next' b xs t
Forth-frame prev next prev' next' n p z t back on tn tz b [] nn np nz h =
    (on b (λ e. nn.0 (sym e)) (λ e. np.0 (sym e)) ∙ h.0, back t tn tz ∙ h.1)
Forth-frame prev next prev' next' n p z t back on tn tz b (x ∷ xs) nn np nz h = (
  on b (λ e. nn.0 (sym e)) (λ e. np.0 (sym e)) ∙ h.0,
  back x (λ e. nn.1.0 (sym e)) (λ e. nz.0 (sym e)) ∙ h.1,
  Forth-frame prev next prev' next' n p z t back on tn tz x xs nn.1 np.1 nz.1 h.2,
)

-- Behind `p`, before what followed it.
linked :
    (prev next : ℕ → ℕ) (n p : ℕ) (xs : List ℕ)
    → Forth prev next p xs p
    → Distinct (p ∷ xs)
    → NotIn n (p ∷ xs)
    → Forth (update (update prev n p) (next p) n) (update (update next n (next p)) p n) p (n ∷ xs) p
linked prev next n p [] h d fresh =
    let np = fresh.0 in
    (
      update_self (update next n (next p)) p n,
      update_ne (update prev n p) (next p) n n (λ e. np (e ∙ h.0)) ∙ update_self prev n p,
      (
        update_ne (update next n (next p)) p n n np ∙ update_self next n (next p) ∙ h.0,
        ap (update (update prev n p) (next p) n) (sym h.0)
            ∙ update_self (update prev n p) (next p) n,
      ),
    )
linked prev next n p (x ∷ xs) h d fresh =
    let np = fresh.0 in
    let back : (k : ℕ) → k ≢ n → k ≢ x → update (update prev n p) (next p) n k ≡ prev k = λ k u v.
      update_ne (update prev n p) (next p) k n (λ e. v (e ∙ h.0)) ∙ update_ne prev n k p u in
    let on : (k : ℕ) → k ≢ n → k ≢ p → update (update next n (next p)) p n k ≡ next k =
      λ k u v. update_ne (update next n (next p)) p k n v ∙ update_ne next n k (next p) u in
    (
      update_self (update next n (next p)) p n,
      update_ne (update prev n p) (next p) n n (λ e. fresh.1.0 (e ∙ h.0)) ∙ update_self prev n p,
      (
        update_ne (update next n (next p)) p n n np ∙ update_self next n (next p) ∙ h.0,
        ap (update (update prev n p) (next p) n) (sym h.0)
            ∙ update_self (update prev n p) (next p) n,
        Forth-frame prev next _ _ n p x p back on (λ e. np (sym e)) d.0.0 x xs fresh.1 d.0 d.1.0
            h.2,
      ),
    )

-- With a right left and below the largest depth a node goes in right behind its parent.
pub insert_node_lem :
    (n p a : ℕ) (xs : List ℕ) (m : Mdb)
    → Circle m p xs
    → NotIn n (p ∷ xs)
    → bit_and (m.node_attr p) a ≢ 0
    → m.dpth p + 1 < 2 ^ 16
    → (m' : Mdb) × (insert_node n p a m ≡ (true, m')) × Circle m' p (n ∷ xs) × Inserted m m' n p a
unfolding insert_node
insert_node_lem n p a xs m c fresh rights low =
    let attr = bit_and (m.node_attr p) a in
    let some_left : (attr == 0) ≡ false = ground arith in
    let next = update m.next n (m.next p) in
    let on : next p ≡ m.next p = update_ne m.next n p (m.next p) (λ e. fresh.0 (sym e)) in
    (
      record m {
        node_attr = update m.node_attr n attr;
        prev = update (update m.prev n p) (next p) n;
        next = update next p n;
        prnt = update m.prnt n (some p);
        dpth = update m.dpth n ((m.dpth p + 1) % 2 ^ 16);
      },
      rw (insert_node, Circle-alive m p xs c, some_left) refl,
      (
        subst (λ q. Forth (update (update m.prev n p) q n) (update next p n) p (n ∷ xs) p) (sym on)
            (linked m.prev m.next n p xs c.0 c.1 fresh),
        (((λ e. fresh.0 (sym e)), c.1.0), (fresh.1, c.1.1)),
      ),
      record {
        attr = update_self m.node_attr n attr;
        dpth = update_self m.dpth n _ ∙ mod-eq_of_lt low;
        prnt = update_self m.prnt n (some p);
        others = λ k ne. (
          update_ne m.node_attr n k attr ne,
          update_ne m.dpth n k _ ne,
          update_ne m.prnt n k (some p) ne,
        );
      },
    )

passed {ℓ} :
    {A : Type ℓ} (b : Bool) (m m' : A) (x : Bool × A)
    → (if b then (false, m) else x) ≡ (true, m')
    → x ≡ (true, m')
passed true m m' x h = (let e : false ≡ true = ap (λ p. p.0) h in cc)
passed false m m' x h = h

remove_node-unlinked : (n : ℕ) (m m' : Mdb) → remove_node n m ≡ (true, m') → m' ≡ unlinked n m
unfolding remove_node
remove_node-unlinked n m m' h =
    let children = ltb (m.dpth n) (m.dpth (m.next n)) in
    let last_step : Bool × Mdb = if children then (false, m) else (true, unlinked n m) in
    let next_step : Bool × Mdb = if not (alive m n) then (false, m) else last_step in
    let h' = passed (not (m.node_attr n == 0)) m m' next_step h in
    let h'' = passed (not (alive m n)) m m' last_step h' in
    let e : (true, unlinked n m) ≡ (true, m') = passed children m m' (true, unlinked n m) h'' in
    sym (ap (λ (p : Bool × Mdb). p.1) e)

-- Under a node that has been removed none goes in.
pub insert_node-removed :
    (n k a : ℕ) (m m' : Mdb)
    → m.next n ≢ n
    → remove_node n m ≡ (true, m')
    → insert_node k n a m' ≡ (false, m')
unfolding insert_node alive unlinked
insert_node-removed n k a m m' single h =
    let prev = update m.prev (m.next n) (m.prev n) in
    let gone : alive (unlinked n m) n ≡ false =
      (let e = update_self m.next (prev n) (m.next n) in
        let ne : (m.next n == n) ≡ false = ground arith in rw (alive, e, ne) refl) in
    rw (insert_node, ap (λ x. alive x n) (remove_node-unlinked n m m' h) ∙ gone) refl
