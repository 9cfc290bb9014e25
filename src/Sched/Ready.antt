-- ===== src/Sched/Ready.antt =====
-- The run queues of a CPU hold lists of scheduling contexts, one for each priority.
use hedron.Prelude.{
  ℕ, ◌<◌, ◌≤◌, Bool, true, false, Option, some, bit_or, ==_iff, lt→ltb, ltb, if◌then◌else◌, List,
  [], ◌∷◌, ◌++◌, ◌≡◌, ◌≢◌, ◌⊎◌, inl, inr, refl, arith, sym, subst, ap, ◌∙◌, All, All-append,
}
use native.Mathlib.Decide.{ℕ_discrete}
use hedron.Links.{Links, update}
use hedron.Links.Ring.{NotIn, Holds, Holds-frame, Holds-subst}
use hedron.Refcount.{add_ref}
use hedron.Queue.{link_last}
use hedron.Queue.Refine.{Linked, link_last-Linked}
use hedron.Sched.{
  Machine, num_priorities, inserted, insert_ready, take_ref, hzd_sched, ready_enqueue,
}

-- A context of this priority on this CPU.
abbrev pub Belongs : Machine → ℕ → ℕ → ℕ → Type 0
Belongs m id p x = (m.prio x ≡ p) × (m.cpu x ≡ id)

-- CPU `id` has the queues `q`, and `prio_top` is the highest priority in use.
pub record Ready (m : Machine) (id : ℕ) (q : ℕ → List ℕ) : Type 0 where
  pub rings : (p : ℕ) → Holds m.links (m.list id p) (q p)
  pub owned : (p : ℕ) → All (Belongs m id p) (q p)
  pub above : (p : ℕ) → m.prio_top id < p → q p ≡ []
  pub exact : (m.prio_top id ≡ 0) ⊎ (q (m.prio_top id) ≢ [])
  pub small : m.prio_top id < num_priorities

-- The queues with one of them replaced.
abbrev pub replace : (ℕ → List ℕ) → ℕ → List ℕ → ℕ → List ℕ
replace q p xs = update q p xs

-- An object of another kind is in no list of objects of one kind.
pub NotIn-of_All : (P : ℕ → Type 0) (k : ℕ) (xs : List ℕ) → All P xs → ¬ P k → NotIn k xs
NotIn-of_All P k [] h n = tt
NotIn-of_All P k (x ∷ xs) h n = (λ e. n (subst P (sym e) h.0), NotIn-of_All P k xs h.1 n)

pub update_self {ℓ} : {A : Type ℓ} (f : ℕ → A) (i : ℕ) (v : A) → update f i v i ≡ v
update_self f i v = ground arith

pub update_ne {ℓ} : {A : Type ℓ} (f : ℕ → A) (i k : ℕ) (v : A) → k ≢ i → update f i v k ≡ f k
update_ne f i k v n = ground arith

-- Where the value of an updated function comes from.
pub update_cases {ℓ} :
    {A : Type ℓ} (f : ℕ → A) (i k : ℕ) (v w : A)
    → update f i v k ≡ w
    → ((k ≡ i) × (v ≡ w)) ⊎ ((k ≢ i) × (f k ≡ w))
update_cases f i k v w h = elim (ℕ_discrete k i) [
  | yes e ↦ inl (e, sym (ap (update f i v) e ∙ update_self f i v) ∙ h)
  | no n ↦ inr (n, sym (update_ne f i k v n) ∙ h)
]

-- The state after an insertion: the context is at the end of the queue of its priority.
module _ (m : Machine) (id sc t : ℕ) (q : ℕ → List ℕ) (here : m.cpu sc ≡ id)
    (legal : m.prio sc < num_priorities) (v : Ready m id q) (h : Links) (hd : Option ℕ)
    (linked : Linked m.links (q (m.prio sc)) sc h hd) where
  abbrev after : ℕ → List ℕ
  after = replace q (m.prio sc) (q (m.prio sc) ++ sc ∷ [])

  -- Objects of other priorities keep their pointers.
  other_kept :
      (p k : ℕ)
      → p ≢ m.prio sc
      → Belongs m id p k
      → (h.next k ≡ m.links.next k) × (h.prev k ≡ m.links.prev k)
  other_kept p k n b =
      linked.kept k
        (NotIn-of_All (Belongs m id (m.prio sc)) k (q (m.prio sc)) (v.owned (m.prio sc))
          (λ b'. n (sym b.0 ∙ b'.0)))
        (λ e. n (sym b.0 ∙ ap m.prio e))

  inserted_rings : (p : ℕ) → Holds h ((inserted m id sc t h hd).list id p) (after p)
  unfolding inserted
  inserted_rings p = elim (ℕ_discrete p (m.prio sc)) [
    | yes e ↦ Holds-subst h hd _ _ _ (ground arith) (ground arith) linked.holds
    | no n ↦ Holds-subst h (m.list id p) _ (q p) _ (ground arith) (update_ne q (m.prio sc) p _ n) (
        Holds-frame (Belongs m id p) m.links h (λ k b. other_kept p k n b) _ _ (v.owned p)
          (v.rings p))
  ]

  inserted_owned : (p : ℕ) → All (Belongs m id p) (after p)
  inserted_owned p = elim (ℕ_discrete p (m.prio sc)) [
    | yes e ↦
        subst (λ (xs : List ℕ). All (Belongs m id p) xs) (ground arith)
          (All-append (Belongs m id p) (q p) (sc ∷ []) (v.owned p) ((sym e, here), tt))
    | no n ↦
        subst (λ (xs : List ℕ). All (Belongs m id p) xs) (sym (update_ne q (m.prio sc) p _ n))
          (v.owned p)
  ]

  snoc-ne-nil : (xs : List ℕ) → xs ++ sc ∷ [] ≢ []
  snoc-ne-nil [] e = cc
  snoc-ne-nil (x ∷ xs) e = cc

  -- The new top is one of the two.
  new_top :
      ((inserted m id sc t h hd).prio_top id ≡ m.prio sc)
      ⊎ ((inserted m id sc t h hd).prio_top id ≡ m.prio_top id)
  unfolding inserted
  new_top = ground arith

  new_top-le :
      (m.prio sc ≤ (inserted m id sc t h hd).prio_top id)
      × (m.prio_top id ≤ (inserted m id sc t h hd).prio_top id)
  unfolding inserted
  new_top-le = ground arith

  after_self : after (m.prio sc) ≢ []
  after_self e = snoc-ne-nil (q (m.prio sc)) (sym (update_self q (m.prio sc) _) ∙ e)

  exact_at : (p : ℕ) → (p ≡ m.prio sc) ⊎ (p ≡ m.prio_top id) → (p ≡ 0) ⊎ (after p ≢ [])
  exact_at p (inl e) = inr (rw e after_self)
  exact_at p (inr e) = elim (ℕ_discrete p (m.prio sc)) [
    | yes s ↦ inr (rw s after_self)
    | no n ↦ elim v.exact [
      | inl z ↦ inl (e ∙ z)
      | inr full ↦ inr (λ x. full (ap q (sym e) ∙ sym (update_ne q (m.prio sc) p _ n) ∙ x))
    ]
  ]

  inserted-Ready : Ready (inserted m id sc t h hd) id after
  unfolding inserted
  inserted-Ready = record {
    rings = inserted_rings;
    owned = inserted_owned;
    above = λ p lt.
        update_ne q (m.prio sc) p _ (omega (arith, new_top-le))
        ∙ v.above p (omega (arith, new_top-le));
    exact = exact_at _ new_top;
    small = elim new_top [ inl e ↦ rw e legal | inr e ↦ rw e v.small ];
  }

take_ref_ok :
    (m : Machine) (sc : ℕ) (inc_ref : Bool)
    → (inc_ref ≡ false) ⊎ (0 < m.ref sc)
    → (r : ℕ → ℕ) × (take_ref m sc inc_ref ≡ some (record m { ref = r }))
unfolding take_ref add_ref
take_ref_ok m sc false alive = (m.ref, refl)
take_ref_ok m sc true (inl e) = absurd (cc)
take_ref_ok m sc true (inr pos) = (update m.ref sc (add_ref (m.ref sc)).1, ground arith)

-- The reference counts play no part in the queues.
Ready-ref :
    {m : Machine} {id : ℕ} {q : ℕ → List ℕ} (r : ℕ → ℕ)
    → Ready m id q
    → Ready (record m { ref = r }) id q
Ready-ref r v = record {
  rings = v.rings;
  owned = v.owned;
  above = v.above;
  exact = v.exact;
  small = v.small;
}

insert_ready_lem :
    (m : Machine) (id sc t : ℕ) (h : Links) (hd : Option ℕ)
    → link_last m.links (m.list id (m.prio sc)) sc ≡ some (h, hd)
    → insert_ready m id sc t ≡ some (inserted m id sc t h hd)
unfolding insert_ready
insert_ready_lem m id sc t h hd e = rw e

-- Enqueueing a context of this CPU with a legal priority, which is in no list and, if a reference is to be
-- taken, is still alive: it goes to the end of the queue of its priority, the other queues stay, and
-- the CPU is told to reschedule if the context outranks the current one.
pub ready_enqueue-Ready :
    (m : Machine) (id sc t : ℕ) (inc_ref : Bool) (q : ℕ → List ℕ)
    → Ready m id q
    → m.cpu sc ≡ id
    → m.prio sc < num_priorities
    → NotIn sc (q (m.prio sc))
    → (inc_ref ≡ false) ⊎ (0 < m.ref sc)
    → (m' : Machine) × (ready_enqueue m id sc t inc_ref ≡ some m')
      × Ready m' id (replace q (m.prio sc) (q (m.prio sc) ++ sc ∷ []))
      × (m'.prio ≡ m.prio)
      × (m'.cpu ≡ m.cpu)
      × (m'.time ≡ m.time)
      × (m'.hazard id ≡ (
          if ltb (m.prio (m.current id)) (m.prio sc)
          then bit_or (m.hazard id) hzd_sched
          else m.hazard id))
unfolding ready_enqueue inserted
ready_enqueue-Ready m id sc t inc_ref q v here legal fresh alive =
    let (h, hd, e, l) =
      link_last-Linked m.links (m.list id (m.prio sc)) (q (m.prio sc)) sc (v.rings _) fresh in
    let (r, taken) = take_ref_ok m sc inc_ref alive in
    let m₁ : Machine = record m { ref = r } in
    (
      inserted m₁ id sc t h hd,
      rw (lt→ltb _ _ legal, (==_iff _ _).1 here, taken) (insert_ready_lem m₁ id sc t h hd e),
      inserted-Ready m₁ id sc t q here legal (Ready-ref r v) h hd l,
      refl,
      refl,
      refl,
      ground arith,
    )
