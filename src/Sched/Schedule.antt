-- ===== src/Sched/Schedule.antt =====
-- `Sc::schedule`: the first context of the highest priority in use runs next, in turn with its equals.
use hedron.Prelude.{
  ℕ, ◌<◌, false, none, some, List, [], ◌∷◌, ◌++◌, ◌≡◌, ◌≢◌, inl, inr, refl, arith, sym, subst, ap,
  ◌∙◌, All,
}
use native.Mathlib.Decide.{dec_lt}
use hedron.Word.{add64, sub64}
use hedron.Links.{update}
use hedron.Links.Ring.{NotIn, Holds}
use hedron.Queue.Refine.{unlink-Unlinked}
use hedron.Sched.Ready.{Ready, Belongs, replace, update_self, ready_enqueue-Ready}
use hedron.Sched.{Machine, num_priorities, dequeued, ready_enqueue, schedule, pick, is_linked}
use hedron.Sched.Dequeue.{dequeued-Ready, ready_dequeue_lem}

-- What `pick` does where the highest list has a context.
record Picked (m : Machine) (id t : ℕ) (q : ℕ → List ℕ) (sc : ℕ) (rest : List ℕ) (m' : Machine)
    : Type 0 where
  top : m.prio sc ≡ m.prio_top id
  first : q (m.prio sc) ≡ sc ∷ rest
  runs : pick m id t ≡ some m'
  current : m'.current id ≡ sc
  ready : Ready m' id (replace q (m.prio sc) rest)
  time : m'.time ≡ m.time

pick-Picked :
    (m : Machine) (id t : ℕ) (q : ℕ → List ℕ) (xs : List ℕ)
    → Ready m id q
    → q (m.prio_top id) ≡ xs
    → xs ≢ []
    → (sc : ℕ) × (rest : List ℕ) × (m' : Machine) × Picked m id t q sc rest m'
unfolding pick dequeued
pick-Picked m id t q [] v e ne = absurd (ne refl)
pick-Picked m id t q (sc ∷ rest) v e ne =
    let belongs = subst (All (Belongs m id (m.prio_top id))) e (v.owned (m.prio_top id)) in
    let listed = subst (Holds m.links (m.list id (m.prio_top id))) e (v.rings (m.prio_top id)) in
    let m₁ : Machine = record m { current = update m.current id sc } in
    let v₁ : Ready m₁ id q = record {
      rings = v.rings;
      owned = v.owned;
      above = v.above;
      exact = v.exact;
      small = v.small;
    } in
    let (n, p, u) = unlink-Unlinked m.links sc rest (refl, listed.1, listed.2) in
    let first : q (m.prio sc) ≡ sc ∷ rest = ap q belongs.0.0 ∙ e in
    (
      sc,
      rest,
      dequeued m₁ id sc t n p,
      record {
        top = belongs.0.0;
        first = first;
        runs = rw listed.0 (
            ready_dequeue_lem m₁ id sc t n p (rw belongs.0.0 v.small) belongs.0.1 u.next_eq
              u.prev_eq);
        current = update_self m.current id sc;
        ready = dequeued-Ready m₁ id sc t q rest v₁ first n p u;
        time = refl;
      },
    )

snoc-ne-nil : (xs : List ℕ) (a : ℕ) → xs ++ a ∷ [] ≢ []
snoc-ne-nil [] a e = cc
snoc-ne-nil (x ∷ xs) a e = cc

-- A context that is queued keeps the top list in use.
top_in_use :
    (m : Machine) (id p : ℕ) (q : ℕ → List ℕ) → Ready m id q → q p ≢ [] → q (m.prio_top id) ≢ []
top_in_use m id p q v ne e = elim v.exact [
  | inl z ↦ elim (dec_lt (m.prio_top id) p) [
    | yes lt ↦ ne (v.above p lt)
    | no ge ↦ let s : p ≡ m.prio_top id = omega arith in ne (ap q s ∙ e)
  ]
  | inr full ↦ full e
]

-- The time that the current context has run for is added to its account.
abbrev pub charge : Machine → ℕ → ℕ → ℕ → ℕ
charge m c t = update m.time c (add64 (m.time c) (sub64 t (m.tsc c)))

schedule_lem :
    (m m₂ m₃ : Machine) (id t : ℕ)
    → m.links.prev (m.current id) ≡ none
    → ready_enqueue (record m { time = charge m (m.current id) t }) id (m.current id) t false
      ≡ some m₂
    → pick m₂ id t ≡ some m₃
    → schedule m id t false ≡ some m₃
unfolding schedule
schedule_lem m m₂ m₃ id t off e k = rw (off, is_linked) (rw e k)

-- A CPU that schedules without suspending: the current context `c`, which is in no list, is charged for the
-- time that it ran and queued behind its equals. Then a context of the highest priority in use becomes
-- the current one, the one that has waited longest, and it alone leaves its queue.
pub schedule_runs_highest :
    (m : Machine) (id t : ℕ) (q : ℕ → List ℕ)
    → Ready m id q
    → m.cpu (m.current id) ≡ id
    → m.prio (m.current id) < num_priorities
    → NotIn (m.current id) (q (m.prio (m.current id)))
    → m.links.prev (m.current id) ≡ none
    → let c = m.current id in
      let q' = replace q (m.prio c) (q (m.prio c) ++ c ∷ []) in
      (m' : Machine) × (sc : ℕ) × (rest : List ℕ) × (schedule m id t false ≡ some m')
      × (m'.current id ≡ sc)
      × (q' (m.prio sc) ≡ sc ∷ rest)
      × ((p : ℕ) → m.prio sc < p → q' p ≡ [])
      × Ready m' id (replace q' (m.prio sc) rest)
      × (m'.time ≡ charge m c t)
schedule_runs_highest m id t q v here legal fresh off =
    let c = m.current id in
    let m₁ : Machine = record m { time = charge m c t } in
    let v₁ : Ready m₁ id q = record {
      rings = v.rings;
      owned = v.owned;
      above = v.above;
      exact = v.exact;
      small = v.small;
    } in
    let (m₂, e, v₂, sp, sc', st, _) =
      ready_enqueue-Ready m₁ id c t false q v₁ here legal fresh (inl refl) in
    let q' = replace q (m.prio c) (q (m.prio c) ++ c ∷ []) in
    let used =
      top_in_use m₂ id (m.prio c) q' v₂
        (λ x. snoc-ne-nil (q (m.prio c)) c (sym (update_self q (m.prio c) _) ∙ x)) in
    let (sc, rest, m₃, k) = pick-Picked m₂ id t q' (q' (m₂.prio_top id)) v₂ refl used in
    let ps : m.prio sc ≡ m₂.prio sc = ap (λ (f : ℕ → ℕ). f sc) (sym sp) in
    (
      m₃,
      sc,
      rest,
      schedule_lem m m₂ m₃ id t off e k.runs,
      k.current,
      ap q' ps ∙ k.first,
      λ p lt. v₂.above p (omega (arith, ps, k.top)),
      rw ps k.ready,
      k.time ∙ st,
    )
