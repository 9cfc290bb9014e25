-- ===== src/Ipc/Linked.antt =====
-- The bonds between callers and the contexts that serve them, and the references that the bonds hold.
use hedron.Prelude.{
  ℕ, zero, suc, ◌+◌, ◌-◌, ◌^◌, ◌<◌, ◌≤◌, ◌≡◌, ◌≢◌, inl, inr, refl, sym, ap, ◌∙◌, arith, Bool, true,
  false, not, Option, none, some, Option-cases, ◌==◌,
}
use mathlib.Core.Option.{none-ne-some}
use hedron.Links.{update}
use hedron.Sched.Ready.{update_cases}
use hedron.Registers.{Regs}
use hedron.Utcb.{Utcb}
use hedron.Refcount.{add_ref, del_ref, del_rcu}
use hedron.Ipc.State.{Cont, is_null, Ipc, Next, chain_end, blocked}
use hedron.Ipc.State.Next.{to_user, sysexit, finishes, blocks, schedules, waits, panicked, spins}

abbrev pub one_if : Bool → ℕ
one_if true = 1
one_if false = 0

-- What the bonds and the CPU hold of a context.
abbrev pub holds {ℓ} : {W : Type ℓ} → Ipc W → ℕ → ℕ
holds k e =
    one_if (not (is_null (k.partner e)))
    + one_if (not (is_null (k.rcap e)))
    + one_if (e == k.current)

-- A context waits for another exactly when that serves it; a context that serves has a continuation and is not
-- global; one without a continuation waits for none; the chains of calls fall in rank; and each
-- context is referenced for its bonds, for running, and once more.
pub record Linked {ℓ} {W : Type ℓ} (k : Ipc W) (rank : ℕ → ℕ) : Type 0 where
  pub calls : (e p : ℕ) → k.partner e ≡ some p → k.rcap p ≡ some e
  pub called : (e p : ℕ) → k.rcap p ≡ some e → k.partner e ≡ some p
  pub busy : (e p : ℕ) → k.rcap p ≡ some e → k.cont p ≢ none
  pub idle : (e : ℕ) → k.cont e ≡ none → k.partner e ≡ none
  pub falls : (e p : ℕ) → k.partner e ≡ some p → rank p < rank e
  pub local : (e p : ℕ) → k.rcap p ≡ some e → k.glb p ≡ false
  pub held : (e : ℕ) → holds k e < k.ref e

-- The current context can run: it waits for none and has a continuation.
pub record Runs {ℓ} {W : Type ℓ} (k : Ipc W) : Type 0 where
  pub leaf : k.partner k.current ≡ none
  pub ready : k.cont k.current ≢ none

-- The reference counts are `n` and more below their limit.
abbrev pub Room {ℓ} : {W : Type ℓ} → Ipc W → ℕ → Type 0
Room k n = (e : ℕ) → k.ref e + n < 2 ^ 32

-- An operation that ends well: no assertion fails, the bonds are in order, and a context that runs can.
abbrev pub Fine {ℓ} : {W : Type ℓ} → Next W → Type 0
Fine (to_user ec k) = ((rank : ℕ → ℕ) × Linked k rank) × Runs k × (k.current ≡ ec)
Fine (sysexit k) = ((rank : ℕ → ℕ) × Linked k rank) × Runs k
Fine (finishes _ k) = ((rank : ℕ → ℕ) × Linked k rank) × Runs k
Fine (blocks ec k) =
    ((rank : ℕ → ℕ) × Linked k rank) × (k.partner ec ≡ none) × (blocked k ec ≡ true)
Fine (schedules k) = (rank : ℕ → ℕ) × Linked k rank
Fine (waits k) = (rank : ℕ → ℕ) × Linked k rank
Fine panicked = ⊥
Fine spins = ⊥

-- The parts of a state that the bonds are read from.
pub Linked-frame {ℓ κ} :
    {W : Type ℓ} {V : Type κ} (k : Ipc W) (k' : Ipc V) (rank : ℕ → ℕ)
    → k'.rcap ≡ k.rcap
    → k'.partner ≡ k.partner
    → k'.glb ≡ k.glb
    → ((e p : ℕ) → k.rcap p ≡ some e → k'.cont p ≢ none)
    → ((e : ℕ) → k'.cont e ≡ none → k.partner e ≡ none)
    → ((e : ℕ) → holds k' e < k'.ref e)
    → Linked k rank
    → Linked k' rank
Linked-frame k k' rank rc pa gl busy idle held v = record {
  calls = λ e p h. rw rc (v.calls e p (ap (λ f. f e) (sym pa) ∙ h));
  called = λ e p h. rw pa (v.called e p (ap (λ f. f p) (sym rc) ∙ h));
  busy = λ e p h. busy e p (ap (λ f. f p) (sym rc) ∙ h);
  idle = λ e h. ap (λ f. f e) pa ∙ idle e h;
  falls = λ e p h. v.falls e p (ap (λ f. f e) (sym pa) ∙ h);
  local = λ e p h. ap (λ f. f p) gl ∙ v.local e p (ap (λ f. f p) (sym rc) ∙ h);
  held = held;
}

-- A context may get any continuation.
pub set_cont-Linked {ℓ} :
    {W : Type ℓ} (k : Ipc W) (rank : ℕ → ℕ) (ec : ℕ) (c : Option Cont)
    → c ≢ none
    → Linked k rank
    → Linked (record k { cont = update k.cont ec c }) rank
set_cont-Linked k rank ec c given v =
    Linked-frame k _ rank refl refl refl
      (λ e p h u. elim (update_cases k.cont ec p c none u) [
        | inl (_, y) ↦ given y
        | inr (_, y) ↦ v.busy e p h y
      ])
      (λ e u. elim (update_cases k.cont ec e c none u) [
        | inl (_, y) ↦ absurd (given y)
        | inr (_, y) ↦ v.idle e y
      ])
      v.held v

pub set_cont-Runs {ℓ} :
    {W : Type ℓ} (k : Ipc W) (ec : ℕ) (c : Option Cont)
    → c ≢ none
    → Runs k
    → Runs (record k { cont = update k.cont ec c })
set_cont-Runs k ec c given r = record {
  leaf = r.leaf;
  ready = λ u. elim (update_cases k.cont ec k.current c none u) [
    | inl (_, y) ↦ given y
    | inr (_, y) ↦ r.ready y
  ];
}

pub some_given {ℓ} : {A : Type ℓ} (a : A) → some a ≢ none
some_given a e = none-ne-some a (sym e)

-- The states that operations start from: the bonds are in order, the current context can run, no count is near
-- its limit, and `f` is above each rank.
pub record Sound {ℓ} {W : Type ℓ} (k : Ipc W) (rank : ℕ → ℕ) (f : ℕ) : Type 0 where
  pub linked : Linked k rank
  pub runs : Runs k
  pub room : Room k 3
  pub low : (e : ℕ) → rank e < f

pub set_cont-Sound {ℓ} :
    {W : Type ℓ} (k : Ipc W) (rank : ℕ → ℕ) (f ec : ℕ) (c : Option Cont)
    → c ≢ none
    → Sound k rank f
    → Sound (record k { cont = update k.cont ec c }) rank f
set_cont-Sound k rank f ec c given v = record {
  linked = set_cont-Linked k rank ec c given v.linked;
  runs = set_cont-Runs k ec c given v.runs;
  room = v.room;
  low = v.low;
}

-- The registers, the pages, the counters and the rest are free.
pub Sound-frame {ℓ} :
    {W : Type ℓ} (k : Ipc W) (rank : ℕ → ℕ) (f : ℕ) (regs : ℕ → Regs) (utcb : ℕ → Utcb) (n : ℕ)
    (w : W)
    → Sound k rank f
    → Sound (record k { regs = regs; utcb = utcb; ctr_loop = n; rest = w }) rank f
Sound-frame k rank f regs utcb n w v =
    let l = v.linked in
    let r = v.runs in
    record {
      linked = Linked-frame k _ rank refl refl refl l.busy l.idle l.held l;
      runs = record { leaf = r.leaf; ready = r.ready };
      room = v.room;
      low = v.low;
    }

pub add_ref_held : (r : ℕ) → 0 < r → r + 1 < 2 ^ 32 → add_ref r ≡ (true, r + 1)
unfolding add_ref
add_ref_held r h l = ground arith

pub del_ref_held : (r : ℕ) → 1 < r → r < 2 ^ 32 → del_ref r ≡ (false, r - 1)
unfolding del_ref
del_ref_held r h l = ground arith

pub del_rcu_held : (r : ℕ) → 1 < r → r < 2 ^ 32 → del_rcu r ≡ (false, r - 1)
unfolding del_rcu
del_rcu_held r h l = ground arith

-- The context that is reached from another along `d` bonds.
abbrev pub follow : ℕ → (ℕ → Option ℕ) → ℕ → Option ℕ
follow zero partner e = some e
follow (suc d) partner e = elim (partner e) [ none ↦ none | some p ↦ follow d partner p ]

-- The loop of `activate` ends, when the ranks fall along the bonds and its fuel is above the rank of its first
-- context. It finds the context that is reached from the first along some number of bonds, no more
-- than that rank, and that waits for none, and it adds exactly this number to its count.
pub chain_end_lem {ℓ} :
    {W : Type ℓ} (k : Ipc W) (rank : ℕ → ℕ) (f e n : ℕ)
    → Linked k rank
    → rank e < f
    → (last d : ℕ) × (chain_end f k.partner e n ≡ some (last, n + d))
      × (follow d k.partner e ≡ some last)
      × (k.partner last ≡ none)
      × (d ≤ rank e)
unfolding chain_end
chain_end_lem k rank zero e n v h = absurd (omega arith)
chain_end_lem k rank (suc f) e n v h = elim (Option-cases (k.partner e)) [
  | inl x ↦ (e, 0, rw (x, chain_end) (ap (λ m. some (e, m)) (omega arith)), refl, x, omega arith)
  | inr (p, x) ↦
      let lower = v.falls e p x in
      let (last, d, eq, way, end, bound) = chain_end_lem k rank f p (n + 1) v (omega arith) in
      (
        last,
        suc d,
        rw (x, chain_end) (eq ∙ ap (λ m. some (last, m)) (omega arith)),
        rw (follow, x) way,
        end,
        omega arith,
      )
]
