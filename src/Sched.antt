-- ===== src/Sched.antt =====
-- Scheduling contexts and the run queues of the CPUs: src/sc.cpp and include/sc.hpp. A CPU or a
-- scheduling context is a number; what the code keeps per CPU is a function of the CPU. The result
-- `none` is a failed assertion or an access through a null pointer. The locks are left out: each
-- operation on a queue is one step. The counters of help during IPC are left out.
pub mod Ready
pub mod Dequeue
pub mod Schedule
use hedron.Prelude.{
  ℕ, zero, suc, ◌+◌, ◌-◌, ◌%◌, ◌^◌, Bool, true, false, ◌&&◌, ◌||◌, not, bit_or, Option, none, some,
  List, ◌∷◌, if◌then◌else◌, ◌==◌, ltb,
}
use hedron.Word.{add64, sub64}
use hedron.Links.{Links, update, set_next, set_prev}
use hedron.Queue.{bind, link_last, unlink, clear}
use hedron.Refcount.{add_ref, del_rcu}

-- NUM_PRIORITIES, HZD_SCHED and HZD_RRQ
abbrev pub num_priorities : ℕ
num_priorities = 128

abbrev pub hzd_sched : ℕ
hzd_sched = 0x1

abbrev hzd_rrq : ℕ
hzd_rrq = 0x20

pub record Machine : Type 0 where
  -- of each scheduling context
  pub prio : ℕ → ℕ
  pub cpu : ℕ → ℕ
  pub ref : ℕ → ℕ
  pub time : ℕ → ℕ
  pub tsc : ℕ → ℕ
  pub links : Links
  -- of each CPU
  pub list : ℕ → ℕ → Option ℕ
  pub prio_top : ℕ → ℕ
  pub current : ℕ → ℕ
  pub rq : ℕ → Option ℕ
  pub hazard : ℕ → ℕ
  -- the NMIs sent and the objects handed to `Rcu::call`, newest first
  pub nmis : List ℕ
  pub rcu : List ℕ

-- A cell of a table with two indices is written.
abbrev update₂ {ℓ} : {A : Type ℓ} → (ℕ → ℕ → A) → ℕ → ℕ → A → ℕ → ℕ → A
update₂ f i j v k = if k == i then update (f i) j v else f k

-- The count goes up, or the operation gives up: `if (inc_ref) { … }`.
take_ref : Machine → ℕ → Bool → Option Machine
unfolding add_ref
take_ref m sc false = some m
take_ref m sc true =
    let (ok, r) = add_ref (m.ref sc) in
    if ok then some (record m { ref = update m.ref sc r }) else none

-- The list of its priority, `prio_top`, the reschedule hazard and the time stamp.
unfoldable pub inserted : Machine → ℕ → ℕ → ℕ → Links → Option ℕ → Machine
inserted m id sc t h hd =
    let p = m.prio sc in
    record m {
      links = h;
      list = update₂ m.list id p hd;
      prio_top = update m.prio_top id (if ltb (m.prio_top id) p then p else m.prio_top id);
      hazard =
          if ltb (m.prio (m.current id)) p
          then update m.hazard id (bit_or (m.hazard id) hzd_sched)
          else m.hazard;
      tsc = update m.tsc sc t;
    }

insert_ready : Machine → ℕ → ℕ → ℕ → Option Machine
unfolding inserted
insert_ready m id sc t =
    bind (link_last m.links (m.list id (m.prio sc)) sc) λ (h, hd). some (inserted m id sc t h hd)

-- `Sc::ready_enqueue(t, inc_ref)` on CPU `id`
unfoldable pub ready_enqueue : Machine → ℕ → ℕ → ℕ → Bool → Option Machine
unfolding take_ref insert_ready
ready_enqueue m id sc t inc_ref =
    if ltb (m.prio sc) num_priorities && m.cpu sc == id
    then bind (take_ref m sc inc_ref) (λ m'. insert_ready m' id sc t)
    else none

-- while (!list()[prio_top()] && prio_top()) prio_top()--
unfoldable pub settle : (ℕ → Option ℕ) → ℕ → ℕ
settle l zero = zero
settle l (suc p) = elim (l (suc p)) [ none ↦ settle l p | some _ ↦ suc p ]

points_to : Option ℕ → ℕ → Bool
points_to none a = false
points_to (some b) a = b == a

-- Out of its list, whose next context may be the first one now; `prio_top` settles.
unfoldable pub dequeued : Machine → ℕ → ℕ → ℕ → ℕ → ℕ → Machine
unfolding unlink clear points_to
dequeued m id sc t nx pv =
    let p = m.prio sc in
    let first =
      if points_to (m.list id p) sc then (if nx == sc then none else some nx) else m.list id p in
    let lists = update₂ m.list id p first in
    record m {
      list = lists;
      links = clear (unlink m.links sc nx pv) sc;
      prio_top = update m.prio_top id (settle (lists id) (m.prio_top id));
      tsc = update m.tsc sc t;
    }

-- `Sc::ready_dequeue(t)` on CPU `id`
unfoldable pub ready_dequeue : Machine → ℕ → ℕ → ℕ → Option Machine
unfolding dequeued
ready_dequeue m id sc t =
    if ltb (m.prio sc) num_priorities && m.cpu sc == id
    then bind (m.links.prev sc)
        (λ pv. bind (m.links.next sc) (λ nx. some (dequeued m id sc t nx pv)))
    else none

-- `Rcu::call`
abbrev rcu_call : Machine → ℕ → Machine
rcu_call m sc = record m { rcu = sc ∷ m.rcu }

-- The current context goes back to its list, or gives up its reference.
put_back : Machine → ℕ → ℕ → Bool → Option Machine
unfolding ready_enqueue del_rcu
put_back m id t false = ready_enqueue m id (m.current id) t false
put_back m id t true =
    let (gone, r) = del_rcu (m.ref (m.current id)) in
    let m' = record m { ref = update m.ref (m.current id) r } in
    some (if gone then rcu_call m' (m.current id) else m')

-- The first context of the highest list becomes the current one.
pick : Machine → ℕ → ℕ → Option Machine
unfolding ready_dequeue
pick m id t =
    bind (m.list id (m.prio_top id))
      λ sc. ready_dequeue (record m { current = update m.current id sc }) id sc t

-- `current()->prev` is no null pointer.
is_linked : Machine → ℕ → Bool
is_linked m sc = elim (m.links.prev sc) [ none ↦ false | some _ ↦ true ]

-- `Sc::schedule(suspend)` on CPU `id` at time `t`, up to the activation of the chosen context's
-- execution context
unfoldable pub schedule : Machine → ℕ → ℕ → Bool → Option Machine
unfolding put_back pick is_linked
schedule m id t suspend =
    let c = m.current id in
    let ready = suspend || not (is_linked m c) in
    let m' = record m { time = update m.time c (add64 (m.time c) (sub64 t (m.tsc c))) } in
    if ready then bind (put_back m' id t suspend) (λ m''. pick m'' id t) else none

-- A context of another CPU goes to the end of that CPU's remote queue.
enqueue_remote : Machine → ℕ → Option Machine
enqueue_remote m sc =
    let c = m.cpu sc in
    bind (link_last m.links (m.rq c) sc) λ (h, hd).
      (let m' = record m { links = h; rq = update m.rq c hd } in
        some (elim (m.rq c) [
          | none ↦ record m' {
            hazard = update m.hazard c (bit_or (m.hazard c) hzd_rrq);
            nmis = c ∷ m.nmis;
          }
          | some _ ↦ m'
        ]))

-- `Sc::remote_enqueue(inc_ref)` on CPU `id`
unfoldable pub remote_enqueue : Machine → ℕ → ℕ → ℕ → Bool → Option Machine
unfolding ready_enqueue take_ref enqueue_remote
remote_enqueue m id sc t inc_ref =
    if m.cpu sc == id
    then ready_enqueue m id sc t inc_ref
    else bind (take_ref m sc inc_ref) λ m'. enqueue_remote m' sc

-- for (ptr = rq().queue; ptr;): the first context leaves the circle, and goes to its list.
drain : ℕ → Machine → ℕ → ℕ → Option ℕ → Option Machine
unfolding unlink ready_enqueue
drain n m id t none = some m
drain zero m id t (some p) = none
drain (suc n) m id t (some p) = bind (m.links.next p) λ nx. bind (m.links.prev p) λ pv.
    (let m' = record m { links = unlink m.links p nx pv } in
      bind (ready_enqueue m' id p t false)
        λ m''. drain n m'' id t (if nx == p then none else some nx))

-- `Sc::rrq_handler` on CPU `id`, for a remote queue of at most `n` contexts
unfoldable pub rrq_handler : ℕ → Machine → ℕ → ℕ → Option Machine
unfolding drain
rrq_handler n m id t =
    bind (drain n m id t (m.rq id)) λ m'. some (record m' { rq = update m'.rq id none })
