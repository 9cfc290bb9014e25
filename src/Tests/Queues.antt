-- ===== src/Tests/Queues.antt =====
-- Queues and the scheduler at concrete states.
use hedron.Prelude.{
  ℕ, ◌≡◌, ◌≢◌, inr, ◌<◌, ◌++◌, true, false, none, some, List, [], ◌∷◌, refl, arith, if◌then◌else◌,
  ◌==◌, ltb, bit_or,
}
use hedron.Links.{Links}
use hedron.Links.Ring.{NotIn}
use hedron.Queue.{Queue, head, enqueue, dequeue}
use hedron.Queue.Refine.{IsQueue, enqueue_appends, dequeue-head}
use hedron.Sched.{Machine, hzd_sched, ready_enqueue, schedule}
use hedron.Sched.Ready.{Ready, replace, ready_enqueue-Ready}
use hedron.Sched.Schedule.{charge, schedule_runs_highest}

-- Objects 1 and 2 in a circle.
abbrev pair_links : Links
pair_links = record {
  next = λ a. if a == 1 then some 2 else if a == 2 then some 1 else none;
  prev = λ a. if a == 1 then some 2 else if a == 2 then some 1 else none;
}

abbrev pair : Queue
pair = record { headptr = some 1; links = pair_links }

pair-IsQueue : IsQueue pair (1 ∷ 2 ∷ [])
pair-IsQueue = ground arith

enqueue_appends_example :
    (r : Queue) × (enqueue pair 3 ≡ some r)
    × IsQueue r ((1 ∷ 2 ∷ []) ++ 3 ∷ [])
    × ((k : ℕ)
        → NotIn k (1 ∷ 2 ∷ [])
        → k ≢ 3
        → (r.links.next k ≡ pair.links.next k) × (r.links.prev k ≡ pair.links.prev k))
enqueue_appends_example = enqueue_appends pair (1 ∷ 2 ∷ []) 3 pair-IsQueue (ground arith)

dequeue-head_example :
    let (ok, r) = dequeue pair (head pair) in
    (ok ≡ true) × IsQueue r (2 ∷ []) × (r.links.next 1 ≡ none) × (r.links.prev 1 ≡ none)
dequeue-head_example = dequeue-head pair 1 (2 ∷ []) pair-IsQueue

-- CPU 0 runs context 5 of priority 3; context 7 of priority 2 waits.
abbrev machine : Machine
machine = record {
  prio = λ sc. if sc == 5 then 3 else 2;
  cpu = λ sc. 0;
  ref = λ sc. 1;
  time = λ sc. 0;
  tsc = λ sc. 0;
  links = record {
    next = λ a. if a == 7 then some 7 else none;
    prev = λ a. if a == 7 then some 7 else none;
  };
  list = λ id p. if p == 2 then some 7 else none;
  prio_top = λ id. 2;
  current = λ id. 5;
  rq = λ id. none;
  hazard = λ id. 0;
  nmis = [];
  rcu = [];
}

abbrev waiting : ℕ → List ℕ
waiting p = if p == 2 then 7 ∷ [] else []

machine-Ready : Ready machine 0 waiting
machine-Ready = record {
  rings = λ p. ground arith;
  owned = λ p. ground arith;
  above = λ p h. ground arith;
  exact = inr (ground arith);
  small = omega arith;
}

ready_enqueue-Ready_example :
    (m' : Machine) × (ready_enqueue machine 0 5 100 true ≡ some m')
    × Ready m' 0 (replace waiting 3 (waiting 3 ++ 5 ∷ []))
    × (m'.prio ≡ machine.prio)
    × (m'.cpu ≡ machine.cpu)
    × (m'.time ≡ machine.time)
    × (m'.hazard 0 ≡ (
        if ltb (machine.prio 5) (machine.prio 5)
        then bit_or (machine.hazard 0) hzd_sched
        else machine.hazard 0))
ready_enqueue-Ready_example =
    ready_enqueue-Ready machine 0 5 100 true waiting machine-Ready refl (omega arith) tt
      (inr (omega arith))

schedule_runs_highest_example :
    let q' = replace waiting 3 (waiting 3 ++ 5 ∷ []) in
    (m' : Machine) × (sc : ℕ) × (rest : List ℕ) × (schedule machine 0 100 false ≡ some m')
    × (m'.current 0 ≡ sc)
    × (q' (machine.prio sc) ≡ sc ∷ rest)
    × ((p : ℕ) → machine.prio sc < p → q' p ≡ [])
    × Ready m' 0 (replace q' (machine.prio sc) rest)
    × (m'.time ≡ charge machine 5 100)
schedule_runs_highest_example =
    schedule_runs_highest machine 0 100 waiting machine-Ready refl (omega arith) tt refl
