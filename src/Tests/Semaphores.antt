-- ===== src/Tests/Semaphores.antt =====
-- Semaphores at concrete states.
use hedron.Prelude.{
  ℕ, ◌+◌, ◌-◌, ◌<◌, ◌≡◌, ◌≢◌, ◌⊎◌, inl, ◌++◌, false, none, some, List, [], ◌∷◌, refl, arith,
  if◌then◌else◌, ◌==◌,
}
use hedron.Links.{update}
use hedron.Queue.{Queue}
use hedron.Sm.{Sm, dn, up}
use hedron.Sm.Down.{passed, dying, waiting}
use hedron.Sm.Fifo.{Waits, dn-Waits}
use hedron.Sm.Serve.{Upped, up_serves}

-- Contexts 1 and 2 wait; only the semaphore still holds context 1.
abbrev queued : Queue
queued = record {
  headptr = some 1;
  links = record {
    next = λ a. if a == 1 then some 2 else if a == 2 then some 1 else none;
    prev = λ a. if a == 1 then some 2 else if a == 2 then some 1 else none;
  };
}

abbrev contexts : List ℕ
contexts = 1 ∷ 2 ∷ []

abbrev sm : Sm
sm = record {
  counter = 0;
  queue = queued;
  refs = λ a. if a == 1 then 1 else 2;
  released = [];
  rcu = [];
}

sm-Waits : Waits sm contexts
sm-Waits = record { queued = ground arith; held = ground arith; empty = inl refl }

dn-Waits_example :
    ((s' : Sm) × (dn sm false 3 ≡ passed s')
      × (sm.counter ≢ 0)
      × (contexts ≡ [])
      × (s'.counter ≡ (if false then 0 else sm.counter - 1))
      × (s'.refs ≡ sm.refs)
      × Waits s' [])
    ⊎ (((s' : Sm) × (dn sm false 3 ≡ waiting s')
          × (sm.counter ≡ 0)
          × (0 < sm.refs 3)
          × (s'.refs ≡ update sm.refs 3 (sm.refs 3 + 1))
          × (s'.counter ≡ 0)
          × Waits s' (contexts ++ 3 ∷ []))
        ⊎ ((dn sm false 3 ≡ dying sm) × (sm.counter ≡ 0) × (sm.refs 3 ≡ 0)))
dn-Waits_example = dn-Waits sm false 3 contexts sm-Waits (ground arith) (omega arith)

up_serves_example : (s' : Sm) × (up 3 sm ≡ some s') × Upped sm contexts s'
up_serves_example = up_serves 3 sm contexts (omega arith) sm-Waits (omega arith)
