-- ===== src/Ipc/Answer.antt =====
-- An answer keeps the bonds in order: `reply`, `sys_reply` of src/syscall.cpp, `die` of src/ec.cpp.
use hedron.Prelude.{
  ℕ, ◌+◌, ◌<◌, ◌≤◌, ◌≡◌, ◌≢◌, inl, inr, refl, sym, ◌∙◌, arith, Bool, true, false, not, ◌&&◌, Option,
  none, some, Option-cases, if_intro, if◌then◌else◌, ◌==◌,
}
use hedron.Links.{update}
use hedron.Sched.Ready.{update_self, update_ne}
use hedron.Refcount.{last_ref}
use hedron.Ipc.State.{Items, is_sysexit, is_iret, Cont, Ipc, Services, return_to_user, activate}
use hedron.Syscall.{Status}
use hedron.Ipc.State.Cont.{sys_call, finish, dead}
use hedron.Ipc.State.Next.{schedules, waits, panicked}
use hedron.Utcb.{tcnt}
use hedron.Word.{shr}
use hedron.Ipc.Reply.{
  items_of, delegate, answered, named_sm, sys_reply, die, lowered, after_dn, reply,
}
use hedron.Ipc.Linked.{
  Sound, set_cont-Sound, Sound-frame, some_given, Linked, Runs, Room, Fine, Linked-frame,
}
use hedron.Ipc.Steps.{return_to_user-Fine, activate-Fine}
use hedron.Ipc.Release.{
  clr_partner_lem, released-Linked, stopped-Linked, released, stopped, caller_other, caller_ready,
}

-- The semaphore may take a reference to the caller.
abbrev raised : Bool → (ℕ → ℕ) → ℕ → ℕ → ℕ
raised taken ref ec = if taken then update ref ec (ref ec + 1) else ref

raised_bounds :
    (taken : Bool) (ref : ℕ → ℕ) (ec e : ℕ)
    → (ref e ≤ raised taken ref ec e) × (raised taken ref ec e ≤ ref e + 1)
raised_bounds true ref ec e = ground arith
raised_bounds false ref ec e = ground arith

module _ {ℓ} {W : Type ℓ} (s : Services W) (f : ℕ) (rank : ℕ → ℕ) where
  after_dn-Fine :
      (ec : ℕ) (clr returns : Bool) (k : Ipc W)
      → Linked k rank
      → Room k 2
      → rank k.sc_ec < f
      → k.partner ec ≡ none
      → k.cont ec ≢ none
      → Fine (after_dn s f ec clr (returns, k))
  unfolding after_dn
  after_dn-Fine ec clr returns k v room h leaf ready =
      if_intro Fine (not returns) (waits k) _ (λ _. (rank, v))
        (λ _.
          if_intro Fine (not clr) (activate s f k.sc_ec k) (return_to_user s ec k)
            (λ _. activate-Fine k rank v room s f k.sc_ec h)
            (λ _. return_to_user-Fine k rank v room s ec leaf ready))

  lowered-Fine :
      (sm : Option ℕ) (ec : ℕ) (clr : Bool) (k : Ipc W)
      → Linked k rank
      → Room k 3
      → rank k.sc_ec < f
      → k.partner ec ≡ none
      → k.cont ec ≢ none
      → Fine (after_dn s f ec clr (lowered s sm ec clr k))
  unfolding lowered
  lowered-Fine none ec clr k v room h leaf ready =
      after_dn-Fine ec clr true k v (λ e. let r = room e in omega arith) h leaf ready
  lowered-Fine (some sm) ec clr k v room h leaf ready =
      let (returns, next, taken, w) = s.dn sm ec clr k.next k.rest in
      let k' : Ipc W = record k { next = next; ref = raised taken k.ref ec; rest = w } in
      after_dn-Fine ec clr returns k'
        (Linked-frame k k' rank refl refl refl v.busy v.idle
          (λ e. let (x, _) = raised_bounds taken k.ref ec e in let y = v.held e in omega arith) v)
        (λ e. let (_, x) = raised_bounds taken k.ref ec e in let y = room e in omega arith) h leaf
        ready

  -- A context that runs answers its caller, if it has one, and gives the CPU away.
  pub reply-Fine :
      (c : Option Cont) (sm : Option ℕ) (k : Ipc W)
      → Linked k rank
      → Runs k
      → Room k 3
      → rank k.sc_ec < f
      → Fine (reply s f c sm k)
  unfolding reply
  reply-Fine c sm k v runs room h =
      let me = k.current in
      let room' : Room k 2 = λ e. let r = room e in omega arith in
      elim (Option-cases (k.rcap me)) [
        | inl x ↦
            let v' = stopped-Linked k rank v runs c x in
            rw (x, Fine)
              (if_intro Fine (k.glb me) (schedules (stopped k rank v runs c)) _ (λ _. (rank, v'))
                (λ _. activate-Fine (stopped k rank v runs c) rank v' room' s f k.sc_ec h))
        | inr (ec, x) ↦
            let v' = released-Linked k rank v runs ec x c in
            let k' = released k rank v runs ec x c in
            let d = caller_other k rank v runs ec x in
            rw
              (
                v.local ec me x,
                x,
                clr_partner_lem k rank v runs ec x c (λ e. let r = room e in omega arith),
                Fine,
              )
              (if_intro Fine ((k.sc_ec == ec) && last_ref k.sc_ref) (schedules k') _
                (λ _. (rank, v'))
                (λ _.
                  lowered-Fine sm ec (not (k.ctr_link == 0)) k' v'
                    (λ e. let r = room e in let r' = room ec in let r'' = room me in ground arith) h
                    (update_self k.partner ec none)
                    (λ e. caller_ready k rank v runs ec x (sym (update_ne k.cont me ec c d) ∙ e))))
      ]

-- Without a semaphore the answer runs the caller, unless its scheduling context is about to end or the call
-- was not the first of a chain.
pub reply_lem {ℓ} :
    {W : Type ℓ} (s : Services W) (f : ℕ) (c : Option Cont) (k : Ipc W) (rank : ℕ → ℕ)
    (v : Linked k rank) (runs : Runs k) (ec : ℕ) (serves : k.rcap k.current ≡ some ec)
    → Room k 0
    → ((k.sc_ec == ec) && last_ref k.sc_ref) ≡ false
    → (k.ctr_link == 0) ≡ false
    → reply s f c none k ≡ return_to_user s ec (released k rank v runs ec serves c)
unfolding reply lowered after_dn
reply_lem s f c k rank v runs ec serves room alone first =
    rw
      (
        reply,
        v.local ec k.current serves,
        serves,
        clr_partner_lem k rank v runs ec serves c room,
        alone,
        first,
      )
      refl

module _ {ℓ} {W : Type ℓ} (s : Services W) (f : ℕ) (rank : ℕ → ℕ) where
  reply-Sound :
      (c : Option Cont) (sm : Option ℕ) (k : Ipc W) → Sound k rank f → Fine (reply s f c sm k)
  reply-Sound c sm k v = reply-Fine s f rank c sm k v.linked v.runs v.room (v.low k.sc_ec)

  -- A context that dies aborts the call it serves.
  pub die-Fine : (k : Ipc W) → Sound k rank f → Fine (die s f k)
  unfolding die
  die-Fine k v = elim (Option-cases (k.rcap k.current)) [
    | inl x ↦ rw x (reply-Sound (some dead) none k v)
    | inr (ec, x) ↦ rw x (
        reply-Sound (some dead) none _ (
          set_cont-Sound k rank f ec
            (if is_sysexit (k.cont ec) then some (finish Status.com_abt) else some dead)
            (if_intro (λ o. o ≢ none) (is_sysexit (k.cont ec)) _ _ (λ _. some_given _)
              (λ _. some_given _))
            v))
  ]

  if-Sound :
      (b : Bool) (k k' : Ipc W)
      → Sound k rank f
      → Sound k' rank f
      → Sound (if b then k else k') rank f
  if-Sound true k k' v v' = v
  if-Sound false k k' v v' = v'

  delegate-Sound :
      (user : Bool) (src dst : ℕ) (k : Ipc W)
      → ((i : Items) (w : W) → s.xfer_items i w ≢ none)
      → Sound k rank f
      → (k' : Ipc W) × (delegate s user src dst k ≡ some k') × Sound k' rank f
  unfolding delegate
  delegate-Sound user src dst k ok v =
      elim (Option-cases (s.xfer_items (items_of user src dst k) k.rest)) [
        | inl x ↦ absurd (ok _ _ x)
        | inr ((u, w), x) ↦
            let pages = if user then update k.utcb dst u else k.utcb in
            let k' : Ipc W = record k { utcb = pages; rest = w } in
            (k', rw (delegate, x) refl, Sound-frame k rank f k.regs pages k.ctr_loop w v)
      ]

  answered-Sound : (ec : ℕ) (k : Ipc W) → Sound k rank f → Sound (answered s ec k) rank f
  unfolding answered
  answered-Sound ec k v =
      if-Sound (is_sysexit (k.cont ec)) _ _ (Sound-frame k rank f k.regs _ k.ctr_loop k.rest v)
        (if-Sound (is_iret (k.cont ec)) _ _ (Sound-frame k rank f _ k.utcb k.ctr_loop _ v) v)

  named_sm-Sound :
      (ec : ℕ) (sm : Option ℕ) (k : Ipc W) → Sound k rank f → Sound (named_sm s ec sm k) rank f
  unfolding named_sm
  named_sm-Sound ec none k v = v
  named_sm-Sound ec (some _) k v =
      if-Sound (is_sysexit (k.cont ec)) _ _
        (set_cont-Sound k rank f ec (some sys_call) (some_given sys_call) v) v

  -- The answer with its message.
  pub sys_reply-Fine :
      (k : Ipc W)
      → Sound k rank f
      → ((i : Items) (w : W) → s.xfer_items i w ≢ none)
      → Fine (sys_reply s f k)
  unfolding sys_reply
  sys_reply-Fine k v ok =
      let me = k.current in
      let sel = shr (k.regs me).rdi 12 in
      let sm = if sel == 0 then none else s.semaphore sel k.rest in
      elim (Option-cases (k.rcap me)) [
        | inl x ↦ rw (x, Fine) (reply-Sound none none k v)
        | inr (ec, x) ↦
            let k' = named_sm s ec sm k in
            let v' = named_sm-Sound ec sm k v in
            let (k'', y, v'') = delegate-Sound (is_sysexit (k'.cont ec)) me ec k' ok v' in
            rw (x, y, Fine)
              (if_intro
                (λ (o : Option (Ipc W)).
                  Fine (elim o [ none ↦ panicked | some q ↦ reply s f none sm (answered s ec q) ]))
                (tcnt (k.utcb me) == 0) (some k') (some k'')
                (λ _. reply-Sound none sm _ (answered-Sound ec k' v'))
                (λ _. reply-Sound none sm _ (answered-Sound ec k'' v'')))
      ]
