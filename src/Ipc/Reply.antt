-- ===== src/Ipc/Reply.antt =====
-- The answer to a call, and the end of a context: `reply`, `sys_reply`, `recv_user`, `recv_kern`, `delegate` of
-- src/syscall.cpp and `die` of src/ec.cpp.
use hedron.Prelude.{ℕ, ◌+◌, Bool, true, not, ◌&&◌, Option, none, some, if◌then◌else◌, ◌==◌}
use hedron.Word.{shr}
use hedron.Links.{update}
use hedron.Crd.{Crd, CrdType, make}
use hedron.Refcount.{last_ref}
use hedron.Utcb.{save, ti, tcnt}
use hedron.Utcb.Exception.{load_exc, save_exc}
use hedron.Syscall.{Status}
use hedron.Ipc.State.{
  Cont, is_sysexit, is_iret, Ipc, Next, Items, Services, clr_partner, return_to_user, activate,
}
use hedron.Ipc.State.Cont.{sys_call, finish, dead}
use hedron.Ipc.State.Next.{schedules, sysexit, waits, panicked}

-- `Crd(0)`
abbrev pub null_crd : Crd
null_crd = record { value = 0 }

-- what `delegate` gives to `xfer_items`; the windows of `dst` count if it is at a system call
abbrev pub items_of {ℓ} : {W : Type ℓ} → Bool → ℕ → ℕ → Ipc W → Items
items_of user src dst k =
    let fault = if is_iret (k.cont dst) then (k.regs dst).cr2 else 0 in
    record {
      src = k.pd src;
      dst = k.pd dst;
      xlt = if user then (k.utcb dst).xlt else null_crd;
      del = if user then (k.utcb dst).del else make CrdType.mem (shr fault 12) 0x1f 0x1f;
      from = k.utcb src;
      to = if user then some (k.utcb dst) else none;
      count = ti (k.utcb src);
    }

module _ {ℓ} {W : Type ℓ} (s : Services W) where
  -- The items go from `src` to `dst`.
  unfoldable pub delegate : Bool → ℕ → ℕ → Ipc W → Option (Ipc W)
  delegate user src dst k = elim (s.xfer_items (items_of user src dst k) k.rest) [
    | none ↦ none
    | some (u, w) ↦
        some (record k { utcb = if user then update k.utcb dst u else k.utcb; rest = w })
  ]

  -- the semaphore that is taken down for the caller
  unfoldable pub lowered : Option ℕ → ℕ → Bool → Ipc W → Bool × Ipc W
  lowered none ec clr k = (true, k)
  lowered (some sm) ec clr k =
      let (returns, next, taken, w) = s.dn sm ec clr k.next k.rest in
      (
        returns,
        record k {
          next = next;
          ref = if taken then update k.ref ec (k.ref ec + 1) else k.ref;
          rest = w;
        },
      )

  unfoldable pub after_dn : ℕ → ℕ → Bool → Bool × Ipc W → Next W
  after_dn f ec clr (returns, k) =
      if not returns
      then waits k
      else if not clr
      then activate s f k.sc_ec k
      else return_to_user s ec k

  -- `reply(c, sm)`, with fuel for the chain of calls
  unfoldable pub reply : ℕ → Option Cont → Option ℕ → Ipc W → Next W
  reply f c sm k =
      let k₁ = record k { cont = update k.cont k.current c } in
      if k.glb k.current then schedules k₁ else elim (k₁.rcap k.current) [
        | none ↦ activate s f k₁.sc_ec k₁
        | some ec ↦ elim (clr_partner ec k₁) [
          | none ↦ panicked
          | some (clr, k₂) ↦
              if (k₂.sc_ec == ec) && last_ref k₂.sc_ref
              then schedules k₂
              else after_dn f ec (not (clr == 0)) (lowered sm ec (not (clr == 0)) k₂)
        ]
      ]

  -- `die`, after its message
  unfoldable pub die : ℕ → Ipc W → Next W
  die f k =
      let aborted =
        λ (ec : ℕ). if is_sysexit (k.cont ec) then some (finish Status.com_abt) else some dead in
      reply f (some dead) none (elim (k.rcap k.current) [
        | none ↦ k
        | some ec ↦ record k { cont = update k.cont ec (aborted ec) }
      ])

  -- the state that `sys_reply` replies in: the message is with the caller
  unfoldable pub answered : ℕ → Ipc W → Ipc W
  answered ec k =
      let me = k.current in
      if is_sysexit (k.cont ec)
      then record k { utcb = update k.utcb ec (save (k.utcb me) (k.utcb ec)) }
      else if is_iret (k.cont ec)
      then (let (fpu, r) = save_exc (k.utcb me) (k.regs ec) in
          record k {
            regs = update k.regs ec r;
            rest = if fpu then s.transfer_fpu me ec k.rest else k.rest;
          })
      else k

  -- A semaphore that is named makes the caller call again, where it is at a system call.
  unfoldable pub named_sm : ℕ → Option ℕ → Ipc W → Ipc W
  named_sm ec none k = k
  named_sm ec (some _) k =
      if is_sysexit (k.cont ec) then record k { cont = update k.cont ec (some sys_call) } else k

  unfoldable pub sys_reply : ℕ → Ipc W → Next W
  sys_reply f k =
      let me = k.current in
      let sel = shr (k.regs me).rdi 12 in
      let sm = if sel == 0 then none else s.semaphore sel k.rest in
      elim (k.rcap me) [
        | none ↦ reply f none none k
        | some ec ↦
            let k' = named_sm ec sm k in
            elim (if tcnt (k.utcb me) == 0
              then some k'
              else delegate (is_sysexit (k'.cont ec)) me ec k') [
                | none ↦ panicked
                | some k'' ↦ reply f none sm (answered ec k'')
              ]
      ]

  -- The served context gets an exception's state: `recv_kern`.
  unfoldable pub recv_kern : Ipc W → Next W
  recv_kern k =
      let me = k.current in
      elim (k.rcap me) [
        | none ↦ panicked
        | some ec ↦
            let (fpu, u) = load_exc (k.utcb me) (k.regs ec) in
            if is_iret (k.cont ec)
            then sysexit (record k {
              utcb = update k.utcb me u;
              rest = if fpu then s.transfer_fpu ec me k.rest else k.rest;
            })
            else sysexit k
      ]

  -- The served context gets the words of the message and its items: `recv_user`.
  unfoldable pub recv_user : Ipc W → Next W
  recv_user k =
      let me = k.current in
      elim (k.rcap me) [
        | none ↦ panicked
        | some ec ↦
            let k' = record k { utcb = update k.utcb me (save (k.utcb ec) (k.utcb me)) } in
            elim (if tcnt (k.utcb ec) == 0 then some k' else delegate true ec me k') [
              | none ↦ panicked
              | some k'' ↦ sysexit k''
            ]
      ]
