-- ===== src/Ipc/Calls.antt =====
-- A call keeps the bonds in order: `sys_call` and `send_msg` of src/syscall.cpp, `help` of include/ec.hpp.
use hedron.Prelude.{
  ℕ, ◌+◌, ◌%◌, ◌^◌, ◌<◌, ◌≡◌, inl, inr, refl, arith, true, false, not, Option, none, some,
  Option-cases, Bool-cases, if_intro, ◌==◌, ==_iff, not-false, ltb,
}
use hedron.Word.{shr, has_bits}
use hedron.Links.{update}
use hedron.Syscall.{Status}
use hedron.Ipc.State.{Cont, is_null, is_dead, Ipc, Next, Portal, Services, xcpu}
use hedron.Ipc.State.Cont.{ret_user_sysexit, sys_call, send_msg, recv_user, recv_kern}
use hedron.Ipc.State.Next.{finishes}
use hedron.Ipc.Reply.{die}
use hedron.Ipc.Call.{bound, help, send_msg_step, sys_call_step}
use hedron.Ipc.Linked.{Fine, Sound, set_cont-Sound, Sound-frame, some_given}
use hedron.Ipc.Steps.{activate-Fine}
use hedron.Ipc.Bind.{bound-Fine}
use hedron.Ipc.Answer.{die-Fine}

module _ {ℓ} {W : Type ℓ} (s : Services W) (f : ℕ) (rank : ℕ → ℕ) where
  -- `help` goes on in order; it does not return unless the other context is dead.
  help-Fine :
      (ec : ℕ) (c : Cont) (k : Ipc W) (other : Next W)
      → Sound k rank f
      → Fine other
      → Fine (elim (help s f ec c k) [ none ↦ other | some n ↦ n ])
  unfolding help
  help-Fine ec c k other v o =
      let given = set_cont-Sound k rank f k.current (some c) (some_given c) v in
      let v' = Sound-frame _ rank f k.regs k.utcb ((k.ctr_loop + 1) % 2 ^ 32) k.rest given in
      let way : Option (Next W) → Type 0 = λ x. Fine (elim x [ none ↦ other | some n ↦ n ]) in
      if_intro way (is_dead (k.cont ec)) none _ (λ _. o)
        (λ _.
          if_intro way (ltb ((k.ctr_loop + 1) % 2 ^ 32) 100) _ _
            (λ _.
              activate-Fine _ rank v'.linked (λ e. let r = v'.room e in omega arith) s f ec
                (v'.low ec))
            (λ _. die-Fine s f rank _ v'))

  -- A context on the CPU that runs is not global.
  pub here-local :
      (k : Ipc W) (ec : ℕ)
      → k.cpu k.current < 2 ^ 16
      → not (k.cpu k.current == xcpu k ec) ≡ false
      → k.glb ec ≡ false
  unfolding xcpu
  here-local k ec small h = elim (Bool-cases (k.glb ec)) [
    | inl g ↦
        let e = (==_iff (k.cpu k.current) (xcpu k ec)).0 (not-false _ h) in
        let e' : xcpu k ec ≡ k.cpu ec + 2 ^ 16 = rw g refl in absurd (omega arith)
    | inr g ↦ g
  ]

  is_null-none : (o : Option Cont) → is_null o ≡ true → o ≡ none
  is_null-none none h = refl
  is_null-none (some _) h = cc

  bound-Sound :
      (mine its : Cont) (pt : Portal) (k : Ipc W)
      → Sound k rank f
      → k.cont pt.ec ≡ none
      → k.glb pt.ec ≡ false
      → Fine (bound s mine its pt k)
  bound-Sound mine its pt k v free here =
      bound-Fine s k rank mine its pt v.linked v.runs v.room free here

  -- A system call that calls a portal.
  pub sys_call_step-Fine :
      (k : Ipc W) → Sound k rank f → k.cpu k.current < 2 ^ 16 → Fine (sys_call_step s f k)
  unfolding sys_call_step
  sys_call_step-Fine k v small =
      let back : Fine (finishes Status.bad_cap k) = ((rank, v.linked), v.runs) in
      elim (Option-cases (s.portal (shr (k.regs k.current).rdi 12) k.rest)) [
        | inl x ↦ rw (x, Fine) back
        | inr (pt, x) ↦
            rw (x, Fine)
              (if_intro Fine (not (k.cpu k.current == xcpu k pt.ec)) _ _ (λ _. back)
                (λ cpu.
                  if_intro Fine (is_null (k.cont pt.ec)) _ _
                    (λ free.
                      bound-Sound ret_user_sysexit recv_user pt k v (is_null-none _ free)
                        (here-local k pt.ec small cpu))
                    (λ _.
                      if_intro Fine (has_bits (k.regs k.current).rdi 0x100) _ _ (λ _. back)
                        (λ _. help-Fine pt.ec sys_call k (finishes Status.com_tim k) v back))))
      ]

  -- The message of an exception.
  pub send_msg_step-Fine :
      (c : Cont) (k : Ipc W)
      → Sound k rank f
      → k.cpu k.current < 2 ^ 16
      → Fine (send_msg_step s f c k)
  unfolding send_msg_step
  send_msg_step-Fine c k v small =
      let me = k.current in
      let dies = die-Fine s f rank k v in
      elim (Option-cases (s.portal (k.evt me + (k.regs me).vec) k.rest)) [
        | inl x ↦ rw (x, Fine) dies
        | inr (pt, x) ↦
            let regs = update k.regs me (record (k.regs me) { mtd = pt.mtd }) in
            rw (x, Fine)
              (if_intro Fine (not (k.cpu me == xcpu k pt.ec)) _ _ (λ _. dies)
                (λ cpu.
                  if_intro Fine (is_null (k.cont pt.ec)) _ _
                    (λ free.
                      bound-Sound c recv_kern pt (record k { regs = regs })
                        (Sound-frame k rank f regs k.utcb k.ctr_loop k.rest v) (is_null-none _ free)
                        (here-local k pt.ec small cpu))
                    (λ _. help-Fine pt.ec (send_msg c) k (die s f k) v dies)))
      ]

-- A call of a context that waits for one.
pub sys_call_step_lem {ℓ} :
    {W : Type ℓ} (s : Services W) (f : ℕ) (k : Ipc W) (pt : Portal)
    → s.portal (shr (k.regs k.current).rdi 12) k.rest ≡ some pt
    → (k.cpu k.current == xcpu k pt.ec) ≡ true
    → k.cont pt.ec ≡ none
    → sys_call_step s f k ≡ bound s ret_user_sysexit recv_user pt k
unfolding sys_call_step
sys_call_step_lem s f k pt portal cpu free = rw (sys_call_step, portal, cpu, free) refl
