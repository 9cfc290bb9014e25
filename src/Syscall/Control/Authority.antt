-- ===== src/Syscall/Control/Authority.antt =====
-- Calls without the capability that they need.
use hedron.Prelude.{
  ℕ, zero, suc, ◌≡◌, ◌≢◌, ◌⊎◌, inl, inr, refl, ap, Bool, true, false, Option, none, Bool-cases,
  ◌==◌,
}
use hedron.Word.{has_bits}
use hedron.Capability.{Capability, KobjectType, cast, obj}
use hedron.Syscall.{Kernel, Exit, Status, status_code, id, flags, sel, sys_finish, lookup, object}
use hedron.Syscall.Exit.{returned}
use hedron.Syscall.Status.{success, bad_cap, bad_par}
use hedron.Syscall.Services.{Services}
use hedron.Syscall.Create.{
  with_object, fail_if, is_passthrough, create_pd, create_ec, create_sc, create_pt, create_sm,
  create_kp, create_vcpu,
}
use hedron.Syscall.Create.Outcome.{sys_finish_lem, bad_cap-ne, bad_par-ne, bad_cpu-ne}
use hedron.Syscall.PdControl.{
  op, sys_revoke, sys_pd_ctrl, sys_pd_ctrl_delegate, sys_pd_ctrl_msr_access,
}
use hedron.Syscall.Control.{
  sys_call, sys_reply, syscall_handler, sys_sc_ctrl, sys_pt_ctrl, sys_sm_ctrl, sys_kp_ctrl,
  sys_kp_ctrl_map, sys_kp_ctrl_unmap, sys_vcpu_ctrl, sys_vcpu_ctrl_run, sys_vcpu_ctrl_poke,
  sys_machine_ctrl,
}

-- A domain without a capability and without passthrough access, and a context with no virtual CPU.
pub record Powerless {ℓ} {W : Type ℓ} (k : Kernel W) : Type ℓ where
  pub idle : k.vcpu ≡ none
  pub no_caps : (i : ℕ) → (k.slots i).value ≡ 0
  pub plain : is_passthrough (k.heap k.pd) ≡ false

-- The call returns an error, and changes nothing but the register of the status.
unfoldable pub Fails {ℓ} : {W : Type ℓ} → Kernel W → Exit W → Type ℓ
Fails k e = (st : Status) × (st ≢ success) × (e ≡ returned (record k { arg_1 = status_code st }))

-- The calls that act on an object that the caller names or on the machine.
pub data Guarded {ℓ} {W : Type ℓ} (k : Kernel W) : Type ℓ where
  calls : id k ≡ 0 → Guarded k
  replies : id k ≡ 1 → Guarded k
  creates_pd : id k ≡ 2 → Guarded k
  creates_ec : id k ≡ 3 → Guarded k
  creates_sc : id k ≡ 4 → Guarded k
  creates_pt : id k ≡ 5 → Guarded k
  creates_sm : id k ≡ 6 → Guarded k
  creates_kp : id k ≡ 16 → Guarded k
  creates_vcpu : id k ≡ 19 → Guarded k
  revokes_remotely : id k ≡ 7 → has_bits (flags k) 0x2 ≡ true → Guarded k
  delegates : id k ≡ 8 → op k ≡ 2 → Guarded k
  accesses_msr : id k ≡ 8 → op k ≡ 3 → Guarded k
  controls_sc : id k ≡ 10 → Guarded k
  controls_pt : id k ≡ 11 → Guarded k
  controls_sm : id k ≡ 12 → Guarded k
  controls_kp : id k ≡ 17 → Guarded k
  controls_vcpu : id k ≡ 20 → Guarded k
  controls_machine : id k ≡ 15 → Guarded k

null_cast :
    (type_of : ℕ → KobjectType) (t : KobjectType) (c : Capability) (r : ℕ)
    → c.value ≡ 0
    → cast type_of t c r ≡ none
unfolding cast obj
null_cast type_of t c r h = ap (λ v. cast type_of t (record { value = v }) r) h

module _ {ℓ} {W : Type ℓ} (s : Services W) (k : Kernel W) (p : Powerless k) where
  no_object : (t : KobjectType) (i r : ℕ) → object k t i r ≡ none
  unfolding object lookup
  no_object t i r = null_cast _ t _ r (p.no_caps _)

  finish-Fails : (st : Status) → st ≢ success → Fails k (sys_finish st k)
  unfolding Fails
  finish-Fails st h = (st, h, sys_finish_lem st k p.idle)

  with-Fails :
      (t : KobjectType) (i r : ℕ) (next : ℕ → Exit W)
      → Fails k (with_object k (object k t i r) next)
  unfolding with_object
  with-Fails t i r next = rw (no_object t i r) (finish-Fails bad_cap bad_cap-ne)

  fail_if-Fails :
      (b : Bool) (st : Status) (next : Exit W)
      → st ≢ success
      → Fails k next
      → Fails k (fail_if k b st next)
  unfolding fail_if
  fail_if-Fails true st next h f = finish-Fails st h
  fail_if-Fails false st next h f = f

  reply-none : sys_reply s k ≡ s.reply none k
  unfolding sys_reply
  reply-none =
      rw (sys_reply, no_object KobjectType.sm (sel k) 0)
        (elim (Bool-cases (sel k == 0)) [ inl e ↦ rw e refl | inr e ↦ rw e refl ])

  msr-Fails : Fails k (sys_pd_ctrl_msr_access s k)
  unfolding sys_pd_ctrl_msr_access fail_if
  msr-Fails = rw p.plain (finish-Fails bad_cap bad_cap-ne)

  machine-Fails : Fails k (sys_machine_ctrl s k)
  unfolding sys_machine_ctrl fail_if
  machine-Fails = rw p.plain (finish-Fails bad_cap bad_cap-ne)

  kp-Fails : Fails k (sys_kp_ctrl s k)
  unfolding sys_kp_ctrl sys_kp_ctrl_map sys_kp_ctrl_unmap
  kp-Fails =
      elim (op k)
        as (λ o. Fails k (elim o [
          | zero ↦ sys_kp_ctrl_map s k
          | suc zero ↦ sys_kp_ctrl_unmap s k
          | suc (suc _) ↦ sys_finish bad_par k
        ])) [
          | zero ↦ with-Fails _ _ _ _
          | suc zero ↦ with-Fails _ _ _ _
          | suc (suc _) ↦ finish-Fails bad_par bad_par-ne
        ]

  vcpu-Fails : Fails k (sys_vcpu_ctrl s k)
  unfolding sys_vcpu_ctrl sys_vcpu_ctrl_run sys_vcpu_ctrl_poke
  vcpu-Fails =
      elim (op k)
        as (λ o. Fails k (elim o [
          | zero ↦ sys_vcpu_ctrl_run s k
          | suc zero ↦ sys_vcpu_ctrl_poke s k
          | suc (suc _) ↦ sys_finish bad_par k
        ])) [
          | zero ↦ with-Fails _ _ _ _
          | suc zero ↦ with-Fails _ _ _ _
          | suc (suc _) ↦ finish-Fails bad_par bad_par-ne
        ]

-- In a domain without a capability and without passthrough access, from a context that has no virtual CPU,
-- a call returns an error to its caller and changes nothing but the register of the status, when
-- it calls a portal, creates an object, controls a scheduling context, a portal, a semaphore, a
-- kernel page, a virtual CPU or the machine, delegates, revokes from another domain, or accesses an MSR.
-- A reply, which is no error without its optional semaphore, goes on as one that names none.
pub Powerless-refused {ℓ} :
    {W : Type ℓ} (s : Services W) (k : Kernel W) (a : Option ℕ)
    → Powerless k
    → Guarded k
    → Fails k (syscall_handler s k a) ⊎ ((id k ≡ 1) × (syscall_handler s k a ≡ s.reply none k))
unfolding create_pd create_ec create_sc create_pt create_sm create_kp create_vcpu sys_revoke
    sys_pd_ctrl sys_pd_ctrl_delegate sys_sc_ctrl sys_pt_ctrl sys_sm_ctrl sys_call sys_reply
    syscall_handler
Powerless-refused s k a p (calls i) = inl (rw (syscall_handler, i) (with-Fails s k p _ _ _ _))
Powerless-refused s k a p (replies i) = inr (i, rw (syscall_handler, i) (reply-none s k p))
Powerless-refused s k a p (creates_pd i) = inl (rw (syscall_handler, i) (with-Fails s k p _ _ _ _))
Powerless-refused s k a p (creates_ec i) =
    inl (rw (syscall_handler, i) (fail_if-Fails s k p _ _ _ bad_cpu-ne (with-Fails s k p _ _ _ _)))
Powerless-refused s k a p (creates_sc i) = inl (rw (syscall_handler, i) (with-Fails s k p _ _ _ _))
Powerless-refused s k a p (creates_pt i) = inl (rw (syscall_handler, i) (with-Fails s k p _ _ _ _))
Powerless-refused s k a p (creates_sm i) = inl (rw (syscall_handler, i) (with-Fails s k p _ _ _ _))
Powerless-refused s k a p (creates_kp i) = inl (rw (syscall_handler, i) (with-Fails s k p _ _ _ _))
Powerless-refused s k a p (creates_vcpu i) =
    inl (rw (syscall_handler, i) (fail_if-Fails s k p _ _ _ bad_cpu-ne (with-Fails s k p _ _ _ _)))
Powerless-refused s k a p (revokes_remotely i f) =
    inl (rw (syscall_handler, i, sys_revoke, f) (with-Fails s k p _ _ _ _))
Powerless-refused s k a p (delegates i o) =
    inl (rw (syscall_handler, i, sys_pd_ctrl, o) (with-Fails s k p _ _ _ _))
Powerless-refused s k a p (accesses_msr i o) =
    inl (rw (syscall_handler, i, sys_pd_ctrl, o) (msr-Fails s k p))
Powerless-refused s k a p (controls_sc i) = inl (rw (syscall_handler, i) (with-Fails s k p _ _ _ _))
Powerless-refused s k a p (controls_pt i) = inl (rw (syscall_handler, i) (with-Fails s k p _ _ _ _))
Powerless-refused s k a p (controls_sm i) = inl (rw (syscall_handler, i) (with-Fails s k p _ _ _ _))
Powerless-refused s k a p (controls_kp i) = inl (rw (syscall_handler, i) (kp-Fails s k p))
Powerless-refused s k a p (controls_vcpu i) = inl (rw (syscall_handler, i) (vcpu-Fails s k p))
Powerless-refused s k a p (controls_machine i) = inl (rw (syscall_handler, i) (machine-Fails s k p))
