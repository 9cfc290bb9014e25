-- ===== src/Syscall/Control.antt =====
-- The system calls that act on kernel objects, and the dispatch: src/syscall.cpp 636-947, their
-- registers as include/syscall.hpp reads them.
pub mod Authority
use hedron.Prelude.{
  ℕ, zero, suc, ◌+◌, ◌-◌, ◌*◌, ◌/◌, ◌%◌, ◌^◌, Bool, true, false, ◌&&◌, ◌||◌, not, bit_and, bit_or,
  Option, none, some, List, [], ◌∷◌, ◌⊎◌, inl, inr, if◌then◌else◌, ◌==◌, ltb, leb,
}
use hedron.Word.{word_mod, shl, shr, has_bits}
use hedron.Links.{update}
use hedron.Crd.{Crd, CrdType, Xfer, make, type, attr, order, base}
use hedron.Capability.{KobjectType}
use hedron.Syscall.{
  Kernel, Exit, Status, Kobject, KpObject, VcpuObject, Node, id, flags, sel, sys_finish, object,
  conflicts,
}
use hedron.Syscall.Exit.{switched, runs_vcpu, panicked}
use hedron.Syscall.Resume.{ret_user_sysexit, finishes}
use hedron.Syscall.Status.{success, bad_hyp, bad_cap, bad_par, oom}
use hedron.Syscall.Services.{Services, DelegateError}
use hedron.Syscall.Create.{
  with_object, fail_if, is_passthrough, create_pd, create_ec, create_sc, create_pt, create_sm,
  create_kp, create_vcpu,
}
use hedron.Syscall.Objects.{
  hold, drop, add_user_mapping, remove_user_mapping, Acquired, try_acquire, claim,
}
use hedron.Syscall.PdControl.{op, sys_revoke, sys_pd_ctrl}

module _ {ℓ} {W : Type ℓ} where
  unfoldable pub sys_ec_ctrl : Kernel W → Exit W
  sys_ec_ctrl k = if op k == 1 then switched ret_user_sysexit k else sys_finish bad_par k

  unfoldable pub sys_sc_ctrl : Services W → Kernel W → Exit W
  sys_sc_ctrl s k = with_object k (object k KobjectType.sc (sel k) 0x1) λ sc.
      (let v = s.sc_time sc k.world * 1000 % word_mod / s.freq_tsc k.world in
        sys_finish success (record k { arg_2 = shr v 32; arg_3 = v }))

  renamed : Kernel W → ℕ → Kobject → Kernel W
  renamed k p (Kobject.pt_object o) = record k {
    heap = update k.heap p (Kobject.pt_object (record o { id = k.arg_2 }));
  }
  renamed k p _ = k

  unfoldable pub sys_pt_ctrl : Kernel W → Exit W
  unfolding renamed
  sys_pt_ctrl k =
      with_object k (object k KobjectType.pt (sel k) 0x1)
        λ p. sys_finish success (renamed k p (k.heap p))

  sm_operated : Services W → Kernel W → ℕ → Kobject → Exit W
  sm_operated s k p (Kobject.sm_object c) =
      if bit_and (flags k) 0x1 == 0
      then (let (c', w) = s.sm_up p c k.world in
          sys_finish success
            (record k { heap = update k.heap p (Kobject.sm_object c'); world = w }))
      else (let (blocked, c', w) = s.sm_dn p (has_bits (flags k) 0x2) c k.world in
          let k' = record k { heap = update k.heap p (Kobject.sm_object c'); world = w } in
          if blocked then switched (finishes success) k' else sys_finish success k')
  sm_operated s k p _ = panicked

  -- The permission for `up` is the lowest bit, for `down` the next: `1U << r->op()`.
  unfoldable pub sys_sm_ctrl : Services W → Kernel W → Exit W
  unfolding sm_operated
  sys_sm_ctrl s k = with_object k (object k KobjectType.sm (sel k) (2 ^ bit_and (flags k) 0x1)) λ p.
      fail_if k (not (bit_or (shl k.arg_2 32) k.arg_3 == 0)) bad_par (sm_operated s k p (k.heap p))

  done_or_bad_par : Bool × Kernel W → Exit W
  done_or_bad_par (true, k) = sys_finish success k
  done_or_bad_par (false, k) = sys_finish bad_par k

  kp_mapped : Services W → Kernel W → ℕ → ℕ → Kobject → Exit W
  unfolding done_or_bad_par
  kp_mapped s k p pd (Kobject.kp_object o) = done_or_bad_par (add_user_mapping s k p o pd k.arg_3)
  kp_mapped s k p pd _ = panicked

  unfoldable pub sys_kp_ctrl_map : Services W → Kernel W → Exit W
  unfolding kp_mapped
  sys_kp_ctrl_map s k =
      with_object k (object k KobjectType.kp (sel k) 0x1)
        λ p. with_object k (object k KobjectType.pd k.arg_2 0) λ pd. kp_mapped s k p pd (k.heap p)

  kp_unmapped : Services W → Kernel W → ℕ → Kobject → Exit W
  unfolding done_or_bad_par
  kp_unmapped s k p (Kobject.kp_object o) = done_or_bad_par (remove_user_mapping s k p o)
  kp_unmapped s k p _ = panicked

  unfoldable pub sys_kp_ctrl_unmap : Services W → Kernel W → Exit W
  unfolding kp_unmapped
  sys_kp_ctrl_unmap s k =
      with_object k (object k KobjectType.kp (sel k) 0x1) λ p. kp_unmapped s k p (k.heap p)

  unfoldable pub sys_kp_ctrl : Services W → Kernel W → Exit W
  sys_kp_ctrl s k = elim (op k) [
    | zero ↦ sys_kp_ctrl_map s k
    | suc zero ↦ sys_kp_ctrl_unmap s k
    | suc (suc _) ↦ sys_finish bad_par k
  ]

  vcpu_run_with : Services W → Kernel W → ℕ → Option ℕ → Acquired → Exit W
  vcpu_run_with s k v (some _) r = panicked
  vcpu_run_with s k v none Acquired.bad_cpu = sys_finish Status.bad_cpu k
  vcpu_run_with s k v none Acquired.busy = sys_finish Status.busy k
  vcpu_run_with s k v none (Acquired.acquired o) =
      let k' = claim k v o in runs_vcpu (record k' { world = s.vcpu_run v k.arg_2 k'.world })

  vcpu_acquired : Services W → Kernel W → ℕ → Kobject → Exit W
  unfolding vcpu_run_with
  vcpu_acquired s k v (Kobject.vcpu_object o) = vcpu_run_with s k v k.vcpu (try_acquire k o)
  vcpu_acquired s k v _ = panicked

  unfoldable pub sys_vcpu_ctrl_run : Services W → Kernel W → Exit W
  unfolding vcpu_acquired
  sys_vcpu_ctrl_run s k =
      with_object k (object k KobjectType.vcpu (sel k) 0) λ v. vcpu_acquired s k v (k.heap v)

  unfoldable pub sys_vcpu_ctrl_poke : Services W → Kernel W → Exit W
  sys_vcpu_ctrl_poke s k =
      with_object k (object k KobjectType.vcpu (sel k) 0)
        λ v. sys_finish success (record k { world = s.vcpu_poke v k.world })

  unfoldable pub sys_vcpu_ctrl : Services W → Kernel W → Exit W
  sys_vcpu_ctrl s k = elim (op k) [
    | zero ↦ sys_vcpu_ctrl_run s k
    | suc zero ↦ sys_vcpu_ctrl_poke s k
    | suc (suc _) ↦ sys_finish bad_par k
  ]

  -- The waking vector is reported for real mode, which is 0 in the two highest bits.
  unfoldable pub sys_machine_ctrl_suspend : Services W → Kernel W → Exit W
  sys_machine_ctrl_suspend s k =
      let (asleep, w) =
        s.suspend (bit_and (shr k.arg_1 12) 0xff) (bit_and (shr k.arg_1 20) 0xff) k.world in
      let k' = record k { arg_2 = s.waking_vector k.world; world = w } in
      if asleep then switched (finishes success) k' else sys_finish bad_par k'

  -- `static_cast<unsigned>(ARG_1) >> ARG1_VALUE_SHIFT` is at most `Hpt::remap_guaranteed_size`.
  unfoldable pub sys_machine_ctrl_update_microcode : Services W → Kernel W → Exit W
  sys_machine_ctrl_update_microcode s k =
      fail_if k (ltb 0x20_0000 (shr (k.arg_1 % 2 ^ 32) 12)) bad_par
        (sys_finish success (record k { world = s.load_microcode k.arg_2 k.world }))

  unfoldable pub sys_machine_ctrl : Services W → Kernel W → Exit W
  sys_machine_ctrl s k = fail_if k (not (is_passthrough (k.heap k.pd))) bad_cap (elim (op k) [
    | zero ↦ sys_machine_ctrl_suspend s k
    | suc zero ↦ sys_machine_ctrl_update_microcode s k
    | suc (suc _) ↦ sys_finish bad_par k
  ])

  -- `Ec::sys_call`: the portal, which needs no permission. The rest is in Ipc.Call.
  unfoldable pub sys_call : Services W → Kernel W → Exit W
  sys_call s k = with_object k (object k KobjectType.pt (sel k) 0) (λ pt. s.call pt k)

  -- `Ec::sys_reply`: the semaphore that it names, if any; one without a capability is no error. The rest is
  -- in Ipc.Reply.
  unfoldable pub sys_reply : Services W → Kernel W → Exit W
  sys_reply s k = s.reply (if sel k == 0 then none else object k KobjectType.sm (sel k) 0) k

  -- `enum class hypercall_id` of include/api.hpp
  unfoldable pub syscall_handler : Services W → Kernel W → Option ℕ → Exit W
  syscall_handler s k a =
      if id k == 0
      then sys_call s k
      else if id k == 1
      then sys_reply s k
      else if id k == 7
      then sys_revoke s k
      else if id k == 2
      then create_pd s k a
      else if id k == 3
      then create_ec s k a
      else if id k == 4
      then create_sc s k a
      else if id k == 5
      then create_pt s k a
      else if id k == 6
      then create_sm s k a
      else if id k == 16
      then create_kp s k a
      else if id k == 19
      then create_vcpu s k a
      else if id k == 8
      then sys_pd_ctrl s k
      else if id k == 9
      then sys_ec_ctrl k
      else if id k == 10
      then sys_sc_ctrl s k
      else if id k == 11
      then sys_pt_ctrl k
      else if id k == 12
      then sys_sm_ctrl s k
      else if id k == 17
      then sys_kp_ctrl s k
      else if id k == 20
      then sys_vcpu_ctrl s k
      else if id k == 15
      then sys_machine_ctrl s k
      else sys_finish bad_hyp k
