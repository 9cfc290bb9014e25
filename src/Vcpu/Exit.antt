-- ===== src/Vcpu/Exit.antt =====
-- After an exit of the guest: `Vcpu::handle_vmx` and what it calls (src/vcpu.cpp).
use hedron.Prelude.{
  ℕ, ◌-◌, ◌%◌, ◌^◌, true, false, not, ◌&&◌, ◌||◌, bit_and, bit_or, if◌then◌else◌, ◌==◌, leb,
}
use hedron.Word.{has_bits, ones, shr}
use hedron.Timer.{calc_timeout}
use hedron.Utcb.{lower, pair}
use hedron.Utcb.Layout.{mtd_sta, intr_actv_state_word, ctrl_word}
use hedron.Vmx.{Vmx, write}
use hedron.Vmx.Encoding.{
  host_sel_cs, ent_intr_info, ent_intr_error, ent_inst_len, exi_intr_info, idt_vect_info,
  idt_vect_error, exi_inst_len, vmx_preempt_timer, cpu_mtf,
}
use hedron.Vmx.Control.{vmx_set_cpu_ctrl0}
use hedron.Vcpu.{
  Vcpu, Host, Processor, Next, is_owner, put, wait_for_sipi, synthesize_poked_exit, exit_reason,
  return_to_vmm,
}
use hedron.Vcpu.Next.{to_vmm, resumes, panicked}

-- Reasons of `enum Reason`.
abbrev pub vmx_exc_nmi : ℕ
vmx_exc_nmi = 0

abbrev pub vmx_init : ℕ
vmx_init = 3

abbrev pub vmx_fail_state : ℕ
vmx_fail_state = 33

abbrev pub vmx_mtf : ℕ
vmx_mtf = 37

abbrev pub vmx_preempt : ℕ
vmx_preempt = 52

abbrev pub vmx_fail_vmentry : ℕ
vmx_fail_vmentry = 256 - 3

-- The event that the exit interrupted is injected again.
unfoldable pub reinjected : Vmx → Vmx
unfolding write
reinjected s =
    let vect_info = s.field idt_vect_info in
    let with_info = write ent_intr_info (bit_and vect_info 0x8000_0fff) s in
    let with_error =
      if has_bits vect_info (2 ^ 11)
      then write ent_intr_error (with_info.field idt_vect_error) with_info
      else with_info in
    let intr_type = bit_and (shr vect_info 8) 0x7 in
    if leb 4 intr_type && leb intr_type 6
    then write ent_inst_len exi_inst_len with_error
    else with_error

module _ {ℓ} {H : Type ℓ} (p : Processor H) where
  leave : Vcpu → Host H → Next H
  unfolding return_to_vmm
  leave v h = to_vmm (return_to_vmm (p.rdtsc h.rest) v) h

  unfoldable pub handle_exception : Vcpu → Host H → Next H
  unfolding reinjected synthesize_poked_exit leave
  handle_exception v h =
      let v' = record v {
        vmx = if has_bits (v.vmx.field idt_vect_info) (2 ^ 31) then reinjected v.vmx else v.vmx;
      } in
      let intr_info = v'.vmx.field exi_intr_info in
      let intr_type = bit_and (shr intr_info 8) 0x7 in
      if bit_and intr_info 0xff == 2 && intr_type == 2
      then (let h' = p.early_nmi_work h in
          if h'.hazard == 0
          then leave (synthesize_poked_exit v') (record h' { seen_spurious_nmi = true })
          else resumes v' h')
      else leave v' h

  unfoldable pub maybe_handle_invalid_guest_state : Vcpu → Host H → Next H
  unfolding leave
  maybe_handle_invalid_guest_state v h =
      if v.vmx.field host_sel_cs == 0 then resumes v (p.fixup_nmi_user_trap h) else leave v h

  -- SPEC_CTRL, the FPU and the debug registers are taken from the guest.
  unfoldable pub restored_host : Vcpu → Host H → Vcpu × Host H
  restored_host v h =
      let has = p.has_spec_ctrl h.rest in
      (
        record v {
          vmx = record v.vmx {
            regs = record v.vmx.regs { ss = if has then h.spec_ctrl else v.vmx.regs.ss };
          };
          dr = h.dr;
        },
        record h {
          might_lose_nmis = false;
          spec_ctrl = if has then 0 else h.spec_ctrl;
          host_dr = h.dr;
          rest = p.load_fpu (p.save_guest_fpu (p.restore_xcr0 h.rest));
        },
      )

  -- The trap flag that a poke had set is undone, and its exit reported as the poke.
  unfoldable pub trap_undone : ℕ → Vcpu → Vcpu
  unfolding vmx_set_cpu_ctrl0 synthesize_poked_exit
  trap_undone basic v =
      let ctrl = lower (v.page.word ctrl_word) in
      let undone = record v { vmx = vmx_set_cpu_ctrl0 ctrl v.passthrough v.vmx } in
      let v' =
        if v.has_pending_mtf_trap && not (has_bits ctrl cpu_mtf)
        then (if basic == vmx_mtf then synthesize_poked_exit undone else undone)
        else v in
      record v' { has_pending_mtf_trap = false }

  -- The `switch`, on the reason read before.
  unfoldable pub dispatch : ℕ → Vcpu → Host H → Next H
  unfolding handle_exception maybe_handle_invalid_guest_state put write calc_timeout leave
  dispatch basic v h =
      if basic == vmx_fail_state || basic == vmx_fail_vmentry
      then maybe_handle_invalid_guest_state v h
      else if basic == vmx_exc_nmi
      then handle_exception v h
      else if basic == vmx_init
      then resumes
          (record v {
            page =
                put intr_actv_state_word
                  (pair (lower (v.page.word intr_actv_state_word)) wait_for_sipi) v.page;
            vmx = record v.vmx { regs = record v.vmx.regs { mtd = bit_or v.vmx.regs.mtd mtd_sta } };
          })
          h
      else if basic == vmx_preempt
      then leave
          (record v {
            vmx = write vmx_preempt_timer (calc_timeout ones v.vmx.fixed.timer_shift) v.vmx;
          })
          h
      else leave v h

  unfoldable pub handle_vmx : Vcpu → Host H → Next H
  unfolding is_owner restored_host exit_reason trap_undone dispatch
  handle_vmx v h =
      let (v', h') = restored_host v h in
      let (reason, v'') = exit_reason v' in
      let basic = reason % 2 ^ 16 in
      if is_owner v h.ec then dispatch basic (trap_undone basic v'') h' else panicked
