-- ===== src/Vcpu/Run.antt =====
-- Entering the guest: `Vcpu::run` (src/vcpu.cpp).
use hedron.Prelude.{
  ℕ, ◌+◌, ◌%◌, ◌^◌, true, false, not, ◌&&◌, ◌||◌, bit_or, none, some, if◌then◌else◌, ◌==◌, ltb,
}
use hedron.Utcb.{lower, upper, pair}
use hedron.Utcb.Layout.{mtd_word, intr_actv_state_word, ctrl_word, exit_word}
use hedron.Vmx.{write, make_current}
use hedron.Vmx.Encoding.{host_cr3, host_rsp, cpu_mtf}
use hedron.Vmx.Control.{vmx_set_cpu_ctrl0}
use hedron.Vmx.Save.{save_vmx}
use hedron.Vcpu.{
  Vcpu, Host, Processor, Next, is_owner, put, wait_for_sipi, injecting_event, synthesize_poked_exit,
  return_to_vmm,
}
use hedron.Vcpu.Exit.{vmx_fail_state}
use hedron.Vcpu.Next.{entered, to_vmm, failed, scheduled, panicked}

-- `VMX_FAIL_STATE | VMX_ENTRY_FAILURE`
abbrev pub refused : ℕ
refused = vmx_fail_state + 2 ^ 31

module _ {ℓ} {H : Type ℓ} (p : Processor H) where
  -- An NMI that the host saw pokes a passthrough CPU, and is reported in `exit_flags`.
  unfoldable pub pass_nmi : Vcpu → Host H → Vcpu × Host H
  unfolding put
  pass_nmi v h =
      let flags = bit_or (upper (v.page.word exit_word)) 1 in
      if v.passthrough && h.seen_spurious_nmi
      then (
        record v {
          page = put exit_word (pair (lower (v.page.word exit_word)) flags) v.page;
          poked = true;
        },
        record h { seen_spurious_nmi = false },
      )
      else (v, h)

  -- A CPU that waits for a start-up interrupt does not receive NMIs.
  unfoldable pub block_nmis : Vcpu → Host H → Host H
  block_nmis v h =
      if upper (v.page.word intr_actv_state_word) == wait_for_sipi
      then record h { might_lose_nmis = true; tlb_shootdown = (h.tlb_shootdown + 1) % 2 ^ 16 }
      else h

  -- The state page goes to the virtual CPU, with the trap flag where a poke waits for the injection.
  unfoldable pub loaded : Vcpu → Host H → Vcpu
  unfolding write save_vmx put vmx_set_cpu_ctrl0
  loaded v h =
      let s = write host_cr3 (p.host_cr3 h.rest) (write host_rsp (p.host_rsp h.rest) v.vmx) in
      let page = put mtd_word v.vmx.regs.mtd v.page in
      let saved = save_vmx page v.passthrough s in
      let clean = record saved { regs = record saved.regs { mtd = 0 } } in
      let ctrl = bit_or (lower (page.word ctrl_word)) cpu_mtf in
      record v {
        has_entered = true;
        page = put mtd_word 0 page;
        vmx = if v.has_pending_mtf_trap then vmx_set_cpu_ctrl0 ctrl v.passthrough clean else clean;
      }

  -- Stale entries of the TLB go, and CR2 is that of the guest.
  unfoldable pub prepared : Vcpu → Host H → Host H
  prepared v h = record h {
    stale_guest_tlb = false;
    cr2 = v.vmx.regs.cr2;
    rest = p.save_fpu (if h.stale_guest_tlb then p.invalidate h.rest else h.rest);
  }

  -- `load_dr` writes the registers that differ from the copy, and SPEC_CTRL is set where it is not zero.
  unfoldable pub guest_registers : Vcpu → Host H → Host H
  guest_registers v h =
      let wanted = v.vmx.regs.ss in
      record h {
        dr = λ i. if ltb i 5 && not (h.host_dr i == v.dr i) then v.dr i else h.dr i;
        spec_ctrl =
            if p.has_spec_ctrl h.rest && not (wanted == 0) && p.accepts_spec_ctrl wanted h.rest
            then wanted
            else h.spec_ctrl;
      }

  -- The rest of `run`, once it is decided that the guest is entered.
  unfoldable pub enter : Vcpu → Host H → Next H
  enter v h =
      let v' = loaded v h in
      let h' = prepared v' h in
      let give_up = record v' { exit_reason_shadow = some refused } in
      let (fpu_ok, rest) = p.load_guest_fpu h'.rest in
      let (xcr0_ok, rest') = p.load_xcr0 v'.vmx.regs.rip rest in
      if not fpu_ok
      then failed give_up (record h' { rest = rest })
      else if not xcr0_ok
      then failed give_up (record h' { rest = rest' })
      else entered v' (guest_registers v' (record h' { rest = rest' }))

  -- `run` behind the check of the hazards
  unfoldable pub go_on : Vcpu → Host H → Next H
  go_on v h =
      let v' = record v { exit_reason_shadow = none; has_pending_mtf_trap = false } in
      if not v.poked
      then enter v' h
      else if v.has_entered || not (injecting_event v)
      then to_vmm (return_to_vmm (p.rdtsc h.rest) (synthesize_poked_exit v')) h
      else enter (record v' { has_pending_mtf_trap = true }) h

  unfoldable pub run : Vcpu → Host H → Next H
  run v h =
      let (v', h') = pass_nmi (record v { vmx = make_current v.vmx }) h in
      let (here, h'') = p.handle_hazards (block_nmis v' h') in
      if not (is_owner v h.ec)
      then panicked
      else if not here
      then scheduled v' h''
      else go_on v' h''
