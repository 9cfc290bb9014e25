-- ===== src/Vcpu.antt =====
-- A virtual CPU that its owner runs: src/vcpu.cpp and include/vcpu.hpp, with the state of the CPU it runs
-- on. What lies in the hardware and in other components is an operation of `Processor`, on a state `H`.
pub mod Exit
pub mod Run
pub mod Poked
use hedron.Prelude.{
  ℕ, zero, suc, ◌+◌, ◌-◌, ◌*◌, ◌/◌, ◌%◌, ◌^◌, Bool, true, false, not, ◌&&◌, ◌||◌, bit_and, bit_or,
  Option, none, some, if◌then◌else◌, ◌==◌,
}
use hedron.Word.{inv, has_bits, ones}
use hedron.Utcb.{Utcb, lower, upper, pair}
use hedron.Utcb.Layout.{
  mtd_inj, mtd_vintr, mtd_eoi, mtd_tpr, mtd_tlb, mtd_fpu, mtd_word, inj_word, ctrl_word, exit_word,
}
use hedron.Vmx.{Vmx}
use hedron.Vmx.Encoding.{exi_reason, host_cr3, host_rsp, cpu_secondary, cpu_vint_delivery}
use hedron.Vmx.Load.{load_vmx, vmx_poked}

pub record Vcpu : Type 0 where
  -- the VMCS with the registers, and the page with the state that the user reads and writes
  pub vmx : Vmx
  pub page : Utcb
  pub owner : Option ℕ
  pub cpu_id : ℕ
  pub passthrough : Bool
  pub has_entered : Bool
  pub has_pending_mtf_trap : Bool
  pub poked : Bool
  pub exit_reason_shadow : Option ℕ
  -- DR0 to DR3, and DR6 as number 4
  pub dr : ℕ → ℕ

-- The CPU: its number, the current context, and what the kernel keeps of it.
pub record Host {ℓ} (H : Type ℓ) : Type ℓ where
  pub cpu : ℕ
  pub ec : ℕ
  pub hazard : ℕ
  pub seen_spurious_nmi : Bool
  pub might_lose_nmis : Bool
  pub tlb_shootdown : ℕ
  pub stale_guest_tlb : Bool
  pub cr2 : ℕ
  pub spec_ctrl : ℕ
  -- the debug registers, and the copy of their values
  pub dr : ℕ → ℕ
  pub host_dr : ℕ → ℕ
  pub rest : H

pub record Processor {ℓ} (H : Type ℓ) : Type ℓ where
  -- `Ec::handle_hazards`; with `false` the CPU went to another context
  pub handle_hazards : Host H → Bool × Host H
  -- `Ec::do_early_nmi_work` and `Ec::fixup_nmi_user_trap`
  pub early_nmi_work : Host H → Host H
  pub fixup_nmi_user_trap : Host H → Host H
  -- the stack pointer and the page table for the next exit
  pub host_rsp : H → ℕ
  pub host_cr3 : H → ℕ
  -- INVEPT, the contexts of the FPU, and XCR0; a flag says whether a value was accepted
  pub invalidate : H → H
  pub save_fpu : H → H
  pub load_fpu : H → H
  pub load_guest_fpu : H → Bool × H
  pub save_guest_fpu : H → H
  pub load_xcr0 : ℕ → H → Bool × H
  pub restore_xcr0 : H → H
  -- the processor has SPEC_CTRL, and takes this value into it
  pub has_spec_ctrl : H → Bool
  pub accepts_spec_ctrl : ℕ → H → Bool
  pub rdtsc : H → ℕ
  pub send_nmi : ℕ → H → H

-- How the code goes on: into the guest, back to the user, again through `Ec::resume_vcpu`, to the code
-- after an exit although there was none, to another context, or nowhere, on a failed assertion.
pub data Next {ℓ} (H : Type ℓ) : Type ℓ where
  entered : Vcpu → Host H → Next H
  to_vmm : Vcpu → Host H → Next H
  resumes : Vcpu → Host H → Next H
  failed : Vcpu → Host H → Next H
  scheduled : Vcpu → Host H → Next H
  panicked : Next H

unfoldable pub is_owner : Vcpu → ℕ → Bool
is_owner v ec = elim v.owner [ none ↦ false | some e ↦ e == ec ]

unfoldable pub put : ℕ → ℕ → Utcb → Utcb
put i v u = record u { word = λ k. if k == i then v else u.word k }

-- `EVENT_VALID`, and the value of `actv_state` that waits for a start-up interrupt
abbrev pub event_valid : ℕ
event_valid = 2 ^ 31

abbrev pub wait_for_sipi : ℕ
wait_for_sipi = 3

unfoldable pub injecting_event : Vcpu → Bool
injecting_event v =
    has_bits (v.page.word mtd_word) mtd_inj && has_bits (lower (v.page.word inj_word)) event_valid

unfoldable pub synthesize_poked_exit : Vcpu → Vcpu
synthesize_poked_exit v = record v {
  vmx = record v.vmx { regs = record v.vmx.regs { vec = vmx_poked } };
  exit_reason_shadow = some vmx_poked;
}

-- The reason, which the shadow keeps from then on.
unfoldable pub exit_reason : Vcpu → ℕ × Vcpu
exit_reason v = elim v.exit_reason_shadow [
  | some r ↦ (r, v)
  | none ↦ let r = v.vmx.field exi_reason % 2 ^ 32 in (r, record v { exit_reason_shadow = some r })
]

-- The groups that go back to the user.
unfoldable pub transferred : Utcb → ℕ
transferred u =
    let all = bit_and ones (inv (bit_or (bit_or mtd_eoi mtd_tpr) (bit_or mtd_tlb mtd_fpu))) in
    if has_bits (lower (u.word ctrl_word)) cpu_secondary
      && has_bits (upper (u.word ctrl_word)) cpu_vint_delivery
    then all
    else bit_and all (inv mtd_vintr)

-- The state page after the transfer, where the guest was entered.
unfoldable pub written_back : ℕ → Vcpu → Vcpu
unfolding transferred
written_back tsc v =
    let ready = record v.vmx { regs = record v.vmx.regs { mtd = transferred v.page } } in
    let (page, vmx) = load_vmx tsc v.page ready in
    if v.has_entered
    then record v {
      page = page;
      vmx = record vmx { regs = record vmx.regs { mtd = 0; vec = 0 } };
      has_entered = false;
    }
    else v

-- `return_to_vmm`, up to `sys_finish`
unfoldable pub return_to_vmm : ℕ → Vcpu → Vcpu
return_to_vmm tsc v =
    let (reason, v') = exit_reason (written_back tsc v) in
    record v' {
      page = put exit_word (pair reason (upper (v'.page.word exit_word))) v'.page;
      poked = false;
    }

-- `mtd`: groups that the user changed
unfoldable pub mtd : ℕ → Vcpu → ℕ → Option Vcpu
unfolding is_owner
mtd groups v ec =
    if is_owner v ec
    then some (record v {
      vmx = record v.vmx { regs = record v.vmx.regs { mtd = bit_or v.vmx.regs.mtd groups } };
    })
    else none

module _ {ℓ} {H : Type ℓ} (p : Processor H) where
  -- `poke`, on any CPU; `running` says which context runs on the CPU of the virtual one.
  unfoldable pub poke : ℕ → Vcpu → Host H → Vcpu × Host H
  poke running v h = (
    record v { poked = true },
    if v.poked then h else elim v.owner [
      | none ↦ h
      | some e ↦
          if not (h.cpu == v.cpu_id) && running == e
          then record h { rest = p.send_nmi v.cpu_id h.rest }
          else h
    ],
  )
