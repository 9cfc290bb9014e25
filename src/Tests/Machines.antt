-- ===== src/Tests/Machines.antt =====
-- Messages and virtual CPUs at concrete states.
use hedron.Prelude.{
  ℕ, ◌%◌, ◌≡◌, true, false, bit_and, some, none, refl, arith, [], if◌then◌else◌, ◌==◌,
}
use hedron.Word.{has_bits, inv}
use hedron.Registers.{Regs}
use hedron.Utcb.{Utcb}
use hedron.Utcb.Layout.{
  mtd_word, mtd_rflags, inj_word, gpr_acdb, gpr_bsd, gpr_r8_r15, mtd_rsp, rip_len,
}
use hedron.Utcb.Exception.{
  load_exc, save_exc, save_exc-load_exc, save_exc-Unprivileged, privileged_flags,
}
use hedron.Vmx.{Vmx, CpuCtrl, Fixed}
use hedron.Vmx.Encoding.{exi_inst_len, idt_vect_info}
use hedron.Vmx.Control.{read_cr, write_cr}
use hedron.Vmx.Masks.{Words, IsRegister, read_cr-write_cr}
use hedron.Vmx.Save.{save_vmx}
use hedron.Vmx.Load.{load_vmx}
use hedron.Vmx.Transfer.{IsPage, Transferred}
use hedron.Vmx.Transfer.Roundtrip.{load_vmx-save_vmx}
use hedron.Vcpu.{Vcpu, Host, Processor, is_owner}
use hedron.Vcpu.Run.{run}
use hedron.Vcpu.Poked.{Outcome, run-Outcome}

-- All groups are selected, and the flags have no privileged bit.
abbrev regs : Regs
regs = record {
  r15 = 1;
  r14 = 2;
  r13 = 3;
  r12 = 4;
  r11 = 5;
  r10 = 6;
  r9 = 7;
  r8 = 8;
  rdi = 9;
  rsi = 10;
  rbp = 11;
  cr2 = 12;
  rbx = 13;
  rdx = 14;
  rcx = 15;
  rax = 16;
  err = 4096;
  vec = 33;
  rip = 19;
  cs = 20;
  rfl = 582;
  rsp = 22;
  ss = 23;
  exc_bitmap = 24;
  mtd = 4294967295;
}

-- Every word holds its number, but for the descriptor; the segments have 13 bits of access rights.
abbrev page : Utcb
page = record {
  items = 0;
  xlt = record { value = 0 };
  del = record { value = 0 };
  tls = 0;
  word = λ k. if k == mtd_word then 0xffff_ffff else if k == inj_word then 0x8000_0030 else k % 128;
}

abbrev others : Regs
others = record regs { rax = 77; r15 = 78; rip = 79; rfl = 2 }

save_exc-load_exc_example : save_exc (load_exc page regs).1 others ≡ (
  (load_exc page regs).0,
  record others {
    rax = if has_bits regs.mtd gpr_acdb then regs.rax else others.rax;
    rcx = if has_bits regs.mtd gpr_acdb then regs.rcx else others.rcx;
    rdx = if has_bits regs.mtd gpr_acdb then regs.rdx else others.rdx;
    rbx = if has_bits regs.mtd gpr_acdb then regs.rbx else others.rbx;
    rbp = if has_bits regs.mtd gpr_bsd then regs.rbp else others.rbp;
    rsi = if has_bits regs.mtd gpr_bsd then regs.rsi else others.rsi;
    rdi = if has_bits regs.mtd gpr_bsd then regs.rdi else others.rdi;
    r8 = if has_bits regs.mtd gpr_r8_r15 then regs.r8 else others.r8;
    r9 = if has_bits regs.mtd gpr_r8_r15 then regs.r9 else others.r9;
    r10 = if has_bits regs.mtd gpr_r8_r15 then regs.r10 else others.r10;
    r11 = if has_bits regs.mtd gpr_r8_r15 then regs.r11 else others.r11;
    r12 = if has_bits regs.mtd gpr_r8_r15 then regs.r12 else others.r12;
    r13 = if has_bits regs.mtd gpr_r8_r15 then regs.r13 else others.r13;
    r14 = if has_bits regs.mtd gpr_r8_r15 then regs.r14 else others.r14;
    r15 = if has_bits regs.mtd gpr_r8_r15 then regs.r15 else others.r15;
    rsp = if has_bits regs.mtd mtd_rsp then regs.rsp else others.rsp;
    rip = if has_bits regs.mtd rip_len then regs.rip else others.rip;
    rfl =
        if has_bits regs.mtd mtd_rflags
        then bit_and regs.rfl (inv privileged_flags)
        else others.rfl;
  },
)
save_exc-load_exc_example = save_exc-load_exc page regs others

save_exc-Unprivileged_example : bit_and (save_exc page regs).1.rfl privileged_flags ≡ 0
save_exc-Unprivileged_example = save_exc-Unprivileged page regs (omega arith) refl

abbrev ctrl : CpuCtrl
ctrl = record { set = 0x16; clr = 0xffff_ffff; non_passthrough_set = 0x100 }

-- NE, PE and PG are fixed to one, as is VMXE.
abbrev fixed : Fixed
fixed = record {
  ctrl_0 = ctrl;
  ctrl_1 = ctrl;
  cr0_set = 0x8000_0021;
  cr0_clr = 0x7fff_ffff_0000_0000;
  cr0_mon = 0;
  cr4_set = 0x2000;
  cr4_clr = 0x7fff_ffff_0000_0000;
  cr4_mon = 0;
  timer_shift = 5;
}

-- A software interrupt with an instruction of two bytes was being delivered.
abbrev vmx : Vmx
vmx = record {
  regs = regs;
  field = λ k. if k == exi_inst_len then 2 else if k == idt_vect_info then 0x8000_0480 else 0;
  msr = record { star = 1; lstar = 2; fmask = 3; kernel_gs_base = 4; tsc_aux = 5 };
  fixed = fixed;
  current = 0;
  flushed = [];
}

fixed-Words : Words vmx
fixed-Words = record {
  set_0 = omega arith;
  clr_0 = omega arith;
  set_4 = omega arith;
  clr_4 = omega arith;
}

read_cr-write_cr_example : (s : Vmx) × (write_cr 0 0x10 vmx ≡ some s) × (read_cr 0 s ≡ some 0x10)
read_cr-write_cr_example = read_cr-write_cr 0 0x10 vmx IsRegister.cr0 (omega arith) fixed-Words

page-IsPage : IsPage page
page-IsPage = record {
  fits = λ k. ground arith;
  ds_rights = omega arith;
  es_rights = omega arith;
  fs_rights = omega arith;
  gs_rights = omega arith;
  cs_rights = omega arith;
  ss_rights = omega arith;
  tr_rights = omega arith;
  ld_rights = omega arith;
}

load_vmx-save_vmx_example :
    Transferred vmx.regs.vec vmx.fixed.timer_shift
      (page.word mtd_word)
      (load_vmx 9 page (save_vmx page false vmx)).0.word
      page.word
load_vmx-save_vmx_example =
    load_vmx-save_vmx page page false 9 vmx refl (omega arith) page-IsPage fixed-Words

-- A processor without the parts that are left to it.
abbrev processor : Processor ℕ
processor = record {
  handle_hazards = λ h. (true, h);
  early_nmi_work = λ h. h;
  fixup_nmi_user_trap = λ h. h;
  host_rsp = λ r. r;
  host_cr3 = λ r. r;
  invalidate = λ r. r;
  save_fpu = λ r. r;
  load_fpu = λ r. r;
  load_guest_fpu = λ r. (true, r);
  save_guest_fpu = λ r. r;
  load_xcr0 = λ x r. (true, r);
  restore_xcr0 = λ r. r;
  has_spec_ctrl = λ r. true;
  accepts_spec_ctrl = λ x r. true;
  rdtsc = λ r. r;
  send_nmi = λ c r. r;
}

-- Context 7 owns the virtual CPU, which is poked while an event is to be injected.
abbrev vcpu : Vcpu
vcpu = record {
  vmx = vmx;
  page = page;
  owner = some 7;
  cpu_id = 1;
  passthrough = false;
  has_entered = false;
  has_pending_mtf_trap = false;
  poked = true;
  exit_reason_shadow = none;
  dr = λ i. i;
}

abbrev host : Host ℕ
host = record {
  cpu = 1;
  ec = 7;
  hazard = 0;
  seen_spurious_nmi = false;
  might_lose_nmis = false;
  tlb_shootdown = 0;
  stale_guest_tlb = false;
  cr2 = 0;
  spec_ctrl = 0;
  dr = λ i. 0;
  host_dr = λ i. 0;
  rest = 0;
}

is_owner_run : is_owner vcpu 7 ≡ true
unfolding is_owner
is_owner_run = refl

run-Outcome_example : Outcome vcpu host (run processor vcpu host)
run-Outcome_example = run-Outcome processor vcpu host is_owner_run
