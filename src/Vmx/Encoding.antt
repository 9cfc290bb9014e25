-- ===== src/Vmx/Encoding.antt =====
-- The fields of a VMCS and the bits of its controls: include/vmx.hpp.
use hedron.Prelude.{ℕ, ◌^◌}

abbrev pub vpid : ℕ
vpid = 0x0

abbrev pub guest_sel_es : ℕ
guest_sel_es = 0x800

abbrev pub guest_sel_cs : ℕ
guest_sel_cs = 0x802

abbrev pub guest_sel_ss : ℕ
guest_sel_ss = 0x804

abbrev pub guest_sel_ds : ℕ
guest_sel_ds = 0x806

abbrev pub guest_sel_fs : ℕ
guest_sel_fs = 0x808

abbrev pub guest_sel_gs : ℕ
guest_sel_gs = 0x80a

abbrev pub guest_sel_ldtr : ℕ
guest_sel_ldtr = 0x80c

abbrev pub guest_sel_tr : ℕ
guest_sel_tr = 0x80e

abbrev pub guest_intr_sts : ℕ
guest_intr_sts = 0x810

abbrev pub host_sel_es : ℕ
host_sel_es = 0xc00

abbrev pub host_sel_cs : ℕ
host_sel_cs = 0xc02

abbrev pub host_sel_ss : ℕ
host_sel_ss = 0xc04

abbrev pub host_sel_ds : ℕ
host_sel_ds = 0xc06

abbrev pub host_sel_fs : ℕ
host_sel_fs = 0xc08

abbrev pub host_sel_gs : ℕ
host_sel_gs = 0xc0a

abbrev pub host_sel_tr : ℕ
host_sel_tr = 0xc0c

abbrev pub io_bitmap_a : ℕ
io_bitmap_a = 0x2000

abbrev pub io_bitmap_b : ℕ
io_bitmap_b = 0x2002

abbrev pub msr_bitmap : ℕ
msr_bitmap = 0x2004

abbrev pub exi_msr_st_addr : ℕ
exi_msr_st_addr = 0x2006

abbrev pub exi_msr_ld_addr : ℕ
exi_msr_ld_addr = 0x2008

abbrev pub ent_msr_ld_addr : ℕ
ent_msr_ld_addr = 0x200a

abbrev pub vmcs_exec_ptr : ℕ
vmcs_exec_ptr = 0x200c

abbrev pub tsc_offset : ℕ
tsc_offset = 0x2010

abbrev pub tsc_offset_hi : ℕ
tsc_offset_hi = 0x2011

abbrev pub apic_virt_addr : ℕ
apic_virt_addr = 0x2012

abbrev pub apic_accs_addr : ℕ
apic_accs_addr = 0x2014

abbrev pub eptp : ℕ
eptp = 0x201a

abbrev pub eptp_hi : ℕ
eptp_hi = 0x201b

abbrev pub eoi_exit_bitmap_0 : ℕ
eoi_exit_bitmap_0 = 0x201c

abbrev pub eoi_exit_bitmap_1 : ℕ
eoi_exit_bitmap_1 = 0x201e

abbrev pub eoi_exit_bitmap_2 : ℕ
eoi_exit_bitmap_2 = 0x2020

abbrev pub eoi_exit_bitmap_3 : ℕ
eoi_exit_bitmap_3 = 0x2022

abbrev pub info_phys_addr : ℕ
info_phys_addr = 0x2400

abbrev pub vmcs_link_ptr : ℕ
vmcs_link_ptr = 0x2800

abbrev pub vmcs_link_ptr_hi : ℕ
vmcs_link_ptr_hi = 0x2801

abbrev pub guest_debugctl : ℕ
guest_debugctl = 0x2802

abbrev pub guest_debugctl_hi : ℕ
guest_debugctl_hi = 0x2803

abbrev pub guest_pat : ℕ
guest_pat = 0x2804

abbrev pub guest_efer : ℕ
guest_efer = 0x2806

abbrev pub guest_perf_global_ctrl : ℕ
guest_perf_global_ctrl = 0x2808

abbrev pub guest_pdpte0 : ℕ
guest_pdpte0 = 0x280a

abbrev pub guest_pdpte1 : ℕ
guest_pdpte1 = 0x280c

abbrev pub guest_pdpte2 : ℕ
guest_pdpte2 = 0x280e

abbrev pub guest_pdpte3 : ℕ
guest_pdpte3 = 0x2810

abbrev pub host_pat : ℕ
host_pat = 0x2c00

abbrev pub host_efer : ℕ
host_efer = 0x2c02

abbrev pub host_perf_global_ctrl : ℕ
host_perf_global_ctrl = 0x2c04

abbrev pub pin_controls : ℕ
pin_controls = 0x4000

abbrev pub cpu_exec_ctrl0 : ℕ
cpu_exec_ctrl0 = 0x4002

abbrev pub exc_bitmap : ℕ
exc_bitmap = 0x4004

abbrev pub pf_error_mask : ℕ
pf_error_mask = 0x4006

abbrev pub pf_error_match : ℕ
pf_error_match = 0x4008

abbrev pub cr3_target_count : ℕ
cr3_target_count = 0x400a

abbrev pub exi_controls : ℕ
exi_controls = 0x400c

abbrev pub exi_msr_st_cnt : ℕ
exi_msr_st_cnt = 0x400e

abbrev pub exi_msr_ld_cnt : ℕ
exi_msr_ld_cnt = 0x4010

abbrev pub ent_controls : ℕ
ent_controls = 0x4012

abbrev pub ent_msr_ld_cnt : ℕ
ent_msr_ld_cnt = 0x4014

abbrev pub ent_intr_info : ℕ
ent_intr_info = 0x4016

abbrev pub ent_intr_error : ℕ
ent_intr_error = 0x4018

abbrev pub ent_inst_len : ℕ
ent_inst_len = 0x401a

abbrev pub tpr_threshold : ℕ
tpr_threshold = 0x401c

abbrev pub cpu_exec_ctrl1 : ℕ
cpu_exec_ctrl1 = 0x401e

abbrev pub vmx_inst_error : ℕ
vmx_inst_error = 0x4400

abbrev pub exi_reason : ℕ
exi_reason = 0x4402

abbrev pub exi_intr_info : ℕ
exi_intr_info = 0x4404

abbrev pub exi_intr_error : ℕ
exi_intr_error = 0x4406

abbrev pub idt_vect_info : ℕ
idt_vect_info = 0x4408

abbrev pub idt_vect_error : ℕ
idt_vect_error = 0x440a

abbrev pub exi_inst_len : ℕ
exi_inst_len = 0x440c

abbrev pub exi_inst_info : ℕ
exi_inst_info = 0x440e

abbrev pub guest_limit_es : ℕ
guest_limit_es = 0x4800

abbrev pub guest_limit_cs : ℕ
guest_limit_cs = 0x4802

abbrev pub guest_limit_ss : ℕ
guest_limit_ss = 0x4804

abbrev pub guest_limit_ds : ℕ
guest_limit_ds = 0x4806

abbrev pub guest_limit_fs : ℕ
guest_limit_fs = 0x4808

abbrev pub guest_limit_gs : ℕ
guest_limit_gs = 0x480a

abbrev pub guest_limit_ldtr : ℕ
guest_limit_ldtr = 0x480c

abbrev pub guest_limit_tr : ℕ
guest_limit_tr = 0x480e

abbrev pub guest_limit_gdtr : ℕ
guest_limit_gdtr = 0x4810

abbrev pub guest_limit_idtr : ℕ
guest_limit_idtr = 0x4812

abbrev pub guest_ar_es : ℕ
guest_ar_es = 0x4814

abbrev pub guest_ar_cs : ℕ
guest_ar_cs = 0x4816

abbrev pub guest_ar_ss : ℕ
guest_ar_ss = 0x4818

abbrev pub guest_ar_ds : ℕ
guest_ar_ds = 0x481a

abbrev pub guest_ar_fs : ℕ
guest_ar_fs = 0x481c

abbrev pub guest_ar_gs : ℕ
guest_ar_gs = 0x481e

abbrev pub guest_ar_ldtr : ℕ
guest_ar_ldtr = 0x4820

abbrev pub guest_ar_tr : ℕ
guest_ar_tr = 0x4822

abbrev pub guest_intr_state : ℕ
guest_intr_state = 0x4824

abbrev pub guest_actv_state : ℕ
guest_actv_state = 0x4826

abbrev pub guest_smbase : ℕ
guest_smbase = 0x4828

abbrev pub guest_sysenter_cs : ℕ
guest_sysenter_cs = 0x482a

abbrev pub vmx_preempt_timer : ℕ
vmx_preempt_timer = 0x482e

abbrev pub host_sysenter_cs : ℕ
host_sysenter_cs = 0x4c00

abbrev pub cr0_mask : ℕ
cr0_mask = 0x6000

abbrev pub cr4_mask : ℕ
cr4_mask = 0x6002

abbrev pub cr0_read_shadow : ℕ
cr0_read_shadow = 0x6004

abbrev pub cr4_read_shadow : ℕ
cr4_read_shadow = 0x6006

abbrev pub cr3_target_0 : ℕ
cr3_target_0 = 0x6008

abbrev pub cr3_target_1 : ℕ
cr3_target_1 = 0x600a

abbrev pub cr3_target_2 : ℕ
cr3_target_2 = 0x600c

abbrev pub cr3_target_3 : ℕ
cr3_target_3 = 0x600e

abbrev pub exi_qualification : ℕ
exi_qualification = 0x6400

abbrev pub io_rcx : ℕ
io_rcx = 0x6402

abbrev pub io_rsi : ℕ
io_rsi = 0x6404

abbrev pub io_rdi : ℕ
io_rdi = 0x6406

abbrev pub io_rip : ℕ
io_rip = 0x6408

abbrev pub guest_linear_address : ℕ
guest_linear_address = 0x640a

abbrev pub guest_cr0 : ℕ
guest_cr0 = 0x6800

abbrev pub guest_cr3 : ℕ
guest_cr3 = 0x6802

abbrev pub guest_cr4 : ℕ
guest_cr4 = 0x6804

abbrev pub guest_base_es : ℕ
guest_base_es = 0x6806

abbrev pub guest_base_cs : ℕ
guest_base_cs = 0x6808

abbrev pub guest_base_ss : ℕ
guest_base_ss = 0x680a

abbrev pub guest_base_ds : ℕ
guest_base_ds = 0x680c

abbrev pub guest_base_fs : ℕ
guest_base_fs = 0x680e

abbrev pub guest_base_gs : ℕ
guest_base_gs = 0x6810

abbrev pub guest_base_ldtr : ℕ
guest_base_ldtr = 0x6812

abbrev pub guest_base_tr : ℕ
guest_base_tr = 0x6814

abbrev pub guest_base_gdtr : ℕ
guest_base_gdtr = 0x6816

abbrev pub guest_base_idtr : ℕ
guest_base_idtr = 0x6818

abbrev pub guest_dr7 : ℕ
guest_dr7 = 0x681a

abbrev pub guest_rsp : ℕ
guest_rsp = 0x681c

abbrev pub guest_rip : ℕ
guest_rip = 0x681e

abbrev pub guest_rflags : ℕ
guest_rflags = 0x6820

abbrev pub guest_pending_debug : ℕ
guest_pending_debug = 0x6822

abbrev pub guest_sysenter_esp : ℕ
guest_sysenter_esp = 0x6824

abbrev pub guest_sysenter_eip : ℕ
guest_sysenter_eip = 0x6826

abbrev pub host_cr0 : ℕ
host_cr0 = 0x6c00

abbrev pub host_cr3 : ℕ
host_cr3 = 0x6c02

abbrev pub host_cr4 : ℕ
host_cr4 = 0x6c04

abbrev pub host_base_fs : ℕ
host_base_fs = 0x6c06

abbrev pub host_base_gs : ℕ
host_base_gs = 0x6c08

abbrev pub host_base_tr : ℕ
host_base_tr = 0x6c0a

abbrev pub host_base_gdtr : ℕ
host_base_gdtr = 0x6c0c

abbrev pub host_base_idtr : ℕ
host_base_idtr = 0x6c0e

abbrev pub host_sysenter_esp : ℕ
host_sysenter_esp = 0x6c10

abbrev pub host_sysenter_eip : ℕ
host_sysenter_eip = 0x6c12

abbrev pub host_rsp : ℕ
host_rsp = 0x6c14

abbrev pub host_rip : ℕ
host_rip = 0x6c16

abbrev pub ent_guest_64 : ℕ
ent_guest_64 = 2 ^ 9

abbrev pub cpu_intr_window : ℕ
cpu_intr_window = 2 ^ 2

abbrev pub cpu_cr8_load : ℕ
cpu_cr8_load = 2 ^ 19

abbrev pub cpu_cr8_store : ℕ
cpu_cr8_store = 2 ^ 20

abbrev pub cpu_tpr_shadow : ℕ
cpu_tpr_shadow = 2 ^ 21

abbrev pub cpu_nmi_window : ℕ
cpu_nmi_window = 2 ^ 22

abbrev pub cpu_mtf : ℕ
cpu_mtf = 2 ^ 27

abbrev pub cpu_secondary : ℕ
cpu_secondary = 2 ^ 31

abbrev pub cpu_ept : ℕ
cpu_ept = 2 ^ 1

abbrev pub cpu_vpid : ℕ
cpu_vpid = 2 ^ 5

abbrev pub cpu_vint_delivery : ℕ
cpu_vint_delivery = 2 ^ 9
