-- ===== src/Vmx/Save.antt =====
-- The state of a virtual CPU leaves its page: `Utcb::save_vmx` of src/utcb.cpp. Each `if` of the code is
-- one group of assignments, to words, registers or fields that no other group assigns but for the primary
-- execution controls, which two groups write.
use hedron.Prelude.{
  ℕ, ◌-◌, ◌*◌, ◌%◌, ◌^◌, Bool, true, bit_and, bit_or, List, [], ◌∷◌, ◌++◌, if◌then◌else◌, ◌==◌,
}
use hedron.Word.{has_bits, inv}
use hedron.Timer.{calc_timeout}
use hedron.Registers.{Regs}
use hedron.Utcb.{Utcb, UtcbSegment, segment, lower, upper}
use hedron.Utcb.Layout.{
  gpr_acdb, gpr_bsd, mtd_rsp, rip_len, mtd_rflags, ds_es, fs_gs, cs_ss, mtd_tr, mtd_ldtr, mtd_gdtr,
  mtd_idtr, mtd_cr, mtd_dr, sysenter, mtd_ctrl, mtd_inj, mtd_sta, mtd_tsc, efer_pat, mtd_pdpte,
  gpr_r8_r15, syscall_swapgs, mtd_tsc_timeout, mtd_vintr, mtd_eoi, mtd_tpr, mtd_tlb, mtd_word,
  inst_len_word, rip_word, rflags_word, intr_actv_state_word, inj_word, rax_word, rcx_word,
  rdx_word, rbx_word, rsp_word, rbp_word, rsi_word, rdi_word, r8_word, r9_word, r10_word, r11_word,
  r12_word, r13_word, r14_word, r15_word, ctrl_word, xcr0_word, cr0_word, cr2_word, cr3_word,
  cr4_word, pdpte_0_word, pdpte_1_word, pdpte_2_word, pdpte_3_word, efer_word, pat_word, star_word,
  lstar_word, fmask_word, kernel_gs_base_word, dr7_word, sysenter_cs_word, sysenter_rsp_word,
  sysenter_rip_word, es_word, cs_word, ss_word, ds_word, fs_word, gs_word, ld_word, tr_word,
  gd_word, id_word, tsc_off_word, tsc_aux_exc_bitmap_word, tpr_threshold_word, eoi_bitmap_0_word,
  eoi_bitmap_1_word, eoi_bitmap_2_word, eoi_bitmap_3_word, vintr_status_word, cr0_mon_word,
  cr4_mon_word, spec_ctrl_word, tsc_timeout_word,
}
use hedron.Vmx.{Vmx, Fixed, MsrArea, make_current, write_fields}
use hedron.Vmx.Encoding.{
  guest_sel_es, guest_sel_cs, guest_sel_ss, guest_sel_ds, guest_sel_fs, guest_sel_gs,
  guest_sel_ldtr, guest_sel_tr, guest_intr_sts, tsc_offset, eoi_exit_bitmap_0, eoi_exit_bitmap_1,
  eoi_exit_bitmap_2, eoi_exit_bitmap_3, guest_pat, guest_efer, guest_pdpte0, guest_pdpte1,
  guest_pdpte2, guest_pdpte3, cpu_exec_ctrl0, exc_bitmap, ent_controls, ent_intr_info,
  ent_intr_error, ent_inst_len, tpr_threshold, cpu_exec_ctrl1, guest_limit_es, guest_limit_cs,
  guest_limit_ss, guest_limit_ds, guest_limit_fs, guest_limit_gs, guest_limit_ldtr, guest_limit_tr,
  guest_limit_gdtr, guest_limit_idtr, guest_ar_es, guest_ar_cs, guest_ar_ss, guest_ar_ds,
  guest_ar_fs, guest_ar_gs, guest_ar_ldtr, guest_ar_tr, guest_intr_state, guest_actv_state,
  guest_sysenter_cs, vmx_preempt_timer, cr0_mask, cr4_mask, cr0_read_shadow, cr4_read_shadow,
  guest_cr0, guest_cr3, guest_cr4, guest_base_es, guest_base_cs, guest_base_ss, guest_base_ds,
  guest_base_fs, guest_base_gs, guest_base_ldtr, guest_base_tr, guest_base_gdtr, guest_base_idtr,
  guest_dr7, guest_rsp, guest_rip, guest_rflags, guest_sysenter_esp, guest_sysenter_eip,
  cpu_intr_window, cpu_nmi_window,
}
use hedron.Vmx.Control.{
  cr0_msk, cr4_msk, exc_ac, guest_cr0_value, guest_cr4_value, ctrl0_value, ctrl1_value, entry_value,
  tlb_flush,
}

-- The access rights in the layout of the VMCS.
unfoldable pub ar_out : ℕ → ℕ
ar_out a = bit_or (bit_and (a * 2 ^ 4) 0x1f000) (bit_and a 0xff)

abbrev segment_writes : UtcbSegment → ℕ → ℕ → ℕ → ℕ → List (ℕ × ℕ)
segment_writes g sel base limit ar =
    (sel, g.sel) ∷ (base, g.base) ∷ (limit, g.limit) ∷ (ar, ar_out g.ar) ∷ []

-- the general registers
unfoldable saved_gprs : ℕ → (ℕ → ℕ) → Regs → Regs
saved_gprs m f r =
    let acdb = has_bits m gpr_acdb in
    let bsd = has_bits m gpr_bsd in
    let high = has_bits m gpr_r8_r15 in
    record r {
      rax = if acdb then f rax_word else r.rax;
      rcx = if acdb then f rcx_word else r.rcx;
      rdx = if acdb then f rdx_word else r.rdx;
      rbx = if acdb then f rbx_word else r.rbx;
      rbp = if bsd then f rbp_word else r.rbp;
      rsi = if bsd then f rsi_word else r.rsi;
      rdi = if bsd then f rdi_word else r.rdi;
      r8 = if high then f r8_word else r.r8;
      r9 = if high then f r9_word else r.r9;
      r10 = if high then f r10_word else r.r10;
      r11 = if high then f r11_word else r.r11;
      r12 = if high then f r12_word else r.r12;
      r13 = if high then f r13_word else r.r13;
      r14 = if high then f r14_word else r.r14;
      r15 = if high then f r15_word else r.r15;
    }

-- the shadows, CR2, XCR0, SPEC_CTRL and the exception bitmap
unfoldable saved_regs : ℕ → (ℕ → ℕ) → Regs → Regs
unfolding saved_gprs
saved_regs m f r =
    let cr = has_bits m mtd_cr in
    record (saved_gprs m f r) {
      cs = if cr then f cr0_word else r.cs;
      cr2 = if cr then f cr2_word else r.cr2;
      rsp = if cr then f cr4_word else r.rsp;
      rip = if cr then f xcr0_word else r.rip;
      ss = if cr then f spec_ctrl_word else r.ss;
      exc_bitmap = if has_bits m mtd_ctrl then upper (f tsc_aux_exc_bitmap_word) else r.exc_bitmap;
    }

saved_fixed : ℕ → (ℕ → ℕ) → Fixed → Fixed
saved_fixed m f x = record x {
  cr0_mon = if has_bits m mtd_ctrl then f cr0_mon_word else x.cr0_mon;
  cr4_mon = if has_bits m mtd_ctrl then f cr4_mon_word else x.cr4_mon;
}

saved_msr : ℕ → (ℕ → ℕ) → MsrArea → MsrArea
saved_msr m f a =
    let swapgs = has_bits m syscall_swapgs in
    record a {
      tsc_aux = if has_bits m mtd_tsc then lower (f tsc_aux_exc_bitmap_word) else a.tsc_aux;
      star = if swapgs then f star_word else a.star;
      lstar = if swapgs then f lstar_word else a.lstar;
      fmask = if swapgs then f fmask_word else a.fmask;
      kernel_gs_base = if swapgs then f kernel_gs_base_word else a.kernel_gs_base;
    }

-- the guest's registers in the VMCS
unfoldable guest_fields : ℕ → (ℕ → ℕ) → Vmx → ℕ → ℕ
unfolding segment ar_out
guest_fields m f s =
    write_fields (has_bits m sysenter)
      ((guest_sysenter_cs, f sysenter_cs_word)
        ∷ (guest_sysenter_esp, f sysenter_rsp_word)
        ∷ (guest_sysenter_eip, f sysenter_rip_word)
        ∷ [])
      (write_fields (has_bits m mtd_dr) ((guest_dr7, f dr7_word) ∷ []) (
        write_fields (has_bits m mtd_cr)
          ((guest_cr0, guest_cr0_value (f cr0_word) s)
            ∷ (cr0_read_shadow, f cr0_word)
            ∷ (guest_cr3, f cr3_word)
            ∷ (guest_cr4, guest_cr4_value (f cr4_word) s)
            ∷ (cr4_read_shadow, f cr4_word)
            ∷ [])
          (write_fields (has_bits m mtd_idtr)
            ((guest_base_idtr, (segment f id_word).base)
              ∷ (guest_limit_idtr, (segment f id_word).limit)
              ∷ [])
            (write_fields (has_bits m mtd_gdtr)
              ((guest_base_gdtr, (segment f gd_word).base)
                ∷ (guest_limit_gdtr, (segment f gd_word).limit)
                ∷ [])
              (write_fields (has_bits m mtd_ldtr)
                (segment_writes (segment f ld_word) guest_sel_ldtr guest_base_ldtr guest_limit_ldtr
                  guest_ar_ldtr)
                (write_fields (has_bits m mtd_tr)
                  (segment_writes (segment f tr_word) guest_sel_tr guest_base_tr guest_limit_tr
                    guest_ar_tr)
                  (write_fields (has_bits m cs_ss)
                    (segment_writes (segment f cs_word) guest_sel_cs guest_base_cs guest_limit_cs
                        guest_ar_cs
                      ++ segment_writes (segment f ss_word) guest_sel_ss guest_base_ss
                          guest_limit_ss guest_ar_ss)
                    (write_fields (has_bits m fs_gs)
                      (segment_writes (segment f fs_word) guest_sel_fs guest_base_fs guest_limit_fs
                          guest_ar_fs
                        ++ segment_writes (segment f gs_word) guest_sel_gs guest_base_gs
                            guest_limit_gs guest_ar_gs)
                      (write_fields (has_bits m ds_es)
                        (segment_writes (segment f ds_word) guest_sel_ds guest_base_ds
                            guest_limit_ds guest_ar_ds
                          ++ segment_writes (segment f es_word) guest_sel_es guest_base_es
                              guest_limit_es guest_ar_es)
                        (write_fields (has_bits m mtd_rflags) ((guest_rflags, f rflags_word) ∷ []) (
                          write_fields (has_bits m rip_len)
                            ((guest_rip, f rip_word) ∷ (ent_inst_len, f inst_len_word) ∷ [])
                            (write_fields (has_bits m mtd_rsp) ((guest_rsp, f rsp_word) ∷ [])
                              s.field))))))))))))

-- The controls that `CTRL` sets, with `set_exc` after the masks of the monitored bits.
ctrl_fields : ℕ → (ℕ → ℕ) → Bool → Vmx → (ℕ → ℕ) → ℕ → ℕ
unfolding ctrl0_value ctrl1_value cr0_msk cr4_msk saved_fixed
ctrl_fields m f passthrough s field =
    let s' = record s { fixed = saved_fixed m f s.fixed } in
    write_fields (has_bits m mtd_ctrl)
      ((cpu_exec_ctrl0, ctrl0_value (lower (f ctrl_word)) passthrough s)
        ∷ (cpu_exec_ctrl1, ctrl1_value (upper (f ctrl_word)) passthrough s)
        ∷ (exc_bitmap, bit_or (2 ^ exc_ac) (upper (f tsc_aux_exc_bitmap_word)))
        ∷ (cr0_mask, cr0_msk true s')
        ∷ (cr4_mask, cr4_msk true s')
        ∷ [])
      field

-- A window control follows a bit of `intr_info`.
window : ℕ → ℕ → ℕ → ℕ → ℕ
window info bit control val =
    if has_bits info bit then bit_or val control else bit_and val (inv control)

inj_fields : ℕ → (ℕ → ℕ) → Bool → Vmx → (ℕ → ℕ) → ℕ → ℕ
unfolding ctrl0_value window
inj_fields m f passthrough s field =
    let info = lower (f inj_word) in
    let val =
      window info 0x2000 cpu_nmi_window
        (window info 0x1000 cpu_intr_window (field cpu_exec_ctrl0 % 2 ^ 32)) in
    write_fields (has_bits m mtd_inj)
      ((cpu_exec_ctrl0, ctrl0_value val passthrough s)
        ∷ (ent_intr_info, bit_and info (0xffff_ffff - 0x3000))
        ∷ (ent_intr_error, upper (f inj_word))
        ∷ [])
      field

late_fields : ℕ → (ℕ → ℕ) → Vmx → (ℕ → ℕ) → ℕ → ℕ
unfolding calc_timeout entry_value
late_fields m f s field =
    write_fields (has_bits m mtd_vintr) ((guest_intr_sts, f vintr_status_word % 2 ^ 16) ∷ []) (
      write_fields (has_bits m mtd_eoi)
        ((eoi_exit_bitmap_0, f eoi_bitmap_0_word)
          ∷ (eoi_exit_bitmap_1, f eoi_bitmap_1_word)
          ∷ (eoi_exit_bitmap_2, f eoi_bitmap_2_word)
          ∷ (eoi_exit_bitmap_3, f eoi_bitmap_3_word)
          ∷ [])
        (write_fields (has_bits m mtd_tpr) ((tpr_threshold, lower (f tpr_threshold_word)) ∷ []) (
          write_fields (has_bits m mtd_pdpte)
            ((guest_pdpte0, f pdpte_0_word)
              ∷ (guest_pdpte1, f pdpte_1_word)
              ∷ (guest_pdpte2, f pdpte_2_word)
              ∷ (guest_pdpte3, f pdpte_3_word)
              ∷ [])
            (write_fields (has_bits m efer_pat)
              ((guest_efer, f efer_word)
                ∷ (ent_controls, entry_value (f efer_word) (s.field ent_controls))
                ∷ (guest_pat, f pat_word)
                ∷ [])
              (write_fields (has_bits m mtd_tsc_timeout)
                ((vmx_preempt_timer, calc_timeout (f tsc_timeout_word) s.fixed.timer_shift) ∷ [])
                (write_fields (has_bits m mtd_tsc) ((tsc_offset, f tsc_off_word) ∷ []) (
                  write_fields (has_bits m mtd_sta)
                    ((guest_intr_state, lower (f intr_actv_state_word))
                      ∷ (guest_actv_state, upper (f intr_actv_state_word))
                      ∷ [])
                    field)))))))

-- All that is written before the TLB is flushed.
unfoldable pub saved_state : Utcb → Bool → Vmx → Vmx
unfolding make_current saved_regs saved_fixed saved_msr guest_fields ctrl_fields inj_fields
    late_fields
saved_state u passthrough s =
    let f = u.word in
    let m : ℕ = f mtd_word in
    record (make_current s) {
      regs = saved_regs m f s.regs;
      fixed = saved_fixed m f s.fixed;
      msr = saved_msr m f s.msr;
      field =
          late_fields m f s
            (inj_fields m f passthrough s (ctrl_fields m f passthrough s (guest_fields m f s)));
    }

unfoldable pub save_vmx : Utcb → Bool → Vmx → Vmx
unfolding saved_state tlb_flush
save_vmx u passthrough s =
    let m : ℕ = u.word mtd_word in
    let done = saved_state u passthrough s in
    if m == 0 then s else if has_bits m mtd_tlb then tlb_flush true done else done
