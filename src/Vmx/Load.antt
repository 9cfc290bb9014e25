-- ===== src/Vmx/Load.antt =====
-- The state of a virtual CPU goes into its page: `Utcb::load_vmx` of src/utcb.cpp, group by group.
use hedron.Prelude.{
  ℕ, ◌+◌, ◌-◌, ◌*◌, ◌/◌, ◌%◌, ◌^◌, Bool, true, ◌||◌, List, [], ◌∷◌, ◌++◌, if◌then◌else◌, ◌==◌,
}
use hedron.Word.{has_bits, shl}
use hedron.Utcb.{Utcb, UtcbSegment, set_vmx, segment_word, assign, upper, pair}
use hedron.Utcb.Layout.{
  data_words, gpr_acdb, gpr_bsd, mtd_rsp, rip_len, mtd_rflags, ds_es, fs_gs, cs_ss, mtd_tr,
  mtd_ldtr, mtd_gdtr, mtd_idtr, mtd_cr, mtd_dr, sysenter, mtd_qual, mtd_inj, mtd_sta, mtd_tsc,
  efer_pat, mtd_pdpte, gpr_r8_r15, syscall_swapgs, mtd_tsc_timeout, mtd_vintr, mtd_eoi, mtd_tpr,
  mtd_word, inst_len_word, rip_word, rflags_word, intr_actv_state_word, inj_word, vect_word,
  rax_word, rcx_word, rdx_word, rbx_word, rsp_word, rbp_word, rsi_word, rdi_word, r8_word, r9_word,
  r10_word, r11_word, r12_word, r13_word, r14_word, r15_word, qual_0_word, qual_1_word, xcr0_word,
  cr0_word, cr2_word, cr3_word, cr4_word, pdpte_0_word, pdpte_1_word, pdpte_2_word, pdpte_3_word,
  efer_word, pat_word, star_word, lstar_word, fmask_word, kernel_gs_base_word, dr7_word,
  sysenter_cs_word, sysenter_rsp_word, sysenter_rip_word, es_word, cs_word, ss_word, ds_word,
  fs_word, gs_word, ld_word, tr_word, gd_word, id_word, tsc_val_word, tsc_off_word,
  tsc_aux_exc_bitmap_word, tpr_threshold_word, eoi_bitmap_0_word, eoi_bitmap_1_word,
  eoi_bitmap_2_word, eoi_bitmap_3_word, vintr_status_word, spec_ctrl_word, tsc_timeout_word,
}
use hedron.Vmx.{Vmx, make_current}
use hedron.Vmx.Encoding.{
  guest_sel_es, guest_sel_cs, guest_sel_ss, guest_sel_ds, guest_sel_fs, guest_sel_gs,
  guest_sel_ldtr, guest_sel_tr, guest_intr_sts, tsc_offset, eoi_exit_bitmap_0, eoi_exit_bitmap_1,
  eoi_exit_bitmap_2, eoi_exit_bitmap_3, info_phys_addr, guest_pat, guest_efer, guest_pdpte0,
  guest_pdpte1, guest_pdpte2, guest_pdpte3, ent_intr_info, ent_intr_error, tpr_threshold,
  exi_intr_info, exi_intr_error, idt_vect_info, idt_vect_error, exi_inst_len, guest_limit_es,
  guest_limit_cs, guest_limit_ss, guest_limit_ds, guest_limit_fs, guest_limit_gs, guest_limit_ldtr,
  guest_limit_tr, guest_limit_gdtr, guest_limit_idtr, guest_ar_es, guest_ar_cs, guest_ar_ss,
  guest_ar_ds, guest_ar_fs, guest_ar_gs, guest_ar_ldtr, guest_ar_tr, guest_intr_state,
  guest_actv_state, guest_sysenter_cs, vmx_preempt_timer, exi_qualification, guest_cr3,
  guest_base_es, guest_base_cs, guest_base_ss, guest_base_ds, guest_base_fs, guest_base_gs,
  guest_base_ldtr, guest_base_tr, guest_base_gdtr, guest_base_idtr, guest_dr7, guest_rsp, guest_rip,
  guest_rflags, guest_sysenter_esp, guest_sysenter_eip,
}
use hedron.Vmx.Control.{get_cr0, get_cr4}

-- exit reasons; the last is the kernel's own
abbrev pub vmx_fail_state : ℕ
vmx_fail_state = 33

abbrev pub vmx_poked : ℕ
vmx_poked = 256 - 1

abbrev segment_words : ℕ → UtcbSegment → List (ℕ × ℕ)
segment_words i g = (i, segment_word g) ∷ (i + 1, g.base) ∷ []

-- The entry did not take place: what is reported is the event to be injected.
unfoldable pub not_entered : ℕ → Bool
not_entered portal = portal == vmx_fail_state || portal == vmx_poked

abbrev injection : Bool → (ℕ → ℕ) → ℕ → List (ℕ × ℕ)
injection kept f vect =
    (
      inj_word,
      if kept
          then pair (f ent_intr_info % 2 ^ 32) (f ent_intr_error % 2 ^ 32)
          else pair (f exi_intr_info % 2 ^ 32) (f exi_intr_error % 2 ^ 32),
    )
    ∷ (
      vect_word,
      if kept then vect else pair (f idt_vect_info % 2 ^ 32) (f idt_vect_error % 2 ^ 32),
    )
    ∷ []

unfoldable loaded_gprs : ℕ → Vmx → (ℕ → ℕ) → ℕ → ℕ
loaded_gprs m s word =
    let r = s.regs in
    assign (has_bits m gpr_r8_r15)
      ((r8_word, r.r8)
        ∷ (r9_word, r.r9)
        ∷ (r10_word, r.r10)
        ∷ (r11_word, r.r11)
        ∷ (r12_word, r.r12)
        ∷ (r13_word, r.r13)
        ∷ (r14_word, r.r14)
        ∷ (r15_word, r.r15)
        ∷ [])
      (assign (has_bits m gpr_bsd) ((rbp_word, r.rbp) ∷ (rsi_word, r.rsi) ∷ (rdi_word, r.rdi) ∷ [])
        (assign (has_bits m gpr_acdb)
          ((rax_word, r.rax) ∷ (rcx_word, r.rcx) ∷ (rdx_word, r.rdx) ∷ (rbx_word, r.rbx) ∷ [])
          word))

unfoldable loaded_guest : ℕ → Vmx → (ℕ → ℕ) → ℕ → ℕ
unfolding set_vmx segment_word
loaded_guest m s word =
    let f = s.field in
    assign (has_bits m mtd_idtr)
      (segment_words id_word (set_vmx 0 (f guest_base_idtr) (f guest_limit_idtr) 0))
      (assign (has_bits m mtd_gdtr)
        (segment_words gd_word (set_vmx 0 (f guest_base_gdtr) (f guest_limit_gdtr) 0))
        (assign (has_bits m mtd_ldtr)
          (segment_words ld_word
            (set_vmx (f guest_sel_ldtr) (f guest_base_ldtr) (f guest_limit_ldtr) (f guest_ar_ldtr)))
          (assign (has_bits m mtd_tr)
            (segment_words tr_word
              (set_vmx (f guest_sel_tr) (f guest_base_tr) (f guest_limit_tr) (f guest_ar_tr)))
            (assign (has_bits m cs_ss)
              (segment_words cs_word
                  (set_vmx (f guest_sel_cs) (f guest_base_cs) (f guest_limit_cs) (f guest_ar_cs))
                ++ segment_words ss_word
                    (set_vmx (f guest_sel_ss) (f guest_base_ss) (f guest_limit_ss) (f guest_ar_ss)))
              (assign (has_bits m fs_gs)
                (segment_words fs_word
                    (set_vmx (f guest_sel_fs) (f guest_base_fs) (f guest_limit_fs) (f guest_ar_fs))
                  ++ segment_words gs_word (
                      set_vmx (f guest_sel_gs) (f guest_base_gs) (f guest_limit_gs)
                        (f guest_ar_gs)))
                (assign (has_bits m ds_es)
                  (segment_words ds_word (
                      set_vmx (f guest_sel_ds) (f guest_base_ds) (f guest_limit_ds) (f guest_ar_ds))
                    ++ segment_words es_word (
                        set_vmx (f guest_sel_es) (f guest_base_es) (f guest_limit_es)
                          (f guest_ar_es)))
                  (assign (has_bits m mtd_rflags) ((rflags_word, f guest_rflags) ∷ []) (
                    assign (has_bits m rip_len)
                      ((rip_word, f guest_rip) ∷ (inst_len_word, f exi_inst_len) ∷ [])
                      (assign (has_bits m mtd_rsp) ((rsp_word, f guest_rsp) ∷ []) word)))))))))

unfoldable loaded_system : ℕ → ℕ → Utcb → Vmx → (ℕ → ℕ) → ℕ → ℕ
unfolding get_cr0 get_cr4 not_entered
loaded_system m tsc u s word =
    let f = s.field in
    let r = s.regs in
    assign (has_bits m mtd_vintr)
      ((vintr_status_word, f guest_intr_sts % 2 ^ 16 + u.word vintr_status_word / 2 ^ 16 * 2 ^ 16)
        ∷ [])
      (assign (has_bits m mtd_eoi)
        ((eoi_bitmap_0_word, f eoi_exit_bitmap_0)
          ∷ (eoi_bitmap_1_word, f eoi_exit_bitmap_1)
          ∷ (eoi_bitmap_2_word, f eoi_exit_bitmap_2)
          ∷ (eoi_bitmap_3_word, f eoi_exit_bitmap_3)
          ∷ [])
        (assign (has_bits m mtd_tpr)
          ((tpr_threshold_word, pair (f tpr_threshold % 2 ^ 32) (upper (u.word tpr_threshold_word)))
            ∷ [])
          (assign (has_bits m mtd_pdpte)
            ((pdpte_0_word, f guest_pdpte0)
              ∷ (pdpte_1_word, f guest_pdpte1)
              ∷ (pdpte_2_word, f guest_pdpte2)
              ∷ (pdpte_3_word, f guest_pdpte3)
              ∷ [])
            (assign (has_bits m syscall_swapgs)
              ((star_word, s.msr.star)
                ∷ (lstar_word, s.msr.lstar)
                ∷ (fmask_word, s.msr.fmask)
                ∷ (kernel_gs_base_word, s.msr.kernel_gs_base)
                ∷ [])
              (assign (has_bits m efer_pat)
                ((efer_word, f guest_efer) ∷ (pat_word, f guest_pat) ∷ [])
                (assign (has_bits m mtd_tsc_timeout)
                  ((tsc_timeout_word, shl (f vmx_preempt_timer) s.fixed.timer_shift) ∷ [])
                  (assign (has_bits m mtd_tsc)
                    ((tsc_val_word, tsc)
                      ∷ (tsc_off_word, f tsc_offset)
                      ∷ (
                        tsc_aux_exc_bitmap_word,
                        pair (s.msr.tsc_aux % 2 ^ 32) (upper (u.word tsc_aux_exc_bitmap_word)),
                      )
                      ∷ [])
                    (assign (has_bits m mtd_sta)
                      ((
                        intr_actv_state_word,
                        pair (f guest_intr_state % 2 ^ 32) (f guest_actv_state % 2 ^ 32),
                      )
                        ∷ [])
                      (assign (has_bits m mtd_inj)
                        (injection (not_entered r.vec) f (u.word vect_word))
                        (assign (has_bits m mtd_qual)
                          ((qual_0_word, f exi_qualification)
                            ∷ (qual_1_word, f info_phys_addr)
                            ∷ [])
                          (assign (has_bits m sysenter)
                            ((sysenter_cs_word, f guest_sysenter_cs)
                              ∷ (sysenter_rsp_word, f guest_sysenter_esp)
                              ∷ (sysenter_rip_word, f guest_sysenter_eip)
                              ∷ [])
                            (assign (has_bits m mtd_dr) ((dr7_word, f guest_dr7) ∷ []) (
                              assign (has_bits m mtd_cr)
                                ((cr0_word, get_cr0 s)
                                  ∷ (cr2_word, r.cr2)
                                  ∷ (cr3_word, f guest_cr3)
                                  ∷ (cr4_word, get_cr4 s)
                                  ∷ (xcr0_word, r.rip)
                                  ∷ (spec_ctrl_word, r.ss)
                                  ∷ [])
                                word)))))))))))))

-- `tsc` is what the time-stamp counter reads.
unfoldable pub load_vmx : ℕ → Utcb → Vmx → Utcb × Vmx
unfolding make_current loaded_gprs loaded_guest loaded_system
load_vmx tsc u s =
    let m : ℕ = s.regs.mtd in
    (
      record u {
        items = data_words;
        word =
            assign true ((mtd_word, m) ∷ [])
              (loaded_system m tsc u s (loaded_guest m s (loaded_gprs m s u.word)));
      },
      make_current s,
    )
