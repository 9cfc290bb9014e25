-- ===== src/Vmx/Transfer.antt =====
-- What a page and a virtual CPU hand to each other and back: the words that are kept, and the pages that
-- the segment registers of the processor allow.
pub mod Segments
pub mod Groups
pub mod Roundtrip
use hedron.Prelude.{
  ℕ, zero, suc, ◌+◌, ◌-◌, ◌*◌, ◌/◌, ◌%◌, ◌^◌, ◌<◌, ◌≡◌, ◌≢◌, bit_and, bit_or, Bool, true, false,
  List, [], ◌∷◌, All, refl, arith, inl, inr, Bool-cases, sym, ap, ◌∙◌, if◌then◌else◌, ◌==◌, ==_iff,
  ◌&&◌,
}
use hedron.Word.{has_bits, word_mod, shl, shr}
use hedron.Timer.{calc_timeout}
use hedron.Utcb.{Utcb, segment_word, set_vmx, lower, upper, pair}
use hedron.Utcb.Layout.{
  gpr_acdb, gpr_bsd, mtd_rsp, rip_len, mtd_rflags, ds_es, fs_gs, cs_ss, mtd_tr, mtd_ldtr, mtd_gdtr,
  mtd_idtr, mtd_cr, mtd_dr, sysenter, mtd_inj, mtd_tpr, mtd_vintr, mtd_tsc_timeout, inj_word,
  tpr_threshold_word, vintr_status_word, tsc_aux_exc_bitmap_word, tsc_timeout_word, mtd_sta,
  mtd_tsc, efer_pat, mtd_pdpte, gpr_r8_r15, syscall_swapgs, mtd_eoi, rip_word, rflags_word,
  intr_actv_state_word, rax_word, rcx_word, rdx_word, rbx_word, rsp_word, rbp_word, rsi_word,
  rdi_word, r8_word, r9_word, r10_word, r11_word, r12_word, r13_word, r14_word, r15_word, xcr0_word,
  cr0_word, cr2_word, cr3_word, cr4_word, pdpte_0_word, pdpte_1_word, pdpte_2_word, pdpte_3_word,
  efer_word, pat_word, star_word, lstar_word, fmask_word, kernel_gs_base_word, dr7_word,
  sysenter_cs_word, sysenter_rsp_word, sysenter_rip_word, es_word, cs_word, ss_word, ds_word,
  fs_word, gs_word, ld_word, tr_word, gd_word, id_word, tsc_off_word, eoi_bitmap_0_word,
  eoi_bitmap_1_word, eoi_bitmap_2_word, eoi_bitmap_3_word, spec_ctrl_word,
}
use hedron.Vmx.{Vmx}
use hedron.Vmx.Control.{tlb_flush, get_cr0, get_cr4, set_cr0, set_cr4}
use hedron.Vmx.Masks.{Words, get-set_cr0, get-set_cr4}
use hedron.Vmx.Save.{save_vmx, saved_state, ar_out}
use hedron.Vmx.Load.{load_vmx, not_entered}

-- Two pages agree on some words where a group is selected.
abbrev pub Kept : Bool → (ℕ → ℕ) → (ℕ → ℕ) → List ℕ → Type 0
Kept true f g ks = All (λ k. f k ≡ g k) ks
Kept false f g ks = Unit

-- The words of a page that a transfer back and forth keeps, group by group, or their parts that are state of
-- the guest: the lower half of the selector for SYSENTER, of the TPR threshold and of the word with
-- TSC_AUX, 16 bits of the virtual interrupt status, the upper half of the limits of the two tables. The
-- timeout is kept in units of `2 ^ shift`, and the event to be injected without the requests for
-- windows, where the entry did not take place. The length of an instruction, the controls, and what is
-- only reported do not go back and forth.
pub record Transferred (portal shift m : ℕ) (w f : ℕ → ℕ) : Type 0 where
  pub acdb : Kept (has_bits m gpr_acdb) w f (rax_word ∷ rcx_word ∷ rdx_word ∷ rbx_word ∷ [])
  pub bsd : Kept (has_bits m gpr_bsd) w f (rbp_word ∷ rsi_word ∷ rdi_word ∷ [])
  pub high :
      Kept
        (has_bits m gpr_r8_r15)
        w
        f
        (r8_word ∷ r9_word ∷ r10_word ∷ r11_word ∷ r12_word ∷ r13_word ∷ r14_word ∷ r15_word ∷ [])
  pub stack : Kept (has_bits m mtd_rsp) w f (rsp_word ∷ [])
  pub instruction : Kept (has_bits m rip_len) w f (rip_word ∷ [])
  pub flags : Kept (has_bits m mtd_rflags) w f (rflags_word ∷ [])
  pub ds_es_segments :
      Kept (has_bits m ds_es) w f (ds_word ∷ (ds_word + 1) ∷ es_word ∷ (es_word + 1) ∷ [])
  pub fs_gs_segments :
      Kept (has_bits m fs_gs) w f (fs_word ∷ (fs_word + 1) ∷ gs_word ∷ (gs_word + 1) ∷ [])
  pub cs_ss_segments :
      Kept (has_bits m cs_ss) w f (cs_word ∷ (cs_word + 1) ∷ ss_word ∷ (ss_word + 1) ∷ [])
  pub task : Kept (has_bits m mtd_tr) w f (tr_word ∷ (tr_word + 1) ∷ [])
  pub local_table : Kept (has_bits m mtd_ldtr) w f (ld_word ∷ (ld_word + 1) ∷ [])
  pub control :
      Kept
        (has_bits m mtd_cr)
        w
        f
        (cr0_word ∷ cr2_word ∷ cr3_word ∷ cr4_word ∷ xcr0_word ∷ spec_ctrl_word ∷ [])
  pub debug : Kept (has_bits m mtd_dr) w f (dr7_word ∷ [])
  pub system_entry : Kept (has_bits m sysenter) w f (sysenter_rsp_word ∷ sysenter_rip_word ∷ [])
  pub system_entry_selector :
      Kept (has_bits m sysenter) (λ k. lower (w k)) (λ k. lower (f k)) (sysenter_cs_word ∷ [])
  pub event :
      Kept
        (has_bits m mtd_inj && not_entered portal)
        w
        (λ k. pair (bit_and (lower (f k)) 0xffff_cfff) (upper (f k)))
        (inj_word ∷ [])
  pub threshold :
      Kept (has_bits m mtd_tpr) (λ k. lower (w k)) (λ k. lower (f k)) (tpr_threshold_word ∷ [])
  pub virtual_interrupts :
      Kept (has_bits m mtd_vintr) (λ k. w k % 2 ^ 16) (λ k. f k % 2 ^ 16) (vintr_status_word ∷ [])
  pub auxiliary :
      Kept (has_bits m mtd_tsc) (λ k. lower (w k)) (λ k. lower (f k)) (tsc_aux_exc_bitmap_word ∷ [])
  pub timeout :
      Kept
        (has_bits m mtd_tsc_timeout)
        w
        (λ k. shl (calc_timeout (f k) shift) shift)
        (tsc_timeout_word ∷ [])
  pub activity : Kept (has_bits m mtd_sta) w f (intr_actv_state_word ∷ [])
  pub offset : Kept (has_bits m mtd_tsc) w f (tsc_off_word ∷ [])
  pub features : Kept (has_bits m efer_pat) w f (efer_word ∷ pat_word ∷ [])
  pub system_call :
      Kept
        (has_bits m syscall_swapgs)
        w
        f
        (star_word ∷ lstar_word ∷ fmask_word ∷ kernel_gs_base_word ∷ [])
  pub pointers :
      Kept
        (has_bits m mtd_pdpte)
        w
        f
        (pdpte_0_word ∷ pdpte_1_word ∷ pdpte_2_word ∷ pdpte_3_word ∷ [])
  pub eoi :
      Kept
        (has_bits m mtd_eoi)
        w
        f
        (eoi_bitmap_0_word ∷ eoi_bitmap_1_word ∷ eoi_bitmap_2_word ∷ eoi_bitmap_3_word ∷ [])
  pub global_table : Kept (has_bits m mtd_gdtr) w f ((gd_word + 1) ∷ [])
  pub global_table_limit :
      Kept (has_bits m mtd_gdtr) (λ k. upper (w k)) (λ k. upper (f k)) (gd_word ∷ [])
  pub interrupt_table : Kept (has_bits m mtd_idtr) w f ((id_word + 1) ∷ [])
  pub interrupt_table_limit :
      Kept (has_bits m mtd_idtr) (λ k. upper (w k)) (λ k. upper (f k)) (id_word ∷ [])

-- A page as the segment registers of the processor allow it: 13 bits of access rights.
pub record IsPage (u : Utcb) : Type 0 where
  pub fits : (k : ℕ) → u.word k < word_mod
  pub ds_rights : u.word ds_word / 2 ^ 16 % 2 ^ 16 < 2 ^ 13
  pub es_rights : u.word es_word / 2 ^ 16 % 2 ^ 16 < 2 ^ 13
  pub fs_rights : u.word fs_word / 2 ^ 16 % 2 ^ 16 < 2 ^ 13
  pub gs_rights : u.word gs_word / 2 ^ 16 % 2 ^ 16 < 2 ^ 13
  pub cs_rights : u.word cs_word / 2 ^ 16 % 2 ^ 16 < 2 ^ 13
  pub ss_rights : u.word ss_word / 2 ^ 16 % 2 ^ 16 < 2 ^ 13
  pub tr_rights : u.word tr_word / 2 ^ 16 % 2 ^ 16 < 2 ^ 13
  pub ld_rights : u.word ld_word / 2 ^ 16 % 2 ^ 16 < 2 ^ 13
