-- ===== src/Vmx/Transfer/Groups.antt =====
-- Each group of words on its way to the virtual CPU and back.
use hedron.Prelude.{
  ℕ, ◌+◌, ◌%◌, ◌^◌, ◌≡◌, ap, bit_and, ◌&&◌, arith, Bool, true, false, List, [], ◌∷◌, All, refl,
}
use hedron.Word.{has_bits, shl}
use hedron.Timer.{calc_timeout}
use hedron.Utcb.{Utcb, lower, upper, pair}
use hedron.Utcb.Layout.{
  gpr_acdb, gpr_bsd, mtd_rsp, rip_len, mtd_rflags, ds_es, fs_gs, cs_ss, mtd_tr, mtd_ldtr, mtd_gdtr,
  mtd_idtr, mtd_cr, mtd_dr, sysenter, mtd_inj, mtd_tpr, mtd_vintr, mtd_tsc_timeout, inj_word,
  tpr_threshold_word, vintr_status_word, tsc_aux_exc_bitmap_word, tsc_timeout_word, mtd_sta,
  mtd_tsc, efer_pat, mtd_pdpte, gpr_r8_r15, syscall_swapgs, mtd_eoi, mtd_word, rip_word,
  rflags_word, intr_actv_state_word, rax_word, rcx_word, rdx_word, rbx_word, rsp_word, rbp_word,
  rsi_word, rdi_word, r8_word, r9_word, r10_word, r11_word, r12_word, r13_word, r14_word, r15_word,
  xcr0_word, cr0_word, cr2_word, cr3_word, cr4_word, pdpte_0_word, pdpte_1_word, pdpte_2_word,
  pdpte_3_word, efer_word, pat_word, star_word, lstar_word, fmask_word, kernel_gs_base_word,
  dr7_word, sysenter_cs_word, sysenter_rsp_word, sysenter_rip_word, es_word, cs_word, ss_word,
  ds_word, fs_word, gs_word, ld_word, tr_word, gd_word, id_word, tsc_off_word, eoi_bitmap_0_word,
  eoi_bitmap_1_word, eoi_bitmap_2_word, eoi_bitmap_3_word, spec_ctrl_word,
}
use hedron.Vmx.{Vmx}
use hedron.Vmx.Control.{get_cr0, get_cr4, set_cr0, set_cr4}
use hedron.Vmx.Masks.{Words, get-set_cr0, get-set_cr4}
use hedron.Vmx.Save.{saved_state}
use hedron.Vmx.Load.{load_vmx, not_entered}
use hedron.Vmx.Transfer.{Kept, Transferred, IsPage}
use hedron.Vmx.Transfer.Segments.{
  pair_lem, segment_word_lem, limit_lem, event_lem, lower-pair, status_lem, calc_timeout_small,
}

Kept-intro :
    (b : Bool) (f g : ℕ → ℕ) (ks : List ℕ) → (b ≡ true → All (λ k. f k ≡ g k) ks) → Kept b f g ks
Kept-intro true f g ks h = h refl
Kept-intro false f g ks h = tt

both : (a b : Bool) → (a && b) ≡ true → (a ≡ true) × (b ≡ true)
both true b e = (refl, e)
both false b e = ground arith

module _ (u u' : Utcb) (passthrough : Bool) (tsc : ℕ) (s : Vmx)
    (same : s.regs.mtd ≡ u.word mtd_word) (page : IsPage u) (fixed : Words s) where
  abbrev pub m : ℕ
  m = u.word mtd_word

  abbrev pub w : ℕ → ℕ
  w = (load_vmx tsc u' (saved_state u passthrough s)).0.word

  acdb : Kept (has_bits m gpr_acdb) w u.word (rax_word ∷ rcx_word ∷ rdx_word ∷ rbx_word ∷ [])
  unfolding load_vmx saved_state
  acdb =
      Kept-intro (has_bits m gpr_acdb) w u.word _
        (λ e. rw (same, e) (refl, (refl, (refl, (refl, tt)))))

  bsd : Kept (has_bits m gpr_bsd) w u.word (rbp_word ∷ rsi_word ∷ rdi_word ∷ [])
  unfolding load_vmx saved_state
  bsd = Kept-intro (has_bits m gpr_bsd) w u.word _ (λ e. rw (same, e) (refl, (refl, (refl, tt))))

  high :
      Kept
        (has_bits m gpr_r8_r15)
        w
        u.word
        (r8_word ∷ r9_word ∷ r10_word ∷ r11_word ∷ r12_word ∷ r13_word ∷ r14_word ∷ r15_word ∷ [])
  unfolding load_vmx saved_state
  high =
      Kept-intro (has_bits m gpr_r8_r15) w u.word _
        (λ e. rw (same, e) (refl, (refl, (refl, (refl, (refl, (refl, (refl, (refl, tt)))))))))

  stack : Kept (has_bits m mtd_rsp) w u.word (rsp_word ∷ [])
  unfolding load_vmx saved_state
  stack = Kept-intro (has_bits m mtd_rsp) w u.word _ (λ e. rw (same, e) (refl, tt))

  instruction : Kept (has_bits m rip_len) w u.word (rip_word ∷ [])
  unfolding load_vmx saved_state
  instruction = Kept-intro (has_bits m rip_len) w u.word _ (λ e. rw (same, e) (refl, tt))

  flags : Kept (has_bits m mtd_rflags) w u.word (rflags_word ∷ [])
  unfolding load_vmx saved_state
  flags = Kept-intro (has_bits m mtd_rflags) w u.word _ (λ e. rw (same, e) (refl, tt))

  ds_es_segments :
      Kept (has_bits m ds_es) w u.word (ds_word ∷ (ds_word + 1) ∷ es_word ∷ (es_word + 1) ∷ [])
  unfolding load_vmx saved_state
  ds_es_segments = Kept-intro (has_bits m ds_es) w u.word _ (λ e.
      rw (same, e)
        (
          segment_word_lem (u.word ds_word) 0 (page.fits ds_word) page.ds_rights,
          (
            refl,
            (segment_word_lem (u.word es_word) 0 (page.fits es_word) page.es_rights, (refl, tt)),
          ),
        ))

  fs_gs_segments :
      Kept (has_bits m fs_gs) w u.word (fs_word ∷ (fs_word + 1) ∷ gs_word ∷ (gs_word + 1) ∷ [])
  unfolding load_vmx saved_state
  fs_gs_segments = Kept-intro (has_bits m fs_gs) w u.word _ (λ e.
      rw (same, e)
        (
          segment_word_lem (u.word fs_word) 0 (page.fits fs_word) page.fs_rights,
          (
            refl,
            (segment_word_lem (u.word gs_word) 0 (page.fits gs_word) page.gs_rights, (refl, tt)),
          ),
        ))

  cs_ss_segments :
      Kept (has_bits m cs_ss) w u.word (cs_word ∷ (cs_word + 1) ∷ ss_word ∷ (ss_word + 1) ∷ [])
  unfolding load_vmx saved_state
  cs_ss_segments = Kept-intro (has_bits m cs_ss) w u.word _ (λ e.
      rw (same, e)
        (
          segment_word_lem (u.word cs_word) 0 (page.fits cs_word) page.cs_rights,
          (
            refl,
            (segment_word_lem (u.word ss_word) 0 (page.fits ss_word) page.ss_rights, (refl, tt)),
          ),
        ))

  task : Kept (has_bits m mtd_tr) w u.word (tr_word ∷ (tr_word + 1) ∷ [])
  unfolding load_vmx saved_state
  task = Kept-intro (has_bits m mtd_tr) w u.word _ (λ e.
      rw (same, e)
        (segment_word_lem (u.word tr_word) 0 (page.fits tr_word) page.tr_rights, (refl, tt)))

  local_table : Kept (has_bits m mtd_ldtr) w u.word (ld_word ∷ (ld_word + 1) ∷ [])
  unfolding load_vmx saved_state
  local_table = Kept-intro (has_bits m mtd_ldtr) w u.word _ (λ e.
      rw (same, e)
        (segment_word_lem (u.word ld_word) 0 (page.fits ld_word) page.ld_rights, (refl, tt)))

  control :
      Kept
        (has_bits m mtd_cr)
        w
        u.word
        (cr0_word ∷ cr2_word ∷ cr3_word ∷ cr4_word ∷ xcr0_word ∷ spec_ctrl_word ∷ [])
  unfolding load_vmx saved_state get_cr0 get_cr4 set_cr0 set_cr4
  control = Kept-intro (has_bits m mtd_cr) w u.word _ (λ e.
      rw (same, e)
        (
          get-set_cr0 (u.word cr0_word) s (page.fits cr0_word) fixed,
          (
            refl,
            (
              refl,
              (get-set_cr4 (u.word cr4_word) s (page.fits cr4_word) fixed, (refl, (refl, tt))),
            ),
          ),
        ))

  debug : Kept (has_bits m mtd_dr) w u.word (dr7_word ∷ [])
  unfolding load_vmx saved_state
  debug = Kept-intro (has_bits m mtd_dr) w u.word _ (λ e. rw (same, e) (refl, tt))

  system_entry : Kept (has_bits m sysenter) w u.word (sysenter_rsp_word ∷ sysenter_rip_word ∷ [])
  unfolding load_vmx saved_state
  system_entry = Kept-intro (has_bits m sysenter) w u.word _ (λ e. rw (same, e) (refl, (refl, tt)))

  system_entry_selector :
      Kept (has_bits m sysenter) (λ k. lower (w k)) (λ k. lower (u.word k)) (sysenter_cs_word ∷ [])
  unfolding load_vmx saved_state
  system_entry_selector =
      Kept-intro (has_bits m sysenter) (λ k. lower (w k)) (λ k. lower (u.word k)) _
        (λ e. rw (same, e) (omega arith, tt))

  event :
      Kept
        (has_bits m mtd_inj && not_entered s.regs.vec)
        w
        (λ k. pair (bit_and (lower (u.word k)) 0xffff_cfff) (upper (u.word k)))
        (inj_word ∷ [])
  unfolding load_vmx saved_state
  event =
      Kept-intro (has_bits m mtd_inj && not_entered s.regs.vec) w
        (λ k. pair (bit_and (lower (u.word k)) 0xffff_cfff) (upper (u.word k))) _
        (λ e.
          let (inj, stays) = both (has_bits m mtd_inj) (not_entered s.regs.vec) e in
          rw (same, inj, stays) (event_lem (u.word inj_word) (page.fits inj_word), tt))

  threshold :
      Kept (has_bits m mtd_tpr) (λ k. lower (w k)) (λ k. lower (u.word k)) (tpr_threshold_word ∷ [])
  unfolding load_vmx saved_state
  threshold =
      Kept-intro (has_bits m mtd_tpr) (λ k. lower (w k)) (λ k. lower (u.word k)) _
        (λ e. rw (same, e) (lower-pair (u.word tpr_threshold_word) _, tt))

  virtual_interrupts :
      Kept
        (has_bits m mtd_vintr)
        (λ k. w k % 2 ^ 16)
        (λ k. u.word k % 2 ^ 16)
        (vintr_status_word ∷ [])
  unfolding load_vmx saved_state
  virtual_interrupts =
      Kept-intro (has_bits m mtd_vintr) (λ k. w k % 2 ^ 16) (λ k. u.word k % 2 ^ 16) _
        (λ e. rw (same, e) (status_lem (u.word vintr_status_word) _, tt))

  auxiliary :
      Kept
        (has_bits m mtd_tsc)
        (λ k. lower (w k))
        (λ k. lower (u.word k))
        (tsc_aux_exc_bitmap_word ∷ [])
  unfolding load_vmx saved_state
  auxiliary =
      Kept-intro (has_bits m mtd_tsc) (λ k. lower (w k)) (λ k. lower (u.word k)) _
        (λ e. rw (same, e) (omega arith, tt))

  timeout :
      Kept
        (has_bits m mtd_tsc_timeout)
        w
        (λ k. shl (calc_timeout (u.word k) s.fixed.timer_shift) s.fixed.timer_shift)
        (tsc_timeout_word ∷ [])
  unfolding load_vmx saved_state
  timeout =
      Kept-intro (has_bits m mtd_tsc_timeout) w
        (λ k. shl (calc_timeout (u.word k) s.fixed.timer_shift) s.fixed.timer_shift) _
        (λ e.
          rw (same, e)
            (
              ap (λ x. shl x s.fixed.timer_shift)
                  (calc_timeout_small (u.word tsc_timeout_word) s.fixed.timer_shift),
              tt,
            ))

  activity : Kept (has_bits m mtd_sta) w u.word (intr_actv_state_word ∷ [])
  unfolding load_vmx saved_state
  activity = Kept-intro (has_bits m mtd_sta) w u.word _ (λ e.
      rw (same, e) (pair_lem (u.word intr_actv_state_word) (page.fits intr_actv_state_word), tt))

  offset : Kept (has_bits m mtd_tsc) w u.word (tsc_off_word ∷ [])
  unfolding load_vmx saved_state
  offset = Kept-intro (has_bits m mtd_tsc) w u.word _ (λ e. rw (same, e) (refl, tt))

  features : Kept (has_bits m efer_pat) w u.word (efer_word ∷ pat_word ∷ [])
  unfolding load_vmx saved_state
  features = Kept-intro (has_bits m efer_pat) w u.word _ (λ e. rw (same, e) (refl, (refl, tt)))

  system_call :
      Kept
        (has_bits m syscall_swapgs)
        w
        u.word
        (star_word ∷ lstar_word ∷ fmask_word ∷ kernel_gs_base_word ∷ [])
  unfolding load_vmx saved_state
  system_call =
      Kept-intro (has_bits m syscall_swapgs) w u.word _
        (λ e. rw (same, e) (refl, (refl, (refl, (refl, tt)))))

  pointers :
      Kept
        (has_bits m mtd_pdpte)
        w
        u.word
        (pdpte_0_word ∷ pdpte_1_word ∷ pdpte_2_word ∷ pdpte_3_word ∷ [])
  unfolding load_vmx saved_state
  pointers =
      Kept-intro (has_bits m mtd_pdpte) w u.word _
        (λ e. rw (same, e) (refl, (refl, (refl, (refl, tt)))))

  eoi :
      Kept
        (has_bits m mtd_eoi)
        w
        u.word
        (eoi_bitmap_0_word ∷ eoi_bitmap_1_word ∷ eoi_bitmap_2_word ∷ eoi_bitmap_3_word ∷ [])
  unfolding load_vmx saved_state
  eoi =
      Kept-intro (has_bits m mtd_eoi) w u.word _
        (λ e. rw (same, e) (refl, (refl, (refl, (refl, tt)))))

  global_table : Kept (has_bits m mtd_gdtr) w u.word ((gd_word + 1) ∷ [])
  unfolding load_vmx saved_state
  global_table = Kept-intro (has_bits m mtd_gdtr) w u.word _ (λ e. rw (same, e) (refl, tt))

  global_table_limit :
      Kept (has_bits m mtd_gdtr) (λ k. upper (w k)) (λ k. upper (u.word k)) (gd_word ∷ [])
  unfolding load_vmx saved_state
  global_table_limit =
      Kept-intro (has_bits m mtd_gdtr) (λ k. upper (w k)) (λ k. upper (u.word k)) _
        (λ e. rw (same, e) (limit_lem (u.word gd_word) (page.fits gd_word), tt))

  interrupt_table : Kept (has_bits m mtd_idtr) w u.word ((id_word + 1) ∷ [])
  unfolding load_vmx saved_state
  interrupt_table = Kept-intro (has_bits m mtd_idtr) w u.word _ (λ e. rw (same, e) (refl, tt))

  interrupt_table_limit :
      Kept (has_bits m mtd_idtr) (λ k. upper (w k)) (λ k. upper (u.word k)) (id_word ∷ [])
  unfolding load_vmx saved_state
  interrupt_table_limit =
      Kept-intro (has_bits m mtd_idtr) (λ k. upper (w k)) (λ k. upper (u.word k)) _
        (λ e. rw (same, e) (limit_lem (u.word id_word) (page.fits id_word), tt))

  pub saved_state-Transferred : Transferred s.regs.vec s.fixed.timer_shift m w u.word
  saved_state-Transferred = record {
    acdb = acdb;
    bsd = bsd;
    high = high;
    stack = stack;
    instruction = instruction;
    flags = flags;
    ds_es_segments = ds_es_segments;
    fs_gs_segments = fs_gs_segments;
    cs_ss_segments = cs_ss_segments;
    task = task;
    local_table = local_table;
    control = control;
    debug = debug;
    system_entry = system_entry;
    system_entry_selector = system_entry_selector;
    event = event;
    threshold = threshold;
    virtual_interrupts = virtual_interrupts;
    auxiliary = auxiliary;
    timeout = timeout;
    activity = activity;
    offset = offset;
    features = features;
    system_call = system_call;
    pointers = pointers;
    eoi = eoi;
    global_table = global_table;
    global_table_limit = global_table_limit;
    interrupt_table = interrupt_table;
    interrupt_table_limit = interrupt_table_limit;
  }
