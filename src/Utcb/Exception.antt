-- ===== src/Utcb/Exception.antt =====
-- The state of an exception in a message: `Utcb::load_exc` and `Utcb::save_exc` of src/utcb.cpp.
use hedron.Prelude.{
  ℕ, ◌≡◌, bit_and, Bool, true, false, [], ◌∷◌, if◌then◌else◌, refl, ◌<◌, arith, inl, inr,
  Bool-cases,
}
use hedron.Prelude.Bits.{and-inv-and}
use hedron.Word.{has_bits, inv, word_mod}
use hedron.Registers.{Regs}
use hedron.Utcb.{Utcb, assign}
use hedron.Utcb.Layout.{
  data_words, gpr_acdb, gpr_bsd, mtd_rsp, rip_len, mtd_rflags, mtd_qual, gpr_r8_r15, mtd_fpu,
  mtd_word, rip_word, rflags_word, rax_word, rcx_word, rdx_word, rbx_word, rsp_word, rbp_word,
  rsi_word, rdi_word, r8_word, r9_word, r10_word, r11_word, r12_word, r13_word, r14_word, r15_word,
  qual_0_word, qual_1_word,
}

-- EFL_VIP | EFL_VIF | EFL_VM | EFL_RF | EFL_IOPL
abbrev pub privileged_flags : ℕ
privileged_flags = 0x1b3000

-- The flag says that the FPU is wanted too.
unfoldable pub load_exc : Utcb → Regs → Bool × Utcb
load_exc u r =
    let m : ℕ = r.mtd in
    let word =
      assign (has_bits m gpr_acdb)
        ((rax_word, r.rax) ∷ (rcx_word, r.rcx) ∷ (rdx_word, r.rdx) ∷ (rbx_word, r.rbx) ∷ [])
        (assign (has_bits m gpr_bsd)
          ((rbp_word, r.rbp) ∷ (rsi_word, r.rsi) ∷ (rdi_word, r.rdi) ∷ [])
          (assign (has_bits m gpr_r8_r15)
            ((r8_word, r.r8)
              ∷ (r9_word, r.r9)
              ∷ (r10_word, r.r10)
              ∷ (r11_word, r.r11)
              ∷ (r12_word, r.r12)
              ∷ (r13_word, r.r13)
              ∷ (r14_word, r.r14)
              ∷ (r15_word, r.r15)
              ∷ [])
            (assign (has_bits m mtd_rsp) ((rsp_word, r.rsp) ∷ []) (
              assign (has_bits m rip_len) ((rip_word, r.rip) ∷ []) (
                assign (has_bits m mtd_rflags) ((rflags_word, r.rfl) ∷ []) (
                  assign (has_bits m mtd_qual) ((qual_0_word, r.err) ∷ (qual_1_word, r.cr2) ∷ [])
                    (assign true ((mtd_word, m) ∷ []) u.word))))))) in
    (has_bits m mtd_fpu, record u { items = data_words; word = word })

unfoldable pub save_exc : Utcb → Regs → Bool × Regs
save_exc u r =
    let m : ℕ = u.word mtd_word in
    let acdb = has_bits m gpr_acdb in
    let bsd = has_bits m gpr_bsd in
    let high = has_bits m gpr_r8_r15 in
    let kept = inv privileged_flags in
    (
      has_bits m mtd_fpu,
      record r {
        rax = if acdb then u.word rax_word else r.rax;
        rcx = if acdb then u.word rcx_word else r.rcx;
        rdx = if acdb then u.word rdx_word else r.rdx;
        rbx = if acdb then u.word rbx_word else r.rbx;
        rbp = if bsd then u.word rbp_word else r.rbp;
        rsi = if bsd then u.word rsi_word else r.rsi;
        rdi = if bsd then u.word rdi_word else r.rdi;
        r8 = if high then u.word r8_word else r.r8;
        r9 = if high then u.word r9_word else r.r9;
        r10 = if high then u.word r10_word else r.r10;
        r11 = if high then u.word r11_word else r.r11;
        r12 = if high then u.word r12_word else r.r12;
        r13 = if high then u.word r13_word else r.r13;
        r14 = if high then u.word r14_word else r.r14;
        r15 = if high then u.word r15_word else r.r15;
        rsp = if has_bits m mtd_rsp then u.word rsp_word else r.rsp;
        rip = if has_bits m rip_len then u.word rip_word else r.rip;
        rfl = if has_bits m mtd_rflags then bit_and (u.word rflags_word) kept else r.rfl;
      },
    )

-- A value that was written to a word under a test and is read back under the same.
restored :
    (b : Bool) (v old kept : ℕ)
    → (if b then (if b then v else old) else kept) ≡ (if b then v else kept)
restored true v old kept = refl
restored false v old kept = refl

cleared :
    (b : Bool) (v old kept : ℕ)
    → (if b then bit_and (if b then v else old) (inv privileged_flags) else kept)
      ≡ (if b then bit_and v (inv privileged_flags) else kept)
cleared true v old kept = refl
cleared false v old kept = refl

-- The registers of an exception message that the handler answers as it came, saved over any others: each
-- register of a group that the message selects gets the value that was loaded, the flags without
-- the privileged ones, and each other register stays. The FPU is asked for both ways or neither.
pub save_exc-load_exc :
    (u : Utcb) (r r' : Regs)
    → save_exc (load_exc u r).1 r' ≡ (
      (load_exc u r).0,
      record r' {
        rax = if has_bits r.mtd gpr_acdb then r.rax else r'.rax;
        rcx = if has_bits r.mtd gpr_acdb then r.rcx else r'.rcx;
        rdx = if has_bits r.mtd gpr_acdb then r.rdx else r'.rdx;
        rbx = if has_bits r.mtd gpr_acdb then r.rbx else r'.rbx;
        rbp = if has_bits r.mtd gpr_bsd then r.rbp else r'.rbp;
        rsi = if has_bits r.mtd gpr_bsd then r.rsi else r'.rsi;
        rdi = if has_bits r.mtd gpr_bsd then r.rdi else r'.rdi;
        r8 = if has_bits r.mtd gpr_r8_r15 then r.r8 else r'.r8;
        r9 = if has_bits r.mtd gpr_r8_r15 then r.r9 else r'.r9;
        r10 = if has_bits r.mtd gpr_r8_r15 then r.r10 else r'.r10;
        r11 = if has_bits r.mtd gpr_r8_r15 then r.r11 else r'.r11;
        r12 = if has_bits r.mtd gpr_r8_r15 then r.r12 else r'.r12;
        r13 = if has_bits r.mtd gpr_r8_r15 then r.r13 else r'.r13;
        r14 = if has_bits r.mtd gpr_r8_r15 then r.r14 else r'.r14;
        r15 = if has_bits r.mtd gpr_r8_r15 then r.r15 else r'.r15;
        rsp = if has_bits r.mtd mtd_rsp then r.rsp else r'.rsp;
        rip = if has_bits r.mtd rip_len then r.rip else r'.rip;
        rfl = if has_bits r.mtd mtd_rflags then bit_and r.rfl (inv privileged_flags) else r'.rfl;
      },
    )
unfolding load_exc save_exc
save_exc-load_exc u r r' i = (
  has_bits r.mtd mtd_fpu,
  record r' {
    rax = restored (has_bits r.mtd gpr_acdb) r.rax (u.word rax_word) r'.rax i;
    rcx = restored (has_bits r.mtd gpr_acdb) r.rcx (u.word rcx_word) r'.rcx i;
    rdx = restored (has_bits r.mtd gpr_acdb) r.rdx (u.word rdx_word) r'.rdx i;
    rbx = restored (has_bits r.mtd gpr_acdb) r.rbx (u.word rbx_word) r'.rbx i;
    rbp = restored (has_bits r.mtd gpr_bsd) r.rbp (u.word rbp_word) r'.rbp i;
    rsi = restored (has_bits r.mtd gpr_bsd) r.rsi (u.word rsi_word) r'.rsi i;
    rdi = restored (has_bits r.mtd gpr_bsd) r.rdi (u.word rdi_word) r'.rdi i;
    r8 = restored (has_bits r.mtd gpr_r8_r15) r.r8 (u.word r8_word) r'.r8 i;
    r9 = restored (has_bits r.mtd gpr_r8_r15) r.r9 (u.word r9_word) r'.r9 i;
    r10 = restored (has_bits r.mtd gpr_r8_r15) r.r10 (u.word r10_word) r'.r10 i;
    r11 = restored (has_bits r.mtd gpr_r8_r15) r.r11 (u.word r11_word) r'.r11 i;
    r12 = restored (has_bits r.mtd gpr_r8_r15) r.r12 (u.word r12_word) r'.r12 i;
    r13 = restored (has_bits r.mtd gpr_r8_r15) r.r13 (u.word r13_word) r'.r13 i;
    r14 = restored (has_bits r.mtd gpr_r8_r15) r.r14 (u.word r14_word) r'.r14 i;
    r15 = restored (has_bits r.mtd gpr_r8_r15) r.r15 (u.word r15_word) r'.r15 i;
    rsp = restored (has_bits r.mtd mtd_rsp) r.rsp (u.word rsp_word) r'.rsp i;
    rip = restored (has_bits r.mtd rip_len) r.rip (u.word rip_word) r'.rip i;
    rfl = cleared (has_bits r.mtd mtd_rflags) r.rfl (u.word rflags_word) r'.rfl i;
  },
)

-- Whatever a handler answers, with words below 2 ^ 64: a context whose flags had none of the
-- privileged ones, which include the I/O privilege level, has none afterwards.
pub save_exc-Unprivileged :
    (u : Utcb) (r : Regs)
    → u.word rflags_word < word_mod
    → bit_and r.rfl privileged_flags ≡ 0
    → bit_and (save_exc u r).1.rfl privileged_flags ≡ 0
unfolding save_exc
save_exc-Unprivileged u r h clear = elim (Bool-cases (has_bits (u.word mtd_word) mtd_rflags)) [
  | inl e ↦ rw e (and-inv-and 64 (u.word rflags_word) privileged_flags h (omega arith))
  | inr e ↦ rw e clear
]
