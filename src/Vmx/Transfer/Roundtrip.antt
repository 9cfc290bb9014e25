-- ===== src/Vmx/Transfer/Roundtrip.antt =====
-- What `save_vmx` takes out of a page, `load_vmx` puts back.
use hedron.Prelude.{
  ℕ, ◌≡◌, ◌≢◌, Bool, true, refl, inl, inr, Bool-cases, if◌then◌else◌, ◌==◌, ==_iff,
}
use hedron.Word.{has_bits}
use hedron.Utcb.{Utcb}
use hedron.Utcb.Layout.{mtd_tlb, mtd_word}
use hedron.Vmx.{Vmx}
use hedron.Vmx.Control.{tlb_flush}
use hedron.Vmx.Masks.{Words}
use hedron.Vmx.Save.{save_vmx, saved_state}
use hedron.Vmx.Load.{load_vmx}
use hedron.Vmx.Transfer.{Transferred, IsPage}
use hedron.Vmx.Transfer.Groups.{saved_state-Transferred}

load_vmx-tlb_flush :
    (tsc : ℕ) (u : Utcb) (b : Bool) (s : Vmx)
    → (load_vmx tsc u (tlb_flush b s)).0 ≡ (load_vmx tsc u s).0
unfolding load_vmx tlb_flush
load_vmx-tlb_flush tsc u b s =
    elim (Bool-cases ((if has_bits s.fixed.ctrl_1.clr 32 then s.field 0 else 0) == 0)) [
      | inl e ↦ rw e refl
      | inr e ↦ rw e refl
    ]

load_vmx-save_vmx_lem :
    (tsc : ℕ) (u u' : Utcb) (passthrough : Bool) (s : Vmx)
    → u.word mtd_word ≢ 0
    → (load_vmx tsc u' (save_vmx u passthrough s)).0
      ≡ (load_vmx tsc u' (saved_state u passthrough s)).0
unfolding save_vmx
load_vmx-save_vmx_lem tsc u u' passthrough s ne = elim (Bool-cases (u.word mtd_word == 0)) [
  | inl e ↦ absurd (ne ((==_iff (u.word mtd_word) 0).0 e))
  | inr e ↦ rw e (elim (Bool-cases (has_bits (u.word mtd_word) mtd_tlb)) [
    | inl t ↦ rw t (load_vmx-tlb_flush tsc u' true (saved_state u passthrough s))
    | inr t ↦ rw t refl
  ])
]

-- Writing a page's state to the virtual CPU and reading it into any page, with the same descriptor, which
-- is not zero, where the page holds words, the segments have 13 bits of access rights, and the fixed bits
-- of the processor are words. In the selected groups this keeps the registers, RSP, RIP and the flags, the
-- segments and the limits and bases of the tables, CR0, CR2, CR3, CR4, XCR0, SPEC_CTRL, DR7, the three
-- SYSENTER registers, the first in 32 bits, the interruptibility and activity states, TSC offset and
-- TSC_AUX, EFER, PAT, the SYSCALL registers, the PDPTEs, the EOI bitmaps, the TPR threshold and the
-- virtual interrupt status; the timeout comes back in whole units of the timer; and the event to be
-- injected, without its requests for windows, when the exit says that no entry took place.
pub load_vmx-save_vmx :
    (u u' : Utcb) (passthrough : Bool) (tsc : ℕ) (s : Vmx)
    → s.regs.mtd ≡ u.word mtd_word
    → u.word mtd_word ≢ 0
    → IsPage u
    → Words s
    → Transferred s.regs.vec s.fixed.timer_shift
        (u.word mtd_word)
        (load_vmx tsc u' (save_vmx u passthrough s)).0.word
        u.word
load_vmx-save_vmx u u' passthrough tsc s same ne page fixed =
    rw (load_vmx-save_vmx_lem tsc u u' passthrough s ne)
      (saved_state-Transferred u u' passthrough tsc s same page fixed)
