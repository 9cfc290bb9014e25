-- ===== src/Vmx.antt =====
-- The machine state behind a virtual CPU: the fields of its VMCS (include/vmx.hpp), its registers, its
-- MSR area, and what the processor requires of the controls. `Vmcs::read` and `Vmcs::write` act on the
-- current VMCS, which the operations first make that of the virtual CPU.
pub mod Encoding
pub mod Control
pub mod Masks
pub mod Save
pub mod Load
pub mod Transfer
use hedron.Prelude.{ℕ, ◌/◌, ◌%◌, ◌^◌, Bool, ◌&&◌, List, [], ◌∷◌, if◌then◌else◌, ◌==◌}
use hedron.Registers.{Regs}

-- `vmx_ctrl_cpu`
pub record CpuCtrl : Type 0 where
  pub set : ℕ
  pub clr : ℕ
  pub non_passthrough_set : ℕ

-- What `Vmcs` keeps for each CPU.
pub record Fixed : Type 0 where
  pub ctrl_0 : CpuCtrl
  pub ctrl_1 : CpuCtrl
  pub cr0_set : ℕ
  pub cr0_clr : ℕ
  pub cr0_mon : ℕ
  pub cr4_set : ℕ
  pub cr4_clr : ℕ
  pub cr4_mon : ℕ
  pub timer_shift : ℕ

-- The data of a `Msr_area`.
pub record MsrArea : Type 0 where
  pub star : ℕ
  pub lstar : ℕ
  pub fmask : ℕ
  pub kernel_gs_base : ℕ
  pub tsc_aux : ℕ

pub record Vmx : Type 0 where
  pub regs : Regs
  pub field : ℕ → ℕ
  pub msr : MsrArea
  pub fixed : Fixed
  -- the VMCS that the processor works on
  pub current : ℕ
  -- the flushes of `Vpid::flush`, newest first: whether global entries go too, and whose
  pub flushed : List (Bool × ℕ)

-- `regs->vmcs->make_current()`
unfoldable pub make_current : Vmx → Vmx
make_current s = record s { current = s.regs.err }

-- What a field keeps of a value: bits 13 and 14 of its encoding are its width, 16 bits, 64 bits, 32 bits or that
-- of a word.
abbrev pub in_field : ℕ → ℕ → ℕ
in_field i v =
    let width : ℕ = i / 2 ^ 13 % 4 in
    if width == 0 then v % 2 ^ 16 else if width == 2 then v % 2 ^ 32 else v

unfoldable pub write : ℕ → ℕ → Vmx → Vmx
write i v s = record s { field = λ k. if k == i then in_field i v else s.field k }

-- The writes that `if (b)` guards, to distinct fields.
abbrev pub write_fields : Bool → List (ℕ × ℕ) → (ℕ → ℕ) → ℕ → ℕ
write_fields b [] f k = f k
write_fields b ((i, v) ∷ ws) f k = if (k == i) && b then in_field i v else write_fields b ws f k
