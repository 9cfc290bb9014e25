-- ===== src/Registers.antt =====
-- The registers of an execution context or a virtual CPU: include/regs.hpp. One memory area holds
-- the frame of an exception or, for a virtual CPU, other values: `err` is then the pointer `vmcs`,
-- `vec` the field `dst_portal`, `rip` is `xcr0`, `cs`, `rfl` and `rsp` are the shadows of CR0, CR3 and
-- CR4, and `ss` is `spec_ctrl`.
use hedron.Prelude.{ℕ}

pub record Regs : Type 0 where
  pub r15 : ℕ
  pub r14 : ℕ
  pub r13 : ℕ
  pub r12 : ℕ
  pub r11 : ℕ
  pub r10 : ℕ
  pub r9 : ℕ
  pub r8 : ℕ
  pub rdi : ℕ
  pub rsi : ℕ
  pub rbp : ℕ
  pub cr2 : ℕ
  pub rbx : ℕ
  pub rdx : ℕ
  pub rcx : ℕ
  pub rax : ℕ
  pub err : ℕ
  pub vec : ℕ
  pub rip : ℕ
  pub cs : ℕ
  pub rfl : ℕ
  pub rsp : ℕ
  pub ss : ℕ
  pub exc_bitmap : ℕ
  pub mtd : ℕ

-- The names of the same fields in a virtual CPU.
abbrev pub dst_portal : Regs → ℕ
dst_portal r = r.vec

abbrev pub xcr0 : Regs → ℕ
xcr0 r = r.rip

abbrev pub cr0_shadow : Regs → ℕ
cr0_shadow r = r.cs

abbrev pub cr4_shadow : Regs → ℕ
cr4_shadow r = r.rsp

abbrev pub spec_ctrl : Regs → ℕ
spec_ctrl r = r.ss

-- `ARG_1` is RDI, `ARG_IP` is RCX, `ARG_SP` is R11 (include/arch.hpp).
unfoldable pub set_pt : ℕ → Regs → Regs
set_pt v r = record r { rdi = v }

unfoldable pub set_ip : ℕ → Regs → Regs
set_ip v r = record r { rcx = v }
