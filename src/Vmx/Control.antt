-- ===== src/Vmx/Control.antt =====
-- Control registers and execution controls of a guest: src/regs.cpp.
use hedron.Prelude.{
  ℕ, zero, suc, ◌^◌, Bool, true, false, bit_and, bit_or, ◌∷◌, Option, none, some, if◌then◌else◌,
  ◌==◌,
}
use hedron.Word.{inv, has_bits}
use hedron.Vmx.{Vmx, CpuCtrl, write}
use hedron.Vmx.Encoding.{
  vpid, guest_efer, cpu_exec_ctrl0, exc_bitmap, ent_controls, cpu_exec_ctrl1, cr0_mask, cr4_mask,
  cr0_read_shadow, cr4_read_shadow, guest_cr0, guest_cr3, guest_cr4, ent_guest_64, cpu_cr8_load,
  cpu_cr8_store, cpu_tpr_shadow, cpu_ept, cpu_vpid,
}

-- CR0_PE and EFER_LMA of include/cpu.hpp
abbrev pub cr0_pe : ℕ
cr0_pe = 2 ^ 0

abbrev pub efer_lma : ℕ
efer_lma = 2 ^ 10

-- the exception that is always intercepted
abbrev pub exc_ac : ℕ
exc_ac = 17

unfoldable pub cr0_msk : Bool → Vmx → ℕ
cr0_msk include_mon s =
    bit_or (bit_or s.fixed.cr0_clr s.fixed.cr0_set) (if include_mon then s.fixed.cr0_mon else 0)

unfoldable pub cr4_msk : Bool → Vmx → ℕ
cr4_msk include_mon s =
    bit_or (bit_or s.fixed.cr4_clr s.fixed.cr4_set) (if include_mon then s.fixed.cr4_mon else 0)

unfoldable pub get_cr0 : Vmx → ℕ
unfolding cr0_msk
get_cr0 s =
    let msk = cr0_msk false s in
    bit_or (bit_and (s.field guest_cr0) (inv msk)) (bit_and s.regs.cs msk)

unfoldable pub get_cr4 : Vmx → ℕ
unfolding cr4_msk
get_cr4 s =
    let msk = cr4_msk false s in
    bit_or (bit_and (s.field guest_cr4) (inv msk)) (bit_and s.regs.rsp msk)

-- What `set_cr0` and `set_cr4` write to the guest's register.
unfoldable pub guest_cr0_value : ℕ → Vmx → ℕ
unfolding cr0_msk
guest_cr0_value v s =
    bit_or (bit_and v (bit_or (inv (cr0_msk false s)) cr0_pe))
      (bit_and s.fixed.cr0_set (inv cr0_pe))

unfoldable pub guest_cr4_value : ℕ → Vmx → ℕ
unfolding cr4_msk
guest_cr4_value v s = bit_or (bit_and v (inv (cr4_msk false s))) s.fixed.cr4_set

-- The shadow is kept in the registers and in the VMCS.
unfoldable pub set_cr0 : ℕ → Vmx → Vmx
unfolding guest_cr0_value write
set_cr0 v s =
    let s' = write cr0_read_shadow v (write guest_cr0 (guest_cr0_value v s) s) in
    record s' { regs = record s.regs { cs = v } }

unfoldable pub set_cr4 : ℕ → Vmx → Vmx
unfolding guest_cr4_value write
set_cr4 v s =
    let s' = write cr4_read_shadow v (write guest_cr4 (guest_cr4_value v s) s) in
    record s' { regs = record s.regs { rsp = v } }

-- `none` is what the code calls unreached.
unfoldable pub read_cr : ℕ → Vmx → Option ℕ
unfolding get_cr0 get_cr4
read_cr zero s = some (get_cr0 s)
read_cr (suc zero) s = none
read_cr (suc (suc zero)) s = some s.regs.cr2
read_cr (suc (suc (suc zero))) s = some (s.field guest_cr3)
read_cr (suc (suc (suc (suc zero)))) s = some (get_cr4 s)
read_cr (suc (suc (suc (suc (suc _))))) s = none

unfoldable pub write_cr : ℕ → ℕ → Vmx → Option Vmx
unfolding set_cr0 set_cr4 write
write_cr zero v s = some (set_cr0 v s)
write_cr (suc zero) v s = none
write_cr (suc (suc zero)) v s = some (record s { regs = record s.regs { cr2 = v } })
write_cr (suc (suc (suc zero))) v s = some (write guest_cr3 v s)
write_cr (suc (suc (suc (suc zero)))) v s = some (set_cr4 v s)
write_cr (suc (suc (suc (suc (suc _))))) v s = none

-- `set_exc`, with `set_cr_masks`
unfoldable pub set_exc : Vmx → Vmx
unfolding write cr0_msk cr4_msk
set_exc s =
    write cr4_mask (cr4_msk true s)
      (write cr0_mask (cr0_msk true s) (write exc_bitmap (bit_or (2 ^ exc_ac) s.regs.exc_bitmap) s))

-- The value that a request for execution controls comes to.
unfoldable pub forced : CpuCtrl → Bool → ℕ → ℕ
forced c passthrough val =
    bit_and (bit_or (bit_or val c.set) (if passthrough then 0 else c.non_passthrough_set)) c.clr

unfoldable pub ctrl0_value : ℕ → Bool → Vmx → ℕ
unfolding forced
ctrl0_value val passthrough s =
    let v = forced s.fixed.ctrl_0 passthrough val in
    if has_bits v cpu_tpr_shadow then v else bit_or v (bit_or cpu_cr8_load cpu_cr8_store)

unfoldable pub ctrl1_value : ℕ → Bool → Vmx → ℕ
unfolding forced
ctrl1_value val passthrough s = forced s.fixed.ctrl_1 passthrough (bit_or val cpu_ept)

unfoldable pub vmx_set_cpu_ctrl0 : ℕ → Bool → Vmx → Vmx
unfolding write ctrl0_value
vmx_set_cpu_ctrl0 val passthrough s = write cpu_exec_ctrl0 (ctrl0_value val passthrough s) s

unfoldable pub vmx_set_cpu_ctrl1 : ℕ → Bool → Vmx → Vmx
unfolding write ctrl1_value
vmx_set_cpu_ctrl1 val passthrough s = write cpu_exec_ctrl1 (ctrl1_value val passthrough s) s

-- `nst_ctrl`
unfoldable pub nst_ctrl : Bool → Vmx → Vmx
unfolding set_cr0 set_cr4 get_cr0 get_cr4 write vmx_set_cpu_ctrl0 vmx_set_cpu_ctrl1 set_exc
nst_ctrl passthrough s =
    let s' = set_cr4 (get_cr4 s) (write guest_cr3 (s.field guest_cr3) (set_cr0 (get_cr0 s) s)) in
    let s'' = vmx_set_cpu_ctrl0 (s'.field cpu_exec_ctrl0) passthrough s' in
    set_exc (vmx_set_cpu_ctrl1 (s''.field cpu_exec_ctrl1) passthrough s'')

-- The entry control that follows `write_efer`.
unfoldable pub entry_value : ℕ → ℕ → ℕ
entry_value efer v =
    if has_bits efer efer_lma then bit_or v ent_guest_64 else bit_and v (inv ent_guest_64)

unfoldable pub write_efer : ℕ → Vmx → Vmx
unfolding write entry_value
write_efer v s = write ent_controls (entry_value v (s.field ent_controls)) (write guest_efer v s)

-- `tlb_flush`, with `Vmcs::vpid`
unfoldable pub tlb_flush : Bool → Vmx → Vmx
tlb_flush full s =
    let id = if has_bits s.fixed.ctrl_1.clr cpu_vpid then s.field vpid else 0 in
    if id == 0 then s else record s { flushed = (full, id) ∷ s.flushed }
