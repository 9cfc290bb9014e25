-- ===== src/Timer.antt =====
-- The timeout of the VMX preemption timer: include/vmx_preemption_timer.hpp.
pub mod Timeout
use hedron.Prelude.{ℕ, ◌+◌, ◌-◌, ◌*◌, ◌/◌, ◌%◌, ◌^◌, not, if◌then◌else◌, ◌==◌, ltb}
use hedron.Word.{shl, shr, add64, sub64}

abbrev pub max_uint32 : ℕ
max_uint32 = 0xffff_ffff

-- `vmx_timer::calc_timeout(tsc_ticks, shift)`
unfoldable pub calc_timeout : ℕ → ℕ → ℕ
calc_timeout tsc_ticks shift =
    let precision_mask = sub64 (shl 1 shift) 1 in
    if ltb (add64 tsc_ticks precision_mask) tsc_ticks
    then max_uint32
    else (let rel_timeout = shr (add64 tsc_ticks precision_mask) shift in
        if not (rel_timeout == rel_timeout % 2 ^ 32) then max_uint32 else rel_timeout % 2 ^ 32)
