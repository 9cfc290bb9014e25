-- ===== src/Ipc/Call.antt =====
-- A call: `sys_call` and `send_msg` of src/syscall.cpp, and `help` of include/ec.hpp.
use hedron.Prelude.{ℕ, ◌+◌, ◌%◌, ◌^◌, not, Option, none, some, if◌then◌else◌, ◌==◌, ltb}
use hedron.Word.{shr, has_bits}
use hedron.Links.{update}
use hedron.Registers.{set_pt, set_ip}
use hedron.Syscall.{Status}
use hedron.Ipc.State.{
  Cont, is_dead, is_null, Ipc, Next, Portal, Services, xcpu, set_partner, return_to_user, activate,
}
use hedron.Ipc.State.Cont.{ret_user_sysexit, sys_call, send_msg, recv_user, recv_kern}
use hedron.Ipc.State.Next.{finishes, panicked}
use hedron.Ipc.Reply.{die}

module _ {ℓ} {W : Type ℓ} (s : Services W) where
  -- `ec->help(c)`, where it gives the CPU to the context that the other waits for; `none` is its return.
  unfoldable pub help : ℕ → ℕ → Cont → Ipc W → Option (Next W)
  help f ec c k =
      let k' = record k {
        cont = update k.cont k.current (some c);
        ctr_loop = (k.ctr_loop + 1) % 2 ^ 32;
      } in
      if is_dead (k.cont ec)
      then none
      else if ltb ((k.ctr_loop + 1) % 2 ^ 32) 100
      then some (activate s f ec k')
      else some (die s f k')

  -- The caller is bound to the context of the portal, which starts at the portal's entry.
  unfoldable pub bound : Cont → Cont → Portal → Ipc W → Next W
  bound mine its pt k =
      let me = k.current in
      let waiting = record k { cont = update k.cont me (some mine) } in
      elim (set_partner pt.ec waiting) [
        | none ↦ panicked
        | some k' ↦ return_to_user s pt.ec (record k' {
          cont = update k'.cont pt.ec (some its);
          regs = update k'.regs pt.ec (set_ip pt.ip (set_pt pt.id (k'.regs pt.ec)));
        })
      ]

  -- An exception goes to the portal at `evt` and the number of the exception.
  unfoldable pub send_msg_step : ℕ → Cont → Ipc W → Next W
  send_msg_step f c k =
      let me = k.current in
      elim (s.portal (k.evt me + (k.regs me).vec) k.rest) [
        | none ↦ die s f k
        | some pt ↦
            if not (k.cpu me == xcpu k pt.ec)
            then die s f k
            else if is_null (k.cont pt.ec)
            then bound c recv_kern pt
                (record k { regs = update k.regs me (record (k.regs me) { mtd = pt.mtd }) })
            else elim (help f pt.ec (send_msg c) k) [ none ↦ die s f k | some n ↦ n ]
      ]

  -- `DISABLE_BLOCKING` is the lowest flag.
  unfoldable pub sys_call_step : ℕ → Ipc W → Next W
  sys_call_step f k =
      let me = k.current in
      let arg = (k.regs me).rdi in
      elim (s.portal (shr arg 12) k.rest) [
        | none ↦ finishes Status.bad_cap k
        | some pt ↦
            if not (k.cpu me == xcpu k pt.ec)
            then finishes Status.bad_cpu k
            else if is_null (k.cont pt.ec)
            then bound ret_user_sysexit recv_user pt k
            else if has_bits arg 0x100
            then finishes Status.com_tim k
            else elim (help f pt.ec sys_call k) [ none ↦ finishes Status.com_tim k | some n ↦ n ]
      ]
