-- ===== src/Syscall/PdControl.antt =====
-- The system calls on protection domains: src/syscall.cpp 480-634, their registers as
-- include/syscall.hpp reads them.
use hedron.Prelude.{
  ℕ, zero, suc, ◌%◌, ◌^◌, Bool, true, false, ◌||◌, not, bit_and, Option, none, some, List, [], ◌∷◌,
  ◌⊎◌, inl, inr, if◌then◌else◌, ◌==◌,
}
use hedron.Word.{shl, has_bits}
use hedron.Crd.{Crd, CrdType, Xfer, make, type, attr, order, base}
use hedron.Capability.{KobjectType}
use hedron.Syscall.{Kernel, Exit, Status, Node, flags, sel, sys_finish, object, conflicts}
use hedron.Syscall.Status.{success, bad_cap, bad_par, oom}
use hedron.Syscall.Services.{Services, DelegateError}
use hedron.Syscall.Create.{with_object, fail_if, is_passthrough}
use hedron.Syscall.Objects.{hold, drop}

-- `Mdb::lookup` in the object space
unfoldable find_node : ℕ → List Node → Option Node
unfolding conflicts
find_node b [] = none
find_node b (n ∷ ns) = if conflicts b n then some n else find_node b ns

is_mem : CrdType → Bool
is_mem CrdType.mem = true
is_mem _ = false

-- `to_syscall_status` of an error of a delegation
delegate_status : DelegateError → Status
delegate_status DelegateError.out_of_memory = oom
delegate_status DelegateError.invalid_mapping = bad_par

module _ {ℓ} {W : Type ℓ} where
  crd_2 : Kernel W → Crd
  crd_2 k = record { value = k.arg_2 }

  revoked : Services W → Kernel W → ℕ → Kernel W
  unfolding crd_2
  revoked s k p = record k { world = s.rev_crd p (crd_2 k) (has_bits (flags k) 0x1) k.world }

  with_held : Kernel W → Option (Kernel W) → (Kernel W → Exit W) → Exit W
  with_held k none next = sys_finish bad_cap k
  with_held k (some k') next = next k'

  -- A remote domain is held while it works, and released after.
  unfoldable pub sys_revoke : Services W → Kernel W → Exit W
  unfolding revoked with_held
  sys_revoke s k =
      if has_bits (flags k) 0x2
      then (with_object k (object k KobjectType.pd k.arg_3 0)
          λ p. with_held k (hold k p) λ k'. sys_finish success (drop (revoked s k' p) p))
      else sys_finish success (revoked s k k.pd)

  -- Memory has no tree of nodes.
  looked_up : Services W → Kernel W → CrdType → ℕ → Option Node
  unfolding find_node
  looked_up s k CrdType.pio b = s.pio_lookup b k.world
  looked_up s k CrdType.obj b = find_node b k.tree
  looked_up s k _ b = none

  unfoldable pub sys_pd_ctrl_lookup : Services W → Kernel W → Exit W
  unfolding looked_up crd_2
  sys_pd_ctrl_lookup s k = elim (looked_up s k (type (crd_2 k)) (base (crd_2 k))) [
    | none ↦ sys_finish success (record k { arg_2 = 0 })
    | some n ↦
        sys_finish success
          (record k { arg_2 = (make (type (crd_2 k)) n.base n.order n.attr).value })
  ]

  unfoldable pub sys_pd_ctrl_map_access_page : Services W → Kernel W → Exit W
  unfolding crd_2 is_mem
  sys_pd_ctrl_map_access_page s k =
      let c = crd_2 k in
      fail_if k (not (is_mem (type c)) || not (attr c == 0x3) || not (order c == 0)) bad_par (
        sys_finish success (record k {
          world = s.map_guest k.pd (shl (base c) 12) (s.access_page k.pd k.world) k.world;
        }))

  delegate_done : Kernel W → (DelegateError ⊎ Xfer) × W → Exit W
  unfolding delegate_status
  delegate_done k (inl e, w) = sys_finish (delegate_status e) (record k { world = w })
  delegate_done k (inr x, w) =
      sys_finish success (record k { arg_3 = x.crd.value; arg_4 = x.metadata; world = w })

  unfoldable pub sys_pd_ctrl_delegate : Services W → Kernel W → Exit W
  unfolding delegate_done
  sys_pd_ctrl_delegate s k = with_object k (object k KobjectType.pd (sel k) 0) λ src.
      with_object k (object k KobjectType.pd k.arg_2 0) λ dst. delegate_done k (
        s.xfer_item dst src (record { value = k.arg_5 }) (record { value = k.arg_5 })
          (record { crd = record { value = k.arg_3 }; metadata = k.arg_4 }) k.world)

  msr_index : Kernel W → ℕ
  msr_index k = sel k % 2 ^ 32

  msr_done : Bool → Kernel W → Exit W
  msr_done true k = sys_finish success k
  msr_done false k = sys_finish bad_par k

  msr_access : Services W → Kernel W → Exit W
  unfolding msr_index msr_done
  msr_access s k =
      if has_bits (flags k) 0x4
      then (let (ok, w) = s.msr_write (msr_index k) k.arg_2 k.world in
          msr_done ok (record k { world = w }))
      else (let (ok, v) = s.msr_read (msr_index k) k.world in msr_done ok (record k { arg_2 = v }))

  unfoldable pub sys_pd_ctrl_msr_access : Services W → Kernel W → Exit W
  unfolding msr_access
  sys_pd_ctrl_msr_access s k =
      fail_if k (not (is_passthrough (k.heap k.pd))) bad_cap (msr_access s k)

  -- The sub-operation, two bits of the flags.
  unfoldable pub op : Kernel W → ℕ
  op k = bit_and (flags k) 0x3

  unfoldable pub sys_pd_ctrl : Services W → Kernel W → Exit W
  sys_pd_ctrl s k = elim (op k) [
    | zero ↦ sys_pd_ctrl_lookup s k
    | suc zero ↦ sys_pd_ctrl_map_access_page s k
    | suc (suc zero) ↦ sys_pd_ctrl_delegate s k
    | suc (suc (suc zero)) ↦ sys_pd_ctrl_msr_access s k
    | suc (suc (suc (suc _))) ↦ sys_finish bad_par k
  ]
