-- ===== src/Syscall/Objects.antt =====
-- The operations on kernel pages and on the ownership of virtual CPUs that the system calls use:
-- src/kp.cpp 51-135, src/vcpu.cpp 147-163, src/ec_vmx.cpp 45-54.
pub mod Mapping
pub mod Ownership
use hedron.Prelude.{
  ℕ, ◌-◌, ◌%◌, ◌^◌, Bool, true, false, ◌&&◌, ◌||◌, not, bit_and, Option, none, some, ◌∷◌,
  if◌then◌else◌, ◌==◌, ltb, leb,
}
use hedron.Word.{has_bits}
use hedron.Links.{update}
use hedron.Refcount.{add_ref, del_rcu}
use hedron.Syscall.{Kernel, Kobject, KpObject, VcpuObject}
use hedron.Syscall.Services.{Services}
use hedron.Syscall.Create.{page_mask, invalid_user_addr}

unfoldable pub has_user_mapping : KpObject → Bool
has_user_mapping o = elim o.pd_user_page [
  | none ↦ false
  | some _ ↦ leb o.addr_in_user_space invalid_user_addr
]

-- `Vcpu_acquire_result`, with the object as the operation leaves it
pub data Acquired : Type 0 where
  acquired : Kobject → Acquired
  bad_cpu busy : Acquired

module _ {ℓ} {W : Type ℓ} where
  -- The object itself gives up: `if (!p->add_ref())`.
  unfoldable pub hold : Kernel W → ℕ → Option (Kernel W)
  unfolding add_ref
  hold k p =
      let (ok, r) = add_ref (k.refs p) in
      if ok then some (record k { refs = update k.refs p r }) else none

  -- if (p->del_rcu()) Rcu::call(p);
  unfoldable pub drop : Kernel W → ℕ → Kernel W
  unfolding del_rcu
  drop k p =
      let (gone, r) = del_rcu (k.refs p) in
      if gone
      then record k { refs = update k.refs p r; rcu = p ∷ k.rcu }
      else record k { refs = update k.refs p r }

  mapped : Services W → Kernel W → ℕ → KpObject → ℕ → ℕ → Kernel W
  mapped s k kp o pd addr = record k {
    heap =
        update k.heap kp
          (Kobject.kp_object (record o { pd_user_page = some pd; addr_in_user_space = addr }));
    world = s.map_page pd addr kp k.world;
  }

  -- `Kp::add_user_mapping`. A failed `add_ref` leaves `pd_user_page` null, as it was.
  unfoldable pub add_user_mapping : Services W → Kernel W → ℕ → KpObject → ℕ → ℕ → Bool × Kernel W
  unfolding has_user_mapping hold mapped
  add_user_mapping s k kp o pd addr =
      if has_user_mapping o
      then (false, k)
      else if has_bits addr page_mask || leb invalid_user_addr addr
      then (false, k)
      else elim (hold k pd) [
        | none ↦ (
          false,
          record k {
            heap = update k.heap kp (Kobject.kp_object (record o { pd_user_page = none }));
          },
        )
        | some k' ↦ (true, mapped s k' kp o pd addr)
      ]

  unmapped : Services W → Kernel W → ℕ → KpObject → ℕ → Kernel W
  unmapped s k kp o pd = record k {
    heap = update k.heap kp (
        Kobject.kp_object (record { pd_user_page = none; addr_in_user_space = invalid_user_addr }));
    world = s.unmap_page pd o.addr_in_user_space k.world;
  }

  -- `Kp::remove_user_mapping`
  unfoldable pub remove_user_mapping : Services W → Kernel W → ℕ → KpObject → Bool × Kernel W
  unfolding has_user_mapping drop unmapped
  remove_user_mapping s k kp o = elim o.pd_user_page [
    | none ↦ (false, k)
    | some pd ↦ if has_user_mapping o then (true, unmapped s (drop k pd) kp o pd) else (false, k)
  ]

  -- `Vcpu::try_acquire`
  unfoldable pub try_acquire : Kernel W → VcpuObject → Acquired
  try_acquire k o = if not (o.cpu_id == k.cpu) then bad_cpu else elim o.owner [
    | none ↦ acquired (Kobject.vcpu_object (record o { owner = some k.ec }))
    | some _ ↦ busy
  ]

  -- The result of `Ec::try_acquire_vcpu`, past its assertion that the context has no virtual CPU.
  unfoldable pub claim : Kernel W → ℕ → Kobject → Kernel W
  claim k v o = record k { heap = update k.heap v o; vcpu = some v }
