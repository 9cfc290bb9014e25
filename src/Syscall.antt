-- ===== src/Syscall.antt =====
-- The system calls of src/syscall.cpp: the registers of the caller (include/regs.hpp), the kernel
-- objects, the capabilities of the current protection domain, and how a system call returns.
pub mod Services
pub mod Create
pub mod Objects
pub mod PdControl
pub mod Control
use hedron.Prelude.{
  ℕ, zero, ◌+◌, ◌%◌, ◌^◌, max, Bool, true, false, ◌&&◌, ◌||◌, not, bit_and, bit_or, bit_xor, Option,
  none, some, List, [], ◌∷◌, if◌then◌else◌, ◌==◌, ltb,
}
use hedron.Word.{shr}
use hedron.Links.{update}
use hedron.Capability.{Capability, KobjectType, make, cast}

-- `enum Status` of `Sys_regs`
pub data Status : Type 0 where
  success com_tim com_abt bad_hyp bad_cap bad_par bad_ftr bad_cpu bad_dev oom busy : Status

pub status_code : Status → ℕ
status_code success = 0
status_code com_tim = 1
status_code com_abt = 2
status_code bad_hyp = 3
status_code bad_cap = 4
status_code bad_par = 5
status_code bad_ftr = 6
status_code bad_cpu = 7
status_code bad_dev = 8
status_code oom = 9
status_code busy = 10

-- What the system calls read and write of each kind of object; an object is named by its address.
pub record EcObject : Type 0 where
  pub pd : ℕ
  pub pd_user_page : ℕ
  pub cpu : ℕ
  pub glb : Bool
  pub evt : ℕ
  pub user_utcb : ℕ
  pub sp : ℕ

pub record ScObject : Type 0 where
  pub ec : ℕ
  pub cpu : ℕ
  pub prio : ℕ

pub record PtObject : Type 0 where
  pub ec : ℕ
  pub mtd : ℕ
  pub ip : ℕ
  pub id : ℕ

pub record KpObject : Type 0 where
  pub pd_user_page : Option ℕ
  pub addr_in_user_space : ℕ

pub record VcpuObject : Type 0 where
  pub pd : ℕ
  pub kp_vcpu_state : ℕ
  pub kp_vlapic_page : ℕ
  pub kp_fpu_state : ℕ
  pub cpu_id : ℕ
  pub owner : Option ℕ

pub data Kobject : Type 0 where
  -- whether it has passthrough access
  pd_object : Bool → Kobject
  ec_object : EcObject → Kobject
  sc_object : ScObject → Kobject
  pt_object : PtObject → Kobject
  -- its counter
  sm_object : ℕ → Kobject
  kp_object : KpObject → Kobject
  vcpu_object : VcpuObject → Kobject

unfoldable pub object_type : Kobject → KobjectType
object_type (pd_object _) = KobjectType.pd
object_type (ec_object _) = KobjectType.ec
object_type (sc_object _) = KobjectType.sc
object_type (pt_object _) = KobjectType.pt
object_type (sm_object _) = KobjectType.sm
object_type (kp_object _) = KobjectType.kp
object_type (vcpu_object _) = KobjectType.vcpu

-- A mapping node of an object space.
pub record Node : Type 0 where
  pub base : ℕ
  pub order : ℕ
  pub phys : ℕ
  pub attr : ℕ

-- The state that a system call works on. `W` is the rest of the kernel.
pub record Kernel {ℓ} (W : Type ℓ) : Type ℓ where
  pub arg_1 : ℕ
  pub arg_2 : ℕ
  pub arg_3 : ℕ
  pub arg_4 : ℕ
  pub arg_5 : ℕ
  -- the current domain and execution context, the latter's `vcpu`, and this CPU
  pub pd : ℕ
  pub ec : ℕ
  pub vcpu : Option ℕ
  pub cpu : ℕ
  -- the object space of the current domain: its capability table and the nodes of its tree
  pub slots : ℕ → Capability
  pub tree : List Node
  pub heap : ℕ → Kobject
  -- the objects' reference counts, and those handed to `Rcu::call`, newest first
  pub refs : ℕ → ℕ
  pub rcu : List ℕ
  -- the flags of the CPU descriptors of the information page
  pub cpu_flags : ℕ → ℕ
  pub world : W

-- What the caller goes on with when it runs again: the function that the call leaves in its `cont`.
pub data Resume : Type 0 where
  ret_user_sysexit : Resume
  finishes : Status → Resume

-- A system call returns to its caller; or the CPU goes on with another context, until the caller runs again;
-- or it runs the virtual CPU of the caller; or the kernel panics.
pub data Exit {ℓ} (W : Type ℓ) : Type ℓ where
  returned : Kernel W → Exit W
  switched : Resume → Kernel W → Exit W
  runs_vcpu : Kernel W → Exit W
  panicked : Exit W

-- NUM_CPU
abbrev pub num_cpu : ℕ
num_cpu = 128

-- `Space_obj::caps`, the number of capabilities that fit into the 0x2000_0000 bytes of the space
abbrev pub caps : ℕ
caps = 0x400_0000

-- `Mdb::equal` of a node of order 0
unfoldable pub conflicts : ℕ → Node → Bool
conflicts b n = shr (bit_xor b n.base) (max 0 n.order) == 0

unfoldable pub occupied : ℕ → List Node → Bool
unfolding conflicts
occupied b [] = false
occupied b (n ∷ ns) = conflicts b n || occupied b ns

module _ {ℓ} {W : Type ℓ} where
  unfoldable pub id : Kernel W → ℕ
  id k = bit_and k.arg_1 0xff

  unfoldable pub flags : Kernel W → ℕ
  flags k = bit_and (shr k.arg_1 8) 0xf

  -- `ARG_1 >> ARG1_VALUE_SHIFT`, the selector that a call is about
  unfoldable pub sel : Kernel W → ℕ
  sel k = shr k.arg_1 12

  -- `Vcpu::release`, with its assertion that the caller is the owner
  released : Kernel W → ℕ → Kobject → Option (Kernel W)
  released k v (vcpu_object o) = elim o.owner [
    | none ↦ none
    | some e ↦
        if e == k.ec
        then some (record k {
          heap = update k.heap v (vcpu_object (record o { owner = none }));
          vcpu = none;
        })
        else none
  ]
  released k v _ = none

  unfoldable pub release_vcpu : Kernel W → Option (Kernel W)
  unfolding released
  release_vcpu k = elim k.vcpu [ none ↦ some k | some v ↦ released k v (k.heap v) ]

  unfoldable pub sys_finish : Status → Kernel W → Exit W
  unfolding release_vcpu status_code
  sys_finish s k = elim (release_vcpu k) [
    | none ↦ panicked
    | some k' ↦ returned (record k' { arg_1 = status_code s })
  ]

  unfoldable pub cpu_online : Kernel W → ℕ → Bool
  cpu_online k c = ltb c num_cpu && (bit_and (k.cpu_flags c) 1 == 1)

  -- `Space_obj::lookup`
  unfoldable pub lookup : Kernel W → ℕ → Capability
  lookup k idx = k.slots (idx % caps)

  -- capability_cast<T>(Space_obj::lookup(idx), required)
  unfoldable pub object : Kernel W → KobjectType → ℕ → ℕ → Option ℕ
  unfolding object_type lookup
  object k t idx required = cast (λ a. object_type (k.heap a)) t (lookup k idx) required

  -- `Space_obj::insert_root`, for an object of the current domain with this selector and these rights
  unfoldable pub insert_root : Kernel W → ℕ → ℕ → ℕ → Option (Kernel W)
  unfolding occupied
  insert_root k a b attr =
      if occupied b k.tree
      then none
      else some (record k {
        tree = record { base = b; order = 0; phys = a; attr = attr } ∷ k.tree;
        slots = update k.slots (b % caps) (make a attr);
      })
