-- ===== src/Syscall/Create.antt =====
-- The system calls that create kernel objects: src/syscall.cpp 235-478, their registers as
-- include/syscall.hpp reads them. `a` is the address that the allocator gives to the new
-- object, or `none` when it is out of memory, which is a panic (src/slab.cpp, src/buddy.cpp).
pub mod Outcome
pub mod Paths
pub mod Table
use hedron.Prelude.{
  ℕ, ◌-◌, ◌%◌, ◌^◌, Bool, true, false, ◌&&◌, ◌||◌, not, bit_and, Option, none, some, if◌then◌else◌,
  ◌==◌, ltb, leb,
}
use hedron.Word.{shr, inv, has_bits}
use hedron.Links.{update}
use hedron.Crd.{Crd, CrdType, make}
use hedron.Capability.{KobjectType, prm}
use hedron.Sched.{num_priorities}
use hedron.Syscall.{
  Kernel, Exit, Status, Kobject, flags, sel, sys_finish, cpu_online, lookup, object, insert_root,
}
use hedron.Syscall.Exit.{panicked}
use hedron.Syscall.Status.{success, bad_cap, bad_par, bad_cpu}
use hedron.Syscall.Services.{Services}

-- The permissions that the calls ask for: `PERM_OBJ_CREATION` of a domain, `PERM_CREATE_SC` and
-- `PERM_CREATE_PT` of an execution context.
abbrev pub perm_obj_creation : ℕ
perm_obj_creation = 0x1

abbrev perm_create_sc : ℕ
perm_create_sc = 0x4

abbrev perm_create_pt : ℕ
perm_create_pt = 0x8

-- `PERM_ALL` of each type of object, what a constructor passes on
unfoldable pub all_rights : KobjectType → ℕ
all_rights KobjectType.pd = perm_obj_creation
all_rights KobjectType.ec = 0xd
all_rights KobjectType.sc = 0x1
all_rights KobjectType.pt = 0x3
all_rights KobjectType.sm = 0x3
all_rights KobjectType.kp = 0x1
all_rights KobjectType.vcpu = 0x1

-- USER_ADDR and PAGE_MASK
abbrev user_addr : ℕ
user_addr = 0x7fff_ffff_f000

abbrev pub page_mask : ℕ
page_mask = 0xfff

unfoldable pub is_passthrough : Kobject → Bool
is_passthrough (Kobject.pd_object p) = p
is_passthrough _ = false

-- `Qpd`
unfoldable pub prio : ℕ → ℕ
prio v = bit_and v 0xff

unfoldable quantum : ℕ → ℕ
quantum v = shr v 12 % 2 ^ 32

pub glb : Kobject → Bool
glb (Kobject.ec_object e) = e.glb
glb _ = false

ec_cpu : Kobject → ℕ
ec_cpu (Kobject.ec_object e) = e.cpu
ec_cpu _ = 0

-- `Kp::INVALID_USER_ADDR`
abbrev pub invalid_user_addr : ℕ
invalid_user_addr = 0x7fff_ffff_f001

module _ {ℓ} {W : Type ℓ} where
  -- An object found through a capability, or the status of a call without one.
  unfoldable pub with_object : Kernel W → Option ℕ → (ℕ → Exit W) → Exit W
  with_object k none next = sys_finish bad_cap k
  with_object k (some o) next = next o

  -- `if (EXPECT_FALSE(…)) sys_finish<…>();`
  unfoldable pub fail_if : Kernel W → Bool → Status → Exit W → Exit W
  fail_if k true st next = sys_finish st k
  fail_if k false st next = next

  -- new T(Pd::current(), sel, …), once there is memory
  unfoldable pub constructed : Kernel W → ℕ → Kobject → W → Kernel W
  constructed k a o w = record k { heap = update k.heap a o; world = w }

  -- delete, of an object that is not entered
  unfoldable pub deleted : Services W → Kernel W → Kobject → W → Kernel W
  deleted s k o w = record k { world = s.destroy o w }

  -- The end of `insert_root`: the capability is written to a page, which is allocated if it is missing.
  unfoldable pub tabled : Services W → ℕ → (ℕ → Kernel W → Exit W) → Kernel W → Exit W
  tabled s a next k = elim (s.table_page k.pd (sel k) k.world) [
    | none ↦ panicked
    | some w ↦ next a (record k { world = w })
  ]

  -- The object is entered into the current object space or else deleted again.
  unfoldable pub linked :
      Services W → Kernel W → ℕ → Kobject → ℕ → (ℕ → Kernel W → Exit W) → W → Exit W
  unfolding constructed deleted tabled
  linked s k a o rights next w = elim (insert_root (constructed k a o w) a (sel k) rights) [
    | none ↦ sys_finish bad_cap (deleted s k o w)
    | some k' ↦ tabled s a next k'
  ]

  -- The object is made, if the allocator and the constructor have memory, and entered.
  unfoldable pub created :
      Services W → Kernel W → Option ℕ → Kobject → ℕ → (ℕ → Kernel W → Exit W) → Exit W
  unfolding linked
  created s k none o rights next = panicked
  created s k (some a) o rights next = elim (s.construct o k.world) [
    | none ↦ panicked
    | some w ↦ linked s k a o rights next w
  ]

  unfoldable pub delegated : Services W → ℕ → Kernel W → Exit W
  delegated s a k =
      elim (s.del_crd a k.pd (make CrdType.obj 0 0x1f 0x1f) (record { value = k.arg_3 }) k.world) [
        | none ↦ panicked
        | some w ↦ sys_finish success (record k { world = w })
      ]

  unfoldable pub new_pd : Kernel W → ℕ → Kobject
  unfolding is_passthrough
  new_pd k parent = Kobject.pd_object (has_bits (flags k) 0x1 && is_passthrough (k.heap parent))

  unfoldable pub create_pd : Services W → Kernel W → Option ℕ → Exit W
  unfolding delegated new_pd
  create_pd s k a =
      with_object k (object k KobjectType.pd k.arg_2 perm_obj_creation)
        λ parent. created s k a (new_pd k parent) (prm (lookup k k.arg_2)) (delegated s)

  -- `Sys_create_ec::user_page`: the mask is an `int`, which is extended with its sign
  unfoldable user_page : Kernel W → ℕ
  user_page k = bit_and k.arg_3 (inv 0xfff)

  new_ec : Kernel W → ℕ → Kobject
  unfolding user_page
  new_ec k pd = Kobject.ec_object (record {
    pd = pd;
    pd_user_page = if has_bits (flags k) 0x8 then k.pd else pd;
    cpu = bit_and k.arg_3 0xfff;
    glb = has_bits (flags k) 0x1;
    evt = k.arg_5 % 2 ^ 32;
    user_utcb = user_page k;
    sp = k.arg_4;
  })

  unfoldable pub create_ec : Services W → Kernel W → Option ℕ → Exit W
  unfolding user_page new_ec all_rights
  create_ec s k a = fail_if k (not (cpu_online k (bit_and k.arg_3 0xfff))) bad_cpu (
      with_object k (object k KobjectType.pd k.arg_2 perm_obj_creation) λ pd.
        fail_if k (leb user_addr (user_page k) || has_bits (user_page k) page_mask) bad_par (
          fail_if k (has_bits (flags k) 0x6) bad_par
            (created s k a (new_ec k pd) (all_rights KobjectType.ec) (λ _. sys_finish success))))

  enqueued : Services W → ℕ → Kernel W → Exit W
  enqueued s a k = sys_finish success (record k { world = s.remote_enqueue a k.world })

  unfoldable pub create_sc : Services W → Kernel W → Option ℕ → Exit W
  unfolding enqueued all_rights glb ec_cpu prio quantum
  create_sc s k a = with_object k (object k KobjectType.pd k.arg_2 perm_obj_creation) λ _.
      with_object k (object k KobjectType.ec k.arg_3 perm_create_sc) λ ec.
        fail_if k (not (glb (k.heap ec))) bad_cap (
          fail_if k (prio k.arg_4 == 0 || quantum k.arg_4 == 0 || leb num_priorities (prio k.arg_4))
            bad_par
            (created s k a
              (Kobject.sc_object
                (record { ec = ec; cpu = ec_cpu (k.heap ec); prio = prio k.arg_4 }))
              (all_rights KobjectType.sc) (enqueued s)))

  unfoldable pub create_pt : Services W → Kernel W → Option ℕ → Exit W
  unfolding all_rights glb
  create_pt s k a = with_object k (object k KobjectType.pd k.arg_2 perm_obj_creation) λ _.
      with_object k (object k KobjectType.ec k.arg_3 perm_create_pt) λ ec.
        fail_if k (glb (k.heap ec)) bad_cap (
          created s k a
            (Kobject.pt_object (record { ec = ec; mtd = k.arg_4; ip = k.arg_5; id = 0 }))
            (all_rights KobjectType.pt) (λ _. sys_finish success))

  unfoldable pub create_sm : Services W → Kernel W → Option ℕ → Exit W
  unfolding all_rights
  create_sm s k a = with_object k (object k KobjectType.pd k.arg_2 perm_obj_creation) λ _.
      created s k a (Kobject.sm_object k.arg_3) (all_rights KobjectType.sm)
        (λ _. sys_finish success)

  unfoldable pub create_kp : Services W → Kernel W → Option ℕ → Exit W
  unfolding all_rights
  create_kp s k a = with_object k (object k KobjectType.pd k.arg_2 perm_obj_creation) λ _.
      created s k a
        (Kobject.kp_object (record { pd_user_page = none; addr_in_user_space = invalid_user_addr }))
        (all_rights KobjectType.kp) (λ _. sys_finish success)

  unfoldable pub create_vcpu : Services W → Kernel W → Option ℕ → Exit W
  unfolding all_rights
  create_vcpu s k a = fail_if k (not (cpu_online k (bit_and k.arg_2 0xfff))) bad_cpu (
      with_object k (object k KobjectType.pd (shr k.arg_2 12) perm_obj_creation) λ pd.
        with_object k (object k KobjectType.kp k.arg_3 0) λ state.
          with_object k (object k KobjectType.kp k.arg_4 0) λ vlapic.
            with_object k (object k KobjectType.kp k.arg_5 0) λ fpu.
              created s k a
                (Kobject.vcpu_object (record {
                  pd = pd;
                  kp_vcpu_state = state;
                  kp_vlapic_page = vlapic;
                  kp_fpu_state = fpu;
                  cpu_id = bit_and k.arg_2 0xfff;
                  owner = none;
                }))
                (all_rights KobjectType.vcpu) (λ _. sys_finish success))
