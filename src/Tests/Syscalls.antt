-- ===== src/Tests/Syscalls.antt =====
-- Calls that create objects at concrete states.
use hedron.Prelude.{
  ℕ, ◌+◌, ◌<◌, ◌≡◌, inr, true, false, none, some, [], ◌∷◌, refl, arith, if◌then◌else◌, ◌==◌,
}
use hedron.Capability.{Capability, KobjectType, cast, obj, prm}
use hedron.Links.{update}
use hedron.Syscall.{
  Kernel, Exit, Status, status_code, Kobject, KpObject, VcpuObject, Node, id, sel, sys_finish,
  lookup, object, caps, insert_root, Resume,
}
use hedron.Syscall.Exit.{returned, switched}
use hedron.Syscall.Services.{Services}
use hedron.Syscall.Create.{create_sm, with_object, created, linked, tabled}
use hedron.Syscall.Create.Outcome.{create, rights, Outcome}
use hedron.Syscall.Create.Table.{cap_at, Sound, create-Sound, create_past_caps}

-- The rest of the kernel counts the calls into it.
abbrev pub services : Services ℕ
services = record {
  construct = λ o w. some (w + 1);
  destroy = λ o w. w + 1;
  table_page = λ p i w. some w;
  del_crd = λ p q c d w. some (w + 1);
  remote_enqueue = λ sc w. w + 1;
  rev_crd = λ p c self w. w + 1;
  xfer_item = λ p q c d x w. (inr x, w + 1);
  pio_lookup = λ b w. none;
  access_page = λ p w. 0x1000;
  map_guest = λ p b f w. w + 1;
  map_page = λ p b f w. w + 1;
  unmap_page = λ p b w. w + 1;
  msr_write = λ i v w. (true, w + 1);
  msr_read = λ i w. (true, 0);
  sc_time = λ sc w. 100;
  freq_tsc = λ w. 1000;
  sm_up = λ p c w. (c + 1, w);
  sm_dn = λ p z c w. (false, 0, w);
  vcpu_run = λ v m w. w + 1;
  vcpu_poke = λ v w. w + 1;
  waking_vector = λ w. 0;
  suspend = λ a b w. (true, w);
  load_microcode = λ a w. w + 1;
  call = λ pt k. switched Resume.ret_user_sysexit k;
  reply = λ sm k. switched Resume.ret_user_sysexit k;
}

-- Domain 0x100 has a capability to itself, with the right to create, at selector 1.
abbrev root : Node
root = record { base = 1; order = 0; phys = 0x100; attr = 1 }

abbrev pub a_vcpu : VcpuObject
a_vcpu = record {
  pd = 0x100;
  kp_vcpu_state = 0x200;
  kp_vlapic_page = 0x200;
  kp_fpu_state = 0x200;
  cpu_id = 0;
  owner = none;
}

-- `create_sm` at selector 5 with the count 3
abbrev pub kernel : Kernel ℕ
kernel = record {
  arg_1 = 0x5006;
  arg_2 = 1;
  arg_3 = 3;
  arg_4 = 0;
  arg_5 = 0;
  pd = 0x100;
  ec = 0x300;
  vcpu = none;
  cpu = 0;
  slots = λ i. if i == 1 then hedron.Capability.make 0x100 1 else record { value = 0 };
  tree = root ∷ [];
  heap = λ a. if a == 0x100 then Kobject.pd_object false else Kobject.sm_object 0;
  refs = λ a. 1;
  rcu = [];
  cpu_flags = λ c. 1;
  world = 0;
}

kernel-Sound : Sound kernel
unfolding cap_at hedron.Syscall.occupied
kernel-Sound = record {
  small = ((refl, omega arith), tt);
  once = (refl, tt);
  table = λ i h. ground arith;
}

-- What it leaves: the semaphore at 0x400.
abbrev with_sm : Kernel ℕ
with_sm = record kernel {
  arg_1 = 0;
  slots = update kernel.slots 5 (hedron.Capability.make 0x400 3);
  tree = record { base = 5; order = 0; phys = 0x400; attr = 3 } ∷ root ∷ [];
  heap = update kernel.heap 0x400 (Kobject.sm_object 3);
  world = 1;
}

creates_sm : create KobjectType.sm services kernel (some 0x400) ≡ returned with_sm
unfolding create create_sm with_object created linked tabled insert_root sys_finish object lookup
    sel cast obj prm hedron.Capability.make hedron.Capability.same_type
creates_sm = refl

sel_small : sel kernel < caps
unfolding sel
sel_small = omega arith

create-Sound_example : Sound with_sm
create-Sound_example =
    create-Sound KobjectType.sm services kernel (some 0x400) with_sm refl kernel-Sound sel_small
      creates_sm

-- With a selector one table beyond 1, the capability to the domain is replaced.
abbrev beyond : Kernel ℕ
beyond = record kernel { arg_1 = 0x40_0000_1006 }

abbrev overwritten : Kernel ℕ
overwritten = record kernel {
  arg_1 = 0;
  slots = update kernel.slots 1 (hedron.Capability.make 0x400 3);
  tree = record { base = 0x400_0001; order = 0; phys = 0x400; attr = 3 } ∷ root ∷ [];
  heap = update kernel.heap 0x400 (Kobject.sm_object 3);
  world = 1;
}

creates_beyond : create KobjectType.sm services beyond (some 0x400) ≡ returned overwritten
unfolding create create_sm with_object created linked tabled insert_root sys_finish object lookup
    sel cast obj prm hedron.Capability.make hedron.Capability.same_type
creates_beyond = refl

beyond-Sound : Sound beyond
unfolding cap_at hedron.Syscall.occupied
beyond-Sound = record {
  small = ((refl, omega arith), tt);
  once = (refl, tt);
  table = λ i h. ground arith;
}

sel-beyond : sel beyond ≡ 1 + caps
unfolding sel
sel-beyond = refl

create_past_caps_example :
    (lookup overwritten 1 ≡ hedron.Capability.make 0x400 (rights KobjectType.sm beyond))
    × (cap_at 1 overwritten.tree ≡ lookup beyond 1)
create_past_caps_example =
    create_past_caps KobjectType.sm services beyond 0x400 1 overwritten refl beyond-Sound
      (omega arith) sel-beyond creates_beyond refl
