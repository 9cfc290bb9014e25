-- ===== src/Tests/Controls.antt =====
-- System calls on objects at concrete states.
use hedron.Prelude.{ℕ, ◌≡◌, ◌⊎◌, true, false, none, some, refl, arith}
use hedron.Capability.{Capability, KobjectType, cast, obj, prm}
use hedron.Links.{update}
use hedron.Syscall.{
  Kernel, Exit, Status, status_code, Kobject, KpObject, VcpuObject, Node, id, sel, sys_finish,
  lookup, object, caps, insert_root,
}
use hedron.Syscall.Exit.{returned, runs_vcpu}
use hedron.Syscall.Create.{invalid_user_addr, create_sm, with_object, created, all_rights}
use hedron.Syscall.Control.{syscall_handler, sys_vcpu_ctrl_run}
use hedron.Syscall.Control.Authority.{Powerless, Guarded, Fails, Powerless-refused}
use hedron.Syscall.Objects.{has_user_mapping, add_user_mapping, remove_user_mapping}
use hedron.Syscall.Objects.Mapping.{remove-add_user_mapping}
use hedron.Syscall.Objects.Ownership.{owned_by, vcpu_run_exclusive}
use hedron.Tests.Syscalls.{services, kernel, a_vcpu}

-- No capability at all.
abbrev bare : Kernel ℕ
bare = record kernel { slots = λ i. record { value = 0 } }

bare-Powerless : Powerless bare
unfolding hedron.Syscall.Create.is_passthrough
bare-Powerless = record { idle = refl; no_caps = λ i. refl; plain = refl }

bare-Guarded : Guarded bare
unfolding id
bare-Guarded = Guarded.creates_sm refl

Powerless-refused_example :
    Fails bare (syscall_handler services bare (some 0x400))
    ⊎ ((id bare ≡ 1) × (syscall_handler services bare (some 0x400) ≡ services.reply none bare))
Powerless-refused_example = Powerless-refused services bare (some 0x400) bare-Powerless bare-Guarded

abbrev fresh_page : KpObject
fresh_page = record { pd_user_page = none; addr_in_user_space = invalid_user_addr }

abbrev page_addr : ℕ
page_addr = 0x7000

abbrev page_mapped : Kernel ℕ
page_mapped = record kernel {
  refs = update kernel.refs 0x100 2;
  heap =
      update kernel.heap 0x200
        (Kobject.kp_object (record { pd_user_page = some 0x100; addr_in_user_space = page_addr }));
  world = 1;
}

maps_page : add_user_mapping services kernel 0x200 fresh_page 0x100 page_addr ≡ (true, page_mapped)
unfolding add_user_mapping
maps_page = refl

remove-add_user_mapping_example :
    (o' : KpObject) × (page_mapped.heap 0x200 ≡ Kobject.kp_object o')
    × (has_user_mapping o' ≡ true)
    × ((remove_user_mapping services page_mapped 0x200 o').0 ≡ true)
    × ((p : ℕ) → (remove_user_mapping services page_mapped 0x200 o').1.refs p ≡ kernel.refs p)
    × ((o'' : KpObject) × ((remove_user_mapping services page_mapped 0x200 o').1.heap 0x200
          ≡ Kobject.kp_object o'')
        × (has_user_mapping o'' ≡ false))
    × ((remove_user_mapping services page_mapped 0x200 o').1.world
        ≡ services.unmap_page 0x100 page_addr
            (services.map_page 0x100 page_addr 0x200 kernel.world))
remove-add_user_mapping_example =
    remove-add_user_mapping services kernel page_mapped 0x200 fresh_page 0x100 page_addr
      (omega arith) maps_page

-- `vcpu_ctrl_run` of the virtual CPU at 0x500, whose capability is at selector 6
abbrev runner : Kernel ℕ
runner = record kernel {
  arg_1 = 0x6014;
  slots = λ i. hedron.Capability.make 0x500 1;
  heap = λ a. Kobject.vcpu_object a_vcpu;
}

abbrev running : Kernel ℕ
running = record runner {
  vcpu = some 0x500;
  heap = update runner.heap 0x500 (owned_by a_vcpu 0x300);
  world = 1;
}

finds_vcpu : object runner KobjectType.vcpu (sel runner) 0 ≡ some 0x500
unfolding object lookup sel cast obj prm hedron.Capability.make hedron.Capability.same_type
finds_vcpu = refl

runs_it : sys_vcpu_ctrl_run services runner ≡ runs_vcpu running
unfolding sys_vcpu_ctrl_run with_object object lookup sel cast obj prm hedron.Capability.make
    hedron.Capability.same_type owned_by hedron.Syscall.Objects.try_acquire
    hedron.Syscall.Objects.claim
runs_it = refl

vcpu_run_exclusive_example :
    (running.heap 0x500 ≡ owned_by a_vcpu 0x300)
    × ((k' : Kernel ℕ)
        → object k' KobjectType.vcpu (sel k') 0 ≡ some 0x500
        → k'.heap 0x500 ≡ running.heap 0x500
        → k'.vcpu ≡ none
        → (sys_vcpu_ctrl_run services k' ≡ sys_finish Status.busy k')
          ⊎ (sys_vcpu_ctrl_run services k' ≡ sys_finish Status.bad_cpu k'))
    × ((st : Status)
        → (k2 : Kernel ℕ) × (sys_finish st running ≡ returned k2)
          × (k2.vcpu ≡ none)
          × ((p : ℕ) → k2.heap p ≡ runner.heap p))
vcpu_run_exclusive_example =
    vcpu_run_exclusive services runner running 0x500 a_vcpu finds_vcpu refl refl runs_it
