-- ===== src/Syscall/Services.antt =====
-- What the system calls use of the rest of the kernel: a state, and the operations on it.
use hedron.Prelude.{ℕ, Bool, Option, ◌⊎◌}
use hedron.Crd.{Crd, Xfer}
use hedron.Syscall.{Kobject, Kernel, Exit, Node}

-- `Delegate_error`
pub data DelegateError : Type 0 where
  out_of_memory invalid_mapping : DelegateError

pub record Services {ℓ} (W : Type ℓ) : Type ℓ where
  -- an object's constructor, `none` when it is out of memory, and its destructor
  pub construct : Kobject → W → Option W
  pub destroy : Kobject → W → W
  -- the page of a domain's capability table that has a selector, `Space_obj::walk`; `none` when that is
  -- out of memory
  pub table_page : ℕ → ℕ → W → Option W
  -- `Pd::del_crd` into the domain given first, from the second; `none` is an error
  pub del_crd : ℕ → ℕ → Crd → Crd → W → Option W
  -- `Sc::remote_enqueue`
  pub remote_enqueue : ℕ → W → W
  -- `Pd::rev_crd` and `Pd::xfer_item`, of the domain given first
  pub rev_crd : ℕ → Crd → Bool → W → W
  pub xfer_item : ℕ → ℕ → Crd → Crd → Xfer → W → (DelegateError ⊎ Xfer) × W
  -- the port space's tree of the current domain
  pub pio_lookup : ℕ → W → Option Node
  -- the frame of a domain's access page, and an update of its guest page table to that frame
  pub access_page : ℕ → W → ℕ
  pub map_guest : ℕ → ℕ → ℕ → W → W
  -- a page of a domain's memory is mapped to a kernel page, or unmapped, with the TLB shootdown
  pub map_page : ℕ → ℕ → ℕ → W → W
  pub unmap_page : ℕ → ℕ → W → W
  -- `Msr::user_write` and `Msr::user_read`
  pub msr_write : ℕ → ℕ → W → Bool × W
  pub msr_read : ℕ → W → Bool × ℕ
  -- the time of a scheduling context, and the frequency of the TSC in kHz
  pub sc_time : ℕ → W → ℕ
  pub freq_tsc : W → ℕ
  -- `Sm::up`, and `Sm::dn`, which blocks when the flag is set; the counter is in the object
  pub sm_up : ℕ → ℕ → W → ℕ × W
  pub sm_dn : ℕ → Bool → ℕ → W → Bool × ℕ × W
  -- `Vcpu::run` after `Vcpu::mtd`, and `Vcpu::poke`
  pub vcpu_run : ℕ → ℕ → W → W
  pub vcpu_poke : ℕ → W → W
  -- the waking vector, `Suspend::suspend`, which returns when the flag is not set, and a microcode load
  pub waking_vector : W → ℕ
  pub suspend : ℕ → ℕ → W → Bool × W
  pub load_microcode : ℕ → W → W
  -- `Ec::sys_call` once it has the portal, and `Ec::sys_reply` with the semaphore, if it has one
  pub call : ℕ → Kernel W → Exit W
  pub reply : Option ℕ → Kernel W → Exit W
