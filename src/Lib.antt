-- ===== src/Lib.antt =====
-- Hedron: models and proofs for the microhypervisor.
--
-- A protection domain (src/pd.cpp) holds capabilities to kernel objects; a capability is one word
-- (include/capability.hpp), a range of them a descriptor (include/crd.hpp). Execution contexts run when
-- a scheduling context bound to them is chosen (src/sc.cpp); contexts and semaphores chain objects in
-- circular lists (include/queue.hpp) and share them by reference counts (include/refptr.hpp). The
-- system calls (src/syscall.cpp) find objects through the capabilities of the caller's domain, check
-- types and permissions, and create objects or act on them.
--
-- Prelude, Word: lists and Boolean tests on the native numbers; a machine word is a number below
--   2 ^ 64, and C++'s wrapping operators are written out.
-- Crd, Capability, Pd, Refcount: include/crd.hpp, include/capability.hpp, the `clamp`s of src/pd.cpp,
--   include/refptr.hpp. Each accessor is a function of the word.
-- Links, Queue: the pointers of objects, and `Queue<T>` on them. The pointer memory is passed along;
--   a null pointer that is followed is the result `none`.
-- Sched: the run queues, the hazards and the remote queues of all CPUs as one record; each operation of
--   src/sc.cpp is one step of it, and a failed assertion is `none`. Locks are left out. The loop over a
--   remote queue has fuel, one more than the queue's length being enough.
-- Sm: include/sm.hpp, over Queue and the contexts' reference counts. The loop of `up` has fuel; one
--   round more than there are waiting contexts is enough.
-- Buddy: src/buddy.cpp. The free lists stand as lists of block indices; the contents of pages are left out.
--   A failed assertion is the result `panicked` or `none`. The merging loop has at most one round for each
--   order, as in the code.
-- MemoryType, Timer: include/generic_mtrr.hpp, with the register access as an argument, and the
--   conversion of timeouts of include/vmx_preemption_timer.hpp.
-- Spinlock: include/spinlock.hpp as a step relation of atomic accesses; the wait loop is the test that it
--   ends with. At most 128 CPUs, NUM_CPU, take a ticket.
-- Registers, Utcb: include/regs.hpp and include/utcb.hpp. A UTCB is its head and a function from the
--   number of a word; the named fields are words (Utcb.Layout), so that messages and register state
--   share them as in the code. Utcb.Exception has `load_exc` and `save_exc` of src/utcb.cpp.
-- Vmx: the VMCS of a virtual CPU as a function from the number of a field; a write keeps the bits that the
--   field has, whose width is in its number. Vmx.Control is src/regs.cpp,
--   Vmx.Save and Vmx.Load are `save_vmx` and `load_vmx` of src/utcb.cpp: each `if` is a group of
--   assignments to distinct words or fields, which are looked up in any order.
-- Vcpu: src/vcpu.cpp. Vcpu.Run has `run`, Vcpu.Exit `handle_vmx` and its handlers. Where control goes
--   on is a value; what the processor and other components do is an operation of `Processor`.
-- Ipc: the contexts by address with what the CPU keeps. Ipc.Call has `sys_call` and `send_msg` of
--   src/syscall.cpp and `help` of include/ec.hpp, Ipc.Reply the answers and `die` of src/ec.cpp; each ends
--   in a value that says where control goes. The loop of `activate` has fuel: more than the rank of the
--   context it starts from, a number that falls along a chain of calls, is enough. The transfer of items
--   and of the FPU and the semaphore's `dn` are operations of `Services`. A sound state has the bonds of
--   Ipc.Linked in order, a current context that can run, and counts that are 3 and more below 2 ^ 32.
-- Mdb: src/mdb.cpp and the loop body of `Pd::revoke` (src/pd.cpp) for one node, with its two assertions.
--   The nodes' pointers are functions; each loop has fuel, and the number of nodes below and one more is
--   enough. The spaces that a node belongs to are operations of `Spaces`.
-- PageTable: include/generic_page_table.hpp for 9 bits per level and 64-bit entries, as both of the kernel's kinds of
--   page tables have, with include/tlb_cleanup.hpp. Tables are named by their physical addresses; the allocator is
--   the list of the pages that it will hand out, and a clean-up records the pages that it frees. One CPU is at work,
--   so that no `cmp_swap` fails. The recursion is on the level. Soundness gives every table its level and its range
--   of addresses, and asks entries to be aligned; it is stated for one range that the root is for, and the freed
--   pages stay out of the list. PageTable.Hpt and PageTable.Ept have the masks and rights of include/hpt.hpp,
--   src/hpt.cpp, include/ept.hpp and src/ept.cpp, PageTable.Delegate what src/space_mem.cpp hands out.
-- Syscall: the registers of the caller, the objects by address, the capability table and the mapping
--   tree of the current domain. Syscall.Create, Syscall.PdControl and Syscall.Control have one function for each handler of
--   src/syscall.cpp, with its guards in order; `syscall_handler` is the dispatch. Syscall.Objects has the
--   operations of src/kp.cpp and of virtual CPU ownership (src/vcpu.cpp, src/ec_vmx.cpp). What a handler
--   calls in other components is an operation of the record Syscall.Services, on a state of its own, of
--   which nothing is assumed.
--
-- The AVL tree of an object space stands as the list of its nodes. What the allocator gives for a new
-- object is an argument, its address or none; an object's constructor and destructor may change the rest of
-- the kernel, as `construct` and `destroy` say, and a constructor can be out of memory, as can the page of
-- the capability table, `table_page`; each of these is a panic. Tracing is left out, and so is the rest of
-- the page table under the capability table. A call that does not return at once leaves a continuation,
-- `Resume`, which is that of the code.
--
-- Not modelled: the loops of delegation and revocation over a space, the exception and hazard handlers of
-- contexts, copies of page tables and TLB shootdown, the constructor of a virtual CPU, boot, and all device
-- code.
pub mod Prelude
pub mod Word
pub mod Crd
pub mod Buddy
pub mod Capability
pub mod Pd
pub mod Ipc
pub mod Mdb
pub mod PageTable
pub mod Links
pub mod Queue
pub mod Refcount
pub mod Registers
pub mod Sched
pub mod Sm
pub mod Spinlock
pub mod Syscall
pub mod Timer
pub mod Utcb
pub mod Vcpu
pub mod Vmx
pub mod MemoryType
pub mod Tests
