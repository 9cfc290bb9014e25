-- ===== src/Ipc/State.antt =====
-- The contexts, how control leaves an operation, and the steps on references and links: include/ec.hpp.
use hedron.Prelude.{
  ℕ, zero, suc, ◌+◌, ◌-◌, ◌%◌, ◌^◌, Bool, true, false, not, ◌&&◌, ◌||◌, Option, none, some,
  if◌then◌else◌, ◌==◌,
}
use hedron.Links.{update}
use hedron.Crd.{Crd}
use hedron.Refcount.{add_ref, del_ref, del_rcu}
use hedron.Registers.{Regs}
use hedron.Utcb.{Utcb}
use hedron.Syscall.{Status}

-- The continuations, `void (*)()`.
pub data Cont : Type 0 where
  ret_user_sysexit ret_user_iret sys_call recv_user recv_kern idle dead : Cont
  send_msg : Cont → Cont
  finish : Status → Cont
  other : ℕ → Cont

-- the continuations that the code compares with
abbrev pub is_sysexit : Option Cont → Bool
is_sysexit none = false
is_sysexit (some ret_user_sysexit) = true
is_sysexit (some _) = false

abbrev pub is_iret : Option Cont → Bool
is_iret none = false
is_iret (some ret_user_iret) = true
is_iret (some _) = false

abbrev pub is_dead : Option Cont → Bool
is_dead none = false
is_dead (some dead) = true
is_dead (some _) = false

abbrev pub is_null {ℓ} : {A : Type ℓ} → Option A → Bool
is_null none = true
is_null (some _) = false

-- The contexts by address, and what the CPU keeps: the current one, and of the current scheduling context
-- its context and reference count, and its two counters. `W` is the rest of the kernel.
pub record Ipc {ℓ} (W : Type ℓ) : Type ℓ where
  pub cont : ℕ → Option Cont
  pub rcap : ℕ → Option ℕ
  pub partner : ℕ → Option ℕ
  pub next : ℕ → Option ℕ
  pub pd : ℕ → ℕ
  pub cpu : ℕ → ℕ
  pub glb : ℕ → Bool
  pub evt : ℕ → ℕ
  pub ref : ℕ → ℕ
  pub regs : ℕ → Regs
  pub utcb : ℕ → Utcb
  pub current : ℕ
  pub sc_ec : ℕ
  pub sc_ref : ℕ
  pub ctr_link : ℕ
  pub ctr_loop : ℕ
  pub rest : W

-- Where control goes: `ec->return_to_user()`, `ret_user_sysexit`, `sys_finish`, `ec->block_sc()`,
-- `Sc::schedule(true)`, away within a semaphore, or nowhere, on a failed assertion.
pub data Next {ℓ} (W : Type ℓ) : Type ℓ where
  to_user : ℕ → Ipc W → Next W
  sysexit : Ipc W → Next W
  finishes : Status → Ipc W → Next W
  blocks : ℕ → Ipc W → Next W
  schedules : Ipc W → Next W
  waits : Ipc W → Next W
  panicked : Next W
  -- the loop of `activate` has no fuel
  spins : Next W

-- `Pt`
pub record Portal : Type 0 where
  pub ec : ℕ
  pub mtd : ℕ
  pub ip : ℕ
  pub id : ℕ

-- The typed items of a message, for `Pd::xfer_items`: the domains, the receiver's windows, both pages and
-- the number of items.
pub record Items : Type 0 where
  pub src : ℕ
  pub dst : ℕ
  pub xlt : Crd
  pub del : Crd
  pub from : Utcb
  pub to : Option Utcb
  pub count : ℕ

pub record Services {ℓ} (W : Type ℓ) : Type ℓ where
  -- `capability_cast<Pt>(Space_obj::lookup(..))` and the same for a semaphore
  pub portal : ℕ → W → Option Portal
  pub semaphore : ℕ → W → Option ℕ
  -- `none` is an error, on which the caller panics; else the receiver's page, where one was given
  pub xfer_items : Items → W → Option (Utcb × W)
  -- `transfer_fpu`, to the context given first
  pub transfer_fpu : ℕ → ℕ → W → W
  pub rcu_call : ℕ → W → W
  -- `sm->dn(false, ec, block)`: whether it returns, the queue pointers of the contexts, and whether it
  -- took a reference to `ec`
  pub dn : ℕ → ℕ → Bool → (ℕ → Option ℕ) → W → Bool × (ℕ → Option ℕ) × Bool × W

-- the loop of `activate`: the last context of a chain of calls, and the length of the chain
unfoldable pub chain_end : ℕ → (ℕ → Option ℕ) → ℕ → ℕ → Option (ℕ × ℕ)
chain_end zero partner ec n = none
chain_end (suc f) partner ec n = elim (partner ec) [
  | none ↦ some (ec, n)
  | some p ↦ chain_end f partner p (n + 1)
]

module _ {ℓ} {W : Type ℓ} where
  -- `ec->xcpu`, the number of the CPU with the flag of a global context above it
  unfoldable pub xcpu : Ipc W → ℕ → ℕ
  xcpu k ec = k.cpu ec + (if k.glb ec then 2 ^ 16 else 0)

  -- `current()->set_partner(ec)`
  unfoldable pub set_partner : ℕ → Ipc W → Option (Ipc W)
  unfolding add_ref
  set_partner ec k =
      let me = k.current in
      let (ok, r) = add_ref (k.ref ec) in
      let refs = update k.ref ec r in
      let (ok', r') = add_ref (refs me) in
      if ok && ok'
      then some (record k {
        partner = update k.partner me (some ec);
        rcap = update k.rcap ec (some me);
        ref = update refs me r';
        ctr_link = (k.ctr_link + 1) % 2 ^ 32;
      })
      else none

  -- `ec->clr_partner()`, whose result is the counter before
  unfoldable pub clr_partner : ℕ → Ipc W → Option (ℕ × Ipc W)
  clr_partner ec k =
      let me = k.current in
      let dropped : Bool × (ℕ → ℕ) = elim (k.rcap me) [
        | none ↦ (false, k.ref)
        | some caller ↦ let (l, x) = del_ref (k.ref caller) in (l, update k.ref caller x)
      ] in
      let (last, r) = dropped in
      let (last', r') = del_ref (r me) in
      elim (k.partner ec) [
        | none ↦ none
        | some p ↦
            if (p == me) && not last && not last'
            then some (
              k.ctr_link,
              record k {
                rcap = update k.rcap me none;
                partner = update k.partner ec none;
                ref = update r me r';
                ctr_link = (k.ctr_link + 2 ^ 32 - 1) % 2 ^ 32;
              },
            )
            else none
      ]

  -- `blocked()`
  unfoldable pub blocked : Ipc W → ℕ → Bool
  blocked k ec = not (is_null (k.next ec)) || is_null (k.cont ec)

  module _ (s : Services W) where
    -- `make_current` and the jump to the continuation
    unfoldable pub return_to_user : ℕ → Ipc W → Next W
    unfolding add_ref del_rcu
    return_to_user ec k =
        let me = k.current in
        let (gone, r) = del_rcu (k.ref me) in
        let refs = update k.ref me r in
        let (ok, r') = add_ref (refs ec) in
        let w = if ec == me then k.rest else s.transfer_fpu ec me k.rest in
        if ok
        then to_user ec (record k {
          ref = update refs ec r';
          current = ec;
          rest = if gone then s.rcu_call me w else w;
        })
        else panicked

    -- `ec->activate()`, with fuel
    unfoldable pub activate : ℕ → ℕ → Ipc W → Next W
    activate f ec k = elim (chain_end f k.partner ec 0) [
      | none ↦ spins
      | some (last, n) ↦
          let k' = record k { ctr_link = n % 2 ^ 32 } in
          if blocked k' last then blocks last k' else return_to_user last k'
    ]
