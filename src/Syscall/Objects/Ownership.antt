-- ===== src/Syscall/Objects/Ownership.antt =====
-- A virtual CPU is run by one execution context at a time, from `vcpu_ctrl_run` until the system call
-- finishes.
use hedron.Prelude.{
  ℕ, ◌≡◌, ◌≢◌, ◌⊎◌, inl, inr, ◌∙◌, refl, ap, sym, Bool, true, false, none, some, arith,
  Option-cases,
}
use native.Mathlib.Decide.{ℕ_discrete}
use hedron.Links.{update}
use hedron.Capability.{KobjectType}
use hedron.Syscall.{
  Kernel, Exit, Status, status_code, Kobject, VcpuObject, sel, sys_finish, release_vcpu, object,
}
use hedron.Syscall.Exit.{returned, runs_vcpu}
use hedron.Syscall.Services.{Services}
use hedron.Syscall.Create.{with_object}
use hedron.Syscall.Create.Outcome.{sys_finish_lem}
use hedron.Syscall.Objects.{try_acquire, claim}
use hedron.Syscall.Control.{sys_vcpu_ctrl_run}

unfoldable pub owned_by : VcpuObject → ℕ → Kobject
owned_by o e = Kobject.vcpu_object (record o { owner = some e })

kernel_or {ℓ} : {W : Type ℓ} → Kernel W → Exit W → Kernel W
kernel_or x (runs_vcpu k) = k
kernel_or x _ = x

is_running {ℓ} : {W : Type ℓ} → Exit W → Bool
is_running (runs_vcpu _) = true
is_running _ = false

false-ne-true : false ≢ true
false-ne-true e = ground arith

module _ {ℓ} {W : Type ℓ} (s : Services W) (k : Kernel W) (v : ℕ) (o : VcpuObject)
    (e : object k KobjectType.vcpu (sel k) 0 ≡ some v) (f : k.heap v ≡ Kobject.vcpu_object o)
    (n : k.vcpu ≡ none) where
  run_free :
      o.owner ≡ none
      → o.cpu_id ≡ k.cpu
      → sys_vcpu_ctrl_run s k
        ≡ runs_vcpu (record k {
          heap = update k.heap v (owned_by o k.ec);
          vcpu = some v;
          world = s.vcpu_run v k.arg_2 k.world;
        })
  unfolding sys_vcpu_ctrl_run with_object try_acquire claim owned_by
  run_free w c = ground (arith, e, f, n, w, c)

  run_held :
      (x : ℕ)
      → o.owner ≡ some x
      → o.cpu_id ≡ k.cpu
      → sys_vcpu_ctrl_run s k ≡ sys_finish Status.busy k
  unfolding sys_vcpu_ctrl_run with_object try_acquire claim owned_by
  run_held x w c = ground arith

  run_away : o.cpu_id ≢ k.cpu → sys_vcpu_ctrl_run s k ≡ sys_finish Status.bad_cpu k
  unfolding sys_vcpu_ctrl_run with_object try_acquire claim owned_by
  run_away c = ground arith

runs_vcpu-inj {ℓ} : {W : Type ℓ} (x y : Kernel W) → runs_vcpu x ≡ runs_vcpu y → x ≡ y
unfolding kernel_or
runs_vcpu-inj x y e = ap (kernel_or x) e

finish-ne-runs_vcpu {ℓ} :
    {W : Type ℓ} (st : Status) (k k1 : Kernel W) → k.vcpu ≡ none → sys_finish st k ≢ runs_vcpu k1
unfolding is_running
finish-ne-runs_vcpu st k k1 n e =
    absurd (false-ne-true (ap is_running (sym (sys_finish_lem st k n) ∙ e)))

-- A call that goes on to run a virtual CPU found it free and on this CPU.
run_found {ℓ} :
    {W : Type ℓ} (s : Services W) (k k1 : Kernel W) (v : ℕ) (o : VcpuObject)
    → object k KobjectType.vcpu (sel k) 0 ≡ some v
    → k.heap v ≡ Kobject.vcpu_object o
    → k.vcpu ≡ none
    → sys_vcpu_ctrl_run s k ≡ runs_vcpu k1
    → (o.owner ≡ none) × (o.cpu_id ≡ k.cpu)
run_found s k k1 v o e f n r = elim (ℕ_discrete o.cpu_id k.cpu) [
  | no c ↦ absurd (finish-ne-runs_vcpu Status.bad_cpu k k1 n (sym (run_away s k v o e f n c) ∙ r))
  | yes c ↦ elim (Option-cases o.owner) [
    | inl w ↦ (w, c)
    | inr (x, w) ↦
        absurd (finish-ne-runs_vcpu Status.busy k k1 n (sym (run_held s k v o e f n x w c) ∙ r))
  ]
]

-- While the virtual CPU has an owner, nobody else gets it.
run_refused {ℓ} :
    {W : Type ℓ} (s : Services W) (k : Kernel W) (v x : ℕ) (o : VcpuObject)
    → object k KobjectType.vcpu (sel k) 0 ≡ some v
    → k.heap v ≡ owned_by o x
    → k.vcpu ≡ none
    → (sys_vcpu_ctrl_run s k ≡ sys_finish Status.busy k)
      ⊎ (sys_vcpu_ctrl_run s k ≡ sys_finish Status.bad_cpu k)
unfolding owned_by
run_refused s k v x o e f n = elim (ℕ_discrete o.cpu_id k.cpu) [
  | no c ↦ inr (run_away s k v (record o { owner = some x }) e f n c)
  | yes c ↦ inl (run_held s k v (record o { owner = some x }) e f n x refl c)
]

-- The object with no owner.
freed : VcpuObject → Kobject
freed o = Kobject.vcpu_object (record o { owner = none })

release_owner {ℓ} :
    {W : Type ℓ} (st : Status) (k : Kernel W) (v : ℕ) (o : VcpuObject)
    → k.vcpu ≡ some v
    → k.heap v ≡ owned_by o k.ec
    → sys_finish st k
      ≡ returned
          (record k { heap = update k.heap v (freed o); vcpu = none; arg_1 = status_code st })
unfolding sys_finish release_vcpu owned_by freed
release_owner st k v o n h = ground (arith, n, h)

freed_eq : (o : VcpuObject) → o.owner ≡ none → freed o ≡ Kobject.vcpu_object o
unfolding freed
freed_eq o w = ap (λ x. Kobject.vcpu_object (record o { owner = x })) (sym w)

-- Freeing what was free before.
freed_back :
    (f : ℕ → Kobject) (v e p : ℕ) (o : VcpuObject)
    → f v ≡ Kobject.vcpu_object o
    → o.owner ≡ none
    → update (update f v (owned_by o e)) v (freed o) p ≡ f p
unfolding freed
freed_back f v e p o h w = elim (ℕ_discrete p v) [
  | yes q ↦ ground (arith, freed_eq o w)
  | no q ↦ ground arith
]

-- Once a call runs a virtual CPU, the calling context is its owner. Any context that has no virtual CPU and
-- tries to run the same is refused, with `BUSY` or `BAD_CPU`. When the owner's call finishes, with
-- whatever status, it returns to its caller, and the virtual CPU is free as before.
pub vcpu_run_exclusive {ℓ} :
    {W : Type ℓ} (s : Services W) (k k1 : Kernel W) (v : ℕ) (o : VcpuObject)
    → object k KobjectType.vcpu (sel k) 0 ≡ some v
    → k.heap v ≡ Kobject.vcpu_object o
    → k.vcpu ≡ none
    → sys_vcpu_ctrl_run s k ≡ runs_vcpu k1
    → (k1.heap v ≡ owned_by o k.ec)
      × ((k' : Kernel W)
          → object k' KobjectType.vcpu (sel k') 0 ≡ some v
          → k'.heap v ≡ k1.heap v
          → k'.vcpu ≡ none
          → (sys_vcpu_ctrl_run s k' ≡ sys_finish Status.busy k')
            ⊎ (sys_vcpu_ctrl_run s k' ≡ sys_finish Status.bad_cpu k'))
      × ((st : Status)
          → (k2 : Kernel W) × (sys_finish st k1 ≡ returned k2)
            × (k2.vcpu ≡ none)
            × ((p : ℕ) → k2.heap p ≡ k.heap p))
vcpu_run_exclusive s k k1 v o e f n r =
    let (w, c) = run_found s k k1 v o e f n r in
    let eq = runs_vcpu-inj _ k1 (sym (run_free s k v o e f n w c) ∙ r) in
    let h : k1.heap v ≡ owned_by o k.ec = ap (λ x. x.heap v) (sym eq) ∙ ground arith in
    (
      h,
      λ k' e' f' n'. run_refused s k' v k.ec o e' (f' ∙ h) n',
      λ st. (
        _,
        release_owner st k1 v o (ap (λ x. x.vcpu) (sym eq)) (h ∙ ap (λ x. owned_by o x.ec) eq),
        refl,
        λ p. ap (λ x. update x.heap v (freed o) p) (sym eq) ∙ freed_back k.heap v k.ec p o f w,
      ),
    )
