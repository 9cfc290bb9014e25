-- ===== src/Syscall/Create/Paths.antt =====
-- Each call that creates an object has one of the outcomes of a creation.
use hedron.Prelude.{ℕ, ◌≡◌, inl, inr, refl, Option, none, some, Option-cases}
use hedron.Capability.{KobjectType}
use hedron.Syscall.{Kernel, object_type, sys_finish}
use hedron.Syscall.Exit.{panicked}
use hedron.Syscall.Status.{success, bad_cap, bad_par, bad_cpu}
use hedron.Syscall.Services.{Services}
use hedron.Syscall.Create.{
  delegated, enqueued, create_pd, create_ec, create_sc, create_pt, create_sm, create_kp,
  create_vcpu, new_ec, new_pd,
}
use hedron.Syscall.Create.Outcome.{
  create, parent, rights, Outcome, fail-Outcome, with-Outcome, created-Outcome, plain-Outcome,
  Panics, entered, bad_cap-ne, bad_par-ne, bad_cpu-ne,
}

sm-Outcome {ℓ} :
    {W : Type ℓ} (s : Services W) (k : Kernel W) (a : Option ℕ)
    → k.vcpu ≡ none
    → Outcome KobjectType.sm s k a (create_sm s k a)
unfolding create_sm rights parent object_type
sm-Outcome s k a idle =
    with-Outcome KobjectType.sm s k a idle _ _
      λ p e. plain-Outcome KobjectType.sm s k idle a _ _ refl refl (p, e)

kp-Outcome {ℓ} :
    {W : Type ℓ} (s : Services W) (k : Kernel W) (a : Option ℕ)
    → k.vcpu ≡ none
    → Outcome KobjectType.kp s k a (create_kp s k a)
unfolding create_kp rights parent object_type
kp-Outcome s k a idle =
    with-Outcome KobjectType.kp s k a idle _ _
      λ p e. plain-Outcome KobjectType.kp s k idle a _ _ refl refl (p, e)

pt-Outcome {ℓ} :
    {W : Type ℓ} (s : Services W) (k : Kernel W) (a : Option ℕ)
    → k.vcpu ≡ none
    → Outcome KobjectType.pt s k a (create_pt s k a)
unfolding create_pt rights parent object_type
pt-Outcome s k a idle = with-Outcome KobjectType.pt s k a idle _ _ λ p e.
    with-Outcome KobjectType.pt s k a idle _ _ λ x _.
      fail-Outcome KobjectType.pt s k a idle _ bad_cap _ bad_cap-ne
        (λ _. plain-Outcome KobjectType.pt s k idle a _ _ refl refl (p, e))

sc-Outcome {ℓ} :
    {W : Type ℓ} (s : Services W) (k : Kernel W) (a : Option ℕ)
    → k.vcpu ≡ none
    → Outcome KobjectType.sc s k a (create_sc s k a)
unfolding create_sc rights parent object_type enqueued entered
sc-Outcome s k a idle = with-Outcome KobjectType.sc s k a idle _ _ λ p e.
    with-Outcome KobjectType.sc s k a idle _ _ λ x _.
      fail-Outcome KobjectType.sc s k a idle _ bad_cap _ bad_cap-ne (λ _.
        fail-Outcome KobjectType.sc s k a idle _ bad_par _ bad_par-ne (λ _.
          created-Outcome KobjectType.sc s k idle a _ _ _ refl refl (p, e) (λ _ _. inl (_, refl))))

ec-Outcome {ℓ} :
    {W : Type ℓ} (s : Services W) (k : Kernel W) (a : Option ℕ)
    → k.vcpu ≡ none
    → Outcome KobjectType.ec s k a (create_ec s k a)
unfolding create_ec rights parent object_type new_ec
ec-Outcome s k a idle = fail-Outcome KobjectType.ec s k a idle _ bad_cpu _ bad_cpu-ne (λ _.
    with-Outcome KobjectType.ec s k a idle _ _ λ p e.
      fail-Outcome KobjectType.ec s k a idle _ bad_par _ bad_par-ne (λ _.
        fail-Outcome KobjectType.ec s k a idle _ bad_par _ bad_par-ne
          (λ _. plain-Outcome KobjectType.ec s k idle a _ _ refl refl (p, e))))

vcpu-Outcome {ℓ} :
    {W : Type ℓ} (s : Services W) (k : Kernel W) (a : Option ℕ)
    → k.vcpu ≡ none
    → Outcome KobjectType.vcpu s k a (create_vcpu s k a)
unfolding create_vcpu rights parent object_type
vcpu-Outcome s k a idle = fail-Outcome KobjectType.vcpu s k a idle _ bad_cpu _ bad_cpu-ne (λ _.
    with-Outcome KobjectType.vcpu s k a idle _ _ λ p e.
      with-Outcome KobjectType.vcpu s k a idle _ _ λ _ _.
        with-Outcome KobjectType.vcpu s k a idle _ _ λ _ _.
          with-Outcome KobjectType.vcpu s k a idle _ _
            λ _ _. plain-Outcome KobjectType.vcpu s k idle a _ _ refl refl (p, e))

abbrev moved {ℓ} : {W : Type ℓ} → Services W → ℕ → Kernel W → Option W
moved s a k =
    s.del_crd a k.pd (hedron.Crd.make hedron.Crd.CrdType.obj 0 0x1f 0x1f)
      (record { value = k.arg_3 }) k.world

delegated-none {ℓ} :
    {W : Type ℓ} (s : Services W) (a : ℕ) (k : Kernel W)
    → moved s a k ≡ none
    → delegated s a k ≡ panicked
unfolding delegated
delegated-none s a k h = rw (delegated, h)

delegated-some {ℓ} :
    {W : Type ℓ} (s : Services W) (a : ℕ) (k : Kernel W) (w : W)
    → moved s a k ≡ some w
    → delegated s a k ≡ sys_finish success (record k { world = w })
unfolding delegated
delegated-some s a k w h = rw (delegated, h)

pd-Outcome {ℓ} :
    {W : Type ℓ} (s : Services W) (k : Kernel W) (a : Option ℕ)
    → k.vcpu ≡ none
    → Outcome KobjectType.pd s k a (create_pd s k a)
unfolding create_pd rights parent object_type entered
pd-Outcome s k a idle = with-Outcome KobjectType.pd s k a idle _ _ λ p e.
    created-Outcome KobjectType.pd s k idle a _ _ (delegated s) refl refl (p, e)
      (λ x w.
        let k' = entered KobjectType.pd s k idle x (new_pd k p) w in
        elim (Option-cases (moved s x k')) [
          | inl n ↦ inr (delegated-none s x k' n, Panics.not_delegated x w refl refl n)
          | inr (w', n) ↦ inl (w', delegated-some s x k' w' n)
        ])

pub create-Outcome {ℓ} :
    {W : Type ℓ} (t : KobjectType) (s : Services W) (k : Kernel W) (a : Option ℕ)
    → k.vcpu ≡ none
    → Outcome t s k a (create t s k a)
unfolding create
create-Outcome KobjectType.pd = pd-Outcome
create-Outcome KobjectType.ec = ec-Outcome
create-Outcome KobjectType.sc = sc-Outcome
create-Outcome KobjectType.pt = pt-Outcome
create-Outcome KobjectType.sm = sm-Outcome
create-Outcome KobjectType.kp = kp-Outcome
create-Outcome KobjectType.vcpu = vcpu-Outcome
