-- ===== src/Syscall/Create/Outcome.antt =====
-- What a call that creates an object may do, and the steps of such a call.
use hedron.Prelude.{
  ℕ, ◌%◌, ◌≡◌, ◌≢◌, ◌∙◌, ◌⊎◌, inl, inr, refl, sym, subst, Bool, true, false, Option, none, some,
  ◌∷◌, if◌then◌else◌, Bool-cases, Option-cases, arith,
}
use hedron.Word.{shr}
use hedron.Links.{update}
use hedron.Capability.{Capability, KobjectType, prm}
use hedron.Syscall.{
  Kernel, Exit, Status, status_code, Kobject, object_type, sel, sys_finish, lookup, object,
  insert_root, release_vcpu, occupied, caps,
}
use hedron.Syscall.Exit.{returned, panicked}
use hedron.Syscall.Status.{success, bad_cap, bad_par, bad_cpu}
use hedron.Syscall.Services.{Services}
use hedron.Syscall.Create.{
  perm_obj_creation, all_rights, with_object, fail_if, created, linked, tabled, constructed,
  deleted, create_pd, create_ec, create_sc, create_pt, create_sm, create_kp, create_vcpu,
}

-- The calls by the type of the object that they create, and the selector of the parent domain.
unfoldable pub create {ℓ} : {W : Type ℓ} → KobjectType → Services W → Kernel W → Option ℕ → Exit W
create KobjectType.pd = create_pd
create KobjectType.ec = create_ec
create KobjectType.sc = create_sc
create KobjectType.pt = create_pt
create KobjectType.sm = create_sm
create KobjectType.kp = create_kp
create KobjectType.vcpu = create_vcpu

unfoldable pub parent {ℓ} : {W : Type ℓ} → KobjectType → Kernel W → ℕ
parent KobjectType.vcpu k = shr k.arg_2 12
parent _ k = k.arg_2

unfoldable pub rights {ℓ} : {W : Type ℓ} → KobjectType → Kernel W → ℕ
rights KobjectType.pd k = prm (lookup k k.arg_2)
rights t k = all_rights t

-- One new object of the type, and one capability to it, at the selector that the caller chose.
pub record Made {ℓ} {W : Type ℓ} (t : KobjectType) (k : Kernel W) (a : ℕ) (k' : Kernel W)
    : Type ℓ where
  pub status : k'.arg_1 ≡ 0
  pub made : Kobject
  pub typed : object_type made ≡ t
  pub heap : k'.heap ≡ update k.heap a made
  pub slots : k'.slots ≡ update k.slots (sel k % caps) (hedron.Capability.make a (rights t k))
  pub tree : k'.tree ≡ record { base = sel k; order = 0; phys = a; attr = rights t k } ∷ k.tree
  pub free : occupied (sel k) k.tree ≡ false
  pub allowed : (o : ℕ) × (object k KobjectType.pd (parent t k) perm_obj_creation ≡ some o)

pub record Refused {ℓ} {W : Type ℓ} (k k' : Kernel W) : Type ℓ where
  pub status : (s : Status) × (s ≢ success) × (k'.arg_1 ≡ status_code s)
  pub heap : k'.heap ≡ k.heap
  pub slots : k'.slots ≡ k.slots
  pub tree : k'.tree ≡ k.tree

-- The object is the one at the address that the allocator gave, and its constructor and the table had memory.
abbrev pub New {ℓ} :
    {W : Type ℓ} → KobjectType → Services W → Kernel W → Option ℕ → Kernel W → Type ℓ
New {W = W} t s k a k' =
    (x : ℕ) × (a ≡ some x)
    × (m : Made t k x k') × (w w' : W) × (s.construct m.made k.world ≡ some w)
    × (s.table_page k.pd (sel k) w ≡ some w')

-- Why a call that creates an object panics: the allocator, the constructor or the capability table is out
-- of memory, or the memory of a new domain cannot be handed over.
pub data Panics {ℓ} {W : Type ℓ} (t : KobjectType) (s : Services W) (k : Kernel W) (a : Option ℕ)
    : Type ℓ where
  no_object : a ≡ none → Panics t s k a
  not_constructed :
      (o : Kobject) → object_type o ≡ t → s.construct o k.world ≡ none → Panics t s k a
  no_table_page :
      (o : Kobject) (w : W)
      → object_type o ≡ t
      → s.construct o k.world ≡ some w
      → s.table_page k.pd (sel k) w ≡ none
      → Panics t s k a
  not_delegated :
      (x : ℕ) (w : W)
      → t ≡ KobjectType.pd
      → a ≡ some x
      → s.del_crd x k.pd
          (hedron.Crd.make hedron.Crd.CrdType.obj 0 0x1f 0x1f)
          (record { value = k.arg_3 })
          w
        ≡ none
      → Panics t s k a

-- A domain was named that allows the caller to create objects.
abbrev pub Allowed {ℓ} : {W : Type ℓ} → KobjectType → Kernel W → Type 0
Allowed t k = (o : ℕ) × (object k KobjectType.pd (parent t k) perm_obj_creation ≡ some o)

-- Of a call that creates an object of type `t`.
unfoldable pub Outcome {ℓ} :
    {W : Type ℓ} → KobjectType → Services W → Kernel W → Option ℕ → Exit W → Type ℓ
Outcome t s k a e =
    ((k' : _) × (e ≡ returned k') × (New t s k a k' ⊎ Refused k k'))
    ⊎ ((e ≡ panicked) × Allowed t k × Panics t s k a)

pub sys_finish_lem {ℓ} :
    {W : Type ℓ} (s : Status) (k : Kernel W)
    → k.vcpu ≡ none
    → sys_finish s k ≡ returned (record k { arg_1 = status_code s })
unfolding sys_finish release_vcpu
sys_finish_lem s k h = rw h

pub bad_cap-ne : bad_cap ≢ success
bad_cap-ne e = absurd (ground arith)

pub bad_par-ne : bad_par ≢ success
bad_par-ne e = absurd (ground arith)

pub bad_cpu-ne : bad_cpu ≢ success
bad_cpu-ne e = absurd (ground arith)

pub status-ne-zero : (s : Status) → s ≢ success → status_code s ≢ 0
unfolding status_code
status-ne-zero s h = ground arith

option_if {ℓ κ} :
    {A : Type ℓ} {B : Type κ} (b : Bool) (x : A) (y : B) (f : A → B)
    → (elim (if b then none else some x) [ none ↦ y | some z ↦ f z ]) ≡ (if b then y else f x)
option_if true x y f = refl
option_if false x y f = refl

module _ {ℓ} {W : Type ℓ} (t : KobjectType) (s : Services W) (k : Kernel W) (a : Option ℕ)
    (idle : k.vcpu ≡ none) where
  refuse : (st : Status) → st ≢ success → Outcome t s k a (sys_finish st k)
  unfolding Outcome
  refuse st h = inl (
    _,
    sys_finish_lem st k idle,
    inr (record { status = (st, h, refl); heap = refl; slots = refl; tree = refl }),
  )

  pub fail-Outcome :
      (b : Bool) (st : Status) (next : Exit W)
      → st ≢ success
      → (b ≡ false → Outcome t s k a next)
      → Outcome t s k a (fail_if k b st next)
  unfolding fail_if
  fail-Outcome true st next h p = refuse st h
  fail-Outcome false st next h p = p refl

  pub with-Outcome :
      (o : Option ℕ) (next : ℕ → Exit W)
      → ((x : ℕ) → o ≡ some x → Outcome t s k a (next x))
      → Outcome t s k a (with_object k o next)
  unfolding with_object
  with-Outcome none next h = refuse bad_cap λ e. absurd (ground arith)
  with-Outcome (some x) next h = h x refl

module _ {ℓ} {W : Type ℓ} (s : Services W) (a : ℕ) (next : ℕ → Kernel W → Exit W)
    (k : Kernel W) where
  tabled-none : s.table_page k.pd (sel k) k.world ≡ none → tabled s a next k ≡ panicked
  unfolding tabled
  tabled-none n = rw (tabled, n)

  tabled-some :
      (w : W)
      → s.table_page k.pd (sel k) k.world ≡ some w
      → tabled s a next k ≡ next a (record k { world = w })
  unfolding tabled
  tabled-some w n = rw (tabled, n)

module _ {ℓ} {W : Type ℓ} (t : KobjectType) (s : Services W) (k : Kernel W)
    (idle : k.vcpu ≡ none) where
  -- The state once the object is entered.
  unfoldable pub entered : ℕ → Kobject → W → Kernel W
  entered a o w = record k {
    heap = update k.heap a o;
    world = w;
    tree = record { base = sel k; order = 0; phys = a; attr = rights t k } ∷ k.tree;
    slots = update k.slots (sel k % caps) (hedron.Capability.make a (rights t k));
  }

  linked_eq :
      (a : ℕ) (o : Kobject) (r : ℕ) (next : ℕ → Kernel W → Exit W) (w : W)
      → r ≡ rights t k
      → linked s k a o r next w ≡ (
          if occupied (sel k) k.tree
          then sys_finish bad_cap (deleted s k o w)
          else tabled s a next (entered a o w))
  unfolding linked constructed insert_root entered
  linked_eq a o r next w e =
      subst
        (λ r'. linked s k a o r' next w ≡ (
          if occupied (sel k) k.tree
          then sys_finish bad_cap (deleted s k o w)
          else tabled s a next (entered a o w)))
        (sym e)
        (option_if (occupied (sel k) k.tree) (entered a o w) (sys_finish bad_cap (deleted s k o w))
          (tabled s a next))

  refused_deleted :
      (a : Option ℕ) (o : Kobject) (w : W) → Outcome t s k a (sys_finish bad_cap (deleted s k o w))
  unfolding Outcome deleted
  refused_deleted a o w = inl (
    _,
    sys_finish_lem bad_cap _ idle,
    inr (record {
      status = (bad_cap, (λ e. absurd (ground arith)), refl);
      heap = refl;
      slots = refl;
      tree = refl;
    }),
  )

  -- What follows the object's entry only touches the rest of the kernel, or else panics.
  abbrev pub Ends : Kobject → (ℕ → Kernel W → Exit W) → Type ℓ
  Ends o next =
      (a : ℕ) (w : W)
      → ((w' : W) × (next a (entered a o w)
            ≡ sys_finish success (record (entered a o w) { world = w' })))
        ⊎ ((next a (entered a o w) ≡ panicked) × Panics t s k (some a))

  entered-Outcome :
      (a : ℕ) (o : Kobject) (next : ℕ → Kernel W → Exit W) (w' w : W)
      → object_type o ≡ t
      → s.construct o k.world ≡ some w'
      → s.table_page k.pd (sel k) w' ≡ some w
      → Allowed t k
      → occupied (sel k) k.tree ≡ false
      → Ends o next
      → Outcome t s k (some a) (next a (entered a o w))
  unfolding Outcome entered status_code
  entered-Outcome a o next w' w ty c n al f h = elim (h a w) [
    | inl (_, g) ↦ inl (
      _,
      g ∙ sys_finish_lem success _ idle,
      inl (
        a,
        refl,
        record {
          status = refl;
          made = o;
          typed = ty;
          heap = refl;
          slots = refl;
          tree = refl;
          free = f;
          allowed = al;
        },
        w',
        w,
        c,
        n,
      ),
    )
    | inr (g, x) ↦ inr (g, al, x)
  ]

  tabled-Outcome :
      (a : ℕ) (o : Kobject) (next : ℕ → Kernel W → Exit W) (w : W)
      → object_type o ≡ t
      → s.construct o k.world ≡ some w
      → Allowed t k
      → occupied (sel k) k.tree ≡ false
      → Ends o next
      → Outcome t s k (some a) (tabled s a next (entered a o w))
  unfolding Outcome entered sel
  tabled-Outcome a o next w ty c al f h = elim (Option-cases (s.table_page k.pd (sel k) w)) [
    | inl n ↦ inr (tabled-none s a next (entered a o w) n, al, Panics.no_table_page o w ty c n)
    | inr (w', n) ↦
        subst (Outcome t s k (some a)) (sym (tabled-some s a next (entered a o w) w' n))
          (entered-Outcome a o next w w' ty c n al f h)
  ]

  pub created-Outcome :
      (a : Option ℕ) (o : Kobject) (r : ℕ) (next : ℕ → Kernel W → Exit W)
      → r ≡ rights t k
      → object_type o ≡ t
      → Allowed t k
      → Ends o next
      → Outcome t s k a (created s k a o r next)
  unfolding created Outcome
  created-Outcome none o r next e ty al h = inr (refl, al, Panics.no_object refl)
  created-Outcome (some a) o r next e ty al h = elim (Option-cases (s.construct o k.world)) [
    | inl n ↦ rw (created, n) (inr (refl, al, Panics.not_constructed o ty n))
    | inr (w, c) ↦
        rw (created, c, linked_eq a o r next w e)
          (elim (Bool-cases (occupied (sel k) k.tree)) [
            | inl f ↦ rw f (refused_deleted (some a) o w)
            | inr f ↦ rw f (tabled-Outcome a o next w ty c al f h)
          ])
  ]

  pub plain-Outcome :
      (a : Option ℕ) (o : Kobject) (r : ℕ)
      → r ≡ rights t k
      → object_type o ≡ t
      → Allowed t k
      → Outcome t s k a (created s k a o r (λ _. sys_finish success))
  unfolding entered
  plain-Outcome a o r e ty al =
      created-Outcome a o r (λ _. sys_finish success) e ty al (λ a' w. inl (w, refl))
