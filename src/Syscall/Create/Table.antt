-- ===== src/Syscall/Create/Table.antt =====
-- The capability table of a domain against its mapping tree (src/space_obj.cpp).
use hedron.Prelude.{
  ℕ, ◌+◌, ◌%◌, ◌<◌, ◌≡◌, ◌≢◌, ◌∙◌, ◌⊎◌, inl, inr, refl, sym, ap, subst, Bool, true, false, Option,
  none, some, List, [], ◌∷◌, All, if◌then◌else◌, ◌==◌, arith,
}
use mathlib.Core.Option.{some-injective}
use hedron.Links.{update}
use hedron.Capability.{Capability, KobjectType}
use hedron.Syscall.{Kernel, Exit, Node, sel, lookup, conflicts, occupied, caps}
use hedron.Syscall.Exit.{returned}
use hedron.Syscall.Services.{Services}
use hedron.Syscall.Create.Outcome.{create, rights, Made, New, Refused, status-ne-zero}
use hedron.Syscall.Create.Paths.{create-Outcome}

-- The capability that the tree has for a selector.
unfoldable pub cap_at : ℕ → List Node → Capability
cap_at i [] = record { value = 0 }
cap_at i (n ∷ ns) = if n.base == i then hedron.Capability.make n.phys n.attr else cap_at i ns

abbrev pub Once : List Node → Type 0
Once [] = Unit
Once (n ∷ ns) = (occupied n.base ns ≡ false) × Once ns

abbrev pub Small : Node → Type 0
Small n = (n.order ≡ 0) × (n.base < caps)

-- Selectors are small and used once, and the table is what the tree says.
pub record Sound {ℓ} {W : Type ℓ} (k : Kernel W) : Type ℓ where
  pub small : All Small k.tree
  pub once : Once k.tree
  pub table : (i : ℕ) → i < caps → k.slots i ≡ cap_at i k.tree

kernel_or {ℓ} : {W : Type ℓ} → Kernel W → Exit W → Kernel W
kernel_or x (returned k) = k
kernel_or x _ = x

returned-inj {ℓ} : {W : Type ℓ} (x y : Kernel W) → returned x ≡ returned y → x ≡ y
unfolding kernel_or
returned-inj x y e = ap (kernel_or x) e

is_returned {ℓ} : {W : Type ℓ} → Exit W → Bool
is_returned (returned _) = true
is_returned _ = false

false-ne-true : false ≢ true
false-ne-true e = ground arith

-- A call that creates an object and returns: what `create-Outcome` says of it.
outcome-returned {ℓ} :
    {W : Type ℓ} (t : KobjectType) (s : Services W) (k : Kernel W) (a : Option ℕ) (k' : Kernel W)
    → k.vcpu ≡ none
    → create t s k a ≡ returned k'
    → New t s k a k' ⊎ Refused k k'
unfolding hedron.Syscall.Create.Outcome.Outcome is_returned
outcome-returned t s k a k' idle e = elim (create-Outcome t s k a idle) [
  | inl (x, f, m) ↦ subst (λ z. New t s k a z ⊎ Refused k z) (returned-inj x k' (sym f ∙ e)) m
  | inr (f, _, _) ↦ absurd (false-ne-true (ap is_returned (sym f ∙ e)))
]

table_at :
    (f : ℕ → Capability) (b a r i : ℕ) (ns : List Node)
    → b < caps
    → f i ≡ cap_at i ns
    → update f (b % caps) (hedron.Capability.make a r) i
      ≡ cap_at i (record { base = b; order = 0; phys = a; attr = r } ∷ ns)
unfolding cap_at
table_at f b a r i ns lt h = ground arith

Made-Sound {ℓ} :
    {W : Type ℓ} (t : KobjectType) (k : Kernel W) (a : ℕ) (k' : Kernel W)
    → Sound k
    → sel k < caps
    → Made t k a k'
    → Sound k'
Made-Sound t k a k' h lt m = record {
  small = subst (All Small) (sym m.tree) ((refl, lt), h.small);
  once = subst Once (sym m.tree) (m.free, h.once);
  table = λ i l.
      ap (λ f. f i) m.slots
      ∙ table_at k.slots (sel k) a (rights t k) i k.tree lt (h.table i l)
      ∙ ap (cap_at i) (sym m.tree);
}

-- Of a domain whose selectors are used once and whose capability table is what its mapping tree says, a
-- call that creates an object with a selector that the table has room for, and returns, keeps
-- that, whether it succeeds or not.
pub create-Sound {ℓ} :
    {W : Type ℓ} (t : KobjectType) (s : Services W) (k : Kernel W) (a : Option ℕ) (k' : Kernel W)
    → k.vcpu ≡ none
    → Sound k
    → sel k < caps
    → create t s k a ≡ returned k'
    → Sound k'
create-Sound t s k a k' idle h lt e = elim (outcome-returned t s k a k' idle e) [
  | inl (x, _, m, _, _, _, _) ↦ Made-Sound t k x k' h lt m
  | inr r ↦ record {
    small = subst (All Small) (sym r.tree) h.small;
    once = subst Once (sym r.tree) h.once;
    table = λ i l. ap (λ f. f i) r.slots ∙ h.table i l ∙ ap (cap_at i) (sym r.tree);
  }
]

overwritten :
    (f : ℕ → Capability) (b x : ℕ) (c : Capability)
    → b < caps
    → x ≡ b + caps
    → update f (x % caps) c (b % caps) ≡ c
overwritten f b x c lt e = ground arith

passed_over :
    (x b a r : ℕ) (ns : List Node)
    → x ≡ b + caps
    → cap_at b (record { base = x; order = 0; phys = a; attr = r } ∷ ns) ≡ cap_at b ns
unfolding cap_at
passed_over x b a r ns e = ground arith

-- A selector is not compared with the size of the table. When the selector lies one table beyond that of
-- a node of the tree and the call succeeds, the new capability takes the place of the
-- other in the table, while the tree still has the other.
pub create_past_caps {ℓ} :
    {W : Type ℓ} (t : KobjectType) (s : Services W) (k : Kernel W) (a b : ℕ) (k' : Kernel W)
    → k.vcpu ≡ none
    → Sound k
    → b < caps
    → sel k ≡ b + caps
    → create t s k (some a) ≡ returned k'
    → k'.arg_1 ≡ 0
    → (lookup k' b ≡ hedron.Capability.make a (rights t k)) × (cap_at b k'.tree ≡ lookup k b)
unfolding lookup
create_past_caps t s k a b k' idle h lt sl e z = elim (outcome-returned t s k (some a) k' idle e) [
  | inl (x, same, m, _, _, _, _) ↦ (
    ap (λ f. f (b % caps)) m.slots
        ∙ overwritten k.slots b (sel k) _ lt sl
        ∙ ap (λ y. hedron.Capability.make y (rights t k)) (sym (some-injective a x same)),
    ap (cap_at b) m.tree
        ∙ passed_over (sel k) b x (rights t k) k.tree sl
        ∙ sym (h.table b lt)
        ∙ ap k.slots (omega arith),
  )
  | inr r ↦ absurd (status-ne-zero r.status.0 r.status.1 (sym r.status.2 ∙ z))
]
