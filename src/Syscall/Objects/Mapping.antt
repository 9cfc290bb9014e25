-- ===== src/Syscall/Objects/Mapping.antt =====
-- The user mapping of a kernel page.
use hedron.Prelude.{
  ℕ, ◌+◌, ◌-◌, ◌%◌, ◌<◌, ◌≡◌, ◌≢◌, ◌↔◌, true, false, some, none, refl, ap, ◌∙◌, arith,
}
use hedron.Links.{update}
use hedron.Prelude.Bits.{and_mask}
use hedron.Refcount.Laws.{del_rcu_lem}
use hedron.Refcount.{u32_mod, add_ref}
use hedron.Syscall.{Kernel, Kobject, KpObject}
use hedron.Syscall.Services.{Services}
use hedron.Syscall.Create.{invalid_user_addr}
use hedron.Syscall.Objects.{
  hold, drop, has_user_mapping, add_user_mapping, remove_user_mapping, mapped, unmapped,
}

-- A kernel page is mapped exactly when it has no mapping yet, the address is that of a page of the user's
-- half, and the domain is still alive.
pub add_user_mapping_iff {ℓ} :
    {W : Type ℓ} (s : Services W) (k : Kernel W) (kp : ℕ) (o : KpObject) (pd addr : ℕ)
    → ((add_user_mapping s k kp o pd addr).0 ≡ true) ↔ (
        (has_user_mapping o ≡ false)
        × (addr % 4096 ≡ 0)
        × (addr < invalid_user_addr)
        × (k.refs pd ≢ 0))
unfolding add_user_mapping hold add_ref
add_user_mapping_iff s k kp o pd addr = ground (arith, and_mask 12 addr)

-- The state after the domain is held.
held {ℓ} : {W : Type ℓ} → Kernel W → ℕ → Kernel W
held k pd = record k { refs = update k.refs pd ((k.refs pd + 1) % u32_mod) }

add_user_mapping_lem {ℓ} :
    {W : Type ℓ} (s : Services W) (k k1 : Kernel W) (kp : ℕ) (o : KpObject) (pd addr : ℕ)
    → add_user_mapping s k kp o pd addr ≡ (true, k1)
    → (k1 ≡ mapped s (held k pd) kp o pd addr) × (addr < invalid_user_addr) × (k.refs pd ≢ 0)
unfolding add_user_mapping hold add_ref held
add_user_mapping_lem s k k1 kp o pd addr e = ground arith

drop_refs {ℓ} :
    {W : Type ℓ} (k : Kernel W) (pd p : ℕ)
    → 1 < k.refs pd
    → k.refs pd < u32_mod
    → (drop k pd).refs p ≡ update k.refs pd (k.refs pd - 1) p
unfolding drop
drop_refs k pd p h lt = ground (arith, del_rcu_lem (k.refs pd) (omega arith) lt)

drop_world {ℓ} : {W : Type ℓ} (k : Kernel W) (pd : ℕ) → (drop k pd).world ≡ k.world
unfolding drop
drop_world k pd = ground arith

abbrev page_of : ℕ → ℕ → KpObject
page_of pd addr = record { pd_user_page = some pd; addr_in_user_space = addr }

remove_mapped {ℓ} :
    {W : Type ℓ} (s : Services W) (k : Kernel W) (kp pd addr : ℕ)
    → addr < invalid_user_addr
    → 1 < k.refs pd
    → k.refs pd < u32_mod
    → ((remove_user_mapping s k kp (page_of pd addr)).0 ≡ true)
      × ((p : ℕ)
          → (remove_user_mapping s k kp (page_of pd addr)).1.refs p
            ≡ update k.refs pd (k.refs pd - 1) p)
      × ((o : KpObject) × ((remove_user_mapping s k kp (page_of pd addr)).1.heap kp
            ≡ Kobject.kp_object o)
          × (has_user_mapping o ≡ false))
      × ((remove_user_mapping s k kp (page_of pd addr)).1.world ≡ s.unmap_page pd addr k.world)
unfolding remove_user_mapping has_user_mapping unmapped
remove_mapped s k kp pd addr lt h l = (
  ground arith,
  λ p. ground (arith, drop_refs k pd p h l),
  (record { pd_user_page = none; addr_in_user_space = invalid_user_addr }, ground arith, refl),
  ground (arith, drop_world k pd),
)

-- What `remove_user_mapping` undoes: after a kernel page is mapped into a domain whose reference count is
-- below its largest value, its mapping is found, and removing it succeeds. Then every reference count is
-- as before the two, the page is a kernel page with no mapping, and all that happened to the rest of
-- the kernel is that it was mapped in this domain at this address, and this address then unmapped.
pub remove-add_user_mapping {ℓ} :
    {W : Type ℓ} (s : Services W) (k k1 : Kernel W) (kp : ℕ) (o : KpObject) (pd addr : ℕ)
    → k.refs pd + 1 < u32_mod
    → add_user_mapping s k kp o pd addr ≡ (true, k1)
    → (o' : KpObject) × (k1.heap kp ≡ Kobject.kp_object o')
      × (has_user_mapping o' ≡ true)
      × ((remove_user_mapping s k1 kp o').0 ≡ true)
      × ((p : ℕ) → (remove_user_mapping s k1 kp o').1.refs p ≡ k.refs p)
      × ((o'' : KpObject) × ((remove_user_mapping s k1 kp o').1.heap kp ≡ Kobject.kp_object o'')
          × (has_user_mapping o'' ≡ false))
      × ((remove_user_mapping s k1 kp o').1.world
          ≡ s.unmap_page pd addr (s.map_page pd addr kp k.world))
unfolding mapped held has_user_mapping
remove-add_user_mapping s k k1 kp o pd addr lt e =
    let (eq, l, ne) = add_user_mapping_lem s k k1 kp o pd addr e in
    let refs : (p : ℕ) → k1.refs p ≡ update k.refs pd ((k.refs pd + 1) % u32_mod) p =
      λ p. ap (λ x. x.refs p) eq in
    let one : k1.refs pd ≡ k.refs pd + 1 = ground (arith, refs pd) in
    let (ok, back, gone, rest) = remove_mapped s k1 kp pd addr l (omega arith) (omega arith) in
    (
      page_of pd addr,
      ap (λ x. x.heap kp) eq ∙ ground arith,
      ground arith,
      ok,
      λ p. back p ∙ ground (arith, refs p, one),
      gone,
      rest ∙ ap (λ x. s.unmap_page pd addr x.world) eq,
    )
