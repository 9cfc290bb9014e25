-- ===== src/Capability.antt =====
-- Capabilities: include/capability.hpp. A capability is one word, the address of a kernel object,
-- which is aligned to 32 bytes, with the permissions in its low five bits.
pub mod Cast
use hedron.Prelude.{
  ℕ, ◌-◌, ◌^◌, Bool, ◌&&◌, bit_and, bit_or, Option, none, some, if◌then◌else◌, ◌==◌, ltb,
}
use hedron.Word.{ones, inv}

pub record Capability : Type 0 where
  pub value : ℕ

-- `enum class Type` of include/kobject.hpp
pub data KobjectType : Type 0 where
  pd ec sc pt sm kp vcpu : KobjectType

unfoldable pub same_type : KobjectType → KobjectType → Bool
same_type pd pd = Bool.true
same_type ec ec = Bool.true
same_type sc sc = Bool.true
same_type pt pt = Bool.true
same_type sm sm = Bool.true
same_type kp kp = Bool.true
same_type vcpu vcpu = Bool.true
same_type _ _ = Bool.false

-- `Capability::perm`
abbrev pub perm : ℕ
perm = 0x1f

-- `Capability(Kobject* o, mword a)`
unfoldable pub make : ℕ → ℕ → Capability
make o a = record { value = if a == 0 then 0 else bit_or o (bit_and a perm) }

unfoldable pub obj : Capability → ℕ
obj c = bit_and c.value (inv perm)

unfoldable pub prm : Capability → ℕ
prm c = bit_and c.value perm

-- `capability_cast<T>`: the objects' types are read through `type_of`; `none` is the null pointer.
unfoldable pub cast : (ℕ → KobjectType) → KobjectType → Capability → ℕ → Option ℕ
unfolding obj prm
cast type_of t c required =
    if ltb 0 (obj c) && (same_type (type_of (obj c)) t && bit_and (prm c) required == required)
    then some (obj c)
    else none
