-- ===== src/Capability/Cast.antt =====
-- What a capability holds, and when it may be used as an object of some type.
use hedron.Prelude.{
  ℕ, ◌+◌, ◌-◌, ◌%◌, ◌<◌, ◌≡◌, ◌≢◌, ◌∙◌, ◌↔◌, true, arith, bit_and, bit_or, ap, some, ◌==◌,
  if◌then◌else◌, Bool-cases, inl, inr,
}
use hedron.Prelude.Bits.{and_mask}
use hedron.Word.{word_mod}
use hedron.Word.Laws.{and-inv-low_ones, or_aligned}
use hedron.Capability.{Capability, KobjectType, same_type, make, obj, prm, cast}

same_type_iff : (s t : KobjectType) → (same_type s t ≡ true) ↔ (s ≡ t)
unfolding same_type
same_type_iff s t = ground arith

prm_lem : (c : Capability) → prm c ≡ c.value % 32
unfolding prm
prm_lem c = and_mask 5 c.value

obj_lem : (c : Capability) → c.value < word_mod → obj c ≡ c.value - c.value % 32
unfolding obj
obj_lem c h = and-inv-low_ones c.value 5 h (omega arith)

make_lem : (o a : ℕ) → o % 32 ≡ 0 → (make o a).value ≡ (if a == 0 then 0 else o + a % 32)
unfolding make
make_lem o a h =
    ap (λ (t : ℕ). if a == 0 then 0 else t)
      (ap (bit_or o) (and_mask 5 a) ∙ or_aligned 5 o (a % 32) h (omega arith))

-- A capability that is made with no rights is the null capability. Any other holds exactly the object and
-- the low five bits of the rights that it was made with.
pub make_fields :
    (o a : ℕ)
    → o % 32 ≡ 0
    → o < word_mod
    → (obj (make o a) ≡ (if a == 0 then 0 else o))
      × (prm (make o a) ≡ (if a == 0 then 0 else a % 32))
make_fields o a h lt = ground (arith, make_lem o a h, obj_lem (make o a), prm_lem (make o a))

cast_eq :
    (type_of : ℕ → KobjectType) (t : KobjectType) (c : Capability) (r x : ℕ)
    → (cast type_of t c r ≡ some x)
      ↔ ((obj c ≢ 0) × (x ≡ obj c) × (type_of (obj c) ≡ t) × (bit_and (prm c) r ≡ r))
unfolding cast
cast_eq type_of t c r x = ground (arith, same_type_iff (type_of (obj c)) t)

-- A cast of a capability that was made for an object with rights `a` succeeds exactly when there were
-- rights to give, the object has the wanted type and each required permission is among the low five rights;
-- it then yields that object and no other.
pub cast-make_iff :
    (type_of : ℕ → KobjectType) (t : KobjectType) (o a required x : ℕ)
    → o % 32 ≡ 0
    → 0 < o
    → o < word_mod
    → (cast type_of t (make o a) required ≡ some x)
      ↔ ((a ≢ 0) × (x ≡ o) × (type_of o ≡ t) × (bit_and (a % 32) required ≡ required))
cast-make_iff type_of t o a required x h pos lt = elim (Bool-cases (a == 0)) [
  | inl e ↦ ground (arith, cast_eq type_of t (make o a) required x, make_fields o a h lt)
  | inr e ↦ ground (arith, cast_eq type_of t (make o a) required x, make_fields o a h lt)
]
