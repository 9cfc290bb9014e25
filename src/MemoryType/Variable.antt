-- ===== src/MemoryType/Variable.antt =====
-- The memory type outside of the fixed ranges.
use hedron.Prelude.{
  ℕ, ◌%◌, ◌^◌, ◌<◌, ◌≤◌, ◌≡◌, ◌≢◌, ◌⊎◌, ◌∙◌, inl, inr, refl, min, bit_and, true, false, Bool-cases,
  List, [], ◌∷◌, All, arith, if◌then◌else◌, ◌==◌,
}
use native.Mathlib.Decide.{dec_lt}
use hedron.Prelude.Bits.{and_mask}
use hedron.Word.{ones}
use hedron.MemoryType.{Mtrr, MtrrState, matches, apply_range, var_type, memtype}

-- The type that a variable range gives
abbrev pub type_of : Mtrr → ℕ
type_of m = bit_and (m.base % 2 ^ 32) 0xff

-- A predicate at one element
abbrev pub One : (Mtrr → Type 0) → List Mtrr → Type 0
One P [] = ⊥
One P (x ∷ xs) = P x ⊎ One P xs

apply_range_lem :
    (phys : ℕ) (m : Mtrr) (t n : ℕ)
    → (apply_range phys m (t, n)).0 ≡ (if matches phys m then min t (type_of m) else t)
unfolding apply_range matches
apply_range_lem phys m t n = ground arith

-- Among `t` and the types of the matching ranges, `r` is the least.
abbrev Least : ℕ → List Mtrr → ℕ → ℕ → Type 0
Least phys ms t r =
    (r ≤ t)
    × All (λ m. (matches phys m ≡ false) ⊎ (r ≤ type_of m)) ms
    × ((r ≡ t) ⊎ One (λ m. (matches phys m ≡ true) × (r ≡ type_of m)) ms)

var_type-Least : (phys : ℕ) (ms : List Mtrr) (t n : ℕ) → Least phys ms t (var_type phys ms (t, n)).0
unfolding var_type
var_type-Least phys [] t n = (omega arith, tt, inl refl)
var_type-Least phys (m ∷ ms) t n =
    let (t', n') = apply_range phys m (t, n) in
    let a : t' ≡ (if matches phys m then min t (type_of m) else t) = apply_range_lem phys m t n in
    let (le, all, one) = var_type-Least phys ms t' n' in
    elim (Bool-cases (matches phys m)) [
      | inl y ↦
          let a' : t' ≡ min t (type_of m) = a ∙ rw y refl in
          (
            omega (arith, a', le),
            (inr (omega (arith, a', le)), all),
            elim one [
              | inl e ↦ elim (dec_lt t (type_of m)) [
                | yes l ↦ inl (omega (arith, a', e))
                | no g ↦ inr (inl (y, omega (arith, a', e)))
              ]
              | inr o ↦ inr (inr o)
            ],
          )
      | inr f ↦
          let a' : t' ≡ t = a ∙ rw f refl in
          (
            omega (arith, a', le),
            (inl f, all),
            elim one [ inl e ↦ inl (e ∙ a') | inr o ↦ inr (inr o) ],
          )
    ]

type_of-lt : (m : Mtrr) → type_of m < 256
type_of-lt m = omega (arith, and_mask 8 (m.base % 2 ^ 32))

none_match :
    (phys : ℕ) (ms : List Mtrr) (r : ℕ)
    → r ≡ 0xffff_ffff
    → All (λ m. (matches phys m ≡ false) ⊎ (r ≤ type_of m)) ms
    → All (λ m. matches phys m ≡ false) ms
none_match phys [] r e h = tt
none_match phys (m ∷ ms) r e h = (
  elim h.0 [ inl f ↦ f | inr l ↦ absurd (omega (arith, type_of-lt m)) ],
  none_match phys ms r e h.1,
)

One-ne :
    (phys : ℕ) (ms : List Mtrr) (r : ℕ)
    → One (λ m. (matches phys m ≡ true) × (r ≡ type_of m)) ms
    → r ≢ 0xffff_ffff
One-ne phys [] r h = absurd h
One-ne phys (m ∷ ms) r (inl (y, e)) = λ q. omega (arith, type_of-lt m)
One-ne phys (m ∷ ms) r (inr h) = One-ne phys ms r h

memtype_above :
    (read : ℕ → ℕ) (s : MtrrState) (phys r : ℕ)
    → 0x100000 ≤ phys
    → (var_type phys s.var_mtrr (0xffff_ffff, ones)).0 ≡ r
    → (memtype read s phys).0 ≡ (if r == 0xffff_ffff then s.default_type else r)
unfolding memtype
memtype_above read s phys r h e = ground arith

-- Above the first megabyte: where no variable range matches, the type is the default; where one does, it is
-- the least of the types that the matching ranges give, in the order of the encoding.
pub memtype-Least :
    (read : ℕ → ℕ) (s : MtrrState) (phys : ℕ)
    → 0x100000 ≤ phys
    → let r = (memtype read s phys).0 in
      (All (λ m. matches phys m ≡ false) s.var_mtrr × (r ≡ s.default_type))
      ⊎ (All (λ m. (matches phys m ≡ false) ⊎ (r ≤ type_of m)) s.var_mtrr
          × One (λ m. (matches phys m ≡ true) × (r ≡ type_of m)) s.var_mtrr)
memtype-Least read s phys h =
    let r = (var_type phys s.var_mtrr (0xffff_ffff, ones)).0 in
    let (le, all, one) = var_type-Least phys s.var_mtrr 0xffff_ffff ones in
    let e = memtype_above read s phys r h refl in
    elim one [
      | inl d ↦ inl (none_match phys s.var_mtrr r d all, e ∙ rw d refl)
      | inr o ↦
          let ne : r ≢ 0xffff_ffff = One-ne phys s.var_mtrr r o in
          let e' : (memtype read s phys).0 ≡ r = e ∙ ground arith in inr (rw e' (all, o))
    ]
