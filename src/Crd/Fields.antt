-- ===== src/Crd/Fields.antt =====
-- The fields of a descriptor and of a typed item are independent, and make up the whole word.
use hedron.Prelude.{
  ℕ, zero, suc, ◌+◌, ◌*◌, ◌/◌, ◌%◌, ◌^◌, ◌<◌, ◌≡◌, ◌∙◌, ◌↔◌, refl, true, arith, bit_and, bit_or,
  bit_xor, ap,
}
use hedron.Prelude.Bits.{and_mask, or_low, xor_digit, xor-zero}
use hedron.Word.{word_mod, shl}
use hedron.Word.Laws.{has_bit_iff}
use hedron.Crd.{
  Crd, CrdType, null, mem, pio, obj, type_code, type_of_code, make, type, attr, order, base, Xfer,
  flags, hotspot, subspaces, from_kern,
}

type_code-lt : (t : CrdType) → type_code t < 4
unfolding type_code
type_code-lt null = omega arith
type_code-lt mem = omega arith
type_code-lt pio = omega arith
type_code-lt obj = omega arith

type_of_code-type_code : (t : CrdType) → type_of_code (type_code t) ≡ t
unfolding type_code type_of_code
type_of_code-type_code null = refl
type_of_code-type_code mem = refl
type_of_code-type_code pio = refl
type_of_code-type_code obj = refl

type_code-type_of_code : (n : ℕ) → n < 4 → type_code (type_of_code n) ≡ n
unfolding type_code type_of_code
type_code-type_of_code zero h = refl
type_code-type_of_code (suc zero) h = refl
type_code-type_of_code (suc (suc zero)) h = refl
type_code-type_of_code (suc (suc (suc zero))) h = refl
type_code-type_of_code (suc (suc (suc (suc n)))) h = absurd (omega arith)

-- Fields that are joined from the top down do not overlap.
join_order : (b o : ℕ) → o < 32 → bit_or (b * 2 ^ 12) (o * 128) ≡ (b * 32 + o) * 2 ^ 7
join_order b o h = or_low 12 b (o * 128) (omega arith) ∙ omega arith

join_attr : (b a : ℕ) → a < 32 → bit_or (b * 2 ^ 7) (a * 4) ≡ (b * 32 + a) * 2 ^ 2
join_attr b a h = or_low 7 b (a * 4) (omega arith) ∙ omega arith

-- The word that `make` packs, as a sum. A base of more than 52 bits loses its high bits.
make-value :
    (t : CrdType) (b o a : ℕ)
    → o < 32
    → a < 32
    → (make t b o a).value ≡ ((b % 2 ^ 52 * 32 + o) * 32 + a) * 2 ^ 2 + type_code t
unfolding make
make-value t b o a ho ha =
    let eb : shl b 12 ≡ b % 2 ^ 52 * 2 ^ 12 = omega arith in
    let eo : shl o 7 ≡ o * 128 = omega arith in
    let ea : shl a 2 ≡ a * 4 = omega arith in
    rw (eb, eo, ea, join_order (b % 2 ^ 52) o ho, join_attr (b % 2 ^ 52 * 32 + o) a ha)
      (or_low 2 _ (type_code t) (type_code-lt t))

-- Packing a descriptor and reading its fields gives them back, where each fits its width: 52 bits
-- of base, five of order and of attributes.
pub fields-make :
    (t : CrdType) (b o a : ℕ)
    → b < 2 ^ 52
    → o < 32
    → a < 32
    → let c = make t b o a in (type c ≡ t) × (base c ≡ b) × (order c ≡ o) × (attr c ≡ a)
unfolding type base order attr
fields-make t b o a hb ho ha =
    let v = make-value t b o a ho ha in
    (
      ap type_of_code (and_mask 2 _ ∙ omega (arith, v, type_code-lt t)) ∙ type_of_code-type_code t,
      omega (arith, v, type_code-lt t),
      and_mask 5 _ ∙ omega (arith, v, type_code-lt t),
      and_mask 5 _ ∙ omega (arith, v, type_code-lt t),
    )

-- Every descriptor word is the packing of its own fields: no bit lies outside them.
pub make-fields :
    (c : Crd) → c.value < word_mod → (make (type c) (base c) (order c) (attr c)).value ≡ c.value
unfolding type base order attr
make-fields c h =
    let t = type_code-type_of_code (bit_and c.value 0x3) (omega (arith, and_mask 2 c.value)) in
    make-value (type c) (base c) (order c) (attr c) (omega (arith, and_mask 5 (c.value / 2 ^ 7)))
      (omega (arith, and_mask 5 (c.value / 2 ^ 2)))
    ∙ omega
        (arith, t, and_mask 2 c.value, and_mask 5 (c.value / 2 ^ 7), and_mask 5 (c.value / 2 ^ 2))

flip_low : (n : ℕ) → bit_xor n 1 ≡ n / 2 * 2 + (n % 2 + 1) % 2
flip_low n = omega (arith, xor_digit n 1, xor-zero (n / 2))

-- The metadata word of a typed item, by its bits: the flags are the low 12 bits and the hotspot the
-- rest. Bits 8 to 10 give the subspaces, the lowest of them inverted; bit 11 says whether the
-- kernel's own domain is the source.
pub metadata_fields :
    (x : Xfer)
    → (hotspot x * 4096 + flags x ≡ x.metadata)
      × (subspaces x ≡ x.metadata / 512 % 4 * 2 + (x.metadata / 256 + 1) % 2)
      × ((from_kern x ≡ true) ↔ (x.metadata / 2048 % 2 ≡ 1))
unfolding hotspot flags subspaces from_kern
metadata_fields x = (
  omega (arith, and_mask 12 x.metadata),
  flip_low _ ∙ omega (arith, and_mask 3 (x.metadata / 2 ^ 8)),
  (let bit : x.metadata / 2048 % 2 ≡ bit_and x.metadata 0xfff / 2 ^ 11 % 2 =
        omega (arith, and_mask 12 x.metadata) in
      rw bit (has_bit_iff (bit_and x.metadata 0xfff) 11)),
)
