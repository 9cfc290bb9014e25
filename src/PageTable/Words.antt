-- ===== src/PageTable/Words.antt =====
-- The words of entries: what the masks of a page table's class are assumed to be, and what an entry that the code
-- builds holds.
use hedron.Prelude.{
  ℕ, ◌+◌, ◌-◌, ◌%◌, ◌^◌, ◌<◌, ◌≤◌, ◌≡◌, ◌⊎◌, inl, inr, sym, ap, ◌∙◌, arith, bit_and, bit_or, min,
  Bool-cases, true, ltb,
}
use native.Mathlib.Nat.{eq-or-lt_of_le, div-eq_of_lt}
use hedron.Prelude.Bits.{
  bit, bit-and, bit-or, bit-inv, bit-zero, eq_of_bits, and-lt, or-lt, pow_pos, and_mask,
}
use hedron.Word.{inv, has_bits}
use hedron.Word.Laws.{or_aligned, pow_mono}
use hedron.PageTable.Table.{Attr, phys}

-- The masks: present and the rights are among the attributes, the superpage bit is none of them and below the
-- addresses, and no attribute is in the place of an address.
pub record Lawful (t : Attr) : Type 0 where
  pub mask_word : t.mask < 2 ^ 64
  pub middle : t.mask % 2 ^ 52 < 2 ^ 12
  pub p_word : t.pte_p < 2 ^ 64
  pub p_in : bit_and t.pte_p t.mask ≡ t.pte_p
  pub s_low : t.pte_s < 2 ^ 12
  pub s_out : bit_and t.pte_s t.mask ≡ 0
  pub s_set : 0 < t.pte_s
  pub rights_in : bit_and t.all_rights t.mask ≡ t.all_rights
  pub rights_word : t.all_rights < 2 ^ 64
  pub rights_p : has_bits t.all_rights t.pte_p ≡ true
  pub some_leaf : 0 < t.leaf_levels

-- a page of the allocator
pub record IsPage (t : Attr) (q : ℕ) : Type 0 where
  pub word : q < 2 ^ 64
  pub no_attr : bit_and q t.mask ≡ 0
  pub no_s : bit_and q t.pte_s ≡ 0

pub bit_of_and : (a b c k : ℕ) → bit_and a b ≡ c → min (bit a k) (bit b k) ≡ bit c k
bit_of_and a b c k e = sym (bit-and k a b) ∙ ap (λ x. bit x k) e

pub none_of_and : (a b k : ℕ) → bit_and a b ≡ 0 → min (bit a k) (bit b k) ≡ 0
none_of_and a b k e = bit_of_and a b 0 k e ∙ bit-zero k

pub lt_or_le : (a b : ℕ) → (a < b) ⊎ (b ≤ a)
lt_or_le a b = elim (Bool-cases (ltb a b)) [
  | inl e ↦ inl (ground arith)
  | inr e ↦ inr (ground arith)
]

pub pow_le : (w k : ℕ) → w ≤ k → 2 ^ w ≤ 2 ^ k
pow_le w k l = elim (eq-or-lt_of_le l) [
  | inl q ↦ let p = ap (λ (y : ℕ). 2 ^ y) q in omega arith
  | inr q ↦ let p = pow_mono w k q in omega arith
]

pub bit-mod : (x w k : ℕ) → k < w → bit (x % 2 ^ w) k ≡ bit x k
bit-mod x w k l =
    let c : 2 ^ w - 1 ≡ 2 ^ w - 1 - 0 = omega arith in
    let all : bit (2 ^ w - 1) k ≡ 1 =
      ap (λ y. bit y k) c ∙ bit-inv w k 0 l (pow_pos w) ∙ ap (λ y. 1 - y) (bit-zero k) in
    sym (ap (λ y. bit y k) (and_mask w x)) ∙ omega (arith, bit-and k x (2 ^ w - 1), all)

-- The bits of an address that is aligned and no larger than a physical address can be.
bit-aligned : (x o k : ℕ) → x % 2 ^ o ≡ 0 → k < o → bit x k ≡ 0
bit-aligned x o k e l = sym (bit-mod x o k l) ∙ ap (λ y. bit y k) e ∙ bit-zero k

pub bit-high : (x w k : ℕ) → x < 2 ^ w → w ≤ k → bit x k ≡ 0
bit-high x w k e l = let le = pow_le w k l in ap (λ y. y % 2) (div-eq_of_lt (omega arith))

module _ (t : Attr) (h : Lawful t) where
  no_middle : (k : ℕ) → 12 ≤ k → k < 52 → bit t.mask k ≡ 0
  no_middle k l l' = sym (bit-mod t.mask 52 k l') ∙ bit-high (t.mask % 2 ^ 52) 12 k h.middle l

  -- An address has no attribute and no superpage bit.
  pub address-no_attr : (x k : ℕ) → x % 2 ^ 12 ≡ 0 → x < 2 ^ 52 → min (bit x k) (bit t.mask k) ≡ 0
  address-no_attr x k e l = elim (lt_or_le k 12) [
    | inl a ↦ let z = bit-aligned x 12 k e a in omega arith
    | inr a ↦ elim (lt_or_le k 52) [
      | inl b ↦ let z = no_middle k a b in omega arith
      | inr b ↦ let z = bit-high x 52 k l b in omega arith
    ]
  ]

  pub address-no_s : (x k : ℕ) → x % 2 ^ 12 ≡ 0 → min (bit x k) (bit t.pte_s k) ≡ 0
  address-no_s x k e = elim (lt_or_le k 12) [
    | inl a ↦ let z = bit-aligned x 12 k e a in omega arith
    | inr a ↦ let z = bit-high t.pte_s 12 k h.s_low a in omega arith
  ]

  -- The entry of a table, with rights `r`.
  module _ (q r : ℕ) (page : IsPage t q) (word : r < 2 ^ 64) (sub : bit_and r t.mask ≡ r) where
    table_word : bit_or q r < 2 ^ 64
    table_word = or-lt 64 q r page.word word

    pub phys-table : phys t (bit_or q r) ≡ q
    phys-table = eq_of_bits 64 _ q (and-lt 64 _ _ table_word) page.word λ k lt. omega (
      arith,
      bit-and k (bit_or q r) (inv t.mask),
      bit-or k q r,
      bit-inv 64 k t.mask lt h.mask_word,
      none_of_and q t.mask k page.no_attr,
      bit_of_and r t.mask r k sub,
    )

    pub table-p : bit_and (bit_or q r) t.pte_p ≡ bit_and r t.pte_p
    table-p = eq_of_bits 64 _ _ (and-lt 64 _ _ table_word) (and-lt 64 _ _ word) λ k lt. omega (
      arith,
      bit-and k (bit_or q r) t.pte_p,
      bit-and k r t.pte_p,
      bit-or k q r,
      none_of_and q t.mask k page.no_attr,
      bit_of_and t.pte_p t.mask t.pte_p k h.p_in,
    )

    pub table-s : bit_and (bit_or q r) t.pte_s ≡ 0
    table-s = eq_of_bits 64 _ 0 (and-lt 64 _ _ table_word) (omega arith) λ k lt. omega (
      arith,
      bit-and k (bit_or q r) t.pte_s,
      bit-or k q r,
      bit-zero k,
      none_of_and q t.pte_s k page.no_s,
      bit_of_and r t.mask r k sub,
      none_of_and t.pte_s t.mask k h.s_out,
    )

  -- The entry of a leaf for the address `x` with the attributes `a`, and the superpage bit or none.
  module _ (x a s : ℕ) (aligned : x % 2 ^ 12 ≡ 0) (low : x < 2 ^ 52) (word : a < 2 ^ 64)
      (sub : bit_and a t.mask ≡ a) (s_in : bit_and s t.pte_s ≡ s) (s_lt : s < 2 ^ 12) where
    pub leaf_word : bit_or x (bit_or a s) < 2 ^ 64
    leaf_word = or-lt 64 x _ (omega arith) (or-lt 64 a s word (omega arith))

    pub leaf-attr : bit_and (bit_or x (bit_or a s)) t.mask ≡ a
    leaf-attr = eq_of_bits 64 _ a (and-lt 64 _ _ leaf_word) word λ k lt. omega (
      arith,
      bit-and k (bit_or x (bit_or a s)) t.mask,
      bit-or k x (bit_or a s),
      bit-or k a s,
      address-no_attr x k aligned low,
      bit_of_and a t.mask a k sub,
      bit_of_and s t.pte_s s k s_in,
      none_of_and t.pte_s t.mask k h.s_out,
    )

    pub leaf-s : bit_and (bit_or x (bit_or a s)) t.pte_s ≡ s
    leaf-s = eq_of_bits 64 _ s (and-lt 64 _ _ leaf_word) (omega arith) λ k lt. omega (
      arith,
      bit-and k (bit_or x (bit_or a s)) t.pte_s,
      bit-or k x (bit_or a s),
      bit-or k a s,
      address-no_s x k aligned,
      bit_of_and a t.mask a k sub,
      bit_of_and s t.pte_s s k s_in,
      none_of_and t.pte_s t.mask k h.s_out,
    )

    pub leaf-phys : phys t (bit_or x (bit_or a s)) ≡ x + s
    leaf-phys =
        eq_of_bits 64 _ (bit_or x s) (and-lt 64 _ _ leaf_word)
          (or-lt 64 x s (omega arith) (omega arith))
          (λ k lt. omega (
            arith,
            bit-and k (bit_or x (bit_or a s)) (inv t.mask),
            bit-or k x (bit_or a s),
            bit-or k a s,
            bit-or k x s,
            bit-inv 64 k t.mask lt h.mask_word,
            address-no_attr x k aligned low,
            bit_of_and a t.mask a k sub,
            bit_of_and s t.pte_s s k s_in,
            none_of_and t.pte_s t.mask k h.s_out,
          ))
        ∙ or_aligned 12 x s aligned s_lt

  pub mask_p : (e : ℕ) → e < 2 ^ 64 → bit_and (bit_and e t.mask) t.pte_p ≡ bit_and e t.pte_p
  mask_p e word =
      eq_of_bits 64 _ _ (and-lt 64 _ _ (and-lt 64 _ _ word)) (and-lt 64 _ _ word) λ k lt. omega (
        arith,
        bit-and k (bit_and e t.mask) t.pte_p,
        bit-and k e t.mask,
        bit-and k e t.pte_p,
        bit_of_and t.pte_p t.mask t.pte_p k h.p_in,
      )

  -- The rights of a new table have no superpage bit to lose.
  pub rights_kept : bit_and t.all_rights (inv t.pte_s) ≡ t.all_rights
  rights_kept =
      let s = h.s_low in
      eq_of_bits 64 _ _ (and-lt 64 _ _ h.rights_word) h.rights_word λ k lt. omega (
        arith,
        bit-and k t.all_rights (inv t.pte_s),
        bit-inv 64 k t.pte_s lt (omega arith),
        bit_of_and t.all_rights t.mask t.all_rights k h.rights_in,
        none_of_and t.pte_s t.mask k h.s_out,
      )
