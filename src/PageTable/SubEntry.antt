-- ===== src/PageTable/SubEntry.antt =====
-- The entries that take a superpage's place: `fill_from_superpage` of include/generic_page_table.hpp.
use hedron.Prelude.{
  ap₂, ℕ, zero, suc, ◌+◌, ◌-◌, ◌*◌, ◌/◌, ◌%◌, ◌^◌, ◌<◌, ◌≤◌, ◌≡◌, refl, sym, ap, ◌∙◌, arith,
  bit_and, bit_or, if_intro, Bool, true, false, ◌&&◌, if◌then◌else◌, ◌==◌, ltb, some,
}
use native.Mathlib.Nat.{
  div-add-mod', div-div-eq-div-mul, mul-mod_left, mul-add-div_right, mul-div_left, mul-le-mul_left,
}
use hedron.Prelude.Bits.{
  bit, bit-and, bit-or, bit-inv, bit-zero, eq_of_bits, and-lt, or-lt, or_fields, or_comm, pow_pos,
  and_zero_left,
}
use hedron.Word.{inv, has_bits}
use hedron.Word.Laws.{or_aligned, pow-add}
use hedron.PageTable.Table.{Attr, level_order, virt_to_index, phys, is_superpage, is_leaf}
use hedron.PageTable.Update.{sub_entry}
use hedron.PageTable.Words.{
  pow_le, Lawful, address-no_attr, mask_p, address-no_s, bit-high, bit_of_and, none_of_and,
}
use hedron.PageTable.Shape.{next_order, block_number}
use hedron.PageTable.View.{frame, Framed, entry_view}

bit-div : (x a k : ℕ) → bit (x / 2 ^ a) k ≡ bit x (a + k)
bit-div x a k =
    ap (λ y. y % 2)
      (div-div-eq-div-mul x (2 ^ a) (2 ^ k) ∙ ap (λ (y : ℕ). x / y) (sym (pow-add a k)))

-- An entry without the bits `s`, among them no attribute, and with the address `x`.
module _ (t : Attr) (h : Lawful t) (e s x : ℕ) (word : e < 2 ^ 64) (s_in : bit_and s t.pte_s ≡ s)
    (s_lt : s < 2 ^ 12) (aligned : x % 2 ^ 12 ≡ 0) (low : x < 2 ^ 52) where
  abbrev kept : ℕ
  kept = bit_and e (inv s)

  pub sub_word : bit_or kept x < 2 ^ 64
  sub_word = or-lt 64 kept x (and-lt 64 e _ word) (omega arith)

  pub sub-attr : bit_and (bit_or kept x) t.mask ≡ bit_and e t.mask
  sub-attr = eq_of_bits 64 _ _ (and-lt 64 _ _ sub_word) (and-lt 64 _ _ word) λ k lt. omega (
    arith,
    bit-and k (bit_or kept x) t.mask,
    bit-or k kept x,
    bit-and k e (inv s),
    bit-and k e t.mask,
    bit-inv 64 k s lt (omega arith),
    address-no_attr t h x k aligned low,
    bit_of_and s t.pte_s s k s_in,
    none_of_and t.pte_s t.mask k h.s_out,
  )

  pub sub-s : s ≡ 0 → bit_and (bit_or kept x) t.pte_s ≡ bit_and e t.pte_s
  sub-s z = eq_of_bits 64 _ _ (and-lt 64 _ _ sub_word) (and-lt 64 _ _ word) λ k lt. omega (
    arith,
    bit-and k (bit_or kept x) t.pte_s,
    bit-or k kept x,
    bit-and k e (inv s),
    bit-and k e t.pte_s,
    bit-inv 64 k s lt (omega arith),
    address-no_s t h x k aligned,
    ap (λ (y : ℕ). bit y k) z,
    bit-zero k,
  )

  -- The address is that of the entry and the new one.
  sub-phys : phys t (bit_or kept x) ≡ bit_or (bit_and (phys t e) (inv s)) x
  sub-phys =
      eq_of_bits 64 _ _ (and-lt 64 _ _ sub_word)
        (or-lt 64 _ x (and-lt 64 _ _ (and-lt 64 _ _ word)) (omega arith))
        λ k lt. omega (
          arith,
          bit-and k (bit_or kept x) (inv t.mask),
          bit-or k kept x,
          bit-or k (bit_and (phys t e) (inv s)) x,
          bit-and k e (inv s),
          bit-and k (phys t e) (inv s),
          bit-and k e (inv t.mask),
          bit-inv 64 k t.mask lt h.mask_word,
          address-no_attr t h x k aligned low,
        )

  -- Bits below the pages do not count.
  cleared-frame : bit_and (phys t e) (inv s) / 2 ^ 12 ≡ frame t e
  cleared-frame =
      let y = phys t e in
      let y' : y < 2 ^ 64 = and-lt 64 e (inv t.mask) word in
      let z' : bit_and y (inv s) < 2 ^ 64 = and-lt 64 y (inv s) y' in
      eq_of_bits 52 _ _ (omega arith) (omega arith) λ k lt. omega (
        arith,
        bit-div (bit_and y (inv s)) 12 k,
        bit-div y 12 k,
        bit-and (12 + k) y (inv s),
        bit-inv 64 (12 + k) s (omega arith) (omega arith),
        bit-high s 12 (12 + k) s_lt (omega arith),
      )

  pub sub-frame : frame t (bit_or kept x) ≡ bit_or (x / 2 ^ 12) (frame t e)
  sub-frame =
      let y = bit_and (phys t e) (inv s) in
      let q = x / 2 ^ 12 in
      let q' : x ≡ q * 2 ^ 12 = omega (arith, div-add-mod' x (2 ^ 12)) in
      let y' : y ≡ y / 2 ^ 12 * 2 ^ 12 + y % 2 ^ 12 = omega (arith, div-add-mod' y (2 ^ 12)) in
      let r : y % 2 ^ 12 < 2 ^ 12 = omega arith in
      ap (λ k. k / 2 ^ 12)
        (sub-phys ∙ or_comm y x ∙ ap₂ bit_or q' y' ∙ or_fields 12 q (y / 2 ^ 12) (y % 2 ^ 12) r)
      ∙ mul-add-div_right {m = 2 ^ 12} (omega arith) (bit_or q (y / 2 ^ 12)) (y % 2 ^ 12)
      ∙ (omega (arith, ap (bit_or q) cleared-frame))

-- a level's part of an address
pub block_split :
    (l v : ℕ)
    → v % 2 ^ level_order (suc l) ≡ virt_to_index l v * 2 ^ level_order l + v % 2 ^ level_order l
block_split l v =
    let o = 2 ^ level_order l in
    let b = block_number l v in
    let d = div-add-mod' v o in
    let d' = div-add-mod' v (2 ^ level_order (suc l)) in
    let n = next_order l in
    let q = v / 2 ^ level_order (suc l) in
    let e : q * 2 ^ level_order (suc l) ≡ q * 512 * o = ap (λ (y : ℕ). q * y) n ∙ grind arith in
    let e' : v / o * o ≡ q * 512 * o + virt_to_index l v * o =
      ap (λ (y : ℕ). y * o) b ∙ grind arith in
    omega arith

and_parts : (a b c : Bool) → a && b && c ≡ true → (a ≡ true) × (b ≡ true) × (c ≡ true)
and_parts true true c e = (refl, refl, e)
and_parts true false c e = cc
and_parts false b c e = cc

pub and_self : (x : ℕ) → x < 2 ^ 64 → bit_and x x ≡ x
and_self x h = eq_of_bits 64 _ x (and-lt 64 x x h) h λ k lt. omega (arith, bit-and k x x)

pow_level : (l : ℕ) → 2 ^ (suc l * 9) ≡ 2 ^ (l * 9) * 512
pow_level l =
    let e : suc l * 9 ≡ l * 9 + 9 = omega arith in ap (λ (y : ℕ). 2 ^ y) e ∙ pow-add (l * 9) 9

-- The superpage's entry at an index, which is a leaf of the level below.
module _ (t : Attr) (h : Lawful t) (e l j : ℕ) (small : j < 512) (low : l < 4)
    (super : is_superpage t (suc l) e ≡ true) (f : Framed t (suc l) e) where
  abbrev new_entry : ℕ
  new_entry = sub_entry t e (suc l) j

  abbrev cleared : ℕ
  cleared = if suc l == 1 then t.pte_s else 0

  abbrev place : ℕ
  place = j * 2 ^ level_order l

  super_parts :
      (has_bits e t.pte_p ≡ true) × (ltb (suc l) t.leaf_levels ≡ true) × (has_bits e t.pte_s ≡ true)
  unfolding is_superpage
  super_parts = and_parts _ _ _ super

  place-lt : place < 2 ^ 52
  place-lt =
      let p = pow_le (level_order l) 39 (omega arith) in
      let q : place ≤ j * 2 ^ 39 = mul-le-mul_left j p in omega arith

  place_pages : place ≡ j * 2 ^ (l * 9) * 2 ^ 12
  place_pages = ap (λ (y : ℕ). j * y) (pow-add (l * 9) 12) ∙ grind arith

  place_aligned : place % 2 ^ 12 ≡ 0
  place_aligned = ap (λ (y : ℕ). y % 2 ^ 12) place_pages ∙ mul-mod_left (j * 2 ^ (l * 9)) (2 ^ 12)

  place_frame : place / 2 ^ 12 ≡ j * 2 ^ (l * 9)
  place_frame =
      ap (λ (y : ℕ). y / 2 ^ 12) place_pages ∙ mul-div_left (j * 2 ^ (l * 9)) (omega arith)

  sub_entry_lem : new_entry ≡ bit_or (bit_and e (inv cleared)) place
  unfolding sub_entry
  sub_entry_lem =
      let o : 12 + (suc l - 1) * 9 ≡ level_order l = omega arith in
      let w = place-lt in
      let m : place % 2 ^ 64 ≡ place = omega arith in
      ap (λ (y : ℕ). bit_or (bit_and e (inv cleared)) (j * 2 ^ y % 2 ^ 64)) o
      ∙ ap (bit_or (bit_and e (inv cleared))) m

  cleared_in : bit_and cleared t.pte_s ≡ cleared
  cleared_in =
      let w = h.s_low in
      if_intro (λ s. bit_and s t.pte_s ≡ s) (suc l == 1) t.pte_s 0
        (λ _. and_self t.pte_s (omega arith)) (λ _. and_zero_left t.pte_s)

  cleared-lt : cleared < 2 ^ 12
  cleared-lt = if_intro (λ s. s < 2 ^ 12) (suc l == 1) t.pte_s 0 (λ _. h.s_low) (λ _. omega arith)

  pub sub_entry_attr : bit_and new_entry t.mask ≡ bit_and e t.mask
  sub_entry_attr =
      ap (λ y. bit_and y t.mask) sub_entry_lem
      ∙ sub-attr t h e cleared place f.word cleared_in cleared-lt place_aligned place-lt

  sub_entry_word : new_entry < 2 ^ 64
  sub_entry_word =
      rw sub_entry_lem
        (sub_word t h e cleared place f.word cleared_in cleared-lt place_aligned place-lt)

  sub_entry_p : bit_and new_entry t.pte_p ≡ bit_and e t.pte_p
  sub_entry_p =
      sym (mask_p t h new_entry sub_entry_word)
      ∙ ap (λ y. bit_and y t.pte_p) sub_entry_attr
      ∙ mask_p t h e f.word

  sub_entry_frame : frame t new_entry ≡ frame t e + j * 2 ^ (l * 9)
  sub_entry_frame =
      let n = pow_level l in
      let lt : j * 2 ^ (l * 9) < 2 ^ (suc l * 9) = (let z = pow_pos (l * 9) in grind arith) in
      ap (frame t) sub_entry_lem
      ∙ sub-frame t h e cleared place f.word cleared_in cleared-lt place_aligned place-lt
      ∙ ap (λ y. bit_or y (frame t e)) place_frame
      ∙ or_comm _ _
      ∙ or_aligned (suc l * 9) (frame t e) (j * 2 ^ (l * 9)) (f.first super_parts.0) lt

  pub sub_entry-Framed : Framed t l new_entry
  sub_entry-Framed = record {
    word = sub_entry_word;
    first = λ _.
        let n = frame t e in
        let q = n / 2 ^ (suc l * 9) in
        let d = div-add-mod' n (2 ^ (suc l * 9)) in
        let z = f.first super_parts.0 in
        let p : n + j * 2 ^ (l * 9) ≡ (q * 512 + j) * 2 ^ (l * 9) =
          (let m = ap (λ (y : ℕ). q * y) (pow_level l) in grind arith) in
        ap (λ (y : ℕ). y % 2 ^ (l * 9)) (sub_entry_frame ∙ p)
        ∙ mul-mod_left (q * 512 + j) (2 ^ (l * 9));
  }

  -- It sees what the superpage saw.
  pub sub_entry-view :
      (v : ℕ) → virt_to_index l v ≡ j → entry_view t v new_entry l ≡ entry_view t v e (suc l)
  sub_entry-view v i =
      let p : has_bits new_entry t.pte_p ≡ true = ap (λ x. ltb 0 x) sub_entry_p ∙ super_parts.0 in
      let b = block_split l v in
      let b' = ap (λ (y : ℕ). y * 2 ^ level_order l) i in
      let s = place_pages in
      let g : frame t new_entry * 2 ^ 12 ≡ frame t e * 2 ^ 12 + place =
        ap (λ (y : ℕ). y * 2 ^ 12) sub_entry_frame ∙ (omega arith) in
      rw (p, super_parts.0) (ap₂ (λ x y. some (x, y)) (omega arith) sub_entry_attr)

pub sub_entry-leaf :
    (t : Attr) (h : Lawful t) (e l j : ℕ)
    → j < 512
    → l < 4
    → is_superpage t (suc l) e ≡ true
    → Framed t (suc l) e
    → is_leaf t l (sub_entry t e (suc l) j) ≡ true
unfolding is_leaf is_superpage
sub_entry-leaf t h e zero j small low super f = refl
sub_entry-leaf t h e (suc l) j small low super f =
    let (p, l', s) = super_parts t h e (suc l) j small low super f in
    let p' = ap (λ x. ltb 0 x) (sub_entry_p t h e (suc l) j small low super f) ∙ p in
    let s' : has_bits (sub_entry t e (suc (suc l)) j) t.pte_s ≡ true =
      ap (λ y. ltb 0 (bit_and y t.pte_s)) (sub_entry_lem t h e (suc l) j small low super f)
      ∙ ap (λ y. ltb 0 y)
          (sub-s t h e (if suc (suc l) == 1 then t.pte_s else 0) (j * 2 ^ level_order (suc l))
            f.word (cleared_in t h e (suc l) j small low super f)
            (cleared-lt t h e (suc l) j small low super f)
            (place_aligned t h e (suc l) j small low super f)
            (place-lt t h e (suc l) j small low super f) (ground arith))
      ∙ s in
    rw (p', s') (ground arith)
