-- ===== src/Buddy.antt =====
-- The allocator of pages: src/buddy.cpp and include/buddy.hpp. An index of the code is signed; it
-- stands as the number that is 2 ^ 63 more. A list of blocks, which the code chains through its
-- head, is the list of their indices.
pub mod Coverage
pub mod Count
pub mod Allocate
use hedron.Prelude.{
  ℕ, zero, suc, ◌+◌, ◌-◌, ◌*◌, ◌/◌, ◌%◌, ◌^◌, min, bit_xor, Bool, true, false, ◌&&◌, ◌||◌, not,
  Option, none, some, List, [], ◌∷◌, if◌then◌else◌, ◌==◌, ltb, leb,
}
use hedron.Word.{word_mod, add64}
use hedron.Links.{update}

pub record Buddy : Type 0 where
  pub max_idx : ℕ
  pub min_idx : ℕ
  pub base : ℕ
  pub order : ℕ
  -- the distance of physical from virtual addresses
  pub phys_offset : ℕ
  -- the blocks of each order, and of each block the order and whether its tag is `Free`
  pub head : ℕ → List ℕ
  pub ord : ℕ → ℕ
  pub free : ℕ → Bool

unfoldable pub index_to_page : Buddy → ℕ → ℕ
index_to_page s i = (s.base + i * 4096) % word_mod

unfoldable page_to_index : Buddy → ℕ → ℕ
page_to_index s v = v / 4096 + 2 ^ 63 - s.base / 4096

unfoldable pub virt_to_phys : Buddy → ℕ → ℕ
virt_to_phys s v = add64 v s.phys_offset

-- The assertion on the physical block
unfoldable pub is_aligned : Buddy → ℕ → ℕ → Bool
unfolding virt_to_phys
is_aligned s v o = virt_to_phys s v % 2 ^ (o + 12) == 0

-- A result, an error, or a failed assertion
pub data Alloc : Type 0 where
  allocated : ℕ → Buddy → Alloc
  out_of_memory panicked : Alloc

-- The first list, of `d` from `j` on, that has a block; the block; and the rest of that list
unfoldable pub search_list : (ℕ → List ℕ) → ℕ → ℕ → Option (ℕ × ℕ × List ℕ)
search_list h j zero = none
search_list h j (suc d) = elim (h j) [ [] ↦ search_list h (suc j) d | b ∷ bs ↦ some (j, b, bs) ]

-- The upper half of a block of the order after `j` becomes a free block of order `j`.
unfoldable pub halve : Buddy → ℕ → ℕ → Buddy
halve s b j = record s {
  head = update s.head j ((b + 2 ^ j) ∷ []);
  ord = update s.ord (b + 2 ^ j) j;
  free = update s.free (b + 2 ^ j) true;
}

-- while (j-- != ord), from `j` that is `n` more than `ord`
unfoldable pub split : ℕ → Buddy → ℕ → ℕ → Buddy
unfolding halve
split zero s b o = s
split (suc n) s b o = split n (halve s b (o + n)) b o

-- The first block of a list leaves it, in use with order `o`.
unfoldable pub taken : Buddy → ℕ → ℕ → List ℕ → ℕ → Buddy
taken s j b bs o = record s {
  head = update s.head j bs;
  ord = update s.ord b o;
  free = update s.free b false;
}

checked : ℕ → ℕ → Buddy → Alloc
unfolding index_to_page is_aligned
checked b o s =
    let v = index_to_page s b in
    if is_aligned s v o && not (v == 0) then allocated v s else panicked

-- `Buddy::try_alloc(ord)`, but for the memory's contents
unfoldable pub try_alloc : Buddy → ℕ → Alloc
unfolding search_list split taken checked
try_alloc s o = elim (search_list s.head o (s.order - o)) [
  | none ↦ out_of_memory
  | some (j, b, bs) ↦ checked b o (split (j - o) (taken s j b bs o) b o)
]

remove : ℕ → List ℕ → List ℕ
remove a [] = []
remove a (x ∷ xs) = if x == a then xs else x ∷ remove a xs

-- The buddy is in the pool, free, and not fragmented.
unfoldable mergeable : Buddy → ℕ → ℕ → Bool
mergeable s y o = leb s.min_idx y && ltb y s.max_idx && (s.free y && s.ord y == o)

-- The loop of `free`, of at most `n` rounds, and the block with its order at the end
unfoldable merge : ℕ → Buddy → ℕ → ℕ → Buddy × ℕ × ℕ
unfolding mergeable remove
merge zero s b o = (s, b, o)
merge (suc n) s b o =
    let y = bit_xor b (2 ^ o) in
    let rest =
      merge n (record s { head = update s.head o (remove y (s.head o)) }) (min b y) (suc o) in
    if mergeable s y o then rest else (s, b, o)

-- `Buddy::free(virt)`; `none` is a failed assertion
unfoldable pub free : Buddy → ℕ → Option Buddy
unfolding page_to_index is_aligned merge
free s v =
    let i = page_to_index s v in
    if leb s.min_idx i && ltb i s.max_idx && (not (s.free i) && is_aligned s v (s.ord i))
    then (let (s', b, o) = merge (s.order - 1 - s.ord i) s i (s.ord i) in
        some (record s' {
          head = update s'.head o (b ∷ s'.head o);
          ord = update s'.ord b o;
          free = update s'.free b true;
        }))
    else none
