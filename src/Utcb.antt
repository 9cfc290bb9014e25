-- ===== src/Utcb.antt =====
-- The user thread control block: include/utcb.hpp and include/mtd.hpp. It is a page of words; the
-- named fields of `Utcb_data` are words, or parts of words, of the data area that messages use too.
pub mod Layout
pub mod Exception
use hedron.Prelude.{
  ℕ, zero, suc, ◌+◌, ◌-◌, ◌*◌, ◌/◌, ◌%◌, ◌^◌, min, bit_and, bit_or, Bool, ◌&&◌, List, [], ◌∷◌,
  if◌then◌else◌, ◌==◌, ltb,
}
use hedron.Word.{shr}
use hedron.Crd.{Crd}

pub record Utcb : Type 0 where
  pub items : ℕ
  pub xlt : Crd
  pub del : Crd
  pub tls : ℕ
  -- `mr(i)`
  pub word : ℕ → ℕ

-- (PAGE_SIZE - sizeof(Utcb_head)) / sizeof(mword)
abbrev pub words : ℕ
words = (4096 - 32) / 8

unfoldable pub ucnt : Utcb → ℕ
ucnt u = u.items % 2 ^ 16

unfoldable pub tcnt : Utcb → ℕ
tcnt u = shr u.items 16 % 2 ^ 16

unfoldable pub ui : Utcb → ℕ
unfolding ucnt
ui u = min words (ucnt u)

unfoldable pub ti : Utcb → ℕ
unfolding tcnt
ti u = min (words / 2) (tcnt u)

-- The loop of `save`, with the words from `i` on, `n` of them.
copy_words : ℕ → ℕ → (ℕ → ℕ) → (ℕ → ℕ) → ℕ → ℕ
copy_words zero i src dst = dst
copy_words (suc n) i src dst = copy_words n (i + 1) src (λ k. if k == i then src i else dst k)

-- `src->save(dst)`
unfoldable pub save : Utcb → Utcb → Utcb
unfolding copy_words ui
save src dst = record dst { items = src.items; word = copy_words (ui src) 0 src.word dst.word }

-- The assignments that `if (b)` guards, to distinct words.
abbrev pub assign : Bool → List (ℕ × ℕ) → (ℕ → ℕ) → ℕ → ℕ
assign b [] f k = f k
assign b ((i, v) ∷ ws) f k = if (k == i) && b then v else assign b ws f k

-- Two 32-bit fields share a word.
abbrev pub lower : ℕ → ℕ
lower w = w % 2 ^ 32

abbrev pub upper : ℕ → ℕ
upper w = w / 2 ^ 32

abbrev pub pair : ℕ → ℕ → ℕ
pair lo hi = lo + hi * 2 ^ 32

-- A segment register of two words: selector, access rights and limit in the first, the base in the other.
pub record UtcbSegment : Type 0 where
  pub sel : ℕ
  pub ar : ℕ
  pub limit : ℕ
  pub base : ℕ

-- `set_vmx`
unfoldable pub set_vmx : ℕ → ℕ → ℕ → ℕ → UtcbSegment
set_vmx s b l a = record {
  sel = s % 2 ^ 16;
  ar = bit_or (bit_and (shr a 4) 0x1f00) (bit_and a 0xff) % 2 ^ 16;
  limit = l % 2 ^ 32;
  base = b;
}

unfoldable pub segment_word : UtcbSegment → ℕ
segment_word g = g.sel + g.ar * 2 ^ 16 + g.limit * 2 ^ 32

-- the segment at word `i`
unfoldable pub segment : (ℕ → ℕ) → ℕ → UtcbSegment
segment f i = record {
  sel = f i % 2 ^ 16;
  ar = f i / 2 ^ 16 % 2 ^ 16;
  limit = f i / 2 ^ 32;
  base = f (i + 1);
}
