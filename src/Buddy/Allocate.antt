-- ===== src/Buddy/Allocate.antt =====
-- What an allocation does to the pages that the lists cover.
use hedron.Prelude.{
  ℕ, zero, suc, ◌+◌, ◌-◌, ◌^◌, ◌<◌, ◌≤◌, ◌≡◌, ◌≢◌, ◌↔◌, ◌⊎◌, ◌∙◌, inl, inr, refl, ap, sym, subst,
  none, some, List, [], ◌∷◌, true, false, Bool-cases, List-cases, Option, arith,
}
use native.Mathlib.Decide.{ℕ_discrete}
use hedron.Links.{update}
use hedron.Buddy.{
  Buddy, Alloc, try_alloc, search_list, split, halve, taken, index_to_page, is_aligned, checked,
}
use hedron.Buddy.Alloc.{allocated, out_of_memory, panicked}
use hedron.Buddy.Count.{total, total-taken, total-split}
use hedron.Buddy.Coverage.{InBlock, Covers, taken-Covers, split-Covers, pow_le}

search_nil :
    (h : ℕ → List ℕ) (j d : ℕ) → h j ≡ [] → search_list h j (suc d) ≡ search_list h (suc j) d
unfolding search_list
search_nil h j d e = rw (search_list, e)

search_cons :
    (h : ℕ → List ℕ) (j d b : ℕ) (bs : List ℕ)
    → h j ≡ b ∷ bs
    → search_list h j (suc d) ≡ some (j, b, bs)
unfolding search_list
search_cons h j d b bs e = rw (search_list, e)

-- What the search for a list finds: the first that has a block, or that none has one.
Found : (ℕ → List ℕ) → ℕ → ℕ → Option (ℕ × ℕ × List ℕ) → Type 0
Found h j d none = (k : ℕ) → j ≤ k → k < j + d → h k ≡ []
Found h j d (some (i, b, bs)) =
    (j ≤ i) × (i < j + d) × (h i ≡ b ∷ bs) × ((k : ℕ) → j ≤ k → k < i → h k ≡ [])

Found-suc :
    (h : ℕ → List ℕ) (j d : ℕ) (r : Option (ℕ × ℕ × List ℕ))
    → h j ≡ []
    → Found h (suc j) d r
    → Found h j (suc d) r
unfolding Found
Found-suc h j d none e f =
    λ k l u. elim (ℕ_discrete k j) [ yes q ↦ ap h q ∙ e | no n ↦ f k (omega arith) (omega arith) ]
Found-suc h j d (some (i, b, bs)) e f = (
  omega arith,
  omega arith,
  f.2,
  λ k l u. elim (ℕ_discrete k j) [ yes q ↦ ap h q ∙ e | no n ↦ f.3 k (omega arith) u ],
)

search_list-Found : (h : ℕ → List ℕ) (j d : ℕ) → Found h j d (search_list h j d)
unfolding Found search_list
search_list-Found h j zero = λ k l u. absurd (omega arith)
search_list-Found h j (suc d) = elim (List-cases (h j)) [
  | inl e ↦
      subst (Found h j (suc d)) (sym (search_nil h j d e))
        (Found-suc h j d _ e (search_list-Found h (suc j) d))
  | inr (b, bs, e) ↦
      subst (Found h j (suc d)) (sym (search_cons h j d b bs e))
        (omega arith, omega arith, e, λ k l u. absurd (omega arith))
]

-- Between lists `h` and `h'` of orders below `m`, exactly the pages of one block are gone.
abbrev pub Without : (ℕ → List ℕ) → (ℕ → List ℕ) → ℕ → ℕ → ℕ → Type 0
Without h h' m b o =
    ((x : ℕ) → Covers h m x ↔ (InBlock b o x ⊎ Covers h' m x)) × (total h m ≡ total h' m + 2 ^ o)

-- What an allocation of order `o` does: it yields the address of a block that is gone from the lists; or
-- no list of a sufficient order has a block; or the block found has no valid address.
unfoldable pub Allocation : Buddy → ℕ → Alloc → Type 0
Allocation s o (allocated v s') =
    (b : ℕ) × (v ≡ index_to_page s b) × Without s.head s'.head s.order b o
Allocation s o out_of_memory = (k : ℕ) → o ≤ k → k < s.order → s.head k ≡ []
Allocation s o panicked =
    (b : ℕ) × ((x : ℕ) → InBlock b o x → Covers s.head s.order x)
    × ((is_aligned s (index_to_page s b) o ≡ false) ⊎ (index_to_page s b ≡ 0))

-- The halving moves no address.
split-page :
    (n : ℕ) (s : Buddy) (b o i : ℕ)
    → (index_to_page (split n s b o) i ≡ index_to_page s i)
      × (is_aligned (split n s b o) (index_to_page s i) o ≡ is_aligned s (index_to_page s i) o)
unfolding split halve index_to_page is_aligned hedron.Buddy.virt_to_phys
split-page zero s b o i = (refl, refl)
split-page (suc n) s b o i = split-page n (halve s b (o + n)) b o i

module _ (b o : ℕ) (s : Buddy) where
  checked_zero : index_to_page s b ≡ 0 → checked b o s ≡ panicked
  unfolding checked
  checked_zero z = elim (Bool-cases (is_aligned s (index_to_page s b) o)) [
    | inl y ↦ rw (y, z)
    | inr n ↦ rw n
  ]

  checked_bad : is_aligned s (index_to_page s b) o ≡ false → checked b o s ≡ panicked
  unfolding checked
  checked_bad n = rw n

  checked_good :
      is_aligned s (index_to_page s b) o ≡ true
      → index_to_page s b ≢ 0
      → checked b o s ≡ allocated (index_to_page s b) s
  unfolding checked
  checked_good y z = rw y (ground arith)

checked-Allocation :
    (s s' : Buddy) (b o : ℕ)
    → index_to_page s' b ≡ index_to_page s b
    → is_aligned s' (index_to_page s b) o ≡ is_aligned s (index_to_page s b) o
    → Without s.head s'.head s.order b o
    → Allocation s o (checked b o s')
unfolding Allocation
checked-Allocation s s' b o p a c = elim (Bool-cases (is_aligned s (index_to_page s b) o)) [
  | inl y ↦ elim (ℕ_discrete (index_to_page s b) 0) [
    | yes z ↦
        subst (Allocation s o) (sym (checked_zero b o s' (p ∙ z)))
          (b, (λ x y. (c.0 x).1 (inl y)), inr z)
    | no z ↦
        subst (Allocation s o)
          (sym (checked_good b o s' (ap (λ v. is_aligned s' v o) p ∙ a ∙ y) (λ e. z (sym p ∙ e))))
          (b, p, c)
  ]
  | inr n ↦
      subst (Allocation s o) (sym (checked_bad b o s' (ap (λ v. is_aligned s' v o) p ∙ a ∙ n)))
        (b, (λ x y. (c.0 x).1 (inl y)), inl n)
]

rest_arith :
    (b p q r x : ℕ)
    → p ≤ r
    → r ≡ q
    → ((b ≤ x) × (x < b + q)) ↔ (((b ≤ x) × (x < b + p)) ⊎ ((b + p ≤ x) × (x < b + r)))
rest_arith b p q r x h e = ground arith

-- A block of order `j` without its first 2 ^ `o` pages
rest_of_block :
    (b o j x : ℕ)
    → o ≤ j
    → InBlock b j x ↔ (InBlock b o x ⊎ ((b + 2 ^ o ≤ x) × (x < b + 2 ^ (o + (j - o)))))
rest_of_block b o j x h =
    let e : o + (j - o) ≡ j = omega arith in
    rest_arith b (2 ^ o) (2 ^ j) (2 ^ (o + (j - o))) x (pow_le o (j - o)) (ap (λ (t : ℕ). 2 ^ t) e)

taken-below :
    (h : ℕ → List ℕ) (j : ℕ) (bs : List ℕ) (k : ℕ) → k < j → h k ≡ [] → update h j bs k ≡ []
taken-below h j bs k lt e = ground arith

split_taken :
    (s : Buddy) (o j b : ℕ) (bs : List ℕ)
    → o ≤ j
    → j < s.order
    → s.head j ≡ b ∷ bs
    → ((k : ℕ) → o ≤ k → k < j → s.head k ≡ [])
    → (x : ℕ)
    → Covers s.head s.order x
      ↔ (InBlock b o x ⊎ Covers (split (j - o) (taken s j b bs o) b o).head s.order x)
unfolding taken
split_taken s o j b bs le lt e f x =
    let t = taken-Covers s.head s.order j b bs x lt e in
    let sp = split-Covers (j - o) (taken s j b bs o) b o s.order x (omega arith) (λ k u.
      taken-below s.head j bs (o + k) (omega arith) (f (o + k) (omega arith) (omega arith))) in
    let r = rest_of_block b o j x le in
    (
      λ c. elim (t.0 c) [
        | inl y ↦ elim (r.0 y) [ inl z ↦ inl z | inr z ↦ inr (sp.1 (inl z)) ]
        | inr d ↦ inr (sp.1 (inr d))
      ],
      λ c. elim c [
        | inl y ↦ t.1 (inl (r.1 (inl y)))
        | inr d ↦ elim (sp.0 d) [ inl z ↦ t.1 (inl (r.1 (inr z))) | inr d' ↦ t.1 (inr d') ]
      ],
    )

split_count :
    (s : Buddy) (o j b : ℕ) (bs : List ℕ)
    → o ≤ j
    → j < s.order
    → s.head j ≡ b ∷ bs
    → ((k : ℕ) → o ≤ k → k < j → s.head k ≡ [])
    → total s.head s.order ≡ total (split (j - o) (taken s j b bs o) b o).head s.order + 2 ^ o
unfolding taken
split_count s o j b bs le lt e f =
    let sp = total-split (j - o) (taken s j b bs o) b o s.order (omega arith) (λ k u.
      taken-below s.head j bs (o + k) (omega arith) (f (o + k) (omega arith) (omega arith))) in
    let q : o + (j - o) ≡ j = omega arith in
    omega (arith, sp, total-taken s j b bs o lt e, ap (λ (t : ℕ). 2 ^ t) q)

try_alloc-none :
    (s : Buddy) (o : ℕ) → search_list s.head o (s.order - o) ≡ none → try_alloc s o ≡ out_of_memory
unfolding try_alloc
try_alloc-none s o e = rw (try_alloc, e)

try_alloc-some :
    (s : Buddy) (o j b : ℕ) (bs : List ℕ)
    → search_list s.head o (s.order - o) ≡ some (j, b, bs)
    → try_alloc s o ≡ checked b o (split (j - o) (taken s j b bs o) b o)
unfolding try_alloc
try_alloc-some s o j b bs e = rw (try_alloc, e)

taken-page :
    (s : Buddy) (j b : ℕ) (bs : List ℕ) (o : ℕ)
    → (index_to_page (taken s j b bs o) b ≡ index_to_page s b)
      × (is_aligned (taken s j b bs o) (index_to_page s b) o ≡ is_aligned s (index_to_page s b) o)
unfolding taken index_to_page is_aligned hedron.Buddy.virt_to_phys
taken-page s j b bs o = (refl, refl)

Found-Allocation :
    (s : Buddy) (o : ℕ) (r : Option (ℕ × ℕ × List ℕ))
    → o ≤ s.order
    → search_list s.head o (s.order - o) ≡ r
    → Found s.head o (s.order - o) r
    → Allocation s o (try_alloc s o)
unfolding Found Allocation
Found-Allocation s o none le e f =
    subst (Allocation s o) (sym (try_alloc-none s o e)) (λ k l u. f k l (omega arith))
Found-Allocation s o (some (j, b, bs)) le e f =
    let t = taken-page s j b bs o in
    let p = split-page (j - o) (taken s j b bs o) b o b in
    subst (Allocation s o) (sym (try_alloc-some s o j b bs e)) (
      checked-Allocation s (split (j - o) (taken s j b bs o) b o) b o (p.0 ∙ t.0)
        (ap (λ v. is_aligned (split (j - o) (taken s j b bs o) b o) v o) (sym t.0)
          ∙ p.1
          ∙ ap (λ v. is_aligned (taken s j b bs o) v o) t.0
          ∙ t.1)
        (
          split_taken s o j b bs f.0 (omega arith) f.2 f.3,
          split_count s o j b bs f.0 (omega arith) f.2 f.3,
        ))

-- Allocating a block of an order up to that of the pool. With a result, exactly the pages of the block at that
-- address are gone from the free lists: what they covered is what the block and the new lists cover, and the
-- number of their pages is less by the block's. It is out of memory only when no list of a sufficient
-- order has a block, and panics only at free pages whose address is zero or not aligned.
pub try_alloc-Allocation : (s : Buddy) (o : ℕ) → o ≤ s.order → Allocation s o (try_alloc s o)
try_alloc-Allocation s o le =
    Found-Allocation s o _ le refl (search_list-Found s.head o (s.order - o))
