-- ===== src/Buddy/Coverage.antt =====
-- The pages that the lists of the allocator cover.
use hedron.Prelude.{
  ℕ, zero, suc, ◌+◌, ◌^◌, ◌<◌, ◌≤◌, ◌≡◌, ◌≢◌, ◌↔◌, ◌⊎◌, inl, inr, ap, sym, subst, List, [], ◌∷◌,
  arith,
}
use native.Mathlib.Decide.{ℕ_discrete}
use hedron.Links.{update}
use hedron.Buddy.{Buddy, split, halve}

-- The page `x` is in the block `b` of order `j`, or in one of some blocks of order `j`.
abbrev pub InBlock : ℕ → ℕ → ℕ → Type 0
InBlock b j x = (b ≤ x) × (x < b + 2 ^ j)

abbrev pub InSome : List ℕ → ℕ → ℕ → Type 0
InSome [] j x = ⊥
InSome (b ∷ bs) j x = InBlock b j x ⊎ InSome bs j x

-- It is in a block of one of the lists of an order below `m`.
unfoldable pub Covers : (ℕ → List ℕ) → ℕ → ℕ → Type 0
Covers h m x = (j : ℕ) × (j < m) × InSome (h j) j x

-- It is in a block of another list than that of order `j`.
Elsewhere : (ℕ → List ℕ) → ℕ → ℕ → ℕ → Type 0
Elsewhere h m j x = (i : ℕ) × (i < m) × (i ≢ j) × InSome (h i) i x

-- One list is replaced, and with it what it covers.
module _ (h : ℕ → List ℕ) (m j : ℕ) (bs : List ℕ) (x : ℕ) (lt : j < m) where
  update-out : Covers (update h j bs) m x → InSome bs j x ⊎ Elsewhere h m j x
  unfolding Covers Elsewhere
  update-out (i, l, c) = elim (ℕ_discrete i j) [
    | yes e ↦ inl (subst (λ k. InSome bs k x) e (subst (λ ys. InSome ys i x) (ground arith) c))
    | no n ↦ inr (i, l, n, subst (λ ys. InSome ys i x) (ground arith) c)
  ]

  update-in : InSome bs j x ⊎ Elsewhere h m j x → Covers (update h j bs) m x
  unfolding Covers Elsewhere
  update-in (inl c) = (j, lt, subst (λ ys. InSome ys j x) (ground arith) c)
  update-in (inr (i, l, n, c)) = (i, l, subst (λ ys. InSome ys i x) (ground arith) c)

  Covers-out : Covers h m x → InSome (h j) j x ⊎ Elsewhere h m j x
  unfolding Covers Elsewhere
  Covers-out (i, l, c) = elim (ℕ_discrete i j) [
    | yes e ↦ inl (subst (λ k. InSome (h k) k x) e c)
    | no n ↦ inr (i, l, n, c)
  ]

  Covers-in : InSome (h j) j x ⊎ Elsewhere h m j x → Covers h m x
  unfolding Covers Elsewhere
  Covers-in (inl c) = (j, lt, c)
  Covers-in (inr (i, l, n, c)) = (i, l, c)

-- A block leaves the list of its order, or becomes the only one there.
pub taken-Covers :
    (h : ℕ → List ℕ) (m j b : ℕ) (bs : List ℕ) (x : ℕ)
    → j < m
    → h j ≡ b ∷ bs
    → Covers h m x ↔ (InBlock b j x ⊎ Covers (update h j bs) m x)
taken-Covers h m j b bs x lt e = (
  λ c. elim (Covers-out h m j bs x lt c) [
    | inl d ↦ elim (subst (λ ys. InSome ys j x) e d) [
      | inl y ↦ inl y
      | inr y ↦ inr (update-in h m j bs x lt (inl y))
    ]
    | inr d ↦ inr (update-in h m j bs x lt (inr d))
  ],
  λ c. elim c [
    | inl y ↦ Covers-in h m j bs x lt (inl (subst (λ ys. InSome ys j x) (sym e) (inl y)))
    | inr c' ↦ elim (update-out h m j bs x lt c') [
      | inl y ↦ Covers-in h m j bs x lt (inl (subst (λ ys. InSome ys j x) (sym e) (inr y)))
      | inr d ↦ Covers-in h m j bs x lt (inr d)
    ]
  ],
)

put-Covers :
    (h : ℕ → List ℕ) (m j b x : ℕ)
    → j < m
    → h j ≡ []
    → Covers (update h j (b ∷ [])) m x ↔ (InBlock b j x ⊎ Covers h m x)
put-Covers h m j b x lt e = (
  λ c. elim (update-out h m j (b ∷ []) x lt c) [
    | inl (inl y) ↦ inl y
    | inl (inr y) ↦ absurd y
    | inr d ↦ inr (Covers-in h m j (b ∷ []) x lt (inr d))
  ],
  λ c. elim c [
    | inl y ↦ update-in h m j (b ∷ []) x lt (inl (inl y))
    | inr c' ↦ elim (Covers-out h m j (b ∷ []) x lt c') [
      | inl d ↦ absurd (subst (λ ys. InSome ys j x) e d)
      | inr d ↦ update-in h m j (b ∷ []) x lt (inr d)
    ]
  ],
)

pub plus_zero : (o : ℕ) → o + 0 ≡ o
plus_zero o = omega arith

pub twice : (o n : ℕ) → 2 ^ (o + suc n) ≡ 2 ^ (o + n) + 2 ^ (o + n)
twice o n = let e : o + suc n ≡ suc (o + n) = omega arith in rw e (omega arith)

pub pow_le : (o n : ℕ) → 2 ^ o ≤ 2 ^ (o + n)
pow_le o zero = omega (arith, ap (λ (t : ℕ). 2 ^ t) (plus_zero o))
pow_le o (suc n) = omega (arith, pow_le o n, twice o n)

halves :
    (b p q r x : ℕ)
    → p ≤ q
    → r ≡ q + q
    → ((b + p ≤ x) × (x < b + r)) ↔ (((b + p ≤ x) × (x < b + q)) ⊎ ((b + q ≤ x) × (x < b + q + q)))
halves b p q r x h e = ground arith

pub halve-below :
    (s : Buddy) (b o n k : ℕ) → k < n → s.head (o + k) ≡ [] → (halve s b (o + n)).head (o + k) ≡ []
unfolding halve
halve-below s b o n k lt e = ground arith

-- The blocks that are split off are the pages behind the first 2 ^ `o`, where the lists that they go to
-- are empty.
pub split-Covers :
    (n : ℕ) (s : Buddy) (b o m x : ℕ)
    → o + n ≤ m
    → ((k : ℕ) → k < n → s.head (o + k) ≡ [])
    → Covers (split n s b o).head m x
      ↔ (((b + 2 ^ o ≤ x) × (x < b + 2 ^ (o + n))) ⊎ Covers s.head m x)
unfolding split halve
split-Covers zero s b o m x le e = (
  λ c. inr c,
  λ c. elim c [ inl y ↦ absurd (omega (arith, ap (λ (t : ℕ). 2 ^ t) (plus_zero o))) | inr c' ↦ c' ],
)
split-Covers (suc n) s b o m x le e =
    let below : (k : ℕ) → k < n → (halve s b (o + n)).head (o + k) ≡ [] =
      λ k lt. halve-below s b o n k lt (e k (omega arith)) in
    let ih = split-Covers n (halve s b (o + n)) b o m x (omega arith) below in
    let p = put-Covers s.head m (o + n) (b + 2 ^ (o + n)) x (omega arith) (e n (omega arith)) in
    let hv = halves b (2 ^ o) (2 ^ (o + n)) (2 ^ (o + suc n)) x (pow_le o n) (twice o n) in
    (
      λ c. elim (ih.0 c) [
        | inl y ↦ inl (hv.1 (inl y))
        | inr c' ↦ elim (p.0 c') [ inl y ↦ inl (hv.1 (inr y)) | inr d ↦ inr d ]
      ],
      λ c. elim c [
        | inl y ↦ elim (hv.0 y) [ inl z ↦ ih.1 (inl z) | inr z ↦ ih.1 (inr (p.1 (inl z))) ]
        | inr d ↦ ih.1 (inr (p.1 (inr d)))
      ],
    )
