-- ===== src/Buddy/Count.antt =====
-- The number of pages that the lists of the allocator hold.
use hedron.Prelude.{ℕ, zero, suc, ◌+◌, ◌^◌, ◌<◌, ◌≤◌, ◌≡◌, ◌∙◌, refl, ap, List, [], ◌∷◌, arith}
use native.Mathlib.Decide.{ℕ_discrete}
use hedron.Links.{update}
use hedron.Buddy.{Buddy, split, halve, taken}
use hedron.Buddy.Coverage.{twice, plus_zero, halve-below}

-- Of the blocks of one order, and of the lists of all orders below `m`.
pub weight : List ℕ → ℕ → ℕ
weight [] j = 0
weight (b ∷ bs) j = 2 ^ j + weight bs j

unfoldable pub total : (ℕ → List ℕ) → ℕ → ℕ
unfolding weight
total h zero = 0
total h (suc m) = total h m + weight (h m) m

total-above :
    (h : ℕ → List ℕ) (j : ℕ) (ys : List ℕ) (m : ℕ) → m ≤ j → total (update h j ys) m ≡ total h m
unfolding total
total-above h j ys zero l = refl
total-above h j ys (suc m) l =
    let e : update h j ys m ≡ h m = ground arith in
    omega (arith, total-above h j ys m (omega arith), ap (λ (zs : List ℕ). weight zs m) e)

total-update :
    (h : ℕ → List ℕ) (j : ℕ) (ys : List ℕ) (m : ℕ)
    → j < m
    → total (update h j ys) m + weight (h j) j ≡ total h m + weight ys j
unfolding total
total-update h j ys zero l = absurd (omega arith)
total-update h j ys (suc m) l = elim (ℕ_discrete m j) [
  | yes q ↦
      let e : weight (update h j ys m) m ≡ weight ys j =
        ap (λ (k : ℕ). weight (update h j ys k) k) q ∙ ground arith in
      let f : weight (h m) m ≡ weight (h j) j = ap (λ (k : ℕ). weight (h k) k) q in
      omega (arith, total-above h j ys m (omega arith), e, f)
  | no n ↦
      let e : update h j ys m ≡ h m = ground arith in
      omega (arith, total-update h j ys m (omega arith), ap (λ (zs : List ℕ). weight zs m) e)
]

-- A block leaves its list, and what is not needed of it comes back.
pub total-taken :
    (s : Buddy) (j b : ℕ) (bs : List ℕ) (o : ℕ)
    → j < s.order
    → s.head j ≡ b ∷ bs
    → total (taken s j b bs o).head s.order + 2 ^ j ≡ total s.head s.order
unfolding taken weight
total-taken s j b bs o l e =
    omega (arith, total-update s.head j bs s.order l, ap (λ (ys : List ℕ). weight ys j) e)

total-halve :
    (s : Buddy) (b j m : ℕ)
    → j < m
    → s.head j ≡ []
    → total (halve s b j).head m ≡ total s.head m + 2 ^ j
unfolding halve weight
total-halve s b j m l e =
    omega (arith, total-update s.head j ((b + 2 ^ j) ∷ []) m l, ap (λ (ys : List ℕ). weight ys j) e)

pub total-split :
    (n : ℕ) (s : Buddy) (b o m : ℕ)
    → o + n ≤ m
    → ((k : ℕ) → k < n → s.head (o + k) ≡ [])
    → total (split n s b o).head m + 2 ^ o ≡ total s.head m + 2 ^ (o + n)
unfolding split
total-split zero s b o m l e = omega (arith, ap (λ (t : ℕ). 2 ^ t) (plus_zero o))
total-split (suc n) s b o m l e =
    let below : (k : ℕ) → k < n → (halve s b (o + n)).head (o + k) ≡ [] =
      λ k u. halve-below s b o n k u (e k (omega arith)) in
    omega (
      arith,
      twice o n,
      total-split n (halve s b (o + n)) b o m (omega arith) below,
      total-halve s b (o + n) m (omega arith) (e n (omega arith)),
    )
