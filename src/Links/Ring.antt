-- ===== src/Links/Ring.antt =====
-- When the pointers hold a circular list, and how linking and unlinking change it.
use hedron.Prelude.{ℕ, Option, none, some, List, [], ◌∷◌, ◌++◌, ◌≡◌, ◌≢◌, All, sym, subst₂, ◌∙◌}
use hedron.Links.{Links}

-- `a` occurs nowhere in a list; no object occurs twice.
abbrev pub NotIn : ℕ → List ℕ → Type 0
NotIn a [] = Unit
NotIn a (x ∷ xs) = (a ≢ x) × NotIn a xs

abbrev pub Distinct : List ℕ → Type 0
Distinct [] = Unit
Distinct (x ∷ xs) = NotIn x xs × Distinct xs

-- From `a` through `xs` to `z`, linked in both directions.
abbrev pub Chain : Links → ℕ → List ℕ → ℕ → Type 0
Chain h a [] z = (h.next a ≡ some z) × (h.prev z ≡ some a)
Chain h a (x ∷ xs) z = (h.next a ≡ some x) × (h.prev x ≡ some a) × Chain h x xs z

-- `head` points to the first object of a circular list that holds exactly these.
abbrev pub Holds : Links → Option ℕ → List ℕ → Type 0
Holds h head [] = head ≡ none
Holds h head (x ∷ xs) = (head ≡ some x) × Chain h x xs x × Distinct (x ∷ xs)

abbrev pub last : ℕ → List ℕ → ℕ
last a [] = a
last a (x ∷ xs) = last x xs

pub Chain-last :
    (h : Links) (a : ℕ) (xs : List ℕ) (z : ℕ)
    → Chain h a xs z
    → (h.next (last a xs) ≡ some z) × (h.prev z ≡ some (last a xs))
Chain-last h a [] z c = c
Chain-last h a (x ∷ xs) z c = Chain-last h x xs z c.2

pub Chain-snoc :
    (h : Links) (a : ℕ) (xs : List ℕ) (t z : ℕ)
    → Chain h a xs t
    → h.next t ≡ some z
    → h.prev z ≡ some t
    → Chain h a (xs ++ t ∷ []) z
Chain-snoc h a [] t z c n p = (c.0, c.1, (n, p))
Chain-snoc h a (x ∷ xs) t z c n p = (c.0, c.1, Chain-snoc h x xs t z c.2 n p)

pub NotIn-last : (a x : ℕ) (xs : List ℕ) → a ≢ x → NotIn a xs → a ≢ last x xs
NotIn-last a x [] ne n = ne
NotIn-last a x (y ∷ ys) ne n = NotIn-last a y ys n.0 n.1

-- Pointers that agree with `h` but for the last link, which leads to `y`, and but for the objects
-- `t` and `z` outside the chain.
module _ (h h' : Links) (t y z : ℕ)
    (back : (k : ℕ) → k ≢ t → k ≢ y → k ≢ z → h'.prev k ≡ h.prev k) where
  pub Chain-retarget :
      (a : ℕ) (xs : List ℕ)
      → ((k : ℕ) → k ≢ last a xs → k ≢ t → h'.next k ≡ h.next k)
      → Distinct (a ∷ xs)
      → NotIn t (a ∷ xs)
      → NotIn y xs
      → NotIn z xs
      → Chain h a xs z
      → h'.next (last a xs) ≡ some y
      → h'.prev y ≡ some (last a xs)
      → Chain h' a xs y
  Chain-retarget a [] forth d nt ny nz c n p = (n, p)
  Chain-retarget a (x ∷ xs) forth d nt ny nz c n p = (
    forth a (NotIn-last a x xs d.0.0 d.0.1) (λ e. nt.0 (sym e)) ∙ c.0,
    back x (λ e. nt.1.0 (sym e)) (λ e. ny.0 (sym e)) (λ e. nz.0 (sym e)) ∙ c.1,
    Chain-retarget x xs forth d.1 nt.1 ny.1 nz.1 c.2 n p,
  )

-- Pointers that agree on the objects with some property hold the same lists of such objects.
module _ (P : ℕ → Type 0) (h h' : Links)
    (same : (k : ℕ) → P k → (h'.next k ≡ h.next k) × (h'.prev k ≡ h.prev k)) where
  Chain-frame :
      (a : ℕ) (xs : List ℕ) (z : ℕ) → P a → P z → All P xs → Chain h a xs z → Chain h' a xs z
  Chain-frame a [] z pa pz ps c = ((same a pa).0 ∙ c.0, (same z pz).1 ∙ c.1)
  Chain-frame a (x ∷ xs) z pa pz ps c =
      ((same a pa).0 ∙ c.0, (same x ps.0).1 ∙ c.1, Chain-frame x xs z ps.0 pz ps.1 c.2)

  pub Holds-frame : (head : Option ℕ) (xs : List ℕ) → All P xs → Holds h head xs → Holds h' head xs
  Holds-frame head [] ps q = q
  Holds-frame head (x ∷ xs) ps q = (q.0, Chain-frame x xs x ps.0 ps.0 ps.1 q.1, q.2)

NotIn-snoc : (a : ℕ) (xs : List ℕ) (t : ℕ) → NotIn a xs → a ≢ t → NotIn a (xs ++ t ∷ [])
NotIn-snoc a [] t n ne = (ne, tt)
NotIn-snoc a (x ∷ xs) t n ne = (n.0, NotIn-snoc a xs t n.1 ne)

pub Distinct-snoc : (xs : List ℕ) (t : ℕ) → Distinct xs → NotIn t xs → Distinct (xs ++ t ∷ [])
Distinct-snoc [] t d n = (tt, tt)
Distinct-snoc (x ∷ xs) t d n =
    (NotIn-snoc x xs t d.0 (λ e. n.0 (sym e)), Distinct-snoc xs t d.1 n.1)

pub Holds-subst :
    (h : Links) (hd hd' : Option ℕ) (xs xs' : List ℕ)
    → hd' ≡ hd
    → xs' ≡ xs
    → Holds h hd xs
    → Holds h hd' xs'
Holds-subst h hd hd' xs xs' e f v = subst₂ (Holds h) (sym e) (sym f) v
