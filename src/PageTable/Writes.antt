-- ===== src/PageTable/Writes.antt =====
-- Writes of entries, one and a run of them, as the loops of include/generic_page_table.hpp do.
use hedron.Prelude.{ℕ, zero, suc, ◌+◌, ◌<◌, ◌≤◌, ◌≡◌, ◌≢◌, ◌⊎◌, inl, inr, refl, sym, ap, ◌∙◌, arith}
use native.Mathlib.Decide.{ℕ_discrete}
use hedron.Links.{update}
use hedron.Sched.Ready.{update_self, update_ne}
use hedron.PageTable.Table.{Memory, write}
use hedron.PageTable.Update.{each}

-- The memory after writing entries `i` to `i + n` of a table.
pub record Written (m m' : Memory) (q i n : ℕ) (f : ℕ → ℕ) : Type 0 where
  pub inside : (j : ℕ) → i ≤ j → j < i + n → m'.read q j ≡ f j
  pub outside : (q' j : ℕ) → (q' ≢ q) ⊎ (j < i) ⊎ (i + n ≤ j) → m'.read q' j ≡ m.read q' j
  pub pages : m'.pages ≡ m.pages

pub write_self : (q i e : ℕ) (m : Memory) → (write q i e m).read q i ≡ e
unfolding write
write_self q i e m =
    ap (λ f. f i) (update_self m.read q (update (m.read q) i e)) ∙ update_self (m.read q) i e

pub write_other :
    (q i e : ℕ) (m : Memory) (q' j : ℕ)
    → (q' ≢ q) ⊎ (j ≢ i)
    → (write q i e m).read q' j ≡ m.read q' j
unfolding write
write_other q i e m q' j (inl n) = ap (λ f. f j) (update_ne m.read q q' _ n)
write_other q i e m q' j (inr n) = elim (ℕ_discrete q' q) [
  | yes x ↦
      ap (λ y. update m.read q (update (m.read q) i e) y j) x
      ∙ ap (λ f. f j) (update_self m.read q (update (m.read q) i e))
      ∙ update_ne (m.read q) i j e n
      ∙ ap (λ y. m.read y j) (sym x)
  | no n' ↦ ap (λ f. f j) (update_ne m.read q q' _ n')
]

pub write_pages : (q i e : ℕ) (m : Memory) → (write q i e m).pages ≡ m.pages
unfolding write
write_pages q i e m = refl

wider :
    (q' q i j n : ℕ)
    → (q' ≢ q) ⊎ (j < i) ⊎ (i + suc n ≤ j)
    → (q' ≢ q) ⊎ (j < suc i) ⊎ (suc i + n ≤ j)
wider q' q i j n (inl x) = inl x
wider q' q i j n (inr (inl x)) = inr (inl (omega arith))
wider q' q i j n (inr (inr x)) = inr (inr (omega arith))

not_at : (q' q i j n : ℕ) → (q' ≢ q) ⊎ (j < i) ⊎ (i + suc n ≤ j) → (q' ≢ q) ⊎ (j ≢ i)
not_at q' q i j n (inl x) = inl x
not_at q' q i j n (inr (inl x)) = inr (omega arith)
not_at q' q i j n (inr (inr x)) = inr (omega arith)

pub each-write :
    (q : ℕ) (f : ℕ → ℕ) (n i : ℕ) (m : Memory)
    → Written m (each n i (λ j. write q j (f j)) m) q i n f
unfolding each
each-write q f zero i m = record {
  inside = λ j a b. absurd (omega arith);
  outside = λ q' j o. refl;
  pages = refl;
}
each-write q f (suc n) i m =
    let w = each-write q f n (suc i) (write q i (f i) m) in
    record {
      inside = λ j a b. elim (ℕ_discrete j i) [
        | yes x ↦
            w.outside q j (inr (inl (omega arith)))
            ∙ ap (λ y. (write q i (f i) m).read q y) x
            ∙ write_self q i (f i) m
            ∙ ap f (sym x)
        | no x ↦ w.inside j (omega arith) (omega arith)
      ];
      outside = λ q' j o.
          w.outside q' j (wider q' q i j n o) ∙ write_other q i (f i) m q' j (not_at q' q i j n o);
      pages = w.pages ∙ write_pages q i (f i) m;
    }
