-- ===== src/PageTable/Cleanup.antt =====
-- Clean-ups leave the entries and the allocator's pages as they are: `cleanup` and `cleanup_table` of
-- include/generic_page_table.hpp, and the loop over entries.
use hedron.Prelude.{
  ℕ, zero, suc, ◌+◌, ◌<◌, ◌≡◌, refl, subst, ◌∙◌, arith, if_intro, false, if◌then◌else◌, ◌==◌, [],
}
use hedron.Word.{has_bits}
use hedron.PageTable.Table.{Attr, Memory, is_leaf, phys}
use hedron.PageTable.Update.{
  Result, ◌>>=◌, flush_tlb_later, free_later, for, each, cleanup, ok, out_of_memory, panicked,
}

-- the same entries and pages
pub record Same (m m' : Memory) : Type 0 where
  pub read : m'.read ≡ m.read
  pub pages : m'.pages ≡ m.pages

pub Same-refl : (m : Memory) → Same m m
Same-refl m = record { read = refl; pages = refl }

Same-trans : (m m' m'' : Memory) → Same m m' → Same m' m'' → Same m m''
Same-trans m m' m'' a b = record { read = b.read ∙ a.read; pages = b.pages ∙ a.pages }

each-Same :
    (body : ℕ → Memory → Memory)
    → ((i : ℕ) (m : Memory) → Same m (body i m))
    → (n i : ℕ) (m : Memory) → Same m (each n i body m)
unfolding each
each-Same body h zero i m = Same-refl m
each-Same body h (suc n) i m =
    Same-trans m (body i m) (each n (suc i) body (body i m)) (h i m)
      (each-Same body h n (suc i) (body i m))

module _ (t : Attr) where
  flush-Same :
      (pte : ℕ) (m : Memory) → Same m (if has_bits pte t.pte_p then flush_tlb_later m else m)
  unfolding flush_tlb_later
  flush-Same pte m =
      if_intro (Same m) (has_bits pte t.pte_p) _ _ (λ e. record { read = refl; pages = refl })
        (λ e. Same-refl m)

  pub cleanup-Same : (l pte : ℕ) (m : Memory) → Same m (cleanup t l pte m)
  unfolding cleanup free_later
  cleanup-Same zero pte m = flush-Same pte m
  cleanup-Same (suc l) pte m =
      if_intro (Same m) (is_leaf t (suc l) pte) _ _ (λ e. flush-Same pte m)
        λ e.
          let table = phys t pte in
          let s =
            each-Same (λ i m'. cleanup t l (m'.read table i) m')
              (λ i m'. cleanup-Same l (m'.read table i) m') 512 0 m in
          record { read = s.read; pages = s.pages }

  -- There is nothing to clean up where nothing is mapped.
  pub cleanup_missing :
      (l pte : ℕ) (m : Memory) → has_bits pte t.pte_p ≡ false → cleanup t l pte m ≡ m
  unfolding cleanup is_leaf
  cleanup_missing zero pte m e = rw e refl
  cleanup_missing (suc l) pte m e = let z : (suc l == 0) ≡ false = ground arith in rw (z, e) refl

-- What a loop that may panic leaves; the allocator has no page left if it does.
abbrev pub Outcome : (Memory → Type 0) → Result (Unit {0}) → Type 0
Outcome P (ok x m) = P m
Outcome P (out_of_memory m) = ⊥
Outcome P (panicked m) = m.pages ≡ []

pub weaken-Outcome :
    (P Q : Memory → Type 0) (r : Result (Unit {0}))
    → ((m : Memory) → P m → Q m)
    → Outcome P r
    → Outcome Q r
weaken-Outcome P Q (ok x m) h p = h m p
weaken-Outcome P Q (out_of_memory m) h p = absurd p
weaken-Outcome P Q (panicked m) h p = p

pub bind-Outcome :
    (P Q : Memory → Type 0) (r : Result (Unit {0})) (f : Unit {0} → Memory → Result (Unit {0}))
    → Outcome P r
    → ((x : Unit {0}) (m : Memory) → P m → Outcome Q (f x m))
    → Outcome Q (r >>= f)
bind-Outcome P Q (ok x m) f p h = h x m p
bind-Outcome P Q (out_of_memory m) f p h = absurd p
bind-Outcome P Q (panicked m) f p h = p

-- An invariant of the loop holds at its end.
pub for_lem :
    (P : ℕ → Memory → Type 0) (body : ℕ → Memory → Result (Unit {0})) (last : ℕ)
    → ((i : ℕ) (m : Memory) → i < last → P i m → Outcome (P (suc i)) (body i m))
    → (n i : ℕ) (m : Memory) → i + n ≡ last
    → P i m
    → Outcome (P last) (for tt n i body m)
unfolding for
for_lem P body last h zero i m e p = subst (λ k. P k m) (omega arith) p
for_lem P body last h (suc n) i m e p =
    bind-Outcome (P (suc i)) (P last) (body i m) (λ x m'. for tt n (suc i) body m')
      (h i m (omega arith) p) (λ x m' p'. for_lem P body last h n (suc i) m' (omega arith) p')
