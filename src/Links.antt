-- ===== src/Links.antt =====
-- The `prev` and `next` pointers of the kernel objects that are chained into circular lists:
-- execution contexts in a semaphore's queue (include/queue.hpp), scheduling contexts in a run queue
-- (src/sc.cpp). An object is a number, `none` the null pointer.
pub mod Ring
use hedron.Prelude.{ℕ, Bool, Option, none, some, if◌then◌else◌, ◌==◌}

pub record Links : Type 0 where
  pub next : ℕ → Option ℕ
  pub prev : ℕ → Option ℕ

-- One cell of a pointer field is written.
abbrev pub update {ℓ} : {A : Type ℓ} → (ℕ → A) → ℕ → A → ℕ → A
update f i v k = if k == i then v else f k

abbrev pub set_next : Links → ℕ → Option ℕ → Links
set_next h i v = record h { next = update h.next i v }

abbrev pub set_prev : Links → ℕ → Option ℕ → Links
set_prev h i v = record h { prev = update h.prev i v }
