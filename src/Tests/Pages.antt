-- ===== src/Tests/Pages.antt =====
-- The allocator, memory types and timeouts at concrete states.
use hedron.Prelude.{
  ℕ, ◌+◌, ◌-◌, ◌/◌, ◌^◌, ◌≤◌, ◌≡◌, ◌⊎◌, min, true, false, [], ◌∷◌, All, arith, if◌then◌else◌, ◌==◌,
}
use hedron.Buddy.{Buddy, try_alloc}
use hedron.Buddy.Allocate.{Allocation, try_alloc-Allocation}
use hedron.MemoryType.{MtrrState, matches, memtype}
use hedron.MemoryType.Variable.{type_of, One, memtype-Least}
use hedron.Timer.{calc_timeout, max_uint32}
use hedron.Timer.Timeout.{calc_timeout_lem}

-- A pool with one free block of eight pages
abbrev pool : Buddy
pool = record {
  max_idx = 2 ^ 63 + 8;
  min_idx = 2 ^ 63;
  base = 0x10_0000;
  order = 4;
  phys_offset = 0;
  head = λ j. if j == 3 then 2 ^ 63 ∷ [] else [];
  ord = λ i. 3;
  free = λ i. true;
}

try_alloc-Allocation_example : Allocation pool 1 (try_alloc pool 1)
try_alloc-Allocation_example = try_alloc-Allocation pool 1 (omega arith)

-- Write-back from 0x4000_0000 for 1 GiB, uncached elsewhere
abbrev ranges : MtrrState
ranges = record {
  var_mtrr = record { base = 0x4000_0006; mask = 0xf_c000_0800 } ∷ [];
  default_type = 0;
}

abbrev no_msr : ℕ → ℕ
no_msr i = 0

memtype-Least_example :
    let r = (memtype no_msr ranges 0x4123_4000).0 in
    (All (λ m. matches 0x4123_4000 m ≡ false) ranges.var_mtrr × (r ≡ ranges.default_type))
    ⊎ (All (λ m. (matches 0x4123_4000 m ≡ false) ⊎ (r ≤ type_of m)) ranges.var_mtrr
        × One (λ m. (matches 0x4123_4000 m ≡ true) × (r ≡ type_of m)) ranges.var_mtrr)
memtype-Least_example = memtype-Least no_msr ranges 0x4123_4000 (omega arith)

calc_timeout_lem_example : calc_timeout 1001 5 ≡ min ((1001 + (2 ^ 5 - 1)) / 2 ^ 5) max_uint32
calc_timeout_lem_example = calc_timeout_lem 1001 5 (omega arith) (omega arith)
