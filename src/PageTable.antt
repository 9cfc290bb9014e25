-- ===== src/PageTable.antt =====
-- Page tables: include/generic_page_table.hpp, for 64-bit entries and 9 bits per level, as the kernel's two
-- kinds of page tables have them. A table is named by its physical address, which the allocator's conversions
-- go to and from, and an entry is read at a table and an index. Accesses of different CPUs are not interleaved,
-- so that `cmp_swap` succeeds; `assert_slow` is left out.
pub mod Table
pub mod Update
pub mod Words
pub mod View
pub mod Shape
pub mod SubEntry
pub mod Install
pub mod Writes
pub mod Split
pub mod Step
pub mod Walk
pub mod Cleanup
pub mod Leaf
pub mod Entry
pub mod Fill
pub mod Round
pub mod Rounds
pub mod Updated
pub mod Supply
pub mod Translation
pub mod Hpt
pub mod Ept
pub mod Rights
pub mod Delegate
