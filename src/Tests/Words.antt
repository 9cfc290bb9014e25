-- ===== src/Tests/Words.antt =====
-- Descriptors, capabilities, ranges and reference counts at concrete words.
use hedron.Prelude.{ℕ, ◌≢◌, ◌↔◌, refl, arith}
use hedron.Word.{ones}
use hedron.Word.Laws.{Within}
use hedron.Capability.{KobjectType}
use hedron.Crd.{Crd, Xfer}
use hedron.Pd.{clamp}
use hedron.Pd.Clamp.{clamp-intersection}

abbrev a_word : Crd
a_word = record { value = 0x12_3456_789b }

abbrev item : Xfer
item = record { crd = record { value = 0 }; metadata = 0x5b01 }

abbrev rights : ℕ
rights = 0x3

abbrev address : ℕ
address = 0x1000

abbrev an_sm : ℕ → KobjectType
an_sm a = KobjectType.sm

clamp-intersection_example :
    let (o, b) = clamp 0x40 0x48 4 3 in
    (Within 0x40 4 0x4a × Within 0x48 3 0x4a) ↔ ((o ≢ ones) × Within b o 0x4a)
clamp-intersection_example =
    clamp-intersection 0x40 0x48 4 3 0x4a refl refl (omega arith) (omega arith)
