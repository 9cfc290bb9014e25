-- ===== src/Crd.antt =====
-- Capability range descriptors and typed IPC items: include/crd.hpp.
pub mod Fields
use hedron.Prelude.{
  ℕ, zero, suc, ◌+◌, ◌-◌, ◌*◌, ◌/◌, ◌%◌, ◌^◌, Bool, bit_and, bit_or, bit_xor, if◌then◌else◌, ◌==◌,
}
use hedron.Word.{shl, shr, has_bits}

-- A `Crd` is one word: base 63..12, order 11..7, attributes 6..2, type 1..0.
pub record Crd : Type 0 where
  pub value : ℕ

-- `enum Type`. The field has two bits, and the enumeration no name for 0.
pub data CrdType : Type 0 where
  null mem pio obj : CrdType

unfoldable pub type_code : CrdType → ℕ
type_code null = 0
type_code mem = 1
type_code pio = 2
type_code obj = 3

pub type_of_code : ℕ → CrdType
type_of_code zero = null
type_of_code (suc zero) = mem
type_of_code (suc (suc zero)) = pio
type_of_code (suc (suc (suc _))) = obj

-- `Crd(Type t, mword b, mword o, mword a)`
unfoldable pub make : CrdType → ℕ → ℕ → ℕ → Crd
unfolding type_code
make t b o a = record {
  value = bit_or (bit_or (bit_or (shl b 12) (shl o 7)) (shl a 2)) (type_code t);
}

unfoldable pub type : Crd → CrdType
unfolding type_of_code
type c = type_of_code (bit_and c.value 0x3)

unfoldable pub attr : Crd → ℕ
attr c = bit_and (shr c.value 2) 0x1f

unfoldable pub order : Crd → ℕ
order c = bit_and (shr c.value 7) 0x1f

unfoldable pub base : Crd → ℕ
base c = shr c.value 12

-- A typed item: a descriptor and its metadata word.
pub record Xfer : Type 0 where
  pub crd : Crd
  pub metadata : ℕ

-- `enum class Kind`
pub data Kind : Type 0 where
  translate delegate trans_delegate invalid : Kind

kind_of_code : ℕ → Kind
kind_of_code zero = translate
kind_of_code (suc zero) = delegate
kind_of_code (suc (suc zero)) = trans_delegate
kind_of_code (suc (suc (suc _))) = invalid

unfoldable pub kind : Xfer → Kind
unfolding kind_of_code
kind x = kind_of_code (bit_and x.metadata 0x3)

unfoldable pub flags : Xfer → ℕ
flags x = bit_and x.metadata 0xfff

unfoldable pub hotspot : Xfer → ℕ
hotspot x = shr x.metadata 12

-- The lowest bit is the host subspace, which is inverted.
unfoldable pub subspaces : Xfer → ℕ
subspaces x = bit_xor (bit_and (shr x.metadata 8) 0x7) 1

unfoldable pub from_kern : Xfer → Bool
unfolding flags
from_kern x = has_bits (flags x) 0x800
