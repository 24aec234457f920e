-- ===== src/Memory.antt =====
-- Raw bytes as the code reads them through a pointer. Some reads of the code go past the bytes that
-- a caller describes (a `memcpy` of eight bytes from a shorter field), so memory is a total function:
-- what lies past a buffer is some byte, and a theorem says when it has no influence.
pub mod Writes
use simdfix.Base.{◌==◌, if◌then◌else◌, ℕ, zero, suc, ◌+◌, ◌^◌, List, [], ◌∷◌, All, arith}
use simdfix.Bits.Lanes.{IsByte, word}

-- The byte at each offset from a pointer.
abbrev pub Memory : Type 0
Memory = ℕ → ℕ

-- `pointer + offset`
abbrev pub ahead : Memory → ℕ → Memory
ahead m p i = m (p + i)

abbrev pub AllBytes : Memory → Type 0
AllBytes m = (i : ℕ) → IsByte (m i)

-- The first `n` bytes from `i` on.
abbrev pub bytes_from : ℕ → ℕ → Memory → List ℕ
bytes_from zero i m = []
bytes_from (suc n) i m = m i ∷ bytes_from n (i + 1) m

-- `std::memcpy(&word, pointer, sizeof(uint64_t))` on a little-endian machine.
unfoldable pub load64 : Memory → ℕ
load64 m = word (m 0 ∷ m 1 ∷ m 2 ∷ m 3 ∷ m 4 ∷ m 5 ∷ m 6 ∷ m 7 ∷ [])

pub all_lanes : (m : Memory) → AllBytes m → All IsByte (bytes_from 8 0 m)
all_lanes m h = (h 0, (h 1, (h 2, (h 3, (h 4, (h 5, (h 6, (h 7, tt))))))))

abbrev pub u8_mod : ℕ
u8_mod = 2 ^ 8

abbrev pub u16_mod : ℕ
u16_mod = 2 ^ 16

abbrev pub u32_mod : ℕ
u32_mod = 2 ^ 32

abbrev pub u64_mod : ℕ
u64_mod = 2 ^ 64

-- Memory that begins with the given bytes; SOH follows.
abbrev pub memory_of : List ℕ → Memory
memory_of [] i = 0x01
memory_of (b ∷ bs) zero = b
memory_of (b ∷ bs) (suc i) = memory_of bs i

pub memory_of-AllBytes : (bs : List ℕ) → All IsByte bs → AllBytes (memory_of bs)
memory_of-AllBytes [] h i = omega arith
memory_of-AllBytes (b ∷ bs) (hb, h) zero = hb
memory_of-AllBytes (b ∷ bs) (hb, h) (suc i) = memory_of-AllBytes bs h i

-- A store of one byte, and `std::memcpy` of bytes to an offset.
abbrev pub store : ℕ → ℕ → Memory → Memory
store p b m i = if i == p then b else m i

unfoldable pub write : ℕ → List ℕ → Memory → Memory
write p [] m = m
write p (b ∷ bs) m = write (p + 1) bs (store p b m)
