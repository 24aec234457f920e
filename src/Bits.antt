-- ===== src/Bits.antt =====
-- Laws of the bitwise operations on the native numbers, and of words cut into bytes. The code works
-- on eight bytes at a time in a `uint64_t`; here such a word is the value of a list of bytes.
pub mod Step
pub mod Lanes
pub mod Map
pub mod Count
