-- ===== src/FieldDecoder/Numbers.antt =====
-- The number conversions of `FieldDecoder` on well-formed fields.
use simdfix.Base.{
  ℕ, zero, suc, ◌+◌, ◌-◌, ◌*◌, ◌%◌, ◌^◌, ◌≤◌, ◌<◌, ◌≡◌, refl, sym, subst, ap, ◌∙◌, Bool, true,
  false, ◌||◌, ◌==◌, ltb, leb, if◌then◌else◌, Bool-cases, inl, inr, List, [], ◌∷◌, ◌++◌, All, take,
  length, arith,
}
use native.Mathlib.Nat.{pow-le-pow_right}
use simdfix.Memory.{Memory, ahead, AllBytes, bytes_from, u32_mod, u64_mod}
use simdfix.Conversions.{
  ascii_to_uint64, add_ascii_to_uint64, is_digits, scale64, max_uint32_digits,
}
use simdfix.Conversions.Decimal.{ascii_from, ascii_from-scale, ascii_from-lt, IsAsciiDigit}
use simdfix.Conversions.Digits.{is_digits_iff, IsDigitLike}
use simdfix.Conversions.Parse.{ascii_to_uint64-ascii_from}
use simdfix.Types.{value, unexpected, invalid_value, Field}
use simdfix.FieldDecoder.{FieldDecoder, parse_unsigned_digits, convert_to_uint32}

-- Bytes read in two parts.
pub bytes_from-add :
    (a b i : ℕ) (m : Memory) → bytes_from (a + b) i m ≡ bytes_from a i m ++ bytes_from b (i + a) m
bytes_from-add zero b i m =
    let e : 0 + b ≡ b = omega arith in let e' : i + 0 ≡ i = omega arith in rw (e, e')
bytes_from-add (suc a) b i m =
    let e : suc a + b ≡ suc (a + b) = omega arith in
    let e' : i + suc a ≡ i + 1 + a = omega arith in
    rw (e, e') (ap (λ xs. m i ∷ xs) (bytes_from-add a b (i + 1) m))

pub bytes_from-ahead :
    (n i p : ℕ) (m : Memory) → bytes_from n i (ahead m p) ≡ bytes_from n (p + i) m
bytes_from-ahead zero i p m = refl
bytes_from-ahead (suc n) i p m =
    let e : p + (i + 1) ≡ p + i + 1 = omega arith in
    ap (λ xs. m (p + i) ∷ xs) (bytes_from-ahead n (i + 1) p m ∙ rw e)

pub length-bytes_from : (n i : ℕ) (m : Memory) → length (bytes_from n i m) ≡ n
length-bytes_from zero i m = refl
length-bytes_from (suc n) i m = ap suc (length-bytes_from n (i + 1) m)

pub ascii_from-append :
    (acc : ℕ) (xs ys : List ℕ) → ascii_from acc (xs ++ ys) ≡ ascii_from (ascii_from acc xs) ys
ascii_from-append acc [] ys = refl
ascii_from-append acc (x ∷ xs) ys = ascii_from-append (acc * 10 + (x - b'0')) xs ys

All-append_left :
    (xs ys : List ℕ) → All IsAsciiDigit (xs ++ ys) → All IsAsciiDigit xs × All IsAsciiDigit ys
All-append_left [] ys h = (tt, h)
All-append_left (x ∷ xs) ys (hx, h) = let (a, b) = All-append_left xs ys h in ((hx, a), b)

scaled_zero : (n : ℕ) → scale64 0 n ≡ 0
unfolding scale64
scaled_zero n = ground arith

pub value-lt :
    (n i : ℕ) (m : Memory) (k : ℕ)
    → n ≤ k
    → All IsAsciiDigit (bytes_from n i m)
    → ascii_from 0 (bytes_from n i m) < 10 ^ k
value-lt n i m k h d =
    let e = length-bytes_from n i m in
    let lt = ascii_from-lt (bytes_from n i m) d in
    let up : 10 ^ n ≤ 10 ^ k = pow-le-pow_right {n = 10} (omega arith) h in
    let lt' : ascii_from 0 (bytes_from n i m) < 10 ^ n = rw e at lt in omega arith

scaled_eight : (x : ℕ) → x < 100 → scale64 x 8 ≡ x * 10 ^ 8
unfolding scale64
scaled_eight x h = omega arith

small_sum : (x y : ℕ) → x < 10 ^ 2 → y < 10 ^ 8 → (x * 10 ^ 8 + y) % u64_mod ≡ x * 10 ^ 8 + y
small_sum x y h k = omega arith

-- A field of more than eight digits, read as its head and its last eight.
two_chunks :
    (m : Memory) (a : ℕ)
    → AllBytes m
    → a ≤ 2
    → All IsAsciiDigit (bytes_from (a + 8) 0 m)
    → add_ascii_to_uint64 (ascii_to_uint64 m a false) (ahead m a) 8 true
      ≡ ascii_from 0 (bytes_from (a + 8) 0 m)
unfolding add_ascii_to_uint64
two_chunks m a h le d =
    let start : 0 + a ≡ a = omega arith in
    let split : bytes_from (a + 8) 0 m ≡ bytes_from a 0 m ++ bytes_from 8 a m =
      bytes_from-add a 8 0 m ∙ rw start in
    let (dl, dr) = All-append_left (bytes_from a 0 m) (bytes_from 8 a m) (rw split at d) in
    let tail : bytes_from 8 0 (ahead m a) ≡ bytes_from 8 a m =
      bytes_from-ahead 8 0 a m ∙ (let e : a + 0 ≡ a = omega arith in rw e) in
    let head_value = ascii_to_uint64-ascii_from m a false h (omega arith) dl in
    let tail_value =
      ascii_to_uint64-ascii_from (ahead m a) 8 true (λ i. h (a + i)) (omega arith)
        (subst (All IsAsciiDigit) (sym tail) dr)
      ∙ ap (ascii_from 0) tail in
    let small : ascii_from 0 (bytes_from a 0 m) < 10 ^ 2 = value-lt a 0 m 2 le dl in
    let low : ascii_from 0 (bytes_from 8 a m) < 10 ^ 8 = value-lt 8 a m 8 (omega arith) dr in
    let whole : ascii_from 0 (bytes_from (a + 8) 0 m)
        ≡ ascii_from 0 (bytes_from a 0 m) * 10 ^ 8 + ascii_from 0 (bytes_from 8 a m) =
      rw split (
        ascii_from-append 0 (bytes_from a 0 m) (bytes_from 8 a m)
        ∙ ascii_from-scale (ascii_from 0 (bytes_from a 0 m)) (bytes_from 8 a m)) in
    rw (head_value, tail_value, scaled_eight (ascii_from 0 (bytes_from a 0 m)) small, whole)
      (small_sum (ascii_from 0 (bytes_from a 0 m)) (ascii_from 0 (bytes_from 8 a m)) small low)

-- Up to ten digits, the last eight of a longer field by the SWAR path.
pub parse_unsigned_digits-ascii_from :
    (m : Memory) (n : ℕ) (padded : Bool)
    → AllBytes m
    → n ≤ 10
    → All IsAsciiDigit (bytes_from n 0 m)
    → parse_unsigned_digits m n padded ≡ ascii_from 0 (bytes_from n 0 m)
unfolding parse_unsigned_digits add_ascii_to_uint64
parse_unsigned_digits-ascii_from m n padded h le d = elim (Bool-cases (leb n 8)) [
  | inl short ↦
      rw (short, scaled_zero n, ascii_to_uint64-ascii_from m n padded h (ground arith) d)
        (omega (arith, value-lt n 0 m 10 le d))
  | inr long ↦
      let e : n ≡ n - 8 + 8 = ground arith in
      rw long (
        two_chunks m (n - 8) h (omega arith) (rw e at d)
        ∙ ap (λ k. ascii_from 0 (bytes_from k 0 m)) (sym e))
]

ascii-IsDigitLike : (b : ℕ) → IsAsciiDigit b → IsDigitLike b
ascii-IsDigitLike b h = ground arith

digit_likes :
    (n k i : ℕ) (m : Memory)
    → All IsAsciiDigit (bytes_from n i m)
    → All IsDigitLike (take n (bytes_from k i m))
digit_likes zero k i m d = tt
digit_likes (suc n) zero i m d = tt
digit_likes (suc n) (suc k) i m (hd, d) = (ascii-IsDigitLike (m i) hd, digit_likes n k (i + 1) m d)

pub is_digits-ascii :
    (n : ℕ) (m : Memory) → AllBytes m → All IsAsciiDigit (bytes_from n 0 m) → is_digits m n ≡ true
is_digits-ascii n m h d = (is_digits_iff m n h).1 (digit_likes n 8 0 m d)

in_range :
    (v : ℕ)
    → (if ltb (u32_mod - 1) v then unexpected invalid_value else value (v % u32_mod))
      ≡ (if ltb v (2 ^ 32) then value v else unexpected invalid_value)
in_range v = ground arith

-- A field of one to ten ASCII digits converts to their decimal value if that is below 2 ^ 32, and is
-- an invalid value otherwise.
pub convert_to_uint32-ascii_from :
    (field : Field) (d : FieldDecoder)
    → AllBytes d.bytes
    → 1 ≤ field.len
    → field.len ≤ 10
    → All IsAsciiDigit (bytes_from field.len 0 (ahead d.bytes field.position))
    → convert_to_uint32 field d ≡ (
        let v = ascii_from 0 (bytes_from field.len 0 (ahead d.bytes field.position)) in
        if ltb v (2 ^ 32) then value v else unexpected invalid_value)
unfolding convert_to_uint32
convert_to_uint32-ascii_from field d h lo hi digits =
    let m : Memory = ahead d.bytes field.position in
    let padded = leb (field.position + 8) d.byte_count in
    let hm : AllBytes m = λ i. h (field.position + i) in
    let number = parse_unsigned_digits-ascii_from m field.len padded hm hi digits in
    let short : (field.len == 0) || ltb max_uint32_digits field.len ≡ false = ground arith in
    rw (short, is_digits-ascii field.len m hm digits, number)
      (in_range (ascii_from 0 (bytes_from field.len 0 m)))
