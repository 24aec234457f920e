-- ===== src/LinearSearch/Correct.antt =====
-- The search eight at a time finds what the plain scan finds: the first occurrence.
use simdfix.Base.{
  ℕ, zero, suc, ◌+◌, ◌-◌, ◌*◌, ◌/◌, ◌%◌, ◌^◌, ◌≤◌, ◌<◌, ◌≡◌, ◌≢◌, inl, inr, refl, ap, ◌∙◌, ◌==◌,
  ==_iff, Bool-cases, ltb, if◌then◌else◌, Option, none, some, List, [], ◌∷◌, arith,
}
use simdfix.Bits.Count.{countr_zero, countr_zero-odd, countr_zero-empty_lane}
use simdfix.Bits.Lanes.{word}
use simdfix.LinearSearch.{Tags, put, broadcast, equal, to_uint64, scan, find_blocks, find}

-- The first index from `i` on, below `i + n`, where the key stands.
pub data FirstAt (array : Tags) (key i n : ℕ) : Option ℕ → Type 0 where
  found :
      (j : ℕ)
      → i ≤ j
      → j < i + n
      → array j ≡ key
      → ((k : ℕ) → i ≤ k → k < j → array k ≢ key)
      → FirstAt array key i n (some j)
  absent : ((k : ℕ) → i ≤ k → k < i + n → array k ≢ key) → FirstAt array key i n none

push_front :
    (array : Tags) (key i e : ℕ)
    → array i ≢ key
    → ((k : ℕ) → i + 1 ≤ k → k < e → array k ≢ key)
    → (k : ℕ) → i ≤ k
    → k < e
    → array k ≢ key
push_front array key i e ne rest k lo hi = elim (Bool-cases (k == i)) [
  | inl same ↦ rw ((==_iff k i).0 same) ne
  | inr other ↦ rest k (ground arith) hi
]

later :
    (array : Tags) (key i n : ℕ) (r : Option ℕ)
    → array i ≢ key
    → FirstAt array key (i + 1) n r
    → FirstAt array key i (suc n) r
later array key i n r ne (found j lo hi e before) =
    found j (omega arith) (omega arith) e (push_front array key i j ne before)
later array key i n r ne (absent rest) =
    absent (λ k lo hi. push_front array key i (i + 1 + n) ne rest k lo (omega arith))

scan-FirstAt : (n i : ℕ) (array : Tags) (key : ℕ) → FirstAt array key i n (scan n i array key)
unfolding scan
scan-FirstAt zero i array key = absent (λ k lo hi. absurd (omega arith))
scan-FirstAt (suc n) i array key = elim (Bool-cases (array i == key)) [
  | inl here ↦ rw here (
      found i (omega arith) (omega arith) ((==_iff (array i) key).0 here)
        (λ k lo hi. absurd (omega arith)))
  | inr other ↦ rw other (
      later array key i n (scan n (i + 1) array key) (ground arith)
        (scan-FirstAt n (i + 1) array key))
]

-- One byte for each tag, all ones where it is the key.
abbrev flags : ℕ → ℕ → Tags → ℕ → List ℕ
flags zero i array key = []
flags (suc n) i array key = (if array i == key then 255 else 0) ∷ flags n (i + 1) array key

two_bytes : (a b : ℕ) → (a % 256 + 256 * (a / 256) == b % 256 + 256 * (b / 256)) ≡ (a == b)
two_bytes a b = ground arith

to_uint64-flags :
    (n i : ℕ) (array : Tags) (key : ℕ)
    → to_uint64 (equal (put n i array) (broadcast n key)) ≡ word (flags n i array key)
to_uint64-flags zero i array key = refl
to_uint64-flags (suc n) i array key =
    ground (arith, two_bytes (array i) key, to_uint64-flags n (i + 1) array key)

-- The bits of `n` bytes.
abbrev width : ℕ → ℕ
width zero = 0
width (suc n) = suc (suc (suc (suc (suc (suc (suc (suc (width n))))))))

-- The decision of a block on its word of flags.
abbrev choice : ℕ → ℕ → ℕ → Option ℕ → Option ℕ
choice w bits i rest = if bits == 0 then rest else some (i + countr_zero w bits / 2 ^ 3)

first_lane : (n i x : ℕ) (rest : Option ℕ) → choice (width (suc n)) (255 + 256 * x) i rest ≡ some i
first_lane n i x rest =
    let e : 255 + 256 * x ≡ 1 + 2 * (127 + 128 * x) = omega arith in
    rw e (
      ground (
        arith,
        countr_zero-odd (suc (suc (suc (suc (suc (suc (suc (width n)))))))) (127 + 128 * x),
      ))

next_lane :
    (n i x : ℕ) (rest : Option ℕ)
    → choice (width (suc n)) (128 * 0 + 256 * x) i rest ≡ choice (width n) x (i + 1) rest
next_lane n i x rest = ground (arith, countr_zero-empty_lane (width n) x)

scan-suc :
    (n b i : ℕ) (array : Tags) (key : ℕ)
    → scan (suc n + b) i array key
      ≡ (if array i == key then some i else scan (n + b) (i + 1) array key)
unfolding scan
scan-suc n b i array key = let e : suc n + b ≡ suc (n + b) = omega arith in rw e

-- What a block decides, and what is left to the tags after it.
block :
    (n b i : ℕ) (array : Tags) (key : ℕ) (rest : Option ℕ)
    → rest ≡ scan b (i + n) array key
    → choice (width n) (word (flags n i array key)) i rest ≡ scan (n + b) i array key
block zero b i array key rest e =
    e
    ∙ (let p : i + 0 ≡ i = omega arith in
        let q : b ≡ 0 + b = omega arith in rw p (ap (λ n. scan n i array key) q))
block (suc n) b i array key rest e = elim (Bool-cases (array i == key)) [
  | inl here ↦
      rw (scan-suc n b i array key, here) (first_lane n i (word (flags n (i + 1) array key)) rest)
  | inr other ↦
      rw (scan-suc n b i array key, other)
        (next_lane n i (word (flags n (i + 1) array key)) rest
          ∙ block n b (i + 1) array key rest
              (let p : i + suc n ≡ i + 1 + n = omega arith in rw p at e))
]

find_blocks-scan :
    (left i cardinality : ℕ) (array : Tags) (key : ℕ)
    → i + 8 * left ≤ cardinality
    → find_blocks left i array cardinality key ≡ scan (cardinality - i) i array key
unfolding find_blocks
find_blocks-scan zero i cardinality array key h = refl
find_blocks-scan (suc left) i cardinality array key h =
    let p : 8 + (cardinality - (i + 8)) ≡ cardinality - i = omega arith in
    rw (to_uint64-flags 8 i array key) (
      block 8 (cardinality - (i + 8)) i array key (find_blocks left (i + 8) array cardinality key)
        (find_blocks-scan left (i + 8) cardinality array key (omega arith))
      ∙ ap (λ n. scan n i array key) p)

find-scan :
    (array : Tags) (cardinality key : ℕ) → find array cardinality key ≡ scan cardinality 0 array key
unfolding find
find-scan array cardinality key = elim (Bool-cases (ltb cardinality 8)) [
  | inl few ↦ rw few
  | inr many ↦
      let p : cardinality - 0 ≡ cardinality = omega arith in
      rw many (
        find_blocks-scan (cardinality / 8) 0 cardinality array key (omega arith)
        ∙ ap (λ n. scan n 0 array key) p)
]

-- The search in blocks of eight gives the first index below the cardinality at which the key stands,
-- and -1 only if there is none.
pub find-FirstAt :
    (array : Tags) (cardinality key : ℕ)
    → FirstAt array key 0 cardinality (find array cardinality key)
find-FirstAt array cardinality key =
    rw (find-scan array cardinality key) (scan-FirstAt cardinality 0 array key)
