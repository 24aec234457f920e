-- ===== src/Memory/Writes.antt =====
-- What memory holds after bytes have been written to it.
use simdfix.Base.{
  ℕ, zero, suc, ◌+◌, ◌≤◌, ◌<◌, ◌≡◌, refl, ap, ◌∙◌, List, [], ◌∷◌, ◌++◌, All, length, get_or, arith,
}
use simdfix.Bits.Lanes.{IsByte}
use simdfix.Memory.{Memory, AllBytes, bytes_from, store, write}

pub store-before : (p b i : ℕ) (m : Memory) → i < p → store p b m i ≡ m i
store-before p b i m h = ground arith

pub store-past : (p b i : ℕ) (m : Memory) → p < i → store p b m i ≡ m i
store-past p b i m h = ground arith

pub store-at : (p b : ℕ) (m : Memory) → store p b m p ≡ b
store-at p b m = ground arith

pub store-AllBytes : (p b : ℕ) (m : Memory) → IsByte b → AllBytes m → AllBytes (store p b m)
store-AllBytes p b m hb h i = ground (arith, h i)

pub write-before : (p : ℕ) (bs : List ℕ) (m : Memory) (i : ℕ) → i < p → write p bs m i ≡ m i
unfolding write
write-before p [] m i h = refl
write-before p (b ∷ bs) m i h =
    write-before (p + 1) bs (store p b m) i (omega arith) ∙ store-before p b i m h

pub write-past :
    (p : ℕ) (bs : List ℕ) (m : Memory) (i : ℕ) → p + length bs ≤ i → write p bs m i ≡ m i
unfolding write
write-past p [] m i h = refl
write-past p (b ∷ bs) m i h =
    write-past (p + 1) bs (store p b m) i (omega arith) ∙ store-past p b i m (omega arith)

pub write-AllBytes :
    (p : ℕ) (bs : List ℕ) (m : Memory) → All IsByte bs → AllBytes m → AllBytes (write p bs m)
unfolding write
write-AllBytes p [] m hs h = h
write-AllBytes p (b ∷ bs) m (hb, hs) h =
    write-AllBytes (p + 1) bs (store p b m) hs (store-AllBytes p b m hb h)

pub write-at :
    (p : ℕ) (bs : List ℕ) (m : Memory) (k : ℕ)
    → k < length bs
    → write p bs m (p + k) ≡ get_or bs k 0
unfolding write
write-at p [] m k h = absurd (omega arith)
write-at p (b ∷ bs) m zero h =
    let e : p + 0 ≡ p = omega arith in
    rw e (write-before (p + 1) bs (store p b m) p (omega arith) ∙ store-at p b m)
write-at p (b ∷ bs) m (suc k) h =
    let e : p + suc k ≡ p + 1 + k = omega arith in
    rw e (write-at (p + 1) bs (store p b m) k (omega arith))

-- The bytes that were written are there.
pub bytes_from-write :
    (p : ℕ) (bs : List ℕ) (m : Memory) → bytes_from (length bs) p (write p bs m) ≡ bs
unfolding write
bytes_from-write p [] m = refl
bytes_from-write p (b ∷ bs) m =
    rw
      (
        write-before (p + 1) bs (store p b m) p (omega arith) ∙ store-at p b m,
        bytes_from-write (p + 1) bs (store p b m),
      )
      refl

-- Memories that agree on the bytes from `i` on.
pub bytes_from-same :
    (n i : ℕ) (m m' : Memory)
    → ((j : ℕ) → i ≤ j → j < i + n → m j ≡ m' j)
    → bytes_from n i m ≡ bytes_from n i m'
bytes_from-same zero i m m' h = refl
bytes_from-same (suc n) i m m' h =
    rw
      (
        h i (omega arith) (omega arith),
        bytes_from-same n (i + 1) m m' (λ j lo hi. h j (omega arith) (omega arith)),
      )
      refl

pub bytes_from-add :
    (a b i : ℕ) (m : Memory) → bytes_from (a + b) i m ≡ bytes_from a i m ++ bytes_from b (i + a) m
bytes_from-add zero b i m =
    let e : 0 + b ≡ b = omega arith in let e' : i + 0 ≡ i = omega arith in rw (e, e') refl
bytes_from-add (suc a) b i m =
    let e : suc a + b ≡ suc (a + b) = omega arith in
    let e' : i + suc a ≡ i + 1 + a = omega arith in
    rw (e, e') (ap (λ (bs : List ℕ). m i ∷ bs) (bytes_from-add a b (i + 1) m))
