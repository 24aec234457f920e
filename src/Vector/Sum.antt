-- ===== src/Vector/Sum.antt =====
-- Sums of bytes, by blocks.
use simdfix.Base.{ℕ, zero, suc, ◌+◌, ◌*◌, ◌%◌, ◌≤◌, ◌<◌, ◌≡◌, refl, sym, ap, ◌∙◌, [], ◌∷◌, arith}
use simdfix.Memory.{Memory, AllBytes, ahead, bytes_from}
use simdfix.Vector.{Block, load, sum_lanes, Accumulator, accumulate, sum_widened, accumulator_value}

-- The sum of `n` bytes from `i` on.
abbrev pub sum_from : ℕ → ℕ → Memory → ℕ
sum_from zero i m = 0
sum_from (suc n) i m = m i + sum_from n (i + 1) m

pub sum_from-add :
    (a b i : ℕ) (m : Memory) → sum_from (a + b) i m ≡ sum_from a i m + sum_from b (i + a) m
sum_from-add zero b i m =
    let e : 0 + b ≡ b = omega arith in let e' : i + 0 ≡ i = omega arith in rw (e, e') (omega arith)
sum_from-add (suc a) b i m =
    let e : suc a + b ≡ suc (a + b) = omega arith in
    let e' : i + suc a ≡ i + 1 + a = omega arith in
    rw (e, e') (omega (arith, sum_from-add a b (i + 1) m))

pub sum_from-le : (n i : ℕ) (m : Memory) → AllBytes m → sum_from n i m ≤ 255 * n
sum_from-le zero i m h = omega arith
sum_from-le (suc n) i m h = omega (arith, h i, sum_from-le n (i + 1) m h)

pub sum_from-same :
    (n i : ℕ) (m m' : Memory)
    → ((j : ℕ) → i ≤ j → j < i + n → m j ≡ m' j)
    → sum_from n i m ≡ sum_from n i m'
sum_from-same zero i m m' h = refl
sum_from-same (suc n) i m m' h =
    rw
      (
        h i (omega arith) (omega arith),
        sum_from-same n (i + 1) m m' (λ j lo hi. h j (omega arith) (omega arith)),
      )
      refl

sum_lanes-bytes_from :
    (n i p : ℕ) (m : Memory) → sum_lanes (bytes_from n i (ahead m p)) ≡ sum_from n (p + i) m
unfolding sum_lanes
sum_lanes-bytes_from zero i p m = refl
sum_lanes-bytes_from (suc n) i p m =
    let e : p + (i + 1) ≡ p + i + 1 = omega arith in
    ap (λ (t : ℕ). m (p + i) + t)
      (sum_lanes-bytes_from n (i + 1) p m ∙ ap (λ (k : ℕ). sum_from n k m) e)

-- The sum of a vector's lanes is the sum of the sixteen bytes that it was loaded from.
pub sum_lanes-load : (p : ℕ) (m : Memory) → sum_lanes (load (ahead m p)) ≡ sum_from 16 p m
unfolding load
sum_lanes-load p m =
    let e : p + 0 ≡ p = omega arith in
    sum_lanes-bytes_from 16 0 p m ∙ ap (λ (k : ℕ). sum_from 16 k m) e

pub sum_from-block :
    (p : ℕ) (m : Memory) → sum_from (p + 16) 0 m ≡ sum_from p 0 m + sum_lanes (load (ahead m p))
sum_from-block p m =
    let e : 0 + p ≡ p = omega arith in
    sum_from-add p 16 0 m
    ∙ ap (λ (t : ℕ). sum_from p 0 m + t)
        (ap (λ (i : ℕ). sum_from 16 i m) e ∙ sym (sum_lanes-load p m))

-- The value of the lanes, modulo 256.
abbrev total : Accumulator → ℕ
total [] = 0
total (x ∷ xs) = x + total xs

sum_widened-total : (xs : Accumulator) → sum_widened xs % 256 ≡ total xs % 256
unfolding sum_widened
sum_widened-total [] = refl
sum_widened-total (x ∷ xs) = ground (arith, sum_widened-total xs)

-- `n` lanes for `n` pairs of bytes.
abbrev pub HasLanes : ℕ → Accumulator → Block → Type 0
HasLanes zero [] [] = Unit
HasLanes (suc n) (x ∷ xs) (a ∷ (b ∷ bs)) = HasLanes n xs bs
HasLanes _ _ _ = ⊥

total-accumulate :
    (n : ℕ) (xs : Accumulator) (bs : Block)
    → HasLanes n xs bs
    → total (accumulate xs bs) % 256 ≡ (total xs + sum_lanes bs) % 256
unfolding accumulate sum_lanes
total-accumulate zero [] [] h = refl
total-accumulate zero [] (a ∷ bs) h = absurd h
total-accumulate zero (x ∷ xs) bs h = absurd h
total-accumulate (suc n) [] bs h = absurd h
total-accumulate (suc n) (x ∷ xs) [] h = absurd h
total-accumulate (suc n) (x ∷ xs) (a ∷ []) h = absurd h
total-accumulate (suc n) (x ∷ xs) (a ∷ (b ∷ bs)) h = omega (arith, total-accumulate n xs bs h)

-- For an accumulator with a lane for each pair of bytes of a block, adding the block adds the sum of its
-- lanes to the value, modulo 256.
pub accumulator_value-accumulate :
    (n : ℕ) (xs : Accumulator) (bs : Block)
    → HasLanes n xs bs
    → accumulator_value (accumulate xs bs) % 256 ≡ (accumulator_value xs + sum_lanes bs) % 256
unfolding accumulator_value
accumulator_value-accumulate n xs bs h =
    omega (
      arith,
      sum_widened-total (accumulate xs bs),
      sum_widened-total xs,
      total-accumulate n xs bs h,
    )

pub HasLanes-accumulate :
    (n : ℕ) (xs : Accumulator) (bs cs : Block)
    → HasLanes n xs bs
    → HasLanes n xs cs
    → HasLanes n (accumulate xs bs) cs
unfolding accumulate
HasLanes-accumulate zero [] [] [] h k = tt
HasLanes-accumulate zero [] [] (c ∷ cs) h k = absurd k
HasLanes-accumulate zero [] (a ∷ bs) cs h k = absurd h
HasLanes-accumulate zero (x ∷ xs) bs cs h k = absurd h
HasLanes-accumulate (suc n) [] bs cs h k = absurd h
HasLanes-accumulate (suc n) (x ∷ xs) [] cs h k = absurd h
HasLanes-accumulate (suc n) (x ∷ xs) (a ∷ []) cs h k = absurd h
HasLanes-accumulate (suc n) (x ∷ xs) (a ∷ (b ∷ bs)) [] h k = absurd k
HasLanes-accumulate (suc n) (x ∷ xs) (a ∷ (b ∷ bs)) (c ∷ []) h k = absurd k
HasLanes-accumulate (suc n) (x ∷ xs) (a ∷ (b ∷ bs)) (c ∷ (d ∷ cs)) h k =
    HasLanes-accumulate n xs bs cs h k
