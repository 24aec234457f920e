-- ===== src/Dates/Clock.antt =====
-- A time of day that the encoder writes is read back by the parser.
use simdfix.Base.{
  ℕ, ◌+◌, ◌*◌, ◌/◌, ◌%◌, ◌<◌, ◌≡◌, refl, ap, ◌∙◌, false, ◌==◌, List, [], ◌∷◌, ◌++◌, drop, arith,
}
use simdfix.Base.Int.{pos, ◌+ℤ◌}
use simdfix.Memory.{Memory, memory_of, ahead, load64}
use simdfix.Dates.{
  write_fixed_digits, write_time_of_day, time_only_to_millis, clock_millis, clock_word, hours_of,
  minutes_of, seconds_of, fraction_word, fraction_millis,
}
use simdfix.Dates.Written.{last_digit, two_digits}

-- "HH:MM:SS.sss"
abbrev pub time_bytes : ℕ → ℕ → ℕ → ℕ → List ℕ
time_bytes h m s z =
    (b'0' + h / 10)
    ∷ (b'0' + h % 10)
    ∷ b':'
    ∷ (b'0' + m / 10)
    ∷ (b'0' + m % 10)
    ∷ b':'
    ∷ (b'0' + s / 10)
    ∷ (b'0' + s % 10)
    ∷ b'.'
    ∷ (b'0' + z / 100)
    ∷ (b'0' + z / 10 % 10)
    ∷ (b'0' + z % 10)
    ∷ []

pub three_digits :
    (v : ℕ)
    → v < 1000
    → write_fixed_digits 3 v ≡ (b'0' + v / 100) ∷ (b'0' + v / 10 % 10) ∷ (b'0' + v % 10) ∷ []
three_digits v h =
    let p : v / 10 / 10 ≡ v / 100 = omega arith in
    rw (last_digit 2 v (omega arith)) (rw (two_digits (v / 10) (omega arith), p))

pub written :
    (ms : ℕ)
    → ms < 86_400_000
    → write_time_of_day ms
      ≡ time_bytes (ms / 3_600_000) (ms / 60_000 % 60) (ms / 1_000 % 60) (ms % 1_000)
unfolding write_time_of_day
written ms h = rw (
  two_digits (ms / 3_600_000) (omega arith),
  two_digits (ms / 60_000 % 60) (omega arith),
  two_digits (ms / 1_000 % 60) (omega arith),
  three_digits (ms % 1_000) (omega arith),
)

-- Six digits in the lanes of "HH:MM:SS".
abbrev packed : ℕ → ℕ → ℕ → ℕ → ℕ → ℕ → ℕ
packed a b c d e f =
    a + 256 * (b + 256 * (0 + 256 * (c + 256 * (d + 256 * (0 + 256 * (e + 256 * (f + 256 * 0)))))))

packed_lem :
    (a b c d e f : ℕ) (rest : List ℕ)
    → a < 10
    → b < 10
    → c < 10
    → d < 10
    → e < 10
    → f < 10
    → clock_word (
        memory_of (
          (b'0' + a)
          ∷ (b'0' + b)
          ∷ b':'
          ∷ (b'0' + c)
          ∷ (b'0' + d)
          ∷ b':'
          ∷ (b'0' + e)
          ∷ (b'0' + f)
          ∷ rest))
      ≡ packed a b c d e f
unfolding load64
packed_lem a b c d e f rest ha hb hc hd he hf = omega arith

fraction_lem :
    (p q r : ℕ) (x : Memory)
    → p < 10
    → q < 10
    → r < 10
    → x 0 ≡ b'.'
    → x 1 ≡ b'0' + p
    → x 2 ≡ b'0' + q
    → x 3 ≡ b'0' + r
    → fraction_millis (fraction_word x) ≡ pos (p * 100 + q * 10 + r)
fraction_lem p q r x hp hq hr e0 e1 e2 e3 =
    let w : fraction_word x ≡ 256 * (p + 256 * (q + 256 * r)) = omega arith in rw w (ground arith)

hours_lem : (a b c d e f : ℕ) → a < 10 → b < 10 → hours_of (packed a b c d e f) ≡ a * 10 + b
hours_lem a b c d e f ha hb = omega arith

minutes_lem :
    (a b c d e f : ℕ)
    → a < 10
    → b < 10
    → c < 10
    → d < 10
    → minutes_of (packed a b c d e f) ≡ c * 10 + d
minutes_lem a b c d e f ha hb hc hd = omega arith

seconds_lem :
    (a b c d e f : ℕ)
    → a < 10
    → b < 10
    → c < 10
    → d < 10
    → e < 10
    → f < 10
    → seconds_of (packed a b c d e f) ≡ e * 10 + f
seconds_lem a b c d e f ha hb hc hd he hf = omega arith

pub clock_of :
    (time n short long : ℕ) (x : Memory) (h m s z : ℕ)
    → (long == short) ≡ false
    → hours_of time ≡ h
    → minutes_of time ≡ m
    → seconds_of time ≡ s
    → fraction_millis (fraction_word x) ≡ pos z
    → h < 24
    → m < 60
    → s < 60
    → clock_millis time x long short long (pos n) ≡ pos (n + (((h * 60 + m) * 60 + s) * 1000 + z))
unfolding clock_millis ◌+ℤ◌
clock_of time n short long x h m s z other eh em es ez hh hm hs = rw (eh, em, es, ez) (ground arith)

-- A clock and a fraction that agree with the bytes of a time.
pub clock :
    (n short long time : ℕ) (y : Memory) (h m s z : ℕ) (rest : List ℕ)
    → time ≡ clock_word (memory_of (time_bytes h m s z ++ rest))
    → fraction_word y ≡ fraction_word (ahead (memory_of (time_bytes h m s z ++ rest)) 8)
    → (long == short) ≡ false
    → h < 24
    → m < 60
    → s < 60
    → z < 1000
    → clock_millis time y long short long (pos n) ≡ pos (n + (((h * 60 + m) * 60 + s) * 1000 + z))
clock n short long time y h m s z rest same_time same_fraction other hh hm hs hz =
    let x : Memory = memory_of (time_bytes h m s z ++ rest) in
    let w =
      packed_lem (h / 10) (h % 10) (m / 10) (m % 10) (s / 10) (s % 10)
        (drop 8 (time_bytes h m s z ++ rest)) (omega arith) (omega arith) (omega arith)
        (omega arith) (omega arith) (omega arith) in
    let fraction =
      fraction_lem (z / 100) (z / 10 % 10) (z % 10) (ahead x 8) (omega arith) (omega arith)
        (omega arith) refl refl refl refl in
    clock_of time n short long y h m s z other
      (ap hours_of (same_time ∙ w)
        ∙ hours_lem (h / 10) (h % 10) (m / 10) (m % 10) (s / 10) (s % 10) (omega arith)
            (omega arith)
        ∙ omega arith)
      (ap minutes_of (same_time ∙ w)
        ∙ minutes_lem (h / 10) (h % 10) (m / 10) (m % 10) (s / 10) (s % 10) (omega arith)
            (omega arith) (omega arith) (omega arith)
        ∙ omega arith)
      (ap seconds_of (same_time ∙ w)
        ∙ seconds_lem (h / 10) (h % 10) (m / 10) (m % 10) (s / 10) (s % 10) (omega arith)
            (omega arith) (omega arith) (omega arith) (omega arith) (omega arith)
        ∙ omega arith)
      (ap fraction_millis same_fraction
        ∙ fraction
        ∙ ap pos (let e : z / 100 * 100 + z / 10 % 10 * 10 + z % 10 ≡ z = omega arith in e))
      hh hm hs

pub parts :
    (n ms : ℕ)
    → n + (((ms / 3_600_000 * 60 + ms / 60_000 % 60) * 60 + ms / 1_000 % 60) * 1000 + ms % 1_000)
      ≡ n + ms
parts n ms = omega arith

-- The twelve bytes that the encoder writes for a time of day below 24 hours are parsed to that time, whatever bytes
-- follow.
pub time_only_to_millis-write_time_of_day :
    (ms : ℕ) (rest : List ℕ)
    → ms < 86_400_000
    → time_only_to_millis (memory_of (write_time_of_day ms ++ rest)) 12 ≡ pos ms
unfolding time_only_to_millis
time_only_to_millis-write_time_of_day ms rest h = rw (written ms h) (
    clock 0 8 12
      (clock_word (
        memory_of
          (time_bytes (ms / 3_600_000) (ms / 60_000 % 60) (ms / 1_000 % 60) (ms % 1_000) ++ rest)))
      (ahead
        (memory_of
          (time_bytes (ms / 3_600_000) (ms / 60_000 % 60) (ms / 1_000 % 60) (ms % 1_000) ++ rest))
        8)
      (ms / 3_600_000) (ms / 60_000 % 60) (ms / 1_000 % 60) (ms % 1_000) rest refl refl refl
      (omega arith) (omega arith) (omega arith) (omega arith)
    ∙ ap pos (parts 0 ms ∙ (let e : 0 + ms ≡ ms = omega arith in e)))
