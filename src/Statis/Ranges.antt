-- ===== src/Statis/Ranges.antt =====
-- Which range a time falls into, and what TimeCount.Record does to the ranges.
use iip.Prelude.{
  ℕ, zero, suc, ◌+◌, ◌%◌, ◌^◌, ◌<◌, ◌≡◌, refl, ◌∙◌, List, [], ◌∷◌, some, ltb, if◌then◌else◌, length,
  arith,
}
use iip.Statis.{ensure_time_range_default, add_range, TimeCount, update, range_index, record_time}

-- How many of the bounds a time exceeds.
abbrev pub exceeded : ℕ → List ℕ → ℕ
exceeded v [] = 0
exceeded v (b ∷ bs) = (if ltb b v then 1 else 0) + exceeded v bs

abbrev pub bounds : List ℕ
bounds = 100 ∷ 200 ∷ 300 ∷ 500 ∷ 700 ∷ 1000 ∷ 1500 ∷ []

-- The range of a time is the number of the bounds 100, 200, 300, 500, 700, 1000 and 1500 that it
-- exceeds; so it is one of eight, and grows with the time.
pub ensure_time_range_default-exceeded : (v : ℕ) → ensure_time_range_default v ≡ exceeded v bounds
unfolding ensure_time_range_default
ensure_time_range_default-exceeded v = ground arith

pub length-update {ℓ} :
    {A : Type ℓ} (xs : List A) (i : ℕ) (f : A → A) → length (update xs i f) ≡ length xs
unfolding update
length-update [] i f = refl
length-update (x ∷ xs) zero f = refl
length-update (x ∷ xs) (suc i) f = omega (arith, length-update xs i f)

-- The sums over the ranges, without wrapping around.
abbrev pub counts : TimeCount → ℕ
counts [] = 0
counts (r ∷ rs) = r.count + counts rs

abbrev pub durations : TimeCount → ℕ
durations [] = 0
durations (r ∷ rs) = r.duration + durations rs

update-sums :
    (m : TimeCount) (i d : ℕ)
    → i < length m
    → (counts (update m i (λ r. add_range r d 1)) % 2 ^ 64 ≡ (counts m + 1) % 2 ^ 64)
      × (durations (update m i (λ r. add_range r d 1)) % 2 ^ 64 ≡ (durations m + d) % 2 ^ 64)
unfolding update add_range
update-sums [] i d h = absurd (omega arith)
update-sums (r ∷ m) zero d h = omega arith
update-sums (r ∷ m) (suc i) d h = omega (arith, update-sums m i d (omega arith))

range_index-lt : (r : ℕ) → range_index r < 8
unfolding range_index
range_index-lt r = ground arith

-- Recording a time raises the number of times in all ranges by one and their total by the time
-- (modulo 2^64), whatever range function is set, and keeps the eight ranges.
pub record_time-sums :
    (m : TimeCount) (duration : ℕ) (ensure : ℕ → ℕ)
    → length m ≡ 8
    → let m' = record_time m duration (some ensure) in
      (length m' ≡ 8)
      × (counts m' % 2 ^ 64 ≡ (counts m + 1) % 2 ^ 64)
      × (durations m' % 2 ^ 64 ≡ (durations m + duration) % 2 ^ 64)
unfolding record_time
record_time-sums m duration ensure h =
    let i = range_index (ensure duration) in
    let (c, d) = update-sums m i duration (omega (arith, range_index-lt (ensure duration))) in
    (length-update m i _ ∙ h, c, d)
