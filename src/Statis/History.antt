-- ===== src/Statis/History.antt =====
-- The sums of all time, over any history of a Measure, and what String makes of them.
use iip.Prelude.{
  ℕ, zero, suc, ◌+◌, ◌%◌, ◌^◌, ◌≡◌, inl, inr, refl, ap, List, [], ◌∷◌, some, ◌==◌, Bool-cases,
  length, arith,
}
use iip.Statis.{
  add_int64, Measure, pass_second, add_measure, new_mesure, TimeCount, record_time, new_time_count,
  add_obj,
}
use iip.Statis.Ranges.{counts, durations, record_time-sums}
use iip.Statis.Window.{
  Event, added, ticked, run, run_nil, run_added, run_ticked, tick_same, tick_other,
}
use iip.Statis.Report.{
  Totals, add_objs, total_count, range_numbers, numbers, sum_window, add_slot, next_slot, no_totals,
}

-- What a history adds up to.
abbrev pub requests_added : List Event → ℕ
requests_added [] = 0
requests_added (added cnt dur ∷ es) = cnt + requests_added es
requests_added (ticked s ∷ es) = requests_added es

abbrev pub time_added : List Event → ℕ
time_added [] = 0
time_added (added cnt dur ∷ es) = dur + time_added es
time_added (ticked s ∷ es) = time_added es

abbrev pub calls_added : List Event → ℕ
calls_added [] = 0
calls_added (added cnt dur ∷ es) = 1 + calls_added es
calls_added (ticked s ∷ es) = calls_added es

-- The sums of m are those of m₀ and of what was added since.
pub record Sums (m : Measure) (requests time calls : ℕ) : Type 0 where
  pub has_ranges : length m.all_time_count ≡ 8
  pub ensure : ℕ → ℕ
  pub has_ensure : m.time_range_ensure_func ≡ some ensure
  pub requests_sum : m.all_requests % 2 ^ 64 ≡ requests % 2 ^ 64
  pub duration_sum : m.all_duration % 2 ^ 64 ≡ time % 2 ^ 64
  pub counts_sum : counts m.all_time_count % 2 ^ 64 ≡ calls % 2 ^ 64
  pub durations_sum : durations m.all_time_count % 2 ^ 64 ≡ time % 2 ^ 64

module _ (m : Measure) (requests time calls cnt dur : ℕ) (s : Sums m requests time calls) where
  ranges_added :
      let t = record_time m.all_time_count dur m.time_range_ensure_func in
      (length t ≡ 8)
      × (counts t % 2 ^ 64 ≡ (counts m.all_time_count + 1) % 2 ^ 64)
      × (durations t % 2 ^ 64 ≡ (durations m.all_time_count + dur) % 2 ^ 64)
  ranges_added = rw s.has_ensure (record_time-sums m.all_time_count dur s.ensure s.has_ranges)

  add_measure-Sums : Sums (add_measure m cnt dur) (requests + cnt) (time + dur) (calls + 1)
  unfolding add_measure
  add_measure-Sums = record {
    has_ranges = ranges_added.0;
    ensure = s.ensure;
    has_ensure = s.has_ensure;
    requests_sum = omega (arith, s.requests_sum);
    duration_sum = omega (arith, s.duration_sum);
    counts_sum = omega (arith, s.counts_sum, ranges_added.1);
    durations_sum = omega (arith, s.durations_sum, ranges_added.2);
  }

pass_second-Sums :
    (m : Measure) (requests time calls : ℕ)
    → Sums m requests time calls
    → Sums (pass_second m) requests time calls
unfolding pass_second
pass_second-Sums m requests time calls s = record {
  has_ranges = s.has_ranges;
  ensure = s.ensure;
  has_ensure = s.has_ensure;
  requests_sum = s.requests_sum;
  duration_sum = s.duration_sum;
  counts_sum = s.counts_sum;
  durations_sum = s.durations_sum;
}

Sums-same :
    (m : Measure) (r r' t t' c c' : ℕ) → r ≡ r' → t ≡ t' → c ≡ c' → Sums m r t c → Sums m r' t' c'
Sums-same m r r' t t' c c' p q e s = rw (← p, ← q, ← e) s

run-Sums :
    (es : List Event) (m : Measure) (tm requests time calls : ℕ)
    → Sums m requests time calls
    → Sums
        (run (m, tm) es).0
        (requests + requests_added es)
        (time + time_added es)
        (calls + calls_added es)
run-Sums [] m tm r t c s =
    rw run_nil
      (Sums-same m r (r + 0) t (t + 0) c (c + 0) (omega arith) (omega arith) (omega arith) s)
run-Sums (added cnt dur ∷ es) m tm r t c s = rw run_added (
    Sums-same _ _ _ _ _ _ _ (omega arith) (omega arith) (omega arith) (
      run-Sums es (add_measure m cnt dur) tm (r + cnt) (t + dur) (c + 1)
        (add_measure-Sums m r t c cnt dur s)))
run-Sums (ticked tm_now ∷ es) m tm r t c s = elim (Bool-cases (tm_now == tm)) [
  | inl same ↦ rw (run_ticked, tick_same m tm tm_now same) (run-Sums es m tm r t c s)
  | inr other ↦
      rw (run_ticked, tick_other m tm tm_now other)
        (run-Sums es (pass_second m) tm_now r t c (pass_second-Sums m r t c s))
]

-- After any history, the sums of all time of a Measure are right (modulo 2^64): all requests and
-- their time, and over the eight ranges the number of times recorded and their total, which is
-- the same time again. Passing seconds change none of them.
pub all_time_sums :
    (f : ℕ → ℕ) (tm : ℕ) (es : List Event)
    → let m = (run (new_mesure (some f), tm) es).0 in
      (m.all_requests % 2 ^ 64 ≡ requests_added es % 2 ^ 64)
      × (m.all_duration % 2 ^ 64 ≡ time_added es % 2 ^ 64)
      × (counts m.all_time_count % 2 ^ 64 ≡ calls_added es % 2 ^ 64)
      × (durations m.all_time_count % 2 ^ 64 ≡ time_added es % 2 ^ 64)
unfolding new_mesure
all_time_sums f tm es =
    let s = run-Sums es (new_mesure (some f)) tm 0 0 0 (record {
      has_ranges = refl;
      ensure = f;
      has_ensure = refl;
      requests_sum = refl;
      duration_sum = refl;
      counts_sum = refl;
      durations_sum = refl;
    }) in
    (
      omega (arith, s.requests_sum),
      omega (arith, s.duration_sum),
      omega (arith, s.counts_sum),
      omega (arith, s.durations_sum),
    )

-- The same numbers of times, with any durations.
abbrev pub SameCounts : TimeCount → TimeCount → Type 0
SameCounts [] [] = Unit {0}
SameCounts [] (y ∷ ys) = ⊥
SameCounts (x ∷ xs) [] = ⊥
SameCounts (x ∷ xs) (y ∷ ys) = (x.count ≡ y.count) × SameCounts xs ys

add_objs-SameCounts :
    (zs xs ys : TimeCount) → SameCounts xs ys → SameCounts (add_objs zs xs) (add_objs zs ys)
unfolding add_objs add_obj
add_objs-SameCounts [] xs ys h = tt
add_objs-SameCounts (z ∷ zs) [] [] h = (refl, self zs)
  where
    self : (ws : TimeCount) → SameCounts ws ws
    self = elim [ [] ↦ tt | w ∷ (ws → ih) ↦ (refl, ih) ]
add_objs-SameCounts (z ∷ zs) [] (y ∷ ys) h = elim h [ ]
add_objs-SameCounts (z ∷ zs) (x ∷ xs) [] h = elim h [ ]
add_objs-SameCounts (z ∷ zs) (x ∷ xs) (y ∷ ys) h =
    (ap (λ (n : ℕ). add_int64 z.count n) h.0, add_objs-SameCounts zs xs ys h.1)

total_count-SameCounts : (xs ys : TimeCount) → SameCounts xs ys → total_count xs ≡ total_count ys
unfolding total_count
total_count-SameCounts [] [] h = refl
total_count-SameCounts [] (y ∷ ys) h = elim h [ ]
total_count-SameCounts (x ∷ xs) [] h = elim h [ ]
total_count-SameCounts (x ∷ xs) (y ∷ ys) h = rw (h.0, total_count-SameCounts xs ys h.1)

range_numbers-SameCounts :
    (total unit : ℕ) (xs ys ds : TimeCount)
    → SameCounts xs ys
    → range_numbers total unit xs ds ≡ range_numbers total unit ys ds
unfolding range_numbers
range_numbers-SameCounts total unit [] [] ds h = refl
range_numbers-SameCounts total unit [] (y ∷ ys) ds h = elim h [ ]
range_numbers-SameCounts total unit (x ∷ xs) [] ds h = elim h [ ]
range_numbers-SameCounts total unit (x ∷ xs) (y ∷ ys) [] h = refl
range_numbers-SameCounts total unit (x ∷ xs) (y ∷ ys) (d ∷ ds) h =
    rw (h.0, range_numbers-SameCounts total unit xs ys ds h.1)

add_slot-all_time :
    (m : Measure) (idx : ℕ) (other : TimeCount) (t : Totals)
    → add_slot (record m { all_time_count = other }) idx t ≡ add_slot m idx t
unfolding add_slot
add_slot-all_time m idx other t = refl

sum_window-all_time :
    (rounds : ℕ) (m : Measure) (idx : ℕ) (other : TimeCount) (t : Totals)
    → sum_window rounds (record m { all_time_count = other }) idx t ≡ sum_window rounds m idx t
unfolding sum_window
sum_window-all_time zero m idx other t = refl
sum_window-all_time (suc n) m idx other t =
    rw (add_slot-all_time m idx other t)
      (sum_window-all_time n m (next_slot idx) other (add_slot m idx t))

-- The averages that String prints for the ranges of all time do not come from the times of all
-- time: with any other durations recorded in those ranges, as often, it prints the same numbers.
pub numbers-SameCounts :
    (m : Measure) (time_unit : ℕ) (other : TimeCount)
    → SameCounts other m.all_time_count
    → numbers (record m { all_time_count = other }) time_unit ≡ numbers m time_unit
unfolding numbers
numbers-SameCounts m time_unit other h =
    let all_ranges = add_objs-SameCounts new_time_count other m.all_time_count h in
    rw (
      sum_window-all_time 300 m m.current_second other no_totals,
      total_count-SameCounts (add_objs new_time_count other)
          (add_objs new_time_count m.all_time_count) all_ranges,
      range_numbers-SameCounts _ time_unit (add_objs new_time_count other)
          (add_objs new_time_count m.all_time_count) _ all_ranges,
    )
