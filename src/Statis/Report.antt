-- ===== src/Statis/Report.antt =====
-- (*Measure).String: the numbers that it prints, in their order. The text around them is not
-- modelled. A number printed is right as an int64 while the sums stay below 2 ^ 63 / 100.
use iip.Prelude.{
  ℕ, zero, suc, ◌+◌, ◌*◌, ◌/◌, ◌%◌, ◌^◌, List, [], ◌∷◌, ◌++◌, ◌==◌, leb, if◌then◌else◌, get_or,
}
use iip.Statis.{add_int64, add_obj, TimeCount, new_time_count, Measure}

pub record Totals : Type 0 where
  pub dur5 : ℕ
  pub req5 : ℕ
  pub range_counts : TimeCount

abbrev pub no_totals : Totals
no_totals = record { dur5 = 0; req5 = 0; range_counts = new_time_count }

-- AddObj of the eight entries of a TimeCount to the eight sums.
unfoldable pub add_objs : TimeCount → TimeCount → TimeCount
unfolding add_obj
add_objs [] rs = []
add_objs (x ∷ xs) [] = x ∷ xs
add_objs (x ∷ xs) (r ∷ rs) = add_obj x r ∷ add_objs xs rs

-- One round of the loop, at the slot `idx`.
unfoldable pub add_slot : Measure → ℕ → Totals → Totals
unfolding add_objs
add_slot m idx t = record {
  dur5 = add_int64 t.dur5 (get_or m.five_minute_duration idx 0);
  req5 = add_int64 t.req5 (get_or m.five_minute_requests idx 0);
  range_counts = add_objs t.range_counts (get_or m.five_minute_time_count idx new_time_count);
}

-- How the loop goes on from a slot: it wraps at 300, where the rings have 301 slots.
unfoldable pub next_slot : ℕ → ℕ
next_slot idx = if leb 300 (idx + 1) then 0 else idx + 1

-- `for i := 0; i < n; i++` from the slot `idx`.
unfoldable pub sum_window : ℕ → Measure → ℕ → Totals → Totals
sum_window zero m idx t = t
sum_window (suc n) m idx t = sum_window n m (next_slot idx) (add_slot m idx t)

abbrev pub if_zero : ℕ → ℕ
if_zero v = if v == 0 then 1 else v

unfoldable pub total_count : TimeCount → ℕ
total_count [] = 0
total_count (r ∷ rs) = add_int64 r.count (total_count rs)

-- count, count*100/total and the average, for each range; the durations may come from elsewhere.
unfoldable pub range_numbers : ℕ → ℕ → TimeCount → TimeCount → List ℕ
range_numbers total unit [] ds = []
range_numbers total unit (r ∷ rs) [] = []
range_numbers total unit (r ∷ rs) (d ∷ ds) =
    r.count
    ∷ (r.count * 100 % 2 ^ 64 / total)
    ∷ (d.duration / if_zero r.count / unit)
    ∷ range_numbers total unit rs ds

-- Both lines of ranges divide the five-minute durations.
unfoldable pub numbers : Measure → ℕ → List ℕ
numbers m time_unit =
    let t = sum_window 300 m m.current_second no_totals in
    let all_ranges = add_objs new_time_count m.all_time_count in
    let all_time_count = if_zero (total_count all_ranges) in
    let f_time_count = if_zero (total_count t.range_counts) in
    t.req5
    ∷ (t.dur5 / f_time_count / time_unit)
    ∷ m.all_requests
    ∷ (m.all_duration / if_zero m.all_requests / time_unit)
    ∷ (range_numbers f_time_count time_unit t.range_counts t.range_counts
        ++ range_numbers all_time_count time_unit all_ranges t.range_counts)
