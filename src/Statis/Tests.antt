-- ===== src/Statis/Tests.antt =====
-- Concrete measures, and the theorems applied to them.
use iip.Prelude.{◌%◌, ◌^◌, ◌≡◌, refl, List, [], ◌∷◌, none, some, get_or, set, arith}
use iip.Statis.{
  Measure, RangeStatis, new_time_count, new_mesure, ensure_time_range_default,
  ensure_time_range_milli_second, update, TimeCount,
}
use iip.Statis.Ranges.{ensure_time_range_default-exceeded, counts, durations}
use iip.Statis.Window.{
  Event, added, ticked, run, slot, seconds_after, five_minute_requests_held, overwrite_300,
  sum_window-overwrite,
}
use iip.Statis.Report.{no_totals, sum_window}
use iip.Statis.History.{all_time_sums}

-- statis_test.go adds requests of 1 to 4 milliseconds.
milli_seconds : ensure_time_range_milli_second 150_000_000 ≡ 1
unfolding ensure_time_range_milli_second
milli_seconds = refl

ensure_time_range_default-exceeded_example : ensure_time_range_default 500 ≡ 3
ensure_time_range_default-exceeded_example = ensure_time_range_default-exceeded 500

abbrev three_seconds : List Event
three_seconds =
    added 1 20 ∷ ticked 8 ∷ added 1 30 ∷ added 4 50 ∷ ticked 8 ∷ ticked 9 ∷ added 1 5 ∷ []

abbrev measured : Measure
measured = (run (new_mesure none, 7) three_seconds).0

five_minute_requests_held_example :
    get_or measured.five_minute_requests (slot measured.current_second 1) 0 ≡ 5
unfolding seconds_after update
five_minute_requests_held_example = five_minute_requests_held none 7 three_seconds 1 (omega arith)

all_time_sums_example :
    let m = (run (new_mesure (some ensure_time_range_default), 7) three_seconds).0 in
    (m.all_requests % 2 ^ 64 ≡ 7)
    × (m.all_duration % 2 ^ 64 ≡ 105)
    × (counts m.all_time_count % 2 ^ 64 ≡ 4)
    × (durations m.all_time_count % 2 ^ 64 ≡ 105)
all_time_sums_example = all_time_sums ensure_time_range_default 7 three_seconds

sum_window-overwrite_example :
    sum_window 300 (overwrite_300 (new_mesure none) 9 9 new_time_count) 0 no_totals
    ≡ sum_window 300 (new_mesure none) 0 no_totals
sum_window-overwrite_example =
    sum_window-overwrite 300 (new_mesure none) 0 9 9 new_time_count no_totals (omega arith)

abbrev slow_range : RangeStatis
slow_range = record { duration = 900; count = 0 }

abbrev slow_ranges : TimeCount
slow_ranges = set new_time_count 0 slow_range
