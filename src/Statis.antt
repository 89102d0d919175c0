-- ===== src/Statis.antt =====
-- statis.go: packet counters (Count), request times by range (RangeStatis, TimeCount) and the
-- measures of all time and of the last five minutes (Measure).
-- An int64 that is added to atomically is its bit pattern, below 2 ^ 64; a duration is a number of
-- nanoseconds that has passed, so it is not negative.
pub mod Report
pub mod Ranges
pub mod Window
pub mod History
mod Tests
use iip.Prelude.{
  ℕ, zero, suc, ◌+◌, ◌*◌, ◌/◌, ◌%◌, ◌^◌, List, [], ◌∷◌, Option, none, some, leb, ltb, ◌==◌,
  if◌then◌else◌, replicate, set, get_or, map,
}

abbrev pub add_int64 : ℕ → ℕ → ℕ
add_int64 a b = (a + b) % 2 ^ 64

abbrev pub microsecond : ℕ
microsecond = 1000

abbrev pub millisecond : ℕ
millisecond = 1000 * 1000

abbrev pub second : ℕ
second = 1000 * 1000 * 1000

-- TimeRange1 is 0, and TimeRangeOther is 7.
unfoldable pub ensure_time_range_default : ℕ → ℕ
ensure_time_range_default v =
    if leb v 100
    then 0
    else if leb v 200
    then 1
    else if leb v 300
    then 2
    else if leb v 500
    then 3
    else if leb v 700
    then 4
    else if leb v 1000
    then 5
    else if leb v 1500
    then 6
    else 7

unfoldable pub ensure_time_range_micro_second : ℕ → ℕ
unfolding ensure_time_range_default
ensure_time_range_micro_second duration = ensure_time_range_default (duration / microsecond)

unfoldable pub ensure_time_range_milli_second : ℕ → ℕ
unfolding ensure_time_range_default
ensure_time_range_milli_second duration = ensure_time_range_default (duration / millisecond)

unfoldable pub ensure_time_range_second : ℕ → ℕ
unfolding ensure_time_range_default
ensure_time_range_second duration = ensure_time_range_default (duration / second)

pub record RangeStatis : Type 0 where
  pub duration : ℕ
  pub count : ℕ

abbrev pub no_statis : RangeStatis
no_statis = record { duration = 0; count = 0 }

-- (*RangeStatis).Add
unfoldable pub add_range : RangeStatis → ℕ → ℕ → RangeStatis
add_range m duration count = record {
  duration = add_int64 m.duration duration;
  count = add_int64 m.count count;
}

-- (*RangeStatis).AddObj
unfoldable pub add_obj : RangeStatis → RangeStatis → RangeStatis
add_obj m rs = record {
  duration = add_int64 m.duration rs.duration;
  count = add_int64 m.count rs.count;
}

-- A TimeCount is its array RangeCount, of 8 entries.
abbrev pub TimeCount : Type 0
TimeCount = List RangeStatis

abbrev pub new_time_count : TimeCount
new_time_count = replicate 8 no_statis

-- (*TimeCount).Clear: each entry is set to zero.
unfoldable pub clear : TimeCount → TimeCount
clear ranges = map (λ _. no_statis) ranges

-- Applies f to the entry at an index; there is none past the end.
unfoldable pub update {ℓ} : {A : Type ℓ} → List A → ℕ → (A → A) → List A
update [] i f = []
update (x ∷ xs) zero f = f x ∷ xs
update (x ∷ xs) (suc i) f = x ∷ update xs i f

-- The entry that the switch of Record chooses: the default case takes whatever is no TimeRange.
unfoldable pub range_index : ℕ → ℕ
range_index r = if ltb r 7 then r else 7

-- (*TimeCount).Record; none is a nil ensureFunc.
unfoldable pub record_time : TimeCount → ℕ → Option (ℕ → ℕ) → TimeCount
unfolding add_range update range_index
record_time m duration none = m
record_time m duration (some ensure) =
    update m (range_index (ensure duration)) (λ r. add_range r duration 1)

pub record Measure : Type 0 where
  pub five_minute_requests : List ℕ
  pub five_minute_duration : List ℕ
  pub all_requests : ℕ
  pub all_duration : ℕ
  pub five_minute_time_count : List TimeCount
  pub all_time_count : TimeCount
  pub current_second : ℕ
  pub time_range_ensure_func : Option (ℕ → ℕ)

-- NewMesure, less the start of its ticker.
unfoldable pub new_mesure : Option (ℕ → ℕ) → Measure
unfolding ensure_time_range_milli_second
new_mesure ensure = record {
  five_minute_requests = replicate 301 0;
  five_minute_duration = replicate 301 0;
  all_requests = 0;
  all_duration = 0;
  five_minute_time_count = replicate 301 new_time_count;
  all_time_count = new_time_count;
  current_second = 0;
  time_range_ensure_func = elim ensure [
    | none ↦ some ensure_time_range_milli_second
    | some f ↦ some f
  ];
}

unfoldable pub set_time_range_func : Measure → Option (ℕ → ℕ) → Measure
set_time_range_func m none = m
set_time_range_func m (some f) = record m { time_range_ensure_func = some f }

-- The index after `idx` in the rings of 301 seconds.
unfoldable pub next_second : ℕ → ℕ
next_second idx = if ltb 300 (idx + 1) then 0 else idx + 1

-- What tickTack does when the clock shows another second.
unfoldable pub pass_second : Measure → Measure
unfolding next_second clear update
pass_second m =
    let idx = next_second m.current_second in
    let idx_next = next_second idx in
    record m {
      current_second = idx;
      five_minute_requests = set m.five_minute_requests idx_next 0;
      five_minute_duration = set m.five_minute_duration idx_next 0;
      five_minute_time_count = update m.five_minute_time_count idx_next clear;
    }

-- One round of tickTack: `tm` is the second seen last, and `tm_now` what the clock shows.
unfoldable pub tick_tack : Measure → ℕ → ℕ → Measure × ℕ
tick_tack m tm tm_now = if tm_now == tm then (m, tm) else (pass_second m, tm_now)

-- (*Measure).Add
unfoldable pub add_measure : Measure → ℕ → ℕ → Measure
unfolding record_time update
add_measure m cnt dur = record m {
  five_minute_requests = update m.five_minute_requests m.current_second (λ n. add_int64 n cnt);
  all_requests = add_int64 m.all_requests cnt;
  five_minute_duration = update m.five_minute_duration m.current_second (λ n. add_int64 n dur);
  all_duration = add_int64 m.all_duration dur;
  five_minute_time_count =
      update m.five_minute_time_count m.current_second
        (λ t. record_time t dur m.time_range_ensure_func);
  all_time_count = record_time m.all_time_count dur m.time_range_ensure_func;
}

pub record Count : Type 0 where
  pub packets_sent : ℕ
  pub packet_received : ℕ
  pub whole_packet_sent : ℕ
  pub whole_packet_received : ℕ
  pub bytes_sent : ℕ
  pub bytes_received : ℕ

abbrev pub no_count : Count
no_count = record {
  packets_sent = 0;
  packet_received = 0;
  whole_packet_sent = 0;
  whole_packet_received = 0;
  bytes_sent = 0;
  bytes_received = 0;
}

-- (*Count).Add
unfoldable pub add_count : Count → Count → Count
add_count m v = record {
  packets_sent = add_int64 m.packets_sent v.packets_sent;
  packet_received = add_int64 m.packet_received v.packet_received;
  whole_packet_sent = add_int64 m.whole_packet_sent v.whole_packet_sent;
  whole_packet_received = add_int64 m.whole_packet_received v.whole_packet_received;
  bytes_sent = add_int64 m.bytes_sent v.bytes_sent;
  bytes_received = add_int64 m.bytes_received v.bytes_received;
}

-- (*Count).AddPtr; none is a nil pointer.
unfoldable pub add_ptr : Count → Option Count → Count
unfolding add_count
add_ptr m none = m
add_ptr m (some v) = add_count m v
