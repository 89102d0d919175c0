-- ===== src/Statis/Window.antt =====
-- The rings of 301 seconds, over the history of a Measure: seconds that pass and requests added.
use iip.Prelude.{
  ℕ, zero, suc, ◌+◌, ◌-◌, ◌≤◌, ◌<◌, ◌≡◌, ◌≢◌, inl, inr, refl, sym, ◌∙◌, List, [], ◌∷◌, Option, leb,
  ltb, ◌==◌, if◌then◌else◌, length, set, get_or, replicate, Bool-cases, true, false, length-set,
  arith,
}
use iip.Statis.{
  add_int64, Measure, next_second, pass_second, tick_tack, add_measure, new_mesure, update,
  TimeCount, new_time_count,
}
use iip.Statis.Ranges.{length-update}
use iip.Statis.Report.{Totals, sum_window, add_slot, next_slot}

pub get_or-set {ℓ} :
    {A : Type ℓ} (xs : List A) (i j : ℕ) (v d : A)
    → get_or (set xs i v) j d
      ≡ (if i == j then (if ltb j (length xs) then v else d) else get_or xs j d)
get_or-set [] i j v d = ground arith
get_or-set (x ∷ xs) zero zero v d = ground arith
get_or-set (x ∷ xs) zero (suc j) v d = ground arith
get_or-set (x ∷ xs) (suc i) zero v d = ground arith
get_or-set (x ∷ xs) (suc i) (suc j) v d = ground (arith, get_or-set xs i j v d)

pub get_or-update {ℓ} :
    {A : Type ℓ} (xs : List A) (i j : ℕ) (f : A → A) (d : A)
    → get_or (update xs i f) j d
      ≡ (if i == j then (if ltb j (length xs) then f (get_or xs j d) else d) else get_or xs j d)
unfolding update
get_or-update [] i j f d = ground arith
get_or-update (x ∷ xs) zero zero f d = ground arith
get_or-update (x ∷ xs) zero (suc j) f d = ground arith
get_or-update (x ∷ xs) (suc i) zero f d = ground arith
get_or-update (x ∷ xs) (suc i) (suc j) f d = ground (arith, get_or-update xs i j f d)

-- What happens to a Measure: requests are added, or the ticker sees the clock show a second.
pub data Event : Type 0 where
  added : ℕ → ℕ → Event
  ticked : ℕ → Event

-- The state is the Measure and the second that the ticker saw last.
unfoldable pub happen : Measure × ℕ → Event → Measure × ℕ
happen (m, tm) (added cnt dur) = (add_measure m cnt dur, tm)
happen (m, tm) (ticked tm_now) = tick_tack m tm tm_now

unfoldable pub run : Measure × ℕ → List Event → Measure × ℕ
run s [] = s
run s (e ∷ es) = run (happen s e) es

-- The requests of each second, newest first.
unfoldable pub seconds_after : List ℕ → ℕ → List Event → List ℕ
seconds_after ss tm [] = ss
seconds_after ss tm (added cnt dur ∷ es) = seconds_after (update ss 0 (λ n. add_int64 n cnt)) tm es
seconds_after ss tm (ticked tm_now ∷ es) =
    seconds_after (if tm_now == tm then ss else 0 ∷ ss) (if tm_now == tm then tm else tm_now) es

-- The slot that held the second `k` seconds ago.
abbrev pub slot : ℕ → ℕ → ℕ
slot cur k = if leb k cur then cur - k else cur + 301 - k

pub record IsRing (m : Measure) (ss : List ℕ) : Type 0 where
  pub size : length m.five_minute_requests ≡ 301
  pub now : m.current_second ≤ 300
  pub some_second : 0 < length ss
  pub held :
      (k : ℕ) → k < 300 → get_or m.five_minute_requests (slot m.current_second k) 0 ≡ get_or ss k 0
  pub cleared : get_or m.five_minute_requests (slot m.current_second 300) 0 ≡ 0

add_measure-IsRing :
    (m : Measure) (ss : List ℕ) (cnt dur : ℕ)
    → IsRing m ss
    → IsRing (add_measure m cnt dur) (update ss 0 (λ n. add_int64 n cnt))
unfolding add_measure
add_measure-IsRing m ss cnt dur r = record {
  size = length-update m.five_minute_requests m.current_second _ ∙ r.size;
  now = r.now;
  some_second = omega (arith, r.some_second, length-update ss 0 (λ n. add_int64 n cnt));
  held = λ k h. ground (
    arith,
    r.size,
    r.now,
    r.some_second,
    r.held k h,
    get_or-update ss 0 k (λ n. add_int64 n cnt) 0,
    get_or-update m.five_minute_requests m.current_second (slot m.current_second k)
        (λ n. add_int64 n cnt) 0,
  );
  cleared = ground (
    arith,
    r.size,
    r.now,
    r.cleared,
    get_or-update m.five_minute_requests m.current_second (slot m.current_second 300)
        (λ n. add_int64 n cnt) 0,
  );
}

-- The slots after a tick, in terms of those before it.
slot-tick :
    (cur k : ℕ)
    → cur ≤ 300
    → k < 300
    → (slot (next_second cur) (suc k) ≡ slot cur k)
      × (next_second (next_second cur) ≡ slot (next_second cur) 300)
      × (next_second cur ≤ 300)
      × (next_second cur ≡ slot cur 300)
      × (slot cur k ≤ 300)
unfolding next_second
slot-tick cur k h hk = ground arith

slot-apart : (cur k : ℕ) → cur ≤ 300 → k < 300 → slot cur 300 ≢ slot cur k
slot-apart cur k h hk = ground arith

slot_now : (cur : ℕ) → slot cur 0 ≡ cur
slot_now cur = ground arith

held_tick :
    (m : Measure) (ss : List ℕ) (k : ℕ)
    → IsRing m ss
    → k < 300
    → let next = next_second m.current_second in
      get_or (set m.five_minute_requests (next_second next) 0) (slot next k) 0 ≡ get_or (0 ∷ ss) k 0
held_tick m ss zero r h =
    let cur = m.current_second in
    let (_, cleared_slot, in_ring, reused, _) = slot-tick cur 0 r.now h in
    ground (
      arith,
      r.cleared,
      cleared_slot,
      in_ring,
      reused,
      slot_now (next_second cur),
      slot-apart (next_second cur) 0 in_ring h,
      get_or-set m.five_minute_requests (next_second (next_second cur)) (slot (next_second cur) 0) 0
          0,
    )
held_tick m ss (suc k) r h =
    let cur = m.current_second in
    let (moved, cleared_slot, in_ring, _, _) = slot-tick cur k r.now (omega arith) in
    ground (
      arith,
      r.held k (omega arith),
      moved,
      cleared_slot,
      in_ring,
      slot-apart (next_second cur) (suc k) in_ring h,
      get_or-set m.five_minute_requests (next_second (next_second cur))
          (slot (next_second cur) (suc k)) 0 0,
    )

pass_second-IsRing : (m : Measure) (ss : List ℕ) → IsRing m ss → IsRing (pass_second m) (0 ∷ ss)
unfolding pass_second
pass_second-IsRing m ss r =
    let next = next_second m.current_second in
    let (_, cleared_slot, in_ring, _, _) = slot-tick m.current_second 0 r.now (omega arith) in
    record {
      size = length-set m.five_minute_requests (next_second next) 0 ∙ r.size;
      now = in_ring;
      some_second = omega arith;
      held = λ k h. held_tick m ss k r h;
      cleared = ground (
        arith,
        cleared_slot,
        get_or-set m.five_minute_requests (next_second next) (slot next 300) 0 0,
      );
    }

pub tick_same :
    (m : Measure) (tm tm_now : ℕ) → (tm_now == tm) ≡ true → tick_tack m tm tm_now ≡ (m, tm)
unfolding tick_tack
tick_same m tm tm_now e = rw e

pub tick_other :
    (m : Measure) (tm tm_now : ℕ)
    → (tm_now == tm) ≡ false
    → tick_tack m tm tm_now ≡ (pass_second m, tm_now)
unfolding tick_tack
tick_other m tm tm_now e = rw e

pub run_nil : (s : Measure × ℕ) → run s [] ≡ s
unfolding run
run_nil s = refl

pub run_added :
    (m : Measure) (tm cnt dur : ℕ) (es : List Event)
    → run (m, tm) (added cnt dur ∷ es) ≡ run (add_measure m cnt dur, tm) es
unfolding run happen
run_added m tm cnt dur es = refl

pub run_ticked :
    (m : Measure) (tm tm_now : ℕ) (es : List Event)
    → run (m, tm) (ticked tm_now ∷ es) ≡ run (tick_tack m tm tm_now) es
unfolding run happen
run_ticked m tm tm_now es = refl

run-IsRing :
    (es : List Event) (m : Measure) (tm : ℕ) (ss : List ℕ)
    → IsRing m ss
    → IsRing (run (m, tm) es).0 (seconds_after ss tm es)
unfolding seconds_after
run-IsRing [] m tm ss r = rw run_nil r
run-IsRing (added cnt dur ∷ es) m tm ss r =
    rw run_added (run-IsRing es (add_measure m cnt dur) tm _ (add_measure-IsRing m ss cnt dur r))
run-IsRing (ticked tm_now ∷ es) m tm ss r = elim (Bool-cases (tm_now == tm)) [
  | inl same ↦ rw (run_ticked, tick_same m tm tm_now same, same) (run-IsRing es m tm ss r)
  | inr other ↦
      rw (run_ticked, tick_other m tm tm_now other, other)
        (run-IsRing es (pass_second m) tm_now (0 ∷ ss) (pass_second-IsRing m ss r))
]

get_or-replicate {ℓ} : {A : Type ℓ} (n i : ℕ) (a : A) → get_or (replicate n a) i a ≡ a
get_or-replicate zero i a = refl
get_or-replicate (suc n) zero a = refl
get_or-replicate (suc n) (suc i) a = get_or-replicate n i a

new_mesure-IsRing : (f : Option (ℕ → ℕ)) → IsRing (new_mesure f) (0 ∷ [])
unfolding new_mesure
new_mesure-IsRing f = record {
  size = refl;
  now = omega arith;
  some_second = omega arith;
  held = λ k h. get_or-replicate 301 (slot 0 k) 0 ∙ sym (get_or-replicate 1 k 0);
  cleared = refl;
}

-- After any history of requests added and seconds seen by the ticker, the ring of a Measure holds,
-- for each of the last 300 seconds, the requests that were added in it (modulo 2^64): the slot of
-- the second k seconds ago, for every k below 300.
pub five_minute_requests_held :
    (f : Option (ℕ → ℕ)) (tm : ℕ) (es : List Event) (k : ℕ)
    → k < 300
    → let m = (run (new_mesure f, tm) es).0 in
      get_or m.five_minute_requests (slot m.current_second k) 0
      ≡ get_or (seconds_after (0 ∷ []) tm es) k 0
five_minute_requests_held f tm es k h =
    (run-IsRing es (new_mesure f) tm (0 ∷ []) (new_mesure-IsRing f)).held k h

-- The loop of String stays below slot 300 once it starts there.
next_slot-lt : (idx : ℕ) → next_slot idx < 300
unfolding next_slot
next_slot-lt idx = ground arith

-- The slot 300 of each ring, overwritten.
abbrev pub overwrite_300 : Measure → ℕ → ℕ → TimeCount → Measure
overwrite_300 m requests duration time_count = record m {
  five_minute_requests = set m.five_minute_requests 300 requests;
  five_minute_duration = set m.five_minute_duration 300 duration;
  five_minute_time_count = set m.five_minute_time_count 300 time_count;
}

get_or-set_300 {ℓ} :
    {A : Type ℓ} (xs : List A) (idx : ℕ) (v d : A)
    → idx < 300
    → get_or (set xs 300 v) idx d ≡ get_or xs idx d
get_or-set_300 xs idx v d h = get_or-set xs 300 idx v d ∙ ground arith

add_slot-overwrite :
    (m : Measure) (idx requests duration : ℕ) (time_count : TimeCount) (t : Totals)
    → idx < 300
    → add_slot (overwrite_300 m requests duration time_count) idx t ≡ add_slot m idx t
unfolding add_slot
add_slot-overwrite m idx requests duration time_count t h = rw (
  get_or-set_300 m.five_minute_duration idx duration 0 h,
  get_or-set_300 m.five_minute_requests idx requests 0 h,
  get_or-set_300 m.five_minute_time_count idx time_count new_time_count h,
)

-- String never reads the last of the 301 slots unless it is the current one: while the current
-- second is below 300, whatever slot 300 of the three rings holds, the five-minute sums that it
-- prints, over any number of rounds, are the same.
pub sum_window-overwrite :
    (rounds : ℕ) (m : Measure) (idx requests duration : ℕ) (time_count : TimeCount) (t : Totals)
    → idx < 300
    → sum_window rounds (overwrite_300 m requests duration time_count) idx t
      ≡ sum_window rounds m idx t
unfolding sum_window
sum_window-overwrite zero m idx requests duration time_count t h = refl
sum_window-overwrite (suc n) m idx requests duration time_count t h =
    rw (add_slot-overwrite m idx requests duration time_count t h)
      (sum_window-overwrite n m (next_slot idx) requests duration time_count _ (next_slot-lt idx))
