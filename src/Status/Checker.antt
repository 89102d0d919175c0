-- ===== src/Status/Checker.antt =====
-- What the two checks have in common: four status bytes, and the laws by which they follow one
-- another. Clients of the checks use these laws alone.
use iip.Prelude.{ℕ, ◌≡◌, ◌≢◌, ◌⊎◌, Option, none, arith}
use iip.Consts.{status_8}
use iip.Status.{StatusError, no_status, check_client_packet_status, check_server_packet_status}

abbrev pub Check : Type 0
Check = ℕ → ℕ → Option StatusError

pub record Checker : Type 0 where
  pub check : Check
  pub whole : ℕ
  pub first : ℕ
  pub middle : ℕ
  pub last : ℕ

module _ (c : Checker) where
  -- No message is under way, or one is.
  abbrev pub IsBetween : ℕ → Type 0
  IsBetween s = (s ≡ no_status) ⊎ ((s ≡ c.whole) ⊎ (s ≡ c.last))

  abbrev pub IsWithin : ℕ → Type 0
  IsWithin s = (s ≡ c.first) ⊎ (s ≡ c.middle)

  pub record IsChecker : Type 0 where
    pub ends :
        (prev s : ℕ)
        → IsBetween prev
        → s ≢ status_8
        → c.check prev s ≡ none
        → (s ≡ c.whole) ⊎ (s ≡ c.first)
    pub goes_on :
        (prev s : ℕ)
        → IsWithin prev
        → s ≢ status_8
        → c.check prev s ≡ none
        → (s ≡ c.middle) ⊎ (s ≡ c.last)
    pub may_start :
        (prev : ℕ) → IsBetween prev → (c.check prev c.whole ≡ none) × (c.check prev c.first ≡ none)
    pub may_go_on :
        (prev : ℕ) → IsWithin prev → (c.check prev c.middle ≡ none) × (c.check prev c.last ≡ none)

abbrev pub client_checker : Checker
client_checker = record {
  check = check_client_packet_status;
  whole = 1;
  first = 0;
  middle = 2;
  last = 3;
}

abbrev pub server_checker : Checker
server_checker = record {
  check = check_server_packet_status;
  whole = 5;
  first = 4;
  middle = 6;
  last = 7;
}

pub client_checker-IsChecker : IsChecker client_checker
unfolding check_client_packet_status
client_checker-IsChecker = record {
  ends = λ prev s b n e. ground arith;
  goes_on = λ prev s b n e. ground arith;
  may_start = λ prev b. ground arith;
  may_go_on = λ prev b. ground arith;
}

pub server_checker-IsChecker : IsChecker server_checker
unfolding check_server_packet_status
server_checker-IsChecker = record {
  ends = λ prev s b n e. ground arith;
  goes_on = λ prev s b n e. ground arith;
  may_start = λ prev b. ground arith;
  may_go_on = λ prev b. ground arith;
}
