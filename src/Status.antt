-- ===== src/Status.antt =====
-- protocol.go: which status byte may follow which on one channel (CheckClientPacketStatus,
-- CheckServerPacketStatus and their four tests).
pub mod Checker
pub mod Messages
mod Tests
use iip.Prelude.{ℕ, Bool, ◌&&◌, ◌||◌, not, Option, none, some, ◌==◌, if◌then◌else◌}
use iip.Consts.{
  status_c0, status_c1, status_c2, status_c3, status_s4, status_s5, status_s6, status_s7, status_8,
}

unfoldable pub is_client_status_completed : ℕ → Bool
is_client_status_completed status = status == status_c1 || status == status_c3

unfoldable pub is_client_status_uncompleted : ℕ → Bool
is_client_status_uncompleted status = status == status_c0 || status == status_c2

unfoldable pub is_server_status_completed : ℕ → Bool
is_server_status_completed status = status == status_s5 || status == status_s7

unfoldable pub is_server_status_uncompleted : ℕ → Bool
is_server_status_uncompleted status = status == status_s4 || status == status_s6

-- The two messages of the checks, with the numbers printed in them.
pub data StatusError : Type 0 where
  invalid_protocol : ℕ → ℕ → StatusError
  invalid_status : ℕ → StatusError

-- packetStatus before any packet was received.
abbrev pub no_status : ℕ
no_status = 255

-- none is Go's nil error.
unfoldable pub check_client_packet_status : ℕ → ℕ → Option StatusError
unfolding is_client_status_completed is_client_status_uncompleted
check_client_packet_status prev current =
    if current == status_c0 || current == status_c1
    then (if not (prev == no_status) && not (is_client_status_completed prev)
        then some (invalid_protocol prev current)
        else none)
    else if current == status_c2 || current == status_c3
    then (if not (is_client_status_uncompleted prev)
        then some (invalid_protocol prev current)
        else none)
    else if current == status_8
    then none
    else some (invalid_status current)

unfoldable pub check_server_packet_status : ℕ → ℕ → Option StatusError
unfolding is_server_status_completed is_server_status_uncompleted
check_server_packet_status prev current =
    if current == status_s4 || current == status_s5
    then (if not (prev == no_status) && not (is_server_status_completed prev)
        then some (invalid_protocol prev current)
        else none)
    else if current == status_s6 || current == status_s7
    then (if not (is_server_status_uncompleted prev)
        then some (invalid_protocol prev current)
        else none)
    else if current == status_8
    then none
    else some (invalid_status current)
