-- ===== src/Status/Tests.antt =====
-- Concrete sequences of statuses, and the theorems applied to them.
use iip.Prelude.{ℕ, ◌≡◌, refl, true, List, [], ◌∷◌, some}
use iip.Status.{
  no_status, check_client_packet_status, check_server_packet_status, invalid_protocol,
  invalid_status,
}
use iip.Status.Messages.{follows, whole, chunked, messages_follow_both}

abbrev two_requests : List ℕ
two_requests = 1 ∷ 0 ∷ 2 ∷ 2 ∷ 3 ∷ 0 ∷ []

abbrev two_responses : List ℕ
two_responses = 4 ∷ 7 ∷ 5 ∷ []

two_requests_pass : follows check_client_packet_status no_status two_requests ≡ true
unfolding follows check_client_packet_status
two_requests_pass = refl

two_responses_pass : follows check_server_packet_status no_status two_responses ≡ true
unfolding follows check_server_packet_status
two_responses_pass = refl

middle_first : check_client_packet_status no_status 2 ≡ some (invalid_protocol 255 2)
unfolding check_client_packet_status
middle_first = refl

a_response : check_client_packet_status no_status 5 ≡ some (invalid_status 5)
unfolding check_client_packet_status
a_response = refl

messages_follow_both_example :
    (follows check_client_packet_status no_status two_requests ≡ true)
    × (follows check_server_packet_status no_status (5 ∷ 4 ∷ 6 ∷ 6 ∷ 7 ∷ 4 ∷ []) ≡ true)
messages_follow_both_example = messages_follow_both (whole ∷ chunked 2 ∷ []) (some 0)
