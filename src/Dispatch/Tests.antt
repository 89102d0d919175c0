-- ===== src/Dispatch/Tests.antt =====
-- Requests for the reserved paths on a server connection, and the theorems applied to them.
use iip.Prelude.{ℕ, ◌≡◌, refl, true, false, List, [], ◌∷◌, none, some, inr, get_elem?, arith}
use iip.Prelude.Dict.{lookup, keys, has}
use iip.Consts.{path_new_channel, path_delete_channel, role_server}
use iip.Connection.{
  Connection, channel_is_invalid, closed_by_command, new_channel, place_channel,
  make_new_channel_id, no_channels, fresh_channel, new_connection,
}
use iip.Connection.Invariant.{IsWell}
use iip.Connection.History.{new_connection-IsWell}
use iip.Send.{send_packet}
use iip.Dispatch.{Url, Parsed, Json, responds, parse_path, handle_request}
use iip.Dispatch.Commands.{IsFor, new_channel_answered, delete_channel_unanswered}

-- No path has a query; the JSON of a channel id is the id.
abbrev plain_url : Url Unit
plain_url = record { parse = λ path. some (path, tt); no_query = tt; get = λ query key. [] }

abbrev plain_json : Json
plain_json = record {
  new_channel_data = λ id. id ∷ [];
  delete_channel_data = 1 ∷ [];
  handle_fail_data = λ text. text;
}

abbrev request_for : List ℕ → Parsed Unit
request_for path = record {
  packet = record {
    type = 0;
    status = 1;
    path = path;
    channel_id = 0;
    payload = 123 ∷ 125 ∷ [];
    dont_chunk = true;
    channel = some 0;
  };
  params = none;
}

abbrev accepted : Connection
accepted = (place_channel 0 (no_channels role_server 100)).1

accepted-made : new_connection role_server 100 ≡ some accepted
unfolding new_connection new_channel
accepted-made = refl

accepted-IsWell : IsWell accepted
accepted-IsWell = (new_connection-IsWell role_server 100 accepted accepted-made).0

accepted-room : accepted.max_channel_id ≡ 0
unfolding place_channel
accepted-room = refl

new-IsFor : IsFor plain_url plain_json [] path_new_channel (request_for path_new_channel) 0
unfolding parse_path
new-IsFor = (47, _, refl, refl, refl)

delete-IsFor : IsFor plain_url plain_json [] path_delete_channel (request_for path_delete_channel) 0
unfolding parse_path
delete-IsFor = (47, _, refl, refl, refl)

new_channel_answered_example :
    let (handled, conn') =
      handle_request plain_url plain_json [] 0 accepted (request_for path_new_channel) true in
    let id = (make_new_channel_id accepted 0).0 in
    (handled ≡ responds (id ∷ []))
    × (has id (keys accepted.channels) ≡ false)
    × (lookup id conn'.channels ≡ some (new_channel accepted false 0).0)
    × IsWell conn'
new_channel_answered_example =
    new_channel_answered plain_url plain_json [] 0 accepted (request_for path_new_channel) true 0
      new-IsFor accepted-IsWell (inr (omega (arith, accepted-room)))

accepted-open : get_elem? accepted.heap 0 ≡ some (fresh_channel 0)
unfolding place_channel
accepted-open = refl

delete_channel_unanswered_example :
    let (handled, conn') =
      handle_request plain_url plain_json [] 0 accepted (request_for path_delete_channel) true in
    (handled ≡ responds (1 ∷ []))
    × (get_elem? conn'.heap 0
        ≡ some (record (fresh_channel 0) { closed_mark = true; err = some closed_by_command }))
    × (lookup 0 conn'.channels ≡ none)
    × (send_packet conn' 0 (request_for path_delete_channel).packet
        ≡ (some channel_is_invalid, conn'))
delete_channel_unanswered_example =
    delete_channel_unanswered plain_url plain_json [] 0 accepted (request_for path_delete_channel)
      true 0 (fresh_channel 0) (request_for path_delete_channel).packet delete-IsFor accepted-open
      refl
