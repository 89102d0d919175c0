-- ===== src/Client/Tests.antt =====
-- Clients with a few connections, and the theorems applied to them.
use iip.Prelude.{◌≡◌, ◌<◌, ◌+◌, arith, false, refl, true, [], ◌∷◌, none, some, get_elem?}
use iip.Prelude.Slices.{view}
use iip.Prelude.Dict.{insert, erase}
use iip.Connection.{
  Connection, new_connection, new_channel, place_channel, no_channels, close, close_channel,
  close_channels, close_object, remove_channel,
}
use iip.Client.{
  Client, ClientConfig, new_client, client_new_connection, close_client, is_limited, returns,
  free_connection, get_free_connection, position, take_out, settle, close_connection,
  remove_connection,
}
use iip.Client.Channels.{ClientChannel}
use iip.Client.WellFormed.{IsOpenAt, IsWell}
use iip.Client.Limits.{
  gets_free, dials_new, closes, removes, client_call, client_calls, client_stays-IsWell,
}
use iip.Client.Races.{go_on, overlapping_calls_pass, append_late, closed_connection_returned}
use iip.Client.Closing.{close_client_skips}

abbrev no_config : ClientConfig
no_config = record {
  max_connections = 0;
  max_channels_per_conn = 0;
  channel_packet_queue_len = 0;
  tcp_write_queue_len = 0;
  tcp_connect_timeout = 0;
  tcp_read_buffer_size = 0;
  tcp_write_buffer_size = 0;
  wait_response_timeout = 0;
}

client_stays-IsWell_example : IsWell (
    client_calls
      (new_client no_config)
      (gets_free true ∷ dials_new true ∷ closes 0 none ∷ removes 1 ∷ []))
client_stays-IsWell_example =
    client_stays-IsWell no_config (gets_free true ∷ dials_new true ∷ closes 0 none ∷ removes 1 ∷ [])

abbrev three : Client
unfolding client_calls client_call new_client
three = client_calls (new_client no_config) (dials_new true ∷ dials_new true ∷ dials_new true ∷ [])

-- Four connections of which the first was removed: the array is longer than the slice.
abbrev one_removed : Client
unfolding client_calls client_call new_client
one_removed =
    client_calls (new_client no_config)
      (dials_new true ∷ dials_new true ∷ dials_new true ∷ dials_new true ∷ removes 0 ∷ [])

one_removed-connections : view one_removed.connections ≡ 1 ∷ (2 ∷ (3 ∷ []))
unfolding one_removed client_calls client_call new_client client_new_connection new_connection
    new_channel place_channel remove_connection close_connection close settle take_out position
    close_channels insert close_channel
one_removed-connections = refl

close_client_skips_example :
    (get_elem? (view (close_client one_removed).connections) 0 ≡ some 2)
    × IsOpenAt (close_client one_removed).heap 2
unfolding one_removed
close_client_skips_example =
    close_client_skips one_removed 1 2 3 []
      (client_stays-IsWell no_config
        (dials_new true ∷ dials_new true ∷ dials_new true ∷ dials_new true ∷ removes 0 ∷ []))
      one_removed-connections

-- The first connection of the three, and its channel 0.
abbrev first_connection : Connection
unfolding new_channel place_channel
first_connection = (new_channel (no_channels 0 100) true 0).1

abbrev system_channel : ClientChannel
system_channel = record { internal_channel = some (0, 0); uncompleted = [] }

-- A client that may have one connection, and has none.
abbrev single_config : ClientConfig
single_config = record no_config { max_connections = 1 }

abbrev single : Client
unfolding client_calls new_client
single = client_calls (new_client single_config) []

overlapping_calls_pass_example :
    let conns = first_connection ∷ first_connection ∷ [] in
    (is_limited single ≡ false)
    × ((go_on single conns).connections.size ≡ single.connections.size + 2)
    × ((go_on single conns).config.max_connections < (go_on single conns).connections.size)
unfolding single client_calls new_client
overlapping_calls_pass_example =
    overlapping_calls_pass single (first_connection ∷ first_connection ∷ []) 0
      (client_stays-IsWell single_config []) refl (omega arith)

-- The first connection, closed.
abbrev closed_connection : Connection
unfolding first_connection new_channel place_channel close
closed_connection = close first_connection none

closed-mark : closed_connection.closed_mark ≡ true
unfolding closed_connection first_connection new_channel place_channel close close_channels insert
    close_channel
closed-mark = refl

closed-channels : closed_connection.channels ≡ []
unfolding closed_connection first_connection new_channel place_channel close close_channels insert
    close_channel close_object remove_channel erase
closed-channels = refl

closed_connection_returned_example :
    let late = append_late single first_connection closed_connection in
    (get_free_connection true late ≡ (returns 0, late))
    × (get_elem? late.heap 0 ≡ some closed_connection)
unfolding single client_calls new_client free_connection
closed_connection_returned_example =
    closed_connection_returned true single first_connection closed_connection
      (client_stays-IsWell single_config []) refl closed-mark closed-channels (omega arith)
