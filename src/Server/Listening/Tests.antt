-- ===== src/Server/Listening/Tests.antt =====
-- A server that accepts, removes and stops, and the theorems applied to it.
use iip.Prelude.{◌≡◌, refl, [], ◌∷◌, none, some}
use iip.Server.Listening.{
  ServerConfig, Listening, new_server, temporary_error, listen_error, arrives, accept_conn, stop,
  returned, crashed, serve_round, after_accept,
}
use iip.Server.Listening.Limits.{
  IsServing, server_calls, accepts, closes, removes, stops, server_stays-IsServing,
}
use iip.Server.Listening.Stopping.{stop_while_accepting}

abbrev one_connection : ServerConfig
one_connection = record {
  max_connections = 1;
  max_channels_per_conn = 0;
  channel_packet_queue_len = 0;
  tcp_write_queue_len = 0;
  tcp_read_buffer_size = 0;
  tcp_write_buffer_size = 0;
}

server_stays-IsServing_example : IsServing (
    server_calls (new_server one_connection) (
      accepts (temporary_error ∷ arrives (1 ∷ []) ∷ [])
      ∷ accepts (arrives (2 ∷ []) ∷ [])
      ∷ closes 0 none
      ∷ removes (1 ∷ [])
      ∷ stops
      ∷ []))
server_stays-IsServing_example = server_stays-IsServing one_connection (
    accepts (temporary_error ∷ arrives (1 ∷ []) ∷ [])
    ∷ accepts (arrives (2 ∷ []) ∷ [])
    ∷ closes 0 none
    ∷ removes (1 ∷ [])
    ∷ stops
    ∷ [])

stop_while_accepting_example :
    (m' : Listening) × (stop (new_server one_connection) ≡ some m')
    × (m'.connections ≡ [])
    × (serve_round m' [] ≡ returned m')
    × (after_accept (accept_conn m' (listen_error ∷ [])) ≡ crashed)
unfolding new_server
stop_while_accepting_example = stop_while_accepting (new_server one_connection) [] refl
