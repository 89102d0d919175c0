-- ===== src/Balance/TaskChannel/Tests.antt =====
-- The client of a backend with two connections, and the theorem applied to it.
use iip.Prelude.{ℕ, true, [], ◌∷◌, some}
use iip.Client.{Client, ClientConfig, new_client}
use iip.Client.Channels.{ClientChannel}
use iip.Client.Limits.{dials_new, client_calls}
use iip.Balance.TaskChannel.{TaskClient}

abbrev plain_config : ClientConfig
plain_config = record {
  max_connections = 2;
  max_channels_per_conn = 3;
  channel_packet_queue_len = 1000;
  tcp_write_queue_len = 1000;
  tcp_connect_timeout = 3;
  tcp_read_buffer_size = 1024;
  tcp_write_buffer_size = 1024;
  wait_response_timeout = 5;
}

abbrev dialled_twice : Client
unfolding client_calls
dialled_twice = client_calls (new_client plain_config) (dials_new true ∷ dials_new true ∷ [])

-- The channel that the connection at the address keeps: the second that it opened.
abbrev kept_by : ℕ → ClientChannel
kept_by conn_addr = record { internal_channel = some (conn_addr, 1); uncompleted = [] }

abbrev two_connections : TaskClient
unfolding dialled_twice
two_connections = record {
  client = dialled_twice;
  conn_index = 1;
  lbl_client_channels = (0, kept_by 0) ∷ (1, kept_by 1) ∷ [];
}
