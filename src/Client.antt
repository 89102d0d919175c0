-- ===== src/Client.antt =====
-- client.go: a client and its connections (Client), with the channels it sends requests on in Channels.
-- Connections are objects on a heap, and a *Connection is an address. The client's connections are a
-- slice: removals shift its array, which Client.Close goes on to read. An append makes a new array
-- here; the code may reuse the old one, which no one reads then.
-- A connection that closes itself takes itself out of its client (Connection.Close, protocol.go), so
-- `settle` is what every step of a connection does to the client.
-- An int that is 0 or less is 0 here, and the tcp settings of a connection are left out.
pub mod Channels
pub mod WellFormed
pub mod Limits
pub mod Races
pub mod Windows
pub mod Heads
pub mod Closing
pub mod Requests
mod Tests
use iip.Prelude.{
  ℕ, zero, suc, ◌+◌, ◌-◌, ◌*◌, ◌%◌, ◌^◌, Bool, true, false, not, ◌&&◌, ◌||◌, List, [], ◌∷◌, ◌++◌,
  Option, none, some, ltb, leb, ◌==◌, if◌then◌else◌, length, get_elem?,
}
use iip.Prelude.Slices.{Slice, whole, view, cut}
use iip.Consts.{role_client, packet_type_request, path_new_channel}
use iip.Packet.{Packet}
use iip.Statis.{update}
use iip.Connection.{
  Connection, Channel, Reason, removed_by_client, new_connection, close, get_channel, new_channel,
}
use iip.Send.{send_packet}
use iip.Server.{validate_path}
use iip.Context.{new_default_request}

-- Durations are numbers of nanoseconds.
pub record ClientConfig : Type 0 where
  pub max_connections : ℕ
  pub max_channels_per_conn : ℕ
  pub channel_packet_queue_len : ℕ
  pub tcp_write_queue_len : ℕ
  pub tcp_connect_timeout : ℕ
  pub tcp_read_buffer_size : ℕ
  pub tcp_write_buffer_size : ℕ
  pub wait_response_timeout : ℕ

abbrev pub or_default : ℕ → ℕ → ℕ
or_default given default = if leb given 0 then default else given

pub record Client : Type 0 where
  pub config : ClientConfig
  pub is_tls : Bool
  pub heap : List Connection
  pub connections : Slice ℕ
  pub conn_count : ℕ

-- NewClient: channel 0 is added to the channels of a connection.
unfoldable pub new_client : ClientConfig → Client
new_client config = record {
  config = record {
    max_connections = or_default config.max_connections 1000;
    max_channels_per_conn = or_default config.max_channels_per_conn 10 + 1;
    channel_packet_queue_len = or_default config.channel_packet_queue_len 100;
    tcp_write_queue_len = or_default config.tcp_write_queue_len 100;
    tcp_connect_timeout = or_default config.tcp_connect_timeout (3 * 10 ^ 9);
    tcp_read_buffer_size = or_default config.tcp_read_buffer_size (16 * 1024);
    tcp_write_buffer_size = or_default config.tcp_write_buffer_size (16 * 1024);
    wait_response_timeout = or_default config.wait_response_timeout (5 * 10 ^ 9);
  };
  is_tls = false;
  heap = [];
  connections = whole [];
  conn_count = 0;
}

-- NewClientTLS takes the configuration as it is.
unfoldable pub new_client_tls : ClientConfig → Client
new_client_tls config = record {
  config = config;
  is_tls = true;
  heap = [];
  connections = whole [];
  conn_count = 0;
}

pub data ClientError : Type 0 where
  connections_limited : ClientError
  dial_failed : ClientError
  invalid_role : ClientError
  channel_is_nil : ClientError
  channel_invalid : Reason → ClientError
  invalid_path : ClientError
  data_is_nil : ClientError
  send_failed : Reason → ClientError
  request_timeout : ClientError
  unknown_error : ClientError
  refused_channel : ClientError

pub data Result (A : Type 0) : Type 0 where
  returns : A → Result A
  fails : ClientError → Result A
  panics : Result A

-- The first test of newConnection, under a read lock of its own.
abbrev pub is_limited : Client → Bool
is_limited m = leb m.config.max_connections m.connections.size

-- What newConnection does with a connection that NewConnection made, step by step: the object is
-- there, and its loops run; it is appended, under a lock of its own; it is counted.
abbrev pub make_connection : Client → Connection → Client
make_connection m conn = record m { heap = m.heap ++ (conn ∷ []) }

abbrev pub append_connection : Client → ℕ → Client
append_connection m addr = record m { connections = whole (view m.connections ++ (addr ∷ [])) }

abbrev pub count_connection : Client → Client
count_connection m = record m { conn_count = (m.conn_count + 1) % 2 ^ 32 }

-- From NewConnection on.
abbrev pub join_connection : Client → Option Connection → Result ℕ × Client
join_connection m none = (fails invalid_role, m)
join_connection m (some conn) = (
  returns (length m.heap),
  count_connection (append_connection (make_connection m conn) (length m.heap)),
)

-- (*Client).newConnection, where nothing else happens to the client between its steps; `dials` says
-- whether the server could be reached.
unfoldable pub client_new_connection : Bool → Client → Result ℕ × Client
unfolding new_connection
client_new_connection dials m =
    if is_limited m
    then (fails connections_limited, m)
    else if dials
    then join_connection m (new_connection role_client m.config.tcp_write_queue_len)
    else (fails dial_failed, m)

-- The index at which the loop of removeConnection finds the connection.
unfoldable pub position : ℕ → List ℕ → Option ℕ
position addr [] = none
position addr (v ∷ vs) =
    let later = position addr vs in
    if v == addr then some 0 else elim later [ none ↦ none | some i ↦ some (i + 1) ]

-- removeConnection under its lock, once the loop is over.
abbrev pub without_connection : Client → Option ℕ → Client
without_connection m none = m
without_connection m (some i) = record m {
  conn_count = (m.conn_count + (2 ^ 32 - 1)) % 2 ^ 32;
  connections = cut i m.connections;
}

unfoldable pub take_out : Client → ℕ → Client
unfolding position
take_out m addr = without_connection m (position addr (view m.connections))

-- The connection at the address has become another one in a step of its own.
unfoldable pub settle : Client → ℕ → Connection → Client
unfolding update take_out
settle m addr conn =
    let stepped = record m { heap = update m.heap addr (λ old. conn) } in
    if conn.closed_mark then take_out stepped addr else stepped

-- (*Connection).Close of a connection of the client, and removeConnection as a whole.
unfoldable pub close_connection : Client → ℕ → Option Reason → Client
unfolding close settle
close_connection m addr err = elim (get_elem? m.heap addr) [
  | none ↦ m
  | some conn ↦ settle m addr (close conn err)
]

unfoldable pub remove_connection : Client → ℕ → Client
unfolding position take_out close_connection
remove_connection m addr = elim (position addr (view m.connections)) [
  | none ↦ m
  | some i ↦ close_connection (take_out m addr) addr (some removed_by_client)
]

-- (*Client).Close: a loop over the array of the connections, from an index on.
unfoldable pub close_from : ℕ → ℕ → Client → Client
unfolding close_connection
close_from zero i m = m
close_from (suc rounds) i m = elim (get_elem? m.connections.items i) [
  | none ↦ m
  | some addr ↦ close_from rounds (i + 1) (close_connection m addr none)
]

unfoldable pub close_client : Client → Client
unfolding close_from
close_client m = close_from m.connections.size 0 m

-- getFreeConnection's loop.
unfoldable pub free_connection : ℕ → List Connection → List ℕ → Option ℕ
free_connection max heap [] = none
free_connection max heap (addr ∷ addrs) =
    let later = free_connection max heap addrs in
    elim (get_elem? heap addr) [
      | none ↦ later
      | some conn ↦ if ltb (length conn.channels) max then some addr else later
    ]

unfoldable pub get_free_connection : Bool → Client → Result ℕ × Client
unfolding free_connection client_new_connection
get_free_connection dials m =
    elim (free_connection m.config.max_channels_per_conn m.heap (view m.connections)) [
      | none ↦ client_new_connection dials m
      | some addr ↦ (returns addr, m)
    ]
