-- ===== src/Server/Listening.antt =====
-- server.go: the connections of a server (NewServer, acceptConn, removeConn, Serve, Stop).
-- A connection stands in the map under its remote address, a text, and on a heap with its socket.
-- Accept is a parameter: what it gives, call by call. An int that is 0 or less is 0 here.
pub mod Entries
pub mod Limits
pub mod Stopping
mod Tests
use iip.Prelude.{
  ℕ, Bool, true, false, List, [], ◌∷◌, ◌++◌, Option, none, some, leb, ◌==◌, if◌then◌else◌, length,
  get_elem?,
}
use iip.Prelude.Texts.{find, store, delete}
use iip.Statis.{update}
use iip.Consts.{role_server}
use iip.Connection.{Connection, Reason, new_connection, close}

pub record ServerConfig : Type 0 where
  pub max_connections : ℕ
  pub max_channels_per_conn : ℕ
  pub channel_packet_queue_len : ℕ
  pub tcp_write_queue_len : ℕ
  pub tcp_read_buffer_size : ℕ
  pub tcp_write_buffer_size : ℕ

-- A connection that was accepted: its address on the far side, and whether its socket is open.
pub record Accepted : Type 0 where
  pub remote_addr : List ℕ
  pub conn : Connection
  pub socket_open : Bool

-- What of a Server the accepting goroutine and Stop use. `notify_closed` is closeNotify.
pub record Listening : Type 0 where
  pub config : ServerConfig
  pub heap : List Accepted
  pub connections : List (List ℕ × ℕ)
  pub notify_closed : Bool
  pub listener_open : Bool

abbrev pub or_default : ℕ → ℕ → ℕ
or_default given default = if leb given 0 then default else given

-- NewServer's configuration, and the state of Serve before its loop.
unfoldable pub new_server : ServerConfig → Listening
new_server config = record {
  config = record {
    max_connections = or_default config.max_connections 1000;
    max_channels_per_conn = or_default config.max_channels_per_conn 10;
    channel_packet_queue_len = or_default config.channel_packet_queue_len 100;
    tcp_write_queue_len = or_default config.tcp_write_queue_len 100;
    tcp_read_buffer_size = or_default config.tcp_read_buffer_size 16384;
    tcp_write_buffer_size = or_default config.tcp_write_buffer_size 16384;
  };
  heap = [];
  connections = [];
  notify_closed = false;
  listener_open = true;
}

-- What a call of Accept gives.
pub data Arrival : Type 0 where
  temporary_error : Arrival
  listen_error : Arrival
  arrives : List ℕ → Arrival

pub data Acceptance : Type 0 where
  accepted : ℕ → Acceptance
  accept_failed : Acceptance
  still_waiting : Acceptance

-- The connection from NewConnection on; none is its error.
abbrev pub admit : List ℕ → Listening → Option Connection → Acceptance × Listening
admit addr m none = (accept_failed, m)
admit addr m (some conn) = (
  accepted (length m.heap),
  record m {
    heap = m.heap ++ (record { remote_addr = addr; conn = conn; socket_open = true } ∷ []);
    connections = store addr (length m.heap) m.connections;
  },
)

-- (*Server).acceptConn over what Accept gives: it goes on after a temporary error and after a
-- connection that is one too many.
unfoldable pub accept_conn : Listening → List Arrival → Acceptance × Listening
unfolding store new_connection
accept_conn m [] = (still_waiting, m)
accept_conn m (temporary_error ∷ more) = accept_conn m more
accept_conn m (listen_error ∷ more) = (accept_failed, m)
accept_conn m (arrives addr ∷ more) =
    let later = accept_conn m more in
    if leb m.config.max_connections (length m.connections)
    then later
    else admit addr m (new_connection role_server m.config.tcp_write_queue_len)

unfoldable pub remove_conn : List ℕ → Listening → Listening
unfolding delete
remove_conn addr m = record m { connections = delete addr m.connections }

abbrev pub shut : Option Reason → Accepted → Accepted
shut err a = record a { conn = close a.conn err; socket_open = false }

-- (*Connection).Close of a connection of the server, the object at this place on the heap: the first
-- call takes its remote address out of the map, closes its channels, and closes its socket at last.
unfoldable pub close_accepted : ℕ → Option Reason → Listening → Listening
unfolding remove_conn close update
close_accepted i err m = elim (get_elem? m.heap i) [
  | none ↦ m
  | some a ↦
      if a.conn.closed_mark
      then m
      else record (remove_conn a.remote_addr m) { heap = update m.heap i (shut err) }
]

-- Stop's loop over the map closes the sockets of the connections there.
abbrev pub close_socket : Accepted → Accepted
close_socket a = record a { socket_open = false }

unfoldable pub close_sockets : List (List ℕ × ℕ) → List Accepted → List Accepted
unfolding update
close_sockets [] heap = heap
close_sockets ((addr, i) ∷ rest) heap = close_sockets rest (update heap i close_socket)

-- (*Server).Stop; none is the panic of closing closeNotify again.
unfoldable pub stop : Listening → Option Listening
unfolding close_sockets
stop m =
    if m.notify_closed
    then none
    else some (record m {
      notify_closed = true;
      listener_open = false;
      heap = close_sockets m.connections m.heap;
      connections = [];
    })

-- The goroutine of Serve: it goes on, has returned, or has brought the program down.
pub data Serving : Type 0 where
  goes_on : Listening → Serving
  returned : Listening → Serving
  crashed : Serving

abbrev pub stopped_as : Option Listening → Serving
stopped_as none = crashed
stopped_as (some m) = returned m

-- A round from the moment that acceptConn returns.
unfoldable pub after_accept : Acceptance × Listening → Serving
unfolding stop
after_accept (accepted i, m) = goes_on m
after_accept (still_waiting, m) = goes_on m
after_accept (accept_failed, m) = stopped_as (stop m)

unfoldable pub serve_round : Listening → List Arrival → Serving
unfolding after_accept accept_conn
serve_round m arrivals =
    if m.notify_closed then returned m else after_accept (accept_conn m arrivals)
