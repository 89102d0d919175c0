-- ===== src/Connection.antt =====
-- protocol.go: a connection and its channels (Connection, Channel, newChannel, removeChannel,
-- makeNewChannelId, getChannel, Channel.Close, Connection.Close).
-- Channels are objects that outlive their place in the map `Channels`, so they stand on a heap:
-- a *Channel is an address, and the map leads from ids to addresses.
-- Every call below is one atomic step; the goroutines of a connection interleave such steps.
pub mod Ids
pub mod Invariant
pub mod Closing
pub mod History
pub mod Reuse
mod Tests
use iip.Prelude.{
  ℕ, zero, suc, ◌+◌, ◌-◌, ◌%◌, ◌^◌, Bool, true, false, ◌||◌, List, [], ◌∷◌, ◌++◌, Option, none,
  some, ltb, ◌==◌, if◌then◌else◌, length, get_elem?, get_or,
}
use iip.Prelude.Dict.{lookup, insert, erase, put, remove}
use iip.Consts.{role_client, role_server}
use iip.Packet.{Packet, Error}
use iip.Status.{StatusError, no_status}
use iip.Statis.{Count, no_count, update}

-- Why a channel or a connection was closed.
pub data Reason : Type 0 where
  unknown : Reason
  closed_by_peer : Reason
  connection_is_closed : Reason
  request_not_found : Reason
  read_data_fail : Reason
  invalid_channel_id : ℕ → Reason
  bad_status : StatusError → Reason
  data_len_over_max : Reason
  invalid_data_len : ℕ → Reason
  bad_packet : Error → Reason
  write_fail : Reason
  write_not_complete : Reason
  send_fail : Reason
  connect_is_closed : Reason
  channel_is_invalid : Reason
  protocol_error : Reason
  queue_timeout : Reason
  removed_by_client : Reason
  closed_by_command : Reason

-- A Channel, less its creation time, its lock and its context.
pub record Channel : Type 0 where
  pub id : ℕ
  pub packet_status : ℕ
  pub received_queue : List Packet
  pub closed_mark : Bool
  pub err : Option Reason
  pub count : Count

-- A Connection. `owner_counts` are the calls of AddCount that it makes at its Client or Server,
-- oldest first, each with the path. channelCount is an int32: its bit pattern, below 2 ^ 32.
pub record Connection : Type 0 where
  pub role : ℕ
  pub heap : List Channel
  pub channels : List (ℕ × ℕ)
  pub channel_count : ℕ
  pub max_channel_id : ℕ
  pub free_channel_id : List ℕ
  pub tcp_write_queue : List Packet
  pub write_queue_len : ℕ
  pub closed_mark : Bool
  pub err : Option Reason
  pub count : Count
  pub owner_counts : List (List ℕ × Count)

-- newChannel's literal.
abbrev pub fresh_channel : ℕ → Channel
fresh_channel id = record {
  id = id;
  packet_status = no_status;
  received_queue = [];
  closed_mark = false;
  err = none;
  count = no_count;
}

abbrev pub max_uint32 : ℕ
max_uint32 = 2 ^ 32 - 1

-- Its branches, by the free ids. The range over the map of free ids visits some key first:
-- `choice` says which.
unfoldable pub take_id : Connection → ℕ → List ℕ → ℕ × Connection
take_id m choice (k ∷ ks) =
    let id = get_or (k ∷ ks) (choice % length (k ∷ ks)) k in
    (id, record m { free_channel_id = remove id m.free_channel_id })
take_id m choice [] =
    if ltb m.max_channel_id max_uint32
    then (m.max_channel_id + 1, record m { max_channel_id = m.max_channel_id + 1 })
    else (0, m)

unfoldable pub make_new_channel_id : Connection → ℕ → ℕ × Connection
make_new_channel_id m choice = take_id m choice m.free_channel_id

-- What newChannel does once the id is known; it returns the address of the channel.
unfoldable pub place_channel : ℕ → Connection → ℕ × Connection
place_channel id m = (
  length m.heap,
  record m {
    heap = m.heap ++ (fresh_channel id ∷ []);
    channels = insert id (length m.heap) m.channels;
    channel_count = (m.channel_count + 1) % 2 ^ 32;
  },
)

unfoldable pub new_channel : Connection → Bool → ℕ → ℕ × Connection
new_channel m sys choice =
    if sys
    then place_channel 0 m
    else place_channel (make_new_channel_id m choice).0 (make_new_channel_id m choice).1

unfoldable pub get_channel : Connection → ℕ → Option ℕ
get_channel m channel_id = lookup channel_id m.channels

-- removeChannel of the channel with this id.
unfoldable pub remove_channel : Connection → ℕ → Connection
remove_channel m id = record m {
  channels = erase id m.channels;
  channel_count = (m.channel_count + (2 ^ 32 - 1)) % 2 ^ 32;
  free_channel_id = put id m.free_channel_id;
}

abbrev pub or_unknown : Option Reason → Reason
or_unknown none = unknown
or_unknown (some e) = e

-- (*Channel).Close of an object on the heap: only the first call has an effect.
unfoldable pub close_object : Connection → ℕ → Option Reason → Channel → Connection
unfolding remove_channel
close_object m addr err c =
    if c.closed_mark
    then m
    else (let m' = remove_channel m c.id in
        record m' {
          heap =
              update m'.heap addr
                (λ d. record d { closed_mark = true; err = some (or_unknown err) });
        })

unfoldable pub close_channel : Connection → ℕ → Option Reason → Connection
unfolding close_object
close_channel m addr err = elim (get_elem? m.heap addr) [
  | none ↦ m
  | some c ↦ close_object m addr err c
]

-- The loop of Connection.Close over the channels in the map.
unfoldable pub close_channels : Connection → List (ℕ × ℕ) → Connection
close_channels m [] = m
close_channels m ((id, addr) ∷ rest) =
    close_channels (close_channel m addr (some connection_is_closed)) rest

abbrev pub mark_closed : Connection → Option Reason → Connection
mark_closed m err = record m { closed_mark = true; err = some (or_unknown err) }

-- (*Connection).Close, less the calls that take the connection out of its Client or Server.
unfoldable pub close : Connection → Option Reason → Connection
close m err =
    if m.closed_mark
    then m
    else record (close_channels (mark_closed m err) m.channels) { tcp_write_queue = [] }

-- NewConnection's literal.
abbrev pub no_channels : ℕ → ℕ → Connection
no_channels role write_queue_len = record {
  role = role;
  heap = [];
  channels = [];
  channel_count = 0;
  max_channel_id = 0;
  free_channel_id = [];
  tcp_write_queue = [];
  write_queue_len = write_queue_len;
  closed_mark = false;
  err = none;
  count = no_count;
  owner_counts = [];
}

-- NewConnection: none for any other role. The system channel is made first, with id 0.
unfoldable pub new_connection : ℕ → ℕ → Option Connection
new_connection role write_queue_len =
    if role == role_client || role == role_server
    then some (new_channel (no_channels role write_queue_len) true 0).1
    else none
