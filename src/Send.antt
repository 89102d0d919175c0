-- ===== src/Send.antt =====
-- protocol.go: how a packet gets from a channel to the wire (packetToSendQueue, sendPacket,
-- SendPacket, WritePacket, writeLoop).
-- A send is one atomic step: sendLock and the queue allow no more. Where the write queue is full,
-- whether writeLoop makes room within the second is decided by whether its steps come first.
pub mod Chunks
pub mod Messages
pub mod Oversize
pub mod Fate
pub mod Writing
pub mod Wire
mod Tests
use iip.Prelude.{
  ℕ, zero, suc, ◌+◌, ◌-◌, ◌/◌, Bool, true, false, ◌||◌, List, [], ◌∷◌, ◌++◌, Option, none, some,
  ltb, leb, ◌==◌, if◌then◌else◌, length, take, drop, get_elem?,
}
use iip.Consts.{
  role_client, role_server, max_packet_size, status_c0, status_c1, status_c2, status_c3, status_s4,
  status_s5, status_s6, status_s7, status_8,
}
use iip.Packet.{Packet, Error, Result, ok, err, create_net_packet}
use iip.Statis.{Count, no_count, add_count, update}
use iip.Connection.{
  Connection, Channel, Reason, connect_is_closed, channel_is_invalid, protocol_error, queue_timeout,
  bad_packet, write_fail, write_not_complete, close, close_channel,
}

unfoldable pub packet_to_send_queue : Connection → Packet → Option Reason × Connection
packet_to_send_queue m pkt =
    if ltb (length m.tcp_write_queue) m.write_queue_len
    then (none, record m { tcp_write_queue = m.tcp_write_queue ++ (pkt ∷ []) })
    else (some queue_timeout, m)

-- The three Adds that follow each other: at the channel, its connection, and its owner.
unfoldable pub count_all : Connection → ℕ → List ℕ → Count → Connection
count_all m addr path cnt = record m {
  heap = update m.heap addr (λ c. record c { count = add_count c.count cnt });
  count = add_count m.count cnt;
  owner_counts = m.owner_counts ++ ((path, cnt) ∷ []);
}

abbrev pub chunk_size : ℕ → ℕ
chunk_size remain = if ltb remain max_packet_size then remain else max_packet_size

-- The status of a chunk: of the last one, and of any other.
unfoldable pub last_chunk_status : ℕ → Bool → Option ℕ
last_chunk_status role first_send =
    if role == role_client
    then some (if first_send then status_c1 else status_c3)
    else if role == role_server
    then some (if first_send then status_s5 else status_s7)
    else none

unfoldable pub next_chunk_status : ℕ → Bool → Option ℕ
next_chunk_status role first_send =
    if role == role_client
    then some (if first_send then status_c0 else status_c2)
    else if role == role_server
    then some (if first_send then status_s4 else status_s6)
    else none

unfoldable pub chunk_status : ℕ → Bool → ℕ → Option ℕ
unfolding last_chunk_status next_chunk_status
chunk_status role first_send remain =
    if chunk_size remain == remain
    then last_chunk_status role first_send
    else if ltb (chunk_size remain) remain
    then next_chunk_status role first_send
    else none

abbrev pub with_status : Packet → ℕ → Packet
with_status p s = record p { status = s }

-- The chunk that one round of the loop builds; none is the error "protocol error".
unfoldable pub make_chunk : ℕ → ℕ → ℕ → Packet → ℕ → Bool → Option Packet
make_chunk role id addr pkt remain first_send = elim (chunk_status role first_send remain) [
  | none ↦ none
  | some s ↦ some (record pkt {
    status = s;
    channel_id = id;
    payload = take (chunk_size remain) (drop (length pkt.payload - remain) pkt.payload);
    dont_chunk = false;
    channel = some addr;
  })
]

-- The rest of one round, once the chunk is built: what goes into the queue is the packet itself.
unfoldable pub send_chunk : Connection → ℕ → Packet → Connection
send_chunk m addr pkt =
    count_all (packet_to_send_queue m pkt).1 addr pkt.path (record no_count { packets_sent = 1 })

-- The loop over what remains of the packet's data.
unfoldable pub send_chunks : ℕ → Connection → ℕ → ℕ → Packet → ℕ → Bool → Option Reason × Connection
send_chunks zero m id addr pkt remain first_send = (none, m)
send_chunks (suc rounds) m id addr pkt remain first_send =
    let size = chunk_size remain in
    let sent = send_chunk m addr pkt in
    let rest = send_chunks rounds sent id addr pkt (remain - size) false in
    elim (make_chunk m.role id addr pkt remain first_send) [
      | none ↦ (some protocol_error, m)
      | some chunk ↦ if leb (remain - size) 0 then (none, sent) else rest
    ]

-- Enough rounds for a packet's data.
abbrev pub chunk_rounds : Packet → ℕ
chunk_rounds pkt = length pkt.payload / max_packet_size + 1

abbrev pub whole_status : ℕ → Packet → Packet
whole_status role pkt =
    if role == role_client
    then with_status pkt status_c1
    else if role == role_server
    then with_status pkt status_s5
    else pkt

-- The branch of sendPacket for a packet that is sent as it is.
unfoldable pub send_whole : Connection → ℕ → Packet → Connection
send_whole m addr pkt =
    count_all (packet_to_send_queue m (whole_status m.role pkt)).1 addr pkt.path
      (record no_count { packets_sent = 1; whole_packet_sent = 1 })

abbrev pub finish_chunks : ℕ → Packet → Option Reason × Connection → Option Reason × Connection
finish_chunks addr pkt (some e, m) = (some e, m)
finish_chunks addr pkt (none, m) =
    (none, count_all m addr pkt.path (record no_count { whole_packet_sent = 1 }))

-- (*Channel).sendPacket of the channel with this id at this address.
unfoldable pub send_packet_locked : Connection → ℕ → ℕ → Packet → Option Reason × Connection
send_packet_locked m id addr pkt =
    if m.closed_mark
    then (some connect_is_closed, m)
    else if pkt.status == status_8
    then (none, (packet_to_send_queue m pkt).1)
    else if leb (length pkt.payload) max_packet_size || pkt.dont_chunk
    then (none, send_whole m addr pkt)
    else finish_chunks addr pkt
        (send_chunks (chunk_rounds pkt) m id addr pkt (length pkt.payload) true)

abbrev pub close_on_error : ℕ → Option Reason × Connection → Option Reason × Connection
close_on_error addr (none, m) = (none, m)
close_on_error addr (some e, m) = (some e, close (close_channel m addr (some e)) (some e))

-- (*Channel).SendPacket: a channel that has an error sends nothing; a failed send closes the channel
-- and the connection.
unfoldable pub send_from : Connection → ℕ → Packet → Channel → Option Reason × Connection
send_from m addr pkt c = elim c.err [
  | some e ↦ (some channel_is_invalid, m)
  | none ↦ close_on_error addr (send_packet_locked m c.id addr pkt)
]

unfoldable pub send_packet : Connection → ℕ → Packet → Option Reason × Connection
send_packet m addr pkt = elim (get_elem? m.heap addr) [
  | none ↦ (some channel_is_invalid, m)
  | some c ↦ send_from m addr pkt c
]

-- The tcp connection's Write: none is an error, some n says how many of the bytes were written.
abbrev pub Write : Type 0
Write = List ℕ → Option ℕ

abbrev pub count_written : Connection → Packet → ℕ → Connection
count_written m pkt n = elim pkt.channel [
  | none ↦ m
  | some addr ↦ count_all m addr pkt.path (record no_count { bytes_sent = n })
]

-- WritePacket: its error, the bytes that went out, and the connection with its counts.
unfoldable pub write_packet : Write → Connection → Packet → Option Reason × List ℕ × Connection
write_packet write m pkt = elim (create_net_packet pkt) [
  | err e ↦ (some (bad_packet e), [], m)
  | ok bytes ↦ elim (write bytes) [
    | none ↦ (some write_fail, [], m)
    | some n ↦
        if n == length bytes
        then (none, bytes, count_written m pkt n)
        else (some write_not_complete, take n bytes, m)
  ]
]

-- writeLoop, for the packets that wait: the bytes it writes, and the connection it leaves.
unfoldable pub write_loop : Write → Connection → List Packet → List ℕ × Connection
write_loop write m [] = ([], m)
write_loop write m (pkt ∷ queue) =
    let taken = record m { tcp_write_queue = queue } in
    let (failed, bytes, written) = write_packet write taken pkt in
    let (more, after) = write_loop write written queue in
    if m.closed_mark
    then ([], taken)
    else elim failed [ some e ↦ (bytes, close written (some e)) | none ↦ (bytes ++ more, after) ]
