-- ===== src/ReadLoop.antt =====
-- protocol.go: clientReadLoop and serverReadLoop, the goroutines that take packets off a tcp
-- connection and hand them to its channels.
-- The input is the list of the bytes that arrive before the connection ends. A queue is the list
-- of the packets put into it: the loop waits where it is full, which changes no packet and no
-- order.
pub mod Reading
pub mod Delivery
pub mod Ending
pub mod Streams
mod Tests
use iip.Prelude.{
  ℕ, zero, suc, ◌+◌, ◌-◌, ◌%◌, ◌^◌, Bool, true, false, ◌||◌, List, [], ◌∷◌, ◌++◌, Option, none,
  some, ltb, ◌==◌, if◌then◌else◌, length, get_elem?, get_or,
}
use iip.Consts.{
  role_client, role_server, max_packet_size, packet_read_buf_size, packet_type_response, status_8,
}
use iip.Packet.{Packet}
use iip.Packet.Bytes.{uint32, read_byte, read_slice, read_full}
use iip.Status.{StatusError, check_client_packet_status, check_server_packet_status}
use iip.Status.Checker.{Check}
use iip.Statis.{Count, no_count, add_count, update}
use iip.Connection.{
  Connection, Channel, Reason, closed_by_peer, read_data_fail, invalid_channel_id, bad_status,
  data_len_over_max, invalid_data_len, get_channel, close,
}

-- What one round of a loop takes from the input, before it touches any state but the map of
-- channels: a packet for the channel at an address, or the reason for which it closes the
-- connection.
pub data Frame : Type 0 where
  packet : ℕ → Packet → List ℕ → Frame
  refused : Reason → Frame

abbrev or_refused {ℓ} : {A : Type ℓ} → Option A → Reason → (A → Frame) → Frame
or_refused none e k = refused e
or_refused (some a) e k = k a

abbrev refuse_if : Bool → Reason → Frame → Frame
refuse_if true e k = refused e
refuse_if false e k = k

abbrev refuse_status : Option StatusError → Frame → Frame
refuse_status (some e) k = refused (bad_status e)
refuse_status none k = k

-- From the length of the data on.
unfoldable pub read_data : ℕ → List ℕ → ℕ → ℕ → List ℕ → Frame
read_data status path channel_id addr input =
    or_refused (read_full 4 input) read_data_fail λ (bts_data_len, input₁).
      let data_len = uint32 bts_data_len in
      refuse_if (ltb max_packet_size data_len) data_len_over_max (
        refuse_if (data_len == 0) (invalid_data_len data_len) (
          or_refused (read_full data_len input₁) read_data_fail λ (payload, input₂).
            packet addr
              (record {
                type = packet_type_response;
                status = status;
                path = path;
                channel_id = channel_id;
                payload = payload;
                dont_chunk = false;
                channel = some addr;
              })
              input₂))

-- The status that the channel at an address received last.
abbrev pub packet_status_at : Connection → ℕ → ℕ
packet_status_at m addr = elim (get_elem? m.heap addr) [ none ↦ 0 | some c ↦ c.packet_status ]

-- From the channel's id on.
unfoldable pub read_channel : Check → Connection → ℕ → List ℕ → List ℕ → Frame
unfolding read_data
read_channel check m status path input =
    or_refused (read_full 4 input) read_data_fail λ (bts_channel_id, input₁).
      let channel_id = uint32 bts_channel_id in
      or_refused (get_channel m channel_id) (invalid_channel_id channel_id) λ addr.
        refuse_status (check (packet_status_at m addr) status)
          (read_data status path channel_id addr input₁)

unfoldable pub read_frame : Check → Connection → List ℕ → Frame
unfolding read_channel
read_frame check m input = or_refused (read_byte input) read_data_fail λ (status, input₁).
    refuse_if (status == status_8) closed_by_peer (
      or_refused (read_slice packet_read_buf_size input₁) read_data_fail
        λ (path, input₂). read_channel check m status path input₂)

-- The Count of one packet received.
abbrev pub received_count : Packet → Count
received_count pkt = record no_count {
  packet_received = 1;
  bytes_received = length pkt.payload + 1 + length pkt.path + 1 + 4 + 4;
}

-- What both loops do to the channel: its status, its counter and its queue.
abbrev pub receive : Packet → Channel → Channel
receive pkt c = record c {
  packet_status = pkt.status;
  received_queue = c.received_queue ++ (pkt ∷ []);
  count = add_count c.count (received_count pkt);
}

unfoldable pub deliver : Connection → ℕ → Packet → Connection
deliver m addr pkt = record m { heap = update m.heap addr (receive pkt) }

-- clientReadLoop counts at the connection and at its Client too, or, for a connection of another
-- role, at its Server under the packet's path.
unfoldable pub client_deliver : Connection → ℕ → Packet → Connection
unfolding deliver
client_deliver m addr pkt = record (deliver m addr pkt) {
  count = add_count m.count (received_count pkt);
  owner_counts = m.owner_counts ++ ((pkt.path, received_count pkt) ∷ []);
}

-- The loops, for at most `rounds` packets; each takes ten bytes or more.
unfoldable pub read_loop :
    Check → (Connection → ℕ → Packet → Connection) → ℕ → Connection → List ℕ → Connection
read_loop check hand_over zero m input = m
read_loop check hand_over (suc rounds) m input =
    let frame = read_frame check m input in
    let stop = λ (e : Reason). close m (some e) in
    let more = λ (addr : ℕ) (pkt : Packet) (rest : List ℕ).
      read_loop check hand_over rounds (hand_over m addr pkt) rest in
    if m.closed_mark
    then m
    else (elim frame [ packet addr pkt rest ↦ more addr pkt rest | refused e ↦ stop e ])

-- clientReadLoop checks what a server sends.
unfoldable pub client_read_loop : Connection → List ℕ → Connection
client_read_loop m input =
    read_loop check_server_packet_status client_deliver (length input + 1) m input

-- serverReadLoop checks what a client sends. It also stops if an error is set on the connection: Close
-- alone sets one, behind the mark, so the test of the mark has stopped the loop already.
unfoldable pub server_read_loop : Connection → List ℕ → Connection
server_read_loop m input = read_loop check_client_packet_status deliver (length input + 1) m input
