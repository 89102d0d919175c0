-- ===== src/ReadLoop/Tests.antt =====
-- A connection that receives a request in two packets, and the theorems applied to it.
use iip.Prelude.{ℕ, ◌≡◌, refl, false, List, [], ◌∷◌, none, some, All, arith}
use iip.Packet.{Packet}
use iip.Prelude.Dict.{lookup, insert}
use iip.Statis.{update}
use iip.Status.{check_client_packet_status, check_server_packet_status}
use iip.Status.Messages.{follows}
use iip.Status.Checker.{Check, client_checker, server_checker}
use iip.Connection.{Connection, no_channels, place_channel, get_channel, close, read_data_fail}
use iip.ReadLoop.{server_read_loop, client_read_loop, deliver}
use iip.ReadLoop.Delivery.{
  HoldsMessages, AreInOrder, server_queues_hold_messages, client_queues_hold_messages,
}
use iip.ReadLoop.Streams.{AreAccepted, handed_over, wire, server_read_loop-wire}

-- A connection with the system channel alone, at address 0.
abbrev started : ℕ → Connection
started role = (place_channel 0 (no_channels role 100)).1

abbrev part : ℕ → List ℕ → Packet
part status payload = record {
  type = 0;
  status = status;
  path = 47 ∷ 97 ∷ [];
  channel_id = 0;
  payload = payload;
  dont_chunk = false;
  channel = none;
}

abbrev two_parts : List (Packet × ℕ)
two_parts = (part 0 (1 ∷ 2 ∷ []), 0) ∷ (part 3 (3 ∷ []), 0) ∷ []

started-AreInOrder : (check : Check) (role : ℕ) → AreInOrder check (started role)
unfolding place_channel follows
started-AreInOrder check role = (record { deliverable = tt; in_order = refl; latest = refl }, tt)

two_parts-AreAccepted : AreAccepted check_client_packet_status deliver (started 4) two_parts
unfolding place_channel deliver get_channel check_client_packet_status insert lookup update
two_parts-AreAccepted = (
  record {
    path_fits = omega arith;
    clean = ground arith;
    some_data = omega arith;
    data_fits = omega arith;
    id_fits = omega arith;
    goes_on = omega arith;
    found = refl;
    follows_on = refl;
  },
  (
    record {
      path_fits = omega arith;
      clean = ground arith;
      some_data = omega arith;
      data_fits = omega arith;
      id_fits = omega arith;
      goes_on = omega arith;
      found = refl;
      follows_on = refl;
    },
    tt,
  ),
)

started-live : (started 4).closed_mark ≡ false
unfolding place_channel
started-live = refl

server_queues_hold_messages_example :
    All (HoldsMessages client_checker) (server_read_loop (started 4) (wire two_parts)).heap
server_queues_hold_messages_example =
    server_queues_hold_messages (started 4) (wire two_parts)
      (started-AreInOrder check_client_packet_status 4)

client_queues_hold_messages_example :
    All (HoldsMessages server_checker) (client_read_loop (started 0) (wire two_parts)).heap
client_queues_hold_messages_example =
    client_queues_hold_messages (started 0) (wire two_parts)
      (started-AreInOrder check_server_packet_status 0)

server_read_loop-wire_example :
    server_read_loop (started 4) (wire two_parts)
    ≡ close
        (handed_over check_client_packet_status deliver (started 4) two_parts)
        (some read_data_fail)
server_read_loop-wire_example =
    server_read_loop-wire (started 4) two_parts started-live two_parts-AreAccepted
