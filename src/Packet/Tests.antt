-- ===== src/Packet/Tests.antt =====
-- Concrete packets: the one of protocol_test.go among them, and the theorems applied to it.
use iip.Prelude.{ℕ, ◌≡◌, ◌⊎◌, refl, false, List, [], ◌∷◌, ◌++◌, none, length, arith}
use iip.Consts.{codes}
use iip.Packet.{Packet, ok, err, read_error, net_bytes, create_net_packet, read_packet}
use iip.Packet.Bytes.{put_uint32, uint32, read_byte, read_full, read_slice}
use iip.Packet.RoundTrip.{received, read_packet-create_net_packet}
use iip.Packet.Limits.{IsSendable, IsRefused, create_net_packet_cases, read_packet_truncated}

abbrev test_packet : Packet
test_packet = record {
  type = 0;
  status = 8;
  path = codes "/testpath";
  channel_id = 1234;
  payload = codes "test data";
  dont_chunk = false;
  channel = none;
}

test_bytes : create_net_packet test_packet ≡ ok (net_bytes test_packet)
unfolding create_net_packet
test_bytes = refl

-- TestFNCreateNetPacket.
test_read : read_packet (net_bytes test_packet) ≡ ok (received test_packet)
unfolding read_packet net_bytes put_uint32 uint32 read_byte read_full read_slice
test_read = refl

read_packet-create_net_packet_example :
    read_packet (net_bytes test_packet ++ (7 ∷ [])) ≡ ok (received test_packet)
read_packet-create_net_packet_example =
    read_packet-create_net_packet test_packet (net_bytes test_packet) (7 ∷ []) test_bytes
      (omega arith) (omega arith)

abbrev short_stream : List ℕ
short_stream = 1 ∷ 47 ∷ 0 ∷ 0 ∷ 0 ∷ 0 ∷ 5 ∷ 0 ∷ 0 ∷ 0 ∷ 1 ∷ 9 ∷ 3 ∷ []

abbrev short_packet : Packet
short_packet = record {
  type = 4;
  status = 1;
  path = 47 ∷ [];
  channel_id = 5;
  payload = 9 ∷ [];
  dont_chunk = false;
  channel = none;
}

short_read : read_packet short_stream ≡ ok short_packet
unfolding read_packet uint32 read_byte read_full read_slice
short_read = refl

create_net_packet_cases_example :
    (IsSendable test_packet
      × (create_net_packet test_packet ≡ ok (net_bytes test_packet))
      × (length (net_bytes test_packet) ≡ 28))
    ⊎ ((¬ IsSendable test_packet) × IsRefused test_packet)
create_net_packet_cases_example = create_net_packet_cases test_packet

read_packet_truncated_example : read_packet (8 ∷ 47 ∷ []) ≡ err read_error
unfolding net_bytes
read_packet_truncated_example =
    read_packet_truncated test_packet (net_bytes test_packet) (8 ∷ 47 ∷ []) _ _ test_bytes
      (omega arith) (omega arith) refl
