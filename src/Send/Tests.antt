-- ===== src/Send/Tests.antt =====
-- Sends on a new connection, and the theorems applied to them.
use iip.Prelude.{
  ℕ, ◌≡◌, ◌+◌, ◌<◌, inr, refl, false, List, [], ◌∷◌, ◌++◌, none, some, arith, length, replicate,
  length-replicate,
}
use iip.Consts.{max_packet_size}
use iip.Packet.{Packet, net_bytes, create_net_packet}
use iip.Statis.{no_count, add_count}
use iip.Connection.{Connection, fresh_channel, no_channels, place_channel}
use iip.Send.{Write, with_status, send_packet, write_loop}
use iip.Send.Fate.{ClosesUnwritten}
use iip.Send.Writing.{oversize_closes}
use iip.Send.Wire.{IsSendable, send_packet-drops, send_packet-wire}

abbrev writes_all : Write
writes_all bytes = some (length bytes)

-- The system channel alone, at address 0; the write queue holds `room` packets.
abbrev started : ℕ → ℕ → Connection
started role room = (place_channel 0 (no_channels role room)).1

abbrev holding : List ℕ → Packet
holding payload = record {
  type = 0;
  status = 0;
  path = 47 ∷ 97 ∷ [];
  channel_id = 0;
  payload = payload;
  dont_chunk = false;
  channel = some 0;
}

size_of_copies : (n : ℕ) → max_packet_size < n → max_packet_size < length {A = ℕ} (replicate n 7)
size_of_copies n h = omega (arith, h, length-replicate {A = ℕ} n 7)

-- One byte more than 16 MiB.
unfoldable large : List ℕ
large = replicate (max_packet_size + 1) 7

large-size : max_packet_size < length large
unfolding large
large-size = size_of_copies (max_packet_size + 1) (omega arith)

oversize_closes_example :
    ((send_packet (started 4 100) 0 (holding large)).0 ≡ none)
    × ClosesUnwritten writes_all (send_packet (started 4 100) 0 (holding large)).1
unfolding place_channel
oversize_closes_example =
    oversize_closes writes_all (started 4 100) 0 (fresh_channel 0) (holding large) (inr refl) refl
      refl (omega arith) refl refl large-size (omega arith)

sendable : IsSendable (holding (7 ∷ []))
unfolding create_net_packet
sendable = refl

abbrev full : Connection
full = record (started 0 1) { tcp_write_queue = holding (1 ∷ []) ∷ [] }

send_packet-drops_example :
    ((send_packet full 0 (holding (7 ∷ []))).0 ≡ none)
    × ((send_packet full 0 (holding (7 ∷ []))).1.tcp_write_queue ≡ full.tcp_write_queue)
    × ((send_packet full 0 (holding (7 ∷ []))).1.count
        ≡ add_count full.count (record no_count { packets_sent = 1; whole_packet_sent = 1 }))
    × ((send_packet full 0 (holding (7 ∷ []))).1.owner_counts
        ≡ full.owner_counts
          ++ ((47 ∷ 97 ∷ [], record no_count { packets_sent = 1; whole_packet_sent = 1 }) ∷ []))
unfolding place_channel
send_packet-drops_example =
    send_packet-drops full 0 (fresh_channel 0) (holding (7 ∷ [])) refl refl refl refl (omega arith)
      (omega arith) (omega arith)

abbrev request : Packet
request = holding (7 ∷ [])

send_packet-wire_example :
    ((write_loop writes_all
        (send_packet (started 0 100) 0 request).1
        (send_packet (started 0 100) 0 request).1.tcp_write_queue).0
      ≡ net_bytes (with_status request 1))
    × ((write_loop writes_all
          (send_packet (started 0 100) 0 request).1
          (send_packet (started 0 100) 0 request).1.tcp_write_queue).1.closed_mark
        ≡ false)
unfolding place_channel
send_packet-wire_example =
    send_packet-wire writes_all (started 0 100) 0 (fresh_channel 0) request (λ bytes. refl) refl
      refl refl refl (omega arith, omega arith, omega arith, omega arith) refl (omega arith)
