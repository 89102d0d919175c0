-- ===== src/Send/Wire.antt =====
-- What writeLoop puts on the wire of packets that can be sent, from SendPacket on.
use iip.Prelude.{
  ℕ, ◌≤◌, ◌<◌, ◌≡◌, ◌≢◌, refl, sym, ap, ◌∙◌, Bool, true, false, ◌||◌, List, [], ◌∷◌, ◌++◌,
  append-nil, Option, none, some, ltb, leb, ◌==◌, if◌then◌else◌, if_true, if_false, All, arith,
  length, take, get_elem?,
}
use mathlib.Core.Path.{subst}
use iip.Consts.{max_packet_size, max_path_len, role_client, status_8, status_c1}
use iip.Packet.{Packet, Result, ok, err, create_net_packet, net_bytes}
use iip.Statis.{no_count, add_count}
use iip.Connection.{
  Connection, Channel, Reason, bad_packet, write_fail, write_not_complete, channel_is_invalid,
  queue_timeout,
}
use iip.Send.{
  packet_to_send_queue, count_all, count_written, with_status, send_whole, send_packet_locked,
  close_on_error, send_from, send_packet, Write, write_packet, write_loop,
}
use iip.Send.Writing.{write_loop-round}

-- A tcp connection that takes all it is given.
abbrev pub IsComplete : Write → Type 0
IsComplete write = (bytes : List ℕ) → write bytes ≡ some (length bytes)

abbrev pub IsSendable : Packet → Type 0
IsSendable p = create_net_packet p ≡ ok (net_bytes p)

abbrev pub bytes_of : List Packet → List ℕ
bytes_of [] = []
bytes_of (p ∷ ps) = net_bytes p ++ bytes_of ps

write_packet-whole :
    (write : Write) (m : Connection) (p : Packet)
    → IsComplete write
    → IsSendable p
    → write_packet write m p ≡ (none, net_bytes p, count_written m p (length (net_bytes p)))
unfolding write_packet
write_packet-whole write m p complete sendable =
    ap
      (λ (r : Result (List ℕ)). elim r [
        | err f ↦ (some (bad_packet f), [], m)
        | ok bytes ↦ elim (write bytes) [
          | none ↦ (some write_fail, [], m)
          | some n ↦
              if n == length bytes
              then (none, bytes, count_written m p n)
              else (some write_not_complete, take n bytes, m)
        ]
      ])
      sendable
    ∙ ap
        (λ (o : Option ℕ). elim o [
          | none ↦ (some write_fail, [], m)
          | some n ↦
              if n == length (net_bytes p)
              then (none, net_bytes p, count_written m p n)
              else (some write_not_complete, take n (net_bytes p), m)
        ])
        (complete (net_bytes p))
    ∙ if_true (length (net_bytes p) == length (net_bytes p)) _ _ (ground arith)

abbrev HasMark : Bool → Connection → Type 0
HasMark b m = m.closed_mark ≡ b

count_written-live :
    (m : Connection) (p : Packet) (n : ℕ) → (count_written m p n).closed_mark ≡ m.closed_mark
unfolding count_all
count_written-live m p n = cases p.channel
  where
    cases :
        (at : Option ℕ)
        → HasMark m.closed_mark (elim at [
          | none ↦ m
          | some addr ↦ count_all m addr p.path (record no_count { bytes_sent = n })
        ])
    cases none = refl
    cases (some addr) = refl

-- writeLoop, on a live connection whose tcp connection takes all it is given, with any number of
-- packets waiting that CreateNetPacket accepts: it writes exactly their bytes, in the order in which
-- they entered the queue, and closes nothing.
pub write_loop-bytes_of :
    (write : Write) (queue : List Packet) (m : Connection)
    → IsComplete write
    → m.closed_mark ≡ false
    → All IsSendable queue
    → ((write_loop write m queue).0 ≡ bytes_of queue)
      × ((write_loop write m queue).1.closed_mark ≡ false)
unfolding write_loop
write_loop-bytes_of write [] m complete live sendable = (refl, live)
write_loop-bytes_of write (p ∷ queue) m complete live sendable =
    let taken = record m { tcp_write_queue = queue } in
    let counted = count_written taken p (length (net_bytes p)) in
    let (same, still_live) =
      write_loop-bytes_of write queue counted complete
        (count_written-live taken p (length (net_bytes p)) ∙ live) sendable.1 in
    subst (λ (r : List ℕ × Connection). (r.0 ≡ bytes_of (p ∷ queue)) × (r.1.closed_mark ≡ false))
      (sym (
        write_loop-round write m p queue _ live
          (write_packet-whole write taken p complete sendable.0)))
      (ap (λ t. net_bytes p ++ t) same, still_live)

abbrev pub IsWhole : Packet → Type 0
IsWhole p =
    (length p.path ≤ max_path_len)
    × (0 < length p.path)
    × (length p.payload ≤ max_packet_size)
    × (p.status ≢ status_8)

whole-IsSendable : (p : Packet) → IsWhole p → IsSendable p
unfolding create_net_packet
whole-IsSendable p w = ground (arith, w)

-- The queue and the counts after sendPacket in a client.
abbrev pub sent_from_client : Connection → ℕ → Packet → Connection
sent_from_client m addr pkt =
    count_all (packet_to_send_queue m (with_status pkt status_c1)).1 addr pkt.path
      (record no_count { packets_sent = 1; whole_packet_sent = 1 })

-- A packet that is not split: it is small enough, or says so itself.
pub send_packet-unsplit :
    (m : Connection) (addr : ℕ) (c : Channel) (pkt : Packet)
    → m.role ≡ role_client
    → m.closed_mark ≡ false
    → get_elem? m.heap addr ≡ some c
    → c.err ≡ none
    → (leb (length pkt.payload) max_packet_size || pkt.dont_chunk) ≡ true
    → pkt.status ≢ status_8
    → send_packet m addr pkt ≡ (none, sent_from_client m addr pkt)
unfolding send_packet send_from send_packet_locked send_whole
send_packet-unsplit m addr c pkt client live found no_error fits goes_on =
    ap
      (λ (o : Option Channel). elim o [
        | none ↦ (some channel_is_invalid, m)
        | some d ↦ send_from m addr pkt d
      ])
      found
    ∙ ap
        (λ (o : Option Reason). elim o [
          | some e ↦ (some channel_is_invalid, m)
          | none ↦ close_on_error addr (send_packet_locked m c.id addr pkt)
        ])
        no_error
    ∙ ap (close_on_error addr) (
        if_false m.closed_mark _ _ live
        ∙ if_false (pkt.status == status_8) _ _ (ground (arith, goes_on))
        ∙ if_true (leb (length pkt.payload) max_packet_size || pkt.dont_chunk) _ _ fits)
    ∙ ap
        (λ (p : Packet). (
          none,
          count_all (packet_to_send_queue m p).1 addr pkt.path
              (record no_count { packets_sent = 1; whole_packet_sent = 1 }),
        ))
        (if_true (m.role == role_client) _ _ (ground (arith, client)))

send_packet-client :
    (m : Connection) (addr : ℕ) (c : Channel) (pkt : Packet)
    → m.role ≡ role_client
    → m.closed_mark ≡ false
    → get_elem? m.heap addr ≡ some c
    → c.err ≡ none
    → length pkt.payload ≤ max_packet_size
    → pkt.status ≢ status_8
    → send_packet m addr pkt ≡ (none, sent_from_client m addr pkt)
send_packet-client m addr c pkt client live found no_error small goes_on =
    let fits : (leb (length pkt.payload) max_packet_size || pkt.dont_chunk) ≡ true =
      ground (arith, small) in
    send_packet-unsplit m addr c pkt client live found no_error fits goes_on

-- SendPacket of a request of at most 16 MiB on an open channel of a live client connection whose
-- write queue stays full: the request is dropped, while SendPacket reports no error and counts the
-- packet as sent, at the connection and at the client.
pub send_packet-drops :
    (m : Connection) (addr : ℕ) (c : Channel) (pkt : Packet)
    → m.role ≡ role_client
    → m.closed_mark ≡ false
    → get_elem? m.heap addr ≡ some c
    → c.err ≡ none
    → length pkt.payload ≤ max_packet_size
    → pkt.status ≢ status_8
    → m.write_queue_len ≤ length m.tcp_write_queue
    → ((send_packet m addr pkt).0 ≡ none)
      × ((send_packet m addr pkt).1.tcp_write_queue ≡ m.tcp_write_queue)
      × ((send_packet m addr pkt).1.count
          ≡ add_count m.count (record no_count { packets_sent = 1; whole_packet_sent = 1 }))
      × ((send_packet m addr pkt).1.owner_counts
          ≡ m.owner_counts
            ++ ((pkt.path, record no_count { packets_sent = 1; whole_packet_sent = 1 }) ∷ []))
unfolding count_all packet_to_send_queue
send_packet-drops m addr c pkt client live found no_error small goes_on full =
    let is_full : ltb (length m.tcp_write_queue) m.write_queue_len ≡ false = ground (arith, full) in
    let dropped : packet_to_send_queue m (with_status pkt status_c1) ≡ (some queue_timeout, m) =
      if_false (ltb (length m.tcp_write_queue) m.write_queue_len) _ _ is_full in
    rw (send_packet-client m addr c pkt client live found no_error small goes_on, dropped)
      (refl, refl, refl, refl)

-- SendPacket of a request of at most 16 MiB whose status is not 8 and whose path has 1 to 2048 bytes,
-- on a channel without an error of a client's connection that is not closed, has an empty write queue
-- and has room in it, and then writeLoop on a tcp connection that takes all it is given: the bytes on
-- the wire are CreateNetPacket's for the request with status 1, and the connection stays open.
pub send_packet-wire :
    (write : Write) (m : Connection) (addr : ℕ) (c : Channel) (pkt : Packet)
    → IsComplete write
    → m.role ≡ role_client
    → m.closed_mark ≡ false
    → get_elem? m.heap addr ≡ some c
    → c.err ≡ none
    → IsWhole pkt
    → m.tcp_write_queue ≡ []
    → 0 < m.write_queue_len
    → ((write_loop write (send_packet m addr pkt).1 (send_packet m addr pkt).1.tcp_write_queue).0
        ≡ net_bytes (with_status pkt status_c1))
      × ((write_loop write
            (send_packet m addr pkt).1
            (send_packet m addr pkt).1.tcp_write_queue).1.closed_mark
          ≡ false)
unfolding count_all packet_to_send_queue
send_packet-wire write m addr c pkt complete client live found no_error w empty room =
    let has_room : ltb (length m.tcp_write_queue) m.write_queue_len ≡ true =
      rw empty (ground (arith, room)) in
    let pushed : packet_to_send_queue m (with_status pkt status_c1) ≡ (
      none,
      record m { tcp_write_queue = m.tcp_write_queue ++ (with_status pkt status_c1 ∷ []) },
    ) =
      if_true (ltb (length m.tcp_write_queue) m.write_queue_len) _ _ has_room in
    let sendable = whole-IsSendable (with_status pkt status_c1) (w.0, w.1, w.2, (omega arith)) in
    let counted =
      count_all m addr pkt.path (record no_count { packets_sent = 1; whole_packet_sent = 1 }) in
    let (same, still_live) =
      write_loop-bytes_of write (with_status pkt status_c1 ∷ [])
        (record counted { tcp_write_queue = with_status pkt status_c1 ∷ [] }) complete live
        (sendable, tt) in
    rw (send_packet-client m addr c pkt client live found no_error w.2 w.3, pushed, empty)
      (same ∙ append-nil (net_bytes (with_status pkt status_c1)), still_live)
