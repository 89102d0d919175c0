-- ===== src/Send/Writing.antt =====
-- What writeLoop writes of the packets that wait in the queue.
use iip.Prelude.{
  ℕ, ◌<◌, ◌≡◌, ◌≢◌, ◌⊎◌, inl, inr, refl, sym, ap, ◌∙◌, true, false, List, [], ◌∷◌, ◌++◌, Option,
  none, some, ◌==◌, if◌then◌else◌, if_false, length, take, get_elem?,
}
use mathlib.Core.Path.{subst}
use iip.Consts.{max_packet_size, role_client, role_server, status_8}
use iip.Packet.{Packet, Error, Result, ok, err, create_net_packet}
use iip.Status.Checker.{client_checker, server_checker}
use iip.Connection.{Connection, Channel, Reason, bad_packet, write_fail, write_not_complete, close}
use iip.ReadLoop.Ending.{close-keeps}
use iip.Send.{count_written, send_packet, Write, write_packet, write_loop}
use iip.Send.Chunks.{client-IsSpokenBy, server-IsSpokenBy}
use iip.Send.Oversize.{Starts}
use iip.Send.Fate.{send_packet-Sent, large_refused, ClosesUnwritten}

write_packet-refused :
    (write : Write) (m : Connection) (p : Packet) (e : Error)
    → create_net_packet p ≡ err e
    → write_packet write m p ≡ (some (bad_packet e), [], m)
unfolding write_packet
write_packet-refused write m p e h =
    ap
      (λ (r : Result (List ℕ)). elim r [
        | err f ↦ (some (bad_packet f), [], m)
        | ok bytes ↦ elim (write bytes) [
          | none ↦ (some write_fail, [], m)
          | some n ↦
              if n == length bytes
              then (none, bytes, count_written m p n)
              else (some write_not_complete, take n bytes, m)
        ]
      ])
      h

-- The outcome of one round of writeLoop.
abbrev pub Outcome : Type 0
Outcome = Option Reason × List ℕ × Connection

abbrev pub after_round : Outcome → (Connection → List ℕ × Connection) → List ℕ × Connection
after_round (some e, bytes, m) next = (bytes, close m (some e))
after_round (none, bytes, m) next = let (more, after) = next m in (bytes ++ more, after)

pub write_loop-round :
    (write : Write) (m : Connection) (p : Packet) (queue : List Packet) (o : Outcome)
    → m.closed_mark ≡ false
    → write_packet write (record m { tcp_write_queue = queue }) p ≡ o
    → write_loop write m (p ∷ queue) ≡ after_round o (λ n. write_loop write n queue)
unfolding write_loop
write_loop-round write m p queue o live e =
    if_false m.closed_mark _ _ live
    ∙ by_outcome (write_packet write (record m { tcp_write_queue = queue }) p) o e
  where
    by_outcome :
        (w o' : Outcome)
        → w ≡ o'
        → elim w.0 [
          | some f ↦ (w.1, close w.2 (some f))
          | none ↦ (w.1 ++ (write_loop write w.2 queue).0, (write_loop write w.2 queue).1)
        ]
          ≡ after_round o' (λ n. write_loop write n queue)
    by_outcome (none, bs, n) o' h =
        subst
          (λ (v : Outcome).
            after_round (none, bs, n) (λ k. write_loop write k queue)
            ≡ after_round v (λ k. write_loop write k queue))
          h refl
    by_outcome (some f, bs, n) o' h =
        subst
          (λ (v : Outcome).
            after_round (some f, bs, n) (λ k. write_loop write k queue)
            ≡ after_round v (λ k. write_loop write k queue))
          h refl

large_head-closes :
    (write : Write) (pkt : Packet) (role : ℕ) (m : Connection)
    → max_packet_size < length pkt.payload
    → Starts pkt role m
    → ClosesUnwritten write m
large_head-closes write pkt role m large s =
    let (e, refused) =
      large_refused s.head
        (subst (λ (d : List ℕ). max_packet_size < length d) (sym s.same_data) large) in
    let taken = record m { tcp_write_queue = s.others } in
    subst
      (λ (q : List Packet).
        ((write_loop write m q).0 ≡ []) × ((write_loop write m q).1.closed_mark ≡ true))
      (sym s.queue)
      (subst (λ (r : List ℕ × Connection). (r.0 ≡ []) × (r.1.closed_mark ≡ true))
        (sym (
          write_loop-round write m s.head s.others _ s.live
            (write_packet-refused write taken s.head e refused)))
        (refl, (close-keeps taken (some (bad_packet e))).0))

-- A packet of more than 16 MiB, sent on an open channel of a live connection of either role whose
-- write queue is empty and has room: SendPacket reports no error, whether the packet may be
-- split or not; but none of its bytes is ever written, and writeLoop closes the connection.
pub oversize_closes :
    (write : Write) (m : Connection) (addr : ℕ) (c : Channel) (pkt : Packet)
    → (m.role ≡ role_client) ⊎ (m.role ≡ role_server)
    → m.closed_mark ≡ false
    → m.tcp_write_queue ≡ []
    → 0 < m.write_queue_len
    → get_elem? m.heap addr ≡ some c
    → c.err ≡ none
    → max_packet_size < length pkt.payload
    → pkt.status ≢ status_8
    → ((send_packet m addr pkt).0 ≡ none) × ClosesUnwritten write (send_packet m addr pkt).1
oversize_closes write m addr c pkt either live empty room found no_error large goes_on =
    elim either [
      | inl client ↦
          let (reported, starts) =
            send_packet-Sent pkt role_client client_checker client-IsSpokenBy m addr c found
              no_error
              (record { same_role = client; live = live; nothing_waits = empty; has_room = room })
              large goes_on in
          (reported, large_head-closes write pkt role_client _ large starts)
      | inr server ↦
          let (reported, starts) =
            send_packet-Sent pkt role_server server_checker server-IsSpokenBy m addr c found
              no_error
              (record { same_role = server; live = live; nothing_waits = empty; has_room = room })
              large goes_on in
          (reported, large_head-closes write pkt role_server _ large starts)
    ]
