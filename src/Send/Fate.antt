-- ===== src/Send/Fate.antt =====
-- How a send of more than 16 MiB ends.
use iip.Prelude.{
  ℕ, suc, ◌/◌, ◌<◌, ◌≡◌, ◌≢◌, inl, inr, refl, sym, ap, ◌∙◌, true, false, ◌||◌, [], Option, none,
  some, ltb, leb, ◌==◌, if_true, if_false, Bool-cases, arith, length, get_elem?,
}
use mathlib.Core.Path.{subst}
use iip.Consts.{max_packet_size, max_path_len, role_client, role_server, status_8}
use iip.Packet.{Packet, Error, path_too_large, data_too_large, err, create_net_packet}
use iip.Status.Checker.{Checker}
use iip.Connection.{Connection, Channel, Reason, channel_is_invalid}
use iip.Send.{
  whole_status, send_whole, send_chunks, chunk_rounds, finish_chunks, send_packet_locked,
  close_on_error, send_from, send_packet, Write, write_loop,
}
use iip.Send.Chunks.{IsSpokenBy}
use iip.Send.Oversize.{
  Starts, Sent, IsReady, first_push-Starts, count_all-Starts, first_chunks-Sent,
}

module _ (pkt : Packet) (role : ℕ) where
  whole_status-payload : (n : ℕ) → (whole_status n pkt).payload ≡ pkt.payload
  whole_status-payload n = elim (Bool-cases (n == role_client)) [
    | inl client ↦ ap (λ (p : Packet). p.payload) (if_true (n == role_client) _ _ client)
    | inr other ↦
        ap (λ (p : Packet). p.payload) (if_false (n == role_client) _ _ other)
        ∙ (elim (Bool-cases (n == role_server)) [
          | inl server ↦ ap (λ (p : Packet). p.payload) (if_true (n == role_server) _ _ server)
          | inr neither ↦ ap (λ (p : Packet). p.payload) (if_false (n == role_server) _ _ neither)
        ])
  ]

  send_whole-Starts :
      (m : Connection) (addr : ℕ) → IsReady pkt role m → Starts pkt role (send_whole m addr pkt)
  unfolding send_whole
  send_whole-Starts m addr r =
      count_all-Starts pkt role _ addr pkt.path _
        (first_push-Starts pkt role m (whole_status m.role pkt) r (whole_status-payload m.role))

  finish-Sent :
      (addr : ℕ) (o : Option Reason × Connection)
      → Sent pkt role o
      → Sent pkt role (finish_chunks addr pkt o)
  finish-Sent addr (none, m) s = (refl, count_all-Starts pkt role m addr pkt.path _ s.1)
  finish-Sent addr (some e, m) s = absurd (cc (s.0))

  module _ (k : Checker) (spoken : IsSpokenBy k role) where
    send_locked-Sent :
        (m : Connection) (id addr : ℕ)
        → IsReady pkt role m
        → max_packet_size < length pkt.payload
        → pkt.status ≢ status_8
        → Sent pkt role (send_packet_locked m id addr pkt)
    unfolding send_packet_locked
    send_locked-Sent m id addr r large goes_on =
        let one_more : chunk_rounds pkt ≡ suc (length pkt.payload / max_packet_size) =
          omega arith in
        let chunked =
          subst (λ n. Sent pkt role (send_chunks n m id addr pkt (length pkt.payload) true))
            (sym one_more)
            (first_chunks-Sent pkt role k spoken id addr (length pkt.payload / max_packet_size) m
              (length pkt.payload) r) in
        let too_large : leb (length pkt.payload) max_packet_size ≡ false = ground (arith, large) in
        subst (Sent pkt role)
          (sym (
            if_false m.closed_mark _ _ r.live
            ∙ if_false (pkt.status == status_8) _ _ (ground (arith, goes_on))))
          (elim (Bool-cases pkt.dont_chunk) [
            | inl one_piece ↦
                subst (Sent pkt role)
                  (sym (
                    if_true (leb (length pkt.payload) max_packet_size || pkt.dont_chunk) _ _
                      (rw (too_large, one_piece) refl)))
                  (refl, send_whole-Starts m addr r)
            | inr may_chunk ↦
                subst (Sent pkt role)
                  (sym (
                    if_false (leb (length pkt.payload) max_packet_size || pkt.dont_chunk) _ _
                      (rw (too_large, may_chunk) refl)))
                  (finish-Sent addr _ chunked)
          ])

    closed_on_none :
        (addr : ℕ) (o : Option Reason × Connection)
        → Sent pkt role o
        → Sent pkt role (close_on_error addr o)
    closed_on_none addr (none, m) s = s
    closed_on_none addr (some e, m) s = absurd (cc (s.0))

    pub send_packet-Sent :
        (m : Connection) (addr : ℕ) (c : Channel)
        → get_elem? m.heap addr ≡ some c
        → c.err ≡ none
        → IsReady pkt role m
        → max_packet_size < length pkt.payload
        → pkt.status ≢ status_8
        → Sent pkt role (send_packet m addr pkt)
    unfolding send_packet send_from
    send_packet-Sent m addr c found no_error r large goes_on =
        subst
          (λ (o : Option Channel).
            Sent pkt role
              (elim o [ none ↦ (some channel_is_invalid, m) | some d ↦ send_from m addr pkt d ]))
          (sym found)
          (subst
            (λ (o : Option Reason). Sent pkt role (elim o [
              | some e ↦ (some channel_is_invalid, m)
              | none ↦ close_on_error addr (send_packet_locked m c.id addr pkt)
            ]))
            (sym no_error) (closed_on_none addr _ (send_locked-Sent m c.id addr r large goes_on)))

-- The bytes that writeLoop has written of what waits, and whether it has closed the connection.
abbrev pub ClosesUnwritten : Write → Connection → Type 0
ClosesUnwritten write m =
    ((write_loop write m m.tcp_write_queue).0 ≡ [])
    × ((write_loop write m m.tcp_write_queue).1.closed_mark ≡ true)

pub large_refused :
    (p : Packet) → max_packet_size < length p.payload → (e : Error) × (create_net_packet p ≡ err e)
unfolding create_net_packet
large_refused p large = elim (Bool-cases (ltb max_path_len (length p.path))) [
  | inl long ↦ (path_too_large, if_true (ltb max_path_len (length p.path)) _ _ long)
  | inr fits ↦ (
    data_too_large,
    if_false (ltb max_path_len (length p.path)) _ _ fits
        ∙ if_true (ltb max_packet_size (length p.payload)) _ _ (ground (arith, large)),
  )
]
