-- ===== src/Send/Messages.antt =====
-- What sendPacket's loop makes of a packet in a client and in a server.
use iip.Prelude.{
  ℕ, suc, ◌+◌, ◌-◌, ◌*◌, ◌/◌, ◌≤◌, ◌<◌, ◌≡◌, inl, inr, refl, sym, ap, ◌∙◌, true, List, [], ◌∷◌,
  ◌++◌, none, All, arith, length, drop,
}
use mathlib.Core.Path.{subst}
use iip.Consts.{role_client, role_server, max_packet_size}
use iip.Packet.{Packet}
use iip.Status.Checker.{Checker, client_checker, server_checker}
use iip.Status.Messages.{Message, whole, chunked, spell}
use iip.ReadLoop.Delivery.{statuses_of}
use iip.Send.{chunk_rounds}
use iip.Send.Chunks.{
  chunks, all_data, IsSized, IsSpokenBy, client-IsSpokenBy, server-IsSpokenBy, small_or_large,
  piece, length-piece, last-left, more-left, chunks-last, chunks-more, GoesOn, chunks-GoesOn,
}

-- Chunks that make up the packet: its data, in chunks of a legal size, as one message.
record MakeUp (k : Checker) (pkt : Packet) (cs : List Packet) : Type 0 where
  same_data : all_data cs ≡ pkt.payload
  sized : All IsSized cs
  message : Message
  spelled : statuses_of cs ≡ spell k (message ∷ []) none

module _ (id addr : ℕ) (pkt : Packet) (k : Checker) (role : ℕ) (r : IsSpokenBy k role) where
  all_left : drop (length pkt.payload - length pkt.payload) pkt.payload ≡ pkt.payload
  all_left =
      ap (λ (n : ℕ). drop n pkt.payload)
        (let no_start : length pkt.payload - length pkt.payload ≡ 0 = omega arith in no_start)

  alone-MakeUp :
      0 < length pkt.payload
      → length pkt.payload ≤ max_packet_size
      → MakeUp k pkt (piece id addr pkt k.whole (length pkt.payload) (length pkt.payload) ∷ [])
  alone-MakeUp some_data small =
      let size =
        length-piece id addr pkt k.whole (length pkt.payload) (length pkt.payload) (omega arith)
          (omega arith) in
      record {
        same_data = last-left id addr pkt (length pkt.payload) (omega arith) ∙ all_left;
        sized = ((omega (arith, size, some_data), omega (arith, size, small)), tt);
        message = whole;
        spelled = refl;
      }

  first-MakeUp :
      (cs : List Packet)
      → max_packet_size < length pkt.payload
      → GoesOn id addr pkt k role r (length pkt.payload - max_packet_size) cs
      → MakeUp k pkt (piece id addr pkt k.first max_packet_size (length pkt.payload) ∷ cs)
  first-MakeUp cs large g =
      let size =
        length-piece id addr pkt k.first max_packet_size (length pkt.payload) (omega (arith, large))
          (omega arith) in
      record {
        same_data =
            ap (λ t. (piece id addr pkt k.first max_packet_size (length pkt.payload)).payload ++ t)
              g.same_data
            ∙ more-left id addr pkt (length pkt.payload) large (omega arith)
            ∙ all_left;
        sized = ((omega (arith, size), omega (arith, size)), g.sized);
        message = chunked g.middles;
        spelled = ap (λ t. k.first ∷ t) g.spelled;
      }

  chunks-MakeUp :
      0 < length pkt.payload
      → MakeUp k pkt (chunks (chunk_rounds pkt) role id addr pkt (length pkt.payload) true)
  chunks-MakeUp some_data =
      let enough : length pkt.payload
          ≤ (length pkt.payload / max_packet_size + 1) * max_packet_size =
        omega arith in
      let one_more : length pkt.payload / max_packet_size + 1
          ≡ suc (length pkt.payload / max_packet_size) =
        omega arith in
      subst (λ n. MakeUp k pkt (chunks n role id addr pkt (length pkt.payload) true)) (sym one_more)
        (elim (small_or_large (length pkt.payload)) [
          | inl small ↦
              subst (MakeUp k pkt)
                (sym
                  (chunks-last id addr pkt _ role (length pkt.payload) k.whole true small r.alone))
                (alone-MakeUp some_data small)
          | inr large ↦
              subst (MakeUp k pkt)
                (sym
                  (chunks-more id addr pkt _ role (length pkt.payload) k.first true large r.starts))
                (first-MakeUp _ large (
                  chunks-GoesOn id addr pkt k role r (length pkt.payload / max_packet_size)
                    (length pkt.payload - max_packet_size) (omega (arith, large)) (omega arith)
                    (omega (arith, enough))))
        ])

-- As many rounds of the loop of sendPacket as it is given are enough, for any packet with data whether
-- or not the code enters the loop with it: they build chunks of 1 to 16 MiB whose data,
-- put together, is the packet's, and whose statuses are those of one message: of one request that
-- CheckClientPacketStatus accepts in a client, and of one such response in a server.
chunks_reassemble :
    (id addr : ℕ) (pkt : Packet)
    → 0 < length pkt.payload
    → MakeUp client_checker pkt
        (chunks (chunk_rounds pkt) role_client id addr pkt (length pkt.payload) true)
      × MakeUp server_checker pkt
          (chunks (chunk_rounds pkt) role_server id addr pkt (length pkt.payload) true)
chunks_reassemble id addr pkt h = (
  chunks-MakeUp id addr pkt client_checker role_client client-IsSpokenBy h,
  chunks-MakeUp id addr pkt server_checker role_server server-IsSpokenBy h,
)
