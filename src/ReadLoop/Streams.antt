-- ===== src/ReadLoop/Streams.antt =====
-- What a read loop makes of the bytes that CreateNetPacket produced at the other end.
use iip.Prelude.{
  ℕ, suc, ◌+◌, ◌≡◌, refl, sym, ap, ◌∙◌, false, List, [], ◌∷◌, ◌++◌, some, arith, ◌-◌, ◌≤◌,
  length-append, append-nil, append_assoc, if_false, length,
}
use iip.Status.Checker.{Check}
use iip.Packet.{Packet, net_bytes}
use iip.Connection.{Connection, close, read_data_fail}
use iip.Packet.Bytes.{read_byte}
use iip.Packet.Limits.{length-net_bytes}
use iip.Status.{check_client_packet_status}
use iip.ReadLoop.{Frame, packet, refused, read_frame, deliver, read_loop, server_read_loop}
use iip.ReadLoop.Reading.{IsAccepted, arrived, read_frame-net_bytes}

-- The bytes that a peer's writeLoop puts on the wire for these packets.
abbrev pub wire : List (Packet × ℕ) → List ℕ
wire [] = []
wire ((p, addr) ∷ ps) = net_bytes p ++ wire ps

module _ (check : Check) (hand_over : Connection → ℕ → Packet → Connection) where
  -- The connection after each packet was handed to the channel at its address.
  abbrev pub handed_over : Connection → List (Packet × ℕ) → Connection
  handed_over m [] = m
  handed_over m ((p, addr) ∷ ps) = handed_over (hand_over m addr (arrived p addr)) ps

  -- Each packet is accepted in the state that the packets before it led to.
  abbrev pub AreAccepted : Connection → List (Packet × ℕ) → Type 0
  AreAccepted m [] = Unit
  AreAccepted m ((p, addr) ∷ ps) =
      IsAccepted check m p addr × AreAccepted (hand_over m addr (arrived p addr)) ps

  read_loop-step :
      (rounds : ℕ) (m : Connection) (p : Packet) (addr : ℕ) (rest : List ℕ)
      → m.closed_mark ≡ false
      → IsAccepted check m p addr
      → read_loop check hand_over (suc rounds) m (net_bytes p ++ rest)
        ≡ read_loop check hand_over rounds (hand_over m addr (arrived p addr)) rest
  unfolding read_loop
  read_loop-step rounds m p addr rest live a =
      if_false m.closed_mark m _ live
      ∙ ap
          (λ (f : Frame). elim f [
            | packet at q left ↦ read_loop check hand_over rounds (hand_over m at q) left
            | refused e ↦ close m (some e)
          ])
          (read_frame-net_bytes check m p addr rest a)

  pub read_loop-wire :
      ((m : Connection) (addr : ℕ) (p : Packet) → (hand_over m addr p).closed_mark ≡ m.closed_mark)
      → (ps : List (Packet × ℕ)) (rounds : ℕ) (m : Connection) (rest : List ℕ)
      → m.closed_mark ≡ false
      → AreAccepted m ps
      → read_loop check hand_over (length ps + rounds) m (wire ps ++ rest)
        ≡ read_loop check hand_over rounds (handed_over m ps) rest
  read_loop-wire same [] rounds m rest live a =
      let none_left : 0 + rounds ≡ rounds = omega arith in
      ap (λ (n : ℕ). read_loop check hand_over n m rest) none_left
  read_loop-wire same ((p, addr) ∷ ps) rounds m rest live a =
      let one_more : suc (length ps) + rounds ≡ suc (length ps + rounds) = omega arith in
      ap (λ (n : ℕ). read_loop check hand_over n m ((net_bytes p ++ wire ps) ++ rest)) one_more
      ∙ ap (read_loop check hand_over (suc (length ps + rounds)) m)
          (append_assoc (net_bytes p) (wire ps) rest)
      ∙ read_loop-step (length ps + rounds) m p addr (wire ps ++ rest) live a.0
      ∙ read_loop-wire same ps rounds (hand_over m addr (arrived p addr)) rest
          (same m addr (arrived p addr) ∙ live) a.1

wire_size : (ps : List (Packet × ℕ)) → length ps ≤ length (wire ps)
wire_size [] = omega arith
wire_size ((p, addr) ∷ ps) =
    omega (arith, wire_size ps, length-append (net_bytes p) (wire ps), length-net_bytes p)

handed_over-live :
    (ps : List (Packet × ℕ)) (m : Connection)
    → (handed_over check_client_packet_status deliver m ps).closed_mark ≡ m.closed_mark
unfolding deliver
handed_over-live [] m = refl
handed_over-live ((p, addr) ∷ ps) m = handed_over-live ps (deliver m addr (arrived p addr))

ended_input :
    (check : Check) (hand_over : Connection → ℕ → Packet → Connection) (rounds : ℕ) (m : Connection)
    → m.closed_mark ≡ false
    → read_loop check hand_over (suc rounds) m [] ≡ close m (some read_data_fail)
unfolding read_loop read_frame read_byte
ended_input check hand_over rounds m live = if_false m.closed_mark m _ live

-- serverReadLoop: when the bytes that arrive on a live connection are the CreateNetPacket of packets
-- each of which is accepted in the state that those before it led to, the loop hands exactly these
-- packets, in order and each whole, to the channels with their ids, and closes the connection
-- only when the input has ended.
pub server_read_loop-wire :
    (m : Connection) (ps : List (Packet × ℕ))
    → m.closed_mark ≡ false
    → AreAccepted check_client_packet_status deliver m ps
    → server_read_loop m (wire ps)
      ≡ close (handed_over check_client_packet_status deliver m ps) (some read_data_fail)
unfolding server_read_loop deliver
server_read_loop-wire m ps live a =
    let spare = length (wire ps) - length ps in
    let enough : length (wire ps) + 1 ≡ length ps + suc spare = omega (arith, wire_size ps) in
    ap (λ (n : ℕ). read_loop check_client_packet_status deliver n m (wire ps)) enough
    ∙ ap (read_loop check_client_packet_status deliver (length ps + suc spare) m)
        (sym (append-nil (wire ps)))
    ∙ read_loop-wire check_client_packet_status deliver (λ m' addr p. refl) ps (suc spare) m [] live
        a
    ∙ ended_input check_client_packet_status deliver spare
        (handed_over check_client_packet_status deliver m ps) (handed_over-live ps m ∙ live)
