-- ===== src/ReadLoop/Ending.antt =====
-- How many rounds the read loops need, and what they count.
use iip.Prelude.{
  ℕ, zero, suc, ◌+◌, ◌≤◌, ◌<◌, ◌≡◌, inl, inr, refl, sym, ◌∙◌, true, List, [], ◌∷◌, Option, none,
  some, Bool-cases, if_true, if_false, length, get_elem?, arith,
}
use mathlib.Core.Path.{subst}
use iip.Status.{check_client_packet_status, check_server_packet_status}
use iip.Status.Checker.{Check}
use iip.Packet.{Packet}
use iip.Connection.{
  Connection, Channel, Reason, connection_is_closed, close, close_channel, close_channels,
  close_object, mark_closed, remove_channel,
}
use iip.ReadLoop.{
  Frame, packet, refused, read_frame, deliver, client_deliver, read_loop, client_read_loop,
  server_read_loop,
}
use iip.ReadLoop.Reading.{read_frame-Taken}

-- What the close of channels leaves of a connection.
abbrev Keeps : Connection → Connection → Type 0
Keeps m m' =
    (m'.closed_mark ≡ m.closed_mark) × (m'.count ≡ m.count) × (m'.owner_counts ≡ m.owner_counts)

both_kept : (m m' m'' : Connection) → Keeps m m' → Keeps m' m'' → Keeps m m''
both_kept m m' m'' (a, b, c) (d, e, f) = (d ∙ a, e ∙ b, f ∙ c)

close_channel-Keeps :
    (m : Connection) (addr : ℕ) (err : Option Reason) → Keeps m (close_channel m addr err)
unfolding close_channel close_object remove_channel
close_channel-Keeps m addr err = cases (get_elem? m.heap addr)
  where
    cases :
        (found : Option Channel)
        → Keeps m (elim found [ none ↦ m | some c ↦ close_object m addr err c ])
    cases none = (refl, refl, refl)
    cases (some c) = elim (Bool-cases c.closed_mark) [
      | inl already ↦ rw already (refl, refl, refl)
      | inr live ↦ rw live (refl, refl, refl)
    ]

close_channels-Keeps : (cs : List (ℕ × ℕ)) (m : Connection) → Keeps m (close_channels m cs)
unfolding close_channels
close_channels-Keeps [] m = (refl, refl, refl)
close_channels-Keeps ((id, addr) ∷ rest) m =
    let m' = close_channel m addr (some connection_is_closed) in
    both_kept m m' (close_channels m' rest) (close_channel-Keeps m addr _)
      (close_channels-Keeps rest m')

-- Close marks a connection and counts nothing.
pub close-keeps :
    (m : Connection) (err : Option Reason)
    → ((close m err).closed_mark ≡ true)
      × ((close m err).count ≡ m.count)
      × ((close m err).owner_counts ≡ m.owner_counts)
unfolding close
close-keeps m err = elim (Bool-cases m.closed_mark) [
  | inl already ↦
      subst
        (λ m'. (m'.closed_mark ≡ true) × (m'.count ≡ m.count) × (m'.owner_counts ≡ m.owner_counts))
        (sym (if_true m.closed_mark m _ already)) (already, refl, refl)
  | inr live ↦
      subst
        (λ m'. (m'.closed_mark ≡ true) × (m'.count ≡ m.count) × (m'.owner_counts ≡ m.owner_counts))
        (sym (if_false m.closed_mark m _ live))
        (close_channels-Keeps m.channels (mark_closed m err))
]

abbrev IsClosed : Connection → Type 0
IsClosed m = m.closed_mark ≡ true

module _ (check : Check) (hand_over : Connection → ℕ → Packet → Connection) where
  next_closes :
      (m : Connection) (input : List ℕ) (rounds : ℕ) (next : Connection → List ℕ → Connection)
      (f : Frame)
      → ((m' : Connection) (rest : List ℕ)
          → length rest < rounds
          → (next m' rest).closed_mark ≡ true)
      → length input ≤ rounds
      → read_frame check m input ≡ f
      → IsClosed (elim f [
        | packet addr pkt rest ↦ next (hand_over m addr pkt) rest
        | refused e ↦ close m (some e)
      ])
  next_closes m input rounds next (refused e) more enough h = (close-keeps m (some e)).0
  next_closes m input rounds next (packet addr p rest) more enough h =
      more _ rest (omega (arith, (read_frame-Taken check m input addr p rest h).shorter, enough))

  pub read_loop-closes :
      (rounds : ℕ) (m : Connection) (input : List ℕ)
      → length input < rounds
      → (read_loop check hand_over rounds m input).closed_mark ≡ true
  unfolding read_loop
  read_loop-closes zero m input enough = ground (arith, enough)
  read_loop-closes (suc rounds) m input enough =
      let more = λ (m' : Connection) (rest : List ℕ) (less : length rest < rounds).
        read_loop-closes rounds m' rest less in
      elim (Bool-cases m.closed_mark) [
        | inl already ↦ subst IsClosed (sym (if_true m.closed_mark m _ already)) already
        | inr live ↦ subst IsClosed (sym (if_false m.closed_mark m _ live)) (
            next_closes m input rounds (read_loop check hand_over rounds) (read_frame check m input)
              more (omega (arith, enough)) refl)
      ]

-- Whatever bytes a peer sends, there are rounds enough for both read loops to come to the end of the
-- input or to an error, and to close the connection. The receive queues have no bound here: where one
-- is full the code waits until the handler loop takes a packet, for ever if that has returned.
read_loops_close :
    (m : Connection) (input : List ℕ)
    → ((server_read_loop m input).closed_mark ≡ true)
      × ((client_read_loop m input).closed_mark ≡ true)
unfolding server_read_loop client_read_loop
read_loops_close m input = (
  read_loop-closes check_client_packet_status deliver (length input + 1) m input (omega arith),
  read_loop-closes check_server_packet_status client_deliver (length input + 1) m input
      (omega arith),
)

-- The counts that a connection keeps itself, and those that it passes on.
abbrev SameCounts : Connection → Connection → Type 0
SameCounts m m' = (m'.count ≡ m.count) × (m'.owner_counts ≡ m.owner_counts)

next-SameCounts :
    (m : Connection) (input : List ℕ) (next : Connection → List ℕ → Connection) (f : Frame)
    → ((m' : Connection) (rest : List ℕ) → SameCounts m' (next m' rest))
    → SameCounts m (elim f [
      | packet addr pkt rest ↦ next (deliver m addr pkt) rest
      | refused e ↦ close m (some e)
    ])
unfolding deliver
next-SameCounts m input next (refused e) more =
    let (closed, same, passed_on) = close-keeps m (some e) in (same, passed_on)
next-SameCounts m input next (packet addr p rest) more = more (deliver m addr p) rest

read_loop-SameCounts :
    (check : Check) (rounds : ℕ) (m : Connection) (input : List ℕ)
    → SameCounts m (read_loop check deliver rounds m input)
unfolding read_loop
read_loop-SameCounts check zero m input = (refl, refl)
read_loop-SameCounts check (suc rounds) m input =
    let more = λ (m' : Connection) (rest : List ℕ). read_loop-SameCounts check rounds m' rest in
    elim (Bool-cases m.closed_mark) [
      | inl already ↦ subst (SameCounts m) (sym (if_true m.closed_mark m _ already)) (refl, refl)
      | inr live ↦
          subst (SameCounts m) (sym (if_false m.closed_mark m _ live)) (
            next-SameCounts m input (read_loop check deliver rounds) (read_frame check m input)
              more)
    ]

-- serverReadLoop never counts a packet or a byte it receives at its connection or at its Server,
-- whatever arrives; the channels alone count them. clientReadLoop counts at all three.
pub server_read_loop-SameCounts :
    (m : Connection) (input : List ℕ)
    → ((server_read_loop m input).count ≡ m.count)
      × ((server_read_loop m input).owner_counts ≡ m.owner_counts)
unfolding server_read_loop
server_read_loop-SameCounts m input =
    read_loop-SameCounts check_client_packet_status (length input + 1) m input
