-- ===== src/ReadLoop/Delivery.antt =====
-- What the channels of a connection hold after a read loop, whatever bytes the peer sent.
use iip.Prelude.{
  ℕ, zero, suc, ◌+◌, ◌≤◌, ◌<◌, ◌≡◌, ◌≢◌, inl, inr, refl, sym, ap, ◌∙◌, true, List, [], ◌∷◌, ◌++◌,
  Option, none, some, Bool-cases, if_true, if_false, length, get_elem?, All, All-append, arith,
}
use mathlib.Core.Path.{subst}
use iip.Consts.{max_packet_size, status_8}
use iip.Packet.{Packet}
use iip.Packet.Bytes.{HasNoNul}
use iip.Status.{no_status, check_client_packet_status, check_server_packet_status}
use iip.Status.Checker.{Check, Checker, client_checker, server_checker}
use iip.Status.Messages.{follows, Message, spell, client_follows_messages, server_follows_messages}
use iip.Statis.{update}
use iip.Connection.{
  Connection, Channel, Reason, close, close_channel, close_channels, close_object, mark_closed,
  remove_channel,
}
use iip.ReadLoop.{
  Frame, packet, refused, read_frame, packet_status_at, receive, deliver, client_deliver, read_loop,
  client_read_loop, server_read_loop,
}
use iip.ReadLoop.Reading.{Taken, read_frame-Taken}

-- What a loop lets through to a channel.
pub record IsDeliverable (p : Packet) : Type 0 where
  pub clean : HasNoNul p.path
  pub some_data : 0 < length p.payload
  pub data_fits : length p.payload ≤ max_packet_size
  pub goes_on : p.status ≢ status_8

abbrev pub statuses_of : List Packet → List ℕ
statuses_of [] = []
statuses_of (p ∷ ps) = p.status ∷ statuses_of ps

-- The status before any packet is `s`.
abbrev pub last_status : ℕ → List ℕ → ℕ
last_status s [] = s
last_status s (t ∷ ts) = last_status t ts

-- A channel's queue, read by a check from the status that a fresh channel has.
pub record IsInOrder (check : Check) (c : Channel) : Type 0 where
  pub deliverable : All IsDeliverable c.received_queue
  pub in_order : follows check no_status (statuses_of c.received_queue) ≡ true
  pub latest : c.packet_status ≡ last_status no_status (statuses_of c.received_queue)

follows-append :
    (check : Check) (s : ℕ) (ss : List ℕ) (t : ℕ)
    → follows check s ss ≡ true
    → check (last_status s ss) t ≡ none
    → follows check s (ss ++ (t ∷ [])) ≡ true
unfolding follows
follows-append check s [] t h e = rw e
follows-append check s (u ∷ ss) t h e = ground (arith, follows-append check u ss t)

statuses-append :
    (ps : List Packet) (p : Packet)
    → statuses_of (ps ++ (p ∷ [])) ≡ statuses_of ps ++ (p.status ∷ [])
statuses-append [] p = refl
statuses-append (q ∷ ps) p = ap (λ (t : List ℕ). q.status ∷ t) (statuses-append ps p)

last-append : (s t : ℕ) (ss : List ℕ) → last_status s (ss ++ (t ∷ [])) ≡ t
last-append s t [] = refl
last-append s t (u ∷ ss) = last-append u t ss

receive-IsInOrder :
    (check : Check) (p : Packet) (c : Channel)
    → IsInOrder check c
    → IsDeliverable p
    → check c.packet_status p.status ≡ none
    → IsInOrder check (receive p c)
receive-IsInOrder check p c o d passed = record {
  deliverable = All-append IsDeliverable c.received_queue (p ∷ []) o.deliverable (d, tt);
  in_order = rw (statuses-append c.received_queue p) (
      follows-append check no_status (statuses_of c.received_queue) p.status o.in_order
        (rw o.latest at passed));
  latest = sym (
      ap (last_status no_status) (statuses-append c.received_queue p)
      ∙ last-append no_status p.status (statuses_of c.received_queue));
}

update-All :
    (P : Channel → Type 0) (xs : List Channel) (i : ℕ) (f : Channel → Channel)
    → All P xs
    → ((c : Channel) → get_elem? xs i ≡ some c → P c → P (f c))
    → All P (update xs i f)
unfolding update
update-All P [] i f h k = tt
update-All P (x ∷ xs) zero f h k = (k x refl h.0, h.1)
update-All P (x ∷ xs) (suc i) f h k = (h.0, update-All P xs i f h.1 k)

-- Every channel object of a connection is in order.
abbrev pub AreInOrder : Check → Connection → Type 0
AreInOrder check m = All (IsInOrder check) m.heap

module _ (check : Check) where
  close_channel-AreInOrder :
      (m : Connection) (addr : ℕ) (err : Option Reason)
      → AreInOrder check m
      → AreInOrder check (close_channel m addr err)
  unfolding close_channel close_object remove_channel
  close_channel-AreInOrder m addr err o = cases (get_elem? m.heap addr)
    where
      cases :
          (found : Option Channel)
          → AreInOrder check (elim found [ none ↦ m | some c ↦ close_object m addr err c ])
      cases none = o
      cases (some c) = elim (Bool-cases c.closed_mark) [
        | inl already ↦ rw already o
        | inr live ↦ rw live (
            update-All (IsInOrder check) m.heap addr _ o λ d got kept. record {
              deliverable = kept.deliverable;
              in_order = kept.in_order;
              latest = kept.latest;
            })
      ]

  close_channels-AreInOrder :
      (cs : List (ℕ × ℕ)) (m : Connection)
      → AreInOrder check m
      → AreInOrder check (close_channels m cs)
  unfolding close_channels
  close_channels-AreInOrder [] m o = o
  close_channels-AreInOrder ((id, addr) ∷ rest) m o =
      close_channels-AreInOrder rest _ (close_channel-AreInOrder m addr _ o)

  close-AreInOrder :
      (m : Connection) (err : Option Reason) → AreInOrder check m → AreInOrder check (close m err)
  unfolding close
  close-AreInOrder m err o = elim (Bool-cases m.closed_mark) [
    | inl already ↦ subst (AreInOrder check) (sym (if_true m.closed_mark m _ already)) o
    | inr live ↦
        subst (AreInOrder check) (sym (if_false m.closed_mark m _ live))
          (close_channels-AreInOrder m.channels (mark_closed m err) o)
  ]

  status_found :
      (m : Connection) (addr : ℕ) (c : Channel)
      → get_elem? m.heap addr ≡ some c
      → packet_status_at m addr ≡ c.packet_status
  status_found m addr c e = ap (λ found. elim found [ none ↦ 0 | some d ↦ d.packet_status ]) e

  deliver-AreInOrder :
      (m : Connection) (input : List ℕ) (addr : ℕ) (p : Packet) (rest : List ℕ)
      → AreInOrder check m
      → Taken check m input addr p rest
      → AreInOrder check (deliver m addr p)
  unfolding deliver
  deliver-AreInOrder m input addr p rest o t =
      update-All (IsInOrder check) m.heap addr (receive p) o λ c got kept.
        receive-IsInOrder check p c kept
          (record {
            clean = t.clean;
            some_data = t.some_data;
            data_fits = t.data_fits;
            goes_on = t.goes_on;
          })
          (rw (status_found m addr c got) at t.follows_on)

  module _ (hand_over : Connection → ℕ → Packet → Connection)
      (same : (m : Connection) (addr : ℕ) (p : Packet)
        → (hand_over m addr p).heap ≡ (deliver m addr p).heap) where
    next-AreInOrder :
        (m : Connection) (input : List ℕ) (next : Connection → List ℕ → Connection) (f : Frame)
        → ((m' : Connection) (rest : List ℕ)
            → AreInOrder check m'
            → AreInOrder check (next m' rest))
        → AreInOrder check m
        → read_frame check m input ≡ f
        → AreInOrder check (elim f [
          | packet addr pkt rest ↦ next (hand_over m addr pkt) rest
          | refused e ↦ close m (some e)
        ])
    next-AreInOrder m input next (refused e) kept o h = close-AreInOrder m (some e) o
    next-AreInOrder m input next (packet addr p rest) kept o h = kept (hand_over m addr p) rest (
        subst (All (IsInOrder check)) (sym (same m addr p))
          (deliver-AreInOrder m input addr p rest o (read_frame-Taken check m input addr p rest h)))

    read_loop-AreInOrder :
        (rounds : ℕ) (m : Connection) (input : List ℕ)
        → AreInOrder check m
        → AreInOrder check (read_loop check hand_over rounds m input)
    unfolding read_loop
    read_loop-AreInOrder zero m input o = o
    read_loop-AreInOrder (suc rounds) m input o =
        let more = λ (m' : Connection) (rest : List ℕ) (o' : AreInOrder check m').
          read_loop-AreInOrder rounds m' rest o' in
        elim (Bool-cases m.closed_mark) [
          | inl already ↦ subst (AreInOrder check) (sym (if_true m.closed_mark m _ already)) o
          | inr live ↦ subst (AreInOrder check) (sym (if_false m.closed_mark m _ live)) (
              next-AreInOrder m input (read_loop check hand_over rounds) (read_frame check m input)
                more o refl)
        ]

messages_spelled :
    (check : Check) (c : Channel)
    → IsInOrder check c
    → All (λ s. s ≢ status_8) (statuses_of c.received_queue)
messages_spelled check c o = go c.received_queue o.deliverable
  where
    go : (ps : List Packet) → All IsDeliverable ps → All (λ s. s ≢ status_8) (statuses_of ps)
    go [] d = tt
    go (p ∷ ps) d = (d.0.goes_on, go ps d.1)

-- A channel's queue: packets that may be delivered, whose statuses spell whole messages of this
-- direction and at most one that is not complete yet.
abbrev pub HoldsMessages : Checker → Channel → Type 0
HoldsMessages k c =
    All IsDeliverable c.received_queue
    × (ms : List Message) × (part : Option ℕ) × (statuses_of c.received_queue ≡ spell k ms part)

holds :
    (k : Checker) (c : Channel)
    → All IsDeliverable c.received_queue
    → (ms : List Message) × (part : Option ℕ) × (statuses_of c.received_queue ≡ spell k ms part)
    → HoldsMessages k c
holds k c d (ms, part, e) = (d, ms, part, e)

All-map :
    {P Q : Channel → Type 0} (cs : List Channel) → ((c : Channel) → P c → Q c) → All P cs → All Q cs
All-map [] f h = tt
All-map (c ∷ cs) f h = (f c h.0, All-map cs f h.1)

-- serverReadLoop, whatever bytes arrive, on a connection whose channels have received nothing out
-- of order: when it ends, the queue of every channel holds only packets with a path without a NUL,
-- 1 to 16 MiB of data and a status other than 8, and their statuses spell whole requests followed
-- by at most one that is not complete.
pub server_queues_hold_messages :
    (m : Connection) (input : List ℕ)
    → AreInOrder check_client_packet_status m
    → All (HoldsMessages client_checker) (server_read_loop m input).heap
unfolding server_read_loop
server_queues_hold_messages m input o =
    All-map (server_read_loop m input).heap
      (λ c d. holds client_checker c d.deliverable (
        client_follows_messages (statuses_of c.received_queue)
          (messages_spelled check_client_packet_status c d) d.in_order))
      (read_loop-AreInOrder check_client_packet_status deliver (λ m' addr p. refl)
        (length input + 1) m input o)

-- clientReadLoop, under the same condition: the queue of every channel holds only such packets, and
-- their statuses spell whole responses followed by at most one that is not complete.
pub client_queues_hold_messages :
    (m : Connection) (input : List ℕ)
    → AreInOrder check_server_packet_status m
    → All (HoldsMessages server_checker) (client_read_loop m input).heap
unfolding client_read_loop client_deliver
client_queues_hold_messages m input o =
    All-map (client_read_loop m input).heap
      (λ c d. holds server_checker c d.deliverable (
        server_follows_messages (statuses_of c.received_queue)
          (messages_spelled check_server_packet_status c d) d.in_order))
      (read_loop-AreInOrder check_server_packet_status client_deliver (λ m' addr p. refl)
        (length input + 1) m input o)
