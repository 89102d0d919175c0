-- ===== src/Send/Oversize.antt =====
-- What becomes of a packet with more than 16 MiB of data.
use iip.Prelude.{
  ℕ, zero, suc, ◌-◌, ◌<◌, ◌≡◌, inl, inr, refl, sym, ap, ◌∙◌, Bool, true, false, List, [], ◌∷◌, ◌++◌,
  Option, none, some, ltb, leb, ◌==◌, if◌then◌else◌, if_true, if_false, Bool-cases, arith, length,
}
use mathlib.Core.Path.{subst}
use iip.Packet.{Packet}
use iip.Status.Checker.{Checker}
use iip.Statis.{Count}
use iip.Connection.{Connection, Reason, protocol_error}
use iip.Send.{
  packet_to_send_queue, count_all, chunk_size, chunk_status, make_chunk, send_chunk, send_chunks,
}
use iip.Send.Chunks.{IsSpokenBy, small_or_large, make_chunk-piece}

module _ (pkt : Packet) (role : ℕ) where
  -- A live connection whose write queue starts with a packet with this one's data.
  pub record Starts (m : Connection) : Type 0 where
    pub same_role : m.role ≡ role
    pub live : m.closed_mark ≡ false
    pub head : Packet
    pub others : List Packet
    pub queue : m.tcp_write_queue ≡ head ∷ others
    pub same_data : head.payload ≡ pkt.payload

  -- A send that reports no error, and after which the queue starts so.
  abbrev pub Sent : Option Reason × Connection → Type 0
  Sent (e, m) = (e ≡ none) × Starts m

  pub count_all-Starts :
      (m : Connection) (addr : ℕ) (path : List ℕ) (cnt : Count)
      → Starts m
      → Starts (count_all m addr path cnt)
  unfolding count_all
  count_all-Starts m addr path cnt s = record {
    same_role = s.same_role;
    live = s.live;
    head = s.head;
    others = s.others;
    queue = s.queue;
    same_data = s.same_data;
  }

  push-Starts : (m : Connection) (p : Packet) → Starts m → Starts (packet_to_send_queue m p).1
  unfolding packet_to_send_queue
  push-Starts m p s = elim (Bool-cases (ltb (length m.tcp_write_queue) m.write_queue_len)) [
    | inl room ↦
        subst (λ (r : Option Reason × Connection). Starts r.1)
          (sym (if_true (ltb (length m.tcp_write_queue) m.write_queue_len) _ _ room))
          (record {
            same_role = s.same_role;
            live = s.live;
            head = s.head;
            others = s.others ++ (p ∷ []);
            queue = ap (λ t. t ++ (p ∷ [])) s.queue;
            same_data = s.same_data;
          })
    | inr full ↦
        subst (λ (r : Option Reason × Connection). Starts r.1)
          (sym (if_false (ltb (length m.tcp_write_queue) m.write_queue_len) _ _ full)) s
  ]

  -- A live connection of this role with an empty queue that has room.
  pub record IsReady (m : Connection) : Type 0 where
    pub same_role : m.role ≡ role
    pub live : m.closed_mark ≡ false
    pub nothing_waits : m.tcp_write_queue ≡ []
    pub has_room : 0 < m.write_queue_len

  pub first_push-Starts :
      (m : Connection) (p : Packet)
      → IsReady m
      → p.payload ≡ pkt.payload
      → Starts (packet_to_send_queue m p).1
  unfolding packet_to_send_queue
  first_push-Starts m p r same =
      let room : ltb (length m.tcp_write_queue) m.write_queue_len ≡ true =
        rw r.nothing_waits (ground (arith, r.has_room)) in
      subst (λ (t : Option Reason × Connection). Starts t.1)
        (sym (if_true (ltb (length m.tcp_write_queue) m.write_queue_len) _ _ room))
        (record {
          same_role = r.same_role;
          live = r.live;
          head = p;
          others = [];
          queue = ap (λ t. t ++ (p ∷ [])) r.nothing_waits;
          same_data = same;
        })

  module _ (k : Checker) (spoken : IsSpokenBy k role) (id addr : ℕ) where
    chunk_status-found :
        (remain : ℕ) (first : Bool) → (s : ℕ) × (chunk_status role first remain ≡ some s)
    unfolding chunk_status
    chunk_status-found remain true = elim (small_or_large remain) [
      | inl small ↦ (
        k.whole,
        if_true (chunk_size remain == remain) _ _ (ground (arith, small)) ∙ spoken.alone,
      )
      | inr large ↦ (
        k.first,
        if_false (chunk_size remain == remain) _ _ (ground (arith, large))
            ∙ if_true (ltb (chunk_size remain) remain) _ _ (ground (arith, large))
            ∙ spoken.starts,
      )
    ]
    chunk_status-found remain false = elim (small_or_large remain) [
      | inl small ↦
          (k.last, if_true (chunk_size remain == remain) _ _ (ground (arith, small)) ∙ spoken.ends)
      | inr large ↦ (
        k.middle,
        if_false (chunk_size remain == remain) _ _ (ground (arith, large))
            ∙ if_true (ltb (chunk_size remain) remain) _ _ (ground (arith, large))
            ∙ spoken.goes_on,
      )
    ]

    send_chunks-step :
        (rounds : ℕ) (m : Connection) (remain : ℕ) (first : Bool)
        → m.role ≡ role
        → send_chunks (suc rounds) m id addr pkt remain first ≡ (
            if leb (remain - chunk_size remain) 0
            then (none, send_chunk m addr pkt)
            else send_chunks rounds
                (send_chunk m addr pkt)
                id
                addr
                pkt
                (remain - chunk_size remain)
                false)
    unfolding send_chunks
    send_chunks-step rounds m remain first same =
        let (s, found) = chunk_status-found remain first in
        ap
          (λ (o : Option Packet). elim o [
            | none ↦ (some protocol_error, m)
            | some c ↦
                if leb (remain - chunk_size remain) 0
                then (none, send_chunk m addr pkt)
                else send_chunks rounds (send_chunk m addr pkt) id addr pkt
                    (remain - chunk_size remain) false
          ])
          (ap (λ (n : ℕ). make_chunk n id addr pkt remain first) same
            ∙ make_chunk-piece id addr pkt role remain s first found)

    send_chunk-Starts : (m : Connection) → Starts m → Starts (send_chunk m addr pkt)
    unfolding send_chunk
    send_chunk-Starts m s = count_all-Starts _ addr pkt.path _ (push-Starts m pkt s)

    first_chunk-Starts : (m : Connection) → IsReady m → Starts (send_chunk m addr pkt)
    unfolding send_chunk
    first_chunk-Starts m r = count_all-Starts _ addr pkt.path _ (first_push-Starts m pkt r refl)

    send_chunks-Sent :
        (rounds : ℕ) (m : Connection) (remain : ℕ) (first : Bool)
        → Starts m
        → Sent (send_chunks rounds m id addr pkt remain first)
    unfolding send_chunks
    send_chunks-Sent zero m remain first s = (refl, s)
    send_chunks-Sent (suc rounds) m remain first s =
        let sent = send_chunk-Starts m s in
        let rest =
          send_chunks-Sent rounds (send_chunk m addr pkt) (remain - chunk_size remain) false sent in
        subst Sent (sym (send_chunks-step rounds m remain first s.same_role))
          (elim (Bool-cases (leb (remain - chunk_size remain) 0)) [
            | inl ended ↦
                subst Sent (sym (if_true (leb (remain - chunk_size remain) 0) _ _ ended))
                  (refl, sent)
            | inr more ↦
                subst Sent (sym (if_false (leb (remain - chunk_size remain) 0) _ _ more)) rest
          ])

    pub first_chunks-Sent :
        (rounds : ℕ) (m : Connection) (remain : ℕ)
        → IsReady m
        → Sent (send_chunks (suc rounds) m id addr pkt remain true)
    first_chunks-Sent rounds m remain r =
        let sent = first_chunk-Starts m r in
        let rest =
          send_chunks-Sent rounds (send_chunk m addr pkt) (remain - chunk_size remain) false sent in
        subst Sent (sym (send_chunks-step rounds m remain true r.same_role))
          (elim (Bool-cases (leb (remain - chunk_size remain) 0)) [
            | inl ended ↦
                subst Sent (sym (if_true (leb (remain - chunk_size remain) 0) _ _ ended))
                  (refl, sent)
            | inr more ↦
                subst Sent (sym (if_false (leb (remain - chunk_size remain) 0) _ _ more)) rest
          ])
