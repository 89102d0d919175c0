-- ===== src/Server/Listening/Limits.antt =====
-- server.go: how many connections a server has, and which.
use iip.Prelude.{
  ℕ, ◌≤◌, ◌<◌, ◌≡◌, refl, sym, ap, ◌∙◌, some_injective, Option-cases, ◌==◌, if◌then◌else◌, true,
  false, List, [], ◌∷◌, ◌++◌, Option, none, some, leb, if_true, if_false, arith, length, get_elem?,
  All, Bool-cases, inl, inr,
}
use mathlib.Core.Path.{subst}
use iip.Prelude.Texts.{is_same, is_same_self, is_same-equal, delete}
use iip.Consts.{role_server}
use iip.Statis.{update}
use iip.Connection.{Connection, Reason, new_connection}
use iip.Connection.Invariant.{get_elem?-append_some, get_elem?-update}
use iip.Server.Listening.{
  ServerConfig, Accepted, Listening, Arrival, Acceptance, temporary_error, listen_error, arrives,
  admit, accept_conn, remove_conn, shut, close_accepted, stop, new_server,
}
use iip.Server.Listening.Entries.{length-store, length-delete, All-store, All-delete}

-- An entry of the map leads to the connection from that address, and its socket is open.
abbrev pub IsEntry : List Accepted → List ℕ × ℕ → Type 0
IsEntry heap (addr, i) =
    (a : Accepted) × (get_elem? heap i ≡ some a)
    × (is_same a.remote_addr addr ≡ true)
    × (a.socket_open ≡ true)

pub record IsServing (m : Listening) : Type 0 where
  pub limited : length m.connections ≤ m.config.max_connections
  pub entries : All (IsEntry m.heap) m.connections

at_length :
    (heap : List Accepted) (a : Accepted) → get_elem? (heap ++ (a ∷ [])) (length heap) ≡ some a
at_length [] a = refl
at_length (x ∷ heap) a = at_length heap a

grown :
    (heap : List Accepted) (a : Accepted) (m : List (List ℕ × ℕ))
    → All (IsEntry heap) m
    → All (IsEntry (heap ++ (a ∷ []))) m
grown heap a [] h = tt
grown heap a ((addr, i) ∷ rest) h =
    let (b, at, same, is_open) = h.0 in
    ((b, get_elem?-append_some heap (a ∷ []) i at, same, is_open), grown heap a rest h.1)

admit-IsServing :
    (addr : List ℕ) (m : Listening) (conn : Option Connection)
    → length m.connections < m.config.max_connections
    → IsServing m
    → IsServing (admit addr m conn).1
admit-IsServing addr m none room s = s
admit-IsServing addr m (some conn) room s =
    let a : Accepted = record { remote_addr = addr; conn = conn; socket_open = true } in
    let heap = m.heap ++ (a ∷ []) in
    record {
      limited = omega (arith, length-store addr (length m.heap) m.connections, room);
      entries =
          All-store (IsEntry heap) addr (length m.heap) m.connections
            (λ known same. (
              a,
              at_length m.heap a,
              subst (λ k. is_same addr k ≡ true) (sym (is_same-equal known addr same))
                  (is_same_self addr),
              refl,
            ))
            (grown m.heap a m.connections s.entries);
    }

accept_conn-IsServing :
    (m : Listening) (arrivals : List Arrival) → IsServing m → IsServing (accept_conn m arrivals).1
unfolding accept_conn
accept_conn-IsServing m [] s = s
accept_conn-IsServing m (temporary_error ∷ more) s = accept_conn-IsServing m more s
accept_conn-IsServing m (listen_error ∷ more) s = s
accept_conn-IsServing m (arrives addr ∷ more) s =
    let full = leb m.config.max_connections (length m.connections) in
    elim (Bool-cases full) [
      | inl one_too_many ↦
          subst (λ (r : Acceptance × Listening). IsServing r.1)
            (sym (if_true full _ _ one_too_many)) (accept_conn-IsServing m more s)
      | inr below ↦
          subst (λ (r : Acceptance × Listening). IsServing r.1) (sym (if_false full _ _ below))
            (admit-IsServing addr m (new_connection role_server m.config.tcp_write_queue_len)
              (ground arith) s)
    ]

-- An entry that is not deleted does not lead to the connection at this place.
elsewhere :
    (heap : List Accepted) (a : Accepted) (i j : ℕ) (known : List ℕ)
    → get_elem? heap i ≡ some a
    → is_same known a.remote_addr ≡ false
    → IsEntry heap (known, j)
    → (i == j) ≡ false
elsewhere heap a i j known at other (b, found, same, is_open) = elim (Bool-cases (i == j)) [
  | inr differs ↦ differs
  | inl equal ↦
      let place : i ≡ j = ground (arith, equal) in
      let object : a ≡ b =
        some_injective (sym at ∙ ap (λ (k : ℕ). get_elem? heap k) place ∙ found) in
      let address : a.remote_addr ≡ known =
        ap (λ (x : Accepted). x.remote_addr) object ∙ is_same-equal b.remote_addr known same in
      let deleted : is_same known a.remote_addr ≡ true =
        subst (λ k. is_same k a.remote_addr ≡ true) address (is_same_self a.remote_addr) in
      absurd (ground (arith, deleted, other))
]

All-closed :
    (heap : List Accepted) (a : Accepted) (i : ℕ) (f : Accepted → Accepted) (m : List (List ℕ × ℕ))
    → get_elem? heap i ≡ some a
    → All (IsEntry heap) m
    → All (IsEntry (update heap i f)) (delete a.remote_addr m)
unfolding delete
All-closed heap a i f [] at h = tt
All-closed heap a i f ((known, j) ∷ rest) at h =
    let later = All-closed heap a i f rest at h.1 in
    elim (Bool-cases (is_same known a.remote_addr)) [
      | inl same ↦ rw same later
      | inr other ↦
          let apart = elsewhere heap a i j known at other h.0 in
          let (b, found, addr_same, is_open) = h.0 in
          let still = get_elem?-update heap i j f ∙ if_false (i == j) _ _ apart ∙ found in
          rw other ((b, still, addr_same, is_open), later)
    ]

close_accepted-IsServing :
    (i : ℕ) (err : Option Reason) (m : Listening) → IsServing m → IsServing (close_accepted i err m)
unfolding close_accepted remove_conn
close_accepted-IsServing i err m s =
    let closes_at : Option Accepted → Listening = λ o. elim o [
      | none ↦ m
      | some a ↦
          if a.conn.closed_mark
          then m
          else record (remove_conn a.remote_addr m) { heap = update m.heap i (shut err) }
    ] in
    elim (Option-cases (get_elem? m.heap i)) [
      | inl absent ↦ subst IsServing (sym (ap closes_at absent)) s
      | inr (a, at) ↦
          let limited = s.limited in
          subst IsServing (sym (ap closes_at at)) (elim (Bool-cases a.conn.closed_mark) [
            | inl already ↦ subst IsServing (sym (if_true a.conn.closed_mark _ _ already)) s
            | inr live ↦ subst IsServing (sym (if_false a.conn.closed_mark _ _ live)) (record {
              limited = omega (arith, length-delete a.remote_addr m.connections, limited);
              entries = All-closed m.heap a i (shut err) m.connections at s.entries;
            })
          ])
    ]

-- What happens to a server: its goroutine accepts, one of its connections is closed, the place of a
-- connection in the map is freed, Stop.
pub data ServerCall : Type 0 where
  accepts : List Arrival → ServerCall
  closes : ℕ → Option Reason → ServerCall
  removes : List ℕ → ServerCall
  stops : ServerCall

abbrev or_same : Listening → Option Listening → Listening
or_same m none = m
or_same m (some m') = m'

unfoldable pub server_call : Listening → ServerCall → Listening
server_call m (accepts arrivals) = (accept_conn m arrivals).1
server_call m (closes i err) = close_accepted i err m
server_call m (removes addr) = remove_conn addr m
server_call m stops = or_same m (stop m)

unfoldable pub server_calls : Listening → List ServerCall → Listening
server_calls m [] = m
server_calls m (c ∷ cs) = server_calls (server_call m c) cs

stop-IsServing : (m : Listening) → IsServing m → IsServing (or_same m (stop m))
unfolding stop
stop-IsServing m s = elim (Bool-cases m.notify_closed) [
  | inl closed ↦ subst (λ o. IsServing (or_same m o)) (sym (if_true m.notify_closed _ _ closed)) s
  | inr is_open ↦
      subst (λ o. IsServing (or_same m o)) (sym (if_false m.notify_closed _ _ is_open))
        (record { limited = omega arith; entries = tt })
]

server_call-IsServing : (m : Listening) (c : ServerCall) → IsServing m → IsServing (server_call m c)
unfolding server_call remove_conn
server_call-IsServing m (accepts arrivals) s = accept_conn-IsServing m arrivals s
server_call-IsServing m (closes i err) s = close_accepted-IsServing i err m s
server_call-IsServing m (removes addr) s =
    let limited = s.limited in
    record {
      limited = omega (arith, length-delete addr m.connections, limited);
      entries = All-delete (IsEntry m.heap) addr m.connections s.entries;
    }
server_call-IsServing m stops s = stop-IsServing m s

server_calls-IsServing :
    (m : Listening) (cs : List ServerCall) → IsServing m → IsServing (server_calls m cs)
unfolding server_calls
server_calls-IsServing m [] s = s
server_calls-IsServing m (c ∷ cs) s =
    server_calls-IsServing (server_call m c) cs (server_call-IsServing m c s)

-- Whatever a server goes through, in any order: it has no more connections in its map than
-- MaxConnections allows, and each leads from its remote address to a connection that was accepted
-- from there and whose socket the server has not closed.
pub server_stays-IsServing :
    (config : ServerConfig) (cs : List ServerCall) → IsServing (server_calls (new_server config) cs)
unfolding new_server
server_stays-IsServing config cs =
    server_calls-IsServing (new_server config) cs (record { limited = omega arith; entries = tt })
