-- ===== src/Client/Limits.antt =====
-- client.go: which connections a client has, and how many, whatever happens to it.
use iip.Prelude.{
  ℕ, zero, suc, ◌+◌, ◌<◌, ◌≡◌, refl, sym, ap, Bool, true, false, ◌||◌, List, [], ◌∷◌, ◌++◌, Option,
  none, some, leb, ◌==◌, if◌then◌else◌, if_true, if_false, arith, length, length-append,
  length-take, get_elem?, All, All-append, Bool-cases, Option-cases, inl, inr,
}
use mathlib.Core.Path.{subst}
use iip.Prelude.Dict.{has, AreDistinct}
use iip.Prelude.Slices.{whole, view, view-whole}
use iip.Connection.{
  Connection, Reason, close, removed_by_client, new_connection, new_channel, place_channel,
  no_channels,
}
use iip.Connection.Invariant.{get_elem?-append_some}
use iip.Consts.{role_client}
use iip.Client.{
  Client, Result, position, without_connection, take_out, settle, ClientConfig, returns, fails,
  dial_failed, free_connection, client_new_connection, join_connection, get_free_connection,
  remove_connection, close_connection, new_client, close_from, close_client,
}
use iip.Client.WellFormed.{IsWell, IsOpenAt, All-without, left_out, settle-IsWell}

pub close_connection-IsWell :
    (m : Client) (addr : ℕ) (err : Option Reason) → IsWell m → IsWell (close_connection m addr err)
unfolding close_connection
close_connection-IsWell m addr err w = elim (Option-cases (get_elem? m.heap addr)) [
  | inl absent ↦
      subst IsWell
        (sym (ap (λ e. elim e [ none ↦ m | some conn ↦ settle m addr (close conn err) ]) absent)) w
  | inr (conn, at) ↦
      subst IsWell (sym (ap (λ e. elim e [ none ↦ m | some c ↦ settle m addr (close c err) ]) at))
        (settle-IsWell m addr (close conn err) w)
]

remove_connection-IsWell : (m : Client) (addr : ℕ) → IsWell m → IsWell (remove_connection m addr)
unfolding remove_connection take_out
remove_connection-IsWell m addr w =
    let xs = view m.connections in
    let rest : Option ℕ → Client = λ e. elim e [
      | none ↦ m
      | some i ↦ close_connection (take_out m addr) addr (some removed_by_client)
    ] in
    elim (Option-cases (position addr xs)) [
      | inl absent ↦ subst IsWell (sym (ap rest absent)) w
      | inr (i, found) ↦ subst IsWell (sym (ap rest found)) (
          close_connection-IsWell (take_out m addr) addr (some removed_by_client) (
            subst (λ e. IsWell (without_connection m e)) (sym found)
              (left_out m addr i m.heap w found (All-without (IsOpenAt m.heap) i xs w.all_open))))
    ]

pub close_from-IsWell : (rounds i : ℕ) (m : Client) → IsWell m → IsWell (close_from rounds i m)
unfolding close_from
close_from-IsWell zero i m w = w
close_from-IsWell (suc rounds) i m w =
    let rest : Option ℕ → Client = λ e. elim e [
      | none ↦ m
      | some addr ↦ close_from rounds (i + 1) (close_connection m addr none)
    ] in
    elim (Option-cases (get_elem? m.connections.items i)) [
      | inl absent ↦ subst IsWell (sym (ap rest absent)) w
      | inr (addr, at) ↦ subst IsWell (sym (ap rest at)) (
          close_from-IsWell rounds (i + 1) (close_connection m addr none)
            (close_connection-IsWell m addr none w))
    ]

has-append_one : (k a : ℕ) (xs : List ℕ) → has k (xs ++ (a ∷ [])) ≡ (has k xs || a == k)
unfolding has
has-append_one k a [] = ground arith
has-append_one k a (x ∷ xs) = ground (arith, has-append_one k a xs)

append_one-AreDistinct :
    (a : ℕ) (xs : List ℕ) → has a xs ≡ false → AreDistinct xs → AreDistinct (xs ++ (a ∷ []))
unfolding has
append_one-AreDistinct a [] h d = (refl, tt)
append_one-AreDistinct a (x ∷ xs) h d =
    (ground (arith, has-append_one x a xs, d.0), append_one-AreDistinct a xs (ground arith) d.1)

pub below-length {ℓ} :
    {A : Type ℓ} (xs : List A) (i : ℕ) (v : A) → get_elem? xs i ≡ some v → i < length xs
below-length [] i v e = cc
below-length (x ∷ xs) zero v e = omega arith
below-length (x ∷ xs) (suc i) v e = omega (arith, below-length xs i v e)

-- A new address is none of the old ones.
new_address :
    (heap : List Connection) (xs : List ℕ) → All (IsOpenAt heap) xs → has (length heap) xs ≡ false
unfolding has
new_address heap [] h = refl
new_address heap (x ∷ xs) h =
    let (c, at, is_open) = h.0 in ground (arith, below-length heap x c at, new_address heap xs h.1)

All-grown :
    (heap : List Connection) (conn : Connection) (xs : List ℕ)
    → All (IsOpenAt heap) xs
    → All (IsOpenAt (heap ++ (conn ∷ []))) xs
All-grown heap conn [] h = tt
All-grown heap conn (x ∷ xs) h =
    let (c, at, is_open) = h.0 in
    ((c, get_elem?-append_some heap (conn ∷ []) x at, is_open), All-grown heap conn xs h.1)

pub at_length {ℓ} :
    {A : Type ℓ} (xs : List A) (v : A) → get_elem? (xs ++ (v ∷ [])) (length xs) ≡ some v
at_length [] v = refl
at_length (x ∷ xs) v = at_length xs v

join_connection-IsWell :
    (m : Client) (conn : Connection)
    → conn.closed_mark ≡ false
    → m.connections.size < m.config.max_connections
    → IsWell m
    → IsWell (join_connection m (some conn)).1
join_connection-IsWell m conn is_open room w =
    let xs = view m.connections in
    let a = length m.heap in
    let joined : view (whole (xs ++ (a ∷ []))) ≡ xs ++ (a ∷ []) = view-whole (xs ++ (a ∷ [])) in
    let fits = w.fits in
    let counted = w.counted in
    let size = length-take m.connections.size m.connections.items in
    let one_more = length-append xs (a ∷ []) in
    record {
      all_open = subst (All (IsOpenAt (m.heap ++ (conn ∷ [])))) (sym joined) (
          All-append (IsOpenAt (m.heap ++ (conn ∷ []))) xs (a ∷ [])
            (All-grown m.heap conn xs w.all_open) ((conn, at_length m.heap conn, is_open), tt));
      distinct =
          subst AreDistinct (sym joined)
            (append_one-AreDistinct a xs (new_address m.heap xs w.all_open) w.distinct);
      fits = omega arith;
      counted = omega (arith, counted, fits, size, one_more);
      limited = omega (arith, fits, size, one_more, room);
    }

dialled :
    (dials : Bool) (m : Client)
    → m.connections.size < m.config.max_connections
    → IsWell m
    → IsWell
        (if dials
          then join_connection m (new_connection role_client m.config.tcp_write_queue_len)
          else (fails dial_failed, m)).1
unfolding new_connection new_channel place_channel
dialled true m room w =
    join_connection-IsWell m
      (new_channel (no_channels role_client m.config.tcp_write_queue_len) true 0).1 refl room w
dialled false m room w = w

client_new_connection-IsWell :
    (dials : Bool) (m : Client) → IsWell m → IsWell (client_new_connection dials m).1
unfolding client_new_connection new_connection new_channel place_channel
client_new_connection-IsWell dials m w =
    elim (Bool-cases (leb m.config.max_connections m.connections.size)) [
      | inl full ↦
          subst (λ (r : Result ℕ × Client). IsWell r.1)
            (sym (if_true (leb m.config.max_connections m.connections.size) _ _ full)) w
      | inr below ↦
          subst (λ (r : Result ℕ × Client). IsWell r.1)
            (sym (if_false (leb m.config.max_connections m.connections.size) _ _ below))
            (dialled dials m (ground arith) w)
    ]

get_free_connection-IsWell :
    (dials : Bool) (m : Client) → IsWell m → IsWell (get_free_connection dials m).1
unfolding get_free_connection
get_free_connection-IsWell dials m w =
    let rest : Option ℕ → Result ℕ × Client =
      λ e. elim e [ none ↦ client_new_connection dials m | some addr ↦ (returns addr, m) ] in
    elim (Option-cases
      (free_connection m.config.max_channels_per_conn m.heap (view m.connections))) [
        | inl absent ↦
            subst (λ (r : Result ℕ × Client). IsWell r.1) (sym (ap rest absent))
              (client_new_connection-IsWell dials m w)
        | inr (addr, at) ↦ subst (λ (r : Result ℕ × Client). IsWell r.1) (sym (ap rest at)) w
      ]

-- A step of a client: one of its operations, from its start to its end, or a step of one of its
-- connections, whatever that makes of the connection.
pub data ClientCall : Type 0 where
  gets_free : Bool → ClientCall
  dials_new : Bool → ClientCall
  steps : ℕ → Connection → ClientCall
  closes : ℕ → Option Reason → ClientCall
  removes : ℕ → ClientCall
  closes_all : ClientCall

unfoldable pub client_call : Client → ClientCall → Client
client_call m (gets_free dials) = (get_free_connection dials m).1
client_call m (dials_new dials) = (client_new_connection dials m).1
client_call m (steps addr conn) = settle m addr conn
client_call m (closes addr err) = close_connection m addr err
client_call m (removes addr) = remove_connection m addr
client_call m closes_all = close_client m

client_call-IsWell : (m : Client) (c : ClientCall) → IsWell m → IsWell (client_call m c)
unfolding client_call close_client
client_call-IsWell m (gets_free dials) w = get_free_connection-IsWell dials m w
client_call-IsWell m (dials_new dials) w = client_new_connection-IsWell dials m w
client_call-IsWell m (steps addr conn) w = settle-IsWell m addr conn w
client_call-IsWell m (closes addr err) w = close_connection-IsWell m addr err w
client_call-IsWell m (removes addr) w = remove_connection-IsWell m addr w
client_call-IsWell m closes_all w = close_from-IsWell m.connections.size 0 m w

unfoldable pub client_calls : Client → List ClientCall → Client
client_calls m [] = m
client_calls m (c ∷ cs) = client_calls (client_call m c) cs

client_calls-IsWell : (m : Client) (cs : List ClientCall) → IsWell m → IsWell (client_calls m cs)
unfolding client_calls
client_calls-IsWell m [] w = w
client_calls-IsWell m (c ∷ cs) w =
    client_calls-IsWell (client_call m c) cs (client_call-IsWell m c w)

-- Whatever operations a client that NewClient made goes through, and steps of its connections, in any
-- order but one after another, so that each newConnection is over before the next step begins: its
-- connections are open, no two of them are the same object, connCount counts them, and there are no
-- more of them than MaxConnections allows.
pub client_stays-IsWell :
    (config : ClientConfig) (cs : List ClientCall) → IsWell (client_calls (new_client config) cs)
unfolding new_client
client_stays-IsWell config cs = client_calls-IsWell (new_client config) cs (record {
  all_open = tt;
  distinct = tt;
  fits = omega arith;
  counted = refl;
  limited = omega arith;
})
