-- ===== src/Client/Races.antt =====
-- client.go: calls of newConnection that overlap with one another, or with what becomes of the
-- connection that one of them has made.
use iip.Prelude.{
  ℕ, ◌+◌, ◌≤◌, ◌<◌, ◌≡◌, refl, sym, ap, ◌∙◌, Bool, false, true, List, [], ◌∷◌, ◌++◌, Option, none,
  some, ltb, ◌==◌, if◌then◌else◌, if_true, if_false, arith, length, length-append, length-take,
  get_elem?, All, Bool-cases, inl, inr,
}
use mathlib.Core.Path.{subst}
use iip.Prelude.Dict.{has}
use iip.Prelude.Slices.{view, view-whole}
use iip.Statis.{update}
use iip.Connection.{Connection}
use iip.Connection.Invariant.{get_elem?-append_some, get_elem?-update}
use iip.Client.{
  Client, returns, is_limited, make_connection, append_connection, count_connection,
  join_connection, position, without_connection, take_out, settle, free_connection,
  client_new_connection, get_free_connection,
}
use iip.Client.WellFormed.{IsWell, IsOpenAt}
use iip.Client.Limits.{below-length, at_length}

-- The calls of newConnection go on, each with the connection that NewConnection made for it.
unfoldable pub go_on : Client → List Connection → Client
go_on m [] = m
go_on m (conn ∷ conns) = go_on (join_connection m (some conn)).1 conns

joined-size :
    (m : Client) (conn : Connection)
    → m.connections.size ≤ length m.connections.items
    → ((join_connection m (some conn)).1.connections.size ≡ m.connections.size + 1)
      × (length (join_connection m (some conn)).1.connections.items ≡ m.connections.size + 1)
joined-size m conn fits =
    let xs = view m.connections in
    let size = length-take m.connections.size m.connections.items in
    let one_more = length-append xs (length m.heap ∷ []) in
    (omega (arith, fits, size, one_more), omega (arith, fits, size, one_more))

go_on-size :
    (conns : List Connection) (m : Client)
    → m.connections.size ≤ length m.connections.items
    → (go_on m conns).connections.size ≡ m.connections.size + length conns
unfolding go_on
go_on-size [] m fits = omega arith
go_on-size (conn ∷ conns) m fits =
    let m' = (join_connection m (some conn)).1 in
    let (size, items) = joined-size m conn fits in
    omega (arith, size, go_on-size conns m' (omega (arith, size, items)))

go_on-config :
    (conns : List Connection) (m : Client)
    → (go_on m conns).config.max_connections ≡ m.config.max_connections
unfolding go_on
go_on-config [] m = refl
go_on-config (conn ∷ conns) m = go_on-config conns (join_connection m (some conn)).1

-- Calls of newConnection on a well formed client that overlap: where there is room for one connection
-- at least, each call that tests the limit before any of them appends passes the test; and when more
-- calls go on than there was room for, the client ends with one connection more for each call, which
-- is more than MaxConnections.
pub overlapping_calls_pass :
    (m : Client) (conns : List Connection) (room : ℕ)
    → IsWell m
    → m.connections.size + (room + 1) ≡ m.config.max_connections
    → room + 1 < length conns
    → (is_limited m ≡ false)
      × ((go_on m conns).connections.size ≡ m.connections.size + length conns)
      × ((go_on m conns).config.max_connections < (go_on m conns).connections.size)
overlapping_calls_pass m conns room w has_room more =
    let passes : is_limited m ≡ false = ground (arith, has_room) in
    let size = go_on-size conns m w.fits in
    (passes, size, omega (arith, size, go_on-config conns m, has_room, more))

has-below :
    (a : ℕ) (heap : List Connection) (xs : List ℕ)
    → All (IsOpenAt heap) xs
    → length heap ≤ a
    → has a xs ≡ false
unfolding has
has-below a heap [] h past = refl
has-below a heap (x ∷ xs) h past =
    let (c, at, is_open) = h.0 in
    ground (arith, below-length heap x c at, has-below a heap xs h.1 past)

position-absent : (addr : ℕ) (xs : List ℕ) → has addr xs ≡ false → position addr xs ≡ none
unfolding position has
position-absent addr [] h = refl
position-absent addr (x ∷ xs) h =
    let other : (x == addr) ≡ false = ground arith in
    let later : position addr xs ≡ none = position-absent addr xs (ground arith) in
    rw later (rw other refl)

late_object :
    (heap : List Connection) (conn conn' : Connection)
    → get_elem? (update (heap ++ (conn ∷ [])) (length heap) (λ old. conn')) (length heap)
      ≡ some conn'
late_object heap conn conn' =
    let itself : (length heap == length heap) ≡ true = ground arith in
    get_elem?-update (heap ++ (conn ∷ [])) (length heap) (length heap) (λ old. conn')
    ∙ if_true (length heap == length heap) _ _ itself
    ∙ ap (λ (o : Option Connection). elim o [ none ↦ none | some d ↦ some conn' ])
        (at_length heap conn)

-- A list of connections without a free one, and a connection behind it that has a channel to spare.
free_connection-behind :
    (max : ℕ) (heap : List Connection) (conn conn' : Connection) (xs : List ℕ)
    → All (IsOpenAt heap) xs
    → free_connection max heap xs ≡ none
    → length conn'.channels < max
    → free_connection max
        (update (heap ++ (conn ∷ [])) (length heap) (λ old. conn'))
        (xs ++ (length heap ∷ []))
      ≡ some (length heap)
unfolding free_connection
free_connection-behind max heap conn conn' [] opens full spare =
    let there = late_object heap conn conn' in
    let room : ltb (length conn'.channels) max ≡ true = ground (arith, spare) in
    ap
      (λ (o : Option Connection). elim o [
        | none ↦ none
        | some c ↦ if ltb (length c.channels) max then some (length heap) else none
      ])
      there
    ∙ if_true (ltb (length conn'.channels) max) _ _ room
free_connection-behind max heap conn conn' (x ∷ xs) opens full spare =
    let (c, at, is_open) = opens.0 in
    let less = below-length heap x c at in
    let apart : (length heap == x) ≡ false = ground (arith, less) in
    let there : get_elem? (update (heap ++ (conn ∷ [])) (length heap) (λ old. conn')) x ≡ some c =
      get_elem?-update (heap ++ (conn ∷ [])) (length heap) x (λ old. conn')
      ∙ if_false (length heap == x) _ _ apart
      ∙ get_elem?-append_some heap (conn ∷ []) x at in
    let pick : Option ℕ → Option Connection → Option ℕ = λ later o. elim o [
      | none ↦ later
      | some d ↦ if ltb (length d.channels) max then some x else later
    ] in
    let was : pick (free_connection max heap xs) (some c) ≡ none =
      sym (ap (pick (free_connection max heap xs)) at) ∙ full in
    elim (Bool-cases (ltb (length c.channels) max)) [
      | inl free ↦
          let some_x : some x ≡ none = sym (if_true (ltb (length c.channels) max) _ _ free) ∙ was in
          absurd (cc (some_x))
      | inr busy ↦
          let rest : free_connection max heap xs ≡ none =
            sym (if_false (ltb (length c.channels) max) _ _ busy) ∙ was in
          ap
            (pick (
              free_connection max (update (heap ++ (conn ∷ [])) (length heap) (λ old. conn'))
                (xs ++ (length heap ∷ []))))
            there
          ∙ if_false (ltb (length c.channels) max) _ _ busy
          ∙ free_connection-behind max heap conn conn' xs opens.1 rest spare
    ]

-- The connection that newConnection has made takes a step of its own before it is appended.
abbrev pub append_late : Client → Connection → Connection → Client
append_late m conn conn' =
    count_connection
      (append_connection (settle (make_connection m conn) (length m.heap) conn') (length m.heap))

-- A well formed client none of whose connections has a channel to spare, where a connection may have a
-- channel at all, and a newConnection whose connection is closed, and so has no channels, after it was
-- made and before it is appended: the next getFreeConnection returns this closed connection, dials no
-- other one, and leaves the client as it is.
pub closed_connection_returned :
    (dials : Bool) (m : Client) (conn conn' : Connection)
    → IsWell m
    → free_connection m.config.max_channels_per_conn m.heap (view m.connections) ≡ none
    → conn'.closed_mark ≡ true
    → conn'.channels ≡ []
    → 0 < m.config.max_channels_per_conn
    → let late = append_late m conn conn' in
      (get_free_connection dials late ≡ (returns (length m.heap), late))
      × (get_elem? late.heap (length m.heap) ≡ some conn')
unfolding get_free_connection settle take_out
closed_connection_returned dials m conn conn' w full closed empty room =
    let a = length m.heap in
    let max = m.config.max_channels_per_conn in
    let xs = view m.connections in
    let made = record (make_connection m conn) {
      heap = update (m.heap ++ (conn ∷ [])) a (λ old. conn');
    } in
    let absent : position a xs ≡ none =
      position-absent a xs (has-below a m.heap xs w.all_open (omega arith)) in
    let settled : settle (make_connection m conn) a conn' ≡ made =
      if_true conn'.closed_mark _ _ closed ∙ ap (without_connection made) absent in
    let late : Client = count_connection (append_connection made a) in
    let spare : length conn'.channels < max = omega (arith, room, ap length empty) in
    let found : free_connection max late.heap (view late.connections) ≡ some a =
      ap (free_connection max late.heap) (view-whole (xs ++ (a ∷ [])))
      ∙ free_connection-behind max m.heap conn conn' xs w.all_open full spare in
    subst
      (λ (k : Client).
        (get_free_connection dials (count_connection (append_connection k a))
          ≡ (returns a, count_connection (append_connection k a)))
        × (get_elem? k.heap a ≡ some conn'))
      (sym settled)
      (
        ap
            (λ (o : Option ℕ). elim o [
              | none ↦ client_new_connection dials late
              | some addr ↦ (returns addr, late)
            ])
            found,
        late_object m.heap conn conn',
      )
