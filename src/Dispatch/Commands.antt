-- ===== src/Dispatch/Commands.antt =====
-- handle.go: what the reserved paths of a server do to a connection.
use iip.Prelude.{
  ℕ, ◌≡◌, refl, sym, ap, ◌∙◌, Bool, true, false, List, ◌∷◌, none, some, if_true, if_false, ◌==◌,
  get_elem?, arith,
}
use mathlib.Core.Path.{subst}
use iip.Prelude.Dict.{lookup, lookup-erase, keys, has}
use iip.Prelude.Texts.{is_same, is_same_self}
use iip.Consts.{path_new_channel, path_delete_channel}
use iip.Packet.{Packet}
use iip.Connection.{
  Connection, Channel, closed_by_command, channel_is_invalid, new_channel, make_new_channel_id,
  close_channel, fresh_channel, remove_channel,
}
use iip.Connection.Ids.{HasRoom, make_new_channel_id-IsNew}
use iip.Connection.Closing.{close_channel_open}
use iip.Connection.Invariant.{IsWell, new_channel-IsWell, get_elem?-update}
use iip.Send.{send_packet, send_from}
use iip.Server.{HandlerMap}
use iip.Dispatch.{
  Url, Parsed, Json, Handled, responds, invalid_packet, parse_path, ServerPathHandler, switch_on,
  switch_path, handle_request, answer_new_channel,
}

-- A channel that was closed is marked, stands in the map no more, and sends nothing.
abbrev marked : Channel → Channel
marked d = record d { closed_mark = true; err = some closed_by_command }

closed_sends_nothing :
    (conn : Connection) (addr : ℕ) (c : Channel) (pkt : Packet)
    → get_elem? conn.heap addr ≡ some c
    → c.closed_mark ≡ false
    → let gone = close_channel conn addr (some closed_by_command) in
      (get_elem? gone.heap addr ≡ some (marked c))
      × (lookup c.id gone.channels ≡ none)
      × (send_packet gone addr pkt ≡ (some channel_is_invalid, gone))
unfolding send_packet send_from remove_channel iip.Statis.update
closed_sends_nothing conn addr c pkt at live =
    let gone = close_channel conn addr (some closed_by_command) in
    let itself : (addr == addr) ≡ true = ground arith in
    let at_gone : get_elem? gone.heap addr ≡ some (marked c) =
      ap (λ (m : Connection). get_elem? m.heap addr)
        (close_channel_open conn addr (some closed_by_command) c at live)
      ∙ get_elem?-update conn.heap addr addr marked
      ∙ if_true (addr == addr) _ _ itself
      ∙ ap (λ o. elim o [ none ↦ none | some d ↦ some (marked d) ]) at in
    let same_id : (c.id == c.id) ≡ true = ground arith in
    let no_more : lookup c.id gone.channels ≡ none =
      ap (λ (m : Connection). lookup c.id m.channels)
        (close_channel_open conn addr (some closed_by_command) c at live)
      ∙ lookup-erase c.id c.id conn.channels
      ∙ if_true (c.id == c.id) _ _ same_id in
    (
      at_gone,
      no_more,
      ap
          (λ o. elim o [
            | none ↦ (some channel_is_invalid, gone)
            | some d ↦ send_from gone addr pkt d
          ])
          at_gone,
    )

module _ {Query : Type 0} (url : Url Query) (json : Json)
    (handlers : HandlerMap (ServerPathHandler url)) where
  -- A request for this path, on the channel at this address.
  abbrev pub IsFor : List ℕ → Parsed Query → ℕ → Type 0
  IsFor path p addr =
      (b : ℕ) × (bs : List ℕ) × (p.packet.path ≡ b ∷ bs)
      × (p.packet.channel ≡ some addr)
      × ((parse_path url p).packet.path ≡ path)

  -- Such a request reaches the switch.
  switched :
      (choice : ℕ) (conn : Connection) (p : Parsed Query) (completed : Bool) (path : List ℕ)
      (addr : ℕ)
      → IsFor path p addr
      → handle_request url json handlers choice conn p completed
        ≡ switch_path url json handlers choice conn addr (parse_path url p) completed
  unfolding handle_request
  switched choice conn p completed path addr (b, bs, e, on, same) =
      ap (λ t. switch_on url json handlers choice conn p completed t p.packet.channel) e
      ∙ ap (switch_on url json handlers choice conn p completed (b ∷ bs)) on

  -- A request for a new channel: a server whose connection has an id left opens one with an id that
  -- none of its open channels has, and answers with that id, whether or not the request is complete.
  pub new_channel_answered :
      (choice : ℕ) (conn : Connection) (p : Parsed Query) (completed : Bool) (addr : ℕ)
      → IsFor path_new_channel p addr
      → IsWell conn
      → HasRoom conn
      → let (handled, conn') = handle_request url json handlers choice conn p completed in
        let id = (make_new_channel_id conn choice).0 in
        (handled ≡ responds (json.new_channel_data id))
        × (has id (keys conn.channels) ≡ false)
        × (lookup id conn'.channels ≡ some (new_channel conn false choice).0)
        × IsWell conn'
  unfolding switch_path
  new_channel_answered choice conn p completed addr for_new well room =
      let id = (make_new_channel_id conn choice).0 in
      let (b, bs, e, on, same) = for_new in
      let opened = new_channel conn false choice in
      let (well', placed) = new_channel-IsWell conn choice well room in
      let taken : is_same (parse_path url p).packet.path path_new_channel ≡ true =
        ap (λ t. is_same t path_new_channel) same ∙ is_same_self path_new_channel in
      let route =
        switched choice conn p completed path_new_channel addr for_new
        ∙ if_true (is_same (parse_path url p).packet.path path_new_channel) _ _ taken in
      let answer : answer_new_channel url json opened ≡ responds (json.new_channel_data id) =
        ap (λ o. elim o [ none ↦ invalid_packet | some c ↦ responds (json.new_channel_data c.id) ])
          placed in
      subst
        (λ (r : Handled × Connection).
          (r.0 ≡ responds (json.new_channel_data id))
          × (has id (keys conn.channels) ≡ false)
          × (lookup id r.1.channels ≡ some (new_channel conn false choice).0)
          × IsWell r.1)
        (sym route)
        (
          answer,
          (make_new_channel_id-IsNew conn choice well.ids room).not_open,
          well'.open_linked opened.0 (fresh_channel id) placed refl,
          well',
        )

  -- A request to delete a channel that is open: the channel is marked as closed, with the error that
  -- says so, and its id leads to no channel of the connection any more; the answer that the server
  -- makes cannot be sent on it, nor can any other packet.
  pub delete_channel_unanswered :
      (choice : ℕ) (conn : Connection) (p : Parsed Query) (completed : Bool) (addr : ℕ)
      (c : Channel) (pkt : Packet)
      → IsFor path_delete_channel p addr
      → get_elem? conn.heap addr ≡ some c
      → c.closed_mark ≡ false
      → let (handled, conn') = handle_request url json handlers choice conn p completed in
        (handled ≡ responds json.delete_channel_data)
        × (get_elem? conn'.heap addr
            ≡ some (record c { closed_mark = true; err = some closed_by_command }))
        × (lookup c.id conn'.channels ≡ none)
        × (send_packet conn' addr pkt ≡ (some channel_is_invalid, conn'))
  unfolding switch_path
  delete_channel_unanswered choice conn p completed addr c pkt for_delete at live =
      let (b, bs, e, on, same) = for_delete in
      let path = (parse_path url p).packet.path in
      let not_new : is_same path path_new_channel ≡ false =
        ap (λ t. is_same t path_new_channel) same ∙ unfold is_same in refl in
      let taken : is_same path path_delete_channel ≡ true =
        ap (λ t. is_same t path_delete_channel) same ∙ is_same_self path_delete_channel in
      let route =
        switched choice conn p completed path_delete_channel addr for_delete
        ∙ if_false (is_same path path_new_channel) _ _ not_new
        ∙ if_true (is_same path path_delete_channel) _ _ taken in
      subst
        (λ (r : Handled × Connection).
          (r.0 ≡ responds json.delete_channel_data)
          × (get_elem? r.1.heap addr ≡ some (marked c))
          × (lookup c.id r.1.channels ≡ none)
          × (send_packet r.1 addr pkt ≡ (some channel_is_invalid, r.1)))
        (sym route)
        (let (shut, gone, mute) = closed_sends_nothing conn addr c pkt at live in
          (refl, shut, gone, mute))
