-- ===== src/Connection/History.antt =====
-- A connection after any history of channels opened and closed.
use iip.Prelude.{
  ℕ, ◌+◌, ◌%◌, ◌^◌, ◌≤◌, ◌<◌, ◌≡◌, inl, inr, refl, false, ◌||◌, List, [], ◌∷◌, Option, some, ◌==◌,
  Bool-cases, some_injective, length, get_elem?, arith,
}
use mathlib.Core.Path.{subst}
use iip.Prelude.Dict.{lookup, has}
use iip.Consts.{role_client, role_server}
use iip.Connection.{
  Connection, Channel, Reason, max_uint32, place_channel, new_channel, close_channel,
  new_connection, no_channels, get_channel,
}
use iip.Connection.Ids.{make_new_channel_id-IsNew}
use iip.Connection.Invariant.{
  IsWell, place_channel-IsWell, new_channel-IsWell, close_channel-IsWell,
}
use iip.Connection.Closing.{close_channel_max}

-- The calls on a connection that open and close channels.
pub data Call : Type 0 where
  opens : ℕ → Call
  closes : ℕ → Option Reason → Call

unfoldable pub call : Connection → Call → Connection
call m (opens choice) = (new_channel m false choice).1
call m (closes addr err) = close_channel m addr err

unfoldable pub calls : Connection → List Call → Connection
calls m [] = m
calls m (c ∷ cs) = calls (call m c) cs

call-IsWell :
    (m : Connection) (c : Call)
    → IsWell m
    → m.max_channel_id < max_uint32
    → IsWell (call m c) × ((call m c).max_channel_id ≤ m.max_channel_id + 1)
unfolding call
call-IsWell m (opens choice) w room =
    let n = make_new_channel_id-IsNew m choice w.ids (inr room) in
    ((new_channel-IsWell m choice w (inr room)).0, unfold new_channel place_channel in n.grows)
call-IsWell m (closes addr err) w room =
    (close_channel-IsWell m addr err w, rw (close_channel_max m addr err) (omega arith))

calls-IsWell :
    (cs : List Call) (m : Connection)
    → IsWell m
    → m.max_channel_id + length cs ≤ max_uint32
    → IsWell (calls m cs)
unfolding calls
calls-IsWell [] m w h = w
calls-IsWell (c ∷ cs) m w h =
    let (well, grown) = call-IsWell m c w (omega arith) in
    calls-IsWell cs (call m c) well (omega arith)

no_channels-IsWell : (role write_queue_len : ℕ) → IsWell (no_channels role write_queue_len)
unfolding lookup has
no_channels-IsWell role write_queue_len = record {
  ids = record {
    open_bounded = λ j e. cc;
    free_bounded = λ j e. cc;
    apart = λ j e. cc;
    fits = omega arith;
  };
  distinct = tt;
  counted = refl;
  linked = λ j a e. cc;
  open_linked = λ a c e live. cc;
}

pub new_connection-IsWell :
    (role write_queue_len : ℕ) (m : Connection)
    → new_connection role write_queue_len ≡ some m
    → IsWell m × (m.max_channel_id ≡ 0)
unfolding new_connection new_channel
new_connection-IsWell role write_queue_len m e =
    elim (Bool-cases (role == role_client || role == role_server)) [
      | inl known ↦
          let made = some_injective (rw known at e) in
          subst (λ (x : Connection). IsWell x × (x.max_channel_id ≡ 0)) made
            (
              place_channel-IsWell 0 (no_channels role write_queue_len)
                  (no_channels-IsWell role write_queue_len) (unfold has in refl)
                  (unfold has in refl) (omega arith),
              unfold place_channel in refl,
            )
      | inr other ↦ cc (rw other at e)
    ]

-- Whatever channels are opened and closed on a new connection, in any order, by fewer than 2^32
-- calls: two open channels with the same id are the same channel, an open channel is found under
-- its id, and the channel count is the number of channels in the map.
pub open_channels_distinct :
    (role write_queue_len : ℕ) (m : Connection) (cs : List Call) (a b : ℕ) (c d : Channel)
    → new_connection role write_queue_len ≡ some m
    → length cs ≤ max_uint32
    → get_elem? (calls m cs).heap a ≡ some c
    → c.closed_mark ≡ false
    → get_elem? (calls m cs).heap b ≡ some d
    → d.closed_mark ≡ false
    → c.id ≡ d.id
    → (a ≡ b)
      × (get_channel (calls m cs) c.id ≡ some a)
      × ((calls m cs).channel_count ≡ length (calls m cs).channels % 2 ^ 32)
unfolding get_channel
open_channels_distinct role write_queue_len m cs a b c d made few ga oa gb ob same =
    let (well, start) = new_connection-IsWell role write_queue_len m made in
    let w = calls-IsWell cs m well (omega arith) in
    let found = w.open_linked a c ga oa in
    (some_injective (cc (found, w.open_linked b d gb ob, same)), found, w.counted)
