-- ===== src/Connection/Tests.antt =====
-- A client connection with channels opened and closed, and the theorems applied to it.
use iip.Prelude.{ℕ, ◌%◌, ◌^◌, ◌≡◌, refl, true, List, [], ◌∷◌, none, some, length, get_elem?, arith}
use iip.Prelude.Dict.{insert, erase, put, remove}
use iip.Statis.{update}
use iip.Connection.{
  Connection, closed_by_peer, connection_is_closed, fresh_channel, place_channel, new_channel,
  make_new_channel_id, take_id, remove_channel, close_object, close_channel, close_channels, close,
  new_connection, get_channel, no_channels,
}
use iip.Connection.Invariant.{IsWell}
use iip.Connection.History.{
  Call, opens, closes, call, calls, new_connection-IsWell, open_channels_distinct,
}
use iip.Connection.Closing.{close_all}

-- A new client connection: the system channel, at address 0 under id 0.
abbrev started : Connection
started = (place_channel 0 (no_channels 0 100)).1

started-made : new_connection 0 100 ≡ some started
unfolding new_connection new_channel
started-made = refl

started-IsWell : IsWell started
started-IsWell = (new_connection-IsWell 0 100 started started-made).0

started-open : get_elem? started.heap 0 ≡ some (fresh_channel 0)
unfolding place_channel
started-open = refl

abbrev some_calls : List Call
some_calls = opens 0 ∷ opens 0 ∷ closes 1 none ∷ closes 1 (some closed_by_peer) ∷ opens 5 ∷ []

abbrev later : Connection
later = calls started some_calls

-- The channel opened last, at address 3, has the id of the one closed, 1.
reopened : get_elem? later.heap 3 ≡ some (fresh_channel 1)
unfolding calls call place_channel new_channel make_new_channel_id take_id close_channel
    close_object remove_channel insert erase put remove update
reopened = refl

open_channels_distinct_example :
    (◌≡◌ {A = ℕ} 3 3)
    × (get_channel later 1 ≡ some 3)
    × (later.channel_count ≡ length later.channels % 2 ^ 32)
open_channels_distinct_example =
    open_channels_distinct 0 100 started some_calls 3 3 (fresh_channel 1) (fresh_channel 1)
      started-made (omega arith) reopened refl reopened refl refl

closed_object :
    get_elem? (close started none).heap 0
    ≡ some (record (fresh_channel 0) { closed_mark = true; err = some connection_is_closed })
unfolding close close_channels close_channel close_object remove_channel place_channel insert erase
    put update
closed_object = refl

close_all_example :
    (true ≡ true)
    × ((close started none).channels ≡ [])
    × ((close started none).tcp_write_queue ≡ [])
unfolding place_channel
close_all_example = close_all started none 0 _ started-IsWell refl closed_object

abbrev two_free : Connection
two_free = record started { free_channel_id = 4 ∷ 2 ∷ [] }
