-- ===== src/Balance/TaskChannel.antt =====
-- lbclient.go: the channel on which a backend's client sends a request (getTaskChannel).
-- The channel that a connection has under CtxLblClientChannel stands under the connection's address.
-- `dials` says whether the server can be reached, `arrived` what comes back on a new connection.
pub mod Turns
mod Tests
use iip.Prelude.{
  ℕ, ◌+◌, Bool, List, [], ◌∷◌, Option, none, some, ltb, leb, if◌then◌else◌, get_elem?,
}
use iip.Prelude.Slices.{view}
use iip.Prelude.Dict.{lookup, insert}
use iip.Connection.{Connection}
use iip.Client.{
  Client, Result, returns, fails, panics, ClientError, unknown_error, client_new_connection,
  remove_connection,
}
use iip.Client.Channels.{ClientChannel, client_new_channel}

-- The client of an EvaluatedClient, and what getTaskChannel keeps.
pub record TaskClient : Type 0 where
  pub client : Client
  pub conn_index : ℕ
  pub lbl_client_channels : List (ℕ × ClientChannel)

-- Channel 0 of a connection, with its queue of requests, which is empty on a new connection.
abbrev pub channel_zero : ℕ → Option ℕ → Option ClientChannel
channel_zero conn_addr none = none
channel_zero conn_addr (some addr) =
    some (record { internal_channel = some (conn_addr, addr); uncompleted = [] })

unfoldable pub channel_zero_at : ℕ → Option Connection → Option ClientChannel
unfolding lookup
channel_zero_at conn_addr none = none
channel_zero_at conn_addr (some conn) = channel_zero conn_addr (lookup 0 conn.channels)

-- From the answer of newChannel on.
unfoldable pub keep_channel :
    TaskClient
    → ℕ
    → Result ClientChannel × ClientChannel × Client
    → Result ClientChannel × TaskClient
unfolding remove_connection insert
keep_channel t conn_addr (returns c, sys, m) = (
  returns c,
  record t { client = m; lbl_client_channels = insert conn_addr c t.lbl_client_channels },
)
keep_channel t conn_addr (fails e, sys, m) =
    (fails e, record t { client = remove_connection m conn_addr })
keep_channel t conn_addr (panics, sys, m) = (panics, record t { client = m })

unfoldable pub channel_over :
    (List ℕ → Bool)
    → (List ℕ → Option (ℕ × ℕ))
    → ℕ
    → Option (Option (List ℕ))
    → TaskClient
    → ℕ
    → Client
    → Option ClientChannel
    → Result ClientChannel × TaskClient
unfolding client_new_channel keep_channel
channel_over parses decode choice arrived t conn_addr m none = (panics, record t { client = m })
channel_over parses decode choice arrived t conn_addr m (some sys) =
    keep_channel t conn_addr (client_new_channel parses decode choice m conn_addr sys arrived)

unfoldable pub open_channel :
    (List ℕ → Bool)
    → (List ℕ → Option (ℕ × ℕ))
    → ℕ
    → Option (Option (List ℕ))
    → TaskClient
    → Result ℕ × Client
    → Result ClientChannel × TaskClient
unfolding channel_over channel_zero_at
open_channel parses decode choice arrived t (returns addr, m) =
    channel_over parses decode choice arrived t addr m
      (channel_zero_at addr (get_elem? m.heap addr))
open_channel parses decode choice arrived t (fails e, m) = (fails e, record t { client = m })
open_channel parses decode choice arrived t (panics, m) = (panics, record t { client = m })

-- The channel of the connection whose turn it is; an index out of range is a panic.
unfoldable pub channel_on : TaskClient → Option ℕ → Result ClientChannel
unfolding lookup
channel_on t none = panics
channel_on t (some addr) = elim (lookup addr t.lbl_client_channels) [
  | none ↦ fails unknown_error
  | some c ↦ returns c
]

abbrev pub next_index : TaskClient → ℕ
next_index t = if leb t.client.conn_count (t.conn_index + 1) then 0 else t.conn_index + 1

-- (*EvaluatedClient).getTaskChannel, where serverKeepConns is `keep`.
unfoldable pub get_task_channel :
    (List ℕ → Bool)
    → (List ℕ → Option (ℕ × ℕ))
    → ℕ
    → Option (Option (List ℕ))
    → Bool
    → ℕ
    → TaskClient
    → Result ClientChannel × TaskClient
unfolding client_new_connection open_channel channel_on
get_task_channel parses decode choice arrived dials keep t =
    if ltb t.client.conn_count keep
    then open_channel parses decode choice arrived t (client_new_connection dials t.client)
    else (
      channel_on t (get_elem? (view t.client.connections) (next_index t)),
      record t { conn_index = next_index t },
    )
