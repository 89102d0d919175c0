-- ===== src/Client/Requests.antt =====
-- client.go: what becomes of a request that a ClientChannel sends.
use iip.Prelude.{
  ℕ, ◌<◌, ◌≡◌, Bool, true, false, List, [], ◌∷◌, ◌++◌, Option, none, some, if◌then◌else◌, length,
  get_elem?, ◌⊎◌,
}
use iip.Connection.{Connection, Channel, Reason}
use iip.Send.Wire.{sent_from_client}
use iip.Server.{validate_path}
use iip.Client.{
  Client, Result, returns, fails, panics, settle, channel_invalid, invalid_path, data_is_nil,
}
use iip.Client.Channels.{ClientChannel, send_checked, request_packet}

-- The connection and the channel of a ClientChannel.
abbrev pub IsOn : Client → ClientChannel → ℕ → ℕ → Connection → Channel → Type 0
IsOn m ch conn_addr addr conn c =
    (ch.internal_channel ≡ some (conn_addr, addr))
    × (get_elem? m.heap conn_addr ≡ some conn)
    × (get_elem? conn.heap addr ≡ some c)

-- Why a request is refused, in the order of the tests: the error of the channel, a connection that is
-- closed where the channel has no error (the text of that error is asked of nil), the path, the data.
abbrev pub IsRefusal :
    (List ℕ → Bool) → List ℕ → List ℕ → Connection → Channel → Result Unit → Type 0
IsRefusal parses path bytes conn c result =
    ((e : Reason) × (c.err ≡ some e) × (result ≡ fails (channel_invalid e)))
    ⊎ (((c.err ≡ none) × (conn.closed_mark ≡ true) × (result ≡ panics))
        ⊎ (((validate_path parses path ≡ false) × (result ≡ fails invalid_path))
            ⊎ ((length bytes ≡ 0) × (result ≡ fails data_is_nil))))

-- When a request is not refused.
abbrev pub IsTried : (List ℕ → Bool) → List ℕ → List ℕ → Connection → Channel → Type 0
IsTried parses path bytes conn c =
    (c.err ≡ none)
    × (conn.closed_mark ≡ false)
    × (validate_path parses path ≡ true)
    × (0 < length bytes)

-- Sent: the caller has no error, the request waits behind the others, and the client's connection is
-- the one that took the packet.
abbrev pub IsSent :
    Client → ClientChannel → List ℕ → ℕ → Connection → Result Unit × ClientChannel × Client → Type 0
IsSent m ch bytes conn_addr sent (result, ch', m') =
    (result ≡ returns tt)
    × (ch' ≡ record ch { uncompleted = ch.uncompleted ++ (bytes ∷ []) })
    × (m' ≡ settle m conn_addr sent)

module _ (parses : List ℕ → Bool) (m : Client) (ch : ClientChannel) (path bytes : List ℕ)
    (conn_addr addr : ℕ) (conn : Connection) (c : Channel) where
  -- The connection once it took the packet.
  abbrev pub taken : Connection
  taken = sent_from_client conn addr (request_packet addr c path bytes)

  abbrev pub Outcome : Result Unit × ClientChannel × Client → Type 0
  Outcome r =
      (IsTried parses path bytes conn c × IsSent m ch bytes conn_addr taken r)
      ⊎ (IsRefusal parses path bytes conn c r.0 × (r.1 ≡ ch) × (r.2 ≡ m))

  abbrev on_error : Option Reason → Result Unit × ClientChannel × Client
  on_error err = send_checked parses m ch conn_addr addr path bytes conn c (elim err [
    | some e ↦ some (fails (channel_invalid e))
    | none ↦ if conn.closed_mark then some panics else none
  ])
