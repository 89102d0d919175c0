-- ===== src/Client/Channels.antt =====
-- client.go: the channels that a client sends requests on (ClientChannel, DoRequest, DoStreamRequest,
-- newChannel).
use iip.Prelude.{
  ℕ, Bool, true, false, not, ◌&&◌, List, [], ◌∷◌, ◌++◌, Option, none, some, ltb, ◌==◌,
  if◌then◌else◌, length, get_elem?,
}
use iip.Consts.{packet_type_request, path_new_channel}
use iip.Packet.{Packet}
use iip.Connection.{Connection, Channel, Reason, new_channel}
use iip.Send.{send_packet}
use iip.Server.{validate_path}
use iip.Context.{new_default_request}
use iip.Client.{
  Client, Result, returns, fails, panics, channel_is_nil, channel_invalid, invalid_path,
  data_is_nil, send_failed, request_timeout, unknown_error, refused_channel, settle,
}

-- A ClientChannel: its connection and its internal channel on that one's heap, if there is one, and
-- the requests that wait for their responses, oldest first.
pub record ClientChannel : Type 0 where
  pub internal_channel : Option (ℕ × ℕ)
  pub uncompleted : List (List ℕ)

abbrev pub request_packet : ℕ → Channel → List ℕ → List ℕ → Packet
request_packet addr c path bytes = record {
  type = packet_type_request;
  status = 0;
  path = path;
  channel_id = c.id;
  payload = bytes;
  dont_chunk = true;
  channel = some addr;
}

-- The first test of DoRequest and DoStreamRequest: none is a channel that can be used. Where the
-- connection is closed and the channel has no error, the text of that error is asked of nil.
unfoldable pub check_channel : Connection → Channel → Option (Result Unit)
check_channel conn c = elim c.err [
  | some e ↦ some (fails (channel_invalid e))
  | none ↦ if conn.closed_mark then some panics else none
]

-- PushTail: the request waits behind the others.
unfoldable pub push_tail : ClientChannel → List ℕ → ClientChannel
push_tail cc bytes = record cc { uncompleted = cc.uncompleted ++ (bytes ∷ []) }

abbrev pub all_but_last : List (List ℕ) → List (List ℕ)
all_but_last [] = []
all_but_last (x ∷ []) = []
all_but_last (x ∷ (y ∷ rest)) = x ∷ all_but_last (y ∷ rest)

-- PopTail: the request that was pushed last is taken out again.
unfoldable pub pop_tail : ClientChannel → ClientChannel
pop_tail cc = record cc { uncompleted = all_but_last cc.uncompleted }

-- What SendPacket leads to, once the request was pushed: the deferred PopTail after an error. The
-- client learns of a connection that closed.
unfoldable pub after_send_packet :
    Client → ℕ → ClientChannel → Option Reason × Connection → Result Unit × ClientChannel × Client
unfolding pop_tail
after_send_packet m conn_addr pushed (none, conn) = (returns tt, pushed, settle m conn_addr conn)
after_send_packet m conn_addr pushed (some e, conn) =
    (fails (send_failed e), pop_tail pushed, settle m conn_addr conn)

-- From the first test on.
unfoldable pub send_checked :
    (List ℕ → Bool)
    → Client
    → ClientChannel
    → ℕ
    → ℕ
    → List ℕ
    → List ℕ
    → Connection
    → Channel
    → Option (Result Unit)
    → Result Unit × ClientChannel × Client
unfolding validate_path push_tail after_send_packet
send_checked parses m cc conn_addr addr path bytes conn c (some refused) = (refused, cc, m)
send_checked parses m cc conn_addr addr path bytes conn c none =
    if not (validate_path parses path)
    then (fails invalid_path, cc, m)
    else if length bytes == 0
    then (fails data_is_nil, cc, m)
    else after_send_packet m conn_addr (push_tail cc bytes)
        (send_packet conn addr (request_packet addr c path bytes))

unfoldable pub send_request :
    (List ℕ → Bool)
    → Client
    → ClientChannel
    → ℕ
    → ℕ
    → List ℕ
    → List ℕ
    → Connection
    → Channel
    → Result Unit × ClientChannel × Client
unfolding check_channel send_checked
send_request parses m cc conn_addr addr path bytes conn c =
    send_checked parses m cc conn_addr addr path bytes conn c (check_channel conn c)

module _ (parses : List ℕ → Bool) (m : Client) (cc : ClientChannel) (path bytes : List ℕ) where
  -- Addresses lead to objects: no object stands for a nil channel.
  abbrev pub send_found : ℕ → ℕ → Connection → Option Channel → Result Unit × ClientChannel × Client
  send_found conn_addr addr conn none = (fails channel_is_nil, cc, m)
  send_found conn_addr addr conn (some c) =
      send_request parses m cc conn_addr addr path bytes conn c

  abbrev pub send_over : ℕ → ℕ → Option Connection → Result Unit × ClientChannel × Client
  send_over conn_addr addr none = (fails channel_is_nil, cc, m)
  send_over conn_addr addr (some conn) = send_found conn_addr addr conn (get_elem? conn.heap addr)

  abbrev pub send_in : Option (ℕ × ℕ) → Result Unit × ClientChannel × Client
  send_in none = (fails channel_is_nil, cc, m)
  send_in (some (conn_addr, addr)) = send_over conn_addr addr (get_elem? m.heap conn_addr)

  -- (*ClientChannel).DoStreamRequest; `bytes` is the request's Data.
  unfoldable pub do_stream_request : Result Unit × ClientChannel × Client
  unfolding send_request
  do_stream_request = send_in cc.internal_channel

-- What comes first on the way back: the timer, or a response, which may be nil.
abbrev pub await : Option (Option (List ℕ)) → Result (List ℕ)
await none = fails request_timeout
await (some none) = fails unknown_error
await (some (some resp)) = returns resp

abbrev pub after_send :
    Option (Option (List ℕ))
    → Result Unit × ClientChannel × Client
    → Result (List ℕ) × ClientChannel × Client
after_send arrived (returns done, cc, m) = (await arrived, cc, m)
after_send arrived (fails e, cc, m) = (fails e, cc, m)
after_send arrived (panics, cc, m) = (panics, cc, m)

-- (*ClientChannel).DoRequest: it sends as DoStreamRequest does, and waits.
unfoldable pub do_request_of_channel :
    (List ℕ → Bool)
    → Client
    → ClientChannel
    → List ℕ
    → List ℕ
    → Option (Option (List ℕ))
    → Result (List ℕ) × ClientChannel × Client
unfolding do_stream_request
do_request_of_channel parses m cc path bytes arrived =
    after_send arrived (do_stream_request parses m cc path bytes)

-- What newChannel makes of the server's answer, a channel id and a code, if it can be decoded. The
-- id of the client's own channel is its own choice.
abbrev pub accept_channel :
    Client → ℕ → ℕ → Option (ℕ × ℕ) → Option Connection → Result ClientChannel × Client
accept_channel m conn_addr choice none conn = (fails refused_channel, m)
accept_channel m conn_addr choice (some answer) none = (panics, m)
accept_channel m conn_addr choice (some (channel_id, code)) (some conn) =
    if ltb 0 channel_id && code == 0
    then (
      returns (record {
        internal_channel = some (conn_addr, (new_channel conn false choice).0);
        uncompleted = [];
      }),
      settle m conn_addr (new_channel conn false choice).1,
    )
    else (fails refused_channel, m)

abbrev pub answered_channel :
    ℕ
    → ℕ
    → (List ℕ → Option (ℕ × ℕ))
    → Result (List ℕ) × ClientChannel × Client
    → Result ClientChannel × ClientChannel × Client
answered_channel conn_addr choice decode (fails e, sys, m) = (fails e, sys, m)
answered_channel conn_addr choice decode (panics, sys, m) = (panics, sys, m)
answered_channel conn_addr choice decode (returns resp, sys, m) =
    let (channel, m') =
      accept_channel m conn_addr choice (decode resp) (get_elem? m.heap conn_addr) in
    (channel, sys, m')

-- (*Client).newChannel over a connection's channel 0, whose queue of requests is `sys`.
unfoldable pub client_new_channel :
    (List ℕ → Bool)
    → (List ℕ → Option (ℕ × ℕ))
    → ℕ
    → Client
    → ℕ
    → ClientChannel
    → Option (Option (List ℕ))
    → Result ClientChannel × ClientChannel × Client
unfolding do_request_of_channel new_default_request
client_new_channel parses decode choice m conn_addr sys arrived =
    answered_channel conn_addr choice decode (
      do_request_of_channel parses m sys path_new_channel (new_default_request (123 ∷ (125 ∷ [])))
        arrived)
