-- ===== src/Dispatch.antt =====
-- handle.go and protocol.go: what the handlers of a connection do with a packet that has come
-- (serverHandler, clientHandler, Packet.parsePath, Packet.PathParam).
-- net/url and the JSON of the answers are parameters; so are the handlers that users register.
pub mod Commands
mod Tests
use iip.Prelude.{
  ℕ, Bool, true, false, List, [], ◌∷◌, ◌++◌, Option, none, some, if◌then◌else◌, get_elem?,
}
use iip.Prelude.Texts.{is_same}
use iip.Consts.{path_new_channel, path_delete_channel}
use iip.Packet.{Packet}
use iip.Connection.{Connection, closed_by_command, new_channel, close_channel}
use iip.Server.{HandlerMap, RegisterError, get_handler, register_handler, un_register_handler}

-- What url.Parse gives: a path and the values of the query. A Get of no key gives the empty text.
pub record Url (Query : Type 0) : Type 0 where
  pub parse : List ℕ → Option (List ℕ × Query)
  pub no_query : Query
  pub get : Query → List ℕ → List ℕ

-- A Packet with what parsePath keeps; none is a nil map.
pub record Parsed (Query : Type 0) : Type 0 where
  pub packet : Packet
  pub params : Option Query

-- What a user's handler returns, or that it panics, which the caller recovers from.
pub data UserAnswer : Type 0 where
  user_data : List ℕ → UserAnswer
  user_error : List ℕ → UserAnswer
  user_panics : UserAnswer

pub data Handled : Type 0 where
  responds : List ℕ → Handled
  invalid_packet : Handled
  not_implemented : Handled
  handler_failed : List ℕ → Handled

-- encoding/json of ResponseNewChannel, ResponseDeleteChannel and ResponseHandleFail.
pub record Json : Type 0 where
  pub new_channel_data : ℕ → List ℕ
  pub delete_channel_data : List ℕ
  pub handle_fail_data : List ℕ → List ℕ

-- "handler fail:"
abbrev pub handler_fail : List ℕ
handler_fail = 104 ∷ 97 ∷ 110 ∷ 100 ∷ 108 ∷ 101 ∷ 114 ∷ 32 ∷ 102 ∷ 97 ∷ 105 ∷ 108 ∷ 58 ∷ []

module _ {Query : Type 0} (url : Url Query) where
  abbrev pub parsed_as : Parsed Query → Option (List ℕ × Query) → Parsed Query
  parsed_as p none = record p { params = some url.no_query }
  parsed_as p (some (path, query)) = record p {
    packet = record p.packet { path = path };
    params = some query;
  }

  abbrev pub parse_unless : Parsed Query → Option Query → Parsed Query
  parse_unless p (some params) = p
  parse_unless p none = parsed_as p (url.parse p.packet.path)

  unfoldable pub parse_path : Parsed Query → Parsed Query
  parse_path p = parse_unless p p.params

  abbrev pub get_param : List ℕ → Option Query → List ℕ
  get_param key none = []
  get_param key (some query) = url.get query key

  unfoldable pub path_param : Parsed Query → List ℕ → List ℕ
  unfolding parse_path
  path_param p key = get_param key (parse_path p).params

  -- What the handler of a path returns for a request, or for a response and its request.
  abbrev pub ServerPathHandler : Type 0
  ServerPathHandler = List ℕ → Query → List ℕ → Bool → UserAnswer

  abbrev pub user_answer : Json → UserAnswer → Handled
  user_answer json (user_data ret) = responds ret
  user_answer json (user_error text) = responds (json.handle_fail_data (handler_fail ++ text))
  user_answer json user_panics = responds []

  abbrev pub handler_of : Json → Parsed Query → Bool → Option ServerPathHandler → Handled
  handler_of json p completed none = not_implemented
  handler_of json p completed (some handle) = user_answer json (
      handle p.packet.path (elim p.params [ none ↦ url.no_query | some query ↦ query ])
        p.packet.payload completed)

  -- The id of the new channel, which the answer tells.
  abbrev pub answer_new_channel : Json → ℕ × Connection → Handled
  answer_new_channel json (addr, conn) = elim (get_elem? conn.heap addr) [
    | none ↦ invalid_packet
    | some c ↦ responds (json.new_channel_data c.id)
  ]

  -- The switch over the path of a request that came on the channel at an address.
  unfoldable pub switch_path :
      Json
      → HandlerMap ServerPathHandler
      → ℕ
      → Connection
      → ℕ
      → Parsed Query
      → Bool
      → Handled × Connection
  unfolding get_handler
  switch_path json handlers choice conn addr p completed =
      if is_same p.packet.path path_new_channel
      then (
        answer_new_channel json (new_channel conn false choice),
        (new_channel conn false choice).1,
      )
      else if is_same p.packet.path path_delete_channel
      then (responds json.delete_channel_data, close_channel conn addr (some closed_by_command))
      else (handler_of json p completed (get_handler handlers p.packet.path), conn)

  abbrev pub switch_on :
      Json
      → HandlerMap ServerPathHandler
      → ℕ
      → Connection
      → Parsed Query
      → Bool
      → List ℕ
      → Option ℕ
      → Handled × Connection
  switch_on json handlers choice conn p completed [] channel = (invalid_packet, conn)
  switch_on json handlers choice conn p completed (b ∷ path) none = (invalid_packet, conn)
  switch_on json handlers choice conn p completed (b ∷ path) (some addr) =
      switch_path json handlers choice conn addr (parse_path p) completed

  -- (*serverHandler).Handle.
  unfoldable pub handle_request :
      Json
      → HandlerMap ServerPathHandler
      → ℕ
      → Connection
      → Parsed Query
      → Bool
      → Handled × Connection
  unfolding switch_path parse_path
  handle_request json handlers choice conn p completed =
      switch_on json handlers choice conn p completed p.packet.path p.packet.channel

-- A ClientPathHandler's Handle: none is no error, and a panic, which the caller recovers from, counts
-- as none.
abbrev pub ClientPathHandler : Type 0 → Type 0
ClientPathHandler Request = List ℕ → Request → List ℕ → Bool → Option (List ℕ)

abbrev pub client_answer : Option (List ℕ) → Handled
client_answer none = responds []
client_answer (some text) = handler_failed text

module _ {Request : Type 0} where
  -- DefaultClientPathHandler.
  abbrev pub default_handle : ClientPathHandler Request
  default_handle path request bytes completed = none

  abbrev pub handler_or_default : Option (ClientPathHandler Request) → ClientPathHandler Request
  handler_or_default none = default_handle
  handler_or_default (some handle) = handle

  -- (*clientHandler).Handle of a response, with the request that the channel's context holds.
  abbrev pub handle_response_on :
      Json
      → HandlerMap (ClientPathHandler Request)
      → Connection
      → Request
      → Packet
      → Bool
      → List ℕ
      → Option ℕ
      → Handled × Connection
  handle_response_on json handlers conn request pkt completed [] channel = (invalid_packet, conn)
  handle_response_on json handlers conn request pkt completed (b ∷ path) none =
      (invalid_packet, conn)
  handle_response_on json handlers conn request pkt completed (b ∷ path) (some addr) =
      if is_same (b ∷ path) path_delete_channel
      then (responds json.delete_channel_data, close_channel conn addr (some closed_by_command))
      else (
        client_answer (
            handler_or_default (get_handler handlers (b ∷ path)) (b ∷ path) request pkt.payload
              completed),
        conn,
      )

  unfoldable pub handle_response_packet :
      Json
      → HandlerMap (ClientPathHandler Request)
      → Connection
      → Request
      → Packet
      → Bool
      → Handled × Connection
  unfolding get_handler
  handle_response_packet json handlers conn request pkt completed =
      handle_response_on json handlers conn request pkt completed pkt.path pkt.channel

  -- The methods of a Client's ClientPathHandlerManager, which Client.RegisterHandler and
  -- UnRegisterHandler call.
  unfoldable pub get_client_handler :
      HandlerMap (ClientPathHandler Request) → List ℕ → Option (ClientPathHandler Request)
  unfolding get_handler
  get_client_handler m path = get_handler m path

  unfoldable pub register_client_handler :
      (List ℕ → Bool)
      → HandlerMap (ClientPathHandler Request)
      → List ℕ
      → Option (ClientPathHandler Request)
      → Option RegisterError × HandlerMap (ClientPathHandler Request)
  unfolding register_handler
  register_client_handler parses m path handler = register_handler parses m path handler

  unfoldable pub un_register_client_handler :
      HandlerMap (ClientPathHandler Request) → List ℕ → HandlerMap (ClientPathHandler Request)
  unfolding un_register_handler
  un_register_client_handler m path = un_register_handler m path
