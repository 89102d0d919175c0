-- ===== src/Handlers.antt =====
-- protocol.go: handleServerLoop and handleClientLoop, the goroutines that put the packets of a
-- channel together and call the handler.
-- One round takes one packet off the channel's queue. The handler and the texts of error
-- responses are parameters: code outside these loops.
pub mod Assembly
pub mod Matching
mod Tests
use iip.Prelude.{ℕ, Bool, true, false, List, [], ◌∷◌, ◌++◌, Option, none, some, ◌==◌, if◌then◌else◌}
use iip.Consts.{packet_type_response, status_8}
use iip.Packet.{Packet}
use iip.Status.{is_client_status_completed, is_server_status_completed}
use iip.Statis.{Count, no_count}
use iip.Connection.{Connection, closed_by_peer, request_not_found, close_channel}
use iip.Send.{count_all, send_packet}

-- What a handler returns: data, which may be empty, or an error.
pub data Answer : Type 0 where
  answers : List ℕ → Answer
  fails : Answer

pub data HandleError : Type 0 where
  handle_error : HandleError
  handle_no_response : HandleError

-- The packets so far and the one that came, in both directions.
unfoldable pub merge : Option Packet → Packet → Packet
merge none pkt = pkt
merge (some part) pkt = record part { payload = part.payload ++ pkt.payload; status = pkt.status }

-- The data to send back, if there is a response or an error.
unfoldable pub response_data : (HandleError → List ℕ) → Bool → Answer → Option (List ℕ)
response_data error_data completed fails = some (error_data handle_error)
response_data error_data completed (answers (b ∷ bs)) = some (b ∷ bs)
response_data error_data true (answers []) = some (error_data handle_no_response)
response_data error_data false (answers []) = none

-- A server's loop: the request that is not complete, the connection, whether the loop has ended, and
-- what it has called the handler with and sent back, newest first.
pub record Serving : Type 0 where
  pub part : Option Packet
  pub conn : Connection
  pub stopped : Bool
  pub calls : List (Packet × Bool)
  pub responses : List (List ℕ)

-- The packet of a response, on the path of the request. Where that has a query, parsePath has taken it
-- off before; here a path has none.
abbrev pub response_packet : ℕ → Packet → List ℕ → Packet
response_packet addr pkt bytes = record {
  type = packet_type_response;
  status = 0;
  path = pkt.path;
  channel_id = pkt.channel_id;
  payload = bytes;
  dont_chunk = false;
  channel = some addr;
}

abbrev pub respond : ℕ → Packet → Option (List ℕ) → Serving → Serving
respond addr pkt none s = s
respond addr pkt (some bytes) s = record s {
  conn = (send_packet s.conn addr (response_packet addr pkt bytes)).1;
  responses = bytes ∷ s.responses;
}

-- The end of a round: a complete request is counted and forgotten.
abbrev pub finish_request : ℕ → Packet → Packet → Serving → Serving
finish_request addr pkt merged s =
    if is_client_status_completed pkt.status
    then record s {
      part = none;
      conn = count_all s.conn addr pkt.path (record no_count { whole_packet_received = 1 });
    }
    else record s { part = some merged }

unfoldable pub handle_server_round :
    (Packet → Bool → Answer) → (HandleError → List ℕ) → ℕ → Serving → Packet → Serving
handle_server_round handle error_data addr s pkt =
    let merged = merge s.part pkt in
    let completed = is_client_status_completed merged.status in
    let called = record s { calls = (merged, completed) ∷ s.calls } in
    if s.stopped
    then s
    else if pkt.status == status_8
    then record s { conn = close_channel s.conn addr (some closed_by_peer); stopped = true }
    else finish_request addr pkt merged
        (respond addr pkt (response_data error_data completed (handle merged completed)) called)

unfoldable pub handle_server_loop :
    (Packet → Bool → Answer) → (HandleError → List ℕ) → ℕ → Serving → List Packet → Serving
handle_server_loop handle error_data addr s [] = s
handle_server_loop handle error_data addr s (pkt ∷ pkts) =
    handle_server_loop handle error_data addr (handle_server_round handle error_data addr s pkt)
      pkts

-- A client's loop: the same, with the requests that wait for their responses, oldest first, what it
-- has called the handler with for which request, and the requests whose responses are complete,
-- each with the data that it notifies the request's channel of.
pub record Receiving (Request : Type 0) : Type 0 where
  pub part : Option Packet
  pub conn : Connection
  pub stopped : Bool
  pub uncompleted : List Request
  pub calls : List (Request × Packet × Bool)
  pub completed : List (Request × List ℕ)

module _ {Request : Type 0} where
  abbrev pub finish_response : ℕ → Request → Packet → Packet → Receiving Request → Receiving Request
  finish_response addr req pkt merged s =
      if is_server_status_completed pkt.status
      then record s {
        part = none;
        conn = count_all s.conn addr pkt.path (record no_count { whole_packet_received = 1 });
        completed = s.completed ++ ((req, merged.payload) ∷ []);
      }
      else record s { part = some merged; uncompleted = req ∷ s.uncompleted }

  -- From PopHead on; the handler's result is only logged.
  abbrev pub handle_response : ℕ → Packet → Receiving Request → List Request → Receiving Request
  handle_response addr pkt s [] = record s {
    conn = close_channel s.conn addr (some request_not_found);
    stopped = true;
  }
  handle_response addr pkt s (req ∷ reqs) =
      let merged = merge s.part pkt in
      finish_response addr req pkt merged (record s {
        uncompleted = reqs;
        calls = (req, merged, is_server_status_completed pkt.status) ∷ s.calls;
      })

  unfoldable pub handle_client_round : ℕ → Receiving Request → Packet → Receiving Request
  handle_client_round addr s pkt =
      if s.stopped
      then s
      else if pkt.status == status_8
      then record s { conn = close_channel s.conn addr (some closed_by_peer); stopped = true }
      else handle_response addr pkt s s.uncompleted

  unfoldable pub handle_client_loop : ℕ → Receiving Request → List Packet → Receiving Request
  handle_client_loop addr s [] = s
  handle_client_loop addr s (pkt ∷ pkts) =
      handle_client_loop addr (handle_client_round addr s pkt) pkts

-- The notification of a request's channel, of room for one response: none where no one waits. Data
-- that still lies there is taken out, and then nothing is put in.
abbrev pub notify : List ℕ → Option (Option (List ℕ)) → Option (Option (List ℕ))
notify response none = none
notify response (some none) = some (some response)
notify response (some (some stale)) = some none
