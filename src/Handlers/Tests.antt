-- ===== src/Handlers/Tests.antt =====
-- A request and a response in two packets each, and the theorems applied to them.
use iip.Prelude.{ℕ, ◌≡◌, refl, Bool, true, false, List, [], ◌∷◌, none, some, arith}
use iip.Packet.{Packet}
use iip.Status.{is_client_status_completed, is_server_status_completed}
use iip.Connection.{Connection, no_channels, place_channel}
use iip.Handlers.{
  Answer, answers, HandleError, Serving, Receiving, handle_server_loop, handle_client_loop,
}
use iip.Handlers.Assembly.{IsAssembled, IsRequestPart, IsRequestEnd, request_put_together}
use iip.Handlers.Matching.{Exchange, AreExchanges, packets_of, responses_in_order}

abbrev part : ℕ → List ℕ → Packet
part status payload = record {
  type = 4;
  status = status;
  path = 47 ∷ 97 ∷ [];
  channel_id = 0;
  payload = payload;
  dont_chunk = false;
  channel = some 0;
}

abbrev started : ℕ → Connection
started role = (place_channel 0 (no_channels role 100)).1

-- Answers a complete request with its own data, and nothing before.
abbrev echo : Packet → Bool → Answer
echo pkt true = answers pkt.payload
echo pkt false = answers []

abbrev no_text : HandleError → List ℕ
no_text e = 123 ∷ 125 ∷ []

abbrev serving : Serving
serving = record { part = none; conn = started 4; stopped = false; calls = []; responses = [] }

first-IsRequestPart : IsRequestPart (part 0 (1 ∷ []))
unfolding is_client_status_completed
first-IsRequestPart = (refl, omega arith)

last-IsRequestEnd : IsRequestEnd (part 3 (2 ∷ []))
unfolding is_client_status_completed
last-IsRequestEnd = (refl, omega arith)

request_put_together_example :
    IsAssembled echo no_text 0
      (1 ∷ 2 ∷ [])
      (handle_server_loop echo no_text 0 serving (part 0 (1 ∷ []) ∷ part 3 (2 ∷ []) ∷ []))
request_put_together_example =
    request_put_together echo no_text 0 (part 0 (1 ∷ []) ∷ []) (part 3 (2 ∷ [])) serving
      (first-IsRequestPart, tt) last-IsRequestEnd refl refl

abbrev exchanges : List (Exchange ℕ)
exchanges = (71, part 4 (1 ∷ []) ∷ [], part 7 (2 ∷ [])) ∷ (72, [], part 5 (3 ∷ [])) ∷ []

exchanges-AreExchanges : AreExchanges exchanges
unfolding is_server_status_completed
exchanges-AreExchanges =
    ((((refl, omega arith), tt), (refl, omega arith)), ((tt, (refl, omega arith)), tt))

abbrev receiving : Receiving ℕ
receiving = record {
  part = none;
  conn = started 0;
  stopped = false;
  uncompleted = 71 ∷ 72 ∷ 73 ∷ [];
  calls = [];
  completed = [];
}

responses_in_order_example :
    ((handle_client_loop 0 receiving (packets_of exchanges)).completed
      ≡ (71, 1 ∷ 2 ∷ []) ∷ (72, 3 ∷ []) ∷ [])
    × ((handle_client_loop 0 receiving (packets_of exchanges)).uncompleted ≡ 73 ∷ [])
    × ((handle_client_loop 0 receiving (packets_of exchanges)).stopped ≡ false)
responses_in_order_example =
    responses_in_order 0 exchanges receiving (73 ∷ []) exchanges-AreExchanges refl refl refl
