-- ===== src/Balance.antt =====
-- lbclient.go: the client that spreads requests over several servers (EvaluatedClient,
-- LoadBalanceClient: the choice of a backend, the backends added and removed, and what a request
-- leaves of a backend's record).
-- A backend is an object on a heap; `active_clients` and `active_client_map` lead to addresses.
-- Times are numbers of nanoseconds. `roundrobin_index` stays below 2 ^ 63, where the int64 ends.
pub mod Selection
pub mod Requests
pub mod Tasks
pub mod TaskChannel
pub mod Backends
pub mod ServerList
mod Tests
use iip.Prelude.{
  ℕ, zero, suc, ◌+◌, ◌-◌, ◌*◌, ◌/◌, ◌%◌, ◌^◌, Bool, true, false, not, ◌&&◌, ◌||◌, List, [], ◌∷◌,
  ◌++◌, Option, none, some, ltb, leb, ◌==◌, if◌then◌else◌, length, get_elem?, get_or, take, drop,
}
use iip.Prelude.Dict.{lookup, insert, erase}
use iip.Statis.{update}

pub data LoadBalanceMethod : Type 0 where
  method_roundrobin : LoadBalanceMethod
  method_random : LoadBalanceMethod
  method_min_pending : LoadBalanceMethod
  method_ip_hash : LoadBalanceMethod
  method_uri_param : LoadBalanceMethod
  method_json_exp : LoadBalanceMethod

pub data BalanceError : Type 0 where
  alias_exists : BalanceError
  alias_not_exist : BalanceError
  json_exp_not_found : BalanceError
  no_server_defined : BalanceError
  invalid_request_uri : BalanceError
  no_alived_client : BalanceError
  request_failed : BalanceError

-- An EvaluatedClient, less its Client; an alias is a number.
pub record EvaluatedClient : Type 0 where
  pub alias : ℕ
  pub paused : Bool
  pub last_request : ℕ
  pub request_error_count : ℕ
  pub err : Option BalanceError
  pub pending_requests : ℕ
  pub health_check_fail_count : ℕ

-- A LoadBalanceClient, less its locks, its random source and its configuration.
pub record LoadBalanceClient : Type 0 where
  pub heap : List EvaluatedClient
  pub active_clients : List ℕ
  pub active_client_map : List (ℕ × ℕ)
  pub method : LoadBalanceMethod
  pub roundrobin_index : ℕ

unfoldable pub pending_requests_of : EvaluatedClient → ℕ
pending_requests_of c = c.pending_requests + c.health_check_fail_count

-- PendingRequests of the active client at an index.
unfoldable pub pending_at : LoadBalanceClient → ℕ → ℕ
unfolding pending_requests_of
pending_at m idx = elim (get_elem? m.active_clients idx) [
  | none ↦ 0
  | some addr ↦ elim (get_elem? m.heap addr) [ none ↦ 0 | some c ↦ pending_requests_of c ]
]

-- A selection: the index it chose, and the client's index for the next round. It has at least one
-- active client to choose of.
unfoldable pub select_backend_roundrobin : LoadBalanceClient → ℕ × LoadBalanceClient
select_backend_roundrobin m = (
  m.roundrobin_index % length m.active_clients,
  record m { roundrobin_index = m.roundrobin_index + 1 },
)

-- The loop over the other clients: the index it has come to, and the least found so far.
unfoldable pub min_loop : ℕ → (ℕ → ℕ) → ℕ → ℕ → ℕ → ℕ → ℕ
min_loop zero pending size idx min_idx min_pending = min_idx
min_loop (suc rounds) pending size idx min_idx min_pending =
    let next = if leb size (idx + 1) then 0 else idx + 1 in
    let less = min_loop rounds pending size next next (pending next) in
    let same = min_loop rounds pending size next min_idx min_pending in
    if ltb (pending next) min_pending then less else same

unfoldable pub select_backend_min_pending : LoadBalanceClient → ℕ × LoadBalanceClient
select_backend_min_pending m =
    let size = length m.active_clients in
    let idx = m.roundrobin_index % size in
    (
      if ltb 0 (pending_at m idx)
          then min_loop size (pending_at m) size idx idx (pending_at m idx)
          else idx,
      record m { roundrobin_index = m.roundrobin_index + 1 },
    )

-- The hash is fnv32 of the client's ip or of the parameter's value.
unfoldable pub select_backend_hash : ℕ → LoadBalanceClient → ℕ
select_backend_hash hash m = hash % length m.active_clients

-- What code outside this repository decides: the random number, the hashes, the request uri if it
-- can be parsed, and the alias that the configured expressions choose.
pub record Outside : Type 0 where
  pub intn : ℕ → ℕ
  pub fnv32 : List ℕ → ℕ
  pub query_param : List ℕ → Option (List ℕ)
  pub target_alias : List ℕ → Option ℕ

abbrev pub at_index : LoadBalanceClient → ℕ × LoadBalanceClient → Option ℕ × LoadBalanceClient
at_index m (idx, m') = (get_elem? m.active_clients idx, m')

-- The branches of selectBackend with an active client.
unfoldable pub select_by :
    LoadBalanceMethod → Outside → LoadBalanceClient → List ℕ → List ℕ → Option ℕ × LoadBalanceClient
select_by method_roundrobin o m ip uri = at_index m (select_backend_roundrobin m)
select_by method_random o m ip uri = at_index m (o.intn (length m.active_clients), m)
select_by method_min_pending o m ip uri = at_index m (select_backend_min_pending m)
select_by method_ip_hash o m ip uri = at_index m (select_backend_hash (o.fnv32 ip) m, m)
select_by method_uri_param o m ip uri = elim (o.query_param uri) [
  | none ↦ (none, m)
  | some value ↦ at_index m (select_backend_hash (o.fnv32 value) m, m)
]
select_by method_json_exp o m ip uri = elim (o.target_alias uri) [
  | none ↦ (none, m)
  | some alias ↦ (lookup alias m.active_client_map, m)
]

-- selectBackend; none is an error.
unfoldable pub select_backend :
    Outside → LoadBalanceClient → List ℕ → List ℕ → Option ℕ × LoadBalanceClient
select_backend o m ip uri =
    if length m.active_clients == 0 then (none, m) else select_by m.method o m ip uri

-- getTaskClient: a client that is not paused, or has been idle for more than five seconds.
abbrev pub is_available : ℕ → EvaluatedClient → Bool
is_available now c = not c.paused || ltb (5 * 10 ^ 9) (now - c.last_request)

unfoldable pub available_at : ℕ → LoadBalanceClient → ℕ → Bool
available_at now m idx = elim (get_elem? m.active_clients idx) [
  | none ↦ false
  | some addr ↦ elim (get_elem? m.heap addr) [ none ↦ false | some c ↦ is_available now c ]
]

-- minC and minN after a look at a client with this many pending requests.
abbrev pub keep_less : Option ℕ × ℕ → ℕ → ℕ → Option ℕ × ℕ
keep_less (none, min_n) idx pr = (some idx, pr)
keep_less (some min_c, min_n) idx pr = if ltb pr min_n then (some idx, pr) else (some min_c, min_n)

-- Its loop: the index that it ends at, and the client that it chose.
unfoldable pub task_loop : ℕ → (ℕ → Bool) → (ℕ → ℕ) → ℕ → ℕ → Option ℕ × ℕ → ℕ × Option ℕ
task_loop zero available pending size idx found = (idx, found.0)
task_loop (suc rounds) available pending size idx found =
    let next = if leb size (idx + 1) then 0 else idx + 1 in
    let kept = keep_less found next (pending next) in
    let more = task_loop rounds available pending size next kept in
    let passed = task_loop rounds available pending size next found in
    if available next then (if kept.1 == 0 then (next, kept.0) else more) else passed

-- With no active client the loop reads past the end of the slice.
pub data Task : Type 0 where
  panics : Task
  none_alive : LoadBalanceClient → Task
  chosen : ℕ → LoadBalanceClient → Task

abbrev pub task_of : LoadBalanceClient → ℕ × Option ℕ → Task
task_of m (idx, none) = none_alive (record m { roundrobin_index = idx })
task_of m (idx, some min_c) = chosen min_c (record m { roundrobin_index = idx })

unfoldable pub get_task_client : ℕ → LoadBalanceClient → Task
get_task_client now m =
    let size = length m.active_clients in
    if size == 0
    then panics
    else task_of m
        (task_loop size (available_at now m) (pending_at m) size m.roundrobin_index (none, 0))

-- What the Client makes of a request: no channel to send it on, a response, or an error.
pub data Reply : Type 0 where
  no_channel : Reply
  replied : Reply
  failed : Reply

abbrev pub is_error : Reply → Bool
is_error no_channel = true
is_error replied = false
is_error failed = true

-- (*EvaluatedClient).DoRequest: up to the reply, and from the reply on.
unfoldable pub begin_request : EvaluatedClient → EvaluatedClient
begin_request c = record c { pending_requests = c.pending_requests + 1 }

abbrev pub reply_to : Reply → ℕ → EvaluatedClient → EvaluatedClient
reply_to no_channel now c = record c { err = some request_failed; paused = true }
reply_to replied now c = record c { paused = false; last_request = now }
reply_to failed now c = record c { paused = false; last_request = now }

unfoldable pub end_request : Reply → ℕ → EvaluatedClient → EvaluatedClient
end_request reply now c =
    let replied_to = reply_to reply now c in
    record replied_to { pending_requests = replied_to.pending_requests - 1 }

-- What (*LoadBalanceClient).DoRequest makes of the backend after its request.
unfoldable pub judge_request : Bool → EvaluatedClient → EvaluatedClient
judge_request true c = record c {
  request_error_count = c.request_error_count + 1;
  paused = if ltb 5 (c.request_error_count + 1) then true else c.paused;
}
judge_request false c = record c {
  request_error_count = 0;
  err = if c.paused then none else c.err;
  paused = false;
}

-- The backend after one DoRequest of the LoadBalanceClient that chose it.
unfoldable pub do_request : Reply → ℕ → EvaluatedClient → EvaluatedClient
unfolding begin_request end_request judge_request
do_request reply now c = judge_request (is_error reply) (end_request reply now (begin_request c))

-- DoRequest2, of the backend that selectBackend chose: while the request is under way, and after
-- it, with what the health check says of the reply.
unfoldable pub begin_request2 : EvaluatedClient → EvaluatedClient
unfolding begin_request
begin_request2 c = begin_request (record c { pending_requests = c.pending_requests + 1 })

unfoldable pub check_health : Bool → EvaluatedClient → EvaluatedClient
check_health healthy c = record c {
  health_check_fail_count =
      if healthy then c.health_check_fail_count / 2 else c.health_check_fail_count + 1;
}

unfoldable pub end_request2 : Bool → Reply → ℕ → EvaluatedClient → EvaluatedClient
unfolding end_request check_health
end_request2 healthy reply now c =
    let ended = end_request reply now c in
    check_health healthy (record ended { pending_requests = ended.pending_requests - 1 })
