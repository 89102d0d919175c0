-- ===== src/Balance/Tests.antt =====
-- Two backends, and the theorems applied to them.
use iip.Prelude.{ℕ, ◌≤◌, ◌<◌, ◌≡◌, refl, true, false, [], ◌∷◌, none, some, arith}
use iip.Balance.{
  EvaluatedClient, LoadBalanceClient, method_min_pending, replied, failed, do_request,
  pending_requests_of, pending_at, select_backend_min_pending, min_loop,
}
use iip.Balance.{available_at, get_task_client}
use iip.Balance.Tasks.{IsChosen, get_task_client-IsChosen}
use iip.Balance.Selection.{select_backend_min_pending-least}
use iip.Prelude.Dict.{lookup, erase}
use iip.Balance.Backends.{has_alias, remove_backend}
use iip.Balance.Backends.Removal.{remove_backend_alone}
use iip.Balance.Requests.{requests, failures_pause}

abbrev backend : ℕ → ℕ → EvaluatedClient
backend alias pending = record {
  alias = alias;
  paused = false;
  last_request = 0;
  request_error_count = 0;
  err = none;
  pending_requests = pending;
  health_check_fail_count = 0;
}

abbrev two : LoadBalanceClient
two = record {
  heap = backend 1 7 ∷ backend 2 3 ∷ [];
  active_clients = 0 ∷ 1 ∷ [];
  active_client_map = (1, 0) ∷ (2, 1) ∷ [];
  method = method_min_pending;
  roundrobin_index = 4;
}

-- The second has fewer pending requests.
chooses_second : (select_backend_min_pending two).0 ≡ 1
unfolding select_backend_min_pending min_loop pending_at pending_requests_of
chooses_second = refl

select_backend_min_pending-least_example :
    ((select_backend_min_pending two).0 < 2)
    × (pending_at two (select_backend_min_pending two).0 ≤ pending_at two 0)
select_backend_min_pending-least_example = select_backend_min_pending-least two 0 (omega arith)

failures_pause_example :
    ((requests failed 9 6 (backend 1 0)).paused ≡ true)
    × ((requests failed 9 6 (backend 1 0)).pending_requests ≡ 0)
    × ((do_request replied 9 (requests failed 9 6 (backend 1 0))).paused ≡ false)
    × ((do_request replied 9 (requests failed 9 6 (backend 1 0))).request_error_count ≡ 0)
    × ((do_request replied 9 (requests failed 9 6 (backend 1 0))).pending_requests ≡ 0)
failures_pause_example = failures_pause 9 5 (backend 1 0) refl

two-available : available_at 9 two 1 ≡ true
unfolding available_at
two-available = refl

get_task_client-IsChosen_example : IsChosen 9 two (get_task_client 9 two)
get_task_client-IsChosen_example = get_task_client-IsChosen 9 two 1 (omega arith) two-available

-- The first of the two is removed.
remove_backend_alone_example :
    remove_backend two 1
    ≡ some (
      none,
      record two { active_clients = 1 ∷ []; active_client_map = erase 1 two.active_client_map },
    )
unfolding lookup has_alias
remove_backend_alone_example =
    remove_backend_alone two 1 0 0 [] (1 ∷ []) refl refl refl tt (refl, tt)
