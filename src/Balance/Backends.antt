-- ===== src/Balance/Backends.antt =====
-- lbclient.go: backends added to and removed from a LoadBalanceClient (AddBackend, RemoveBackend).
pub mod Removal
use iip.Prelude.{
  ℕ, zero, suc, ◌+◌, ◌-◌, Bool, true, false, List, [], ◌∷◌, ◌++◌, Option, none, some, ltb, ◌==◌,
  if◌then◌else◌, length, get_elem?,
}
use iip.Prelude.Dict.{lookup, insert, erase}
use iip.Prelude.Slices.{Slice, whole, view, cut}
use iip.Balance.{EvaluatedClient, LoadBalanceClient, BalanceError, alias_exists, alias_not_exist}

abbrev pub new_backend : ℕ → EvaluatedClient
new_backend alias = record {
  alias = alias;
  paused = false;
  last_request = 0;
  request_error_count = 0;
  err = none;
  pending_requests = 0;
  health_check_fail_count = 0;
}

-- NewClient, which makes the backend's client, has no error.
unfoldable pub add_backend : LoadBalanceClient → ℕ → Option BalanceError × LoadBalanceClient
unfolding lookup insert
add_backend m alias = elim (lookup alias m.active_client_map) [
  | some old ↦ (some alias_exists, m)
  | none ↦ (
    none,
    record m {
      heap = m.heap ++ (new_backend alias ∷ []);
      active_clients = m.active_clients ++ (length m.heap ∷ []);
      active_client_map = insert alias (length m.heap) m.active_client_map;
    },
  )
]

-- The alias of the client at an address.
unfoldable pub has_alias : List EvaluatedClient → ℕ → ℕ → Bool
has_alias heap alias addr = elim (get_elem? heap addr) [ none ↦ false | some c ↦ c.alias == alias ]

-- RemoveBackend's loop over the slice that it reads first, from an index on: each removal shifts the
-- array that it goes on to read. none is a panic: a removal past the end of what is left.
unfoldable pub remove_loop : ℕ → ℕ → List EvaluatedClient → ℕ → Slice ℕ → Option (Slice ℕ)
unfolding has_alias
remove_loop zero i heap alias s = some s
remove_loop (suc rounds) i heap alias s =
    let after_removal = remove_loop rounds (i + 1) heap alias (cut i s) in
    let next = remove_loop rounds (i + 1) heap alias s in
    elim (get_elem? s.items i) [
      | none ↦ some s
      | some addr ↦
          if has_alias heap alias addr then (if ltb i s.size then after_removal else none) else next
    ]

abbrev pub removed_by :
    LoadBalanceClient → ℕ → Option (Slice ℕ) → Option (Option BalanceError × LoadBalanceClient)
removed_by m alias none = none
removed_by m alias (some s) = some (
  none,
  record m { active_clients = view s; active_client_map = erase alias m.active_client_map },
)

unfoldable pub remove_backend :
    LoadBalanceClient → ℕ → Option (Option BalanceError × LoadBalanceClient)
unfolding lookup erase remove_loop
remove_backend m alias = elim (lookup alias m.active_client_map) [
  | none ↦ some (some alias_not_exist, m)
  | some addr ↦
      removed_by m alias
        (remove_loop (length m.active_clients) 0 m.heap alias (whole m.active_clients))
]
