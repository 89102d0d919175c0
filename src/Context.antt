-- ===== src/Context.antt =====
-- utils.go: the values that connections, channels and requests carry under keys (DefaultContext), the
-- data of a request (NewDefaultRequest) and the pool of channels that responses come back on
-- (acquireNotifyChan, releaseNotifyChan).
pub mod Laws
mod Tests
use iip.Prelude.{
  ℕ, Bool, true, false, List, [], ◌∷◌, Option, none, some, length, ◌==◌, if◌then◌else◌,
}
use iip.Prelude.Texts.{find, store, delete}

-- A DefaultContext is its map; none is a nil map. Keys are texts.
abbrev pub DefaultContext {ℓ} : Type ℓ → Type ℓ
DefaultContext V = Option (List (List ℕ × V))

module _ {ℓ} {V : Type ℓ} where
  abbrev pub find_in : List ℕ → DefaultContext V → Option V
  find_in key none = none
  find_in key (some ctx) = find key ctx

  -- The map, made if there is none.
  abbrev pub entries : DefaultContext V → List (List ℕ × V)
  entries none = []
  entries (some ctx) = ctx

  -- The empty key has no value.
  unfoldable pub get_ctx_data : DefaultContext V → List ℕ → Option V
  unfolding find
  get_ctx_data m [] = none
  get_ctx_data m (b ∷ key) = find_in (b ∷ key) m

  unfoldable pub set_ctx_data : DefaultContext V → List ℕ → V → DefaultContext V
  unfolding store
  set_ctx_data m [] value = m
  set_ctx_data m (b ∷ key) value = some (store (b ∷ key) value (entries m))

  unfoldable pub remove_ctx_data : DefaultContext V → List ℕ → DefaultContext V
  unfolding delete
  remove_ctx_data m [] = m
  remove_ctx_data none (b ∷ key) = none
  remove_ctx_data (some ctx) (b ∷ key) = some (delete (b ∷ key) ctx)

-- NewDefaultRequest: the protocol has no empty requests, so no data becomes "{}".
unfoldable pub new_default_request : List ℕ → List ℕ
new_default_request [] = 123 ∷ 125 ∷ []
new_default_request (b ∷ bs) = b ∷ bs

-- A notify channel, of room for one response. sync.Pool may hand out any channel that was put into
-- it, or none: `choice` says which.
abbrev pub NotifyChan : Type 0
NotifyChan = Option (List ℕ)

unfoldable pub acquire_notify_chan : Option NotifyChan → NotifyChan
acquire_notify_chan none = none
acquire_notify_chan (some v) = elim v [ some stale ↦ none | none ↦ none ]

unfoldable pub release_notify_chan : NotifyChan → List NotifyChan → List NotifyChan
release_notify_chan (some stale) pool = none ∷ pool
release_notify_chan none pool = none ∷ pool
