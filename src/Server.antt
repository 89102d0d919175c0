-- ===== src/Server.antt =====
-- handle.go and server.go: the handlers registered for paths (ServerPathHandlerManager), and the
-- counts that a Server keeps in total and for each path (RegisterHandler, AddCount).
-- A path is a list of bytes; whether url.Parse accepts it is a parameter. A handler is any value.
pub mod Totals
pub mod Listening
pub mod Measures
pub mod Registration
mod Tests
use iip.Prelude.{
  ℕ, Bool, true, false, not, ◌&&◌, List, [], ◌∷◌, Option, none, some, ltb, ◌==◌, if◌then◌else◌,
  length,
}
use iip.Prelude.Texts.{is_same, find, store, delete}
use iip.Consts.{max_path_len}
use iip.Statis.{Count, no_count, add_count}

pub data RegisterError : Type 0 where
  handler_is_nil : RegisterError
  path_is_too_large : RegisterError
  path_is_invalid : RegisterError

-- ValidatePath, with what url.Parse makes of the path.
unfoldable pub validate_path : (List ℕ → Bool) → List ℕ → Bool
validate_path parses [] = false
validate_path parses (b ∷ bs) = parses (b ∷ bs)

-- The handlers of a ServerPathHandlerManager or a ClientPathHandlerManager, whose methods are the
-- same.
abbrev pub HandlerMap : Type 0 → Type 0
HandlerMap Handler = List (List ℕ × Handler)

module _ {Handler : Type 0} where
  unfoldable pub get_handler : HandlerMap Handler → List ℕ → Option Handler
  unfolding find
  get_handler m path = find path m

  -- none stands for a nil handler.
  unfoldable pub register_handler :
      (List ℕ → Bool)
      → HandlerMap Handler
      → List ℕ
      → Option Handler
      → Option RegisterError × HandlerMap Handler
  unfolding store validate_path
  register_handler parses m path none = (some handler_is_nil, m)
  register_handler parses m path (some handler) =
      if ltb max_path_len (length path)
      then (some path_is_too_large, m)
      else if not (validate_path parses path)
      then (some path_is_invalid, m)
      else (none, store path handler m)

  unfoldable pub un_register_handler : HandlerMap Handler → List ℕ → HandlerMap Handler
  unfolding delete
  un_register_handler m path = delete path m

-- A Server: its handlers and its counts.
pub record Server (Handler : Type 0) : Type 0 where
  pub handlers : HandlerMap Handler
  pub count : Count
  pub path_count : List (List ℕ × Count)

-- The counter of the path, if it is registered.
unfoldable pub add_path_count : List ℕ → Count → List (List ℕ × Count) → List (List ℕ × Count)
add_path_count path cnt [] = []
add_path_count path cnt ((known, old) ∷ rest) =
    if is_same known path
    then (known, add_count old cnt) ∷ rest
    else (known, old) ∷ add_path_count path cnt rest

module _ {Handler : Type 0} where
  unfoldable pub add_server_count : Server Handler → List ℕ → Count → Server Handler
  unfolding find add_path_count
  add_server_count m path cnt = elim (find path m.path_count) [
    | none ↦ m
    | some old ↦ record m {
      count = add_count m.count cnt;
      path_count = add_path_count path cnt m.path_count;
    }
  ]

  -- (*Server).RegisterHandler: the counter of the path is new in any case.
  unfoldable pub register_server_handler :
      (List ℕ → Bool)
      → Server Handler
      → List ℕ
      → Option Handler
      → Option RegisterError × Server Handler
  unfolding register_handler store
  register_server_handler parses m path handler = (
    (register_handler parses m.handlers path handler).0,
    record m {
      handlers = (register_handler parses m.handlers path handler).1;
      path_count = store path no_count m.path_count;
    },
  )
