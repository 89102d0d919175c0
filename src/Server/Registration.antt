-- ===== src/Server/Registration.antt =====
-- Which handler a path has after handlers were registered, and what registering leaves of counts.
use iip.Prelude.{
  ℕ, ◌≤◌, ◌<◌, ◌≡◌, refl, sym, ap, ◌∙◌, Bool, true, false, not, List, Option, none, some, ltb,
  length, arith, Bool-cases, inl, inr, ◌⊎◌, if_true, if_false,
}
use mathlib.Core.Path.{subst}
use iip.Consts.{max_path_len}
use iip.Statis.{no_count}
use iip.Prelude.Texts.{is_same, find, store, find-store, store-others, find-delete}
use iip.Server.{
  Server, validate_path, HandlerMap, get_handler, register_handler, un_register_handler,
  RegisterError, handler_is_nil, path_is_too_large, path_is_invalid, register_server_handler,
}

-- The path has the handler, the others have theirs, and it can be taken back.
abbrev pub IsRegistered :
    {Handler : Type 0}
    → HandlerMap Handler
    → List ℕ
    → List ℕ
    → Handler
    → Option RegisterError × HandlerMap Handler
    → Type 0
IsRegistered m path other handler (error, m') =
    (error ≡ none)
    × (get_handler m' path ≡ some handler)
    × (get_handler m' other ≡ get_handler m other)
    × (get_handler (un_register_handler m' path) path ≡ none)

-- What registerHandler asks of a path.
abbrev pub IsFit : (List ℕ → Bool) → List ℕ → Type 0
IsFit parses path = (length path ≤ max_path_len) × (validate_path parses path ≡ true)

-- registerHandler of any handler, or of nil, for any path, and any other path. Either there is a
-- handler, the path has at most 2048 bytes and ValidatePath accepts it: then no error is reported, the
-- path has this handler, the other path has the one it had, and after unRegisterHandler the path has
-- none. Or the handler is nil, or else the path is too long, or else ValidatePath refuses it: then the
-- error says which of the three it is, and the handlers are as they were.
pub register_handler-get_handler :
    {Handler : Type 0} (parses : List ℕ → Bool) (m : HandlerMap Handler) (path other : List ℕ)
    (asked : Option Handler)
    → is_same path other ≡ false
    → let r = register_handler parses m path asked in
      ((handler : Handler) × (asked ≡ some handler)
        × IsFit parses path
        × IsRegistered m path other handler r)
      ⊎ (((asked ≡ none) × (r ≡ (some handler_is_nil, m)))
          ⊎ (((max_path_len < length path) × (r ≡ (some path_is_too_large, m)))
              ⊎ ((validate_path parses path ≡ false) × (r ≡ (some path_is_invalid, m)))))
unfolding register_handler get_handler un_register_handler
register_handler-get_handler parses m path other none differs = inr (inl (refl, refl))
register_handler-get_handler parses m path other (some handler) differs =
    elim (Bool-cases (ltb max_path_len (length path))) [
      | inl long ↦ inr (
          inr (
            inl (
              ground (arith, long),
              if_true (ltb max_path_len (length path)) (some path_is_too_large, m) _ long,
            )))
      | inr short ↦ elim (Bool-cases (validate_path parses path)) [
        | inr bad ↦ inr (inr (inr (bad, if_false _ _ _ short ∙ if_true _ _ _ (ap not bad))))
        | inl valid ↦
            let route =
              if_false _ (some path_is_too_large, m) _ short
              ∙ if_false (not (validate_path parses path)) (some path_is_invalid, m)
                  (none, store path handler m) (ap not valid) in
            inl (
              handler,
              refl,
              (ground (arith, short), valid),
              subst (IsRegistered m path other handler) (sym route) (
                refl,
                find-store path handler m,
                store-others path other handler m differs,
                find-delete path (store path handler m),
              ),
            )
      ]
    ]

-- RegisterHandler of a nil handler for a path: it reports the error and registers nothing, but the
-- path's counter starts from zero, while the total keeps what was counted.
pub refused_handler_resets :
    {Handler : Type 0} (parses : List ℕ → Bool) (m : Server Handler) (path : List ℕ)
    → ((register_server_handler parses m path none).0 ≡ some handler_is_nil)
      × ((register_server_handler parses m path none).1.handlers ≡ m.handlers)
      × (find path (register_server_handler parses m path none).1.path_count ≡ some no_count)
      × ((register_server_handler parses m path none).1.count ≡ m.count)
unfolding register_server_handler register_handler
refused_handler_resets parses m path = (refl, refl, find-store path no_count m.path_count, refl)
