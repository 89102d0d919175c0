-- ===== src/Server/Tests.antt =====
-- A server with one handler, and the theorems applied to it.
use iip.Prelude.{
  ℕ, ◌<◌, ◌≡◌, ◌⊎◌, refl, Bool, true, false, List, [], ◌∷◌, Option, none, some, length,
}
use iip.Statis.{Count, no_count, add_count}
use iip.Prelude.Texts.{is_same}
use iip.Consts.{max_path_len}
use iip.Server.{
  Server, validate_path, register_handler, handler_is_nil, path_is_too_large, path_is_invalid,
}
use iip.Server.Totals.{sum_counts, all_counted, total-sum_counts}
use iip.Server.Registration.{IsRegistered, IsFit, register_handler-get_handler}

abbrev any : List ℕ → Bool
any path = true

abbrev path_a : List ℕ
path_a = 47 ∷ 97 ∷ []

abbrev path_b : List ℕ
path_b = 47 ∷ 98 ∷ []

abbrev server : Server ℕ
server = record {
  handlers = (path_a, 7) ∷ [];
  count = no_count;
  path_count = (path_a, no_count) ∷ [];
}

abbrev sent : Count
sent = record no_count { packets_sent = 1; bytes_sent = 20 }

nothing_counted : server.count ≡ sum_counts server.path_count
unfolding add_count
nothing_counted = refl

total-sum_counts_example :
    (all_counted server ((path_a, sent) ∷ (path_b, sent) ∷ (path_a, sent) ∷ [])).count
    ≡ sum_counts
        (all_counted server ((path_a, sent) ∷ (path_b, sent) ∷ (path_a, sent) ∷ [])).path_count
total-sum_counts_example =
    total-sum_counts ((path_a, sent) ∷ (path_b, sent) ∷ (path_a, sent) ∷ []) server nothing_counted

path_b-valid : validate_path any path_b ≡ true
unfolding validate_path
path_b-valid = refl

paths_differ : is_same path_b path_a ≡ false
unfolding is_same
paths_differ = refl

register_handler-get_handler_example :
    let asked : Option ℕ = some 8 in
    let r = register_handler any server.handlers path_b asked in
    ((handler : ℕ) × (asked ≡ some handler)
      × IsFit any path_b
      × IsRegistered server.handlers path_b path_a handler r)
    ⊎ (((asked ≡ none) × (r ≡ (some handler_is_nil, server.handlers)))
        ⊎ (((max_path_len < length path_b) × (r ≡ (some path_is_too_large, server.handlers)))
            ⊎ ((validate_path any path_b ≡ false) × (r ≡ (some path_is_invalid, server.handlers)))))
register_handler-get_handler_example =
    register_handler-get_handler any server.handlers path_b path_a (some 8) paths_differ
