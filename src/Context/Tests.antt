-- ===== src/Context/Tests.antt =====
-- A context with one value, and the theorem applied to it.
use iip.Prelude.{ℕ, ◌≡◌, refl, false, [], ◌∷◌, none}
use iip.Prelude.Texts.{is_same}
use iip.Context.{DefaultContext}

abbrev no_map : DefaultContext ℕ
no_map = none

keys_differ : is_same (97 ∷ []) (98 ∷ []) ≡ false
unfolding is_same
keys_differ = refl
