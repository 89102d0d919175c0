-- ===== src/Context/Laws.antt =====
-- What a context has under a key.
use iip.Prelude.{ℕ, ◌≡◌, ◌∙◌, refl, false, List, ◌∷◌, none, some}
use iip.Prelude.Texts.{is_same, find, store, find-store, store-others, find-delete}
use iip.Context.{DefaultContext, find_in, entries, get_ctx_data, set_ctx_data, remove_ctx_data}

module _ {V : Type 0} where
  found_others : (m : DefaultContext V) (other : List ℕ) → find other (entries m) ≡ find_in other m
  unfolding find
  found_others none other = refl
  found_others (some ctx) other = refl

  removed :
      (m : DefaultContext V) (b : ℕ) (key : List ℕ)
      → get_ctx_data (remove_ctx_data m (b ∷ key)) (b ∷ key) ≡ none
  unfolding get_ctx_data remove_ctx_data
  removed none b key = refl
  removed (some ctx) b key = find-delete (b ∷ key) ctx

  -- SetCtxData under a key that is not empty, on any context, one without a map too: GetCtxData then
  -- finds the value, any other key that is not empty has what it had, and after RemoveCtxData the
  -- key has nothing.
  pub set_ctx_data-get_ctx_data :
      (m : DefaultContext V) (b : ℕ) (key : List ℕ) (c : ℕ) (other : List ℕ) (value : V)
      → is_same (b ∷ key) (c ∷ other) ≡ false
      → (get_ctx_data (set_ctx_data m (b ∷ key) value) (b ∷ key) ≡ some value)
        × (get_ctx_data (set_ctx_data m (b ∷ key) value) (c ∷ other) ≡ get_ctx_data m (c ∷ other))
        × (get_ctx_data (remove_ctx_data (set_ctx_data m (b ∷ key) value) (b ∷ key)) (b ∷ key)
            ≡ none)
  unfolding get_ctx_data set_ctx_data
  set_ctx_data-get_ctx_data m b key c other value differs = (
    find-store (b ∷ key) value (entries m),
    store-others (b ∷ key) (c ∷ other) value (entries m) differs ∙ found_others m (c ∷ other),
    removed (some (store (b ∷ key) value (entries m))) b key,
  )
