-- ===== src/Prelude/Texts.antt =====
-- Texts, as lists of their bytes, and Go maps with texts for keys, as association lists.
use Prim.Native.Nat.{ℕ}
use mathlib.Core.Path.{◌≡◌, refl, sym, ap, ◌∙◌}
use mathlib.Core.Logic.{inl, inr}
use mathlib.Core.Bool.{Bool, true, false, ◌&&◌}
use mathlib.Core.List.{List, [], ◌∷◌}
use mathlib.Core.Option.{Option, none, some}
use native.Mathlib.Omega.{arith}
use iip.Prelude.Tests.{◌==◌, if◌then◌else◌, if_true, if_false, Bool-cases}

unfoldable pub is_same : List ℕ → List ℕ → Bool
is_same [] [] = true
is_same [] (y ∷ ys) = false
is_same (x ∷ xs) [] = false
is_same (x ∷ xs) (y ∷ ys) = x == y && is_same xs ys

module _ {ℓ} {V : Type ℓ} where
  unfoldable pub find : List ℕ → List (List ℕ × V) → Option V
  find path [] = none
  find path ((known, value) ∷ rest) = if is_same known path then some value else find path rest

  unfoldable pub store : List ℕ → V → List (List ℕ × V) → List (List ℕ × V)
  store path value [] = (path, value) ∷ []
  store path value ((known, old) ∷ rest) =
      if is_same known path then (known, value) ∷ rest else (known, old) ∷ store path value rest

  unfoldable pub delete : List ℕ → List (List ℕ × V) → List (List ℕ × V)
  delete path [] = []
  delete path ((known, old) ∷ rest) =
      if is_same known path then delete path rest else (known, old) ∷ delete path rest

pub is_same_self : (xs : List ℕ) → is_same xs xs ≡ true
unfolding is_same
is_same_self [] = refl
is_same_self (x ∷ xs) = ground (arith, is_same_self xs)

pub is_same-equal : (xs ys : List ℕ) → is_same xs ys ≡ true → xs ≡ ys
unfolding is_same
is_same-equal [] [] h = refl
is_same-equal [] (y ∷ ys) h = cc
is_same-equal (x ∷ xs) [] h = cc
is_same-equal (x ∷ xs) (y ∷ ys) h =
    let heads : x ≡ y = ground (arith, h) in
    let tails : is_same xs ys ≡ true = ground (arith, h) in cc (heads, is_same-equal xs ys tails)

module _ {V : Type 0} where
  pub find-store :
      (path : List ℕ) (value : V) (m : List (List ℕ × V))
      → find path (store path value m) ≡ some value
  unfolding find store
  find-store path value [] = if_true (is_same path path) _ _ (is_same_self path)
  find-store path value ((known, old) ∷ rest) = elim (Bool-cases (is_same known path)) [
    | inl same ↦
        ap (find path) (if_true (is_same known path) _ _ same)
        ∙ if_true (is_same known path) _ _ same
    | inr other ↦
        ap (find path) (if_false (is_same known path) _ _ other)
        ∙ if_false (is_same known path) _ _ other
        ∙ find-store path value rest
  ]

  pub store-others :
      (path other : List ℕ) (value : V) (m : List (List ℕ × V))
      → is_same path other ≡ false
      → find other (store path value m) ≡ find other m
  unfolding find store
  store-others path other value [] h = if_false (is_same path other) _ _ h
  store-others path other value ((known, old) ∷ rest) h = elim (Bool-cases (is_same known path)) [
    | inl same ↦
        let differs : is_same known other ≡ false =
          ap (λ (k : List ℕ). is_same k other) (is_same-equal known path same) ∙ h in
        ap (find other) (if_true (is_same known path) _ _ same)
        ∙ if_false (is_same known other) _ _ differs
        ∙ sym (if_false (is_same known other) _ _ differs)
    | inr new ↦
        ap (find other) (if_false (is_same known path) _ _ new)
        ∙ ap (λ (o : Option V). if is_same known other then some old else o)
            (store-others path other value rest h)
  ]

  pub find-delete : (path : List ℕ) (m : List (List ℕ × V)) → find path (delete path m) ≡ none
  unfolding find delete
  find-delete path [] = refl
  find-delete path ((known, old) ∷ rest) = elim (Bool-cases (is_same known path)) [
    | inl same ↦ ap (find path) (if_true (is_same known path) _ _ same) ∙ find-delete path rest
    | inr other ↦
        ap (find path) (if_false (is_same known path) _ _ other)
        ∙ if_false (is_same known path) _ _ other
        ∙ find-delete path rest
  ]
