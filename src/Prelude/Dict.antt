-- ===== src/Prelude/Dict.antt =====
-- Maps with numbers for keys, as association lists, and sets of numbers, as lists.
use Prim.Native.Nat.{ℕ, ◌+◌}
use mathlib.Core.Path.{◌≡◌, refl}
use mathlib.Core.Logic.{inl, inr}
use mathlib.Core.Bool.{Bool, true, false, ◌||◌}
use mathlib.Core.List.{List, [], ◌∷◌}
use mathlib.Core.Option.{Option, none, some}
use native.Mathlib.Omega.{arith}
use iip.Prelude.Tests.{◌==◌, if◌then◌else◌, Bool-cases}
use iip.Prelude.Lists.{length}

module _ {ℓ} {V : Type ℓ} where
  unfoldable pub lookup : ℕ → List (ℕ × V) → Option V
  lookup wanted [] = none
  lookup wanted ((key, value) ∷ rest) = if key == wanted then some value else lookup wanted rest

  -- Writes the first entry of the key, or a new last one.
  unfoldable pub insert : ℕ → V → List (ℕ × V) → List (ℕ × V)
  insert new value [] = (new, value) ∷ []
  insert new value ((key, old) ∷ rest) =
      if key == new then (new, value) ∷ rest else (key, old) ∷ insert new value rest

  unfoldable pub erase : ℕ → List (ℕ × V) → List (ℕ × V)
  erase gone [] = []
  erase gone ((key, value) ∷ rest) =
      if key == gone then erase gone rest else (key, value) ∷ erase gone rest

  pub lookup-insert :
      (new wanted : ℕ) (value : V) (entries : List (ℕ × V))
      → lookup wanted (insert new value entries)
        ≡ (if new == wanted then some value else lookup wanted entries)
  unfolding lookup insert
  lookup-insert new wanted value [] = refl
  lookup-insert new wanted value ((key, old) ∷ rest) =
      ground (arith, lookup-insert new wanted value rest)

  pub lookup-erase :
      (gone wanted : ℕ) (entries : List (ℕ × V))
      → lookup wanted (erase gone entries)
        ≡ (if gone == wanted then none else lookup wanted entries)
  unfolding lookup erase
  lookup-erase gone wanted [] = ground arith
  lookup-erase gone wanted ((key, value) ∷ rest) = ground (arith, lookup-erase gone wanted rest)

  abbrev pub keys : List (ℕ × V) → List ℕ
  keys [] = []
  keys ((k, v) ∷ m) = k ∷ keys m

-- Whether a set of numbers has a number.
unfoldable pub has : ℕ → List ℕ → Bool
has k [] = false
has k (x ∷ xs) = x == k || has k xs

-- Sets grow at the end.
unfoldable pub put : ℕ → List ℕ → List ℕ
put k [] = k ∷ []
put k (x ∷ xs) = if x == k then x ∷ xs else x ∷ put k xs

unfoldable pub remove : ℕ → List ℕ → List ℕ
remove k [] = []
remove k (x ∷ xs) = if x == k then remove k xs else x ∷ remove k xs

pub has-put : (k j : ℕ) (xs : List ℕ) → has j (put k xs) ≡ (k == j || has j xs)
unfolding has put
has-put k j [] = refl
has-put k j (x ∷ xs) = ground (arith, has-put k j xs)

pub has-remove :
    (k j : ℕ) (xs : List ℕ) → has j (remove k xs) ≡ (if k == j then false else has j xs)
unfolding has remove
has-remove k j [] = ground arith
has-remove k j (x ∷ xs) = ground (arith, has-remove k j xs)

-- No key stands twice.
abbrev pub AreDistinct : List ℕ → Type 0
AreDistinct [] = Unit {0}
AreDistinct (x ∷ xs) = (has x xs ≡ false) × AreDistinct xs

module _ {ℓ} {V : Type ℓ} where
  pub has-keys-insert :
      (k j : ℕ) (v : V) (m : List (ℕ × V))
      → has j (keys (insert k v m)) ≡ (k == j || has j (keys m))
  unfolding has insert
  has-keys-insert k j v [] = refl
  has-keys-insert k j v ((i, w) ∷ m) = ground (arith, has-keys-insert k j v m)

  pub has-keys-erase :
      (k j : ℕ) (m : List (ℕ × V))
      → has j (keys (erase k m)) ≡ (if k == j then false else has j (keys m))
  unfolding has erase
  has-keys-erase k j [] = ground arith
  has-keys-erase k j ((i, w) ∷ m) = ground (arith, has-keys-erase k j m)

  pub insert-AreDistinct :
      (k : ℕ) (v : V) (m : List (ℕ × V)) → AreDistinct (keys m) → AreDistinct (keys (insert k v m))
  unfolding insert
  insert-AreDistinct k v [] d = (unfold has in refl, tt)
  insert-AreDistinct k v ((i, w) ∷ m) d = elim (Bool-cases (i == k)) [
    | inl same ↦ rw same (unfold has in ground arith)
    | inr other ↦ rw other (ground (arith, has-keys-insert k i v m), insert-AreDistinct k v m d.1)
  ]

  pub erase-AreDistinct :
      (k : ℕ) (m : List (ℕ × V)) → AreDistinct (keys m) → AreDistinct (keys (erase k m))
  unfolding erase
  erase-AreDistinct k [] d = tt
  erase-AreDistinct k ((i, w) ∷ m) d = elim (Bool-cases (i == k)) [
    | inl same ↦ rw same (erase-AreDistinct k m d.1)
    | inr other ↦ rw other (ground (arith, has-keys-erase k i m), erase-AreDistinct k m d.1)
  ]

  -- A new key makes the map longer by one, and erasing a key that it has once makes it shorter.
  pub length-insert :
      (k : ℕ) (v : V) (m : List (ℕ × V))
      → has k (keys m) ≡ false
      → length (insert k v m) ≡ length m + 1
  unfolding insert has
  length-insert k v [] h = refl
  length-insert k v ((i, w) ∷ m) h = ground (arith, length-insert k v m)

  pub length-erase_absent :
      (k : ℕ) (m : List (ℕ × V)) → has k (keys m) ≡ false → length (erase k m) ≡ length m
  unfolding erase has
  length-erase_absent k [] h = refl
  length-erase_absent k ((i, w) ∷ m) h = ground (arith, length-erase_absent k m)

  pub length-erase :
      (k : ℕ) (m : List (ℕ × V))
      → AreDistinct (keys m)
      → has k (keys m) ≡ true
      → length (erase k m) + 1 ≡ length m
  unfolding erase has
  length-erase k [] d h = cc
  length-erase k ((i, w) ∷ m) d h = elim (Bool-cases (i == k)) [
    | inl same ↦ rw same (ground (arith, length-erase_absent k m, d.0))
    | inr other ↦ rw other (ground (arith, length-erase k m d.1))
  ]

  pub erase_absent : (k : ℕ) (m : List (ℕ × V)) → has k (keys m) ≡ false → erase k m ≡ m
  unfolding erase has
  erase_absent k [] h = refl
  erase_absent k ((i, w) ∷ m) h = ground (arith, erase_absent k m)
