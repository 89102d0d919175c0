-- ===== src/Server/Listening/Entries.antt =====
-- server.go: what storing and deleting does to the entries of the map of connections.
use iip.Prelude.{ℕ, suc, ◌≤◌, ◌≡◌, true, List, [], ◌∷◌, arith, length, All, Bool-cases, inl, inr}
use iip.Prelude.Texts.{is_same, is_same_self, store, delete}

pub length-store :
    (addr : List ℕ) (i : ℕ) (m : List (List ℕ × ℕ)) → length (store addr i m) ≤ suc (length m)
unfolding store
length-store addr i [] = omega arith
length-store addr i ((known, old) ∷ rest) = elim (Bool-cases (is_same known addr)) [
  | inl same ↦ rw same (omega arith)
  | inr other ↦ rw other (omega (arith, length-store addr i rest))
]

pub length-delete : (addr : List ℕ) (m : List (List ℕ × ℕ)) → length (delete addr m) ≤ length m
unfolding delete
length-delete addr [] = omega arith
length-delete addr ((known, old) ∷ rest) = elim (Bool-cases (is_same known addr)) [
  | inl same ↦ rw same (omega (arith, length-delete addr rest))
  | inr other ↦ rw other (omega (arith, length-delete addr rest))
]

module _ (P : List ℕ × ℕ → Type 0) where
  pub All-store :
      (addr : List ℕ) (i : ℕ) (m : List (List ℕ × ℕ))
      → ((known : List ℕ) → is_same known addr ≡ true → P (known, i))
      → All P m
      → All P (store addr i m)
  unfolding store
  All-store addr i [] p h = (p addr (is_same_self addr), tt)
  All-store addr i ((known, old) ∷ rest) p h = elim (Bool-cases (is_same known addr)) [
    | inl same ↦ rw same (p known same, h.1)
    | inr other ↦ rw other (h.0, All-store addr i rest p h.1)
  ]

  pub All-delete : (addr : List ℕ) (m : List (List ℕ × ℕ)) → All P m → All P (delete addr m)
  unfolding delete
  All-delete addr [] h = h
  All-delete addr ((known, old) ∷ rest) h = elim (Bool-cases (is_same known addr)) [
    | inl same ↦ rw same (All-delete addr rest h.1)
    | inr other ↦ rw other (h.0, All-delete addr rest h.1)
  ]
