-- ===== src/Client/Heads.antt =====
-- client.go: a connection at the head of the array stays there while others are taken out behind it.
use iip.Prelude.{
  ℕ, zero, suc, ◌+◌, ◌-◌, ◌≤◌, ◌<◌, ◌≡◌, refl, sym, ap, ◌∙◌, false, List, [], ◌∷◌, ◌++◌, Option,
  none, some, ◌==◌, if_true, if_false, arith, length-take, some_injective, get_elem?, take, drop,
  Bool-cases, Option-cases, inl, inr,
}
use mathlib.Core.Path.{subst}
use iip.Prelude.Dict.{has}
use iip.Prelude.Slices.{Slice, view, cut}
use iip.Statis.{update}
use iip.Connection.{Connection, close}
use iip.Client.{
  Client, position, without_connection, take_out, settle, close_connection, close_from,
}
use iip.Client.WellFormed.{position-least}

pub has-append :
    (k : ℕ) (xs ys : List ℕ) → has k xs ≡ false → has k ys ≡ false → has k (xs ++ ys) ≡ false
unfolding has
has-append k [] ys h g = g
has-append k (x ∷ xs) ys h g = ground (arith, has-append k xs ys)

has-take : (k n : ℕ) (xs : List ℕ) → has k xs ≡ false → has k (take n xs) ≡ false
unfolding has
has-take k zero xs h = refl
has-take k (suc n) [] h = refl
has-take k (suc n) (x ∷ xs) h = ground (arith, has-take k n xs)

pub has-drop : (k n : ℕ) (xs : List ℕ) → has k xs ≡ false → has k (drop n xs) ≡ false
unfolding has
has-drop k zero xs h = h
has-drop k (suc n) [] h = refl
has-drop k (suc n) (x ∷ xs) h = has-drop k n xs (ground arith)

-- The array of the slice starts with the address, which stands nowhere else, and the slice has it.
abbrev pub HeadIs : ℕ → Slice ℕ → Type 0
HeadIs b s = (tail : List ℕ) × (s.items ≡ b ∷ tail) × (has b tail ≡ false) × (1 ≤ s.size)

cut-HeadIs :
    (b j n : ℕ) (tail : List ℕ)
    → has b tail ≡ false
    → suc j < n
    → HeadIs b (cut (suc j) (record { items = b ∷ tail; size = n }))
cut-HeadIs b j zero tail h l = absurd (omega (arith, l))
cut-HeadIs b j (suc zero) tail h l = absurd (omega (arith, l))
cut-HeadIs b j (suc (suc n)) tail h l =
    let less : suc (suc n) - 1 ≡ suc n = omega arith in
    let one : suc j + 1 ≡ suc (j + 1) = omega arith in
    (
      (take j tail ++ drop (j + 1) (take (suc n) tail)) ++ drop n tail,
      rw less (rw one refl),
      has-append b (take j tail ++ drop (j + 1) (take (suc n) tail)) (drop n tail)
          (has-append b (take j tail) (drop (j + 1) (take (suc n) tail)) (has-take b j tail h)
            (has-drop b (j + 1) (take (suc n) tail) (has-take b (suc n) tail h)))
          (has-drop b n tail h),
      omega arith,
    )

pub take-head : (n b : ℕ) (tail : List ℕ) → 1 ≤ n → take n (b ∷ tail) ≡ b ∷ take (n - 1) tail
take-head zero b tail h = absurd (omega (arith, h))
take-head (suc n) b tail h = let same : suc n - 1 ≡ n = omega arith in rw same refl

position-behind :
    (x b j : ℕ) (xs : List ℕ) → (b == x) ≡ false → position x (b ∷ xs) ≡ some j → 1 ≤ j
unfolding position
position-behind x b j xs other e = elim (Option-cases (position x xs)) [
  | inl absent ↦ ground (arith, absent)
  | inr (i, found) ↦ ground (arith, found)
]

-- Taking out another connection keeps the head.
without-HeadIs :
    (b x : ℕ) (s : Slice ℕ) (j : ℕ)
    → (b == x) ≡ false
    → HeadIs b s
    → position x (view s) ≡ some j
    → HeadIs b (cut j s)
without-HeadIs b x s j other (tail, e, lacks, some_size) found =
    let least = position-least x j (view s) found in
    let in_slice : j < s.size = omega (arith, least, length-take s.size s.items) in
    let front : view s ≡ b ∷ take (s.size - 1) tail =
      ap (take s.size) e ∙ take-head s.size b tail some_size in
    let positive =
      position-behind x b j (take (s.size - 1) tail) other (ap (position x) (sym front) ∙ found) in
    let before : suc (j - 1) ≡ j = omega (arith, positive) in
    subst (λ its. HeadIs b (cut j (record { items = its; size = s.size }))) (sym e)
      (subst (λ (i : ℕ). HeadIs b (cut i (record { items = b ∷ tail; size = s.size }))) before
        (cut-HeadIs b (j - 1) s.size tail lacks (omega (arith, before, in_slice))))

settle-HeadIs :
    (b x : ℕ) (m : Client) (conn : Connection)
    → (b == x) ≡ false
    → HeadIs b m.connections
    → HeadIs b (settle m x conn).connections
unfolding settle take_out
settle-HeadIs b x m conn other h =
    let stepped = record m { heap = update m.heap x (λ old. conn) } in
    elim (Bool-cases conn.closed_mark) [
      | inr is_open ↦
          subst (λ (c : Client). HeadIs b c.connections)
            (sym (if_false conn.closed_mark _ _ is_open)) h
      | inl closed ↦
          subst (λ (c : Client). HeadIs b c.connections) (sym (if_true conn.closed_mark _ _ closed))
            (elim (Option-cases (position x (view m.connections))) [
              | inl absent ↦
                  subst (λ e. HeadIs b (without_connection stepped e).connections) (sym absent) h
              | inr (j, found) ↦
                  subst (λ e. HeadIs b (without_connection stepped e).connections) (sym found)
                    (without-HeadIs b x m.connections j other h found)
            ])
    ]

close_connection-HeadIs :
    (b x : ℕ) (m : Client)
    → (b == x) ≡ false
    → HeadIs b m.connections
    → HeadIs b (close_connection m x none).connections
unfolding close_connection
close_connection-HeadIs b x m other h = elim (Option-cases (get_elem? m.heap x)) [
  | inl absent ↦
      subst (λ (c : Client). HeadIs b c.connections)
        (sym (ap (λ e. elim e [ none ↦ m | some conn ↦ settle m x (close conn none) ]) absent)) h
  | inr (conn, at) ↦
      subst (λ (c : Client). HeadIs b c.connections)
        (sym (ap (λ e. elim e [ none ↦ m | some c ↦ settle m x (close c none) ]) at))
        (settle-HeadIs b x m (close conn none) other h)
]

elem-other :
    (b x i : ℕ) (xs : List ℕ) → has b xs ≡ false → get_elem? xs i ≡ some x → (b == x) ≡ false
unfolding has
elem-other b x i [] h e = cc
elem-other b x zero (y ∷ ys) h e = let same = some_injective e in ground (arith, same)
elem-other b x (suc i) (y ∷ ys) h e = elem-other b x i ys (ground arith) e

pub close_from-HeadIs :
    (rounds i b : ℕ) (m : Client)
    → HeadIs b m.connections
    → HeadIs b (close_from rounds (suc i) m).connections
unfolding close_from
close_from-HeadIs zero i b m h = h
close_from-HeadIs (suc rounds) i b m h =
    let (tail, e, lacks, some_size) = h in
    let rest : Option ℕ → Client = λ o. elim o [
      | none ↦ m
      | some addr ↦ close_from rounds (suc i + 1) (close_connection m addr none)
    ] in
    elim (Option-cases (get_elem? m.connections.items (suc i))) [
      | inl absent ↦ subst (λ (c : Client). HeadIs b c.connections) (sym (ap rest absent)) h
      | inr (x, at) ↦
          subst (λ (c : Client). HeadIs b c.connections) (sym (ap rest at))
            (let other =
                elem-other b x i tail lacks (ap (λ its. get_elem? its (suc i)) (sym e) ∙ at) in
              let next : suc i + 1 ≡ suc (i + 1) = omega arith in
              rw next (
                close_from-HeadIs rounds (i + 1) b (close_connection m x none)
                  (close_connection-HeadIs b x m other h)))
    ]
