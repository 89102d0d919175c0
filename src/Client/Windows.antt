-- ===== src/Client/Windows.antt =====
-- client.go: the loop of Client.Close reads no more of the array than the slice had at its start.
use iip.Prelude.{
  ℕ, zero, suc, ◌+◌, ◌≤◌, ◌<◌, ◌≡◌, refl, sym, ap, ◌∙◌, ◌%◌, ◌-◌, ◌^◌, List, [], ◌∷◌, Option, none,
  some, if_true, if_false, arith, length, length-take, get_elem?, take, Bool-cases, Option-cases,
  inl, inr,
}
use mathlib.Core.Path.{subst}
use iip.Prelude.Slices.{Slice, view, short, view-short, cut-short}
use iip.Statis.{update}
use iip.Connection.{Connection, close}
use iip.Client.{
  Client, position, without_connection, take_out, settle, close_connection, close_from,
}
use iip.Client.WellFormed.{IsWell, position-least}
use iip.Client.Limits.{close_connection-IsWell}

-- The client with the front of its array alone.
abbrev pub shorten : ℕ → Client → Client
shorten n m = record m { connections = short n m.connections }

-- A step keeps what the shortened client is, and makes the slice no longer.
abbrev IsShorter : ℕ → Client → Client → Client → Type 0
IsShorter n m m' k = (k ≡ shorten n m') × (m'.connections.size ≤ m.connections.size)

take_out-IsShorter :
    (m : Client) (n x : ℕ)
    → m.connections.size ≤ length m.connections.items
    → m.connections.size ≤ n
    → IsShorter n m (take_out m x) (take_out (shorten n m) x)
unfolding take_out
take_out-IsShorter m n x fits within =
    let xs = view m.connections in
    let shown : view (short n m.connections) ≡ xs = view-short n m.connections within in
    let leaves : Option ℕ → Type 0 =
      λ o. IsShorter n m (without_connection m o) (without_connection (shorten n m) o) in
    let same : IsShorter n m (take_out m x) (without_connection (shorten n m) (position x xs)) =
      elim (Option-cases (position x xs)) [
        | inl absent ↦ subst leaves (sym absent) (refl, omega arith)
        | inr (j, found) ↦
            let inside : j < m.connections.size = omega (
              arith,
              position-least x j xs found,
              length-take m.connections.size m.connections.items,
            ) in
            subst leaves (sym found) (
              ap
                  (λ (s : Slice ℕ). record m {
                    conn_count = (m.conn_count + (2 ^ 32 - 1)) % 2 ^ 32;
                    connections = s;
                  })
                  (cut-short j n m.connections inside within fits),
              omega arith,
            )
      ] in
    (ap (λ ys. without_connection (shorten n m) (position x ys)) shown ∙ same.0, same.1)

settle-IsShorter :
    (m : Client) (n x : ℕ) (conn : Connection)
    → m.connections.size ≤ length m.connections.items
    → m.connections.size ≤ n
    → IsShorter n m (settle m x conn) (settle (shorten n m) x conn)
unfolding settle
settle-IsShorter m n x conn fits within =
    let stepped = record m { heap = update m.heap x (λ old. conn) } in
    elim (Bool-cases conn.closed_mark) [
      | inr live ↦ (
        if_false conn.closed_mark _ _ live
            ∙ ap (shorten n) (sym (if_false conn.closed_mark _ _ live)),
        subst (λ (c : Client). c.connections.size ≤ m.connections.size)
            (sym (if_false conn.closed_mark _ _ live)) (omega arith),
      )
      | inl closed ↦
          let (out, less) = take_out-IsShorter stepped n x fits within in
          (
            if_true conn.closed_mark _ _ closed
                ∙ out
                ∙ ap (shorten n) (sym (if_true conn.closed_mark _ _ closed)),
            subst (λ (c : Client). c.connections.size ≤ m.connections.size)
                (sym (if_true conn.closed_mark _ _ closed)) less,
          )
    ]

close_connection-IsShorter :
    (m : Client) (n x : ℕ)
    → m.connections.size ≤ length m.connections.items
    → m.connections.size ≤ n
    → IsShorter n m (close_connection m x none) (close_connection (shorten n m) x none)
unfolding close_connection
close_connection-IsShorter m n x fits within =
    let closes : Option Connection → Type 0 = λ o.
      IsShorter n m (elim o [ none ↦ m | some conn ↦ settle m x (close conn none) ])
        (elim o [ none ↦ shorten n m | some conn ↦ settle (shorten n m) x (close conn none) ]) in
    elim (Option-cases (get_elem? m.heap x)) [
      | inl absent ↦ subst closes (sym absent) (refl, omega arith)
      | inr (conn, at) ↦
          subst closes (sym at) (settle-IsShorter m n x (close conn none) fits within)
    ]

get_elem?-take {ℓ} :
    {A : Type ℓ} (i n : ℕ) (xs : List A) → i < n → get_elem? (take n xs) i ≡ get_elem? xs i
get_elem?-take i zero xs h = absurd (omega (arith, h))
get_elem?-take i (suc n) [] h = refl
get_elem?-take zero (suc n) (x ∷ xs) h = refl
get_elem?-take (suc i) (suc n) (x ∷ xs) h = get_elem?-take i n xs (omega (arith, h))

-- The loop over the indices below `n`.
pub close_from-shorten :
    (rounds i n : ℕ) (m : Client)
    → IsWell m
    → m.connections.size ≤ n
    → i + rounds ≤ n
    → (close_from rounds i (shorten n m) ≡ shorten n (close_from rounds i m))
      × ((close_from rounds i m).connections.size ≤ n)
unfolding close_from
close_from-shorten zero i n m w within inside = (refl, within)
close_from-shorten (suc rounds) i n m w within inside =
    let on : (k : Client) → Option ℕ → Client = λ k o. elim o [
      | none ↦ k
      | some addr ↦ close_from rounds (i + 1) (close_connection k addr none)
    ] in
    let read = get_elem?-take i n m.connections.items (omega (arith, inside)) in
    let goes : Option ℕ → Type 0 =
      λ o. (on (shorten n m) o ≡ shorten n (on m o)) × ((on m o).connections.size ≤ n) in
    let same : goes (get_elem? m.connections.items i) =
      elim (Option-cases (get_elem? m.connections.items i)) [
        | inl absent ↦ subst goes (sym absent) (refl, within)
        | inr (addr, at) ↦
            let (closed, less) = close_connection-IsShorter m n addr w.fits within in
            let (later, size) =
              close_from-shorten rounds (i + 1) n (close_connection m addr none)
                (close_connection-IsWell m addr none w) (omega (arith, less, within))
                (omega (arith, inside)) in
            subst goes (sym at) (ap (close_from rounds (i + 1)) closed ∙ later, size)
      ] in
    (ap (on (shorten n m)) read ∙ same.0, same.1)
