-- ===== src/Client/WellFormed.antt =====
-- client.go: what holds of the connections of a client, and that a step of a connection keeps it.
use iip.Prelude.{
  ℕ, zero, suc, ◌%◌, ◌^◌, ◌≤◌, ◌<◌, ◌≡◌, refl, sym, ap, ◌∙◌, false, ◌||◌, List, [], ◌∷◌, none, some,
  ◌==◌, if_true, if_false, arith, length, length-take, get_elem?, All, Bool-cases, Option-cases,
  inl, inr,
}
use mathlib.Core.Path.{subst}
use iip.Prelude.Dict.{has, AreDistinct}
use iip.Prelude.Slices.{view, cut, without, view-cut, length-cut}
use iip.Statis.{update}
use iip.Connection.{Connection}
use iip.Connection.Invariant.{get_elem?-update}
use iip.Client.{Client, position, without_connection, take_out, settle}

abbrev Lacks : ℕ → List ℕ → Type 0
Lacks addr xs = has addr xs ≡ false

-- An object of the heap that is open.
abbrev pub IsOpenAt : List Connection → ℕ → Type 0
IsOpenAt heap addr = (c : Connection) × (get_elem? heap addr ≡ some c) × (c.closed_mark ≡ false)

-- The client's connections are open, no two are the same, they are counted, and there are no more
-- than it may have.
pub record IsWell (m : Client) : Type 0 where
  pub all_open : All (IsOpenAt m.heap) (view m.connections)
  pub distinct : AreDistinct (view m.connections)
  pub fits : m.connections.size ≤ length m.connections.items
  pub counted : m.conn_count ≡ m.connections.size % 2 ^ 32
  pub limited : m.connections.size ≤ m.config.max_connections

position-none : (addr : ℕ) (xs : List ℕ) → position addr xs ≡ none → has addr xs ≡ false
unfolding position has
position-none addr [] e = refl
position-none addr (x ∷ xs) e = ground (arith, position-none addr xs)

pub position-least : (addr i : ℕ) (xs : List ℕ) → position addr xs ≡ some i → i < length xs
unfolding position
position-least addr i [] e = cc
position-least addr i (x ∷ xs) e = elim (Option-cases (position addr xs)) [
  | inl absent ↦ ground (arith, absent)
  | inr (j, found) ↦ let less = position-least addr j xs found in ground (arith, found)
]

pub All-without : (P : ℕ → Type 0) (i : ℕ) (xs : List ℕ) → All P xs → All P (without i xs)
All-without P zero [] h = h
All-without P zero (x ∷ xs) h = h.1
All-without P (suc i) [] h = h
All-without P (suc i) (x ∷ xs) h = (h.0, All-without P i xs h.1)

has-without : (k i : ℕ) (xs : List ℕ) → has k xs ≡ false → has k (without i xs) ≡ false
unfolding has
has-without k zero [] h = h
has-without k zero (x ∷ xs) h = ground arith
has-without k (suc i) [] h = h
has-without k (suc i) (x ∷ xs) h = ground (arith, has-without k i xs)

without-AreDistinct : (i : ℕ) (xs : List ℕ) → AreDistinct xs → AreDistinct (without i xs)
without-AreDistinct zero [] d = d
without-AreDistinct zero (x ∷ xs) d = d.1
without-AreDistinct (suc i) [] d = d
without-AreDistinct (suc i) (x ∷ xs) d = (has-without x i xs d.0, without-AreDistinct i xs d.1)

-- The position found is the only one.
without-position :
    (addr i : ℕ) (xs : List ℕ)
    → AreDistinct xs
    → position addr xs ≡ some i
    → has addr (without i xs) ≡ false
unfolding position has
without-position addr i [] d e = cc
without-position addr zero (x ∷ xs) d e = elim (Option-cases (position addr xs)) [
  | inl absent ↦ position-none addr xs absent
  | inr (j, found) ↦
      let same : x ≡ addr = ground (arith, found) in subst (λ k. has k xs ≡ false) same d.0
]
without-position addr (suc i) (x ∷ xs) d e = elim (Option-cases (position addr xs)) [
  | inl absent ↦ absurd (ground (arith, absent))
  | inr (j, found) ↦
      let later = without-position addr j xs d.1 found in
      let same : j ≡ i = ground (arith, found) in
      let other : (x == addr) ≡ false = ground (arith, found) in
      subst (λ (k : ℕ). (x == addr || has addr (without k xs)) ≡ false) same
        (ground (arith, other, later))
]

-- A connection that takes a step stays open, or is taken out.
All-settled :
    (heap : List Connection) (addr : ℕ) (conn : Connection) (xs : List ℕ)
    → has addr xs ≡ false
    → All (IsOpenAt heap) xs
    → All (IsOpenAt (update heap addr (λ old. conn))) xs
unfolding has
All-settled heap addr conn [] h o = tt
All-settled heap addr conn (x ∷ xs) h o =
    let other : (addr == x) ≡ false = ground arith in
    let rest : has addr xs ≡ false = ground arith in
    let (c, at, is_open) = o.0 in
    (
      (
        c,
        get_elem?-update heap addr x (λ old. conn) ∙ if_false (addr == x) _ _ other ∙ at,
        is_open,
      ),
      All-settled heap addr conn xs rest o.1,
    )

IsOpenAt-kept :
    (heap : List Connection) (addr x : ℕ) (conn : Connection)
    → conn.closed_mark ≡ false
    → IsOpenAt heap x
    → IsOpenAt (update heap addr (λ old. conn)) x
IsOpenAt-kept heap addr x conn is_open (c, at, o) = elim (Bool-cases (addr == x)) [
  | inl same ↦ (
    conn,
    get_elem?-update heap addr x (λ old. conn)
        ∙ if_true (addr == x) _ _ same
        ∙ ap (λ e. elim e [ none ↦ none | some a ↦ some conn ]) at,
    is_open,
  )
  | inr other ↦
      (c, get_elem?-update heap addr x (λ old. conn) ∙ if_false (addr == x) _ _ other ∙ at, o)
]

All-kept :
    (heap : List Connection) (addr : ℕ) (conn : Connection) (xs : List ℕ)
    → conn.closed_mark ≡ false
    → All (IsOpenAt heap) xs
    → All (IsOpenAt (update heap addr (λ old. conn))) xs
All-kept heap addr conn [] h o = tt
All-kept heap addr conn (x ∷ xs) h o =
    (IsOpenAt-kept heap addr x conn h o.0, All-kept heap addr conn xs h o.1)

-- A connection is left out of the list; the others are open on what the heap is now.
pub left_out :
    (m : Client) (addr i : ℕ) (heap : List Connection)
    → IsWell m
    → position addr (view m.connections) ≡ some i
    → All (IsOpenAt heap) (without i (view m.connections))
    → IsWell (without_connection (record m { heap = heap }) (some i))
left_out m addr i heap w found all_open =
    let xs = view m.connections in
    let least = position-least addr i xs found in
    let size = length-take m.connections.size m.connections.items in
    let fits = w.fits in
    let in_slice : i < m.connections.size = omega (arith, least, size) in
    let left : view (cut i m.connections) ≡ without i xs =
      view-cut i m.connections in_slice w.fits in
    let counted = w.counted in
    let limited = w.limited in
    record {
      all_open = subst (All (IsOpenAt heap)) (sym left) all_open;
      distinct = subst AreDistinct (sym left) (without-AreDistinct i xs w.distinct);
      fits = omega (arith, fits, length-cut i m.connections in_slice w.fits);
      counted = omega (arith, counted, in_slice);
      limited = omega (arith, limited);
    }

-- What is left when a connection that has stepped is closed.
stepped_out :
    (m : Client) (addr i : ℕ) (conn : Connection)
    → IsWell m
    → position addr (view m.connections) ≡ some i
    → IsWell (without_connection (record m { heap = update m.heap addr (λ old. conn) }) (some i))
stepped_out m addr i conn w found =
    let xs = view m.connections in
    left_out m addr i (update m.heap addr (λ old. conn)) w found (
      All-settled m.heap addr conn (without i xs) (without-position addr i xs w.distinct found)
        (All-without (IsOpenAt m.heap) i xs w.all_open))

pub settle-IsWell :
    (m : Client) (addr : ℕ) (conn : Connection) → IsWell m → IsWell (settle m addr conn)
unfolding settle take_out
settle-IsWell m addr conn w =
    let stepped = record m { heap = update m.heap addr (λ old. conn) } in
    elim (Bool-cases conn.closed_mark) [
      | inr is_open ↦ subst IsWell (sym (if_false conn.closed_mark _ _ is_open)) (record {
        all_open = All-kept m.heap addr conn (view m.connections) is_open w.all_open;
        distinct = w.distinct;
        fits = w.fits;
        counted = w.counted;
        limited = w.limited;
      })
      | inl closed ↦
          subst IsWell (sym (if_true conn.closed_mark _ _ closed))
            (elim (Option-cases (position addr (view m.connections))) [
              | inl absent ↦
                  subst (λ e. IsWell (without_connection stepped e)) (sym absent)
                    (record {
                      all_open =
                          All-settled m.heap addr conn (view m.connections)
                            (position-none addr (view m.connections) absent) w.all_open;
                      distinct = w.distinct;
                      fits = w.fits;
                      counted = w.counted;
                      limited = w.limited;
                    })
              | inr (i, found) ↦
                  subst (λ e. IsWell (without_connection stepped e)) (sym found)
                    (stepped_out m addr i conn w found)
            ])
    ]
