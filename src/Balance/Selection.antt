-- ===== src/Balance/Selection.antt =====
-- Which backend the methods of selectBackend choose.
use iip.Prelude.{
  ℕ, zero, suc, ◌+◌, ◌%◌, ◌≤◌, ◌<◌, ◌≡◌, ◌⊎◌, inl, inr, sym, ltb, leb, if◌then◌else◌, if_true,
  if_false, Bool-cases, arith, length,
}
use mathlib.Core.Path.{subst}
use iip.Balance.{LoadBalanceClient, pending_at, min_loop, select_backend_min_pending}

-- The indices that a walk of this many steps comes to, round a ring of this size.
abbrev pub IsPassed : ℕ → ℕ → ℕ → ℕ → Type 0
IsPassed size idx rounds j = ((idx < j) × (j ≤ idx + rounds)) ⊎ (j + size ≤ idx + rounds)

-- An index that is no worse than the one before, nor than any that is passed.
record IsLeast (pending : ℕ → ℕ) (size idx rounds min_idx result : ℕ) : Type 0 where
  pub in_range : result < size
  pub no_worse : pending result ≤ pending min_idx
  pub least : (j : ℕ) → j < size → IsPassed size idx rounds j → pending result ≤ pending j

abbrev pub next_of : ℕ → ℕ → ℕ
next_of size idx = if leb size (idx + 1) then 0 else idx + 1

next_of-range : (size idx : ℕ) → idx < size → next_of size idx < size
next_of-range size idx h = ground (arith, h)

pub walk_onward :
    (size idx rounds j : ℕ)
    → idx < size
    → j < size
    → IsPassed size idx (suc rounds) j
    → (j ≡ next_of size idx) ⊎ IsPassed size (next_of size idx) rounds j
walk_onward size idx rounds j h l p = elim (Bool-cases (leb size (idx + 1))) [
  | inl wraps ↦ rw wraps (ground (arith, p))
  | inr goes_on ↦ rw goes_on (ground (arith, p))
]

step-IsLeast :
    (pending : ℕ → ℕ) (size idx rounds min_idx kept result : ℕ)
    → idx < size
    → pending kept ≤ pending min_idx
    → pending kept ≤ pending (next_of size idx)
    → IsLeast pending size (next_of size idx) rounds kept result
    → IsLeast pending size idx (suc rounds) min_idx result
step-IsLeast pending size idx rounds min_idx kept result h a b r = record {
  in_range = r.in_range;
  no_worse = omega (arith, a, r.no_worse);
  least = λ j l p. elim (walk_onward size idx rounds j h l p) [
    | inl now ↦ rw now (omega (arith, b, r.no_worse))
    | inr later ↦ r.least j l later
  ];
}

min_loop-IsLeast :
    (pending : ℕ → ℕ) (rounds size idx min_idx : ℕ)
    → idx < size
    → min_idx < size
    → IsLeast pending size idx rounds min_idx
        (min_loop rounds pending size idx min_idx (pending min_idx))
unfolding min_loop
min_loop-IsLeast pending zero size idx min_idx h l = record {
  in_range = l;
  no_worse = omega arith;
  least = λ j k p. ground (arith, p);
}
min_loop-IsLeast pending (suc rounds) size idx min_idx h l =
    let next = next_of size idx in
    let range = next_of-range size idx h in
    let less = min_loop-IsLeast pending rounds size next next range range in
    let same = min_loop-IsLeast pending rounds size next min_idx range l in
    elim (Bool-cases (ltb (pending next) (pending min_idx))) [
      | inl better ↦
          subst (IsLeast pending size idx (suc rounds) min_idx)
            (sym (if_true (ltb (pending next) (pending min_idx)) _ _ better))
            (step-IsLeast pending size idx rounds min_idx next _ h (ground (arith, better))
              (omega arith) less)
      | inr worse ↦
          subst (IsLeast pending size idx (suc rounds) min_idx)
            (sym (if_false (ltb (pending next) (pending min_idx)) _ _ worse))
            (step-IsLeast pending size idx rounds min_idx min_idx _ h (omega arith)
              (ground (arith, worse)) same)
    ]

-- selectBackendMinPending, with at least one active client: it chooses an active client that has
-- no more pending requests, failed health checks counted in, than any active client.
pub select_backend_min_pending-least :
    (m : LoadBalanceClient) (j : ℕ)
    → j < length m.active_clients
    → ((select_backend_min_pending m).0 < length m.active_clients)
      × (pending_at m (select_backend_min_pending m).0 ≤ pending_at m j)
unfolding select_backend_min_pending
select_backend_min_pending-least m j l =
    let size = length m.active_clients in
    let idx = m.roundrobin_index % size in
    let range : idx < size = omega (arith, l) in
    let pending = pending_at m in
    elim (Bool-cases (ltb 0 (pending idx))) [
      | inl busy ↦
          let found = min_loop-IsLeast pending size size idx idx range range in
          subst (λ (n : ℕ). (n < size) × (pending n ≤ pending j))
            (sym (if_true (ltb 0 (pending idx)) _ _ busy))
            (found.in_range, found.least j l (omega (arith, l, range)))
      | inr free ↦
          subst (λ (n : ℕ). (n < size) × (pending n ≤ pending j))
            (sym (if_false (ltb 0 (pending idx)) _ _ free)) (range, ground (arith, free))
    ]
