-- ===== src/Balance/Tasks.antt =====
-- Which client getTaskClient chooses.
use iip.Prelude.{
  ℕ, zero, suc, ◌-◌, ◌<◌, ◌≡◌, ◌≢◌, ◌⊎◌, inl, inr, refl, sym, ap, Bool, true, false, Option, none,
  some, ltb, ◌==◌, if_true, if_false, Bool-cases, arith, length, some_injective,
}
use mathlib.Core.Path.{subst}
use iip.Balance.{
  LoadBalanceClient, pending_at, available_at, keep_less, task_loop, Task, chosen, task_of,
  get_task_client,
}
use iip.Balance.Selection.{IsPassed, next_of, walk_onward}

module _ (available : ℕ → Bool) (pending : ℕ → ℕ) (size : ℕ) where
  -- An available client, and what may have been found so far.
  abbrev IsFound : Option ℕ → Type 0
  IsFound o = (i : ℕ) × (o ≡ some i) × (i < size) × (available i ≡ true)

  abbrev IsKept : Option ℕ × ℕ → Type 0
  IsKept found = (found.0 ≡ none) ⊎ IsFound found.0

  keep_less-IsFound :
      (found : Option ℕ × ℕ) (next pr : ℕ)
      → next < size
      → available next ≡ true
      → IsKept found
      → IsFound (keep_less found next pr).0
  keep_less-IsFound (none, min_n) next pr l a k = (next, refl, l, a)
  keep_less-IsFound (some c, min_n) next pr l a (inl nothing) = absurd (cc nothing)
  keep_less-IsFound (some c, min_n) next pr l a (inr was) = elim (Bool-cases (ltb pr min_n)) [
    | inl less ↦
        subst (λ (f : Option ℕ × ℕ). IsFound f.0) (sym (if_true (ltb pr min_n) _ _ less))
          (next, refl, l, a)
    | inr more ↦
        subst (λ (f : Option ℕ × ℕ). IsFound f.0) (sym (if_false (ltb pr min_n) _ _ more)) was
  ]

  next_in_range : (idx : ℕ) → 0 < size → next_of size idx < size
  next_in_range idx h = ground (arith, h)

  abbrev Ends : ℕ × Option ℕ → Type 0
  Ends r = IsFound r.1

  task_loop-found :
      (rounds idx : ℕ) (found : Option ℕ × ℕ)
      → 0 < size
      → IsFound found.0
      → Ends (task_loop rounds available pending size idx found)
  unfolding task_loop
  task_loop-found zero idx found h was = was
  task_loop-found (suc rounds) idx found h was =
      let next = next_of size idx in
      let passed = task_loop-found rounds next found h was in
      let more = λ (f : IsFound (keep_less found next (pending next)).0).
        task_loop-found rounds next (keep_less found next (pending next)) h f in
      elim (Bool-cases (available next)) [
        | inl free ↦
            let kept =
              keep_less-IsFound found next (pending next) (next_in_range idx h) free (inr was) in
            subst Ends (sym (if_true (available next) _ _ free))
              (elim (Bool-cases ((keep_less found next (pending next)).1 == 0)) [
                | inl idle ↦
                    subst Ends
                      (sym (if_true ((keep_less found next (pending next)).1 == 0) _ _ idle)) kept
                | inr busy ↦
                    subst Ends
                      (sym (if_false ((keep_less found next (pending next)).1 == 0) _ _ busy))
                      (more kept)
              ])
        | inr paused ↦ subst Ends (sym (if_false (available next) _ _ paused)) passed
      ]

  -- One round finds a client, if the later ones do where the next client is not available.
  round-finds :
      (rounds idx : ℕ) (found : Option ℕ × ℕ)
      → 0 < size
      → IsKept found
      → (available (next_of size idx) ≡ false
          → Ends (task_loop rounds available pending size (next_of size idx) found))
      → Ends (task_loop (suc rounds) available pending size idx found)
  unfolding task_loop
  round-finds rounds idx found h kept later =
      let next = next_of size idx in
      elim (Bool-cases (available next)) [
        | inl free ↦
            let now = keep_less-IsFound found next (pending next) (next_in_range idx h) free kept in
            subst Ends (sym (if_true (available next) _ _ free))
              (elim (Bool-cases ((keep_less found next (pending next)).1 == 0)) [
                | inl idle ↦
                    subst Ends
                      (sym (if_true ((keep_less found next (pending next)).1 == 0) _ _ idle)) now
                | inr busy ↦
                    subst Ends
                      (sym (if_false ((keep_less found next (pending next)).1 == 0) _ _ busy))
                      (task_loop-found rounds next (keep_less found next (pending next)) h now)
              ])
        | inr paused ↦ subst Ends (sym (if_false (available next) _ _ paused)) (later paused)
      ]

  not_paused : (j next : ℕ) → available j ≡ true → available next ≡ false → j ≢ next
  not_paused j next a paused = λ same. absurd (cc (ap available same, a, paused))

  passed_later :
      {P : Type 0} (j next : ℕ) → available j ≡ true → available next ≡ false → (j ≡ next) ⊎ P → P
  passed_later j next a paused (inl same) = absurd (not_paused j next a paused same)
  passed_later j next a paused (inr p) = p

  -- A client that the loop comes to, if it is available.
  task_loop-finds :
      (rounds idx : ℕ) (found : Option ℕ × ℕ) (j : ℕ)
      → j < size
      → available j ≡ true
      → IsKept found
      → (j ≡ next_of size idx) ⊎ IsPassed size (next_of size idx) rounds j
      → Ends (task_loop (suc rounds) available pending size idx found)
  task_loop-finds zero idx found j l a kept p =
      round-finds 0 idx found (omega (arith, l)) kept
        λ paused. absurd (not_passed (passed_later j (next_of size idx) a paused p))
    where
      not_passed : IsPassed size (next_of size idx) 0 j → ⊥
      not_passed q = omega (arith, q, l, next_in_range idx (omega (arith, l)))
  task_loop-finds (suc rounds) idx found j l a kept p =
      let next = next_of size idx in
      let finds = λ (q : (j ≡ next_of size next) ⊎ IsPassed size (next_of size next) rounds j).
        task_loop-finds rounds next found j l a kept q in
      round-finds (suc rounds) idx found (omega (arith, l)) kept λ paused. finds (
        walk_onward size next rounds j (next_in_range idx (omega (arith, l))) l
          (passed_later j next a paused p))

-- A client chosen by getTaskClient, which is among the active ones and available.
abbrev pub IsChosen : ℕ → LoadBalanceClient → Task → Type 0
IsChosen now m t =
    (i : ℕ) × (m' : LoadBalanceClient) × (t ≡ chosen i m')
    × (i < length m.active_clients)
    × (available_at now m i ≡ true)

task_of-IsChosen :
    (now : ℕ) (m : LoadBalanceClient) (r : ℕ × Option ℕ)
    → IsFound (available_at now m) (pending_at m) (length m.active_clients) r.1
    → IsChosen now m (task_of m r)
task_of-IsChosen now m (idx, none) (i, e, l, a) = absurd (cc e)
task_of-IsChosen now m (idx, some c) (i, e, l, a) =
    (c, record m { roundrobin_index = idx }, refl, rw (some_injective e) l, rw (some_injective e) a)

-- getTaskClient, when some active client is not paused or has been idle for more than five seconds:
-- it chooses an active client that is not paused or has been idle so long, wherever the round robin
-- stands.
pub get_task_client-IsChosen :
    (now : ℕ) (m : LoadBalanceClient) (j : ℕ)
    → j < length m.active_clients
    → available_at now m j ≡ true
    → IsChosen now m (get_task_client now m)
unfolding get_task_client
get_task_client-IsChosen now m j l a =
    let size = length m.active_clients in
    let some_client : (size == 0) ≡ false = ground (arith, l) in
    let one_more : suc (size - 1) ≡ size = omega (arith, l) in
    let next = next_of size m.roundrobin_index in
    let range : next < size = ground (arith, l) in
    let passed : (j ≡ next) ⊎ IsPassed size next (size - 1) j = omega (arith, l, range) in
    subst (IsChosen now m) (sym (if_false (size == 0) _ _ some_client)) (
      task_of-IsChosen now m _ (
        subst
          (λ n.
            IsFound (available_at now m) (pending_at m) size
              (task_loop n (available_at now m) (pending_at m) size m.roundrobin_index (none, 0)).1)
          one_more
          (task_loop-finds (available_at now m) (pending_at m) size (size - 1) m.roundrobin_index
            (none, 0) j l a (inl refl) passed)))
