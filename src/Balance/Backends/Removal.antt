-- ===== src/Balance/Backends/Removal.antt =====
-- What RemoveBackend leaves of the active clients.
use iip.Prelude.{
  ℕ, zero, suc, ◌+◌, ◌≡◌, refl, sym, ap, ◌∙◌, true, false, List, [], ◌∷◌, ◌++◌, append-nil,
  append_assoc, Option, none, some, ltb, lt→ltb, if◌then◌else◌, if_true, if_false, All, All-append,
  arith, length, length-append, length-drop, get_elem?, drop,
}
use iip.Prelude.Dict.{lookup, erase}
use iip.Prelude.Slices.{
  Slice, whole, view, cut, without, view-cut, view-whole, without-middle, drop-behind, items-cut,
}
use iip.Balance.{EvaluatedClient, LoadBalanceClient, alias_not_exist}
use iip.Balance.Backends.{has_alias, remove_loop, removed_by, remove_backend}

elem_behind :
    (front back : List ℕ) (a : ℕ) → get_elem? (front ++ (a ∷ back)) (length front) ≡ some a
elem_behind [] back a = refl
elem_behind (b ∷ front) back a = elem_behind front back a

no_elem : (xs : List ℕ) → get_elem? xs (length xs) ≡ none
no_elem [] = refl
no_elem (x ∷ xs) = no_elem xs

module _ (heap : List EvaluatedClient) (alias : ℕ) where
  -- None of these addresses has a client with the alias.
  abbrev pub Lacks : List ℕ → Type 0
  Lacks addrs = All (λ a. has_alias heap alias a ≡ false) addrs

  abbrev round_from : ℕ → ℕ → Slice ℕ → Option ℕ → Option (Slice ℕ)
  round_from rounds i s found = elim found [
    | none ↦ some s
    | some addr ↦
        if has_alias heap alias addr
        then (if ltb i s.size then remove_loop rounds (i + 1) heap alias (cut i s) else none)
        else remove_loop rounds (i + 1) heap alias s
  ]

  -- The loop passes clients without the alias.
  loop-front :
      (before front : List ℕ) (rounds i n : ℕ) (s : Slice ℕ) (back : List ℕ)
      → s.items ≡ before ++ (front ++ back)
      → i ≡ length before
      → n ≡ length front + rounds
      → Lacks front
      → remove_loop n i heap alias s
        ≡ remove_loop rounds (length before + length front) heap alias s
  unfolding remove_loop
  loop-front before [] rounds i n s back e at all lacks =
      let same : n ≡ rounds = omega (arith, all) in
      let here : i ≡ length before + 0 = omega (arith, at) in
      ap (λ (k : ℕ). remove_loop k i heap alias s) same
      ∙ ap (λ (k : ℕ). remove_loop rounds k heap alias s) here
  loop-front before (a ∷ front) rounds i zero s back e at all lacks = absurd (omega (arith, all))
  loop-front before (a ∷ front) rounds i (suc n) s back e at all lacks =
      let later =
        loop-front (before ++ (a ∷ [])) front rounds (i + 1) n s back
          (e ∙ sym (append_assoc before (a ∷ []) (front ++ back)))
          (omega (arith, at, length-append before (a ∷ []))) (omega (arith, all)) lacks.1 in
      let there : length (before ++ (a ∷ [])) + length front ≡ length before + suc (length front) =
        omega (arith, length-append before (a ∷ [])) in
      ap (round_from n i s) (
        ap (λ t. get_elem? t i) e
        ∙ ap (get_elem? (before ++ (a ∷ (front ++ back)))) at
        ∙ elem_behind before (front ++ back) a)
      ∙ if_false (has_alias heap alias a) _ _ lacks.0
      ∙ later
      ∙ ap (λ (k : ℕ). remove_loop rounds k heap alias s) there

  loop-end : (rounds : ℕ) (s : Slice ℕ) → remove_loop rounds (length s.items) heap alias s ≡ some s
  unfolding remove_loop
  loop-end zero s = refl
  loop-end (suc rounds) s = ap (round_from rounds (length s.items) s) (no_elem s.items)

  loop-Lacks :
      (before back : List ℕ) (s : Slice ℕ) (n : ℕ)
      → s.items ≡ before ++ back
      → n ≡ length back
      → Lacks back
      → remove_loop n (length before) heap alias s ≡ some s
  unfolding remove_loop
  loop-Lacks before back s n e all lacks =
      loop-front before back 0 (length before) n s []
        (e ∙ ap (λ t. before ++ t) (sym (append-nil back))) refl (omega (arith, all)) lacks

  Lacks-drop : (n : ℕ) (xs : List ℕ) → Lacks xs → Lacks (drop n xs)
  Lacks-drop zero xs h = h
  Lacks-drop (suc n) [] h = h
  Lacks-drop (suc n) (x ∷ xs) h = Lacks-drop n xs h.1

  -- After the removal the loop reads what has moved down, and the last address once more.
  loop-cut :
      (front back : List ℕ) (a : ℕ)
      → Lacks back
      → let s = cut (length front) (whole (front ++ (a ∷ back))) in
        remove_loop (length back) (length front + 1) heap alias s ≡ some s
  unfolding remove_loop
  loop-cut front [] a lacks = refl
  loop-cut front (b ∷ back) a lacks =
      let s = cut (length front) (whole (front ++ (a ∷ (b ∷ back)))) in
      let rest = drop (length back) (b ∷ back) in
      let there : length front + 1 ≡ length (front ++ (b ∷ [])) =
        omega (arith, length-append front (b ∷ [])) in
      let items_are =
        items-cut front (b ∷ back) a
        ∙ ap (λ t. (front ++ (b ∷ back)) ++ t)
            (drop-behind front (b ∷ back) a (length front + length (b ∷ back)) (length back) refl)
        ∙ append_assoc front (b ∷ back) rest
        ∙ sym (append_assoc front (b ∷ []) (back ++ rest)) in
      ap (λ (k : ℕ). remove_loop (length (b ∷ back)) k heap alias s) there
      ∙ loop-Lacks (front ++ (b ∷ [])) (back ++ rest) s (length (b ∷ back)) items_are
          (omega (arith, length-append back rest, length-drop (length back) (b ∷ back)))
          (All-append (λ x. has_alias heap alias x ≡ false) back rest lacks.1
            (Lacks-drop (length back) (b ∷ back) lacks))

  loop-once :
      (front back : List ℕ) (a : ℕ)
      → Lacks front
      → has_alias heap alias a ≡ true
      → Lacks back
      → let xs = front ++ (a ∷ back) in
        remove_loop (length xs) 0 heap alias (whole xs) ≡ some (cut (length front) (whole xs))
  unfolding remove_loop
  loop-once front back a lacks has others =
      let xs = front ++ (a ∷ back) in
      let start : 0 + length front ≡ length front = omega arith in
      loop-front [] front (suc (length back)) 0 (length xs) (whole xs) (a ∷ back) refl refl
        (omega (arith, length-append front (a ∷ back))) lacks
      ∙ ap (λ (k : ℕ). remove_loop (suc (length back)) k heap alias (whole xs)) start
      ∙ ap (round_from (length back) (length front) (whole xs)) (elem_behind front back a)
      ∙ if_true (has_alias heap alias a) _ _ has
      ∙ if_true (ltb (length front) (length xs)) _ _
          (lt→ltb _ _ (omega (arith, length-append front (a ∷ back))))
      ∙ loop-cut front back a others

-- A backend that has a name of the map, and that one active client alone has: RemoveBackend, which
-- goes on over the slice it has shifted, takes that client and no other out of the active clients,
-- and the name out of the map.
pub remove_backend_alone :
    (m : LoadBalanceClient) (alias addr entry : ℕ) (front back : List ℕ)
    → m.active_clients ≡ front ++ (addr ∷ back)
    → lookup alias m.active_client_map ≡ some entry
    → has_alias m.heap alias addr ≡ true
    → Lacks m.heap alias front
    → Lacks m.heap alias back
    → remove_backend m alias
      ≡ some (
        none,
        record m {
          active_clients = front ++ back;
          active_client_map = erase alias m.active_client_map;
        },
      )
unfolding remove_backend
remove_backend_alone m alias addr entry front back actives found has lacks others =
    let xs = front ++ (addr ∷ back) in
    let s = cut (length front) (whole xs) in
    let removed : view s ≡ front ++ back =
      view-cut (length front) (whole xs) (omega (arith, length-append front (addr ∷ back)))
        (omega arith)
      ∙ ap (without (length front)) (view-whole xs)
      ∙ without-middle front back addr in
    ap
      (λ e. elim e [
        | none ↦ some (some alias_not_exist, m)
        | some a ↦
            removed_by m alias
              (remove_loop (length m.active_clients) 0 m.heap alias (whole m.active_clients))
      ])
      found
    ∙ ap (λ ys. removed_by m alias (remove_loop (length ys) 0 m.heap alias (whole ys))) actives
    ∙ ap (removed_by m alias) (loop-once m.heap alias front back addr lacks has others)
    ∙ ap
        (λ ys. some (
          none,
          record m { active_clients = ys; active_client_map = erase alias m.active_client_map },
        ))
        removed
