-- ===== src/Routes/Removal.antt =====
-- When RemoveRoute returns, and what it has then removed.
use iip.Prelude.{
  ℕ, zero, suc, ◌+◌, ◌-◌, ◌≤◌, ◌<◌, ◌≡◌, ◌⊎◌, inl, inr, refl, sym, ap, ◌∙◌, Bool, true, false, List,
  [], ◌∷◌, ◌++◌, append-nil, Option, none, some, ltb, Bool-cases, if_true, if_false, All,
  All-append, length-append, length, take, drop, arith, take-append-drop,
}
use mathlib.Core.Path.{subst}
use iip.Prelude.Texts.{is_same, find, store}
use iip.Prelude.Slices.{whole, view, cut, without, without-parts, view-cut}
use iip.Routes.{RegExpRoute, HttpAdapterServer, index_of, remove_rounds, remove_route}

take_all {ℓ} : {A : Type ℓ} (xs : List A) → take (length xs) xs ≡ xs
take_all [] = refl
take_all (x ∷ xs) = ap (λ t. x ∷ t) (take_all xs)

drop_all {ℓ} : {A : Type ℓ} (xs : List A) → drop (length xs) xs ≡ []
drop_all [] = refl
drop_all (x ∷ xs) = drop_all xs

-- Removing the last element of a slice leaves the array as it was.
cut_last : (xs : List RegExpRoute) (i : ℕ) → i + 1 ≡ length xs → (cut i (whole xs)).items ≡ xs
cut_last xs i h =
    let one_less : length xs - 1 ≡ i = omega (arith, h) in
    let nothing : drop (i + 1) (take (length xs) xs) ≡ [] =
      ap (drop (i + 1)) (take_all xs) ∙ ap (λ (n : ℕ). drop n xs) h ∙ drop_all xs in
    ap (λ t. (take i xs ++ t) ++ drop (length xs - 1) xs) nothing
    ∙ ap (λ t. t ++ drop (length xs - 1) xs) (append-nil (take i xs))
    ∙ ap (λ (n : ℕ). take i xs ++ drop n xs) one_less
    ∙ take-append-drop i xs

-- The loop finds the same route again, for ever.
rounds-none :
    (rounds hosts : ℕ) (reg_exp : List ℕ) (host_route held : List RegExpRoute) (i : ℕ)
    → index_of reg_exp host_route ≡ some i
    → (hosts ≤ i + 1) ⊎ (i + 1 ≡ length host_route)
    → remove_rounds rounds hosts reg_exp host_route held ≡ none
unfolding remove_rounds
rounds-none zero hosts reg_exp host_route held i found h = refl
rounds-none (suc rounds) hosts reg_exp host_route held i found h =
    let again =
      λ (next : List RegExpRoute). rounds-none rounds hosts reg_exp host_route next i found h in
    ap
      (λ (o : Option ℕ). elim o [
        | none ↦ some held
        | some n ↦ elim (ltb n (hosts - 1)) [
          | true ↦
              remove_rounds rounds hosts reg_exp (cut n (whole host_route)).items
                (view (cut n (whole host_route)))
          | false ↦ remove_rounds rounds hosts reg_exp host_route (take n host_route)
        ]
      ])
      found
    ∙ (elim (Bool-cases (ltb i (hosts - 1))) [
      | inl shifts ↦
          let last : i + 1 ≡ length host_route = ground (arith, h, shifts) in
          ap
            (λ (b : Bool). elim b [
              | true ↦
                  remove_rounds rounds hosts reg_exp (cut i (whole host_route)).items
                    (view (cut i (whole host_route)))
              | false ↦ remove_rounds rounds hosts reg_exp host_route (take i host_route)
            ])
            shifts
          ∙ ap (λ t. remove_rounds rounds hosts reg_exp t (view (cut i (whole host_route))))
              (cut_last host_route i last)
          ∙ again (view (cut i (whole host_route)))
      | inr cuts_off ↦
          ap
            (λ (b : Bool). elim b [
              | true ↦
                  remove_rounds rounds hosts reg_exp (cut i (whole host_route)).items
                    (view (cut i (whole host_route)))
              | false ↦ remove_rounds rounds hosts reg_exp host_route (take i host_route)
            ])
            cuts_off
          ∙ again (take i host_route)
    ])

-- RemoveRoute of an expression that a host has a route for never returns, after any number of rounds
-- of its loop, if the first such route is the host's last one, or if there are no more hosts than
-- routes up to it: so with a single host, always.
pub remove_route_hangs :
    {Backend : Type 0} (rounds : ℕ) (m : HttpAdapterServer Backend) (host reg_exp : List ℕ)
    (host_route : List RegExpRoute) (i : ℕ)
    → find host m.routes ≡ some host_route
    → index_of reg_exp host_route ≡ some i
    → (length m.routes ≤ i + 1) ⊎ (i + 1 ≡ length host_route)
    → remove_route rounds m host reg_exp ≡ none
unfolding remove_route
remove_route_hangs rounds m host reg_exp host_route i known found h =
    ap
      (λ (o : Option (List RegExpRoute)). elim o [
        | none ↦ some m
        | some rs ↦ elim (remove_rounds rounds (length m.routes) reg_exp rs rs) [
          | none ↦ none
          | some held ↦ some (record m { routes = store host held m.routes })
        ]
      ])
      known
    ∙ ap
        (λ (o : Option (List RegExpRoute)). elim o [
          | none ↦ none
          | some held ↦ some (record m { routes = store host held m.routes })
        ])
        (rounds-none rounds (length m.routes) reg_exp host_route host_route i found h)

-- No route of these has the expression.
abbrev pub Lacks : List ℕ → List RegExpRoute → Type 0
Lacks reg_exp vs = All (λ v. is_same v.reg_exp_str reg_exp ≡ false) vs

module _ (reg_exp : List ℕ) where
  index_of-none : (vs : List RegExpRoute) → Lacks reg_exp vs → index_of reg_exp vs ≡ none
  unfolding index_of
  index_of-none [] h = refl
  index_of-none (v ∷ vs) h =
      if_false (is_same v.reg_exp_str reg_exp) _ _ h.0
      ∙ ap (λ (o : Option ℕ). elim o [ none ↦ none | some i ↦ some (i + 1) ]) (index_of-none vs h.1)

  index_of-found :
      (front : List RegExpRoute) (v : RegExpRoute) (back : List RegExpRoute)
      → Lacks reg_exp front
      → is_same v.reg_exp_str reg_exp ≡ true
      → index_of reg_exp (front ++ (v ∷ back)) ≡ some (length front)
  unfolding index_of
  index_of-found [] v back h same = if_true (is_same v.reg_exp_str reg_exp) _ _ same
  index_of-found (w ∷ front) v back h same =
      let one : length front + 1 ≡ suc (length front) = omega arith in
      if_false (is_same w.reg_exp_str reg_exp) _ _ h.0
      ∙ ap (λ (o : Option ℕ). elim o [ none ↦ none | some i ↦ some (i + 1) ])
          (index_of-found front v back h.1 same)
      ∙ ap some one

  drop-Lacks : (n : ℕ) (vs : List RegExpRoute) → Lacks reg_exp vs → Lacks reg_exp (drop n vs)
  drop-Lacks zero vs h = h
  drop-Lacks (suc n) [] h = tt
  drop-Lacks (suc n) (v ∷ vs) h = drop-Lacks n vs h.1

  -- A list behind one that is left out.
  drop_behind :
      (front : List RegExpRoute) (v : RegExpRoute) (back : List RegExpRoute) (n k : ℕ)
      → n ≡ length front + suc k
      → drop n (front ++ (v ∷ back)) ≡ drop k back
  drop_behind [] v back zero k h = absurd (omega (arith, h))
  drop_behind [] v back (suc n) k h =
      let same : n ≡ k = omega (arith, h) in ap (λ (j : ℕ). drop j back) same
  drop_behind (w ∷ front) v back zero k h = absurd (omega (arith, h))
  drop_behind (w ∷ front) v back (suc n) k h = drop_behind front v back n k (omega (arith, h))

  without_middle :
      (front : List RegExpRoute) (v : RegExpRoute) (back : List RegExpRoute)
      → without (length front) (front ++ (v ∷ back)) ≡ front ++ back
  without_middle [] v back = refl
  without_middle (w ∷ front) v back = ap (λ t. w ∷ t) (without_middle front v back)

  module _ (front back : List RegExpRoute) (v w : RegExpRoute) (before : Lacks reg_exp front)
      (same : is_same v.reg_exp_str reg_exp ≡ true) (after : Lacks reg_exp (w ∷ back)) where
    abbrev all_routes : List RegExpRoute
    all_routes = front ++ (v ∷ (w ∷ back))

    left : view (cut (length front) (whole all_routes)) ≡ front ++ (w ∷ back)
    left =
        view-cut (length front) (whole all_routes)
          (omega (arith, length-append front (v ∷ (w ∷ back)))) (omega arith)
        ∙ ap (without (length front)) (take_all all_routes)
        ∙ without_middle front v (w ∷ back)

    nothing_more : index_of reg_exp (cut (length front) (whole all_routes)).items ≡ none
    nothing_more =
        let behind : drop (length all_routes - 1) all_routes ≡ drop (length back) (w ∷ back) =
          drop_behind front v (w ∷ back) (length all_routes - 1) (length back)
            (omega (arith, length-append front (v ∷ (w ∷ back)))) in
        let kept : take (length front) all_routes
              ++ drop (length front + 1) (take (length all_routes) all_routes)
            ≡ front ++ (w ∷ back) =
          ap (λ t. take (length front) all_routes ++ drop (length front + 1) t)
            (take_all all_routes)
          ∙ without-parts (length front) all_routes
          ∙ without_middle front v (w ∷ back) in
        index_of-none
          ((take (length front) all_routes
              ++ drop (length front + 1) (take (length all_routes) all_routes))
            ++ drop (length all_routes - 1) all_routes)
          (subst (λ t. Lacks reg_exp (t ++ drop (length all_routes - 1) all_routes)) (sym kept)
            (subst (λ t. Lacks reg_exp ((front ++ (w ∷ back)) ++ t)) (sym behind)
              (All-append _ (front ++ (w ∷ back)) (drop (length back) (w ∷ back))
                (All-append _ front (w ∷ back) before after)
                (drop-Lacks (length back) (w ∷ back) after))))

    rounds-removed :
        (rounds hosts : ℕ) (held : List RegExpRoute)
        → length front + 1 < hosts
        → remove_rounds (suc (suc rounds)) hosts reg_exp all_routes held
          ≡ some (front ++ (w ∷ back))
    unfolding remove_rounds
    rounds-removed rounds hosts held h =
        let shifts : ltb (length front) (hosts - 1) ≡ true = ground (arith, h) in
        ap
          (λ (o : Option ℕ). elim o [
            | none ↦ some held
            | some n ↦ elim (ltb n (hosts - 1)) [
              | true ↦
                  remove_rounds (suc rounds) hosts reg_exp (cut n (whole all_routes)).items
                    (view (cut n (whole all_routes)))
              | false ↦ remove_rounds (suc rounds) hosts reg_exp all_routes (take n all_routes)
            ]
          ])
          (index_of-found front v (w ∷ back) before same)
        ∙ ap
            (λ (b : Bool). elim b [
              | true ↦
                  remove_rounds (suc rounds) hosts reg_exp
                    (cut (length front) (whole all_routes)).items
                    (view (cut (length front) (whole all_routes)))
              | false ↦
                  remove_rounds (suc rounds) hosts reg_exp all_routes
                    (take (length front) all_routes)
            ])
            shifts
        ∙ ap
            (λ (o : Option ℕ). elim o [
              | none ↦ some (view (cut (length front) (whole all_routes)))
              | some n ↦ elim (ltb n (hosts - 1)) [
                | true ↦
                    remove_rounds rounds hosts reg_exp
                      (cut n (whole (cut (length front) (whole all_routes)).items)).items
                      (view (cut n (whole (cut (length front) (whole all_routes)).items)))
                | false ↦
                    remove_rounds rounds hosts reg_exp (cut (length front) (whole all_routes)).items
                      (take n (cut (length front) (whole all_routes)).items)
              ]
            ])
            nothing_more
        ∙ ap some left

-- RemoveRoute of an expression that exactly one route of a host has, not the last one, where there are
-- more hosts than routes up to it: it returns after two rounds, and the host keeps the other
-- routes in their order.
pub remove_route_once :
    {Backend : Type 0} (rounds : ℕ) (m : HttpAdapterServer Backend) (host reg_exp : List ℕ)
    (front back : List RegExpRoute) (v w : RegExpRoute)
    → find host m.routes ≡ some (front ++ (v ∷ (w ∷ back)))
    → Lacks reg_exp front
    → is_same v.reg_exp_str reg_exp ≡ true
    → Lacks reg_exp (w ∷ back)
    → length front + 1 < length m.routes
    → remove_route (suc (suc rounds)) m host reg_exp
      ≡ some (record m { routes = store host (front ++ (w ∷ back)) m.routes })
unfolding remove_route
remove_route_once rounds m host reg_exp front back v w known before same after h =
    ap
      (λ (o : Option (List RegExpRoute)). elim o [
        | none ↦ some m
        | some rs ↦ elim (remove_rounds (suc (suc rounds)) (length m.routes) reg_exp rs rs) [
          | none ↦ none
          | some held ↦ some (record m { routes = store host held m.routes })
        ]
      ])
      known
    ∙ ap
        (λ (o : Option (List RegExpRoute)). elim o [
          | none ↦ none
          | some held ↦ some (record m { routes = store host held m.routes })
        ])
        (rounds-removed reg_exp front back v w before same after rounds (length m.routes)
          (front ++ (v ∷ (w ∷ back))) h)
