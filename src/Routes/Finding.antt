-- ===== src/Routes/Finding.antt =====
-- Which of a host's routes a request takes.
use iip.Prelude.{
  ℕ, ◌≡◌, inl, inr, sym, ap, ◌∙◌, true, List, [], ◌∷◌, ◌++◌, Option, none, some, if_true, if_false,
  Bool-cases,
}
use iip.Prelude.Texts.{is_same, store, find-store}
use iip.Routes.{
  RegExp, RegExpRoute, HttpAdapterServer, check_route, RouteError, if_valid, routes_of,
  push_route_tail, push_route_head, first_full, first_match, find_in_routes, find_reg_exp_route,
}

-- Whether a route's expression finds the whole uri.
abbrev pub IsFull : RegExp → List ℕ → List ℕ → Type 0
IsFull r reg_exp uri = is_same (r.find_string reg_exp uri) uri ≡ true

module _ (r : RegExp) (uri : List ℕ) where
  first_full-head :
      (v : RegExpRoute) (vs : List RegExpRoute)
      → IsFull r v.reg_exp_str uri
      → first_full r uri (v ∷ vs) ≡ some v.backend_alias
  unfolding first_full
  first_full-head v vs full = if_true (is_same (r.find_string v.reg_exp_str uri) uri) _ _ full

  first_full-tail :
      (vs : List RegExpRoute) (v : RegExpRoute) (alias : List ℕ)
      → first_full r uri vs ≡ some alias
      → first_full r uri (vs ++ (v ∷ [])) ≡ some alias
  unfolding first_full
  first_full-tail [] v alias h = cc
  first_full-tail (w ∷ vs) v alias h =
      elim (Bool-cases (is_same (r.find_string w.reg_exp_str uri) uri)) [
        | inl full ↦
            if_true (is_same (r.find_string w.reg_exp_str uri) uri) _ _ full
            ∙ sym (if_true (is_same (r.find_string w.reg_exp_str uri) uri) _ _ full)
            ∙ h
        | inr not_full ↦
            if_false (is_same (r.find_string w.reg_exp_str uri) uri) _ _ not_full
            ∙ first_full-tail vs v alias
                (sym (if_false (is_same (r.find_string w.reg_exp_str uri) uri) _ _ not_full) ∙ h)
      ]

  found_full :
      (vs : List RegExpRoute) (alias : List ℕ)
      → first_full r uri vs ≡ some alias
      → find_in_routes r uri vs ≡ alias
  unfolding find_in_routes
  found_full vs alias h =
      ap
        (λ (o : Option (List ℕ)). elim o [
          | some a ↦ a
          | none ↦ elim (first_match r uri vs) [ some a ↦ a | none ↦ [] ]
        ])
        h

module _ {Backend : Type 0} (r : RegExp) (m : HttpAdapterServer Backend) (host uri : List ℕ) where
  found_in_store :
      (vs : List RegExpRoute)
      → find_reg_exp_route r (record m { routes = store host vs m.routes }) host uri
        ≡ find_in_routes r uri vs
  unfolding find_reg_exp_route
  found_in_store vs =
      ap
        (λ (o : Option (List RegExpRoute)). elim o [
          | none ↦ []
          | some host_route ↦ find_in_routes r uri host_route
        ])
        (find-store host vs m.routes)

  -- A route that is pushed with a host, an expression that compiles and an alias, where the expression
  -- finds the whole uri: pushed at the head, it takes requests of this host and uri from all
  -- routes before; pushed at the tail, it leaves them with the route that takes them already by
  -- finding the whole uri.
  pub pushed_routes_order :
      (reg_exp alias before : List ℕ)
      → check_route r host reg_exp alias ≡ none
      → IsFull r reg_exp uri
      → first_full r uri (routes_of m host) ≡ some before
      → (find_reg_exp_route r (push_route_head r m host reg_exp alias).1 host uri ≡ alias)
        × (find_reg_exp_route r (push_route_tail r m host reg_exp alias).1 host uri ≡ before)
  unfolding push_route_head push_route_tail
  pushed_routes_order reg_exp alias before valid full earlier =
      let new : RegExpRoute = record { reg_exp_str = reg_exp; backend_alias = alias } in
      (
        ap
              (λ (o : Option RouteError).
                find_reg_exp_route r
                  (if_valid o m
                    (record m { routes = store host (new ∷ routes_of m host) m.routes })).1
                  host uri)
              valid
            ∙ found_in_store (new ∷ routes_of m host)
            ∙ found_full r uri (new ∷ routes_of m host) alias
                (first_full-head r uri new (routes_of m host) full),
        ap
              (λ (o : Option RouteError).
                find_reg_exp_route r
                  (if_valid o m
                    (record m { routes = store host (routes_of m host ++ (new ∷ [])) m.routes })).1
                  host uri)
              valid
            ∙ found_in_store (routes_of m host ++ (new ∷ []))
            ∙ found_full r uri (routes_of m host ++ (new ∷ [])) before
                (first_full-tail r uri (routes_of m host) new before earlier),
      )
