-- ===== src/Routes.antt =====
-- httpadapter/http_server.go: which load balance client an HTTP request goes to (HttpAdapterServer:
-- its backends, the routes by regular expression and by function, ServeHTTP).
-- Texts are lists of bytes. Regular expressions, functions, backends and HTTP bodies are code outside:
-- parameters.
pub mod Serving
pub mod Finding
pub mod Removal
mod Tests
use iip.Prelude.{
  ℕ, zero, suc, ◌+◌, ◌-◌, Bool, true, false, not, ◌&&◌, ◌||◌, List, [], ◌∷◌, ◌++◌, Option, none,
  some, ltb, ◌==◌, if◌then◌else◌, length, take,
}
use iip.Prelude.Texts.{is_same, find, store, delete}
use iip.Prelude.Slices.{whole, view, cut}
use iip.Consts.{codes, arg_http_header}
use iip.Context.{new_default_request}

-- regexp: what of an expression the code uses.
pub record RegExp : Type 0 where
  pub compiles : List ℕ → Bool
  pub find_string : List ℕ → List ℕ → List ℕ
  pub match_string : List ℕ → List ℕ → Bool

-- The compiled expression is a function of its text.
pub record RegExpRoute : Type 0 where
  pub reg_exp_str : List ℕ
  pub backend_alias : List ℕ

-- A RouteFunc is its method GetBackendAlias.
pub record HttpAdapterServer (Backend : Type 0) : Type 0 where
  pub backends : List (List ℕ × Backend)
  pub routes : List (List ℕ × List RegExpRoute)
  pub route_funcs : List (List ℕ × (List ℕ → List ℕ → List ℕ))

pub data RouteError : Type 0 where
  alias_exists : RouteError
  bad_server_list : RouteError
  empty_host : RouteError
  empty_regexp : RouteError
  empty_alias : RouteError
  bad_regexp : RouteError

abbrev pub is_empty_text : List ℕ → Bool
is_empty_text [] = true
is_empty_text (b ∷ bs) = false

-- The tests that both pushes make first.
abbrev pub check_route : RegExp → List ℕ → List ℕ → List ℕ → Option RouteError
check_route r host reg_exp alias =
    if is_empty_text host
    then some empty_host
    else if is_empty_text reg_exp
    then some empty_regexp
    else if is_empty_text alias
    then some empty_alias
    else if r.compiles reg_exp
    then none
    else some bad_regexp

module _ {Backend : Type 0} where
  -- The new backend is what NewLoadBalanceClient returns; none is its error.
  unfoldable pub register_backend :
      HttpAdapterServer Backend
      → List ℕ
      → Option Backend
      → Option RouteError × HttpAdapterServer Backend
  unfolding find store
  register_backend m alias lbc = elim (find alias m.backends) [
    | some old ↦ (some alias_exists, m)
    | none ↦ elim lbc [
      | none ↦ (some bad_server_list, m)
      | some new ↦ (none, record m { backends = store alias new m.backends })
    ]
  ]

  unfoldable pub remove_backend : HttpAdapterServer Backend → List ℕ → HttpAdapterServer Backend
  unfolding delete
  remove_backend m alias = record m { backends = delete alias m.backends }

  unfoldable pub get_backend : HttpAdapterServer Backend → List ℕ → Option Backend
  unfolding find
  get_backend m alias = find alias m.backends

  -- none stands for a nil function.
  unfoldable pub register_route_func :
      HttpAdapterServer Backend
      → List ℕ
      → Option (List ℕ → List ℕ → List ℕ)
      → Option RouteError × HttpAdapterServer Backend
  unfolding store delete
  register_route_func m host fn = if is_empty_text host then (some empty_host, m) else elim fn [
    | none ↦ (none, record m { route_funcs = delete host m.route_funcs })
    | some f ↦ (none, record m { route_funcs = store host f m.route_funcs })
  ]

  abbrev pub if_valid :
      Option RouteError
      → HttpAdapterServer Backend
      → HttpAdapterServer Backend
      → Option RouteError × HttpAdapterServer Backend
  if_valid (some e) m changed = (some e, m)
  if_valid none m changed = (none, changed)

  abbrev pub routes_of : HttpAdapterServer Backend → List ℕ → List RegExpRoute
  routes_of m host = elim (find host m.routes) [ none ↦ [] | some rs ↦ rs ]

  unfoldable pub push_route_tail :
      RegExp
      → HttpAdapterServer Backend
      → List ℕ
      → List ℕ
      → List ℕ
      → Option RouteError × HttpAdapterServer Backend
  unfolding find store
  push_route_tail r m host reg_exp alias = if_valid (check_route r host reg_exp alias) m (record m {
    routes =
        store host
          (routes_of m host ++ (record { reg_exp_str = reg_exp; backend_alias = alias } ∷ []))
          m.routes;
  })

  unfoldable pub push_route_head :
      RegExp
      → HttpAdapterServer Backend
      → List ℕ
      → List ℕ
      → List ℕ
      → Option RouteError × HttpAdapterServer Backend
  unfolding find store
  push_route_head r m host reg_exp alias = if_valid (check_route r host reg_exp alias) m (record m {
    routes =
        store host (record { reg_exp_str = reg_exp; backend_alias = alias } ∷ routes_of m host)
          m.routes;
  })

-- The index of the first route with this expression.
unfoldable pub index_of : List ℕ → List RegExpRoute → Option ℕ
unfolding is_same
index_of reg_exp [] = none
index_of reg_exp (v ∷ vs) =
    let later = index_of reg_exp vs in
    if is_same v.reg_exp_str reg_exp
    then some 0
    else (elim later [ none ↦ none | some i ↦ some (i + 1) ])

-- RemoveRoute's loop, for at most `rounds` rounds: none while it has not ended. It scans the slice
-- that it read first, hostRoute, whose array the removals shift; `held` is what the map has now.
-- The length that it tests is that of the map, the number of hosts.
unfoldable pub remove_rounds :
    ℕ → ℕ → List ℕ → List RegExpRoute → List RegExpRoute → Option (List RegExpRoute)
unfolding index_of
remove_rounds zero hosts reg_exp host_route held = none
remove_rounds (suc rounds) hosts reg_exp host_route held =
    let shifted = λ (i : ℕ).
      remove_rounds rounds hosts reg_exp (cut i (whole host_route)).items
        (view (cut i (whole host_route))) in
    let cut_off = λ (i : ℕ). remove_rounds rounds hosts reg_exp host_route (take i host_route) in
    elim (index_of reg_exp host_route) [
      | none ↦ some held
      | some i ↦ elim (ltb i (hosts - 1)) [ true ↦ shifted i | false ↦ cut_off i ]
    ]

module _ {Backend : Type 0} where
  unfoldable pub remove_route :
      ℕ → HttpAdapterServer Backend → List ℕ → List ℕ → Option (HttpAdapterServer Backend)
  unfolding find store remove_rounds
  remove_route rounds m host reg_exp = elim (find host m.routes) [
    | none ↦ some m
    | some host_route ↦
        elim (remove_rounds rounds (length m.routes) reg_exp host_route host_route) [
          | none ↦ none
          | some held ↦ some (record m { routes = store host held m.routes })
        ]
  ]

-- The two loops of findRegExpRoute.
unfoldable pub first_full : RegExp → List ℕ → List RegExpRoute → Option (List ℕ)
unfolding is_same
first_full r uri [] = none
first_full r uri (v ∷ vs) =
    if is_same (r.find_string v.reg_exp_str uri) uri
    then some v.backend_alias
    else first_full r uri vs

unfoldable pub first_match : RegExp → List ℕ → List RegExpRoute → Option (List ℕ)
first_match r uri [] = none
first_match r uri (v ∷ vs) =
    if r.match_string v.reg_exp_str uri then some v.backend_alias else first_match r uri vs

unfoldable pub find_in_routes : RegExp → List ℕ → List RegExpRoute → List ℕ
unfolding first_full first_match
find_in_routes r uri host_route = elim (first_full r uri host_route) [
  | some alias ↦ alias
  | none ↦ elim (first_match r uri host_route) [ some alias ↦ alias | none ↦ [] ]
]

module _ {Backend : Type 0} where
  unfoldable pub find_reg_exp_route : RegExp → HttpAdapterServer Backend → List ℕ → List ℕ → List ℕ
  unfolding find find_in_routes
  find_reg_exp_route r m host uri = elim (find host m.routes) [
    | none ↦ []
    | some host_route ↦ find_in_routes r uri host_route
  ]

  unfoldable pub find_func_route : HttpAdapterServer Backend → List ℕ → List ℕ → List ℕ
  unfolding find
  find_func_route m host uri = elim (find host m.route_funcs) [ none ↦ [] | some fn ↦ fn host uri ]

  -- The alias by function, or else by expression.
  abbrev pub alias_for : RegExp → HttpAdapterServer Backend → List ℕ → List ℕ → List ℕ
  alias_for r m host uri =
      if is_empty_text (find_func_route m host uri)
      then find_reg_exp_route r m host uri
      else find_func_route m host uri

  unfoldable pub find_backend :
      RegExp → HttpAdapterServer Backend → List ℕ → List ℕ → Option Backend
  unfolding find_reg_exp_route find_func_route get_backend
  find_backend r m host uri =
      if is_empty_text (alias_for r m host uri)
      then none
      else get_backend m (alias_for r m host uri)
