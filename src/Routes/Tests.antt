-- ===== src/Routes/Tests.antt =====
-- Servers with few hosts and routes, and the theorems applied to them.
use iip.Prelude.{ℕ, ◌≡◌, refl, inl, true, false, List, [], ◌∷◌, none, some, arith}
use iip.Prelude.Texts.{is_same, find}
use iip.Consts.{codes}
use iip.Routes.{
  RegExp, RegExpRoute, HttpAdapterServer, index_of, first_full, check_route, routes_of,
  push_route_head, push_route_tail, find_reg_exp_route, remove_route,
}
use iip.Routes.Finding.{pushed_routes_order}
use iip.Routes.Removal.{remove_route_hangs}

-- Expressions without operators, which match a uri by being it.
abbrev literal : RegExp
literal = record {
  compiles = λ e. true;
  find_string = λ e uri. e;
  match_string = λ e uri. is_same e uri;
}

abbrev route : List ℕ → List ℕ → RegExpRoute
route reg_exp alias = record { reg_exp_str = reg_exp; backend_alias = alias }

abbrev local_host : List ℕ
local_host = codes "localhost"

abbrev two_routes : List RegExpRoute
two_routes = route (codes "/a") (codes "x") ∷ route (codes "/b") (codes "y") ∷ []

abbrev one_host : HttpAdapterServer ℕ
one_host = record { backends = []; routes = (local_host, two_routes) ∷ []; route_funcs = [] }

abbrev two_hosts : HttpAdapterServer ℕ
two_hosts = record {
  backends = [];
  routes = (local_host, two_routes) ∷ (codes "other", []) ∷ [];
  route_funcs = [];
}

known : find local_host one_host.routes ≡ some two_routes
unfolding find is_same
known = refl

first_index : index_of (codes "/a") two_routes ≡ some 0
unfolding index_of is_same
first_index = refl

remove_route_hangs_example : remove_route 1000 one_host local_host (codes "/a") ≡ none
remove_route_hangs_example =
    remove_route_hangs 1000 one_host local_host (codes "/a") two_routes 0 known first_index
      (inl (omega arith))

known_of_two : find local_host two_hosts.routes ≡ some two_routes
unfolding find is_same
known_of_two = refl

same_a : is_same (codes "/a") (codes "/a") ≡ true
unfolding is_same
same_a = refl

other_b : is_same (codes "/b") (codes "/a") ≡ false
unfolding is_same
other_b = refl

valid_route : check_route literal local_host (codes "/a") (codes "z") ≡ none
valid_route = refl

already : first_full literal (codes "/a") (routes_of one_host local_host) ≡ some (codes "x")
unfolding first_full find is_same
already = refl

pushed_routes_order_example :
    (find_reg_exp_route literal
        (push_route_head literal one_host local_host (codes "/a") (codes "z")).1
        local_host
        (codes "/a")
      ≡ codes "z")
    × (find_reg_exp_route literal
          (push_route_tail literal one_host local_host (codes "/a") (codes "z")).1
          local_host
          (codes "/a")
        ≡ codes "x")
pushed_routes_order_example =
    pushed_routes_order literal one_host local_host (codes "/a") (codes "/a") (codes "z")
      (codes "x") valid_route same_a already
