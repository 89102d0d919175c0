-- ===== src/Balance/ServerList.antt =====
-- lbclient.go: NewLoadBalanceClient, from its list of servers to its active clients.
-- A text is a list of bytes, in UTF-8. strings.TrimSpace takes off the white space of Unicode, and
-- strconv.Atoi gives none for an error and for a number below 0, which the code treats alike.
mod Tests
pub mod Weights
pub mod Decimals
pub mod Parsing
use iip.Prelude.{
  ℕ, zero, suc, ◌+◌, ◌-◌, ◌*◌, Bool, true, false, ◌&&◌, ◌||◌, List, [], ◌∷◌, ◌++◌, Option, none,
  some, ltb, leb, ◌==◌, if◌then◌else◌,
}
use iip.Routes.{is_empty_text}

-- A field put in front of the first of several.
abbrev pub widen : ℕ → List (List ℕ) → List (List ℕ)
widen b [] = (b ∷ []) ∷ []
widen b (field ∷ fields) = (b ∷ field) ∷ fields

-- strings.Split at one byte.
unfoldable pub split : ℕ → List ℕ → List (List ℕ)
split sep [] = [] ∷ []
split sep (b ∷ bs) = let rest = split sep bs in if b == sep then [] ∷ rest else widen b rest

abbrev pub is_space : ℕ → Bool
is_space b = b == 32 || (leb 9 b && leb b 13)

-- White space of two and of three bytes in UTF-8: U+0085 and U+00A0, and U+1680, U+2000 to U+200A,
-- U+2028, U+2029, U+202F, U+205F and U+3000.
abbrev pub is_space2 : ℕ → ℕ → Bool
is_space2 b c = b == 194 && (c == 133 || c == 160)

abbrev pub is_space3 : ℕ → ℕ → ℕ → Bool
is_space3 b c d =
    (b == 225 && (c == 154 && d == 128))
    || ((b == 226
          && ((c == 128 && ((leb 128 d && leb d 138) || (d == 168 || (d == 169 || d == 175))))
              || (c == 129 && d == 159)))
        || (b == 227 && (c == 128 && d == 128)))

-- How many bytes the white space at the front of a text has.
unfoldable pub space_width : List ℕ → ℕ
space_width [] = 0
space_width (b ∷ []) = if is_space b then 1 else 0
space_width (b ∷ (c ∷ [])) = if is_space b then 1 else (if is_space2 b c then 2 else 0)
space_width (b ∷ (c ∷ (d ∷ rest))) =
    if is_space b then 1 else (if is_space2 b c then 2 else (if is_space3 b c d then 3 else 0))

-- Past the bytes of a character that are left, and past the white space behind it.
unfoldable pub trim_behind : ℕ → List ℕ → List ℕ
unfolding space_width
trim_behind left [] = []
trim_behind (suc left) (b ∷ bs) = trim_behind left bs
trim_behind zero (b ∷ bs) =
    let width = space_width (b ∷ bs) in
    let rest = trim_behind (width - 1) bs in if width == 0 then b ∷ bs else rest

unfoldable pub trim_left : List ℕ → List ℕ
unfolding trim_behind
trim_left text = trim_behind 0 text

unfoldable pub trim_right : List ℕ → List ℕ
unfolding trim_left
trim_right [] = []
trim_right (b ∷ bs) =
    let rest = trim_right bs in if is_empty_text (trim_left (b ∷ bs)) then [] else b ∷ rest

abbrev pub trim_space : List ℕ → List ℕ
trim_space text = trim_left (trim_right text)

abbrev pub is_digit : ℕ → Bool
is_digit b = leb 48 b && leb b 57

unfoldable pub digits : ℕ → List ℕ → Option ℕ
digits n [] = some n
digits n (b ∷ bs) = let rest = digits (n * 10 + (b - 48)) bs in if is_digit b then rest else none

-- Digits after a minus sign: they make 0, or a number below it.
abbrev pub minus : Option ℕ → Option ℕ
minus none = none
minus (some zero) = some 0
minus (some (suc n)) = none

abbrev pub unsigned : List ℕ → Option ℕ
unsigned [] = none
unsigned (b ∷ bs) = digits 0 (b ∷ bs)

unfoldable pub atoi : List ℕ → Option ℕ
unfolding digits
atoi [] = none
atoi (b ∷ bs) =
    if b == 43 then unsigned bs else (if b == 45 then minus (unsigned bs) else unsigned (b ∷ bs))

-- An AddrWeightClient; its client is of NewClient for the address.
pub record AddrWeightClient : Type 0 where
  pub addr : List ℕ
  pub weight : ℕ

abbrev pub weighted : List ℕ → Option ℕ → Option AddrWeightClient
weighted addr none = none
weighted addr (some w) =
    if ltb w 1 || ltb 100 w then none else some (record { addr = addr; weight = w })

abbrev pub addr_weight : List (List ℕ) → Option AddrWeightClient
addr_weight [] = none
addr_weight (a ∷ []) = none
addr_weight (a ∷ (w ∷ [])) = if is_empty_text a then none else weighted a (atoi w)
addr_weight (a ∷ (w ∷ (x ∷ more))) = none

-- What the first loop makes of a part of the list; none is a continue.
unfoldable pub server_of : List ℕ → Option AddrWeightClient
unfolding split trim_left trim_right atoi
server_of part =
    let s = trim_space part in if is_empty_text s then none else addr_weight (split 35 s)

abbrev pub push_some : Option AddrWeightClient → List AddrWeightClient → List AddrWeightClient
push_some none servers = servers
push_some (some server) servers = server ∷ servers

unfoldable pub servers_of : List (List ℕ) → List AddrWeightClient
unfolding server_of
servers_of [] = []
servers_of (part ∷ parts) = push_some (server_of part) (servers_of parts)

unfoldable pub parse_server_list : List ℕ → List AddrWeightClient
unfolding split servers_of
parse_server_list text = servers_of (split 44 text)

-- An alias of an active client: its server's address, and two numbers.
pub record Alias : Type 0 where
  pub server_addr : List ℕ
  pub i : ℕ
  pub j : ℕ

-- What a round of the second loop has done: the clients made, the servers with their weights, and
-- whether a weight is left.
pub record Round : Type 0 where
  pub made : List Alias
  pub servers : List AddrWeightClient
  pub exists : Bool

abbrev pub next_server : ℕ → AddrWeightClient → Round → Round
next_server i v later =
    if ltb 0 v.weight
    then record {
      made = record { server_addr = v.addr; i = i; j = 0 } ∷ later.made;
      servers = record v { weight = v.weight - 1 } ∷ later.servers;
      exists = ltb 0 (v.weight - 1) || later.exists;
    }
    else record later { servers = v ∷ later.servers }

unfoldable pub expand_round : ℕ → List AddrWeightClient → Round
expand_round i [] = record { made = []; servers = []; exists = false }
expand_round i (v ∷ servers) = next_server i v (expand_round (i + 1) servers)

-- The rounds, until no weight is left; a weight is at most 100, and a round takes 1 of it.
unfoldable pub expand : ℕ → List AddrWeightClient → List Alias
unfolding expand_round
expand zero servers = []
expand (suc rounds) servers =
    let round = expand_round 0 servers in
    let later = expand rounds round.servers in round.made ++ (if round.exists then later else [])

-- The client made; an int below 1 is 0 here.
pub record NewBalance : Type 0 where
  pub server_keep_conns : ℕ
  pub server_max_conns : ℕ
  pub client_max_connections : ℕ
  pub active_clients : List Alias

-- The end of the constructor; none is the error for a list without a server.
unfoldable pub made_of : ℕ → ℕ → List AddrWeightClient → Option NewBalance
unfolding expand
made_of keep max [] = none
made_of keep max (server ∷ servers) = some (record {
  server_keep_conns = if ltb keep 1 then 1 else keep;
  server_max_conns = if ltb max 1 then 1 else max;
  client_max_connections = max;
  active_clients = expand 100 (server ∷ servers);
})

unfoldable pub new_load_balance_client : ℕ → ℕ → List ℕ → Option NewBalance
unfolding parse_server_list made_of
new_load_balance_client keep max text = made_of keep max (parse_server_list text)
