-- ===== src/Balance/ServerList/Weights.antt =====
-- How many active clients a server gets.
use iip.Prelude.{
  ℕ, zero, suc, ◌+◌, ◌≤◌, ◌≡◌, refl, sym, ap, ◌∙◌, Bool, true, false, ◌||◌, List, [], ◌∷◌, ◌++◌,
  Option, none, some, ltb, ◌==◌, if◌then◌else◌, if_true, if_false, arith, All, Bool-cases, inl, inr,
  Option-cases, some_injective,
}
use iip.Routes.{is_empty_text}
use iip.Balance.ServerList.{
  AddrWeightClient, Alias, Round, next_server, expand_round, expand, weighted, addr_weight,
  server_of, servers_of, parse_server_list, NewBalance, made_of, new_load_balance_client, atoi,
  split, trim_space,
}

abbrev one_if : Bool → ℕ
one_if true = 1
one_if false = 0

-- The active clients of the server at an index of the list.
abbrev pub clients_of : ℕ → List Alias → ℕ
clients_of k [] = 0
clients_of k (a ∷ made) = one_if (a.i == k) + clients_of k made

-- The weight of the server at an index; servers before it are counted from a start.
abbrev pub weight_at : ℕ → ℕ → List AddrWeightClient → ℕ
weight_at k start [] = 0
weight_at k start (v ∷ servers) =
    (if start == k then v.weight else 0) + weight_at k (start + 1) servers

clients_of-append :
    (k : ℕ) (xs ys : List Alias) → clients_of k (xs ++ ys) ≡ clients_of k xs + clients_of k ys
clients_of-append k [] ys = omega arith
clients_of-append k (x ∷ xs) ys = omega (arith, clients_of-append k xs ys)

next_server-counts :
    (k start : ℕ) (v : AddrWeightClient) (later : Round)
    → clients_of k (next_server start v later).made
        + weight_at k start (next_server start v later).servers
      ≡ (if start == k then v.weight else 0)
        + (clients_of k later.made + weight_at k (start + 1) later.servers)
next_server-counts k start v later = ground arith

-- A round: a server with a weight left gets one client and loses one of its weight.
round-counts :
    (k start : ℕ) (servers : List AddrWeightClient)
    → let round = expand_round start servers in
      (clients_of k round.made + weight_at k start round.servers ≡ weight_at k start servers)
unfolding expand_round
round-counts k start [] = refl
round-counts k start (v ∷ servers) = omega (
  arith,
  next_server-counts k start v (expand_round (start + 1) servers),
  round-counts k (start + 1) servers,
)

-- No server has more weight than this.
abbrev pub Weighs : ℕ → List AddrWeightClient → Type 0
Weighs n servers = All (λ v. v.weight ≤ n) servers

next_server-Weighs :
    (n start : ℕ) (v : AddrWeightClient) (later : Round)
    → v.weight ≤ suc n
    → Weighs n later.servers
    → Weighs n (next_server start v later).servers
next_server-Weighs n start v later h rest = elim (Bool-cases (ltb 0 v.weight)) [
  | inl more ↦ rw more (omega (arith, h), rest)
  | inr last ↦ let none_left : v.weight ≤ n = ground arith in rw last (none_left, rest)
]

next_server-over :
    (start : ℕ) (v : AddrWeightClient) (later : Round)
    → (next_server start v later).exists ≡ false
    → (v.weight ≤ 1) × (later.exists ≡ false)
next_server-over start v later h = ground arith

round-Weighs :
    (n start : ℕ) (servers : List AddrWeightClient)
    → Weighs (suc n) servers
    → Weighs n (expand_round start servers).servers
unfolding expand_round
round-Weighs n start [] h = h
round-Weighs n start (v ∷ servers) h =
    next_server-Weighs n start v (expand_round (start + 1) servers) h.0
      (round-Weighs n (start + 1) servers h.1)

round-over :
    (start : ℕ) (servers : List AddrWeightClient)
    → (expand_round start servers).exists ≡ false
    → Weighs 0 (expand_round start servers).servers
unfolding expand_round
round-over start [] h = tt
round-over start (v ∷ servers) h =
    let (none_left, over) = next_server-over start v (expand_round (start + 1) servers) h in
    next_server-Weighs 0 start v (expand_round (start + 1) servers) none_left
      (round-over (start + 1) servers over)

no-weight :
    (k start : ℕ) (servers : List AddrWeightClient)
    → Weighs 0 servers
    → weight_at k start servers ≡ 0
no-weight k start [] h = refl
no-weight k start (v ∷ servers) h =
    let rest = no-weight k (start + 1) servers h.1 in let none_left = h.0 in ground arith

expand-counts :
    (k rounds : ℕ) (servers : List AddrWeightClient)
    → Weighs rounds servers
    → clients_of k (expand rounds servers) ≡ weight_at k 0 servers
unfolding expand
expand-counts k zero servers h = sym (no-weight k 0 servers h)
expand-counts k (suc rounds) servers h =
    let round = expand_round 0 servers in
    let counts = round-counts k 0 servers in
    let later = expand-counts k rounds round.servers (round-Weighs rounds 0 servers h) in
    let split =
      clients_of-append k round.made (if round.exists then expand rounds round.servers else []) in
    elim (Bool-cases round.exists) [
      | inl more ↦
          let kept = if_true round.exists (expand rounds round.servers) [] more in
          split
          ∙ ap (λ made. clients_of k round.made + clients_of k made) kept
          ∙ omega (arith, counts, later)
      | inr over ↦
          let kept = if_false round.exists (expand rounds round.servers) [] over in
          let rest = no-weight k 0 round.servers (round-over 0 servers over) in
          split
          ∙ ap (λ made. clients_of k round.made + clients_of k made) kept
          ∙ omega (arith, counts, rest)
    ]

weighted-bound :
    (addr : List ℕ) (w : Option ℕ) (v : AddrWeightClient)
    → weighted addr w ≡ some v
    → v.weight ≤ 100
weighted-bound addr none v h = cc
weighted-bound addr (some w) v h = elim (Bool-cases (ltb w 1 || ltb 100 w)) [
  | inl out ↦ let none_is = sym (if_true (ltb w 1 || ltb 100 w) _ _ out) ∙ h in cc
  | inr fine ↦
      let kept = some_injective (sym (if_false (ltb w 1 || ltb 100 w) _ _ fine) ∙ h) in
      let bound : w ≤ 100 = ground arith in
      let same = ap (λ (c : AddrWeightClient). c.weight) kept in omega (arith, bound, same)
]

addr_weight-bound :
    (fields : List (List ℕ)) (v : AddrWeightClient) → addr_weight fields ≡ some v → v.weight ≤ 100
addr_weight-bound [] v h = cc
addr_weight-bound (a ∷ []) v h = cc
addr_weight-bound (a ∷ (w ∷ [])) v h = elim (Bool-cases (is_empty_text a)) [
  | inl empty ↦ let none_is = sym (if_true (is_empty_text a) _ _ empty) ∙ h in cc
  | inr full ↦ weighted-bound a (atoi w) v (sym (if_false (is_empty_text a) _ _ full) ∙ h)
]
addr_weight-bound (a ∷ (w ∷ (x ∷ more))) v h = cc

server_of-bound : (part : List ℕ) (v : AddrWeightClient) → server_of part ≡ some v → v.weight ≤ 100
unfolding server_of
server_of-bound part v h =
    let s = trim_space part in
    elim (Bool-cases (is_empty_text s)) [
      | inl empty ↦ let none_is = sym (if_true (is_empty_text s) _ _ empty) ∙ h in cc
      | inr full ↦ addr_weight-bound (split 35 s) v (sym (if_false (is_empty_text s) _ _ full) ∙ h)
    ]

servers_of-Weighs : (parts : List (List ℕ)) → Weighs 100 (servers_of parts)
unfolding servers_of
servers_of-Weighs [] = tt
servers_of-Weighs (part ∷ parts) = elim (Option-cases (server_of part)) [
  | inl skipped ↦ rw skipped (servers_of-Weighs parts)
  | inr (v, kept) ↦ rw kept (server_of-bound part v kept, servers_of-Weighs parts)
]

made_of-counts :
    (keep max k : ℕ) (servers : List AddrWeightClient) (client : NewBalance)
    → Weighs 100 servers
    → made_of keep max servers ≡ some client
    → clients_of k client.active_clients ≡ weight_at k 0 servers
unfolding made_of
made_of-counts keep max k [] client h e = cc
made_of-counts keep max k (v ∷ servers) client h e =
    ap (λ (c : NewBalance). clients_of k c.active_clients) (sym (some_injective e))
    ∙ expand-counts k 100 (v ∷ servers) h

-- Of a list of servers that NewLoadBalanceClient takes, the client has as many active clients of
-- the server at an index as that server's weight says.
pub new_load_balance_client-weights :
    (keep max k : ℕ) (text : List ℕ) (client : NewBalance)
    → new_load_balance_client keep max text ≡ some client
    → clients_of k client.active_clients ≡ weight_at k 0 (parse_server_list text)
unfolding new_load_balance_client parse_server_list
new_load_balance_client-weights keep max k text client h =
    made_of-counts keep max k (parse_server_list text) client (servers_of-Weighs (split 44 text)) h
