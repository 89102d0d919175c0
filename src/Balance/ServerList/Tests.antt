-- ===== src/Balance/ServerList/Tests.antt =====
-- The list "a#2,b#3", printed, parsed and expanded.
use iip.Prelude.{◌≡◌, refl, [], ◌∷◌, some, arith}
use iip.Balance.ServerList.{
  NewBalance, AddrWeightClient, trim_space, trim_behind, space_width, atoi, split, trim_left,
  trim_right, server_of, servers_of, digits, parse_server_list, expand_round, expand, made_of,
  new_load_balance_client,
}
use iip.Balance.ServerList.Parsing.{print_list, parse_server_list-print_list}
use iip.Balance.ServerList.Weights.{clients_of, weight_at, new_load_balance_client-weights}

abbrev entry_a : AddrWeightClient
entry_a = record { addr = 97 ∷ []; weight = 2 }

abbrev entry_b : AddrWeightClient
entry_b = record { addr = 98 ∷ []; weight = 3 }

parse_server_list-print_list_example :
    parse_server_list (print_list entry_a (entry_b ∷ [])) ≡ entry_a ∷ (entry_b ∷ [])
parse_server_list-print_list_example =
    parse_server_list-print_list entry_a (entry_b ∷ []) ((refl, tt), refl, omega arith, omega arith)
      (((refl, tt), refl, omega arith, omega arith), tt)

-- An ideographic space in front of "a", and a no-break space behind it.
unicode_trimmed : trim_space (227 ∷ (128 ∷ (128 ∷ (97 ∷ (194 ∷ (160 ∷ [])))))) ≡ 97 ∷ []
unfolding trim_left trim_right trim_behind space_width
unicode_trimmed = refl

-- The servers come in turn, as long as each has a weight left.
order_of_clients :
    expand 100 (entry_a ∷ (entry_b ∷ []))
    ≡ record { server_addr = 97 ∷ []; i = 0; j = 0 }
      ∷ (record { server_addr = 98 ∷ []; i = 1; j = 0 }
          ∷ (record { server_addr = 97 ∷ []; i = 0; j = 0 }
              ∷ (record { server_addr = 98 ∷ []; i = 1; j = 0 }
                  ∷ (record { server_addr = 98 ∷ []; i = 1; j = 0 } ∷ []))))
unfolding expand expand_round
order_of_clients = refl

abbrev one_server : NewBalance
unfolding expand expand_round
one_server = record {
  server_keep_conns = 1;
  server_max_conns = 4;
  client_max_connections = 4;
  active_clients = expand 100 (entry_a ∷ []);
}

one_server-made : new_load_balance_client 0 4 (97 ∷ (35 ∷ (50 ∷ []))) ≡ some one_server
unfolding new_load_balance_client parse_server_list servers_of server_of split trim_left trim_right
    trim_behind space_width atoi digits made_of expand expand_round one_server
one_server-made = refl

new_load_balance_client-weights_example :
    clients_of 0 one_server.active_clients
    ≡ weight_at 0 0 (parse_server_list (97 ∷ (35 ∷ (50 ∷ []))))
new_load_balance_client-weights_example =
    new_load_balance_client-weights 0 4 0 (97 ∷ (35 ∷ (50 ∷ []))) one_server one_server-made
