-- ===== src/Server/Totals.antt =====
-- The total counts of a server against those of its paths.
use iip.Prelude.{
  ℕ, ◌≡◌, inl, inr, refl, sym, ap, ◌∙◌, false, List, [], ◌∷◌, Option, none, some, if_true, if_false,
  Bool-cases, arith,
}
use iip.Statis.{Count, no_count, add_count, add_int64}
use iip.Prelude.Texts.{is_same, find}
use iip.Server.{Server, add_path_count, add_server_count}

add_int64_assoc : (a b c : ℕ) → add_int64 (add_int64 a b) c ≡ add_int64 a (add_int64 b c)
add_int64_assoc a b c = omega arith

add_int64_comm : (a b : ℕ) → add_int64 a b ≡ add_int64 b a
add_int64_comm a b = omega arith

abbrev counted : ℕ → ℕ → ℕ → ℕ → ℕ → ℕ → Count
counted a b c d e f = record {
  packets_sent = a;
  packet_received = b;
  whole_packet_sent = c;
  whole_packet_received = d;
  bytes_sent = e;
  bytes_received = f;
}

same_count :
    {a b c d e f a' b' c' d' e' f' : ℕ}
    → a ≡ a'
    → b ≡ b'
    → c ≡ c'
    → d ≡ d'
    → e ≡ e'
    → f ≡ f'
    → counted a b c d e f ≡ counted a' b' c' d' e' f'
same_count p q r s t u = rw (p, q, r, s, t, u) refl

add_count_assoc : (x y z : Count) → add_count (add_count x y) z ≡ add_count x (add_count y z)
unfolding add_count
add_count_assoc x y z =
    same_count (add_int64_assoc x.packets_sent y.packets_sent z.packets_sent)
      (add_int64_assoc x.packet_received y.packet_received z.packet_received)
      (add_int64_assoc x.whole_packet_sent y.whole_packet_sent z.whole_packet_sent)
      (add_int64_assoc x.whole_packet_received y.whole_packet_received z.whole_packet_received)
      (add_int64_assoc x.bytes_sent y.bytes_sent z.bytes_sent)
      (add_int64_assoc x.bytes_received y.bytes_received z.bytes_received)

add_count_comm : (x y : Count) → add_count x y ≡ add_count y x
unfolding add_count
add_count_comm x y =
    same_count (add_int64_comm x.packets_sent y.packets_sent)
      (add_int64_comm x.packet_received y.packet_received)
      (add_int64_comm x.whole_packet_sent y.whole_packet_sent)
      (add_int64_comm x.whole_packet_received y.whole_packet_received)
      (add_int64_comm x.bytes_sent y.bytes_sent) (add_int64_comm x.bytes_received y.bytes_received)

-- The sum of the counts of all paths.
abbrev pub sum_counts : List (List ℕ × Count) → Count
sum_counts [] = no_count
sum_counts ((path, c) ∷ rest) = add_count c (sum_counts rest)

swap_last : (x y z : Count) → add_count x (add_count y z) ≡ add_count (add_count x z) y
swap_last x y z = ap (add_count x) (add_count_comm y z) ∙ sym (add_count_assoc x z y)

found_later :
    (path known : List ℕ) (c old : Count) (rest : List (List ℕ × Count))
    → is_same known path ≡ false
    → find path ((known, old) ∷ rest) ≡ some c
    → find path rest ≡ some c
unfolding find
found_later path known c old rest other e = sym (if_false (is_same known path) _ _ other) ∙ e

add_path_count-sum :
    (path : List ℕ) (cnt c : Count) (paths : List (List ℕ × Count))
    → find path paths ≡ some c
    → sum_counts (add_path_count path cnt paths) ≡ add_count (sum_counts paths) cnt
unfolding add_path_count
add_path_count-sum path cnt c [] e = unfold find in absurd (cc e)
add_path_count-sum path cnt c ((known, old) ∷ rest) e =
    let more = λ (later : find path rest ≡ some c). add_path_count-sum path cnt c rest later in
    elim (Bool-cases (is_same known path)) [
      | inl same ↦
          ap sum_counts (if_true (is_same known path) _ _ same)
          ∙ add_count_assoc old cnt (sum_counts rest)
          ∙ swap_last old cnt (sum_counts rest)
      | inr other ↦
          ap sum_counts (if_false (is_same known path) _ _ other)
          ∙ ap (add_count old) (more (found_later path known c old rest other e))
          ∙ sym (add_count_assoc old (sum_counts rest) cnt)
    ]

-- Calls of AddCount, each with its path.
module _ {Handler : Type 0} where
  abbrev pub all_counted : Server Handler → List (List ℕ × Count) → Server Handler
  all_counted m [] = m
  all_counted m ((path, cnt) ∷ calls) = all_counted (add_server_count m path cnt) calls

  abbrev Agrees : Server Handler → Type 0
  Agrees s = s.count ≡ sum_counts s.path_count

  add_server_count-sum :
      (m : Server Handler) (path : List ℕ) (cnt : Count)
      → m.count ≡ sum_counts m.path_count
      → (add_server_count m path cnt).count ≡ sum_counts (add_server_count m path cnt).path_count
  unfolding add_server_count
  add_server_count-sum m path cnt h = cases (find path m.path_count) refl
    where
      cases :
          (found : Option Count)
          → find path m.path_count ≡ found
          → Agrees (elim found [
            | none ↦ m
            | some old ↦ record m {
              count = add_count m.count cnt;
              path_count = add_path_count path cnt m.path_count;
            }
          ])
      cases none e = h
      cases (some old) e =
          ap (λ c. add_count c cnt) h ∙ sym (add_path_count-sum path cnt old m.path_count e)

  -- Whatever AddCount is called with, for paths registered or not, the total count of a server stays
  -- the sum of the counts of its paths, in each of the six counters, once it is.
  pub total-sum_counts :
      (calls : List (List ℕ × Count)) (m : Server Handler)
      → m.count ≡ sum_counts m.path_count
      → (all_counted m calls).count ≡ sum_counts (all_counted m calls).path_count
  total-sum_counts [] m h = h
  total-sum_counts ((path, cnt) ∷ calls) m h =
      total-sum_counts calls (add_server_count m path cnt) (add_server_count-sum m path cnt h)
