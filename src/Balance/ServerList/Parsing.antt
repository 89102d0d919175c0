-- ===== src/Balance/ServerList/Parsing.antt =====
-- Server lists printed and parsed.
use iip.Prelude.{
  ℕ, ◌≤◌, ◌≡◌, leb, refl, ap, ◌∙◌, true, false, arith, ◌||◌, List, [], ◌∷◌, ◌++◌, map, append-nil,
  none, some, ltb, ◌==◌, if◌then◌else◌, if_true, if_false, All, All-append,
}
use iip.Routes.{is_empty_text}
use iip.Balance.ServerList.{
  AddrWeightClient, widen, split, is_space, space_width, trim_behind, trim_left, trim_right,
  trim_space, weighted, addr_weight, server_of, servers_of, push_some, parse_server_list,
}
use iip.Balance.ServerList.Decimals.{Plain, decimal, atoi-decimal, decimal-Plain}

-- A server whose address is not empty and plain, with a weight of 1 to 100.
abbrev pub IsEntry : AddrWeightClient → Type 0
IsEntry server =
    Plain server.addr
    × (is_empty_text server.addr ≡ false)
    × (1 ≤ server.weight)
    × (server.weight ≤ 100)

abbrev pub print_entry : AddrWeightClient → List ℕ
print_entry server = server.addr ++ (35 ∷ decimal server.weight)

abbrev pub print_more : List AddrWeightClient → List ℕ
print_more [] = []
print_more (e ∷ es) = 44 ∷ (print_entry e ++ print_more es)

abbrev pub print_list : AddrWeightClient → List AddrWeightClient → List ℕ
print_list e es = print_entry e ++ print_more es

abbrev Lacks : ℕ → List ℕ → Type 0
Lacks sep text = All (λ b. (b == sep) ≡ false) text

split-Lacks : (sep : ℕ) (text : List ℕ) → Lacks sep text → split sep text ≡ text ∷ []
unfolding split
split-Lacks sep [] h = refl
split-Lacks sep (b ∷ bs) h = if_false (b == sep) _ _ h.0 ∙ ap (widen b) (split-Lacks sep bs h.1)

split-at :
    (sep : ℕ) (text more : List ℕ)
    → Lacks sep text
    → split sep (text ++ (sep ∷ more)) ≡ text ∷ split sep more
unfolding split
split-at sep [] more h =
    let same : (sep == sep) ≡ true = ground arith in if_true (sep == sep) _ _ same
split-at sep (b ∷ bs) more h = if_false (b == sep) _ _ h.0 ∙ ap (widen b) (split-at sep bs more h.1)

Plain-Lacks_hash : (text : List ℕ) → Plain text → Lacks 35 text
Plain-Lacks_hash [] h = tt
Plain-Lacks_hash (b ∷ bs) h = let plain = h.0 in (ground arith, Plain-Lacks_hash bs h.1)

Plain-Lacks_comma : (text : List ℕ) → Plain text → Lacks 44 text
Plain-Lacks_comma [] h = tt
Plain-Lacks_comma (b ∷ bs) h = let plain = h.0 in (ground arith, Plain-Lacks_comma bs h.1)

abbrev Spaceless : List ℕ → Type 0
Spaceless text = All (λ b. (leb 128 b || is_space b) ≡ false) text

Plain-Spaceless : (text : List ℕ) → Plain text → Spaceless text
Plain-Spaceless [] h = tt
Plain-Spaceless (b ∷ bs) h = let plain = h.0 in (ground arith, Plain-Spaceless bs h.1)

no_width : (b : ℕ) (bs : List ℕ) → (leb 128 b || is_space b) ≡ false → space_width (b ∷ bs) ≡ 0
unfolding space_width
no_width b [] h = ground arith
no_width b (c ∷ []) h = ground arith
no_width b (c ∷ (d ∷ rest)) h = ground arith

trim_left-same : (text : List ℕ) → Spaceless text → trim_left text ≡ text
unfolding trim_left trim_behind
trim_left-same [] h = refl
trim_left-same (b ∷ bs) h =
    let none_here : (space_width (b ∷ bs) == 0) ≡ true =
      ap (λ (k : ℕ). k == 0) (no_width b bs h.0) in
    if_true (space_width (b ∷ bs) == 0) _ _ none_here

trim_right-same : (text : List ℕ) → Spaceless text → trim_right text ≡ text
unfolding trim_right
trim_right-same [] h = refl
trim_right-same (b ∷ bs) h =
    if_false (is_empty_text (trim_left (b ∷ bs))) _ _ (ap is_empty_text (trim_left-same (b ∷ bs) h))
    ∙ ap (λ t. b ∷ t) (trim_right-same bs h.1)

trim_space-same : (text : List ℕ) → Spaceless text → trim_space text ≡ text
trim_space-same text h = ap trim_left (trim_right-same text h) ∙ trim_left-same text h

weighted-same :
    (server : AddrWeightClient)
    → 1 ≤ server.weight
    → server.weight ≤ 100
    → weighted server.addr (some server.weight) ≡ some server
weighted-same server least most =
    let inside : (ltb server.weight 1 || ltb 100 server.weight) ≡ false = ground arith in
    if_false (ltb server.weight 1 || ltb 100 server.weight) _ _ inside

-- A text with a byte 35 in it is not empty.
full-text : (a b : List ℕ) → is_empty_text (a ++ (35 ∷ b)) ≡ false
full-text [] b = refl
full-text (x ∷ a) b = refl

server_of-print_entry : (e : AddrWeightClient) → IsEntry e → server_of (print_entry e) ≡ some e
unfolding server_of
server_of-print_entry e (addr, full, least, most) =
    let text = print_entry e in
    let digits_of = decimal e.weight in
    let digits = decimal-Plain e.weight most in
    let spaceless : Spaceless text =
      All-append (λ b. (leb 128 b || is_space b) ≡ false) e.addr (35 ∷ digits_of)
        (Plain-Spaceless e.addr addr) (refl, Plain-Spaceless digits_of digits) in
    let fields : split 35 text ≡ e.addr ∷ (digits_of ∷ []) =
      split-at 35 e.addr digits_of (Plain-Lacks_hash e.addr addr)
      ∙ ap (λ t. e.addr ∷ t) (split-Lacks 35 digits_of (Plain-Lacks_hash digits_of digits)) in
    ap (λ s. if is_empty_text s then none else addr_weight (split 35 s))
      (trim_space-same text spaceless)
    ∙ if_false (is_empty_text text) _ _ (full-text e.addr digits_of)
    ∙ ap addr_weight fields
    ∙ if_false (is_empty_text e.addr) _ _ full
    ∙ ap (weighted e.addr) (atoi-decimal e.weight most)
    ∙ weighted-same e least most

print_entry-Lacks : (e : AddrWeightClient) → IsEntry e → Lacks 44 (print_entry e)
print_entry-Lacks e (addr, full, least, most) =
    All-append (λ b. (b == 44) ≡ false) e.addr (35 ∷ decimal e.weight)
      (Plain-Lacks_comma e.addr addr)
      (refl, Plain-Lacks_comma (decimal e.weight) (decimal-Plain e.weight most))

split-print_more :
    (e : AddrWeightClient) (es : List AddrWeightClient)
    → IsEntry e
    → All IsEntry es
    → split 44 (print_entry e ++ print_more es) ≡ print_entry e ∷ map print_entry es
split-print_more e [] h hs =
    ap (split 44) (append-nil (print_entry e))
    ∙ split-Lacks 44 (print_entry e) (print_entry-Lacks e h)
split-print_more e (x ∷ es) h hs =
    split-at 44 (print_entry e) (print_entry x ++ print_more es) (print_entry-Lacks e h)
    ∙ ap (λ t. print_entry e ∷ t) (split-print_more x es hs.0 hs.1)

servers_of-print_entry :
    (es : List AddrWeightClient) → All IsEntry es → servers_of (map print_entry es) ≡ es
unfolding servers_of
servers_of-print_entry [] h = refl
servers_of-print_entry (e ∷ es) h =
    ap (λ s. push_some s (servers_of (map print_entry es))) (server_of-print_entry e h.0)
    ∙ ap (λ t. e ∷ t) (servers_of-print_entry es h.1)

-- Servers whose addresses are not empty and of ASCII bytes without white space, `#` and `,`, with
-- weights of 1 to 100: printed as entries `addr#weight`, the weight in decimal digits, with commas
-- between, they are read back, in their order and with their weights.
pub parse_server_list-print_list :
    (e : AddrWeightClient) (es : List AddrWeightClient)
    → IsEntry e
    → All IsEntry es
    → parse_server_list (print_list e es) ≡ e ∷ es
unfolding parse_server_list
parse_server_list-print_list e es h hs =
    ap servers_of (split-print_more e es h hs) ∙ servers_of-print_entry (e ∷ es) (h, hs)
