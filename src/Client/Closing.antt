-- ===== src/Client/Closing.antt =====
-- client.go: what Client.Close leaves open.
use iip.Prelude.{
  ℕ, suc, ◌+◌, ◌-◌, ◌≡◌, refl, sym, ap, ◌∙◌, true, false, List, [], ◌∷◌, ◌++◌, Option, none, some,
  ◌==◌, if_true, if_false, arith, length, length-take, get_elem?, take, drop, All, Bool-cases,
  Option-cases, inl, inr,
}
use mathlib.Core.Path.{subst}
use iip.Prelude.Dict.{has, AreDistinct}
use iip.Prelude.Slices.{Slice, whole, view, cut, view-whole, items-cut, view-short}
use iip.Statis.{update}
use iip.Connection.{
  Connection, Channel, Reason, connection_is_closed, close_object, close_channel, close_channels,
  mark_closed, remove_channel, close,
}
use iip.Client.{
  Client, position, without_connection, take_out, settle, close_connection, close_from,
  close_client,
}
use iip.Client.WellFormed.{IsOpenAt, IsWell}
use iip.Client.Limits.{close_from-IsWell, close_connection-IsWell}
use iip.Client.Windows.{shorten, close_from-shorten}
use iip.Client.Heads.{has-append, has-drop, HeadIs, take-head, close_from-HeadIs}

abbrev closed_at : Connection → ℕ → Option Channel → Connection
closed_at m addr none = m
closed_at m addr (some d) = close_object m addr (some connection_is_closed) d

object_closed-mark :
    (m : Connection) (addr : ℕ) (d : Channel)
    → (close_object m addr (some connection_is_closed) d).closed_mark ≡ m.closed_mark
unfolding close_object remove_channel
object_closed-mark m addr d = elim (Bool-cases d.closed_mark) [
  | inl shut ↦ ap (λ (c : Connection). c.closed_mark) (if_true d.closed_mark _ _ shut)
  | inr live ↦ ap (λ (c : Connection). c.closed_mark) (if_false d.closed_mark _ _ live)
]

channel_closed-mark :
    (m : Connection) (addr : ℕ)
    → (close_channel m addr (some connection_is_closed)).closed_mark ≡ m.closed_mark
unfolding close_channel close_object remove_channel
channel_closed-mark m addr = elim (Option-cases (get_elem? m.heap addr)) [
  | inl absent ↦ ap (λ (c : Connection). c.closed_mark) (ap (closed_at m addr) absent)
  | inr (d, at) ↦
      ap (λ (c : Connection). c.closed_mark) (ap (closed_at m addr) at)
      ∙ object_closed-mark m addr d
]

close_channels-mark :
    (chans : List (ℕ × ℕ)) (m : Connection) → (close_channels m chans).closed_mark ≡ m.closed_mark
unfolding close_channels close_channel close_object remove_channel
close_channels-mark [] m = refl
close_channels-mark ((id, addr) ∷ rest) m =
    close_channels-mark rest (close_channel m addr (some connection_is_closed))
    ∙ channel_closed-mark m addr

close-mark :
    (m : Connection) (err : Option Reason)
    → m.closed_mark ≡ false
    → (close m err).closed_mark ≡ true
unfolding close
close-mark m err live =
    ap (λ (c : Connection). c.closed_mark) (if_false m.closed_mark _ _ live)
    ∙ close_channels-mark m.channels (mark_closed m err)

cut_items :
    (a b c : ℕ) (rest : List ℕ)
    → (b ∷ (c ∷ rest)) ++ drop (0 + length (b ∷ (c ∷ rest))) (a ∷ (b ∷ (c ∷ rest)))
      ≡ b ∷ ((c ∷ rest) ++ drop (length rest) (c ∷ rest))
cut_items a b c rest =
    let plus : 0 + length (b ∷ (c ∷ rest)) ≡ suc (suc (length rest)) = omega arith in
    ap (λ (n : ℕ). (b ∷ (c ∷ rest)) ++ drop n (a ∷ (b ∷ (c ∷ rest)))) plus

cut_first :
    (a b c : ℕ) (rest : List ℕ)
    → has b (c ∷ rest) ≡ false
    → HeadIs b (cut 0 (whole (a ∷ (b ∷ (c ∷ rest)))))
cut_first a b c rest lacks = (
  (c ∷ rest) ++ drop (length rest) (c ∷ rest),
  items-cut [] (b ∷ (c ∷ rest)) a ∙ cut_items a b c rest,
  has-append b (c ∷ rest) (drop (length rest) (c ∷ rest)) lacks
      (has-drop b (length rest) (c ∷ rest) lacks),
  omega arith,
)

abbrev first_round : Client → ℕ → Option ℕ → Client
first_round m rounds none = m
first_round m rounds (some addr) = close_from rounds 1 (close_connection m addr none)

-- The first round of the loop takes the first connection out, and the array moves up.
first-round :
    (m : Client) (a b c : ℕ) (rest : List ℕ)
    → IsWell m
    → m.connections ≡ whole (a ∷ (b ∷ (c ∷ rest)))
    → HeadIs b (close_connection m a none).connections
unfolding close_connection settle take_out position
first-round m a b c rest w e =
    let xs = a ∷ (b ∷ (c ∷ rest)) in
    let shown : view m.connections ≡ xs = ap view e ∙ view-whole xs in
    let distinct : AreDistinct xs = subst AreDistinct shown w.distinct in
    let all_open : All (IsOpenAt m.heap) xs = subst (All (IsOpenAt m.heap)) shown w.all_open in
    let (conn, at, live) = all_open.0 in
    let stepped = record m { heap = update m.heap a (λ old. close conn none) } in
    let itself : (a == a) ≡ true = ground arith in
    let connections_are =
      ap (λ (x : Client). x.connections)
        (ap (λ o. elim o [ none ↦ m | some d ↦ settle m a (close d none) ]) at)
      ∙ ap (λ (x : Client). x.connections)
          (if_true (close conn none).closed_mark _ _ (close-mark conn none live))
      ∙ ap (λ (o : Option ℕ). (without_connection stepped o).connections)
          (ap (position a) shown ∙ if_true (a == a) _ _ itself)
      ∙ ap (cut 0) e in
    subst (HeadIs b) (sym connections_are) (cut_first a b c rest distinct.1.0)

-- Where the array holds no more than the slice.
skips_whole :
    (m : Client) (a b c : ℕ) (rest : List ℕ)
    → IsWell m
    → m.connections ≡ whole (a ∷ (b ∷ (c ∷ rest)))
    → (get_elem? (view (close_client m).connections) 0 ≡ some b) × IsOpenAt (close_client m).heap b
unfolding close_client close_from
skips_whole m a b c rest w e =
    let xs = a ∷ (b ∷ (c ∷ rest)) in
    let later : Client = close_from (length (b ∷ (c ∷ rest))) 1 (close_connection m a none) in
    let closed : close_client m ≡ later =
      ap (λ (n : ℕ). close_from n 0 m) (ap (λ (s : Slice ℕ). s.size) e)
      ∙ ap (first_round m (length (b ∷ (c ∷ rest))))
          (ap (λ (s : Slice ℕ). get_elem? s.items 0) e) in
    let well : IsWell later =
      close_from-IsWell (length (b ∷ (c ∷ rest))) 1 (close_connection m a none)
        (close_connection-IsWell m a none w) in
    let (tail, items_are, lacks, some_size) =
      close_from-HeadIs (length (b ∷ (c ∷ rest))) 0 b (close_connection m a none)
        (first-round m a b c rest w e) in
    let shown : view later.connections ≡ b ∷ take (later.connections.size - 1) tail =
      ap (take later.connections.size) items_are
      ∙ take-head later.connections.size b tail some_size in
    subst (λ (x : Client). (get_elem? (view x.connections) 0 ≡ some b) × IsOpenAt x.heap b)
      (sym closed)
      (ap (λ ys. get_elem? ys 0) shown, (subst (All (IsOpenAt later.heap)) shown well.all_open).0)

-- A well formed client (its connections are open, distinct and counted, as they are as long as no call
-- of newConnection overlaps with another step) with three connections or more, whatever the array
-- behind its slice holds: Client.Close passes the second connection over. It is the client's first
-- connection afterwards, and open.
pub close_client_skips :
    (m : Client) (a b c : ℕ) (rest : List ℕ)
    → IsWell m
    → view m.connections ≡ a ∷ (b ∷ (c ∷ rest))
    → (get_elem? (view (close_client m).connections) 0 ≡ some b) × IsOpenAt (close_client m).heap b
unfolding close_client
close_client_skips m a b c rest w e =
    let xs = a ∷ (b ∷ (c ∷ rest)) in
    let n = m.connections.size in
    let m' = shorten n m in
    let fits = w.fits in
    let size : n ≡ length xs =
      omega (arith, fits, length-take n m.connections.items, ap length e) in
    let shown : view m'.connections ≡ view m.connections =
      view-short n m.connections (omega arith) in
    let well : IsWell m' = record {
      all_open = subst (All (IsOpenAt m.heap)) (sym shown) w.all_open;
      distinct = subst AreDistinct (sym shown) w.distinct;
      fits = omega (arith, fits, length-take n m.connections.items);
      counted = w.counted;
      limited = w.limited;
    } in
    let is_whole : m'.connections ≡ whole xs =
      ap (λ t. record { items = t; size = n }) e
      ∙ ap (λ (k : ℕ). record { items = xs; size = k }) size in
    let (same, within) = close_from-shorten n 0 n m w (omega arith) (omega arith) in
    let (first, is_open) =
      subst (λ (x : Client). (get_elem? (view x.connections) 0 ≡ some b) × IsOpenAt x.heap b) same
        (skips_whole m' a b c rest well is_whole) in
    (
      ap (λ ys. get_elem? ys 0) (sym (view-short n (close_client m).connections within)) ∙ first,
      is_open,
    )
