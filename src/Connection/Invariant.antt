-- ===== src/Connection/Invariant.antt =====
-- What every connection keeps: its map, its heap, its free ids and its count agree.
use iip.Prelude.{
  ℕ, zero, suc, ◌%◌, ◌^◌, ◌≤◌, ◌≡◌, ◌≢◌, inl, inr, refl, sym, ap, true, false, List, [], ◌∷◌, ◌++◌,
  Option, none, some, ◌==◌, if◌then◌else◌, Bool-cases, length, get_elem?, arith,
}
use mathlib.Core.Option
use mathlib.Core.Path.{subst}
use iip.Prelude.Dict.{
  lookup, insert, erase, keys, has, has-put, AreDistinct, lookup-insert, lookup-erase,
  has-keys-insert, has-keys-erase, insert-AreDistinct, erase-AreDistinct, length-insert,
  length-erase,
}
use iip.Statis.{update}
use iip.Connection.{
  Connection, Channel, Reason, fresh_channel, place_channel, new_channel, make_new_channel_id,
  remove_channel, close_object, close_channel, or_unknown,
}
use iip.Connection.Ids.{HasIds, HasRoom, make_new_channel_id-IsNew}

-- The object at an address is an open channel with this id.
abbrev pub IsOpen : Connection → ℕ → ℕ → Type 0
IsOpen m id addr =
    (c : Channel) × (get_elem? m.heap addr ≡ some c) × (c.id ≡ id) × (c.closed_mark ≡ false)

pub record IsWell (m : Connection) : Type 0 where
  pub ids : HasIds m
  pub distinct : AreDistinct (keys m.channels)
  pub counted : m.channel_count ≡ length m.channels % 2 ^ 32
  pub linked : (id addr : ℕ) → lookup id m.channels ≡ some addr → IsOpen m id addr
  pub open_linked :
      (addr : ℕ) (c : Channel)
      → get_elem? m.heap addr ≡ some c
      → c.closed_mark ≡ false
      → lookup c.id m.channels ≡ some addr

get_elem?-append_one {ℓ} :
    {A : Type ℓ} (xs : List A) (v : A) (i : ℕ)
    → get_elem? (xs ++ (v ∷ [])) i ≡ (if i == length xs then some v else get_elem? xs i)
get_elem?-append_one [] v zero = ground arith
get_elem?-append_one [] v (suc i) = ground arith
get_elem?-append_one (x ∷ xs) v zero = ground arith
get_elem?-append_one (x ∷ xs) v (suc i) = ground (arith, get_elem?-append_one xs v i)

pub get_elem?-append_some {ℓ} :
    {A : Type ℓ} (xs ys : List A) (i : ℕ) {v : A}
    → get_elem? xs i ≡ some v
    → get_elem? (xs ++ ys) i ≡ some v
get_elem?-append_some [] ys i e = cc
get_elem?-append_some (x ∷ xs) ys zero e = e
get_elem?-append_some (x ∷ xs) ys (suc i) e = get_elem?-append_some xs ys i e

pub get_elem?-update {ℓ} :
    {A : Type ℓ} (xs : List A) (i j : ℕ) (f : A → A)
    → get_elem? (update xs i f) j
      ≡ (if i == j then Option.map f (get_elem? xs j) else get_elem? xs j)
unfolding update
get_elem?-update [] i j f = ground arith
get_elem?-update (x ∷ xs) zero zero f = ground arith
get_elem?-update (x ∷ xs) zero (suc j) f = ground arith
get_elem?-update (x ∷ xs) (suc i) zero f = ground arith
get_elem?-update (x ∷ xs) (suc i) (suc j) f = ground (arith, get_elem?-update xs i j f)

lookup-has {ℓ} :
    {V : Type ℓ} (k : ℕ) (m : List (ℕ × V)) {v : V} → lookup k m ≡ some v → has k (keys m) ≡ true
unfolding lookup has
lookup-has k [] e = cc
lookup-has k ((j, w) ∷ m) {v} e = ground (arith, lookup-has k m {v = v})

module _ (id : ℕ) (m : Connection) (w : IsWell m) (closed : has id (keys m.channels) ≡ false) where
  placed_linked :
      (j addr : ℕ)
      → lookup j (insert id (length m.heap) m.channels) ≡ some addr
      → IsOpen (place_channel id m).1 j addr
  unfolding place_channel
  placed_linked j addr e = elim (Bool-cases (id == j)) [
    | inl same ↦
        let here : addr ≡ length m.heap =
          ground (arith, lookup-insert id j (length m.heap) m.channels) in
        (
          fresh_channel id,
          ground (arith, here, get_elem?-append_one m.heap (fresh_channel id) addr),
          ground arith,
          refl,
        )
    | inr other ↦
        let (c, got, named, live) =
          w.linked j addr (ground (arith, lookup-insert id j (length m.heap) m.channels)) in
        (c, get_elem?-append_some m.heap (fresh_channel id ∷ []) addr got, named, live)
  ]

  placed_open :
      (addr : ℕ) (c : Channel)
      → get_elem? (m.heap ++ (fresh_channel id ∷ [])) addr ≡ some c
      → c.closed_mark ≡ false
      → lookup c.id (insert id (length m.heap) m.channels) ≡ some addr
  placed_open addr c e live = elim (Bool-cases (addr == length m.heap)) [
    | inl last ↦
        let new : fresh_channel id ≡ c =
          ground (arith, get_elem?-append_one m.heap (fresh_channel id) addr) in
        rw (← new) (ground (arith, lookup-insert id id (length m.heap) m.channels))
    | inr before ↦
        let old =
          w.open_linked addr c (ground (arith, get_elem?-append_one m.heap (fresh_channel id) addr))
            live in
        ground (
          arith,
          old,
          closed,
          lookup-has c.id m.channels old,
          lookup-insert id c.id (length m.heap) m.channels,
        )
  ]

  pub place_channel-IsWell :
      has id m.free_channel_id ≡ false → id ≤ m.max_channel_id → IsWell (place_channel id m).1
  unfolding place_channel
  place_channel-IsWell taken bounded = record {
    ids = record {
      open_bounded = λ j e.
          ground (arith, w.ids.open_bounded j, has-keys-insert id j (length m.heap) m.channels);
      free_bounded = w.ids.free_bounded;
      apart =
          λ j e. ground (arith, w.ids.apart j e, has-keys-insert id j (length m.heap) m.channels);
      fits = w.ids.fits;
    };
    distinct = insert-AreDistinct id (length m.heap) m.channels w.distinct;
    counted = omega (arith, w.counted, length-insert id (length m.heap) m.channels closed);
    linked = placed_linked;
    open_linked = placed_open;
  }

with_ids-IsWell :
    (m : Connection) (max : ℕ) (free : List ℕ)
    → IsWell m
    → HasIds (record m { max_channel_id = max; free_channel_id = free })
    → IsWell (record m { max_channel_id = max; free_channel_id = free })
with_ids-IsWell m max free w ids = record {
  ids = ids;
  distinct = w.distinct;
  counted = w.counted;
  linked = w.linked;
  open_linked = w.open_linked;
}

placed_last :
    (id : ℕ) (m : Connection)
    → get_elem? (place_channel id m).1.heap (place_channel id m).0 ≡ some (fresh_channel id)
unfolding place_channel
placed_last id m = ground (arith, get_elem?-append_one m.heap (fresh_channel id) (length m.heap))

-- While an id is left, a new channel gets an id that no open channel has, and the connection stays
-- well formed, with one channel more in its map.
pub new_channel-IsWell :
    (m : Connection) (choice : ℕ)
    → IsWell m
    → HasRoom m
    → let (addr, m') = new_channel m false choice in
      IsWell m' × (get_elem? m'.heap addr ≡ some (fresh_channel (make_new_channel_id m choice).0))
unfolding new_channel
new_channel-IsWell m choice w room =
    let r = make_new_channel_id m choice in
    let n = make_new_channel_id-IsNew m choice w.ids room in
    let well : IsWell r.1 =
      subst IsWell (sym n.rest)
        (with_ids-IsWell m r.1.max_channel_id r.1.free_channel_id w (subst HasIds n.rest n.ids)) in
    let closed =
      subst (λ (x : Connection). has r.0 (keys x.channels) ≡ false) (sym n.rest) n.not_open in
    (place_channel-IsWell r.0 r.1 well closed n.not_free n.bounded, placed_last r.0 r.1)

abbrev pub close_at : ℕ → Option Reason → Connection → ℕ → Connection
close_at addr err m id = record (remove_channel m id) {
  heap = update m.heap addr (λ d. record d { closed_mark = true; err = some (or_unknown err) });
}

module _ (m : Connection) (addr : ℕ) (err : Option Reason) (c : Channel) (w : IsWell m)
    (got : get_elem? m.heap addr ≡ some c) (live : c.closed_mark ≡ false) where
  abbrev shut : Channel → Channel
  shut d = record d { closed_mark = true; err = some (or_unknown err) }

  closed_linked :
      (j a : ℕ) → lookup j (erase c.id m.channels) ≡ some a → IsOpen (close_at addr err m c.id) j a
  unfolding remove_channel
  closed_linked j a e =
      let kept : ((c.id == j) ≡ false) × (lookup j m.channels ≡ some a) =
        ground (arith, lookup-erase c.id j m.channels) in
      let (d, got_d, named, live_d) = w.linked j a kept.1 in
      let apart : addr ≢ a = λ same.
        let one : some c ≡ some d = cc (got, got_d, same) in
        ground (
          arith,
          kept.0,
          named,
          ap (λ (o : Option Channel). Option.map (λ (x : Channel). x.id) o) one,
        ) in
      (d, ground (arith, apart, got_d, get_elem?-update m.heap addr a shut), named, live_d)

  closed_open :
      (a : ℕ) (d : Channel)
      → get_elem? (update m.heap addr shut) a ≡ some d
      → d.closed_mark ≡ false
      → lookup d.id (erase c.id m.channels) ≡ some a
  closed_open a d e live_d = elim (Bool-cases (addr == a)) [
    | inl same ↦
        let one : some (shut c) ≡ some d =
          ground (arith, got, get_elem?-update m.heap addr a shut) in
        cc (live_d, one)
    | inr other ↦
        let old = w.open_linked a d (ground (arith, get_elem?-update m.heap addr a shut)) live_d in
        let own = w.open_linked addr c got live in
        ground (arith, old, own, lookup-erase c.id d.id m.channels)
  ]

  close_at-IsWell : IsWell (close_at addr err m c.id)
  unfolding remove_channel
  close_at-IsWell =
      let found = lookup-has c.id m.channels (w.open_linked addr c got live) in
      record {
        ids = record {
          open_bounded =
              λ j e. w.ids.open_bounded j (ground (arith, has-keys-erase c.id j m.channels));
          free_bounded = λ j e. ground (
            arith,
            found,
            w.ids.open_bounded j,
            w.ids.free_bounded j,
            has-put c.id j m.free_channel_id,
          );
          apart = λ j e. ground (
            arith,
            w.ids.apart j,
            has-put c.id j m.free_channel_id,
            has-keys-erase c.id j m.channels,
          );
          fits = w.ids.fits;
        };
        distinct = erase-AreDistinct c.id m.channels w.distinct;
        counted = omega (arith, w.counted, length-erase c.id m.channels w.distinct found);
        linked = closed_linked;
        open_linked = closed_open;
      }

-- Closing any channel, open or closed, in the map or not, keeps a connection well formed: no other
-- channel leaves the map, and the id of the closed one is free.
pub close_channel-IsWell :
    (m : Connection) (addr : ℕ) (err : Option Reason) → IsWell m → IsWell (close_channel m addr err)
unfolding close_channel close_object
close_channel-IsWell m addr err w = cases (get_elem? m.heap addr) refl
  where
    cases :
        (o : Option Channel)
        → get_elem? m.heap addr ≡ o
        → IsWell (elim o [ none ↦ m | some c ↦ close_object m addr err c ])
    cases none e = w
    cases (some c) e = elim (Bool-cases c.closed_mark) [
      | inl already ↦ rw already w
      | inr live ↦ rw live (close_at-IsWell m addr err c w e live)
    ]
