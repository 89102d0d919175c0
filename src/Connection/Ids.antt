-- ===== src/Connection/Ids.antt =====
-- How channel ids are given out (makeNewChannelId).
use iip.Prelude.{
  ℕ, zero, suc, ◌+◌, ◌%◌, ◌≤◌, ◌<◌, ◌≡◌, ◌≢◌, ◌⊎◌, inl, inr, refl, true, false, List, [], ◌∷◌,
  Bool-cases, lt→ltb, length, get_or, arith,
}
use iip.Prelude.Dict.{keys, has, remove, has-remove}
use iip.Connection.{Connection, take_id, make_new_channel_id, max_uint32}

-- The two sets of ids of a connection.
pub record HasIds (m : Connection) : Type 0 where
  pub open_bounded : (id : ℕ) → has id (keys m.channels) ≡ true → id ≤ m.max_channel_id
  pub free_bounded : (id : ℕ) → has id m.free_channel_id ≡ true → id ≤ m.max_channel_id
  pub apart : (id : ℕ) → has id m.free_channel_id ≡ true → has id (keys m.channels) ≡ false
  pub fits : m.max_channel_id ≤ max_uint32

-- An id is left.
abbrev pub HasRoom : Connection → Type 0
HasRoom m = (m.free_channel_id ≢ []) ⊎ (m.max_channel_id < max_uint32)

-- What makeNewChannelId gives: an id that no channel in the map has and that is free no more.
pub record IsNew (m : Connection) (r : ℕ × Connection) : Type 0 where
  pub not_open : has r.0 (keys m.channels) ≡ false
  pub not_free : has r.0 r.1.free_channel_id ≡ false
  pub bounded : r.0 ≤ r.1.max_channel_id
  pub ids : HasIds r.1
  pub rest :
      r.1 ≡ record m { max_channel_id = r.1.max_channel_id; free_channel_id = r.1.free_channel_id }
  pub grows : r.1.max_channel_id ≤ m.max_channel_id + 1

has-get_or : (xs : List ℕ) (i d : ℕ) → i < length xs → has (get_or xs i d) xs ≡ true
unfolding has
has-get_or [] i d h = absurd (omega arith)
has-get_or (x ∷ xs) zero d h = ground arith
has-get_or (x ∷ xs) (suc i) d h = ground (arith, has-get_or xs i d)

reused-IsNew :
    (m : Connection) (id : ℕ)
    → HasIds m
    → has id m.free_channel_id ≡ true
    → IsNew m (id, record m { free_channel_id = remove id m.free_channel_id })
reused-IsNew m id h free = record {
  not_open = h.apart id free;
  not_free = ground (arith, has-remove id id m.free_channel_id);
  bounded = h.free_bounded id free;
  ids = record {
    open_bounded = h.open_bounded;
    free_bounded = λ j e. h.free_bounded j (ground (arith, has-remove id j m.free_channel_id));
    apart = λ j e. h.apart j (ground (arith, has-remove id j m.free_channel_id));
    fits = h.fits;
  };
  rest = refl;
  grows = omega arith;
}

above_max :
    (m : Connection) (xs : List ℕ)
    → ((id : ℕ) → has id xs ≡ true → id ≤ m.max_channel_id)
    → has (m.max_channel_id + 1) xs ≡ false
above_max m xs h = elim (Bool-cases (has (m.max_channel_id + 1) xs)) [
  | inl found ↦ absurd (omega (arith, h (m.max_channel_id + 1) found))
  | inr missing ↦ missing
]

next-IsNew :
    (m : Connection)
    → HasIds m
    → m.max_channel_id < max_uint32
    → IsNew m (m.max_channel_id + 1, record m { max_channel_id = m.max_channel_id + 1 })
next-IsNew m h room = record {
  not_open = above_max m (keys m.channels) h.open_bounded;
  not_free = above_max m m.free_channel_id h.free_bounded;
  bounded = omega arith;
  ids = record {
    open_bounded = λ j e. omega (arith, h.open_bounded j e);
    free_bounded = λ j e. omega (arith, h.free_bounded j e);
    apart = h.apart;
    fits = omega arith;
  };
  rest = refl;
  grows = omega arith;
}

take_id-IsNew :
    (m : Connection) (choice : ℕ) (free : List ℕ)
    → HasIds m
    → HasRoom m
    → m.free_channel_id ≡ free
    → IsNew m (take_id m choice free)
unfolding take_id
take_id-IsNew m choice [] h room e = elim room [
  | inl free ↦ absurd (free e)
  | inr below ↦ rw (lt→ltb m.max_channel_id max_uint32 below) (next-IsNew m h below)
]
take_id-IsNew m choice (k ∷ ks) h room e =
    let i = choice % length (k ∷ ks) in
    reused-IsNew m (get_or (k ∷ ks) i k) h (rw e (has-get_or (k ∷ ks) i k (omega arith)))

-- While an id is left, makeNewChannelId gives one that no channel of the connection has, whichever
-- free id the range over the map of free ids visits first.
pub make_new_channel_id-IsNew :
    (m : Connection) (choice : ℕ) → HasIds m → HasRoom m → IsNew m (make_new_channel_id m choice)
unfolding make_new_channel_id
make_new_channel_id-IsNew m choice h room = take_id-IsNew m choice m.free_channel_id h room refl
