-- ===== src/Connection/Closing.antt =====
-- What Channel.Close and Connection.Close leave.
use iip.Prelude.{
  ℕ, ◌%◌, ◌≡◌, inl, inr, refl, sym, ap, ◌∙◌, true, false, List, [], ◌∷◌, Option, none, some,
  Bool-cases, if_false, some_injective, get_elem?, arith,
}
use mathlib.Core.Path.{subst}
use iip.Prelude.Dict.{lookup, erase, keys, has, put, AreDistinct, erase_absent}
use iip.Connection.{
  Connection, Channel, Reason, connection_is_closed, take_id, remove_channel, close_object,
  close_channel, close_channels, close, mark_closed, or_unknown,
}
use iip.Connection.Invariant.{IsWell, close_at, close_channel-IsWell}

module _ (m : Connection) (addr : ℕ) (err : Option Reason) where
  -- Close of an open channel.
  pub close_channel_open :
      (c : Channel)
      → get_elem? m.heap addr ≡ some c
      → c.closed_mark ≡ false
      → close_channel m addr err ≡ close_at addr err m c.id
  unfolding close_channel close_object
  close_channel_open c got live = cases (get_elem? m.heap addr) got
    where
      cases :
          (o : Option Channel)
          → o ≡ some c
          → elim o [ none ↦ m | some d ↦ close_object m addr err d ] ≡ close_at addr err m c.id
      cases none e = cc
      cases (some d) e = let same : d ≡ c = some_injective e in rw same (rw live)

  pub close_channel_max : (close_channel m addr err).max_channel_id ≡ m.max_channel_id
  unfolding close_channel close_object remove_channel
  close_channel_max = ground arith

removed : (m : Connection) (id : ℕ) → (remove_channel m id).channels ≡ erase id m.channels
unfolding remove_channel
removed m id = refl

pub freed :
    (m : Connection) (id : ℕ) → (remove_channel m id).free_channel_id ≡ put id m.free_channel_id
unfolding remove_channel
freed m id = refl

pub only_id : (m : Connection) (choice id : ℕ) → (take_id m choice (id ∷ [])).0 ≡ id
unfolding take_id
only_id m choice id = let i : choice % 1 ≡ 0 = omega arith in rw i

erase_head :
    (id addr : ℕ) (rest : List (ℕ × ℕ))
    → has id (keys rest) ≡ false
    → erase id ((id, addr) ∷ rest) ≡ rest
unfolding erase
erase_head id addr rest h = ground (arith, erase_absent id rest)

module _ (m : Connection) (id addr : ℕ) (rest : List (ℕ × ℕ)) (w : IsWell m)
    (e : m.channels ≡ (id, addr) ∷ rest) where
  close_first : (err : Option Reason) → (close_channel m addr err).channels ≡ rest
  close_first err =
      let found : lookup id m.channels ≡ some addr = rw e (unfold lookup in ground arith) in
      let (c, got, named, live) = w.linked id addr found in
      ap (λ (x : Connection). x.channels) (close_channel_open m addr err c got live)
      ∙ removed m c.id
      ∙ ap (λ (k : ℕ). erase k m.channels) named
      ∙ ap (erase id) e
      ∙ erase_head id addr rest (subst (λ (x : List (ℕ × ℕ)). AreDistinct (keys x)) e w.distinct).0

close_channels_empty :
    (cs : List (ℕ × ℕ)) (m : Connection)
    → IsWell m
    → m.channels ≡ cs
    → IsWell (close_channels m cs) × ((close_channels m cs).channels ≡ [])
unfolding close_channels
close_channels_empty [] m w e = (w, e)
close_channels_empty ((id, addr) ∷ rest) m w e =
    close_channels_empty rest (close_channel m addr (some connection_is_closed))
      (close_channel-IsWell m addr (some connection_is_closed) w)
      (close_first m id addr rest w e (some connection_is_closed))

mark-IsWell :
    (m : Connection) (err : Option Reason)
    → IsWell m
    → IsWell (record m { closed_mark = true; err = err })
mark-IsWell m err w = record {
  ids = record {
    open_bounded = w.ids.open_bounded;
    free_bounded = w.ids.free_bounded;
    apart = w.ids.apart;
    fits = w.ids.fits;
  };
  distinct = w.distinct;
  counted = w.counted;
  linked = w.linked;
  open_linked = w.open_linked;
}

no_open :
    (m : Connection) (addr : ℕ) (c : Channel)
    → IsWell m
    → m.channels ≡ []
    → get_elem? m.heap addr ≡ some c
    → c.closed_mark ≡ true
unfolding lookup
no_open m addr c w e got = elim (Bool-cases c.closed_mark) [
  | inl shut ↦ shut
  | inr live ↦ cc (ap (λ (x : List (ℕ × ℕ)). lookup c.id x) e, w.open_linked addr c got live)
]

-- Closing a connection that is open and well formed closes every channel object that it ever made,
-- and leaves no channel in its map and no packet in its write queue. Well formed (IsWell) is a
-- connection each of whose open channel objects stands in the map under its id, where the ids are
-- distinct and counted; one that ran out of ids, so that id 0 was given twice, is not.
pub close_all :
    (m : Connection) (err : Option Reason) (addr : ℕ) (c : Channel)
    → IsWell m
    → m.closed_mark ≡ false
    → get_elem? (close m err).heap addr ≡ some c
    → (c.closed_mark ≡ true) × ((close m err).channels ≡ []) × ((close m err).tcp_write_queue ≡ [])
unfolding close
close_all m err addr c w live got =
    let closed = close_channels (mark_closed m err) m.channels in
    let shape : close m err ≡ record closed { tcp_write_queue = [] } =
      if_false m.closed_mark m (record closed { tcp_write_queue = [] }) live in
    let (well, none_left) =
      close_channels_empty m.channels (mark_closed m err) (mark-IsWell m (some (or_unknown err)) w)
        refl in
    (
      no_open closed addr c well none_left
          (ap (λ (x : Connection). get_elem? x.heap addr) (sym shape) ∙ got),
      ap (λ (x : Connection). x.channels) shape ∙ none_left,
      ap (λ (x : Connection). x.tcp_write_queue) shape,
    )
