-- ===== src/Connection/Reuse.antt =====
-- Which ids makeNewChannelId gives out again.
use iip.Prelude.{ℕ, ◌%◌, ◌≡◌, ◌≢◌, refl, sym, ap, ◌∙◌, List, [], ◌∷◌, Option, some, length, arith}
use iip.Prelude.Dict.{put}
use iip.Connection.{Connection, Reason, make_new_channel_id, take_id, close_channel, get_channel}
use iip.Connection.Invariant.{IsWell}
use iip.Connection.Closing.{close_channel_open, freed, only_id}

-- The system channel's id is given out like any other once that channel was closed: where no other
-- id is free, the next channel that is opened gets the id 0.
pub system_id_reused :
    (m : Connection) (addr : ℕ) (err : Option Reason) (choice : ℕ)
    → IsWell m
    → get_channel m 0 ≡ some addr
    → m.free_channel_id ≡ []
    → (make_new_channel_id (close_channel m addr err) choice).0 ≡ 0
unfolding get_channel make_new_channel_id
system_id_reused m addr err choice w found none_free =
    let (c, got, named, live) = w.linked 0 addr found in
    let free : (close_channel m addr err).free_channel_id ≡ 0 ∷ [] =
      ap (λ (x : Connection). x.free_channel_id) (close_channel_open m addr err c got live)
      ∙ freed m c.id
      ∙ ap (λ (k : ℕ). put k m.free_channel_id) named
      ∙ ap (put 0) none_free
      ∙ unfold put in refl in
    ap (λ (f : List ℕ). (take_id (close_channel m addr err) choice f).0) free ∙ only_id _ choice 0

first_free : (m : Connection) (a b : ℕ) (rest : List ℕ) → (take_id m 0 (a ∷ (b ∷ rest))).0 ≡ a
unfolding take_id
first_free m a b rest = let i : 0 % length (a ∷ (b ∷ rest)) ≡ 0 = grind arith in rw i

second_free : (m : Connection) (a b : ℕ) (rest : List ℕ) → (take_id m 1 (a ∷ (b ∷ rest))).0 ≡ b
unfolding take_id
second_free m a b rest = let i : 1 % length (a ∷ (b ∷ rest)) ≡ 1 = grind arith in rw i

-- Two connections in the same state may give their next channels different ids, where two ids are
-- free: the ids at the two ends of a connection agree only if both ranges visit the same key first.
pub free_ids_differ :
    (m : Connection) (a b : ℕ) (rest : List ℕ)
    → m.free_channel_id ≡ a ∷ (b ∷ rest)
    → a ≢ b
    → (make_new_channel_id m 0).0 ≢ (make_new_channel_id m 1).0
unfolding make_new_channel_id
free_ids_differ m a b rest e apart same = apart (
    sym (first_free m a b rest)
    ∙ ap (λ (f : List ℕ). (take_id m 0 f).0) (sym e)
    ∙ same
    ∙ ap (λ (f : List ℕ). (take_id m 1 f).0) e
    ∙ second_free m a b rest)
