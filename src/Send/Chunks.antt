-- ===== src/Send/Chunks.antt =====
-- The chunks that sendPacket's loop builds of a packet that is too large for one.
use iip.Prelude.{
  ℕ, zero, suc, ◌+◌, ◌-◌, ◌*◌, ◌≤◌, ◌<◌, ◌≡◌, ◌⊎◌, inl, inr, refl, sym, ap, ◌∙◌, Bool, true, false,
  List, [], ◌∷◌, ◌++◌, append-nil, Option, none, some, ltb, leb, ◌==◌, if◌then◌else◌, if_true,
  if_false, All, arith, length, length-take, length-drop, take, drop, replicate, take-append-drop,
}
use mathlib.Core.Path.{subst}
use iip.Consts.{role_client, role_server, max_packet_size}
use iip.Packet.{Packet}
use iip.Status.Checker.{Checker, client_checker, server_checker}
use iip.ReadLoop.Delivery.{statuses_of}
use iip.Send.{chunk_size, chunk_status, last_chunk_status, next_chunk_status, make_chunk}

-- The chunks that the rounds of sendPacket's loop build, one after another. The code keeps no such
-- list: it drops each chunk.
unfoldable pub chunks : ℕ → ℕ → ℕ → ℕ → Packet → ℕ → Bool → List Packet
chunks zero role id addr pkt remain first_send = []
chunks (suc rounds) role id addr pkt remain first_send =
    let size = chunk_size remain in
    let rest = chunks rounds role id addr pkt (remain - size) false in
    elim (make_chunk role id addr pkt remain first_send) [
      | none ↦ []
      | some chunk ↦ chunk ∷ (if leb (remain - size) 0 then [] else rest)
    ]

-- The data that a receiver puts together of packets, and what a packet must fit into.
abbrev pub all_data : List Packet → List ℕ
all_data [] = []
all_data (p ∷ ps) = p.payload ++ all_data ps

abbrev pub IsSized : Packet → Type 0
IsSized p = (0 < length p.payload) × (length p.payload ≤ max_packet_size)

-- The four statuses of a role are those of the check at the other end.
pub record IsSpokenBy (k : Checker) (role : ℕ) : Type 0 where
  pub alone : last_chunk_status role true ≡ some k.whole
  pub ends : last_chunk_status role false ≡ some k.last
  pub starts : next_chunk_status role true ≡ some k.first
  pub goes_on : next_chunk_status role false ≡ some k.middle

pub client-IsSpokenBy : IsSpokenBy client_checker role_client
unfolding last_chunk_status next_chunk_status
client-IsSpokenBy = record { alone = refl; ends = refl; starts = refl; goes_on = refl }

pub server-IsSpokenBy : IsSpokenBy server_checker role_server
unfolding last_chunk_status next_chunk_status
server-IsSpokenBy = record { alone = refl; ends = refl; starts = refl; goes_on = refl }

take_all : {A : Type 0} (n : ℕ) (xs : List A) → length xs ≤ n → take n xs ≡ xs
take_all zero [] h = refl
take_all zero (x ∷ xs) h = ground (arith, h)
take_all (suc n) [] h = refl
take_all (suc n) (x ∷ xs) h = ap (λ t. x ∷ t) (take_all n xs (omega (arith, h)))

drop-drop : {A : Type 0} (n m : ℕ) (xs : List A) → drop n (drop m xs) ≡ drop (m + n) xs
drop-drop n zero xs =
    ap (λ (t : ℕ). drop t xs) (let none_more : n ≡ 0 + n = omega arith in none_more)
drop-drop zero (suc m) [] =
    ap (λ (t : ℕ). drop t []) (let one : suc m ≡ suc m + 0 = omega arith in one)
drop-drop (suc n) (suc m) [] =
    ap (λ (t : ℕ). drop t []) (let one : suc (m + suc n) ≡ suc m + suc n = omega arith in one)
drop-drop n (suc m) (x ∷ xs) =
    drop-drop n m xs
    ∙ ap (λ (t : ℕ). drop t (x ∷ xs)) (let one : suc (m + n) ≡ suc m + n = omega arith in one)

pub small_or_large : (n : ℕ) → (n ≤ max_packet_size) ⊎ (max_packet_size < n)
small_or_large n = omega arith

module _ (id addr : ℕ) (pkt : Packet) where
  -- The chunk of what remains, with this status.
  abbrev pub piece : ℕ → ℕ → ℕ → Packet
  piece s size remain = record pkt {
    status = s;
    channel_id = id;
    payload = take size (drop (length pkt.payload - remain) pkt.payload);
    dont_chunk = false;
    channel = some addr;
  }

  pub length-piece :
      (s size remain : ℕ)
      → size ≤ remain
      → remain ≤ length pkt.payload
      → length (piece s size remain).payload ≡ size
  length-piece s size remain h l = omega (
    arith,
    h,
    l,
    length-take size (drop (length pkt.payload - remain) pkt.payload),
    length-drop (length pkt.payload - remain) pkt.payload,
  )

  pub make_chunk-piece :
      (role remain s : ℕ) (first : Bool)
      → chunk_status role first remain ≡ some s
      → make_chunk role id addr pkt remain first ≡ some (piece s (chunk_size remain) remain)
  unfolding make_chunk
  make_chunk-piece role remain s first e =
      ap
        (λ (o : Option ℕ). elim o [
          | none ↦ none
          | some t ↦ some (piece t (chunk_size remain) remain)
        ])
        e

  chunks-piece :
      (rounds role remain s size : ℕ) (first : Bool)
      → chunk_size remain ≡ size
      → chunk_status role first remain ≡ some s
      → chunks (suc rounds) role id addr pkt remain first
        ≡ piece s size remain
          ∷ (if leb (remain - size) 0
              then []
              else chunks rounds role id addr pkt (remain - size) false)
  unfolding chunks
  chunks-piece rounds role remain s size first z e =
      ap
        (λ (o : Option Packet). elim o [
          | none ↦ []
          | some c ↦
              c
              ∷ (if leb (remain - chunk_size remain) 0
                  then []
                  else chunks rounds role id addr pkt (remain - chunk_size remain) false)
        ])
        (make_chunk-piece role remain s first e)
      ∙ ap
          (λ (n : ℕ).
            piece s n remain
            ∷ (if leb (remain - n) 0
                then []
                else chunks rounds role id addr pkt (remain - n) false))
          z

  pub chunks-last :
      (rounds role remain s : ℕ) (first : Bool)
      → remain ≤ max_packet_size
      → last_chunk_status role first ≡ some s
      → chunks (suc rounds) role id addr pkt remain first ≡ piece s remain remain ∷ []
  unfolding chunk_status
  chunks-last rounds role remain s first small e =
      let size : chunk_size remain ≡ remain = ground (arith, small) in
      let all_of_it : (chunk_size remain == remain) ≡ true = ground (arith, small) in
      let nothing_left : leb (remain - remain) 0 ≡ true = ground arith in
      chunks-piece rounds role remain s remain first size
        (if_true (chunk_size remain == remain) _ _ all_of_it ∙ e)
      ∙ ap (λ t. piece s remain remain ∷ t) (if_true (leb (remain - remain) 0) _ _ nothing_left)

  pub chunks-more :
      (rounds role remain s : ℕ) (first : Bool)
      → max_packet_size < remain
      → next_chunk_status role first ≡ some s
      → chunks (suc rounds) role id addr pkt remain first
        ≡ piece s max_packet_size remain
          ∷ chunks rounds role id addr pkt (remain - max_packet_size) false
  unfolding chunk_status
  chunks-more rounds role remain s first large e =
      let size : chunk_size remain ≡ max_packet_size = ground (arith, large) in
      let some_left : (chunk_size remain == remain) ≡ false = ground (arith, large) in
      let less : ltb (chunk_size remain) remain ≡ true = ground (arith, large) in
      let goes_on : leb (remain - max_packet_size) 0 ≡ false = ground (arith, large) in
      chunks-piece rounds role remain s max_packet_size first size (
        if_false (chunk_size remain == remain) _ _ some_left
        ∙ if_true (ltb (chunk_size remain) remain) _ _ less
        ∙ e)
      ∙ ap (λ t. piece s max_packet_size remain ∷ t)
          (if_false (leb (remain - max_packet_size) 0) _ _ goes_on)

  -- What remains of the data, and the chunks of it.
  abbrev left_of : ℕ → List ℕ
  left_of remain = drop (length pkt.payload - remain) pkt.payload

  pub last-left :
      (remain : ℕ)
      → remain ≤ length pkt.payload
      → take remain (left_of remain) ++ [] ≡ left_of remain
  last-left remain l =
      append-nil (take remain (left_of remain))
      ∙ take_all remain (left_of remain)
          (omega (arith, l, length-drop (length pkt.payload - remain) pkt.payload))

  pub more-left :
      (remain : ℕ)
      → max_packet_size < remain
      → remain ≤ length pkt.payload
      → take max_packet_size (left_of remain) ++ left_of (remain - max_packet_size) ≡ left_of remain
  more-left remain large l =
      let onward : length pkt.payload - (remain - max_packet_size)
          ≡ (length pkt.payload - remain) + max_packet_size =
        omega (arith, large, l) in
      ap (λ (n : ℕ). take max_packet_size (left_of remain) ++ drop n pkt.payload) onward
      ∙ ap (λ t. take max_packet_size (left_of remain) ++ t)
          (sym (drop-drop max_packet_size (length pkt.payload - remain) pkt.payload))
      ∙ take-append-drop max_packet_size (left_of remain)

  module _ (k : Checker) (role : ℕ) (r : IsSpokenBy k role) where
    -- Chunks that hold what remains, behind a first chunk.
    pub record GoesOn (remain : ℕ) (cs : List Packet) : Type 0 where
      pub same_data : all_data cs ≡ left_of remain
      pub sized : All IsSized cs
      pub middles : ℕ
      pub spelled : statuses_of cs ≡ replicate middles k.middle ++ (k.last ∷ [])

    one_more-GoesOn :
        (remain : ℕ) (cs : List Packet)
        → max_packet_size < remain
        → remain ≤ length pkt.payload
        → GoesOn (remain - max_packet_size) cs
        → GoesOn remain (piece k.middle max_packet_size remain ∷ cs)
    one_more-GoesOn remain cs large l g = record {
      same_data =
          ap (λ t. take max_packet_size (left_of remain) ++ t) g.same_data
          ∙ more-left remain large l;
      sized = (
        (
          omega (arith, length-piece k.middle max_packet_size remain (omega (arith, large)) l),
          omega (arith, length-piece k.middle max_packet_size remain (omega (arith, large)) l),
        ),
        g.sized,
      );
      middles = suc g.middles;
      spelled = ap (λ t. k.middle ∷ t) g.spelled;
    }

    only_last-GoesOn :
        (remain : ℕ)
        → 0 < remain
        → remain ≤ max_packet_size
        → remain ≤ length pkt.payload
        → GoesOn remain (piece k.last remain remain ∷ [])
    only_last-GoesOn remain some_left small l =
        let size = length-piece k.last remain remain (omega arith) l in
        record {
          same_data = last-left remain l;
          sized = ((omega (arith, size, some_left), omega (arith, size, small)), tt);
          middles = 0;
          spelled = refl;
        }

    pub chunks-GoesOn :
        (rounds remain : ℕ)
        → 0 < remain
        → remain ≤ length pkt.payload
        → remain ≤ rounds * max_packet_size
        → GoesOn remain (chunks rounds role id addr pkt remain false)
    chunks-GoesOn zero remain some_left l enough = absurd (omega (arith, some_left, enough))
    chunks-GoesOn (suc rounds) remain some_left l enough =
        let rest = λ (large : max_packet_size < remain).
          chunks-GoesOn rounds (remain - max_packet_size) (omega (arith, large)) (omega (arith, l))
            (omega (arith, enough)) in
        elim (small_or_large remain) [
          | inl small ↦
              subst (GoesOn remain) (sym (chunks-last rounds role remain k.last false small r.ends))
                (only_last-GoesOn remain some_left small l)
          | inr large ↦
              subst (GoesOn remain)
                (sym (chunks-more rounds role remain k.middle false large r.goes_on))
                (one_more-GoesOn remain _ large l (rest large))
        ]
