-- ===== src/Packet/RoundTrip.antt =====
-- CreateNetPacket and ReadPacket against one another.
use iip.Prelude.{
  ℕ, ◌%◌, ◌^◌, ◌≤◌, ◌<◌, ◌≡◌, refl, sym, ◌∙◌, false, List, [], ◌∷◌, ◌++◌, Option, none, some,
  length, All, All-split, append_assoc, arith,
}
use iip.Consts.{max_path_len, max_packet_size, packet_read_buf_size, packet_type_response}
use iip.Packet.{
  Packet, Error, read_error, Result, ok, ◌>>=◌, or_fail, net_bytes, create_net_packet, read_packet,
}
use iip.Packet.Bytes.{
  put_uint32, uint32, read_byte, read_full, read_slice, HasNoNul, uint32-put_uint32, IsByte,
  put_uint32-uint32, uint32-lt, read_full-append, read_slice-append, read_full_parts,
  read_slice_parts,
}

-- The packet that the other side makes of a packet that was sent.
abbrev pub received : Packet → Packet
received p = record p { type = packet_type_response; dont_chunk = false; channel = none }

-- The packets that CreateNetPacket accepts are within the limits.
pub create_net_packet_limits :
    (p : Packet) {bts : List ℕ}
    → create_net_packet p ≡ ok bts
    → (bts ≡ net_bytes p) × (length p.path ≤ max_path_len) × (length p.payload ≤ max_packet_size)
unfolding create_net_packet
create_net_packet_limits p e = ground arith

pub read_uint32 :
    (v : ℕ) (rest : List ℕ) → read_full 4 (put_uint32 v ++ rest) ≡ some (put_uint32 v, rest)
unfolding read_full put_uint32
read_uint32 v rest = refl

-- The bytes in the order in which they are read.
pub net_bytes-append :
    (p : Packet) (rest : List ℕ)
    → net_bytes p ++ rest
      ≡ p.status
        ∷ (p.path
            ++ (0
                ∷ (put_uint32 p.channel_id
                    ++ (put_uint32 (length p.payload % 2 ^ 32) ++ (p.payload ++ rest)))))
unfolding net_bytes
net_bytes-append p rest = simp append_assoc

read_packet-net_bytes :
    (p : Packet) (rest : List ℕ)
    → length p.path < packet_read_buf_size
    → length p.payload < 2 ^ 32
    → HasNoNul p.path
    → p.channel_id < 2 ^ 32
    → read_packet (net_bytes p ++ rest) ≡ ok (received p)
unfolding read_packet read_byte
read_packet-net_bytes p rest fits_path fits_data clean fits_id =
    let size : length p.payload % 2 ^ 32 ≡ length p.payload = omega arith in
    rw (
      net_bytes-append,
      read_slice-append packet_read_buf_size p.path _ clean fits_path,
      read_uint32 p.channel_id,
      read_uint32 (length p.payload % 2 ^ 32),
      size,
      uint32-put_uint32 (length p.payload) fits_data,
      read_full-append p.payload rest,
      uint32-put_uint32 p.channel_id fits_id,
    )

-- A packet that CreateNetPacket accepts, with no NUL in its path and a channel id of 32 bits, is
-- read back by ReadPacket from its bytes, whatever follows them: with the same status, path,
-- channel id and data, and the type of a response.
pub read_packet-create_net_packet :
    (p : Packet) (bts rest : List ℕ)
    → create_net_packet p ≡ ok bts
    → HasNoNul p.path
    → p.channel_id < 2 ^ 32
    → read_packet (bts ++ rest) ≡ ok (received p)
read_packet-create_net_packet p bts rest created clean fits_id =
    let (bytes, path_fits, data_fits) = create_net_packet_limits p created in
    rw bytes (read_packet-net_bytes p rest (omega arith) (omega arith) clean fits_id)

-- What ReadPacket took from the stream to make a packet.
pub record Reads (xs : List ℕ) (q : Packet) : Type 0 where
  pub id_bytes : List ℕ
  pub len_bytes : List ℕ
  pub left : List ℕ
  pub stream : xs ≡ q.status ∷ (q.path ++ (0 ∷ (id_bytes ++ (len_bytes ++ (q.payload ++ left)))))
  pub id_size : length id_bytes ≡ 4
  pub len_size : length len_bytes ≡ 4
  pub id_value : q.channel_id ≡ uint32 id_bytes
  pub len_value : length q.payload ≡ uint32 len_bytes
  pub clean : HasNoNul q.path
  pub path_fits : length q.path < packet_read_buf_size

-- A bind that gave a result, taken apart.
pub bind_ok {ℓ κ μ} :
    {A : Type ℓ} {B : Type κ} {P : Type μ} (o : Option A) (e : Error) (f : A → Result B) {b : B}
    → (or_fail o e >>= f) ≡ ok b
    → ((a : A) → o ≡ some a → f a ≡ ok b → P)
    → P
bind_ok none e f h k = cc
bind_ok (some a) e f h k = k a refl h

pub ok_injective {ℓ} : {A : Type ℓ} {a b : A} → ok a ≡ ok b → a ≡ b
ok_injective h = cc

pub read_byte_parts :
    (xs : List ℕ) {s : ℕ} {left : List ℕ} → read_byte xs ≡ some (s, left) → xs ≡ s ∷ left
unfolding read_byte
read_byte_parts [] e = cc
read_byte_parts (x ∷ xs) e = ground arith

Reads-made :
    (xs : List ℕ) {s : ℕ} {path id len bytes xs₁ xs₂ xs₃ xs₄ left : List ℕ}
    → read_byte xs ≡ some (s, xs₁)
    → read_slice packet_read_buf_size xs₁ ≡ some (path, xs₂)
    → read_full 4 xs₂ ≡ some (id, xs₃)
    → read_full 4 xs₃ ≡ some (len, xs₄)
    → read_full (uint32 len) xs₄ ≡ some (bytes, left)
    → Reads xs (record {
      type = packet_type_response;
      status = s;
      path = path;
      channel_id = uint32 id;
      payload = bytes;
      dont_chunk = false;
      channel = none;
    })
unfolding read_byte
Reads-made xs {id} {len} {left} e₁ e₂ e₃ e₄ e₅ =
    let (path_bytes, clean, path_fits) = read_slice_parts packet_read_buf_size _ e₂ in
    let (id_stream, id_size) = read_full_parts 4 _ e₃ in
    let (len_stream, len_size) = read_full_parts 4 _ e₄ in
    let (data_stream, data_size) = read_full_parts _ _ e₅ in
    record {
      id_bytes = id;
      len_bytes = len;
      left = left;
      stream = cc (read_byte_parts xs e₁, path_bytes, id_stream, len_stream, data_stream);
      id_size = id_size;
      len_size = len_size;
      id_value = refl;
      len_value = data_size;
      clean = clean;
      path_fits = path_fits;
    }

pub read_packet-Reads : (xs : List ℕ) (q : Packet) → read_packet xs ≡ ok q → Reads xs q
unfolding read_packet
read_packet-Reads xs q h = bind_ok (read_byte xs) read_error _ h λ (s, xs₁) e₁ h₁.
    bind_ok (read_slice packet_read_buf_size xs₁) read_error _ h₁ λ (path, xs₂) e₂ h₂.
      bind_ok (read_full 4 xs₂) read_error _ h₂ λ (id, xs₃) e₃ h₃.
        bind_ok (read_full 4 xs₃) read_error _ h₃ λ (len, xs₄) e₄ h₄.
          bind_ok (read_full (uint32 len) xs₄) read_error _ h₄
            λ (bytes, left) e₅ h₅. rw (ok_injective h₅) at (Reads-made xs e₁ e₂ e₃ e₄ e₅)

four_bytes : (xs : List ℕ) → length xs ≡ 4 → All IsByte xs → put_uint32 (uint32 xs) ≡ xs
four_bytes (a ∷ b ∷ c ∷ d ∷ []) e (ha, (hb, (hc, (hd, _)))) = put_uint32-uint32 a b c d ha hb hc hd
four_bytes [] e h = absurd (omega arith)
four_bytes (a ∷ []) e h = absurd (omega arith)
four_bytes (a ∷ b ∷ []) e h = absurd (omega arith)
four_bytes (a ∷ b ∷ c ∷ []) e h = absurd (omega arith)
four_bytes (a ∷ b ∷ c ∷ d ∷ f ∷ xs) e h = absurd (omega arith)

four_bytes-lt : (xs : List ℕ) → length xs ≡ 4 → All IsByte xs → uint32 xs < 2 ^ 32
four_bytes-lt (a ∷ b ∷ c ∷ d ∷ []) e (ha, (hb, (hc, (hd, _)))) = uint32-lt a b c d ha hb hc hd
four_bytes-lt [] e h = absurd (omega arith)
four_bytes-lt (a ∷ []) e h = absurd (omega arith)
four_bytes-lt (a ∷ b ∷ []) e h = absurd (omega arith)
four_bytes-lt (a ∷ b ∷ c ∷ []) e h = absurd (omega arith)
four_bytes-lt (a ∷ b ∷ c ∷ d ∷ f ∷ xs) e h = absurd (omega arith)

Reads-net_bytes :
    (xs : List ℕ) (q : Packet) → All IsByte xs → (r : Reads xs q) → xs ≡ net_bytes q ++ r.left
Reads-net_bytes xs q bytes r =
    let parts : All IsByte
        (q.status ∷ (q.path ++ (0 ∷ (r.id_bytes ++ (r.len_bytes ++ (q.payload ++ r.left)))))) =
      rw r.stream at bytes in
    let ids = All-split IsByte r.id_bytes _ (All-split IsByte q.path _ parts.1).1.1 in
    let lens = All-split IsByte r.len_bytes _ ids.1 in
    let len_fits : length q.payload < 2 ^ 32 =
      rw r.len_value (four_bytes-lt r.len_bytes r.len_size lens.0) in
    let whole : length q.payload % 2 ^ 32 ≡ length q.payload = omega arith in
    r.stream
    ∙ sym (
        rw (
          net_bytes-append,
          whole,
          r.id_value,
          r.len_value,
          four_bytes r.id_bytes r.id_size ids.0,
          four_bytes r.len_bytes r.len_size lens.0,
        ))

-- Whatever stream of bytes ReadPacket takes a packet from, it begins with the bytes that
-- CreateNetPacket lays out for that packet: nothing in the stream is reinterpreted or skipped.
pub net_bytes-read_packet :
    (xs : List ℕ) (q : Packet)
    → All IsByte xs
    → read_packet xs ≡ ok q
    → (left : List ℕ) × (xs ≡ net_bytes q ++ left)
net_bytes-read_packet xs q bytes h =
    let r = read_packet-Reads xs q h in (r.left, Reads-net_bytes xs q bytes r)
