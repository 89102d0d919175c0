-- ===== src/ReadLoop/Reading.antt =====
-- What one round of a read loop takes from its input, in both directions.
use iip.Prelude.{
  ℕ, ◌+◌, ◌%◌, ◌^◌, ◌≤◌, ◌<◌, ◌≡◌, ◌≢◌, refl, ap, Bool, true, false, List, ◌∷◌, ◌++◌, Option, none,
  some, ltb, ◌==◌, length, length-append, arith,
}
use iip.Consts.{max_path_len, max_packet_size, packet_read_buf_size, packet_type_response, status_8}
use iip.Packet.{Packet, net_bytes}
use iip.Packet.Bytes.{
  uint32, read_byte, read_slice, read_full, HasNoNul, uint32-put_uint32, read_full-append,
  read_slice-append, read_full_parts, read_slice_parts,
}
use iip.Packet.RoundTrip.{net_bytes-append, read_uint32, read_byte_parts}
use iip.Status.{StatusError}
use iip.Status.Checker.{Check}
use iip.Connection.{
  Connection, Reason, get_channel, closed_by_peer, read_data_fail, invalid_channel_id,
  data_len_over_max, invalid_data_len,
}
use iip.ReadLoop.{
  Frame, packet, or_refused, refuse_if, refuse_status, read_data, read_channel, read_frame,
  packet_status_at,
}

-- The packet that arrives on the channel at an address.
abbrev pub arrived : Packet → ℕ → Packet
arrived p addr = record p { type = packet_type_response; dont_chunk = false; channel = some addr }

-- What a loop accepts of its peer, in the state that it is in.
pub record IsAccepted (check : Check) (m : Connection) (p : Packet) (addr : ℕ) : Type 0 where
  pub path_fits : length p.path ≤ max_path_len
  pub clean : HasNoNul p.path
  pub some_data : 0 < length p.payload
  pub data_fits : length p.payload ≤ max_packet_size
  pub id_fits : p.channel_id < 2 ^ 32
  pub goes_on : p.status ≢ status_8
  pub found : get_channel m p.channel_id ≡ some addr
  pub follows_on : check (packet_status_at m addr) p.status ≡ none

-- A packet that is accepted is taken off the input whole, and nothing behind it.
pub read_frame-net_bytes :
    (check : Check) (m : Connection) (p : Packet) (addr : ℕ) (rest : List ℕ)
    → IsAccepted check m p addr
    → read_frame check m (net_bytes p ++ rest) ≡ packet addr (arrived p addr) rest
unfolding read_frame read_byte
read_frame-net_bytes check m p addr rest a =
    let size : length p.payload % 2 ^ 32 ≡ length p.payload = omega (arith, a.data_fits) in
    let open_status : (p.status == status_8) ≡ false = ground (arith, a.goes_on) in
    let not_large : ltb max_packet_size (length p.payload) ≡ false = ground (arith, a.data_fits) in
    let not_empty : (length p.payload == 0) ≡ false = ground (arith, a.some_data) in
    rw (
      net_bytes-append,
      open_status,
      read_slice-append packet_read_buf_size p.path _ a.clean (omega (arith, a.path_fits)),
      read_uint32 p.channel_id,
      uint32-put_uint32 p.channel_id a.id_fits,
      a.found,
      a.follows_on,
      read_uint32 (length p.payload % 2 ^ 32),
      size,
      uint32-put_uint32 (length p.payload) (omega (arith, a.data_fits)),
      not_large,
      not_empty,
      read_full-append p.payload rest,
    )

-- What every packet taken off an input is, whatever the input.
pub record Taken (check : Check) (m : Connection) (input : List ℕ) (addr : ℕ) (p : Packet)
    (rest : List ℕ) : Type 0 where
  pub clean : HasNoNul p.path
  pub some_data : 0 < length p.payload
  pub data_fits : length p.payload ≤ max_packet_size
  pub goes_on : p.status ≢ status_8
  pub found : get_channel m p.channel_id ≡ some addr
  pub follows_on : check (packet_status_at m addr) p.status ≡ none
  pub shorter : length rest + length p.payload + length p.path + 10 ≡ length input

module _ {addr : ℕ} {p : Packet} {rest : List ℕ} where
  taken {ℓ κ} :
      {A : Type ℓ} {P : Type κ} (o : Option A) (e : Reason) (k : A → Frame)
      → or_refused o e k ≡ packet addr p rest
      → ((a : A) → o ≡ some a → k a ≡ packet addr p rest → P)
      → P
  taken none e k h then_ = cc
  taken (some a) e k h then_ = then_ a refl h

  not_refused :
      (b : Bool) (e : Reason) (k : Frame)
      → refuse_if b e k ≡ packet addr p rest
      → (b ≡ false) × (k ≡ packet addr p rest)
  not_refused true e k h = cc
  not_refused false e k h = (refl, h)

  status_passed :
      (o : Option StatusError) (k : Frame)
      → refuse_status o k ≡ packet addr p rest
      → (o ≡ none) × (k ≡ packet addr p rest)
  status_passed none k h = (refl, h)
  status_passed (some e) k h = cc

  packet_injective :
      {at : ℕ} {q : Packet} {left : List ℕ}
      → packet at q left ≡ packet addr p rest
      → (at ≡ addr) × (q ≡ p) × (left ≡ rest)
  packet_injective h = (cc, cc, cc)

-- What read_data takes.
abbrev DataTaken : ℕ → List ℕ → ℕ → ℕ → List ℕ → ℕ → Packet → List ℕ → Type 0
DataTaken status path channel_id at input addr p rest =
    (at ≡ addr)
    × (p.status ≡ status)
    × (p.path ≡ path)
    × (p.channel_id ≡ channel_id)
    × (0 < length p.payload)
    × (length p.payload ≤ max_packet_size)
    × (length rest + length p.payload + 4 ≡ length input)

four_left :
    (input : List ℕ) {four input₁ : List ℕ}
    → read_full 4 input ≡ some (four, input₁)
    → length input ≡ length input₁ + 4
four_left input {four} {input₁} e =
    let (whole, size) = read_full_parts 4 input e in
    omega (arith, ap length whole, length-append four input₁, size)

read_data-taken :
    (status : ℕ) (path : List ℕ) (channel_id at : ℕ) (input : List ℕ) (addr : ℕ) (p : Packet)
    (rest : List ℕ)
    → read_data status path channel_id at input ≡ packet addr p rest
    → DataTaken status path channel_id at input addr p rest
unfolding read_data
read_data-taken status path channel_id at input addr p rest h =
    taken (read_full 4 input) read_data_fail _ h λ (len, input₁) e₁ h₁.
      let (small, h₂) = not_refused (ltb max_packet_size (uint32 len)) data_len_over_max _ h₁ in
      let (some_data, h₃) = not_refused (uint32 len == 0) (invalid_data_len (uint32 len)) _ h₂ in
      taken (read_full (uint32 len) input₁) read_data_fail _ h₃ λ (payload, input₂) e₂ h₄.
        let (at_addr, same, left) = packet_injective h₄ in
        let (whole, size) = read_full_parts (uint32 len) input₁ e₂ in
        rw (← same, ← left)
          (
            at_addr,
            refl,
            refl,
            refl,
            ground (arith, size),
            ground (arith, size),
            omega (arith, four_left input e₁, ap length whole, length-append payload input₂),
          )

read_channel-taken :
    (check : Check) (m : Connection) (status : ℕ) (path input : List ℕ) (addr : ℕ) (p : Packet)
    (rest : List ℕ)
    → read_channel check m status path input ≡ packet addr p rest
    → (input₁ : List ℕ) × (id : ℕ) × (at : ℕ) × (length input ≡ length input₁ + 4)
      × (get_channel m id ≡ some at)
      × (check (packet_status_at m at) status ≡ none)
      × DataTaken status path id at input₁ addr p rest
unfolding read_channel
read_channel-taken check m status path input addr p rest h =
    taken (read_full 4 input) read_data_fail _ h λ (id, input₁) e₁ h₁.
      taken (get_channel m (uint32 id)) (invalid_channel_id (uint32 id)) _ h₁ λ at found h₂.
        let (passed, h₃) = status_passed (check (packet_status_at m at) status) _ h₂ in
        (
          input₁,
          uint32 id,
          at,
          four_left input e₁,
          found,
          passed,
          read_data-taken status path (uint32 id) at input₁ addr p rest h₃,
        )

pub read_frame-Taken :
    (check : Check) (m : Connection) (input : List ℕ) (addr : ℕ) (p : Packet) (rest : List ℕ)
    → read_frame check m input ≡ packet addr p rest
    → Taken check m input addr p rest
unfolding read_frame
read_frame-Taken check m input addr p rest h =
    taken (read_byte input) read_data_fail _ h λ (status, input₁) e₁ h₁.
      let (goes_on, h₂) = not_refused (status == status_8) closed_by_peer _ h₁ in
      taken (read_slice packet_read_buf_size input₁) read_data_fail _ h₂ λ (path, input₂) e₂ h₃.
        let (input₃, id, at, four, found, passed, taken_data) =
          read_channel-taken check m status path input₂ addr p rest h₃ in
        let (at_addr, same_status, same_path, same_id, some_data, fits, size) = taken_data in
        let (whole, clean, _) = read_slice_parts packet_read_buf_size input₁ e₂ in
        record {
          clean = rw same_path clean;
          some_data = some_data;
          data_fits = fits;
          goes_on = rw same_status (ground (arith, goes_on));
          found = rw (← at_addr, same_id) found;
          follows_on = rw (← at_addr, same_status) passed;
          shorter = omega (
            arith,
            size,
            four,
            ap length same_path,
            ap length whole,
            length-append path (0 ∷ input₂),
            ap length (read_byte_parts input e₁),
          );
        }
