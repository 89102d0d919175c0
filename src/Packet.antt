-- ===== src/Packet.antt =====
-- protocol.go: the packet, and its bytes on the wire (CreateNetPacket, ReadPacket).
-- A byte is a number below 256, and a []byte or a string is the list of its bytes.
pub mod Bytes
pub mod RoundTrip
pub mod Limits
mod Tests
use iip.Prelude.{
  ℕ, zero, suc, ◌+◌, ◌^◌, ◌%◌, ◌<◌, ◌≡◌, Bool, false, ◌&&◌, not, List, [], ◌∷◌, ◌++◌, Option, none,
  ltb, ◌==◌, if◌then◌else◌, length, All,
}
use iip.Consts.{max_path_len, max_packet_size, packet_read_buf_size, packet_type_response, status_8}
use Bytes.{put_uint32, uint32, ReadFull, read_full, read_byte, read_slice}

-- Packet, less the url.Values cached by parsePath and its lock. `channel` is the address of the
-- channel that the packet belongs to, with none for nil.
pub record Packet : Type 0 where
  pub type : ℕ
  pub status : ℕ
  pub path : List ℕ
  pub channel_id : ℕ
  pub payload : List ℕ
  pub dont_chunk : Bool
  pub channel : Option ℕ

-- The errors of CreateNetPacket and of ReadPacket, one for each message.
pub data Error : Type 0 where
  path_too_large data_too_large invalid_path : Error
  read_error : Error

pub data Result {ℓ} (Value : Type ℓ) : Type ℓ where
  err : Error → Result Value
  ok : Value → Result Value

infixl 5 ◌>>=◌
abbrev pub ◌>>=◌ {ℓ κ} :
    {Value : Type ℓ} {Next : Type κ} → Result Value → (Value → Result Next) → Result Next
err failure >>= next = err failure
ok value >>= next = next value

abbrev pub or_fail {ℓ} : {A : Type ℓ} → Option A → Error → Result A
or_fail (Option.some a) e = ok a
or_fail none e = err e

abbrev pub is_empty : List ℕ → Bool
is_empty xs = length xs == 0

-- The bytes that CreateNetPacket appends: status, path, NUL, channel id, data length, data.
unfoldable pub net_bytes : Packet → List ℕ
net_bytes p =
    p.status
    ∷ (p.path
        ++ (0 ∷ (put_uint32 p.channel_id ++ (put_uint32 (length p.payload % 2 ^ 32) ++ p.payload))))

unfoldable pub create_net_packet : Packet → Result (List ℕ)
create_net_packet p =
    if ltb max_path_len (length p.path)
    then err path_too_large
    else if ltb max_packet_size (length p.payload)
    then err data_too_large
    else if not (p.status == status_8) && is_empty p.path
    then err invalid_path
    else ok (net_bytes p)

-- ReadPacket reads through a bufio.Reader of its own, and what that holds beyond the packet is
-- lost with it: the result is the packet alone.
unfoldable pub read_packet : List ℕ → Result Packet
read_packet input = do
  (status, input₁) ← or_fail (read_byte input) read_error
  (path, input₂) ← or_fail (read_slice packet_read_buf_size input₁) read_error
  (bts_channel_id, input₃) ← or_fail (read_full 4 input₂) read_error
  (bts_data_len, input₄) ← or_fail (read_full 4 input₃) read_error
  (payload, _) ← or_fail (read_full (uint32 bts_data_len) input₄) read_error
  ok (record {
    type = packet_type_response;
    status = status;
    path = path;
    channel_id = uint32 bts_channel_id;
    payload = payload;
    dont_chunk = false;
    channel = none;
  })
