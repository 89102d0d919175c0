-- ===== src/Packet/Limits.antt =====
-- What CreateNetPacket refuses, and what ReadPacket does with a stream that ends too early.
use iip.Prelude.{
  ℕ, ◌+◌, ◌%◌, ◌^◌, ◌≤◌, ◌<◌, ◌≡◌, ◌⊎◌, inl, inr, ap, List, [], ◌∷◌, ◌++◌, some, length,
  length-append, append-nil, arith,
}
use iip.Consts.{max_path_len, max_packet_size, packet_read_buf_size, status_8}
use iip.Packet.{
  Packet, read_error, path_too_large, data_too_large, invalid_path, ok, err, net_bytes,
  create_net_packet, read_packet,
}
use iip.Packet.Bytes.{
  put_uint32, uint32, read_byte, read_full, read_slice, HasNoNul, read_full-append_some,
  read_slice-append_some,
}
use iip.Packet.RoundTrip.{
  received, create_net_packet_limits, read_packet-create_net_packet, read_packet-Reads, bind_ok,
  ok_injective, Reads,
}

-- The packets that can be sent.
pub record IsSendable (p : Packet) : Type 0 where
  pub path_fits : length p.path ≤ max_path_len
  pub data_fits : length p.payload ≤ max_packet_size
  pub has_path : (p.status ≡ status_8) ⊎ (0 < length p.path)

pub length-net_bytes : (p : Packet) → length (net_bytes p) ≡ length p.path + length p.payload + 10
unfolding net_bytes put_uint32
length-net_bytes p = omega (
  arith,
  length-append p.path
      (0 ∷ (put_uint32 p.channel_id ++ (put_uint32 (length p.payload % 2 ^ 32) ++ p.payload))),
)

abbrev pub IsRefused : Packet → Type 0
IsRefused p =
    (create_net_packet p ≡ err path_too_large)
    ⊎ ((create_net_packet p ≡ err data_too_large) ⊎ (create_net_packet p ≡ err invalid_path))

-- CreateNetPacket makes bytes of exactly the packets whose path has at most 2048 bytes, whose data
-- has at most 16 MiB, and which have a path or close the connection: 10 bytes more than the path
-- and the data have. Every other packet is refused, with one of the three errors.
pub create_net_packet_cases :
    (p : Packet)
    → (IsSendable p
        × (create_net_packet p ≡ ok (net_bytes p))
        × (length (net_bytes p) ≡ length p.path + length p.payload + 10))
      ⊎ ((¬ IsSendable p) × IsRefused p)
unfolding create_net_packet
create_net_packet_cases p = ground (arith, length-net_bytes p)

read_byte-append_some :
    (xs more : List ℕ) {s : ℕ} {left : List ℕ}
    → read_byte xs ≡ some (s, left)
    → read_byte (xs ++ more) ≡ some (s, left ++ more)
unfolding read_byte
read_byte-append_some [] more e = cc
read_byte-append_some (x ∷ xs) more e = ground arith

read_packet-append :
    (xs more : List ℕ) (q : Packet) → read_packet xs ≡ ok q → read_packet (xs ++ more) ≡ ok q
unfolding read_packet
read_packet-append xs more q h = bind_ok (read_byte xs) read_error _ h λ (s, xs₁) e₁ h₁.
    bind_ok (read_slice packet_read_buf_size xs₁) read_error _ h₁ λ (path, xs₂) e₂ h₂.
      bind_ok (read_full 4 xs₂) read_error _ h₂ λ (id, xs₃) e₃ h₃.
        bind_ok (read_full 4 xs₃) read_error _ h₃ λ (len, xs₄) e₄ h₄.
          bind_ok (read_full (uint32 len) xs₄) read_error _ h₄ λ (bytes, left) e₅ h₅.
            let same = ok_injective h₅ in
            rw (
              read_byte-append_some xs more e₁,
              read_slice-append_some packet_read_buf_size xs₁ more e₂,
              read_full-append_some 4 xs₂ more e₃,
              read_full-append_some 4 xs₃ more e₄,
              read_full-append_some (uint32 len) xs₄ more e₅,
              same,
            )

Reads-size :
    (xs : List ℕ) (q : Packet) → Reads xs q → length q.path + length q.payload + 10 ≤ length xs
Reads-size xs q r = omega (
  arith,
  r.id_size,
  r.len_size,
  ap length r.stream,
  length-append q.path (0 ∷ (r.id_bytes ++ (r.len_bytes ++ (q.payload ++ r.left)))),
  length-append r.id_bytes (r.len_bytes ++ (q.payload ++ r.left)),
  length-append r.len_bytes (q.payload ++ r.left),
  length-append q.payload r.left,
)

read_packet_cases :
    (xs : List ℕ) → ((q : Packet) × (read_packet xs ≡ ok q)) ⊎ (read_packet xs ≡ err read_error)
unfolding read_packet
read_packet_cases xs = ground arith

-- A stream that ends before the last byte of a packet that CreateNetPacket made, whose path has no
-- NUL byte and whose channel id is below 2 ^ 32, is a read error: ReadPacket makes no packet of the
-- front of such a packet's bytes.
pub read_packet_truncated :
    (p : Packet) (bts front back : List ℕ) (x : ℕ)
    → create_net_packet p ≡ ok bts
    → HasNoNul p.path
    → p.channel_id < 2 ^ 32
    → bts ≡ front ++ (x ∷ back)
    → read_packet front ≡ err read_error
read_packet_truncated p bts front back x created clean fits_id split =
    elim (read_packet_cases front) [
      | inl (q, e) ↦
          let whole : read_packet bts ≡ ok (received p) =
            rw append-nil at (read_packet-create_net_packet p bts [] created clean fits_id) in
          let same : q ≡ received p =
            ok_injective (cc (read_packet-append front (x ∷ back) q e, whole, split)) in
          absurd (
            omega (
              arith,
              ap (λ (r : Packet). length r.path) same,
              ap (λ (r : Packet). length r.payload) same,
              Reads-size front q (read_packet-Reads front q e),
              length-append front (x ∷ back),
              ap length split,
              ap length (create_net_packet_limits p created).0,
              length-net_bytes p,
            ))
      | inr e ↦ e
    ]
