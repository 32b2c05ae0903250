-- ===== src/Bridge/Handshake/RoundTrip.antt =====
-- Encoding, framing and decoding of the Handshake packet.
use open_friend_mc.Prelude.{
  ℕ, ◌+◌, ◌*◌, ◌/◌, ◌%◌, ◌^◌, ◌<◌, ◌≤◌, ◌≡◌, sym, ap, ◌∙◌, arith, [], ◌++◌, append_assoc,
  append-nil, Bytes, length, length-append, take-append_length, drop-append_length, ok,
}
use open_friend_mc.Bridge.VarInt.{IsInt32, write_var_int, read_var_int}
use open_friend_mc.Bridge.VarInt.RoundTrip.{read_var_int-write_var_int}
use open_friend_mc.Bridge.VarInt.Reading.{read_var_int_count}
use open_friend_mc.Bridge.Handshake.{
  Handshake, IsValid, write_string, read_string, read_full, handshake_body, decode_handshake,
  encode_handshake, read_framed_packet, frame_of, packet, max_frame, max_address_len,
}

pub length-write_var_int : (v : ℕ) → IsInt32 v → length (write_var_int v) ≤ 5
length-write_var_int v h = (read_var_int_count _ (read_var_int-write_var_int v [] h)).1

read_full-append : (s rest : Bytes) → read_full (length s) (s ++ rest) ≡ ok (s, rest)
read_full-append s rest =
    ground (arith, length-append s rest, take-append_length s rest, drop-append_length s rest)

-- A string within the limit is read back, whatever bytes follow.
pub read_string-write_string :
    (max : ℕ) (s rest : Bytes)
    → length s ≤ max
    → max < 2 ^ 31
    → read_string max (write_string s ++ rest) ≡ ok (s, rest)
unfolding read_string write_string
read_string-write_string max s rest h small =
    rw
      (
        append_assoc,
        read_var_int-write_var_int (length s % 2 ^ 32) (s ++ rest) (omega arith),
        in_range (length s) (omega arith),
      )
      (ground (arith, read_full-append s rest))
  where
    in_range : (n : ℕ) → n < 2 ^ 31 → n % 2 ^ 32 ≡ n
    in_range n lt = omega arith

u16_bytes : (p : ℕ) → p < 2 ^ 16 → p / 256 % 256 * 256 + p % 256 ≡ p
u16_bytes p h = omega arith

read_last_var_int :
    (v : ℕ) → IsInt32 v → read_var_int (write_var_int v) ≡ ok (v, length (write_var_int v), [])
read_last_var_int v h =
    ap read_var_int (sym (append-nil (write_var_int v))) ∙ read_var_int-write_var_int v [] h

-- `decodeHandshake` undoes the body that `encodeHandshake` writes, when the fields have the range
-- of their Go types and the address has at most 510 bytes.
pub decode_handshake-handshake_body :
    (h : Handshake) → IsValid h → decode_handshake (handshake_body h) ≡ ok h
unfolding decode_handshake handshake_body
decode_handshake-handshake_body h v = rw (
  read_var_int-write_var_int 0 _ (omega arith),
  read_var_int-write_var_int h.protocol_version _ v.protocol_fits,
  read_string-write_string (max_address_len * 2) h.server_address _ v.address_fits (omega arith),
  u16_bytes h.server_port v.port_fits,
  read_last_var_int h.next_state v.state_fits,
)

-- The body of a valid packet is short, so its length is not cut and its frame is accepted.
pub length-handshake_body : (h : Handshake) → IsValid h → length (handshake_body h) ≤ 532
unfolding handshake_body write_string
length-handshake_body h v = simp length-append (
    omega (
      arith,
      length-write_var_int 0 (omega arith),
      length-write_var_int h.protocol_version v.protocol_fits,
      length-write_var_int (length h.server_address % 2 ^ 32) (omega arith),
      length-write_var_int h.next_state v.state_fits,
      v.address_fits,
    ))

in_range : (n : ℕ) → n ≤ max_frame → n % 2 ^ 32 ≡ n
in_range n h = omega arith

-- A body within the frame limit comes out of its frame again, and what stands behind the frame is
-- not taken.
frame_round_trip :
    (body rest : Bytes)
    → length body ≤ max_frame
    → read_framed_packet (write_var_int (length body % 2 ^ 32) ++ (body ++ rest))
      ≡ packet body (length (write_var_int (length body % 2 ^ 32)) + length body)
unfolding read_framed_packet frame_of
frame_round_trip body rest small =
    let prefix = write_var_int (length body % 2 ^ 32) in
    rw
      (
        read_var_int-write_var_int (length body % 2 ^ 32) (body ++ rest) (omega arith),
        frame_of,
        in_range (length body) small,
      )
      (ground (
        arith,
        length-append (write_var_int (length body)) (body ++ rest),
        length-append body rest,
        drop-append_length (write_var_int (length body)) (body ++ rest),
        take-append_length body rest,
      ))

-- The bytes that `encodeHandshake` makes of a valid packet are framed, and decode to that packet,
-- whatever follows them.
pub read_framed_packet-encode_handshake :
    (h : Handshake) (rest : Bytes)
    → IsValid h
    → (read_framed_packet (encode_handshake h ++ rest)
        ≡ packet (handshake_body h) (length (encode_handshake h)))
      × (decode_handshake (handshake_body h) ≡ ok h)
unfolding encode_handshake
read_framed_packet-encode_handshake h rest v =
    let body = handshake_body h in
    let prefix = write_var_int (length body % 2 ^ 32) in
    let short : length body ≤ max_frame = omega (arith, length-handshake_body h v) in
    (
      rw (append_assoc prefix body rest, length-append prefix body)
          (frame_round_trip body rest short),
      decode_handshake-handshake_body h v,
    )
