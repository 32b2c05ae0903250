-- ===== src/Bridge/Handshake.antt =====
-- internal/bridge/handshake.go: the strings, the Handshake packet, its frame and the bypass marker.
-- A string is its bytes; an int32 is as in VarInt. `bytes.Reader` and `bytes.Buffer` are the bytes
-- unread and the bytes written.
pub mod Marker
pub mod RoundTrip
pub mod Frame
use open_friend_mc.Prelude.{
  ℕ, ◌+◌, ◌*◌, ◌/◌, ◌%◌, ◌^◌, ◌<◌, ◌≤◌, ◌≡◌, refl, Bool, ◌||◌, [], ◌∷◌, ◌++◌, Bytes, length, take,
  drop, ltb, ◌==◌, comparable_nat, not, if◌then◌else◌, Result, ok, err, ◌>>=◌, ◌>>◌, fail_if,
  map_err, codes,
}
use open_friend_mc.Bridge.VarInt.{
  ReadError, eof, unexpected_eof, bad_length, IsInt32, is_negative, write_var_int, read_var_int,
}

abbrev pub max_address_len : ℕ
max_address_len = 255

pub record Handshake : Type 0 where
  pub protocol_version : ℕ
  pub server_address : Bytes
  pub server_port : ℕ
  pub next_state : ℕ

-- The field that `decodeHandshake` names in front of the reader's error.
pub data DecodeError : Type 0 where
  packet_id protocol address port next : ReadError → DecodeError
  not_handshake : ℕ → DecodeError

unfoldable pub write_string : Bytes → Bytes
write_string s = write_var_int (length s % 2 ^ 32) ++ s

-- `io.ReadFull` into a buffer of `n` bytes.
abbrev pub read_full : ℕ → Bytes → Result ReadError (Bytes × Bytes)
read_full n bs =
    if ltb (length bs) n
    then (if length bs == 0 then err eof else err unexpected_eof)
    else ok (take n bs, drop n bs)

unfoldable pub read_string : ℕ → Bytes → Result ReadError (Bytes × Bytes)
read_string max_len bs = do
  (n, _, rest) ← read_var_int bs
  fail_if (is_negative n || ltb max_len n) bad_length
  read_full n rest

-- `binary.Read` and `binary.Write` of a uint16, most significant byte first.
abbrev pub read_u16 : Bytes → Result ReadError (ℕ × Bytes)
read_u16 [] = err eof
read_u16 (_ ∷ []) = err unexpected_eof
read_u16 (hi ∷ lo ∷ bs) = ok (hi * 256 + lo, bs)

abbrev pub write_u16 : ℕ → Bytes
write_u16 p = (p / 256 % 256) ∷ (p % 256) ∷ []

unfoldable pub decode_handshake : Bytes → Result DecodeError Handshake
decode_handshake payload = do
  (id, _, r) ← map_err packet_id (read_var_int payload)
  fail_if (not (id == 0)) (not_handshake id)
  (proto, _, r) ← map_err protocol (read_var_int r)
  (addr, r) ← map_err address (read_string (max_address_len * 2) r)
  (p, r) ← map_err port (read_u16 r)
  (state, _, _) ← map_err next (read_var_int r)
  ok (record {
    protocol_version = proto;
    server_address = addr;
    server_port = p;
    next_state = state;
  })

-- The body of `encodeHandshake`'s packet.
unfoldable pub handshake_body : Handshake → Bytes
handshake_body h =
    write_var_int 0
    ++ (write_var_int h.protocol_version
        ++ (write_string h.server_address
            ++ (write_u16 h.server_port ++ write_var_int h.next_state)))

unfoldable pub encode_handshake : Handshake → Bytes
encode_handshake h = let body = handshake_body h in write_var_int (length body % 2 ^ 32) ++ body

-- `(payload, consumed, ok, err)` of `readFramedPacket`: not enough bytes yet, an error, or a packet
-- with the number of bytes that it took.
pub data Framed : Type 0 where
  incomplete : Framed
  failed : ReadError → Framed
  packet : Bytes → ℕ → Framed

abbrev pub max_frame : ℕ
max_frame = 2 * 1024 * 1024

-- What `readFramedPacket` makes of the length in front of the buffer.
frame_of : Bytes → Result ReadError (ℕ × ℕ × Bytes) → Framed
frame_of buf (err ReadError.eof) = incomplete
frame_of buf (err ReadError.unexpected_eof) = incomplete
frame_of buf (err e) = failed e
frame_of buf (ok (len, len_size, _)) =
    if is_negative len || ltb max_frame len
    then failed bad_length
    else if ltb (length buf) (len_size + len)
    then incomplete
    else packet (take len (drop len_size buf)) (len_size + len)

unfoldable pub read_framed_packet : Bytes → Framed
unfolding frame_of
read_framed_packet buf = frame_of buf (read_var_int buf)

-- The ranges of the Go types, and an address that `decodeHandshake` accepts.
pub record IsValid (h : Handshake) : Type 0 where
  pub protocol_fits : IsInt32 h.protocol_version
  pub address_fits : length h.server_address ≤ max_address_len * 2
  pub port_fits : h.server_port < 2 ^ 16
  pub state_fits : IsInt32 h.next_state
