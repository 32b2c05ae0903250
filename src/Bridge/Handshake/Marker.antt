-- ===== src/Bridge/Handshake/Marker.antt =====
-- internal/bridge/handshake.go: `InjectBypassMarker`. `rand.Read` is the nonce that it delivers, or
-- none on its error; HMAC-SHA-256 is a function of the key and the message.
use open_friend_mc.Prelude.{
  ℕ, ◌+◌, ◌-◌, ◌*◌, ◌/◌, ◌%◌, ◌≡◌, arith, [], ◌∷◌, ◌++◌, Bytes, length, length-append, ltb,
  if◌then◌else◌, Option, none, some, Result, ok, err, codes,
}
use open_friend_mc.Bridge.Handshake.{max_address_len}

pub data MarkerError : Type 0 where
  no_random : MarkerError
  too_long : ℕ → MarkerError

abbrev bypass_marker_segment : Bytes
bypass_marker_segment = codes "openfriend"

abbrev pub bypass_nonce_bytes : ℕ
bypass_nonce_bytes = 12

-- The digit of `base64.RawStdEncoding` for six bits.
abbrev base64_digit : ℕ → ℕ
base64_digit d =
    if ltb d 26
    then b'A' + d
    else if ltb d 52
    then b'a' + (d - 26)
    else if ltb d 62
    then b'0' + (d - 52)
    else if ltb d 63
    then b'+'
    else b'/'

-- `base64.RawStdEncoding.EncodeToString`: four digits for three bytes, no padding.
pub base64 : Bytes → Bytes
base64 [] = []
base64 (a ∷ []) = base64_digit (a / 4) ∷ base64_digit (a % 4 * 16) ∷ []
base64 (a ∷ b ∷ []) =
    base64_digit (a / 4) ∷ base64_digit (a % 4 * 16 + b / 16) ∷ base64_digit (b % 16 * 4) ∷ []
base64 (a ∷ b ∷ c ∷ s) =
    base64_digit (a / 4)
    ∷ base64_digit (a % 4 * 16 + b / 16)
    ∷ base64_digit (b % 16 * 4 + c / 64)
    ∷ base64_digit (c % 64)
    ∷ base64 s

-- The length test at the end of `InjectBypassMarker`.
abbrev within_limit : Bytes → Result MarkerError Bytes
within_limit out = if ltb max_address_len (length out) then err (too_long (length out)) else ok out

module _ (hmac : Bytes → Bytes → Bytes) where
  -- What stands behind the address: the segment, the nonce and its signature.
  pub marker : Bytes → Bytes → Bytes
  unfolding base64
  marker key nonce =
      0 ∷ (bypass_marker_segment ++ (0 ∷ (base64 nonce ++ (0 ∷ base64 (hmac key (base64 nonce))))))

  unfoldable pub inject_bypass_marker : Bytes → Bytes → Option Bytes → Result MarkerError Bytes
  inject_bypass_marker address key none = err no_random
  inject_bypass_marker address key (some nonce) = within_limit (address ++ marker key nonce)

length-base64 : (s : Bytes) → length (base64 s) ≡ (length s * 4 + 2) / 3
unfolding base64
length-base64 [] = omega arith
length-base64 (a ∷ []) = omega arith
length-base64 (a ∷ b ∷ []) = omega arith
length-base64 (a ∷ b ∷ c ∷ s) = omega (arith, length-base64 s)

out_of_room :
    (address m : Bytes)
    → length m ≡ 72
    → within_limit (address ++ m) ≡ (
        if ltb 183 (length address)
        then err (too_long (length address + 72))
        else ok (address ++ m))
out_of_room address m h = ground (arith, length-append address m)

module _ (hmac : Bytes → Bytes → Bytes) (key nonce : Bytes) where
  length-marker :
      length nonce ≡ bypass_nonce_bytes
      → length (hmac key (base64 nonce)) ≡ 32
      → length (marker hmac key nonce) ≡ 72
  unfolding marker
  length-marker n h = omega (
    arith,
    length-append (base64 nonce) (0 ∷ base64 (hmac key (base64 nonce))),
    length-base64 nonce,
    length-base64 (hmac key (base64 nonce)),
  )

  -- With a nonce of 12 bytes and a signature of 32 the marker takes 72 bytes: an address of at most
  -- 183 bytes gets it appended, and a longer one is refused with the length it would have had.
  pub inject_bypass_marker_room :
      (address : Bytes)
      → length nonce ≡ bypass_nonce_bytes
      → length (hmac key (base64 nonce)) ≡ 32
      → inject_bypass_marker hmac address key (some nonce) ≡ (
          if ltb 183 (length address)
          then err (too_long (length address + 72))
          else ok (address ++ marker hmac key nonce))
  unfolding inject_bypass_marker
  inject_bypass_marker_room address n h =
      out_of_room address (marker hmac key nonce) (length-marker n h)
