-- ===== src/Bridge/HostSession/Delivery.antt =====
-- What the server reads of a client that sends a Handshake packet, and of one with no bypass key.
use open_friend_mc.Prelude.{
  ◌≤◌, ◌≡◌, ap, List, [], ◌∷◌, ◌++◌, append_assoc, append-nil, Bytes, length, drop-append_length,
  concat, Option, none, some, le→ltb,
}
use open_friend_mc.Bridge.Tcp.{TcpBridge, IsLive}
use open_friend_mc.Bridge.Handshake.{Handshake, IsValid, encode_handshake, handshake_body}
use open_friend_mc.Bridge.Handshake.Marker.{
  marker, base64, bypass_nonce_bytes, inject_bypass_marker_room,
}
use open_friend_mc.Bridge.Handshake.RoundTrip.{read_framed_packet-encode_handshake}
use open_friend_mc.Bridge.HostSession.{
  HostSession, marked_handshake, re_encode, on_peer_data, on_peer_messages, through,
}
use open_friend_mc.Bridge.HostSession.Relay.{forwarded, feed_or_close_live}

module _ (hmac : Bytes → Bytes → Bytes) (key nonce : Bytes) where
  abbrev pub with_marker : Handshake → Handshake
  with_marker h = record h { server_address = h.server_address ++ marker hmac key nonce }

  module _ (long_nonce : length nonce ≡ bypass_nonce_bytes)
      (long_mac : length (hmac key (base64 nonce)) ≡ 32) where
    marked_body :
        (h : Handshake)
        → IsValid h
        → length h.server_address ≤ 183
        → marked_handshake hmac key (some nonce) (handshake_body h)
          ≡ some (encode_handshake (with_marker h))
    unfolding marked_handshake
    marked_body h v room = rw (
      (read_framed_packet-encode_handshake h [] v).1,
      re_encode,
      inject_bypass_marker_room hmac key nonce h.server_address long_nonce long_mac,
      le→ltb (length h.server_address) 183 room,
    )

    -- With a nonce of 12 bytes and a signature of 32, a valid Handshake packet whose address has
    -- at most 183 bytes is forwarded as the same packet with the marker behind the address,
    -- followed by what the client sent after it.
    pub forwarded-encode_handshake :
        (h : Handshake) (rest : Bytes)
        → IsValid h
        → length h.server_address ≤ 183
        → forwarded hmac key (some nonce) (encode_handshake h ++ rest)
          ≡ encode_handshake (with_marker h) ++ rest
    unfolding forwarded
    forwarded-encode_handshake h rest v room = rw (
      (read_framed_packet-encode_handshake h rest v).0,
      marked_body h v room,
      drop-append_length (encode_handshake h) rest,
    )

unmarked_step :
    (hmac : Bytes → Bytes → Bytes) (random : Option Bytes) (ps : HostSession) (b : TcpBridge)
    (bytes : Bytes)
    → IsLive b
    → ps.tcp ≡ some b
    → (on_peer_data hmac none random ps bytes).tcp
      ≡ some (record b { written = b.written ++ bytes })
unfolding on_peer_data
unmarked_step hmac random ps b bytes live e =
    rw (e, through) (ap (λ r. r.0.tcp) (feed_or_close_live ps b bytes live))

-- Without a bypass key a bridge that takes every write gets the messages as they are, one behind
-- the other.
on_peer_messages_unmarked :
    (hmac : Bytes → Bytes → Bytes) (random : Option Bytes) (ps : HostSession) (b : TcpBridge)
    (messages : List Bytes)
    → IsLive b
    → ps.tcp ≡ some b
    → (on_peer_messages hmac none random ps messages).tcp
      ≡ some (record b { written = b.written ++ concat messages })
unfolding on_peer_messages
on_peer_messages_unmarked hmac random ps b [] live e = rw append-nil e
on_peer_messages_unmarked hmac random ps b (bytes ∷ more) live e =
    rw (← append_assoc b.written bytes (concat more)) (
      on_peer_messages_unmarked hmac random (on_peer_data hmac none random ps bytes)
        (record b { written = b.written ++ bytes }) more
        (record { is_open = live.is_open; takes_all = live.takes_all })
        (unmarked_step hmac random ps b bytes live e))
