-- ===== src/Bridge/HostSession/Relay.antt =====
-- What reaches the Minecraft server, whatever the sizes of the peer's messages.
use open_friend_mc.Prelude.{
  ℕ, ◌≤◌, ◌≡◌, refl, ap, ◌∙◌, Bool, true, false, List, [], ◌∷◌, ◌++◌, append_assoc, append-nil,
  Bytes, length, drop, drop-append_le, concat, Option, none, some, if◌then◌else◌,
}
use open_friend_mc.Bridge.VarInt.{read_var_int}
use open_friend_mc.Bridge.Tcp.{TcpBridge, IsLive, feed_live}
use open_friend_mc.Bridge.Handshake.{Framed, incomplete, failed, packet, read_framed_packet}
use open_friend_mc.Bridge.Handshake.Frame.{
  read_framed_packet-append_packet, read_framed_packet-append_failed,
}
use open_friend_mc.Bridge.HostSession.{
  HostSession, mark_handshake_done, feed_or_close, marked_handshake, feed_rest, send_packet, decide,
  feed_handshake, on_peer_data, on_peer_messages,
}

-- The specification speaks of the whole stream that the peer has sent, with no state: nothing until
-- the first frame is complete; then the stream with its first packet replaced by the marked one, or
-- the stream itself where that packet cannot be read or marked.
abbrev pub replaced : Bytes → ℕ → Option Bytes → Bytes
replaced stream consumed none = stream
replaced stream consumed (some modified) = modified ++ drop consumed stream

abbrev pub is_decided : Framed → Bool
is_decided incomplete = false
is_decided (failed _) = true
is_decided (packet _ _) = true

module _ (hmac : Bytes → Bytes → Bytes) (key : Bytes) (nonce : Option Bytes) where
  abbrev pub released : Bytes → Framed → Bytes
  released stream incomplete = []
  released stream (failed _) = stream
  released stream (packet payload consumed) =
      replaced stream consumed (marked_handshake hmac key nonce payload)

  unfoldable pub forwarded : Bytes → Bytes
  forwarded stream = released stream (read_framed_packet stream)

-- The session `ps` when its bridge `b` has accepted `sent`, before and after the decision.
abbrev pub session_at : HostSession → TcpBridge → Bytes → Bool → Bytes → HostSession
session_at ps b buf decided sent = record ps {
  tcp = some (record b { written = sent });
  handshake_buf = if decided then [] else buf;
  handshake_done = decided;
}

pub feed_or_close_live :
    (ps : HostSession) (b : TcpBridge) (bytes : Bytes)
    → IsLive b
    → feed_or_close ps b bytes
      ≡ (record ps { tcp = some (record b { written = b.written ++ bytes }) }, true)
unfolding feed_or_close
feed_or_close_live ps b bytes live = rw (feed_live b bytes live)

module _ (ps : HostSession) (b : TcpBridge) (live : IsLive b) where
  -- Writing to a live bridge after the decision.
  feed_decided :
      (sent bytes : Bytes)
      → (feed_or_close (session_at ps b [] true sent) (record b { written = sent }) bytes).0
        ≡ session_at ps b [] true (sent ++ bytes)
  feed_decided sent bytes =
      ap (λ r. r.0)
        (feed_or_close_live (session_at ps b [] true sent) (record b { written = sent }) bytes
          (record { is_open = live.is_open; takes_all = live.takes_all }))

module _ (hmac : Bytes → Bytes → Bytes) (key : Bytes) (nonce : Option Bytes) where
  module _ (ps : HostSession) (b : TcpBridge) (live : IsLive b) where
    feed_rest_decided :
        (sent rest : Bytes)
        → feed_rest hmac key nonce
            (session_at ps b [] true sent)
            (some (record b { written = sent }))
            true
            rest
          ≡ session_at ps b [] true (sent ++ rest)
    unfolding feed_rest
    feed_rest_decided sent [] = rw append-nil
    feed_rest_decided sent (x ∷ rest) = feed_decided ps b live sent (x ∷ rest)

    send_packet_sent :
        (buf : Bytes) (n : ℕ) (m : Option Bytes)
        → send_packet hmac key nonce (session_at ps b buf false b.written) b buf n m
          ≡ session_at ps b buf true (b.written ++ replaced buf n m)
    unfolding send_packet mark_handshake_done
    send_packet_sent buf n none = feed_decided ps b live b.written buf
    send_packet_sent buf n (some m) =
        rw (feed_or_close_live (session_at ps b [] true b.written) b m live) (
          rw (← append_assoc b.written m (drop n buf))
            (feed_rest_decided (b.written ++ m) (drop n buf)))

    decide_sent :
        (buf : Bytes) (f : Framed)
        → decide hmac key nonce (session_at ps b buf false b.written) b buf f
          ≡ session_at ps b buf (is_decided f) (b.written ++ released hmac key nonce buf f)
    unfolding decide mark_handshake_done
    decide_sent buf incomplete = rw append-nil
    decide_sent buf (failed _) = feed_decided ps b live b.written buf
    decide_sent buf (packet p n) = send_packet_sent buf n (marked_handshake hmac key nonce p)

-- What has been released stays, and more bytes are released as they are.
module _ (hmac : Bytes → Bytes → Bytes) (key : Bytes) (nonce : Option Bytes) where
  replaced-append :
      (stream bytes : Bytes) (n : ℕ) (m : Option Bytes)
      → n ≤ length stream
      → replaced (stream ++ bytes) n m ≡ replaced stream n m ++ bytes
  replaced-append stream bytes n none h = refl
  replaced-append stream bytes n (some m) h = rw (drop-append_le n stream bytes h, append_assoc)

  forwarded_decided :
      (stream bytes : Bytes) (f : Framed)
      → read_framed_packet stream ≡ f
      → is_decided f ≡ true
      → (is_decided (read_framed_packet (stream ++ bytes)) ≡ true)
        × (forwarded hmac key nonce (stream ++ bytes) ≡ forwarded hmac key nonce stream ++ bytes)
  unfolding forwarded
  forwarded_decided stream bytes incomplete e d = cc
  forwarded_decided stream bytes (failed x) e d =
      let e' = read_framed_packet-append_failed stream bytes x e in (rw e', rw (e', e, forwarded))
  forwarded_decided stream bytes (packet p n) e d =
      let (e', h) = read_framed_packet-append_packet stream bytes p n e in
      (
        rw e',
        rw (e', e, forwarded)
            (replaced-append stream bytes n (marked_handshake hmac key nonce p) h),
      )

  -- The session's state is a function of the stream alone.
  abbrev pub state_after : HostSession → TcpBridge → Bytes → HostSession
  state_after ps b stream =
      session_at ps b stream (is_decided (read_framed_packet stream))
        (b.written ++ forwarded hmac key nonce stream)

  module _ (ps : HostSession) (b : TcpBridge) (live : IsLive b) where
    decided_step :
        (stream bytes : Bytes)
        → is_decided (read_framed_packet stream) ≡ true
        → (is_decided (read_framed_packet (stream ++ bytes)) ≡ true)
          × (forwarded hmac key nonce (stream ++ bytes) ≡ forwarded hmac key nonce stream ++ bytes)
        → on_peer_data hmac (some key) nonce (state_after ps b stream) bytes
          ≡ state_after ps b (stream ++ bytes)
    unfolding on_peer_data
    decided_step stream bytes d (d', f) =
        rw (d, d', f, ← append_assoc b.written (forwarded hmac key nonce stream) bytes)
          (feed_decided ps b live (b.written ++ forwarded hmac key nonce stream) bytes)

    undecided_step :
        (stream bytes : Bytes)
        → read_framed_packet stream ≡ incomplete
        → on_peer_data hmac (some key) nonce (state_after ps b stream) bytes
          ≡ state_after ps b (stream ++ bytes)
    unfolding on_peer_data feed_handshake forwarded
    undecided_step stream bytes e =
        rw (e, append-nil)
          (decide_sent hmac key nonce ps b live (stream ++ bytes)
            (read_framed_packet (stream ++ bytes)))

    on_peer_data_step :
        (stream bytes : Bytes) (f : Framed)
        → read_framed_packet stream ≡ f
        → on_peer_data hmac (some key) nonce (state_after ps b stream) bytes
          ≡ state_after ps b (stream ++ bytes)
    on_peer_data_step stream bytes incomplete e = undecided_step stream bytes e
    on_peer_data_step stream bytes f e =
        let d : is_decided (read_framed_packet stream) ≡ true = rw e refl in
        decided_step stream bytes d (forwarded_decided stream bytes f e refl)

    on_peer_messages_state :
        (stream : Bytes) (messages : List Bytes)
        → on_peer_messages hmac (some key) nonce (state_after ps b stream) messages
          ≡ state_after ps b (stream ++ concat messages)
    unfolding on_peer_messages
    on_peer_messages_state stream [] = rw append-nil
    on_peer_messages_state stream (bytes ∷ more) =
        rw
          (
            on_peer_data_step stream bytes (read_framed_packet stream) refl,
            ← append_assoc stream bytes (concat more),
          )
          (on_peer_messages_state (stream ++ bytes) more)

-- A session whose bridge is attached and that has seen no byte yet.
pub record IsFresh (ps : HostSession) (b : TcpBridge) : Type 0 where
  pub attached : ps.tcp ≡ some b
  pub not_done : ps.handshake_done ≡ false
  pub no_bytes : ps.handshake_buf ≡ []

module _ (hmac : Bytes → Bytes → Bytes) (nonce : Option Bytes) where
  fresh_state :
      (key : Bytes) (ps : HostSession) (b : TcpBridge)
      → IsFresh ps b
      → ps ≡ state_after hmac key nonce ps b []
  unfolding forwarded read_framed_packet read_var_int
  fresh_state key ps b fresh = rw append-nil (λ i. record ps {
    tcp = fresh.attached i;
    handshake_buf = fresh.no_bytes i;
    handshake_done = fresh.not_done i;
  })

  -- With a bypass key, a fresh session on a live bridge delivers what the specification says of the
  -- concatenation of the messages, and nothing else: how the peer cut them plays no part.
  pub on_peer_messages-forwarded :
      (key : Bytes) (ps : HostSession) (b : TcpBridge) (messages : List Bytes)
      → IsLive b
      → IsFresh ps b
      → (on_peer_messages hmac (some key) nonce ps messages).tcp
        ≡ some (record b { written = b.written ++ forwarded hmac key nonce (concat messages) })
  on_peer_messages-forwarded key ps b messages live fresh =
      ap (λ s. (on_peer_messages hmac (some key) nonce s messages).tcp) (fresh_state key ps b fresh)
      ∙ ap (λ s. s.tcp) (on_peer_messages_state hmac key nonce ps b live [] messages)
