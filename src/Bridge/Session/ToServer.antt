-- ===== src/Bridge/Session/ToServer.antt =====
-- internal/bridge/session.go and internal/bridge/host.go together: from the data channel to the server.
use open_friend_mc.Prelude.{◌≡◌, ap, ◌∙◌, Bool, List, ◌++◌, Bytes, concat, drop, Option, some}
use open_friend_mc.Bridge.Tcp.{TcpBridge, IsLive}
use open_friend_mc.Bridge.HostSession.{HostSession, on_peer_messages}
use open_friend_mc.Bridge.HostSession.Relay.{IsFresh, forwarded, on_peer_messages-forwarded}
use open_friend_mc.Bridge.Session.{acceptor, new_session, attach_data_channel, on_messages}
use open_friend_mc.Bridge.Session.Warmup.{attach_data_channel_stream}

module _ (hmac : Bytes → Bytes → Bytes) (nonce : Option Bytes) where
  -- With a bypass key, a fresh host session on a bridge that takes every write, fed by the data channel
  -- of a new WebRTC session, delivers to the server what the specification says of the channel's stream
  -- without the four bytes of the warm-up message: how the channel cut it plays no part.
  pub on_messages-forwarded :
      (key : Bytes) (ps : HostSession) (b : TcpBridge) (is_open : Bool) (messages : List Bytes)
      → IsLive b
      → IsFresh ps b
      → let channel = attach_data_channel is_open (new_session acceptor) in
        (on_peer_messages hmac (some key) nonce ps (on_messages channel messages).delivered).tcp
        ≡ some (record b {
          written = b.written ++ forwarded hmac key nonce (drop 4 (concat messages));
        })
  on_messages-forwarded key ps b is_open messages live fresh =
      on_peer_messages-forwarded hmac nonce key ps b _ live fresh
      ∙ ap (λ t. some (record b { written = b.written ++ forwarded hmac key nonce t }))
          (attach_data_channel_stream acceptor is_open messages)
