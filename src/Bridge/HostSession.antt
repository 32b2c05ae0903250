-- ===== src/Bridge/HostSession.antt =====
-- internal/bridge/host.go: `hostSession`, the data path from the WebRTC peer to the Minecraft
-- server. A handler is one atomic step. `rand.Read` yields the nonce (or fails) when it is called;
-- the key is `HostManager.bypassKey`, and HMAC-SHA-256 a function.
pub mod Relay
pub mod Delivery
pub mod Closing
use open_friend_mc.Prelude.{
  ℕ, suc, ◌≡◌, refl, Bool, true, false, List, [], ◌∷◌, ◌++◌, Bytes, drop, is_empty, ◌&&◌, Option,
  none, some, String, Result, if◌then◌else◌, ok, err,
}
use open_friend_mc.Bridge.Tcp.{TcpBridge, feed, close_bridge}
use open_friend_mc.Bridge.Handshake.{
  Handshake, DecodeError, decode_handshake, encode_handshake, Framed, incomplete, failed, packet,
  read_framed_packet,
}
use open_friend_mc.Bridge.Handshake.Marker.{MarkerError, inject_bypass_marker}

-- `rtc` says that the pointer is not nil. `shut_tcp` and `shut_rtc` log what `close` has closed;
-- `callbacks` counts the calls of the bridge's `onClose`, which go on to `removeSession`.
pub record HostSession : Type 0 where
  pub from_pmid : ℕ
  pub sid : String
  pub rtc : Bool
  pub tcp : Option TcpBridge
  pub closed : Bool
  pub handshake_buf : Bytes
  pub handshake_done : Bool
  pub shut_tcp : List TcpBridge
  pub shut_rtc : ℕ
  pub callbacks : ℕ

unfoldable pub mark_handshake_done : HostSession → HostSession
mark_handshake_done ps = record ps { handshake_done = true; handshake_buf = [] }

abbrev pub shut : Option TcpBridge → List TcpBridge → List TcpBridge
shut none log = log
shut (some b) log = log ++ (close_bridge b).0 ∷ []

-- Whether closing the bridge calls `onClose`.
abbrev pub called_back : Option TcpBridge → Bool
called_back none = false
called_back (some b) = (close_bridge b).1

-- `onClose` calls `close` again, which returns at once, and `removeSession`, which waits for the
-- manager's lock: that part is the manager's.
unfoldable pub close : HostSession → HostSession
unfolding close_bridge
close ps = if ps.closed then ps else record ps {
  closed = true;
  tcp = none;
  rtc = false;
  shut_tcp = shut ps.tcp ps.shut_tcp;
  shut_rtc = if ps.rtc then suc ps.shut_rtc else ps.shut_rtc;
  callbacks = if called_back ps.tcp then suc ps.callbacks else ps.callbacks;
}

-- `tcp.Feed(data)`, and `ps.close()` if it fails; the flag says that it did not.
pub feed_or_close : HostSession → TcpBridge → Bytes → HostSession × Bool
feed_or_close ps b bytes =
    let (b', sent) = feed b bytes in
    let ps' = record ps { tcp = some b' } in if sent then (ps', true) else (close ps', false)

module _ (hmac : Bytes → Bytes → Bytes) (key : Bytes) (nonce : Option Bytes) where
  with_address : Handshake → Result MarkerError Bytes → Option Bytes
  with_address h (err _) = none
  with_address h (ok addr) = some (encode_handshake (record h { server_address = addr }))

  re_encode : Result DecodeError Handshake → Option Bytes
  unfolding with_address
  re_encode (err _) = none
  re_encode (ok h) = with_address h (inject_bypass_marker hmac h.server_address key nonce)

  -- The packet to send in place of the client's, or none where the code passes through.
  unfoldable pub marked_handshake : Bytes → Option Bytes
  unfolding re_encode
  marked_handshake payload = re_encode (decode_handshake payload)

  -- The feed of the rest, if the packet itself went through and there is a rest.
  feed_rest : HostSession → Option TcpBridge → Bool → Bytes → HostSession
  unfolding feed_or_close
  feed_rest ps none sent rest = ps
  feed_rest ps (some b) false rest = ps
  feed_rest ps (some b) true rest = if is_empty rest then ps else (feed_or_close ps b rest).0

  -- The two ways on when a frame was found.
  send_packet : HostSession → TcpBridge → Bytes → ℕ → Option Bytes → HostSession
  unfolding feed_or_close feed_rest
  send_packet ps b buf consumed none = (feed_or_close (mark_handshake_done ps) b buf).0
  send_packet ps b buf consumed (some modified) =
      let (ps', sent) = feed_or_close (mark_handshake_done ps) b modified in
      feed_rest ps' ps'.tcp sent (drop consumed buf)

  decide : HostSession → TcpBridge → Bytes → Framed → HostSession
  unfolding feed_or_close send_packet
  decide ps b buf incomplete = ps
  decide ps b buf (failed _) = (feed_or_close (mark_handshake_done ps) b buf).0
  decide ps b buf (packet payload consumed) =
      send_packet ps b buf consumed (marked_handshake payload)

  unfoldable pub feed_handshake : HostSession → TcpBridge → Bytes → HostSession
  unfolding decide
  feed_handshake ps b bytes =
      let buf = ps.handshake_buf ++ bytes in
      decide (record ps { handshake_buf = buf }) b buf (read_framed_packet buf)

module _ (hmac : Bytes → Bytes → Bytes) (bypass_key : Option Bytes) (nonce : Option Bytes) where
  relay : HostSession → TcpBridge → Option Bytes → Bytes → HostSession
  unfolding feed_or_close
  relay ps b none bytes = (feed_or_close ps b bytes).0
  relay ps b (some key) bytes =
      if ps.handshake_done
      then (feed_or_close ps b bytes).0
      else feed_handshake hmac key nonce ps b bytes

  through : HostSession → Option TcpBridge → Bytes → HostSession
  unfolding relay
  through ps none bytes = ps
  through ps (some b) bytes = relay ps b bypass_key bytes

  unfoldable pub on_peer_data : HostSession → Bytes → HostSession
  unfolding through
  on_peer_data ps bytes = through ps ps.tcp bytes

  -- The messages of one peer, in order.
  unfoldable pub on_peer_messages : HostSession → List Bytes → HostSession
  on_peer_messages ps [] = ps
  on_peer_messages ps (bytes ∷ more) = on_peer_messages (on_peer_data ps bytes) more

-- The end of `attachTCP`: `DialTCP` has returned a bridge, or an error.
unfoldable pub attach_tcp : Option TcpBridge → HostSession → HostSession
attach_tcp none ps = close ps
attach_tcp (some b) ps = record ps { tcp = some b }

-- The end of `readLoop` is the deferred `Close` of the bridge, whose `closeOnce` runs `onClose`. There
-- `ps.close` takes the bridge away and closes it, which waits for the same `closeOnce` for good: the
-- peer connection is not closed and `removeSession` not called. Only where the session is closed
-- already does `close` return.
read_end : HostSession → Option TcpBridge → HostSession
read_end ps none = ps
read_end ps (some b) =
    if b.is_closed
    then ps
    else if ps.closed
    then record ps { tcp = some (close_bridge b).0; callbacks = suc ps.callbacks }
    else record ps { closed = true; tcp = none; rtc = false; shut_tcp = shut ps.tcp ps.shut_tcp }

unfoldable pub read_ended : HostSession → HostSession
unfolding read_end
read_ended ps = read_end ps ps.tcp

-- The bytes read from the server go to the peer while `ps.rtc` is set and its send queue drains
-- (`WaitForBufferDrain`), and are dropped otherwise.
unfoldable pub on_downstream : HostSession → Bool → Bytes → Option Bytes
on_downstream ps drained bytes = if ps.rtc && drained then some bytes else none
