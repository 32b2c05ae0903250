-- ===== src/Bridge/HostSession/Closing.antt =====
-- `hostSession.close` and what it leaves.
use open_friend_mc.Prelude.{
  suc, ◌≡◌, refl, arith, Bool, true, false, not, ◌&&◌, [], ◌∷◌, ◌++◌, Option, none, some, Bytes,
  ◌∙◌, ◌⊎◌, if_lem, inl, inr, if◌then◌else◌, Bool-cases,
}
use open_friend_mc.Bridge.Tcp.{TcpBridge, feed}
use open_friend_mc.Bridge.Handshake.{Framed, incomplete, failed, packet, read_framed_packet}
use open_friend_mc.Bridge.HostSession.{
  HostSession, close, shut, attach_tcp, read_end, read_ended, feed_or_close, feed_rest, send_packet,
  decide, feed_handshake, relay, through, on_peer_data, mark_handshake_done, marked_handshake,
}

-- A closed session holds neither a bridge nor a peer connection.
abbrev pub Released : HostSession → Type 0
Released ps = (ps.tcp ≡ none) × (ps.rtc ≡ false)

-- What a session keeps through its life: who it belongs to. Once closed it stays so, and only a session
-- that is closed has called `onClose`.
pub record Keeps (ps qs : HostSession) : Type 0 where
  pub same_sid : qs.sid ≡ ps.sid
  pub same_pmid : qs.from_pmid ≡ ps.from_pmid
  pub stays_closed : ps.closed ≡ true → qs.closed ≡ true
  pub calls : (qs.callbacks ≡ ps.callbacks) ⊎ (qs.closed ≡ true)

pub Keeps-self : (ps : HostSession) → Keeps ps ps
Keeps-self ps = record {
  same_sid = refl;
  same_pmid = refl;
  stays_closed = λ h. h;
  calls = inl refl;
}

calls_then :
    {ps qs rs : HostSession}
    → Keeps ps qs
    → Keeps qs rs
    → (rs.callbacks ≡ ps.callbacks) ⊎ (rs.closed ≡ true)
calls_then k l = elim l.calls [
  | inr c ↦ inr c
  | inl e ↦ elim k.calls [ inr c ↦ inr (l.stays_closed c) | inl d ↦ inl (e ∙ d) ]
]

pub Keeps-trans : {ps qs rs : HostSession} → Keeps ps qs → Keeps qs rs → Keeps ps rs
Keeps-trans k l = record {
  same_sid = ground arith;
  same_pmid = ground arith;
  stays_closed = λ h. l.stays_closed (k.stays_closed h);
  calls = calls_then k l;
}

either-Keeps :
    {ps qs rs : HostSession} (c : Bool)
    → Keeps ps qs
    → Keeps ps rs
    → Keeps ps (if c then qs else rs)
either-Keeps true k l = k
either-Keeps false k l = l

buffered-Keeps :
    (ps : HostSession) (buf : Bytes) {qs : HostSession}
    → Keeps (record ps { handshake_buf = buf }) qs
    → Keeps ps qs
buffered-Keeps ps buf k = record {
  same_sid = k.same_sid;
  same_pmid = k.same_pmid;
  stays_closed = k.stays_closed;
  calls = k.calls;
}

pub close-Keeps : (ps : HostSession) → Keeps ps (close ps)
unfolding close
close-Keeps ps =
    if_lem (Keeps ps) _ _ ps.closed (λ e. Keeps-self ps)
      (λ e. record {
        same_sid = refl;
        same_pmid = refl;
        stays_closed = λ h. refl;
        calls = inr refl;
      })

-- `close` marks the session closed and a second call changes nothing. The first call takes the
-- bridge and the peer connection away and closes each of them that is there; a later one leaves
-- all that as it is.
pub close_once :
    (ps : HostSession)
    → ((close ps).closed ≡ true)
      × (close (close ps) ≡ close ps)
      × ((close ps).tcp ≡ (if ps.closed then ps.tcp else none))
      × ((close ps).rtc ≡ (if ps.closed then ps.rtc else false))
      × ((close ps).shut_tcp ≡ (if ps.closed then ps.shut_tcp else shut ps.tcp ps.shut_tcp))
      × ((close ps).shut_rtc ≡ (if not ps.closed && ps.rtc then suc ps.shut_rtc else ps.shut_rtc))
unfolding close
close_once ps = elim (Bool-cases ps.closed) [
  | inl e ↦ rw e (refl, refl, refl, refl, refl, refl)
  | inr e ↦ rw e (refl, refl, refl, refl, refl, refl)
]

-- A bridge that is attached after the session was closed is out of reach of `close`: it stays in
-- the session, and further calls do not close it.
pub attach_tcp_after_close :
    (ps : HostSession) (b : TcpBridge)
    → ps.closed ≡ true
    → ((close (attach_tcp (some b) ps)).tcp ≡ some b)
      × ((close (attach_tcp (some b) ps)).shut_tcp ≡ ps.shut_tcp)
unfolding close attach_tcp
attach_tcp_after_close ps b e = ground arith

-- What a session keeps through its life.
pub attach_tcp-Keeps :
    (dialled : Option TcpBridge) (ps : HostSession) → Keeps ps (attach_tcp dialled ps)
unfolding attach_tcp
attach_tcp-Keeps none ps = close-Keeps ps
attach_tcp-Keeps (some b) ps = record {
  same_sid = refl;
  same_pmid = refl;
  stays_closed = λ h. h;
  calls = inl refl;
}

pub read_ended-Keeps : (ps : HostSession) → Keeps ps (read_ended ps)
unfolding read_ended read_end
read_ended-Keeps ps = bridge ps.tcp
  where
    bridge : (o : Option TcpBridge) → Keeps ps (read_end ps o)
    bridge none = Keeps-self ps
    bridge (some b) =
        if_lem (Keeps ps) _ _ b.is_closed (λ e. Keeps-self ps)
          (λ e.
            if_lem (Keeps ps) _ _ ps.closed
              (λ f. record {
                same_sid = refl;
                same_pmid = refl;
                stays_closed = λ h. h;
                calls = inr f;
              })
              (λ f. record {
                same_sid = refl;
                same_pmid = refl;
                stays_closed = λ h. refl;
                calls = inr refl;
              }))

-- When the server ends the connection of an open session with an attached bridge: the session is marked
-- closed and its bridge closed, but the peer connection is not, and no later call of `close` does so.
pub read_ended-close :
    (ps : HostSession) (b : TcpBridge)
    → ps.tcp ≡ some b
    → b.is_closed ≡ false
    → ps.closed ≡ false
    → ((read_ended ps).closed ≡ true)
      × ((read_ended ps).callbacks ≡ ps.callbacks)
      × (close (read_ended ps) ≡ read_ended ps)
      × ((close (read_ended ps)).shut_rtc ≡ ps.shut_rtc)
unfolding read_ended read_end close
read_ended-close ps b held live open_ = simp (held, live, open_) (refl, refl, refl, refl)

feed_or_close-Keeps :
    (ps : HostSession) (b : TcpBridge) (bytes : Bytes) → Keeps ps (feed_or_close ps b bytes).0
unfolding feed_or_close
feed_or_close-Keeps ps b bytes = elim (Bool-cases (feed b bytes).1) [
  | inl e ↦
      rw e (record { same_sid = refl; same_pmid = refl; stays_closed = λ h. h; calls = inl refl })
  | inr e ↦
      let k = close-Keeps (record ps { tcp = some (feed b bytes).0 }) in
      rw e (record {
        same_sid = k.same_sid;
        same_pmid = k.same_pmid;
        stays_closed = k.stays_closed;
        calls = k.calls;
      })
]

mark-Keeps : (ps : HostSession) → Keeps ps (mark_handshake_done ps)
unfolding mark_handshake_done
mark-Keeps ps = record {
  same_sid = refl;
  same_pmid = refl;
  stays_closed = λ h. h;
  calls = inl refl;
}

module _ (hmac : Bytes → Bytes → Bytes) (key : Bytes) (random : Option Bytes) where
  feed_rest-Keeps :
      (ps : HostSession) (ob : Option TcpBridge) (sent : Bool) (rest : Bytes)
      → Keeps ps (feed_rest hmac key random ps ob sent rest)
  unfolding feed_rest
  feed_rest-Keeps ps none sent rest = record {
    same_sid = refl;
    same_pmid = refl;
    stays_closed = λ h. h;
    calls = inl refl;
  }
  feed_rest-Keeps ps (some b) false rest = record {
    same_sid = refl;
    same_pmid = refl;
    stays_closed = λ h. h;
    calls = inl refl;
  }
  feed_rest-Keeps ps (some b) true [] = record {
    same_sid = refl;
    same_pmid = refl;
    stays_closed = λ h. h;
    calls = inl refl;
  }
  feed_rest-Keeps ps (some b) true (x ∷ rest) = feed_or_close-Keeps ps b (x ∷ rest)

  marked-Keeps :
      (ps : HostSession) (b : TcpBridge) (bytes : Bytes)
      → Keeps ps (feed_or_close (mark_handshake_done ps) b bytes).0
  marked-Keeps ps b bytes =
      Keeps-trans (mark-Keeps ps) (feed_or_close-Keeps (mark_handshake_done ps) b bytes)

  decide-Keeps :
      (ps : HostSession) (b : TcpBridge) (buf : Bytes) (f : Framed)
      → Keeps ps (decide hmac key random ps b buf f)
  unfolding decide
  decide-Keeps ps b buf incomplete = record {
    same_sid = refl;
    same_pmid = refl;
    stays_closed = λ h. h;
    calls = inl refl;
  }
  decide-Keeps ps b buf (failed _) = marked-Keeps ps b buf
  decide-Keeps ps b buf (packet p n) = with_packet (marked_handshake hmac key random p)
    where
      with_packet : (m : Option Bytes) → Keeps ps (send_packet hmac key random ps b buf n m)
      with_packet none = marked-Keeps ps b buf
      with_packet (some m) =
          Keeps-trans (marked-Keeps ps b m)
            (feed_rest-Keeps (feed_or_close (mark_handshake_done ps) b m).0 _ _ _)

module _ (hmac : Bytes → Bytes → Bytes) (bypass_key random : Option Bytes) where
  relay-Keeps :
      (ps : HostSession) (b : TcpBridge) (key : Option Bytes) (bytes : Bytes)
      → Keeps ps (relay hmac bypass_key random ps b key bytes)
  unfolding relay feed_handshake
  relay-Keeps ps b none bytes = feed_or_close-Keeps ps b bytes
  relay-Keeps ps b (some key) bytes =
      let buf = ps.handshake_buf ++ bytes in
      either-Keeps ps.handshake_done (feed_or_close-Keeps ps b bytes) (
        buffered-Keeps ps buf (
          decide-Keeps hmac key random (record ps { handshake_buf = buf }) b buf
            (read_framed_packet buf)))

  pub on_peer_data-Keeps :
      (ps : HostSession) (bytes : Bytes) → Keeps ps (on_peer_data hmac bypass_key random ps bytes)
  unfolding on_peer_data
  on_peer_data-Keeps ps bytes = attached ps.tcp
    where
      attached : (ob : Option TcpBridge) → Keeps ps (through hmac bypass_key random ps ob bytes)
      attached none = record {
        same_sid = refl;
        same_pmid = refl;
        stays_closed = λ h. h;
        calls = inl refl;
      }
      attached (some b) = relay-Keeps ps b bypass_key bytes
