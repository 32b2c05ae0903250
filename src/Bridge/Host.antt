-- ===== src/Bridge/Host.antt =====
-- internal/bridge/host.go: `HostManager`. A session is a pointer, the number under which the heap
-- holds the `hostSession`; `p.sessions` maps session ids to pointers. Each handler is one step, which
-- goes as far as the handler gets: where `p.mu` is never given back, up to the lock. What TURN, WebRTC,
-- the dialer and the network answer comes in as an argument.
pub mod Registry
pub mod Isolation
pub mod Invariant
pub mod Runs
pub mod Hanging
use open_friend_mc.Prelude.{
  ℕ, suc, ◌+◌, ◌%◌, ◌^◌, ◌≡◌, refl, Bool, true, false, not, ◌&&◌, ◌||◌, List, [], ◌∷◌, ◌++◌, Bytes,
  Option, none, some, String, ◌==◌, comparable_nat, comparable_string, if◌then◌else◌,
}
use open_friend_mc.Prelude.Assoc.{lookup, insert, erase}
use open_friend_mc.Bridge.Tcp.{TcpBridge}
use open_friend_mc.Bridge.HostSession.{HostSession, close, attach_tcp, on_peer_data}

-- What the host sends to a friend, without the session description's text.
pub data Reply : Type 0 where
  join_accepted join_rejected answer : String → Reply

-- `IceCandidatePayload`.
pub record Candidate : Type 0 where
  pub candidate : String
  pub sdp_mid : String
  pub sdp_mline_index : ℕ

pub record HostManager : Type 0 where
  pub sessions : List (String × ℕ)
  pub heap : List (ℕ × HostSession)
  pub next_ref : ℕ
  pub outbox : List (ℕ × Reply)
  -- The calls of `AddRemoteICE`, by session.
  pub remote_ice : List (ℕ × Candidate)
  -- `p.mu` is held for good, by a handler that waits for itself.
  pub hung : Bool

unfoldable pub new_host_manager : HostManager
new_host_manager = record {
  sessions = [];
  heap = [];
  next_ref = 0;
  outbox = [];
  remote_ice = [];
  hung = false;
}

pub send : HostManager → ℕ → Reply → HostManager
send p to reply = record p { outbox = p.outbox ++ (to, reply) ∷ [] }

-- `removeSession` once it has the lock: the entry goes only if it still points to this session.
pub removes : Option ℕ → ℕ → Bool
removes none ref = false
removes (some cur) ref = cur == ref

unfoldable pub remove_session : String → ℕ → HostManager → HostManager
unfolding removes
remove_session sid ref p =
    if removes (lookup sid p.sessions) ref then record p { sessions = erase sid p.sessions } else p

-- What needs the lock waits for good when it is not given back.
abbrev pub with_lock : (HostManager → HostManager) → HostManager → HostManager
with_lock f p = if p.hung then p else f p

-- Whether a method of a session has called the bridge's `onClose`.
abbrev pub called_on_close : HostSession → HostSession → Bool
called_on_close before after = not (after.callbacks == before.callbacks)

-- How far the method got: where `removeSession` waits for good, `rtc.Close()` behind it is not reached.
abbrev pub reached : Bool → HostSession → HostSession → HostSession
reached held before after =
    if called_on_close before after && held
    then record after { shut_rtc = before.shut_rtc }
    else after

-- A method has taken the session behind the pointer from one state to the other; `onClose` of the
-- bridge calls `removeSession`.
unfoldable pub settle : ℕ → HostSession → HostSession → HostManager → HostManager
settle ref before after p =
    let q = record p { heap = insert ref (reached p.hung before after) p.heap } in
    if called_on_close before after then with_lock (remove_session before.sid ref) q else q

-- A method of the session behind a pointer; a pointer to nothing does not occur.
update : (HostSession → HostSession) → ℕ → Option HostSession → HostManager → HostManager
unfolding settle
update f ref none p = p
update f ref (some ps) p = settle ref ps (f ps) p

pub on_session : (HostSession → HostSession) → ℕ → HostManager → HostManager
unfolding update
on_session f ref p = update f ref (lookup ref p.heap) p

-- A `JOIN_REQUEST` after `ProbeTCP`.
unfoldable pub on_join_request : ℕ → String → Bool → HostManager → HostManager
unfolding send
on_join_request from sid reachable p =
    if reachable then send p from (join_accepted sid) else send p from (join_rejected sid)

-- How far `startSession` gets behind the registration: each error returns.
pub data Started : Type 0 where
  session_failed offer_failed answer_failed answered : Started

new_session : ℕ → String → HostSession
new_session from sid = record {
  from_pmid = from;
  sid = sid;
  rtc = false;
  tcp = none;
  closed = false;
  handshake_buf = [];
  handshake_done = false;
  shut_tcp = [];
  shut_rtc = 0;
  callbacks = 0;
}

-- `prev.close()` under the lock: `onClose` of an attached bridge waits for that lock in `removeSession`.
close_locked : ℕ → Option HostSession → HostManager → HostManager
close_locked prev none p = p
close_locked prev (some ps) p = record p {
  heap = insert prev (reached true ps (close ps)) p.heap;
  hung = called_on_close ps (close ps);
}

close_previous : Option ℕ → HostManager → HostManager
unfolding close_locked
close_previous none p = p
close_previous (some prev) p = close_locked prev (lookup prev p.heap) p

enter : ℕ → String → HostManager → HostManager
unfolding new_session
enter from sid p = record p {
  heap = insert p.next_ref (new_session from sid) p.heap;
  sessions = insert sid p.next_ref p.sessions;
  next_ref = suc p.next_ref;
}

-- The block under the lock: the previous session of this id is closed and replaced.
pub register : ℕ → String → HostManager → HostManager
unfolding close_previous enter
register from sid p = with_lock (enter from sid) (close_previous (lookup sid p.sessions) p)

set_rtc : HostSession → HostSession
set_rtc ps = record ps { rtc = true }

finish_start : ℕ → String → ℕ → Started → HostManager → HostManager
unfolding on_session set_rtc send
finish_start from sid ref session_failed p = p
finish_start from sid ref offer_failed p = on_session close ref (on_session set_rtc ref p)
finish_start from sid ref answer_failed p = on_session close ref (on_session set_rtc ref p)
finish_start from sid ref answered p = send (on_session set_rtc ref p) from (answer sid)

unfoldable pub start_session : ℕ → String → Started → HostManager → HostManager
unfolding finish_start register
start_session from sid outcome p =
    with_lock (finish_start from sid p.next_ref outcome) (register from sid p)

-- `handleOffer` after the TURN request: nothing happens without a session description or on an
-- error of the request.
unfoldable pub handle_offer : ℕ → String → Bool → Bool → Started → HostManager → HostManager
handle_offer from sid has_sdp turn_ok outcome p =
    if has_sdp && turn_ok then with_lock (start_session from sid outcome) p else p

-- The data channel's callbacks and the handshake timeout: `close` and `removeSession`.
unfoldable pub drop_session : ℕ → String → HostManager → HostManager
unfolding on_session
drop_session ref sid p = with_lock (remove_session sid ref) (on_session close ref p)

-- The data channel opened in time; `DialTCP` gave a bridge or an error.
unfoldable pub channel_open : ℕ → Option TcpBridge → HostManager → HostManager
unfolding on_session
channel_open ref dialled p = on_session (attach_tcp dialled) ref p

accept_ice : ℕ → Candidate → ℕ → Option HostSession → HostManager → HostManager
accept_ice from c ref none p = p
accept_ice from c ref (some ps) p =
    if ps.rtc && (ps.from_pmid == from)
    then record p {
      remote_ice =
          p.remote_ice ++ (ref, record c { sdp_mline_index = c.sdp_mline_index % 2 ^ 16 }) ∷ [];
    }
    else p

find_ice : ℕ → Candidate → Option ℕ → HostManager → HostManager
unfolding accept_ice
find_ice from c none p = p
find_ice from c (some ref) p = accept_ice from c ref (lookup ref p.heap) p

-- `handleICE`; the candidate is none where `ParseIceCandidate` fails.
unfoldable pub handle_ice : ℕ → String → Option Candidate → HostManager → HostManager
unfolding find_ice
handle_ice from sid none p = p
handle_ice from sid (some c) p =
    if sid == "" || p.hung then p else find_ice from c (lookup sid p.sessions) p

close_each : List (String × ℕ) → HostManager → HostManager
unfolding on_session
close_each [] p = p
close_each ((_, ref) ∷ more) p = close_each more (on_session close ref p)

-- `HostManager.Close` once it has the lock.
unfoldable pub close_all : HostManager → HostManager
unfolding close_each
close_all p = close_each p.sessions (record p { sessions = [] })
