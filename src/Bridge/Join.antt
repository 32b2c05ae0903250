-- ===== src/Bridge/Join.antt =====
-- internal/bridge/join.go: `JoinManager` and `joinSession`. A session is a pointer, the number under
-- which the heap holds it; a local connection is a number. `handleIncoming` blocks between steps:
-- each of its waits ends in a step of its own, with what ended it as an argument.
pub mod Peer
pub mod Closing
use open_friend_mc.Prelude.{
  ℕ, suc, ◌+◌, ◌%◌, ◌^◌, ◌≡◌, refl, Bool, true, false, not, ◌&&◌, List, [], ◌∷◌, ◌++◌, Option, none,
  some, String, ◌==◌, comparable_nat, comparable_string, if◌then◌else◌,
}
use open_friend_mc.Prelude.Assoc.{lookup, insert}
use open_friend_mc.Bridge.Host.{Candidate}

pub data Sent : Type 0 where
  join_request offer : String → Sent

-- `once_done` is the state of `once`; the channels are closed or not.
pub record JoinSession : Type 0 where
  pub session_id : String
  pub local : Option ℕ
  pub rtc : Bool
  pub accept_closed : Bool
  pub reject_closed : Bool
  pub once_done : Bool
  pub remote_ice : List Candidate

-- `panicked` says that a closed channel was closed; `shut_locals` and `shut_rtc` list the calls of
-- `Close` on local connections and on the sessions' WebRTC.
pub record JoinManager : Type 0 where
  pub peer_pmid : ℕ
  pub stopped : Bool
  pub current : Option ℕ
  pub heap : List (ℕ × JoinSession)
  pub next_ref : ℕ
  pub outbox : List (ℕ × Sent)
  pub shut_locals : List ℕ
  pub shut_rtc : List ℕ
  pub panicked : Bool

unfoldable pub new_join_manager : ℕ → JoinManager
new_join_manager peer = record {
  peer_pmid = peer;
  stopped = false;
  current = none;
  heap = [];
  next_ref = 0;
  outbox = [];
  shut_locals = [];
  shut_rtc = [];
  panicked = false;
}

abbrev pub store : ℕ → JoinSession → JoinManager → JoinManager
store ref s j = record j { heap = insert ref s j.heap }

unfoldable pub shut_local : Option ℕ → JoinManager → JoinManager
shut_local none j = j
shut_local (some conn) j = record j { shut_locals = j.shut_locals ++ conn ∷ [] }

unfoldable pub close_found : ℕ → Option JoinSession → JoinManager → JoinManager
unfolding shut_local
close_found ref none j = j
close_found ref (some s) j =
    if s.once_done
    then j
    else (let k = shut_local s.local (store ref (record s { once_done = true; local = none }) j) in
        if s.rtc then record k { shut_rtc = k.shut_rtc ++ ref ∷ [] } else k)

-- `joinSession.close`.
unfoldable pub close_session : ℕ → JoinManager → JoinManager
unfolding close_found
close_session ref j = close_found ref (lookup ref j.heap) j

unfoldable pub is_current : ℕ → Option ℕ → Bool
is_current ref none = false
is_current ref (some cur) = cur == ref

-- The deferred end of `handleIncoming`.
unfoldable pub leave : ℕ → JoinManager → JoinManager
unfolding is_current
leave ref j = if is_current ref j.current then record j { current = none } else j

new_join_session : String → ℕ → JoinSession
new_join_session sid conn = record {
  session_id = sid;
  local = some conn;
  rtc = false;
  accept_closed = false;
  reject_closed = false;
  once_done = false;
  remote_ice = [];
}

-- The early returns of `handleIncoming` close the connection itself and not the session.
unfoldable pub return_early : ℕ → ℕ → JoinManager → JoinManager
unfolding leave
return_early ref conn j = leave ref (record j { shut_locals = j.shut_locals ++ conn ∷ [] })

admit : ℕ → String → Bool → Bool → JoinManager → JoinManager
unfolding return_early new_join_session
admit conn sid ready sent j =
    let ref = j.next_ref in
    let k = record j {
      heap = insert ref (new_join_session sid conn) j.heap;
      current = some ref;
      next_ref = suc ref;
    } in
    if ready && sent
    then record k { outbox = k.outbox ++ (k.peer_pmid, join_request sid) ∷ [] }
    else return_early ref conn k

unfoldable pub handle_incoming_at : Option ℕ → ℕ → String → Bool → Bool → JoinManager → JoinManager
unfolding admit
handle_incoming_at (some cur) conn sid ready sent j = record j {
  shut_locals = j.shut_locals ++ conn ∷ [];
}
handle_incoming_at none conn sid ready sent j = admit conn sid ready sent j

-- `handleIncoming` up to its first wait: `ready` and `sent` are the answers of the signaling client.
unfoldable pub handle_incoming : ℕ → String → Bool → Bool → JoinManager → JoinManager
unfolding handle_incoming_at
handle_incoming conn sid ready sent j = handle_incoming_at j.current conn sid ready sent j

-- How `startInitiator` ends.
pub data Initiated : Type 0 where
  turn_failed session_failed offer_failed send_failed offered : Initiated

-- `s.rtc = rtc`
unfoldable pub set_rtc : ℕ → Option JoinSession → JoinManager → JoinManager
set_rtc ref none j = j
set_rtc ref (some s) j = store ref (record s { rtc = true }) j

session_made : Initiated → Bool
session_made turn_failed = false
session_made session_failed = false
session_made _ = true

unfoldable pub offer_of : Option JoinSession → List (ℕ × Sent) → ℕ → List (ℕ × Sent)
offer_of none out peer = out
offer_of (some s) out peer = out ++ (peer, offer s.session_id) ∷ []

unfoldable pub start_initiator : ℕ → Initiated → JoinManager → JoinManager
unfolding set_rtc session_made offer_of
start_initiator ref offered j =
    let k = set_rtc ref (lookup ref j.heap) j in
    record k { outbox = offer_of (lookup ref j.heap) k.outbox k.peer_pmid }
start_initiator ref outcome j =
    if session_made outcome then set_rtc ref (lookup ref j.heap) j else j

-- What ends the wait for the host: the channels, or the minute.
pub data Wake : Type 0 where
  accepted : Initiated → Wake
  rejected timed_out : Wake

unfoldable pub initiate : ℕ → Initiated → JoinManager → JoinManager
unfolding start_initiator leave close_session
initiate ref offered j = start_initiator ref offered j
initiate ref failed j = leave ref (close_session ref (start_initiator ref failed j))

unfoldable pub wake : ℕ → ℕ → Wake → JoinManager → JoinManager
unfolding initiate return_early
wake ref conn (accepted outcome) j = initiate ref outcome j
wake ref conn rejected j = return_early ref conn j
wake ref conn timed_out j = return_early ref conn j

-- The data channel did not open, or `startTcpBridge` returned.
unfoldable pub finish : ℕ → JoinManager → JoinManager
unfolding leave close_session
finish ref j = leave ref (close_session ref j)

pub data Verdict : Type 0 where
  join_accepted join_rejected other_type : Verdict

-- Closing a closed channel panics.
unfoldable pub close_channel : ℕ → Verdict → JoinSession → JoinManager → JoinManager
close_channel ref join_accepted s j =
    if s.accept_closed
    then record j { panicked = true }
    else store ref (record s { accept_closed = true }) j
close_channel ref join_rejected s j =
    if s.reject_closed
    then record j { panicked = true }
    else store ref (record s { reject_closed = true }) j
close_channel ref other_type s j = j

unfoldable pub with_ref : ℕ → Option JoinSession → Option (ℕ × JoinSession)
with_ref ref none = none
with_ref ref (some s) = some (ref, s)

unfoldable pub session_behind : List (ℕ × JoinSession) → Option ℕ → Option (ℕ × JoinSession)
unfolding with_ref
session_behind heap none = none
session_behind heap (some ref) = with_ref ref (lookup ref heap)

-- The session behind `j.current`.
unfoldable pub current_session : JoinManager → Option (ℕ × JoinSession)
unfolding session_behind
current_session j = session_behind j.heap j.current

unfoldable pub on_verdict : String → Verdict → Option (ℕ × JoinSession) → JoinManager → JoinManager
unfolding close_channel
on_verdict sid v none j = j
on_verdict sid v (some (ref, s)) j = if s.session_id == sid then close_channel ref v s j else j

unfoldable pub on_friend_join : ℕ → String → Verdict → JoinManager → JoinManager
unfolding on_verdict
on_friend_join from sid v j =
    if from == j.peer_pmid then on_verdict sid v (current_session j) j else j

answer_to : String → Bool → Option (ℕ × JoinSession) → JoinManager → JoinManager
unfolding close_session
answer_to sid taken none j = j
answer_to sid taken (some (ref, s)) j =
    if (s.session_id == sid) && (s.rtc && not taken) then close_session ref j else j

-- `handleAnswer`; `taken` says that `HandleAnswer` of the WebRTC session gave no error.
unfoldable pub handle_answer : ℕ → String → Bool → JoinManager → JoinManager
unfolding answer_to
handle_answer from sid taken j =
    if from == j.peer_pmid then answer_to sid taken (current_session j) j else j

ice_to : String → Candidate → Option (ℕ × JoinSession) → JoinManager → JoinManager
ice_to sid c none j = j
ice_to sid c (some (ref, s)) j =
    if (s.session_id == sid) && s.rtc
    then store ref
        (record s {
          remote_ice =
              s.remote_ice ++ record c { sdp_mline_index = c.sdp_mline_index % 2 ^ 16 } ∷ [];
        })
        j
    else j

-- `handleICE`; the candidate is none where `ParseIceCandidate` fails.
unfoldable pub handle_ice : ℕ → String → Option Candidate → JoinManager → JoinManager
unfolding ice_to
handle_ice from sid none j = j
handle_ice from sid (some c) j =
    if from == j.peer_pmid then ice_to sid c (current_session j) j else j

unfoldable pub close_current : Option ℕ → JoinManager → JoinManager
unfolding close_session
close_current none j = j
close_current (some ref) j = close_session ref j

-- `JoinManager.Close` of a manager whose accept loop was started; a second call closes `stopCh` again.
unfoldable pub close_manager : JoinManager → JoinManager
unfolding close_current
close_manager j =
    if j.stopped
    then record j { panicked = true }
    else close_current j.current (record j { stopped = true; current = none })
