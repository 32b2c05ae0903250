-- ===== src/Bridge/Pump.antt =====
-- internal/bridge/tcp.go, host.go and join.go: the two loops that read a TCP connection and send what
-- they read over the data channel, `readLoop` of `TCPBridge` with the callback of `attachTCP`, and
-- `startTcpBridge` of `joinSession`.
pub mod NoGaps
pub mod Complete
use open_friend_mc.Prelude.{
  ℕ, Bool, true, false, ◌||◌, List, [], ◌∷◌, ◌++◌, Option, none, some, Result, ok, err, Bytes,
  is_empty, if◌then◌else◌,
}
use open_friend_mc.Bridge.Session.{Session, SessionError, send, wait_for_buffer_drain}

abbrev pub max_buffered : ℕ
max_buffered = 1048576

-- One round, as the network decides it: the bytes that `Read` gives and whether it fails, what the
-- wait for the send queue sees, whether the channel is open for `Send`, and whether it takes the bytes.
pub record Round : Type 0 where
  pub rtc : Option Session
  pub bytes : Bytes
  pub failed : Bool
  pub seen : List (Bool × ℕ)
  pub is_open : Bool
  pub taken : Bool

-- What was sent, whether the loop is over, and whether it waits on. What `readLoop` does when it is over,
-- the deferred `Close`, is `read_ended` of Bridge/HostSession.antt.
pub record Pump : Type 0 where
  pub sent : List Bytes
  pub ended : Bool
  pub waiting : Bool

abbrev pub fresh_pump : Pump
fresh_pump = record { sent = []; ended = false; waiting = false }

unfoldable pub stops : Pump → Bool
stops p = p.ended || p.waiting

sent_down : Result SessionError (Unit {0}) → Round → Pump → Pump
sent_down (ok u) r p = record p { sent = p.sent ++ r.bytes ∷ [] }
sent_down (err e) r p = p

drained : Option (Result SessionError (Unit {0})) → Session → Round → Pump → Pump
unfolding sent_down
drained none s r p = record p { waiting = true }
drained (some (err e)) s r p = p
drained (some (ok u)) s r p = sent_down (send r.is_open r.taken s) r p

-- The callback of `attachTCP`.
send_down : Option Session → Round → Pump → Pump
unfolding drained
send_down none r p = p
send_down (some s) r p = drained (wait_for_buffer_drain max_buffered r.seen s) s r p

read_round : Round → Pump → Pump
unfolding send_down
read_round r p =
    let q = if is_empty r.bytes then p else send_down r.rtc r p in
    if q.waiting then q else record q { ended = r.failed }

unfoldable pub read_loop : List Round → Pump → Pump
unfolding read_round
read_loop [] p = p
read_loop (r ∷ rs) p =
    let q = read_round r p in let rest = read_loop rs q in if stops q then q else rest

join_sent : Result SessionError (Unit {0}) → Round → Pump → Pump
join_sent (ok u) r p = record p { sent = p.sent ++ r.bytes ∷ []; ended = r.failed }
join_sent (err e) r p = record p { ended = true }

join_read : Session → Round → Pump → Pump
unfolding join_sent
join_read s r p =
    if is_empty r.bytes
    then record p { ended = r.failed }
    else join_sent (send r.is_open r.taken s) r p

join_drained : Option (Result SessionError (Unit {0})) → Session → Round → Pump → Pump
unfolding join_read
join_drained none s r p = record p { waiting = true }
join_drained (some (err e)) s r p = record p { ended = true }
join_drained (some (ok u)) s r p = join_read s r p

unfoldable pub join_loop : Session → List Round → Pump → Pump
unfolding join_drained
join_loop s [] p = p
join_loop s (r ∷ rs) p =
    let q = join_drained (wait_for_buffer_drain max_buffered r.seen s) s r p in
    let rest = join_loop s rs q in if stops q then q else rest
