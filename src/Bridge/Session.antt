-- ===== src/Bridge/Session.antt =====
-- internal/bridge/session.go: `Session`, one WebRTC connection. What the pion library answers is an
-- argument; its calls are logged in the state.
pub mod Warmup
pub mod Candidates
pub mod ToServer
use open_friend_mc.Prelude.{
  ℕ, suc, ◌-◌, Bool, true, false, not, ◌&&◌, ◌||◌, List, [], ◌∷◌, ◌++◌, Bytes, length, drop,
  is_empty, Option, none, some, codes, ltb, leb, if◌then◌else◌, Result, ok, err,
}
use open_friend_mc.Bridge.Host.{Candidate}

pub data Role : Type 0 where
  acceptor initiator : Role

-- `has_pc` and `has_dc` say that the pointers are not nil, `open_closed` that `dcOpenCh` is closed.
-- `added_ice` logs the calls of `AddICECandidate`, `delivered` those of `onData`, `warmups` counts the
-- warm-up messages sent, and the `_calls` count those of `onClose` and of `Close`.
pub record Session : Type 0 where
  pub role : Role
  pub has_pc : Bool
  pub has_dc : Bool
  pub queued_ice : List Candidate
  pub remote_set : Bool
  pub open_closed : Bool
  pub close_fired : Bool
  pub warmup_remaining : ℕ
  pub added_ice : List Candidate
  pub delivered : List Bytes
  pub warmups : ℕ
  pub close_calls : ℕ
  pub dc_close_calls : ℕ
  pub pc_close_calls : ℕ

abbrev pub warmup_magic : Bytes
warmup_magic = codes "OFW0"

unfoldable pub new_session : Role → Session
new_session role = record {
  role = role;
  has_pc = true;
  has_dc = false;
  queued_ice = [];
  remote_set = false;
  open_closed = false;
  close_fired = false;
  warmup_remaining = 0;
  added_ice = [];
  delivered = [];
  warmups = 0;
  close_calls = 0;
  dc_close_calls = 0;
  pc_close_calls = 0;
}

-- `attachDataChannel`; the flag says that the channel is open already.
unfoldable pub attach_data_channel : Bool → Session → Session
attach_data_channel is_open s = record s {
  has_dc = true;
  warmup_remaining = length warmup_magic;
  open_closed = s.open_closed || is_open;
}

-- `OnOpen`; the flag says that the warm-up message could be sent.
unfoldable pub on_open : Bool → Session → Session
on_open sent s = record s {
  open_closed = true;
  warmups = if sent then suc s.warmups else s.warmups;
}

-- `OnMessage`: the bytes that are still missing of the peer's warm-up message are dropped.
unfoldable pub on_message : Session → Bytes → Session
on_message s bytes =
    if ltb 0 s.warmup_remaining
    then (let dropped =
          if ltb (length bytes) s.warmup_remaining then length bytes else s.warmup_remaining in
        let rest = drop dropped bytes in
        record s {
          warmup_remaining = s.warmup_remaining - dropped;
          delivered = if is_empty rest then s.delivered else s.delivered ++ rest ∷ [];
        })
    else record s { delivered = s.delivered ++ bytes ∷ [] }

unfoldable pub on_messages : Session → List Bytes → Session
on_messages s [] = s
on_messages s (bytes ∷ more) = on_messages (on_message s bytes) more

-- `fireClose`
unfoldable pub fire_close : Session → Session
fire_close s =
    if s.close_fired then s else record s { close_fired = true; close_calls = suc s.close_calls }

-- `no_pc` is the fault of a call on a nil peer connection, `refused` an error of the library.
pub data SessionError : Type 0 where
  no_pc refused not_initiator no_channel not_open timed_out : SessionError

abbrev pub Done : Type 0
Done = Session × Result SessionError (Unit {0})

-- The remote description is set: the candidates that came before it are added.
unfoldable pub flush_ice : Session → Session
flush_ice s = record s {
  remote_set = true;
  queued_ice = [];
  added_ice = s.added_ice ++ s.queued_ice;
}

-- `HandleOffer`: whether the description is taken, and the answer made and set.
unfoldable pub handle_offer : Bool → Bool → Session → Done
unfolding flush_ice
handle_offer remote_ok answer_ok s =
    if not s.has_pc
    then (s, err no_pc)
    else (if not remote_ok
        then (s, err refused)
        else (if answer_ok then (flush_ice s, ok tt) else (flush_ice s, err refused)))

abbrev pub is_initiator : Role → Bool
is_initiator acceptor = false
is_initiator initiator = true

unfoldable pub handle_answer : Bool → Session → Done
unfolding flush_ice
handle_answer remote_ok s =
    if not (is_initiator s.role)
    then (s, err not_initiator)
    else (if not s.has_pc
        then (s, err no_pc)
        else (if remote_ok then (flush_ice s, ok tt) else (s, err refused)))

-- `CreateOffer`: whether the channel is made, whether it is open at once, whether the offer is made.
unfoldable pub create_offer : Bool → Bool → Bool → Session → Done
unfolding attach_data_channel
create_offer channel_ok is_open offer_ok s =
    if not (is_initiator s.role)
    then (s, err not_initiator)
    else (if not s.has_pc
        then (s, err no_pc)
        else (if not channel_ok
            then (s, err refused)
            else (if offer_ok
                then (attach_data_channel is_open s, ok tt)
                else (attach_data_channel is_open s, err refused))))

unfoldable pub add_remote_ice : Candidate → Session → Done
add_remote_ice c s =
    if not s.remote_set
    then (record s { queued_ice = s.queued_ice ++ c ∷ [] }, ok tt)
    else (if s.has_pc
        then (record s { added_ice = s.added_ice ++ c ∷ [] }, ok tt)
        else (s, err no_pc))

-- `WaitDataChannelOpen`, where the flag says that the wait did not time out.
unfoldable pub wait_data_channel_open : Bool → Session → Result SessionError (Unit {0})
wait_data_channel_open in_time s =
    if s.open_closed && in_time then (if s.has_dc then ok tt else err no_channel) else err timed_out

-- `Send`: whether the channel is open, and whether the library takes the bytes.
unfoldable pub send : Bool → Bool → Session → Result SessionError (Unit {0})
send is_open taken s =
    if not (s.has_dc && is_open) then err not_open else (if taken then ok tt else err refused)

-- The loop of `WaitForBufferDrain` over what it sees each time round, whether the channel is open and
-- how much it buffers; none where it waits on.
drain_loop : ℕ → List (Bool × ℕ) → Option (Result SessionError (Unit {0}))
drain_loop max_buffered [] = none
drain_loop max_buffered ((is_open, buffered) ∷ seen) =
    let rest = drain_loop max_buffered seen in
    if not is_open
    then some (err not_open)
    else (if leb buffered max_buffered then some (ok tt) else rest)

unfoldable pub wait_for_buffer_drain :
    ℕ → List (Bool × ℕ) → Session → Option (Result SessionError (Unit {0}))
unfolding drain_loop
wait_for_buffer_drain max_buffered seen s =
    if s.has_dc then drain_loop max_buffered seen else some (err no_channel)

unfoldable pub close : Session → Session
close s = record s {
  has_dc = false;
  has_pc = false;
  dc_close_calls = if s.has_dc then suc s.dc_close_calls else s.dc_close_calls;
  pc_close_calls = if s.has_pc then suc s.pc_close_calls else s.pc_close_calls;
}
