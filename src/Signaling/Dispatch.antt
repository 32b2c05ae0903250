-- ===== src/Signaling/Dispatch.antt =====
-- internal/signaling/dispatch.go: from a text of the WebSocket to a listener. JSON and UUIDs are
-- arguments; an absent part of a message is none.
pub mod Routing
pub mod Filling
use open_friend_mc.Prelude.{
  ℕ, suc, Bool, true, false, not, ◌&&◌, ◌||◌, List, [], ◌∷◌, ◌++◌, Option, none, some, String, ◌==◌,
  comparable_string, comparable_nat, if◌then◌else◌, Bytes, codes, is_empty,
}
use text.Mathlib.Text.{starts_with}
use open_friend_mc.Prelude.Assoc.{lookup, insert, erase}
use open_friend_mc.Prelude.Text.{same_text}
use open_friend_mc.Prelude.Json.{Json, Fields, text_at}

-- `rpcMessage`; the parts but the method are raw JSON.
pub record RpcMessage : Type 0 where
  pub id : Option Bytes
  pub method : String
  pub params : Bytes
  pub outcome : Option Bytes
  pub error : Option Bytes

-- The reply in a channel of `pending`, where `closed` has none.
pub data Reply : Type 0 where
  waiting closed : Reply
  value : Bytes → Reply

-- A listener's effect on the program, and whether it panicked.
abbrev pub Listener : Type 0 → Type 0
Listener A = ℕ → Fields → A → A × Bool

pub record Decoders : Type 0 where
  pub message : Bytes → Option RpcMessage
  pub number : Bytes → Option ℕ
  pub envelopes : Bytes → Option (List Fields)
  pub payload : String → Option Fields
  pub uuid : String → Option ℕ

-- `pending` maps the ids of the calls that wait to their channels; `acknowledged` logs the calls of
-- `sendResponse`, `recovered` counts the panics that `safeCall` caught.
pub record Inbox (A : Type 0) : Type 0 where
  pub app : A
  pub pending : List (ℕ × ℕ)
  pub channels : List (ℕ × Reply)
  pub acknowledged : List Bytes
  pub recovered : ℕ

module _ {A : Type 0} (d : Decoders) (on_join on_rtc : Option (Listener A)) where
  called : A × Bool → Inbox A → Inbox A
  called (a, panicked) s = record s {
    app = a;
    recovered = if panicked then suc s.recovered else s.recovered;
  }

  -- `safeCall` of a listener that may be nil.
  unfoldable pub safe_call : Option (Listener A) → ℕ → Fields → Inbox A → Inbox A
  unfolding called
  safe_call none from payload s = s
  safe_call (some l) from payload s = called (l from payload s.app) s

  abbrev pub is_join : String → Bool
  is_join typ = starts_with typ "JOIN_" || typ == "INVITE_DECLINED"

  abbrev pub is_rtc : String → Bool
  is_rtc typ = (typ == "OFFER") || ((typ == "ANSWER") || (typ == "ICE_CANDIDATE"))

  unfoldable pub route : ℕ → Fields → Inbox A → Inbox A
  unfolding safe_call
  route from payload s =
      let typ = text_at "type" payload in
      if is_join typ
      then safe_call on_join from payload s
      else if is_rtc typ
      then safe_call on_rtc from payload s
      else s

  with_payload : ℕ → Option Fields → Inbox A → Inbox A
  unfolding route
  with_payload from none s = s
  with_payload from (some payload) s = route from payload s

  with_pmid : Fields → Option ℕ → Inbox A → Inbox A
  unfolding with_payload
  with_pmid envelope none s = s
  with_pmid envelope (some from) s = with_payload from (d.payload (text_at "Message" envelope)) s

  with_envelopes : Option (List Fields) → Inbox A → Inbox A
  unfolding with_pmid
  with_envelopes none s = s
  with_envelopes (some []) s = s
  with_envelopes (some (envelope ∷ more)) s =
      with_pmid envelope (d.uuid (text_at "From" envelope)) s

  unfoldable pub acknowledge : Option Bytes → Inbox A → Inbox A
  acknowledge none s = s
  acknowledge (some id) s =
      if not (is_empty id) && not (same_text id (codes "null"))
      then record s { acknowledged = s.acknowledged ++ id ∷ [] }
      else s

  unfoldable pub handle_receive_message : Option Bytes → Bytes → Inbox A → Inbox A
  unfolding acknowledge with_envelopes
  handle_receive_message id params s = with_envelopes (d.envelopes params) (acknowledge id s)

  unfoldable pub handle_incoming_method : RpcMessage → Inbox A → Inbox A
  unfolding handle_receive_message
  handle_incoming_method msg s =
      if msg.method == "Signaling_ReceiveMessage_v1_0"
      then handle_receive_message msg.id msg.params s
      else s

  -- The channel's reply: none where the answer is an error.
  reply_of : Option Bytes → Option Bytes → Reply
  reply_of (some error) outcome = closed
  reply_of none (some raw) = value raw
  reply_of none none = value []

  fill : ℕ → Reply → Option ℕ → Inbox A → Inbox A
  fill id reply none s = s
  fill id reply (some channel) s = record s {
    pending = erase id s.pending;
    channels = insert channel reply s.channels;
  }

  handle_reply : RpcMessage → Option ℕ → Inbox A → Inbox A
  unfolding fill reply_of
  handle_reply msg none s = s
  handle_reply msg (some id) s = fill id (reply_of msg.error msg.outcome) (lookup id s.pending) s

  abbrev given : Option Bytes → Bool
  given none = false
  given (some raw) = true

  abbrev number_of : Option Bytes → Option ℕ
  number_of none = none
  number_of (some raw) = d.number raw

  handle_decoded : Option RpcMessage → Inbox A → Inbox A
  unfolding handle_incoming_method handle_reply
  handle_decoded none s = s
  handle_decoded (some msg) s =
      if not (msg.method == "")
      then handle_incoming_method msg s
      else if given msg.id && (given msg.outcome || given msg.error)
      then handle_reply msg (number_of msg.id) s
      else s

  -- `handleMessage`
  unfoldable pub handle_message : Bytes → Inbox A → Inbox A
  unfolding handle_decoded
  handle_message raw s = handle_decoded (d.message raw) s
