-- ===== src/Signaling/Dispatch/Filling.antt =====
-- internal/signaling/dispatch.go: the reply to a call.
use open_friend_mc.Prelude.{
  ℕ, ◌≡◌, refl, Option, none, some, comparable_nat, comparable_string, Bytes,
}
use open_friend_mc.Prelude.Assoc.{lookup, insert, erase}
use open_friend_mc.Signaling.Dispatch.{
  RpcMessage, value, Listener, Decoders, Inbox, handle_message, handle_decoded, handle_reply, fill,
  reply_of,
}

module _ {A : Type 0} (d : Decoders) (on_join on_rtc : Option (Listener A)) (raw rid found : Bytes)
    (msg : RpcMessage) (id : ℕ) (decoded : d.message raw ≡ some msg) (no_method : msg.method ≡ "")
    (numbered : msg.id ≡ some rid) (number : d.number rid ≡ some id) (no_error : msg.error ≡ none)
    (outcome : msg.outcome ≡ some found) (s : Inbox A) where
  pub handle_message-waiting :
      (channel : ℕ)
      → lookup id s.pending ≡ some channel
      → handle_message d on_join on_rtc raw s ≡ record s {
        pending = erase id s.pending;
        channels = insert channel (value found) s.channels;
      }
  unfolding handle_message handle_decoded handle_reply fill reply_of
  handle_message-waiting channel waits =
      simp (decoded, no_method, numbered, number, no_error, outcome, waits) refl

  pub handle_message-unknown :
      lookup id s.pending ≡ none → handle_message d on_join on_rtc raw s ≡ s
  unfolding handle_message handle_decoded handle_reply fill reply_of
  handle_message-unknown unknown =
      simp (decoded, no_method, numbered, number, no_error, outcome, unknown) refl
