-- ===== src/Signaling/Rpc/Replies.antt =====
-- internal/signaling/jsonrpc.go and dispatch.go: a reply reaches the call that waits for it.
use open_friend_mc.Prelude.{
  ℕ, suc, ◌≡◌, refl, ◌∙◌, true, List, Option, none, some, String, ==_refl, comparable_nat,
  comparable_string, ok, Bytes,
}
use open_friend_mc.Prelude.Assoc.{lookup, insert, erase, lookup-insert, lookup-erase}
use open_friend_mc.Signaling.Dispatch.{RpcMessage, value, Listener, Decoders, handle_message}
use open_friend_mc.Signaling.Dispatch.Filling.{handle_message-waiting, handle_message-unknown}
use open_friend_mc.Signaling.Rpc.{Calls, send_json, begin_await, begun, end_await, taken}

module _ {A : Type 0} (d : Decoders) (on_join on_rtc : Option (Listener A)) where
  -- The calls, when a text came in.
  abbrev pub receive : Bytes → Calls A → Calls A
  receive raw s = record s { inbox = handle_message d on_join on_rtc raw s.inbox }

  lookup-inserted :
      {V : Type 0} (id : ℕ) (v : V) (m : List (ℕ × V)) → lookup id (insert id v m) ≡ some v
  lookup-inserted id v m = lookup-insert id id v m ∙ rw (==_refl id) refl

  lookup-erased : {V : Type 0} (id : ℕ) (m : List (ℕ × V)) → lookup id (erase id m) ≡ none
  lookup-erased id m = lookup-erase id id m ∙ rw (==_refl id) refl

  -- When a call was sent and the next text that comes in is a result with the call's number, then the
  -- call returns that result and waits no longer; another result with that number, whatever it says,
  -- then changes nothing.
  pub end_await-receive :
      (method : String) (params raw rid found raw2 rid2 found2 : Bytes) (msg msg2 : RpcMessage)
      (s : Calls A)
      → d.message raw ≡ some msg
      → msg.method ≡ ""
      → msg.id ≡ some rid
      → d.number rid ≡ some (suc s.rpc_id)
      → msg.error ≡ none
      → msg.outcome ≡ some found
      → d.message raw2 ≡ some msg2
      → msg2.method ≡ ""
      → msg2.id ≡ some rid2
      → d.number rid2 ≡ some (suc s.rpc_id)
      → msg2.error ≡ none
      → msg2.outcome ≡ some found2
      → let after = receive raw (begin_await true method params s).0 in
        ((end_await (suc s.rpc_id) after).1 ≡ ok found)
        × ((lookup (suc s.rpc_id) after.inbox.pending ≡ none) × (receive raw2 after ≡ after))
  unfolding begin_await begun send_json end_await taken
  end_await-receive method params raw rid found raw2 rid2 found2 msg msg2 s decoded no_method
        numbered number no_error result decoded2 no_method2 numbered2 number2 no_error2 result2 =
      let id = suc s.rpc_id in
      let waits = (begin_await true method params s).0 in
      let filled =
        handle_message-waiting d on_join on_rtc raw rid found msg id decoded no_method numbered
          number no_error result waits.inbox id (lookup-inserted id id s.inbox.pending) in
      let gone = lookup-erased id waits.inbox.pending in
      let after = record waits {
        inbox = record (waits.inbox) {
          pending = erase id waits.inbox.pending;
          channels = insert id (value found) waits.inbox.channels;
        };
      } in
      let again =
        handle_message-unknown d on_join on_rtc raw2 rid2 found2 msg2 id decoded2 no_method2
          numbered2 number2 no_error2 result2 after.inbox gone in
      let held = lookup-inserted id (value found) waits.inbox.channels in
      rw filled (rw held refl, (gone, rw again refl))
