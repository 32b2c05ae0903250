-- ===== src/Examples/Channels.antt =====
-- The WebRTC session and the signaling client at concrete inputs.
use open_friend_mc.Prelude.{
  is_empty, if◌then◌else◌, ℕ, suc, ◌≡◌, refl, true, false, List, [], ◌∷◌, Option, none, some,
  String, codes, concat, ok, comparable_nat, comparable_string,
}
use open_friend_mc.Prelude.Assoc.{lookup}
use open_friend_mc.Prelude.Json.{Fields, field, no_fields, text, at, text_at}
use open_friend_mc.Bridge.Host.{Candidate}
use open_friend_mc.Bridge.Session.{acceptor, new_session, attach_data_channel, on_messages}
use open_friend_mc.Bridge.Session.Warmup.{attach_data_channel_stream}
use open_friend_mc.Bridge.Session.Candidates.{
  Event, offer, remote_candidate, came, run, InOrder, run-InOrder,
}
use open_friend_mc.Signaling.Client.{
  connects, begins, dials, settles, read_ends, new_client, connect, schedule_reconnect,
  handle_close, opened, step,
}
use open_friend_mc.Signaling.Client as Connection
use open_friend_mc.Signaling.Client.Alive.{IsConnected, comeback, run-comeback}
use open_friend_mc.Signaling.Dispatch.{
  RpcMessage, Listener, Decoders, Inbox, safe_call, acknowledge, handle_receive_message,
}
use open_friend_mc.Signaling.Dispatch.Routing.{
  Sent, sent_offer, fields_of, ReadBack, handle_receive_message-sent,
}
use open_friend_mc.Signaling.Rpc.{Calls, begin_await, end_await}
use open_friend_mc.Signaling.Rpc.Replies.{receive, end_await-receive}

-- The warm-up message comes in two pieces, the second with data behind it.
warmed_up :
    concat
      (on_messages
        (attach_data_channel true (new_session acceptor))
        (codes "OF" ∷ codes "W0hello" ∷ codes " you" ∷ [])).delivered
    ≡ codes "hello you"
warmed_up =
    attach_data_channel_stream acceptor true (codes "OF" ∷ codes "W0hello" ∷ codes " you" ∷ [])

candidate : String → Candidate
candidate line = record { candidate = line; sdp_mid = "0"; sdp_mline_index = 0 }

-- A candidate comes before the offer and one behind it.
trickle : List Event
trickle =
    remote_candidate (candidate "early")
    ∷ offer true true
    ∷ remote_candidate (candidate "late")
    ∷ []

trickled : InOrder (came trickle) (run (new_session acceptor) trickle)
trickled = run-InOrder acceptor trickle

-- The connection was lost once.
lost : List Connection.Event
lost = connects ∷ begins ∷ dials ∷ settles ∷ read_ends true ∷ []

comes_back :
    IsConnected
      (Connection.run (Connection.run new_client lost) (comeback (Connection.run new_client lost)))
unfolding lost Connection.run step new_client connect schedule_reconnect handle_close opened
comes_back = run-comeback lost refl

envelope : Fields
envelope = field "From" (text "pmid") (field "Message" (text "inner") no_fields)

an_offer : Sent
an_offer = sent_offer "session" "v=0"

reply : RpcMessage
reply = record {
  id = some (codes "1");
  method = "";
  params = [];
  outcome = some (codes "{}");
  error = none;
}

-- Another result with the number.
second_reply : RpcMessage
unfolding reply
second_reply = record reply { outcome = some (codes "late") }

decoders : Decoders
unfolding reply second_reply envelope an_offer fields_of
decoders = record {
  message = λ raw. if is_empty raw then some reply else some second_reply;
  number = λ raw. some 1;
  envelopes = λ params. some (envelope ∷ []);
  payload = λ inner. some (fields_of an_offer);
  uuid = λ from. some 9;
}

-- A listener that counts its calls.
counting : Option (Listener ℕ)
counting = some (λ from payload calls. (suc calls, false))

inbox : Inbox ℕ
inbox = record { app = 0; pending = []; channels = []; acknowledged = []; recovered = 0 }

offer_routed :
    (handle_receive_message decoders none counting none [] inbox
      ≡ safe_call decoders none counting counting 9
          (fields_of an_offer)
          (acknowledge decoders none counting none inbox))
    × ReadBack an_offer (fields_of an_offer)
unfolding decoders envelope an_offer at text_at
offer_routed =
    handle_receive_message-sent decoders none counting an_offer none [] envelope [] 9 inbox refl
      refl refl

calls : Calls ℕ
calls = record { inbox = inbox; rpc_id = 0; sent = [] }

reply_taken :
    let after =
      receive decoders none counting [] (begin_await true "Signaling_TurnAuth_v1_0" [] calls).0 in
    ((end_await 1 after).1 ≡ ok (codes "{}"))
    × ((lookup 1 after.inbox.pending ≡ none)
        × (receive decoders none counting (codes "late") after ≡ after))
unfolding decoders reply second_reply calls
reply_taken =
    end_await-receive decoders none counting "Signaling_TurnAuth_v1_0" [] [] (codes "1")
      (codes "{}") (codes "late") (codes "1") (codes "late") reply second_reply calls refl refl refl
      refl refl refl refl refl refl refl refl refl
