-- ===== src/Signaling/Rpc.antt =====
-- internal/signaling/jsonrpc.go and turn.go: calls that wait for their reply. The channel of a call has
-- the call's number; a write to the WebSocket is an argument, true where there is a connection and it
-- takes the text.
pub mod Replies
use open_friend_mc.Prelude.{
  ℕ, suc, Bool, true, false, List, [], ◌∷◌, ◌++◌, Option, none, some, String, comparable_nat,
  if◌then◌else◌, Result, ok, err, Bytes, concat, map,
}
use open_friend_mc.Prelude.Assoc.{lookup, insert, erase}
use open_friend_mc.Signaling.Dispatch.{Inbox, Reply, waiting, closed, value}

pub data Outgoing : Type 0 where
  notification : String → Bytes → Outgoing
  request : ℕ → String → Bytes → Outgoing
  response : Bytes → Bytes → Outgoing

pub data RpcError : Type 0 where
  not_sent rpc_failed timed_out bad_json no_servers : RpcError

pub record Calls (A : Type 0) : Type 0 where
  pub inbox : Inbox A
  pub rpc_id : ℕ
  pub sent : List Outgoing

module _ {A : Type 0} where
  unfoldable pub send_json : Bool → Outgoing → Calls A → Calls A × Result RpcError (Unit {0})
  send_json written m s =
      if written then (record s { sent = s.sent ++ m ∷ [] }, ok tt) else (s, err not_sent)

  unfoldable pub send_notification :
      Bool → String → Bytes → Calls A → Calls A × Result RpcError (Unit {0})
  unfolding send_json
  send_notification written method params s = send_json written (notification method params) s

  unfoldable pub send_request :
      Bool → String → Bytes → Calls A → Calls A × Result RpcError (Unit {0})
  unfolding send_json
  send_request written method params s =
      let id = suc s.rpc_id in
      send_json written (request id method params) (record s { rpc_id = id })

  unfoldable pub send_response :
      Bool → Bytes → Bytes → Calls A → Calls A × Result RpcError (Unit {0})
  unfolding send_json
  send_response written id result s = send_json written (response id result) s

  unfoldable pub forget : ℕ → Calls A → Calls A
  forget id s = record s { inbox = record (s.inbox) { pending = erase id s.inbox.pending } }

  begun : ℕ → Calls A × Result RpcError (Unit {0}) → Calls A × Result RpcError ℕ
  unfolding forget
  begun id (s, err e) = (forget id s, err e)
  begun id (s, ok u) = (s, ok id)

  -- `sendRequestAwait` up to its wait.
  unfoldable pub begin_await : Bool → String → Bytes → Calls A → Calls A × Result RpcError ℕ
  unfolding begun send_json
  begin_await written method params s =
      let id = suc s.rpc_id in
      begun id (
        send_json written (request id method params) (record s {
          rpc_id = id;
          inbox = record (s.inbox) {
            channels = insert id waiting s.inbox.channels;
            pending = insert id id s.inbox.pending;
          };
        }))

  taken : ℕ → Option Reply → Calls A → Calls A × Result RpcError Bytes
  unfolding forget
  taken id none s = (forget id s, err timed_out)
  taken id (some waiting) s = (forget id s, err timed_out)
  taken id (some closed) s = (s, err rpc_failed)
  taken id (some (value raw)) s = (s, ok raw)

  -- The end of its wait: the reply, or, where there is none yet, the context's end.
  unfoldable pub end_await : ℕ → Calls A → Calls A × Result RpcError Bytes
  unfolding taken
  end_await id s = taken id (lookup id s.inbox.channels) s

pub record TurnServer : Type 0 where
  pub username : String
  pub password : String
  pub urls : List String

pub record TurnAuth : Type 0 where
  pub username : String
  pub password : String
  pub urls : List String

urls_of : TurnServer → List String
urls_of server = server.urls

auth_of : Option (List TurnServer) → Result RpcError TurnAuth
unfolding urls_of
auth_of none = err bad_json
auth_of (some []) = err no_servers
auth_of (some (first ∷ others)) = ok (record {
  username = first.username;
  password = first.password;
  urls = concat (map urls_of (first ∷ others));
})

-- The end of `RequestTurnAuth`, with the decoder of its reply.
unfoldable pub turn_auth_of :
    (Bytes → Option (List TurnServer)) → Result RpcError Bytes → Result RpcError TurnAuth
unfolding auth_of
turn_auth_of decode (err e) = err e
turn_auth_of decode (ok raw) = auth_of (decode raw)
