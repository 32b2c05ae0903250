-- ===== src/Ipc/Hosting/Join.antt =====
-- internal/ipc/methods_host.go: `join.start` and `join.stop`.
use open_friend_mc.Prelude.{
  ℕ, suc, Bool, true, false, not, ◌&&◌, [], ◌∷◌, ◌++◌, Option, none, some, Result, ok, err, ◌>>=◌,
  ◌>>◌, fail_if, is_empty, ◌==◌, comparable_nat, if◌then◌else◌, codes,
}
use open_friend_mc.Prelude.Text.{Text, trim_space, same_text}
use open_friend_mc.Api.Dtos.{nil_uuid}
use open_friend_mc.Ipc.Hosting.State.{
  sig, jm, join_started, join_stopped, World, RpcError, not_authenticated, invalid_params,
  not_found, listen_failed, close_handles,
}

pub record Peer : Type 0 where
  pub name : Text
  pub pmid : ℕ

-- `resolveJoinPeer` is what the request's `pmid` parses to, or the API's answer; `first_listen` says
-- that the wanted address could be bound, `other` is the address of the second try.
pub record JoinStartRequest : Type 0 where
  pub authenticated : Bool
  pub params_ok : Bool
  pub name : Text
  pub profile_id : Text
  pub pmid : Text
  pub listen : Text
  pub parsed_pmid : Option ℕ
  pub resolved : Result RpcError Peer
  pub first_listen : Bool
  pub other : Option Text

pub data JoinAnswer : Type 0 where
  joined : Text → Option ℕ → Text → JoinAnswer

unfoldable pub parsed_peer : Option ℕ → Result RpcError Peer
parsed_peer none = err invalid_params
parsed_peer (some id) = ok (record { name = []; pmid = id })

unfoldable pub with_pmid : Peer → Result RpcError Peer
with_pmid p = if p.pmid == nil_uuid then err not_found else ok p

unfoldable pub resolve_join_peer : JoinStartRequest → Result RpcError Peer
unfolding parsed_peer with_pmid
resolve_join_peer r =
    if is_empty r.pmid then r.resolved >>= with_pmid else parsed_peer r.parsed_pmid

abbrev default_listen : Text
default_listen = codes "127.0.0.1:25577"

abbrev pub wanted_listen : JoinStartRequest → Text
wanted_listen r = if is_empty r.listen then default_listen else r.listen

unfoldable pub bound_address : JoinStartRequest → Result RpcError Text
bound_address r = if r.first_listen then ok (wanted_listen r) else elim r.other [
  | none ↦ err listen_failed
  | some addr ↦ ok (if is_empty addr then wanted_listen r else addr)
]

-- The block that takes the running join out of the state.
unfoldable pub cleared_join : World → World
cleared_join w = record w {
  host = record (w.host) {
    join_handles = [];
    join_running = false;
    join_peer = [];
    join_listen = [];
  };
}

-- `Close` of what that join holds; the handles of no join are none.
unfoldable pub close_join : World → World
unfolding cleared_join
close_join w = close_handles w.host.join_handles (cleared_join w)

-- `prevRunning && prevPeer == strings.TrimSpace(p.Name) && prevListen == p.Listen`
abbrev pub same_join : JoinStartRequest → World → Bool
same_join r w =
    w.host.join_running
    && (same_text w.host.join_peer (trim_space r.name)
        && same_text w.host.join_listen (wanted_listen r))

unfoldable pub store_join : World → Peer → Text → World × Result RpcError JoinAnswer
store_join w peer listen =
    let n = w.next_handle in
    let started = jm n ∷ sig n ∷ [] in
    (
      record w {
        host = record (w.host) {
          join_handles = started;
          join_peer = peer.name;
          join_listen = listen;
          join_running = true;
        };
        live = started ++ w.live;
        next_handle = suc n;
        notes = w.notes ++ join_started peer.name peer.pmid listen ∷ [];
      },
      ok (joined peer.name (some peer.pmid) listen),
    )

unfoldable pub bind_join :
    World → JoinStartRequest → Peer → Result RpcError Text → World × Result RpcError JoinAnswer
unfolding store_join
bind_join w r peer (err e) = (w, err e)
bind_join w r peer (ok listen) = store_join w peer listen

unfoldable pub start_join :
    World → JoinStartRequest → Result RpcError Peer → World × Result RpcError JoinAnswer
unfolding bind_join bound_address
start_join w r (err e) = (w, err e)
start_join w r (ok peer) = bind_join w r peer (bound_address r)

-- What `joinStart` does with a request that passed its checks.
unfoldable pub switch_join : JoinStartRequest → World → World × Result RpcError JoinAnswer
unfolding start_join close_join
switch_join r w =
    if same_join r w
    then (w, ok (joined w.host.join_peer none w.host.join_listen))
    else start_join (close_join w) r (resolve_join_peer r)

unfoldable pub join_checks : JoinStartRequest → Result RpcError (Unit {0})
join_checks r = do
  fail_if (not r.authenticated) not_authenticated
  fail_if (not r.params_ok) invalid_params
  fail_if (is_empty r.name && (is_empty r.profile_id && is_empty r.pmid)) invalid_params

unfoldable pub checked_join :
    JoinStartRequest → World → Result RpcError (Unit {0}) → World × Result RpcError JoinAnswer
unfolding switch_join
checked_join r w (err e) = (w, err e)
checked_join r w (ok _) = switch_join r w

unfoldable pub join_start : JoinStartRequest → World → World × Result RpcError JoinAnswer
unfolding checked_join join_checks
join_start r w = checked_join r w (join_checks r)

unfoldable pub join_stop : World → World
unfolding close_join
join_stop w =
    if w.host.join_running
    then (let closed = close_join w in
        record closed { notes = closed.notes ++ join_stopped w.host.join_peer ∷ [] })
    else w
