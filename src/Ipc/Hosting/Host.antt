-- ===== src/Ipc/Hosting/Host.antt =====
-- internal/ipc/methods_host.go: `host.start`, `host.stop` and `host.status`.
use open_friend_mc.Prelude.{
  ℕ, suc, Bool, true, false, not, List, [], ◌∷◌, ◌++◌, Option, none, some, Result, ok, err, ◌>>=◌,
  ◌>>◌, fail_if, is_empty, comparable_nat, if◌then◌else◌,
}
use open_friend_mc.Prelude.Text.{Text, trim_space}
use open_friend_mc.Api.Dtos.{status_online, status_playing_hosted_server}
use open_friend_mc.Ipc.Hosting.State.{
  sig, pm, bc, host_started, host_stopped, World, RpcError, not_authenticated, invalid_params,
  already_running, not_found, close_handles,
}

-- `ParseTarget` accepted the target; the key is none where `LoadOrAbsent` found no file.
pub record HostStartRequest : Type 0 where
  pub authenticated : Bool
  pub params_ok : Bool
  pub target : Text
  pub target_ok : Bool
  pub use_bypass : Bool
  pub key : Result RpcError (Option (List ℕ))

unfoldable pub found_key : Option (List ℕ) → Result RpcError (Option (List ℕ))
found_key none = err not_found
found_key (some k) = ok (some k)

unfoldable pub bypass_bytes : HostStartRequest → Result RpcError (Option (List ℕ))
unfolding found_key
bypass_bytes r = if r.use_bypass then r.key >>= found_key else ok none

abbrev pub is_some {ℓ} : {A : Type ℓ} → Option A → Bool
is_some none = false
is_some (some a) = true

-- The first half of `hostStart`: all up to the block that stores the new state. It reads the state
-- under the lock and then lets go of the lock.
unfoldable pub host_start_checks :
    HostStartRequest → World → Result RpcError (Text × Option (List ℕ))
unfolding bypass_bytes
host_start_checks r w = do
  fail_if (not r.authenticated) not_authenticated
  fail_if (not r.params_ok) invalid_params
  let target = trim_space r.target
  fail_if (is_empty target) invalid_params
  fail_if (not r.target_ok) invalid_params
  fail_if w.host.running already_running
  key ← bypass_bytes r
  ok (target, key)

-- The second half: the new client, manager and broadcaster are stored and started.
unfoldable pub host_start_commit : Text × Option (List ℕ) → World → World
host_start_commit (target, key) w =
    let n = w.next_handle in
    let started = sig n ∷ pm n ∷ bc n ∷ [] in
    record w {
      host = record (w.host) {
        host_handles = started;
        target = target;
        bypass_used = is_some key;
        running = true;
      };
      live = started ++ w.live;
      next_handle = suc n;
      current_status = status_playing_hosted_server;
      notes = w.notes ++ host_started target (is_some key) ∷ [];
    }

unfoldable pub answer_start :
    World → Result RpcError (Text × Option (List ℕ)) → World × Result RpcError Text
answer_start w (err e) = (w, err e)
answer_start w (ok (target, key)) = (host_start_commit (target, key) w, ok target)

-- `hostStart` when no other request comes between its halves.
unfoldable pub host_start : HostStartRequest → World → World × Result RpcError Text
unfolding answer_start
host_start r w = answer_start w (host_start_checks r w)

-- The block that takes the running host out of the state.
unfoldable pub cleared_host : World → World
cleared_host w = record w {
  host = record (w.host) { host_handles = []; running = false; target = []; bypass_used = false };
}

unfoldable pub stop_running_host : World → World
unfolding cleared_host
stop_running_host w =
    let closed = close_handles w.host.host_handles (cleared_host w) in
    record closed {
      current_status = status_online;
      posted_online = suc closed.posted_online;
      notes = closed.notes ++ host_stopped w.host.target ∷ [];
    }

unfoldable pub host_stop : World → World
unfolding stop_running_host
host_stop w = if w.host.running then stop_running_host w else w

unfoldable pub host_status : World → Bool × Text × Bool
host_status w = (w.host.running, w.host.target, w.host.bypass_used)
