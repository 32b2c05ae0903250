-- ===== src/Ipc/Hosting/Stopping.antt =====
-- internal/ipc/methods_host.go: what `host.stop` and `join.stop` leave running.
use open_friend_mc.Prelude.{
  ℕ, ◌<◌, ◌≡◌, refl, ap, ◌∙◌, arith, Bool, true, false, List, [], Option, ok, if_lem,
}
use open_friend_mc.Prelude.Text.{Text}
use open_friend_mc.Api.Dtos.{status_online}
use open_friend_mc.Ipc.Hosting.{
  Handle, sig, World, HostStartRequest, same_handle, close_handles, host_stop, join_stop,
  host_start_checks, host_start_commit, stop_running_host, cleared_host, cleared_join, close_join,
}
use open_friend_mc.Ipc.Hosting.Handles.{has, Owned, has-close_handles, close_handles_host}
use open_friend_mc.Ipc.Hosting.Leaks.{host_start_checks-running}

-- The handlers before the first request.
abbrev pub new_world : World
new_world = record {
  host = record {
    running = false;
    target = [];
    bypass_used = false;
    host_handles = [];
    join_running = false;
    join_peer = [];
    join_listen = [];
    join_handles = [];
  };
  current_status = status_online;
  live = [];
  next_handle = 0;
  notes = [];
  posted_online = 0;
}

pub new_world-Owned : Owned new_world
unfolding has
new_world-Owned = record {
  holds = record { exact = λ h. refl; apart = λ h e. refl; fresh = λ h e. cc };
  no_host = λ e. refl;
  no_join = λ e. refl;
}

abbrev pub stop_both : World → World
stop_both w = join_stop (host_stop w)

stays_live :
    (h : Handle) (hs : List Handle) (w : World)
    → has h w.live ≡ true
    → has h hs ≡ false
    → has h (close_handles hs w).live ≡ true
stays_live h hs w running off = has-close_handles h hs w ∙ rw running (rw off refl)

not_below : (n : ℕ) (b : Bool) → ((b ≡ true) → n < n) → b ≡ false
not_below n true below = let less = below refl in absurd (omega arith)
not_below n false below = refl

-- When two `host.start` requests both pass their checks in a state where all that runs is held,
-- and both store what they started only then, the first client still runs after `host.stop` and
-- `join.stop`.
pub overlapping_starts_leak :
    (w : World) (r s : HostStartRequest) (a b : Text × Option (List ℕ))
    → Owned w
    → host_start_checks r w ≡ ok a
    → host_start_checks s w ≡ ok b
    → has (sig w.next_handle) (stop_both (host_start_commit b (host_start_commit a w))).live ≡ true
unfolding has host_start_commit host_stop stop_running_host cleared_host join_stop close_join
    cleared_join same_handle
overlapping_starts_leak w r s a b v checked checked' =
    let both = host_start_commit b (host_start_commit a w) in
    let stopped = host_stop both in
    let n = w.next_handle in
    let after_host : has (sig n) stopped.live ≡ true =
      stays_live (sig n) _ (cleared_host both) (ground arith) (ground arith) in
    let empty : w.host.host_handles ≡ [] = v.no_host (host_start_checks-running r w a checked) in
    let not_joined : has (sig n) w.host.join_handles ≡ false =
      not_below n (has (sig n) w.host.join_handles)
        λ e. v.holds.fresh (sig n) (v.holds.exact (sig n) ∙ rw empty e) in
    let kept : stopped.host.join_handles ≡ w.host.join_handles =
      ap (λ x. x.join_handles) (close_handles_host both.host.host_handles (cleared_host both)) in
    if_lem (λ (x : World). has (sig n) x.live ≡ true) _ _ stopped.host.join_running
      (λ e.
        stays_live (sig n) stopped.host.join_handles (cleared_join stopped) after_host
          (ap (λ l. has (sig n) l) kept ∙ not_joined))
      (λ e. after_host)
