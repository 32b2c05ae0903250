-- ===== src/Examples/Requests.antt =====
-- internal/ipc: hosting, joining and the presence watch.
use open_friend_mc.Prelude.{
  ℕ, ◌≡◌, refl, true, false, List, [], ◌∷◌, Option, none, some, codes, Result, ok, err,
  comparable_nat, comparable_string,
}
use open_friend_mc.Prelude.Text.{Text, trim_space}
use open_friend_mc.Api.Dtos.{PresenceResponse}
use open_friend_mc.Api.Client.{ApiError}
use open_friend_mc.Ipc.Hosting.{
  HostStartRequest, JoinStartRequest, joined, sig, host_start_checks, host_start_commit, join_start,
  resolve_join_peer, not_found,
}
use open_friend_mc.Ipc.Hosting.Handles.{has}
use open_friend_mc.Ipc.Hosting.Leaks.{Request, start_host, start_to_join}
use open_friend_mc.Ipc.Hosting.Stopping.{
  new_world, new_world-Owned, stop_both, overlapping_starts_leak,
}
use open_friend_mc.Ipc.Hosting.Answers.{join_start_other_pmid}
use open_friend_mc.Ipc.Watch.{new_watch_state, is_due}
use open_friend_mc.Ipc.Watch.Posting.{
  run_presence_watch, unlogged, Event, due_tick, set, Spaced, posts-Spaced,
}

abbrev to_host : HostStartRequest
to_host = record {
  authenticated = true;
  params_ok = true;
  target = codes "localhost:25565";
  target_ok = true;
  use_bypass = false;
  key = ok none;
}

abbrev to_join : JoinStartRequest
to_join = record {
  authenticated = true;
  params_ok = true;
  name = [];
  profile_id = [];
  pmid = codes "7";
  listen = [];
  parsed_pmid = some 7;
  resolved = err not_found;
  first_listen = true;
  other = none;
}

-- The same address, for another peer.
abbrev to_join_other : JoinStartRequest
to_join_other = record to_join { pmid = codes "8"; parsed_pmid = some 8 }

abbrev requests : List Request
requests = start_host to_host ∷ start_to_join to_join ∷ start_host to_host ∷ []

abbrev started : Text × Option (List ℕ)
started = (codes "localhost:25565", none)

passes : host_start_checks to_host new_world ≡ ok started
unfolding host_start_checks trim_space
passes = refl

leaks :
    has
      (sig new_world.next_handle)
      (stop_both (host_start_commit started (host_start_commit started new_world))).live
    ≡ true
leaks =
    overlapping_starts_leak new_world to_host to_host started started new_world-Owned passes passes

abbrev local_address : Text
local_address = codes "127.0.0.1:25577"

joins : (join_start to_join new_world).1 ≡ ok (joined [] (some 7) local_address)
unfolding join_start resolve_join_peer
joins = refl

still_the_first :
    join_start to_join_other (join_start to_join new_world).0
    ≡ ((join_start to_join new_world).0, ok (joined [] none local_address))
still_the_first =
    join_start_other_pmid to_join to_join_other new_world (some 7) joins refl refl refl refl

abbrev answered : Result ApiError (Option PresenceResponse)
answered = ok none

abbrev ticks : List Event
ticks =
    due_tick 100 answered
    ∷ due_tick 105 answered
    ∷ set "OFFLINE" none [] answered
    ∷ due_tick 111 answered
    ∷ []

ticks-Spaced : Spaced (run_presence_watch 98 answered ticks (unlogged new_watch_state)).accepted_at
ticks-Spaced = posts-Spaced 98 answered ticks new_watch_state

due_at_first : is_due 100 new_watch_state ≡ true
unfolding is_due new_watch_state
due_at_first = refl
