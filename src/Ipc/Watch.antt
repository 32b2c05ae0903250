-- ===== src/Ipc/Watch.antt =====
-- internal/ipc/methods_watch.go: the presence watch. An instant counts seconds; the zero `time.Time` is
-- none. The answers of `PostPresence` come in with the tick.
pub mod Posting
use open_friend_mc.Prelude.{
  ℕ, ◌+◌, ◌-◌, ◌≡◌, refl, Bool, true, false, not, ◌&&◌, ◌||◌, List, [], ◌∷◌, ◌++◌, Option, none,
  some, Result, ok, err, String, ◌==◌, comparable_nat, comparable_string, ltb, leb, if◌then◌else◌,
  length,
}
use open_friend_mc.Prelude.Assoc.{lookup, insert}
use open_friend_mc.Api.Dtos.{
  PresenceRequest, PresenceResponse, PresenceStatusDto, status_online, status_offline,
  status_playing_hosted_server, new_join_info_update,
}
use open_friend_mc.Api.Client.{ApiError}

-- The fields of `watchState` that the presence watch uses. `changed` lists the notifications
-- `presence.changed`, `posts` every request that was posted and `accepted_at` the instants of those that
-- were accepted, the last first.
pub record WatchState : Type 0 where
  pub current_status : String
  pub current_join_val : Option String
  pub current_invites : List ℕ
  pub last_posted_status : String
  pub last_posted_join_val : Option String
  pub last_posted_invites : List ℕ
  pub last_posted_at : Option ℕ
  pub last_presence : List (ℕ × String)
  pub changed : List PresenceStatusDto
  pub posts : List PresenceRequest
  pub accepted_at : List ℕ

abbrev pub presence_min_interval : ℕ
presence_min_interval = 10

abbrev pub presence_max_interval : ℕ
presence_max_interval = 60

-- The zero `PresenceStatus` is the empty string.
unfoldable pub new_watch_state : WatchState
new_watch_state = record {
  current_status = status_online;
  current_join_val = none;
  current_invites = [];
  last_posted_status = "";
  last_posted_join_val = none;
  last_posted_invites = [];
  last_posted_at = none;
  last_presence = [];
  changed = [];
  posts = [];
  accepted_at = [];
}

unfoldable pub among : ℕ → List ℕ → Bool
among id [] = false
among id (x ∷ xs) = (x == id) || among id xs

unfoldable pub some_missing : List ℕ → List ℕ → Bool
some_missing [] prev = false
some_missing (id ∷ ids) prev = not (among id prev) || some_missing ids prev

unfoldable pub join_val_differs : Option String → Option String → Bool
join_val_differs none none = false
join_val_differs none (some prev) = true
join_val_differs (some cur) none = true
join_val_differs (some cur) (some prev) = not (cur == prev)

unfoldable pub presence_state_differs :
    String → Option String → List ℕ → String → Option String → List ℕ → Bool
unfolding some_missing join_val_differs
presence_state_differs status join_val invites prev_status prev_join_val prev_invites =
    not (status == prev_status)
    || (join_val_differs join_val prev_join_val
        || (not (length invites == length prev_invites) || some_missing invites prev_invites))

unfoldable pub is_dirty : WatchState → Bool
unfolding presence_state_differs
is_dirty w =
    presence_state_differs w.current_status w.current_join_val w.current_invites
      w.last_posted_status w.last_posted_join_val w.last_posted_invites

-- A missing key of the map reads as the empty string.
seen_status : Option String → String
seen_status none = ""
seen_status (some prev) = prev

unfoldable pub emit_one : PresenceStatusDto → WatchState → WatchState
unfolding seen_status
emit_one p w =
    if seen_status (lookup p.profile_id w.last_presence) == p.status then w else record w {
      last_presence = insert p.profile_id p.status w.last_presence;
      changed = w.changed ++ p ∷ [];
    }

unfoldable pub emit_each : List PresenceStatusDto → WatchState → WatchState
emit_each [] w = w
emit_each (p ∷ ps) w = emit_each ps (emit_one p w)

unfoldable pub emit_presence_changes : PresenceResponse → WatchState → WatchState
unfolding emit_each
emit_presence_changes resp w = emit_each resp.presence w

-- The request that `presenceTickNow` posts.
unfoldable pub presence_request : WatchState → PresenceRequest
presence_request w = record {
  status = w.current_status;
  join_info =
      if w.current_status == status_playing_hosted_server
      then some (record (new_join_info_update w.current_invites) { value = w.current_join_val })
      else none;
}

unfoldable pub posted_now : ℕ → WatchState → WatchState
posted_now now w = record w {
  last_posted_status = w.current_status;
  last_posted_join_val = w.current_join_val;
  last_posted_invites = w.current_invites;
  last_posted_at = some now;
  accepted_at = now ∷ w.accepted_at;
}

unfoldable pub take_answer : ℕ → Result ApiError (Option PresenceResponse) → WatchState → WatchState
unfolding posted_now emit_presence_changes
take_answer now (err e) w = w
take_answer now (ok none) w = posted_now now w
take_answer now (ok (some resp)) w = emit_presence_changes resp (posted_now now w)

unfoldable pub presence_tick_now :
    ℕ → Result ApiError (Option PresenceResponse) → WatchState → WatchState
unfolding take_answer presence_request
presence_tick_now now answer w =
    take_answer now answer (record w { posts = w.posts ++ presence_request w ∷ [] })

unfoldable pub elapsed_since : ℕ → Option ℕ → ℕ
elapsed_since now none = presence_max_interval + 1
elapsed_since now (some at) = now - at

-- A tick posts unless it is too early, or nothing changed and the last post is recent.
unfoldable pub is_due : ℕ → WatchState → Bool
unfolding elapsed_since is_dirty
is_due now w =
    let elapsed = elapsed_since now w.last_posted_at in
    not (ltb elapsed presence_min_interval)
    && (is_dirty w || not (ltb elapsed presence_max_interval))

unfoldable pub presence_tick_if_due :
    ℕ → Result ApiError (Option PresenceResponse) → WatchState → WatchState
unfolding is_due presence_tick_now
presence_tick_if_due now answer w = if is_due now w then presence_tick_now now answer w else w

-- `presenceSet` once it has trimmed and raised the status and parsed the invites. The handler posts
-- outside of the ticks, so neither the instant of the last post nor what it held is stored.
unfoldable pub set_request : String → Option String → List ℕ → PresenceRequest
set_request status join_val invites = record {
  status = status;
  join_info =
      if status == status_playing_hosted_server
      then some (record (new_join_info_update invites) { value = join_val })
      else (if not (status == status_offline) && not (length invites == 0)
          then some (new_join_info_update invites)
          else none);
}

unfoldable pub store_set :
    String
    → Option String
    → List ℕ
    → Result ApiError (Option PresenceResponse)
    → WatchState
    → WatchState
unfolding emit_presence_changes
store_set status join_val invites (err e) w = w
store_set status join_val invites (ok none) w = record w {
  current_status = status;
  current_join_val = join_val;
  current_invites = invites;
}
store_set status join_val invites (ok (some resp)) w =
    emit_presence_changes resp
      (record w { current_status = status; current_join_val = join_val; current_invites = invites })

abbrev set_status : String → String
set_status status = if status == "" then status_online else status

unfoldable pub presence_set :
    String
    → Option String
    → List ℕ
    → Result ApiError (Option PresenceResponse)
    → WatchState
    → WatchState
unfolding set_request store_set
presence_set status join_val invites answer w =
    let named = set_status status in
    store_set named join_val invites answer
      (record w { posts = w.posts ++ set_request named join_val invites ∷ [] })
