-- ===== src/Examples/Services.antt =====
-- internal/presence, internal/api and internal/update.
use open_friend_mc.Prelude.{
  ◌+◌, ◌<◌, ◌≡◌, ◌≢◌, refl, sym, ap, ◌∙◌, arith, Bool, true, false, not, ◌&&◌, List, [], ◌∷◌, none,
  some, String, codes, ok, ◌⊎◌, ◌==◌, comparable_nat, comparable_string, if◌then◌else◌,
}
use open_friend_mc.Prelude.Text.{Text, trim_space, same_text, same_text_refl}
use open_friend_mc.Api.Dtos.{FriendDto, FriendsListResponse, PresenceStatusDto, PresenceResponse}
use open_friend_mc.Api.Client.{
  Client, Outcome, response, absent, seconds, no_bytes, decoded, endpoint_friends, do_with_retry,
  add_duration, clear_presence_etag,
}
use open_friend_mc.Api.Client.Retry.{
  pause, status_of, retry_of, last_of, is_presence, do_with_retry_effects,
}
use open_friend_mc.Api.Friends.{save_cache_to_disk, get_friends, put_friend_action}
use open_friend_mc.Api.Friends.Caching.{get_friends_rate_limited}
use open_friend_mc.Api.Presence.{post_presence}
use open_friend_mc.Api.Resolve.{Peer, Answers, list_friends, answered_presence, resolve_peer}
use open_friend_mc.Api.Resolve.Finding.{Resolved, resolve_peer-Resolved}
use open_friend_mc.Ipc.Search.{SearchAnswer, friends_search}
use open_friend_mc.Ipc.Search.Telling.{Tells, friends_search-Tells}
use open_friend_mc.Presence.Refresher.{new_refresher, tick, apply_diff}
use open_friend_mc.Presence.Refresher.InSync.{
  Tick, run_ticks, InSync, see_all, nobody, run_ticks-InSync,
}
use open_friend_mc.Update.{is_newer, parse_version, check, manifest, UpdateOutcome}
use open_friend_mc.Update.Checks.{IsRelease, is_newer_order}

abbrev alex : FriendDto
alex = record { profile_id = 1; name = "Alex" }

abbrev steve : FriendDto
steve = record { profile_id = 2; name = "Steve" }

abbrev at_first : FriendsListResponse
at_first = record { friends = alex ∷ []; incoming_requests = steve ∷ []; outgoing_requests = [] }

abbrev later : FriendsListResponse
later = record { friends = steve ∷ []; incoming_requests = []; outgoing_requests = alex ∷ [] }

abbrev polls : List Tick
polls = (false, ok (some at_first)) ∷ (true, ok none) ∷ (false, ok (some later)) ∷ []

polls_primed : (run_ticks (new_refresher true true) polls).primed ≡ true
unfolding run_ticks tick new_refresher apply_diff
polls_primed = refl

polls_seen :
    InSync
      (see_all (run_ticks (new_refresher true true) polls).calls nobody)
      (run_ticks (new_refresher true true) polls)
polls_seen = run_ticks-InSync true polls polls_primed

abbrev client : Client
client = record {
  presence_etag = "";
  friends_etag = "";
  presence_cache = none;
  friends_cache = none;
  presence_cooldown_end = 0;
  friends_cooldown_end = 0;
  cache_dir = "";
  disk = none;
  refreshes = 0;
  requests = 0;
}

abbrev refused : Outcome FriendsListResponse
refused = response 401 "" absent no_bytes

abbrev limited : Outcome FriendsListResponse
limited = response 429 "" (seconds 30) no_bytes

abbrev listed : Outcome FriendsListResponse
listed = response 200 "tag" absent (decoded at_first)

two_requests :
    let d = (do_with_retry endpoint_friends 100 "" refused limited client).0 in
    let last = last_of refused limited in
    let until = add_duration 100 (pause (retry_of last)) in
    (d.requests ≡ (if status_of refused == 401 then client.requests + 2 else client.requests + 1))
    × (d.refreshes ≡ (if status_of refused == 401 then client.refreshes + 1 else client.refreshes))
    × (d.presence_cooldown_end ≡ (
        if is_presence endpoint_friends && (status_of last == 429)
        then until
        else client.presence_cooldown_end))
    × (d.friends_cooldown_end ≡ (
        if not (is_presence endpoint_friends) && (status_of last == 429)
        then until
        else client.friends_cooldown_end))
two_requests = do_with_retry_effects endpoint_friends 100 "" refused limited client

limited_last : status_of (last_of refused limited) ≡ 429
limited_last = refl

still_limited : 200 < add_duration 100 (pause (retry_of (last_of refused limited)))
unfolding pause
still_limited = omega arith

no_request :
    let d = (get_friends 100 true refused limited client).0 in
    let e = (put_friend_action 100 refused limited client).0 in
    ((get_friends 200 true listed listed d).0 ≡ d)
    × ((put_friend_action 200 listed listed d).0 ≡ d)
    × ((get_friends 200 true listed listed e).0 ≡ e)
    × ((put_friend_action 200 listed listed e).0 ≡ e)
no_request =
    get_friends_rate_limited 100 200 true true refused limited listed listed client refl
      limited_last still_limited

abbrev sharing : PresenceStatusDto
sharing = record {
  profile_id = 1;
  pmid = 70;
  status = "ONLINE";
  join_info = none;
  last_updated = 9;
}

abbrev answers : Answers
answers = record {
  now = 100;
  writable = true;
  friends_first = listed;
  friends_then = listed;
  presence_first = response 200 "" absent (decoded (record { presence = sharing ∷ [] }));
  presence_then = response 200 "" absent no_bytes;
}

abbrev same_name : String → String → Bool
same_name a b = a == b

abbrev alex_peer : Peer
alex_peer = record { name = "Alex"; profile_id = 1; pmid = 70 }

alex_resolved : (resolve_peer same_name none "Alex" answers client).1 ≡ ok alex_peer
unfolding resolve_peer get_friends post_presence do_with_retry clear_presence_etag
    save_cache_to_disk
alex_resolved = refl

alex_found :
    (resp : FriendsListResponse) × ((list_friends answers client).1 ≡ ok (some resp))
    × ((pres : PresenceResponse) × ((answered_presence answers (list_friends answers client).0).1
          ≡ ok (some pres))
        × Resolved same_name "Alex" resp.friends pres.presence alex_peer)
alex_found = resolve_peer-Resolved same_name "Alex" answers client alex_peer alex_resolved

abbrev v1 : Text
v1 = codes "v1.2.3"

abbrev v2 : Text
v2 = codes "1.2.10"

abbrev v3 : Text
v3 = codes "2.0"

is_not_dev : (s : Text) → same_text s (codes "dev") ≡ false → s ≢ codes "dev"
is_not_dev s off e =
    let same : same_text s (codes "dev") ≡ true =
      ap (λ t. same_text s t) (sym e) ∙ same_text_refl s in
    cc

v1-IsRelease : IsRelease v1
unfolding same_text
v1-IsRelease = record { not_empty = refl; not_dev = is_not_dev v1 refl }

v2-IsRelease : IsRelease v2
unfolding same_text
v2-IsRelease = record { not_empty = refl; not_dev = is_not_dev v2 refl }

v3-IsRelease : IsRelease v3
unfolding same_text
v3-IsRelease = record { not_empty = refl; not_dev = is_not_dev v3 refl }

versions :
    ((is_newer v3 v2 ≡ true) ⊎ ((is_newer v2 v3 ≡ true) ⊎ (parse_version v3 ≡ parse_version v2)))
    × (is_newer v3 v3 ≡ false)
    × ((is_newer v3 v2 ≡ false)
        ⊎ ((is_newer v2 v1 ≡ false) ⊎ ((is_newer v3 v1 ≡ true) × (is_newer v1 v3 ≡ false))))
versions = is_newer_order v3 v2 v1 v3-IsRelease v2-IsRelease v1-IsRelease

abbrev offered : UpdateOutcome
offered = record { latest = v2; available = true }

offers : check v1 (manifest v2) ≡ ok offered
unfolding check is_newer parse_version trim_space same_text
offers = refl

not_dev_offered : offered.latest ≢ codes "dev"
not_dev_offered = v2-IsRelease.not_dev

steve_searched :
    (a : SearchAnswer) × (friends_search same_name true true "Steve" (ok (some at_first)) ≡ ok a)
    × Tells same_name "Steve" at_first a
steve_searched = friends_search-Tells same_name "Steve" at_first refl
