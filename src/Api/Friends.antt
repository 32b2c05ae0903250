-- ===== src/Api/Friends.antt =====
-- internal/api/friends.go.
pub mod Caching
use open_friend_mc.Prelude.{
  ℕ, ◌/◌, ◌≡◌, refl, Bool, true, false, ◌||◌, Option, none, some, String, ◌==◌, comparable_nat,
  comparable_string, if◌then◌else◌, Result, ok, err,
}
use open_friend_mc.Api.Dtos.{FriendsListResponse}
use open_friend_mc.Api.Client.{
  Client, DiskCache, ApiError, api_error, bad_json, Body, no_bytes, malformed, decoded, Outcome,
  Fetched, endpoint_friends, friends_in_cooldown, do_with_retry, second,
}

-- `SaveCacheToDisk`; the last argument says that the file could be written.
unfoldable pub save_cache_to_disk : ℕ → Bool → String → Client → Client
save_cache_to_disk now writable dir c =
    if dir == ""
    then c
    else if writable
    then record c {
      disk = some (record {
        friends_etag = c.friends_etag;
        friends_response = c.friends_cache;
        saved_at_unix = now / second;
      });
    }
    else c

abbrev pub Friends : Type 0
Friends = Client × Result ApiError (Option FriendsListResponse)

-- `status == 304 || len(raw) == 0`
keep_friends : String → Client → Friends
keep_friends etag_out c =
    (if etag_out == "" then c else record c { friends_etag = etag_out }, ok c.friends_cache)

read_friends : ℕ → Bool → ℕ → String → Body FriendsListResponse → Client → Friends
unfolding keep_friends
read_friends now writable status etag_out no_bytes c = keep_friends etag_out c
read_friends now writable status etag_out malformed c =
    if status == 304 then keep_friends etag_out c else (c, err bad_json)
read_friends now writable status etag_out (decoded out) c =
    if status == 304 then keep_friends etag_out c else (
      save_cache_to_disk now writable c.cache_dir
          (record c { friends_etag = etag_out; friends_cache = some out }),
      ok (some out),
    )

take_friends : ℕ → Bool → Fetched FriendsListResponse → Friends
unfolding read_friends
take_friends now writable (c, err e) = (c, err e)
take_friends now writable (c, ok (status, etag_out, raw)) =
    read_friends now writable status etag_out raw c

cached_friends : Client → Option FriendsListResponse → Friends
cached_friends c none = (c, err (api_error 429))
cached_friends c (some cached) = (c, ok (some cached))

-- `GetFriends` at the instant `now`, where the server answers the first request and, if there is
-- one, the second.
unfoldable pub get_friends :
    ℕ → Bool → Outcome FriendsListResponse → Outcome FriendsListResponse → Client → Friends
unfolding take_friends cached_friends
get_friends now writable first then_ c =
    if friends_in_cooldown now c
    then cached_friends c c.friends_cache
    else take_friends now writable (do_with_retry endpoint_friends now c.friends_etag first then_ c)

answer_put : Client → Body FriendsListResponse → Friends
answer_put c no_bytes = (c, ok none)
answer_put c malformed = (c, err bad_json)
answer_put c (decoded out) = (c, ok (some out))

take_put : Fetched FriendsListResponse → Friends
unfolding answer_put
take_put (c, err e) = (c, err e)
take_put (c, ok (status, etag_out, raw)) = answer_put (record c { friends_etag = "" }) raw

-- `PutFriendAction`; the action itself is in the request only.
unfoldable pub put_friend_action :
    ℕ → Outcome FriendsListResponse → Outcome FriendsListResponse → Client → Friends
unfolding take_put
put_friend_action now first then_ c =
    if friends_in_cooldown now c
    then (c, err (api_error 429))
    else take_put (do_with_retry endpoint_friends now "" first then_ c)
