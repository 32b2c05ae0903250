-- ===== src/Api/Presence.antt =====
-- internal/api/presence.go.
use open_friend_mc.Prelude.{
  ℕ, Option, none, some, String, ◌==◌, comparable_nat, comparable_string, if◌then◌else◌, Result, ok,
  err,
}
use open_friend_mc.Api.Dtos.{PresenceResponse}
use open_friend_mc.Api.Client.{
  Client, ApiError, api_error, bad_json, Body, no_bytes, malformed, decoded, Outcome, Fetched,
  endpoint_presence, presence_in_cooldown, do_with_retry,
}

abbrev pub Posted : Type 0
Posted = Client × Result ApiError (Option PresenceResponse)

keep_presence : String → Client → Posted
keep_presence etag_out c =
    (if etag_out == "" then c else record c { presence_etag = etag_out }, ok c.presence_cache)

read_presence : ℕ → String → Body PresenceResponse → Client → Posted
unfolding keep_presence
read_presence status etag_out no_bytes c = keep_presence etag_out c
read_presence status etag_out malformed c =
    if status == 304 then keep_presence etag_out c else (c, err bad_json)
read_presence status etag_out (decoded out) c =
    if status == 304
    then keep_presence etag_out c
    else (record c { presence_etag = etag_out; presence_cache = some out }, ok (some out))

take_presence : Fetched PresenceResponse → Posted
unfolding read_presence
take_presence (c, err e) = (c, err e)
take_presence (c, ok (status, etag_out, raw)) = read_presence status etag_out raw c

cached_presence : Client → Option PresenceResponse → Posted
cached_presence c none = (c, err (api_error 429))
cached_presence c (some cached) = (c, ok (some cached))

-- `PostPresence` at the instant `now`, where the server answers the first request and, if there is
-- one, the second. The request's body plays no part in what the client keeps.
unfoldable pub post_presence :
    ℕ → Outcome PresenceResponse → Outcome PresenceResponse → Client → Posted
unfolding take_presence cached_presence
post_presence now first then_ c =
    if presence_in_cooldown now c
    then cached_presence c c.presence_cache
    else take_presence (do_with_retry endpoint_presence now c.presence_etag first then_ c)
