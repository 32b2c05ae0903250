-- ===== src/Api/Client.antt =====
-- internal/api/client.go. An instant is a count of nanoseconds from an epoch that lies before all
-- the clock's readings by more than the longest duration; a `time.Duration` is its 64-bit pattern.
-- HTTP is the outcomes of the requests, a body is what `json.Unmarshal` would make of it.
pub mod Retry
use open_friend_mc.Prelude.{
  ℕ, suc, ◌+◌, ◌-◌, ◌*◌, ◌%◌, ◌^◌, ◌≡◌, refl, Bool, true, false, not, ◌&&◌, ◌||◌, List, [], ◌∷◌,
  Option, none, some, String, ltb, leb, ◌==◌, comparable_nat, comparable_string, if◌then◌else◌,
  Result, ok, err, Bytes,
}
use open_friend_mc.Api.Dtos.{FriendsListResponse, PresenceResponse}

-- `diskCache`, the file in the cache directory.
pub record DiskCache : Type 0 where
  pub friends_etag : String
  pub friends_response : Option FriendsListResponse
  pub saved_at_unix : ℕ

-- `refreshes` and `requests` count the calls of `RefreshNow` and of `util.Client.Do`; `disk` is the
-- cache file.
pub record Client : Type 0 where
  pub presence_etag : String
  pub friends_etag : String
  pub presence_cache : Option PresenceResponse
  pub friends_cache : Option FriendsListResponse
  pub presence_cooldown_end : ℕ
  pub friends_cooldown_end : ℕ
  pub cache_dir : String
  pub disk : Option DiskCache
  pub refreshes : ℕ
  pub requests : ℕ

abbrev pub second : ℕ
second = 1000000000

unfoldable pub clear_presence_etag : Client → Client
clear_presence_etag c = record c { presence_etag = "" }

abbrev pub presence_in_cooldown : ℕ → Client → Bool
presence_in_cooldown now c = ltb now c.presence_cooldown_end

abbrev pub friends_in_cooldown : ℕ → Client → Bool
friends_in_cooldown now c = ltb now c.friends_cooldown_end

-- `APIError`: the status, 0 for a failed exchange; `bad_json` is the decoder's own error.
pub data ApiError : Type 0 where
  api_error : ℕ → ApiError
  bad_json : ApiError

pub data Body (A : Type 0) : Type 0 where
  no_bytes : Body A
  malformed : Body A
  decoded : A → Body A

-- `strconv.Atoi` of the Retry-After header: absent, no number, or a number by its sign.
pub data RetryAfter : Type 0 where
  absent not_a_number : RetryAfter
  seconds minus_seconds : ℕ → RetryAfter

pub data Outcome (A : Type 0) : Type 0 where
  failed : Outcome A
  response : ℕ → String → RetryAfter → Body A → Outcome A

pub data Endpoint : Type 0 where
  endpoint_presence endpoint_friends : Endpoint

abbrev pub first_non_empty : String → String → String
first_non_empty a b = if a == "" then b else a

-- `time.Duration(n) * time.Second`
abbrev pub parse_retry_after : RetryAfter → ℕ
parse_retry_after absent = 0
parse_retry_after not_a_number = 0
parse_retry_after (seconds n) = n * second % 2 ^ 64
parse_retry_after (minus_seconds n) = (2 ^ 64 - n * second % 2 ^ 64) % 2 ^ 64

-- `t.Add(d)`
abbrev pub add_duration : ℕ → ℕ → ℕ
add_duration t d = if ltb d (2 ^ 63) then t + d else t - (2 ^ 64 - d)

unfoldable pub cooldown : RetryAfter → ℕ
cooldown h = let d = parse_retry_after h in if d == 0 then 60 * second else d

start_cooldown : Endpoint → ℕ → Client → Client
start_cooldown endpoint_presence end c = record c { presence_cooldown_end = end }
start_cooldown endpoint_friends end c = record c { friends_cooldown_end = end }

count_request : Client → Client
count_request c = record c { requests = suc c.requests }

refresh_now : Client → Client
refresh_now c = record c { refreshes = suc c.refreshes }

-- `(status, etagOut, body, err)`, with the client behind the call.
abbrev pub Fetched : Type 0 → Type 0
Fetched A = Client × Result ApiError (ℕ × String × Body A)

module _ {A : Type 0} where
  -- One round of the loop; `again` is the next round, which a 401 may ask for.
  round : Endpoint → ℕ → String → Bool → (Client → Fetched A) → Outcome A → Client → Fetched A
  unfolding cooldown start_cooldown count_request refresh_now
  round ep now etag_in retried again failed c = (count_request c, err (api_error 0))
  round ep now etag_in retried again (response status etag retry_after body) c =
      let c = count_request c in
      if status == 304
      then (c, ok (304, etag_in, no_bytes))
      else if ltb status 400
      then (c, ok (status, first_non_empty etag etag_in, body))
      else if (status == 401) && not retried
      then again (refresh_now c)
      else if status == 429
      then (start_cooldown ep (add_duration now (cooldown retry_after)) c, err (api_error 429))
      else (c, err (api_error status))

  abbrev no_third : Client → Fetched A
  no_third c = (c, err (api_error 401))

  -- With `retried` set a round does not go on, so the loop makes two rounds at most; `again` there
  -- is not called.
  unfoldable pub do_with_retry : Endpoint → ℕ → String → Outcome A → Outcome A → Client → Fetched A
  unfolding round
  do_with_retry ep now etag_in first then_ c =
      round ep now etag_in false (round ep now etag_in true no_third then_) first c
