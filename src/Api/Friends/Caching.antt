-- ===== src/Api/Friends/Caching.antt =====
-- Rate limiting and the cache behind the entity tag.
use open_friend_mc.Prelude.{
  ℕ, ◌<◌, ◌≡◌, refl, ◌∙◌, arith, Bool, false, Option, none, some, lt→ltb, ==_iff, comparable_nat,
  comparable_string, ok, err,
}
use open_friend_mc.Api.Dtos.{FriendsListResponse}
use open_friend_mc.Api.Client.{
  Client, no_bytes, malformed, decoded, Outcome, Fetched, endpoint_friends, friends_in_cooldown,
  do_with_retry, add_duration,
}
use open_friend_mc.Api.Client.Retry.{do_with_retry_effects, pause, status_of, retry_of, last_of}
use open_friend_mc.Api.Friends.{
  answer_put, take_put, save_cache_to_disk, take_friends, cached_friends, get_friends,
  put_friend_action,
}

-- What the client does behind the exchange leaves the cooldown alone.
take_friends-cooldown :
    (now : ℕ) (writable : Bool) (f : Fetched FriendsListResponse)
    → ((take_friends now writable f).0.friends_cooldown_end ≡ f.0.friends_cooldown_end)
      × ((take_friends now writable f).0.requests ≡ f.0.requests)
unfolding take_friends save_cache_to_disk
take_friends-cooldown now writable (c, err e) = (refl, refl)
take_friends-cooldown now writable (c, ok (status, etag, no_bytes)) = ground arith
take_friends-cooldown now writable (c, ok (status, etag, malformed)) = ground arith
take_friends-cooldown now writable (c, ok (status, etag, decoded out)) = ground arith

take_put-cooldown :
    (f : Fetched FriendsListResponse)
    → (take_put f).0.friends_cooldown_end ≡ f.0.friends_cooldown_end
unfolding take_put answer_put
take_put-cooldown (c, err e) = refl
take_put-cooldown (c, ok (status, etag, no_bytes)) = refl
take_put-cooldown (c, ok (status, etag, malformed)) = refl
take_put-cooldown (c, ok (status, etag, decoded out)) = refl

module _ (now : ℕ) (writable : Bool) (first then_ : Outcome FriendsListResponse) (c : Client) where
  abbrev until : ℕ
  until = add_duration now (pause (retry_of (last_of first then_)))

  get_friends_cooldown :
      (friends_in_cooldown now c) ≡ false
      → status_of (last_of first then_) ≡ 429
      → (get_friends now writable first then_ c).0.friends_cooldown_end ≡ until
  unfolding get_friends
  get_friends_cooldown free limited = rw free (
      (take_friends-cooldown now writable
        (do_with_retry endpoint_friends now c.friends_etag first then_ c)).0
      ∙ (do_with_retry_effects endpoint_friends now c.friends_etag first then_ c).3
      ∙ rw ((==_iff (status_of (last_of first then_)) 429).1 limited) refl)

  put_cooldown :
      (friends_in_cooldown now c) ≡ false
      → status_of (last_of first then_) ≡ 429
      → (put_friend_action now first then_ c).0.friends_cooldown_end ≡ until
  unfolding put_friend_action
  put_cooldown free limited = rw free (
      take_put-cooldown (do_with_retry endpoint_friends now "" first then_ c)
      ∙ (do_with_retry_effects endpoint_friends now "" first then_ c).3
      ∙ rw ((==_iff (status_of (last_of first then_)) 429).1 limited) refl)

cooling_down :
    (t : ℕ) (writable : Bool) (first then_ : Outcome FriendsListResponse) (c : Client)
    → t < c.friends_cooldown_end
    → ((get_friends t writable first then_ c).0 ≡ c) × ((put_friend_action t first then_ c).0 ≡ c)
unfolding get_friends put_friend_action
cooling_down t writable first then_ c h = (
  rw (lt→ltb t c.friends_cooldown_end h) (kept c c.friends_cache),
  rw (lt→ltb t c.friends_cooldown_end h),
)
  where
    kept : (d : Client) (o : Option FriendsListResponse) → (cached_friends d o).0 ≡ d
    kept d none = refl
    kept d (some x) = refl

-- Once the friends endpoint has answered 429, to `GetFriends` or to `PutFriendAction`: no call of
-- either before the end of the pause that it asked for sends a request or changes the client in any way.
pub get_friends_rate_limited :
    (now t : ℕ) (writable w : Bool) (first then_ f g : Outcome FriendsListResponse) (c : Client)
    → friends_in_cooldown now c ≡ false
    → status_of (last_of first then_) ≡ 429
    → t < add_duration now (pause (retry_of (last_of first then_)))
    → let d = (get_friends now writable first then_ c).0 in
      let e = (put_friend_action now first then_ c).0 in
      ((get_friends t w f g d).0 ≡ d)
      × ((put_friend_action t f g d).0 ≡ d)
      × ((get_friends t w f g e).0 ≡ e)
      × ((put_friend_action t f g e).0 ≡ e)
get_friends_rate_limited now t writable w first then_ f g c free limited early =
    let got =
      cooling_down t w f g (get_friends now writable first then_ c).0
        (rw (get_friends_cooldown now writable first then_ c free limited) early) in
    let put =
      cooling_down t w f g (put_friend_action now first then_ c).0
        (rw (put_cooldown now writable first then_ c free limited) early) in
    (got.0, got.1, put.0, put.1)
