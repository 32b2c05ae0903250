-- ===== src/Api/Resolve.antt =====
-- internal/api/resolve.go.
-- `strings.EqualFold` is a parameter, and so is what `ParseUndashed` makes of the
-- query; each request to the server has its answer in `Answers`.
pub mod Finding
use open_friend_mc.Prelude.{
  ℕ, ◌≡◌, refl, Bool, true, false, List, [], ◌∷◌, Option, none, some, String, ◌==◌, comparable_nat,
  comparable_string, if◌then◌else◌, Result, ok, err,
}
use open_friend_mc.Api.Dtos.{
  FriendDto, FriendsListResponse, PresenceStatusDto, PresenceResponse, nil_uuid,
}
use open_friend_mc.Api.Client.{Client, ApiError, Outcome, clear_presence_etag}
use open_friend_mc.Api.Friends.{get_friends}
use open_friend_mc.Api.Presence.{post_presence}

pub record Peer : Type 0 where
  pub name : String
  pub profile_id : ℕ
  pub pmid : ℕ

pub data ResolveError : Type 0 where
  list_failed fetch_failed : ApiError → ResolveError
  no_friends_list no_such_friend no_presence not_sharing : ResolveError

pub record Answers : Type 0 where
  pub now : ℕ
  pub writable : Bool
  pub friends_first : Outcome FriendsListResponse
  pub friends_then : Outcome FriendsListResponse
  pub presence_first : Outcome PresenceResponse
  pub presence_then : Outcome PresenceResponse

-- A `for` loop that stops at the first element that passes the test.
unfoldable pub find_first {ℓ} : {A : Type ℓ} → (A → Bool) → List A → Option A
find_first test [] = none
find_first test (x ∷ xs) = let rest = find_first test xs in if test x then some x else rest

abbrev pub list_friends : Answers → Client → Client × Result ApiError (Option FriendsListResponse)
list_friends a c = get_friends a.now a.writable a.friends_first a.friends_then c

-- `ClearPresenceETag` and `PostPresence`, which gives the answer that it keeps in a cooldown, and on a
-- 304 or an empty body.
abbrev pub answered_presence : Answers → Client → Client × Result ApiError (Option PresenceResponse)
answered_presence a c = post_presence a.now a.presence_first a.presence_then (clear_presence_etag c)

unfoldable pub shared_pmid : FriendDto → Option PresenceStatusDto → Result ResolveError Peer
shared_pmid d none = err not_sharing
shared_pmid d (some p) = ok (record { name = d.name; profile_id = d.profile_id; pmid = p.pmid })

unfoldable pub in_presence :
    FriendDto → Result ApiError (Option PresenceResponse) → Result ResolveError Peer
unfolding find_first shared_pmid
in_presence d (err e) = err (fetch_failed e)
in_presence d (ok none) = err no_presence
in_presence d (ok (some pres)) =
    shared_pmid d (find_first (λ p. p.profile_id == d.profile_id) pres.presence)

unfoldable pub of_match : Answers → Client → Option FriendDto → Client × Result ResolveError Peer
unfolding in_presence
of_match a c none = (c, err no_such_friend)
of_match a c (some d) = let (c', answer) = answered_presence a c in (c', in_presence d answer)

unfoldable pub in_friends :
    (String → String → Bool)
    → String
    → Answers
    → Client × Result ApiError (Option FriendsListResponse)
    → Client × Result ResolveError Peer
unfolding find_first of_match
in_friends equal_fold query a (c, err e) = (c, err (list_failed e))
in_friends equal_fold query a (c, ok none) = (c, err no_friends_list)
in_friends equal_fold query a (c, ok (some resp)) =
    of_match a c (find_first (λ d. equal_fold d.name query) resp.friends)

profile_of : Option PresenceStatusDto → ℕ
profile_of none = nil_uuid
profile_of (some p) = p.profile_id

shown_profile : ℕ → Option PresenceResponse → ℕ
unfolding find_first profile_of
shown_profile pmid none = nil_uuid
shown_profile pmid (some pres) = profile_of (find_first (λ p. p.pmid == pmid) pres.presence)

name_of : Option FriendDto → String
name_of none = ""
name_of (some d) = d.name

friend_name : ℕ → Result ApiError (Option FriendsListResponse) → String
unfolding find_first name_of
friend_name id (err e) = ""
friend_name id (ok none) = ""
friend_name id (ok (some resp)) = name_of (find_first (λ d. d.profile_id == id) resp.friends)

named_peer : ℕ → ℕ → Answers → Client → Client × Result ResolveError Peer
unfolding friend_name
named_peer pmid profile a c =
    if profile == nil_uuid
    then (c, ok (record { name = ""; profile_id = profile; pmid = pmid }))
    else (let (c', friends) = list_friends a c in
        (c', ok (record { name = friend_name profile friends; profile_id = profile; pmid = pmid })))

by_presence :
    ℕ
    → Answers
    → Client × Result ApiError (Option PresenceResponse)
    → Client × Result ResolveError Peer
unfolding shown_profile named_peer
by_presence pmid a (c, err e) = (c, err (fetch_failed e))
by_presence pmid a (c, ok pres) = named_peer pmid (shown_profile pmid pres) a c

unfoldable pub resolve_by_pmid : ℕ → Answers → Client → Client × Result ResolveError Peer
unfolding by_presence
resolve_by_pmid pmid a c = by_presence pmid a (answered_presence a c)

unfoldable pub resolve_peer :
    (String → String → Bool)
    → Option ℕ
    → String
    → Answers
    → Client
    → Client × Result ResolveError Peer
unfolding resolve_by_pmid in_friends
resolve_peer equal_fold (some pmid) query a c = resolve_by_pmid pmid a c
resolve_peer equal_fold none query a c = in_friends equal_fold query a (list_friends a c)
