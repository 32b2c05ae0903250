-- ===== src/Ipc/Search.antt =====
-- internal/ipc/methods_watch.go: `friendsSearch`. The answer of `GetFriends` comes in with the request,
-- and `strings.EqualFold` is a parameter.
pub mod Telling
use open_friend_mc.Prelude.{
  Bool, true, false, not, Option, none, some, Result, ok, err, ◌>>=◌, ◌>>◌, fail_if, String, ◌==◌,
  comparable_string,
}
use open_friend_mc.Api.Dtos.{FriendDto, FriendsListResponse}
use open_friend_mc.Api.Client.{ApiError}
use open_friend_mc.Api.Resolve.{find_first}
use open_friend_mc.Ipc.Hosting.{RpcError, not_authenticated, invalid_params, api_failure}

pub data SearchAnswer : Type 0 where
  nobody : SearchAnswer
  is_friend is_outgoing is_incoming : FriendDto → SearchAnswer

-- The first that there is.
unfoldable pub best_of : Option FriendDto → Option FriendDto → Option FriendDto → SearchAnswer
best_of (some d) outgoing incoming = is_friend d
best_of none (some d) incoming = is_outgoing d
best_of none none (some d) = is_incoming d
best_of none none none = nobody

unfoldable pub search_in :
    (String → String → Bool) → String → Option FriendsListResponse → SearchAnswer
unfolding find_first best_of
search_in equal_fold name none = nobody
search_in equal_fold name (some resp) =
    let matches : FriendDto → Bool = λ d. equal_fold d.name name in
    best_of (find_first matches resp.friends) (find_first matches resp.outgoing_requests)
      (find_first matches resp.incoming_requests)

unfoldable pub search_answer :
    (String → String → Bool)
    → String
    → Result ApiError (Option FriendsListResponse)
    → Result RpcError SearchAnswer
unfolding search_in
search_answer equal_fold name (err e) = err api_failure
search_answer equal_fold name (ok resp) = ok (search_in equal_fold name resp)

unfoldable pub friends_search :
    (String → String → Bool)
    → Bool
    → Bool
    → String
    → Result ApiError (Option FriendsListResponse)
    → Result RpcError SearchAnswer
unfolding search_answer
friends_search equal_fold authenticated params_ok name answer = do
  fail_if (not authenticated) not_authenticated
  fail_if (not params_ok) invalid_params
  fail_if (name == "") invalid_params
  search_answer equal_fold name answer
