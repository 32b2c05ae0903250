-- ===== src/Ipc/Methods/Friends/Refusal.antt =====
-- internal/ipc/methods.go: `friendActionRPCError`.
use open_friend_mc.Prelude.{
  ℕ, Bool, true, false, ◌&&◌, ◌||◌, [], ◌∷◌, String, ◌==◌, comparable_string, comparable_nat,
  if◌then◌else◌, Bytes, codes,
}
use open_friend_mc.Api.Client.{ApiError, api_error, bad_json}
use open_friend_mc.Ipc.Server.{RpcFailure, new_error, minus_api_error}

-- `strings.HasPrefix` and `strings.Contains`.
has_prefix : Bytes → Bytes → Bool
has_prefix [] s = true
has_prefix (x ∷ p) [] = false
has_prefix (x ∷ p) (y ∷ s) = (x == y) && has_prefix p s

unfoldable pub contains : Bytes → Bytes → Bool
unfolding has_prefix
contains p [] = has_prefix p []
contains p (y ∷ s) = has_prefix p (y ∷ s) || contains p s

-- The message for a 403, by the body in lower case.
unfoldable pub refusal_text : Bytes → String
unfolding contains
refusal_text body =
    if contains (codes "does not have friends enabled") body
      || contains (codes "accept invites") body
    then "Xbox account privacy settings may need to be adjusted on the other side."
    else if contains (codes "privacy") body
    then "Blocked by Xbox Live privacy settings."
    else if contains (codes "blocked") body
    then "Blocked by Xbox block list."
    else "Mojang refused the request (403)."

unfoldable pub status_text : ℕ → Bytes → String → String
unfolding refusal_text
status_text status body plain =
    if status == 403
    then refusal_text body
    else if status == 404
    then "Player not found. Check the gamertag."
    else if status == 409
    then "Already friends or pending."
    else if status == 429
    then "Rate limited by Mojang. Please wait a moment."
    else plain

-- `friendActionRPCError`, of an error, its body in lower case and its text.
unfoldable pub friend_action_rpc_error : ApiError → Bytes → String → RpcFailure
unfolding status_text
friend_action_rpc_error (api_error status) body plain =
    new_error minus_api_error (status_text status body plain)
friend_action_rpc_error bad_json body plain = new_error minus_api_error plain
