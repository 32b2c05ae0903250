-- ===== src/Auth/DeviceCode.antt =====
-- internal/auth/devicecode.go: the device-code flow. `onWait` is a log of its messages.
use Prim.Native.String.{◌++◌ as join}
use open_friend_mc.Prelude.{
  ℕ, suc, zero, ◌+◌, ◌*◌, ◌%◌, ◌^◌, true, false, not, List, [], ◌∷◌, ◌++◌, Option, none, some,
  String, ltb, ◌==◌, comparable_string, comparable_nat, if◌then◌else◌, Result, ok, err,
}
use open_friend_mc.Api.Client.{second, add_duration, first_non_empty}
use open_friend_mc.Prelude.Json.{Fields, text_at, number_at, or_empty}
use open_friend_mc.Auth.Net.{
  Net, AuthError, caused, answered, exchange_failed, bad_json, message, HttpResp, in_seconds,
  MsToken, DeviceCodePrompt, client_id, scope, token_url, post_form,
}

abbrev pub device_code_url : String
device_code_url = "https://login.live.com/oauth20_connect.srf"

unfoldable pub prompt_of : Fields → DeviceCodePrompt
prompt_of j =
    let uri = first_non_empty (text_at "verification_uri" j) (text_at "verification_url" j) in
    let code = text_at "user_code" j in
    record {
      user_code = code;
      verification_uri = uri;
      message =
          first_non_empty (text_at "message" j)
            (join "Visit " (join uri (join " and enter " code)));
      device_code = text_at "device_code" j;
      expires_in = in_seconds (number_at "expires_in" j);
      interval = in_seconds (number_at "interval" j);
    }

unfoldable pub ms_token_of : ℕ → Fields → MsToken
ms_token_of now j = record {
  access_token = text_at "access_token" j;
  refresh_token = text_at "refresh_token" j;
  expires_at = add_duration now (in_seconds (number_at "expires_in" j));
}

-- What one round of the poll decides.
pub data Round : Type 0 where
  finished : Result AuthError MsToken → Round
  go_on : ℕ → String → Round

-- The answer to a poll, at the time and the interval given.
unfoldable pub poll_answer : ℕ → ℕ → HttpResp → Fields → Round
unfolding ms_token_of
poll_answer now interval res j =
    if res.status_code == 200
    then finished (ok (ms_token_of now j))
    else (let code = text_at "error" j in
        if code == "authorization_pending"
        then go_on interval "waiting for approval..."
        else (if code == "slow_down"
            then go_on ((interval + 5 * second) % 2 ^ 64) "slowing down poll"
            else (if code == "expired_token"
                then finished (err (caused "device-poll" (message "device code expired")))
                else (if code == "expired_device_code"
                    then finished (err (caused "device-poll" (message "device code expired")))
                    else (if code == "authorization_declined"
                        then finished (err (caused "device-poll" (message "user declined")))
                        else finished (err (answered "device-poll" res.status_code res.body)))))))

module _ {W : Type 0} (net : Net W) where
  prompt_answer : Option HttpResp → Result AuthError DeviceCodePrompt
  unfolding prompt_of
  prompt_answer none = err (caused "device-code" exchange_failed)
  prompt_answer (some res) =
      if not (res.status_code == 200)
      then err (answered "device-code" res.status_code res.body)
      else (elim (net.unmarshal res.body) [
        | none ↦ err (caused "device-code" bad_json)
        | some j ↦ ok (prompt_of j)
      ])

  unfoldable pub start_device_code : W → W × Result AuthError DeviceCodePrompt
  unfolding prompt_answer
  start_device_code w =
      let (w, res) =
        post_form net device_code_url
          (("client_id", client_id) ∷ ("scope", scope) ∷ ("response_type", "device_code") ∷ []) w in
      (w, prompt_answer res)

  unfoldable pub poll_request : DeviceCodePrompt → W → W × Option HttpResp
  poll_request prompt w =
      post_form net token_url
        (("grant_type", "urn:ietf:params:oauth:grant-type:device_code")
          ∷ ("client_id", client_id)
          ∷ ("device_code", prompt.device_code)
          ∷ [])
        w

  unfoldable pub poll_reply : (now interval : ℕ) → Option HttpResp → Round
  unfolding poll_answer
  poll_reply now interval none = finished (err (caused "device-poll" exchange_failed))
  poll_reply now interval (some res) =
      poll_answer now interval res (or_empty (net.unmarshal res.body))

  -- One round of the loop: the sleep, the request, and what the answer says.
  unfoldable pub poll_round : DeviceCodePrompt → ℕ → W → W × Round
  unfolding poll_reply poll_request
  poll_round prompt interval w =
      let asked = poll_request prompt (net.sleep interval w) in
      (asked.0, poll_reply (net.now asked.0) interval asked.1)

  abbrev pub Polled : Type 0
  Polled = W × List String × Result AuthError MsToken

  -- The rest of the loop, `again`, behind a round.
  abbrev pub continue_with :
      (ℕ → List String → W → Option Polled) → List String → W × Round → Option Polled
  continue_with again waits (w, finished r) = some (w, waits, r)
  continue_with again waits (w, go_on interval said) = again interval (waits ++ said ∷ []) w

  -- The loop of `PollForMsToken`; none where the fuel ran out.
  unfoldable pub poll_loop :
      (fuel : ℕ) → DeviceCodePrompt → (deadline interval : ℕ) → List String → W → Option Polled
  unfolding poll_round
  poll_loop zero prompt deadline interval waits w = none
  poll_loop (suc fuel) prompt deadline interval waits w = elim (ltb (net.now w) deadline) [
    | false ↦ some (w, waits, err (caused "device-poll" (message "timed out")))
    | true ↦ continue_with (poll_loop fuel prompt deadline) waits (poll_round prompt interval w)
  ]

  unfoldable pub poll_for_ms_token : ℕ → DeviceCodePrompt → W → Option Polled
  unfolding poll_loop
  poll_for_ms_token fuel prompt w =
      poll_loop fuel prompt (add_duration (net.now w) prompt.expires_in) prompt.interval [] w

  refresh_answer : (now : ℕ) → Option HttpResp → Result AuthError MsToken
  unfolding ms_token_of
  refresh_answer now none = err (caused "ms-refresh" exchange_failed)
  refresh_answer now (some res) =
      if not (res.status_code == 200)
      then err (answered "ms-refresh" res.status_code res.body)
      else (elim (net.unmarshal res.body) [
        | none ↦ err (caused "ms-refresh" bad_json)
        | some j ↦ ok (ms_token_of now j)
      ])

  unfoldable pub refresh_ms_token : String → W → W × Result AuthError MsToken
  unfolding refresh_answer
  refresh_ms_token refresh_token w =
      let asked =
        post_form net token_url
          (("grant_type", "refresh_token")
            ∷ ("client_id", client_id)
            ∷ ("refresh_token", refresh_token)
            ∷ ("scope", scope)
            ∷ [])
          w in
      (asked.0, refresh_answer (net.now asked.0) asked.1)
