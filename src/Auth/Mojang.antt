-- ===== src/Auth/Mojang.antt =====
-- internal/auth/mojang.go and xbox.go: from a Microsoft token to the Mojang tokens.
use Prim.Native.String.{◌++◌ as join}
use open_friend_mc.Prelude.{
  ℕ, ◌&&◌, not, List, [], ◌∷◌, Option, none, some, String, ◌==◌, comparable_string, comparable_nat,
  if◌then◌else◌, Result, ok, err, codes,
}
use open_friend_mc.Util.{parse_undashed}
use open_friend_mc.Api.Client.{add_duration}
use open_friend_mc.Prelude.Json.{
  Json, text, object, array, Items, no_items, item, Fields, no_fields, field, at, text_at,
  number_at, or_empty,
}
use open_friend_mc.Auth.Net.{
  Net, AuthError, caused, answered, exchange_failed, bad_json, bad_uuid, message, nothing, json,
  HttpResp, in_seconds, Tokens, MsToken,
}
use open_friend_mc.Auth.DeviceCode.{refresh_ms_token}

abbrev pub xbl_url : String
xbl_url = "https://user.auth.xboxlive.com/user/authenticate"

abbrev pub xsts_url : String
xsts_url = "https://xsts.auth.xboxlive.com/xsts/authorize"

abbrev pub mojang_login : String
mojang_login = "https://api.minecraftservices.com/authentication/login_with_xbox"

abbrev pub mc_profile_url : String
mc_profile_url = "https://api.minecraftservices.com/minecraft/profile"

pub record XblAuth : Type 0 where
  pub token : String
  pub user_hash : String

pub record Profile : Type 0 where
  pub id : ℕ
  pub name : String

-- `describeXErr`
unfoldable pub describe_x_err : ℕ → String
describe_x_err x =
    if x == 0x8015DC04
    then "child account; must be added to a Family"
    else (if x == 0x8015DC09
        then "child account; must be added to a Family"
        else (if x == 0x8015DC0E
            then "account not linked to Xbox profile"
            else "see Xbox XErr documentation"))

-- `m, _ := v.(map[string]any)` and `l, _ := v.([]any)`
abbrev pub as_fields : Option Json → Fields
as_fields (some (object j)) = j
as_fields (some value) = no_fields
as_fields none = no_fields

abbrev pub as_items : Option Json → Items
as_items (some (array items)) = items
as_items (some value) = no_items
as_items none = no_items

xbox_token : String → Fields → Items → Result AuthError XblAuth
xbox_token stage j no_items = err (caused stage (message "missing DisplayClaims.xui"))
xbox_token stage j (item first more) =
    ok (record { token = text_at "Token" j; user_hash = text_at "uhs" (as_fields (some first)) })

xbox_body : String → Option Fields → Result AuthError XblAuth
unfolding xbox_token
xbox_body stage none = err (caused stage bad_json)
xbox_body stage (some j) =
    xbox_token stage j (as_items (at "xui" (as_fields (at "DisplayClaims" j))))

-- `fmt.Errorf("xsts XErr=%d: %s", …)`, where `print` writes the number.
x_err_message : (print : ℕ → String) → ℕ → String
unfolding describe_x_err
x_err_message print x = join "xsts XErr=" (join (print x) (join ": " (describe_x_err x)))

abbrev json_headers : List (String × String)
json_headers = ("Content-Type", "application/json") ∷ ("Accept", "application/json") ∷ []

module _ {W : Type 0} (net : Net W) (print : ℕ → String) where
  xbox_answer : String → String → Option HttpResp → Result AuthError XblAuth
  unfolding xbox_body x_err_message
  xbox_answer endpoint stage none = err (caused stage exchange_failed)
  xbox_answer endpoint stage (some res) =
      if (res.status_code == 401) && (endpoint == xsts_url)
      then err (
          caused stage
            (message (x_err_message print (number_at "XErr" (or_empty (net.unmarshal res.body))))))
      else if not (res.status_code == 200)
      then err (answered stage res.status_code res.body)
      else xbox_body stage (net.unmarshal res.body)

  -- `doXboxRequest`
  unfoldable pub do_xbox_request : String → Fields → String → W → W × Result AuthError XblAuth
  unfolding xbox_answer
  do_xbox_request endpoint body stage w =
      let asked =
        net.exchange
          (record {
            method = "POST";
            url = endpoint;
            headers = json_headers;
            content = json (object body);
          })
          w in
      (asked.0, xbox_answer endpoint stage asked.1)

  unfoldable pub xbox_live : String → W → W × Result AuthError XblAuth
  unfolding do_xbox_request
  xbox_live ms_access =
      do_xbox_request xbl_url
        (field "Properties"
          (object (
            field "AuthMethod" (text "RPS") (
              field "SiteName" (text "user.auth.xboxlive.com")
                (field "RpsTicket" (text ms_access) no_fields))))
          (field "RelyingParty" (text "http://auth.xboxlive.com")
            (field "TokenType" (text "JWT") no_fields)))
        "xbl"

  unfoldable pub xsts : String → W → W × Result AuthError XblAuth
  unfolding do_xbox_request
  xsts xbl_token =
      do_xbox_request xsts_url
        (field "Properties"
          (object (
            field "UserTokens" (array (item (text xbl_token) no_items))
              (field "SandboxId" (text "RETAIL") no_fields)))
          (field "RelyingParty" (text "rp://api.minecraftservices.com/")
            (field "TokenType" (text "JWT") no_fields)))
        "xsts"

  profile_of : Fields → Option ℕ → Result AuthError Profile
  profile_of j none = err (caused "mc-profile" bad_uuid)
  profile_of j (some id) = ok (record { id = id; name = text_at "name" j })

  profile_body : Option Fields → Result AuthError Profile
  unfolding profile_of
  profile_body none = err (caused "mc-profile" bad_json)
  profile_body (some j) = profile_of j (parse_undashed net.parse_uuid (codes (text_at "id" j)))

  profile_answer : Option HttpResp → Result AuthError Profile
  unfolding profile_body
  profile_answer none = err (caused "mc-profile" exchange_failed)
  profile_answer (some res) =
      if not (res.status_code == 200)
      then err (answered "mc-profile" res.status_code res.body)
      else profile_body (net.unmarshal res.body)

  unfoldable pub fetch_profile : String → W → W × Result AuthError Profile
  unfolding profile_answer
  fetch_profile mojang_token w =
      let asked =
        net.exchange
          (record {
            method = "GET";
            url = mc_profile_url;
            headers = ("Authorization", join "Bearer " mojang_token) ∷ [];
            content = nothing;
          })
          w in
      (asked.0, profile_answer asked.1)

  -- The end of the exchange: the tokens of a profile, at the time they are made.
  unfoldable pub tokens_of : ℕ → MsToken → Fields → Profile → Tokens
  tokens_of now ms j p = record {
    profile_id = p.id;
    name = p.name;
    mojang_access_token = text_at "access_token" j;
    mojang_expires_at = add_duration now (in_seconds (number_at "expires_in" j));
    ms_refresh_token = ms.refresh_token;
  }

  -- A call, and what follows it unless it failed.
  infixl 5 ◌then_try◌
  abbrev pub ◌then_try◌ :
      {A B : Type 0}
      → W × Result AuthError A
      → (A → W → W × Result AuthError B)
      → W × Result AuthError B
  (w, ok a) then_try k = k a w
  (w, err e) then_try k = (w, err e)

  with_profile : MsToken → Fields → W → W × Result AuthError Tokens
  unfolding tokens_of
  with_profile ms j w = fetch_profile (text_at "access_token" j) w then_try λ p w.
      (w, ok (tokens_of (net.now w) ms j p))

  login_body : MsToken → Option Fields → W → W × Result AuthError Tokens
  unfolding with_profile
  login_body ms none w = (w, err (caused "mojang-login" bad_json))
  login_body ms (some j) w = with_profile ms j w

  login_answer : MsToken → W × Option HttpResp → W × Result AuthError Tokens
  unfolding login_body
  login_answer ms (w, none) = (w, err (caused "mojang-login" exchange_failed))
  login_answer ms (w, some res) =
      if not (res.status_code == 200)
      then (w, err (answered "mojang-login" res.status_code res.body))
      else login_body ms (net.unmarshal res.body) w

  login : MsToken → XblAuth → W → W × Result AuthError Tokens
  unfolding login_answer
  login ms x w = login_answer ms (
      net.exchange
        (record {
          method = "POST";
          url = mojang_login;
          headers = json_headers;
          content = json (
              object (
                field "identityToken"
                  (text (join "XBL3.0 x=" (join x.user_hash (join ";" x.token)))) no_fields));
        })
        w)

  unfoldable pub exchange_for_mojang : MsToken → W → W × Result AuthError Tokens
  unfolding login
  exchange_for_mojang ms w =
      xbox_live ms.access_token w then_try λ xbl w. xsts xbl.token w then_try λ x w. login ms x w

  unfoldable pub silent_refresh : String → W → W × Result AuthError Tokens
  unfolding exchange_for_mojang
  silent_refresh refresh_token w = refresh_ms_token net refresh_token w then_try exchange_for_mojang
