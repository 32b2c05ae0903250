-- ===== src/Auth/Net.antt =====
-- internal/auth/devicecode.go, errors.go and tokens.go: the requests, their errors and the tokens. An
-- instant and a duration are as in Api/Client.
use Prim.Native.String.{String}
use open_friend_mc.Prelude.{
  ℕ, ◌*◌, ◌%◌, ◌^◌, List, [], ◌∷◌, Option, comparable_string, comparable_nat, Bytes,
}
use open_friend_mc.Prelude.Json.{Json, Fields}
use open_friend_mc.Api.Client.{second}

pub data Cause : Type 0 where
  no_cause exchange_failed bad_json bad_uuid : Cause
  message : String → Cause

-- `Error`
pub record AuthError : Type 0 where
  pub stage : String
  pub status : ℕ
  pub body : String
  pub cause : Cause

abbrev pub caused : String → Cause → AuthError
caused stage cause = record { stage = stage; status = 0; body = ""; cause = cause }

abbrev pub answered : String → ℕ → String → AuthError
answered stage status body = record {
  stage = stage;
  status = status;
  body = body;
  cause = no_cause;
}

pub data Content : Type 0 where
  nothing : Content
  form : List (String × String) → Content
  json : Json → Content

pub record Request : Type 0 where
  pub method : String
  pub url : String
  pub headers : List (String × String)
  pub content : Content

-- `httpResp`
pub record HttpResp : Type 0 where
  pub status_code : ℕ
  pub body : String

-- What is outside the package: the HTTP client, the clock, `time.Sleep`, and two decoders.
pub record Net (W : Type 0) : Type 0 where
  pub exchange : Request → W → W × Option HttpResp
  pub now : W → ℕ
  pub sleep : ℕ → W → W
  pub unmarshal : String → Option Fields
  pub parse_uuid : Bytes → Option ℕ

-- `time.Duration(n) * time.Second`
abbrev pub in_seconds : ℕ → ℕ
in_seconds n = n * second % 2 ^ 64

pub record Tokens : Type 0 where
  pub profile_id : ℕ
  pub name : String
  pub mojang_access_token : String
  pub mojang_expires_at : ℕ
  pub ms_refresh_token : String

pub record MsToken : Type 0 where
  pub access_token : String
  pub refresh_token : String
  pub expires_at : ℕ

pub record DeviceCodePrompt : Type 0 where
  pub user_code : String
  pub verification_uri : String
  pub message : String
  pub device_code : String
  pub expires_in : ℕ
  pub interval : ℕ

abbrev pub client_id : String
client_id = "00000000402b5328"

abbrev pub scope : String
scope = "service::user.auth.xboxlive.com::MBI_SSL"

abbrev pub token_url : String
token_url = "https://login.live.com/oauth20_token.srf"

unfoldable pub post_form :
    {W : Type 0} → Net W → String → List (String × String) → W → W × Option HttpResp
post_form net endpoint values w =
    net.exchange
      (record {
        method = "POST";
        url = endpoint;
        headers = ("Content-Type", "application/x-www-form-urlencoded") ∷ [];
        content = form values;
      })
      w
