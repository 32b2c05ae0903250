-- ===== src/Auth/Session.antt =====
-- internal/auth/session.go: the signed-in session. Its store is not nil. What other goroutines do while
-- a method does not hold the lock is the argument `meanwhile`.
pub mod Restart
pub mod Returning
use open_friend_mc.Prelude.{
  ℕ, ◌+◌, ◌-◌, ◌*◌, Bool, true, false, not, ◌&&◌, List, [], ◌∷◌, ◌++◌, Option, none, some, String,
  ltb, ◌==◌, comparable_string, if◌then◌else◌, Result, ok, err, Bytes,
}
use open_friend_mc.Api.Client.{second}
use open_friend_mc.Api.Dtos.{nil_uuid}
use open_friend_mc.Auth.Net.{Net, AuthError, Tokens, MsToken, DeviceCodePrompt}
use open_friend_mc.Auth.DeviceCode.{start_device_code, poll_for_ms_token, Polled}
use open_friend_mc.Auth.Mojang.{exchange_for_mojang, silent_refresh}
use open_friend_mc.Auth.Store.{Codec, Disk, StoreError, load, save}

abbrev pub refresh_margin : ℕ
refresh_margin = 5 * 60 * second

-- `panics` is the fault of a nil pointer, `polling` stands for a call that has not
-- returned: it still polls when the fuel is used up.
pub data SessionError : Type 0 where
  auth_error : AuthError → SessionError
  not_authenticated panics polling : SessionError

-- `prompts` logs the calls of `onPrompt`, unless it is nil.
pub record Session (W : Type 0) : Type 0 where
  pub tokens : Option Tokens
  pub has_on_prompt : Bool
  pub prompts : List DeviceCodePrompt
  pub disk : Disk
  pub world : W

unfoldable pub new_session : {W : Type 0} → Bool → Disk → W → Session W
new_session has_on_prompt disk w = record {
  tokens = none;
  has_on_prompt = has_on_prompt;
  prompts = [];
  disk = disk;
  world = w;
}

unfoldable pub set_mojang_session : {W : Type 0} → String → ℕ → String → ℕ → Session W → Session W
set_mojang_session access_token profile_id name expires_at s = record s {
  tokens = some (record {
    profile_id = profile_id;
    name = name;
    mojang_access_token = access_token;
    mojang_expires_at = expires_at;
    ms_refresh_token = "";
  });
}

abbrev profile_of : Option Tokens → ℕ
profile_of none = nil_uuid
profile_of (some t) = t.profile_id

unfoldable pub current_profile_id : {W : Type 0} → Session W → ℕ
current_profile_id s = profile_of s.tokens

unfoldable pub current_tokens : {W : Type 0} → Session W → Option Tokens
current_tokens s = s.tokens

abbrev pub no_tokens : Tokens
no_tokens = record {
  profile_id = 0;
  name = "";
  mojang_access_token = "";
  mojang_expires_at = 0;
  ms_refresh_token = "";
}

-- Whether the tokens last for more than the margin.
abbrev pub lasts : ℕ → Tokens → Bool
lasts now t = ltb now (t.mojang_expires_at - refresh_margin)

module _ {W : Type 0} (net : Net W) (print : ℕ → String) (c : Codec) (path : Bytes) (fuel : ℕ) where
  abbrev pub Outcome : Type 0
  Outcome = Session W × Result SessionError Tokens

  unfoldable pub store_tokens : Tokens → Session W → Session W
  store_tokens t s = record s { disk = (save c path t s.disk).0 }

  unfoldable pub reset_cache : Session W → Session W
  unfolding store_tokens
  reset_cache s = store_tokens no_tokens (record s { tokens = none })

  -- `s.tokens = t` and `s.store.Save(t)`, or the error.
  unfoldable pub adopt : Session W → W × Result AuthError Tokens → Outcome
  unfolding store_tokens
  adopt s (w, ok t) = (store_tokens t (record s { tokens = some t; world = w }), ok t)
  adopt s (w, err e) = (record s { world = w }, err (auth_error e))

  unfoldable pub renew : String → Session W → Outcome
  unfolding adopt
  renew refresh_token s = adopt s (silent_refresh net print refresh_token s.world)

  -- The tokens that the device-code flow saves before it exchanges them.
  abbrev pub only_refresh : MsToken → Tokens
  only_refresh ms = record {
    profile_id = nil_uuid;
    name = "";
    mojang_access_token = "";
    mojang_expires_at = 0;
    ms_refresh_token = ms.refresh_token;
  }

  approved : Session W → Option (Polled net) → Outcome
  unfolding store_tokens adopt
  approved s none = (s, err polling)
  approved s (some (w, said, err e)) = (record s { world = w }, err (auth_error e))
  approved s (some (w, said, ok ms)) =
      let s = store_tokens (only_refresh ms) (record s { world = w }) in
      adopt s (exchange_for_mojang net print ms w)

  tell : DeviceCodePrompt → Session W → Session W
  tell prompt s = if s.has_on_prompt then record s { prompts = s.prompts ++ prompt ∷ [] } else s

  prompted : Session W → W × Result AuthError DeviceCodePrompt → Outcome
  unfolding approved tell
  prompted s (w, err e) = (record s { world = w }, err (auth_error e))
  prompted s (w, ok prompt) =
      approved (tell prompt (record s { world = w })) (poll_for_ms_token net fuel prompt w)

  unfoldable pub device_code : Session W → Outcome
  unfolding prompted
  device_code s = prompted s (start_device_code net s.world)

  silent_or_prompt : Outcome → Outcome
  unfolding device_code
  silent_or_prompt (s, ok t) = (s, ok t)
  silent_or_prompt (s, err e) = device_code s

  authenticate_with : Session W → Result StoreError (Option Tokens) → Outcome
  unfolding renew silent_or_prompt device_code
  authenticate_with s (err e) = device_code s
  authenticate_with s (ok none) = device_code s
  authenticate_with s (ok (some saved)) =
      if not (saved.ms_refresh_token == "")
      then silent_or_prompt (renew saved.ms_refresh_token s)
      else device_code s

  unfoldable pub authenticate : Session W → Outcome
  unfolding authenticate_with
  authenticate s =
      let read = load c path s.disk in authenticate_with (record s { disk = read.0 }) read.1

  -- Behind the lock once more: the tokens are looked at again.
  renew_if_needed : Session W → Option Tokens → Outcome
  unfolding renew
  renew_if_needed s none = (s, err panics)
  renew_if_needed s (some t) =
      if lasts (net.now s.world) t then (s, ok t) else renew t.ms_refresh_token s

  relock : Session W → Outcome
  unfolding renew_if_needed
  relock s = renew_if_needed s s.tokens

  silent_with : Session W → Result StoreError (Option Tokens) → Outcome
  unfolding renew
  silent_with s (err e) = (s, err not_authenticated)
  silent_with s (ok none) = (s, err not_authenticated)
  silent_with s (ok (some saved)) =
      if saved.ms_refresh_token == ""
      then (s, err not_authenticated)
      else renew saved.ms_refresh_token s

  from_store : Session W → Outcome
  unfolding silent_with
  from_store s = let read = load c path s.disk in silent_with (record s { disk = read.0 }) read.1

  fresh_silent : (Session W → Session W) → Session W → Option Tokens → Outcome
  unfolding relock from_store
  fresh_silent meanwhile s none = from_store (meanwhile s)
  fresh_silent meanwhile s (some t) =
      if lasts (net.now s.world) t then (s, ok t) else relock (meanwhile s)

  unfoldable pub ensure_fresh_silent : (Session W → Session W) → Session W → Outcome
  unfolding fresh_silent
  ensure_fresh_silent meanwhile s = fresh_silent meanwhile s s.tokens

  fresh : (Session W → Session W) → Session W → Option Tokens → Outcome
  unfolding relock authenticate
  fresh meanwhile s none = authenticate (meanwhile s)
  fresh meanwhile s (some t) = if lasts (net.now s.world) t then (s, ok t) else relock (meanwhile s)

  unfoldable pub ensure_fresh : (Session W → Session W) → Session W → Outcome
  unfolding fresh
  ensure_fresh meanwhile s = fresh meanwhile s s.tokens

  abbrev pub token_of : Option Tokens → String
  token_of none = ""
  token_of (some t) = t.mojang_access_token

  -- `Current`; the fault of `EnsureFresh` would be its fault as well.
  current_of : Outcome → Session W × Result SessionError String
  current_of (s, ok t) = (s, ok t.mojang_access_token)
  current_of (s, err panics) = (s, err panics)
  current_of (s, err (auth_error e)) = (s, ok (token_of s.tokens))
  current_of (s, err not_authenticated) = (s, ok (token_of s.tokens))
  current_of (s, err polling) = (s, err polling)

  unfoldable pub current :
      (Session W → Session W) → Session W → Session W × Result SessionError String
  unfolding current_of ensure_fresh
  current meanwhile s = current_of (ensure_fresh meanwhile s)

  refreshed : Tokens → Outcome → Session W × String
  refreshed t (s, ok nt) = (s, nt.mojang_access_token)
  refreshed t (s, err e) = (s, t.mojang_access_token)

  refresh_with : Session W → Option Tokens → Session W × String
  unfolding refreshed renew
  refresh_with s none = (s, "")
  refresh_with s (some t) = refreshed t (renew t.ms_refresh_token s)

  unfoldable pub refresh_now : Session W → Session W × String
  unfolding refresh_with
  refresh_now s = refresh_with s s.tokens
