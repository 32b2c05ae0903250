-- ===== src/Ipc/Methods.antt =====
-- internal/ipc/methods.go: the state of the handlers and the methods `version`, `auth.*` and `quit`.
-- The decoders, UUIDs, times and the texts of errors are arguments.
pub mod Friends
pub mod Accounts
use open_friend_mc.Prelude.{
  ℕ, suc, ◌*◌, ◌^◌, Bool, true, false, not, ◌&&◌, ◌||◌, List, [], ◌∷◌, ◌++◌, Option, none, some,
  String, leb, ◌==◌, comparable_string, comparable_nat, if◌then◌else◌, Result, ok, err, Bytes,
  is_empty,
}
use open_friend_mc.Prelude.Json.{Json, text, number, object, boolean, Fields, no_fields, field}
use open_friend_mc.Api.Dtos.{FriendsListResponse, nil_uuid}
use open_friend_mc.Api.Client.{Client, ApiError, Outcome, add_duration}
use open_friend_mc.Api.Cache.{reset_cache as reset_client_cache}
use open_friend_mc.Auth.Net.{Net, Tokens, in_seconds}
use open_friend_mc.Prelude.Assoc.{lookup}
use open_friend_mc.Prelude.Text.{comparable_text}
use open_friend_mc.Auth.Store.{Codec, Disk, remove_file}
use open_friend_mc.Auth.Session.{
  Session, SessionError, auth_error, not_authenticated, panics, polling, current_profile_id,
  current_tokens, set_mojang_session, reset_cache, authenticate, ensure_fresh_silent,
}
use open_friend_mc.Ipc.Blocklist.{Blocklist, RowCodec, BlocklistError}
use open_friend_mc.Ipc.Server.{
  RpcFailure, new_error, new_errorf, Message, notify, Writer, write, Called, returned, waits,
  minus_already_running, minus_api_error, minus_invalid_params, minus_internal_error,
  minus_not_authenticated,
}

pub record MojangParams : Type 0 where
  pub access_token : String
  pub profile_id : String
  pub name : String
  pub ttl_seconds : ℕ

abbrev no_params : MojangParams
no_params = record { access_token = ""; profile_id = ""; name = ""; ttl_seconds = 0 }

pub record IdParams : Type 0 where
  pub profile_id : String
  pub name : String

-- `FriendActionRequest`
pub data FriendAction : Type 0 where
  add_by_id remove_by_id : ℕ → FriendAction
  add_by_name : String → FriendAction

-- What the handlers reach outside the package: the decoders of each method's parameters, and the
-- server's answers to the requests of the API client, the second after a 401.
pub record Env (W : Type 0) : Type 0 where
  pub net : Net W
  pub print : ℕ → String
  pub codec : Codec
  pub path : Bytes
  pub fuel : ℕ
  pub rows : RowCodec
  pub marshals : Message → Bool
  pub version : String
  pub decode_hint : Bytes → Option String
  pub decode_mojang : Bytes → Option MojangParams
  pub decode_id : Bytes → Option IdParams
  pub parse_uuid : String → Option ℕ
  pub print_uuid : ℕ → String
  pub format_time : ℕ → String
  pub session_text : SessionError → String
  pub api_text : ApiError → String
  pub lower_body : ApiError → Bytes
  pub blocklist_text : BlocklistError → String
  pub cache_writable : Bool
  pub get_answers : Outcome FriendsListResponse × Outcome FriendsListResponse
  pub put_answers : FriendAction → Outcome FriendsListResponse × Outcome FriendsListResponse

-- `Handlers` with its `Deps`. `actions` logs what `PutFriendAction` was called with, `quitting` counts
-- the timers that `quit` started.
pub record Handlers (W : Type 0) : Type 0 where
  pub session : Session W
  pub client : Client
  pub has_client : Bool
  pub auth_path : Bytes
  pub blocklist : Option Blocklist
  pub auth_run : Bool
  pub actions : List FriendAction
  pub quitting : ℕ

-- A call that goes well, or badly.
abbrev pub well : Fields → Called
well fields = returned (some (object fields)) none

abbrev pub badly : RpcFailure → Called
badly e = returned none (some e)

abbrev pub ok_true : Called
ok_true = well (field "ok" (boolean true) no_fields)

abbrev held : Option Bytes → Bool
held none = false
held (some raw) = true

-- Whether `os.Remove` succeeds: it fails where there is no file.
abbrev pub can_remove : Bytes → Disk → Bool
can_remove path d = held (lookup path d.files) && d.removable

module _ {W : Type 0} (env : Env W) where
  abbrev pub Method : Type 0
  Method = Bytes → Handlers W × Writer → (Handlers W × Writer) × Called

  -- `version`
  unfoldable pub version_method : Method
  version_method raw s =
      (s, well (field "version" (text env.version) (field "protocolVersion" (number 1) no_fields)))

  status_of : Option Tokens → Called
  status_of none = well (field "authenticated" (boolean false) no_fields)
  status_of (some t) =
      if t.profile_id == nil_uuid
      then well (field "authenticated" (boolean false) no_fields)
      else (well (
          field "authenticated" (boolean true) (
            field "profileId" (text (env.print_uuid t.profile_id)) (
              field "name" (text t.name)
                (field "expiresAt" (text (env.format_time t.mojang_expires_at)) no_fields)))))

  unfoldable pub auth_status : Method
  unfolding status_of
  auth_status raw (h, w) = ((h, w), status_of (current_tokens h.session))

  -- The files of `AuthPath` are removed where the directory lets them be; the friends cache is in the
  -- same directory, and an error is ignored.
  remove_files : Handlers W → Handlers W
  remove_files h = if is_empty h.auth_path then h else record h {
    session = record (h.session) { disk = remove_file h.auth_path h.session.disk };
    client = if h.session.disk.removable then record (h.client) { disk = none } else h.client;
  }

  -- What `authSignIn` and `authUseMojangSession` do when the account is another one.
  unfoldable pub forget_account : Handlers W → Handlers W
  unfolding remove_files
  forget_account h =
      let h = remove_files h in
      record h {
        session = reset_cache env.net env.print env.codec env.path env.fuel h.session;
        client = if h.has_client then reset_client_cache h.client else h.client;
      }

  -- `cur != uuid.Nil && cur != expected`
  abbrev pub is_other : ℕ → Handlers W → Bool
  is_other id h =
      not (current_profile_id h.session == nil_uuid) && not (current_profile_id h.session == id)

  expect_id : Option ℕ → Handlers W → Handlers W
  unfolding forget_account
  expect_id none h = h
  expect_id (some expected) h = if is_other expected h then forget_account h else h

  take_hint : Option String → Handlers W → Handlers W
  unfolding expect_id
  take_hint none h = h
  take_hint (some hint) h = if hint == "" then h else expect_id (env.parse_uuid hint) h

  unfoldable pub follow_hint : Bytes → Handlers W → Handlers W
  unfolding take_hint
  follow_hint raw h = if is_empty raw then h else take_hint (env.decode_hint raw) h

  abbrev pub who : ℕ → String → Fields
  who id name = field "profileId" (text (env.print_uuid id)) (field "name" (text name) no_fields)

  abbrev refused_sign_in : Handlers W → SessionError → Handlers W × Called
  refused_sign_in h e = (
    record h { auth_run = false },
    badly (new_errorf minus_api_error "authentication failed" (env.session_text e)),
  )

  -- `Authenticate` that still polls has not returned, and neither has the method.
  not_signed_in : Handlers W → SessionError → Handlers W × Called
  not_signed_in h polling = (h, waits)
  not_signed_in h (auth_error e) = refused_sign_in h (auth_error e)
  not_signed_in h not_authenticated = refused_sign_in h not_authenticated
  not_signed_in h panics = refused_sign_in h panics

  signed_in :
      Handlers W → Writer → Session W × Result SessionError Tokens → (Handlers W × Writer) × Called
  unfolding not_signed_in
  signed_in h w (session, err e) =
      let (h', called) = not_signed_in (record h { session = session }) e in ((h', w), called)
  signed_in h w (session, ok t) = (
    (
      record h { session = session; auth_run = false },
      write env.marshals (notify "auth.signedIn" (object (who t.profile_id t.name))) w,
    ),
    well (who t.profile_id t.name),
  )

  -- `authSignIn`
  unfoldable pub auth_sign_in : Method
  unfolding follow_hint signed_in
  auth_sign_in raw (h, w) =
      if h.auth_run
      then ((h, w), badly (new_error minus_already_running "sign-in already in progress"))
      else (let h = follow_hint raw (record h { auth_run = true }) in
          signed_in h w (authenticate env.net env.print env.codec env.path env.fuel h.session))

  -- `if ttl <= 0 { ttl = 23 * 3600 }`
  abbrev pub ttl_or_default : ℕ → ℕ
  ttl_or_default ttl = if (ttl == 0) || leb (2 ^ 63) ttl then 23 * 3600 else ttl

  use_session : MojangParams → ℕ → Handlers W × Writer → (Handlers W × Writer) × Called
  unfolding forget_account
  use_session p id (h, w) =
      let h = if is_other id h then forget_account h else h in
      let expires =
        add_duration (env.net.now h.session.world) (in_seconds (ttl_or_default p.ttl_seconds)) in
      (
        (
          record h { session = set_mojang_session p.access_token id p.name expires h.session },
          write env.marshals (notify "auth.signedIn" (object (who id p.name))) w,
        ),
        well (field "authenticated" (boolean true) (who id p.name)),
      )

  with_id : MojangParams → Option ℕ → Handlers W × Writer → (Handlers W × Writer) × Called
  unfolding use_session
  with_id p none s = (s, badly (new_error minus_invalid_params "invalid profileId"))
  with_id p (some id) s = use_session p id s

  with_params : Option MojangParams → Handlers W × Writer → (Handlers W × Writer) × Called
  unfolding with_id
  with_params none s = (s, badly (new_errorf minus_invalid_params "invalid params" "json"))
  with_params (some p) s =
      if (p.access_token == "") || (p.profile_id == "")
      then (s, badly (new_error minus_invalid_params "accessToken and profileId required"))
      else with_id p (env.parse_uuid p.profile_id) s

  unfoldable pub auth_use_mojang_session : Method
  unfolding with_params
  auth_use_mojang_session raw s =
      with_params (if is_empty raw then some no_params else env.decode_mojang raw) s

  -- `authSignOut` with the `OnReset` of cmd/openfriend/ipc.go, the removal of the credentials file.
  unfoldable pub auth_sign_out : Method
  auth_sign_out raw (h, w) =
      if can_remove h.auth_path h.session.disk
      then (
        (
          record h {
            session = record (h.session) { disk = remove_file h.auth_path h.session.disk };
          },
          w,
        ),
        ok_true,
      )
      else ((h, w), badly (new_errorf minus_internal_error "reset failed" "remove"))

  -- `quit`; the server's `Quit` comes 50 ms later.
  unfoldable pub quit_method : Method
  quit_method raw (h, w) = ((record h { quitting = suc h.quitting }, w), ok_true)

  authorised : Session W × Result SessionError Tokens → Handlers W → Handlers W × Option RpcFailure
  authorised (session, ok t) h = (record h { session = session }, none)
  authorised (session, err e) h = (
    record h { session = session },
    some (new_errorf minus_not_authenticated "not authenticated" (env.session_text e)),
  )

  -- `requireAuth`, where nothing else runs while it waits for the lock.
  unfoldable pub require_auth : Handlers W → Handlers W × Option RpcFailure
  unfolding authorised
  require_auth h =
      authorised
        (ensure_fresh_silent env.net env.print env.codec env.path env.fuel (λ s. s) h.session) h
