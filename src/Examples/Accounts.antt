-- ===== src/Examples/Accounts.antt =====
-- Signing in, the credentials and the methods of the daemon, at concrete inputs.
pub mod Daemon
use open_friend_mc.Prelude.{
  ℕ, suc, ◌+◌, ◌≤◌, ◌≡◌, ◌≢◌, refl, sym, ap, ◌∙◌, arith, Bool, true, false, List, [], ◌∷◌, ◌++◌,
  Option, none, some, String, Bytes, codes, All, Result, ok, err, map, length, if◌then◌else◌, ◌==◌,
  comparable_nat, comparable_string,
}
use open_friend_mc.Prelude.Assoc.{lookup, insert, erase}
use open_friend_mc.Prelude.Text.{same_text}
use open_friend_mc.Prelude.Json.{
  Json, text, number, object, array, item, no_items, Fields, field, no_fields, at, text_at,
  number_at,
}
use open_friend_mc.Util.{parse_undashed}
use open_friend_mc.Auth.Net.{
  Net, Tokens, DeviceCodePrompt, Request, HttpResp, AuthError, answered, post_form,
}
use open_friend_mc.Auth.DeviceCode.{
  start_device_code, poll_for_ms_token, Polled, refresh_ms_token, ms_token_of,
}
use open_friend_mc.Auth.Polling.{IsClock, poll_for_ms_token_returns}
use open_friend_mc.Auth.Mojang.{
  silent_refresh, exchange_for_mojang, xbox_live, xsts, do_xbox_request, fetch_profile, tokens_of,
}
use open_friend_mc.Auth.Store.{Codec, Disk, load, save, read_file, legacy_path}
use open_friend_mc.Auth.Store.Saved.{save-load}
use open_friend_mc.Auth.Store.Working.{Works, save-succeeds}
use open_friend_mc.Auth.Session.{
  Session, new_session, set_mojang_session, authenticate, ensure_fresh, reset_cache, current,
  panics, lasts, refresh_margin,
}
use open_friend_mc.Auth.Session.Restart.{authenticate-restart, ensure_fresh-reset_cache}
use open_friend_mc.Examples.Codec.{codec, codec-IsInverse, codec-IsTotal}

path : Bytes
path = codes "/home/alex/auth.pem"

-- Every answer decodes to this object.
all_fields : Fields
all_fields = field "access_token" (text "token") (
    field "refresh_token" (text "again") (
      field "expires_in" (number 86400) (
        field "Token" (text "xbl") (
          field "DisplayClaims"
            (object (
              field "xui" (array (item (object (field "uhs" (text "hash") no_fields)) no_items))
                no_fields))
            (field "id" (text "7") (field "name" (text "Alex") no_fields))))))

-- A world that is its clock; each exchange takes a nanosecond and is answered with the status.
net_of : ℕ → Fields → Net ℕ
net_of status j = record {
  exchange = λ request w. (suc w, some (record { status_code = status; body = "{}" }));
  now = λ w. w;
  sleep = λ d w. w + d;
  unmarshal = λ body. some j;
  parse_uuid = λ s. some 7;
}

-- The server always says that the user has not approved yet, and to slow down.
slow_net : Net ℕ
unfolding net_of
slow_net = net_of 400 (field "error" (text "slow_down") no_fields)

prompt : DeviceCodePrompt
prompt = record {
  user_code = "ABCD";
  verification_uri = "https://example.org";
  message = "enter ABCD";
  device_code = "device";
  expires_in = 900000000000;
  interval = 5000000000;
}

slow_net-IsClock : IsClock slow_net
unfolding slow_net net_of
slow_net-IsClock = record { forward = λ request w. omega arith; slept = λ d w small. omega arith }

poll_ends : (r : Polled slow_net) × (poll_for_ms_token slow_net (suc 180) prompt 1000 ≡ some r)
unfolding slow_net net_of prompt
poll_ends =
    poll_for_ms_token_returns slow_net slow_net-IsClock prompt 180 1000 (omega arith) (omega arith)
      (omega arith)

good_net : Net ℕ
unfolding net_of all_fields
good_net = net_of 200 all_fields

abbrev print_number : ℕ → String
print_number n = "0"

empty_disk : Disk
empty_disk = record {
  files = [];
  readable = true;
  has_dir = true;
  writable = true;
  removable = true;
}

empty_disk-Works : Works empty_disk
unfolding empty_disk
empty_disk-Works = record { readable = refl; has_dir = refl; writable = refl }

tokens : Tokens
tokens = record {
  profile_id = 7;
  name = "Alex";
  mojang_access_token = "token";
  mojang_expires_at = 86400000000000;
  ms_refresh_token = "again";
}

saved_tokens :
    load codec path (save codec path tokens empty_disk).0
    ≡ ((save codec path tokens empty_disk).0, ok (some tokens))
unfolding empty_disk
saved_tokens =
    save-load codec codec-IsInverse path tokens empty_disk refl
      (save-succeeds codec path tokens empty_disk codec-IsTotal empty_disk-Works)

first_start : Session ℕ
unfolding empty_disk new_session
first_start = new_session true empty_disk 0

-- The tokens of the first start, by the device code.
first_tokens : Tokens
first_tokens = record {
  profile_id = 7;
  name = "Alex";
  mojang_access_token = "token";
  mojang_expires_at = 86400000000006;
  ms_refresh_token = "again";
}

signed_in_first :
    authenticate good_net print_number codec path 3 first_start
    ≡ ((authenticate good_net print_number codec path 3 first_start).0, ok first_tokens)
unfolding authenticate first_start first_tokens good_net net_of all_fields silent_refresh
    exchange_for_mojang load at text_at number_at empty_disk path poll_for_ms_token lookup read_file
    legacy_path same_text start_device_code post_form xbox_live xsts fetch_profile parse_undashed
signed_in_first = refl

-- The tokens of a silent refresh at the time 100, and at the time 5.
later_tokens : ℕ → Tokens
later_tokens expires = record {
  profile_id = 7;
  name = "Alex";
  mojang_access_token = "token";
  mojang_expires_at = expires;
  ms_refresh_token = "again";
}

refreshed_later :
    silent_refresh good_net print_number "again" 100 ≡ (105, ok (later_tokens 86400000000105))
unfolding silent_refresh exchange_for_mojang good_net net_of all_fields at text_at number_at
    post_form xbox_live xsts fetch_profile parse_undashed later_tokens refresh_ms_token
refreshed_later = refl

restarted :
    let disk = (authenticate good_net print_number codec path 3 first_start).0.disk in
    let again = authenticate good_net print_number codec path 3 (new_session true disk 100) in
    (again.1 ≡ ok (later_tokens 86400000000105)) × (again.0.prompts ≡ [])
unfolding first_start first_tokens empty_disk new_session
restarted =
    authenticate-restart good_net print_number codec path 3 codec-IsInverse codec-IsTotal
      first_start (authenticate good_net print_number codec path 3 first_start).0 first_tokens
      (later_tokens 86400000000105) true 100 105 empty_disk-Works signed_in_first (λ e. cc)
      refreshed_later

-- A session whose tokens have run out.
old_session : Session ℕ
unfolding empty_disk first_tokens
old_session = record {
  tokens = some first_tokens;
  has_on_prompt = true;
  prompts = [];
  disk = empty_disk;
  world = 90000000000000;
}

reset_between :
    (ensure_fresh good_net print_number codec path 3
      (reset_cache good_net print_number codec path 3)
      old_session).1
    ≡ err panics
unfolding old_session first_tokens good_net net_of
reset_between =
    ensure_fresh-reset_cache good_net print_number codec path 3 old_session first_tokens refl refl
