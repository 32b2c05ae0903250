-- ===== src/Examples/Accounts/Daemon.antt =====
-- The methods of the daemon, its server and the blocklist at concrete inputs.
use open_friend_mc.Prelude.{
  Bool, ltb, ℕ, ◌≡◌, refl, sym, ap, ◌∙◌, true, false, List, [], ◌∷◌, ◌++◌, Option, none, some,
  some_inj, String, Bytes, codes, ok, map, if◌then◌else◌, ◌==◌, comparable_nat, comparable_string,
}
use open_friend_mc.Prelude.Text.{comparable_text, same_text}
use open_friend_mc.Prelude.Assoc.{lookup, insert}
use open_friend_mc.Prelude.Json.{text, at, text_at, number_at}
use open_friend_mc.Api.Client.{Client, failed, add_duration}
use open_friend_mc.Auth.Net.{post_form}
use open_friend_mc.Auth.Mojang.{silent_refresh, exchange_for_mojang, xbox_live, xsts, fetch_profile}
use open_friend_mc.Auth.DeviceCode.{
  refresh_ms_token, poll_for_ms_token, poll_loop, poll_round, poll_reply, poll_answer, poll_request,
}
use open_friend_mc.Auth.Session.Returning.{PollsEnd}
use open_friend_mc.Util.{parse_undashed}
use open_friend_mc.Auth.Store.{load}
use open_friend_mc.Auth.Session.{Session, current_profile_id, no_tokens, new_session}
use open_friend_mc.Ipc.Blocklist.{Blocklist, RowCodec, Row, load_blocklist, add, save_blocklist}
use open_friend_mc.Ipc.Blocklist.Saving.{add-load}
use open_friend_mc.Ipc.Server.{Request, Message, Writer}
use open_friend_mc.Ipc.Server.Answers.{answers, serve}
use open_friend_mc.Ipc.Methods.{
  Env, Handlers, MojangParams, auth_sign_in, auth_sign_out, auth_use_mojang_session, require_auth,
  ok_true,
}
use open_friend_mc.Ipc.Methods.Accounts.{
  IsForgotten, auth_sign_in-cold, require_auth-auth_sign_out, auth_use_mojang_session-switch,
}
use open_friend_mc.Ipc.Methods.Friends.{method_table}
use open_friend_mc.Ipc.Methods.Friends.Table.{method_table-serve}
use open_friend_mc.Examples.Codec.{decode, decode-codes, codec, codec-IsInverse, codec-IsTotal}
use open_friend_mc.Examples.Accounts.{
  path, good_net, net_of, all_fields, empty_disk-Works, first_start, first_tokens, old_session,
  later_tokens, print_number,
}

-- Rows of one id and no name.
rows : RowCodec
rows = record {
  marshal = λ written. none;
  unmarshal = λ raw. none;
  parse = λ id. some 0;
  print = λ id. [];
}

launcher : MojangParams
launcher = record { access_token = "launcher"; profile_id = "8"; name = "Steve"; ttl_seconds = 0 }

env : Env ℕ
unfolding rows launcher
env = record {
  net = good_net;
  print = print_number;
  codec = codec;
  path = path;
  fuel = 3;
  rows = rows;
  marshals = λ m. true;
  version = "1.0.0";
  decode_hint = λ raw. some "9";
  decode_mojang = λ raw. some launcher;
  decode_id = λ raw. none;
  parse_uuid = λ id. if id == "8" then some 8 else some 9;
  print_uuid = λ id. "uuid";
  format_time = λ t. "time";
  session_text = λ e. "error";
  api_text = λ e. "error";
  lower_body = λ e. [];
  blocklist_text = λ e. "error";
  cache_writable = true;
  get_answers = (failed, failed);
  put_answers = λ action. (failed, failed);
}

client : Client
client = record {
  presence_etag = "p";
  friends_etag = "f";
  presence_cache = none;
  friends_cache = none;
  presence_cooldown_end = 0;
  friends_cooldown_end = 0;
  cache_dir = "dir";
  disk = none;
  refreshes = 0;
  requests = 0;
}

handlers : Session ℕ → Handlers ℕ
handlers session = record {
  session = session;
  client = client;
  has_client = true;
  auth_path = path;
  blocklist = none;
  auth_run = false;
  actions = [];
  quitting = 0;
}

writer : Writer
writer = record { sent = []; refused = false }

hint_ignored :
    auth_sign_in env (codes "{}") (handlers first_start, writer)
    ≡ auth_sign_in env [] (handlers first_start, writer)
unfolding handlers first_start new_session
hint_ignored = auth_sign_in-cold env (codes "{}") (handlers first_start) writer refl

refreshed_old :
    silent_refresh good_net print_number "again" 90000000000000
    ≡ (90000000000005, ok (later_tokens 176400000000005))
unfolding silent_refresh exchange_for_mojang good_net net_of all_fields at text_at number_at
    post_form xbox_live xsts fetch_profile parse_undashed later_tokens refresh_ms_token
refreshed_old = refl

-- The session with its file on the disk.
saved_session : Session ℕ
unfolding old_session first_tokens
saved_session = record old_session {
  disk = record {
    files = (path, codes "saved") ∷ [];
    readable = true;
    has_dir = true;
    writable = true;
    removable = true;
  };
}

saved_again :
    let said = auth_sign_out env [] (handlers saved_session, writer) in
    let later = (require_auth env said.0.0).0 in
    (said.1 ≡ ok_true)
    × (lookup path said.0.0.session.disk.files ≡ none)
    × (load codec path later.session.disk
        ≡ (later.session.disk, ok (some (later_tokens 176400000000005))))
unfolding handlers saved_session old_session first_tokens env good_net net_of insert lookup path
    same_text
saved_again =
    require_auth-auth_sign_out env [] (handlers saved_session) writer first_tokens
      (later_tokens 176400000000005) 90000000000005 codec-IsInverse codec-IsTotal
      (record { readable = refl; has_dir = refl; writable = refl }) refl refl refl refreshed_old

switched :
    let after = (auth_use_mojang_session env (codes "{}") (handlers old_session, writer)).0.0 in
    (current_profile_id after.session ≡ 8)
    × (IsForgotten after.client
        × (load codec path after.session.disk ≡ (after.session.disk, ok (some no_tokens))))
unfolding handlers old_session first_tokens env launcher path current_profile_id
switched =
    auth_use_mojang_session-switch env (codes "{}") (handlers old_session) writer launcher 8
      codec-IsInverse codec-IsTotal empty_disk-Works refl refl refl refl refl refl refl refl refl

request : Bytes → String → Request
request id method = record { jsonrpc = "2.0"; id = some id; method = method; params = [] }

three_requests : List Request
unfolding request
three_requests =
    request (codes "1") "version"
    ∷ request (codes "2") "nothing"
    ∷ request (codes "3") "auth.signOut"
    ∷ []

env_marshals : (m : Message) → env.marshals m ≡ true
unfolding env
env_marshals m = refl

either_some :
    {A : Type 0} (b : Bool) (x y : A)
    → (r : A) × ((elim b [ false ↦ some x | true ↦ some y ]) ≡ some r)
either_some false x y = (x, refl)
either_some true x y = (y, refl)

-- The server gives the tokens at the first poll.
env-PollsEnd : PollsEnd env.net env.fuel
unfolding env good_net net_of all_fields poll_for_ms_token poll_loop poll_round poll_reply
    poll_answer poll_request post_form
env-PollsEnd prompt w = either_some (ltb w (add_duration w prompt.expires_in)) _ _

all_answered :
    answers
      (serve env.marshals env_marshals
        (method_table env (λ id. text "uuid"))
        three_requests
        (handlers old_session, writer)).1.sent
    ≡ answers writer.sent ++ map (λ r. r.id) three_requests
unfolding three_requests request writer env
all_answered =
    method_table-serve env env_marshals (λ id. text "uuid") three_requests (handlers old_session)
      writer env-PollsEnd ((codes "1", refl), ((codes "2", refl), ((codes "3", refl), tt))) refl

-- A codec for lists of at most one row.
write_rows : List Row → Option Bytes
write_rows [] = some []
write_rows (((id ∷ []), name) ∷ []) = some (id ∷ codes name)
write_rows (((id ∷ more), name) ∷ []) = none
write_rows (([], name) ∷ []) = none
write_rows (row ∷ next ∷ others) = none

read_rows : Bytes → Option (List Row)
read_rows [] = some []
read_rows (id ∷ name) = some ((id ∷ [], decode name) ∷ [])

read_rows-write_rows :
    (written : List Row) (raw : Bytes)
    → write_rows written ≡ some raw
    → read_rows raw ≡ some written
unfolding write_rows read_rows
read_rows-write_rows [] raw e = ap read_rows (sym (some_inj e))
read_rows-write_rows (((id ∷ []), name) ∷ []) raw e =
    ap read_rows (sym (some_inj e)) ∙ ap (λ t. some ((id ∷ [], t) ∷ [])) (decode-codes name)
read_rows-write_rows (((id ∷ x ∷ more), name) ∷ []) raw e = cc
read_rows-write_rows (([], name) ∷ []) raw e = cc
read_rows-write_rows (row ∷ next ∷ others) raw e = cc

parse_id : Bytes → Option ℕ
parse_id [] = none
parse_id (id ∷ more) = some id

abbrev row_codec : RowCodec
row_codec = record {
  marshal = write_rows;
  unmarshal = read_rows;
  parse = parse_id;
  print = λ id. id ∷ [];
}

abbrev nobody : Blocklist
nobody = record { ids = []; file = record { contents = none; may_read = true; may_write = true } }

parsed_back : (id : ℕ) → row_codec.parse (row_codec.print id) ≡ some id
unfolding parse_id
parsed_back id = refl

blocked_kept :
    (after : Blocklist) × ((load_blocklist row_codec (add row_codec 7 "Alex" nobody).0.file
        ≡ ok after)
      × ((j : ℕ) → lookup j after.ids ≡ (if 7 == j then some "Alex" else lookup j [])))
unfolding add save_blocklist insert write_rows
blocked_kept = add-load row_codec parsed_back read_rows-write_rows 7 "Alex" nobody tt refl refl
