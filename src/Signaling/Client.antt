-- ===== src/Signaling/Client.antt =====
-- internal/signaling/client.go and transport.go: the connection and its goroutines. Each event is what
-- one goroutine does under the lock or between two waits.
pub mod Alive
use open_friend_mc.Prelude.{
  ℕ, zero, suc, ◌+◌, ◌-◌, ◌*◌, Bool, true, false, not, ◌&&◌, ◌||◌, List, [], ◌∷◌, Option, none,
  some, String, ltb, ◌==◌, comparable_nat, comparable_string, if◌then◌else◌, Result, ok, err,
}
use Prim.Native.String.{◌++◌ as join}
use open_friend_mc.Prelude.Json.{Json, object, Fields, no_fields, at, text_at}
use open_friend_mc.Api.Client.{second}

abbrev pub initial_backoff : ℕ
initial_backoff = 1 * second

abbrev pub max_backoff : ℕ
max_backoff = 30 * second

-- The goroutines are counted: `attempts` that have to begin, `dialling` ones in `doConnect`, `settling`
-- ones between that and their last lock, `timers` of `scheduleReconnect` and `readers`. A connection
-- is the number of its dial; `refreshes` counts the calls of `RefreshNow`.
pub record Client : Type 0 where
  pub ws : Option ℕ
  pub connecting : Bool
  pub closed : Bool
  pub backoff : ℕ
  pub pinging : Bool
  pub ready : Bool
  pub dialled : ℕ
  pub attempts : ℕ
  pub dialling : ℕ
  pub settling : ℕ
  pub timers : ℕ
  pub readers : ℕ
  pub refreshes : ℕ

unfoldable pub new_client : Client
new_client = record {
  ws = none;
  connecting = false;
  closed = false;
  backoff = initial_backoff;
  pinging = false;
  ready = false;
  dialled = 0;
  attempts = 0;
  dialling = 0;
  settling = 0;
  timers = 0;
  readers = 0;
  refreshes = 0;
}

abbrev pub is_set : Option ℕ → Bool
is_set none = false
is_set (some n) = true

unfoldable pub connect : Client → Client
connect c =
    if c.closed || (is_set c.ws || c.connecting)
    then c
    else record c { connecting = true; attempts = suc c.attempts }

unfoldable pub close : Client → Client
close c = record c { closed = true; ws = none; pinging = false }

abbrev pub doubled : ℕ → ℕ
doubled backoff = if ltb max_backoff (backoff * 2) then max_backoff else backoff * 2

-- `scheduleReconnect`; the flag says that the cause's text has "status=401".
unfoldable pub schedule_reconnect : Bool → Client → Client
schedule_reconnect unauthorised c = if c.closed then c else record c {
  ws = none;
  connecting = true;
  backoff = doubled c.backoff;
  timers = suc c.timers;
  refreshes = if unauthorised then suc c.refreshes else c.refreshes;
}

unfoldable pub handle_close : Bool → Client → Client
unfolding schedule_reconnect
handle_close unauthorised c =
    schedule_reconnect unauthorised (record c { pinging = false; ws = none; ready = false })

-- The end of `doConnect` when the dial went well.
unfoldable pub opened : Client → Client
opened c = record c {
  ws = some c.dialled;
  dialled = suc c.dialled;
  pinging = true;
  ready = true;
  readers = suc c.readers;
  settling = suc c.settling;
}

pub data Event : Type 0 where
  connects closes begins dials settles fires : Event
  dial_fails read_ends : Bool → Event

-- What an event does, where the goroutine that it belongs to is there.
unfoldable pub step : Client → Event → Client
unfolding connect close schedule_reconnect handle_close opened
step c connects = connect c
step c closes = close c
step c begins =
    if c.attempts == 0
    then c
    else (if c.closed
        then record c { attempts = c.attempts - 1 }
        else record c { attempts = c.attempts - 1; dialling = suc c.dialling })
step c dials = if c.dialling == 0 then c else opened (record c { dialling = c.dialling - 1 })
step c (dial_fails unauthorised) =
    if c.dialling == 0
    then c
    else schedule_reconnect unauthorised (record c { dialling = c.dialling - 1 })
step c settles =
    if c.settling == 0
    then c
    else record c { settling = c.settling - 1; backoff = initial_backoff; connecting = false }
step c fires =
    if c.timers == 0 then c else record c { timers = c.timers - 1; attempts = suc c.attempts }
step c (read_ends unauthorised) =
    if c.readers == 0 then c else handle_close unauthorised (record c { readers = c.readers - 1 })

unfoldable pub run : Client → List Event → Client
run c [] = c
run c (e ∷ es) = run (step c e) es

-- The answers to the configuration request.
pub data Configured : Type 0 where
  unanswered : Configured
  configured : ℕ → String → Configured

pub data ConnectError : Type 0 where
  exchange_failed bad_json missing_uri dial_failed : ConnectError
  bad_status : ℕ → String → ConnectError

abbrev as_fields : Option Json → Fields
as_fields (some (object j)) = j
as_fields (some value) = no_fields
as_fields none = no_fields

uri_or_missing : String → Result ConnectError String
uri_or_missing uri = if uri == "" then err missing_uri else ok uri

uri_in : Option Fields → Result ConnectError String
uri_in none = err bad_json
uri_in (some j) = uri_or_missing (text_at "signalingUri" (as_fields (at "result" j)))

uri_of : (String → Option Fields) → Configured → Result ConnectError String
unfolding uri_in uri_or_missing at text_at
uri_of unmarshal unanswered = err exchange_failed
uri_of unmarshal (configured status body) =
    if not (status == 200) then err (bad_status status body) else uri_in (unmarshal body)

abbrev is_unauthorised : Configured → Bool
is_unauthorised unanswered = false
is_unauthorised (configured status body) = status == 401

-- `fetchSignalingURI`, with the number of calls of `RefreshNow`.
unfoldable pub fetch_signaling_uri :
    (String → Option Fields) → Configured → Configured → Result ConnectError String × ℕ
unfolding uri_of
fetch_signaling_uri unmarshal first then_ =
    if is_unauthorised first then (uri_of unmarshal then_, 1) else (uri_of unmarshal first, 0)

dialled_at : Bool → Result ConnectError String → Result ConnectError String
dialled_at dial_ok (err e) = err e
dialled_at dial_ok (ok ws_base) =
    if dial_ok then ok (join ws_base "/ws/v1.0/messaging/connect/java") else err dial_failed

-- `doConnect` up to the dial: the address dialled, where the dial goes well.
unfoldable pub do_connect :
    (String → Option Fields) → Configured → Configured → Bool → Result ConnectError String
unfolding fetch_signaling_uri dialled_at
do_connect unmarshal first then_ dial_ok =
    dialled_at dial_ok (fetch_signaling_uri unmarshal first then_).0
