-- ===== src/Ipc/Server.antt =====
-- internal/ipc/server.go, protocol.go and writer.go. JSON is an argument; what `Writer` has written is a
-- list of messages, one for each line.
pub mod Answers
use open_friend_mc.Prelude.{
  ℕ, Bool, true, false, not, List, [], ◌∷◌, ◌++◌, Option, none, some, String, ◌==◌,
  comparable_string, if◌then◌else◌, Bytes, is_empty,
}
use open_friend_mc.Prelude.Assoc.{lookup, insert}
use open_friend_mc.Prelude.Json.{Json, object, no_fields}
use Prim.Native.String.{◌++◌ as join}

pub record Request : Type 0 where
  pub jsonrpc : String
  pub id : Option Bytes
  pub method : String
  pub params : Bytes

-- The codes, which are negative in the protocol.
abbrev pub minus_parse_error : ℕ
minus_parse_error = 32700

abbrev pub minus_invalid_request : ℕ
minus_invalid_request = 32600

abbrev pub minus_method_not_found : ℕ
minus_method_not_found = 32601

abbrev pub minus_invalid_params : ℕ
minus_invalid_params = 32602

abbrev pub minus_internal_error : ℕ
minus_internal_error = 32603

abbrev pub minus_not_authenticated : ℕ
minus_not_authenticated = 32001

abbrev pub minus_already_running : ℕ
minus_already_running = 32002

abbrev pub minus_api_error : ℕ
minus_api_error = 32010

-- `RPCError`
pub record RpcFailure : Type 0 where
  pub minus_code : ℕ
  pub message : String
  pub details : Option String

abbrev pub new_error : ℕ → String → RpcFailure
new_error code msg = record { minus_code = code; message = msg; details = none }

abbrev pub new_errorf : ℕ → String → String → RpcFailure
new_errorf code msg details = record { minus_code = code; message = msg; details = some details }

pub data Message : Type 0 where
  respond : Option Bytes → Json → Message
  respond_error : Option Bytes → RpcFailure → Message
  notify : String → Json → Message

-- `refused` says that the stream takes nothing more.
pub record Writer : Type 0 where
  pub sent : List Message
  pub refused : Bool

-- `write`, where `marshals` says what JSON can express.
unfoldable pub write : (Message → Bool) → Message → Writer → Writer
write marshals m w =
    if not (marshals m) then w else (if w.refused then w else record w { sent = w.sent ++ m ∷ [] })

-- What a method returns, or the text of its panic; `waits` is a method that has not returned.
pub data Called : Type 0 where
  returned : Option Json → Option RpcFailure → Called
  panicked : String → Called
  waits : Called

abbrev pub MethodFunc : Type 0 → Type 0
MethodFunc A = Bytes → A × Writer → (A × Writer) × Called

unfoldable pub register :
    (A : Type 0)
    → String
    → MethodFunc A
    → List (String × MethodFunc A)
    → List (String × MethodFunc A)
register A name fn methods = insert name fn methods

abbrev pub or_object : Option Json → Json
or_object none = object no_fields
or_object (some result) = result

module _ {A : Type 0} (marshals : Message → Bool) where
  say : Message → A × Writer → A × Writer
  unfolding write
  say m (a, w) = (a, write marshals m w)

  -- The end of `dispatch`, for a request with an id.
  answer : Option Bytes → Option Json → Option RpcFailure → A × Writer → A × Writer
  unfolding say
  answer none result rerr s = s
  answer (some id) result (some rerr) s = say (respond_error (some id) rerr) s
  answer (some id) result none s = say (respond (some id) (or_object result)) s

  finish : Option Bytes → (A × Writer) × Called → A × Writer
  unfolding answer say
  finish id (s, returned result rerr) = answer id result rerr s
  finish id (s, waits) = s
  finish id (s, panicked what) =
      say (respond_error id (new_errorf minus_internal_error "internal panic" what)) s

  call_method : Request → Option (MethodFunc A) → A × Writer → A × Writer
  unfolding finish say
  call_method req none s =
      say
        (respond_error req.id
          (new_error minus_method_not_found (join "method not found: " req.method)))
        s
  call_method req (some fn) s = finish req.id (fn req.params s)

  dispatch_request : List (String × MethodFunc A) → Request → A × Writer → A × Writer
  unfolding call_method say
  dispatch_request methods req s =
      if not (req.jsonrpc == "2.0")
      then say (respond_error req.id (new_error minus_invalid_request "jsonrpc must be \"2.0\"")) s
      else call_method req (lookup req.method methods) s

  -- `dispatch` of a line as it was decoded; the error of the decoder is a text.
  unfoldable pub dispatch :
      List (String × MethodFunc A) → Option Request → String → A × Writer → A × Writer
  unfolding dispatch_request say
  dispatch methods none problem s =
      say (respond_error none (new_errorf minus_parse_error "parse error" problem)) s
  dispatch methods (some req) problem s = dispatch_request methods req s

-- The lines that `Run` starts a goroutine for: those that are not empty, up to the first behind which
-- the context is done.
unfoldable pub started : List (Bytes × Bool) → List Bytes
started [] = []
started ((line, done) ∷ lines) =
    let rest = started lines in
    if is_empty line then rest else (if done then line ∷ [] else line ∷ rest)
