-- ===== src/Ipc/Server/Answers.antt =====
-- internal/ipc/server.go: who gets an answer.
use open_friend_mc.Prelude.{
  ◌≡◌, refl, sym, ap, subst, ◌∙◌, Bool, true, false, not, List, [], ◌∷◌, ◌++◌, append_assoc,
  append-nil, map, Option, none, some, String, ◌==◌, comparable_string, if_lem, Bytes, All,
}
use open_friend_mc.Prelude.Assoc.{lookup}
use open_friend_mc.Ipc.Server.{
  Request, RpcFailure, Message, respond, respond_error, notify, Writer, write, Called, returned,
  panicked, waits, MethodFunc, say, answer, finish, call_method, dispatch_request, dispatch,
}

-- The ids of the answers among the messages.
unfoldable pub answers : List Message → List (Option Bytes)
answers [] = []
answers (respond id result ∷ sent) = id ∷ answers sent
answers (respond_error id rerr ∷ sent) = id ∷ answers sent
answers (notify name params ∷ sent) = answers sent

pub answers-append : (xs ys : List Message) → answers (xs ++ ys) ≡ answers xs ++ answers ys
unfolding answers
answers-append [] ys = refl
answers-append (respond id result ∷ xs) ys = ap (◌∷◌ id) (answers-append xs ys)
answers-append (respond_error id rerr ∷ xs) ys = ap (◌∷◌ id) (answers-append xs ys)
answers-append (notify name params ∷ xs) ys = answers-append xs ys

-- The method has returned, or panicked.
abbrev pub Returns : Called → Type 0
Returns (returned result rerr) = Unit {0}
Returns (panicked what) = Unit {0}
Returns waits = ⊥

abbrev pub HasId : Request → Type 0
HasId req = (i : Bytes) × (req.id ≡ some i)

module _ {A : Type 0} (marshals : Message → Bool)
    (all_marshal : (m : Message) → marshals m ≡ true) where
  -- The answers after some steps, and that the stream still takes messages.
  pub record Answered (before after : A × Writer) (ids : List (Option Bytes)) : Type 0 where
    pub told : answers after.1.sent ≡ answers before.1.sent ++ ids
    pub taken : after.1.refused ≡ false

  -- A method returns, and sends notifications only.
  abbrev pub IsQuiet : MethodFunc A → Type 0
  IsQuiet fn =
      (params : Bytes) (s : A × Writer)
      → s.1.refused ≡ false
      → Answered s (fn params s).0 [] × Returns (fn params s).1

  abbrev pub AllQuiet : List (String × MethodFunc A) → Type 0
  AllQuiet [] = Unit {0}
  AllQuiet ((name, fn) ∷ methods) = IsQuiet fn × AllQuiet methods

  say-Answered :
      (m : Message) (id : Option Bytes) (s : A × Writer)
      → answers (m ∷ []) ≡ id ∷ []
      → s.1.refused ≡ false
      → Answered s (say marshals m s) (id ∷ [])
  unfolding say write
  say-Answered m id (a, w) one taken =
      let told = answers-append w.sent (m ∷ []) ∙ ap (λ l. answers w.sent ++ l) one in
      record { told = simp (all_marshal m, taken) told; taken = simp (all_marshal m, taken) refl }

  then-Answered :
      (s t u : A × Writer) (ids : List (Option Bytes))
      → Answered s t []
      → Answered t u ids
      → Answered s u ids
  then-Answered s t u ids first next = record {
    told = next.told ∙ ap (λ l. l ++ ids) (first.told ∙ append-nil (answers s.1.sent));
    taken = next.taken;
  }

  answer-Answered :
      (i : Bytes) (result : _) (rerr : Option RpcFailure) (s : A × Writer)
      → s.1.refused ≡ false
      → Answered s (answer marshals (some i) result rerr s) (some i ∷ [])
  unfolding answer answers
  answer-Answered i result (some rerr) s taken =
      say-Answered (respond_error (some i) rerr) (some i) s refl taken
  answer-Answered i result none s taken = say-Answered (respond (some i) _) (some i) s refl taken

  finish-Answered :
      (i : Bytes) (s : A × Writer) (o : (A × Writer) × Called)
      → Answered s o.0 []
      → Returns o.1
      → Answered s (finish marshals (some i) o) (some i ∷ [])
  unfolding finish answers
  finish-Answered i s (t, waits) quiet back = absurd back
  finish-Answered i s (t, returned result rerr) quiet back =
      then-Answered s t _ _ quiet (answer-Answered i result rerr t quiet.taken)
  finish-Answered i s (t, panicked what) quiet back =
      then-Answered s t _ _ quiet
        (say-Answered (respond_error (some i) _) (some i) t refl quiet.taken)

  -- Answered with the request's id.
  abbrev Done : Request → A × Writer → A × Writer → Type 0
  Done req s t = Answered s t (req.id ∷ [])

  refused-Done :
      (req : Request) (e : RpcFailure) (s : A × Writer)
      → s.1.refused ≡ false
      → Done req s (say marshals (respond_error req.id e) s)
  unfolding answers
  refused-Done req e s taken = say-Answered (respond_error req.id e) req.id s refl taken

  call_method-Done :
      (req : Request) (methods : List (String × MethodFunc A)) (s : A × Writer)
      → AllQuiet methods
      → HasId req
      → s.1.refused ≡ false
      → Done req s (call_method marshals req (lookup req.method methods) s)
  unfolding call_method lookup
  call_method-Done req [] s quiet with_id taken = refused-Done req _ s taken
  call_method-Done req ((name, fn) ∷ methods) s (quiet, rest) (i, with_id) taken =
      if_lem (λ (o : Option (MethodFunc A)). Done req s (call_method marshals req o s)) _ _
        (name == req.method)
        (λ e.
          subst (λ id. Answered s (finish marshals id (fn req.params s)) (id ∷ [])) (sym with_id)
            (finish-Answered i s (fn req.params s) (quiet req.params s taken).0
              (quiet req.params s taken).1))
        (λ e. call_method-Done req methods s rest (i, with_id) taken)

  dispatch-Done :
      (methods : List (String × MethodFunc A)) (req : Request) (problem : String) (s : A × Writer)
      → AllQuiet methods
      → HasId req
      → s.1.refused ≡ false
      → Done req s (dispatch marshals methods (some req) problem s)
  unfolding dispatch dispatch_request
  dispatch-Done methods req problem s quiet with_id taken =
      if_lem (Done req s) _ _ (not (req.jsonrpc == "2.0")) (λ e. refused-Done req _ s taken)
        (λ e. call_method-Done req methods s quiet with_id taken)

  -- The dispatches of some requests, in the order in which they take place.
  pub serve : List (String × MethodFunc A) → List Request → A × Writer → A × Writer
  serve methods [] s = s
  serve methods (req ∷ reqs) s = serve methods reqs (dispatch marshals methods (some req) "" s)

  -- Where methods return and send notifications only, all messages can be written and the stream takes them:
  -- requests with ids, dispatched one after the other in any order, get one answer each, with their
  -- ids, in that order, whether they are well-formed, known, refused, answered or panic.
  pub serve-answers :
      (methods : List (String × MethodFunc A)) (reqs : List Request) (s : A × Writer)
      → AllQuiet methods
      → All HasId reqs
      → s.1.refused ≡ false
      → answers (serve methods reqs s).1.sent ≡ answers s.1.sent ++ map (λ r. r.id) reqs
  unfolding serve
  serve-answers methods [] s quiet ids taken = sym (append-nil (answers s.1.sent))
  serve-answers methods (req ∷ reqs) s quiet (with_id, ids) taken =
      let one = dispatch-Done methods req "" s quiet with_id taken in
      serve-answers methods reqs (dispatch marshals methods (some req) "" s) quiet ids one.taken
      ∙ (ap (λ l. l ++ map (λ r. r.id) reqs) one.told
          ∙ append_assoc (answers s.1.sent) (req.id ∷ []) (map (λ r. r.id) reqs))
