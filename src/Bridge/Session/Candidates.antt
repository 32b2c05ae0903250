-- ===== src/Bridge/Session/Candidates.antt =====
-- internal/bridge/session.go: the queue of ICE candidates that come before the remote description.
use open_friend_mc.Prelude.{
  ◌≡◌, refl, sym, ap, subst, ◌∙◌, Bool, true, false, not, List, [], ◌∷◌, ◌++◌, append_assoc,
  append-nil, Bytes, if_lem, ltb,
}
use open_friend_mc.Bridge.Host.{Candidate}
use open_friend_mc.Bridge.Session.{
  Session, Done, Role, new_session, flush_ice, handle_offer, handle_answer, create_offer,
  is_initiator, add_remote_ice, on_message, attach_data_channel, on_open,
}

-- What reaches a session before it is closed.
pub data Event : Type 0 where
  offer : Bool → Bool → Event
  answer : Bool → Event
  make_offer : Bool → Bool → Bool → Event
  remote_candidate : Candidate → Event
  channel : Bool → Event
  opened : Bool → Event
  message : Bytes → Event

pub step : Session → Event → Session
step s (offer remote_ok answer_ok) = (handle_offer remote_ok answer_ok s).0
step s (answer remote_ok) = (handle_answer remote_ok s).0
step s (make_offer channel_ok is_open offer_ok) = (create_offer channel_ok is_open offer_ok s).0
step s (remote_candidate c) = (add_remote_ice c s).0
step s (channel is_open) = attach_data_channel is_open s
step s (opened sent) = on_open sent s
step s (message bytes) = on_message s bytes

pub run : Session → List Event → Session
run s [] = s
run s (e ∷ es) = run (step s e) es

-- The candidates that came, in order.
pub came : List Event → List Candidate
came [] = []
came (remote_candidate c ∷ es) = c ∷ came es
came (e ∷ es) = came es

pub record InOrder (given : List Candidate) (s : Session) : Type 0 where
  pub all : s.added_ice ++ s.queued_ice ≡ given
  pub early : s.remote_set ≡ false → s.added_ice ≡ []
  pub late : s.remote_set ≡ true → s.queued_ice ≡ []
  pub alive : s.has_pc ≡ true

flush-InOrder :
    (given : List Candidate) (s : Session) → InOrder given s → InOrder given (flush_ice s)
unfolding flush_ice
flush-InOrder given s v = record {
  all = append-nil (s.added_ice ++ s.queued_ice) ∙ v.all;
  early = λ e. cc;
  late = λ e. refl;
  alive = v.alive;
}

new_session-InOrder : (role : Role) → InOrder [] (new_session role)
unfolding new_session
new_session-InOrder role = record { all = refl; early = λ e. refl; late = λ e. refl; alive = refl }

-- Every outcome of a step: the state is left as it was, or the queue was flushed.
handle_offer-InOrder :
    (given : List Candidate) (r a : Bool) (s : Session)
    → InOrder given s
    → InOrder given (handle_offer r a s).0
unfolding handle_offer
handle_offer-InOrder given r a s v =
    let flushed = flush-InOrder given s v in
    let P : Done → Type 0 = λ (x : Done). InOrder given x.0 in
    if_lem P _ _ (not s.has_pc) (λ e. v)
      (λ e. if_lem P _ _ (not r) (λ e. v) (λ e. if_lem P _ _ a (λ e. flushed) (λ e. flushed)))

handle_answer-InOrder :
    (given : List Candidate) (r : Bool) (s : Session)
    → InOrder given s
    → InOrder given (handle_answer r s).0
unfolding handle_answer
handle_answer-InOrder given r s v =
    let flushed = flush-InOrder given s v in
    let P : Done → Type 0 = λ (x : Done). InOrder given x.0 in
    if_lem P _ _ (not (is_initiator s.role)) (λ e. v)
      (λ e. if_lem P _ _ (not s.has_pc) (λ e. v) (λ e. if_lem P _ _ r (λ e. flushed) (λ e. v)))

attach-InOrder :
    (given : List Candidate) (o : Bool) (s : Session)
    → InOrder given s
    → InOrder given (attach_data_channel o s)
unfolding attach_data_channel
attach-InOrder given o s v = record { all = v.all; early = v.early; late = v.late; alive = v.alive }

create_offer-InOrder :
    (given : List Candidate) (c o a : Bool) (s : Session)
    → InOrder given s
    → InOrder given (create_offer c o a s).0
unfolding create_offer
create_offer-InOrder given c o a s v =
    let attached = attach-InOrder given o s v in
    let P : Done → Type 0 = λ (x : Done). InOrder given x.0 in
    if_lem P _ _ (not (is_initiator s.role)) (λ e. v)
      (λ e.
        if_lem P _ _ (not s.has_pc) (λ e. v)
          (λ e.
            if_lem P _ _ (not c) (λ e. v) (λ e. if_lem P _ _ a (λ e. attached) (λ e. attached))))

on_open-InOrder :
    (given : List Candidate) (o : Bool) (s : Session)
    → InOrder given s
    → InOrder given (on_open o s)
unfolding on_open
on_open-InOrder given o s v = record {
  all = v.all;
  early = v.early;
  late = v.late;
  alive = v.alive;
}

on_message-InOrder :
    (given : List Candidate) (b : Bytes) (s : Session)
    → InOrder given s
    → InOrder given (on_message s b)
unfolding on_message
on_message-InOrder given b s v =
    if_lem (InOrder given) _ _ (ltb 0 s.warmup_remaining)
      (λ e. record { all = v.all; early = v.early; late = v.late; alive = v.alive })
      (λ e. record { all = v.all; early = v.early; late = v.late; alive = v.alive })

not-false : (b : Bool) → not b ≡ false → b ≡ true
not-false true h = refl
not-false false h = cc

add_remote_ice-InOrder :
    (given : List Candidate) (c : Candidate) (s : Session)
    → InOrder given s
    → InOrder (given ++ c ∷ []) (add_remote_ice c s).0
unfolding add_remote_ice
add_remote_ice-InOrder given c s v =
    let P : Done → Type 0 = λ (x : Done). InOrder (given ++ c ∷ []) x.0 in
    if_lem P _ _ (not s.remote_set)
      (λ e. record {
        all = sym (append_assoc s.added_ice s.queued_ice (c ∷ [])) ∙ ap (λ l. l ++ c ∷ []) v.all;
        early = v.early;
        late = λ f. cc;
        alive = v.alive;
      })
      (λ e.
        if_lem P _ _ s.has_pc
          (λ f. record {
            all =
                simp (v.late (not-false s.remote_set e), append-nil)
                  (ap (λ l. l ++ c ∷ [])
                    (sym (append-nil s.added_ice)
                      ∙ simp (sym (v.late (not-false s.remote_set e))) (v.all)));
            early = λ g. cc;
            late = v.late;
            alive = v.alive;
          })
          (λ f. absurd (cc)))

step-InOrder :
    (given : List Candidate) (s : Session) (e : Event)
    → InOrder given s
    → InOrder (given ++ came (e ∷ [])) (step s e)
unfolding came step
step-InOrder given s (offer r a) v = rw (append-nil given) (handle_offer-InOrder given r a s v)
step-InOrder given s (answer r) v = rw (append-nil given) (handle_answer-InOrder given r s v)
step-InOrder given s (make_offer c o a) v =
    rw (append-nil given) (create_offer-InOrder given c o a s v)
step-InOrder given s (remote_candidate c) v = add_remote_ice-InOrder given c s v
step-InOrder given s (channel o) v = rw (append-nil given) (attach-InOrder given o s v)
step-InOrder given s (opened o) v = rw (append-nil given) (on_open-InOrder given o s v)
step-InOrder given s (message b) v = rw (append-nil given) (on_message-InOrder given b s v)

came-cons : (e : Event) (es : List Event) → came (e ∷ es) ≡ came (e ∷ []) ++ came es
unfolding came
came-cons (offer r a) es = refl
came-cons (answer r) es = refl
came-cons (make_offer c o a) es = refl
came-cons (remote_candidate c) es = refl
came-cons (channel o) es = refl
came-cons (opened o) es = refl
came-cons (message b) es = refl

run_from-InOrder :
    (given : List Candidate) (s : Session) (es : List Event)
    → InOrder given s
    → InOrder (given ++ came es) (run s es)
unfolding run came
run_from-InOrder given s [] v = rw (append-nil given) v
run_from-InOrder given s (e ∷ es) v =
    subst (λ l. InOrder l (run (step s e) es))
      (append_assoc given (came (e ∷ [])) (came es) ∙ ap (λ l. given ++ l) (sym (came-cons e es)))
      (run_from-InOrder (given ++ came (e ∷ [])) (step s e) es (step-InOrder given s e v))

-- After any events, in any order, on a new session of either role that is not closed: the candidates
-- handed to the library, followed by those still queued, are the ones that came, in order and each
-- once; none is handed over before the remote description is set, and none is queued after it.
pub run-InOrder : (role : Role) (es : List Event) → InOrder (came es) (run (new_session role) es)
run-InOrder role es = run_from-InOrder [] (new_session role) es (new_session-InOrder role)
