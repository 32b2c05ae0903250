-- ===== src/Ipc/Watch/Posting.antt =====
-- internal/ipc/methods_watch.go: when the presence watch posts.
use open_friend_mc.Prelude.{
  ℕ, ◌+◌, ◌-◌, ◌≡◌, ◌≤◌, ◌<◌, refl, arith, Bool, true, false, not, ◌&&◌, ◌||◌, List, [], ◌∷◌, ◌++◌,
  Option, none, some, Result, ok, err, String, ◌==◌, ==_refl, comparable_nat, comparable_string,
  ltb, length, some_inj, if_lem, ◌⊎◌, inl, inr,
}
use open_friend_mc.Prelude.Assoc.{lookup}
use open_friend_mc.Api.Dtos.{PresenceStatusDto, PresenceResponse}
use open_friend_mc.Api.Client.{ApiError}
use open_friend_mc.Ipc.Watch.{
  WatchState, among, some_missing, join_val_differs, presence_state_differs, is_dirty, emit_one,
  emit_each, emit_presence_changes, posted_now, take_answer, presence_tick_now, presence_request,
  elapsed_since, is_due, presence_tick_if_due, seen_status, presence_set, store_set,
}

-- Each instant is at least ten seconds after the one before.
pub Spaced : List ℕ → Type 0
Spaced [] = Unit
Spaced (a ∷ []) = Unit
Spaced (a ∷ b ∷ rest) = (b + 10 ≤ a) × Spaced (b ∷ rest)

first_of : List ℕ → Option ℕ
first_of [] = none
first_of (a ∷ rest) = some a

-- What the gate relies on.
record Timed (w : WatchState) : Type 0 where
  last : (w.accepted_at ≡ []) ⊎ (w.last_posted_at ≡ first_of w.accepted_at)
  spaced : Spaced w.accepted_at

emit_one-Timed : (p : PresenceStatusDto) (w : WatchState) → Timed w → Timed (emit_one p w)
unfolding emit_one
emit_one-Timed p w t =
    if_lem Timed _ _ (seen_status (lookup p.profile_id w.last_presence) == p.status) (λ e. t)
      λ e. record { last = t.last; spaced = t.spaced }

emit_each-Timed : (ps : List PresenceStatusDto) (w : WatchState) → Timed w → Timed (emit_each ps w)
unfolding emit_each
emit_each-Timed [] w t = t
emit_each-Timed (p ∷ ps) w t = emit_each-Timed ps (emit_one p w) (emit_one-Timed p w t)

gate :
    (elapsed : ℕ) (dirty : Bool)
    → (not (ltb elapsed 10) && (dirty || not (ltb elapsed 60))) ≡ true
    → 10 ≤ elapsed
gate elapsed dirty h = ground arith

due_elapsed :
    (now : ℕ) (w : WatchState) → is_due now w ≡ true → 10 ≤ elapsed_since now w.last_posted_at
unfolding is_due
due_elapsed now w due = gate (elapsed_since now w.last_posted_at) (is_dirty w) due

due-Spaced :
    (now : ℕ) (at : List ℕ) (last : Option ℕ)
    → 10 ≤ elapsed_since now last
    → (at ≡ []) ⊎ (last ≡ first_of at)
    → Spaced at
    → Spaced (now ∷ at)
unfolding Spaced first_of elapsed_since
due-Spaced now [] last due e s = tt
due-Spaced now (a ∷ rest) last due (inl e) s = cc
due-Spaced now (a ∷ rest) none due (inr e) s = cc
due-Spaced now (a ∷ rest) (some b) due (inr e) s = let same : b ≡ a = some_inj e in (omega arith, s)

take_answer-Timed :
    (now : ℕ) (answer : Result ApiError (Option PresenceResponse)) (w : WatchState)
    → 10 ≤ elapsed_since now w.last_posted_at
    → Timed w
    → Timed (take_answer now answer w)
unfolding take_answer posted_now emit_presence_changes first_of
take_answer-Timed now (err e) w due t = t
take_answer-Timed now (ok none) w due t = record {
  last = inr refl;
  spaced = due-Spaced now w.accepted_at _ due t.last t.spaced;
}
take_answer-Timed now (ok (some resp)) w due t =
    emit_each-Timed resp.presence (posted_now now w)
      record { last = inr refl; spaced = due-Spaced now w.accepted_at _ due t.last t.spaced }

-- What happens to the watch between its first post and its end.
pub data Event : Type 0 where
  due_tick : ℕ → Result ApiError (Option PresenceResponse) → Event
  set : String → Option String → List ℕ → Result ApiError (Option PresenceResponse) → Event

pub step : WatchState → Event → WatchState
step w (due_tick now answer) = presence_tick_if_due now answer w
step w (set status join_val invites answer) = presence_set status join_val invites answer w

pub run : WatchState → List Event → WatchState
run w [] = w
run w (e ∷ es) = run (step w e) es

store_set-Timed :
    (status : String) (join_val : Option String) (invites : List ℕ)
    → (answer : Result ApiError (Option PresenceResponse)) (w : WatchState) → Timed w
    → Timed (store_set status join_val invites answer w)
unfolding store_set emit_presence_changes
store_set-Timed status join_val invites (err e) w t = t
store_set-Timed status join_val invites (ok none) w t = record { last = t.last; spaced = t.spaced }
store_set-Timed status join_val invites (ok (some resp)) w t =
    emit_each-Timed resp.presence _ record { last = t.last; spaced = t.spaced }

step-Timed : (w : WatchState) (e : Event) → Timed w → Timed (step w e)
unfolding step presence_tick_if_due presence_tick_now presence_set
step-Timed w (due_tick now answer) t =
    if_lem Timed _ _ (is_due now w)
      (λ due.
        take_answer-Timed now answer _ (due_elapsed now w due)
          record { last = t.last; spaced = t.spaced })
      (λ e. t)
step-Timed w (set status join_val invites answer) t =
    store_set-Timed _ join_val invites answer _ record { last = t.last; spaced = t.spaced }

run-Timed : (w : WatchState) (es : List Event) → Timed w → Timed (run w es)
unfolding run
run-Timed w [] t = t
run-Timed w (e ∷ es) t = run-Timed (step w e) es (step-Timed w e t)

-- `runPresenceWatch`: a post at once, then the ticks, and the calls of `presence.set` among them.
unfoldable pub run_presence_watch :
    ℕ → Result ApiError (Option PresenceResponse) → List Event → WatchState → WatchState
run_presence_watch now answer es w = run (presence_tick_now now answer w) es

-- The state with no post in the log.
abbrev pub unlogged : WatchState → WatchState
unlogged w = record w { accepted_at = [] }

first-Timed :
    (now : ℕ) (answer : Result ApiError (Option PresenceResponse)) (w : WatchState)
    → Timed (presence_tick_now now answer (unlogged w))
unfolding presence_tick_now presence_request take_answer posted_now emit_presence_changes Spaced
    first_of
first-Timed now (err e) w = record { last = inl refl; spaced = tt }
first-Timed now (ok none) w = record { last = inr refl; spaced = tt }
first-Timed now (ok (some resp)) w =
    emit_each-Timed resp.presence
      (posted_now now (record (unlogged w) { posts = w.posts ++ presence_request w ∷ [] }))
      record { last = inr refl; spaced = tt }

-- In one run of the presence watch, from whatever state earlier runs left, over its first post, which
-- no gate holds back, any sequence of ticks and any calls of `presence.set`: the posts of the run that
-- the server accepted, those of `presence.set` apart, are ten seconds apart or more, whatever the clock
-- reads at each tick.
pub posts-Spaced :
    (now : ℕ) (answer : Result ApiError (Option PresenceResponse)) (es : List Event)
    (w : WatchState)
    → Spaced (run_presence_watch now answer es (unlogged w)).accepted_at
unfolding run_presence_watch
posts-Spaced now answer es w = (run-Timed _ es (first-Timed now answer w)).spaced

among_later : (id x : ℕ) (xs : List ℕ) → among id xs ≡ true → among id (x ∷ xs) ≡ true
unfolding among
among_later id x xs h = rw h (or_true (x == id))
  where
    or_true : (b : Bool) → (b || true) ≡ true
    or_true true = refl
    or_true false = refl

none_missing :
    (ids prev : List ℕ)
    → ((id : ℕ) → among id ids ≡ true → among id prev ≡ true)
    → some_missing ids prev ≡ false
unfolding some_missing among
none_missing [] prev sub = refl
none_missing (x ∷ ids) prev sub =
    rw (sub x (ground arith)) (none_missing ids prev (λ id h. sub id (among_later id x ids h)))

join_val_same : (v : Option String) → join_val_differs v v ≡ false
unfolding join_val_differs
join_val_same none = refl
join_val_same (some s) = rw (==_refl s) refl

presence_state_same :
    (status : String) (join_val : Option String) (invites : List ℕ)
    → presence_state_differs status join_val invites status join_val invites ≡ false
unfolding presence_state_differs
presence_state_same status join_val invites = rw (==_refl status) (
    rw (join_val_same join_val)
      (rw (==_refl (length invites)) (none_missing invites invites (λ id h. h))))

-- What a post leaves: nothing is dirty, and the instant is that of the post.
record Fresh (now : ℕ) (w : WatchState) : Type 0 where
  clean : is_dirty w ≡ false
  at : w.last_posted_at ≡ some now

emit_each-Fresh :
    (now : ℕ) (ps : List PresenceStatusDto) (w : WatchState)
    → Fresh now w
    → Fresh now (emit_each ps w)
unfolding emit_each emit_one is_dirty
emit_each-Fresh now [] w f = f
emit_each-Fresh now (p ∷ ps) w f = emit_each-Fresh now ps _ (
    if_lem (Fresh now) _ _ (seen_status (lookup p.profile_id w.last_presence) == p.status) (λ e. f)
      λ e. record { clean = f.clean; at = f.at })

take_answer-Fresh :
    (now : ℕ) (answer : Option PresenceResponse) (w : WatchState)
    → Fresh now (take_answer now (ok answer) w)
unfolding take_answer posted_now emit_presence_changes is_dirty
take_answer-Fresh now none w = record {
  clean = presence_state_same w.current_status w.current_join_val w.current_invites;
  at = refl;
}
take_answer-Fresh now (some resp) w = emit_each-Fresh now resp.presence (posted_now now w) record {
  clean = presence_state_same w.current_status w.current_join_val w.current_invites;
  at = refl;
}

closed_gate :
    (elapsed : ℕ) → elapsed < 60 → (not (ltb elapsed 10) && (false || not (ltb elapsed 60))) ≡ false
closed_gate elapsed h = ground arith

not_due : (now later : ℕ) (w : WatchState) → Fresh now w → later < now + 60 → is_due later w ≡ false
unfolding is_due elapsed_since
not_due now later w f less = rw f.clean (rw f.at (closed_gate (later - now) (omega arith)))

undue_tick :
    (later : ℕ) (next : Result ApiError (Option PresenceResponse)) (w : WatchState)
    → is_due later w ≡ false
    → presence_tick_if_due later next w ≡ w
unfolding presence_tick_if_due
undue_tick later next w off = rw off refl

due_tick_posts :
    (now : ℕ) (answer : Result ApiError (Option PresenceResponse)) (w : WatchState)
    → is_due now w ≡ true
    → presence_tick_if_due now answer w ≡ presence_tick_now now answer w
unfolding presence_tick_if_due
due_tick_posts now answer w on = rw on refl

tick_now-Fresh :
    (now : ℕ) (answer : Option PresenceResponse) (w : WatchState)
    → Fresh now (presence_tick_now now (ok answer) w)
unfolding presence_tick_now
tick_now-Fresh now answer w = take_answer-Fresh now answer _

-- After a due tick whose post the server accepted, a tick within the next minute changes
-- nothing.
posted_then_quiet :
    (now later : ℕ) (answer : Option PresenceResponse)
    (next : Result ApiError (Option PresenceResponse))
    → (w : WatchState) → is_due now w ≡ true
    → later < now + 60
    → presence_tick_if_due later next (presence_tick_if_due now (ok answer) w)
      ≡ presence_tick_if_due now (ok answer) w
posted_then_quiet now later answer next w due soon =
    rw (due_tick_posts now (ok answer) w due)
      (undue_tick later next _ (not_due now later _ (tick_now-Fresh now answer w) soon))
