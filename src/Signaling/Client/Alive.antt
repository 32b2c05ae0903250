-- ===== src/Signaling/Client/Alive.antt =====
-- internal/signaling/transport.go: the client keeps coming back.
use open_friend_mc.Prelude.{
  ℕ, suc, ◌+◌, ◌-◌, ◌≤◌, ◌<◌, ◌≡◌, refl, arith, ◌∙◌, Bool, true, false, not, ◌||◌, List, [], ◌∷◌,
  none, ◌==◌, comparable_nat, if◌then◌else◌, if_lem,
}
use open_friend_mc.Signaling.Client.{
  Client, Event, connects, closes, begins, dials, settles, fires, dial_fails, read_ends, step, run,
  new_client, connect, close, schedule_reconnect, handle_close, opened, doubled, initial_backoff,
  max_backoff, is_set,
}

-- The goroutines that will lead to a connection.
abbrev pub busy : Client → ℕ
busy c = c.attempts + c.dialling + c.timers + c.readers

pub record IsSound (c : Client) : Type 0 where
  pub low : initial_backoff ≤ c.backoff
  pub high : c.backoff ≤ max_backoff
  pub idle : c.closed ≡ false → busy c ≡ 0 → (c.connecting ≡ false) × (is_set c.ws ≡ false)

schedule_reconnect-IsSound :
    (u : Bool) (c : Client)
    → initial_backoff ≤ c.backoff
    → c.backoff ≤ max_backoff
    → IsSound (schedule_reconnect u c)
unfolding schedule_reconnect
schedule_reconnect-IsSound u c low high =
    if_lem IsSound _ _ c.closed (λ e. record { low = low; high = high; idle = λ f. cc })
      (λ e. record { low = ground arith; high = ground arith; idle = λ f g. absurd (omega arith) })

step-IsSound : (e : Event) (c : Client) → IsSound c → IsSound (step c e)
unfolding step connect close handle_close opened
step-IsSound connects c v =
    if_lem IsSound _ _ (c.closed || (is_set c.ws || c.connecting)) (λ e. v)
      (λ e. record { low = v.low; high = v.high; idle = λ f g. absurd (omega arith) })
step-IsSound closes c v = record { low = v.low; high = v.high; idle = λ f. cc }
step-IsSound begins c v =
    if_lem IsSound _ _ (c.attempts == 0) (λ e. v)
      (λ e.
        if_lem IsSound _ _ c.closed (λ f. record { low = v.low; high = v.high; idle = λ g. cc })
          (λ f. record { low = v.low; high = v.high; idle = λ g k. absurd (omega arith) }))
step-IsSound dials c v =
    if_lem IsSound _ _ (c.dialling == 0) (λ e. v)
      (λ e. record { low = v.low; high = v.high; idle = λ f g. absurd (omega arith) })
step-IsSound (dial_fails u) c v =
    if_lem IsSound _ _ (c.dialling == 0) (λ e. v)
      (λ e. schedule_reconnect-IsSound u (record c { dialling = c.dialling - 1 }) v.low v.high)
step-IsSound settles c v =
    if_lem IsSound _ _ (c.settling == 0) (λ e. v)
      (λ e. record { low = omega arith; high = omega arith; idle = λ f g. (refl, (v.idle f g).1) })
step-IsSound fires c v =
    if_lem IsSound _ _ (c.timers == 0) (λ e. v)
      (λ e. record { low = v.low; high = v.high; idle = λ f g. absurd (omega arith) })
step-IsSound (read_ends u) c v =
    if_lem IsSound _ _ (c.readers == 0) (λ e. v)
      (λ e.
        schedule_reconnect-IsSound u
          (record c { readers = c.readers - 1; pinging = false; ws = none; ready = false }) v.low
          v.high)

run_from-IsSound : (es : List Event) (c : Client) → IsSound c → IsSound (run c es)
unfolding run
run_from-IsSound [] c v = v
run_from-IsSound (e ∷ es) c v = run_from-IsSound es (step c e) (step-IsSound e c v)

-- After any events, in any order: the backoff lies between the initial and the longest one, and while
-- the client is not closed and no goroutine is on its way to a connection, it is not marked as
-- connecting and has no connection, so that `Connect` starts an attempt.
pub run-IsSound : (es : List Event) → IsSound (run new_client es)
unfolding new_client
run-IsSound es =
    run_from-IsSound es new_client
      (record { low = omega arith; high = omega arith; idle = λ f g. (refl, refl) })

-- What has to happen for a connection: the next goroutine in turn goes on and its dial goes well; where
-- there is none, `Connect` is called.
pub comeback : Client → List Event
comeback c =
    if not (c.dialling == 0)
    then dials ∷ settles ∷ []
    else if not (c.attempts == 0)
    then begins ∷ dials ∷ settles ∷ []
    else if not (c.timers == 0)
    then fires ∷ begins ∷ dials ∷ settles ∷ []
    else if not (c.readers == 0)
    then read_ends false ∷ fires ∷ begins ∷ dials ∷ settles ∷ []
    else connects ∷ begins ∷ dials ∷ settles ∷ []

pub record IsConnected (c : Client) : Type 0 where
  pub has_ws : is_set c.ws ≡ true
  pub ready : c.ready ≡ true
  pub settled : c.connecting ≡ false
  pub reset : c.backoff ≡ initial_backoff

not_zero : (n : ℕ) → 0 < n → (n == 0) ≡ false
not_zero n h = ground arith

-- `n` is not zero where the test says so.
positive : (n : ℕ) → not (n == 0) ≡ true → 0 < n
positive n h = ground arith

is_zero : (n : ℕ) → not (n == 0) ≡ false → n ≡ 0
is_zero n h = ground arith

dials-IsConnected : (c : Client) → 0 < c.dialling → IsConnected (run c (dials ∷ settles ∷ []))
unfolding run step opened
dials-IsConnected c h =
    simp (not_zero c.dialling h, not_zero (suc c.settling) (omega arith))
      (record { has_ws = refl; ready = refl; settled = refl; reset = refl })

if_false : (b : Bool) (x y : Client) → b ≡ false → (if b then x else y) ≡ y
if_false true x y h = cc
if_false false x y h = refl

-- To go on behind a step.
behind :
    (c after : Client) (e : Event) (es : List Event)
    → step c e ≡ after
    → IsConnected (run after es)
    → IsConnected (run c (e ∷ es))
unfolding run
behind c after e es same v = rw same v

begins-IsConnected :
    (c : Client)
    → c.closed ≡ false
    → 0 < c.attempts
    → IsConnected (run c (begins ∷ dials ∷ settles ∷ []))
begins-IsConnected c live h =
    let after = record c { attempts = c.attempts - 1; dialling = suc c.dialling } in
    behind c after begins (dials ∷ settles ∷ []) begun (dials-IsConnected after (omega arith))
  where
    begun : step c begins ≡ record c { attempts = c.attempts - 1; dialling = suc c.dialling }
    begun =
        unfold step in
        (if_false (c.attempts == 0) _ _ (not_zero c.attempts h)) ∙ if_false c.closed _ _ live

fires-IsConnected :
    (c : Client)
    → c.closed ≡ false
    → 0 < c.timers
    → IsConnected (run c (fires ∷ begins ∷ dials ∷ settles ∷ []))
unfolding step
fires-IsConnected c live h =
    let after = record c { timers = c.timers - 1; attempts = suc c.attempts } in
    behind c after fires (begins ∷ dials ∷ settles ∷ [])
      (if_false (c.timers == 0) c after (not_zero c.timers h))
      (begins-IsConnected after live (omega arith))

read_ends-IsConnected :
    (c : Client)
    → c.closed ≡ false
    → 0 < c.readers
    → IsConnected (run c (read_ends false ∷ fires ∷ begins ∷ dials ∷ settles ∷ []))
unfolding step handle_close schedule_reconnect
read_ends-IsConnected c live h =
    let after = record c {
      readers = c.readers - 1;
      pinging = false;
      ws = none;
      ready = false;
      connecting = true;
      backoff = doubled c.backoff;
      timers = suc c.timers;
    } in
    behind c after (read_ends false) (fires ∷ begins ∷ dials ∷ settles ∷ [])
      (if_false (c.readers == 0) c _ (not_zero c.readers h) ∙ if_false c.closed _ after live)
      (fires-IsConnected after live (omega arith))

connects-IsConnected :
    (c : Client)
    → c.closed ≡ false
    → (c.connecting ≡ false) × (is_set c.ws ≡ false)
    → IsConnected (run c (connects ∷ begins ∷ dials ∷ settles ∷ []))
unfolding step connect
connects-IsConnected c live (settled, unset) =
    let after = record c { connecting = true; attempts = suc c.attempts } in
    let free : (c.closed || (is_set c.ws || c.connecting)) ≡ false =
      simp (live, unset, settled) refl in
    behind c after connects (begins ∷ dials ∷ settles ∷ [])
      (if_false (c.closed || (is_set c.ws || c.connecting)) c after free)
      (begins-IsConnected after live (omega arith))

comeback-IsConnected :
    (c : Client) → IsSound c → c.closed ≡ false → IsConnected (run c (comeback c))
unfolding comeback
comeback-IsConnected c v live =
    let P : List Event → Type 0 = λ es. IsConnected (run c es) in
    if_lem P _ _ (not (c.dialling == 0)) (λ d. dials-IsConnected c (positive c.dialling d))
      (λ d.
        if_lem P _ _ (not (c.attempts == 0))
          (λ a. begins-IsConnected c live (positive c.attempts a))
          (λ a.
            if_lem P _ _ (not (c.timers == 0)) (λ t. fires-IsConnected c live (positive c.timers t))
              (λ t.
                if_lem P _ _ (not (c.readers == 0))
                  (λ r. read_ends-IsConnected c live (positive c.readers r))
                  (λ r. connects-IsConnected c live (
                    v.idle live (
                      omega (
                        arith,
                        is_zero c.dialling d,
                        is_zero c.attempts a,
                        is_zero c.timers t,
                        is_zero c.readers r,
                      )))))))

-- The client never gives up: after any events in any order that leave it not closed, at most five more
-- lead to a client that has a connection, is ready, is no longer connecting and has the initial backoff:
-- the goroutine that is due goes on, or, where there is none, `Connect` is called, and the dial goes well.
pub run-comeback :
    (es : List Event)
    → (run new_client es).closed ≡ false
    → IsConnected (run (run new_client es) (comeback (run new_client es)))
run-comeback es live = comeback-IsConnected (run new_client es) (run-IsSound es) live
