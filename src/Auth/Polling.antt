-- ===== src/Auth/Polling.antt =====
-- The loop of `PollForMsToken` (internal/auth/devicecode.go): that it ends.
use open_friend_mc.Prelude.{
  ℕ, suc, zero, ◌+◌, ◌*◌, ◌%◌, ◌^◌, ◌≤◌, ◌<◌, ◌≡◌, refl, arith, List, ◌∷◌, ◌++◌, [], Option, none,
  some, String, ltb, ltb→lt, le→ltb, lt→ltb, ◌==◌, comparable_nat, comparable_string, if_lem,
  Bool-cases, inl, inr, ◌⊎◌,
}
use open_friend_mc.Api.Client.{second}
use open_friend_mc.Prelude.Json.{Fields, text_at, or_empty}
use open_friend_mc.Auth.Net.{Net, Request, HttpResp, DeviceCodePrompt, post_form}
use open_friend_mc.Auth.DeviceCode.{
  Round, finished, go_on, poll_answer, poll_request, poll_reply, poll_round, continue_with,
  poll_loop, poll_for_ms_token, Polled,
}

-- The clock never goes back, and a sleep takes at least the time asked for.
pub record IsClock {W : Type 0} (net : Net W) : Type 0 where
  pub forward : (request : Request) (w : W) → net.now w ≤ net.now (net.exchange request w).0
  pub slept : (d : ℕ) (w : W) → d < 2 ^ 63 → net.now w + d ≤ net.now (net.sleep d w)

-- The interval behind a round is the one before, or five seconds more.
abbrev Next : ℕ → Round → Type 0
Next interval (finished r) = Unit {0}
Next interval (go_on later said) = (later ≡ interval) ⊎ (later ≡ (interval + 5 * second) % 2 ^ 64)

poll_answer-Next :
    (now interval : ℕ) (res : HttpResp) (j : Fields)
    → Next interval (poll_answer now interval res j)
unfolding poll_answer
poll_answer-Next now interval res j =
    let P = Next interval in
    let code = text_at "error" j in
    if_lem P _ _ (res.status_code == 200) (λ e. tt)
      (λ e.
        if_lem P _ _ (code == "authorization_pending") (λ e. inl refl)
          (λ e.
            if_lem P _ _ (code == "slow_down") (λ e. inr refl)
              (λ e.
                if_lem P _ _ (code == "expired_token") (λ e. tt)
                  (λ e.
                    if_lem P _ _ (code == "expired_device_code") (λ e. tt)
                      (λ e. if_lem P _ _ (code == "authorization_declined") (λ e. tt) (λ e. tt))))))

module _ {W : Type 0} (net : Net W) (clock : IsClock net) (prompt : DeviceCodePrompt) where
  poll_reply-Next :
      (now interval : ℕ) (res : Option HttpResp) → Next interval (poll_reply net now interval res)
  unfolding poll_reply
  poll_reply-Next now interval none = tt
  poll_reply-Next now interval (some res) =
      poll_answer-Next now interval res (or_empty (net.unmarshal res.body))

  poll_round-Next : (interval : ℕ) (w : W) → Next interval (poll_round net prompt interval w).1
  unfolding poll_round
  poll_round-Next interval w =
      let asked = poll_request net prompt (net.sleep interval w) in
      poll_reply-Next (net.now asked.0) interval asked.1

  poll_round-now :
      (interval : ℕ) (w : W)
      → interval < 2 ^ 63
      → net.now w + interval ≤ net.now (poll_round net prompt interval w).0
  unfolding poll_round poll_request post_form
  poll_round-now interval w small =
      omega (arith, clock.slept interval w small, clock.forward _ (net.sleep interval w))

  -- The bounds of the loop, before a round at time `now`.
  abbrev Kept : (rounds base deadline now interval : ℕ) → Type 0
  Kept rounds base deadline now interval =
      (deadline ≤ now + rounds * base) × (now < deadline → (base ≤ interval) × (interval < 2 ^ 63))

  abbrev Returns : Option (Polled {W = W} net) → Type 0
  Returns o = (r : Polled net) × (o ≡ some r)

  next_enough :
      (rounds base deadline now later interval : ℕ)
      → base ≤ interval
      → deadline ≤ now + suc rounds * base
      → now + interval ≤ later
      → deadline ≤ later + rounds * base
  next_enough rounds base deadline now later interval large enough passed = omega arith

  Next-small :
      (r : ℕ) (interval base deadline now later : ℕ)
      → (r ≡ interval) ⊎ (r ≡ (interval + 5 * second) % 2 ^ 64)
      → base ≤ interval
      → deadline < 2 ^ 62
      → now + interval ≤ later
      → later < deadline
      → (base ≤ r) × (r < 2 ^ 63)
  Next-small r interval base deadline now later next large bound passed before = ground arith

  continue_with-Returns :
      (rounds base deadline interval : ℕ) (waits : List String) (now : ℕ)
      → deadline < 2 ^ 62
      → deadline ≤ now + suc rounds * base
      → (again : ℕ → List String → W → Option (Polled net))
      → ((i : ℕ) (said : List String) (v : W)
          → Kept rounds base deadline (net.now v) i
          → Returns (again i said v))
      → (o : W × Round) → Next interval o.1
      → now + interval ≤ net.now o.0
      → base ≤ interval
      → Returns (continue_with net again waits o)
  continue_with-Returns rounds base deadline interval waits now bound enough again returns
        (v, finished r) next later large =
      (_, refl)
  continue_with-Returns rounds base deadline interval waits now bound enough again returns
        (v, go_on i said) next later large =
      returns i (waits ++ said ∷ []) v (
        next_enough rounds base deadline now (net.now v) interval large enough later,
        λ before. Next-small i interval base deadline now (net.now v) next large bound later before,
      )

  -- With enough fuel the loop returns: each round that goes on takes `base` at least.
  poll_loop-Returns :
      (rounds base deadline interval : ℕ) (waits : List String) (w : W)
      → deadline < 2 ^ 62
      → Kept rounds base deadline (net.now w) interval
      → Returns (poll_loop net (suc rounds) prompt deadline interval waits w)
  unfolding poll_loop
  poll_loop-Returns zero base deadline interval waits w bound (enough, kept) =
      rw (le→ltb deadline (net.now w) (omega arith), poll_loop) (_, refl)
  poll_loop-Returns (suc rounds) base deadline interval waits w bound (enough, kept) =
      elim (Bool-cases (ltb (net.now w) deadline)) [
        | inr e ↦ rw (e, poll_loop) (_, refl)
        | inl e ↦
            let both = kept (ltb→lt _ _ e) in
            rw (e, poll_loop)
              (continue_with-Returns rounds base deadline interval waits (net.now w) bound enough
                (poll_loop net (suc rounds) prompt deadline)
                (λ i said v. poll_loop-Returns rounds base deadline i said v bound)
                (poll_round net prompt interval w) (poll_round-Next interval w)
                (poll_round-now interval w both.1) both.0)
      ]

  -- With a clock that does not go back and a sleep that lasts, a prompt whose interval is positive,
  -- times below 2^62 ns, and one round of fuel more than the intervals that cover the prompt's
  -- lifetime, `PollForMsToken` returns, whatever the server answers, `slow_down` included.
  pub poll_for_ms_token_returns :
      (rounds : ℕ) (w : W)
      → prompt.interval < 2 ^ 63
      → net.now w + prompt.expires_in < 2 ^ 62
      → prompt.expires_in ≤ rounds * prompt.interval
      → (r : Polled net) × (poll_for_ms_token net (suc rounds) prompt w ≡ some r)
  unfolding poll_for_ms_token
  poll_for_ms_token_returns rounds w small bound enough =
      rw (lt→ltb prompt.expires_in (2 ^ 63) (omega arith)) (
        poll_loop-Returns rounds prompt.interval _ prompt.interval [] w bound
          (omega arith, λ before. (omega arith, small)))
