-- ===== src/Auth/Session/Returning.antt =====
-- internal/auth/session.go: `Authenticate` returns where its polls end.
use open_friend_mc.Prelude.{
  ℕ, ◌≡◌, not, Option, none, some, String, ◌==◌, comparable_string, if_lem, Result, ok, err, Bytes,
}
use open_friend_mc.Auth.Net.{Net, Tokens, DeviceCodePrompt, AuthError}
use open_friend_mc.Auth.DeviceCode.{Polled, poll_for_ms_token}
use open_friend_mc.Auth.Store.{Codec, StoreError, load}
use open_friend_mc.Auth.Session.{
  Session, SessionError, auth_error, not_authenticated, panics, polling, Outcome, store_tokens,
  only_refresh, adopt, renew, approved, tell, prompted, device_code, silent_or_prompt,
  authenticate_with, authenticate,
}

-- The fuel is enough for every poll.
abbrev pub PollsEnd : {W : Type 0} → Net W → ℕ → Type 0
PollsEnd {W} net fuel =
    (prompt : DeviceCodePrompt) (w : W)
    → (r : Polled net) × (poll_for_ms_token net fuel prompt w ≡ some r)

abbrev pub HasReturned : Result SessionError Tokens → Type 0
HasReturned (ok t) = Unit {0}
HasReturned (err (auth_error e)) = Unit {0}
HasReturned (err not_authenticated) = Unit {0}
HasReturned (err panics) = Unit {0}
HasReturned (err polling) = ⊥

module _ {W : Type 0} (net : Net W) (print : ℕ → String) (c : Codec) (path : Bytes) (fuel : ℕ)
    (ends : PollsEnd net fuel) where
  adopt-HasReturned :
      (s : Session W) (r : W × Result AuthError Tokens)
      → HasReturned (adopt net print c path fuel s r).1
  unfolding adopt
  adopt-HasReturned s (w, ok t) = tt
  adopt-HasReturned s (w, err e) = tt

  approved-HasReturned :
      (s : Session W) (r : Polled net) → HasReturned (approved net print c path fuel s (some r)).1
  unfolding approved
  approved-HasReturned s (w, said, err e) = tt
  approved-HasReturned s (w, said, ok ms) =
      adopt-HasReturned
        (store_tokens net print c path fuel (only_refresh net print c path fuel ms)
          (record s { world = w }))
        _

  prompted-HasReturned :
      (s : Session W) (r : W × Result AuthError DeviceCodePrompt)
      → HasReturned (prompted net print c path fuel s r).1
  unfolding prompted
  prompted-HasReturned s (w, err e) = tt
  prompted-HasReturned s (w, ok prompt) =
      let (r, polled) = ends prompt w in
      rw polled
        (approved-HasReturned (tell net print c path fuel prompt (record s { world = w })) r)

  device_code-HasReturned : (s : Session W) → HasReturned (device_code net print c path fuel s).1
  unfolding device_code
  device_code-HasReturned s = prompted-HasReturned s _

  silent_or_prompt-HasReturned :
      (o : Outcome net print c path fuel) → HasReturned (silent_or_prompt net print c path fuel o).1
  unfolding silent_or_prompt
  silent_or_prompt-HasReturned (s, ok t) = tt
  silent_or_prompt-HasReturned (s, err e) = device_code-HasReturned s

  authenticate_with-HasReturned :
      (s : Session W) (r : Result StoreError (Option Tokens))
      → HasReturned (authenticate_with net print c path fuel s r).1
  unfolding authenticate_with
  authenticate_with-HasReturned s (err e) = device_code-HasReturned s
  authenticate_with-HasReturned s (ok none) = device_code-HasReturned s
  authenticate_with-HasReturned s (ok (some saved)) =
      if_lem (λ (o : Outcome net print c path fuel). HasReturned o.1) _ _
        (not (saved.ms_refresh_token == ""))
        (λ e. silent_or_prompt-HasReturned (renew net print c path fuel saved.ms_refresh_token s))
        (λ e. device_code-HasReturned s)

  pub authenticate-HasReturned :
      (s : Session W) → HasReturned (authenticate net print c path fuel s).1
  unfolding authenticate
  authenticate-HasReturned s =
      authenticate_with-HasReturned (record s { disk = (load c path s.disk).0 })
        (load c path s.disk).1
