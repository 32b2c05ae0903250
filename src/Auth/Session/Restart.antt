-- ===== src/Auth/Session/Restart.antt =====
-- internal/auth/session.go: what a signed-in session leaves for the next start, and its weak spots.
use open_friend_mc.Prelude.{
  ℕ, ◌≡◌, ◌≢◌, refl, subst, Bool, false, not, [], Option, none, some, String, ◌==◌, ==_iff,
  comparable_string, if_lem, Result, ok, err, Bytes, Bool-cases, inl, inr,
}
use open_friend_mc.Auth.Net.{Net, AuthError, Tokens, DeviceCodePrompt}
use open_friend_mc.Auth.DeviceCode.{Polled}
use open_friend_mc.Auth.Mojang.{silent_refresh}
use open_friend_mc.Auth.Store.{Codec, StoreError, load}
use open_friend_mc.Auth.Store.Saved.{IsInverse, save-load}
use open_friend_mc.Auth.Store.Working.{IsTotal, Works, save-Works, save-succeeds, load-Works}
use open_friend_mc.Auth.Session.{
  Session, panics, new_session, Outcome, store_tokens, adopt, renew, only_refresh, approved, tell,
  prompted, device_code, silent_or_prompt, authenticate_with, authenticate, ensure_fresh,
  ensure_fresh_silent, fresh_silent, fresh, relock, renew_if_needed, lasts, reset_cache,
}

not_empty : (t : String) → t ≢ "" → (t == "") ≡ false
not_empty t full = elim (Bool-cases (t == "")) [
  | inl e ↦ absurd (full ((==_iff t "").0 e))
  | inr e ↦ e
]

module _ {W : Type 0} (net : Net W) (print : ℕ → String) (c : Codec) (path : Bytes) (fuel : ℕ)
    (inverse : IsInverse c) (total : IsTotal c) where
  -- The tokens returned are those of the session, and those that the file holds.
  abbrev Kept : Outcome net print c path fuel → Type 0
  Kept (s, ok t) = (s.tokens ≡ some t) × (load c path s.disk ≡ (s.disk, ok (some t)))
  Kept (s, err e) = Works s.disk

  adopt-Kept :
      (s : Session W) (r : W × Result AuthError Tokens)
      → Works s.disk
      → Kept (adopt net print c path fuel s r)
  unfolding adopt store_tokens
  adopt-Kept s (w, err e) works = works
  adopt-Kept s (w, ok t) works = (
    refl,
    save-load c inverse path t s.disk works.readable (save-succeeds c path t s.disk total works),
  )

  approved-Kept :
      (s : Session W) (r : Option (Polled net))
      → Works s.disk
      → Kept (approved net print c path fuel s r)
  unfolding approved store_tokens
  approved-Kept s none works = works
  approved-Kept s (some (w, said, err e)) works = works
  approved-Kept s (some (w, said, ok ms)) works =
      let saved =
        store_tokens net print c path fuel (only_refresh net print c path fuel ms)
          (record s { world = w }) in
      adopt-Kept saved _ (save-Works c path _ s.disk works)

  tell-disk :
      (p : DeviceCodePrompt) (s : Session W) → (tell net print c path fuel p s).disk ≡ s.disk
  unfolding tell
  tell-disk p s =
      if_lem (λ (t : Session W). t.disk ≡ s.disk) _ _ s.has_on_prompt (λ e. refl) (λ e. refl)

  prompted-Kept :
      (s : Session W) (r : W × Result AuthError DeviceCodePrompt)
      → Works s.disk
      → Kept (prompted net print c path fuel s r)
  unfolding prompted
  prompted-Kept s (w, err e) works = works
  prompted-Kept s (w, ok prompt) works =
      approved-Kept _ _ (rw (tell-disk prompt (record s { world = w })) works)

  device_code-Kept : (s : Session W) → Works s.disk → Kept (device_code net print c path fuel s)
  unfolding device_code
  device_code-Kept s works = prompted-Kept s _ works

  silent_or_prompt-Kept :
      (o : Outcome net print c path fuel) → Kept o → Kept (silent_or_prompt net print c path fuel o)
  unfolding silent_or_prompt
  silent_or_prompt-Kept (s, ok t) kept = kept
  silent_or_prompt-Kept (s, err e) works = device_code-Kept s works

  authenticate_with-Kept :
      (s : Session W) (r : Result StoreError (Option Tokens))
      → Works s.disk
      → Kept (authenticate_with net print c path fuel s r)
  unfolding authenticate_with renew
  authenticate_with-Kept s (err e) works = device_code-Kept s works
  authenticate_with-Kept s (ok none) works = device_code-Kept s works
  authenticate_with-Kept s (ok (some saved)) works =
      if_lem Kept _ _ (not (saved.ms_refresh_token == ""))
        (λ e. silent_or_prompt-Kept _ (adopt-Kept s _ works)) (λ e. device_code-Kept s works)

  authenticate-Kept : (s : Session W) → Works s.disk → Kept (authenticate net print c path fuel s)
  unfolding authenticate
  authenticate-Kept s works =
      authenticate_with-Kept (record s { disk = (load c path s.disk).0 }) (load c path s.disk).1
        (load-Works c path s.disk works)

  -- Where the decoders undo the encoders and tokens can be encoded, on a working disk: when `Authenticate` gave tokens with a refresh token, by a silent refresh or by
  -- the device code, then the next start on what it left on the disk gives what a silent refresh with
  -- that token gives, and shows no prompt, provided that the refresh succeeds.
  pub authenticate-restart :
      (s after : Session W) (t t2 : Tokens) (has_on_prompt : Bool) (w w2 : W)
      → Works s.disk
      → authenticate net print c path fuel s ≡ (after, ok t)
      → t.ms_refresh_token ≢ ""
      → silent_refresh net print t.ms_refresh_token w ≡ (w2, ok t2)
      → let again = authenticate net print c path fuel (new_session has_on_prompt after.disk w) in
        (again.1 ≡ ok t2) × (again.0.prompts ≡ [])
  unfolding authenticate authenticate_with renew adopt store_tokens silent_or_prompt new_session
  authenticate-restart s after t t2 has_on_prompt w w2 works first full refreshed =
      let kept = subst Kept first (authenticate-Kept s works) in
      simp (kept.1, not_empty _ full, refreshed) (refl, refl)

module _ {W : Type 0} (net : Net W) (print : ℕ → String) (c : Codec) (path : Bytes) (fuel : ℕ) where
  pub ensure_fresh_silent-renew :
      (s : Session W) (t : Tokens)
      → s.tokens ≡ some t
      → lasts (net.now s.world) t ≡ false
      → ensure_fresh_silent net print c path fuel (λ s. s) s
        ≡ renew net print c path fuel t.ms_refresh_token s
  unfolding ensure_fresh_silent fresh_silent relock renew_if_needed
  ensure_fresh_silent-renew s t held old = simp (held, old) refl

  -- When the tokens no longer last and `ResetCache` runs between the two looks at them, `EnsureFresh`
  -- dereferences a nil pointer.
  pub ensure_fresh-reset_cache :
      (s : Session W) (t : Tokens)
      → s.tokens ≡ some t
      → lasts (net.now s.world) t ≡ false
      → (ensure_fresh net print c path fuel (reset_cache net print c path fuel) s).1 ≡ err panics
  unfolding ensure_fresh fresh relock renew_if_needed reset_cache store_tokens
  ensure_fresh-reset_cache s t held old = simp (held, old) refl
