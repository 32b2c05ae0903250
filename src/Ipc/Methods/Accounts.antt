-- ===== src/Ipc/Methods/Accounts.antt =====
-- internal/ipc/methods.go: what signing in, switching and signing out do to what is kept.
use open_friend_mc.Prelude.{
  arith, ◌∙◌, ==_refl, ℕ, ◌≡◌, refl, true, false, [], Option, none, some, String, ◌==◌,
  comparable_string, comparable_nat, if_lem, ok, Bytes, is_empty,
}
use open_friend_mc.Ipc.Server.{Called}
use open_friend_mc.Prelude.Assoc.{lookup, lookup-erase}
use open_friend_mc.Prelude.Text.{comparable_text}
use open_friend_mc.Api.Client.{Client}
use open_friend_mc.Api.Cache.{reset_cache as reset_client_cache}
use open_friend_mc.Auth.Net.{Tokens}
use open_friend_mc.Auth.Mojang.{silent_refresh}
use open_friend_mc.Auth.Store.{Disk, load, remove_file}
use open_friend_mc.Auth.Store.Saved.{IsInverse, save-load}
use open_friend_mc.Auth.Store.Working.{IsTotal, Works, save-succeeds, remove_file-Works}
use open_friend_mc.Auth.Session.{
  current_profile_id, current_tokens, set_mojang_session, reset_cache, store_tokens, no_tokens,
  lasts, renew, adopt,
}
use open_friend_mc.Auth.Session.Restart.{ensure_fresh_silent-renew}
use open_friend_mc.Ipc.Server.{Writer}
use open_friend_mc.Ipc.Methods.{
  Env, Handlers, MojangParams, remove_files, forget_account, is_other, expect_id, take_hint,
  follow_hint, auth_sign_in, use_session, with_id, with_params, auth_use_mojang_session,
  auth_sign_out, can_remove, ok_true, auth_status, require_auth, authorised,
}

-- No cache of the API client is left, in memory or in its file.
pub record IsForgotten (c : Client) : Type 0 where
  pub friends : c.friends_cache ≡ none
  pub friends_etag : c.friends_etag ≡ ""
  pub presence : c.presence_cache ≡ none
  pub presence_etag : c.presence_etag ≡ ""
  pub file : c.disk ≡ none

remove_file-gone :
    (path : Bytes) (d : Disk) → d.removable ≡ true → lookup path (remove_file path d).files ≡ none
unfolding remove_file
remove_file-gone path d may = rw may (lookup-erase path path d.files ∙ rw (==_refl path) refl)

removable_of : (path : Bytes) (d : Disk) → can_remove path d ≡ true → d.removable ≡ true
removable_of path d there = ground arith

module _ {W : Type 0} (env : Env W) where
  expect_id-cold : (o : Option ℕ) (h : Handlers W) → h.session.tokens ≡ none → expect_id env o h ≡ h
  unfolding expect_id current_profile_id
  expect_id-cold none h cold = refl
  expect_id-cold (some expected) h cold = simp cold refl

  take_hint-cold :
      (o : Option String) (h : Handlers W) → h.session.tokens ≡ none → take_hint env o h ≡ h
  unfolding take_hint
  take_hint-cold none h cold = refl
  take_hint-cold (some hint) h cold =
      if_lem (λ (after : Handlers W). after ≡ h) _ _ (hint == "") (λ e. refl)
        (λ e. expect_id-cold (env.parse_uuid hint) h cold)

  follow_hint-cold :
      (raw : Bytes) (h : Handlers W) → h.session.tokens ≡ none → follow_hint env raw h ≡ h
  unfolding follow_hint
  follow_hint-cold raw h cold =
      if_lem (λ (after : Handlers W). after ≡ h) _ _ (is_empty raw) (λ e. refl)
        (λ e. take_hint-cold (env.decode_hint raw) h cold)

  -- A session that has no tokens yet signs in as if no `expectedProfileId` were given: the saved
  -- credentials of another account are taken all the same.
  pub auth_sign_in-cold :
      (raw : Bytes) (h : Handlers W) (w : Writer)
      → h.session.tokens ≡ none
      → auth_sign_in env raw (h, w) ≡ auth_sign_in env [] (h, w)
  unfolding auth_sign_in
  auth_sign_in-cold raw h w cold =
      let running = record h { auth_run = true } in
      simp (follow_hint-cold raw running cold, follow_hint-cold [] running cold) refl

  -- After a sign-out `auth.status` says what it said before.
  pub auth_status-auth_sign_out :
      (raw out : Bytes) (h : Handlers W) (w : Writer)
      → (auth_status env raw (auth_sign_out env out (h, w)).0).1 ≡ (auth_status env raw (h, w)).1
  unfolding auth_status auth_sign_out current_tokens
  auth_status-auth_sign_out raw out h w =
      if_lem
        (λ (o : (Handlers W × Writer) × Called).
          (auth_status env raw o.0).1 ≡ (auth_status env raw (h, w)).1)
        _ _ (can_remove h.auth_path h.session.disk) (λ e. refl) (λ e. refl)

  abbrev Resaved : Tokens → Handlers W → Type 0
  Resaved t h = load env.codec env.path h.session.disk ≡ (h.session.disk, ok (some t))

  require_auth-Resaved :
      (h : Handlers W) (old t : Tokens) (after : W)
      → IsInverse env.codec
      → IsTotal env.codec
      → Works h.session.disk
      → h.session.tokens ≡ some old
      → lasts (env.net.now h.session.world) old ≡ false
      → silent_refresh env.net env.print old.ms_refresh_token h.session.world ≡ (after, ok t)
      → Resaved t (require_auth env h).0
  unfolding require_auth authorised renew adopt store_tokens
  require_auth-Resaved h old t after inverse total works held stale refreshed =
      let renewed =
        ensure_fresh_silent-renew env.net env.print env.codec env.path env.fuel h.session old held
          stale in
      simp (renewed, refreshed)
        (save-load env.codec inverse env.path t h.session.disk works.readable
          (save-succeeds env.codec env.path t h.session.disk total works))

  -- Where the decoders undo the encoders and tokens can be encoded, on a working disk: a sign-out that
  -- removes the credentials file answers that all is well, and the first renewal behind it, which any
  -- method that needs the session makes when the token runs out, saves the credentials again.
  pub require_auth-auth_sign_out :
      (out : Bytes) (h : Handlers W) (w : Writer) (old t : Tokens) (after : W)
      → IsInverse env.codec
      → IsTotal env.codec
      → Works h.session.disk
      → can_remove h.auth_path h.session.disk ≡ true
      → h.session.tokens ≡ some old
      → lasts (env.net.now h.session.world) old ≡ false
      → silent_refresh env.net env.print old.ms_refresh_token h.session.world ≡ (after, ok t)
      → let said = auth_sign_out env out (h, w) in
        let later = (require_auth env said.0.0).0 in
        (said.1 ≡ ok_true)
        × (lookup h.auth_path said.0.0.session.disk.files ≡ none)
        × (load env.codec env.path later.session.disk ≡ (later.session.disk, ok (some t)))
  unfolding auth_sign_out
  require_auth-auth_sign_out out h w old t after inverse total works there held stale refreshed =
      let signed_out = record h {
        session = record (h.session) { disk = remove_file h.auth_path h.session.disk };
      } in
      let again =
        require_auth-Resaved signed_out old t after inverse total
          (remove_file-Works env.codec h.auth_path h.session.disk works) held stale refreshed in
      simp there (
        refl,
        remove_file-gone h.auth_path h.session.disk (removable_of h.auth_path h.session.disk there),
        again,
      )

  -- The state that a switch to the account leaves.
  abbrev Switched : ℕ → Handlers W → Type 0
  Switched id h = (current_profile_id h.session ≡ id) × (IsForgotten h.client × Resaved no_tokens h)

  forget_account-Resaved :
      (h : Handlers W)
      → IsInverse env.codec
      → IsTotal env.codec
      → Works h.session.disk
      → h.session.disk.removable ≡ true
      → h.has_client ≡ true
      → is_empty h.auth_path ≡ false
      → IsForgotten (forget_account env h).client × Resaved no_tokens (forget_account env h)
  unfolding forget_account remove_files reset_cache store_tokens reset_client_cache
  forget_account-Resaved h inverse total works may client path =
      let gone = remove_file-Works env.codec h.auth_path h.session.disk works in
      simp (client, path, may)
        (
          record {
            friends = refl;
            friends_etag = refl;
            presence = refl;
            presence_etag = refl;
            file = refl;
          },
          save-load env.codec inverse env.path no_tokens _ gone.readable
              (save-succeeds env.codec env.path no_tokens _ total gone),
        )

  -- Where the decoders undo the encoders and tokens can be encoded, on a working disk whose files can be
  -- removed: `auth.useMojangSession` for an account
  -- other than the current one leaves that account's id in the session, no cache of the API client, in
  -- memory or in its file, and no refresh token of the former account in the credentials file.
  pub auth_use_mojang_session-switch :
      (raw : Bytes) (h : Handlers W) (w : Writer) (p : MojangParams) (id : ℕ)
      → IsInverse env.codec
      → IsTotal env.codec
      → Works h.session.disk
      → h.session.disk.removable ≡ true
      → h.has_client ≡ true
      → is_empty h.auth_path ≡ false
      → is_empty raw ≡ false
      → env.decode_mojang raw ≡ some p
      → (p.access_token == "") ≡ false
      → (p.profile_id == "") ≡ false
      → env.parse_uuid p.profile_id ≡ some id
      → is_other env id h ≡ true
      → let after = (auth_use_mojang_session env raw (h, w)).0.0 in
        (current_profile_id after.session ≡ id)
        × (IsForgotten after.client
            × (load env.codec env.path after.session.disk
                ≡ (after.session.disk, ok (some no_tokens))))
  unfolding auth_use_mojang_session with_params with_id use_session set_mojang_session
      current_profile_id
  auth_use_mojang_session-switch raw h w p id inverse total works may client path given decoded
        token profile parsed another =
      let forgotten = forget_account-Resaved h inverse total works may client path in
      simp (given, decoded, token, profile, parsed, another) (refl, (forgotten.0, forgotten.1))
