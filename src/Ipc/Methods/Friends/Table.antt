-- ===== src/Ipc/Methods/Friends/Table.antt =====
-- internal/ipc/methods.go under internal/ipc/server.go: the daemon's own methods answer through the
-- server only.
use open_friend_mc.Prelude.{
  ℕ, ◌≡◌, refl, sym, ap, ◌∙◌, true, false, ◌||◌, List, [], ◌∷◌, ◌++◌, append-nil, map, Option, none,
  some, String, ◌==◌, comparable_string, comparable_nat, if◌then◌else◌, if_lem, Result, ok, err,
  Bytes, is_empty, All, ◌⊎◌, inl, inr,
}
use open_friend_mc.Prelude.Json.{Json}
use open_friend_mc.Prelude.Assoc.{insert}
use open_friend_mc.Auth.Net.{Tokens}
use open_friend_mc.Auth.Session.{
  Session, SessionError, current_tokens, auth_error, not_authenticated, panics, polling,
}
use open_friend_mc.Auth.Session.Returning.{PollsEnd, HasReturned, authenticate-HasReturned}
use open_friend_mc.Api.Dtos.{FriendsListResponse, nil_uuid}
use open_friend_mc.Api.Friends.{Friends}
use open_friend_mc.Ipc.Blocklist.{Blocklist, BlocklistError}
use open_friend_mc.Ipc.Server.{
  Request, Message, notify, Writer, write, Called, RpcFailure, MethodFunc, register,
}
use open_friend_mc.Ipc.Server.Answers.{
  Returns, answers, answers-append, Answered, IsQuiet, AllQuiet, HasId, serve, serve-answers,
}
use open_friend_mc.Ipc.Methods.{
  Env, Handlers, MojangParams, FriendAction, status_of, not_signed_in, signed_in, auth_sign_in,
  use_session, with_id, with_params, no_params, auth_use_mojang_session, auth_sign_out, can_remove,
  version_method, auth_status, quit_method, require_auth, follow_hint,
}
use open_friend_mc.Ipc.Methods.Friends.{
  listed, blocks_of, list_answer, list_if, friends_list, put_answer, act, act_if, friends_add,
  friends_remove, friends_accept, friends_decline, blocks_list, saved, block, unblock, blocks_add,
  blocks_remove, method_table,
}

module _ {W : Type 0} (env : Env W) (all_marshal : (m : Message) → env.marshals m ≡ true) where
  -- A method's writer is left as it was, or has a notification more.
  abbrev Told : Writer → (Handlers W × Writer) × Called → Type 0
  Told w o =
      ((o.0.1 ≡ w)
        ⊎ ((name : String) × ((params : Json) × (o.0.1
                ≡ write env.marshals (notify name params) w))))
      × Returns o.1

  Told-Answered :
      (h : Handlers W) (w : Writer) (o : (Handlers W × Writer) × Called)
      → w.refused ≡ false
      → Told w o
      → Answered {A = Handlers W} env.marshals all_marshal (h, w) o.0 []
  unfolding write answers
  Told-Answered h w o taken (inl same, back) = record {
    told = ap (λ (v : Writer). answers v.sent) same ∙ sym (append-nil (answers w.sent));
    taken = ap (λ (v : Writer). v.refused) same ∙ taken;
  }
  Told-Answered h w o taken (inr (name, (params, same)), back) = record {
    told =
        ap (λ (v : Writer). answers v.sent) same
        ∙ simp (all_marshal (notify name params), taken)
            (answers-append w.sent (notify name params ∷ []));
    taken =
        ap (λ (v : Writer). v.refused) same ∙ simp (all_marshal (notify name params), taken) refl;
  }

  abbrev Tells : MethodFunc (Handlers W) → Type 0
  Tells fn = (raw : Bytes) (h : Handlers W) (w : Writer) → Told w (fn raw (h, w))

  Tells-IsQuiet :
      (fn : MethodFunc (Handlers W))
      → Tells fn
      → IsQuiet {A = Handlers W} env.marshals all_marshal fn
  Tells-IsQuiet fn tells raw (h, w) taken =
      (Told-Answered h w (fn raw (h, w)) taken (tells raw h w), (tells raw h w).1)

  signed_in-Told :
      (h : Handlers W) (w : Writer) (o : Session W × Result SessionError Tokens)
      → HasReturned o.1
      → Told w (signed_in env h w o)
  unfolding signed_in not_signed_in
  signed_in-Told h w (session, err polling) back = absurd back
  signed_in-Told h w (session, err (auth_error e)) back = (inl refl, tt)
  signed_in-Told h w (session, err not_authenticated) back = (inl refl, tt)
  signed_in-Told h w (session, err panics) back = (inl refl, tt)
  signed_in-Told h w (session, ok t) back = (inr (_, (_, refl)), tt)

  auth_sign_in-Tells : PollsEnd env.net env.fuel → Tells (auth_sign_in env)
  unfolding auth_sign_in
  auth_sign_in-Tells ends raw h w =
      if_lem (Told w) _ _ h.auth_run (λ e. (inl refl, tt))
        (λ e.
          signed_in-Told (follow_hint env raw (record h { auth_run = true })) w _
            (authenticate-HasReturned env.net env.print env.codec env.path env.fuel ends _))

  with_id-Told :
      (p : MojangParams) (o : Option ℕ) (h : Handlers W) (w : Writer)
      → Told w (with_id env p o (h, w))
  unfolding with_id use_session
  with_id-Told p none h w = (inl refl, tt)
  with_id-Told p (some id) h w = (inr (_, (_, refl)), tt)

  with_params-Told :
      (o : Option MojangParams) (h : Handlers W) (w : Writer) → Told w (with_params env o (h, w))
  unfolding with_params
  with_params-Told none h w = (inl refl, tt)
  with_params-Told (some p) h w =
      if_lem (Told w) _ _ ((p.access_token == "") || (p.profile_id == "")) (λ e. (inl refl, tt))
        (λ e. with_id-Told p (env.parse_uuid p.profile_id) h w)

  auth_use_mojang_session-Tells : Tells (auth_use_mojang_session env)
  unfolding auth_use_mojang_session
  auth_use_mojang_session-Tells raw h w =
      with_params-Told (if is_empty raw then some no_params else env.decode_mojang raw) h w

  auth_sign_out-Tells : Tells (auth_sign_out env)
  unfolding auth_sign_out
  auth_sign_out-Tells raw h w =
      if_lem (Told w) _ _ (can_remove h.auth_path h.session.disk) (λ e. (inl refl, tt))
        (λ e. (inl refl, tt))

  listed-Returns :
      (b : Option Blocklist) (o : Option FriendsListResponse) → Returns (listed env b o)
  unfolding listed
  listed-Returns b none = tt
  listed-Returns b (some resp) = tt

  blocks_of-Returns :
      (as_text : Bytes → Json) (b : Option Blocklist) → Returns (blocks_of env as_text b)
  unfolding blocks_of
  blocks_of-Returns as_text none = tt
  blocks_of-Returns as_text (some b) = tt

  status_of-Returns : (o : Option Tokens) → Returns (status_of env o)
  unfolding status_of
  status_of-Returns none = tt
  status_of-Returns (some t) = if_lem Returns _ _ (t.profile_id == nil_uuid) (λ e. tt) (λ e. tt)

  list_answer-Told : (h : Handlers W) (w : Writer) (o : Friends) → Told w (list_answer env h w o)
  unfolding list_answer
  list_answer-Told h w (c, err e) = (inl refl, tt)
  list_answer-Told h w (c, ok resp) = (inl refl, listed-Returns h.blocklist resp)

  list_if-Told : (w : Writer) (o : Handlers W × Option RpcFailure) → Told w (list_if env w o)
  unfolding list_if
  list_if-Told w (h, some e) = (inl refl, tt)
  list_if-Told w (h, none) = list_answer-Told h w _

  friends_list-Tells : Tells (friends_list env)
  unfolding friends_list
  friends_list-Tells raw h w = list_if-Told w (require_auth env h)

  put_answer-Told : (h : Handlers W) (w : Writer) (o : Friends) → Told w (put_answer env h w o)
  unfolding put_answer
  put_answer-Told h w (c, err e) = (inl refl, tt)
  put_answer-Told h w (c, ok resp) = (inl refl, tt)

  act_if-Told :
      (w : Writer) (action : Result RpcFailure FriendAction) (o : Handlers W × Option RpcFailure)
      → Told w (act_if env w action o)
  unfolding act_if act
  act_if-Told w action (h, some e) = (inl refl, tt)
  act_if-Told w (err e) (h, none) = (inl refl, tt)
  act_if-Told w (ok action) (h, none) =
      put_answer-Told (record h { actions = h.actions ++ action ∷ [] }) w _

  friends_add-Tells : Tells (friends_add env)
  unfolding friends_add
  friends_add-Tells raw h w = act_if-Told w _ (require_auth env h)

  friends_remove-Tells : Tells (friends_remove env)
  unfolding friends_remove
  friends_remove-Tells raw h w = act_if-Told w _ (require_auth env h)

  saved-Told :
      (h : Handlers W) (w : Writer) (o : Blocklist × Result BlocklistError (Unit {0}))
      → Told w (saved env h w o)
  unfolding saved
  saved-Told h w (b, ok u) = (inl refl, tt)
  saved-Told h w (b, err e) = (inl refl, tt)

  block-Told :
      (h : Handlers W) (w : Writer) (name : String) (b : Option Blocklist)
      (id : Result RpcFailure ℕ)
      → Told w (block env h w name b id)
  unfolding block
  block-Told h w name none id = (inl refl, tt)
  block-Told h w name (some b) (err e) = (inl refl, tt)
  block-Told h w name (some b) (ok id) = saved-Told h w _

  unblock-Told :
      (h : Handlers W) (w : Writer) (b : Option Blocklist) (id : Result RpcFailure ℕ)
      → Told w (unblock env h w b id)
  unfolding unblock
  unblock-Told h w none id = (inl refl, tt)
  unblock-Told h w (some b) (err e) = (inl refl, tt)
  unblock-Told h w (some b) (ok id) = saved-Told h w _

  insert-AllQuiet :
      (name : String) (fn : MethodFunc (Handlers W))
      (methods : List (String × MethodFunc (Handlers W)))
      → Tells fn
      → AllQuiet {A = Handlers W} env.marshals all_marshal methods
      → AllQuiet {A = Handlers W} env.marshals all_marshal (insert name fn methods)
  unfolding insert
  insert-AllQuiet name fn [] tells quiet = (Tells-IsQuiet fn tells, tt)
  insert-AllQuiet name fn ((other, held) ∷ methods) tells (one, quiet) =
      if_lem (AllQuiet {A = Handlers W} env.marshals all_marshal) _ _ (other == name)
        (λ e. (Tells-IsQuiet fn tells, quiet))
        (λ e. (one, insert-AllQuiet name fn methods tells quiet))

  method_table-AllQuiet :
      (as_text : Bytes → Json)
      → PollsEnd env.net env.fuel
      → AllQuiet {A = Handlers W} env.marshals all_marshal (method_table env as_text)
  unfolding method_table register friends_accept friends_decline blocks_add blocks_remove
      blocks_list version_method auth_status quit_method
  method_table-AllQuiet as_text ends =
      insert-AllQuiet _ _ _ (λ raw h w. (inl refl, tt))
        (insert-AllQuiet _ _ _ (λ raw h w. unblock-Told h w h.blocklist _)
          (insert-AllQuiet _ _ _ (λ raw h w. block-Told h w _ h.blocklist _)
            (insert-AllQuiet _ _ _ (λ raw h w. (inl refl, blocks_of-Returns as_text h.blocklist))
              (insert-AllQuiet _ _ _ friends_remove-Tells (
                insert-AllQuiet _ _ _ friends_add-Tells (
                  insert-AllQuiet _ _ _ friends_remove-Tells (
                    insert-AllQuiet _ _ _ friends_add-Tells (
                      insert-AllQuiet _ _ _ friends_list-Tells (
                        insert-AllQuiet _ _ _ auth_use_mojang_session-Tells (
                          insert-AllQuiet _ _ _ auth_sign_out-Tells (
                            insert-AllQuiet _ _ _ (auth_sign_in-Tells ends) (
                              insert-AllQuiet _ _ _
                                (λ raw h w.
                                  (inl refl, status_of-Returns (current_tokens h.session)))
                                (insert-AllQuiet _ _ _ (λ raw h w. (inl refl, tt)) (tt))))))))))))))

  -- With the table of the authentication, friends and block methods, where all messages can be written,
  -- the stream takes them and the polls of a sign-in end with the fuel given: requests with ids that are
  -- dispatched one at a time, each when the one before is done, get one answer each, with their ids, in
  -- the order in which they are dispatched, whatever their methods and parameters.
  pub method_table-serve :
      (as_text : Bytes → Json) (reqs : List Request) (h : Handlers W) (w : Writer)
      → PollsEnd env.net env.fuel
      → All HasId reqs
      → w.refused ≡ false
      → answers (serve env.marshals all_marshal (method_table env as_text) reqs (h, w)).1.sent
        ≡ answers w.sent ++ map (λ r. r.id) reqs
  method_table-serve as_text reqs h w ends ids taken =
      serve-answers env.marshals all_marshal (method_table env as_text) reqs (h, w)
        (method_table-AllQuiet as_text ends) ids taken
