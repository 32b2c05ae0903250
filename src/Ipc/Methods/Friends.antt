-- ===== src/Ipc/Methods/Friends.antt =====
-- internal/ipc/methods.go: the methods `friends.*` and `blocks.*`, and the table of all methods here.
pub mod Refusal
pub mod Table
use open_friend_mc.Prelude.{
  ℕ, Bool, true, false, not, ◌&&◌, ◌||◌, List, [], ◌∷◌, ◌++◌, Option, none, some, String, ◌==◌,
  comparable_string, comparable_nat, if◌then◌else◌, Result, ok, err, Bytes, is_empty, codes,
}
use open_friend_mc.Prelude.Json.{
  Json, text, object, array, boolean, Items, no_items, item, Fields, no_fields, field,
}
use open_friend_mc.Api.Dtos.{FriendDto, FriendsListResponse}
use open_friend_mc.Api.Client.{Client, ApiError, api_error, bad_json}
use open_friend_mc.Api.Friends.{Friends, get_friends, put_friend_action}
use open_friend_mc.Ipc.Blocklist.{Blocklist, BlocklistError, Row, has, snapshot, add, remove}
use open_friend_mc.Ipc.Server.{
  RpcFailure, new_error, new_errorf, Writer, Called, MethodFunc, register, minus_api_error,
  minus_invalid_params, minus_internal_error,
}
use open_friend_mc.Ipc.Methods.Friends.Refusal.{friend_action_rpc_error}
use open_friend_mc.Ipc.Methods.{
  Env, Handlers, FriendAction, add_by_id, add_by_name, remove_by_id, IdParams, well, badly, ok_true,
  Method, require_auth, version_method, auth_status, auth_sign_in, auth_sign_out,
  auth_use_mojang_session, quit_method,
}

module _ {W : Type 0} (env : Env W) where
  blocked_in : Option Blocklist → ℕ → Bool
  blocked_in none id = false
  blocked_in (some b) id = has id b

  -- `dtoMap`
  unfoldable pub dto_map : Option Blocklist → List FriendDto → Items
  unfolding blocked_in
  dto_map b [] = no_items
  dto_map b (d ∷ ds) =
      item
        (object (
          field "profileId" (text (env.print_uuid d.profile_id)) (
            field "name" (text d.name)
              (field "blocked" (boolean (blocked_in b d.profile_id)) no_fields))))
        (dto_map b ds)

  listed : Option Blocklist → Option FriendsListResponse → Called
  unfolding dto_map
  listed b none = well (
      field "friends" (array no_items)
        (field "incoming" (array no_items) (field "outgoing" (array no_items) no_fields)))
  listed b (some resp) = well (
      field "friends" (array (dto_map b resp.friends)) (
        field "incoming" (array (dto_map b resp.incoming_requests))
          (field "outgoing" (array (dto_map b resp.outgoing_requests)) no_fields)))

  list_answer : Handlers W → Writer → Friends → (Handlers W × Writer) × Called
  unfolding listed
  list_answer h w (c, err e) = (
    (record h { client = c }, w),
    badly (new_errorf minus_api_error "GET /friends failed" (env.api_text e)),
  )
  list_answer h w (c, ok resp) = ((record h { client = c }, w), listed h.blocklist resp)

  list_if : Writer → Handlers W × Option RpcFailure → (Handlers W × Writer) × Called
  unfolding list_answer
  list_if w (h, some e) = ((h, w), badly e)
  list_if w (h, none) = list_answer h w (
      get_friends (env.net.now h.session.world) env.cache_writable env.get_answers.0
        env.get_answers.1 h.client)

  unfoldable pub friends_list : Method env
  unfolding list_if
  friends_list raw (h, w) = list_if w (require_auth env h)

  -- `parseIDParams`
  parse_id_params : Bytes → Result RpcFailure IdParams
  parse_id_params raw =
      if is_empty raw
      then ok (record { profile_id = ""; name = "" })
      else (elim (env.decode_id raw) [
        | none ↦ err (new_errorf minus_invalid_params "invalid params" "json")
        | some p ↦ ok p
      ])

  uuid_of : Option ℕ → Result RpcFailure ℕ
  uuid_of none = err (new_error minus_invalid_params "invalid profileId")
  uuid_of (some id) = ok id

  -- The id that a method wants.
  needed_id : Result RpcFailure IdParams → Result RpcFailure ℕ
  unfolding uuid_of
  needed_id (err e) = err e
  needed_id (ok p) =
      if p.profile_id == ""
      then err (new_error minus_invalid_params "profileId required")
      else uuid_of (env.parse_uuid p.profile_id)

  as_add : Result RpcFailure ℕ → Result RpcFailure FriendAction
  as_add (err e) = err e
  as_add (ok id) = ok (add_by_id id)

  as_remove : Result RpcFailure ℕ → Result RpcFailure FriendAction
  as_remove (err e) = err e
  as_remove (ok id) = ok (remove_by_id id)

  add_action : Result RpcFailure IdParams → Result RpcFailure FriendAction
  unfolding as_add uuid_of
  add_action (err e) = err e
  add_action (ok p) =
      if not (p.profile_id == "")
      then as_add (uuid_of (env.parse_uuid p.profile_id))
      else if not (p.name == "")
      then ok (add_by_name p.name)
      else err (new_error minus_invalid_params "name or profileId required")

  put_answer : Handlers W → Writer → Friends → (Handlers W × Writer) × Called
  put_answer h w (c, ok resp) = ((record h { client = c }, w), ok_true)
  put_answer h w (c, err e) = (
    (record h { client = c }, w),
    badly (friend_action_rpc_error e (env.lower_body e) (env.api_text e)),
  )

  act : Handlers W → Writer → Result RpcFailure FriendAction → (Handlers W × Writer) × Called
  unfolding put_answer
  act h w (err e) = ((h, w), badly e)
  act h w (ok action) =
      let answers = env.put_answers action in
      put_answer (record h { actions = h.actions ++ action ∷ [] }) w
        (put_friend_action (env.net.now h.session.world) answers.0 answers.1 h.client)

  act_if :
      Writer
      → Result RpcFailure FriendAction
      → Handlers W × Option RpcFailure
      → (Handlers W × Writer) × Called
  unfolding act
  act_if w action (h, some e) = ((h, w), badly e)
  act_if w action (h, none) = act h w action

  unfoldable pub friends_add : Method env
  unfolding act_if add_action parse_id_params
  friends_add raw (h, w) = act_if w (add_action (parse_id_params raw)) (require_auth env h)

  unfoldable pub friends_remove : Method env
  unfolding act_if as_remove needed_id parse_id_params
  friends_remove raw (h, w) =
      act_if w (as_remove (needed_id (parse_id_params raw))) (require_auth env h)

  unfoldable pub friends_accept : Method env
  friends_accept raw s = friends_add raw s

  unfoldable pub friends_decline : Method env
  friends_decline raw s = friends_remove raw s

  row_items : List Row → (Bytes → Json) → Items
  row_items [] as_text = no_items
  row_items ((id, name) ∷ rows) as_text =
      item (object (field "profileId" (as_text id) (field "name" (text name) no_fields)))
        (row_items rows as_text)

  blocks_of : (Bytes → Json) → Option Blocklist → Called
  unfolding row_items
  blocks_of as_text none = well (field "blocks" (array no_items) no_fields)
  blocks_of as_text (some b) =
      well (field "blocks" (array (row_items (snapshot env.rows b) as_text)) no_fields)

  -- `blocksList`, where `as_text` makes a JSON text of a UUID's bytes.
  unfoldable pub blocks_list : (Bytes → Json) → Method env
  unfolding blocks_of
  blocks_list as_text raw (h, w) = ((h, w), blocks_of as_text h.blocklist)

  saved :
      Handlers W
      → Writer
      → Blocklist × Result BlocklistError (Unit {0})
      → (Handlers W × Writer) × Called
  saved h w (b, ok u) = ((record h { blocklist = some b }, w), ok_true)
  saved h w (b, err e) = (
    (record h { blocklist = some b }, w),
    badly (new_errorf minus_internal_error "blocklist save failed" (env.blocklist_text e)),
  )

  name_in : Result RpcFailure IdParams → String
  name_in (ok p) = p.name
  name_in (err e) = ""

  block :
      Handlers W
      → Writer
      → String
      → Option Blocklist
      → Result RpcFailure ℕ
      → (Handlers W × Writer) × Called
  unfolding saved
  block h w name none id =
      ((h, w), badly (new_error minus_internal_error "blocklist not configured"))
  block h w name (some b) (err e) = ((h, w), badly e)
  block h w name (some b) (ok id) = saved h w (add env.rows id name b)

  unblock :
      Handlers W → Writer → Option Blocklist → Result RpcFailure ℕ → (Handlers W × Writer) × Called
  unfolding saved
  unblock h w none id = ((h, w), badly (new_error minus_internal_error "blocklist not configured"))
  unblock h w (some b) (err e) = ((h, w), badly e)
  unblock h w (some b) (ok id) = saved h w (remove env.rows id b)

  unfoldable pub blocks_add : Method env
  unfolding block needed_id parse_id_params name_in
  blocks_add raw (h, w) =
      let p = parse_id_params raw in block h w (name_in p) h.blocklist (needed_id p)

  unfoldable pub blocks_remove : Method env
  unfolding unblock needed_id parse_id_params
  blocks_remove raw (h, w) = unblock h w h.blocklist (needed_id (parse_id_params raw))

  -- `Register`, but the methods of the watch and of hosting.
  unfoldable pub method_table : (Bytes → Json) → List (String × MethodFunc (Handlers W))
  method_table as_text =
      let add_to = register (Handlers W) in
      add_to "quit" (quit_method env) (
        add_to "blocks.remove" blocks_remove (
          add_to "blocks.add" blocks_add (
            add_to "blocks.list" (blocks_list as_text) (
              add_to "friends.decline" friends_decline (
                add_to "friends.accept" friends_accept (
                  add_to "friends.remove" friends_remove (
                    add_to "friends.add" friends_add (
                      add_to "friends.list" friends_list (
                        add_to "auth.useMojangSession" (auth_use_mojang_session env) (
                          add_to "auth.signOut" (auth_sign_out env) (
                            add_to "auth.signIn" (auth_sign_in env) (
                              add_to "auth.status" (auth_status env)
                                (add_to "version" (version_method env) [])))))))))))))
