-- ===== src/Ipc/Observer.antt =====
-- internal/ipc/observer.go: the notification for each call of the refresher's observer.
use open_friend_mc.Prelude.{ℕ, List, [], ◌∷◌, String}
use open_friend_mc.Prelude.Json.{Json, text, object, array, Items, no_items, item, no_fields, field}
use open_friend_mc.Api.Dtos.{FriendDto, FriendsListResponse}
use open_friend_mc.Presence.Refresher.{
  Change, added, removed, Call, initial_snapshot, friend, incoming, outgoing,
}
use open_friend_mc.Ipc.Server.{Message, notify}

module _ (print_uuid : ℕ → String) where
  friend_dto_to_map : FriendDto → Json
  friend_dto_to_map d =
      object
        (field "profileId" (text (print_uuid d.profile_id)) (field "name" (text d.name) no_fields))

  -- The parameters of a change.
  change_params : Change → Json
  unfolding friend_dto_to_map
  change_params (added d) = friend_dto_to_map d
  change_params (removed id) = object (field "profileId" (text (print_uuid id)) no_fields)

  change_name : (appeared gone : String) → Change → String
  change_name appeared gone (added d) = appeared
  change_name appeared gone (removed id) = gone

  dto_rows : List FriendDto → Items
  unfolding friend_dto_to_map
  dto_rows [] = no_items
  dto_rows (d ∷ ds) = item (friend_dto_to_map d) (dto_rows ds)

  snapshot_params : FriendsListResponse → Json
  unfolding dto_rows
  snapshot_params resp = object (
      field "friends" (array (dto_rows resp.friends)) (
        field "incoming" (array (dto_rows resp.incoming_requests))
          (field "outgoing" (array (dto_rows resp.outgoing_requests)) no_fields)))

  unfoldable call_message : Call → Message
  unfolding change_params change_name snapshot_params
  call_message (initial_snapshot resp) = notify "friends.snapshot" (snapshot_params resp)
  call_message (friend c) = notify (change_name "friend.added" "friend.removed" c) (change_params c)
  call_message (incoming c) =
      notify (change_name "friend.requestIncoming" "friend.requestIncomingResolved" c)
        (change_params c)
  call_message (outgoing c) =
      notify (change_name "friend.requestOutgoing" "friend.requestOutgoingResolved" c)
        (change_params c)
