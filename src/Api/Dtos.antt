-- ===== src/Api/Dtos.antt =====
-- internal/api/dtos.go. A UUID is the number of its 16 bytes, so `uuid.Nil` is 0.
use open_friend_mc.Prelude.{ℕ, Bool, List, Option, none, String}

abbrev pub nil_uuid : ℕ
nil_uuid = 0

-- `PresenceStatus` is a string; these are its constants.
abbrev pub status_online : String
status_online = "ONLINE"

abbrev pub status_playing_hosted_server : String
status_playing_hosted_server = "PLAYING_HOSTED_SERVER"

abbrev pub status_offline : String
status_offline = "OFFLINE"

pub record FriendDto : Type 0 where
  pub profile_id : ℕ
  pub name : String

pub record FriendsListResponse : Type 0 where
  pub friends : List FriendDto
  pub incoming_requests : List FriendDto
  pub outgoing_requests : List FriendDto

pub record JoinInfoUpdate : Type 0 where
  pub value : Option String
  pub invites : List ℕ

pub record JoinInfoDto : Type 0 where
  pub value : Option String
  pub invited : Bool

pub record PresenceRequest : Type 0 where
  pub status : String
  pub join_info : Option JoinInfoUpdate

pub record PresenceStatusDto : Type 0 where
  pub profile_id : ℕ
  pub pmid : ℕ
  pub status : String
  pub join_info : Option JoinInfoDto
  pub last_updated : ℕ

pub record PresenceResponse : Type 0 where
  pub presence : List PresenceStatusDto

pub data FriendAction : Type 0 where
  add_by_name : String → FriendAction
  add_by_id remove_by_id : ℕ → FriendAction

abbrev pub new_join_info_update : List ℕ → JoinInfoUpdate
new_join_info_update invites = record { value = none; invites = invites }
