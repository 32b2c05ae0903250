-- ===== src/Presence/Refresher.antt =====
-- internal/presence/refresher.go: the poll of the friends list and the changes it reports.
-- The client's answers come in with the tick; the calls of the observer are a log.
pub mod Changes
pub mod InSync
use open_friend_mc.Prelude.{
  ℕ, ◌≡◌, refl, Bool, true, false, not, List, [], ◌∷◌, ◌++◌, map, Option, none, some, Result, ok,
  err, comparable_nat, if◌then◌else◌,
}
use open_friend_mc.Prelude.Assoc.{lookup, insert}
use open_friend_mc.Api.Dtos.{FriendDto, FriendsListResponse, FriendAction, add_by_id}
use open_friend_mc.Api.Client.{ApiError}

abbrev pub FriendMap : Type 0
FriendMap = List (ℕ × FriendDto)

abbrev pub found : Option FriendDto → Bool
found none = false
found (some d) = true

-- `_, ok := m[id]`
abbrev pub knows : FriendMap → ℕ → Bool
knows m id = found (lookup id m)

pub data Change : Type 0 where
  added : FriendDto → Change
  removed : ℕ → Change

-- The calls of `Observer`.
pub data Call : Type 0 where
  initial_snapshot : FriendsListResponse → Call
  friend incoming outgoing : Change → Call

pub record Refresher : Type 0 where
  pub auto_accept : Bool
  pub has_observer : Bool
  pub primed : Bool
  pub known_friends : FriendMap
  pub known_incoming : FriendMap
  pub known_outgoing : FriendMap
  pub calls : List Call
  pub puts : List FriendAction

unfoldable pub new_refresher : Bool → Bool → Refresher
new_refresher auto_accept has_observer = record {
  auto_accept = auto_accept;
  has_observer = has_observer;
  primed = false;
  known_friends = [];
  known_incoming = [];
  known_outgoing = [];
  calls = [];
  puts = [];
}

unfoldable pub insert_all : List FriendDto → FriendMap → FriendMap
insert_all [] m = m
insert_all (d ∷ ds) m = insert_all ds (insert d.profile_id d m)

unfoldable pub id_map : List FriendDto → FriendMap
unfolding insert_all
id_map ds = insert_all ds []

unfoldable pub additions : List FriendDto → FriendMap → List Change
additions [] known = []
additions (d ∷ ds) known =
    let rest = additions ds known in if knows known d.profile_id then rest else added d ∷ rest

unfoldable pub removals : FriendMap → FriendMap → List Change
removals [] current_ids = []
removals ((gone, _) ∷ more) current_ids =
    let rest = removals more current_ids in
    if knows current_ids gone then rest else removed gone ∷ rest

unfoldable pub diff_with_observer : List FriendDto → FriendMap → FriendMap → List Change
unfolding additions removals
diff_with_observer current known current_ids = additions current known ++ removals known current_ids

unfoldable pub report : FriendsListResponse → Refresher → List Call
unfolding id_map diff_with_observer
report resp r =
    if r.primed
    then map friend (diff_with_observer resp.friends r.known_friends (id_map resp.friends))
      ++ (map incoming (
            diff_with_observer resp.incoming_requests r.known_incoming
              (id_map resp.incoming_requests))
          ++ map outgoing (
              diff_with_observer resp.outgoing_requests r.known_outgoing
                (id_map resp.outgoing_requests)))
    else initial_snapshot resp ∷ []

accepts : List FriendDto → FriendMap → List FriendAction
accepts [] prev = []
accepts (d ∷ ds) prev =
    let rest = accepts ds prev in
    if knows prev d.profile_id then rest else add_by_id d.profile_id ∷ rest

unfoldable pub apply_diff : FriendsListResponse → Refresher → Refresher
unfolding report accepts id_map
apply_diff resp r = record r {
  calls = if r.has_observer then r.calls ++ report resp r else r.calls;
  puts =
      if r.auto_accept then r.puts ++ accepts resp.incoming_requests r.known_incoming else r.puts;
  known_friends = id_map resp.friends;
  known_incoming = id_map resp.incoming_requests;
  known_outgoing = id_map resp.outgoing_requests;
  primed = true;
}

unfoldable pub take_friends : Result ApiError (Option FriendsListResponse) → Refresher → Refresher
unfolding apply_diff
take_friends (err e) r = r
take_friends (ok none) r = r
take_friends (ok (some resp)) r = apply_diff resp r

unfoldable pub tick : Bool → Result ApiError (Option FriendsListResponse) → Refresher → Refresher
unfolding take_friends
tick in_cooldown answer r = if in_cooldown then r else take_friends answer r

unfoldable pub set_auto_accept : Bool → Refresher → Refresher
set_auto_accept v r = record r { auto_accept = v }
