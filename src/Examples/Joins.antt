-- ===== src/Examples/Joins.antt =====
-- internal/bridge/join.go.
use open_friend_mc.Prelude.{
  ◌≡◌, refl, false, [], ◌∷◌, none, some, ◌⊎◌, comparable_nat, comparable_string,
}
use open_friend_mc.Prelude.Assoc.{lookup}
use open_friend_mc.Bridge.Join.{
  JoinSession, JoinManager, new_join_manager, join_accepted, on_friend_join, handle_answer,
  handle_ice, finish, wake, accepted, offered, close_manager,
}
use open_friend_mc.Bridge.Join.Peer.{Concerns, only_peer_acts}
use open_friend_mc.Bridge.Join.Closing.{Leaked, close_while_initiating}

abbrev waiting : JoinSession
waiting = record {
  session_id = "one";
  local = some 4;
  rtc = false;
  accept_closed = false;
  reject_closed = false;
  once_done = false;
  remote_ice = [];
}

abbrev joining : JoinManager
joining = record (new_join_manager 7) { current = some 0; heap = (0, waiting) ∷ []; next_ref = 1 }

stranger :
    ((on_friend_join 8 "one" join_accepted joining ≡ joining) ⊎ Concerns 8 "one" joining)
    × ((handle_answer 8 "one" false joining ≡ joining) ⊎ Concerns 8 "one" joining)
    × ((handle_ice 8 "one" none joining ≡ joining) ⊎ Concerns 8 "one" joining)
stranger = only_peer_acts 8 "one" join_accepted false none joining

leaked : Leaked 0 joining.shut_rtc (finish 0 (wake 0 4 (accepted offered) (close_manager joining)))
unfolding lookup new_join_manager
leaked = close_while_initiating 0 4 waiting joining refl refl refl refl refl
