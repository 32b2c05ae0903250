-- ===== src/Presence/Broadcaster.antt =====
-- internal/presence/broadcaster.go. The clock and the server's answers come in with each tick.
pub mod Loops
use open_friend_mc.Prelude.{
  ℕ, suc, ◌-◌, Bool, true, false, not, List, [], ◌∷◌, ◌++◌, Option, none, some, String, ◌==◌,
  comparable_string, if◌then◌else◌,
}
use open_friend_mc.Api.Dtos.{
  PresenceRequest, PresenceResponse, status_offline, status_playing_hosted_server,
  new_join_info_update,
}
use open_friend_mc.Api.Client.{Client, Outcome, presence_in_cooldown}
use open_friend_mc.Api.Presence.{post_presence}

-- `loops` counts the goroutines of `loop`, `bodies` logs what `PostPresence` was called with.
pub record Broadcaster : Type 0 where
  pub client : Client
  pub status : String
  pub invite_pmids : List ℕ
  pub running : Bool
  pub loops : ℕ
  pub bodies : List PresenceRequest

unfoldable pub new_broadcaster : Client → String → List ℕ → Broadcaster
new_broadcaster client status invite_pmids = record {
  client = client;
  status = status;
  invite_pmids = invite_pmids;
  running = false;
  loops = 0;
  bodies = [];
}

unfoldable pub start : Broadcaster → Broadcaster
start b = if b.running then b else record b { running = true; loops = suc b.loops }

-- `Close` waits for the end of the loop, and no `Start` comes while it waits.
unfoldable pub close : Broadcaster → Broadcaster
close b = if not b.running then b else record b { running = false; loops = b.loops - 1 }

abbrev post_body :
    PresenceRequest
    → ℕ
    → Outcome PresenceResponse
    → Outcome PresenceResponse
    → Broadcaster
    → Broadcaster
post_body body now first then_ b = record b {
  client = (post_presence now first then_ b.client).0;
  bodies = b.bodies ++ body ∷ [];
}

unfoldable pub request_of : Broadcaster → PresenceRequest
request_of b = record {
  status = b.status;
  join_info =
      if b.status == status_playing_hosted_server
      then some (new_join_info_update b.invite_pmids)
      else none;
}

unfoldable pub tick :
    ℕ → Outcome PresenceResponse → Outcome PresenceResponse → Broadcaster → Broadcaster
unfolding request_of
tick now first then_ b =
    if presence_in_cooldown now b.client then b else post_body (request_of b) now first then_ b

unfoldable pub announce_offline :
    ℕ → Outcome PresenceResponse → Outcome PresenceResponse → Broadcaster → Broadcaster
announce_offline now first then_ b =
    post_body (record { status = status_offline; join_info = none }) now first then_ b
