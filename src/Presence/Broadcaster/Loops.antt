-- ===== src/Presence/Broadcaster/Loops.antt =====
-- internal/presence/broadcaster.go: how many loops run.
use open_friend_mc.Prelude.{ℕ, ◌≡◌, refl, arith, List, [], ◌∷◌, String, if◌then◌else◌, if_lem}
use open_friend_mc.Api.Dtos.{PresenceResponse}
use open_friend_mc.Api.Client.{Client, Outcome, presence_in_cooldown}
use open_friend_mc.Presence.Broadcaster.{
  Broadcaster, new_broadcaster, start, close, tick, announce_offline,
}

data Event : Type 0 where
  starts closes : Event
  ticks offline : ℕ → Outcome PresenceResponse → Outcome PresenceResponse → Event

step : Broadcaster → Event → Broadcaster
step b starts = start b
step b closes = close b
step b (ticks now first then_) = tick now first then_ b
step b (offline now first then_) = announce_offline now first then_ b

run : Broadcaster → List Event → Broadcaster
run b [] = b
run b (e ∷ es) = run (step b e) es

-- One loop while the broadcaster runs, else none.
HasLoops : Broadcaster → Type 0
HasLoops b = b.loops ≡ (if b.running then 1 else 0)

step-HasLoops : (e : Event) (b : Broadcaster) → HasLoops b → HasLoops (step b e)
unfolding step start close tick announce_offline HasLoops
step-HasLoops starts b v = ground arith
step-HasLoops closes b v = ground arith
step-HasLoops (ticks now first then_) b v =
    if_lem HasLoops _ _ (presence_in_cooldown now b.client) (λ e. v) (λ e. v)
step-HasLoops (offline now first then_) b v = v

run_from-HasLoops : (es : List Event) (b : Broadcaster) → HasLoops b → HasLoops (run b es)
unfolding run
run_from-HasLoops [] b v = v
run_from-HasLoops (e ∷ es) b v = run_from-HasLoops es (step b e) (step-HasLoops e b v)

-- After any calls of `Start`, `Close` and `AnnounceOffline` and any ticks, one loop runs while the
-- broadcaster is running, and none else.
run-HasLoops :
    (client : Client) (status : String) (invites : List ℕ) (es : List Event)
    → HasLoops (run (new_broadcaster client status invites) es)
unfolding new_broadcaster HasLoops
run-HasLoops client status invites es =
    run_from-HasLoops es (new_broadcaster client status invites) refl
