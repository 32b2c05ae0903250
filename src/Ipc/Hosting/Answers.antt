-- ===== src/Ipc/Hosting/Answers.antt =====
-- internal/ipc/methods_host.go: the answers of `join.start` and the state they leave.
use open_friend_mc.Prelude.{
  ℕ, ◌≡◌, refl, Bool, true, false, ◌&&◌, [], Option, none, Result, ok, err, fail_if, is_empty,
  if_lem,
}
use open_friend_mc.Prelude.Text.{Text, trim_space, same_text_refl}
use open_friend_mc.Ipc.Hosting.{
  World, JoinStartRequest, JoinAnswer, RpcError, invalid_params, Peer, joined, wanted_listen,
  same_join, store_join, bind_join, bound_address, start_join, switch_join, resolve_join_peer,
  checked_join, join_checks, join_start, close_join,
}

-- The state shows the join that an answer names.
Shows : World → JoinAnswer → Type 0
Shows w (joined peer id listen) =
    (w.host.join_running ≡ true) × (w.host.join_peer ≡ peer) × (w.host.join_listen ≡ listen)

ShowsAll : World × Result RpcError JoinAnswer → Type 0
ShowsAll result = (a : JoinAnswer) → result.1 ≡ ok a → Shows result.0 a

bind_join-ShowsAll :
    (w : World) (r : JoinStartRequest) (peer : Peer) (bound : Result RpcError Text)
    → ShowsAll (bind_join w r peer bound)
unfolding ShowsAll Shows bind_join store_join
bind_join-ShowsAll w r peer (err e) a h = cc
bind_join-ShowsAll w r peer (ok listen) (joined p id l) h = (refl, cc, cc)

start_join-ShowsAll :
    (w : World) (r : JoinStartRequest) (peer : Result RpcError Peer)
    → ShowsAll (start_join w r peer)
unfolding ShowsAll start_join
start_join-ShowsAll w r (err e) a h = cc
start_join-ShowsAll w r (ok peer) a h = bind_join-ShowsAll w r peer (bound_address r) a h

and_first : (a b : Bool) → (a && b) ≡ true → a ≡ true
and_first true b e = refl
and_first false b e = e

switch_join-ShowsAll : (r : JoinStartRequest) (w : World) → ShowsAll (switch_join r w)
unfolding switch_join ShowsAll Shows
switch_join-ShowsAll r w =
    if_lem ShowsAll _ _ (same_join r w) kept
      λ e. start_join-ShowsAll (close_join w) r (resolve_join_peer r)
  where
    kept : same_join r w ≡ true → ShowsAll (w, ok (joined w.host.join_peer none w.host.join_listen))
    kept e (joined p id l) h = (and_first w.host.join_running _ e, cc, cc)

checked_join-ShowsAll :
    (r : JoinStartRequest) (w : World) (checks : Result RpcError (Unit {0}))
    → ShowsAll (checked_join r w checks)
unfolding ShowsAll checked_join
checked_join-ShowsAll r w (err e) a h = cc
checked_join-ShowsAll r w (ok _) a h = switch_join-ShowsAll r w a h

-- Where `join.start` answers that a join runs, the state it leaves has that join running, with the
-- peer and the address of the answer.
join_start-Shows :
    (r : JoinStartRequest) (w : World) (a : JoinAnswer)
    → (join_start r w).1 ≡ ok a
    → Shows (join_start r w).0 a
unfolding join_start ShowsAll
join_start-Shows r w a h = checked_join-ShowsAll r w (join_checks r) a h

by_pmid_checks :
    (s : JoinStartRequest)
    → s.authenticated ≡ true
    → s.params_ok ≡ true
    → is_empty s.pmid ≡ false
    → join_checks s ≡ ok tt
unfolding join_checks
by_pmid_checks s auth params given =
    rw auth (rw params (rw given (no_fail (is_empty s.name) (is_empty s.profile_id))))
  where
    no_fail : (a b : Bool) → fail_if (a && (b && false)) invalid_params ≡ ok tt
    no_fail true true = refl
    no_fail true false = refl
    no_fail false b = refl

unnamed_peer : trim_space [] ≡ []
unfolding trim_space
unnamed_peer = refl

same_join_by_pmid :
    (s : JoinStartRequest) (w : World)
    → Shows w (joined [] none (wanted_listen s))
    → s.name ≡ []
    → same_join s w ≡ true
unfolding Shows
same_join_by_pmid s w (running, peer, listen) unnamed = rw running (
    rw peer (
      rw listen
        (rw unnamed (rw unnamed_peer (rw (same_text_refl []) (same_text_refl (wanted_listen s)))))))

kept_join :
    (s : JoinStartRequest) (w : World)
    → Shows w (joined [] none (wanted_listen s))
    → s.name ≡ []
    → checked_join s w (ok tt) ≡ (w, ok (joined [] none (wanted_listen s)))
unfolding checked_join switch_join Shows
kept_join s w (running, peer, listen) unnamed =
    rw (same_join_by_pmid s w (running, peer, listen) unnamed) cc

-- `join.start` by `pmid` compares neither `pmid` nor profile: where the running join has no name, as
-- one that was started by `pmid` has none, a later request by any other `pmid` at the same address
-- answers that the join runs, and leaves the first peer's join in place.
pub join_start_other_pmid :
    (r s : JoinStartRequest) (w : World) (id : Option ℕ)
    → (join_start r w).1 ≡ ok (joined [] id (wanted_listen s))
    → s.authenticated ≡ true
    → s.params_ok ≡ true
    → s.name ≡ []
    → is_empty s.pmid ≡ false
    → join_start s (join_start r w).0 ≡ ((join_start r w).0, ok (joined [] none (wanted_listen s)))
unfolding join_start Shows
join_start_other_pmid r s w id h auth params unnamed given =
    rw (by_pmid_checks s auth params given)
      (kept_join s (join_start r w).0 (join_start-Shows r w _ h) unnamed)
