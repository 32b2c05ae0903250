-- ===== src/Presence/Refresher/InSync.antt =====
-- internal/presence/refresher.go: what an observer knows from the calls that it got.
use mathlib.Core.Path.{subst}
use open_friend_mc.Prelude.{
  ℕ, ◌≡◌, refl, ◌∙◌, sym, Bool, true, false, List, [], ◌∷◌, ◌++◌, map, Option, none, some, Result,
  ok, err, comparable_nat, Bool-cases, inl, inr,
}
use open_friend_mc.Api.Dtos.{FriendDto, FriendsListResponse}
use open_friend_mc.Api.Client.{ApiError}
use open_friend_mc.Presence.Refresher.{
  FriendMap, knows, Change, Call, initial_snapshot, friend, incoming, outgoing, Refresher,
  new_refresher, id_map, diff_with_observer, report, apply_diff, take_friends, tick,
}
use open_friend_mc.Presence.Refresher.Changes.{
  apply_change, replay, lists, replay-diff_with_observer, knows-id_map,
}

-- The sets that an observer builds from its calls.
pub record View : Type 0 where
  pub friends : ℕ → Bool
  pub incoming_requests : ℕ → Bool
  pub outgoing_requests : ℕ → Bool

abbrev pub nobody : View
nobody = record {
  friends = λ i. false;
  incoming_requests = λ i. false;
  outgoing_requests = λ i. false;
}

pub see : Call → View → View
see (initial_snapshot resp) v = record {
  friends = lists resp.friends;
  incoming_requests = lists resp.incoming_requests;
  outgoing_requests = lists resp.outgoing_requests;
}
see (friend c) v = record v { friends = apply_change v.friends c }
see (incoming c) v = record v { incoming_requests = apply_change v.incoming_requests c }
see (outgoing c) v = record v { outgoing_requests = apply_change v.outgoing_requests c }

pub see_all : List Call → View → View
see_all [] v = v
see_all (c ∷ cs) v = see_all cs (see c v)

see_all-++ : (a b : List Call) (v : View) → see_all (a ++ b) v ≡ see_all b (see_all a v)
unfolding see_all
see_all-++ [] b v = refl
see_all-++ (c ∷ a) b v = see_all-++ a b (see c v)

see_all_friend :
    (cs : List Change) (v : View)
    → see_all (map friend cs) v ≡ record v { friends = replay cs v.friends }
unfolding see_all see replay
see_all_friend [] v = refl
see_all_friend (c ∷ cs) v = see_all_friend cs (see (friend c) v)

see_all_incoming :
    (cs : List Change) (v : View)
    → see_all (map incoming cs) v ≡ record v { incoming_requests = replay cs v.incoming_requests }
unfolding see_all see replay
see_all_incoming [] v = refl
see_all_incoming (c ∷ cs) v = see_all_incoming cs (see (incoming c) v)

see_all_outgoing :
    (cs : List Change) (v : View)
    → see_all (map outgoing cs) v ≡ record v { outgoing_requests = replay cs v.outgoing_requests }
unfolding see_all see replay
see_all_outgoing [] v = refl
see_all_outgoing (c ∷ cs) v = see_all_outgoing cs (see (outgoing c) v)

-- The view and the maps name the same people.
pub record InSync (v : View) (r : Refresher) : Type 0 where
  pub on_friends : (i : ℕ) → v.friends i ≡ knows r.known_friends i
  pub on_incoming : (i : ℕ) → v.incoming_requests i ≡ knows r.known_incoming i
  pub on_outgoing : (i : ℕ) → v.outgoing_requests i ≡ knows r.known_outgoing i

follows :
    (ds : List FriendDto) (known : FriendMap) (s : ℕ → Bool) (i : ℕ)
    → s i ≡ knows known i
    → replay (diff_with_observer ds known (id_map ds)) s i ≡ knows (id_map ds) i
follows ds known s i at = replay-diff_with_observer ds known s i at ∙ sym (knows-id_map ds i)

report-InSync :
    (resp : FriendsListResponse) (r : Refresher) (v : View)
    → (r.primed ≡ true → InSync v r)
    → InSync (see_all (report resp r) v) (apply_diff resp r)
unfolding report apply_diff see see_all
report-InSync resp r v before = elim (Bool-cases r.primed) [
  | inl e ↦
      let old = before e in
      let f = diff_with_observer resp.friends r.known_friends (id_map resp.friends) in
      let n =
        diff_with_observer resp.incoming_requests r.known_incoming
          (id_map resp.incoming_requests) in
      let o =
        diff_with_observer resp.outgoing_requests r.known_outgoing
          (id_map resp.outgoing_requests) in
      rw e (
        rw (see_all-++ (map friend f) (map incoming n ++ map outgoing o) v) (
          rw (see_all-++ (map incoming n) (map outgoing o) (see_all (map friend f) v)) (
            rw (see_all_friend f v) (
              rw (see_all_incoming n (record v { friends = replay f v.friends })) (
                rw
                  (see_all_outgoing o (record v {
                    friends = replay f v.friends;
                    incoming_requests = replay n v.incoming_requests;
                  }))
                  record {
                    on_friends =
                        λ i. follows resp.friends r.known_friends v.friends i (old.on_friends i);
                    on_incoming = λ i.
                        follows resp.incoming_requests r.known_incoming v.incoming_requests i
                          (old.on_incoming i);
                    on_outgoing = λ i.
                        follows resp.outgoing_requests r.known_outgoing v.outgoing_requests i
                          (old.on_outgoing i);
                  })))))
  | inr e ↦ rw e record {
    on_friends = λ i. sym (knows-id_map resp.friends i);
    on_incoming = λ i. sym (knows-id_map resp.incoming_requests i);
    on_outgoing = λ i. sym (knows-id_map resp.outgoing_requests i);
  }
]

abbrev pub Tick : Type 0
Tick = Bool × Result ApiError (Option FriendsListResponse)

unfoldable pub run_ticks : Refresher → List Tick → Refresher
run_ticks r [] = r
run_ticks r ((in_cooldown, answer) ∷ ts) = run_ticks (tick in_cooldown answer r) ts

record Good (r : Refresher) : Type 0 where
  watched : r.has_observer ≡ true
  synced : r.primed ≡ true → InSync (see_all r.calls nobody) r

calls_after :
    (resp : FriendsListResponse) (r : Refresher)
    → r.has_observer ≡ true
    → see_all (apply_diff resp r).calls nobody ≡ see_all (report resp r) (see_all r.calls nobody)
unfolding apply_diff
calls_after resp r w = rw w (see_all-++ r.calls (report resp r) nobody)

new_refresher-Good : (auto_accept : Bool) → Good (new_refresher auto_accept true)
unfolding new_refresher
new_refresher-Good auto_accept = record { watched = refl; synced = λ e. cc }

apply_diff-Good : (resp : FriendsListResponse) (r : Refresher) → Good r → Good (apply_diff resp r)
unfolding apply_diff
apply_diff-Good resp r g = record {
  watched = g.watched;
  synced = λ e.
      subst (λ v. InSync v (apply_diff resp r)) (sym (calls_after resp r g.watched))
        (report-InSync resp r (see_all r.calls nobody) g.synced);
}

tick-Good :
    (in_cooldown : Bool) (answer : Result ApiError (Option FriendsListResponse)) (r : Refresher)
    → Good r
    → Good (tick in_cooldown answer r)
unfolding tick take_friends
tick-Good true answer r g = g
tick-Good false (err e) r g = g
tick-Good false (ok none) r g = g
tick-Good false (ok (some resp)) r g = apply_diff-Good resp r g

run_ticks-Good : (r : Refresher) (ts : List Tick) → Good r → Good (run_ticks r ts)
unfolding run_ticks
run_ticks-Good r [] g = g
run_ticks-Good r ((in_cooldown, answer) ∷ ts) g =
    run_ticks-Good (tick in_cooldown answer r) ts (tick-Good in_cooldown answer r g)

-- After any sequence of polls, failed, skipped and answered ones, an observer that is there from the
-- start and applies each call to its own three sets holds just the friends, the incoming and the
-- outgoing requests that the refresher knows, once the first answer has come.
pub run_ticks-InSync :
    (auto_accept : Bool) (ts : List Tick)
    → (run_ticks (new_refresher auto_accept true) ts).primed ≡ true
    → InSync
        (see_all (run_ticks (new_refresher auto_accept true) ts).calls nobody)
        (run_ticks (new_refresher auto_accept true) ts)
run_ticks-InSync auto_accept ts primed =
    (run_ticks-Good (new_refresher auto_accept true) ts (new_refresher-Good auto_accept)).synced
      primed
