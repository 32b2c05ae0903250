-- ===== src/Bridge/Join/Closing.antt =====
-- internal/bridge/join.go: `Close` while `startInitiator` runs.
use mathlib.Core.Path.{subst}
use open_friend_mc.Prelude.{
  ℕ, ◌≡◌, refl, sym, ap, ◌∙◌, Bool, true, false, List, Option, none, some, ==_refl, comparable_nat,
  if◌then◌else◌, if_lem,
}
use open_friend_mc.Prelude.Assoc.{lookup, lookup-insert}
use open_friend_mc.Bridge.Join.{
  JoinSession, JoinManager, close_found, close_session, finish, leave, wake, accepted, offered,
  start_initiator, close_manager, close_current, initiate, is_current, set_rtc, shut_local, store,
}

-- The session behind the pointer has a WebRTC session, and the calls of `Close` on WebRTC are those
-- given.
pub Leaked : ℕ → List ℕ → JoinManager → Type 0
Leaked ref shut j =
    (s : JoinSession) × (lookup ref j.heap ≡ some s) × (s.rtc ≡ true) × (j.shut_rtc ≡ shut)

-- The session stands closed in the heap, with the calls of `Close` on WebRTC as given.
record Closed (ref : ℕ) (shut : List ℕ) (rtc : Bool) (j : JoinManager) : Type 0 where
  session : JoinSession
  found : lookup ref j.heap ≡ some session
  done : session.once_done ≡ true
  has_rtc : session.rtc ≡ rtc
  same_shut : j.shut_rtc ≡ shut

lookup_stored :
    (ref : ℕ) (t : JoinSession) (j : JoinManager) → lookup ref (store ref t j).heap ≡ some t
lookup_stored ref t j = lookup-insert ref ref t j.heap ∙ rw (==_refl ref) refl

shut_local_same : (l : Option ℕ) (j : JoinManager) → (shut_local l j).heap ≡ j.heap
unfolding shut_local
shut_local_same none j = refl
shut_local_same (some c) j = refl

shut_local_rtc : (l : Option ℕ) (j : JoinManager) → (shut_local l j).shut_rtc ≡ j.shut_rtc
unfolding shut_local
shut_local_rtc none j = refl
shut_local_rtc (some c) j = refl

close_before_rtc :
    (ref : ℕ) (s : JoinSession) (j : JoinManager)
    → s.once_done ≡ false
    → s.rtc ≡ false
    → Closed ref j.shut_rtc false (close_found ref (some s) j)
unfolding close_found
close_before_rtc ref s j fresh no_rtc =
    let t = record s { once_done = true; local = none } in
    let k = store ref t j in
    let closed : close_found ref (some s) j ≡ shut_local s.local k = rw fresh (rw no_rtc refl) in
    subst (Closed ref j.shut_rtc false) (sym closed) record {
      session = t;
      found = ap (lookup ref) (shut_local_same s.local k) ∙ lookup_stored ref t j;
      done = refl;
      has_rtc = no_rtc;
      same_shut = shut_local_rtc s.local k;
    }

offered_rtc :
    (ref : ℕ) (s : JoinSession) (j : JoinManager)
    → lookup ref j.heap ≡ some s
    → lookup ref (start_initiator ref offered j).heap ≡ some (record s { rtc = true })
unfolding start_initiator set_rtc
offered_rtc ref s j at =
    ap (λ o. lookup ref (set_rtc ref o j).heap) at ∙ lookup_stored ref (record s { rtc = true }) j

offered_shut : (ref : ℕ) (j : JoinManager) → (start_initiator ref offered j).shut_rtc ≡ j.shut_rtc
unfolding start_initiator
offered_shut ref j = same (lookup ref j.heap)
  where
    same : (o : Option JoinSession) → (set_rtc ref o j).shut_rtc ≡ j.shut_rtc
    same none = refl
    same (some s) = refl

initiate-Closed :
    (ref : ℕ) (shut : List ℕ) (j : JoinManager)
    → Closed ref shut false j
    → Closed ref shut true (start_initiator ref offered j)
initiate-Closed ref shut j c = record {
  session = record (c.session) { rtc = true };
  found = offered_rtc ref c.session j c.found;
  done = c.done;
  has_rtc = refl;
  same_shut = offered_shut ref j ∙ c.same_shut;
}

close_again :
    (ref : ℕ) (shut : List ℕ) (rtc : Bool) (j : JoinManager)
    → Closed ref shut rtc j
    → close_session ref j ≡ j
unfolding close_session close_found
close_again ref shut rtc j c = ap (λ o. close_found ref o j) c.found ∙ rw c.done refl

leave-Closed :
    (ref : ℕ) (shut : List ℕ) (j : JoinManager)
    → Closed ref shut true j
    → Closed ref shut true (leave ref j)
unfolding leave
leave-Closed ref shut j c =
    if_lem (Closed ref shut true) _ _ (is_current ref j.current)
      (λ e. record {
        session = c.session;
        found = c.found;
        done = c.done;
        has_rtc = c.has_rtc;
        same_shut = c.same_shut;
      })
      (λ e. c)

finish-Closed :
    (ref : ℕ) (shut : List ℕ) (j : JoinManager)
    → Closed ref shut true j
    → Closed ref shut true (finish ref j)
unfolding finish
finish-Closed ref shut j c =
    subst (λ k. Closed ref shut true (leave ref k)) (sym (close_again ref shut true j c))
      (leave-Closed ref shut j c)

manager-Closed :
    (ref : ℕ) (s : JoinSession) (j : JoinManager)
    → j.stopped ≡ false
    → j.current ≡ some ref
    → lookup ref j.heap ≡ some s
    → s.once_done ≡ false
    → s.rtc ≡ false
    → Closed ref j.shut_rtc false (close_manager j)
unfolding close_manager close_current close_session
manager-Closed ref s j running cur at fresh no_rtc =
    let k = record j { stopped = true; current = none } in
    let closed : close_manager j ≡ close_found ref (some s) k =
      ap (λ b. if b then record j { panicked = true } else close_current j.current k) running
      ∙ ap (λ o. close_current o k) cur
      ∙ ap (λ o. close_found ref o k) at in
    subst (Closed ref j.shut_rtc false) (sym closed) (close_before_rtc ref s k fresh no_rtc)

-- When `Close` runs after the host accepted and before `startInitiator` has made its WebRTC session,
-- that session is made in a join that is closed already: the end of `handleIncoming` closes the join a
-- second time, which closes nothing, so that the WebRTC session outlives its join.
pub close_while_initiating :
    (ref conn : ℕ) (s : JoinSession) (j : JoinManager)
    → j.stopped ≡ false
    → j.current ≡ some ref
    → lookup ref j.heap ≡ some s
    → s.once_done ≡ false
    → s.rtc ≡ false
    → Leaked ref j.shut_rtc (finish ref (wake ref conn (accepted offered) (close_manager j)))
unfolding wake initiate Leaked
close_while_initiating ref conn s j running cur at fresh no_rtc =
    let closed = manager-Closed ref s j running cur at fresh no_rtc in
    let c =
      finish-Closed ref j.shut_rtc _ (initiate-Closed ref j.shut_rtc (close_manager j) closed) in
    (c.session, c.found, c.has_rtc, c.same_shut)
