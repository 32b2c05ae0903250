-- ===== src/Bridge/Host/Invariant.antt =====
-- Every handler of the host keeps the table in order; so it is after any run of events.
use open_friend_mc.Prelude.{
  ℕ, suc, ◌<◌, ◌≡◌, refl, sym, ap, ◌∙◌, arith, Bool, true, false, ◌&&◌, Option, none, some, String,
  ◌==◌, ==_iff, comparable_nat, comparable_string, Bool-cases, if_lem, some_inj, ◌⊎◌, inl, inr,
}
use open_friend_mc.Prelude.Assoc.{lookup, insert, lookup-insert}
use open_friend_mc.Bridge.HostSession.{HostSession, close}
use open_friend_mc.Bridge.HostSession.Closing.{Keeps, close-Keeps, close_once}
use open_friend_mc.Bridge.Host.{
  HostManager, Candidate, Reply, Started, session_failed, offer_failed, answer_failed, answered,
  send, update, on_session, reached, remove_session, new_session, close_locked, close_previous,
  enter, register, set_rtc, finish_start, start_session, handle_offer, drop_session, handle_ice,
}
use open_friend_mc.Bridge.Host.Registry.{
  Inv, ClosedAt, Evolves-Inv, put-Evolves, reached-Keeps, reached-closed, settle-ClosedAt,
  with_lock_lem, remove_session-Inv, on_session-Inv,
}
use open_friend_mc.Bridge.Host.Isolation.{handle_ice_owner}

-- The fields that `Inv` does not read may change.
pub Inv-same :
    {p q : HostManager}
    → q.sessions ≡ p.sessions
    → q.heap ≡ p.heap
    → q.next_ref ≡ p.next_ref
    → Inv p
    → Inv q
Inv-same s h n v = record {
  points = λ sid ref e. let (ps, at, i) = v.points sid ref (rw s at e) in (ps, rw h at, i);
  below = λ ref ps e. rw n (v.below ref ps (rw h at e));
  registered = λ ref ps e o. rw s (v.registered ref ps (rw h at e) o);
}

pub close_at : (ref : ℕ) (p : HostManager) → ClosedAt (on_session close ref p) ref
unfolding on_session
close_at ref p = found (lookup ref p.heap) refl
  where
    found : (o : Option HostSession) → lookup ref p.heap ≡ o → ClosedAt (update close ref o p) ref
    found none e = λ ps h. let n = sym e ∙ h in cc
    found (some ps) e = settle-ClosedAt ref ps (close ps) p (close_once ps).0

pub drop_session-Inv :
    (ref : ℕ) (sid : String) (p : HostManager) → Inv p → Inv (drop_session ref sid p)
unfolding drop_session
drop_session-Inv ref sid p v =
    let w = on_session-Inv close ref p close-Keeps v in
    with_lock_lem Inv (remove_session sid ref) (on_session close ref p) w
      (remove_session-Inv sid ref (on_session close ref p) (close_at ref p) w)

-- After `prev.close()` whatever the id leads to is closed.
abbrev Replaced : String → HostManager → Type 0
Replaced sid q = Inv q × ((ref : ℕ) → lookup sid q.sessions ≡ some ref → ClosedAt q ref)

close_locked-Replaced :
    (sid : String) (prev : ℕ) (p : HostManager) (o : Option HostSession)
    → lookup sid p.sessions ≡ some prev
    → lookup prev p.heap ≡ o
    → Inv p
    → Replaced sid (close_locked prev o p)
unfolding close_locked
close_locked-Replaced sid prev p none e at v = (
  v,
  λ ref h ps found.
      let same = some_inj (sym e ∙ h) in
      let n = sym at ∙ (ap (λ t. lookup t p.heap) same ∙ found) in cc,
)
close_locked-Replaced sid prev p (some ps) e at v =
    let q = close_locked prev (some ps) p in
    let after_ = reached true ps (close ps) in
    (
      Evolves-Inv
          (put-Evolves prev ps after_ p q at (reached-Keeps true ps (close ps) (close-Keeps ps))
            refl refl)
          refl v,
      λ ref h rs found.
          let same : prev ≡ ref = some_inj (sym e ∙ h) in
          let one : some after_ ≡ some rs =
            rw (lookup-insert prev ref after_ p.heap, (==_iff prev ref).1 same) at found in
          ap (λ t. t.closed) (sym (some_inj one))
          ∙ (reached-closed true ps (close ps) ∙ (close_once ps).0),
    )

close_previous-Replaced :
    (sid : String) (p : HostManager) (o : Option ℕ)
    → lookup sid p.sessions ≡ o
    → Inv p
    → Replaced sid (close_previous o p)
unfolding close_previous
close_previous-Replaced sid p none e v = (v, λ ref h. let n = sym e ∙ h in cc)
close_previous-Replaced sid p (some prev) e v =
    close_locked-Replaced sid prev p (lookup prev p.heap) e refl v

older : (n t : ℕ) → t < n → (n == t) ≡ false
older n t h = ground arith

register_new :
    (from : ℕ) (sid : String) (q : HostManager)
    → Inv q
    → ((ref : ℕ) → lookup sid q.sessions ≡ some ref → ClosedAt q ref)
    → Inv (record q {
      heap = insert q.next_ref (new_session from sid) q.heap;
      sessions = insert sid q.next_ref q.sessions;
      next_ref = suc q.next_ref;
    })
unfolding new_session
register_new from sid q v replaced = record {
  points = λ s r e. entry s r e (Bool-cases (sid == s));
  below = λ r ps e. fresh r ps e (Bool-cases (q.next_ref == r));
  registered =
      λ r ps e o. kept r ps e o (Bool-cases (q.next_ref == r)) (Bool-cases (sid == ps.sid));
}
  where
    ns : HostSession
    ns = new_session from sid

    entry :
        (s : String) (r : ℕ)
        → lookup s (insert sid q.next_ref q.sessions) ≡ some r
        → ((sid == s) ≡ true) ⊎ ((sid == s) ≡ false)
        → (ps : HostSession) × (lookup r (insert q.next_ref ns q.heap) ≡ some ps) × (ps.sid ≡ s)
    entry s r e (inl same) =
        let h : some q.next_ref ≡ some r =
          rw (lookup-insert sid s q.next_ref q.sessions, same) at e in
        (
          ns,
          rw (lookup-insert q.next_ref r ns q.heap, (==_iff q.next_ref r).1 (some_inj h)),
          (==_iff sid s).0 same,
        )
    entry s r e (inr other) =
        let h : lookup s q.sessions ≡ some r =
          rw (lookup-insert sid s q.next_ref q.sessions, other) at e in
        let (ps, at, i) = v.points s r h in (ps, not_new r ps at, i)
      where
        not_new :
            (t : ℕ) (ps : HostSession)
            → lookup t q.heap ≡ some ps
            → lookup t (insert q.next_ref ns q.heap) ≡ some ps
        not_new t ps at =
            rw (lookup-insert q.next_ref t ns q.heap, older q.next_ref t (v.below t ps at)) (at)

    fresh :
        (r : ℕ) (ps : HostSession)
        → lookup r (insert q.next_ref ns q.heap) ≡ some ps
        → ((q.next_ref == r) ≡ true) ⊎ ((q.next_ref == r) ≡ false)
        → r < suc q.next_ref
    fresh r ps e (inl same) = omega (arith, (==_iff q.next_ref r).0 same)
    fresh r ps e (inr other) =
        let h : lookup r q.heap ≡ some ps = rw (lookup-insert q.next_ref r ns q.heap, other) at e in
        omega (arith, v.below r ps h)

    kept :
        (r : ℕ) (ps : HostSession)
        → lookup r (insert q.next_ref ns q.heap) ≡ some ps
        → ps.closed ≡ false
        → ((q.next_ref == r) ≡ true) ⊎ ((q.next_ref == r) ≡ false)
        → ((sid == ps.sid) ≡ true) ⊎ ((sid == ps.sid) ≡ false)
        → lookup ps.sid (insert sid q.next_ref q.sessions) ≡ some r
    kept r ps e o (inl a) (inl b) =
        rw (lookup-insert sid ps.sid q.next_ref q.sessions, b) (ap some ((==_iff q.next_ref r).0 a))
    kept r ps e o (inl a) (inr b) =
        let h : some ns ≡ some ps = rw (lookup-insert q.next_ref r ns q.heap, a) at e in
        let t = (==_iff sid ps.sid).1 (ap (λ u. u.sid) (some_inj h)) in cc
    kept r ps e o (inr a) (inl b) =
        let h : lookup r q.heap ≡ some ps = rw (lookup-insert q.next_ref r ns q.heap, a) at e in
        let same = (==_iff sid ps.sid).0 b in
        let c = replaced r (ap (λ t. lookup t q.sessions) same ∙ v.registered r ps h o) ps h in cc
    kept r ps e o (inr a) (inr b) =
        let h : lookup r q.heap ≡ some ps = rw (lookup-insert q.next_ref r ns q.heap, a) at e in
        rw (lookup-insert sid ps.sid q.next_ref q.sessions, b) (v.registered r ps h o)

register-Inv : (from : ℕ) (sid : String) (p : HostManager) → Inv p → Inv (register from sid p)
unfolding register enter
register-Inv from sid p v =
    let (w, replaced) = close_previous-Replaced sid p (lookup sid p.sessions) refl v in
    with_lock_lem Inv (enter from sid) (close_previous (lookup sid p.sessions) p) w
      (register_new from sid _ w replaced)

set_rtc-Keeps : (ps : HostSession) → Keeps ps (set_rtc ps)
unfolding set_rtc
set_rtc-Keeps ps = record {
  same_sid = refl;
  same_pmid = refl;
  stays_closed = λ h. h;
  calls = inl refl;
}

pub send-Inv : (p : HostManager) (to : ℕ) (r : Reply) → Inv p → Inv (send p to r)
unfolding send
send-Inv p to r v = Inv-same refl refl refl v

finish_start-Inv :
    (from : ℕ) (sid : String) (ref : ℕ) (outcome : Started) (p : HostManager)
    → Inv p
    → Inv (finish_start from sid ref outcome p)
unfolding finish_start
finish_start-Inv from sid ref session_failed p v = v
finish_start-Inv from sid ref offer_failed p v =
    on_session-Inv close ref _ close-Keeps (on_session-Inv set_rtc ref p set_rtc-Keeps v)
finish_start-Inv from sid ref answer_failed p v =
    on_session-Inv close ref _ close-Keeps (on_session-Inv set_rtc ref p set_rtc-Keeps v)
finish_start-Inv from sid ref answered p v =
    send-Inv _ from _ (on_session-Inv set_rtc ref p set_rtc-Keeps v)

pub handle_offer-Inv :
    (from : ℕ) (sid : String) (has_sdp turn_ok : Bool) (outcome : Started) (p : HostManager)
    → Inv p
    → Inv (handle_offer from sid has_sdp turn_ok outcome p)
unfolding handle_offer start_session
handle_offer-Inv from sid has_sdp turn_ok outcome p v =
    if_lem Inv _ _ (has_sdp && turn_ok)
      (λ e. with_lock_lem Inv (start_session from sid outcome) p v (
        let w = register-Inv from sid p v in
        with_lock_lem Inv (finish_start from sid p.next_ref outcome) (register from sid p) w
          (finish_start-Inv from sid p.next_ref outcome (register from sid p) w)))
      (λ e. v)

pub handle_ice-Inv :
    (from : ℕ) (sid : String) (c : Option Candidate) (p : HostManager)
    → Inv p
    → Inv (handle_ice from sid c p)
handle_ice-Inv from sid c p v = elim (handle_ice_owner from sid c p) [
  | inl e ↦ rw e v
  | inr (ref, ps, d, _, _, _, _, _, e) ↦ rw e (Inv-same refl refl refl v)
]
