-- ===== src/Bridge/Host/Runs.antt =====
-- The host under any sequence of events, and its shutdown.
use mathlib.Core.Path.{subst}
use open_friend_mc.Prelude.{
  if_lem, none, ℕ, ◌≡◌, refl, sym, ap, ◌∙◌, Bool, true, false, List, [], ◌∷◌, Bytes, Option, some,
  String, ◌==◌, comparable_nat, comparable_string, Bool-cases, some_inj, ◌⊎◌, inl, inr,
}
use open_friend_mc.Prelude.Assoc.{lookup, insert}
use open_friend_mc.Bridge.Tcp.{TcpBridge}
use open_friend_mc.Bridge.HostSession.{HostSession, close, attach_tcp, on_peer_data, read_ended}
use open_friend_mc.Bridge.HostSession.Closing.{
  Keeps, Keeps-trans, close-Keeps, read_ended-Keeps, attach_tcp-Keeps, on_peer_data-Keeps,
}
use open_friend_mc.Bridge.Host.{
  with_lock, called_on_close, reached, settle, update, remove_session, removes, HostManager,
  Candidate, Started, new_host_manager, on_session, on_join_request, handle_offer, drop_session,
  channel_open, handle_ice, close_each, close_all, join_accepted, join_rejected,
}
use open_friend_mc.Bridge.Host.Registry.{
  Inv, ClosedAt, Evolves, Evolves-refl, on_session-Evolves, on_session-Inv, with_lock_lem,
}
use open_friend_mc.Bridge.Host.Invariant.{
  close_at, drop_session-Inv, handle_offer-Inv, handle_ice-Inv, send-Inv,
}

Evolves-trans : {p q r : HostManager} → Evolves p q → Evolves q r → Evolves p r
Evolves-trans e f = record {
  forth = λ i ps h.
      let (qs, at, k) = e.forth i ps h in
      let (rs, at', l) = f.forth i qs at in (rs, at', Keeps-trans k l);
  back = λ i rs h.
      let (qs, at, l) = f.back i rs h in
      let (ps, at', k) = e.back i qs at in (ps, at', Keeps-trans k l);
  same_next = f.same_next ∙ e.same_next;
}

settle-empty :
    (ref : ℕ) (ps qs : HostSession) (p : HostManager)
    → p.sessions ≡ []
    → (settle ref ps qs p).sessions ≡ []
unfolding settle remove_session removes lookup
settle-empty ref ps qs p none_there =
    if_lem (λ (q : HostManager). q.sessions ≡ []) _ _ (called_on_close ps qs)
      (λ e.
        with_lock_lem (λ (q : HostManager). q.sessions ≡ []) (remove_session ps.sid ref)
          (record p { heap = insert ref (reached p.hung ps qs) p.heap }) none_there
          (simp none_there refl))
      (λ e. none_there)

-- `removeSession` finds nothing in an empty table.
on_session-empty :
    (f : HostSession → HostSession) (ref : ℕ) (p : HostManager)
    → p.sessions ≡ []
    → (on_session f ref p).sessions ≡ []
unfolding on_session update
on_session-empty f ref p none_there = found (lookup ref p.heap)
  where
    found : (o : Option HostSession) → (update f ref o p).sessions ≡ []
    found none = none_there
    found (some ps) = settle-empty ref ps (f ps) p none_there

close_each-empty :
    (l : List (String × ℕ)) (p : HostManager) → p.sessions ≡ [] → (close_each l p).sessions ≡ []
unfolding close_each
close_each-empty [] p none_there = none_there
close_each-empty ((_, ref) ∷ more) p none_there =
    close_each-empty more (on_session close ref p) (on_session-empty close ref p none_there)

close_each-Evolves : (l : List (String × ℕ)) (p : HostManager) → Evolves p (close_each l p)
unfolding close_each
close_each-Evolves [] p = Evolves-refl p
close_each-Evolves ((_, ref) ∷ more) p =
    Evolves-trans (on_session-Evolves close ref p close-Keeps) (close_each-Evolves more _)

stays-ClosedAt : {p q : HostManager} (ref : ℕ) → Evolves p q → ClosedAt p ref → ClosedAt q ref
stays-ClosedAt ref e c qs h = let (ps, at, k) = e.back ref qs h in k.stays_closed (c ps at)

close_each_reaches :
    (l : List (String × ℕ)) (p : HostManager) (sid : String) (ref : ℕ)
    → lookup sid l ≡ some ref
    → ClosedAt (close_each l p) ref
unfolding close_each lookup
close_each_reaches [] p sid ref h = cc
close_each_reaches ((s, r) ∷ more) p sid ref h = elim (Bool-cases (s == sid)) [
  | inl e ↦
      let same : r ≡ ref = some_inj (rw e at h) in
      subst (ClosedAt (close_each more (on_session close r p))) same
        (stays-ClosedAt r (close_each-Evolves more (on_session close r p)) (close_at r p))
  | inr e ↦ close_each_reaches more (on_session close r p) sid ref (rw e at h)
]

open_first :
    {qs : HostSession} (ps : HostSession) → Keeps ps qs → qs.closed ≡ false → ps.closed ≡ false
open_first ps k o = elim (Bool-cases ps.closed) [
  | inl e ↦ let c = k.stays_closed e in cc
  | inr e ↦ e
]

close_all-Evolves : (p : HostManager) → Evolves (record p { sessions = [] }) (close_all p)
unfolding close_all
close_all-Evolves p = close_each-Evolves p.sessions (record p { sessions = [] })

close_all-empty : (p : HostManager) → (close_all p).sessions ≡ []
unfolding close_all
close_all-empty p = close_each-empty p.sessions (record p { sessions = [] }) refl

-- From a state with the invariant, `Close`, once it has the lock, leaves every session closed that the host ever made,
-- and the table empty.
pub close_all_closes :
    (p : HostManager) (ref : ℕ) (ps : HostSession)
    → Inv p
    → lookup ref (close_all p).heap ≡ some ps
    → (ps.closed ≡ true) × ((close_all p).sessions ≡ [])
unfolding close_all
close_all_closes p ref ps v h = (closed_now (Bool-cases ps.closed), close_all-empty p)
  where
    closed_now : ((ps.closed ≡ true) ⊎ (ps.closed ≡ false)) → ps.closed ≡ true
    closed_now (inl e) = e
    closed_now (inr e) =
        let (qs, at, k) = (close_all-Evolves p).back ref ps h in
        let was_open : qs.closed ≡ false = open_first qs k e in
        close_each_reaches p.sessions (record p { sessions = [] }) qs.sid ref
          (v.registered ref qs at was_open) ps h

-- What can happen to a running host, in the order in which it happens.
pub data Event : Type 0 where
  join_request : ℕ → String → Bool → Event
  offer : ℕ → String → Bool → Bool → Started → Event
  ice : ℕ → String → Option Candidate → Event
  peer_data : ℕ → Option Bytes → Bytes → Event
  opened : ℕ → Option TcpBridge → Event
  dropped : ℕ → String → Event
  server_ended : ℕ → Event
  shutdown : Event

module _ (hmac : Bytes → Bytes → Bytes) (bypass_key : Option Bytes) where
  unfoldable pub step : HostManager → Event → HostManager
  step p (join_request from sid reachable) = on_join_request from sid reachable p
  step p (offer from sid has_sdp turn_ok outcome) = handle_offer from sid has_sdp turn_ok outcome p
  step p (ice from sid c) = handle_ice from sid c p
  step p (peer_data ref random bytes) =
      on_session (λ ps. on_peer_data hmac bypass_key random ps bytes) ref p
  step p (opened ref dialled) = channel_open ref dialled p
  step p (dropped ref sid) = drop_session ref sid p
  step p (server_ended ref) = on_session read_ended ref p
  step p shutdown = with_lock close_all p

  unfoldable pub run : HostManager → List Event → HostManager
  run p [] = p
  run p (e ∷ es) = run (step p e) es

close_all-Inv : (p : HostManager) → Inv p → Inv (close_all p)
unfolding lookup
close_all-Inv p v = record {
  points = λ s r h. let e = empty s r (rw (close_all-empty p) at h) in absurd e;
  below = λ r qs h.
      let (ps, at, k) = (close_all-Evolves p).back r qs h in
      rw (close_all-Evolves p).same_next (v.below r ps at);
  registered = λ r ps h o. let c = (close_all_closes p r ps v h).0 in cc;
}
  where
    no_entries : List (String × ℕ)
    no_entries = []

    empty : (s : String) (r : ℕ) → lookup s no_entries ≡ some r → ⊥
    empty s r h = cc

new_host_manager-Inv : Inv new_host_manager
unfolding new_host_manager lookup
new_host_manager-Inv = record {
  points = λ s r h. cc;
  below = λ r ps h. cc;
  registered = λ r ps h o. cc;
}

on_join_request-Inv :
    (from : ℕ) (sid : String) (reachable : Bool) (p : HostManager)
    → Inv p
    → Inv (on_join_request from sid reachable p)
unfolding on_join_request
on_join_request-Inv from sid true p v = send-Inv p from (join_accepted sid) v
on_join_request-Inv from sid false p v = send-Inv p from (join_rejected sid) v

module _ (hmac : Bytes → Bytes → Bytes) (bypass_key : Option Bytes) where
  step-Inv : (p : HostManager) (e : Event) → Inv p → Inv (step hmac bypass_key p e)
  unfolding step channel_open
  step-Inv p (join_request from sid reachable) v = on_join_request-Inv from sid reachable p v
  step-Inv p (offer from sid has_sdp turn_ok outcome) v =
      handle_offer-Inv from sid has_sdp turn_ok outcome p v
  step-Inv p (ice from sid c) v = handle_ice-Inv from sid c p v
  step-Inv p (peer_data ref random bytes) v =
      on_session-Inv _ ref p (λ ps. on_peer_data-Keeps hmac bypass_key random ps bytes) v
  step-Inv p (opened ref dialled) v =
      on_session-Inv (attach_tcp dialled) ref p (attach_tcp-Keeps dialled) v
  step-Inv p (dropped ref sid) v = drop_session-Inv ref sid p v
  step-Inv p (server_ended ref) v = on_session-Inv read_ended ref p read_ended-Keeps v
  step-Inv p shutdown v = with_lock_lem Inv close_all p v (close_all-Inv p v)

  run-Inv : (p : HostManager) (es : List Event) → Inv p → Inv (run hmac bypass_key p es)
  unfolding run
  run-Inv p [] v = v
  run-Inv p (e ∷ es) v = run-Inv (step hmac bypass_key p e) es (step-Inv p e v)

  -- After any sequence of events every entry of the table leads to a session with that id, every
  -- session that is not closed is in the table under its id, and no pointer was handed out twice.
  pub run-new_host_manager-Inv : (es : List Event) → Inv (run hmac bypass_key new_host_manager es)
  run-new_host_manager-Inv es = run-Inv new_host_manager es new_host_manager-Inv

  -- After any sequence of events two sessions that are not closed and have the same id are the
  -- same session.
  pub one_open_session :
      (es : List Event) (r s : ℕ) (ps qs : HostSession)
      → lookup r (run hmac bypass_key new_host_manager es).heap ≡ some ps
      → lookup s (run hmac bypass_key new_host_manager es).heap ≡ some qs
      → ps.closed ≡ false
      → qs.closed ≡ false
      → ps.sid ≡ qs.sid
      → r ≡ s
  one_open_session es r s ps qs at at' o o' same =
      let v = run-new_host_manager-Inv es in
      let table = (run hmac bypass_key new_host_manager es).sessions in
      some_inj
        (sym (v.registered r ps at o) ∙ ap (λ t. lookup t table) same ∙ v.registered s qs at' o')
