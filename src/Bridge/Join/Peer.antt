-- ===== src/Bridge/Join/Peer.antt =====
-- internal/bridge/join.go: what a message of a friend can do to the join.
use open_friend_mc.Prelude.{
  ℕ, ◌≡◌, refl, ap, ◌∙◌, Bool, true, false, Option, none, some, String, ◌==◌, ==_iff, ==_refl,
  comparable_nat, comparable_string, if◌then◌else◌, if_lem, Bool-cases, ◌⊎◌, inl, inr,
}
use open_friend_mc.Prelude.Assoc.{lookup, lookup-insert}
use open_friend_mc.Bridge.Host.{Candidate}
use open_friend_mc.Bridge.Join.{
  JoinSession, JoinManager, Verdict, join_accepted, current_session, session_behind, with_ref,
  close_channel, on_verdict, on_friend_join, answer_to, handle_answer, ice_to, handle_ice, store,
}

-- A message of the peer for the session in progress.
pub record Concerns (from : ℕ) (sid : String) (j : JoinManager) : Type 0 where
  pub from_peer : from ≡ j.peer_pmid
  pub ref : ℕ
  pub session : JoinSession
  pub at_current : current_session j ≡ some (ref, session)
  pub same_id : session.session_id ≡ sid

Unless : ℕ → String → JoinManager → JoinManager → Type 0
Unless from sid j k = (k ≡ j) ⊎ Concerns from sid j

by_session :
    (from : ℕ) (sid : String) (j : JoinManager) (act : Option (ℕ × JoinSession) → JoinManager)
    → act none ≡ j
    → ((ref : ℕ) (s : JoinSession) → (s.session_id == sid) ≡ false → act (some (ref, s)) ≡ j)
    → Unless from sid j (if from == j.peer_pmid then act (current_session j) else j)
unfolding Unless
by_session from sid j act idle other =
    if_lem (Unless from sid j) _ _ (from == j.peer_pmid) (λ e. found e _ refl) (λ e. inl refl)
  where
    found :
        (from == j.peer_pmid) ≡ true
        → (o : Option (ℕ × JoinSession)) → current_session j ≡ o
        → Unless from sid j (act o)
    found e none at = inl idle
    found e (some (ref, s)) at = elim (Bool-cases (s.session_id == sid)) [
      | inl same ↦ inr record {
        from_peer = (==_iff from j.peer_pmid).0 e;
        ref = ref;
        session = s;
        at_current = at;
        same_id = (==_iff s.session_id sid).0 same;
      }
      | inr off ↦ inl (other ref s off)
    ]

-- A join verdict, an answer and an ICE candidate each leave the join as it is, unless the sender is
-- the peer that is joined and the message is for the session in progress.
pub only_peer_acts :
    (from : ℕ) (sid : String) (v : Verdict) (taken : Bool) (c : Option Candidate) (j : JoinManager)
    → ((on_friend_join from sid v j ≡ j) ⊎ Concerns from sid j)
      × ((handle_answer from sid taken j ≡ j) ⊎ Concerns from sid j)
      × ((handle_ice from sid c j ≡ j) ⊎ Concerns from sid j)
unfolding Unless on_friend_join on_verdict handle_answer answer_to handle_ice ice_to
only_peer_acts from sid v taken c j = (
  by_session from sid j (λ o. on_verdict sid v o j) refl (λ ref s off. rw off refl),
  by_session from sid j (λ o. answer_to sid taken o j) refl (λ ref s off. rw off refl),
  by_ice c,
)
  where
    by_ice : (c : Option Candidate) → (handle_ice from sid c j ≡ j) ⊎ Concerns from sid j
    by_ice none = inl refl
    by_ice (some c) = by_session from sid j (λ o. ice_to sid c o j) refl (λ ref s off. rw off refl)

session_found :
    (ref : ℕ) (s : JoinSession) (j : JoinManager)
    → j.current ≡ some ref
    → lookup ref j.heap ≡ some s
    → current_session j ≡ some (ref, s)
unfolding current_session session_behind
session_found ref s j cur at = ap (session_behind j.heap) cur ∙ ap (with_ref ref) at

verdict_current :
    (sid : String) (v : Verdict) (ref : ℕ) (s : JoinSession) (j : JoinManager)
    → current_session j ≡ some (ref, s)
    → s.session_id ≡ sid
    → on_friend_join j.peer_pmid sid v j ≡ close_channel ref v s j
unfolding on_friend_join on_verdict
verdict_current sid v ref s j at same =
    rw (==_refl j.peer_pmid) (rw at (rw same (rw (==_refl sid) refl)))

lookup_stored :
    (ref : ℕ) (t : JoinSession) (j : JoinManager) → lookup ref (store ref t j).heap ≡ some t
lookup_stored ref t j = lookup-insert ref ref t j.heap ∙ rw (==_refl ref) refl

first_closes :
    (ref : ℕ) (s : JoinSession) (j : JoinManager)
    → s.accept_closed ≡ false
    → close_channel ref join_accepted s j ≡ store ref (record s { accept_closed = true }) j
unfolding close_channel
first_closes ref s j fresh =
    if_lem (λ k. k ≡ store ref (record s { accept_closed = true }) j) _ _ s.accept_closed (λ e. cc)
      (λ e. refl)

second_panics :
    (sid : String) (ref : ℕ) (s : JoinSession) (j : JoinManager)
    → j.current ≡ some ref
    → s.session_id ≡ sid
    → (on_friend_join j.peer_pmid sid join_accepted
        (store ref (record s { accept_closed = true }) j)).panicked
      ≡ true
unfolding close_channel
second_panics sid ref s j cur same =
    let t = record s { accept_closed = true } in
    let k = store ref t j in
    ap (λ x. x.panicked)
      (verdict_current sid join_accepted ref t k (session_found ref t k cur (lookup_stored ref t j))
        same)

-- When the session in progress has not been accepted yet, two JOIN_ACCEPTED of the peer for it
-- make the handler close a closed channel, which panics there (`safeCall` in
-- internal/signaling/client.go recovers).
accepted_twice_panics :
    (sid : String) (ref : ℕ) (s : JoinSession) (j : JoinManager)
    → j.current ≡ some ref
    → lookup ref j.heap ≡ some s
    → s.session_id ≡ sid
    → s.accept_closed ≡ false
    → (on_friend_join j.peer_pmid sid join_accepted
        (on_friend_join j.peer_pmid sid join_accepted j)).panicked
      ≡ true
accepted_twice_panics sid ref s j cur at same fresh =
    rw (verdict_current sid join_accepted ref s j (session_found ref s j cur at) same)
      (rw (first_closes ref s j fresh) (second_panics sid ref s j cur same))
