-- ===== src/Bridge/Host/Hanging.antt =====
-- internal/bridge/host.go: `startSession` closes a session that it replaces while it holds the lock.
use open_friend_mc.Prelude.{
  ℕ, ◌≡◌, refl, ap, ◌∙◌, true, false, ◌&&◌, ◌||◌, List, [], ◌∷◌, Bytes, Option, some, none, String,
  ◌==◌, comparable_nat, comparable_string, if_lem, arith, suc,
}
use open_friend_mc.Prelude.Assoc.{lookup}
use open_friend_mc.Bridge.Tcp.{TcpBridge, close_bridge}
use open_friend_mc.Bridge.HostSession.{HostSession, called_back, close, attach_tcp, read_ended}
use open_friend_mc.Bridge.Host.{
  HostManager, Started, on_session, update, settle, with_lock, called_on_close, remove_session,
  close_locked, close_previous, enter, register, finish_start, start_session, handle_offer,
  on_join_request, send, drop_session, channel_open, handle_ice, close_all,
}
use open_friend_mc.Bridge.Host.Runs.{
  Event, join_request, offer, ice, peer_data, opened, dropped, server_ended, shutdown, step, run,
}

-- The table is as it was, and the lock still held.
record Stuck (p q : HostManager) : Type 0 where
  table : q.sessions ≡ p.sessions
  held : q.hung ≡ true

settle-Stuck :
    (ref : ℕ) (ps qs : HostSession) (p : HostManager) → p.hung ≡ true → Stuck p (settle ref ps qs p)
unfolding settle
settle-Stuck ref ps qs p h =
    if_lem (Stuck p) _ _ (called_on_close ps qs)
      (λ e. simp h (record { table = refl; held = refl })) (λ e. record { table = refl; held = h })

on_session-Stuck :
    (f : HostSession → HostSession) (ref : ℕ) (p : HostManager)
    → p.hung ≡ true
    → Stuck p (on_session f ref p)
unfolding on_session update
on_session-Stuck f ref p h = found (lookup ref p.heap)
  where
    found : (o : Option HostSession) → Stuck p (update f ref o p)
    found none = record { table = refl; held = h }
    found (some ps) = settle-Stuck ref ps (f ps) p h

with_lock-Stuck :
    (f : HostManager → HostManager) (p q : HostManager) → Stuck p q → Stuck p (with_lock f q)
with_lock-Stuck f p q s = simp s.held s

module _ (hmac : Bytes → Bytes → Bytes) (bypass_key : Option Bytes) where
  step-Stuck : (p : HostManager) (e : Event) → p.hung ≡ true → Stuck p (step hmac bypass_key p e)
  unfolding step on_join_request send handle_offer drop_session channel_open handle_ice
  step-Stuck p (join_request from sid reachable) h =
      if_lem (Stuck p) _ _ reachable (λ e. record { table = refl; held = h })
        (λ e. record { table = refl; held = h })
  step-Stuck p (offer from sid has_sdp turn_ok outcome) h =
      if_lem (Stuck p) _ _ (has_sdp && turn_ok)
        (λ e.
          with_lock-Stuck (start_session from sid outcome) p p (record { table = refl; held = h }))
        (λ e. record { table = refl; held = h })
  step-Stuck p (ice from sid none) h = record { table = refl; held = h }
  step-Stuck p (ice from sid (some c)) h =
      let stop : (sid == "" || p.hung) ≡ true = ground arith in
      let same : Stuck p p = record { table = refl; held = h } in simp stop same
  step-Stuck p (peer_data ref random bytes) h = on_session-Stuck _ ref p h
  step-Stuck p (opened ref dialled) h = on_session-Stuck (attach_tcp dialled) ref p h
  step-Stuck p (dropped ref sid) h =
      with_lock-Stuck (remove_session sid ref) p (on_session close ref p)
        (on_session-Stuck close ref p h)
  step-Stuck p (server_ended ref) h = on_session-Stuck read_ended ref p h
  step-Stuck p shutdown h = with_lock-Stuck close_all p p (record { table = refl; held = h })

  run-Stuck :
      (es : List Event) (p : HostManager) → p.hung ≡ true → Stuck p (run hmac bypass_key p es)
  unfolding run
  run-Stuck [] p h = record { table = refl; held = h }
  run-Stuck (e ∷ es) p h =
      let s = step-Stuck p e h in
      let t = run-Stuck es (step hmac bypass_key p e) s.held in
      record { table = t.table ∙ s.table; held = t.held }

  suc_other : (n : ℕ) → (suc n == n) ≡ false
  suc_other n = ground arith

  live_calls : (b : TcpBridge) → b.is_closed ≡ false → called_back (some b) ≡ true
  unfolding close_bridge
  live_calls b live = rw live refl

  close_calls :
      (ps : HostSession) (b : TcpBridge)
      → ps.closed ≡ false
      → ps.tcp ≡ some b
      → b.is_closed ≡ false
      → (close ps).callbacks ≡ suc ps.callbacks
  unfolding close
  close_calls ps b open_ held live =
      let called : called_back ps.tcp ≡ true = ap called_back held ∙ live_calls b live in
      simp (open_, called) refl

  close_locked-Stuck :
      (prev : ℕ) (ps : HostSession) (b : TcpBridge) (p : HostManager)
      → ps.closed ≡ false
      → ps.tcp ≡ some b
      → b.is_closed ≡ false
      → Stuck p (close_locked prev (some ps) p)
  unfolding close_locked
  close_locked-Stuck prev ps b p open_ held live = record {
    table = refl;
    held = simp (close_calls ps b open_ held live, suc_other ps.callbacks) refl;
  }

  start_session-Stuck :
      (from prev : ℕ) (sid : String) (outcome : Started) (ps : HostSession) (b : TcpBridge)
      (p : HostManager)
      → lookup sid p.sessions ≡ some prev
      → lookup prev p.heap ≡ some ps
      → ps.closed ≡ false
      → ps.tcp ≡ some b
      → b.is_closed ≡ false
      → Stuck p (start_session from sid outcome p)
  unfolding start_session register close_previous
  start_session-Stuck from prev sid outcome ps b p entry at open_ held live =
      let s = close_locked-Stuck prev ps b p open_ held live in
      with_lock-Stuck (finish_start from sid p.next_ref outcome) p (register from sid p) (
        with_lock-Stuck (enter from sid) p (close_previous (lookup sid p.sessions) p)
          (simp (entry, at) s))

  -- An offer for the id of a session that is open and has a bridge to the server: `startSession` closes
  -- that session under the lock, and waits for good. After any further events the lock is still held
  -- and the table what it was before the offer.
  pub offer_hangs :
      (from prev : ℕ) (sid : String) (outcome : Started) (ps : HostSession) (b : TcpBridge)
      (p : HostManager) (es : List Event)
      → p.hung ≡ false
      → lookup sid p.sessions ≡ some prev
      → lookup prev p.heap ≡ some ps
      → ps.closed ≡ false
      → ps.tcp ≡ some b
      → b.is_closed ≡ false
      → let q =
          run hmac bypass_key (step hmac bypass_key p (offer from sid true true outcome)) es in
        (q.hung ≡ true) × (q.sessions ≡ p.sessions)
  unfolding step handle_offer
  offer_hangs from prev sid outcome ps b p es free entry at open_ held live =
      let one : Stuck p (step hmac bypass_key p (offer from sid true true outcome)) =
        simp free (start_session-Stuck from prev sid outcome ps b p entry at open_ held live) in
      let more =
        run-Stuck es (step hmac bypass_key p (offer from sid true true outcome)) one.held in
      (more.held, more.table ∙ one.table)
