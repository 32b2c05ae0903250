-- ===== src/Ipc/Hosting/Leaks.antt =====
-- internal/ipc/methods_host.go: what still runs after any sequence of host and join requests.
use mathlib.Core.Path.{subst}
use open_friend_mc.Prelude.{
  ℕ, ◌≡◌, refl, ap, ◌∙◌, sym, Bool, true, false, not, List, [], ◌∷◌, Option, Result, ok, err, ◌>>◌,
  ◌>>=◌, fail_if, is_empty, if_lem, inl, inr,
}
use open_friend_mc.Prelude.Text.{Text, trim_space}
use open_friend_mc.Ipc.Hosting.{
  Handle, sig, pm, bc, jm, Peer, RpcError, JoinAnswer, not_authenticated, already_running,
  invalid_params, bypass_bytes, cleared_join, cleared_host, stop_running_host, close_join,
  store_join, bind_join, bound_address, start_join, switch_join, same_join, resolve_join_peer,
  checked_join, join_checks, answer_start, World, HostStartRequest, JoinStartRequest, same_handle,
  same_handle→eq, number, host_start, host_stop, join_start, join_stop, host_start_checks,
  host_start_commit,
}
use open_friend_mc.Ipc.Hosting.Handles.{
  has, has-close_handles, close_handles_host, close_handles_next, Holds, Owned, or_split,
  release_host, release_join, add_host, add_join,
}

pub data Request : Type 0 where
  start_host : HostStartRequest → Request
  stop_host : Request
  start_to_join : JoinStartRequest → Request
  stop_join : Request

pub serve : World → Request → World
serve w (start_host r) = (host_start r w).0
serve w stop_host = host_stop w
serve w (start_to_join r) = (join_start r w).0
serve w stop_join = join_stop w

pub serve_all : World → List Request → World
serve_all w [] = w
serve_all w (r ∷ rs) = serve_all (serve w r) rs

number_at_first :
    (h g : Handle) (rest : List Handle) (n : ℕ)
    → number g ≡ n
    → (has h rest ≡ true → number h ≡ n)
    → has h (g ∷ rest) ≡ true
    → number h ≡ n
unfolding has
number_at_first h g rest n here later e = elim (or_split (same_handle g h) (has h rest) e) [
  | inl same ↦ ap number (sym (same_handle→eq g h same)) ∙ here
  | inr more ↦ later more
]

none_in : (h : Handle) {A : Type 0} → has h [] ≡ true → A
unfolding has
none_in h e = cc

pub host_start_commit-Owned :
    (started : Text × Option (List ℕ)) (w : World)
    → Owned w
    → w.host.running ≡ false
    → Owned (host_start_commit started w)
unfolding host_start_commit
host_start_commit-Owned (target, key) w v stopped = record {
  holds =
      add_host (sig w.next_handle ∷ pm w.next_handle ∷ bc w.next_handle ∷ [])
        (subst (λ l. Holds w.live l w.host.join_handles w.next_handle) (v.no_host stopped) v.holds)
        (λ h. number_at_first h _ _ w.next_handle refl (
          number_at_first h _ _ w.next_handle refl
            (number_at_first h _ [] w.next_handle refl (λ e. none_in h e))));
  no_host = λ e. cc;
  no_join = v.no_join;
}

stop_running_host-Owned : (w : World) → Owned w → Owned (stop_running_host w)
unfolding stop_running_host cleared_host
stop_running_host-Owned w v =
    let hs = w.host.host_handles in
    rw (close_handles_host hs (cleared_host w)) record {
      holds =
          rw (close_handles_next hs (cleared_host w))
            (release_host v.holds (λ h. has-close_handles h hs (cleared_host w)));
      no_host = λ e. refl;
      no_join = v.no_join;
    }

pub host_stop-Owned : (w : World) → Owned w → Owned (host_stop w)
unfolding host_stop
host_stop-Owned w v = if_lem Owned _ _ w.host.running (λ e. stop_running_host-Owned w v) (λ e. v)

close_join-Owned : (w : World) → Owned w → Owned (close_join w)
unfolding close_join cleared_join
close_join-Owned w v =
    let hs = w.host.join_handles in
    rw (close_handles_host hs (cleared_join w)) record {
      holds =
          rw (close_handles_next hs (cleared_join w))
            (release_join v.holds (λ h. has-close_handles h hs (cleared_join w)));
      no_host = v.no_host;
      no_join = λ e. refl;
    }

pub close_join_empty : (w : World) → (close_join w).host.join_handles ≡ []
unfolding close_join cleared_join
close_join_empty w = rw (close_handles_host w.host.join_handles (cleared_join w)) refl

pub join_stop-Owned : (w : World) → Owned w → Owned (join_stop w)
unfolding join_stop
join_stop-Owned w v =
    let closed = close_join-Owned w v in
    if_lem Owned _ _ w.host.join_running
      (λ e. record { holds = closed.holds; no_host = closed.no_host; no_join = closed.no_join })
      (λ e. v)

store_join-Owned :
    (w : World) (peer : Peer) (listen : Text)
    → Owned w
    → w.host.join_handles ≡ []
    → Owned (store_join w peer listen).0
unfolding store_join
store_join-Owned w peer listen v empty = record {
  holds =
      add_join (jm w.next_handle ∷ sig w.next_handle ∷ [])
        (subst (λ l. Holds w.live w.host.host_handles l w.next_handle) empty v.holds)
        (λ h.
          number_at_first h _ _ w.next_handle refl
            (number_at_first h _ [] w.next_handle refl (λ e. none_in h e)));
  no_host = v.no_host;
  no_join = λ e. cc;
}

bind_join-Owned :
    (w : World) (r : JoinStartRequest) (peer : Peer) (bound : Result RpcError Text)
    → Owned w
    → w.host.join_handles ≡ []
    → Owned (bind_join w r peer bound).0
unfolding bind_join
bind_join-Owned w r peer (err e) v empty = v
bind_join-Owned w r peer (ok listen) v empty = store_join-Owned w peer listen v empty

start_join-Owned :
    (w : World) (r : JoinStartRequest) (peer : Result RpcError Peer)
    → Owned w
    → w.host.join_handles ≡ []
    → Owned (start_join w r peer).0
unfolding start_join
start_join-Owned w r (err e) v empty = v
start_join-Owned w r (ok peer) v empty = bind_join-Owned w r peer (bound_address r) v empty

switch_join-Owned : (r : JoinStartRequest) (w : World) → Owned w → Owned (switch_join r w).0
unfolding switch_join
switch_join-Owned r w v =
    if_lem (λ (x : World × Result RpcError JoinAnswer). Owned x.0) _ _ (same_join r w) (λ e. v)
      λ e.
        start_join-Owned (close_join w) r (resolve_join_peer r) (close_join-Owned w v)
          (close_join_empty w)

checked_join-Owned :
    (r : JoinStartRequest) (w : World) (checks : Result RpcError (Unit {0}))
    → Owned w
    → Owned (checked_join r w checks).0
unfolding checked_join
checked_join-Owned r w (err e) v = v
checked_join-Owned r w (ok _) v = switch_join-Owned r w v

after :
    {E A : Type 0} (m : Result E (Unit {0})) (k : Result E A) (a : A) → (m >> k) ≡ ok a → k ≡ ok a
after (ok _) k a h = h
after (err e) k a h = cc

guard_ok :
    {E A : Type 0} (b : Bool) (e : E) (k : Result E A) (a : A)
    → (fail_if b e >> k) ≡ ok a
    → b ≡ false
guard_ok true e k a h = cc
guard_ok false e k a h = refl

pub host_start_checks-running :
    (r : HostStartRequest) (w : World) (a : Text × Option (List ℕ))
    → host_start_checks r w ≡ ok a
    → w.host.running ≡ false
unfolding host_start_checks
host_start_checks-running r w a h =
    let target = trim_space r.target in
    let tail : Result RpcError (Text × Option (List ℕ)) =
      bypass_bytes r >>= λ key. ok (target, key) in
    let on_state = fail_if w.host.running already_running >> tail in
    let on_address = fail_if (not r.target_ok) invalid_params >> on_state in
    let on_target = fail_if (is_empty target) invalid_params >> on_address in
    let on_params = fail_if (not r.params_ok) invalid_params >> on_target in
    guard_ok w.host.running already_running tail a (
      after (fail_if (not r.target_ok) invalid_params) on_state a (
        after (fail_if (is_empty target) invalid_params) on_address a (
          after (fail_if (not r.params_ok) invalid_params) on_target a
            (after (fail_if (not r.authenticated) not_authenticated) on_params a h))))

answer_start-Owned :
    (w : World) (checks : Result RpcError (Text × Option (List ℕ)))
    → Owned w
    → ((a : Text × Option (List ℕ)) → checks ≡ ok a → w.host.running ≡ false)
    → Owned (answer_start w checks).0
unfolding answer_start
answer_start-Owned w (err e) v stopped = v
answer_start-Owned w (ok (target, key)) v stopped =
    host_start_commit-Owned (target, key) w v (stopped (target, key) refl)

serve-Owned : (w : World) (r : Request) → Owned w → Owned (serve w r)
unfolding serve host_start join_start
serve-Owned w (start_host r) v =
    answer_start-Owned w (host_start_checks r w) v (host_start_checks-running r w)
serve-Owned w stop_host v = host_stop-Owned w v
serve-Owned w (start_to_join r) v = checked_join-Owned r w (join_checks r) v
serve-Owned w stop_join v = join_stop-Owned w v

pub serve_all-Owned : (w : World) (rs : List Request) → Owned w → Owned (serve_all w rs)
unfolding serve_all
serve_all-Owned w [] v = v
serve_all-Owned w (r ∷ rs) v = serve_all-Owned (serve w r) rs (serve-Owned w r v)
