-- ===== src/Bridge/Host/Registry.antt =====
-- The table of sessions and the heap under every handler.
use mathlib.Core.Path.{subst}
use open_friend_mc.Prelude.{
  sym, ap, Bool, ◌&&◌, if_lem, ==_refl, ℕ, ◌<◌, ◌≡◌, refl, ◌∙◌, arith, true, false, Option, none,
  some, String, ◌==◌, ==_iff, comparable_nat, comparable_string, Bool-cases, some_inj, ◌⊎◌, inl,
  inr,
}
use open_friend_mc.Prelude.Assoc.{lookup, insert, lookup-insert}
use open_friend_mc.Bridge.HostSession.{HostSession}
use open_friend_mc.Bridge.HostSession.Closing.{Keeps, Keeps-self}
use open_friend_mc.Bridge.Host.{
  HostManager, remove_session, with_lock, called_on_close, reached, settle, update, on_session,
}
use open_friend_mc.Bridge.Host.Isolation.{remove_session_exact}

pub record Inv (p : HostManager) : Type 0 where
  -- An entry of the table leads to a session with that id.
  pub points :
      (sid : String) (ref : ℕ)
      → lookup sid p.sessions ≡ some ref
      → (ps : HostSession) × (lookup ref p.heap ≡ some ps) × (ps.sid ≡ sid)
  -- Pointers are handed out once.
  pub below : (ref : ℕ) (ps : HostSession) → lookup ref p.heap ≡ some ps → ref < p.next_ref
  -- A session that is not closed is in the table, under its id.
  pub registered :
      (ref : ℕ) (ps : HostSession)
      → lookup ref p.heap ≡ some ps
      → ps.closed ≡ false
      → lookup ps.sid p.sessions ≡ some ref

-- Everything under this pointer is closed.
abbrev pub ClosedAt : HostManager → ℕ → Type 0
ClosedAt p ref = (ps : HostSession) → lookup ref p.heap ≡ some ps → ps.closed ≡ true

-- From `p` to `q` the sessions live on.
pub record Evolves (p q : HostManager) : Type 0 where
  pub forth :
      (r : ℕ) (ps : HostSession)
      → lookup r p.heap ≡ some ps
      → (qs : HostSession) × (lookup r q.heap ≡ some qs) × Keeps ps qs
  pub back :
      (r : ℕ) (qs : HostSession)
      → lookup r q.heap ≡ some qs
      → (ps : HostSession) × (lookup r p.heap ≡ some ps) × Keeps ps qs
  pub same_next : q.next_ref ≡ p.next_ref

open_before : {ps qs : HostSession} → Keeps ps qs → qs.closed ≡ false → ps.closed ≡ false
open_before {ps} {qs} k o = elim (Bool-cases ps.closed) [
  | inl e ↦ let c = k.stays_closed e in cc
  | inr e ↦ e
]

pub Evolves-Inv : {p q : HostManager} → Evolves p q → q.sessions ≡ p.sessions → Inv p → Inv q
Evolves-Inv {p} {q} e same_table v = record {
  points = λ sid ref h.
      let (ps, at, s) = v.points sid ref (rw same_table at h) in
      let (qs, at', k) = e.forth ref ps at in (qs, at', k.same_sid ∙ s);
  below = λ ref qs h. let (ps, at, k) = e.back ref qs h in rw e.same_next (v.below ref ps at);
  registered = λ ref qs h o.
      let (ps, at, k) = e.back ref qs h in
      rw (same_table, k.same_sid) (v.registered ref ps at (open_before k o));
}

pub reached-Keeps :
    (held : Bool) (ps qs : HostSession) → Keeps ps qs → Keeps ps (reached held ps qs)
reached-Keeps held ps qs k =
    if_lem (Keeps ps) _ _ (called_on_close ps qs && held)
      (λ e. record {
        same_sid = k.same_sid;
        same_pmid = k.same_pmid;
        stays_closed = k.stays_closed;
        calls = k.calls;
      })
      (λ e. k)

pub reached-closed : (held : Bool) (ps qs : HostSession) → (reached held ps qs).closed ≡ qs.closed
reached-closed held ps qs =
    if_lem (λ (t : HostSession). t.closed ≡ qs.closed) _ _ (called_on_close ps qs && held)
      (λ e. refl) (λ e. refl)

-- Another state of one session, its table and its lock apart.
pub put-Evolves :
    (ref : ℕ) (ps qs : HostSession) (p q : HostManager)
    → lookup ref p.heap ≡ some ps
    → Keeps ps qs
    → q.heap ≡ insert ref qs p.heap
    → q.next_ref ≡ p.next_ref
    → Evolves p q
put-Evolves ref ps qs p q held k heap next = record {
  forth = λ r rs h. moved r rs h (Bool-cases (ref == r));
  back = λ r rs h. origin r rs h (Bool-cases (ref == r));
  same_next = next;
}
  where
    moved :
        (r : ℕ) (rs : HostSession)
        → lookup r p.heap ≡ some rs
        → ((ref == r) ≡ true) ⊎ ((ref == r) ≡ false)
        → (ts : HostSession) × (lookup r q.heap ≡ some ts) × Keeps rs ts
    moved r rs h (inl e) =
        let same : ps ≡ rs =
          some_inj (sym held ∙ (ap (λ t. lookup t p.heap) ((==_iff ref r).0 e) ∙ h)) in
        (qs, rw (heap, lookup-insert ref r qs p.heap, e) refl, subst (λ t. Keeps t qs) same k)
    moved r rs h (inr e) = (rs, rw (heap, lookup-insert ref r qs p.heap, e) h, Keeps-self rs)

    origin :
        (r : ℕ) (rs : HostSession)
        → lookup r q.heap ≡ some rs
        → ((ref == r) ≡ true) ⊎ ((ref == r) ≡ false)
        → (ts : HostSession) × (lookup r p.heap ≡ some ts) × Keeps ts rs
    origin r rs h (inl e) =
        let same : some qs ≡ some rs = rw (heap, lookup-insert ref r qs p.heap, e) at h in
        (
          ps,
          ap (λ t. lookup t p.heap) (sym ((==_iff ref r).0 e)) ∙ held,
          subst (Keeps ps) (some_inj same) k,
        )
    origin r rs h (inr e) =
        let same : lookup r p.heap ≡ some rs = rw (heap, lookup-insert ref r qs p.heap, e) at h in
        (rs, same, Keeps-self rs)

pub remove_session-same :
    (sid : String) (ref : ℕ) (p : HostManager)
    → ((remove_session sid ref p).heap ≡ p.heap)
      × ((remove_session sid ref p).next_ref ≡ p.next_ref)
unfolding remove_session
remove_session-same sid ref p = ground arith

pub remove_session-Inv :
    (sid : String) (ref : ℕ) (p : HostManager)
    → ClosedAt p ref
    → Inv p
    → Inv (remove_session sid ref p)
remove_session-Inv sid ref p shut v =
    let (heap_same, next_same) = remove_session-same sid ref p in
    record {
      points = λ s r e.
          let (ps, at, i) = v.points s r ((remove_session_exact sid s ref r p).0 e).0 in
          (ps, rw heap_same at, i);
      below = λ r ps e. rw next_same (v.below r ps (rw heap_same at e));
      registered = λ r ps e o.
          let at = rw heap_same at e in
          (remove_session_exact sid ps.sid ref r p).1
            (v.registered r ps at o, λ q. still_open ps at o q.1);
    }
  where
    still_open :
        {r : ℕ} (ps : HostSession) → lookup r p.heap ≡ some ps → ps.closed ≡ false → r ≡ ref → ⊥
    still_open {r} ps at o e = let c = shut ps (subst (λ t. lookup t p.heap ≡ some ps) e at) in cc

pub with_lock_lem :
    (P : HostManager → Type 0) (f : HostManager → HostManager) (p : HostManager)
    → P p
    → P (f p)
    → P (with_lock f p)
with_lock_lem P f p waits runs = if_lem P _ _ p.hung (λ e. waits) (λ e. runs)

-- The sessions after `removeSession`, which may wait.
removed-Evolves :
    (sid : String) (ref : ℕ) (p q : HostManager)
    → Evolves p q
    → Evolves p (with_lock (remove_session sid ref) q)
removed-Evolves sid ref p q e = with_lock_lem (Evolves p) (remove_session sid ref) q e (record {
  forth = λ r ps h.
      let (qs, at, k) = e.forth r ps h in (qs, rw (remove_session-same sid ref q).0 at, k);
  back = λ r qs h. e.back r qs (rw (remove_session-same sid ref q).0 at h);
  same_next = (remove_session-same sid ref q).1 ∙ e.same_next;
})

-- The state that `settle` leaves before `removeSession`.
abbrev settled : ℕ → HostSession → HostSession → HostManager → HostManager
settled ref ps qs p = record p { heap = insert ref (reached p.hung ps qs) p.heap }

settled-Evolves :
    (ref : ℕ) (ps qs : HostSession) (p : HostManager)
    → lookup ref p.heap ≡ some ps
    → Keeps ps qs
    → Evolves p (settled ref ps qs p)
settled-Evolves ref ps qs p at k =
    put-Evolves ref ps (reached p.hung ps qs) p (settled ref ps qs p) at
      (reached-Keeps p.hung ps qs k) refl refl

settle-Evolves :
    (ref : ℕ) (ps qs : HostSession) (p : HostManager)
    → lookup ref p.heap ≡ some ps
    → Keeps ps qs
    → Evolves p (settle ref ps qs p)
unfolding settle
settle-Evolves ref ps qs p at k =
    let e = settled-Evolves ref ps qs p at k in
    if_lem (Evolves p) _ _ (called_on_close ps qs) (λ c. removed-Evolves ps.sid ref p _ e) (λ c. e)

-- Where `onClose` was called, the session is closed.
called_closed :
    (ps qs : HostSession) → Keeps ps qs → called_on_close ps qs ≡ true → qs.closed ≡ true
called_closed ps qs k c = elim k.calls [
  | inl e ↦ let same = (==_iff qs.callbacks ps.callbacks).1 e in absurd (cc)
  | inr e ↦ e
]

settled-ClosedAt :
    (ref : ℕ) (ps qs : HostSession) (p : HostManager)
    → qs.closed ≡ true
    → ClosedAt (settled ref ps qs p) ref
settled-ClosedAt ref ps qs p shut rs h =
    let same : some (reached p.hung ps qs) ≡ some rs =
      rw (lookup-insert ref ref (reached p.hung ps qs) p.heap, ==_refl ref) at h in
    ap (λ t. t.closed) (sym (some_inj same)) ∙ (reached-closed p.hung ps qs ∙ shut)

settle-Inv :
    (ref : ℕ) (ps qs : HostSession) (p : HostManager)
    → lookup ref p.heap ≡ some ps
    → Keeps ps qs
    → Inv p
    → Inv (settle ref ps qs p)
unfolding settle
settle-Inv ref ps qs p at k v =
    let w = Evolves-Inv (settled-Evolves ref ps qs p at k) refl v in
    if_lem Inv _ _ (called_on_close ps qs)
      (λ c. with_lock_lem Inv (remove_session ps.sid ref) (settled ref ps qs p) w (
        remove_session-Inv ps.sid ref (settled ref ps qs p)
          (settled-ClosedAt ref ps qs p (called_closed ps qs k c)) w))
      (λ c. w)

pub settle-ClosedAt :
    (ref : ℕ) (ps qs : HostSession) (p : HostManager)
    → qs.closed ≡ true
    → ClosedAt (settle ref ps qs p) ref
unfolding settle
settle-ClosedAt ref ps qs p shut =
    let c = settled-ClosedAt ref ps qs p shut in
    if_lem (λ (q : HostManager). ClosedAt q ref) _ _ (called_on_close ps qs)
      (λ e.
        with_lock_lem (λ (q : HostManager). ClosedAt q ref) (remove_session ps.sid ref)
          (settled ref ps qs p) c
          (λ rs h. c rs (rw (remove_session-same ps.sid ref (settled ref ps qs p)).0 at h)))
      (λ e. c)

pub Evolves-refl : (p : HostManager) → Evolves p p
Evolves-refl p = record {
  forth = λ r ps h. (ps, h, Keeps-self ps);
  back = λ r ps h. (ps, h, Keeps-self ps);
  same_next = refl;
}

module _ (f : HostSession → HostSession) (ref : ℕ) (p : HostManager)
    (keeps : (ps : HostSession) → Keeps ps (f ps)) where
  update-Evolves : (o : Option HostSession) → lookup ref p.heap ≡ o → Evolves p (update f ref o p)
  unfolding update
  update-Evolves none e = Evolves-refl p
  update-Evolves (some ps) e = settle-Evolves ref ps (f ps) p e (keeps ps)

  pub on_session-Evolves : Evolves p (on_session f ref p)
  unfolding on_session
  on_session-Evolves = update-Evolves (lookup ref p.heap) refl

  update-Inv : (o : Option HostSession) → lookup ref p.heap ≡ o → Inv p → Inv (update f ref o p)
  unfolding update
  update-Inv none e v = v
  update-Inv (some ps) e v = settle-Inv ref ps (f ps) p e (keeps ps) v

  pub on_session-Inv : Inv p → Inv (on_session f ref p)
  unfolding on_session
  on_session-Inv v = update-Inv (lookup ref p.heap) refl v
