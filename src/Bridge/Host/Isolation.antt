-- ===== src/Bridge/Host/Isolation.antt =====
-- What one session's end and one peer's messages cannot touch.
use open_friend_mc.Prelude.{
  ℕ, ◌%◌, ◌^◌, ◌≡◌, refl, sym, ap, ◌∙◌, arith, Bool, true, false, ◌&&◌, ◌||◌, [], ◌∷◌, ◌++◌, Option,
  none, some, String, ◌==◌, ==_iff, comparable_nat, comparable_string, if◌then◌else◌, Bool-cases,
  ◌⊎◌, inl, inr, ◌↔◌, some_inj,
}
use open_friend_mc.Prelude.Assoc.{lookup, lookup-erase}
use open_friend_mc.Bridge.HostSession.{HostSession}
use open_friend_mc.Bridge.Host.{
  HostManager, Candidate, removes, remove_session, accept_ice, find_ice, handle_ice,
}

removes_iff : (o : Option ℕ) (ref : ℕ) → (removes o ref ≡ true) ↔ (o ≡ some ref)
unfolding removes
removes_iff none ref = ground arith
removes_iff (some cur) ref = ground (arith, ==_iff cur ref)

pub lookup-remove_session :
    (sid s : String) (ref : ℕ) (p : HostManager)
    → lookup s (remove_session sid ref p).sessions
      ≡ (if sid == s && removes (lookup sid p.sessions) ref then none else lookup s p.sessions)
unfolding remove_session
lookup-remove_session sid s ref p = ground (arith, ==_iff sid s, lookup-erase sid s p.sessions)

-- The test of `remove_session` on the entries `a` of `sid` and `c` of another id, or of the same.
exact_entry :
    (b : Bool) (a c : Option ℕ) (ref r : ℕ)
    → (b ≡ true → c ≡ a)
    → ((if b && removes a ref then none else c) ≡ some r)
      ↔ ((c ≡ some r) × ¬ ((b ≡ true) × (r ≡ ref)))
unfolding removes
exact_entry false a c ref r same = (λ h. (h, λ q. cc), λ h. h.0)
exact_entry true none c ref r same = (λ h. let e = same refl in cc, λ h. h.0)
exact_entry true (some cur) c ref r same = elim (Bool-cases (cur == ref)) [
  | inl e ↦ rw e (
    λ h. cc,
    λ h. absurd (h.1 (refl, sym (some_inj (sym (same refl) ∙ h.0)) ∙ (==_iff cur ref).0 e)),
  )
  | inr e ↦ rw e (
    λ h. (h, λ q. let t = (==_iff cur ref).1 (some_inj (sym (same refl) ∙ h) ∙ q.1) in cc),
    λ h. h.0,
  )
]

-- `removeSession(sid, ps)`, once it has the lock, takes the entry of `sid` out when it leads to `ps`, and nothing else:
-- an entry is there afterwards exactly when it was there and is not the pair of `sid` and `ps`.
pub remove_session_exact :
    (sid s : String) (ref r : ℕ) (p : HostManager)
    → (lookup s (remove_session sid ref p).sessions ≡ some r)
      ↔ ((lookup s p.sessions ≡ some r) × ¬ ((sid ≡ s) × (r ≡ ref)))
remove_session_exact sid s ref r p = rw (lookup-remove_session sid s ref p) (
  λ h. let (c, n) = core.0 h in (c, λ q. n ((==_iff sid s).1 q.0, q.1)),
  λ h. core.1 (h.0, λ q. h.1 ((==_iff sid s).0 q.0, q.1)),
)
  where
    core :
        ((if sid == s && removes (lookup sid p.sessions) ref then none else lookup s p.sessions)
          ≡ some r)
        ↔ ((lookup s p.sessions ≡ some r) × ¬ (((sid == s) ≡ true) × (r ≡ ref)))
    core =
        exact_entry (sid == s) (lookup sid p.sessions) (lookup s p.sessions) ref r
          (λ e. ap (λ t. lookup t p.sessions) (sym ((==_iff sid s).0 e)))

abbrev pub with_ice : HostManager → ℕ → Candidate → HostManager
with_ice p ref d = record p {
  remote_ice =
      p.remote_ice ++ (ref, record d { sdp_mline_index = d.sdp_mline_index % 2 ^ 16 }) ∷ [];
}

module _ (from : ℕ) (d : Candidate) (p : HostManager) where
  accept_ice_owner :
      (ref : ℕ) (o : Option HostSession)
      → (accept_ice from d ref o p ≡ p)
        ⊎ ((ps : HostSession) × (o ≡ some ps)
            × (ps.from_pmid ≡ from)
            × (ps.rtc ≡ true)
            × (accept_ice from d ref o p ≡ with_ice p ref d))
  unfolding accept_ice
  accept_ice_owner ref none = inl refl
  accept_ice_owner ref (some ps) = elim (Bool-cases (ps.rtc && (ps.from_pmid == from))) [
    | inl e ↦ inr (ps, refl, ground (arith, ==_iff ps.from_pmid from), ground arith, rw e)
    | inr e ↦ inl (rw e)
  ]

  find_ice_owner :
      (sid : String) (o : Option ℕ)
      → lookup sid p.sessions ≡ o
      → (find_ice from d o p ≡ p)
        ⊎ ((ref : ℕ) × (ps : HostSession) × (lookup sid p.sessions ≡ some ref)
            × (lookup ref p.heap ≡ some ps)
            × (ps.from_pmid ≡ from)
            × (ps.rtc ≡ true)
            × (find_ice from d o p ≡ with_ice p ref d))
  unfolding find_ice
  find_ice_owner sid none e = inl refl
  find_ice_owner sid (some ref) e = elim (accept_ice_owner ref (lookup ref p.heap)) [
    | inl h ↦ inl h
    | inr (ps, at, q, r, h) ↦ inr (ref, ps, e, at, q, r, h)
  ]

-- A candidate reaches a session only under that session's id and from the friend who opened it, and
-- only once its peer connection is there; `handleICE` changes nothing else.
pub handle_ice_owner :
    (from : ℕ) (sid : String) (c : Option Candidate) (p : HostManager)
    → (handle_ice from sid c p ≡ p)
      ⊎ ((ref : ℕ) × (ps : HostSession) × (d : Candidate) × (c ≡ some d)
          × (lookup sid p.sessions ≡ some ref)
          × (lookup ref p.heap ≡ some ps)
          × (ps.from_pmid ≡ from)
          × (ps.rtc ≡ true)
          × (handle_ice from sid c p ≡ with_ice p ref d))
unfolding handle_ice
handle_ice_owner from sid none p = inl refl
handle_ice_owner from sid (some d) p = elim (Bool-cases (sid == "" || p.hung)) [
  | inl e ↦ inl (rw e)
  | inr e ↦ elim (find_ice_owner from d p sid (lookup sid p.sessions) refl) [
    | inl h ↦ inl (rw e h)
    | inr (ref, ps, at, at', q, r, h) ↦ inr (ref, ps, d, refl, at, at', q, r, rw e h)
  ]
]
