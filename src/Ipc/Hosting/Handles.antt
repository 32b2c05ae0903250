-- ===== src/Ipc/Hosting/Handles.antt =====
-- internal/ipc/methods_host.go: the handles that run and those that the state holds.
use open_friend_mc.Prelude.{
  ℕ, suc, ◌<◌, ◌≡◌, refl, ap, ◌∙◌, sym, arith, Bool, true, false, not, ◌&&◌, ◌||◌, List, [], ◌∷◌,
  ◌++◌, Bool-cases, inl, inr, ◌⊎◌,
}
use open_friend_mc.Ipc.Hosting.{
  Handle, World, same_handle, same_handle→eq, same_handle_refl, without, close_handles, number,
}

unfoldable pub has : Handle → List Handle → Bool
has h [] = false
has h (g ∷ gs) = same_handle g h || has h gs

or_assoc : (a b c : Bool) → ((a || b) || c) ≡ (a || (b || c))
or_assoc true b c = refl
or_assoc false b c = refl

has-++ : (h : Handle) (l m : List Handle) → has h (l ++ m) ≡ (has h l || has h m)
unfolding has
has-++ h [] m = refl
has-++ h (g ∷ gs) m =
    ap (λ b. same_handle g h || b) (has-++ h gs m)
    ∙ sym (or_assoc (same_handle g h) (has h gs) (has h m))

and_false : (a : Bool) → (a && false) ≡ false
and_false true = refl
and_false false = refl

absorb : (a b : Bool) → (b && not a) ≡ ((a || b) && not a)
absorb true b = and_false b
absorb false b = refl

push_in : (a b c : Bool) → ((a ≡ true) → c ≡ false) → (a || (b && not c)) ≡ ((a || b) && not c)
push_in true b c off = rw (off refl)
push_in false b c off = refl

differs :
    (g h x : Handle) → same_handle x g ≡ false → same_handle x h ≡ true → same_handle g h ≡ false
unfolding same_handle
differs g h x e same =
    let x_h : x ≡ h = same_handle→eq x h same in
    elim (Bool-cases (same_handle g h)) [
      | inl g_h ↦
          let g_eq : g ≡ h = same_handle→eq g h g_h in
          let self : same_handle h h ≡ true = same_handle_refl h in cc
      | inr off ↦ off
    ]

has-without :
    (h g : Handle) (l : List Handle) → has h (without g l) ≡ (has h l && not (same_handle g h))
unfolding has without
has-without h g [] = refl
has-without h g (x ∷ xs) = elim (Bool-cases (same_handle x g)) [
  | inl e ↦
      rw e (rw (same_handle→eq x g e) (has-without h g xs ∙ absorb (same_handle g h) (has h xs)))
  | inr e ↦ rw e (
      rw (has-without h g xs)
        (push_in (same_handle x h) (has h xs) (same_handle g h) (differs g h x e)))
]

and_not_or : (a b c : Bool) → ((a && not b) && not c) ≡ (a && not (b || c))
and_not_or a true c = rw (and_false a) refl
and_not_or true false c = refl
and_not_or false false c = refl

and_true : (a : Bool) → (a && true) ≡ a
and_true true = refl
and_true false = refl

-- Closing handles takes just these from what runs.
pub has-close_handles :
    (h : Handle) (hs : List Handle) (w : World)
    → has h (close_handles hs w).live ≡ (has h w.live && not (has h hs))
unfolding close_handles has
has-close_handles h [] w = sym (and_true (has h w.live))
has-close_handles h (g ∷ gs) w =
    has-close_handles h gs (record w { live = without g w.live })
    ∙ rw (has-without h g w.live) (and_not_or (has h w.live) (same_handle g h) (has h gs))

pub close_handles_host : (hs : List Handle) (w : World) → (close_handles hs w).host ≡ w.host
unfolding close_handles
close_handles_host [] w = refl
close_handles_host (g ∷ gs) w = close_handles_host gs (record w { live = without g w.live })

pub close_handles_next :
    (hs : List Handle) (w : World) → (close_handles hs w).next_handle ≡ w.next_handle
unfolding close_handles
close_handles_next [] w = refl
close_handles_next (g ∷ gs) w = close_handles_next gs (record w { live = without g w.live })

-- What runs is what the host and the join hold, they share nothing, and the next handle is new.
pub record Holds (live host join : List Handle) (next : ℕ) : Type 0 where
  pub exact : (h : Handle) → has h live ≡ (has h host || has h join)
  pub apart : (h : Handle) → has h host ≡ true → has h join ≡ false
  pub fresh : (h : Handle) → has h live ≡ true → number h < next

pub record Owned (w : World) : Type 0 where
  pub holds : Holds w.live w.host.host_handles w.host.join_handles w.next_handle
  pub no_host : w.host.running ≡ false → w.host.host_handles ≡ []
  pub no_join : w.host.join_running ≡ false → w.host.join_handles ≡ []

take_first : (a b : Bool) → ((a ≡ true) → b ≡ false) → ((a || b) && not a) ≡ b
take_first true b off = sym (off refl)
take_first false true off = refl
take_first false false off = refl

take_second : (a b : Bool) → ((a ≡ true) → b ≡ false) → ((a || b) && not b) ≡ (a || false)
take_second true b off = rw (off refl) refl
take_second false true off = refl
take_second false false off = refl

and_first : (a b : Bool) → (a && b) ≡ true → a ≡ true
and_first true b e = refl
and_first false b e = e

pub or_split : (a b : Bool) → (a || b) ≡ true → (a ≡ true) ⊎ (b ≡ true)
or_split true b e = inl refl
or_split false b e = inr e

or_second : (a b : Bool) → b ≡ true → (a || b) ≡ true
or_second true b e = refl
or_second false b e = e

pub release_host :
    {live live' host join : List Handle} {next : ℕ}
    → Holds live host join next
    → ((h : Handle) → has h live' ≡ (has h live && not (has h host)))
    → Holds live' [] join next
unfolding has
release_host {live = live} {host = host} {join = join} v closed = record {
  exact = λ h. closed h ∙ rw (v.exact h) (take_first (has h host) (has h join) (v.apart h));
  apart = λ h e. cc;
  fresh = λ h e. v.fresh h (and_first (has h live) (not (has h host)) (sym (closed h) ∙ e));
}

pub release_join :
    {live live' host join : List Handle} {next : ℕ}
    → Holds live host join next
    → ((h : Handle) → has h live' ≡ (has h live && not (has h join)))
    → Holds live' host [] next
unfolding has
release_join {live = live} {host = host} {join = join} v closed = record {
  exact = λ h. closed h ∙ rw (v.exact h) (take_second (has h host) (has h join) (v.apart h));
  apart = λ h e. refl;
  fresh = λ h e. v.fresh h (and_first (has h live) (not (has h join)) (sym (closed h) ∙ e));
}

grown :
    {next : ℕ} (live s : List Handle)
    → ((h : Handle) → has h live ≡ true → number h < next)
    → ((h : Handle) → has h s ≡ true → number h ≡ next)
    → (h : Handle) → has h (s ++ live) ≡ true
    → number h < suc next
grown live s fresh at h e = elim (or_split (has h s) (has h live) (sym (has-++ h s live) ∙ e)) [
  | inl new ↦ let here = at h new in omega arith
  | inr old ↦ let below = fresh h old in omega arith
]

not_held : (n m : ℕ) (b : Bool) → n ≡ m → ((b ≡ true) → n < m) → b ≡ false
not_held n m true e below = let less = below refl in absurd (omega arith)
not_held n m false e below = refl

pub add_host :
    {live join : List Handle} {next : ℕ} (s : List Handle)
    → Holds live [] join next
    → ((h : Handle) → has h s ≡ true → number h ≡ next)
    → Holds (s ++ live) s join (suc next)
unfolding has
add_host {live = live} {join = join} {next = next} s v at = record {
  exact = λ h. has-++ h s live ∙ ap (λ b. has h s || b) (v.exact h);
  apart = λ h e. not_held (number h) next (has h join) (at h e) (λ j. v.fresh h (v.exact h ∙ j));
  fresh = grown live s v.fresh at;
}

or_comm : (a b : Bool) → (a || b) ≡ (b || a)
or_comm true true = refl
or_comm true false = refl
or_comm false true = refl
or_comm false false = refl

or_false : (a : Bool) → (a || false) ≡ a
or_false true = refl
or_false false = refl

pub add_join :
    {live host : List Handle} {next : ℕ} (s : List Handle)
    → Holds live host [] next
    → ((h : Handle) → has h s ≡ true → number h ≡ next)
    → Holds (s ++ live) host s (suc next)
unfolding has
add_join {live = live} {host = host} {next = next} s v at = record {
  exact = λ h.
      has-++ h s live
      ∙ ap (λ b. has h s || b) (v.exact h ∙ or_false (has h host))
      ∙ or_comm (has h s) (has h host);
  apart = λ h e. elim (Bool-cases (has h s)) [
    | inl f ↦
        let below : number h < next = v.fresh h (v.exact h ∙ or_false (has h host) ∙ e) in
        let here = at h f in absurd (omega arith)
    | inr off ↦ off
  ];
  fresh = grown live s v.fresh at;
}
