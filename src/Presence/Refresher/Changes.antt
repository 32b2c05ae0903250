-- ===== src/Presence/Refresher/Changes.antt =====
-- internal/presence/refresher.go: the changes between two answers, replayed.
use open_friend_mc.Prelude.{
  ℕ, ◌≡◌, refl, ap, ◌∙◌, sym, arith, Bool, true, false, not, ◌&&◌, ◌||◌, List, [], ◌∷◌, ◌++◌,
  comparable_nat, ◌==◌, ==_iff, Bool-cases, inl, inr,
}
use open_friend_mc.Prelude.Assoc.{lookup, insert, lookup-insert}
use open_friend_mc.Api.Dtos.{FriendDto}
use open_friend_mc.Presence.Refresher.{
  FriendMap, knows, Change, added, removed, id_map, insert_all, additions, removals,
  diff_with_observer,
}

-- What a client that applies the changes holds.
abbrev pub apply_change : (ℕ → Bool) → Change → ℕ → Bool
apply_change s (added d) i = (d.profile_id == i) || s i
apply_change s (removed id) i = not (id == i) && s i

unfoldable pub replay : List Change → (ℕ → Bool) → ℕ → Bool
replay [] s i = s i
replay (c ∷ cs) s i = replay cs (apply_change s c) i

pub lists : List FriendDto → ℕ → Bool
lists [] i = false
lists (d ∷ ds) i = (d.profile_id == i) || lists ds i

knows-insert_all :
    (ds : List FriendDto) (m : FriendMap) (i : ℕ)
    → knows (insert_all ds m) i ≡ (lists ds i || knows m i)
unfolding insert_all lists
knows-insert_all [] m i = refl
knows-insert_all (d ∷ ds) m i =
    ground
      (arith, knows-insert_all ds (insert d.profile_id d m) i, lookup-insert d.profile_id i d m)

same_knows : (m : FriendMap) (j i : ℕ) (b : Bool) → knows m j ≡ b → (j == i) ≡ true → knows m i ≡ b
same_knows m j i b h same =
    let j_i : j ≡ i = (==_iff j i).0 same in ap (λ k. knows m k) (sym j_i) ∙ h

keep_old :
    (same l k s : Bool)
    → (same ≡ true → k ≡ true)
    → (s || (l && not k)) ≡ (s || ((same || l) && not k))
keep_old true true k s old = rw (old refl) refl
keep_old true false k s old = rw (old refl) refl
keep_old false l k s old = refl

add_new :
    (same l k s : Bool)
    → (same ≡ true → k ≡ false)
    → ((same || s) || (l && not k)) ≡ (s || ((same || l) && not k))
add_new true l k true new = refl
add_new true l k false new = rw (new refl) refl
add_new false l k s new = refl

replay-additions :
    (ds : List FriendDto) (known : FriendMap) (s : ℕ → Bool) (i : ℕ)
    → replay (additions ds known) s i ≡ (s i || (lists ds i && not (knows known i)))
unfolding replay additions lists
replay-additions [] known s i = ground arith
replay-additions (d ∷ ds) known s i = elim (Bool-cases (knows known d.profile_id)) [
  | inl e ↦ rw e (
      replay-additions ds known s i
      ∙ keep_old (d.profile_id == i) (lists ds i) (knows known i) (s i)
          (same_knows known d.profile_id i true e))
  | inr e ↦ rw e (
      replay-additions ds known (apply_change s (added d)) i
      ∙ add_new (d.profile_id == i) (lists ds i) (knows known i) (s i)
          (same_knows known d.profile_id i false e))
]

still_there :
    (same k c s : Bool)
    → (same ≡ true → c ≡ true)
    → (s && not (k && not c)) ≡ (s && not ((same || k) && not c))
still_there true true c s there = rw (there refl) refl
still_there true false c s there = rw (there refl) refl
still_there false k c s there = refl

now_gone :
    (same k c s : Bool)
    → (same ≡ true → c ≡ false)
    → ((not same && s) && not (k && not c)) ≡ (s && not ((same || k) && not c))
now_gone true k c true gone = rw (gone refl) refl
now_gone true k c false gone = refl
now_gone false k c s gone = refl

knows_first :
    (gone : ℕ) (d : FriendDto) (more : FriendMap) (i : ℕ)
    → knows ((gone, d) ∷ more) i ≡ ((gone == i) || knows more i)
unfolding lookup
knows_first gone d more i = ground arith

none_gone :
    (b : Bool) (current : FriendMap) (i : ℕ) → b ≡ (b && not (knows [] i && not (knows current i)))
unfolding lookup
none_gone true current i = refl
none_gone false current i = refl

replay-removals :
    (m current : FriendMap) (s : ℕ → Bool) (i : ℕ)
    → replay (removals m current) s i ≡ (s i && not (knows m i && not (knows current i)))
unfolding replay removals
replay-removals [] current s i = none_gone (s i) current i
replay-removals ((gone, d) ∷ more) current s i = elim (Bool-cases (knows current gone)) [
  | inl e ↦ rw e (
      rw (knows_first gone d more i) (
        replay-removals more current s i
        ∙ still_there (gone == i) (knows more i) (knows current i) (s i)
            (same_knows current gone i true e)))
  | inr e ↦ rw e (
      rw (knows_first gone d more i) (
        replay-removals more current (apply_change s (removed gone)) i
        ∙ now_gone (gone == i) (knows more i) (knows current i) (s i)
            (same_knows current gone i false e)))
]

replay-++ :
    (a b : List Change) (s : ℕ → Bool) (i : ℕ) → replay (a ++ b) s i ≡ replay b (replay a s) i
unfolding replay
replay-++ [] b s i = refl
replay-++ (c ∷ a) b s i = replay-++ a b (apply_change s c) i

balance : (k l : Bool) → ((k || (l && not k)) && not (k && not (l || false))) ≡ l
balance true true = refl
balance true false = refl
balance false true = refl
balance false false = refl

-- Applied to what was known, the changes give what the answer lists.
pub replay-diff_with_observer :
    (ds : List FriendDto) (known : FriendMap) (s : ℕ → Bool) (i : ℕ)
    → s i ≡ knows known i
    → replay (diff_with_observer ds known (id_map ds)) s i ≡ lists ds i
unfolding diff_with_observer id_map lookup
replay-diff_with_observer ds known s i at =
    replay-++ (additions ds known) (removals known (id_map ds)) s i
    ∙ replay-removals known (id_map ds) (replay (additions ds known) s) i
    ∙ rw (replay-additions ds known s i)
        (rw (knows-insert_all ds [] i) (rw at (balance (knows known i) (lists ds i))))

or_false : (b : Bool) → (b || false) ≡ b
or_false true = refl
or_false false = refl

pub knows-id_map : (ds : List FriendDto) (i : ℕ) → knows (id_map ds) i ≡ lists ds i
unfolding id_map lookup
knows-id_map ds i = knows-insert_all ds [] i ∙ or_false (lists ds i)
