-- ===== src/Api/Resolve/Finding.antt =====
-- internal/api/resolve.go: whom a name resolves to.
use mathlib.Core.Path.{subst}
use mathlib.Core.List.{Memᴰ}
use open_friend_mc.Prelude.{
  ◌≡◌, refl, Bool, true, List, [], ◌∷◌, Option, none, some, String, ◌==◌, ==_iff, comparable_nat,
  Result, ok, err, Bool-cases, inl, inr, some_inj,
}
use open_friend_mc.Api.Dtos.{FriendDto, FriendsListResponse, PresenceStatusDto, PresenceResponse}
use open_friend_mc.Api.Client.{Client, ApiError}
use open_friend_mc.Api.Resolve.{
  Peer, Answers, find_first, list_friends, answered_presence, shared_pmid, in_presence, of_match,
  in_friends, resolve_peer,
}

pub find_first_lem {ℓ} :
    {A : Type ℓ} (test : A → Bool) (xs : List A) (x : A)
    → find_first test xs ≡ some x
    → Memᴰ x xs × (test x ≡ true)
unfolding find_first
find_first_lem test [] x h = cc
find_first_lem test (y ∷ ys) x h = elim (Bool-cases (test y)) [
  | inl e ↦
      let same : y ≡ x = some_inj (rw e at h) in
      subst (λ z. Memᴰ z (y ∷ ys) × (test z ≡ true)) same (Memᴰ.head refl, e)
  | inr e ↦ let (m, t) = find_first_lem test ys x (rw e at h) in (Memᴰ.tail m, t)
]

-- The friend and the presence entry that a resolved name stands for.
pub record Resolved (equal_fold : String → String → Bool) (query : String)
    (friends : List FriendDto) (presence : List PresenceStatusDto) (peer : Peer) : Type 0 where
  pub friend : FriendDto
  pub entry : PresenceStatusDto
  pub is_friend : Memᴰ friend friends
  pub named : equal_fold friend.name query ≡ true
  pub is_shared : Memᴰ entry presence
  pub same_profile : entry.profile_id ≡ friend.profile_id
  pub is_peer :
      record { name = friend.name; profile_id = friend.profile_id; pmid = entry.pmid } ≡ peer

shared :
    (d : FriendDto) (ps : List PresenceStatusDto) (peer : Peer) (o : Option PresenceStatusDto)
    → find_first (λ p. p.profile_id == d.profile_id) ps ≡ o
    → shared_pmid d o ≡ ok peer
    → (p : PresenceStatusDto) × Memᴰ p ps
      × (p.profile_id ≡ d.profile_id)
      × (record { name = d.name; profile_id = d.profile_id; pmid = p.pmid } ≡ peer)
unfolding shared_pmid
shared d ps peer none at h = cc
shared d ps peer (some p) at h =
    let (m, t) = find_first_lem (λ p. p.profile_id == d.profile_id) ps p at in
    (p, m, (==_iff p.profile_id d.profile_id).0 t, cc)

in_presence-Resolved :
    (equal_fold : String → String → Bool) (query : String) (friends : List FriendDto)
    → (d : FriendDto) (peer : Peer) (answer : Result ApiError (Option PresenceResponse))
    → Memᴰ d friends
    → equal_fold d.name query ≡ true
    → in_presence d answer ≡ ok peer
    → (pres : PresenceResponse) × (answer ≡ ok (some pres))
      × Resolved equal_fold query friends pres.presence peer
unfolding in_presence
in_presence-Resolved equal_fold query friends d peer (err e) m n h = cc
in_presence-Resolved equal_fold query friends d peer (ok none) m n h = cc
in_presence-Resolved equal_fold query friends d peer (ok (some pres)) m n h =
    let (p, shown, same, is) = shared d pres.presence peer _ refl h in
    (
      pres,
      refl,
      record {
        friend = d;
        entry = p;
        is_friend = m;
        named = n;
        is_shared = shown;
        same_profile = same;
        is_peer = is;
      },
    )

of_match-Resolved :
    (equal_fold : String → String → Bool) (query : String) (friends : List FriendDto)
    → (a : Answers) (c : Client) (peer : Peer) (o : Option FriendDto)
    → find_first (λ d. equal_fold d.name query) friends ≡ o
    → (of_match a c o).1 ≡ ok peer
    → (pres : PresenceResponse) × ((answered_presence a c).1 ≡ ok (some pres))
      × Resolved equal_fold query friends pres.presence peer
unfolding of_match
of_match-Resolved equal_fold query friends a c peer none at h = cc
of_match-Resolved equal_fold query friends a c peer (some d) at h =
    let (m, n) = find_first_lem (λ d. equal_fold d.name query) friends d at in
    in_presence-Resolved equal_fold query friends d peer (answered_presence a c).1 m n h

in_friends-Resolved :
    (equal_fold : String → String → Bool) (query : String) (a : Answers) (peer : Peer)
    → (listed : Client × Result ApiError (Option FriendsListResponse))
    → (in_friends equal_fold query a listed).1 ≡ ok peer
    → (resp : FriendsListResponse) × (listed.1 ≡ ok (some resp))
      × ((pres : PresenceResponse) × ((answered_presence a listed.0).1 ≡ ok (some pres))
          × Resolved equal_fold query resp.friends pres.presence peer)
unfolding in_friends
in_friends-Resolved equal_fold query a peer (c, err e) h = cc
in_friends-Resolved equal_fold query a peer (c, ok none) h = cc
in_friends-Resolved equal_fold query a peer (c, ok (some resp)) h =
    (resp, refl, of_match-Resolved equal_fold query resp.friends a c peer _ refl h)

-- A name that resolves is the name of a friend on the list that `GetFriends` gave, from the server or
-- from what it keeps, and the peer's `pmid` is the one that this friend shares in what `PostPresence`
-- gave after it, again from the server or from what it keeps.
pub resolve_peer-Resolved :
    (equal_fold : String → String → Bool) (query : String) (a : Answers) (c : Client) (peer : Peer)
    → (resolve_peer equal_fold none query a c).1 ≡ ok peer
    → (resp : FriendsListResponse) × ((list_friends a c).1 ≡ ok (some resp))
      × ((pres : PresenceResponse) × ((answered_presence a (list_friends a c).0).1 ≡ ok (some pres))
          × Resolved equal_fold query resp.friends pres.presence peer)
unfolding resolve_peer
resolve_peer-Resolved equal_fold query a c peer h =
    in_friends-Resolved equal_fold query a peer (list_friends a c) h
