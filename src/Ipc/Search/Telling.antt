-- ===== src/Ipc/Search/Telling.antt =====
-- internal/ipc/methods_watch.go: what an answer of `friendsSearch` says.
use mathlib.Core.List.{Memᴰ}
use mathlib.Core.List.Memᴰ
use open_friend_mc.Prelude.{
  ◌≡◌, refl, ap, ◌∙◌, Bool, true, false, List, [], ◌∷◌, Option, none, some, ok, String, ◌==◌,
  comparable_string, Bool-cases, inl, inr,
}
use open_friend_mc.Api.Dtos.{FriendDto, FriendsListResponse}
use open_friend_mc.Api.Resolve.{find_first}
use open_friend_mc.Api.Resolve.Finding.{find_first_lem}
use open_friend_mc.Ipc.Search.{
  SearchAnswer, nobody, is_friend, is_outgoing, is_incoming, best_of, search_in, friends_search,
}

-- Nobody in the list has the name.
pub Lacks : (String → String → Bool) → String → List FriendDto → Type 0
Lacks equal_fold name ds = (d : FriendDto) → Memᴰ d ds → equal_fold d.name name ≡ false

-- Somebody in the list has it.
pub Has : (String → String → Bool) → String → List FriendDto → FriendDto → Type 0
Has equal_fold name ds d = Memᴰ d ds × (equal_fold d.name name ≡ true)

pub Tells : (String → String → Bool) → String → FriendsListResponse → SearchAnswer → Type 0
Tells equal_fold name resp (is_friend d) = Has equal_fold name resp.friends d
Tells equal_fold name resp (is_outgoing d) =
    Has equal_fold name resp.outgoing_requests d × Lacks equal_fold name resp.friends
Tells equal_fold name resp (is_incoming d) =
    Has equal_fold name resp.incoming_requests d
    × Lacks equal_fold name resp.friends
    × Lacks equal_fold name resp.outgoing_requests
Tells equal_fold name resp nobody =
    Lacks equal_fold name resp.friends
    × Lacks equal_fold name resp.outgoing_requests
    × Lacks equal_fold name resp.incoming_requests

not_found :
    (test : FriendDto → Bool) (ds : List FriendDto)
    → find_first test ds ≡ none
    → (d : FriendDto) → Memᴰ d ds
    → test d ≡ false
unfolding find_first
not_found test [] h d m = absurd (Memᴰ.not-nil m)
not_found test (x ∷ ds) h d m = elim (Bool-cases (test x)) [
  | inl e ↦ let f = rw e at h in cc
  | inr e ↦ elim (Memᴰ.cases_cons m) [
    | inl same ↦ ap test same ∙ e
    | inr later ↦ not_found test ds (rw e at h) d later
  ]
]

Tells-best_of :
    (equal_fold : String → String → Bool) (name : String) (resp : FriendsListResponse)
    → (f o i : Option FriendDto) → find_first (λ d. equal_fold d.name name) resp.friends ≡ f
    → find_first (λ d. equal_fold d.name name) resp.outgoing_requests ≡ o
    → find_first (λ d. equal_fold d.name name) resp.incoming_requests ≡ i
    → Tells equal_fold name resp (best_of f o i)
unfolding Tells Has Lacks best_of
Tells-best_of equal_fold name resp (some d) o i f_at o_at i_at = find_first_lem _ _ d f_at
Tells-best_of equal_fold name resp none (some d) i f_at o_at i_at =
    (find_first_lem _ _ d o_at, not_found _ _ f_at)
Tells-best_of equal_fold name resp none none (some d) f_at o_at i_at =
    (find_first_lem _ _ d i_at, not_found _ _ f_at, not_found _ _ o_at)
Tells-best_of equal_fold name resp none none none f_at o_at i_at =
    (not_found _ _ f_at, not_found _ _ o_at, not_found _ _ i_at)

-- When the list of friends is there, a signed-in search by a name that is not empty answers with a
-- friend of that name; or, where no friend has it, with an outgoing request; or, where none has it
-- either, with an incoming one; and says that nobody has it only where that is so.
pub friends_search-Tells :
    (equal_fold : String → String → Bool) (name : String) (resp : FriendsListResponse)
    → (name == "") ≡ false
    → (a : SearchAnswer) × (friends_search equal_fold true true name (ok (some resp)) ≡ ok a)
      × Tells equal_fold name resp a
unfolding friends_search search_in
friends_search-Tells equal_fold name resp given = (
  search_in equal_fold name (some resp),
  rw given refl,
  Tells-best_of equal_fold name resp _ _ _ refl refl refl,
)
