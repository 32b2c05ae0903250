-- ===== src/Update.antt =====
-- internal/update/update.go: the check for a newer release. A string is its code points, as `range`
-- reads them; an int is its 64-bit pattern. HTTP and JSON come in as what they delivered.
pub mod Order
pub mod Checks
use open_friend_mc.Prelude.{
  ℕ, suc, ◌+◌, ◌-◌, ◌*◌, ◌%◌, ◌^◌, ◌≡◌, refl, Bool, true, false, not, ◌&&◌, ◌||◌, List, [], ◌∷◌,
  ◌++◌, map, Option, none, some, Bytes, length, ltb, leb, ◌==◌, comparable_nat, if◌then◌else◌,
  codes, Result, ok, err, ◌>>=◌, is_empty,
}
use open_friend_mc.Prelude.Text.{Text, trim_space, same_text}

-- `strings.TrimPrefix(s, "v")`
pub trim_v : Text → Text
trim_v [] = []
trim_v (c ∷ s) = if c == b'v' then s else c ∷ s

put_char : ℕ → List Text → List Text
put_char c [] = (c ∷ []) ∷ []
put_char c (p ∷ ps) = (c ∷ p) ∷ ps

-- `strings.Split(s, ".")`
split_dots : Text → List Text
unfolding put_char
split_dots [] = [] ∷ []
split_dots (c ∷ s) = let ps = split_dots s in if c == b'.' then [] ∷ ps else put_char c ps

-- The digits at the start of a part; `n*10 + int(ch-'0')` wraps around.
leading_number : ℕ → Text → ℕ
leading_number n [] = n
leading_number n (ch ∷ p) =
    let rest = leading_number ((n * 10 + (ch - b'0')) % 2 ^ 64) p in
    if ltb ch b'0' || ltb b'9' ch then n else rest

unfoldable pub parse_version : Text → List ℕ
unfolding trim_v split_dots leading_number
parse_version s = map (leading_number 0) (split_dots (trim_v (trim_space s)))

-- The order of signed integers on their patterns.
abbrev pub int_gt : ℕ → ℕ → Bool
int_gt a b = ltb ((b + 2 ^ 63) % 2 ^ 64) ((a + 2 ^ 63) % 2 ^ 64)

-- The loop of `isNewer`: the answer at the first index where the versions differ.
first_difference : List ℕ → List ℕ → Option Bool
first_difference [] b = none
first_difference (x ∷ a) [] = none
first_difference (x ∷ a) (y ∷ b) =
    let rest = first_difference a b in if x == y then rest else some (int_gt x y)

by_length : List ℕ → List ℕ → Option Bool → Bool
by_length a b none = ltb (length b) (length a)
by_length a b (some r) = r

pub compare_parts : List ℕ → List ℕ → Bool
unfolding first_difference by_length
compare_parts a b = by_length a b (first_difference a b)

unfoldable pub is_newer : Text → Text → Bool
unfolding compare_parts
is_newer latest current =
    if is_empty latest
    then false
    else if is_empty current || same_text current (codes "dev")
    then true
    else compare_parts (parse_version latest) (parse_version current)

pub record UpdateOutcome : Type 0 where
  pub latest : Text
  pub available : Bool

-- What `fetchLatest` meets: a failed exchange, a status other than 200, a manifest that is no JSON,
-- or the string under the key, empty if there is none.
pub data Fetch : Type 0 where
  exchange_failed bad_manifest : Fetch
  bad_status : ℕ → Fetch
  manifest : Text → Fetch

pub data CheckError : Type 0 where
  no_exchange no_manifest : CheckError
  wrong_status : ℕ → CheckError

abbrev pub fetch_latest : Fetch → Result CheckError Text
fetch_latest exchange_failed = err no_exchange
fetch_latest bad_manifest = err no_manifest
fetch_latest (bad_status s) = err (wrong_status s)
fetch_latest (manifest v) = ok (trim_space v)

unfoldable pub check : Text → Fetch → Result CheckError UpdateOutcome
unfolding trim_v
check current fetch = do
  latest ← fetch_latest fetch
  let release = trim_v latest
  if is_empty release
      then ok (record { latest = release; available = false })
      else if is_newer release current
      then ok (record { latest = release; available = true })
      else ok (record { latest = release; available = false })
