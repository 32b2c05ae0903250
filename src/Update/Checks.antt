-- ===== src/Update/Checks.antt =====
-- `isNewer` on release names, and what `Check` makes of the manifest.
use mathlib.Core.Path.{subst}
use open_friend_mc.Prelude.{
  ℕ, ◌+◌, ◌-◌, ◌*◌, ◌%◌, ◌^◌, ◌≡◌, ◌≢◌, sym, ◌∙◌, arith, Bool, true, false, List, [], ◌∷◌, map, All,
  codes, is_empty, comparable_nat, ◌⊎◌, inl, inr, Bool-cases, ok,
}
use open_friend_mc.Prelude.Text.{Text, trim_space, same_text, same_text→eq}
use open_friend_mc.Update.{
  parse_version, leading_number, trim_v, compare_parts, is_newer, check, manifest, UpdateOutcome,
}
use open_friend_mc.Update.Order.{
  IsWord, compare_parts_irrefl, compare_parts_trans, compare_parts_total,
}

-- A release name: not empty, and not that of a development build.
pub record IsRelease (s : Text) : Type 0 where
  pub not_empty : is_empty s ≡ false
  pub not_dev : s ≢ codes "dev"

not_same : (s t : Text) → s ≢ t → same_text s t ≡ false
not_same s t n = elim (Bool-cases (same_text s t)) [
  | inl e ↦ absurd (n (same_text→eq s t e))
  | inr e ↦ e
]

release-compare :
    (latest current : Text)
    → IsRelease latest
    → IsRelease current
    → is_newer latest current ≡ compare_parts (parse_version latest) (parse_version current)
unfolding is_newer
release-compare latest current l c =
    rw (l.not_empty, c.not_empty, not_same current (codes "dev") c.not_dev)

leading_number-IsWord : (n : ℕ) (p : Text) → IsWord n → IsWord (leading_number n p)
unfolding leading_number
leading_number-IsWord n [] h = h
leading_number-IsWord n (ch ∷ p) h =
    ground (arith, leading_number-IsWord ((n * 10 + (ch - b'0')) % 2 ^ 64) p (omega arith))

map-IsWord : (ps : List Text) → All IsWord (map (leading_number 0) ps)
map-IsWord [] = tt
map-IsWord (p ∷ ps) = (leading_number-IsWord 0 p (omega arith), map-IsWord ps)

-- The parts of a version are ints, whatever the text holds.
parse_version-IsWord : (s : Text) → All IsWord (parse_version s)
unfolding parse_version
parse_version-IsWord s = map-IsWord _

-- Among release names `isNewer` is a strict order that is total up to the parsed version: it is
-- transitive and never holds both ways, and of two names one is newer than the other or both parse
-- to the same version.
pub is_newer_order :
    (a b c : Text)
    → IsRelease a
    → IsRelease b
    → IsRelease c
    → ((is_newer a b ≡ true) ⊎ ((is_newer b a ≡ true) ⊎ (parse_version a ≡ parse_version b)))
      × (is_newer a a ≡ false)
      × ((is_newer a b ≡ false)
          ⊎ ((is_newer b c ≡ false) ⊎ ((is_newer a c ≡ true) × (is_newer c a ≡ false))))
is_newer_order a b c ra rb rc =
    rw
      (
        release-compare a b ra rb,
        release-compare b a rb ra,
        release-compare a a ra ra,
        release-compare b c rb rc,
        release-compare a c ra rc,
        release-compare c a rc ra,
      )
      (
        compare_parts_total _ _ (parse_version-IsWord a) (parse_version-IsWord b),
        compare_parts_irrefl _,
        chain (Bool-cases (ab)) (Bool-cases (bc)),
      )
  where
    ab : Bool
    ab = compare_parts (parse_version a) (parse_version b)

    bc : Bool
    bc = compare_parts (parse_version b) (parse_version c)

    chain :
        (ab ≡ true) ⊎ (ab ≡ false)
        → (bc ≡ true) ⊎ (bc ≡ false)
        → (ab ≡ false)
          ⊎ ((bc ≡ false)
              ⊎ ((compare_parts (parse_version a) (parse_version c) ≡ true)
                  × (compare_parts (parse_version c) (parse_version a) ≡ false)))
    chain (inr e) y = inl e
    chain (inl e) (inr f) = inr (inl f)
    chain (inl e) (inl f) = inr (inr (compare_parts_trans _ _ _ e f))

check_latest :
    (current name : Text) (o : UpdateOutcome)
    → check current (manifest name) ≡ ok o
    → o.latest ≡ trim_v (trim_space name)
unfolding check
check_latest current name o h = ground arith

newer_self : (r : Text) → is_empty r ≡ false → r ≢ codes "dev" → is_newer r r ≡ false
newer_self r e n =
    let v : IsRelease r = record { not_empty = e; not_dev = n } in
    release-compare r r v v ∙ compare_parts_irrefl (parse_version r)

up_to_date :
    (name : Text)
    → trim_v (trim_space name) ≢ codes "dev"
    → let r = trim_v (trim_space name) in
      check r (manifest name) ≡ ok (record { latest = r; available = false })
unfolding check
up_to_date name n = elim (Bool-cases (is_empty (trim_v (trim_space name)))) [
  | inl e ↦ rw e
  | inr e ↦ rw (e, newer_self (trim_v (trim_space name)) e n)
]

-- A check never offers the version that is installed: once the release that a check named is the
-- current one, a check that finds the same manifest finds no update, whatever build ran before.
-- (The name "dev" is left out, which marks a development build.)
check_settles :
    (current name : Text) (o : UpdateOutcome)
    → check current (manifest name) ≡ ok o
    → o.latest ≢ codes "dev"
    → check o.latest (manifest name) ≡ ok (record { latest = o.latest; available = false })
check_settles current name o h n =
    let e = check_latest current name o h in
    subst (λ t. check t (manifest name) ≡ ok (record { latest = t; available = false })) (sym e)
      (up_to_date name (subst (λ t. t ≢ codes "dev") e n))
