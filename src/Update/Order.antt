-- ===== src/Update/Order.antt =====
-- `isNewer` compares versions by a strict total order.
use open_friend_mc.Prelude.{
  ℕ, ◌^◌, ◌<◌, ◌≡◌, refl, arith, Bool, true, false, List, [], ◌∷◌, All, ◌==◌, comparable_nat,
  if◌then◌else◌, ◌⊎◌, inl, inr,
}
use open_friend_mc.Update.{compare_parts, int_gt}

-- The comparison by recursion on both versions: the first difference decides, and of two versions
-- that agree as far as both go the longer one is newer.
lex : List ℕ → List ℕ → Bool
lex [] b = false
lex (x ∷ a) [] = true
lex (x ∷ a) (y ∷ b) = if x == y then lex a b else int_gt x y

compare_parts-lex : (a b : List ℕ) → compare_parts a b ≡ lex a b
unfolding compare_parts lex
compare_parts-lex [] [] = refl
compare_parts-lex [] (y ∷ b) = ground arith
compare_parts-lex (x ∷ a) [] = ground arith
compare_parts-lex (x ∷ a) (y ∷ b) = ground (arith, compare_parts-lex a b)

abbrev pub IsWord : ℕ → Type 0
IsWord x = x < 2 ^ 64

lex_irrefl : (a : List ℕ) → lex a a ≡ false
unfolding lex
lex_irrefl [] = refl
lex_irrefl (x ∷ a) = ground (arith, lex_irrefl a)

lex_trans : (a b c : List ℕ) → lex a b ≡ true → lex b c ≡ true → lex a c ≡ true
unfolding lex
lex_trans [] b c h k = cc
lex_trans (x ∷ a) [] c h k = cc
lex_trans (x ∷ a) (y ∷ b) [] h k = refl
lex_trans (x ∷ a) (y ∷ b) (z ∷ c) h k = ground (arith, lex_trans a b c)

lex_total :
    (a b : List ℕ) → All IsWord a → All IsWord b → (lex a b ≡ true) ⊎ ((lex b a ≡ true) ⊎ (a ≡ b))
unfolding lex
lex_total [] [] u v = inr (inr refl)
lex_total [] (y ∷ b) u v = inr (inl refl)
lex_total (x ∷ a) [] u v = inl refl
lex_total (x ∷ a) (y ∷ b) u v = ground (arith, lex_total a b u.1 v.1)

lex_asymm : (a b : List ℕ) → lex a b ≡ true → lex b a ≡ false
lex_asymm a b h = not_back (lex b a) refl
  where
    not_back : (r : Bool) → lex b a ≡ r → lex b a ≡ false
    not_back true e = let t = lex_trans a b a h e in let n = lex_irrefl a in cc
    not_back false e = e

pub compare_parts_irrefl : (a : List ℕ) → compare_parts a a ≡ false
compare_parts_irrefl a = rw (compare_parts-lex a a) (lex_irrefl a)

-- The comparison of versions is transitive, and never holds both ways round.
pub compare_parts_trans :
    (a b c : List ℕ)
    → compare_parts a b ≡ true
    → compare_parts b c ≡ true
    → (compare_parts a c ≡ true) × (compare_parts c a ≡ false)
compare_parts_trans a b c h k =
    let t = lex_trans a b c (rw (compare_parts-lex a b) at h) (rw (compare_parts-lex b c) at k) in
    (rw (compare_parts-lex a c) t, rw (compare_parts-lex c a) (lex_asymm a c t))

pub compare_parts_total :
    (a b : List ℕ)
    → All IsWord a
    → All IsWord b
    → (compare_parts a b ≡ true) ⊎ ((compare_parts b a ≡ true) ⊎ (a ≡ b))
compare_parts_total a b u v = rw (compare_parts-lex a b, compare_parts-lex b a) (lex_total a b u v)
