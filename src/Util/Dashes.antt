-- ===== src/Util/Dashes.antt =====
-- internal/util/uuid.go: the two ways to write a UUID.
use open_friend_mc.Prelude.{
  ℕ, suc, zero, ◌+◌, ◌-◌, ◌≤◌, ◌≡◌, refl, sym, ap, ◌∙◌, arith, false, [], ◌∷◌, ◌++◌, Option, some,
  Bytes, length, take, drop, ◌==◌, comparable_nat, codes, All,
}
use open_friend_mc.Util.{dashed, parse_undashed, without_dashes, undashed}

abbrev IsDigits : Bytes → Type 0
IsDigits = All (λ (ch : ℕ). (ch == b'-') ≡ false)

without_dashes-append :
    (s t : Bytes) → without_dashes (s ++ t) ≡ without_dashes s ++ without_dashes t
unfolding without_dashes
without_dashes-append [] t = refl
without_dashes-append (ch ∷ s) t = ground (arith, without_dashes-append s t)

without_dashes-IsDigits : (s : Bytes) → IsDigits s → without_dashes s ≡ s
unfolding without_dashes
without_dashes-IsDigits [] digits = refl
without_dashes-IsDigits (ch ∷ s) (digit, digits) =
    rw digit (ap (◌∷◌ ch) (without_dashes-IsDigits s digits))

take-IsDigits : (n : ℕ) (s : Bytes) → IsDigits s → IsDigits (take n s)
take-IsDigits zero s digits = tt
take-IsDigits (suc n) [] digits = tt
take-IsDigits (suc n) (ch ∷ s) (digit, digits) = (digit, take-IsDigits n s digits)

drop-IsDigits : (n : ℕ) (s : Bytes) → IsDigits s → IsDigits (drop n s)
drop-IsDigits zero s digits = digits
drop-IsDigits (suc n) [] digits = tt
drop-IsDigits (suc n) (ch ∷ s) (digit, digits) = drop-IsDigits n s digits

-- A group, and what is behind it, with the dash in between taken out.
group :
    (n : ℕ) (s rest : Bytes)
    → IsDigits s
    → without_dashes rest ≡ drop n s
    → without_dashes (take n s ++ (codes "-" ++ rest)) ≡ s
unfolding without_dashes
group zero s rest digits same = same
group (suc n) [] rest digits same = same
group (suc n) (ch ∷ s) rest (digit, digits) same =
    rw digit (ap (◌∷◌ ch) (group n s rest digits same))

drop-none : (n : ℕ) → [] ≡ drop {A = ℕ} n []
drop-none zero = refl
drop-none (suc n) = refl

drop-drop : (m n : ℕ) (s : Bytes) → drop n (drop m s) ≡ drop (m + n) s
drop-drop zero n s = ap (λ k. drop k s) (omega arith)
drop-drop (suc m) n (ch ∷ s) =
    let next : suc (m + n) ≡ suc m + n = omega arith in
    drop-drop m n s ∙ ap (λ k. drop k (ch ∷ s)) next
drop-drop (suc m) zero [] = drop-none (suc m + 0)
drop-drop (suc m) (suc n) [] = drop-none (suc m + suc n)

length-drop : (n : ℕ) (s : Bytes) → length (drop n s) ≡ length s - n
length-drop zero s = omega arith
length-drop (suc n) [] = omega arith
length-drop (suc n) (ch ∷ s) = omega (arith, length-drop n s)

take-all : (n : ℕ) (s : Bytes) → length s ≤ n → take n s ≡ s
take-all zero [] h = refl
take-all zero (ch ∷ s) h = absurd (omega arith)
take-all (suc n) [] h = refl
take-all (suc n) (ch ∷ s) h = ap (◌∷◌ ch) (take-all n s (omega arith))

without_dashes-dashed : (s : Bytes) → IsDigits s → length s ≡ 32 → without_dashes (dashed s) ≡ s
unfolding dashed
without_dashes-dashed s digits long =
    let last = take-all 12 (drop 20 s) (omega (arith, length-drop 20 s)) in
    let tail : without_dashes (take 12 (drop 20 s)) ≡ drop 20 s =
      rw last (without_dashes-IsDigits (drop 20 s) (drop-IsDigits 20 s digits)) in
    let fourth =
      group 4 (drop 16 s) (take 12 (drop 20 s)) (drop-IsDigits 16 s digits)
        (tail ∙ sym (drop-drop 16 4 s)) in
    let third =
      group 4 (drop 12 s) _ (drop-IsDigits 12 s digits) (fourth ∙ sym (drop-drop 12 4 s)) in
    let second = group 4 (drop 8 s) _ (drop-IsDigits 8 s digits) (third ∙ sym (drop-drop 8 4 s)) in
    group 8 s _ digits second

-- Where the library's form of a UUID is its 32 digits with dashes behind the 8th, 12th, 16th and 20th,
-- and the library reads its own form back, the form without dashes is read back too.
parse_undashed-undashed :
    (parse : Bytes → Option ℕ) (print : ℕ → Bytes) (u : ℕ) (digits : Bytes)
    → IsDigits digits
    → length digits ≡ 32
    → print u ≡ dashed digits
    → parse (print u) ≡ some u
    → parse_undashed parse (undashed print u) ≡ some u
unfolding parse_undashed undashed
parse_undashed-undashed parse print u digits plain long form back =
    rw (form, without_dashes-dashed digits plain long, long) (rw⁻¹ form back)
