-- ===== src/Bridge/VarInt/RoundTrip.antt =====
-- What is written is read back, whatever follows.
use native.Mathlib.Numerals.{towards_suc}
use native.Mathlib.Decide.{dec_lt}
use open_friend_mc.Prelude.{
  ℕ, zero, suc, ◌+◌, ◌*◌, ◌/◌, ◌%◌, ◌^◌, ◌≤◌, ◌<◌, ◌≡◌, ap, arith, [], ◌∷◌, ◌++◌, Bytes, length,
  comparable_nat, ok,
}
use open_friend_mc.Bridge.VarInt.{
  IsInt32, max_var_int, write_loop, write_var_int, read_loop, read_var_int, or_group,
}

pow_next : (i : ℕ) → 2 ^ (7 * (i + 1)) ≡ 128 * 2 ^ (7 * i)
pow_next i = rw (pow_arg i) (simp towards_suc (omega arith))
  where
    pow_arg : (j : ℕ) → 7 * (j + 1) ≡ 7 * j + 7
    pow_arg j = omega arith

-- The groups written for `u` put `u` on top of the bits that are there.
split_group : (u p : ℕ) → u % 128 * p + u / 128 * (128 * p) ≡ u * p
split_group u p = omega (arith, ap (λ (t : ℕ). t * p) (parts u))
  where
    parts : (v : ℕ) → v / 128 * 128 + v % 128 ≡ v
    parts v = omega arith

-- One round of the reader on the group that one round of the writer left.
or_group_step :
    (u value i : ℕ)
    → value + u * 2 ^ (7 * i) < 2 ^ 32
    → or_group value u i ≡ value + u % 128 * 2 ^ (7 * i)
or_group_step u value i fits = omega (arith, split_group u (2 ^ (7 * i)))

or_group_more :
    (u value i : ℕ)
    → value + u * 2 ^ (7 * i) < 2 ^ 32
    → or_group value (u % 128 + 128) i ≡ value + u % 128 * 2 ^ (7 * i)
or_group_more u value i fits = rw (low u) (or_group_step u value i fits)
  where
    low : (v : ℕ) → (v % 128 + 128) % 128 ≡ v % 128
    low v = omega arith

smaller : (k u : ℕ) → u < 2 ^ (7 * suc k) → u / 128 < 2 ^ (7 * k)
smaller k u h = omega (arith, pow_next k, ap (λ (t : ℕ). 2 ^ (7 * t)) (suc-add k))
  where
    suc-add : (n : ℕ) → suc n ≡ n + 1
    suc-add n = omega arith

rounds_left : (k u : ℕ) → 128 ≤ u → u / 128 < 2 ^ (7 * k) → 0 < k
rounds_left zero u h small = omega arith
rounds_left (suc k) u h small = omega arith

-- The reader stops at a byte below 128 and goes on behind any other.
read_last :
    (k i value b : ℕ) (rest : Bytes)
    → b < 128
    → read_loop (suc k) i value (b ∷ rest) ≡ ok (or_group value b i, i + 1, rest)
unfolding read_loop
read_last k i value b rest h = ground arith

read_more :
    (k i value b : ℕ) (rest : Bytes)
    → 128 ≤ b
    → read_loop (suc k) i value (b ∷ rest) ≡ read_loop k (i + 1) (or_group value b i) rest
unfolding read_loop
read_more k i value b rest h = ground arith

write_last : (k u : ℕ) → u < 128 → write_loop (suc k) u ≡ u ∷ []
unfolding write_loop
write_last k u h = ground arith

write_more : (k u : ℕ) → 128 ≤ u → write_loop (suc k) u ≡ (u % 128 + 128) ∷ write_loop k (u / 128)
unfolding write_loop
write_more k u h = ground arith

-- The value read so far and the groups still to be read stand for the same number.
next_fits :
    (value u i : ℕ)
    → value + u % 128 * 2 ^ (7 * i) + u / 128 * 2 ^ (7 * (i + 1)) ≡ value + u * 2 ^ (7 * i)
next_fits value u i = rw (pow_next i) (omega (arith, split_group u (2 ^ (7 * i))))

read_loop-write_loop :
    (k i value u : ℕ) (rest : Bytes)
    → u < 2 ^ (7 * k)
    → value + u * 2 ^ (7 * i) < 2 ^ 32
    → 0 < k
    → read_loop k i value (write_loop k u ++ rest)
      ≡ ok (value + u * 2 ^ (7 * i), i + length (write_loop k u), rest)
read_loop-write_loop zero i value u rest small fits pos = absurd (omega arith)
read_loop-write_loop (suc k) i value u rest small fits pos = elim (dec_lt u 128) [
  | yes last ↦
      rw (write_last k u last, read_last k i value u rest last)
        (ground (arith, or_group_step u value i fits))
  | no more ↦
      let small' = smaller k u small in
      let large : 128 ≤ u = omega arith in
      rw
        (
          write_more k u large,
          read_more k i value (u % 128 + 128) _ (omega arith),
          or_group_more u value i fits,
          read_loop-write_loop k (i + 1) (value + u % 128 * 2 ^ (7 * i)) (u / 128) rest small'
              (rw (next_fits value u i) fits) (rounds_left k u large small'),
        )
        (ground (arith, next_fits value u i))
]

five_rounds :
    (v : ℕ) (rest : Bytes)
    → IsInt32 v
    → read_loop max_var_int 0 0 (write_loop max_var_int v ++ rest)
      ≡ ok (v, length (write_loop max_var_int v), rest)
five_rounds v rest h =
    rw (read_loop-write_loop max_var_int 0 0 v rest (omega arith) (omega arith) (omega arith))
      (ground arith)

-- An int32 is read back from what is written for it, whatever bytes follow, and as many bytes are
-- read as were written.
pub read_var_int-write_var_int :
    (v : ℕ) (rest : Bytes)
    → IsInt32 v
    → read_var_int (write_var_int v ++ rest) ≡ ok (v, length (write_var_int v), rest)
unfolding read_var_int write_var_int
read_var_int-write_var_int v rest h = five_rounds v rest h
