-- ===== src/Bridge/VarInt/Reading.antt =====
-- How `readVarInt` depends on what follows, what it returns and when it fails.
use open_friend_mc.Prelude.{
  ℕ, zero, suc, ◌+◌, ◌≤◌, ◌<◌, ◌≡◌, ◌⊎◌, inl, inr, arith, [], ◌∷◌, ◌++◌, Bytes, length, ok, err,
}
use open_friend_mc.Bridge.VarInt.{
  ReadError, eof, overflow, IsInt32, max_var_int, read_loop, read_var_int, or_group,
}

-- More input behind a value that was read changes nothing but what is left.
read_loop-append :
    (k i value : ℕ) (bs more : Bytes) {v n : ℕ} {rest : Bytes}
    → read_loop k i value bs ≡ ok (v, n, rest)
    → read_loop k i value (bs ++ more) ≡ ok (v, n, rest ++ more)
unfolding read_loop
read_loop-append zero i value bs more h = cc
read_loop-append (suc k) i value [] more h = cc
read_loop-append (suc k) i value (b ∷ bs) more {v} {n} {rest} h =
    ground
      (arith, read_loop-append k (i + 1) (or_group value b i) bs more {v = v} {n = n} {rest = rest})

pub read_var_int-append :
    (bs more : Bytes) {v n : ℕ} {rest : Bytes}
    → read_var_int bs ≡ ok (v, n, rest)
    → read_var_int (bs ++ more) ≡ ok (v, n, rest ++ more)
unfolding read_var_int
read_var_int-append bs more h = read_loop-append max_var_int 0 0 bs more h

-- Nor does it mend a value of too many bytes.
read_loop-append_overflow :
    (k i value : ℕ) (bs more : Bytes)
    → read_loop k i value bs ≡ err overflow
    → read_loop k i value (bs ++ more) ≡ err overflow
unfolding read_loop
read_loop-append_overflow zero i value bs more h = cc
read_loop-append_overflow (suc k) i value [] more h = cc
read_loop-append_overflow (suc k) i value (b ∷ bs) more h =
    ground (arith, read_loop-append_overflow k (i + 1) (or_group value b i) bs more)

pub read_var_int-append_overflow :
    (bs more : Bytes) → read_var_int bs ≡ err overflow → read_var_int (bs ++ more) ≡ err overflow
unfolding read_var_int
read_var_int-append_overflow bs more h = read_loop-append_overflow max_var_int 0 0 bs more h

-- `readVarInt` fails at the end of the input or on overflow only.
abbrev pub VarIntFailure : ReadError → Type 0
VarIntFailure e = (e ≡ eof) ⊎ (e ≡ overflow)

read_loop-VarIntFailure :
    (k i value : ℕ) (bs : Bytes) {e : ReadError} → read_loop k i value bs ≡ err e → VarIntFailure e
unfolding read_loop
read_loop-VarIntFailure zero i value bs h = inr (ground arith)
read_loop-VarIntFailure (suc k) i value [] h = inl (ground arith)
read_loop-VarIntFailure (suc k) i value (b ∷ bs) {e} h =
    ground (arith, read_loop-VarIntFailure k (i + 1) (or_group value b i) bs {e = e})

pub read_var_int-VarIntFailure :
    (bs : Bytes) {e : ReadError} → read_var_int bs ≡ err e → VarIntFailure e
unfolding read_var_int
read_var_int-VarIntFailure bs h = read_loop-VarIntFailure max_var_int 0 0 bs h

-- The count that is returned is that of the bytes consumed, at most five of them.
read_loop_count :
    (k i value : ℕ) (bs : Bytes) {v n : ℕ} {rest : Bytes}
    → read_loop k i value bs ≡ ok (v, n, rest)
    → (i < n) × (n ≤ i + k) × (length bs + i ≡ length rest + n)
unfolding read_loop
read_loop_count zero i value bs h = cc
read_loop_count (suc k) i value [] h = cc
read_loop_count (suc k) i value (b ∷ bs) {v} {n} {rest} h =
    ground (arith, read_loop_count k (i + 1) (or_group value b i) bs {v = v} {n = n} {rest = rest})

-- A value that was read took between one and five bytes, and just those are gone from the
-- reader.
pub read_var_int_count :
    (bs : Bytes) {v n : ℕ} {rest : Bytes}
    → read_var_int bs ≡ ok (v, n, rest)
    → (0 < n) × (n ≤ max_var_int) × (length bs ≡ length rest + n)
unfolding read_var_int
read_var_int_count bs h =
    let (some_read, few, all) = read_loop_count max_var_int 0 0 bs h in
    (some_read, omega arith, omega arith)

-- Its value is an int32.
read_loop-IsInt32 :
    (k i value : ℕ) (bs : Bytes) {v n : ℕ} {rest : Bytes}
    → read_loop k i value bs ≡ ok (v, n, rest)
    → IsInt32 v
unfolding read_loop
read_loop-IsInt32 zero i value bs h = cc
read_loop-IsInt32 (suc k) i value [] h = cc
read_loop-IsInt32 (suc k) i value (b ∷ bs) {v} {n} {rest} h =
    ground
      (arith, read_loop-IsInt32 k (i + 1) (or_group value b i) bs {v = v} {n = n} {rest = rest})

pub read_var_int-IsInt32 :
    (bs : Bytes) {v n : ℕ} {rest : Bytes} → read_var_int bs ≡ ok (v, n, rest) → IsInt32 v
unfolding read_var_int
read_var_int-IsInt32 bs h = read_loop-IsInt32 max_var_int 0 0 bs h
