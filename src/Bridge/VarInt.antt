-- ===== src/Bridge/VarInt.antt =====
-- internal/bridge/handshake.go: `writeVarInt` and `readVarInt`. An int32 is the bit pattern that
-- `uint32(v)` reads, a number below 2 ^ 32; it is negative from 2 ^ 31 on. A reader is the bytes
-- that it has not delivered, and what a function appends to a buffer is its result.
pub mod RoundTrip
pub mod Reading
use open_friend_mc.Prelude.{
  ℕ, zero, suc, ◌+◌, ◌-◌, ◌*◌, ◌/◌, ◌%◌, ◌^◌, ◌<◌, ◌≡◌, refl, Bool, [], ◌∷◌, Bytes, leb, ltb, ◌==◌,
  comparable_nat, if◌then◌else◌, Result, ok, err,
}

abbrev pub max_var_int : ℕ
max_var_int = 5

-- The errors of this file's readers: those of the reader below them, and their own.
pub data ReadError : Type 0 where
  eof unexpected_eof overflow bad_length : ReadError

abbrev pub IsByte : ℕ → Type 0
IsByte b = b < 256

abbrev pub IsInt32 : ℕ → Type 0
IsInt32 v = v < 2 ^ 32

abbrev pub is_negative : ℕ → Bool
is_negative v = leb (2 ^ 31) v

-- `byte(u & 0x7F)`
abbrev pub low_bits : ℕ → ℕ
low_bits u = u % 2 ^ 7

-- `b | 0x80` of a byte.
abbrev pub set_high : ℕ → ℕ
set_high b = b % 2 ^ 7 + 0x80

-- The loop of `writeVarInt` for the rounds left; `read_var_int-write_var_int` shows that five suffice.
write_loop : ℕ → ℕ → Bytes
write_loop zero u = []
write_loop (suc k) u =
    let more = set_high (low_bits u) ∷ write_loop k (u / 2 ^ 7) in
    if u / 2 ^ 7 == 0 then low_bits u ∷ [] else more

unfoldable pub write_var_int : ℕ → Bytes
unfolding write_loop
write_var_int v = write_loop max_var_int v

-- `value |= uint32(b&0x7F) << (7 * i)`: the bits of `value` lie below `7 * i`, so `|` adds.
abbrev or_group : ℕ → ℕ → ℕ → ℕ
or_group value b i = (value + low_bits b * 2 ^ (7 * i)) % 2 ^ 32

-- The loop of `readVarInt`: the rounds left, `i`, `value` and the unread bytes. The value comes
-- with the number of bytes read and the bytes behind them.
read_loop : ℕ → ℕ → ℕ → Bytes → Result ReadError (ℕ × ℕ × Bytes)
read_loop zero i value bs = err overflow
read_loop (suc k) i value [] = err eof
read_loop (suc k) i value (b ∷ bs) =
    let more = read_loop k (i + 1) (or_group value b i) bs in
    if ltb b 0x80 then ok (or_group value b i, i + 1, bs) else more

unfoldable pub read_var_int : Bytes → Result ReadError (ℕ × ℕ × Bytes)
unfolding read_loop
read_var_int bs = read_loop max_var_int 0 0 bs
