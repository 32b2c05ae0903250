-- ===== src/Examples/Codec.antt =====
-- A codec for the credentials file that can be run, with the laws that the theorems ask for.
use Prim.Native.Nat.{Ordering, compare}
use Prim.Native.Char.{Char, char, code, nul, IsScalar}
use text.Mathlib.TextEquality.{Char-path}
use open_friend_mc.Prelude.{
  ◌⊎◌, inl, inr, ℕ, zero, suc, ◌≡◌, refl, sym, ap, ◌∙◌, List, [], ◌∷◌, ◌++◌, Option, none, some,
  String, Bytes, length, take, drop, take-append_length, drop-append_length, codes, some_inj,
}
use open_friend_mc.Auth.Net.{Tokens}
use open_friend_mc.Auth.Store.{Block, Codec, pem_header}
use open_friend_mc.Auth.Store.Saved.{IsInverse}
use open_friend_mc.Auth.Store.Working.{IsTotal}

is_scalar :
    (n : ℕ) (o p q : Ordering)
    → compare n 55296 ≡ o
    → compare 57343 n ≡ p
    → compare n 1114112 ≡ q
    → IsScalar n ⊎ (IsScalar n → ⊥)
is_scalar n Ordering.lt p q a b c = inl (rw a tt)
is_scalar n Ordering.eq Ordering.lt Ordering.lt a b c = inl (rw (a, b, c) tt)
is_scalar n Ordering.eq Ordering.lt Ordering.eq a b c = inr (rw (a, b, c) (λ s. s))
is_scalar n Ordering.eq Ordering.lt Ordering.gt a b c = inr (rw (a, b, c) (λ s. s))
is_scalar n Ordering.eq Ordering.eq q a b c = inr (rw (a, b) (λ s. s))
is_scalar n Ordering.eq Ordering.gt q a b c = inr (rw (a, b) (λ s. s))
is_scalar n Ordering.gt Ordering.lt Ordering.lt a b c = inl (rw (a, b, c) tt)
is_scalar n Ordering.gt Ordering.lt Ordering.eq a b c = inr (rw (a, b, c) (λ s. s))
is_scalar n Ordering.gt Ordering.lt Ordering.gt a b c = inr (rw (a, b, c) (λ s. s))
is_scalar n Ordering.gt Ordering.eq q a b c = inr (rw (a, b) (λ s. s))
is_scalar n Ordering.gt Ordering.gt q a b c = inr (rw (a, b) (λ s. s))

as_char : (n : ℕ) → IsScalar n ⊎ (IsScalar n → ⊥) → Char
as_char n (inl s) = char n s
as_char n (inr never) = nul

char_of : ℕ → Char
unfolding as_char
char_of n = as_char n (is_scalar n _ _ _ refl refl refl)

as_char-code : (c : Char) (s : IsScalar (code c) ⊎ (IsScalar (code c) → ⊥)) → as_char (code c) s ≡ c
unfolding as_char
as_char-code (char n p) (inl s) = Char-path (char n s) (char n p) refl
as_char-code (char n p) (inr never) = absurd (never p)

pub decode : Bytes → String
unfolding char_of
decode [] = ""
decode (n ∷ l) = String.◌∷◌ (char_of n) (decode l)

pub decode-codes : (s : String) → decode (codes s) ≡ s
unfolding decode char_of
decode-codes (String.◌∷◌ c s) =
    λ i. String.◌∷◌ (as_char-code c (is_scalar (code c) _ _ _ refl refl refl) i) (decode-codes s i)
decode-codes String.[] = refl

-- A text behind its length, and what is left behind it.
pack : Bytes → Bytes → Bytes
pack b rest = length b ∷ b ++ rest

unpack : Bytes → Bytes × Bytes
unpack [] = ([], [])
unpack (n ∷ l) = (take n l, drop n l)

unpack-pack : (b rest : Bytes) → unpack (pack b rest) ≡ (b, rest)
unfolding pack unpack
unpack-pack b rest = λ i. (take-append_length b rest i, drop-append_length b rest i)

write_tokens : Tokens → Bytes
unfolding pack
write_tokens t =
    t.profile_id
    ∷ t.mojang_expires_at
    ∷ pack (codes t.name) (pack (codes t.mojang_access_token) (pack (codes t.ms_refresh_token) []))

read_tokens : Bytes → Option Tokens
unfolding unpack decode
read_tokens (id ∷ expires ∷ l) =
    let name = unpack l in
    let access = unpack name.1 in
    let refresh = unpack access.1 in
    some (record {
      profile_id = id;
      mojang_expires_at = expires;
      name = decode name.0;
      mojang_access_token = decode access.0;
      ms_refresh_token = decode refresh.0;
    })
read_tokens (id ∷ []) = none
read_tokens [] = none

read_tokens-write_tokens : (t : Tokens) → read_tokens (write_tokens t) ≡ some t
unfolding read_tokens write_tokens
read_tokens-write_tokens t = simp (take-append_length, drop-append_length, decode-codes) refl

write_headers : List (String × Bytes) → Bytes → Bytes
unfolding pack
write_headers [] rest = rest
write_headers ((name, held) ∷ headers) rest =
    pack (codes name) (pack held (write_headers headers rest))

read_headers : ℕ → Bytes → List (String × Bytes) × Bytes
unfolding unpack decode
read_headers zero l = ([], l)
read_headers (suc n) l =
    let name = unpack l in
    let held = unpack name.1 in
    let rest = read_headers n held.1 in ((decode name.0, held.0) ∷ rest.0, rest.1)

header_count : List (String × Bytes) → ℕ
header_count [] = 0
header_count (h ∷ headers) = suc (header_count headers)

read_headers-write_headers :
    (headers : List (String × Bytes)) (rest : Bytes)
    → read_headers (header_count headers) (write_headers headers rest) ≡ (headers, rest)
unfolding read_headers write_headers header_count
read_headers-write_headers [] rest = refl
read_headers-write_headers ((name, held) ∷ headers) rest =
    let ih = read_headers-write_headers headers rest in
    simp (take-append_length, drop-append_length, decode-codes, ih) refl

write_block : Block → Bytes
unfolding write_headers header_count pack
write_block b = header_count b.headers ∷ write_headers b.headers (pack (codes b.block_type) b.bytes)

read_block : Bytes → Option (Block × Bytes)
unfolding read_headers unpack decode
read_block [] = none
read_block (n ∷ l) =
    let headers = read_headers n l in
    let kind = unpack headers.1 in
    some (record { block_type = decode kind.0; headers = headers.0; bytes = kind.1 }, [])

read_block-write_block : (b : Block) → read_block (write_block b) ≡ some (b, [])
unfolding read_block write_block
read_block-write_block b =
    simp (read_headers-write_headers, take-append_length, drop-append_length, decode-codes) refl

-- On a machine with a key; the cipher leaves its text as it is.
pub codec : Codec
unfolding write_tokens read_tokens write_block read_block
codec = record {
  marshal = λ t. some (write_tokens t);
  unmarshal = read_tokens;
  pem_encode = λ b. some (write_block b);
  pem_decode = λ l. read_block (drop (length pem_header) l);
  protected_id = some (codes "0123456789abcdef0123456789abcdef");
  hex_decode = λ b. some b;
  base64_encode = λ b. b;
  base64_decode = λ b. some b;
  random_nonce = some (7 ∷ []);
  seal = λ key bytes plain. plain;
  unseal = λ key bytes sealed. some sealed;
}

pub codec-IsInverse : IsInverse codec
unfolding codec
codec-IsInverse = record {
  json = λ t b e. ap read_tokens (sym (some_inj e)) ∙ read_tokens-write_tokens t;
  pem = λ b encoded e.
      ap read_block (drop-append_length pem_header encoded ∙ sym (some_inj e))
      ∙ read_block-write_block b;
  base64 = λ n. refl;
  cipher = λ key bytes plain. refl;
}

pub codec-IsTotal : IsTotal codec
unfolding codec
codec-IsTotal = record {
  json = λ t. (write_tokens t, refl);
  pem = λ b valid. (write_block b, refl);
}
