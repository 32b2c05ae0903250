-- ===== src/Auth/Store.antt =====
-- internal/auth/store.go and crypto.go: the credentials file. JSON, PEM, hexadecimal, base64, AES-GCM,
-- the machine id and the random nonce are arguments; with a key of 32 bytes the cipher is always made.
pub mod Saved
pub mod Working
use open_friend_mc.Prelude.{
  ℕ, suc, zero, ◌+◌, ◌-◌, Bool, true, false, not, ◌&&◌, List, [], ◌∷◌, ◌++◌, Option, none, some,
  String, ltb, leb, ◌==◌, comparable_string, if◌then◌else◌, Result, ok, err, Bytes, length, take,
  drop, codes, is_empty,
}
use open_friend_mc.Prelude.Assoc.{lookup, insert, erase}
use open_friend_mc.Prelude.Text.{same_text, comparable_text}
use open_friend_mc.Auth.Net.{Tokens}

abbrev pub pem_type : String
pem_type = "OPENFRIEND CREDENTIALS"

abbrev pub cipher_machine_bound : Bytes
cipher_machine_bound = codes "AES-256-GCM-MachineBound"

pub pem_header : Bytes
pem_header =
    codes "# OpenFriend credentials. Treat this file like a password.\n"
    ++ (codes "# Bound to this machine "
        ++ ((0xe2 ∷ 0x80 ∷ 0x94 ∷ [])
            ++ (codes " copying to another machine will fail.\n"
                ++ (codes "# If compromised, run `openfriend --reset` and revoke at\n"
                    ++ codes "# https://account.microsoft.com/privacy/app-access\n"))))

pub data StoreError : Type 0 where
  io_failed no_block bad_json encode_failed : StoreError
  key_unavailable no_random missing_nonce bad_nonce wrong_machine : StoreError
  unsupported_cipher : StoreError

-- `pem.Block`
pub record Block : Type 0 where
  pub block_type : String
  pub headers : List (String × Bytes)
  pub bytes : Bytes

pub record Codec : Type 0 where
  pub marshal : Tokens → Option Bytes
  pub unmarshal : Bytes → Option Tokens
  pub pem_encode : Block → Option Bytes
  pub pem_decode : Bytes → Option (Block × Bytes)
  pub protected_id : Option Bytes
  pub hex_decode : Bytes → Option Bytes
  pub base64_encode : Bytes → Bytes
  pub base64_decode : Bytes → Option Bytes
  pub random_nonce : Option Bytes
  pub seal : (key nonce plain : Bytes) → Bytes
  pub unseal : (key nonce sealed : Bytes) → Option Bytes

-- The files by their paths, and what the system lets the program do to them.
pub record Disk : Type 0 where
  pub files : List (Bytes × Bytes)
  pub readable : Bool
  pub has_dir : Bool
  pub writable : Bool
  pub removable : Bool

-- `os.ReadFile`: `ErrNotExist` apart.
pub data Read : Type 0 where
  contents : Bytes → Read
  missing denied : Read

abbrev read_as : Bool → Option Bytes → Read
read_as readable none = missing
read_as readable (some raw) = if readable then contents raw else denied

unfoldable pub read_file : Bytes → Disk → Read
read_file path d = read_as d.readable (lookup path d.files)

unfoldable pub write_file : Bytes → Bytes → Disk → Disk × Result StoreError (Unit {0})
write_file path raw d =
    if d.writable then (record d { files = insert path raw d.files }, ok tt) else (d, err io_failed)

unfoldable pub remove_file : Bytes → Disk → Disk
remove_file path d = if d.removable then record d { files = erase path d.files } else d

-- `legacyPath`, where the empty path is Go's "".
unfoldable pub legacy_path : Bytes → Bytes
legacy_path path =
    let base = length path - 4 in
    if leb 4 (length path) && same_text (drop base path) (codes ".pem")
    then take base path ++ codes ".json"
    else []

module _ (c : Codec) where
  key_of : Option Bytes → Result StoreError Bytes
  key_of none = err key_unavailable
  key_of (some raw) = if ltb (length raw) 32 then err key_unavailable else ok (take 32 raw)

  machine_key_of : Option Bytes → Result StoreError Bytes
  unfolding key_of
  machine_key_of none = err key_unavailable
  machine_key_of (some id) = key_of (c.hex_decode id)

  unfoldable pub machine_key : Result StoreError Bytes
  unfolding machine_key_of
  machine_key = machine_key_of c.protected_id

  abbrev pub bound_block : (key nonce plain : Bytes) → Block
  bound_block key nonce plain = record {
    block_type = pem_type;
    headers = ("Cipher", cipher_machine_bound) ∷ ("Nonce", c.base64_encode nonce) ∷ [];
    bytes = c.seal key nonce plain;
  }

  encrypt_with : Bytes → Option Bytes → Result StoreError Bytes → Result StoreError Block
  encrypt_with plain random (err e) = err e
  encrypt_with plain none (ok key) = err no_random
  encrypt_with plain (some nonce) (ok key) = ok (bound_block key nonce plain)

  unfoldable pub encrypt_machine_bound : Bytes → Result StoreError Block
  unfolding encrypt_with
  encrypt_machine_bound plain = encrypt_with plain c.random_nonce machine_key

  unsealed : Option Bytes → Result StoreError Bytes
  unsealed none = err wrong_machine
  unsealed (some plain) = ok plain

  decrypt_with : Bytes → Bytes → Result StoreError Bytes → Result StoreError Bytes
  unfolding unsealed
  decrypt_with sealed nonce (err e) = err wrong_machine
  decrypt_with sealed nonce (ok key) = unsealed (c.unseal key nonce sealed)

  decrypt_nonce : Bytes → Option Bytes → Result StoreError Bytes
  unfolding decrypt_with
  decrypt_nonce sealed none = err bad_nonce
  decrypt_nonce sealed (some nonce) = decrypt_with sealed nonce machine_key

  decrypt_header : Bytes → Option Bytes → Result StoreError Bytes
  unfolding decrypt_nonce
  decrypt_header sealed none = err missing_nonce
  decrypt_header sealed (some nonce64) = decrypt_nonce sealed (c.base64_decode nonce64)

  unfoldable pub decrypt_machine_bound : Block → Result StoreError Bytes
  unfolding decrypt_header
  decrypt_machine_bound block = decrypt_header block.bytes (lookup "Nonce" block.headers)

  abbrev tokens_json : Option Tokens → Result StoreError Tokens
  tokens_json none = err bad_json
  tokens_json (some t) = ok t

  unfoldable pub parse_legacy_json : Bytes → Result StoreError Tokens
  parse_legacy_json raw = tokens_json (c.unmarshal raw)

  abbrev or_nil : Option Bytes → Bytes
  or_nil none = []
  or_nil (some value) = value

  unfoldable pub block_body : Block → Result StoreError Bytes
  unfolding decrypt_machine_bound
  block_body block =
      let cipher = or_nil (lookup "Cipher" block.headers) in
      if same_text cipher cipher_machine_bound
      then decrypt_machine_bound block
      else if is_empty cipher
      then ok block.bytes
      else err unsupported_cipher

  abbrev parsed_body : Result StoreError Bytes → Result StoreError Tokens
  parsed_body (err e) = err e
  parsed_body (ok body) = tokens_json (c.unmarshal body)

  -- What the loop does with a decoded block; `again` looks for the next one.
  unfoldable pub use_block :
      (Bytes → Result StoreError Tokens) → Option (Block × Bytes) → Result StoreError Tokens
  unfolding block_body
  use_block again none = err no_block
  use_block again (some (block, rest)) =
      if block.block_type == pem_type then parsed_body (block_body block) else again rest

  -- `parsePEM`; each block takes at least a byte, so the length of the text is fuel enough.
  unfoldable pub parse_pem_loop : ℕ → Bytes → Result StoreError Tokens
  unfolding use_block
  parse_pem_loop zero raw = err no_block
  parse_pem_loop (suc fuel) raw = use_block (parse_pem_loop fuel) (c.pem_decode raw)

  unfoldable pub parse_pem : Bytes → Result StoreError Tokens
  unfolding parse_pem_loop
  parse_pem raw = parse_pem_loop (suc (length raw)) raw

  -- `Save`: the block, bound to the machine where that can be done.
  unfoldable pub block_for : Bytes → Result StoreError Block → Block
  block_for body (ok block) = block
  block_for body (err e) = record { block_type = pem_type; headers = []; bytes = body }

  save_text : Bytes → Option Bytes → Disk → Disk × Result StoreError (Unit {0})
  save_text path none d = (d, err encode_failed)
  save_text path (some encoded) d = write_file path (pem_header ++ encoded) d

  save_body : Bytes → Option Bytes → Disk → Disk × Result StoreError (Unit {0})
  unfolding save_text
  save_body path none d = (d, err bad_json)
  save_body path (some body) d =
      save_text path (c.pem_encode (block_for body (encrypt_machine_bound body))) d

  unfoldable pub save : Bytes → Tokens → Disk → Disk × Result StoreError (Unit {0})
  unfolding save_body
  save path t d = if d.has_dir then save_body path (c.marshal t) d else (d, err io_failed)

  abbrev Loaded : Type 0
  Loaded = Disk × Result StoreError (Option Tokens)

  moved : Bytes → Disk × Result StoreError (Unit {0}) → Disk
  moved legacy (d, ok u) = remove_file legacy d
  moved legacy (d, err e) = d

  unfoldable pub migrate : Bytes → Bytes → Result StoreError Tokens → Disk → Loaded
  unfolding moved
  migrate path legacy (err e) d = (d, err e)
  migrate path legacy (ok t) d = (moved legacy (save path t d), ok (some t))

  load_legacy : Bytes → Bytes → Read → Disk → Loaded
  unfolding migrate
  load_legacy path legacy (contents raw) d = migrate path legacy (parse_legacy_json raw) d
  load_legacy path legacy missing d = (d, ok none)
  load_legacy path legacy denied d = (d, ok none)

  abbrev as_loaded : Result StoreError Tokens → Result StoreError (Option Tokens)
  as_loaded (ok t) = ok (some t)
  as_loaded (err e) = err e

  load_read : Bytes → Read → Disk → Loaded
  unfolding load_legacy
  load_read path (contents raw) d = (d, as_loaded (parse_pem raw))
  load_read path denied d = (d, err io_failed)
  load_read path missing d =
      let legacy = legacy_path path in
      if is_empty legacy then (d, ok none) else load_legacy path legacy (read_file legacy d) d

  unfoldable pub load : Bytes → Disk → Loaded
  unfolding load_read
  load path d = load_read path (read_file path d) d
