-- ===== src/Bypass.antt =====
-- internal/bypass/key.go: the key file, over the files and the PEM library of Auth/Store.
pub mod Reading
use open_friend_mc.Prelude.{
  ℕ, Bool, not, ◌||◌, List, [], ◌++◌, Option, none, some, String, ◌==◌, comparable_string,
  comparable_nat, if◌then◌else◌, Result, ok, err, Bytes, length, codes,
}
use open_friend_mc.Auth.Store.{
  Block, Codec, Disk, Read, contents, missing, denied, read_file, write_file, StoreError,
}

abbrev pub pem_type : String
pem_type = "OPENFRIEND BYPASS KEY"

abbrev pub key_bytes : ℕ
key_bytes = 32

pub key_header : Bytes
key_header =
    codes "# OpenFriend bypass shared secret. The same file must be present on the\n"
    ++ (codes "# Minecraft server (next to OpenFriendBypass plugin) and the Go bridge.\n"
        ++ codes "# Treat this like a password.\n")

-- `not_found` is the error of a file that does not exist.
pub data KeyError : Type 0 where
  not_found unreadable not_a_key wrong_length no_random not_encoded not_written : KeyError

module _ (c : Codec) where
  key_in : Option (Block × Bytes) → Result KeyError Bytes
  key_in none = err not_a_key
  key_in (some (block, rest)) =
      if not (block.block_type == pem_type)
      then err not_a_key
      else if not (length block.bytes == key_bytes)
      then err wrong_length
      else ok block.bytes

  key_read : Read → Result KeyError Bytes
  unfolding key_in
  key_read missing = err not_found
  key_read denied = err unreadable
  key_read (contents raw) = key_in (c.pem_decode raw)

  unfoldable pub load_key : Bytes → Disk → Result KeyError Bytes
  unfolding key_read
  load_key path d = key_read (read_file path d)

  or_absent : Result KeyError Bytes → Result KeyError (Option Bytes)
  or_absent (ok key) = ok (some key)
  or_absent (err not_found) = ok none
  or_absent (err unreadable) = err unreadable
  or_absent (err not_a_key) = err not_a_key
  or_absent (err wrong_length) = err wrong_length
  or_absent (err no_random) = err no_random
  or_absent (err not_encoded) = err not_encoded
  or_absent (err not_written) = err not_written

  unfoldable pub load_or_absent : Bytes → Disk → Result KeyError (Option Bytes)
  unfolding or_absent
  load_or_absent path d = or_absent (load_key path d)

  written : Bytes → Disk × Result StoreError (Unit {0}) → Disk × Result KeyError Bytes
  written key (d, ok u) = (d, ok key)
  written key (d, err e) = (d, err not_written)

  store_key : Bytes → Bytes → Option Bytes → Disk → Disk × Result KeyError Bytes
  unfolding written
  store_key path key none d = (d, err not_encoded)
  store_key path key (some encoded) d = written key (write_file path (key_header ++ encoded) d)

  abbrev pub key_block : Bytes → Block
  key_block key = record { block_type = pem_type; headers = []; bytes = key }

  -- `Generate`, with what the source of random bytes gives.
  unfoldable pub generate_key : Bytes → Option Bytes → Disk → Disk × Result KeyError Bytes
  unfolding store_key
  generate_key path none d = (d, err no_random)
  generate_key path (some key) d =
      if d.has_dir
      then store_key path key (c.pem_encode (key_block key)) d
      else (d, err not_written)
