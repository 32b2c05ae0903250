-- ===== src/Bypass/Reading.antt =====
-- internal/bypass/key.go: reading what was generated.
use open_friend_mc.Prelude.{
  ◌≡◌, refl, ◌∙◌, true, [], ◌++◌, Option, none, some, ==_refl, comparable_string, comparable_nat,
  if_lem, Result, ok, err, Bytes, length,
}
use open_friend_mc.Prelude.Assoc.{lookup, insert, lookup-insert}
use open_friend_mc.Prelude.Text.{comparable_text}
use open_friend_mc.Auth.Store.{Block, Codec, Disk, read_file, write_file, StoreError}
use open_friend_mc.Bypass.{
  KeyError, key_in, key_read, key_header, load_key, load_or_absent, or_absent, written, store_key,
  generate_key, key_block,
}

module _ (c : Codec)
    (back : (b : Block) (encoded : Bytes)
      → c.pem_encode b ≡ some encoded
      → c.pem_decode (key_header ++ encoded) ≡ some (b, [])) where
  abbrev Reads : Bytes → Bytes → Disk × Result KeyError Bytes → Type 0
  Reads path key (d, ok made) = (made ≡ key) × (load_or_absent c path d ≡ ok (some key))
  Reads path key (d, err e) = Unit {0}

  load_or_absent-inserted :
      (path key encoded : Bytes) (d : Disk)
      → length key ≡ 32
      → d.readable ≡ true
      → c.pem_encode (key_block c key) ≡ some encoded
      → load_or_absent c path (record d { files = insert path (key_header ++ encoded) d.files })
        ≡ ok (some key)
  unfolding load_or_absent or_absent load_key key_read key_in read_file
  load_or_absent-inserted path key encoded d long may made =
      let held : lookup path (insert path (key_header ++ encoded) d.files)
          ≡ some (key_header ++ encoded) =
        lookup-insert path path (key_header ++ encoded) d.files ∙ rw (==_refl path) refl in
      simp (held, may, back (key_block c key) encoded made, long) refl

  store_key-Reads :
      (path key : Bytes) (o : Option Bytes) (d : Disk)
      → length key ≡ 32
      → d.readable ≡ true
      → c.pem_encode (key_block c key) ≡ o
      → Reads path key (store_key c path key o d)
  unfolding store_key written write_file
  store_key-Reads path key none d long may made = tt
  store_key-Reads path key (some encoded) d long may made =
      if_lem (λ (o : Disk × Result StoreError (Unit {0})). Reads path key (written c key o)) _ _
        d.writable (λ e. (refl, load_or_absent-inserted path key encoded d long may made)) (λ e. tt)

  -- Where the decoder undoes the encoder and the file may be read: the key of 32 bytes that `Generate`
  -- returned is the one that `LoadOrAbsent` finds afterwards.
  generate_key-Reads :
      (path key : Bytes) (d : Disk)
      → length key ≡ 32
      → d.readable ≡ true
      → Reads path key (generate_key c path (some key) d)
  unfolding generate_key
  generate_key-Reads path key d long may =
      if_lem (Reads path key) _ _ d.has_dir (λ e. store_key-Reads path key _ d long may refl)
        (λ e. tt)
