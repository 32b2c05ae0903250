-- ===== src/Auth/Store/Working.antt =====
-- internal/auth/store.go: saving on a disk that takes it.
use open_friend_mc.Prelude.{
  Bool, false, ◌||◌, [], ◌∷◌, String, ◌==◌, comparable_nat, codes, All, ◌≡◌, refl, true, Option,
  none, some, if_lem, Result, ok, err, Bytes, is_empty,
}
use open_friend_mc.Auth.Net.{Tokens}
use open_friend_mc.Auth.Store.{
  Block, Codec, Disk, StoreError, Read, contents, missing, denied, write_file, remove_file,
  legacy_path, block_for, encrypt_machine_bound, encrypt_with, machine_key, save_text, save_body,
  save, moved, migrate, load_legacy, load_read, load,
}

-- No name of a header holds a colon, which is what `encoding/pem` asks for.
pub has_colon : Bytes → Bool
has_colon [] = false
has_colon (ch ∷ s) = (ch == b':') || has_colon s

abbrev pub NoColons : Block → Type 0
NoColons b = All (λ (h : String × Bytes). has_colon (codes h.0) ≡ false) b.headers

-- Tokens, and blocks that the library takes, can be written out.
pub record IsTotal (c : Codec) : Type 0 where
  pub json : (t : Tokens) → (b : Bytes) × (c.marshal t ≡ some b)
  pub pem : (b : Block) → NoColons b → (encoded : Bytes) × (c.pem_encode b ≡ some encoded)

pub record Works (d : Disk) : Type 0 where
  pub readable : d.readable ≡ true
  pub has_dir : d.has_dir ≡ true
  pub writable : d.writable ≡ true

module _ (c : Codec) where
  write_file-Works : (path raw : Bytes) (d : Disk) → Works d → Works (write_file path raw d).0
  unfolding write_file
  write_file-Works path raw d works =
      if_lem (λ (o : Disk × Result StoreError (Unit {0})). Works o.0) _ _ d.writable
        (λ e. record {
          readable = works.readable;
          has_dir = works.has_dir;
          writable = works.writable;
        })
        (λ e. works)

  save_text-Works :
      (path : Bytes) (o : Option Bytes) (d : Disk) → Works d → Works (save_text c path o d).0
  unfolding save_text
  save_text-Works path none d works = works
  save_text-Works path (some encoded) d works = write_file-Works path _ d works

  save_body-Works :
      (path : Bytes) (o : Option Bytes) (d : Disk) → Works d → Works (save_body c path o d).0
  unfolding save_body
  save_body-Works path none d works = works
  save_body-Works path (some body) d works = save_text-Works path _ d works

  pub save-Works : (path : Bytes) (t : Tokens) (d : Disk) → Works d → Works (save c path t d).0
  unfolding save
  save-Works path t d works =
      if_lem (λ (o : Disk × Result StoreError (Unit {0})). Works o.0) _ _ d.has_dir
        (λ e. save_body-Works path (c.marshal t) d works) (λ e. works)

  block_for-NoColons :
      (body : Bytes) (random : Option Bytes) (key : Result StoreError Bytes)
      → NoColons (block_for c body (encrypt_with c body random key))
  unfolding block_for encrypt_with has_colon
  block_for-NoColons body random (err e) = tt
  block_for-NoColons body none (ok key) = tt
  block_for-NoColons body (some nonce) (ok key) = (refl, (refl, tt))

  encoded-NoColons : (body : Bytes) → NoColons (block_for c body (encrypt_machine_bound c body))
  unfolding encrypt_machine_bound
  encoded-NoColons body = block_for-NoColons body c.random_nonce (machine_key c)

  pub save-succeeds :
      (path : Bytes) (t : Tokens) (d : Disk) → IsTotal c → Works d → (save c path t d).1 ≡ ok tt
  unfolding save save_body save_text write_file
  save-succeeds path t d total works =
      let (body, made) = total.json t in
      let (encoded, done) =
        total.pem (block_for c body (encrypt_machine_bound c body)) (encoded-NoColons body) in
      rw (works.has_dir, made, done, works.writable) refl

  pub remove_file-Works : (path : Bytes) (d : Disk) → Works d → Works (remove_file path d)
  unfolding remove_file
  remove_file-Works path d works =
      if_lem Works _ _ d.removable
        (λ e. record {
          readable = works.readable;
          has_dir = works.has_dir;
          writable = works.writable;
        })
        (λ e. works)

  moved-Works :
      (legacy : Bytes) (o : Disk × Result StoreError (Unit {0}))
      → Works o.0
      → Works (moved c legacy o)
  unfolding moved
  moved-Works legacy (d, ok u) works = remove_file-Works legacy d works
  moved-Works legacy (d, err e) works = works

  migrate-Works :
      (path legacy : Bytes) (r : Result StoreError Tokens) (d : Disk)
      → Works d
      → Works (migrate c path legacy r d).0
  unfolding migrate
  migrate-Works path legacy (err e) d works = works
  migrate-Works path legacy (ok t) d works = moved-Works legacy _ (save-Works path t d works)

  load_legacy-Works :
      (path legacy : Bytes) (r : Read) (d : Disk)
      → Works d
      → Works (load_legacy c path legacy r d).0
  unfolding load_legacy
  load_legacy-Works path legacy (contents raw) d works = migrate-Works path legacy _ d works
  load_legacy-Works path legacy missing d works = works
  load_legacy-Works path legacy denied d works = works

  load_read-Works : (path : Bytes) (r : Read) (d : Disk) → Works d → Works (load_read c path r d).0
  unfolding load_read
  load_read-Works path (contents raw) d works = works
  load_read-Works path denied d works = works
  load_read-Works path missing d works =
      if_lem (λ (o : Disk × Result StoreError (Option Tokens)). Works o.0) _ _
        (is_empty (legacy_path path)) (λ e. works)
        (λ e. load_legacy-Works path (legacy_path path) _ d works)

  pub load-Works : (path : Bytes) (d : Disk) → Works d → Works (load c path d).0
  unfolding load
  load-Works path d works = load_read-Works path _ d works
