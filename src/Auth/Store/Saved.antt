-- ===== src/Auth/Store/Saved.antt =====
-- internal/auth/store.go: what `Load` reads after `Save`, and after itself.
use open_friend_mc.Prelude.{
  ◌-◌, ◌≡◌, ◌≢◌, refl, ap, ◌∙◌, arith, Bool, true, false, ◌&&◌, [], ◌++◌, Option, none, some, leb,
  ◌==◌, ==_iff, ==_refl, comparable_string, if_lem, Result, ok, err, Bytes, length, take, drop,
  codes, is_empty, length-append, length-take, Bool-cases, inl, inr,
}
use open_friend_mc.Prelude.Assoc.{lookup, insert, lookup-insert, lookup-erase}
use open_friend_mc.Prelude.Text.{same_text, comparable_text}
use open_friend_mc.Auth.Net.{Tokens}
use open_friend_mc.Auth.Store.{
  Block, Codec, Disk, StoreError, Read, contents, missing, denied, read_file, write_file,
  remove_file, legacy_path, pem_header, pem_type, machine_key, encrypt_with, encrypt_machine_bound,
  decrypt_machine_bound, decrypt_header, decrypt_nonce, decrypt_with, unsealed, block_body,
  use_block, parse_pem_loop, parse_pem, block_for, save_text, save_body, save, moved, migrate,
  load_legacy, load_read, load,
}

-- What a decoder makes of its encoder's output.
pub record IsInverse (c : Codec) : Type 0 where
  pub json : (t : Tokens) (b : Bytes) → c.marshal t ≡ some b → c.unmarshal b ≡ some t
  pub pem :
      (b : Block) (encoded : Bytes)
      → c.pem_encode b ≡ some encoded
      → c.pem_decode (pem_header ++ encoded) ≡ some (b, [])
  pub base64 : (n : Bytes) → c.base64_decode (c.base64_encode n) ≡ some n
  pub cipher : (key nonce plain : Bytes) → c.unseal key nonce (c.seal key nonce plain) ≡ some plain

module _ (c : Codec) (inverse : IsInverse c) where
  block_body-block_for :
      (body : Bytes) (random : Option Bytes) (key : Result StoreError Bytes)
      → machine_key c ≡ key
      → block_body c (block_for c body (encrypt_with c body random key)) ≡ ok body
  unfolding block_body block_for encrypt_with lookup same_text decrypt_machine_bound decrypt_header
      decrypt_nonce decrypt_with unsealed
  block_body-block_for body random (err e) same = refl
  block_body-block_for body none (ok key) same = refl
  block_body-block_for body (some bytes) (ok key) same =
      rw (inverse.base64 bytes, same, inverse.cipher key bytes body) refl

  block_type-block_for :
      (body : Bytes) (random : Option Bytes) (key : Result StoreError Bytes)
      → (block_for c body (encrypt_with c body random key)).block_type ≡ pem_type
  unfolding block_for encrypt_with
  block_type-block_for body random (err e) = refl
  block_type-block_for body none (ok key) = refl
  block_type-block_for body (some bytes) (ok key) = refl

  abbrev block_of : Bytes → Block
  block_of body = block_for c body (encrypt_machine_bound c body)

  block_of-lem :
      (body : Bytes)
      → (block_body c (block_of body) ≡ ok body) × ((block_of body).block_type ≡ pem_type)
  unfolding encrypt_machine_bound
  block_of-lem body = (
    block_body-block_for body c.random_nonce (machine_key c) refl,
    block_type-block_for body c.random_nonce (machine_key c),
  )

  parse_pem-encoded :
      (t : Tokens) (body encoded : Bytes)
      → c.marshal t ≡ some body
      → c.pem_encode (block_of body) ≡ some encoded
      → parse_pem c (pem_header ++ encoded) ≡ ok t
  unfolding parse_pem parse_pem_loop use_block
  parse_pem-encoded t body encoded made encoded_as =
      let (same_body, same_type) = block_of-lem body in
      rw
        (
          inverse.pem (block_of body) encoded encoded_as,
          same_type,
          same_body,
          inverse.json t body made,
        )
        refl

  abbrev pub written : Bytes → Bytes → Disk → Disk
  written path raw d = record d { files = insert path raw d.files }

  abbrev Saved : Bytes → Tokens → Disk → Disk × Result StoreError (Unit {0}) → Type 0
  Saved path t d (after, ok u) =
      (raw : Bytes) × ((after ≡ written path raw d) × (parse_pem c raw ≡ ok t))
  Saved path t d (after, err e) = after ≡ d

  save_text-Saved :
      (path : Bytes) (t : Tokens) (body : Bytes) (encoded : Option Bytes) (d : Disk)
      → c.marshal t ≡ some body
      → c.pem_encode (block_of body) ≡ encoded
      → Saved path t d (save_text c path encoded d)
  unfolding save_text write_file
  save_text-Saved path t body none d made same = refl
  save_text-Saved path t body (some encoded) d made same =
      if_lem (Saved path t d) _ _ d.writable
        (λ e. (pem_header ++ encoded, (refl, parse_pem-encoded t body encoded made same)))
        (λ e. refl)

  save_body-Saved :
      (path : Bytes) (t : Tokens) (body : Option Bytes) (d : Disk)
      → c.marshal t ≡ body
      → Saved path t d (save_body c path body d)
  unfolding save_body
  save_body-Saved path t none d made = refl
  save_body-Saved path t (some body) d made = save_text-Saved path t body _ d made refl

  save-Saved : (path : Bytes) (t : Tokens) (d : Disk) → Saved path t d (save c path t d)
  unfolding save
  save-Saved path t d =
      if_lem (Saved path t d) _ _ d.has_dir (λ e. save_body-Saved path t _ d refl) (λ e. refl)

  -- What a load says of a disk whose credentials file has the text.
  load-present :
      (path raw : Bytes) (d : Disk)
      → d.readable ≡ true
      → lookup path d.files ≡ some raw
      → load c path d ≡ (d, elim (parse_pem c raw) [ ok t ↦ ok (some t) | err e ↦ err e ])
  unfolding load load_read read_file
  load-present path raw d may held = rw (held, may) refl

  Saved-load :
      (path : Bytes) (t : Tokens) (d : Disk) (o : Disk × Result StoreError (Unit {0}))
      → Saved path t d o
      → d.readable ≡ true
      → o.1 ≡ ok tt
      → load c path o.0 ≡ (o.0, ok (some t))
  Saved-load path t d (after, err e) saved may done = cc
  Saved-load path t d (after, ok u) (raw, (same, parsed)) may done = rw same (
      load-present path raw (written path raw d) may
        (lookup-insert path path raw d.files ∙ rw (==_refl path) refl)
      ∙ rw parsed refl)

  -- Where the decoders undo the encoders and the file can be read: a `Load` after a `Save` that
  -- succeeded gives the tokens saved and leaves the disk alone, with a machine key or without.
  pub save-load :
      (path : Bytes) (t : Tokens) (d : Disk)
      → d.readable ≡ true
      → (save c path t d).1 ≡ ok tt
      → load c path (save c path t d).0 ≡ ((save c path t d).0, ok (some t))
  save-load path t d may done = Saved-load path t d _ (save-Saved path t d) may done

  longer :
      (path : Bytes)
      → leb 4 (length path) ≡ true
      → take (length path - 4) path ++ codes ".json" ≢ path
  longer path long same =
      let cut = take (length path - 4) path in
      ground (
        arith,
        ap length same,
        length-append cut (codes ".json"),
        length-take (length path - 4) path,
      )

  &&-left : (a b : Bool) → (a && b) ≡ true → a ≡ true
  &&-left true b e = refl
  &&-left false b e = e

  legacy_path-differs :
      (path : Bytes) → is_empty (legacy_path path) ≡ false → legacy_path path ≢ path
  unfolding legacy_path
  legacy_path-differs path =
      if_lem (λ (l : Bytes). is_empty l ≡ false → l ≢ path) _ _
        (leb 4 (length path) && same_text (drop (length path - 4) path) (codes ".pem"))
        (λ e full same. longer path (&&-left _ _ e) same) (λ e full same. cc)

  apart : (s t : Bytes) → s ≢ t → (s == t) ≡ false
  apart s t other = elim (Bool-cases (s == t)) [
    | inl e ↦ absurd (other ((==_iff s t).0 e))
    | inr e ↦ e
  ]

  moved-load :
      (path legacy raw : Bytes) (t : Tokens) (d : Disk)
      → legacy ≢ path
      → d.readable ≡ true
      → parse_pem c raw ≡ ok t
      → load c path (remove_file legacy (written path raw d))
        ≡ (remove_file legacy (written path raw d), ok (some t))
  unfolding remove_file
  moved-load path legacy raw t d other may parsed =
      let kept = lookup-insert path path raw d.files ∙ rw (==_refl path) refl in
      if_lem (λ (after : Disk). load c path after ≡ (after, ok (some t))) _ _ d.removable
        (λ e.
          load-present path raw _ may
            (lookup-erase legacy path (insert path raw d.files) ∙ rw (apart legacy path other) kept)
          ∙ rw parsed refl)
        (λ e. load-present path raw _ may kept ∙ rw parsed refl)

  -- A second load says what the first said, and changes nothing more.
  Settled : Bytes → Disk × Result StoreError (Option Tokens) → Type 0
  Settled path (after, r) = load c path after ≡ (after, r)

  moved-Settled :
      (path legacy : Bytes) (t : Tokens) (d : Disk)
      → legacy ≢ path
      → d.readable ≡ true
      → (o : Disk × Result StoreError (Unit {0})) → Saved path t d o
      → load c path d ≡ (moved c legacy o, ok (some t))
      → Settled path (moved c legacy o, ok (some t))
  unfolding moved Settled
  moved-Settled path legacy t d other may (after, err e) saved first =
      ap (load c path) saved ∙ first
  moved-Settled path legacy t d other may (after, ok u) (raw, (same, parsed)) first =
      rw same (moved-load path legacy raw t d other may parsed)

  migrate-Settled :
      (path legacy : Bytes) (r : Result StoreError Tokens) (d : Disk)
      → legacy ≢ path
      → d.readable ≡ true
      → load c path d ≡ migrate c path legacy r d
      → Settled path (migrate c path legacy r d)
  unfolding migrate Settled
  migrate-Settled path legacy (err e) d other may first = first
  migrate-Settled path legacy (ok t) d other may first =
      moved-Settled path legacy t d other may (save c path t d) (save-Saved path t d) first

  contents-readable :
      (path raw : Bytes) (d : Disk) → read_file path d ≡ contents raw → d.readable ≡ true
  unfolding read_file
  contents-readable path raw d same = ground arith

  load_legacy-Settled :
      (path legacy : Bytes) (r : Read) (d : Disk)
      → legacy ≢ path
      → read_file legacy d ≡ r
      → load c path d ≡ load_legacy c path legacy r d
      → Settled path (load_legacy c path legacy r d)
  unfolding load_legacy Settled
  load_legacy-Settled path legacy (contents raw) d other same first =
      migrate-Settled path legacy _ d other (contents-readable legacy raw d same) first
  load_legacy-Settled path legacy missing d other same first = first
  load_legacy-Settled path legacy denied d other same first = first

  load_read-Settled :
      (path : Bytes) (r : Read) (d : Disk)
      → load c path d ≡ load_read c path r d
      → Settled path (load_read c path r d)
  unfolding load_read Settled
  load_read-Settled path (contents raw) d first = first
  load_read-Settled path denied d first = first
  load_read-Settled path missing d first = elim (Bool-cases (is_empty (legacy_path path))) [
    | inl e ↦ rw e (first ∙ rw e refl)
    | inr e ↦ rw e (
        load_legacy-Settled path (legacy_path path) _ d (legacy_path-differs path e) refl
          (first ∙ rw e refl))
  ]

  -- Where the decoders undo the encoders, `Load` is idempotent: right after a `Load`, with the move of
  -- a legacy file that it may have made, another one gives the same answer, error or tokens, and
  -- leaves the disk as it is.
  load-load : (path : Bytes) (d : Disk) → load c path (load c path d).0 ≡ load c path d
  unfolding load Settled
  load-load path d = load_read-Settled path (read_file path d) d refl
