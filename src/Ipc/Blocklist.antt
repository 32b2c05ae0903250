-- ===== src/Ipc/Blocklist.antt =====
-- internal/ipc/blocklist.go. JSON and the two sides of a UUID's text are arguments. A map's entries are
-- visited in the order of the list that stands for it.
pub mod Saving
use open_friend_mc.Prelude.{
  ℕ, Bool, true, false, List, [], ◌∷◌, Option, none, some, String, ◌==◌, comparable_nat,
  if◌then◌else◌, Result, ok, err, Bytes,
}
use open_friend_mc.Prelude.Assoc.{lookup, insert, erase}

pub data BlocklistError : Type 0 where
  unreadable bad_json not_marshalled not_written : BlocklistError

abbrev pub Row : Type 0
Row = Bytes × String

pub record RowCodec : Type 0 where
  pub marshal : List Row → Option Bytes
  pub unmarshal : Bytes → Option (List Row)
  pub parse : Bytes → Option ℕ
  pub print : ℕ → Bytes

-- The file is none where it does not exist.
pub record BlockFile : Type 0 where
  pub contents : Option Bytes
  pub may_read : Bool
  pub may_write : Bool

-- `Blocklist`, with the file at its path.
pub record Blocklist : Type 0 where
  pub ids : List (ℕ × String)
  pub file : BlockFile

module _ (c : RowCodec) where
  -- A row whose id is no UUID is skipped.
  take_row : Option ℕ → String → List (ℕ × String) → List (ℕ × String)
  take_row none name ids = ids
  take_row (some id) name ids = insert id name ids

  unfoldable pub take_rows : List Row → List (ℕ × String) → List (ℕ × String)
  unfolding take_row
  take_rows [] ids = ids
  take_rows ((text, name) ∷ rows) ids = take_rows rows (take_row (c.parse text) name ids)

  loaded_rows : BlockFile → Option (List Row) → Result BlocklistError Blocklist
  unfolding take_rows
  loaded_rows file none = err bad_json
  loaded_rows file (some rows) = ok (record { ids = take_rows rows []; file = file })

  loaded_file : BlockFile → Option Bytes → Result BlocklistError Blocklist
  unfolding loaded_rows
  loaded_file file none = ok (record { ids = []; file = file })
  loaded_file file (some raw) =
      if file.may_read then loaded_rows file (c.unmarshal raw) else err unreadable

  unfoldable pub load_blocklist : BlockFile → Result BlocklistError Blocklist
  unfolding loaded_file
  load_blocklist file = loaded_file file file.contents

  -- The rows that `save` writes and that `Snapshot` returns.
  unfoldable pub rows_of : List (ℕ × String) → List Row
  rows_of [] = []
  rows_of ((id, name) ∷ ids) = (c.print id, name) ∷ rows_of ids

  unfoldable pub snapshot : Blocklist → List Row
  unfolding rows_of
  snapshot b = rows_of b.ids

  abbrev pub Changed : Type 0
  Changed = Blocklist × Result BlocklistError (Unit {0})

  save_rows : Blocklist → Option Bytes → Changed
  save_rows b none = (b, err not_marshalled)
  save_rows b (some raw) =
      if b.file.may_write
      then (record b { file = record (b.file) { contents = some raw } }, ok tt)
      else (b, err not_written)

  unfoldable pub save_blocklist : Blocklist → Changed
  unfolding save_rows rows_of
  save_blocklist b = save_rows b (c.marshal (rows_of b.ids))

  unfoldable pub add : ℕ → String → Blocklist → Changed
  unfolding save_blocklist
  add id name b = save_blocklist (record b { ids = insert id name b.ids })

  unfoldable pub remove : ℕ → Blocklist → Changed
  unfolding save_blocklist
  remove id b = save_blocklist (record b { ids = erase id b.ids })

abbrev is_there {ℓ} : {A : Type ℓ} → Option A → Bool
is_there none = false
is_there (some a) = true

-- `Has`
unfoldable pub has : ℕ → Blocklist → Bool
has id b = is_there (lookup id b.ids)
