-- ===== src/Ipc/Blocklist/Saving.antt =====
-- internal/ipc/blocklist.go: what a restart reads of the list that was saved.
use open_friend_mc.Prelude.{
  ℕ, ◌≡◌, refl, sym, ap, ◌∙◌, arith, Bool, true, false, List, [], ◌∷◌, Option, none, some, String,
  ◌==◌, ==_iff, comparable_nat, if◌then◌else◌, if_lem, ok, Bytes,
}
use open_friend_mc.Prelude.Assoc.{lookup, insert, erase, lookup-insert, lookup-erase}
use open_friend_mc.Ipc.Blocklist.{
  RowCodec, Row, Blocklist, BlockFile, take_row, take_rows, loaded_rows, loaded_file,
  load_blocklist, rows_of, save_rows, save_blocklist, add, remove, Changed,
}

-- Keys are distinct, as in a map.
abbrev pub Distinct : List (ℕ × String) → Type 0
Distinct [] = Unit {0}
Distinct ((id, name) ∷ ids) = (lookup id ids ≡ none) × Distinct ids

insert-Distinct :
    (id : ℕ) (name : String) (ids : List (ℕ × String))
    → Distinct ids
    → Distinct (insert id name ids)
unfolding insert lookup
insert-Distinct id name [] distinct = (refl, tt)
insert-Distinct id name ((other, held) ∷ ids) (fresh, distinct) =
    if_lem Distinct _ _ (other == id)
      (λ e. (sym (ap (λ k. lookup k ids) ((==_iff other id).0 e)) ∙ fresh, distinct))
      (λ e. (
        lookup-insert id other name ids ∙ ground (arith, fresh),
        insert-Distinct id name ids distinct,
      ))

erase-Distinct : (id : ℕ) (ids : List (ℕ × String)) → Distinct ids → Distinct (erase id ids)
unfolding erase lookup
erase-Distinct id [] distinct = tt
erase-Distinct id ((other, held) ∷ ids) (fresh, distinct) =
    if_lem Distinct _ _ (other == id) (λ e. erase-Distinct id ids distinct)
      (λ e. (lookup-erase id other ids ∙ ground (arith, fresh), erase-Distinct id ids distinct))

abbrev or_else : Option String → Option String → Option String
or_else none before = before
or_else (some name) before = some name

or_else-if :
    (held before : Option String) (test : Bool) (name : String)
    → (test ≡ true → held ≡ none)
    → or_else held (if test then some name else before)
      ≡ or_else (if test then some name else held) before
or_else-if held before true name gone = rw (gone refl) refl
or_else-if held before false name gone = refl

lookup_same :
    (id j : ℕ) (ids : List (ℕ × String))
    → lookup id ids ≡ none
    → (id == j) ≡ true
    → lookup j ids ≡ none
lookup_same id j ids fresh e = ap (λ k. lookup k ids) (sym ((==_iff id j).0 e)) ∙ fresh

module _ (c : RowCodec) (back : (id : ℕ) → c.parse (c.print id) ≡ some id) where
  take_rows-known :
      (id : ℕ) (name : String) (rows : List Row) (into : List (ℕ × String))
      → take_rows c ((c.print id, name) ∷ rows) into ≡ take_rows c rows (insert id name into)
  unfolding take_rows take_row
  take_rows-known id name rows into = rw (back id) refl

  lookup-take_rows :
      (ids into : List (ℕ × String)) (j : ℕ)
      → Distinct ids
      → lookup j (take_rows c (rows_of c ids) into) ≡ or_else (lookup j ids) (lookup j into)
  unfolding rows_of lookup
  lookup-take_rows [] into j distinct = unfold take_rows in refl
  lookup-take_rows ((id, name) ∷ ids) into j (fresh, distinct) =
      ap (lookup j) (take_rows-known id name (rows_of c ids) into)
      ∙ (lookup-take_rows ids (insert id name into) j distinct
          ∙ (ap (or_else (lookup j ids)) (lookup-insert id j name into)
              ∙ or_else-if (lookup j ids) (lookup j into) (id == j) name
                  (lookup_same id j ids fresh)))

  lookup-saved :
      (ids : List (ℕ × String)) (j : ℕ)
      → Distinct ids
      → lookup j (take_rows c (rows_of c ids) []) ≡ lookup j ids
  unfolding lookup
  lookup-saved ids j distinct = lookup-take_rows ids [] j distinct ∙ or_else-none (lookup j ids)
    where
      or_else-none : (o : Option String) → or_else o none ≡ o
      or_else-none none = refl
      or_else-none (some name) = refl

  -- What a start reads of the file: the names by their ids.
  Reads : BlockFile → (ℕ → Option String) → Type 0
  Reads file names =
      (b : Blocklist) × ((load_blocklist c file ≡ ok b) × ((j : ℕ) → lookup j b.ids ≡ names j))

  abbrev Undone : Type 0
  Undone = (rows : List Row) (raw : Bytes) → c.marshal rows ≡ some raw → c.unmarshal raw ≡ some rows

  save_rows-Reads :
      Undone
      → (b : Blocklist) (o : Option Bytes) → Distinct b.ids
      → b.file.may_read ≡ true
      → c.marshal (rows_of c b.ids) ≡ o
      → (save_rows c b o).1 ≡ ok tt
      → Reads (save_rows c b o).0.file (λ j. lookup j b.ids)
  unfolding save_rows load_blocklist loaded_file loaded_rows Reads
  save_rows-Reads json b none distinct may made = λ done. cc
  save_rows-Reads json b (some raw) distinct may made =
      if_lem (λ (x : Changed c). x.1 ≡ ok tt → Reads x.0.file (λ j. lookup j b.ids)) _ _
        b.file.may_write
        (λ e done. (
          record {
            ids = take_rows c (rows_of c b.ids) [];
            file = record (b.file) { contents = some raw };
          },
          (simp (may, json (rows_of c b.ids) raw made) refl, λ j. lookup-saved b.ids j distinct),
        ))
        (λ e done. cc)

  -- Where JSON and the text of a UUID are read back as they were written, and the file may be read:
  -- when `Add` succeeds, a later start reads the old entries with the new one in place.
  pub add-load :
      Undone
      → (id : ℕ) (name : String) (b : Blocklist) → Distinct b.ids
      → b.file.may_read ≡ true
      → (add c id name b).1 ≡ ok tt
      → (after : Blocklist) × ((load_blocklist c (add c id name b).0.file ≡ ok after)
          × ((j : ℕ) → lookup j after.ids ≡ (if id == j then some name else lookup j b.ids)))
  unfolding add save_blocklist Reads
  add-load json id name b distinct may done =
      let (after, (read, same)) =
        save_rows-Reads json (record b { ids = insert id name b.ids }) _
          (insert-Distinct id name b.ids distinct) may refl done in
      (after, (read, λ j. same j ∙ lookup-insert id j name b.ids))

  -- Likewise for `Remove`: a later start reads the old entries but the one removed.
  pub remove-load :
      Undone
      → (id : ℕ) (b : Blocklist) → Distinct b.ids
      → b.file.may_read ≡ true
      → (remove c id b).1 ≡ ok tt
      → (after : Blocklist) × ((load_blocklist c (remove c id b).0.file ≡ ok after)
          × ((j : ℕ) → lookup j after.ids ≡ (if id == j then none else lookup j b.ids)))
  unfolding remove save_blocklist Reads
  remove-load json id b distinct may done =
      let (after, (read, same)) =
        save_rows-Reads json (record b { ids = erase id b.ids }) _
          (erase-Distinct id b.ids distinct) may refl done in
      (after, (read, λ j. same j ∙ lookup-erase id j b.ids))
