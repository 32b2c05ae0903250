-- ===== src/Prelude/Json.antt =====
-- JSON documents as Go sees them in an `any`. A number is a whole one.
use Prim.Native.Nat.{ℕ}
use Prim.Native.String.{String}
use mathlib.Core.Bool.{Bool}
use mathlib.Core.Option.{Option, none, some}
use open_friend_mc.Prelude.Tests.{◌==◌, comparable_string, if◌then◌else◌}

-- What `json.Unmarshal` puts into an `any`; an object is a map, the latest value of each key.
mutual
  pub data Json : Type 0 where
    text : String → Json
    number : ℕ → Json
    object : Fields → Json
    array : Items → Json
    boolean : Bool → Json
    null : Json

  pub data Items : Type 0 where
    no_items : Items
    item : Json → Items → Items

  pub data Fields : Type 0 where
    no_fields : Fields
    field : String → Json → Fields → Fields

-- `m[key]` on a map that may be nil.
unfoldable pub at : String → Fields → Option Json
at key no_fields = none
at key (field name value rest) =
    let later = at key rest in if name == key then some value else later

abbrev pub as_text : Option Json → String
as_text (some (text s)) = s
as_text (some other_value) = ""
as_text none = ""

abbrev pub as_number : Option Json → ℕ
as_number (some (number n)) = n
as_number (some other_value) = 0
as_number none = 0

-- `s, _ := j[key].(string)`
unfoldable pub text_at : String → Fields → String
unfolding at
text_at key j = as_text (at key j)

-- `n, _ := j[key].(float64)`
unfoldable pub number_at : String → Fields → ℕ
unfolding at
number_at key j = as_number (at key j)

-- A nil map where decoding failed.
abbrev pub or_empty : Option Fields → Fields
or_empty (some j) = j
or_empty none = no_fields
