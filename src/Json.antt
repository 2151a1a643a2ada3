-- ===== src/Json.antt =====
-- Decoded JSON, as encoding/json gives it in a value of type `any`, and the accesses that the
-- program makes: type assertions, map lookups, deletions and assignments.
pub mod Laws
use kubegate.Prelude.{String, Bool, true, false, Option, none, some, List, ℕ, ◌==◌, if◌then◌else◌}

mutual
  pub data Json : Type 0 where
    null : Json
    boolean : Bool → Json
    number : String → Json
    text : String → Json
    array : Items → Json
    object : Fields → Json

  -- `[]any`
  pub data Items : Type 0 where
    nil : Items
    cons : Json → Items → Items

  -- `map[string]any`; the first entry of a key counts.
  pub data Fields : Type 0 where
    end : Fields
    field : String → Json → Fields → Fields

-- `m[k]`
unfoldable pub lookup : String → Fields → Option Json
lookup k end = none
lookup k (field j v fs) = if j == k then some v else lookup k fs

-- `delete(m, k)`
unfoldable pub delete : String → Fields → Fields
delete k end = end
delete k (field j v fs) = if j == k then delete k fs else field j v (delete k fs)

-- `m[k] = v`
unfoldable pub put : String → Json → Fields → Fields
put k v end = field k v end
put k v (field j w fs) = if j == k then field j v fs else field j w (put k v fs)

-- `_, ok := m[k]`
abbrev pub is_present : Option Json → Bool
is_present none = false
is_present (some v) = true

-- `len(m) == 0`
abbrev pub has_no_field : Fields → Bool
has_no_field end = true
has_no_field (field j v fs) = false

-- `v.(map[string]any)`, `v.([]any)` and `v.(string)` of a lookup's result.
abbrev pub as_object : Option Json → Option Fields
as_object (some (object fs)) = some fs
as_object _ = none

abbrev pub as_array : Option Json → Option Items
as_array (some (array vs)) = some vs
as_array _ = none

abbrev pub as_text : Option Json → Option String
as_text (some (text s)) = some s
as_text _ = none

-- The string of a lookup, "" where there is none: `s, _ := v.(string)`.
abbrev pub str : Option Json → String
str (some (text s)) = s
str _ = ""

-- The bytes of a document.
abbrev pub Bytes : Type 0
Bytes = List ℕ

-- encoding/json, which the program calls on whole documents: `none` is an error. Nothing is
-- assumed of the two functions.
pub record Codec : Type 0 where
  pub decode : Bytes → Option Json
  pub encode : Json → Option Bytes

-- What `json.Unmarshal` into a `map[string]any` accepts: an object, or null for a nil map.
abbrev map_only : Option Json → Option Json
map_only (some (object fs)) = some (object fs)
map_only (some null) = some null
map_only _ = none

abbrev pub decode_map : Codec → Bytes → Option Json
decode_map codec b = map_only (codec.decode b)

-- The entries of such a map; a nil map reads as an empty one.
abbrev pub entries : Json → Fields
entries (object fs) = fs
entries _ = end
