-- ===== src/Redact.antt =====
-- internal/redact/redact.go: the redaction of decoded objects and of whole response bodies.
pub mod Clean
pub mod Keeps
pub mod Again
pub mod Elements
pub mod Body
pub mod Stream
mod Tests
use kubegate.Prelude.{
  String, Bool, true, false, ◌||◌, not, Option, none, some, List, ◌==◌, if◌then◌else◌,
}
use kubegate.Text.{has_suffix, trim_suffix}
use kubegate.Json.{
  Json, null, object, array, Items, nil, cons, Fields, lookup, delete, put, is_present,
  has_no_field, as_object, as_array, as_text, str, Bytes, Codec, decode_map, entries,
}

abbrev pub last_applied_annotation : String
last_applied_annotation = "kubectl.kubernetes.io/last-applied-configuration"

-- A value that was changed in place, and whether it was.
pub record Redacted (A : Type 0) : Type 0 where
  pub value : A
  pub changed : Bool

-- The kind that an object names, or the hint.
abbrev kind_or : Option String → String → String
kind_or none hint = hint
kind_or (some k) hint = if k == "" then hint else k

unfoldable pub kind_of : Fields → String → String
kind_of obj hint = kind_or (as_text (lookup "kind" obj)) hint

-- The loop over `data` and `stringData`.
unfoldable pub strip_fields : Fields → Redacted Fields
strip_fields obj =
    let with_data = is_present (lookup "data" obj) in
    let obj' = delete "data" obj in
    let with_string_data = is_present (lookup "stringData" obj') in
    record { value = delete "stringData" obj'; changed = with_data || with_string_data }

-- `metadata` once its annotations have been looked at.
abbrev annotations_left : Fields → Fields → Fields
annotations_left meta anns =
    if has_no_field anns then delete "annotations" meta else put "annotations" (object anns) meta

unfoldable pub strip_annotation : Fields → Redacted Fields
strip_annotation meta = elim (as_object (lookup "annotations" meta)) [
  | none ↦ record { value = meta; changed = false }
  | some anns ↦ record {
    value = annotations_left meta (delete last_applied_annotation anns);
    changed = is_present (lookup last_applied_annotation anns);
  }
]

unfoldable pub strip_metadata : Fields → Redacted Fields
unfolding strip_annotation
strip_metadata obj = elim (as_object (lookup "metadata" obj)) [
  | none ↦ record { value = obj; changed = false }
  | some meta ↦
      let r = strip_annotation meta in
      record { value = put "metadata" (object r.value) obj; changed = r.changed }
]

-- `Object`. A nil map is the empty one, which it leaves alone too.
unfoldable pub redact_object : Fields → String → Redacted Fields
redact_object obj hint =
    let first =
      if not (kind_of obj hint == "ConfigMap")
      then strip_fields obj
      else record { value = obj; changed = false } in
    let second = strip_metadata first.value in
    record { value = second.value; changed = first.changed || second.changed }

-- An element of `items`: only an object is looked at.
unfoldable pub redact_item : Json → String → Redacted Json
redact_item (object obj) kind =
    let r = redact_object obj kind in record { value = object r.value; changed = r.changed }
redact_item v kind = record { value = v; changed = false }

unfoldable pub redact_items : Items → String → Redacted Items
redact_items nil kind = record { value = nil; changed = false }
redact_items (cons v vs) kind =
    let r = redact_item v kind in
    let rest = redact_items vs kind in
    record { value = cons r.value rest.value; changed = r.changed || rest.changed }

-- `redactList`
unfoldable pub redact_list : Fields → String → Redacted Fields
redact_list root kind = elim (as_array (lookup "items" root)) [
  | none ↦ record { value = root; changed = false }
  | some items ↦
      let r = redact_items items kind in
      record { value = put "items" (array r.value) root; changed = r.changed }
]

-- A row of a Table: an object whose `object` is an object.
unfoldable pub redact_row : Json → Redacted Json
redact_row (object row) = elim (as_object (lookup "object" row)) [
  | none ↦ record { value = object row; changed = false }
  | some obj ↦
      let r = redact_object obj "" in
      record { value = object (put "object" (object r.value) row); changed = r.changed }
]
redact_row v = record { value = v; changed = false }

unfoldable pub redact_rows : Items → Redacted Items
redact_rows nil = record { value = nil; changed = false }
redact_rows (cons v vs) =
    let r = redact_row v in
    let rest = redact_rows vs in
    record { value = cons r.value rest.value; changed = r.changed || rest.changed }

-- `redactTable`
unfoldable pub redact_table : Fields → Redacted Fields
redact_table root = elim (as_array (lookup "rows" root)) [
  | none ↦ record { value = root; changed = false }
  | some rows ↦
      let r = redact_rows rows in
      record { value = put "rows" (array r.value) root; changed = r.changed }
]

-- The switch on the root's kind in `Body`.
unfoldable pub redact_root : Fields → Redacted Fields
redact_root root =
    let kind = str (lookup "kind" root) in
    if kind == "Table"
    then redact_table root
    else if has_suffix kind "List"
    then redact_list root (trim_suffix kind "List")
    else redact_object root ""

pub data BodyResult : Type 0 where
  body : Bytes → Bool → BodyResult
  decode_failed encode_failed : BodyResult

abbrev encoded : Option Bytes → BodyResult
encoded none = encode_failed
encoded (some out) = body out true

-- A changed root is never that of a nil map.
unfoldable pub redact_body : Codec → Bytes → BodyResult
redact_body codec b = elim (decode_map codec b) [
  | none ↦ decode_failed
  | some root ↦
      let r = redact_root (entries root) in
      if not r.changed then body b false else encoded (codec.encode (object r.value))
]
