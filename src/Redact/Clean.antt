-- ===== src/Redact/Clean.antt =====
-- What the redaction of one object removes, what it keeps, and that once is enough.
use kubegate.Prelude.{
  String, false, Option, none, some, ◌==◌, ◌≡◌, refl, ◌⊎◌, ◌∙◌, inl, inr, eq_iff, Bool-cases,
  Option-cases,
}
use kubegate.Json.{Json, Fields, end, field, lookup, as_object}
use kubegate.Json.Laws.{lookup-delete, lookup-put}
use kubegate.Redact.{
  last_applied_annotation, kind_of, annotations_left, strip_fields, strip_annotation,
  strip_metadata, redact_object,
}

-- A lookup in a map that may not be there.
abbrev pub lookup_in : String → Option Fields → Option Json
lookup_in k none = none
lookup_in k (some fs) = lookup k fs

abbrev pub metadata_of : Fields → Option Fields
metadata_of obj = as_object (lookup "metadata" obj)

abbrev pub annotations_of : Option Fields → Option Fields
annotations_of meta = as_object (lookup_in "annotations" meta)

-- The manifest that kubectl apply has left on the object.
abbrev pub last_applied : Fields → Option Json
last_applied obj = lookup_in last_applied_annotation (annotations_of (metadata_of obj))

-- Nothing that the strict mode hides: no last-applied manifest, and no data or stringData unless
-- the object is a ConfigMap.
abbrev pub IsClean : Fields → String → Type 0
IsClean obj hint =
    (last_applied obj ≡ none)
    × ((kind_of obj hint ≡ "ConfigMap")
        ⊎ ((lookup "data" obj ≡ none) × (lookup "stringData" obj ≡ none)))

pub lookup-strip_metadata :
    (k : String) (obj : Fields)
    → ("metadata" == k) ≡ false
    → lookup k (strip_metadata obj).value ≡ lookup k obj
unfolding strip_metadata
lookup-strip_metadata k obj n = elim (Option-cases (metadata_of obj)) [
  | inl e ↦ rw (e, strip_metadata)
  | inr (meta, e) ↦ rw (e, strip_metadata, lookup-put, n)
]

annotations_left_clean :
    (meta anns : Fields)
    → lookup last_applied_annotation anns ≡ none
    → lookup_in last_applied_annotation (annotations_of (some (annotations_left meta anns))) ≡ none
annotations_left_clean meta end h = rw lookup-delete
annotations_left_clean meta (field k v fs) h = rw lookup-put h

strip_annotation_clean :
    (meta : Fields)
    → lookup_in last_applied_annotation (annotations_of (some (strip_annotation meta).value)) ≡ none
unfolding strip_annotation
strip_annotation_clean meta = elim (Option-cases (annotations_of (some meta))) [
  | inl e ↦ rw (e, strip_annotation) (rw e)
  | inr (anns, e) ↦ rw (e, strip_annotation) (annotations_left_clean meta _ (rw lookup-delete))
]

pub last_applied-strip_metadata : (obj : Fields) → last_applied (strip_metadata obj).value ≡ none
unfolding strip_metadata
last_applied-strip_metadata obj = elim (Option-cases (metadata_of obj)) [
  | inl e ↦ rw (e, strip_metadata) (rw e)
  | inr (meta, e) ↦ rw (e, strip_metadata) (rw lookup-put (strip_annotation_clean meta))
]

pub kind_of-strip_metadata :
    (obj : Fields) (hint : String) → kind_of (strip_metadata obj).value hint ≡ kind_of obj hint
unfolding kind_of
kind_of-strip_metadata obj hint = rw (lookup-strip_metadata "kind" obj refl)

pub kind_of-strip_fields :
    (obj : Fields) (hint : String) → kind_of (strip_fields obj).value hint ≡ kind_of obj hint
unfolding kind_of strip_fields
kind_of-strip_fields obj hint = rw (lookup-delete "stringData" "kind", lookup-delete "data" "kind")

-- The two cases of the redaction: a ConfigMap keeps its data.
pub redact_object_config_map :
    (obj : Fields) (hint : String)
    → kind_of obj hint ≡ "ConfigMap"
    → redact_object obj hint ≡ strip_metadata obj
unfolding redact_object
redact_object_config_map obj hint e = rw e

pub redact_object_other :
    (obj : Fields) (hint : String)
    → (kind_of obj hint == "ConfigMap") ≡ false
    → (redact_object obj hint).value ≡ (strip_metadata (strip_fields obj).value).value
unfolding redact_object
redact_object_other obj hint e = rw e

pub strip_fields_data :
    (obj : Fields)
    → (lookup "data" (strip_fields obj).value ≡ none)
      × (lookup "stringData" (strip_fields obj).value ≡ none)
unfolding strip_fields
strip_fields_data obj = (
  rw (lookup-delete "stringData" "data", lookup-delete "data" "data"),
  rw (lookup-delete "stringData" "stringData"),
)

-- A redacted object holds no last-applied manifest, and no data or stringData unless it is a
-- ConfigMap, by its own kind or, where it names none, by the hint.
pub redact_object-IsClean :
    (obj : Fields) (hint : String) → IsClean (redact_object obj hint).value hint
redact_object-IsClean obj hint = elim (Bool-cases (kind_of obj hint == "ConfigMap")) [
  | inl c ↦
      let e = (eq_iff _ _).0 c in
      rw (redact_object_config_map obj hint e)
        (last_applied-strip_metadata obj, inl (kind_of-strip_metadata obj hint ∙ e))
  | inr c ↦
      let (d, s) = strip_fields_data obj in
      rw (redact_object_other obj hint c) (
        last_applied-strip_metadata _,
        inr (
          lookup-strip_metadata "data" _ refl ∙ d,
          lookup-strip_metadata "stringData" _ refl ∙ s,
        ),
      )
]
