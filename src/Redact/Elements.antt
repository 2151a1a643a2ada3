-- ===== src/Redact/Elements.antt =====
-- The elements of lists and tables: clean after redaction, and before it where nothing changed.
use kubegate.Prelude.{
  String, false, Option, none, some, ◌==◌, ◌≡◌, refl, inl, inr, eq_iff, or_left, or_right,
  Bool-cases, Option-cases,
}
use kubegate.Json.{Json, object, Items, nil, cons, Fields, lookup, delete, as_object, is_present}
use kubegate.Json.Laws.{lookup-delete, lookup-put}
use kubegate.Redact.{
  last_applied_annotation, kind_of, strip_fields, strip_annotation, strip_metadata, redact_object,
  redact_item, redact_items, redact_row, redact_rows,
}
use kubegate.Redact.Clean.{
  lookup_in, metadata_of, annotations_of, last_applied, IsClean, redact_object-IsClean,
}
use kubegate.Redact.Keeps.{lookup-strip_fields}

-- An element of a list that is an object is clean.
abbrev pub ItemIsClean : Json → String → Type 0
ItemIsClean (object obj) kind = IsClean obj kind
ItemIsClean v kind = Unit

abbrev pub ItemsAreClean : Items → String → Type 0
ItemsAreClean nil kind = Unit
ItemsAreClean (cons v vs) kind = ItemIsClean v kind × ItemsAreClean vs kind

abbrev pub MaybeClean : Option Fields → Type 0
MaybeClean none = Unit
MaybeClean (some obj) = IsClean obj ""

-- The object that a row of a Table carries is clean.
abbrev pub RowIsClean : Json → Type 0
RowIsClean (object row) = MaybeClean (as_object (lookup "object" row))
RowIsClean v = Unit

abbrev pub RowsAreClean : Items → Type 0
RowsAreClean nil = Unit
RowsAreClean (cons v vs) = RowIsClean v × RowsAreClean vs

pub redact_items_clean :
    (vs : Items) (kind : String) → ItemsAreClean (redact_items vs kind).value kind
unfolding redact_items redact_item
redact_items_clean nil kind = tt
redact_items_clean (cons (object obj) vs) kind =
    (redact_object-IsClean obj kind, redact_items_clean vs kind)
redact_items_clean (cons v vs) kind = (tt, redact_items_clean vs kind)

redact_row_clean : (v : Json) → RowIsClean (redact_row v).value
unfolding redact_row
redact_row_clean (object row) = elim (Option-cases (as_object (lookup "object" row))) [
  | inl e ↦ rw (e, redact_row) (rw e tt)
  | inr (obj, e) ↦
      rw (e, redact_row) (rw (lookup-put "object" "object") (redact_object-IsClean obj ""))
]
redact_row_clean v = tt

pub redact_rows_clean : (vs : Items) → RowsAreClean (redact_rows vs).value
unfolding redact_rows
redact_rows_clean nil = tt
redact_rows_clean (cons v vs) = (redact_row_clean v, redact_rows_clean vs)

absent : (o : Option Json) → is_present o ≡ false → o ≡ none
absent none h = refl
absent (some v) h = cc

strip_annotation_unchanged :
    (meta : Fields)
    → (strip_annotation meta).changed ≡ false
    → lookup_in last_applied_annotation (annotations_of (some meta)) ≡ none
unfolding strip_annotation
strip_annotation_unchanged meta h = elim (Option-cases (annotations_of (some meta))) [
  | inl e ↦ rw e
  | inr (anns, e) ↦ rw e (absent _ (rw (e, strip_annotation) at h))
]

strip_metadata_unchanged :
    (obj : Fields) → (strip_metadata obj).changed ≡ false → last_applied obj ≡ none
unfolding strip_metadata
strip_metadata_unchanged obj h = elim (Option-cases (metadata_of obj)) [
  | inl e ↦ rw e
  | inr (meta, e) ↦ rw e (strip_annotation_unchanged meta (rw (e, strip_metadata) at h))
]

strip_fields_unchanged :
    (obj : Fields)
    → (strip_fields obj).changed ≡ false
    → (lookup "data" obj ≡ none) × (lookup "stringData" obj ≡ none)
unfolding strip_fields
strip_fields_unchanged obj h =
    let with_string_data =
      or_right (is_present (lookup "data" obj))
        (is_present (lookup "stringData" (delete "data" obj))) h in
    (
      absent _ (or_left _ _ h),
      absent _ (rw (lookup-delete "data" "stringData" obj) at with_string_data),
    )

-- Where nothing was changed, the object was clean.
pub redact_object_unchanged :
    (obj : Fields) (hint : String) → (redact_object obj hint).changed ≡ false → IsClean obj hint
unfolding redact_object
redact_object_unchanged obj hint h = elim (Bool-cases (kind_of obj hint == "ConfigMap")) [
  | inl c ↦ (strip_metadata_unchanged obj (rw c at h), inl ((eq_iff _ _).0 c))
  | inr c ↦
      let h' = (rw c at h) in
      (
        rw (lookup-strip_fields "metadata" obj refl refl) at
            (strip_metadata_unchanged (strip_fields obj).value (or_right _ _ h')),
        inr (strip_fields_unchanged obj (or_left _ _ h')),
      )
]

pub redact_items_unchanged :
    (vs : Items) (kind : String) → (redact_items vs kind).changed ≡ false → ItemsAreClean vs kind
unfolding redact_items redact_item
redact_items_unchanged nil kind h = tt
redact_items_unchanged (cons (object obj) vs) kind h = (
  redact_object_unchanged obj kind (or_left _ _ h),
  redact_items_unchanged vs kind (or_right _ _ h),
)
redact_items_unchanged (cons v vs) kind h = (tt, redact_items_unchanged vs kind h)

redact_row_unchanged : (v : Json) → (redact_row v).changed ≡ false → RowIsClean v
unfolding redact_row
redact_row_unchanged (object row) h = elim (Option-cases (as_object (lookup "object" row))) [
  | inl e ↦ rw e tt
  | inr (obj, e) ↦ rw e (redact_object_unchanged obj "" (rw (e, redact_row) at h))
]
redact_row_unchanged v h = tt

pub redact_rows_unchanged : (vs : Items) → (redact_rows vs).changed ≡ false → RowsAreClean vs
unfolding redact_rows
redact_rows_unchanged nil h = tt
redact_rows_unchanged (cons v vs) h =
    (redact_row_unchanged v (or_left _ _ h), redact_rows_unchanged vs (or_right _ _ h))
