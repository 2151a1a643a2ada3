-- ===== src/Redact/Again.antt =====
-- A second redaction changes nothing.
use kubegate.Prelude.{
  String, false, Option, none, some, ◌==◌, ◌≡◌, refl, ◌≢◌, ◌∙◌, inl, inr, ap, eq_iff, Bool-cases,
  Option-cases,
}
use kubegate.Json.{Json, object, Fields, end, field, lookup, as_object}
use kubegate.Json.Laws.{lookup-delete, lookup-put, delete_absent, put_same}
use kubegate.Redact.{
  Redacted, last_applied_annotation, kind_of, annotations_left, strip_fields, strip_annotation,
  strip_metadata, redact_object,
}
use kubegate.Redact.Clean.{
  lookup_in, metadata_of, annotations_of, last_applied, IsClean, redact_object-IsClean,
  redact_object_config_map, redact_object_other,
}

abbrev pub unchanged : Fields → Redacted Fields
unchanged obj = record { value = obj; changed = false }

-- The object has no empty map of annotations.
abbrev NoEmptyAnnotations : Option Fields → Type 0
NoEmptyAnnotations meta = annotations_of meta ≢ some end

as_object-some : (o : Option Json) {fs : Fields} → as_object o ≡ some fs → o ≡ some (object fs)
as_object-some (some (object gs)) h = cc
as_object-some _ h = cc

annotations_left_same :
    (meta anns : Fields)
    → anns ≢ end
    → lookup "annotations" meta ≡ some (object anns)
    → annotations_left meta anns ≡ meta
annotations_left_same meta end n h = absurd (n refl)
annotations_left_same meta (field k v fs) n h = put_same "annotations" _ meta h

strip_annotation_fixed :
    (meta : Fields)
    → lookup_in last_applied_annotation (annotations_of (some meta)) ≡ none
    → NoEmptyAnnotations (some meta)
    → strip_annotation meta ≡ unchanged meta
unfolding strip_annotation
strip_annotation_fixed meta h n = elim (Option-cases (annotations_of (some meta))) [
  | inl e ↦ rw (e, strip_annotation)
  | inr (anns, e) ↦
      rw (e, strip_annotation)
        (rw (
          rw e at h,
          delete_absent last_applied_annotation anns (rw e at h),
          annotations_left_same meta anns (λ x. n (e ∙ ap some x)) (as_object-some _ e),
        ))
]

strip_metadata_fixed :
    (obj : Fields)
    → last_applied obj ≡ none
    → NoEmptyAnnotations (metadata_of obj)
    → strip_metadata obj ≡ unchanged obj
unfolding strip_metadata
strip_metadata_fixed obj h n = elim (Option-cases (metadata_of obj)) [
  | inl e ↦ rw (e, strip_metadata)
  | inr (meta, e) ↦
      rw (e, strip_metadata)
        (rw (
          strip_annotation_fixed meta (rw e at h) (rw e at n),
          put_same "metadata" _ obj (as_object-some _ e),
        ))
]

annotations_left_nonempty :
    (meta anns : Fields) → NoEmptyAnnotations (some (annotations_left meta anns))
annotations_left_nonempty meta end h = cc (rw (lookup-delete "annotations" "annotations" meta) at h)
annotations_left_nonempty meta (field k v fs) h =
    cc (rw (lookup-put "annotations" "annotations" (object (field k v fs)) meta) at h)

strip_annotation_nonempty :
    (meta : Fields) → NoEmptyAnnotations (some (strip_annotation meta).value)
unfolding strip_annotation
strip_annotation_nonempty meta = elim (Option-cases (annotations_of (some meta))) [
  | inl e ↦ rw (e, strip_annotation) (λ h. cc (e, h))
  | inr (anns, e) ↦ rw (e, strip_annotation) (annotations_left_nonempty meta _)
]

strip_metadata_nonempty :
    (obj : Fields) → NoEmptyAnnotations (metadata_of (strip_metadata obj).value)
unfolding strip_metadata
strip_metadata_nonempty obj = elim (Option-cases (metadata_of obj)) [
  | inl e ↦ rw (e, strip_metadata) (rw e (λ h. cc h))
  | inr (meta, e) ↦
      rw (e, strip_metadata)
        (rw (lookup-put "metadata" "metadata") (strip_annotation_nonempty meta))
]

redact_object_fixed :
    (obj : Fields) (hint : String)
    → IsClean obj hint
    → NoEmptyAnnotations (metadata_of obj)
    → redact_object obj hint ≡ unchanged obj
unfolding redact_object strip_fields
redact_object_fixed obj hint (l, inl c) n =
    rw (redact_object_config_map obj hint c) (strip_metadata_fixed obj l n)
redact_object_fixed obj hint (l, inr (d, s)) n =
    elim (Bool-cases (kind_of obj hint == "ConfigMap")) [
      | inl c ↦
          rw (redact_object_config_map obj hint ((eq_iff _ _).0 c)) (strip_metadata_fixed obj l n)
      | inr c ↦ rw (
        c,
        d,
        delete_absent "data" obj d,
        s,
        delete_absent "stringData" obj s,
        strip_metadata_fixed obj l n,
      )
    ]

redact_object_nonempty :
    (obj : Fields) (hint : String) → NoEmptyAnnotations (metadata_of (redact_object obj hint).value)
redact_object_nonempty obj hint = elim (Bool-cases (kind_of obj hint == "ConfigMap")) [
  | inl c ↦ rw (redact_object_config_map obj hint ((eq_iff _ _).0 c)) (strip_metadata_nonempty obj)
  | inr c ↦ rw (redact_object_other obj hint c) (strip_metadata_nonempty _)
]

-- Redacting a redacted object again, with the same hint, leaves it as it is and reports no change.
pub redact_object_idem :
    (obj : Fields) (hint : String)
    → redact_object (redact_object obj hint).value hint ≡ unchanged (redact_object obj hint).value
redact_object_idem obj hint =
    redact_object_fixed _ hint (redact_object-IsClean obj hint) (redact_object_nonempty obj hint)
