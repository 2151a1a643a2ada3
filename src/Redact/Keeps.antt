-- ===== src/Redact/Keeps.antt =====
-- What the redaction of one object leaves as it was.
use kubegate.Prelude.{
  String, false, Option, some, ◌==◌, ◌≡◌, refl, ◌≢◌, ◌⊎◌, ◌∙◌, inl, inr, eq_iff, Bool-cases,
  Option-cases,
}
use kubegate.Text.Laws.{test-ne}
use kubegate.Json.{Fields, end, field, lookup, delete}
use kubegate.Json.Laws.{lookup-delete, lookup-put}
use kubegate.Redact.{
  last_applied_annotation, kind_of, annotations_left, strip_fields, strip_annotation,
  strip_metadata, redact_object,
}
use kubegate.Redact.Clean.{
  lookup_in, metadata_of, annotations_of, lookup-strip_metadata, redact_object_config_map,
  redact_object_other,
}

-- Every entry of the metadata but the annotations, and every annotation but the manifest.
pub record KeepsMetadata (before after : Option Fields) : Type 0 where
  pub entry : (k : String) → ("annotations" == k) ≡ false → lookup_in k after ≡ lookup_in k before
  pub annotation :
      (a : String)
      → (last_applied_annotation == a) ≡ false
      → lookup_in a (annotations_of after) ≡ lookup_in a (annotations_of before)

annotations_left_entry :
    (meta anns : Fields) (k : String)
    → ("annotations" == k) ≡ false
    → lookup k (annotations_left meta anns) ≡ lookup k meta
annotations_left_entry meta end k n = rw (lookup-delete, n)
annotations_left_entry meta (field i v fs) k n = rw (lookup-put, n)

annotations_left_annotation :
    (meta anns : Fields) (a : String)
    → lookup_in a (annotations_of (some (annotations_left meta anns))) ≡ lookup a anns
unfolding lookup
annotations_left_annotation meta end a = rw (lookup-delete "annotations" "annotations")
annotations_left_annotation meta (field i v fs) a = rw (lookup-put "annotations" "annotations")

strip_annotation_keeps :
    (meta : Fields) → KeepsMetadata (some meta) (some (strip_annotation meta).value)
unfolding strip_annotation
strip_annotation_keeps meta = elim (Option-cases (annotations_of (some meta))) [
  | inl e ↦ rw (e, strip_annotation) (record { entry = λ k _. refl; annotation = λ a _. refl })
  | inr (anns, e) ↦
      rw (e, strip_annotation)
        (record {
          entry = λ k n. annotations_left_entry meta _ k n;
          annotation = λ a n.
              annotations_left_annotation meta (delete last_applied_annotation anns) a
              ∙ rw (lookup-delete, n, e);
        })
]

strip_metadata_keeps :
    (obj : Fields) → KeepsMetadata (metadata_of obj) (metadata_of (strip_metadata obj).value)
unfolding strip_metadata
strip_metadata_keeps obj = elim (Option-cases (metadata_of obj)) [
  | inl e ↦ rw (e, strip_metadata) (rw e (record { entry = λ k _. refl; annotation = λ a _. refl }))
  | inr (meta, e) ↦
      rw (e, strip_metadata) (rw (lookup-put "metadata" "metadata") (strip_annotation_keeps meta))
]

pub lookup-strip_fields :
    (k : String) (obj : Fields)
    → ("data" == k) ≡ false
    → ("stringData" == k) ≡ false
    → lookup k (strip_fields obj).value ≡ lookup k obj
unfolding strip_fields
lookup-strip_fields k obj d s = rw (lookup-delete, s, lookup-delete, d)

not_config_map :
    (obj : Fields) (hint k : String)
    → (kind_of obj hint == "ConfigMap") ≡ false
    → (kind_of obj hint ≡ "ConfigMap") ⊎ ((k ≢ "data") × (k ≢ "stringData"))
    → (k ≢ "data") × (k ≢ "stringData")
not_config_map obj hint k m (inl e) = cc ((eq_iff _ _).1 e)
not_config_map obj hint k m (inr d) = d

-- Of an object, redaction leaves every entry but data, stringData and metadata as it was, a
-- ConfigMap's data and stringData too; of the metadata, every entry but the annotations; of these,
-- every one but the last-applied manifest.
pub redact_object_keeps :
    (obj : Fields) (hint k : String)
    → k ≢ "metadata"
    → (kind_of obj hint ≡ "ConfigMap") ⊎ ((k ≢ "data") × (k ≢ "stringData"))
    → (lookup k (redact_object obj hint).value ≡ lookup k obj)
      × KeepsMetadata (metadata_of obj) (metadata_of (redact_object obj hint).value)
redact_object_keeps obj hint k n c = elim (Bool-cases (kind_of obj hint == "ConfigMap")) [
  | inl m ↦
      rw (redact_object_config_map obj hint ((eq_iff _ _).0 m))
        (lookup-strip_metadata k obj (test-ne "metadata" k n), strip_metadata_keeps obj)
  | inr m ↦
      let (d, s) = not_config_map obj hint k m c in
      rw (redact_object_other obj hint m) (
        lookup-strip_metadata k _ (test-ne "metadata" k n)
            ∙ lookup-strip_fields k obj (test-ne "data" k d) (test-ne "stringData" k s),
        rw (lookup-strip_fields "metadata" obj refl refl) at
            (strip_metadata_keeps (strip_fields obj).value),
      )
]
