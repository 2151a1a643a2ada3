-- ===== src/Redact/Tests.antt =====
-- Concrete documents: a Secret, a watch event that carries one, and one that carries a Table.
use kubegate.Prelude.{
  String, ◌≡◌, refl, ◌≢◌, inr, arith, true, false, none, some, List, [], ◌∷◌, All, eq_iff,
}
use kubegate.Text.{has_suffix}
use kubegate.Json.{
  Json, text, array, object, nil, cons, Fields, end, field, lookup, delete, put, Codec,
}
use kubegate.Redact.{
  kind_of, strip_fields, strip_annotation, strip_metadata, redact_object, redact_root, redact_body,
  body,
}
use kubegate.Redact.Clean.{metadata_of}
use kubegate.Redact.Keeps.{KeepsMetadata, redact_object_keeps}
use kubegate.Redact.Body.{Inspected, redact_body_clean}
use kubegate.Redact.Stream.{
  Chunk, Sink, out_of_fuel, eof, is_space, drop_spaces, drop_end_spaces, trim_space, redact_frame,
  write, write_failed, write_frame, stream,
}
use kubegate.Redact.Stream.Frames.{IsPassed, stream-IsPassed, LeavesNone, write_frame_fails_closed}
use kubegate.Redact.Stream.Ends.{stream_total}
use kubegate.Redact.Stream.Tables.{rows_of, redact_frame-rows}

abbrev secret : Fields
secret = field "kind" (text "Secret") (
    field "data" (object (field "password" (text "cGFzcw==") end))
      (field "metadata" (object (field "name" (text "db") end)) end))

-- A codec that knows one document and one encoding.
abbrev codec_of : Fields → Codec
codec_of root = record { decode = λ b. some (object root); encode = λ v. some (123 ∷ 125 ∷ []) }

-- A codec that can decode nothing.
abbrev broken_codec : Codec
broken_codec = record { decode = λ b. none; encode = λ v. none }

abbrev kind_key : String
kind_key = "kind"

kind_is_not_metadata : kind_key ≢ "metadata"
kind_is_not_metadata = ground (arith, eq_iff "kind" "metadata")

kind_is_no_data : (kind_key ≢ "data") × (kind_key ≢ "stringData")
kind_is_no_data = (ground (arith, eq_iff "kind" "data"), ground (arith, eq_iff "kind" "stringData"))

redact_object_keeps_example :
    (lookup "kind" (redact_object secret "").value ≡ lookup "kind" secret)
    × KeepsMetadata (metadata_of secret) (metadata_of (redact_object secret "").value)
redact_object_keeps_example =
    redact_object_keeps secret "" "kind" kind_is_not_metadata (inr kind_is_no_data)

secret_redacted : redact_body (codec_of secret) (1 ∷ []) ≡ body (123 ∷ 125 ∷ []) true
unfolding redact_body redact_root redact_object strip_fields strip_metadata strip_annotation kind_of
    lookup delete put has_suffix
secret_redacted = refl

redact_body_clean_example : Inspected (codec_of secret) (1 ∷ []) (123 ∷ 125 ∷ []) true
redact_body_clean_example =
    redact_body_clean (codec_of secret) (1 ∷ []) (123 ∷ 125 ∷ []) true secret_redacted

abbrev event : Fields → Fields
event obj = field "type" (text "ADDED") (field "object" (object obj) end)

abbrev lines : List Chunk
lines =
    record { bytes = 123 ∷ 125 ∷ 10 ∷ []; err = none }
    ∷ record { bytes = 123 ∷ []; err = some eof }
    ∷ []

abbrev empty_sink : Sink
empty_sink = record {
  written = [];
  accepts = λ n. true;
  leaves = λ n. 0;
  torn = [];
  has_flush = true;
  flushes = 0;
}

stream-IsPassed_example :
    All
      (IsPassed (codec_of (event secret)))
      (stream (codec_of (event secret)) lines empty_sink).1.written
stream-IsPassed_example = stream-IsPassed (codec_of (event secret)) lines empty_sink tt

-- A destination that takes the first two bytes of a write, which then fails.
abbrev closing_sink : Sink
closing_sink = record empty_sink { accepts = λ n. false; leaves = λ n. 2 }

write_refused :
    (write_frame (codec_of (event secret)) (123 ∷ 125 ∷ []) closing_sink).0 ≡ some write_failed
unfolding write_frame trim_space is_space drop_spaces drop_end_spaces redact_frame redact_object
    strip_fields strip_annotation strip_metadata kind_of lookup delete put write
write_refused = refl

write_frame_fails_closed_example :
    LeavesNone
      (codec_of (event secret))
      write_failed
      closing_sink
      (write_frame (codec_of (event secret)) (123 ∷ 125 ∷ []) closing_sink).1
write_frame_fails_closed_example =
    write_frame_fails_closed (codec_of (event secret)) write_failed (123 ∷ 125 ∷ []) closing_sink
      write_refused

stream_total_example : (stream broken_codec lines empty_sink).0 ≢ out_of_fuel
stream_total_example = stream_total broken_codec lines empty_sink

-- A row whose object was applied with its manifest in an annotation.
abbrev applied_row : Json
applied_row = object (
    field "object"
      (object (
        field "metadata"
          (object (
            field "annotations"
              (object (field "kubectl.kubernetes.io/last-applied-configuration" (text "{}") end))
              end))
          end))
      end)

abbrev table : Fields
table = field "kind" (text "Table") (field "rows" (array (cons applied_row nil)) end)

table-event_passed : redact_frame (object (event table)) ≡ some (object (event table))
unfolding redact_frame redact_object strip_fields strip_metadata strip_annotation kind_of lookup
    delete put
table-event_passed = refl

table_in_event : lookup "object" (event table) ≡ some (object table)
unfolding lookup
table_in_event = refl

redact_frame-rows_example : rows_of (lookup "object" (event table)) ≡ lookup "rows" table
redact_frame-rows_example =
    redact_frame-rows (object (event table)) (object (event table)) table table_in_event
      table-event_passed
