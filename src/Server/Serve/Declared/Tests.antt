-- ===== src/Server/Serve/Declared/Tests.antt =====
-- A list of pods in JSON, of which the cluster declares the length.
use kubegate.Prelude.{false, some, [], ◌∷◌, ◌≡◌, refl, inl, inr}
use kubegate.Text.{contains, cut_prefix, has_suffix}
use kubegate.Text.Lower.{contains_lower}
use kubegate.Json.{object, end, lookup, delete, put}
use kubegate.Policy.Engine.{redaction_enabled}
use kubegate.Redact.{
  redact_body, redact_root, redact_object, strip_fields, strip_metadata, strip_annotation, kind_of,
}
use kubegate.Redact.Stream
use kubegate.Redact.Stream.{
  eof, stream, stream_loop, read_frame, after_chunk, write_frame, trim_space, is_space, drop_spaces,
  drop_end_spaces, redact_frame,
}
use kubegate.Discovery.Documents.{is_discovery_path}
use kubegate.Server.Negotiate.{is_json, is_watch, is_pod_log}
use kubegate.Server.Handler.{forward, authorize_request, rewrite}
use kubegate.Server.Response.{Response, streamed, modify_response, buffer, filter_step, redact_step}
use kubegate.Server.Serve.{
  Outside, write, write_all, write_header, set_header, set_length, answering, deliver, exchange,
  act, serve,
}
use kubegate.Server.Serve.Recorded.{total}
use kubegate.Server.Serve.Declared.{Fits, IsTakenWhole, serve-Fits}
use kubegate.Server.Tests.{
  strict, asked, sent, asked-sent, asked-request, pods_request, protobuf, strict_redacts,
}
use kubegate.Server.Serve.Tests.{outside}

abbrev listed : Response
listed = record protobuf { content_type = "application/json"; content_length = some 3 }

abbrev listing : Outside
listing = record outside {
  codec = record { decode = λ b. some (object end); encode = λ v. some (123 ∷ 125 ∷ []) };
  round_trip = λ r. some listed;
  taken = λ bs. 1000;
}

whole : (act listing strict pods_request (forward sent)).aborted ≡ false
unfolding act exchange deliver write_all write write_header set_header set_length rewrite
    modify_response redaction_enabled is_discovery_path is_json contains is_watch is_pod_log buffer
    filter_step redact_step redact_body redact_root redact_object strip_fields strip_metadata
    strip_annotation kind_of lookup delete put contains_lower cut_prefix has_suffix
whole = refl

served : (serve listing strict asked).aborted ≡ false
unfolding serve
served = rw (asked-sent, asked-request) whole

-- Two bytes for the three that the cluster has declared.
taken_whole :
    IsTakenWhole strict.engine
      (authorize_request strict asked).request
      (answering (rewrite listing.base sent) listed)
unfolding is_json contains contains_lower is_watch is_pod_log rewrite
taken_whole = rw asked-request (inl (refl, inr (strict_redacts, refl)))

serve-Fits_example : Fits (serve listing strict asked).recorded.wire
serve-Fits_example = serve-Fits listing strict asked sent listed asked-sent refl taken_whole served

-- The refusal of a watch, in one line that is not ended.
abbrev refusal : Response
refusal = record listed {
  status = 410;
  content_length = some 2;
  body = 123 ∷ 125 ∷ [];
  chunks = record { bytes = 123 ∷ 125 ∷ []; err = some eof } ∷ [];
}

-- A redacted watch keeps the length that the cluster declares, though each line is ended anew.
watch_misfits :
    let wire = (deliver listing sent refusal (streamed refusal.chunks)).recorded.wire in
    (wire.declared ≡ some 2) × (total wire.body ≡ 3)
unfolding deliver stream stream_loop read_frame after_chunk write_frame trim_space is_space
    drop_spaces drop_end_spaces redact_frame lookup Stream.write write_all write write_header
    set_header set_length
watch_misfits = (refl, refl)
