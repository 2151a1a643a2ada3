-- ===== src/Server/Watch/Tests.antt =====
-- A watch of one event, which the client is given in two pieces.
use kubegate.Prelude.{
  ◌+◌, ◌≤◌, Option, none, some, List, [], ◌∷◌, length, ◌≡◌, ◌≢◌, ◌⊎◌, refl, sym, ap, false, true,
}
use mathlib.Core.List.{flatten}
use kubegate.Json.{text, object, end, field, lookup, delete, put, Bytes, Codec}
use kubegate.Redact.{kind_of, strip_fields, strip_annotation, strip_metadata, redact_object}
use kubegate.Redact.Stream.{
  Chunk, StreamError, eof, read_frame, after_chunk, is_space, drop_spaces, drop_end_spaces,
  trim_space, redact_frame, stream,
}
use kubegate.Redact.Stream.Attempts.{attempt}
use kubegate.Redact.Stream
use kubegate.Redact.Stream.{stream_loop, write_frame}
use kubegate.Server.Http.{HttpRequest}
use kubegate.Server.Response.{Response, ProxyFailure, streamed}
use kubegate.Server.Serve.{
  Outside, pipe, write, write_all, write_header, set_header, set_length, deliver,
}
use kubegate.Server.Watch.Delivered.{got-deliver}
use kubegate.Server.Watch.{
  System, reading, offering, ended, closed, copying, finished, left, start, round, Step,
  read_source, take_piece, write_returns, close_both, read_end, Reach, here, next,
}
use kubegate.Server.Watch.Copied.{outcome, got-stream}
use kubegate.Server.Watch.Ends.{Steps, stays, goes, Steps-bound, watch_progress}

-- Each line is the deletion of a Secret, and each object is rendered as the empty one.
abbrev codec : Codec
codec = record {
  decode = λ b. some (
      object (
        field "type" (text "DELETED")
          (field "object" (object (field "kind" (text "Secret") end)) end)));
  encode = λ v. some (123 ∷ 125 ∷ []);
}

abbrev last : Chunk
last = record { bytes = []; err = some eof }

abbrev answer : List Chunk
answer = record { bytes = 120 ∷ 10 ∷ []; err = none } ∷ last ∷ []

round-first : round codec answer ≡ offering (123 ∷ 125 ∷ 10 ∷ []) none (last ∷ [])
unfolding round read_frame after_chunk attempt trim_space is_space drop_spaces drop_end_spaces
    redact_frame redact_object strip_fields strip_metadata strip_annotation kind_of lookup delete
    put
round-first = refl

round-last : round codec (last ∷ []) ≡ ended none
unfolding round read_frame after_chunk attempt
round-last = refl

abbrev offered : Bytes → Bytes → System
offered bytes got = record { writer = offering bytes none (last ∷ []); reader = copying; got = got }

abbrev written : System
written = record { writer = reading (last ∷ []); reader = copying; got = 123 ∷ 125 ∷ 10 ∷ [] }

abbrev returned : System
returned = record written { writer = ended none }

abbrev shut : System
shut = record written { writer = closed none }

abbrev done : System
done = record shut { reader = finished none }

to_offered : Step codec (start answer) (offered (123 ∷ 125 ∷ 10 ∷ []) [])
to_offered =
    read_source answer refl
      (ap (λ w. record { writer = w; reader = copying; got = [] }) (sym round-first))

to_half : Step codec (offered (123 ∷ 125 ∷ 10 ∷ []) []) (offered (10 ∷ []) (123 ∷ 125 ∷ []))
to_half = take_piece (123 ∷ 125 ∷ []) (10 ∷ []) none (last ∷ []) refl (λ x. cc x) refl refl

to_whole : Step codec (offered (10 ∷ []) (123 ∷ 125 ∷ [])) (offered [] (123 ∷ 125 ∷ 10 ∷ []))
to_whole = take_piece (10 ∷ []) [] none (last ∷ []) refl (λ x. cc x) refl refl

to_written : Step codec (offered [] (123 ∷ 125 ∷ 10 ∷ [])) written
to_written = write_returns none (last ∷ []) refl refl

to_returned : Step codec written returned
to_returned =
    read_source (last ∷ []) refl (ap (λ w. record written { writer = w }) (sym round-last))

to_shut : Step codec returned shut
to_shut = close_both none refl refl

to_done : Step codec shut done
to_done = read_end none refl refl refl

half : Reach codec answer (offered (10 ∷ []) (123 ∷ 125 ∷ []))
half = next (next here to_offered) to_half

whole : Reach codec answer done
whole = next (next (next (next (next half to_whole) to_written) to_returned) to_shut) to_done

half-Steps : Steps codec 2 (start answer) (offered (10 ∷ []) (123 ∷ 125 ∷ []))
half-Steps = goes (goes stays to_offered) to_half

whole-Steps : Steps codec 7 (start answer) done
whole-Steps =
    goes (goes (goes (goes (goes half-Steps to_whole) to_written) to_returned) to_shut) to_done

got-stream_example :
    (123 ∷ 125 ∷ 10 ∷ [] ≡ flatten (stream codec answer pipe).1.written)
    × ((stream codec answer pipe).0 ≡ outcome none)
got-stream_example = got-stream codec answer done none whole refl

Steps-bound_example : 7 ≤ 4 + length (flatten (stream codec answer pipe).1.written) + 4
Steps-bound_example = Steps-bound codec answer 7 done whole-Steps

watch_progress_example :
    (((e : Option StreamError) × (done.writer ≡ closed e)) × (done.reader ≢ copying))
    ⊎ ((t : System) × Step codec done t × (t.reader ≡ left → done.reader ≡ left))
watch_progress_example = watch_progress codec answer done whole

abbrev no_error : Option StreamError
no_error = none

abbrev response : Response
response = record {
  status = 200;
  content_type = "application/json";
  path = "/api/v1/namespaces/dev/secrets";
  follow = "";
  content_length = none;
  body = 120 ∷ 10 ∷ [];
  reads = true;
  closes = true;
  chunks = answer;
}

abbrev failure : ProxyFailure
failure = record {
  is_redaction = false;
  is_credentials_unavailable = false;
  is_net_timeout = false;
  is_handler_timeout = false;
}

abbrev outside : Outside
outside = record {
  codec = codec;
  render = λ st. none;
  error_text = [];
  base = record { scheme = "https"; host = "10.0.0.1:6443" };
  round_trip = λ r. some response;
  failure = λ r. failure;
  read_failure = λ r. failure;
  limit = 134217728;
  taken = λ bs. 1000;
}

abbrev watching : HttpRequest
watching = record {
  method = "GET";
  path = "/api/v1/namespaces/dev/secrets";
  follow = "";
  scheme = "https";
  host = "10.0.0.1:6443";
  content_length = none;
  header = [];
}

not_aborted : (deliver outside watching response (streamed answer)).aborted ≡ false
unfolding deliver stream stream_loop read_frame after_chunk write_frame trim_space is_space
    drop_spaces drop_end_spaces redact_frame redact_object strip_fields strip_metadata
    strip_annotation kind_of lookup delete put Stream.write write_all write write_header set_header
    set_length
not_aborted = refl

got-deliver_example :
    (123 ∷ 125 ∷ 10 ∷ []
      ≡ flatten (deliver outside watching response (streamed answer)).recorded.wire.body)
    × (no_error ≡ none)
got-deliver_example =
    got-deliver outside watching response answer done no_error whole refl not_aborted
