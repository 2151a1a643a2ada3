-- ===== src/Redact/Stream/Attempts.antt =====
-- internal/redact/stream.go, a round at a time: what `writeFrame` is about to do with a line, and what the
-- whole loop writes to a destination that takes everything.
use kubegate.Prelude.{
  ℕ, zero, suc, ◌<◌, true, false, Option, none, some, List, [], ◌∷◌, ◌++◌, length, ◌≡◌, ◌≢◌, refl,
  sym, ap, ◌∙◌, inl, inr, arith,
}
use mathlib.Core.List.{append_assoc, append-nil}
use kubegate.Json.{Json, Bytes, Codec, decode_map}
use kubegate.Redact.Stream.{
  Chunk, StreamError, end_of_input, frame_not_json, object_not_a_map, encode_failed, read_frame,
  redact_frame, trim_space, Sink, write, write_encoded, write_redacted, write_decoded,
  write_trimmed, write_frame, write_line, Outcome, finished, out_of_fuel, aborted, next_round,
  stream_loop, stream,
}
use kubegate.Redact.Stream.Ends.{read_frame-rest}

-- Nothing, fail, or write.
pub data Attempt : Type 0 where
  nothing : Attempt
  fails : StreamError → Attempt
  offers : Bytes → Attempt

abbrev pub attempt_encoded : Option Bytes → Attempt
attempt_encoded none = fails encode_failed
attempt_encoded (some out) = offers (out ++ 10 ∷ [])

abbrev pub attempt_redacted : Codec → Option Json → Attempt
attempt_redacted codec none = fails object_not_a_map
attempt_redacted codec (some frame) = attempt_encoded (codec.encode frame)

abbrev pub attempt_decoded : Codec → Option Json → Attempt
attempt_decoded codec none = fails frame_not_json
attempt_decoded codec (some frame) = attempt_redacted codec (redact_frame frame)

abbrev pub attempt_trimmed : Codec → Bytes → Attempt
attempt_trimmed codec [] = nothing
attempt_trimmed codec (c ∷ cs) = attempt_decoded codec (decode_map codec (c ∷ cs))

-- The line as `Stream` hands it to `writeFrame`, which it does not do with an empty one.
unfoldable pub attempt : Codec → Bytes → Attempt
unfolding trim_space
attempt codec [] = nothing
attempt codec (c ∷ cs) = attempt_trimmed codec (trim_space (c ∷ cs))

abbrev perform : Attempt → Sink → Option StreamError × Sink
perform nothing sink = (none, sink)
perform (fails e) sink = (some e, sink)
perform (offers out) sink = write out sink

encoded_performs :
    (o : Option Bytes) (sink : Sink) → write_encoded o sink ≡ perform (attempt_encoded o) sink
encoded_performs none sink = refl
encoded_performs (some out) sink = refl

redacted_performs :
    (codec : Codec) (o : Option Json) (sink : Sink)
    → write_redacted codec o sink ≡ perform (attempt_redacted codec o) sink
redacted_performs codec none sink = refl
redacted_performs codec (some frame) sink = encoded_performs (codec.encode frame) sink

decoded_performs :
    (codec : Codec) (o : Option Json) (sink : Sink)
    → write_decoded codec o sink ≡ perform (attempt_decoded codec o) sink
decoded_performs codec none sink = refl
decoded_performs codec (some frame) sink = redacted_performs codec _ sink

trimmed_performs :
    (codec : Codec) (line : Bytes) (sink : Sink)
    → write_trimmed codec line sink ≡ perform (attempt_trimmed codec line) sink
trimmed_performs codec [] sink = refl
trimmed_performs codec (c ∷ cs) sink = decoded_performs codec _ sink

line_performs :
    (codec : Codec) (line : Bytes) (sink : Sink)
    → write_line codec line sink ≡ perform (attempt codec line) sink
unfolding write_frame attempt
line_performs codec [] sink = refl
line_performs codec (c ∷ cs) sink = trimmed_performs codec (trim_space (c ∷ cs)) sink

-- A destination that takes every write.
abbrev pub open_sink : List Bytes → Sink
open_sink ws = record {
  written = ws;
  accepts = λ n. true;
  leaves = λ n. 0;
  torn = [];
  has_flush = false;
  flushes = 0;
}

-- How a run ends, and what it writes.
abbrev pub Run : Type 0
Run = Outcome × List Bytes

abbrev pub follow : Option StreamError → Run → Run
follow none r = r
follow (some end_of_input) r = (finished, [])
follow (some e) r = (aborted e, [])

abbrev pub round_run : Attempt → Option StreamError → Run → Run
round_run nothing err r = follow err r
round_run (fails e) err r = (aborted e, [])
round_run (offers out) err r = let f = follow err r in (f.0, out ∷ f.1)

loop_run : ℕ → Codec → List Chunk → Run
loop_run zero codec src = (out_of_fuel, [])
loop_run (suc fuel) codec src =
    let frame = read_frame [] src in
    let r = loop_run fuel codec frame.rest in round_run (attempt codec frame.line) frame.err r

-- What a run adds to a destination that takes every write.
abbrev Yields : Outcome × Sink → List Bytes → Run → Type 0
Yields o ws r = o ≡ (r.0, open_sink (ws ++ r.1))

follow-Yields :
    (err : Option StreamError) (ws : List Bytes) (rest : Outcome × Sink) (r : Run)
    → Yields rest ws r
    → Yields (next_round none err (open_sink ws) rest) ws (follow err r)
follow-Yields none ws rest r h = h
follow-Yields (some end_of_input) ws rest r h =
    ap (λ x. (finished, open_sink x)) (sym (append-nil ws))
follow-Yields (some e) ws rest r h = ap (λ x. (aborted e, open_sink x)) (sym (append-nil ws))

perform-Yields :
    (a : Attempt) (err : Option StreamError) (ws : List Bytes) (rest : Sink → Outcome × Sink)
    (r : Run)
    → ((vs : List Bytes) → Yields (rest (open_sink vs)) vs r)
    → Yields
        (let w = perform a (open_sink ws) in next_round w.0 err w.1 (rest w.1))
        ws
        (round_run a err r)
unfolding write
perform-Yields nothing err ws rest r h = follow-Yields err ws (rest (open_sink ws)) r (h ws)
perform-Yields (fails e) err ws rest r h = ap (λ x. (aborted e, open_sink x)) (sym (append-nil ws))
perform-Yields (offers out) err ws rest r h =
    follow-Yields err (ws ++ out ∷ []) (rest (open_sink (ws ++ out ∷ []))) r (h (ws ++ out ∷ []))
    ∙ ap (λ x. ((follow err r).0, open_sink x)) (append_assoc ws (out ∷ []) (follow err r).1)

loop-Yields :
    (fuel : ℕ) (codec : Codec) (src : List Chunk) (ws : List Bytes)
    → Yields (stream_loop fuel codec src (open_sink ws)) ws (loop_run fuel codec src)
unfolding stream_loop loop_run
loop-Yields zero codec src ws = ap (λ x. (out_of_fuel, open_sink x)) (sym (append-nil ws))
loop-Yields (suc fuel) codec src ws =
    let frame = read_frame [] src in
    let rest : Sink → Outcome × Sink = λ sink. stream_loop fuel codec frame.rest sink in
    ap (λ w. next_round w.0 frame.err w.1 (rest w.1))
      (line_performs codec frame.line (open_sink ws))
    ∙ perform-Yields (attempt codec frame.line) frame.err ws rest (loop_run fuel codec frame.rest)
        (λ vs. loop-Yields fuel codec frame.rest vs)

follow_ended : (err : Option StreamError) (r r' : Run) → err ≢ none → follow err r ≡ follow err r'
follow_ended none r r' h = absurd (h refl)
follow_ended (some e) r r' h = ground arith

round_run_ended :
    (a : Attempt) (err : Option StreamError) (r r' : Run)
    → err ≢ none
    → round_run a err r ≡ round_run a err r'
round_run_ended nothing err r r' h = follow_ended err r r' h
round_run_ended (fails e) err r r' h = refl
round_run_ended (offers out) err r r' h = ap (λ f. (f.0, out ∷ f.1)) (follow_ended err r r' h)

-- The fuel does not matter once there is enough.
loop_run_enough :
    (f g : ℕ) (codec : Codec) (src : List Chunk)
    → length src < f
    → length src < g
    → loop_run f codec src ≡ loop_run g codec src
unfolding loop_run
loop_run_enough zero g codec src h k = absurd (omega arith)
loop_run_enough (suc f) zero codec src h k = absurd (omega arith)
loop_run_enough (suc f) (suc g) codec src h k =
    let frame = read_frame [] src in
    elim (read_frame-rest [] src) [
      | inl n ↦
          round_run_ended (attempt codec frame.line) frame.err (loop_run f codec frame.rest)
            (loop_run g codec frame.rest) n
      | inr l ↦
          ap (round_run (attempt codec frame.line) frame.err)
            (loop_run_enough f g codec frame.rest (omega arith) (omega arith))
    ]

-- The whole run, from this input on.
pub run_of : Codec → List Chunk → Run
run_of codec src = loop_run (suc (length src)) codec src

-- `Stream` into a destination that takes everything is that run.
pub stream_runs :
    (codec : Codec) (src : List Chunk)
    → stream codec src (open_sink []) ≡ ((run_of codec src).0, open_sink (run_of codec src).1)
unfolding stream run_of
stream_runs codec src = loop-Yields (suc (length src)) codec src []

-- A run is its first round and the run from what is left.
pub run_of-round_run :
    (codec : Codec) (src : List Chunk)
    → run_of codec src
      ≡ round_run
          (attempt codec (read_frame [] src).line)
          (read_frame [] src).err
          (run_of codec (read_frame [] src).rest)
unfolding run_of loop_run
run_of-round_run codec src =
    let frame = read_frame [] src in
    elim (read_frame-rest [] src) [
      | inl n ↦
          round_run_ended (attempt codec frame.line) frame.err
            (loop_run (length src) codec frame.rest) (run_of codec frame.rest) n
      | inr l ↦
          ap (round_run (attempt codec frame.line) frame.err) (
            loop_run_enough (length src) (suc (length frame.rest)) codec frame.rest l (omega arith))
    ]
