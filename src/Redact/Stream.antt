-- ===== src/Redact/Stream.antt =====
-- internal/redact/stream.go: the redaction of a watch, frame by frame.
pub mod Ends
pub mod Attempts
pub mod Frames
pub mod Tables
use kubegate.Prelude.{
  ℕ, zero, suc, ◌+◌, Bool, true, false, ◌&&◌, ◌||◌, Option, none, some, List, [], ◌∷◌, ◌++◌, length,
  take, ltb, eqb, if◌then◌else◌,
}
use kubegate.Json.{Json, object, Fields, lookup, put, as_object, Bytes, Codec, decode_map, entries}
use kubegate.Redact.{redact_object}

-- 8 MiB
abbrev pub max_frame_bytes : ℕ
max_frame_bytes = 8388608

-- What `bufio.Reader.ReadSlice('\n')` answers: bytes, and an error unless they end in a newline.
pub data ReadError : Type 0 where
  buffer_full eof failed : ReadError

pub record Chunk : Type 0 where
  pub bytes : Bytes
  pub err : Option ReadError

pub data StreamError : Type 0 where
  end_of_input read_failed frame_too_long : StreamError
  frame_not_json object_not_a_map encode_failed write_failed : StreamError

-- A frame as `readFrame` returns it, and what is left to read.
pub record Frame : Type 0 where
  pub line : Bytes
  pub err : Option StreamError
  pub rest : List Chunk

-- After a chunk that fits: read on if the buffer was full, else return what was gathered.
unfoldable pub after_chunk : Option ReadError → Bytes → List Chunk → Frame → Frame
after_chunk none buf rest more = record { line = buf; err = none; rest = rest }
after_chunk (some buffer_full) buf rest more = more
after_chunk (some eof) buf rest more = record { line = buf; err = some end_of_input; rest = rest }
after_chunk (some failed) buf rest more = record { line = buf; err = some read_failed; rest = rest }

-- `readFrame`, with what it has gathered; the chunks are the reader's answers in turn, and the
-- input ends behind the last one.
unfoldable pub read_frame : Bytes → List Chunk → Frame
unfolding after_chunk
read_frame buf [] = record { line = buf; err = some end_of_input; rest = [] }
read_frame buf (c ∷ cs) =
    let buf' = buf ++ c.bytes in
    let more = read_frame buf' cs in
    if ltb max_frame_bytes (length buf')
    then record { line = []; err = some frame_too_long; rest = cs }
    else after_chunk c.err buf' cs more

unfoldable pub is_space : ℕ → Bool
is_space c = eqb c 32 || eqb c 9 || eqb c 13 || eqb c 10

unfoldable pub drop_spaces : Bytes → Bytes
drop_spaces [] = []
drop_spaces (c ∷ cs) = if is_space c then drop_spaces cs else c ∷ cs

abbrev space_before_end : Bool → ℕ → Bytes → Bytes
space_before_end true c [] = []
space_before_end b c cs = c ∷ cs

unfoldable pub drop_end_spaces : Bytes → Bytes
drop_end_spaces [] = []
drop_end_spaces (c ∷ cs) = space_before_end (is_space c) c (drop_end_spaces cs)

unfoldable pub trim_space : Bytes → Bytes
unfolding is_space drop_spaces drop_end_spaces
trim_space b = drop_end_spaces (drop_spaces b)

-- The destination: the writes that it has taken, whether it takes the write of each number, how many
-- bytes of one that fails get through all the same, and those that did; whether a flush function was
-- passed, and how often it was called.
pub record Sink : Type 0 where
  pub written : List Bytes
  pub accepts : ℕ → Bool
  pub leaves : ℕ → ℕ
  pub torn : Bytes
  pub has_flush : Bool
  pub flushes : ℕ

abbrev flushed : Sink → Sink
flushed sink = if sink.has_flush then record sink { flushes = sink.flushes + 1 } else sink

-- `dst.Write` and what follows it: of a write that fails a part may have got through.
unfoldable pub write : Bytes → Sink → Option StreamError × Sink
write out sink =
    if sink.accepts (length sink.written)
    then (none, flushed (record sink { written = sink.written ++ out ∷ [] }))
    else (
      some write_failed,
      record sink { torn = sink.torn ++ take (sink.leaves (length sink.written)) out },
    )

-- The frame with its object redacted: `none` where the object is there and is no map.
abbrev redact_present : Json → Option Json → Option Json
redact_present frame none = some frame
redact_present frame (some (object obj)) =
    some (object (put "object" (object (redact_object obj "").value) (entries frame)))
redact_present frame (some v) = none

unfoldable pub redact_frame : Json → Option Json
redact_frame frame = redact_present frame (lookup "object" (entries frame))

abbrev write_encoded : Option Bytes → Sink → Option StreamError × Sink
write_encoded none sink = (some encode_failed, sink)
write_encoded (some out) sink = write (out ++ 10 ∷ []) sink

abbrev write_redacted : Codec → Option Json → Sink → Option StreamError × Sink
write_redacted codec none sink = (some object_not_a_map, sink)
write_redacted codec (some frame) sink = write_encoded (codec.encode frame) sink

abbrev write_decoded : Codec → Option Json → Sink → Option StreamError × Sink
write_decoded codec none sink = (some frame_not_json, sink)
write_decoded codec (some frame) sink = write_redacted codec (redact_frame frame) sink

abbrev write_trimmed : Codec → Bytes → Sink → Option StreamError × Sink
write_trimmed codec [] sink = (none, sink)
write_trimmed codec (c ∷ cs) sink = write_decoded codec (decode_map codec (c ∷ cs)) sink

-- `writeFrame`
unfoldable pub write_frame : Codec → Bytes → Sink → Option StreamError × Sink
unfolding trim_space
write_frame codec line sink = write_trimmed codec (trim_space line) sink

abbrev write_line : Codec → Bytes → Sink → Option StreamError × Sink
write_line codec [] sink = (none, sink)
write_line codec (c ∷ cs) sink = write_frame codec (c ∷ cs) sink

pub data Outcome : Type 0 where
  finished out_of_fuel : Outcome
  aborted : StreamError → Outcome

-- What the round's errors make of the loop: the write's comes first, and the end of the input is no
-- error.
abbrev next_round : Option StreamError → Option StreamError → Sink → Outcome × Sink → Outcome × Sink
next_round (some e) err sink rest = (aborted e, sink)
next_round none none sink rest = rest
next_round none (some end_of_input) sink rest = (finished, sink)
next_round none (some e) sink rest = (aborted e, sink)

-- The loop of `Stream`, with fuel for its rounds.
unfoldable pub stream_loop : ℕ → Codec → List Chunk → Sink → Outcome × Sink
stream_loop zero codec src sink = (out_of_fuel, sink)
stream_loop (suc fuel) codec src sink =
    let frame = read_frame [] src in
    let w = write_line codec frame.line sink in
    let rest = stream_loop fuel codec frame.rest w.1 in next_round w.0 frame.err w.1 rest

-- Each round but the last reads a chunk at least.
unfoldable pub stream : Codec → List Chunk → Sink → Outcome × Sink
unfolding stream_loop
stream codec src sink = stream_loop (suc (length src)) codec src sink
