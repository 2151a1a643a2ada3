-- ===== src/Redact/Stream/Ends.antt =====
-- Reading frames: their size, and the end of the loop.
use kubegate.Prelude.{
  ℕ, zero, suc, ◌≤◌, ◌<◌, Option, none, some, List, [], ◌∷◌, ◌++◌, length, refl, ◌≢◌, ◌⊎◌, inl, inr,
  arith,
}
use kubegate.Json.{Bytes, Codec}
use kubegate.Redact.Stream.{
  max_frame_bytes, Chunk, StreamError, read_frame, Sink, write_line, Outcome, out_of_fuel,
  next_round, stream_loop, stream,
}

read_frame-length :
    (buf : Bytes) (src : List Chunk)
    → length buf ≤ max_frame_bytes
    → length (read_frame buf src).line ≤ max_frame_bytes
unfolding read_frame
read_frame-length buf [] h = h
read_frame-length buf (c ∷ cs) h = ground (arith, read_frame-length (buf ++ c.bytes) cs)

pub read_frame-rest :
    (buf : Bytes) (src : List Chunk)
    → ((read_frame buf src).err ≢ none) ⊎ (length (read_frame buf src).rest < length src)
unfolding read_frame
read_frame-rest buf [] = inl (λ h. cc h)
read_frame-rest buf (c ∷ cs) = ground (arith, read_frame-rest (buf ++ c.bytes) cs)

next_round_total :
    (werr err : Option StreamError) (sink : Sink) (rest : Outcome × Sink)
    → (err ≢ none) ⊎ (rest.0 ≢ out_of_fuel)
    → (next_round werr err sink rest).0 ≢ out_of_fuel
next_round_total (some e) err sink rest h = λ x. cc x
next_round_total none none sink rest (inl n) = absurd (n refl)
next_round_total none none sink rest (inr n) = n
next_round_total none (some e) sink rest h = ground arith

stream_loop_total :
    (fuel : ℕ) (codec : Codec) (src : List Chunk) (sink : Sink)
    → length src < fuel
    → (stream_loop fuel codec src sink).0 ≢ out_of_fuel
unfolding stream_loop
stream_loop_total zero codec src sink h = absurd (omega arith)
stream_loop_total (suc fuel) codec src sink h =
    let frame = read_frame [] src in
    let w = write_line codec frame.line sink in
    next_round_total w.0 frame.err w.1 (stream_loop fuel codec frame.rest w.1)
      (elim (read_frame-rest [] src) [
        | inl n ↦ inl n
        | inr l ↦ inr (stream_loop_total fuel codec frame.rest w.1 (omega arith))
      ])

-- Whatever the input and the sink, the loop of `Stream` ends: at the end of the input or with an
-- error.
pub stream_total :
    (codec : Codec) (src : List Chunk) (sink : Sink) → (stream codec src sink).0 ≢ out_of_fuel
unfolding stream
stream_total codec src sink = stream_loop_total (suc (length src)) codec src sink (omega arith)

-- No frame is longer than the limit, however the reader cuts the input into chunks.
pub read_frame_bound : (src : List Chunk) → length (read_frame [] src).line ≤ max_frame_bytes
read_frame_bound src = read_frame-length [] src (omega arith)
