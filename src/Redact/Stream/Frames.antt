-- ===== src/Redact/Stream/Frames.antt =====
-- What a stream passes on.
use kubegate.Prelude.{
  ℕ, zero, suc, Option, none, some, List, [], ◌∷◌, ◌++◌, length, All, ◌≡◌, refl, ◌≢◌, ◌⊎◌, inl, inr,
  arith, Bool-cases, subst, sym, ◌∙◌, take,
}
use mathlib.Core.Option.{some-injective}
use kubegate.Json.{Json, object, lookup, Bytes, Codec, entries}
use kubegate.Json.Laws.{lookup-put}
use kubegate.Redact.Clean.{IsClean, redact_object-IsClean}
use kubegate.Redact.Stream.{
  Chunk, StreamError, read_frame, Sink, flushed, write, redact_frame, redact_present, write_encoded,
  write_redacted, write_decoded, write_trimmed, write_frame, write_line, Outcome, end_of_input,
  frame_not_json, object_not_a_map, encode_failed, write_failed, next_round, stream_loop, stream,
}

-- The object of a frame, where it has one, is a map, and clean.
abbrev pub ObjectIsClean : Option Json → Type 0
ObjectIsClean none = Unit
ObjectIsClean (some (object obj)) = IsClean obj ""
ObjectIsClean (some v) = ⊥

-- What one write holds: the encoding of a frame whose object is clean, and a newline.
pub record IsPassed (codec : Codec) (out : Bytes) : Type 0 where
  pub frame : Json
  pub encoding : Bytes
  pub encodes : codec.encode frame ≡ some encoding
  pub ends : out ≡ encoding ++ 10 ∷ []
  pub clean : ObjectIsClean (lookup "object" (entries frame))

redact_present_clean :
    (frame frame' : Json) (o : Option Json)
    → lookup "object" (entries frame) ≡ o
    → redact_present frame o ≡ some frame'
    → ObjectIsClean (lookup "object" (entries frame'))
redact_present_clean frame frame' none e h =
    subst (λ f. ObjectIsClean (lookup "object" (entries f))) (some-injective _ _ h) (rw e tt)
redact_present_clean frame frame' (some (object obj)) e h =
    subst (λ f. ObjectIsClean (lookup "object" (entries f))) (some-injective _ _ h)
      (rw (lookup-put "object" "object") (redact_object-IsClean obj ""))
redact_present_clean frame frame' (some v) e h = cc

All-append_one :
    {A : Type 0} (P : A → Type 0) (xs : List A) (x : A) → All P xs → P x → All P (xs ++ x ∷ [])
All-append_one P [] x h p = (p, tt)
All-append_one P (y ∷ ys) x (q, h) p = (q, All-append_one P ys x h p)

flushed-written : (sink : Sink) → (flushed sink).written ≡ sink.written
flushed-written sink = ground arith

module _ (codec : Codec) where
  abbrev PassedAll : Sink → Type 0
  PassedAll sink = All (IsPassed codec) sink.written

  write_passed :
      (out : Bytes) (sink : Sink)
      → IsPassed codec out
      → PassedAll sink
      → PassedAll (write out sink).1
  unfolding write
  write_passed out sink p h = elim (Bool-cases (sink.accepts (length sink.written))) [
    | inl a ↦ rw a (rw (flushed-written) (All-append_one (IsPassed codec) sink.written out h p))
    | inr r ↦ rw r h
  ]

  write_encoded_passed :
      (frame : Json) (o : Option Bytes) (sink : Sink)
      → codec.encode frame ≡ o
      → ObjectIsClean (lookup "object" (entries frame))
      → PassedAll sink
      → PassedAll (write_encoded o sink).1
  write_encoded_passed frame none sink e c h = h
  write_encoded_passed frame (some out) sink e c h =
      write_passed (out ++ 10 ∷ []) sink
        (record { frame = frame; encoding = out; encodes = e; ends = refl; clean = c }) h

  write_redacted_passed :
      (frame : Json) (o : Option Json) (sink : Sink)
      → redact_frame frame ≡ o
      → PassedAll sink
      → PassedAll (write_redacted codec o sink).1
  unfolding redact_frame
  write_redacted_passed frame none sink e h = h
  write_redacted_passed frame (some frame') sink e h =
      write_encoded_passed frame' _ sink refl (redact_present_clean frame frame' _ refl e) h

  write_decoded_passed :
      (o : Option Json) (sink : Sink) → PassedAll sink → PassedAll (write_decoded codec o sink).1
  write_decoded_passed none sink h = h
  write_decoded_passed (some frame) sink h = write_redacted_passed frame _ sink refl h

  write_trimmed_passed :
      (line : Bytes) (sink : Sink) → PassedAll sink → PassedAll (write_trimmed codec line sink).1
  write_trimmed_passed [] sink h = h
  write_trimmed_passed (c ∷ cs) sink h = write_decoded_passed _ sink h

  write_line_passed :
      (line : Bytes) (sink : Sink) → PassedAll sink → PassedAll (write_line codec line sink).1
  unfolding write_frame
  write_line_passed [] sink h = h
  write_line_passed (c ∷ cs) sink h = write_trimmed_passed _ sink h

  next_round_passed :
      (werr err : Option StreamError) (sink : Sink) (rest : Outcome × Sink)
      → PassedAll sink
      → PassedAll rest.1
      → PassedAll (next_round werr err sink rest).1
  next_round_passed (some e) err sink rest h k = h
  next_round_passed none none sink rest h k = k
  next_round_passed none (some end_of_input) sink rest h k = h
  next_round_passed none (some e) sink rest h k = h

  stream_loop_passed :
      (fuel : ℕ) (src : List Chunk) (sink : Sink)
      → PassedAll sink
      → PassedAll (stream_loop fuel codec src sink).1
  unfolding stream_loop
  stream_loop_passed zero src sink h = h
  stream_loop_passed (suc fuel) src sink h =
      let frame = read_frame [] src in
      let w = write_line codec frame.line sink in
      let passed = write_line_passed frame.line sink h in
      next_round_passed w.0 frame.err w.1 (stream_loop fuel codec frame.rest w.1) passed
        (stream_loop_passed fuel frame.rest w.1 passed)

-- Whatever the input, every write that the destination of a stream takes is the encoding of a frame
-- and a newline, where the frame has no object or one that is a map and clean: no last-applied
-- manifest, and no data or stringData unless it is a ConfigMap.
pub stream-IsPassed :
    (codec : Codec) (src : List Chunk) (sink : Sink)
    → All (IsPassed codec) sink.written
    → All (IsPassed codec) (stream codec src sink).1.written
unfolding stream
stream-IsPassed codec src sink h = stream_loop_passed codec (suc (length src)) src sink h

-- What a frame that failed has left: nothing, unless it was the destination that failed, and then the
-- beginning of a frame that is fit to be passed on.
abbrev pub LeavesNone : Codec → StreamError → Sink → Sink → Type 0
LeavesNone codec e sink sink' =
    (sink'.written ≡ sink.written)
    × (sink'.flushes ≡ sink.flushes)
    × (((e ≢ write_failed) × (sink'.torn ≡ sink.torn))
        ⊎ ((e ≡ write_failed)
            × (out : Bytes) × (n : ℕ) × IsPassed codec out
            × (sink'.torn ≡ sink.torn ++ take n out)))

module _ (codec : Codec) (e : StreamError) where
  write_fails :
      (out : Bytes) (sink : Sink)
      → IsPassed codec out
      → (write out sink).0 ≡ some e
      → LeavesNone codec e sink (write out sink).1
  unfolding write
  write_fails out sink p h = elim (Bool-cases (sink.accepts (length sink.written))) [
    | inl a ↦ cc (rw a at h)
    | inr r ↦ rw r (
      refl,
      refl,
      inr (sym (some-injective _ _ (rw r at h)), out, sink.leaves (length sink.written), p, refl),
    )
  ]

  untouched : (sink : Sink) → e ≢ write_failed → LeavesNone codec e sink sink
  untouched sink n = (refl, refl, inl (n, refl))

  differs : (f : StreamError) → f ≢ write_failed → some f ≡ some e → e ≢ write_failed
  differs f n h k = n (some-injective _ _ h ∙ k)

  write_encoded_fails :
      (frame : Json) (o : Option Bytes) (sink : Sink)
      → codec.encode frame ≡ o
      → ObjectIsClean (lookup "object" (entries frame))
      → (write_encoded o sink).0 ≡ some e
      → LeavesNone codec e sink (write_encoded o sink).1
  write_encoded_fails frame none sink i c h = untouched sink (differs encode_failed (λ k. cc k) h)
  write_encoded_fails frame (some out) sink i c h =
      write_fails (out ++ 10 ∷ []) sink
        (record { frame = frame; encoding = out; encodes = i; ends = refl; clean = c }) h

  write_redacted_fails :
      (frame : Json) (o : Option Json) (sink : Sink)
      → redact_frame frame ≡ o
      → (write_redacted codec o sink).0 ≡ some e
      → LeavesNone codec e sink (write_redacted codec o sink).1
  unfolding redact_frame
  write_redacted_fails frame none sink i h = untouched sink (differs object_not_a_map (λ k. cc k) h)
  write_redacted_fails frame (some frame') sink i h =
      write_encoded_fails frame' _ sink refl (redact_present_clean frame frame' _ refl i) h

  write_decoded_fails :
      (o : Option Json) (sink : Sink)
      → (write_decoded codec o sink).0 ≡ some e
      → LeavesNone codec e sink (write_decoded codec o sink).1
  write_decoded_fails none sink h = untouched sink (differs frame_not_json (λ k. cc k) h)
  write_decoded_fails (some frame) sink h = write_redacted_fails frame _ sink refl h

  write_trimmed_fails :
      (line : Bytes) (sink : Sink)
      → (write_trimmed codec line sink).0 ≡ some e
      → LeavesNone codec e sink (write_trimmed codec line sink).1
  write_trimmed_fails [] sink h = cc h
  write_trimmed_fails (c ∷ cs) sink h = write_decoded_fails _ sink h

-- Where `writeFrame` returns an error, the destination has taken no further write and was not flushed.
-- Where the frame cannot be decoded, its object is no map or it cannot be encoded, not a byte of it got
-- through; where it is the destination's write that failed, what got through is the beginning of the
-- encoding of a frame that has no object or one that is a map and clean.
pub write_frame_fails_closed :
    (codec : Codec) (e : StreamError) (line : Bytes) (sink : Sink)
    → (write_frame codec line sink).0 ≡ some e
    → LeavesNone codec e sink (write_frame codec line sink).1
unfolding write_frame
write_frame_fails_closed codec e line sink h = write_trimmed_fails codec e _ sink h
