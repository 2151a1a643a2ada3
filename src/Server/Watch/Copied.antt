-- ===== src/Server/Watch/Copied.antt =====
-- What the client of a watch is given, against the loop of `Stream` run alone.
use kubegate.Prelude.{Option, none, some, List, [], ◌++◌, ◌≡◌, refl, sym, ap, subst, ◌∙◌}
use mathlib.Core.List.{append_assoc, append-nil, flatten}
use kubegate.Json.{Bytes, Codec}
use kubegate.Redact.Stream.{
  Chunk, StreamError, end_of_input, read_failed, frame_too_long, frame_not_json, object_not_a_map,
  encode_failed, write_failed, read_frame, Outcome, aborted, stream,
}
use kubegate.Redact.Stream as Stream
use kubegate.Redact.Stream.Attempts.{
  Attempt, nothing, fails, offers, attempt, Run, follow, round_run, run_of, stream_runs,
  run_of-round_run,
}
use kubegate.Server.Serve.{pipe}
use kubegate.Server.Watch.{
  Writer, reading, offering, ended, closed, Reader, copying, finished, left, System, after,
  on_attempt, round, Step, read_source, take_piece, write_returns, write_refused, source_severed,
  close_both, read_end, leave, Reach, here, next,
}

-- How `Stream` ends, from the error that it returns.
abbrev pub outcome : Option StreamError → Outcome
outcome none = Stream.finished
outcome (some e) = aborted e

-- How a run ends, and the bytes that it writes.
abbrev pub Bytestream : Type 0
Bytestream = Outcome × Bytes

abbrev pub flat : Run → Bytestream
flat r = (r.0, flatten r.1)

-- What is still to come from the goroutine, if the client stays.
abbrev pub future : Codec → Writer → Bytestream
future codec (reading src) = flat (run_of codec src)
future codec (offering bytes err src) =
    let r = flat (follow err (run_of codec src)) in (r.0, bytes ++ r.1)
future codec (ended e) = (outcome e, [])
future codec (closed e) = (outcome e, [])

pub future-after :
    (codec : Codec) (err : Option StreamError) (src : List Chunk)
    → future codec (after err src) ≡ flat (follow err (run_of codec src))
unfolding flatten
future-after codec none src = refl
future-after codec (some end_of_input) src = refl
future-after codec (some read_failed) src = refl
future-after codec (some frame_too_long) src = refl
future-after codec (some frame_not_json) src = refl
future-after codec (some object_not_a_map) src = refl
future-after codec (some encode_failed) src = refl
future-after codec (some write_failed) src = refl

future-on_attempt :
    (codec : Codec) (a : Attempt) (err : Option StreamError) (src : List Chunk)
    → future codec (on_attempt a err src) ≡ flat (round_run a err (run_of codec src))
unfolding flatten
future-on_attempt codec nothing err src = future-after codec err src
future-on_attempt codec (fails e) err src = refl
future-on_attempt codec (offers out) err src = refl

pub future-round :
    (codec : Codec) (src : List Chunk) → future codec (round codec src) ≡ future codec (reading src)
unfolding round
future-round codec src =
    let frame = read_frame [] src in
    future-on_attempt codec (attempt codec frame.line) frame.err frame.rest
    ∙ ap flat (sym (run_of-round_run codec src))

-- What was given and what is to come make up the whole, until the client leaves.
abbrev Kept : Bytestream → Reader → Bytestream → Bytes → Type 0
Kept whole copying more got = (more.0 ≡ whole.0) × (got ++ more.1 ≡ whole.1)
Kept whole (finished e) more got = (outcome e ≡ whole.0) × (got ≡ whole.1)
Kept whole left more got = (rest : Bytes) × (got ++ rest ≡ whole.1)

abbrev KeptBy : Codec → Bytestream → System → Type 0
KeptBy codec whole s = Kept whole s.reader (future codec s.writer) s.got

-- A step of the goroutine that changes nothing of what is to come.
writes_on :
    (codec : Codec) (whole : Bytestream) (s t : System) (w : Writer)
    → future codec w ≡ future codec s.writer
    → t ≡ record s { writer = w }
    → KeptBy codec whole s
    → KeptBy codec whole t
writes_on codec whole s t w e et h =
    subst (KeptBy codec whole) (sym et) (subst (λ f. Kept whole s.reader f s.got) (sym e) h)

-- What comes next no longer counts once the client has left.
writes_alone :
    (codec : Codec) (whole : Bytestream) (s t : System) (w : Writer)
    → s.reader ≡ left
    → t ≡ record s { writer = w }
    → KeptBy codec whole s
    → KeptBy codec whole t
writes_alone codec whole s t w r et h = subst (KeptBy codec whole) (sym et) (
    subst (λ x. Kept whole x (future codec w) s.got) (sym r)
      (subst (λ x. Kept whole x (future codec s.writer) s.got) r h))

step-KeptBy :
    (codec : Codec) (whole : Bytestream) (s t : System)
    → Step codec s t
    → KeptBy codec whole s
    → KeptBy codec whole t
unfolding flatten
step-KeptBy codec whole s t (read_source src e et) h =
    writes_on codec whole s t (round codec src) (future-round codec src ∙ sym (ap (future codec) e))
      et h
step-KeptBy codec whole s t (take_piece piece rest err src e n r et) h =
    let more = future codec (offering rest err src) in
    let k =
      subst (λ w. Kept whole copying (future codec w) s.got) e
        (subst (λ x. Kept whole x (future codec s.writer) s.got) r h) in
    subst (KeptBy codec whole) (sym et) (
      subst (λ x. Kept whole x more (s.got ++ piece)) (sym r)
        (
          k.0,
          append_assoc s.got piece more.1
              ∙ ap (λ x. s.got ++ x) (sym (append_assoc piece rest _))
              ∙ k.1,
        ))
step-KeptBy codec whole s t (write_returns err src e et) h =
    writes_on codec whole s t (after err src)
      (future-after codec err src ∙ sym (ap (future codec) e)) et h
step-KeptBy codec whole s t (write_refused bytes err src e n r et) h =
    writes_alone codec whole s t (ended (some write_failed)) r et h
step-KeptBy codec whole s t (source_severed src x e r et) h =
    writes_alone codec whole s t (ended (some x)) r et h
step-KeptBy codec whole s t (close_both x e et) h =
    writes_on codec whole s t (closed x) (sym (ap (future codec) e)) et h
step-KeptBy codec whole s t (read_end x e r et) h =
    let k =
      subst (λ w. Kept whole copying (future codec w) s.got) e
        (subst (λ y. Kept whole y (future codec s.writer) s.got) r h) in
    subst (KeptBy codec whole) (sym et) (k.0, sym (append-nil s.got) ∙ k.1)
step-KeptBy codec whole s t (leave r et) h =
    let k = subst (λ y. Kept whole y (future codec s.writer) s.got) r h in
    subst (KeptBy codec whole) (sym et) ((future codec s.writer).1, k.1)

reach-KeptBy :
    (codec : Codec) (src : List Chunk) (s : System)
    → Reach codec src s
    → KeptBy codec (flat (run_of codec src)) s
reach-KeptBy codec src s here = (refl, refl)
reach-KeptBy codec src t (next {s} r st) =
    step-KeptBy codec (flat (run_of codec src)) s t st (reach-KeptBy codec src s r)

-- The run of `Stream` alone, into a pipe that takes everything.
pub alone :
    (codec : Codec) (src : List Chunk)
    → flat (run_of codec src)
      ≡ ((stream codec src pipe).0, flatten (stream codec src pipe).1.written)
alone codec src =
    sym (ap (λ (o : Outcome × Stream.Sink). (o.0, flatten o.1.written)) (stream_runs codec src))

Kept-prefix :
    (whole : Bytestream) (r : Reader) (more : Bytestream) (got : Bytes)
    → Kept whole r more got
    → (rest : Bytes) × (got ++ rest ≡ whole.1)
Kept-prefix whole copying more got h = (more.1, h.1)
Kept-prefix whole (finished e) more got h = ([], append-nil got ∙ h.1)
Kept-prefix whole left more got h = h

-- However the goroutine's steps and the copying interleave, what a client of a watch has been given at
-- any time is a prefix of what `Stream` alone writes for the same answer of the cluster.
pub got_prefix :
    (codec : Codec) (src : List Chunk) (s : System)
    → Reach codec src s
    → (rest : Bytes) × (s.got ++ rest ≡ flatten (stream codec src pipe).1.written)
got_prefix codec src s r =
    subst (λ (whole : Bytestream). (rest : Bytes) × (s.got ++ rest ≡ whole.1)) (alone codec src)
      (Kept-prefix (flat (run_of codec src)) s.reader (future codec s.writer) s.got
        (reach-KeptBy codec src s r))

-- However the goroutine's steps and the copying interleave, a client of a watch that has read the end
-- of the pipe has been given the bytes that `Stream` alone writes for the same answer of the cluster, and
-- the reverse proxy has read the error that it ends with, or the end of the input where it ends with none.
pub got-stream :
    (codec : Codec) (src : List Chunk) (s : System) (e : Option StreamError)
    → Reach codec src s
    → s.reader ≡ finished e
    → (s.got ≡ flatten (stream codec src pipe).1.written) × ((stream codec src pipe).0 ≡ outcome e)
got-stream codec src s e r h =
    let k =
      subst (λ x. Kept (flat (run_of codec src)) x (future codec s.writer) s.got) h
        (reach-KeptBy codec src s r) in
    let k' =
      subst (λ (whole : Bytestream). Kept whole (finished e) (future codec s.writer) s.got)
        (alone codec src) k in
    (k'.1, sym k'.0)
