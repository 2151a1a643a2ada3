-- ===== src/Server/Watch.antt =====
-- internal/server/server.go, the streamed branch of `modifyResponse`, as its goroutine and the reverse proxy
-- run at the same time: the goroutine redacts the frames of a watch into an io.Pipe, and the reverse proxy
-- copies from the pipe to the client. The loop is that of internal/redact/stream.go, a round at a time.
pub mod Copied
pub mod Ends
pub mod Delivered
mod Tests
use kubegate.Prelude.{ℕ, Bool, true, false, Option, none, some, List, [], ◌∷◌, ◌++◌, ◌≡◌, ◌≢◌}
use kubegate.Json.{Bytes, Codec}
use kubegate.Redact.Stream.{Chunk, StreamError, end_of_input, write_failed, read_frame}
use kubegate.Redact.Stream.Attempts.{Attempt, nothing, fails, offers, attempt}

-- Where the goroutine stands: at the top of the loop; blocked in a write, with the bytes that are left of
-- it, the read's error and the input behind it; `Stream` has returned; and the source and the pipe are
-- closed, the pipe with what it returned.
pub data Writer : Type 0 where
  reading : List Chunk → Writer
  offering : Bytes → Option StreamError → List Chunk → Writer
  ended : Option StreamError → Writer
  closed : Option StreamError → Writer

-- The reverse proxy copies, has read the end of the pipe or its error, or has closed the pipe because the
-- client no longer takes anything.
pub data Reader : Type 0 where
  copying : Reader
  finished : Option StreamError → Reader
  left : Reader

pub record System : Type 0 where
  pub writer : Writer
  pub reader : Reader
  pub got : Bytes

abbrev pub start : List Chunk → System
start src = record { writer = reading src; reader = copying; got = [] }

-- The tests of the loop once there is nothing more to write: the end of the input is no error.
abbrev pub after : Option StreamError → List Chunk → Writer
after none src = reading src
after (some end_of_input) src = ended none
after (some e) src = ended (some e)

abbrev pub on_attempt : Attempt → Option StreamError → List Chunk → Writer
on_attempt nothing err src = after err src
on_attempt (fails e) err src = ended (some e)
on_attempt (offers out) err src = offering out err src

-- A round of the loop, up to its write.
unfoldable pub round : Codec → List Chunk → Writer
round codec src =
    let frame = read_frame [] src in on_attempt (attempt codec frame.line) frame.err frame.rest

-- A write returns once it has been read to its end, or the pipe has been closed by the reader; a read
-- returns a part of what is offered, or, once the goroutine has closed the pipe, the end. When the client
-- has left, reading from the cluster may fail at any time, since its request is cancelled.
pub data Step (codec : Codec) (s t : System) : Type 0 where
  read_source :
      (src : List Chunk)
      → s.writer ≡ reading src
      → t ≡ record s { writer = round codec src }
      → Step codec s t
  take_piece :
      (piece rest : Bytes) (err : Option StreamError) (src : List Chunk)
      → s.writer ≡ offering (piece ++ rest) err src
      → piece ≢ []
      → s.reader ≡ copying
      → t ≡ record s { writer = offering rest err src; got = s.got ++ piece }
      → Step codec s t
  write_returns :
      (err : Option StreamError) (src : List Chunk)
      → s.writer ≡ offering [] err src
      → t ≡ record s { writer = after err src }
      → Step codec s t
  write_refused :
      (bytes : Bytes) (err : Option StreamError) (src : List Chunk)
      → s.writer ≡ offering bytes err src
      → bytes ≢ []
      → s.reader ≡ left
      → t ≡ record s { writer = ended (some write_failed) }
      → Step codec s t
  source_severed :
      (src : List Chunk) (e : StreamError)
      → s.writer ≡ reading src
      → s.reader ≡ left
      → t ≡ record s { writer = ended (some e) }
      → Step codec s t
  close_both :
      (e : Option StreamError)
      → s.writer ≡ ended e
      → t ≡ record s { writer = closed e }
      → Step codec s t
  read_end :
      (e : Option StreamError)
      → s.writer ≡ closed e
      → s.reader ≡ copying
      → t ≡ record s { reader = finished e }
      → Step codec s t
  leave : s.reader ≡ copying → t ≡ record s { reader = left } → Step codec s t

pub data Reach (codec : Codec) (src : List Chunk) : System → Type 0 where
  here : Reach codec src (start src)
  next : {s t : System} → Reach codec src s → Step codec s t → Reach codec src t
