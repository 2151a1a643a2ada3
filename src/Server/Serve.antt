-- ===== src/Server/Serve.antt =====
-- internal/server/server.go and status.go: ServeHTTP, from the request to the reply and its audit
-- entry, with what httputil.ReverseProxy does between them.
pub mod Recorded
pub mod Delivered
pub mod Declared
mod Tests
use Prim.Native.String.{◌++◌ as str_append}
use kubegate.Prelude.{
  take, ltb, ◌&&◌, ℕ, ◌+◌, String, Bool, true, false, not, Option, none, some, List, [], ◌∷◌, ◌++◌,
  length, if◌then◌else◌,
}
use kubegate.Header
use kubegate.Header.{Header}
use kubegate.Json.{Bytes, Codec}
use kubegate.Policy.Types.{Request, Decision}
use kubegate.Policy.Engine.{Engine}
use kubegate.Redact.Stream.{Chunk, Sink, Outcome, finished, out_of_fuel, aborted, stream}
use kubegate.Audit.{Entry}
use kubegate.Server.Http.{HttpRequest, Status}
use kubegate.Server.Handler.{
  Options, Base, Action, reply, forward, Verdict, authorize_request, rewrite,
}
use kubegate.Server.Response.{
  Response, Modified, untouched, streamed, replaced, not_inspected, not_read, ProxyFailure,
  modify_response, proxy_error,
}

-- What http.ResponseWriter has been given and has taken: the first status, the header, with the length
-- that it declares for the body, and of each write what it reported as taken. What then reaches the
-- client is its own affair: it buffers, and for HEAD it takes a body and drops it.
pub record Wire : Type 0 where
  pub status : Option ℕ
  pub header : Header
  pub declared : Option ℕ
  pub body : List Bytes

-- `statusRecorder`, around it.
pub record StatusRecorder : Type 0 where
  pub wire : Wire
  pub status : ℕ
  pub bytes : ℕ

abbrev pub recorder : StatusRecorder
recorder = record {
  wire = record { status = none; header = []; declared = none; body = [] };
  status = 200;
  bytes = 0;
}

-- The first status that is written counts, and a write before any makes it 200.
abbrev pub first_status : ℕ → Option ℕ → Option ℕ
first_status code none = some code
first_status code (some c) = some c

unfoldable pub set_header : String → String → StatusRecorder → StatusRecorder
set_header k v s = record s { wire = record s.wire { header = Header.set k v s.wire.header } }

-- The header Content-Length, which is left out where no length is declared.
unfoldable pub set_length : Option ℕ → StatusRecorder → StatusRecorder
set_length n s = record s { wire = record s.wire { declared = n } }

-- `statusRecorder.WriteHeader`
unfoldable pub write_header : ℕ → StatusRecorder → StatusRecorder
write_header code s = record s {
  wire = record s.wire { status = first_status code s.wire.status };
  status = code;
}

-- What is outside: the clock's reading of the duration, the rendering of a Status as JSON (`none` is
-- an error) and of http.Error's text, and the cluster with its transport: an answer, or the failure to
-- get one; what reading a body fails with; and how many bytes http.ResponseWriter reports as taken of
-- the next write after those that it has taken.
pub record Outside : Type 0 where
  pub codec : Codec
  pub render : Status → Option Bytes
  pub error_text : Bytes
  pub base : Base
  pub round_trip : HttpRequest → Option Response
  pub failure : HttpRequest → ProxyFailure
  pub read_failure : HttpRequest → ProxyFailure
  pub limit : ℕ
  pub taken : List Bytes → ℕ

-- `statusRecorder.Write`: what is reported as taken may be less than what is written.
unfoldable pub write : Outside → Bytes → StatusRecorder → StatusRecorder
write w b s =
    let t = take (w.taken s.wire.body) b in
    record s {
      wire = record s.wire {
        status = first_status 200 s.wire.status;
        body = s.wire.body ++ t ∷ [];
      };
      bytes = s.bytes + length t;
    }

abbrev pub takes_all : Outside → Bytes → StatusRecorder → Bool
takes_all w b s = not (ltb (w.taken s.wire.body) (length b))

-- The writes of a body, up to one that is not taken whole, and whether all were.
unfoldable pub write_all : Outside → List Bytes → StatusRecorder → StatusRecorder × Bool
unfolding write
write_all w [] s = (s, true)
write_all w (b ∷ bs) s =
    let rest = write_all w bs (write w b s) in
    if takes_all w b s then rest else (write w b s, false)

abbrev pub redaction_failure : ProxyFailure
redaction_failure = record {
  is_redaction = true;
  is_credentials_unavailable = false;
  is_net_timeout = false;
  is_handler_timeout = false;
}

-- `WriteStatus` once the body is there.
abbrev pub write_rendered : Outside → ℕ → Option Bytes → StatusRecorder → StatusRecorder
write_rendered w code none s = write w w.error_text (
    write_header 500 (
      set_header "X-Content-Type-Options" "nosniff"
        (set_header "Content-Type" "text/plain; charset=utf-8" s)))
write_rendered w code (some b) s = write w b (
    write_header code (
      set_header "X-Content-Type-Options" "nosniff"
        (set_header "Content-Type" "application/json" s)))

-- `WriteStatus`
unfoldable pub write_status : Outside → Status → StatusRecorder → StatusRecorder
unfolding write write_header set_header
write_status w st s = write_rendered w st.code (w.render st) s

-- The pipe that a redacted watch goes through takes every write: of what comes after a write that the
-- client's side did not take, nothing reaches it.
abbrev pub pipe : Sink
pipe = record {
  written = [];
  accepts = λ n. true;
  leaves = λ n. 0;
  torn = [];
  has_flush = false;
  flushes = 0;
}

-- A response as the reverse proxy copies it.
abbrev pub copy :
    Outside → ℕ → String → Option ℕ → List Bytes → StatusRecorder → StatusRecorder × Bool
copy w code content_type declared body s =
    write_all w body
      (write_header code (set_length declared (set_header "Content-Type" content_type s)))

-- The reply, whether the pipeline reported a change of it, whether it broke off, and what was sent to
-- the cluster. The reverse proxy panics where a body breaks off while it is copied, or a write is not
-- taken whole.
pub record Served : Type 0 where
  pub recorded : StatusRecorder
  pub redacted : Bool
  pub aborted : Bool
  pub sent : List HttpRequest

abbrev pub is_finished : Outcome → Bool
is_finished finished = true
is_finished out_of_fuel = false
is_finished (aborted e) = false

-- What the reverse proxy does with what `modifyResponse` made of the response.
unfoldable pub deliver : Outside → HttpRequest → Response → Modified → Served
unfolding write_status write_all write write_header set_header set_length
deliver w out resp untouched =
    let c = copy w resp.status resp.content_type resp.content_length (resp.body ∷ []) recorder in
    record { recorded = c.0; redacted = false; aborted = not (resp.reads && c.1); sent = out ∷ [] }
deliver w out resp (streamed chunks) =
    let r = stream w.codec chunks pipe in
    let c = copy w resp.status resp.content_type resp.content_length r.1.written recorder in
    record {
      recorded = c.0;
      redacted = false;
      aborted = not (is_finished r.0 && c.1);
      sent = out ∷ [];
    }
deliver w out resp (replaced body changed) =
    let c = copy w resp.status resp.content_type (some (length body)) (body ∷ []) recorder in
    record { recorded = c.0; redacted = changed; aborted = not c.1; sent = out ∷ [] }
deliver w out resp not_inspected = record {
  recorded = write_status w (proxy_error redaction_failure) recorder;
  redacted = false;
  aborted = false;
  sent = out ∷ [];
}
deliver w out resp not_read = record {
  recorded = write_status w (proxy_error (w.read_failure out)) recorder;
  redacted = false;
  aborted = false;
  sent = out ∷ [];
}

-- The response with the path and the follow parameter of the request that it answers.
abbrev pub answering : HttpRequest → Response → Response
answering out resp = record resp { path = out.path; follow = out.follow }

-- The reverse proxy, from the round trip on.
unfoldable pub exchange : Outside → Engine → Request → HttpRequest → Option Response → Served
unfolding deliver
exchange w e req out none = record {
  recorded = write_status w (proxy_error (w.failure out)) recorder;
  redacted = false;
  aborted = false;
  sent = out ∷ [];
}
exchange w e req out (some resp) =
    deliver w out (answering out resp) (modify_response w.codec w.limit e req (answering out resp))

unfoldable pub act : Outside → Options → Request → Action → Served
unfolding exchange
act w o req (reply st) = record {
  recorded = write_status w st recorder;
  redacted = false;
  aborted = false;
  sent = [];
}
act w o req (forward r) =
    let out = rewrite w.base r in exchange w o.engine req out (w.round_trip out)

-- `handler.authorize` with all that it has sent.
unfoldable pub serve : Outside → Options → HttpRequest → Served
unfolding act
serve w o r = let v = authorize_request o r in act w o v.request v.action

abbrev pub entry_of : Verdict → HttpRequest → String → ℕ → Served → Entry
entry_of v r remote duration s = record {
  remote = remote;
  method = r.method;
  request = v.request;
  decision = v.decision;
  status = s.recorded.status;
  bytes = s.recorded.bytes;
  duration = duration;
  redacted = s.redacted;
}

-- The entry that `ServeHTTP` logs: none where the panic has passed the call.
unfoldable pub logged : Outside → Options → HttpRequest → String → ℕ → Option Entry
logged w o r remote duration =
    let s = serve w o r in
    if s.aborted then none else some (entry_of (authorize_request o r) r remote duration s)
