-- ===== src/Audit.antt =====
-- internal/audit/audit.go: the entry of a request, and the line that is logged for it.
pub mod Writers
mod Tests
use kubegate.Prelude.{ℕ, ◌/◌, String, Bool, true, false, if◌then◌else◌}
use kubegate.Policy.Types.{Request, Decision, Reason, Mode}

-- A duration is in nanoseconds.
pub record Entry : Type 0 where
  pub remote : String
  pub method : String
  pub request : Request
  pub decision : Decision
  pub status : ℕ
  pub bytes : ℕ
  pub duration : ℕ
  pub redacted : Bool

-- The fields of a Logger that its lines show.
pub record Logger : Type 0 where
  pub mode : Mode
  pub context : String

-- `NewLogger`, without the writer.
abbrev pub new_logger : Mode → String → Logger
new_logger mode context_name = record { mode = mode; context = context_name }

-- `line`, the shape on the wire.
pub record Line : Type 0 where
  pub ts : String
  pub remote : String
  pub method : String
  pub path : String
  pub verb : String
  pub group : String
  pub version : String
  pub resource : String
  pub subresource : String
  pub namespace : String
  pub name : String
  pub decision : String
  pub reason : Reason
  pub mode : String
  pub context : String
  pub status : ℕ
  pub bytes : ℕ
  pub duration_ms : ℕ
  pub redacted : Bool

-- The line that `Log` makes of an entry at a time.
unfoldable pub line_of : Logger → String → Entry → Line
line_of l ts e = record {
  ts = ts;
  remote = e.remote;
  method = e.method;
  path = e.request.path;
  verb = e.request.verb;
  group = e.request.api_group;
  version = e.request.api_version;
  resource = e.request.resource;
  subresource = e.request.subresource;
  namespace = e.request.namespace;
  name = e.request.name;
  decision = if e.decision.allow then "allow" else "deny";
  reason = e.decision.reason;
  mode = l.mode;
  context = l.context;
  status = e.status;
  bytes = e.bytes;
  duration_ms = e.duration / 1000000;
  redacted = e.redacted;
}
