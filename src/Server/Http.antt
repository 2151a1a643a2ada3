-- ===== src/Server/Http.antt =====
-- The parts of an HTTP exchange that the handler reads, the replies that it writes itself
-- (internal/server/status.go), and internal/reqinfo/reqinfo.go.
use kubegate.Prelude.{ℕ, String, Bool, Option, none, some, ◌==◌, not, if◌then◌else◌}
use Prim.Native.String.{◌++◌ as str_append}
use kubegate.Header.{Header}
use kubegate.Policy.Types.{Request, Mode, Reason}

-- `content_length` is `none` where the length is not declared, and `follow` is the query
-- parameter of that name, "" where there is none.
pub record HttpRequest : Type 0 where
  pub method : String
  pub path : String
  pub follow : String
  pub scheme : String
  pub host : String
  pub content_length : Option ℕ
  pub header : Header

-- What apiserver's `RequestInfoFactory` finds out about a request.
pub record RequestInfo : Type 0 where
  pub is_resource_request : Bool
  pub verb : String
  pub api_group : String
  pub api_version : String
  pub resource : String
  pub subresource : String
  pub namespace : String
  pub name : String

-- `NewRequestInfo`, which is not the program's own: `none` is an error.
abbrev pub Factory : Type 0
Factory = HttpRequest → Option RequestInfo

-- `Parser.Parse`
unfoldable pub parse : Factory → HttpRequest → Option Request
parse factory r = elim (factory r) [
  | none ↦ none
  | some info ↦ some (record {
    is_resource_request = info.is_resource_request;
    path = r.path;
    verb = info.verb;
    api_group = info.api_group;
    api_version = info.api_version;
    resource = info.resource;
    subresource = info.subresource;
    namespace = info.namespace;
    name = info.name;
  })
]

-- The message of a Status body, with the arguments of its format.
pub data Message : Type 0 where
  denied_by_policy : Reason → Message
  forbidden : String → Mode → Reason → Message
  needs_token cannot_redact_protobuf limits_bodies : Message
  refused_unchecked login_again no_response_in_time unreachable : Message

-- A metav1.Status body and its code.
pub record Status : Type 0 where
  pub code : ℕ
  pub reason : String
  pub message : Message

-- What a 403 names: the resource, with its subresource, or the path where there is none.
unfoldable pub forbidden_target : Request → String
forbidden_target req =
    let target =
      if not (req.subresource == "")
      then str_append req.resource (str_append "/" req.subresource)
      else req.resource in
    if target == "" then req.path else target

-- `WriteForbidden`
unfoldable pub forbidden_status : Request → Mode → Reason → Status
forbidden_status req mode why = record {
  code = 403;
  reason = "Forbidden";
  message = forbidden (forbidden_target req) mode why;
}

-- `WriteUnauthorized`
abbrev pub unauthorized_status : Status
unauthorized_status = record { code = 401; reason = "Unauthorized"; message = needs_token }
