-- ===== src/Server/Handler.antt =====
-- internal/server/server.go: the chain that a request passes before it is forwarded, and the audit
-- entry (internal/audit/audit.go) that it leaves.
pub mod Chain
pub mod Headers
pub mod Recorded
use kubegate.Prelude.{
  ℕ, String, Bool, true, false, ◌&&◌, ◌||◌, not, Option, none, some, List, [], ◌∷◌, ◌==◌, ltb,
  if◌then◌else◌,
}
use kubegate.Header
use kubegate.Header.{Header}
use kubegate.Policy.Types.{
  Request, zero_request, Decision, allowed, denied, Reason, upgrade_refused, authentication_failed,
  unparseable_path, body_too_large, json_only, Mode,
}
use kubegate.Policy.Engine.{Engine, authorize, mode_of, redaction_enabled}
use kubegate.Authn.{Authenticator, authenticate, scrub}
use kubegate.Server.Http.{
  HttpRequest, Factory, parse, Status, denied_by_policy, cannot_redact_protobuf, limits_bodies,
  forbidden_status, unauthorized_status,
}
use kubegate.Server.Negotiate.{is_upgrade, negotiate_json}

-- 8 MiB
abbrev pub max_body_bytes : ℕ
max_body_bytes = 8388608

-- The collaborators of the handler that decide, and the parser of request paths.
pub record Options : Type 0 where
  pub engine : Engine
  pub auth : Authenticator
  pub factory : Factory

-- A reply of the handler's own, or the request as it goes to the reverse proxy.
pub data Action : Type 0 where
  reply : Status → Action
  forward : HttpRequest → Action

pub record Verdict : Type 0 where
  pub request : Request
  pub decision : Decision
  pub action : Action

-- `policy.Request{Path: r.URL.Path}`
abbrev pub path_only : HttpRequest → Request
path_only r = record zero_request { path = r.path }

-- A 403 that names no resource.
abbrev refuse : HttpRequest → Reason → Verdict
refuse r why = record {
  request = path_only r;
  decision = denied why;
  action = reply (record { code = 403; reason = "Forbidden"; message = denied_by_policy why });
}

abbrev is_too_large : Option ℕ → Bool
is_too_large none = false
is_too_large (some n) = ltb max_body_bytes n

-- The limit on the declared length, and the forwarding.
unfoldable pub check_length : Request → HttpRequest → Verdict
check_length req r =
    if is_too_large r.content_length
    then record {
      request = req;
      decision = denied body_too_large;
      action =
          reply (record { code = 413; reason = "RequestEntityTooLarge"; message = limits_bodies });
    }
    else record { request = req; decision = allowed; action = forward r }

-- The negotiation of the strict mode.
unfoldable pub negotiate : Options → Request → HttpRequest → Verdict
unfolding check_length
negotiate o req r =
    if not (redaction_enabled o.engine)
    then check_length req r
    else elim (negotiate_json r.header) [
      | none ↦ record {
        request = req;
        decision = denied (json_only (mode_of o.engine));
        action =
            reply
              (record { code = 406; reason = "NotAcceptable"; message = cannot_redact_protobuf });
      }
      | some h ↦ check_length req (record r { header = h })
    ]

unfoldable pub check_policy : Options → Request → HttpRequest → Verdict
check_policy o req r =
    let d = authorize o.engine req in
    if not d.allow
    then record {
      request = req;
      decision = d;
      action = reply (forbidden_status req (mode_of o.engine) d.reason);
    }
    else negotiate o req r

unfoldable pub check_path : Options → HttpRequest → Verdict
check_path o r = elim (parse o.factory r) [
  | none ↦ refuse r unparseable_path
  | some req ↦ check_policy o req r
]

-- `handler.authorize` up to the call of the proxy.
unfoldable pub authorize_request : Options → HttpRequest → Verdict
authorize_request o r =
    if is_upgrade r.header then refuse r upgrade_refused else elim (authenticate o.auth r.header) [
      | some e ↦ record {
        request = path_only r;
        decision = denied authentication_failed;
        action = reply unauthorized_status;
      }
      | none ↦ check_path o (record r { header = scrub r.header })
    ]

-- Where the cluster is.
pub record Base : Type 0 where
  pub scheme : String
  pub host : String

-- The handler's `Rewrite`. What httputil.ReverseProxy takes from the header by itself before it, the
-- hop-by-hop fields, is not modelled.
unfoldable pub rewrite : Base → HttpRequest → HttpRequest
rewrite base r = record r {
  scheme = base.scheme;
  host = base.host;
  header = Header.del "Accept-Encoding" r.header;
}
