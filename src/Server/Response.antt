-- ===== src/Server/Response.antt =====
-- internal/server/server.go: what becomes of the cluster's response, and of a failure to get one.
pub mod Failclosed
use kubegate.Prelude.{
  ℕ, String, Bool, true, false, ◌&&◌, ◌||◌, not, Option, none, some, List, [], ◌∷◌, ◌==◌, eqb, ltb,
  length, if◌then◌else◌,
}
use kubegate.Json.{Bytes, Codec}
use kubegate.Policy.Types.{Request}
use kubegate.Policy.Engine.{Engine, redaction_enabled}
use kubegate.Redact.{redact_body, BodyResult, body, decode_failed, encode_failed}
use kubegate.Redact.Stream.{Chunk}
use kubegate.Discovery.Documents.{is_discovery_path}
use kubegate.Discovery.Filter
use kubegate.Discovery.Filter.{FilterResult, filter_body}
use kubegate.Server.Http.{Status, refused_unchecked, login_again, no_response_in_time, unreachable}
use kubegate.Server.Negotiate.{is_json, is_pod_log, is_watch}

-- The length that the response declares, the body as `io.ReadAll` would read it without a limit, whether reading and closing succeed, and
-- the chunks in which a frame reader gets it.
pub record Response : Type 0 where
  pub status : ℕ
  pub content_type : String
  pub path : String
  pub follow : String
  pub content_length : Option ℕ
  pub body : Bytes
  pub reads : Bool
  pub closes : Bool
  pub chunks : List Chunk

-- What `modifyResponse` does: it leaves the response alone, redacts its frames as they arrive,
-- replaces the body (and says whether it was changed), or fails.
pub data Modified : Type 0 where
  untouched : Modified
  streamed : List Chunk → Modified
  replaced : Bytes → Bool → Modified
  not_inspected : Modified
  not_read : Modified

abbrev pub add_change : Bool → BodyResult → Modified
add_change changed (body out more) = replaced out (changed || more)
add_change changed decode_failed = not_inspected
add_change changed encode_failed = not_inspected

-- The redaction of a successful response in the strict mode.
unfoldable pub redact_step : Codec → Engine → Response → Bytes → Bool → Modified
redact_step codec e resp out changed =
    if redaction_enabled e && eqb resp.status 200
    then add_change changed (redact_body codec out)
    else replaced out changed

abbrev pub after_filter : Codec → Engine → Response → FilterResult → Modified
after_filter codec e resp (Filter.passed out changed) = redact_step codec e resp out changed
after_filter codec e resp (Filter.refused err) = not_inspected

-- The filtering of a successful discovery document, and what follows.
unfoldable pub filter_step : Codec → Engine → Response → Modified
unfolding redact_step
filter_step codec e resp =
    if is_discovery_path resp.path && eqb resp.status 200
    then after_filter codec e resp (filter_body codec e resp.path resp.body)
    else redact_step codec e resp resp.body false

-- Reading the body. One byte past the limit is enough to tell that it is too long.
unfoldable pub buffer : Codec → ℕ → Engine → Response → Modified
unfolding filter_step
buffer codec limit e resp =
    if not resp.reads || not resp.closes
    then not_read
    else if ltb limit (length resp.body)
    then not_inspected
    else filter_step codec e resp

-- Whether a body that is not JSON is one that the pipeline has promised to transform.
unfoldable pub expects_json : Request → Response → Bool
expects_json req resp =
    eqb resp.status 200
    && (is_discovery_path resp.path || (req.is_resource_request && not (is_pod_log req)))

-- `modifyResponse`, with the limit of `MaxResponseBodyBytes`.
unfoldable pub modify_response : Codec → ℕ → Engine → Request → Response → Modified
unfolding expects_json buffer
modify_response codec limit e req resp =
    if not (redaction_enabled e) && not (is_discovery_path resp.path)
    then untouched
    else if not (is_json resp.content_type)
    then if redaction_enabled e && expects_json req resp then not_inspected else untouched
    else if not (is_discovery_path resp.path) && is_watch req resp.follow
    then if not (redaction_enabled e) then untouched else streamed resp.chunks
    else buffer codec limit e resp

-- A failure to forward, by the tests that `writeProxyError` makes on the error's chain.
pub record ProxyFailure : Type 0 where
  pub is_redaction : Bool
  pub is_credentials_unavailable : Bool
  pub is_net_timeout : Bool
  pub is_handler_timeout : Bool

-- `writeProxyError`
unfoldable pub proxy_error : ProxyFailure → Status
proxy_error err =
    if err.is_redaction
    then record { code = 500; reason = "InternalError"; message = refused_unchecked }
    else if err.is_credentials_unavailable
    then record { code = 503; reason = "ServiceUnavailable"; message = login_again }
    else if err.is_net_timeout
    then record { code = 504; reason = "Timeout"; message = no_response_in_time }
    else if err.is_handler_timeout
    then record { code = 504; reason = "Timeout"; message = no_response_in_time }
    else record { code = 502; reason = "InternalError"; message = unreachable }
