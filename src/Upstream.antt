-- ===== src/Upstream.antt =====
-- internal/upstream/upstream.go: the route to one cluster, with the host's credentials in it.
pub mod Probed
mod Tests
use kubegate.Prelude.{
  ℕ, String, Bool, true, false, ◌&&◌, ◌||◌, not, Option, none, some, List, [], ◌∷◌, ◌==◌, eqb, ltb,
  if◌then◌else◌,
}
use kubegate.Policy.Modes.{has_key}
use kubegate.Server.Http.{HttpRequest}
use kubegate.Server.Response.{Response}

-- The parts of a `url.URL` that are read or set.
pub record Url : Type 0 where
  pub scheme : String
  pub host : String
  pub path : String

-- `http.RoundTripper`: `none` is an error.
abbrev pub Transport : Type 0
Transport = HttpRequest → Option Response

-- `rest.Config`: the server's address, and what `rest.TransportFor` makes of the configuration.
pub record RestConfig : Type 0 where
  pub host : String
  pub transport : Option Transport

-- client-go, net/url and net/http: the names of the contexts that are loaded from an explicit path,
-- or from the default places; the client configuration of a context; parsing an address; and whether
-- a request can be made for one.
pub record Client : Type 0 where
  pub raw_contexts : Option String → Option (List String)
  pub client_config : Option String → String → Option RestConfig
  pub parse_url : String → Option Url
  pub is_requestable : Url → Bool

pub record Upstream : Type 0 where
  pub context_name : String
  pub base : Url
  pub transport : Transport

pub data UpstreamError : Type 0 where
  context_required not_loaded : UpstreamError
  context_not_found no_client_config no_transport : String → UpstreamError
  bad_server_url : UpstreamError

pub data NewUpstream : Type 0 where
  upstream : Upstream → NewUpstream
  no_upstream : UpstreamError → NewUpstream

abbrev pub explicit_path : String → Option String
explicit_path path = if not (path == "") then some path else none

-- A path of one slash is dropped.
abbrev pub with_base : String → Transport → Option Url → NewUpstream
with_base name rt none = no_upstream bad_server_url
with_base name rt (some u) = upstream (record {
  context_name = name;
  base = if u.path == "/" then record u { path = "" } else u;
  transport = rt;
})

abbrev pub with_transport : Client → String → String → Option Transport → NewUpstream
with_transport c name host none = no_upstream (no_transport name)
with_transport c name host (some rt) = with_base name rt (c.parse_url host)

abbrev pub with_config : Client → String → Option RestConfig → NewUpstream
with_config c name none = no_upstream (no_client_config name)
with_config c name (some cfg) = with_transport c name cfg.host cfg.transport

abbrev pub with_contexts : Client → String → String → Option (List String) → NewUpstream
with_contexts c path name none = no_upstream not_loaded
with_contexts c path name (some names) =
    if not (has_key names name)
    then no_upstream (context_not_found name)
    else with_config c name (c.client_config (explicit_path path) name)

-- `New`
unfoldable pub new_upstream : Client → String → String → NewUpstream
new_upstream c path name =
    if name == ""
    then no_upstream context_required
    else with_contexts c path name (c.raw_contexts (explicit_path path))

-- A GET of a path of the cluster, asking for JSON.
abbrev pub json_request : Url → String → HttpRequest
json_request base path = record {
  method = "GET";
  path = path;
  follow = "";
  scheme = base.scheme;
  host = base.host;
  content_length = some 0;
  header = ("Accept", "application/json" ∷ []) ∷ [];
}

pub data ProbeError : Type 0 where
  not_requestable : ProbeError
  no_answer : String → ProbeError
  rejected : String → ℕ → ProbeError
  server_failed : String → ℕ → ProbeError

-- `errors.Is` with `ErrCredentialsUnavailable`
abbrev pub is_credentials_unavailable : Option ProbeError → Bool
is_credentials_unavailable none = false
is_credentials_unavailable (some not_requestable) = false
is_credentials_unavailable (some (no_answer name)) = true
is_credentials_unavailable (some (rejected name code)) = true
is_credentials_unavailable (some (server_failed name code)) = false

abbrev pub probe_status : String → ℕ → Option ProbeError
probe_status name code =
    if eqb code 401 || eqb code 403
    then some (rejected name code)
    else if not (ltb code 500)
    then some (server_failed name code)
    else none

abbrev pub probe_answer : String → Option Response → Option ProbeError
probe_answer name none = some (no_answer name)
probe_answer name (some resp) = probe_status name resp.status

-- `Probe`: `none` is the nil error.
unfoldable pub probe : Client → Upstream → Option ProbeError
probe c u =
    if not (c.is_requestable (record u.base { path = "/version" }))
    then some not_requestable
    else probe_answer u.context_name (u.transport (json_request u.base "/version"))
