-- ===== src/Command/Start.antt =====
-- cmd/kubegate/serve.go, `run`, and main.go, `realMain`: the steps of a start up to the listener.
pub mod Stores
pub mod Sound
pub mod Steps
pub mod Whole
pub mod Stopped
pub mod Served
pub mod Scoped
pub mod Shown
pub mod Exit
mod Tests
use Prim.Native.String.{◌++◌ as str_append}
use kubegate.Prelude.{
  ℕ, String, Bool, true, false, not, Option, none, some, List, [], ◌∷◌, ◌==◌, if◌then◌else◌,
}
use kubegate.Policy.Scope.{StaticScoper, ResourceScoper, static_scoper}
use kubegate.Policy.Engine.{Engine, EngineError, NewEngine, engine, refused, is_empty, new_engine}
use kubegate.Authn.{Authenticator, new_authenticator}
use kubegate.Audit.{Logger, new_logger}
use kubegate.Discovery.Scoper
use kubegate.Discovery.Scoper.{ScoperError, BuildResult, built, build_scoper}
use kubegate.Discovery.Fetch.{Decoder, cluster_of}
use kubegate.Upstream.{
  Client, Upstream, UpstreamError, NewUpstream, upstream, no_upstream, new_upstream, ProbeError,
  is_credentials_unavailable, probe,
}
use kubegate.Server.Http.{Factory}
use kubegate.Server.Handler.{Options}
use kubegate.Server.Serve
use kubegate.Server.Kubeconfig.{banner}
use kubegate.Server.Disk.{File, Disk, find, store, file_mode}
use kubegate.Server.Certificate
use kubegate.Server.Certificate.{
  TlsConfig, tls_config, Library, CertError, CertResult, certificate, load_or_create_cert,
}
use kubegate.Server.TokenFile
use kubegate.Server.TokenFile.{TokenError, TokenResult, token, load_or_create_token}
use kubegate.Command.Settings.{Setting, Home, Flags, flags_or_error}
use kubegate.Command.{
  ServeConfig, parse_flags, Outside, ConfigError, Validated, valid, invalid, validate,
  engine_config,
}

-- What a start takes from outside.
pub record Environment : Type 0 where
  pub flag_set : List String → Option (List Setting)
  pub home : Home
  pub config : Outside
  pub client : Client
  pub decoder : Decoder
  pub certificates : Library
  pub cert_os : Certificate.Os
  pub token_os : TokenFile.Os
  pub opens_log : String → Bool
  pub factory : Factory

-- The flags that the arguments give.
abbrev pub flags_given : Environment → List String → Option Flags
flags_given env args = flags_or_error env.home (env.flag_set args)

pub data AuditOut : Type 0 where
  standard_error : AuditOut
  log_file : String → AuditOut

-- What the listener serves with: the handler's collaborators, the TLS settings, and the token that the
-- banner shows.
pub record Listening : Type 0 where
  pub address : String
  pub upstream : Upstream
  pub options : Options
  pub logger : Logger
  pub audit_out : AuditOut
  pub tls : TlsConfig
  pub token : String

-- An error of the start. A probe's error comes with the hint to log in again, or without.
pub data StartError : Type 0 where
  no_subcommand bad_flags : StartError
  bad_config : ConfigError → StartError
  no_route : UpstreamError → StartError
  login_expired probe_failed : ProbeError → StartError
  no_scope_map : ScoperError → StartError
  no_engine : EngineError → StartError
  no_certificate : CertError → StartError
  no_token : TokenError → StartError
  token_refused audit_log_not_opened handler_incomplete : StartError

pub data Started : Type 0 where
  listening : Listening → Started
  stopped : StartError → Started

-- `os.OpenFile` for appending, which makes a file that is not there.
abbrev pub opened : String → Option File → Disk → Disk
opened p none d = record d { files = store p (record { text = ""; mode = file_mode }) d.files }
opened p (some f) d = d

-- `NewHandler`: a collaborator that is nil is refused.
abbrev pub new_handler :
    Factory
    → Option Upstream
    → Option Engine
    → Option Authenticator
    → Option Logger
    → Option Options
new_handler factory (some up) (some e) (some auth) (some l) =
    some (record { engine = e; auth = auth; factory = factory })
new_handler factory up e auth l = none

module _ (env : Environment) (c : ServeConfig) where
  abbrev pub listen_with : Upstream → String → String → String → AuditOut → Options → Listening
  listen_with up cert key tok out options = record {
    address = c.listen;
    upstream = up;
    options = options;
    logger = new_logger c.mode c.context_name;
    audit_out = out;
    tls = tls_config cert key;
    token = tok;
  }

  abbrev pub with_handler :
      Upstream → String → String → String → AuditOut → Option Options → Disk → Started × Disk
  with_handler up cert key tok out none d = (stopped handler_incomplete, d)
  with_handler up cert key tok out (some options) d =
      (listening (listen_with up cert key tok out options), d)

  -- The handler that is made once it is known where the audit log goes.
  abbrev pub handler_for : Upstream → Engine → Authenticator → Option Options
  handler_for up e auth =
      new_handler env.factory (some up) (some e) (some auth)
        (some (new_logger c.mode c.context_name))

  unfoldable pub with_audit :
      Upstream → Engine → String → String → String → Authenticator → Disk → Started × Disk
  with_audit up e cert key tok auth d =
      if c.audit_path == ""
      then with_handler up cert key tok standard_error (handler_for up e auth) d
      else if not (env.opens_log c.audit_path)
      then (stopped audit_log_not_opened, d)
      else with_handler up cert key tok (log_file c.audit_path) (handler_for up e auth)
          (opened c.audit_path (find c.audit_path d.files) d)

  abbrev pub with_auth :
      Upstream → Engine → String → String → String → Option Authenticator → Disk → Started × Disk
  with_auth up e cert key tok none d = (stopped token_refused, d)
  with_auth up e cert key tok (some auth) d = with_audit up e cert key tok auth d

  abbrev pub with_token : Upstream → Engine → String → String → TokenResult × Disk → Started × Disk
  with_token up e cert key (TokenFile.failed err, d) = (stopped (no_token err), d)
  with_token up e cert key (token tok, d) = with_auth up e cert key tok (new_authenticator tok) d

  abbrev pub with_cert : Upstream → Engine → CertResult × Disk → Started × Disk
  with_cert up e (Certificate.failed err, d) = (stopped (no_certificate err), d)
  with_cert up e (certificate cert key, d) =
      with_token up e cert key (load_or_create_token env.token_os c.token_file c.rotate_token d)

  abbrev pub with_engine : Upstream → NewEngine → Disk → Started × Disk
  with_engine up (refused err) d = (stopped (no_engine err), d)
  with_engine up (engine e) d =
      with_cert up e
        (load_or_create_cert env.certificates env.cert_os c.tls_dir c.listen c.tls_sans d)

  abbrev pub with_scoper : Upstream → BuildResult → Disk → Started × Disk
  with_scoper up (Scoper.failed err) d = (stopped (no_scope_map err), d)
  with_scoper up (built s) d =
      with_engine up (new_engine (engine_config c (some (static_scoper s)))) d

  -- The scope map is fetched only where there are namespaces.
  unfoldable pub with_route : Upstream → Disk → Started × Disk
  with_route up d =
      if not (is_empty c.namespaces)
      then with_scoper up (build_scoper (cluster_of env.client env.decoder up)) d
      else with_engine up (new_engine (engine_config c none)) d

  abbrev pub with_probe : Upstream → Option ProbeError → Disk → Started × Disk
  with_probe up none d = with_route up d
  with_probe up (some e) d =
      if is_credentials_unavailable (some e)
      then (stopped (login_expired e), d)
      else (stopped (probe_failed e), d)

  abbrev pub with_upstream : NewUpstream → Disk → Started × Disk
  with_upstream (no_upstream e) d = (stopped (no_route e), d)
  with_upstream (upstream up) d = with_probe up (probe env.client up) d

  -- `run`, up to the banner.
  unfoldable pub run : Disk → Started × Disk
  unfolding with_route with_audit
  run d = with_upstream (new_upstream env.client c.kubeconfig c.context_name) d

abbrev pub run_valid : Environment → Validated → Disk → Started × Disk
run_valid env (invalid e) d = (stopped (bad_config e), d)
run_valid env (valid c) d = run env c d

abbrev pub run_parsed : Environment → Option ServeConfig → Disk → Started × Disk
run_parsed env none d = (stopped bad_flags, d)
run_parsed env (some c) d = run_valid env (validate env.config c) d

-- `realMain`
unfoldable pub real_main : Environment → List String → Disk → Started × Disk
unfolding run
real_main env [] d = (stopped no_subcommand, d)
real_main env (sub ∷ args) d =
    if not (sub == "serve")
    then (stopped no_subcommand, d)
    else run_parsed env (parse_flags env.home env.flag_set args) d

-- What `NewHandler` takes of the route: the scheme and the host that Rewrite sets, and the transport.
abbrev pub wired : Listening → Serve.Outside → Serve.Outside
wired l w = record w {
  base = record { scheme = l.upstream.base.scheme; host = l.upstream.base.host };
  round_trip = l.upstream.transport;
}

-- The banner, which the operator sees once everything is made.
abbrev pub shown : (String → String) → Listening → String
shown encode l =
    banner encode (str_append "https://" l.address) l.tls.cert l.token l.logger.mode
      l.logger.context
