-- ===== src/Command/Start/Sound.antt =====
-- What stands behind a listener.
use kubegate.Prelude.{◌∷◌, String, Option, none, some, [], ◌≡◌, ◌≢◌, ◌⊎◌}
use kubegate.Policy.Scope.{StaticScoper, ResourceScoper, static_scoper}
use kubegate.Audit.{new_logger}
use kubegate.Discovery.Scoper.{built, build_scoper}
use kubegate.Discovery.Fetch.{cluster_of}
use kubegate.Upstream.{Upstream, upstream, new_upstream, probe}
use kubegate.Server.Disk.{Disk}
use kubegate.Server.Certificate.{cert_path, key_path}
use kubegate.Server.TokenFile.Kept.{IsKept, IsFresh}
use kubegate.Command.{ServeConfig, engine_config}
use kubegate.Command.Start.{Environment, Listening}

-- The scoper is built from the cluster's documents where there are namespaces, and only there.
abbrev pub IsScoped : Environment → ServeConfig → Upstream → Option ResourceScoper → Type 0
IsScoped env c up scoper =
    ((c.namespaces ≡ []) × (scoper ≡ none))
    ⊎ ((s : StaticScoper) × (scoper ≡ some (static_scoper s))
        × (c.namespaces ≢ [])
        × (build_scoper (cluster_of env.client env.decoder up) ≡ built s))

-- The route is the configured context's and has passed the probe; the engine has the configuration's
-- mode, namespaces and rules, and its scoper; the authenticator knows the token, which a private file
-- keeps; the listener offers HTTP/1.1 only.
pub record IsSound (env : Environment) (c : ServeConfig) (l : Listening) (d : Disk) : Type 0 where
  pub routed : new_upstream env.client c.kubeconfig c.context_name ≡ upstream l.upstream
  pub probed : probe env.client l.upstream ≡ none
  pub scoper : Option ResourceScoper
  pub scoped : IsScoped env c l.upstream scoper
  pub engine : l.options.engine ≡ record { cfg = engine_config c scoper }
  pub auth : l.options.auth.token ≡ l.token
  pub kept : IsKept c.token_file l.token d
  pub http1 : l.tls.next_protos ≡ "http/1.1" ∷ []
  pub logger : l.logger ≡ new_logger c.mode c.context_name

-- The paths of the certificate and of its key differ, whatever the directory; and random tokens are long
-- enough and have no white space at their ends.
pub record IsUsable (env : Environment) : Type 0 where
  pub apart : (dir : String) → cert_path env.certificates dir ≢ key_path env.certificates dir
  pub fresh : IsFresh env.token_os
