-- ===== src/Command/Start/Steps.antt =====
-- Each step of a start, up to the listener that it ends in.
use kubegate.Prelude.{
  String, true, Option, none, some, List, [], ◌∷◌, ◌==◌, ◌≡◌, ◌≢◌, inl, inr, refl, sym, ◌∙◌, ap,
  subst, arith, Bool-cases,
}
use kubegate.Policy.Scope.{ResourceScoper, static_scoper}
use kubegate.Policy.Engine.{Engine, Config, NewEngine, engine, refused, is_empty, new_engine}
use kubegate.Policy.Modes.{parse_mode}
use kubegate.Authn.{Authenticator, new_authenticator}
use kubegate.Discovery.Scoper
use kubegate.Discovery.Scoper.{BuildResult, built, build_scoper}
use kubegate.Discovery.Fetch.{cluster_of}
use kubegate.Upstream.{
  Upstream, NewUpstream, upstream, no_upstream, new_upstream, ProbeError,
  is_credentials_unavailable, probe,
}
use kubegate.Server.Disk.{Disk, find}
use kubegate.Server.Certificate
use kubegate.Server.Certificate.{
  Library, CertResult, certificate, cert_path, key_path, load_or_create_cert,
}
use kubegate.Server.Certificate.Pinned.{IsPinned, load_or_create_cert-IsPinned}
use kubegate.Server.TokenFile
use kubegate.Server.TokenFile.{TokenResult, token, load_or_create_token}
use kubegate.Server.TokenFile.Kept.{IsKept, IsFresh, load_or_create_token-IsKept}
use kubegate.Server.TokenFile.Elsewhere.{load_or_create_token-IsElsewhere}
use kubegate.Command.{ServeConfig, engine_config}
use kubegate.Command.Start.Stores.{opened-IsKept, opened-IsPinned, IsSeparate, elsewhere-IsPinned}
use kubegate.Command.Start.{
  Environment, AuditOut, standard_error, log_file, Listening, StartError, Started, listening,
  stopped, opened, listen_with, with_audit, with_auth, with_token, with_cert, with_engine,
  with_scoper, with_route, with_probe, with_upstream, run,
}
use kubegate.Command.Start.Sound.{IsScoped, IsSound, IsUsable}

is_empty-nil {ℓ} : {A : Type ℓ} (xs : List A) → is_empty xs ≡ true → xs ≡ []
is_empty-nil [] h = refl
is_empty-nil (x ∷ xs) h = cc h

-- An engine has the configuration that it was made of.
new_engine-cfg : (cfg : Config) (e : Engine) → new_engine cfg ≡ engine e → record { cfg = cfg } ≡ e
unfolding new_engine parse_mode
new_engine-cfg cfg e h = ground arith

listening-inj : {a b : Listening} → listening a ≡ listening b → a ≡ b
listening-inj e = cc e

new_authenticator-token :
    (tok : String) (auth : Authenticator) → new_authenticator tok ≡ some auth → auth.token ≡ tok
unfolding new_authenticator
new_authenticator-token tok auth h = ground arith

module _ (env : Environment) (c : ServeConfig) where
  -- The certificate's files keep it, unless the token's file is one of them.
  abbrev pub Pins : String → String → Disk → Type 0
  Pins cert key d =
      IsSeparate env c.token_file c.tls_dir → IsPinned env.certificates c.tls_dir cert key d

  -- What a step says of the listener that it ends in.
  abbrev Sounds : Started × Disk → Type 0
  Sounds r =
      (l : Listening) → r.0 ≡ listening l → IsSound env c l r.1 × Pins l.tls.cert l.tls.key r.1

  stopped-Sounds : (e : StartError) (d : Disk) → Sounds (stopped e, d)
  stopped-Sounds e d l h = cc h

  module _ (up : Upstream) (scoper : Option ResourceScoper) (e : Engine)
      (routed : new_upstream env.client c.kubeconfig c.context_name ≡ upstream up)
      (probed : probe env.client up ≡ none) (scoped : IsScoped env c up scoper)
      (built_of : record { cfg = engine_config c scoper } ≡ e) where
    module _ (cert key tok : String) (auth : Authenticator) (same : auth.token ≡ tok) where
      -- The disk that the certificate and the token are kept on.
      abbrev IsStored : Disk → Type 0
      IsStored d = IsKept c.token_file tok d × Pins cert key d

      listen_with-IsSound :
          (out : AuditOut) (d : Disk)
          → IsStored d
          → IsSound env c
              (listen_with env c up cert key tok out
                (record { engine = e; auth = auth; factory = env.factory }))
              d
      listen_with-IsSound out d k = record {
        routed = routed;
        probed = probed;
        scoper = scoper;
        scoped = scoped;
        engine = sym built_of;
        auth = same;
        kept = k.0;
        http1 = refl;
        logger = refl;
      }

      listens :
          (out : AuditOut) (d : Disk)
          → IsStored d
          → Sounds (
            listening (
                listen_with env c up cert key tok out
                  (record { engine = e; auth = auth; factory = env.factory })),
            d,
          )
      listens out d k l h =
          subst (λ x. IsSound env c x d × Pins x.tls.cert x.tls.key d) (listening-inj h)
            (listen_with-IsSound out d k, k.1)

      with_audit-Sounds :
          (d : Disk) → IsStored d → Sounds (with_audit env c up e cert key tok auth d)
      unfolding with_audit
      with_audit-Sounds d k = elim (Bool-cases (c.audit_path == "")) [
        | inl n ↦ rw n (listens standard_error d k)
        | inr n ↦ elim (Bool-cases (env.opens_log c.audit_path)) [
          | inl o ↦
              rw (n, o)
                (listens (log_file c.audit_path) (opened c.audit_path (find c.audit_path d.files) d)
                  (
                    opened-IsKept c.token_file tok c.audit_path d k.0,
                    λ p. opened-IsPinned env.certificates c.tls_dir cert key c.audit_path d (k.1 p),
                  ))
          | inr o ↦ rw (n, o) (stopped-Sounds _ d)
        ]
      ]

    with_auth-Sounds :
        (cert key tok : String) (auth : Option Authenticator) (d : Disk)
        → new_authenticator tok ≡ auth
        → Pins cert key d
        → IsKept c.token_file tok d
        → Sounds (with_auth env c up e cert key tok auth d)
    unfolding with_audit
    with_auth-Sounds cert key tok none d a p k = stopped-Sounds _ d
    with_auth-Sounds cert key tok (some auth) d a p k =
        with_audit-Sounds cert key tok auth (new_authenticator-token tok auth a) d (k, p)

    with_token-Sounds :
        (cert key : String) (r : TokenResult × Disk)
        → ((tok : String) → r.0 ≡ token tok → IsKept c.token_file tok r.1 × Pins cert key r.1)
        → Sounds (with_token env c up e cert key r)
    unfolding with_audit
    with_token-Sounds cert key (TokenFile.failed err, d) k = stopped-Sounds _ d
    with_token-Sounds cert key (token tok, d) k =
        with_auth-Sounds cert key tok _ d refl (k tok refl).1 (k tok refl).0

    with_cert-Sounds :
        (r : CertResult × Disk)
        → IsFresh env.token_os
        → ((cert key : String)
            → r.0 ≡ certificate cert key
            → IsPinned env.certificates c.tls_dir cert key r.1)
        → Sounds (with_cert env c up e r)
    unfolding with_audit
    with_cert-Sounds (Certificate.failed err, d) fresh p = stopped-Sounds _ d
    with_cert-Sounds (certificate cert key, d) fresh p =
        with_token-Sounds cert key (load_or_create_token env.token_os c.token_file c.rotate_token d)
          (λ tok h. (
            load_or_create_token-IsKept env.token_os c.token_file tok c.rotate_token d fresh h,
            λ apart.
                elsewhere-IsPinned env c.tls_dir cert key c.token_file d _ apart
                  (load_or_create_token-IsElsewhere env.token_os c.token_file tok c.rotate_token d
                    h)
                  (p cert key refl),
          ))

  module _ (usable : IsUsable env) (up : Upstream)
      (routed : new_upstream env.client c.kubeconfig c.context_name ≡ upstream up) where
    with_engine-Sounds :
        (scoper : Option ResourceScoper) (made : NewEngine) (d : Disk)
        → probe env.client up ≡ none
        → IsScoped env c up scoper
        → new_engine (engine_config c scoper) ≡ made
        → Sounds (with_engine env c up made d)
    unfolding with_audit
    with_engine-Sounds scoper (refused err) d p s h = stopped-Sounds _ d
    with_engine-Sounds scoper (engine e) d p s h =
        with_cert-Sounds up scoper e routed p s (new_engine-cfg (engine_config c scoper) e h)
          (load_or_create_cert env.certificates env.cert_os c.tls_dir c.listen c.tls_sans d)
          usable.fresh
          (λ cert key h.
            load_or_create_cert-IsPinned env.certificates env.cert_os c.tls_dir c.listen cert key
              c.tls_sans d (usable.apart c.tls_dir) h)

    with_scoper-Sounds :
        (r : BuildResult) (d : Disk)
        → probe env.client up ≡ none
        → c.namespaces ≢ []
        → build_scoper (cluster_of env.client env.decoder up) ≡ r
        → Sounds (with_scoper env c up r d)
    unfolding with_audit
    with_scoper-Sounds (Scoper.failed err) d p n h = stopped-Sounds _ d
    with_scoper-Sounds (built s) d p n h =
        with_engine-Sounds (some (static_scoper s)) _ d p (inr (s, refl, n, h)) refl

    with_route-Sounds : (d : Disk) → probe env.client up ≡ none → Sounds (with_route env c up d)
    unfolding with_route
    with_route-Sounds d p = elim (Bool-cases (is_empty c.namespaces)) [
      | inl e ↦ rw e (with_engine-Sounds none _ d p (inl (is_empty-nil c.namespaces e, refl)) refl)
      | inr f ↦ rw f (with_scoper-Sounds _ d p (λ h. cc (sym f ∙ ap is_empty h)) refl)
    ]

    with_probe-Sounds :
        (d : Disk) (e : Option ProbeError)
        → probe env.client up ≡ e
        → Sounds (with_probe env c up e d)
    unfolding with_route
    with_probe-Sounds d none p = with_route-Sounds d p
    with_probe-Sounds d (some e) p = elim (Bool-cases (is_credentials_unavailable (some e))) [
      | inl t ↦ rw t (stopped-Sounds _ d)
      | inr f ↦ rw f (stopped-Sounds _ d)
    ]

  with_upstream-Sounds :
      (usable : IsUsable env) (d : Disk) (r : NewUpstream)
      → new_upstream env.client c.kubeconfig c.context_name ≡ r
      → Sounds (with_upstream env c r d)
  unfolding with_route
  with_upstream-Sounds u d (no_upstream e) h = stopped-Sounds _ d
  with_upstream-Sounds u d (upstream up) h = with_probe-Sounds u up h d _ refl

  -- Where `run` comes to listen, what is behind the listener is sound, and the certificate is kept.
  pub run-IsSound :
      IsUsable env
      → (l : Listening) (d : Disk) → (run env c d).0 ≡ listening l
      → IsSound env c l (run env c d).1 × Pins l.tls.cert l.tls.key (run env c d).1
  unfolding run
  run-IsSound u l d h = with_upstream-Sounds u d _ refl l h
