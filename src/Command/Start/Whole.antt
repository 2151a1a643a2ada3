-- ===== src/Command/Start/Whole.antt =====
-- From the command line to the listener.
use kubegate.Prelude.{
  String, true, Option, none, some, List, [], ◌∷◌, ◌==◌, ◌≡◌, ◌≢◌, inl, inr, refl, sym, ◌∙◌, ap,
  subst, Bool-cases, eq_iff,
}
use kubegate.Policy.Types.{Request, mode_ro_no_secret}
use kubegate.Policy.Engine.{authorize}
use kubegate.Server.Disk.{Disk}
use kubegate.Command.Settings.{Flags}
use kubegate.Command.{
  ServeConfig, config_of, parse_flags, config_or_error, Validated, valid, invalid, validate,
}
use kubegate.Command.Validation.{validate-secrets}
use kubegate.Command.Start.{
  flags_given, Environment, Listening, Started, listening, run, run_valid, run_parsed, real_main,
}
use kubegate.Command.Extended.{Extends, validate-Extends, config_of-extra}
use kubegate.Command.Start.Stores.{IsSeparate}
use kubegate.Command.Start.Sound.{IsSound, IsUsable}
use kubegate.Command.Start.Steps.{Pins, run-IsSound}
use kubegate.Server.Certificate.Pinned.{IsPinned}

-- The arguments are serve and those of the flags, the flags' configuration is valid, with the rules of
-- its policy file, and the listener is sound for it.
pub record IsRun (env : Environment) (args : List String) (l : Listening) (d : Disk) : Type 0 where
  pub rest : List String
  pub serve : args ≡ "serve" ∷ rest
  pub flags : Flags
  pub given : flags_given env rest ≡ some flags
  pub config : ServeConfig
  pub extended : Extends (config_of flags) config
  pub validated : validate env.config (config_of flags) ≡ valid config
  pub sound : IsSound env config l d

-- Certificate and key are a pair besides, and their files keep them.
pub record IsServing (env : Environment) (args : List String) (l : Listening) (d : Disk)
    : Type 0 where
  pub run : IsRun env args l d
  pub pinned : IsPinned env.certificates run.config.tls_dir l.tls.cert l.tls.key d

-- The flags of this command line do not name one of the certificate's files as the token's.
abbrev pub SeparateFiles : Environment → List String → Type 0
SeparateFiles env args =
    (rest : List String) (f : Flags)
    → args ≡ "serve" ∷ rest
    → flags_given env rest ≡ some f
    → IsSeparate env f.token_file f.tls_dir

config_of-files :
    (f : Flags) (c : ServeConfig)
    → Extends (config_of f) c
    → (c.token_file ≡ f.token_file) × (c.tls_dir ≡ f.tls_dir)
unfolding config_of
config_of-files f c (rs, e) = (ap (λ x. x.token_file) e, ap (λ x. x.tls_dir) e)

still-IsSeparate :
    (env : Environment) (f : Flags) (c : ServeConfig)
    → Extends (config_of f) c
    → IsSeparate env f.token_file f.tls_dir
    → IsSeparate env c.token_file c.tls_dir
still-IsSeparate env f c x s = let (t, d) = config_of-files f c x in rw (t, d) s

module _ (env : Environment) (usable : IsUsable env) where
  abbrev Serves : List String → Started × Disk → Type 0
  Serves args r =
      (l : Listening)
      → r.0 ≡ listening l
      → (run : IsRun env args l r.1) × Pins env run.config l.tls.cert l.tls.key r.1

  run_valid-Serves :
      (rest : List String) (f : Flags) (v : Validated) (d : Disk)
      → flags_given env rest ≡ some f
      → validate env.config (config_of f) ≡ v
      → Serves ("serve" ∷ rest) (run_valid env v d)
  unfolding run
  run_valid-Serves rest f (invalid e) d g h l r = cc r
  run_valid-Serves rest f (valid c) d g h l r =
      let x = validate-Extends (config_of f) c env.config h in
      let (sound, pins) = run-IsSound env c usable l d r in
      (
        record {
          rest = rest;
          serve = refl;
          flags = f;
          given = g;
          config = c;
          extended = x;
          validated = h;
          sound = sound;
        },
        pins,
      )

  run_parsed-Serves :
      (args : List String) (f : Option Flags) (d : Disk)
      → flags_given env args ≡ f
      → Serves ("serve" ∷ args) (run_parsed env (config_or_error f) d)
  unfolding run
  run_parsed-Serves args none d e l r = cc r
  run_parsed-Serves args (some f) d e l r = run_valid-Serves args f _ d e refl l r

  real_main-Serves : (args : List String) (d : Disk) → Serves args (real_main env args d)
  unfolding real_main parse_flags
  real_main-Serves [] d l r = cc r
  real_main-Serves (sub ∷ args) d l r = elim (Bool-cases (sub == "serve")) [
    | inl s ↦
        rw ((eq_iff sub "serve").0 s)
          (run_parsed-Serves args (flags_given env args) d refl l (rw s at r))
    | inr n ↦ cc (rw n at r)
  ]

pub real_main-IsRun :
    (env : Environment) (args : List String) (d : Disk) (l : Listening)
    → IsUsable env
    → (real_main env args d).0 ≡ listening l
    → IsRun env args l (real_main env args d).1
real_main-IsRun env args d l u h = (real_main-Serves env u args d l h).0

-- Whatever the command line: where the program comes to listen, its first argument is serve, the flags
-- that the others give are valid, and the listener has the route of their context, which has passed the
-- probe; an engine with just their mode, namespaces and rules, and a scoper exactly where there are
-- namespaces; and a token, a certificate and its key that are a pair, which their files keep, the token's
-- and the key's as private ones; and it offers HTTP/1.1 only. The flags must not name one of the
-- certificate's two files, whose paths differ, as the token's, and random tokens must be long enough, with
-- no white space at their ends.
pub real_main-IsServing :
    (env : Environment) (args : List String) (d : Disk) (l : Listening)
    → IsUsable env
    → SeparateFiles env args
    → (real_main env args d).0 ≡ listening l
    → IsServing env args l (real_main env args d).1
real_main-IsServing env args d l u p h =
    let (run, pins) = real_main-Serves env u args d l h in
    record {
      run = run;
      pinned = pins (
          still-IsSeparate env run.flags run.config run.extended
            (p run.rest run.flags run.serve run.given));
    }

-- Whatever the command line, the policy file, the kubeconfig and the cluster: where the program comes to
-- listen in ro-nosecret, its engine authorizes no request for secrets. The paths of certificate and key
-- must differ, and random tokens must be long enough, with no white space at their ends.
pub real_main-secrets :
    (env : Environment) (args : List String) (d : Disk) (l : Listening) (req : Request)
    → IsUsable env
    → (real_main env args d).0 ≡ listening l
    → l.logger.mode ≡ mode_ro_no_secret
    → req.is_resource_request ≡ true
    → (authorize l.options.engine req).allow ≡ true
    → req.resource ≢ "secrets"
real_main-secrets env args d l req u h strict r ok =
    let s = real_main-IsRun env args d l u h in
    validate-secrets env.config (config_of s.flags) s.config s.sound.scoper req
      (config_of-extra s.flags) s.validated (sym (ap (λ x. x.mode) s.sound.logger) ∙ strict) r
      (subst (λ x. (authorize x req).allow ≡ true) s.sound.engine ok)
