-- ===== src/Command/Validation.antt =====
-- What a configuration that passes validation is good for.
use kubegate.Prelude.{
  String, true, Option, none, some, List, [], ◌∷◌, ◌==◌, ◌≡◌, refl, ◌≢◌, ◌↔◌, ◌⊎◌, inl, inr, arith,
  eq_iff, subst, Any, Bool-cases,
}
use kubegate.Text.{split}
use kubegate.Text.Lower.{trim_white_space}
use kubegate.Policy.Types.{Request, Mode, mode_ro_no_secret, mode_ro_secret, mode_rw, all_modes}
use kubegate.Policy.Modes.{parse_mode}
use kubegate.Policy.Modes.Denials.{OneOf}
use kubegate.Policy.Scope.{ResourceScoper}
use kubegate.Policy.Extension.{validate_extension}
use kubegate.Policy.Extension.Load.{
  Reader, Loaded, loaded, not_loaded, load_extension, load_extension_valid,
}
use kubegate.Policy.Engine.{engine, new_engine, authorize}
use kubegate.Policy.Engine.Ceiling.{authorize-secrets}
use kubegate.Policy.Engine.Construction.{new_engine_iff}
use kubegate.Command.{
  ServeConfig, keep_names, parse_namespaces, Outside, valid, adopt_loaded, validate_policy,
  validate_listen, validate_mode, validate, engine_config,
}

keep_names_iff :
    (parts : List String) (ns : String)
    → OneOf (keep_names parts) ns ↔ (Any (λ part. trim_white_space part ≡ ns) parts × (ns ≢ ""))
unfolding keep_names
keep_names_iff [] ns = (λ h. absurd h, λ h. absurd h.0)
keep_names_iff (part ∷ rest) ns =
    ground (arith, keep_names_iff rest ns, eq_iff (trim_white_space part) "")

-- The namespace allowlist holds exactly the parts of --namespace between its commas, with the white
-- space around them removed, that are not empty then.
pub parse_namespaces_iff :
    (raw ns : String)
    → OneOf (parse_namespaces raw) ns
      ↔ (Any (λ part. trim_white_space part ≡ ns) (split b',' raw) × (ns ≢ ""))
unfolding parse_namespaces
parse_namespaces_iff raw ns = keep_names_iff (split b',' raw) ns

-- The mode is one of the three, and the rules of a policy file are read in the strict mode only, and
-- are valid.
abbrev IsReady : ServeConfig → Type 0
IsReady c =
    OneOf all_modes c.mode
    × ((c.extra_rules ≡ [])
        ⊎ ((c.mode ≡ mode_ro_no_secret) × (validate_extension c.extra_rules ≡ none)))

valid-inj : {a b : ServeConfig} → valid a ≡ valid b → a ≡ b
valid-inj e = cc e

parse_mode_known : (m m' : Mode) → parse_mode m ≡ some m' → OneOf all_modes m
unfolding parse_mode
parse_mode_known m m' e =
    ground (arith, eq_iff m mode_ro_no_secret, eq_iff m mode_ro_secret, eq_iff m mode_rw)

module _ (c c' : ServeConfig) (known : OneOf all_modes c.mode) where
  adopt_loaded-IsReady :
      (r : Reader) (path : String) (l : Loaded)
      → c.mode ≡ mode_ro_no_secret
      → load_extension r path ≡ l
      → adopt_loaded c l ≡ valid c'
      → IsReady c'
  adopt_loaded-IsReady r path (loaded rs) strict e h =
      subst IsReady (valid-inj h) (known, inr (strict, load_extension_valid r path rs e))
  adopt_loaded-IsReady r path (not_loaded err) strict e h = cc h

  validate_policy-IsReady :
      (o : Outside) → c.extra_rules ≡ [] → validate_policy o c ≡ valid c' → IsReady c'
  unfolding validate_policy
  validate_policy-IsReady o plain h = elim (Bool-cases (c.policy_path == "")) [
    | inl n ↦ subst IsReady (valid-inj (rw n at h)) (known, inl plain)
    | inr p ↦ elim (Bool-cases (c.mode == mode_ro_no_secret)) [
      | inl s ↦
          adopt_loaded-IsReady o.policy_files c.policy_path _ ((eq_iff _ _).0 s) refl
            (rw (p, s) at h)
      | inr m ↦ cc (rw (p, m) at h)
    ]
  ]

  validate_listen-IsReady :
      (o : Outside) → c.extra_rules ≡ [] → validate_listen o c ≡ valid c' → IsReady c'
  validate_listen-IsReady o plain h = elim (Bool-cases (c.listen == "")) [
    | inl e ↦ cc (rw e at h)
    | inr l ↦ elim (Bool-cases (o.is_host_port c.listen)) [
      | inl a ↦ validate_policy-IsReady o plain (rw (l, a) at h)
      | inr n ↦ cc (rw (l, n) at h)
    ]
  ]

validate_mode-IsReady :
    (o : Outside) (c c' : ServeConfig) (m : Option Mode)
    → parse_mode c.mode ≡ m
    → c.extra_rules ≡ []
    → validate_mode o c m ≡ valid c'
    → IsReady c'
validate_mode-IsReady o c c' none e plain h = cc h
validate_mode-IsReady o c c' (some m) e plain h =
    validate_listen-IsReady c c' (parse_mode_known c.mode m e) o plain h

validate-IsReady :
    (o : Outside) (c c' : ServeConfig) → c.extra_rules ≡ [] → validate o c ≡ valid c' → IsReady c'
unfolding validate
validate-IsReady o c c' plain h = elim (Bool-cases (c.context_name == "")) [
  | inl e ↦ cc (rw e at h)
  | inr n ↦ validate_mode-IsReady o c c' _ refl plain (rw n at h)
]

-- A configuration that begins with no rules, as the flags give it, and passes validation never fails to
-- become an engine, whatever scoper is built for it.
pub validate-new_engine :
    (o : Outside) (c c' : ServeConfig) (scoper : Option ResourceScoper)
    → c.extra_rules ≡ []
    → validate o c ≡ valid c'
    → new_engine (engine_config c' scoper) ≡ engine (record { cfg = engine_config c' scoper })
validate-new_engine o c c' scoper plain h =
    let (known, rules) = validate-IsReady o c c' plain h in
    (new_engine_iff (engine_config c' scoper)).1
      (known, elim rules [ inl empty ↦ inl empty | inr (strict, v) ↦ inr strict ])

-- No configuration that begins with no rules and passes validation in ro-nosecret, whatever its policy
-- file, makes an engine that authorizes a request for secrets.
pub validate-secrets :
    (o : Outside) (c c' : ServeConfig) (scoper : Option ResourceScoper) (req : Request)
    → c.extra_rules ≡ []
    → validate o c ≡ valid c'
    → c'.mode ≡ mode_ro_no_secret
    → req.is_resource_request ≡ true
    → (authorize (record { cfg = engine_config c' scoper }) req).allow ≡ true
    → req.resource ≢ "secrets"
validate-secrets o c c' scoper req plain h strict r ok =
    authorize-secrets (record { cfg = engine_config c' scoper }) req r strict
      (elim (validate-IsReady o c c' plain h).1 [ inl empty ↦ inl empty | inr (s, v) ↦ inr v ]) ok
