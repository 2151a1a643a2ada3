-- ===== src/Policy/Engine/Ceiling.antt =====
-- The capability ceiling that a mode puts on every request.
use kubegate.Prelude.{
  ◌≡◌, refl, sym, ◌≢◌, ◌⊎◌, inl, inr, String, true, false, none, [], arith, eq_iff, Bool-cases,
}
use kubegate.Policy.Types.{Request, Mode, mode_ro_no_secret, mode_ro_secret, mode_rw}
use kubegate.Policy.Rule.{matches}
use kubegate.Policy.Modes.{read_verbs}
use kubegate.Policy.Modes.Denials.{OneOf, NeverForwarded}
use kubegate.Policy.Modes.Allowlist.{ro_no_secret_allow-secrets}
use kubegate.Policy.Extension.{validate_extension}
use kubegate.Policy.Extension.Grants.{validate_extension_sound}
use kubegate.Policy.Engine.{Engine, authorize}
use kubegate.Policy.Engine.Stages.{authorize_iff, authorize_non_resource, InTier, InAllowlist}

-- In every mode, under every --policy file and scope, a resource request that must never be
-- forwarded is refused.
pub authorize-NeverForwarded :
    (e : Engine) (req : Request)
    → req.is_resource_request ≡ true
    → NeverForwarded req
    → (authorize e req).allow ≡ false
authorize-NeverForwarded e req r n = elim (Bool-cases (authorize e req).allow) [
  | inl ok ↦ absurd (((authorize_iff e req r).0 ok).0.forwardable n)
  | inr refuse ↦ refuse
]

-- Outside rw, an authorized resource request is a get, list or watch.
pub authorize-reads :
    (e : Engine) (req : Request)
    → req.is_resource_request ≡ true
    → e.cfg.mode ≢ mode_rw
    → (authorize e req).allow ≡ true
    → OneOf read_verbs req.verb
authorize-reads e req r m h = elim (((authorize_iff e req r).0 h).0.in_tier.1) [
  | inl w ↦ absurd (m w)
  | inr o ↦ o
]

-- In ro-nosecret, with no --policy rules or with rules that `ValidateExtension` accepts, no
-- request for secrets is authorized.
pub authorize-secrets :
    (e : Engine) (req : Request)
    → req.is_resource_request ≡ true
    → e.cfg.mode ≡ mode_ro_no_secret
    → (e.cfg.extra ≡ []) ⊎ (validate_extension e.cfg.extra ≡ none)
    → (authorize e req).allow ≡ true
    → req.resource ≢ "secrets"
unfolding matches
authorize-secrets e req r m v h s = elim (((authorize_iff e req r).0 h).0.in_allowlist) [
  | inl other ↦ other m
  | inr (inl listed) ↦ cc (ro_no_secret_allow-secrets req s)
  | inr (inr granted) ↦ elim v [
    | inl empty ↦ cc (rw empty at granted)
    | inr valid ↦ (validate_extension_sound e.cfg.extra req valid granted).not_secrets s
  ]
]

-- The same configuration in another mode.
abbrev pub in_mode : Mode → Engine → Engine
in_mode m e = record { cfg = record e.cfg { mode = m } }

-- A mode with a wider tier and allowlist authorizes more.
authorize_widens :
    (e : Engine) (req : Request) (m m' : Mode)
    → (InTier m req.verb → InTier m' req.verb)
    → (InAllowlist m e.cfg.extra req → InAllowlist m' e.cfg.extra req)
    → (authorize (in_mode m e) req).allow ≡ true
    → (authorize (in_mode m' e) req).allow ≡ true
authorize_widens e req m m' tier list h = elim (Bool-cases req.is_resource_request) [
  | inl r ↦
      let (kind, scope) = (authorize_iff (in_mode m e) req r).0 h in
      (authorize_iff (in_mode m' e) req r).1 (
        record {
          forwardable = kind.forwardable;
          in_tier = tier kind.in_tier;
          in_allowlist = list kind.in_allowlist;
        },
        scope,
      )
  | inr n ↦
      rw (authorize_non_resource (in_mode m' e) req n)
        (rw (authorize_non_resource (in_mode m e) req n) at h)
]

strict_ne_secret : ◌≢◌ {A = Mode} mode_ro_secret mode_ro_no_secret
strict_ne_secret = ground (arith, eq_iff mode_ro_secret mode_ro_no_secret)

strict_ne_rw : ◌≢◌ {A = Mode} mode_rw mode_ro_no_secret
strict_ne_rw = ground (arith, eq_iff mode_rw mode_ro_no_secret)

reads_of :
    (v : String)
    → ◌≡◌ {A = Mode} mode_ro_no_secret mode_rw ⊎ OneOf read_verbs v
    → OneOf read_verbs v
reads_of v (inl e) = absurd (strict_ne_rw (sym e))
reads_of v (inr o) = o

-- `m` comes before `m'` in `AllModes`, from the strictest to the loosest.
abbrev pub Stricter : Mode → Mode → Type 0
Stricter m m' =
    ((m ≡ mode_ro_no_secret) × (m' ≡ mode_ro_secret))
    ⊎ ((m ≡ mode_ro_no_secret) × (m' ≡ mode_rw))
    ⊎ ((m ≡ mode_ro_secret) × (m' ≡ mode_rw))

-- The modes are ordered: what a mode authorizes, each looser mode authorizes too, with the same
-- namespaces, scoper and --policy rules.
pub authorize_mono :
    (e : Engine) (req : Request) (m m' : Mode)
    → Stricter m m'
    → (authorize (in_mode m e) req).allow ≡ true
    → (authorize (in_mode m' e) req).allow ≡ true
authorize_mono e req m m' (inl (p, q)) =
    rw (p, q)
      (authorize_widens e req mode_ro_no_secret mode_ro_secret
        (λ t. (t.0, inr (reads_of req.verb t.1))) (λ a. inl strict_ne_secret))
authorize_mono e req m m' (inr (inl (p, q))) =
    rw (p, q)
      (authorize_widens e req mode_ro_no_secret mode_rw (λ t. (t.0, inl refl))
        (λ a. inl strict_ne_rw))
authorize_mono e req m m' (inr (inr (p, q))) =
    rw (p, q)
      (authorize_widens e req mode_ro_secret mode_rw (λ t. (t.0, inl refl)) (λ a. inl strict_ne_rw))
