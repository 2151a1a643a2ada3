-- ===== src/Policy/Engine/Stages.antt =====
-- The stages of `Authorize`, each as an equivalence, and their conjunction.
use kubegate.Prelude.{
  ◌≡◌, refl, ◌≢◌, ◌↔◌, ◌⊎◌, inl, String, true, false, Option, none, some, List, [], ◌∷◌, arith,
  eq_iff,
}
use kubegate.Policy.Types.{Request, Mode, mode_ro_no_secret, mode_rw}
use kubegate.Policy.Rule.{RuleSet, matches}
use kubegate.Policy.Modes.{
  known_verbs, read_verbs, ro_no_secret_allow, verb_gate_decision, mode_resource_decision,
}
use kubegate.Policy.Modes.Denials.{OneOf, has_key_iff, NeverForwarded, universal_deny_decision_iff}
use kubegate.Policy.Scope.{ResourceScoper, is_listed, namespace_decision}
use kubegate.Policy.NonResource.{non_resource_decision}
use kubegate.Policy.Engine.{Engine, authorize, authorize_resource_kind}

-- The verb is one that the mode forwards.
abbrev pub InTier : Mode → String → Type 0
InTier m verb = OneOf known_verbs verb × ((m ≡ mode_rw) ⊎ OneOf read_verbs verb)

pub verb_gate_decision_iff :
    (m : Mode) (req : Request) → ((verb_gate_decision m req).allow ≡ true) ↔ InTier m req.verb
unfolding verb_gate_decision
verb_gate_decision_iff m req =
    ground
      (arith, has_key_iff known_verbs req.verb, has_key_iff read_verbs req.verb, eq_iff m mode_rw)

-- The strict mode's allowlist or a rule of the --policy file covers the request; the other modes
-- ask for nothing.
abbrev pub InAllowlist : Mode → RuleSet → Request → Type 0
InAllowlist m extra req =
    (m ≢ mode_ro_no_secret) ⊎ (matches ro_no_secret_allow req ≡ true) ⊎ (matches extra req ≡ true)

pub mode_resource_decision_iff :
    (m : Mode) (extra : RuleSet) (req : Request)
    → ((mode_resource_decision m extra req).allow ≡ true) ↔ InAllowlist m extra req
unfolding mode_resource_decision
mode_resource_decision_iff m extra req = ground (arith, eq_iff m mode_ro_no_secret)

pub is_listed_iff :
    (list : List String) (want : String) → (is_listed list want ≡ true) ↔ OneOf list want
unfolding is_listed
is_listed_iff [] want = (λ h. cc, λ h. absurd h)
is_listed_iff (ns ∷ rest) want = ground (arith, eq_iff ns want, is_listed_iff rest want)

-- The scoper knows the resource, as one that is not namespaced.
abbrev pub KnownClusterScoped : Option ResourceScoper → Request → Type 0
KnownClusterScoped none req = ⊥
KnownClusterScoped (some s) req =
    let a = s.is_namespaced req.api_group req.api_version req.resource in
    (a.known ≡ true) × (a.namespaced ≡ false)

abbrev pub InScope : List String → Option ResourceScoper → Request → Type 0
InScope namespaces scoper req =
    (namespaces ≡ [])
    ⊎ ((req.namespace ≢ "") × OneOf namespaces req.namespace)
    ⊎ ((req.namespace ≡ "") × KnownClusterScoped scoper req)

pub namespace_decision_iff :
    (namespaces : List String) (scoper : Option ResourceScoper) (req : Request)
    → ((namespace_decision namespaces scoper req).allow ≡ true) ↔ InScope namespaces scoper req
unfolding namespace_decision
namespace_decision_iff [] scoper req = (λ _. inl refl, λ _. refl)
namespace_decision_iff (ns ∷ rest) none req =
    ground (arith, eq_iff req.namespace "", is_listed_iff (ns ∷ rest) req.namespace)
namespace_decision_iff (ns ∷ rest) (some s) req =
    ground (arith, eq_iff req.namespace "", is_listed_iff (ns ∷ rest) req.namespace)

-- What `Authorize` permits of a resource request before it looks at the namespace.
pub record PermitsKind (e : Engine) (req : Request) : Type 0 where
  pub forwardable : ¬ NeverForwarded req
  pub in_tier : InTier e.cfg.mode req.verb
  pub in_allowlist : InAllowlist e.cfg.mode e.cfg.extra req

pub authorize_resource_kind_iff :
    (e : Engine) (req : Request)
    → req.is_resource_request ≡ true
    → ((authorize_resource_kind e req).allow ≡ true) ↔ PermitsKind e req
unfolding authorize_resource_kind
authorize_resource_kind_iff e req r = ground (
  arith,
  universal_deny_decision_iff req,
  verb_gate_decision_iff e.cfg.mode req,
  mode_resource_decision_iff e.cfg.mode e.cfg.extra req,
)

-- A resource request is authorized exactly when it is of no kind that is never forwarded, its
-- verb belongs to the mode's tier, the strict mode's allowlist or its --policy rules cover it (the
-- other modes ask for neither), and it lies in the scope of the namespaces: none are set, or the
-- request names one of them, or it names none and the scoper knows the resource as one that has
-- no namespace.
pub authorize_iff :
    (e : Engine) (req : Request)
    → req.is_resource_request ≡ true
    → ((authorize e req).allow ≡ true)
      ↔ (PermitsKind e req × InScope e.cfg.namespaces e.cfg.scoper req)
unfolding authorize
authorize_iff e req r = ground (
  arith,
  authorize_resource_kind_iff e req r,
  namespace_decision_iff e.cfg.namespaces e.cfg.scoper req,
)

-- A request for no resource is decided by its path alone, whatever the engine.
pub authorize_non_resource :
    (e : Engine) (req : Request)
    → req.is_resource_request ≡ false
    → authorize e req ≡ non_resource_decision req.path
unfolding authorize authorize_resource_kind
authorize_non_resource e req r = ground (arith, r)
