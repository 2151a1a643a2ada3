-- ===== src/Policy/Engine.antt =====
-- internal/policy/engine.go: the engine over a fixed configuration.
pub mod Stages
pub mod Ceiling
pub mod Construction
use kubegate.Prelude.{
  String, Bool, true, false, ◌&&◌, ◌||◌, not, Option, none, some, List, [], ◌∷◌, ◌++◌, ◌==◌,
  if◌then◌else◌,
}
use kubegate.Policy.Types.{Request, Decision, Mode, mode_ro_no_secret}
use kubegate.Policy.Rule.{Rule, RuleSet}
use kubegate.Policy.Modes.{
  parse_mode, universal_deny_decision, verb_gate_decision, ro_no_secret_allow,
  mode_resource_decision,
}
use kubegate.Policy.Scope.{ResourceScoper, namespace_decision}
use kubegate.Policy.NonResource.{non_resource_decision}

pub record Config : Type 0 where
  pub mode : Mode
  pub namespaces : List String
  pub extra : RuleSet
  pub scoper : Option ResourceScoper

pub record Engine : Type 0 where
  pub cfg : Config

pub data EngineError : Type 0 where
  unknown_mode : Mode → EngineError
  policy_needs_strict_mode : Mode → EngineError

pub data NewEngine : Type 0 where
  engine : Engine → NewEngine
  refused : EngineError → NewEngine

abbrev pub is_empty {ℓ} : {A : Type ℓ} → List A → Bool
is_empty [] = true
is_empty (x ∷ xs) = false

unfoldable pub new_engine : Config → NewEngine
new_engine cfg = elim (parse_mode cfg.mode) [
  | none ↦ refused (unknown_mode cfg.mode)
  | some m ↦
      if not (is_empty cfg.extra) && not (cfg.mode == mode_ro_no_secret)
      then refused (policy_needs_strict_mode cfg.mode)
      else engine (record { cfg = cfg })
]

-- `Engine.Mode`
abbrev pub mode_of : Engine → Mode
mode_of e = e.cfg.mode

unfoldable pub redaction_enabled : Engine → Bool
redaction_enabled e = e.cfg.mode == mode_ro_no_secret

-- The chain of `if d := ...; !d.Allow { return d }`.
infixr 20 ◌and_then◌
abbrev pub ◌and_then◌ : Decision → Decision → Decision
d and_then next = if not d.allow then d else next

unfoldable pub authorize_resource_kind : Engine → Request → Decision
authorize_resource_kind e req =
    if not req.is_resource_request
    then non_resource_decision req.path
    else universal_deny_decision req
      and_then verb_gate_decision e.cfg.mode req
      and_then mode_resource_decision e.cfg.mode e.cfg.extra req

unfoldable pub authorize : Engine → Request → Decision
authorize e req =
    let d = authorize_resource_kind e req in
    if not d.allow || not req.is_resource_request
    then d
    else namespace_decision e.cfg.namespaces e.cfg.scoper req

-- The loop over a rule's groups.
unfoldable pub names_group : List String → String → Bool
names_group [] group = false
names_group (g ∷ gs) group = if g == "*" || g == group then true else names_group gs group

unfoldable pub any_names_group : RuleSet → String → Bool
any_names_group [] group = false
any_names_group (r ∷ rs) group =
    if names_group r.api_groups group then true else any_names_group rs group

unfoldable pub permits_group : Engine → String → Bool
unfolding names_group any_names_group
permits_group e group =
    if not (e.cfg.mode == mode_ro_no_secret)
    then true
    else if any_names_group ro_no_secret_allow group
    then true
    else any_names_group e.cfg.extra group
