-- ===== src/Policy/Tests.antt =====
-- Concrete runs of the policy: an engine of each mode, a few requests and an extension.
use kubegate.Prelude.{
  ◌≡◌, refl, ◌≢◌, ◌↔◌, ◌⊎◌, inl, inr, arith, true, false, none, some, [], ◌∷◌, eq_iff, Any,
}
use kubegate.Text.{contains, has_prefix, cut}
use kubegate.Policy.Types.{Request, zero_request, mode_ro_no_secret, mode_rw}
use kubegate.Policy.Rule.{
  RuleSet, match_any, match_one, cut_matches, entry_matches, matches_resource, rule_matches,
  matches,
}
use kubegate.Policy.Rule.Semantics.{RuleCovers, matches_iff}
use kubegate.Policy.Modes.{
  has_key, parse_mode, universal_deny_decision, universal_deny_rules, interactive_rule,
  token_request_rule, csr_write_rule, csr_decide_rule, verb_gate_decision, mode_resource_decision,
  ro_no_secret_allow,
}
use kubegate.Policy.Modes.Denials.{OneOf, NeverForwarded, universal_deny_decision_iff}
use kubegate.Policy.NonResource.{non_resource_decision, non_resource_allow_exact}
use kubegate.Policy.NonResource.Paths.{IsGroupPath, IsOpenapiPath, non_resource_decision_iff}
use kubegate.Policy.Scope.{ResourceScoper, static_scoper, is_listed, namespace_decision}
use kubegate.Policy.Extension.{
  validate_extension, validate_rules, validate_rule, check_groups, check_resources, check_verbs,
  probe_resources, probe_groups, probe_verbs,
}
use kubegate.Policy.Extension.Grants.{IsWorkloadRead, validate_extension_sound}
use kubegate.Policy.Engine.{
  Config, Engine, policy_needs_strict_mode, refused, new_engine, authorize, authorize_resource_kind,
}
use kubegate.Policy.Engine.Stages.{PermitsKind, InScope, authorize_iff}
use kubegate.Policy.Engine.Ceiling.{
  authorize-NeverForwarded, authorize-secrets, in_mode, authorize_mono,
}

abbrev dev_scoper : ResourceScoper
dev_scoper = static_scoper (("/v1/pods", true) ∷ ("/v1/nodes", false) ∷ [])

abbrev strict_config : Config
strict_config = record {
  mode = "ro-nosecret";
  namespaces = "dev" ∷ [];
  extra = [];
  scoper = some dev_scoper;
}

abbrev strict : Engine
strict = record { cfg = strict_config }

abbrev list_pods : Request
list_pods = record zero_request {
  is_resource_request = true;
  verb = "list";
  api_version = "v1";
  resource = "pods";
  namespace = "dev";
}

abbrev exec_pod : Request
exec_pod = record list_pods { verb = "create"; subresource = "exec" }

list_pods_allowed : (authorize strict list_pods).allow ≡ true
unfolding authorize authorize_resource_kind universal_deny_decision universal_deny_rules
    interactive_rule token_request_rule csr_write_rule csr_decide_rule matches rule_matches
    match_any matches_resource entry_matches cut cut_matches match_one verb_gate_decision has_key
    mode_resource_decision ro_no_secret_allow namespace_decision is_listed
list_pods_allowed = refl

authorize_iff_example :
    ((authorize strict list_pods).allow ≡ true)
    ↔ (PermitsKind strict list_pods × InScope ("dev" ∷ []) (some dev_scoper) list_pods)
authorize_iff_example = authorize_iff strict list_pods refl

exec_pod-NeverForwarded : NeverForwarded exec_pod
exec_pod-NeverForwarded = ground arith

authorize-NeverForwarded_example : (authorize strict exec_pod).allow ≡ false
authorize-NeverForwarded_example =
    authorize-NeverForwarded strict exec_pod refl exec_pod-NeverForwarded

strict_is_not_rw : mode_ro_no_secret ≢ mode_rw
strict_is_not_rw = ground (arith, eq_iff mode_ro_no_secret mode_rw)

authorize-secrets_example : list_pods.resource ≢ "secrets"
authorize-secrets_example =
    authorize-secrets strict list_pods refl refl (inl refl) list_pods_allowed

authorize_mono_example : (authorize (in_mode mode_rw strict) list_pods).allow ≡ true
authorize_mono_example =
    authorize_mono strict list_pods mode_ro_no_secret mode_rw (inr (inl (refl, refl)))
      list_pods_allowed

matches_iff_example :
    (matches ro_no_secret_allow list_pods ≡ true) ↔ Any (RuleCovers list_pods) ro_no_secret_allow
matches_iff_example = matches_iff ro_no_secret_allow list_pods

universal_deny_decision_iff_example :
    ((universal_deny_decision exec_pod).allow ≡ false) ↔ NeverForwarded exec_pod
universal_deny_decision_iff_example = universal_deny_decision_iff exec_pod

non_resource_decision_iff_example : ((non_resource_decision "/apis/apps/v1").allow ≡ true) ↔ (
    OneOf non_resource_allow_exact "/apis/apps/v1"
    ⊎ IsGroupPath "/apis/apps/v1"
    ⊎ IsOpenapiPath "/apis/apps/v1")
non_resource_decision_iff_example = non_resource_decision_iff "/apis/apps/v1"

-- A policy file that grants reads of one workload kind.
abbrev middlewares : RuleSet
middlewares =
    record {
      api_groups = "traefik.io" ∷ [];
      resources = "middlewares" ∷ [];
      verbs = "get" ∷ "list" ∷ [];
    }
    ∷ []

abbrev get_middleware : Request
get_middleware = record zero_request {
  is_resource_request = true;
  verb = "get";
  api_group = "traefik.io";
  resource = "middlewares";
}

middlewares_valid : validate_extension middlewares ≡ none
unfolding validate_extension validate_rules validate_rule check_groups check_resources check_verbs
    probe_resources probe_groups probe_verbs has_key contains has_prefix cut universal_deny_rules
    interactive_rule token_request_rule csr_write_rule csr_decide_rule matches rule_matches
    match_any matches_resource entry_matches cut_matches match_one
middlewares_valid = refl

middlewares_match : matches middlewares get_middleware ≡ true
unfolding matches rule_matches match_any matches_resource entry_matches cut cut_matches match_one
middlewares_match = refl

validate_extension_sound_example : IsWorkloadRead get_middleware
validate_extension_sound_example =
    validate_extension_sound middlewares get_middleware middlewares_valid middlewares_match

-- A policy file with a mode that does not take one.
abbrev misplaced : Config
misplaced = record strict_config { mode = "rw"; extra = middlewares }

misplaced_refused : new_engine misplaced ≡ refused (policy_needs_strict_mode "rw")
unfolding new_engine parse_mode
misplaced_refused = refl
