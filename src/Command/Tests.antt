-- ===== src/Command/Tests.antt =====
-- A strict start with a policy file for one workload kind.
use kubegate.Prelude.{String, true, false, none, some, [], ◌∷◌, ◌≡◌, refl, ◌≢◌, ◌↔◌, Any}
use kubegate.Text.{split, contains, has_prefix, cut}
use kubegate.Text.Lower.{trim_white_space}
use kubegate.Policy.Types.{Request, zero_request}
use kubegate.Policy.Rule.{
  RuleSet, match_any, match_one, cut_matches, entry_matches, matches_resource, rule_matches,
  matches,
}
use kubegate.Policy.Modes.{
  has_key, parse_mode, universal_deny_decision, universal_deny_rules, interactive_rule,
  token_request_rule, csr_write_rule, csr_decide_rule, verb_gate_decision, mode_resource_decision,
  ro_no_secret_allow,
}
use kubegate.Policy.Modes.Denials.{OneOf}
use kubegate.Policy.Scope.{is_listed, namespace_decision}
use kubegate.Policy.Extension.{
  validate_extension, validate_rules, validate_rule, check_groups, check_resources, check_verbs,
  probe_resources, probe_groups, probe_verbs,
}
use kubegate.Policy.Engine.{authorize, authorize_resource_kind}
use kubegate.Policy.Extension.Load.{load_extension}
use kubegate.Command.{
  ServeConfig, parse_namespaces, Outside, valid, validate_policy, validate, engine_config,
}
use kubegate.Command.Validation.{parse_namespaces_iff}

abbrev middlewares : RuleSet
middlewares =
    record {
      api_groups = "traefik.io" ∷ [];
      resources = "middlewares" ∷ [];
      verbs = "get" ∷ "list" ∷ [];
    }
    ∷ []

abbrev outside : Outside
outside = record {
  is_host_port = λ a. true;
  policy_files = record {
    read_file = λ p. some "rules:";
    unmarshal_strict = λ raw. some (record { rules = middlewares });
  };
}

abbrev flags : ServeConfig
flags = record {
  context_name = "staging";
  mode = "ro-nosecret";
  listen = "192.168.5.2:8443";
  namespaces = "dev" ∷ [];
  policy_path = "policy.yaml";
  kubeconfig = "";
  tls_dir = "/tls";
  token_file = "/home/dev/.kubegate/token";
  rotate_token = false;
  tls_sans = [];
  audit_path = "";
  extra_rules = [];
}

abbrev checked : ServeConfig
checked = record flags { extra_rules = middlewares }

flags_valid : validate outside flags ≡ valid checked
unfolding validate validate_policy load_extension parse_mode validate_extension validate_rules
    validate_rule check_groups check_resources check_verbs probe_resources probe_groups probe_verbs
    has_key contains has_prefix cut universal_deny_rules interactive_rule token_request_rule
    csr_write_rule csr_decide_rule matches rule_matches match_any matches_resource entry_matches
    cut_matches match_one
flags_valid = refl

abbrev staging : String
staging = "staging"

parse_namespaces_iff_example :
    OneOf (parse_namespaces "dev, staging") "staging"
    ↔ (Any (λ part. trim_white_space part ≡ "staging") (split b',' "dev, staging") × (staging ≢ ""))
parse_namespaces_iff_example = parse_namespaces_iff "dev, staging" staging

abbrev get_middleware : Request
get_middleware = record zero_request {
  is_resource_request = true;
  verb = "get";
  api_group = "traefik.io";
  resource = "middlewares";
  namespace = "dev";
}

get_middleware_allowed :
    (authorize (record { cfg = engine_config checked none }) get_middleware).allow ≡ true
unfolding authorize authorize_resource_kind universal_deny_decision universal_deny_rules
    interactive_rule token_request_rule csr_write_rule csr_decide_rule matches rule_matches
    match_any matches_resource entry_matches cut cut_matches match_one verb_gate_decision has_key
    mode_resource_decision ro_no_secret_allow namespace_decision is_listed
get_middleware_allowed = refl
