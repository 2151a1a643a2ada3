-- ===== src/Policy/Modes.antt =====
-- internal/policy/modes.go: the modes, the checks that hold in every mode, the verb tiers and the
-- allowlist of the strict mode.
pub mod Denials
pub mod Allowlist
use Prim.Native.String.{◌++◌ as str_append}
use kubegate.Prelude.{
  String, Bool, true, false, ◌&&◌, ◌||◌, not, Option, none, some, List, [], ◌∷◌, ◌++◌, map, ◌==◌,
  if◌then◌else◌,
}
use kubegate.Policy.Types.{
  Request, Decision, Mode, mode_ro_no_secret, mode_ro_secret, mode_rw, allowed, denied,
  legacy_proxy, no_verb, no_resource_type, never_forwarded, verb_not_forwarded, verb_requires_mode,
  not_in_allowlist,
}
use kubegate.Policy.Rule.{Rule, RuleSet, matches}

-- `none` is the error "unknown mode".
unfoldable pub parse_mode : String → Option Mode
parse_mode s =
    if s == mode_ro_no_secret
    then some mode_ro_no_secret
    else if s == mode_ro_secret
    then some mode_ro_secret
    else if s == mode_rw
    then some mode_rw
    else none

-- A lookup in a `map[string]bool` whose values are all true, given as the list of its keys.
unfoldable pub has_key : List String → String → Bool
has_key [] k = false
has_key (j ∷ keys) k = j == k || has_key keys k

abbrev pub known_verbs : List String
known_verbs =
    "get" ∷ "list" ∷ "watch" ∷ "create" ∷ "update" ∷ "patch" ∷ "delete" ∷ "deletecollection" ∷ []

abbrev pub read_verbs : List String
read_verbs = "get" ∷ "list" ∷ "watch" ∷ []

-- Interactive sessions and the proxy subresources, of every resource and group.
unfoldable pub interactive_rule : Rule
interactive_rule = record {
  api_groups = "*" ∷ [];
  resources = "*/exec" ∷ "*/attach" ∷ "*/portforward" ∷ "*/proxy" ∷ [];
  verbs = "*" ∷ [];
}

-- TokenRequest mints a cluster credential.
unfoldable pub token_request_rule : Rule
token_request_rule = record {
  api_groups = "" ∷ [];
  resources = "serviceaccounts/token" ∷ [];
  verbs = "*" ∷ [];
}

-- Writes of a certificate signing request mint a client certificate.
unfoldable pub csr_write_rule : Rule
csr_write_rule = record {
  api_groups = "certificates.k8s.io" ∷ [];
  resources = "certificatesigningrequests" ∷ [];
  verbs = "create" ∷ "update" ∷ "patch" ∷ "delete" ∷ "deletecollection" ∷ [];
}

unfoldable pub csr_decide_rule : Rule
csr_decide_rule = record {
  api_groups = "certificates.k8s.io" ∷ [];
  resources = "certificatesigningrequests/approval" ∷ "certificatesigningrequests/status" ∷ [];
  verbs = "*" ∷ [];
}

unfoldable pub universal_deny_rules : RuleSet
universal_deny_rules = interactive_rule ∷ token_request_rule ∷ csr_write_rule ∷ csr_decide_rule ∷ []

-- `resourceDesc`: the name of the resource in a message.
unfoldable pub resource_desc : Request → String
resource_desc req =
    let name =
      if req.subresource == ""
      then req.resource
      else str_append req.resource (str_append "/" req.subresource) in
    if req.api_group == "" then name else str_append name (str_append "." req.api_group)

unfoldable pub universal_deny_decision : Request → Decision
universal_deny_decision req =
    if req.verb == "proxy"
    then denied legacy_proxy
    else if req.verb == ""
    then denied no_verb
    else if req.is_resource_request && req.resource == ""
    then denied no_resource_type
    else if matches universal_deny_rules req
    then denied (never_forwarded (resource_desc req))
    else allowed

unfoldable pub verb_gate_decision : Mode → Request → Decision
verb_gate_decision m req =
    if not (has_key known_verbs req.verb)
    then denied (verb_not_forwarded req.verb)
    else if m == mode_rw
    then allowed
    else if not (has_key read_verbs req.verb)
    then denied (verb_requires_mode req.verb mode_rw)
    else allowed

-- A rule of the allowlist: one group, resources, and the three read verbs.
abbrev readable : String → List String → Rule
readable group resources = record {
  api_groups = group ∷ [];
  resources = resources;
  verbs = "get" ∷ "list" ∷ "watch" ∷ [];
}

unfoldable pub ro_no_secret_allow : RuleSet
ro_no_secret_allow =
    readable "" (
      "pods" ∷ "pods/status" ∷ "pods/log" ∷ "services" ∷ "endpoints" ∷ "configmaps" ∷ "namespaces"
      ∷ "nodes" ∷ "nodes/status" ∷ "events" ∷ "persistentvolumes" ∷ "persistentvolumeclaims"
      ∷ "replicationcontrollers" ∷ "serviceaccounts" ∷ "limitranges" ∷ "resourcequotas" ∷ [])
    ∷ readable "apps" (
        "deployments" ∷ "deployments/status" ∷ "replicasets" ∷ "statefulsets" ∷ "daemonsets"
        ∷ "controllerrevisions" ∷ [])
    ∷ readable "batch" ("jobs" ∷ "cronjobs" ∷ [])
    ∷ readable "networking.k8s.io" ("ingresses" ∷ "ingressclasses" ∷ "networkpolicies" ∷ [])
    ∷ readable "discovery.k8s.io" ("endpointslices" ∷ [])
    ∷ readable "events.k8s.io" ("events" ∷ [])
    ∷ readable "autoscaling" ("horizontalpodautoscalers" ∷ [])
    ∷ readable "policy" ("poddisruptionbudgets" ∷ [])
    ∷ readable "storage.k8s.io"
        ("storageclasses" ∷ "csidrivers" ∷ "csinodes" ∷ "volumeattachments" ∷ [])
    ∷ readable "scheduling.k8s.io" ("priorityclasses" ∷ [])
    ∷ readable "node.k8s.io" ("runtimeclasses" ∷ [])
    ∷ readable "coordination.k8s.io" ("leases" ∷ [])
    ∷ readable "metrics.k8s.io" ("pods" ∷ "nodes" ∷ [])
    ∷ readable "apiextensions.k8s.io" ("customresourcedefinitions" ∷ [])
    ∷ []

unfoldable pub mode_resource_decision : Mode → RuleSet → Request → Decision
mode_resource_decision m extra req =
    if not (m == mode_ro_no_secret)
    then allowed
    else if matches ro_no_secret_allow req || matches extra req
    then allowed
    else denied (not_in_allowlist (resource_desc req) mode_ro_no_secret)

-- The keys of one group's resources.
keys_of_group : List String → String → List String
keys_of_group resources group = map (λ res. str_append group (str_append "/" res)) resources

keys_of_groups : List String → List String → List String
unfolding keys_of_group
keys_of_groups resources [] = []
keys_of_groups resources (g ∷ gs) = keys_of_group resources g ++ keys_of_groups resources gs

-- The three nested loops of `RONoSecretResourceKeys`, over any rules.
keys_of_rules : RuleSet → List String
unfolding keys_of_groups
keys_of_rules [] = []
keys_of_rules (r ∷ rs) = keys_of_groups r.resources r.api_groups ++ keys_of_rules rs

unfoldable pub ro_no_secret_resource_keys : List String
unfolding keys_of_rules
ro_no_secret_resource_keys = keys_of_rules ro_no_secret_allow
