-- ===== src/Discovery/Tests.antt =====
-- Concrete discovery documents, filtered by an engine of the strict mode.
use kubegate.Prelude.{◌≡◌, refl, String, true, none, []}
use kubegate.Text.{cut}
use kubegate.Json.{
  Json, text, array, object, nil, cons, Fields, end, field, lookup, put, str, as_array,
}
use kubegate.Policy.Rule.{
  match_any, match_one, cut_matches, entry_matches, matches_resource, rule_matches, matches,
}
use kubegate.Policy.Modes.{
  has_key, universal_deny_decision, universal_deny_rules, interactive_rule, token_request_rule,
  csr_write_rule, csr_decide_rule, verb_gate_decision, mode_resource_decision, ro_no_secret_allow,
}
use kubegate.Policy.Engine.{
  Engine, authorize_resource_kind, permits_group, names_group, any_names_group,
}
use kubegate.Discovery.Documents.{kept, split_group_version}
use kubegate.Discovery.Flat.{
  keeps_resource, keeps_group, keep_if, filter_resource_list, filter_group_list,
}
use kubegate.Discovery.Flat.Served.{ServedResource, ServedGroup}
use kubegate.Discovery.Flat.Agrees.{
  ExactlyThose, filter_resource_list_exact, filter_group_list_exact,
}
use kubegate.Discovery.Aggregated.{
  sift_subresources, filter_aggregated_subresources, sift_resources, filter_aggregated_resources,
  filter_version_items, filter_aggregated_versions, filter_group_items,
  filter_aggregated_discovery_list,
}
use kubegate.Discovery.Aggregated.Subresources.{EachOf, GroupsServed}
use kubegate.Discovery.Aggregated.Served.{filter_aggregated_discovery_list_served}
use kubegate.Prelude.{◌==◌, ◌∷◌, [], List, some, if◌then◌else◌}
use kubegate.Text.{contains, has_prefix}
use kubegate.Policy.Scope.{StaticScoper, scoper_key, scoper_lookup}
use kubegate.Discovery.Scoper.{
  ResourceEntry, Cluster, assign, collect_entries, collect, collect_versions, collect_groups, built,
  build_scoper,
}

abbrev strict : Engine
strict = record {
  cfg = record { mode = "ro-nosecret"; namespaces = []; extra = []; scoper = none };
}

abbrev named : String → String → Json
named key name = object (field key (text name) end)

abbrev resource_list : Json → Fields
resource_list resources = field "groupVersion" (text "v1") (field "resources" resources end)

abbrev pods_and_secrets : Json
pods_and_secrets = array (cons (named "name" "pods") (cons (named "name" "secrets") nil))

secrets_dropped :
    filter_resource_list strict (resource_list pods_and_secrets)
    ≡ kept (resource_list (array (cons (named "name" "pods") nil))) true
unfolding filter_resource_list split_group_version keep_if keeps_resource lookup put
    authorize_resource_kind cut universal_deny_decision universal_deny_rules interactive_rule
    token_request_rule csr_write_rule csr_decide_rule matches rule_matches match_any
    matches_resource entry_matches cut_matches match_one verb_gate_decision has_key
    mode_resource_decision ro_no_secret_allow
secrets_dropped = refl

filter_resource_list_exact_example :
    ExactlyThose
      (ServedResource strict (str (lookup "groupVersion" (resource_list pods_and_secrets))))
      (lookup "resources" (resource_list pods_and_secrets))
      (lookup "resources" (resource_list (array (cons (named "name" "pods") nil))))
filter_resource_list_exact_example =
    filter_resource_list_exact strict (resource_list pods_and_secrets)
      (resource_list (array (cons (named "name" "pods") nil))) true secrets_dropped

abbrev group_list : Json → Fields
group_list groups = field "groups" groups end

abbrev apps_and_rbac : Json
apps_and_rbac =
    array (cons (named "name" "apps") (cons (named "name" "rbac.authorization.k8s.io") nil))

rbac_dropped :
    filter_group_list strict (group_list apps_and_rbac)
    ≡ kept (group_list (array (cons (named "name" "apps") nil))) true
unfolding filter_group_list keep_if keeps_group lookup put permits_group any_names_group names_group
    ro_no_secret_allow
rbac_dropped = refl

filter_group_list_exact_example :
    ExactlyThose
      (ServedGroup strict)
      (lookup "groups" (group_list apps_and_rbac))
      (lookup "groups" (group_list (array (cons (named "name" "apps") nil))))
filter_group_list_exact_example =
    filter_group_list_exact strict (group_list apps_and_rbac)
      (group_list (array (cons (named "name" "apps") nil))) true rbac_dropped

-- The core group with pods, whose subresources are given, and other resources.
abbrev document : Json → Fields
document resources =
    field "items"
      (array (
        cons
          (object (
            field "versions"
              (array
                (cons (object (field "version" (text "v1") (field "resources" resources end))) nil))
              end))
          nil))
      end

abbrev pods_with : Json → Json
pods_with subs = object (field "resource" (text "pods") (field "subresources" subs end))

abbrev advertised : Fields
advertised = document (
    array (
      cons
        (pods_with
          (array (cons (named "subresource" "log") (cons (named "subresource" "exec") nil))))
        (cons (named "resource" "secrets") nil)))

abbrev left : Fields
left = document (array (cons (pods_with (array (cons (named "subresource" "log") nil))) nil))

exec_and_secrets_dropped : filter_aggregated_discovery_list strict advertised ≡ kept left true
unfolding filter_aggregated_discovery_list filter_group_items filter_aggregated_versions
    filter_version_items filter_aggregated_resources sift_resources filter_aggregated_subresources
    sift_subresources permits_group any_names_group names_group lookup put authorize_resource_kind
    cut universal_deny_decision universal_deny_rules interactive_rule token_request_rule
    csr_write_rule csr_decide_rule matches rule_matches match_any matches_resource entry_matches
    cut_matches match_one verb_gate_decision has_key mode_resource_decision ro_no_secret_allow
exec_and_secrets_dropped = refl

filter_aggregated_discovery_list_served_example :
    EachOf (GroupsServed strict) (as_array (lookup "items" left))
filter_aggregated_discovery_list_served_example =
    filter_aggregated_discovery_list_served strict advertised left true exec_and_secrets_dropped

abbrev core_resources : List ResourceEntry
core_resources =
    record { name = "pods"; namespaced = some true }
    ∷ record { name = "nodes"; namespaced = none }
    ∷ record { name = "pods/log"; namespaced = some true }
    ∷ []

-- A cluster with two core resources, one of which leaves its scope out, and a group that is down.
abbrev cluster : Cluster
cluster = record {
  resource_list = λ path. if path == "/api/v1" then some core_resources else none;
  group_list = some (
      record {
        name = "metrics.k8s.io";
        versions = record { group_version = "metrics.k8s.io/v1beta1"; version = "v1beta1" } ∷ [];
      }
      ∷ []);
}

abbrev core_map : StaticScoper
core_map = ("/v1/pods", true) ∷ []

core_known : build_scoper cluster ≡ built core_map
unfolding build_scoper collect collect_entries collect_groups collect_versions assign scoper_key
    contains has_prefix
core_known = refl

pods_known : scoper_lookup core_map "/v1/pods" ≡ record { namespaced = true; known = true }
unfolding scoper_lookup
pods_known = refl
