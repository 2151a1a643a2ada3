-- ===== src/Policy/Scope.antt =====
-- internal/policy/scope.go: the --namespace allowlist.
use Prim.Native.String.{◌++◌ as str_append}
use kubegate.Prelude.{
  String, Bool, true, false, not, Option, none, some, List, [], ◌∷◌, ◌==◌, if◌then◌else◌,
}
use kubegate.Policy.Types.{
  Request, Decision, allowed, denied, outside_scope, scope_undetermined, not_in_discovery,
  cluster_wide,
}
use kubegate.Policy.Modes.{resource_desc}

-- What `IsNamespaced` answers.
pub record ScopeAnswer : Type 0 where
  pub namespaced : Bool
  pub known : Bool

-- `ResourceScoper`, an interface with one method: group, version, resource.
pub record ResourceScoper : Type 0 where
  pub is_namespaced : String → String → String → ScopeAnswer

-- A map from keys to whether the resource is namespaced. The first entry of a key counts.
abbrev pub StaticScoper : Type 0
StaticScoper = List (String × Bool)

unfoldable pub scoper_key : String → String → String → String
scoper_key group version resource =
    str_append group (str_append "/" (str_append version (str_append "/" resource)))

unfoldable pub scoper_lookup : StaticScoper → String → ScopeAnswer
scoper_lookup [] k = record { namespaced = false; known = false }
scoper_lookup ((j, ns) ∷ s) k =
    if j == k then record { namespaced = ns; known = true } else scoper_lookup s k

-- `StaticScoper.IsNamespaced`, which makes a map a scoper.
unfoldable pub static_scoper : StaticScoper → ResourceScoper
unfolding scoper_lookup scoper_key
static_scoper s = record {
  is_namespaced = λ group version resource. scoper_lookup s (scoper_key group version resource);
}

-- The loop over the allowed namespaces.
unfoldable pub is_listed : List String → String → Bool
is_listed [] want = false
is_listed (ns ∷ rest) want = if ns == want then true else is_listed rest want

-- What is decided of an empty namespace once the scoper has answered.
unfoldable pub answer_decision : List String → ScopeAnswer → Request → Decision
answer_decision allow a req =
    if not a.known
    then denied (not_in_discovery (resource_desc req))
    else if not a.namespaced
    then allowed
    else denied (cluster_wide (resource_desc req) allow)

-- A nil scoper is `none`.
unfoldable pub ambiguous_decision : List String → Option ResourceScoper → Request → Decision
unfolding answer_decision
ambiguous_decision allow none req = denied (scope_undetermined (resource_desc req))
ambiguous_decision allow (some s) req =
    answer_decision allow (s.is_namespaced req.api_group req.api_version req.resource) req

unfoldable pub namespace_decision : List String → Option ResourceScoper → Request → Decision
unfolding ambiguous_decision
namespace_decision [] scoper req = allowed
namespace_decision (ns ∷ rest) scoper req =
    if not (req.namespace == "")
    then if is_listed (ns ∷ rest) req.namespace
      then allowed
      else denied (outside_scope req.namespace (ns ∷ rest))
    else ambiguous_decision (ns ∷ rest) scoper req
