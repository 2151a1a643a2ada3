-- ===== src/Discovery/Scoper.antt =====
-- internal/discovery/scoper.go: the map from resources to whether they are namespaced.
pub mod Known
use kubegate.Prelude.{String, Bool, Option, none, some, List, [], ◌∷◌, ◌==◌, if◌then◌else◌}
use Prim.Native.String.{◌++◌ as str_append}
use kubegate.Text.{contains}
use kubegate.Policy.Scope.{StaticScoper, scoper_key}

-- An entry of a resource list as it is decoded: `none` is a `namespaced` field that is missing.
pub record ResourceEntry : Type 0 where
  pub name : String
  pub namespaced : Option Bool

pub record VersionEntry : Type 0 where
  pub group_version : String
  pub version : String

pub record GroupEntry : Type 0 where
  pub name : String
  pub versions : List VersionEntry

-- The cluster's discovery documents, fetched and decoded: `none` where `getJSON` fails, for a
-- resource list at a path and for the list of groups at /apis.
pub record Cluster : Type 0 where
  pub resource_list : String → Option (List ResourceEntry)
  pub group_list : Option (List GroupEntry)

-- `out[key] = value`
unfoldable pub assign : String → Bool → StaticScoper → StaticScoper
assign k v [] = (k, v) ∷ []
assign k v ((j, w) ∷ s) = if j == k then (k, v) ∷ s else (j, w) ∷ assign k v s

abbrev pub record_known : String → Option Bool → StaticScoper → StaticScoper
record_known key none out = out
record_known key (some ns) out = assign key ns out

-- The loop of `collect` over the decoded entries.
unfoldable pub collect_entries : String → String → List ResourceEntry → StaticScoper → StaticScoper
collect_entries group version [] out = out
collect_entries group version (r ∷ rs) out = collect_entries group version rs (
    if contains r.name "/"
    then out
    else record_known (scoper_key group version r.name) r.namespaced out)

-- `collect`: `none` is its error, which leaves the map as it was.
unfoldable pub collect : Cluster → String → String → String → StaticScoper → Option StaticScoper
collect c path group version out = elim (c.resource_list path) [
  | none ↦ none
  | some rs ↦ some (collect_entries group version rs out)
]

abbrev pub or_skip : Option StaticScoper → StaticScoper → StaticScoper
or_skip none out = out
or_skip (some out') out = out'

-- The inner loop of `BuildScoper`: a version that cannot be fetched is passed over.
unfoldable pub collect_versions : Cluster → String → List VersionEntry → StaticScoper → StaticScoper
collect_versions c group [] out = out
collect_versions c group (v ∷ vs) out =
    collect_versions c group vs
      (or_skip (collect c (str_append "/apis/" v.group_version) group v.version out) out)

unfoldable pub collect_groups : Cluster → List GroupEntry → StaticScoper → StaticScoper
collect_groups c [] out = out
collect_groups c (g ∷ gs) out = collect_groups c gs (collect_versions c g.name g.versions out)

pub data ScoperError : Type 0 where
  fetch_failed no_resources : ScoperError

pub data BuildResult : Type 0 where
  built : StaticScoper → BuildResult
  failed : ScoperError → BuildResult

abbrev pub finish : StaticScoper → BuildResult
finish [] = failed no_resources
finish (x ∷ xs) = built (x ∷ xs)

abbrev pub with_groups : Cluster → StaticScoper → Option (List GroupEntry) → BuildResult
with_groups c out none = failed fetch_failed
with_groups c out (some gs) = finish (collect_groups c gs out)

abbrev pub with_core : Cluster → Option StaticScoper → BuildResult
with_core c none = failed fetch_failed
with_core c (some out) = with_groups c out c.group_list

unfoldable pub build_scoper : Cluster → BuildResult
build_scoper c = with_core c (collect c "/api/v1" "" "v1" [])
