-- ===== src/Policy/NonResource.antt =====
-- internal/policy/nonresource.go: the allowlist of paths that name no resource.
pub mod Paths
use kubegate.Prelude.{
  String, Bool, true, false, ◌&&◌, not, Option, none, some, List, [], ◌∷◌, ◌==◌, length, leb,
  if◌then◌else◌,
}
use kubegate.Text.{cut_prefix, has_prefix, contains, split}
use kubegate.Policy.Types.{Decision, allowed, denied, path_not_permitted}
use kubegate.Policy.Modes.{has_key}

abbrev pub non_resource_allow_exact : List String
non_resource_allow_exact =
    "/version" ∷ "/api" ∷ "/api/v1" ∷ "/apis" ∷ "/openapi/v2" ∷ "/openapi/v3" ∷ []

-- The loop that looks for an empty segment.
unfoldable pub no_empty : List String → Bool
no_empty [] = true
no_empty (p ∷ parts) = if p == "" then false else no_empty parts

-- /apis/<group> and /apis/<group>/<version>: the branch under `CutPrefix`.
unfoldable pub is_group_path : String → Bool
unfolding no_empty
is_group_path path = elim (cut_prefix path "/apis/") [
  | none ↦ false
  | some rest ↦ leb (length (split b'/' rest)) 2 && no_empty (split b'/' rest)
]

unfoldable pub non_resource_decision : String → Decision
non_resource_decision path =
    if has_key non_resource_allow_exact path
    then allowed
    else if is_group_path path
    then allowed
    else if has_prefix path "/openapi/v3/" && not (contains path "//")
    then allowed
    else denied (path_not_permitted path)
