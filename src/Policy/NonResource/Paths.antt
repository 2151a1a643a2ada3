-- ===== src/Policy/NonResource/Paths.antt =====
-- Which paths are served without naming a resource, as an explicit list of shapes.
use Prim.Native.String.{◌∷◌, ◌++◌ as str_append}
use kubegate.Prelude.{
  ◌≡◌, refl, ◌≢◌, ◌↔◌, ◌⊎◌, ap, inl, inr, String, Char, true, ◌&&◌, some, List, [], ◌∷◌, arith,
  eq_iff, not, and_iff, not_iff, if_iff, if◌then◌else◌, Option-cases, All, length, leb, ◌∙◌, sym,
}
use kubegate.Text.{cut_prefix, has_prefix, contains, split}
use kubegate.Text.Laws.{Lacks}
use kubegate.Text.Split.{
  join, split-ne-nil, Begins, Occurs, cut_prefix_sound, cut_prefix-append, has_prefix_iff,
  contains_iff, join-split, split-Lacks, split-join,
}
use kubegate.Policy.Modes.{has_key}
use kubegate.Policy.Modes.Denials.{OneOf, has_key_iff}
use kubegate.Policy.NonResource.{
  non_resource_allow_exact, no_empty, is_group_path, non_resource_decision,
}

abbrev slash : Char
slash = "/"

-- One segment of a path.
abbrev pub IsSegment : String → Type 0
IsSegment p = (p ≢ "") × Lacks b'/' p

-- /apis/<group> or /apis/<group>/<version>
abbrev pub IsGroupPath : String → Type 0
IsGroupPath path =
    ((g : String) × (path ≡ str_append "/apis/" g) × IsSegment g)
    ⊎ ((g : String) × (v : String) × (path ≡ str_append "/apis/" (str_append g (slash ∷ v)))
        × IsSegment g
        × IsSegment v)

segments_sound :
    (path : String) (parts : List String)
    → path ≡ str_append "/apis/" (join slash parts)
    → parts ≢ []
    → All (Lacks b'/') parts
    → (leb (length parts) 2 && no_empty parts) ≡ true
    → IsGroupPath path
unfolding no_empty
segments_sound path [] e n l h = absurd (n refl)
segments_sound path (g ∷ []) e n (lg, _) h = inl (g, e, (ground (arith, eq_iff g ""), lg))
segments_sound path (g ∷ v ∷ []) e n (lg, (lv, _)) h =
    inr (g, v, e, (ground (arith, eq_iff g ""), lg), (ground (arith, eq_iff g "", eq_iff v ""), lv))
segments_sound path (g ∷ v ∷ w ∷ ps) e n l h = absurd (ground arith)

is_group_path_sound : (path : String) → is_group_path path ≡ true → IsGroupPath path
unfolding is_group_path
is_group_path_sound path h = elim (Option-cases (cut_prefix path "/apis/")) [
  | inl miss ↦ cc (rw (miss, is_group_path) at h)
  | inr (rest, hit) ↦
      segments_sound path (split b'/' rest)
        (cut_prefix_sound path "/apis/" hit
          ∙ ap (str_append "/apis/") (sym (join-split slash rest)))
        (split-ne-nil slash rest) (split-Lacks slash rest) (rw (hit, is_group_path) at h)
]

is_group_path_cut :
    (path rest : String) (parts : List String)
    → cut_prefix path "/apis/" ≡ some rest
    → split b'/' rest ≡ parts
    → is_group_path path ≡ (leb (length parts) 2 && no_empty parts)
unfolding is_group_path
is_group_path_cut path rest parts hit e =
    rw (hit, is_group_path) (ap (λ ps. leb (length ps) 2 && no_empty ps) e)

is_group_path_complete : (path : String) → IsGroupPath path → is_group_path path ≡ true
unfolding no_empty
is_group_path_complete path (inl (g, e, (n, l))) = rw e (
    rw
      (is_group_path_cut _ g (g ∷ []) (cut_prefix-append "/apis/" g)
        (split-join slash g [] (l, tt)))
      (ground (arith, eq_iff g "")))
is_group_path_complete path (inr (g, v, e, (n, l), (m, k))) = rw e (
    rw
      (is_group_path_cut _ _ (g ∷ v ∷ []) (cut_prefix-append "/apis/" (str_append g (slash ∷ v)))
        (split-join slash g (v ∷ []) (l, (k, tt))))
      (ground (arith, eq_iff g "", eq_iff v "")))

-- /openapi/v3/<anything> with no two slashes in a row.
abbrev pub IsOpenapiPath : String → Type 0
IsOpenapiPath path = Begins path "/openapi/v3/" × ¬ Occurs "//" path

is_openapi_iff :
    (path : String)
    → ((has_prefix path "/openapi/v3/" && not (contains path "//")) ≡ true) ↔ IsOpenapiPath path
is_openapi_iff path =
    and_iff _ _ (has_prefix_iff path "/openapi/v3/") (not_iff _ (contains_iff path "//"))

-- The branches of the function as one test.
non_resource_decision-allow :
    (path : String)
    → (non_resource_decision path).allow ≡ (
        if has_key non_resource_allow_exact path
        then true
        else if is_group_path path
        then true
        else has_prefix path "/openapi/v3/" && not (contains path "//"))
unfolding non_resource_decision
non_resource_decision-allow path = ground arith

-- A path that names no resource is permitted exactly when it is one of the six fixed paths, or
-- /apis/<group> or /apis/<group>/<version> with no empty segment, or under /openapi/v3/ with no
-- two slashes in a row.
pub non_resource_decision_iff :
    (path : String)
    → ((non_resource_decision path).allow ≡ true)
      ↔ (OneOf non_resource_allow_exact path ⊎ IsGroupPath path ⊎ IsOpenapiPath path)
non_resource_decision_iff path = rw (non_resource_decision-allow path) (
    if_iff _ _ (has_key_iff non_resource_allow_exact path)
      (if_iff _ _ (is_group_path_sound path, is_group_path_complete path) (is_openapi_iff path)))
