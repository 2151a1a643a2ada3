-- ===== src/Discovery/Flat.antt =====
-- internal/discovery/filter.go: the filters of an APIResourceList and of an APIGroupList.
pub mod Served
pub mod Agrees
use kubegate.Prelude.{
  ℕ, String, Bool, true, false, ◌&&◌, ◌||◌, not, Option, none, some, List, [], ◌∷◌, ◌==◌, length,
  leb, eqb, if◌then◌else◌,
}
use kubegate.Text.{Cut, cut, cut_prefix, split}
use kubegate.Json.{
  Json, object, array, Items, nil, cons, Fields, end, lookup, put, as_object, as_array, str, Bytes,
  Codec, decode_map, entries,
}
use kubegate.Policy.Types.{Request, mode_ro_no_secret}
use kubegate.Policy.Engine.{Engine, mode_of, authorize_resource_kind, permits_group}
use kubegate.Discovery.Documents.{
  FilterError, no_field, not_an_array, group_has_no_versions, versions_not_an_array,
  resources_not_an_array, unrecognized_kind, Filtered, kept, error, ◌>>=◌, require_array,
  GroupVersion, split_group_version, items_length, is_discovery_path, resource_probe,
  aggregated_probe, subresource_probe,
}

-- Whether the loop of `filterResourceList` keeps an entry.
unfoldable pub keeps_resource : Engine → GroupVersion → Json → Bool
keeps_resource e gv (object r) = (authorize_resource_kind e (resource_probe gv r)).allow
keeps_resource e gv v = false

unfoldable pub keeps_group : Engine → Json → Bool
keeps_group e (object g) = permits_group e (str (lookup "name" g))
keeps_group e v = false

-- The loop that gathers the entries that are kept.
unfoldable pub keep_if : (Json → Bool) → Items → Items
keep_if test nil = nil
keep_if test (cons v vs) = let rest = keep_if test vs in if test v then cons v rest else rest

-- The end of `filterResourceList` and `filterGroupList`.
abbrev pub replace_array : String → Fields → Items → Items → Filtered Fields
replace_array name root old new =
    if eqb (items_length new) (items_length old)
    then kept root false
    else kept (put name (array new) root) true

unfoldable pub filter_resource_list : Engine → Fields → Filtered Fields
unfolding split_group_version
filter_resource_list e root =
    let gv = split_group_version (str (lookup "groupVersion" root)) in
    require_array (no_field "resources") (not_an_array "resources") (lookup "resources" root)
      (λ resources.
        replace_array "resources" root resources (keep_if (keeps_resource e gv) resources))

unfoldable pub filter_group_list : Engine → Fields → Filtered Fields
filter_group_list e root =
    require_array (no_field "groups") (not_an_array "groups") (lookup "groups" root)
      (λ groups. replace_array "groups" root groups (keep_if (keeps_group e) groups))
