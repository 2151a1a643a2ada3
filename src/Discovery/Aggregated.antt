-- ===== src/Discovery/Aggregated.antt =====
-- internal/discovery/filter.go: the filter of an APIGroupDiscoveryList, which holds groups,
-- versions, resources and subresources in one document.
pub mod Subresources
pub mod Served
use kubegate.Prelude.{
  ℕ, String, Bool, true, false, ◌&&◌, ◌||◌, not, Option, none, some, List, [], ◌∷◌, ◌==◌, length,
  leb, eqb, if◌then◌else◌,
}
use kubegate.Text.{Cut, cut, cut_prefix, split}
use kubegate.Json.{
  Json, object, array, Items, nil, cons, Fields, end, lookup, put, as_object, as_array, str, Bytes,
  Codec, decode_map, entries,
}
use kubegate.Policy.Types.{Request, mode_ro_no_secret}
use kubegate.Policy.Engine.{Engine, mode_of, authorize_resource_kind, permits_group}
use kubegate.Discovery.Documents.{
  FilterError, no_field, not_an_array, group_has_no_versions, versions_not_an_array,
  resources_not_an_array, unrecognized_kind, Filtered, kept, error, ◌>>=◌, require_array,
  GroupVersion, split_group_version, items_length, is_discovery_path, resource_probe,
  aggregated_probe, subresource_probe,
}

-- An array with whether an entry was dropped or changed.
pub record Sifted : Type 0 where
  pub items : Items
  pub changed : Bool

-- The loop of `filterAggregatedSubresources`: an entry that is no object is left out, and is no
-- change by itself.
unfoldable pub sift_subresources : Engine → GroupVersion → String → Items → Sifted
sift_subresources e gv resource nil = record { items = nil; changed = false }
sift_subresources e gv resource (cons (object s) vs) =
    let rest = sift_subresources e gv resource vs in
    if (authorize_resource_kind e
      (subresource_probe gv resource (str (lookup "subresource" s)))).allow
    then record { items = cons (object s) rest.items; changed = rest.changed }
    else record { items = rest.items; changed = true }
sift_subresources e gv resource (cons v vs) = sift_subresources e gv resource vs

-- A resource with its subresources filtered, and whether they were.
pub record SiftedFields : Type 0 where
  pub fields : Fields
  pub changed : Bool

-- The assignment of the array where something was changed.
abbrev assign_if_changed : String → Fields → Sifted → SiftedFields
assign_if_changed name fs s =
    if s.changed
    then record { fields = put name (array s.items) fs; changed = true }
    else record { fields = fs; changed = false }

-- `filterAggregatedSubresources`: a field that is missing or no array is passed over.
unfoldable pub filter_aggregated_subresources :
    Engine → GroupVersion → String → Fields → SiftedFields
filter_aggregated_subresources e gv resource r = elim (as_array (lookup "subresources" r)) [
  | none ↦ record { fields = r; changed = false }
  | some subs ↦ assign_if_changed "subresources" r (sift_subresources e gv resource subs)
]

-- The loop of `filterAggregatedResources`.
unfoldable pub sift_resources : Engine → GroupVersion → Items → Sifted
sift_resources e gv nil = record { items = nil; changed = false }
sift_resources e gv (cons (object r) vs) =
    let rest = sift_resources e gv vs in
    let name = str (lookup "resource" r) in
    let r' = filter_aggregated_subresources e gv name r in
    if not (authorize_resource_kind e (aggregated_probe gv name)).allow
    then record { items = rest.items; changed = true }
    else record { items = cons (object r'.fields) rest.items; changed = r'.changed || rest.changed }
sift_resources e gv (cons v vs) = sift_resources e gv vs

abbrev kept_fields : SiftedFields → Filtered Fields
kept_fields s = kept s.fields s.changed

-- A version with no resources is stale, and is left as it is.
abbrev sift_present : Engine → GroupVersion → Fields → Option Json → Filtered Fields
sift_present e gv v none = kept v false
sift_present e gv v (some (array resources)) =
    kept_fields (assign_if_changed "resources" v (sift_resources e gv resources))
sift_present e gv v (some other) = error (resources_not_an_array gv.group gv.version)

unfoldable pub filter_aggregated_resources : Engine → GroupVersion → Fields → Filtered Fields
filter_aggregated_resources e gv v = sift_present e gv v (lookup "resources" v)

-- The loop of `filterAggregatedVersions`; an entry that is no object is left in its place.
unfoldable pub filter_version_items : Engine → String → Items → Filtered Items
filter_version_items e group nil = kept nil false
filter_version_items e group (cons (object v) vs) =
    let rest = filter_version_items e group vs in
    filter_aggregated_resources e (record { group = group; version = str (lookup "version" v) }) v
    >>= λ v' changed. rest >>= λ vs' more. kept (cons (object v') vs') (changed || more)
filter_version_items e group (cons w vs) =
    filter_version_items e group vs >>= λ vs' more. kept (cons w vs') more

-- The versions lie in the group's map, so changing them changes it.
unfoldable pub filter_aggregated_versions : Engine → String → Fields → Filtered Fields
filter_aggregated_versions e group g =
    require_array (group_has_no_versions group) (versions_not_an_array group) (lookup "versions" g)
      (λ versions. filter_version_items e group versions >>= λ vs changed.
        kept (put "versions" (array vs) g) changed)

abbrev name_in : Option Fields → String
name_in none = ""
name_in (some meta) = str (lookup "name" meta)

-- The core group has no name.
abbrev pub group_name : Fields → String
group_name g = name_in (as_object (lookup "metadata" g))

-- The loop of `filterAggregatedDiscoveryList`.
unfoldable pub filter_group_items : Engine → Items → Filtered Items
filter_group_items e nil = kept nil false
filter_group_items e (cons (object g) vs) =
    let rest = filter_group_items e vs in
    if not (permits_group e (group_name g))
    then (rest >>= λ vs' more. kept vs' true)
    else (filter_aggregated_versions e (group_name g) g >>= λ g' changed.
        rest >>= λ vs' more. kept (cons (object g') vs') (changed || more))
filter_group_items e (cons w vs) = filter_group_items e vs

abbrev assign_items : Fields → Items → Bool → Filtered Fields
assign_items root kept_items true = kept (put "items" (array kept_items) root) true
assign_items root kept_items false = kept root false

unfoldable pub filter_aggregated_discovery_list : Engine → Fields → Filtered Fields
filter_aggregated_discovery_list e root =
    require_array (no_field "items") (not_an_array "items") (lookup "items" root)
      (λ items. filter_group_items e items >>= λ vs changed. assign_items root vs changed)
