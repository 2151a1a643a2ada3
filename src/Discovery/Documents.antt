-- ===== src/Discovery/Documents.antt =====
-- internal/discovery/filter.go: what the filters of the document kinds share.
-- The source changes the decoded maps in place; here each function returns the new map.
use kubegate.Prelude.{
  ℕ, String, Bool, true, false, ◌||◌, not, Option, none, some, ◌==◌, length, leb, if◌then◌else◌,
}
use kubegate.Text.{Cut, cut, cut_prefix, split}
use kubegate.Json.{Json, array, Items, nil, cons, Fields, lookup, str}
use kubegate.Policy.Types.{Request}

unfoldable pub is_discovery_path : String → Bool
is_discovery_path path =
    if path == "/api" || path == "/api/v1" || path == "/apis"
    then true
    else elim (cut_prefix path "/apis/") [
      | none ↦ false
      | some rest ↦ leb (length (split b'/' rest)) 2
    ]

pub data FilterError : Type 0 where
  no_field not_an_array : String → FilterError
  group_has_no_versions versions_not_an_array : String → FilterError
  resources_not_an_array : String → String → FilterError
  unrecognized_kind : Option Json → FilterError

-- An error, or the new value and whether it was changed.
pub data Filtered (A : Type 0) : Type 0 where
  kept : A → Bool → Filtered A
  error : FilterError → Filtered A

infixl 5 ◌>>=◌
abbrev pub ◌>>=◌ : {A B : Type 0} → Filtered A → (A → Bool → Filtered B) → Filtered B
kept a changed >>= k = k a changed
error e >>= k = error e

-- A field that must be there and be an array.
abbrev pub require_array :
    FilterError → FilterError → Option Json → (Items → Filtered Fields) → Filtered Fields
require_array missing wrong none k = error missing
require_array missing wrong (some (array vs)) k = k vs
require_array missing wrong (some v) k = error wrong

pub record GroupVersion : Type 0 where
  pub group : String
  pub version : String

abbrev split_cut : String → Cut → GroupVersion
split_cut gv c =
    if c.found
    then record { group = c.before; version = c.after }
    else record { group = ""; version = gv }

unfoldable pub split_group_version : String → GroupVersion
split_group_version gv = split_cut gv (cut b'/' gv)

abbrev pub items_length : Items → ℕ
items_length nil = 0
items_length (cons v vs) = ℕ.suc (items_length vs)

-- The probe for a resource, and for a subresource, which is never listed.
abbrev pub probe_cut : GroupVersion → Cut → Request
probe_cut gv c = record {
  is_resource_request = true;
  path = "";
  verb = if not (c.after == "") then "get" else "list";
  api_group = gv.group;
  api_version = gv.version;
  resource = c.before;
  subresource = c.after;
  namespace = "";
  name = if not (c.after == "") then "probe" else "";
}

abbrev pub resource_probe : GroupVersion → Fields → Request
resource_probe gv r = probe_cut gv (cut b'/' (str (lookup "name" r)))

-- The probes of the aggregated format.
abbrev pub aggregated_probe : GroupVersion → String → Request
aggregated_probe gv resource = record {
  is_resource_request = true;
  path = "";
  verb = "list";
  api_group = gv.group;
  api_version = gv.version;
  resource = resource;
  subresource = "";
  namespace = "";
  name = "";
}

abbrev pub subresource_probe : GroupVersion → String → String → Request
subresource_probe gv resource sub = record {
  is_resource_request = true;
  path = "";
  verb = "get";
  api_group = gv.group;
  api_version = gv.version;
  resource = resource;
  subresource = sub;
  namespace = "";
  name = "probe";
}
