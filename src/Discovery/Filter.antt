-- ===== src/Discovery/Filter.antt =====
-- internal/discovery/filter.go: `FilterBody`.
use kubegate.Prelude.{String, Bool, true, false, ◌||◌, not, Option, none, some, ◌==◌, if◌then◌else◌}
use kubegate.Json.{Json, object, Fields, lookup, str, Bytes, Codec, decode_map, entries}
use kubegate.Policy.Types.{mode_ro_no_secret}
use kubegate.Policy.Engine.{Engine, mode_of}
use kubegate.Discovery.Documents.{
  FilterError, unrecognized_kind, Filtered, kept, error, is_discovery_path,
}
use kubegate.Discovery.Flat.{filter_resource_list, filter_group_list}
use kubegate.Discovery.Aggregated.{filter_aggregated_discovery_list}

pub data FilterBodyError : Type 0 where
  decode_failed encode_failed : FilterBodyError
  not_filtered : FilterError → FilterBodyError

pub data FilterResult : Type 0 where
  passed : Bytes → Bool → FilterResult
  refused : FilterBodyError → FilterResult

-- What the switch on the kind gives: the body as it came, or a filtered document.
unfoldable pub filter_root : Engine → Fields → Filtered Fields
filter_root e root =
    let kind = str (lookup "kind" root) in
    if kind == "APIResourceList"
    then filter_resource_list e root
    else if kind == "APIGroupList"
    then filter_group_list e root
    else if kind == "APIGroupDiscoveryList"
    then filter_aggregated_discovery_list e root
    else if kind == "APIVersions"
    then kept root false
    else error (unrecognized_kind (lookup "kind" root))

abbrev encoded : Option Bytes → FilterResult
encoded none = refused encode_failed
encoded (some out) = passed out true

abbrev finish : Codec → Bytes → Filtered Fields → FilterResult
finish codec b (error e) = refused (not_filtered e)
finish codec b (kept root false) = passed b false
finish codec b (kept root true) = encoded (codec.encode (object root))

abbrev filter_decoded : Codec → Engine → Bytes → Option Json → FilterResult
filter_decoded codec e b none = refused decode_failed
filter_decoded codec e b (some root) = finish codec b (filter_root e (entries root))

unfoldable pub filter_body : Codec → Engine → String → Bytes → FilterResult
filter_body codec e path b =
    if not (mode_of e == mode_ro_no_secret) || not (is_discovery_path path)
    then passed b false
    else filter_decoded codec e b (decode_map codec b)
