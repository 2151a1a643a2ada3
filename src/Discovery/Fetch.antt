-- ===== src/Discovery/Fetch.antt =====
-- internal/discovery/scoper.go: the fetcher, which gets and decodes a discovery document.
pub mod Answered
use kubegate.Prelude.{
  take, ℕ, String, not, ◌&&◌, Option, none, some, List, eqb, ltb, length, if◌then◌else◌,
}
use kubegate.Json.{Bytes}
use kubegate.Server.Response.{Response}
use kubegate.Upstream.{Upstream, Client, json_request}
use kubegate.Discovery.Scoper.{ResourceEntry, GroupEntry, Cluster}

-- 16 MiB
abbrev pub max_discovery_bytes : ℕ
max_discovery_bytes = 16777216

-- encoding/json for the two shapes of documents: `none` is an error.
pub record Decoder : Type 0 where
  pub resources : Bytes → Option (List ResourceEntry)
  pub groups : Bytes → Option (List GroupEntry)

-- `io.LimitReader` does not read what is beyond the limit.
abbrev pub decode_answer {ℓ} : {A : Type ℓ} → (Bytes → Option A) → Option Response → Option A
decode_answer decode none = none
decode_answer decode (some resp) =
    if not (eqb resp.status 200)
    then none
    else if not resp.reads && ltb (length resp.body) max_discovery_bytes
    then none
    else decode (take max_discovery_bytes resp.body)

-- `getJSON`: `none` is its error.
unfoldable pub get_json {ℓ} :
    {A : Type ℓ} → Client → Upstream → (Bytes → Option A) → String → Option A
get_json c u decode path =
    if not (c.is_requestable (record u.base { path = path }))
    then none
    else decode_answer decode (u.transport (json_request u.base path))

-- The documents as a fetcher of this route gets them.
abbrev pub cluster_of : Client → Decoder → Upstream → Cluster
cluster_of c d u = record {
  resource_list = get_json c u d.resources;
  group_list = get_json c u d.groups "/apis";
}
