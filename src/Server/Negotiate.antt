-- ===== src/Server/Negotiate.antt =====
-- internal/server/server.go: the tests on headers, and the rewriting of Accept.
use Prim.Native.String.{◌++◌ as str_append}
use kubegate.Prelude.{
  String, Bool, true, false, ◌&&◌, ◌||◌, not, Option, none, some, List, [], ◌∷◌, ◌==◌,
  if◌then◌else◌,
}
use kubegate.Text.{Cut, cut, split}
use kubegate.Text.Lower.{equal_lower, contains_lower, trim_white_space}
use kubegate.Header
use kubegate.Header.{Header}
use kubegate.Policy.Types.{Request}

-- The loop over the values of Connection.
unfoldable pub any_upgrade : List String → Bool
any_upgrade [] = false
any_upgrade (v ∷ vs) = if contains_lower v "upgrade" then true else any_upgrade vs

unfoldable pub is_upgrade : Header → Bool
unfolding any_upgrade
is_upgrade h = any_upgrade (Header.values "Connection" h) || not (Header.get "Upgrade" h == "")

unfoldable pub is_json : String → Bool
is_json content_type = contains_lower content_type "json"

unfoldable pub is_pod_log : Request → Bool
is_pod_log req = req.resource == "pods" && req.subresource == "log"

unfoldable pub is_watch : Request → String → Bool
unfolding is_pod_log
is_watch req follow =
    if req.verb == "watch"
    then true
    else is_pod_log req && (not (follow == "") && not (follow == "false") && not (follow == "0"))

-- What is kept of a part of Accept that was trimmed and cut at its first semicolon.
unfoldable pub kept_media_type : String → Cut → Option String
kept_media_type trimmed c =
    let base = trim_white_space c.before in
    if equal_lower base "application/json"
    then some trimmed
    else if equal_lower base "*/*" || equal_lower base "application/*"
    then some (if c.found then str_append "application/json;" c.after else "application/json")
    else none

-- One round of the loop over the parts.
unfoldable pub kept_part : String → Option String
unfolding kept_media_type
kept_part part =
    let trimmed = trim_white_space part in
    if trimmed == "" then none else kept_media_type trimmed (cut b';' trimmed)

abbrev pub prepend : Option String → List String → List String
prepend none ks = ks
prepend (some k) ks = k ∷ ks

unfoldable pub kept_parts : List String → List String
unfolding kept_part
kept_parts [] = []
kept_parts (p ∷ ps) = prepend (kept_part p) (kept_parts ps)

-- `strings.Join(kept, ", ")`
unfoldable pub join_parts : List String → String
join_parts [] = ""
join_parts (p ∷ []) = p
join_parts (p ∷ q ∷ ps) = str_append p (str_append ", " (join_parts (q ∷ ps)))

abbrev pub set_accept : List String → Header → Option Header
set_accept [] h = none
set_accept (k ∷ ks) h = some (Header.set "Accept" (join_parts (k ∷ ks)) h)

-- `negotiateJSON`: `none` is false, which leaves the header as it was.
unfoldable pub negotiate_json : Header → Option Header
negotiate_json h =
    let raw = Header.get "Accept" h in
    if raw == ""
    then some (Header.set "Accept" "application/json" h)
    else set_accept (kept_parts (split b',' raw)) h
