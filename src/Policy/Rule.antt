-- ===== src/Policy/Rule.antt =====
-- internal/policy/rule.go: rules in the shape of Kubernetes RBAC, and what they cover.
pub mod Semantics
use kubegate.Prelude.{
  String, Bool, true, false, ◌&&◌, ◌||◌, not, List, [], ◌∷◌, ◌==◌, if◌then◌else◌,
}
use kubegate.Text.{Cut, cut}
use kubegate.Policy.Types.{Request}

pub record Rule : Type 0 where
  pub api_groups : List String
  pub resources : List String
  pub verbs : List String

abbrev pub RuleSet : Type 0
RuleSet = List Rule

unfoldable pub match_any : List String → String → Bool
match_any [] want = false
match_any (got ∷ list) want =
    if got == "*" then true else if got == want then true else match_any list want

unfoldable pub match_one : String → String → Bool
match_one pattern want = pattern == "*" || (pattern == want && not (want == ""))

-- What the loop of `matchesResource` does with an entry that was cut at its first slash.
unfoldable pub cut_matches : Cut → String → String → Bool
unfolding match_one
cut_matches c resource subresource =
    if not (match_one c.before resource)
    then false
    else if not c.found
    then subresource == ""
    else c.after == "*" || c.after == subresource

-- One round of the loop: whether it returns true at this entry.
unfoldable pub entry_matches : String → String → String → Bool
unfolding cut_matches
entry_matches entry resource subresource =
    if entry == "*" then true else cut_matches (cut b'/' entry) resource subresource

unfoldable pub matches_resource : List String → String → String → Bool
matches_resource [] resource subresource = false
matches_resource (entry ∷ entries) resource subresource =
    if entry_matches entry resource subresource
    then true
    else matches_resource entries resource subresource

-- `Rule.Matches`
unfoldable pub rule_matches : Rule → Request → Bool
rule_matches r req =
    if req.verb == ""
    then false
    else match_any r.api_groups req.api_group
      && match_any r.verbs req.verb
      && matches_resource r.resources req.resource req.subresource

-- `RuleSet.Matches`
unfoldable pub matches : RuleSet → Request → Bool
matches [] req = false
matches (r ∷ rs) req = if rule_matches r req then true else matches rs req
