-- ===== src/Policy/Extension/Grants.antt =====
-- What an accepted --policy file can grant.
use kubegate.Prelude.{◌≡◌, refl, ◌≢◌, inl, inr, true, false, none, [], ◌∷◌, arith, Any, ℕ, ◌+◌}
use kubegate.Policy.Types.{Request}
use kubegate.Policy.Rule.{Rule, RuleSet, rule_matches, matches}
use kubegate.Policy.Rule.Semantics.{RuleCovers, matches_iff}
use kubegate.Policy.Modes.{read_verbs, universal_deny_rules}
use kubegate.Policy.Modes.Denials.{OneOf, has_key_iff}
use kubegate.Policy.Extension.{
  validate_rule, validate_rules, validate_extension, forbidden_extension_groups,
}
use kubegate.Policy.Extension.Entries.{
  bare_request, check_groups_sound, check_resources_sound, check_verbs_sound, probe_resources_sound,
}

-- A read of a resource other than secrets, outside the groups that describe the cluster's
-- security, and of nothing on the universal denylist.
pub record IsWorkloadRead (req : Request) : Type 0 where
  pub reads : OneOf read_verbs req.verb
  pub not_secrets : req.resource ≢ "secrets"
  pub group_open : ¬ OneOf forbidden_extension_groups req.api_group
  pub forwardable : matches universal_deny_rules req ≡ false

-- Matching looks at the group, the resource, the subresource and the verb only.
matches-bare :
    (rs : RuleSet) (req : Request)
    → matches rs (bare_request req.api_group req.resource req.subresource req.verb) ≡ matches rs req
unfolding matches rule_matches
matches-bare [] req = refl
matches-bare (r ∷ rs) req = rw (matches-bare rs req)

validate_rule_sound :
    (i : ℕ) (r : Rule) (req : Request)
    → validate_rule i r ≡ none
    → RuleCovers req r
    → IsWorkloadRead req
unfolding validate_rule
validate_rule_sound i r req h (verb, groups, verbs, entries) =
    let (groups', open_group) =
      check_groups_sound i req.api_group r.api_groups (ground arith) groups in
    let (entries', not_secrets) =
      check_resources_sound i req.resource req.subresource r.resources (ground arith) entries in
    let reads = check_verbs_sound i req.verb r.verbs (ground arith) verbs in
    record {
      reads = (has_key_iff read_verbs req.verb).0 reads;
      not_secrets = not_secrets;
      group_open = λ o. cc ((has_key_iff forbidden_extension_groups req.api_group).1 o);
      forwardable = rw (← matches-bare universal_deny_rules req) (
          probe_resources_sound i req.api_group req.resource req.subresource req.verb r.api_groups
            r.resources (ground arith) groups' entries' reads);
    }

validate_rules_sound :
    (i : ℕ) (rs : RuleSet) (req : Request)
    → validate_rules i rs ≡ none
    → Any (RuleCovers req) rs
    → IsWorkloadRead req
unfolding validate_rules
validate_rules_sound i [] req h a = elim a [ ]
validate_rules_sound i (r ∷ rs) req h (inl c) = validate_rule_sound i r req (ground arith) c
validate_rules_sound i (r ∷ rs) req h (inr a) = validate_rules_sound (i + 1) rs req (ground arith) a

-- Whatever the rules of an accepted --policy file match is a get, list or watch, of a resource
-- other than secrets, in none of the forbidden groups, and not on the universal denylist.
pub validate_extension_sound :
    (rs : RuleSet) (req : Request)
    → validate_extension rs ≡ none
    → matches rs req ≡ true
    → IsWorkloadRead req
unfolding validate_extension
validate_extension_sound [] req h m = cc
validate_extension_sound (r ∷ rs) req h m =
    validate_rules_sound 0 (r ∷ rs) req h ((matches_iff (r ∷ rs) req).0 m)
