-- ===== src/Policy/Rule/Semantics.antt =====
-- What a rule covers, stated without the loops of rule.go.
use Prim.Native.String.{◌∷◌, ◌++◌ as str_append}
use kubegate.Prelude.{
  ◌≡◌, ◌≢◌, ◌↔◌, subst, ◌⊎◌, inl, inr, String, Char, Bool, true, false, List, [], ◌∷◌, arith, ◌==◌,
  eq_iff, Bool-cases, Any,
}
use kubegate.Text.{cut}
use kubegate.Text.Laws.{Lacks, cut_join, cut-Lacks, cut_whole, cut-append, cut_of_Lacks}
use kubegate.Policy.Types.{Request}
use kubegate.Policy.Rule.{
  Rule, RuleSet, match_any, match_one, cut_matches, entry_matches, matches_resource, rule_matches,
  matches,
}

abbrev pub slash : Char
slash = "/"

-- `*` or the value itself.
abbrev pub WildOr : String → String → Type 0
WildOr pattern want = (pattern ≡ "*") ⊎ (pattern ≡ want)

-- A resource name in an entry: `*`, or the resource, which must not be empty.
abbrev pub NamesResource : String → String → Type 0
NamesResource pattern resource = (pattern ≡ "*") ⊎ ((pattern ≡ resource) × (resource ≢ ""))

-- The RBAC reading of one entry of a rule's resources.
pub data Covers (entry resource subresource : String) : Type 0 where
  everything : entry ≡ "*" → Covers entry resource subresource
  bare :
      Lacks b'/' entry
      → NamesResource entry resource
      → subresource ≡ ""
      → Covers entry resource subresource
  nested :
      (p q : String)
      → Lacks b'/' p
      → entry ≡ str_append p (slash ∷ q)
      → NamesResource p resource
      → WildOr q subresource
      → Covers entry resource subresource

match_any_iff :
    (list : List String) (want : String)
    → (match_any list want ≡ true) ↔ Any (λ got. WildOr got want) list
unfolding match_any
match_any_iff [] want = (λ h. cc, λ h. absurd h)
match_any_iff (got ∷ list) want =
    ground (arith, match_any_iff list want, eq_iff got "*", eq_iff got want)

match_one_iff : (p r : String) → (match_one p r ≡ true) ↔ NamesResource p r
unfolding match_one
match_one_iff p r = ground (arith, eq_iff p "*", eq_iff p r, eq_iff r "")

-- What follows the name in the entry, and the subresource.
abbrev Rest : Bool → String → String → Type 0
Rest false after subresource = subresource ≡ ""
Rest true after subresource = WildOr after subresource

cut_matches_iff :
    (p q : String) (found : Bool) (r s : String)
    → (cut_matches (record { before = p; after = q; found = found }) r s ≡ true)
      ↔ (NamesResource p r × Rest found q s)
unfolding cut_matches
cut_matches_iff p q true r s = ground (arith, match_one_iff p r, eq_iff q "*", eq_iff q s)
cut_matches_iff p q false r s = ground (arith, match_one_iff p r, eq_iff s "")

cut_entry_sound : (e r s : String) → cut_matches (cut b'/' e) r s ≡ true → Covers e r s
cut_entry_sound e r s h =
    let (names, rest) = (cut_matches_iff _ _ _ r s).0 h in
    elim (Bool-cases (cut b'/' e).found) [
      | inl f ↦
          nested _ _ (cut-Lacks slash e) (cut_join slash e f) names
            (subst (λ b. Rest b (cut b'/' e).after s) f rest)
      | inr f ↦
          bare (rw (cut_whole slash e f).0 at (cut-Lacks slash e))
            (rw (cut_whole slash e f).0 at names) (subst (λ b. Rest b (cut b'/' e).after s) f rest)
    ]

entry_matches_sound : (e r s : String) → entry_matches e r s ≡ true → Covers e r s
unfolding entry_matches
entry_matches_sound e r s h = elim (Bool-cases (e == "*")) [
  | inl w ↦ everything ((eq_iff e "*").0 w)
  | inr w ↦ cut_entry_sound e r s (ground arith)
]

entry_matches_complete : (e r s : String) → Covers e r s → entry_matches e r s ≡ true
unfolding entry_matches
entry_matches_complete e r s (everything w) = ground (arith, eq_iff e "*")
entry_matches_complete e r s (bare l n t) =
    ground (arith, cut_of_Lacks slash e l, cut_matches_iff e "" false r s)
entry_matches_complete e r s (nested p q l j n w) =
    ground (arith, cut-append slash p q l, cut_matches_iff p q true r s)

matches_resource_iff :
    (entries : List String) (r s : String)
    → (matches_resource entries r s ≡ true) ↔ Any (λ e. Covers e r s) entries
unfolding matches_resource
matches_resource_iff [] r s = (λ h. cc, λ h. absurd h)
matches_resource_iff (e ∷ entries) r s =
    let (to, from) = matches_resource_iff entries r s in
    elim (Bool-cases (entry_matches e r s)) [
      | inl m ↦ (λ _. inl (entry_matches_sound e r s m), λ _. rw m)
      | inr m ↦ (
        λ h. inr (to (rw m at h)),
        elim [ inl c ↦ cc (entry_matches_complete e r s c) | inr a ↦ rw m (from a) ],
      )
    ]

-- What a rule covers: the verb is not empty, and group, verb and resource are each named.
abbrev pub RuleCovers : Request → Rule → Type 0
RuleCovers req r =
    (req.verb ≢ "")
    × Any (λ g. WildOr g req.api_group) r.api_groups
    × Any (λ v. WildOr v req.verb) r.verbs
    × Any (λ e. Covers e req.resource req.subresource) r.resources

rule_matches_iff : (r : Rule) (req : Request) → (rule_matches r req ≡ true) ↔ RuleCovers req r
unfolding rule_matches
rule_matches_iff r req = ground (
  arith,
  eq_iff req.verb "",
  match_any_iff r.api_groups req.api_group,
  match_any_iff r.verbs req.verb,
  matches_resource_iff r.resources req.resource req.subresource,
)

-- A rule set matches a request exactly when one of its rules covers it: the verb is not empty,
-- the rule names the group and the verb, each by `*` or as it is, and an entry of the rule covers
-- the resource. An entry `*` covers all; one without a slash covers the resource of its name with
-- no subresource; `p/q` covers subresource `q`, or all if `q` is `*`, of the resource `p`, or of
-- all if `p` is `*`.
pub matches_iff : (rs : RuleSet) (req : Request) → (matches rs req ≡ true) ↔ Any (RuleCovers req) rs
unfolding matches
matches_iff [] req = (λ h. cc, λ h. absurd h)
matches_iff (r ∷ rs) req =
    let (to, from) = matches_iff rs req in
    elim (Bool-cases (rule_matches r req)) [
      | inl m ↦ (λ _. inl ((rule_matches_iff r req).0 m), λ _. rw m)
      | inr m ↦ (
        λ h. inr (to (rw m at h)),
        elim [ inl c ↦ cc ((rule_matches_iff r req).1 c) | inr a ↦ rw m (from a) ],
      )
    ]
