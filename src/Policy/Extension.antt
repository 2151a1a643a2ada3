-- ===== src/Policy/Extension.antt =====
-- internal/policy/extension.go: the validation of a --policy file.
pub mod Entries
pub mod Grants
pub mod Load
use kubegate.Prelude.{
  String, Bool, true, false, not, Option, none, some, List, [], ◌∷◌, ◌==◌, ℕ, ◌+◌, if◌then◌else◌,
}
use kubegate.Text.{Cut, cut, contains}
use kubegate.Policy.Types.{Request, zero_request}
use kubegate.Policy.Rule.{Rule, RuleSet, matches}
use kubegate.Policy.Modes.{has_key, read_verbs, universal_deny_rules}

abbrev pub forbidden_extension_groups : List String
forbidden_extension_groups =
    "rbac.authorization.k8s.io" ∷ "certificates.k8s.io" ∷ "admissionregistration.k8s.io"
    ∷ "authentication.k8s.io" ∷ "authorization.k8s.io" ∷ []

-- The errors, with the index of the rule and what it names.
pub data ExtensionError : Type 0 where
  no_rules : ExtensionError
  empty_api_groups empty_resources empty_verbs : ℕ → ExtensionError
  wildcard_api_groups : ℕ → ExtensionError
  forbidden_group wildcard_resource : ℕ → String → ExtensionError
  grants_secrets : ℕ → ExtensionError
  verb_not_readable never_granted : ℕ → String → ExtensionError

-- A step of the validation: `none` lets it go on, `some e` returns the error.
abbrev pub Check : Type 0
Check = Option ExtensionError

infixr 20 ◌or_else◌
abbrev pub ◌or_else◌ : Check → Check → Check
none or_else next = next
some e or_else next = some e

abbrev fail_if : Bool → ExtensionError → Check
fail_if true e = some e
fail_if false e = none

abbrev is_nil : List String → Bool
is_nil [] = true
is_nil (x ∷ xs) = false

unfoldable pub check_groups : ℕ → List String → Check
check_groups i [] = none
check_groups i (g ∷ gs) =
    fail_if (g == "*") (wildcard_api_groups i)
    or_else fail_if (has_key forbidden_extension_groups g) (forbidden_group i g)
    or_else check_groups i gs

unfoldable pub check_resources : ℕ → List String → Check
check_resources i [] = none
check_resources i (res ∷ rest) =
    fail_if (contains res "*") (wildcard_resource i res)
    or_else fail_if ((cut b'/' res).before == "secrets") (grants_secrets i)
    or_else check_resources i rest

unfoldable pub check_verbs : ℕ → List String → Check
check_verbs i [] = none
check_verbs i (v ∷ vs) =
    fail_if (not (has_key read_verbs v)) (verb_not_readable i v) or_else check_verbs i vs

-- The request that the denylist is probed with.
abbrev pub probe : String → Cut → String → Request
probe group c verb = record zero_request {
  api_group = group;
  resource = c.before;
  subresource = c.after;
  verb = verb;
}

-- The loop over `readVerbs`. Go visits a map's keys in no fixed order, and the error does not
-- name the verb, so the order is of no consequence.
unfoldable pub probe_verbs : ℕ → String → String → List String → Check
probe_verbs i res group [] = none
probe_verbs i res group (v ∷ vs) =
    fail_if (matches universal_deny_rules (probe group (cut b'/' res) v)) (never_granted i res)
    or_else probe_verbs i res group vs

unfoldable pub probe_groups : ℕ → String → List String → Check
probe_groups i res [] = none
probe_groups i res (g ∷ gs) = probe_verbs i res g read_verbs or_else probe_groups i res gs

unfoldable pub probe_resources : ℕ → List String → List String → Check
probe_resources i groups [] = none
probe_resources i groups (res ∷ rest) =
    probe_groups i res groups or_else probe_resources i groups rest

-- The body of the loop over the rules.
unfoldable pub validate_rule : ℕ → Rule → Check
validate_rule i r =
    fail_if (is_nil r.api_groups) (empty_api_groups i)
    or_else fail_if (is_nil r.resources) (empty_resources i)
    or_else fail_if (is_nil r.verbs) (empty_verbs i)
    or_else check_groups i r.api_groups
    or_else check_resources i r.resources
    or_else check_verbs i r.verbs
    or_else probe_resources i r.api_groups r.resources

unfoldable pub validate_rules : ℕ → RuleSet → Check
validate_rules i [] = none
validate_rules i (r ∷ rs) = validate_rule i r or_else validate_rules (i + 1) rs

-- `none` is the nil error.
unfoldable pub validate_extension : RuleSet → Check
validate_extension [] = some no_rules
validate_extension (r ∷ rs) = validate_rules 0 (r ∷ rs)
