-- ===== src/Policy/Modes/Denials.antt =====
-- What is refused in every mode, stated without the rules.
use kubegate.Prelude.{◌≡◌, ◌≢◌, ◌↔◌, ◌⊎◌, String, true, false, List, [], ◌∷◌, arith, eq_iff, Any}
use kubegate.Text.{cut}
use kubegate.Policy.Types.{Request}
use kubegate.Policy.Rule.{match_any, entry_matches, matches_resource, rule_matches, matches}
use kubegate.Policy.Modes.{
  has_key, interactive_rule, token_request_rule, csr_write_rule, csr_decide_rule,
  universal_deny_rules, universal_deny_decision,
}

-- The value is one of the list.
abbrev pub OneOf : List String → String → Type 0
OneOf list x = Any (λ y. x ≡ y) list

pub has_key_iff : (keys : List String) (k : String) → (has_key keys k ≡ true) ↔ OneOf keys k
unfolding has_key
has_key_iff [] k = (λ h. cc, λ h. absurd h)
has_key_iff (j ∷ keys) k = ground (arith, eq_iff j k, has_key_iff keys k)

abbrev pub interactive_subresources : List String
interactive_subresources = "exec" ∷ "attach" ∷ "portforward" ∷ "proxy" ∷ []

interactive_rule_iff :
    (req : Request)
    → (rule_matches interactive_rule req ≡ true)
      ↔ ((req.verb ≢ "") × OneOf interactive_subresources req.subresource)
unfolding rule_matches interactive_rule match_any matches_resource entry_matches cut
interactive_rule_iff req = ground (
  arith,
  eq_iff req.verb "",
  eq_iff "exec" req.subresource,
  eq_iff "attach" req.subresource,
  eq_iff "portforward" req.subresource,
  eq_iff "proxy" req.subresource,
)

-- TokenRequest, in the core group.
abbrev pub IsTokenRequest : Request → Type 0
IsTokenRequest req =
    (req.api_group ≡ "") × (req.resource ≡ "serviceaccounts") × (req.subresource ≡ "token")

token_request_rule_iff :
    (req : Request)
    → (rule_matches token_request_rule req ≡ true) ↔ ((req.verb ≢ "") × IsTokenRequest req)
unfolding rule_matches token_request_rule match_any matches_resource entry_matches cut
token_request_rule_iff req = ground (
  arith,
  eq_iff req.verb "",
  eq_iff "" req.api_group,
  eq_iff "serviceaccounts" req.resource,
  eq_iff "token" req.subresource,
  eq_iff req.resource "",
  eq_iff "serviceaccounts" "",
)

abbrev pub write_verbs : List String
write_verbs = "create" ∷ "update" ∷ "patch" ∷ "delete" ∷ "deletecollection" ∷ []

abbrev IsCsr : Request → Type 0
IsCsr req = (req.api_group ≡ "certificates.k8s.io") × (req.resource ≡ "certificatesigningrequests")

-- A write of a certificate signing request itself.
abbrev pub IsCsrWrite : Request → Type 0
IsCsrWrite req =
    (req.api_group ≡ "certificates.k8s.io")
    × (req.resource ≡ "certificatesigningrequests")
    × (req.subresource ≡ "")
    × OneOf write_verbs req.verb

csr_write_rule_iff :
    (req : Request) → (rule_matches csr_write_rule req ≡ true) ↔ ((req.verb ≢ "") × IsCsrWrite req)
unfolding rule_matches csr_write_rule match_any matches_resource entry_matches cut
csr_write_rule_iff req = ground (
  arith,
  eq_iff req.verb "",
  eq_iff "certificates.k8s.io" req.api_group,
  eq_iff "certificatesigningrequests" req.resource,
  eq_iff req.subresource "",
  eq_iff req.resource "",
  eq_iff "certificatesigningrequests" "",
  eq_iff "create" req.verb,
  eq_iff "update" req.verb,
  eq_iff "patch" req.verb,
  eq_iff "delete" req.verb,
  eq_iff "deletecollection" req.verb,
)

-- Any request on the approval or the status of a certificate signing request.
abbrev pub IsCsrDecision : Request → Type 0
IsCsrDecision req =
    (req.api_group ≡ "certificates.k8s.io")
    × (req.resource ≡ "certificatesigningrequests")
    × OneOf ("approval" ∷ "status" ∷ []) req.subresource

csr_decide_rule_iff :
    (req : Request)
    → (rule_matches csr_decide_rule req ≡ true) ↔ ((req.verb ≢ "") × IsCsrDecision req)
unfolding rule_matches csr_decide_rule match_any matches_resource entry_matches cut
csr_decide_rule_iff req = ground (
  arith,
  eq_iff req.verb "",
  eq_iff "certificates.k8s.io" req.api_group,
  eq_iff "certificatesigningrequests" req.resource,
  eq_iff "approval" req.subresource,
  eq_iff "status" req.subresource,
  eq_iff req.resource "",
  eq_iff "certificatesigningrequests" "",
)

-- What must never reach the cluster.
abbrev pub NeverForwarded : Request → Type 0
NeverForwarded req =
    (req.verb ≡ "proxy")
    ⊎ (req.verb ≡ "")
    ⊎ ((req.is_resource_request ≡ true) × (req.resource ≡ ""))
    ⊎ OneOf interactive_subresources req.subresource
    ⊎ IsTokenRequest req
    ⊎ IsCsrWrite req
    ⊎ IsCsrDecision req

pub universal_deny_rules_iff :
    (req : Request)
    → (matches universal_deny_rules req ≡ true) ↔ (
        (req.verb ≢ "")
        × (OneOf interactive_subresources req.subresource
            ⊎ IsTokenRequest req
            ⊎ IsCsrWrite req
            ⊎ IsCsrDecision req))
unfolding matches universal_deny_rules
universal_deny_rules_iff req = ground (
  arith,
  interactive_rule_iff req,
  token_request_rule_iff req,
  csr_write_rule_iff req,
  csr_decide_rule_iff req,
)

-- The checks that hold in every mode refuse a request exactly when it is of a kind that must
-- never be forwarded: the legacy proxy verb, no verb, a resource request with no resource, the
-- exec, attach, portforward or proxy subresource, a service account's token, a write of a
-- certificate signing request, or any request on its approval or status.
pub universal_deny_decision_iff :
    (req : Request) → ((universal_deny_decision req).allow ≡ false) ↔ NeverForwarded req
unfolding universal_deny_decision
universal_deny_decision_iff req = ground (
  arith,
  eq_iff req.verb "proxy",
  eq_iff req.verb "",
  eq_iff req.resource "",
  universal_deny_rules_iff req,
)
