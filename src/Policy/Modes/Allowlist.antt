-- ===== src/Policy/Modes/Allowlist.antt =====
-- What the allowlist of the strict mode leaves out.
use kubegate.Prelude.{◌≡◌, refl, String, false, [], ◌∷◌, arith, All}
use kubegate.Text.{cut}
use kubegate.Policy.Types.{Request}
use kubegate.Policy.Rule.{RuleSet, entry_matches, matches_resource, rule_matches, matches}
use kubegate.Policy.Modes.{ro_no_secret_allow}

matches_none :
    (req : Request) (rs : RuleSet)
    → All (λ r. matches_resource r.resources req.resource req.subresource ≡ false) rs
    → matches rs req ≡ false
unfolding matches rule_matches
matches_none req [] h = refl
matches_none req (r ∷ rs) (h, hs) = ground (arith, h, matches_none req rs hs)

secrets-absent :
    (s : String) → All (λ r. matches_resource r.resources "secrets" s ≡ false) ro_no_secret_allow
unfolding matches_resource entry_matches cut ro_no_secret_allow
secrets-absent s = ground arith

-- The allowlist covers no secret.
pub ro_no_secret_allow-secrets :
    (req : Request) → req.resource ≡ "secrets" → matches ro_no_secret_allow req ≡ false
ro_no_secret_allow-secrets req e =
    matches_none req ro_no_secret_allow (rw e (secrets-absent req.subresource))
