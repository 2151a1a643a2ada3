-- ===== src/Authn.antt =====
-- internal/authn/authn.go: the proxy token, and the headers that no client may set.
pub mod Token
pub mod Scrubbed
mod Tests
use Prim.Native.String.{len}
use kubegate.Prelude.{
  ℕ, String, Bool, true, false, ◌||◌, not, Option, none, some, List, [], ◌∷◌, ◌==◌, ltb,
  if◌then◌else◌,
}
use kubegate.Text.Lower.{equal_lower, cut_prefix_lower, has_prefix_lower}
use kubegate.Header
use kubegate.Header.{Header}

abbrev pub min_token_len : ℕ
min_token_len = 32

pub record Authenticator : Type 0 where
  pub token : String

-- `New`: `none` is the error of a token that is too short. Lengths are in bytes.
unfoldable pub new_authenticator : String → Option Authenticator
new_authenticator token =
    if ltb (len token) min_token_len then none else some (record { token = token })

pub data AuthError : Type 0 where
  no_header not_bearer token_mismatch : AuthError

-- The token that a header presents. Go cuts the header at the seventh byte; where these bytes are
-- the scheme up to case they are seven characters too, and something must follow.
unfoldable pub presented : String → Option String
presented raw = elim (cut_prefix_lower raw "bearer ") [
  | none ↦ none
  | some rest ↦ if rest == "" then none else some rest
]

-- `Authenticate`: `none` is the nil error. The constant-time comparison is equality.
unfoldable pub authenticate : Authenticator → Header → Option AuthError
unfolding presented
authenticate a h =
    let raw = Header.get "Authorization" h in
    if raw == "" then some no_header else elim (presented raw) [
      | none ↦ some not_bearer
      | some tok ↦ if not (tok == a.token) then some token_mismatch else none
    ]

abbrev pub scrub_exact : List String
scrub_exact = "authorization" ∷ "impersonate-user" ∷ "impersonate-group" ∷ "impersonate-uid" ∷ []

abbrev pub scrub_prefixes : List String
scrub_prefixes = "impersonate-extra-" ∷ "x-remote-" ∷ []

-- `scrubExact[lower]`
unfoldable pub is_exact : List String → String → Bool
is_exact [] k = false
is_exact (t ∷ ts) k = equal_lower k t || is_exact ts k

-- The loop over `scrubPrefixes`.
unfoldable pub has_any_prefix : List String → String → Bool
has_any_prefix [] k = false
has_any_prefix (p ∷ ps) k = if has_prefix_lower k p then true else has_any_prefix ps k

unfoldable pub is_identity_header : String → Bool
is_identity_header k = if is_exact scrub_exact k then true else has_any_prefix scrub_prefixes k

-- `Scrub`, which deletes keys while it ranges over the map.
unfoldable pub scrub : Header → Header
scrub [] = []
scrub ((k, vs) ∷ h) = let rest = scrub h in if is_identity_header k then rest else (k, vs) ∷ rest
