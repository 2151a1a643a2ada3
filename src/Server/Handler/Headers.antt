-- ===== src/Server/Handler/Headers.antt =====
-- The header that a forwarded request carries.
use kubegate.Prelude.{
  ◌≡◌, ◌≢◌, ap, String, Bool, false, ◌||◌, some, List, [], ◌∷◌, arith, eq_iff, ◌==◌, Bool-cases,
  if◌then◌else◌, ◌∙◌, inl, inr, subst,
}
use mathlib.Core.Option.{some-injective}
use kubegate.Text.Laws.{test-ne}
use kubegate.Text.{split}
use kubegate.Header
use kubegate.Header.{Header, values}
use kubegate.Text.Lower.{equal_lower, has_prefix_lower}
use kubegate.Authn.{scrub, is_identity_header, is_exact, has_any_prefix}
use kubegate.Authn.Scrubbed.{values-scrub}
use kubegate.Server.Http.{HttpRequest}
use kubegate.Server.Negotiate.{kept_parts, set_accept, negotiate_json}
use kubegate.Server.Handler.{Options, Base, forward, authorize_request, rewrite}
use kubegate.Server.Handler.Chain.{Negotiated, authorize_request-IsCleared}

values-set :
    (k j v : String) (h : Header) → (k == j) ≡ false → values j (Header.set k v h) ≡ values j h
unfolding values Header.set
values-set k j v [] n = rw n
values-set k j v ((i, vs) ∷ h) n =
    ground (arith, values-set k j v h n, eq_iff i k, eq_iff i j, eq_iff k j)

set_accept-values :
    (j : String) (ks : List String) (h h' : Header)
    → ("Accept" == j) ≡ false
    → set_accept ks h ≡ some h'
    → values j h' ≡ values j h
set_accept-values j [] h h' n e = cc e
set_accept-values j (k ∷ ks) h h' n e =
    subst (λ x. values j x ≡ values j h) (some-injective _ _ e) (values-set "Accept" j _ h n)

negotiate_json-values :
    (j : String) (h h' : Header)
    → ("Accept" == j) ≡ false
    → negotiate_json h ≡ some h'
    → values j h' ≡ values j h
unfolding negotiate_json
negotiate_json-values j h h' n e = elim (Bool-cases (Header.get "Accept" h == "")) [
  | inl t ↦
      subst (λ x. values j x ≡ values j h) (some-injective _ _ (rw t at e))
        (values-set "Accept" j _ h n)
  | inr f ↦ set_accept-values j (kept_parts (split b',' (Header.get "Accept" h))) h h' n (rw f at e)
]

Negotiated-values :
    (o : Options) (j : String) (before after : Header)
    → j ≢ "Accept"
    → Negotiated o before after
    → values j after ≡ values j before
Negotiated-values o j before after n (inl (s, e)) =
    negotiate_json-values j before after (test-ne "Accept" j n) e
Negotiated-values o j before after n (inr (p, e)) = ap (values j) e

values-del :
    (k j : String) (h : Header) → values j (Header.del k h) ≡ (if k == j then [] else values j h)
unfolding values Header.del
values-del k j [] = ground arith
values-del k j ((i, vs) ∷ h) = ground (arith, values-del k j h, eq_iff i k, eq_iff i j, eq_iff k j)

-- The headers through which a client could assert an identity, in any case.
abbrev pub asserts_identity : String → Bool
asserts_identity k =
    equal_lower k "authorization"
    || equal_lower k "impersonate-user"
    || equal_lower k "impersonate-group"
    || equal_lower k "impersonate-uid"
    || has_prefix_lower k "impersonate-extra-"
    || has_prefix_lower k "x-remote-"

is_identity_header_lem : (k : String) → is_identity_header k ≡ asserts_identity k
unfolding is_identity_header is_exact has_any_prefix
is_identity_header_lem k = ground arith

-- What the reverse proxy's Rewrite leaves of the header of a request that is forwarded, whatever its
-- target: authorization, impersonate-user, impersonate-group and impersonate-uid, in any case, and what
-- begins with impersonate-extra- or x-remote- are gone, and so is Accept-Encoding; every other header
-- but Accept has the values that it had. What httputil.ReverseProxy removes by itself (the hop-by-hop
-- headers) is not the program's and not counted here.
pub authorize_request-headers :
    (o : Options) (base : Base) (r out : HttpRequest) (k : String)
    → (authorize_request o r).action ≡ forward out
    → k ≢ "Accept"
    → values k (rewrite base out).header
      ≡ (if asserts_identity k || "Accept-Encoding" == k then [] else values k r.header)
unfolding rewrite
authorize_request-headers o base r out k h n =
    let (req, c) = authorize_request-IsCleared o r out h in
    let e =
      Negotiated-values o k (scrub r.header) out.header n c.header ∙ values-scrub k r.header in
    ground (arith, values-del "Accept-Encoding" k out.header, is_identity_header_lem k, e)
