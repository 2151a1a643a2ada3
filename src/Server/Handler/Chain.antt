-- ===== src/Server/Handler/Chain.antt =====
-- When a request is forwarded, and as what.
use kubegate.Prelude.{
  ◌≡◌, refl, ◌⊎◌, inl, inr, subst, true, false, none, some, Bool-cases, Option-cases,
}
use kubegate.Header.{Header}
use kubegate.Policy.Types.{Request}
use kubegate.Policy.Engine.{authorize, redaction_enabled}
use kubegate.Authn.{authenticate, scrub}
use kubegate.Server.Http.{HttpRequest, parse}
use kubegate.Server.Negotiate.{is_upgrade, negotiate_json}
use kubegate.Server.Handler.{
  Options, forward, check_length, is_too_large, negotiate, check_policy, check_path,
  authorize_request,
}

-- The header that a request goes out with: scrubbed, and negotiated in the strict mode.
abbrev pub Negotiated : Options → Header → Header → Type 0
Negotiated o before after =
    ((redaction_enabled o.engine ≡ true) × (negotiate_json before ≡ some after))
    ⊎ ((redaction_enabled o.engine ≡ false) × (after ≡ before))

-- Everything that holds of a request that is forwarded.
pub record IsCleared (o : Options) (r out : HttpRequest) (req : Request) : Type 0 where
  pub no_upgrade : is_upgrade r.header ≡ false
  pub authenticated : authenticate o.auth r.header ≡ none
  pub parsed : parse o.factory (record r { header = scrub r.header }) ≡ some req
  pub permitted : (authorize o.engine req).allow ≡ true
  pub fits : is_too_large r.content_length ≡ false
  pub header : Negotiated o (scrub r.header) out.header
  pub same : out ≡ record r { header = out.header }

-- What the last steps leave open.
record IsSent (o : Options) (r out : HttpRequest) : Type 0 where
  fits : is_too_large r.content_length ≡ false
  header : Negotiated o r.header out.header
  same : out ≡ record r { header = out.header }

forward-inj : {a b : HttpRequest} → forward a ≡ forward b → a ≡ b
forward-inj h = cc h

check_length_sent :
    (req : Request) (r out : HttpRequest)
    → (check_length req r).action ≡ forward out
    → (is_too_large r.content_length ≡ false) × (r ≡ out)
unfolding check_length
check_length_sent req r out h = elim (Bool-cases (is_too_large r.content_length)) [
  | inl t ↦ cc (rw t at h)
  | inr f ↦ (f, forward-inj (rw f at h))
]

negotiate-IsSent :
    (o : Options) (req : Request) (r out : HttpRequest)
    → (negotiate o req r).action ≡ forward out
    → IsSent o r out
unfolding negotiate
negotiate-IsSent o req r out h = elim (Bool-cases (redaction_enabled o.engine)) [
  | inl s ↦ elim (Option-cases (negotiate_json r.header)) [
    | inl n ↦ cc (rw (s, n) at h)
    | inr (hd, n) ↦
        let (f, e) = check_length_sent req (record r { header = hd }) out (rw (s, n) at h) in
        subst (IsSent o r) e (record { fits = f; header = inl (s, n); same = refl })
  ]
  | inr p ↦
      let (f, e) = check_length_sent req r out (rw p at h) in
      subst (IsSent o r) e (record { fits = f; header = inr (p, refl); same = refl })
]

check_policy-IsSent :
    (o : Options) (req : Request) (r out : HttpRequest)
    → (check_policy o req r).action ≡ forward out
    → ((authorize o.engine req).allow ≡ true) × IsSent o r out
unfolding check_policy
check_policy-IsSent o req r out h = elim (Bool-cases (authorize o.engine req).allow) [
  | inl a ↦ (a, negotiate-IsSent o req r out (rw a at h))
  | inr d ↦ cc (rw d at h)
]

check_path-IsSent :
    (o : Options) (r out : HttpRequest)
    → (check_path o r).action ≡ forward out
    → (req : Request) × (parse o.factory r ≡ some req)
      × (((authorize o.engine req).allow ≡ true) × IsSent o r out)
unfolding check_path
check_path-IsSent o r out h = elim (Option-cases (parse o.factory r)) [
  | inl p ↦ cc (rw (p, check_path) at h)
  | inr (req, p) ↦ (req, p, check_policy-IsSent o req r out (rw (p, check_path) at h))
]

cleared :
    (o : Options) (r out : HttpRequest) (req : Request)
    → is_upgrade r.header ≡ false
    → authenticate o.auth r.header ≡ none
    → parse o.factory (record r { header = scrub r.header }) ≡ some req
    → ((authorize o.engine req).allow ≡ true) × IsSent o (record r { header = scrub r.header }) out
    → IsCleared o r out req
cleared o r out req u a p (permitted, sent) = record {
  no_upgrade = u;
  authenticated = a;
  parsed = p;
  permitted = permitted;
  fits = sent.fits;
  header = sent.header;
  same = sent.same;
}

-- A request is forwarded only if it asks for no protocol upgrade, carries the proxy token, can be
-- parsed once its header is scrubbed, is authorized by the policy as what it was parsed to, and
-- declares no length over the limit; it is forwarded as it came but for its header, which is
-- scrubbed, and in the strict mode negotiated too.
pub authorize_request-IsCleared :
    (o : Options) (r out : HttpRequest)
    → (authorize_request o r).action ≡ forward out
    → (req : Request) × IsCleared o r out req
unfolding authorize_request
authorize_request-IsCleared o r out h = elim (Bool-cases (is_upgrade r.header)) [
  | inl u ↦ cc (rw u at h)
  | inr u ↦ elim (Option-cases (authenticate o.auth r.header)) [
    | inr (e, a) ↦ cc (rw (u, a) at h)
    | inl a ↦
        let (req, p, sent) =
          check_path-IsSent o (record r { header = scrub r.header }) out (rw (u, a) at h) in
        (req, cleared o r out req u a p sent)
  ]
]
