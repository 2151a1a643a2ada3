-- ===== src/Server/Handler/Recorded.antt =====
-- What the audit log says of a request.
use kubegate.Prelude.{◌≡◌, ◌⊎◌, inl, inr, refl, true, false, Bool-cases, Option-cases}
use kubegate.Policy.Types.{Request}
use kubegate.Policy.Engine.{authorize, redaction_enabled}
use kubegate.Authn.{authenticate, scrub}
use kubegate.Server.Http.{HttpRequest, Status, parse}
use kubegate.Server.Negotiate.{is_upgrade, negotiate_json}
use kubegate.Server.Handler.{
  Options, reply, forward, Verdict, check_length, is_too_large, negotiate, check_policy, check_path,
  authorize_request,
}

-- The decision that is recorded says what was done.
abbrev pub IsTrue : Verdict → Type 0
IsTrue v =
    ((v.decision.allow ≡ true) × ((out : HttpRequest) × (v.action ≡ forward out)))
    ⊎ ((v.decision.allow ≡ false) × ((status : Status) × (v.action ≡ reply status)))

check_length-IsTrue : (req : Request) (r : HttpRequest) → IsTrue (check_length req r)
unfolding check_length
check_length-IsTrue req r = elim (Bool-cases (is_too_large r.content_length)) [
  | inl t ↦ rw t (inr (refl, (_, refl)))
  | inr f ↦ rw f (inl (refl, (_, refl)))
]

negotiate-IsTrue : (o : Options) (req : Request) (r : HttpRequest) → IsTrue (negotiate o req r)
unfolding negotiate
negotiate-IsTrue o req r = elim (Bool-cases (redaction_enabled o.engine)) [
  | inr p ↦ rw p (check_length-IsTrue req r)
  | inl s ↦ elim (Option-cases (negotiate_json r.header)) [
    | inl n ↦ rw (s, n) (inr (refl, (_, refl)))
    | inr (h, n) ↦ rw (s, n) (check_length-IsTrue req (record r { header = h }))
  ]
]

check_policy-IsTrue :
    (o : Options) (req : Request) (r : HttpRequest) → IsTrue (check_policy o req r)
unfolding check_policy
check_policy-IsTrue o req r = elim (Bool-cases (authorize o.engine req).allow) [
  | inl a ↦ rw a (negotiate-IsTrue o req r)
  | inr d ↦ rw d (inr (refl, (_, refl)))
]

check_path-IsTrue : (o : Options) (r : HttpRequest) → IsTrue (check_path o r)
unfolding check_path
check_path-IsTrue o r = elim (Option-cases (parse o.factory r)) [
  | inl n ↦ rw (n, check_path) (inr (refl, (_, refl)))
  | inr (req, p) ↦ rw (p, check_path) (check_policy-IsTrue o req r)
]

-- The audit log tells the truth: the decision that is recorded for a request allows it and the
-- request is forwarded, or it denies it and the handler replies itself.
pub authorize_request-IsTrue : (o : Options) (r : HttpRequest) → IsTrue (authorize_request o r)
unfolding authorize_request
authorize_request-IsTrue o r = elim (Bool-cases (is_upgrade r.header)) [
  | inl u ↦ rw u (inr (refl, (_, refl)))
  | inr u ↦ elim (Option-cases (authenticate o.auth r.header)) [
    | inr (e, a) ↦ rw (u, a) (inr (refl, (_, refl)))
    | inl a ↦ rw (u, a) (check_path-IsTrue o (record r { header = scrub r.header }))
  ]
]
