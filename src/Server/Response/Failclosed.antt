-- ===== src/Server/Response/Failclosed.antt =====
-- The strict mode passes nothing on that it has not inspected.
use kubegate.Prelude.{
  arith, ◌⊎◌, ℕ, ◌≡◌, refl, inl, inr, subst, Bool, true, false, not, ◌&&◌, ◌||◌, Bool-cases,
  and_left, eqb, ltb, length,
}
use kubegate.Json.{Bytes, Codec}
use kubegate.Policy.Types.{Request}
use kubegate.Policy.Engine.{Engine, redaction_enabled}
use kubegate.Redact.{redact_body, BodyResult, body, decode_failed, encode_failed}
use kubegate.Discovery.Documents.{is_discovery_path}
use kubegate.Discovery.Filter
use kubegate.Discovery.Filter.{FilterResult, filter_body}
use kubegate.Server.Negotiate.{is_json, is_watch}
use kubegate.Server.Response.{
  Response, Modified, streamed, replaced, not_inspected, not_read, add_change, after_filter,
  redact_step, filter_step, buffer, expects_json, modify_response,
}

-- What redaction was given: the filtered body where the path is one of discovery, else the body.
abbrev pub Comes : Codec → Engine → Response → Bytes → Type 0
Comes codec e resp source =
    ((is_discovery_path resp.path ≡ true)
      × ((changed : Bool) × (filter_body codec e resp.path resp.body
            ≡ Filter.passed source changed)))
    ⊎ ((is_discovery_path resp.path ≡ false) × (source ≡ resp.body))

-- A body is passed on as a redacted one, frames go through the frame reader, or nothing is sent.
pub data IsInspected (codec : Codec) (e : Engine) (resp : Response) : Modified → Type 0 where
  by_frame : is_discovery_path resp.path ≡ false → IsInspected codec e resp (streamed resp.chunks)
  by_body :
      (source out : Bytes) (more changed : Bool)
      → Comes codec e resp source
      → redact_body codec source ≡ body out more
      → IsInspected codec e resp (replaced out changed)
  failed : IsInspected codec e resp not_inspected
  unread : IsInspected codec e resp not_read

add_change-IsInspected :
    (codec : Codec) (e : Engine) (resp : Response) (source : Bytes) (changed : Bool)
    (b : BodyResult)
    → Comes codec e resp source
    → redact_body codec source ≡ b
    → IsInspected codec e resp (add_change changed b)
add_change-IsInspected codec e resp source changed (body out more) c h =
    by_body source out more _ c h
add_change-IsInspected codec e resp source changed decode_failed c h = failed
add_change-IsInspected codec e resp source changed encode_failed c h = failed

module _ (codec : Codec) (e : Engine) (resp : Response) (strict : redaction_enabled e ≡ true)
    (ok : eqb resp.status 200 ≡ true) where
  stepped :
      (out : Bytes) (changed : Bool)
      → add_change changed (redact_body codec out) ≡ redact_step codec e resp out changed
  unfolding redact_step
  stepped out changed = rw (strict, ok)

  redact_step-IsInspected :
      (out : Bytes) (changed : Bool)
      → Comes codec e resp out
      → IsInspected codec e resp (redact_step codec e resp out changed)
  redact_step-IsInspected out changed c =
      subst (IsInspected codec e resp) (stepped out changed)
        (add_change-IsInspected codec e resp out changed _ c refl)

  after_filter-IsInspected :
      (f : FilterResult)
      → is_discovery_path resp.path ≡ true
      → filter_body codec e resp.path resp.body ≡ f
      → IsInspected codec e resp (after_filter codec e resp f)
  after_filter-IsInspected (Filter.passed out changed) d h =
      redact_step-IsInspected out changed (inl (d, (changed, h)))
  after_filter-IsInspected (Filter.refused err) d h = failed

  filtered :
      is_discovery_path resp.path ≡ true
      → after_filter codec e resp (filter_body codec e resp.path resp.body)
        ≡ filter_step codec e resp
  unfolding filter_step
  filtered d = rw (d, ok)

  not_filtered :
      is_discovery_path resp.path ≡ false
      → redact_step codec e resp resp.body false ≡ filter_step codec e resp
  unfolding filter_step
  not_filtered n = rw n

  filter_step-IsInspected : IsInspected codec e resp (filter_step codec e resp)
  filter_step-IsInspected = elim (Bool-cases (is_discovery_path resp.path)) [
    | inl d ↦ subst (IsInspected codec e resp) (filtered d) (after_filter-IsInspected _ d refl)
    | inr n ↦
        subst (IsInspected codec e resp) (not_filtered n)
          (redact_step-IsInspected resp.body false (inr (n, refl)))
  ]

  buffer-IsInspected : (limit : ℕ) → IsInspected codec e resp (buffer codec limit e resp)
  unfolding buffer
  buffer-IsInspected limit = elim (Bool-cases (not resp.reads || not resp.closes)) [
    | inl t ↦ rw t unread
    | inr f ↦ elim (Bool-cases (ltb limit (length resp.body))) [
      | inl t ↦ rw (f, t) failed
      | inr n ↦ rw (f, n) filter_step-IsInspected
    ]
  ]

not_discovery : (a b : Bool) → (not a && b) ≡ true → a ≡ false
not_discovery a b h = ground arith

expects_json-ok :
    (req : Request) (resp : Response) → expects_json req resp ≡ true → eqb resp.status 200 ≡ true
unfolding expects_json
expects_json-ok req resp h = and_left _ _ h

modify_response_buffered :
    (codec : Codec) (limit : ℕ) (e : Engine) (req : Request) (resp : Response)
    → redaction_enabled e ≡ true
    → is_json resp.content_type ≡ true
    → (not (is_discovery_path resp.path) && is_watch req resp.follow) ≡ false
    → buffer codec limit e resp ≡ modify_response codec limit e req resp
unfolding modify_response
modify_response_buffered codec limit e req resp strict j b = rw (strict, j, b)

-- In the strict mode a successful response to a discovery request or to a request for a resource
-- (logs aside), whatever content type it claims and whatever its length, is never passed through as
-- it came: its frames go through the redacting frame reader, which no discovery document's do, or its
-- body, at a discovery path as the filter left it, is one that redaction returned, or no body is sent.
pub modify_response-IsInspected :
    (codec : Codec) (limit : ℕ) (e : Engine) (req : Request) (resp : Response)
    → redaction_enabled e ≡ true
    → expects_json req resp ≡ true
    → IsInspected codec e resp (modify_response codec limit e req resp)
unfolding modify_response expects_json
modify_response-IsInspected codec limit e req resp strict expected =
    elim (Bool-cases (is_json resp.content_type)) [
      | inr n ↦ rw (strict, n, expected) failed
      | inl j ↦ elim (Bool-cases (not (is_discovery_path resp.path) && is_watch req resp.follow)) [
        | inl w ↦ rw (strict, j, w) (by_frame (not_discovery _ _ w))
        | inr b ↦
            subst (IsInspected codec e resp)
              (modify_response_buffered codec limit e req resp strict j b)
              (buffer-IsInspected codec e resp strict (expects_json-ok req resp expected) limit)
      ]
    ]
