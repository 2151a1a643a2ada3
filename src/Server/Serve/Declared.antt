-- ===== src/Server/Serve/Declared.antt =====
-- The length that a reply declares, against the bytes that it has.
mod Tests
use kubegate.Prelude.{
  ℕ, ◌+◌, String, Bool, true, false, not, ◌&&◌, Option, none, some, List, [], ◌∷◌, length, take,
  take-length, ltb, ◌≡◌, ◌⊎◌, inl, inr, refl, sym, ap, ◌∙◌, arith, Bool-cases,
}
use kubegate.Json.{Bytes, Codec}
use kubegate.Redact.{BodyResult, body, decode_failed, encode_failed, redact_body}
use kubegate.Discovery.Filter
use kubegate.Discovery.Filter.{FilterResult, filter_body}
use kubegate.Policy.Types.{Request}
use kubegate.Policy.Engine.{Engine, redaction_enabled}
use kubegate.Discovery.Documents.{is_discovery_path}
use kubegate.Server.Http.{HttpRequest, Status}
use kubegate.Server.Negotiate.{is_json, is_watch}
use kubegate.Server.Handler.{Options, forward, authorize_request, rewrite}
use kubegate.Server.Response.{
  Response, Modified, untouched, streamed, replaced, not_inspected, not_read, add_change,
  after_filter, redact_step, filter_step, buffer, expects_json, modify_response, proxy_error,
}
use kubegate.Server.Serve.{
  Outside, Wire, StatusRecorder, recorder, set_header, set_length, write_header, write, write_all,
  write_rendered, write_status, copy, redaction_failure, answering, deliver, exchange, act, serve,
}
use kubegate.Server.Serve.Recorded.{total, total-append_one}

-- The reply declares no length, or the one that it has.
abbrev pub Fits : Wire → Type 0
Fits wire = (wire.declared ≡ none) ⊎ (wire.declared ≡ some (total wire.body))

write_declared :
    (w : Outside) (b : Bytes) (s : StatusRecorder) → (write w b s).wire.declared ≡ s.wire.declared
unfolding write
write_declared w b s = refl

write_all-declared :
    (w : Outside) (bs : List Bytes) (s : StatusRecorder)
    → (write_all w bs s).0.wire.declared ≡ s.wire.declared
unfolding write_all write
write_all-declared w [] s = refl
write_all-declared w (b ∷ bs) s = ground (arith, write_all-declared w bs (write w b s))

total-write :
    (w : Outside) (b : Bytes) (s : StatusRecorder)
    → ltb (w.taken s.wire.body) (length b) ≡ false
    → total (write w b s).wire.body ≡ total s.wire.body + length b
unfolding write
total-write w b s h =
    total-append_one s.wire.body (take (w.taken s.wire.body) b)
    ∙ ap (λ x. total s.wire.body + length x) (take-length (w.taken s.wire.body) b h)

-- A body that the client has taken whole.
total-write_all :
    (w : Outside) (bs : List Bytes) (s : StatusRecorder)
    → (write_all w bs s).1 ≡ true
    → total (write_all w bs s).0.wire.body ≡ total s.wire.body + total bs
unfolding write_all
total-write_all w [] s h = omega arith
total-write_all w (b ∷ bs) s h = elim (Bool-cases (ltb (w.taken s.wire.body) (length b))) [
  | inl t ↦ cc (rw t at h)
  | inr f ↦
      let k = total-write_all w bs (write w b s) (rw f at h) in
      let j = total-write w b s f in rw f (omega arith)
]

copy-Fits :
    (w : Outside) (code : ℕ) (content_type : String) (declared : Option ℕ) (bs : List Bytes)
    → (declared ≡ none) ⊎ (declared ≡ some (total bs))
    → (copy w code content_type declared bs recorder).1 ≡ true
    → Fits (copy w code content_type declared bs recorder).0.wire
unfolding write_header set_header set_length
copy-Fits w code content_type declared bs h ok =
    let s =
      write_header code (set_length declared (set_header "Content-Type" content_type recorder)) in
    let d = write_all-declared w bs s in
    let t : total bs ≡ total (write_all w bs s).0.wire.body =
      let k = total-write_all w bs s ok in omega arith in
    elim h [ inl e ↦ inl (d ∙ e) | inr e ↦ inr (d ∙ e ∙ ap some t) ]

total-one : (b : Bytes) → total (b ∷ []) ≡ length b
total-one b = omega arith

both_true : (a b : Bool) → not (a && b) ≡ false → b ≡ true
both_true a b h = ground arith

write_rendered-Fits :
    (w : Outside) (code : ℕ) (b : Option Bytes) → Fits (write_rendered w code b recorder).wire
unfolding write_header set_header write
write_rendered-Fits w code none = inl refl
write_rendered-Fits w code (some b) = inl refl

own-Fits : (w : Outside) (st : Status) → Fits (write_status w st recorder).wire
unfolding write_status
own-Fits w st = write_rendered-Fits w st.code (w.render st)

-- The pipeline does not pass the cluster's own body on.
abbrev IsOwnBody : Modified → Type 0
IsOwnBody untouched = ⊥
IsOwnBody (streamed chunks) = ⊥
IsOwnBody (replaced b changed) = Unit
IsOwnBody not_inspected = Unit
IsOwnBody not_read = Unit

deliver-Fits :
    (w : Outside) (out : HttpRequest) (resp : Response) (m : Modified)
    → IsOwnBody m
    → (deliver w out resp m).aborted ≡ false
    → Fits (deliver w out resp m).recorded.wire
unfolding deliver
deliver-Fits w out resp untouched h ok = absurd h
deliver-Fits w out resp (streamed chunks) h ok = absurd h
deliver-Fits w out resp (replaced b changed) h ok =
    copy-Fits w resp.status resp.content_type (some (length b)) (b ∷ [])
      (inr (ap some (sym (total-one b)))) (both_true true _ ok)
deliver-Fits w out resp not_inspected h ok = own-Fits w (proxy_error redaction_failure)
deliver-Fits w out resp not_read h ok = own-Fits w (proxy_error (w.read_failure out))

add_change-IsOwnBody : (changed : Bool) (r : BodyResult) → IsOwnBody (add_change changed r)
add_change-IsOwnBody changed (body out more) = tt
add_change-IsOwnBody changed decode_failed = tt
add_change-IsOwnBody changed encode_failed = tt

redact_step-IsOwnBody :
    (codec : Codec) (e : Engine) (resp : Response) (out : Bytes) (changed : Bool)
    → IsOwnBody (redact_step codec e resp out changed)
unfolding redact_step
redact_step-IsOwnBody codec e resp out changed =
    ground (arith, add_change-IsOwnBody changed (redact_body codec out))

after_filter-IsOwnBody :
    (codec : Codec) (e : Engine) (resp : Response) (f : FilterResult)
    → IsOwnBody (after_filter codec e resp f)
after_filter-IsOwnBody codec e resp (Filter.passed out changed) =
    redact_step-IsOwnBody codec e resp out changed
after_filter-IsOwnBody codec e resp (Filter.refused err) = tt

buffer-IsOwnBody :
    (codec : Codec) (limit : ℕ) (e : Engine) (resp : Response)
    → IsOwnBody (buffer codec limit e resp)
unfolding buffer filter_step
buffer-IsOwnBody codec limit e resp = ground (
  arith,
  after_filter-IsOwnBody codec e resp (filter_body codec e resp.path resp.body),
  redact_step-IsOwnBody codec e resp resp.body false,
)

-- An answer that the pipeline has to look at whole: JSON, of a discovery path or, in the strict mode, of
-- anything but a watch; and in the strict mode also what is not JSON where JSON is expected.
abbrev pub IsTakenWhole : Engine → Request → Response → Type 0
IsTakenWhole e req resp =
    ((is_json resp.content_type ≡ true)
      × ((is_discovery_path resp.path ≡ true)
          ⊎ ((redaction_enabled e ≡ true) × (is_watch req resp.follow ≡ false))))
    ⊎ ((is_json resp.content_type ≡ false)
        × (redaction_enabled e ≡ true)
        × (expects_json req resp ≡ true))

modify_response-IsOwnBody :
    (codec : Codec) (limit : ℕ) (e : Engine) (req : Request) (resp : Response)
    → IsTakenWhole e req resp
    → IsOwnBody (modify_response codec limit e req resp)
unfolding modify_response
modify_response-IsOwnBody codec limit e req resp h =
    ground (arith, buffer-IsOwnBody codec limit e resp)

exchange-Fits :
    (w : Outside) (e : Engine) (req : Request) (out : HttpRequest) (resp : Response)
    → IsTakenWhole e req (answering out resp)
    → (exchange w e req out (some resp)).aborted ≡ false
    → Fits (exchange w e req out (some resp)).recorded.wire
unfolding exchange
exchange-Fits w e req out resp h ok =
    deliver-Fits w out (answering out resp)
      (modify_response w.codec w.limit e req (answering out resp))
      (modify_response-IsOwnBody w.codec w.limit e req (answering out resp) h) ok

-- Where a request is forwarded and its answer is one that the pipeline takes whole, whatever length the
-- cluster has declared for it: the reply declares no length, or exactly as many bytes as are written of
-- it, unless it is broken off. Taken whole is JSON, of a discovery path or in the strict mode of anything
-- but a watch, and in the strict mode also what is not JSON where a successful answer must be.
pub serve-Fits :
    (w : Outside) (o : Options) (r out : HttpRequest) (resp : Response)
    → (authorize_request o r).action ≡ forward out
    → w.round_trip (rewrite w.base out) ≡ some resp
    → IsTakenWhole o.engine (authorize_request o r).request (answering (rewrite w.base out) resp)
    → (serve w o r).aborted ≡ false
    → Fits (serve w o r).recorded.wire
unfolding serve act
serve-Fits w o r out resp f a h =
    rw (f, a) (exchange-Fits w o.engine (authorize_request o r).request (rewrite w.base out) resp h)
