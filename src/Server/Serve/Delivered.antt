-- ===== src/Server/Serve/Delivered.antt =====
-- What a client of the strict mode receives of a response.
use kubegate.Prelude.{
  ℕ, take, take_rest, take-length, length, ltb, String, Bool-cases, ◌≡◌, ◌⊎◌, inl, inr, refl, sym,
  ap, subst, ◌∙◌, Bool, true, Option, none, some, List, [], ◌∷◌, ◌++◌, All,
}
use mathlib.Core.List.{append_assoc, append-nil}
use kubegate.Json.{Bytes}
use kubegate.Policy.Types.{Request}
use kubegate.Policy.Engine.{Engine, redaction_enabled}
use kubegate.Redact.Body.{Inspected, redact_body_clean}
use kubegate.Redact.Stream.{stream}
use kubegate.Redact.Stream.Frames.{IsPassed, stream-IsPassed}
use kubegate.Server.Http.{HttpRequest, Status}
use kubegate.Server.Handler.{Options, forward, authorize_request, rewrite}
use kubegate.Server.Response.{Response, Modified, expects_json, modify_response, proxy_error}
use kubegate.Server.Response.Failclosed.{
  Comes, IsInspected, by_frame, by_body, failed, unread, modify_response-IsInspected,
}
use kubegate.Server.Serve.{
  copy, StatusRecorder, recorder, pipe, write_header, write, write_all, set_header, set_length,
  Outside, redaction_failure, write_rendered, write_status, deliver, answering, exchange, act,
  serve,
}

-- A message of the proxy's own, or the fallback where it cannot be rendered.
abbrev pub IsOwn : Outside → List Bytes → Type 0
IsOwn w out =
    (st : Status) × (((b : Bytes) × ((w.render st ≡ some b) × (out ≡ b ∷ [])))
      ⊎ (out ≡ w.error_text ∷ []))

-- What may be sent: one body that redaction inspected, of what the filter or the cluster gave; frames
-- whose objects are clean; or a message of the proxy's own.
pub data IsSafe (w : Outside) (e : Engine) (resp : Response) (full : List Bytes) : Type 0 where
  cleaned :
      (source b : Bytes) (changed : Bool)
      → Comes w.codec e resp source
      → Inspected w.codec source b changed
      → full ≡ b ∷ []
      → IsSafe w e resp full
  frames : All (IsPassed w.codec) full → IsSafe w e resp full
  own : IsOwn w full → IsSafe w e resp full

-- What arrives of some writes: all, or those before one that arrives in part.
pub data IsCut (full got : List Bytes) : Type 0 where
  whole : got ≡ full → IsCut full got
  broken :
      (before after : List Bytes) (piece rest : Bytes)
      → full ≡ before ++ (piece ++ rest) ∷ after
      → got ≡ before ++ piece ∷ []
      → IsCut full got

-- What http.ResponseWriter has taken for the client is what may be sent, or the beginning of it.
pub record IsDelivered (w : Outside) (e : Engine) (resp : Response) (got : List Bytes)
    : Type 0 where
  pub full : List Bytes
  pub safe : IsSafe w e resp full
  pub cut : IsCut full got

IsCut-take : (n : ℕ) (b : Bytes) (bs : List Bytes) → IsCut (b ∷ bs) (take n b ∷ [])
IsCut-take n b bs =
    let (rest, e) = take_rest n b in broken [] bs (take n b) rest (ap (λ x. x ∷ bs) e) refl

IsCut-cons : (b : Bytes) {bs got : List Bytes} → IsCut bs got → IsCut (b ∷ bs) (b ∷ got)
IsCut-cons b (whole e) = whole (ap (λ x. b ∷ x) e)
IsCut-cons b (broken before after piece rest f g) =
    broken (b ∷ before) after piece rest (ap (λ x. b ∷ x) f) (ap (λ x. b ∷ x) g)

-- What the client has after a body has been copied, by what it had before.
abbrev Adds : List Bytes → List Bytes → List Bytes → Type 0
Adds bs old new = (got : List Bytes) × ((new ≡ old ++ got) × IsCut bs got)

write-body :
    (w : Outside) (b : Bytes) (s : StatusRecorder)
    → (write w b s).wire.body ≡ s.wire.body ++ take (w.taken s.wire.body) b ∷ []
unfolding write
write-body w b s = refl

write_all-Adds :
    (w : Outside) (bs : List Bytes) (s : StatusRecorder)
    → Adds bs s.wire.body (write_all w bs s).0.wire.body
unfolding write_all
write_all-Adds w [] s = ([], (sym (append-nil s.wire.body), whole refl))
write_all-Adds w (b ∷ bs) s = elim (Bool-cases (ltb (w.taken s.wire.body) (length b))) [
  | inr t ↦
      let (got, (e, c)) = write_all-Adds w bs (write w b s) in
      let same = take-length (w.taken s.wire.body) b t in
      rw t (
        b ∷ got,
        (
          (e
              ∙ ap (λ x. x ++ got) (write-body w b s ∙ ap (λ x. s.wire.body ++ x ∷ []) same)
              ∙ append_assoc s.wire.body (b ∷ []) got),
          IsCut-cons b c,
        ),
      )
  | inl f ↦ rw f (take (w.taken s.wire.body) b ∷ [], (write-body w b s, IsCut-take _ b bs))
]

copied-IsCut :
    (w : Outside) (code : ℕ) (content_type : String) (declared : Option ℕ) (bs : List Bytes)
    → IsCut bs (copy w code content_type declared bs recorder).0.wire.body
unfolding set_header set_length write_header
copied-IsCut w code content_type declared bs =
    let (got, (e, c)) =
      write_all-Adds w bs (
        write_header code
          (set_length declared (set_header "Content-Type" content_type recorder))) in
    subst (IsCut bs) (sym e) c

-- A message of the proxy's own, as it arrives.
abbrev Tells : Outside → List Bytes → Type 0
Tells w got = (full : List Bytes) × (IsOwn w full × IsCut full got)

write_rendered-Tells :
    (w : Outside) (st : Status) (b : Option Bytes)
    → w.render st ≡ b
    → Tells w (write_rendered w st.code b recorder).wire.body
unfolding write_header set_header write
write_rendered-Tells w st none e = (w.error_text ∷ [], ((st, inr refl), IsCut-take _ _ []))
write_rendered-Tells w st (some b) e = (b ∷ [], ((st, inl (b, (e, refl))), IsCut-take _ b []))

own-IsDelivered :
    (w : Outside) (e : Engine) (resp : Response) (st : Status)
    → IsDelivered w e resp (write_status w st recorder).wire.body
unfolding write_status
own-IsDelivered w e resp st =
    let (full, (o, c)) = write_rendered-Tells w st _ refl in
    record { full = full; safe = own o; cut = c }

deliver-IsDelivered :
    (w : Outside) (e : Engine) (out : HttpRequest) (resp : Response) {m : Modified}
    → IsInspected w.codec e resp m
    → IsDelivered w e resp (deliver w out resp m).recorded.wire.body
unfolding deliver
deliver-IsDelivered w e out resp (by_frame d) = record {
  full = (stream w.codec resp.chunks pipe).1.written;
  safe = frames (stream-IsPassed w.codec resp.chunks pipe tt);
  cut = copied-IsCut w resp.status resp.content_type _ _;
}
deliver-IsDelivered w e out resp (by_body source b more changed c h) = record {
  full = b ∷ [];
  safe = cleaned source b more c (redact_body_clean w.codec source b more h) refl;
  cut = copied-IsCut w resp.status resp.content_type _ _;
}
deliver-IsDelivered w e out resp failed = own-IsDelivered w e resp (proxy_error redaction_failure)
deliver-IsDelivered w e out resp unread =
    own-IsDelivered w e resp (proxy_error (w.read_failure out))

module _ (w : Outside) (o : Options) (r out : HttpRequest) (resp : Response) where
  abbrev sent_as : HttpRequest
  sent_as = rewrite w.base out

  abbrev answered : Response
  answered = answering sent_as resp

  abbrev parsed : Request
  parsed = (authorize_request o r).request

  serve-answered :
      (authorize_request o r).action ≡ forward out
      → w.round_trip sent_as ≡ some resp
      → serve w o r
        ≡ deliver w sent_as answered (modify_response w.codec w.limit o.engine parsed answered)
  unfolding serve act exchange
  serve-answered f a = ap (act w o parsed) f ∙ ap (exchange w o.engine parsed sent_as) a

-- End to end: where a strict handler forwards a request and the cluster answers, with whatever it likes,
-- and the answer is a successful one to a discovery request or to a request for a resource (logs aside),
-- http.ResponseWriter is given nothing for the client but a single body that redaction inspected, redacted
-- frames, or a message of the proxy's own, and takes all of it or its beginning.
pub serve-IsDelivered :
    (w : Outside) (o : Options) (r out : HttpRequest) (resp : Response)
    → redaction_enabled o.engine ≡ true
    → (authorize_request o r).action ≡ forward out
    → w.round_trip (rewrite w.base out) ≡ some resp
    → expects_json (authorize_request o r).request (answering (rewrite w.base out) resp) ≡ true
    → IsDelivered w o.engine (answering (rewrite w.base out) resp) (serve w o r).recorded.wire.body
serve-IsDelivered w o r out resp strict f a x =
    subst (λ s. IsDelivered w o.engine (answered w o r out resp) s.recorded.wire.body)
      (sym (serve-answered w o r out resp f a))
      (deliver-IsDelivered w o.engine (sent_as w o r out resp) (answered w o r out resp) (
        modify_response-IsInspected w.codec w.limit o.engine (parsed w o r out resp)
          (answered w o r out resp) strict x))
