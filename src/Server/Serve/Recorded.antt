-- ===== src/Server/Serve/Recorded.antt =====
-- The audit entry and the reply.
use kubegate.Prelude.{
  ℕ, ◌+◌, ◌≡◌, ◌⊎◌, ◌↔◌, arith, Bool, true, false, Option, some, List, [], ◌∷◌, ◌++◌, length,
}
use kubegate.Json.{Bytes}
use kubegate.Policy.Types.{Request}
use kubegate.Policy.Engine.{Engine}
use kubegate.Audit.{Entry}
use kubegate.Server.Http.{HttpRequest}
use kubegate.Server.Handler.{Options, Action, forward, authorize_request, rewrite}
use kubegate.Server.Response.{Response, replaced, modify_response}
use kubegate.Server.Serve.{StatusRecorder, Outside, answering, Served, serve}

-- The bytes of a body that was written in pieces.
abbrev pub total : List Bytes → ℕ
total [] = 0
total (b ∷ bs) = length b + total bs

-- The status that was recorded is the one that was written, and so many bytes were taken.
pub record IsConsistent (s : StatusRecorder) : Type 0 where
  pub status : s.wire.status ≡ some s.status
  pub bytes : s.bytes ≡ total s.wire.body

pub total-append_one : (bs : List Bytes) (b : Bytes) → total (bs ++ b ∷ []) ≡ total bs + length b
total-append_one [] b = ground arith
total-append_one (c ∷ bs) b = omega (arith, total-append_one bs b)

-- A reply is consistent, and one request was sent for it.
abbrev IsSentAs : HttpRequest → Served → Type 0
IsSentAs out s = IsConsistent s.recorded × (s.sent ≡ out ∷ [])

-- What was decided is what was done.
abbrev pub IsDone : Outside → Served → Bool → Type 0
IsDone w s allow =
    ((allow ≡ true) × ((out : HttpRequest) × (s.sent ≡ rewrite w.base out ∷ [])))
    ⊎ ((allow ≡ false) × (s.sent ≡ []))

abbrev IsHandled : Outside → Served → Bool → Type 0
IsHandled w s allow = IsConsistent s.recorded × IsDone w s allow

-- The pipeline has replaced the body of the cluster's answer by another one.
abbrev pub Changes : Outside → Options → Request → Action → Type 0
Changes w o req a =
    (out : HttpRequest) × (resp : Response) × (b : Bytes) × (a ≡ forward out)
    × (w.round_trip (rewrite w.base out) ≡ some resp)
    × (modify_response w.codec w.limit o.engine req (answering (rewrite w.base out) resp)
        ≡ replaced b true)

-- The entry tells what was decided, what was done, what was written to the client's side, and whether the
-- body was changed.
pub record IsAccurate (w : Outside) (o : Options) (r : HttpRequest) (e : Entry) : Type 0 where
  pub status : (serve w o r).recorded.wire.status ≡ some e.status
  pub bytes : e.bytes ≡ total (serve w o r).recorded.wire.body
  pub done : IsDone w (serve w o r) e.decision.allow
  pub redacted :
      (e.redacted ≡ true)
      ↔ Changes w o (authorize_request o r).request (authorize_request o r).action
