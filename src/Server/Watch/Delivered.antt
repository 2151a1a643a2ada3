-- ===== src/Server/Watch/Delivered.antt =====
-- The two sides of a watch, against the reply of Server/Serve, which copies what `Stream` has written.
use kubegate.Prelude.{
  Bool, true, false, not, ◌&&◌, Option, none, some, List, [], ◌∷◌, ◌++◌, length, take-length, ltb,
  ◌≡◌, refl, sym, ap, ◌∙◌, arith, Bool-cases, inl, inr,
}
use mathlib.Core.List.{append_assoc, append-nil, flatten}
use kubegate.Json.{Bytes}
use kubegate.Redact.Stream.{Chunk, StreamError, stream}
use kubegate.Server.Http.{HttpRequest}
use kubegate.Server.Response.{Response, streamed}
use kubegate.Server.Serve.{
  Outside, StatusRecorder, set_header, set_length, write_header, write, write_all, pipe,
  is_finished, deliver,
}
use kubegate.Server.Watch.{System, finished, Reach}
use kubegate.Server.Watch.Copied.{outcome, got-stream}

write_whole :
    (w : Outside) (b : Bytes) (s : StatusRecorder)
    → ltb (w.taken s.wire.body) (length b) ≡ false
    → (write w b s).wire.body ≡ s.wire.body ++ b ∷ []
unfolding write
write_whole w b s h = ap (λ x. s.wire.body ++ x ∷ []) (take-length (w.taken s.wire.body) b h)

-- The client has all writes of a body that it has taken whole.
write_all_whole :
    (w : Outside) (bs : List Bytes) (s : StatusRecorder)
    → (write_all w bs s).1 ≡ true
    → (write_all w bs s).0.wire.body ≡ s.wire.body ++ bs
unfolding write_all
write_all_whole w [] s h = sym (append-nil s.wire.body)
write_all_whole w (b ∷ bs) s h = elim (Bool-cases (ltb (w.taken s.wire.body) (length b))) [
  | inl t ↦ cc (rw t at h)
  | inr f ↦ rw f (
      write_all_whole w bs (write w b s) (rw f at h)
      ∙ ap (λ x. x ++ bs) (write_whole w b s f)
      ∙ append_assoc s.wire.body (b ∷ []) bs)
]

outcome-none : (e : Option StreamError) → is_finished (outcome e) ≡ true → e ≡ none
outcome-none none h = refl
outcome-none (some e) h = cc h

both_hold : (a b : Bool) → not (a && b) ≡ false → (a ≡ true) × (b ≡ true)
both_hold a b h = ground arith

-- Where the reply in which the goroutine runs first, and all that it wrote is copied then, is not broken
-- off: however the goroutine's steps and the copying interleave, a client that has read the end of the
-- watch has been given that reply's body, and the end comes without an error.
pub got-deliver :
    (w : Outside) (out : HttpRequest) (resp : Response) (chunks : List Chunk) (s : System)
    (e : Option StreamError)
    → Reach w.codec chunks s
    → s.reader ≡ finished e
    → (deliver w out resp (streamed chunks)).aborted ≡ false
    → (s.got ≡ flatten (deliver w out resp (streamed chunks)).recorded.wire.body) × (e ≡ none)
unfolding deliver write_header set_header set_length
got-deliver w out resp chunks s e r h ok =
    let (done, all) = both_hold (is_finished (stream w.codec chunks pipe).0) _ ok in
    let (got, same) = got-stream w.codec chunks s e r h in
    (
      got ∙ ap flatten (sym (write_all_whole w (stream w.codec chunks pipe).1.written _ all)),
      outcome-none e (sym (ap is_finished same) ∙ done),
    )
