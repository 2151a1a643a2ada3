-- ===== src/Server/Watch/Ends.antt =====
-- The end of a watch: the goroutine and the copying neither run forever nor wait for each other forever.
use kubegate.Prelude.{
  ℕ, suc, ◌+◌, ◌≤◌, ◌<◌, Option, none, some, List, [], ◌∷◌, ◌++◌, length, length-append, ◌≡◌, ◌≢◌,
  ◌⊎◌, inl, inr, refl, sym, ap, subst, ◌∙◌, arith,
}
use mathlib.Core.List.{append-nil, flatten}
use kubegate.Json.{Bytes, Codec}
use kubegate.Redact.Stream.{Chunk, StreamError, write_failed, read_frame, stream}
use kubegate.Redact.Stream.Ends.{read_frame-rest}
use kubegate.Redact.Stream.Attempts.{Attempt, nothing, fails, offers, attempt, follow, run_of}
use kubegate.Server.Serve.{pipe}
use kubegate.Server.Watch.{
  Writer, reading, offering, ended, closed, Reader, copying, finished, left, System, start, after,
  on_attempt, round, Step, read_source, take_piece, write_returns, write_refused, source_severed,
  close_both, read_end, leave, Reach, here, next,
}
use kubegate.Server.Watch.Copied.{future, flat, future-after, future-round, alone}

-- The rounds that are left, and what is left of this one.
abbrev weight : Writer → ℕ
weight (reading src) = length src + length src + 3
weight (offering bytes none src) = length src + length src + 4
weight (offering bytes (some e) src) = 2
weight (ended e) = 1
weight (closed e) = 0

abbrev live : Reader → ℕ
live copying = 1
live (finished e) = 0
live left = 0

abbrev writer_measure : Codec → Writer → ℕ
writer_measure codec w = length (future codec w).1 + weight w

abbrev measure : Codec → System → ℕ
measure codec s = writer_measure codec s.writer + live s.reader

after_weight :
    (bytes : Bytes) (err : Option StreamError) (src : List Chunk)
    → weight (after err src) < weight (offering bytes err src)
after_weight bytes none src = omega arith
after_weight bytes (some e) src = ground arith

weight-on_attempt :
    (a : Attempt) (err : Option StreamError) (rest : List Chunk) (n : ℕ)
    → (err ≢ none) ⊎ (length rest < n)
    → weight (on_attempt a err rest) < n + n + 3
weight-on_attempt (fails e) err rest n h = omega arith
weight-on_attempt nothing (some e) rest n h = ground arith
weight-on_attempt nothing none rest n (inl h) = absurd (h refl)
weight-on_attempt nothing none rest n (inr h) = omega arith
weight-on_attempt (offers out) (some e) rest n h = omega arith
weight-on_attempt (offers out) none rest n (inl h) = absurd (h refl)
weight-on_attempt (offers out) none rest n (inr h) = omega arith

weight-round : (codec : Codec) (src : List Chunk) → weight (round codec src) < weight (reading src)
unfolding round
weight-round codec src =
    let frame = read_frame [] src in
    weight-on_attempt (attempt codec frame.line) frame.err frame.rest (length src)
      (read_frame-rest [] src)

round_measure :
    (codec : Codec) (src : List Chunk)
    → writer_measure codec (round codec src) < writer_measure codec (reading src)
round_measure codec src =
    let e = ap (λ f. length f.1) (future-round codec src) in
    let h = weight-round codec src in omega arith

write_measure :
    (codec : Codec) (err : Option StreamError) (src : List Chunk)
    → writer_measure codec (after err src) < writer_measure codec (offering [] err src)
write_measure codec err src =
    let e = ap (λ f. length f.1) (future-after codec err src) in
    let h = after_weight [] err src in omega arith

-- Where the goroutine alone makes the step.
writer_decreases :
    (codec : Codec) (s t : System) (v w : Writer)
    → writer_measure codec w < writer_measure codec v
    → s.writer ≡ v
    → t ≡ record s { writer = w }
    → measure codec t < measure codec s
writer_decreases codec s t v w h e et =
    let k = ap (writer_measure codec) e in let k' = ap (measure codec) et in omega arith

-- Where the copying ends.
reader_decreases :
    (codec : Codec) (s t : System) (r : Reader)
    → live r ≡ 0
    → s.reader ≡ copying
    → t ≡ record s { reader = r }
    → measure codec t < measure codec s
reader_decreases codec s t r h e et =
    let k = ap live e in let k' = ap (measure codec) et in omega arith

offering_weight :
    (bytes : Bytes) (err : Option StreamError) (src : List Chunk)
    → 1 < weight (offering bytes err src)
offering_weight bytes none src = omega arith
offering_weight bytes (some e) src = omega arith

refused_measure :
    (codec : Codec) (bytes : Bytes) (err : Option StreamError) (src : List Chunk)
    (e : Option StreamError)
    → writer_measure codec (ended e) < writer_measure codec (offering bytes err src)
refused_measure codec bytes err src e = let h = offering_weight bytes err src in omega arith

same_weight :
    (b c : Bytes) (err : Option StreamError) (src : List Chunk)
    → weight (offering b err src) ≡ weight (offering c err src)
same_weight b c none src = refl
same_weight b c (some e) src = refl

nonempty_length : (b : Bytes) → b ≢ [] → 0 < length b
nonempty_length [] n = absurd (n refl)
nonempty_length (c ∷ cs) n = omega arith

taken_measure :
    (codec : Codec) (piece rest : Bytes) (err : Option StreamError) (src : List Chunk)
    → piece ≢ []
    → writer_measure codec (offering rest err src)
      < writer_measure codec (offering (piece ++ rest) err src)
taken_measure codec piece rest err src n =
    let more = (flat (follow err (run_of codec src))).1 in
    let h = same_weight rest (piece ++ rest) err src in
    let l = nonempty_length piece n in
    let k = length-append rest more in
    let k' = length-append (piece ++ rest) more in let k'' = length-append piece rest in omega arith

step_measure : (codec : Codec) (s t : System) → Step codec s t → measure codec t < measure codec s
step_measure codec s t (read_source src e et) =
    writer_decreases codec s t (reading src) (round codec src) (round_measure codec src) e et
step_measure codec s t (take_piece piece rest err src e n r et) =
    let k = ap (writer_measure codec) e in
    let k' = ap (measure codec) et in
    let h = taken_measure codec piece rest err src n in omega arith
step_measure codec s t (write_returns err src e et) =
    writer_decreases codec s t (offering [] err src) (after err src) (write_measure codec err src) e
      et
step_measure codec s t (write_refused bytes err src e n r et) =
    writer_decreases codec s t (offering bytes err src) (ended (some write_failed))
      (refused_measure codec bytes err src (some write_failed)) e et
step_measure codec s t (source_severed src x e r et) =
    writer_decreases codec s t (reading src) (ended (some x)) (omega arith) e et
step_measure codec s t (close_both x e et) =
    writer_decreases codec s t (ended x) (closed x) (omega arith) e et
step_measure codec s t (read_end x e r et) = reader_decreases codec s t (finished x) refl r et
step_measure codec s t (leave r et) = reader_decreases codec s t left refl r et

-- A run of so many steps.
pub data Steps (codec : Codec) : ℕ → System → System → Type 0 where
  stays : {s : System} → Steps codec 0 s s
  goes : {n : ℕ} {s t u : System} → Steps codec n s t → Step codec t u → Steps codec (suc n) s u

Steps-measure :
    (codec : Codec) (n : ℕ) (s t : System)
    → Steps codec n s t
    → n + measure codec t ≤ measure codec s
Steps-measure codec n s t stays = omega arith
Steps-measure codec (suc n) s u (goes {t} r st) =
    let h = Steps-measure codec n s t r in let k = step_measure codec t u st in omega arith

-- However the goroutine's steps and the copying interleave, a watch ends: no run of it has more steps
-- than two for each answer of the reader, one for each byte that `Stream` alone writes, and four.
pub Steps-bound :
    (codec : Codec) (src : List Chunk) (n : ℕ) (s : System)
    → Steps codec n (start src) s
    → n ≤ length src + length src + length (flatten (stream codec src pipe).1.written) + 4
Steps-bound codec src n s r =
    let h = Steps-measure codec n (start src) s r in
    let e = ap (λ f. length f.1) (alone codec src) in omega arith

-- The reverse proxy reads the end of the pipe only once the goroutine has closed it.
abbrev OnceClosed : Writer → Reader → Type 0
OnceClosed w (finished e) = w ≡ closed e
OnceClosed w copying = Unit
OnceClosed w left = Unit

not_yet :
    (v w : Writer) (r : Reader)
    → ((e : Option StreamError) → v ≢ closed e)
    → OnceClosed v r
    → OnceClosed w r
not_yet v w copying n h = tt
not_yet v w (finished e) n h = absurd (n e h)
not_yet v w left n h = tt

abbrev InOrder : System → Type 0
InOrder s = OnceClosed s.writer s.reader

step-InOrder : (codec : Codec) (s t : System) → Step codec s t → InOrder s → InOrder t
step-InOrder codec s t (take_piece piece rest err src e n r et) h =
    subst InOrder (sym et) (subst (OnceClosed (offering rest err src)) (sym r) tt)
step-InOrder codec s t (write_refused bytes err src e n r et) h =
    subst InOrder (sym et) (subst (OnceClosed (ended (some write_failed))) (sym r) tt)
step-InOrder codec s t (source_severed src x e r et) h =
    subst InOrder (sym et) (subst (OnceClosed (ended (some x))) (sym r) tt)
step-InOrder codec s t (read_end x e r et) h = subst InOrder (sym et) e
step-InOrder codec s t (leave r et) h = subst InOrder (sym et) tt
step-InOrder codec s t (read_source src e et) h = subst InOrder (sym et) (
    not_yet (reading src) (round codec src) s.reader (λ x y. cc y)
      (subst (λ w. OnceClosed w s.reader) e h))
step-InOrder codec s t (write_returns err src e et) h = subst InOrder (sym et) (
    not_yet (offering [] err src) (after err src) s.reader (λ x y. cc y)
      (subst (λ w. OnceClosed w s.reader) e h))
step-InOrder codec s t (close_both x e et) h =
    subst InOrder (sym et)
      (not_yet (ended x) (closed x) s.reader (λ x y. cc y) (subst (λ w. OnceClosed w s.reader) e h))

reach-InOrder : (codec : Codec) (src : List Chunk) (s : System) → Reach codec src s → InOrder s
reach-InOrder codec src s here = tt
reach-InOrder codec src t (next {s} r st) = step-InOrder codec s t st (reach-InOrder codec src s r)

-- A step that does not depend on the client's leaving.
abbrev GoesOn : Codec → System → Type 0
GoesOn codec s = (t : System) × Step codec s t × (t.reader ≡ left → s.reader ≡ left)

abbrev Over : System → Type 0
Over s = ((e : Option StreamError) × (s.writer ≡ closed e)) × (s.reader ≢ copying)

offering-GoesOn :
    (codec : Codec) (s : System) (c : ℕ) (cs : Bytes) (err : Option StreamError) (src : List Chunk)
    (r : Reader)
    → s.writer ≡ offering (c ∷ cs) err src
    → s.reader ≡ r
    → OnceClosed (offering (c ∷ cs) err src) r
    → GoesOn codec s
offering-GoesOn codec s c cs err src copying e er h = (
  _,
  take_piece (c ∷ cs) [] err src (e ∙ ap (λ b. offering b err src) (sym (append-nil (c ∷ cs))))
      (λ x. cc x) er refl,
  λ x. x,
)
offering-GoesOn codec s c cs err src (finished x) e er h = absurd (cc h)
offering-GoesOn codec s c cs err src left e er h =
    (_, write_refused (c ∷ cs) err src e (λ x. cc x) er refl, λ x. x)

closed-GoesOn :
    (codec : Codec) (s : System) (e : Option StreamError) (r : Reader)
    → s.writer ≡ closed e
    → s.reader ≡ r
    → Over s ⊎ GoesOn codec s
closed-GoesOn codec s e copying ew er = inr (_, read_end e ew er refl, λ x. cc x)
closed-GoesOn codec s e (finished x) ew er = inl ((e, ew), λ h. cc (sym er ∙ h))
closed-GoesOn codec s e left ew er = inl ((e, ew), λ h. cc (sym er ∙ h))

goes_on :
    (codec : Codec) (s : System) (w : Writer)
    → s.writer ≡ w
    → OnceClosed w s.reader
    → Over s ⊎ GoesOn codec s
goes_on codec s (reading src) e h = inr (_, read_source src e refl, λ x. x)
goes_on codec s (offering [] err src) e h = inr (_, write_returns err src e refl, λ x. x)
goes_on codec s (offering (c ∷ cs) err src) e h =
    inr (offering-GoesOn codec s c cs err src s.reader e refl h)
goes_on codec s (ended x) e h = inr (_, close_both x e refl, λ x. x)
goes_on codec s (closed x) e h = closed-GoesOn codec s x s.reader e refl

-- A watch does not get stuck, whether or not its client leaves: in each state that it comes to, either
-- the goroutine has closed the source and the pipe and nothing is copied any more, or there is a next
-- step, which is not that the client leaves.
pub watch_progress :
    (codec : Codec) (src : List Chunk) (s : System)
    → Reach codec src s
    → (((e : Option StreamError) × (s.writer ≡ closed e)) × (s.reader ≢ copying))
      ⊎ ((t : System) × Step codec s t × (t.reader ≡ left → s.reader ≡ left))
watch_progress codec src s r = goes_on codec s s.writer refl (reach-InOrder codec src s r)
