-- ===== src/Audit/Writers/Invariant.antt =====
-- What holds of the goroutines that log, the mutex and the log, at every point.
use kubegate.Prelude.{
  ℕ, Bool, true, false, ◌≡◌, ◌≢◌, ◌⊎◌, inl, inr, refl, sym, ap, subst, ◌∙◌, String, Option, none,
  some, List, [], ◌∷◌, ◌++◌,
}
use mathlib.Core.List.{append_assoc, append-nil}
use mathlib.Core.Logic.{if_pos, if_neg}
use mathlib.Core.Option.{some-injective}
use native.Mathlib.Decide.{ℕ_discrete}
use kubegate.Json.{Bytes}
use kubegate.Audit.{Entry, Logger, Line, line_of}
use kubegate.Audit.Writers.{
  Pc, entered, waiting, holding, writing, returned, System, update, start, Step, prepare, lock,
  begin, skip, fail, write, unlock, Reach, here, next,
}

-- Who has returned, with the line that was written: the last first.
abbrev pub Turns : Type 0
Turns = List (ℕ × Bytes)

-- The lines of the turns, the first turn's first.
pub lines : Turns → Bytes
lines [] = []
lines ((i, b) ∷ js) = lines js ++ b

abbrev pub Listed : ℕ → Bytes → Turns → Type 0
Listed i b [] = ⊥
Listed i b ((j, c) ∷ js) = ((i ≡ j) × (b ≡ c)) ⊎ Listed i b js

-- No goroutine has two turns.
abbrev pub IsOnce : Turns → Type 0
IsOnce [] = Unit
IsOnce ((i, b) ∷ js) = ((c : Bytes) → ¬ Listed i c js) × IsOnce js

module _ (encode : Line → Bytes) (l : Logger) (entries : ℕ → Entry) where
  -- The rendering of the entry of a goroutine at some time.
  abbrev pub IsLine : ℕ → Bytes → Type 0
  IsLine i b = (ts : String) × (b ≡ encode (line_of l ts (entries i)))

  -- Each turn wrote its goroutine's line.
  abbrev pub AllWhole : Turns → Type 0
  AllWhole [] = Unit
  AllWhole ((i, b) ∷ js) = IsLine i b × AllWhole js

  -- The beginning of a line, or all of it.
  abbrev pub IsTorn : ℕ → Bytes → Type 0
  IsTorn i b = (rest : Bytes) × IsLine i (b ++ rest)

  -- The last turns wrote nothing, one before them a part of its line, and those before it their lines.
  abbrev pub BrokenOff : Turns → Type 0
  BrokenOff [] = ⊥
  BrokenOff ((i, b) ∷ js) = ((b ≡ []) × BrokenOff js) ⊎ (IsTorn i b × AllWhole js)

  abbrev pub Shape : Bool → Turns → Type 0
  Shape false js = AllWhole js
  Shape true js = BrokenOff js

  -- What the position of a goroutine says of the mutex, the encoder, the log and the turns.
  abbrev pub Agrees : Option ℕ → Bool → Bytes → Turns → ℕ → Pc → Type 0
  Agrees m f out js i entered = m ≢ some i
  Agrees m f out js i (waiting line) = (m ≢ some i) × IsLine i line
  Agrees m f out js i (holding line) = (m ≡ some i) × IsLine i line × (out ≡ lines js)
  Agrees m f out js i (writing written rest) =
      (m ≡ some i) × IsLine i (written ++ rest) × (out ≡ lines js ++ written) × (f ≡ false)
  Agrees m f out js i (returned written) = (m ≢ some i) × Listed i written js

  pub record Inv (s : System) (js : Turns) : Type 0 where
    pub free : s.mutex ≡ none → s.out ≡ lines js
    pub each : (i : ℕ) → Agrees s.mutex s.failed s.out js i (s.pc i)
    pub done : (i : ℕ) (b : Bytes) → Listed i b js → s.pc i ≡ returned b
    pub once : IsOnce js
    pub shape : Shape s.failed js

  -- A goroutine that holds the mutex neither before nor after a step of another.
  others :
      (m m' : Option ℕ) (f f' : Bool) (out out' : Bytes) (js js' : Turns) (j : ℕ) (p : Pc)
      → m ≢ some j
      → m' ≢ some j
      → ((b : Bytes) → Listed j b js → Listed j b js')
      → Agrees m f out js j p
      → Agrees m' f' out' js' j p
  others m m' f f' out out' js js' j entered n n' w h = n'
  others m m' f f' out out' js js' j (waiting line) n n' w h = (n', h.1)
  others m m' f f' out out' js js' j (holding line) n n' w h = absurd (n h.0)
  others m m' f f' out out' js js' j (writing a b) n n' w h = absurd (n h.0)
  others m m' f f' out out' js js' j (returned line) n n' w h = (n', w line h.1)

  -- Every goroutine after one has moved to `p`.
  moved :
      (m : Option ℕ) (f : Bool) (out : Bytes) (js : Turns) (pc : ℕ → Pc) (i : ℕ) (p : Pc)
      → ((j : ℕ) → i ≢ j → Agrees m f out js j (pc j))
      → Agrees m f out js i p
      → (j : ℕ) → Agrees m f out js j (update pc i p j)
  moved m f out js pc i p rest mine j = elim (ℕ_discrete i j) [
    | yes e ↦ rw (if_pos _ e) (subst (λ k. Agrees m f out js k p) e mine)
    | no n ↦ rw (if_neg _ n) (rest j n)
  ]

  -- The turns of a goroutine that has not returned are untouched by its move.
  kept_done :
      (js : Turns) (pc : ℕ → Pc) (i : ℕ) (p : Pc)
      → ((b : Bytes) → pc i ≢ returned b)
      → ((j : ℕ) (b : Bytes) → Listed j b js → pc j ≡ returned b)
      → (j : ℕ) (b : Bytes) → Listed j b js
      → update pc i p j ≡ returned b
  kept_done js pc i p n done j b h = elim (ℕ_discrete i j) [
    | yes e ↦ absurd (n b (subst (λ k. pc k ≡ returned b) (sym e) (done j b h)))
    | no m ↦ rw (if_neg _ m) (done j b h)
  ]

  abbrev SomeInv : System → Type 0
  SomeInv s = (js : Turns) × Inv s js

  module _ (s : System) (js : Turns) (inv : Inv s js) (i : ℕ) where
    mine : (p : Pc) → s.pc i ≡ p → Agrees s.mutex s.failed s.out js i p
    mine p e = subst (Agrees s.mutex s.failed s.out js i) e (inv.each i)

    some_ne : (j : ℕ) → i ≢ j → some i ≢ some j
    some_ne j n h = n (some-injective _ _ h)

    -- The others, where the mutex is this goroutine's before a step and may be free after it.
    others_stay :
        (m' : Option ℕ) (f' : Bool) (out' : Bytes) (js' : Turns)
        → s.mutex ≡ some i
        → ((j : ℕ) → i ≢ j → m' ≢ some j)
        → ((j : ℕ) (b : Bytes) → Listed j b js → Listed j b js')
        → (j : ℕ) → i ≢ j
        → Agrees m' f' out' js' j (s.pc j)
    others_stay m' f' out' js' m n' w j n =
        others s.mutex m' s.failed f' s.out out' js js' j (s.pc j) (λ h. some_ne j n (sym m ∙ h))
          (n' j n) (w j) (inv.each j)

    prepare-Inv :
        (line : Bytes)
        → IsLine i line
        → s.pc i ≡ entered
        → Inv (record s { pc = update s.pc i (waiting line) }) js
    prepare-Inv line h e = record {
      free = inv.free;
      each =
          moved s.mutex s.failed s.out js s.pc i (waiting line) (λ j n. inv.each j)
            (mine entered e, h);
      done = kept_done js s.pc i (waiting line) (λ b r. cc (sym e ∙ r)) inv.done;
      once = inv.once;
      shape = inv.shape;
    }

    lock-Inv :
        (line : Bytes)
        → s.pc i ≡ waiting line
        → s.mutex ≡ none
        → Inv (record s { mutex = some i; pc = update s.pc i (holding line) }) js
    lock-Inv line e f = record {
      free = λ h. cc h;
      each =
          moved (some i) s.failed s.out js s.pc i (holding line)
            (λ j n.
              others s.mutex (some i) s.failed s.failed s.out s.out js js j (s.pc j)
                (λ h. cc (sym f ∙ h)) (some_ne j n) (λ b h. h) (inv.each j))
            (refl, (mine (waiting line) e).1, inv.free f);
      done = kept_done js s.pc i (holding line) (λ b r. cc (sym e ∙ r)) inv.done;
      once = inv.once;
      shape = inv.shape;
    }

    begin-Inv :
        (line : Bytes)
        → s.pc i ≡ holding line
        → s.failed ≡ false
        → Inv (record s { pc = update s.pc i (writing [] line) }) js
    begin-Inv line e f =
        let (m, a, o) = mine (holding line) e in
        record {
          free = inv.free;
          each =
              moved s.mutex s.failed s.out js s.pc i (writing [] line) (λ j n. inv.each j)
                (m, a, o ∙ sym (append-nil (lines js)), f);
          done = kept_done js s.pc i (writing [] line) (λ b r. cc (sym e ∙ r)) inv.done;
          once = inv.once;
          shape = inv.shape;
        }

    write-Inv :
        (written piece rest : Bytes)
        → s.pc i ≡ writing written (piece ++ rest)
        → Inv
            (record s {
              out = s.out ++ piece;
              pc = update s.pc i (writing (written ++ piece) rest);
            })
            js
    write-Inv written piece rest e =
        let (m, a, o, f) = mine (writing written (piece ++ rest)) e in
        record {
          free = λ h. cc (sym m ∙ h);
          each =
              moved s.mutex s.failed (s.out ++ piece) js s.pc i (writing (written ++ piece) rest)
                (others_stay s.mutex s.failed (s.out ++ piece) js m
                  (λ j n h. some_ne j n (sym m ∙ h)) (λ j b h. h))
                (
                  m,
                  subst (IsLine i) (sym (append_assoc written piece rest)) a,
                  ap (λ x. x ++ piece) o ∙ append_assoc (lines js) written piece,
                  f,
                );
          done =
              kept_done js s.pc i (writing (written ++ piece) rest) (λ b r. cc (sym e ∙ r))
                inv.done;
          once = inv.once;
          shape = inv.shape;
        }

    -- A goroutine that returns, having written this, takes its turn.
    return-Inv :
        (written : Bytes) (f' : Bool)
        → ((b : Bytes) → s.pc i ≢ returned b)
        → s.mutex ≡ some i
        → s.out ≡ lines js ++ written
        → Shape f' ((i, written) ∷ js)
        → Inv
            (record s { mutex = none; failed = f'; pc = update s.pc i (returned written) })
            ((i, written) ∷ js)
    unfolding lines
    return-Inv written f' n m o sh = record {
      free = λ h. o;
      each =
          moved none f' s.out ((i, written) ∷ js) s.pc i (returned written)
            (others_stay none f' s.out ((i, written) ∷ js) m (λ j k h. cc h) (λ j b h. inr h))
            ((λ h. cc h), inl (refl, refl));
      done = λ j b. elim [
        | inl (same, line) ↦ rw (if_pos _ (sym same)) (ap returned (sym line))
        | inr h ↦ kept_done js s.pc i (returned written) n inv.done j b h
      ];
      once = ((λ c h. n c (inv.done i c h)), inv.once);
      shape = sh;
    }

    skip-Inv :
        (line : Bytes)
        → s.pc i ≡ holding line
        → s.failed ≡ true
        → Inv (record s { mutex = none; pc = update s.pc i (returned []) }) ((i, []) ∷ js)
    skip-Inv line e f =
        let (m, a, o) = mine (holding line) e in
        return-Inv [] s.failed (λ b r. cc (sym e ∙ r)) m (o ∙ sym (append-nil (lines js)))
          (subst (λ x. Shape x ((i, []) ∷ js)) (sym f)
            (inl (refl, subst (λ x. Shape x js) f inv.shape)))

    fail-Inv :
        (written rest : Bytes)
        → s.pc i ≡ writing written rest
        → Inv
            (record s { mutex = none; failed = true; pc = update s.pc i (returned written) })
            ((i, written) ∷ js)
    fail-Inv written rest e =
        let (m, a, o, f) = mine (writing written rest) e in
        return-Inv written true (λ b r. cc (sym e ∙ r)) m o
          (inr ((rest, a), subst (λ x. Shape x js) f inv.shape))

    unlock-Inv :
        (written : Bytes)
        → s.pc i ≡ writing written []
        → Inv (record s { mutex = none; pc = update s.pc i (returned written) }) ((i, written) ∷ js)
    unlock-Inv written e =
        let (m, a, o, f) = mine (writing written []) e in
        return-Inv written s.failed (λ b r. cc (sym e ∙ r)) m o
          (subst (λ x. Shape x ((i, written) ∷ js)) (sym f)
            (subst (IsLine i) (append-nil written) a, subst (λ x. Shape x js) f inv.shape))

  start-Inv : Inv start []
  unfolding lines
  start-Inv = record {
    free = λ h. refl;
    each = λ i h. cc h;
    done = λ i b h. absurd h;
    once = tt;
    shape = tt;
  }

  Step-Inv : {s t : System} → Step encode l entries s t → SomeInv s → SomeInv t
  Step-Inv {s} (prepare i ts e r) (js, inv) =
      (js, subst (λ x. Inv x js) (sym r) (prepare-Inv s js inv i _ (ts, refl) e))
  Step-Inv {s} (lock i line e f r) (js, inv) =
      (js, subst (λ x. Inv x js) (sym r) (lock-Inv s js inv i line e f))
  Step-Inv {s} (begin i line e f r) (js, inv) =
      (js, subst (λ x. Inv x js) (sym r) (begin-Inv s js inv i line e f))
  Step-Inv {s} (skip i line e f r) (js, inv) =
      ((i, []) ∷ js, subst (λ x. Inv x ((i, []) ∷ js)) (sym r) (skip-Inv s js inv i line e f))
  Step-Inv {s} (fail i w rest e r) (js, inv) =
      ((i, w) ∷ js, subst (λ x. Inv x ((i, w) ∷ js)) (sym r) (fail-Inv s js inv i w rest e))
  Step-Inv {s} (write i w piece rest e n r) (js, inv) =
      (js, subst (λ x. Inv x js) (sym r) (write-Inv s js inv i w piece rest e))
  Step-Inv {s} (unlock i w e r) (js, inv) =
      ((i, w) ∷ js, subst (λ x. Inv x ((i, w) ∷ js)) (sym r) (unlock-Inv s js inv i w e))

  pub Reach-Inv : {s : System} → Reach encode l entries s → SomeInv s
  Reach-Inv here = ([], start-Inv)
  Reach-Inv (next r st) = Step-Inv st (Reach-Inv r)
