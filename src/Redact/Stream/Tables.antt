-- ===== src/Redact/Stream/Tables.antt =====
-- Watch frames that carry a Table, as a client that asks for one with `as=Table` receives.
use kubegate.Prelude.{◌≡◌, inr, Option, none, some, subst, sym, arith, eq_iff, ◌∙◌}
use mathlib.Core.Option.{some-injective}
use kubegate.Json.{Json, object, Fields, lookup, put, entries}
use kubegate.Json.Laws.{lookup-put}
use kubegate.Redact.{redact_object}
use kubegate.Redact.Keeps.{redact_object_keeps}
use kubegate.Redact.Stream.{redact_frame}

redact_frame_object :
    (frame : Json) (obj : Fields)
    → lookup "object" (entries frame) ≡ some (object obj)
    → redact_frame frame
      ≡ some (object (put "object" (object (redact_object obj "").value) (entries frame)))
unfolding redact_frame
redact_frame_object frame obj e = rw e

-- The rows of the frame's object, if it has an object with rows.
abbrev pub rows_of : Option Json → Option Json
rows_of (some (object obj)) = lookup "rows" obj
rows_of _ = none

-- A frame whose object is a map is passed on with the object's rows exactly as they were: the
-- objects that the rows of a Table carry are not redacted in a watch.
pub redact_frame-rows :
    (frame frame' : Json) (obj : Fields)
    → lookup "object" (entries frame) ≡ some (object obj)
    → redact_frame frame ≡ some frame'
    → rows_of (lookup "object" (entries frame')) ≡ lookup "rows" obj
redact_frame-rows frame frame' obj e h =
    subst (λ f. rows_of (lookup "object" (entries f)) ≡ lookup "rows" obj)
      (some-injective _ _ (sym (redact_frame_object frame obj e) ∙ h))
      (rw (lookup-put "object" "object")
        (redact_object_keeps obj "" "rows" (ground (arith, eq_iff "rows" "metadata")) (
          inr
            (ground (arith, eq_iff "rows" "data"), ground (arith, eq_iff "rows" "stringData")))).0)
