-- ===== src/Text.antt =====
-- The functions of Go's package strings that the program calls, over texts as sequences of
-- characters. Every separator is one ASCII character, so cutting bytes and characters agree.
pub mod Laws
pub mod Split
pub mod Lower
use Prim.Native.String.{[], ◌∷◌}
use mathlib.Core.List.{[], ◌∷◌}
use kubegate.Prelude.{
  ℕ, ◌+◌, Char, code, String, Bool, true, false, ◌&&◌, ◌||◌, Option, none, some, List, ◌==◌, leb,
  eqb, if◌then◌else◌,
}

-- The result of strings.Cut: the text before and after the separator, and whether it was there.
pub record Cut : Type 0 where
  pub before : String
  pub after : String
  pub found : Bool

abbrev cut_cons : Char → Cut → Cut
cut_cons c r = record r { before = c ∷ r.before }

unfoldable pub cut : ℕ → String → Cut
cut sep [] = record { before = ""; after = ""; found = false }
cut sep (c ∷ s) =
    if eqb (code c) sep
    then record { before = ""; after = s; found = true }
    else cut_cons c (cut sep s)

unfoldable pub cut_prefix : String → String → Option String
cut_prefix s [] = some s
cut_prefix [] (p ∷ ps) = none
cut_prefix (c ∷ s) (p ∷ ps) = if eqb (code c) (code p) then cut_prefix s ps else none

unfoldable pub has_prefix : String → String → Bool
has_prefix s [] = true
has_prefix [] (p ∷ ps) = false
has_prefix (c ∷ s) (p ∷ ps) = eqb (code c) (code p) && has_prefix s ps

unfoldable pub contains : String → String → Bool
unfolding has_prefix
contains [] t = has_prefix "" t
contains (c ∷ s) t = has_prefix (c ∷ s) t || contains s t

abbrev onto_head : Char → List String → List String
onto_head c [] = (c ∷ "") ∷ []
onto_head c (p ∷ ps) = (c ∷ p) ∷ ps

-- strings.Split at one character: never empty.
unfoldable pub split : ℕ → String → List String
split sep [] = "" ∷ []
split sep (c ∷ s) =
    let rest = split sep s in if eqb (code c) sep then "" ∷ rest else onto_head c rest

unfoldable pub has_suffix : String → String → Bool
has_suffix [] t = t == ""
has_suffix (c ∷ s) t = (c ∷ s) == t || has_suffix s t

unfoldable pub trim_suffix : String → String → String
trim_suffix [] t = ""
trim_suffix (c ∷ s) t = if (c ∷ s) == t then "" else c ∷ trim_suffix s t
