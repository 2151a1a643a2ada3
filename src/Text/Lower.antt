-- ===== src/Text/Lower.antt =====
-- Comparisons with ASCII texts after strings.ToLower, and strings.TrimSpace.
use Prim.Native.String.{[], ◌∷◌}
use kubegate.Prelude.{
  ℕ, ◌+◌, Char, code, String, Bool, true, false, ◌&&◌, ◌||◌, Option, none, some, leb, eqb,
  if◌then◌else◌,
}

-- The lower case of a character as far as it is ASCII: besides A to Z, Go takes U+0130 to i and
-- U+212A to k.
unfoldable pub lower : ℕ → ℕ
lower c =
    if leb b'A' c && leb c b'Z'
    then c + 32
    else if eqb c 0x130
    then b'i'
    else if eqb c 0x212a
    then b'k'
    else c

-- `strings.ToLower(s) == t`, for a lower-case ASCII text `t`.
unfoldable pub equal_lower : String → String → Bool
unfolding lower
equal_lower [] [] = true
equal_lower [] (d ∷ t) = false
equal_lower (c ∷ s) [] = false
equal_lower (c ∷ s) (d ∷ t) = eqb (lower (code c)) (code d) && equal_lower s t

-- What follows `t` in `s`, where `s` begins with `t` up to case.
unfoldable pub cut_prefix_lower : String → String → Option String
unfolding lower
cut_prefix_lower s [] = some s
cut_prefix_lower [] (d ∷ t) = none
cut_prefix_lower (c ∷ s) (d ∷ t) =
    if eqb (lower (code c)) (code d) then cut_prefix_lower s t else none

-- `strings.HasPrefix(strings.ToLower(s), t)`
unfoldable pub has_prefix_lower : String → String → Bool
unfolding cut_prefix_lower
has_prefix_lower s t = elim (cut_prefix_lower s t) [ none ↦ false | some r ↦ true ]

-- `strings.Contains(strings.ToLower(s), t)`
unfoldable pub contains_lower : String → String → Bool
unfolding has_prefix_lower
contains_lower [] t = has_prefix_lower "" t
contains_lower (c ∷ s) t = has_prefix_lower (c ∷ s) t || contains_lower s t

-- `unicode.IsSpace`
unfoldable pub is_white_space : ℕ → Bool
is_white_space c =
    (leb 9 c && leb c 13)
    || eqb c 32
    || eqb c 0x85
    || eqb c 0xa0
    || eqb c 0x1680
    || (leb 0x2000 c && leb c 0x200a)
    || eqb c 0x2028
    || eqb c 0x2029
    || eqb c 0x202f
    || eqb c 0x205f
    || eqb c 0x3000

unfoldable pub trim_left : String → String
unfolding is_white_space
trim_left [] = ""
trim_left (c ∷ s) = if is_white_space (code c) then trim_left s else c ∷ s

abbrev unless_last_space : Bool → Char → String → String
unless_last_space true c [] = ""
unless_last_space b c s = c ∷ s

unfoldable pub trim_right : String → String
unfolding is_white_space
trim_right [] = ""
trim_right (c ∷ s) = unless_last_space (is_white_space (code c)) c (trim_right s)

unfoldable pub trim_white_space : String → String
unfolding trim_left trim_right
trim_white_space s = trim_right (trim_left s)
