-- ===== src/Header.antt =====
-- http.Header: a map from canonical keys to the values in order.
use kubegate.Prelude.{String, List, [], ◌∷◌, ◌==◌, if◌then◌else◌}

abbrev pub Header : Type 0
Header = List (String × List String)

-- `h.Values(k)`
unfoldable pub values : String → Header → List String
values k [] = []
values k ((j, vs) ∷ h) = if j == k then vs else values k h

abbrev first_or_empty : List String → String
first_or_empty [] = ""
first_or_empty (v ∷ vs) = v

-- `h.Get(k)`
unfoldable pub get : String → Header → String
unfolding values
get k h = first_or_empty (values k h)

-- `h.Set(k, v)`
unfoldable pub set : String → String → Header → Header
set k v [] = (k, v ∷ []) ∷ []
set k v ((j, vs) ∷ h) = if j == k then (k, v ∷ []) ∷ h else (j, vs) ∷ set k v h

-- `h.Del(k)`
unfoldable pub del : String → Header → Header
del k [] = []
del k ((j, vs) ∷ h) = let rest = del k h in if j == k then rest else (j, vs) ∷ rest
