-- ===== src/Text/Split.antt =====
-- Prefixes, occurrences and splitting, by the texts that the parts make up.
use Prim.Native.String.{[], ◌∷◌, ◌++◌ as str_append}
use text.Mathlib.TextEquality.{Char-path}
use text.Mathlib.TextLemmas.{nil-append, cons-append}
use kubegate.Prelude.{
  ◌≡◌, refl, ◌≢◌, ◌↔◌, ap, ℕ, Char, code, String, List, [], ◌∷◌, some, true, arith, Bool-cases, inl,
  inr, eqb, eqb→eq, All,
}
use kubegate.Text.{cut_prefix, has_prefix, contains, split, onto_head}
use kubegate.Text.Laws.{Lacks}

abbrev pub Begins : String → String → Type 0
Begins s t = (r : String) × (s ≡ str_append t r)

eqb_refl : (n : ℕ) → eqb n n ≡ true
eqb_refl n = ground arith

pub cut_prefix_sound : (s p : String) {r : String} → cut_prefix s p ≡ some r → s ≡ str_append p r
unfolding cut_prefix
cut_prefix_sound s [] h = rw nil-append (ground arith)
cut_prefix_sound [] (p ∷ ps) h = cc
cut_prefix_sound (c ∷ s) (p ∷ ps) h = elim (Bool-cases (eqb (code c) (code p))) [
  | inl e ↦
      rw (Char-path c p (eqb→eq _ _ e), cons-append)
        (ap (λ t. p ∷ t) (cut_prefix_sound s ps (rw e at h)))
  | inr e ↦ cc (rw e at h)
]

pub cut_prefix-append : (p r : String) → cut_prefix (str_append p r) p ≡ some r
unfolding cut_prefix
cut_prefix-append [] r = rw nil-append
cut_prefix-append (c ∷ p) r = rw (cons-append, eqb_refl) (cut_prefix-append p r)

pub has_prefix_sound : (s t : String) → has_prefix s t ≡ true → Begins s t
unfolding has_prefix
has_prefix_sound s [] h = (s, rw nil-append)
has_prefix_sound [] (p ∷ ps) h = cc
has_prefix_sound (c ∷ s) (p ∷ ps) h =
    let (r, e) = has_prefix_sound s ps (ground arith) in
    (r, rw (Char-path c p (eqb→eq _ _ (ground arith)), cons-append) (ap (λ t. p ∷ t) e))

pub has_prefix-append : (t r : String) → has_prefix (str_append t r) t ≡ true
unfolding has_prefix
has_prefix-append [] r = refl
has_prefix-append (c ∷ t) r = rw (cons-append, eqb_refl) (has_prefix-append t r)

-- The text stands somewhere in the other one.
abbrev pub Occurs : String → String → Type 0
Occurs t s = (a b : String) × (s ≡ str_append a (str_append t b))

pub contains_sound : (s t : String) → contains s t ≡ true → Occurs t s
unfolding contains
contains_sound [] t h = let (r, e) = has_prefix_sound "" t h in ("", r, rw nil-append e)
contains_sound (c ∷ s) t h = elim (Bool-cases (has_prefix (c ∷ s) t)) [
  | inl p ↦ let (r, e) = has_prefix_sound (c ∷ s) t p in ("", r, rw nil-append e)
  | inr p ↦
      let (a, b, e) = contains_sound s t (rw p at h) in
      (c ∷ a, b, rw (cons-append) (ap (λ u. c ∷ u) e))
]

contains_of_prefix : (s t : String) → has_prefix s t ≡ true → contains s t ≡ true
unfolding contains
contains_of_prefix [] t h = h
contains_of_prefix (c ∷ s) t h = rw h

contains-append : (a t b : String) → contains (str_append a (str_append t b)) t ≡ true
unfolding contains
contains-append [] t b =
    rw nil-append (contains_of_prefix (str_append t b) t (has_prefix-append t b))
contains-append (c ∷ a) t b = rw cons-append (ground (arith, contains-append a t b))

pub contains_iff : (s t : String) → (contains s t ≡ true) ↔ Occurs t s
contains_iff s t = (contains_sound s t, λ (a, b, e). rw e (contains-append a t b))

pub has_prefix_iff : (s t : String) → (has_prefix s t ≡ true) ↔ Begins s t
has_prefix_iff s t = (has_prefix_sound s t, λ (r, e). rw e (has_prefix-append t r))

-- The parts with the separator between them.
abbrev pub join : Char → List String → String
join d [] = ""
join d (p ∷ []) = p
join d (p ∷ q ∷ ps) = str_append p (d ∷ join d (q ∷ ps))

module _ (d : Char) where
  join-onto_head : (c : Char) (ps : List String) → ps ≢ [] → join d (onto_head c ps) ≡ c ∷ join d ps
  join-onto_head c [] h = absurd (h refl)
  join-onto_head c (p ∷ []) h = refl
  join-onto_head c (p ∷ q ∷ ps) h = rw cons-append

  onto_head-ne-nil : (c : Char) (ps : List String) → onto_head c ps ≢ []
  onto_head-ne-nil c [] h = cc
  onto_head-ne-nil c (p ∷ ps) h = cc

  pub split-ne-nil : (s : String) → split (code d) s ≢ []
  unfolding split
  split-ne-nil [] h = cc
  split-ne-nil (c ∷ s) h = elim (Bool-cases (eqb (code c) (code d))) [
    | inl e ↦ cc (rw e at h)
    | inr e ↦ onto_head-ne-nil c _ (rw e at h)
  ]

  join-cons_empty : (ps : List String) → ps ≢ [] → join d ("" ∷ ps) ≡ d ∷ join d ps
  join-cons_empty [] h = absurd (h refl)
  join-cons_empty (p ∷ ps) h = rw nil-append

  -- The parts of a text, joined again, are the text.
  pub join-split : (s : String) → join d (split (code d) s) ≡ s
  unfolding split
  join-split [] = refl
  join-split (c ∷ s) = elim (Bool-cases (eqb (code c) (code d))) [
    | inl e ↦
        rw (e, join-cons_empty _ (split-ne-nil s), join-split s) (rw (Char-path c d (eqb→eq _ _ e)))
    | inr e ↦ rw (e, join-onto_head c _ (split-ne-nil s), join-split s)
  ]

  onto_head-Lacks :
      (c : Char) (ps : List String)
      → code c ≢ code d
      → All (Lacks (code d)) ps
      → All (Lacks (code d)) (onto_head c ps)
  onto_head-Lacks c [] n h = ((n, tt), tt)
  onto_head-Lacks c (p ∷ ps) n (h, hs) = ((n, h), hs)

  -- No part holds the separator.
  pub split-Lacks : (s : String) → All (Lacks (code d)) (split (code d) s)
  unfolding split
  split-Lacks [] = (tt, tt)
  split-Lacks (c ∷ s) = elim (Bool-cases (eqb (code c) (code d))) [
    | inl e ↦ rw e (tt, split-Lacks s)
    | inr e ↦ rw e (onto_head-Lacks c _ (ground arith) (split-Lacks s))
  ]

  split_of_Lacks : (p : String) → Lacks (code d) p → split (code d) p ≡ p ∷ []
  unfolding split
  split_of_Lacks [] h = refl
  split_of_Lacks (c ∷ p) (n, h) = rw (split_of_Lacks p h) (ground arith)

  pub split-append :
      (p r : String)
      → Lacks (code d) p
      → split (code d) (str_append p (d ∷ r)) ≡ p ∷ split (code d) r
  unfolding split
  split-append [] r h = rw (nil-append, eqb_refl)
  split-append (c ∷ p) r (n, h) = rw (cons-append, split-append p r h) (ground arith)

  -- Parts without a separator, joined, are split into the same parts.
  pub split-join :
      (p : String) (ps : List String)
      → All (Lacks (code d)) (p ∷ ps)
      → split (code d) (join d (p ∷ ps)) ≡ p ∷ ps
  split-join p [] (h, _) = split_of_Lacks p h
  split-join p (q ∷ ps) (h, hs) = rw (split-append p _ h, split-join q ps hs)
