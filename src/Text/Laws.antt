-- ===== src/Text/Laws.antt =====
-- Cutting a text at its first separator, by the text that the parts make up.
use Prim.Native.String.{[], ◌∷◌, ◌++◌ as str_append}
use text.Mathlib.TextEquality.{Char-path}
use text.Mathlib.TextLemmas.{nil-append, cons-append}
use kubegate.Prelude.{
  ◌≡◌, refl, ◌≢◌, ap, ℕ, Char, code, String, true, false, arith, Bool-cases, inl, inr, eqb, eqb→eq,
  ◌==◌, eq_iff, String,
}
use kubegate.Text.{cut}

-- The text holds no character of this code.
abbrev pub Lacks : ℕ → String → Type 0
Lacks sep [] = Unit
Lacks sep (c ∷ s) = (code c ≢ sep) × Lacks sep s

module _ (d : Char) where
  -- A text with a separator is what stands before it, the separator, and what stands after it.
  pub cut_join :
      (s : String)
      → (cut (code d) s).found ≡ true
      → s ≡ str_append (cut (code d) s).before (d ∷ (cut (code d) s).after)
  unfolding cut
  cut_join [] h = cc
  cut_join (c ∷ s) h = elim (Bool-cases (eqb (code c) (code d))) [
    | inl e ↦ rw e (rw nil-append (rw (Char-path c d (eqb→eq _ _ e))))
    | inr e ↦ rw e (rw cons-append (ap (λ t. c ∷ t) (cut_join s (rw e at h))))
  ]

  pub cut-Lacks : (s : String) → Lacks (code d) (cut (code d) s).before
  unfolding cut
  cut-Lacks [] = tt
  cut-Lacks (c ∷ s) = elim (Bool-cases (eqb (code c) (code d))) [
    | inl e ↦ rw e tt
    | inr e ↦ rw e (ground arith, cut-Lacks s)
  ]

  -- Without a separator the whole text stands before it.
  pub cut_whole :
      (s : String)
      → (cut (code d) s).found ≡ false
      → ((cut (code d) s).before ≡ s) × ((cut (code d) s).after ≡ "")
  unfolding cut
  cut_whole [] h = (refl, refl)
  cut_whole (c ∷ s) h = elim (Bool-cases (eqb (code c) (code d))) [
    | inl e ↦ cc (h, e)
    | inr e ↦ let (b, a) = cut_whole s (rw e at h) in rw e (ap (λ t. c ∷ t) b, a)
  ]

  pub cut-append :
      (p q : String)
      → Lacks (code d) p
      → cut (code d) (str_append p (d ∷ q)) ≡ record { before = p; after = q; found = true }
  unfolding cut
  cut-append [] q h = rw nil-append (ground arith)
  cut-append (c ∷ p) q (n, h) = rw cons-append (rw (cut-append p q h) (ground arith))

  pub cut_of_Lacks :
      (s : String)
      → Lacks (code d) s
      → cut (code d) s ≡ record { before = s; after = ""; found = false }
  unfolding cut
  cut_of_Lacks [] h = refl
  cut_of_Lacks (c ∷ s) (n, h) = rw (cut_of_Lacks s h) (ground arith)

pub test-ne : (s t : String) → t ≢ s → (s == t) ≡ false
test-ne s t n = ground (arith, eq_iff s t)
