-- ===== src/Policy/Extension/Entries.antt =====
-- What each check of the validation establishes of a request that the rule covers.
use Prim.Native.String.{◌∷◌, ◌++◌ as str_append}
use text.Mathlib.TextLemmas.{nil-append, cons-append}
use kubegate.Prelude.{
  ◌≡◌, refl, ◌≢◌, sym, subst, inl, inr, String, Bool, true, false, not, none, List, [], ◌∷◌, arith,
  ◌==◌, eq_iff, Bool-cases, Any, ℕ,
}
use kubegate.Text.{cut, contains}
use kubegate.Text.Laws.{cut-append, cut_of_Lacks}
use kubegate.Policy.Types.{Request, zero_request}
use kubegate.Policy.Rule.{matches}
use kubegate.Policy.Rule.Semantics.{Covers, everything, bare, nested, slash, WildOr}
use kubegate.Policy.Modes.{has_key, read_verbs, universal_deny_rules}
use kubegate.Policy.Extension.{
  ExtensionError, Check, fail_if, ◌or_else◌, check_groups, check_resources, check_verbs, probe,
  probe_verbs, probe_groups, probe_resources, forbidden_extension_groups,
}

contains-append_star : (p t : String) → contains t "*" ≡ true → contains (str_append p t) "*" ≡ true
unfolding contains
contains-append_star String.[] t h = rw nil-append h
contains-append_star (c ∷ p) t h = rw cons-append (ground (arith, contains-append_star p t h))

no_star : {e : String} → contains e "*" ≡ false → e ≢ "*"
unfolding contains
no_star free w = cc (rw w at free)

prefix_star : (q : String) → contains (str_append "*" (slash ∷ q)) "*" ≢ false
unfolding contains
prefix_star q h = cc (rw (cons-append "*" "" (slash ∷ q)) at h)

suffix_star : (p : String) → contains (str_append p (slash ∷ "*")) "*" ≢ false
unfolding contains
suffix_star p h = cc (h, contains-append_star p (slash ∷ "*") refl)

-- An entry without a wildcard covers one resource and one subresource: those it is cut into.
abbrev pub CutsInto : String → String → String → Type 0
CutsInto entry r s = ((cut b'/' entry).before ≡ r) × ((cut b'/' entry).after ≡ s)

Covers-CutsInto : (e r s : String) → contains e "*" ≡ false → Covers e r s → CutsInto e r s
Covers-CutsInto e r s free (everything w) = absurd (no_star free w)
Covers-CutsInto e r s free (bare l (inl w) t) = absurd (no_star free w)
Covers-CutsInto e r s free (bare l (inr (n, _)) t) = rw (cut_of_Lacks slash e l) (n, sym t)
Covers-CutsInto e r s free (nested p q l j (inl w) _) = absurd (prefix_star q (rw (j, w) at free))
Covers-CutsInto e r s free (nested p q l j (inr _) (inl w)) =
    absurd (suffix_star p (rw (j, w) at free))
Covers-CutsInto e r s free (nested p q l j (inr (n, _)) (inr m)) =
    rw (j, cut-append slash p q l) (n, m)

-- The request that stands for all of one group, resource, subresource and verb.
abbrev pub bare_request : String → String → String → String → Request
bare_request group r s v = record zero_request {
  api_group = group;
  resource = r;
  subresource = s;
  verb = v;
}

abbrev pub IsForwardable : Request → Type 0
IsForwardable req = matches universal_deny_rules req ≡ false

fail_if-not :
    (b : Bool) (e : ExtensionError) (next : Check)
    → (fail_if (not b) e or_else next) ≡ none
    → b ≡ true
fail_if-not b e next h = ground arith

module _ (i : ℕ) where
  pub check_groups_sound :
      (x : String) (gs : List String)
      → check_groups i gs ≡ none
      → Any (λ g. WildOr g x) gs
      → Any (λ g. g ≡ x) gs × (has_key forbidden_extension_groups x ≡ false)
  unfolding check_groups
  check_groups_sound x [] h a = elim a [ ]
  check_groups_sound x (g ∷ gs) h (inl (inl w)) = ground (arith, eq_iff g "*")
  check_groups_sound x (g ∷ gs) h (inl (inr e)) =
      (inl e, subst (λ y. has_key forbidden_extension_groups y ≡ false) e (ground arith))
  check_groups_sound x (g ∷ gs) h (inr a) =
      let (found, free) = check_groups_sound x gs (ground arith) a in (inr found, free)

  pub check_resources_sound :
      (r s : String) (es : List String)
      → check_resources i es ≡ none
      → Any (λ e. Covers e r s) es
      → Any (λ e. CutsInto e r s) es × (r ≢ "secrets")
  unfolding check_resources
  check_resources_sound r s [] h a = elim a [ ]
  check_resources_sound r s (e ∷ es) h (inl c) =
      let (b, a) = Covers-CutsInto e r s (ground arith) c in
      (inl (b, a), ground (arith, eq_iff (cut b'/' e).before "secrets"))
  check_resources_sound r s (e ∷ es) h (inr a) =
      let (found, free) = check_resources_sound r s es (ground arith) a in (inr found, free)

  pub check_verbs_sound :
      (x : String) (vs : List String)
      → check_verbs i vs ≡ none
      → Any (λ v. WildOr v x) vs
      → has_key read_verbs x ≡ true
  unfolding check_verbs has_key
  check_verbs_sound x [] h a = elim a [ ]
  check_verbs_sound x (v ∷ vs) h (inl (inl w)) = cc (rw w at h)
  check_verbs_sound x (v ∷ vs) h (inl (inr e)) =
      subst (λ y. has_key read_verbs y ≡ true) e (fail_if-not _ _ _ h)
  check_verbs_sound x (v ∷ vs) h (inr a) = check_verbs_sound x vs (ground arith) a

  probe_verbs_sound :
      (e g x : String) (vs : List String)
      → probe_verbs i e g vs ≡ none
      → has_key vs x ≡ true
      → IsForwardable (probe g (cut b'/' e) x)
  unfolding probe_verbs has_key
  probe_verbs_sound e g x [] h k = cc
  probe_verbs_sound e g x (v ∷ vs) h k = elim (Bool-cases (v == x)) [
    | inl same ↦
        subst (λ y. IsForwardable (probe g (cut b'/' e) y)) ((eq_iff v x).0 same) (ground arith)
    | inr other ↦ probe_verbs_sound e g x vs (ground arith) (rw other at k)
  ]

  probe_groups_sound :
      (e x v : String) (gs : List String)
      → probe_groups i e gs ≡ none
      → Any (λ g. g ≡ x) gs
      → has_key read_verbs v ≡ true
      → IsForwardable (probe x (cut b'/' e) v)
  unfolding probe_groups
  probe_groups_sound e x v [] h a k = elim a [ ]
  probe_groups_sound e x v (g ∷ gs) h (inl same) k =
      probe_verbs_sound e x v read_verbs
        (subst (λ y. probe_verbs i e y read_verbs ≡ none) same (ground arith)) k
  probe_groups_sound e x v (g ∷ gs) h (inr a) k = probe_groups_sound e x v gs (ground arith) a k

  pub probe_resources_sound :
      (x r s v : String) (gs es : List String)
      → probe_resources i gs es ≡ none
      → Any (λ g. g ≡ x) gs
      → Any (λ e. CutsInto e r s) es
      → has_key read_verbs v ≡ true
      → IsForwardable (bare_request x r s v)
  unfolding probe_resources
  probe_resources_sound x r s v gs [] h a b k = elim b [ ]
  probe_resources_sound x r s v gs (e ∷ es) h a (inl (before, after)) k =
      rw (before, after) at (probe_groups_sound e x v gs (ground arith) a k)
  probe_resources_sound x r s v gs (e ∷ es) h a (inr b) k =
      probe_resources_sound x r s v gs es (ground arith) a b k
