-- ===== src/Authn/Token.antt =====
-- Which requests are authenticated.
use Prim.Native.String.{len, [], ◌∷◌, ◌++◌ as str_append}
use text.Mathlib.TextLemmas.{nil-append, cons-append, cons-ne-nil}
use kubegate.Prelude.{
  ◌≡◌, refl, ◌≢◌, ◌↔◌, inl, inr, subst, sym, ap, if◌then◌else◌, String, code, true, none, some,
  arith, eq_iff, eq_refl, ltb, ◌∙◌, eqb, ◌==◌, Bool-cases, Option-cases,
}
use kubegate.Text.Lower.{lower, equal_lower, cut_prefix_lower}
use mathlib.Core.Option.{some-injective}
use kubegate.Text.Laws.{test-ne}
use kubegate.Header
use kubegate.Header.{Header}
use kubegate.Authn.{min_token_len, Authenticator, new_authenticator, presented, authenticate}

-- A text that begins with `t` up to case is that beginning and the rest.
cut_prefix_lower_sound :
    (s t : String) {r : String}
    → cut_prefix_lower s t ≡ some r
    → (scheme : String) × (s ≡ str_append scheme r) × (equal_lower scheme t ≡ true)
unfolding cut_prefix_lower equal_lower
cut_prefix_lower_sound s [] h = ("", rw nil-append (ground arith), refl)
cut_prefix_lower_sound [] (d ∷ t) h = cc
cut_prefix_lower_sound (c ∷ s) (d ∷ t) h = elim (Bool-cases (eqb (lower (code c)) (code d))) [
  | inl e ↦
      let (scheme, j, l) = cut_prefix_lower_sound s t (rw e at h) in
      (c ∷ scheme, rw cons-append (ap (λ u. c ∷ u) j), rw e l)
  | inr e ↦ cc (rw e at h)
]

cut_prefix_lower-append :
    (scheme t r : String)
    → equal_lower scheme t ≡ true
    → cut_prefix_lower (str_append scheme r) t ≡ some r
unfolding cut_prefix_lower equal_lower
cut_prefix_lower-append [] [] r h = rw nil-append
cut_prefix_lower-append [] (d ∷ t) r h = cc
cut_prefix_lower-append (c ∷ s) [] r h = cc
cut_prefix_lower-append (c ∷ s) (d ∷ t) r h =
    rw cons-append (ground (arith, cut_prefix_lower-append s t r))

-- The Authorization header is the word bearer in any case, a space, and the token.
abbrev pub Presents : String → String → Type 0
Presents raw token =
    (scheme : String) × (raw ≡ str_append scheme token) × (equal_lower scheme "bearer " ≡ true)

nonempty_rest :
    (rest token : String)
    → (if rest == "" then none else some rest) ≡ some token
    → (rest ≡ token) × (rest ≢ "")
nonempty_rest rest token h = elim (Bool-cases (rest == "")) [
  | inl e ↦ cc (rw e at h)
  | inr e ↦ (some-injective _ _ (rw e at h), λ n. cc ((eq_iff rest "").1 n))
]

presented_sound : (raw token : String) → presented raw ≡ some token → Presents raw token
unfolding presented
presented_sound raw token h = elim (Option-cases (cut_prefix_lower raw "bearer ")) [
  | inl e ↦ cc (rw (e, presented) at h)
  | inr (rest, e) ↦
      subst (Presents raw) (nonempty_rest rest token (rw (e, presented) at h)).0
        (cut_prefix_lower_sound raw "bearer " e)
]

presented_complete :
    (raw token : String) → token ≢ "" → Presents raw token → presented raw ≡ some token
unfolding presented
presented_complete raw token n (scheme, j, l) =
    rw (j, cut_prefix_lower-append scheme "bearer " token l, presented)
      (rw (test-ne token "" (λ e. n (sym e))))

equal_lower-nil : equal_lower "" "bearer " ≢ true
unfolding equal_lower
equal_lower-nil h = cc h

Presents-ne-nil : (token : String) → ¬ Presents "" token
Presents-ne-nil token ([], j, l) = equal_lower-nil l
Presents-ne-nil token (c ∷ s, j, l) = cons-ne-nil c (str_append s token) (sym (rw cons-append at j))

new_authenticator_inv :
    (token : String) (a : Authenticator)
    → new_authenticator token ≡ some a
    → (a.token ≡ token) × (token ≢ "")
unfolding new_authenticator
new_authenticator_inv token a h = elim (Bool-cases (ltb (len token) min_token_len)) [
  | inl short ↦ cc (rw short at h)
  | inr long ↦ (
    sym (ap (λ (x : Authenticator). x.token) (some-injective _ _ (rw long at h))),
    λ e. cc (rw e at long),
  )
]

authenticate_sound :
    (a : Authenticator) (h : Header)
    → authenticate a h ≡ none
    → Presents (Header.get "Authorization" h) a.token
unfolding authenticate
authenticate_sound a h ok = elim (Bool-cases (Header.get "Authorization" h == "")) [
  | inl e ↦ cc (rw e at ok)
  | inr e ↦ elim (Option-cases (presented (Header.get "Authorization" h))) [
    | inl m ↦ cc (rw (e, m) at ok)
    | inr (tok, m) ↦ elim (Bool-cases (tok == a.token)) [
      | inl t ↦ presented_sound _ _ (m ∙ ap some ((eq_iff _ _).0 t))
      | inr t ↦ cc (rw (e, m, t) at ok)
    ]
  ]
]

authenticate_complete :
    (a : Authenticator) (h : Header)
    → a.token ≢ ""
    → Presents (Header.get "Authorization" h) a.token
    → authenticate a h ≡ none
unfolding authenticate
authenticate_complete a h n p = rw (
  test-ne (Header.get "Authorization" h) ""
      (λ e. Presents-ne-nil a.token (subst (λ r. Presents r a.token) (sym e) p)),
  presented_complete _ _ n p,
  eq_refl,
)

pub authenticate_lem :
    (a : Authenticator) (h : Header)
    → a.token ≢ ""
    → (authenticate a h ≡ none) ↔ Presents (Header.get "Authorization" h) a.token
authenticate_lem a h n = (authenticate_sound a h, authenticate_complete a h n)

-- With the authenticator of a token that `New` accepts, a request is authenticated exactly when its
-- Authorization header is the scheme bearer, in any case, a space, and that token.
pub authenticate_iff :
    (token : String) (a : Authenticator) (h : Header)
    → new_authenticator token ≡ some a
    → (authenticate a h ≡ none) ↔ Presents (Header.get "Authorization" h) token
authenticate_iff token a h made =
    let (same, n) = new_authenticator_inv token a made in
    let both = authenticate_lem a h (rw same n) in
    (λ ok. rw same at (both.0 ok), λ p. both.1 (rw same p))
