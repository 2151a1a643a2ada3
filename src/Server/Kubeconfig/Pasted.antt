-- ===== src/Server/Kubeconfig/Pasted.antt =====
-- What the guest's kubeconfig says, as it is read from the banner.
use Prim.Native.String.{[], ◌∷◌, ◌++◌ as str_append}
use text.Mathlib.TextLemmas.{nil-append, cons-append}
use kubegate.Prelude.{
  ℕ, code, String, Bool, true, false, not, ◌&&◌, if◌then◌else◌, Option, none, some, List, [], ◌∷◌,
  ◌++◌, ◌≡◌, refl, sym, ap, subst, ◌∙◌, arith, eqb, All, Option-cases, Bool-cases, inl, inr,
}
use kubegate.Text.{cut, cut_prefix, split}
use kubegate.Text.Laws.{Lacks, cut-Lacks, cut_whole}
use kubegate.Text.Split.{cut_prefix-append, split-append}
use kubegate.Server.Kubeconfig.{
  newline, ended, banner_lines, banner, greeting_lines, cluster_lines, user_lines, context_lines,
}

-- The value of the first line that begins like this.
abbrev pub value_of : String → List String → Option String
value_of key [] = none
value_of key (l ∷ ls) = elim (cut_prefix l key) [ none ↦ value_of key ls | some v ↦ some v ]

split-ended :
    (ls : List String)
    → All (Lacks (code newline)) ls
    → split (code newline) (ended ls) ≡ ls ++ "" ∷ []
unfolding split
split-ended [] h = refl
split-ended (l ∷ ls) (h, hs) =
    split-append newline l (ended ls) h ∙ ap (λ x. l ∷ x) (split-ended ls hs)

Lacks-append : (n : ℕ) (s t : String) → Lacks n s → Lacks n t → Lacks n (str_append s t)
Lacks-append n [] t h k = subst (Lacks n) (sym (nil-append t)) k
Lacks-append n (c ∷ s) t (h, hs) k =
    subst (Lacks n) (sym (cons-append c s t)) (h, Lacks-append n s t hs k)

-- A text in which cutting finds no newline holds none.
pub literal : (s : String) → (cut 10 s).found ≡ false → Lacks 10 s
literal s h = subst (Lacks 10) (cut_whole newline s h).0 (cut-Lacks newline s)

filled : (key s : String) → (cut 10 key).found ≡ false → Lacks 10 s → Lacks 10 (str_append key s)
filled key s h k = Lacks-append 10 key s (literal key h) k

abbrev are_plain : List String → Bool
are_plain [] = true
are_plain (l ∷ ls) = not (cut 10 l).found && are_plain ls

literals :
    (ls rest : List String)
    → are_plain ls ≡ true
    → All (Lacks 10) rest
    → All (Lacks 10) (ls ++ rest)
literals [] rest h k = k
literals (l ∷ ls) rest h k = elim (Bool-cases (cut 10 l).found) [
  | inl e ↦ cc (rw e at h)
  | inr e ↦ (literal l e, literals ls rest (rw e at h) k)
]

-- Neither text begins with the other.
abbrev apart : String → String → Bool
apart [] t = false
apart (c ∷ s) [] = false
apart (c ∷ s) (d ∷ t) = if eqb (code c) (code d) then apart s t else true

cut_prefix_apart : (s t r : String) → apart s t ≡ true → cut_prefix (str_append s r) t ≡ none
unfolding cut_prefix
cut_prefix_apart [] t r h = cc
cut_prefix_apart (c ∷ s) [] r h = cc
cut_prefix_apart (c ∷ s) (d ∷ t) r h = rw cons-append (ground (arith, cut_prefix_apart s t r))

abbrev pub server_key : String
server_key = "      server: "

abbrev context_key : String
context_key = "  cluster context : "

abbrev mode_key : String
mode_key = "  mode            : "

abbrev address_key : String
address_key = "  address         : "

abbrev ca_key : String
ca_key = "      certificate-authority-data: "

abbrev pub token_key : String
token_key = "      token: "

module _ (encode : String → String) (server_url ca_pem token mode context_name : String) where
  abbrev text_lines : List String
  text_lines = banner_lines encode server_url ca_pem token mode context_name

  token_line : value_of token_key text_lines ≡ some token
  unfolding cut_prefix
  token_line = rw (
    cut_prefix_apart context_key token_key context_name refl,
    cut_prefix_apart mode_key token_key mode refl,
    cut_prefix_apart address_key token_key server_url refl,
    cut_prefix_apart server_key token_key server_url refl,
    cut_prefix_apart ca_key token_key (encode ca_pem) refl,
    cut_prefix-append token_key token,
    value_of,
  )

  server_line : value_of server_key text_lines ≡ some server_url
  unfolding cut_prefix
  server_line = rw (
    cut_prefix_apart context_key server_key context_name refl,
    cut_prefix_apart mode_key server_key mode refl,
    cut_prefix_apart address_key server_key server_url refl,
    cut_prefix-append server_key server_url,
    value_of,
  )

  -- None of the texts that are put in holds a newline.
  pub record IsPlain : Type 0 where
    pub plain_url : Lacks 10 server_url
    pub plain_ca : Lacks 10 (encode ca_pem)
    pub plain_token : Lacks 10 token
    pub plain_mode : Lacks 10 mode
    pub plain_context : Lacks 10 context_name

  abbrev from_token : List String
  from_token = str_append token_key token ∷ context_lines

  abbrev from_server : List String
  from_server =
      str_append server_key server_url
      ∷ str_append ca_key (encode ca_pem)
      ∷ (user_lines ++ from_token)

  abbrev from_context : List String
  from_context =
      str_append context_key context_name
      ∷ str_append mode_key mode
      ∷ str_append address_key server_url
      ∷ (cluster_lines ++ from_server)

  from_token-Lacks : IsPlain → All (Lacks 10) from_token
  unfolding cut
  from_token-Lacks plain =
      (filled token_key token refl plain.plain_token, literals context_lines [] refl tt)

  from_server-Lacks : IsPlain → All (Lacks 10) from_server
  unfolding cut
  from_server-Lacks plain = (
    filled server_key server_url refl plain.plain_url,
    (
      filled ca_key (encode ca_pem) refl plain.plain_ca,
      literals user_lines from_token refl (from_token-Lacks plain),
    ),
  )

  text_lines-Lacks : IsPlain → All (Lacks 10) text_lines
  unfolding cut
  text_lines-Lacks plain = literals greeting_lines from_context refl (
    filled context_key context_name refl plain.plain_context,
    (
      filled mode_key mode refl plain.plain_mode,
      (
        filled address_key server_url refl plain.plain_url,
        literals cluster_lines from_server refl (from_server-Lacks plain),
      ),
    ),
  )

value_of-append :
    (key v : String) (xs ys : List String)
    → value_of key xs ≡ some v
    → value_of key (xs ++ ys) ≡ some v
value_of-append key v [] ys h = cc
value_of-append key v (x ∷ xs) ys h = elim (Option-cases (cut_prefix x key)) [
  | inl n ↦ rw (n, value_of) (value_of-append key v xs ys (rw (n, value_of) at h))
  | inr (u, e) ↦ rw (e, value_of) (rw (e, value_of) at h)
]

-- In the lines of a banner whose texts hold no newline, the server's line gives the address, and the
-- token's line the token, whatever else these texts are.
pub banner-value_of :
    (encode : String → String) (server_url ca_pem token mode context_name : String)
    → IsPlain encode server_url ca_pem token mode context_name
    → let lines = split 10 (banner encode server_url ca_pem token mode context_name) in
      (value_of server_key lines ≡ some server_url) × (value_of token_key lines ≡ some token)
unfolding banner
banner-value_of encode server_url ca_pem token mode context_name plain =
    let ls = text_lines encode server_url ca_pem token mode context_name in
    let e =
      split-ended ls (text_lines-Lacks encode server_url ca_pem token mode context_name plain) in
    rw e (
      value_of-append server_key server_url ls ("" ∷ [])
          (server_line encode server_url ca_pem token mode context_name),
      value_of-append token_key token ls ("" ∷ [])
          (token_line encode server_url ca_pem token mode context_name),
    )
