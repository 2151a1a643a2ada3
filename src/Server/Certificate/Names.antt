-- ===== src/Server/Certificate/Names.antt =====
-- What a new certificate is good for.
use kubegate.Prelude.{
  ℕ, ◌+◌, ◌≤◌, Option, none, some, refl, String, true, List, [], ◌∷◌, ◌++◌, ◌≡◌, ◌≢◌, ◌⊎◌, ◌↔◌,
  arith, eq_iff, ◌==◌, ap, sym, ◌∙◌, inl, inr, Bool-cases,
}
use mathlib.Core.Option.{some-injective}
use kubegate.Json.{Bytes}
use kubegate.Policy.Modes.Denials.{OneOf}
use kubegate.Server.Certificate.{
  Library, Os, Template, server_auth, template, generate_with, generate_self_signed, Sans,
  add_parsed, add_san, add_sans, host_or, listen_names, subject_names,
}

-- The bytes are one of the addresses.
abbrev pub Among : List Bytes → Bytes → Type 0
Among [] a = ⊥
Among (b ∷ bs) a = (a ≡ b) ⊎ Among bs a

-- A name that is asked for, not empty and no address; an address that such a name spells.
abbrev pub AsksDns : Library → (String → Type 0) → String → Type 0
AsksDns lib Asked s = Asked s × (s ≢ "") × (lib.parse_ip s ≡ none)

abbrev pub AsksAddress : Library → (String → Type 0) → Bytes → Type 0
AsksAddress lib Asked a = (s : String) × Asked s × (s ≢ "") × (lib.parse_ip s ≡ some a)

-- The names are exactly those that are asked for, in addition to what was there.
abbrev Adds : Library → (String → Type 0) → Sans → Sans → Type 0
Adds lib Asked before after =
    ((s : String) → OneOf after.dns s ↔ (OneOf before.dns s ⊎ AsksDns lib Asked s))
    × ((a : Bytes) → Among after.ips a ↔ (Among before.ips a ⊎ AsksAddress lib Asked a))

OneOf-append_one :
    (xs : List String) (x s : String) → OneOf (xs ++ x ∷ []) s ↔ (OneOf xs s ⊎ (s ≡ x))
OneOf-append_one [] x s = ground arith
OneOf-append_one (y ∷ xs) x s = ground (arith, OneOf-append_one xs x s)

Among-append_one : (xs : List Bytes) (x a : Bytes) → Among (xs ++ x ∷ []) a ↔ (Among xs a ⊎ (a ≡ x))
Among-append_one [] x a = ground arith
Among-append_one (y ∷ xs) x a = ground (arith, Among-append_one xs x a)

add_parsed-Adds :
    (lib : Library) (sans : Sans) (x : String) (o : Option Bytes)
    → x ≢ ""
    → lib.parse_ip x ≡ o
    → Adds lib (λ s. s ≡ x) sans (add_parsed sans x o)
add_parsed-Adds lib sans x none n e = (
  λ s.
      let (to, from) = OneOf-append_one sans.dns x s in
      (
        λ h. elim (to h) [ inl m ↦ inl m | inr q ↦ inr (q, rw q n, ap lib.parse_ip q ∙ e) ],
        elim [ inl m ↦ from (inl m) | inr (q, _, _) ↦ from (inr q) ],
      ),
  λ a. (inl, elim [ inl m ↦ m | inr (s, q, _, p) ↦ cc (sym e ∙ ap lib.parse_ip (sym q) ∙ p) ]),
)
add_parsed-Adds lib sans x (some ip) n e = (
  λ s. (inl, elim [ inl m ↦ m | inr (q, _, p) ↦ cc (sym e ∙ ap lib.parse_ip (sym q) ∙ p) ]),
  λ a.
      let (to, from) = Among-append_one sans.ips ip a in
      (
        λ h. elim (to h) [ inl m ↦ inl m | inr q ↦ inr (x, refl, n, e ∙ ap some (sym q)) ],
        elim [
          | inl m ↦ from (inl m)
          | inr (s, q, _, p) ↦
              from (inr (sym (some-injective _ _ (sym e ∙ ap lib.parse_ip (sym q) ∙ p))))
        ],
      ),
)

add_san-Adds :
    (lib : Library) (sans : Sans) (x : String) → Adds lib (λ s. s ≡ x) sans (add_san lib sans x)
unfolding add_san
add_san-Adds lib sans x = elim (Bool-cases (x == "")) [
  | inl t ↦
      let e = (eq_iff x "").0 t in
      rw t (
        λ s. (inl, elim [ inl m ↦ m | inr (q, n, _) ↦ absurd (n (q ∙ e)) ]),
        λ a. (inl, elim [ inl m ↦ m | inr (s, q, n, _) ↦ absurd (n (q ∙ e)) ]),
      )
  | inr f ↦ rw f (add_parsed-Adds lib sans x (lib.parse_ip x) (λ e. cc ((eq_iff x "").1 e, f)) refl)
]

add_sans-Adds :
    (lib : Library) (sans : Sans) (xs : List String)
    → Adds lib (λ s. OneOf xs s) sans (add_sans lib sans xs)
unfolding add_sans
add_sans-Adds lib sans [] = (
  λ s. (inl, elim [ inl m ↦ m | inr q ↦ absurd q.0 ]),
  λ a. (inl, elim [ inl m ↦ m | inr (s, q, _, _) ↦ absurd q ]),
)
add_sans-Adds lib sans (x ∷ xs) =
    let (dns, ips) = add_sans-Adds lib (add_san lib sans x) xs in
    let (dns', ips') = add_san-Adds lib sans x in
    (
      λ s. ground (arith, dns s, dns' s),
      λ a. (
        λ h. elim ((ips a).0 h) [
          | inl m ↦ elim ((ips' a).0 m) [ inl k ↦ inl k | inr (s, q, n, p) ↦ inr (s, inl q, n, p) ]
          | inr (s, q, n, p) ↦ inr (s, inr q, n, p)
        ],
        elim [
          | inl m ↦ (ips a).1 (inl ((ips' a).1 (inl m)))
          | inr (s, inl q, n, p) ↦ (ips a).1 (inl ((ips' a).1 (inr (s, q, n, p))))
          | inr (s, inr q, n, p) ↦ (ips a).1 (inr (s, q, n, p))
        ],
      ),
    )

abbrev pub loopback : List String
loopback = "127.0.0.1" ∷ "::1" ∷ "localhost" ∷ []

abbrev pub wildcards : List String
wildcards = "" ∷ "0.0.0.0" ∷ "::" ∷ []

-- A listen address asks for its host, or for loopback where it binds every address.
abbrev pub AsksFor : String → String → Type 0
AsksFor host s = (OneOf wildcards host × OneOf loopback s) ⊎ ((¬ OneOf wildcards host) × (s ≡ host))

listen_names_iff : (host s : String) → OneOf (listen_names host) s ↔ AsksFor host s
listen_names_iff host s = ground (arith, eq_iff host "", eq_iff host "0.0.0.0", eq_iff host "::")

-- The listen address or --tls-san asks for the name.
abbrev pub IsAsked : Library → String → List String → String → Type 0
IsAsked lib listen extra s = AsksFor (host_or (lib.split_host listen) listen) s ⊎ OneOf extra s

-- The names are exactly those that are asked for.
abbrev pub ListsAsked : Library → (String → Type 0) → Sans → Type 0
ListsAsked lib Asked sans =
    ((s : String) → OneOf sans.dns s ↔ AsksDns lib Asked s)
    × ((a : Bytes) → Among sans.ips a ↔ AsksAddress lib Asked a)

pub subject_names-ListsAsked :
    (lib : Library) (listen : String) (extra : List String)
    → ListsAsked lib (IsAsked lib listen extra) (subject_names lib listen extra)
unfolding subject_names
subject_names-ListsAsked lib listen extra =
    let host : String = host_or (lib.split_host listen) listen in
    let none_yet : Sans = record { ips = []; dns = [] } in
    let (dns, ips) = add_sans-Adds lib (add_sans lib none_yet (listen_names host)) extra in
    let (dns', ips') = add_sans-Adds lib none_yet (listen_names host) in
    (
      λ s. ground (arith, dns s, dns' s, listen_names_iff host s),
      λ a. (
        λ h. elim ((ips a).0 h) [
          | inl m ↦ elim ((ips' a).0 m) [
            | inl k ↦ absurd k
            | inr (s, q, n, p) ↦ (s, inl ((listen_names_iff host s).0 q), n, p)
          ]
          | inr (s, q, n, p) ↦ (s, inr q, n, p)
        ],
        λ (s, q, n, p). elim q [
          | inl l ↦ (ips a).1 (inl ((ips' a).1 (inr (s, (listen_names_iff host s).1 l, n, p))))
          | inr l ↦ (ips a).1 (inr (s, l, n, p))
        ],
      ),
    )

-- The certificate is its own authority, for a server, from an hour before now for ten years and an hour.
abbrev pub IsAnchor : ℕ → Template → Type 0
IsAnchor now t =
    (t.is_ca ≡ true)
    × (t.ext_key_usage ≡ server_auth ∷ [])
    × (t.not_before ≤ now)
    × (t.not_after ≡ now + 315360000)

generate_with_sound :
    (o : Os) (sans : Sans) (serial : Option ℕ) (pair : String × String)
    → generate_with o sans serial ≡ some pair
    → (t : Template) × (o.sign t ≡ some pair) × (t.sans ≡ sans) × IsAnchor o.now t
generate_with_sound o sans none pair h = cc h
generate_with_sound o sans (some n) pair h =
    (template n o.now sans, h, refl, (refl, refl, omega arith, refl))

-- Where a certificate is made, it is its own authority, for a server, valid now and for ten years. It
-- lists as host names exactly the names that are asked for, not empty and no address for net.ParseIP, and
-- as addresses exactly those that net.ParseIP reads in a name that is asked for and not empty. The
-- listen address asks for its host (itself, where it has no port), or for 127.0.0.1, ::1 and localhost
-- where the host is empty, 0.0.0.0 or ::; --tls-san asks for its names.
pub generate_self_signed-IsAnchor :
    (lib : Library) (o : Os) (listen : String) (extra : List String) (pair : String × String)
    → generate_self_signed lib o listen extra ≡ some pair
    → (t : Template) × (o.sign t ≡ some pair)
      × IsAnchor o.now t
      × ListsAsked lib (IsAsked lib listen extra) t.sans
generate_self_signed-IsAnchor lib o listen extra pair h =
    let (t, signed, same, anchor) =
      generate_with_sound o (subject_names lib listen extra) o.random_serial pair h in
    (t, signed, anchor, rw same (subject_names-ListsAsked lib listen extra))
