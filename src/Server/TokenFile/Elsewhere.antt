-- ===== src/Server/TokenFile/Elsewhere.antt =====
-- What a start leaves alone when it looks for its token.
use Prim.Native.String.{◌++◌ as str_append, len}
use kubegate.Prelude.{
  String, Bool, true, false, ◌||◌, Option, none, some, ◌==◌, ltb, ◌≡◌, inl, inr, Bool-cases,
}
use kubegate.Text.Lower.{trim_white_space}
use kubegate.Server.Disk.{File, Disk, find, secured_dir, written}
use kubegate.Server.Disk.Laws.{
  IsElsewhere, IsElsewhere-trans, written-IsElsewhere, secured-IsElsewhere, secured_dir-IsElsewhere,
}
use kubegate.Server.TokenFile.{
  min_persisted_token, Os, TokenError, TokenResult, token, failed, secure_written, write_token,
  create_token, adopt_token, adopt_or_create, token_of_disk, load_or_create_token,
}

-- Where a token is returned, only its file has changed since this disk.
abbrev Spares : String → Disk → TokenResult × Disk → Type 0
Spares p d r = (tok : String) → r.0 ≡ token tok → IsElsewhere p d r.1

failed-Spares : (p : String) (d : Disk) (e : TokenError) (d' : Disk) → Spares p d (failed e, d')
failed-Spares p d e d' tok h = cc h

adopt_token-Spares : (o : Os) (p : String) (f : File) (d : Disk) → Spares p d (adopt_token o p f d)
unfolding adopt_token
adopt_token-Spares o p f d =
    elim (Bool-cases (ltb (len (trim_white_space f.text)) min_persisted_token)) [
      | inl short ↦ rw short (failed-Spares p d _ d)
      | inr long ↦ elim (Bool-cases o.can_secure_file) [
        | inl s ↦ rw (long, s) (λ tok h. secured-IsElsewhere p f d)
        | inr n ↦ rw (long, n) (failed-Spares p d _ d)
      ]
    ]

secure_written-Spares :
    (o : Os) (p tok : String) (d d' : Disk) (file : Option File)
    → IsElsewhere p d d'
    → Spares p d (secure_written o p tok d' file)
secure_written-Spares o p tok d d' none e = failed-Spares p d _ d'
secure_written-Spares o p tok d d' (some f) e = elim (Bool-cases o.can_secure_file) [
  | inl s ↦ rw s (λ tok' h. IsElsewhere-trans e (secured-IsElsewhere p f d'))
  | inr n ↦ rw n (failed-Spares p d _ d')
]

write_token-Spares :
    (o : Os) (p : String) (d : Disk) (t : Option String) → Spares p d (write_token o p d t)
write_token-Spares o p d none = failed-Spares p d _ d
write_token-Spares o p d (some tok) = elim (Bool-cases o.can_write) [
  | inl w ↦
      let d' : Disk = written p (str_append tok "\n") d in
      rw w (secure_written-Spares o p tok d d' (find p d'.files) (written-IsElsewhere p _ d))
  | inr n ↦ rw n (failed-Spares p d _ _)
]

create_token-Spares : (o : Os) (p : String) (d : Disk) → Spares p d (create_token o p d)
unfolding create_token
create_token-Spares o p d = write_token-Spares o p d _

adopt_or_create-Spares :
    (o : Os) (p : String) (d : Disk) (f : Option File) → Spares p d (adopt_or_create o p d f)
adopt_or_create-Spares o p d none = create_token-Spares o p d
adopt_or_create-Spares o p d (some f) = adopt_token-Spares o p f d

token_of_disk-Spares :
    (o : Os) (p : String) (rotate : Bool) (d : Disk) → Spares p d (token_of_disk o p rotate d)
unfolding token_of_disk
token_of_disk-Spares o p true d = create_token-Spares o p d
token_of_disk-Spares o p false d = adopt_or_create-Spares o p d _

-- A start that gets its token has changed no file but the token's, and no private directory.
pub load_or_create_token-IsElsewhere :
    (o : Os) (p tok : String) (rotate : Bool) (d : Disk)
    → (load_or_create_token o p rotate d).0 ≡ token tok
    → IsElsewhere p d (load_or_create_token o p rotate d).1
unfolding load_or_create_token create_token adopt_token
load_or_create_token-IsElsewhere o p tok rotate d h =
    elim (Bool-cases (o.dir_of p == "" || o.dir_of p == ".")) [
      | inl here ↦ rw here (token_of_disk-Spares o p rotate d tok (rw here at h))
      | inr n ↦ elim (Bool-cases o.can_make_dir) [
        | inr m ↦ cc (rw (n, m) at h)
        | inl m ↦ elim (Bool-cases o.can_secure_dir) [
          | inr c ↦ cc (rw (n, m, c) at h)
          | inl c ↦
              rw (n, m, c)
                (IsElsewhere-trans (secured_dir-IsElsewhere p (o.dir_of p) d) (
                  token_of_disk-Spares o p rotate (secured_dir (o.dir_of p) d) tok
                    (rw (n, m, c) at h)))
        ]
      ]
    ]
