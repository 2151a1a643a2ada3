-- ===== src/Server/TokenFile/Kept.antt =====
-- What is on the disk where a token is returned.
use Prim.Native.String.{◌++◌ as str_append, len}
use kubegate.Prelude.{
  String, Bool, true, false, ◌||◌, Option, none, some, ◌==◌, ltb, ◌≡◌, refl, inl, inr, ap, subst,
  ◌∙◌, Bool-cases,
}
use kubegate.Text.Lower.{trim_white_space}
use kubegate.Server.Disk.{File, Disk, file_mode, find, secured_dir, written, secured}
use kubegate.Server.Disk.Laws.{find-store_self, written-text}
use kubegate.Server.TokenFile.{
  Os, TokenError, TokenResult, token, failed, min_persisted_token, secure_written, write_token,
  create_token, adopt_token, adopt_or_create, token_of_disk, load_or_create_token,
}

-- A token that is long enough.
abbrev pub IsLong : String → Type 0
IsLong tok = ltb (len tok) min_persisted_token ≡ false

-- A private file keeps the token.
pub record IsKept (p tok : String) (d : Disk) : Type 0 where
  pub file : File
  pub found : find p d.files ≡ some file
  pub private : file.mode ≡ file_mode
  pub content : trim_white_space file.text ≡ tok
  pub long : IsLong tok

-- The encoding of random bytes, where there is one, is long enough and has no white space at its ends.
abbrev pub IsFresh : Os → Type 0
IsFresh o =
    (tok : String)
    → o.random_token ≡ some tok
    → (trim_white_space (str_append tok "\n") ≡ tok) × IsLong tok

token-inj : {a b : String} → token a ≡ token b → a ≡ b
token-inj e = cc e

secured-IsKept :
    (p tok : String) (f : File) (d : Disk)
    → trim_white_space f.text ≡ tok
    → IsLong tok
    → IsKept p tok (secured p f d)
secured-IsKept p tok f d t l = record {
  file = record f { mode = file_mode };
  found = find-store_self p _ d.files;
  private = refl;
  content = t;
  long = l;
}

-- What a step leaves where it returns a token.
abbrev Keeps : String → TokenResult × Disk → Type 0
Keeps p r = (tok : String) → r.0 ≡ token tok → IsKept p tok r.1

failed-Keeps : (p : String) (e : TokenError) (d : Disk) → Keeps p (failed e, d)
failed-Keeps p e d tok h = cc h

adopt_token-Keeps : (o : Os) (p : String) (f : File) (d : Disk) → Keeps p (adopt_token o p f d)
unfolding adopt_token
adopt_token-Keeps o p f d =
    elim (Bool-cases (ltb (len (trim_white_space f.text)) min_persisted_token)) [
      | inl short ↦ rw short (failed-Keeps p _ d)
      | inr long ↦ elim (Bool-cases o.can_secure_file) [
        | inl s ↦
            rw (long, s)
              (λ tok h. secured-IsKept p tok f d (token-inj h) (rw (token-inj h) at long))
        | inr n ↦ rw (long, n) (failed-Keeps p _ d)
      ]
    ]

secure_written-Keeps :
    (o : Os) (p tok : String) (d : Disk) (file : Option File)
    → ((f : File) → file ≡ some f → trim_white_space f.text ≡ tok)
    → IsLong tok
    → Keeps p (secure_written o p tok d file)
secure_written-Keeps o p tok d none t l = failed-Keeps p _ d
secure_written-Keeps o p tok d (some f) t l = elim (Bool-cases o.can_secure_file) [
  | inl s ↦ rw s (λ tok' h.
      subst (λ x. IsKept p x (secured p f d)) (token-inj h) (secured-IsKept p tok f d (t f refl) l))
  | inr n ↦ rw n (failed-Keeps p _ d)
]

write_token-Keeps :
    (o : Os) (p : String) (d : Disk) (t : Option String)
    → IsFresh o
    → o.random_token ≡ t
    → Keeps p (write_token o p d t)
write_token-Keeps o p d none fresh e = failed-Keeps p _ d
write_token-Keeps o p d (some tok) fresh e = elim (Bool-cases o.can_write) [
  | inl w ↦
      let (same, long) = fresh tok e in
      rw w (
        secure_written-Keeps o p tok (written p (str_append tok "\n") d)
          (find p (written p (str_append tok "\n") d).files)
          (λ f g. ap trim_white_space (written-text p _ d f g) ∙ same) long)
  | inr n ↦ rw n (failed-Keeps p _ _)
]

create_token-Keeps : (o : Os) (p : String) (d : Disk) → IsFresh o → Keeps p (create_token o p d)
unfolding create_token
create_token-Keeps o p d fresh = write_token-Keeps o p d _ fresh refl

adopt_or_create-Keeps :
    (o : Os) (p : String) (d : Disk) (f : Option File)
    → IsFresh o
    → Keeps p (adopt_or_create o p d f)
adopt_or_create-Keeps o p d none fresh = create_token-Keeps o p d fresh
adopt_or_create-Keeps o p d (some f) fresh = adopt_token-Keeps o p f d

token_of_disk-Keeps :
    (o : Os) (p : String) (rotate : Bool) (d : Disk)
    → IsFresh o
    → Keeps p (token_of_disk o p rotate d)
unfolding token_of_disk
token_of_disk-Keeps o p true d fresh = create_token-Keeps o p d fresh
token_of_disk-Keeps o p false d fresh = adopt_or_create-Keeps o p d _ fresh

load_or_create_token-Keeps :
    (o : Os) (p : String) (rotate : Bool) (d : Disk)
    → IsFresh o
    → Keeps p (load_or_create_token o p rotate d)
unfolding load_or_create_token create_token adopt_token
load_or_create_token-Keeps o p rotate d fresh =
    elim (Bool-cases (o.dir_of p == "" || o.dir_of p == ".")) [
      | inl here ↦ rw here (token_of_disk-Keeps o p rotate d fresh)
      | inr n ↦ elim (Bool-cases o.can_make_dir) [
        | inr m ↦ rw (n, m) (failed-Keeps p _ _)
        | inl m ↦ elim (Bool-cases o.can_secure_dir) [
          | inr c ↦ rw (n, m, c) (failed-Keeps p _ _)
          | inl c ↦ rw (n, m, c) (token_of_disk-Keeps o p rotate (secured_dir (o.dir_of p) d) fresh)
        ]
      ]
    ]

-- Whenever a token is returned, persisted or new, its file is there with mode 0600, holds the token up
-- to white space around it, and the token has 32 bytes at least, where the operating system's random
-- tokens are such themselves.
pub load_or_create_token-IsKept :
    (o : Os) (p tok : String) (rotate : Bool) (d : Disk)
    → IsFresh o
    → (load_or_create_token o p rotate d).0 ≡ token tok
    → IsKept p tok (load_or_create_token o p rotate d).1
load_or_create_token-IsKept o p tok rotate d fresh h =
    load_or_create_token-Keeps o p rotate d fresh tok h
