-- ===== src/Server/TokenFile.antt =====
-- internal/server/token.go: the proxy token and the file that keeps it.
pub mod Kept
pub mod Stable
pub mod Elsewhere
mod Tests
use Prim.Native.String.{◌++◌ as str_append, len}
use kubegate.Prelude.{
  ℕ, String, Bool, true, false, ◌||◌, not, Option, none, some, List, [], ◌∷◌, ◌==◌, ltb,
  if◌then◌else◌,
}
use kubegate.Text.Lower.{trim_white_space}
use kubegate.Server.Disk.{
  dir_mode, file_mode, File, Disk, find, store, made_dir, secured_dir, mode_written, written,
  secured,
}

abbrev pub min_persisted_token : ℕ
min_persisted_token = 32

-- What the operating system makes of the calls: filepath.Dir, which calls succeed, the encoding of
-- the random bytes where there are any, and what a failed write leaves.
pub record Os : Type 0 where
  pub dir_of : String → String
  pub can_make_dir : Bool
  pub can_secure_dir : Bool
  pub can_read : Bool
  pub can_write : Bool
  pub can_secure_file : Bool
  pub random_token : Option String
  pub after_failed_write : Disk → Disk

pub data TokenError : Type 0 where
  no_directory directory_not_secured : TokenError
  persisted_too_short : ℕ → TokenError
  persisted_not_secured no_randomness not_written not_secured : TokenError

pub data TokenResult : Type 0 where
  token : String → TokenResult
  failed : TokenError → TokenResult

-- `os.ReadFile`
abbrev pub readable_file : Os → String → Disk → Option File
readable_file o p d = if o.can_read then find p d.files else none

abbrev pub secure_written : Os → String → String → Disk → Option File → TokenResult × Disk
secure_written o p tok d none = (failed not_secured, d)
secure_written o p tok d (some f) =
    if o.can_secure_file then (token tok, secured p f d) else (failed not_secured, d)

abbrev pub write_token : Os → String → Disk → Option String → TokenResult × Disk
write_token o p d none = (failed no_randomness, d)
write_token o p d (some tok) =
    if not o.can_write
    then (failed not_written, o.after_failed_write d)
    else let d' = written p (str_append tok "\n") d in secure_written o p tok d' (find p d'.files)

-- The generation of a token.
unfoldable pub create_token : Os → String → Disk → TokenResult × Disk
unfolding written find store
create_token o p d = write_token o p d o.random_token

-- The adoption of a persisted token.
unfoldable pub adopt_token : Os → String → File → Disk → TokenResult × Disk
adopt_token o p f d =
    let tok = trim_white_space f.text in
    if ltb (len tok) min_persisted_token
    then (failed (persisted_too_short (len tok)), d)
    else if not o.can_secure_file
    then (failed persisted_not_secured, d)
    else (token tok, secured p f d)

abbrev pub adopt_or_create : Os → String → Disk → Option File → TokenResult × Disk
adopt_or_create o p d none = create_token o p d
adopt_or_create o p d (some f) = adopt_token o p f d

unfoldable pub token_of_disk : Os → String → Bool → Disk → TokenResult × Disk
token_of_disk o p rotate d =
    if not rotate then adopt_or_create o p d (readable_file o p d) else create_token o p d

-- `LoadOrCreateToken`. Of the directories that MkdirAll makes only the last is recorded.
unfoldable pub load_or_create_token : Os → String → Bool → Disk → TokenResult × Disk
unfolding token_of_disk
load_or_create_token o p rotate d =
    let dir = o.dir_of p in
    if dir == "" || dir == "."
    then token_of_disk o p rotate d
    else if not o.can_make_dir
    then (failed no_directory, d)
    else if not o.can_secure_dir
    then (failed directory_not_secured, made_dir (find dir d.dirs) dir d)
    else token_of_disk o p rotate (secured_dir dir d)
