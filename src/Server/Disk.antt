-- ===== src/Server/Disk.antt =====
-- Files with their modes, and what the calls of package os make of them: what internal/server/token.go
-- and tls.go work on.
pub mod Laws
use kubegate.Prelude.{ℕ, String, Option, none, some, List, [], ◌∷◌, ◌==◌, if◌then◌else◌}

-- 0o700 and 0o600
abbrev pub dir_mode : ℕ
dir_mode = 448

abbrev pub file_mode : ℕ
file_mode = 384

pub record File : Type 0 where
  pub text : String
  pub mode : ℕ

-- Files by their paths, and the modes of directories. The first entry of a path counts.
pub record Disk : Type 0 where
  pub files : List (String × File)
  pub dirs : List (String × ℕ)

unfoldable pub find {ℓ} : {A : Type ℓ} → String → List (String × A) → Option A
find p [] = none
find p ((q, a) ∷ xs) = if q == p then some a else find p xs

unfoldable pub store {ℓ} : {A : Type ℓ} → String → A → List (String × A) → List (String × A)
store p a [] = (p, a) ∷ []
store p a ((q, b) ∷ xs) = if q == p then (p, a) ∷ xs else (q, b) ∷ store p a xs

-- A directory that is there keeps its mode; the chmod comes behind it.
abbrev pub made_dir : Option ℕ → String → Disk → Disk
made_dir none p d = record d { dirs = store p dir_mode d.dirs }
made_dir (some m) p d = d

abbrev pub secured_dir : String → Disk → Disk
secured_dir p d =
    let d' = made_dir (find p d.dirs) p d in record d' { dirs = store p dir_mode d'.dirs }

-- A file that is there keeps its mode when it is written.
abbrev pub mode_written : Option File → ℕ
mode_written none = file_mode
mode_written (some f) = f.mode

unfoldable pub written : String → String → Disk → Disk
written p text d = record d {
  files = store p (record { text = text; mode = mode_written (find p d.files) }) d.files;
}

-- `os.Chmod` of a file that is there.
abbrev pub secured : String → File → Disk → Disk
secured p f d = record d { files = store p (record f { mode = file_mode }) d.files }
