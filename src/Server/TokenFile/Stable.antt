-- ===== src/Server/TokenFile/Stable.antt =====
-- The token stays the same across starts.
use kubegate.Prelude.{
  String, Bool, true, false, ◌||◌, some, ◌==◌, ◌≡◌, refl, inl, inr, subst, sym, Bool-cases,
}
use kubegate.Text.Lower.{trim_white_space}
use kubegate.Server.Disk.{File, Disk, find, secured_dir}
use kubegate.Server.Disk.Laws.{made_dir-files}
use kubegate.Server.TokenFile.{
  Os, token, readable_file, adopt_token, adopt_or_create, token_of_disk, load_or_create_token,
}
use kubegate.Server.TokenFile.Kept.{IsLong, IsKept, IsFresh, load_or_create_token-IsKept}

-- Every call that a start with a persisted token makes succeeds.
abbrev pub IsWorking : Os → Type 0
IsWorking o =
    (o.can_make_dir ≡ true)
    × (o.can_secure_dir ≡ true)
    × (o.can_read ≡ true)
    × (o.can_secure_file ≡ true)

adopt_token_kept :
    (o : Os) (p tok : String) (f : File) (d : Disk)
    → o.can_secure_file ≡ true
    → trim_white_space f.text ≡ tok
    → IsLong tok
    → (adopt_token o p f d).0 ≡ token tok
unfolding adopt_token
adopt_token_kept o p tok f d s t l = rw (t, l, s)

readable_kept :
    (o : Os) (p tok : String) (d d' : Disk)
    → o.can_read ≡ true
    → (k : IsKept p tok d) → d'.files ≡ d.files
    → readable_file o p d' ≡ some k.file
readable_kept o p tok d d' r k same = rw (r, same, k.found)

token_of_disk_kept :
    (o : Os) (p tok : String) (d d' : Disk)
    → IsWorking o
    → IsKept p tok d
    → d'.files ≡ d.files
    → (token_of_disk o p false d').0 ≡ token tok
unfolding token_of_disk
token_of_disk_kept o p tok d d' (m, c, r, s) k same =
    subst (λ f. (adopt_or_create o p d' f).0 ≡ token tok)
      (sym (readable_kept o p tok d d' r k same))
      (adopt_token_kept o p tok k.file d' s k.content k.long)

load_secured :
    (o : Os) (p : String) (d : Disk)
    → (o.dir_of p == "" || o.dir_of p == ".") ≡ false
    → IsWorking o
    → token_of_disk o p false (secured_dir (o.dir_of p) d) ≡ load_or_create_token o p false d
unfolding load_or_create_token
load_secured o p d n (m, c, r, s) = rw (n, m, c)

load_kept :
    (o : Os) (p tok : String) (d : Disk)
    → IsWorking o
    → IsKept p tok d
    → (load_or_create_token o p false d).0 ≡ token tok
unfolding load_or_create_token
load_kept o p tok d w k = elim (Bool-cases (o.dir_of p == "" || o.dir_of p == ".")) [
  | inl here ↦ rw here (token_of_disk_kept o p tok d d w k refl)
  | inr n ↦
      subst (λ r. r.0 ≡ token tok) (load_secured o p d n w)
        (token_of_disk_kept o p tok d (secured_dir (o.dir_of p) d) w k
          (made_dir-files (find (o.dir_of p) d.dirs) (o.dir_of p) d))
]

-- A restart does not invalidate the token: once a token has been returned, persisted or new, the next
-- start without rotation returns the same one, where the operating system's random tokens are long
-- enough with no white space around them and the next start's calls succeed.
pub load_or_create_token_stable :
    (o o' : Os) (p tok : String) (rotate : Bool) (d : Disk)
    → IsFresh o
    → IsWorking o'
    → (load_or_create_token o p rotate d).0 ≡ token tok
    → (load_or_create_token o' p false (load_or_create_token o p rotate d).1).0 ≡ token tok
load_or_create_token_stable o o' p tok rotate d fresh w h =
    load_kept o' p tok _ w (load_or_create_token-IsKept o p tok rotate d fresh h)
